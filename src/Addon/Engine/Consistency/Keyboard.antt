-- ===== src/Addon/Engine/Consistency/Keyboard.antt =====
-- VinputEngine: the keyboard handler, on the fields that agree with each other.
use fcitx5_vinput.Base.{
  ℕ, ◌≡◌, refl, ◌∙◌, sym, ap, Bool, true, false, not, ◌&&◌, Option, none, some, if◌then◌else◌,
  if_both, ◌==◌, arith,
}
use fcitx5_vinput.Config.Types.{Platform}
use fcitx5_vinput.Addon.PollGate
use fcitx5_vinput.Addon.PollGate.{Ticket, StatusPollGate}
use fcitx5_vinput.Addon.Engine.{
  InputContext, Key, Phase, pending_start, recording, inferring, postprocessing, Session,
  HotkeyRole, no_role, menu_role, trigger_role, command_role, blank, Engine, World,
}
use fcitx5_vinput.Addon.Engine.Presentation.{
  hide_palette_menu, clear_voice_presentation, update_voice_presentation,
}
use fcitx5_vinput.Addon.Engine.Frontend.{
  cancel_pending_start, schedule_stop_recording, finish_frontend_session, needs_sync,
}
use fcitx5_vinput.Addon.Engine.Daemon.{
  call_cancel_operation, start_voice_recording, is_recording, has_none,
}
use fcitx5_vinput.Addon.Engine.Palette.{show_palette_menu}
use fcitx5_vinput.Addon.Engine.Keyboard.{
  is_voice_role, is_command_role, same_role, update_session, with_session, schedule_if_recording,
  toggle_command_palette, discard_session, discard_held, break_chord, stop_or_discard, press_again,
  starts_on_press, new_press,
}
use fcitx5_vinput.Addon.Engine.Invariant.{
  Parts, parts, IsShown, IsHeld, IsConsistent, present-parts, hide_palette_menu-parts,
}
use fcitx5_vinput.Addon.Engine.Consistency.Menus.{show_palette_menu-parts}
use fcitx5_vinput.Addon.Engine.Consistency.{
  parts-IsConsistent, finish-parts, emptied, emptied-IsConsistent,
}
use fcitx5_vinput.Addon.Engine.Consistency.Daemon.{
  call_cancel_operation-parts, finish_stop_recording-IsConsistent,
}
use fcitx5_vinput.Addon.Engine.Consistency.Starting.{start_voice_recording-IsConsistent}

-- No key is held any more.
pub unheld-IsConsistent :
    (b : Bool) (e : Engine)
    → IsConsistent e
    → IsConsistent (record e { held_role = no_role; held_key_sym = none; chord_interrupted = b })
unfolding IsConsistent parts
unheld-IsConsistent b e (shown, held) = (shown, refl)

-- A hotkey is held from now on.
pressed-IsHeld :
    (role : HotkeyRole) (k : ℕ) → same_role role no_role ≡ false → IsHeld role (some k) false
pressed-IsHeld no_role k h = ground arith
pressed-IsHeld menu_role k h = refl
pressed-IsHeld trigger_role k h = refl
pressed-IsHeld command_role k h = refl

pressed-IsConsistent :
    (role : HotkeyRole) (k now : ℕ) (e : Engine)
    → same_role role no_role ≡ false
    → IsConsistent e
    → IsConsistent (record e {
      held_key_sym = some k;
      held_role = role;
      chord_interrupted = false;
      held_press_time = now;
    })
unfolding IsConsistent parts
pressed-IsConsistent role k now e q (shown, held) = (shown, pressed-IsHeld role k q)

updated-IsShown :
    (f : Session → Session) (s : Option Session) (ic : Option InputContext) (armed : Bool)
    (call : Option Ticket) (g : StatusPollGate)
    → ((t : Session) → (f t).ic ≡ t.ic)
    → IsShown s ic armed call g
    → IsShown (update_session f s) ic armed call g
updated-IsShown f none ic armed call g k h = h
updated-IsShown f (some s) ic armed call g k (a, b, c) = (a ∙ ap some (sym (k s)), b, c)

pub with_session-IsConsistent :
    (f : Session → Session) (e : Engine)
    → ((t : Session) → (f t).ic ≡ t.ic)
    → IsConsistent e
    → IsConsistent (with_session f e)
unfolding IsConsistent parts with_session
with_session-IsConsistent f e k (shown, held) = (
  updated-IsShown f e.session e.status_ic e.status_sync_armed e.pending_status_call
      e.status_poll_gate k shown,
  held,
)

pub schedule_if_recording-IsConsistent :
    (e : Engine) → IsConsistent e → IsConsistent (schedule_if_recording e)
unfolding schedule_if_recording schedule_stop_recording IsConsistent parts
schedule_if_recording-IsConsistent e h =
    let stops : Engine = record e { pending_stop_armed = true } in
    if_both IsConsistent (is_recording e.session) stops e (λ k. h) (λ k. h)

module _ {P : Platform} (w : World P) where
  pub toggle-IsConsistent :
      (ic : InputContext) (e : Engine)
      → IsConsistent e
      → IsConsistent (toggle_command_palette w ic e)
  unfolding toggle_command_palette
  toggle-IsConsistent ic e h =
      let shown = show_palette_menu w ic e in
      let b = not (has_none e.session) in
      if_both IsConsistent e.palette_menu_visible (hide_palette_menu e) (if b then e else shown)
        (λ k. parts-IsConsistent (hide_palette_menu e) e (hide_palette_menu-parts e) h)
        (λ k.
          if_both IsConsistent b e shown (λ l. h)
            (λ l. parts-IsConsistent shown e (show_palette_menu-parts w ic e) h))

  pub cancelled-IsConsistent :
      (b : Bool) (e : Engine) → IsConsistent e → IsConsistent (call_cancel_operation w b e)
  cancelled-IsConsistent b e h =
      parts-IsConsistent (call_cancel_operation w b e) e (call_cancel_operation-parts w b e) h

  -- A session that is discarded leaves nothing.
  pub discard-parts :
      (ic : InputContext) (e : Engine)
      → IsConsistent e
      → parts (discard_session w ic e)
        ≡ emptied
            (PollGate.invalidate (call_cancel_operation w false e).status_poll_gate)
            (parts (call_cancel_operation w false e))
  unfolding discard_session clear_voice_presentation update_voice_presentation
  discard-parts ic e h =
      let e1 = call_cancel_operation w false e in
      present-parts (some ic) blank blank (finish_frontend_session (some ic) e1)
      ∙ finish-parts (some ic) e1 (cancelled-IsConsistent false e h)

  pub discard-IsConsistent :
      (ic : InputContext) (e : Engine) → IsConsistent e → IsConsistent (discard_session w ic e)
  discard-IsConsistent ic e h =
      let e1 = call_cancel_operation w false e in
      emptied-IsConsistent (PollGate.invalidate e1.status_poll_gate) (discard_session w ic e) e1
        (discard-parts ic e h) (cancelled-IsConsistent false e h)

  -- A session may be discarded after the keys are released.
  pub discard-unheld :
      (ic : InputContext) (e : Engine)
      → IsConsistent e
      → (discard_session w ic e).held_role ≡ e.held_role
  unfolding parts needs_sync
  discard-unheld ic e h =
      let role : Parts → HotkeyRole = λ p. p.role in
      ap role (discard-parts ic e h) ∙ ap role (call_cancel_operation-parts w false e)

  discard_held-IsConsistent :
      (o : Option Session) (e : Engine) → IsConsistent e → IsConsistent (discard_held w o e)
  discard_held-IsConsistent none e h = h
  discard_held-IsConsistent (some s) e h =
      if_both IsConsistent (s.stop_on_release && not s.trigger_released) (discard_session w s.ic e)
        e (λ k. discard-IsConsistent s.ic e h) (λ k. h)

  pub break_chord-IsConsistent : (e : Engine) → IsConsistent e → IsConsistent (break_chord w e)
  unfolding break_chord cancel_pending_start
  break_chord-IsConsistent e h =
      let e1 : Engine = record e {
        held_role = no_role;
        held_key_sym = none;
        chord_interrupted = true;
      } in
      if_both IsConsistent (same_role e.held_role no_role) e (discard_held w e1.session e1) (λ k. h)
        (λ k. discard_held-IsConsistent e1.session e1 (unheld-IsConsistent true e h))

  stop_or_discard-IsConsistent :
      (phase : Phase) (ic : InputContext) (e : Engine)
      → IsConsistent e
      → IsConsistent (stop_or_discard w phase ic e)
  stop_or_discard-IsConsistent pending_start ic e h = discard-IsConsistent ic e h
  stop_or_discard-IsConsistent recording ic e h = finish_stop_recording-IsConsistent w e h
  stop_or_discard-IsConsistent inferring ic e h = finish_stop_recording-IsConsistent w e h
  stop_or_discard-IsConsistent postprocessing ic e h = finish_stop_recording-IsConsistent w e h

  pub press_again-IsConsistent :
      (matched : Key) (s : Session) (e : Engine)
      → IsConsistent e
      → IsConsistent (press_again w matched s e)
  unfolding press_again
  press_again-IsConsistent matched s e h =
      let stops = stop_or_discard w s.phase s.ic e in
      if_both IsConsistent (not (s.trigger == matched)) (discard_session w s.ic e)
        (if not s.trigger_released then e else stops) (λ k. discard-IsConsistent s.ic e h)
        (λ k.
          if_both IsConsistent (not s.trigger_released) e stops (λ l. h)
            (λ l. stop_or_discard-IsConsistent s.phase s.ic e h))

  pub new_press-IsConsistent :
      (ic : InputContext) (k : ℕ) (role : HotkeyRole) (matched : Key) (e : Engine)
      → same_role role no_role ≡ false
      → IsConsistent e
      → IsConsistent (new_press w ic k role matched e)
  unfolding new_press
  new_press-IsConsistent ic k role matched e q h =
      let e1 : Engine = record e {
        held_key_sym = some k;
        held_role = role;
        chord_interrupted = false;
        held_press_time = w.now;
      } in
      let h1 : IsConsistent e1 = pressed-IsConsistent role k w.now e q h in
      let f : Session → Session =
        λ s. record s { press_time = w.now; stop_on_release = true; trigger_released = false } in
      let e2 = start_voice_recording w ic matched (is_command_role role) e1 in
      if_both IsConsistent (is_voice_role role && starts_on_press w e1.trigger_mode)
        (with_session f e2) e1
        (λ l.
          with_session-IsConsistent f e2 (λ t. refl)
            (start_voice_recording-IsConsistent w ic matched (is_command_role role) e1 h1))
        (λ l. h1)
