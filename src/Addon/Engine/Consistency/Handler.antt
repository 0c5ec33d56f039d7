-- ===== src/Addon/Engine/Consistency/Handler.antt =====
-- VinputEngine: handleKeyEvent as a whole, on the fields that agree with each other.
use fcitx5_vinput.Base.{
  ℕ, ◌≡◌, refl, Bool, true, false, not, ◌&&◌, ◌||◌, Option, none, some, if◌then◌else◌, if_both,
  ◌==◌, ◌-◌, ltb, str_eq,
}
use fcitx5_vinput.Config.Types.{Platform}
use fcitx5_vinput.Addon.Panel.{escape, return_key, kp_enter}
use fcitx5_vinput.Addon.Engine.{
  InputContext, Key, Session, HotkeyRole, no_role, TriggerMode, tap, hold, both, Engine, World,
  Keys, KeyEvent, trigger_debounce, tap_max_hold_duration, status_postprocessing,
}
use fcitx5_vinput.Addon.Engine.Presentation.{
  remember_input_context, dismiss_menus_for_voice_activity,
}
use fcitx5_vinput.Addon.Engine.Frontend.{cancel_pending_stop, cancel_pending_start}
use fcitx5_vinput.Addon.Engine.Daemon.{call_cancel_operation, start_voice_recording, has_none}
use fcitx5_vinput.Addon.Engine.Keyboard.{
  Handled, classify, is_voice_role, is_command_role, same_role, with_session, is_postprocessing,
  schedule_if_recording, toggle_command_palette, cancel_of, cancel_postprocessing,
  is_pending_release, break_chord, new_press, capturing, press_in, on_press,
}
use fcitx5_vinput.Addon.Engine.Menus.{handle_result_menu_key_event, handle_palette_menu_key_event}
use fcitx5_vinput.Addon.Engine.Releases.{
  tap_or_hold, release_held, release_of, release_session, matches_held, on_release,
}
use fcitx5_vinput.Addon.Engine.KeyEvents.{
  handle_hotkey, or_next, offer, or_else, handle_in_menus, handle_key_event,
}
use fcitx5_vinput.Addon.Engine.Invariant.{parts, IsConsistent}
use fcitx5_vinput.Addon.Engine.Consistency.{parts-IsConsistent, same_owner-IsConsistent}
use fcitx5_vinput.Addon.Engine.Consistency.Menus.{result_menu-parts, palette-parts}
use fcitx5_vinput.Addon.Engine.Consistency.Daemon.{dismissed-IsConsistent}
use fcitx5_vinput.Addon.Engine.Consistency.Starting.{start_voice_recording-IsConsistent}
use fcitx5_vinput.Addon.Engine.Consistency.Replies.{remember-IsConsistent}
use fcitx5_vinput.Addon.Engine.Consistency.Keyboard.{
  unheld-IsConsistent, with_session-IsConsistent, schedule_if_recording-IsConsistent,
  toggle-IsConsistent, cancelled-IsConsistent, break_chord-IsConsistent, press_again-IsConsistent,
  new_press-IsConsistent,
}

released-IsConsistent :
    (o : Option Key) (e : Engine)
    → IsConsistent e
    → IsConsistent (record e { pending_postprocessing_release = o })
unfolding IsConsistent parts
released-IsConsistent o e h = h

module _ {P : Platform} (w : World P) where
  press_in-IsConsistent :
      (o : Option Session) (ic : InputContext) (k : ℕ) (role : HotkeyRole) (matched : Key)
      (e : Engine)
      → same_role role no_role ≡ false
      → IsConsistent e
      → IsConsistent (press_in w o ic k role matched e)
  press_in-IsConsistent none ic k role matched e q h =
      new_press-IsConsistent w ic k role matched e q h
  press_in-IsConsistent (some s) ic k role matched e q h = press_again-IsConsistent w matched s e h

  on_press-IsConsistent :
      (ic : InputContext) (k : ℕ) (role : HotkeyRole) (matched : Key) (e : Engine)
      → same_role role no_role ≡ false
      → IsConsistent e
      → IsConsistent (on_press w ic k role matched e)
  unfolding on_press IsConsistent parts
  on_press-IsConsistent ic k role matched e q h =
      let e1 : Engine = record e { last_trigger_time = w.now } in
      let e2 = cancel_pending_stop (dismiss_menus_for_voice_activity e1) in
      let again = press_in w (capturing w e2.session) ic k role matched e2 in
      let early = ltb (w.now - e.last_trigger_time) trigger_debounce in
      if_both IsConsistent (not (is_voice_role role)) (new_press w ic k role matched e)
        (if early then e1 else again) (λ l. new_press-IsConsistent w ic k role matched e q h)
        (λ l.
          if_both IsConsistent early e1 again (λ m. h)
            (λ m.
              press_in-IsConsistent (capturing w e2.session) ic k role matched e2 q
                (dismissed-IsConsistent e1 h)))

  tap_or_hold-IsConsistent :
      (mode : TriggerMode) (ic : InputContext) (role : HotkeyRole) (matched : Key) (e : Engine)
      → IsConsistent e
      → IsConsistent (tap_or_hold w mode ic role matched e)
  tap_or_hold-IsConsistent hold ic role matched e h = schedule_if_recording-IsConsistent e h
  tap_or_hold-IsConsistent tap ic role matched e h =
      let f : Session → Session =
        λ s. record s { press_time = w.now; trigger_released = true; stop_on_release = false } in
      let e1 = start_voice_recording w ic matched (is_command_role role) e in
      if_both IsConsistent (has_none e.session) (with_session f e1) (schedule_if_recording e)
        (λ k.
          with_session-IsConsistent f e1 (λ t. refl)
            (start_voice_recording-IsConsistent w ic matched (is_command_role role) e h))
        (λ k. schedule_if_recording-IsConsistent e h)
  tap_or_hold-IsConsistent both ic role matched e h =
      let f : Session → Session =
        λ s. record s { trigger_released = true; stop_on_release = false } in
      if_both IsConsistent (ltb (w.now - e.held_press_time) tap_max_hold_duration)
        (with_session f e) (schedule_if_recording e)
        (λ k. with_session-IsConsistent f e (λ t. refl) h)
        (λ k. schedule_if_recording-IsConsistent e h)

  release_held-IsConsistent :
      (ic : InputContext) (role : HotkeyRole) (matched : Key) (e : Engine)
      → IsConsistent e
      → IsConsistent (release_held w ic role matched e)
  unfolding release_held
  release_held-IsConsistent ic role matched e h =
      let toggled = toggle_command_palette w ic e in
      if_both IsConsistent (is_voice_role role) (tap_or_hold w e.trigger_mode ic role matched e)
        (if has_none e.session then toggled else e)
        (λ k. tap_or_hold-IsConsistent e.trigger_mode ic role matched e h)
        (λ k.
          if_both IsConsistent (has_none e.session) toggled e (λ l. toggle-IsConsistent w ic e h)
            (λ l. h))

  release_of-IsConsistent :
      (o : Option Session) (matched : Key) (e : Engine)
      → e.session ≡ o
      → IsConsistent e
      → IsConsistent (release_of w o matched e)
  release_of-IsConsistent none matched e q h = h
  release_of-IsConsistent (some s) matched e q h =
      let t : Session = record s { trigger_released = true } in
      let e1 : Engine = record e { session = some t } in
      let h1 : IsConsistent e1 = same_owner-IsConsistent s t e q refl h in
      let stops = schedule_if_recording e1 in
      if_both IsConsistent (not (s.trigger == matched)) e (if s.stop_on_release then stops else e1)
        (λ k. h)
        (λ k.
          if_both IsConsistent s.stop_on_release stops e1
            (λ l. schedule_if_recording-IsConsistent e1 h1) (λ l. h1))

  release_session-IsConsistent :
      (matched : Key) (e : Engine) → IsConsistent e → IsConsistent (release_session w matched e)
  unfolding release_session
  release_session-IsConsistent matched e h = release_of-IsConsistent e.session matched e refl h

  on_release-IsConsistent :
      (ic : InputContext) (k : ℕ) (role : HotkeyRole) (matched : Key) (e : Engine)
      → IsConsistent e
      → IsConsistent (on_release w ic k role matched e)
  unfolding on_release cancel_pending_start
  on_release-IsConsistent ic k role matched e h =
      let e1 : Engine = record e { held_role = no_role; held_key_sym = none } in
      let e2 : Engine = record e1 { chord_interrupted = false } in
      let e3 = release_held w ic role matched e1 in
      let h1 : IsConsistent e1 = unheld-IsConsistent e.chord_interrupted e h in
      let done = release_session w matched e3 in
      if_both IsConsistent (not (matches_held w role k e)) (release_session w matched e)
        (if e1.chord_interrupted then e2 else done) (λ l. release_session-IsConsistent matched e h)
        (λ l.
          if_both IsConsistent e1.chord_interrupted e2 done (λ m. unheld-IsConsistent false e h)
            (λ m.
              release_session-IsConsistent matched e3
                (release_held-IsConsistent ic role matched e1 h1)))

  handle_hotkey-IsConsistent :
      (K : Keys) (k : KeyEvent) (e : Engine)
      → IsConsistent e
      → IsConsistent (handle_hotkey w K k e).0
  unfolding handle_hotkey
  handle_hotkey-IsConsistent K k e h =
      let key = K.normalize k.orig_key in
      let r = classify K key k.is_release e in
      let broken = if k.is_release then e else break_chord w e in
      let released = on_release w k.input_context (K.sym key) r.0 r.1 e in
      let pressed = on_press w k.input_context (K.sym key) r.0 r.1 e in
      let left : Handled = (broken, false) in
      let taken : Handled = (if k.is_release then released else pressed, true) in
      if_both (λ x. IsConsistent x.0) (same_role r.0 no_role) left taken
        (λ l.
          if_both IsConsistent k.is_release e (break_chord w e) (λ m. h)
            (λ m. break_chord-IsConsistent w e h))
        (λ l.
          if_both IsConsistent k.is_release released pressed
            (λ m. on_release-IsConsistent k.input_context (K.sym key) r.0 r.1 e h)
            (λ m. on_press-IsConsistent k.input_context (K.sym key) r.0 r.1 e l h))

  or_next-IsConsistent :
      (r : Handled) (next : Engine → Handled)
      → ((e : Engine) → IsConsistent e → IsConsistent (next e).0)
      → IsConsistent r.0
      → IsConsistent (or_next w r next).0
  or_next-IsConsistent (e, true) next p h = h
  or_next-IsConsistent (e, false) next p h = p e h

  offer-IsConsistent :
      (b : Bool) (menu next : Engine → Handled) (e : Engine)
      → ((d : Engine) → IsConsistent d → IsConsistent (menu d).0)
      → ((d : Engine) → IsConsistent d → IsConsistent (next d).0)
      → IsConsistent e
      → IsConsistent (offer w b menu next e).0
  unfolding offer
  offer-IsConsistent true menu next e m n h = or_next-IsConsistent (menu e) next n (m e h)
  offer-IsConsistent false menu next e m n h = n e h

  handle_in_menus-IsConsistent :
      (K : Keys) (k : KeyEvent) (e : Engine)
      → IsConsistent e
      → IsConsistent (handle_in_menus w K k e).0
  unfolding handle_in_menus
  handle_in_menus-IsConsistent K k e h =
      let result = handle_result_menu_key_event w K k in
      let palette = handle_palette_menu_key_event w K k in
      let hotkey = handle_hotkey w K k in
      offer-IsConsistent e.result_menu_visible result
        (λ d. offer w d.palette_menu_visible palette hotkey d) e
        (λ d l. parts-IsConsistent (result d).0 d (result_menu-parts w K k d) l)
        (λ d l.
          offer-IsConsistent d.palette_menu_visible palette hotkey d
            (λ c m. parts-IsConsistent (palette c).0 c (palette-parts w K k c) m)
            (handle_hotkey-IsConsistent K k) l)
        h

  -- The event that a cancelled post-processing takes.
  abbrev IsKeptBy : Option Engine → Type 0
  IsKeptBy none = Unit {0}
  IsKeptBy (some e) = IsConsistent e

  cancel_of-IsConsistent :
      (o : Option Session) (K : Keys) (k : KeyEvent) (e : Engine)
      → IsConsistent e
      → IsKeptBy (cancel_of w o K k e)
  cancel_of-IsConsistent none K k e h = tt
  cancel_of-IsConsistent (some s) K k e h =
      let raw =
        s.raw_prev && not s.command_mode && (K.check k.key return_key || K.check k.key kp_enter) in
      let e1 : Engine = record e { pending_postprocessing_release = some k.key } in
      let cancelled = call_cancel_operation w raw e1 in
      let kept = if k.is_release then e else cancelled in
      let stays =
        not (
          is_postprocessing e.session && str_eq e.last_known_daemon_status status_postprocessing) in
      let other = not (K.check k.key escape || raw) in
      if_both IsKeptBy stays none (if other then none else some kept) (λ l. tt)
        (λ l.
          if_both IsKeptBy other none (some kept) (λ m. tt)
            (λ m.
              if_both IsConsistent k.is_release e cancelled (λ n. h)
                (λ n. cancelled-IsConsistent w raw e1 (released-IsConsistent (some k.key) e h))))

  or_else-IsConsistent :
      (o : Option Engine) (r : Handled)
      → IsKeptBy o
      → IsConsistent r.0
      → IsConsistent (or_else w o r).0
  or_else-IsConsistent none r a b = b
  or_else-IsConsistent (some e) r a b = a

  pub handle_key_event-IsConsistent :
      (K : Keys) (k : KeyEvent) (e : Engine)
      → IsConsistent e
      → IsConsistent (handle_key_event w K k e).0
  unfolding handle_key_event cancel_postprocessing
  handle_key_event-IsConsistent K k e h =
      let e1 = remember_input_context (some k.input_context) e in
      let h1 = remember-IsConsistent (some k.input_context) e h in
      let quiet : Handled = (record e1 { pending_postprocessing_release = none }, true) in
      if_both (λ r. IsConsistent r.0) (is_pending_release w K k e1) quiet
        (or_else w (cancel_of w e1.session K k e1) (handle_in_menus w K k e1))
        (λ l. released-IsConsistent none e1 h1)
        (λ l.
          or_else-IsConsistent (cancel_of w e1.session K k e1) (handle_in_menus w K k e1)
            (cancel_of-IsConsistent e1.session K k e1 h1) (handle_in_menus-IsConsistent K k e1 h1))
