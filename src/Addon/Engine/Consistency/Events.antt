-- ===== src/Addon/Engine/Consistency/Events.antt =====
-- VinputEngine: every event, on the fields that agree with each other.
use fcitx5_vinput.Base.{
  ℕ, ◌≡◌, refl, ◌∙◌, ap, subst, Bool, true, false, not, List, [], ◌∷◌, Option, none, some,
  if◌then◌else◌, if_both, ◌==◌, arith,
}
use fcitx5_vinput.Config.Types.{Platform}
use fcitx5_vinput.Addon.Engine.{
  InputContext, Phase, pending_start, recording, inferring, postprocessing, Session, HotkeyRole,
  no_role, menu_role, trigger_role, command_role, Engine, World, Keys,
}
use fcitx5_vinput.Addon.Engine.Presentation.{
  same_ic, reset_palette_menu_state, reset_result_menu_state,
}
use fcitx5_vinput.Addon.Engine.Context.{flush_context_buffer, on_commit_string, reload_scene_config}
use fcitx5_vinput.Addon.Engine.Frontend.{stop_status_sync_if_idle}
use fcitx5_vinput.Addon.Engine.Daemon.{finish_stop_recording}
use fcitx5_vinput.Addon.Engine.PaletteItems.{reload_palette_items}
use fcitx5_vinput.Addon.Engine.Palette.{select_palette_item, select_result_candidate}
use fcitx5_vinput.Addon.Engine.Keyboard.{discard_session}
use fcitx5_vinput.Addon.Engine.Events.{
  Settings, Event, key_event, result_chosen, palette_chosen, created, destroyed, focus_out,
  committed, settings_applied, stop_timer, status_timer, context_timer, start_reply, stop_reply,
  status_reply, status_changed, recognition_partial, recognition_result, clears, end_session_of,
  end_status_of, forget_input_context, on_destroyed, on_focus_out, apply_settings, on_stop_timer,
  on_context_timer, react, react_all, cancels_at, ended, end_session_in, unfocus_in,
}
use fcitx5_vinput.Addon.Engine.Invariant.{
  Parts, parts, IsShown, IsHeld, IsConsistent, flush_context_buffer-parts, on_commit_string-parts,
  reload_scene_config-parts,
}
use fcitx5_vinput.Addon.Engine.Consistency.{
  parts-IsConsistent, emptied, stop_status_sync-parts, emptied-IsConsistent,
}
use fcitx5_vinput.Addon.Engine.Consistency.Daemon.{
  call_cancel_operation-parts, finish_stop_recording-IsConsistent,
}
use fcitx5_vinput.Addon.Engine.Consistency.Replies.{
  remember-IsConsistent, on_start_reply-IsConsistent, on_stop_reply-IsConsistent,
}
use fcitx5_vinput.Addon.Engine.Consistency.Polls.{
  on_status_reply-IsConsistent, on_status_timer-IsConsistent, on_status_changed-IsConsistent,
}
use fcitx5_vinput.Addon.Engine.Consistency.Menus.{
  select_palette_item-parts, select_result_candidate-parts,
}
use fcitx5_vinput.Addon.Engine.Consistency.Results.{partial-IsConsistent, result-IsConsistent}
use fcitx5_vinput.Addon.Engine.Consistency.Keyboard.{
  unheld-IsConsistent, discard-unheld, discard-IsConsistent,
}
use fcitx5_vinput.Addon.Engine.Consistency.Handler.{handle_key_event-IsConsistent}

-- A change that nothing else agrees with.
clears-parts :
    (b : Bool) (f : Engine → Engine) (e : Engine)
    → ((d : Engine) → parts (f d) ≡ parts d)
    → parts (clears b f e) ≡ parts e
clears-parts true f e h = h e
clears-parts false f e h = refl

shown_in :
    (s : Session) (e : Engine) → e.session ≡ some s → IsConsistent e → e.status_ic ≡ some s.ic
unfolding IsConsistent parts
shown_in s e q (shown, held) =
    let g : Option Session → Type 0 =
      λ o. IsShown o e.status_ic e.status_sync_armed e.pending_status_call e.status_poll_gate in
    let (ic, armed, polled) : g (some s) = subst g q shown in ic

shown_nowhere : (e : Engine) → e.session ≡ none → IsConsistent e → e.status_ic ≡ none
unfolding IsConsistent parts
shown_nowhere e q (shown, held) =
    let g : Option Session → Type 0 =
      λ o. IsShown o e.status_ic e.status_sync_armed e.pending_status_call e.status_poll_gate in
    let (ic, armed, call, gate) : g none = subst g q shown in ic

unheld_chord :
    (role : HotkeyRole) (k : Option ℕ) (b c : Bool)
    → role ≡ no_role
    → IsHeld role k b
    → IsHeld role k c
unheld_chord no_role k b c q h = h
unheld_chord menu_role k b c q h = ground arith
unheld_chord trigger_role k b c q h = ground arith
unheld_chord command_role k b c q h = ground arith

chorded-IsConsistent :
    (e : Engine)
    → e.held_role ≡ no_role
    → IsConsistent e
    → IsConsistent (record e { chord_interrupted = true })
unfolding IsConsistent parts
chorded-IsConsistent e q (shown, held) =
    (shown, unheld_chord e.held_role e.held_key_sym e.chord_interrupted true q held)

module _ {P : Platform} (w : World P) where
  pub forget_input_context-parts :
      (ic : InputContext) (e : Engine) → parts (forget_input_context w ic e) ≡ parts e
  unfolding forget_input_context parts reset_palette_menu_state reset_result_menu_state
  forget_input_context-parts ic e =
      let b1 = same_ic e.last_active_ic (some ic) in
      let e1 = clears b1 (λ d. record d { last_active_ic = none }) e in
      let b2 = same_ic e1.palette_menu_ic (some ic) in
      let e2 = clears b2 reset_palette_menu_state e1 in
      let b3 = same_ic e2.result_menu_ic (some ic) in
      let e3 = clears b3 reset_result_menu_state e2 in
      clears-parts (same_ic e3.context_buffer_ic (some ic)) flush_context_buffer e3
        flush_context_buffer-parts
      ∙ clears-parts b3 reset_result_menu_state e2 (λ d. refl)
      ∙ clears-parts b2 reset_palette_menu_state e1 (λ d. refl)
      ∙ clears-parts b1 (λ d. record d { last_active_ic = none }) e (λ d. refl)

  cancels_at-parts : (phase : Phase) (e : Engine) → parts (cancels_at w phase e) ≡ parts e
  cancels_at-parts pending_start e = call_cancel_operation-parts w false e
  cancels_at-parts recording e = call_cancel_operation-parts w false e
  cancels_at-parts inferring e = refl
  cancels_at-parts postprocessing e = call_cancel_operation-parts w false e

  cleared-IsConsistent :
      (b : Bool) (e : Engine)
      → b ≡ false
      → IsConsistent e
      → IsConsistent (clears b (λ d. stop_status_sync_if_idle (record d { status_ic = none })) e)
  cleared-IsConsistent true e q h = ground arith
  cleared-IsConsistent false e q h = h

  ended-IsConsistent :
      (phase : Phase) (b : Bool) (e : Engine)
      → b ≡ true
      → IsConsistent e
      → IsConsistent (
          clears b
            (λ d. stop_status_sync_if_idle (record d { status_ic = none }))
            (ended w (cancels_at w phase e)))
  unfolding parts
  ended-IsConsistent phase false e q h = ground arith
  ended-IsConsistent phase true e q h =
      let e1 = cancels_at w phase e in
      let e2 : Engine = record (ended w e1) { status_ic = none } in
      let empty : Parts → Parts = λ p. emptied p.gate p in
      emptied-IsConsistent e1.status_poll_gate (stop_status_sync_if_idle e2) e1
        (stop_status_sync-parts e2) (parts-IsConsistent e1 e (cancels_at-parts phase e) h)

  end_session_in-IsConsistent :
      (o : Option Session) (ic : InputContext) (e : Engine)
      → e.session ≡ o
      → IsConsistent e
      → IsConsistent (end_status_of w ic (end_session_in w o ic e))
  unfolding same_ic parts
  end_session_in-IsConsistent none ic e q h =
      cleared-IsConsistent (same_ic e.status_ic (some ic)) e
        (ap (λ s. same_ic s (some ic)) (shown_nowhere e q h)) h
  end_session_in-IsConsistent (some s) ic e q h =
      let e1 = cancels_at w s.phase e in
      let here = shown_in s e q h in
      let status : Parts → Option InputContext = λ p. p.status_ic in
      if_both (λ d. IsConsistent (end_status_of w ic d)) (s.ic == ic) (ended w e1) e
        (λ k.
          ended-IsConsistent s.phase (same_ic e1.status_ic (some ic)) e
            (ap (λ o. same_ic o (some ic)) (ap status (cancels_at-parts s.phase e) ∙ here) ∙ k) h)
        (λ k.
          cleared-IsConsistent (same_ic e.status_ic (some ic)) e
            (ap (λ o. same_ic o (some ic)) here ∙ k) h)

  pub on_destroyed-IsConsistent :
      (ic : InputContext) (e : Engine) → IsConsistent e → IsConsistent (on_destroyed w ic e)
  unfolding on_destroyed end_session_of
  on_destroyed-IsConsistent ic e h =
      let e1 = end_status_of w ic (end_session_in w e.session ic e) in
      parts-IsConsistent (forget_input_context w ic e1) e1 (forget_input_context-parts ic e1)
        (end_session_in-IsConsistent e.session ic e refl h)

  unfocus_in-IsConsistent :
      (o : Option Session) (ic : InputContext) (e : Engine)
      → e.held_role ≡ no_role
      → IsConsistent e
      → IsConsistent (unfocus_in w o ic e)
  unfocus_in-IsConsistent none ic e q h = h
  unfocus_in-IsConsistent (some s) ic e q h =
      let d = discard_session w ic e in
      let d1 : Engine = record d { chord_interrupted = true } in
      let b = not (s.ic == ic) in
      if_both IsConsistent b e (if s.stop_on_release then d1 else e) (λ k. h)
        (λ k.
          if_both IsConsistent s.stop_on_release d1 e
            (λ l.
              chorded-IsConsistent d (discard-unheld w ic e h ∙ q) (discard-IsConsistent w ic e h))
            (λ l. h))

  on_focus_out-IsConsistent :
      (ic : InputContext) (e : Engine) → IsConsistent e → IsConsistent (on_focus_out w ic e)
  unfolding on_focus_out
  on_focus_out-IsConsistent ic e h =
      let e1 : Engine = record e {
        held_key_sym = none;
        held_role = no_role;
        chord_interrupted = true;
      } in
      unfocus_in-IsConsistent e1.session ic e1 refl (unheld-IsConsistent true e h)

  apply_settings-IsConsistent :
      (s : Settings) (e : Engine) → IsConsistent e → IsConsistent (apply_settings w s e)
  unfolding apply_settings reload_palette_items IsConsistent parts
  apply_settings-IsConsistent s e h =
      let e1 : Engine = record e {
        trigger_keys = s.trigger_keys;
        command_keys = s.command_keys;
        menu_keys = s.menu_keys;
        page_prev_keys = s.page_prev_keys;
        page_next_keys = s.page_next_keys;
        trigger_mode = s.trigger_mode;
      } in
      parts-IsConsistent (reload_scene_config w e1) e1 (reload_scene_config-parts w e1) h

  on_stop_timer-IsConsistent : (e : Engine) → IsConsistent e → IsConsistent (on_stop_timer w e)
  unfolding on_stop_timer IsConsistent parts
  on_stop_timer-IsConsistent e h =
      let e1 : Engine = record e { pending_stop_armed = false } in
      if_both IsConsistent e.pending_stop_armed (finish_stop_recording w e1) e
        (λ k. finish_stop_recording-IsConsistent w e1 h) (λ k. h)

  on_context_timer-IsConsistent :
      (e : Engine) → IsConsistent e → IsConsistent (on_context_timer w e)
  unfolding on_context_timer IsConsistent parts
  on_context_timer-IsConsistent e h =
      let e1 : Engine = record e { context_flush_armed = false } in
      if_both IsConsistent e.context_flush_armed (flush_context_buffer e1) e
        (λ k. parts-IsConsistent (flush_context_buffer e1) e1 (flush_context_buffer-parts e1) h)
        (λ k. h)

  react-IsConsistent :
      (K : Keys) (x : Event) (e : Engine) → IsConsistent e → IsConsistent (react w K x e)
  unfolding react
  react-IsConsistent K (key_event k) e h = handle_key_event-IsConsistent w K k e h
  react-IsConsistent K (result_chosen index ic) e h =
      parts-IsConsistent (select_result_candidate w index ic e) e
        (select_result_candidate-parts w index ic e) h
  react-IsConsistent K (palette_chosen index ic) e h =
      parts-IsConsistent (select_palette_item w index ic e) e
        (select_palette_item-parts w index ic e) h
  react-IsConsistent K (created ic) e h = remember-IsConsistent (some ic) e h
  react-IsConsistent K (destroyed ic) e h = on_destroyed-IsConsistent ic e h
  react-IsConsistent K (focus_out ic) e h = on_focus_out-IsConsistent ic e h
  react-IsConsistent K (committed text ic) e h =
      parts-IsConsistent (on_commit_string w text (some ic) e) e
        (on_commit_string-parts w text (some ic) e) h
  react-IsConsistent K (settings_applied s) e h = apply_settings-IsConsistent s e h
  react-IsConsistent K stop_timer e h = on_stop_timer-IsConsistent e h
  react-IsConsistent K status_timer e h = on_status_timer-IsConsistent w e h
  react-IsConsistent K context_timer e h = on_context_timer-IsConsistent e h
  react-IsConsistent K (start_reply r) e h = on_start_reply-IsConsistent w r e h
  react-IsConsistent K (stop_reply r) e h = on_stop_reply-IsConsistent w r e h
  react-IsConsistent K (status_reply r) e h = on_status_reply-IsConsistent w r e h
  react-IsConsistent K (status_changed status) e h = on_status_changed-IsConsistent w status e h
  react-IsConsistent K (recognition_partial text) e h = partial-IsConsistent w text e h
  react-IsConsistent K (recognition_result p) e h = result-IsConsistent w p e h

-- Every run that starts in a consistent engine ends in one, whatever the keys, the candidate lists,
-- the bus, the clock and the configuration answer. Consistent means: while there is a session, the
-- input context of the status is the session's, the status timer is armed, and the status poll that
-- is pending, if one is, is the one that the gate waits for; without a session there is no input
-- context of the status, the status timer is not armed, no status poll is pending and the gate waits
-- for none; and where a hotkey role is held its key is held and no chord is under way, where none is
-- held no key is.
pub react_all-IsConsistent :
    {P : Platform} (K : Keys) (xs : List (World P × Event)) (e : Engine)
    → IsConsistent e
    → IsConsistent (react_all K xs e)
unfolding react_all
react_all-IsConsistent K [] e h = h
react_all-IsConsistent K ((w, x) ∷ xs) e h =
    react_all-IsConsistent K xs (react w K x e) (react-IsConsistent w K x e h)
