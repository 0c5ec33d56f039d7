-- ===== src/Addon/Engine/Consistency/Starting.antt =====
-- VinputEngine: the start of a recording, on the fields that agree with each other.
use fcitx5_vinput.Base.{
  ◌≡◌, Bool, true, false, not, ◌&&◌, Option, none, some, if◌then◌else◌, if_both, str_eq, str_empty,
}
use fcitx5_vinput.Config.Types.{Platform}
use fcitx5_vinput.Addon.Engine.{
  InputContext, Key, Message, blank, no_selection, daemon_temporarily_unavailable,
  daemon_not_responding, Engine, World, status_idle, status_recording,
}
use fcitx5_vinput.Addon.Engine.Presentation.{
  same_ic, dismiss_menus_for_voice_activity, update_voice_presentation, clear_voice_presentation,
}
use fcitx5_vinput.Addon.Engine.Frontend.{
  cancel_pending_stop, enter_pending_start_state, enter_recording_state, finish_frontend_session,
}
use fcitx5_vinput.Addon.Engine.Daemon.{
  daemon_sync_allowed, has_none, call_start_recording, call_start_command_recording,
  finish_stop_recording, apply_daemon_status_locally, command_error, selected_text, start_failed,
  start_selected, refuse_command, start_unless, start_command, start_dictation,
  start_voice_recording,
}
use fcitx5_vinput.Addon.Engine.Invariant.{parts, IsConsistent}
use fcitx5_vinput.Addon.Engine.Consistency.{parts-IsConsistent, finish-IsConsistent}
use fcitx5_vinput.Addon.Engine.Consistency.Frontend.{
  enter_pending_start-IsConsistent, enter_recording-IsConsistent,
}
use fcitx5_vinput.Addon.Engine.Consistency.Daemon.{
  update-IsConsistent, dismissed-IsConsistent, call_start_recording-parts, call_start_command-parts,
  finish_stop_recording-IsConsistent, apply_daemon_status-IsConsistent,
}

module _ {P : Platform} (w : World P) where
  start_failed-IsConsistent :
      (ic : InputContext) (e : Engine) (b : Bool)
      → IsConsistent e
      → IsConsistent (start_failed w ic (e, b))
  unfolding start_failed
  start_failed-IsConsistent ic e true h = h
  start_failed-IsConsistent ic e false h =
      let e1 = finish_frontend_session (some ic) e in
      let h1 = finish-IsConsistent (some ic) e h in
      let shown : Message → Engine = λ m. update_voice_presentation (some ic) m e1 in
      let late = not (daemon_sync_allowed w.now e1) in
      if_both IsConsistent (not w.has_bus) (shown daemon_temporarily_unavailable)
        (if late then shown daemon_not_responding else e1)
        (λ k. update-IsConsistent (some ic) daemon_temporarily_unavailable e1 h1)
        (λ k.
          if_both IsConsistent late (shown daemon_not_responding) e1
            (λ l. update-IsConsistent (some ic) daemon_not_responding e1 h1) (λ l. h1))

  -- A start call that only sends, and what follows where it fails.
  called-IsConsistent :
      (ic : InputContext) (r : Engine × Bool) (e : Engine)
      → parts r.0 ≡ parts e
      → IsConsistent e
      → IsConsistent (start_failed w ic r)
  called-IsConsistent ic (d, b) e q h =
      start_failed-IsConsistent ic d b (parts-IsConsistent d e q h)

  start_selected-IsConsistent :
      (ic : InputContext) (trigger : Key) (e : Engine)
      → IsConsistent e
      → IsConsistent (start_selected w ic trigger e)
  unfolding start_selected clear_voice_presentation
  start_selected-IsConsistent ic trigger e h =
      let finished = finish_frontend_session (some ic) e in
      let cleared = update_voice_presentation (some ic) blank e in
      let b = same_ic e.status_ic (some ic) in
      let e1 = if b then finished else cleared in
      let e2 = enter_pending_start_state w.now ic trigger true e in
      let text = selected_text w in
      if_both IsConsistent (str_empty text) (update_voice_presentation (some ic) no_selection e1)
        (start_failed w ic (call_start_command_recording w text e2))
        (λ k. update-IsConsistent (some ic) no_selection e1 (
          if_both IsConsistent b finished cleared (λ l. finish-IsConsistent (some ic) e h)
            (λ l. update-IsConsistent (some ic) blank e h)))
        (λ k.
          called-IsConsistent ic (call_start_command_recording w text e2) e2
            (call_start_command-parts w text e2)
            (enter_pending_start-IsConsistent w.now ic trigger true e h))

  start_unless-IsConsistent :
      (o : Option Message) (ic : InputContext) (trigger : Key) (e : Engine)
      → IsConsistent e
      → IsConsistent (start_unless w o ic trigger e)
  unfolding refuse_command
  start_unless-IsConsistent none ic trigger e h = start_selected-IsConsistent ic trigger e h
  start_unless-IsConsistent (some m) ic trigger e h =
      update-IsConsistent (some ic) m (finish_frontend_session (some ic) e)
        (finish-IsConsistent (some ic) e h)

  start_dictation-IsConsistent :
      (ic : InputContext) (trigger : Key) (e : Engine)
      → IsConsistent e
      → IsConsistent (start_dictation w ic trigger e)
  unfolding start_dictation
  start_dictation-IsConsistent ic trigger e h =
      let e1 = enter_pending_start_state w.now ic trigger false e in
      called-IsConsistent ic (call_start_recording w e1) e1 (call_start_recording-parts w e1)
        (enter_pending_start-IsConsistent w.now ic trigger false e h)

  pub start_voice_recording-IsConsistent :
      (ic : InputContext) (trigger : Key) (is_command : Bool) (e : Engine)
      → IsConsistent e
      → IsConsistent (start_voice_recording w ic trigger is_command e)
  unfolding start_voice_recording start_command
  start_voice_recording-IsConsistent ic trigger is_command e h =
      let e1 = cancel_pending_stop (dismiss_menus_for_voice_activity e) in
      let h1 = dismissed-IsConsistent e h in
      let status = e1.last_known_daemon_status in
      let again = not is_command && has_none e1.session && str_eq status status_recording in
      let busy = not (str_empty status) && not (str_eq status status_idle) in
      let a = enter_recording_state w.now ic trigger false e1 in
      let b = apply_daemon_status_locally w status (some ic) is_command e1 in
      let c = start_unless w (command_error w) ic trigger e1 in
      let d = start_dictation w ic trigger e1 in
      if_both IsConsistent again (finish_stop_recording w a)
        (if busy then b else if is_command then c else d)
        (λ k.
          finish_stop_recording-IsConsistent w a
            (enter_recording-IsConsistent w.now ic trigger false e1 h1))
        (λ k.
          if_both IsConsistent busy b (if is_command then c else d)
            (λ l. apply_daemon_status-IsConsistent w status (some ic) is_command e1 h1)
            (λ l.
              if_both IsConsistent is_command c d
                (λ m. start_unless-IsConsistent (command_error w) ic trigger e1 h1)
                (λ m. start_dictation-IsConsistent ic trigger e1 h1)))
