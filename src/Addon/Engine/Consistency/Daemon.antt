-- ===== src/Addon/Engine/Consistency/Daemon.antt =====
-- VinputEngine: the start and the stop of a recording and the daemon's status, on the fields that
-- agree with each other.
use fcitx5_vinput.Base.{
  String, ◌≡◌, refl, ◌∙◌, ap, Bool, true, false, ◌&&◌, Option, none, some, if◌then◌else◌, if_both,
  arith, str_eq,
}
use fcitx5_vinput.Scene.{resolve}
use fcitx5_vinput.Config.Types.{Platform}
use fcitx5_vinput.Addon.Engine.{
  InputContext, no_key, Session, Message, blank, inferring_text, postprocessing_text, Effect,
  start_recording_call, start_command_call, Engine, World, status_idle, status_recording,
  status_inferring, status_postprocessing,
}
use fcitx5_vinput.Addon.Engine.Presentation.{
  resolve_frontend_input_context, dismiss_menus_for_voice_activity, present,
  update_voice_presentation,
}
use fcitx5_vinput.Addon.Engine.Context.{reload_scene_config}
use fcitx5_vinput.Addon.Engine.Frontend.{
  cancel_pending_stop, enter_recording_state, enter_busy_state, finish_frontend_session,
  shown_raw_prev,
}
use fcitx5_vinput.Addon.Engine.Daemon.{
  note_daemon_sync_failure, is_recording, send_start, call_start_recording,
  call_start_command_recording, call_stop_recording, call_cancel_operation, finish_stop_of,
  finish_stop_in, finish_stop_recording, apply_status_to, apply_status_in, nothing_shown,
  apply_daemon_status_locally, session_trigger, session_command_mode,
}
use fcitx5_vinput.Addon.Engine.Invariant.{
  Parts, parts, IsConsistent, present-parts, dismiss_menus-parts, flush_context_buffer-parts,
  reload_scene_config-parts,
}
use fcitx5_vinput.Addon.Engine.Consistency.{
  parts-IsConsistent, same_owner-IsConsistent, finish-IsConsistent,
}
use fcitx5_vinput.Addon.Engine.Consistency.Frontend.{
  enter_recording-IsConsistent, enter_busy-IsConsistent,
}

pub present-IsConsistent :
    (ic : Option InputContext) (m n : Message) (e : Engine)
    → IsConsistent e
    → IsConsistent (present ic m n e)
present-IsConsistent ic m n e h = parts-IsConsistent (present ic m n e) e (present-parts ic m n e) h

pub update-IsConsistent :
    (ic : Option InputContext) (m : Message) (e : Engine)
    → IsConsistent e
    → IsConsistent (update_voice_presentation ic m e)
unfolding update_voice_presentation
update-IsConsistent ic m e h = present-IsConsistent ic m blank e h

pub dismissed-IsConsistent :
    (e : Engine)
    → IsConsistent e
    → IsConsistent (cancel_pending_stop (dismiss_menus_for_voice_activity e))
unfolding IsConsistent parts cancel_pending_stop
dismissed-IsConsistent e h =
    parts-IsConsistent (dismiss_menus_for_voice_activity e) e (dismiss_menus-parts e) h

module _ {P : Platform} (w : World P) where
  send_start-parts : (x : Effect) (e : Engine) → parts (send_start w x e).0 ≡ parts e
  unfolding send_start note_daemon_sync_failure parts
  send_start-parts x e = ground (arith, flush_context_buffer-parts e)

  pub call_start_recording-parts : (e : Engine) → parts (call_start_recording w e).0 ≡ parts e
  unfolding call_start_recording parts
  call_start_recording-parts e =
      send_start-parts start_recording_call (record e { command_selected_text = "" })

  pub call_start_command-parts :
      (text : String) (e : Engine) → parts (call_start_command_recording w text e).0 ≡ parts e
  unfolding call_start_command_recording parts
  call_start_command-parts text e =
      send_start-parts (start_command_call text) (record e { command_selected_text = text })

  pub call_stop_recording-parts :
      (scene : String) (e : Engine) → parts (call_stop_recording w scene e).0 ≡ parts e
  unfolding call_stop_recording note_daemon_sync_failure parts
  call_stop_recording-parts scene e = ground arith

  pub call_cancel_operation-parts :
      (b : Bool) (e : Engine) → parts (call_cancel_operation w b e) ≡ parts e
  unfolding call_cancel_operation parts
  call_cancel_operation-parts b e = ground arith

  -- The engine after finishStopRecording wrote the scene's settings into the session.
  resolved-IsConsistent :
      (s : Session) (e : Engine) (id : String) (raw_prev : Bool)
      → e.session ≡ some s
      → IsConsistent e
      → IsConsistent (record e {
        active_scene_id = id;
        session = some (record s { raw_prev = raw_prev; trigger = no_key });
      })
  unfolding IsConsistent parts
  resolved-IsConsistent s e id raw_prev q h =
      same_owner-IsConsistent s (record s { raw_prev = raw_prev; trigger = no_key }) e q refl h

  finish_stop_of-IsConsistent :
      (s : Session) (e : Engine)
      → e.session ≡ some s
      → IsConsistent e
      → IsConsistent (finish_stop_of w s e)
  unfolding finish_stop_of
  finish_stop_of-IsConsistent s e q h =
      let scene = resolve e.scene_config e.active_scene_id in
      let e1 : Engine = record e {
        active_scene_id = scene.id;
        session = some (record s { raw_prev = scene.raw_prev; trigger = no_key });
      } in
      let e2 = enter_busy_state w.now s.ic s.command_mode inferring_text false scene.raw_prev e1 in
      parts-IsConsistent (call_stop_recording w scene.id e2).0 e2
        (call_stop_recording-parts scene.id e2)
        (enter_busy-IsConsistent w.now s.ic s.command_mode inferring_text false scene.raw_prev e1
          (resolved-IsConsistent s e scene.id scene.raw_prev q h))

  finish_stop_in-IsConsistent :
      (o : Option Session) (e : Engine)
      → e.session ≡ o
      → IsConsistent e
      → IsConsistent (finish_stop_in w o e)
  unfolding parts
  finish_stop_in-IsConsistent none e q h = h
  finish_stop_in-IsConsistent (some s) e q h =
      let r = reload_scene_config-parts w e in
      finish_stop_of-IsConsistent s (reload_scene_config w e) (ap (λ (p : Parts). p.session) r ∙ q)
        (parts-IsConsistent (reload_scene_config w e) e r h)

  pub finish_stop_recording-IsConsistent :
      (e : Engine) → IsConsistent e → IsConsistent (finish_stop_recording w e)
  unfolding finish_stop_recording
  finish_stop_recording-IsConsistent e h =
      if_both IsConsistent (is_recording e.session) (finish_stop_in w e.session e) e
        (λ k. finish_stop_in-IsConsistent e.session e refl h) (λ k. h)

  apply_status_to-IsConsistent :
      (ic : InputContext) (prefer : Bool) (status : String) (e : Engine)
      → IsConsistent e
      → IsConsistent (apply_status_to w ic prefer status e)
  unfolding apply_status_to
  apply_status_to-IsConsistent ic prefer status e h =
      let command = session_command_mode prefer e.session in
      let raw_prev = shown_raw_prev e in
      let busy : Message → Bool → Engine =
        λ m b. enter_busy_state w.now ic command m b raw_prev e in
      let a = enter_recording_state w.now ic (session_trigger e.session) command e in
      let b = busy inferring_text false in
      let c = busy (postprocessing_text command raw_prev) true in
      let d = finish_frontend_session (some ic) e in
      let bh = enter_busy-IsConsistent w.now ic command inferring_text false raw_prev e h in
      let ch =
        enter_busy-IsConsistent w.now ic command (postprocessing_text command raw_prev) true
          raw_prev e h in
      let post = str_eq status status_postprocessing in
      let inf = str_eq status status_inferring in
      if_both IsConsistent (str_eq status status_recording) a
        (if inf then b else if post then c else d)
        (λ k. enter_recording-IsConsistent w.now ic (session_trigger e.session) command e h)
        (λ k.
          if_both IsConsistent inf b (if post then c else d) (λ k. bh)
            (λ k. if_both IsConsistent post c d (λ k. ch) (λ k. finish-IsConsistent (some ic) e h)))

  apply_status_in-IsConsistent :
      (ic : Option InputContext) (prefer : Bool) (status : String) (e : Engine)
      → IsConsistent e
      → IsConsistent (apply_status_in w ic prefer status e)
  apply_status_in-IsConsistent none prefer status e h = h
  apply_status_in-IsConsistent (some ic) prefer status e h =
      apply_status_to-IsConsistent ic prefer status e h

  pub apply_daemon_status-IsConsistent :
      (status : String) (fallback : Option InputContext) (prefer : Bool) (e : Engine)
      → IsConsistent e
      → IsConsistent (apply_daemon_status_locally w status fallback prefer e)
  unfolding apply_daemon_status_locally
  apply_daemon_status-IsConsistent status fallback prefer e h =
      let ic = resolve_frontend_input_context fallback e in
      if_both IsConsistent (str_eq status status_idle && nothing_shown e) e
        (apply_status_in w ic prefer status e) (λ k. h)
        (λ k. apply_status_in-IsConsistent ic prefer status e h)
