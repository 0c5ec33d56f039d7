-- ===== src/Addon/Engine/Daemon.antt =====
-- VinputEngine: the calls to the daemon, the daemon's status in the frontend
-- (src/addon/dbus/vinput_dbus.cpp), and the start and the stop of a recording
-- (src/addon/input/vinput_keyevent.cpp).
use fcitx5_vinput.Base.{
  ℕ, String, Bool, true, false, not, ◌&&◌, ◌||◌, Option, none, some, if◌then◌else◌, ◌==◌, ◌+◌, leb,
  min, max, str_eq, str_empty, pos, lez,
}
use fcitx5_vinput.Scene.{resolve}
use fcitx5_vinput.Config.Types.{Platform}
use fcitx5_vinput.Config.View.{command_scene, llm_provider, llm_adapter}
use fcitx5_vinput.Addon.Engine.{
  InputContext, Key, no_key, recording, Session, Message, inferring_text, postprocessing_text,
  no_selection, command_disabled, command_no_provider, daemon_temporarily_unavailable,
  daemon_not_responding, Effect, start_recording_call, start_command_call, stop_recording_call,
  cancel_operation_call, Engine, World, Surrounding, emit, daemon_failure_cooldown, status_idle,
  status_recording, status_inferring, status_postprocessing,
}
use fcitx5_vinput.Addon.Engine.Presentation.{
  same_ic, resolve_frontend_input_context, dismiss_menus_for_voice_activity,
  update_voice_presentation, clear_voice_presentation,
}
use fcitx5_vinput.Addon.Engine.Context.{flush_context_buffer, reload_scene_config}
use fcitx5_vinput.Addon.Engine.Frontend.{
  cancel_pending_stop, enter_pending_start_state, enter_recording_state, enter_busy_state,
  finish_frontend_session, shown_raw_prev,
}

unfoldable pub daemon_sync_allowed : ℕ → Engine → Bool
daemon_sync_allowed now e = leb e.daemon_sync_blocked_until now

unfoldable pub note_daemon_sync_failure : ℕ → Engine → Engine
note_daemon_sync_failure now e = record e {
  daemon_sync_blocked_until = now + daemon_failure_cooldown;
}

unfoldable pub clear_daemon_sync_failure : Engine → Engine
clear_daemon_sync_failure e = record e { daemon_sync_blocked_until = 0 }

unfoldable pub is_recording : Option Session → Bool
is_recording none = false
is_recording (some s) = elim s.phase [ recording ↦ true | _ ↦ false ]

abbrev pub has_none : Option Session → Bool
has_none none = true
has_none (some s) = false

abbrev pub session_trigger : Option Session → Key
session_trigger none = no_key
session_trigger (some s) = s.trigger

abbrev pub session_command_mode : Bool → Option Session → Bool
session_command_mode prefer none = prefer
session_command_mode prefer (some s) = s.command_mode

-- The text around the cursor that is selected.
unfoldable pub has_selection : Surrounding → Bool
has_selection s = s.is_valid && not (s.cursor == s.anchor)

-- `!session_.has_value() && status_ic_ == nullptr`
unfoldable pub nothing_shown : Engine → Bool
nothing_shown e = elim e.session [
  | some s ↦ false
  | none ↦ elim e.status_ic [ none ↦ true | some ic ↦ false ]
]

module _ {P : Platform} (w : World P) where
  -- The part of callStartRecording and callStartCommandRecording after the selected text is kept.
  unfoldable pub send_start : Effect → Engine → Engine × Bool
  send_start call e =
      let e1 = flush_context_buffer e in
      if not w.has_bus || not (daemon_sync_allowed w.now e1)
      then (note_daemon_sync_failure w.now e1, false)
      else if not w.sends
      then (note_daemon_sync_failure w.now (record e1 { pending_start_call = false }), false)
      else (emit call (record e1 { pending_start_call = true }), true)

  unfoldable pub call_start_recording : Engine → Engine × Bool
  call_start_recording e = send_start start_recording_call (record e { command_selected_text = "" })

  unfoldable pub call_start_command_recording : String → Engine → Engine × Bool
  call_start_command_recording text e =
      send_start (start_command_call text) (record e { command_selected_text = text })

  unfoldable pub call_stop_recording : String → Engine → Engine × Bool
  call_stop_recording scene e =
      if not w.has_bus || not (daemon_sync_allowed w.now e)
      then (note_daemon_sync_failure w.now e, false)
      else if not w.sends
      then (note_daemon_sync_failure w.now (record e { pending_stop_call = false }), false)
      else (emit (stop_recording_call scene) (record e { pending_stop_call = true }), true)

  unfoldable pub call_cancel_operation : Bool → Engine → Engine
  call_cancel_operation commit_raw e =
      if w.has_bus then emit (cancel_operation_call commit_raw) e else e

  unfoldable pub finish_stop_of : Session → Engine → Engine
  finish_stop_of s e =
      let scene = resolve e.scene_config e.active_scene_id in
      let e1 : Engine = record e {
        active_scene_id = scene.id;
        session = some (record s { raw_prev = scene.raw_prev; trigger = no_key });
      } in
      (call_stop_recording scene.id
        (enter_busy_state w.now s.ic s.command_mode inferring_text false scene.raw_prev e1)).0

  abbrev pub finish_stop_in : Option Session → Engine → Engine
  finish_stop_in none e = e
  finish_stop_in (some s) e = finish_stop_of s (reload_scene_config w e)

  unfoldable pub finish_stop_recording : Engine → Engine
  finish_stop_recording e = if is_recording e.session then finish_stop_in e.session e else e

  unfoldable pub apply_status_to : InputContext → Bool → String → Engine → Engine
  apply_status_to ic prefer_command status e =
      let command = session_command_mode prefer_command e.session in
      let raw_prev = shown_raw_prev e in
      if str_eq status status_recording
      then enter_recording_state w.now ic (session_trigger e.session) command e
      else if str_eq status status_inferring
      then enter_busy_state w.now ic command inferring_text false raw_prev e
      else if str_eq status status_postprocessing
      then enter_busy_state w.now ic command (postprocessing_text command raw_prev) true raw_prev e
      else finish_frontend_session (some ic) e

  abbrev pub apply_status_in : Option InputContext → Bool → String → Engine → Engine
  apply_status_in none prefer_command status e = e
  apply_status_in (some ic) prefer_command status e = apply_status_to ic prefer_command status e

  unfoldable pub apply_daemon_status_locally : String → Option InputContext → Bool → Engine → Engine
  apply_daemon_status_locally status fallback prefer_command e =
      if str_eq status status_idle && nothing_shown e
      then e
      else apply_status_in (resolve_frontend_input_context fallback e) prefer_command status e

  -- The scene that command mode needs: `some` message where it cannot run.
  unfoldable pub command_error : Option Message
  command_error = elim (command_scene P w.core_config) [
    | none ↦ some command_disabled
    | some scene ↦
        if lez scene.llm_max_candidates (pos 0)
        then some command_disabled
        else if str_empty scene.provider_id
        then some command_no_provider
        else elim (llm_provider P w.core_config scene.provider_id) [
          | some p ↦ none
          | none ↦ elim (llm_adapter P w.core_config scene.provider_id) [
            | some a ↦ none
            | none ↦ some command_no_provider
          ]
        ]
  ]

  -- The selected text of the input context, or else the primary clipboard.
  unfoldable pub selected_text : String
  selected_text =
      let s = w.surrounding in
      let text =
        if has_selection s && w.valid_utf8 s.text
        then w.characters s.text (min s.cursor s.anchor) (max s.cursor s.anchor)
        else "" in
      if not (str_empty text) then text else elim w.clipboard [
        | none ↦ ""
        | some primary ↦ if w.valid_utf8 primary then primary else ""
      ]

  -- What follows a start call that failed.
  unfoldable pub start_failed : InputContext → Engine × Bool → Engine
  start_failed ic (e, true) = e
  start_failed ic (e, false) =
      let e1 = finish_frontend_session (some ic) e in
      if not w.has_bus
      then update_voice_presentation (some ic) daemon_temporarily_unavailable e1
      else if not (daemon_sync_allowed w.now e1)
      then update_voice_presentation (some ic) daemon_not_responding e1
      else e1

  -- A command that cannot start, with the reason.
  unfoldable pub refuse_command : InputContext → Message → Engine → Engine
  refuse_command ic message e =
      update_voice_presentation (some ic) message (finish_frontend_session (some ic) e)

  unfoldable pub start_selected : InputContext → Key → Engine → Engine
  start_selected ic trigger e =
      if str_empty selected_text
      then update_voice_presentation (some ic) no_selection (
          if same_ic e.status_ic (some ic)
          then finish_frontend_session (some ic) e
          else clear_voice_presentation (some ic) e)
      else start_failed ic (
          call_start_command_recording selected_text
            (enter_pending_start_state w.now ic trigger true e))

  abbrev pub start_unless : Option Message → InputContext → Key → Engine → Engine
  start_unless (some message) ic trigger e = refuse_command ic message e
  start_unless none ic trigger e = start_selected ic trigger e

  unfoldable pub start_command : InputContext → Key → Engine → Engine
  start_command ic trigger e = start_unless command_error ic trigger e

  unfoldable pub start_dictation : InputContext → Key → Engine → Engine
  start_dictation ic trigger e =
      start_failed ic (call_start_recording (enter_pending_start_state w.now ic trigger false e))

  unfoldable pub start_voice_recording : InputContext → Key → Bool → Engine → Engine
  start_voice_recording ic trigger is_command e =
      let e1 = cancel_pending_stop (dismiss_menus_for_voice_activity e) in
      let status = e1.last_known_daemon_status in
      if not is_command && has_none e1.session && str_eq status status_recording
      then finish_stop_recording (enter_recording_state w.now ic trigger false e1)
      else if not (str_empty status) && not (str_eq status status_idle)
      then apply_daemon_status_locally status (some ic) is_command e1
      else if is_command
      then start_command ic trigger e1
      else start_dictation ic trigger e1
