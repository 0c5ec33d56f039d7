-- ===== src/Addon/Engine/Frontend.antt =====
-- VinputEngine: the states of the frontend session and the timers that follow it
-- (src/addon/dbus/vinput_dbus.cpp, src/addon/input/vinput_keyevent.cpp).
use fcitx5_vinput.Base.{
  ℕ, Bool, true, false, not, ◌&&◌, Option, none, some, if◌then◌else◌, ◌==◌, str_empty,
}
use fcitx5_vinput.Scene.{resolve}
use fcitx5_vinput.Addon.PollGate
use fcitx5_vinput.Addon.Engine.{
  InputContext, Key, no_key, pending_start, recording, inferring, postprocessing, Session, no_role,
  TriggerMode, tap, hold, both, Message, starting, recording_text, commanding, applying_command,
  transcript, command_transcript, Engine,
}
use fcitx5_vinput.Addon.Engine.Presentation.{
  same_ic, remember_input_context, present, update_voice_presentation, clear_voice_presentation,
  compose_live_preedit,
}

unfoldable pub cancel_pending_stop : Engine → Engine
cancel_pending_stop e = record e { pending_stop_armed = false }

unfoldable pub cancel_pending_start : Engine → Engine
cancel_pending_start e = record e { held_role = no_role; held_key_sym = none }

unfoldable pub schedule_stop_recording : Engine → Engine
schedule_stop_recording e = record e { pending_stop_armed = true }

-- `session_.has_value() || status_ic_ != nullptr`
unfoldable pub needs_sync : Option Session → Option InputContext → Bool
needs_sync (some s) ic = true
needs_sync none (some ic) = true
needs_sync none none = false

unfoldable pub stop_status_sync_if_idle : Engine → Engine
stop_status_sync_if_idle e = if needs_sync e.session e.status_ic then e else record e {
  status_sync_armed = false;
  status_poll_gate = PollGate.cancel e.status_poll_gate;
  pending_status_call = none;
}

unfoldable pub ensure_status_sync : Engine → Engine
ensure_status_sync e =
    if not (needs_sync e.session e.status_ic)
    then stop_status_sync_if_idle e
    else record e { status_sync_armed = true }

-- `Session{}` at a time.
abbrev new_session : ℕ → InputContext → Session
new_session now ic = record {
  phase = pending_start;
  ic = ic;
  trigger = no_key;
  press_time = now;
  command_mode = false;
  trigger_released = false;
  raw_prev = true;
  transcript_text = "";
  stop_on_release = false;
}

-- The session, made where there is none. `ic` is what the caller writes next.
abbrev pub session_or_new : ℕ → InputContext → Option Session → Session
session_or_new now ic none = new_session now ic
session_or_new now ic (some s) = s

-- `session_ ? session_->raw_prev : Resolve(scene_config_, active_scene_id_).raw_prev`
unfoldable pub shown_raw_prev : Engine → Bool
shown_raw_prev e = elim e.session [
  | some s ↦ s.raw_prev
  | none ↦ (resolve e.scene_config e.active_scene_id).raw_prev
]

-- What another input context shows is cleared.
abbrev pub clear_other : Option InputContext → InputContext → Engine → Engine
clear_other none ic e = e
clear_other (some other) ic e = if other == ic then e else clear_voice_presentation (some other) e

unfoldable pub leave_status_ic : InputContext → Engine → Engine
leave_status_ic ic e = clear_other e.status_ic ic e

-- The session, as an enter function leaves it, and the input context it is shown in.
unfoldable pub hold_session : Session → Engine → Engine
hold_session s e = record e { session = some s; status_ic = some s.ic }

-- The end of enterPendingStartState and of enterRecordingState.
unfoldable pub show_session : Session → Message → Engine → Engine
show_session s text e =
    ensure_status_sync (update_voice_presentation (some s.ic) text (hold_session s e))

-- `stop_after_start`
unfoldable pub stops_after_start : TriggerMode → Option Session → Bool
stops_after_start mode none = false
stops_after_start mode (some s) =
    (elim mode [ hold ↦ true | tap ↦ s.stop_on_release | both ↦ s.stop_on_release ])
    && (elim s.phase [
      | pending_start ↦ true
      | recording ↦ false
      | inferring ↦ false
      | postprocessing ↦ false
    ])
    && s.trigger_released

unfoldable pub schedule_if : Bool → Engine → Engine
schedule_if true e = schedule_stop_recording e
schedule_if false e = e

-- What enterBusyState shows of a session.
unfoldable pub show_busy : Session → Message → Bool → Engine → Engine
show_busy s preedit is_postprocessing e =
    if not s.raw_prev
    then update_voice_presentation (some s.ic) preedit e
    else if is_postprocessing && not (str_empty s.transcript_text)
    then present (some s.ic) (if s.command_mode then applying_command else preedit)
        (if s.command_mode
          then command_transcript s.transcript_text
          else transcript s.transcript_text)
        e
    else update_voice_presentation (some s.ic) (compose_live_preedit s.transcript_text preedit) e

abbrev pub invalidate_polls : Engine → Engine
invalidate_polls e = record e { status_poll_gate = PollGate.invalidate e.status_poll_gate }

module _ (now : ℕ) where
  -- The session as enterPendingStartState writes it.
  abbrev pub pending_session : InputContext → Key → Bool → Engine → Session
  pending_session ic trigger command_mode e = record (session_or_new now ic e.session) {
    phase = pending_start;
    ic = ic;
    trigger = trigger;
    command_mode = command_mode;
    raw_prev = (resolve e.scene_config e.active_scene_id).raw_prev;
  }

  unfoldable pub enter_pending_start_state : InputContext → Key → Bool → Engine → Engine
  enter_pending_start_state ic trigger command_mode e =
      let e1 = leave_status_ic ic (invalidate_polls (remember_input_context (some ic) e)) in
      show_session (pending_session ic trigger command_mode e1) (compose_live_preedit "" starting)
        e1

  -- The session as enterRecordingState writes it.
  abbrev pub recording_session : InputContext → Key → Bool → Engine → Session
  recording_session ic trigger command_mode e = record (session_or_new now ic e.session) {
    phase = recording;
    ic = ic;
    trigger = trigger;
    command_mode = command_mode;
    raw_prev = shown_raw_prev e;
  }

  unfoldable pub enter_recording_state : InputContext → Key → Bool → Engine → Engine
  enter_recording_state ic trigger command_mode e =
      let e1 = leave_status_ic ic (remember_input_context (some ic) e) in
      let s = recording_session ic trigger command_mode e1 in
      let text =
        compose_live_preedit s.transcript_text
          (if command_mode then commanding else recording_text) in
      schedule_if (stops_after_start e1.trigger_mode e1.session) (show_session s text e1)

  -- The session as enterBusyState writes it.
  abbrev pub busy_session : InputContext → Bool → Bool → Bool → Engine → Session
  busy_session ic command_mode is_postprocessing raw_prev e =
      record (session_or_new now ic e.session) {
        phase = if is_postprocessing then postprocessing else inferring;
        ic = ic;
        trigger = no_key;
        command_mode = command_mode;
        raw_prev = raw_prev;
      }

  unfoldable pub enter_busy_state : InputContext → Bool → Message → Bool → Bool → Engine → Engine
  enter_busy_state ic command_mode preedit is_postprocessing raw_prev e =
      let e1 = leave_status_ic ic (remember_input_context (some ic) e) in
      let s = busy_session ic command_mode is_postprocessing raw_prev e1 in
      ensure_status_sync (show_busy s preedit is_postprocessing (hold_session s e1))

-- The input context that finishFrontendSession ends the presentation of.
abbrev pub finished_ic :
    Option Session → Option InputContext → Option InputContext → Option InputContext
finished_ic (some s) fallback status = some s.ic
finished_ic none (some ic) status = some ic
finished_ic none none status = status

unfoldable pub finish_frontend_session : Option InputContext → Engine → Engine
finish_frontend_session fallback e =
    let ic = finished_ic e.session fallback e.status_ic in
    let e1 : Engine = record e {
      status_poll_gate = PollGate.invalidate e.status_poll_gate;
      session = none;
      polled_idle_since = none;
      command_selected_text = "";
      status_ic = if same_ic e.status_ic ic then none else e.status_ic;
    } in
    stop_status_sync_if_idle (clear_voice_presentation ic e1)
