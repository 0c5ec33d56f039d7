-- ===== src/Addon/Engine/Replies.antt =====
-- VinputEngine: the replies and the signals of the daemon (src/addon/dbus/vinput_dbus.cpp). A reply
-- that is no error carries what the daemon answers.
use Prim.Native.Char.{code}
use fcitx5_vinput.Base.{
  ℕ, String, Bool, false, not, ◌&&◌, ◌||◌, Option, none, some, if◌then◌else◌, ◌==◌, ◌-◌, ltb,
  str_eq, str_empty,
}
use fcitx5_vinput.Config.Types.{Platform}
use fcitx5_vinput.Addon.PollGate
use fcitx5_vinput.Addon.PollGate.{Ticket, StatusPollGate}
use fcitx5_vinput.Addon.Engine.{
  Message, daemon_unavailable, daemon_not_responding, failure, get_status_call, Engine, World, emit,
  polled_idle_recovery_delay, status_idle,
}
use fcitx5_vinput.Addon.Engine.Presentation.{
  remember_input_context, resolve_frontend_input_context, update_voice_presentation,
}
use fcitx5_vinput.Addon.Engine.Frontend.{finish_frontend_session, needs_sync}
use fcitx5_vinput.Addon.Engine.Daemon.{
  daemon_sync_allowed, note_daemon_sync_failure, clear_daemon_sync_failure, nothing_shown, has_none,
  apply_daemon_status_locally,
}

-- `no_reply` is a null message.
pub data Reply : Type 0 where
  answer : String → Reply
  no_reply : Reply
  error_reply : (name message : String) → Reply

-- A text up to its first line break.
unfoldable pub first_line : String → String
first_line String.[] = String.[]
first_line (String.◌∷◌ c s) =
    let rest = first_line s in if code c == 10 then String.[] else String.◌∷◌ c rest

-- RenderMethodCallFailure
unfoldable pub render_method_call_failure : String → String → Message → Message
render_method_call_failure name message fallback =
    if str_eq name "org.freedesktop.DBus.Error.ServiceUnknown"
      || str_eq name "org.freedesktop.DBus.Error.NameHasNoOwner"
    then daemon_unavailable
    else if str_eq name "org.freedesktop.DBus.Error.NoReply"
        || str_eq name "org.freedesktop.DBus.Error.Timeout"
    then daemon_not_responding
    else if not (str_empty message)
    then failure (first_line message)
    else fallback

module _ {P : Platform} (w : World P) where
  -- The failing branch of the replies to StartRecording, StartCommandRecording and StopRecording.
  unfoldable pub call_rejected : Message → Engine → Engine
  call_rejected message e =
      let e1 = note_daemon_sync_failure w.now e in
      let ic = resolve_frontend_input_context none e1 in
      update_voice_presentation ic message (finish_frontend_session ic e1)

  unfoldable pub on_call_reply : Reply → Engine → Engine
  on_call_reply (answer body) e = clear_daemon_sync_failure e
  on_call_reply no_reply e = call_rejected daemon_unavailable e
  on_call_reply (error_reply name message) e =
      call_rejected (render_method_call_failure name message daemon_unavailable) e

  unfoldable pub on_start_reply : Reply → Engine → Engine
  on_start_reply reply e =
      if e.pending_start_call
      then on_call_reply reply (record e { pending_start_call = false })
      else e

  unfoldable pub on_stop_reply : Reply → Engine → Engine
  on_stop_reply reply e =
      if e.pending_stop_call
      then on_call_reply reply (record e { pending_stop_call = false })
      else e

  -- What follows TryBegin: the call, or nothing while another one is pending.
  unfoldable pub send_status : StatusPollGate × Option Ticket → Engine → Engine
  send_status (gate, none) e = e
  send_status (gate, some t) e =
      let e1 : Engine = record e { status_poll_gate = gate; pending_status_call = some t } in
      if w.sends
      then emit (get_status_call t) e1
      else note_daemon_sync_failure w.now
          (record e1 { status_poll_gate = PollGate.cancel gate; pending_status_call = none })

  unfoldable pub sync_frontend_with_daemon_status : Engine → Engine
  sync_frontend_with_daemon_status e =
      if not w.has_bus || not (daemon_sync_allowed w.now e)
      then e
      else send_status (PollGate.try_begin e.status_poll_gate) e

  -- `polled_idle_since_`, set where it is not yet.
  unfoldable pub idle_since : Option ℕ → ℕ
  idle_since none = w.now
  idle_since (some t) = t

  -- What a fresh answer to GetStatus does.
  unfoldable pub on_polled_status : String → Engine → Engine
  on_polled_status status e =
      let e1 : Engine = record (clear_daemon_sync_failure e) {
        last_known_daemon_status = status;
      } in
      let since = idle_since e1.polled_idle_since in
      if str_empty status || nothing_shown e1
      then e1
      else if str_eq status status_idle
          && not (has_none e1.session)
          && ltb (w.now - since) polled_idle_recovery_delay
      then record e1 { polled_idle_since = some since }
      else apply_daemon_status_locally w status none false (record e1 { polled_idle_since = none })

  unfoldable pub on_fresh_reply : Reply → Engine → Engine
  on_fresh_reply (answer status) e = on_polled_status status e
  on_fresh_reply no_reply e = note_daemon_sync_failure w.now e
  on_fresh_reply (error_reply name message) e = note_daemon_sync_failure w.now e

  -- What follows Complete.
  unfoldable pub on_completed : Reply → StatusPollGate × Bool → Engine → Engine
  on_completed reply (gate, is_fresh) e =
      let e1 : Engine = record e { pending_status_call = none; status_poll_gate = gate } in
      if is_fresh then on_fresh_reply reply e1 else e1

  abbrev pub on_reply_to : Option Ticket → Reply → Engine → Engine
  on_reply_to none reply e = e
  on_reply_to (some t) reply e =
      if PollGate.is_active t e.status_poll_gate
      then on_completed reply (PollGate.complete t e.status_poll_gate) e
      else e

  unfoldable pub on_status_reply : Reply → Engine → Engine
  on_status_reply reply e = on_reply_to e.pending_status_call reply e

  -- The callback of the status timer, which says whether the timer goes on.
  unfoldable pub on_status_timer : Engine → Engine
  on_status_timer e =
      let e1 = sync_frontend_with_daemon_status e in
      if e.status_sync_armed
      then record e1 { status_sync_armed = needs_sync e1.session e1.status_ic }
      else e

  unfoldable pub on_status_changed : String → Engine → Engine
  on_status_changed status e =
      let e1 : Engine = record e {
        status_poll_gate = PollGate.invalidate e.status_poll_gate;
        last_known_daemon_status = status;
        polled_idle_since = none;
      } in
      apply_daemon_status_locally w status none false
        (remember_input_context (resolve_frontend_input_context none e1) e1)
