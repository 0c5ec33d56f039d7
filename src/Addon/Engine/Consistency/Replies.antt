-- ===== src/Addon/Engine/Consistency/Replies.antt =====
-- VinputEngine: the replies and the signals of the daemon, on the fields that agree with each other.
use fcitx5_vinput.Base.{false, Option, none, if_both}
use fcitx5_vinput.Config.Types.{Platform}
use fcitx5_vinput.Addon.Engine.{InputContext, Message, daemon_unavailable, Engine, World}
use fcitx5_vinput.Addon.Engine.Presentation.{remember_input_context, resolve_frontend_input_context}
use fcitx5_vinput.Addon.Engine.Frontend.{finish_frontend_session}
use fcitx5_vinput.Addon.Engine.Daemon.{note_daemon_sync_failure, clear_daemon_sync_failure}
use fcitx5_vinput.Addon.Engine.Replies.{
  Reply, answer, no_reply, error_reply, render_method_call_failure, call_rejected, on_call_reply,
  on_start_reply, on_stop_reply,
}
use fcitx5_vinput.Addon.Engine.Invariant.{parts, IsConsistent, remember_input_context-parts}
use fcitx5_vinput.Addon.Engine.Consistency.{parts-IsConsistent, finish-IsConsistent}
use fcitx5_vinput.Addon.Engine.Consistency.Daemon.{update-IsConsistent}

pub remember-IsConsistent :
    (ic : Option InputContext) (e : Engine)
    → IsConsistent e
    → IsConsistent (remember_input_context ic e)
remember-IsConsistent ic e h =
    parts-IsConsistent (remember_input_context ic e) e (remember_input_context-parts ic e) h

module _ {P : Platform} (w : World P) where
  call_rejected-IsConsistent :
      (m : Message) (e : Engine) → IsConsistent e → IsConsistent (call_rejected w m e)
  unfolding call_rejected note_daemon_sync_failure IsConsistent parts
  call_rejected-IsConsistent m e h =
      let e1 = note_daemon_sync_failure w.now e in
      let ic = resolve_frontend_input_context none e1 in
      update-IsConsistent ic m (finish_frontend_session ic e1) (finish-IsConsistent ic e1 h)

  on_call_reply-IsConsistent :
      (r : Reply) (e : Engine) → IsConsistent e → IsConsistent (on_call_reply w r e)
  unfolding on_call_reply clear_daemon_sync_failure IsConsistent parts
  on_call_reply-IsConsistent (answer body) e h = h
  on_call_reply-IsConsistent no_reply e h = call_rejected-IsConsistent daemon_unavailable e h
  on_call_reply-IsConsistent (error_reply name line) e h =
      call_rejected-IsConsistent (render_method_call_failure name line daemon_unavailable) e h

  pub on_start_reply-IsConsistent :
      (r : Reply) (e : Engine) → IsConsistent e → IsConsistent (on_start_reply w r e)
  unfolding on_start_reply IsConsistent parts
  on_start_reply-IsConsistent r e h =
      let e1 : Engine = record e { pending_start_call = false } in
      if_both IsConsistent e.pending_start_call (on_call_reply w r e1) e
        (λ k. on_call_reply-IsConsistent r e1 h) (λ k. h)

  pub on_stop_reply-IsConsistent :
      (r : Reply) (e : Engine) → IsConsistent e → IsConsistent (on_stop_reply w r e)
  unfolding on_stop_reply IsConsistent parts
  on_stop_reply-IsConsistent r e h =
      let e1 : Engine = record e { pending_stop_call = false } in
      if_both IsConsistent e.pending_stop_call (on_call_reply w r e1) e
        (λ k. on_call_reply-IsConsistent r e1 h) (λ k. h)
