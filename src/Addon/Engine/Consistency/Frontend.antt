-- ===== src/Addon/Engine/Consistency/Frontend.antt =====
-- VinputEngine: the functions that enter a state of the session, on the fields that agree.
use fcitx5_vinput.Base.{
  ℕ, ◌≡◌, ◌∙◌, ap, Bool, true, false, not, ◌&&◌, Option, some, if◌then◌else◌, if_both, str_empty,
}
use fcitx5_vinput.Addon.Engine.{
  InputContext, Key, Session, Message, blank, starting, recording_text, commanding,
  applying_command, transcript, command_transcript, Engine,
}
use fcitx5_vinput.Addon.Engine.Presentation.{
  remember_input_context, present, update_voice_presentation, compose_live_preedit,
}
use fcitx5_vinput.Addon.Engine.Frontend.{
  leave_status_ic, hold_session, enter_pending_start_state, stops_after_start,
  schedule_stop_recording, show_session, schedule_if, pending_session, invalidate_polls,
  recording_session, busy_session, enter_recording_state, show_busy, enter_busy_state,
}
use fcitx5_vinput.Addon.Engine.Invariant.{
  Parts, parts, IsConsistent, present-parts, remember_input_context-parts, leave_status_ic-parts,
}
use fcitx5_vinput.Addon.Engine.Consistency.{
  parts-IsConsistent, invalidate-IsShown, held-parts, held-IsConsistent,
}

show_session-IsConsistent :
    (s : Session) (text : Message) (e : Engine)
    → IsConsistent e
    → IsConsistent (show_session s text e)
unfolding show_session update_voice_presentation
show_session-IsConsistent s text e h =
    let e1 = hold_session s e in
    held-IsConsistent s (present (some s.ic) text blank e1) e
      (present-parts (some s.ic) text blank e1) h

pub show_busy-parts :
    (s : Session) (preedit : Message) (is_post : Bool) (e : Engine)
    → parts (show_busy s preedit is_post e) ≡ parts e
unfolding show_busy update_voice_presentation
show_busy-parts s preedit is_post e =
    let shown : Message → Message → Engine = λ m n. present (some s.ic) m n e in
    let live = shown (compose_live_preedit s.transcript_text preedit) blank in
    let m = if s.command_mode then applying_command else preedit in
    let n =
      if s.command_mode
      then command_transcript s.transcript_text
      else transcript s.transcript_text in
    let b = is_post && not (str_empty s.transcript_text) in
    if_both (λ d. parts d ≡ parts e) (not s.raw_prev) (shown preedit blank)
      (if b then shown m n else live) (λ h. present-parts (some s.ic) preedit blank e)
      (λ h.
        if_both (λ d. parts d ≡ parts e) b (shown m n) live (λ k. present-parts (some s.ic) m n e)
          (λ k. present-parts (some s.ic) (compose_live_preedit s.transcript_text preedit) blank e))

-- The engine behind the start of an enter function.
entered-IsConsistent :
    (ic : InputContext) (e : Engine)
    → IsConsistent e
    → IsConsistent (leave_status_ic ic (remember_input_context (some ic) e))
entered-IsConsistent ic e h =
    let e1 = remember_input_context (some ic) e in
    parts-IsConsistent (leave_status_ic ic e1) e
      (leave_status_ic-parts ic e1 ∙ remember_input_context-parts (some ic) e) h

schedule_if-IsConsistent : (b : Bool) (e : Engine) → IsConsistent e → IsConsistent (schedule_if b e)
unfolding schedule_if schedule_stop_recording IsConsistent parts
schedule_if-IsConsistent true e h = h
schedule_if-IsConsistent false e h = h

pub invalidated-IsConsistent : (e : Engine) → IsConsistent e → IsConsistent (invalidate_polls e)
unfolding IsConsistent parts
invalidated-IsConsistent e (shown, held) = (
  invalidate-IsShown e.session e.status_ic e.status_sync_armed e.pending_status_call
      e.status_poll_gate shown,
  held,
)

module _ (now : ℕ) where
  pub enter_pending_start-IsConsistent :
      (ic : InputContext) (trigger : Key) (command_mode : Bool) (e : Engine)
      → IsConsistent e
      → IsConsistent (enter_pending_start_state now ic trigger command_mode e)
  unfolding enter_pending_start_state
  enter_pending_start-IsConsistent ic trigger command_mode e h =
      let e1 = remember_input_context (some ic) e in
      let e2 = invalidate_polls e1 in
      let e3 = leave_status_ic ic e2 in
      show_session-IsConsistent (pending_session now ic trigger command_mode e3)
        (compose_live_preedit "" starting) e3
        (parts-IsConsistent e3 e2 (leave_status_ic-parts ic e2) (
          invalidated-IsConsistent e1
            (parts-IsConsistent e1 e (remember_input_context-parts (some ic) e) h)))

  pub enter_recording-IsConsistent :
      (ic : InputContext) (trigger : Key) (command_mode : Bool) (e : Engine)
      → IsConsistent e
      → IsConsistent (enter_recording_state now ic trigger command_mode e)
  unfolding enter_recording_state
  enter_recording-IsConsistent ic trigger command_mode e h =
      let e1 = leave_status_ic ic (remember_input_context (some ic) e) in
      let s = recording_session now ic trigger command_mode e1 in
      let text =
        compose_live_preedit s.transcript_text
          (if command_mode then commanding else recording_text) in
      schedule_if-IsConsistent (stops_after_start e1.trigger_mode e1.session)
        (show_session s text e1) (show_session-IsConsistent s text e1 (entered-IsConsistent ic e h))

  pub enter_busy-IsConsistent :
      (ic : InputContext) (command_mode : Bool) (preedit : Message) (is_post raw_prev : Bool)
      (e : Engine)
      → IsConsistent e
      → IsConsistent (enter_busy_state now ic command_mode preedit is_post raw_prev e)
  unfolding enter_busy_state
  enter_busy-IsConsistent ic command_mode preedit is_post raw_prev e h =
      let e1 = leave_status_ic ic (remember_input_context (some ic) e) in
      let s = busy_session now ic command_mode is_post raw_prev e1 in
      let e2 = hold_session s e1 in
      held-IsConsistent s (show_busy s preedit is_post e2) e1 (show_busy-parts s preedit is_post e2)
        (entered-IsConsistent ic e h)

  -- The session that enterBusyState leaves.
  pub enter_busy-session :
      (ic : InputContext) (command_mode : Bool) (preedit : Message) (is_post raw_prev : Bool)
      (e : Engine)
      → (enter_busy_state now ic command_mode preedit is_post raw_prev e).session
        ≡ some (
            busy_session now ic command_mode is_post raw_prev
              (leave_status_ic ic (remember_input_context (some ic) e)))
  unfolding enter_busy_state parts
  enter_busy-session ic command_mode preedit is_post raw_prev e =
      let e1 = leave_status_ic ic (remember_input_context (some ic) e) in
      let s = busy_session now ic command_mode is_post raw_prev e1 in
      let e2 = hold_session s e1 in
      let g : Parts → Option Session = λ p. p.session in
      ap g (held-parts s (show_busy s preedit is_post e2) e1 (show_busy-parts s preedit is_post e2))
