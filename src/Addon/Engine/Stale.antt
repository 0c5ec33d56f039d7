-- ===== src/Addon/Engine/Stale.antt =====
-- VinputEngine: an answer to GetStatus that StatusChanged has overtaken (onStatusChanged and
-- syncFrontendWithDaemonStatus of src/addon/dbus/vinput_dbus.cpp, over StatusPollGate).
use fcitx5_vinput.Base.{
  ℕ, String, ◌≡◌, refl, ◌∙◌, sym, ap, subst, Bool, true, false, ◌&&◌, Option, none, some,
  if◌then◌else◌, if_both, ◌==◌, arith, str_eq,
}
use fcitx5_vinput.Config.Types.{Platform}
use fcitx5_vinput.Addon.PollGate
use fcitx5_vinput.Addon.PollGate.{Ticket, StatusPollGate, increment}
use fcitx5_vinput.Addon.Engine.{
  InputContext, Key, Message, commanding, recording_text, inferring_text, postprocessing_text,
  blank, Engine, World, status_idle, status_recording, status_inferring, status_postprocessing,
}
use fcitx5_vinput.Addon.Engine.Presentation.{
  remember_input_context, resolve_frontend_input_context, present, update_voice_presentation,
  compose_live_preedit,
}
use fcitx5_vinput.Addon.Engine.Frontend.{
  invalidate_polls, leave_status_ic, hold_session, recording_session, busy_session, show_session,
  show_busy, schedule_if, schedule_stop_recording, stops_after_start, shown_raw_prev,
  enter_recording_state, enter_busy_state, finish_frontend_session, needs_sync,
}
use fcitx5_vinput.Addon.Engine.Daemon.{
  session_trigger, session_command_mode, nothing_shown, apply_status_to, apply_status_in,
  apply_daemon_status_locally,
}
use fcitx5_vinput.Addon.Engine.Replies.{
  Reply, on_completed, on_reply_to, on_status_reply, on_status_changed,
}
use fcitx5_vinput.Addon.Engine.Invariant.{
  Parts, parts, IsPolled, IsConsistent, present-parts, remember_input_context-parts,
  leave_status_ic-parts,
}
use fcitx5_vinput.Addon.Engine.Consistency.{
  held-parts, finish-parts, IsShown-IsPolled, parts-IsConsistent,
}
use fcitx5_vinput.Addon.Engine.Consistency.Frontend.{show_busy-parts, invalidated-IsConsistent}
use fcitx5_vinput.Addon.Engine.Consistency.Polls.{on_status_changed-IsConsistent}

-- The pending poll and the gate.
abbrev Polls : Type 0
Polls = Option Ticket × StatusPollGate

abbrev polls : Parts → Polls
polls p = (p.call, p.gate)

-- The ticket of the pending poll has the generation of the gate.
abbrev pub IsCurrent : Polls → Type 0
IsCurrent (none, g) = Unit {0}
IsCurrent (some t, g) = t.generation ≡ g.generation

-- It has another one.
abbrev IsOld : Polls → Type 0
IsOld (none, g) = Unit {0}
IsOld (some t, g) = (t.generation == g.generation) ≡ false

invalidate-IsOld :
    (call : Option Ticket) (g : StatusPollGate)
    → IsCurrent (call, g)
    → IsOld (call, PollGate.invalidate g)
unfolding PollGate.invalidate increment
invalidate-IsOld none g h = tt
invalidate-IsOld (some t) g h = ground arith

module _ (now : ℕ) where
  entered-polls :
      (ic : InputContext) (e : Engine)
      → parts (leave_status_ic ic (remember_input_context (some ic) e)) ≡ parts e
  entered-polls ic e =
      leave_status_ic-parts ic (remember_input_context (some ic) e)
      ∙ remember_input_context-parts (some ic) e

  schedule_if-parts : (b : Bool) (e : Engine) → parts (schedule_if b e) ≡ parts e
  unfolding schedule_if schedule_stop_recording parts
  schedule_if-parts true e = refl
  schedule_if-parts false e = refl

  enter_recording-polls :
      (ic : InputContext) (trigger : Key) (command_mode : Bool) (e : Engine)
      → polls (parts (enter_recording_state now ic trigger command_mode e)) ≡ polls (parts e)
  unfolding enter_recording_state show_session update_voice_presentation
  enter_recording-polls ic trigger command_mode e =
      let e1 = leave_status_ic ic (remember_input_context (some ic) e) in
      let s = recording_session now ic trigger command_mode e1 in
      let text =
        compose_live_preedit s.transcript_text
          (if command_mode then commanding else recording_text) in
      let d = hold_session s e1 in
      ap polls
        (schedule_if-parts (stops_after_start e1.trigger_mode e1.session) (show_session s text e1))
      ∙ ap polls
          (held-parts s (present (some ic) text blank d) e1 (present-parts (some ic) text blank d))
      ∙ ap polls (entered-polls ic e)

  enter_busy-polls :
      (ic : InputContext) (command_mode : Bool) (preedit : Message) (is_post raw_prev : Bool)
      (e : Engine)
      → polls (parts (enter_busy_state now ic command_mode preedit is_post raw_prev e))
        ≡ polls (parts e)
  unfolding enter_busy_state
  enter_busy-polls ic command_mode preedit is_post raw_prev e =
      let e1 = leave_status_ic ic (remember_input_context (some ic) e) in
      let s = busy_session now ic command_mode is_post raw_prev e1 in
      let d = hold_session s e1 in
      ap polls
        (held-parts s (show_busy s preedit is_post d) e1 (show_busy-parts s preedit is_post d))
      ∙ ap polls (entered-polls ic e)

abbrev IsStale : Engine → Type 0
IsStale e = IsOld (polls (parts e))

finish-IsStale :
    (fallback : Option InputContext) (e : Engine)
    → IsConsistent e
    → IsStale (finish_frontend_session fallback e)
unfolding needs_sync
finish-IsStale fallback e h = subst IsOld (sym (ap polls (finish-parts fallback e h))) tt

module _ {P : Platform} (w : World P) where
  -- An old answer only ends its call.
  reply_to_old :
      (call : Option Ticket) (r : Reply) (e : Engine)
      → IsOld (call, e.status_poll_gate)
      → IsPolled call e.status_poll_gate
      → e.pending_status_call ≡ call
      → on_reply_to w call r e ≡ record e {
        pending_status_call = none;
        status_poll_gate = record (e.status_poll_gate) { active = false };
      }
  unfolding on_completed PollGate.complete
  reply_to_old none r e o p q =
      let f : Bool → Option Ticket → Engine = λ b o. record e {
        pending_status_call = o;
        status_poll_gate = record (e.status_poll_gate) { active = b };
      } in
      ap (λ b. f b e.pending_status_call) p ∙ ap (f false) q
  reply_to_old (some t) r e o p q =
      let g = e.status_poll_gate in
      let c = PollGate.complete t g in
      let ended : StatusPollGate = record g { active = false } in
      let settled : StatusPollGate × Bool = (ended, t.generation == g.generation) in
      let old : Bool → StatusPollGate × Bool = λ b. (ended, b) in
      ap (λ b. if b then on_completed w r c e else e) p
      ∙ ap (λ x. on_completed w r x e) (ap (λ b. if b then settled else (g, false)) p ∙ ap old o)

module _ {P : Platform} (w : World P) where
  apply_status_to-IsStale :
      (ic : InputContext) (prefer : Bool) (status : String) (e : Engine)
      → IsConsistent e
      → IsStale e
      → IsStale (apply_status_to w ic prefer status e)
  unfolding apply_status_to
  apply_status_to-IsStale ic prefer status e h o =
      let command = session_command_mode prefer e.session in
      let raw = shown_raw_prev e in
      let t = session_trigger e.session in
      let m = postprocessing_text command raw in
      let a = enter_recording_state w.now ic t command e in
      let b = enter_busy_state w.now ic command inferring_text false raw e in
      let c = enter_busy_state w.now ic command m true raw e in
      let d = finish_frontend_session (some ic) e in
      let inf = str_eq status status_inferring in
      let post = str_eq status status_postprocessing in
      let same : (x : Engine) → polls (parts x) ≡ polls (parts e) → IsStale x =
        λ x q. subst IsOld (sym q) o in
      if_both IsStale (str_eq status status_recording) a (if inf then b else if post then c else d)
        (λ k. same a (enter_recording-polls w.now ic t command e))
        (λ k.
          if_both IsStale inf b (if post then c else d)
            (λ k. same b (enter_busy-polls w.now ic command inferring_text false raw e))
            (λ k.
              if_both IsStale post c d
                (λ k. same c (enter_busy-polls w.now ic command m true raw e))
                (λ k. finish-IsStale (some ic) e h)))

  apply_status_in-IsStale :
      (ic : Option InputContext) (status : String) (e : Engine)
      → IsConsistent e
      → IsStale e
      → IsStale (apply_status_in w ic false status e)
  apply_status_in-IsStale none status e h o = o
  apply_status_in-IsStale (some ic) status e h o = apply_status_to-IsStale ic false status e h o

  on_status_changed-IsStale :
      (status : String) (e : Engine)
      → IsConsistent e
      → IsCurrent (e.pending_status_call, e.status_poll_gate)
      → IsStale (on_status_changed w status e)
  unfolding on_status_changed apply_daemon_status_locally IsConsistent parts
  on_status_changed-IsStale status e h c =
      let e1 : Engine = record (invalidate_polls e) {
        last_known_daemon_status = status;
        polled_idle_since = none;
      } in
      let known = resolve_frontend_input_context none e1 in
      let e2 = remember_input_context known e1 in
      let h1 : IsConsistent e1 = invalidated-IsConsistent e h in
      let h2 = parts-IsConsistent e2 e1 (remember_input_context-parts known e1) h1 in
      let o2 : IsStale e2 =
        subst IsOld (sym (ap polls (remember_input_context-parts known e1)))
          (invalidate-IsOld e.pending_status_call e.status_poll_gate c) in
      let ic = resolve_frontend_input_context none e2 in
      if_both IsStale (str_eq status status_idle && nothing_shown e2) e2
        (apply_status_in w ic false status e2) (λ k. o2)
        (λ k. apply_status_in-IsStale ic status e2 h2 o2)

  -- In a consistent engine, when StatusChanged arrives while an answer to GetStatus of the current
  -- generation is on its way or none is, an answer that comes next changes nothing any more,
  -- whatever it says: it only ends its call and lets the gate begin another one.
  pub on_status_changed-overtakes :
      (status : String) (later : World P) (r : Reply) (e : Engine)
      → IsConsistent e
      → IsCurrent (e.pending_status_call, e.status_poll_gate)
      → on_status_reply later r (on_status_changed w status e)
        ≡ record (on_status_changed w status e) {
          pending_status_call = none;
          status_poll_gate = record ((on_status_changed w status e).status_poll_gate) {
            active = false;
          };
        }
  unfolding on_status_reply IsConsistent parts
  on_status_changed-overtakes status later r e h c =
      let d = on_status_changed w status e in
      let hd : IsConsistent d = on_status_changed-IsConsistent w status e h in
      let p =
        IsShown-IsPolled d.session d.status_ic d.status_sync_armed d.pending_status_call
          d.status_poll_gate hd.0 in
      reply_to_old later d.pending_status_call r d (on_status_changed-IsStale status e h c) p refl
