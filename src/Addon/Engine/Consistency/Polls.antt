-- ===== src/Addon/Engine/Consistency/Polls.antt =====
-- VinputEngine: the polls of the status, on the fields that agree with each other.
use fcitx5_vinput.Base.{
  ℕ, String, ◌≡◌, refl, Bool, true, false, not, ◌&&◌, ◌||◌, Option, none, some, if◌then◌else◌,
  if_both, ==_refl, ◌-◌, ltb, arith, str_eq, str_empty,
}
use fcitx5_vinput.Config.Types.{Platform}
use fcitx5_vinput.Addon.PollGate
use fcitx5_vinput.Addon.PollGate.{Ticket, StatusPollGate, increment}
use fcitx5_vinput.Addon.Engine.{
  InputContext, Session, Engine, World, Effect, emit, get_status_call, polled_idle_recovery_delay,
  status_idle,
}
use fcitx5_vinput.Addon.Engine.Presentation.{remember_input_context, resolve_frontend_input_context}
use fcitx5_vinput.Addon.Engine.Frontend.{needs_sync, invalidate_polls}
use fcitx5_vinput.Addon.Engine.Daemon.{
  daemon_sync_allowed, note_daemon_sync_failure, clear_daemon_sync_failure, nothing_shown,
  apply_daemon_status_locally, has_none,
}
use fcitx5_vinput.Addon.Engine.Replies.{
  Reply, answer, no_reply, error_reply, send_status, sync_frontend_with_daemon_status, idle_since,
  on_polled_status, on_fresh_reply, on_completed, on_reply_to, on_status_reply, on_status_timer,
  on_status_changed,
}
use fcitx5_vinput.Addon.Engine.Invariant.{parts, IsShown, IsPolled, IsConsistent}
use fcitx5_vinput.Addon.Engine.Consistency.Frontend.{invalidated-IsConsistent}
use fcitx5_vinput.Addon.Engine.Consistency.Daemon.{apply_daemon_status-IsConsistent}
use fcitx5_vinput.Addon.Engine.Consistency.Replies.{remember-IsConsistent}

-- The gate after TryBegin is the gate of the ticket that it gives.
pub try_begin-IsPolled :
    (g : StatusPollGate) (t : Ticket)
    → (PollGate.try_begin g).1 ≡ some t
    → IsPolled (some t) (PollGate.try_begin g).0
unfolding PollGate.try_begin PollGate.is_active
try_begin-IsPolled g t q = ground (arith, ==_refl (increment g.request_id))

pub complete-IsPolled :
    (g : StatusPollGate) (t : Ticket)
    → PollGate.is_active t g ≡ true
    → IsPolled none (PollGate.complete t g).0
unfolding PollGate.complete
complete-IsPolled g t q = ground arith

quiet-IsShown :
    (s : Option Session) (ic : Option InputContext) (armed : Bool) (call : Option Ticket)
    (old g : StatusPollGate)
    → IsPolled none g
    → IsShown s ic armed call old
    → IsShown s ic armed none g
quiet-IsShown none ic armed call old g p (a, b, c, d) = (a, b, refl, p)
quiet-IsShown (some s) ic armed call old g p (a, b, c) = (a, b, p)

polled-IsShown :
    (s : Option Session) (ic : Option InputContext) (armed : Bool) (call : Option Ticket)
    (t : Ticket) (old g : StatusPollGate)
    → has_none s ≡ false
    → IsPolled (some t) g
    → IsShown s ic armed call old
    → IsShown s ic armed (some t) g
polled-IsShown none ic armed call t old g live p shown = ground arith
polled-IsShown (some s) ic armed call t old g live p (a, b, c) = (a, b, p)

-- No poll is pending any more.
pub quiet-IsConsistent :
    (g : StatusPollGate) (e : Engine)
    → IsPolled none g
    → IsConsistent e
    → IsConsistent (record e { pending_status_call = none; status_poll_gate = g })
unfolding IsConsistent parts
quiet-IsConsistent g e p (shown, held) = (
  quiet-IsShown e.session e.status_ic e.status_sync_armed e.pending_status_call e.status_poll_gate g
      p shown,
  held,
)

pub cancel-IsPolled : (g : StatusPollGate) → IsPolled none (PollGate.cancel g)
unfolding PollGate.cancel
cancel-IsPolled g = refl

-- Fields that nothing else agrees with.
pub emitted : (x : Effect) (e : Engine) → IsConsistent e → IsConsistent (emit x e)
unfolding IsConsistent parts
emitted x e h = h

pub failed : (now : ℕ) (e : Engine) → IsConsistent e → IsConsistent (note_daemon_sync_failure now e)
unfolding IsConsistent parts note_daemon_sync_failure
failed now e h = h

pub noted :
    (e : Engine)
    → IsConsistent (invalidate_polls e)
    → (status : String)
    → IsConsistent (record (invalidate_polls e) {
      last_known_daemon_status = status;
      polled_idle_since = none;
    })
unfolding IsConsistent parts
noted e h status = h

-- A new poll of a session is pending.
pub polled-IsConsistent :
    (t : Ticket) (g : StatusPollGate) (e : Engine)
    → has_none e.session ≡ false
    → IsPolled (some t) g
    → IsConsistent e
    → IsConsistent (record e { pending_status_call = some t; status_poll_gate = g })
unfolding IsConsistent parts
polled-IsConsistent t g e live p (shown, held) = (
  polled-IsShown e.session e.status_ic e.status_sync_armed e.pending_status_call t
      e.status_poll_gate g live p shown,
  held,
)

armed_live :
    (s : Option Session) (ic : Option InputContext) (armed : Bool) (call : Option Ticket)
    (g : StatusPollGate)
    → IsShown s ic armed call g
    → armed ≡ true
    → has_none s ≡ false
armed_live none ic armed call g (a, b, c, d) k = ground arith
armed_live (some s) ic armed call g h k = refl

pub timer_live :
    (e : Engine) → e.status_sync_armed ≡ true → IsConsistent e → has_none e.session ≡ false
unfolding IsConsistent parts
timer_live e k h =
    armed_live e.session e.status_ic e.status_sync_armed e.pending_status_call e.status_poll_gate
      h.0 k

rearmed-IsShown :
    (s : Option Session) (ic : Option InputContext) (armed : Bool) (call : Option Ticket)
    (g : StatusPollGate)
    → IsShown s ic armed call g
    → IsShown s ic (needs_sync s ic) call g
unfolding needs_sync
rearmed-IsShown none none armed call g (a, b, c, d) = (a, refl, c, d)
rearmed-IsShown none (some ic) armed call g (a, b, c, d) = ground arith
rearmed-IsShown (some s) ic armed call g (a, b, c) = (a, refl, c)

pub rearmed-IsConsistent :
    (e : Engine)
    → IsConsistent e
    → IsConsistent (record e { status_sync_armed = needs_sync e.session e.status_ic })
unfolding IsConsistent parts
rearmed-IsConsistent e (shown, held) = (
  rearmed-IsShown e.session e.status_ic e.status_sync_armed e.pending_status_call e.status_poll_gate
      shown,
  held,
)

module _ {P : Platform} (w : World P) where
  send_status-IsConsistent :
      (r : StatusPollGate × Option Ticket) (e : Engine)
      → ((t : Ticket) → r.1 ≡ some t → IsPolled (some t) r.0)
      → has_none e.session ≡ false
      → IsConsistent e
      → IsConsistent (send_status w r e)
  unfolding send_status
  send_status-IsConsistent (g, none) e p live h = h
  send_status-IsConsistent (g, some t) e p live h =
      let e1 : Engine = record e { status_poll_gate = g; pending_status_call = some t } in
      let e2 : Engine = record e1 {
        status_poll_gate = PollGate.cancel g;
        pending_status_call = none;
      } in
      let h1 : IsConsistent e1 = polled-IsConsistent t g e live (p t refl) h in
      if_both IsConsistent w.sends (emit (get_status_call t) e1) (note_daemon_sync_failure w.now e2)
        (λ k. emitted (get_status_call t) e1 h1)
        (λ k. failed w.now e2 (quiet-IsConsistent (PollGate.cancel g) e1 (cancel-IsPolled g) h1))

  pub sync-IsConsistent :
      (e : Engine)
      → has_none e.session ≡ false
      → IsConsistent e
      → IsConsistent (sync_frontend_with_daemon_status w e)
  unfolding sync_frontend_with_daemon_status
  sync-IsConsistent e live h =
      let r = PollGate.try_begin e.status_poll_gate in
      if_both IsConsistent (not w.has_bus || not (daemon_sync_allowed w.now e)) e
        (send_status w r e) (λ k. h)
        (λ k. send_status-IsConsistent r e (try_begin-IsPolled e.status_poll_gate) live h)

  on_polled_status-IsConsistent :
      (status : String) (e : Engine) → IsConsistent e → IsConsistent (on_polled_status w status e)
  unfolding on_polled_status clear_daemon_sync_failure IsConsistent parts
  on_polled_status-IsConsistent status e h =
      let e1 : Engine = record (clear_daemon_sync_failure e) {
        last_known_daemon_status = status;
      } in
      let since = idle_since w e1.polled_idle_since in
      let waits =
        str_eq status status_idle
        && not (has_none e1.session)
        && ltb (w.now - since) polled_idle_recovery_delay in
      let e2 : Engine = record e1 { polled_idle_since = some since } in
      let e3 : Engine = record e1 { polled_idle_since = none } in
      let applied = apply_daemon_status_locally w status none false e3 in
      if_both IsConsistent (str_empty status || nothing_shown e1) e1 (if waits then e2 else applied)
        (λ k. h)
        (λ k.
          if_both IsConsistent waits e2 applied (λ l. h)
            (λ l. apply_daemon_status-IsConsistent w status none false e3 h))

  on_fresh_reply-IsConsistent :
      (r : Reply) (e : Engine) → IsConsistent e → IsConsistent (on_fresh_reply w r e)
  unfolding on_fresh_reply note_daemon_sync_failure IsConsistent parts
  on_fresh_reply-IsConsistent (answer status) e h = on_polled_status-IsConsistent status e h
  on_fresh_reply-IsConsistent no_reply e h = h
  on_fresh_reply-IsConsistent (error_reply name line) e h = h

  on_completed-IsConsistent :
      (r : Reply) (c : StatusPollGate × Bool) (e : Engine)
      → IsPolled none c.0
      → IsConsistent e
      → IsConsistent (on_completed w r c e)
  unfolding on_completed
  on_completed-IsConsistent r (g, is_fresh) e p h =
      let e1 : Engine = record e { pending_status_call = none; status_poll_gate = g } in
      let h1 : IsConsistent e1 = quiet-IsConsistent g e p h in
      if_both IsConsistent is_fresh (on_fresh_reply w r e1) e1
        (λ k. on_fresh_reply-IsConsistent r e1 h1) (λ k. h1)

  on_reply_to-IsConsistent :
      (call : Option Ticket) (r : Reply) (e : Engine)
      → IsConsistent e
      → IsConsistent (on_reply_to w call r e)
  on_reply_to-IsConsistent none r e h = h
  on_reply_to-IsConsistent (some t) r e h =
      let c = PollGate.complete t e.status_poll_gate in
      if_both IsConsistent (PollGate.is_active t e.status_poll_gate) (on_completed w r c e) e
        (λ k. on_completed-IsConsistent r c e (complete-IsPolled e.status_poll_gate t k) h) (λ k. h)

  pub on_status_reply-IsConsistent :
      (r : Reply) (e : Engine) → IsConsistent e → IsConsistent (on_status_reply w r e)
  unfolding on_status_reply
  on_status_reply-IsConsistent r e h = on_reply_to-IsConsistent e.pending_status_call r e h

  pub on_status_changed-IsConsistent :
      (status : String) (e : Engine) → IsConsistent e → IsConsistent (on_status_changed w status e)
  unfolding on_status_changed
  on_status_changed-IsConsistent status e h =
      let e1 : Engine = record (invalidate_polls e) {
        last_known_daemon_status = status;
        polled_idle_since = none;
      } in
      let ic = resolve_frontend_input_context none e1 in
      apply_daemon_status-IsConsistent w status none false (remember_input_context ic e1)
        (remember-IsConsistent ic e1 (noted e (invalidated-IsConsistent e h) status))

  pub on_status_timer-IsConsistent :
      (e : Engine) → IsConsistent e → IsConsistent (on_status_timer w e)
  unfolding on_status_timer
  on_status_timer-IsConsistent e h =
      let e1 = sync_frontend_with_daemon_status w e in
      let e2 : Engine = record e1 { status_sync_armed = needs_sync e1.session e1.status_ic } in
      if_both IsConsistent e.status_sync_armed e2 e
        (λ k. rearmed-IsConsistent e1 (sync-IsConsistent e (timer_live e k h) h)) (λ k. h)
