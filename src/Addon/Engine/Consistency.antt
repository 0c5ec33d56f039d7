-- ===== src/Addon/Engine/Consistency.antt =====
-- VinputEngine: that the states of the frontend session agree with what is shown.
pub mod Frontend
pub mod Daemon
pub mod Starting
pub mod Replies
pub mod Polls
pub mod Results
pub mod Menus
pub mod Keyboard
pub mod Handler
pub mod Events
use fcitx5_vinput.Base.{
  ℕ, String, ◌≡◌, refl, ◌∙◌, sym, ap, subst, Bool, true, false, not, ◌&&◌, ◌||◌, Option, none, some,
  if◌then◌else◌, if_both, ◌==◌, ==_refl, arith, str_empty, inl, inr, Bool-cases,
}
use fcitx5_vinput.Scene.{resolve}
use fcitx5_vinput.Addon.PollGate
use fcitx5_vinput.Addon.PollGate.{StatusPollGate, Ticket}
use fcitx5_vinput.Addon.Engine.{
  InputContext, Key, no_key, pending_start, recording, inferring, postprocessing, Session,
  HotkeyRole, no_role, TriggerMode, Message, blank, starting, recording_text, commanding,
  applying_command, transcript, command_transcript, Engine,
}
use fcitx5_vinput.Addon.Engine.Presentation.{
  same_ic, remember_input_context, present, update_voice_presentation, clear_voice_presentation,
  compose_live_preedit,
}
use fcitx5_vinput.Addon.Engine.Frontend.{
  needs_sync, stop_status_sync_if_idle, ensure_status_sync, session_or_new, leave_status_ic,
  hold_session, enter_pending_start_state, stops_after_start, schedule_stop_recording,
  shown_raw_prev, show_session, schedule_if, pending_session, invalidate_polls, recording_session,
  busy_session, enter_recording_state, show_busy, enter_busy_state, finished_ic,
  finish_frontend_session,
}
use fcitx5_vinput.Addon.Engine.Invariant.{
  IsPolled, IsShown, IsHeld, Parts, parts, AreConsistent, IsConsistent, present-parts,
  remember_input_context-parts, leave_status_ic-parts,
}

-- What only the parts decide.
pub parts-IsConsistent : (d e : Engine) → parts d ≡ parts e → IsConsistent e → IsConsistent d
unfolding IsConsistent
parts-IsConsistent d e q h = subst AreConsistent (sym q) h

-- A session may be written over by another one in the same input context.
pub same_owner-IsConsistent :
    (s t : Session) (e : Engine)
    → e.session ≡ some s
    → t.ic ≡ s.ic
    → IsConsistent e
    → IsConsistent (record e { session = some t })
unfolding IsConsistent parts
same_owner-IsConsistent s t e q r (shown, held) =
    let g : Option Session → Type 0 =
      λ o. IsShown o e.status_ic e.status_sync_armed e.pending_status_call e.status_poll_gate in
    let (ic, armed, polled) : g (some s) = subst g q shown in
    ((ic ∙ ap some (sym r), armed, polled), held)

pub invalidate-IsPolled :
    (call : Option Ticket) (g : StatusPollGate)
    → IsPolled call g
    → IsPolled call (PollGate.invalidate g)
unfolding PollGate.invalidate PollGate.is_active
invalidate-IsPolled none g h = h
invalidate-IsPolled (some t) g h = h

pub invalidate-IsShown :
    (s : Option Session) (ic : Option InputContext) (armed : Bool) (call : Option Ticket)
    (g : StatusPollGate)
    → IsShown s ic armed call g
    → IsShown s ic armed call (PollGate.invalidate g)
unfolding PollGate.invalidate
invalidate-IsShown none ic armed call g (a, b, c, d) = (a, b, c, d)
invalidate-IsShown (some s) ic armed call g (a, b, c) = (a, b, invalidate-IsPolled call g c)

pub IsShown-IsPolled :
    (s : Option Session) (ic : Option InputContext) (armed : Bool) (call : Option Ticket)
    (g : StatusPollGate)
    → IsShown s ic armed call g
    → IsPolled call g
IsShown-IsPolled none ic armed none g (a, b, c, d) = d
IsShown-IsPolled none ic armed (some t) g (a, b, c, d) = ground arith
IsShown-IsPolled (some s) ic armed call g (a, b, c) = c

-- The parts after stopStatusSyncIfIdle, and after ensureStatusSync.
abbrev pub stopped : Parts → Parts
stopped p =
    if needs_sync p.session p.status_ic
    then p
    else record p { armed = false; gate = PollGate.cancel p.gate; call = none }

abbrev ensured : Parts → Parts
ensured p = if not (needs_sync p.session p.status_ic) then stopped p else record p { armed = true }

pub stop_status_sync-parts : (e : Engine) → parts (stop_status_sync_if_idle e) ≡ stopped (parts e)
unfolding parts stop_status_sync_if_idle
stop_status_sync-parts e = ground arith

ensure_status_sync-parts : (e : Engine) → parts (ensure_status_sync e) ≡ ensured (parts e)
unfolding parts ensure_status_sync stop_status_sync_if_idle
ensure_status_sync-parts e = ground arith

-- The parts after a session is held and polled.
abbrev pub held_parts : Session → Parts → Parts
held_parts s p = record p { session = some s; status_ic = some s.ic; armed = true }

held_parts-AreConsistent :
    (s : Session) (p : Parts) → AreConsistent p → AreConsistent (held_parts s p)
held_parts-AreConsistent s p (shown, held) =
    ((refl, refl, IsShown-IsPolled p.session p.status_ic p.armed p.call p.gate shown), held)

pub held-parts :
    (s : Session) (d e : Engine)
    → parts d ≡ parts (hold_session s e)
    → parts (ensure_status_sync d) ≡ held_parts s (parts e)
unfolding parts hold_session needs_sync
held-parts s d e q = ensure_status_sync-parts d ∙ ap ensured q

pub held-IsConsistent :
    (s : Session) (d e : Engine)
    → parts d ≡ parts (hold_session s e)
    → IsConsistent e
    → IsConsistent (ensure_status_sync d)
unfolding IsConsistent
held-IsConsistent s d e q h =
    subst AreConsistent (sym (held-parts s d e q)) (held_parts-AreConsistent s (parts e) h)

-- The parts of an engine without a session that shows nothing.
abbrev pub emptied : StatusPollGate → Parts → Parts
emptied gate p = stopped (record p { session = none; status_ic = none; gate = gate })

emptied-AreConsistent :
    (gate : StatusPollGate) (p : Parts)
    → IsHeld p.role p.sym p.chord
    → AreConsistent (emptied gate p)
unfolding needs_sync PollGate.cancel
emptied-AreConsistent gate p h = ((refl, refl, refl, refl), h)

pub emptied-IsConsistent :
    (gate : StatusPollGate) (d e : Engine)
    → parts d ≡ emptied gate (parts e)
    → IsConsistent e
    → IsConsistent d
unfolding IsConsistent parts
emptied-IsConsistent gate d e q (shown, held) =
    subst AreConsistent (sym q) (emptied-AreConsistent gate (parts e) held)

-- What finishFrontendSession leaves in `status_ic_`.
abbrev left_ic : Option InputContext → Option InputContext → Option InputContext
left_ic status ic = if same_ic status ic then none else status

left_none : (ic : Option InputContext) → left_ic none ic ≡ none
unfolding same_ic
left_none none = refl
left_none (some ic) = refl

left_ic-none :
    (s : Option Session) (ic fallback : Option InputContext) (armed : Bool) (call : Option Ticket)
    (g : StatusPollGate)
    → IsShown s ic armed call g
    → left_ic ic (finished_ic s fallback ic) ≡ none
unfolding same_ic
left_ic-none none ic fallback armed call g (shown, _, _, _) =
    subst (λ o. left_ic o (finished_ic none fallback o) ≡ none) (sym shown)
      (left_none (finished_ic none fallback none))
left_ic-none (some s) ic fallback armed call g (shown, _, _) =
    subst (λ o. left_ic o (some s.ic) ≡ none) (sym shown)
      (ap (λ b. if b then none else some s.ic) (==_refl s.ic))

pub finish-parts :
    (fallback : Option InputContext) (e : Engine)
    → IsConsistent e
    → parts (finish_frontend_session fallback e)
      ≡ emptied (PollGate.invalidate e.status_poll_gate) (parts e)
unfolding finish_frontend_session clear_voice_presentation update_voice_presentation IsConsistent
    parts
finish-parts fallback e h =
    let ic = finished_ic e.session fallback e.status_ic in
    let e1 : Engine = record e {
      status_poll_gate = PollGate.invalidate e.status_poll_gate;
      session = none;
      polled_idle_since = none;
      command_selected_text = "";
      status_ic = left_ic e.status_ic ic;
    } in
    let d = present ic blank blank e1 in
    let fill : Option InputContext → Parts = λ o. record (parts e) {
      session = none;
      status_ic = o;
      gate = PollGate.invalidate e.status_poll_gate;
    } in
    let left =
      left_ic-none e.session e.status_ic fallback e.status_sync_armed e.pending_status_call
        e.status_poll_gate h.0 in
    stop_status_sync-parts d ∙ ap stopped (present-parts ic blank blank e1 ∙ ap fill left)

pub finish-IsConsistent :
    (fallback : Option InputContext) (e : Engine)
    → IsConsistent e
    → IsConsistent (finish_frontend_session fallback e)
finish-IsConsistent fallback e h =
    emptied-IsConsistent (PollGate.invalidate e.status_poll_gate)
      (finish_frontend_session fallback e) e (finish-parts fallback e h) h
