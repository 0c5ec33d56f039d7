-- ===== src/Runtime/Lifecycle/Ownership.antt =====
-- Which references to sessions SessionLifecycleManager holds, over any history of calls.
use fcitx5_vinput.Base.{
  ℕ, ◌+◌, ◌≡◌, refl, true, false, List, [], ◌∷◌, ◌++◌, append-nil, map, Option, none, some, arith,
  if◌then◌else◌, ◌==◌,
}
use fcitx5_vinput.Asr.Contract.{SessionApi}
use fcitx5_vinput.Runtime.Lifecycle.{
  Action, cancelled, woken, dropped, Manager, new_manager, retire_session,
  cancel_and_retire_session, install_active_session, detach_active, cancel_and_retire_active,
  cancel_and_retire_active_if_matches, flush_reaped_sessions, clear,
}

-- How often a session stands behind a pointer, in the deferred sessions, among the drops of the log.
abbrev pub references : ℕ → Option ℕ → ℕ
references t none = 0
references t (some s) = if s == t then 1 else 0

pub deferrals : ℕ → List ℕ → ℕ
deferrals t [] = 0
deferrals t (s ∷ ss) = (if s == t then 1 else 0) + deferrals t ss

pub drops : ℕ → List Action → ℕ
drops t [] = 0
drops t (cancelled s ∷ log) = drops t log
drops t (woken ∷ log) = drops t log
drops t (dropped s ∷ log) = (if s == t then 1 else 0) + drops t log

deferrals-append :
    (t : ℕ) (xs ys : List ℕ) → deferrals t (xs ++ ys) ≡ deferrals t xs + deferrals t ys
unfolding deferrals
deferrals-append t [] ys = omega arith
deferrals-append t (x ∷ xs) ys = omega (arith, deferrals-append t xs ys)

drops-append : (t : ℕ) (xs ys : List Action) → drops t (xs ++ ys) ≡ drops t xs + drops t ys
unfolding drops
drops-append t [] ys = omega arith
drops-append t (cancelled s ∷ xs) ys = drops-append t xs ys
drops-append t (woken ∷ xs) ys = drops-append t xs ys
drops-append t (dropped s ∷ xs) ys = omega (arith, drops-append t xs ys)

drops-map : (t : ℕ) (ss : List ℕ) → drops t (map dropped ss) ≡ deferrals t ss
unfolding drops deferrals
drops-map t [] = refl
drops-map t (s ∷ ss) = omega (arith, drops-map t ss)

ruleset counting = (arith, deferrals-append, drops-append, drops-map)

-- The calls that move references.
pub data Call : Type 0 where
  install : Option ℕ → Call
  detach : Call
  retire : Option ℕ → Call
  cancel_and_retire : Option ℕ → Call
  cancel_active : Call
  cancel_if_matches : Option ℕ → Call
  flush : Call
  clear_all : Call

-- The references that a call hands in.
abbrev given : ℕ → Call → ℕ
given t (install s) = references t s
given t (retire s) = references t s
given t (cancel_and_retire s) = references t s
given t _ = 0

-- The references to `t` that a history of calls hands in, and below those that it hands out.
pub given_all : ℕ → List Call → ℕ
given_all t [] = 0
given_all t (c ∷ cs) = given t c + given_all t cs

module _ (api : SessionApi) where
  unfoldable pub perform : Manager api → Call → Manager api
  perform m (install s) = install_active_session api s m
  perform m detach = (detach_active api m).0
  perform m (retire s) = retire_session api s m
  perform m (cancel_and_retire s) = cancel_and_retire_session api s m
  perform m cancel_active = cancel_and_retire_active api m
  perform m (cancel_if_matches s) = (cancel_and_retire_active_if_matches api s m).0
  perform m flush = (flush_reaped_sessions api m).0
  perform m clear_all = clear api m

  -- The references that a call hands out.
  abbrev taken : ℕ → Manager api → Call → ℕ
  taken t m detach = references t (detach_active api m).1
  taken t m _ = 0

  -- Every reference that the manager has, or had and let go.
  pub held : ℕ → Manager api → ℕ
  held t m =
      references t m.active_session + deferrals t m.deferred_cancelled_sessions + drops t m.log

  held-retire :
      (t : ℕ) (s : Option ℕ) (m : Manager api)
      → held t (retire_session api s m) ≡ held t m + references t s
  unfolding held retire_session deferrals drops
  held-retire t none m = omega arith
  held-retire t (some s) m = grind counting

  held-cancel_and_retire :
      (t : ℕ) (s : Option ℕ) (m : Manager api)
      → held t (cancel_and_retire_session api s m) ≡ held t m + references t s
  unfolding held cancel_and_retire_session deferrals drops
  held-cancel_and_retire t none m = omega arith
  held-cancel_and_retire t (some s) m = grind counting

  -- A manager whose active reference was moved to a call of CancelAndRetireSession.
  held-replace :
      (t : ℕ) (s a : Option ℕ) (m : Manager api)
      → m.active_session ≡ a
      → held t (cancel_and_retire_session api a (record m { active_session = s }))
        ≡ held t m + references t s
  unfolding held
  held-replace t s a m e =
      rw (held-cancel_and_retire t a (record m { active_session = s })) (ground arith)

  held-flush : (t : ℕ) (m : Manager api) → held t (flush_reaped_sessions api m).0 ≡ held t m
  unfolding held flush_reaped_sessions deferrals
  held-flush t m = grind counting

  held-clear :
      (t : ℕ) (a : Option ℕ) (m : Manager api)
      → m.active_session ≡ a
      → held t (clear api m) ≡ held t m
  unfolding held clear deferrals drops
  held-clear t none m e = rw (e, clear) (grind counting)
  held-clear t (some s) m e = rw (e, clear) (grind counting)

  balance :
      (t : ℕ) (m : Manager api) (c : Call)
      → held t m + given t c ≡ held t (perform m c) + taken t m c
  unfolding perform
  balance t m (install s) =
      unfold install_active_session in omega (arith, held-replace t s m.active_session m refl)
  balance t m detach = unfold held detach_active in omega arith
  balance t m (retire s) = omega (arith, held-retire t s m)
  balance t m (cancel_and_retire s) = omega (arith, held-cancel_and_retire t s m)
  balance t m cancel_active =
      unfold cancel_and_retire_active in omega (arith, held-replace t none m.active_session m refl)
  balance t m (cancel_if_matches none) = unfold cancel_and_retire_active_if_matches in omega arith
  balance t m (cancel_if_matches (some s)) =
      unfold cancel_and_retire_active_if_matches in
      ground (arith, held-replace t none m.active_session m refl)
  balance t m flush = omega (arith, held-flush t m)
  balance t m clear_all = omega (arith, held-clear t m.active_session m refl)

  unfoldable pub perform_all : Manager api → List Call → Manager api
  perform_all m [] = m
  perform_all m (c ∷ cs) = perform_all (perform m c) cs

  pub taken_all : ℕ → Manager api → List Call → ℕ
  taken_all t m [] = 0
  taken_all t m (c ∷ cs) = taken t m c + taken_all t (perform m c) cs

  balance_all :
      (t : ℕ) (m : Manager api) (cs : List Call)
      → held t m + given_all t cs ≡ held t (perform_all m cs) + taken_all t m cs
  unfolding perform_all given_all taken_all
  balance_all t m [] = omega arith
  balance_all t m (c ∷ cs) = omega (arith, balance t m c, balance_all t (perform m c) cs)

  -- No history of calls loses a session or makes one up: on a new manager, the references handed in
  -- are those that are active or deferred, those dropped by a flush or a clear, and those handed out.
  pub references_kept :
      (t : ℕ) (w : api.World) (cs : List Call)
      → let m = perform_all (new_manager api w) cs in
        given_all t cs
        ≡ references t m.active_session
          + deferrals t m.deferred_cancelled_sessions
          + drops t m.log
          + taken_all t (new_manager api w) cs
  unfolding held deferrals drops
  references_kept t w cs = omega (arith, balance_all t (new_manager api w) cs)

  -- If the session that CancelAndRetireActiveIfMatches is given is the active one, it is cancelled,
  -- deferred as the last one, and the wake callback is called where one is set; the answer is true,
  -- and the same call made again changes nothing and answers false.
  pub cancel_if_matches_once :
      (m : Manager api) (s : ℕ)
      → m.active_session ≡ some s
      → let r = cancel_and_retire_active_if_matches api (some s) m in
        (r.1 ≡ true)
        × (r.0.active_session ≡ none)
        × (r.0.deferred_cancelled_sessions ≡ m.deferred_cancelled_sessions ++ s ∷ [])
        × (r.0.world ≡ api.cancel m.world s)
        × (r.0.log ≡ (m.log ++ cancelled s ∷ []) ++ (if m.wake_callback then woken ∷ [] else []))
        × (cancel_and_retire_active_if_matches api (some s) r.0 ≡ (r.0, false))
  unfolding cancel_and_retire_active_if_matches
  cancel_if_matches_once m s e = ground (arith, append-nil (m.log ++ cancelled s ∷ []))
