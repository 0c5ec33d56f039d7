-- ===== src/Runtime/Controller/Liveness.antt =====
-- DaemonRuntimeController and its thread: the end of a request.
use Prim.Native.Nat.{ℕ, ◌≤◌, ◌+◌}
use fcitx5_vinput.Base.{◌≡◌, refl, ap, true, List, [], ◌∷◌, ◌++◌, arith, inl, inr}
use fcitx5_vinput.Runtime.Controller.Steps.{
  Outside, Position, Settings, System, Step, start, stop, cancel, flush_actions, reload, inject,
  worker_step, are_ordinary, step, run, new_system,
}
use fcitx5_vinput.Runtime.Controller.Invariant.{IsSound, is_working}
use fcitx5_vinput.Runtime.Controller.Schedules.{step-IsSound, run-new_system-IsSound}
use fcitx5_vinput.Runtime.Controller.Progress.{
  is_worker, IsAtRest, step-IsCloser, sections_left, sections_left_bound,
}

module _ (O : Outside) where
  open O use {platform, api, gains}

  abbrev pub worker_steps : List (Step O) → ℕ
  worker_steps [] = 0
  worker_steps (x ∷ xs) = is_worker O x + worker_steps xs

  -- The schedule reaches rest, after at most this many steps of the worker.
  pub record Ends (s : System O) (xs : List (Step O)) (bound : ℕ) : Type 0 where
    pub before : List (Step O)
    pub after : List (Step O)
    pub split : xs ≡ before ++ after
    pub steps : worker_steps before ≤ bound
    pub rest : IsAtRest O (run O s before)

  is_worker_bound :
      (x : Step O) (p : Position (Settings O)) → worker_steps (x ∷ []) ≤ sections_left p
  is_worker_bound (worker_step a) p = omega (arith, (sections_left_bound p).0)
  is_worker_bound (start ime is_command text device a) p = omega arith
  is_worker_bound (stop ime scene_id a) p = omega arith
  is_worker_bound (cancel ime commit a) p = omega arith
  is_worker_bound (flush_actions a) p = omega arith
  is_worker_bound (reload a) p = omega arith
  is_worker_bound (inject ime stage text scene_id) p = omega arith

  earlier :
      (x : Step O) (xs : List (Step O)) (s : System O) (m n : ℕ)
      → Ends (step O x s) xs m
      → is_worker O x + m ≤ n
      → Ends s (x ∷ xs) n
  unfolding run
  earlier x xs s m n e l = record {
    before = x ∷ e.before;
    after = e.after;
    split = ap (λ ys. x ∷ ys) e.split;
    steps = omega (arith, e.steps, l);
    rest = e.rest;
  }

  ends :
      (xs : List (Step O)) (s : System O)
      → are_ordinary O xs ≡ true
      → IsSound s.position s.controller
      → is_working s.controller.machine.phase ≡ true
      → sections_left s.position ≤ worker_steps xs
      → Ends s xs (sections_left s.position)
  unfolding run
  ends [] s o i w l = absurd (omega (arith, l, (sections_left_bound s.position).0))
  ends (x ∷ xs) s o i w l =
      let j = step-IsSound O x s (ground (arith, o)) i in
      elim (step-IsCloser O x s i w j) [
        | inl r ↦ record {
          before = x ∷ [];
          after = xs;
          split = refl;
          steps = is_worker_bound x s.position;
          rest = r;
        }
        | inr k ↦
            earlier x xs s (sections_left (step O x s).position) (sections_left s.position)
              (ends xs (step O x s) (ground (arith, o)) j k.working (omega (arith, k.left, l)))
              k.left
      ]

  -- From the initial state, under every schedule without injections into scenes: where the phase is
  -- inferring or postprocessing, every further such schedule with four steps of the worker has a beginning
  -- with at most four of them behind which the worker waits, the phase is idle and no order is there.
  pub run-Ends :
      (w : api.World) (xs ys : List (Step O))
      → are_ordinary O xs ≡ true
      → are_ordinary O ys ≡ true
      → is_working (run O (new_system O w) xs).controller.machine.phase ≡ true
      → 4 ≤ worker_steps ys
      → Ends (run O (new_system O w) xs) ys 4
  run-Ends w xs ys o q b l =
      let s = run O (new_system O w) xs in
      let e =
        ends ys s q (run-new_system-IsSound O w xs o) b
          (omega (arith, l, (sections_left_bound s.position).1)) in
      record {
        before = e.before;
        after = e.after;
        split = e.split;
        steps = omega (arith, e.steps, (sections_left_bound s.position).1);
        rest = e.rest;
      }
