-- ===== src/Asr/AsyncSession/Termination.antt =====
-- AsyncRecognitionSession: after a request to finish or to cancel the worker completes the session.
use Prim.Native.Nat.{suc, ◌-◌, ◌*◌}
use fcitx5_vinput.Base.{
  ℕ, ◌+◌, ◌≡◌, refl, ◌∙◌, Bool, true, not, ◌&&◌, ◌||◌, List, [], ◌∷◌, arith, if_both, length, leb,
}
use fcitx5_vinput.Asr.Contract.{RecognitionEvent}
use fcitx5_vinput.Asr.AsyncSession.{
  Chunk, Backend, Worker, waiting, finishing, cancelling, reading, stopped, pushing, appending,
  publishing, rejected, completing, AsyncSession, Session, new_session, push_audio, request_finish,
  cancel, interrupt, poll_events, set_wake_callback, invoke_wake_callback, append_events, take_work,
  hand_over, fail_backend, finish_backend, cancel_backend, complete_session, work, run_worker, Step,
  push, ask_finish, ask_cancel, ask_interrupt, poll, worker_step, set_callback, step, run,
}
use fcitx5_vinput.Asr.AsyncSession.Invariant.{Fits}
use fcitx5_vinput.Asr.AsyncSession.Progress.{run_new-IsSound, run-IsSound}

-- The steps that a worker asked to end has left, at most.
remaining : Worker → List Chunk → ℕ
remaining stopped q = 0
remaining (completing ok e) q = 1
remaining finishing q = 2
remaining reading q = 2
remaining cancelling q = 3
remaining (publishing es) q = 4
remaining (rejected e es) q = 5
remaining waiting q = 4 + 3 * length q
remaining (appending es) q = 5 + 3 * length q
remaining (pushing c) q = 6 + 3 * length q

abbrev left : {World : Type 0} → AsyncSession World → ℕ
left s = remaining s.worker s.queue

remaining_le : (w : Worker) (q : List Chunk) → leb (remaining w q) (6 + 3 * length q) ≡ true
unfolding remaining
remaining_le w q = ground arith

abbrev pub is_asked : {World : Type 0} → AsyncSession World → Bool
is_asked s = s.finish_requested || s.cancel_requested

unfoldable pub worker_steps : List Step → ℕ
worker_steps [] = 0
worker_steps (worker_step ∷ xs) = suc (worker_steps xs)
worker_steps (_ ∷ xs) = worker_steps xs

remaining_cleared : (w : Worker) (q : List Chunk) → leb (remaining w []) (remaining w q) ≡ true
unfolding remaining
remaining_cleared stopped q = refl
remaining_cleared (completing ok e) q = refl
remaining_cleared finishing q = refl
remaining_cleared reading q = refl
remaining_cleared cancelling q = refl
remaining_cleared (publishing es) q = refl
remaining_cleared (rejected e es) q = refl
remaining_cleared waiting q = ground arith
remaining_cleared (appending es) q = ground arith
remaining_cleared (pushing c) q = ground arith

-- A session still asked to end, with at most `n` steps of the worker left.
record IsWithin {World : Type 0} (n : ℕ) (s : AsyncSession World) : Type 0 where
  asked : is_asked s ≡ true
  few : leb (left s) n ≡ true

module _ (B : Backend) where
  push_audio-asked : (pcm : Chunk) (s : Session B) → is_asked s ≡ true → (push_audio B pcm s).0 ≡ s
  unfolding push_audio
  push_audio-asked pcm s a = ground arith

  request_finish-IsWithin : (n : ℕ) (s : Session B) → IsWithin n s → IsWithin n (request_finish B s)
  unfolding request_finish
  request_finish-IsWithin n s i =
      if_both (IsWithin n) (not s.complete && not s.cancel_requested)
        (record s { finish_requested = true }) s (λ t. record { asked = refl; few = i.few })
        (λ t. i)

  cancel-IsWithin : (n : ℕ) (s : Session B) → IsWithin n s → IsWithin n (cancel B s)
  unfolding cancel
  cancel-IsWithin n s i =
      if_both (IsWithin n) (s.complete || s.cancel_requested) s
        (record s {
          cancel_requested = true;
          queue = [];
          queued_samples = 0;
          world = B.interrupt s.world;
        })
        (λ t. i)
        (λ t. record {
          asked = ground arith;
          few = ground (arith, remaining_cleared s.worker s.queue, i.few);
        })

  append_events-asked :
      (es : List RecognitionEvent) (s : Session B) → is_asked (append_events B es s) ≡ is_asked s
  unfolding append_events invoke_wake_callback
  append_events-asked es s = ground arith

  append_events-queue :
      (es : List RecognitionEvent) (s : Session B) → (append_events B es s).queue ≡ s.queue
  unfolding append_events invoke_wake_callback
  append_events-queue es s = ground arith

  wake_callback-asked : (s : Session B) → is_asked (invoke_wake_callback B s) ≡ is_asked s
  unfolding invoke_wake_callback
  wake_callback-asked s = ground arith

  take_work-IsWithin :
      (q : List Chunk) (s : Session B)
      → s.queue ≡ q
      → is_asked s ≡ true
      → IsWithin (3 + 3 * length q) (take_work B q s)
  unfolding take_work remaining
  take_work-IsWithin [] s e a =
      if_both (IsWithin 3) s.cancel_requested _ _ (λ c. record { asked = a; few = refl })
        (λ c.
          if_both (IsWithin 3) s.finish_requested _ s (λ f. record { asked = a; few = refl })
            (λ f. ground arith))
  take_work-IsWithin (chunk ∷ rest) s e a =
      if_both (IsWithin _) s.cancel_requested _ _ (λ c. record { asked = a; few = ground arith })
        (λ c. record { asked = a; few = ground arith })

  hand_over-IsWithin :
      (c : Chunk) (s : Session B)
      → is_asked s ≡ true
      → IsWithin (5 + 3 * length s.queue) (hand_over B c s)
  unfolding hand_over remaining
  hand_over-IsWithin c s a = record { asked = a; few = ground arith }

  -- A step of the worker leaves one step less.
  work-IsWithin :
      (w : Worker) (s : Session B)
      → s.worker ≡ w
      → is_asked s ≡ true
      → IsWithin (remaining w s.queue - 1) (work B w s)
  unfolding work remaining fail_backend finish_backend cancel_backend complete_session
  work-IsWithin stopped s e a = record { asked = a; few = ground arith }
  work-IsWithin (completing ok x) s e a = record { asked = a; few = refl }
  work-IsWithin finishing s e a = record { asked = append_events-asked _ _ ∙ a; few = refl }
  work-IsWithin reading s e a = record { asked = a; few = refl }
  work-IsWithin cancelling s e a = record { asked = append_events-asked _ _ ∙ a; few = refl }
  work-IsWithin (publishing es) s e a = record {
    asked = wake_callback-asked _ ∙ append_events-asked es s ∙ a;
    few = refl;
  }
  work-IsWithin (rejected x es) s e a = record { asked = ground arith; few = refl }
  work-IsWithin waiting s e a = ground (arith, take_work-IsWithin s.queue s refl a)
  work-IsWithin (appending es) s e a = record {
    asked = append_events-asked es s ∙ a;
    few = ground (arith, append_events-queue es s);
  }
  work-IsWithin (pushing c) s e a = ground (arith, hand_over-IsWithin c s a)

  -- The steps left go down by one with each step of the worker.
  step-IsWithin :
      (x : Step) (xs : List Step) (s : Session B)
      → IsWithin (worker_steps (x ∷ xs)) s
      → IsWithin (worker_steps xs) (step B x s)
  unfolding step worker_steps interrupt poll_events set_wake_callback run_worker
  step-IsWithin (push pcm) xs s i = rw (push_audio-asked pcm s i.asked) i
  step-IsWithin ask_finish xs s i = request_finish-IsWithin _ s i
  step-IsWithin ask_cancel xs s i = cancel-IsWithin _ s i
  step-IsWithin ask_interrupt xs s i = record { asked = i.asked; few = i.few }
  step-IsWithin poll xs s i = record { asked = i.asked; few = i.few }
  step-IsWithin (set_callback callback) xs s i = record { asked = i.asked; few = i.few }
  step-IsWithin worker_step xs s i =
      ground (arith, i.few, i.asked, work-IsWithin s.worker s refl i.asked)

  run-IsWithin :
      (xs : List Step) (s : Session B) → IsWithin (worker_steps xs) s → IsWithin 0 (run B s xs)
  unfolding run worker_steps
  run-IsWithin [] s i = i
  run-IsWithin (x ∷ xs) s i = run-IsWithin xs (step B x s) (step-IsWithin x xs s i)

  none_left-complete :
      (w : Worker) (s : Session B)
      → leb (remaining w s.queue) 0 ≡ true
      → Fits w s
      → s.complete ≡ true
  unfolding remaining Fits
  none_left-complete stopped s e (c, f) = c
  none_left-complete (completing ok x) s e f = ground arith
  none_left-complete finishing s e f = ground arith
  none_left-complete reading s e f = ground arith
  none_left-complete cancelling s e f = ground arith
  none_left-complete (publishing es) s e f = ground arith
  none_left-complete (rejected x es) s e f = ground arith
  none_left-complete waiting s e f = ground arith
  none_left-complete (appending es) s e f = ground arith
  none_left-complete (pushing c) s e f = ground arith

  abbrev pub reached : B.World → ℕ → List Step → Session B
  reached w limit xs = run B (new_session B w limit) xs

  -- After any schedule in which Finish or Cancel has asked a session to end, every continuation with
  -- at least `6 + 3 * n` steps of the worker, for the `n` chunks still queued, leaves the session
  -- complete, so that Finish returns and the destructor's join ends.
  pub run-complete :
      (w : B.World) (limit : ℕ) (xs ys : List Step)
      → is_asked (reached w limit xs) ≡ true
      → leb (6 + 3 * length (reached w limit xs).queue) (worker_steps ys) ≡ true
      → (run B (reached w limit xs) ys).complete ≡ true
  run-complete w limit xs ys a e =
      let s = reached w limit xs in
      let i = run-IsSound B s ys (run_new-IsSound B w limit xs) in
      let r =
        run-IsWithin ys s
          (record { asked = a; few = ground (arith, remaining_le s.worker s.queue, e) }) in
      none_left-complete (run B s ys).worker (run B s ys) r.few i.fits
