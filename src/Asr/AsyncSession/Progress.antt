-- ===== src/Asr/AsyncSession/Progress.antt =====
-- AsyncRecognitionSession: the worker keeps the invariant, so every schedule does.
use Prim.Native.Nat.{◌-◌}
use mathlib.Core.List.{append_assoc, append-nil}
use fcitx5_vinput.Base.{
  ℕ, ◌+◌, String, ◌≡◌, refl, sym, ap, ◌∙◌, ◌++◌, Bool, true, false, List, [], ◌∷◌, arith, inl, inr,
  if_both, subst, length, Bool-cases,
}
use fcitx5_vinput.Asr.Contract.{RecognitionEvent}
use fcitx5_vinput.Asr.AsyncSession.{
  Chunk, Backend, Worker, waiting, finishing, cancelling, reading, stopped, pushing, appending,
  publishing, rejected, completing, AsyncSession, Session, new_session, interrupt, poll_events,
  set_wake_callback, append_events, take_work, hand_over, fail_backend, finish_backend,
  cancel_backend, complete_session, work, run_worker, Step, push, ask_finish, ask_cancel,
  ask_interrupt, poll, worker_step, set_callback, step, run,
}
use fcitx5_vinput.Asr.AsyncSession.Invariant.{
  total, in_flight, IsEnded, Fits, IsSoundAt, IsSound, like_IsSound, request_finish-IsLike,
  request_finish-worker, cancel-IsSound, cancel-worker, append_events-IsLike, wake_callback-IsLike,
  push_audio-IsSound, keep_IsEnded,
}

at_IsSound :
    {World : Type 0} (w : Worker) (s : AsyncSession World)
    → s.worker ≡ w
    → IsSoundAt w s
    → IsSound s
at_IsSound w s e i = subst (λ v. IsSoundAt v s) (sym e) i

-- The worker moves on and changes nothing else.
move-IsSound :
    {World : Type 0} (w w' : Worker) (s : AsyncSession World)
    → in_flight w' ≡ in_flight w
    → Fits w' (record s { worker = w' })
    → IsSoundAt w s
    → IsSound (record s { worker = w' })
move-IsSound w w' s e f i = record {
  counted = i.counted;
  bounded = i.bounded;
  cleared = i.cleared;
  explicit = i.explicit;
  conserved = rw e i.conserved;
  fits = f;
}

-- An empty queue that may end the recording.
waiting-IsEnded :
    {World : Type 0} (s : AsyncSession World)
    → s.queue ≡ []
    → s.cancel_requested ≡ false
    → s.finish_requested ≡ true
    → IsSoundAt waiting s
    → IsEnded s
unfolding in_flight
waiting-IsEnded s q c f i = record {
  asked = f;
  handed_over = ground (arith, i.conserved, append-nil s.delivered);
  kept = ground (arith, i.explicit);
}

completing-Fits :
    {World : Type 0} (ok : Bool) (e : String) (s : AsyncSession World)
    → IsEnded s
    → s.complete ≡ false
    → Fits (completing ok e) s
unfolding Fits
completing-Fits true e s d c = (d, c)
completing-Fits false e s d c = c

module _ (B : Backend) where
  take_chunk-IsSound :
      (c : Chunk) (rest : List Chunk) (s : Session B)
      → s.queue ≡ c ∷ rest
      → s.cancel_requested ≡ false
      → IsSoundAt waiting s
      → IsSound (record s {
        queue = rest;
        queued_samples = s.queued_samples - length c;
        worker = pushing c;
      })
  unfolding total in_flight Fits
  take_chunk-IsSound c rest s e g i =
      let counted : s.queued_samples ≡ length c + total rest = i.counted ∙ ap total e in
      record {
        counted = ground (arith, counted);
        bounded = ground (arith, i.bounded);
        cleared = inl g;
        explicit = i.explicit;
        conserved =
            ground (
              arith,
              i.conserved,
              e,
              append-nil s.delivered,
              append_assoc s.delivered (c ∷ []) rest,
            );
        fits = i.fits;
      }

  take_work-IsSound :
      (q : List Chunk) (s : Session B)
      → s.worker ≡ waiting
      → s.queue ≡ q
      → IsSoundAt waiting s
      → IsSound (take_work B q s)
  unfolding take_work in_flight Fits
  take_work-IsSound [] s w e i =
      if_both IsSound s.cancel_requested _ _
        (λ c. move-IsSound waiting cancelling s refl (c, i.fits) i)
        (λ c.
          if_both IsSound s.finish_requested _ _
            (λ f.
              move-IsSound waiting finishing s refl
                (keep_IsEnded s _ (ground arith) (waiting-IsEnded s e c f i), i.fits) i)
            (λ f. at_IsSound waiting s w i))
  take_work-IsSound (chunk ∷ rest) s w e i =
      if_both IsSound s.cancel_requested _ _
        (λ c. move-IsSound waiting cancelling s refl (c, i.fits) i)
        (λ c. take_chunk-IsSound chunk rest s e c i)

  handed-IsSound :
      (c : Chunk) (s : Session B) (world : B.World) (w : Worker)
      → in_flight w ≡ []
      → ((t : Session B) → t.complete ≡ false → Fits w t)
      → IsSoundAt (pushing c) s
      → IsSound (record s { world = world; delivered = s.delivered ++ c ∷ []; worker = w })
  unfolding in_flight Fits
  handed-IsSound c s world w e h i = record {
    counted = i.counted;
    bounded = i.bounded;
    cleared = i.cleared;
    explicit = i.explicit;
    conserved = rw (e, append-nil (s.delivered ++ c ∷ [])) i.conserved;
    fits = h _ i.fits;
  }

  hand_over-IsSound :
      (c : Chunk) (s : Session B) → IsSoundAt (pushing c) s → IsSound (hand_over B c s)
  unfolding hand_over in_flight Fits
  hand_over-IsSound c s i = elim (Bool-cases (B.push_audio s.world c).1.ok) [
    | inl ok ↦ rw (ok, hand_over) (handed-IsSound c s _ (appending _) refl (λ t f. f) i)
    | inr ok ↦ rw (ok, hand_over) (handed-IsSound c s _ (rejected _ _) refl (λ t f. f) i)
  ]

  polled-IsSound :
      (w : Worker) (world : B.World) (es : List RecognitionEvent) (s : Session B)
      → IsSoundAt w s
      → IsSoundAt w (append_events B es (record s { world = world }))
  polled-IsSound w world es s i =
      like_IsSound w _ _ (append_events-IsLike B es (record s { world = world }))
        (like_IsSound w s (record s { world = world }) (ground arith) i)

  finish_backend-IsSound : (s : Session B) → IsSoundAt finishing s → IsSound (finish_backend B s)
  unfolding finish_backend in_flight Fits
  finish_backend-IsSound s i =
      let (w, o) = B.finish s.world in
      let (w', es) = B.poll_events w in
      let a = polled-IsSound finishing w' es s i in
      move-IsSound finishing (completing o.ok o.error) _ refl
        (completing-Fits o.ok o.error _ (keep_IsEnded _ _ (ground arith) a.fits.0) a.fits.1) a

  cancel_backend-IsSound : (s : Session B) → IsSoundAt cancelling s → IsSound (cancel_backend B s)
  unfolding cancel_backend in_flight Fits
  cancel_backend-IsSound s i =
      let (w, es) = B.poll_events (B.cancel s.world) in
      let a = polled-IsSound cancelling w es s i in move-IsSound cancelling reading _ refl a.fits a

  complete_session-IsSound :
      (ok : Bool) (e : String) (s : Session B)
      → IsSoundAt (completing ok e) s
      → IsSound (complete_session B ok e s)
  unfolding complete_session in_flight Fits
  complete_session-IsSound true e s i = record {
    counted = i.counted;
    bounded = i.bounded;
    cleared = i.cleared;
    explicit = i.explicit;
    conserved = i.conserved;
    fits = (
      refl,
      inr (record {
        asked = i.fits.0.asked;
        handed_over = i.fits.0.handed_over;
        kept = i.fits.0.kept;
      }),
    );
  }
  complete_session-IsSound false e s i = record {
    counted = i.counted;
    bounded = i.bounded;
    cleared = i.cleared;
    explicit = i.explicit;
    conserved = i.conserved;
    fits = (refl, inl refl);
  }

  work-IsSound : (w : Worker) (s : Session B) → s.worker ≡ w → IsSoundAt w s → IsSound (work B w s)
  unfolding work Fits fail_backend total in_flight
  work-IsSound waiting s e i = take_work-IsSound s.queue s e refl i
  work-IsSound (pushing c) s e i = hand_over-IsSound c s i
  work-IsSound (appending es) s e i =
      move-IsSound (appending es) waiting _ refl
        (like_IsSound _ s _ (append_events-IsLike B es s) i).fits
        (like_IsSound (appending es) s _ (append_events-IsLike B es s) i)
  work-IsSound (rejected x es) s e i = record {
    counted = refl;
    bounded = ground arith;
    cleared = inr refl;
    explicit = inr refl;
    conserved = inl refl;
    fits = (refl, i.fits);
  }
  work-IsSound (publishing es) s e i =
      let a = like_IsSound _ s _ (append_events-IsLike B es s) i in
      let b = like_IsSound (publishing es) _ _ (wake_callback-IsLike B (append_events B es s)) a in
      move-IsSound (publishing es) cancelling _ refl b.fits b
  work-IsSound finishing s e i = finish_backend-IsSound s i
  work-IsSound cancelling s e i = cancel_backend-IsSound s i
  work-IsSound reading s e i =
      move-IsSound reading (completing false s.error_text) s refl i.fits.1 i
  work-IsSound (completing ok x) s e i = complete_session-IsSound ok x s i
  work-IsSound stopped s e i = at_IsSound stopped s e i

  step-IsSound : (x : Step) (s : Session B) → IsSound s → IsSound (step B x s)
  unfolding step interrupt poll_events set_wake_callback run_worker
  step-IsSound (push pcm) s i = push_audio-IsSound B pcm s i
  step-IsSound ask_finish s i =
      at_IsSound s.worker _ (request_finish-worker B s)
        (like_IsSound s.worker s _ (request_finish-IsLike B s) i)
  step-IsSound ask_cancel s i =
      at_IsSound s.worker _ (cancel-worker B s) (cancel-IsSound B s.worker s i)
  step-IsSound ask_interrupt s i = like_IsSound s.worker s _ (ground arith) i
  step-IsSound poll s i = like_IsSound s.worker s _ (ground arith) i
  step-IsSound worker_step s i = work-IsSound s.worker s refl i
  step-IsSound (set_callback callback) s i = like_IsSound s.worker s _ (ground arith) i

  pub run-IsSound : (s : Session B) (xs : List Step) → IsSound s → IsSound (run B s xs)
  unfolding run
  run-IsSound s [] i = i
  run-IsSound s (x ∷ xs) i = run-IsSound (step B x s) xs (step-IsSound x s i)

  -- Under every schedule of callers and worker: the sample count is that of the queue and within the
  -- bound, a cancelled session has an empty queue, and a chunk is dropped only with a cancellation.
  -- Without one, the chunks accepted are those given to the backend, the one in flight and those
  -- queued, in this order.
  pub run_new-IsSound :
      (w : B.World) (limit : ℕ) (xs : List Step) → IsSound (run B (new_session B w limit) xs)
  unfolding total in_flight Fits
  run_new-IsSound w limit xs = run-IsSound _ xs (record {
    counted = refl;
    bounded = ground arith;
    cleared = inl refl;
    explicit = inl refl;
    conserved = inr refl;
    fits = refl;
  })
