-- ===== src/Asr/AsyncSession/Delivery.antt =====
-- AsyncRecognitionSession: what the answer of Finish says of the audio.
use fcitx5_vinput.Base.{ℕ, String, ◌≡◌, sym, ◌⊎◌, true, false, List, some, arith, inl, inr}
use fcitx5_vinput.Asr.AsyncSession.{
  Backend, Worker, waiting, finishing, cancelling, reading, stopped, pushing, appending, publishing,
  rejected, completing, AsyncSession, Session, new_session, finish_answer, Step, run,
}
use fcitx5_vinput.Asr.AsyncSession.Invariant.{Fits, IsEnded, IsSound}
use fcitx5_vinput.Asr.AsyncSession.Progress.{run_new-IsSound}

-- Only a worker that has stopped leaves a complete session.
complete_Fits :
    {World : Type 0} (w : Worker) (s : AsyncSession World)
    → s.complete ≡ true
    → Fits w s
    → (s.success ≡ false) ⊎ IsEnded s
unfolding Fits
complete_Fits waiting s c f = ground arith
complete_Fits finishing s c (d, f) = ground arith
complete_Fits cancelling s c f = ground arith
complete_Fits reading s c f = ground arith
complete_Fits stopped s c (d, f) = f
complete_Fits (pushing x) s c f = ground arith
complete_Fits (appending es) s c f = ground arith
complete_Fits (publishing es) s c f = ground arith
complete_Fits (rejected e es) s c f = ground arith
complete_Fits (completing true e) s c (d, f) = ground arith
complete_Fits (completing false e) s c f = ground arith

module _ (B : Backend) where
  answer_lem :
      (s : Session B) (e : String)
      → IsSound s
      → finish_answer B s ≡ some (record { ok = true; error = e })
      → (s.delivered ≡ s.accepted) × (s.dropped_chunks ≡ 0)
  unfolding finish_answer
  answer_lem s e i h = elim (complete_Fits s.worker s (ground arith) i.fits) [
    | inl f ↦ ground (arith, h)
    | inr d ↦ (sym d.handed_over, d.kept)
  ]

  -- Under every schedule, when Finish returns success the backend was given exactly the chunks that
  -- PushAudio accepted, each once and in order, and no chunk was dropped.
  pub finish_answer-delivered :
      (w : B.World) (limit : ℕ) (xs : List Step) (e : String)
      → finish_answer B (run B (new_session B w limit) xs) ≡ some (record { ok = true; error = e })
      → let s = run B (new_session B w limit) xs in
        (s.delivered ≡ s.accepted) × (s.dropped_chunks ≡ 0)
  finish_answer-delivered w limit xs e h =
      answer_lem (run B (new_session B w limit) xs) e (run_new-IsSound B w limit xs) h
