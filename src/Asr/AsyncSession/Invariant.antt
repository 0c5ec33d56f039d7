-- ===== src/Asr/AsyncSession/Invariant.antt =====
-- AsyncRecognitionSession: what every schedule of callers and worker keeps.
use mathlib.Core.List.{append_assoc}
use fcitx5_vinput.Base.{
  ℕ, ◌+◌, ◌≡◌, refl, sym, ap, ◌∙◌, ◌⊎◌, ◌++◌, true, false, ◌||◌, List, [], ◌∷◌, arith, inl, inr,
  length, leb, Bool-cases,
}
use fcitx5_vinput.Asr.Contract.{RecognitionEvent}
use fcitx5_vinput.Asr.AsyncSession.{
  Chunk, Backend, Worker, waiting, finishing, cancelling, reading, stopped, pushing, appending,
  publishing, rejected, completing, AsyncSession, Session, overflow, enqueue, push_audio,
  request_finish, cancel, invoke_wake_callback, append_events,
}

unfoldable pub total : List Chunk → ℕ
total [] = 0
total (c ∷ cs) = length c + total cs

total-append : (cs : List Chunk) (c : Chunk) → total (cs ++ c ∷ []) ≡ total cs + length c
unfolding total
total-append [] c = omega arith
total-append (d ∷ cs) c = ground (arith, total-append cs c)

unfoldable pub in_flight : Worker → List Chunk
in_flight (pushing c) = c ∷ []
in_flight _ = []

-- Where the recording has ended without loss.
pub record IsEnded {World : Type 0} (s : AsyncSession World) : Type 0 where
  pub asked : s.finish_requested ≡ true
  pub handed_over : s.accepted ≡ s.delivered
  pub kept : s.dropped_chunks ≡ 0

-- What the position of the worker says of the session.
unfoldable pub Fits : {World : Type 0} → Worker → AsyncSession World → Type 0
Fits finishing s = IsEnded s × (s.complete ≡ false)
Fits (completing true e) s = IsEnded s × (s.complete ≡ false)
Fits (completing false e) s = s.complete ≡ false
Fits stopped s = (s.complete ≡ true) × ((s.success ≡ false) ⊎ IsEnded s)
Fits cancelling s = (s.cancel_requested ≡ true) × (s.complete ≡ false)
Fits reading s = (s.cancel_requested ≡ true) × (s.complete ≡ false)
Fits (publishing es) s = (s.cancel_requested ≡ true) × (s.complete ≡ false)
Fits (rejected e es) s = s.complete ≡ false
Fits waiting s = s.complete ≡ false
Fits (pushing c) s = s.complete ≡ false
Fits (appending es) s = s.complete ≡ false

-- The invariant of a session whose worker stands at `w`.
pub record IsSoundAt {World : Type 0} (w : Worker) (s : AsyncSession World) : Type 0 where
  pub counted : s.queued_samples ≡ total s.queue
  pub bounded : leb s.queued_samples s.max_queued_samples ≡ true
  pub cleared : (s.cancel_requested ≡ false) ⊎ (s.queue ≡ [])
  pub explicit : (s.dropped_chunks ≡ 0) ⊎ (s.cancel_requested ≡ true)
  pub conserved : (s.cancel_requested ≡ true) ⊎ (s.accepted ≡ s.delivered ++ in_flight w ++ s.queue)
  pub fits : Fits w s

abbrev pub IsSound : {World : Type 0} → AsyncSession World → Type 0
IsSound s = IsSoundAt s.worker s

-- A session that still takes audio has not reached the positions after the end.
open_Fits :
    {World : Type 0} (w : Worker) (s t : AsyncSession World)
    → (s.cancel_requested || s.finish_requested || s.complete) ≡ false
    → Fits w s
    → t.complete ≡ false
    → Fits w t
unfolding Fits
open_Fits waiting s t o f c = c
open_Fits finishing s t o (f, g) c = ground (arith, f.asked)
open_Fits cancelling s t o f c = ground arith
open_Fits reading s t o f c = ground arith
open_Fits stopped s t o f c = ground arith
open_Fits (pushing d) s t o f c = c
open_Fits (appending es) s t o f c = c
open_Fits (publishing es) s t o f c = ground arith
open_Fits (rejected e es) s t o f c = c
open_Fits (completing true e) s t o (f, g) c = ground (arith, f.asked)
open_Fits (completing false e) s t o f c = c

-- What one session keeps of another.
pub record Keeps {World : Type 0} (s t : AsyncSession World) : Type 0 where
  pub asked : (s.finish_requested ≡ false) ⊎ (t.finish_requested ≡ true)
  pub cancelled : (s.cancel_requested ≡ false) ⊎ (t.cancel_requested ≡ true)
  pub complete : t.complete ≡ s.complete
  pub success : t.success ≡ s.success
  pub accepted : t.accepted ≡ s.accepted
  pub delivered : t.delivered ≡ s.delivered
  pub dropped : t.dropped_chunks ≡ s.dropped_chunks

pub keep_IsEnded : {World : Type 0} (s t : AsyncSession World) → Keeps s t → IsEnded s → IsEnded t
keep_IsEnded s t k e = record {
  asked = ground (arith, k.asked, e.asked);
  handed_over = k.accepted ∙ e.handed_over ∙ sym k.delivered;
  kept = k.dropped ∙ e.kept;
}

pub keep_Fits :
    {World : Type 0} (w : Worker) (s t : AsyncSession World) → Keeps s t → Fits w s → Fits w t
unfolding Fits
keep_Fits waiting s t k f = k.complete ∙ f
keep_Fits finishing s t k (f, c) = (keep_IsEnded s t k f, k.complete ∙ c)
keep_Fits cancelling s t k (f, c) = (ground (arith, k.cancelled), k.complete ∙ c)
keep_Fits reading s t k (f, c) = (ground (arith, k.cancelled), k.complete ∙ c)
keep_Fits stopped s t k (c, inl f) = (k.complete ∙ c, inl (k.success ∙ f))
keep_Fits stopped s t k (c, inr f) = (k.complete ∙ c, inr (keep_IsEnded s t k f))
keep_Fits (pushing d) s t k f = k.complete ∙ f
keep_Fits (appending es) s t k f = k.complete ∙ f
keep_Fits (publishing es) s t k (f, c) = (ground (arith, k.cancelled), k.complete ∙ c)
keep_Fits (rejected e es) s t k f = k.complete ∙ f
keep_Fits (completing true e) s t k (f, c) = (keep_IsEnded s t k f, k.complete ∙ c)
keep_Fits (completing false e) s t k f = k.complete ∙ f

-- One session is another but for its events, wake-ups, backend and request to finish.
pub record IsLike {World : Type 0} (s t : AsyncSession World) : Type 0 where
  pub keeps : Keeps s t
  pub cancelled : t.cancel_requested ≡ s.cancel_requested
  pub queue : t.queue ≡ s.queue
  pub queued : t.queued_samples ≡ s.queued_samples
  pub limit : t.max_queued_samples ≡ s.max_queued_samples

pub like_IsSound :
    {World : Type 0} (w : Worker) (s t : AsyncSession World)
    → IsLike s t
    → IsSoundAt w s
    → IsSoundAt w t
like_IsSound w s t l i = record {
  counted = rw (l.queued, l.queue) i.counted;
  bounded = rw (l.queued, l.limit) i.bounded;
  cleared = rw (l.cancelled, l.queue) i.cleared;
  explicit = rw (l.cancelled, l.keeps.dropped) i.explicit;
  conserved = rw (l.cancelled, l.keeps.accepted, l.keeps.delivered, l.queue) i.conserved;
  fits = keep_Fits w s t l.keeps i.fits;
}

module _ (B : Backend) where
  overflow-IsSound :
      (pcm : Chunk) (s : Session B)
      → (s.cancel_requested || s.finish_requested || s.complete) ≡ false
      → IsSound s
      → IsSound (overflow B pcm s)
  unfolding overflow total
  overflow-IsSound pcm s o i = record {
    counted = refl;
    bounded = ground arith;
    cleared = inr refl;
    explicit = inr refl;
    conserved = inl refl;
    fits = open_Fits s.worker s _ o i.fits (ground arith);
  }

  enqueue-conserved :
      (pcm : Chunk) (s : Session B)
      → (s.cancel_requested ≡ true) ⊎ (s.accepted ≡ s.delivered ++ in_flight s.worker ++ s.queue)
      → (s.cancel_requested ≡ true)
        ⊎ (s.accepted ++ pcm ∷ [] ≡ s.delivered ++ in_flight s.worker ++ (s.queue ++ pcm ∷ []))
  enqueue-conserved pcm s (inl c) = inl c
  enqueue-conserved pcm s (inr e) = inr (
      ap (λ l. l ++ pcm ∷ []) e
      ∙ append_assoc (s.delivered ++ in_flight s.worker) s.queue (pcm ∷ []))

  enqueue-IsSound :
      (pcm : Chunk) (s : Session B)
      → (s.cancel_requested || s.finish_requested || s.complete) ≡ false
      → leb (s.queued_samples + length pcm) s.max_queued_samples ≡ true
      → IsSound s
      → IsSound (enqueue B pcm s)
  unfolding enqueue
  enqueue-IsSound pcm s o fit i = record {
    counted = ground (arith, total-append s.queue pcm, i.counted);
    bounded = fit;
    cleared = inl (ground arith);
    explicit = i.explicit;
    conserved = enqueue-conserved pcm s i.conserved;
    fits = open_Fits s.worker s _ o i.fits (ground arith);
  }

  pub push_audio-IsSound :
      (pcm : Chunk) (s : Session B) → IsSound s → IsSound (push_audio B pcm s).0
  unfolding push_audio
  push_audio-IsSound pcm s i = ground (arith, overflow-IsSound pcm s, enqueue-IsSound pcm s)

  pub request_finish-IsLike : (s : Session B) → IsLike s (request_finish B s)
  unfolding request_finish
  request_finish-IsLike s = ground arith

  pub request_finish-worker : (s : Session B) → (request_finish B s).worker ≡ s.worker
  unfolding request_finish
  request_finish-worker s = ground arith

  pub cancel-IsSound : (w : Worker) (s : Session B) → IsSoundAt w s → IsSoundAt w (cancel B s)
  unfolding cancel total
  cancel-IsSound w s i = elim (Bool-cases (s.complete || s.cancel_requested)) [
    | inl done ↦ rw (done, cancel) i
    | inr going ↦
        rw (going, cancel)
          (record {
            counted = refl;
            bounded = ground arith;
            cleared = inr refl;
            explicit = inr refl;
            conserved = inl refl;
            fits = keep_Fits w s _ (ground arith) i.fits;
          })
  ]

  pub cancel-worker : (s : Session B) → (cancel B s).worker ≡ s.worker
  unfolding cancel
  cancel-worker s = ground arith

  pub append_events-IsLike :
      (es : List RecognitionEvent) (s : Session B) → IsLike s (append_events B es s)
  unfolding append_events invoke_wake_callback
  append_events-IsLike es s = ground arith

  pub wake_callback-IsLike : (s : Session B) → IsLike s (invoke_wake_callback B s)
  unfolding invoke_wake_callback
  wake_callback-IsLike s = ground arith
