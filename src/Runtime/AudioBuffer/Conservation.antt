-- ===== src/Runtime/AudioBuffer/Conservation.antt =====
-- AudioRecordingBuffer: no sample is lost, repeated or reordered.
use Prim.Native.Nat.{ℕ, ◌+◌}
use mathlib.Core.List.{append_assoc, append-nil, map-append}
use fcitx5_vinput.Base.{
  ◌≡◌, refl, sym, ◌∙◌, Bool, true, false, not, List, [], ◌∷◌, ◌++◌, map, Option, none, some, arith,
  inl, inr, if◌then◌else◌, ◌⊎◌, if_both, length, length-append, take-append-drop, ℤ,
}
use fcitx5_vinput.Runtime.AudioBuffer.{
  Gains, Buffer, reset, append_activated, append_pending, append_startup, append, activate,
  pop_streaming_chunk, drain_streaming_tail, take_buffered_pcm,
}
use fcitx5_vinput.Runtime.AudioBuffer.Gain.{gained_sample, apply_gain_lem, prepare_gain_lem}

-- What the recorder and the recognizer do between two calls of Reset.
pub data Use : Type 0 where
  feed_startup feed : List ℤ → Use
  start pop_tail take_all : Use
  pop_chunk : ℕ → Use

-- The samples fed, oldest first.
unfoldable pub fed : List Use → List ℤ
fed [] = []
fed (feed_startup pcm ∷ us) = pcm ++ fed us
fed (feed pcm ∷ us) = pcm ++ fed us
fed (_ ∷ us) = fed us

abbrev or_nothing : Option (List ℤ) → List ℤ
or_nothing none = []
or_nothing (some l) = l

module _ (G : Gains) where
  open G use {Float}

  -- What one call does to the buffer, and the samples that it returns.
  unfoldable pub use_once : Bool → Use → Buffer G → Buffer G × List ℤ
  use_once mode (feed_startup pcm) b = (append_startup G pcm b, [])
  use_once mode (feed pcm) b = (append G pcm b, [])
  use_once mode start b = (activate G mode b, [])
  use_once mode pop_tail b = drain_streaming_tail G b
  use_once mode take_all b = take_buffered_pcm G b
  use_once mode (pop_chunk n) b =
      let (b', chunk) = pop_streaming_chunk G n b in (b', or_nothing chunk)

  unfoldable pub use_all : Bool → List Use → Buffer G → Buffer G × List ℤ
  use_all mode [] b = (b, [])
  use_all mode (u ∷ us) b =
      let (b', out) = use_once mode u b in
      let (b'', more) = use_all mode us b' in (b'', out ++ more)

  -- The samples that wait in the buffer, as they will be returned.
  unfoldable pub waiting_samples : Buffer G → List ℤ
  waiting_samples b =
      if b.is_activated
      then (if b.is_buffered then b.buffered_pcm else b.streaming_pcm)
      else map (gained_sample G b.gain) b.startup_pcm

  record IsStarting (b : Buffer G) : Type 0 where
    waits : b.is_activated ≡ false
    no_buffered : b.buffered_pcm ≡ []
    no_streaming : b.streaming_pcm ≡ []

  record IsStarted (mode : Bool) (b : Buffer G) : Type 0 where
    ready : b.is_activated ≡ true
    chosen : b.is_buffered ≡ mode
    moved : b.startup_pcm ≡ []
    other : (if mode then b.streaming_pcm else b.buffered_pcm) ≡ []

  abbrev IsTidy : Bool → Buffer G → Type 0
  IsTidy mode b = IsStarting b ⊎ IsStarted mode b

  -- A call returns the samples that waited and no longer do, in their order.
  record Conserves (b : Buffer G) (more : List ℤ) (r : Buffer G × List ℤ) (mode : Bool)
      : Type 0 where
    tidy : IsTidy mode r.0
    same_gain : r.0.gain ≡ b.gain
    samples : r.1 ++ waiting_samples r.0 ≡ waiting_samples b ++ map (gained_sample G b.gain) more
    total : r.0.total_samples ≡ b.total_samples + length more

  activated-Conserves :
      (mode : Bool) (pcm : List ℤ) (b : Buffer G)
      → IsStarted mode b
      → Conserves b pcm (append_activated G pcm b, []) mode
  unfolding append_activated waiting_samples
  activated-Conserves mode pcm b i = record {
    tidy = inr (ground (arith, i.ready));
    same_gain = ground arith;
    samples = ground (arith, i.ready, prepare_gain_lem G pcm b.gain);
    total = ground arith;
  }

  pending-Conserves :
      (mode : Bool) (pcm : List ℤ) (b : Buffer G)
      → IsStarting b
      → Conserves b pcm (append_pending G pcm b, []) mode
  unfolding append_pending waiting_samples
  pending-Conserves mode pcm b i = record {
    tidy = inl (ground arith);
    same_gain = refl;
    samples = ground (arith, i.waits, map-append (gained_sample G b.gain) b.startup_pcm pcm);
    total = refl;
  }

  activate-Conserves :
      (mode : Bool) (b : Buffer G) → IsTidy mode b → Conserves b [] (activate G mode b, []) mode
  unfolding activate waiting_samples
  activate-Conserves mode b i = record {
    tidy = inr (ground arith);
    same_gain = ground arith;
    samples =
        ground (arith, i, append-nil (waiting_samples b), apply_gain_lem G b.startup_pcm b.gain);
    total = ground arith;
  }

  empty-Conserves : (mode : Bool) (b : Buffer G) → IsTidy mode b → Conserves b [] (b, []) mode
  empty-Conserves mode b i = record {
    tidy = i;
    same_gain = refl;
    samples = sym (append-nil (waiting_samples b));
    total = ground arith;
  }

  started : (mode : Bool) (b : Buffer G) → IsTidy mode b → b.is_activated ≡ true → IsStarted mode b
  started mode b (inl i) on = ground (arith, i.waits)
  started mode b (inr i) on = i

  starting : (mode : Bool) (b : Buffer G) → IsTidy mode b → b.is_activated ≡ false → IsStarting b
  starting mode b (inl i) off = i
  starting mode b (inr i) off = ground (arith, i.ready)

  feed_startup-Conserves :
      (mode : Bool) (pcm : List ℤ) (b : Buffer G)
      → IsTidy mode b
      → Conserves b pcm (append_startup G pcm b, []) mode
  unfolding append_startup
  feed_startup-Conserves mode [] b i = empty-Conserves mode b i
  feed_startup-Conserves mode (x ∷ pcm) b i =
      if_both (λ r. Conserves b (x ∷ pcm) (r, []) mode) b.is_activated _ _
        (λ on. activated-Conserves mode (x ∷ pcm) b (started mode b i on))
        (λ off. pending-Conserves mode (x ∷ pcm) b (starting mode b i off))

  feed-Conserves :
      (mode : Bool) (pcm : List ℤ) (b : Buffer G)
      → IsTidy mode b
      → Conserves b pcm (append G pcm b, []) mode
  unfolding append
  feed-Conserves mode [] b i = empty-Conserves mode b i
  feed-Conserves mode (x ∷ pcm) b i =
      if_both (λ r. Conserves b (x ∷ pcm) (r, []) mode) (not b.is_activated) _ _
        (λ off. feed_startup-Conserves mode (x ∷ pcm) b i)
        (λ on. activated-Conserves mode (x ∷ pcm) b (started mode b i (ground arith)))

  drain-Conserves :
      (mode : Bool) (b : Buffer G) → IsTidy mode b → Conserves b [] (drain_streaming_tail G b) mode
  unfolding drain_streaming_tail waiting_samples
  drain-Conserves mode b i = record {
    tidy = ground (arith, i);
    same_gain = refl;
    samples = ground (arith, i, append-nil (waiting_samples b));
    total = ground arith;
  }

  take_all-Conserves :
      (mode : Bool) (b : Buffer G) → IsTidy mode b → Conserves b [] (take_buffered_pcm G b) mode
  unfolding take_buffered_pcm waiting_samples
  take_all-Conserves mode b i = record {
    tidy = ground (arith, i);
    same_gain = refl;
    samples = ground (arith, i, append-nil (waiting_samples b));
    total = ground arith;
  }

  pop-Conserves :
      (mode : Bool) (n : ℕ) (b : Buffer G)
      → IsTidy mode b
      → Conserves b []
          ((pop_streaming_chunk G n b).0, or_nothing (pop_streaming_chunk G n b).1)
          mode
  unfolding pop_streaming_chunk waiting_samples
  pop-Conserves mode n b i = record {
    tidy = ground (arith, i);
    same_gain = ground arith;
    samples = ground (arith, i, append-nil (waiting_samples b), take-append-drop n b.streaming_pcm);
    total = ground arith;
  }

  abbrev fed_once : Use → List ℤ
  fed_once u = fed (u ∷ [])

  use_once-Conserves :
      (mode : Bool) (u : Use) (b : Buffer G)
      → IsTidy mode b
      → Conserves b (fed_once u) (use_once mode u b) mode
  unfolding use_once fed
  use_once-Conserves mode (feed_startup pcm) b i =
      rw (append-nil pcm) (feed_startup-Conserves mode pcm b i)
  use_once-Conserves mode (feed pcm) b i = rw (append-nil pcm) (feed-Conserves mode pcm b i)
  use_once-Conserves mode start b i = activate-Conserves mode b i
  use_once-Conserves mode pop_tail b i = drain-Conserves mode b i
  use_once-Conserves mode take_all b i = take_all-Conserves mode b i
  use_once-Conserves mode (pop_chunk n) b i = pop-Conserves mode n b i

  fed-split : (u : Use) (us : List Use) → fed (u ∷ us) ≡ fed_once u ++ fed us
  unfolding fed
  fed-split (feed_startup pcm) us = rw (append-nil pcm) refl
  fed-split (feed pcm) us = rw (append-nil pcm) refl
  fed-split start us = refl
  fed-split pop_tail us = refl
  fed-split take_all us = refl
  fed-split (pop_chunk n) us = refl

  chain :
      (mode : Bool) (b : Buffer G) (xs ys : List ℤ) (r r' : Buffer G × List ℤ)
      → Conserves b xs r mode
      → Conserves r.0 ys r' mode
      → Conserves b (xs ++ ys) (r'.0, r.1 ++ r'.1) mode
  chain mode b xs ys r r' i j = record {
    tidy = j.tidy;
    same_gain = j.same_gain ∙ i.same_gain;
    samples = ground (
      arith,
      i.same_gain,
      i.samples,
      j.samples,
      append_assoc r.1 r'.1 (waiting_samples r'.0),
      append_assoc r.1 (waiting_samples r.0) (map (gained_sample G b.gain) ys),
      append_assoc (waiting_samples b) (map (gained_sample G b.gain) xs)
          (map (gained_sample G b.gain) ys),
      map-append (gained_sample G b.gain) xs ys,
    );
    total = ground (arith, i.total, j.total, length-append xs ys);
  }

  use_all-Conserves :
      (mode : Bool) (us : List Use) (b : Buffer G)
      → IsTidy mode b
      → Conserves b (fed us) (use_all mode us b) mode
  unfolding use_all fed
  use_all-Conserves mode [] b i = empty-Conserves mode b i
  use_all-Conserves mode (u ∷ us) b i =
      let r = use_once-Conserves mode u b i in
      rw (fed-split u us) (chain mode b _ _ _ _ r (use_all-Conserves mode us _ r.tidy))

  -- Between two resets, in either delivery mode, the samples returned so far followed by those that
  -- wait are the samples fed, in order, each once and under the gain; and the total counts them all.
  pub use_all-reset :
      (mode : Bool) (us : List Use) (g : Float) (b : Buffer G)
      → let r = use_all mode us (reset G g b) in
        (r.1 ++ waiting_samples r.0 ≡ map (gained_sample G g) (fed us))
        × (r.0.total_samples ≡ length (fed us))
  unfolding reset waiting_samples
  use_all-reset mode us g b =
      let r = use_all-Conserves mode us (reset G g b) (inl (ground arith)) in
      (r.samples, ground (arith, r.total))
