-- ===== src/Asr/Vad.antt =====
-- CoalesceAndSliceSegments (src/daemon/asr/vad_segmentation.cpp). Floating-point numbers are a
-- parameter. The vector `result` is a list with its last element first.
pub mod Segments
pub mod Tests
use Prim.Native.Nat.{ℕ, zero, suc, ◌+◌}
use fcitx5_vinput.Base.{
  Bool, true, false, not, ◌&&◌, ◌||◌, List, [], ◌∷◌, ◌++◌, if◌then◌else◌, length, take, drop,
  is_empty, ltb, leb, ◌==◌, ℤ, pos, lez,
}

-- `samples` is `duration_sec * sample_rate` in doubles, and the tests are those of to_samples.
pub record Durations : Type 1 where
  pub Float : Type 0
  pub Double : Type 0
  pub samples : Float → ℤ → Double
  pub is_finite : Double → Bool
  pub is_positive : Double → Bool
  pub below_max_size : Double → Bool
  pub truncate : Double → ℕ

module _ (D : Durations) where
  open D use {Float}

  unfoldable pub to_samples : ℤ → Float → ℕ
  to_samples sample_rate duration_sec =
      let n = D.samples duration_sec sample_rate in
      if not (D.is_finite n) || not (D.is_positive n) || not (D.below_max_size n)
      then 0
      else D.truncate n

module _ {ℓ} {A : Type ℓ} where
  -- `std::erase_if(raw_segments, empty)`
  unfoldable pub erase_empty : List (List A) → List (List A)
  erase_empty [] = []
  erase_empty (s ∷ ss) = if is_empty s then erase_empty ss else s ∷ erase_empty ss

  -- The loop over the offsets, on what is left of the segment; it advances by `n`, so the length of
  -- the segment is fuel enough for `n` above 0.
  unfoldable pub push_slices : ℕ → ℕ → List A → List (List A) → List (List A)
  push_slices zero n seg result = result
  push_slices (suc fuel) n seg result =
      if is_empty seg then result else push_slices fuel n (drop n seg) (take n seg ∷ result)

  -- The last two branches of the loop over the segments.
  unfoldable pub merge_or_push : ℕ → ℕ → List A → List (List A) → List (List A)
  merge_or_push longest shortest seg [] = seg ∷ []
  merge_or_push longest shortest seg (back ∷ result) =
      if ltb (length back) shortest && leb (length back + length seg) longest
      then (back ++ seg) ∷ result
      else seg ∷ back ∷ result

  unfoldable pub add_segment : ℕ → ℕ → List A → List (List A) → List (List A)
  add_segment longest shortest seg result =
      if is_empty seg
      then result
      else if ltb longest (length seg)
      then push_slices (length seg) longest seg result
      else merge_or_push longest shortest seg result

  unfoldable pub add_segments : ℕ → ℕ → List (List A) → List (List A) → List (List A)
  add_segments longest shortest [] result = result
  add_segments longest shortest (seg ∷ segs) result =
      add_segments longest shortest segs (add_segment longest shortest seg result)

  unfoldable pub reverse_onto : List (List A) → List (List A) → List (List A)
  reverse_onto [] after = after
  reverse_onto (s ∷ ss) after = reverse_onto ss (s ∷ after)

  unfoldable pub coalesce_and_slice_segments :
      (D : Durations) → List (List A) → ℤ → D.Float → D.Float → List (List A)
  coalesce_and_slice_segments D raw_segments sample_rate longest_sec shortest_sec =
      let longest = to_samples D sample_rate longest_sec in
      let shortest = to_samples D sample_rate shortest_sec in
      if lez sample_rate (pos 0) || is_empty raw_segments
      then erase_empty raw_segments
      else if longest == 0
      then erase_empty raw_segments
      else reverse_onto (add_segments longest shortest raw_segments []) []
