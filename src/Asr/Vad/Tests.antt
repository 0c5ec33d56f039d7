-- ===== src/Asr/Vad/Tests.antt =====
-- CoalesceAndSliceSegments with whole seconds.
use Prim.Native.Nat.{ℕ, ◌*◌}
use fcitx5_vinput.Base.{◌≡◌, refl, true, List, [], ◌∷◌, All, ltb, ℤ, pos, negsuc}
use fcitx5_vinput.Asr.Vad.{
  Durations, to_samples, push_slices, merge_or_push, add_segment, add_segments, reverse_onto,
  coalesce_and_slice_segments,
}
use fcitx5_vinput.Asr.Vad.Segments.{
  joined, coalesce_and_slice_segments-joined, IsCut, coalesce_and_slice_segments-IsCut,
}

whole_samples : ℕ → ℤ → ℕ
whole_samples d (pos r) = d * r
whole_samples d (negsuc r) = 0

abbrev whole : Durations
whole = record {
  Float = ℕ;
  Double = ℕ;
  samples = whole_samples;
  is_finite = λ n. true;
  is_positive = λ n. ltb 0 n;
  below_max_size = λ n. true;
  truncate = λ n. n;
}

abbrev raw : List (List ℕ)
raw = (1 ∷ []) ∷ [] ∷ (2 ∷ []) ∷ (3 ∷ 4 ∷ 5 ∷ 6 ∷ 7 ∷ []) ∷ []

cut :
    coalesce_and_slice_segments whole raw (pos 1) 3 2
    ≡ (1 ∷ 2 ∷ []) ∷ (3 ∷ 4 ∷ 5 ∷ []) ∷ (6 ∷ 7 ∷ []) ∷ []
unfolding coalesce_and_slice_segments to_samples whole_samples push_slices merge_or_push add_segment
    add_segments reverse_onto
cut = refl

coalesce_and_slice_segments-joined_example :
    joined (coalesce_and_slice_segments whole raw (pos 1) 3 2) ≡ joined raw
coalesce_and_slice_segments-joined_example =
    coalesce_and_slice_segments-joined whole raw (pos 1) 3 2

coalesce_and_slice_segments-IsCut_example :
    All (IsCut (to_samples whole (pos 1) 3)) (coalesce_and_slice_segments whole raw (pos 1) 3 2)
unfolding to_samples whole_samples
coalesce_and_slice_segments-IsCut_example =
    coalesce_and_slice_segments-IsCut whole raw (pos 1) 3 2 refl refl
