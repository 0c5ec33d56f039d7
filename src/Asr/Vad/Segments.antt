-- ===== src/Asr/Vad/Segments.antt =====
-- CoalesceAndSliceSegments keeps the samples and bounds the segments.
use Prim.Native.Nat.{ℕ, zero, suc, ◌+◌}
use mathlib.Core.List.{append_assoc, append-nil}
use fcitx5_vinput.Base.{
  ◌≡◌, refl, sym, ap, ◌∙◌, true, false, ◌&&◌, List, [], ◌∷◌, ◌++◌, arith, if_both, length,
  length-append, length-take, length-drop, take-append-drop, take, drop, is_empty, All, ltb, leb, ℤ,
  pos, lez,
}
use fcitx5_vinput.Asr.Vad.{
  Durations, to_samples, erase_empty, push_slices, merge_or_push, add_segment, add_segments,
  reverse_onto, coalesce_and_slice_segments,
}

module _ {ℓ} {A : Type ℓ} where
  -- All samples, in order.
  unfoldable pub joined : List (List A) → List A
  joined [] = []
  joined (s ∷ ss) = s ++ joined ss

  -- The samples of a vector with its last element first.
  unfoldable pub pushed : List (List A) → List A
  pushed [] = []
  pushed (s ∷ ss) = pushed ss ++ s

  joined-reverse :
      (r after : List (List A)) → joined (reverse_onto r after) ≡ pushed r ++ joined after
  unfolding joined pushed reverse_onto
  joined-reverse [] after = refl
  joined-reverse (s ∷ r) after =
      joined-reverse r (s ∷ after) ∙ sym (append_assoc (pushed r) s (joined after))

  erase_empty-joined : (ss : List (List A)) → joined (erase_empty ss) ≡ joined ss
  unfolding joined erase_empty
  erase_empty-joined [] = refl
  erase_empty-joined ([] ∷ ss) = erase_empty-joined ss
  erase_empty-joined ((x ∷ s) ∷ ss) = ap (λ l. x ∷ s ++ l) (erase_empty-joined ss)

  push_slices-pushed :
      (fuel n : ℕ) (seg : List A) (r : List (List A))
      → leb 1 n ≡ true
      → leb (length seg) fuel ≡ true
      → pushed (push_slices fuel n seg r) ≡ pushed r ++ seg
  unfolding pushed push_slices
  push_slices-pushed zero n [] r p e = sym (append-nil (pushed r))
  push_slices-pushed zero n (x ∷ seg) r p e = ground arith
  push_slices-pushed (suc fuel) n seg r p e = ground (
    arith,
    push_slices-pushed fuel n (drop n seg) (take n seg ∷ r) p,
    length-drop n seg,
    append_assoc (pushed r) (take n seg) (drop n seg),
    take-append-drop n seg,
    append-nil (pushed r),
    e,
  )

  merge_or_push-pushed :
      (longest shortest : ℕ) (seg : List A) (r : List (List A))
      → pushed (merge_or_push longest shortest seg r) ≡ pushed r ++ seg
  unfolding pushed merge_or_push
  merge_or_push-pushed longest shortest seg [] = refl
  merge_or_push-pushed longest shortest seg (back ∷ r) =
      ground (arith, append_assoc (pushed r) back seg)

  add_segment-pushed :
      (longest shortest : ℕ) (seg : List A) (r : List (List A))
      → leb 1 longest ≡ true
      → pushed (add_segment longest shortest seg r) ≡ pushed r ++ seg
  unfolding add_segment
  add_segment-pushed longest shortest [] r p = sym (append-nil (pushed r))
  add_segment-pushed longest shortest (x ∷ seg) r p = ground (
    arith,
    push_slices-pushed (length (x ∷ seg)) longest (x ∷ seg) r p,
    merge_or_push-pushed longest shortest (x ∷ seg) r,
  )

  add_segments-pushed :
      (longest shortest : ℕ) (segs r : List (List A))
      → leb 1 longest ≡ true
      → pushed (add_segments longest shortest segs r) ≡ pushed r ++ joined segs
  unfolding joined add_segments
  add_segments-pushed longest shortest [] r p = sym (append-nil (pushed r))
  add_segments-pushed longest shortest (seg ∷ segs) r p =
      add_segments-pushed longest shortest segs (add_segment longest shortest seg r) p
      ∙ ap (λ l. l ++ joined segs) (add_segment-pushed longest shortest seg r p)
      ∙ append_assoc (pushed r) seg (joined segs)

  -- The segments returned hold exactly the samples of the raw segments, in order, whatever the
  -- sample rate and the durations.
  pub coalesce_and_slice_segments-joined :
      (D : Durations) (raw : List (List A)) (sample_rate : ℤ) (longest_sec shortest_sec : D.Float)
      → joined (coalesce_and_slice_segments D raw sample_rate longest_sec shortest_sec) ≡ joined raw
  unfolding coalesce_and_slice_segments pushed joined
  coalesce_and_slice_segments-joined D raw sample_rate longest_sec shortest_sec =
      let longest = to_samples D sample_rate longest_sec in
      let shortest = to_samples D sample_rate shortest_sec in
      ground (
        arith,
        erase_empty-joined raw,
        joined-reverse (add_segments longest shortest raw []) [],
        append-nil (pushed (add_segments longest shortest raw [])),
        add_segments-pushed longest shortest raw [],
      )

  -- Every segment is not empty, and at most `longest` samples long.
  abbrev pub IsCut : ℕ → List A → Type 0
  IsCut longest s = (is_empty s ≡ false) × (leb (length s) longest ≡ true)

  reverse-All :
      (longest : ℕ) (r after : List (List A))
      → All (IsCut longest) r
      → All (IsCut longest) after
      → All (IsCut longest) (reverse_onto r after)
  unfolding reverse_onto
  reverse-All longest [] after a b = b
  reverse-All longest (s ∷ r) after (c, a) b = reverse-All longest r (s ∷ after) a (c, b)

  take-IsCut : (n : ℕ) (x : A) (seg : List A) → leb 1 n ≡ true → IsCut n (take n (x ∷ seg))
  take-IsCut zero x seg p = ground arith
  take-IsCut (suc n) x seg p = (refl, ground (arith, length-take (suc n) (x ∷ seg)))

  append-IsCut :
      (n : ℕ) (back seg : List A)
      → is_empty back ≡ false
      → leb (length back + length seg) n ≡ true
      → IsCut n (back ++ seg)
  append-IsCut n [] seg e l = ground arith
  append-IsCut n (x ∷ back) seg e l = (refl, ground (arith, length-append (x ∷ back) seg))

  push_slices-All :
      (longest fuel : ℕ) (seg : List A) (r : List (List A))
      → leb 1 longest ≡ true
      → All (IsCut longest) r
      → All (IsCut longest) (push_slices fuel longest seg r)
  unfolding push_slices
  push_slices-All longest zero seg r p a = a
  push_slices-All longest (suc fuel) [] r p a = a
  push_slices-All longest (suc fuel) (x ∷ seg) r p a =
      push_slices-All longest fuel (drop longest (x ∷ seg)) (take longest (x ∷ seg) ∷ r) p
        (take-IsCut longest x seg p, a)

  merge_or_push-All :
      (longest shortest : ℕ) (seg : List A) (r : List (List A))
      → is_empty seg ≡ false
      → leb (length seg) longest ≡ true
      → All (IsCut longest) r
      → All (IsCut longest) (merge_or_push longest shortest seg r)
  unfolding merge_or_push
  merge_or_push-All longest shortest seg [] e l a = ((e, l), tt)
  merge_or_push-All longest shortest seg (back ∷ r) e l ((f, k), a) =
      if_both (All (IsCut longest))
        (ltb (length back) shortest && leb (length back + length seg) longest) ((back ++ seg) ∷ r)
        (seg ∷ back ∷ r) (λ h. (append-IsCut longest back seg f (ground arith), a))
        (λ h. ((e, l), ((f, k), a)))

  add_segment-All :
      (longest shortest : ℕ) (seg : List A) (r : List (List A))
      → leb 1 longest ≡ true
      → All (IsCut longest) r
      → All (IsCut longest) (add_segment longest shortest seg r)
  unfolding add_segment
  add_segment-All longest shortest [] r p a = a
  add_segment-All longest shortest (x ∷ seg) r p a =
      if_both (All (IsCut longest)) (ltb longest (length (x ∷ seg))) _ _
        (λ long. push_slices-All longest (length (x ∷ seg)) (x ∷ seg) r p a)
        (λ short. merge_or_push-All longest shortest (x ∷ seg) r refl (ground arith) a)

  add_segments-All :
      (longest shortest : ℕ) (segs r : List (List A))
      → leb 1 longest ≡ true
      → All (IsCut longest) r
      → All (IsCut longest) (add_segments longest shortest segs r)
  unfolding add_segments
  add_segments-All longest shortest [] r p a = a
  add_segments-All longest shortest (seg ∷ segs) r p a =
      add_segments-All longest shortest segs _ p (add_segment-All longest shortest seg r p a)

  -- With a sample rate above 0 and a longest duration of at least one sample, no segment returned is
  -- empty or longer than that duration.
  pub coalesce_and_slice_segments-IsCut :
      (D : Durations) (raw : List (List A)) (sample_rate : ℤ) (longest_sec shortest_sec : D.Float)
      → lez sample_rate (pos 0) ≡ false
      → leb 1 (to_samples D sample_rate longest_sec) ≡ true
      → All
          (IsCut (to_samples D sample_rate longest_sec))
          (coalesce_and_slice_segments D raw sample_rate longest_sec shortest_sec)
  unfolding coalesce_and_slice_segments erase_empty
  coalesce_and_slice_segments-IsCut D [] sample_rate longest_sec shortest_sec r l = ground arith
  coalesce_and_slice_segments-IsCut D (s ∷ raw) sample_rate longest_sec shortest_sec r l =
      let longest = to_samples D sample_rate longest_sec in
      let shortest = to_samples D sample_rate shortest_sec in
      let kept = add_segments-All longest shortest (s ∷ raw) [] l tt in
      ground (arith, reverse-All longest (add_segments longest shortest (s ∷ raw) []) [] kept tt)
