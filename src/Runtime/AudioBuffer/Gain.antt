-- ===== src/Runtime/AudioBuffer/Gain.antt =====
-- The gain of src/daemon/audio/audio_utils.cpp, sample by sample.
use fcitx5_vinput.Base.{
  ◌≡◌, refl, ◌∙◌, true, false, List, [], ◌∷◌, map, arith, inl, inr, if◌then◌else◌, ℤ, Bool-cases,
}
use fcitx5_vinput.Runtime.AudioBuffer.{Gains, apply_gain, prepare_gain_adjusted_input}

module _ (G : Gains) where
  open G use {Float}

  -- One sample under a gain.
  abbrev pub gained_sample : Float → ℤ → ℤ
  gained_sample g x = if G.is_one g then x else G.scale_sample g x

  map_agree : (f h : ℤ → ℤ) (xs : List ℤ) → ((x : ℤ) → f x ≡ h x) → map f xs ≡ map h xs
  map_agree f h [] e = refl
  map_agree f h (x ∷ xs) e = rw (e x, map_agree f h xs e) refl

  map_self : (xs : List ℤ) → map (λ x. x) xs ≡ xs
  map_self [] = refl
  map_self (x ∷ xs) = rw (map_self xs) refl

  one_gain : (g : Float) (xs : List ℤ) → G.is_one g ≡ true → map (gained_sample g) xs ≡ xs
  one_gain g xs e = map_agree (gained_sample g) (λ x. x) xs (λ x. ground arith) ∙ map_self xs

  other_gain :
      (g : Float) (xs : List ℤ)
      → G.is_one g ≡ false
      → map (gained_sample g) xs ≡ map (G.scale_sample g) xs
  other_gain g xs e = map_agree (gained_sample g) (G.scale_sample g) xs (λ x. ground arith)

  -- Both routines scale each sample, and a gain of 1.0 leaves it.
  pub apply_gain_lem : (xs : List ℤ) (g : Float) → apply_gain G xs g ≡ map (gained_sample g) xs
  unfolding apply_gain
  apply_gain_lem [] g = ground arith
  apply_gain_lem (x ∷ xs) g = elim (Bool-cases (G.is_one g)) [
    | inl one ↦ ground (arith, one_gain g (x ∷ xs) one)
    | inr other ↦ ground (arith, other_gain g (x ∷ xs) other)
  ]

  pub prepare_gain_lem :
      (xs : List ℤ) (g : Float) → prepare_gain_adjusted_input G xs g ≡ map (gained_sample g) xs
  unfolding prepare_gain_adjusted_input
  prepare_gain_lem [] g = ground arith
  prepare_gain_lem (x ∷ xs) g = elim (Bool-cases (G.is_one g)) [
    | inl one ↦ ground (arith, one_gain g (x ∷ xs) one)
    | inr other ↦ ground (arith, apply_gain_lem (x ∷ xs) g)
  ]
