-- ===== src/Config/Validate/Fresh.antt =====
-- What the filtering loops of NormalizeCoreConfig keep is what the loops of ValidateCoreConfig accept.
use fcitx5_vinput.Base.{
  String, ◌≡◌, refl, Bool, true, false, ◌||◌, List, [], ◌∷◌, ◌++◌, map, none, arith, str_eq,
  contains, Fresh, Within, Fresh-mono, All,
}
use fcitx5_vinput.Scene.{Definition, validate_definition, raw_scene_id, command_scene_id}
use fcitx5_vinput.Scene.Lookup.{ids}
use fcitx5_vinput.Config.Types.{AsrProvider, asr_provider_id}
use fcitx5_vinput.Config.Normalize.{keep_first}
use fcitx5_vinput.Config.Validate.{
  check_unique_id, check_asr_providers, lacks_command, check_scenes,
}

pub Within-cons : (seen : List String) (s : String) → Within seen (s ∷ seen)
Within-cons seen s t h = ground arith

module _ {ℓ} {A : Type ℓ} (id : A → String) (usable : A → Bool) (repair : A → A)
    (same_id : (a : A) → id (repair a) ≡ id a) where
  abbrev kept : List String → List A → List A
  kept seen l = (keep_first id usable repair seen l).0

  pub keep_first-Fresh : (seen : List String) (l : List A) → Fresh seen (map id (kept seen l))
  unfolding keep_first
  keep_first-Fresh seen [] = tt
  keep_first-Fresh seen (a ∷ rest) =
      let later = keep_first-Fresh (id a ∷ seen) rest in
      let skipped =
        Fresh-mono seen (id a ∷ seen) (map id (kept (id a ∷ seen) rest)) (Within-cons seen (id a))
          later in
      ground (arith, keep_first-Fresh seen rest, later, skipped, same_id a)

  -- Texts new to the set that the loop ends with may follow.
  pub keep_first-append :
      (seen : List String) (l : List A) (more : List String)
      → Fresh (keep_first id usable repair seen l).1 more
      → Fresh seen (map id (kept seen l) ++ more)
  unfolding keep_first
  keep_first-append seen [] more f = f
  keep_first-append seen (a ∷ rest) more f =
      let later = keep_first-append (id a ∷ seen) rest more in
      let skipped =
        Fresh-mono seen (id a ∷ seen) (map id (kept (id a ∷ seen) rest) ++ more)
          (Within-cons seen (id a)) in
      ground (arith, keep_first-append seen rest more, later, skipped, same_id a)

  pub keep_first-All {κ} :
      (Q : A → Type κ)
      → ((a : A) → usable a ≡ true → Q (repair a))
      → (seen : List String) (l : List A) → All Q (kept seen l)
  unfolding keep_first
  keep_first-All Q h seen [] = tt
  keep_first-All Q h seen (a ∷ rest) =
      ground (arith, keep_first-All Q h seen rest, keep_first-All Q h (id a ∷ seen) rest, h a)

pub check_unique_id-none {ℓ} :
    {A : Type ℓ} (id : A → String) (label : String) (seen : List String) (l : List A)
    → Fresh seen (map id l)
    → check_unique_id id label seen l ≡ none
unfolding check_unique_id
check_unique_id-none id label seen [] f = refl
check_unique_id-none id label seen (a ∷ rest) (e, c, f) =
    ground (arith, check_unique_id-none id label (id a ∷ seen) rest f)

pub check_asr_providers-none :
    (seen : List String) (l : List AsrProvider)
    → Fresh seen (map asr_provider_id l)
    → All (λ p. lacks_command p ≡ false) l
    → check_asr_providers seen l ≡ none
unfolding check_asr_providers
check_asr_providers-none seen [] f a = refl
check_asr_providers-none seen (p ∷ ps) (e, c, f) (h, a) =
    ground (arith, check_asr_providers-none (asr_provider_id p ∷ seen) ps f a)

-- The loop over the scenes accepts valid scenes under distinct ids with the two built-in ones.
pub check_scenes-none :
    (has_raw has_command : Bool) (seen : List String) (l : List Definition)
    → Fresh seen (ids l)
    → All (λ d. validate_definition d ≡ none) l
    → (has_raw || contains (ids l) raw_scene_id) ≡ true
    → (has_command || contains (ids l) command_scene_id) ≡ true
    → check_scenes has_raw has_command seen l ≡ none
unfolding check_scenes
check_scenes-none r k seen [] f a hr hk = ground arith
check_scenes-none r k seen (d ∷ ds) (e, c, f) (v, a) hr hk = ground (
  arith,
  check_scenes-none (str_eq d.id raw_scene_id || r) (str_eq d.id command_scene_id || k)
      (d.id ∷ seen) ds f a,
)
