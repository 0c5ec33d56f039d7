-- ===== src/Scene/Providers.antt =====
-- What AddScene and ClearProviderReferences do to the scenes that a configuration shows.
use fcitx5_vinput.Base.{
  ℕ, ◌+◌, String, ◌≡◌, refl, false, List, [], ◌∷◌, none, some, arith, if◌then◌else◌, str_eq,
  str_eq_iff, str_empty, str_eq-empty, inl, inr, Option-cases,
}
use fcitx5_vinput.Scene.{
  Definition, Config, normalize_definition, validate_definition, find, add_scene, clear_references,
  clear_provider_references,
}
use fcitx5_vinput.Scene.Lookup.{find-append}

-- A scene that is added is found under its id, normalised, and every other id shows what it showed.
pub find-add_scene :
    (c : Config) (def : Definition) (id : String)
    → (add_scene c def).1 ≡ none
    → find (add_scene c def).0.scenes id ≡ (
        if str_eq (normalize_definition def).id id
        then some (normalize_definition def)
        else find c.scenes id)
unfolding add_scene
find-add_scene c def id h = elim (Option-cases (validate_definition (normalize_definition def))) [
  | inr (e, h') ↦ ground arith
  | inl h' ↦ ground (
    arith,
    find-append c.scenes (normalize_definition def) id,
    str_eq_iff (normalize_definition def).id id,
  )
]

-- How many scenes name a provider.
pub references : List Definition → String → ℕ
references [] p = 0
references (d ∷ ds) p = (if str_eq d.provider_id p then 1 else 0) + references ds p

-- A scene without its provider, where it is this one.
pub forget : String → Definition → Definition
forget p d = if str_eq d.provider_id p then record d { provider_id = ""; model = "" } else d

pub forget_all : String → List Definition → List Definition
forget_all p [] = []
forget_all p (d ∷ ds) = forget p d ∷ forget_all p ds

clear_references_lem :
    (ds : List Definition) (p : String) → clear_references ds p ≡ (forget_all p ds, references ds p)
unfolding clear_references forget_all forget references
clear_references_lem [] p = refl
clear_references_lem (d ∷ ds) p = ground (arith, clear_references_lem ds p)

references-forget_all :
    (ds : List Definition) (p : String) → str_empty p ≡ false → references (forget_all p ds) p ≡ 0
unfolding forget_all forget references
references-forget_all [] p e = refl
references-forget_all (d ∷ ds) p e = ground (arith, references-forget_all ds p e, str_eq-empty p e)

-- ClearProviderReferences with a provider that is named: it clears the provider and the model of
-- the scenes that name it and touches nothing else, it answers how many those were, none is left,
-- and a second call answers 0.
pub clear_provider_references_lem :
    (c : Config) (p : String)
    → str_empty p ≡ false
    → let r = clear_provider_references c p in
      (r.0.scenes ≡ forget_all p c.scenes)
      × (r.0.active_scene_id ≡ c.active_scene_id)
      × (r.1 ≡ references c.scenes p)
      × (references r.0.scenes p ≡ 0)
      × ((clear_provider_references r.0 p).1 ≡ 0)
unfolding clear_provider_references
clear_provider_references_lem c p e = ground (
  arith,
  clear_references_lem c.scenes p,
  references-forget_all c.scenes p e,
  clear_references_lem (forget_all p c.scenes) p,
)
