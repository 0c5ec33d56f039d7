-- ===== src/Scene/Cases.antt =====
-- One rule for each operation of Scene: what holds of the configuration that it is given and of the
-- one that it builds when it succeeds, holds of what it leaves behind.
use fcitx5_vinput.Base.{
  String, ◌≡◌, inl, inr, Bool, true, false, not, ◌&&◌, List, [], ◌∷◌, ◌++◌, none, some,
  if◌then◌else◌, str_eq, str_empty, Option-cases, Bool-cases,
}
use fcitx5_vinput.Scene.{
  Definition, Config, normalize_definition, validate_definition, find, is_some, add_scene, erase_in,
  front_id, remove_scene, is_builtin_scene, set_active_scene, clear_references,
  clear_provider_references,
}

module _ {ℓ} (P : Config → Type ℓ) (c : Config) (same : P c) where
  pub add_scene_cases :
      (def : Definition)
      → (validate_definition (normalize_definition def) ≡ none
          → is_some (find c.scenes (normalize_definition def).id) ≡ false
          → P (record c { scenes = c.scenes ++ normalize_definition def ∷ [] }))
      → P (add_scene c def).0
  unfolding add_scene
  add_scene_cases def added = elim (Option-cases (validate_definition (normalize_definition def))) [
    | inr (e, h) ↦ rw (h, add_scene) same
    | inl h ↦ elim (Bool-cases (is_some (find c.scenes (normalize_definition def).id))) [
      | inl old ↦ rw (h, add_scene, old) same
      | inr new ↦ rw (h, add_scene, new) (added h new)
    ]
  ]

  pub remove_scene_cases :
      (id : String) (force : Bool)
      → ((rest : List Definition)
          → is_builtin_scene (find c.scenes id) ≡ false
          → erase_in c.scenes id ≡ some rest
          → P (record {
            active_scene_id =
                if str_eq c.active_scene_id id then front_id rest else c.active_scene_id;
            scenes = rest;
          }))
      → P (remove_scene c id force).0
  unfolding remove_scene
  remove_scene_cases id force removed = elim (Bool-cases (is_builtin_scene (find c.scenes id))) [
    | inl kept ↦ rw (kept, remove_scene) same
    | inr free ↦ elim (Bool-cases (not force && str_eq c.active_scene_id id)) [
      | inl active ↦ rw (free, remove_scene, active) same
      | inr idle ↦ elim (Option-cases (erase_in c.scenes id)) [
        | inl e ↦ rw (free, remove_scene, idle, e) same
        | inr (rest, e) ↦ rw (free, remove_scene, idle, e) (removed rest free e)
      ]
    ]
  ]

  pub set_active_scene_cases :
      (id : String)
      → (is_some (find c.scenes id) ≡ true → P (record c { active_scene_id = id }))
      → P (set_active_scene c id).0
  unfolding set_active_scene
  set_active_scene_cases id activated = elim (Bool-cases (is_some (find c.scenes id))) [
    | inl e ↦ rw (e, set_active_scene) (activated e)
    | inr e ↦ rw (e, set_active_scene) same
  ]

  pub clear_provider_references_cases :
      (p : String)
      → P (record c { scenes = (clear_references c.scenes p).0 })
      → P (clear_provider_references c p).0
  unfolding clear_provider_references
  clear_provider_references_cases p cleared = elim (Bool-cases (str_empty p)) [
    | inl e ↦ rw (e, clear_provider_references) same
    | inr e ↦ rw (e, clear_provider_references) cleared
  ]
