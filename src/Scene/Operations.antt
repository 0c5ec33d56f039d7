-- ===== src/Scene/Operations.antt =====
-- Histories of operations on a scene configuration: what survives each of them.
use fcitx5_vinput.Base.{
  String, ◌≡◌, ◌≢◌, ◌⊎◌, inl, inr, refl, sym, ◌∙◌, ap, Bool, true, false, List, [], ◌∷◌, some,
  arith, if◌then◌else◌, str_eq, str_eq_iff, Bool-cases, contains,
}
use fcitx5_vinput.Scene.{
  Definition, Config, normalize_definition, find, is_some, add_scene, updated_scene, update_in,
  update_scene, erase_in, front_id, remove_scene, is_builtin_scene, set_active_scene,
  clear_references, clear_provider_references,
}
use fcitx5_vinput.Scene.Cases.{
  add_scene_cases, remove_scene_cases, set_active_scene_cases, clear_provider_references_cases,
}
use fcitx5_vinput.Scene.Lookup.{
  ids, contains-ids, find-append, ids-update_in, find-erase_in_ne, ids-clear_references,
}
use fcitx5_vinput.Scene.Invariant.{
  IsValid, add_scene-IsValid, update_scene-IsValid, remove_scene-IsValid,
  clear_provider_references-IsValid, set_active_scene-IsValid,
}

pub data Operation : Type 0 where
  add : Definition → Operation
  update : String → Definition → Operation
  remove : String → Bool → Operation
  set_active : String → Operation
  clear_references_of : String → Operation

unfoldable pub apply : Config → Operation → Config
apply c (add def) = (add_scene c def).0
apply c (update id def) = (update_scene c id def).0
apply c (remove id force) = (remove_scene c id force).0
apply c (set_active id) = (set_active_scene c id).0
apply c (clear_references_of provider) = (clear_provider_references c provider).0

unfoldable pub run : Config → List Operation → Config
run c [] = c
run c (o ∷ os) = run (apply c o) os

apply-IsValid : (c : Config) (o : Operation) → IsValid c → IsValid (apply c o)
unfolding apply
apply-IsValid c (add def) v = add_scene-IsValid c def v
apply-IsValid c (update id def) v = update_scene-IsValid c id def v
apply-IsValid c (remove id force) v = remove_scene-IsValid c id force v
apply-IsValid c (set_active id) v = set_active_scene-IsValid c id v
apply-IsValid c (clear_references_of p) v = clear_provider_references-IsValid c p v

-- Any history of operations on a valid configuration, failed ones included, leaves every scene
-- valid and normalised, and the ids distinct and not empty.
pub run-IsValid : (c : Config) (os : List Operation) → IsValid c → IsValid (run c os)
unfolding run
run-IsValid c [] v = v
run-IsValid c (o ∷ os) v = run-IsValid (apply c o) os (apply-IsValid c o v)

-- The active scene is unset, or it is there.
abbrev pub HasActive : Config → Type 0
HasActive c = (c.active_scene_id ≡ "") ⊎ (is_some (find c.scenes c.active_scene_id) ≡ true)

same_ids-find :
    (xs ys : List Definition) (id : String)
    → ids xs ≡ ids ys
    → is_some (find xs id) ≡ is_some (find ys id)
same_ids-find xs ys id e = sym (contains-ids xs id) ∙ ap (λ l. contains l id) e ∙ contains-ids ys id

front-HasActive :
    (ds : List Definition) → HasActive (record { active_scene_id = front_id ds; scenes = ds })
unfolding front_id find
front-HasActive [] = inl refl
front-HasActive (d ∷ ds) = inr (ground (arith, str_eq_iff d.id d.id))

remaining-HasActive :
    (c : Config) (rest : List Definition) (id : String)
    → erase_in c.scenes id ≡ some rest
    → HasActive c
    → HasActive (record {
      active_scene_id = if str_eq c.active_scene_id id then front_id rest else c.active_scene_id;
      scenes = rest;
    })
remaining-HasActive c rest id e h = elim (Bool-cases (str_eq c.active_scene_id id)) [
  | inl gone ↦ rw gone (front-HasActive rest)
  | inr stays ↦
      let n : c.active_scene_id ≢ id = λ p. ground (arith, str_eq_iff c.active_scene_id id) in
      rw stays (ground (arith, find-erase_in_ne c.scenes rest id c.active_scene_id n e))
]

apply-HasActive : (c : Config) (o : Operation) → HasActive c → HasActive (apply c o)
unfolding apply
apply-HasActive c (add def) h =
    add_scene_cases HasActive c h def
      λ _ _. ground (arith, find-append c.scenes (normalize_definition def) c.active_scene_id)
apply-HasActive c (update id def) h =
    unfold update_scene in
    ground (
      arith,
      same_ids-find (update_in c.scenes id def).0 c.scenes c.active_scene_id
          (ids-update_in c.scenes id def),
    )
apply-HasActive c (remove id force) h =
    remove_scene_cases HasActive c h id force λ rest _ e. remaining-HasActive c rest id e h
apply-HasActive c (set_active id) h = set_active_scene_cases HasActive c h id λ e. inr e
apply-HasActive c (clear_references_of p) h = clear_provider_references_cases HasActive c h p (
    ground (
      arith,
      same_ids-find (clear_references c.scenes p).0 c.scenes c.active_scene_id
          (ids-clear_references c.scenes p),
    ))

-- Any history of operations keeps the active scene of a configuration unset or present.
pub run-HasActive : (c : Config) (os : List Operation) → HasActive c → HasActive (run c os)
unfolding run
run-HasActive c [] h = h
run-HasActive c (o ∷ os) h = run-HasActive (apply c o) os (apply-HasActive c o h)

-- A built-in scene under an id.
abbrev pub HasBuiltin : String → Config → Type 0
HasBuiltin id c = is_builtin_scene (find c.scenes id) ≡ true

updated_scene-builtin :
    (d def : Definition) → d.builtin ≡ true → (updated_scene d def).builtin ≡ true
unfolding updated_scene normalize_definition
updated_scene-builtin d def h = ground arith

updated_scene-id : (d def : Definition) → (updated_scene d def).id ≡ d.id
unfolding updated_scene normalize_definition
updated_scene-id d def = refl

update_in-builtin :
    (ds : List Definition) (other id : String) (def : Definition)
    → is_builtin_scene (find ds id) ≡ true
    → is_builtin_scene (find (update_in ds other def).0 id) ≡ true
unfolding find update_in is_builtin_scene
update_in-builtin [] other id def h = h
update_in-builtin (d ∷ ds) other id def h =
    ground (
      arith,
      update_in-builtin ds other id def,
      updated_scene-builtin d def,
      updated_scene-id d def,
    )

clear_references-builtin :
    (ds : List Definition) (p id : String)
    → is_builtin_scene (find (clear_references ds p).0 id) ≡ is_builtin_scene (find ds id)
unfolding find clear_references is_builtin_scene
clear_references-builtin [] p id = refl
clear_references-builtin (d ∷ ds) p id = ground (arith, clear_references-builtin ds p id)

remaining-builtin :
    (ds rest : List Definition) (other id : String)
    → is_builtin_scene (find ds other) ≡ false
    → erase_in ds other ≡ some rest
    → is_builtin_scene (find ds id) ≡ true
    → is_builtin_scene (find rest id) ≡ true
remaining-builtin ds rest other id free e h =
    let n : id ≢ other = λ p. cc in rw (find-erase_in_ne ds rest other id n e) h

apply-HasBuiltin :
    (c : Config) (o : Operation) (id : String) → HasBuiltin id c → HasBuiltin id (apply c o)
unfolding apply
apply-HasBuiltin c (add def) id h = add_scene_cases (HasBuiltin id) c h def λ _ _.
    unfold is_builtin_scene in ground (arith, find-append c.scenes (normalize_definition def) id)
apply-HasBuiltin c (update other def) id h =
    unfold update_scene in update_in-builtin c.scenes other id def h
apply-HasBuiltin c (remove other force) id h =
    remove_scene_cases (HasBuiltin id) c h other force
      λ rest free e. remaining-builtin c.scenes rest other id free e h
apply-HasBuiltin c (set_active other) id h = set_active_scene_cases (HasBuiltin id) c h other λ _. h
apply-HasBuiltin c (clear_references_of p) id h =
    clear_provider_references_cases (HasBuiltin id) c h p
      (clear_references-builtin c.scenes p id ∙ h)

-- No history of operations removes a built-in scene: what stands under its id is built-in, always.
pub run-HasBuiltin :
    (c : Config) (os : List Operation) (id : String) → HasBuiltin id c → HasBuiltin id (run c os)
unfolding run
run-HasBuiltin c [] id h = h
run-HasBuiltin c (o ∷ os) id h = run-HasBuiltin (apply c o) os id (apply-HasBuiltin c o id h)
