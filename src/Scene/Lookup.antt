-- ===== src/Scene/Lookup.antt =====
-- What `find` sees of the list of scenes that each loop of Scene leaves behind.
use fcitx5_vinput.Base.{
  String, ◌≡◌, ◌≢◌, refl, true, false, List, [], ◌∷◌, ◌++◌, map, none, some, arith, inl, inr,
  Option-cases, Bool-cases, ◌⊎◌, if◌then◌else◌, str_eq, str_eq_iff, contains,
}
use fcitx5_vinput.Scene.{
  Definition, normalize_definition, find, is_some, updated_scene, update_in, erase_in,
  clear_references,
}

abbrev pub ids : List Definition → List String
ids = map (λ d. d.id)

pub contains-ids :
    (ds : List Definition) (id : String) → contains (ids ds) id ≡ is_some (find ds id)
unfolding find
contains-ids [] id = refl
contains-ids (d ∷ ds) id = ground (arith, contains-ids ds id)

pub find-append :
    (ds : List Definition) (d : Definition) (id : String)
    → find (ds ++ d ∷ []) id
      ≡ (if is_some (find ds id) then find ds id else (if str_eq d.id id then some d else none))
unfolding find
find-append [] d id = refl
find-append (x ∷ ds) d id = ground (arith, find-append ds d id)

updated_scene-id : (d def : Definition) → (updated_scene d def).id ≡ d.id
unfolding updated_scene
updated_scene-id d def = unfold normalize_definition in refl

pub ids-update_in :
    (ds : List Definition) (id : String) (def : Definition) → ids (update_in ds id def).0 ≡ ids ds
unfolding update_in
ids-update_in [] id def = refl
ids-update_in (d ∷ ds) id def = ground (arith, ids-update_in ds id def, updated_scene-id d def)

pub find-update_in_ne :
    (ds : List Definition) (id other : String) (def : Definition)
    → other ≢ id
    → find (update_in ds id def).0 other ≡ find ds other
unfolding find update_in
find-update_in_ne [] id other def n = refl
find-update_in_ne (d ∷ ds) id other def n = ground (
  arith,
  find-update_in_ne ds id other def n,
  updated_scene-id d def,
  str_eq_iff d.id id,
  str_eq_iff d.id other,
)

-- Erasing succeeds at the head or behind it.
pub erase_in_cases :
    (d : Definition) (ds rest : List Definition) (id : String)
    → erase_in (d ∷ ds) id ≡ some rest
    → ((str_eq d.id id ≡ true) × (rest ≡ ds))
      ⊎ ((rest' : List Definition) × (str_eq d.id id ≡ false)
          × (erase_in ds id ≡ some rest')
          × (rest ≡ d ∷ rest'))
unfolding erase_in
erase_in_cases d ds rest id e = elim (Option-cases (erase_in ds id)) [
  | inl none_left ↦ inl (ground arith)
  | inr (rest', e') ↦ elim (Bool-cases (str_eq d.id id)) [
    | inl hit ↦ inl (ground arith)
    | inr miss ↦ inr (rest', miss, e', ground arith)
  ]
]

pub find-erase_in_ne :
    (ds rest : List Definition) (id other : String)
    → other ≢ id
    → erase_in ds id ≡ some rest
    → find rest other ≡ find ds other
unfolding find
find-erase_in_ne [] rest id other n e = unfold erase_in in cc
find-erase_in_ne (d ∷ ds) rest id other n e = elim (erase_in_cases d ds rest id e) [
  | inl (hit, e') ↦ ground (arith, str_eq_iff d.id id, str_eq_iff d.id other)
  | inr (rest', miss, e', e'') ↦ rw e'' (ground (arith, find-erase_in_ne ds rest' id other n e'))
]

pub ids-clear_references :
    (ds : List Definition) (provider : String) → ids (clear_references ds provider).0 ≡ ids ds
unfolding clear_references
ids-clear_references [] provider = refl
ids-clear_references (d ∷ ds) provider = ground (arith, ids-clear_references ds provider)
