-- ===== src/Scene/Invariant.antt =====
-- The invariant of a scene configuration, and that every operation of Scene keeps it.
use fcitx5_vinput.Base.{
  String, ◌≡◌, inl, inr, refl, Bool, false, ◌||◌, List, [], ◌∷◌, none, some, arith, str_empty, ℤ,
  pos, negsuc, Fresh, Fresh-mono, Fresh-append, All, All-append, ◌∙◌,
}
use mathlib.Core.List.{map-append}
use fcitx5_vinput.Scene.{
  Definition, Config, normalize_timeout_ms, normalize_context_lines, normalize_llm_max_candidates,
  is_builtin_scene_id, normalize_definition, validate_definition, add_scene, updated_scene,
  update_in, update_scene, erase_in, remove_scene, set_active_scene, clear_references,
  clear_provider_references,
}
use fcitx5_vinput.Scene.Cases.{
  add_scene_cases, remove_scene_cases, set_active_scene_cases, clear_provider_references_cases,
}
use fcitx5_vinput.Scene.Lookup.{
  ids, contains-ids, erase_in_cases, ids-update_in, ids-clear_references,
}

-- A scene that is valid, and that normalising leaves alone.
pub record IsGood (d : Definition) : Type 0 where
  pub valid : validate_definition d ≡ none
  pub normal : normalize_definition d ≡ d

-- Valid scenes under distinct ids that are not empty.
pub record IsValid (c : Config) : Type 0 where
  pub each : All IsGood c.scenes
  pub distinct : Fresh [] (ids c.scenes)

pub normalize_llm_max_candidates_idem :
    (n : ℤ)
    → normalize_llm_max_candidates (normalize_llm_max_candidates n) ≡ normalize_llm_max_candidates n
unfolding normalize_llm_max_candidates
normalize_llm_max_candidates_idem (pos n) = ground arith
normalize_llm_max_candidates_idem (negsuc n) = ground arith

normalize_timeout_ms_idem :
    (n : ℤ) → normalize_timeout_ms (normalize_timeout_ms n) ≡ normalize_timeout_ms n
unfolding normalize_timeout_ms
normalize_timeout_ms_idem (pos n) = ground arith
normalize_timeout_ms_idem (negsuc n) = ground arith

normalize_context_lines_idem :
    (n : ℤ) → normalize_context_lines (normalize_context_lines n) ≡ normalize_context_lines n
unfolding normalize_context_lines
normalize_context_lines_idem (pos n) = ground arith
normalize_context_lines_idem (negsuc n) = ground arith

or_idem : (a b : Bool) → (a || (a || b)) ≡ (a || b)
or_idem a b = ground arith

-- Normalising a scene twice is normalising it once.
pub normalize_definition_idem :
    (d : Definition) → normalize_definition (normalize_definition d) ≡ normalize_definition d
unfolding normalize_definition
normalize_definition_idem d = λ i. record (normalize_definition d) {
  llm_max_candidates = normalize_llm_max_candidates_idem d.llm_max_candidates i;
  timeout_ms = normalize_timeout_ms_idem d.timeout_ms i;
  context_lines = normalize_context_lines_idem d.context_lines i;
  builtin = or_idem (is_builtin_scene_id d.id) d.builtin i;
}

normalize-IsGood :
    (d : Definition)
    → validate_definition (normalize_definition d) ≡ none
    → IsGood (normalize_definition d)
normalize-IsGood d v = record { valid = v; normal = normalize_definition_idem d }

valid-id : (d : Definition) → validate_definition d ≡ none → str_empty d.id ≡ false
unfolding validate_definition
valid-id d v = ground arith

updated-IsGood :
    (d def : Definition)
    → validate_definition (updated_scene d def) ≡ none
    → IsGood (updated_scene d def)
unfolding updated_scene
updated-IsGood d def v = normalize-IsGood _ v

cleared-IsGood : (d : Definition) → IsGood d → IsGood (record d { provider_id = ""; model = "" })
unfolding validate_definition normalize_definition
cleared-IsGood d g = record {
  valid = let v = g.valid in ground arith;
  normal = λ i. record (g.normal i) { provider_id = ""; model = "" };
}

update_in-All :
    (ds : List Definition) (id : String) (def : Definition)
    → All IsGood ds
    → All IsGood (update_in ds id def).0
unfolding update_in
update_in-All [] id def a = tt
update_in-All (d ∷ ds) id def (g, a) =
    ground (arith, update_in-All ds id def a, updated-IsGood d def)

erase_in-All :
    (ds rest : List Definition) (id : String)
    → erase_in ds id ≡ some rest
    → All IsGood ds
    → All IsGood rest
erase_in-All [] rest id e a = unfold erase_in in cc
erase_in-All (d ∷ ds) rest id e (g, a) = elim (erase_in_cases d ds rest id e) [
  | inl (hit, e') ↦ rw e' a
  | inr (rest', miss, e', e'') ↦ rw e'' (g, erase_in-All ds rest' id e' a)
]

erase_in-Fresh :
    (seen : List String) (ds rest : List Definition) (id : String)
    → erase_in ds id ≡ some rest
    → Fresh seen (ids ds)
    → Fresh seen (ids rest)
erase_in-Fresh seen [] rest id e f = unfold erase_in in cc
erase_in-Fresh seen (d ∷ ds) rest id e (m, c, f) = elim (erase_in_cases d ds rest id e) [
  | inl (hit, e') ↦ rw e' (Fresh-mono seen (d.id ∷ seen) (ids ds) (λ s h. ground arith) f)
  | inr (rest', miss, e', e'') ↦ rw e'' (m, c, erase_in-Fresh (d.id ∷ seen) ds rest' id e' f)
]

clear_references-All :
    (ds : List Definition) (p : String) → All IsGood ds → All IsGood (clear_references ds p).0
unfolding clear_references
clear_references-All [] p a = tt
clear_references-All (d ∷ ds) p (g, a) =
    ground (arith, clear_references-All ds p a, cleared-IsGood d g)

pub add_scene-IsValid : (c : Config) (def : Definition) → IsValid c → IsValid (add_scene c def).0
add_scene-IsValid c def v = add_scene_cases IsValid c v def λ h new. record {
  each = All-append IsGood c.scenes _ v.each (normalize-IsGood def h, tt);
  distinct = rw (map-append (λ (d : Definition). d.id) c.scenes _) (
      Fresh-append [] (ids c.scenes) (normalize_definition def).id v.distinct
        (valid-id (normalize_definition def) h) refl
        (contains-ids c.scenes (normalize_definition def).id ∙ new));
}

pub update_scene-IsValid :
    (c : Config) (id : String) (def : Definition) → IsValid c → IsValid (update_scene c id def).0
unfolding update_scene
update_scene-IsValid c id def v = record {
  each = update_in-All c.scenes id def v.each;
  distinct = rw (ids-update_in c.scenes id def) v.distinct;
}

pub remove_scene-IsValid :
    (c : Config) (id : String) (force : Bool) → IsValid c → IsValid (remove_scene c id force).0
remove_scene-IsValid c id force v = remove_scene_cases IsValid c v id force λ rest _ e. record {
  each = erase_in-All c.scenes rest id e v.each;
  distinct = erase_in-Fresh [] c.scenes rest id e v.distinct;
}

pub clear_provider_references-IsValid :
    (c : Config) (p : String) → IsValid c → IsValid (clear_provider_references c p).0
clear_provider_references-IsValid c p v = clear_provider_references_cases IsValid c v p (record {
  each = clear_references-All c.scenes p v.each;
  distinct = rw (ids-clear_references c.scenes p) v.distinct;
})

pub set_active_scene-IsValid :
    (c : Config) (id : String) → IsValid c → IsValid (set_active_scene c id).0
set_active_scene-IsValid c id v =
    set_active_scene_cases IsValid c v id λ _. record { each = v.each; distinct = v.distinct }
