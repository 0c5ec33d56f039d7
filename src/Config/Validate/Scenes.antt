-- ===== src/Config/Validate/Scenes.antt =====
-- The scenes that NormalizeCoreConfig leaves: valid, under distinct ids, with the two built-in ones.
use mathlib.Core.List.{map-append}
use fcitx5_vinput.Base.{
  String, ◌≡◌, refl, true, false, ◌||◌, List, [], ◌∷◌, ◌++◌, none, arith, inl, inr, str_eq,
  str_eq_iff, str_empty, contains, Fresh, Fresh-append, All, All-append, Bool-cases,
}
use fcitx5_vinput.Scene.{
  Definition, normalize_llm_max_candidates, is_builtin_scene_id, normalize_timeout_ms,
  normalize_context_lines, normalize_definition, validate_definition, raw_scene_id,
  command_scene_id,
}
use fcitx5_vinput.Scene.Lookup.{ids}
use fcitx5_vinput.Config.Normalize.{
  Prompts, make_builtin_scene, refresh_scene, keep_scenes, ensure_scene, normalize_scenes,
}

abbrev IsAccepted : Definition → Type 0
IsAccepted d = validate_definition d ≡ none

valid-id : (d : Definition) → validate_definition d ≡ none → str_empty d.id ≡ false
unfolding validate_definition
valid-id d v = ground arith

contains-append :
    (xs ys : List String) (s : String) → contains (xs ++ ys) s ≡ (contains xs s || contains ys s)
contains-append [] ys s = refl
contains-append (x ∷ xs) ys s = ground (arith, contains-append xs ys s)

-- The scenes kept so far and the ids seen so far.
record IsKept (r : List Definition × List String) : Type 0 where
  distinct : Fresh [] (ids r.0)
  accepted : All IsAccepted r.0
  seen : (s : String) → contains r.1 s ≡ contains (ids r.0) s

module _ (T : Prompts) where
  keep_scenes-Fresh :
      (seen : List String) (ds : List Definition) → Fresh seen (ids (keep_scenes T seen ds).0)
  unfolding keep_scenes
  keep_scenes-Fresh seen [] = tt
  keep_scenes-Fresh seen (d ∷ ds) = ground (
    arith,
    keep_scenes-Fresh seen ds,
    keep_scenes-Fresh ((refresh_scene T d).id ∷ seen) ds,
    valid-id (refresh_scene T d),
  )

  keep_scenes-All :
      (seen : List String) (ds : List Definition) → All IsAccepted (keep_scenes T seen ds).0
  unfolding keep_scenes
  keep_scenes-All seen [] = tt
  keep_scenes-All seen (d ∷ ds) =
      ground (arith, keep_scenes-All seen ds, keep_scenes-All ((refresh_scene T d).id ∷ seen) ds)

  keep_scenes-seen :
      (seen : List String) (ds : List Definition) (s : String)
      → contains (keep_scenes T seen ds).1 s
        ≡ (contains seen s || contains (ids (keep_scenes T seen ds).0) s)
  unfolding keep_scenes
  keep_scenes-seen seen [] s = ground arith
  keep_scenes-seen seen (d ∷ ds) s =
      ground
        (arith, keep_scenes-seen seen ds s, keep_scenes-seen ((refresh_scene T d).id ∷ seen) ds s)

  keep_scenes-IsKept : (ds : List Definition) → IsKept (keep_scenes T [] ds)
  keep_scenes-IsKept ds = record {
    distinct = keep_scenes-Fresh [] ds;
    accepted = keep_scenes-All [] ds;
    seen = keep_scenes-seen [] ds;
  }

  -- A scene that may be appended under its own id.
  abbrev IsBuiltinFor : String → Type 0
  IsBuiltinFor id =
      (validate_definition (make_builtin_scene T id) ≡ none) × ((make_builtin_scene T id).id ≡ id)

  ensure_scene-contains :
      (id other : String) (r : List Definition × List String)
      → IsBuiltinFor id
      → IsKept r
      → contains (ids (ensure_scene T id r).0) other ≡ (str_eq id other || contains (ids r.0) other)
  unfolding ensure_scene
  ensure_scene-contains id other (ds, seen) (v, e) k =
      let appended = contains-append (ids ds) ((make_builtin_scene T id).id ∷ []) other in
      elim (Bool-cases (contains seen id)) [
        | inl old ↦ ground (arith, str_eq_iff id other, k.seen id)
        | inr new ↦ rw (new, map-append (λ (d : Definition). d.id) ds _, appended, e) (ground arith)
      ]

  ensure_scene-IsKept :
      (id : String) (r : List Definition × List String)
      → IsBuiltinFor id
      → IsKept r
      → IsKept (ensure_scene T id r)
  unfolding ensure_scene
  ensure_scene-IsKept id (ds, seen) (v, e) k = elim (Bool-cases (contains seen id)) [
    | inl old ↦ rw (old, ensure_scene) k
    | inr new ↦
        rw (new, ensure_scene)
          (record {
            distinct = rw (map-append (λ (d : Definition). d.id) ds _) (
                Fresh-append [] (ids ds) (make_builtin_scene T id).id k.distinct (valid-id _ v) refl
                  (rw e (ground (arith, k.seen id))));
            accepted = All-append IsAccepted ds _ k.accepted (v, tt);
            seen = λ s. ground (arith, k.seen s, ensure_scene-contains id s (ds, seen) (v, e) k);
          })
  ]

  builtin_raw : IsBuiltinFor raw_scene_id
  unfolding make_builtin_scene validate_definition normalize_definition normalize_llm_max_candidates
      normalize_timeout_ms normalize_context_lines is_builtin_scene_id
  builtin_raw = (refl, refl)

  builtin_command : IsBuiltinFor command_scene_id
  unfolding make_builtin_scene validate_definition normalize_definition normalize_llm_max_candidates
      normalize_timeout_ms normalize_context_lines is_builtin_scene_id
  builtin_command = (refl, refl)

  abbrev both : List Definition → List Definition × List String
  both ds = ensure_scene T command_scene_id (ensure_scene T raw_scene_id (keep_scenes T [] ds))

  both-IsKept : (ds : List Definition) → IsKept (both ds)
  both-IsKept ds =
      ensure_scene-IsKept command_scene_id _ builtin_command
        (ensure_scene-IsKept raw_scene_id _ builtin_raw (keep_scenes-IsKept ds))

  pub normalize_scenes-Fresh : (ds : List Definition) → Fresh [] (ids (normalize_scenes T ds))
  unfolding normalize_scenes
  normalize_scenes-Fresh ds = let k = both-IsKept ds in k.distinct

  pub normalize_scenes-All :
      (ds : List Definition) → All (λ d. validate_definition d ≡ none) (normalize_scenes T ds)
  unfolding normalize_scenes
  normalize_scenes-All ds = let k = both-IsKept ds in k.accepted

  pub normalize_scenes-contains :
      (ds : List Definition)
      → (contains (ids (normalize_scenes T ds)) raw_scene_id ≡ true)
        × (contains (ids (normalize_scenes T ds)) command_scene_id ≡ true)
  unfolding normalize_scenes
  normalize_scenes-contains ds =
      let kept = keep_scenes-IsKept ds in
      let first = ensure_scene-IsKept raw_scene_id _ builtin_raw kept in
      (
        ground (
          arith,
          ensure_scene-contains raw_scene_id raw_scene_id _ builtin_raw kept,
          ensure_scene-contains command_scene_id raw_scene_id _ builtin_command first,
        ),
        ground (
          arith,
          ensure_scene-contains command_scene_id command_scene_id _ builtin_command first,
        ),
      )
