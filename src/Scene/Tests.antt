-- ===== src/Scene/Tests.antt =====
-- Operations of Scene on a small configuration, and its theorems there.
use fcitx5_vinput.Base.{
  ◌≡◌, refl, inr, true, List, [], ◌∷◌, some, if◌then◌else◌, str_eq, pos, negsuc,
}
use fcitx5_vinput.Scene.{
  Definition, new_definition, Config, normalize_llm_max_candidates, is_builtin_scene_id,
  normalize_timeout_ms, normalize_context_lines, normalize_definition, validate_definition, find,
  is_builtin_scene, add_scene, remove_scene, erase_in, front_id, clear_provider_references,
}
use fcitx5_vinput.Scene.Invariant.{IsValid}
use fcitx5_vinput.Scene.Operations.{
  Operation, add, update, remove, clear_references_of, run, run-IsValid, HasActive, run-HasActive,
  HasBuiltin, run-HasBuiltin,
}
use fcitx5_vinput.Scene.Providers.{
  find-add_scene, references, forget_all, clear_provider_references_lem,
}

abbrev raw_scene : Definition
raw_scene = record new_definition { id = "__raw__"; llm_max_candidates = pos 0; builtin = true }

abbrev chat_scene : Definition
chat_scene = record new_definition { id = "chat"; provider_id = "openai"; model = "m" }

abbrev wild_scene : Definition
wild_scene = record new_definition {
  id = "wild";
  llm_max_candidates = pos 30;
  timeout_ms = negsuc 4;
  context_lines = negsuc 0;
}

abbrev two_scenes : Config
two_scenes = record { active_scene_id = "chat"; scenes = raw_scene ∷ chat_scene ∷ [] }

abbrev history : List Operation
history =
    add wild_scene
    ∷ remove "__raw__" true
    ∷ remove "chat" true
    ∷ update "wild" chat_scene
    ∷ clear_references_of "openai"
    ∷ []

wild_scene_normalized :
    normalize_definition wild_scene
    ≡ record wild_scene { llm_max_candidates = pos 9; timeout_ms = pos 4000; context_lines = pos 0 }
unfolding normalize_definition normalize_llm_max_candidates normalize_timeout_ms
    normalize_context_lines is_builtin_scene_id
wild_scene_normalized = refl

remove_active_forced : (remove_scene two_scenes "chat" true).0.active_scene_id ≡ "__raw__"
unfolding remove_scene find is_builtin_scene erase_in front_id
remove_active_forced = refl

two_scenes-IsValid : IsValid two_scenes
unfolding validate_definition normalize_definition normalize_llm_max_candidates normalize_timeout_ms
    normalize_context_lines is_builtin_scene_id
two_scenes-IsValid = record {
  each = (record { valid = refl; normal = refl }, (record { valid = refl; normal = refl }, tt));
  distinct = (refl, refl, (refl, refl, tt));
}

two_scenes-HasActive : HasActive two_scenes
unfolding find
two_scenes-HasActive = inr refl

two_scenes-HasBuiltin : HasBuiltin "__raw__" two_scenes
unfolding find is_builtin_scene
two_scenes-HasBuiltin = refl

run-IsValid_example : IsValid (run two_scenes history)
run-IsValid_example = run-IsValid two_scenes history two_scenes-IsValid

run-HasActive_example : HasActive (run two_scenes history)
run-HasActive_example = run-HasActive two_scenes history two_scenes-HasActive

run-HasBuiltin_example : HasBuiltin "__raw__" (run two_scenes history)
run-HasBuiltin_example = run-HasBuiltin two_scenes history "__raw__" two_scenes-HasBuiltin

find-add_scene_example : find (add_scene two_scenes wild_scene).0.scenes "wild" ≡ (
    if str_eq (normalize_definition wild_scene).id "wild"
    then some (normalize_definition wild_scene)
    else find two_scenes.scenes "wild")
unfolding add_scene validate_definition normalize_definition normalize_llm_max_candidates
    normalize_timeout_ms normalize_context_lines is_builtin_scene_id find
find-add_scene_example = find-add_scene two_scenes wild_scene "wild" refl

clear_provider_references_lem_example :
    let r = clear_provider_references two_scenes "openai" in
    (r.0.scenes ≡ forget_all "openai" two_scenes.scenes)
    × (r.0.active_scene_id ≡ "chat")
    × (r.1 ≡ references two_scenes.scenes "openai")
    × (references r.0.scenes "openai" ≡ 0)
    × ((clear_provider_references r.0 "openai").1 ≡ 0)
clear_provider_references_lem_example = clear_provider_references_lem two_scenes "openai" refl
