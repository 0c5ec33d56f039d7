-- ===== src/Scene.antt =====
-- Post-processing scenes: src/common/scene/postprocess_scene.h and .cpp. A function that reports
-- through `std::string* error` returns the text that it writes there, and `none` where it succeeds.
-- Labels are kept as the message ids that `_` is given.
pub mod Lookup
pub mod Cases
pub mod Invariant
pub mod Operations
pub mod Providers
pub mod Tests
use Prim.Native.String
use fcitx5_vinput.Base.{
  ℕ, suc, String, Bool, true, false, not, ◌&&◌, ◌||◌, List, [], ◌∷◌, ◌++◌, Option, none, some,
  if◌then◌else◌, str_eq, str_empty, ℤ, pos, ltz, lez,
}

pub record Definition : Type 0 where
  pub id : String
  pub label : String
  pub prompt : String
  pub provider_id : String
  pub model : String
  pub llm_max_candidates : ℤ
  pub timeout_ms : ℤ
  pub context_lines : ℤ
  pub raw_cand : Bool
  pub raw_prev : Bool
  pub builtin : Bool

-- `Definition{}`
abbrev pub new_definition : Definition
new_definition = record {
  id = "";
  label = "";
  prompt = "";
  provider_id = "";
  model = "";
  llm_max_candidates = pos 1;
  timeout_ms = pos 4000;
  context_lines = pos 0;
  raw_cand = true;
  raw_prev = true;
  builtin = false;
}

pub record Config : Type 0 where
  pub active_scene_id : String
  pub scenes : List Definition

abbrev pub raw_scene_id : String
raw_scene_id = "__raw__"

abbrev pub command_scene_id : String
command_scene_id = "__command__"

abbrev pub raw_scene_label_key : String
raw_scene_label_key = "__label_raw__"

abbrev pub command_scene_label_key : String
command_scene_label_key = "__label_command__"

abbrev pub max_llm_max_candidates : ℤ
max_llm_max_candidates = pos 9

abbrev pub default_timeout_ms : ℤ
default_timeout_ms = pos 4000

unfoldable pub normalize_llm_max_candidates : ℤ → ℤ
normalize_llm_max_candidates n =
    if ltz n (pos 0)
    then pos 0
    else if ltz max_llm_max_candidates n
    then max_llm_max_candidates
    else n

unfoldable pub is_builtin_scene_id : String → Bool
is_builtin_scene_id id = str_eq id raw_scene_id || str_eq id command_scene_id

pub is_builtin_scene_label_key : String → Bool
is_builtin_scene_label_key label =
    str_eq label raw_scene_label_key || str_eq label command_scene_label_key

unfoldable pub normalize_timeout_ms : ℤ → ℤ
normalize_timeout_ms n = if lez n (pos 0) then default_timeout_ms else n

-- `std::max(context_lines, 0)`
unfoldable pub normalize_context_lines : ℤ → ℤ
normalize_context_lines n = if ltz n (pos 0) then pos 0 else n

unfoldable pub normalize_definition : Definition → Definition
normalize_definition d = record d {
  builtin = is_builtin_scene_id d.id || d.builtin;
  llm_max_candidates = normalize_llm_max_candidates d.llm_max_candidates;
  timeout_ms = normalize_timeout_ms d.timeout_ms;
  context_lines = normalize_context_lines d.context_lines;
}

abbrev bool_eq : Bool → Bool → Bool
bool_eq true b = b
bool_eq false b = not b

-- `require_id` is true in every call.
unfoldable pub validate_definition : Definition → Option String
validate_definition d =
    if str_empty d.id
    then some "Scene id must not be empty."
    else if ltz d.llm_max_candidates (pos 0)
    then some "Scene LLM max candidates must be 0 or greater."
    else if lez d.timeout_ms (pos 0)
    then some "Scene timeout must be greater than 0."
    else if not (bool_eq (not (str_empty d.provider_id)) (not (str_empty d.model)))
    then some "Scene provider and model must be configured together."
    else none

unfoldable pub find : List Definition → String → Option Definition
find [] id = none
find (d ∷ ds) id = if str_eq d.id id then some d else find ds id

-- `Find(config, id) != nullptr`
abbrev pub is_some {ℓ} : {A : Type ℓ} → Option A → Bool
is_some none = false
is_some (some a) = true

abbrev or_else {ℓ} : {A : Type ℓ} → Option A → A → A
or_else none a = a
or_else (some b) a = b

pub resolve : Config → String → Definition
resolve c id = or_else (find c.scenes id) (or_else (find c.scenes c.active_scene_id) new_definition)

builtin_scene_label : String → Option String
builtin_scene_label id =
    if str_eq id raw_scene_id
    then some "Raw"
    else if str_eq id command_scene_id
    then some "Command"
    else none

builtin_scene_label_from_key : String → Option String
builtin_scene_label_from_key label =
    if str_eq label raw_scene_label_key
    then some "Raw"
    else if str_eq label command_scene_label_key
    then some "Command"
    else none

pub display_label : Definition → String
unfolding builtin_scene_label builtin_scene_label_from_key
display_label d =
    or_else (builtin_scene_label_from_key d.label)
      (if not (str_empty d.label) then d.label else or_else (builtin_scene_label d.id) d.id)

abbrev quoted : String → String → String → String
quoted before id after = String.◌++◌ before (String.◌++◌ id after)

unfoldable pub add_scene : Config → Definition → Config × Option String
add_scene c def =
    let d = normalize_definition def in
    elim (validate_definition d) [
      | some e ↦ (c, some e)
      | none ↦
          if is_some (find c.scenes d.id)
          then (c, some (quoted "Scene id '" d.id "' already exists."))
          else (record c { scenes = c.scenes ++ d ∷ [] }, none)
    ]

-- The entry that UpdateScene writes over a scene.
unfoldable pub updated_scene : Definition → Definition → Definition
updated_scene scene def = normalize_definition (record scene {
  label = def.label;
  prompt = def.prompt;
  provider_id = def.provider_id;
  model = def.model;
  context_lines = def.context_lines;
  llm_max_candidates = def.llm_max_candidates;
  timeout_ms = def.timeout_ms;
  raw_cand = def.raw_cand;
  raw_prev = def.raw_prev;
})

-- The loop of UpdateScene: the first scene with the id is written over, if the new entry is valid.
unfoldable pub update_in : List Definition → String → Definition → List Definition × Option String
update_in [] id def = ([], some (quoted "Scene id '" id "' not found."))
update_in (d ∷ ds) id def =
    let (rest, e) = update_in ds id def in
    if str_eq d.id id
    then elim (validate_definition (updated_scene d def)) [
      | some e' ↦ (d ∷ ds, some e')
      | none ↦ (updated_scene d def ∷ ds, none)
    ]
    else (d ∷ rest, e)

unfoldable pub update_scene : Config → String → Definition → Config × Option String
update_scene c id def =
    let (scenes, e) = update_in c.scenes id def in (record c { scenes = scenes }, e)

-- The first scene with the id is erased; `none` where there is none.
unfoldable pub erase_in : List Definition → String → Option (List Definition)
erase_in [] id = none
erase_in (d ∷ ds) id =
    if str_eq d.id id
    then some ds
    else elim (erase_in ds id) [ none ↦ none | some rest ↦ some (d ∷ rest) ]

unfoldable pub front_id : List Definition → String
front_id [] = ""
front_id (d ∷ ds) = d.id

unfoldable pub is_builtin_scene : Option Definition → Bool
is_builtin_scene none = false
is_builtin_scene (some d) = d.builtin

unfoldable pub remove_scene : Config → String → Bool → Config × Option String
remove_scene c id force =
    if is_builtin_scene (find c.scenes id)
    then (c, some (quoted "Cannot remove built-in scene '" id "'."))
    else if not force && str_eq c.active_scene_id id
    then (c, some (quoted "Cannot remove active scene '" id "'."))
    else elim (erase_in c.scenes id) [
      | none ↦ (c, some (quoted "Scene id '" id "' not found."))
      | some rest ↦ (
        record {
          active_scene_id =
              if str_eq c.active_scene_id id then front_id rest else c.active_scene_id;
          scenes = rest;
        },
        none,
      )
    ]

unfoldable pub set_active_scene : Config → String → Config × Option String
set_active_scene c id =
    if is_some (find c.scenes id)
    then (record c { active_scene_id = id }, none)
    else (c, some (quoted "Scene id '" id "' not found."))

-- The loop of ClearProviderReferences, with the number of scenes that it changes.
unfoldable pub clear_references : List Definition → String → List Definition × ℕ
clear_references [] provider = ([], 0)
clear_references (d ∷ ds) provider =
    let (rest, updated) = clear_references ds provider in
    if str_eq d.provider_id provider
    then (record d { provider_id = ""; model = "" } ∷ rest, suc updated)
    else (d ∷ rest, updated)

unfoldable pub clear_provider_references : Config → String → Config × ℕ
clear_provider_references c provider =
    if str_empty provider
    then (c, 0)
    else (let (scenes, updated) = clear_references c.scenes provider in
        (record c { scenes = scenes }, updated))
