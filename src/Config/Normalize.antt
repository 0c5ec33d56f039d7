-- ===== src/Config/Normalize.antt =====
-- NormalizeCoreConfig (src/common/config/core_config_normalize.cpp). A `std::set` of seen ids is a
-- list. The long prompt texts are parameters. Messages on stderr are not modelled.
use fcitx5_vinput.Base.{
  String, Bool, true, not, ◌&&◌, ◌||◌, List, [], ◌∷◌, ◌++◌, if◌then◌else◌, str_eq, str_empty,
  contains, ℤ, pos, ltz,
}
use fcitx5_vinput.Scene.{
  Definition, new_definition, normalize_definition, validate_definition, find, is_some,
  raw_scene_id, command_scene_id, raw_scene_label_key, command_scene_label_key,
}
use fcitx5_vinput.Config.Types.{
  Platform, Environment, Process, AsrProvider, local_asr, command_asr, asr_provider_id, CoreConfig,
}
use fcitx5_vinput.Config.View.{asr_provider}

-- EraseEmptyEnvKeys, on the entries of the map.
unfoldable pub erase_empty_keys : Environment → Environment
erase_empty_keys [] = []
erase_empty_keys ((k, v) ∷ env) =
    if str_empty k then erase_empty_keys env else (k, v) ∷ erase_empty_keys env

-- The loop over the entries of a list: an empty id and an id seen before are skipped; then the id is
-- remembered, an entry that is not `usable` is skipped, and others are kept after `repair`. With the
-- entries kept come the ids seen at the end.
unfoldable pub keep_first {ℓ} :
    {A : Type ℓ} (id : A → String) (usable : A → Bool) (repair : A → A)
    → List String
    → List A
    → List A × List String
keep_first id usable repair seen [] = ([], seen)
keep_first id usable repair seen (a ∷ rest) =
    let skipped = keep_first id usable repair seen rest in
    let remembered = keep_first id usable repair (id a ∷ seen) rest in
    if str_empty (id a) || contains seen (id a)
    then skipped
    else (if usable a then (repair a ∷ remembered.0, remembered.1) else remembered)

abbrev pub any_entry {ℓ} : {A : Type ℓ} → A → Bool
any_entry a = true

unfoldable pub repair_process : Process → Process
repair_process p = record p { env = erase_empty_keys p.env }

unfoldable pub has_command : AsrProvider → Bool
has_command (local_asr p) = true
has_command (command_asr p) = not (str_empty p.command)

unfoldable pub repair_provider : AsrProvider → AsrProvider
repair_provider (local_asr p) = local_asr p
repair_provider (command_asr p) = command_asr (record p { env = erase_empty_keys p.env })

-- The prompt texts at the top of the file.
pub record Prompts : Type 0 where
  pub legacy_command : String
  pub short_tag_command : String
  pub default_command : String

module _ (T : Prompts) where
  unfoldable pub make_builtin_scene : String → Definition
  make_builtin_scene id =
      let scene : Definition = record new_definition { id = id; builtin = true } in
      normalize_definition (
        if str_eq id raw_scene_id
        then record scene { label = raw_scene_label_key; llm_max_candidates = pos 0 }
        else (if str_eq id command_scene_id
            then record scene { label = command_scene_label_key; prompt = T.default_command }
            else scene))

  -- A scene after the first two statements of its loop.
  unfoldable pub refresh_scene : Definition → Definition
  refresh_scene scene =
      let d = normalize_definition scene in
      if str_eq d.id command_scene_id
        && (str_empty d.prompt
            || (str_eq d.prompt T.legacy_command || str_eq d.prompt T.short_tag_command))
      then record d { prompt = T.default_command }
      else d

  -- The loop over the scenes: invalid scenes and ids seen before are skipped.
  unfoldable pub keep_scenes : List String → List Definition → List Definition × List String
  keep_scenes seen [] = ([], seen)
  keep_scenes seen (d ∷ ds) =
      let skipped = keep_scenes seen ds in
      let remembered = keep_scenes ((refresh_scene d).id ∷ seen) ds in
      if is_some (validate_definition (refresh_scene d)) || contains seen (refresh_scene d).id
      then skipped
      else (refresh_scene d ∷ remembered.0, remembered.1)

  -- The built-in scene is appended where its id was not seen.
  unfoldable pub ensure_scene :
      String → List Definition × List String → List Definition × List String
  ensure_scene id (ds, seen) =
      if contains seen id then (ds, seen) else (ds ++ make_builtin_scene id ∷ [], id ∷ seen)

  unfoldable pub normalize_scenes : List Definition → List Definition
  normalize_scenes ds =
      (ensure_scene command_scene_id (ensure_scene raw_scene_id (keep_scenes [] ds))).0

  module _ (P : Platform) where
    open P use {Double, less, literal}

    -- `std::clamp`
    unfoldable pub clamp : Double → Double → Double → Double
    clamp v lo hi = if less v lo then lo else if less hi v then hi else v

    -- `std::clamp(speechPadMs, 0, 2000)`
    unfoldable pub clamp_pad : ℤ → ℤ
    clamp_pad n = if ltz n (pos 0) then pos 0 else if ltz (pos 2000) n then pos 2000 else n

    unfoldable pub clamp_knobs : CoreConfig P → CoreConfig P
    clamp_knobs c = record c {
      global = record (c.global) {
        duck_output_volume = clamp c.global.duck_output_volume (literal 0 1) (literal 10 1);
      };
      asr = record (c.asr) {
        input_gain = clamp c.asr.input_gain (literal 1 1) (literal 100 1);
        vad = record (c.asr.vad) {
          threshold = clamp c.asr.vad.threshold (literal 5 2) (literal 95 2);
          min_speech_duration = clamp c.asr.vad.min_speech_duration (literal 5 2) (literal 200 2);
          min_silence_duration = clamp c.asr.vad.min_silence_duration (literal 5 2) (literal 500 2);
          speech_pad_ms = clamp_pad c.asr.vad.speech_pad_ms;
        };
      };
    }

    -- The blocks that filter the lists. Triggers and receivers share one set of ids.
    unfoldable pub filter_entries : CoreConfig P → CoreConfig P
    filter_entries c =
        let (triggers, client_ids) =
          keep_first (λ p. p.id) any_entry repair_process [] c.triggers in
        record c {
          base_urls = (keep_first (λ u. u) any_entry (λ u. u) [] c.base_urls).0;
          llm_providers = (keep_first (λ p. p.id) any_entry (λ p. p) [] c.llm_providers).0;
          llm_adapters = (keep_first (λ p. p.id) any_entry repair_process [] c.llm_adapters).0;
          triggers = triggers;
          receivers = (keep_first (λ p. p.id) any_entry repair_process client_ids c.receivers).0;
          asr = record (c.asr) {
            providers =
                (keep_first asr_provider_id has_command repair_provider [] c.asr.providers).0;
          };
          scenes = normalize_scenes c.scenes;
        }

    unfoldable pub drop_dangling_provider : CoreConfig P → CoreConfig P
    drop_dangling_provider c =
        if not (str_empty c.asr.active_provider)
          && not (is_some (asr_provider P c c.asr.active_provider))
        then record c { asr = record (c.asr) { active_provider = "" } }
        else c

    unfoldable pub drop_dangling_scene : CoreConfig P → CoreConfig P
    drop_dangling_scene c =
        if not (str_empty c.active_scene) && not (is_some (find c.scenes c.active_scene))
        then record c { active_scene = "" }
        else c

    unfoldable pub normalize_core_config : CoreConfig P → CoreConfig P
    normalize_core_config c =
        drop_dangling_scene (drop_dangling_provider (filter_entries (clamp_knobs c)))
