-- ===== src/Config/Validate.antt =====
-- ValidateCoreConfig (src/common/config/core_config_validate.cpp): the error text, or `none`.
pub mod Fresh
pub mod Scenes
pub mod Normal
pub mod Tests
use Prim.Native.String
use fcitx5_vinput.Base.{
  String, Bool, true, false, not, ◌&&◌, ◌||◌, List, [], ◌∷◌, Option, none, some, if◌then◌else◌,
  str_eq, str_empty, contains,
}
use fcitx5_vinput.Scene.{
  Definition, validate_definition, find, is_some, raw_scene_id, command_scene_id,
}
use fcitx5_vinput.Config.Types.{
  Platform, AsrProvider, local_asr, command_asr, asr_provider_id, CoreConfig,
}
use fcitx5_vinput.Config.View.{asr_provider}

abbrev join : String → String → String → String
join a b c = String.◌++◌ a (String.◌++◌ b c)

-- CheckUniqueId
unfoldable pub check_unique_id {ℓ} :
    {A : Type ℓ} (id : A → String) → String → List String → List A → Option String
check_unique_id id label seen [] = none
check_unique_id id label seen (a ∷ rest) =
    let next = check_unique_id id label (id a ∷ seen) rest in
    if str_empty (id a)
    then some (String.◌++◌ label " id must not be empty.")
    else if contains seen (id a)
    then some (join "Duplicate " label (join " id '" (id a) "'."))
    else next

unfoldable pub lacks_command : AsrProvider → Bool
lacks_command (local_asr p) = false
lacks_command (command_asr p) = str_empty p.command

unfoldable pub check_asr_providers : List String → List AsrProvider → Option String
check_asr_providers seen [] = none
check_asr_providers seen (p ∷ ps) =
    let next = check_asr_providers (asr_provider_id p ∷ seen) ps in
    if str_empty (asr_provider_id p)
    then some "ASR provider id must not be empty."
    else if contains seen (asr_provider_id p)
    then some (join "Duplicate ASR provider id '" (asr_provider_id p) "'.")
    else if lacks_command p
    then some
        (join "Command ASR provider '" (asr_provider_id p) "' must not have an empty command.")
    else next

-- The loop over the scenes and the two tests behind it.
unfoldable pub check_scenes : Bool → Bool → List String → List Definition → Option String
check_scenes has_raw has_command seen [] =
    if not has_raw
    then some "Builtin scene '__raw__' is required."
    else if not has_command
    then some "Builtin scene '__command__' is required."
    else none
check_scenes has_raw has_command seen (d ∷ ds) =
    let next =
      check_scenes (str_eq d.id raw_scene_id || has_raw)
        (str_eq d.id command_scene_id || has_command) (d.id ∷ seen) ds in
    elim (validate_definition d) [
      | some e ↦ some (join "Invalid scene '" d.id (String.◌++◌ "': " e))
      | none ↦ if contains seen d.id then some (join "Duplicate scene id '" d.id "'.") else next
    ]

-- The statements run in order, and the first error ends them.
infixr 5 ◌then_check◌
abbrev ◌then_check◌ : Option String → Option String → Option String
some e then_check next = some e
none then_check next = next

module _ (P : Platform) where
  unfoldable pub check_active_provider : CoreConfig P → Option String
  check_active_provider c =
      if not (str_empty c.asr.active_provider)
        && not (is_some (asr_provider P c c.asr.active_provider))
      then some (join "Active ASR provider '" c.asr.active_provider "' does not exist.")
      else none

  unfoldable pub check_active_scene : CoreConfig P → Option String
  check_active_scene c =
      if not (str_empty c.active_scene) && not (is_some (find c.scenes c.active_scene))
      then some (join "Active scene '" c.active_scene "' does not exist.")
      else none

  unfoldable pub validate_core_config : CoreConfig P → Option String
  validate_core_config c =
      check_unique_id (λ p. p.id) "LLM provider" [] c.llm_providers
      then_check check_unique_id (λ p. p.id) "LLM adapter" [] c.llm_adapters
      then_check check_asr_providers [] c.asr.providers
      then_check check_active_provider c
      then_check check_scenes false false [] c.scenes
      then_check check_active_scene c
