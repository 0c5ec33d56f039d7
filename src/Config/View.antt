-- ===== src/Config/View.antt =====
-- CoreConfigView (src/common/config/core_config_view.cpp).
use fcitx5_vinput.Base.{String, List, [], ◌∷◌, Option, none, some, if◌then◌else◌, str_eq, str_empty}
use fcitx5_vinput.Scene.{Definition, command_scene_id}
use fcitx5_vinput.Scene
use fcitx5_vinput.Config.Types.{
  Platform, Process, LocalAsrProvider, AsrProvider, local_asr, command_asr, asr_provider_id,
  LlmProvider, CoreConfig,
}

-- The loop that looks for an entry by its id.
unfoldable pub find_by {ℓ} : {A : Type ℓ} → (A → String) → List A → String → Option A
find_by key [] id = none
find_by key (a ∷ as') id = if str_eq (key a) id then some a else find_by key as' id

abbrev find_named {ℓ} : {A : Type ℓ} → (A → String) → List A → String → Option A
find_named key entries id = if str_empty id then none else find_by key entries id

-- The first provider that is a LocalAsrProvider.
pub first_local : List AsrProvider → Option LocalAsrProvider
first_local [] = none
first_local (local_asr p ∷ ps) = some p
first_local (command_asr p ∷ ps) = first_local ps

as_local : Option AsrProvider → Option LocalAsrProvider
as_local none = none
as_local (some (local_asr p)) = some p
as_local (some (command_asr p)) = none

module _ (P : Platform) where
  pub llm_provider : CoreConfig P → String → Option (LlmProvider P)
  llm_provider c id = find_named (λ p. p.id) c.llm_providers id

  pub llm_adapter : CoreConfig P → String → Option Process
  llm_adapter c id = find_named (λ p. p.id) c.llm_adapters id

  pub trigger : CoreConfig P → String → Option Process
  trigger c id = find_named (λ p. p.id) c.triggers id

  pub receiver : CoreConfig P → String → Option Process
  receiver c id = find_named (λ p. p.id) c.receivers id

  unfoldable pub asr_provider : CoreConfig P → String → Option AsrProvider
  asr_provider c id = find_named asr_provider_id c.asr.providers id

  unfoldable pub active_asr_provider : CoreConfig P → Option AsrProvider
  active_asr_provider c = asr_provider c c.asr.active_provider

  pub active_local_asr_provider : CoreConfig P → Option LocalAsrProvider
  active_local_asr_provider c = as_local (active_asr_provider c)

  pub preferred_local_asr_provider : CoreConfig P → Option LocalAsrProvider
  preferred_local_asr_provider c = elim (active_local_asr_provider c) [
    | some p ↦ some p
    | none ↦ first_local c.asr.providers
  ]

  pub preferred_local_model : CoreConfig P → String
  preferred_local_model c = elim (preferred_local_asr_provider c) [ none ↦ "" | some p ↦ p.model ]

  unfoldable pub command_scene : CoreConfig P → Option Definition
  command_scene c = Scene.find c.scenes command_scene_id
