-- ===== src/Addon/Engine/PaletteItems.antt =====
-- VinputEngine: reloadPaletteItems and the commands of initializePaletteRegistry
-- (src/addon/menu/vinput_menu.cpp), in a build with local recognition and without the texts that
-- only the panel shows.
use fcitx5_vinput.Base.{ℕ, String, true, false, List, [], ◌∷◌, ◌++◌, map, if◌then◌else◌, str_empty}
use fcitx5_vinput.Scene.{Definition}
use fcitx5_vinput.Config.Types.{Platform, Process, AsrProvider, local_asr, command_asr}
use fcitx5_vinput.Addon.Panel.{
  PaletteCategory, asr_category, scene_category, command_model_category, adapter_category,
  PaletteItem,
}
use fcitx5_vinput.Addon.Engine.{Engine, World}

abbrev bare_item : PaletteCategory → PaletteItem
bare_item category = record {
  category = category;
  provider_id = "";
  model_id = "";
  scene_id = "";
  adapter_id = "";
  adapter_running = false;
  is_command_entry = false;
  command_token = [];
}

-- The entry of a command, with its alias.
abbrev command_entry : PaletteCategory → ℕ → PaletteItem
command_entry category alias = record (bare_item category) {
  is_command_entry = true;
  command_token = alias ∷ [];
}

-- /m, /a, /s and /p
abbrev pub command_entries : List PaletteItem
command_entries =
    command_entry command_model_category 109
    ∷ command_entry asr_category 97
    ∷ command_entry scene_category 115
    ∷ command_entry adapter_category 112
    ∷ []

abbrev pub model_item : String × String → PaletteItem
model_item (provider, model) = record (bare_item command_model_category) {
  provider_id = provider;
  model_id = model;
}

abbrev pub local_model_item : String → PaletteItem
local_model_item id = record (bare_item asr_category) { provider_id = "sherpa-onnx"; model_id = id }

-- The providers that are no local ones and have an id.
abbrev pub provider_items : List AsrProvider → List PaletteItem
provider_items [] = []
provider_items (local_asr l ∷ ps) = provider_items ps
provider_items (command_asr c ∷ ps) =
    let rest = provider_items ps in
    if str_empty c.id then rest else record (bare_item asr_category) { provider_id = c.id } ∷ rest

abbrev pub scene_item : Definition → PaletteItem
scene_item scene = record (bare_item scene_category) { scene_id = scene.id }

module _ {P : Platform} (w : World P) where
  abbrev pub adapter_item : Process → PaletteItem
  adapter_item adapter = record (bare_item adapter_category) {
    adapter_id = adapter.id;
    adapter_running = w.is_running adapter.id;
  }

  unfoldable pub reload_palette_items : Engine → Engine
  reload_palette_items e = record e {
    palette_items =
        command_entries
        ++ map model_item w.active_models
        ++ map local_model_item w.local_models
        ++ provider_items w.core_config.asr.providers
        ++ map scene_item w.core_config.scenes
        ++ map adapter_item w.core_config.llm_adapters;
  }
