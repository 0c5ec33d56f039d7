-- ===== src/Config/Validate/Tests.antt =====
-- Normalization and validation of a small configuration, with doubles as natural numbers.
use Prim.Native.Nat.{ℕ}
use fcitx5_vinput.Base.{ltb, String, ◌≡◌, true, [], ◌∷◌, none, pos, negsuc}
use fcitx5_vinput.Scene.{new_definition}
use fcitx5_vinput.Config.Types.{Platform, command_asr, Process, CommandAsrProvider, CoreConfig}
use fcitx5_vinput.Config.Normalize.{Prompts, normalize_core_config}
use fcitx5_vinput.Config.Validate.{validate_core_config}
use fcitx5_vinput.Config.Validate.Normal.{normalize_core_config-IsAccepted}

abbrev pub prompts : Prompts
prompts = record { legacy_command = "a"; short_tag_command = "b"; default_command = "c" }

abbrev pub platform : Platform
platform = record { Double = ℕ; less = ltb; literal = λ m e. m; Json = ℕ }

abbrev process : String → Process
process id = record { id = id; command = "run"; args = []; env = ("", "x") ∷ []; auto_start = true }

abbrev command_provider : CommandAsrProvider
command_provider = record { id = "cloud"; timeout_ms = pos 0; command = ""; args = []; env = [] }

-- One client id is in both lists, the active provider has no command, and there are no scenes.
abbrev pub broken : CoreConfig platform
broken = record {
  version = "1";
  base_urls = "u" ∷ "" ∷ "u" ∷ [];
  global = record {
    capture_device = "mic";
    duck_output_while_recording = true;
    duck_output_volume = 3;
  };
  llm_providers = [];
  llm_adapters = process "a" ∷ process "a" ∷ [];
  asr = record {
    active_provider = "cloud";
    normalize_audio = true;
    input_gain = 5;
    vad = record {
      enabled = true;
      threshold = 9;
      min_speech_duration = 9;
      min_silence_duration = 9;
      speech_pad_ms = negsuc 3;
    };
    providers = command_asr command_provider ∷ [];
  };
  active_scene = "gone";
  scenes = record new_definition { id = "" } ∷ [];
  triggers = process "t" ∷ process "t" ∷ [];
  receivers = process "t" ∷ process "r" ∷ [];
}

normalize_core_config-IsAccepted_example :
    validate_core_config platform (normalize_core_config prompts platform broken) ≡ none
normalize_core_config-IsAccepted_example = normalize_core_config-IsAccepted prompts platform broken
