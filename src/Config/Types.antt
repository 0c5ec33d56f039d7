-- ===== src/Config/Types.antt =====
-- src/common/config/core_config_types.h. Floating-point numbers and JSON values are not
-- implemented by the program: `Platform` has their types, the comparison of doubles, and the
-- literals `m / 10^e` that the source writes. An `std::map` is the list of its entries.
use fcitx5_vinput.Base.{ℕ, String, Bool, List, ℤ}
use fcitx5_vinput.Scene.{Definition}

pub record Platform : Type 1 where
  pub Double : Type 0
  pub less : Double → Double → Bool
  -- `literal m e` is m / 10^e
  pub literal : ℕ → ℕ → Double
  pub Json : Type 0

abbrev pub Environment : Type 0
Environment = List (String × String)

-- LlmAdapter and ClientSpec have the same shape.
pub record Process : Type 0 where
  pub id : String
  pub command : String
  pub args : List String
  pub env : Environment
  pub auto_start : Bool

pub record LocalAsrProvider : Type 0 where
  pub id : String
  pub timeout_ms : ℤ
  pub model : String
  pub hotwords_file : String

pub record CommandAsrProvider : Type 0 where
  pub id : String
  pub timeout_ms : ℤ
  pub command : String
  pub args : List String
  pub env : Environment

pub data AsrProvider : Type 0 where
  local_asr : LocalAsrProvider → AsrProvider
  command_asr : CommandAsrProvider → AsrProvider

unfoldable pub asr_provider_id : AsrProvider → String
asr_provider_id (local_asr p) = p.id
asr_provider_id (command_asr p) = p.id

pub asr_provider_timeout_ms : AsrProvider → ℤ
asr_provider_timeout_ms (local_asr p) = p.timeout_ms
asr_provider_timeout_ms (command_asr p) = p.timeout_ms

pub asr_provider_type : AsrProvider → String
asr_provider_type (local_asr p) = "local"
asr_provider_type (command_asr p) = "command"

module _ (P : Platform) where
  open P use {Double, Json}

  pub record LlmProvider : Type 0 where
    pub id : String
    pub base_url : String
    pub api_key : String
    pub json_object : Bool
    pub extra_body : Json

  pub record Global : Type 0 where
    pub capture_device : String
    pub duck_output_while_recording : Bool
    pub duck_output_volume : Double

  pub record Vad : Type 0 where
    pub enabled : Bool
    pub threshold : Double
    pub min_speech_duration : Double
    pub min_silence_duration : Double
    pub speech_pad_ms : ℤ

  pub record Asr : Type 0 where
    pub active_provider : String
    pub normalize_audio : Bool
    pub input_gain : Double
    pub vad : Vad
    pub providers : List AsrProvider

  pub record CoreConfig : Type 0 where
    pub version : String
    pub base_urls : List String
    pub global : Global
    pub llm_providers : List LlmProvider
    pub llm_adapters : List Process
    pub asr : Asr
    pub active_scene : String
    pub scenes : List Definition
    pub triggers : List Process
    pub receivers : List Process
