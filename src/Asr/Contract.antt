-- ===== src/Asr/Contract.antt =====
-- src/daemon/asr/runtime/recognition_contract.h, and RecognitionRunResult of
-- recognition_session_manager.h. The classes that implement RecognitionSession stand behind
-- `SessionApi`: a session is a number, the state of all sessions is `World`, and a call returns the
-- state after it.
use fcitx5_vinput.Base.{ℕ, String, Bool, true, false, List, Option}

pub data RecognitionEventKind : Type 0 where
  partial_text final_text error completed : RecognitionEventKind

pub record RecognitionEvent : Type 0 where
  pub kind : RecognitionEventKind
  pub text : String
  pub error : String

pub data AudioDeliveryMode : Type 0 where
  buffered chunked : AudioDeliveryMode

pub record BackendCapabilities : Type 0 where
  pub audio_delivery_mode : AudioDeliveryMode
  pub supports_streaming : Bool
  pub supports_partial_results : Bool
  pub requires_network : Bool
  pub supports_hotwords : Bool

pub record BackendDescriptor : Type 0 where
  pub provider_id : String
  pub provider_type : String
  pub backend_id : String
  pub capabilities : BackendCapabilities

-- `BackendDescriptor{}`
abbrev pub no_backend : BackendDescriptor
no_backend = record {
  provider_id = "";
  provider_type = "";
  backend_id = "";
  capabilities = record {
    audio_delivery_mode = chunked;
    supports_streaming = false;
    supports_partial_results = false;
    requires_network = false;
    supports_hotwords = false;
  };
}

pub record RecognitionRunResult : Type 0 where
  pub available : Bool
  pub ok : Bool
  pub text : String
  pub error : String

-- `RecognitionRunResult{}`
abbrev pub new_result : RecognitionRunResult
new_result = record { available = false; ok = true; text = ""; error = "" }

-- What a call with an `std::string* error` gives back: whether it succeeded, and the text behind
-- the pointer.
pub record Outcome : Type 0 where
  pub ok : Bool
  pub error : String

-- The virtual methods of RecognitionSession. `Chunk` is what the PushAudio overloads take.
-- `failure_error` is AsyncRecognitionSession's FailureError, and `none` for the other classes.
pub record SessionApi : Type 1 where
  pub World : Type 0
  pub Chunk : Type 0
  pub push_audio : World → ℕ → Chunk → String → World × Outcome
  pub finish : World → ℕ → String → World × Outcome
  pub cancel : World → ℕ → World
  pub poll_events : World → ℕ → World × List RecognitionEvent
  pub failure_error : World → ℕ → Option String
