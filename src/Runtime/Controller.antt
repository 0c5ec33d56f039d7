-- ===== src/Runtime/Controller.antt =====
-- DaemonRuntimeController (src/daemon/runtime/daemon_runtime_controller.h and .cpp) over the modelled
-- state machine, lifecycle manager, recording buffer and pipeline: its state, and the helpers that
-- its operations share. `output` records, oldest first, what it does to the capture stream, the
-- output volume, the bus, the clients and the backend. What the outside answers during an operation
-- is in `Answers`. The bus is present; times, which only the log shows, and the log are left out.
pub mod Recording
pub mod Audio
pub mod Worker
pub mod Steps
pub mod Invariant
pub mod Kept
pub mod Flushing
pub mod Starting
pub mod Stopping
pub mod Cancelling
pub mod Rounds
pub mod Schedules
pub mod Phases
pub mod Progress
pub mod Liveness
pub mod Protocol
pub mod Moves
pub mod Fuel
pub mod Inject
pub mod Tests
use Prim.Native.Nat.{ℕ}
use Prim.Native.String
use fcitx5_vinput.Base.{
  String, Bool, true, false, not, ◌&&◌, ◌||◌, List, [], ◌∷◌, ◌++◌, Option, none, some, ◌⊎◌,
  if◌then◌else◌, is_empty, str_empty, ℤ,
}
use fcitx5_vinput.Asr.Contract.{
  AudioDeliveryMode, buffered, chunked, BackendDescriptor, no_backend, SessionApi,
}
use fcitx5_vinput.Config.Types.{Platform, CoreConfig}
use fcitx5_vinput.Runtime.Machine
use fcitx5_vinput.Runtime.Machine.{
  Status, RuntimeStateMachine, new_machine, status_eq, on_audio_error, on_reset_to_idle,
}
use fcitx5_vinput.Runtime.Lifecycle
use fcitx5_vinput.Runtime.AudioBuffer
use fcitx5_vinput.Runtime.Pipeline.{Payload, PostprocessRequest}

-- A result without its payload, which the controller leaves empty.
pub data MethodResult : Type 0 where
  success : MethodResult
  failure : String → MethodResult

abbrev pub busy : MethodResult
busy = failure "Voice input daemon is busy. Please wait for the current request to finish."

-- What the controller does to the outside. `status`, `partial` and `committed` go to the clients, and
-- with `true` also to the bus; `result` goes to the bus.
pub data Output : Type 0 where
  status : Bool → Status → Output
  partial : Bool → String → Output
  result : Payload → Output
  committed : Bool → Payload → Output
  notification : String → Output
  capture_begun : String → Output
  capture_ended capture_stopped capture_closed ducked restored backend_synchronized : Output
  session_dropped : ℕ → Output

-- kMinSamplesForRecognition
abbrev pub min_samples : ℕ
min_samples = 8000

pub record RecognitionOrder : Type 0 where
  pub audio_delivery_mode : AudioDeliveryMode
  pub session : Option ℕ
  pub backend : BackendDescriptor
  pub pcm : List ℤ
  pub postprocess_request : PostprocessRequest
  pub ime : Bool

-- What the outside answers: the settings in the file, the error of BeginRecording, the session or
-- error of CreateSession, the samples of StopAndGetBuffer, the chunks that TryDequeue returns, whether
-- a recording runs, whether streams are reused, and the error of SynchronizeBackend.
pub record Answers (P : Platform) : Type 0 where
  pub settings : CoreConfig P
  pub begin_error : Option String
  pub created : (ℕ × BackendDescriptor) ⊎ String
  pub captured : List ℤ
  pub queued : List (List ℤ)
  pub is_recording : Bool
  pub reuses_streams : Bool
  pub synchronize_error : Option String

unfoldable pub uses_buffered_delivery : BackendDescriptor → Bool
uses_buffered_delivery d = elim d.capabilities.audio_delivery_mode [
  | buffered ↦ true
  | chunked ↦ false
]

pub record DaemonRuntimeController (World Float : Type 0) : Type 0 where
  pub machine : RuntimeStateMachine
  pub postprocessing_cancel_requested : Bool
  pub current_order : Option RecognitionOrder
  pub lifecycle : Lifecycle.SessionLifecycleManager World
  pub active_backend : BackendDescriptor
  pub buffer : AudioBuffer.AudioRecordingBuffer Float
  pub latest_final_text : String
  pub start_recording_in_progress : Bool
  pub pending_asr_backend_reload : Bool
  pub session_ime : Bool
  pub pending_capture_stop : Bool
  pub accepting_chunks : Bool
  pub output : List Output

-- The controller's parts: the sessions, the floating-point numbers, and their platform.
module _ (api : SessionApi) (G : AudioBuffer.Gains) where
  open api use {World}
  open G use {Float}

  abbrev pub Controller : Type 0
  Controller = DaemonRuntimeController World Float

  -- The member initialisers, and the wake callback of the constructor.
  abbrev pub new_controller : World → Controller
  new_controller w = record {
    machine = new_machine;
    postprocessing_cancel_requested = false;
    current_order = none;
    lifecycle = record (Lifecycle.new_manager api w) { wake_callback = true };
    active_backend = no_backend;
    buffer = AudioBuffer.new_buffer G;
    latest_final_text = "";
    start_recording_in_progress = false;
    pending_asr_backend_reload = false;
    session_ime = true;
    pending_capture_stop = false;
    accepting_chunks = false;
    output = [];
  }

  unfoldable pub say : List Output → Controller → Controller
  say out c = record c { output = c.output ++ out }

  -- NotifyStatusChanged
  unfoldable pub notify_status : Status → Controller → Controller
  notify_status s c = record c { output = c.output ++ status c.session_ime s ∷ [] }

  unfoldable pub reset_recording_state : Controller → Controller
  reset_recording_state c = record c {
    buffer = AudioBuffer.clear G c.buffer;
    latest_final_text = "";
    active_backend = no_backend;
  }

  -- ScheduleCaptureStopOnMainThread
  unfoldable pub schedule_capture_stop : Controller → Controller
  schedule_capture_stop c = record c { pending_capture_stop = true }

  -- The message of a backend that cannot be reloaded.
  unfoldable pub reload_failure : String → String
  reload_failure e =
      let message : String =
        "ASR backend reload failed. The previous backend may still be active." in
      if not (str_empty e) then String.◌++◌ message (String.◌++◌ "\n" e) else message

  -- MaybeApplyPendingAsrBackendReload
  unfoldable pub maybe_apply_pending_reload : Option String → Controller → Controller
  maybe_apply_pending_reload synchronize_error c =
      if not c.pending_asr_backend_reload || not (status_eq c.machine.phase Machine.idle)
      then c
      else record c {
        pending_asr_backend_reload = false;
        output =
            c.output
            ++ backend_synchronized ∷ elim synchronize_error [
              | none ↦ []
              | some e ↦ notification (reload_failure e) ∷ []
            ];
      }

  -- ReloadAsrBackend
  unfoldable pub reload_asr_backend : Option String → Controller → Controller × MethodResult
  reload_asr_backend synchronize_error c =
      if not (status_eq c.machine.phase Machine.idle) || c.start_recording_in_progress
      then (record c { pending_asr_backend_reload = true }, success)
      else (
        record c { output = c.output ++ backend_synchronized ∷ [] },
        elim synchronize_error [ none ↦ success | some e ↦ failure (reload_failure e) ],
      )

  -- ResetToIdle
  unfoldable pub reset_to_idle : Option String → Controller → Controller
  reset_to_idle synchronize_error c =
      let cleared : Controller = record (reset_recording_state c) {
        start_recording_in_progress = false;
        postprocessing_cancel_requested = false;
        machine = (on_reset_to_idle c.machine).0;
        current_order = none;
        session_ime = true;
        output = c.output ++ restored ∷ status c.session_ime Machine.idle ∷ [];
      } in
      maybe_apply_pending_reload synchronize_error cleared

  -- FailActiveSession, for a session that may no longer be the active one.
  unfoldable pub fail_active_session : Option ℕ → String → Controller → Controller
  fail_active_session session message c =
      if not (Lifecycle.is_active_session api session c.lifecycle)
      then c
      else let (detached, s) = Lifecycle.detach_active api c.lifecycle in
        schedule_capture_stop (record (reset_recording_state c) {
          accepting_chunks = false;
          machine = (on_audio_error c.machine).0;
          lifecycle = Lifecycle.cancel_and_retire_session api s detached;
          output =
              c.output
              ++ status c.session_ime Machine.error
                ∷ notification message
                ∷ capture_ended
                ∷ restored
                ∷ [];
        })
