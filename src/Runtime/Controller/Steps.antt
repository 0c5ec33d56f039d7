-- ===== src/Runtime/Controller/Steps.antt =====
-- DaemonRuntimeController and its thread as one system. The operations of the callers are steps of
-- their own: StartRecording, StopRecording, CancelOperation, FlushDeferredActions, ReloadAsrBackend
-- and InjectText, each with its sections in sequence; the sections of WorkerMain come between them
-- in any order. Callers on two threads that come between the sections of each other's operations are
-- not modelled.
use fcitx5_vinput.Base.{
  String, Bool, true, false, not, ◌&&◌, List, [], ◌∷◌, ◌++◌, Option, none, some, if◌then◌else◌,
  str_empty, ℤ,
}
use fcitx5_vinput.Asr.Contract.{SessionApi}
use fcitx5_vinput.Config.Types.{Platform, CoreConfig}
use fcitx5_vinput.Config.Normalize.{Prompts, normalize_core_config}
use fcitx5_vinput.Runtime.Machine
use fcitx5_vinput.Runtime.Machine.{Status}
use fcitx5_vinput.Runtime.Lifecycle
use fcitx5_vinput.Runtime.AudioBuffer
use fcitx5_vinput.Runtime.Pipeline.{PostprocessRequest, PostProcessor, process}
use fcitx5_vinput.Runtime.Controller.{
  MethodResult, success, busy, capture_closed, restored, RecognitionOrder, Answers, Controller,
  new_controller, reset_to_idle, reload_asr_backend,
}
use fcitx5_vinput.Runtime.Controller.Recording.{
  arm_start, begin_capture, stop_recording, cancel_operation,
}
use fcitx5_vinput.Runtime.Controller.Audio.{flush_deferred_actions}
use fcitx5_vinput.Runtime.Controller.Worker.{
  InjectStage, final_stage, recognize, begin_process, deliver, inject_text,
}

-- The parameters of the controller: the platform and prompts of the configuration, the sessions, the
-- gains, the overloads of PushAudio, the conversion of the input gain, and the language models.
pub record Outside : Type 1 where
  pub platform : Platform
  pub prompts : Prompts
  pub api : SessionApi
  pub gains : AudioBuffer.Gains
  pub to_chunk : List ℤ → api.Chunk
  pub normalized : List ℤ → api.Chunk
  pub to_float : platform.Double → gains.Float
  pub processor : PostProcessor platform

-- Where WorkerMain stands: at its wait, with an order, in the pipeline with a request, before
-- ResetToIdle.
pub data Position (Settings : Type 0) : Type 0 where
  resting ending : Position Settings
  serving : RecognitionOrder → Settings → Position Settings
  processing : RecognitionOrder → PostprocessRequest → Settings → Position Settings

-- What is left of an order that was moved from.
abbrev pub moved_from : RecognitionOrder → RecognitionOrder
moved_from order = record order { session = none; pcm = [] }

module _ (O : Outside) where
  open O use {platform, prompts, api, gains}

  abbrev pub Settings : Type 0
  Settings = CoreConfig platform

  pub record System : Type 0 where
    pub controller : Controller api gains
    pub position : Position Settings

  abbrev pub new_system : api.World → System
  new_system w = record { controller = new_controller api gains w; position = resting }

  abbrev loaded : Answers platform → Settings
  loaded a = normalize_core_config prompts platform a.settings

  unfoldable pub flush : Answers platform → Controller api gains → Controller api gains
  flush a c =
      flush_deferred_actions api gains O.to_chunk a.queued a.is_recording a.reuses_streams
        a.synchronize_error c

  unfoldable pub begin_start :
      Bool
      → String
      → String
      → Answers platform
      → Controller api gains × Bool
      → Controller api gains × MethodResult
  begin_start is_command text device a (c, armed) =
      if not armed
      then (c, busy)
      else begin_capture api gains is_command text (O.to_float (loaded a).asr.input_gain)
          (loaded a).global.duck_output_while_recording
          (if str_empty device then (loaded a).global.capture_device else device) a.begin_error
          a.created c

  -- StartRecordingInternal
  unfoldable pub start_recording :
      Bool
      → Bool
      → String
      → String
      → Answers platform
      → Controller api gains
      → Controller api gains × MethodResult
  start_recording ime is_command text device a c =
      begin_start is_command text device a
        (arm_start api gains ime (if c.pending_capture_stop then flush a c else c))

  -- The first section of the loop: the thread waits on where there is no order.
  unfoldable pub take_order : Answers platform → Option RecognitionOrder → System → System
  take_order a none s = s
  take_order a (some order) s = record {
    controller = record (s.controller) { current_order = some (moved_from order) };
    position = serving order (loaded a);
  }

  unfoldable pub recognized_order :
      RecognitionOrder → Settings → Controller api gains × Option PostprocessRequest → System
  recognized_order order settings (c, none) = record { controller = c; position = ending }
  recognized_order order settings (c, some request) = record {
    controller =
        begin_process api gains (process platform O.processor request settings false).entered c;
    position = processing order request settings;
  }

  -- WorkerMain from where it stands to its next section.
  unfoldable pub work : Position Settings → Answers platform → System → System
  work resting a s = take_order a s.controller.current_order s
  work (serving order settings) a s =
      recognized_order order settings (
        recognize api gains O.to_chunk O.normalized settings.asr.normalize_audio order s.controller)
  work (processing order request settings) a s = record {
    controller =
        deliver api gains order request
          (process platform O.processor request settings
            s.controller.postprocessing_cancel_requested)
          s.controller;
    position = ending;
  }
  work ending a s = record {
    controller = reset_to_idle api gains a.synchronize_error s.controller;
    position = resting;
  }

  pub data Step : Type 0 where
    start : Bool → Bool → String → String → Answers platform → Step
    stop : Bool → String → Answers platform → Step
    cancel : Bool → Bool → Answers platform → Step
    flush_actions : Answers platform → Step
    reload : Answers platform → Step
    inject : Bool → InjectStage → String → String → Step
    worker_step : Answers platform → Step

  -- Every step but the injection of a text into a scene.
  abbrev pub is_ordinary : Step → Bool
  is_ordinary (inject ime final_stage text scene_id) = str_empty scene_id
  is_ordinary _ = true

  abbrev pub are_ordinary : List Step → Bool
  are_ordinary [] = true
  are_ordinary (x ∷ xs) = is_ordinary x && are_ordinary xs

  unfoldable pub operate : Step → Controller api gains → Controller api gains × MethodResult
  operate (start ime is_command text device a) c = start_recording ime is_command text device a c
  operate (stop ime scene_id a) c =
      stop_recording api gains ime scene_id a.captured a.synchronize_error c
  operate (cancel ime commit a) c = cancel_operation api gains ime commit a.synchronize_error c
  operate (flush_actions a) c = (flush a c, success)
  operate (reload a) c = reload_asr_backend api gains a.synchronize_error c
  operate (inject ime stage text scene_id) c = inject_text api gains ime stage text scene_id c
  operate (worker_step a) c = (c, success)

  unfoldable pub step : Step → System → System
  step (worker_step a) s = work s.position a s
  step x s = record s { controller = (operate x s.controller).0 }

  unfoldable pub run : System → List Step → System
  run s [] = s
  run s (x ∷ xs) = run (step x s) xs

  -- Shutdown, after the thread has been joined.
  unfoldable pub shutdown : Controller api gains → Controller api gains
  shutdown c =
      let retired = Lifecycle.cancel_and_retire_active api c.lifecycle in
      record c {
        accepting_chunks = false;
        pending_capture_stop = false;
        start_recording_in_progress = false;
        machine = Machine.clear c.machine;
        lifecycle = Lifecycle.clear api (Lifecycle.flush_reaped_sessions api retired).0;
        output = c.output ++ capture_closed ∷ restored ∷ [];
      }
