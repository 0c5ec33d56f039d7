-- ===== src/Runtime/Controller/Recording.antt =====
-- DaemonRuntimeController: StartRecording, StopRecording and CancelOperation. A function for each
-- critical section; the operation is their sequence. The session that CreateSession returns is taken
-- with its AsyncRecognitionSession around it, where the backend wants chunks.
use Prim.Native.Nat.{ℕ}
use Prim.Native.String
use fcitx5_vinput.Base.{
  String, Bool, true, false, not, ◌||◌, List, [], ◌∷◌, ◌++◌, Option, none, some, ◌⊎◌, inl, inr,
  if◌then◌else◌, str_empty, ℤ,
}
use fcitx5_vinput.Asr.Contract.{BackendDescriptor, no_backend, SessionApi}
use fcitx5_vinput.Runtime.Machine
use fcitx5_vinput.Runtime.Machine.{
  Status, status_eq, on_start_recording, on_stop_recording, on_cancel, on_reset_to_idle,
  StateTransitionResult, Transition,
}
use fcitx5_vinput.Runtime.Lifecycle
use fcitx5_vinput.Runtime.AudioBuffer
use fcitx5_vinput.Runtime.Controller.{
  MethodResult, success, failure, busy, capture_begun, capture_ended, ducked, restored,
  session_dropped, min_samples, uses_buffered_delivery, Controller, say, notify_status,
  reset_recording_state, schedule_capture_stop, maybe_apply_pending_reload, capture_stopped,
}

module _ (api : SessionApi) (G : AudioBuffer.Gains) where
  open G use {Float}

  -- The first section: the start is armed.
  unfoldable pub arm_start : Bool → Controller api G → Controller api G × Bool
  arm_start ime c =
      if not (status_eq c.machine.phase Machine.idle) || c.start_recording_in_progress
      then (c, false)
      else (
        record c {
          pending_capture_stop = false;
          buffer = AudioBuffer.reset G G.one c.buffer;
          session_ime = ime;
          start_recording_in_progress = true;
          accepting_chunks = true;
        },
        true,
      )

  -- What a start that fails takes back.
  unfoldable pub disarm_start : Controller api G → Controller api G
  disarm_start c = record c {
    start_recording_in_progress = false;
    accepting_chunks = false;
    buffer = AudioBuffer.clear G c.buffer;
  }

  -- StripSuffix(message, ".") + ": " + error
  unfoldable pub begin_failure : Bool → String → String
  begin_failure is_command e =
      if not (str_empty e)
      then String.◌++◌
          (if is_command then "Failed to start command recording" else "Failed to start recording")
          (String.◌++◌ ": " e)
      else (if is_command
          then "Failed to start command recording."
          else "Failed to start recording.")

  unfoldable pub session_failure : String → String
  session_failure e =
      if not (str_empty e)
      then String.◌++◌ "Failed to start recognition session. " e
      else "Failed to start recognition session."

  -- The section that installs the session, where the start was not cancelled meanwhile.
  unfoldable pub install_start :
      Bool → String → Float → ℕ × BackendDescriptor → Controller api G → Controller api G
  install_start is_command text gain (session, descriptor) c = record c {
    current_order = none;
    lifecycle = Lifecycle.install_active_session api (some session) c.lifecycle;
    active_backend = descriptor;
    machine = (on_start_recording c.machine is_command text).0;
    buffer =
        AudioBuffer.activate G (uses_buffered_delivery descriptor)
          (AudioBuffer.set_gain G gain c.buffer);
    latest_final_text = "";
    accepting_chunks = true;
    start_recording_in_progress = false;
  }

  unfoldable pub abort_start : ℕ → Controller api G → Controller api G
  abort_start session c =
      schedule_capture_stop api G
        (say api G (capture_ended ∷ restored ∷ session_dropped session ∷ []) (disarm_start c))

  unfoldable pub finish_start :
      Bool
      → String
      → Float
      → Bool
      → ℕ × BackendDescriptor
      → Controller api G
      → Controller api G × MethodResult
  finish_start is_command text gain ducks (session, descriptor) c =
      if not c.start_recording_in_progress || not (status_eq c.machine.phase Machine.idle)
      then (abort_start session c, busy)
      else let started = install_start is_command text gain (session, descriptor) c in
        (
          notify_status api G Machine.recording
              (say api G (if ducks then ducked ∷ [] else []) started),
          success,
        )

  -- What follows BeginRecording.
  unfoldable pub start_session :
      Bool
      → String
      → Float
      → Bool
      → (ℕ × BackendDescriptor) ⊎ String
      → Controller api G
      → Controller api G × MethodResult
  start_session is_command text gain ducks (inl made) c =
      finish_start is_command text gain ducks made c
  start_session is_command text gain ducks (inr e) c = (
    schedule_capture_stop api G (say api G (capture_ended ∷ restored ∷ []) (disarm_start c)),
    failure (session_failure e),
  )

  unfoldable pub begin_capture :
      Bool
      → String
      → Float
      → Bool
      → String
      → Option String
      → (ℕ × BackendDescriptor) ⊎ String
      → Controller api G
      → Controller api G × MethodResult
  begin_capture is_command text gain ducks device (some e) made c =
      (disarm_start c, failure (begin_failure is_command e))
  begin_capture is_command text gain ducks device none made c =
      start_session is_command text gain ducks made (say api G (capture_begun device ∷ []) c)

  -- StopRecording, up to StopAndGetBuffer.
  unfoldable pub begin_stop : Bool → Controller api G → Controller api G
  begin_stop ime c = record c {
    session_ime = ime;
    accepting_chunks = false;
    output = c.output ++ capture_stopped ∷ restored ∷ [];
  }

  unfoldable pub stop_without_session : Controller api G → Controller api G
  stop_without_session c =
      notify_status api G Machine.idle
        (record c { machine = (on_reset_to_idle c.machine).0; current_order = none })

  -- A recording that is too short.
  unfoldable pub drop_recording : Transition → Controller api G → Controller api G
  drop_recording (m, t) c =
      let (detached, s) = Lifecycle.detach_active api c.lifecycle in
      record (notify_status api G t.new_phase
        (record (reset_recording_state api G c) { machine = m; current_order = none })) {
          lifecycle = Lifecycle.cancel_and_retire_session api s detached;
        }

  unfoldable pub order_pcm : Controller api G → AudioBuffer.Buffer G × List ℤ
  order_pcm c =
      if uses_buffered_delivery c.active_backend
      then AudioBuffer.take_buffered_pcm G c.buffer
      else AudioBuffer.drain_streaming_tail G c.buffer

  unfoldable pub submit_order : Transition → String → Controller api G → Controller api G
  submit_order (m, t) scene_id c =
      let (detached, s) = Lifecycle.detach_active api c.lifecycle in
      let (left, pcm) = order_pcm c in
      notify_status api G t.new_phase (record c {
        machine = m;
        lifecycle = detached;
        buffer = left;
        active_backend = no_backend;
        current_order = some (record {
          audio_delivery_mode = c.active_backend.capabilities.audio_delivery_mode;
          session = s;
          backend = c.active_backend;
          pcm = pcm;
          postprocess_request = record {
            text = c.latest_final_text;
            scene_id = scene_id;
            is_command = m.is_command;
            selected_text = m.selected_text;
          };
          ime = c.session_ime;
        });
      })

  unfoldable pub stop_session : Transition → String → Controller api G → Controller api G × Bool
  stop_session (m, t) scene_id c =
      if t.is_too_short
      then (drop_recording (m, t) c, true)
      else (submit_order (m, t) scene_id c, false)

  -- The section behind StopAndGetBuffer, with its samples; and whether a reload may follow.
  unfoldable pub finish_stop : String → List ℤ → Controller api G → Controller api G × Bool
  finish_stop scene_id captured c =
      if not (Lifecycle.has_active_session api c.lifecycle)
      then (stop_without_session c, true)
      else let kept : Controller api G = record c {
        buffer = AudioBuffer.append G captured c.buffer;
      } in
        stop_session (on_stop_recording kept.machine kept.buffer.total_samples min_samples) scene_id
          kept

  unfoldable pub stop_recording :
      Bool → String → List ℤ → Option String → Controller api G → Controller api G × MethodResult
  stop_recording ime scene_id captured synchronize_error c =
      if not (status_eq c.machine.phase Machine.recording)
      then (c, failure "Recording is not active.")
      else let (stopped, reload) = finish_stop scene_id captured (begin_stop ime c) in
        (
          if reload then maybe_apply_pending_reload api G synchronize_error stopped else stopped,
          success,
        )

  -- CancelOperation in its first section: the start that is taken back, then the transition.
  unfoldable pub cancel_start : Controller api G → Controller api G
  cancel_start c = if c.start_recording_in_progress then disarm_start c else c

  unfoldable pub cancel_recording : Transition → Controller api G → Controller api G
  cancel_recording (m, t) c =
      let (detached, s) = Lifecycle.detach_active api c.lifecycle in
      let reset : Controller api G = record (reset_recording_state api G c) {
        machine = m;
        accepting_chunks = false;
        current_order = none;
      } in
      let told = notify_status api G t.new_phase reset in
      record told {
        lifecycle = Lifecycle.cancel_and_retire_session api s detached;
        output = told.output ++ capture_stopped ∷ restored ∷ [];
      }

  unfoldable pub cancel_accepted :
      Transition → Bool → Option String → Controller api G → Controller api G
  cancel_accepted (m, t) stop_capture synchronize_error c =
      if t.should_stop_capture
      then maybe_apply_pending_reload api G synchronize_error (cancel_recording (m, t) c)
      else say api G (if stop_capture then capture_stopped ∷ restored ∷ [] else []) (record c {
        machine = m;
        postprocessing_cancel_requested =
            (t.should_commit_raw_text || t.should_discard_text)
            || c.postprocessing_cancel_requested;
      })

  unfoldable pub cancel_transition :
      Transition → Bool → Bool → Option String → Controller api G → Controller api G × MethodResult
  cancel_transition (m, t) ime stop_capture synchronize_error c =
      if not t.accepted
      then (c, if stop_capture then success else failure t.rejection_reason)
      else (
        cancel_accepted (m, t) stop_capture synchronize_error (record c { session_ime = ime }),
        success,
      )

  unfoldable pub cancel_operation :
      Bool → Bool → Option String → Controller api G → Controller api G × MethodResult
  cancel_operation ime commit_raw_text synchronize_error c =
      let d = cancel_start c in
      cancel_transition (on_cancel d.machine commit_raw_text) ime c.start_recording_in_progress
        synchronize_error d
