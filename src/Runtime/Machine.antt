-- ===== src/Runtime/Machine.antt =====
-- RuntimeStateMachine (src/daemon/runtime/runtime_state_machine.h and .cpp) and the `Status` of
-- src/common/dbus/dbus_interface.h. A method returns the new machine and its result. Rejection
-- reasons are kept as the message ids that `_` is given.
pub mod Events
pub mod Invariant
pub mod Capture
pub mod Tests
use fcitx5_vinput.Base.{ℕ, String, Bool, true, false, not, ◌&&◌, ◌||◌, if◌then◌else◌, ltb}

pub data Status : Type 0 where
  idle recording inferring postprocessing error : Status

pub data PostprocessingState : Type 0 where
  inactive dictation command discard commit_raw : PostprocessingState

pub record StateTransitionResult : Type 0 where
  pub accepted : Bool
  pub previous_phase : Status
  pub new_phase : Status
  pub rejection_reason : String
  pub should_start_capture : Bool
  pub should_stop_capture : Bool
  pub should_submit_inference : Bool
  pub should_cancel_session : Bool
  pub should_enter_postprocessing : Bool
  pub should_commit_result : Bool
  pub should_commit_raw_text : Bool
  pub should_discard_text : Bool
  pub is_too_short : Bool

pub record RuntimeStateMachine : Type 0 where
  pub phase : Status
  pub postprocessing_state : PostprocessingState
  pub is_command : Bool
  pub selected_text : String

-- The member initialisers of the class.
abbrev pub new_machine : RuntimeStateMachine
new_machine = record {
  phase = idle;
  postprocessing_state = inactive;
  is_command = false;
  selected_text = "";
}

-- An accepted result between two phases, with no action requested.
abbrev pub accept : Status → Status → StateTransitionResult
accept previous next = record {
  accepted = true;
  previous_phase = previous;
  new_phase = next;
  rejection_reason = "";
  should_start_capture = false;
  should_stop_capture = false;
  should_submit_inference = false;
  should_cancel_session = false;
  should_enter_postprocessing = false;
  should_commit_result = false;
  should_commit_raw_text = false;
  should_discard_text = false;
  is_too_short = false;
}

abbrev pub reject : Status → String → StateTransitionResult
reject phase reason = record (accept phase phase) { accepted = false; rejection_reason = reason }

abbrev pub status_eq : Status → Status → Bool
status_eq idle idle = true
status_eq recording recording = true
status_eq inferring inferring = true
status_eq postprocessing postprocessing = true
status_eq error error = true
status_eq _ _ = false

abbrev pub postprocessing_eq : PostprocessingState → PostprocessingState → Bool
postprocessing_eq inactive inactive = true
postprocessing_eq dictation dictation = true
postprocessing_eq command command = true
postprocessing_eq discard discard = true
postprocessing_eq commit_raw commit_raw = true
postprocessing_eq _ _ = false

abbrev pub Transition : Type 0
Transition = RuntimeStateMachine × StateTransitionResult

unfoldable pub abort_recording_to_idle : RuntimeStateMachine → Status → Bool → Transition
abort_recording_to_idle m previous too_short = (
  record m { phase = idle; is_command = false; selected_text = "" },
  record (accept previous idle) {
    should_stop_capture = true;
    should_cancel_session = true;
    is_too_short = too_short;
  },
)

unfoldable pub complete_to_idle : RuntimeStateMachine → Status → Transition
complete_to_idle m previous = (
  record m {
    phase = idle;
    postprocessing_state = inactive;
    is_command = false;
    selected_text = "";
  },
  record (accept previous idle) { should_commit_result = true },
)

unfoldable pub clear : RuntimeStateMachine → RuntimeStateMachine
clear m = record m {
  phase = idle;
  postprocessing_state = inactive;
  is_command = false;
  selected_text = "";
}

unfoldable pub take_postprocessing_state :
    RuntimeStateMachine → RuntimeStateMachine × PostprocessingState
take_postprocessing_state m = (record m { postprocessing_state = inactive }, m.postprocessing_state)

unfoldable pub on_start_recording : RuntimeStateMachine → Bool → String → Transition
on_start_recording m command_mode text =
    if not (status_eq m.phase idle)
    then (
      m,
      reject m.phase "Voice input daemon is busy. Please wait for the current request to finish.",
    )
    else (
      record m {
        phase = recording;
        postprocessing_state = inactive;
        is_command = command_mode;
        selected_text = text;
      },
      record (accept m.phase recording) { should_start_capture = true },
    )

unfoldable pub on_stop_recording : RuntimeStateMachine → ℕ → ℕ → Transition
unfolding abort_recording_to_idle
on_stop_recording m sample_count min_samples =
    if not (status_eq m.phase recording)
    then (m, reject m.phase "Recording is not active.")
    else if ltb sample_count min_samples
    then abort_recording_to_idle m m.phase true
    else (
      record m { phase = inferring },
      record (accept m.phase inferring) {
        should_stop_capture = true;
        should_submit_inference = true;
      },
    )

unfoldable pub on_cancel : RuntimeStateMachine → Bool → Transition
unfolding abort_recording_to_idle
on_cancel m commit =
    if status_eq m.phase idle
    then (m, accept m.phase m.phase)
    else if status_eq m.phase recording
    then abort_recording_to_idle m m.phase false
    else if status_eq m.phase postprocessing
    then if postprocessing_eq m.postprocessing_state dictation
        || (not commit && postprocessing_eq m.postprocessing_state command)
      then (
        record m { postprocessing_state = if commit then commit_raw else discard },
        record (accept m.phase m.phase) {
          should_commit_raw_text = commit;
          should_discard_text = not commit;
        },
      )
      else (m, reject m.phase "Requested post-processing action is not available.")
    else (m, reject m.phase "No cancellable operation in current phase.")

unfoldable pub on_audio_error : RuntimeStateMachine → Transition
on_audio_error m = if not (status_eq m.phase recording) then (m, reject m.phase "") else (
  record m { phase = error },
  record (accept m.phase error) { should_stop_capture = true; should_cancel_session = true },
)

unfoldable pub on_inference_complete : RuntimeStateMachine → Bool → Transition
unfolding complete_to_idle
on_inference_complete m has_scene =
    if not (status_eq m.phase inferring)
    then (m, reject m.phase "")
    else if has_scene
    then (
      record m {
        phase = postprocessing;
        postprocessing_state = if m.is_command then command else dictation;
      },
      record (accept m.phase postprocessing) { should_enter_postprocessing = true },
    )
    else complete_to_idle m m.phase

unfoldable pub on_inference_error : RuntimeStateMachine → Transition
on_inference_error m =
    if not (status_eq m.phase inferring)
    then (m, reject m.phase "")
    else (record m { phase = error }, accept m.phase error)

unfoldable pub on_postprocessing_complete : RuntimeStateMachine → Transition
unfolding complete_to_idle
on_postprocessing_complete m =
    if not (status_eq m.phase postprocessing)
    then (m, reject m.phase "")
    else complete_to_idle m m.phase

unfoldable pub on_reset_to_idle : RuntimeStateMachine → Transition
unfolding clear
on_reset_to_idle m = (clear m, accept m.phase idle)
