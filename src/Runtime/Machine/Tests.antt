-- ===== src/Runtime/Machine/Tests.antt =====
-- Runs of RuntimeStateMachine, and its theorems at concrete machines.
use fcitx5_vinput.Base.{◌+◌, ◌≡◌, ◌≢◌, refl, true, false, List, [], ◌∷◌, arith, if◌then◌else◌}
use fcitx5_vinput.Runtime.Machine.{
  recording, postprocessing, error, dictation, commit_raw, RuntimeStateMachine, new_machine,
  status_eq, take_postprocessing_state, on_cancel,
}
use fcitx5_vinput.Runtime.Machine.Events.{
  Event, start_recording, stop_recording, cancel, inference_complete, handle, Call, event, advance,
  run, IsReported, handle-IsReported,
}
use fcitx5_vinput.Runtime.Machine.Invariant.{
  IsConsistent, run_new-IsConsistent, cancel_once, command_keeps_text,
}
use fcitx5_vinput.Runtime.Machine.Capture.{requests, run_events, captures_balanced}

abbrev dictating : RuntimeStateMachine
dictating = record new_machine { phase = postprocessing; postprocessing_state = dictation }

abbrev failed : RuntimeStateMachine
failed = record new_machine { phase = error }

abbrev command_session : List Call
command_session =
    event (start_recording true "text")
    ∷ event (stop_recording 16000 8000)
    ∷ event (inference_complete true)
    ∷ []

abbrev two_recordings : List Event
two_recordings =
    start_recording false ""
    ∷ stop_recording 100 8000
    ∷ start_recording false ""
    ∷ cancel false
    ∷ start_recording false ""
    ∷ []

command_session_phase : (run new_machine command_session).phase ≡ postprocessing
unfolding run advance
command_session_phase = refl

handle-IsReported_example : IsReported dictating (handle dictating (cancel true))
handle-IsReported_example = handle-IsReported dictating (cancel true)

run_new-IsConsistent_example : IsConsistent (run new_machine command_session)
run_new-IsConsistent_example = run_new-IsConsistent command_session

cancel_once_example :
    let m' = (on_cancel dictating true).0 in
    ((take_postprocessing_state m').1 ≡ commit_raw)
    × ((on_cancel m' false).0 ≡ m')
    × ((on_cancel m' false).1.accepted ≡ false)
unfolding on_cancel
cancel_once_example = cancel_once dictating true false refl refl

command_keeps_text_example :
    let m = run new_machine command_session in
    ((on_cancel m true).0 ≡ m)
    × ((on_cancel m true).1.accepted ≡ false)
    × ((take_postprocessing_state (on_cancel m true).0).1 ≢ commit_raw)
unfolding run advance
command_keeps_text_example = command_keeps_text command_session refl refl

captures_balanced_example :
    requests (λ r. r.should_start_capture) new_machine two_recordings
    ≡ (if status_eq (run_events new_machine two_recordings).phase recording then 1 else 0)
      + requests (λ r. r.should_stop_capture) new_machine two_recordings
captures_balanced_example = captures_balanced two_recordings (ground arith)
