-- ===== src/Runtime/Machine/Invariant.antt =====
-- What is true of RuntimeStateMachine after any history of calls.
use fcitx5_vinput.Base.{◌≡◌, ◌≢◌, ◌⊎◌, Bool, true, false, List, [], ◌∷◌, arith, if◌then◌else◌}
use fcitx5_vinput.Runtime.Machine.{
  idle, postprocessing, inactive, dictation, command, discard, commit_raw, RuntimeStateMachine,
  new_machine, take_postprocessing_state, on_cancel,
}
use fcitx5_vinput.Runtime.Machine.Events.{
  Event, start_recording, stop_recording, cancel, audio_error, inference_complete, inference_error,
  postprocessing_complete, reset_to_idle, handle, Call, event, take_postprocessing, clear_all,
  advance, run,
}

-- A post-processing action is pending in the post-processing phase only, it fits the kind of the
-- recording, and an idle machine remembers nothing of the last recording.
pub record IsConsistent (m : RuntimeStateMachine) : Type 0 where
  pub quiet : (m.phase ≡ postprocessing) ⊎ (m.postprocessing_state ≡ inactive)
  pub forgotten : (m.phase ≢ idle) ⊎ ((m.is_command ≡ false) × (m.selected_text ≡ ""))
  pub dictating : (m.postprocessing_state ≢ dictation) ⊎ (m.is_command ≡ false)
  pub commanding : (m.postprocessing_state ≢ command) ⊎ (m.is_command ≡ true)
  pub raw_text : (m.postprocessing_state ≢ commit_raw) ⊎ (m.is_command ≡ false)

handle-IsConsistent :
    (m : RuntimeStateMachine) (e : Event) → IsConsistent m → IsConsistent (handle m e).0
unfolding handle
handle-IsConsistent m (start_recording c t) v = ground arith
handle-IsConsistent m (stop_recording n k) v = ground arith
handle-IsConsistent m (cancel c) v = ground arith
handle-IsConsistent m audio_error v = ground arith
handle-IsConsistent m (inference_complete s) v = ground arith
handle-IsConsistent m inference_error v = ground arith
handle-IsConsistent m postprocessing_complete v = ground arith
handle-IsConsistent m reset_to_idle v = ground arith

advance-IsConsistent :
    (m : RuntimeStateMachine) (c : Call) → IsConsistent m → IsConsistent (advance m c)
unfolding advance
advance-IsConsistent m (event e) v = handle-IsConsistent m e v
advance-IsConsistent m take_postprocessing v = ground arith
advance-IsConsistent m clear_all v = ground arith

run-IsConsistent :
    (m : RuntimeStateMachine) (cs : List Call) → IsConsistent m → IsConsistent (run m cs)
unfolding run
run-IsConsistent m [] v = v
run-IsConsistent m (c ∷ cs) v = run-IsConsistent (advance m c) cs (advance-IsConsistent m c v)

-- After any history of calls on a new machine: a post-processing action is pending only in the
-- post-processing phase, an idle machine has forgotten the last recording, and a pending action fits
-- the kind of the recording (raw text is committed for dictation only).
pub run_new-IsConsistent : (cs : List Call) → IsConsistent (run new_machine cs)
run_new-IsConsistent cs = run-IsConsistent new_machine cs (ground arith)

-- An accepted cancellation in the post-processing phase decides what the worker takes, and every
-- later cancellation is rejected and changes nothing.
pub cancel_once :
    (m : RuntimeStateMachine) (commit again : Bool)
    → m.phase ≡ postprocessing
    → (on_cancel m commit).1.accepted ≡ true
    → let m' = (on_cancel m commit).0 in
      ((take_postprocessing_state m').1 ≡ (if commit then commit_raw else discard))
      × ((on_cancel m' again).0 ≡ m')
      × ((on_cancel m' again).1.accepted ≡ false)
unfolding on_cancel take_postprocessing_state
cancel_once m commit again p h = ground arith

-- After any history on a new machine that leaves a command recording in post-processing, a request
-- to commit its raw text is rejected and leaves the machine as it is, and the worker is not told to
-- commit the raw text.
pub command_keeps_text :
    (cs : List Call)
    → (run new_machine cs).is_command ≡ true
    → (run new_machine cs).phase ≡ postprocessing
    → let m = run new_machine cs in
      ((on_cancel m true).0 ≡ m)
      × ((on_cancel m true).1.accepted ≡ false)
      × ((take_postprocessing_state (on_cancel m true).0).1 ≢ commit_raw)
unfolding on_cancel take_postprocessing_state
command_keeps_text cs c p = let v = run_new-IsConsistent cs in ground (arith)
