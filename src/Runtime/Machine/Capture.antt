-- ===== src/Runtime/Machine/Capture.antt =====
-- The capture requests of RuntimeStateMachine, counted over a history of calls.
use fcitx5_vinput.Base.{ℕ, ◌+◌, ◌≡◌, ◌≢◌, refl, Bool, List, [], ◌∷◌, arith, if◌then◌else◌, All}
use fcitx5_vinput.Runtime.Machine.{
  recording, RuntimeStateMachine, StateTransitionResult, new_machine, status_eq,
}
use fcitx5_vinput.Runtime.Machine.Events.{
  Event, start_recording, stop_recording, cancel, audio_error, inference_complete, inference_error,
  postprocessing_complete, reset_to_idle, handle,
}

unfoldable pub run_events : RuntimeStateMachine → List Event → RuntimeStateMachine
run_events m [] = m
run_events m (e ∷ es) = run_events (handle m e).0 es

-- How many calls of a history set a field of their result.
pub requests : (StateTransitionResult → Bool) → RuntimeStateMachine → List Event → ℕ
requests field m [] = 0
requests field m (e ∷ es) =
    (if field (handle m e).1 then 1 else 0) + requests field (handle m e).0 es

abbrev starts : RuntimeStateMachine → List Event → ℕ
starts = requests (λ r. r.should_start_capture)

abbrev stops : RuntimeStateMachine → List Event → ℕ
stops = requests (λ r. r.should_stop_capture)

abbrev open_captures : RuntimeStateMachine → ℕ
open_captures m = if status_eq m.phase recording then 1 else 0

abbrev IsOrdinary : Event → Type 0
IsOrdinary e = e ≢ reset_to_idle

balance :
    (m : RuntimeStateMachine) (e : Event)
    → IsOrdinary e
    → open_captures m + (if (handle m e).1.should_start_capture then 1 else 0)
      ≡ open_captures (handle m e).0 + (if (handle m e).1.should_stop_capture then 1 else 0)
unfolding handle
balance m (start_recording c t) n = ground arith
balance m (stop_recording k l) n = ground arith
balance m (cancel c) n = ground arith
balance m audio_error n = ground arith
balance m (inference_complete b) n = ground arith
balance m inference_error n = ground arith
balance m postprocessing_complete n = ground arith
balance m reset_to_idle n = absurd (n refl)

run_balance :
    (m : RuntimeStateMachine) (es : List Event)
    → All IsOrdinary es
    → open_captures m + starts m es ≡ open_captures (run_events m es) + stops m es
unfolding run_events requests
run_balance m [] a = refl
run_balance m (e ∷ es) a = omega (arith, balance m e a.0, run_balance (handle m e).0 es a.1)

-- Over any history of calls without a reset, every capture that is started is stopped once, except
-- the one of a recording that still runs.
pub captures_balanced :
    (es : List Event)
    → All IsOrdinary es
    → starts new_machine es
      ≡ (if status_eq (run_events new_machine es).phase recording then 1 else 0)
        + stops new_machine es
captures_balanced es a = omega (arith, run_balance new_machine es a)
