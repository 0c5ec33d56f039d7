-- ===== src/Runtime/Machine/Events.antt =====
-- The public methods of RuntimeStateMachine as one type of events, so that histories of calls can
-- be spoken of, and what holds of every single call.
use fcitx5_vinput.Base.{ℕ, String, ◌≡◌, ◌≢◌, refl, ◌⊎◌, Bool, true, false, List, [], ◌∷◌, arith}
use fcitx5_vinput.Runtime.Machine.{
  Status, idle, recording, inferring, postprocessing, error, RuntimeStateMachine, Transition,
  reject, take_postprocessing_state, clear, on_start_recording, on_stop_recording, on_cancel,
  on_audio_error, on_inference_complete, on_inference_error, on_postprocessing_complete,
  on_reset_to_idle,
}

pub data Event : Type 0 where
  start_recording : Bool → String → Event
  stop_recording : ℕ → ℕ → Event
  cancel : Bool → Event
  audio_error : Event
  inference_complete : Bool → Event
  inference_error : Event
  postprocessing_complete : Event
  reset_to_idle : Event

unfoldable pub handle : RuntimeStateMachine → Event → Transition
unfolding on_start_recording on_stop_recording on_cancel on_audio_error on_inference_complete
    on_inference_error on_postprocessing_complete on_reset_to_idle
handle m (start_recording is_command text) = on_start_recording m is_command text
handle m (stop_recording samples min_samples) = on_stop_recording m samples min_samples
handle m (cancel commit) = on_cancel m commit
handle m audio_error = on_audio_error m
handle m (inference_complete has_scene) = on_inference_complete m has_scene
handle m inference_error = on_inference_error m
handle m postprocessing_complete = on_postprocessing_complete m
handle m reset_to_idle = on_reset_to_idle m

-- Everything that the owner of a machine can call.
pub data Call : Type 0 where
  event : Event → Call
  take_postprocessing : Call
  clear_all : Call

unfoldable pub advance : RuntimeStateMachine → Call → RuntimeStateMachine
unfolding handle take_postprocessing_state clear
advance m (event e) = (handle m e).0
advance m take_postprocessing = (take_postprocessing_state m).0
advance m clear_all = clear m

unfoldable pub run : RuntimeStateMachine → List Call → RuntimeStateMachine
run m [] = m
run m (c ∷ cs) = run (advance m c) cs

-- A result reports the phases before and after the call. A rejected call leaves the machine as it
-- was, and its result asks for nothing.
pub record IsReported (m : RuntimeStateMachine) (t : Transition) : Type 0 where
  pub before : t.1.previous_phase ≡ m.phase
  pub after : t.1.new_phase ≡ t.0.phase
  pub answer : (t.1.accepted ≡ true) ⊎ ((t.0 ≡ m) × (t.1 ≡ reject m.phase t.1.rejection_reason))

-- Every method reports the phase before and the phase after the call, and where it does not accept
-- the call, the machine is unchanged and the result is a plain rejection with no request in it.
pub handle-IsReported : (m : RuntimeStateMachine) (e : Event) → IsReported m (handle m e)
unfolding handle
handle-IsReported m (start_recording c t) = ground arith
handle-IsReported m (stop_recording n k) = ground arith
handle-IsReported m (cancel c) = ground arith
handle-IsReported m audio_error = ground arith
handle-IsReported m (inference_complete s) = ground arith
handle-IsReported m inference_error = ground arith
handle-IsReported m postprocessing_complete = ground arith
handle-IsReported m reset_to_idle = ground arith

-- The phase changes that the daemon makes without a reset.
pub may_follow : Status → Status → Bool
may_follow idle recording = true
may_follow recording inferring = true
may_follow recording idle = true
may_follow recording error = true
may_follow inferring postprocessing = true
may_follow inferring idle = true
may_follow inferring error = true
may_follow postprocessing idle = true
may_follow _ _ = false

phases_of :
    (m : RuntimeStateMachine) (e : Event)
    → e ≢ reset_to_idle
    → ((handle m e).0.phase ≡ m.phase) ⊎ (may_follow m.phase (handle m e).0.phase ≡ true)
unfolding handle may_follow
phases_of m (start_recording c t) n = ground arith
phases_of m (stop_recording k l) n = ground arith
phases_of m (cancel c) n = ground arith
phases_of m audio_error n = ground arith
phases_of m (inference_complete b) n = ground arith
phases_of m inference_error n = ground arith
phases_of m postprocessing_complete n = ground arith
phases_of m reset_to_idle n = absurd (n refl)

-- A machine in the error phase stays as it is until it is reset.
pub error-stuck :
    (m : RuntimeStateMachine) (e : Event) → m.phase ≡ error → e ≢ reset_to_idle → (handle m e).0 ≡ m
unfolding handle
error-stuck m (start_recording c t) h n = ground arith
error-stuck m (stop_recording k l) h n = ground arith
error-stuck m (cancel c) h n = ground arith
error-stuck m audio_error h n = ground arith
error-stuck m (inference_complete b) h n = ground arith
error-stuck m inference_error h n = ground arith
error-stuck m postprocessing_complete h n = ground arith
error-stuck m reset_to_idle h n = absurd (n refl)
