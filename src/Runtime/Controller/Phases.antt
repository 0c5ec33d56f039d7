-- ===== src/Runtime/Controller/Phases.antt =====
-- DaemonRuntimeController: the operations of the callers while the worker has an order.
use fcitx5_vinput.Base.{String, ◌≡◌, refl, Bool, true, false, List, Option, none, arith, ℤ}
use fcitx5_vinput.Asr.Contract.{SessionApi}
use fcitx5_vinput.Runtime.Machine.{idle, on_cancel}
use fcitx5_vinput.Runtime.Lifecycle
use fcitx5_vinput.Runtime.AudioBuffer
use fcitx5_vinput.Runtime.Controller.{Controller, say, reload_asr_backend}
use fcitx5_vinput.Runtime.Controller.Recording.{
  arm_start, stop_recording, cancel_operation, cancel_start, cancel_transition, cancel_accepted,
}
use fcitx5_vinput.Runtime.Controller.Audio.{
  drain_incoming_audio, poll_active_session_events, skips_teardown, deferred_stop,
  flush_deferred_actions,
}
use fcitx5_vinput.Runtime.Controller.Worker.{InjectStage, partial_stage, final_stage, inject_text}
use fcitx5_vinput.Runtime.Machine.{on_reset_to_idle, clear}
use fcitx5_vinput.Runtime.Controller.{
  reset_to_idle, reset_recording_state, maybe_apply_pending_reload,
}
use fcitx5_vinput.Runtime.Controller.Invariant.{is_working}

module _ (api : SessionApi) (G : AudioBuffer.Gains) (to_chunk : List ℤ → api.Chunk) where
  pub flush_phase :
      (queue : List (List ℤ)) (is_recording reuses_streams : Bool) (e : Option String)
      (c : Controller api G)
      → c.accepting_chunks ≡ false
      → is_working c.machine.phase ≡ true
      → (flush_deferred_actions api G to_chunk queue is_recording reuses_streams e c).machine.phase
        ≡ c.machine.phase
  unfolding flush_deferred_actions drain_incoming_audio poll_active_session_events deferred_stop
      skips_teardown say Lifecycle.flush_reaped_sessions
  flush_phase queue is_recording reuses_streams e c a w = ground (arith, a, w)

module _ (api : SessionApi) (G : AudioBuffer.Gains) where
  pub stop_phase :
      (ime : Bool) (scene_id : String) (captured : List ℤ) (e : Option String)
      (c : Controller api G)
      → is_working c.machine.phase ≡ true
      → (stop_recording api G ime scene_id captured e c).0.machine.phase ≡ c.machine.phase
  unfolding stop_recording
  stop_phase ime scene_id captured e c w = ground (arith, w)

  pub cancel_phase :
      (ime commit : Bool) (e : Option String) (c : Controller api G)
      → c.start_recording_in_progress ≡ false
      → is_working c.machine.phase ≡ true
      → (cancel_operation api G ime commit e c).0.machine.phase ≡ c.machine.phase
  unfolding cancel_operation cancel_start cancel_transition cancel_accepted on_cancel say
  cancel_phase ime commit e c s w = ground (arith, s, w)

  pub reload_phase :
      (e : Option String) (c : Controller api G)
      → (reload_asr_backend api G e c).0.machine.phase ≡ c.machine.phase
  unfolding reload_asr_backend
  reload_phase e c = ground arith

  pub inject_phase :
      (ime : Bool) (stage : InjectStage) (text scene_id : String) (c : Controller api G)
      → (inject_text api G ime stage text scene_id c).0.machine.phase ≡ c.machine.phase
  unfolding inject_text say
  inject_phase ime partial_stage text scene_id c = refl
  inject_phase ime final_stage text scene_id c = ground arith

  -- A start is turned away.
  pub arm_phase :
      (ime : Bool) (c : Controller api G)
      → is_working c.machine.phase ≡ true
      → arm_start api G ime c ≡ (c, false)
  unfolding arm_start
  arm_phase ime c w = ground (arith, w)

  pub reset_idle :
      (e : Option String) (c : Controller api G)
      → ((reset_to_idle api G e c).machine.phase ≡ idle)
        × ((reset_to_idle api G e c).current_order ≡ none)
  unfolding reset_to_idle reset_recording_state maybe_apply_pending_reload on_reset_to_idle clear
  reset_idle e c = (ground arith, ground arith)
