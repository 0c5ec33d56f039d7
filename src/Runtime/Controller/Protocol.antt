-- ===== src/Runtime/Controller/Protocol.antt =====
-- DaemonRuntimeController: lemmas on the phase before and after the operations of the callers.
use Prim.Native.Nat.{ℕ}
use fcitx5_vinput.Base.{
  String, ◌≡◌, refl, sym, subst, Bool, true, false, not, List, [], ◌∷◌, ◌++◌, Option, none, some,
  arith, if◌then◌else◌, if_both, ◌⊎◌, inl, inr, ℤ,
}
use fcitx5_vinput.Asr.Contract.{SessionApi, BackendDescriptor}
use fcitx5_vinput.Runtime.Machine
use fcitx5_vinput.Runtime.Machine.{
  Status, idle, recording, inferring, postprocessing, status_eq, on_start_recording,
  on_stop_recording, on_audio_error, abort_recording_to_idle, on_reset_to_idle, clear, on_cancel,
}
use fcitx5_vinput.Runtime.Lifecycle
use fcitx5_vinput.Runtime.AudioBuffer
use fcitx5_vinput.Runtime.Controller.{
  Controller, MethodResult, success, failure, Output, restored, capture_closed, say,
  fail_active_session, schedule_capture_stop, notify_status, min_samples, reset_recording_state,
  maybe_apply_pending_reload,
}
use fcitx5_vinput.Runtime.Controller.Recording.{
  arm_start, disarm_start, install_start, abort_start, finish_start, start_session, begin_capture,
  begin_stop, stop_without_session, drop_recording, submit_order, stop_session, finish_stop,
  stop_recording, cancel_start, cancel_recording, cancel_accepted, cancel_transition,
  cancel_operation,
}
use fcitx5_vinput.Runtime.Controller.Audio.{
  skips_teardown, deferred_stop, flush_deferred_actions, drain_incoming_audio,
  poll_active_session_events,
}
use fcitx5_vinput.Runtime.Controller.Kept.{IsStable, poll_keeps, drain_keeps}
use fcitx5_vinput.Runtime.Controller.Phases.{reset_idle}

-- Recording ends where a session fails, and a deferred stop ends both.
abbrev pub flush_moves : Status → Status → Bool
flush_moves recording Machine.error = true
flush_moves recording idle = true
flush_moves Machine.error idle = true
flush_moves a b = status_eq a b

abbrev pub stop_moves : Status → Status → Bool
stop_moves recording idle = true
stop_moves recording inferring = true
stop_moves recording b = false
stop_moves a b = status_eq a b

abbrev pub cancel_moves : Status → Status → Bool
cancel_moves recording idle = true
cancel_moves a b = status_eq a b

-- A start, with the flush before it.
abbrev pub begin_moves : Status → Status → Bool
begin_moves idle recording = true
begin_moves a b = status_eq a b

module _ (api : SessionApi) (G : AudioBuffer.Gains) where
  -- Since a phase `a`, at most a session has failed.
  abbrev Since : Status → Controller api G → Type 0
  Since a c = (c.machine.phase ≡ a) ⊎ ((a ≡ recording) × (c.machine.phase ≡ Machine.error))

  failed-Since :
      (a : Status) (s : Option ℕ) (message : String) (c : Controller api G)
      → Since a c
      → Since a (fail_active_session api G s message c)
  unfolding fail_active_session schedule_capture_stop reset_recording_state on_audio_error
  failed-Since a s message c h = ground (arith, h)

  since : (a : Status) → IsStable api G (Since a)
  since a = record { parts = λ c d e h. ground (arith, h, e.phase); fails = failed-Since a }

  finish_start_moves :
      (is_command : Bool) (text : String) (gain : G.Float) (ducks : Bool)
      (made : ℕ × BackendDescriptor) (c : Controller api G)
      → begin_moves c.machine.phase
          (finish_start api G is_command text gain ducks made c).0.machine.phase
        ≡ true
  unfolding finish_start abort_start schedule_capture_stop say disarm_start notify_status
      install_start on_start_recording
  finish_start_moves is_command text gain ducks (session, descriptor) c = ground arith

  start_session_moves :
      (is_command : Bool) (text : String) (gain : G.Float) (ducks : Bool)
      (made : (ℕ × BackendDescriptor) ⊎ String) (c : Controller api G)
      → begin_moves c.machine.phase
          (start_session api G is_command text gain ducks made c).0.machine.phase
        ≡ true
  unfolding start_session schedule_capture_stop say disarm_start
  start_session_moves is_command text gain ducks (inl made) c =
      finish_start_moves is_command text gain ducks made c
  start_session_moves is_command text gain ducks (inr e) c = ground arith

  pub begin_capture_moves :
      (is_command : Bool) (text : String) (gain : G.Float) (ducks : Bool) (device : String)
      (e : Option String) (made : (ℕ × BackendDescriptor) ⊎ String) (c : Controller api G)
      → begin_moves c.machine.phase
          (begin_capture api G is_command text gain ducks device e made c).0.machine.phase
        ≡ true
  unfolding begin_capture say disarm_start
  begin_capture_moves is_command text gain ducks device (some e) made c = ground arith
  begin_capture_moves is_command text gain ducks device none made c =
      start_session_moves is_command text gain ducks made (say api G _ c)

  stopped_phase :
      (m : Machine.RuntimeStateMachine) (n k : ℕ)
      → m.phase ≡ recording
      → ((on_stop_recording m n k).0.phase ≡ idle) ⊎ ((on_stop_recording m n k).0.phase ≡ inferring)
  unfolding on_stop_recording abort_recording_to_idle
  stopped_phase m n k e = ground (arith, e)

  finish_stop_moves :
      (scene_id : String) (captured : List ℤ) (c : Controller api G)
      → c.machine.phase ≡ recording
      → stop_moves c.machine.phase (finish_stop api G scene_id captured c).0.machine.phase ≡ true
  unfolding finish_stop stop_without_session stop_session drop_recording submit_order notify_status
      on_reset_to_idle clear
  finish_stop_moves scene_id captured c e =
      let n = (AudioBuffer.append G captured c.buffer).total_samples in
      ground (arith, e, stopped_phase c.machine n min_samples e)

  reload_moves :
      (e : Option String) (c : Controller api G)
      → (maybe_apply_pending_reload api G e c).machine.phase ≡ c.machine.phase
  unfolding maybe_apply_pending_reload
  reload_moves e c = ground arith

  pub stop_recording_moves :
      (ime : Bool) (scene_id : String) (captured : List ℤ) (e : Option String)
      (c : Controller api G)
      → stop_moves c.machine.phase (stop_recording api G ime scene_id captured e c).0.machine.phase
        ≡ true
  unfolding stop_recording begin_stop
  stop_recording_moves ime scene_id captured e c =
      let b = begin_stop api G ime c in
      let r = finish_stop api G scene_id captured b in
      let reloaded = maybe_apply_pending_reload api G e r.0 in
      let Moved : Controller api G → Type 0 =
        λ x. stop_moves c.machine.phase x.machine.phase ≡ true in
      if_both (λ (x : Controller api G × MethodResult). Moved x.0)
        (not (status_eq c.machine.phase recording)) (c, failure "Recording is not active.")
        (if r.1 then reloaded else r.0, success) (λ h. ground (arith, h))
        (λ h.
          let m = finish_stop_moves scene_id captured b (ground (arith, h)) in
          if_both Moved r.1 reloaded r.0
            (λ k. subst (λ s. stop_moves c.machine.phase s ≡ true) (sym (reload_moves e r.0)) m)
            (λ k. m))

  cancel_moved :
      (m : Machine.RuntimeStateMachine) (commit : Bool)
      → cancel_moves m.phase (on_cancel m commit).0.phase ≡ true
  unfolding on_cancel abort_recording_to_idle
  cancel_moved m commit = ground arith

  pub cancel_operation_moves :
      (ime commit : Bool) (e : Option String) (c : Controller api G)
      → cancel_moves c.machine.phase (cancel_operation api G ime commit e c).0.machine.phase ≡ true
  unfolding cancel_operation cancel_start cancel_transition cancel_accepted say disarm_start
      cancel_recording notify_status maybe_apply_pending_reload
  cancel_operation_moves ime commit e c = ground (arith, cancel_moved c.machine commit)

  pub begin_phase :
      (c : Controller api G) (ime : Bool)
      → (arm_start api G ime c).0.machine.phase ≡ c.machine.phase
  unfolding arm_start
  begin_phase c ime = ground arith

module _ (api : SessionApi) (G : AudioBuffer.Gains) (to_chunk : List ℤ → api.Chunk) where
  deferred_stop_moves :
      (is_recording reuses_streams : Bool) (e : Option String) (c : Controller api G)
      → ((deferred_stop api G to_chunk is_recording reuses_streams e c).machine.phase
          ≡ c.machine.phase)
        ⊎ (((deferred_stop api G to_chunk is_recording reuses_streams e c).machine.phase ≡ idle)
            × ((c.machine.phase ≡ idle) ⊎ (c.machine.phase ≡ Machine.error)))
  unfolding deferred_stop skips_teardown say
  deferred_stop_moves is_recording reuses_streams e c =
      let out : List Output =
        if reuses_streams then restored ∷ [] else capture_closed ∷ restored ∷ [] in
      let closed : Controller api G = record c {
        pending_capture_stop = false;
        output = c.output ++ out;
      } in
      ground (arith, (reset_idle api G e closed).0)

  flushed :
      (a b d : Status)
      → (b ≡ a) ⊎ ((a ≡ recording) × (b ≡ Machine.error))
      → (d ≡ b) ⊎ ((d ≡ idle) × ((b ≡ idle) ⊎ (b ≡ Machine.error)))
      → flush_moves a d ≡ true
  flushed a b d h k = ground (arith, h, k)

  pub flush_deferred_actions_moves :
      (queue : List (List ℤ)) (is_recording reuses_streams : Bool) (e : Option String)
      (c : Controller api G)
      → flush_moves c.machine.phase
          (flush_deferred_actions api G to_chunk queue is_recording reuses_streams e
            c).machine.phase
        ≡ true
  unfolding flush_deferred_actions Lifecycle.flush_reaped_sessions
  flush_deferred_actions_moves queue is_recording reuses_streams e c =
      let a = c.machine.phase in
      let k = since api G a in
      let d : Controller api G = record c {
        lifecycle = (Lifecycle.flush_reaped_sessions api c.lifecycle).0;
      } in
      let drained = drain_incoming_audio api G to_chunk queue d in
      let polled = poll_active_session_events api G to_chunk drained in
      flushed a polled.machine.phase _
        (poll_keeps api G to_chunk (Since api G a) k drained
          (drain_keeps api G to_chunk (Since api G a) k queue d (inl refl)))
        (deferred_stop_moves is_recording reuses_streams e polled)
