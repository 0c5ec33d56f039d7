-- ===== src/Runtime/Controller/Cancelling.antt =====
-- DaemonRuntimeController: lemmas on CancelOperation, ReloadAsrBackend and the invariant.
use fcitx5_vinput.Base.{
  String, ◌≡◌, refl, Bool, true, false, not, ◌||◌, List, [], ◌∷◌, ◌++◌, Option, none, some, arith,
  if◌then◌else◌, if_both,
}
use fcitx5_vinput.Asr.Contract.{SessionApi}
use fcitx5_vinput.Runtime.Machine
use fcitx5_vinput.Runtime.Machine.{
  Status, idle, recording, inferring, postprocessing, status_eq, on_start_recording,
  on_stop_recording, on_cancel, on_reset_to_idle, clear, abort_recording_to_idle, Transition,
}
use fcitx5_vinput.Runtime.Lifecycle
use fcitx5_vinput.Runtime.AudioBuffer
use fcitx5_vinput.Runtime.Controller.{
  Controller, MethodResult, success, failure, maybe_apply_pending_reload, reload_asr_backend,
  reload_failure, backend_synchronized, reset_recording_state, say, notify_status, Output,
  capture_stopped, restored,
}
use fcitx5_vinput.Runtime.Controller.Recording.{
  disarm_start, cancel_start, cancel_recording, cancel_accepted, cancel_transition,
  cancel_operation,
}
use fcitx5_vinput.Runtime.Controller.Steps.{Position}
use fcitx5_vinput.Runtime.Controller.Invariant.{
  IsSound, same_parts, reload-IsSound, cancel-active, said-IsSound,
}
use fcitx5_vinput.Runtime.Controller.Stopping.{dropped-IsSound}

cancelled_phase :
    (m : Machine.RuntimeStateMachine) (commit : Bool)
    → (on_cancel m commit).1.should_stop_capture ≡ true
    → (m.phase ≡ recording) × ((on_cancel m commit).0.phase ≡ idle)
unfolding on_cancel abort_recording_to_idle
cancelled_phase m commit t = ground arith

uncancelled_phase :
    (m : Machine.RuntimeStateMachine) (commit : Bool)
    → (on_cancel m commit).1.should_stop_capture ≡ false
    → (on_cancel m commit).0.phase ≡ m.phase
unfolding on_cancel abort_recording_to_idle
uncancelled_phase m commit t = ground arith

module _ (api : SessionApi) (G : AudioBuffer.Gains) {Settings : Type 0}
    (p : Position Settings) where
  abbrev Ok : Controller api G → Type 0
  Ok c = IsSound p c

  abbrev First {ℓ} : {B : Type ℓ} → Controller api G × B → Type 0
  First x = IsSound p x.0

  cancel_start-IsSound : (c : Controller api G) → Ok c → Ok (cancel_start api G c)
  unfolding cancel_start
  cancel_start-IsSound c i =
      if_both Ok c.start_recording_in_progress (disarm_start api G c) c
        (λ h. ground (arith, i.whole, h)) (λ h. i)

  cancel_recording-IsSound :
      (r : Transition) (c : Controller api G)
      → Ok c
      → c.machine.phase ≡ recording
      → r.0.phase ≡ idle
      → Ok (cancel_recording api G r c)
  unfolding cancel_recording reset_recording_state notify_status Lifecycle.detach_active
  cancel_recording-IsSound (m, t) c i e n =
      dropped-IsSound api G p c (cancel_recording api G (m, t) c) i e refl refl n
        (cancel-active api c.lifecycle.active_session _) refl

  cancel_accepted-IsSound :
      (r : Transition) (stop_capture : Bool) (e : Option String) (c : Controller api G)
      → Ok c
      → (r.1.should_stop_capture ≡ true → (c.machine.phase ≡ recording) × (r.0.phase ≡ idle))
      → (r.1.should_stop_capture ≡ false → r.0.phase ≡ c.machine.phase)
      → Ok (cancel_accepted api G r stop_capture e c)
  unfolding cancel_accepted
  cancel_accepted-IsSound (m, t) stop_capture e c i stops stays =
      let d : Controller api G = record c {
        machine = m;
        postprocessing_cancel_requested =
            (t.should_commit_raw_text || t.should_discard_text)
            || c.postprocessing_cancel_requested;
      } in
      let out : List Output = if stop_capture then capture_stopped ∷ restored ∷ [] else [] in
      let dropped = cancel_recording api G (m, t) c in
      if_both Ok t.should_stop_capture (maybe_apply_pending_reload api G e dropped)
        (say api G out d)
        (λ h.
          reload-IsSound api G p e dropped
            (cancel_recording-IsSound (m, t) c i (stops h).0 (stops h).1))
        (λ h. said-IsSound api G p out d (
          same_parts p c d
            (record {
              starting = refl;
              accepting = refl;
              phase = stays h;
              active = refl;
              order = refl;
            })
            i))

  pub cancel_operation-IsSound :
      (ime commit : Bool) (e : Option String) (c : Controller api G)
      → Ok c
      → Ok (cancel_operation api G ime commit e c).0
  unfolding cancel_operation cancel_transition
  cancel_operation-IsSound ime commit e c i =
      let d = cancel_start api G c in
      let r = on_cancel d.machine commit in
      let stop = c.start_recording_in_progress in
      let j = cancel_start-IsSound c i in
      let told : Controller api G = record d { session_ime = ime } in
      if_both (First {B = MethodResult}) (not r.1.accepted)
        (d, if stop then success else failure r.1.rejection_reason)
        (cancel_accepted api G r stop e told, success) (λ h. j)
        (λ h.
          cancel_accepted-IsSound r stop e told
            (same_parts p d told
              (record {
                starting = refl;
                accepting = refl;
                phase = refl;
                active = refl;
                order = refl;
              })
              j)
            (cancelled_phase d.machine commit) (uncancelled_phase d.machine commit))

  pub reload_asr_backend-IsSound :
      (e : Option String) (c : Controller api G) → Ok c → Ok (reload_asr_backend api G e c).0
  unfolding reload_asr_backend
  reload_asr_backend-IsSound e c i =
      let later : Controller api G = record c { pending_asr_backend_reload = true } in
      let out : List Output = backend_synchronized ∷ [] in
      let now : Controller api G = record c { output = c.output ++ out } in
      if_both (First {B = MethodResult})
        (not (status_eq c.machine.phase idle) || c.start_recording_in_progress) (later, success)
        (now, elim e [ none ↦ success | some x ↦ failure (reload_failure api G x) ])
        (λ h.
          same_parts p c later
            (record {
              starting = refl;
              accepting = refl;
              phase = refl;
              active = refl;
              order = refl;
            })
            i)
        (λ h.
          same_parts p c now
            (record {
              starting = refl;
              accepting = refl;
              phase = refl;
              active = refl;
              order = refl;
            })
            i)
