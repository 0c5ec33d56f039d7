-- ===== src/Runtime/Controller/Starting.antt =====
-- DaemonRuntimeController: lemmas on StartRecording and the invariant.
use Prim.Native.Nat.{ℕ}
use fcitx5_vinput.Base.{
  String, ◌≡◌, refl, sym, ap, subst, ◌∙◌, ◌⊎◌, inl, inr, Bool, true, false, not, ◌||◌, List, [],
  ◌∷◌, Option, none, some, arith, if◌then◌else◌, if_both,
}
use fcitx5_vinput.Asr.Contract.{SessionApi, BackendDescriptor}
use fcitx5_vinput.Runtime.Machine
use fcitx5_vinput.Runtime.Machine.{
  Status, idle, recording, inferring, postprocessing, status_eq, on_start_recording,
  on_stop_recording, on_cancel, on_reset_to_idle, clear, abort_recording_to_idle, Transition,
}
use fcitx5_vinput.Runtime.Lifecycle
use fcitx5_vinput.Runtime.AudioBuffer
use fcitx5_vinput.Runtime.Controller.{
  DaemonRuntimeController, RecognitionOrder, Controller, MethodResult, success, busy,
  schedule_capture_stop, say, notify_status, Output, capture_begun, capture_ended, ducked, restored,
  session_dropped,
}
use fcitx5_vinput.Runtime.Controller.Recording.{
  arm_start, disarm_start, install_start, abort_start, finish_start, start_session, begin_capture,
}
use fcitx5_vinput.Runtime.Controller.Steps.{Position, resting, ending, serving, processing}
use fcitx5_vinput.Runtime.Controller.Invariant.{
  is_present, Fits, IsSound, same_parts, cancel-active, said-IsSound, notified-IsSound,
}

-- Between the sections of a start.
pub record IsArmed {World Float Settings : Type 0} (p : Position Settings)
    (c : DaemonRuntimeController World Float) : Type 0 where
  pub resting_phase : c.machine.phase ≡ idle
  pub no_session : is_present c.lifecycle.active_session ≡ false
  pub fits : Fits p idle c.current_order

-- A worker that fits an idle or a recording controller rests.
idle-Fits :
    {Settings : Type 0} (p : Position Settings) (order : Option RecognitionOrder)
    → Fits p idle order
    → Fits p recording none
unfolding Fits
idle-Fits resting order f = (refl, refl)
idle-Fits (serving o s) order f = ground (arith, f)
idle-Fits (processing o q s) order f = ground (arith, f)
idle-Fits ending order f = ground (arith, f)

started_phase :
    (m : Machine.RuntimeStateMachine) (is_command : Bool) (text : String)
    → m.phase ≡ idle
    → (on_start_recording m is_command text).0.phase ≡ recording
unfolding on_start_recording
started_phase m is_command text e = ground arith

module _ (api : SessionApi) (G : AudioBuffer.Gains) {Settings : Type 0}
    (p : Position Settings) where
  abbrev Ok : Controller api G → Type 0
  Ok c = IsSound p c

  abbrev First {ℓ} : {B : Type ℓ} → Controller api G × B → Type 0
  First x = IsSound p x.0

  scheduled-IsSound : (c : Controller api G) → Ok c → Ok (schedule_capture_stop api G c)
  unfolding schedule_capture_stop
  scheduled-IsSound c i =
      same_parts p c (schedule_capture_stop api G c)
        (record { starting = refl; accepting = refl; phase = refl; active = refl; order = refl }) i

  said-IsArmed :
      (out : List Output) (c : Controller api G) → IsArmed p c → IsArmed p (say api G out c)
  unfolding say
  said-IsArmed out c i = record {
    resting_phase = i.resting_phase;
    no_session = i.no_session;
    fits = i.fits;
  }

  pub arm_start-IsArmed :
      (ime : Bool) (c : Controller api G)
      → Ok c
      → (arm_start api G ime c).1 ≡ true
      → IsArmed p (arm_start api G ime c).0
  unfolding arm_start
  arm_start-IsArmed ime c i =
      let d : Controller api G = record c {
        pending_capture_stop = false;
        buffer = AudioBuffer.reset G G.one c.buffer;
        session_ime = ime;
        start_recording_in_progress = true;
        accepting_chunks = true;
      } in
      if_both (λ (x : Controller api G × Bool). x.1 ≡ true → IsArmed p x.0)
        (not (status_eq c.machine.phase idle) || c.start_recording_in_progress) (c, false) (d, true)
        (λ h t. ground (arith, t))
        (λ h t.
          let e : c.machine.phase ≡ idle = ground (arith, h) in
          record {
            resting_phase = e;
            no_session = i.session ∙ ap (λ s. status_eq s recording) e;
            fits = subst (λ s. Fits p s c.current_order) e i.fits;
          })

  pub arm_start-IsSound :
      (ime : Bool) (c : Controller api G)
      → Ok c
      → (arm_start api G ime c).1 ≡ false
      → Ok (arm_start api G ime c).0
  unfolding arm_start
  arm_start-IsSound ime c i =
      let d : Controller api G = record c {
        pending_capture_stop = false;
        buffer = AudioBuffer.reset G G.one c.buffer;
        session_ime = ime;
        start_recording_in_progress = true;
        accepting_chunks = true;
      } in
      if_both (λ (x : Controller api G × Bool). x.1 ≡ false → Ok x.0)
        (not (status_eq c.machine.phase idle) || c.start_recording_in_progress) (c, false) (d, true)
        (λ h t. i) (λ h t. ground (arith, t))

  disarm_start-IsSound : (c : Controller api G) → IsArmed p c → Ok (disarm_start api G c)
  unfolding disarm_start
  disarm_start-IsSound c i = record {
    whole = refl;
    listening = inl refl;
    session = i.no_session ∙ ap (λ s. status_eq s recording) (sym i.resting_phase);
    fits = subst (λ s. Fits p s c.current_order) (sym i.resting_phase) i.fits;
  }

  install_start-IsSound :
      (is_command : Bool) (text : String) (gain : G.Float) (made : ℕ × BackendDescriptor)
      (c : Controller api G)
      → IsArmed p c
      → Ok (install_start api G is_command text gain made c)
  unfolding install_start Lifecycle.install_active_session
  install_start-IsSound is_command text gain (session, descriptor) c i =
      let e = started_phase c.machine is_command text i.resting_phase in
      record {
        whole = refl;
        listening = inr e;
        session =
            ap is_present (cancel-active api c.lifecycle.active_session _)
            ∙ ap (λ s. status_eq s recording) (sym e);
        fits = subst (λ s. Fits p s none) (sym e) (idle-Fits p c.current_order i.fits);
      }

  finish_start-IsSound :
      (is_command : Bool) (text : String) (gain : G.Float) (ducks : Bool)
      (made : ℕ × BackendDescriptor) (c : Controller api G)
      → IsArmed p c
      → Ok (finish_start api G is_command text gain ducks made c).0
  unfolding finish_start abort_start
  finish_start-IsSound is_command text gain ducks (session, descriptor) c i =
      let started = install_start api G is_command text gain (session, descriptor) c in
      let out : List Output = if ducks then ducked ∷ [] else [] in
      let told = say api G out started in
      let dropped : List Output = capture_ended ∷ restored ∷ session_dropped session ∷ [] in
      if_both (First {B = MethodResult})
        (not c.start_recording_in_progress || not (status_eq c.machine.phase idle))
        (abort_start api G session c, busy) (notify_status api G recording told, success)
        (λ h.
          scheduled-IsSound (say api G dropped (disarm_start api G c))
            (said-IsSound api G p dropped (disarm_start api G c) (disarm_start-IsSound c i)))
        (λ h. notified-IsSound api G p recording told (
          said-IsSound api G p out started
            (install_start-IsSound is_command text gain (session, descriptor) c i)))

  start_session-IsSound :
      (is_command : Bool) (text : String) (gain : G.Float) (ducks : Bool)
      (made : (ℕ × BackendDescriptor) ⊎ String) (c : Controller api G)
      → IsArmed p c
      → Ok (start_session api G is_command text gain ducks made c).0
  unfolding start_session
  start_session-IsSound is_command text gain ducks (inl made) c i =
      finish_start-IsSound is_command text gain ducks made c i
  start_session-IsSound is_command text gain ducks (inr e) c i =
      let out : List Output = capture_ended ∷ restored ∷ [] in
      scheduled-IsSound (say api G out (disarm_start api G c))
        (said-IsSound api G p out (disarm_start api G c) (disarm_start-IsSound c i))

  pub begin_capture-IsSound :
      (is_command : Bool) (text : String) (gain : G.Float) (ducks : Bool) (device : String)
      (e : Option String) (made : (ℕ × BackendDescriptor) ⊎ String) (c : Controller api G)
      → IsArmed p c
      → Ok (begin_capture api G is_command text gain ducks device e made c).0
  unfolding begin_capture
  begin_capture-IsSound is_command text gain ducks device (some e) made c i =
      disarm_start-IsSound c i
  begin_capture-IsSound is_command text gain ducks device none made c i =
      let begun : List Output = capture_begun device ∷ [] in
      start_session-IsSound is_command text gain ducks made (say api G begun c)
        (said-IsArmed begun c i)
