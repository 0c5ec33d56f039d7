-- ===== src/Runtime/Controller/Stopping.antt =====
-- DaemonRuntimeController: lemmas on StopRecording and the invariant.
use Prim.Native.Nat.{ℕ}
use fcitx5_vinput.Base.{
  String, ◌≡◌, refl, sym, ap, subst, ◌∙◌, inl, Bool, true, false, not, List, Option, none, some,
  arith, if◌then◌else◌, if_both, ℤ,
}
use fcitx5_vinput.Asr.Contract.{SessionApi}
use fcitx5_vinput.Runtime.Machine
use fcitx5_vinput.Runtime.Machine.{
  Status, idle, recording, inferring, postprocessing, status_eq, on_start_recording,
  on_stop_recording, on_cancel, on_reset_to_idle, clear, abort_recording_to_idle, Transition,
}
use fcitx5_vinput.Runtime.Lifecycle
use fcitx5_vinput.Runtime.AudioBuffer
use fcitx5_vinput.Runtime.Controller.{
  RecognitionOrder, Controller, MethodResult, success, failure, maybe_apply_pending_reload,
  reset_recording_state, notify_status, min_samples,
}
use fcitx5_vinput.Runtime.Controller.Recording.{
  begin_stop, stop_without_session, drop_recording, submit_order, stop_session, finish_stop,
  stop_recording,
}
use fcitx5_vinput.Runtime.Controller.Steps.{Position, resting, ending, serving, processing}
use fcitx5_vinput.Runtime.Controller.Invariant.{
  is_present, quiet-Fits, Fits, IsSound, same_parts, reload-IsSound, cancel-active,
  notified-IsSound,
}

submit-Fits :
    {Settings : Type 0} (p : Position Settings) (order : Option RecognitionOrder)
    (o : RecognitionOrder)
    → Fits p recording order
    → Fits p inferring (some o)
unfolding Fits
submit-Fits resting order o f = (refl, refl)
submit-Fits (serving _ s) order o f = refl
submit-Fits (processing _ q s) order o f = refl
submit-Fits ending order o f = refl

dropped_phase :
    (m : Machine.RuntimeStateMachine) (n k : ℕ)
    → m.phase ≡ recording
    → (on_stop_recording m n k).1.is_too_short ≡ true
    → (on_stop_recording m n k).0.phase ≡ idle
unfolding on_stop_recording abort_recording_to_idle
dropped_phase m n k e t = ground arith

submitted_phase :
    (m : Machine.RuntimeStateMachine) (n k : ℕ)
    → m.phase ≡ recording
    → (on_stop_recording m n k).1.is_too_short ≡ false
    → (on_stop_recording m n k).0.phase ≡ inferring
unfolding on_stop_recording abort_recording_to_idle
submitted_phase m n k e t = ground arith

module _ (api : SessionApi) (G : AudioBuffer.Gains) {Settings : Type 0}
    (p : Position Settings) where
  abbrev Ok : Controller api G → Type 0
  Ok c = IsSound p c

  abbrev First {ℓ} : {B : Type ℓ} → Controller api G × B → Type 0
  First x = IsSound p x.0

  begin_stop-IsSound : (ime : Bool) (c : Controller api G) → Ok c → Ok (begin_stop api G ime c)
  unfolding begin_stop
  begin_stop-IsSound ime c i = record {
    whole = i.whole;
    listening = inl refl;
    session = i.session;
    fits = i.fits;
  }

  stop_without_session-IsSound :
      (c : Controller api G)
      → Ok c
      → c.machine.phase ≡ recording
      → c.accepting_chunks ≡ false
      → Lifecycle.has_active_session api c.lifecycle ≡ false
      → Ok (stop_without_session api G c)
  unfolding stop_without_session on_reset_to_idle clear Lifecycle.has_active_session
  stop_without_session-IsSound c i e a n =
      let d : Controller api G = record c {
        machine = (on_reset_to_idle c.machine).0;
        current_order = none;
      } in
      notified-IsSound api G p idle d (record {
        whole = i.whole;
        listening = inl a;
        session = ground (arith, n);
        fits =
            quiet-Fits p c.current_order recording refl
              (subst (λ s. Fits p s c.current_order) e i.fits);
      })

  -- The session leaves, and the machine goes to idle.
  pub dropped-IsSound :
      (c d : Controller api G)
      → Ok c
      → c.machine.phase ≡ recording
      → d.start_recording_in_progress ≡ c.start_recording_in_progress
      → d.accepting_chunks ≡ false
      → d.machine.phase ≡ idle
      → d.lifecycle.active_session ≡ none
      → d.current_order ≡ none
      → Ok d
  dropped-IsSound c d i e s a m l o = record {
    whole = s ∙ i.whole;
    listening = inl a;
    session = ap is_present l ∙ ap (λ v. status_eq v recording) (sym m);
    fits =
        rw (m, o)
          (quiet-Fits p c.current_order recording refl
            (subst (λ v. Fits p v c.current_order) e i.fits));
  }

  drop_recording-IsSound :
      (r : Transition) (c : Controller api G)
      → Ok c
      → c.machine.phase ≡ recording
      → c.accepting_chunks ≡ false
      → r.0.phase ≡ idle
      → Ok (drop_recording api G r c)
  unfolding drop_recording reset_recording_state notify_status Lifecycle.detach_active
  drop_recording-IsSound (m, t) c i e a n =
      dropped-IsSound c (drop_recording api G (m, t) c) i e refl a n
        (cancel-active api c.lifecycle.active_session _) refl

  submit_order-IsSound :
      (r : Transition) (scene_id : String) (c : Controller api G)
      → Ok c
      → c.machine.phase ≡ recording
      → c.accepting_chunks ≡ false
      → r.0.phase ≡ inferring
      → Ok (submit_order api G r scene_id c)
  unfolding submit_order notify_status Lifecycle.detach_active
  submit_order-IsSound (m, t) scene_id c i e a n = record {
    whole = i.whole;
    listening = inl a;
    session = ap (λ v. status_eq v recording) (sym n);
    fits =
        subst (λ v. Fits p v (submit_order api G (m, t) scene_id c).current_order) (sym n)
          (submit-Fits p c.current_order _ (subst (λ v. Fits p v c.current_order) e i.fits));
  }

  finish_stop-IsSound :
      (scene_id : String) (captured : List ℤ) (c : Controller api G)
      → Ok c
      → c.machine.phase ≡ recording
      → c.accepting_chunks ≡ false
      → Ok (finish_stop api G scene_id captured c).0
  unfolding finish_stop stop_session
  finish_stop-IsSound scene_id captured c i e a =
      let kept : Controller api G = record c { buffer = AudioBuffer.append G captured c.buffer } in
      let r = on_stop_recording kept.machine kept.buffer.total_samples min_samples in
      let j =
        same_parts p c kept
          (record { starting = refl; accepting = refl; phase = refl; active = refl; order = refl })
          i in
      let dropped : Controller api G × Bool = (drop_recording api G r kept, true) in
      let submitted : Controller api G × Bool = (submit_order api G r scene_id kept, false) in
      if_both (First {B = Bool}) (not (Lifecycle.has_active_session api c.lifecycle))
        (stop_without_session api G c, true) (if r.1.is_too_short then dropped else submitted)
        (λ h. stop_without_session-IsSound c i e a (ground arith))
        (λ h.
          if_both (First {B = Bool}) r.1.is_too_short dropped submitted
            (λ t.
              drop_recording-IsSound r kept j e a
                (dropped_phase c.machine kept.buffer.total_samples min_samples e t))
            (λ t.
              submit_order-IsSound r scene_id kept j e a
                (submitted_phase c.machine kept.buffer.total_samples min_samples e t)))

  pub stop_recording-IsSound :
      (ime : Bool) (scene_id : String) (captured : List ℤ) (e : Option String)
      (c : Controller api G)
      → Ok c
      → Ok (stop_recording api G ime scene_id captured e c).0
  unfolding stop_recording begin_stop
  stop_recording-IsSound ime scene_id captured e c i =
      let b = begin_stop api G ime c in
      let r = finish_stop api G scene_id captured b in
      let reloaded = maybe_apply_pending_reload api G e r.0 in
      if_both (First {B = MethodResult}) (not (status_eq c.machine.phase recording))
        (c, failure "Recording is not active.") (if r.1 then reloaded else r.0, success) (λ h. i)
        (λ h.
          let j =
            finish_stop-IsSound scene_id captured b (begin_stop-IsSound ime c i) (ground arith)
              refl in
          if_both Ok r.1 reloaded r.0 (λ k. reload-IsSound api G p e r.0 j) (λ k. j))
