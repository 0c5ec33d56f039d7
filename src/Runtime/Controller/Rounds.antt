-- ===== src/Runtime/Controller/Rounds.antt =====
-- DaemonRuntimeController: lemmas on the sections of WorkerMain and the invariant.
use Prim.Native.Nat.{ℕ}
use fcitx5_vinput.Base.{
  ◌≡◌, refl, sym, ap, ◌∙◌, Bool, true, false, not, ◌||◌, List, [], ◌∷◌, Option, none, some, arith,
  if◌then◌else◌, if_both, ℤ, str_empty, is_empty,
}
use fcitx5_vinput.Asr.Contract.{SessionApi, Outcome, RecognitionRunResult}
use fcitx5_vinput.Runtime.Machine
use fcitx5_vinput.Runtime.Machine.{
  Status, idle, recording, inferring, postprocessing, status_eq, on_inference_complete,
  take_postprocessing_state,
}
use fcitx5_vinput.Runtime.Lifecycle
use fcitx5_vinput.Runtime.AudioBuffer
use fcitx5_vinput.Runtime.Pipeline.{PostprocessRequest, PipelineResult}
use fcitx5_vinput.Runtime.Controller.{
  RecognitionOrder, Controller, Output, say, notification, partial,
}
use fcitx5_vinput.Runtime.Controller.Worker.{
  is_normalized, recognized, enter_postprocessing, begin_process, deliver, push_order,
  finish_pushed, recognize,
}
use fcitx5_vinput.Runtime.Controller.Steps.{Position, resting, ending, serving, processing}
use fcitx5_vinput.Runtime.Controller.Invariant.{is_working, is_present, Fits, IsSound, SameParts}
use fcitx5_vinput.Runtime.Controller.Kept.{push-active}

module _ (api : SessionApi) (G : AudioBuffer.Gains) where
  recognized_parts :
      (order : RecognitionOrder) (r : RecognitionRunResult) (c : Controller api G)
      → SameParts c (recognized api G order r c).0
  unfolding recognized say
  recognized_parts order r c =
      let out : List Output =
        notification
          (if str_empty r.error then "Failed to finish recognition session." else r.error)
        ∷ [] in
      let told : List Output = partial order.ime r.text ∷ [] in
      let request = order.postprocess_request in
      let heard : Controller api G × Option PostprocessRequest =
        (say api G told c, some (record request { text = r.text })) in
      let Parts : Controller api G × Option PostprocessRequest → Type 0 = λ x. SameParts c x.0 in
      if_both Parts (not r.ok || not (str_empty r.error)) (say api G out c, none)
        (if not (str_empty r.text) then heard else (c, some request))
        (λ h. record {
          starting = refl;
          accepting = refl;
          phase = refl;
          active = refl;
          order = refl;
        })
        (λ h.
          if_both Parts (not (str_empty r.text)) heard (c, some request)
            (λ k. record {
              starting = refl;
              accepting = refl;
              phase = refl;
              active = refl;
              order = refl;
            })
            (λ k. record {
              starting = refl;
              accepting = refl;
              phase = refl;
              active = refl;
              order = refl;
            }))

  finish-active :
      (s : Option ℕ) (m : Lifecycle.Manager api)
      → (Lifecycle.finish_session_and_collect_result api s m).0.active_session ≡ m.active_session
  unfolding Lifecycle.finish_session_and_collect_result
  finish-active none m = refl
  finish-active (some s) m = refl

module _ (api : SessionApi) (G : AudioBuffer.Gains) (to_chunk normalized : List ℤ → api.Chunk) where
  push_order-active :
      (normalize_audio : Bool) (order : RecognitionOrder) (m : Lifecycle.Manager api)
      → (push_order api G to_chunk normalized normalize_audio order m).0.active_session
        ≡ m.active_session
  unfolding push_order
  push_order-active normalize_audio order m =
      let ok : Outcome = record { ok = true; error = "" } in
      let chunk =
        if is_normalized normalize_audio order then normalized order.pcm else to_chunk order.pcm in
      if_both (λ (r : Lifecycle.Manager api × Outcome). r.0.active_session ≡ m.active_session)
        (is_empty order.pcm) (m, ok) (Lifecycle.push_audio api order.session chunk "" m) (λ h. refl)
        (λ h. push-active api order.session chunk "" m)

  finish_pushed_parts :
      (order : RecognitionOrder) (r : Lifecycle.Manager api × Outcome) (c : Controller api G)
      → r.0.active_session ≡ c.lifecycle.active_session
      → SameParts c (finish_pushed api G to_chunk normalized order r c).0
  unfolding finish_pushed say take_postprocessing_state
  finish_pushed_parts order (m, o) c e =
      let failed : Controller api G = record c {
        lifecycle = m;
        machine = (take_postprocessing_state c.machine).0;
      } in
      let f = Lifecycle.finish_session_and_collect_result api order.session m in
      let d : Controller api G = record c { lifecycle = f.0 } in
      let out : List Output = notification o.error ∷ [] in
      let q = recognized_parts api G order f.1 d in
      if_both (λ (x : Controller api G × Option PostprocessRequest). SameParts c x.0) (not o.ok)
        (say api G out failed, none) (recognized api G order f.1 d)
        (λ h. record { starting = refl; accepting = refl; phase = refl; active = e; order = refl })
        (λ h. record {
          starting = q.starting;
          accepting = q.accepting;
          phase = q.phase;
          active = q.active ∙ finish-active api G order.session m ∙ e;
          order = q.order;
        })

  pub recognize_parts :
      (normalize_audio : Bool) (order : RecognitionOrder) (c : Controller api G)
      → SameParts c (recognize api G to_chunk normalized normalize_audio order c).0
  unfolding recognize
  recognize_parts normalize_audio order c =
      let pushed = push_order api G to_chunk normalized normalize_audio order c.lifecycle in
      let heard = finish_pushed api G to_chunk normalized order pushed c in
      let answer : Option ℕ → Controller api G × Option PostprocessRequest =
        λ s. elim s [ none ↦ (c, some order.postprocess_request) | some n ↦ heard ] in
      elim (order.session) as (λ s. SameParts c (answer s).0) [
        | none ↦ record {
          starting = refl;
          accepting = refl;
          phase = refl;
          active = refl;
          order = refl;
        }
        | some n ↦
            finish_pushed_parts order pushed c (push_order-active normalize_audio order c.lifecycle)
      ]

processed_phase :
    (m : Machine.RuntimeStateMachine)
    → m.phase ≡ inferring
    → (on_inference_complete m true).0.phase ≡ postprocessing
unfolding on_inference_complete
processed_phase m e = ground arith

module _ (api : SessionApi) (G : AudioBuffer.Gains) {Settings : Type 0} where
  -- A worker with an order: audio is not accepted and no session is active.
  working_at :
      (p q : Position Settings) (c d : Controller api G)
      → IsSound p c
      → c.machine.phase ≡ inferring
      → d.start_recording_in_progress ≡ c.start_recording_in_progress
      → d.accepting_chunks ≡ c.accepting_chunks
      → d.lifecycle.active_session ≡ c.lifecycle.active_session
      → status_eq d.machine.phase recording ≡ false
      → Fits q d.machine.phase d.current_order
      → IsSound q d
  working_at p q c d i e s a l n f = record {
    whole = s ∙ i.whole;
    listening = ground (arith, i.listening, e, a);
    session = ap is_present l ∙ i.session ∙ ap (λ v. status_eq v recording) e ∙ sym n;
    fits = f;
  }

  pub begin_process-IsSound :
      (order : RecognitionOrder) (request : PostprocessRequest) (settings : Settings)
      (enters : Bool) (c : Controller api G)
      → IsSound (serving order settings) c
      → IsSound (processing order request settings) (begin_process api G enters c)
  unfolding begin_process enter_postprocessing Fits
  begin_process-IsSound order request settings enters c i =
      let d : Controller api G = record c { postprocessing_cancel_requested = false } in
      let p : Position Settings = serving order settings in
      let q : Position Settings = processing order request settings in
      let e = processed_phase c.machine i.fits in
      if_both (IsSound q) enters (enter_postprocessing api G d) d
        (λ h.
          working_at p q c (enter_postprocessing api G d) i i.fits refl refl refl
            (ap (λ v. status_eq v recording) e) (ap is_working e))
        (λ h.
          working_at p q c d i i.fits refl refl refl (ap (λ v. status_eq v recording) i.fits)
            (ap is_working i.fits))

  pub deliver-IsSound :
      (order : RecognitionOrder) (request : PostprocessRequest) (settings : Settings)
      (r : PipelineResult) (c : Controller api G)
      → IsSound (processing order request settings) c
      → IsSound {Settings = Settings} ending (deliver api G order request r c)
  unfolding deliver take_postprocessing_state Fits
  deliver-IsSound order request settings r c i = record {
    whole = i.whole;
    listening = i.listening;
    session = i.session;
    fits = i.fits;
  }

  pub served-IsSound :
      (order : RecognitionOrder) (settings : Settings) (c : Controller api G)
      → IsSound (serving order settings) c
      → IsSound {Settings = Settings} ending c
  unfolding Fits
  served-IsSound order settings c i = record {
    whole = i.whole;
    listening = i.listening;
    session = i.session;
    fits = ap is_working i.fits;
  }

  pub taken-IsSound :
      (order moved : RecognitionOrder) (settings : Settings) (c : Controller api G)
      → IsSound {Settings = Settings} resting c
      → c.current_order ≡ some order
      → IsSound (serving order settings) (record c { current_order = some moved })
  unfolding Fits
  taken-IsSound order moved settings c i o = record {
    whole = i.whole;
    listening = i.listening;
    session = i.session;
    fits = ground (arith, i.fits, o);
  }
