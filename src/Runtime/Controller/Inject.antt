-- ===== src/Runtime/Controller/Inject.antt =====
-- DaemonRuntimeController: InjectText into a scene, and the worker that serves it.
use fcitx5_vinput.Base.{
  String, ◌≡◌, refl, sym, ap, subst, ◌∙◌, Bool, true, false, [], ◌∷◌, Option, none, some, str_empty,
}
use fcitx5_vinput.Asr.Contract.{SessionApi, chunked, no_backend}
use fcitx5_vinput.Config.Normalize.{normalize_core_config}
use fcitx5_vinput.Runtime.Machine.{idle}
use fcitx5_vinput.Runtime.AudioBuffer
use fcitx5_vinput.Runtime.Pipeline.{process}
use fcitx5_vinput.Runtime.Controller.{
  RecognitionOrder, Controller, MethodResult, success, Answers, reset_to_idle,
  reset_recording_state,
}
use fcitx5_vinput.Runtime.Controller.Worker.{
  final_stage, inject_text, recognize, begin_process, enter_postprocessing, deliver,
}
use fcitx5_vinput.Runtime.Controller.Steps.{
  Outside, resting, serving, System, take_order, recognized_order, work, inject, worker_step,
  operate, step, run, moved_from, Settings,
}

-- The order of an injected text.
abbrev pub injected_order : Bool → String → String → RecognitionOrder
injected_order ime text scene_id = record {
  audio_delivery_mode = chunked;
  session = none;
  backend = no_backend;
  pcm = [];
  postprocess_request = record {
    text = text;
    scene_id = scene_id;
    is_command = false;
    selected_text = "";
  };
  ime = ime;
}

module _ (api : SessionApi) (G : AudioBuffer.Gains) where
  abbrev queued : Bool → RecognitionOrder → Controller api G → Controller api G
  queued ime order c = record c { session_ime = ime; current_order = some order }

  inject_text_queues :
      (ime : Bool) (text scene_id : String) (c : Controller api G)
      → str_empty scene_id ≡ false
      → c.machine.phase ≡ idle
      → inject_text api G ime final_stage text scene_id c
        ≡ (queued ime (injected_order ime text scene_id) c, success)
  unfolding inject_text
  inject_text_queues ime text scene_id c n e = simp (n, e)

module _ (O : Outside) where
  open O use {platform, api, gains}

  -- What the worker does with an order without a session, from the pipeline to ResetToIdle.
  round :
      Answers platform
      → Bool
      → RecognitionOrder
      → Settings O
      → Controller api gains
      → Controller api gains
  round a enters order settings c =
      let d = begin_process api gains enters c in
      let r =
        process platform O.processor order.postprocess_request settings
          d.postprocessing_cancel_requested in
      reset_to_idle api gains a.synchronize_error
        (deliver api gains order order.postprocess_request r d)

  -- It does not read the order that is waiting.
  round_forgets :
      (a : Answers platform) (enters : Bool) (order : RecognitionOrder) (settings : Settings O)
      (o : Option RecognitionOrder) (c : Controller api gains)
      → round a enters order settings (record c { current_order = o })
        ≡ round a enters order settings c
  unfolding round begin_process enter_postprocessing deliver reset_to_idle reset_recording_state
  round_forgets a true order settings o c = refl
  round_forgets a false order settings o c = refl

  -- While the first order is served.
  abbrev serving_at : RecognitionOrder → Answers platform → Controller api gains → System O
  serving_at order a c = record {
    controller = record c { session_ime = order.ime; current_order = some (moved_from order) };
    position = serving order (normalize_core_config O.prompts platform a.settings);
  }

  taken :
      (a : Answers platform) (ime : Bool) (text scene_id : String) (c : Controller api gains)
      → str_empty scene_id ≡ false
      → c.machine.phase ≡ idle
      → run O
          (record { controller = c; position = resting })
          (inject ime final_stage text scene_id ∷ worker_step a ∷ [])
        ≡ serving_at (injected_order ime text scene_id) a c
  unfolding run step operate work take_order
  taken a ime text scene_id c n e =
      ap
        (λ (x : Controller api gains × MethodResult).
          work O resting a (record { controller = x.0; position = resting }))
        (inject_text_queues api gains ime text scene_id c n e)

  at_rest : Controller api gains → System O
  at_rest c = record { controller = c; position = resting }

  forgotten :
      (a b d e : Answers platform) (ime : Bool) (text scene_id : String) (next : RecognitionOrder)
      (c : Controller api gains)
      → let order = injected_order ime text scene_id in
        run O
          (record (serving_at order a c) {
            controller = queued api gains ime next (serving_at order a c).controller;
          })
          (worker_step b ∷ worker_step d ∷ worker_step e ∷ [])
        ≡ run O (serving_at order a c) (worker_step b ∷ worker_step d ∷ worker_step e ∷ [])
  unfolding run step work recognize recognized_order round at_rest
  forgotten a b d e ime text scene_id next c =
      let order = injected_order ime text scene_id in
      let settings = normalize_core_config O.prompts platform a.settings in
      let t = serving_at order a c in
      ap at_rest (
        round_forgets e
          (process platform O.processor order.postprocess_request settings false).entered order
          settings (some next) t.controller)

  -- From rest, a text is injected into a scene, and the worker takes it. A second injection into a scene
  -- under the same flag is accepted then, but after the three next sections of the worker, with no other
  -- step between them, the system is the one without the second injection.
  pub inject_overwritten :
      (a b d e : Answers platform) (ime : Bool) (first scene_id second other_id : String)
      (c : Controller api gains)
      → c.machine.phase ≡ idle
      → str_empty scene_id ≡ false
      → str_empty other_id ≡ false
      → let s =
          run O
            (record { controller = c; position = resting })
            (inject ime final_stage first scene_id ∷ worker_step a ∷ []) in
        let rest = worker_step b ∷ worker_step d ∷ worker_step e ∷ [] in
        ((operate O (inject ime final_stage second other_id) s.controller).1 ≡ success)
        × (run O s (inject ime final_stage second other_id ∷ rest) ≡ run O s rest)
  unfolding run step operate
  inject_overwritten a b d e ime first scene_id second other_id c i n m =
      let t = serving_at (injected_order ime first scene_id) a c in
      let q = inject_text_queues api gains ime second other_id t.controller m i in
      let rest = worker_step b ∷ worker_step d ∷ worker_step e ∷ [] in
      let Overwritten : System O → Type 0 = λ s.
        ((operate O (inject ime final_stage second other_id) s.controller).1 ≡ success)
        × (run O s (inject ime final_stage second other_id ∷ rest) ≡ run O s rest) in
      subst Overwritten (sym (taken a ime first scene_id c n i)) (
        ap (λ x. x.1) q,
        ap (λ (x : Controller api gains × MethodResult). run O (record t { controller = x.0 }) rest)
              q
            ∙ forgotten a b d e ime first scene_id (injected_order ime second other_id) c,
      )
