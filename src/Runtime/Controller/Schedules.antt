-- ===== src/Runtime/Controller/Schedules.antt =====
-- DaemonRuntimeController and its thread: schedules and the invariant.
use fcitx5_vinput.Base.{
  String, ◌≡◌, refl, sym, subst, Bool, true, false, List, [], ◌∷◌, Option, none, some, arith,
  if◌then◌else◌, if_both, inl, str_empty,
}
use fcitx5_vinput.Config.Normalize.{normalize_core_config}
use fcitx5_vinput.Runtime.Machine
use fcitx5_vinput.Runtime.Machine.{status_eq}
use fcitx5_vinput.Runtime.Pipeline.{PostprocessRequest, process}
use fcitx5_vinput.Runtime.Controller.{
  RecognitionOrder, Controller, MethodResult, success, Answers, partial, say,
}
use fcitx5_vinput.Runtime.Controller.Recording.{arm_start}
use fcitx5_vinput.Runtime.Controller.Worker.{
  InjectStage, partial_stage, final_stage, inject_text, recognize, result_outputs, raw_payload,
}
use fcitx5_vinput.Runtime.Controller.Steps.{
  Outside, Position, resting, ending, serving, processing, Settings, System, new_system, flush,
  begin_start, start_recording, take_order, recognized_order, work, Step, start, stop, cancel,
  flush_actions, reload, inject, worker_step, is_ordinary, are_ordinary, operate, step, run,
  moved_from,
}
use fcitx5_vinput.Runtime.Controller.Invariant.{
  Fits, IsSound, same_parts, said-IsSound, reset-IsSound, is_working,
}
use fcitx5_vinput.Runtime.Controller.Flushing.{flush-IsSound}
use fcitx5_vinput.Runtime.Controller.Starting.{
  IsArmed, arm_start-IsArmed, arm_start-IsSound, begin_capture-IsSound,
}
use fcitx5_vinput.Runtime.Controller.Stopping.{stop_recording-IsSound}
use fcitx5_vinput.Runtime.Controller.Cancelling.{
  cancel_operation-IsSound, reload_asr_backend-IsSound,
}
use fcitx5_vinput.Runtime.Controller.Rounds.{
  recognize_parts, begin_process-IsSound, deliver-IsSound, served-IsSound, taken-IsSound,
}

working_records :
    (phase : Machine.Status) → is_working phase ≡ true → status_eq phase Machine.recording ≡ false
working_records phase w = ground (arith, w)

module _ (O : Outside) where
  open O use {platform, api, gains}

  abbrev Ok : System O → Type 0
  Ok s = IsSound s.position s.controller

  flushed-IsSound :
      (p : Position (Settings O)) (a : Answers platform) (c : Controller api gains)
      → IsSound p c
      → IsSound p (flush O a c)
  unfolding flush
  flushed-IsSound p a c i =
      flush-IsSound api gains O.to_chunk p a.queued a.is_recording a.reuses_streams
        a.synchronize_error c i

  begun-IsSound :
      (p : Position (Settings O)) (is_command : Bool) (text device : String) (a : Answers platform)
      (r : Controller api gains × Bool)
      → (r.1 ≡ true → IsArmed p r.0)
      → (r.1 ≡ false → IsSound p r.0)
      → IsSound p (begin_start O is_command text device a r).0
  unfolding begin_start
  begun-IsSound p is_command text device a (c, true) armed unarmed =
      let s = normalize_core_config O.prompts platform a.settings in
      begin_capture-IsSound api gains p is_command text (O.to_float s.asr.input_gain)
        s.global.duck_output_while_recording
        (if str_empty device then s.global.capture_device else device) a.begin_error a.created c
        (armed refl)
  begun-IsSound p is_command text device a (c, false) armed unarmed = unarmed refl

  begin_start-IsSound :
      (p : Position (Settings O)) (is_command : Bool) (text device : String) (a : Answers platform)
      (ime : Bool) (c : Controller api gains)
      → IsSound p c
      → IsSound p (begin_start O is_command text device a (arm_start api gains ime c)).0
  begin_start-IsSound p is_command text device a ime c i =
      begun-IsSound p is_command text device a (arm_start api gains ime c)
        (arm_start-IsArmed api gains p ime c i) (arm_start-IsSound api gains p ime c i)

  inject_text_directly :
      (ime : Bool) (text scene_id : String) (c : Controller api gains)
      → str_empty scene_id ≡ true
      → inject_text api gains ime final_stage text scene_id c
        ≡ (say api gains (result_outputs ime (raw_payload text)) c, success)
  unfolding inject_text
  inject_text_directly ime text scene_id c o = simp (o)

  inject-IsSound :
      (p : Position (Settings O)) (ime : Bool) (stage : InjectStage) (text scene_id : String)
      (c : Controller api gains)
      → is_ordinary O (inject ime stage text scene_id) ≡ true
      → IsSound p c
      → IsSound p (inject_text api gains ime stage text scene_id c).0
  unfolding inject_text
  inject-IsSound p ime partial_stage text scene_id c o i =
      said-IsSound api gains p (partial ime text ∷ []) c i
  inject-IsSound p ime final_stage text scene_id c o i =
      subst (λ (r : Controller api gains × MethodResult). IsSound p r.0)
        (sym (inject_text_directly ime text scene_id c o))
        (said-IsSound api gains p (result_outputs ime (raw_payload text)) c i)

  operate-IsSound :
      (p : Position (Settings O)) (x : Step O) (c : Controller api gains)
      → is_ordinary O x ≡ true
      → IsSound p c
      → IsSound p (operate O x c).0
  unfolding operate start_recording
  operate-IsSound p (start ime is_command text device a) c o i =
      begin_start-IsSound p is_command text device a ime
        (if c.pending_capture_stop then flush O a c else c)
        (if_both (IsSound p) c.pending_capture_stop (flush O a c) c (λ h. flushed-IsSound p a c i)
          (λ h. i))
  operate-IsSound p (stop ime scene_id a) c o i =
      stop_recording-IsSound api gains p ime scene_id a.captured a.synchronize_error c i
  operate-IsSound p (cancel ime commit a) c o i =
      cancel_operation-IsSound api gains p ime commit a.synchronize_error c i
  operate-IsSound p (flush_actions a) c o i = flushed-IsSound p a c i
  operate-IsSound p (reload a) c o i =
      reload_asr_backend-IsSound api gains p a.synchronize_error c i
  operate-IsSound p (inject ime stage text scene_id) c o i =
      inject-IsSound p ime stage text scene_id c o i
  operate-IsSound p (worker_step a) c o i = i

  take_order-IsSound :
      (a : Answers platform) (o : Option RecognitionOrder) (c : Controller api gains)
      → c.current_order ≡ o
      → IsSound {Settings = Settings O} resting c
      → Ok (take_order O a o (record { controller = c; position = resting }))
  unfolding take_order
  take_order-IsSound a none c e i = i
  take_order-IsSound a (some order) c e i =
      taken-IsSound api gains order (moved_from order)
        (normalize_core_config O.prompts platform a.settings) c i e

  recognized-IsSound :
      (order : RecognitionOrder) (settings : Settings O)
      (r : Controller api gains × Option PostprocessRequest)
      → IsSound (serving order settings) r.0
      → Ok (recognized_order O order settings r)
  unfolding recognized_order
  recognized-IsSound order settings (c, none) i = served-IsSound api gains order settings c i
  recognized-IsSound order settings (c, some request) i =
      begin_process-IsSound api gains order request settings
        (process platform O.processor request settings false).entered c i

  work-IsSound :
      (p : Position (Settings O)) (a : Answers platform) (c : Controller api gains)
      → IsSound p c
      → Ok (work O p a (record { controller = c; position = p }))
  unfolding work Fits
  work-IsSound resting a c i = take_order-IsSound a c.current_order c refl i
  work-IsSound (serving order settings) a c i =
      let r = recognize api gains O.to_chunk O.normalized settings.asr.normalize_audio order c in
      recognized-IsSound order settings r (
        same_parts (serving order settings) c r.0
          (recognize_parts api gains O.to_chunk O.normalized settings.asr.normalize_audio order c)
          i)
  work-IsSound (processing order request settings) a c i =
      deliver-IsSound api gains order request settings
        (process platform O.processor request settings c.postprocessing_cancel_requested) c i
  work-IsSound ending a c i =
      reset-IsSound api gains ending resting a.synchronize_error c i
        (working_records c.machine.phase i.fits) (refl, refl)

  pub step-IsSound : (x : Step O) (s : System O) → is_ordinary O x ≡ true → Ok s → Ok (step O x s)
  unfolding step
  step-IsSound (worker_step a) s o i = work-IsSound s.position a s.controller i
  step-IsSound (start ime is_command text device a) s o i =
      operate-IsSound s.position (start ime is_command text device a) s.controller o i
  step-IsSound (stop ime scene_id a) s o i =
      operate-IsSound s.position (stop ime scene_id a) s.controller o i
  step-IsSound (cancel ime commit a) s o i =
      operate-IsSound s.position (cancel ime commit a) s.controller o i
  step-IsSound (flush_actions a) s o i =
      operate-IsSound s.position (flush_actions a) s.controller o i
  step-IsSound (reload a) s o i = operate-IsSound s.position (reload a) s.controller o i
  step-IsSound (inject ime stage text scene_id) s o i =
      operate-IsSound s.position (inject ime stage text scene_id) s.controller o i

  pub run-IsSound :
      (xs : List (Step O)) (s : System O) → are_ordinary O xs ≡ true → Ok s → Ok (run O s xs)
  unfolding run
  run-IsSound [] s o i = i
  run-IsSound (x ∷ xs) s o i =
      run-IsSound xs (step O x s) (ground (arith, o)) (step-IsSound x s (ground (arith, o)) i)

  new-IsSound : (w : api.World) → Ok (new_system O w)
  unfolding Fits
  new-IsSound w = record { whole = refl; listening = inl refl; session = refl; fits = (refl, refl) }

  -- From the initial state, under every schedule of the callers and the worker without injections into
  -- scenes: a session is active exactly in the phase recording, audio is accepted only then, no start
  -- is half done between two steps, and an order waits or is served exactly in the phases inferring and
  -- postprocessing.
  pub run-new_system-IsSound :
      (w : api.World) (xs : List (Step O))
      → are_ordinary O xs ≡ true
      → IsSound (run O (new_system O w) xs).position (run O (new_system O w) xs).controller
  run-new_system-IsSound w xs o = run-IsSound xs (new_system O w) o (new-IsSound w)
