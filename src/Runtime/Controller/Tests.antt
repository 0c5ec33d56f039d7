-- ===== src/Runtime/Controller/Tests.antt =====
-- DaemonRuntimeController with its thread, over sessions that recognize one text, and a language model
-- that rejects everything.
use Prim.Native.Nat.{ℕ, zero, suc, ◌≤◌}
use fcitx5_vinput.Base.{
  String, ltb, ◌==◌, ◌≡◌, refl, true, false, List, [], ◌∷◌, none, ℤ, pos, inl, arith, ap, sym,
  subst, length, Option,
}
use fcitx5_vinput.Asr.Contract.{SessionApi, no_backend, final_text, RecognitionEvent}
use fcitx5_vinput.Scene.{new_definition}
use fcitx5_vinput.Config.Types.{Platform, CoreConfig}
use fcitx5_vinput.Runtime.AudioBuffer.{Gains}
use fcitx5_vinput.Runtime.Pipeline.{PostProcessor, empty_payload}
use fcitx5_vinput.Runtime.Machine.{
  RuntimeStateMachine, recording, inferring, on_start_recording, on_stop_recording,
}
use fcitx5_vinput.Runtime.Lifecycle
use fcitx5_vinput.Runtime.AudioBuffer
use fcitx5_vinput.Runtime.Controller.{
  new_controller, success, Answers, reload_asr_backend, say, notify_status, Controller,
  maybe_apply_pending_reload,
}
use fcitx5_vinput.Runtime.Controller.Recording.{
  arm_start, begin_capture, start_session, finish_start, install_start, stop_recording, finish_stop,
  begin_stop, stop_session, submit_order,
}
use fcitx5_vinput.Runtime.Controller.Worker.{final_stage}
use fcitx5_vinput.Runtime.Controller.Steps.{
  resting, Outside, Step, start, stop, cancel, flush_actions, reload, inject, worker_step, run,
  new_system, step, operate, start_recording, begin_start,
}
use fcitx5_vinput.Runtime.Controller.Invariant.{IsSound, is_working}
use fcitx5_vinput.Runtime.Controller.Schedules.{run-new_system-IsSound}
use fcitx5_vinput.Runtime.Controller.Liveness.{Ends, run-Ends}
use fcitx5_vinput.Runtime.Controller.Moves.{may_move, run-may_move}
use fcitx5_vinput.Runtime.Controller.Inject.{inject_overwritten}

abbrev platform : Platform
platform = record { Double = ℕ; less = ltb; literal = λ m e. m; Json = ℕ }

abbrev heard : RecognitionEvent
heard = record { kind = final_text; text = "hello"; error = "" }

abbrev sessions : SessionApi
sessions = record {
  World = ℕ;
  Chunk = List ℤ;
  push_audio = λ w s c e. (w, record { ok = true; error = "" });
  finish = λ w s e. (w, record { ok = true; error = "" });
  cancel = λ w s. w;
  poll_events = λ w s. (w, heard ∷ []);
  failure_error = λ w s. none;
}

abbrev model : PostProcessor platform
model = record {
  process_text = λ text scene settings cancelled. (empty_payload, "no answer");
  process_command = λ text selected scene settings cancelled. (empty_payload, "no answer");
}

abbrev gains : Gains
gains = record { Float = ℕ; one = 1; is_one = λ g. g == 1; scale_sample = λ g x. x }

abbrev outside : Outside
outside = record {
  platform = platform;
  prompts = record { legacy_command = "a"; short_tag_command = "b"; default_command = "c" };
  api = sessions;
  gains = gains;
  to_chunk = λ pcm. pcm;
  normalized = λ pcm. pcm;
  to_float = λ d. d;
  processor = model;
}

abbrev settings : CoreConfig platform
settings = record {
  version = "1";
  base_urls = [];
  global = record {
    capture_device = "mic";
    duck_output_while_recording = true;
    duck_output_volume = 3;
  };
  llm_providers = [];
  llm_adapters = [];
  asr = record {
    active_provider = "";
    normalize_audio = true;
    input_gain = 1;
    vad = record {
      enabled = true;
      threshold = 9;
      min_speech_duration = 9;
      min_silence_duration = 9;
      speech_pad_ms = pos 0;
    };
    providers = [];
  };
  active_scene = "polish";
  scenes =
      record new_definition {
        id = "polish";
        label = "Polish";
        prompt = "p";
        provider_id = "llm";
        model = "m";
      }
      ∷ [];
  triggers = [];
  receivers = [];
}

silence : ℕ → List ℤ
silence zero = []
silence (suc n) = pos 0 ∷ silence n

abbrev answers : List ℤ → Answers platform
answers pcm = record {
  settings = settings;
  begin_error = none;
  created = inl (7, no_backend);
  captured = pcm;
  queued = (pos 1 ∷ []) ∷ [];
  is_recording = false;
  reuses_streams = true;
  synchronize_error = none;
}

abbrev opened : List (Step outside)
opened = reload (answers []) ∷ start true false "" "" (answers []) ∷ []

-- A recording that is long enough, and calls of the others meanwhile.
abbrev spoken : List (Step outside)
spoken =
    reload (answers [])
    ∷ start true false "" "" (answers [])
    ∷ stop true "" (answers (silence 8000))
    ∷ []

abbrev served : List (Step outside)
served =
    worker_step (answers [])
    ∷ start true false "" "" (answers [])
    ∷ worker_step (answers [])
    ∷ cancel true true (answers [])
    ∷ worker_step (answers [])
    ∷ worker_step (answers [])
    ∷ flush_actions (answers [])
    ∷ []

length-silence : (n : ℕ) → length (silence n) ≡ n
unfolding silence
length-silence zero = refl
length-silence (suc n) = ap suc (length-silence n)

-- Stopping a recording with enough samples.
module _ (api : SessionApi) (G : Gains) where
  append_counts :
      (pcm : List ℤ) (b : AudioBuffer.Buffer G)
      → length pcm ≤ (AudioBuffer.append G pcm b).total_samples
  unfolding AudioBuffer.append AudioBuffer.append_activated AudioBuffer.append_pending
      AudioBuffer.append_startup
  append_counts [] b = omega arith
  append_counts (x ∷ pcm) b = ground arith

  long_stop :
      (m : RuntimeStateMachine) (n : ℕ)
      → m.phase ≡ recording
      → 8000 ≤ n
      → ((on_stop_recording m n 8000).1.is_too_short ≡ false)
        × ((on_stop_recording m n 8000).0.phase ≡ inferring)
  unfolding on_stop_recording
  long_stop m n e l = (ground (arith, e, l), ground (arith, e, l))

  finish_works :
      (scene_id : String) (pcm : List ℤ) (c : Controller api G)
      → c.machine.phase ≡ recording
      → Lifecycle.has_active_session api c.lifecycle ≡ true
      → 8000 ≤ length pcm
      → (finish_stop api G scene_id pcm c).0.machine.phase ≡ inferring
  unfolding finish_stop stop_session submit_order notify_status
  finish_works scene_id pcm c e a l =
      let n = (AudioBuffer.append G pcm c.buffer).total_samples in
      let s = long_stop c.machine n e (omega (arith, l, append_counts pcm c.buffer)) in
      ground (arith, a, s.0, s.1)

  stop_works :
      (scene_id : String) (pcm : List ℤ) (e : Option String) (c : Controller api G)
      → c.machine.phase ≡ recording
      → Lifecycle.has_active_session api c.lifecycle ≡ true
      → 8000 ≤ length pcm
      → (stop_recording api G true scene_id pcm e c).0.machine.phase ≡ inferring
  unfolding stop_recording maybe_apply_pending_reload begin_stop
  stop_works scene_id pcm e c r a l =
      let f = finish_works scene_id pcm (begin_stop api G true c) r a l in ground (arith, r, f)

opened_records : (run outside (new_system outside 0) opened).controller.machine.phase ≡ recording
unfolding run step operate reload_asr_backend start_recording arm_start begin_start begin_capture
    start_session finish_start install_start say notify_status on_start_recording
opened_records = refl

opened_listens :
    Lifecycle.has_active_session sessions
      (run outside (new_system outside 0) opened).controller.lifecycle
    ≡ true
unfolding run step operate reload_asr_backend start_recording arm_start begin_start begin_capture
    start_session finish_start install_start say notify_status on_start_recording
    Lifecycle.has_active_session Lifecycle.install_active_session
opened_listens = refl

spoken_works :
    is_working (run outside (new_system outside 0) spoken).controller.machine.phase ≡ true
unfolding run step operate
spoken_works = ap is_working (
    stop_works sessions gains "" (silence 8000) none
      (run outside (new_system outside 0) opened).controller opened_records opened_listens
      (subst (λ n. 8000 ≤ n) (sym (length-silence 8000)) (omega arith)))

run-new_system-IsSound_example :
    IsSound
      (run outside (new_system outside 0) spoken).position
      (run outside (new_system outside 0) spoken).controller
run-new_system-IsSound_example = run-new_system-IsSound outside 0 spoken refl

run-Ends_example : Ends outside (run outside (new_system outside 0) spoken) served 4
run-Ends_example = run-Ends outside 0 spoken served refl refl spoken_works (omega arith)

-- Two texts for the scene of the settings.
inject_overwritten_example :
    let s =
      run outside
        (record { controller = new_controller sessions gains 0; position = resting })
        (inject true final_stage "one" "polish" ∷ worker_step (answers []) ∷ []) in
    let rest =
      worker_step (answers []) ∷ worker_step (answers []) ∷ worker_step (answers []) ∷ [] in
    ((operate outside (inject true final_stage "two" "polish") s.controller).1 ≡ success)
    × (run outside s (inject true final_stage "two" "polish" ∷ rest) ≡ run outside s rest)
inject_overwritten_example =
    inject_overwritten outside (answers []) (answers []) (answers []) (answers []) true "one"
      "polish" "two" "polish" (new_controller sessions gains 0) refl refl refl

run-may_move_example :
    let s = run outside (new_system outside 0) spoken in
    may_move outside
      (worker_step (answers []))
      s.controller.machine.phase
      (step outside (worker_step (answers [])) s).controller.machine.phase
    ≡ true
run-may_move_example = run-may_move outside 0 spoken (worker_step (answers [])) refl refl
