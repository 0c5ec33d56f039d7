-- ===== src/Asr/Reload/Tests.antt =====
-- RecognitionSessionManager over backends that are numbers.
use Prim.Native.Nat.{ℕ}
use fcitx5_vinput.Base.{
  String, ◌≡◌, refl, true, false, List, [], ◌∷◌, Option, none, some, inl, str_eq, ltb, pos,
  if◌then◌else◌,
}
use fcitx5_vinput.Asr.Contract.{no_backend}
use fcitx5_vinput.Config.Types.{Platform, local_asr, asr_provider_id, CoreConfig}
use fcitx5_vinput.Config.View.{find_by, asr_provider, active_asr_provider}
use fcitx5_vinput.Asr.Reload.{
  Backends, ProviderKey, local_key, command_key, PreparedBackend, building, idle, Manager,
  new_manager, provider_key, build_runtime_signature, should_disable_asr, label_backend, warmed,
  created, create_prepared_backend, is_current, Step, start_up, synchronize, worker_step, run,
}
use fcitx5_vinput.Asr.Reload.Prepared.{AreMade, run_new-AreMade}
use fcitx5_vinput.Asr.Reload.Requests.{
  synchronize_backend_installs, synchronize_backend_mislabels, disabled_reload_installs,
}

abbrev platform : Platform
platform = record { Double = ℕ; less = ltb; literal = λ m e. m; Json = ℕ }

abbrev settings : String → CoreConfig platform
settings model = record {
  version = model;
  base_urls = [];
  global = record {
    capture_device = "";
    duck_output_while_recording = false;
    duck_output_volume = 0;
  };
  llm_providers = [];
  llm_adapters = [];
  asr = record {
    active_provider = if str_eq model "" then "" else "p";
    normalize_audio = true;
    input_gain = 1;
    vad = record {
      enabled = true;
      threshold = 0;
      min_speech_duration = 0;
      min_silence_duration = 0;
      speech_pad_ms = pos 0;
    };
    providers =
        local_asr (record { id = "p"; timeout_ms = pos 0; model = model; hotwords_file = "" }) ∷ [];
  };
  active_scene = "";
  scenes = [];
  triggers = [];
  receivers = [];
}

key_text : String → Option ProviderKey → String
key_text active none = ""
key_text active (some (local_key id kind timeout model hotwords vad)) = model
key_text active (some (command_key id kind timeout line args env)) = line

abbrev backends : Backends platform
backends = record {
  Backend = String;
  create = λ c. inl c.version;
  describe = λ b. no_backend;
  warm_up = λ b. none;
  to_text = key_text;
  empty_settings = settings "";
}

abbrev prepared : String → PreparedBackend String
prepared model = label_backend platform backends (settings model) model

-- A manager at rest with the backend of the model "small".
abbrev resting : Manager platform backends
resting = record (new_manager platform backends) {
  worker_running = true;
  worker = idle;
  effective = some (prepared "small");
}

abbrev changes : List (Step platform backends)
changes =
    start_up (settings "small") ∷ synchronize (settings "large") ∷ worker_step ∷ worker_step ∷ []

run_new-AreMade_example :
    AreMade platform backends
      (run platform backends (new_manager platform backends) changes).effective
run_new-AreMade_example = run_new-AreMade platform backends changes

synchronize_backend_installs_example :
    (run platform backends resting
      (synchronize (settings "large") ∷ worker_step ∷ worker_step ∷ [])).effective
    ≡ some (record (prepared "large") {
      signature = build_runtime_signature platform backends (settings "large");
    })
unfolding should_disable_asr is_current build_runtime_signature create_prepared_backend created
    warmed label_backend active_asr_provider asr_provider find_by provider_key key_text
    asr_provider_id
synchronize_backend_installs_example =
    synchronize_backend_installs platform backends resting (settings "large") (prepared "large")
      (record { running = refl; free = refl; quiet = refl; waits = refl }) refl refl refl

synchronize_backend_mislabels_example :
    (run platform backends resting (
      synchronize (settings "large")
      ∷ synchronize (settings "small")
      ∷ worker_step
      ∷ worker_step
      ∷ [])).effective
    ≡ some (record (prepared "large") {
      signature = build_runtime_signature platform backends (settings "small");
    })
unfolding should_disable_asr is_current build_runtime_signature create_prepared_backend created
    warmed label_backend active_asr_provider asr_provider find_by provider_key key_text
    asr_provider_id
synchronize_backend_mislabels_example =
    synchronize_backend_mislabels platform backends resting (settings "small") (settings "large")
      (prepared "large") (record { running = refl; free = refl; quiet = refl; waits = refl }) refl
      refl refl refl refl

-- A manager whose thread prepares the backend of the model "large".
abbrev reloading : Manager platform backends
reloading = record resting {
  reload_in_progress = true;
  worker = building (settings "large") "large";
}

disabled_reload_installs_example :
    ((run platform backends reloading (synchronize (settings "") ∷ worker_step ∷ [])).effective
      ≡ some (record (prepared "large") { signature = "large" }))
    × ((run platform backends reloading
          (synchronize (settings "") ∷ worker_step ∷ [])).target_signature
        ≡ "")
unfolding should_disable_asr create_prepared_backend created warmed active_asr_provider asr_provider
    find_by
disabled_reload_installs_example =
    disabled_reload_installs platform backends reloading (settings "") (settings "large") "large"
      (prepared "large") refl refl refl
