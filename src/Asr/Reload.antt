-- ===== src/Asr/Reload.antt =====
-- RecognitionSessionManager (src/daemon/asr/runtime/recognition_session_manager.h and .cpp): the
-- backend in effect and the thread that replaces it. The backends and the JSON printer are
-- parameters. The thread is the program counter `worker`; each step is one critical section, with
-- the calls before it that only its thread makes. `effective` has the fields that
-- ResetEffectiveBackendLocked resets together; `results` records the calls of NotifyReloadResult.
pub mod Prepared
pub mod Requests
pub mod Tests
use fcitx5_vinput.Base.{
  String, Bool, true, false, not, ◌&&◌, ◌||◌, List, [], ◌∷◌, ◌++◌, Option, none, some, ◌⊎◌, inl,
  inr, if◌then◌else◌, str_eq, str_empty, ℤ,
}
use fcitx5_vinput.Asr.Contract.{BackendDescriptor}
use fcitx5_vinput.Config.Types.{
  Platform, AsrProvider, local_asr, command_asr, asr_provider_id, asr_provider_type,
  asr_provider_timeout_ms, Environment, CoreConfig,
}
use fcitx5_vinput.Config.View.{active_asr_provider, preferred_local_model}

-- The JSON object that BuildRuntimeSignature prints under "provider".
pub data ProviderKey : Type 0 where
  local_key : String → String → ℤ → String → String → Bool → ProviderKey
  command_key : String → String → ℤ → String → List String → Environment → ProviderKey

-- CreateBackend returns a backend or an error; `warm_up` is the error of the session that
-- CreatePreparedBackend creates and cancels; `empty_settings` is `CoreConfig{}`.
pub record Backends (P : Platform) : Type 1 where
  pub Backend : Type 0
  pub create : CoreConfig P → Backend ⊎ String
  pub describe : Backend → BackendDescriptor
  pub warm_up : Backend → Option String
  pub to_text : String → Option ProviderKey → String
  pub empty_settings : CoreConfig P

pub record PreparedBackend (Backend : Type 0) : Type 0 where
  pub backend : Backend
  pub descriptor : BackendDescriptor
  pub provider_id : String
  pub model_id : String
  pub signature : String

pub data ReloadWorker (Settings : Type 0) : Type 0 where
  absent idle : ReloadWorker Settings
  building : Settings → String → ReloadWorker Settings

pub record SessionManager (Settings Backend : Type 0) : Type 0 where
  pub worker_running : Bool
  pub reload_requested : Bool
  pub reload_in_progress : Bool
  pub pending_settings : Settings
  pub target_provider_id : String
  pub target_model_id : String
  pub target_signature : String
  pub effective : Option (PreparedBackend Backend)
  pub last_reload_error : String
  pub worker : ReloadWorker Settings
  pub results : List (Bool × String)

module _ (P : Platform) where
  unfoldable pub provider_key : CoreConfig P → AsrProvider → ProviderKey
  provider_key c (local_asr p) =
      local_key p.id "local" p.timeout_ms p.model p.hotwords_file c.asr.vad.enabled
  provider_key c (command_asr p) = command_key p.id "command" p.timeout_ms p.command p.args p.env

  module _ (B : Backends P) where
    open B use {Backend}

    abbrev pub Manager : Type 0
    Manager = SessionManager (CoreConfig P) Backend

    unfoldable pub build_runtime_signature : CoreConfig P → String
    build_runtime_signature c = elim (active_asr_provider P c) [
      | none ↦ B.to_text c.asr.active_provider none
      | some p ↦ B.to_text c.asr.active_provider (some (provider_key c p))
    ]

    -- ShouldDisableAsr
    unfoldable pub should_disable_asr : CoreConfig P → Bool
    should_disable_asr c = elim (active_asr_provider P c) [ none ↦ true | some p ↦ false ]

    unfoldable pub active_provider_id : CoreConfig P → String
    active_provider_id c = elim (active_asr_provider P c) [ none ↦ "" | some p ↦ asr_provider_id p ]

    abbrev pub new_manager : Manager
    new_manager = record {
      worker_running = false;
      reload_requested = false;
      reload_in_progress = false;
      pending_settings = B.empty_settings;
      target_provider_id = "";
      target_model_id = "";
      target_signature = "";
      effective = none;
      last_reload_error = "";
      worker = absent;
      results = [];
    }

    unfoldable pub apply_disabled_state : Manager → Manager
    apply_disabled_state m = record m {
      pending_settings = B.empty_settings;
      target_provider_id = "";
      target_model_id = "";
      target_signature = "";
      last_reload_error = "";
      reload_requested = false;
      reload_in_progress = false;
      effective = none;
    }

    unfoldable pub label_backend : CoreConfig P → Backend → PreparedBackend Backend
    label_backend c b = record {
      backend = b;
      descriptor = B.describe b;
      provider_id = (B.describe b).provider_id;
      model_id = preferred_local_model P c;
      signature = build_runtime_signature c;
    }

    unfoldable pub warmed :
        CoreConfig P → Backend → Option String → PreparedBackend Backend ⊎ String
    warmed c b none = inl (label_backend c b)
    warmed c b (some e) = inr e

    unfoldable pub created : CoreConfig P → Backend ⊎ String → PreparedBackend Backend ⊎ String
    created c (inl b) = warmed c b (B.warm_up b)
    created c (inr e) = inr e

    unfoldable pub create_prepared_backend : CoreConfig P → PreparedBackend Backend ⊎ String
    create_prepared_backend c = created c (B.create c)

    -- CreatePreparedBackendForReload
    unfoldable pub relabel :
        String → PreparedBackend Backend ⊎ String → PreparedBackend Backend ⊎ String
    relabel signature (inl p) = inl (record p { signature = signature })
    relabel signature (inr e) = inr e

    unfoldable pub activate : PreparedBackend Backend → Manager → Manager
    activate p m = record m {
      effective = some p;
      target_provider_id = p.provider_id;
      target_model_id = p.model_id;
      target_signature = p.signature;
      last_reload_error = "";
    }

    -- EnsureReloadWorkerStarted
    unfoldable pub ensure_worker : Manager → Manager
    ensure_worker m =
        if m.worker_running then m else record m { worker_running = true; worker = idle }

    unfoldable pub initialized : PreparedBackend Backend ⊎ String → Manager → Manager × Bool
    initialized (inl p) m = (ensure_worker (activate p m), true)
    initialized (inr e) m =
        (record m { effective = none; target_signature = ""; last_reload_error = e }, false)

    unfoldable pub initialize : CoreConfig P → Manager → Manager × Bool
    initialize c m =
        if should_disable_asr c
        then (apply_disabled_state m, false)
        else initialized (create_prepared_backend c) m

    -- Whether the backend in effect is the one asked for.
    unfoldable pub is_current : String → Option (PreparedBackend Backend) → Bool
    is_current signature none = false
    is_current signature (some p) = str_eq p.signature signature

    unfoldable pub aim : CoreConfig P → Manager → Manager
    aim c m = record m {
      target_provider_id = active_provider_id c;
      target_model_id = preferred_local_model P c;
      target_signature = build_runtime_signature c;
      last_reload_error = "";
    }

    unfoldable pub request : CoreConfig P → Manager → Manager
    request c m = record (aim c m) { pending_settings = c; reload_requested = true }

    unfoldable pub aim_or_request : CoreConfig P → Manager → Manager
    aim_or_request c m =
        if is_current (build_runtime_signature c) m.effective && not m.reload_in_progress
        then aim c m
        else request c m

    unfoldable pub synchronize_backend : CoreConfig P → Manager → Manager
    synchronize_backend c m =
        if should_disable_asr c then apply_disabled_state m else aim_or_request c (ensure_worker m)

    -- The first section of the loop of ReloadWorkerMain; the worker waits on without a request.
    unfoldable pub take_request : Manager → Manager
    take_request m =
        if not m.worker_running
        then record m { worker = absent }
        else if m.reload_requested
        then record m {
          worker = building m.pending_settings m.target_signature;
          reload_requested = false;
          reload_in_progress = true;
        }
        else m

    unfoldable pub install : PreparedBackend Backend ⊎ String → Manager → Manager
    install (inl p) m = record m {
      effective = some p;
      last_reload_error = "";
      reload_in_progress = false;
      worker = idle;
      results = m.results ++ (true, "") ∷ [];
    }
    install (inr e) m = record m {
      last_reload_error = e;
      reload_in_progress = false;
      worker = idle;
      results = m.results ++ (false, e) ∷ [];
    }

    unfoldable pub work : ReloadWorker (CoreConfig P) → Manager → Manager
    work absent m = m
    work idle m = take_request m
    work (building c signature) m = install (relabel signature (create_prepared_backend c)) m

    unfoldable pub run_worker : Manager → Manager
    run_worker m = work m.worker m

    -- CreateSessionFromEffectiveBackend up to the call of the backend: the backend it uses, or the
    -- error.
    unfoldable pub session_backend : Manager → PreparedBackend Backend ⊎ String
    session_backend m = elim m.effective [
      | some p ↦ inl p
      | none ↦ inr (
          if not (str_empty m.last_reload_error)
          then m.last_reload_error
          else (if m.reload_in_progress
              then "ASR backend is still loading. Please try again in a moment."
              else "ASR backend is not ready."))
    ]

    -- Shutdown asks the worker to stop, joins it, and then clears the rest.
    unfoldable pub stop_worker : Manager → Manager
    stop_worker m = record m { worker_running = false; reload_requested = false }

    unfoldable pub clear_joined : Manager → Manager
    clear_joined m = record m {
      effective = none;
      target_provider_id = "";
      target_model_id = "";
      target_signature = "";
      last_reload_error = "";
    }

    -- What one thread does in one step.
    pub data Step : Type 0 where
      start_up synchronize : CoreConfig P → Step
      worker_step ask_stop finish_stop : Step

    unfoldable pub step : Step → Manager → Manager
    step (start_up c) m = (initialize c m).0
    step (synchronize c) m = synchronize_backend c m
    step worker_step m = run_worker m
    step ask_stop m = stop_worker m
    step finish_stop m = clear_joined m

    unfoldable pub run : Manager → List Step → Manager
    run m [] = m
    run m (x ∷ xs) = run (step x m) xs
