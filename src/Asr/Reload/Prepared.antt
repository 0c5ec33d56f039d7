-- ===== src/Asr/Reload/Prepared.antt =====
-- RecognitionSessionManager: only prepared backends come into effect.
use fcitx5_vinput.Base.{
  String, ◌≡◌, refl, Bool, not, List, [], ◌∷◌, Option, none, some, ◌⊎◌, inl, inr, if_both,
}
use fcitx5_vinput.Config.Types.{Platform, CoreConfig}
use fcitx5_vinput.Config.View.{preferred_local_model}
use fcitx5_vinput.Asr.Reload.{
  Backends, PreparedBackend, ReloadWorker, absent, idle, building, Manager, new_manager,
  should_disable_asr, apply_disabled_state, label_backend, warmed, created, create_prepared_backend,
  relabel, activate, ensure_worker, initialized, initialize, aim, request, aim_or_request,
  synchronize_backend, take_request, install, work, run_worker, stop_worker, clear_joined, Step,
  start_up, synchronize, worker_step, ask_stop, finish_stop, step, run,
}

module _ (P : Platform) (B : Backends P) where
  -- A backend created from some settings, whose warm-up session was created, with its descriptor and
  -- the names of these settings.
  pub record IsMade (p : PreparedBackend B.Backend) : Type 0 where
    pub settings : CoreConfig P
    pub created_from : B.create settings ≡ inl p.backend
    pub warm : B.warm_up p.backend ≡ none
    pub described : p.descriptor ≡ B.describe p.backend
    pub provider : p.provider_id ≡ (B.describe p.backend).provider_id
    pub model : p.model_id ≡ preferred_local_model P settings

  pub AreMade : Option (PreparedBackend B.Backend) → Type 0
  AreMade none = Unit
  AreMade (some p) = IsMade p

  AllMade : PreparedBackend B.Backend ⊎ String → Type 0
  AllMade (inl p) = IsMade p
  AllMade (inr e) = Unit

  warmed-AllMade :
      (c : CoreConfig P) (b : B.Backend) (e : Option String)
      → B.create c ≡ inl b
      → B.warm_up b ≡ e
      → AllMade (warmed P B c b e)
  unfolding warmed AllMade label_backend
  warmed-AllMade c b none f w = record {
    settings = c;
    created_from = f;
    warm = w;
    described = refl;
    provider = refl;
    model = refl;
  }
  warmed-AllMade c b (some e) f w = tt

  created-AllMade :
      (c : CoreConfig P) (r : B.Backend ⊎ String) → B.create c ≡ r → AllMade (created P B c r)
  unfolding created AllMade
  created-AllMade c (inl b) e = warmed-AllMade c b (B.warm_up b) e refl
  created-AllMade c (inr x) e = tt

  create_prepared-AllMade : (c : CoreConfig P) → AllMade (create_prepared_backend P B c)
  unfolding create_prepared_backend
  create_prepared-AllMade c = created-AllMade c (B.create c) refl

  relabel-AllMade :
      (signature : String) (r : PreparedBackend B.Backend ⊎ String)
      → AllMade r
      → AllMade (relabel P B signature r)
  unfolding relabel AllMade
  relabel-AllMade signature (inl p) m = record {
    settings = m.settings;
    created_from = m.created_from;
    warm = m.warm;
    described = m.described;
    provider = m.provider;
    model = m.model;
  }
  relabel-AllMade signature (inr e) m = tt

  abbrev IsBacked : Manager P B → Type 0
  IsBacked m = AreMade m.effective

  ensure_worker-IsBacked : (m : Manager P B) → IsBacked m → IsBacked (ensure_worker P B m)
  unfolding ensure_worker
  ensure_worker-IsBacked m i = if_both IsBacked m.worker_running m _ (λ h. i) (λ h. i)

  initialized-IsBacked :
      (r : PreparedBackend B.Backend ⊎ String) (m : Manager P B)
      → AllMade r
      → IsBacked (initialized P B r m).0
  unfolding initialized AllMade AreMade activate
  initialized-IsBacked (inl p) m a = ensure_worker-IsBacked (activate P B p m) a
  initialized-IsBacked (inr e) m a = tt

  install-IsBacked :
      (r : PreparedBackend B.Backend ⊎ String) (m : Manager P B)
      → AllMade r
      → IsBacked m
      → IsBacked (install P B r m)
  unfolding install AllMade AreMade
  install-IsBacked (inl p) m a i = a
  install-IsBacked (inr e) m a i = i

  aim_or_request-IsBacked :
      (c : CoreConfig P) (m : Manager P B) → IsBacked m → IsBacked (aim_or_request P B c m)
  unfolding aim_or_request aim request
  aim_or_request-IsBacked c m i = if_both IsBacked _ _ _ (λ h. i) (λ h. i)

  work-IsBacked :
      (w : ReloadWorker (CoreConfig P)) (m : Manager P B) → IsBacked m → IsBacked (work P B w m)
  unfolding work take_request
  work-IsBacked absent m i = i
  work-IsBacked idle m i =
      if_both IsBacked (not m.worker_running) _ _ (λ h. i)
        (λ h. if_both IsBacked m.reload_requested _ m (λ g. i) (λ g. i))
  work-IsBacked (building c signature) m i =
      install-IsBacked _ m (relabel-AllMade signature _ (create_prepared-AllMade c)) i

  step-IsBacked : (x : Step P B) (m : Manager P B) → IsBacked m → IsBacked (step P B x m)
  unfolding step initialize synchronize_backend apply_disabled_state run_worker stop_worker
      clear_joined AreMade
  step-IsBacked (start_up c) m i =
      if_both (λ (r : Manager P B × Bool). IsBacked r.0) (should_disable_asr P B c) _ _ (λ h. tt)
        (λ h. initialized-IsBacked _ m (create_prepared-AllMade c))
  step-IsBacked (synchronize c) m i =
      if_both IsBacked (should_disable_asr P B c) _ _ (λ h. tt)
        (λ h. aim_or_request-IsBacked c _ (ensure_worker-IsBacked m i))
  step-IsBacked worker_step m i = work-IsBacked m.worker m i
  step-IsBacked ask_stop m i = i
  step-IsBacked finish_stop m i = tt

  run-IsBacked : (m : Manager P B) (xs : List (Step P B)) → IsBacked m → IsBacked (run P B m xs)
  unfolding run
  run-IsBacked m [] i = i
  run-IsBacked m (x ∷ xs) i = run-IsBacked (step P B x m) xs (step-IsBacked x m i)

  -- Under every schedule of calls and of the reload thread, a backend in effect was created from
  -- some settings and passed its warm-up, and goes with its own descriptor, provider and model.
  pub run_new-AreMade : (xs : List (Step P B)) → AreMade (run P B (new_manager P B) xs).effective
  unfolding AreMade
  run_new-AreMade xs = run-IsBacked (new_manager P B) xs tt
