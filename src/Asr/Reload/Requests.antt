-- ===== src/Asr/Reload/Requests.antt =====
-- RecognitionSessionManager: what a request for other settings comes to.
use fcitx5_vinput.Base.{String, ◌≡◌, refl, ap, ◌∙◌, true, false, [], ◌∷◌, some, inl, arith}
use fcitx5_vinput.Config.Types.{Platform, CoreConfig}
use fcitx5_vinput.Asr.Reload.{
  Backends, PreparedBackend, idle, building, Manager, build_runtime_signature, should_disable_asr,
  apply_disabled_state, create_prepared_backend, relabel, ensure_worker, is_current, aim, request,
  aim_or_request, synchronize_backend, take_request, install, work, run_worker, synchronize,
  worker_step, step, run,
}

module _ (P : Platform) (B : Backends P) where
  -- The reload thread waits, and nothing is asked of it.
  pub record IsResting (m : Manager P B) : Type 0 where
    pub running : m.worker_running ≡ true
    pub free : m.reload_requested ≡ false
    pub quiet : m.reload_in_progress ≡ false
    pub waits : m.worker ≡ idle

  ensure_worker-running : (m : Manager P B) → m.worker_running ≡ true → ensure_worker P B m ≡ m
  unfolding ensure_worker
  ensure_worker-running m e = ground arith

  synchronize_other :
      (c : CoreConfig P) (m : Manager P B)
      → m.worker_running ≡ true
      → should_disable_asr P B c ≡ false
      → is_current P B (build_runtime_signature P B c) m.effective ≡ false
      → synchronize_backend P B c m ≡ request P B c m
  unfolding synchronize_backend aim_or_request
  synchronize_other c m r d o = ground (arith, ensure_worker-running m r)

  synchronize_current :
      (c : CoreConfig P) (m : Manager P B)
      → m.worker_running ≡ true
      → m.reload_in_progress ≡ false
      → should_disable_asr P B c ≡ false
      → is_current P B (build_runtime_signature P B c) m.effective ≡ true
      → synchronize_backend P B c m ≡ aim P B c m
  unfolding synchronize_backend aim_or_request
  synchronize_current c m r q d o = ground (arith, ensure_worker-running m r)

  -- The two steps of the thread for a request.
  abbrev taken : Manager P B → Manager P B
  taken m = record m {
    worker = building m.pending_settings m.target_signature;
    reload_requested = false;
    reload_in_progress = true;
  }

  take_lem :
      (m : Manager P B)
      → m.worker_running ≡ true
      → m.reload_requested ≡ true
      → m.worker ≡ idle
      → run_worker P B m ≡ taken m
  unfolding run_worker work take_request
  take_lem m r q w = ap (λ v. work P B v m) w ∙ ground arith

  serve :
      (m : Manager P B) (q : PreparedBackend B.Backend)
      → m.worker_running ≡ true
      → m.reload_requested ≡ true
      → m.worker ≡ idle
      → create_prepared_backend P B m.pending_settings ≡ inl q
      → (run_worker P B (run_worker P B m)).effective
        ≡ some (record q { signature = m.target_signature })
  unfolding run_worker work install relabel
  serve m q r e w c =
      ap (λ n. (run_worker P B n).effective) (take_lem m r e w)
      ∙ ap (λ x. (install P B (relabel P B m.target_signature x) (taken m)).effective) c

  -- A resting manager that is asked for other settings, whose backend can be prepared, has this
  -- backend in effect under its own signature after two steps of the reload thread.
  pub synchronize_backend_installs :
      (m : Manager P B) (c : CoreConfig P) (q : PreparedBackend B.Backend)
      → IsResting m
      → should_disable_asr P B c ≡ false
      → is_current P B (build_runtime_signature P B c) m.effective ≡ false
      → create_prepared_backend P B c ≡ inl q
      → (run P B m (synchronize c ∷ worker_step ∷ worker_step ∷ [])).effective
        ≡ some (record q { signature = build_runtime_signature P B c })
  unfolding run step request aim
  synchronize_backend_installs m c q i d o e =
      ap (λ n. (run_worker P B (run_worker P B n)).effective) (synchronize_other c m i.running d o)
      ∙ serve (request P B c m) q i.running refl i.waits e

  -- When the settings in effect are asked for again before the reload thread has seen a request for
  -- others, it installs the backend of the others under the signature of the settings in effect.
  pub synchronize_backend_mislabels :
      (m : Manager P B) (current other : CoreConfig P) (q : PreparedBackend B.Backend)
      → IsResting m
      → should_disable_asr P B current ≡ false
      → should_disable_asr P B other ≡ false
      → is_current P B (build_runtime_signature P B current) m.effective ≡ true
      → is_current P B (build_runtime_signature P B other) m.effective ≡ false
      → create_prepared_backend P B other ≡ inl q
      → (run P B m
          (synchronize other ∷ synchronize current ∷ worker_step ∷ worker_step ∷ [])).effective
        ≡ some (record q { signature = build_runtime_signature P B current })
  unfolding run step request aim
  synchronize_backend_mislabels m current other q i dc do' ic io e =
      ap (λ n. (run_worker P B (run_worker P B (synchronize_backend P B current n))).effective)
        (synchronize_other other m i.running do' io)
      ∙ ap (λ n. (run_worker P B (run_worker P B n)).effective)
          (synchronize_current current (request P B other m) i.running i.quiet dc ic)
      ∙ serve (aim P B current (request P B other m)) q i.running refl i.waits e

  synchronize_disabled :
      (c : CoreConfig P) (m : Manager P B)
      → should_disable_asr P B c ≡ true
      → synchronize_backend P B c m ≡ apply_disabled_state P B m
  unfolding synchronize_backend
  synchronize_disabled c m d = ground arith

  -- The step that ends a preparation.
  end_lem :
      (m : Manager P B) (c : CoreConfig P) (signature : String) (q : PreparedBackend B.Backend)
      → m.worker ≡ building c signature
      → create_prepared_backend P B c ≡ inl q
      → run_worker P B m ≡ install P B (inl (record q { signature = signature })) m
  unfolding run_worker work relabel
  end_lem m c signature q w e =
      ap (λ v. work P B v m) w ∙ ap (λ x. install P B (relabel P B signature x) m) e

  -- When recognition is disabled while the reload thread prepares a backend, the thread still puts
  -- that backend into effect, though no signature is aimed at.
  pub disabled_reload_installs :
      (m : Manager P B) (disabled pending : CoreConfig P) (signature : String)
      (q : PreparedBackend B.Backend)
      → m.worker ≡ building pending signature
      → should_disable_asr P B disabled ≡ true
      → create_prepared_backend P B pending ≡ inl q
      → ((run P B m (synchronize disabled ∷ worker_step ∷ [])).effective
          ≡ some (record q { signature = signature }))
        × ((run P B m (synchronize disabled ∷ worker_step ∷ [])).target_signature ≡ "")
  unfolding run step apply_disabled_state install
  disabled_reload_installs m disabled pending signature q w d e =
      let reached =
        ap (run_worker P B) (synchronize_disabled disabled m d)
        ∙ end_lem (apply_disabled_state P B m) pending signature q w e in
      (ap (λ n. n.effective) reached, ap (λ n. n.target_signature) reached)
