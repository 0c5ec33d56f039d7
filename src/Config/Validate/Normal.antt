-- ===== src/Config/Validate/Normal.antt =====
-- ValidateCoreConfig accepts whatever NormalizeCoreConfig returns.
use fcitx5_vinput.Base.{
  ◌≡◌, refl, true, false, not, ◌&&◌, [], ◌++◌, map, none, arith, inl, inr, str_empty, Fresh,
  Bool-cases,
}
use fcitx5_vinput.Scene.{find, is_some}
use fcitx5_vinput.Config.Types.{
  Platform, AsrProvider, local_asr, command_asr, asr_provider_id, CoreConfig,
}
use fcitx5_vinput.Config.View.{asr_provider}
use fcitx5_vinput.Config.Normalize.{
  Prompts, any_entry, repair_process, has_command, repair_provider, filter_entries, clamp_knobs,
  drop_dangling_provider, drop_dangling_scene, normalize_core_config,
}
use fcitx5_vinput.Config.Validate.{
  check_unique_id, check_asr_providers, lacks_command, check_active_provider, check_scenes,
  check_active_scene, validate_core_config,
}
use fcitx5_vinput.Config.Validate.Fresh.{
  keep_first-Fresh, keep_first-All, keep_first-append, check_unique_id-none,
  check_asr_providers-none, check_scenes-none,
}
use fcitx5_vinput.Config.Validate.Scenes.{
  normalize_scenes-Fresh, normalize_scenes-All, normalize_scenes-contains,
}

repair_provider-id : (p : AsrProvider) → asr_provider_id (repair_provider p) ≡ asr_provider_id p
unfolding repair_provider asr_provider_id
repair_provider-id (local_asr p) = refl
repair_provider-id (command_asr p) = refl

repair_provider-command :
    (p : AsrProvider) → has_command p ≡ true → lacks_command (repair_provider p) ≡ false
unfolding repair_provider has_command lacks_command
repair_provider-command (local_asr p) h = refl
repair_provider-command (command_asr p) h = ground arith

module _ (T : Prompts) (P : Platform) where
  pub drop_dangling_scene-check :
      (c : CoreConfig P) → check_active_scene P (drop_dangling_scene T P c) ≡ none
  unfolding check_active_scene drop_dangling_scene
  drop_dangling_scene-check c =
      elim (Bool-cases
        (not (str_empty c.active_scene) && not (is_some (find c.scenes c.active_scene)))) [
          | inl dangling ↦ rw dangling refl
          | inr found ↦ rw (found, found) refl
        ]

  drop_dangling_scene-provider :
      (c : CoreConfig P)
      → check_active_provider P (drop_dangling_scene T P c) ≡ check_active_provider P c
  unfolding check_active_provider drop_dangling_scene asr_provider
  drop_dangling_scene-provider c =
      elim (Bool-cases
        (not (str_empty c.active_scene) && not (is_some (find c.scenes c.active_scene)))) [
          | inl dangling ↦ rw dangling refl
          | inr found ↦ rw found refl
        ]

  provider-check :
      (c : CoreConfig P) → check_active_provider P (drop_dangling_provider T P c) ≡ none
  unfolding check_active_provider drop_dangling_provider
  provider-check c =
      elim (Bool-cases (
        not (str_empty c.asr.active_provider)
        && not (is_some (asr_provider P c c.asr.active_provider)))) [
          | inl dangling ↦ rw dangling refl
          | inr found ↦ rw (found, found) refl
        ]

  drop_dangling_provider-check :
      (c : CoreConfig P)
      → check_active_provider P (drop_dangling_scene T P (drop_dangling_provider T P c)) ≡ none
  drop_dangling_provider-check c = rw (drop_dangling_scene-provider _) (provider-check c)

  -- The last two steps leave every list as it was.
  record SameLists (c d : CoreConfig P) : Type 0 where
    llm_providers : c.llm_providers ≡ d.llm_providers
    llm_adapters : c.llm_adapters ≡ d.llm_adapters
    asr_providers : c.asr.providers ≡ d.asr.providers
    scenes : c.scenes ≡ d.scenes
    triggers : c.triggers ≡ d.triggers
    receivers : c.receivers ≡ d.receivers

  drop_dangling-SameLists :
      (c : CoreConfig P) → SameLists (drop_dangling_scene T P (drop_dangling_provider T P c)) c
  unfolding drop_dangling_scene drop_dangling_provider
  drop_dangling-SameLists c = record {
    llm_providers = ground arith;
    llm_adapters = ground arith;
    asr_providers = ground arith;
    scenes = ground arith;
    triggers = ground arith;
    receivers = ground arith;
  }

  filter_entries-llm_providers :
      (c : CoreConfig P)
      → check_unique_id (λ p. p.id) "LLM provider" [] (filter_entries T P c).llm_providers ≡ none
  unfolding filter_entries
  filter_entries-llm_providers c =
      check_unique_id-none _ _ [] _
        (keep_first-Fresh _ any_entry (λ p. p) (λ p. refl) [] c.llm_providers)

  filter_entries-llm_adapters :
      (c : CoreConfig P)
      → check_unique_id (λ p. p.id) "LLM adapter" [] (filter_entries T P c).llm_adapters ≡ none
  unfolding filter_entries repair_process
  filter_entries-llm_adapters c =
      check_unique_id-none _ _ [] _
        (keep_first-Fresh _ any_entry repair_process (λ p. refl) [] c.llm_adapters)

  filter_entries-asr_providers :
      (c : CoreConfig P) → check_asr_providers [] (filter_entries T P c).asr.providers ≡ none
  unfolding filter_entries
  filter_entries-asr_providers c =
      check_asr_providers-none [] _
        (keep_first-Fresh asr_provider_id has_command repair_provider repair_provider-id []
          c.asr.providers)
        (keep_first-All asr_provider_id has_command repair_provider repair_provider-id
          (λ p. lacks_command p ≡ false) repair_provider-command [] c.asr.providers)

  filter_entries-scenes :
      (c : CoreConfig P) → check_scenes false false [] (filter_entries T P c).scenes ≡ none
  unfolding filter_entries
  filter_entries-scenes c =
      check_scenes-none false false [] _ (normalize_scenes-Fresh T c.scenes)
        (normalize_scenes-All T c.scenes) (normalize_scenes-contains T c.scenes).0
        (normalize_scenes-contains T c.scenes).1

  filter_entries-clients :
      (c : CoreConfig P)
      → let f = filter_entries T P c in
        Fresh [] (map (λ p. p.id) f.triggers ++ map (λ p. p.id) f.receivers)
  unfolding filter_entries repair_process
  filter_entries-clients c =
      keep_first-append (λ p. p.id) any_entry repair_process (λ p. refl) [] c.triggers _
        (keep_first-Fresh (λ p. p.id) any_entry repair_process (λ p. refl) _ c.receivers)

  -- Validation accepts every configuration that normalization returns, whatever was read.
  pub normalize_core_config-IsAccepted :
      (c : CoreConfig P) → validate_core_config P (normalize_core_config T P c) ≡ none
  unfolding normalize_core_config validate_core_config
  normalize_core_config-IsAccepted c =
      let f = filter_entries T P (clamp_knobs T P c) in
      let same = drop_dangling-SameLists f in
      rw
        (
          drop_dangling_provider-check f,
          drop_dangling_scene-check (drop_dangling_provider T P f),
          same.llm_providers,
          same.llm_adapters,
          same.asr_providers,
          same.scenes,
          filter_entries-llm_providers (clamp_knobs T P c),
          filter_entries-llm_adapters (clamp_knobs T P c),
          filter_entries-asr_providers (clamp_knobs T P c),
          filter_entries-scenes (clamp_knobs T P c),
        )
        refl

  -- In every normalized configuration the ids of the triggers and of the receivers, taken together,
  -- are not empty and distinct.
  pub normalize_core_config-clients :
      (c : CoreConfig P)
      → let n = normalize_core_config T P c in
        Fresh [] (map (λ p. p.id) n.triggers ++ map (λ p. p.id) n.receivers)
  unfolding normalize_core_config
  normalize_core_config-clients c =
      let same = drop_dangling-SameLists (filter_entries T P (clamp_knobs T P c)) in
      rw (same.triggers, same.receivers) (filter_entries-clients (clamp_knobs T P c))
