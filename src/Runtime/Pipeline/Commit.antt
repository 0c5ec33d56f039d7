-- ===== src/Runtime/Pipeline/Commit.antt =====
-- RecognitionPipeline: texts that no language model is asked about.
use fcitx5_vinput.Base.{
  ◌≡◌, refl, ap, subst, ◌∙◌, Bool, true, false, not, ◌&&◌, Option, none, some, arith, if◌then◌else◌,
  if_both, is_empty, str_empty,
}
use fcitx5_vinput.Scene.{Definition, find, is_some}
use fcitx5_vinput.Config.Types.{Platform, CoreConfig}
use fcitx5_vinput.Config.View.{command_scene}
use fcitx5_vinput.Config.Normalize.{
  Prompts, normalize_core_config, drop_dangling_provider, filter_entries, clamp_knobs,
}
use fcitx5_vinput.Config.Validate.{check_active_scene}
use fcitx5_vinput.Config.Validate.Normal.{drop_dangling_scene-check}
use fcitx5_vinput.Runtime.Pipeline.{
  empty_payload, PostprocessRequest, PipelineResult, PostProcessor, empty_result, plain_result,
  invoked, found_or, uses_model, fallback_command, process_command_request, target_scene_id,
  process_in_scene, process,
}

-- The text is committed as it is, and an error is reported exactly if it says so.
pub record IsPlain (r : PostprocessRequest) (faulty : Bool) (o : PipelineResult) : Type 0 where
  pub payload : o.payload ≡ record empty_payload { commit_text = r.text }
  pub errors : is_empty o.errors ≡ not faulty

module _ (P : Platform) (X : PostProcessor P) where
  command-IsPlain :
      (r : PostprocessRequest) (settings : CoreConfig P) (cancelled : Bool)
      → (process_command_request P X r settings cancelled).entered ≡ false
      → IsPlain r false (process_command_request P X r settings cancelled)
  unfolding process_command_request invoked plain_result
  command-IsPlain r settings cancelled n =
      let scene = found_or fallback_command (command_scene P settings) in
      if_both (λ (o : PipelineResult). o.entered ≡ false → IsPlain r false o) (uses_model scene)
        (invoked (X.process_command r.text r.selected_text scene settings cancelled))
        (plain_result r.text) (λ h e. ground (arith, e))
        (λ h e. record { payload = refl; errors = refl }) n

  scene-IsPlain :
      (found : Option Definition) (r : PostprocessRequest) (settings : CoreConfig P)
      (cancelled : Bool)
      → (process_in_scene P X found r settings cancelled).entered ≡ false
      → IsPlain r (not (is_some found)) (process_in_scene P X found r settings cancelled)
  unfolding process_in_scene invoked plain_result
  scene-IsPlain none r settings cancelled n = record { payload = refl; errors = refl }
  scene-IsPlain (some scene) r settings cancelled n =
      if_both (λ (o : PipelineResult). o.entered ≡ false → IsPlain r false o) (uses_model scene)
        (invoked (X.process_text r.text scene settings cancelled)) (plain_result r.text)
        (λ h e. ground (arith, e)) (λ h e. record { payload = refl; errors = refl }) n

  either-IsPlain :
      (is_command : Bool) (r : PostprocessRequest) (settings : CoreConfig P) (cancelled : Bool)
      (found : Option Definition)
      → (if is_command
          then process_command_request P X r settings cancelled
          else process_in_scene P X found r settings cancelled).entered
        ≡ false
      → IsPlain r (not is_command && not (is_some found)) (
          if is_command
          then process_command_request P X r settings cancelled
          else process_in_scene P X found r settings cancelled)
  either-IsPlain true r settings cancelled found n = command-IsPlain r settings cancelled n
  either-IsPlain false r settings cancelled found n = scene-IsPlain found r settings cancelled n

  -- A text that is not empty and is not given to a language model is committed unchanged, with no
  -- candidates; an error is reported exactly for a dictation whose scene does not exist.
  pub process-IsPlain :
      (r : PostprocessRequest) (settings : CoreConfig P) (cancelled : Bool)
      → str_empty r.text ≡ false
      → (process P X r settings cancelled).entered ≡ false
      → IsPlain r
          (not r.is_command
            && not (is_some (find settings.scenes (target_scene_id P X r settings))))
          (process P X r settings cancelled)
  unfolding process
  process-IsPlain r settings cancelled t n =
      let found = find settings.scenes (target_scene_id P X r settings) in
      let faulty = not r.is_command && not (is_some found) in
      if_both (λ (o : PipelineResult). o.entered ≡ false → IsPlain r faulty o) (str_empty r.text)
        empty_result
        (if r.is_command
          then process_command_request P X r settings cancelled
          else process_in_scene P X found r settings cancelled)
        (λ h e. ground (arith, t, h))
        (λ h e. either-IsPlain r.is_command r settings cancelled found e) n

and_false : (b : Bool) → (b && false) ≡ false
and_false true = refl
and_false false = refl

module _ (T : Prompts) (P : Platform) (X : PostProcessor P) where
  found_active :
      (settings : CoreConfig P)
      → check_active_scene P settings ≡ none
      → str_empty settings.active_scene ≡ false
      → is_some (find settings.scenes settings.active_scene) ≡ true
  unfolding check_active_scene
  found_active settings c n = ground (arith, c, n)

  active_target :
      (r : PostprocessRequest) (settings : CoreConfig P)
      → str_empty r.scene_id ≡ true
      → is_some (find settings.scenes settings.active_scene) ≡ true
      → is_some (find settings.scenes (target_scene_id P X r settings)) ≡ true
  unfolding target_scene_id
  active_target r settings e f =
      ap (λ b. is_some (find settings.scenes (if b then settings.active_scene else r.scene_id))) e
      ∙ f

  -- Under settings that were normalized and have an active scene, a request without a scene of
  -- its own whose text is not empty and is not given to a language model is committed unchanged, and reports no error.
  pub process-normalize_core_config :
      (r : PostprocessRequest) (c : CoreConfig P) (cancelled : Bool)
      → str_empty r.text ≡ false
      → str_empty r.scene_id ≡ true
      → str_empty (normalize_core_config T P c).active_scene ≡ false
      → (process P X r (normalize_core_config T P c) cancelled).entered ≡ false
      → IsPlain r false (process P X r (normalize_core_config T P c) cancelled)
  unfolding normalize_core_config
  process-normalize_core_config r c cancelled t e a n =
      let s = normalize_core_config T P c in
      let kept = drop_dangling_provider T P (filter_entries T P (clamp_knobs T P c)) in
      let f = found_active s (drop_dangling_scene-check T P kept) a in
      let g = active_target r s e f in
      subst (λ b. IsPlain r b (process P X r s cancelled))
        (ap (λ b. not r.is_command && not b) g ∙ and_false (not r.is_command))
        (process-IsPlain P X r s cancelled t n)
