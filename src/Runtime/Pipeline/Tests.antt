-- ===== src/Runtime/Pipeline/Tests.antt =====
-- RecognitionPipeline on a dictation in a scene without a language model.
use fcitx5_vinput.Base.{◌≡◌, refl, false, not, ◌&&◌, [], str_empty}
use fcitx5_vinput.Scene.{
  find, is_some, normalize_definition, is_builtin_scene_id, normalize_llm_max_candidates,
  normalize_timeout_ms, normalize_context_lines,
}
use fcitx5_vinput.Config.Types.{CoreConfig, asr_provider_id}
use fcitx5_vinput.Config.Normalize.{
  normalize_core_config, drop_dangling_scene, drop_dangling_provider, filter_entries, clamp_knobs,
  clamp, clamp_pad, keep_first, has_command, repair_provider, normalize_scenes, ensure_scene,
  keep_scenes, make_builtin_scene,
}
use fcitx5_vinput.Config.View.{asr_provider, find_by}
use fcitx5_vinput.Config.Validate.Tests.{prompts, platform, broken}
use fcitx5_vinput.Runtime.Pipeline.{
  empty_payload, PostprocessRequest, PostProcessor, target_scene_id, process, process_in_scene,
  plain_result, uses_model,
}
use fcitx5_vinput.Runtime.Pipeline.Commit.{IsPlain, process-IsPlain, process-normalize_core_config}

abbrev model : PostProcessor platform
model = record {
  process_text = λ text scene settings cancelled. (empty_payload, "no answer");
  process_command = λ text selected scene settings cancelled. (empty_payload, "no answer");
}

abbrev request : PostprocessRequest
request = record { text = "hello"; scene_id = ""; is_command = false; selected_text = "" }

-- The active scene does not exist.
process-IsPlain_example :
    IsPlain request
      (not request.is_command
        && not (is_some (find broken.scenes (target_scene_id platform model request broken))))
      (process platform model request broken false)
unfolding process process_in_scene find target_scene_id plain_result
process-IsPlain_example = process-IsPlain platform model request broken false refl refl

-- The raw scene, which normalization adds, is active.
abbrev plain : CoreConfig platform
plain = record broken { active_scene = "__raw__"; scenes = [] }

plain_active : str_empty (normalize_core_config prompts platform plain).active_scene ≡ false
unfolding normalize_core_config drop_dangling_scene drop_dangling_provider filter_entries
    clamp_knobs clamp clamp_pad asr_provider find_by keep_first asr_provider_id has_command
    repair_provider normalize_scenes ensure_scene keep_scenes make_builtin_scene
    normalize_definition is_builtin_scene_id normalize_llm_max_candidates normalize_timeout_ms
    normalize_context_lines find
plain_active = refl

plain_enters :
    (process platform model request (normalize_core_config prompts platform plain) false).entered
    ≡ false
unfolding normalize_core_config drop_dangling_scene drop_dangling_provider filter_entries
    clamp_knobs clamp clamp_pad asr_provider find_by keep_first asr_provider_id has_command
    repair_provider normalize_scenes ensure_scene keep_scenes make_builtin_scene
    normalize_definition is_builtin_scene_id normalize_llm_max_candidates normalize_timeout_ms
    normalize_context_lines find process process_in_scene target_scene_id plain_result uses_model
plain_enters = refl

process-normalize_core_config_example :
    IsPlain request false
      (process platform model request (normalize_core_config prompts platform plain) false)
process-normalize_core_config_example =
    process-normalize_core_config prompts platform model request plain false refl refl plain_active
      plain_enters
