-- ===== src/Runtime/Pipeline.antt =====
-- RecognitionPipeline (src/daemon/runtime/recognition_pipeline.h and .cpp), and Payload of
-- src/common/asr/recognition_result.h. The two calls of PostProcessor are a parameter: what they
-- return for a request, a scene, the settings and the cancellation flag. `entered` says whether
-- `on_enter_postprocessing` was called; it is, before the call of PostProcessor. Logging is left out.
pub mod Commit
pub mod Tests
use Prim.Native.String
use fcitx5_vinput.Base.{
  String, Bool, true, false, not, ◌&&◌, List, [], ◌∷◌, Option, none, some, if◌then◌else◌, str_empty,
  pos, ltz,
}
use fcitx5_vinput.Scene.{Definition, new_definition, find, command_scene_id}
use fcitx5_vinput.Config.Types.{Platform, CoreConfig}
use fcitx5_vinput.Config.View.{command_scene}

pub record Candidate : Type 0 where
  pub text : String
  pub source : String

pub record Payload : Type 0 where
  pub commit_text : String
  pub candidates : List Candidate

-- `Payload{}`
abbrev pub empty_payload : Payload
empty_payload = record { commit_text = ""; candidates = [] }

pub record PostprocessRequest : Type 0 where
  pub text : String
  pub scene_id : String
  pub is_command : Bool
  pub selected_text : String

-- RecognitionPipelineResult
pub record PipelineResult : Type 0 where
  pub payload : Payload
  pub errors : List String
  pub entered : Bool

abbrev pub empty_result : PipelineResult
empty_result = record { payload = empty_payload; errors = []; entered = false }

pub record PostProcessor (P : Platform) : Type 0 where
  pub process_text : String → Definition → CoreConfig P → Bool → Payload × String
  pub process_command : String → String → Definition → CoreConfig P → Bool → Payload × String

-- `invoke_processor`, behind `on_enter_postprocessing`.
unfoldable pub invoked : Payload × String → PipelineResult
invoked (payload, error_text) = record {
  payload = payload;
  errors = if not (str_empty error_text) then error_text ∷ [] else [];
  entered = true;
}

unfoldable pub plain_result : String → PipelineResult
plain_result text = record empty_result { payload = record empty_payload { commit_text = text } }

-- Whether a scene asks for a language model.
unfoldable pub uses_model : Definition → Bool
uses_model d = ltz (pos 0) d.llm_max_candidates && not (str_empty d.provider_id)

-- `fallback_cmd`
abbrev pub fallback_command : Definition
fallback_command = record new_definition { id = command_scene_id; builtin = true }

unfoldable pub found_or : Definition → Option Definition → Definition
found_or d none = d
found_or d (some e) = e

module _ (P : Platform) (processor : PostProcessor P) where
  unfoldable pub process_command_request : PostprocessRequest → CoreConfig P → Bool → PipelineResult
  process_command_request r settings cancelled =
      let scene = found_or fallback_command (command_scene P settings) in
      if uses_model scene
      then invoked (processor.process_command r.text r.selected_text scene settings cancelled)
      else plain_result r.text

  unfoldable pub target_scene_id : PostprocessRequest → CoreConfig P → String
  target_scene_id r settings = if str_empty r.scene_id then settings.active_scene else r.scene_id

  unfoldable pub process_in_scene :
      Option Definition → PostprocessRequest → CoreConfig P → Bool → PipelineResult
  process_in_scene none r settings cancelled = record (plain_result r.text) {
    errors = String.◌++◌ "Scene '" (String.◌++◌ (target_scene_id r settings) "' not found.") ∷ [];
  }
  process_in_scene (some scene) r settings cancelled =
      if uses_model scene
      then invoked (processor.process_text r.text scene settings cancelled)
      else plain_result r.text

  -- RecognitionPipeline::Process, of a pipeline with a processor.
  unfoldable pub process : PostprocessRequest → CoreConfig P → Bool → PipelineResult
  process r settings cancelled =
      if str_empty r.text
      then empty_result
      else if r.is_command
      then process_command_request r settings cancelled
      else process_in_scene (find settings.scenes (target_scene_id r settings)) r settings cancelled
