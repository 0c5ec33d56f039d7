-- ===== src/Runtime/Controller/Worker.antt =====
-- DaemonRuntimeController: WorkerMain, in its sections, and InjectText. `to_chunk` and `normalized` are
-- the two overloads of PushAudio, the second with the peak normalization before it. Exceptions are
-- those that the code throws itself: a push that fails.
use fcitx5_vinput.Base.{
  String, Bool, true, false, not, ◌&&◌, ◌||◌, List, [], ◌∷◌, ◌++◌, map, Option, none, some,
  if◌then◌else◌, is_empty, str_empty, ℤ,
}
use fcitx5_vinput.Asr.Contract.{
  buffered, chunked, no_backend, Outcome, RecognitionRunResult, SessionApi,
}
use fcitx5_vinput.Runtime.Machine
use fcitx5_vinput.Runtime.Machine.{
  Status, PostprocessingState, inactive, dictation, command, discard, commit_raw, status_eq,
  on_inference_complete, take_postprocessing_state,
}
use fcitx5_vinput.Runtime.Lifecycle
use fcitx5_vinput.Runtime.AudioBuffer
use fcitx5_vinput.Runtime.Pipeline.{Payload, empty_payload, PostprocessRequest, PipelineResult}
use fcitx5_vinput.Runtime.Controller.{
  MethodResult, success, busy, Output, status, partial, result, committed, notification,
  RecognitionOrder, Controller, say,
}

-- What PushAudio gives for the order, `none` where nothing is pushed.
unfoldable pub is_normalized : Bool → RecognitionOrder → Bool
is_normalized normalize_audio order =
    normalize_audio
    && not (is_empty order.pcm)
    && elim order.audio_delivery_mode [ buffered ↦ true | chunked ↦ false ]

-- InjectStage
pub data InjectStage : Type 0 where
  partial_stage final_stage : InjectStage

unfoldable pub result_outputs : Bool → Payload → List Output
result_outputs ime payload =
    (if ime then result payload ∷ [] else [])
    ++ (if not (str_empty payload.commit_text) then committed ime payload ∷ [] else [])

-- The payload of a text that is committed as it is.
abbrev pub raw_payload : String → Payload
raw_payload text = record {
  commit_text = text;
  candidates = record { text = text; source = "raw" } ∷ [];
}

-- What a cancellation during post-processing makes of the result.
unfoldable pub settle : PostprocessingState → String → PipelineResult → PipelineResult
settle commit_raw text r = record r { payload = raw_payload text; errors = [] }
settle discard text r = record r { payload = empty_payload; errors = [] }
settle _ text r = r

module _ (api : SessionApi) (G : AudioBuffer.Gains) where
  -- A recognition that gave a result: the request with its text, or nothing.
  unfoldable pub recognized :
      RecognitionOrder
      → RecognitionRunResult
      → Controller api G
      → Controller api G × Option PostprocessRequest
  recognized order r c =
      if not r.ok || not (str_empty r.error)
      then (
        say api G
            (notification
                (if str_empty r.error then "Failed to finish recognition session." else r.error)
              ∷ [])
            c,
        none,
      )
      else if not (str_empty r.text)
      then (
        say api G (partial order.ime r.text ∷ []) c,
        some (record (order.postprocess_request) { text = r.text }),
      )
      else (c, some order.postprocess_request)

  -- EnterPostprocessing
  unfoldable pub enter_postprocessing : Controller api G → Controller api G
  enter_postprocessing c =
      let (m, t) = on_inference_complete c.machine true in
      record c { machine = m; output = c.output ++ status c.session_ime t.new_phase ∷ [] }

  -- Before PostProcessor is called: the flag is cleared, and the phase entered where a model is used.
  unfoldable pub begin_process : Bool → Controller api G → Controller api G
  begin_process enters c =
      let d : Controller api G = record c { postprocessing_cancel_requested = false } in
      if enters then enter_postprocessing d else d

  -- Behind the pipeline, with its result: the cancellation is taken, and the outputs go out.
  unfoldable pub deliver :
      RecognitionOrder → PostprocessRequest → PipelineResult → Controller api G → Controller api G
  deliver order request r c =
      let (m, action) = take_postprocessing_state c.machine in
      let settled = settle action request.text r in
      record c {
        machine = m;
        output =
            c.output ++ map notification settled.errors ++ result_outputs order.ime settled.payload;
      }

  -- InjectText
  unfoldable pub inject_text :
      Bool → InjectStage → String → String → Controller api G → Controller api G × MethodResult
  inject_text ime partial_stage text scene_id c = (say api G (partial ime text ∷ []) c, success)
  inject_text ime final_stage text scene_id c =
      if str_empty scene_id
      then (say api G (result_outputs ime (raw_payload text)) c, success)
      else if not (status_eq c.machine.phase Machine.idle)
      then (c, busy)
      else (
        record c {
          session_ime = ime;
          current_order = some (record {
            audio_delivery_mode = chunked;
            session = none;
            backend = no_backend;
            pcm = [];
            postprocess_request = record {
              text = text;
              scene_id = scene_id;
              is_command = false;
              selected_text = "";
            };
            ime = ime;
          });
        },
        success,
      )

module _ (api : SessionApi) (G : AudioBuffer.Gains) (to_chunk normalized : List ℤ → api.Chunk) where
  unfoldable pub push_order :
      Bool → RecognitionOrder → Lifecycle.Manager api → Lifecycle.Manager api × Outcome
  push_order normalize_audio order m =
      if is_empty order.pcm
      then (m, record { ok = true; error = "" })
      else Lifecycle.push_audio api order.session
          (if is_normalized normalize_audio order then normalized order.pcm else to_chunk order.pcm)
          "" m

  unfoldable pub finish_pushed :
      RecognitionOrder
      → Lifecycle.Manager api × Outcome
      → Controller api G
      → Controller api G × Option PostprocessRequest
  finish_pushed order (m, o) c =
      if not o.ok
      then (
        say api G (notification o.error ∷ [])
            (record c { lifecycle = m; machine = (take_postprocessing_state c.machine).0 }),
        none,
      )
      else let (m', r) = Lifecycle.finish_session_and_collect_result api order.session m in
        recognized api G order r (record c { lifecycle = m' })

  -- The part of the loop up to the pipeline: `none` where ResetToIdle follows at once.
  unfoldable pub recognize :
      Bool → RecognitionOrder → Controller api G → Controller api G × Option PostprocessRequest
  recognize normalize_audio order c = elim order.session [
    | none ↦ (c, some order.postprocess_request)
    | some s ↦ finish_pushed order (push_order normalize_audio order c.lifecycle) c
  ]
