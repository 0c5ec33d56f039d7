-- ===== src/Runtime/Controller/Audio.antt =====
-- DaemonRuntimeController: the audio of the capture queue, the events of the active session, and
-- FlushDeferredActions, which the main loop calls. `to_chunk` is the overload of PushAudio for 16-bit
-- samples. The drain of the notify descriptor has no other effect and is left out.
use Prim.Native.Nat.{ℕ, zero, suc}
use fcitx5_vinput.Base.{
  String, Bool, false, not, ◌&&◌, ◌||◌, List, [], ◌∷◌, ◌++◌, Option, none, some, if◌then◌else◌,
  is_empty, str_empty, length, ℤ,
}
use fcitx5_vinput.Asr.Contract.{
  RecognitionEventKind, partial_text, final_text, error, completed, RecognitionEvent, Outcome,
  SessionApi,
}
use fcitx5_vinput.Runtime.Machine
use fcitx5_vinput.Runtime.Machine.{status_eq}
use fcitx5_vinput.Runtime.Lifecycle
use fcitx5_vinput.Runtime.Lifecycle.{SessionPollResult}
use fcitx5_vinput.Runtime.AudioBuffer
use fcitx5_vinput.Runtime.Controller.{
  partial, capture_closed, restored, uses_buffered_delivery, Controller, say, fail_active_session,
  reset_to_idle,
}

module _ (api : SessionApi) (G : AudioBuffer.Gains) (to_chunk : List ℤ → api.Chunk) where
  unfoldable pub pop_chunk : Controller api G → Controller api G × Option (List ℤ)
  pop_chunk c =
      let (left, chunk) =
        AudioBuffer.pop_streaming_chunk G AudioBuffer.streaming_chunk_samples c.buffer in
      (record c { buffer = left }, chunk)

  -- After PushAudio: whether the loop goes on.
  unfoldable pub pushed :
      Option ℕ
      → Lifecycle.SessionLifecycleManager api.World × Outcome
      → Controller api G
      → Controller api G × Option (List ℤ)
  pushed session (lifecycle, o) c =
      let d : Controller api G = record c { lifecycle = lifecycle } in
      if not o.ok || not (str_empty o.error)
      then (fail_active_session api G session o.error d, none)
      else if not (Lifecycle.is_active_session api session d.lifecycle)
      then (record d { lifecycle = Lifecycle.retire_session api session d.lifecycle }, none)
      else pop_chunk d

  -- The loop over the chunks of the streaming buffer; each turn takes one from it, so its length is
  -- turns enough.
  unfoldable pub push_chunks : ℕ → Option ℕ → Option (List ℤ) → Controller api G → Controller api G
  push_chunks zero session chunk c = c
  push_chunks (suc fuel) session none c = c
  push_chunks (suc fuel) session (some pcm) c =
      let (d, next) =
        pushed session (Lifecycle.push_audio api session (to_chunk pcm) "" c.lifecycle) c in
      push_chunks fuel session next d

  unfoldable pub stream_audio : List ℤ → Controller api G → Controller api G
  stream_audio pcm c =
      let d : Controller api G = record c { buffer = AudioBuffer.append G pcm c.buffer } in
      let (e, chunk) = pop_chunk d in
      if uses_buffered_delivery d.active_backend
      then d
      else push_chunks (suc (length d.buffer.streaming_pcm)) d.lifecycle.active_session chunk e

  -- HandleIncomingAudio
  unfoldable pub handle_incoming_audio : List ℤ → Controller api G → Controller api G
  handle_incoming_audio pcm c =
      if not c.accepting_chunks || is_empty pcm
      then c
      else if c.start_recording_in_progress && not (Lifecycle.has_active_session api c.lifecycle)
      then record c { buffer = AudioBuffer.append_startup G pcm c.buffer }
      else if not (Lifecycle.has_active_session api c.lifecycle)
      then c
      else stream_audio pcm c

  unfoldable pub handle_all : List (List ℤ) → Controller api G → Controller api G
  handle_all [] c = c
  handle_all (pcm ∷ queue) c = handle_all queue (handle_incoming_audio pcm c)

  -- DrainIncomingAudio, with the chunks in the queue.
  unfoldable pub drain_incoming_audio : List (List ℤ) → Controller api G → Controller api G
  drain_incoming_audio queue c = if not c.accepting_chunks then c else handle_all queue c

  -- DispatchSingleEvent
  unfoldable pub dispatch_kind :
      RecognitionEventKind → RecognitionEvent → Controller api G → Controller api G
  dispatch_kind partial_text e c =
      if str_empty e.text then c else say api G (partial c.session_ime e.text ∷ []) c
  dispatch_kind final_text e c = if str_empty e.text then c else record c {
    latest_final_text = e.text;
    output = c.output ++ partial c.session_ime e.text ∷ [];
  }
  dispatch_kind error e c = c
  dispatch_kind completed e c = c

  -- ApplyRecognitionEvents
  unfoldable pub apply_events : List RecognitionEvent → Controller api G → Controller api G
  apply_events [] c = c
  apply_events (e ∷ es) c = apply_events es (dispatch_kind e.kind e c)

  unfoldable pub polled : SessionPollResult → Controller api G → Controller api G
  polled r c =
      let d = apply_events r.events c in
      elim r.failure [ none ↦ d | some e ↦ fail_active_session api G r.session e d ]

  -- PollActiveSessionEvents
  unfoldable pub poll_active_session_events : Controller api G → Controller api G
  poll_active_session_events c =
      if not (status_eq c.machine.phase Machine.recording)
        || not (Lifecycle.has_active_session api c.lifecycle)
        || uses_buffered_delivery c.active_backend
      then c
      else let (lifecycle, r) =
          Lifecycle.poll_session_events api c.lifecycle.active_session c.lifecycle in
        polled r (record c { lifecycle = lifecycle })

  -- Whether a deferred stop leaves a newer recording alone.
  unfoldable pub skips_teardown : Bool → Controller api G → Bool
  skips_teardown is_recording c =
      c.start_recording_in_progress
      || is_recording
      || status_eq c.machine.phase Machine.recording
      || status_eq c.machine.phase Machine.inferring
      || status_eq c.machine.phase Machine.postprocessing

  unfoldable pub deferred_stop : Bool → Bool → Option String → Controller api G → Controller api G
  deferred_stop is_recording reuses_streams synchronize_error c =
      if not c.pending_capture_stop
      then c
      else let d : Controller api G = record c { pending_capture_stop = false } in
        if skips_teardown is_recording d
        then say api G (restored ∷ []) d
        else reset_to_idle api G synchronize_error
            (say api G (if reuses_streams then restored ∷ [] else capture_closed ∷ restored ∷ []) d)

  -- FlushDeferredActions
  unfoldable pub flush_deferred_actions :
      List (List ℤ) → Bool → Bool → Option String → Controller api G → Controller api G
  flush_deferred_actions queue is_recording reuses_streams synchronize_error c =
      let (reaped, count) = Lifecycle.flush_reaped_sessions api c.lifecycle in
      deferred_stop is_recording reuses_streams synchronize_error
        (poll_active_session_events (drain_incoming_audio queue (record c { lifecycle = reaped })))
