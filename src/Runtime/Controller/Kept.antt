-- ===== src/Runtime/Controller/Kept.antt =====
-- DaemonRuntimeController: lemmas on the capture queue and the events of the active session.
use Prim.Native.Nat.{ℕ, zero, suc}
use fcitx5_vinput.Base.{
  String, ◌≡◌, refl, ◌∙◌, not, ◌&&◌, ◌||◌, List, [], ◌∷◌, Option, none, some, arith, if◌then◌else◌,
  if_both, ℤ, str_empty, is_empty, length,
}
use fcitx5_vinput.Asr.Contract.{
  SessionApi, Outcome, RecognitionEvent, RecognitionEventKind, partial_text, final_text, error,
  completed,
}
use fcitx5_vinput.Runtime.Machine.{recording, status_eq}
use fcitx5_vinput.Runtime.Lifecycle
use fcitx5_vinput.Runtime.Lifecycle.{SessionPollResult}
use fcitx5_vinput.Runtime.AudioBuffer
use fcitx5_vinput.Runtime.Controller.{
  Controller, fail_active_session, say, uses_buffered_delivery, partial, Output,
}
use fcitx5_vinput.Runtime.Controller.Audio.{
  pop_chunk, pushed, push_chunks, stream_audio, handle_incoming_audio, handle_all,
  drain_incoming_audio, dispatch_kind, apply_events, polled, poll_active_session_events,
}
use fcitx5_vinput.Runtime.Controller.Invariant.{SameParts}

module _ (api : SessionApi) where
  pub push-active :
      (s : Option ℕ) (chunk : api.Chunk) (e : String) (m : Lifecycle.Manager api)
      → (Lifecycle.push_audio api s chunk e m).0.active_session ≡ m.active_session
  unfolding Lifecycle.push_audio
  push-active none chunk e m = refl
  push-active (some s) chunk e m = refl

  retire-active :
      (s : Option ℕ) (m : Lifecycle.Manager api)
      → (Lifecycle.retire_session api s m).active_session ≡ m.active_session
  unfolding Lifecycle.retire_session Lifecycle.wake
  retire-active none m = refl
  retire-active (some s) m = ground arith

  poll-active :
      (s : Option ℕ) (m : Lifecycle.Manager api)
      → (Lifecycle.poll_session_events api s m).0.active_session ≡ m.active_session
  unfolding Lifecycle.poll_session_events
  poll-active none m = refl
  poll-active (some s) m = refl

-- A property of the controller that only its parts decide and that a failing session keeps.
pub record IsStable (api : SessionApi) (G : AudioBuffer.Gains) (Ok : Controller api G → Type 0)
    : Type 0 where
  pub parts : (c d : Controller api G) → SameParts c d → Ok c → Ok d
  pub fails :
      (s : Option ℕ) (message : String) (c : Controller api G)
      → Ok c
      → Ok (fail_active_session api G s message c)

module _ (api : SessionApi) (G : AudioBuffer.Gains) (to_chunk : List ℤ → api.Chunk)
    (Ok : Controller api G → Type 0) (K : IsStable api G Ok) where
  said_keeps : (out : List Output) (c : Controller api G) → Ok c → Ok (say api G out c)
  unfolding say
  said_keeps out c i =
      K.parts c (say api G out c)
        (record { starting = refl; accepting = refl; phase = refl; active = refl; order = refl }) i

  -- Another lifecycle manager with the same active session.
  pub lifecycle_keeps :
      (c : Controller api G) (m : Lifecycle.Manager api)
      → m.active_session ≡ c.lifecycle.active_session
      → Ok c
      → Ok (record c { lifecycle = m })
  lifecycle_keeps c m e i =
      K.parts c (record c { lifecycle = m })
        (record { starting = refl; accepting = refl; phase = refl; active = e; order = refl }) i

  dispatch_kind_keeps :
      (k : RecognitionEventKind) (e : RecognitionEvent) (c : Controller api G)
      → Ok c
      → Ok (dispatch_kind api G to_chunk k e c)
  unfolding dispatch_kind say
  dispatch_kind_keeps partial_text e c i =
      if_both Ok (str_empty e.text) c (say api G (partial c.session_ime e.text ∷ []) c) (λ h. i)
        (λ h. said_keeps (partial c.session_ime e.text ∷ []) c i)
  dispatch_kind_keeps final_text e c i =
      let d : Controller api G = record c { latest_final_text = e.text } in
      if_both Ok (str_empty e.text) c (say api G (partial c.session_ime e.text ∷ []) d) (λ h. i)
        (λ h.
          K.parts c (say api G (partial c.session_ime e.text ∷ []) d)
            (record {
              starting = refl;
              accepting = refl;
              phase = refl;
              active = refl;
              order = refl;
            })
            i)
  dispatch_kind_keeps error e c i = i
  dispatch_kind_keeps completed e c i = i

  apply_events_keeps :
      (es : List RecognitionEvent) (c : Controller api G)
      → Ok c
      → Ok (apply_events api G to_chunk es c)
  unfolding apply_events
  apply_events_keeps [] c i = i
  apply_events_keeps (e ∷ es) c i = apply_events_keeps es _ (dispatch_kind_keeps e.kind e c i)

  failed_keeps :
      (failure : Option String) (s : Option ℕ) (c : Controller api G)
      → Ok c
      → Ok (elim failure [ none ↦ c | some e ↦ fail_active_session api G s e c ])
  failed_keeps none s c i = i
  failed_keeps (some e) s c i = K.fails s e c i

  pub poll_keeps : (c : Controller api G) → Ok c → Ok (poll_active_session_events api G to_chunk c)
  unfolding poll_active_session_events polled
  poll_keeps c i =
      let r = Lifecycle.poll_session_events api c.lifecycle.active_session c.lifecycle in
      let d : Controller api G = record c { lifecycle = r.0 } in
      if_both Ok
        (not (status_eq c.machine.phase recording)
          || not (Lifecycle.has_active_session api c.lifecycle)
          || uses_buffered_delivery c.active_backend)
        c (polled api G to_chunk r.1 d) (λ h. i)
        (λ h. failed_keeps r.1.failure r.1.session (apply_events api G to_chunk r.1.events d) (
          apply_events_keeps r.1.events d
            (lifecycle_keeps c r.0 (poll-active api c.lifecycle.active_session c.lifecycle) i)))

  pop_chunk_keeps : (c : Controller api G) → Ok c → Ok (pop_chunk api G to_chunk c).0
  unfolding pop_chunk
  pop_chunk_keeps c i =
      K.parts c (pop_chunk api G to_chunk c).0
        (record { starting = refl; accepting = refl; phase = refl; active = refl; order = refl }) i

  pushed_keeps :
      (s : Option ℕ) (r : Lifecycle.Manager api × Outcome) (c : Controller api G)
      → r.0.active_session ≡ c.lifecycle.active_session
      → Ok c
      → Ok (pushed api G to_chunk s r c).0
  unfolding pushed
  pushed_keeps s (m, o) c e i =
      let j = lifecycle_keeps c m e i in
      let d : Controller api G = record c { lifecycle = m } in
      let left : Controller api G = record c { lifecycle = Lifecycle.retire_session api s m } in
      let First : Controller api G × Option (List ℤ) → Type 0 = λ x. Ok x.0 in
      let kept = Lifecycle.is_active_session api s m in
      if_both First (not o.ok || not (str_empty o.error))
        (fail_active_session api G s o.error d, none)
        (if not kept then (left, none) else pop_chunk api G to_chunk d) (λ h. K.fails s o.error d j)
        (λ h.
          if_both First (not kept) (left, none) (pop_chunk api G to_chunk d)
            (λ g.
              lifecycle_keeps c (Lifecycle.retire_session api s m) (retire-active api s m ∙ e) i)
            (λ g. pop_chunk_keeps d j))

  push_chunks_keeps :
      (fuel : ℕ) (s : Option ℕ) (chunk : Option (List ℤ)) (c : Controller api G)
      → Ok c
      → Ok (push_chunks api G to_chunk fuel s chunk c)
  unfolding push_chunks
  push_chunks_keeps zero s chunk c i = i
  push_chunks_keeps (suc fuel) s none c i = i
  push_chunks_keeps (suc fuel) s (some pcm) c i =
      push_chunks_keeps fuel s _ _
        (pushed_keeps s _ c (push-active api s (to_chunk pcm) "" c.lifecycle) i)

  stream_audio_keeps :
      (pcm : List ℤ) (c : Controller api G) → Ok c → Ok (stream_audio api G to_chunk pcm c)
  unfolding stream_audio
  stream_audio_keeps pcm c i =
      let d : Controller api G = record c { buffer = AudioBuffer.append G pcm c.buffer } in
      let r = pop_chunk api G to_chunk d in
      let j =
        K.parts c d
          (record { starting = refl; accepting = refl; phase = refl; active = refl; order = refl })
          i in
      if_both Ok (uses_buffered_delivery d.active_backend) d
        (push_chunks api G to_chunk (suc (length d.buffer.streaming_pcm)) d.lifecycle.active_session
          r.1 r.0)
        (λ h. j)
        (λ h.
          push_chunks_keeps (suc (length d.buffer.streaming_pcm)) d.lifecycle.active_session r.1 r.0
            (pop_chunk_keeps d j))

  handle_incoming_keeps :
      (pcm : List ℤ) (c : Controller api G) → Ok c → Ok (handle_incoming_audio api G to_chunk pcm c)
  unfolding handle_incoming_audio
  handle_incoming_keeps pcm c i =
      let d : Controller api G = record c { buffer = AudioBuffer.append_startup G pcm c.buffer } in
      let has = Lifecycle.has_active_session api c.lifecycle in
      let last = if not has then c else stream_audio api G to_chunk pcm c in
      let rest = if c.start_recording_in_progress && not has then d else last in
      if_both Ok (not c.accepting_chunks || is_empty pcm) c rest (λ h. i)
        (λ h.
          if_both Ok (c.start_recording_in_progress && not has) d last
            (λ g.
              K.parts c d
                (record {
                  starting = refl;
                  accepting = refl;
                  phase = refl;
                  active = refl;
                  order = refl;
                })
                i)
            (λ g.
              if_both Ok (not has) c (stream_audio api G to_chunk pcm c) (λ k. i)
                (λ k. stream_audio_keeps pcm c i)))

  handle_all_keeps :
      (queue : List (List ℤ)) (c : Controller api G) → Ok c → Ok (handle_all api G to_chunk queue c)
  unfolding handle_all
  handle_all_keeps [] c i = i
  handle_all_keeps (pcm ∷ queue) c i = handle_all_keeps queue _ (handle_incoming_keeps pcm c i)

  pub drain_keeps :
      (queue : List (List ℤ)) (c : Controller api G)
      → Ok c
      → Ok (drain_incoming_audio api G to_chunk queue c)
  unfolding drain_incoming_audio
  drain_keeps queue c i =
      if_both Ok (not c.accepting_chunks) c (handle_all api G to_chunk queue c) (λ h. i)
        (λ h. handle_all_keeps queue c i)
