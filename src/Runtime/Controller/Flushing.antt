-- ===== src/Runtime/Controller/Flushing.antt =====
-- DaemonRuntimeController: lemmas on FlushDeferredActions and the invariant.
use fcitx5_vinput.Base.{
  String, ◌≡◌, refl, Bool, false, not, List, [], ◌∷◌, Option, arith, if◌then◌else◌, if_both, ℤ,
}
use fcitx5_vinput.Asr.Contract.{SessionApi}
use fcitx5_vinput.Runtime.Machine.{recording, status_eq}
use fcitx5_vinput.Runtime.Lifecycle
use fcitx5_vinput.Runtime.Lifecycle.{SessionPollResult}
use fcitx5_vinput.Runtime.AudioBuffer
use fcitx5_vinput.Runtime.Controller.{
  Controller, reset_to_idle, say, Output, restored, capture_closed,
}
use fcitx5_vinput.Runtime.Controller.Audio.{skips_teardown, deferred_stop, flush_deferred_actions}
use fcitx5_vinput.Runtime.Controller.Steps.{Position}
use fcitx5_vinput.Runtime.Controller.Invariant.{
  is_working, quiet-Fits, IsSound, same_parts, reset-IsSound, said-IsSound, fail-IsSound,
}
use fcitx5_vinput.Runtime.Controller.Kept.{IsStable, lifecycle_keeps, poll_keeps, drain_keeps}

module _ (api : SessionApi) (G : AudioBuffer.Gains) (to_chunk : List ℤ → api.Chunk)
    {Settings : Type 0} (p : Position Settings) where
  abbrev Ok : Controller api G → Type 0
  Ok c = IsSound p c

  sound : IsStable api G Ok
  sound = record { parts = same_parts p; fails = fail-IsSound api G p }

  -- Outside the phases of a request the worker rests.
  quiet-IsSound :
      (e : Option String) (c : Controller api G)
      → status_eq c.machine.phase recording ≡ false
      → is_working c.machine.phase ≡ false
      → Ok c
      → Ok (reset_to_idle api G e c)
  quiet-IsSound e c r w i =
      reset-IsSound api G p p e c i r (quiet-Fits p c.current_order c.machine.phase w i.fits)

  -- A stop that is not skipped meets no recording and no order in work.
  no_recording :
      (is_recording : Bool) (c : Controller api G)
      → skips_teardown api G to_chunk is_recording (record c { pending_capture_stop = false })
        ≡ false
      → status_eq c.machine.phase recording ≡ false
  unfolding skips_teardown
  no_recording is_recording c g = ground arith

  no_work :
      (is_recording : Bool) (c : Controller api G)
      → skips_teardown api G to_chunk is_recording (record c { pending_capture_stop = false })
        ≡ false
      → is_working c.machine.phase ≡ false
  unfolding skips_teardown
  no_work is_recording c g = ground arith

  deferred_stop-IsSound :
      (is_recording reuses_streams : Bool) (e : Option String) (c : Controller api G)
      → Ok c
      → Ok (deferred_stop api G to_chunk is_recording reuses_streams e c)
  unfolding deferred_stop say
  deferred_stop-IsSound is_recording reuses_streams e c i =
      let d : Controller api G = record c { pending_capture_stop = false } in
      let out : List Output =
        if reuses_streams then restored ∷ [] else capture_closed ∷ restored ∷ [] in
      let closed = say api G out d in
      let skips = skips_teardown api G to_chunk is_recording d in
      let j =
        same_parts p c d
          (record { starting = refl; accepting = refl; phase = refl; active = refl; order = refl })
          i in
      let rest = if skips then say api G (restored ∷ []) d else reset_to_idle api G e closed in
      if_both Ok (not c.pending_capture_stop) c rest (λ h. i)
        (λ h.
          if_both Ok skips (say api G (restored ∷ []) d) (reset_to_idle api G e closed)
            (λ g. said-IsSound api G p (restored ∷ []) d j)
            (λ g.
              quiet-IsSound e closed (no_recording is_recording c g) (no_work is_recording c g)
                (said-IsSound api G p out d j)))

  pub flush-IsSound :
      (queue : List (List ℤ)) (is_recording reuses_streams : Bool) (e : Option String)
      (c : Controller api G)
      → Ok c
      → Ok (flush_deferred_actions api G to_chunk queue is_recording reuses_streams e c)
  unfolding flush_deferred_actions Lifecycle.flush_reaped_sessions
  flush-IsSound queue is_recording reuses_streams e c i =
      deferred_stop-IsSound is_recording reuses_streams e _ (
        poll_keeps api G to_chunk Ok sound _ (
          drain_keeps api G to_chunk Ok sound queue _
            (lifecycle_keeps api G to_chunk Ok sound c _ refl i)))
