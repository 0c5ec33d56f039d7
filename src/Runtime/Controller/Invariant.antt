-- ===== src/Runtime/Controller/Invariant.antt =====
-- DaemonRuntimeController: the invariant of the controller and its thread.
use Prim.Native.Nat.{ℕ}
use fcitx5_vinput.Base.{
  String, ◌≡◌, refl, sym, ap, subst, ◌∙◌, ◌⊎◌, inl, Bool, true, false, not, ◌||◌, List, [], ◌∷◌,
  ◌++◌, Option, none, some, arith, if_both,
}
use fcitx5_vinput.Asr.Contract.{SessionApi}
use fcitx5_vinput.Runtime.Machine
use fcitx5_vinput.Runtime.Machine.{
  Status, idle, recording, inferring, postprocessing, status_eq, on_audio_error, on_reset_to_idle,
  clear,
}
use fcitx5_vinput.Runtime.Lifecycle
use fcitx5_vinput.Runtime.AudioBuffer
use fcitx5_vinput.Runtime.Controller.{
  RecognitionOrder, DaemonRuntimeController, Controller, maybe_apply_pending_reload, reset_to_idle,
  fail_active_session, reset_recording_state, schedule_capture_stop, say, reload_failure,
  notify_status, Output, backend_synchronized, notification,
}
use fcitx5_vinput.Runtime.Controller.Steps.{Position, resting, ending, serving, processing}

-- A phase in which the worker has something to do.
abbrev pub is_working : Status → Bool
is_working s = status_eq s inferring || status_eq s postprocessing

abbrev pub is_present {ℓ} : {A : Type ℓ} → Option A → Bool
is_present none = false
is_present (some a) = true

-- The order and the phase that go with where the worker stands.
unfoldable pub Fits :
    {Settings : Type 0} → Position Settings → Status → Option RecognitionOrder → Type 0
Fits resting phase order =
    (is_present order ≡ status_eq phase inferring) × (status_eq phase postprocessing ≡ false)
Fits (serving o s) phase order = phase ≡ inferring
Fits (processing o r s) phase order = is_working phase ≡ true
Fits ending phase order = is_working phase ≡ true

-- A session is active exactly while recording, audio is accepted only then, no start is half done,
-- and the worker has an order exactly in the phases after the recording.
pub record IsSound {World Float Settings : Type 0} (p : Position Settings)
    (c : DaemonRuntimeController World Float) : Type 0 where
  pub whole : c.start_recording_in_progress ≡ false
  pub listening : (c.accepting_chunks ≡ false) ⊎ (c.machine.phase ≡ recording)
  pub session : is_present c.lifecycle.active_session ≡ status_eq c.machine.phase recording
  pub fits : Fits p c.machine.phase c.current_order

-- The invariant reads five parts of the controller.
pub record SameParts {World Float : Type 0} (c d : DaemonRuntimeController World Float)
    : Type 0 where
  pub starting : d.start_recording_in_progress ≡ c.start_recording_in_progress
  pub accepting : d.accepting_chunks ≡ c.accepting_chunks
  pub phase : d.machine.phase ≡ c.machine.phase
  pub active : d.lifecycle.active_session ≡ c.lifecycle.active_session
  pub order : d.current_order ≡ c.current_order

pub same_parts :
    {World Float Settings : Type 0} (p : Position Settings)
    (c d : DaemonRuntimeController World Float)
    → SameParts c d
    → IsSound p c
    → IsSound p d
same_parts p c d e i = record {
  whole = e.starting ∙ i.whole;
  listening = rw (e.accepting, e.phase) i.listening;
  session = rw (e.active, e.phase) i.session;
  fits = rw (e.phase, e.order) i.fits;
}

module _ (api : SessionApi) where
  pub cancel-active :
      (s : Option ℕ) (m : Lifecycle.Manager api)
      → (Lifecycle.cancel_and_retire_session api s m).active_session ≡ m.active_session
  unfolding Lifecycle.cancel_and_retire_session Lifecycle.cancel_session Lifecycle.retire_session
      Lifecycle.wake
  cancel-active none m = refl
  cancel-active (some s) m = ground arith

  pub is_active-present :
      (s : Option ℕ) (m : Lifecycle.Manager api)
      → Lifecycle.is_active_session api s m ≡ true
      → is_present m.active_session ≡ true
  unfolding Lifecycle.is_active_session Lifecycle.same_session
  is_active-present none m h = ground arith
  is_active-present (some s) m h = ground arith

audio_error_phase :
    (m : Machine.RuntimeStateMachine)
    → status_eq m.phase recording ≡ true
    → (on_audio_error m).0.phase ≡ Machine.error
unfolding on_audio_error
audio_error_phase m e = ground arith

-- A worker at rest stays in step with a controller that goes idle.
pub quiet-Fits :
    {Settings : Type 0} (p : Position Settings) (order : Option RecognitionOrder) (phase : Status)
    → is_working phase ≡ false
    → Fits p phase order
    → Fits p idle none
unfolding Fits
quiet-Fits resting order phase w f = (refl, refl)
quiet-Fits (serving o s) order phase w f = ground (arith, w, f)
quiet-Fits (processing o q s) order phase w f = ground (arith, w, f)
quiet-Fits ending order phase w f = ground (arith, w, f)

error-Fits :
    {Settings : Type 0} (p : Position Settings) (order : Option RecognitionOrder) (phase : Status)
    → status_eq phase recording ≡ true
    → Fits p phase order
    → Fits p Machine.error order
unfolding Fits
error-Fits resting order phase r f = ground (arith, r, f)
error-Fits (serving o s) order phase r f = ground (arith, r, f)
error-Fits (processing o q s) order phase r f = ground (arith, r, f)
error-Fits ending order phase r f = ground (arith, r, f)

module _ (api : SessionApi) (G : AudioBuffer.Gains) {Settings : Type 0} where
  pub reload-IsSound :
      (p : Position Settings) (e : Option String) (c : Controller api G)
      → IsSound p c
      → IsSound p (maybe_apply_pending_reload api G e c)
  unfolding maybe_apply_pending_reload
  reload-IsSound p e c i =
      let d : Controller api G = record c {
        pending_asr_backend_reload = false;
        output =
            c.output
            ++ backend_synchronized
              ∷ elim e [ none ↦ [] | some m ↦ notification (reload_failure api G m) ∷ [] ];
      } in
      if_both (IsSound p) (not c.pending_asr_backend_reload || not (status_eq c.machine.phase idle))
        c d (λ h. i)
        (λ h.
          same_parts p c d
            (record {
              starting = refl;
              accepting = refl;
              phase = refl;
              active = refl;
              order = refl;
            })
            i)

  -- A reset in a phase without a recording.
  pub reset-IsSound :
      (p q : Position Settings) (e : Option String) (c : Controller api G)
      → IsSound p c
      → status_eq c.machine.phase recording ≡ false
      → Fits q idle none
      → IsSound q (reset_to_idle api G e c)
  unfolding reset_to_idle reset_recording_state on_reset_to_idle clear
  reset-IsSound p q e c i n f = reload-IsSound q e _ (record {
    whole = refl;
    listening = ground (arith, i.listening);
    session = i.session ∙ n;
    fits = f;
  })

  pub fail-IsSound :
      (p : Position Settings) (s : Option ℕ) (message : String) (c : Controller api G)
      → IsSound p c
      → IsSound p (fail_active_session api G s message c)
  unfolding fail_active_session schedule_capture_stop reset_recording_state Lifecycle.detach_active
  fail-IsSound p s message c i =
      if_both (IsSound p) (not (Lifecycle.is_active_session api s c.lifecycle)) _ _ (λ h. i)
        (λ h.
          let present = is_active-present api s c.lifecycle (ground arith) in
          let e = audio_error_phase c.machine (sym i.session ∙ present) in
          record {
            whole = i.whole;
            listening = inl refl;
            session =
                ap is_present (cancel-active api c.lifecycle.active_session _)
                ∙ ap (λ v. status_eq v recording) (sym e);
            fits =
                subst (λ v. Fits p v c.current_order) (sym e)
                  (error-Fits p c.current_order c.machine.phase (sym i.session ∙ present) i.fits);
          })

  pub said-IsSound :
      (p : Position Settings) (out : List Output) (c : Controller api G)
      → IsSound p c
      → IsSound p (say api G out c)
  unfolding say
  said-IsSound p out c i =
      same_parts p c (say api G out c)
        (record { starting = refl; accepting = refl; phase = refl; active = refl; order = refl }) i

  pub notified-IsSound :
      (p : Position Settings) (s : Status) (c : Controller api G)
      → IsSound p c
      → IsSound p (notify_status api G s c)
  unfolding notify_status
  notified-IsSound p s c i =
      same_parts p c (notify_status api G s c)
        (record { starting = refl; accepting = refl; phase = refl; active = refl; order = refl }) i
