-- ===== src/Runtime/Controller/Progress.antt =====
-- DaemonRuntimeController and its thread: the sections that the worker has still to run.
use Prim.Native.Nat.{ℕ, ◌≤◌, ◌<◌, ◌+◌}
use fcitx5_vinput.Base.{
  String, ◌≡◌, refl, ap, ◌∙◌, Bool, true, false, Option, none, some, arith, if◌then◌else◌, if_both,
  ◌⊎◌, inl, inr,
}
use fcitx5_vinput.Runtime.Machine
use fcitx5_vinput.Runtime.Machine.{status_eq, idle, recording, on_cancel, abort_recording_to_idle}
use fcitx5_vinput.Runtime.Controller.{
  DaemonRuntimeController, RecognitionOrder, Controller, Answers,
}
use fcitx5_vinput.Runtime.Controller.Recording.{arm_start}
use fcitx5_vinput.Runtime.Controller.Steps.{
  Outside, Position, resting, ending, serving, processing, Settings, System, flush, begin_start,
  start_recording, take_order, recognized_order, work, Step, start, stop, cancel, flush_actions,
  reload, inject, worker_step, operate, step,
}
use fcitx5_vinput.Runtime.Pipeline.{PostprocessRequest}
use fcitx5_vinput.Runtime.Controller.Worker.{recognize}
use fcitx5_vinput.Runtime.Machine.{on_reset_to_idle, clear}
use fcitx5_vinput.Runtime.Controller.Invariant.{Fits, IsSound, is_working, is_present}
use fcitx5_vinput.Runtime.Controller.Phases.{
  flush_phase, stop_phase, cancel_phase, reload_phase, inject_phase, arm_phase, reset_idle,
}

listens_not :
    {Settings World Float : Type 0} (p : Position Settings)
    (c : DaemonRuntimeController World Float)
    → IsSound p c
    → is_working c.machine.phase ≡ true
    → c.accepting_chunks ≡ false
listens_not p c i w = ground (arith, i.listening, w)

-- The sections that the worker has still to run.
abbrev pub sections_left : {Settings : Type 0} → Position Settings → ℕ
sections_left resting = 4
sections_left (serving order settings) = 3
sections_left (processing order request settings) = 2
sections_left ending = 1

pub sections_left_bound :
    {Settings : Type 0} (p : Position Settings) → (1 ≤ sections_left p) × (sections_left p ≤ 4)
sections_left_bound resting = omega arith
sections_left_bound (serving order settings) = omega arith
sections_left_bound (processing order request settings) = omega arith
sections_left_bound ending = omega arith

taken_order :
    (Settings : Type 0) (phase : Machine.Status) (order : Option RecognitionOrder)
    → Fits {Settings = Settings} resting phase order
    → is_working phase ≡ true
    → is_present order ≡ true
unfolding Fits
taken_order Settings phase order f w = ground (arith, f.0, f.1, w)

pub Fits-working :
    {Settings : Type 0} (p : Position Settings) (phase : Machine.Status)
    (order : Option RecognitionOrder)
    → sections_left p < 4
    → Fits p phase order
    → is_working phase ≡ true
unfolding Fits
Fits-working resting phase order l f = ground (arith, l)
Fits-working (serving o s) phase order l f = ap is_working f
Fits-working (processing o q s) phase order l f = f
Fits-working ending phase order l f = f

module _ (O : Outside) where
  open O use {platform, api, gains}

  flushed_phase :
      (a : Answers platform) (c : Controller api gains)
      → c.accepting_chunks ≡ false
      → is_working c.machine.phase ≡ true
      → (flush O a c).machine.phase ≡ c.machine.phase
  unfolding flush
  flushed_phase a c l w =
      flush_phase api gains O.to_chunk a.queued a.is_recording a.reuses_streams a.synchronize_error
        c l w

  begin_start_phase :
      (is_command : Bool) (text device : String) (a : Answers platform) (ime : Bool)
      (c : Controller api gains)
      → is_working c.machine.phase ≡ true
      → (begin_start O is_command text device a (arm_start api gains ime c)).0.machine.phase
        ≡ c.machine.phase
  unfolding begin_start
  begin_start_phase is_command text device a ime c w =
      ap (λ r. (begin_start O is_command text device a r).0.machine.phase)
        (arm_phase api gains ime c w)

  start_phase :
      (ime is_command : Bool) (text device : String) (a : Answers platform)
      (c : Controller api gains)
      → c.accepting_chunks ≡ false
      → is_working c.machine.phase ≡ true
      → (start_recording O ime is_command text device a c).0.machine.phase ≡ c.machine.phase
  unfolding start_recording
  start_phase ime is_command text device a c l w =
      let d = if c.pending_capture_stop then flush O a c else c in
      let e =
        if_both (λ (x : Controller api gains). x.machine.phase ≡ c.machine.phase)
          c.pending_capture_stop (flush O a c) c (λ h. flushed_phase a c l w) (λ h. refl) in
      begin_start_phase is_command text device a ime d (ap is_working e ∙ w) ∙ e

  operate_phase :
      (p : Position (Settings O)) (x : Step O) (c : Controller api gains)
      → IsSound p c
      → is_working c.machine.phase ≡ true
      → (operate O x c).0.machine.phase ≡ c.machine.phase
  unfolding operate
  operate_phase p (start ime is_command text device a) c i w =
      start_phase ime is_command text device a c (listens_not p c i w) w
  operate_phase p (stop ime scene_id a) c i w =
      stop_phase api gains ime scene_id a.captured a.synchronize_error c w
  operate_phase p (cancel ime commit a) c i w =
      cancel_phase api gains ime commit a.synchronize_error c i.whole w
  operate_phase p (flush_actions a) c i w = flushed_phase a c (listens_not p c i w) w
  operate_phase p (reload a) c i w = reload_phase api gains a.synchronize_error c
  operate_phase p (inject ime stage text scene_id) c i w =
      inject_phase api gains ime stage text scene_id c
  operate_phase p (worker_step a) c i w = refl

  take_order_left :
      (a : Answers platform) (o : Option RecognitionOrder) (s : System O)
      → is_present o ≡ true
      → sections_left (take_order O a o s).position < 4
  unfolding take_order
  take_order_left a none s h = ground (arith, h)
  take_order_left a (some order) s h = omega arith

  pub recognized_left :
      (order : RecognitionOrder) (settings : Settings O)
      (r : Controller api gains × Option PostprocessRequest)
      → sections_left (recognized_order O order settings r).position < 3
  unfolding recognized_order
  recognized_left order settings (c, none) = omega arith
  recognized_left order settings (c, some request) = omega arith

  work_left :
      (p : Position (Settings O)) (a : Answers platform) (c : Controller api gains)
      → IsSound p c
      → is_working c.machine.phase ≡ true
      → 1 < sections_left p
      → sections_left (work O p a (record { controller = c; position = p })).position
        < sections_left p
  unfolding work
  work_left resting a c i w l =
      take_order_left a c.current_order (record { controller = c; position = resting })
        (taken_order (Settings O) c.machine.phase c.current_order i.fits w)
  work_left (serving order settings) a c i w l =
      recognized_left order settings
        (recognize api gains O.to_chunk O.normalized settings.asr.normalize_audio order c)
  work_left (processing order request settings) a c i w l = omega arith
  work_left ending a c i w l = omega (arith, l)

  abbrev pub is_worker : Step O → ℕ
  is_worker (worker_step a) = 1
  is_worker _ = 0

  -- Back at the wait, idle, with no order.
  pub record IsAtRest (s : System O) : Type 0 where
    pub position : s.position ≡ resting
    pub phase : s.controller.machine.phase ≡ idle
    pub order : s.controller.current_order ≡ none

  -- At work still, and not further from the end.
  pub record IsCloser (x : Step O) (s t : System O) : Type 0 where
    pub working : is_working t.controller.machine.phase ≡ true
    pub left : is_worker x + sections_left t.position ≤ sections_left s.position

  worked :
      (p : Position (Settings O)) (a : Answers platform) (c : Controller api gains)
      → IsSound p c
      → is_working c.machine.phase ≡ true
      → IsSound
          (work O p a (record { controller = c; position = p })).position
          (work O p a (record { controller = c; position = p })).controller
      → 1 < sections_left p
      → IsCloser
          (worker_step a)
          (record { controller = c; position = p })
          (work O p a (record { controller = c; position = p }))
  worked p a c i w j l =
      let t = work O p a (record { controller = c; position = p }) in
      let less = work_left p a c i w l in
      record {
        working =
            Fits-working t.position t.controller.machine.phase t.controller.current_order
              (omega (arith, less, (sections_left_bound p).1)) j.fits;
        left = omega (arith, less);
      }

  work-IsCloser :
      (p : Position (Settings O)) (a : Answers platform) (c : Controller api gains)
      → IsSound p c
      → is_working c.machine.phase ≡ true
      → IsSound
          (work O p a (record { controller = c; position = p })).position
          (work O p a (record { controller = c; position = p })).controller
      → IsAtRest (work O p a (record { controller = c; position = p }))
        ⊎ IsCloser
            (worker_step a)
            (record { controller = c; position = p })
            (work O p a (record { controller = c; position = p }))
  unfolding work
  work-IsCloser resting a c i w j = inr (worked resting a c i w j (omega arith))
  work-IsCloser (serving order settings) a c i w j =
      inr (worked (serving order settings) a c i w j (omega arith))
  work-IsCloser (processing order request settings) a c i w j =
      inr (worked (processing order request settings) a c i w j (omega arith))
  work-IsCloser ending a c i w j =
      let r = reset_idle api gains a.synchronize_error c in
      inl (record { position = refl; phase = r.0; order = r.1 })

  operate-IsCloser :
      (x : Step O) (s : System O)
      → is_worker x ≡ 0
      → IsSound s.position s.controller
      → is_working s.controller.machine.phase ≡ true
      → IsCloser x s (record s { controller = (operate O x s.controller).0 })
  operate-IsCloser x s n i w = record {
    working = ap is_working (operate_phase s.position x s.controller i w) ∙ w;
    left = omega (arith, n);
  }

  pub step-IsCloser :
      (x : Step O) (s : System O)
      → IsSound s.position s.controller
      → is_working s.controller.machine.phase ≡ true
      → IsSound (step O x s).position (step O x s).controller
      → IsAtRest (step O x s) ⊎ IsCloser x s (step O x s)
  unfolding step
  step-IsCloser (worker_step a) s i w j = work-IsCloser s.position a s.controller i w j
  step-IsCloser (start ime is_command text device a) s i w j =
      inr (operate-IsCloser (start ime is_command text device a) s refl i w)
  step-IsCloser (stop ime scene_id a) s i w j =
      inr (operate-IsCloser (stop ime scene_id a) s refl i w)
  step-IsCloser (cancel ime commit a) s i w j =
      inr (operate-IsCloser (cancel ime commit a) s refl i w)
  step-IsCloser (flush_actions a) s i w j = inr (operate-IsCloser (flush_actions a) s refl i w)
  step-IsCloser (reload a) s i w j = inr (operate-IsCloser (reload a) s refl i w)
  step-IsCloser (inject ime stage text scene_id) s i w j =
      inr (operate-IsCloser (inject ime stage text scene_id) s refl i w)
