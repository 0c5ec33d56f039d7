-- ===== src/Runtime/Controller/Moves.antt =====
-- DaemonRuntimeController and its thread: the table of the phase changes of each operation.
use fcitx5_vinput.Base.{
  String, ◌≡◌, refl, subst, Bool, true, false, List, Option, none, some, arith, if◌then◌else◌,
  if_both, str_empty, ◌⊎◌, inl, inr,
}
use fcitx5_vinput.Config.Normalize.{normalize_core_config}
use fcitx5_vinput.Runtime.Machine
use fcitx5_vinput.Runtime.Machine.{
  Status, idle, recording, inferring, postprocessing, status_eq, take_postprocessing_state,
}
use fcitx5_vinput.Runtime.Controller.{RecognitionOrder, Controller, Answers}
use fcitx5_vinput.Runtime.Controller.Recording.{arm_start}
use fcitx5_vinput.Runtime.Controller.Worker.{deliver, recognize}
use fcitx5_vinput.Runtime.Controller.Steps.{
  Outside, Position, resting, ending, serving, processing, Settings, System, flush, begin_start,
  start_recording, take_order, work, Step, start, stop, cancel, flush_actions, reload, inject,
  worker_step, is_ordinary, operate, step, are_ordinary, run, new_system,
}
use fcitx5_vinput.Runtime.Controller.Invariant.{Fits, IsSound, is_working}
use fcitx5_vinput.Runtime.Controller.Phases.{reload_phase, inject_phase, reset_idle}
use fcitx5_vinput.Runtime.Controller.Progress.{recognized_left, Fits-working}
use fcitx5_vinput.Runtime.Controller.Protocol.{
  flush_moves, stop_moves, cancel_moves, begin_moves, begin_capture_moves, begin_phase,
  stop_recording_moves, cancel_operation_moves, flush_deferred_actions_moves,
}
use fcitx5_vinput.Runtime.Controller.Schedules.{step-IsSound, run-new_system-IsSound}

-- A start, with the flush before it.
abbrev pub start_moves : Status → Status → Bool
start_moves idle recording = true
start_moves recording idle = true
start_moves recording Machine.error = true
start_moves Machine.error idle = true
start_moves Machine.error recording = true
start_moves a b = status_eq a b

abbrev pub worker_moves : Status → Status → Bool
worker_moves inferring postprocessing = true
worker_moves inferring idle = true
worker_moves postprocessing idle = true
worker_moves a b = status_eq a b

flush-begin :
    (a b d : Status)
    → (flush_moves a b ≡ true) ⊎ (b ≡ a)
    → begin_moves b d ≡ true
    → start_moves a d ≡ true
flush-begin a b d h k = ground (arith, h, k)

still : (s : Status) → (status_eq s s ≡ true) × (begin_moves s s ≡ true) × (worker_moves s s ≡ true)
still s = (ground arith, ground arith, ground arith)

stays : (a b : Status) → b ≡ a → status_eq a b ≡ true
stays a b e = ground (arith, e)

goes_on : (a b : Status) → a ≡ inferring → is_working b ≡ true → worker_moves a b ≡ true
goes_on a b e w = ground (arith, e, w)

ends_idle : (a b : Status) → is_working a ≡ true → b ≡ idle → worker_moves a b ≡ true
ends_idle a b w e = ground (arith, e, w)

module _ (O : Outside) where
  open O use {platform, api, gains}

  -- Whether an operation may take the phase from the one to the other.
  abbrev pub may_move : Step O → Status → Status → Bool
  may_move (start ime is_command text device a) = start_moves
  may_move (stop ime scene_id a) = stop_moves
  may_move (cancel ime commit a) = cancel_moves
  may_move (flush_actions a) = flush_moves
  may_move (reload a) = status_eq
  may_move (inject ime stage text scene_id) = status_eq
  may_move (worker_step a) = worker_moves

  begun_moves :
      (is_command : Bool) (text device : String) (a : Answers platform)
      (r : Controller api gains × Bool)
      → begin_moves r.0.machine.phase (begin_start O is_command text device a r).0.machine.phase
        ≡ true
  unfolding begin_start
  begun_moves is_command text device a (c, true) =
      let s = normalize_core_config O.prompts platform a.settings in
      begin_capture_moves api gains is_command text (O.to_float s.asr.input_gain)
        s.global.duck_output_while_recording
        (if str_empty device then s.global.capture_device else device) a.begin_error a.created c
  begun_moves is_command text device a (c, false) = (still c.machine.phase).1

  flush_may :
      (a : Answers platform) (c : Controller api gains)
      → flush_moves c.machine.phase (flush O a c).machine.phase ≡ true
  unfolding flush
  flush_may a c =
      flush_deferred_actions_moves api gains O.to_chunk a.queued a.is_recording a.reuses_streams
        a.synchronize_error c

  start_may :
      (ime is_command : Bool) (text device : String) (a : Answers platform)
      (c : Controller api gains)
      → start_moves c.machine.phase
          (start_recording O ime is_command text device a c).0.machine.phase
        ≡ true
  unfolding start_recording
  start_may ime is_command text device a c =
      let d = if c.pending_capture_stop then flush O a c else c in
      let f =
        if_both
          (λ (x : Controller api gains).
            (flush_moves c.machine.phase x.machine.phase ≡ true)
            ⊎ (x.machine.phase ≡ c.machine.phase))
          c.pending_capture_stop (flush O a c) c (λ h. inl (flush_may a c)) (λ h. inr refl) in
      flush-begin c.machine.phase d.machine.phase
        (start_recording O ime is_command text device a c).0.machine.phase f
        (subst
          (λ s.
            begin_moves s (start_recording O ime is_command text device a c).0.machine.phase ≡ true)
          (begin_phase api gains d ime)
          (begun_moves is_command text device a (arm_start api gains ime d)))

  taken_moves :
      (a : Answers platform) (o : Option RecognitionOrder) (s : System O)
      → worker_moves s.controller.machine.phase (take_order O a o s).controller.machine.phase ≡ true
  unfolding take_order
  taken_moves a none s = (still s.controller.machine.phase).2
  taken_moves a (some order) s = (still s.controller.machine.phase).2

  work_may :
      (p : Position (Settings O)) (a : Answers platform) (c : Controller api gains)
      → IsSound p c
      → IsSound
          (work O p a (record { controller = c; position = p })).position
          (work O p a (record { controller = c; position = p })).controller
      → worker_moves c.machine.phase
          (work O p a (record { controller = c; position = p })).controller.machine.phase
        ≡ true
  unfolding work Fits deliver take_postprocessing_state
  work_may resting a c i j =
      taken_moves a c.current_order (record { controller = c; position = resting })
  work_may (serving order settings) a c i j =
      let t =
        work O (serving order settings) a
          (record { controller = c; position = serving order settings }) in
      let less =
        recognized_left O order settings
          (recognize api gains O.to_chunk O.normalized settings.asr.normalize_audio order c) in
      goes_on c.machine.phase t.controller.machine.phase i.fits (
        Fits-working t.position t.controller.machine.phase t.controller.current_order
          (omega (arith, less)) j.fits)
  work_may (processing order request settings) a c i j = (still c.machine.phase).2
  work_may ending a c i j =
      ends_idle c.machine.phase _ i.fits (reset_idle api gains a.synchronize_error c).0

  step-may_move :
      (x : Step O) (s : System O)
      → is_ordinary O x ≡ true
      → IsSound s.position s.controller
      → may_move x s.controller.machine.phase (step O x s).controller.machine.phase ≡ true
  unfolding step operate
  step-may_move (start ime is_command text device a) s o i =
      start_may ime is_command text device a s.controller
  step-may_move (stop ime scene_id a) s o i =
      stop_recording_moves api gains ime scene_id a.captured a.synchronize_error s.controller
  step-may_move (cancel ime commit a) s o i =
      cancel_operation_moves api gains ime commit a.synchronize_error s.controller
  step-may_move (flush_actions a) s o i = flush_may a s.controller
  step-may_move (reload a) s o i =
      stays s.controller.machine.phase _ (reload_phase api gains a.synchronize_error s.controller)
  step-may_move (inject ime stage text scene_id) s o i =
      stays s.controller.machine.phase _
        (inject_phase api gains ime stage text scene_id s.controller)
  step-may_move (worker_step a) s o i =
      work_may s.position a s.controller i (step-IsSound O (worker_step a) s o i)

  -- From the initial state, after every schedule without injections into scenes, a further such step
  -- changes the phase only as the table of its operation says: inferring and postprocessing are left by
  -- the worker alone, for postprocessing or idle; recording begins with a start, from idle or, behind its
  -- flush, from recording or error; recording is left by a stop for idle or inferring, by a cancellation
  -- for idle, by a flush or a start for idle or error; error is left by a flush or a start.
  pub run-may_move :
      (w : api.World) (xs : List (Step O)) (x : Step O)
      → are_ordinary O xs ≡ true
      → is_ordinary O x ≡ true
      → let s = run O (new_system O w) xs in
        may_move x s.controller.machine.phase (step O x s).controller.machine.phase ≡ true
  run-may_move w xs x o q =
      step-may_move x (run O (new_system O w) xs) q (run-new_system-IsSound O w xs o)
