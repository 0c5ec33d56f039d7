-- ===== src/Asr/AsyncSession.antt =====
-- AsyncRecognitionSession (src/daemon/asr/runtime/async_recognition_session.h and .cpp). The wrapped
-- backend is a parameter: the type of its states, and what its calls return. The worker thread is
-- the program counter `worker`; one step of it is one critical section of Run, together with the
-- calls of the backend before it, which only the worker makes. Interrupt is the exception: Cancel
-- calls it from its own thread. `accepted` and `delivered` are history: the chunks that PushAudio
-- queued and the chunks handed to the backend, oldest first.
pub mod Invariant
pub mod Progress
pub mod Delivery
pub mod Termination
pub mod Tests
use Prim.Native.Nat.{suc, ◌-◌}
use fcitx5_vinput.Base.{
  ℕ, ◌+◌, String, Bool, true, false, not, ◌&&◌, ◌||◌, List, [], ◌∷◌, ◌++◌, Option, none, some,
  if◌then◌else◌, length, is_empty, str_empty, ltb, leb, ℤ,
}
use fcitx5_vinput.Asr.Contract.{RecognitionEvent, Outcome}

abbrev pub Chunk : Type 0
Chunk = List ℤ

pub record Backend : Type 1 where
  pub World : Type 0
  pub push_audio : World → Chunk → World × Outcome
  pub finish : World → World × Outcome
  pub cancel : World → World
  pub interrupt : World → World
  pub poll_events : World → World × List RecognitionEvent

-- Where Run stands.
pub data Worker : Type 0 where
  waiting finishing cancelling reading stopped : Worker
  pushing : Chunk → Worker
  appending publishing : List RecognitionEvent → Worker
  rejected : String → List RecognitionEvent → Worker
  completing : Bool → String → Worker

pub record AsyncSession (World : Type 0) : Type 0 where
  pub world : World
  pub max_queued_samples : ℕ
  pub queue : List Chunk
  pub events : List RecognitionEvent
  pub queued_samples : ℕ
  pub dropped_chunks : ℕ
  pub dropped_samples : ℕ
  pub finish_requested : Bool
  pub cancel_requested : Bool
  pub complete : Bool
  pub success : Bool
  pub backend_failed : Bool
  pub error_text : String
  pub wake_callback : Bool
  pub wakes : ℕ
  pub worker : Worker
  pub accepted : List Chunk
  pub delivered : List Chunk

-- `std::numeric_limits<std::size_t>::max()`, which is 2 ^ 64 - 1
abbrev max_size : ℕ
max_size = 18446744073709551615

-- The two counters stop at the largest number.
unfoldable pub count_dropped : ℕ → ℕ
count_dropped n = if ltb n max_size then suc n else n

unfoldable pub add_dropped : ℕ → ℕ → ℕ
add_dropped n samples = if ltb (max_size - n) samples then max_size else n + samples

abbrev or_default : String → String → String
or_default e text = if str_empty e then text else e

module _ (B : Backend) where
  open B use {World}

  abbrev pub Session : Type 0
  Session = AsyncSession World

  -- The constructor.
  abbrev pub new_session : World → ℕ → Session
  new_session w limit = record {
    world = w;
    max_queued_samples = limit;
    queue = [];
    events = [];
    queued_samples = 0;
    dropped_chunks = 0;
    dropped_samples = 0;
    finish_requested = false;
    cancel_requested = false;
    complete = false;
    success = false;
    backend_failed = false;
    error_text = "";
    wake_callback = false;
    wakes = 0;
    worker = waiting;
    accepted = [];
    delivered = [];
  }

  unfoldable pub overflow : Chunk → Session → Session
  overflow pcm s = record s {
    dropped_chunks = count_dropped s.dropped_chunks;
    dropped_samples = add_dropped s.dropped_samples (length pcm);
    error_text = "Streaming recognition queue overflowed; audio chunk was dropped.";
    cancel_requested = true;
    queue = [];
    queued_samples = 0;
  }

  unfoldable pub enqueue : Chunk → Session → Session
  enqueue pcm s = record s {
    queue = s.queue ++ pcm ∷ [];
    queued_samples = s.queued_samples + length pcm;
    accepted = s.accepted ++ pcm ∷ [];
  }

  -- PushAudio: the state after it, whether it accepted the chunk, and the error text.
  unfoldable pub push_audio : Chunk → Session → Session × Outcome
  push_audio pcm s =
      if s.cancel_requested || s.finish_requested || s.complete
      then (
        s,
        record {
          ok = false;
          error = or_default s.error_text "Streaming session is no longer recording.";
        },
      )
      else if not (is_empty pcm)
          && (leb s.max_queued_samples s.queued_samples
              || ltb (s.max_queued_samples - s.queued_samples) (length pcm))
      then (overflow pcm s, record { ok = false; error = (overflow pcm s).error_text })
      else if is_empty pcm
      then (s, record { ok = true; error = "" })
      else (enqueue pcm s, record { ok = true; error = "" })

  -- Finish up to its wait for `complete_`.
  unfoldable pub request_finish : Session → Session
  request_finish s =
      if not s.complete && not s.cancel_requested then record s { finish_requested = true } else s

  -- What Finish returns when its wait ends; `none` while it waits.
  unfoldable pub finish_answer : Session → Option Outcome
  finish_answer s =
      if s.complete then some (record { ok = s.success; error = s.error_text }) else none

  unfoldable pub cancel : Session → Session
  cancel s = if s.complete || s.cancel_requested then s else record s {
    cancel_requested = true;
    queue = [];
    queued_samples = 0;
    world = B.interrupt s.world;
  }

  unfoldable pub interrupt : Session → Session
  interrupt s = record s { world = B.interrupt s.world }

  unfoldable pub poll_events : Session → Session × List RecognitionEvent
  poll_events s = (record s { events = [] }, s.events)

  unfoldable pub set_wake_callback : Bool → Session → Session
  set_wake_callback callback s = record s { wake_callback = callback }

  pub failure_error : Session → Option String
  failure_error s = if s.backend_failed then some s.error_text else none

  unfoldable pub invoke_wake_callback : Session → Session
  invoke_wake_callback s = if s.wake_callback then record s { wakes = suc s.wakes } else s

  unfoldable pub append_events : List RecognitionEvent → Session → Session
  append_events es s =
      if is_empty es then s else invoke_wake_callback (record s { events = s.events ++ es })

  -- The first section of the loop: without work the worker waits on.
  unfoldable pub take_work : List Chunk → Session → Session
  take_work [] s =
      if s.cancel_requested
      then record s { worker = cancelling }
      else if s.finish_requested
      then record s { worker = finishing }
      else s
  take_work (chunk ∷ rest) s =
      if s.cancel_requested then record s { worker = cancelling } else record s {
        queue = rest;
        queued_samples = s.queued_samples - length chunk;
        worker = pushing chunk;
      }

  unfoldable pub hand_over : Chunk → Session → Session
  hand_over chunk s =
      let (w, o) = B.push_audio s.world chunk in
      let (w', es) = B.poll_events w in
      record s {
        world = w';
        delivered = s.delivered ++ chunk ∷ [];
        worker = if o.ok then appending es else rejected o.error es;
      }

  unfoldable pub fail_backend : String → List RecognitionEvent → Session → Session
  fail_backend e es s = record s {
    error_text = or_default e "Streaming backend rejected audio.";
    backend_failed = true;
    cancel_requested = true;
    queue = [];
    queued_samples = 0;
    worker = publishing es;
  }

  unfoldable pub finish_backend : Session → Session
  finish_backend s =
      let (w, o) = B.finish s.world in
      let (w', es) = B.poll_events w in
      record (append_events es (record s { world = w' })) { worker = completing o.ok o.error }

  unfoldable pub cancel_backend : Session → Session
  cancel_backend s =
      let (w, es) = B.poll_events (B.cancel s.world) in
      record (append_events es (record s { world = w })) { worker = reading }

  unfoldable pub complete_session : Bool → String → Session → Session
  complete_session ok e s = record s {
    complete = true;
    success = ok;
    error_text = e;
    worker = stopped;
  }

  unfoldable pub work : Worker → Session → Session
  work waiting s = take_work s.queue s
  work (pushing chunk) s = hand_over chunk s
  work (appending es) s = record (append_events es s) { worker = waiting }
  work (rejected e es) s = fail_backend e es s
  work (publishing es) s = record (invoke_wake_callback (append_events es s)) {
    worker = cancelling;
  }
  work finishing s = finish_backend s
  work cancelling s = cancel_backend s
  work reading s = record s { worker = completing false s.error_text }
  work (completing ok e) s = complete_session ok e s
  work stopped s = s

  unfoldable pub run_worker : Session → Session
  run_worker s = work s.worker s

-- What one thread does in one step.
pub data Step : Type 0 where
  push : Chunk → Step
  ask_finish ask_cancel ask_interrupt poll worker_step : Step
  set_callback : Bool → Step

module _ (B : Backend) where
  unfoldable pub step : Step → Session B → Session B
  step (push pcm) s = (push_audio B pcm s).0
  step ask_finish s = request_finish B s
  step ask_cancel s = cancel B s
  step ask_interrupt s = interrupt B s
  step poll s = (poll_events B s).0
  step worker_step s = run_worker B s
  step (set_callback callback) s = set_wake_callback B callback s

  unfoldable pub run : Session B → List Step → Session B
  run s [] = s
  run s (x ∷ xs) = run (step x s) xs
