-- ===== src/Runtime/Lifecycle.antt =====
-- SessionLifecycleManager (src/daemon/runtime/session_lifecycle_manager.h and .cpp). A
-- `shared_ptr` to a session is an `Option ℕ`, with `none` for null. The two mutexes make each
-- critical section one step; a method is the sequence of its sections. `log` records, oldest first,
-- what the manager does to the outside: sessions that it cancels, calls of the wake callback, and
-- references that it drops when it clears the deferred sessions. Error pointers are taken as given:
-- every caller passes one.
pub mod Results
pub mod Ownership
pub mod Tests
use fcitx5_vinput.Base.{
  ℕ, String, Bool, true, false, not, ◌&&◌, ◌||◌, List, [], ◌∷◌, ◌++◌, map, Option, none, some,
  if◌then◌else◌, length, str_empty, ◌==◌,
}
use fcitx5_vinput.Asr.Contract.{
  RecognitionEventKind, partial_text, final_text, error, completed, RecognitionEvent,
  RecognitionRunResult, new_result, Outcome, SessionApi,
}

pub data Action : Type 0 where
  cancelled : ℕ → Action
  woken : Action
  dropped : ℕ → Action

pub record SessionPollResult : Type 0 where
  pub session : Option ℕ
  pub events : List RecognitionEvent
  pub failure : Option String
  pub session_active : Bool

pub record SessionLifecycleManager (World : Type 0) : Type 0 where
  pub wake_callback : Bool
  pub active_session : Option ℕ
  pub deferred_cancelled_sessions : List ℕ
  pub world : World
  pub log : List Action

abbrev pub session_not_initialized : String
session_not_initialized = "Recognition session is not initialized."

abbrev pub failed_to_push_audio : String
failed_to_push_audio = "Failed to push audio chunk."

abbrev pub failed_to_finish_session : String
failed_to_finish_session = "Failed to finish recognition session."

abbrev is_error : RecognitionEventKind → Bool
is_error error = true
is_error _ = false

-- The loop that looks for the first Error event.
unfoldable pub first_error : List RecognitionEvent → Option String
first_error [] = none
first_error (e ∷ es) =
    if is_error e.kind
    then some (if str_empty e.error then "ASR provider failed." else e.error)
    else first_error es

-- `std::erase_if(events, kind == Error)`
unfoldable pub erase_errors : List RecognitionEvent → List RecognitionEvent
erase_errors [] = []
erase_errors (e ∷ es) = if is_error e.kind then erase_errors es else e ∷ erase_errors es

-- The body of the loop over the final events.
unfoldable pub apply_event :
    RecognitionEventKind → RecognitionEvent → RecognitionRunResult → RecognitionRunResult
apply_event partial_text e r = r
apply_event final_text e r = record r { text = e.text }
apply_event error e r = record r {
  ok = false;
  error = if str_empty e.error then r.error else e.error;
}
apply_event completed e r = r

unfoldable pub collect : List RecognitionEvent → RecognitionRunResult → RecognitionRunResult
unfolding apply_event
collect [] r = r
collect (e ∷ es) r = collect es (apply_event e.kind e r)

-- The result after Finish, before its events are read.
unfoldable pub finished : Outcome → RecognitionRunResult
finished o = record new_result {
  available = true;
  ok = o.ok;
  error = if o.ok then "" else (if str_empty o.error then failed_to_finish_session else o.error);
}

-- Equality of two `shared_ptr`s.
unfoldable pub same_session : Option ℕ → Option ℕ → Bool
same_session none none = true
same_session none (some t) = false
same_session (some s) none = false
same_session (some s) (some t) = s == t

module _ (api : SessionApi) where
  open api use {World, Chunk}

  abbrev pub Manager : Type 0
  Manager = SessionLifecycleManager World

  abbrev pub new_manager : World → Manager
  new_manager w = record {
    wake_callback = false;
    active_session = none;
    deferred_cancelled_sessions = [];
    world = w;
    log = [];
  }

  pub set_wake_callback : Bool → Manager → Manager
  set_wake_callback callback m = record m { wake_callback = callback }

  -- The second section of RetireSession: the callback is called without the lock.
  unfoldable pub wake : Manager → Manager
  wake m = if m.wake_callback then record m { log = m.log ++ woken ∷ [] } else m

  unfoldable pub retire_session : Option ℕ → Manager → Manager
  unfolding wake
  retire_session none m = m
  retire_session (some s) m =
      wake (record m { deferred_cancelled_sessions = m.deferred_cancelled_sessions ++ s ∷ [] })

  unfoldable pub cancel_session : ℕ → Manager → Manager
  cancel_session s m = record m { world = api.cancel m.world s; log = m.log ++ cancelled s ∷ [] }

  unfoldable pub cancel_and_retire_session : Option ℕ → Manager → Manager
  unfolding cancel_session retire_session
  cancel_and_retire_session none m = m
  cancel_and_retire_session (some s) m = retire_session (some s) (cancel_session s m)

  unfoldable pub install_active_session : Option ℕ → Manager → Manager
  unfolding cancel_and_retire_session
  install_active_session session m =
      cancel_and_retire_session m.active_session (record m { active_session = session })

  unfoldable pub has_active_session : Manager → Bool
  has_active_session m = elim m.active_session [ none ↦ false | some s ↦ true ]

  unfoldable pub is_active_session : Option ℕ → Manager → Bool
  unfolding same_session
  is_active_session none m = false
  is_active_session (some s) m = same_session m.active_session (some s)

  unfoldable pub detach_active : Manager → Manager × Option ℕ
  detach_active m = (record m { active_session = none }, m.active_session)

  -- Both overloads: PushAudioWithLock.
  unfoldable pub push_audio : Option ℕ → Chunk → String → Manager → Manager × Outcome
  push_audio none chunk err m = (m, record { ok = false; error = session_not_initialized })
  push_audio (some s) chunk err m =
      let (w, o) = api.push_audio m.world s chunk err in
      (
        record m { world = w },
        record o {
          error = if not o.ok && str_empty o.error then failed_to_push_audio else o.error;
        },
      )

  -- The part of PollSessionEvents behind the I/O lock.
  unfoldable pub poll_result :
      ℕ → List RecognitionEvent → Option String → Manager → SessionPollResult
  unfolding is_active_session first_error erase_errors
  poll_result s events async_failure m =
      let failure : Option String = elim async_failure [
        | some f ↦ some f
        | none ↦ first_error events
      ] in
      record {
        session = some s;
        events = elim failure [ some f ↦ erase_errors events | none ↦ events ];
        failure = failure;
        session_active = is_active_session (some s) m;
      }

  unfoldable pub poll_session_events : Option ℕ → Manager → Manager × SessionPollResult
  unfolding poll_result
  poll_session_events none m =
      (m, record { session = none; events = []; failure = none; session_active = false })
  poll_session_events (some s) m =
      let (w, events) = api.poll_events m.world s in
      (
        record m { world = w },
        poll_result s events (api.failure_error w s) (record m { world = w }),
      )

  pub poll_active_events : Manager → Manager × SessionPollResult
  unfolding poll_session_events
  poll_active_events m = poll_session_events m.active_session m

  unfoldable pub finish_session_and_collect_result :
      Option ℕ → Manager → Manager × RecognitionRunResult
  unfolding finished collect
  finish_session_and_collect_result none m =
      (m, record new_result { ok = false; error = session_not_initialized })
  finish_session_and_collect_result (some s) m =
      let (w, o) = api.finish m.world s "" in
      let (w', events) = api.poll_events w s in
      (record m { world = w' }, collect events (finished o))

  unfoldable pub cancel_and_retire_active : Manager → Manager
  unfolding cancel_and_retire_session
  cancel_and_retire_active m =
      cancel_and_retire_session m.active_session (record m { active_session = none })

  unfoldable pub cancel_and_retire_active_if_matches : Option ℕ → Manager → Manager × Bool
  unfolding cancel_and_retire_session same_session
  cancel_and_retire_active_if_matches none m = (m, false)
  cancel_and_retire_active_if_matches (some s) m =
      if same_session m.active_session (some s)
      then (cancel_and_retire_session m.active_session (record m { active_session = none }), true)
      else (m, false)

  unfoldable pub flush_reaped_sessions : Manager → Manager × ℕ
  flush_reaped_sessions m = (
    record m {
      deferred_cancelled_sessions = [];
      log = m.log ++ map dropped m.deferred_cancelled_sessions;
    },
    length m.deferred_cancelled_sessions,
  )

  unfoldable pub deferred_session_count : Manager → ℕ
  deferred_session_count m = length m.deferred_cancelled_sessions

  unfoldable pub cancel_optional : Option ℕ → Manager → Manager
  unfolding cancel_session
  cancel_optional none m = m
  cancel_optional (some s) m =
      let c = cancel_session s m in record c { log = c.log ++ dropped s ∷ [] }

  unfoldable pub clear : Manager → Manager
  unfolding cancel_optional
  clear m =
      let taken =
        cancel_optional m.active_session
          (record m { active_session = none; deferred_cancelled_sessions = [] }) in
      record taken { log = taken.log ++ map dropped m.deferred_cancelled_sessions }
