-- ===== src/Asr/AsyncSession/Tests.antt =====
-- AsyncRecognitionSession over a backend that counts samples and refuses more than ten.
use Prim.Native.Nat.{ℕ, ◌+◌}
use fcitx5_vinput.Base.{◌≡◌, refl, true, List, [], ◌∷◌, length, leb, pos}
use fcitx5_vinput.Asr.Contract.{RecognitionEvent, partial_text}
use fcitx5_vinput.Asr.AsyncSession.{
  Chunk, Backend, new_session, add_dropped, overflow, enqueue, push_audio, request_finish,
  finish_answer, invoke_wake_callback, append_events, take_work, hand_over, finish_backend,
  complete_session, work, run_worker, Step, push, ask_finish, ask_cancel, worker_step, step, run,
}
use fcitx5_vinput.Asr.AsyncSession.Invariant.{IsSound}
use fcitx5_vinput.Asr.AsyncSession.Progress.{run_new-IsSound}
use fcitx5_vinput.Asr.AsyncSession.Delivery.{finish_answer-delivered}
use fcitx5_vinput.Asr.AsyncSession.Termination.{worker_steps, reached, run-complete}

abbrev heard : RecognitionEvent
heard = record { kind = partial_text; text = "hi"; error = "" }

abbrev counting : Backend
counting = record {
  World = ℕ;
  push_audio = λ w c. (w + length c, record { ok = leb (w + length c) 10; error = "full" });
  finish = λ w. (w, record { ok = true; error = "" });
  cancel = λ w. w;
  interrupt = λ w. w;
  poll_events = λ w. (w, heard ∷ []);
}

abbrev chunk : Chunk
chunk = pos 1 ∷ pos 2 ∷ pos 3 ∷ []

abbrev dictated : List Step
dictated =
    push chunk
    ∷ worker_step
    ∷ push chunk
    ∷ worker_step
    ∷ ask_finish
    ∷ worker_step
    ∷ push chunk
    ∷ worker_step
    ∷ worker_step
    ∷ worker_step
    ∷ worker_step
    ∷ worker_step
    ∷ worker_step
    ∷ []

abbrev crowded : List Step
crowded = push chunk ∷ push chunk ∷ push chunk ∷ worker_step ∷ []

abbrev rest : List Step
rest =
    worker_step ∷ worker_step ∷ worker_step ∷ ask_cancel ∷ worker_step ∷ worker_step ∷ worker_step
    ∷ []

overflowed : (run counting (new_session counting 0 7) crowded).dropped_samples ≡ 3
unfolding run step push_audio overflow enqueue add_dropped run_worker work take_work
overflowed = refl

run_new-IsSound_example : IsSound (run counting (new_session counting 0 7) crowded)
run_new-IsSound_example = run_new-IsSound counting 0 7 crowded

finish_answer-delivered_example :
    ((run counting (new_session counting 0 7) dictated).delivered
      ≡ (run counting (new_session counting 0 7) dictated).accepted)
    × ((run counting (new_session counting 0 7) dictated).dropped_chunks ≡ 0)
unfolding run step push_audio overflow enqueue run_worker work take_work hand_over append_events
    finish_backend complete_session request_finish finish_answer invoke_wake_callback
finish_answer-delivered_example = finish_answer-delivered counting 0 7 dictated "" refl

run-complete_example : (run counting (reached counting 0 7 crowded) rest).complete ≡ true
unfolding run step push_audio overflow enqueue run_worker work take_work worker_steps
run-complete_example = run-complete counting 0 7 crowded rest refl refl
