-- ===== src/Runtime/Lifecycle/Tests.antt =====
-- SessionLifecycleManager over sessions whose events are given in advance.
use fcitx5_vinput.Base.{ℕ, ◌+◌, ◌≡◌, true, ◌&&◌, List, [], ◌∷◌, none, some}
use fcitx5_vinput.Asr.Contract.{partial_text, final_text, error, RecognitionEvent, SessionApi}
use fcitx5_vinput.Runtime.Lifecycle.{
  Manager, new_manager, is_active_session, poll_session_events, finish_session_and_collect_result,
}
use fcitx5_vinput.Runtime.Lifecycle.Results.{
  IsFiltered, is_clean, last_final, last_error, poll_session_events-IsFiltered,
  finish_session_and_collect_result_lem,
}
use fcitx5_vinput.Runtime.Lifecycle.Ownership.{
  references, deferrals, drops, Call, install, cancel_if_matches, flush, detach, given_all,
  taken_all, perform_all, references_kept,
}

abbrev script : List RecognitionEvent
script =
    record { kind = partial_text; text = "he"; error = "" }
    ∷ record { kind = final_text; text = "hello"; error = "" }
    ∷ record { kind = error; text = ""; error = "late" }
    ∷ []

-- Every session has the same script; the world lists the sessions that were cancelled.
abbrev scripted : SessionApi
scripted = record {
  World = List ℕ;
  Chunk = List ℕ;
  push_audio = λ w s c e. (w, record { ok = true; error = "" });
  finish = λ w s e. (w, record { ok = true; error = "" });
  cancel = λ w s. s ∷ w;
  poll_events = λ w s. (w, script);
  failure_error = λ w s. none;
}

abbrev active_seven : Manager scripted
active_seven = record (new_manager scripted []) { active_session = some 7; wake_callback = true }

abbrev history : List Call
history = install (some 1) ∷ install (some 2) ∷ flush ∷ cancel_if_matches (some 2) ∷ detach ∷ []

poll_session_events-IsFiltered_example :
    let p = (poll_session_events scripted (some 7) active_seven).1 in
    IsFiltered script none p × (p.session_active ≡ is_active_session scripted (some 7) active_seven)
poll_session_events-IsFiltered_example = poll_session_events-IsFiltered scripted active_seven 7

finish_session_and_collect_result_lem_example :
    (finish_session_and_collect_result scripted (some 7) active_seven).1 ≡ record {
      available = true;
      ok = true && is_clean script;
      text = last_final script "";
      error = last_error script "";
    }
finish_session_and_collect_result_lem_example =
    finish_session_and_collect_result_lem scripted active_seven 7

references_kept_example :
    let m = perform_all scripted (new_manager scripted []) history in
    given_all 1 history
    ≡ references 1 m.active_session
      + deferrals 1 m.deferred_cancelled_sessions
      + drops 1 m.log
      + taken_all scripted 1 (new_manager scripted []) history
references_kept_example = references_kept scripted 1 [] history
