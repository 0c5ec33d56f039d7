-- ===== src/Runtime/Lifecycle/Results.antt =====
-- What SessionLifecycleManager makes of the events of a session: PollSessionEvents and
-- FinishSessionAndCollectResult.
use fcitx5_vinput.Base.{
  ℕ, String, ◌≡◌, ◌≢◌, ◌↔◌, ◌⊎◌, inl, refl, Bool, true, false, ◌&&◌, List, [], ◌∷◌, Option, none,
  some, arith, if◌then◌else◌, str_empty, All,
}
use fcitx5_vinput.Asr.Contract.{
  final_text, error, RecognitionEvent, RecognitionRunResult, Outcome, SessionApi,
}
use fcitx5_vinput.Runtime.Lifecycle.{
  SessionPollResult, Manager, poll_session_events, first_error, erase_errors, apply_event, collect,
  finished, poll_result, is_active_session, finish_session_and_collect_result,
  failed_to_finish_session,
}

abbrev pub IsClean : List RecognitionEvent → Type 0
IsClean = All (λ (e : RecognitionEvent). e.kind ≢ error)

erase_errors-IsClean : (es : List RecognitionEvent) → IsClean (erase_errors es)
unfolding erase_errors
erase_errors-IsClean [] = tt
erase_errors-IsClean (e ∷ es) = ground (arith, erase_errors-IsClean es)

no_error-IsClean : (es : List RecognitionEvent) → first_error es ≡ none → IsClean es
unfolding first_error
no_error-IsClean [] h = tt
no_error-IsClean (e ∷ es) h = ground (arith, no_error-IsClean es)

IsClean-first_error : (es : List RecognitionEvent) → IsClean es → first_error es ≡ none
unfolding first_error
IsClean-first_error [] h = refl
IsClean-first_error (e ∷ es) (k, h) = ground (arith, IsClean-first_error es h)

-- What the controller may rely on after a poll.
pub record IsFiltered (events : List RecognitionEvent) (async_failure : Option String)
    (p : SessionPollResult) : Type 0 where
  pub clean : IsClean p.events
  pub complete : (p.failure ≢ none) ⊎ (p.events ≡ events)
  pub silent : (p.failure ≡ none) ↔ ((async_failure ≡ none) × IsClean events)

-- No event is an Error.
pub is_clean : List RecognitionEvent → Bool
is_clean [] = true
is_clean (e ∷ es) = (elim e.kind [ error ↦ false | _ ↦ true ]) && is_clean es

-- The text of the last FinalText event, and the last error that is not empty.
pub last_final : List RecognitionEvent → String → String
last_final [] text = text
last_final (e ∷ es) text = last_final es (elim e.kind [ final_text ↦ e.text | _ ↦ text ])

pub last_error : List RecognitionEvent → String → String
last_error [] text = text
last_error (e ∷ es) text =
    last_error es (elim e.kind [ error ↦ (if str_empty e.error then text else e.error) | _ ↦ text ])

-- The error text starts from what Finish left behind.
abbrev pub finish_error : Outcome → String
finish_error o =
    if o.ok then "" else (if str_empty o.error then failed_to_finish_session else o.error)

collect_lem :
    (es : List RecognitionEvent) (r : RecognitionRunResult)
    → collect es r ≡ record {
      available = r.available;
      ok = r.ok && is_clean es;
      text = last_final es r.text;
      error = last_error es r.error;
    }
unfolding collect last_final last_error is_clean
collect_lem [] r = ground arith
collect_lem (e ∷ es) r = ground (arith, collect_lem es (apply_event e.kind e r))

poll_result-IsFiltered :
    (api : SessionApi) (m : Manager api) (s : ℕ) (events : List RecognitionEvent)
    (f : Option String)
    → IsFiltered events f (poll_result api s events f m)
unfolding poll_result
poll_result-IsFiltered api m s events (some f) = record {
  clean = erase_errors-IsClean events;
  complete = inl (λ h. cc);
  silent = ((λ h. cc), (λ h. cc));
}
poll_result-IsFiltered api m s events none = record {
  clean = grind (arith, erase_errors-IsClean events, no_error-IsClean events);
  complete = ground arith;
  silent = (
    (λ h. (refl, ground (arith, no_error-IsClean events))),
    (λ (_, h). IsClean-first_error events h),
  );
}

module _ (api : SessionApi) where
  -- A poll of a session that exists hands out no Error event. It reports a failure exactly when the
  -- asynchronous session failed or some event is an Error, and without a failure it hands out every
  -- event. It says whether that session is the active one.
  pub poll_session_events-IsFiltered :
      (m : Manager api) (s : ℕ)
      → let w = api.poll_events m.world s in
        let p = (poll_session_events api (some s) m).1 in
        IsFiltered w.1 (api.failure_error w.0 s) p
        × (p.session_active ≡ is_active_session api (some s) m)
  unfolding poll_session_events erase_errors first_error
  poll_session_events-IsFiltered m s =
      (poll_result-IsFiltered api (record m { world = (api.poll_events m.world s).0 }) s _ _, refl)

  -- Finishing a session that exists gives its last final text, or no text. The result is a success
  -- exactly when Finish succeeded and no event is an Error, and its error is the last non-empty one:
  -- of the Error events, or else what Finish left behind, with a default where that is empty.
  pub finish_session_and_collect_result_lem :
      (m : Manager api) (s : ℕ)
      → let o = api.finish m.world s "" in
        let events = (api.poll_events o.0 s).1 in
        (finish_session_and_collect_result api (some s) m).1 ≡ record {
          available = true;
          ok = o.1.ok && is_clean events;
          text = last_final events "";
          error = last_error events (finish_error o.1);
        }
  unfolding finish_session_and_collect_result
  finish_session_and_collect_result_lem m s =
      collect_lem (api.poll_events (api.finish m.world s "").0 s).1
        (finished (api.finish m.world s "").1)
