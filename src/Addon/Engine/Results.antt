-- ===== src/Addon/Engine/Results.antt =====
-- VinputEngine: the texts that the daemon sends (src/addon/dbus/vinput_dbus.cpp).
use fcitx5_vinput.Base.{
  ℕ, suc, String, Bool, true, false, not, ◌&&◌, ◌||◌, List, [], ◌∷◌, Option, none, some,
  if◌then◌else◌, ltb, length, is_empty, str_eq, str_empty,
}
use fcitx5_vinput.Config.Types.{Platform}
use fcitx5_vinput.Runtime.Pipeline.{Payload, Candidate}
use fcitx5_vinput.Addon.Engine.{
  InputContext, Phase, pending_start, recording, inferring, postprocessing, Session, commanding,
  recording_text, postprocessing_text, show_results, delete_selection, commit, Engine, World, emit,
}
use fcitx5_vinput.Addon.Engine.Presentation.{
  remember_input_context, resolve_frontend_input_context, hide_palette_menu,
  update_voice_presentation, compose_live_preedit,
}
use fcitx5_vinput.Addon.Engine.Context.{append_context_entry, suppress_next_commit_context}
use fcitx5_vinput.Addon.Engine.Frontend.{enter_busy_state, finish_frontend_session}
use fcitx5_vinput.Addon.Engine.Daemon.{has_selection}

abbrev pub source_raw : String
source_raw = "raw"

abbrev pub source_llm : String
source_llm = "llm"

abbrev pub source_asr : String
source_asr = "asr"

-- The first candidate with a source.
unfoldable pub first_of_source : String → List Candidate → Option Candidate
first_of_source source [] = none
first_of_source source (c ∷ cs) =
    if str_eq c.source source then some c else first_of_source source cs

-- The first raw candidate; in command mode not the selected text.
unfoldable pub first_raw : Bool → String → List Candidate → Option Candidate
first_raw is_command selected [] = none
first_raw is_command selected (c ∷ cs) =
    let rest = first_raw is_command selected cs in
    if not (str_eq c.source source_raw)
    then rest
    else if not is_command || not (str_eq c.text selected)
    then some c
    else rest

unfoldable pub asr_candidate : Bool → String → List Candidate → Option Candidate
asr_candidate is_command selected cs = elim (first_of_source source_asr cs) [
  | some c ↦ some c
  | none ↦ first_raw is_command selected cs
]

unfoldable pub count_of_source : String → List Candidate → ℕ
count_of_source source [] = 0
count_of_source source (c ∷ cs) =
    let n = count_of_source source cs in if str_eq c.source source then suc n else n

-- `commit_from_llm`
unfoldable pub commits_llm : String → List Candidate → Bool
commits_llm text [] = false
commits_llm text (c ∷ cs) = str_eq c.source source_llm && str_eq c.text text || commits_llm text cs

unfoldable pub shows_result_menu : Bool → List Candidate → Bool
shows_result_menu is_command cs =
    if is_command then ltb 1 (count_of_source source_llm cs) else ltb 1 (length cs)

unfoldable pub show_result_menu : InputContext → List Candidate → Engine → Engine
show_result_menu ic cs e =
    let e1 : Engine = record (hide_palette_menu e) {
      result_menu_ic = some ic;
      result_menu_visible = true;
      result_candidates = cs;
    } in
    if is_empty cs then e else emit (show_results ic cs) e1

-- The entry of what was spoken.
abbrev pub append_spoken : Option Candidate → Engine → Engine
append_spoken none e = e
append_spoken (some c) e = append_context_entry c.text source_asr e

abbrev pub in_command_mode : Option Session → Bool
in_command_mode none = false
in_command_mode (some s) = s.command_mode

unfoldable pub show_partial : InputContext → Session → Engine → Engine
show_partial ic s e =
    update_voice_presentation (some ic)
      (compose_live_preedit s.transcript_text
        (if s.command_mode then commanding else recording_text))
      e

-- The context of a text that is about to be committed.
unfoldable pub note_commit : Payload → Engine → Engine
note_commit payload e = suppress_next_commit_context payload.commit_text (
    if commits_llm payload.commit_text payload.candidates
    then append_context_entry payload.commit_text source_llm e
    else e)

module _ {P : Platform} (w : World P) where
  -- The part of handleRecognitionPartial that has a session.
  abbrev pub partial_at : Phase → InputContext → Session → Engine → Engine
  partial_at postprocessing ic s e =
      enter_busy_state w.now ic s.command_mode (postprocessing_text s.command_mode s.raw_prev) true
        s.raw_prev e
  partial_at inferring ic s e = if not s.raw_prev then e else show_partial ic s e
  partial_at pending_start ic s e = show_partial ic s e
  partial_at recording ic s e = show_partial ic s e

  abbrev pub partial_of : Option Session → InputContext → String → Engine → Engine
  partial_of none ic text e = e
  partial_of (some s) ic text e =
      let s1 : Session = record s { transcript_text = text } in
      partial_at s.phase ic s1 (record e { session = some s1 })

  abbrev pub partial_for : Option InputContext → String → Engine → Engine
  partial_for none text e = e
  partial_for (some ic) text e =
      let e1 = remember_input_context (some ic) e in partial_of e1.session ic text e1

  unfoldable pub handle_recognition_partial : String → Engine → Engine
  handle_recognition_partial text e =
      if str_empty text then e else partial_for (resolve_frontend_input_context none e) text e

  -- onRecognitionResult after the session is finished, with a text to commit.
  unfoldable pub take_result : InputContext → Bool → String → Payload → Engine → Engine
  take_result ic is_command selected payload e =
      let e1 = append_spoken (asr_candidate is_command selected payload.candidates) e in
      let e2 = note_commit payload e1 in
      if shows_result_menu is_command payload.candidates
      then show_result_menu ic payload.candidates (record e1 { result_is_command = is_command })
      else emit (commit ic payload.commit_text)
          (if is_command && has_selection w.surrounding then emit (delete_selection ic) e2 else e2)

  abbrev pub result_for : Option InputContext → Bool → String → Payload → Engine → Engine
  result_for none is_command selected payload e = e
  result_for (some ic) is_command selected payload e =
      let e1 = finish_frontend_session (some ic) (remember_input_context (some ic) e) in
      if str_empty payload.commit_text then e1 else take_result ic is_command selected payload e1

  unfoldable pub on_recognition_result : Payload → Engine → Engine
  on_recognition_result payload e =
      let is_command = in_command_mode e.session in
      result_for (resolve_frontend_input_context none e) is_command
        (if is_command then e.command_selected_text else "") payload e
