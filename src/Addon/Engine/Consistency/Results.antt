-- ===== src/Addon/Engine/Consistency/Results.antt =====
-- VinputEngine: the texts that the daemon sends, on the fields that agree with each other.
use fcitx5_vinput.Base.{
  String, ◌≡◌, refl, ◌∙◌, Bool, true, not, ◌&&◌, List, Option, none, some, if◌then◌else◌, if_both,
  arith, str_empty,
}
use fcitx5_vinput.Config.Types.{Platform}
use fcitx5_vinput.Runtime.Pipeline.{Payload, Candidate}
use fcitx5_vinput.Addon.Engine.{
  InputContext, Phase, pending_start, recording, inferring, postprocessing, Session, commanding,
  recording_text, postprocessing_text, Engine, World, emit, commit, delete_selection,
}
use fcitx5_vinput.Addon.Engine.Presentation.{
  remember_input_context, resolve_frontend_input_context, compose_live_preedit,
}
use fcitx5_vinput.Addon.Engine.Context.{append_context_entry, suppress_next_commit_context}
use fcitx5_vinput.Addon.Engine.Frontend.{finish_frontend_session}
use fcitx5_vinput.Addon.Engine.Daemon.{has_selection}
use fcitx5_vinput.Addon.Engine.Results.{source_asr, source_llm}
use fcitx5_vinput.Addon.Engine.Results.{
  show_partial, note_commit, append_spoken, commits_llm, shows_result_menu, show_result_menu,
  asr_candidate, in_command_mode,
}
use fcitx5_vinput.Addon.Engine.Results.{
  partial_at, partial_of, partial_for, handle_recognition_partial, take_result, result_for,
  on_recognition_result,
}
use fcitx5_vinput.Addon.Engine.Invariant.{
  parts, IsConsistent, hide_palette_menu-parts, append_context_entry-parts,
}
use fcitx5_vinput.Addon.Engine.Consistency.{
  parts-IsConsistent, same_owner-IsConsistent, finish-IsConsistent,
}
use fcitx5_vinput.Addon.Engine.Consistency.Frontend.{enter_busy-IsConsistent}
use fcitx5_vinput.Addon.Engine.Consistency.Daemon.{update-IsConsistent}
use fcitx5_vinput.Addon.Engine.Consistency.Replies.{remember-IsConsistent}

show_partial-IsConsistent :
    (ic : InputContext) (s : Session) (e : Engine)
    → IsConsistent e
    → IsConsistent (show_partial ic s e)
unfolding show_partial
show_partial-IsConsistent ic s e h =
    let fallback = if s.command_mode then commanding else recording_text in
    update-IsConsistent (some ic) (compose_live_preedit s.transcript_text fallback) e h

pub append_spoken-parts : (o : Option Candidate) (e : Engine) → parts (append_spoken o e) ≡ parts e
append_spoken-parts none e = refl
append_spoken-parts (some c) e = append_context_entry-parts c.text source_asr e

pub note_commit-parts : (p : Payload) (e : Engine) → parts (note_commit p e) ≡ parts e
unfolding note_commit suppress_next_commit_context parts
note_commit-parts p e =
    let a = append_context_entry p.commit_text source_llm e in
    if_both (λ d. parts d ≡ parts e) (commits_llm p.commit_text p.candidates) a e
      (λ k. append_context_entry-parts p.commit_text source_llm e) (λ k. refl)

pub show_result_menu-parts :
    (ic : InputContext) (cs : List Candidate) (e : Engine)
    → parts (show_result_menu ic cs e) ≡ parts e
unfolding show_result_menu parts
show_result_menu-parts ic cs e = ground (arith, hide_palette_menu-parts e)

module _ {P : Platform} (w : World P) where
  partial_at-IsConsistent :
      (phase : Phase) (ic : InputContext) (s : Session) (e : Engine)
      → IsConsistent e
      → IsConsistent (partial_at w phase ic s e)
  partial_at-IsConsistent postprocessing ic s e h =
      enter_busy-IsConsistent w.now ic s.command_mode
        (postprocessing_text s.command_mode s.raw_prev) true s.raw_prev e h
  partial_at-IsConsistent inferring ic s e h =
      if_both IsConsistent (not s.raw_prev) e (show_partial ic s e) (λ k. h)
        (λ k. show_partial-IsConsistent ic s e h)
  partial_at-IsConsistent pending_start ic s e h = show_partial-IsConsistent ic s e h
  partial_at-IsConsistent recording ic s e h = show_partial-IsConsistent ic s e h

  partial_of-IsConsistent :
      (o : Option Session) (ic : InputContext) (text : String) (e : Engine)
      → e.session ≡ o
      → IsConsistent e
      → IsConsistent (partial_of w o ic text e)
  partial_of-IsConsistent none ic text e q h = h
  partial_of-IsConsistent (some s) ic text e q h =
      let s1 : Session = record s { transcript_text = text } in
      partial_at-IsConsistent s.phase ic s1 (record e { session = some s1 })
        (same_owner-IsConsistent s s1 e q refl h)

  partial_for-IsConsistent :
      (o : Option InputContext) (text : String) (e : Engine)
      → IsConsistent e
      → IsConsistent (partial_for w o text e)
  partial_for-IsConsistent none text e h = h
  partial_for-IsConsistent (some ic) text e h =
      let e1 = remember_input_context (some ic) e in
      partial_of-IsConsistent e1.session ic text e1 refl (remember-IsConsistent (some ic) e h)

  pub partial-IsConsistent :
      (text : String) (e : Engine)
      → IsConsistent e
      → IsConsistent (handle_recognition_partial w text e)
  unfolding handle_recognition_partial
  partial-IsConsistent text e h =
      let ic = resolve_frontend_input_context none e in
      if_both IsConsistent (str_empty text) e (partial_for w ic text e) (λ k. h)
        (λ k. partial_for-IsConsistent ic text e h)

  take_result-IsConsistent :
      (ic : InputContext) (is_command : Bool) (selected : String) (p : Payload) (e : Engine)
      → IsConsistent e
      → IsConsistent (take_result w ic is_command selected p e)
  unfolding take_result parts
  take_result-IsConsistent ic is_command selected p e h =
      let spoken = asr_candidate is_command selected p.candidates in
      let e1 = append_spoken spoken e in
      let e2 = note_commit p e1 in
      let e3 : Engine = record e1 { result_is_command = is_command } in
      let q1 = append_spoken-parts spoken e in
      let q2 = note_commit-parts p e1 ∙ q1 in
      let b = is_command && has_selection w.surrounding in
      let e4 = if b then emit (delete_selection ic) e2 else e2 in
      let q4 =
        if_both (λ d. parts d ≡ parts e) b (emit (delete_selection ic) e2) e2 (λ k. q2) (λ k. q2) in
      let q =
        if_both (λ d. parts d ≡ parts e) (shows_result_menu is_command p.candidates)
          (show_result_menu ic p.candidates e3) (emit (commit ic p.commit_text) e4)
          (λ k. show_result_menu-parts ic p.candidates e3 ∙ q1) (λ k. q4) in
      parts-IsConsistent (take_result w ic is_command selected p e) e q h

  result_for-IsConsistent :
      (o : Option InputContext) (is_command : Bool) (selected : String) (p : Payload) (e : Engine)
      → IsConsistent e
      → IsConsistent (result_for w o is_command selected p e)
  result_for-IsConsistent none is_command selected p e h = h
  result_for-IsConsistent (some ic) is_command selected p e h =
      let e1 = remember_input_context (some ic) e in
      let e2 = finish_frontend_session (some ic) e1 in
      let h2 = finish-IsConsistent (some ic) e1 (remember-IsConsistent (some ic) e h) in
      if_both IsConsistent (str_empty p.commit_text) e2 (take_result w ic is_command selected p e2)
        (λ k. h2) (λ k. take_result-IsConsistent ic is_command selected p e2 h2)

  pub result-IsConsistent :
      (p : Payload) (e : Engine) → IsConsistent e → IsConsistent (on_recognition_result w p e)
  unfolding on_recognition_result
  result-IsConsistent p e h =
      let is_command = in_command_mode e.session in
      result_for-IsConsistent (resolve_frontend_input_context none e) is_command
        (if is_command then e.command_selected_text else "") p e h
