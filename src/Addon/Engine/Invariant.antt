-- ===== src/Addon/Engine/Invariant.antt =====
-- VinputEngine: the fields that agree with each other, and the operations that leave them alone.
use fcitx5_vinput.Base.{
  ℕ, String, ◌≡◌, refl, ◌∙◌, sym, Bool, true, false, not, ◌&&◌, Option, none, some, if◌then◌else◌,
  if_both, arith, str_empty,
}
use fcitx5_vinput.Config.Types.{Platform}
use fcitx5_vinput.Addon.PollGate
use fcitx5_vinput.Addon.PollGate.{StatusPollGate, Ticket}
use fcitx5_vinput.Addon.Engine.{
  InputContext, Session, HotkeyRole, no_role, Message, blank, Engine, World,
}
use fcitx5_vinput.Addon.Engine.Presentation.{
  clear_if, hide_palette_menu, hide_result_menu, dismiss_menus_for_voice_activity, present,
  remember_input_context, reset_palette_menu_state, reset_result_menu_state,
  clear_voice_presentation, update_voice_presentation, same_ic,
}
use fcitx5_vinput.Addon.Engine.Context.{
  append_user_entry, flush_context_buffer, append_context_entry, accumulate_context_buffer,
  on_commit_string, joined, reload_scene_config,
}
use fcitx5_vinput.Addon.Engine.Frontend.{clear_other, leave_status_ic}

-- The call that the gate waits for is the one that is pending.
abbrev pub IsPolled : Option Ticket → StatusPollGate → Type 0
IsPolled none g = g.active ≡ false
IsPolled (some t) g = PollGate.is_active t g ≡ true

-- A session is shown in its own input context and polled; without one nothing is.
abbrev pub IsShown :
    Option Session → Option InputContext → Bool → Option Ticket → StatusPollGate → Type 0
IsShown none ic armed call g = (ic ≡ none) × (armed ≡ false) × (call ≡ none) × (g.active ≡ false)
IsShown (some s) ic armed call g = (ic ≡ some s.ic) × (armed ≡ true) × IsPolled call g

-- A role is held as long as its key is, and only outside a chord.
abbrev pub IsHeld : HotkeyRole → Option ℕ → Bool → Type 0
IsHeld no_role sym chord = sym ≡ none
IsHeld role none chord = ⊥
IsHeld role (some k) chord = chord ≡ false

pub record Parts : Type 0 where
  pub session : Option Session
  pub status_ic : Option InputContext
  pub armed : Bool
  pub call : Option Ticket
  pub gate : StatusPollGate
  pub role : HotkeyRole
  pub sym : Option ℕ
  pub chord : Bool

unfoldable pub parts : Engine → Parts
parts e = record {
  session = e.session;
  status_ic = e.status_ic;
  armed = e.status_sync_armed;
  call = e.pending_status_call;
  gate = e.status_poll_gate;
  role = e.held_role;
  sym = e.held_key_sym;
  chord = e.chord_interrupted;
}

abbrev pub AreConsistent : Parts → Type 0
AreConsistent p = IsShown p.session p.status_ic p.armed p.call p.gate × IsHeld p.role p.sym p.chord

unfoldable pub IsConsistent : Engine → Type 0
unfolding parts
IsConsistent e = AreConsistent (parts e)

clear_if-parts :
    (b : Bool) (ic : Option InputContext) (e : Engine) → parts (clear_if b ic e) ≡ parts e
unfolding parts
clear_if-parts true (some ic) e = refl
clear_if-parts true none e = refl
clear_if-parts false ic e = refl

pub hide_palette_menu-parts : (e : Engine) → parts (hide_palette_menu e) ≡ parts e
unfolding parts hide_palette_menu reset_palette_menu_state
hide_palette_menu-parts e =
    clear_if-parts e.palette_menu_visible e.palette_menu_ic (reset_palette_menu_state e)

pub hide_result_menu-parts : (e : Engine) → parts (hide_result_menu e) ≡ parts e
unfolding parts hide_result_menu reset_result_menu_state
hide_result_menu-parts e =
    clear_if-parts e.result_menu_visible e.result_menu_ic (reset_result_menu_state e)

pub dismiss_menus-parts : (e : Engine) → parts (dismiss_menus_for_voice_activity e) ≡ parts e
unfolding dismiss_menus_for_voice_activity
dismiss_menus-parts e = hide_result_menu-parts (hide_palette_menu e) ∙ hide_palette_menu-parts e

pub present-parts :
    (ic : Option InputContext) (m n : Message) (e : Engine) → parts (present ic m n e) ≡ parts e
unfolding parts present
present-parts none m n e = refl
present-parts (some ic) m n e = dismiss_menus-parts e

pub remember_input_context-parts :
    (ic : Option InputContext) (e : Engine) → parts (remember_input_context ic e) ≡ parts e
unfolding parts remember_input_context
remember_input_context-parts none e = refl
remember_input_context-parts (some ic) e = refl

clear_other-parts :
    (other : Option InputContext) (ic : InputContext) (e : Engine)
    → parts (clear_other other ic e) ≡ parts e
unfolding clear_voice_presentation update_voice_presentation
clear_other-parts none ic e = refl
clear_other-parts (some other) ic e = ground (arith, present-parts (some other) blank blank e)

pub leave_status_ic-parts :
    (ic : InputContext) (e : Engine) → parts (leave_status_ic ic e) ≡ parts e
unfolding leave_status_ic
leave_status_ic-parts ic e = clear_other-parts e.status_ic ic e

append_user_entry-parts : (text : String) (e : Engine) → parts (append_user_entry text e) ≡ parts e
unfolding parts append_user_entry
append_user_entry-parts text e = ground arith

pub flush_context_buffer-parts : (e : Engine) → parts (flush_context_buffer e) ≡ parts e
unfolding parts flush_context_buffer append_user_entry
flush_context_buffer-parts e = ground arith

pub append_context_entry-parts :
    (text source : String) (e : Engine) → parts (append_context_entry text source e) ≡ parts e
unfolding parts append_context_entry
append_context_entry-parts text source e = ground (arith, flush_context_buffer-parts e)

module _ {P : Platform} (w : World P) where
  pub reload_scene_config-parts : (e : Engine) → parts (reload_scene_config w e) ≡ parts e
  unfolding parts reload_scene_config
  reload_scene_config-parts e = ground arith

  accumulated-parts :
      (text : String) (ic : Option InputContext) (e : Engine)
      → parts (accumulate_context_buffer w text ic e) ≡ parts e
  unfolding accumulate_context_buffer parts
  accumulated-parts text ic e =
      let b = not (same_ic ic e.context_buffer_ic) && not (str_empty e.context_buffer_text) in
      let e1 = if b then flush_context_buffer e else e in
      let e2 : Engine = record e1 {
        context_buffer_ic = ic;
        context_buffer_text = joined w e1.context_buffer_text text;
      } in
      let l : parts e1 ≡ parts e =
        if_both (λ d. parts d ≡ parts e) b (flush_context_buffer e) e
          (λ h. flush_context_buffer-parts e) (λ h. refl) in
      let flushed : Engine = record e2 { context_flush_armed = true } in
      if_both (λ d. parts d ≡ parts e) (w.sentence_terminal e2.context_buffer_text)
        (flush_context_buffer e2) flushed (λ h. flush_context_buffer-parts e2 ∙ l) (λ h. l)

  pub on_commit_string-parts :
      (text : String) (ic : Option InputContext) (e : Engine)
      → parts (on_commit_string w text ic e) ≡ parts e
  unfolding on_commit_string parts
  on_commit_string-parts text ic e =
      let e1 : Engine = record e { pending_suppressed_commit_text = none } in
      ground (arith, accumulated-parts text ic e1)
