-- ===== src/Addon/Engine/MenuKeys.antt =====
-- VinputEngine: what a key does in a menu (src/addon/menu/vinput_menu.cpp), decided from the state.
use fcitx5_vinput.Base.{
  ℕ, Bool, true, false, not, ◌&&◌, ◌||◌, List, [], ◌∷◌, Option, none, some, if◌then◌else◌, ◌==◌,
  ltb, leb, is_empty,
}
use fcitx5_vinput.Addon.Panel.{
  CandidateList, Symbol, escape, return_key, kp_enter, up, down, back_space, page_up, kp_page_up,
  page_down, kp_page_down,
}
use fcitx5_vinput.Addon.Engine.{Key, Engine, Keys, KeyEvent}

-- What a handler does before it returns: `pass` and `close_and_pass` return false, all others
-- accept the event and return true.
pub data MenuAction : Type 0 where
  pass swallow close close_and_pass clear_query pop_query : MenuAction
  turn_page step_cursor : (is_next : Bool) → MenuAction
  choose : ℕ → MenuAction
  type_query : List ℕ → MenuAction

abbrev pub is_some : Option ℕ → Bool
is_some none = false
is_some (some i) = true

module _ (K : Keys) where
  unfoldable pub has_no_modifiers : Key → Bool
  has_no_modifiers key = K.has_no_states (K.normalize key)

  unfoldable pub is_key_sym : Key → Symbol → Bool
  is_key_sym key symbol =
      let normalized = K.normalize key in K.has_sym normalized symbol && has_no_modifiers normalized

  unfoldable pub is_pure_modifier_key : Key → Bool
  is_pure_modifier_key key = K.is_modifier (K.normalize key)

  unfoldable pub is_page_prev_key : Key → Bool
  is_page_prev_key key = is_key_sym key page_up || is_key_sym key kp_page_up

  unfoldable pub is_page_next_key : Key → Bool
  is_page_next_key key = is_key_sym key page_down || is_key_sym key kp_page_down

  unfoldable pub is_enter_key : Key → Bool
  is_enter_key key = is_key_sym key return_key || is_key_sym key kp_enter

  -- The text of the key, all of whose bytes are printable.
  unfoldable pub all_printable : List ℕ → Bool
  all_printable [] = true
  all_printable (c ∷ cs) = leb 32 c && not (c == 127) && all_printable cs

  unfoldable pub is_printable_menu_input : Key → Bool
  is_printable_menu_input key =
      let normalized = K.normalize key in
      let utf8 = K.utf8 (K.sym normalized) in
      if is_enter_key key
        || is_key_sym key escape
        || is_key_sym key back_space
        || is_key_sym key up
        || is_key_sym key down
        || is_page_prev_key key
        || is_page_next_key key
        || is_pure_modifier_key key
      then false
      else if is_some (K.digit_selection key)
      then false
      else if not (K.has_no_states normalized)
      then false
      else if is_empty utf8
      then false
      else all_printable utf8

  -- The candidate that a digit selects.
  abbrev pub digit_choice : Option CandidateList → Option ℕ → Option ℕ
  digit_choice none digit = none
  digit_choice (some l) none = none
  digit_choice (some l) (some i) = if ltb i l.size then some (l.index_at i) else none

  abbrev pub or_choose : Option ℕ → MenuAction → MenuAction
  or_choose none other = other
  or_choose (some i) other = choose i

  -- `max(cursorIndex(), 0)`
  abbrev pub cursor_or_first : Option ℕ → ℕ
  cursor_or_first none = 0
  cursor_or_first (some i) = i

  -- The candidate under the cursor, which the enter key selects.
  abbrev pub cursor_choice : Option CandidateList → MenuAction
  cursor_choice none = close
  cursor_choice (some l) =
      let i = cursor_or_first l.cursor_index in
      if ltb i l.size then choose (l.index_at i) else close

  abbrev pub can_move : Option CandidateList → Bool
  can_move none = false
  can_move (some l) = l.is_movable

  abbrev pub lists_none : Option CandidateList → Bool
  lists_none none = true
  lists_none (some l) = l.is_empty_list

  unfoldable pub is_result_key : Key → Engine → Bool
  is_result_key key e =
      is_some (K.digit_selection key)
      || K.check_key_list key e.page_prev_keys
      || K.check_key_list key e.page_next_keys
      || K.check key up
      || K.check key down
      || K.check key return_key
      || K.check key kp_enter
      || K.check key escape

  -- handleResultMenuKeyEvent, for a menu that is shown.
  unfoldable pub result_action : Option CandidateList → KeyEvent → Engine → MenuAction
  result_action list event e =
      let key = event.key in
      if event.is_release
      then (if is_result_key key e then swallow else pass)
      else if K.check key escape
      then close
      else if lists_none list || is_empty e.result_candidates
      then close_and_pass
      else if K.check_key_list key e.page_prev_keys
      then turn_page false
      else if K.check_key_list key e.page_next_keys
      then turn_page true
      else or_choose (digit_choice list (K.digit_selection key)) (
          if can_move list && K.check key up
          then step_cursor false
          else if can_move list && K.check key down
          then step_cursor true
          else if K.check key return_key || K.check key kp_enter
          then cursor_choice list
          else close_and_pass)

  unfoldable pub is_palette_key : Key → Bool
  is_palette_key key =
      is_page_prev_key key
      || is_page_next_key key
      || is_some (K.digit_selection key)
      || is_key_sym key back_space
      || is_key_sym key up
      || is_key_sym key down
      || is_enter_key key
      || is_key_sym key escape
      || is_pure_modifier_key key
      || is_printable_menu_input key

  -- handlePaletteMenuKeyEvent, for a menu that is shown; `toggles` says that the key is one that
  -- toggles the palette.
  unfoldable pub palette_action : Bool → Option CandidateList → KeyEvent → Engine → MenuAction
  palette_action toggles list event e =
      let key = event.key in
      if toggles
      then pass
      else if event.is_release
      then (if is_palette_key key then swallow else pass)
      else if not (is_palette_key key)
      then close_and_pass
      else if is_pure_modifier_key key
      then swallow
      else if is_key_sym key escape
      then (if is_empty e.palette_query then close else clear_query)
      else if is_key_sym key back_space
      then (if is_empty e.palette_query then close else pop_query)
      else if is_printable_menu_input key
      then type_query (K.utf8 (K.sym (K.normalize key)))
      else if is_page_prev_key key
      then turn_page false
      else if is_page_next_key key
      then turn_page true
      else or_choose (digit_choice list (K.digit_selection key)) (
          if can_move list && is_key_sym key up
          then step_cursor false
          else if can_move list && is_key_sym key down
          then step_cursor true
          else if is_enter_key key
          then cursor_choice list
          else close_and_pass)
