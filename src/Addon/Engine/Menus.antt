-- ===== src/Addon/Engine/Menus.antt =====
-- VinputEngine: the key handlers of the result menu and of the command palette
-- (src/addon/menu/vinput_menu.cpp). A handler decides what a key does and does it.
use fcitx5_vinput.Base.{true, false, not, [], ◌++◌, Option, none, some, if◌then◌else◌}
use fcitx5_vinput.Config.Types.{Platform}
use fcitx5_vinput.Addon.Engine.{
  InputContext, change_page, move_cursor, Engine, World, Keys, KeyEvent, emit,
}
use fcitx5_vinput.Addon.Engine.Presentation.{hide_palette_menu, hide_result_menu}
use fcitx5_vinput.Addon.Engine.MenuKeys.{
  MenuAction, pass, swallow, close, close_and_pass, clear_query, pop_query, turn_page, step_cursor,
  choose, type_query, is_some, result_action, palette_action,
}
use fcitx5_vinput.Addon.Engine.Palette.{
  pop_last_utf8_char, rebuild_palette_menu, select_palette_item, select_result_candidate,
}
use fcitx5_vinput.Addon.Engine.Keyboard.{Handled, match_key_list_index}

module _ {P : Platform} (w : World P) where
  -- The result menu has no query.
  abbrev pub do_in_result_menu : MenuAction → InputContext → Engine → Handled
  do_in_result_menu pass ic e = (e, false)
  do_in_result_menu swallow ic e = (e, true)
  do_in_result_menu close ic e = (hide_result_menu e, true)
  do_in_result_menu close_and_pass ic e = (hide_result_menu e, false)
  do_in_result_menu (turn_page is_next) ic e = (emit (change_page ic is_next) e, true)
  do_in_result_menu (step_cursor is_next) ic e = (emit (move_cursor ic is_next) e, true)
  do_in_result_menu (choose index) ic e = (select_result_candidate w index ic e, true)
  do_in_result_menu clear_query ic e = (e, true)
  do_in_result_menu pop_query ic e = (e, true)
  do_in_result_menu (type_query text) ic e = (e, true)

  abbrev pub result_menu_in : Option InputContext → Keys → KeyEvent → Engine → Handled
  result_menu_in none K event e = (e, false)
  result_menu_in (some ic) K event e =
      do_in_result_menu
        (if not e.result_menu_visible then pass else result_action K w.result_list event e) ic e

  unfoldable pub handle_result_menu_key_event : Keys → KeyEvent → Engine → Handled
  handle_result_menu_key_event K event e = result_menu_in e.result_menu_ic K event e

  abbrev pub do_in_palette : MenuAction → InputContext → Engine → Handled
  do_in_palette pass ic e = (e, false)
  do_in_palette swallow ic e = (e, true)
  do_in_palette close ic e = (hide_palette_menu e, true)
  do_in_palette close_and_pass ic e = (hide_palette_menu e, false)
  do_in_palette (turn_page is_next) ic e = (emit (change_page ic is_next) e, true)
  do_in_palette (step_cursor is_next) ic e = (emit (move_cursor ic is_next) e, true)
  do_in_palette (choose index) ic e = (select_palette_item w index ic e, true)
  do_in_palette clear_query ic e = (rebuild_palette_menu ic (record e { palette_query = [] }), true)
  do_in_palette pop_query ic e =
      let query = pop_last_utf8_char e.palette_query in
      (rebuild_palette_menu ic (record e { palette_query = query }), true)
  do_in_palette (type_query text) ic e =
      (rebuild_palette_menu ic (record e { palette_query = e.palette_query ++ text }), true)

  abbrev pub palette_in : Option InputContext → Keys → KeyEvent → Engine → Handled
  palette_in none K event e = (e, false)
  palette_in (some ic) K event e =
      let toggles = is_some (match_key_list_index K event.key e.menu_keys event.is_release) in
      do_in_palette
        (if not e.palette_menu_visible
          then pass
          else palette_action K toggles w.palette_list event e)
        ic e

  unfoldable pub handle_palette_menu_key_event : Keys → KeyEvent → Engine → Handled
  handle_palette_menu_key_event K event e = palette_in e.palette_menu_ic K event e
