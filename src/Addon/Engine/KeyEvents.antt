-- ===== src/Addon/Engine/KeyEvents.antt =====
-- VinputEngine: handleKeyEvent as a whole (src/addon/input/vinput_keyevent.cpp).
use fcitx5_vinput.Base.{Bool, true, false, Option, none, some, if◌then◌else◌}
use fcitx5_vinput.Config.Types.{Platform}
use fcitx5_vinput.Addon.Engine.{no_role, Engine, World, Keys, KeyEvent}
use fcitx5_vinput.Addon.Engine.Presentation.{remember_input_context}
use fcitx5_vinput.Addon.Engine.Keyboard.{
  Handled, classify, same_role, cancel_postprocessing, is_pending_release, break_chord, on_press,
}
use fcitx5_vinput.Addon.Engine.Menus.{handle_result_menu_key_event, handle_palette_menu_key_event}
use fcitx5_vinput.Addon.Engine.Releases.{on_release}

module _ {P : Platform} (w : World P) where
  -- Parts 3 to 6.
  unfoldable pub handle_hotkey : Keys → KeyEvent → Engine → Handled
  handle_hotkey K event e =
      let key = K.normalize event.orig_key in
      let (role, matched) = classify K key event.is_release e in
      if same_role role no_role then (if event.is_release then e else break_chord w e, false) else (
        if event.is_release
            then on_release w event.input_context (K.sym key) role matched e
            else on_press w event.input_context (K.sym key) role matched e,
        true,
      )

  abbrev pub or_next : Handled → (Engine → Handled) → Handled
  or_next (e, true) next = (e, true)
  or_next (e, false) next = next e

  -- Part 2: a menu takes the event, or its handler leaves it to `next`.
  unfoldable pub offer : Bool → (Engine → Handled) → (Engine → Handled) → Engine → Handled
  offer is_visible menu next e = if is_visible then or_next (menu e) next else next e

  abbrev pub or_else : Option Engine → Handled → Handled
  or_else none r = r
  or_else (some e) r = (e, true)

  -- Parts 2 to 6.
  unfoldable pub handle_in_menus : Keys → KeyEvent → Engine → Handled
  handle_in_menus K event e =
      offer e.result_menu_visible (handle_result_menu_key_event w K event)
        (λ d.
          offer d.palette_menu_visible (handle_palette_menu_key_event w K event)
            (handle_hotkey K event) d)
        e

  unfoldable pub handle_key_event : Keys → KeyEvent → Engine → Handled
  handle_key_event K event e =
      let e1 = remember_input_context (some event.input_context) e in
      if is_pending_release w K event e1
      then (record e1 { pending_postprocessing_release = none }, true)
      else or_else (cancel_postprocessing w K event e1) (handle_in_menus K event e1)
