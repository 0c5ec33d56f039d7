-- ===== src/Addon/Engine/Presentation.antt =====
-- VinputEngine: the menus' visibility and the voice presentation (src/addon/menu/vinput_menu.cpp
-- and src/addon/dbus/vinput_dbus.cpp), the input context that an event concerns
-- (src/addon/core/vinput.cpp).
use fcitx5_vinput.Base.{
  String, Bool, true, false, [], Option, none, some, if◌then◌else◌, ◌==◌, str_empty,
}
use fcitx5_vinput.Addon.Engine.{
  InputContext, Engine, Message, blank, transcript, clear_menu, show, emit,
}

-- `a == b` on input contexts that may be null
unfoldable pub same_ic : Option InputContext → Option InputContext → Bool
same_ic none none = true
same_ic (some a) (some b) = a == b
same_ic none (some b) = false
same_ic (some a) none = false

unfoldable pub remember_input_context : Option InputContext → Engine → Engine
remember_input_context none e = e
remember_input_context (some ic) e = record e { last_active_ic = some ic }

unfoldable pub resolve_frontend_input_context : Option InputContext → Engine → Option InputContext
resolve_frontend_input_context fallback e = elim e.session [
  | some s ↦ some s.ic
  | none ↦ elim e.status_ic [
    | some ic ↦ some ic
    | none ↦ elim fallback [ some ic ↦ some ic | none ↦ e.last_active_ic ]
  ]
]

-- The end of hidePaletteMenu and of hideResultMenu.
abbrev pub clear_if : Bool → Option InputContext → Engine → Engine
clear_if true (some ic) e = emit (clear_menu ic) e
clear_if true none e = e
clear_if false ic e = e

unfoldable pub reset_palette_menu_state : Engine → Engine
reset_palette_menu_state e = record e {
  palette_menu_ic = none;
  palette_menu_visible = false;
  palette_query = [];
}

unfoldable pub reset_result_menu_state : Engine → Engine
reset_result_menu_state e = record e {
  result_menu_ic = none;
  result_menu_visible = false;
  result_candidates = [];
}

unfoldable pub hide_palette_menu : Engine → Engine
hide_palette_menu e = clear_if e.palette_menu_visible e.palette_menu_ic (reset_palette_menu_state e)

unfoldable pub hide_result_menu : Engine → Engine
hide_result_menu e = clear_if e.result_menu_visible e.result_menu_ic (reset_result_menu_state e)

unfoldable pub dismiss_menus_for_voice_activity : Engine → Engine
dismiss_menus_for_voice_activity e = hide_result_menu (hide_palette_menu e)

unfoldable pub present : Option InputContext → Message → Message → Engine → Engine
present none preedit aux_down e = e
present (some ic) preedit aux_down e =
    emit (show ic preedit aux_down) (dismiss_menus_for_voice_activity e)

-- updateVoicePresentation without a lower text
unfoldable pub update_voice_presentation : Option InputContext → Message → Engine → Engine
update_voice_presentation ic preedit e = present ic preedit blank e

unfoldable pub clear_voice_presentation : Option InputContext → Engine → Engine
clear_voice_presentation ic e = update_voice_presentation ic blank e

unfoldable pub compose_live_preedit : String → Message → Message
compose_live_preedit text fallback = if str_empty text then fallback else transcript text
