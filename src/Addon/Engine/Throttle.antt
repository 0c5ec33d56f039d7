-- ===== src/Addon/Engine/Throttle.antt =====
-- VinputEngine: the operations that leave `daemon_sync_blocked_until_` alone.
use fcitx5_vinput.Base.{
  ℕ, ◌≡◌, refl, ◌∙◌, Bool, true, false, not, ◌&&◌, Option, none, some, if◌then◌else◌, if_both,
  arith, str_empty,
}
use fcitx5_vinput.Config.Types.{Platform}
use fcitx5_vinput.Addon.Engine.{
  InputContext, Session, Message, blank, applying_command, transcript, command_transcript, Engine,
  World,
}
use fcitx5_vinput.Addon.Engine.Presentation.{
  clear_if, hide_palette_menu, hide_result_menu, dismiss_menus_for_voice_activity, present,
  remember_input_context, reset_palette_menu_state, reset_result_menu_state,
  clear_voice_presentation, update_voice_presentation, compose_live_preedit,
}
use fcitx5_vinput.Addon.Engine.Context.{reload_scene_config}
use fcitx5_vinput.Addon.Engine.Frontend.{
  clear_other, leave_status_ic, hold_session, busy_session, show_busy, ensure_status_sync,
  stop_status_sync_if_idle, enter_busy_state,
}

abbrev pub blocked : Engine → ℕ
blocked e = e.daemon_sync_blocked_until

clear_if-blocked :
    (b : Bool) (ic : Option InputContext) (e : Engine) → blocked (clear_if b ic e) ≡ blocked e
clear_if-blocked true (some ic) e = refl
clear_if-blocked true none e = refl
clear_if-blocked false ic e = refl

dismiss_menus-blocked : (e : Engine) → blocked (dismiss_menus_for_voice_activity e) ≡ blocked e
unfolding dismiss_menus_for_voice_activity hide_palette_menu hide_result_menu
    reset_palette_menu_state reset_result_menu_state
dismiss_menus-blocked e =
    let d = hide_palette_menu e in
    clear_if-blocked d.result_menu_visible d.result_menu_ic (reset_result_menu_state d)
    ∙ clear_if-blocked e.palette_menu_visible e.palette_menu_ic (reset_palette_menu_state e)

present-blocked :
    (ic : Option InputContext) (m n : Message) (e : Engine) → blocked (present ic m n e) ≡ blocked e
unfolding present
present-blocked none m n e = refl
present-blocked (some ic) m n e = dismiss_menus-blocked e

clear_other-blocked :
    (other : Option InputContext) (ic : InputContext) (e : Engine)
    → blocked (clear_other other ic e) ≡ blocked e
unfolding clear_voice_presentation update_voice_presentation
clear_other-blocked none ic e = refl
clear_other-blocked (some other) ic e = ground (arith, present-blocked (some other) blank blank e)

show_busy-blocked :
    (s : Session) (preedit : Message) (is_post : Bool) (e : Engine)
    → blocked (show_busy s preedit is_post e) ≡ blocked e
unfolding show_busy update_voice_presentation
show_busy-blocked s preedit is_post e =
    let shown : Message → Message → Engine = λ m n. present (some s.ic) m n e in
    let m = if s.command_mode then applying_command else preedit in
    let n =
      if s.command_mode
      then command_transcript s.transcript_text
      else transcript s.transcript_text in
    let live = compose_live_preedit s.transcript_text preedit in
    let b = is_post && not (str_empty s.transcript_text) in
    if_both (λ d. blocked d ≡ blocked e) (not s.raw_prev) (shown preedit blank)
      (if b then shown m n else shown live blank) (λ h. present-blocked (some s.ic) preedit blank e)
      (λ h.
        if_both (λ d. blocked d ≡ blocked e) b (shown m n) (shown live blank)
          (λ k. present-blocked (some s.ic) m n e) (λ k. present-blocked (some s.ic) live blank e))

ensure_status_sync-blocked : (e : Engine) → blocked (ensure_status_sync e) ≡ blocked e
unfolding ensure_status_sync stop_status_sync_if_idle
ensure_status_sync-blocked e = ground arith

pub enter_busy-blocked :
    (now : ℕ) (ic : InputContext) (command_mode : Bool) (preedit : Message)
    (is_post raw_prev : Bool) (e : Engine)
    → blocked (enter_busy_state now ic command_mode preedit is_post raw_prev e) ≡ blocked e
unfolding enter_busy_state hold_session leave_status_ic remember_input_context
enter_busy-blocked now ic command_mode preedit is_post raw_prev e =
    let d = remember_input_context (some ic) e in
    let e1 = leave_status_ic ic d in
    let s = busy_session now ic command_mode is_post raw_prev e1 in
    let e2 = hold_session s e1 in
    ensure_status_sync-blocked (show_busy s preedit is_post e2)
    ∙ show_busy-blocked s preedit is_post e2
    ∙ clear_other-blocked e.status_ic ic d

pub reload_scene_config-blocked :
    {P : Platform} (w : World P) (e : Engine) → blocked (reload_scene_config w e) ≡ blocked e
unfolding reload_scene_config
reload_scene_config-blocked w e = ground arith
