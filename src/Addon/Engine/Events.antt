-- ===== src/Addon/Engine/Events.antt =====
-- VinputEngine: the event handlers that its constructor installs (src/addon/core/vinput.cpp), and
-- one step for each event. `pending_start_ic_` is never set, so its tests fail. The lifetime token
-- is alive: a destroyed engine takes no event.
use fcitx5_vinput.Base.{
  ℕ, String, Bool, true, false, not, List, [], ◌∷◌, Option, none, some, if◌then◌else◌, ◌==◌,
}
use fcitx5_vinput.Config.Types.{Platform}
use fcitx5_vinput.Runtime.Pipeline.{Payload}
use fcitx5_vinput.Addon.Engine.{
  InputContext, Key, TriggerMode, Phase, pending_start, recording, inferring, postprocessing,
  Session, no_role, Engine, World, Keys, KeyEvent,
}
use fcitx5_vinput.Addon.Engine.Presentation.{
  same_ic, remember_input_context, reset_palette_menu_state, reset_result_menu_state,
}
use fcitx5_vinput.Addon.Engine.Context.{flush_context_buffer, on_commit_string, reload_scene_config}
use fcitx5_vinput.Addon.Engine.Frontend.{stop_status_sync_if_idle}
use fcitx5_vinput.Addon.Engine.Daemon.{call_cancel_operation, finish_stop_recording}
use fcitx5_vinput.Addon.Engine.Replies.{
  Reply, on_start_reply, on_stop_reply, on_status_reply, on_status_timer, on_status_changed,
}
use fcitx5_vinput.Addon.Engine.Results.{handle_recognition_partial, on_recognition_result}
use fcitx5_vinput.Addon.Engine.PaletteItems.{reload_palette_items}
use fcitx5_vinput.Addon.Engine.Palette.{select_palette_item, select_result_candidate}
use fcitx5_vinput.Addon.Engine.Keyboard.{discard_session}
use fcitx5_vinput.Addon.Engine.KeyEvents.{handle_key_event}

-- The settings that applySettings copies.
pub record Settings : Type 0 where
  pub trigger_keys : List Key
  pub command_keys : List Key
  pub menu_keys : List Key
  pub page_prev_keys : List Key
  pub page_next_keys : List Key
  pub trigger_mode : TriggerMode

pub data Event : Type 0 where
  key_event : KeyEvent → Event
  -- a candidate of a menu that the panel selects itself
  result_chosen palette_chosen : ℕ → InputContext → Event
  created destroyed focus_out : InputContext → Event
  committed : String → InputContext → Event
  settings_applied : Settings → Event
  stop_timer status_timer context_timer : Event
  start_reply stop_reply status_reply : Reply → Event
  status_changed : String → Event
  recognition_partial : String → Event
  recognition_result : Payload → Event

abbrev pub clears : Bool → (Engine → Engine) → Engine → Engine
clears true f e = f e
clears false f e = e

module _ {P : Platform} (w : World P) where
  -- callCancelOperation, except while the daemon infers.
  abbrev pub cancels_at : Phase → Engine → Engine
  cancels_at inferring e = e
  cancels_at pending_start e = call_cancel_operation w false e
  cancels_at recording e = call_cancel_operation w false e
  cancels_at postprocessing e = call_cancel_operation w false e

  abbrev pub ended : Engine → Engine
  ended e = record e { session = none; polled_idle_since = none }

  abbrev pub end_session_in : Option Session → InputContext → Engine → Engine
  end_session_in none ic e = e
  end_session_in (some s) ic e = if s.ic == ic then ended (cancels_at s.phase e) else e

  -- The part of the handler of InputContextDestroyed that is about the session.
  unfoldable pub end_session_of : InputContext → Engine → Engine
  end_session_of ic e = end_session_in e.session ic e

  abbrev pub end_status_of : InputContext → Engine → Engine
  end_status_of ic e =
      clears (same_ic e.status_ic (some ic))
        (λ d. stop_status_sync_if_idle (record d { status_ic = none })) e

  -- The rest of the handler of InputContextDestroyed.
  unfoldable pub forget_input_context : InputContext → Engine → Engine
  forget_input_context ic e =
      let e1 =
        clears (same_ic e.last_active_ic (some ic)) (λ d. record d { last_active_ic = none }) e in
      let e2 = clears (same_ic e1.palette_menu_ic (some ic)) reset_palette_menu_state e1 in
      let e3 = clears (same_ic e2.result_menu_ic (some ic)) reset_result_menu_state e2 in
      clears (same_ic e3.context_buffer_ic (some ic)) flush_context_buffer e3

  unfoldable pub on_destroyed : InputContext → Engine → Engine
  on_destroyed ic e = forget_input_context ic (end_status_of ic (end_session_of ic e))

  abbrev pub unfocus_in : Option Session → InputContext → Engine → Engine
  unfocus_in none ic e = e
  unfocus_in (some s) ic e =
      if not (s.ic == ic)
      then e
      else if s.stop_on_release
      then record (discard_session w ic e) { chord_interrupted = true }
      else e

  unfoldable pub on_focus_out : InputContext → Engine → Engine
  on_focus_out ic e =
      let e1 : Engine = record e {
        held_key_sym = none;
        held_role = no_role;
        chord_interrupted = true;
      } in
      unfocus_in e1.session ic e1

  unfoldable pub apply_settings : Settings → Engine → Engine
  apply_settings s e = reload_palette_items w (
      reload_scene_config w (record e {
        trigger_keys = s.trigger_keys;
        command_keys = s.command_keys;
        menu_keys = s.menu_keys;
        page_prev_keys = s.page_prev_keys;
        page_next_keys = s.page_next_keys;
        trigger_mode = s.trigger_mode;
      }))

  unfoldable pub on_stop_timer : Engine → Engine
  on_stop_timer e =
      if e.pending_stop_armed
      then finish_stop_recording w (record e { pending_stop_armed = false })
      else e

  unfoldable pub on_context_timer : Engine → Engine
  on_context_timer e =
      if e.context_flush_armed
      then flush_context_buffer (record e { context_flush_armed = false })
      else e

  unfoldable pub react : Keys → Event → Engine → Engine
  react K (key_event k) e = (handle_key_event w K k e).0
  react K (result_chosen index ic) e = select_result_candidate w index ic e
  react K (palette_chosen index ic) e = select_palette_item w index ic e
  react K (created ic) e = remember_input_context (some ic) e
  react K (destroyed ic) e = on_destroyed ic e
  react K (focus_out ic) e = on_focus_out ic e
  react K (committed text ic) e = on_commit_string w text (some ic) e
  react K (settings_applied s) e = apply_settings s e
  react K stop_timer e = on_stop_timer e
  react K status_timer e = on_status_timer w e
  react K context_timer e = on_context_timer e
  react K (start_reply r) e = on_start_reply w r e
  react K (stop_reply r) e = on_stop_reply w r e
  react K (status_reply r) e = on_status_reply w r e
  react K (status_changed status) e = on_status_changed w status e
  react K (recognition_partial text) e = handle_recognition_partial w text e
  react K (recognition_result payload) e = on_recognition_result w payload e

-- A run, each event with what the outside answers during it.
unfoldable pub react_all : {P : Platform} → Keys → List (World P × Event) → Engine → Engine
react_all K [] e = e
react_all K ((w, x) ∷ xs) e = react_all K xs (react w K x e)
