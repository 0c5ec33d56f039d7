-- ===== src/Addon/Engine/Consistency/Menus.antt =====
-- VinputEngine: the key handlers of the menus, on the fields that agree with each other.
use fcitx5_vinput.Base.{
  ℕ, String, ◌≡◌, refl, ◌∙◌, Bool, not, Option, none, some, if◌then◌else◌, if_both, arith, str_eq,
}
use fcitx5_vinput.Config.Types.{Platform}
use fcitx5_vinput.Runtime.Pipeline.{Candidate}
use fcitx5_vinput.Addon.Panel.{
  PaletteCategory, asr_category, scene_category, command_model_category, adapter_category,
  custom_category, PaletteItem,
}
use fcitx5_vinput.Addon.Engine.{
  InputContext, Effect, reload_asr_call, start_adapter_call, stop_adapter_call, save_asr,
  query_status_call, Engine, World, Keys, KeyEvent, emit,
}
use fcitx5_vinput.Addon.Engine.Presentation.{hide_palette_menu, hide_result_menu}
use fcitx5_vinput.Addon.Engine.Context.{append_context_entry, suppress_next_commit_context}
use fcitx5_vinput.Addon.Engine.Daemon.{note_daemon_sync_failure, clear_daemon_sync_failure}
use fcitx5_vinput.Addon.Engine.Results.{source_llm}
use fcitx5_vinput.Addon.Engine.MenuKeys.{
  MenuAction, pass, swallow, close, close_and_pass, clear_query, pop_query, turn_page, step_cursor,
  choose, type_query, is_some, result_action, palette_action,
}
use fcitx5_vinput.Addon.Engine.Keyboard.{match_key_list_index}
use fcitx5_vinput.Addon.Engine.Palette.{
  rebuild_palette_menu, entry_at, queried, query_daemon_status, call_sync_rpc, notified,
  reload_if_running, select_asr, select_scene, select_command_model, select_adapter, on_select,
  take_item, select_palette_item, show_palette_menu, replace_selection, take_candidate,
  select_result_candidate,
}
use fcitx5_vinput.Addon.Engine.PaletteItems.{reload_palette_items}
use fcitx5_vinput.Addon.Engine.Menus.{
  do_in_result_menu, result_menu_in, handle_result_menu_key_event, do_in_palette, palette_in,
  handle_palette_menu_key_event,
}
use fcitx5_vinput.Addon.Engine.Invariant.{
  parts, hide_palette_menu-parts, hide_result_menu-parts, append_context_entry-parts,
}

module _ {P : Platform} (w : World P) where
  queried-parts : (o : Option String) (e : Engine) → parts (queried w o e).0 ≡ parts e
  unfolding parts note_daemon_sync_failure clear_daemon_sync_failure
  queried-parts none e = refl
  queried-parts (some status) e = refl

  query_daemon_status-parts : (e : Engine) → parts (query_daemon_status w e).0 ≡ parts e
  unfolding query_daemon_status parts
  query_daemon_status-parts e =
      ground (arith, queried-parts w.status_answer (emit query_status_call e))

  call_sync_rpc-parts : (call : Effect) (e : Engine) → parts (call_sync_rpc w call e).0 ≡ parts e
  unfolding call_sync_rpc note_daemon_sync_failure clear_daemon_sync_failure parts
  call_sync_rpc-parts call e = ground arith

  notified-parts : (r : Engine × Bool) → parts (notified w r) ≡ parts r.0
  unfolding parts
  notified-parts (e, ok) = refl

  reload_if_running-parts : (r : Engine × String) → parts (reload_if_running w r) ≡ parts r.0
  unfolding parts
  reload_if_running-parts (e, status) =
      let call = call_sync_rpc w reload_asr_call e in
      ground (arith, notified-parts call, call_sync_rpc-parts reload_asr_call e)

  select_asr-parts : (item : PaletteItem) (e : Engine) → parts (select_asr w item e) ≡ parts e
  unfolding select_asr parts
  select_asr-parts item e =
      let saved = emit (save_asr item.provider_id item.model_id) e in
      let q = query_daemon_status w saved in
      ground (arith, reload_if_running-parts q, query_daemon_status-parts saved)

  select_adapter-parts :
      (item : PaletteItem) (e : Engine) → parts (select_adapter w item e) ≡ parts e
  unfolding select_adapter
  select_adapter-parts item e =
      let call : Effect =
        if item.adapter_running
        then stop_adapter_call item.adapter_id
        else start_adapter_call item.adapter_id in
      notified-parts (call_sync_rpc w call e) ∙ call_sync_rpc-parts call e

  on_select-parts :
      (c : PaletteCategory) (item : PaletteItem) (e : Engine)
      → parts (on_select w c item e) ≡ parts e
  unfolding select_scene select_command_model parts
  on_select-parts asr_category item e = select_asr-parts item e
  on_select-parts scene_category item e = ground arith
  on_select-parts command_model_category item e = ground arith
  on_select-parts adapter_category item e = select_adapter-parts item e
  on_select-parts custom_category item e = refl

  take_item-parts :
      (o : Option PaletteItem) (ic : InputContext) (e : Engine)
      → parts (take_item w o ic e) ≡ parts e
  unfolding rebuild_palette_menu parts
  take_item-parts none ic e = hide_palette_menu-parts e
  take_item-parts (some item) ic e =
      let d = hide_palette_menu e in
      ground (arith, on_select-parts item.category item d, hide_palette_menu-parts e)

  pub select_palette_item-parts :
      (index : ℕ) (ic : InputContext) (e : Engine)
      → parts (select_palette_item w index ic e) ≡ parts e
  unfolding select_palette_item
  select_palette_item-parts index ic e = take_item-parts (entry_at e.palette_items index) ic e

  pub show_palette_menu-parts :
      (ic : InputContext) (e : Engine) → parts (show_palette_menu w ic e) ≡ parts e
  unfolding show_palette_menu rebuild_palette_menu reload_palette_items parts
  show_palette_menu-parts ic e = refl

  replace_selection-parts :
      (ic : InputContext) (e : Engine) → parts (replace_selection w ic e) ≡ parts e
  unfolding replace_selection parts
  replace_selection-parts ic e = ground arith

  take_candidate-parts :
      (o : Option Candidate) (ic : InputContext) (e : Engine)
      → parts (take_candidate w o ic e) ≡ parts e
  unfolding suppress_next_commit_context parts
  take_candidate-parts none ic e = hide_result_menu-parts e
  take_candidate-parts (some c) ic e =
      let e1 = hide_result_menu e in
      let b = str_eq c.source source_llm in
      let e2 = if b then append_context_entry c.text source_llm e1 else e1 in
      let q =
        if_both (λ d. parts d ≡ parts e1) b (append_context_entry c.text source_llm e1) e1
          (λ k. append_context_entry-parts c.text source_llm e1) (λ k. refl) in
      let r = replace_selection-parts ic (suppress_next_commit_context c.text e2) in
      r ∙ q ∙ hide_result_menu-parts e

  pub select_result_candidate-parts :
      (index : ℕ) (ic : InputContext) (e : Engine)
      → parts (select_result_candidate w index ic e) ≡ parts e
  unfolding select_result_candidate
  select_result_candidate-parts index ic e =
      take_candidate-parts (entry_at e.result_candidates index) ic e

  do_in_result_menu-parts :
      (a : MenuAction) (ic : InputContext) (e : Engine)
      → parts (do_in_result_menu w a ic e).0 ≡ parts e
  unfolding parts
  do_in_result_menu-parts pass ic e = refl
  do_in_result_menu-parts swallow ic e = refl
  do_in_result_menu-parts close ic e = hide_result_menu-parts e
  do_in_result_menu-parts close_and_pass ic e = hide_result_menu-parts e
  do_in_result_menu-parts (turn_page is_next) ic e = refl
  do_in_result_menu-parts (step_cursor is_next) ic e = refl
  do_in_result_menu-parts (choose index) ic e = select_result_candidate-parts index ic e
  do_in_result_menu-parts clear_query ic e = refl
  do_in_result_menu-parts pop_query ic e = refl
  do_in_result_menu-parts (type_query text) ic e = refl

  do_in_palette-parts :
      (a : MenuAction) (ic : InputContext) (e : Engine) → parts (do_in_palette w a ic e).0 ≡ parts e
  unfolding rebuild_palette_menu parts
  do_in_palette-parts pass ic e = refl
  do_in_palette-parts swallow ic e = refl
  do_in_palette-parts close ic e = hide_palette_menu-parts e
  do_in_palette-parts close_and_pass ic e = hide_palette_menu-parts e
  do_in_palette-parts (turn_page is_next) ic e = refl
  do_in_palette-parts (step_cursor is_next) ic e = refl
  do_in_palette-parts (choose index) ic e = select_palette_item-parts index ic e
  do_in_palette-parts clear_query ic e = refl
  do_in_palette-parts pop_query ic e = refl
  do_in_palette-parts (type_query text) ic e = refl

  result_menu_in-parts :
      (o : Option InputContext) (K : Keys) (k : KeyEvent) (e : Engine)
      → parts (result_menu_in w o K k e).0 ≡ parts e
  result_menu_in-parts none K k e = refl
  result_menu_in-parts (some ic) K k e =
      do_in_result_menu-parts
        (if not e.result_menu_visible then pass else result_action K w.result_list k e) ic e

  palette_in-parts :
      (o : Option InputContext) (K : Keys) (k : KeyEvent) (e : Engine)
      → parts (palette_in w o K k e).0 ≡ parts e
  palette_in-parts none K k e = refl
  palette_in-parts (some ic) K k e =
      let toggles = is_some (match_key_list_index K k.key e.menu_keys k.is_release) in
      do_in_palette-parts
        (if not e.palette_menu_visible then pass else palette_action K toggles w.palette_list k e)
        ic e

  pub result_menu-parts :
      (K : Keys) (k : KeyEvent) (e : Engine)
      → parts (handle_result_menu_key_event w K k e).0 ≡ parts e
  unfolding handle_result_menu_key_event
  result_menu-parts K k e = result_menu_in-parts e.result_menu_ic K k e

  pub palette-parts :
      (K : Keys) (k : KeyEvent) (e : Engine)
      → parts (handle_palette_menu_key_event w K k e).0 ≡ parts e
  unfolding handle_palette_menu_key_event
  palette-parts K k e = palette_in-parts e.palette_menu_ic K k e
