-- ===== src/Addon/Engine/Palette.antt =====
-- VinputEngine: the command palette and what a choice in a menu does
-- (src/addon/menu/vinput_menu.cpp), with the synchronous calls of the daemon
-- (src/addon/dbus/vinput_dbus.cpp) and SetPreferredLocalModel
-- (src/common/config/core_config_resolve.cpp), in a build with local recognition.
use fcitx5_vinput.Base.{
  ℕ, zero, suc, String, Bool, true, false, not, ◌&&◌, ◌||◌, List, [], ◌∷◌, ◌++◌, Option, none, some,
  if◌then◌else◌, ltb, leb, str_eq, str_empty,
}
use fcitx5_vinput.Config.Types.{
  Platform, CoreConfig, LocalAsrProvider, AsrProvider, local_asr, command_asr,
}
use fcitx5_vinput.Config.View.{preferred_local_asr_provider}
use fcitx5_vinput.Runtime.Pipeline.{Candidate}
use fcitx5_vinput.Addon.Panel.{
  PaletteCategory, asr_category, scene_category, command_model_category, adapter_category,
  custom_category, PaletteItem,
}
use fcitx5_vinput.Addon.Engine.{
  InputContext, Effect, show_palette, delete_selection, commit, save_command_model, save_asr,
  save_scene, query_status_call, reload_asr_call, start_adapter_call, stop_adapter_call, notify,
  Engine, World, emit,
}
use fcitx5_vinput.Addon.Engine.Presentation.{hide_palette_menu, hide_result_menu}
use fcitx5_vinput.Addon.Engine.PaletteItems.{reload_palette_items}
use fcitx5_vinput.Addon.Engine.Context.{append_context_entry, suppress_next_commit_context}
use fcitx5_vinput.Addon.Engine.Daemon.{
  daemon_sync_allowed, note_daemon_sync_failure, clear_daemon_sync_failure, has_selection,
}
use fcitx5_vinput.Addon.Engine.Results.{source_llm}

-- `(c & 0xC0) == 0x80`
abbrev is_continuation : ℕ → Bool
is_continuation c = leb 128 c && ltb c 192

-- The bytes from the last one on, without the last character.
abbrev drop_character : List ℕ → List ℕ
drop_character [] = []
drop_character (c ∷ cs) = let rest = drop_character cs in if is_continuation c then rest else cs

abbrev reversed_onto : List ℕ → List ℕ → List ℕ
reversed_onto [] after = after
reversed_onto (c ∷ cs) after = reversed_onto cs (c ∷ after)

unfoldable pub pop_last_utf8_char : List ℕ → List ℕ
pop_last_utf8_char text = reversed_onto (drop_character (reversed_onto text [])) []

abbrev pub entry_at {ℓ} : {A : Type ℓ} → List A → ℕ → Option A
entry_at [] i = none
entry_at (a ∷ as') zero = some a
entry_at (a ∷ as') (suc i) = entry_at as' i

abbrev or_given : Option InputContext → InputContext → InputContext
or_given none ic = ic
or_given (some shown) ic = shown

-- The panel is made anew of the items and of the query.
unfoldable pub rebuild_palette_menu : InputContext → Engine → Engine
rebuild_palette_menu ic e = emit (show_palette ic e.palette_query) e

-- Puts the model into the first local provider with the id, if there is one.
unfoldable pub set_local_model : (id model : String) → List AsrProvider → Option (List AsrProvider)
set_local_model id model [] = none
set_local_model id model (local_asr l ∷ ps) =
    let rest = set_local_model id model ps in
    if str_eq l.id id
    then some (local_asr (record l { model = model }) ∷ ps)
    else elim rest [ none ↦ none | some qs ↦ some (local_asr l ∷ qs) ]
set_local_model id model (command_asr c ∷ ps) = elim (set_local_model id model ps) [
  | none ↦ none
  | some qs ↦ some (command_asr c ∷ qs)
]

module _ {P : Platform} (w : World P) where
  abbrev pub set_model_of : Option LocalAsrProvider → String → CoreConfig P → Option (CoreConfig P)
  set_model_of none model c = none
  set_model_of (some p) model c = elim (set_local_model p.id model c.asr.providers) [
    | none ↦ none
    | some ps ↦ some (record c { asr = record (c.asr) { providers = ps } })
  ]

  -- `none` where the function fails.
  unfoldable pub set_preferred_local_model : String → CoreConfig P → Option (CoreConfig P)
  set_preferred_local_model model c = set_model_of (preferred_local_asr_provider P c) model c

  abbrev is_set : Option (CoreConfig P) → Bool
  is_set none = false
  is_set (some c) = true

  -- Whether the configuration takes the provider and the model of an item.
  unfoldable pub takes_asr : PaletteItem → Bool
  takes_asr item =
      let c : CoreConfig P = record (w.core_config) {
        asr = record (w.core_config.asr) { active_provider = item.provider_id };
      } in
      str_empty item.model_id || is_set (set_preferred_local_model item.model_id c)

  abbrev pub queried : Option String → Engine → Engine × String
  queried none e = (note_daemon_sync_failure w.now e, "")
  queried (some status) e =
      (record (clear_daemon_sync_failure e) { last_known_daemon_status = status }, status)

  unfoldable pub query_daemon_status : Engine → Engine × String
  query_daemon_status e =
      if not w.has_bus || not (daemon_sync_allowed w.now e)
      then (e, "")
      else queried w.status_answer (emit query_status_call e)

  -- The Boolean is the result of the source's function.
  unfoldable pub call_sync_rpc : Effect → Engine → Engine × Bool
  call_sync_rpc call e =
      let e1 = emit call e in
      if not w.has_bus || not (daemon_sync_allowed w.now e)
      then (note_daemon_sync_failure w.now e, false)
      else if w.answers
      then (clear_daemon_sync_failure e1, true)
      else (note_daemon_sync_failure w.now e1, false)

  abbrev pub notified : Engine × Bool → Engine
  notified (e, ok) = emit (notify (not ok)) e

  -- The end of the choice of a provider, when the daemon's status is known.
  abbrev pub reload_if_running : Engine × String → Engine
  reload_if_running (e, status) =
      if not (str_empty status)
      then notified (call_sync_rpc reload_asr_call e)
      else emit (notify false) e

  unfoldable pub select_asr : PaletteItem → Engine → Engine
  select_asr item e =
      let saved = emit (save_asr item.provider_id item.model_id) e in
      if not (takes_asr item)
      then emit (notify true) e
      else if not w.saves
      then emit (notify true) e
      else reload_if_running (query_daemon_status saved)

  unfoldable pub select_scene : PaletteItem → Engine → Engine
  select_scene item e =
      if not w.saves
      then emit (notify true) e
      else emit (notify false)
          (emit (save_scene item.scene_id) (record e { active_scene_id = item.scene_id }))

  unfoldable pub select_command_model : PaletteItem → Engine → Engine
  select_command_model item e =
      if not w.saves
      then emit (notify true) e
      else emit (notify false) (emit (save_command_model item.provider_id item.model_id) e)

  unfoldable pub select_adapter : PaletteItem → Engine → Engine
  select_adapter item e = notified (
      call_sync_rpc
        (if item.adapter_running
          then stop_adapter_call item.adapter_id
          else start_adapter_call item.adapter_id)
        e)

  -- The `onSelect` of the command that is registered for a category.
  abbrev pub on_select : PaletteCategory → PaletteItem → Engine → Engine
  on_select asr_category item e = select_asr item e
  on_select scene_category item e = select_scene item e
  on_select command_model_category item e = select_command_model item e
  on_select adapter_category item e = select_adapter item e
  on_select custom_category item e = e

  abbrev pub take_item : Option PaletteItem → InputContext → Engine → Engine
  take_item none ic e = hide_palette_menu e
  take_item (some item) ic e =
      let e1 : Engine = record e { palette_query = 47 ∷ item.command_token ++ 32 ∷ [] } in
      if item.is_command_entry
      then rebuild_palette_menu (or_given e.palette_menu_ic ic) e1
      else on_select item.category item (hide_palette_menu e)

  unfoldable pub select_palette_item : ℕ → InputContext → Engine → Engine
  select_palette_item index ic e = take_item (entry_at e.palette_items index) ic e

  unfoldable pub show_palette_menu : InputContext → Engine → Engine
  show_palette_menu ic e = rebuild_palette_menu ic (record (reload_palette_items w e) {
    palette_menu_ic = some ic;
    palette_menu_visible = true;
    palette_query = [];
  })

  -- The part of selectResultCandidate that is about the result of a command.
  unfoldable pub replace_selection : InputContext → Engine → Engine
  replace_selection ic e =
      let e1 = if has_selection w.surrounding then emit (delete_selection ic) e else e in
      if e.result_is_command then record e1 { result_is_command = false } else e

  abbrev pub take_candidate : Option Candidate → InputContext → Engine → Engine
  take_candidate none ic e = hide_result_menu e
  take_candidate (some c) ic e =
      let e1 = hide_result_menu e in
      let e2 =
        if str_eq c.source source_llm then append_context_entry c.text source_llm e1 else e1 in
      emit (commit ic c.text) (replace_selection ic (suppress_next_commit_context c.text e2))

  unfoldable pub select_result_candidate : ℕ → InputContext → Engine → Engine
  select_result_candidate index ic e = take_candidate (entry_at e.result_candidates index) ic e
