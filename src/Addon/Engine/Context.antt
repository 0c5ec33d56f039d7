-- ===== src/Addon/Engine/Context.antt =====
-- VinputEngine: the buffer of committed text that becomes context (src/addon/core/vinput.cpp), and
-- reloadSceneConfig, which may empty it. The writer's queue takes what `write_context` says.
use Prim.Native.String
use fcitx5_vinput.Base.{
  String, Bool, true, false, not, ◌&&◌, ◌||◌, List, [], ◌∷◌, Option, none, some, if◌then◌else◌,
  str_eq, str_empty, ℤ, pos, ltz, lez,
}
use fcitx5_vinput.Scene
use fcitx5_vinput.Config.Types.{Platform}
use fcitx5_vinput.Addon.Engine.{InputContext, Engine, World, write_context, emit}
use fcitx5_vinput.Addon.Engine.Presentation.{same_ic}

-- The part of appendContextEntry that queues the entry.
abbrev pub queue_entry : String → String → Engine → Engine
queue_entry text source e = emit (write_context text source) e

-- appendContextEntry with kContextSourceUser, which flushes nothing.
unfoldable pub append_user_entry : String → Engine → Engine
append_user_entry text e =
    if lez e.max_context_lines (pos 0) || str_empty text then e else queue_entry text "user" e

unfoldable pub flush_context_buffer : Engine → Engine
flush_context_buffer e =
    let e1 : Engine = record e { context_buffer_ic = none } in
    if str_empty e.context_buffer_text
    then e1
    else record (append_user_entry e.context_buffer_text e1) {
      context_buffer_text = "";
      context_flush_armed = false;
    }

-- appendContextEntry with another source.
unfoldable pub append_context_entry : String → String → Engine → Engine
append_context_entry text source e =
    if lez e.max_context_lines (pos 0) || str_empty text
    then e
    else queue_entry text source
        (if str_empty e.context_buffer_text then e else flush_context_buffer e)

unfoldable pub suppress_next_commit_context : String → Engine → Engine
suppress_next_commit_context text e = record e {
  pending_suppressed_commit_text = if str_empty text then none else some text;
}

abbrev pub is_suppressed : Option String → String → Bool
is_suppressed none text = false
is_suppressed (some t) text = str_eq t text

-- `text.back() == ' '`
unfoldable pub ends_with_space : String → Bool
ends_with_space String.[] = false
ends_with_space (String.◌∷◌ c String.[]) = str_eq (String.◌∷◌ c String.[]) " "
ends_with_space (String.◌∷◌ c (String.◌∷◌ d s)) = ends_with_space (String.◌∷◌ d s)

-- The largest number of context lines of the scenes.
unfoldable pub max_lines : ℤ → List Scene.Definition → ℤ
max_lines m [] = m
max_lines m (d ∷ ds) = max_lines (if ltz m d.context_lines then d.context_lines else m) ds

module _ {P : Platform} (w : World P) where
  -- The text of the buffer with `text` at its end.
  unfoldable pub joined : String → String → String
  joined buffer text =
      if str_empty buffer
      then text
      else if not (w.cjk_at_boundary buffer text) && not (ends_with_space buffer)
      then String.◌++◌ buffer (String.◌++◌ " " text)
      else String.◌++◌ buffer text

  unfoldable pub accumulate_context_buffer : String → Option InputContext → Engine → Engine
  accumulate_context_buffer text ic e =
      let e1 =
        if not (same_ic ic e.context_buffer_ic) && not (str_empty e.context_buffer_text)
        then flush_context_buffer e
        else e in
      let e2 : Engine = record e1 {
        context_buffer_ic = ic;
        context_buffer_text = joined e1.context_buffer_text text;
      } in
      if w.sentence_terminal e2.context_buffer_text
      then flush_context_buffer e2
      else record e2 { context_flush_armed = true }

  unfoldable pub on_commit_string : String → Option InputContext → Engine → Engine
  on_commit_string text ic e =
      let e1 : Engine = record e { pending_suppressed_commit_text = none } in
      let rest = accumulate_context_buffer text ic e1 in
      if lez e.max_context_lines (pos 0) || str_empty text
      then e1
      else if is_suppressed e.pending_suppressed_commit_text text
      then e1
      else rest

  unfoldable pub reload_scene_config : Engine → Engine
  reload_scene_config e =
      let lines = max_lines (pos 0) w.core_config.scenes in
      let e1 : Engine = record e {
        scene_config = record {
          active_scene_id = w.core_config.active_scene;
          scenes = w.core_config.scenes;
        };
        active_scene_id = w.core_config.active_scene;
        max_context_lines = lines;
      } in
      if lez lines (pos 0)
      then record e1 {
        context_buffer_text = "";
        context_buffer_ic = none;
        context_flush_armed = false;
      }
      else e1
