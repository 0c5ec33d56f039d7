-- ===== src/Addon/Engine/Tests.antt =====
-- VinputEngine on runs: a hotkey that is held while the daemon records, and an input context that
-- is destroyed.
use Prim.Native.Nat.{suc}
use fcitx5_vinput.Base.{
  ℕ, ◌≡◌, refl, Bool, true, false, List, [], ◌∷◌, Option, none, some, if◌then◌else◌, ◌==◌, pos,
}
use fcitx5_vinput.Config.Validate.Tests.{platform, broken}
use fcitx5_vinput.Addon.Panel.{CandidateList}
use fcitx5_vinput.Addon.Engine.{Key, Session, recording, no_role, hold, Engine, World, Keys}
use fcitx5_vinput.Addon.Engine.Events.{
  Event, key_event, status_changed, react, stop_timer, react_all, on_destroyed,
}
use fcitx5_vinput.Addon.Engine.KeyEvents.{offer, handle_in_menus, handle_key_event}
use fcitx5_vinput.Addon.Engine.MenuKeys.{result_action}
use fcitx5_vinput.Addon.Engine.Palette.{select_result_candidate}
use fcitx5_vinput.Addon.Engine.Menus.{handle_result_menu_key_event}
use fcitx5_vinput.Addon.Engine.Presentation.{remember_input_context}
use fcitx5_vinput.Addon.Engine.Keyboard.{is_pending_release, cancel_postprocessing}
use fcitx5_vinput.Addon.Engine.{commit}
use fcitx5_vinput.Addon.Engine.Invariant.{parts, IsConsistent}
use fcitx5_vinput.Addon.Engine.Consistency.Events.{react_all-IsConsistent}
use fcitx5_vinput.Addon.Engine.Destroyed.{IsForgotten, on_destroyed-IsForgotten}
use fcitx5_vinput.Addon.Engine.Stopping.{finish_stop_recording_idem}
use fcitx5_vinput.Addon.Engine.Daemon.{finish_stop_recording}
use fcitx5_vinput.Addon.PollGate.{is_active}
use fcitx5_vinput.Addon.Engine.Replies.{answer, on_status_reply, on_status_changed}
use fcitx5_vinput.Addon.Engine.Stale.{on_status_changed-overtakes}
use fcitx5_vinput.Addon.Engine.{trigger_role, stop_recording_call}
use fcitx5_vinput.Addon.Engine.Daemon.{is_recording}
use fcitx5_vinput.Addon.Engine.Releases.{on_release}
use fcitx5_vinput.Addon.Engine.Events.{on_stop_timer}
use fcitx5_vinput.Addon.Engine.Holding.{newest, loaded_scene_id, on_release-stops}

abbrev find_key : Key → List Key → ℕ → Option ℕ
find_key k [] i = none
find_key k (l ∷ ls) i = if k == l then some i else find_key k ls (suc i)

abbrev keys : Keys
keys = record {
  normalize = λ k. k;
  sym = λ k. k;
  key_list_index = λ k ks. find_key k ks 0;
  is_modifier = λ k. false;
  is_release_of_modifier = λ k l. false;
  check = λ k s. false;
  check_key_list = λ k ks. false;
  has_sym = λ k s. false;
  has_no_states = λ k. true;
  digit_selection = λ k. if k == 49 then some 0 else none;
  utf8 = λ sym. [];
}

abbrev two_results : CandidateList
two_results = record {
  is_empty_list = false;
  size = 2;
  index_at = λ i. i;
  cursor_index = none;
  is_movable = true;
}

abbrev world_at : ℕ → World platform
world_at now = record {
  now = now;
  has_bus = true;
  sends = true;
  core_config = broken;
  surrounding = record { is_valid = false; cursor = 0; anchor = 0; text = "" };
  clipboard = none;
  valid_utf8 = λ s. true;
  characters = λ s from to. s;
  cjk_at_boundary = λ s t. false;
  sentence_terminal = λ s. false;
  result_list = some two_results;
  palette_list = none;
  active_models = [];
  local_models = [];
  is_running = λ id. false;
  saves = true;
  status_answer = none;
  answers = false;
}

abbrev new_engine : Engine
new_engine = record {
  session = none;
  status_ic = none;
  last_active_ic = none;
  palette_menu_ic = none;
  result_menu_ic = none;
  trigger_keys = 7 ∷ [];
  command_keys = 8 ∷ [];
  menu_keys = 9 ∷ [];
  page_prev_keys = [];
  page_next_keys = [];
  held_key_sym = none;
  held_role = no_role;
  chord_interrupted = false;
  held_press_time = 0;
  palette_menu_visible = false;
  result_menu_visible = false;
  result_candidates = [];
  palette_items = [];
  palette_query = [];
  active_scene_id = "";
  scene_config = record { active_scene_id = ""; scenes = [] };
  pending_suppressed_commit_text = none;
  command_selected_text = "";
  context_buffer_text = "";
  context_buffer_ic = none;
  context_flush_armed = false;
  max_context_lines = pos 0;
  result_is_command = false;
  last_trigger_time = 0;
  daemon_sync_blocked_until = 0;
  last_known_daemon_status = "idle";
  polled_idle_since = none;
  pending_postprocessing_release = none;
  status_poll_gate = record { generation = 0; request_id = 0; active = false };
  pending_start_call = false;
  pending_stop_call = false;
  pending_status_call = none;
  pending_stop_armed = false;
  status_sync_armed = false;
  trigger_mode = hold;
  out = [];
}

-- Two results are offered in the input context 3.
abbrev offering_engine : Engine
offering_engine = record new_engine {
  result_menu_ic = some 3;
  result_menu_visible = true;
  result_candidates =
      record { text = "one"; source = "llm" } ∷ record { text = "two"; source = "raw" } ∷ [];
}

offering_engine-IsConsistent : IsConsistent offering_engine
unfolding IsConsistent parts
offering_engine-IsConsistent = ((refl, refl, refl, refl), refl)

abbrev digit_one : Event
digit_one = key_event (record { input_context = 3; key = 49; orig_key = 49; is_release = false })

abbrev trigger : Bool → Event
trigger is_release =
    key_event (record { input_context = 3; key = 7; orig_key = 7; is_release = is_release })

abbrev held_run : List (World platform × Event)
held_run =
    (world_at 9000, digit_one)
    ∷ (world_at 10000, trigger false)
    ∷ (world_at 10100, status_changed "recording")
    ∷ (world_at 10400, trigger true)
    ∷ (world_at 10900, stop_timer)
    ∷ []

-- The digit commits the first result, and its menu is closed.
digit_commits :
    newest (react_all keys ((world_at 9000, digit_one) ∷ []) offering_engine).out
    ≡ some (commit 3 "one")
unfolding react_all react handle_key_event handle_in_menus offer handle_result_menu_key_event
    result_action select_result_candidate remember_input_context is_pending_release
    cancel_postprocessing
digit_commits = refl

react_all-IsConsistent_example : IsConsistent (react_all keys held_run offering_engine)
react_all-IsConsistent_example =
    react_all-IsConsistent keys held_run offering_engine offering_engine-IsConsistent

abbrev listening : Session
listening = record {
  phase = recording;
  ic = 3;
  trigger = 7;
  press_time = 5;
  command_mode = false;
  trigger_released = false;
  raw_prev = true;
  transcript_text = "so far";
  stop_on_release = true;
}

abbrev listening_engine : Engine
listening_engine = record new_engine {
  session = some listening;
  status_ic = some 3;
  last_active_ic = some 3;
  context_buffer_ic = some 3;
  context_buffer_text = "typed";
  max_context_lines = pos 2;
  status_sync_armed = true;
}

listening_engine-IsConsistent : IsConsistent listening_engine
unfolding IsConsistent parts
listening_engine-IsConsistent = ((refl, refl, refl), refl)

on_destroyed-IsForgotten_example : IsForgotten 3 (on_destroyed (world_at 20000) 3 listening_engine)
on_destroyed-IsForgotten_example =
    on_destroyed-IsForgotten (world_at 20000) 3 listening_engine listening_engine-IsConsistent

finish_stop_recording_idem_example :
    finish_stop_recording (world_at 20500) (finish_stop_recording (world_at 20000) listening_engine)
    ≡ finish_stop_recording (world_at 20000) listening_engine
finish_stop_recording_idem_example =
    finish_stop_recording_idem (world_at 20000) (world_at 20500) listening_engine

-- A poll of the current generation is pending.
abbrev polling_engine : Engine
polling_engine = record listening_engine {
  status_poll_gate = record { generation = 4; request_id = 2; active = true };
  pending_status_call = some (record { id = 2; generation = 4 });
}

polling_engine-IsConsistent : IsConsistent polling_engine
unfolding IsConsistent parts is_active
polling_engine-IsConsistent = ((refl, refl, refl), refl)

abbrev signalled_engine : Engine
signalled_engine = on_status_changed (world_at 20100) "inferring" polling_engine

on_status_changed-overtakes_example :
    on_status_reply (world_at 20200) (answer "idle") signalled_engine ≡ record signalled_engine {
      pending_status_call = none;
      status_poll_gate = record (signalled_engine.status_poll_gate) { active = false };
    }
on_status_changed-overtakes_example =
    on_status_changed-overtakes (world_at 20100) "inferring" (world_at 20200) (answer "idle")
      polling_engine polling_engine-IsConsistent refl

on_release-stops_example :
    let e =
      on_stop_timer
        (world_at 20900)
        (on_release (world_at 20400) 3 7 trigger_role 7 listening_engine) in
    (newest e.out ≡ some (stop_recording_call (loaded_scene_id (world_at 20900))))
    × (is_recording e.session ≡ false)
unfolding is_recording
on_release-stops_example =
    on_release-stops (world_at 20400) (world_at 20900) listening 3 7 trigger_role 7 listening_engine
      listening_engine-IsConsistent refl refl refl refl refl refl refl refl
