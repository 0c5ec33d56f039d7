-- ===== src/Addon/Engine.antt =====
-- VinputEngine (src/addon/core/vinput.h): its state, what it reads from outside, and what it
-- sends. An input context and a key are numbers that stand for the fcitx objects; time is in
-- milliseconds of the steady clock, read once in each event. `bus_` and `callAsync` are fields of
-- World. `trigger_mode_` is the only copy of the setting, and the start timer, which the program
-- never creates, has no field. The text of the palette's query is its bytes; the indices of the
-- items that pass its filter are not kept, since only the candidate list is made of them.
pub mod Presentation
pub mod Context
pub mod Frontend
pub mod Daemon
pub mod Replies
pub mod Results
pub mod MenuKeys
pub mod PaletteItems
pub mod Palette
pub mod Keyboard
pub mod Menus
pub mod Releases
pub mod KeyEvents
pub mod Events
pub mod Invariant
pub mod Consistency
pub mod Stopping
pub mod Stale
pub mod Throttle
pub mod Holding
pub mod Destroyed
pub mod Tests
use fcitx5_vinput.Base.{
  ℕ, String, Bool, false, ◌&&◌, List, [], ◌∷◌, Option, none, some, str_eq, ℤ, pos,
}
use fcitx5_vinput.Scene
use fcitx5_vinput.Config.Types.{Platform, CoreConfig}
use fcitx5_vinput.Runtime.Pipeline.{Candidate}
use fcitx5_vinput.Addon.Panel.{PaletteItem, CandidateList, Symbol}
use fcitx5_vinput.Addon.PollGate.{StatusPollGate, Ticket}

abbrev pub InputContext : Type 0
InputContext = ℕ

abbrev pub Key : Type 0
Key = ℕ

-- `fcitx::Key()`
abbrev pub no_key : Key
no_key = 0

pub data Phase : Type 0 where
  pending_start recording inferring postprocessing : Phase

pub record Session : Type 0 where
  pub phase : Phase
  pub ic : InputContext
  pub trigger : Key
  pub press_time : ℕ
  pub command_mode : Bool
  pub trigger_released : Bool
  pub raw_prev : Bool
  pub transcript_text : String
  pub stop_on_release : Bool

pub data HotkeyRole : Type 0 where
  no_role menu_role trigger_role command_role : HotkeyRole

pub data TriggerMode : Type 0 where
  tap hold both : TriggerMode

-- The texts that are shown, before translation and before LimitPreviewText shortens them.
pub data Message : Type 0 where
  blank starting recording_text commanding inferring_text applying_command : Message
  postprocessing_text : (command_mode raw_prev : Bool) → Message
  transcript command_transcript : String → Message
  no_selection command_disabled command_no_provider daemon_unavailable : Message
  daemon_temporarily_unavailable daemon_not_responding : Message
  failure : String → Message

-- What the engine does outside itself.
pub data Effect : Type 0 where
  show : InputContext → (preedit aux_down : Message) → Effect
  clear_menu : InputContext → Effect
  show_palette : InputContext → (query : List ℕ) → Effect
  change_page move_cursor : InputContext → (is_next : Bool) → Effect
  save_command_model save_asr : (provider_id model_id : String) → Effect
  save_scene : String → Effect
  query_status_call reload_asr_call : Effect
  start_adapter_call stop_adapter_call : String → Effect
  notify : (is_error : Bool) → Effect
  show_results : InputContext → List Candidate → Effect
  start_recording_call : Effect
  start_command_call : String → Effect
  stop_recording_call : String → Effect
  cancel_operation_call : Bool → Effect
  get_status_call : Ticket → Effect
  delete_selection : InputContext → Effect
  commit : InputContext → String → Effect
  write_context : (text source : String) → Effect

-- The newest effect comes first in `out`.
pub record Engine : Type 0 where
  pub session : Option Session
  pub status_ic : Option InputContext
  pub last_active_ic : Option InputContext
  pub palette_menu_ic : Option InputContext
  pub result_menu_ic : Option InputContext
  pub trigger_keys : List Key
  pub command_keys : List Key
  pub menu_keys : List Key
  pub page_prev_keys : List Key
  pub page_next_keys : List Key
  pub held_key_sym : Option ℕ
  pub held_role : HotkeyRole
  pub chord_interrupted : Bool
  pub held_press_time : ℕ
  pub palette_menu_visible : Bool
  pub result_menu_visible : Bool
  pub result_candidates : List Candidate
  pub palette_items : List PaletteItem
  pub palette_query : List ℕ
  pub active_scene_id : String
  pub scene_config : Scene.Config
  pub pending_suppressed_commit_text : Option String
  pub command_selected_text : String
  pub context_buffer_text : String
  pub context_buffer_ic : Option InputContext
  pub context_flush_armed : Bool
  pub max_context_lines : ℤ
  pub result_is_command : Bool
  pub last_trigger_time : ℕ
  pub daemon_sync_blocked_until : ℕ
  pub last_known_daemon_status : String
  pub polled_idle_since : Option ℕ
  pub pending_postprocessing_release : Option Key
  pub status_poll_gate : StatusPollGate
  pub pending_start_call : Bool
  pub pending_stop_call : Bool
  pub pending_status_call : Option Ticket
  pub pending_stop_armed : Bool
  pub status_sync_armed : Bool
  pub trigger_mode : TriggerMode
  pub out : List Effect

-- The text around the cursor of an input context.
pub record Surrounding : Type 0 where
  pub is_valid : Bool
  pub cursor : ℕ
  pub anchor : ℕ
  pub text : String

-- What fcitx, the bus, the clock and LoadCoreConfig answer during one event.
pub record World (P : Platform) : Type 0 where
  pub now : ℕ
  pub has_bus : Bool
  -- whether `callAsync` returns a slot
  pub sends : Bool
  pub core_config : CoreConfig P
  pub surrounding : Surrounding
  pub clipboard : Option String
  pub valid_utf8 : String → Bool
  -- the characters of a text from one place up to another
  pub characters : String → ℕ → ℕ → String
  -- IsCjkAtBoundary and EndsWithSentenceTerminal read the Unicode tables
  pub cjk_at_boundary : String → String → Bool
  pub sentence_terminal : String → Bool
  -- the candidate lists of the input contexts of the menus
  pub result_list : Option CandidateList
  pub palette_list : Option CandidateList
  -- LoadActiveModels, the models that are not broken of ModelManager, and which adapters run
  pub active_models : List (String × String)
  pub local_models : List String
  pub is_running : String → Bool
  -- whether SaveCoreConfig writes the file
  pub saves : Bool
  -- the answer to a synchronous GetStatus, and whether another synchronous call is answered
  pub status_answer : Option String
  pub answers : Bool

-- The methods of `fcitx::Key`.
pub record Keys : Type 0 where
  pub normalize : Key → Key
  pub sym : Key → ℕ
  pub key_list_index : Key → List Key → Option ℕ
  pub is_modifier : Key → Bool
  pub is_release_of_modifier : Key → Key → Bool
  pub check : Key → Symbol → Bool
  pub check_key_list : Key → List Key → Bool
  pub has_sym : Key → Symbol → Bool
  pub has_no_states : Key → Bool
  pub digit_selection : Key → Option ℕ
  -- `Key::keySymToUTF8`
  pub utf8 : ℕ → List ℕ

pub record KeyEvent : Type 0 where
  pub input_context : InputContext
  pub key : Key
  pub orig_key : Key
  pub is_release : Bool

abbrev pub emit : Effect → Engine → Engine
emit x e = record e { out = x ∷ e.out }

-- kReleaseDebounce only delays the stop timer; kDbusCallTimeoutMs is kPolledIdleRecoveryDelay.
abbrev pub trigger_debounce : ℕ
trigger_debounce = 80

abbrev pub tap_max_hold_duration : ℕ
tap_max_hold_duration = 200

abbrev pub polled_idle_recovery_delay : ℕ
polled_idle_recovery_delay = 5000

abbrev pub daemon_failure_cooldown : ℕ
daemon_failure_cooldown = 1500

abbrev pub status_idle : String
status_idle = "idle"

abbrev pub status_recording : String
status_recording = "recording"

abbrev pub status_inferring : String
status_inferring = "inferring"

abbrev pub status_postprocessing : String
status_postprocessing = "postprocessing"
