-- ===== src/Addon/Panel.antt =====
-- The items of the command palette (src/addon/menu/palette_command.h), without the texts that only
-- the panel shows, and what fcitx answers of a candidate list and of the symbol of a key.
use fcitx5_vinput.Base.{ℕ, String, Bool, List, Option}

pub data PaletteCategory : Type 0 where
  asr_category scene_category command_model_category adapter_category custom_category :
      PaletteCategory

pub record PaletteItem : Type 0 where
  pub category : PaletteCategory
  pub provider_id : String
  pub model_id : String
  pub scene_id : String
  pub adapter_id : String
  pub adapter_running : Bool
  pub is_command_entry : Bool
  pub command_token : List ℕ

-- `index_at` is the number that the candidate word in a place of the page was made with, and
-- `cursor_index` is none for -1. A movable list is one that `toCursorMovable` answers.
pub record CandidateList : Type 0 where
  pub is_empty_list : Bool
  pub size : ℕ
  pub index_at : ℕ → ℕ
  pub cursor_index : Option ℕ
  pub is_movable : Bool

-- FcitxKeySym, as far as it is named.
pub data Symbol : Type 0 where
  escape return_key kp_enter up down back_space page_up kp_page_up page_down kp_page_down : Symbol
