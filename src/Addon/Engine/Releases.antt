-- ===== src/Addon/Engine/Releases.antt =====
-- VinputEngine: the release of a hotkey in handleKeyEvent (src/addon/input/vinput_keyevent.cpp).
use fcitx5_vinput.Base.{
  ℕ, Bool, true, false, not, ◌&&◌, Option, none, some, if◌then◌else◌, ◌==◌, ◌-◌, ltb,
}
use fcitx5_vinput.Config.Types.{Platform}
use fcitx5_vinput.Addon.Engine.{
  InputContext, Key, Session, HotkeyRole, no_role, TriggerMode, tap, hold, both, Engine, World,
  tap_max_hold_duration,
}
use fcitx5_vinput.Addon.Engine.Frontend.{cancel_pending_start}
use fcitx5_vinput.Addon.Engine.Daemon.{start_voice_recording, has_none}
use fcitx5_vinput.Addon.Engine.Keyboard.{
  is_voice_role, is_command_role, same_role, with_session, schedule_if_recording,
  toggle_command_palette,
}

module _ {P : Platform} (w : World P) where
  -- Part 6: the release of a trigger or command key that was held.
  abbrev pub tap_or_hold : TriggerMode → InputContext → HotkeyRole → Key → Engine → Engine
  tap_or_hold hold ic role matched e = schedule_if_recording e
  tap_or_hold tap ic role matched e =
      let started = start_voice_recording w ic matched (is_command_role role) e in
      if has_none e.session
      then with_session
          (λ s. record s { press_time = w.now; trigger_released = true; stop_on_release = false })
          started
      else schedule_if_recording e
  tap_or_hold both ic role matched e =
      if ltb (w.now - e.held_press_time) tap_max_hold_duration
      then with_session (λ s. record s { trigger_released = true; stop_on_release = false }) e
      else schedule_if_recording e

  unfoldable pub release_held : InputContext → HotkeyRole → Key → Engine → Engine
  release_held ic role matched e =
      if is_voice_role role
      then tap_or_hold e.trigger_mode ic role matched e
      else if has_none e.session
      then toggle_command_palette w ic e
      else e

  abbrev pub release_of : Option Session → Key → Engine → Engine
  release_of none matched e = e
  release_of (some s) matched e =
      let e1 : Engine = record e { session = some (record s { trigger_released = true }) } in
      if not (s.trigger == matched)
      then e
      else if s.stop_on_release
      then schedule_if_recording e1
      else e1

  -- "Release during active recording"
  unfoldable pub release_session : Key → Engine → Engine
  release_session matched e = release_of e.session matched e

  unfoldable pub matches_held : HotkeyRole → ℕ → Engine → Bool
  matches_held role sym e = elim e.held_key_sym [
    | none ↦ false
    | some held ↦ same_role e.held_role role && (held == sym)
  ]

  unfoldable pub on_release : InputContext → ℕ → HotkeyRole → Key → Engine → Engine
  on_release ic sym role matched e =
      let e1 : Engine = record e { held_role = no_role; held_key_sym = none } in
      if not (matches_held role sym e)
      then release_session matched e
      else if e1.chord_interrupted
      then cancel_pending_start (record e1 { chord_interrupted = false })
      else release_session matched (release_held ic role matched e1)
