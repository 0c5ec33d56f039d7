-- ===== src/Addon/Engine/Keyboard.antt =====
-- VinputEngine: handleKeyEvent (src/addon/input/vinput_keyevent.cpp). The methods of `fcitx::Key`
-- are parameters. The Boolean of a result says whether the event is filtered and accepted.
use fcitx5_vinput.Base.{
  ℕ, zero, suc, Bool, true, false, not, ◌&&◌, ◌||◌, List, [], ◌∷◌, Option, none, some,
  if◌then◌else◌, ◌==◌, ◌-◌, ltb, str_eq,
}
use fcitx5_vinput.Config.Types.{Platform}
use fcitx5_vinput.Addon.Panel.{escape, return_key, kp_enter}
use fcitx5_vinput.Addon.Engine.{
  InputContext, Key, no_key, Phase, pending_start, recording, inferring, postprocessing, Session,
  HotkeyRole, no_role, menu_role, trigger_role, command_role, TriggerMode, tap, hold, both, Engine,
  World, Keys, KeyEvent, trigger_debounce, status_postprocessing,
}
use fcitx5_vinput.Addon.Engine.Presentation.{
  hide_palette_menu, dismiss_menus_for_voice_activity, clear_voice_presentation,
}
use fcitx5_vinput.Addon.Engine.Palette.{show_palette_menu}
use fcitx5_vinput.Addon.Engine.Frontend.{
  cancel_pending_stop, cancel_pending_start, schedule_stop_recording, finish_frontend_session,
}
use fcitx5_vinput.Addon.Engine.Daemon.{
  call_cancel_operation, finish_stop_recording, start_voice_recording, is_recording, has_none,
}

abbrev pub Handled : Type 0
Handled = Engine × Bool

-- `none` for -1.
unfoldable pub release_index : Keys → Key → List Key → Option ℕ
release_index K key [] = none
release_index K key (k ∷ ks) =
    let rest = release_index K key ks in
    if K.is_release_of_modifier key k
    then some 0
    else elim rest [ none ↦ none | some i ↦ some (suc i) ]

unfoldable pub match_key_list_index : Keys → Key → List Key → Bool → Option ℕ
match_key_list_index K key ks is_release = elim (K.key_list_index key ks) [
  | some i ↦ some i
  | none ↦ if is_release && K.is_modifier key then release_index K key ks else none
]

-- `list[i]`, which the caller only asks for an index of the list.
abbrev pub key_at : List Key → ℕ → Key
key_at [] i = no_key
key_at (k ∷ ks) zero = k
key_at (k ∷ ks) (suc i) = key_at ks i

-- The role of a key, and the key of the settings that it matches.
unfoldable pub classify : Keys → Key → Bool → Engine → HotkeyRole × Key
classify K key is_release e = elim (match_key_list_index K key e.trigger_keys is_release) [
  | some i ↦ (trigger_role, key_at e.trigger_keys i)
  | none ↦ elim (match_key_list_index K key e.command_keys is_release) [
    | some i ↦ (command_role, key_at e.command_keys i)
    | none ↦ elim (match_key_list_index K key e.menu_keys is_release) [
      | some i ↦ (menu_role, key_at e.menu_keys i)
      | none ↦ (no_role, no_key)
    ]
  ]
]

abbrev pub is_voice_role : HotkeyRole → Bool
is_voice_role no_role = false
is_voice_role menu_role = false
is_voice_role trigger_role = true
is_voice_role command_role = true

abbrev pub is_command_role : HotkeyRole → Bool
is_command_role no_role = false
is_command_role menu_role = false
is_command_role trigger_role = false
is_command_role command_role = true

-- `==` on roles
abbrev pub same_role : HotkeyRole → HotkeyRole → Bool
same_role no_role no_role = true
same_role menu_role menu_role = true
same_role trigger_role trigger_role = true
same_role command_role command_role = true
same_role _ _ = false

abbrev pub update_session : (Session → Session) → Option Session → Option Session
update_session f none = none
update_session f (some s) = some (f s)

unfoldable pub with_session : (Session → Session) → Engine → Engine
with_session f e = record e { session = update_session f e.session }

unfoldable pub is_postprocessing : Option Session → Bool
is_postprocessing none = false
is_postprocessing (some s) = elim s.phase [ postprocessing ↦ true | _ ↦ false ]

-- Recording or PendingStart.
unfoldable pub is_capturing : Session → Bool
is_capturing s = elim s.phase [
  | pending_start ↦ true
  | recording ↦ true
  | inferring ↦ false
  | _ ↦ false
]

unfoldable pub schedule_if_recording : Engine → Engine
schedule_if_recording e = if is_recording e.session then schedule_stop_recording e else e

module _ {P : Platform} (w : World P) where
  unfoldable pub toggle_command_palette : InputContext → Engine → Engine
  toggle_command_palette ic e =
      if e.palette_menu_visible
      then hide_palette_menu e
      else if not (has_none e.session)
      then e
      else show_palette_menu w ic e

  -- callCancelOperation(false), finishFrontendSession and clearVoicePresentation.
  unfoldable pub discard_session : InputContext → Engine → Engine
  discard_session ic e =
      clear_voice_presentation (some ic)
        (finish_frontend_session (some ic) (call_cancel_operation w false e))

  -- Part 1, after the release of the key that cancelled; `none` where the event goes on.
  abbrev pub cancel_of : Option Session → Keys → KeyEvent → Engine → Option Engine
  cancel_of none K event e = none
  cancel_of (some s) K event e =
      let commit_raw =
        s.raw_prev
        && not s.command_mode
        && (K.check event.key return_key || K.check event.key kp_enter) in
      let cancelled =
        call_cancel_operation w commit_raw
          (record e { pending_postprocessing_release = some event.key }) in
      if not
        (is_postprocessing e.session && str_eq e.last_known_daemon_status status_postprocessing)
      then none
      else if not (K.check event.key escape || commit_raw)
      then none
      else some (if event.is_release then e else cancelled)

  unfoldable pub cancel_postprocessing : Keys → KeyEvent → Engine → Option Engine
  cancel_postprocessing K event e = cancel_of e.session K event e

  unfoldable pub is_pending_release : Keys → KeyEvent → Engine → Bool
  is_pending_release K event e = elim e.pending_postprocessing_release [
    | none ↦ false
    | some k ↦ event.is_release && (K.sym (K.normalize event.key) == K.sym (K.normalize k))
  ]

  abbrev pub discard_held : Option Session → Engine → Engine
  discard_held none e = e
  discard_held (some s) e =
      if s.stop_on_release && not s.trigger_released then discard_session s.ic e else e

  -- Part 4: a key that is no hotkey.
  unfoldable pub break_chord : Engine → Engine
  break_chord e =
      let e1 : Engine = cancel_pending_start (record e { chord_interrupted = true }) in
      if same_role e.held_role no_role then e else discard_held e1.session e1

  abbrev pub stop_or_discard : Phase → InputContext → Engine → Engine
  stop_or_discard pending_start ic e = discard_session ic e
  stop_or_discard recording ic e = finish_stop_recording w e
  stop_or_discard inferring ic e = finish_stop_recording w e
  stop_or_discard postprocessing ic e = finish_stop_recording w e

  -- Part 5, the recording that is active when a trigger is pressed.
  unfoldable pub press_again : Key → Session → Engine → Engine
  press_again matched s e =
      if not (s.trigger == matched)
      then discard_session s.ic e
      else if not s.trigger_released
      then e
      else stop_or_discard s.phase s.ic e

  abbrev pub starts_on_press : TriggerMode → Bool
  starts_on_press tap = false
  starts_on_press hold = true
  starts_on_press both = true

  unfoldable pub new_press : InputContext → ℕ → HotkeyRole → Key → Engine → Engine
  new_press ic sym role matched e =
      let e1 : Engine = record e {
        held_key_sym = some sym;
        held_role = role;
        chord_interrupted = false;
        held_press_time = w.now;
      } in
      if is_voice_role role && starts_on_press e1.trigger_mode
      then with_session
          (λ s. record s { press_time = w.now; stop_on_release = true; trigger_released = false })
          (start_voice_recording w ic matched (is_command_role role) e1)
      else e1

  -- The recording that `press_again` finds.
  abbrev pub capturing : Option Session → Option Session
  capturing none = none
  capturing (some s) = if is_capturing s then some s else none

  abbrev pub press_in : Option Session → InputContext → ℕ → HotkeyRole → Key → Engine → Engine
  press_in none ic sym role matched e = new_press ic sym role matched e
  press_in (some s) ic sym role matched e = press_again matched s e

  unfoldable pub on_press : InputContext → ℕ → HotkeyRole → Key → Engine → Engine
  on_press ic sym role matched e =
      let since_last = w.now - e.last_trigger_time in
      let e1 : Engine = record e { last_trigger_time = w.now } in
      let e2 = cancel_pending_stop (dismiss_menus_for_voice_activity e1) in
      if not (is_voice_role role)
      then new_press ic sym role matched e
      else if ltb since_last trigger_debounce
      then e1
      else press_in (capturing e2.session) ic sym role matched e2
