-- ===== src/Addon/Engine/Holding.antt =====
-- VinputEngine: a recording that lasts as long as its key is held, from the release of the key to
-- the call of StopRecording (handleKeyEvent and scheduleStopRecording of
-- src/addon/input/vinput_keyevent.cpp).
use fcitx5_vinput.Base.{
  ℕ, String, ◌≡◌, refl, ◌∙◌, sym, ap, subst, Bool, true, false, not, ◌&&◌, Option, none, some, List,
  [], ◌∷◌, if◌then◌else◌, if_both, ◌==◌, leb, arith,
}
use fcitx5_vinput.Scene.{resolve}
use fcitx5_vinput.Config.Types.{Platform}
use fcitx5_vinput.Addon.Engine.{
  InputContext, Key, no_key, Session, HotkeyRole, no_role, menu_role, trigger_role, command_role,
  hold, inferring_text, Effect, stop_recording_call, Engine, World,
}
use fcitx5_vinput.Addon.Engine.Context.{reload_scene_config}
use fcitx5_vinput.Addon.Engine.Frontend.{
  enter_busy_state, schedule_stop_recording, cancel_pending_start,
}
use fcitx5_vinput.Addon.Engine.Daemon.{
  daemon_sync_allowed, is_recording, has_none, call_stop_recording, finish_stop_of, finish_stop_in,
  finish_stop_recording,
}
use fcitx5_vinput.Addon.Engine.Invariant.{parts, IsHeld, IsConsistent}
use fcitx5_vinput.Addon.Engine.Keyboard.{
  same_role, toggle_command_palette, is_voice_role, schedule_if_recording,
}
use fcitx5_vinput.Addon.Engine.Releases.{
  tap_or_hold, release_held, release_of, release_session, matches_held, on_release,
}
use fcitx5_vinput.Addon.Engine.Events.{on_stop_timer}
use fcitx5_vinput.Addon.Engine.Stopping.{finish_stop_recording-stopped}
use fcitx5_vinput.Addon.Engine.Throttle.{blocked, enter_busy-blocked, reload_scene_config-blocked}

abbrev pub newest : List Effect → Option Effect
newest [] = none
newest (x ∷ xs) = some x

-- The stop timer is armed for a recording.
record IsStopping (b : ℕ) (e : Engine) : Type 0 where
  armed : e.pending_stop_armed ≡ true
  records : is_recording e.session ≡ true
  same : blocked e ≡ b

module _ {P : Platform} (w : World P) where
  call_stop_recording-newest :
      (scene : String) (e : Engine)
      → w.has_bus ≡ true
      → w.sends ≡ true
      → leb (blocked e) w.now ≡ true
      → newest (call_stop_recording w scene e).0.out ≡ some (stop_recording_call scene)
  unfolding call_stop_recording daemon_sync_allowed
  call_stop_recording-newest scene e a b c = ground arith

  -- The scene whose id the call carries.
  abbrev pub loaded_scene_id : String
  loaded_scene_id =
      (resolve
        (record { active_scene_id = w.core_config.active_scene; scenes = w.core_config.scenes })
        w.core_config.active_scene).id

  release_of-IsStopping :
      (s : Session) (matched : Key) (e : Engine)
      → is_recording (some s) ≡ true
      → (s.trigger == matched) ≡ true
      → s.stop_on_release ≡ true
      → IsStopping (blocked e) (release_of w (some s) matched e)
  unfolding schedule_if_recording schedule_stop_recording is_recording
  release_of-IsStopping s matched e r t o = record {
    armed = ground arith;
    records = ground arith;
    same = ground arith;
  }

  -- The session and the throttle of an engine.
  abbrev IsAt : Session → ℕ → Engine → Type 0
  IsAt s b e = (e.session ≡ some s) × (blocked e ≡ b)

  release_session-IsStopping :
      (s : Session) (b : ℕ) (matched : Key) (e : Engine)
      → IsAt s b e
      → is_recording (some s) ≡ true
      → (s.trigger == matched) ≡ true
      → s.stop_on_release ≡ true
      → IsStopping b (release_session w matched e)
  unfolding release_session
  release_session-IsStopping s b matched e (q, z) r t o =
      subst (λ c. IsStopping c (release_session w matched e)) z
        (subst (λ x. IsStopping (blocked e) (release_of w x matched e)) (sym q)
          (release_of-IsStopping s matched e r t o))

  schedule-IsAt :
      (s : Session) (b : ℕ) (e : Engine) → IsAt s b e → IsAt s b (schedule_if_recording e)
  unfolding schedule_if_recording schedule_stop_recording
  schedule-IsAt s b e h =
      let stops : Engine = record e { pending_stop_armed = true } in
      if_both (IsAt s b) (is_recording e.session) stops e (λ k. h) (λ k. h)

  release_held-IsAt :
      (s : Session) (b : ℕ) (ic : InputContext) (role : HotkeyRole) (matched : Key) (e : Engine)
      → IsAt s b e
      → e.trigger_mode ≡ hold
      → IsAt s b (release_held w ic role matched e)
  unfolding release_held
  release_held-IsAt s b ic role matched e h m =
      let toggled = toggle_command_palette w ic e in
      if_both (IsAt s b) (is_voice_role role) (tap_or_hold w e.trigger_mode ic role matched e)
        (if has_none e.session then toggled else e)
        (λ k.
          subst (λ x. IsAt s b (tap_or_hold w x ic role matched e)) (sym m) (schedule-IsAt s b e h))
        (λ k. if_both (IsAt s b) (has_none e.session) toggled e (λ l. ground (arith, h.0)) (λ l. h))

  no_chord :
      (o : Option ℕ) (held role : HotkeyRole) (k : ℕ) (c : Bool)
      → IsHeld held o c
      → (elim o [ none ↦ false | some x ↦ same_role held role && (x == k) ]) ≡ true
      → c ≡ false
  no_chord none held role k c h q = ground arith
  no_chord (some x) no_role role k c h q = ground arith
  no_chord (some x) menu_role role k c h q = h
  no_chord (some x) trigger_role role k c h q = h
  no_chord (some x) command_role role k c h q = h

  on_release-IsStopping :
      (s : Session) (ic : InputContext) (k : ℕ) (role : HotkeyRole) (matched : Key) (e : Engine)
      → IsConsistent e
      → e.session ≡ some s
      → e.trigger_mode ≡ hold
      → is_recording (some s) ≡ true
      → (s.trigger == matched) ≡ true
      → s.stop_on_release ≡ true
      → IsStopping (blocked e) (on_release w ic k role matched e)
  unfolding on_release matches_held IsConsistent parts
  on_release-IsStopping s ic k role matched e h q m r t o =
      let e1 : Engine = record e { held_role = no_role; held_key_sym = none } in
      let chorded = cancel_pending_start (record e1 { chord_interrupted = false }) in
      let d = release_held w ic role matched e1 in
      let done = release_session w matched d in
      let b = blocked e in
      if_both (IsStopping b) (not (matches_held w role k e)) (release_session w matched e)
        (if e1.chord_interrupted then chorded else done)
        (λ l. release_session-IsStopping s b matched e (q, refl) r t o)
        (λ l.
          if_both (IsStopping b) e1.chord_interrupted chorded done
            (λ c.
              ground (arith, no_chord e.held_key_sym e.held_role role k e.chord_interrupted h.1))
            (λ c.
              release_session-IsStopping s b matched d
                (release_held-IsAt s b ic role matched e1 (q, refl) m) r t o))

  reloaded_scene :
      (e : Engine)
      → (resolve
          (reload_scene_config w e).scene_config
          (reload_scene_config w e).active_scene_id).id
        ≡ loaded_scene_id
  unfolding reload_scene_config
  reloaded_scene e = ground arith

  finish_stop_of-newest :
      (s : Session) (e : Engine)
      → w.has_bus ≡ true
      → w.sends ≡ true
      → leb (blocked e) w.now ≡ true
      → newest (finish_stop_of w s (reload_scene_config w e)).out
        ≡ some (stop_recording_call (loaded_scene_id))
  unfolding finish_stop_of
  finish_stop_of-newest s e a c z =
      let r = reload_scene_config w e in
      let scene = resolve r.scene_config r.active_scene_id in
      let e1 : Engine = record r {
        active_scene_id = scene.id;
        session = some (record s { raw_prev = scene.raw_prev; trigger = no_key });
      } in
      let e2 = enter_busy_state w.now s.ic s.command_mode inferring_text false scene.raw_prev e1 in
      let same =
        enter_busy-blocked w.now s.ic s.command_mode inferring_text false scene.raw_prev e1
        ∙ reload_scene_config-blocked w e in
      call_stop_recording-newest scene.id e2 a c (ap (λ b. leb b w.now) same ∙ z)
      ∙ ap (λ id. some (stop_recording_call id)) (reloaded_scene e)

  finish_stop_in-newest :
      (o : Option Session) (e : Engine)
      → is_recording o ≡ true
      → w.has_bus ≡ true
      → w.sends ≡ true
      → leb (blocked e) w.now ≡ true
      → newest (finish_stop_in w o e).out ≡ some (stop_recording_call loaded_scene_id)
  unfolding is_recording
  finish_stop_in-newest none e r a c z = ground arith
  finish_stop_in-newest (some s) e r a c z = finish_stop_of-newest s e a c z

  on_stop_timer-newest :
      (b : ℕ) (e : Engine)
      → IsStopping b e
      → w.has_bus ≡ true
      → w.sends ≡ true
      → leb b w.now ≡ true
      → newest (on_stop_timer w e).out ≡ some (stop_recording_call loaded_scene_id)
  unfolding on_stop_timer finish_stop_recording
  on_stop_timer-newest b e h a c z =
      let e1 : Engine = record e { pending_stop_armed = false } in
      let done = finish_stop_in w e1.session e1 in
      ap (λ x. newest (if x then if is_recording e.session then done else e1 else e).out) h.armed
      ∙ ap (λ x. newest (if x then done else e1).out) h.records
      ∙ finish_stop_in-newest e1.session e1 h.records a c (ap (λ x. leb x w.now) h.same ∙ z)

-- In a consistent engine that is in hold mode and records for a key whose release is to stop it, the
-- release of that key ends the recording: when the stop timer fires next, and the bus takes calls and
-- is not throttled, the last thing that the engine does is the call of StopRecording with the scene
-- that the configuration then makes active, and the session no longer records.
pub on_release-stops :
    {P : Platform} (w later : World P) (s : Session) (ic : InputContext) (k : ℕ) (role : HotkeyRole)
    (matched : Key) (e : Engine)
    → IsConsistent e
    → e.session ≡ some s
    → is_recording (some s) ≡ true
    → (s.trigger == matched) ≡ true
    → s.stop_on_release ≡ true
    → e.trigger_mode ≡ hold
    → later.has_bus ≡ true
    → later.sends ≡ true
    → leb (blocked e) later.now ≡ true
    → (newest (on_stop_timer later (on_release w ic k role matched e)).out
        ≡ some (stop_recording_call (loaded_scene_id later)))
      × (is_recording (on_stop_timer later (on_release w ic k role matched e)).session ≡ false)
unfolding on_stop_timer
on_release-stops w later s ic k role matched e h q r t o m a c z =
    let d = on_release w ic k role matched e in
    let i = on_release-IsStopping w s ic k role matched e h q m r t o in
    let d1 : Engine = record d { pending_stop_armed = false } in
    (
      on_stop_timer-newest later (blocked e) d i a c z,
      ap (λ x. is_recording (if x then finish_stop_recording later d1 else d).session) i.armed
          ∙ finish_stop_recording-stopped later d1,
    )
