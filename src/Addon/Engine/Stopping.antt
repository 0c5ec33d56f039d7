-- ===== src/Addon/Engine/Stopping.antt =====
-- VinputEngine: finishStopRecording, and the release of a key that holds a recording.
use fcitx5_vinput.Base.{
  ◌≡◌, ◌∙◌, ap, Bool, true, false, Option, none, some, if◌then◌else◌, if_both, arith,
}
use fcitx5_vinput.Scene.{resolve}
use fcitx5_vinput.Config.Types.{Platform}
use fcitx5_vinput.Addon.Engine.{no_key, Session, inferring_text, Engine, World}
use fcitx5_vinput.Addon.Engine.Context.{reload_scene_config}
use fcitx5_vinput.Addon.Engine.Frontend.{enter_busy_state}
use fcitx5_vinput.Addon.Engine.Daemon.{
  is_recording, finish_stop_of, finish_stop_in, finish_stop_recording,
}
use fcitx5_vinput.Addon.Engine.Invariant.{Parts, parts}
use fcitx5_vinput.Addon.Engine.Consistency.Frontend.{enter_busy-session}
use fcitx5_vinput.Addon.Engine.Consistency.Daemon.{call_stop_recording-parts}

module _ {P : Platform} (w : World P) where
  finish_stop_of-stopped :
      (s : Session) (e : Engine) → is_recording (finish_stop_of w s e).session ≡ false
  unfolding finish_stop_of parts is_recording
  finish_stop_of-stopped s e =
      let scene = resolve e.scene_config e.active_scene_id in
      let e1 : Engine = record e {
        active_scene_id = scene.id;
        session = some (record s { raw_prev = scene.raw_prev; trigger = no_key });
      } in
      let e2 = enter_busy_state w.now s.ic s.command_mode inferring_text false scene.raw_prev e1 in
      let g : Parts → Bool = λ p. is_recording p.session in
      ap g (call_stop_recording-parts w scene.id e2)
      ∙ ap is_recording
          (enter_busy-session w.now s.ic s.command_mode inferring_text false scene.raw_prev e1)

  finish_stop_in-stopped :
      (o : Option Session) (e : Engine)
      → is_recording o ≡ true
      → is_recording (finish_stop_in w o e).session ≡ false
  unfolding is_recording
  finish_stop_in-stopped none e h = ground arith
  finish_stop_in-stopped (some s) e h = finish_stop_of-stopped s (reload_scene_config w e)

  pub finish_stop_recording-stopped :
      (e : Engine) → is_recording (finish_stop_recording w e).session ≡ false
  unfolding finish_stop_recording
  finish_stop_recording-stopped e =
      if_both (λ d. is_recording d.session ≡ false) (is_recording e.session)
        (finish_stop_in w e.session e) e (λ k. finish_stop_in-stopped e.session e k) (λ k. k)

  nothing_to_stop : (e : Engine) → is_recording e.session ≡ false → finish_stop_recording w e ≡ e
  unfolding finish_stop_recording
  nothing_to_stop e h = ap (λ b. if b then finish_stop_in w e.session e else e) h

-- Stopping a recording twice is stopping it once: a second call, of a timer that fires late or of
-- a key that is pressed again, changes nothing and sends nothing, whatever the clock, the bus and the
-- configuration answer then.
pub finish_stop_recording_idem :
    {P : Platform} (w later : World P) (e : Engine)
    → finish_stop_recording later (finish_stop_recording w e) ≡ finish_stop_recording w e
finish_stop_recording_idem w later e =
    nothing_to_stop later (finish_stop_recording w e) (finish_stop_recording-stopped w e)
