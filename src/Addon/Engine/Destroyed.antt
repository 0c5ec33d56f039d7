-- ===== src/Addon/Engine/Destroyed.antt =====
-- VinputEngine: the handler of InputContextDestroyed, which leaves no pointer behind.
use fcitx5_vinput.Base.{◌≡◌, refl, ◌∙◌, sym, ap, Bool, true, false, Option, none, some, arith}
use fcitx5_vinput.Config.Types.{Platform}
use fcitx5_vinput.Addon.Engine.{InputContext, Session, Engine, World}
use fcitx5_vinput.Addon.Engine.Presentation.{
  same_ic, reset_palette_menu_state, reset_result_menu_state,
}
use fcitx5_vinput.Addon.Engine.Context.{flush_context_buffer, append_user_entry}
use fcitx5_vinput.Addon.Engine.Frontend.{stop_status_sync_if_idle}
use fcitx5_vinput.Addon.Engine.Events.{
  clears, end_session_of, end_status_of, forget_input_context, on_destroyed,
}
use fcitx5_vinput.Addon.Engine.Invariant.{Parts, parts, IsShown, IsConsistent}
use fcitx5_vinput.Addon.Engine.Consistency.Events.{
  forget_input_context-parts, on_destroyed-IsConsistent,
}

abbrev pub owner : Option Session → Option InputContext
owner none = none
owner (some s) = some s.ic

-- No field of the engine points to an input context.
pub record IsForgotten (ic : InputContext) (e : Engine) : Type 0 where
  pub session : same_ic (owner e.session) (some ic) ≡ false
  pub status : same_ic e.status_ic (some ic) ≡ false
  pub last_active : same_ic e.last_active_ic (some ic) ≡ false
  pub palette_menu : same_ic e.palette_menu_ic (some ic) ≡ false
  pub result_menu : same_ic e.result_menu_ic (some ic) ≡ false
  pub context_buffer : same_ic e.context_buffer_ic (some ic) ≡ false

shown_owner :
    (s : Option Session) (status : Option InputContext) (e : Engine)
    → IsShown s status e.status_sync_armed e.pending_status_call e.status_poll_gate
    → owner s ≡ status
shown_owner none status e (a, b, c, d) = sym a
shown_owner (some s) status e (a, b, c) = sym a

-- `clears` leaves a pointer that is not the one it looks for.
cleared_pointer :
    (b : Bool) (f : Engine → Engine) (get : Engine → Option InputContext) (ic : InputContext)
    (e : Engine)
    → same_ic (get e) (some ic) ≡ b
    → same_ic (get (f e)) (some ic) ≡ false
    → same_ic (get (clears b f e)) (some ic) ≡ false
cleared_pointer true f get ic e q h = h
cleared_pointer false f get ic e q h = q

-- It leaves what `f` does not touch.
untouched :
    (b : Bool) (f : Engine → Engine) (get : Engine → Option InputContext) (e : Engine)
    → get (f e) ≡ get e
    → get (clears b f e) ≡ get e
untouched true f get e h = h
untouched false f get e h = refl

flush-pointers :
    (e : Engine)
    → ((flush_context_buffer e).last_active_ic ≡ e.last_active_ic)
      × ((flush_context_buffer e).palette_menu_ic ≡ e.palette_menu_ic)
      × ((flush_context_buffer e).result_menu_ic ≡ e.result_menu_ic)
      × ((flush_context_buffer e).context_buffer_ic ≡ none)
unfolding flush_context_buffer append_user_entry
flush-pointers e = (ground arith, ground arith, ground arith, ground arith)

stopped-status :
    (e : Engine) → (stop_status_sync_if_idle (record e { status_ic = none })).status_ic ≡ none
unfolding stop_status_sync_if_idle
stopped-status e = ground arith

module _ {P : Platform} (w : World P) where
  end_status_of-forgotten :
      (ic : InputContext) (e : Engine) → same_ic (end_status_of w ic e).status_ic (some ic) ≡ false
  unfolding same_ic
  end_status_of-forgotten ic e =
      cleared_pointer (same_ic e.status_ic (some ic))
        (λ d. stop_status_sync_if_idle (record d { status_ic = none })) (λ d. d.status_ic) ic e refl
        (ap (λ o. same_ic o (some ic)) (stopped-status e))

  -- After an input context is destroyed, no field of a consistent engine points to it: neither the
  -- session nor what is shown, the last active context, the menus or the context buffer.
  pub on_destroyed-IsForgotten :
      (ic : InputContext) (e : Engine) → IsConsistent e → IsForgotten ic (on_destroyed w ic e)
  unfolding on_destroyed forget_input_context IsConsistent parts reset_palette_menu_state
      reset_result_menu_state same_ic
  on_destroyed-IsForgotten ic e h =
      let e0 = end_status_of w ic (end_session_of w ic e) in
      let f1 : Engine → Engine = λ d. record d { last_active_ic = none } in
      let e1 = clears (same_ic e0.last_active_ic (some ic)) f1 e0 in
      let b2 = same_ic e1.palette_menu_ic (some ic) in
      let e2 = clears b2 reset_palette_menu_state e1 in
      let b3 = same_ic e2.result_menu_ic (some ic) in
      let e3 = clears b3 reset_result_menu_state e2 in
      let b4 = same_ic e3.context_buffer_ic (some ic) in
      let d = on_destroyed w ic e in
      let same : Option InputContext → Bool = λ o. same_ic o (some ic) in
      let status : Parts → Option InputContext = λ p. p.status_ic in
      let flushed = flush-pointers e3 in
      let s =
        ap same (ap status (forget_input_context-parts w ic e0))
        ∙ end_status_of-forgotten ic (end_session_of w ic e) in
      record {
        session =
            ap same (shown_owner d.session d.status_ic d (on_destroyed-IsConsistent w ic e h).0)
            ∙ s;
        status = s;
        last_active =
            ap same (untouched b4 flush_context_buffer (λ x. x.last_active_ic) e3 flushed.0)
            ∙ ap same (untouched b3 reset_result_menu_state (λ x. x.last_active_ic) e2 refl)
            ∙ ap same (untouched b2 reset_palette_menu_state (λ x. x.last_active_ic) e1 refl)
            ∙ cleared_pointer (same_ic e0.last_active_ic (some ic)) f1 (λ x. x.last_active_ic) ic e0
                refl refl;
        palette_menu =
            ap same (untouched b4 flush_context_buffer (λ x. x.palette_menu_ic) e3 flushed.1)
            ∙ ap same (untouched b3 reset_result_menu_state (λ x. x.palette_menu_ic) e2 refl)
            ∙ cleared_pointer b2 reset_palette_menu_state (λ x. x.palette_menu_ic) ic e1 refl refl;
        result_menu =
            ap same (untouched b4 flush_context_buffer (λ x. x.result_menu_ic) e3 flushed.2)
            ∙ cleared_pointer b3 reset_result_menu_state (λ x. x.result_menu_ic) ic e2 refl refl;
        context_buffer =
            cleared_pointer b4 flush_context_buffer (λ x. x.context_buffer_ic) ic e3 refl
              (ap same flushed.3);
      }
