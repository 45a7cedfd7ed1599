-- ===== src/Session/Deltas/Refusal.antt =====
-- What `step` does once the engine has refused its callback (src/pyrewire/session.py).
use pyre_wire.Prelude.{refl, ap, ◌∙◌, [], arith, ℕ, ◌≡◌, none, some, nat_eq}
use pyre_wire.Session.Deltas.Delivery.{IsArmed, step-reports}
use pyre_wire.Prelude.Int.{pos, ℤ}
use pyre_wire.Python.Result.{Exc, err, ok}
use pyre_wire.Errors.{check}
use pyre_wire.Callbacks.{Kind, new_handle}
use pyre_wire.Session.Object.{Session, SessionLib, Mode, checked, require_mode, require_from}
use pyre_wire.Session.Deltas.{
  install, set_cb, clear_delta_cb, clear_if, arm, replace_cb, step_handle_from, step_handle,
  step_events, step,
}

abbrev refused_state : {W : Type 0} → Session W → Session W
refused_state s =
    let (h, r) = new_handle Kind.delta none s.registry in
    record s { delta_cb = some h; registry = r }

refused_state-IsArmed :
    {W : Type 0} (s : Session W)
    → s.mode ≡ Mode.incremental
    → IsArmed Kind.delta (new_handle Kind.delta none s.registry).0 (refused_state s)
unfolding new_handle
refused_state-IsArmed s mode = record {
  mode = mode;
  callback = refl;
  kind = refl;
  live = ground arith;
  no_events = ground arith;
  no_error = ground arith;
}

module _ {W : Type 0} (lib : SessionLib W) where
  -- A session with no callback, whose engine refuses the delta callback.
  step_refused :
      (s : Session W) (rc : ℤ) (e : Exc)
      → s.mode ≡ Mode.incremental
      → s.delta_cb ≡ none
      → check rc ≡ err e
      → ((u : ℕ) → lib.set_delta_cb s.handle (some u) s.world ≡ (rc, s.world))
      → step lib s ≡ (err e, refused_state s)
  unfolding step step_events step_handle step_handle_from replace_cb clear_delta_cb clear_if install
      arm checked set_cb require_mode require_from new_handle
  step_refused s rc e mode no_cb refused engine = rw (mode, no_cb, engine, refused)

  -- With an engine that refuses the delta callback and reports nothing to anybody, the first `step` of
  -- a session with no callback raises, and the second returns an empty list.
  pub step-step_refused :
      (s : Session W) (rc : ℤ) (e : Exc) (w : W)
      → s.mode ≡ Mode.incremental
      → s.delta_cb ≡ none
      → check rc ≡ err e
      → ((u : ℕ) → lib.set_delta_cb s.handle (some u) s.world ≡ (rc, s.world))
      → lib.step s.handle s.world ≡ ((pos 0, []), w)
      → let (first, s') = step lib s in (first ≡ err e) × ((step lib s').0 ≡ ok [])
  unfolding check
  step-step_refused s rc e w mode no_cb refused engine runs =
      let first = step_refused s rc e mode no_cb refused engine in
      (
        ap (λ x. x.0) first,
        ap (λ x. (step lib x.1).0) first
            ∙ step-reports lib (new_handle Kind.delta none s.registry).0 (refused_state s) (pos 0)
                [] w (refused_state-IsArmed s mode) runs,
      )
