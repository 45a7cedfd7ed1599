-- ===== src/Session/Deltas/First.antt =====
-- The first `step` of a session, which registers its callback (src/pyrewire/session.py).
use pyre_wire.Prelude.{◌%◌, ◌^◌, ◌≡◌, refl, ap, ◌∙◌, String, none, some, List, arith, nat_eq}
use pyre_wire.Prelude.Int.{ℤ, pos}
use pyre_wire.Python.Result.{ok}
use pyre_wire.Errors.{check}
use pyre_wire.Callbacks.{Kind, Invocation, new_handle, user_data}
use pyre_wire.Session.Object.{Session, SessionLib, Mode, checked}
use pyre_wire.Session.Deltas.{
  install, set_cb, clear_delta_cb, clear_if, arm, replace_cb, step_handle_from, step_handle,
  step_events, step, run_step, run_engine,
}
use pyre_wire.Session.Deltas.Delivery.{
  after, delivered, deliver_lem, reports, payloads_after, delivered-reports, require_mode_same,
}

-- The session once its first callback is accepted.
abbrev accepted_state : {W : Type 0} → Kind → W → Session W → Session W
accepted_state k w s =
    let (h, r) = new_handle k none s.registry in
    record s { mode = Mode.incremental; delta_cb = some h; registry = r; world = w }

module _ {W : Type 0} (lib : SessionLib W) where
  step_handle-first :
      (k : Kind) (s : Session W) (w : W)
      → s.mode ≡ Mode.incremental
      → s.delta_cb ≡ none
      → set_cb lib k (some (s.registry.next_token % 2 ^ 64)) s.handle s.world ≡ (pos 0, w)
      → step_handle lib k s ≡ (ok (new_handle k none s.registry).0, accepted_state k w s)
  unfolding step_handle step_handle_from replace_cb clear_delta_cb clear_if install arm checked
      new_handle user_data check
  step_handle-first k s w mode no_cb accepts = rw (no_cb, accepts, mode) refl

  pub step_events-first :
      (k : Kind) (s : Session W) (rc : ℤ) (calls : List Invocation) (w w' : W)
      → s.mode ≡ Mode.incremental
      → s.delta_cb ≡ none
      → set_cb lib k (some (s.registry.next_token % 2 ^ 64)) s.handle s.world ≡ (pos 0, w)
      → lib.step s.handle w ≡ ((rc, calls), w')
      → (step_events lib k s).0
        ≡ after (check rc) (delivered (new_handle k none s.registry).0 calls)
  unfolding step_events run_step run_engine new_handle
  step_events-first k s rc calls w w' mode no_cb accepts runs =
      rw
        (
          require_mode_same s Mode.incremental mode (λ e. cc),
          step_handle-first k s w mode no_cb accepts,
          runs,
        )
        (deliver_lem (new_handle k none s.registry).0 (record (accepted_state k w s) { world = w' })
          calls (check rc) (ground arith) (ground arith) (ground arith))

  -- The first `step` of a session in incremental mode with no callback, on an engine that accepts the
  -- callback: the engine gets the token of a new slot, and if it only reports deltas to that token,
  -- they are returned in their order, unless `check` raises on the code of the run.
  pub step-first :
      (s : Session W) (rc : ℤ) (ds : List (String × List ℤ × ℤ)) (w w' : W)
      → s.mode ≡ Mode.incremental
      → s.delta_cb ≡ none
      → lib.set_delta_cb s.handle (some (s.registry.next_token % 2 ^ 64)) s.world ≡ (pos 0, w)
      → lib.step s.handle w ≡ ((rc, reports s.registry.next_token ds), w')
      → (step lib s).0 ≡ after (check rc) (ok ds)
  unfolding step new_handle set_cb
  step-first s rc ds w w' mode no_cb accepts runs =
      payloads_after ds (step_events lib Kind.delta s) (check rc) (
        step_events-first Kind.delta s rc (reports s.registry.next_token ds) w w' mode no_cb accepts
          runs
        ∙ ap (after (check rc)) (delivered-reports (new_handle Kind.delta none s.registry).0 ds))
