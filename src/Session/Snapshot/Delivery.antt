-- ===== src/Session/Snapshot/Delivery.antt =====
-- What a snapshot returns and what it leaves (src/pyrewire/session.py).
use pyre_wire.Prelude.{
  ℕ, ◌≡◌, refl, ap, ◌∙◌, true, false, none, List, arith, nat_eq, nat_beq_iff, fun_ext, ◌%◌, ◌^◌,
  Bool,
}
use pyre_wire.Prelude.Int.{ℤ}
use pyre_wire.Python.Result.{Result, ok, err}
use pyre_wire.Python.Exec.{continue}
use pyre_wire.Errors.{check}
use pyre_wire.Callbacks.{at, Kind, CallbackHandle, Invocation, new_handle, user_data, drain, close}
use pyre_wire.Callbacks.Slots.{live-invoke_all}
use pyre_wire.Session.Object.{Session}
use pyre_wire.Session.Deltas.{run_engine, drain_handle}
use pyre_wire.Session.Deltas.Delivery.{after, delivered, deliver_lem}
use pyre_wire.Session.Snapshot.{with_handle, snapshot_events}

continue-live :
    {W : Type 0} (r : Result (Unit {0})) (h : CallbackHandle) (s : Session W)
    → (continue r (λ _. drain_handle h) s).1.registry.live ≡ s.registry.live
unfolding drain_handle drain
continue-live (ok _) h s = refl
continue-live (err e) h s = refl

freed : (live : ℕ → Bool) (t : ℕ) → live t ≡ false → at (at live t true) t false ≡ live
freed live t free = fun_ext (λ n. ground (arith, free, nat_beq_iff t n))

module _ {W : Type 0} where
  -- A snapshot raises what `check` makes of the engine's code, and else has the events of the calls
  -- with its own handle's token, or the last exception that one of these raised.
  pub snapshot_events-delivered :
      (k : Kind) (fn : ℕ → ℕ → W → (ℤ × List Invocation) × W) (s : Session W) (rc : ℤ)
      (calls : List Invocation) (w : W)
      → fn s.handle (s.registry.next_token % 2 ^ 64) s.world ≡ ((rc, calls), w)
      → (snapshot_events k fn s).0
        ≡ after (check rc) (delivered (new_handle k none s.registry).0 calls)
  unfolding snapshot_events with_handle run_engine user_data new_handle
  snapshot_events-delivered k fn s rc calls w runs = rw runs (
      deliver_lem (record { kind = k; token = s.registry.next_token })
        (record s { world = w; registry = (new_handle k none s.registry).1 }) calls (check rc)
        (ground arith) (ground arith) (ground arith))

  -- If the token that is next to be handed out is not in the registry: however a snapshot ends, the
  -- same tokens are in the registry as before it, so its own handle is closed.
  pub snapshot_events-live :
      (k : Kind) (fn : ℕ → ℕ → W → (ℤ × List Invocation) × W) (s : Session W)
      → s.registry.live s.registry.next_token ≡ false
      → (snapshot_events k fn s).1.registry.live ≡ s.registry.live
  unfolding snapshot_events with_handle run_engine user_data new_handle close
  snapshot_events-live k fn s free =
      ap (λ l. at l s.registry.next_token false) (continue-live _ _ _ ∙ (live-invoke_all _ _).0)
      ∙ freed s.registry.live s.registry.next_token free
