-- ===== src/Session/Modes.antt =====
-- The mode machine of a session (src/pyrewire/session.py): its public operations that require a
-- mode, as one type, and the sessions that they reach.
pub mod Frame
pub mod Machine
use pyre_wire.Prelude.{ℕ, String, List, Option, some}
use pyre_wire.Prelude.Int.{ℤ}
use pyre_wire.Python.Result.{Result, ok, err}
use pyre_wire.Python.Exec.{Exec}
use pyre_wire.Python.Value.{Value, Number}
use pyre_wire.Callbacks.{UserFn}
use pyre_wire.Session.Object.{Session, SessionLib, Mode}
use pyre_wire.Session.Updates.{
  NumPy, NdArray, insert, remove, insert_array, remove_array, insert_typed, remove_typed,
}
use pyre_wire.Session.Deltas.{set_delta_callback, set_typed_delta_callback, step, step_typed}
use pyre_wire.Session.Snapshot.{snapshot, snapshot_typed, snapshot_arrays}

-- A call of a public method, with its arguments.
pub data Call : Type 0 where
  insert_call remove_call : String → List (List Number) → Call
  insert_array_call remove_array_call : String → NumPy → NdArray → Call
  insert_typed_call remove_typed_call : String → List (List Value) → Call
  set_delta_call set_typed_delta_call : Option UserFn → Call
  step_call step_typed_call snapshot_call snapshot_typed_call : Call
  snapshot_arrays_call : (List (List ℤ) → Result (List (List ℤ))) → Call

abbrev discard : {A : Type 0} → Result A → Result (Unit {0})
discard (ok _) = ok tt
discard (err e) = err e

abbrev drop_value : {S A : Type 0} → Exec S A → Exec S (Unit {0})
drop_value m s = let (r, s') = m s in (discard r, s')

-- The mode that a call needs.
abbrev pub mode_of : Call → Mode
mode_of snapshot_call = Mode.query
mode_of snapshot_typed_call = Mode.query
mode_of (snapshot_arrays_call f) = Mode.query
mode_of _ = Mode.incremental

module _ {W : Type 0} (lib : SessionLib W) where
  -- The call, without the value that it returns.
  abbrev pub run : Call → Exec (Session W) (Unit {0})
  run (insert_call rel rows) = insert lib rel rows
  run (remove_call rel rows) = remove lib rel rows
  run (insert_array_call rel np x) = insert_array lib rel np x
  run (remove_array_call rel np x) = remove_array lib rel np x
  run (insert_typed_call rel rows) = insert_typed lib rel rows
  run (remove_typed_call rel rows) = remove_typed lib rel rows
  run (set_delta_call f) = set_delta_callback lib f
  run (set_typed_delta_call f) = set_typed_delta_callback lib f
  run step_call = drop_value (step lib)
  run step_typed_call = drop_value (step_typed lib)
  run snapshot_call = drop_value (snapshot lib)
  run snapshot_typed_call = drop_value (snapshot_typed lib)
  run (snapshot_arrays_call f) = drop_value (snapshot_arrays lib (some f))

  -- The sessions that calls reach, whether or not they raise.
  pub data Reaches (s : Session W) : Session W → Type 0 where
    here : Reaches s s
    after_call : {t : Session W} (c : Call) → Reaches s t → Reaches s (run c t).1
