-- ===== src/Session/Snapshot.antt =====
-- Snapshots (src/pyrewire/session.py): each has a callback of its own, closed when it is over.
pub mod Delivery
pub mod Groups
pub mod Tuples
use pyre_wire.Prelude.{ℕ, String, Option, none, some, List, [], ◌∷◌, ◌++◌, string_eq}
use pyre_wire.Prelude.Int.{ℤ}
use pyre_wire.Prelude.Dict.{Dict, lookup, insert}
use pyre_wire.Python.Result.{Result, ok, err, traverse, value_error, runtime_error}
use pyre_wire.Python.Exec.{Exec, raise, lift, finally, ◌>>=◌, ◌>>◌}
use pyre_wire.Python.Value.{Value}
use pyre_wire.Callbacks.{Kind, Event, CallbackHandle, Invocation, new_handle, user_data, close}
use pyre_wire.Session.Object.{Session, SessionLib, Mode, require_mode}
use pyre_wire.Session.Updates.{require_typed_row_api}
use pyre_wire.Session.Deltas.{run_engine, drain_handle}

-- `for _kind, rel, vals in events` and, of a typed one, `for _kind, rel, vals, _diff in events`.
abbrev pub tuple_payload : Event → Result (String × List ℤ)
tuple_payload (Event.tuple rel vals) = ok (rel, vals)
tuple_payload (Event.delta rel vals diff) = err value_error
tuple_payload (Event.typed_delta rel vals diff) = err value_error

abbrev pub typed_tuple_payload : Event → Result (String × List Value)
typed_tuple_payload (Event.typed_delta rel vals diff) = ok (rel, vals)
typed_tuple_payload (Event.delta rel vals diff) = err value_error
typed_tuple_payload (Event.tuple rel vals) = err value_error

-- The relation's list, or a new one, with one more row.
abbrev pub appended : Option (List (List ℤ)) → List ℤ → List (List ℤ)
appended none vals = vals ∷ []
appended (some rows) vals = rows ++ vals ∷ []

-- `grouped.setdefault(rel, []).append(vals)`
abbrev pub append_to : String → List ℤ → Dict String (List (List ℤ)) → Dict String (List (List ℤ))
append_to rel vals d = insert rel (appended (lookup rel d) vals) d

abbrev pub group_from :
    Dict String (List (List ℤ)) → List (String × List ℤ) → Dict String (List (List ℤ))
group_from d [] = d
group_from d ((rel, vals) ∷ es) = group_from (append_to rel vals d) es

unfoldable pub group : List (String × List ℤ) → Dict String (List (List ℤ))
group = group_from []

module _ {W : Type 0} where
  -- The `try` and `finally` of a snapshot, with its new handle.
  unfoldable pub with_handle :
      (ℕ → ℕ → W → (ℤ × List Invocation) × W) → CallbackHandle → Exec (Session W) (List Event)
  with_handle fn h s =
      finally (do run_engine (fn s.handle (user_data h)); drain_handle h)
        (λ s'. record s' { registry = close h s'.registry }) s

  unfoldable pub snapshot_events :
      Kind → (ℕ → ℕ → W → (ℤ × List Invocation) × W) → Exec (Session W) (List Event)
  snapshot_events k fn s =
      let (h, r) = new_handle k none s.registry in with_handle fn h (record s { registry = r })

module _ {W : Type 0} (lib : SessionLib W) where
  unfoldable pub snapshot : Exec (Session W) (List (String × List ℤ))
  snapshot = do
    require_mode Mode.query
    events ← snapshot_events Kind.tuple lib.snapshot
    lift (traverse tuple_payload events)

  unfoldable pub snapshot_typed : Exec (Session W) (List (String × List Value))
  snapshot_typed = do
    require_typed_row_api lib
    require_mode Mode.query
    events ← snapshot_events Kind.typed_delta lib.snapshot_typed
    lift (traverse typed_tuple_payload events)

  abbrev under : {A : Type 0} → String → Result A → Result (String × A)
  under rel (ok a) = ok (rel, a)
  under rel (err e) = err e

  -- `snapshot_arrays`, with NumPy's `asarray` if it is installed.
  unfoldable pub snapshot_arrays :
      {A : Type 0} → Option (List (List ℤ) → Result A) → Exec (Session W) (Dict String A)
  snapshot_arrays none = raise runtime_error
  snapshot_arrays (some asarray) = do
    tuples ← snapshot
    lift (traverse (λ (rel, rows). under rel (asarray rows)) (group tuples))
