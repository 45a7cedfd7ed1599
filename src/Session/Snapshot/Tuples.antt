-- ===== src/Session/Snapshot/Tuples.antt =====
-- What `snapshot` returns (src/pyrewire/session.py), against the tuples that the engine forwards.
use pyre_wire.Prelude.{
  ℕ, ◌%◌, ◌^◌, ◌≡◌, refl, ap, ap₂, ◌∙◌, String, none, some, List, [], ◌∷◌, arith, ◌==◌, nat_eq,
  if◌then◌else◌, string_eq,
}
use text.Mathlib.TextEquality.{eq_iff}
use pyre_wire.Prelude.Int.{ℤ}
use pyre_wire.Python.Result.{Result, ok, err, traverse}
use pyre_wire.Python.Exec.{continue, lift}
use pyre_wire.Errors.{check}
use pyre_wire.Ffi.Types.{CString, RowPointer, decode_or}
use pyre_wire.Callbacks.{Kind, Event, Invocation, event_of, read_row, token_of, new_handle}
use pyre_wire.Callbacks.Delivery.{received, failure}
use pyre_wire.Session.Object.{Session, SessionLib, Mode}
use pyre_wire.Session.Deltas.Delivery.{after, or_failure, require_mode_same}
use pyre_wire.Session.Snapshot.{snapshot, snapshot_events, tuple_payload}
use pyre_wire.Session.Snapshot.Delivery.{snapshot_events-delivered}

-- The calls by which the engine forwards tuples to a token.
abbrev pub forwards : ℕ → List (String × List ℤ) → List Invocation
forwards t [] = []
forwards t ((rel, row) ∷ es) =
    Invocation.on_tuple (CString.text rel) (RowPointer.cells row) t ∷ forwards t es

abbrev pub tuple_events : List (String × List ℤ) → List Event
tuple_events [] = []
tuple_events ((rel, row) ∷ es) = Event.tuple rel row ∷ tuple_events es

empty_name : (s : String) → (if s == "" then "" else s) ≡ s
empty_name s = ground (arith, eq_iff s "")

event_of-forward :
    (rel : String) (row : List ℤ) (t : ℕ)
    → event_of (Invocation.on_tuple (CString.text rel) (RowPointer.cells row) t)
      ≡ ok (some (Event.tuple rel row))
unfolding event_of decode_or read_row
event_of-forward rel row t = ap (λ x. ok (some (Event.tuple x row))) (empty_name rel)

pub received-forwards :
    (t : ℕ) (es : List (String × List ℤ)) → received t (forwards t es) ≡ tuple_events es
unfolding token_of
received-forwards t [] = refl
received-forwards t ((rel, row) ∷ es) =
    rw (event_of-forward rel row t, received-forwards t es) (ground arith)

pub failure-forwards : (t : ℕ) (es : List (String × List ℤ)) → failure t (forwards t es) none ≡ none
unfolding token_of
failure-forwards t [] = refl
failure-forwards t ((rel, row) ∷ es) =
    ground (arith, event_of-forward rel row t, failure-forwards t es)

payloads_lem : (es : List (String × List ℤ)) → traverse tuple_payload (tuple_events es) ≡ ok es
payloads_lem [] = refl
payloads_lem ((rel, row) ∷ es) = rw (payloads_lem es)

payloads_after :
    {S : Type 0} (es : List (String × List ℤ)) (x : Result (List Event) × S) (r : Result (Unit {0}))
    → x.0 ≡ after r (ok (tuple_events es))
    → (continue x.0 (λ events. lift (traverse tuple_payload events)) x.1).0 ≡ after r (ok es)
payloads_after es x (ok _) e = rw e (payloads_lem es)
payloads_after es x (err y) e = rw e refl

module _ {W : Type 0} (lib : SessionLib W) where
  -- `snapshot` in query mode: if the engine only forwards tuples to the token of the snapshot's own
  -- slot, they are returned in their order and each as it was forwarded, unless `check` raises on the
  -- engine's code.
  pub snapshot-forwards :
      (s : Session W) (rc : ℤ) (es : List (String × List ℤ)) (w : W)
      → s.mode ≡ Mode.query
      → lib.snapshot s.handle (s.registry.next_token % 2 ^ 64) s.world
        ≡ ((rc, forwards s.registry.next_token es), w)
      → (snapshot lib s).0 ≡ after (check rc) (ok es)
  unfolding snapshot new_handle
  snapshot-forwards s rc es w mode runs = rw (require_mode_same s Mode.query mode (λ e. cc)) (
      payloads_after es (snapshot_events Kind.tuple lib.snapshot s) (check rc) (
        snapshot_events-delivered Kind.tuple lib.snapshot s rc (forwards s.registry.next_token es) w
          runs
        ∙ ap (after (check rc)) (
            ap₂ or_failure (failure-forwards s.registry.next_token es)
              (received-forwards s.registry.next_token es))))
