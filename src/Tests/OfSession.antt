-- ===== src/Tests/OfSession.antt =====
-- Sessions (src/pyrewire/session.py) with a small engine.
use pyre_wire.Prelude.{
  inl, ◌++◌, String, ◌≡◌, refl, true, none, some, List, [], ◌∷◌, arith, ◌==◌, nat_eq, All,
  string_eq,
}
use pyre_wire.Prelude.Int.{ℤ, pos}
use pyre_wire.Python.Result.{ok, err, traverse, wirelog, mode_error, exec_error, value_error, ◌>>=◌}
use pyre_wire.Python.Words.{c_int64}
use pyre_wire.Python.Value.{Value, Number, int_of}
use pyre_wire.Errors.{check}
use pyre_wire.Ffi.Enums.{ColumnType}
use pyre_wire.Callbacks.{Kind, CallbackHandle, Invocation, fresh_state, at}
use pyre_wire.Lanes.{decode_typed_row}
use pyre_wire.Program.{rows_of}
use pyre_wire.Session.Object.{Session, Mode, Compound}
use pyre_wire.Session.Rows.{Flat, flatten, write_rows, write_row, zeros, build_typed_row}
use pyre_wire.Session.Rows.RowMajor.{stored_row}
use pyre_wire.Session.Rows.Descriptors.{decode_typed_row-build_typed_row}
use pyre_wire.Session.Updates.{insert}
use pyre_wire.Session.Updates.Batches.{insert-sends, insert-IsRefused}
use pyre_wire.Session.Deltas.{step}
use pyre_wire.Session.Deltas.Delivery.{IsArmed, reports, after, step-reports}
use pyre_wire.Session.Deltas.Refusal.{step-step_refused}
use pyre_wire.Session.Snapshot.{snapshot_events}
use pyre_wire.Session.Snapshot.Delivery.{snapshot_events-live}
use pyre_wire.Session.Lifecycle.{close, compound_handle}
use pyre_wire.Session.Lifecycle.Close.{close-closes}
use pyre_wire.Session.Modes.{Call, run, Reaches}
use pyre_wire.Session.Modes.Frame.{fixed}
use pyre_wire.Session.Modes.Machine.{run-rejects, Reaches-fixed}
use pyre_wire.Tests.Engine.{engine, refusing_engine, session_with}

abbrev edge : String × List ℤ × ℤ
edge = ("edge", pos 3 ∷ pos 4 ∷ [], pos 1)

abbrev first_handle : CallbackHandle
first_handle = record { kind = Kind.delta; token = 1 }

abbrev armed : Session (List Invocation)
armed = record (session_with Mode.incremental (reports 1 (edge ∷ []))) {
  delta_cb = some first_handle;
  registry = record { next_token = 2; live = λ t. t == 1; states = λ t. fresh_state none };
}

armed-IsArmed : IsArmed Kind.delta first_handle armed
armed-IsArmed = record {
  mode = refl;
  callback = refl;
  kind = refl;
  live = refl;
  no_events = refl;
  no_error = refl;
}

step-reports_example : (step engine armed).0 ≡ after (check (pos 0)) (ok (edge ∷ []))
step-reports_example =
    step-reports engine first_handle armed (pos 0) (edge ∷ []) [] armed-IsArmed refl

refused : check (pos 3) ≡ err (wirelog exec_error)
unfolding check
refused = refl

step-step_refused_example :
    let (first, s) = step refusing_engine (session_with Mode.incremental []) in
    (first ≡ err (wirelog exec_error)) × ((step refusing_engine s).0 ≡ ok [])
step-step_refused_example =
    step-step_refused refusing_engine (session_with Mode.incremental []) (pos 3)
      (wirelog exec_error) [] refl refl refused (λ u. refl) refl

run-rejects_example :
    run engine Call.snapshot_call (session_with Mode.incremental [])
    ≡ (err (wirelog mode_error), session_with Mode.incremental [])
run-rejects_example =
    run-rejects engine Call.snapshot_call (session_with Mode.incremental []) refl (λ e. cc)
      (λ e. cc)

Reaches-fixed_example : fixed (run engine Call.step_call armed).1 ≡ fixed armed
Reaches-fixed_example =
    Reaches-fixed engine armed (run engine Call.step_call armed).1 refl (λ e. cc)
      (Reaches.after_call Call.step_call Reaches.here)

abbrev pub two_cells : Flat
two_cells = record {
  cells = at (at zeros 0 (c_int64 (pos 3))) 1 (c_int64 (pos 4));
  nrows = 1;
  ncols = 2;
}

abbrev pub one_row : List (List Number)
one_row = (Number.int (pos 3) ∷ Number.int (pos 4) ∷ []) ∷ []

pub one_row_flat : flatten one_row ≡ ok two_cells
unfolding flatten write_rows write_row int_of
one_row_flat = refl

one_row_stored : traverse stored_row one_row ≡ ok ((pos 3 ∷ pos 4 ∷ []) ∷ [])
unfolding int_of c_int64
one_row_stored = refl

insert-sends_example :
    (insert engine "edge" one_row armed ≡ (check (pos 0), armed))
    × (traverse stored_row one_row ≡ ok (rows_of two_cells.cells 1 2))
insert-sends_example =
    insert-sends engine "edge" one_row two_cells armed (pos 0) (reports 1 (edge ∷ [])) refl
      one_row_flat (λ e. omega arith) (omega arith) (omega arith) refl

-- The second row has another width.
insert-IsRefused_example :
    insert engine "edge" (one_row ++ [] ∷ one_row) armed ≡ (err value_error, armed)
insert-IsRefused_example =
    insert-IsRefused engine "edge" one_row [] one_row ((pos 3 ∷ pos 4 ∷ []) ∷ []) value_error armed
      refl (λ e. omega arith) (refl, tt) one_row_stored (inl ((λ e. omega arith), refl))

decode_typed_row-build_typed_row_example :
    (build_typed_row (ColumnType.bool ∷ []) (Value.bool true ∷ []) >>= decode_typed_row)
    ≡ ok (Value.bool true ∷ [])
decode_typed_row-build_typed_row_example =
    decode_typed_row-build_typed_row (ColumnType.bool ∷ []) (Value.bool true ∷ []) (tt, tt)

snapshot_events-live_example :
    (snapshot_events Kind.tuple engine.snapshot (session_with Mode.query [])).1.registry.live
    ≡ (session_with Mode.query []).registry.live
snapshot_events-live_example =
    snapshot_events-live Kind.tuple engine.snapshot (session_with Mode.query []) refl

abbrev with_compound : Session (List Invocation)
with_compound = record armed { compounds = 0 ∷ []; next_object = 1 }

close-closes_example :
    let (r, s) = close engine with_compound in
    (r ≡ ok tt)
    × (s.closed ≡ true)
    × (s.handle ≡ 0)
    × (s.delta_cb ≡ none)
    × (s.compounds ≡ [])
    × All (λ k. (s.objects k).invalidated ≡ true) (0 ∷ [])
    × ((c : Compound) → compound_handle s c ≡ err value_error)
    × (close engine s ≡ (ok tt, s))
close-closes_example = close-closes engine with_compound refl
