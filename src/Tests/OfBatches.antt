-- ===== src/Tests/OfBatches.antt =====
-- Batches of rows for a session (src/pyrewire/session.py) with a small engine.
use pyre_wire.Prelude.{ℕ, true, false, ◌≡◌, refl, List, [], arith, nat_eq}
use pyre_wire.Prelude.Int.{ℤ, pos}
use pyre_wire.Python.Result.{ok, ok-injective}
use pyre_wire.Program.{rows_of}
use pyre_wire.Errors.{check}
use pyre_wire.Callbacks.{Invocation}
use pyre_wire.Session.Object.{Session, Mode, checked}
use pyre_wire.Session.Updates.{NumPy, NdArray, as_int64, insert, insert_array}
use pyre_wire.Session.Updates.Arrays.{NumPyLaws, insert_array-entries}
use pyre_wire.Session.Lifecycle.{close}
use pyre_wire.Session.Lifecycle.AfterClose.{insert-close}
use pyre_wire.Tests.Engine.{engine, session_with}
use pyre_wire.Tests.OfSession.{one_row, two_cells, one_row_flat}

-- Functions of NumPy on arrays that hold their elements in order already.
abbrev plain : NumPy
plain = record {
  astype = λ x. ok (record x { is_int64 = true });
  ascontiguousarray = λ x. record x { is_contiguous = true };
}

abbrev plain_laws : NumPyLaws plain
plain_laws = record {
  entries = λ x. rows_of x.memory x.shape.0 x.shape.1;
  astype-keeps = λ x y h. rw (← ok-injective h) (refl, refl, refl);
  contiguous-keeps = λ x. (refl, refl, refl, refl);
  rows_of-memory = λ x int64 contiguous. refl;
}

abbrev array : NdArray
array = record {
  ndim = 2;
  is_int64 = false;
  is_contiguous = false;
  shape = (1, 2);
  memory = two_cells.cells;
}

insert_array-entries_example :
    (cells : ℕ → ℤ) × (rows_of cells 1 2 ≡ rows_of two_cells.cells 1 2)
    × (insert_array engine "edge" plain array (session_with Mode.incremental [])
        ≡ checked (engine.insert 1 "edge" cells 1 2) (session_with Mode.incremental []))
unfolding as_int64
insert_array-entries_example =
    insert_array-entries engine plain_laws "edge" array (record array { is_int64 = true })
      (session_with Mode.incremental []) refl refl refl (λ e. omega arith) (omega arith)
      (omega arith)

abbrev closed : Session (List Invocation)
closed = (close engine (session_with Mode.incremental [])).1

insert-close_example : insert engine "edge" one_row closed ≡ (check (pos 0), closed)
insert-close_example =
    insert-close engine "edge" one_row two_cells (session_with Mode.incremental []) (pos 0)
      closed.world refl refl one_row_flat (λ e. omega arith) (omega arith) (omega arith) refl
