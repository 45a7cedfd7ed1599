-- ===== src/Session/Updates/Batches.antt =====
-- What the engine gets of a batch of rows (src/pyrewire/session.py).
use pyre_wire.Prelude.{
  ◌∷◌, ◌++◌, All, length, ◌<◌, ◌^◌, String, ◌≡◌, ◌≢◌, refl, ap₂, ◌∙◌, Bool, false, List, arith,
  ◌==◌, nat_eq, if◌then◌else◌,
}
use pyre_wire.Prelude.Int.{ℤ}
use pyre_wire.Python.Result.{Exc, ok, err, traverse}
use pyre_wire.Python.Words.{c_uint32}
use pyre_wire.Python.Value.{Number}
use pyre_wire.Errors.{check}
use pyre_wire.Program.{rows_of}
use pyre_wire.Session.Object.{Session, SessionLib, Mode, checked}
use pyre_wire.Session.Rows.{Flat, flatten}
use pyre_wire.Session.Rows.RowMajor.{stored_row, rows_of-flatten}
use pyre_wire.Session.Rows.Filling.{IsRefused, width, flatten-IsRefused}
use pyre_wire.Session.Updates.{FlatFn, send, flat_iud, insert}
use pyre_wire.Session.Deltas.Delivery.{require_mode_same}

if_false : {A : Type 0} (b : Bool) (x y : A) → b ≡ false → (if b then x else y) ≡ y
if_false b x y e = rw e refl

module _ {W : Type 0} where
  send_lem :
      (fn : FlatFn W) (relation : String) (f : Flat) (s : Session W) (rc : ℤ) (w : W)
      → f.nrows ≢ 0
      → f.nrows < 2 ^ 32
      → f.ncols < 2 ^ 32
      → fn s.handle relation f.cells f.nrows f.ncols s.world ≡ (rc, w)
      → send fn relation f s ≡ (check rc, record s { world = w })
  unfolding send c_uint32 checked
  send_lem fn relation f s rc w some_rows rows_fit cols_fit runs =
      let some_left : (f.nrows == 0) ≡ false = ground (arith, some_rows) in
      let rows_same : c_uint32 f.nrows ≡ f.nrows = omega (arith, rows_fit) in
      let cols_same : c_uint32 f.ncols ≡ f.ncols = omega (arith, cols_fit) in
      if_false (f.nrows == 0) _ _ some_left
      ∙ ap₂ (λ r c. checked (fn s.handle relation f.cells r c) s) rows_same cols_same
      ∙ rw runs refl

module _ {W : Type 0} (lib : SessionLib W) where
  -- `insert` in incremental mode, of rows that make a buffer with at least one row and less than
  -- 2 ^ 32 rows and columns: the engine is called once, with a buffer and dimensions from which the
  -- given rows are read back, each number as its int64. The result is what `check` makes of the
  -- engine's code, and nothing else of the session changes.
  pub insert-sends :
      (relation : String) (rows : List (List Number)) (f : Flat) (s : Session W) (rc : ℤ) (w : W)
      → s.mode ≡ Mode.incremental
      → flatten rows ≡ ok f
      → f.nrows ≢ 0
      → f.nrows < 2 ^ 32
      → f.ncols < 2 ^ 32
      → lib.insert s.handle relation f.cells f.nrows f.ncols s.world ≡ (rc, w)
      → (insert lib relation rows s ≡ (check rc, record s { world = w }))
        × (traverse stored_row rows ≡ ok (rows_of f.cells f.nrows f.ncols))
  unfolding insert flat_iud
  insert-sends relation rows f s rc w mode flat some_rows rows_fit cols_fit runs = (
    rw (require_mode_same s Mode.incremental mode (λ e. cc), flat)
        (send_lem lib.insert relation f s rc w some_rows rows_fit cols_fit runs),
    rows_of-flatten rows flat,
  )

  -- `insert` in incremental mode of a batch whose first row has columns, and in which some row has
  -- another width or holds a value that `int` refuses: the first such row decides, with a `ValueError`
  -- or with what `int` raises, whatever comes after it, and neither the engine nor the session changes,
  -- although the rows before it could be sent.
  pub insert-IsRefused :
      (relation : String) (before : List (List Number)) (bad : List Number)
      (after : List (List Number)) (nss : List (List ℤ)) (e : Exc) (s : Session W)
      → s.mode ≡ Mode.incremental
      → width (before ++ bad ∷ after) ≢ 0
      → All (λ r. length r ≡ width (before ++ bad ∷ after)) before
      → traverse stored_row before ≡ ok nss
      → IsRefused (width (before ++ bad ∷ after)) bad e
      → insert lib relation (before ++ bad ∷ after) s ≡ (err e, s)
  unfolding insert flat_iud
  insert-IsRefused relation before bad after nss e s mode columns all ints refused =
      rw
        (
          require_mode_same s Mode.incremental mode (λ e. cc),
          flatten-IsRefused before bad after nss e columns all ints refused,
        )
        refl
