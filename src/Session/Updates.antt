-- ===== src/Session/Updates.antt =====
-- Batched updates (src/pyrewire/session.py): `insert`, `remove`, the typed and the NumPy ones.
pub mod Batches
pub mod Arrays
use pyre_wire.Prelude.{
  ℕ, String, Bool, true, false, Option, none, some, List, [], ◌∷◌, length, ◌==◌, nat_eq, string_eq,
  not, if◌then◌else◌,
}
use pyre_wire.Prelude.Int.{ℤ, pos, int_eq}
use pyre_wire.Python.Result.{Exc, Result, ok, err, typed_row, wirelog, version_error}
use pyre_wire.Python.Exec.{Exec, pure, raise, lift, gets, ◌>>=◌, ◌>>◌}
use pyre_wire.Python.Words.{c_uint32}
use pyre_wire.Python.Value.{Value, Number}
use pyre_wire.Ffi.Enums.{ColumnType, TypedErrorCode, typed_error_code}
use pyre_wire.Ffi.Types.{TypedRow, TypedError, no_index}
use pyre_wire.Errors.{check}
use pyre_wire.Program.{Schema, schema}
use pyre_wire.Session.Object.{Session, SessionLib, Mode, call_rc, checked, require_mode}
use pyre_wire.Session.Rows.{Flat, flatten, column_types_of, build_typed_rows}

-- One of the two untyped entry points, called with the session's handle.
abbrev pub FlatFn : Type 0 → Type 0
FlatFn W = ℕ → String → (ℕ → ℤ) → ℕ → ℕ → W → ℤ × W

abbrev pub TypedFn : Type 0 → Type 0
TypedFn W = ℕ → String → List TypedRow → ℕ → W → (ℤ × TypedError) × W

-- An array of NumPy: the number of its dimensions, whether its elements are `int64` and whether it is
-- C-contiguous, its shape if it has two dimensions, and the `int64_t` that stand in its memory.
pub record NdArray : Type 0 where
  pub ndim : ℕ
  pub is_int64 : Bool
  pub is_contiguous : Bool
  pub shape : ℕ × ℕ
  pub memory : ℕ → ℤ

-- `arr.astype(int64, copy=False)`, which may raise, and `ascontiguousarray(arr)`.
pub record NumPy : Type 0 where
  pub astype : NdArray → Result NdArray
  pub ascontiguousarray : NdArray → NdArray

unfoldable pub as_int64 : NumPy → NdArray → Result NdArray
as_int64 np x = if x.is_int64 then ok x else np.astype x

unfoldable pub as_contiguous : NumPy → NdArray → NdArray
as_contiguous np x = if x.is_contiguous then x else np.ascontiguousarray x

-- `None if err.row_index == TYPED_ERROR_NO_INDEX else int(err.row_index)`
abbrev index_of : ℕ → Option ℕ
index_of n = if n == no_index then none else some n

abbrev message_of : String → Option String
message_of s = if s == "" then none else some s

-- `_raise_typed_error`
unfoldable pub typed_exception : TypedError → Exc
typed_exception e =
    typed_row e.code (index_of e.row_index) (index_of e.logical_col) (message_of e.message)

-- What becomes of the result of a typed call.
unfoldable pub typed_result : ℤ → TypedError → Result (Unit {0})
unfolding typed_exception
typed_result rc e =
    if rc == pos 0
    then ok tt
    else if not (e.code == typed_error_code TypedErrorCode.none_code)
    then err (typed_exception e)
    else check rc

module _ {W : Type 0} where
  -- An empty batch is done; any other goes to the engine, in one call.
  unfoldable pub send : FlatFn W → String → Flat → Exec (Session W) (Unit {0})
  send fn relation f s =
      if f.nrows == 0
      then (ok tt, s)
      else checked (fn s.handle relation f.cells (c_uint32 f.nrows) (c_uint32 f.ncols)) s

  -- The common body of `insert`, `remove` and the list path of `_batch_iud`.
  unfoldable pub flat_iud : FlatFn W → String → List (List Number) → Exec (Session W) (Unit {0})
  flat_iud fn relation rows = do f ← lift (flatten rows); send fn relation f

  -- The array's own call: an empty one is done.
  unfoldable pub send_array : FlatFn W → String → NdArray → Exec (Session W) (Unit {0})
  send_array fn relation x s =
      let (nrows, ncols) = x.shape in
      if nrows == 0
      then (ok tt, s)
      else checked (fn s.handle relation x.memory (c_uint32 nrows) (c_uint32 ncols)) s

  -- The path of `_batch_iud` for an array of NumPy.
  unfoldable pub array_iud : FlatFn W → String → NumPy → NdArray → Exec (Session W) (Unit {0})
  array_iud fn relation np x =
      if not (x.ndim == 2)
      then raise Exc.value_error
      else (do y ← lift (as_int64 np x); send_array fn relation (as_contiguous np y))

  unfoldable pub send_typed : TypedFn W → String → List TypedRow → Exec (Session W) (Unit {0})
  send_typed fn relation built s =
      if length built == 0
      then (ok tt, s)
      else (let ((rc, e), w) = fn s.handle relation built (c_uint32 (length built)) s.world in
          (typed_result rc e, record s { world = w }))

module _ {W : Type 0} (lib : SessionLib W) where
  -- `_require_typed_row_api`
  unfoldable pub require_typed_row_api : Exec (Session W) (Unit {0})
  require_typed_row_api s = if lib.typed_rows then (ok tt, s) else (err (wirelog version_error), s)

  abbrev then_types : Result (Option Schema) → Result (List ColumnType)
  then_types (ok o) = column_types_of o
  then_types (err e) = err e

  -- `_column_types(relation)`
  unfoldable pub column_types : String → Exec (Session W) (List ColumnType)
  column_types relation s = (then_types (schema lib.program s.program relation s.world), s)

  unfoldable pub typed_iud : TypedFn W → String → List (List Value) → Exec (Session W) (Unit {0})
  typed_iud fn relation [] = pure tt
  typed_iud fn relation (r ∷ rs) = do
    types ← column_types relation
    built ← lift (build_typed_rows types (r ∷ rs))
    send_typed fn relation built

  -- The public methods: the mode is required first, and the typed ones need their entry points.
  unfoldable pub insert : String → List (List Number) → Exec (Session W) (Unit {0})
  insert relation rows = do require_mode Mode.incremental; flat_iud lib.insert relation rows

  unfoldable pub remove : String → List (List Number) → Exec (Session W) (Unit {0})
  remove relation rows = do require_mode Mode.incremental; flat_iud lib.remove relation rows

  unfoldable pub insert_array : String → NumPy → NdArray → Exec (Session W) (Unit {0})
  insert_array relation np x = do require_mode Mode.incremental; array_iud lib.insert relation np x

  unfoldable pub remove_array : String → NumPy → NdArray → Exec (Session W) (Unit {0})
  remove_array relation np x = do require_mode Mode.incremental; array_iud lib.remove relation np x

  unfoldable pub insert_typed : String → List (List Value) → Exec (Session W) (Unit {0})
  insert_typed relation rows = do
    require_typed_row_api
    require_mode Mode.incremental
    typed_iud lib.insert_typed relation rows

  unfoldable pub remove_typed : String → List (List Value) → Exec (Session W) (Unit {0})
  remove_typed relation rows = do
    require_typed_row_api
    require_mode Mode.incremental
    typed_iud lib.remove_typed relation rows
