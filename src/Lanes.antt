-- ===== src/Lanes.antt =====
-- src/pyrewire/_core/lanes.py: Python values to and from the 64-bit lanes of typed rows.
pub mod RoundTrip
pub mod Bounds
pub mod Exactness
pub mod Errors
use pyre_wire.Prelude.{
  ℕ, zero, suc, ◌<◌, ◌≡◌, Bool, true, false, Option, none, some, List, [], ◌∷◌, ltb, not, range,
  if◌then◌else◌, ◌==◌, nat_eq,
}
use pyre_wire.Prelude.Int.{ℤ, pos}
use pyre_wire.Python.Result.{
  Exc, Result, ok, err, ◌>>=◌, type_error, value_error, struct_error, is_exception,
  is_conversion_error, traverse,
}
use pyre_wire.Python.Words.{mask64, signed64, word_mod}
use pyre_wire.Python.Float.{is_integer, int_of_float}
use pyre_wire.Python.Value.{Value, Object, int_of_bool, float_of}
use pyre_wire.Ffi.Enums.{ColumnType, column_type}
use pyre_wire.Ffi.Types.{TypedRow}

-- What `except` makes of an exception out of `float(value)`.
unfoldable pub wrap_float_error : Result ℕ → Result ℕ
wrap_float_error (ok b) = ok b
wrap_float_error (err e) =
    if is_conversion_error e then err e else if is_exception e then err type_error else err e

unfoldable pub as_float : Value → Result ℕ
as_float v = wrap_float_error (float_of v)

-- `except Exception: return False`
unfoldable pub accept_on_error : Result Bool → Result Bool
accept_on_error (ok b) = ok b
accept_on_error (err e) = if is_exception e then ok false else err e

unfoldable pub float_conversion_lost_value : Object → ℤ → Result Bool
float_conversion_lost_value o as_int =
    if o.is_number then accept_on_error (o.ne_int as_int) else ok false

-- The check of a float-like value that is no `float`, before it is stored.
unfoldable pub unless_lost : Value → ℤ → Result ℕ
unless_lost (Value.object o) as_int = do
  lost ← float_conversion_lost_value o as_int
  if lost then err value_error else ok (mask64 as_int)
unless_lost _ as_int = ok (mask64 as_int)

-- A float-like value heading for an integer column.
unfoldable pub encode_integral : Value → Result ℕ
encode_integral v = do
  f ← as_float v
  if is_integer f then (do as_int ← int_of_float f; unless_lost v as_int) else err value_error

-- `operator.index(value) & _UINT64_MASK`
unfoldable pub encode_index : Result ℤ → Result ℕ
encode_index r = do n ← r; ok (mask64 n)

-- An object in an integer column, with its `__index__` if it has one.
unfoldable pub encode_object : Object → Option (Result ℤ) → Result ℕ
encode_object o (some r) = encode_index r
encode_object o none = encode_integral (Value.object o)

-- `isinstance(value, (SupportsIndex, SupportsFloat))`
unfoldable pub is_number_like : Object → Bool
is_number_like o = elim o.index [
  | some _ ↦ true
  | none ↦ elim o.float [ some _ ↦ true | none ↦ false ]
]

-- A value that is no `str`, in a column that is not FLOAT.
unfoldable pub encode_non_float : Value → Result ℕ
encode_non_float (Value.int n) = ok (mask64 n)
encode_non_float (Value.bool b) = encode_index (ok (int_of_bool b))
encode_non_float (Value.float b) = encode_integral (Value.float b)
encode_non_float (Value.str s) = err type_error
encode_non_float (Value.object o) = encode_object o o.index

unfoldable pub encode_by_type : Value → ColumnType → Result ℕ
encode_by_type v ColumnType.float = as_float v
encode_by_type v _ = encode_non_float v

unfoldable pub encode_lane : Value → ColumnType → Result ℕ
encode_lane (Value.str s) t = err type_error
encode_lane (Value.object o) t =
    if is_number_like o then encode_by_type (Value.object o) t else err type_error
encode_lane v t = encode_by_type v t

-- A word of 2 ^ 64 or more does not fit the format "<Q".
unfoldable pub decode_lane : ℕ → ColumnType → Result Value
decode_lane lane ColumnType.float =
    if ltb lane word_mod then ok (Value.float lane) else err struct_error
decode_lane lane ColumnType.bool = ok (Value.bool (not (lane == 0)))
decode_lane lane ColumnType.uint32 = ok (Value.int (pos lane))
decode_lane lane ColumnType.uint64 = ok (Value.int (pos lane))
decode_lane lane _ = ok (Value.int (signed64 lane))

unfoldable pub decode_column : TypedRow → ℕ → Result Value
decode_column row c = do
  t ← column_type (row.types c)
  decode_lane (row.lanes (row.lane_offsets c)) t

unfoldable pub decode_typed_row : TypedRow → Result (List Value)
decode_typed_row row = traverse (decode_column row) (range 0 row.logical_ncols)
