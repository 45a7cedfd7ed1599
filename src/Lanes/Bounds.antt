-- ===== src/Lanes/Bounds.antt =====
-- The size of an encoded lane (src/pyrewire/_core/lanes.py).
use pyre_wire.Prelude.{ℕ, ◌<◌, ◌≡◌, inl, inr, Option, none, some, Bool-cases, arith}
use pyre_wire.Prelude.Int.{ℤ}
use pyre_wire.Python.Result.{Result, ok, err, >>=-eq-ok}
use pyre_wire.Python.Words.{word_mod, mask64-lt}
use pyre_wire.Python.Float.{is_integer, int_of_float}
use pyre_wire.Python.Value.{Value, Object, float_of, float_of-lt, int_of_bool, IsBinary64}
use pyre_wire.Ffi.Enums.{ColumnType}
use pyre_wire.Lanes.{
  encode_lane, as_float, encode_by_type, encode_non_float, encode_integral, unless_lost,
  encode_index, encode_object, wrap_float_error, float_conversion_lost_value, is_number_like,
}

encode_index-lt : (r : Result ℤ) {w : ℕ} → encode_index r ≡ ok w → w < word_mod
unfolding encode_index
encode_index-lt (ok n) h = ground (arith, mask64-lt n)
encode_index-lt (err e) h = cc

unless_lost-lt : (v : Value) (n : ℤ) {w : ℕ} → unless_lost v n ≡ ok w → w < word_mod
unfolding unless_lost
unless_lost-lt (Value.object o) n h =
    let (lost, _, rest) = >>=-eq-ok (float_conversion_lost_value o n) _ h in
    ground (arith, mask64-lt n)
unless_lost-lt _ n h = ground (arith, mask64-lt n)

encode_integral-lt : (v : Value) {w : ℕ} → encode_integral v ≡ ok w → w < word_mod
unfolding encode_integral
encode_integral-lt v h =
    let (f, _, stored) = >>=-eq-ok (as_float v) _ h in
    elim (Bool-cases (is_integer f)) [
      | inl whole ↦
          let (n, _, checked) = >>=-eq-ok (int_of_float f) (unless_lost v) (rw whole at stored) in
          unless_lost-lt v n checked
      | inr fractional ↦ absurd (ground arith)
    ]

encode_object-lt :
    (o : Object) (r : Option (Result ℤ)) {w : ℕ} → encode_object o r ≡ ok w → w < word_mod
unfolding encode_object
encode_object-lt o (some r) h = encode_index-lt r h
encode_object-lt o none h = encode_integral-lt (Value.object o) h

encode_non_float-lt : (v : Value) {w : ℕ} → encode_non_float v ≡ ok w → w < word_mod
unfolding encode_non_float
encode_non_float-lt (Value.int n) h = ground (arith, mask64-lt n)
encode_non_float-lt (Value.bool b) h = encode_index-lt (ok (int_of_bool b)) h
encode_non_float-lt (Value.float b) h = encode_integral-lt (Value.float b) h
encode_non_float-lt (Value.str s) h = cc
encode_non_float-lt (Value.object o) h = encode_object-lt o o.index h

wrap_float_error-eq-ok : (r : Result ℕ) {w : ℕ} → wrap_float_error r ≡ ok w → r ≡ ok w
unfolding wrap_float_error
wrap_float_error-eq-ok (ok b) h = h
wrap_float_error-eq-ok (err e) h = ground arith

as_float-lt : (v : Value) {w : ℕ} → IsBinary64 v → as_float v ≡ ok w → w < word_mod
unfolding as_float
as_float-lt v fits h = float_of-lt v fits (wrap_float_error-eq-ok (float_of v) h)

encode_by_type-lt :
    (v : Value) (t : ColumnType) {w : ℕ} → IsBinary64 v → encode_by_type v t ≡ ok w → w < word_mod
unfolding encode_by_type
encode_by_type-lt v ColumnType.float fits h = as_float-lt v fits h
encode_by_type-lt v _ fits h = encode_non_float-lt v h

-- A value that encodes, encodes to a 64-bit word.
pub encode_lane-lt :
    (v : Value) (t : ColumnType) {w : ℕ} → IsBinary64 v → encode_lane v t ≡ ok w → w < word_mod
unfolding encode_lane
encode_lane-lt (Value.str s) t fits h = cc
encode_lane-lt (Value.object o) t fits h = elim (Bool-cases (is_number_like o)) [
  | inl yes_number ↦ encode_by_type-lt (Value.object o) t fits (rw yes_number at h)
  | inr no_number ↦ absurd (ground arith)
]
encode_lane-lt v t fits h = encode_by_type-lt v t fits h
