-- ===== src/Lanes/Errors.antt =====
-- Which exceptions leave `encode_lane` (src/pyrewire/_core/lanes.py). Its documentation names
-- `ValueError`, `TypeError` and `OverflowError`; what `except Exception` does not catch passes too.
use pyre_wire.Prelude.{
  ℕ, ◌≡◌, ◌≢◌, ◌⊎◌, inl, inr, refl, Bool, true, false, Option, none, some, Bool-cases, arith,
}
use pyre_wire.Prelude.Int.{ℤ}
use pyre_wire.Python.Result.{Exc, Result, ok, err, >>=-eq-err, is_conversion_error, is_exception}
use pyre_wire.Python.Float.{is_integer, int_of_float}
use pyre_wire.Python.Value.{Value, Object, float_of}
use pyre_wire.Ffi.Enums.{ColumnType}
use pyre_wire.Lanes.{
  encode_lane, as_float, wrap_float_error, encode_by_type, encode_non_float, encode_integral,
  unless_lost, encode_index, encode_object, is_number_like, float_conversion_lost_value,
  accept_on_error,
}

-- One of the documented classes, or no `Exception` at all.
abbrev pub IsDocumented : Exc → Type 0
IsDocumented e = (is_conversion_error e ≡ true) ⊎ (is_exception e ≡ false)

-- The object's `__index__`, if it raises, raises a documented exception.
abbrev pub HasDocumentedIndex : Value → Type 0
HasDocumentedIndex (Value.object o) = (e : Exc) → o.index ≡ some (err e) → IsDocumented e
HasDocumentedIndex _ = Unit

wrap_float_error-Documented : (r : Result ℕ) {e : Exc} → wrap_float_error r ≡ err e → IsDocumented e
unfolding wrap_float_error
wrap_float_error-Documented (ok b) h = cc
wrap_float_error-Documented (err e) h = ground arith

accept_on_error-Documented :
    (r : Result Bool) {e : Exc} → accept_on_error r ≡ err e → IsDocumented e
unfolding accept_on_error
accept_on_error-Documented (ok b) h = cc
accept_on_error-Documented (err e) h = ground arith

int_of_float-Documented : (b : ℕ) {e : Exc} → int_of_float b ≡ err e → IsDocumented e
unfolding int_of_float
int_of_float-Documented b h = ground arith

as_float-Documented : (v : Value) {e : Exc} → as_float v ≡ err e → IsDocumented e
unfolding as_float
as_float-Documented v h = wrap_float_error-Documented (float_of v) h

unless_lost-Documented : (v : Value) (n : ℤ) {e : Exc} → unless_lost v n ≡ err e → IsDocumented e
unfolding unless_lost float_conversion_lost_value
unless_lost-Documented (Value.object o) n {e} h =
    elim (>>=-eq-err (float_conversion_lost_value o n) _ h) [
      | inl raised ↦ accept_on_error-Documented (o.ne_int n) (ground arith)
      | inr (lost, _, stored) ↦ ground arith
    ]
unless_lost-Documented (Value.int m) n h = absurd (cc)
unless_lost-Documented _ n h = absurd (cc)

encode_integral-Documented : (v : Value) {e : Exc} → encode_integral v ≡ err e → IsDocumented e
unfolding encode_integral
encode_integral-Documented v h = elim (>>=-eq-err (as_float v) _ h) [
  | inl raised ↦ as_float-Documented v raised
  | inr (f, _, rest) ↦ elim (Bool-cases (is_integer f)) [
    | inr fractional ↦ ground arith
    | inl whole ↦ elim (>>=-eq-err (int_of_float f) (unless_lost v) (rw whole at rest)) [
      | inl raised ↦ int_of_float-Documented f raised
      | inr (n, _, checked) ↦ unless_lost-Documented v n checked
    ]
  ]
]

encode_object-Documented :
    (o : Object) (r : Option (Result ℤ)) {e : Exc}
    → ((e' : Exc) → r ≡ some (err e') → IsDocumented e')
    → encode_object o r ≡ err e
    → IsDocumented e
unfolding encode_object encode_index
encode_object-Documented o none documented h = encode_integral-Documented (Value.object o) h
encode_object-Documented o (some (ok n)) documented h = absurd (cc)
encode_object-Documented o (some (err e)) {e = e'} documented h = documented e' (cc)

encode_non_float-Documented :
    (v : Value) {e : Exc} → HasDocumentedIndex v → encode_non_float v ≡ err e → IsDocumented e
unfolding encode_non_float encode_index
encode_non_float-Documented (Value.int n) d h = absurd (cc)
encode_non_float-Documented (Value.bool b) d h = absurd (cc)
encode_non_float-Documented (Value.float b) d h = encode_integral-Documented (Value.float b) h
encode_non_float-Documented (Value.str s) d h = ground arith
encode_non_float-Documented (Value.object o) d h = encode_object-Documented o o.index d h

encode_by_type-Documented :
    (v : Value) (t : ColumnType) {e : Exc}
    → HasDocumentedIndex v
    → encode_by_type v t ≡ err e
    → IsDocumented e
unfolding encode_by_type
encode_by_type-Documented v ColumnType.float d h = as_float-Documented v h
encode_by_type-Documented v _ d h = encode_non_float-Documented v d h

-- If the value's `__index__` keeps to the documented exceptions, so does `encode_lane`, whatever
-- `__float__` and `__eq__` raise.
pub encode_lane-Documented :
    (v : Value) (t : ColumnType) {e : Exc}
    → HasDocumentedIndex v
    → encode_lane v t ≡ err e
    → IsDocumented e
unfolding encode_lane
encode_lane-Documented (Value.str s) t d h = ground arith
encode_lane-Documented (Value.object o) t d h = elim (Bool-cases (is_number_like o)) [
  | inl number_like ↦ encode_by_type-Documented (Value.object o) t d (rw number_like at h)
  | inr other ↦ ground arith
]
encode_lane-Documented v t d h = encode_by_type-Documented v t d h

-- Without that, any exception of `__index__` leaves `encode_lane` as it is, in every column that
-- is not FLOAT.
pub encode_lane-raising_index :
    (o : Object) (e : Exc) (t : ColumnType)
    → t ≢ ColumnType.float
    → o.index ≡ some (err e)
    → encode_lane (Value.object o) t ≡ err e
unfolding encode_lane is_number_like encode_by_type encode_non_float encode_object encode_index
encode_lane-raising_index o e ColumnType.float typed h = absurd (typed refl)
encode_lane-raising_index o e ColumnType.int32 typed h = ground arith
encode_lane-raising_index o e _ typed h = ground arith
