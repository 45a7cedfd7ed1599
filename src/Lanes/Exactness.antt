-- ===== src/Lanes/Exactness.antt =====
-- What an integer column stores for a float-like value (src/pyrewire/_core/lanes.py).
use pyre_wire.Prelude.{
  ℕ, ◌≡◌, ◌≢◌, ◌↔◌, inl, inr, refl, Bool, true, false, Option, none, some, Bool-cases, arith,
  if◌then◌else◌,
}
use pyre_wire.Prelude.Int.{ℤ}
use pyre_wire.Python.Result.{Result, ok, err, ◌>>=◌, >>=-eq-ok, value_error}
use pyre_wire.Python.Words.{mask64}
use pyre_wire.Python.Float.{is_integer, int_of_float}
use pyre_wire.Python.Float.Integral.{
  Denotes, int_of_float-Denotes, Denotes-is_integer, Denotes-int_of_float,
}
use pyre_wire.Python.Value.{Value, Object, float_of}
use pyre_wire.Ffi.Enums.{ColumnType}
use pyre_wire.Lanes.{
  encode_lane, as_float, wrap_float_error, encode_by_type, encode_non_float, encode_integral,
  unless_lost, encode_object, is_number_like, float_conversion_lost_value, accept_on_error,
}

-- A float in a column that is not FLOAT.
encode_lane-float :
    (b : ℕ) (t : ColumnType)
    → t ≢ ColumnType.float
    → encode_lane (Value.float b) t
      ≡ (if is_integer b then (do n ← int_of_float b; ok (mask64 n)) else err value_error)
unfolding encode_lane encode_by_type encode_non_float encode_integral unless_lost as_float
    wrap_float_error float_of
encode_lane-float b ColumnType.float h = absurd (h refl)
encode_lane-float b ColumnType.int32 h = refl
encode_lane-float b _ h = refl

-- In a column that is not FLOAT a float is stored exactly when it stands for an integer, and what
-- is stored is that integer's bits.
pub encode_lane-float_iff :
    (b : ℕ) (t : ColumnType) (w : ℕ)
    → t ≢ ColumnType.float
    → (encode_lane (Value.float b) t ≡ ok w) ↔ ((n : ℤ) × Denotes b n × (w ≡ mask64 n))
encode_lane-float_iff b t w h = rw (encode_lane-float b t h) (
    (
      λ stored. elim (Bool-cases (is_integer b)) [
        | inl whole ↦ let (n, truncated, d) = int_of_float-Denotes b whole in (n, d, ground arith)
        | inr fractional ↦ absurd (ground arith)
      ],
      λ (n, d, e). rw (Denotes-is_integer d, Denotes-int_of_float d, e),
    ))

-- A float that stands for no integer is a `ValueError` there.
pub encode_lane-fractional :
    (b : ℕ) (t : ColumnType)
    → t ≢ ColumnType.float
    → ((n : ℤ) → ¬ Denotes b n)
    → encode_lane (Value.float b) t ≡ err value_error
encode_lane-fractional b t h no_integer =
    rw (encode_lane-float b t h) (elim (Bool-cases (is_integer b)) [
      | inl whole ↦ let (n, _, d) = int_of_float-Denotes b whole in absurd (no_integer n d)
      | inr fractional ↦ rw fractional
    ])

unless_lost-eq :
    (o : Object)
    → o.is_number ≡ true
    → ((k : ℤ) → (d : Bool) × (o.ne_int k ≡ ok d))
    → (n : ℤ) {w : ℕ} → unless_lost (Value.object o) n ≡ ok w
    → (o.ne_int n ≡ ok false) × (w ≡ mask64 n)
unfolding unless_lost float_conversion_lost_value accept_on_error
unless_lost-eq o number answers n h = let (d, e) = answers n in ground (arith, e)

encode_integral-eq :
    (o : Object) {w : ℕ}
    → o.is_number ≡ true
    → ((k : ℤ) → (d : Bool) × (o.ne_int k ≡ ok d))
    → encode_integral (Value.object o) ≡ ok w
    → (n : ℤ) × (o.ne_int n ≡ ok false) × (w ≡ mask64 n)
unfolding encode_integral
encode_integral-eq o number answers h =
    let (f, _, stored) = >>=-eq-ok (as_float (Value.object o)) _ h in
    elim (Bool-cases (is_integer f)) [
      | inl whole ↦
          let (n, _, checked) =
            >>=-eq-ok (int_of_float f) (unless_lost (Value.object o)) (rw whole at stored) in
          let (same, e) = unless_lost-eq o number answers n checked in (n, same, e)
      | inr fractional ↦ absurd (ground arith)
    ]

encode_object-number :
    (o : Object) (r : Option (Result ℤ)) {w : ℕ}
    → r ≡ none
    → o.is_number ≡ true
    → ((k : ℤ) → (d : Bool) × (o.ne_int k ≡ ok d))
    → encode_object o r ≡ ok w
    → (n : ℤ) × (o.ne_int n ≡ ok false) × (w ≡ mask64 n)
unfolding encode_object
encode_object-number o none no_index number answers h = encode_integral-eq o number answers h
encode_object-number o (some r) no_index number answers h = absurd (cc)

-- A registered number with no `__index__` (a `Decimal`, a `Fraction`) whose comparison with an
-- integer answers: what a column that is not FLOAT stores for it is an integer that it does not
-- differ from. No value is rounded on the way.
pub encode_lane-number :
    (o : Object) (t : ColumnType) {w : ℕ}
    → t ≢ ColumnType.float
    → o.index ≡ none
    → o.is_number ≡ true
    → ((k : ℤ) → (d : Bool) × (o.ne_int k ≡ ok d))
    → encode_lane (Value.object o) t ≡ ok w
    → (n : ℤ) × (o.ne_int n ≡ ok false) × (w ≡ mask64 n)
unfolding encode_lane encode_by_type encode_non_float
encode_lane-number o t typed no_index number answers h = elim (Bool-cases (is_number_like o)) [
  | inl number_like ↦
      encode_object-number o o.index no_index number answers (by_type t typed (rw number_like at h))
  | inr other ↦ absurd (ground arith)
]
  where
    by_type :
        (t : ColumnType) {w : ℕ}
        → t ≢ ColumnType.float
        → encode_by_type (Value.object o) t ≡ ok w
        → encode_object o o.index ≡ ok w
    by_type ColumnType.float typed h = absurd (typed refl)
    by_type ColumnType.int32 typed h = h
    by_type _ typed h = h
