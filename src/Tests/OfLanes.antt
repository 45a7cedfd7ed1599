-- ===== src/Tests/OfLanes.antt =====
-- Lanes (src/pyrewire/_core/lanes.py) at concrete values.
use pyre_wire.Prelude.{ℕ, ◌≡◌, ◌↔◌, refl, true, none, some, arith, not, ◌==◌}
use pyre_wire.Prelude.Int.{ℤ, pos, negsuc, int_eq}
use pyre_wire.Python.Result.{ok, err, ◌>>=◌, type_error}
use pyre_wire.Python.Words.{mask64}
use pyre_wire.Python.Value.{Value, Object, float_of}
use pyre_wire.Python.Float.{is_integer, int_of_float, is_finite, scaled, unit, is_negative}
use pyre_wire.Ffi.Enums.{ColumnType}
use pyre_wire.Lanes.{
  encode_lane, decode_lane, encode_by_type, encode_non_float, encode_object, encode_integral,
  as_float, wrap_float_error, is_number_like, unless_lost, float_conversion_lost_value,
  accept_on_error,
}
use pyre_wire.Lanes.RoundTrip.{decode_lane-encode_lane}
use pyre_wire.Lanes.Exactness.{encode_lane-float_iff}
use pyre_wire.Python.Float.Integral.{Denotes}

-- 1.5
abbrev one_and_a_half : ℕ
one_and_a_half = 0x3FF8_0000_0000_0000

-- An object like `Decimal(3)`, and one whose `__index__` raises.
abbrev decimal_three : Object
decimal_three = record {
  index = none;
  float = some (ok 0x4008_0000_0000_0000);
  is_number = true;
  ne_int = λ n. ok (not (n == pos 3));
}

decode_lane-encode_lane_example :
    (encode_lane (Value.int (negsuc 4)) ColumnType.int64 >>= λ w. decode_lane w ColumnType.int64)
    ≡ ok (Value.int (negsuc 4))
decode_lane-encode_lane_example =
    decode_lane-encode_lane ColumnType.int64 (Value.int (negsuc 4)) (omega arith, omega arith)

encode_lane-float_iff_example :
    (encode_lane (Value.float one_and_a_half) ColumnType.int32 ≡ ok 1)
    ↔ ((n : ℤ) × Denotes one_and_a_half n × (1 ≡ mask64 n))
encode_lane-float_iff_example = encode_lane-float_iff one_and_a_half ColumnType.int32 1 (λ e. cc)

decimal_stored : encode_lane (Value.object decimal_three) ColumnType.int64 ≡ ok 3
unfolding encode_lane encode_by_type encode_non_float encode_object encode_integral as_float
    wrap_float_error is_number_like unless_lost float_conversion_lost_value accept_on_error float_of
    mask64 int_of_float is_integer is_finite scaled unit is_negative
decimal_stored = refl

text_refused : encode_lane (Value.str "3") ColumnType.int64 ≡ err type_error
unfolding encode_lane
text_refused = refl
