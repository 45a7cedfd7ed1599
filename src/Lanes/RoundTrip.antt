-- ===== src/Lanes/RoundTrip.antt =====
-- What a lane keeps of a value (src/pyrewire/_core/lanes.py).
use pyre_wire.Prelude.{ℕ, zero, suc, ◌≤◌, ◌<◌, ◌≡◌, refl, ap, true, false, arith, nat_eq}
use pyre_wire.Prelude.Int.{pos}
use pyre_wire.Python.Result.{ok, ◌>>=◌}
use pyre_wire.Python.Words.{
  mask64, word_mod, IsInt64, signed64-mask64, mask64-signed64, mask64_small,
}
use pyre_wire.Python.Value.{Value}
use pyre_wire.Ffi.Enums.{ColumnType}
use pyre_wire.Lanes.{
  encode_lane, decode_lane, encode_by_type, encode_non_float, encode_index, as_float,
  wrap_float_error,
}
use pyre_wire.Python.Value.{float_of}

-- The values that a column of the type holds as they are. A STRING column holds intern ids.
abbrev pub IsValueOf : ColumnType → Value → Type 0
IsValueOf ColumnType.float (Value.float b) = b < word_mod
IsValueOf ColumnType.bool (Value.bool b) = Unit
IsValueOf ColumnType.uint32 (Value.int (pos n)) = n < word_mod
IsValueOf ColumnType.uint64 (Value.int (pos n)) = n < word_mod
IsValueOf ColumnType.int32 (Value.int n) = IsInt64 n
IsValueOf ColumnType.int64 (Value.int n) = IsInt64 n
IsValueOf ColumnType.string (Value.int n) = IsInt64 n
IsValueOf _ _ = ⊥

-- The lanes that a column of the type holds: a BOOL lane is 0 or 1.
abbrev pub IsLaneOf : ColumnType → ℕ → Type 0
IsLaneOf ColumnType.bool w = w ≤ 1
IsLaneOf _ w = w < word_mod

-- Decoding gives back every value that the column's type holds.
pub decode_lane-encode_lane :
    (t : ColumnType) (v : Value) → IsValueOf t v → (encode_lane v t >>= λ w. decode_lane w t) ≡ ok v
unfolding encode_lane encode_by_type encode_non_float encode_index as_float wrap_float_error
    float_of mask64 decode_lane
decode_lane-encode_lane ColumnType.float (Value.float b) h = ground arith
decode_lane-encode_lane ColumnType.bool (Value.bool true) h = refl
decode_lane-encode_lane ColumnType.bool (Value.bool false) h = refl
decode_lane-encode_lane ColumnType.uint32 (Value.int (pos n)) h = rw mask64_small
decode_lane-encode_lane ColumnType.uint64 (Value.int (pos n)) h = ground (arith, mask64_small n)
decode_lane-encode_lane ColumnType.int32 (Value.int n) h =
    ap (λ m. ok (Value.int m)) (signed64-mask64 n h)
decode_lane-encode_lane ColumnType.int64 (Value.int n) h =
    ap (λ m. ok (Value.int m)) (signed64-mask64 n h)
decode_lane-encode_lane ColumnType.string (Value.int n) h =
    ap (λ m. ok (Value.int m)) (signed64-mask64 n h)
decode_lane-encode_lane _ _ h = absurd h

-- Encoding gives back every lane that the column's type holds.
pub encode_lane-decode_lane :
    (t : ColumnType) (w : ℕ) → IsLaneOf t w → (decode_lane w t >>= λ v. encode_lane v t) ≡ ok w
unfolding encode_lane encode_by_type encode_non_float encode_index as_float wrap_float_error
    float_of mask64 decode_lane
encode_lane-decode_lane ColumnType.float w h = ground arith
encode_lane-decode_lane ColumnType.bool zero h = refl
encode_lane-decode_lane ColumnType.bool (suc zero) h = refl
encode_lane-decode_lane ColumnType.bool (suc (suc n)) h = absurd (omega arith)
encode_lane-decode_lane ColumnType.uint32 w h = ap ok (mask64_small w h)
encode_lane-decode_lane ColumnType.uint64 w h = ap ok (mask64_small w h)
encode_lane-decode_lane _ w h = ap ok (mask64-signed64 w h)
