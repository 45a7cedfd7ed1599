-- ===== src/Python/Float.antt =====
-- Python's floats are IEEE-754 binary64; a float is its 64 bits, so that `struct` moves it between
-- a float and a lane unchanged. The value of a finite float with significand `m` and scale `s` is
-- m * 2 ^ s / 2 ^ 1075, negated if the sign bit is set.
pub mod Integral
use pyre_wire.Prelude.{
  ℕ, zero, suc, ◌+◌, ◌-◌, ◌*◌, ◌/◌, ◌%◌, ◌^◌, ◌<◌, ◌≡◌, arith, max, Bool, not, ◌&&◌, ◌||◌, ltb, leb,
  ◌==◌, nat_eq, if◌then◌else◌,
}
use pyre_wire.Prelude.Int.{ℤ, pos, negsuc, sub_ℕ}
use pyre_wire.Python.Result.{Result, ok, err, value_error, overflow_error}

-- The unit of `scaled` below. It stays shut: no proof needs its digits.
unfoldable pub unit : ℕ
unit = 2 ^ 1075

unfoldable pub exponent : ℕ → ℕ
exponent b = b / 2 ^ 52 % 2048

unfoldable pub fraction : ℕ → ℕ
fraction b = b % 2 ^ 52

unfoldable pub is_negative : ℕ → Bool
is_negative b = b / 2 ^ 63 % 2 == 1

unfoldable pub is_finite : ℕ → Bool
unfolding exponent
is_finite b = not (exponent b == 2047)

unfoldable pub significand : ℕ → ℕ
unfolding exponent fraction
significand b = if exponent b == 0 then fraction b else 2 ^ 52 + fraction b

-- 2 ^ 1075 times the magnitude of a finite float.
unfoldable pub scaled : ℕ → ℕ
unfolding significand exponent
scaled b = significand b * 2 ^ max 1 (exponent b)

-- `f.is_integer()`
unfoldable pub is_integer : ℕ → Bool
is_integer b = is_finite b && scaled b % unit == 0

-- `int(f)` truncates; a NaN is a `ValueError`, an infinity an `OverflowError`.
unfoldable pub int_of_float : ℕ → Result ℤ
int_of_float b =
    if is_finite b
    then (let n = scaled b / unit in ok (if is_negative b then sub_ℕ 0 n else pos n))
    else if fraction b == 0
    then err overflow_error
    else err value_error

-- The number of binary digits; a number has fewer digits than its value, so it is fuel enough.
bit_length_from : ℕ → ℕ → ℕ
bit_length_from zero n = 0
bit_length_from (suc fuel) n =
    let rest = suc (bit_length_from fuel (n / 2)) in if n == 0 then 0 else rest

unfoldable pub bit_length : ℕ → ℕ
unfolding bit_length_from
bit_length n = bit_length_from n n

-- The 53 leading binary digits of a number of `k` digits, rounded half to even.
unfoldable pub round_to_53 : ℕ → ℕ → ℕ
round_to_53 k n =
    if leb k 53
    then n * 2 ^ (53 - k)
    else (let q = n / 2 ^ (k - 53) in
        let r = n % 2 ^ (k - 53) in
        let half = 2 ^ (k - 54) in if ltb half r || (r == half && q % 2 == 1) then q + 1 else q)

-- A rounding up to 2 ^ 53 carries into the exponent, as the sum does here.
magnitude_bits : ℕ → ℕ
unfolding bit_length round_to_53
magnitude_bits n =
    if n == 0 then 0 else (let k = bit_length n in (k + 1022) * 2 ^ 52 + round_to_53 k n - 2 ^ 52)

-- `float(n)` of an int, which overflows rather than give an infinity.
unfoldable pub float_of_int : ℤ → Result ℕ
unfolding magnitude_bits
float_of_int (pos n) =
    let b = magnitude_bits n in if ltb b (2047 * 2 ^ 52) then ok b else err overflow_error
float_of_int (negsuc n) =
    let b = magnitude_bits (suc n) in
    if ltb b (2047 * 2 ^ 52) then ok (2 ^ 63 + b) else err overflow_error

pub unit-pos : 0 < unit
unfolding unit
unit-pos = omega arith

pub float_of_int-lt : (n : ℤ) {b : ℕ} → float_of_int n ≡ ok b → b < 2 ^ 64
unfolding float_of_int
float_of_int-lt (pos n) h = ground arith
float_of_int-lt (negsuc n) h = ground arith
