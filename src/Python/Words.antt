-- ===== src/Python/Words.antt =====
-- The 64-bit words of ctypes and `struct`: a word is a number below 2 ^ 64.
use pyre_wire.Prelude.{ℕ, ◌==◌, nat_eq, ◌-◌, ◌%◌, ◌^◌, ◌<◌, ◌≡◌, arith, ltb, if◌then◌else◌}
use pyre_wire.Prelude.Int.{ℤ, pos, negsuc, ◌≤ℤ◌, int_eq}

abbrev pub word_mod : ℕ
word_mod = 2 ^ 64

-- `value & 0xFFFFFFFFFFFFFFFF`, the two's-complement bits of an integer.
unfoldable pub mask64 : ℤ → ℕ
mask64 (pos n) = n % word_mod
mask64 (negsuc n) = word_mod - 1 - n % word_mod

-- The value of a word read as `int64_t`.
unfoldable pub signed64 : ℕ → ℤ
signed64 w = if ltb w (2 ^ 63) then pos w else negsuc (word_mod - 1 - w)

-- `c_int64(v).value`: ctypes wraps and does not check.
unfoldable pub c_int64 : ℤ → ℤ
unfolding mask64 signed64
c_int64 v = signed64 (mask64 v)

-- `c_uint32(n).value`
unfoldable pub c_uint32 : ℕ → ℕ
c_uint32 n = n % 2 ^ 32

-- The 32 bits of an integer, which are `c_uint32(v).value`.
unfoldable pub mask32 : ℤ → ℕ
mask32 (pos n) = n % 2 ^ 32
mask32 (negsuc n) = 2 ^ 32 - 1 - n % 2 ^ 32

-- `c_int(v).value`
unfoldable pub c_int : ℤ → ℤ
unfolding mask32
c_int v = let w = mask32 v in if ltb w (2 ^ 31) then pos w else negsuc (2 ^ 32 - 1 - w)

-- The values of `int64_t`.
abbrev pub IsInt64 : ℤ → Type 0
IsInt64 v = (negsuc (2 ^ 63 - 1) ≤ℤ v) × (v ≤ℤ pos (2 ^ 63 - 1))

pub mask64-lt : (v : ℤ) → mask64 v < word_mod
unfolding mask64
mask64-lt (pos n) = omega arith
mask64-lt (negsuc n) = omega arith

pub signed64-mask64 : (v : ℤ) → IsInt64 v → signed64 (mask64 v) ≡ v
unfolding mask64 signed64
signed64-mask64 (pos n) h = ground arith
signed64-mask64 (negsuc n) h = ground arith

pub mask64-signed64 : (w : ℕ) → w < word_mod → mask64 (signed64 w) ≡ w
unfolding mask64 signed64
mask64-signed64 w h = ground arith

pub mask64_small : (n : ℕ) → n < word_mod → mask64 (pos n) ≡ n
unfolding mask64
mask64_small n h = omega arith

pub signed64-IsInt64 : (w : ℕ) → w < word_mod → IsInt64 (signed64 w)
unfolding signed64
signed64-IsInt64 w h = ground arith

pub c_int64-IsInt64 : (v : ℤ) → IsInt64 (c_int64 v)
unfolding c_int64
c_int64-IsInt64 v = signed64-IsInt64 _ (mask64-lt v)

-- An `int64_t` is 0 exactly if its bits are.
pub mask64-eq-zero : (v : ℤ) → IsInt64 v → (mask64 v == 0) ≡ (v == pos 0)
unfolding mask64
mask64-eq-zero (pos n) h = ground arith
mask64-eq-zero (negsuc n) h = ground arith
