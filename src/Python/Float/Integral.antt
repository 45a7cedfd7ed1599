-- ===== src/Python/Float/Integral.antt =====
-- The integer that a float stands for, apart from the way `is_integer` and `int` compute it.
use native.Mathlib.Nat.{div-add-mod', mul-mod_left, mul-div_left}
use pyre_wire.Prelude.{
  ℕ, ◌+◌, ◌*◌, ◌/◌, ◌%◌, ◌≡◌, ap, sym, ◌∙◌, Bool, true, arith, nat_eq, if◌then◌else◌,
}
use pyre_wire.Prelude.Int.{ℤ, pos, pos_part, neg_part, sub_ℕ}
use pyre_wire.Python.Result.{ok}
use pyre_wire.Python.Float.{
  unit, unit-pos, is_finite, is_negative, scaled, is_integer, int_of_float,
}

-- A finite float whose magnitude is a whole number of units stands for the integer of that
-- magnitude, with the float's sign; -0.0 stands for 0.
pub record Denotes (b : ℕ) (n : ℤ) : Type 0 where
  pub finite : is_finite b ≡ true
  pub whole : scaled b ≡ (pos_part n + neg_part n) * unit
  pub sign :
      n
      ≡ (if is_negative b then sub_ℕ 0 (pos_part n + neg_part n) else pos (pos_part n + neg_part n))

whole_units : (s p : ℕ) → s % p ≡ 0 → s ≡ s / p * p
whole_units s p h = omega (arith, div-add-mod' s p)

abbrev signed : Bool → ℕ → ℤ
signed negative m = if negative then sub_ℕ 0 m else pos m

signed_parts :
    (negative : Bool) (m : ℕ) → pos_part (signed negative m) + neg_part (signed negative m) ≡ m
signed_parts negative m = ground arith

-- `int` of an integral float is the integer that it stands for.
pub int_of_float-Denotes :
    (b : ℕ) → is_integer b ≡ true → (n : ℤ) × (int_of_float b ≡ ok n) × Denotes b n
unfolding is_integer int_of_float
int_of_float-Denotes b h =
    let m = scaled b / unit in
    let parts = signed_parts (is_negative b) m in
    (
      signed (is_negative b) m,
      ground arith,
      record {
        finite = ground arith;
        whole = rw parts (whole_units (scaled b) unit (ground arith));
        sign = rw parts;
      },
    )

-- A float that stands for an integer is integral.
pub Denotes-is_integer : {b : ℕ} {n : ℤ} → Denotes b n → is_integer b ≡ true
unfolding is_integer
Denotes-is_integer {b} {n} d =
    ground (
      arith,
      d.finite,
      ap (λ (s : ℕ). s % unit) d.whole,
      mul-mod_left (pos_part n + neg_part n) unit,
    )

-- `int` gives the integer that the float stands for.
pub Denotes-int_of_float : {b : ℕ} {n : ℤ} → Denotes b n → int_of_float b ≡ ok n
unfolding int_of_float
Denotes-int_of_float {b} {n} d =
    let quotient : scaled b / unit ≡ pos_part n + neg_part n =
      ap (λ (s : ℕ). s / unit) d.whole ∙ mul-div_left (pos_part n + neg_part n) unit-pos in
    rw (d.finite, quotient) (ap ok (sym d.sign))
