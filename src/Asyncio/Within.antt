-- ===== src/Asyncio/Within.antt =====
-- Lists with elements left out, as cancelling leaves the jobs of a pool (src/pyrewire/asyncio_session.py).
use pyre_wire.Prelude.{ℕ, zero, suc, ◌+◌, ◌≤◌, List, [], ◌∷◌, ◌++◌, length, arith}
use pyre_wire.Asyncio.{remove_at}

-- The first list is the second with some elements left out, the others in their order.
pub data IsWithin {B : Type 0} : List B → List B → Type 0 where
  none_left : IsWithin [] []
  in_both : {x : B} {xs ys : List B} → IsWithin xs ys → IsWithin (x ∷ xs) (x ∷ ys)
  left_out : {y : B} {xs ys : List B} → IsWithin xs ys → IsWithin xs (y ∷ ys)

module _ {B : Type 0} where
  pub IsWithin-refl : (xs : List B) → IsWithin xs xs
  IsWithin-refl [] = none_left
  IsWithin-refl (x ∷ xs) = in_both (IsWithin-refl xs)

  pub IsWithin-trans :
      {ys zs : List B} → IsWithin ys zs → (xs : List B) → IsWithin xs ys → IsWithin xs zs
  IsWithin-trans none_left xs h = h
  IsWithin-trans (left_out k) xs h = left_out (IsWithin-trans k xs h)
  IsWithin-trans (in_both k) _ (in_both {xs = xs} h) = in_both (IsWithin-trans k xs h)
  IsWithin-trans (in_both k) xs (left_out h) = left_out (IsWithin-trans k xs h)

  pub IsWithin-append :
      {xs ys : List B} (zs : List B) → IsWithin xs ys → IsWithin (xs ++ zs) (ys ++ zs)
  IsWithin-append zs none_left = IsWithin-refl zs
  IsWithin-append zs (in_both h) = in_both (IsWithin-append zs h)
  IsWithin-append zs (left_out h) = left_out (IsWithin-append zs h)

  pub IsWithin-prepend :
      (zs : List B) {xs ys : List B} → IsWithin xs ys → IsWithin (zs ++ xs) (zs ++ ys)
  IsWithin-prepend [] h = h
  IsWithin-prepend (z ∷ zs) h = in_both (IsWithin-prepend zs h)

  pub remove_at-IsWithin : (k : ℕ) (xs : List B) → IsWithin (remove_at k xs) xs
  unfolding remove_at
  remove_at-IsWithin k [] = none_left
  remove_at-IsWithin zero (x ∷ xs) = left_out (IsWithin-refl xs)
  remove_at-IsWithin (suc k) (x ∷ xs) = in_both (remove_at-IsWithin k xs)

  pub length-remove_at : (k : ℕ) (xs : List B) → length xs ≤ length (remove_at k xs) + 1
  unfolding remove_at
  length-remove_at k [] = omega arith
  length-remove_at zero (x ∷ xs) = omega arith
  length-remove_at (suc k) (x ∷ xs) = omega (arith, length-remove_at k xs)
