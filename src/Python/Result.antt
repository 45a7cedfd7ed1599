-- ===== src/Python/Result.antt =====
-- Exceptions as values. The classes of src/pyrewire/_core/errors.py are `ErrorClass`; the other
-- constructors are the built-in exceptions that the code raises or lets through. Messages are not
-- modelled, except for those that `error_string` computes.
use pyre_wire.Prelude.{
  ℕ, String, ◌≡◌, ◌⊎◌, inl, inr, refl, sym, ◌∙◌, Bool, true, false, Option, List, [], ◌∷◌,
}

-- `WirelogError` and its subclasses.
pub data ErrorClass : Type 0 where
  wirelog_error parse_error invalid_ir_error exec_error typed_row_error : ErrorClass
  memory_error io_error compound_saturated_error compound_busy_error : ErrorClass
  version_error mode_error intern_error : ErrorClass

-- `user n` and `base n` are exceptions of the caller's own code: below `Exception`, and below
-- `BaseException` only (such as `KeyboardInterrupt`). A Unicode error is a `value_error`.
pub data Exc : Type 0 where
  type_error value_error overflow_error runtime_error struct_error : Exc
  wirelog : ErrorClass → Exc
  typed_row : ℕ → Option ℕ → Option ℕ → Option String → Exc
  user base : ℕ → Exc

pub data Result {ℓ} (A : Type ℓ) : Type ℓ where
  ok : A → Result A
  err : Exc → Result A

pub ok-injective {ℓ} : {A : Type ℓ} {a b : A} → ok a ≡ ok b → a ≡ b
ok-injective h = cc

infixl 5 ◌>>=◌ ◌>>◌
abbrev pub ◌>>=◌ {ℓ κ} : {A : Type ℓ} {B : Type κ} → Result A → (A → Result B) → Result B
ok a >>= f = f a
err e >>= f = err e

abbrev pub ◌>>◌ {ℓ κ} : {A : Type ℓ} {B : Type κ} → Result A → Result B → Result B
m >> k = m >>= λ _. k

-- `except Exception`
abbrev pub is_exception : Exc → Bool
is_exception (base n) = false
is_exception _ = true

-- `except ExecError`, which catches `TypedRowError` too.
abbrev pub is_exec_error : Exc → Bool
is_exec_error (wirelog exec_error) = true
is_exec_error (wirelog typed_row_error) = true
is_exec_error (typed_row c r k m) = true
is_exec_error _ = false

-- `except (TypeError, ValueError, ArithmeticError)`
abbrev pub is_conversion_error : Exc → Bool
is_conversion_error type_error = true
is_conversion_error value_error = true
is_conversion_error overflow_error = true
is_conversion_error _ = false

module _ {ℓ κ} {A : Type ℓ} {B : Type κ} where
  -- `[f(x) for x in xs]`: the first exception ends it.
  abbrev pub traverse : (A → Result B) → List A → Result (List B)
  traverse f [] = ok []
  traverse f (x ∷ xs) = do y ← f x; ys ← traverse f xs; ok (y ∷ ys)

  -- A bind goes on with a value, or stops with an exception.
  pub >>=-cases :
      (m : Result A) (f : A → Result B)
      → ((a : A) × (m ≡ ok a) × ((m >>= f) ≡ f a)) ⊎ ((e : Exc) × (m ≡ err e) × ((m >>= f) ≡ err e))
  >>=-cases (ok a) f = inl (a, refl, refl)
  >>=-cases (err e) f = inr (e, refl, refl)

  pub >>=-eq-ok :
      {b : B} (m : Result A) (f : A → Result B)
      → (m >>= f) ≡ ok b
      → (a : A) × (m ≡ ok a) × (f a ≡ ok b)
  >>=-eq-ok m f bound = elim (>>=-cases m f) [
    | inl (a, went_on, result) ↦ (a, went_on, sym result ∙ bound)
    | inr (e, stopped, result) ↦ absurd (cc (result, bound))
  ]

  pub >>=-eq-err :
      {e : Exc} (m : Result A) (f : A → Result B)
      → (m >>= f) ≡ err e
      → (m ≡ err e) ⊎ ((a : A) × (m ≡ ok a) × (f a ≡ err e))
  >>=-eq-err m f bound = elim (>>=-cases m f) [
    | inl (a, went_on, result) ↦ inr (a, went_on, sym result ∙ bound)
    | inr (x, stopped, result) ↦ inl (cc (stopped, result, bound))
  ]
