-- ===== src/Errors/Codes.antt =====
-- Which exception class stands for which engine code (src/pyrewire/_core/errors.py).
use pyre_wire.Prelude.{String, ◌≡◌, ◌⊎◌, ◌↔◌, inr, refl, true, Option, none, some, arith}
use pyre_wire.Prelude.Int.{ℤ, pos, negsuc, int_eq}
use pyre_wire.Python.Result.{
  ErrorClass, wirelog_error, typed_row_error, version_error, mode_error, intern_error, Exc, wirelog,
  Result, ok, err, is_exception,
}
use pyre_wire.Errors.{
  class_code, check, error_string, Message, or_none, of_engine, fallback, class_or_base,
  code_to_class,
}
use pyre_wire.Prelude.Dict.{lookup}

-- The classes that stand for an engine code of their own.
abbrev pub IsEngineClass : ErrorClass → Type 0
IsEngineClass wirelog_error = ⊥
IsEngineClass typed_row_error = ⊥
IsEngineClass version_error = ⊥
IsEngineClass mode_error = ⊥
IsEngineClass intern_error = ⊥
IsEngineClass _ = Unit

-- Success is the code 0 and no other.
pub check_iff : (rc : ℤ) → (check rc ≡ ok tt) ↔ (rc ≡ pos 0)
unfolding check
check_iff (pos n) = (λ h. ground arith, λ h. ground arith)
check_iff (negsuc n) = (λ h. ground arith, λ h. ground arith)

-- `check` raises an engine class exactly on that class's code: so the code of a caught exception is
-- the code that the engine returned.
pub check-class_code :
    (rc : ℤ) (c : ErrorClass)
    → IsEngineClass c
    → (check rc ≡ err (wirelog c)) ↔ (rc ≡ pos (class_code c))
unfolding check class_code
check-class_code (pos n) c e = (λ h. ground arith, λ h. ground arith)
check-class_code (negsuc n) c e = (λ h. ground arith, λ h. ground arith)

-- What `check` raises is an engine class or the base class: never the classes that PyreWire raises
-- itself for a row, the version, the mode or the intern table.
pub check-raises :
    (rc : ℤ) (e : Exc)
    → check rc ≡ err e
    → (c : ErrorClass) × (e ≡ wirelog c) × (IsEngineClass c ⊎ (c ≡ wirelog_error))
unfolding check class_or_base lookup
check-raises (pos n) e h =
    (class_or_base (lookup (pos n) code_to_class), ground arith, ground arith)
check-raises (negsuc n) e h = (wirelog_error, ground arith, inr refl)

or_none-total :
    (r : Result (Option String))
    → ((e : Exc) → r ≡ err e → is_exception e ≡ true)
    → (raw : Option String) × (or_none r ≡ ok raw)
unfolding or_none
or_none-total (ok raw) h = (raw, refl)
or_none-total (err e) h = (none, rw (h e refl))

-- `error_string` returns a text unless the engine's function raises what is no `Exception`.
pub error_string_total :
    (fn : Option (ℤ → Result (Option String))) (rc : ℤ)
    → ((f : ℤ → Result (Option String)) (e : Exc)
        → fn ≡ some f
        → f rc ≡ err e
        → is_exception e ≡ true)
    → (m : Message) × (error_string fn rc ≡ ok m)
unfolding error_string
error_string_total none rc h = (fallback rc, refl)
error_string_total (some f) rc h =
    let (raw, e) = or_none-total (f rc) (λ x raised. h f x refl raised) in
    (of_engine rc raw, rw (e, error_string))
