-- ===== src/Errors.antt =====
-- src/pyrewire/_core/errors.py: the exception classes, `check` and `error_string`.
pub mod Codes
use pyre_wire.Prelude.{
  ℕ, String, Bool, true, false, Option, none, some, List, [], ◌∷◌, if◌then◌else◌, ◌==◌, string_eq,
}
use pyre_wire.Prelude.Int.{ℤ, pos, int_eq}
use pyre_wire.Prelude.Dict.{Dict, lookup}
use pyre_wire.Python.Result.{
  ErrorClass, wirelog_error, parse_error, invalid_ir_error, exec_error, typed_row_error,
  memory_error, io_error, compound_saturated_error, compound_busy_error, version_error, mode_error,
  intern_error, Exc, wirelog, Result, ok, err, is_exception,
}
use pyre_wire.Ffi.Enums.{ErrorCode, error_code}

-- The class attribute `code`; a class that does not set it has its base's.
unfoldable pub class_code : ErrorClass → ℕ
class_code parse_error = error_code ErrorCode.parse
class_code invalid_ir_error = error_code ErrorCode.invalid_ir
class_code exec_error = error_code ErrorCode.exec
class_code typed_row_error = error_code ErrorCode.exec
class_code memory_error = error_code ErrorCode.memory
class_code io_error = error_code ErrorCode.io
class_code compound_saturated_error = error_code ErrorCode.compound_saturated
class_code compound_busy_error = error_code ErrorCode.compound_busy
class_code _ = error_code ErrorCode.unknown

abbrev code_of : ErrorCode → ℤ
code_of c = pos (error_code c)

-- `_CODE_TO_CLS`
abbrev code_to_class : Dict ℤ ErrorClass
code_to_class =
    (code_of ErrorCode.parse, parse_error)
    ∷ (code_of ErrorCode.invalid_ir, invalid_ir_error)
    ∷ (code_of ErrorCode.exec, exec_error)
    ∷ (code_of ErrorCode.memory, memory_error)
    ∷ (code_of ErrorCode.io, io_error)
    ∷ (code_of ErrorCode.compound_saturated, compound_saturated_error)
    ∷ (code_of ErrorCode.compound_busy, compound_busy_error)
    ∷ []

-- A text, or a fixed prefix with a number printed after it.
pub data Message : Type 0 where
  text : String → Message
  numbered : String → ℤ → Message

-- `_FALLBACK_TEXT`
abbrev fallback_text : Dict ℤ String
fallback_text =
    (code_of ErrorCode.ok_code, "OK")
    ∷ (code_of ErrorCode.parse, "parse error")
    ∷ (code_of ErrorCode.invalid_ir, "invalid IR")
    ∷ (code_of ErrorCode.exec, "execution error")
    ∷ (code_of ErrorCode.memory, "out of memory")
    ∷ (code_of ErrorCode.io, "I/O error")
    ∷ (code_of ErrorCode.compound_saturated, "compound arena saturated")
    ∷ (code_of ErrorCode.compound_busy, "compound arena busy")
    ∷ (code_of ErrorCode.unknown, "unknown error")
    ∷ []

-- `_FALLBACK_TEXT.get(code, f"wirelog_error_t={code}")`
unfoldable pub fallback : ℤ → Message
unfolding lookup
fallback code = elim (lookup code fallback_text) [
  | some s ↦ text s
  | none ↦ numbered "wirelog_error_t=" code
]

-- What the engine's function said: NULL and the empty text are both false.
of_engine : ℤ → Option String → Message
unfolding fallback
of_engine code none = fallback code
of_engine code (some s) = if s == "" then fallback code else text s

-- `except Exception: raw = None`
or_none : Result (Option String) → Result (Option String)
or_none (ok raw) = ok raw
or_none (err e) = if is_exception e then ok none else err e

-- `error_string(rc)`, over `wirelog_error_string` if the library exports it.
unfoldable pub error_string : Option (ℤ → Result (Option String)) → ℤ → Result Message
unfolding fallback of_engine or_none
error_string none code = ok (fallback code)
error_string (some fn) code = elim (or_none (fn code)) [
  | ok raw ↦ ok (of_engine code raw)
  | err e ↦ err e
]

class_or_base : Option ErrorClass → ErrorClass
class_or_base (some c) = c
class_or_base none = wirelog_error

-- `check(rc)`; the text that `error_string` gives the exception is not kept.
unfoldable pub check : ℤ → Result (Unit {0})
unfolding lookup class_or_base
check code =
    if code == code_of ErrorCode.ok_code
    then ok tt
    else err (wirelog (class_or_base (lookup code code_to_class)))
