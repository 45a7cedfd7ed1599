-- ===== src/Helpers.antt =====
-- src/pyrewire/helpers.py: the printer of deltas, and the test for the engine's own printer.
pub mod Printing
use pyre_wire.Prelude.{
  ℕ, String, Bool, true, false, Option, none, some, List, [], ◌∷◌, ◌==◌, nat_eq, if◌then◌else◌,
}
use Prim.Native.String.{◌++◌}
use pyre_wire.Prelude.Int.{ℤ, pos, ltb_ℤ}
use pyre_wire.Python.Result.{Exc, Result, ok, err, ◌>>=◌, traverse, wirelog, intern_error}
use pyre_wire.Python.Value.{Value, int_of_bool}
use pyre_wire.Callbacks.{Delta, UserFn}
use pyre_wire.Intern.{InternTable, lookup_id}

-- A function that a caller passes: the object that it is, what `ctypes.cast(fn, c_void_p).value` is
-- (`none` where the cast raises, and an address of 0 is Python's `None`), and what a call of it does.
pub record Callable : Type 0 where
  pub object : ℕ
  pub address : Option (Option ℕ)
  pub call : UserFn

-- `LIB.wirelog_easy_print_delta`, a function pointer.
pub record PrintDelta : Type 0 where
  pub object : ℕ
  pub address : Option ℕ

-- Equality of two `c_void_p.value`.
abbrev same_address : Option ℕ → Option ℕ → Bool
same_address none none = true
same_address (some a) (some b) = a == b
same_address _ _ = false

abbrev cast_is : Option (Option ℕ) → Option ℕ → Bool
cast_is none a = false
cast_is (some b) a = same_address b a

-- `is_wirelog_print_delta(fn)`
unfoldable pub is_wirelog_print_delta : Option PrintDelta → Callable → Bool
is_wirelog_print_delta none fn = false
is_wirelog_print_delta (some target) fn =
    if fn.object == target.object then true else cast_is fn.address target.address

-- `', '.join(texts)`
unfoldable pub join_comma : List String → String
join_comma [] = ""
join_comma (s ∷ []) = s
join_comma (s ∷ ss) = s ++ (", " ++ join_comma ss)

-- What the `try` of `_print` makes of a lookup.
unfoldable pub or_unknown : String → Result String → Result String
or_unknown shown (ok s) = ok s
or_unknown shown (err (wirelog intern_error)) = ok ("<intern:" ++ (shown ++ ">"))
or_unknown shown (err e) = err e

-- `format` and `repr` are Python's renderings of a value.
module _ (format : Value → String) (repr : Value → String) (t : InternTable) where
  -- The text of one value of a row: `isinstance(value, int)` holds of a `bool` too.
  unfoldable pub text_of : Value → Result String
  text_of (Value.int n) = or_unknown (format (Value.int n)) (lookup_id n t)
  text_of (Value.bool b) = or_unknown (format (Value.bool b)) (lookup_id (int_of_bool b) t)
  text_of v = ok (repr v)

  -- The line that `_print` writes.
  unfoldable pub print_line : Delta → Result String
  print_line (rel, row, diff) = do
    texts ← traverse text_of row
    ok ((if ltb_ℤ (pos 0) diff then "+" else "-") ++ (rel ++ ("(" ++ (join_comma texts ++ ")"))))
