-- ===== src/Python/Value.antt =====
-- Python values as the wrapper tells them apart.
use pyre_wire.Prelude.{
  ℕ, ◌^◌, ◌<◌, ◌≡◌, inl, inr, String, Bool, Option, none, some, Option-cases, arith, if◌then◌else◌,
}
use pyre_wire.Prelude.Int.{ℤ, pos}
use pyre_wire.Python.Float.{float_of_int, float_of_int-lt, int_of_float}
use pyre_wire.Python.Result.{Result, ok, err, type_error, value_error}

-- An object of another class: the protocols that it implements, each with what calling it does.
-- An `__index__` that returns no int is a `type_error`, as `operator.index` reports it.
pub record Object : Type 0 where
  pub index : Option (Result ℤ)
  pub float : Option (Result ℕ)
  -- `isinstance(value, numbers.Number)`
  pub is_number : Bool
  -- `bool(operator.ne(n, value))`
  pub ne_int : ℤ → Result Bool

-- A float is its bits. `bool` is a subclass of `int`, but not `int` itself.
pub data Value : Type 0 where
  int : ℤ → Value
  float : ℕ → Value
  bool : Bool → Value
  str : String → Value
  object : Object → Value

abbrev pub int_of_bool : Bool → ℤ
int_of_bool b = if b then pos 1 else pos 0

float_of_index : Option (Result ℤ) → Result ℕ
unfolding float_of_int
float_of_index none = err type_error
float_of_index (some (ok n)) = float_of_int n
float_of_index (some (err e)) = err e

-- `float(value)` of an object: by `__float__`, else by `__index__`.
float_of_object : Object → Result ℕ
unfolding float_of_index
float_of_object o = elim o.float [ some r ↦ r | none ↦ float_of_index o.index ]

-- `float(value)`. No caller passes a `str`: the encoder has rejected it before.
unfoldable pub float_of : Value → Result ℕ
unfolding float_of_int float_of_object
float_of (int n) = float_of_int n
float_of (float b) = ok b
float_of (bool b) = float_of_int (int_of_bool b)
float_of (str s) = err value_error
float_of (object o) = float_of_object o

-- A number as the batched insert takes it: `int(v)` truncates a float.
pub data Number : Type 0 where
  int : ℤ → Number
  float : ℕ → Number
  bool : Bool → Number

unfoldable pub int_of : Number → Result ℤ
unfolding int_of_float
int_of (Number.int n) = ok n
int_of (Number.float b) = int_of_float b
int_of (Number.bool b) = ok (int_of_bool b)

-- A float of the value's own, or one that its `__float__` returns, is a 64-bit pattern.
abbrev pub IsBinary64 : Value → Type 0
IsBinary64 (Value.float b) = b < 2 ^ 64
IsBinary64 (Value.object o) = (b : ℕ) → o.float ≡ some (ok b) → b < 2 ^ 64
IsBinary64 _ = Unit

float_of_index-lt : (r : Option (Result ℤ)) {b : ℕ} → float_of_index r ≡ ok b → b < 2 ^ 64
unfolding float_of_index
float_of_index-lt none h = cc
float_of_index-lt (some (ok n)) h = float_of_int-lt n h
float_of_index-lt (some (err e)) h = cc

float_of_object-lt :
    (o : Object) {b : ℕ} → IsBinary64 (Value.object o) → float_of_object o ≡ ok b → b < 2 ^ 64
unfolding float_of_object
float_of_object-lt o {b} fits h = elim (Option-cases o.float) [
  | inl no_float ↦ float_of_index-lt o.index (rw no_float at h)
  | inr (r, e) ↦ fits b (ground arith)
]

pub float_of-lt : (v : Value) {b : ℕ} → IsBinary64 v → float_of v ≡ ok b → b < 2 ^ 64
unfolding float_of
float_of-lt (Value.int n) fits h = float_of_int-lt n h
float_of-lt (Value.float c) fits h = ground arith
float_of-lt (Value.bool b) fits h = float_of_int-lt (int_of_bool b) h
float_of-lt (Value.str s) fits h = cc
float_of-lt (Value.object o) fits h = float_of_object-lt o fits h
