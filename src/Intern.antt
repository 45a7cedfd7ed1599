-- ===== src/Intern.antt =====
-- src/pyrewire/_core/intern.py: the cache of intern ids. `intern_fn` is the engine's call, which may
-- change the engine's state `W` and may raise. The table's lock is held for each whole method.
pub mod Mirror
use pyre_wire.Prelude.{ℕ, String, Bool, Option, none, some, length, if◌then◌else◌, string_eq, []}
use pyre_wire.Prelude.Int.{ℤ, pos, ltb_ℤ, int_eq}
use pyre_wire.Prelude.Dict.{Dict, lookup, insert, contains}
use pyre_wire.Python.Result.{Result, ok, err, wirelog, intern_error}

pub record InternTable : Type 0 where
  pub forward : Dict String ℤ
  pub reverse : Dict ℤ String

-- `InternTable(intern_fn)`
abbrev pub empty_table : InternTable
empty_table = record { forward = []; reverse = [] }

abbrev pub InternFn : Type 0 → Type 0
InternFn W = String → W → Result ℤ × W

-- `remember(sym_id, value)`
unfoldable pub remember : ℤ → String → InternTable → InternTable
remember id v t = record { forward = insert v id t.forward; reverse = insert id v t.reverse }

module _ {W : Type 0} where
  -- After the engine's call.
  unfoldable pub learn : String → InternTable → Result ℤ → W → Result ℤ × InternTable × W
  learn v t (err e) w = (err e, t, w)
  learn v t (ok rc) w =
      if ltb_ℤ rc (pos 0) then (err (wirelog intern_error), t, w) else (ok rc, remember rc v t, w)

  unfoldable pub intern_cached :
      InternFn W → String → InternTable → W → Option ℤ → Result ℤ × InternTable × W
  intern_cached fn v t w (some id) = (ok id, t, w)
  intern_cached fn v t w none = let (r, w') = fn v w in learn v t r w'

  -- `intern(value)`
  unfoldable pub intern : InternFn W → String → InternTable → W → Result ℤ × InternTable × W
  intern fn v t w = intern_cached fn v t w (lookup v t.forward)

unfoldable pub found : Option String → Result String
found none = err (wirelog intern_error)
found (some v) = ok v

-- `lookup(sym_id)`
unfoldable pub lookup_id : ℤ → InternTable → Result String
unfolding found
lookup_id id t = found (lookup id t.reverse)

-- `size()`
unfoldable pub size : InternTable → ℕ
size t = length t.forward

unfoldable pub contains_id : ℤ → InternTable → Bool
contains_id id t = contains id t.reverse

unfoldable pub contains_value : String → InternTable → Bool
contains_value v t = contains v t.forward
