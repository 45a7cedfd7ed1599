-- ===== src/Helpers/Printing.antt =====
-- What the printer of deltas writes (src/pyrewire/helpers.py).
use pyre_wire.Prelude.{String, ◌≡◌, refl, Option, none, some, List, [], ◌∷◌, if◌then◌else◌}
use Prim.Native.String.{◌++◌}
use pyre_wire.Prelude.Dict.{lookup}
use pyre_wire.Prelude.Int.{pos, ltb_ℤ, int_eq}
use pyre_wire.Python.Result.{ok, traverse}
use pyre_wire.Python.Value.{Value, int_of_bool}
use pyre_wire.Callbacks.{Delta}
use pyre_wire.Intern.{InternTable, lookup_id, found}
use pyre_wire.Helpers.{print_line, text_of, or_unknown, join_comma}

-- The symbol of an id, or the id between `<intern:` and `>`.
abbrev pub symbol_or : String → Option String → String
symbol_or shown none = "<intern:" ++ (shown ++ ">")
symbol_or shown (some s) = s

or_unknown-found :
    (shown : String) (o : Option String) → or_unknown shown (found o) ≡ ok (symbol_or shown o)
unfolding or_unknown found
or_unknown-found shown none = refl
or_unknown-found shown (some s) = refl

module _ (format : Value → String) (repr : Value → String) (t : InternTable) where
  -- What is printed of a value: an int, and a `bool`, as the symbol with that id in the table.
  abbrev pub shown_value : Value → String
  shown_value (Value.int n) = symbol_or (format (Value.int n)) (lookup n t.reverse)
  shown_value (Value.bool b) = symbol_or (format (Value.bool b)) (lookup (int_of_bool b) t.reverse)
  shown_value (Value.str s) = repr (Value.str s)
  shown_value (Value.float b) = repr (Value.float b)
  shown_value (Value.object o) = repr (Value.object o)

  abbrev pub shown_row : List Value → List String
  shown_row [] = []
  shown_row (v ∷ vs) = shown_value v ∷ shown_row vs

  text_of_lem : (v : Value) → text_of format repr t v ≡ ok (shown_value v)
  unfolding text_of lookup_id
  text_of_lem (Value.int n) = or_unknown-found (format (Value.int n)) (lookup n t.reverse)
  text_of_lem (Value.bool b) =
      or_unknown-found (format (Value.bool b)) (lookup (int_of_bool b) t.reverse)
  text_of_lem (Value.str s) = refl
  text_of_lem (Value.float b) = refl
  text_of_lem (Value.object o) = refl

  texts_lem : (vs : List Value) → traverse (text_of format repr t) vs ≡ ok (shown_row vs)
  texts_lem [] = refl
  texts_lem (v ∷ vs) = rw (text_of_lem v, texts_lem vs) refl

  -- `_print` never raises, for any delta: its line has the sign of the weight, the relation, and for
  -- each value its own text, with `<intern:N>` for an int that is no id of the table.
  pub print_line-total :
      (d : Delta)
      → print_line format repr t d
        ≡ ok (
            (if ltb_ℤ (pos 0) d.2 then "+" else "-")
            ++ (d.0 ++ ("(" ++ (join_comma (shown_row d.1) ++ ")"))))
  unfolding print_line
  print_line-total (rel, row, diff) = rw (texts_lem row) refl
