-- ===== src/Tests/OfIntern.antt =====
-- The intern cache (src/pyrewire/_core/intern.py) with a concrete engine.
use pyre_wire.Prelude.{
  String, ◌≡◌, refl, Option, none, some, [], ◌∷◌, arith, ◌==◌, string_eq, if◌then◌else◌,
}
use text.Mathlib.TextEquality.{eq_iff}
use pyre_wire.Prelude.Int.{ℤ, pos, negsuc}
use pyre_wire.Prelude.Dict.{lookup}
use pyre_wire.Python.Result.{ok}
use pyre_wire.Intern.{InternTable, empty_table, InternFn, intern, intern_cached, learn, lookup_id}
use pyre_wire.Intern.Mirror.{Interner, Mirrors-empty, intern-lookup_id}

-- An engine that knows one string, with the id 5, and fails on every other.
abbrev pub one_string : InternFn (Unit {0})
one_string v w = if v == "edge" then (ok (pos 5), tt) else (ok (negsuc 0), tt)

abbrev known_to_it : Unit {0} → String → Option ℤ
known_to_it w v = if v == "edge" then some (pos 5) else none

abbrev pub one_string_engine : Interner (Unit {0})
one_string_engine = record {
  intern_fn = one_string;
  known = known_to_it;
  distinct = λ w u v n hu hv. ground (arith, eq_iff u "edge", eq_iff v "edge");
  assigns = λ w v n h valid. ground (arith, eq_iff v "edge");
  keeps = λ w u v n h. h;
}

interned : (intern one_string "edge" empty_table tt).0 ≡ ok (pos 5)
unfolding intern intern_cached learn lookup
interned = refl

intern-lookup_id_example :
    let (r, t, w) = intern one_string "edge" empty_table tt in
    (lookup_id (pos 5) t ≡ ok "edge") × (intern one_string "edge" t w ≡ (ok (pos 5), t, w))
intern-lookup_id_example =
    intern-lookup_id one_string_engine empty_table tt "edge" (Mirrors-empty one_string_engine tt)
      interned

abbrev table : InternTable
table = record { forward = ("edge", pos 5) ∷ []; reverse = (pos 5, "edge") ∷ [] }

in_table : lookup "edge" table.forward ≡ some (pos 5)
unfolding lookup
in_table = refl
