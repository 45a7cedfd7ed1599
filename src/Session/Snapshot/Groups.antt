-- ===== src/Session/Snapshot/Groups.antt =====
-- The groups of `snapshot_arrays` (src/pyrewire/session.py) against a filter.
use pyre_wire.Prelude.{
  subst, Bool-cases, inl, inr, String, ◌≡◌, refl, ap, sym, ◌∙◌, Option, none, some, List, [], ◌∷◌,
  ◌++◌, append-nil, append_assoc, ◌==◌, string_eq, if◌then◌else◌,
}
use pyre_wire.Prelude.Int.{ℤ}
use pyre_wire.Prelude.Dict.{Dict, lookup, lookup-insert}
use pyre_wire.Session.Snapshot.{appended, append_to, group_from, group}
use text.Mathlib.TextEquality.{eq_iff}

-- The rows of one relation, in their order.
abbrev pub rows_for : String → List (String × List ℤ) → List (List ℤ)
rows_for rel [] = []
rows_for rel ((name, vals) ∷ es) =
    let rest = rows_for rel es in if name == rel then vals ∷ rest else rest

-- More rows of a relation that may have some.
abbrev extend : Option (List (List ℤ)) → List (List ℤ) → Option (List (List ℤ))
extend none [] = none
extend none (v ∷ vs) = some (v ∷ vs)
extend (some rows) vs = some (rows ++ vs)

some-appended :
    (o : Option (List (List ℤ))) (vals : List ℤ) → some (appended o vals) ≡ extend o (vals ∷ [])
some-appended none vals = refl
some-appended (some rows) vals = refl

extend-nil : (o : Option (List (List ℤ))) → o ≡ extend o []
extend-nil none = refl
extend-nil (some rows) = ap some (sym (append-nil rows))

lookup-append_to :
    (rel name : String) (vals : List ℤ) (d : Dict String (List (List ℤ)))
    → lookup rel (append_to name vals d)
      ≡ (if name == rel then extend (lookup rel d) (vals ∷ []) else lookup rel d)
lookup-append_to rel name vals d =
    lookup-insert name rel (appended (lookup name d) vals) d ∙ elim (Bool-cases (name == rel)) [
      | inl same ↦ rw same (
          subst (λ r. some (appended (lookup name d) vals) ≡ extend (lookup r d) (vals ∷ []))
            ((eq_iff name rel).0 same) (some-appended (lookup name d) vals))
      | inr other ↦ rw other refl
    ]

extend-extend :
    (o : Option (List (List ℤ))) (v : List ℤ) (vs : List (List ℤ))
    → extend (extend o (v ∷ [])) vs ≡ extend o (v ∷ vs)
extend-extend none v [] = refl
extend-extend none v (u ∷ vs) = refl
extend-extend (some rows) v vs = ap some (append_assoc rows (v ∷ []) vs)

lookup-group_from :
    (rel : String) (es : List (String × List ℤ)) (d : Dict String (List (List ℤ)))
    → lookup rel (group_from d es) ≡ extend (lookup rel d) (rows_for rel es)
lookup-group_from rel [] d = extend-nil (lookup rel d)
lookup-group_from rel ((name, vals) ∷ es) d =
    lookup-group_from rel es (append_to name vals d) ∙ elim (Bool-cases (name == rel)) [
      | inl same ↦
          rw (lookup-append_to rel name vals d, same)
            (extend-extend (lookup rel d) vals (rows_for rel es))
      | inr other ↦ rw (lookup-append_to rel name vals d, other) refl
    ]

extend-none :
    (vs : List (List ℤ)) → extend none vs ≡ (elim vs [ [] ↦ none | v ∷ us ↦ some (v ∷ us) ])
extend-none [] = refl
extend-none (v ∷ us) = refl

-- A relation's group is its rows in the order of the snapshot, and a relation without rows has no
-- group.
pub lookup-group :
    (rel : String) (es : List (String × List ℤ))
    → lookup rel (group es) ≡ (elim (rows_for rel es) [ [] ↦ none | v ∷ vs ↦ some (v ∷ vs) ])
unfolding group lookup
lookup-group rel es = lookup-group_from rel es [] ∙ extend-none (rows_for rel es)
