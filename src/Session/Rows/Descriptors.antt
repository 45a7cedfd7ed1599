-- ===== src/Session/Rows/Descriptors.antt =====
-- Typed rows there and back (src/pyrewire/session.py builds descriptors, src/pyrewire/_core/lanes.py
-- reads them).
use pyre_wire.Prelude.{
  ℕ, zero, suc, ◌+◌, ◌<◌, ◌≡◌, refl, ap, ◌∙◌, true, List, [], ◌∷◌, map, length, range, get_or,
  nat_beq_iff, arith, ◌==◌, nat_eq,
}
use pyre_wire.Python.Result.{Result, ok, ◌>>=◌, traverse}
use pyre_wire.Python.Value.{Value}
use pyre_wire.Ffi.Enums.{ColumnType, column_code, column_type}
use pyre_wire.Ffi.Enums.Members.{column_type_iff}
use pyre_wire.Lanes.{encode_lane, decode_lane, decode_column, decode_typed_row}
use pyre_wire.Lanes.RoundTrip.{IsValueOf, decode_lane-encode_lane}
use pyre_wire.Python.Result.{>>=-eq-ok}
use pyre_wire.Session.Rows.{array_of, encode_row, descriptor, build_typed_row}

-- A row with a value of each column's type.
abbrev pub IsRowOf : List ColumnType → List Value → Type 0
IsRowOf [] [] = Unit
IsRowOf (t ∷ ts) (v ∷ vs) = IsValueOf t v × IsRowOf ts vs
IsRowOf _ _ = ⊥

IsRowOf-length : (ts : List ColumnType) (vs : List Value) → IsRowOf ts vs → length vs ≡ length ts
IsRowOf-length [] [] h = refl
IsRowOf-length (t ∷ ts) (v ∷ vs) h = ap suc (IsRowOf-length ts vs h.1)
IsRowOf-length [] (v ∷ vs) h = absurd h
IsRowOf-length (t ∷ ts) [] h = absurd h

get_or-range : (s n i : ℕ) → i < n → get_or (range s n) i 0 ≡ s + i
get_or-range s zero i h = elim h [ ]
get_or-range s (suc n) zero h = omega arith
get_or-range s (suc n) (suc i) h = omega (arith, get_or-range (suc s) n i)

-- The cell of the column `i` of the arrays of codes and lanes.
abbrev cell : List ℕ → List ℕ → ℕ → Result Value
cell codes ws i = do t ← column_type (array_of codes i); decode_lane (array_of ws i) t

encode_row-cells :
    (ts : List ColumnType) (vs : List Value)
    → IsRowOf ts vs
    → (ws : List ℕ) × (encode_row ts vs ≡ ok ws)
      × ((k : ℕ) (g : ℕ → Result Value)
          → ((i : ℕ) → i < length ts → g (k + i) ≡ cell (map column_code ts) ws i)
          → traverse g (range k (length ts)) ≡ ok vs)
unfolding encode_row
encode_row-cells [] [] h = ([], refl, λ k g cells. refl)
encode_row-cells [] (v ∷ vs) h = absurd h
encode_row-cells (t ∷ ts) [] h = absurd h
encode_row-cells (t ∷ ts) (v ∷ vs) h =
    let (w, encoded, decoded) =
      >>=-eq-ok (encode_lane v t) (λ w. decode_lane w t) (decode_lane-encode_lane t v h.0) in
    let (ws, rest_encoded, rest) = encode_row-cells ts vs h.1 in
    (
      w ∷ ws,
      rw (encoded, rest_encoded),
      λ k g cells.
          let start : k ≡ k + 0 = omega arith in
          let first : g k ≡ ok v =
            ap g start
            ∙ cells 0 (omega arith)
            ∙ ap (λ r. r >>= λ t'. decode_lane w t') ((column_type_iff (column_code t) t).1 refl)
            ∙ decoded in
          let others = rest (suc k) g (λ i below.
            let shift : suc k + i ≡ k + suc i = omega arith in
            ap g shift ∙ cells (suc i) (omega arith)) in
          rw (first, others),
    )

decode_column-descriptor :
    (ts : List ColumnType) (ws : List ℕ) (i : ℕ)
    → i < length ts
    → decode_column (descriptor ts ws) (0 + i) ≡ cell (map column_code ts) ws i
unfolding decode_column descriptor
decode_column-descriptor ts ws i below =
    let index : 0 + i ≡ i = omega arith in
    let offset : get_or (range 0 (length ts)) i 0 ≡ i =
      get_or-range 0 (length ts) i below ∙ index in
    rw index (
      ap (λ k. column_type (array_of (map column_code ts) i) >>= λ t. decode_lane (array_of ws k) t)
        offset)

decode_typed_row-descriptor :
    (ts : List ColumnType) (ws : List ℕ) (row : List Value)
    → ((k : ℕ) (g : ℕ → Result Value)
        → ((i : ℕ) → i < length ts → g (k + i) ≡ cell (map column_code ts) ws i)
        → traverse g (range k (length ts)) ≡ ok row)
    → decode_typed_row (descriptor ts ws) ≡ ok row
unfolding decode_typed_row descriptor
decode_typed_row-descriptor ts ws row read =
    read 0 (decode_column (descriptor ts ws)) (decode_column-descriptor ts ws)

-- A row that has a value of each column's type gets a descriptor, and from that the engine's
-- callback decodes the very same row.
pub decode_typed_row-build_typed_row :
    (ts : List ColumnType) (row : List Value)
    → IsRowOf ts row
    → (build_typed_row ts row >>= decode_typed_row) ≡ ok row
unfolding build_typed_row
decode_typed_row-build_typed_row ts row h =
    let (ws, encoded, read) = encode_row-cells ts row h in
    let wide : (length row == length ts) ≡ true =
      (nat_beq_iff (length row) (length ts)).1 (IsRowOf-length ts row h) in
    rw (wide, encoded) (decode_typed_row-descriptor ts ws row read)
