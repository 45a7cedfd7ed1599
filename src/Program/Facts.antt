-- ===== src/Program/Facts.antt =====
-- The inline facts of a program (src/pyrewire/program.py): shape, totality and freeing.
use pyre_wire.Prelude.{
  ℕ, suc, ◌+◌, ◌*◌, ◌≡◌, ◌≢◌, refl, ap, sym, ◌∙◌, lt→ltb, String, not, Option, none, some, List, [],
  ◌∷◌, map, range, length, length-map, length-range, All, arith, ◌==◌, nat_eq,
}
use pyre_wire.Prelude.Int.{ℤ, pos, int_eq}
use pyre_wire.Prelude.Dict.{lookup}
use pyre_wire.Python.Result.{ok, traverse}
use pyre_wire.Python.Words.{mask64, IsInt64, signed64-mask64, mask64-lt, mask64-eq-zero, word_mod}
use pyre_wire.Python.Value.{Value}
use pyre_wire.Ffi.Enums.{ColumnType}
use pyre_wire.Ffi.Types.{FactsOut}
use pyre_wire.Intern.{InternTable, lookup_id, found}
use pyre_wire.Lanes.{decode_lane}
use pyre_wire.Program.{
  Column, Schema, Program, ProgramLib, rows_of, decode_cell, decode_symbol, decode_row, take_facts,
  facts_raw, facts, facts_of, decode_rows, schema,
}

decode_symbol-total :
    (raw : ℤ) (o : Option String) → (v : Value) × (decode_symbol raw (found o) ≡ ok v)
unfolding decode_symbol found
decode_symbol-total raw none = (Value.int raw, refl)
decode_symbol-total raw (some s) = (Value.str s, refl)

decode_cell-total :
    (t : Option InternTable) (c : ColumnType) (raw : ℤ) → (v : Value) × (decode_cell t c raw ≡ ok v)
unfolding decode_cell lookup_id
decode_cell-total none ColumnType.string raw = (Value.int raw, refl)
decode_cell-total (some t) ColumnType.string raw = decode_symbol-total raw (lookup raw t.reverse)
decode_cell-total none ColumnType.bool raw = (Value.bool (not (raw == pos 0)), refl)
decode_cell-total (some t) ColumnType.bool raw = (Value.bool (not (raw == pos 0)), refl)
decode_cell-total none ColumnType.float raw = (Value.float (mask64 raw), refl)
decode_cell-total (some t) ColumnType.float raw = (Value.float (mask64 raw), refl)
decode_cell-total none _ raw = (Value.int raw, refl)
decode_cell-total (some t) _ raw = (Value.int raw, refl)

-- A row with a cell for each column always decodes, to as many values; an id that was never
-- interned stays a number.
pub decode_row-total :
    (t : Option InternTable) (cs : List Column) (vs : List ℤ)
    → length cs ≡ length vs
    → (row : List Value) × (decode_row t cs vs ≡ ok row) × (length row ≡ length vs)
unfolding decode_row
decode_row-total t [] [] h = ([], refl, refl)
decode_row-total t [] (v ∷ vs) h = absurd (omega arith)
decode_row-total t (c ∷ cs) [] h = absurd (omega arith)
decode_row-total t (c ∷ cs) (v ∷ vs) h =
    let (x, ex) = decode_cell-total t c.type v in
    let (xs, exs, n) = decode_row-total t cs vs (omega arith) in (x ∷ xs, rw (ex, exs), ap suc n)

-- A cell with no intern table reads as the typed lane with the same bits does, but for the
-- unsigned types.
pub decode_cell-decode_lane :
    (c : ColumnType) (raw : ℤ)
    → IsInt64 raw
    → c ≢ ColumnType.uint32
    → c ≢ ColumnType.uint64
    → decode_cell none c raw ≡ decode_lane (mask64 raw) c
unfolding decode_cell decode_lane
decode_cell-decode_lane ColumnType.uint32 raw fits u32 u64 = absurd (u32 refl)
decode_cell-decode_lane ColumnType.uint64 raw fits u32 u64 = absurd (u64 refl)
decode_cell-decode_lane ColumnType.bool raw fits u32 u64 = rw (mask64-eq-zero raw fits)
decode_cell-decode_lane ColumnType.float raw fits u32 u64 =
    rw (lt→ltb (mask64 raw) word_mod (mask64-lt raw))
decode_cell-decode_lane _ raw fits u32 u64 =
    ap (λ v. ok (Value.int v)) (sym (signed64-mask64 raw fits))

rows_of-width :
    (cells : ℕ → ℤ) (c : ℕ) (is : List ℕ)
    → All (λ row. length row ≡ c) (map (λ i. map (λ j. cells (i * c + j)) (range 0 c)) is)
rows_of-width cells c [] = tt
rows_of-width cells c (i ∷ is) =
    (length-map (range 0 c) (λ j. cells (i * c + j)) ∙ length-range 0 c, rows_of-width cells c is)

decode_rows-total :
    (t : Option InternTable) (cs : List Column) (rows : List (List ℤ))
    → All (λ row. length row ≡ length cs) rows
    → (out : List (List Value)) × (traverse (decode_row t cs) rows ≡ ok out)
      × (length out ≡ length rows)
decode_rows-total t cs [] h = ([], refl, refl)
decode_rows-total t cs (row ∷ rows) h =
    let (x, ex, _) = decode_row-total t cs row (sym h.0) in
    let (xs, exs, n) = decode_rows-total t cs rows h.1 in (x ∷ xs, rw (ex, exs), ap suc n)

module _ {W : Type 0} (lib : ProgramLib W) where
  open lib use {get_facts, libc_free}

  -- The rows of a buffer are copied and the buffer is freed.
  take_facts_lem :
      (out : FactsOut) (w : W)
      → out.rc ≡ pos 0
      → out.nrows ≢ 0
      → out.address ≢ 0
      → take_facts lib out w ≡ (ok (rows_of out.cells out.nrows out.ncols), libc_free out.address w)
  unfolding take_facts
  take_facts_lem out w rc some_rows buffer = ground arith

  -- If the engine reports some rows as wide as the relation's schema, `facts` returns that many
  -- rows, whatever the cells hold, and frees the engine's buffer once.
  pub facts-total :
      (p : Program) (relation : String) (t : Option InternTable) (w w' : W) (s : Schema)
      (out : FactsOut)
      → schema lib p relation w ≡ ok (some s)
      → get_facts p.handle relation w ≡ (out, w')
      → out.rc ≡ pos 0
      → out.nrows ≢ 0
      → out.address ≢ 0
      → out.ncols ≡ length s.columns
      → (rows : List (List Value)) × (facts lib p relation t w
          ≡ (ok rows, libc_free out.address w'))
        × (length rows ≡ out.nrows)
  unfolding facts facts_raw facts_of decode_rows rows_of
  facts-total p relation t w w' s out declared got rc some_rows buffer width =
      let (rows, decoded, n) =
        decode_rows-total t s.columns (rows_of out.cells out.nrows out.ncols)
          (rw (← width) (rows_of-width out.cells out.ncols (range 0 out.nrows))) in
      (
        rows,
        cc (declared, got, take_facts_lem out w' rc some_rows buffer, decoded),
        n ∙ length-map (range 0 out.nrows) _ ∙ length-range 0 out.nrows,
      )

  -- A buffer that comes with no rows is not freed.
  pub facts_raw-keeps :
      (p : Program) (relation : String) (w w' : W) (out : FactsOut)
      → get_facts p.handle relation w ≡ (out, w')
      → out.rc ≡ pos 0
      → out.nrows ≡ 0
      → facts_raw lib p relation w ≡ (ok [], w')
  unfolding facts_raw take_facts
  facts_raw-keeps p relation w w' out got rc no_rows = rw got (ground arith)
