-- ===== src/Program.antt =====
-- src/pyrewire/program.py: a parsed program, its schemas and its inline facts.
pub mod Facts
pub mod Files
pub mod Lifecycle
pub mod Strata
use pyre_wire.Prelude.{
  ℕ, ◌+◌, ◌*◌, String, Bool, true, false, not, ◌||◌, Option, none, some, List, [], ◌∷◌, map, range,
  ◌==◌, nat_eq, if◌then◌else◌,
}
use pyre_wire.Prelude.Int.{ℤ, pos, negsuc, int_eq}
use pyre_wire.Python.Result.{
  Exc, Result, ok, err, ◌>>=◌, traverse, wirelog, exec_error, parse_error, value_error,
  is_exception,
}
use pyre_wire.Python.Words.{mask64}
use pyre_wire.Python.Value.{Value}
use pyre_wire.Ffi.Enums.{ColumnType, column_type, CompoundKind, compound_kind, of_int}
use pyre_wire.Ffi.Types.{ColumnStruct, SchemaStruct, FactsOut, decode_or}
use pyre_wire.Intern.{InternTable, lookup_id}

pub record Column : Type 0 where
  pub name : String
  pub type : ColumnType
  pub kind : CompoundKind
  pub functor_id : ℕ
  pub arity : ℕ
  pub inline_col_offset : ℕ

pub record Schema : Type 0 where
  pub relation : String
  pub columns : List Column

-- A handle of 0 is NULL.
pub record Program : Type 0 where
  pub handle : ℕ
  pub closed : Bool

-- The functions of libwirelog and libc that a program calls, over their state `W`.
pub record ProgramLib (W : Type 0) : Type 0 where
  pub parse_string : String → W → (ℤ × ℕ) × W
  pub get_schema : ℕ → String → W → Option SchemaStruct
  pub get_facts : ℕ → String → W → FactsOut × W
  pub libc_free : ℕ → W → W
  pub program_free : ℕ → W → W

unfoldable pub column_of : ColumnStruct → Result Column
column_of c = do
  name ← decode_or "" c.name
  type ← of_int column_type c.type_code
  kind ← of_int compound_kind c.compound_kind
  ok (record {
    name = name;
    type = type;
    kind = kind;
    functor_id = c.compound_functor_id;
    arity = c.compound_arity;
    inline_col_offset = c.compound_inline_col_offset;
  })

-- What `schema` makes of the pointer that the engine returns.
unfoldable pub schema_of : String → Option SchemaStruct → Result (Option Schema)
schema_of relation none = ok none
schema_of relation (some s) = do
  columns ← traverse (λ i. column_of (s.columns i)) (range 0 s.column_count)
  name ← decode_or relation s.relation_name
  ok (some (record { relation = name; columns = columns }))

-- `[tuple(data[i * c + j] for j in range(c)) for i in range(r)]`
unfoldable pub rows_of : (ℕ → ℤ) → ℕ → ℕ → List (List ℤ)
rows_of cells r c = map (λ i. map (λ j. cells (i * c + j)) (range 0 c)) (range 0 r)

-- One cell of a row, by its column's type. `bool(raw)` is a test against 0, and a FLOAT column's
-- int64 is the bits of its float.
unfoldable pub decode_symbol : ℤ → Result String → Result Value
decode_symbol raw (ok s) = ok (Value.str s)
decode_symbol raw (err e) = if is_exception e then ok (Value.int raw) else err e

unfoldable pub decode_cell : Option InternTable → ColumnType → ℤ → Result Value
decode_cell none ColumnType.string raw = ok (Value.int raw)
decode_cell (some t) ColumnType.string raw = decode_symbol raw (lookup_id raw t)
decode_cell t ColumnType.bool raw = ok (Value.bool (not (raw == pos 0)))
decode_cell t ColumnType.float raw = ok (Value.float (mask64 raw))
decode_cell t _ raw = ok (Value.int raw)

-- `zip(sch.columns, raw_row, strict=True)`: a difference in length is a `ValueError`.
unfoldable pub decode_row : Option InternTable → List Column → List ℤ → Result (List Value)
decode_row t [] [] = ok []
decode_row t [] (v ∷ vs) = err value_error
decode_row t (c ∷ cs) [] = err value_error
decode_row t (c ∷ cs) (v ∷ vs) = do x ← decode_cell t c.type v; xs ← decode_row t cs vs; ok (x ∷ xs)

module _ {W : Type 0} (lib : ProgramLib W) where
  open lib use {parse_string, get_schema, get_facts, libc_free, program_free}

  -- `Program(handle)`
  unfoldable pub of_handle : ℕ → Result Program
  of_handle h =
      if h == 0 then err (wirelog parse_error) else ok (record { handle = h; closed = false })

  unfoldable pub from_string : String → W → Result Program × W
  from_string source w = let ((rc, h), w') = parse_string source w in (of_handle h, w')

  unfoldable pub schema : Program → String → W → Result (Option Schema)
  schema p relation w = schema_of relation (get_schema p.handle relation w)

  -- The rows of the buffer, which is freed once they are copied.
  unfoldable pub take_facts : FactsOut → W → Result (List (List ℤ)) × W
  take_facts out w =
      if out.rc == negsuc 0
      then (err (wirelog exec_error), w)
      else if out.rc == pos 1 || (out.nrows == 0 || out.address == 0)
      then (ok [], w)
      else (ok (rows_of out.cells out.nrows out.ncols), libc_free out.address w)

  unfoldable pub facts_raw : Program → String → W → Result (List (List ℤ)) × W
  facts_raw p relation w = let (out, w') = get_facts p.handle relation w in take_facts out w'

  decode_rows :
      Option InternTable → List Column → Result (List (List ℤ)) × W → Result (List (List Value)) × W
  decode_rows t cs (err e, w) = (err e, w)
  decode_rows t cs (ok rows, w) = (traverse (decode_row t cs) rows, w)

  facts_of :
      Program
      → String
      → Option InternTable
      → W
      → Result (Option Schema)
      → Result (List (List Value)) × W
  facts_of p relation t w (err e) = (err e, w)
  facts_of p relation t w (ok none) = (err (wirelog exec_error), w)
  facts_of p relation t w (ok (some s)) = decode_rows t s.columns (facts_raw p relation w)

  -- `facts(relation, intern)`
  unfoldable pub facts : Program → String → Option InternTable → W → Result (List (List Value)) × W
  unfolding facts_of decode_rows
  facts p relation t w = facts_of p relation t w (schema p relation w)

  unfoldable pub close : Program → W → Program × W
  close p w = if p.closed then (p, w) else (
    record { handle = 0; closed = true },
    if p.handle == 0 then w else program_free p.handle w,
  )
