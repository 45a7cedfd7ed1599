-- ===== src/Batch/Results.antt =====
-- The methods of `Result` (src/pyrewire/batch.py): cardinalities, CSV files and their rows.
use pyre_wire.Prelude.{
  ℕ, String, Bool, true, ◌||◌, Option, none, some, List, [], ◌∷◌, map, ◌==◌, nat_eq, string_eq,
  if◌then◌else◌,
}
use pyre_wire.Prelude.Int.{ℤ}
use pyre_wire.Python.Result.{Result, ok, err, ◌>>=◌ as bind, wirelog, exec_error}
use pyre_wire.Python.Exec.{Exec, finally, ◌>>=◌, ◌>>◌}
use pyre_wire.Python.Value.{Value}
use pyre_wire.Ffi.Enums.{ColumnType}
use pyre_wire.Callbacks.{at}
use pyre_wire.Program.{Column, Schema, schema}
use pyre_wire.Batch.{BatchLib, Batch, Relations, call_ok}

-- What Python's library does with texts and files: `int(s)` and `float(s)`, `s.strip().lower()`,
-- `mkstemp` with the `close` of its descriptor, `unlink` with its `OSError` suppressed, and the rows
-- that `csv.reader` reads from a file.
pub record Files (W : Type 0) : Type 0 where
  pub int_of_text : String → Result ℤ
  pub float_of_text : String → Result ℕ
  pub strip_lower : String → String
  pub mkstemp : W → Result String × W
  pub unlink : String → W → W
  pub read_csv : String → W → Result (List (List String))

-- `in ("1", "true", "t")`
abbrev pub is_true_text : String → Bool
is_true_text s = (s == "1") || ((s == "true") || (s == "t"))

abbrev int_value : Result ℤ → Result Value
int_value (ok n) = ok (Value.int n)
int_value (err e) = err e

abbrev float_value : Result ℕ → Result Value
float_value (ok b) = ok (Value.float b)
float_value (err e) = err e

abbrev pub cons_cell : Result Value → Result (List Value) → Result (List Value)
cons_cell (err e) r = err e
cons_cell (ok v) (err e) = err e
cons_cell (ok v) (ok vs) = ok (v ∷ vs)

abbrev pub cons_row : Result (List Value) → Result (List (List Value)) → Result (List (List Value))
cons_row (err e) r = err e
cons_row (ok v) (err e) = err e
cons_row (ok v) (ok vs) = ok (v ∷ vs)

module _ {W : Type 0} (files : Files W) where
  -- A cell, by its column's type.
  unfoldable pub convert_cell : ColumnType → String → Result Value
  convert_cell ColumnType.int32 cell = int_value (files.int_of_text cell)
  convert_cell ColumnType.int64 cell = int_value (files.int_of_text cell)
  convert_cell ColumnType.uint32 cell = int_value (files.int_of_text cell)
  convert_cell ColumnType.uint64 cell = int_value (files.int_of_text cell)
  convert_cell ColumnType.float cell = float_value (files.float_of_text cell)
  convert_cell ColumnType.bool cell = ok (Value.bool (is_true_text (files.strip_lower cell)))
  convert_cell _ cell = ok (Value.str cell)

  -- `for col, cell in zip(schema.columns, raw, strict=False)`
  unfoldable pub convert_row : List Column → List String → Result (List Value)
  convert_row [] cells = ok []
  convert_row (c ∷ cs) [] = ok []
  convert_row (c ∷ cs) (cell ∷ cells) = cons_cell (convert_cell c.type cell) (convert_row cs cells)

  -- A line of the file that is not empty.
  unfoldable pub convert_line : Option Schema → List String → Result (List Value)
  convert_line none raw = ok (map (λ s. Value.str s) raw)
  convert_line (some sch) raw = convert_row sch.columns raw

  -- The rows of `_read_csv`: empty lines are passed over.
  unfoldable pub convert_lines : Option Schema → List (List String) → Result (List (List Value))
  convert_lines sch [] = ok []
  convert_lines sch ([] ∷ lines) = convert_lines sch lines
  convert_lines sch ((cell ∷ cells) ∷ lines) =
      cons_row (convert_line sch (cell ∷ cells)) (convert_lines sch lines)

  unfoldable pub read_rows : String → Option Schema → W → Result (List (List Value))
  read_rows path sch w = bind (files.read_csv path w) (convert_lines sch)

module _ {W : Type 0} where
  -- `_check_open` of a result.
  unfoldable pub open_result : ℕ → Exec (Batch W) Relations
  open_result k s =
      let x = s.results k in if x.closed then (err (wirelog exec_error), s) else (ok x, s)

module _ {W : Type 0} (lib : BatchLib W) where
  -- `cardinality(relation)`
  unfoldable pub cardinality : ℕ → String → Exec (Batch W) ℤ
  cardinality k relation = do
    x ← open_result k
    (λ s. let (n, w) = lib.cardinality x.handle relation s.world in (ok n, record s { world = w }))

  -- `write_csv(relation, path)`
  unfoldable pub write_csv : ℕ → String → String → Exec (Batch W) (Unit {0})
  write_csv k relation path = do x ← open_result k; call_ok (lib.write_csv x.handle relation path)

  -- `self._program.schema(name)`, of the program that the result shares.
  unfoldable pub result_schema : String → Exec (Batch W) (Option Schema)
  result_schema relation s = (schema lib.program s.program relation s.world, s)

  -- The `try` and `finally` of `relation`, with its temporary file.
  unfoldable pub through_file :
      Files W → ℕ → String → Option Schema → String → Exec (Batch W) (List (List Value))
  through_file files k relation sch path =
      finally (do write_csv k relation path; (λ s. (read_rows files path sch s.world, s)))
        (λ s. record s { world = files.unlink path s.world })

  -- `tempfile.mkstemp` and `os.close`
  abbrev make_temp : Files W → Exec (Batch W) String
  make_temp files s = let (r, w) = files.mkstemp s.world in (r, record s { world = w })

  -- `relation(name)`
  unfoldable pub relation : Files W → ℕ → String → Exec (Batch W) (List (List Value))
  relation files k name = do
    open_result k
    sch ← result_schema name
    path ← make_temp files
    through_file files k name sch path

  -- `close` of a result.
  unfoldable pub close_result : ℕ → Batch W → Batch W
  close_result k s =
      let x = s.results k in
      if x.closed then s else record s {
        world = if x.handle == 0 then s.world else lib.result_free x.handle s.world;
        results = at s.results k (record { handle = 0; closed = true });
      }
