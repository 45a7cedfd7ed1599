-- ===== src/Batch/Csv.antt =====
-- The rows of a relation, through a temporary file (src/pyrewire/batch.py).
use pyre_wire.Prelude.{
  ℕ, String, ◌≡◌, refl, ◌∙◌, Bool, true, false, Option, some, List, [], ◌∷◌, if◌then◌else◌,
}
use pyre_wire.Prelude.Int.{ℤ}
use pyre_wire.Python.Result.{Result, ok, err, traverse, ◌>>=◌}
use pyre_wire.Python.Value.{Value}
use pyre_wire.Program.{Column, Schema, schema}
use pyre_wire.Batch.{BatchLib, Batch, call_ok, raise_exec}
use pyre_wire.Batch.Results.{
  Files, relation, through_file, write_csv, open_result, result_schema, read_rows, convert_lines,
  convert_line, convert_row, convert_cell, cons_cell, cons_row,
}

module _ {W : Type 0} (lib : BatchLib W) (files : Files W) where
  open_result_lem :
      (k : ℕ) (s : Batch W) → (s.results k).closed ≡ false → open_result k s ≡ (ok (s.results k), s)
  unfolding open_result
  open_result_lem k s e = rw e refl

  through_file_lem :
      (k : ℕ) (name path : String) (sch : Option Schema) (s : Batch W) (w : W) (worked : Bool)
      (rc : ℤ)
      → (s.results k).closed ≡ false
      → lib.write_csv (s.results k).handle name path s.world ≡ ((worked, rc), w)
      → through_file lib files k name sch path s ≡ (
        if worked then read_rows files path sch w else raise_exec rc,
        record s { world = files.unlink path w },
      )
  unfolding through_file write_csv call_ok
  through_file_lem k name path sch s w true rc is_open written =
      rw (open_result_lem k s is_open, written) refl
  through_file_lem k name path sch s w false rc is_open written =
      rw (open_result_lem k s is_open, written) refl

  -- `relation` of an open result, whose schema can be read, once there is a temporary file: the engine
  -- writes the file, the rows are read from it if the engine says that it did, and else an exception is
  -- raised; in both cases the file is removed, last, and nothing else has changed.
  pub relation-unlinks :
      (k : ℕ) (name path : String) (sch : Option Schema) (s : Batch W) (w w' : W) (worked : Bool)
      (rc : ℤ)
      → (s.results k).closed ≡ false
      → schema lib.program s.program name s.world ≡ ok sch
      → files.mkstemp s.world ≡ (ok path, w)
      → lib.write_csv (s.results k).handle name path w ≡ ((worked, rc), w')
      → relation lib files k name s ≡ (
        if worked then read_rows files path sch w' else raise_exec rc,
        record s { world = files.unlink path w' },
      )
  unfolding relation result_schema
  relation-unlinks k name path sch s w w' worked rc is_open known made written =
      rw (open_result_lem k s is_open, known, made)
        (through_file_lem k name path sch (record s { world = w }) w' worked rc is_open written)

module _ {W : Type 0} (files : Files W) where
  -- `zip(columns, cells)`: as far as both go.
  abbrev pub zip_cells : List Column → List String → List (Column × String)
  zip_cells [] cells = []
  zip_cells (c ∷ cs) [] = []
  zip_cells (c ∷ cs) (cell ∷ cells) = (c, cell) ∷ zip_cells cs cells

  abbrev pub non_empty : List (List String) → List (List String)
  non_empty [] = []
  non_empty ([] ∷ lines) = non_empty lines
  non_empty ((cell ∷ cells) ∷ lines) = (cell ∷ cells) ∷ non_empty lines

  -- The rows of the lines that are not empty, cell by cell.
  abbrev pub rows_by_columns : List Column → List (List String) → Result (List (List Value))
  rows_by_columns cs lines =
      traverse
        (λ cells. traverse (λ (c, cell). convert_cell files c.type cell) (zip_cells cs cells))
        (non_empty lines)

  cons_cell_lem :
      (r : Result Value) (rest : Result (List Value))
      → cons_cell r rest ≡ (do v ← r; vs ← rest; ok (v ∷ vs))
  cons_cell_lem (ok v) (ok vs) = refl
  cons_cell_lem (ok v) (err e) = refl
  cons_cell_lem (err e) rest = refl

  cons_row_lem :
      (r : Result (List Value)) (rest : Result (List (List Value)))
      → cons_row r rest ≡ (do v ← r; vs ← rest; ok (v ∷ vs))
  cons_row_lem (ok v) (ok vs) = refl
  cons_row_lem (ok v) (err e) = refl
  cons_row_lem (err e) rest = refl

  convert_row_lem :
      (cs : List Column) (cells : List String)
      → convert_row files cs cells
        ≡ traverse (λ (c, cell). convert_cell files c.type cell) (zip_cells cs cells)
  unfolding convert_row
  convert_row_lem [] cells = refl
  convert_row_lem (c ∷ cs) [] = refl
  convert_row_lem (c ∷ cs) (cell ∷ cells) =
      cons_cell_lem (convert_cell files c.type cell) (convert_row files cs cells)
      ∙ rw (convert_row_lem cs cells) refl

  -- The rows that are read from the lines of a CSV file, by the columns of a schema: one row for each
  -- line that is not empty, in order, with one value for each cell that has a column; cells past the
  -- columns are left out. The first cell that cannot be converted raises.
  pub convert_lines-rows_by_columns :
      (sch : Schema) (lines : List (List String))
      → convert_lines files (some sch) lines ≡ rows_by_columns sch.columns lines
  unfolding convert_lines convert_line
  convert_lines-rows_by_columns sch [] = refl
  convert_lines-rows_by_columns sch ([] ∷ lines) = convert_lines-rows_by_columns sch lines
  convert_lines-rows_by_columns sch ((cell ∷ cells) ∷ lines) =
      cons_row_lem (convert_row files sch.columns (cell ∷ cells))
        (convert_lines files (some sch) lines)
      ∙ rw (convert_row_lem sch.columns (cell ∷ cells), convert_lines-rows_by_columns sch lines)
          refl
