-- ===== src/Session/Rows.antt =====
-- Rows on their way to the engine (src/pyrewire/session.py): `_flatten` and `_build_typed_rows`.
pub mod RowMajor
pub mod Filling
pub mod Descriptors
use pyre_wire.Prelude.{
  ℕ, ◌+◌, ◌*◌, String, Bool, true, false, Option, none, some, List, [], ◌∷◌, map, length, range,
  get_or, ◌==◌, nat_eq, not, if◌then◌else◌,
}
use pyre_wire.Prelude.Int.{ℤ, pos}
use pyre_wire.Python.Result.{
  Exc, Result, ok, err, ◌>>=◌, ◌>>◌, traverse, value_error, wirelog, exec_error,
}
use pyre_wire.Python.Words.{c_int64, c_uint32}
use pyre_wire.Python.Value.{Value, Number, int_of}
use pyre_wire.Ffi.Enums.{ColumnType, column_code, CompoundKind}
use pyre_wire.Ffi.Types.{TypedRow}
use pyre_wire.Lanes.{encode_lane}
use pyre_wire.Callbacks.{at}
use pyre_wire.Program.{Column, Schema}

-- The buffer, `nrows` and `ncols`.
pub record Flat : Type 0 where
  pub cells : ℕ → ℤ
  pub nrows : ℕ
  pub ncols : ℕ

abbrev pub zeros : ℕ → ℤ
zeros i = pos 0

-- `flat[i * ncols + j] = int(v)` along a row, from the index `k` on.
unfoldable pub write_row : ℕ → List Number → (ℕ → ℤ) → Result (ℕ → ℤ)
write_row k [] cells = ok cells
write_row k (v ∷ vs) cells = do n ← int_of v; write_row (k + 1) vs (at cells k (c_int64 n))

-- The loop over the rows, from row `i` on.
unfoldable pub write_rows : ℕ → ℕ → List (List Number) → (ℕ → ℤ) → Result (ℕ → ℤ)
write_rows ncols i [] cells = ok cells
write_rows ncols i (r ∷ rs) cells =
    if not (length r == ncols)
    then err value_error
    else (do cells' ← write_row (i * ncols) r cells; write_rows ncols (i + 1) rs cells')

-- `_flatten(rows)`
unfoldable pub flatten : List (List Number) → Result Flat
flatten [] = ok (record { cells = zeros; nrows = 0; ncols = 0 })
flatten (r ∷ rs) =
    let ncols = length r in
    if ncols == 0 then err value_error else (do
      cells ← write_rows ncols 0 (r ∷ rs) zeros
      ok (record { cells = cells; nrows = length (r ∷ rs); ncols = ncols }))

-- An array of ctypes, initialised from a list.
abbrev pub array_of : List ℕ → ℕ → ℕ
array_of xs i = get_or xs i 0

abbrev pub is_inline : CompoundKind → Bool
is_inline CompoundKind.inline = true
is_inline _ = false

-- The loop of `_column_types` over a schema's columns.
unfoldable pub logical_types : List Column → Result (List ColumnType)
logical_types [] = ok []
logical_types (c ∷ cs) =
    if is_inline c.kind
    then err (wirelog exec_error)
    else (do ts ← logical_types cs; ok (c.type ∷ ts))

-- `_column_types(relation)`, of the schema that the program has.
unfoldable pub column_types_of : Option Schema → Result (List ColumnType)
column_types_of none = err (wirelog exec_error)
column_types_of (some s) = logical_types s.columns

-- `encode_lane(value, types[j])` along a row as wide as the types.
unfoldable pub encode_row : List ColumnType → List Value → Result (List ℕ)
encode_row [] [] = ok []
encode_row (t ∷ ts) (v ∷ vs) = do w ← encode_lane v t; ws ← encode_row ts vs; ok (w ∷ ws)
encode_row _ _ = err value_error

abbrev pub typed_row_struct_size : ℕ
typed_row_struct_size = 56

-- The descriptor of a row with the lanes: one lane for each column, in order.
unfoldable pub descriptor : List ColumnType → List ℕ → TypedRow
descriptor ts ws =
    let ncols = length ts in
    let codes = array_of (map column_code ts) in
    record {
      struct_size = typed_row_struct_size;
      abi_version = 1;
      reserved = 0;
      logical_ncols = ncols;
      physical_nlanes = ncols;
      physical_stride = ncols;
      types = codes;
      lane_offsets = array_of (range 0 ncols);
      physical_types = codes;
      lanes = array_of ws;
    }

-- One iteration of `_build_typed_rows`.
unfoldable pub build_typed_row : List ColumnType → List Value → Result TypedRow
build_typed_row ts row =
    if not (length row == length ts)
    then err value_error
    else (do ws ← encode_row ts row; ok (descriptor ts ws))

unfoldable pub build_typed_rows : List ColumnType → List (List Value) → Result (List TypedRow)
build_typed_rows ts rows = traverse (build_typed_row ts) rows
