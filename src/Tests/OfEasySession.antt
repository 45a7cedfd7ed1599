-- ===== src/Tests/OfEasySession.antt =====
-- Rows of an `EasySession` (src/pyrewire/session.py) with a concrete engine.
use pyre_wire.Prelude.{String, ◌≡◌, refl, true, List, [], ◌∷◌, All, map, arith, string_eq}
use pyre_wire.Prelude.Int.{pos}
use pyre_wire.Prelude.Dict.{lookup}
use pyre_wire.Python.Result.{ok}
use pyre_wire.Python.Words.{c_int64, IsInt64}
use pyre_wire.Python.Value.{Value}
use pyre_wire.Ffi.Enums.{ColumnType, CompoundKind}
use pyre_wire.Intern.{empty_table, intern, intern_cached, learn}
use pyre_wire.Intern.Mirror.{Mirrors-empty}
use pyre_wire.Program.{Column}
use pyre_wire.EasySession.{row_to_int64, encode_value, intern_value, decode_cells}
use pyre_wire.EasySession.RoundTrip.{decode_cells-row_to_int64}
use pyre_wire.Tests.OfIntern.{one_string, one_string_engine}

abbrev column_of_type : String → ColumnType → Column
column_of_type name t = record {
  name = name;
  type = t;
  kind = CompoundKind.plain;
  functor_id = 0;
  arity = 0;
  inline_col_offset = 0;
}

abbrev two_columns : List Column
two_columns = column_of_type "kind" ColumnType.string ∷ column_of_type "seen" ColumnType.bool ∷ []

abbrev row : List Value
row = Value.str "edge" ∷ Value.bool true ∷ []

encoded : (row_to_int64 one_string row (empty_table, tt)).0 ≡ ok (pos 5 ∷ pos 1 ∷ [])
unfolding row_to_int64 encode_value intern_value intern intern_cached learn lookup
encoded = refl

in_range : All IsInt64 (pos 5 ∷ pos 1 ∷ [])
in_range = (ground arith, (ground arith, tt))

decode_cells-row_to_int64_example :
    decode_cells
      (row_to_int64 one_string row (empty_table, tt)).1.0
      two_columns
      (map c_int64 (pos 5 ∷ pos 1 ∷ []))
    ≡ ok row
decode_cells-row_to_int64_example =
    decode_cells-row_to_int64 one_string_engine two_columns row empty_table tt (pos 5 ∷ pos 1 ∷ [])
      (tt, (tt, tt)) (Mirrors-empty one_string_engine tt) encoded in_range
