-- ===== src/Tests/OfProgram.antt =====
-- Inline facts (src/pyrewire/program.py) with a concrete library.
use pyre_wire.Prelude.{ℕ, zero, suc, ◌≡◌, refl, false, none, some, List, [], ◌∷◌, length, arith}
use pyre_wire.Prelude.Int.{pos}
use pyre_wire.Python.Result.{ok}
use pyre_wire.Python.Value.{Value}
use pyre_wire.Ffi.Enums.{ColumnType, CompoundKind, column_type, compound_kind, find_member}
use pyre_wire.Ffi.Types.{CString, ColumnStruct, FactsOut, decode_or}
use pyre_wire.Program.{Column, Schema, Program, ProgramLib, schema, schema_of, column_of, facts}
use pyre_wire.Program.Facts.{facts-total}

abbrev one_column : Column
one_column = record {
  name = "x";
  type = ColumnType.int64;
  kind = CompoundKind.plain;
  functor_id = 0;
  arity = 0;
  inline_col_offset = 0;
}

abbrev column_struct : ColumnStruct
column_struct = record {
  name = CString.text "x";
  type_code = pos 1;
  compound_kind = pos 0;
  compound_functor_id = 0;
  compound_arity = 0;
  compound_inline_col_offset = 0;
}

abbrev one_schema : Schema
one_schema = record { relation = "r"; columns = one_column ∷ [] }

abbrev two_rows : FactsOut
two_rows = record { rc = pos 0; address = 64; cells = λ i. pos i; nrows = 2; ncols = 1 }

-- A library whose state is the number of blocks that it has handed out, with one relation.
abbrev pub library : FactsOut → ProgramLib ℕ
library out = record {
  parse_string = λ s w. ((pos 0, 1), w);
  get_schema = λ h r w.
      some (record {
        relation_name = CString.text "r";
        columns = λ i. column_struct;
        column_count = 1;
      });
  get_facts = λ h r w. (out, suc w);
  libc_free = λ a w. elim w [ zero ↦ zero | suc n ↦ n ];
  program_free = λ h w. suc w;
}

abbrev pub parsed : Program
parsed = record { handle = 1; closed = false }

declared : (out : FactsOut) → schema (library out) parsed "r" 0 ≡ ok (some one_schema)
unfolding schema schema_of column_of column_type compound_kind find_member decode_or
declared out = refl

facts-total_example :
    (rows : List (List Value)) × (facts (library two_rows) parsed "r" none 0 ≡ (ok rows, 0))
    × (length rows ≡ 2)
facts-total_example =
    facts-total (library two_rows) parsed "r" none 0 1 one_schema two_rows (declared two_rows) refl
      refl (λ e. omega arith) (λ e. omega arith) refl
