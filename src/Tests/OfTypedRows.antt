-- ===== src/Tests/OfTypedRows.antt =====
-- Typed rows from `insert_typed` to `step_typed` (src/pyrewire/session.py) on a small engine.
use pyre_wire.Prelude.{ℕ, true, some, List, [], ◌∷◌, map, ◌==◌, nat_eq, if◌then◌else◌}
use pyre_wire.Prelude.Int.{pos}
use pyre_wire.Python.Value.{Value}
use pyre_wire.Ffi.Enums.{ColumnType, column_code, compound_kind}
use pyre_wire.Ffi.Types.{TypedRow, ColumnStruct, CString}
use pyre_wire.Callbacks.{Invocation}
use pyre_wire.Session.Object.{Session, SessionLib, Mode}
use pyre_wire.Session.Updates.{insert_typed}
use pyre_wire.Session.Deltas.Typed.{typed_reports}
use pyre_wire.Session.TypedRows.{inserted}
use pyre_wire.Tests.Engine.{engine, session_with, no_typed_error, no_facts}

abbrev column : ℕ → ColumnStruct
column code = record {
  name = CString.text "c";
  type_code = pos code;
  compound_kind = pos 0;
  compound_functor_id = 0;
  compound_arity = 0;
  compound_inline_col_offset = 0;
}

-- A descriptor is stored as it is.
abbrev stored : TypedRow → TypedRow
stored d = d

-- It declares every relation with one BOOL and one UINT32 column, and reports what was inserted.
abbrev reporting_engine : SessionLib (List Invocation)
reporting_engine = record engine {
  insert_typed = λ h rel rows n w.
      ((pos 0, no_typed_error), typed_reports 1 (map (inserted rel) (map stored rows)));
  program = record {
    parse_string = λ s w. ((pos 0, 1), w);
    get_schema = λ h r w. some (record {
      relation_name = CString.text r;
      columns = λ i.
          column (if i == 0 then column_code ColumnType.bool else column_code ColumnType.uint32);
      column_count = 2;
    });
    get_facts = λ h r w. (no_facts, w);
    libc_free = λ a w. w;
    program_free = λ h w. w;
  };
}

abbrev flag : List Value
flag = Value.bool true ∷ Value.int (pos 7) ∷ []

abbrev session : Session (List Invocation)
session = session_with Mode.incremental []
