-- ===== src/Session/TypedRows.antt =====
-- Typed rows from `insert_typed` to `step_typed` (src/pyrewire/session.py).
use pyre_wire.Prelude.{◌≡◌, String, List, [], ◌∷◌, nat_eq}
use pyre_wire.Prelude.Int.{ℤ, pos, int_eq}
use pyre_wire.Python.Result.{ok}
use pyre_wire.Python.Value.{Value}
use pyre_wire.Ffi.Enums.{ColumnType}
use pyre_wire.Ffi.Types.{TypedRow}
use pyre_wire.Lanes.{decode_typed_row}
use pyre_wire.Session.Object.{Session}
use pyre_wire.Session.Rows.Descriptors.{IsRowOf}

abbrev pub AreRowsOf : List ColumnType → List (List Value) → Type 0
AreRowsOf ts [] = Unit
AreRowsOf ts (row ∷ rows) = IsRowOf ts row × AreRowsOf ts rows

-- The insertion of one row, as a delta.
abbrev pub inserted {ℓ} : {A : Type ℓ} → String → A → String × A × ℤ
inserted relation x = (relation, x, pos 1)

-- What an engine makes of rows that it stores: `canon` of a descriptor decodes to `normal` of its row.
abbrev pub Canonical : (TypedRow → TypedRow) → (List Value → List Value) → Type 0
Canonical canon normal =
    (row : List Value) (d : TypedRow)
    → decode_typed_row d ≡ ok row
    → decode_typed_row (canon d) ≡ ok (normal row)
