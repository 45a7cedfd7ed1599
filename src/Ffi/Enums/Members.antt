-- ===== src/Ffi/Enums/Members.antt =====
-- Members of the enums and their numbers: the column types, which travel in row descriptors.
use pyre_wire.Prelude.{ℕ, ◌≡◌, ◌↔◌, arith}
use pyre_wire.Python.Result.{ok}
use pyre_wire.Ffi.Enums.{ColumnType, column_code, column_type}

-- A number names a column type exactly when it is the code of that type.
pub column_type_iff : (n : ℕ) (t : ColumnType) → (column_type n ≡ ok t) ↔ (column_code t ≡ n)
unfolding column_type
column_type_iff n t = (λ h. ground arith, λ h. ground arith)
