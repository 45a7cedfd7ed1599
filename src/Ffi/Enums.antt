-- ===== src/Ffi/Enums.antt =====
-- src/pyrewire/_ffi/_enums.py: the enums that mirror the C ones, with `int(member)` as `code`, and
-- the call of the class, `ColumnType(n)`, which raises `ValueError` on a number that names none.
pub mod Members
use pyre_wire.Prelude.{ℕ, List, [], ◌∷◌, ◌==◌, nat_eq, if◌then◌else◌}
use pyre_wire.Prelude.Int.{ℤ, pos, negsuc}
use pyre_wire.Python.Result.{Result, ok, err, value_error}

-- An `IntEnum` called on a number: the member with that value.
unfoldable pub find_member {ℓ} : {E : Type ℓ} → (E → ℕ) → List E → ℕ → Result E
find_member value [] n = err value_error
find_member value (m ∷ ms) n = if value m == n then ok m else find_member value ms n

pub data ErrorCode : Type 0 where
  ok_code parse invalid_ir exec memory io compound_saturated compound_busy unknown : ErrorCode

abbrev pub error_code : ErrorCode → ℕ
error_code ErrorCode.ok_code = 0
error_code ErrorCode.parse = 1
error_code ErrorCode.invalid_ir = 2
error_code ErrorCode.exec = 3
error_code ErrorCode.memory = 4
error_code ErrorCode.io = 5
error_code ErrorCode.compound_saturated = 6
error_code ErrorCode.compound_busy = 7
error_code ErrorCode.unknown = 255

pub data ColumnType : Type 0 where
  int32 int64 uint32 uint64 float string bool : ColumnType

abbrev pub column_code : ColumnType → ℕ
column_code ColumnType.int32 = 0
column_code ColumnType.int64 = 1
column_code ColumnType.uint32 = 2
column_code ColumnType.uint64 = 3
column_code ColumnType.float = 4
column_code ColumnType.string = 5
column_code ColumnType.bool = 6

abbrev pub column_types : List ColumnType
column_types =
    ColumnType.int32 ∷ ColumnType.int64 ∷ ColumnType.uint32 ∷ ColumnType.uint64 ∷ ColumnType.float
    ∷ ColumnType.string ∷ ColumnType.bool ∷ []

unfoldable pub column_type : ℕ → Result ColumnType
unfolding find_member
column_type = find_member column_code column_types

-- A C int that is negative names no member.
abbrev pub of_int {ℓ} : {E : Type ℓ} → (ℕ → Result E) → ℤ → Result E
of_int f (pos n) = f n
of_int f (negsuc n) = err value_error

pub data TypedErrorCode : Type 0 where
  none_code descriptor schema value : TypedErrorCode

abbrev pub typed_error_code : TypedErrorCode → ℕ
typed_error_code TypedErrorCode.none_code = 0
typed_error_code TypedErrorCode.descriptor = 1
typed_error_code TypedErrorCode.schema = 2
typed_error_code TypedErrorCode.value = 3

pub data CompoundKind : Type 0 where
  plain inline side : CompoundKind

abbrev pub compound_code : CompoundKind → ℕ
compound_code CompoundKind.plain = 0
compound_code CompoundKind.inline = 1
compound_code CompoundKind.side = 2

unfoldable pub compound_kind : ℕ → Result CompoundKind
unfolding find_member
compound_kind =
    find_member compound_code (CompoundKind.plain ∷ CompoundKind.inline ∷ CompoundKind.side ∷ [])

pub data CmpOp : Type 0 where
  eq neq lt gt lte gte : CmpOp

abbrev pub cmp_code : CmpOp → ℕ
cmp_code CmpOp.eq = 0
cmp_code CmpOp.neq = 1
cmp_code CmpOp.lt = 2
cmp_code CmpOp.gt = 3
cmp_code CmpOp.lte = 4
cmp_code CmpOp.gte = 5

pub data AggFn : Type 0 where
  count sum min max avg : AggFn

abbrev pub agg_code : AggFn → ℕ
agg_code AggFn.count = 0
agg_code AggFn.sum = 1
agg_code AggFn.min = 2
agg_code AggFn.max = 3
agg_code AggFn.avg = 4
