-- ===== src/Ffi/Types.antt =====
-- src/pyrewire/_ffi/_types.py: the structures that the wrapper reads and writes through pointers.
-- An array behind a pointer is a function from the index.
use pyre_wire.Prelude.{ℕ, String, Bool, List, if◌then◌else◌, ◌==◌, string_eq}
use pyre_wire.Python.Result.{Result, ok, err, value_error}
use pyre_wire.Prelude.Int.{ℤ}

-- A `const char *`: NULL, a text in UTF-8, or bytes that are no UTF-8.
pub data CString : Type 0 where
  null undecodable : CString
  text : String → CString

-- `s.decode() if s else d`: NULL and the empty text are both false.
unfoldable pub decode_or : String → CString → Result String
decode_or d CString.null = ok d
decode_or d CString.undecodable = err value_error
decode_or d (CString.text s) = ok (if s == "" then d else s)

-- A `const int64_t *` with its column count: NULL, or that many cells.
pub data RowPointer : Type 0 where
  null_row : ℕ → RowPointer
  cells : List ℤ → RowPointer

-- `wirelog_typed_row_v1_t`
pub record TypedRow : Type 0 where
  pub struct_size : ℕ
  pub abi_version : ℕ
  pub reserved : ℕ
  pub logical_ncols : ℕ
  pub physical_nlanes : ℕ
  pub physical_stride : ℕ
  pub types : ℕ → ℕ
  pub lane_offsets : ℕ → ℕ
  pub physical_types : ℕ → ℕ
  pub lanes : ℕ → ℕ

-- `wirelog_column_t`; the two enums are C ints.
pub record ColumnStruct : Type 0 where
  pub name : CString
  pub type_code : ℤ
  pub compound_kind : ℤ
  pub compound_functor_id : ℕ
  pub compound_arity : ℕ
  pub compound_inline_col_offset : ℕ

-- `wirelog_schema_t`
pub record SchemaStruct : Type 0 where
  pub relation_name : CString
  pub columns : ℕ → ColumnStruct
  pub column_count : ℕ

-- What `wirelog_program_get_facts` leaves: its result and the three out-parameters. The buffer is
-- NULL, or stands at an address on the heap.
pub record FactsOut : Type 0 where
  pub rc : ℤ
  pub address : ℕ
  pub cells : ℕ → ℤ
  pub nrows : ℕ
  pub ncols : ℕ

-- `wirelog_compound_arg_t`
pub record CompoundArgStruct : Type 0 where
  pub type_code : ℕ
  pub value : ℤ

-- `wirelog_typed_error_v1_t`, as the engine leaves it; the message is its buffer up to the NUL.
pub record TypedError : Type 0 where
  pub code : ℕ
  pub row_index : ℕ
  pub logical_col : ℕ
  pub message : String

-- `TYPED_ERROR_NO_INDEX`
abbrev pub no_index : ℕ
no_index = 0xFFFF_FFFF

-- `EasyOpenOptsStruct`; the reserved pointer is NULL.
pub record EasyOpenOptsStruct : Type 0 where
  pub size : ℕ
  pub num_workers : ℕ
  pub eager_build : Bool

-- `ctypes.sizeof(EasyOpenOptsStruct)` where pointers have 8 bytes.
abbrev pub easy_open_opts_size : ℕ
easy_open_opts_size = 24
