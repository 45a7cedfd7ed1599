-- ===== src/Ffi/Prototypes/Structures.antt =====
-- The ctypes classes of src/pyrewire/_ffi/_types.py: the handles, the fields of the structures and
-- the types of the callbacks.
use pyre_wire.Prelude.{String, none, some, List, [], ◌∷◌}
use pyre_wire.Ffi.Prototypes.{CType, simple, structure, function, pointer, Prototype}

-- The types of ctypes itself.
abbrev pub int_ : CType
int_ = simple "c_int"

abbrev pub char_p : CType
char_p = simple "c_char_p"

abbrev pub uint32 : CType
uint32 = simple "c_uint32"

abbrev pub uint16 : CType
uint16 = simple "c_uint16"

abbrev pub size_t : CType
size_t = simple "c_size_t"

abbrev pub int32 : CType
int32 = simple "c_int32"

abbrev pub int64 : CType
int64 = simple "c_int64"

abbrev pub uint64 : CType
uint64 = simple "c_uint64"

abbrev pub bool_ : CType
bool_ = simple "c_bool"

abbrev pub void_p : CType
void_p = simple "c_void_p"

abbrev pub char_ : CType
char_ = simple "c_char"

-- The opaque handles.
abbrev pub program_handle : CType
program_handle = void_p

abbrev pub executor_handle : CType
executor_handle = void_p

abbrev pub result_handle : CType
result_handle = void_p

abbrev pub session_handle : CType
session_handle = void_p

abbrev pub easy_session_handle : CType
easy_session_handle = void_p

abbrev pub intern_handle : CType
intern_handle = void_p

abbrev pub ir_node_handle : CType
ir_node_handle = void_p

abbrev pub io_ctx_handle : CType
io_ctx_handle = void_p

-- The fields of a structure, in their order.
abbrev pub Fields : Type 0
Fields = List (String × CType)

-- `ParseErrorStruct`
abbrev pub parse_error_fields : Fields
parse_error_fields =
    ("error_code", int_)
    ∷ ("message", char_p)
    ∷ ("line", uint32)
    ∷ ("column", uint32)
    ∷ ("source", char_p)
    ∷ []

-- `ColumnStruct`
abbrev pub column_fields : Fields
column_fields =
    ("name", char_p)
    ∷ ("type", int_)
    ∷ ("compound_kind", int_)
    ∷ ("compound_functor_id", uint32)
    ∷ ("compound_arity", uint32)
    ∷ ("compound_inline_col_offset", uint32)
    ∷ []

-- `SchemaStruct`
abbrev pub schema_fields : Fields
schema_fields =
    ("relation_name", char_p)
    ∷ ("columns", pointer (structure "ColumnStruct"))
    ∷ ("column_count", uint32)
    ∷ []

-- `StratumStruct`
abbrev pub stratum_fields : Fields
stratum_fields =
    ("stratum_id", uint32)
    ∷ ("rule_names", pointer char_p)
    ∷ ("rule_count", uint32)
    ∷ ("is_recursive", bool_)
    ∷ []

-- `CompoundArgStruct`
abbrev pub compound_arg_fields : Fields
compound_arg_fields = ("type", int_) ∷ ("value", int64) ∷ []

-- `TypedRowStruct`
abbrev pub typed_row_fields : Fields
typed_row_fields =
    ("struct_size", uint32)
    ∷ ("abi_version", uint16)
    ∷ ("reserved", uint16)
    ∷ ("logical_ncols", uint32)
    ∷ ("physical_nlanes", uint32)
    ∷ ("physical_stride", uint32)
    ∷ ("types", pointer uint32)
    ∷ ("lane_offsets", pointer uint32)
    ∷ ("physical_types", pointer uint32)
    ∷ ("lanes", pointer uint64)
    ∷ []

-- `TypedErrorStruct`
abbrev pub typed_error_fields : Fields
typed_error_fields =
    ("struct_size", uint32)
    ∷ ("code", uint32)
    ∷ ("row_index", uint32)
    ∷ ("logical_col", uint32)
    ∷ ("message", pointer char_)
    ∷ ("message_capacity", uint32)
    ∷ []

-- `EasyOpenOptsStruct`
abbrev pub easy_open_opts_fields : Fields
easy_open_opts_fields =
    ("size", uint32) ∷ ("num_workers", uint32) ∷ ("eager_build", bool_) ∷ ("_reserved", void_p) ∷ []

-- `IOAdapterStruct`
abbrev pub io_adapter_fields : Fields
io_adapter_fields =
    ("abi_version", uint32)
    ∷ ("scheme", char_p)
    ∷ ("description", char_p)
    ∷ ("read", function "_IOReadFn")
    ∷ ("validate", function "_IOValidateFn")
    ∷ ("user_data", void_p)
    ∷ []

-- `OnTupleFn`
abbrev pub on_tuple_fn : Prototype
on_tuple_fn = record {
  restype = none;
  argtypes = some (char_p ∷ pointer int64 ∷ uint32 ∷ void_p ∷ []);
}

-- `OnDeltaFn`
abbrev pub on_delta_fn : Prototype
on_delta_fn = record {
  restype = none;
  argtypes = some (char_p ∷ pointer int64 ∷ uint32 ∷ int32 ∷ void_p ∷ []);
}

-- `OnTypedTupleFn`
abbrev pub on_typed_tuple_fn : Prototype
on_typed_tuple_fn = record {
  restype = none;
  argtypes = some (char_p ∷ pointer (structure "TypedRowStruct") ∷ int32 ∷ void_p ∷ []);
}

-- `_IOReadFn`
abbrev pub io_read_fn : Prototype
io_read_fn = record {
  restype = some int_;
  argtypes = some (io_ctx_handle ∷ pointer (pointer int64) ∷ pointer uint32 ∷ void_p ∷ []);
}

-- `_IOValidateFn`
abbrev pub io_validate_fn : Prototype
io_validate_fn = record {
  restype = some int_;
  argtypes = some (io_ctx_handle ∷ pointer char_ ∷ size_t ∷ void_p ∷ []);
}
