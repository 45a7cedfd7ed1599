-- ===== src/Ffi/Prototypes/Tables.antt =====
-- What each `_register()` below src/pyrewire/_ffi declares, in its order.
use pyre_wire.Prelude.{String, Bool, ◌&&◌, none, some, List, [], ◌∷◌, ◌++◌}
use pyre_wire.Ffi.Prototypes.{
  structure, function, pointer, Declaration, declare, like, result_only, guarded, optional,
}
use pyre_wire.Ffi.Prototypes.Structures.{
  int_, char_, char_p, uint32, int32, int64, uint64, bool_, void_p, program_handle, executor_handle,
  result_handle, session_handle, easy_session_handle, intern_handle, ir_node_handle, io_ctx_handle,
}

-- _executor.py
abbrev pub executor_declarations : List Declaration
executor_declarations =
    declare "wirelog_executor_create" (some executor_handle) (program_handle ∷ pointer int_ ∷ [])
    ∷ declare "wirelog_executor_free" none (executor_handle ∷ [])
    ∷ declare "wirelog_load_facts_from_csv" (some bool_)
        (executor_handle ∷ char_p ∷ char_p ∷ pointer int_ ∷ [])
    ∷ declare "wirelog_evaluate" (some result_handle) (executor_handle ∷ pointer int_ ∷ [])
    ∷ declare "wirelog_result_get_relation" (some void_p) (result_handle ∷ char_p ∷ [])
    ∷ declare "wirelog_result_relation_cardinality" (some uint64) (result_handle ∷ char_p ∷ [])
    ∷ declare "wirelog_result_write_csv" (some bool_)
        (result_handle ∷ char_p ∷ char_p ∷ pointer int_ ∷ [])
    ∷ declare "wirelog_result_free" none (result_handle ∷ [])
    ∷ []

-- _parser.py, up to the guarded declaration.
abbrev pub parser_declarations : List Declaration
parser_declarations =
    declare "wirelog_parse" (some program_handle) (char_p ∷ pointer int_ ∷ [])
    ∷ declare "wirelog_parse_string" (some program_handle) (char_p ∷ pointer int_ ∷ [])
    ∷ declare "wirelog_parse_with_error_info" (some program_handle)
        (char_p ∷ pointer (structure "ParseErrorStruct") ∷ [])
    ∷ declare "wirelog_program_free" none (program_handle ∷ [])
    ∷ declare "wirelog_program_get_stratum_count" (some uint32) (program_handle ∷ [])
    ∷ declare "wirelog_program_get_stratum" (some (pointer (structure "StratumStruct")))
        (program_handle ∷ uint32 ∷ [])
    ∷ declare "wirelog_program_get_rule_count" (some uint32) (program_handle ∷ [])
    ∷ declare "wirelog_program_get_schema" (some (pointer (structure "SchemaStruct")))
        (program_handle ∷ char_p ∷ [])
    ∷ declare "wirelog_program_is_stratified" (some bool_) (program_handle ∷ [])
    ∷ declare "wirelog_program_get_facts" (some int_)
        (program_handle ∷ char_p ∷ pointer (pointer int64) ∷ pointer uint32 ∷ pointer uint32 ∷ [])
    ∷ declare "wirelog_program_get_intern" (some intern_handle) (program_handle ∷ [])
    ∷ []

-- The one under `hasattr(LIB, "wirelog_program_get_relation_ir")`.
abbrev pub relation_ir_declarations : List Declaration
relation_ir_declarations =
    declare "wirelog_program_get_relation_ir" (some ir_node_handle) (program_handle ∷ char_p ∷ [])
    ∷ []

-- The rest of _parser.py.
abbrev pub optimizer_declarations : List Declaration
optimizer_declarations =
    declare "wirelog_load_all_facts" (some int_) (program_handle ∷ void_p ∷ [])
    ∷ declare "wirelog_load_input_files" (some int_) (program_handle ∷ void_p ∷ [])
    ∷ declare "wirelog_optimize" (some bool_) (program_handle ∷ pointer int_ ∷ [])
    ∷ declare "wirelog_optimizer_debug" none (program_handle ∷ [])
    ∷ []

-- _ir.py
abbrev pub ir_declarations : List Declaration
ir_declarations =
    declare "wirelog_ir_node_get_type" (some int_) (ir_node_handle ∷ [])
    ∷ declare "wirelog_ir_node_get_relation_name" (some char_p) (ir_node_handle ∷ [])
    ∷ declare "wirelog_ir_node_get_child_count" (some uint32) (ir_node_handle ∷ [])
    ∷ declare "wirelog_ir_node_get_child" (some ir_node_handle) (ir_node_handle ∷ uint32 ∷ [])
    ∷ declare "wirelog_ir_node_print" none (ir_node_handle ∷ uint32 ∷ [])
    ∷ declare "wirelog_ir_node_to_string" (some (pointer char_)) (ir_node_handle ∷ [])
    ∷ []

-- _advanced.py, up to the guarded declarations.
abbrev pub session_declarations : List Declaration
session_declarations =
    declare "wirelog_session_create" (some int_)
      (program_handle ∷ int_ ∷ uint32 ∷ pointer session_handle ∷ [])
    ∷ declare "wirelog_session_destroy" none (session_handle ∷ [])
    ∷ declare "wirelog_session_insert" (some int_)
        (session_handle ∷ char_p ∷ pointer int64 ∷ uint32 ∷ uint32 ∷ [])
    ∷ like "wirelog_session_remove" (some int_) "wirelog_session_insert"
    ∷ declare "wirelog_session_step" (some int_) (session_handle ∷ [])
    ∷ declare "wirelog_session_snapshot" (some int_)
        (session_handle ∷ function "OnTupleFn" ∷ void_p ∷ [])
    ∷ declare "wirelog_session_set_delta_cb" (some int_)
        (session_handle ∷ function "OnDeltaFn" ∷ void_p ∷ [])
    ∷ declare "wirelog_session_make_compound" (some int_) (
        session_handle
        ∷ char_p
        ∷ uint32
        ∷ pointer (structure "CompoundArgStruct")
        ∷ pointer uint64
        ∷ [])
    ∷ []

-- Those under `has_typed_row_api()`.
abbrev pub typed_declarations : List Declaration
typed_declarations =
    declare "wirelog_session_insert_typed" (some int_) (
      session_handle
      ∷ char_p
      ∷ pointer (structure "TypedRowStruct")
      ∷ uint32
      ∷ pointer (structure "TypedErrorStruct")
      ∷ [])
    ∷ like "wirelog_session_remove_typed" (some int_) "wirelog_session_insert_typed"
    ∷ declare "wirelog_session_snapshot_typed" (some int_)
        (session_handle ∷ function "OnTypedTupleFn" ∷ void_p ∷ [])
    ∷ like "wirelog_session_set_typed_delta_cb" (some int_) "wirelog_session_snapshot_typed"
    ∷ []

-- _easy.py
abbrev pub easy_declarations : List Declaration
easy_declarations =
    declare "wirelog_easy_open" (some int_) (char_p ∷ pointer easy_session_handle ∷ [])
    ∷ declare "wirelog_easy_open_opts" (some int_)
        (char_p ∷ pointer (structure "EasyOpenOptsStruct") ∷ pointer easy_session_handle ∷ [])
    ∷ declare "wirelog_easy_close" none (easy_session_handle ∷ [])
    ∷ declare "wirelog_easy_intern" (some int64) (easy_session_handle ∷ char_p ∷ [])
    ∷ declare "wirelog_easy_insert" (some int_)
        (easy_session_handle ∷ char_p ∷ pointer int64 ∷ uint32 ∷ [])
    ∷ like "wirelog_easy_remove" (some int_) "wirelog_easy_insert"
    ∷ result_only "wirelog_easy_insert_sym" (some int_)
    ∷ result_only "wirelog_easy_remove_sym" (some int_)
    ∷ declare "wirelog_easy_step" (some int_) (easy_session_handle ∷ [])
    ∷ declare "wirelog_easy_snapshot" (some int_)
        (easy_session_handle ∷ char_p ∷ function "OnTupleFn" ∷ void_p ∷ [])
    ∷ declare "wirelog_easy_set_delta_cb" (some int_)
        (easy_session_handle ∷ function "OnDeltaFn" ∷ void_p ∷ [])
    ∷ declare "wirelog_easy_make_compound" (some int_) (
        easy_session_handle
        ∷ char_p
        ∷ uint32
        ∷ pointer (structure "CompoundArgStruct")
        ∷ pointer uint64
        ∷ [])
    ∷ declare "wirelog_easy_print_delta" none
        (char_p ∷ pointer int64 ∷ uint32 ∷ int32 ∷ void_p ∷ [])
    ∷ declare "wirelog_easy_banner" none (char_p ∷ [])
    ∷ []

-- _io.py
abbrev pub io_declarations : List Declaration
io_declarations =
    declare "wirelog_io_register_adapter" (some int_) (pointer (structure "IOAdapterStruct") ∷ [])
    ∷ declare "wirelog_io_unregister_adapter" (some int_) (char_p ∷ [])
    ∷ declare "wirelog_io_find_adapter" (some (pointer (structure "IOAdapterStruct"))) (char_p ∷ [])
    ∷ declare "wirelog_io_last_error" (some char_p) []
    ∷ declare "wirelog_io_ctx_relation_name" (some char_p) (io_ctx_handle ∷ [])
    ∷ declare "wirelog_io_ctx_num_cols" (some uint32) (io_ctx_handle ∷ [])
    ∷ declare "wirelog_io_ctx_col_type" (some int_) (io_ctx_handle ∷ uint32 ∷ [])
    ∷ declare "wirelog_io_ctx_param" (some char_p) (io_ctx_handle ∷ char_p ∷ [])
    ∷ declare "wirelog_io_ctx_intern_string" (some int64) (io_ctx_handle ∷ char_p ∷ [])
    ∷ declare "wirelog_io_ctx_platform" (some void_p) (io_ctx_handle ∷ [])
    ∷ declare "wirelog_io_ctx_set_platform" (some int_) (io_ctx_handle ∷ void_p ∷ [])
    ∷ []

-- `_load_error_string_fn()` of src/pyrewire/_core/errors.py
abbrev pub error_string_declarations : List Declaration
error_string_declarations = declare "wirelog_error_string" (some char_p) (int_ ∷ []) ∷ []

-- `has_typed_row_api()`
unfoldable pub has_typed_row_api : (String → Bool) → Bool
has_typed_row_api exports =
    exports "wirelog_session_insert_typed"
    && (exports "wirelog_session_remove_typed"
        && (exports "wirelog_session_snapshot_typed"
            && exports "wirelog_session_set_typed_delta_cb"))

-- `_verify_version()` of _loader.py
abbrev pub version_declarations : List Declaration
version_declarations = declare "wirelog_version_string" (some char_p) [] ∷ []

-- The calls of `_try_resolve` in _util.py.
abbrev pub util_declarations : List Declaration
util_declarations =
    declare "wirelog_version_string" (some char_p) []
    ∷ declare "wirelog_cmp_op_str" (some char_p) (int_ ∷ [])
    ∷ declare "wirelog_arith_op_str" (some char_p) (int_ ∷ [])
    ∷ declare "wirelog_agg_fn_str" (some char_p) (int_ ∷ [])
    ∷ declare "wirelog_config_embedded" (some bool_) []
    ∷ declare "wirelog_config_ipc" (some bool_) []
    ∷ declare "wirelog_config_threads" (some bool_) []
    ∷ []

-- The declarations of the modules whose functions work with handles, by the answers of two tests.
abbrev pub declarations : Bool → Bool → List Declaration
declarations relation_ir typed_rows =
    executor_declarations
    ++ (parser_declarations
        ++ (guarded relation_ir relation_ir_declarations
            ++ (optimizer_declarations
                ++ (ir_declarations
                    ++ (session_declarations
                        ++ (guarded typed_rows typed_declarations
                            ++ (easy_declarations ++ io_declarations)))))))

-- All of them, in the order in which `import pyrewire` runs the modules.
unfoldable pub package_declarations : (String → Bool) → List Declaration
package_declarations exports =
    optional exports version_declarations
    ++ (guarded (exports "wirelog_error_string") error_string_declarations
        ++ (optional exports util_declarations
            ++ declarations (exports "wirelog_program_get_relation_ir")
                (has_typed_row_api exports)))
