-- ===== src/IoAdapter/Context.antt =====
-- `IOContext` of src/pyrewire/io_adapter.py: what an adapter's callbacks learn of the relation.
use pyre_wire.Prelude.{ℕ, String, Option, none, some, ◌==◌, string_eq, if◌then◌else◌}
use pyre_wire.Prelude.Int.{ℤ}
use pyre_wire.Python.Result.{Result}
use pyre_wire.Python.Words.{c_uint32}
use pyre_wire.Ffi.Enums.{ColumnType}
use pyre_wire.IoAdapter.{context_col_type}

-- The functions `wirelog_io_ctx_*` over the engine's state, which only the last one changes. A text
-- comes as `decode(errors="replace")` gives it, and `none` where it is NULL.
pub record ContextLib (W : Type 0) : Type 0 where
  pub relation_name : ℕ → W → Option String
  pub num_cols : ℕ → W → ℕ
  pub col_type : ℕ → ℕ → W → ℤ
  pub param : ℕ → String → W → Option String
  pub intern_string : ℕ → String → W → ℤ × W

-- `s.decode() if s else None`: the empty text is false as well.
unfoldable pub text_or_none : Option String → Option String
text_or_none none = none
text_or_none (some s) = if s == "" then none else some s

-- `s.decode() if s else ""`
unfoldable pub text_or_empty : Option String → String
text_or_empty none = ""
text_or_empty (some s) = s

module _ {W : Type 0} (lib : ContextLib W) where
  unfoldable pub context_relation_name : ℕ → W → String
  context_relation_name ctx w = text_or_empty (lib.relation_name ctx w)

  unfoldable pub context_num_cols : ℕ → W → ℕ
  context_num_cols ctx w = lib.num_cols ctx w

  unfoldable pub context_col_type_at : ℕ → ℕ → W → Result ColumnType
  context_col_type_at ctx col w = context_col_type (lib.col_type ctx (c_uint32 col) w)

  unfoldable pub context_param : ℕ → String → W → Option String
  context_param ctx key w = text_or_none (lib.param ctx key w)

  unfoldable pub context_intern_string : ℕ → String → W → ℤ × W
  context_intern_string ctx value w = lib.intern_string ctx value w
