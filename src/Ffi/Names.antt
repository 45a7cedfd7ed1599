-- ===== src/Ffi/Names.antt =====
-- src/pyrewire/_ffi/_util.py: the names of operators, the version and the configuration of the engine,
-- each with what it is where the engine does not export the function (`none`).
use pyre_wire.Prelude.{
  String, Bool, Option, none, some, [], ◌∷◌, ◌==◌, nat_eq, string_eq, if◌then◌else◌,
}
use pyre_wire.Prelude.Int.{ℤ, pos, int_eq}
use pyre_wire.Prelude.Dict.{Dict, lookup}
use pyre_wire.Python.Result.{Result, ok}
use pyre_wire.Ffi.Enums.{CmpOp, cmp_code, AggFn, agg_code}
use pyre_wire.Ffi.Operators.{ArithOp, arith_code}
use pyre_wire.Ffi.Types.{CString, decode_or}

abbrev pub cmp_fallback : Dict ℤ String
cmp_fallback =
    (pos (cmp_code CmpOp.eq), "=")
    ∷ (pos (cmp_code CmpOp.neq), "!=")
    ∷ (pos (cmp_code CmpOp.lt), "<")
    ∷ (pos (cmp_code CmpOp.gt), ">")
    ∷ (pos (cmp_code CmpOp.lte), "<=")
    ∷ (pos (cmp_code CmpOp.gte), ">=")
    ∷ []

abbrev pub arith_fallback : Dict ℤ String
arith_fallback =
    (pos (arith_code ArithOp.add), "+")
    ∷ (pos (arith_code ArithOp.sub), "-")
    ∷ (pos (arith_code ArithOp.mul), "*")
    ∷ (pos (arith_code ArithOp.div), "/")
    ∷ (pos (arith_code ArithOp.modulo), "%")
    ∷ (pos (arith_code ArithOp.band), "band")
    ∷ (pos (arith_code ArithOp.bor), "bor")
    ∷ (pos (arith_code ArithOp.bxor), "bxor")
    ∷ (pos (arith_code ArithOp.bnot), "bnot")
    ∷ (pos (arith_code ArithOp.shl), "bshl")
    ∷ (pos (arith_code ArithOp.shr), "bshr")
    ∷ (pos (arith_code ArithOp.hash), "hash")
    ∷ (pos (arith_code ArithOp.crc32_eth), "crc32_ethernet")
    ∷ (pos (arith_code ArithOp.crc32_cast), "crc32_castagnoli")
    ∷ (pos (arith_code ArithOp.md5), "md5")
    ∷ (pos (arith_code ArithOp.sha1), "sha1")
    ∷ (pos (arith_code ArithOp.sha256), "sha256")
    ∷ (pos (arith_code ArithOp.sha512), "sha512")
    ∷ (pos (arith_code ArithOp.hmac_sha256), "hmac_sha256")
    ∷ (pos (arith_code ArithOp.uuid4), "uuid4")
    ∷ (pos (arith_code ArithOp.uuid5), "uuid5")
    ∷ []

abbrev pub agg_fallback : Dict ℤ String
agg_fallback =
    (pos (agg_code AggFn.count), "count")
    ∷ (pos (agg_code AggFn.sum), "sum")
    ∷ (pos (agg_code AggFn.min), "min")
    ∷ (pos (agg_code AggFn.max), "max")
    ∷ (pos (agg_code AggFn.avg), "average")
    ∷ []

-- `fallback.get(op, f"...({op})")`, with the text of the default.
unfoldable pub fallback_name : Dict ℤ String → (ℤ → String) → ℤ → String
fallback_name names default op = elim (lookup op names) [ none ↦ default op | some s ↦ s ]

-- The common body of the three functions: the engine's name, if it has a function that gives one.
unfoldable pub name_of : Dict ℤ String → Option (ℤ → CString) → (ℤ → String) → ℤ → Result String
name_of names none default op = ok (fallback_name names default op)
name_of names (some f) default op = decode_or (fallback_name names default op) (f op)

unfoldable pub cmp_op_name : Option (ℤ → CString) → (ℤ → String) → ℤ → Result String
cmp_op_name = name_of cmp_fallback

unfoldable pub arith_op_name : Option (ℤ → CString) → (ℤ → String) → ℤ → Result String
arith_op_name = name_of arith_fallback

unfoldable pub agg_fn_name : Option (ℤ → CString) → (ℤ → String) → ℤ → Result String
agg_fn_name = name_of agg_fallback

-- `wirelog_version()`, with the text that the engine's function gives.
unfoldable pub wirelog_version : Option (Option String) → String
wirelog_version none = "unknown"
wirelog_version (some none) = "unknown"
wirelog_version (some (some s)) = if s == "" then "unknown" else s

-- `build_config()`, with what each probe gives where it is exported.
pub record BuildConfig : Type 0 where
  pub embedded : Option Bool
  pub ipc : Option Bool
  pub threads : Option Bool
