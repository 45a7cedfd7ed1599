-- ===== src/Ffi/Operators.antt =====
-- src/pyrewire/_ffi/_enums.py: the operators, functions, backends and node types that the engine numbers.
use pyre_wire.Prelude.{ℕ, [], ◌∷◌}
use pyre_wire.Python.Result.{Result}
use pyre_wire.Ffi.Enums.{find_member}

-- `ArithOp`
pub data ArithOp : Type 0 where
  add sub mul div modulo band bor bxor bnot shl shr hash crc32_eth crc32_cast : ArithOp
  md5 sha1 sha256 sha512 hmac_sha256 uuid4 uuid5 : ArithOp

abbrev pub arith_code : ArithOp → ℕ
arith_code ArithOp.add = 0
arith_code ArithOp.sub = 1
arith_code ArithOp.mul = 2
arith_code ArithOp.div = 3
arith_code ArithOp.modulo = 4
arith_code ArithOp.band = 5
arith_code ArithOp.bor = 6
arith_code ArithOp.bxor = 7
arith_code ArithOp.bnot = 8
arith_code ArithOp.shl = 9
arith_code ArithOp.shr = 10
arith_code ArithOp.hash = 11
arith_code ArithOp.crc32_eth = 12
arith_code ArithOp.crc32_cast = 13
arith_code ArithOp.md5 = 14
arith_code ArithOp.sha1 = 15
arith_code ArithOp.sha256 = 16
arith_code ArithOp.sha512 = 17
arith_code ArithOp.hmac_sha256 = 18
arith_code ArithOp.uuid4 = 19
arith_code ArithOp.uuid5 = 20

-- `BackendKind`
pub data BackendKind : Type 0 where
  default columnar : BackendKind

abbrev pub backend_code : BackendKind → ℕ
backend_code BackendKind.default = 0
backend_code BackendKind.columnar = 1

-- `IRNodeType`
pub data IrNodeType : Type 0 where
  scan project filter join flatmap aggregate antijoin union semijoin compound_inline : IrNodeType
  compound_side : IrNodeType

abbrev pub ir_node_code : IrNodeType → ℕ
ir_node_code IrNodeType.scan = 0
ir_node_code IrNodeType.project = 1
ir_node_code IrNodeType.filter = 2
ir_node_code IrNodeType.join = 3
ir_node_code IrNodeType.flatmap = 4
ir_node_code IrNodeType.aggregate = 5
ir_node_code IrNodeType.antijoin = 6
ir_node_code IrNodeType.union = 7
ir_node_code IrNodeType.semijoin = 8
ir_node_code IrNodeType.compound_inline = 9
ir_node_code IrNodeType.compound_side = 10

unfoldable pub ir_node_type : ℕ → Result IrNodeType
unfolding find_member
ir_node_type = find_member ir_node_code (
    IrNodeType.scan ∷ IrNodeType.project ∷ IrNodeType.filter ∷ IrNodeType.join ∷ IrNodeType.flatmap
    ∷ IrNodeType.aggregate ∷ IrNodeType.antijoin ∷ IrNodeType.union ∷ IrNodeType.semijoin
    ∷ IrNodeType.compound_inline ∷ IrNodeType.compound_side ∷ [])

-- `StrFn`
pub data StrFn : Type 0 where
  strlen cat substr contains str_prefix str_suffix str_ord to_upper to_lower : StrFn
  str_replace trim to_string to_number : StrFn

abbrev pub str_fn_code : StrFn → ℕ
str_fn_code StrFn.strlen = 0
str_fn_code StrFn.cat = 1
str_fn_code StrFn.substr = 2
str_fn_code StrFn.contains = 3
str_fn_code StrFn.str_prefix = 4
str_fn_code StrFn.str_suffix = 5
str_fn_code StrFn.str_ord = 6
str_fn_code StrFn.to_upper = 7
str_fn_code StrFn.to_lower = 8
str_fn_code StrFn.str_replace = 9
str_fn_code StrFn.trim = 10
str_fn_code StrFn.to_string = 11
str_fn_code StrFn.to_number = 12
