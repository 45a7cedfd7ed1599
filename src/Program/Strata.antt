-- ===== src/Program/Strata.antt =====
-- The strata, the counts and the relation trees of a program (src/pyrewire/program.py).
use pyre_wire.Prelude.{ℕ, String, Bool, Option, none, some, List, [], ◌∷◌, range, nat_eq}
use pyre_wire.Python.Result.{Result, ok, err, ◌>>=◌, traverse, wirelog, version_error}
use pyre_wire.Python.Words.{c_uint32}
use pyre_wire.Ffi.Types.{CString, decode_or}
use pyre_wire.Ir.{node_or_none}
use pyre_wire.Program.{Program}

-- `StratumStruct`
pub record StratumStruct : Type 0 where
  pub stratum_id : ℕ
  pub rule_names : ℕ → CString
  pub rule_count : ℕ
  pub is_recursive : Bool

pub record Stratum : Type 0 where
  pub id : ℕ
  pub rule_names : List String
  pub is_recursive : Bool

-- The functions of the engine that tell of a program; the last is `none` where it is not exported.
pub record StrataLib (W : Type 0) : Type 0 where
  pub stratum_count : ℕ → W → ℕ
  pub get_stratum : ℕ → ℕ → W → Option StratumStruct
  pub rule_count : ℕ → W → ℕ
  pub is_stratified : ℕ → W → Bool
  pub relation_ir : Option (ℕ → String → W → ℕ)

unfoldable pub stratum_of : StratumStruct → Result Stratum
stratum_of st = do
  names ← traverse (λ i. decode_or "" (st.rule_names i)) (range 0 st.rule_count)
  ok (record { id = st.stratum_id; rule_names = names; is_recursive = st.is_recursive })

unfoldable pub stratum_or_none : Option StratumStruct → Result (Option Stratum)
stratum_or_none none = ok none
stratum_or_none (some st) = do s ← stratum_of st; ok (some s)

-- The strata that there are.
unfoldable pub present_strata : List (Option Stratum) → List Stratum
present_strata [] = []
present_strata (none ∷ ss) = present_strata ss
present_strata (some s ∷ ss) = s ∷ present_strata ss

module _ {W : Type 0} (lib : StrataLib W) (w : W) where
  unfoldable pub stratum_count : Program → ℕ
  stratum_count p = lib.stratum_count p.handle w

  unfoldable pub rule_count : Program → ℕ
  rule_count p = lib.rule_count p.handle w

  unfoldable pub is_stratified : Program → Bool
  is_stratified p = lib.is_stratified p.handle w

  -- `stratum(idx)`
  unfoldable pub stratum : Program → ℕ → Result (Option Stratum)
  stratum p i = stratum_or_none (lib.get_stratum p.handle (c_uint32 i) w)

  -- `list(strata())`
  unfoldable pub strata : Program → Result (List Stratum)
  strata p = do
    found ← traverse (λ i. stratum p i) (range 0 (stratum_count p))
    ok (present_strata found)

  -- `relation_ir(relation)`; a `WirelogVersionError` where the engine does not have it.
  unfoldable pub relation_ir : Program → String → Result (Option ℕ)
  relation_ir p relation = elim lib.relation_ir [
    | none ↦ err (wirelog version_error)
    | some f ↦ ok (node_or_none (f p.handle relation w))
  ]
