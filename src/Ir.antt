-- ===== src/Ir.antt =====
-- src/pyrewire/ir.py: the view of the tree that the engine keeps for a relation, by its pointers.
-- A walk takes fuel, since the engine's pointers need not form a tree.
pub mod Walks
use pyre_wire.Prelude.{
  ℕ, zero, suc, String, Option, none, some, List, [], ◌∷◌, ◌++◌, map, range, ◌==◌, nat_eq,
  if◌then◌else◌,
}
use pyre_wire.Prelude.Int.{ℤ}
use pyre_wire.Python.Result.{Result, ok, err, value_error}
use pyre_wire.Python.Words.{c_uint32}
use pyre_wire.Ffi.Enums.{of_int}
use pyre_wire.Ffi.Operators.{IrNodeType, ir_node_type}

-- The functions `wirelog_ir_node_*` over the engine's state, which they leave alone but for the text
-- that `to_string` allocates and for what `print` writes. An address of 0 is NULL; a text comes as Python decodes it.
pub record IrLib (W : Type 0) : Type 0 where
  pub get_type : ℕ → W → ℤ
  pub get_relation_name : ℕ → W → Option String
  pub get_child_count : ℕ → W → ℕ
  pub get_child : ℕ → ℕ → W → ℕ
  pub to_string : ℕ → W → (ℕ × String) × W
  pub libc_free : ℕ → W → W
  pub print_node : ℕ → ℕ → W → W

-- `IRNode(handle)`
unfoldable pub new_node : ℕ → Result ℕ
new_node h = if h == 0 then err value_error else ok h

-- A node of a pointer that may be NULL.
unfoldable pub node_or_none : ℕ → Option ℕ
node_or_none h = if h == 0 then none else some h

-- The nodes that there are.
unfoldable pub present : List (Option ℕ) → List ℕ
present [] = []
present (none ∷ hs) = present hs
present (some h ∷ hs) = h ∷ present hs

unfoldable pub join_walks : List (Option (List ℕ)) → Option (List ℕ)
join_walks [] = some []
join_walks (none ∷ ws) = none
join_walks (some hs ∷ ws) = elim (join_walks ws) [ none ↦ none | some rest ↦ some (hs ++ rest) ]

-- `yield self` in front of what follows.
abbrev pub node_before : ℕ → Option (List ℕ) → Option (List ℕ)
node_before h none = none
node_before h (some hs) = some (h ∷ hs)

module _ {W : Type 0} (lib : IrLib W) (w : W) where
  unfoldable pub node_type : ℕ → Result IrNodeType
  node_type h = of_int ir_node_type (lib.get_type h w)

  unfoldable pub relation_name : ℕ → String
  relation_name h = elim (lib.get_relation_name h w) [ none ↦ "" | some s ↦ s ]

  -- `child(index)`
  unfoldable pub child : ℕ → ℕ → Option ℕ
  child h index = node_or_none (lib.get_child h (c_uint32 index) w)

  unfoldable pub children : ℕ → List ℕ
  children h = present (map (child h) (range 0 (lib.get_child_count h w)))

  -- `walk()`: the node, then the walks of its children; none where the fuel runs out.
  unfoldable pub walk : ℕ → ℕ → Option (List ℕ)
  walk zero h = none
  walk (suc fuel) h = node_before h (join_walks (map (walk fuel) (children h)))

-- `to_str()`: the text is copied before it is freed.
unfoldable pub to_str : {W : Type 0} → IrLib W → ℕ → W → String × W
to_str lib h w =
    let ((address, text), w') = lib.to_string h w in
    if address == 0 then ("", w') else (text, lib.libc_free address w')

-- `print(indent)`
unfoldable pub print : {W : Type 0} → IrLib W → ℕ → ℕ → W → W
print lib h indent w = lib.print_node h (c_uint32 indent) w
