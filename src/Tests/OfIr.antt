-- ===== src/Tests/OfIr.antt =====
-- A walk over a small tree (src/pyrewire/ir.py).
use pyre_wire.Prelude.{ℕ, ◌≡◌, refl, none, some, List, [], ◌∷◌, arith, ◌==◌, nat_eq, if◌then◌else◌}
use pyre_wire.Prelude.Int.{pos}
use pyre_wire.Python.Words.{c_uint32}
use pyre_wire.Ir.{IrLib, walk, children, child, present, node_or_none}
use pyre_wire.Ir.Walks.{
  Tree, node, empty, plant, IsTree, IsForest, height, forest_height, preorder, forest_preorder,
  walk-preorder,
}

-- The node 1 has the children 2 and 3, with a NULL between them.
abbrev join_engine : IrLib (List ℕ)
join_engine = record {
  get_type = λ h w. pos 3;
  get_relation_name = λ h w. none;
  get_child_count = λ h w. if h == 1 then 3 else 0;
  get_child = λ h i w. if i == 0 then 2 else if i == 2 then 3 else 0;
  to_string = λ h w. ((4096, "join"), w);
  libc_free = λ a w. a ∷ w;
  print_node = λ h indent w. w;
}

abbrev leaf : ℕ → Tree
leaf h = node h empty

abbrev joined : Tree
joined = node 1 (plant (leaf 2) (plant (leaf 3) empty))

joined-IsTree : IsTree join_engine [] joined 1
unfolding IsTree IsForest children child present node_or_none c_uint32
joined-IsTree = (refl, ((refl, tt), ((refl, tt), tt)))

walk-preorder_example : walk join_engine [] 2 1 ≡ some (1 ∷ 2 ∷ 3 ∷ [])
unfolding height forest_height preorder forest_preorder
walk-preorder_example = walk-preorder join_engine [] joined 1 2 joined-IsTree (omega arith)
