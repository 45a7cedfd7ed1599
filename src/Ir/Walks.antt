-- ===== src/Ir/Walks.antt =====
-- The order of a walk over a finite tree of pointers (src/pyrewire/ir.py).
use pyre_wire.Prelude.{
  ℕ, zero, suc, max, ◌≤◌, ◌≡◌, refl, ap, subst, some, List, [], ◌∷◌, ◌++◌, map, arith,
}
use pyre_wire.Ir.{IrLib, children, walk, join_walks, node_before}

-- A finite tree of pointers.
mutual
  pub data Tree : Type 0 where
    node : ℕ → Forest → Tree

  pub data Forest : Type 0 where
    empty : Forest
    plant : Tree → Forest → Forest

unfoldable mutual
  pub height : Tree → ℕ
  height (node h f) = suc (forest_height f)

  pub forest_height : Forest → ℕ
  forest_height empty = 0
  forest_height (plant t f) = max (height t) (forest_height f)

unfoldable mutual
  pub preorder : Tree → List ℕ
  preorder (node h f) = h ∷ forest_preorder f

  pub forest_preorder : Forest → List ℕ
  forest_preorder empty = []
  forest_preorder (plant t f) = preorder t ++ forest_preorder f

module _ {W : Type 0} (lib : IrLib W) (w : W) where
  -- The tree is what the engine has at the pointer, and the forest at the pointers.
  unfoldable mutual
    pub IsTree : Tree → ℕ → Type 0
    IsTree (node h f) k = (h ≡ k) × IsForest f (children lib w h)

    pub IsForest : Forest → List ℕ → Type 0
    IsForest empty [] = Unit
    IsForest empty (k ∷ ks) = ⊥
    IsForest (plant t f) [] = ⊥
    IsForest (plant t f) (k ∷ ks) = IsTree t k × IsForest f ks

  mutual
    unfolding walk join_walks height preorder IsTree

    walk_tree :
        (t : Tree) (k fuel : ℕ)
        → IsTree t k
        → height t ≤ fuel
        → walk lib w fuel k ≡ some (preorder t)
    walk_tree (node h f) k zero tree fits = absurd (omega (arith, fits))
    walk_tree (node h f) k (suc fuel) tree fits =
        subst (λ j. walk lib w (suc fuel) j ≡ some (h ∷ forest_preorder f)) tree.0
          (ap (node_before h) (walk_forest f (children lib w h) fuel tree.1 (omega (arith, fits))))

    walk_forest :
        (f : Forest) (ks : List ℕ) (fuel : ℕ)
        → IsForest f ks
        → forest_height f ≤ fuel
        → join_walks (map (walk lib w fuel) ks) ≡ some (forest_preorder f)
    walk_forest empty [] fuel forest fits = refl
    walk_forest empty (k ∷ ks) fuel forest fits = absurd forest
    walk_forest (plant t f) [] fuel forest fits = absurd forest
    walk_forest (plant t f) (k ∷ ks) fuel forest fits =
        rw
          (
            walk_tree t k fuel forest.0 (omega (arith, fits)),
            walk_forest f ks fuel forest.1 (omega (arith, fits)),
          )
          refl

  -- On a finite tree, `walk` ends, with fuel for its height: it yields the nodes of the tree in
  -- pre-order, each node before its children, and the children from the first to the last.
  pub walk-preorder :
      (t : Tree) (k fuel : ℕ) → IsTree t k → height t ≤ fuel → walk lib w fuel k ≡ some (preorder t)
  walk-preorder t k fuel tree fits = walk_tree t k fuel tree fits
