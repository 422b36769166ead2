-- ===== src/Tests/Trees.antt =====
-- The tree operations at small trees.
use pado_fs.Base.{refl, List, [], ◌∷◌, arith, Returns}
use pado_fs.Base.Distinct.{head?, get_last?, IsDistinct}
use pado_fs.Tree.{
  Tree, leaf, node, Turn, from_right, rebalance, substitute, hang_right, hang_left, detach,
}
use pado_fs.Tree.Order.{inorder, around}
use pado_fs.Tree.Balance.{IsAvl, Rebalanced, rebalance_lem}
use pado_fs.Tree.Ops.{substitute_lem, hang_right_lem, hang_left_lem, detach_lem}

-- Above a subtree that has grown from depth 1 to depth 2: a rotation is due.
abbrev climb : List Turn
climb = from_right leaf 2 2 ∷ []

rebalance_lem_example :
    Returns
      (Rebalanced (around climb (inorder (node leaf 3 2 (node leaf 4 1 leaf)))))
      (rebalance climb (node leaf 3 2 (node leaf 4 1 leaf)))
rebalance_lem_example =
    rebalance_lem climb 1 (node leaf 3 2 (node leaf 4 1 leaf))
      (tt, (tt, tt, refl, omega arith, omega arith), refl, omega arith, omega arith) (omega arith)
      (omega arith) (tt, refl, omega arith, omega arith, tt)

abbrev four : Tree
four = node (node leaf 1 1 leaf) 2 3 (node leaf 3 2 (node leaf 4 1 leaf))

four-IsAvl : IsAvl four
four-IsAvl = (
  (tt, tt, refl, omega arith, omega arith),
  (tt, (tt, tt, refl, omega arith, omega arith), refl, omega arith, omega arith),
  refl,
  omega arith,
  omega arith,
)

four-IsDistinct : IsDistinct (1 ∷ 2 ∷ 3 ∷ 4 ∷ [])
four-IsDistinct = (refl, (refl, (refl, (refl, tt))))

substitute_lem_example : Returns (Rebalanced (1 ∷ 2 ∷ 9 ∷ 4 ∷ [])) (substitute 3 9 four)
substitute_lem_example =
    substitute_lem 3 (1 ∷ 2 ∷ []) (4 ∷ []) four refl four-IsDistinct four-IsAvl 9

hang_right_lem_example :
    Returns (Rebalanced (1 ∷ 2 ∷ 3 ∷ 4 ∷ 9 ∷ [])) (hang_right 4 9 (head? []) four)
hang_right_lem_example = hang_right_lem 4 (1 ∷ 2 ∷ 3 ∷ []) [] four refl four-IsDistinct four-IsAvl 9

hang_left_lem_example :
    Returns (Rebalanced (9 ∷ 1 ∷ 2 ∷ 3 ∷ 4 ∷ [])) (hang_left 1 9 (get_last? []) four)
hang_left_lem_example = hang_left_lem 1 [] (2 ∷ 3 ∷ 4 ∷ []) four refl four-IsDistinct four-IsAvl 9

detach_lem_example : Returns (Rebalanced (1 ∷ 3 ∷ 4 ∷ [])) (detach 2 (get_last? (1 ∷ [])) four)
detach_lem_example = detach_lem 2 (1 ∷ []) (3 ∷ 4 ∷ []) four refl four-IsDistinct four-IsAvl
