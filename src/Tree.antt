-- ===== src/Tree.antt =====
-- The balanced tree of extents (incont.h `struct extent`: `left`, `right`, `depth`, `parent`,
-- `pivot`; incont.c `rebalance` and the tree half of `remove_extent` and `replace_extent`).
-- A tree holds the pointers of its extents. `NULL` is `leaf`. The fields `parent` and `pivot`, by
-- which the source climbs and writes the link above an extent, are the steps of a path from the
-- extent to the root; a write through `*pivot` puts a tree under a path.
pub mod Order
pub mod Balance
pub mod Locate
pub mod Ops
use pado_fs.Base.{
  ℕ, ◌+◌, ◌-◌, max, Bool, true, false, Option, none, some, List, [], ◌∷◌, ◌++◌, ltb, leb, ◌==◌,
  if◌then◌else◌, ◌&&◌,
}

-- `left`, the extent's pointer, `depth`, `right`.
pub data Tree : Type 0 where
  leaf : Tree
  node : Tree → ℕ → ℕ → Tree → Tree

-- `DEPTH`
abbrev pub depth : Tree → ℕ
depth leaf = 0
depth (node l x d r) = d

abbrev pub is_leaf : Tree → Bool
is_leaf leaf = true
is_leaf (node l x d r) = false

-- One step of a path: the extent above, its depth and its other child.
pub data Turn : Type 0 where
  from_left : ℕ → ℕ → Tree → Turn
  from_right : Tree → ℕ → ℕ → Turn

abbrev pub PathUp : Type 0
PathUp = List Turn

abbrev pub fill : Turn → Tree → Tree
fill (from_left x d r) t = node t x d r
fill (from_right l x d) t = node l x d t

abbrev pub turn_depth : Turn → ℕ
turn_depth (from_left x d r) = d
turn_depth (from_right l x d) = d

unfoldable pub plug : PathUp → Tree → Tree
plug [] t = t
plug (s ∷ p) t = plug p (fill s t)

-- `MAX(DEPTH(l), DEPTH(r)) + 1` is the depth of a node that a rotation relinks.
abbrev pub link : Tree → ℕ → Tree → Tree
link l x r = node l x (max (depth l) (depth r) + 1) r

-- The rotations, with `dl > dr`. `none` stands for a `NULL` that the source would read through.
unfoldable pub rotate_left_heavy : Tree → ℕ → Tree → Option Tree
rotate_left_heavy leaf x r = none
rotate_left_heavy (node ll y d leaf) x r = elim ll [
  | leaf ↦ none
  | node a z e b ↦ some (link (link a z b) y (link leaf x r))
]
rotate_left_heavy (node ll y d (node lrl w e lrr)) x r =
    if leb e (depth ll)
    then (elim ll [
      | leaf ↦ none
      | node a z f b ↦ some (link (link a z b) y (link (node lrl w e lrr) x r))
    ])
    else some (link (link ll y lrl) w (link lrr x r))

-- The rotations, with `dl < dr`.
unfoldable pub rotate_right_heavy : Tree → ℕ → Tree → Option Tree
rotate_right_heavy l x leaf = none
rotate_right_heavy l x (node leaf y d rr) = elim rr [
  | leaf ↦ none
  | node a z e b ↦ some (link (link l x leaf) y (link a z b))
]
rotate_right_heavy l x (node (node rll w e rlr) y d rr) =
    if ltb (depth rr) e then some (link (link l x rll) w (link rlr y rr)) else (elim rr [
      | leaf ↦ none
      | node a z f b ↦ some (link (link l x (node rll w e rlr)) y (link a z b))
    ])

-- One round of `rebalance`. `none` is also a failed `assert(ABS(dl-dr) == 2)`.
unfoldable pub adjust : Tree → Option Tree
adjust leaf = none
adjust (node l x d r) =
    if ltb (depth r + 2) (depth l)
    then none
    else if ltb (depth l + 2) (depth r)
    then none
    else if ltb (depth r + 1) (depth l)
    then rotate_left_heavy l x r
    else if ltb (depth l + 1) (depth r)
    then rotate_right_heavy l x r
    else some (link l x r)

-- `rebalance` of the extent above `t`: climb while the depth changes.
unfoldable pub rebalance : PathUp → Tree → Option Tree
rebalance [] t = some t
rebalance (s ∷ p) t = elim (adjust (fill s t)) [
  | none ↦ none
  | some t' ↦
      let rest = rebalance p t' in if depth t' == turn_depth s then some (plug p t') else rest
]

-- The place of an extent, which the source has as its pointer: what stands above it, and its node.
pub record Place : Type 0 where
  pub above : PathUp
  pub left : Tree
  pub depth_of : ℕ
  pub right : Tree

unfoldable pub locate : ℕ → Tree → PathUp → Option Place
locate x leaf p = none
locate x (node l y d r) p =
    let on_left = locate x l (from_left y d r ∷ p) in
    let on_right = locate x r (from_right l y d ∷ p) in
    if x == y
    then some (record { above = p; left = l; depth_of = d; right = r })
    else elim on_left [ none ↦ on_right | some q ↦ some q ]

-- The relinking of `replace_extent`: the new extent takes the place of the old one.
unfoldable pub substitute : ℕ → ℕ → Tree → Option Tree
substitute x y t = elim (locate x t []) [
  | none ↦ none
  | some q ↦ some (plug q.above (node q.left y q.depth_of q.right))
]

-- The new extent `y` becomes the right child of `x`, or, where `x` has one, the left child of its
-- successor `after`; then `rebalance(alte->parent)`.
unfoldable pub hang_right : (x y : ℕ) (after : Option ℕ) → Tree → Option Tree
hang_right x y after t = elim (locate x t []) [
  | none ↦ none
  | some q ↦
      if is_leaf q.right
      then rebalance (from_right q.left x q.depth_of ∷ q.above) (node leaf y 1 leaf)
      else elim after [
        | none ↦ none
        | some z ↦ elim (locate z t []) [
          | none ↦ none
          | some w ↦
              if is_leaf w.left
              then rebalance (from_left z w.depth_of w.right ∷ w.above) (node leaf y 1 leaf)
              else none
        ]
      ]
]

-- The mirror image, for an extent without an extent before it in reach.
unfoldable pub hang_left : (x y : ℕ) (before : Option ℕ) → Tree → Option Tree
hang_left x y before t = elim (locate x t []) [
  | none ↦ none
  | some q ↦
      if is_leaf q.left
      then rebalance (from_left x q.depth_of q.right ∷ q.above) (node leaf y 1 leaf)
      else elim before [
        | none ↦ none
        | some z ↦ elim (locate z t []) [
          | none ↦ none
          | some w ↦
              if is_leaf w.right
              then rebalance (from_right w.left z w.depth_of ∷ w.above) (node leaf y 1 leaf)
              else none
        ]
      ]
]

-- The tree half of `remove_extent`. With two children, `before` (`target->prev`, in the left
-- subtree and without a right child) is cut out and takes the place of `x`.
unfoldable pub detach : (x : ℕ) (before : Option ℕ) → Tree → Option Tree
detach x before t = elim (locate x t []) [
  | none ↦ none
  | some q ↦
      if is_leaf q.right
      then rebalance q.above q.left
      else if is_leaf q.left
      then rebalance q.above q.right
      else elim before [
        | none ↦ none
        | some z ↦ elim (locate z q.left []) [
          | none ↦ none
          | some w ↦
              if is_leaf w.right
              then rebalance (w.above ++ from_left z q.depth_of q.right ∷ q.above) w.left
              else none
        ]
      ]
]
