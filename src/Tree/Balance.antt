-- ===== src/Tree/Balance.antt =====
-- The depths that `check_extent` asserts of every extent, and `rebalance` (incont.c).
use pado_fs.Base.{
  ℕ, ◌+◌, ◌≤◌, max, ◌≡◌, refl, ap, ◌∙◌, Option, none, some, List, [], ◌∷◌, ◌++◌, arith, ◌⊎◌, inl,
  inr, ◌==◌, Bool-cases, Returns, leb→le, not-leb→lt, ltb→lt, not-ltb→le, Returns-imp, ==→eq,
  append-nil, append_assoc, leb, ltb, subst,
}
use pado_fs.Tree.{
  Tree, leaf, node, depth, Turn, from_left, from_right, PathUp, fill, turn_depth, plug,
  rotate_left_heavy, rotate_right_heavy, adjust, rebalance,
}
use pado_fs.Tree.Order.{inorder, around, around-fill, inorder-plug}

-- `depth` is right and the children's depths differ by at most 1, everywhere in the tree.
abbrev pub IsAvl : Tree → Type 0
IsAvl leaf = Unit
IsAvl (node l x d r) =
    IsAvl l
    × IsAvl r
    × (d ≡ max (depth l) (depth r) + 1)
    × (depth l ≤ depth r + 1)
    × (depth r ≤ depth l + 1)

-- What one round of `rebalance` makes of children whose depths differ by at most 2.
pub record Adjusted (l : Tree) (x : ℕ) (r : Tree) (t : Tree) : Type 0 where
  pub order : inorder t ≡ inorder l ++ x ∷ inorder r
  pub avl : IsAvl t
  pub grows : max (depth l) (depth r) ≤ depth t
  pub bounded : depth t ≤ max (depth l) (depth r) + 1
  pub even :
      (depth t ≡ max (depth l) (depth r) + 1) ⊎ (depth r + 2 ≤ depth l) ⊎ (depth l + 2 ≤ depth r)

rotate_left_heavy-Adjusted :
    (l : Tree) (x : ℕ) (r : Tree)
    → IsAvl l
    → IsAvl r
    → depth l ≡ depth r + 2
    → Returns (Adjusted l x r) (rotate_left_heavy l x r)
unfolding rotate_left_heavy
rotate_left_heavy-Adjusted leaf x r al ar e = omega arith
rotate_left_heavy-Adjusted (node leaf y d leaf) x r al ar e = omega arith
rotate_left_heavy-Adjusted (node (node a z f b) y d leaf) x r al ar e = record {
  order = simp append_assoc;
  avl = ground arith;
  grows = omega arith;
  bounded = omega arith;
  even = omega arith;
}
rotate_left_heavy-Adjusted (node leaf y d (node u w g v)) x r al ar e =
    elim (Bool-cases (leb g 0)) [
      | inl c ↦ absurd (ground arith)
      | inr c ↦ rw c (record {
        order = simp append_assoc;
        avl = ground arith;
        grows = omega arith;
        bounded = omega arith;
        even = omega arith;
      })
    ]
rotate_left_heavy-Adjusted (node (node a z f b) y d (node u w g v)) x r al ar e =
    elim (Bool-cases (leb g f)) [
      | inl c ↦
          let q = leb→le g f c in
          rw c (record {
            order = simp append_assoc;
            avl = (
              (al.0.0, al.0.1, refl, al.0.3, al.0.4),
              (al.1, ar, refl, omega arith, omega arith),
              refl,
              omega arith,
              omega arith,
            );
            grows = omega arith;
            bounded = omega arith;
            even = omega arith;
          })
      | inr c ↦
          let q = not-leb→lt g f c in
          rw c (record {
            order = simp append_assoc;
            avl = (
              (al.0, al.1.0, refl, omega arith, omega arith),
              (al.1.1, ar, refl, omega arith, omega arith),
              refl,
              omega arith,
              omega arith,
            );
            grows = omega arith;
            bounded = omega arith;
            even = omega arith;
          })
    ]

rotate_right_heavy-Adjusted :
    (l : Tree) (x : ℕ) (r : Tree)
    → IsAvl l
    → IsAvl r
    → depth r ≡ depth l + 2
    → Returns (Adjusted l x r) (rotate_right_heavy l x r)
unfolding rotate_right_heavy
rotate_right_heavy-Adjusted l x leaf al ar e = omega arith
rotate_right_heavy-Adjusted l x (node leaf y d leaf) al ar e = omega arith
rotate_right_heavy-Adjusted l x (node leaf y d (node a z f b)) al ar e = record {
  order = simp append_assoc;
  avl = ground arith;
  grows = omega arith;
  bounded = omega arith;
  even = omega arith;
}
rotate_right_heavy-Adjusted l x (node (node u w g v) y d leaf) al ar e =
    elim (Bool-cases (ltb 0 g)) [
      | inl c ↦ rw c (record {
        order = simp append_assoc;
        avl = ground arith;
        grows = omega arith;
        bounded = omega arith;
        even = omega arith;
      })
      | inr c ↦ absurd (ground arith)
    ]
rotate_right_heavy-Adjusted l x (node (node u w g v) y d (node a z f b)) al ar e =
    elim (Bool-cases (ltb f g)) [
      | inl c ↦
          let q = ltb→lt f g c in
          rw c (record {
            order = simp append_assoc;
            avl = (
              (al, ar.0.0, refl, omega arith, omega arith),
              (ar.0.1, ar.1, refl, omega arith, omega arith),
              refl,
              omega arith,
              omega arith,
            );
            grows = omega arith;
            bounded = omega arith;
            even = omega arith;
          })
      | inr c ↦
          let q = not-ltb→le f g c in
          rw c (record {
            order = simp append_assoc;
            avl = (
              (al, ar.0, refl, omega arith, omega arith),
              (ar.1.0, ar.1.1, refl, ar.1.3, ar.1.4),
              refl,
              omega arith,
              omega arith,
            );
            grows = omega arith;
            bounded = omega arith;
            even = omega arith;
          })
    ]

adjust-Adjusted :
    (l : Tree) (x d : ℕ) (r : Tree)
    → IsAvl l
    → IsAvl r
    → depth l ≤ depth r + 2
    → depth r ≤ depth l + 2
    → Returns (Adjusted l x r) (adjust (node l x d r))
unfolding adjust
adjust-Adjusted l x d r al ar p q = elim (Bool-cases (ltb (depth r + 2) (depth l))) [
  | inl c ↦ absurd (ground arith)
  | inr c ↦ rw c (elim (Bool-cases (ltb (depth l + 2) (depth r))) [
    | inl c' ↦ absurd (ground arith)
    | inr c' ↦ rw c' (elim (Bool-cases (ltb (depth r + 1) (depth l))) [
      | inl h ↦ rw h (rotate_left_heavy-Adjusted l x r al ar (ground arith))
      | inr h ↦ rw h (elim (Bool-cases (ltb (depth l + 1) (depth r))) [
        | inl k ↦ rw k (rotate_right_heavy-Adjusted l x r al ar (ground arith))
        | inr k ↦ rw k (record {
          order = refl;
          avl = ground arith;
          grows = omega arith;
          bounded = omega arith;
          even = omega arith;
        })
      ])
    ])
  ])
]

-- Around a hole of depth `h` every other extent of the tree satisfies the assertions.
abbrev pub IsAvlAbove : PathUp → ℕ → Type 0
IsAvlAbove [] h = Unit
IsAvlAbove (from_left x d r ∷ p) h =
    IsAvl r × (d ≡ max h (depth r) + 1) × (h ≤ depth r + 1) × (depth r ≤ h + 1) × IsAvlAbove p d
IsAvlAbove (from_right l x d ∷ p) h =
    IsAvl l × (d ≡ max (depth l) h + 1) × (depth l ≤ h + 1) × (h ≤ depth l + 1) × IsAvlAbove p d

pub plug-IsAvl : (p : PathUp) (t : Tree) → IsAvl t → IsAvlAbove p (depth t) → IsAvl (plug p t)
unfolding plug
plug-IsAvl [] t a c = a
plug-IsAvl (from_left x d r ∷ p) t a c = plug-IsAvl p (node t x d r) (a, c.0, c.1, c.2, c.3) c.4
plug-IsAvl (from_right l x d ∷ p) t a c = plug-IsAvl p (node l x d t) (c.0, a, c.1, c.2, c.3) c.4

-- The result of `rebalance` above `t`: the same sequence, with all depths in order.
pub record Rebalanced (xs : List ℕ) (t : Tree) : Type 0 where
  pub order : inorder t ≡ xs
  pub avl : IsAvl t

-- What the climb keeps from one round to the next.
record Climbed (s : Turn) (p : PathUp) (t : Tree) (t' : Tree) : Type 0 where
  order : inorder t' ≡ inorder (fill s t)
  avl : IsAvl t'
  above : depth t' ≤ turn_depth s + 1
  below : turn_depth s ≤ depth t' + 1
  rest : IsAvlAbove p (turn_depth s)

module _ (p : PathUp) {h : ℕ} (t : Tree) where
  adjust-Climbed :
      (s : Turn)
      → IsAvl t
      → depth t ≤ h + 1
      → h ≤ depth t + 1
      → IsAvlAbove (s ∷ p) h
      → Returns (Climbed s p t) (adjust (fill s t))
  adjust-Climbed (from_left x d r) a u v c =
      Returns-imp (adjust (node t x d r))
        (adjust-Adjusted t x d r a c.0 (omega arith) (omega arith))
        λ t' g. record {
          order = g.order;
          avl = g.avl;
          above = let i = g.bounded in omega arith;
          below = let i = g.grows in let j = g.even in omega arith;
          rest = c.4;
        }
  adjust-Climbed (from_right l x d) a u v c =
      Returns-imp (adjust (node l x d t))
        (adjust-Adjusted l x d t c.0 a (omega arith) (omega arith))
        λ t' g. record {
          order = g.order;
          avl = g.avl;
          above = let i = g.bounded in omega arith;
          below = let i = g.grows in let j = g.even in omega arith;
          rest = c.4;
        }

rebalance_step :
    (s : Turn) (p : PathUp) (t : Tree) (o : Option Tree)
    → adjust (fill s t) ≡ o
    → Returns (Climbed s p t) o
    → ((t' : Tree)
        → Climbed s p t t'
        → Returns (Rebalanced (around p (inorder t'))) (rebalance p t'))
    → Returns (Rebalanced (around (s ∷ p) (inorder t))) (rebalance (s ∷ p) t)
unfolding rebalance
rebalance_step s p t none e k climb = absurd k
rebalance_step s p t (some t') e k climb =
    let q : around p (inorder t') ≡ around (s ∷ p) (inorder t) =
      ap (around p) k.order ∙ around-fill s p t in
    elim (Bool-cases (depth t' == turn_depth s)) [
      | inl b ↦
          rw (e, rebalance)
            (rw b (record {
              order = inorder-plug p t' ∙ q;
              avl = plug-IsAvl p t' k.avl (rw (==→eq (depth t') (turn_depth s) b) k.rest);
            }))
      | inr b ↦
          rw (e, rebalance)
            (rw b (subst (λ xs. Returns (Rebalanced xs) (rebalance p t')) q (climb t' k)))
    ]

-- Wherever one subtree of a tree in order has changed its depth by at most 1 and is itself in
-- order, `rebalance` meets no failed assertion and no `NULL`, keeps the sequence of extents, and
-- puts every depth in order.
pub rebalance_lem :
    (p : PathUp) (h : ℕ) (t : Tree)
    → IsAvl t
    → depth t ≤ h + 1
    → h ≤ depth t + 1
    → IsAvlAbove p h
    → Returns (Rebalanced (around p (inorder t))) (rebalance p t)
unfolding rebalance
rebalance_lem [] h t a u v c = record { order = simp append-nil; avl = a }
rebalance_lem (s ∷ p) h t a u v c =
    rebalance_step s p t (adjust (fill s t)) refl (adjust-Climbed p t s a u v c)
      λ t' k. rebalance_lem p (turn_depth s) t' k.avl k.above k.below k.rest
