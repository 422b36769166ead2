-- ===== src/Layout/Linked.antt =====
-- The chain and the tree of an inode under the operations of incont.c on extents: `remove_extent`,
-- `replace_extent`, and the insertions of `replace`.
use pado_fs.Base.{
  ℕ, ◌≡◌, refl, sym, ap, ◌∙◌, subst, Bool, true, Option, none, some, List, [], ◌∷◌, ◌++◌, Returns,
  append_assoc,
}
use pado_fs.Base.Distinct.{
  IsDistinct, IsDistinct-middle, IsDistinct-skip, next_of, prev_of, next_of-middle, prev_of-middle,
  erase-middle, replace_with-middle, insert_behind-middle, insert_ahead-middle, erase, replace_with,
  insert_behind, insert_ahead,
}
use pado_fs.Tree.{Tree, substitute, hang_right, hang_left, detach}
use pado_fs.Tree.Order.{inorder}
use pado_fs.Tree.Balance.{IsAvl, Rebalanced}
use pado_fs.Tree.Ops.{substitute_lem, hang_right_lem, hang_left_lem, detach_lem}
use pado_fs.Inode.{Inode, Env, set_tree}
use pado_fs.Inode.Extents.{unlink_extent, release_extent, remove_extent, replace_extent}
use pado_fs.Layout.{insert_rest}
use pado_fs.Layout.Same.{IsSame, release_extent-IsSame}

-- The chain and the tree hold the extents `zs` in order, and the depths are in order.
pub record IsLinked (zs : List ℕ) (i : Inode) : Type 0 where
  pub chain : i.chain ≡ zs
  pub order : inorder i.flayout ≡ zs
  pub avl : IsAvl i.flayout

-- An inode that is linked so, and halted only if it was before.
abbrev pub Keeps : List ℕ → Bool → Inode → Type 0
Keeps zs b i = IsLinked zs i × (i.halted ≡ b)

set_tree-Keeps :
    (o : Option Tree) (zs : List ℕ) (i : Inode)
    → Returns (Rebalanced zs) o
    → i.chain ≡ zs
    → Keeps zs i.halted (set_tree o i)
set_tree-Keeps none zs i r e = absurd r
set_tree-Keeps (some t) zs i r e = (record { chain = e; order = r.order; avl = r.avl }, refl)

module _ (x : ℕ) (xs ys : List ℕ) (i : Inode) (u : IsDistinct (xs ++ x ∷ ys))
    (k : IsLinked (xs ++ x ∷ ys) i) where
  pub unlink_extent-Keeps : Keeps (xs ++ ys) i.halted (unlink_extent x i)
  unfolding unlink_extent
  unlink_extent-Keeps =
      let (a, b) = IsDistinct-middle xs x ys u in
      set_tree-Keeps (detach x (prev_of x i.chain) i.flayout) (xs ++ ys)
        (record i { chain = erase x i.chain })
        (subst (λ o. Returns (Rebalanced (xs ++ ys)) (detach x o i.flayout))
          (sym (ap (prev_of x) k.chain ∙ prev_of-middle x ys xs a))
          (detach_lem x xs ys i.flayout k.order u k.avl))
        (ap (erase x) k.chain ∙ erase-middle x ys xs a)

  hang_behind :
      (y : ℕ)
      → Keeps (xs ++ x ∷ y ∷ ys) i.halted (
          set_tree
            (hang_right x y (next_of x i.chain) i.flayout)
            (record i { chain = insert_behind x y i.chain }))
  hang_behind y =
      let (a, b) = IsDistinct-middle xs x ys u in
      set_tree-Keeps (hang_right x y (next_of x i.chain) i.flayout) (xs ++ x ∷ y ∷ ys)
        (record i { chain = insert_behind x y i.chain })
        (subst (λ o. Returns (Rebalanced (xs ++ x ∷ y ∷ ys)) (hang_right x y o i.flayout))
          (sym (ap (next_of x) k.chain ∙ next_of-middle x ys xs a))
          (hang_right_lem x xs ys i.flayout k.order u k.avl y))
        (ap (insert_behind x y) k.chain ∙ insert_behind-middle x ys y xs a)

  hang_ahead :
      (y : ℕ)
      → Keeps (xs ++ y ∷ x ∷ ys) i.halted (
          set_tree
            (hang_left x y (prev_of x i.chain) i.flayout)
            (record i { chain = insert_ahead x y i.chain }))
  hang_ahead y =
      let (a, b) = IsDistinct-middle xs x ys u in
      set_tree-Keeps (hang_left x y (prev_of x i.chain) i.flayout) (xs ++ y ∷ x ∷ ys)
        (record i { chain = insert_ahead x y i.chain })
        (subst (λ o. Returns (Rebalanced (xs ++ y ∷ x ∷ ys)) (hang_left x y o i.flayout))
          (sym (ap (prev_of x) k.chain ∙ prev_of-middle x ys xs a))
          (hang_left_lem x xs ys i.flayout k.order u k.avl y))
        (ap (insert_ahead x y) k.chain ∙ insert_ahead-middle x ys y xs a)

  pub relink :
      (y : ℕ)
      → Keeps
          (xs ++ y ∷ ys)
          i.halted
          (set_tree (substitute x y i.flayout) (record i { chain = replace_with x y i.chain }))
  relink y =
      let (a, b) = IsDistinct-middle xs x ys u in
      set_tree-Keeps (substitute x y i.flayout) (xs ++ y ∷ ys)
        (record i { chain = replace_with x y i.chain })
        (substitute_lem x xs ys i.flayout k.order u k.avl y)
        (ap (replace_with x y) k.chain ∙ replace_with-middle x ys y xs a)

-- The loop of `replace` that inserts the remaining new extents behind an extent `t`: where these
-- are distinct and not in the layout, it trips no assertion, the chain and the tree then hold the
-- new extents in their order directly behind `t`, the others as before, and every depth is in
-- order.
pub insert_rest-behind :
    (alts : List ℕ) (tol : Option ℕ) (t : ℕ) (xs ys : List ℕ) (i : Inode)
    → IsDistinct (xs ++ t ∷ (alts ++ ys))
    → IsLinked (xs ++ t ∷ ys) i
    → IsLinked (xs ++ t ∷ (alts ++ ys)) (insert_rest (some t) tol alts i)
      × ((insert_rest (some t) tol alts i).halted ≡ i.halted)
unfolding insert_rest
insert_rest-behind [] tol t xs ys i u k = (k, refl)
insert_rest-behind (a ∷ rest) tol t xs ys i u k =
    let snoc : (zs : List ℕ) → xs ++ t ∷ zs ≡ (xs ++ t ∷ []) ++ zs =
      λ zs. sym (append_assoc xs (t ∷ []) zs) in
    let plain =
      IsDistinct-skip (xs ++ t ∷ []) (a ∷ rest) ys (subst IsDistinct (snoc (a ∷ (rest ++ ys))) u) in
    let j =
      set_tree (hang_right t a (next_of t i.chain) i.flayout)
        (record i { chain = insert_behind t a i.chain }) in
    let (m, h) = hang_behind t xs ys i (subst IsDistinct (sym (snoc ys)) plain) k a in
    let (n, g) =
      insert_rest-behind rest tol a (xs ++ t ∷ []) ys j
        (subst IsDistinct (snoc (a ∷ (rest ++ ys))) u)
        (subst (λ zs. IsLinked zs j) (snoc (a ∷ ys)) m) in
    (
      subst (λ zs. IsLinked zs (insert_rest (some a) tol rest j)) (sym (snoc (a ∷ (rest ++ ys)))) n,
      g ∙ h,
    )

-- The loop of `replace` that inserts the remaining new extents before an extent `t`: where these
-- are distinct and not in the layout, it trips no assertion, the chain and the tree then hold the
-- new extents in their order directly before `t`, the others as before, and every depth is in
-- order.
pub insert_rest-ahead :
    (alts : List ℕ) (t : ℕ) (xs ys : List ℕ) (i : Inode)
    → IsDistinct (xs ++ (alts ++ t ∷ ys))
    → IsLinked (xs ++ t ∷ ys) i
    → IsLinked (xs ++ (alts ++ t ∷ ys)) (insert_rest none (some t) alts i)
      × ((insert_rest none (some t) alts i).halted ≡ i.halted)
unfolding insert_rest
insert_rest-ahead [] t xs ys i u k = (k, refl)
insert_rest-ahead (a ∷ rest) t xs ys i u k =
    let snoc : (zs : List ℕ) → xs ++ a ∷ zs ≡ (xs ++ a ∷ []) ++ zs =
      λ zs. sym (append_assoc xs (a ∷ []) zs) in
    let plain = IsDistinct-skip xs (a ∷ rest) (t ∷ ys) u in
    let j =
      set_tree (hang_left t a (prev_of t i.chain) i.flayout)
        (record i { chain = insert_ahead t a i.chain }) in
    let (m, h) = hang_ahead t xs ys i plain k a in
    let (n, g) =
      insert_rest-ahead rest t (xs ++ a ∷ []) ys j (subst IsDistinct (snoc (rest ++ t ∷ ys)) u)
        (subst (λ zs. IsLinked zs j) (snoc (t ∷ ys)) m) in
    (
      subst (λ zs. IsLinked zs (insert_rest none (some t) rest j)) (sym (snoc (rest ++ t ∷ ys))) n,
      g ∙ h,
    )

pub IsSame-IsLinked : (zs : List ℕ) (i j : Inode) → IsSame i j → IsLinked zs i → IsLinked zs j
IsSame-IsLinked zs i j s k = record {
  chain = s.chain ∙ k.chain;
  order = ap inorder s.flayout ∙ k.order;
  avl = subst IsAvl (sym s.flayout) k.avl;
}

module _ (env : Env) (x : ℕ) (xs ys : List ℕ) (i : Inode) (u : IsDistinct (xs ++ x ∷ ys))
    (k : IsLinked (xs ++ x ∷ ys) i) where
  pub remove_extent-IsLinked : (b : Bool) → IsLinked (xs ++ ys) (remove_extent env x b i)
  unfolding remove_extent
  remove_extent-IsLinked b =
      let j = unlink_extent x i in
      IsSame-IsLinked (xs ++ ys) j (release_extent env x b j) (release_extent-IsSame env x b j)
        (unlink_extent-Keeps x xs ys i u k).0

  pub replace_extent-IsLinked : (y : ℕ) → IsLinked (xs ++ y ∷ ys) (replace_extent env x y i)
  unfolding replace_extent
  replace_extent-IsLinked y =
      let j = set_tree (substitute x y i.flayout) (record i { chain = replace_with x y i.chain }) in
      let n =
        IsSame-IsLinked (xs ++ y ∷ ys) j (release_extent env x true j)
          (release_extent-IsSame env x true j) (relink x xs ys i u k y).0 in
      record { chain = n.chain; order = n.order; avl = n.avl }
