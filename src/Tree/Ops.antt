-- ===== src/Tree/Ops.antt =====
-- `replace_extent`, the insertions of `replace` and `remove_extent` on the tree (incont.c): the
-- sequence of extents and the depths.
use pado_fs.Base.{
  ℕ, ◌≡◌, refl, sym, ap, ap₂, ◌∙◌, subst, subst₃, Option, some, List, [], ◌∷◌, ◌++◌, arith, Returns,
  append_assoc, append-nil,
}
use pado_fs.Base.Distinct.{IsDistinct, head?, get_last?, get_last?-snoc, IsDistinct-of-append}
use pado_fs.Tree.{
  Tree, leaf, node, depth, from_left, from_right, PathUp, plug, locate, substitute, hang_right,
  hang_left, detach, rebalance,
}
use pado_fs.Tree.Order.{inorder, before, after, around, inorder-plug}
use pado_fs.Tree.Balance.{IsAvl, IsAvlAbove, Rebalanced, plug-IsAvl, rebalance_lem}
use pado_fs.Tree.Locate.{locate_lem, locate-place, plug-append, before-append, after-append, place}

-- A tree in order is in order at every place.
pub unplug-IsAvl : (p : PathUp) (t : Tree) → IsAvl (plug p t) → IsAvl t × IsAvlAbove p (depth t)
unfolding plug
unplug-IsAvl [] t a = (a, tt)
unplug-IsAvl (from_left x d r ∷ p) t a =
    let (b, c) = unplug-IsAvl p (node t x d r) a in (b.0, (b.1, b.2, b.3, b.4, c))
unplug-IsAvl (from_right l x d ∷ p) t a =
    let (b, c) = unplug-IsAvl p (node l x d t) a in (b.1, (b.0, b.2, b.3, b.4, c))

IsAvlAbove-rename :
    (x z d : ℕ) (r : Tree) (m p : PathUp) (h : ℕ)
    → IsAvlAbove (m ++ from_left x d r ∷ p) h
    → IsAvlAbove (m ++ from_left z d r ∷ p) h
IsAvlAbove-rename x z d r [] p h a = a
IsAvlAbove-rename x z d r (from_left w e s ∷ m) p h a =
    (a.0, a.1, a.2, a.3, IsAvlAbove-rename x z d r m p e a.4)
IsAvlAbove-rename x z d r (from_right s w e ∷ m) p h a =
    (a.0, a.1, a.2, a.3, IsAvlAbove-rename x z d r m p e a.4)

-- The first and the last node of a subtree.
record Leftmost (t : Tree) : Type 0 where
  turns : PathUp
  id : ℕ
  dep : ℕ
  right : Tree
  whole : t ≡ plug turns (node leaf id dep right)
  first : before turns ≡ []

leftmost : (l : Tree) (x d : ℕ) (r : Tree) → Leftmost (node l x d r)
unfolding plug
leftmost leaf x d r = record { turns = []; id = x; dep = d; right = r; whole = refl; first = refl }
leftmost (node l' x' d' r') x d r =
    let q = leftmost l' x' d' r' in
    record {
      turns = q.turns ++ from_left x d r ∷ [];
      id = q.id;
      dep = q.dep;
      right = q.right;
      whole =
          ap (λ l. node l x d r) q.whole
          ∙ sym (plug-append q.turns (from_left x d r ∷ []) (node leaf q.id q.dep q.right));
      first = before-append q.turns (from_left x d r ∷ []) ∙ q.first;
    }

record Rightmost (t : Tree) : Type 0 where
  turns : PathUp
  left : Tree
  id : ℕ
  dep : ℕ
  whole : t ≡ plug turns (node left id dep leaf)
  final : after turns ≡ []

rightmost : (l : Tree) (x d : ℕ) (r : Tree) → Rightmost (node l x d r)
unfolding plug
rightmost l x d leaf = record { turns = []; left = l; id = x; dep = d; whole = refl; final = refl }
rightmost l x d (node l' x' d' r') =
    let q = rightmost l' x' d' r' in
    record {
      turns = q.turns ++ from_right l x d ∷ [];
      left = q.left;
      id = q.id;
      dep = q.dep;
      whole =
          ap (λ r. node l x d r) q.whole
          ∙ sym (plug-append q.turns (from_right l x d ∷ []) (node q.left q.id q.dep leaf));
      final = after-append q.turns (from_right l x d ∷ []) ∙ simp q.final;
    }

Rightmost-order :
    {t : Tree} (q : Rightmost t) → inorder t ≡ (before q.turns ++ inorder q.left) ++ q.id ∷ []
Rightmost-order q =
    ap inorder q.whole
    ∙ (inorder-plug q.turns (node q.left q.id q.dep leaf)
        ∙ simp (q.final, append-nil, append_assoc))

IsDistinct-left :
    (p : PathUp) (l : Tree) (x d : ℕ) (r : Tree)
    → IsDistinct (inorder (plug p (node l x d r)))
    → IsDistinct (inorder l)
IsDistinct-left p l x d r u =
    let a =
      IsDistinct-of-append (before p) _ (subst IsDistinct (inorder-plug p (node l x d r)) u) in
    let b = IsDistinct-of-append (inorder (node l x d r)) (after p) a.1 in
    (IsDistinct-of-append (inorder l) _ b.0).0

-- A new leaf at the end of a path.
hang_lem :
    (p : PathUp) (y : ℕ)
    → IsAvl (plug p leaf)
    → Returns (Rebalanced (before p ++ y ∷ after p)) (rebalance p (node leaf y 1 leaf))
hang_lem p y a =
    rebalance_lem p 0 (node leaf y 1 leaf) (tt, tt, refl, omega arith, omega arith) (omega arith)
      (omega arith) (unplug-IsAvl p leaf a).1

regroup :
    (p : PathUp) (l : List ℕ) (y : ℕ) (r : List ℕ)
    → around p (l ++ y ∷ r) ≡ (before p ++ l) ++ y ∷ (r ++ after p)
regroup p l y r = simp append_assoc

Rebalanced-eq :
    {xs ys : List ℕ} (o : Option Tree)
    → xs ≡ ys
    → Returns (Rebalanced xs) o
    → Returns (Rebalanced ys) o
Rebalanced-eq o e h = subst (λ zs. Returns (Rebalanced zs) o) e h

-- One node with the path above it, in a tree in order and without repetition.
module _ (p : PathUp) (l : Tree) (x d : ℕ) (r : Tree)
    (u : IsDistinct (inorder (plug p (node l x d r)))) (a : IsAvl (plug p (node l x d r))) where
  substitute_at :
      (y : ℕ)
      → Returns
          (Rebalanced ((before p ++ inorder l) ++ y ∷ (inorder r ++ after p)))
          (substitute x y (plug p (node l x d r)))
  unfolding substitute
  substitute_at y =
      rw (locate-place x p l d r u, substitute)
        (record {
          order = inorder-plug p (node l y d r) ∙ regroup p (inorder l) y (inorder r);
          avl = let (b, c) = unplug-IsAvl p (node l x d r) a in plug-IsAvl p (node l y d r) b c;
        })

hang_right_at :
    (p : PathUp) (l : Tree) (x d : ℕ) (r : Tree)
    → IsDistinct (inorder (plug p (node l x d r)))
    → IsAvl (plug p (node l x d r))
    → (y : ℕ)
    → Returns
        (Rebalanced ((before p ++ inorder l) ++ x ∷ y ∷ (inorder r ++ after p)))
        (hang_right x y (head? (inorder r ++ after p)) (plug p (node l x d r)))
unfolding hang_right plug
hang_right_at p l x d leaf u a y =
    rw (locate-place x p l d leaf u, hang_right)
      (Rebalanced-eq _ (simp append_assoc) (hang_lem (from_right l x d ∷ p) y a))
hang_right_at p l x d (node rl x' d' rr) u a y =
    let q = leftmost rl x' d' rr in
    let m = q.turns ++ from_right l x d ∷ p in
    let w : plug p (node l x d (node rl x' d' rr)) ≡ plug m (node leaf q.id q.dep q.right) =
      ap (λ r. plug p (node l x d r)) q.whole
      ∙ sym (plug-append q.turns (from_right l x d ∷ p) (node leaf q.id q.dep q.right)) in
    let f = locate-place q.id m leaf q.dep q.right (subst (λ t. IsDistinct (inorder t)) w u) in
    let o : inorder (node rl x' d' rr) ≡ q.id ∷ (inorder q.right ++ after q.turns) =
      ap inorder q.whole
      ∙ (inorder-plug q.turns (node leaf q.id q.dep q.right)
          ∙ ap (λ zs. zs ++ (q.id ∷ inorder q.right ++ after q.turns)) q.first) in
    rw (locate-place x p l d (node rl x' d' rr) u, hang_right)
      (rw (ap (λ zs. head? (zs ++ after p)) o) (
        rw (w, f)
          (Rebalanced-eq (rebalance (from_left q.id q.dep q.right ∷ m) (node leaf y 1 leaf))
            (ap₂ (λ us vs. us ++ y ∷ (q.id ∷ (inorder q.right ++ vs)))
                (before-append q.turns (from_right l x d ∷ p)
                  ∙ (ap (λ zs. before (from_right l x d ∷ p) ++ zs) q.first ∙ append-nil _))
                (after-append q.turns (from_right l x d ∷ p))
              ∙ simp (append_assoc, o))
            (hang_lem (from_left q.id q.dep q.right ∷ m) y (subst IsAvl w a)))))

hang_left_at :
    (p : PathUp) (l : Tree) (x d : ℕ) (r : Tree)
    → IsDistinct (inorder (plug p (node l x d r)))
    → IsAvl (plug p (node l x d r))
    → (y : ℕ)
    → Returns
        (Rebalanced ((before p ++ inorder l) ++ y ∷ x ∷ (inorder r ++ after p)))
        (hang_left x y (get_last? (before p ++ inorder l)) (plug p (node l x d r)))
unfolding hang_left plug
hang_left_at p leaf x d r u a y =
    rw (locate-place x p leaf d r u, hang_left)
      (Rebalanced-eq _ (simp append_assoc) (hang_lem (from_left x d r ∷ p) y a))
hang_left_at p (node ll x' d' lr) x d r u a y =
    let q = rightmost ll x' d' lr in
    let m = q.turns ++ from_left x d r ∷ p in
    let w : plug p (node (node ll x' d' lr) x d r) ≡ plug m (node q.left q.id q.dep leaf) =
      ap (λ l. plug p (node l x d r)) q.whole
      ∙ sym (plug-append q.turns (from_left x d r ∷ p) (node q.left q.id q.dep leaf)) in
    let f = locate-place q.id m q.left q.dep leaf (subst (λ t. IsDistinct (inorder t)) w u) in
    let o : inorder (node ll x' d' lr) ≡ (before q.turns ++ inorder q.left) ++ q.id ∷ [] =
      Rightmost-order q in
    let g : get_last? (before p ++ inorder (node ll x' d' lr)) ≡ some q.id =
      ap (λ zs. get_last? (before p ++ zs)) o
      ∙ (ap get_last? (sym (append_assoc (before p) _ (q.id ∷ [])))
          ∙ get_last?-snoc (before p ++ (before q.turns ++ inorder q.left)) q.id) in
    rw (locate-place x p (node ll x' d' lr) d r u, hang_left)
      (rw g (
        rw (w, f)
          (Rebalanced-eq (rebalance (from_right q.left q.id q.dep ∷ m) (node leaf y 1 leaf))
            (ap₂ (λ us vs. (us ++ (inorder q.left ++ q.id ∷ [])) ++ y ∷ vs)
                (before-append q.turns (from_left x d r ∷ p))
                (after-append q.turns (from_left x d r ∷ p)
                  ∙ ap (λ zs. zs ++ after (from_left x d r ∷ p)) q.final)
              ∙ simp (append_assoc, o))
            (hang_lem (from_right q.left q.id q.dep ∷ m) y (subst IsAvl w a)))))

detach_at :
    (p : PathUp) (l : Tree) (x d : ℕ) (r : Tree)
    → IsDistinct (inorder (plug p (node l x d r)))
    → IsAvl (plug p (node l x d r))
    → Returns
        (Rebalanced ((before p ++ inorder l) ++ (inorder r ++ after p)))
        (detach x (get_last? (before p ++ inorder l)) (plug p (node l x d r)))
unfolding detach plug
detach_at p l x d leaf u a =
    let (b, c) = unplug-IsAvl p (node l x d leaf) a in
    rw (locate-place x p l d leaf u, detach)
      (Rebalanced-eq (rebalance p l) (sym (append_assoc (before p) (inorder l) (after p)))
        (rebalance_lem p d l b.0 (omega arith) (omega arith) c))
detach_at p leaf x d (node rl x' d' rr) u a =
    let (b, c) = unplug-IsAvl p (node leaf x d (node rl x' d' rr)) a in
    rw (locate-place x p leaf d (node rl x' d' rr) u, detach)
      (Rebalanced-eq (rebalance p (node rl x' d' rr)) (simp append-nil)
        (rebalance_lem p d (node rl x' d' rr) b.1 (omega arith) (omega arith) c))
detach_at p (node ll x' d' lr) x d (node rl x'' d'' rr) u a =
    let r = node rl x'' d'' rr in
    let q = rightmost ll x' d' lr in
    let n = node q.left q.id q.dep leaf in
    let m = q.turns ++ from_left x d r ∷ p in
    let w : plug p (node (node ll x' d' lr) x d r) ≡ plug m n =
      ap (λ l. plug p (node l x d r)) q.whole ∙ sym (plug-append q.turns (from_left x d r ∷ p) n) in
    let o : inorder (node ll x' d' lr) ≡ (before q.turns ++ inorder q.left) ++ q.id ∷ [] =
      Rightmost-order q in
    let g : get_last? (before p ++ inorder (node ll x' d' lr)) ≡ some q.id =
      ap (λ zs. get_last? (before p ++ zs)) o
      ∙ (ap get_last? (sym (append_assoc (before p) _ (q.id ∷ [])))
          ∙ get_last?-snoc (before p ++ (before q.turns ++ inorder q.left)) q.id) in
    let v : IsDistinct (inorder (plug q.turns n)) =
      subst (λ t. IsDistinct (inorder t)) q.whole (IsDistinct-left p (node ll x' d' lr) x d r u) in
    let (b, c) = unplug-IsAvl m n (subst IsAvl w a) in
    rw (locate-place x p (node ll x' d' lr) d r u, detach)
      (rw g (
        rw
          (subst (λ t. locate q.id t [] ≡ some (place q.turns q.left q.dep leaf)) (sym q.whole)
            (locate-place q.id q.turns q.left q.dep leaf v))
          (Rebalanced-eq (rebalance (q.turns ++ from_left q.id d r ∷ p) q.left)
            (ap₂ (λ us vs. us ++ (inorder q.left ++ vs))
                (before-append q.turns (from_left q.id d r ∷ p))
                (after-append q.turns (from_left q.id d r ∷ p)
                  ∙ ap (λ zs. zs ++ after (from_left q.id d r ∷ p)) q.final)
              ∙ simp (append_assoc, o))
            (rebalance_lem (q.turns ++ from_left q.id d r ∷ p) q.dep q.left b.0 (omega arith)
              (omega arith) (IsAvlAbove-rename x q.id d r q.turns p q.dep c)))))

module _ (x : ℕ) (xs ys : List ℕ) (t : Tree) (e : inorder t ≡ xs ++ x ∷ ys)
    (u : IsDistinct (xs ++ x ∷ ys)) (a : IsAvl t) where
  -- A statement about `t` follows from the statement about the place of `x` in it.
  at_place :
      (P : Tree → List ℕ → List ℕ → Type 0)
      → ((p : PathUp) (l : Tree) (d : ℕ) (r : Tree)
          → IsDistinct (inorder (plug p (node l x d r)))
          → IsAvl (plug p (node l x d r))
          → P (plug p (node l x d r)) (before p ++ inorder l) (inorder r ++ after p))
      → P t xs ys
  at_place P f =
      let q = locate_lem x xs ys t e u in
      subst₃ P (sym q.whole) q.ahead q.behind (
        f q.above q.left q.depth_of q.right
          (subst (λ t'. IsDistinct (inorder t')) q.whole (subst IsDistinct (sym e) u))
          (subst IsAvl q.whole a))

  -- In a tree in order with distinct extents, `replace_extent` returns, the new extent `y` stands
  -- in the sequence in the place of the old one, and every depth is in order.
  pub substitute_lem : (y : ℕ) → Returns (Rebalanced (xs ++ y ∷ ys)) (substitute x y t)
  substitute_lem y =
      at_place (λ t' us vs. Returns (Rebalanced (us ++ y ∷ vs)) (substitute x y t'))
        λ p l d r u' a'. substitute_at p l x d r u' a' y

  -- In a tree in order with distinct extents, an insertion of `replace` behind `x`, given the
  -- extent behind `x`, returns, `y` stands in the sequence directly behind `x`, and every depth
  -- is in order.
  pub hang_right_lem :
      (y : ℕ) → Returns (Rebalanced (xs ++ x ∷ y ∷ ys)) (hang_right x y (head? ys) t)
  hang_right_lem y =
      at_place (λ t' us vs. Returns (Rebalanced (us ++ x ∷ y ∷ vs)) (hang_right x y (head? vs) t'))
        λ p l d r u' a'. hang_right_at p l x d r u' a' y

  -- In a tree in order with distinct extents, an insertion of `replace` before `x`, given the
  -- extent before `x`, returns, `y` stands in the sequence directly before `x`, and every depth
  -- is in order.
  pub hang_left_lem :
      (y : ℕ) → Returns (Rebalanced (xs ++ y ∷ x ∷ ys)) (hang_left x y (get_last? xs) t)
  hang_left_lem y =
      at_place
        (λ t' us vs. Returns (Rebalanced (us ++ y ∷ x ∷ vs)) (hang_left x y (get_last? us) t'))
        λ p l d r u' a'. hang_left_at p l x d r u' a' y

  -- In a tree in order with distinct extents, `remove_extent`, given the extent before `x`,
  -- returns, the sequence is the old one without `x`, and every depth is in order.
  pub detach_lem : Returns (Rebalanced (xs ++ ys)) (detach x (get_last? xs) t)
  detach_lem =
      at_place (λ t' us vs. Returns (Rebalanced (us ++ vs)) (detach x (get_last? us) t'))
        λ p l d r u' a'. detach_at p l x d r u' a'
