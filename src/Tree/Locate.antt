-- ===== src/Tree/Locate.antt =====
-- Where an extent stands in the tree (incont.h `parent`, `pivot`): `locate` and its paths.
use pado_fs.Base.{
  ℕ, ◌≡◌, ◌≢◌, refl, subst, sym, ap, ◌∙◌, true, false, none, some, List, [], ◌∷◌, ◌++◌, arith, ◌==◌,
  Bool-cases, inl, inr, append_assoc, append-nil, ==→eq, ==_refl,
}
use pado_fs.Base.Distinct.{
  has, has-append, not-has-append, IsDistinct, IsDistinct-middle, split_once, has-middle,
}
use pado_fs.Tree.{Tree, leaf, node, Turn, from_left, from_right, PathUp, fill, plug, Place, locate}
use pado_fs.Tree.Order.{inorder, before, after, inorder-plug}

pub plug-append : (m p : PathUp) (t : Tree) → plug (m ++ p) t ≡ plug p (plug m t)
unfolding plug
plug-append [] p t = refl
plug-append (s ∷ m) p t = plug-append m p (fill s t)

pub before-append : (m p : PathUp) → before (m ++ p) ≡ before p ++ before m
before-append [] p = simp append-nil
before-append (from_left x d r ∷ m) p = before-append m p
before-append (from_right l x d ∷ m) p = simp (before-append m p, append_assoc)

pub after-append : (m p : PathUp) → after (m ++ p) ≡ after m ++ after p
after-append [] p = refl
after-append (from_left x d r ∷ m) p = simp (after-append m p, append_assoc)
after-append (from_right l x d ∷ m) p = after-append m p

locate-none : (x : ℕ) (t : Tree) (p : PathUp) → has x (inorder t) ≡ false → locate x t p ≡ none
unfolding locate
locate-none x leaf p h = refl
locate-none x (node l y d r) p h =
    let e = not-has-append x (inorder l) (y ∷ inorder r) h in
    ground (arith, locate-none x l (from_left y d r ∷ p), locate-none x r (from_right l y d ∷ p))

locate-ne-none : (x : ℕ) (t : Tree) (p : PathUp) → has x (inorder t) ≡ true → locate x t p ≢ none
unfolding locate
locate-ne-none x leaf p h = cc
locate-ne-none x (node l y d r) p h =
    let e = has-append x (inorder l) (y ∷ inorder r) in
    ground
      (arith, locate-ne-none x l (from_left y d r ∷ p), locate-ne-none x r (from_right l y d ∷ p))

locate-fill :
    (x : ℕ) (s : Turn) (t : Tree) (m : PathUp)
    → has x (inorder t) ≡ true
    → has x (before (s ∷ [])) ≡ false
    → has x (after (s ∷ [])) ≡ false
    → locate x (fill s t) m ≡ locate x t (s ∷ m)
unfolding locate
locate-fill x (from_left y d r) t m i h k =
    let ne = locate-ne-none x t (from_left y d r ∷ m) i in ground arith
locate-fill x (from_right l y d) t m i h k =
    let e = has-append x (inorder l) (y ∷ []) in
    let no = locate-none x l (from_left y d t ∷ m) in ground arith

-- Where `x` stands in `t` and nowhere around it, `locate` goes down the path to `t`.
locate-plug :
    (x : ℕ) (m : PathUp) (t : Tree)
    → has x (inorder t) ≡ true
    → has x (before m) ≡ false
    → has x (after m) ≡ false
    → locate x (plug m t) [] ≡ locate x t m
unfolding plug
locate-plug x [] t i h k = refl
locate-plug x (from_left y d r ∷ m) t i h k =
    let e = has-append x (inorder t) (y ∷ inorder r) in
    let f = has-append x (inorder r) (after m) in
    locate-plug x m (node t y d r) (ground arith) h (ground arith)
    ∙ locate-fill x (from_left y d r) t m i refl (simp append-nil (ground arith))
locate-plug x (from_right l y d ∷ m) t i h k =
    let e = has-append x (inorder l) (y ∷ inorder t) in
    let f = has-append x (before m) (inorder l ++ y ∷ []) in
    locate-plug x m (node l y d t) (ground arith) (ground arith) k
    ∙ locate-fill x (from_right l y d) t m i (ground arith) refl

pub record Split (x : ℕ) (t : Tree) : Type 0 where
  pub above : PathUp
  pub left : Tree
  pub depth_of : ℕ
  pub right : Tree
  pub whole : t ≡ plug above (node left x depth_of right)

pub Split-from : (x : ℕ) (t : Tree) (p : PathUp) → has x (inorder t) ≡ true → Split x (plug p t)
unfolding plug
Split-from x leaf p h = cc
Split-from x (node l y d r) p h = elim (Bool-cases (x == y)) [
  | inl e ↦ record { above = p; left = l; depth_of = d; right = r; whole = rw (==→eq x y e) }
  | inr e ↦ elim (Bool-cases (has x (inorder l))) [
    | inl k ↦ Split-from x l (from_left y d r ∷ p) k
    | inr k ↦
        Split-from x r (from_right l y d ∷ p)
          (let a = has-append x (inorder l) (y ∷ inorder r) in ground arith)
  ]
]

abbrev pub place : PathUp → Tree → ℕ → Tree → Place
place m l d r = record { above = m; left = l; depth_of = d; right = r }

-- In a tree without repetition `locate` finds the place of `x`, and there is no other.
pub locate-place :
    (x : ℕ) (m : PathUp) (l : Tree) (d : ℕ) (r : Tree)
    → IsDistinct (inorder (plug m (node l x d r)))
    → locate x (plug m (node l x d r)) [] ≡ some (place m l d r)
unfolding locate
locate-place x m l d r u =
    let e = inorder-plug m (node l x d r) ∙ simp append_assoc in
    let n =
      IsDistinct-middle (before m ++ inorder l) x (inorder r ++ after m) (subst IsDistinct e u) in
    let a = not-has-append x (before m) (inorder l) n.0 in
    let b = not-has-append x (inorder r) (after m) n.1 in
    locate-plug x m (node l x d r) (has-middle x (inorder l) (inorder r)) a.0 b.1 ∙ rw (==_refl x)

-- The place of `x` in a tree whose sequence is `xs ++ x ∷ ys`.
pub record Located (x : ℕ) (xs ys : List ℕ) (t : Tree) : Type 0 where
  pub above : PathUp
  pub left : Tree
  pub depth_of : ℕ
  pub right : Tree
  pub whole : t ≡ plug above (node left x depth_of right)
  pub found : locate x t [] ≡ some (place above left depth_of right)
  pub ahead : before above ++ inorder left ≡ xs
  pub behind : inorder right ++ after above ≡ ys

pub locate_lem :
    (x : ℕ) (xs ys : List ℕ) (t : Tree)
    → inorder t ≡ xs ++ x ∷ ys
    → IsDistinct (xs ++ x ∷ ys)
    → Located x xs ys t
unfolding plug
locate_lem x xs ys t e u =
    let s = Split-from x t [] (rw e (has-middle x xs ys)) in
    let w : t ≡ plug s.above (node s.left x s.depth_of s.right) = s.whole in
    let f = inorder-plug s.above (node s.left x s.depth_of s.right) in
    let g : (before s.above ++ inorder s.left) ++ x ∷ (inorder s.right ++ after s.above)
        ≡ xs ++ x ∷ ys =
      simp append_assoc (sym (simp append_assoc at f) ∙ (ap inorder (sym w) ∙ e)) in
    let n = IsDistinct-middle xs x ys u in
    let q =
      split_once x xs ys (before s.above ++ inorder s.left) (inorder s.right ++ after s.above)
        (sym g) n.0 n.1 in
    record {
      above = s.above;
      left = s.left;
      depth_of = s.depth_of;
      right = s.right;
      whole = w;
      found =
          subst (λ t'. locate x t' [] ≡ some (place s.above s.left s.depth_of s.right)) (sym w)
            (locate-place x s.above s.left s.depth_of s.right
              (subst IsDistinct (sym (ap inorder (sym w) ∙ e)) u));
      ahead = q.0;
      behind = q.1;
    }
