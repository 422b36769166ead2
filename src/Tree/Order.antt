-- ===== src/Tree/Order.antt =====
-- The in-order sequence of a tree, which incont.c threads through `prev` and `next` as well.
use pado_fs.Base.{ℕ, ◌≡◌, List, [], ◌∷◌, ◌++◌, append_assoc, append-nil}
use pado_fs.Tree.{Tree, leaf, node, Turn, from_left, from_right, PathUp, fill, plug}

abbrev pub inorder : Tree → List ℕ
inorder leaf = []
inorder (node l x d r) = inorder l ++ x ∷ inorder r

-- What stands before and behind the hole of a path.
abbrev pub before : PathUp → List ℕ
before [] = []
before (from_left x d r ∷ p) = before p
before (from_right l x d ∷ p) = before p ++ (inorder l ++ x ∷ [])

abbrev pub after : PathUp → List ℕ
after [] = []
after (from_left x d r ∷ p) = x ∷ (inorder r ++ after p)
after (from_right l x d ∷ p) = after p

pub inorder-plug : (p : PathUp) (t : Tree) → inorder (plug p t) ≡ before p ++ (inorder t ++ after p)
unfolding plug
inorder-plug [] t = simp append-nil
inorder-plug (from_left x d r ∷ p) t = simp (inorder-plug p (node t x d r), append_assoc)
inorder-plug (from_right l x d ∷ p) t = simp (inorder-plug p (node l x d t), append_assoc)

-- The context's sequence around `xs`.
abbrev pub around : PathUp → List ℕ → List ℕ
around p xs = before p ++ (xs ++ after p)

pub around-fill :
    (s : Turn) (p : PathUp) (t : Tree) → around p (inorder (fill s t)) ≡ around (s ∷ p) (inorder t)
around-fill (from_left x d r) p t = simp append_assoc
around-fill (from_right l x d) p t = simp append_assoc
