-- ===== src/Layout/Find.antt =====
-- `find_start_extent` of incont.c, and a linear search beside it.
use pado_fs.Base.{
  ℕ, ◌≤◌, ◌<◌, ◌≡◌, refl, sym, ap, ◌∙◌, subst, true, false, List, [], ◌∷◌, ◌++◌, arith, ltb,
  Bool-cases, inl, inr, append_assoc, append-nil, lt→not-leb, le→leb, ltb→lt, not-ltb→le,
}
use pado_fs.Base.Distinct.{head?, next_of, next_of-middle, IsDistinct, IsDistinct-middle}
use pado_fs.Tree.{Tree, leaf, node, is_leaf}
use pado_fs.Tree.Order.{inorder}
use pado_fs.Inode.{Extent}
use pado_fs.Layout.{end_of, find_start_extent}
use pado_fs.Layout.Sorted.{
  IsProper, IsSorted, IsSorted-EndsBy, drop_ended, drop_ended-EndsBy, drop_ended-head,
  drop_ended-skip, end_of_lem,
}

is_leaf-inorder : (t : Tree) → is_leaf t ≡ true → inorder t ≡ []
is_leaf-inorder leaf h = refl
is_leaf-inorder (node l x d r) h = cc

module _ (f : ℕ → Extent) (start : ℕ) (chain : List ℕ) (u : IsDistinct chain)
    (s : IsSorted f 0 chain) where
  -- At an extent `x` between `us` and `vs`.
  module _ (us : List ℕ) (x : ℕ) (vs : List ℕ) (e : chain ≡ us ++ x ∷ vs) where
    IsProper-at : IsProper (f x)
    IsProper-at = (IsSorted-EndsBy f 0 us x vs (subst (IsSorted f 0) e s)).1.1

    drop_at : (f x).off_f ≤ start → drop_ended f start chain ≡ drop_ended f start (x ∷ vs)
    drop_at h =
        ap (drop_ended f start) e
        ∙ drop_ended-EndsBy f start (f x).off_f us (x ∷ vs)
            (IsSorted-EndsBy f 0 us x vs (subst (IsSorted f 0) e s)).0 h

    next_at : next_of x chain ≡ head? vs
    next_at =
        ap (next_of x) e
        ∙ next_of-middle x vs us (IsDistinct-middle us x vs (subst IsDistinct e u)).0

  -- `t` holds the part of the layout between `us` and `vs`.
  find_in :
      (t : Tree) (us vs : List ℕ)
      → is_leaf t ≡ false
      → chain ≡ us ++ (inorder t ++ vs)
      → drop_ended f start chain ≡ drop_ended f start (inorder t ++ vs)
      → drop_ended f start vs ≡ vs
      → find_start_extent f chain start t ≡ head? (drop_ended f start chain)
  unfolding find_start_extent
  find_in leaf us vs n e b c = cc
  find_in (node l x d r) us vs n e b c =
      let e' : chain ≡ (us ++ inorder l) ++ x ∷ (inorder r ++ vs) = e ∙ simp append_assoc in
      let p = IsProper-at (us ++ inorder l) x (inorder r ++ vs) e' in
      let q = end_of_lem (f x) p in
      let drop = drop_at (us ++ inorder l) x (inorder r ++ vs) e' in
      let front : start < (f x).off_f
          → drop_ended f start (x ∷ (inorder r ++ vs)) ≡ x ∷ (inorder r ++ vs) =
        λ k. drop_ended-head f start x (inorder r ++ vs) p (omega arith) in
      let back : ltb start (end_of (f x)) ≡ false
          → drop_ended f start (x ∷ (inorder r ++ vs)) ≡ drop_ended f start (inorder r ++ vs) =
        λ m.
          drop_ended-skip f start x (inorder r ++ vs) p
            (rw (← q) (not-ltb→le start (end_of (f x)) m)) in
      elim (Bool-cases (ltb start (f x).off_f)) [
        | inl h ↦
            let k = ltb→lt start (f x).off_f h in
            rw (lt→not-leb (f x).off_f start k, h)
              (elim (Bool-cases (is_leaf l)) [
                | inl i ↦ rw i (
                    sym (
                      ap head?
                        (b ∙ (ap (drop_ended f start) (rw (is_leaf-inorder l i)) ∙ front k))))
                | inr i ↦ rw i (
                    find_in l us (x ∷ (inorder r ++ vs)) i (e ∙ simp append_assoc)
                      (b ∙ ap (drop_ended f start) (simp append_assoc)) (front k))
              ])
        | inr h ↦
            let k = not-ltb→le start (f x).off_f h in
            rw (le→leb (f x).off_f start k, h)
              (elim (Bool-cases (ltb start (end_of (f x)))) [
                | inl m ↦ rw m (
                    sym (
                      ap head? (
                        drop k
                        ∙ drop_ended-head f start x _ p
                            (rw (← q) (ltb→lt start (end_of (f x)) m)))))
                | inr m ↦ rw m (elim (Bool-cases (is_leaf r)) [
                  | inl i ↦ rw i (
                      next_at (us ++ inorder l) x (inorder r ++ vs) e'
                      ∙ ap head? (
                          ap (λ zs. zs ++ vs) (is_leaf-inorder r i)
                          ∙ (sym c
                              ∙ (ap (λ zs. drop_ended f start (zs ++ vs))
                                    (sym (is_leaf-inorder r i))
                                  ∙ sym (drop k ∙ back m)))))
                  | inr i ↦ rw i (
                      find_in r (us ++ (inorder l ++ x ∷ [])) vs i (e' ∙ simp append_assoc)
                        (drop k ∙ back m) c)
                ])
              ])
      ]

-- Over a tree whose sequence is the chain, with distinct extents in order and without overlap,
-- the descent of `find_start_extent` gives the first extent of the chain that ends behind
-- `start`, and none where there is none.
pub find_start_extent-head :
    (f : ℕ → Extent) (chain : List ℕ) (start : ℕ) (t : Tree)
    → IsDistinct chain
    → IsSorted f 0 chain
    → inorder t ≡ chain
    → find_start_extent f chain start t ≡ head? (drop_ended f start chain)
unfolding find_start_extent drop_ended
find_start_extent-head f chain start leaf u s e = rw (← e)
find_start_extent-head f chain start (node l x d r) u s e =
    let e' : chain ≡ inorder (node l x d r) ++ [] = sym e ∙ sym (append-nil _) in
    find_in f start chain u s (node l x d r) [] [] refl e' (ap (drop_ended f start) e') refl
