-- ===== src/Layout/Descent.antt =====
-- Where the descent of `replace` (incont.c) stops, in a layout in order.
use pado_fs.Base.{
  ℕ, ◌+◌, ◌≤◌, ◌<◌, ◌≡◌, refl, sym, ap, ◌∙◌, subst, true, false, ◌&&◌, List, [], ◌∷◌, ◌++◌, map,
  arith, append_assoc, append-nil, if◌then◌else◌, ltb, ◌==◌, if-elim,
}
use mathlib.Core.List.{map-append}
use pado_fs.Base.Word.{add64_lem}
use pado_fs.Tree.{Tree, leaf, node, is_leaf}
use pado_fs.Tree.Order.{inorder}
use pado_fs.Inode.{Extent}
use pado_fs.Layout.{Stop, nowhere, starts_at, inside, before_first, behind_last, descend, end_of}
use pado_fs.Layout.Spots.{Within, last_offset, Within-split, Within-le, Within-append}

-- Where `start` lies among the extents `chain`, by the stop of the descent.
abbrev pub Aim : (ℕ → Extent) → (start : ℕ) → List ℕ → Stop → Type 0
Aim f start chain nowhere = ⊥
Aim f start chain (starts_at x) =
    (xs : List ℕ) × (ys : List ℕ) × (chain ≡ xs ++ x ∷ ys)
    × Within 0 start (map f xs)
    × (start ≤ (f x).off_f)
Aim f start chain (before_first x) =
    (xs : List ℕ) × (ys : List ℕ) × (chain ≡ xs ++ x ∷ ys)
    × Within 0 start (map f xs)
    × (start ≤ (f x).off_f)
Aim f start chain (inside x) =
    (xs : List ℕ) × (ys : List ℕ) × (chain ≡ xs ++ x ∷ ys)
    × ((f x).off_f < start)
    × (start < (f x).off_f + (f x).length)
Aim f start chain (behind_last x) =
    (xs : List ℕ) × (ys : List ℕ) × (chain ≡ xs ++ x ∷ ys)
    × ((f x).off_f + (f x).length ≤ start)
    × Within start last_offset (map f ys)

pub is_leaf-inorder : (t : Tree) → is_leaf t ≡ true → inorder t ≡ []
is_leaf-inorder leaf h = refl
is_leaf-inorder (node l x d r) h = cc

module _ (f : ℕ → Extent) (start : ℕ) (chain : List ℕ)
    (w : Within 0 last_offset (map f chain)) where
  -- The extents around one of them are in order.
  pub around_one :
      (xs : List ℕ) (x : ℕ) (ys : List ℕ)
      → chain ≡ xs ++ x ∷ ys
      → Within 0 (f x).off_f (map f xs)
        × (0 < (f x).length)
        × Within ((f x).off_f + (f x).length) last_offset (map f ys)
  around_one xs x ys e =
      Within-split 0 last_offset (map f xs) (f x) (map f ys)
        (subst (Within 0 last_offset) (ap (map f) e ∙ map-append f xs (x ∷ ys)) w)

  pub descend-Aim :
      (t : Tree) (us vs : List ℕ)
      → is_leaf t ≡ false
      → chain ≡ us ++ (inorder t ++ vs)
      → Within 0 start (map f us)
      → Within start last_offset (map f vs)
      → Aim f start chain (descend f start t)
  unfolding descend
  descend-Aim leaf us vs h e a b = cc
  descend-Aim (node l x d r) us vs h e a b =
      let cs = (f x).off_f in
      let P = Aim f start chain in
      let L = us ++ inorder l in
      let R = inorder r ++ vs in
      let e' : chain ≡ L ++ x ∷ R =
        e
        ∙ (ap (λ zs. us ++ zs) (append_assoc (inorder l) (x ∷ inorder r) vs)
            ∙ sym (append_assoc us (inorder l) (x ∷ R))) in
      let (w₁, w₂, w₃) = around_one L x R e' in
      let g = Within-le _ last_offset (map f R) w₃ in
      let n : end_of (f x) ≡ (f x).off_f + (f x).length =
        unfold end_of in add64_lem (f x).off_f (f x).length (omega arith) in
      let go_left : Stop = if is_leaf l then before_first x else descend f start l in
      let go_right : Stop = if is_leaf r then behind_last x else descend f start r in
      let aside : Stop = if ltb start cs then go_left else go_right in
      let within : Stop = if ltb cs start && ltb start (end_of (f x)) then inside x else aside in
      if-elim P (cs == start) {s = starts_at x} {t = within}
        (λ m.
          let m' : cs ≡ start = ground arith in
          (L, R, e', subst (λ c. Within 0 c (map f L)) m' w₁, omega arith))
        (λ m₁.
          if-elim P (ltb cs start && ltb start (end_of (f x))) {s = inside x} {t = aside}
            (λ m. (L, R, e', ground arith, ground arith))
            (λ m₂.
              if-elim P (ltb start cs) {s = go_left} {t = go_right}
                (λ m₃.
                  if-elim P (is_leaf l) {s = before_first x} {t = descend f start l}
                    (λ m. (
                      L,
                      R,
                      e',
                      subst (λ zs. Within 0 start (map f zs))
                          (sym (ap (λ zs. us ++ zs) (is_leaf-inorder l m) ∙ append-nil us)) a,
                      ground arith,
                    ))
                    (λ m.
                      descend-Aim l us (x ∷ R) m (e' ∙ append_assoc us (inorder l) (x ∷ R)) a
                        (ground arith, w₂, w₃)))
                (λ m₃.
                  let k : (f x).off_f + (f x).length ≤ start = ground arith in
                  if-elim P (is_leaf r) {s = behind_last x} {t = descend f start r}
                    (λ m. (
                      L,
                      R,
                      e',
                      k,
                      subst (λ zs. Within start last_offset (map f zs))
                          (sym (ap (λ zs. zs ++ vs) (is_leaf-inorder r m))) b,
                    ))
                    (λ m.
                      descend-Aim r (L ++ x ∷ []) vs m (e' ∙ sym (append_assoc L (x ∷ []) R))
                        (subst (Within 0 start) (sym (map-append f L (x ∷ [])))
                          (Within-append 0 cs start (map f L) (f x ∷ []) w₁ (omega arith, w₂, k)))
                        b))))
