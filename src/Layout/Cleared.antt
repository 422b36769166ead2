-- ===== src/Layout/Cleared.antt =====
-- The loop of `replace` (incont.c) that deletes or replaces the extents of the range: the chain and
-- the tree it leaves.
use pado_fs.Base.{
  ℕ, zero, suc, ◌<◌, ◌≡◌, ◌⊎◌, inl, inr, refl, sym, ap, ap₂, ◌∙◌, subst, Bool, true, false, Option,
  some, List, [], ◌∷◌, ◌++◌, map, arith, length, append_assoc, leb, ltb, if-elim,
}
use pado_fs.Base.Word.{add64, sub64}
use pado_fs.Base.Distinct.{
  IsDistinct, IsDistinct-middle, IsDistinct-skip, has, next_of, next_of-middle, head?, last_or,
}
use pado_fs.Inode.{Extent, Inode, Env, assert, update, set_ext}
use pado_fs.Inode.Extents.{remove_extent, replace_extent}
use pado_fs.Layout.{Work, clear_range, end_of}
use pado_fs.Layout.Same.{
  SameBut, SameBut-refl, SameBut-trans, SameBut-wider, remove_extent-SameBut,
  replace_extent-SameBut,
}
use pado_fs.Layout.Updates.{map-update_absent, map-same, All-none}
use pado_fs.Layout.Trim.{trim, trim-out, trim-over, trim-in}
use pado_fs.Layout.Linked.{IsLinked, remove_extent-IsLinked, replace_extent-IsLinked}

-- What the loop makes of the inode `i`: of the extents `xs` before the range, `zs` from the range
-- on, and the new ones `alts`. Some of these stand in the place of what it has cleared of `zs`;
-- what is left of `zs` is cut off at `stop`.
pub record Cleared (stop : ℕ) (i : Inode) (xs zs alts : List ℕ) (tor tail : Option ℕ)
    (r : Work × Option ℕ) : Type 0 where
  pub placed : List ℕ
  pub cleared : List ℕ
  pub rest : List ℕ
  pub of_alts : alts ≡ placed ++ r.0.alts
  pub of_chain : zs ≡ cleared ++ rest
  pub linked : IsLinked (xs ++ (placed ++ rest)) r.0.inode
  pub tol : r.1 ≡ head? rest
  pub tor' : r.0.tor ≡ last_or tor placed
  pub tail' : r.0.tail ≡ tail
  pub filled : (r.0.alts ≡ []) ⊎ (length placed ≡ length cleared)
  pub trimmed : map r.0.inode.exts rest ≡ trim stop (map i.exts zs)
  pub others : SameBut zs i r.0.inode

append-empty : (xs ys : List ℕ) → xs ++ ys ≡ [] → ys ≡ []
append-empty [] ys e = e
append-empty (x ∷ xs) ys e = cc

module _ (stop : ℕ) (xs zs alts : List ℕ) (tor tail : Option ℕ) where
  stopped :
      (dh : Option ℕ) (i j : Inode)
      → IsLinked (xs ++ zs) j
      → map j.exts zs ≡ trim stop (map i.exts zs)
      → SameBut zs i j
      → Cleared stop i xs zs alts tor tail
          (record { inode = j; alts = alts; tail = tail; tor = tor; dh = dh }, head? zs)
  stopped dh i j k t s = record {
    placed = [];
    cleared = [];
    rest = zs;
    of_alts = refl;
    of_chain = refl;
    linked = k;
    tol = refl;
    tor' = refl;
    tail' = refl;
    filled = inr refl;
    trimmed = t;
    others = s;
  }

  removed :
      (x : ℕ) (i j : Inode) (r : Work × Option ℕ)
      → SameBut [] i j
      → trim stop (map i.exts (x ∷ zs)) ≡ trim stop (map j.exts zs)
      → alts ≡ []
      → Cleared stop j xs zs alts tor tail r
      → Cleared stop i xs (x ∷ zs) alts tor tail r
  removed x i j r s t e c = record {
    placed = c.placed;
    cleared = x ∷ c.cleared;
    rest = c.rest;
    of_alts = c.of_alts;
    of_chain = ap (λ us. x ∷ us) c.of_chain;
    linked = c.linked;
    tol = c.tol;
    tor' = c.tor';
    tail' = c.tail';
    filled = inl (append-empty c.placed r.0.alts (sym c.of_alts ∙ e));
    trimmed = c.trimmed ∙ sym t;
    others =
        SameBut-trans (x ∷ zs) i j r.0.inode (SameBut-wider [] (x ∷ zs) i j (λ y h. refl) s)
          (SameBut-wider zs (x ∷ zs) j r.0.inode (λ y h. ground arith) c.others);
  }

  replaced :
      (x a : ℕ) (i j : Inode) (r : Work × Option ℕ)
      → SameBut [] i j
      → trim stop (map i.exts (x ∷ zs)) ≡ trim stop (map j.exts zs)
      → Cleared stop j (xs ++ a ∷ []) zs alts (some a) tail r
      → Cleared stop i xs (x ∷ zs) (a ∷ alts) tor tail r
  replaced x a i j r s t c = record {
    placed = a ∷ c.placed;
    cleared = x ∷ c.cleared;
    rest = c.rest;
    of_alts = ap (λ us. a ∷ us) c.of_alts;
    of_chain = ap (λ us. x ∷ us) c.of_chain;
    linked =
        subst (λ us. IsLinked us r.0.inode) (append_assoc xs (a ∷ []) (c.placed ++ c.rest))
          c.linked;
    tol = c.tol;
    tor' = c.tor';
    tail' = c.tail';
    filled = elim c.filled [ inl e ↦ inl e | inr e ↦ inr (ap suc e) ];
    trimmed = c.trimmed ∙ sym t;
    others =
        SameBut-trans (x ∷ zs) i j r.0.inode (SameBut-wider [] (x ∷ zs) i j (λ y h. refl) s)
          (SameBut-wider zs (x ∷ zs) j r.0.inode (λ y h. ground arith) c.others);
  }

pub asserted : (zs : List ℕ) (b : Bool) (i : Inode) → IsLinked zs i → IsLinked zs (assert b i)
asserted zs b i k = record { chain = k.chain; order = k.order; avl = k.avl }

-- The walk goes on to the extent behind `x`.
pub next_of-linked :
    (x : ℕ) (xs zs : List ℕ) (i : Inode)
    → IsDistinct (xs ++ x ∷ zs)
    → IsLinked (xs ++ x ∷ zs) i
    → next_of x i.chain ≡ head? zs
next_of-linked x xs zs i u k =
    ap (next_of x) k.chain ∙ next_of-middle x zs xs (IsDistinct-middle xs x zs u).0

pub left_out :
    (a x : ℕ) (xs alts zs : List ℕ)
    → IsDistinct (xs ++ (a ∷ (alts ++ x ∷ zs)))
    → IsDistinct ((xs ++ a ∷ []) ++ (alts ++ zs))
left_out a x xs alts zs u = subst IsDistinct (append_assoc (xs ++ a ∷ []) alts zs) (
    IsDistinct-skip ((xs ++ a ∷ []) ++ alts) (x ∷ []) zs (
      subst IsDistinct
        (sym (append_assoc xs (a ∷ []) (alts ++ x ∷ zs))
          ∙ sym (append_assoc (xs ++ a ∷ []) alts (x ∷ zs)))
        u))

-- The extent that reaches over the end of the range is cut off.
cut_ext :
    (stop x : ℕ) (zs : List ℕ) (i : Inode) (b : Bool)
    → has x zs ≡ false
    → leb stop (i.exts x).off_f ≡ false
    → ltb stop (end_of (i.exts x)) ≡ true
    → let e = i.exts x in
      let j =
        set_ext x
          (record e {
            off_f = add64 e.off_f (sub64 stop e.off_f);
            off_do = add64 e.off_do (sub64 stop e.off_f);
            length = sub64 e.length (sub64 stop e.off_f);
          })
          (assert b i) in
      (map j.exts (x ∷ zs) ≡ trim stop (map i.exts (x ∷ zs))) × SameBut (x ∷ zs) i j
cut_ext stop x zs i b u h k =
    let e = i.exts x in
    let c : Extent = record e {
      off_f = add64 e.off_f (sub64 stop e.off_f);
      off_do = add64 e.off_do (sub64 stop e.off_f);
      length = sub64 e.length (sub64 stop e.off_f);
    } in
    let here : update i.exts x c x ≡ c = ground arith in
    (
      ap₂ (λ e es. e ∷ es) here (map-update_absent i.exts x c zs u)
          ∙ sym (trim-over stop i.exts x zs h k),
      record {
        exts = λ y n. ground arith;
        next_ext = refl;
        fields = refl;
        next_dob = refl;
        fewer = λ n a. a;
        hosts = λ d. refl;
        loids = λ d. refl;
      },
    )

pub asserted_but : (zs : List ℕ) (b : Bool) (i : Inode) → SameBut zs i (assert b i)
asserted_but zs b i = record {
  exts = λ y h. refl;
  next_ext = refl;
  fields = refl;
  next_dob = refl;
  fewer = λ n a. a;
  hosts = λ d. refl;
  loids = λ d. refl;
}

-- The loop of `replace` over the range, from an extent of the layout on or at its end, with one
-- round more than there are extents from there: it clears a first part of these extents and puts
-- a first part of the new ones in their place, keeps the chain and the tree one sequence with
-- every depth in order, and ends with `tol` at the first extent left, `tor` at the last one
-- placed or as it was, and `tail` as it was. The extents left are the old ones cut off before
-- `stop`, all extents but those from the start of the range on keep their fields, and new ones
-- are left over only if each cleared extent had one put in its place. The new extents are
-- distinct and not in the layout.
pub clear_range-Cleared :
    (env : Env) (fuel start stop : ℕ) (xs zs alts : List ℕ) (tor tail : Option ℕ) (i : Inode)
    → IsDistinct (xs ++ (alts ++ zs))
    → IsLinked (xs ++ zs) i
    → length zs < fuel
    → Cleared stop i xs zs alts tor tail (
        clear_range env fuel start stop
          (record { inode = i; alts = alts; tail = tail; tor = tor; dh = head? zs }))
unfolding clear_range
clear_range-Cleared env zero start stop xs zs alts tor tail i u k n = absurd (omega arith)
clear_range-Cleared env (suc fuel) start stop xs [] alts tor tail i u k n =
    let t : trim stop [] ≡ [] = unfold trim in refl in
    record {
      placed = [];
      cleared = [];
      rest = [];
      of_alts = refl;
      of_chain = refl;
      linked = k;
      tol = refl;
      tor' = refl;
      tail' = refl;
      filled = inr refl;
      trimmed = sym t;
      others = SameBut-refl i;
    }
clear_range-Cleared env (suc fuel) start stop xs (x ∷ zs) [] tor tail i u k n =
    let e = i.exts x in
    let b = ltb start (end_of e) in
    let i' = assert b i in
    let k' = asserted (xs ++ x ∷ zs) b i k in
    let a = (IsDistinct-middle xs x zs u).1 in
    let P = Cleared stop i xs (x ∷ zs) [] tor tail in
    if-elim P (leb stop e.off_f)
      (λ h.
        stopped stop xs (x ∷ zs) [] tor tail (some x) i i' k' (sym (trim-out stop i.exts x zs h))
          (asserted_but (x ∷ zs) b i))
      (λ h.
        if-elim P (ltb stop (end_of e))
          (λ l.
            let (m, s) = cut_ext stop x zs i b a h l in
            stopped stop xs (x ∷ zs) [] tor tail (some x) i _
              (record { chain = k.chain; order = k.order; avl = k.avl }) m s)
          (λ l.
            let j = remove_extent env x true i' in
            let m = remove_extent-IsLinked env x xs zs i' u k' true in
            let s =
              SameBut-trans [] i i' j (asserted_but [] b i) (remove_extent-SameBut env x true i') in
            subst
              (λ o. P (
                clear_range env fuel start stop
                  (record { inode = j; alts = []; tail = tail; tor = tor; dh = o })))
              (sym (next_of-linked x xs zs i u k))
              (removed stop xs zs [] tor tail x i j _ s
                (trim-in stop i.exts x zs h l
                  ∙ ap (trim stop) (sym (map-same i.exts j.exts [] zs s.exts (All-none zs))))
                refl
                (clear_range-Cleared env fuel start stop xs zs [] tor tail j
                  (IsDistinct-skip xs (x ∷ []) zs u) m (omega arith)))))
clear_range-Cleared env (suc fuel) start stop xs (x ∷ zs) (a ∷ alts) tor tail i u k n =
    let e = i.exts x in
    let b = ltb start (end_of e) in
    let i' = assert b i in
    let k' = asserted (xs ++ x ∷ zs) b i k in
    let u' = IsDistinct-skip xs (a ∷ alts) (x ∷ zs) u in
    let q = (IsDistinct-middle xs x zs u').1 in
    let P = Cleared stop i xs (x ∷ zs) (a ∷ alts) tor tail in
    if-elim P (leb stop e.off_f)
      (λ h.
        stopped stop xs (x ∷ zs) (a ∷ alts) tor tail (some x) i i' k'
          (sym (trim-out stop i.exts x zs h)) (asserted_but (x ∷ zs) b i))
      (λ h.
        if-elim P (ltb stop (end_of e))
          (λ l.
            let (m, s) = cut_ext stop x zs i b q h l in
            stopped stop xs (x ∷ zs) (a ∷ alts) tor tail (some x) i _
              (record { chain = k.chain; order = k.order; avl = k.avl }) m s)
          (λ l.
            let j = replace_extent env x a i' in
            let m = replace_extent-IsLinked env x xs zs i' u' k' a in
            let s =
              SameBut-trans [] i i' j (asserted_but [] b i) (replace_extent-SameBut env x a i') in
            subst
              (λ o. P (
                clear_range env fuel start stop
                  (record { inode = j; alts = alts; tail = tail; tor = some a; dh = o })))
              (sym (next_of-linked x xs zs i u' k))
              (replaced stop xs zs alts tor tail x a i j _ s
                (trim-in stop i.exts x zs h l
                  ∙ ap (trim stop) (sym (map-same i.exts j.exts [] zs s.exts (All-none zs))))
                (clear_range-Cleared env fuel start stop (xs ++ a ∷ []) zs alts (some a) tail j
                  (left_out a x xs alts zs u)
                  (subst (λ us. IsLinked us j) (sym (append_assoc xs (a ∷ []) zs)) m)
                  (omega arith)))))
