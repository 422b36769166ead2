-- ===== src/Layout/Woven.antt =====
-- `replace` of incont.c as a whole: the chain and the tree.
use pado_fs.Base.{
  ℕ, ◌≡◌, inl, inr, refl, sym, ap, ◌∙◌, subst, true, false, ◌&&◌, Option, some, List, [], ◌∷◌, ◌++◌,
  arith, append_assoc, append-nil, if◌then◌else◌, ltb, ◌==◌, Bool-cases, if-elim,
}
use pado_fs.Base.Distinct.{
  IsDistinct, IsDistinct-middle, IsDistinct-of-append, not-has-append, has, has-append, next_of,
  prev_of, prev_of-middle, next_of-middle, get_last?-snoc, has-split, IsDistinct-insert,
  IsDistinct-swap, has-middle,
}
use pado_fs.Layout.Stages.{IsWoven, Cut, merge_first-Cut, stages-IsWoven}
use pado_fs.Base.Word.{add64, sub64}
use pado_fs.Tree.{Tree, leaf, node, is_leaf}
use pado_fs.Tree.Order.{inorder}
use pado_fs.Inode.{Inode, Env, Extent, assert}
use pado_fs.Inode.Extents.{create_extent}
use pado_fs.Layout.{
  Stop, nowhere, starts_at, inside, before_first, behind_last, descend, find_first, cut_inside,
  merge_first, replace_in, replace, set_root, end_of,
}
use pado_fs.Layout.Linked.{IsLinked}
use pado_fs.Layout.Cleared.{asserted}

-- The extent at which the descent stops is one of `zs`.
abbrev Points : List ℕ → Stop → Type 0
Points zs nowhere = ⊥
Points zs (starts_at x) = has x zs ≡ true
Points zs (inside x) = has x zs ≡ true
Points zs (before_first x) = has x zs ≡ true
Points zs (behind_last x) = has x zs ≡ true

Points-wider :
    (zs ws : List ℕ) (s : Stop)
    → ((x : ℕ) → has x zs ≡ true → has x ws ≡ true)
    → Points zs s
    → Points ws s
Points-wider zs ws nowhere f p = p
Points-wider zs ws (starts_at x) f p = f x p
Points-wider zs ws (inside x) f p = f x p
Points-wider zs ws (before_first x) f p = f x p
Points-wider zs ws (behind_last x) f p = f x p

descend-Points :
    (f : ℕ → Extent) (start : ℕ) (t : Tree)
    → is_leaf t ≡ false
    → Points (inorder t) (descend f start t)
unfolding descend
descend-Points f start leaf h = cc
descend-Points f start (node l x d r) h =
    let P = Points (inorder l ++ x ∷ inorder r) in
    let here : has x (inorder l ++ x ∷ inorder r) ≡ true = has-middle x (inorder l) (inorder r) in
    let cs = (f x).off_f in
    let in_l = λ (y : ℕ) (q : has y (inorder l) ≡ true).
      let a = has-append y (inorder l) (x ∷ inorder r) in
      let g : has y (inorder l ++ x ∷ inorder r) ≡ true = ground arith in g in
    let in_r = λ (y : ℕ) (q : has y (inorder r) ≡ true).
      let a = has-append y (inorder l) (x ∷ inorder r) in
      let g : has y (inorder l ++ x ∷ inorder r) ≡ true = ground arith in g in
    let go_left : Stop = if is_leaf l then before_first x else descend f start l in
    let go_right : Stop = if is_leaf r then behind_last x else descend f start r in
    let aside : Stop = if ltb start cs then go_left else go_right in
    let within : Stop = if ltb cs start && ltb start (end_of (f x)) then inside x else aside in
    if-elim P (cs == start) {s = starts_at x} {t = within} (λ _. here)
      (λ _.
        if-elim P (ltb cs start && ltb start (end_of (f x))) {s = inside x} {t = aside} (λ _. here)
          (λ _.
            if-elim P (ltb start cs) {s = go_left} {t = go_right}
              (λ _.
                if-elim P (is_leaf l) {s = before_first x} {t = descend f start l} (λ _. here)
                  (λ e.
                    Points-wider (inorder l) _ (descend f start l) in_l
                      (descend-Points f start l e)))
              (λ _.
                if-elim P (is_leaf r) {s = behind_last x} {t = descend f start r} (λ _. here)
                  (λ e.
                    Points-wider (inorder r) _ (descend f start r) in_r
                      (descend-Points f start r e)))))

module _ (zs alts : List ℕ) (tail : Option ℕ) (x : ℕ) (h : has x zs ≡ true)
    (u : IsDistinct (zs ++ alts)) (i : Inode) (k : IsLinked zs i) (chain : List ℕ)
    (e : chain ≡ zs) where
  Cut-at : Cut (record { inode = i; alts = alts; tail = tail; tor = prev_of x chain; dh = some x })
  Cut-at =
      let (xs, ys, q) = has-split x zs h in
      let u' = subst (λ us. IsDistinct (us ++ alts)) q u in
      let d = (IsDistinct-of-append (xs ++ x ∷ ys) alts u').0 in
      record {
        xs = xs;
        zs = x ∷ ys;
        linked = subst (λ us. IsLinked us i) q k;
        tor = ap (prev_of x) (e ∙ q) ∙ prev_of-middle x ys xs (IsDistinct-middle xs x ys d).0;
        dh = refl;
        distinct =
            IsDistinct-swap xs (x ∷ ys) alts (subst IsDistinct (append_assoc xs (x ∷ ys) alts) u');
      }

  Cut-behind :
      Cut (record { inode = i; alts = alts; tail = tail; tor = some x; dh = next_of x chain })
  Cut-behind =
      let (xs, ys, q) = has-split x zs h in
      let u' = subst (λ us. IsDistinct (us ++ alts)) q u in
      let d = (IsDistinct-of-append (xs ++ x ∷ ys) alts u').0 in
      let f : xs ++ x ∷ ys ≡ (xs ++ x ∷ []) ++ ys = sym (append_assoc xs (x ∷ []) ys) in
      record {
        xs = xs ++ x ∷ [];
        zs = ys;
        linked = subst (λ us. IsLinked us i) (q ∙ f) k;
        tor = sym (get_last?-snoc xs x);
        dh = ap (next_of x) (e ∙ q) ∙ next_of-middle x ys xs (IsDistinct-middle xs x ys d).0;
        distinct =
            IsDistinct-swap (xs ++ x ∷ []) ys alts
              (subst IsDistinct (ap (λ us. us ++ alts) f ∙ append_assoc (xs ++ x ∷ []) ys alts) u');
      }

cut_inside-Cut :
    (start stop x : ℕ) (zs alts : List ℕ) (tail : Option ℕ) (i : Inode)
    → has x zs ≡ true
    → IsDistinct (zs ++ alts)
    → has i.next_ext (zs ++ alts) ≡ false
    → IsLinked zs i
    → Cut (cut_inside start stop x alts tail i)
unfolding cut_inside create_extent
cut_inside-Cut start stop x zs [] tail i h u f k =
    if-elim Cut (ltb stop (end_of (i.exts x)))
      (λ _.
        Cut-at zs (i.next_ext ∷ []) tail x h (IsDistinct-insert i.next_ext zs [] f u) _
          (record { chain = k.chain; order = k.order; avl = k.avl }) i.chain k.chain)
      (λ _.
        Cut-behind zs [] tail x h u _ (record { chain = k.chain; order = k.order; avl = k.avl })
          i.chain k.chain)
cut_inside-Cut start stop x zs (a ∷ alts) tail i h u f k =
    let e = i.exts x in
    let b = i.exts a in
    if-elim Cut (ltb stop (end_of e))
      (λ _.
        if-elim Cut
          (e.dobj == b.dobj && add64 e.off_do (sub64 start e.off_f) == b.off_do && start == b.off_f)
          (λ _.
            Cut-at zs (a ∷ alts) tail x h u _
              (record { chain = k.chain; order = k.order; avl = k.avl }) i.chain k.chain)
          (λ _.
            Cut-at zs (i.next_ext ∷ a ∷ alts) tail x h
              (IsDistinct-insert i.next_ext zs (a ∷ alts) f u) _
              (record { chain = k.chain; order = k.order; avl = k.avl }) i.chain k.chain))
      (λ _.
        Cut-behind zs (a ∷ alts) tail x h u _
          (record { chain = k.chain; order = k.order; avl = k.avl }) i.chain k.chain)

module _ (start stop : ℕ) (zs alts : List ℕ) (tail : Option ℕ) (i : Inode)
    (u : IsDistinct (zs ++ alts)) (f : has i.next_ext (zs ++ alts) ≡ false)
    (k : IsLinked zs i) where
  find_first-Cut_at :
      (s : Stop)
      → descend i.exts start i.flayout ≡ s
      → Points zs s
      → Cut (find_first start stop alts tail i)
  unfolding find_first
  find_first-Cut_at nowhere e h = absurd h
  find_first-Cut_at (starts_at x) e h =
      rw (e, find_first) (Cut-at zs alts tail x h u i k i.chain k.chain)
  find_first-Cut_at (inside x) e h =
      rw (e, find_first) (cut_inside-Cut start stop x zs alts tail i h u f k)
  find_first-Cut_at (before_first x) e h =
      rw (e, find_first) (Cut-at zs alts tail x h u i k i.chain k.chain)
  find_first-Cut_at (behind_last x) e h =
      rw (e, find_first) (Cut-behind zs alts tail x h u i k i.chain k.chain)

  find_first-Cut : is_leaf i.flayout ≡ false → Cut (find_first start stop alts tail i)
  find_first-Cut l = find_first-Cut_at (descend i.exts start i.flayout) refl (
      subst (λ us. Points us (descend i.exts start i.flayout)) k.order
        (descend-Points i.exts start i.flayout l))

replace_in-IsWoven :
    (env : Env) (start stop : ℕ) (zs alts : List ℕ) (tail : Option ℕ) (i : Inode)
    → is_leaf i.flayout ≡ false
    → IsDistinct (zs ++ alts)
    → has i.next_ext (zs ++ alts) ≡ false
    → IsLinked zs i
    → IsWoven (replace_in env alts tail start stop i)
unfolding replace_in
replace_in-IsWoven env start stop zs alts tail i l u f k =
    let w = find_first start stop alts tail i in
    let c = find_first-Cut start stop zs alts tail i u f k l in
    stages-IsWoven env start stop (merge_first env w)
      (merge_first-Cut env w.tor w.alts w.inode w.tail w.dh c)

replace_empty-IsWoven :
    (env : Env) (stop : ℕ) (alts zs : List ℕ) (tail : Option ℕ) (i : Inode)
    → IsDistinct (zs ++ alts)
    → has i.next_ext (zs ++ alts) ≡ false
    → IsLinked zs i
    → IsWoven (elim alts [
      | [] ↦ i
      | a ∷ rest ↦ replace_in env rest tail (end_of (i.exts a)) stop (set_root a i)
    ])
replace_empty-IsWoven env stop [] zs tail i u f k = record {
  zs = zs;
  linked = k;
  distinct = subst IsDistinct (append-nil zs) u;
}
replace_empty-IsWoven env stop (a ∷ rest) zs tail i u f k =
    replace_in-IsWoven env (end_of (i.exts a)) stop (a ∷ []) rest tail (set_root a i) refl
      (IsDistinct-of-append zs (a ∷ rest) u).1 (not-has-append i.next_ext zs (a ∷ rest) f).1
      (record { chain = refl; order = refl; avl = (tt, tt, refl, omega arith, omega arith) })

-- `replace` keeps the chain and the tree of an inode one sequence, with every depth in order and
-- no extent twice, whatever the range, where the new extents and the next extent to be made are
-- distinct from each other and from those of the layout. This does not exclude a failed
-- assertion.
pub replace-IsWoven :
    (env : Env) (alts : List ℕ) (tail : Option ℕ) (start stop : ℕ) (i : Inode)
    → IsWoven i
    → IsDistinct (i.chain ++ alts)
    → has i.next_ext (i.chain ++ alts) ≡ false
    → IsWoven (replace env alts tail start stop i)
unfolding replace
replace-IsWoven env alts tail start stop i k u f =
    let l = asserted k.zs (ltb start stop) i k.linked in
    let u' = subst (λ us. IsDistinct (us ++ alts)) k.linked.chain u in
    let f' = subst (λ us. has i.next_ext (us ++ alts) ≡ false) k.linked.chain f in
    let j = assert (ltb start stop) i in
    elim (Bool-cases (is_leaf i.flayout)) [
      | inl e ↦ rw (e, replace) (replace_empty-IsWoven env stop alts k.zs tail j u' f' l)
      | inr e ↦ rw (e, replace) (replace_in-IsWoven env start stop k.zs alts tail j e u' f' l)
    ]
