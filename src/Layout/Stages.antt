-- ===== src/Layout/Stages.antt =====
-- The stages of `replace` (incont.c) behind the descent: the merge of the first extent, the loops,
-- and the last merge, on the chain and the tree.
use pado_fs.Base.{
  ℕ, ◌+◌, ◌<◌, ◌≡◌, inl, inr, refl, sym, ap, ◌∙◌, subst, true, Option, none, some, List, [], ◌∷◌,
  ◌++◌, arith, length, length-append, append_assoc, Option-cases, if-elim,
}
use pado_fs.Base.Distinct.{
  IsDistinct, IsDistinct-skip, next_of, head?, last_or, get_last?, last_or-append, has-split,
  next_of-has,
}
use pado_fs.Base.Word.{add64}
use pado_fs.Inode.{Inode, Env, set_ext}
use pado_fs.Inode.Extents.{release_extent}
use pado_fs.Layout.{Work, merge_first, clear_range, insert_rest, merge_last, continues}
use pado_fs.Layout.Same.{release_extent-IsSame}
use pado_fs.Layout.Linked.{
  IsLinked, IsSame-IsLinked, insert_rest-behind, insert_rest-ahead, remove_extent-IsLinked,
}
use pado_fs.Layout.Cleared.{Cleared, clear_range-Cleared}

-- The chain is the sequence of the tree, whose depths are in order, and no extent stands twice.
pub record IsWoven (i : Inode) : Type 0 where
  pub zs : List ℕ
  pub linked : IsLinked zs i
  pub distinct : IsDistinct zs

-- The last merge takes one extent out, or none.
merge_last-IsWoven :
    (env : Env) (tail : Option ℕ) (i : Inode) → IsWoven i → IsWoven (merge_last env tail i)
unfolding merge_last
merge_last-IsWoven env none i k = k
merge_last-IsWoven env (some t) i k = elim (Option-cases (next_of t i.chain)) [
  | inl e ↦ rw (e, merge_last) k
  | inr (n, e) ↦
      let e' = subst (λ zs. next_of t zs ≡ some n) k.linked.chain e in
      let (xs, ys, q) = has-split n k.zs (next_of-has t k.zs n e') in
      let j =
        set_ext t (record (i.exts t) { length = add64 (i.exts t).length (i.exts n).length }) i in
      let m : IsLinked (xs ++ n ∷ ys) j =
        subst (λ zs. IsLinked zs j) q
          (record { chain = k.linked.chain; order = k.linked.order; avl = k.linked.avl }) in
      let d = subst IsDistinct q k.distinct in
      rw (e, merge_last)
        (if-elim IsWoven (continues (i.exts t) (i.exts n))
          (λ _. record {
            zs = xs ++ ys;
            linked = remove_extent-IsLinked env n xs ys j d m true;
            distinct = IsDistinct-skip xs (n ∷ []) ys d;
          })
          (λ _. k))
]

pub snoc-split :
    (x : ℕ) (xs : List ℕ)
    → (us : List ℕ) × (t : ℕ) × (x ∷ xs ≡ us ++ t ∷ []) × (last_or (some x) xs ≡ some t)
snoc-split x [] = ([], x, refl, refl)
snoc-split x (y ∷ xs) = let (us, t, e, f) = snoc-split y xs in (x ∷ us, t, ap (λ zs. x ∷ zs) e, f)

-- The insertions between the extents `ps` and `zs`, from the last of `ps` or the first of `zs`.
insert_rest-IsWoven :
    (alts ps zs : List ℕ) (i : Inode)
    → IsDistinct (ps ++ (alts ++ zs))
    → IsLinked (ps ++ zs) i
    → IsWoven (insert_rest (get_last? ps) (head? zs) alts i)
unfolding insert_rest
insert_rest-IsWoven [] [] [] i u k = record { zs = []; linked = k; distinct = u }
insert_rest-IsWoven (a ∷ alts) [] [] i u k = record {
  zs = [];
  linked = record { chain = k.chain; order = k.order; avl = k.avl };
  distinct = tt;
}
insert_rest-IsWoven alts [] (z ∷ zs) i u k = record {
  zs = alts ++ z ∷ zs;
  linked = (insert_rest-ahead alts z [] zs i u k).0;
  distinct = u;
}
insert_rest-IsWoven alts (p ∷ ps) zs i u k =
    let (us, t, e, f) = snoc-split p ps in
    let u' : IsDistinct (us ++ t ∷ (alts ++ zs)) =
      subst IsDistinct (ap (λ ws. ws ++ (alts ++ zs)) e ∙ append_assoc us (t ∷ []) (alts ++ zs))
        u in
    let k' : IsLinked (us ++ t ∷ zs) i =
      subst (λ ws. IsLinked ws i) (ap (λ ws. ws ++ zs) e ∙ append_assoc us (t ∷ []) zs) k in
    subst (λ o. IsWoven (insert_rest o (head? zs) alts i)) (sym f)
      (record {
        zs = us ++ t ∷ (alts ++ zs);
        linked = (insert_rest-behind alts (head? zs) t us zs i u' k').0;
        distinct = u';
      })

pub insert-from :
    {tor tol : Option ℕ} (r : Work × Option ℕ)
    → r.1 ≡ tol
    → r.0.tor ≡ tor
    → IsWoven (insert_rest tor tol r.0.alts r.0.inode)
    → IsWoven (insert_rest r.0.tor r.1 r.0.alts r.0.inode)
insert-from r e f k = rw (e, f) k

-- Where `replace` stands between its stages: `tor` ends the extents `xs`, `dh` begins `zs`.
pub record Cut (w : Work) : Type 0 where
  pub xs : List ℕ
  pub zs : List ℕ
  pub linked : IsLinked (xs ++ zs) w.inode
  pub tor : w.tor ≡ get_last? xs
  pub dh : w.dh ≡ head? zs
  pub distinct : IsDistinct (xs ++ (w.alts ++ zs))

pub merge_first-Cut :
    (env : Env) (tor : Option ℕ) (alts : List ℕ) (i : Inode) (tail dh : Option ℕ)
    → Cut (record { inode = i; alts = alts; tail = tail; tor = tor; dh = dh })
    → Cut (merge_first env (record { inode = i; alts = alts; tail = tail; tor = tor; dh = dh }))
unfolding merge_first
merge_first-Cut env none alts i tail dh c = c
merge_first-Cut env (some t) [] i tail dh c = c
merge_first-Cut env (some t) (a ∷ rest) i tail dh c =
    let j =
      set_ext t (record (i.exts t) { length = add64 (i.exts t).length (i.exts a).length }) i in
    let m : IsLinked (c.xs ++ c.zs) j = record {
      chain = c.linked.chain;
      order = c.linked.order;
      avl = c.linked.avl;
    } in
    if-elim Cut (continues (i.exts t) (i.exts a))
      (λ _. record {
        xs = c.xs;
        zs = c.zs;
        linked =
            IsSame-IsLinked (c.xs ++ c.zs) j (release_extent env a true j)
              (release_extent-IsSame env a true j) m;
        tor = c.tor;
        dh = c.dh;
        distinct = IsDistinct-skip c.xs (a ∷ []) (rest ++ c.zs) c.distinct;
      })
      (λ _. c)

pub without_cleared :
    (xs ps ns cs rest : List ℕ)
    → IsDistinct (xs ++ ((ps ++ ns) ++ (cs ++ rest)))
    → IsDistinct ((xs ++ ps) ++ (ns ++ rest))
without_cleared xs ps ns cs rest u =
    let e : xs ++ ((ps ++ ns) ++ (cs ++ rest)) ≡ ((xs ++ ps) ++ ns) ++ (cs ++ rest) =
      simp append_assoc in
    let f : ((xs ++ ps) ++ ns) ++ rest ≡ (xs ++ ps) ++ (ns ++ rest) =
      append_assoc (xs ++ ps) ns rest in
    subst IsDistinct f (IsDistinct-skip ((xs ++ ps) ++ ns) cs rest (subst IsDistinct e u))

-- The stages behind the descent.
pub stages-IsWoven :
    (env : Env) (start stop : ℕ) (w : Work)
    → Cut w
    → let r = clear_range env (length w.inode.chain + 1) start stop w in
      IsWoven (merge_last env r.0.tail (insert_rest r.0.tor r.1 r.0.alts r.0.inode))
stages-IsWoven env start stop w c =
    let n : length c.zs < length w.inode.chain + 1 =
      let e = ap length c.linked.chain in let f = length-append c.xs c.zs in omega arith in
    let r = clear_range env (length w.inode.chain + 1) start stop w in
    let q : Cleared stop w.inode c.xs c.zs w.alts w.tor w.tail r =
      subst
        (λ o.
          Cleared stop w.inode c.xs c.zs w.alts w.tor w.tail
            (clear_range env (length w.inode.chain + 1) start stop (record w { dh = o })))
        (sym c.dh)
        (clear_range-Cleared env (length w.inode.chain + 1) start stop c.xs c.zs w.alts w.tor w.tail
          w.inode c.distinct c.linked n) in
    merge_last-IsWoven env r.0.tail _ (
      insert-from r q.tol
        (q.tor' ∙ (ap (λ o. last_or o q.placed) c.tor ∙ sym (last_or-append none c.xs q.placed)))
        (insert_rest-IsWoven r.0.alts (c.xs ++ q.placed) q.rest r.0.inode
          (without_cleared c.xs q.placed r.0.alts q.cleared q.rest (
            subst (λ us. IsDistinct (c.xs ++ (us ++ (q.cleared ++ q.rest)))) q.of_alts
              (subst (λ us. IsDistinct (c.xs ++ (w.alts ++ us))) q.of_chain c.distinct)))
          (subst (λ us. IsLinked us r.0.inode) (sym (append_assoc c.xs q.placed q.rest)) q.linked)))
