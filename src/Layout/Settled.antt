-- ===== src/Layout/Settled.antt =====
-- The stages of `replace` (incont.c) behind the first merge, on what the layout keeps where.
use pado_fs.Base.{
  ℕ, ◌+◌, ◌≤◌, ◌<◌, ◌≡◌, ◌⊎◌, inl, inr, refl, sym, ap, ap₂, ◌∙◌, subst, subst₂, false, Option, none,
  List, [], ◌∷◌, ◌++◌, map, arith, length, length-append, append_assoc, All,
}
use mathlib.Core.List.{map-append}
use native.Mathlib.Decide.{dec_lt}
use pado_fs.Base.Distinct.{
  IsDistinct, IsDistinct-skip, IsDistinct-of-append, has, not-has-append, head?, last_or, get_last?,
  last_or-append,
}
use pado_fs.Inode.{Extent, Inode, Env}
use pado_fs.Layout.{Work, clear_range, insert_rest, merge_last}
use pado_fs.Layout.Spots.{
  Within, Spot, spot, last_offset, spot-second, spot-first, spot-below, Within-append,
}
use pado_fs.Layout.Trim.{trim, trim-Within, spot-trim}
use pado_fs.Layout.Same.{insert_rest-SameBut}
use pado_fs.Layout.Linked.{IsLinked, insert_rest-behind, insert_rest-ahead}
use pado_fs.Layout.Cleared.{Cleared, clear_range-Cleared}
use pado_fs.Layout.Updates.{map-same, All-none}
use pado_fs.Layout.Stages.{snoc-split, without_cleared}
use pado_fs.Layout.Content.{Below, Holds, Placing}
use pado_fs.Layout.Merged.{merge_last-Holds}

-- The insertions between the extents `ps` and `zs`.
pub insert_rest-Keeps :
    (alts ps zs : List ℕ) (i : Inode)
    → IsDistinct (ps ++ (alts ++ zs))
    → IsLinked (ps ++ zs) i
    → (alts ≡ []) ⊎ (0 < length (ps ++ zs))
    → IsLinked (ps ++ (alts ++ zs)) (insert_rest (get_last? ps) (head? zs) alts i)
      × ((insert_rest (get_last? ps) (head? zs) alts i).halted ≡ i.halted)
unfolding insert_rest
insert_rest-Keeps [] [] [] i u k h = (k, refl)
insert_rest-Keeps (a ∷ alts) [] [] i u k h = absurd (elim h [ inl e ↦ cc | inr l ↦ omega arith ])
insert_rest-Keeps alts [] (z ∷ zs) i u k h = insert_rest-ahead alts z [] zs i u k
insert_rest-Keeps alts (p ∷ ps) zs i u k h =
    let (us, t, e, f) = snoc-split p ps in
    let g : (p ∷ ps) ++ (alts ++ zs) ≡ us ++ t ∷ (alts ++ zs) =
      ap (λ ws. ws ++ (alts ++ zs)) e ∙ append_assoc us (t ∷ []) (alts ++ zs) in
    let k' : IsLinked (us ++ t ∷ zs) i =
      subst (λ ws. IsLinked ws i) (ap (λ ws. ws ++ zs) e ∙ append_assoc us (t ∷ []) zs) k in
    subst₂
      (λ o ws.
        IsLinked ws (insert_rest o (head? zs) alts i)
        × ((insert_rest o (head? zs) alts i).halted ≡ i.halted))
      (sym f) (sym g) (insert_rest-behind alts (head? zs) t us zs i (subst IsDistinct g u) k')

absent_front : (xs zs : List ℕ) → IsDistinct (xs ++ zs) → All (λ y. has y zs ≡ false) xs
absent_front [] zs u = tt
absent_front (x ∷ xs) zs u = ((not-has-append x xs zs u.0).1, absent_front xs zs u.1)

All-drop : (n : ℕ) (us cs vs : List ℕ) → Below n (us ++ (cs ++ vs)) → Below n (us ++ vs)
All-drop n [] [] vs a = a
All-drop n [] (c ∷ cs) vs a = All-drop n [] cs vs a.1
All-drop n (u ∷ us) cs vs a = (a.0, All-drop n us cs vs a.1)

-- What three lists in order keep, of which the third is cut off at `stop`.
says-parts :
    (stop lo back : ℕ) (want : ℕ → Option Spot) (xs as_new zs : List Extent) (p : ℕ)
    → stop ≤ last_offset
    → Within 0 lo xs
    → Within lo stop as_new
    → Within back last_offset zs
    → ((p : ℕ) → p < stop → spot (xs ++ as_new) p ≡ want p)
    → ((p : ℕ) → stop ≤ p → spot zs p ≡ want p)
    → spot (xs ++ (as_new ++ trim stop zs)) p ≡ want p
says-parts stop lo back want xs as_new zs p h f n b g k =
    let t = trim-Within back stop zs b h in
    let a = sym (append_assoc xs as_new (trim stop zs)) in
    elim (dec_lt p stop) [
      | yes l ↦
          ap (λ es. spot es p) a
          ∙ (spot-first (xs ++ as_new) (trim stop zs) p
                (spot-below stop last_offset (trim stop zs) p t l)
              ∙ g p l)
      | no l ↦
          ap (λ es. spot es p) a
          ∙ (spot-second 0 stop (xs ++ as_new) (trim stop zs) p
                (Within-append 0 lo stop xs as_new f n) (omega arith)
              ∙ (spot-trim back stop zs p b h (omega arith) ∙ k p (omega arith)))
    ]

insert_from_Holds :
    {tor tol : Option ℕ} (want : ℕ → Option Spot) (r : Work × Option ℕ)
    → r.1 ≡ tol
    → r.0.tor ≡ tor
    → Holds want (insert_rest tor tol r.0.alts r.0.inode)
    → Holds want (insert_rest r.0.tor r.1 r.0.alts r.0.inode)
insert_from_Holds want r e f k = rw (e, f) k

-- Where the loop over the range and the insertions leave the chain and the tree.
pub record Inserted (stop : ℕ) (w : Work) (xs zs : List ℕ) (r : Work × Option ℕ) : Type 0 where
  pub cleared : Cleared stop w.inode xs zs w.alts w.tor w.tail r
  pub distinct : IsDistinct ((xs ++ cleared.placed) ++ (r.0.alts ++ cleared.rest))
  pub tor : r.0.tor ≡ get_last? (xs ++ cleared.placed)
  pub kept :
      IsLinked
        ((xs ++ cleared.placed) ++ (r.0.alts ++ cleared.rest))
        (insert_rest (get_last? (xs ++ cleared.placed)) (head? cleared.rest) r.0.alts r.0.inode)
      × ((insert_rest
            (get_last? (xs ++ cleared.placed))
            (head? cleared.rest)
            r.0.alts
            r.0.inode).halted
          ≡ r.0.inode.halted)

pub range-Inserted :
    (env : Env) (start stop : ℕ) (want : ℕ → Option Spot) (w : Work) (c : Placing stop want w)
    → Inserted stop w c.xs c.zs (clear_range env (length w.inode.chain + 1) start stop w)
range-Inserted env start stop want w c =
    let i = w.inode in
    let n : length c.zs < length i.chain + 1 =
      let e = ap length c.linked.chain in let f = length-append c.xs c.zs in omega arith in
    let r = clear_range env (length i.chain + 1) start stop w in
    let q : Cleared stop i c.xs c.zs w.alts w.tor w.tail r =
      subst
        (λ o.
          Cleared stop i c.xs c.zs w.alts w.tor w.tail
            (clear_range env (length i.chain + 1) start stop (record w { dh = o })))
        (sym c.dh)
        (clear_range-Cleared env (length i.chain + 1) start stop c.xs c.zs w.alts w.tor w.tail i
          c.distinct c.linked n) in
    let ps = c.xs ++ q.placed in
    let u = without_cleared c.xs q.placed r.0.alts q.cleared q.rest (
      subst (λ us. IsDistinct (c.xs ++ (us ++ (q.cleared ++ q.rest)))) q.of_alts
        (subst (λ us. IsDistinct (c.xs ++ (w.alts ++ us))) q.of_chain c.distinct)) in
    let k =
      insert_rest-Keeps r.0.alts ps q.rest r.0.inode u
        (subst (λ us. IsLinked us r.0.inode) (sym (append_assoc c.xs q.placed q.rest)) q.linked)
        (elim q.filled [
          | inl e ↦ inl e
          | inr e ↦ inr (
              let a = length-append c.xs c.zs in
              let b = ap length q.of_chain in
              let d = length-append q.cleared q.rest in
              let f = length-append c.xs q.placed in
              let g = length-append ps q.rest in let m = c.some_left in omega arith)
        ]) in
    record {
      cleared = q;
      distinct = u;
      tor = q.tor' ∙ (ap (λ o. last_or o q.placed) c.tor ∙ sym (last_or-append none c.xs q.placed));
      kept = k;
    }

-- The stages behind the first merge.
pub stages-Holds :
    (env : Env) (start stop : ℕ) (want : ℕ → Option Spot) (w : Work)
    → stop ≤ last_offset
    → Placing stop want w
    → let r = clear_range env (length w.inode.chain + 1) start stop w in
      Holds want (merge_last env r.0.tail (insert_rest r.0.tor r.1 r.0.alts r.0.inode))
stages-Holds env start stop want w h c =
    let i = w.inode in
    let r = clear_range env (length i.chain + 1) start stop w in
    let z = range-Inserted env start stop want w c in
    let q = z.cleared in
    let ps = c.xs ++ q.placed in
    let u = z.distinct in
    let k = z.kept in
    let j = insert_rest (get_last? ps) (head? q.rest) r.0.alts r.0.inode in
    let e : ps ++ (r.0.alts ++ q.rest) ≡ c.xs ++ (w.alts ++ q.rest) =
      append_assoc c.xs q.placed (r.0.alts ++ q.rest)
      ∙ ap (λ us. c.xs ++ us)
          (sym (append_assoc q.placed r.0.alts q.rest) ∙ ap (λ us. us ++ q.rest) (sym q.of_alts)) in
    let s = insert_rest-SameBut (get_last? ps) (head? q.rest) r.0.alts r.0.inode in
    let keep = λ (us : List ℕ) (a : All (λ y. has y c.zs ≡ false) us).
      let m : map j.exts us ≡ map i.exts us =
        map-same r.0.inode.exts j.exts [] us s.exts (All-none us)
        ∙ map-same i.exts r.0.inode.exts c.zs us q.others.exts a in
      m in
    let u₂ : IsDistinct (w.alts ++ c.zs) =
      (IsDistinct-of-append c.xs (w.alts ++ c.zs) c.distinct).1 in
    let u₁ : IsDistinct (c.xs ++ c.zs) = IsDistinct-skip c.xs w.alts c.zs c.distinct in
    let x : map j.exts (c.xs ++ (w.alts ++ q.rest))
        ≡ map i.exts c.xs ++ (map i.exts w.alts ++ trim stop (map i.exts c.zs)) =
      map-append j.exts c.xs (w.alts ++ q.rest)
      ∙ ap₂ (λ us vs. us ++ vs) (keep c.xs (absent_front c.xs c.zs u₁))
          (map-append j.exts w.alts q.rest
            ∙ ap₂ (λ us vs. us ++ vs) (keep w.alts (absent_front w.alts c.zs u₂))
                (map-same r.0.inode.exts j.exts [] q.rest s.exts (All-none q.rest) ∙ q.trimmed)) in
    let done : Holds want j = record {
      zs = c.xs ++ (w.alts ++ q.rest);
      linked = subst (λ us. IsLinked us j) e k.0;
      distinct = subst IsDistinct e u;
      below =
          subst (λ a. Below a (c.xs ++ (w.alts ++ q.rest))) (sym (s.next_ext ∙ q.others.next_ext))
            (subst (Below i.next_ext) (append_assoc c.xs w.alts q.rest) (
              All-drop i.next_ext (c.xs ++ w.alts) q.cleared q.rest (
                subst (Below i.next_ext)
                  (ap (λ us. c.xs ++ (w.alts ++ us)) q.of_chain
                    ∙ sym (append_assoc c.xs w.alts (q.cleared ++ q.rest)))
                  c.below)));
      sorted = subst (Within 0 last_offset) (sym x) (
          Within-append 0 c.lo last_offset (map i.exts c.xs) _ c.front (
            Within-append c.lo stop last_offset (map i.exts w.alts) _ c.news
              (trim-Within c.back stop (map i.exts c.zs) c.behind h)));
      says = λ p.
          ap (λ es. spot es p) x
          ∙ says-parts stop c.lo c.back want (map i.exts c.xs) (map i.exts w.alts) (map i.exts c.zs)
              p h c.front c.news c.behind c.before c.after;
    } in
    merge_last-Holds want env r.0.tail _ (insert_from_Holds want r q.tol z.tor done)
