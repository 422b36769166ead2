-- ===== src/Layout/Running.antt =====
-- `replace` of incont.c as a whole, on references, counters and assertions.
use pado_fs.Base.{
  ℕ, ◌+◌, ◌≤◌, ◌<◌, ◌≡◌, refl, sym, ap, ◌∙◌, subst, true, false, Option, none, some, List, [], ◌∷◌,
  ◌++◌, map, arith, length, append_assoc, ltb, Bool-cases, Option-cases, inl, inr, if-elim,
  length-append, append-nil,
}
use pado_fs.Base.Word.{add64, u32_mod, add64_lem}
use pado_fs.Base.Distinct.{
  has, IsDistinct, IsDistinct-middle, erase, erase-middle, has-middle, get_last?, head?, next_of,
}
use pado_fs.Tree.{is_leaf}
use pado_fs.Inode.{Inode, Env, assert, set_ext}
use pado_fs.Inode.Extents.{remove_extent}
use pado_fs.Inode.Owned.{IsOwned, IsOwned-as, set_ext-IsOwned}
use pado_fs.Layout.{
  Work, find_first, merge_first, clear_range, insert_rest, merge_last, replace_in, replace,
  set_root, continues, end_of,
}
use pado_fs.Layout.Spots.{Within, Spot, last_offset, Within-le, spot}
use pado_fs.Layout.Linked.{IsLinked, remove_extent-IsLinked}
use pado_fs.Layout.Cleared.{asserted}
use pado_fs.Layout.Descent.{is_leaf-inorder}
use pado_fs.Layout.Replaced.{rooted}
use pado_fs.Layout.Content.{Below, Holds, Placing}
use pado_fs.Layout.Put.{put}
use pado_fs.Layout.Merged.{next_of-middle_eq, merge_first-Placing}
use pado_fs.Layout.Settled.{range-Inserted}
use pado_fs.Layout.Aimed.{find_first-Placing}
use pado_fs.Layout.Checked.{IsOwned-swap, Runs, relinked-IsOwned, remove_extent-Runs}
use pado_fs.Layout.Swept.{Goes, asserted-Runs, clear_range-Goes}
use pado_fs.Layout.Ahead.{IsAhead, IsAhead-Past, find_first-Goes}
use pado_fs.Layout.Joined.{merge_first-Goes}

-- The insertions change the chain and the tree only.
insert_rest-IsOwned :
    (live : List ℕ) (tor tol : Option ℕ) (alts : List ℕ) (i : Inode)
    → IsOwned live i
    → IsOwned live (insert_rest tor tol alts i)
unfolding insert_rest
insert_rest-IsOwned live tor tol [] i o = o
insert_rest-IsOwned live (some t) tol (a ∷ rest) i o =
    insert_rest-IsOwned live (some a) tol rest _ (relinked-IsOwned live _ _ i o)
insert_rest-IsOwned live none (some t) (a ∷ rest) i o =
    insert_rest-IsOwned live none (some t) rest _ (relinked-IsOwned live _ _ i o)
insert_rest-IsOwned live none none (a ∷ rest) i o =
    IsOwned-as live live i _ (λ x. refl) o.distinct refl refl refl refl refl refl o

-- The extents of the layout are those in use, and the process goes on.
abbrev pub GoesOn : Inode → Inode → Type 0
GoesOn i j = Runs j.chain i j

-- The extent `n` goes.
taken_out :
    (env : Env) (n : ℕ) (us vs : List ℕ) (i : Inode)
    → IsDistinct (us ++ n ∷ vs)
    → IsLinked (us ++ n ∷ vs) i
    → IsOwned i.chain i
    → GoesOn i (remove_extent env n true i)
taken_out env n us vs i u k o =
    let m : has n i.chain ≡ true = ap (has n) k.chain ∙ has-middle n us vs in
    let (p, g) = remove_extent-Runs env n us vs i.chain i u k o m true in
    let e : erase n i.chain ≡ (remove_extent env n true i).chain =
      ap (erase n) k.chain
      ∙ (erase-middle n vs us (IsDistinct-middle us n vs u).0
          ∙ sym (remove_extent-IsLinked env n us vs i u k true).chain) in
    (subst (λ us. IsOwned us (remove_extent env n true i)) e p, g)

merge_last-Runs :
    (env : Env) (tail : Option ℕ) (zs : List ℕ) (i : Inode)
    → IsDistinct zs
    → IsLinked zs i
    → IsOwned i.chain i
    → GoesOn i (merge_last env tail i)
unfolding merge_last
merge_last-Runs env none zs i u k o = (o, refl)
merge_last-Runs env (some t) zs i u k o = elim (Option-cases (next_of t i.chain)) [
  | inl e ↦ rw (e, merge_last) (o, refl)
  | inr (n, e) ↦
      let (us, vs, q) = next_of-middle_eq t n zs (subst (λ zs. next_of t zs ≡ some n) k.chain e) in
      let f : zs ≡ (us ++ t ∷ []) ++ n ∷ vs = q ∙ sym (append_assoc us (t ∷ []) (n ∷ vs)) in
      let l = add64 (i.exts t).length (i.exts n).length in
      let j = set_ext t (record (i.exts t) { length = l }) i in
      let m : IsLinked ((us ++ t ∷ []) ++ n ∷ vs) j =
        subst (λ zs. IsLinked zs j) f (record { chain = k.chain; order = k.order; avl = k.avl }) in
      rw (e, merge_last)
        (if-elim (GoesOn i) (continues (i.exts t) (i.exts n))
          (λ _.
            taken_out env n (us ++ t ∷ []) vs j (subst IsDistinct f u) m
              (set_ext-IsOwned i.chain t _ i refl o))
          (λ _. (o, refl)))
]

insert_from_Runs :
    {tor tol : Option ℕ} (i : Inode) (r : Work × Option ℕ) (env : Env)
    → r.1 ≡ tol
    → r.0.tor ≡ tor
    → GoesOn i (merge_last env r.0.tail (insert_rest tor tol r.0.alts r.0.inode))
    → GoesOn i (merge_last env r.0.tail (insert_rest r.0.tor r.1 r.0.alts r.0.inode))
insert_from_Runs i r env e f k = rw (e, f) k

-- The stages behind the first merge.
stages-Runs :
    (env : Env) (start stop : ℕ) (want : ℕ → Option Spot) (w : Work)
    → stop ≤ last_offset
    → Placing stop want w
    → IsOwned (w.inode.chain ++ w.alts) w.inode
    → IsAhead w.inode.exts start w.dh
    → let r = clear_range env (length w.inode.chain + 1) start stop w in
      GoesOn w.inode (merge_last env r.0.tail (insert_rest r.0.tor r.1 r.0.alts r.0.inode))
stages-Runs env start stop want w h c o b =
    let i = w.inode in
    let n : length c.zs < length i.chain + 1 =
      let e = ap length c.linked.chain in let f = length-append c.xs c.zs in omega arith in
    let r = clear_range env (length i.chain + 1) start stop w in
    let g : Goes i r.0.inode r.0.alts =
      subst
        (λ o.
          let r = clear_range env (length i.chain + 1) start stop (record w { dh = o }) in
          Goes i r.0.inode r.0.alts)
        (sym c.dh)
        (clear_range-Goes env (length i.chain + 1) start stop c.lo c.back c.xs c.zs w.alts w.tor
          w.tail i c.distinct c.linked n c.front c.news h c.behind
          (IsAhead-Past i.exts start c.back c.zs c.behind (subst (IsAhead i.exts start) c.dh b))
          (subst (λ us. IsOwned (us ++ w.alts) i) c.linked.chain o)) in
    let z = range-Inserted env start stop want w c in
    let q = z.cleared in
    let ps = c.xs ++ q.placed in
    let j = insert_rest (get_last? ps) (head? q.rest) r.0.alts r.0.inode in
    let e : r.0.inode.chain ++ r.0.alts ≡ ps ++ (q.rest ++ r.0.alts) =
      ap (λ us. us ++ r.0.alts) (q.linked.chain ∙ sym (append_assoc c.xs q.placed q.rest))
      ∙ append_assoc ps q.rest r.0.alts in
    let m : IsOwned j.chain j =
      subst (λ us. IsOwned us j) (sym z.kept.0.chain)
        (insert_rest-IsOwned (ps ++ (r.0.alts ++ q.rest)) (get_last? ps) (head? q.rest) r.0.alts
          r.0.inode
          (IsOwned-swap ps q.rest r.0.alts r.0.inode (subst (λ us. IsOwned us r.0.inode) e g.0))) in
    let (p, f) =
      merge_last-Runs env r.0.tail (ps ++ (r.0.alts ++ q.rest)) j z.distinct z.kept.0 m in
    insert_from_Runs i r env q.tol z.tor (p, f ∙ (z.kept.1 ∙ g.1))

-- `replace` on an inode whose layout is not empty.
replace_in-Runs :
    (env : Env) (start stop : ℕ) (alts : List ℕ) (tail : Option ℕ) (i : Inode)
    (old : ℕ → Option Spot) (k : Holds old i)
    → is_leaf i.flayout ≡ false
    → IsDistinct (i.chain ++ alts)
    → Below i.next_ext alts
    → Within start stop (map i.exts alts)
    → start ≤ stop
    → stop ≤ last_offset
    → IsOwned (i.chain ++ alts) i
    → length (i.chain ++ alts) + 1 < u32_mod
    → GoesOn i (replace_in env alts tail start stop i)
unfolding replace_in
replace_in-Runs env start stop alts tail i old k l u v n s t o few =
    let u' = subst (λ us. IsDistinct (us ++ alts)) k.linked.chain u in
    let w = find_first start stop alts tail i in
    let want = put start stop (spot (map i.exts alts)) old in
    let c = find_first-Placing start stop alts tail i old k u' v n s t l in
    let (g, b) = find_first-Goes start stop alts tail i old k u v o few l (omega arith) in
    let d = merge_first-Placing stop want env w.tor w.alts w.inode w.tail w.dh t c in
    let (g', b') = merge_first-Goes stop want env start w.tor w.alts w.inode w.tail w.dh c g.0 b in
    let (p, q) = stages-Runs env start stop want (merge_first env w) t d g'.0 b' in
    (p, q ∙ (g'.1 ∙ g.1))

pub empty_chain :
    {old : ℕ → Option Spot} {i : Inode} → Holds old i → is_leaf i.flayout ≡ true → i.chain ≡ []
empty_chain {old} {i} k e = k.linked.chain ∙ (sym k.linked.order ∙ is_leaf-inorder i.flayout e)

on_empty-Runs :
    (env : Env) (start stop : ℕ) (alts : List ℕ) (tail : Option ℕ) (i : Inode)
    (old : ℕ → Option Spot) (k : Holds old i)
    → is_leaf i.flayout ≡ true
    → IsDistinct (i.chain ++ alts)
    → Below i.next_ext alts
    → Within start stop (map i.exts alts)
    → stop ≤ last_offset
    → IsOwned (i.chain ++ alts) i
    → length (i.chain ++ alts) + 1 < u32_mod
    → GoesOn i (elim alts [
      | [] ↦ i
      | a ∷ rest ↦ replace_in env rest tail (end_of (i.exts a)) stop (set_root a i)
    ])
on_empty-Runs env start stop [] tail i old k e u v n t o few =
    (subst (λ us. IsOwned us i) (append-nil i.chain) o, refl)
on_empty-Runs env start stop (a ∷ rest) tail i old k e u v n t o few =
    let z : i.chain ≡ [] = empty_chain k e in
    let w = Within-le _ stop (map i.exts rest) n.2 in
    let m : end_of (i.exts a) ≡ (i.exts a).off_f + (i.exts a).length =
      unfold end_of in add64_lem (i.exts a).off_f (i.exts a).length (omega arith) in
    let o' = subst (λ us. IsOwned (us ++ (a ∷ rest)) i) z o in
    let r : IsOwned (a ∷ rest) (set_root a i) =
      IsOwned-as (a ∷ rest) (a ∷ rest) i _ (λ x. refl) o'.distinct refl refl refl refl refl refl
        o' in
    rw m (
      replace_in-Runs env ((i.exts a).off_f + (i.exts a).length) stop rest tail (set_root a i)
        (spot (i.exts a ∷ [])) (rooted a i v.0 n.1 (omega arith)) refl
        (subst (λ us. IsDistinct (us ++ (a ∷ rest))) z u) v.1 n.2 w t r
        (let f = ap (λ us. length (us ++ (a ∷ rest))) z in omega arith))

-- A layout in order, nonempty new extents in order between `start` and `stop`, a range that is not
-- empty and ends at 2 ^ 64 - 1 at most, and an inode whose data objects list the extents of the
-- layout and the new ones, each once, with counters that say how many there are, fewer than
-- 2 ^ 32 - 1 in all: `replace` trips no assertion, and afterwards the data objects list the extents
-- of the new layout, each once, and the counters say how many there are.
pub replace-Runs :
    (env : Env) (alts : List ℕ) (tail : Option ℕ) (start stop : ℕ) (i : Inode)
    (old : ℕ → Option Spot)
    → Holds old i
    → IsDistinct (i.chain ++ alts)
    → Below i.next_ext alts
    → Within start stop (map i.exts alts)
    → start < stop
    → stop ≤ last_offset
    → IsOwned (i.chain ++ alts) i
    → length (i.chain ++ alts) + 1 < u32_mod
    → GoesOn i (replace env alts tail start stop i)
unfolding replace
replace-Runs env alts tail start stop i old k u v n s t o few =
    let b = ltb start stop in
    let b' : b ≡ true = ground arith in
    let j = assert b i in
    let k' : Holds old j = record {
      zs = k.zs;
      linked = asserted k.zs b i k.linked;
      distinct = k.distinct;
      below = k.below;
      sorted = k.sorted;
      says = k.says;
    } in
    let (o', h) = asserted-Runs (i.chain ++ alts) b i b' o in
    elim (Bool-cases (is_leaf i.flayout)) [
      | inl e ↦
          let (p, q) = on_empty-Runs env start stop alts tail j old k' e u v n t o' few in
          rw (e, replace) (p, q ∙ h)
      | inr e ↦
          let (p, q) =
            replace_in-Runs env start stop alts tail j old k' e u v n (omega arith) t o' few in
          rw (e, replace) (p, q ∙ h)
    ]
