-- ===== src/Layout/Emptied.antt =====
-- `remove_dobject` of incont.c: every extent of the data object goes.
use pado_fs.Base.{
  ℕ, ◌≡◌, refl, sym, ap, ◌∙◌, subst, true, Option, none, some, List, [], ◌∷◌, ◌++◌, arith, length,
  ◌==◌,
}
use pado_fs.Base.Distinct.{
  has-middle, has, IsDistinct, IsDistinct-skip, IsDistinct-middle, erase, erase-middle, has-split,
  prev_of,
}
use pado_fs.Tree.{Tree, detach}
use pado_fs.Inode.{Inode, set_tree}
use pado_fs.Inode.Extents.{unlink_extent, unref_extent, remove_refs}
use pado_fs.Inode.Owned.{IsOwned, unref_extent-IsOwned}
use pado_fs.Layout.Same.{
  SameBut, SameBut-refl, SameBut-trans, SameBut-by, unref_extent-IsSame, relinked,
}
use pado_fs.Layout.Linked.{IsLinked, IsSame-IsLinked, unlink_extent-Keeps}
use pado_fs.Layout.Checked.{relinked-IsOwned}
use pado_fs.Layout.Without.{without, without-erase, without-none}

-- What the loop makes of the inode `i` with the extents `zs`.
pub record Emptied (d : ℕ) (zs : List ℕ) (i j : Inode) : Type 0 where
  pub linked : IsLinked (without i.exts d zs) j
  pub owned : IsOwned (without i.exts d zs) j
  pub refs : (j.dobs d).refs ≡ []
  pub halted : j.halted ≡ i.halted
  pub exts : j.exts ≡ i.exts
  pub do_map : j.do_map ≡ i.do_map
  pub others : SameBut [] i j

-- A change of the tree and the chain only.
record Unlinked (i j : Inode) : Type 0 where
  exts : j.exts ≡ i.exts
  do_map : j.do_map ≡ i.do_map
  dobs : j.dobs ≡ i.dobs
  others : SameBut [] i j

set_tree-Unlinked :
    (o : Option Tree) (c : List ℕ) (i : Inode) → Unlinked i (set_tree o (record i { chain = c }))
set_tree-Unlinked none c i = record {
  exts = refl;
  do_map = refl;
  dobs = refl;
  others = relinked none i c;
}
set_tree-Unlinked (some t) c i = record {
  exts = refl;
  do_map = refl;
  dobs = refl;
  others = relinked (some t) i c;
}

unlinked :
    (x : ℕ) (live : List ℕ) (i : Inode)
    → IsOwned live i
    → IsOwned live (unlink_extent x i) × Unlinked i (unlink_extent x i)
unfolding unlink_extent
unlinked x live i o =
    let t = detach x (prev_of x i.chain) i.flayout in
    (relinked-IsOwned live t (erase x i.chain) i o, set_tree-Unlinked t (erase x i.chain) i)

unref_extent-refs :
    (x d : ℕ) (rest : List ℕ) (i : Inode)
    → (i.dobs d).refs ≡ x ∷ rest
    → (i.exts x).dobj ≡ d
    → ((unref_extent x i).dobs d).refs ≡ rest
unfolding unref_extent
unref_extent-refs x d rest i r e =
    let e' : (d == (i.exts x).dobj) ≡ true = ground arith in
    let a : erase x (x ∷ rest) ≡ rest = erase-middle x rest [] refl in
    rw e' (ap (λ d. erase x (i.dobs d).refs) e ∙ (ap (erase x) r ∙ a))

module _ (x d : ℕ) (rest xs ys : List ℕ) (i : Inode) (u : IsDistinct (xs ++ x ∷ ys))
    (k : IsLinked (xs ++ x ∷ ys) i) (o : IsOwned (xs ++ x ∷ ys) i) (r : (i.dobs d).refs ≡ x ∷ rest)
    (e : (i.exts x).dobj ≡ d) where
  abbrev round : Inode
  round = unref_extent x (unlink_extent x i)

  -- A round of the loop.
  record Round : Type 0 where
    linked : IsLinked (xs ++ ys) round
    owned : IsOwned (xs ++ ys) round
    refs : (round.dobs d).refs ≡ rest
    halted : round.halted ≡ i.halted
    exts : round.exts ≡ i.exts
    do_map : round.do_map ≡ i.do_map
    others : SameBut [] i round

  one_round : Round
  unfolding unref_extent unlink_extent
  one_round =
      let c = detach x (prev_of x i.chain) i.flayout in
      let (k', h) = unlink_extent-Keeps x xs ys i u k in
      let live = xs ++ x ∷ ys in
      let (w, t) = unlinked x live i o in
      let (p, g) = unref_extent-IsOwned live x (unlink_extent x i) (has-middle x xs ys) w in
      let s = unref_extent-IsSame x (unlink_extent x i) in
      record {
        linked = IsSame-IsLinked (xs ++ ys) (unlink_extent x i) round s k';
        owned =
            subst (λ us. IsOwned us round) (erase-middle x ys xs (IsDistinct-middle xs x ys u).0) p;
        refs =
            unref_extent-refs x d rest (unlink_extent x i) (ap (λ t. (t d).refs) t.dobs ∙ r)
              (ap (λ t. (t x).dobj) t.exts ∙ e);
        halted = g ∙ h;
        exts = s.exts ∙ t.exts;
        do_map = t.do_map;
        others = SameBut-trans [] i (unlink_extent x i) round t.others (SameBut-by _ _ s);
      }

-- The loop of `remove_dobject`, with as many rounds as the data object has extents.
pub remove_refs-Emptied :
    (rs : List ℕ) (d : ℕ) (zs : List ℕ) (i : Inode)
    → (i.dobs d).refs ≡ rs
    → IsDistinct zs
    → IsLinked zs i
    → IsOwned zs i
    → Emptied d zs i (remove_refs (length rs) d i)
unfolding remove_refs
remove_refs-Emptied [] d zs i r u k o =
    let e : without i.exts d zs ≡ zs =
      without-none i.exts d zs
        (λ x h. let a = o.refs d x in let b = ap (has x) r in ground arith) in
    record {
      linked = subst (λ us. IsLinked us i) (sym e) k;
      owned = subst (λ us. IsOwned us i) (sym e) o;
      refs = r;
      halted = refl;
      exts = refl;
      do_map = refl;
      others = SameBut-refl i;
    }
remove_refs-Emptied (x ∷ rest) d zs i r u k o =
    let a = o.refs d x in
    let b : has x (x ∷ rest) ≡ true = ground arith in
    let c = ap (has x) r in
    let h : has x zs ≡ true = ground arith in
    let e : (i.exts x).dobj ≡ d = ground arith in
    let (xs, ys, q) = has-split x zs h in
    let w =
      one_round x d rest xs ys i (subst IsDistinct q u) (subst (λ us. IsLinked us i) q k)
        (subst (λ us. IsOwned us i) q o) r e in
    let j = unref_extent x (unlink_extent x i) in
    let v =
      remove_refs-Emptied rest d (xs ++ ys) j w.refs
        (IsDistinct-skip xs (x ∷ []) ys (subst IsDistinct q u)) w.linked w.owned in
    let m : without j.exts d (xs ++ ys) ≡ without i.exts d zs =
      ap (λ f. without f d (xs ++ ys)) w.exts
      ∙ (without-erase i.exts d x xs ys e ∙ ap (without i.exts d) (sym q)) in
    rw r (record {
      linked = subst (λ us. IsLinked us (remove_refs (length rest) d j)) m v.linked;
      owned = subst (λ us. IsOwned us (remove_refs (length rest) d j)) m v.owned;
      refs = v.refs;
      halted = v.halted ∙ w.halted;
      exts = v.exts ∙ w.exts;
      do_map = v.do_map ∙ w.do_map;
      others = SameBut-trans [] i j _ w.others v.others;
    })
