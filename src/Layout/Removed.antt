-- ===== src/Layout/Removed.antt =====
-- `remove_dobject` and the loop of `delete_inode` (incont.c): what the layout keeps where, and the
-- references, counters and assertions.
use pado_fs.Base.{
  ℕ, zero, suc, ◌≡◌, refl, sym, ap, ◌∙◌, subst, Bool, Option, none, some, List, [], length,
  if◌then◌else◌, List-cases, inl, inr, if-elim,
}
use pado_fs.Base.Distinct.{IsDistinct, erase, prev_of}
use pado_fs.Codes.{Request, remove_link, Ret, code, failed, success}
use pado_fs.Tree.{Tree, detach}
use pado_fs.Inode.{Inode, Env, set_tree}
use pado_fs.Inode.Extents.{unlink_extent, unref_extent, remove_refs, remove_dobject, request}
use pado_fs.Inode.Owned.{IsOwned}
use pado_fs.Inode.Released.{IsAlike-IsOwned, request-IsAlike, unlisted-IsOwned}
use pado_fs.Layout.Same.{
  SameBut, SameBut-trans, SameBut-by, IsSame, request-IsSame, unmapped-IsSame,
}
use pado_fs.Layout.Linked.{IsLinked, IsSame-IsLinked}
use pado_fs.Layout.Without.{without}
use pado_fs.Layout.Emptied.{remove_refs-Emptied}

-- `do_map` plays no part in the loop.
set_tree-unmapped :
    (o : Option Tree) (c m : List ℕ) (i : Inode)
    → set_tree o (record i { chain = c; do_map = m })
      ≡ record (set_tree o (record i { chain = c })) { do_map = m }
set_tree-unmapped none c m i = refl
set_tree-unmapped (some t) c m i = refl

remove_refs-unmapped :
    (k d : ℕ) (m : List ℕ) (i : Inode)
    → remove_refs k d (record i { do_map = m }) ≡ record (remove_refs k d i) { do_map = m }
unfolding remove_refs unlink_extent unref_extent
remove_refs-unmapped zero d m i = refl
remove_refs-unmapped (suc k) d m i = elim (List-cases (i.dobs d).refs) [
  | inl e ↦ rw (e, remove_refs) refl
  | inr (x, rest, e) ↦
      let o = detach x (prev_of x i.chain) i.flayout in
      let s : unref_extent x (unlink_extent x (record i { do_map = m }))
          ≡ record (unref_extent x (unlink_extent x i)) { do_map = m } =
        ap (unref_extent x) (set_tree-unmapped o (erase x i.chain) m i) in
      rw (e, remove_refs)
        (ap (remove_refs k d) s ∙ remove_refs-unmapped k d m (unref_extent x (unlink_extent x i)))
]

-- What `remove_dobject` makes of the inode `i` with the extents `zs`.
pub record Gone (d : ℕ) (zs : List ℕ) (i j : Inode) : Type 0 where
  pub linked : IsLinked (without i.exts d zs) j
  pub owned : IsOwned (without i.exts d zs) j
  pub halted : j.halted ≡ i.halted
  pub exts : j.exts ≡ i.exts
  pub do_map : j.do_map ≡ erase d i.do_map
  pub others : SameBut [] i j

replied-Gone :
    (d : ℕ) (zs : List ℕ) (i j : Inode) (r : Option Ret)
    → Gone d zs i j
    → let z : Inode × Ret = elim r [ none ↦ (j, code failed) | some r' ↦ (j, r') ] in
      Gone d zs i z.0
replied-Gone d zs i j none s = s
replied-Gone d zs i j (some r) s = s

requested-Gone :
    (env : Env) (q : Request) (d : ℕ) (zs : List ℕ) (i j : Inode)
    → Gone d zs i j
    → Gone d zs i (request env q j).0
requested-Gone env q d zs i j g =
    let k = (request env q j).0 in
    let s = request-IsAlike env q j in
    let t = request-IsSame env q j in
    record {
      linked = IsSame-IsLinked (without i.exts d zs) j k t g.linked;
      owned = IsAlike-IsOwned (without i.exts d zs) j k s g.owned;
      halted = s.halted ∙ g.halted;
      exts = s.exts ∙ g.exts;
      do_map = s.do_map ∙ g.do_map;
      others = SameBut-trans [] i j k g.others (SameBut-by j k t);
    }

-- A data object of an inode whose chain and tree hold the extents `zs`.
pub remove_dobject-Gone :
    (env : Env) (d : ℕ) (b : Bool) (zs : List ℕ) (i : Inode)
    → IsDistinct zs
    → IsLinked zs i
    → IsOwned zs i
    → Gone d zs i (remove_dobject env (some d) b i).0
unfolding remove_dobject
remove_dobject-Gone env d b zs i u k o =
    let rs = (i.dobs d).refs in
    let e = remove_refs-Emptied rs d zs i refl u k o in
    let j = remove_refs (length rs) d i in
    let m = erase d i.do_map in
    let j' = record j { do_map = m } in
    let g : Gone d zs i j' = record {
      linked = record { chain = e.linked.chain; order = e.linked.order; avl = e.linked.avl };
      owned =
          subst (λ m. IsOwned (without i.exts d zs) (record j { do_map = erase d m })) e.do_map
            (unlisted-IsOwned (without i.exts d zs) d j e.refs e.owned);
      halted = e.halted;
      exts = e.exts;
      do_map = refl;
      others = SameBut-trans [] i j j' e.others (
          SameBut-by j j' (
            subst (λ m. IsSame j (record j { do_map = erase d m })) e.do_map
              (unmapped-IsSame j d)));
    } in
    let q = remove_link (i.dobs d).host_id (i.dobs d).loid i.ino in
    subst
      (λ k.
        let r : Inode × Ret =
          if b
          then (let (k', r) = request env q k in
              elim r [ none ↦ (k', code failed) | some r' ↦ (k', r') ])
          else (k, code success) in
        Gone d zs i r.0)
      (sym (remove_refs-unmapped (length rs) d m i))
      (if-elim (λ (r : Inode × Ret). Gone d zs i r.0) b
        (λ _. replied-Gone d zs i _ (request env q j').1 (requested-Gone env q d zs i j' g))
        (λ _. g))
