-- ===== src/Layout/CloneCounts.antt =====
-- `pado_clone` of incont.c on references, counters and assertions.
use pado_fs.Base.{
  ℕ, ◌+◌, ◌≤◌, ◌<◌, refl, sym, ap, ◌∙◌, subst, Option, none, List, [], ◌∷◌, ◌++◌, arith, length,
  length-append, append_assoc, append-nil, ltb, max, if-elim, if◌then◌else◌,
}
use pado_fs.Base.Word.{add64, sub64, u32_mod}
use pado_fs.Inode.{Inode, Env}
use pado_fs.Inode.Extents.{create_extent, acquire_dobject, or_new_linked}
use pado_fs.Inode.Owned.{IsOwned, IsOwned-as, create_extent-IsOwned}
use pado_fs.Layout.{is_end, Segment, replace, clone_extents, last_of, pado_clone}
use pado_fs.Layout.Spots.{Spot, last_offset}
use pado_fs.Layout.Content.{Below, Holds}
use pado_fs.Layout.Put.{fresh, Below-suc}
use pado_fs.Layout.Acquired.{IsUp, acquire_dobject-Linked}
use pado_fs.Layout.Checked.{IsOwned-swap, Runs}
use pado_fs.Layout.Counted.{GoesOn-as, table-Below, acquire_dobject-Takes}
use pado_fs.Layout.Running.{GoesOn, replace-Runs}
use pado_fs.Layout.Cloned.{AreInOrder, clone_extents-Cloned}
use pado_fs.Layout.Taken.{drawn-Holds}

-- The extents that the loop makes, one for a segment at most.
pub record Drawn (ss : List Segment) (live : List ℕ) (i : Inode) (r : Inode × List ℕ) : Type 0 where
  pub runs : Runs (live ++ r.1) i r.0
  pub few : length r.1 ≤ length ss

pub clone_extents-Drawn :
    (env : Env) (start stop : ℕ) (ss : List Segment) (live : List ℕ) (i : Inode)
    → IsUp env
    → Below i.next_dob i.do_map
    → Below i.next_ext live
    → length live + length ss < u32_mod
    → IsOwned live i
    → Drawn ss live i (clone_extents env start stop ss i)
unfolding clone_extents create_extent
clone_extents-Drawn env start stop [] live i u t b few o = record {
  runs = (subst (λ us. IsOwned us i) (sym (append-nil live)) o, refl);
  few = omega arith;
}
clone_extents-Drawn env start stop (s ∷ ss) live i u t b few o =
    let l = acquire_dobject-Linked env s.hid s.loid i u t in
    let q = acquire_dobject env s.hid s.loid or_new_linked i in
    let ((p, g), given) = acquire_dobject-Takes env s.hid s.loid or_new_linked live i o in
    let off_f = add64 start s.offset in
    let len = if ltb stop (add64 off_f s.length) then sub64 stop off_f else s.length in
    let c = create_extent l.dobj off_f s.off_do len q.0 in
    let x = q.0.next_ext in
    let b' : Below x live = subst (λ n. Below n live) (sym l.next_ext) b in
    let m =
      create_extent-IsOwned live l.dobj off_f s.off_do len q.0 (fresh x live b')
        (given l.dobj l.given) (omega arith) p in
    let rest = clone_extents env start stop ss c.0 in
    let d =
      clone_extents-Drawn env start stop ss (x ∷ live) c.0 u (l.names.table t)
        (omega arith, Below-suc x live b') (omega arith) m in
    let skipped = clone_extents-Drawn env start stop ss live i u t b (omega arith) o in
    let P = Drawn (s ∷ ss) live i in
    rw l.given (
      if-elim P (is_end s.hid s.loid)
        (λ _. record {
          runs = (subst (λ us. IsOwned us i) (sym (append-nil live)) o, refl);
          few = omega arith;
        })
        (λ _.
          if-elim P (ltb stop off_f)
            (λ _. record { runs = skipped.runs; few = let n = skipped.few in omega arith })
            (λ _. record {
              runs = (moved x rest.1 rest.0 d.runs.0, d.runs.1 ∙ g);
              few = let n = d.few in omega arith;
            })))
  where
    moved :
        (x : ℕ) (xs : List ℕ) (j : Inode)
        → IsOwned ((x ∷ live) ++ xs) j
        → IsOwned (live ++ x ∷ xs) j
    moved x xs j o = IsOwned-swap live xs (x ∷ []) j (
        subst (λ us. IsOwned us j) (append_assoc live xs (x ∷ []))
          (IsOwned-swap [] (x ∷ []) (live ++ xs) j o))

-- `pado_clone` where every data object server can be connected, of segments that follow one
-- another, none empty, none of host 0 and object 0, each beginning in the range, which is not empty
-- and ends at 2 ^ 64 - 1 at most, for a layout in order whose extents the data objects list, each
-- once, with counters that say how many there are, fewer than 2 ^ 32 - 1 with one more for each
-- segment: `pado_clone` trips no assertion, and afterwards the data objects list the extents of the
-- new layout, each once, and the counters say how many there are.
pub pado_clone-Runs :
    (env : Env) (ss : List Segment) (start stop : ℕ) (i : Inode) (old : ℕ → Option Spot)
    → Holds old i
    → IsUp env
    → start < stop
    → stop ≤ last_offset
    → AreInOrder start start stop ss
    → IsOwned i.chain i
    → length i.chain + length ss + 1 < u32_mod
    → GoesOn i (pado_clone env ss start stop i).0
unfolding pado_clone
pado_clone-Runs env ss start stop i old k u h l o w few =
    let t = table-Below i.chain i w in
    let c = clone_extents-Cloned env start start stop ss i u l t o in
    let r = clone_extents env start stop ss i in
    let d =
      clone_extents-Drawn env start stop ss i.chain i u t
        (subst (Below i.next_ext) (sym k.linked.chain) k.below) (omega arith) w in
    let j = record r.0 { size = max r.0.size stop } in
    let (held, n) = drawn-Holds start start stop (max r.0.size stop) ss i r old k c in
    let m = subst (λ us. IsOwned (us ++ r.1) r.0) (sym c.chain) d.runs.0 in
    let f : length (r.0.chain ++ r.1) + 1 < u32_mod =
      let a = length-append r.0.chain r.1 in
      let b = ap length c.chain in let e = d.few in omega arith in
    let (p, g) =
      replace-Runs env r.1 (last_of none r.1) start stop j old held n c.below c.within h l
        (IsOwned-as (r.0.chain ++ r.1) (r.0.chain ++ r.1) r.0 j (λ x. refl) m.distinct refl refl
          refl refl refl refl m)
        f in
    GoesOn-as i (replace env r.1 (last_of none r.1) start stop j) _ (g ∙ d.runs.1) refl refl refl
      refl refl refl refl p
