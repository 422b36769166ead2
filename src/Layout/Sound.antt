-- ===== src/Layout/Sound.antt =====
-- The state of an inode between two requests (incont.c), and `remove_dobject`, `release_inode` and
-- `delete_inode` on it.
use pado_fs.Base.{ℕ, ◌≡◌, sym, ap, ◌∙◌, subst, Bool, false, Option, some, List, map}
use pado_fs.Inode.{Inode, Env}
use pado_fs.Inode.Extents.{remove_dobject}
use pado_fs.Inode.Owned.{IsOwned}
use pado_fs.Layout.Spots.{Within, Spot, spot, last_offset}
use pado_fs.Layout.Linked.{IsLinked}
use pado_fs.Layout.Content.{Below, Holds}
use pado_fs.Layout.Without.{
  without, drop_of, IsDistinct-without, Below-without, Within-without, spot-without,
}
use pado_fs.Layout.Removed.{remove_dobject-Gone}
use pado_fs.Layout.Running.{GoesOn}

-- The layout is in order, the data objects of the table list its extents, each once, the counters
-- say how many there are, and no assertion has failed.
pub record IsSound (i : Inode) : Type 0 where
  pub spots : ℕ → Option Spot
  pub holds : Holds spots i
  pub owned : IsOwned i.chain i
  pub alive : i.halted ≡ false

pub IsSound-chain : (zs : List ℕ) (i : Inode) → IsLinked zs i → IsOwned zs i → IsOwned i.chain i
IsSound-chain zs i k o = subst (λ us. IsOwned us i) (sym k.chain) o

-- A layout in order, whose extents the data objects list, each once, with counters that say how
-- many there are: after `remove_dobject` the layout keeps no position in that data object and every
-- other position where it was, the data objects list the extents of the new layout, each once, the
-- counters say how many there are, and no assertion has failed.
pub remove_dobject-Holds :
    (env : Env) (d : ℕ) (b : Bool) (i : Inode) (old : ℕ → Option Spot)
    → Holds old i
    → IsOwned i.chain i
    → let j = (remove_dobject env (some d) b i).0 in Holds (λ p. drop_of d (old p)) j × GoesOn i j
remove_dobject-Holds env d b i old k o =
    let j = (remove_dobject env (some d) b i).0 in
    let g =
      remove_dobject-Gone env d b k.zs i k.distinct k.linked
        (subst (λ us. IsOwned us i) k.linked.chain o) in
    let w = without i.exts d k.zs in
    (
      record {
        zs = w;
        linked = g.linked;
        distinct = IsDistinct-without i.exts d k.zs k.distinct;
        below =
            subst (λ n. Below n w) (sym g.others.next_ext)
              (Below-without i.exts d i.next_ext k.zs k.below);
        sorted =
            subst (λ f. Within 0 last_offset (map f w)) (sym g.exts)
              (Within-without i.exts d 0 last_offset k.zs k.sorted);
        says = λ p.
            ap (λ f. spot (map f w) p) g.exts
            ∙ (spot-without i.exts d 0 last_offset p k.zs k.sorted ∙ ap (drop_of d) (k.says p));
      },
      (IsSound-chain w j g.linked g.owned, g.halted),
    )
