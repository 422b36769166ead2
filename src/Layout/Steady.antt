-- ===== src/Layout/Steady.antt =====
-- `acquire_dobject`, `pado_write`, `pado_truncate`, `pado_clone` and `remove_dobject` (incont.c) on
-- an inode in order.
use pado_fs.Base.{
  ℕ, ◌+◌, ◌≤◌, ◌<◌, ◌≡◌, refl, sym, ◌∙◌, subst, Bool, true, Option, none, some, List, length,
  Option-cases, inl, inr,
}
use pado_fs.Base.Distinct.{has}
use pado_fs.Base.Word.{u32_mod}
use pado_fs.Codes.{add_link}
use pado_fs.Inode.{Inode, Env}
use pado_fs.Inode.Extents.{
  Acquire, existing, or_new, or_new_linked, acquire_dobject, remove_dobject, find_dobject, request,
}
use pado_fs.Inode.Owned.{IsOwned}
use pado_fs.Layout.{Segment, pado_write, pado_truncate, pado_clone}
use pado_fs.Layout.Spots.{Spot, last_offset}
use pado_fs.Layout.Cloned.{AreInOrder, clone_extents-Cloned}
use pado_fs.Layout.Taken.{pado_clone-Holds}
use pado_fs.Layout.Same.{request-IsSame}
use pado_fs.Layout.Acquired.{IsUp, added}
use pado_fs.Layout.Content.{Holds}
use pado_fs.Layout.Kept.{Holds-as, pado_write-Holds, pado_truncate-Holds}
use pado_fs.Layout.Counted.{pado_write-Runs, pado_truncate-Runs, acquire_dobject-Takes, table-Below}
use pado_fs.Layout.CloneCounts.{pado_clone-Runs}
use pado_fs.Layout.Sound.{IsSound, remove_dobject-Holds}

-- What `acquire_dobject` leaves of the layout.
acquire_dobject-Holds :
    (env : Env) (hid loid : ℕ) (flag : Acquire) (i : Inode) (old : ℕ → Option Spot)
    → Holds old i
    → Holds old (acquire_dobject env hid loid flag i).0
      × ((acquire_dobject env hid loid flag i).0.chain ≡ i.chain)
unfolding acquire_dobject
acquire_dobject-Holds env hid loid flag i old k =
    elim (Option-cases (find_dobject i.dobs hid loid i.do_map)) [
      | inr (d, e) ↦ rw (e, acquire_dobject) (Holds-as old i _ refl refl refl refl k, refl)
      | inl e ↦
          elim flag
            as (λ f.
              Holds old (acquire_dobject env hid loid f i).0
              × ((acquire_dobject env hid loid f i).0.chain ≡ i.chain)) [
                | existing ↦ rw (e, acquire_dobject) (k, refl)
                | or_new ↦ rw (e, acquire_dobject) (Holds-as old i _ refl refl refl refl k, refl)
                | or_new_linked ↦
                    let a = added hid loid i in
                    let q = add_link hid loid i.ino in
                    let s = request-IsSame env q a in
                    elim (Option-cases (request env q a).1) [
                      | inl f ↦
                          rw (e, acquire_dobject, f)
                            (Holds-as old i _ s.chain s.flayout s.exts s.next_ext k, s.chain)
                      | inr (r, f) ↦
                          rw (e, acquire_dobject, f)
                            (Holds-as old i _ s.chain s.flayout s.exts s.next_ext k, s.chain)
                    ]
              ]
    ]

pub acquire_dobject-IsSound :
    (env : Env) (hid loid : ℕ) (flag : Acquire) (i : Inode)
    → IsSound i
    → let r = acquire_dobject env hid loid flag i in
      IsSound r.0 × ((d : ℕ) → r.1 ≡ some d → has d r.0.do_map ≡ true) × (r.0.chain ≡ i.chain)
acquire_dobject-IsSound env hid loid flag i s =
    let j = (acquire_dobject env hid loid flag i).0 in
    let (h, c) = acquire_dobject-Holds env hid loid flag i s.spots s.holds in
    let ((o, g), l) = acquire_dobject-Takes env hid loid flag i.chain i s.owned in
    (
      record {
        spots = s.spots;
        holds = h;
        owned = subst (λ us. IsOwned us j) (sym c) o;
        alive = g ∙ s.alive;
      },
      l,
      c,
    )

pub pado_write-IsSound :
    (env : Env) (o : Option ℕ) (off_f off_do len : ℕ) (i : Inode)
    → IsSound i
    → ((d : ℕ) → o ≡ some d → has d i.do_map ≡ true)
    → 0 < len
    → off_f + len ≤ last_offset
    → length i.chain + 2 < u32_mod
    → IsSound (pado_write env o off_f off_do len i).0
unfolding pado_write
pado_write-IsSound env none off_f off_do len i s h l t few = s
pado_write-IsSound env (some d) off_f off_do len i s h l t few =
    let (o, g) =
      pado_write-Runs env d off_f off_do len i s.spots s.holds l t (h d refl) s.owned few in
    record {
      spots = _;
      holds = pado_write-Holds env d off_f off_do len i s.spots s.holds l t;
      owned = o;
      alive = g ∙ s.alive;
    }

pub pado_truncate-IsSound :
    (env : Env) (newsize : ℕ) (i : Inode)
    → IsSound i
    → i.size ≤ last_offset
    → length i.chain + 1 < u32_mod
    → IsSound (pado_truncate env newsize i).0
pado_truncate-IsSound env newsize i s t few =
    let (o, g) = pado_truncate-Runs env newsize i s.spots s.holds t s.owned few in
    record {
      spots = _;
      holds = pado_truncate-Holds env newsize i s.spots s.holds t;
      owned = o;
      alive = g ∙ s.alive;
    }

pub pado_clone-IsSound :
    (env : Env) (ss : List Segment) (start stop : ℕ) (i : Inode)
    → IsSound i
    → IsUp env
    → start < stop
    → stop ≤ last_offset
    → AreInOrder start start stop ss
    → length i.chain + length ss + 1 < u32_mod
    → IsSound (pado_clone env ss start stop i).0
pado_clone-IsSound env ss start stop i s u l t h few =
    let (o, g) = pado_clone-Runs env ss start stop i s.spots s.holds u l t h s.owned few in
    let c = clone_extents-Cloned env start start stop ss i u t (table-Below i.chain i s.owned) h in
    record {
      spots = _;
      holds = pado_clone-Holds env ss start stop i s.spots s.holds c t;
      owned = o;
      alive = g ∙ s.alive;
    }

pub remove_dobject-IsSound :
    (env : Env) (o : Option ℕ) (b : Bool) (i : Inode)
    → IsSound i
    → IsSound (remove_dobject env o b i).0
unfolding remove_dobject
remove_dobject-IsSound env none b i s = s
remove_dobject-IsSound env (some d) b i s =
    let (h, w) = remove_dobject-Holds env d b i s.spots s.holds s.owned in
    record { spots = _; holds = h; owned = w.0; alive = w.1 ∙ s.alive }
