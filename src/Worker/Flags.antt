-- ===== src/Worker/Flags.antt =====
-- The drain lock and the reference count over several requests.
use pado_fs.Base.{ℕ, ◌+◌, ◌-◌, ◌≡◌, refl, ap, ◌∙◌, Bool, true, false, not, ◌&&◌, arith, ◌==◌}
use pado_fs.Codes.{code, minus, success, is_dlocked}
use pado_fs.Tree.{is_leaf}
use pado_fs.Inode
use pado_fs.Inode.{Inode, Env, bit, set_bit, clear_bit, is_shared, shared, deleted, dlocked}
use pado_fs.Inode.Extents.{acquire_dobject, existing}
use pado_fs.Container.{release_inode}
use pado_fs.Worker.{
  read_inode_meta, read_dobj, release_drain_lock, unref, on_inode, on_unref, on_read_meta,
  on_read_dobj, on_release_drain_lock, then_release,
}

-- The three flags are independent bits.
pub bit-set_bit :
    (n : ℕ)
    → (bit 4 (set_bit 4 n) ≡ true)
      × (bit 2 (set_bit 4 n) ≡ bit 2 n)
      × (bit 1 (set_bit 4 n) ≡ bit 1 n)
bit-set_bit n = (ground arith, ground arith, ground arith)

pub bit-clear_bit :
    (n : ℕ)
    → (bit 4 (clear_bit 4 n) ≡ false)
      × (bit 2 (clear_bit 4 n) ≡ bit 2 n)
      × (bit 1 (clear_bit 4 n) ≡ bit 1 n)
bit-clear_bit n = (ground arith, ground arith, ground arith)

-- An inode is not in use: what `release_inode` asks for.
abbrev pub is_unused : Inode → Bool
is_unused i = i.refcount == 0 && (is_leaf i.flayout && not (is_shared i))

close_result :
    (i : Inode)
    → Inode.is_deleted i ≡ false
    → let r = then_release (code success) i in
      (r.ret ≡ code success)
      × (r.inode.refcount ≡ i.refcount)
      × (r.free ≡ is_unused i)
      × (Inode.is_deleted r.inode ≡ is_unused i)
      × (r.inode.flayout ≡ i.flayout)
unfolding release_inode
close_result i d = (refl, ground arith, ground arith, ground arith, ground arith)

on_read_meta-opens :
    (i : Inode)
    → Inode.is_deleted i ≡ false
    → (on_read_meta 1 i).inode ≡ record i { refcount = i.refcount + 1 }
unfolding on_read_meta
on_read_meta-opens i d = rw d

on_unref-opened :
    (i : Inode)
    → Inode.is_deleted i ≡ false
    → on_unref (record i { refcount = i.refcount + 1 }) ≡ then_release (code success) i
unfolding on_unref
on_unref-opened i d =
    let z : (i.refcount + 1 == 0) ≡ false = ground arith in
    let m : i.refcount + 1 - 1 ≡ i.refcount = omega arith in
    rw (d, z) (ap (λ n. then_release (code success) (record i { refcount = n })) m)

-- Opening an inode that is not deleted (`READ_INODE_META` with flag 1) and then closing it
-- (`UNREF`) succeeds and gives back the count and the tree; the inode is then marked deleted, and
-- to be freed, exactly when nothing else uses it.
pub open-close :
    (env env' : Env) (i : Inode)
    → Inode.is_deleted i ≡ false
    → let r = on_inode env' unref (on_inode env (read_inode_meta 1) i).inode in
      (r.ret ≡ code success)
      × (r.inode.refcount ≡ i.refcount)
      × (r.free ≡ is_unused i)
      × (Inode.is_deleted r.inode ≡ is_unused i)
      × (r.inode.flayout ≡ i.flayout)
unfolding on_inode on_unref on_read_meta release_inode
open-close env env' i d =
    rw (ap on_unref (on_read_meta-opens i d) ∙ on_unref-opened i d) (close_result i d)

acquire_dobject-flags :
    (env : Env) (hid loid : ℕ) (i : Inode)
    → (acquire_dobject env hid loid existing i).0.flags ≡ i.flags
unfolding acquire_dobject
acquire_dobject-flags env hid loid i = ground arith

on_read_dobj-locks :
    (env : Env) (hid loid : ℕ) (i : Inode)
    → Inode.is_deleted i ≡ false
    → is_shared i ≡ false
    → (on_read_dobj env hid loid i).inode.flags ≡ set_bit 4 i.flags
unfolding on_read_dobj
on_read_dobj-locks env hid loid i d s = let e = acquire_dobject-flags env hid loid i in ground arith

on_read_dobj-locked :
    (env : Env) (hid loid : ℕ) (i : Inode)
    → Inode.is_deleted i ≡ false
    → is_shared i ≡ false
    → Inode.is_dlocked i ≡ true
    → ((on_read_dobj env hid loid i).ret ≡ minus is_dlocked)
      × ((on_read_dobj env hid loid i).inode.flags ≡ i.flags)
unfolding on_read_dobj
on_read_dobj-locked env hid loid i d s l =
    let e = acquire_dobject-flags env hid loid i in (ground arith, ground arith)

on_release-free :
    (i : Inode) → bit 2 (clear_bit 4 i.flags) ≡ false → (on_release_drain_lock i).ret ≡ code success
unfolding on_release_drain_lock
on_release-free i h = rw h

-- On an inode that is neither deleted nor a clone's base, `READ_DOBJ` takes the drain lock; while
-- it is held another `READ_DOBJ` answers `-IS_DLOCKED` and changes no flag, and
-- `RELEASE_DRAIN_LOCK` succeeds and leaves it free.
pub drain_lock :
    (env env' : Env) (hid loid hid' loid' : ℕ) (i : Inode)
    → Inode.is_deleted i ≡ false
    → is_shared i ≡ false
    → let i' = (on_inode env (read_dobj hid loid) i).inode in
      (Inode.is_dlocked i' ≡ true)
      × ((on_inode env' (read_dobj hid' loid') i').ret ≡ minus is_dlocked)
      × ((on_inode env' (read_dobj hid' loid') i').inode.flags ≡ i'.flags)
      × (Inode.is_dlocked (on_inode env' release_drain_lock i').inode ≡ false)
      × ((on_inode env' release_drain_lock i').ret ≡ code success)
unfolding on_inode on_read_dobj on_release_drain_lock
drain_lock env env' hid loid hid' loid' i d s =
    let i' = (on_read_dobj env hid loid i).inode in
    let e = on_read_dobj-locks env hid loid i d s in
    let b = bit-set_bit i.flags in
    let l : Inode.is_dlocked i' ≡ true = ap (bit 4) e ∙ b.0 in
    let d' : Inode.is_deleted i' ≡ false = ap (bit 2) e ∙ (b.1 ∙ d) in
    let s' : is_shared i' ≡ false = ap (bit 1) e ∙ (b.2 ∙ s) in
    let c = bit-clear_bit i'.flags in
    let (r, f) = on_read_dobj-locked env' hid' loid' i' d' s' l in
    (l, r, f, c.0, on_release-free i' (c.1 ∙ d'))
