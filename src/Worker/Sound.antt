-- ===== src/Worker/Sound.antt =====
-- The requests of `worker_thread` (inserver.c) on an inode in order: every one leaves it in order,
-- and no assertion fails.
use pado_fs.Base.{
  ◌+◌, ◌-◌, ◌≤◌, ◌<◌, ◌≡◌, sym, ap, subst, Bool, true, not, ◌&&◌, arith, length, ltb, ◌==◌,
  if◌then◌else◌, if-elim,
}
use pado_fs.Base.Word.{u32_mod, add64, add64_lem}
use pado_fs.Codes.{Ret}
use pado_fs.Inode
use pado_fs.Inode.{Inode, Env, is_shared}
use pado_fs.Read.{pado_read}
use pado_fs.Inode.Extents.{existing, or_new, acquire_dobject}
use pado_fs.Layout.{pado_clone}
use pado_fs.Layout.Spots.{last_offset}
use pado_fs.Layout.Cloned.{AreInOrder}
use pado_fs.Layout.Acquired.{IsUp}
use pado_fs.Layout.Sound.{IsSound}
use pado_fs.Layout.Steady.{
  acquire_dobject-IsSound, pado_write-IsSound, pado_truncate-IsSound, pado_clone-IsSound,
  remove_dobject-IsSound,
}
use pado_fs.Container.Deleted.{
  flags-IsSound, IsFreeable, release_inode-Released, delete_inode-Released,
}
use pado_fs.Worker.{
  Command, write, truncate, read_layout, clone_to, read_inode_meta, read_inode_whole, read_dobj,
  release_drain_lock, remove_dobj, get_inode_dobj, create_open_inode, delete_inode, unref, other,
  Handled, Body, nothing, zero_meta, is_base_cloned, on_read_layout, on_read_meta, on_read_whole,
  on_read_dobj, on_release_drain_lock, on_remove_dobj, on_delete_inode, on_unref, answer, on_inode,
  unless_deleted, then_release,
}

-- What a request has to be. The ranges of writes and clones are not empty and end at 2 ^ 64 - 1 at
-- most, and so does the file that is truncated; a clone's segments follow one another, none empty,
-- none of host 0 and object 0, each beginning in the range, and the data object servers can be
-- connected for it; and there is room for the new extents in the counter of extents.
unfoldable pub Fits : Env → Command → Inode → Type 0
Fits env (write hid loid off_f off_do len) i =
    (0 < len) × (off_f + len ≤ last_offset) × (length i.chain + 2 < u32_mod)
Fits env (truncate off_f) i = (i.size ≤ last_offset) × (length i.chain + 1 < u32_mod)
Fits env (clone_to off_f len ss) i =
    IsUp env
    × (0 < len)
    × (off_f + len ≤ last_offset)
    × AreInOrder off_f off_f (off_f + len) ss
    × (length i.chain + length ss + 1 < u32_mod)
Fits env _ i = Unit

-- What a request leaves; it gives up only what `free_inode` accepts.
pub record Kept (h : Handled) : Type 0 where
  pub sound : IsSound h.inode
  pub freeable : h.free ≡ true → IsFreeable h.inode

kept : (i : Inode) (b : Body) (r : Ret) → IsSound i → Kept (answer i b r)
kept i b r s = record { sound = s; freeable = λ e. cc }

guarded-Kept :
    (i : Inode) (b : Body) (h : Handled) → IsSound i → Kept h → Kept (unless_deleted i b h)
guarded-Kept i b h s k = if-elim Kept (Inode.is_deleted i) (λ _. kept i b _ s) (λ _. k)

newer-Kept :
    (i j : Inode) (c : Bool) (b b' b'' : Body) (r r' : Ret)
    → IsSound i
    → IsSound j
    → Kept (unless_deleted i b (if c then answer i b' r else answer j b'' r'))
newer-Kept i j c b b' b'' r r' s t =
    guarded-Kept i b _ s (if-elim Kept c (λ _. kept i b' r s) (λ _. kept j b'' r' t))

then_release-Kept : (r : Ret) (i : Inode) → IsSound i → Kept (then_release r i)
then_release-Kept r i s =
    let k = release_inode-Released i s in record { sound = k.sound; freeable = k.freeable }

-- A request that fits, on an inode in order: the inode that it leaves is in order, no assertion has
-- failed, and if it is to be freed, the assertions of `free_inode` hold.
pub on_inode-Kept :
    (env : Env) (cmd : Command) (i : Inode) → IsSound i → Fits env cmd i → Kept (on_inode env cmd i)
unfolding on_inode on_read_layout on_read_meta on_read_whole on_read_dobj on_release_drain_lock
    on_remove_dobj on_delete_inode on_unref Fits
on_inode-Kept env (write hid loid off_f off_do len) i s (h, t, few) =
    let r = acquire_dobject env hid loid or_new i in
    let (a, g, c) = acquire_dobject-IsSound env hid loid or_new i s in
    guarded-Kept i nothing _ s (
      kept _ _ _ (
        pado_write-IsSound env r.1 off_f off_do len r.0 a g h t
          (let e = ap length c in omega arith)))
on_inode-Kept env (truncate off_f) i s (t, few) =
    guarded-Kept i nothing _ s (kept _ _ _ (pado_truncate-IsSound env off_f i s t few))
on_inode-Kept env (read_layout off_f len flags) i s f =
    let (ss, r) = pado_read i (not (flags == 0)) off_f (add64 off_f len) in
    guarded-Kept i nothing _ s (
      if-elim Kept (is_base_cloned r) (λ _. kept _ _ _ (flags-IsSound _ i.refcount i s))
        (λ _. kept i _ _ s))
on_inode-Kept env (clone_to off_f len ss) i s (u, h, t, o, few) =
    let n = add64_lem off_f len (omega arith) in
    guarded-Kept i nothing _ s (
      kept _ _ _ (
        subst (λ m. IsSound (pado_clone env ss off_f m i).0) (sym n)
          (pado_clone-IsSound env ss off_f (off_f + len) i s u (omega arith) t o few)))
on_inode-Kept env (read_inode_meta flags) i s f =
    let s' = flags-IsSound i.flags (i.refcount + 1) i s in
    if-elim Kept (flags == 1) (λ _. guarded-Kept i zero_meta _ s (kept _ _ _ s'))
      (λ _.
        if-elim Kept (flags == 0) (λ _. guarded-Kept i zero_meta _ s (kept i _ _ s))
          (λ _. kept i _ _ s))
on_inode-Kept env (read_inode_whole flags ver) i s f =
    let s' = flags-IsSound i.flags (i.refcount + 1) i s in
    if-elim Kept (flags == 1) (λ _. newer-Kept i _ _ _ _ _ _ _ s s')
      (λ _. if-elim Kept (flags == 0) (λ _. newer-Kept i i _ _ _ _ _ _ s s) (λ _. kept i _ _ s))
on_inode-Kept env (read_dobj hid loid) i s f =
    let j = (acquire_dobject env hid loid existing i).0 in
    let t = (acquire_dobject-IsSound env hid loid existing i s).0 in
    if-elim Kept (Inode.is_deleted j) (λ _. kept j _ _ t)
      (λ _.
        if-elim Kept (is_shared j) (λ _. kept j _ _ t)
          (λ _.
            if-elim Kept (Inode.is_dlocked j) (λ _. kept j _ _ t)
              (λ _. kept _ _ _ (flags-IsSound _ j.refcount j t))))
on_inode-Kept env release_drain_lock i s f = kept _ _ _ (flags-IsSound _ i.refcount i s)
on_inode-Kept env (remove_dobj hid loid flags) i s f =
    let r = acquire_dobject env hid loid existing i in
    let t = (acquire_dobject-IsSound env hid loid existing i s).0 in
    guarded-Kept i nothing _ s (
      if-elim Kept (hid == 0 && loid == 0)
        (λ _. then_release-Kept _ _ (flags-IsSound _ i.refcount i s))
        (λ _. then_release-Kept _ _ (remove_dobject-IsSound env r.1 (not (flags == 0)) r.0 t)))
on_inode-Kept env get_inode_dobj i s f = guarded-Kept i nothing _ s (kept i _ _ s)
on_inode-Kept env (create_open_inode size flags flags' at mt ver) i s f = kept i _ _ s
on_inode-Kept env delete_inode i s f =
    let k = delete_inode-Released env i s in
    guarded-Kept i nothing _ s (
      if-elim Kept (ltb 0 i.refcount) (λ _. kept i _ _ s)
        (λ _. record { sound = k.sound; freeable = k.freeable }))
on_inode-Kept env unref i s f = guarded-Kept i nothing _ s (
    if-elim Kept (i.refcount == 0) (λ _. then_release-Kept _ i s)
      (λ _. then_release-Kept _ _ (flags-IsSound i.flags (i.refcount - 1) i s)))
on_inode-Kept env other i s f = kept i _ _ s
