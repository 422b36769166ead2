-- ===== src/Worker/Places.antt =====
-- The requests `WRITE` and `TRUNCATE` of `worker_thread` (inserver.c): where the positions of the
-- file are kept afterwards.
use pado_fs.Base.{ℕ, ◌+◌, ◌≤◌, ◌<◌, ◌≡◌, refl, false, Option, none}
use pado_fs.Codes.{code, success}
use pado_fs.Inode
use pado_fs.Inode.{Inode, Env}
use pado_fs.Layout.{pado_write, pado_truncate}
use pado_fs.Layout.Spots.{last_offset, Where}
use pado_fs.Layout.Put.{put}
use pado_fs.Layout.Places.{
  in_object, Serves, write_place-Serves, pado_truncate-Serves, acquire_dobject-Acquired,
}
use pado_fs.Worker.{on_inode, write, truncate, Handled}

-- What a request that succeeds leaves.
pub record IsServed (want : ℕ → Option Where) (h : Handled) : Type 0 where
  pub ret : h.ret ≡ code success
  pub stays : h.free ≡ false
  pub serves : Serves want h.inode

-- A `WRITE` request of at least one byte that ends at 2 ^ 64 - 1 at most, for an inode that is
-- not deleted and whose layout keeps each position at the host, object and position that `want`
-- says: it answers `SUCCESS`, does not free the inode, and afterwards the layout keeps the
-- positions of the range in the object of the request, from `off_do` on, and every other position
-- where it was.
pub write-IsServed :
    (env : Env) (hid loid off_f off_do len : ℕ) (i : Inode) (want : ℕ → Option Where)
    → Serves want i
    → Inode.is_deleted i ≡ false
    → 0 < len
    → off_f + len ≤ last_offset
    → IsServed
        (put off_f (off_f + len) (in_object hid loid off_f off_do) want)
        (on_inode env (write hid loid off_f off_do len) i)
unfolding on_inode pado_write
write-IsServed env hid loid off_f off_do len i want s d l h =
    let a = acquire_dobject-Acquired env hid loid i want s in
    rw (d, on_inode)
      (record {
        ret = rw (a.given, pado_write) refl;
        stays = refl;
        serves = write_place-Serves env hid loid off_f off_do len i want s l h;
      })

-- A `TRUNCATE` request for an inode that is not deleted, of at most 2 ^ 64 - 1 bytes, and whose
-- layout keeps each position at the host, object and position that `want` says: it answers
-- `SUCCESS`, does not free the inode, and afterwards the layout keeps the positions from the new
-- size to the old one nowhere and every other position where it was.
pub truncate-IsServed :
    (env : Env) (off_f : ℕ) (i : Inode) (want : ℕ → Option Where)
    → Serves want i
    → Inode.is_deleted i ≡ false
    → i.size ≤ last_offset
    → IsServed (put off_f i.size (λ p. none) want) (on_inode env (truncate off_f) i)
unfolding on_inode pado_truncate
truncate-IsServed env off_f i want s d h =
    rw (d, on_inode)
      (record { ret = refl; stays = refl; serves = pado_truncate-Serves env off_f i want s h })
