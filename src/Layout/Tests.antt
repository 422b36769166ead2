-- ===== src/Layout/Tests.antt =====
-- Runs of the layout operations on concrete inputs.
use pado_fs.Base.{ℕ, ◌≡◌, refl, false, some, List, [], ◌∷◌, map}
use pado_fs.Base.Word.{add64, sub64, inc32, dec32}
use pado_fs.Base.Distinct.{erase, next_of, prev_of, replace_with, insert_behind, insert_ahead}
use pado_fs.Codes.{code, success}
use pado_fs.Tree.{
  Tree, plug, rotate_left_heavy, rotate_right_heavy, adjust, rebalance, locate, substitute,
  hang_right, hang_left, detach,
}
use pado_fs.Inode.{Inode, Env}
use pado_fs.Inode.Extents.{
  request, create_extent, check_dobject, unref_extent, unlink_extent, remove_refs, remove_dobject,
  release_extent, remove_extent, check_extent, replace_extent, find_dobject, acquire_dobject,
  or_new,
}
use pado_fs.Layout.{
  end_of, descend, cut_inside, find_first, continues, merge_first, clear_range, insert_rest,
  merge_last, replace_in, replace, pado_write, pado_truncate, clone_extents, pado_clone,
  find_start_extent,
}

abbrev pub quiet : Env
quiet = record { now = 7; dos = λ _ _. some (code success) }

-- A `WRITE` request on one inode.
unfoldable pub write_at : (hid loid off_f off_do len : ℕ) → Inode → Inode
unfolding add64 sub64 inc32 dec32 erase next_of prev_of replace_with insert_behind insert_ahead plug
    rotate_left_heavy rotate_right_heavy adjust rebalance locate substitute hang_right hang_left
    detach request create_extent check_dobject unref_extent unlink_extent remove_refs remove_dobject
    release_extent remove_extent check_extent replace_extent find_dobject acquire_dobject end_of
    descend cut_inside find_first continues merge_first clear_range insert_rest merge_last
    replace_in replace pado_write pado_truncate clone_extents pado_clone find_start_extent
write_at hid loid off_f off_do len i =
    let (i', d) = acquire_dobject quiet hid loid or_new i in
    (pado_write quiet d off_f off_do len i').0

unfoldable pub summary : Inode → List (ℕ × ℕ × ℕ × ℕ)
summary i = map (λ x. let e = i.exts x in (e.dobj, e.off_f, e.off_do, e.length)) i.chain

abbrev empty : Inode
empty = record {
  ino = 5;
  size = 0;
  atime = 0;
  mtime = 0;
  version = 0;
  flags = 0;
  refcount = 0;
  num_exts = 0;
  flayout = Tree.leaf;
  chain = [];
  exts = λ _. record { dobj = 0; off_f = 0; off_do = 0; length = 0 };
  next_ext = 0;
  do_map = [];
  dobs = λ _. record { host_id = 0; loid = 0; refs = []; num_refs = 0 };
  next_dob = 0;
  sent = [];
  halted = false;
}

-- Two appends to one object merge.
append_merges : summary (write_at 1 9 10 10 5 (write_at 1 9 0 0 10 empty)) ≡ (0, 0, 0, 15) ∷ []
unfolding write_at summary
append_merges = refl

-- A write into an extent splits it.
write_splits :
    summary (write_at 2 9 4 0 2 (write_at 1 9 0 0 10 empty))
    ≡ (0, 0, 0, 4) ∷ (1, 4, 0, 2) ∷ (0, 6, 6, 4) ∷ []
unfolding write_at summary
write_splits = refl

three : Inode
unfolding write_at
three = write_at 3 9 20 0 10 (write_at 2 9 10 0 10 (write_at 1 9 0 0 10 empty))

-- A write over parts of two extents and over one whole extent, whose object goes.
write_over :
    (summary (write_at 4 9 5 0 20 three) ≡ (0, 0, 0, 5) ∷ (3, 5, 0, 20) ∷ (2, 25, 5, 5) ∷ [])
    × ((write_at 4 9 5 0 20 three).do_map ≡ 0 ∷ 2 ∷ 3 ∷ [])
    × ((write_at 4 9 5 0 20 three).halted ≡ false)
unfolding three summary
write_over = (refl, refl, refl)

-- A write of an extent's range takes its place, and passes `check_extent`.
write_replaces : (write_at 2 9 0 0 10 (write_at 1 9 0 0 10 empty)).halted ≡ false
unfolding write_at
write_replaces = refl
