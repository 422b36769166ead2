-- ===== src/Tests/Reads.antt =====
-- Reads of one layout: two extents behind a hole.
use pado_fs.Base.{
  ℕ, ◌-◌, ◌≤◌, ◌<◌, ◌≡◌, refl, true, false, none, some, [], ◌∷◌, ◌==◌, arith, if◌then◌else◌, min,
}
use pado_fs.Base.Distinct.{head?}
use pado_fs.Base.Word.{add64, sub64}
use pado_fs.Tree.{leaf, node}
use pado_fs.Inode.{Inode}
use pado_fs.Layout.{find_start_extent, end_of}
use pado_fs.Layout.Sorted.{drop_ended}
use pado_fs.Layout.Find.{find_start_extent-head}
use pado_fs.Layout.Valid.{IsLayout}
use pado_fs.Read.{pado_read}
use pado_fs.Read.Fetch.{fetch, lookup}
use pado_fs.Read.Holes.{where_is, Tiles}
use pado_fs.Read.Clone.{source, pado_read-clone, pado_read-hole}

-- [10, 20) in the object 7 of host 1, [20, 25) in the object 8 of host 2.
abbrev pub sample : Inode
sample = record {
  ino = 5;
  size = 40;
  atime = 0;
  mtime = 0;
  version = 2;
  flags = 0;
  refcount = 0;
  num_exts = 2;
  flayout = node leaf 0 2 (node leaf 1 1 leaf);
  chain = 0 ∷ 1 ∷ [];
  exts = λ x.
      if x == 0
      then record { dobj = 0; off_f = 10; off_do = 100; length = 10 }
      else record { dobj = 1; off_f = 20; off_do = 0; length = 5 };
  next_ext = 2;
  do_map = 0 ∷ 1 ∷ [];
  dobs = λ d.
      if d == 0
      then record { host_id = 1; loid = 7; refs = 0 ∷ []; num_refs = 1 }
      else if d == 1
      then record { host_id = 2; loid = 8; refs = 1 ∷ []; num_refs = 1 }
      else record { host_id = 0; loid = 0; refs = []; num_refs = 0 };
  next_dob = 2;
  sent = [];
  halted = false;
}

pub sample-IsLayout : IsLayout sample
sample-IsLayout = record {
  order = refl;
  avl = (tt, (tt, tt, refl, omega arith, omega arith), refl, omega arith, omega arith);
  distinct = (refl, (refl, tt));
  sorted = omega arith;
}

find_start_extent-head_example :
    find_start_extent sample.exts sample.chain 22 sample.flayout
    ≡ head? (drop_ended sample.exts 22 sample.chain)
find_start_extent-head_example =
    find_start_extent-head sample.exts sample.chain 22 sample.flayout sample-IsLayout.distinct
      sample-IsLayout.sorted refl

pado_read-clone_example :
    Tiles 0 (min 30 40 - 4) (pado_read sample true 4 30).0
    × ((p : ℕ)
        → 4 ≤ p
        → p < min 30 40
        → fetch (pado_read sample true 4 30).0 (p - 4)
          ≡ some (where_is (source sample true 30) sample.chain p))
pado_read-clone_example = pado_read-clone sample sample-IsLayout 4 30 (omega arith) (omega arith)

from_start : drop_ended sample.exts 4 sample.chain ≡ 0 ∷ 1 ∷ []
unfolding drop_ended end_of add64
from_start = refl

pado_read-hole_example :
    (lookup sample.exts sample.dobs sample.chain 4 ≡ none)
    × (fetch (pado_read sample false 4 30).0 4
        ≡ some (record { hid = 1; loid = 7; at = add64 100 (sub64 4 10) }))
pado_read-hole_example =
    pado_read-hole sample sample-IsLayout 4 30 (omega arith) 0 (1 ∷ []) from_start (omega arith)
      (omega arith) (omega arith)
