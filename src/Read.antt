-- ===== src/Read.antt =====
-- What the server sends of an inode (incont.c: `pado_read`, `pado_getinode_meta`,
-- `pado_getinode_all`). `cur` is the list from that extent on, `NULL` the empty list.
pub mod Fetch
pub mod Holes
pub mod Clone
pub mod Rounds
pub mod Served
pub mod Copied
use pado_fs.Base.{
  ℕ, zero, suc, ◌+◌, ◌*◌, Bool, true, false, ◌&&◌, Option, none, some, List, [], ◌∷◌, map, ◌==◌,
  leb, ltb, min, max, length, if◌then◌else◌,
}
use pado_fs.Base.Word.{add64, sub64}
use pado_fs.Codes.{Ret, code, minus, success, invalid_range, base_cloned, invalid_ino}
use pado_fs.Inode.{Extent, Dobject, Inode}
use pado_fs.Layout.{Segment, end_of, find_start_extent}

-- The list from the extent `x` on.
unfoldable pub from_extent : ℕ → List ℕ → List ℕ
from_extent x [] = []
from_extent x (y ∷ ys) = if x == y then y ∷ ys else from_extent x ys

abbrev pub from_pointer : Option ℕ → List ℕ → List ℕ
from_pointer none ys = []
from_pointer (some x) ys = from_extent x ys

-- What the rounds of the loop read: extents, data objects, `flag`, `bino` (without a mapping
-- server the number of the inode), and `end`.
pub record Source : Type 0 where
  pub exts : ℕ → Extent
  pub dobs : ℕ → Dobject
  pub flag : Bool
  pub bino : ℕ
  pub stop : ℕ

abbrev pub hole : Source → (off_f stop offset : ℕ) → Segment
hole c off_f stop offset = record {
  hid = 0;
  loid = c.bino;
  offset = offset;
  off_do = off_f;
  length = sub64 stop off_f;
}

-- The second branch. `diff` is unsigned, so `MAX(off_f - cur->off_f, 0)` is the difference as it
-- wraps round.
abbrev pub mapped : Source → ℕ → (off_f offset : ℕ) → Segment
mapped c x off_f offset =
    let e = c.exts x in
    let o = c.dobs e.dobj in
    record {
      hid = o.host_id;
      loid = o.loid;
      offset = offset;
      off_do = add64 e.off_do (max (sub64 off_f e.off_f) 0);
      length = sub64 (min c.stop (end_of e)) off_f;
    }

-- The loop, with the value of `base_cloned` behind the segments. A round sends a hole or goes on
-- to the next extent, so twice as many rounds as extents and two more are enough.
unfoldable pub read_loop : Source → ℕ → List ℕ → (off_f offset : ℕ) → List Segment × Bool
read_loop c zero cur off_f offset = ([], false)
read_loop c (suc fuel) [] off_f offset =
    let s = hole c off_f c.stop offset in
    let rest = read_loop c fuel [] (add64 off_f s.length) (add64 offset s.length) in
    if ltb off_f c.stop && (c.flag && ltb off_f c.stop) then (s ∷ rest.0, true) else ([], false)
read_loop c (suc fuel) (x ∷ xs) off_f offset =
    let e = c.exts x in
    let next_off = min c.stop e.off_f in
    let s = hole c off_f next_off offset in
    let m = mapped c x off_f offset in
    let rest_hole = read_loop c fuel (x ∷ xs) (add64 off_f s.length) (add64 offset s.length) in
    let rest_mapped = read_loop c fuel xs (add64 off_f m.length) (add64 offset m.length) in
    if ltb off_f c.stop
    then (if c.flag && ltb off_f next_off
        then (s ∷ rest_hole.0, true)
        else if ltb e.off_f c.stop
        then (m ∷ rest_mapped.0, rest_mapped.1)
        else ([], false))
    else ([], false)

-- `pado_read`: the segments sent before the terminator, and the result.
unfoldable pub pado_read : Inode → (flag : Bool) → (start stop : ℕ) → List Segment × Ret
pado_read i flag start stop =
    let stop' = min stop i.size in
    let c : Source = record {
      exts = i.exts;
      dobs = i.dobs;
      flag = flag;
      bino = i.ino;
      stop = stop';
    } in
    let cur = from_pointer (find_start_extent i.exts i.chain start i.flayout) i.chain in
    let (ss, cloned) = read_loop c (2 * length i.chain + 2) cur start (if flag then 0 else start) in
    if leb stop' start
    then ([], minus invalid_range)
    else (ss, if cloned then minus base_cloned else code success)

-- The words of `pado_getinode_meta`.
pub record Meta : Type 0 where
  pub size : ℕ
  pub atime : ℕ
  pub mtime : ℕ
  pub version : ℕ
  pub flags : ℕ

-- `pado_getinode_meta`; zeros stand for an inode that is not there.
unfoldable pub pado_getinode_meta : Option Inode → Meta × Ret
pado_getinode_meta none =
    (record { size = 0; atime = 0; mtime = 0; version = 0; flags = 0 }, minus invalid_ino)
pado_getinode_meta (some i) = (
  record { size = i.size; atime = i.atime; mtime = i.mtime; version = i.version; flags = i.flags },
  code success,
)

-- One extent as `pado_getinode_all` sends it.
pub record Saved : Type 0 where
  pub hid : ℕ
  pub loid : ℕ
  pub off_f : ℕ
  pub off_do : ℕ
  pub length : ℕ

abbrev pub saved : Inode → ℕ → Saved
saved i x =
    let e = i.exts x in
    let o = i.dobs e.dobj in
    record { hid = o.host_id; loid = o.loid; off_f = e.off_f; off_do = e.off_do; length = e.length }

-- `pado_getinode_all`: the fields, `num_exts` as sent, the extents, the result.
pub record Whole : Type 0 where
  pub fields : Meta
  pub num : ℕ
  pub extents : List Saved
  pub ret : Ret

unfoldable pub pado_getinode_all : Option Inode → Whole
pado_getinode_all none = record {
  fields = (pado_getinode_meta none).0;
  num = 0;
  extents = [];
  ret = minus invalid_ino;
}
pado_getinode_all (some i) = record {
  fields = (pado_getinode_meta (some i)).0;
  num = i.num_exts;
  extents = map (saved i) (from_pointer (find_start_extent i.exts i.chain 0 i.flayout) i.chain);
  ret = code success;
}
