-- ===== src/Container.antt =====
-- The inodes of a server (incont.c: `inode_map`, `create_inode`, `acquire_inode`, `free_inode`,
-- `release_inode`, `delete_inode`, `stageout`, `stageout_all`, `do_backup`; inserver.c:
-- `do_restore`), in the build without a mapping server. A pointer to an inode is a number, never
-- used twice; `inode_map` lists them in order of insertion. The lock `imlock` and the locks
-- `alive` guard against other threads only and leave no trace: `free_inode` asks for the write lock
-- `alive` twice, and the second call, by the thread that has it, is taken to be refused (EDEADLK);
-- the code looks at the answer of neither.
pub mod Invariant
pub mod Restored
pub mod Recovered
pub mod Drained
pub mod Deleted
pub mod Safe
use pado_fs.Base.{
  ℕ, zero, suc, ◌+◌, Bool, true, false, not, ◌||◌, ◌&&◌, Option, none, some, List, [], ◌∷◌, ◌++◌,
  ◌==◌, ltb, if◌then◌else◌,
}
use pado_fs.Base.Distinct.{erase}
use pado_fs.Codes.{
  Ret, code, minus, success, already_created, failed, dos_fail, dos_con_error, move_shared_base,
  drain_shared, drain_do,
}
use pado_fs.Tree.{is_leaf}
use pado_fs.Inode.{
  Inode, Env, update, new_inode, is_deleted, is_shared, set_deleted, unset_shared, assert,
}
use pado_fs.Inode.Extents.{
  request, acquire_dobject, or_new, remove_dobject, read_dobject, check_dobject,
}
use pado_fs.Layout.{pado_write}
use pado_fs.Read.{Saved, Whole, pado_getinode_all}

pub record Container : Type 0 where
  pub inodes : ℕ → Inode
  pub inode_map : List ℕ
  pub next : ℕ
  -- A failed `assert` of `free_inode`.
  pub dead : Bool

abbrev pub set_inode : ℕ → Inode → Container → Container
set_inode h i c = record c { inodes = update c.inodes h i }

-- `HASH_FIND` in `inode_map`
unfoldable pub find_inode : (ℕ → Inode) → ℕ → List ℕ → Option ℕ
find_inode f ino [] = none
find_inode f ino (h ∷ hs) = if (f h).ino == ino then some h else find_inode f ino hs

-- `create_inode`: the inode, the result, and the container.
unfoldable pub create_inode : (ino size : ℕ) → Container → Container × ℕ × Ret
create_inode ino size c =
    let h = c.next in
    let add = λ (hs : List ℕ).
      let c' : Container = record c {
        inodes = update c.inodes h (new_inode ino size);
        inode_map = hs ++ h ∷ [];
        next = h + 1;
      } in
      c' in
    elim (find_inode c.inodes ino c.inode_map) [
      | none ↦ (add c.inode_map, h, code success)
      | some old ↦
          if is_deleted (c.inodes old)
          then (add (erase old c.inode_map), h, code success)
          else (c, old, minus already_created)
    ]

-- `acquire_inode`
unfoldable pub acquire_inode : ℕ → Container → Option ℕ
acquire_inode ino c = find_inode c.inodes ino c.inode_map

-- `free_inode`
unfoldable pub free_inode : ℕ → Container → Container
free_inode h c =
    let i = c.inodes h in
    record c {
      inode_map = elim (find_inode c.inodes i.ino c.inode_map) [
        | none ↦ c.inode_map
        | some _ ↦ erase h c.inode_map
      ];
      dead = c.dead || not (is_leaf i.flayout && (i.num_exts == 0 && i.refcount == 0));
    }

-- `release_inode`: the flag says whether the inode is to be freed.
unfoldable pub release_inode : Inode → Inode × Bool
release_inode i =
    if ltb 0 i.refcount || (not (is_leaf i.flayout) || is_shared i)
    then (i, false)
    else (set_deleted i, true)

-- The loop of `delete_inode` over `do_map`.
unfoldable pub remove_dobjects : Env → List ℕ → Inode → Inode
remove_dobjects env [] i = i
remove_dobjects env (d ∷ ds) i = remove_dobjects env ds (remove_dobject env (some d) true i).0

-- `delete_inode`
unfoldable pub delete_inode : Env → Inode → Inode × Bool
delete_inode env i =
    let i₁ = remove_dobjects env i.do_map i in
    if is_shared i₁
    then (let (i₂, reply) = request env (move_shared_base i₁.ino i₁.ino) i₁ in
        elim reply [ none ↦ (i₂, false) | some _ ↦ release_inode (unset_shared i₂) ])
    else release_inode i₁

abbrev pub is_success : Ret → Bool
is_success (code success) = true
is_success _ = false

-- The requests to the servers of all data objects: whether each could be connected, and how many
-- did not reply with success.
unfoldable pub drain_objects : Env → List ℕ → Inode → Inode × Option ℕ
drain_objects env [] i = (i, some 0)
drain_objects env (d ∷ ds) i =
    let o = i.dobs d in
    let (i', reply) =
      request env (drain_do o.host_id o.loid (read_dobject (some d) i).0)
        (assert (check_dobject o) i) in
    let (i'', rest) = drain_objects env ds i' in
    elim reply [
      | none ↦ (i', none)
      | some r ↦
          (i'', elim rest [ none ↦ none | some n ↦ some (if is_success r then n else n + 1) ])
    ]

-- The second half of `stageout`.
unfoldable pub stageout_objects : Env → Inode → Inode × Ret
stageout_objects env i =
    let (i', fail) = drain_objects env i.do_map i in
    elim fail [
      | none ↦ (i', minus dos_con_error)
      | some n ↦ (set_deleted i', if ltb 0 n then minus dos_fail else code success)
    ]

-- `stageout`
unfoldable pub stageout : Env → Inode → Inode × Ret
stageout env i =
    if is_shared i
    then (let (i', reply) = request env (drain_shared i.ino) i in
        elim reply [
          | none ↦ (i', minus dos_con_error)
          | some r ↦
              if is_success r then stageout_objects env (unset_shared i') else (i', minus dos_fail)
        ])
    else stageout_objects env i

-- `stageout_all`
unfoldable pub stageout_list : Env → List ℕ → Container → Container
stageout_list env [] c = c
stageout_list env (h ∷ hs) c = stageout_list env hs (set_inode h (stageout env (c.inodes h)).0 c)

unfoldable pub stageout_all : Env → Container → Container
stageout_all env c = stageout_list env c.inode_map c

-- One inode in a backup file: its number, then what `pado_getinode_all` writes.
pub record Backup : Type 0 where
  pub ino : ℕ
  pub whole : Whole

-- `do_backup`
unfoldable pub backup_list : (ℕ → Inode) → List ℕ → List Backup
backup_list f [] = []
backup_list f (h ∷ hs) =
    let rest = backup_list f hs in
    if is_deleted (f h)
    then rest
    else record { ino = (f h).ino; whole = pado_getinode_all (some (f h)) } ∷ rest

unfoldable pub do_backup : Container → List Backup
do_backup c = backup_list c.inodes c.inode_map

-- The `ne` extents that follow in the file. Where there are fewer or more, the reads behind them are
-- out of step with what was written, and the model goes no further.
unfoldable pub read_extents : ℕ → List Saved → Option (List Saved)
read_extents zero [] = some []
read_extents zero (s ∷ ss) = none
read_extents (suc ne) [] = none
read_extents (suc ne) (s ∷ ss) = elim (read_extents ne ss) [
  | none ↦ none
  | some rest ↦ some (s ∷ rest)
]

-- The rounds of the loop of `do_restore` over the extents of one inode.
unfoldable pub restore_extents : Env → List Saved → Inode → Inode
restore_extents env [] i = i
restore_extents env (s ∷ ss) i =
    let (i', d) = acquire_dobject env s.hid s.loid or_new i in
    restore_extents env ss (pado_write env d s.off_f s.off_do s.length i').0

unfoldable pub restore_one : Env → Backup → Container → Option Container
restore_one env b c =
    let m = b.whole.fields in
    let (c', h, ret) = create_inode b.ino m.size c in
    let i = record (c'.inodes h) {
      flags = m.flags;
      atime = m.atime;
      mtime = m.mtime;
      refcount = 0;
      version = m.version;
    } in
    elim (read_extents b.whole.num b.whole.extents) [
      | none ↦ none
      | some ss ↦ some (set_inode h (restore_extents env ss i) c')
    ]

-- `do_restore`
unfoldable pub do_restore : Env → List Backup → Container → Option Container
do_restore env [] c = some c
do_restore env (b ∷ bs) c = elim (restore_one env b c) [
  | none ↦ none
  | some c' ↦ do_restore env bs c'
]

abbrev pub empty_container : Container
empty_container = record { inodes = λ _. new_inode 0 0; inode_map = []; next = 0; dead = false }
