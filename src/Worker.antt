-- ===== src/Worker.antt =====
-- `worker_thread` of inserver.c: one request on one connection, in the build without a mapping
-- server and with `NODP`, in which `print_inode` is not called after the request. The arguments
-- read from the connection come as a `Command`; what is written before the result is a `Body`. The
-- lock `rwlock` of each inode is in the state: a request that has to wait for it is `blocked`.
-- Other threads act between requests only, since every handler works under that lock.
pub mod Flags
pub mod Places
pub mod Sound
pub mod Safe
pub mod Answered
use pado_fs.Base.{
  ℕ, ◌+◌, ◌-◌, Bool, not, true, false, ◌||◌, ◌&&◌, Option, none, some, List, [], ◌∷◌, ◌==◌, ltb,
  leb, if◌then◌else◌,
}
use pado_fs.Base.Word.{add64}
use pado_fs.Codes.{
  Ret, code, minus, success, invalid_ino, is_deleted, is_uptodate, base_cloned, shared_base,
  is_dlocked, invalid_dobject, is_used, invalid_unref, invalid_command,
}
use pado_fs.Inode
use pado_fs.Inode.{Inode, Env, set_shared, unset_shared, set_dlocked, unset_dlocked, is_shared}
use pado_fs.Inode.Extents
use pado_fs.Inode.Extents.{acquire_dobject, or_new, existing, read_dobject, remove_dobject}
use pado_fs.Layout.{Segment, pado_write, pado_truncate, pado_clone}
use pado_fs.Read.{Meta, Whole, pado_read, pado_getinode_meta, pado_getinode_all}
use pado_fs.Container
use pado_fs.Container.{Container, create_inode, acquire_inode, free_inode, release_inode, set_inode}

-- A request: `com`, `tino` and what the case of the `switch` reads.
pub data Command : Type 0 where
  write : (hid loid off_f off_do len : ℕ) → Command
  truncate : (off_f : ℕ) → Command
  read_layout : (off_f len flags : ℕ) → Command
  clone_to : (off_f len : ℕ) → List Segment → Command
  read_inode_meta : (flags : ℕ) → Command
  read_inode_whole : (flags ver : ℕ) → Command
  read_dobj : (hid loid : ℕ) → Command
  release_drain_lock : Command
  remove_dobj : (hid loid flags : ℕ) → Command
  get_inode_dobj : Command
  create_open_inode : (size flags flags' at mt ver : ℕ) → Command
  delete_inode : Command
  unref : Command
  -- Any other `com`; `CREATE_INODE` too, which does not look the inode up.
  other : Command

-- What is written before the result.
pub data Body : Type 0 where
  nothing : Body
  segments : List Segment → Body
  fields : Meta → Body
  whole : Whole → Body
  mappings : (size : ℕ) → ℕ × List (ℕ × ℕ × ℕ) → Body
  addresses : List (ℕ × ℕ) → Body

-- What a handler makes of an inode: the inode, what is written, `ret`, `free`.
pub record Handled : Type 0 where
  pub inode : Inode
  pub body : Body
  pub ret : Ret
  pub free : Bool

abbrev pub answer : Inode → Body → Ret → Handled
answer i b r = record { inode = i; body = b; ret = r; free = false }

abbrev pub zero_meta : Body
zero_meta = fields (record { size = 0; atime = 0; mtime = 0; version = 0; flags = 0 })

unfoldable pub zero_whole : Body
unfolding pado_getinode_all
zero_whole = whole (pado_getinode_all none)

-- `IS_DELETED` first, as most cases have it.
abbrev pub unless_deleted : Inode → Body → Handled → Handled
unless_deleted i b h = if Inode.is_deleted i then answer i b (minus is_deleted) else h

-- `ret == -BASE_CLONED`
abbrev pub is_base_cloned : Ret → Bool
is_base_cloned (minus base_cloned) = true
is_base_cloned _ = false

-- `READ_LAYOUT`: the base file is shared from now on if a hole was sent to a clone.
unfoldable pub on_read_layout : (off_f len flags : ℕ) → Inode → Handled
on_read_layout off_f len flags i =
    let (ss, r) = pado_read i (not (flags == 0)) off_f (add64 off_f len) in
    unless_deleted i nothing (
      if is_base_cloned r
      then answer (set_shared i) (segments ss) (code success)
      else answer i (segments ss) r)

-- `READ_INODE_META`
unfoldable pub on_read_meta : (flags : ℕ) → Inode → Handled
on_read_meta flags i =
    let i' = record i { refcount = i.refcount + 1 } in
    if flags == 1
    then unless_deleted i zero_meta
        (answer i' (fields (pado_getinode_meta (some i')).0) (pado_getinode_meta (some i')).1)
    else if flags == 0
    then unless_deleted i zero_meta
        (answer i (fields (pado_getinode_meta (some i)).0) (pado_getinode_meta (some i)).1)
    else answer i nothing (code success)

-- `READ_INODE_WHOLE`
unfoldable pub on_read_whole : (flags ver : ℕ) → Inode → Handled
on_read_whole flags ver i =
    let i' = record i { refcount = i.refcount + 1 } in
    let newer = λ (j : Inode).
      let h : Handled = unless_deleted i zero_whole (
        if leb i.version ver
        then answer i zero_whole (minus is_uptodate)
        else answer j (whole (pado_getinode_all (some j))) (code success)) in
      h in
    if flags == 1 then newer i' else if flags == 0 then newer i else answer i nothing (code success)

-- `READ_DOBJ`: the mappings are sent in any case; the drain lock is taken if nothing forbids it.
unfoldable pub on_read_dobj : Env → (hid loid : ℕ) → Inode → Handled
on_read_dobj env hid loid i =
    let (i', d) = acquire_dobject env hid loid existing i in
    let (ms, r) = read_dobject d i' in
    let b = mappings i.size ms in
    if Inode.is_deleted i'
    then answer i' b (minus is_deleted)
    else if is_shared i'
    then answer i' b (minus shared_base)
    else if Inode.is_dlocked i'
    then answer i' b (minus is_dlocked)
    else answer (set_dlocked i') b r

-- `RELEASE_DRAIN_LOCK`
unfoldable pub on_release_drain_lock : Inode → Handled
on_release_drain_lock i =
    let i' = unset_dlocked i in
    answer i' nothing (if Inode.is_deleted i' then minus is_deleted else code success)

-- `free = release_inode(tinode)`
abbrev pub then_release : Ret → Inode → Handled
then_release r i =
    let (i', f) = release_inode i in record { inode = i'; body = nothing; ret = r; free = f }

-- `REMOVE_DOBJ`
unfoldable pub on_remove_dobj : Env → (hid loid flags : ℕ) → Inode → Handled
on_remove_dobj env hid loid flags i =
    let (i₁, d) = acquire_dobject env hid loid existing i in
    let (i₂, r) = remove_dobject env d (not (flags == 0)) i₁ in
    unless_deleted i nothing (
      if hid == 0 && loid == 0
      then then_release (if is_shared i then code success else minus invalid_dobject)
          (unset_shared i)
      else then_release r i₂)

-- `DELETE_INODE`
unfoldable pub on_delete_inode : Env → Inode → Handled
on_delete_inode env i =
    let (i', f) = Container.delete_inode env i in
    unless_deleted i nothing (
      if ltb 0 i.refcount
      then answer i nothing (minus is_used)
      else record { inode = i'; body = nothing; ret = code success; free = f })

-- `UNREF`: a count that would fall below 0 is set to 0.
unfoldable pub on_unref : Inode → Handled
on_unref i = unless_deleted i nothing (
    if i.refcount == 0
    then then_release (minus invalid_unref) i
    else then_release (code success) (record i { refcount = i.refcount - 1 }))

-- The cases of the `switch` for an inode that is there.
unfoldable pub on_inode : Env → Command → Inode → Handled
on_inode env (write hid loid off_f off_do len) i =
    let (i₁, d) = acquire_dobject env hid loid or_new i in
    let (i₂, r) = pado_write env d off_f off_do len i₁ in
    unless_deleted i nothing (answer i₂ nothing r)
on_inode env (truncate off_f) i =
    let (i', r) = pado_truncate env off_f i in unless_deleted i nothing (answer i' nothing r)
on_inode env (read_layout off_f len flags) i = on_read_layout off_f len flags i
on_inode env (clone_to off_f len ss) i =
    let (i', r) = pado_clone env ss off_f (add64 off_f len) i in
    unless_deleted i nothing (answer i' nothing r)
on_inode env (read_inode_meta flags) i = on_read_meta flags i
on_inode env (read_inode_whole flags ver) i = on_read_whole flags ver i
on_inode env (read_dobj hid loid) i = on_read_dobj env hid loid i
on_inode env release_drain_lock i = on_release_drain_lock i
on_inode env (remove_dobj hid loid flags) i = on_remove_dobj env hid loid flags i
on_inode env get_inode_dobj i =
    unless_deleted i nothing (answer i (addresses (Extents.get_inode_dobj i)) (code success))
on_inode env (create_open_inode size flags flags' at mt ver) i = answer i nothing (code success)
on_inode env delete_inode i = on_delete_inode env i
on_inode env unref i = on_unref i
on_inode env other i = answer i nothing (minus invalid_command)

-- The cases of the `switch` for an inode that is not there.
unfoldable pub on_missing : Command → Body × Ret
on_missing (read_layout off_f len flags) = (segments [], minus invalid_ino)
on_missing (read_inode_meta flags) = (zero_meta, minus invalid_ino)
on_missing (read_inode_whole flags ver) = (zero_whole, minus invalid_ino)
on_missing (read_dobj hid loid) = (mappings 0 (0, []), minus invalid_ino)
on_missing get_inode_dobj = (addresses [], minus invalid_ino)
on_missing other = (nothing, minus invalid_command)
on_missing _ = (nothing, minus invalid_ino)

-- `CREATE_OPEN_INODE`
unfoldable pub on_create_open :
    (ino size flags flags' at mt ver : ℕ) → Container → Container × Body × Ret
on_create_open ino size flags flags' at mt ver c =
    let (c', h, ret) = create_inode ino size c in
    let i = c'.inodes h in
    let created = record i { flags = flags'; atime = at; mtime = mt; version = ver } in
    let opened = record i { refcount = i.refcount + 1 } in
    if flags == 0
    then (set_inode h created c', nothing, ret)
    else if flags == 1
    then (set_inode h opened c', fields (pado_getinode_meta (some opened)).0, ret)
    else (set_inode h opened c', whole (pado_getinode_all (some opened)), ret)

-- The locks that the cases for an inode take (`CREATE_OPEN_INODE` has a case of its own in
-- `serve`), and whether they are given back: none at all, `rwlock` taken and released, or taken and
-- kept, where a second `wrlock` stands in the place of the release. The lock refuses the second call
-- to the thread that has it already (EDEADLK), and the code does not look at the answer.
pub data Locking : Type 0 where
  unlocked : Locking
  released : Locking
  kept : Locking

unfoldable pub locking : Command → Locking
locking (read_inode_meta flags) = if flags == 1 || flags == 0 then released else unlocked
locking (read_inode_whole flags ver) =
    if flags == 1 then kept else if flags == 0 then released else unlocked
locking (create_open_inode size flags flags' at mt ver) = unlocked
locking other = unlocked
locking _ = released

pub record Server : Type 0 where
  pub container : Container
  pub open container use *
  -- The inodes whose `rwlock` a worker thread holds for good.
  pub held : ℕ → Bool

pub data Outcome : Type 0 where
  replied : Server → Body → Ret → Outcome
  blocked : Outcome
  -- An assertion fails, and the process ends.
  aborted : Outcome

-- What follows the `switch` for an inode that is there: `free_inode` where it says so. Where an
-- assertion has failed, of the case or of `free_inode`, the process ends; the answer was written
-- before in the second case only.
unfoldable pub finish : ℕ → Handled → Locking → Server → Outcome
finish h r l s =
    let c = set_inode h r.inode s.container in
    let c' = if r.free then free_inode h c else c in
    if r.inode.halted || c'.dead
    then aborted
    else replied
        (record {
          container = c';
          held = elim l [ kept ↦ Inode.update s.held h true | _ ↦ s.held ];
        })
        r.body r.ret

unfoldable pub serve : Env → (tino : ℕ) → Command → Server → Outcome
serve env tino (create_open_inode size flags flags' at mt ver) s =
    let (c, b, r) = on_create_open tino size flags flags' at mt ver s.container in
    let h = (create_inode tino size s.container).1 in
    if not (flags == 0) && s.held h then blocked else replied (record s { container = c }) b r
serve env tino cmd s = elim (acquire_inode tino s.container) [
  | none ↦ replied s (on_missing cmd).0 (on_missing cmd).1
  | some h ↦
      let l = locking cmd in
      let done = finish h (on_inode env cmd (s.inodes h)) l s in
      elim l [ unlocked ↦ done | _ ↦ if s.held h then blocked else done ]
]
