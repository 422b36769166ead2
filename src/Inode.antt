-- ===== src/Inode.antt =====
-- `struct inode`, `struct extent` and `struct dobject` of incont.h, for one inode.
-- A pointer to an extent or a data object is a number, never used twice. The fields of extents
-- and data objects stand in two stores. `left`, `right`, `depth`, `parent` and `pivot` are the
-- `flayout` tree, `prev` and `next` are the list `chain`, `prev_ref` and `next_ref` the list `refs`
-- of a data object, and the hash table `do_map` is the list of its items in order of insertion.
pub mod Extents
pub mod Owned
pub mod Released
use pado_fs.Base.{
  ℕ, ◌+◌, ◌-◌, ◌*◌, ◌/◌, ◌%◌, Bool, true, false, not, ◌||◌, ◌&&◌, Option, none, some, List, [], ◌∷◌,
  ◌==◌, if◌then◌else◌,
}
use pado_fs.Codes.{Request, Ret}
use pado_fs.Tree.{Tree, leaf}

pub record Extent : Type 0 where
  pub dobj : ℕ
  pub off_f : ℕ
  pub off_do : ℕ
  pub length : ℕ

-- `addr.host_id`, `addr.loid`, `refs`, `num_refs`; the field `inode` is the inode at hand.
pub record Dobject : Type 0 where
  pub host_id : ℕ
  pub loid : ℕ
  pub refs : List ℕ
  pub num_refs : ℕ

pub record Inode : Type 0 where
  pub ino : ℕ
  pub size : ℕ
  pub atime : ℕ
  pub mtime : ℕ
  pub version : ℕ
  pub flags : ℕ
  pub refcount : ℕ
  pub num_exts : ℕ
  pub flayout : Tree
  pub chain : List ℕ
  pub exts : ℕ → Extent
  pub next_ext : ℕ
  pub do_map : List ℕ
  pub dobs : ℕ → Dobject
  pub next_dob : ℕ
  -- The requests sent to data object servers, the latest first.
  pub sent : List Request
  -- The process has died of a failed `assert` or of an access through `NULL`.
  pub halted : Bool

-- What the code does not decide: the clock, and whether a DOS can be connected and what it
-- replies, which may change from one request to the next.
pub record Env : Type 0 where
  pub now : ℕ
  pub dos : List Request → Request → Option Ret

abbrev pub update {ℓ} : {A : Type ℓ} → (ℕ → A) → ℕ → A → ℕ → A
update f k v j = if j == k then v else f j

-- `assert`
abbrev pub assert : Bool → Inode → Inode
assert b i = record i { halted = i.halted || not b }

-- The flags of an inode (`SHARED`, `DELETED`, `DLOCKED` are the bits 1, 2, 4).
abbrev pub bit : ℕ → ℕ → Bool
bit k n = (n / k) % 2 == 1

abbrev pub set_bit : ℕ → ℕ → ℕ
set_bit k n = if bit k n then n else n + k

abbrev pub clear_bit : ℕ → ℕ → ℕ
clear_bit k n = if bit k n then n - k else n

abbrev pub shared : ℕ
shared = 1

abbrev pub deleted : ℕ
deleted = 2

abbrev pub dlocked : ℕ
dlocked = 4

abbrev pub is_shared : Inode → Bool
is_shared i = bit shared i.flags

abbrev pub set_shared : Inode → Inode
set_shared i = record i { flags = set_bit shared i.flags }

abbrev pub unset_shared : Inode → Inode
unset_shared i = record i { flags = clear_bit shared i.flags }

abbrev pub is_deleted : Inode → Bool
is_deleted i = bit deleted i.flags

abbrev pub set_deleted : Inode → Inode
set_deleted i = record i { flags = set_bit deleted i.flags }

abbrev pub is_dlocked : Inode → Bool
is_dlocked i = bit dlocked i.flags

abbrev pub set_dlocked : Inode → Inode
set_dlocked i = record i { flags = set_bit dlocked i.flags }

abbrev pub unset_dlocked : Inode → Inode
unset_dlocked i = record i { flags = clear_bit dlocked i.flags }

-- A change of one extent's fields.
abbrev pub set_ext : ℕ → Extent → Inode → Inode
set_ext x e i = record i { exts = update i.exts x e }

-- `flayout` after an operation on the tree, or the death of the process.
abbrev pub set_tree : Option Tree → Inode → Inode
set_tree none i = record i { halted = true }
set_tree (some t) i = record i { flayout = t }

-- The inode that `create_inode` makes (`calloc`, then the fields that it sets).
unfoldable pub new_inode : (ino size : ℕ) → Inode
new_inode ino size = record {
  ino = ino;
  size = size;
  atime = 0;
  mtime = 0;
  version = 0;
  flags = 0;
  refcount = 0;
  num_exts = 0;
  flayout = leaf;
  chain = [];
  exts = λ _. record { dobj = 0; off_f = 0; off_do = 0; length = 0 };
  next_ext = 0;
  do_map = [];
  dobs = λ _. record { host_id = 0; loid = 0; refs = []; num_refs = 0 };
  next_dob = 0;
  sent = [];
  halted = false;
}
