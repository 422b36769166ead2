-- ===== src/Mapping/Numbers.antt =====
-- The numbers that `create_inode_withms` gives to inodes.
use pado_fs.Base.{ℕ, ◌+◌, ◌*◌, ◌/◌, ◌≤◌, ◌<◌, ◌≡◌, Bool, some, List, arith}
use pado_fs.Base.Word.{add64, u32_mod}
use pado_fs.Mapping.{Item, find, put, serve, NumbersLeft, init_inode_container, create_inode_withms}
use pado_fs.Mapping.Table.{find-add}

-- The numbers that are left lie in the block of the node.
pub record IsBlock (nodeid : ℕ) (n : NumbersLeft) : Type 0 where
  pub node : nodeid < u32_mod
  pub from : nodeid * u32_mod + 1 ≤ n.inodebase
  pub upto : n.inodebase ≤ n.inodemax
  pub last : n.inodemax ≡ nodeid * u32_mod + 0xffff_ffff

pub init-IsBlock : (nodeid : ℕ) → nodeid < u32_mod → IsBlock nodeid (init_inode_container nodeid)
unfolding init_inode_container
init-IsBlock nodeid h = omega arith

put-found :
    (k v : ℕ) (m : List Item)
    → find k (serve (put (some (k, v))) m).0 ≡ some (serve (put (some (k, v))) m).1
unfolding serve
put-found k v m = ground (arith, find-add k k v m)

-- The numbers left stay a block of the node's numbers, whether or not an inode is made.
pub create_inode_withms-IsBlock :
    (nodeid : ℕ) (connected : Bool) (bino : ℕ) (n : NumbersLeft) (m : List Item)
    → IsBlock nodeid n
    → IsBlock nodeid (create_inode_withms connected bino n m).0
unfolding create_inode_withms add64
create_inode_withms-IsBlock nodeid connected bino n m v = ground arith

-- Where `create_inode_withms` makes an inode from a block of the node's numbers, its number has
-- the node's id in the upper half, was left before and is left no more, and the mapping server
-- has it for the base inode.
pub create_inode_withms-fresh :
    (nodeid : ℕ) (connected : Bool) (bino : ℕ) (n : NumbersLeft) (m : List Item) (ino : ℕ)
    → IsBlock nodeid n
    → (create_inode_withms connected bino n m).2.0 ≡ some ino
    → (ino / u32_mod ≡ nodeid)
      × (n.inodebase ≤ ino)
      × (ino < (create_inode_withms connected bino n m).0.inodebase)
      × (find bino (create_inode_withms connected bino n m).1 ≡ some ino)
unfolding create_inode_withms add64
create_inode_withms-fresh nodeid connected bino n m ino v e =
    let q = put-found bino n.inodebase m in (ground arith, ground arith, ground arith, ground arith)
