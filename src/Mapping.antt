-- ===== src/Mapping.antt =====
-- The mapping server lpmapser.c, and the numbers that an inode server registers with it
-- (incont.c with `WITH_MAPSERVER`: `init_inode_container`, `create_inode_withms`).
-- The hash table `map` is the list of its items in order of insertion.
pub mod Table
pub mod Numbers
use pado_fs.Base.{
  ℕ, ◌+◌, ◌*◌, ◌^◌, Bool, true, false, Option, none, some, List, [], ◌∷◌, ◌++◌, ◌==◌, if◌then◌else◌,
}
use pado_fs.Base.Word.{add64}
use pado_fs.Codes.{Ret, code, minus, success, ms_con_error, ino_full, already_created}

-- `struct hitem`: `key` and `value`.
abbrev pub Item : Type 0
Item = ℕ × ℕ

-- `HASH_FIND` and `HASH_DELETE`
unfoldable pub find : ℕ → List Item → Option ℕ
find k [] = none
find k ((j, v) ∷ m) = if j == k then some v else find k m

unfoldable pub delete : ℕ → List Item → List Item
delete k [] = []
delete k ((j, v) ∷ m) = if j == k then m else (j, v) ∷ delete k m

-- A request: its letter, and the numbers read; `none` where the connection ends before them.
pub data Query : Type 0 where
  get : Option ℕ → Query
  put : Option Item → Query
  del : Option ℕ → Query
  unknown : Query

-- One request: the table and the number sent back.
unfoldable pub serve : Query → List Item → List Item × ℕ
serve (get none) m = (m, 0)
serve (get (some k)) m = (m, elim (find k m) [ none ↦ 0 | some v ↦ v ])
serve (put none) m = (m, 0)
serve (put (some (k, v))) m = elim (find k m) [ none ↦ (m ++ (k, v) ∷ [], v) | some w ↦ (m, w) ]
serve (del none) m = (m, 0)
serve (del (some k)) m = elim (find k m) [ none ↦ (m, 0) | some w ↦ (delete k m, w) ]
serve unknown m = (m, 0)

-- `do_backup`: the numbers in the file.
unfoldable pub do_backup : List Item → List ℕ
do_backup [] = []
do_backup ((k, v) ∷ m) = k ∷ v ∷ do_backup m

-- The loop of `main` that reads a backup file. A key without a value empties the table.
unfoldable pub restore : List ℕ → List Item → List Item
restore [] m = m
restore (k ∷ []) m = []
restore (k ∷ v ∷ ks) m = restore ks (m ++ (k, v) ∷ [])

-- `inodebase` and `inodemax`
pub record NumbersLeft : Type 0 where
  pub inodebase : ℕ
  pub inodemax : ℕ

-- `init_inode_container`; the low 32 bits of `inodemax` are all set.
unfoldable pub init_inode_container : (nodeid : ℕ) → NumbersLeft
init_inode_container nodeid = record {
  inodebase = nodeid * 2 ^ 32 + 1;
  inodemax = nodeid * 2 ^ 32 + 0xffff_ffff;
}

-- What `create_inode_withms` returns: the new inode's number, `*ret`.
abbrev pub Created : Type 0
Created = Option ℕ × Ret

-- `create_inode_withms`, with the mapping server's table where it can be connected. `*ret` is not
-- set on success, as the caller has set it.
unfoldable pub create_inode_withms :
    (connected : Bool) → (bino : ℕ) → NumbersLeft → List Item → NumbersLeft × List Item × Created
create_inode_withms false bino n m = (n, m, (none, minus ms_con_error))
create_inode_withms true bino n m =
    if n.inodebase == n.inodemax
    then (n, m, (none, minus ino_full))
    else (let (m', ino) = serve (put (some (bino, n.inodebase))) m in
        if ino == n.inodebase
        then (record n { inodebase = add64 n.inodebase 1 }, m', (some ino, code success))
        else (n, m', (none, minus already_created)))
