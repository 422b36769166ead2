-- ===== src/Layout.antt =====
-- The extent layout of an inode as a whole (incont.c: `replace`, `find_start_extent`, `pado_write`,
-- `pado_truncate`, `pado_clone`). `alts`, the chain of new extents that `replace` is given, is a
-- list of pointers, linked by their `next` fields in the source until they are in the layout.
mod Tests
pub mod Sorted
pub mod Find
pub mod Valid
pub mod Spots
pub mod Trim
pub mod Updates
pub mod Same
pub mod Linked
pub mod Cleared
pub mod Stages
pub mod Content
pub mod Merged
pub mod Settled
pub mod Put
pub mod Cuts
pub mod Descent
pub mod Aimed
pub mod Replaced
pub mod Kept
pub mod Names
pub mod Checked
pub mod Swept
pub mod Ahead
pub mod Joined
pub mod Running
pub mod Counted
pub mod CloneCounts
pub mod Without
pub mod Emptied
pub mod Removed
pub mod Sound
pub mod Steady
pub mod Places
pub mod Acquired
pub mod Cloned
pub mod Taken
pub mod Woven
pub mod Writes
use pado_fs.Base.{
  ℕ, zero, suc, ◌+◌, ◌-◌, Bool, true, false, not, ◌||◌, ◌&&◌, Option, none, some, List, [], ◌∷◌,
  ◌++◌, ◌==◌, leb, ltb, if◌then◌else◌, max, min, length,
}
use pado_fs.Base.Word.{add64, sub64, u64_mod}
use pado_fs.Base.Distinct.{next_of, prev_of, insert_behind, insert_ahead}
use pado_fs.Codes.{Ret, code, minus, success, invalid_dobject}
use pado_fs.Tree.{Tree, leaf, node, is_leaf, hang_right, hang_left}
use pado_fs.Inode.{Extent, Inode, Env, update, assert, set_tree, set_ext}
use pado_fs.Inode.Extents.{
  create_extent, release_extent, remove_extent, replace_extent, acquire_dobject, or_new_linked,
}

-- `dh->off_f + dh->length`
unfoldable pub end_of : Extent → ℕ
end_of e = add64 e.off_f e.length

-- Where the descent of `replace` stops: its cases, in the source's order.
pub data Stop : Type 0 where
  nowhere : Stop
  starts_at : ℕ → Stop
  inside : ℕ → Stop
  before_first : ℕ → Stop
  behind_last : ℕ → Stop

unfoldable pub descend : (ℕ → Extent) → ℕ → Tree → Stop
descend f start leaf = nowhere
descend f start (node l x d r) =
    let cs = (f x).off_f in
    let ce = end_of (f x) in
    let to_left = descend f start l in
    let to_right = descend f start r in
    if cs == start
    then starts_at x
    else if ltb cs start && ltb start ce
    then inside x
    else if ltb start cs
    then (if is_leaf l then before_first x else to_left)
    else if is_leaf r
    then behind_last x
    else to_right

-- The variables of `replace` between its stages.
pub record Work : Type 0 where
  pub inode : Inode
  pub alts : List ℕ
  pub tail : Option ℕ
  pub tor : Option ℕ
  pub dh : Option ℕ

abbrev pub option_eq : Option ℕ → Option ℕ → Bool
option_eq none none = true
option_eq none (some y) = false
option_eq (some x) none = false
option_eq (some x) (some y) = x == y

-- The case `Cs < start && start < Ce` of the descent.
unfoldable pub cut_inside : (start stop : ℕ) → ℕ → List ℕ → Option ℕ → Inode → Work
cut_inside start stop x alts tail i =
    let e = i.exts x in
    let head_len = sub64 start e.off_f in
    let split =
      let (i', y) = create_extent e.dobj e.off_f e.off_do head_len i in
      let w : Work = record {
        inode = i';
        alts = y ∷ alts;
        tail = tail;
        tor = prev_of x i.chain;
        dh = some x;
      } in
      w in
    if ltb stop (end_of e)
    then elim alts [
      | [] ↦ split
      | a ∷ rest ↦
          let b = i.exts a in
          if e.dobj == b.dobj && add64 e.off_do head_len == b.off_do && start == b.off_f
          then record {
            inode =
                set_ext a
                  (record b {
                    off_f = e.off_f;
                    off_do = e.off_do;
                    length = add64 b.length head_len;
                  })
                  i;
            alts = a ∷ rest;
            tail = tail;
            tor = prev_of x i.chain;
            dh = some x;
          }
          else split
    ]
    else record {
      inode = set_ext x (record e { length = head_len }) i;
      alts = alts;
      tail = tail;
      tor = some x;
      dh = next_of x i.chain;
    }

-- `tor` and `dh` after the descent.
unfoldable pub find_first : (start stop : ℕ) → List ℕ → Option ℕ → Inode → Work
find_first start stop alts tail i =
    let found = λ (tor dh : Option ℕ).
      let w : Work = record { inode = i; alts = alts; tail = tail; tor = tor; dh = dh } in w in
    elim (descend i.exts start i.flayout) [
      | nowhere ↦ found none none
      | starts_at x ↦ found (prev_of x i.chain) (some x)
      | inside x ↦ cut_inside start stop x alts tail i
      | before_first x ↦ found (prev_of x i.chain) (some x)
      | behind_last x ↦ found (some x) (next_of x i.chain)
    ]

-- Whether `b` goes on where `a` ends, in the same data object: in the file and in the object.
unfoldable pub continues : Extent → Extent → Bool
continues a b =
    a.dobj == b.dobj && add64 a.off_do a.length == b.off_do && add64 a.off_f a.length == b.off_f

-- The merge of the first new extent into `tor`.
unfoldable pub merge_first : Env → Work → Work
merge_first env w = elim w.tor [
  | none ↦ w
  | some t ↦ elim w.alts [
    | [] ↦ w
    | a ∷ rest ↦
        let i = w.inode in
        let e = i.exts t in
        let b = i.exts a in
        if continues e b
        then record w {
          inode =
              release_extent env a true
                (set_ext t (record e { length = add64 e.length b.length }) i);
          alts = rest;
          tail = if option_eq (some a) w.tail then some t else w.tail;
        }
        else w
  ]
]

-- The loop over the extents in the range: `fuel` bounds its rounds by the number of extents.
-- The result adds `tol`.
unfoldable pub clear_range : Env → ℕ → (start stop : ℕ) → Work → Work × Option ℕ
clear_range env zero start stop w = (w, none)
clear_range env (suc fuel) start stop w = elim w.dh [
  | none ↦ (w, none)
  | some x ↦
      let e = w.inode.exts x in
      let i = assert (ltb start (end_of e)) w.inode in
      let after = next_of x i.chain in
      let removed : Work × Option ℕ = elim w.alts [
        | [] ↦
            clear_range env fuel start stop
              (record w { inode = remove_extent env x true i; dh = after })
        | a ∷ rest ↦
            clear_range env fuel start stop
              (record w { inode = replace_extent env x a i; alts = rest; tor = some a; dh = after })
      ] in
      if leb stop e.off_f
      then (record w { inode = i }, some x)
      else if ltb stop (end_of e)
      then (let diff = sub64 stop e.off_f in
          (
            record w {
              inode =
                  set_ext x
                    (record e {
                      off_f = add64 e.off_f diff;
                      off_do = add64 e.off_do diff;
                      length = sub64 e.length diff;
                    })
                    i;
            },
            some x,
          ))
      else removed
]

-- The loop that inserts the remaining new extents.
unfoldable pub insert_rest : (tor tol : Option ℕ) → List ℕ → Inode → Inode
insert_rest tor tol [] i = i
insert_rest (some t) tol (a ∷ rest) i = insert_rest (some a) tol rest (
    set_tree (hang_right t a (next_of t i.chain) i.flayout)
      (record i { chain = insert_behind t a i.chain }))
insert_rest none (some t) (a ∷ rest) i = insert_rest none (some t) rest (
    set_tree (hang_left t a (prev_of t i.chain) i.flayout)
      (record i { chain = insert_ahead t a i.chain }))
insert_rest none none (a ∷ rest) i = record i { halted = true }

-- The merge of the last new extent with the one behind it.
unfoldable pub merge_last : Env → Option ℕ → Inode → Inode
merge_last env none i = i
merge_last env (some t) i = elim (next_of t i.chain) [
  | none ↦ i
  | some n ↦
      let e = i.exts t in
      let b = i.exts n in
      if continues e b
      then remove_extent env n true (set_ext t (record e { length = add64 e.length b.length }) i)
      else i
]

-- `replace` on an inode whose layout is not empty
unfoldable pub replace_in : Env → List ℕ → Option ℕ → (start stop : ℕ) → Inode → Inode
replace_in env alts tail start stop i =
    let w = merge_first env (find_first start stop alts tail i) in
    let (w', tol) = clear_range env (length w.inode.chain + 1) start stop w in
    merge_last env w'.tail (insert_rest w'.tor tol w'.alts w'.inode)

-- `inode->flayout = x` for the first extent of a layout
abbrev pub set_root : ℕ → Inode → Inode
set_root x i = record i { flayout = node leaf x 1 leaf; chain = x ∷ [] }

-- `replace(inode, alts, tail, start, end)`
unfoldable pub replace : Env → List ℕ → Option ℕ → (start stop : ℕ) → Inode → Inode
replace env alts tail start stop i₀ =
    let i = assert (ltb start stop) i₀ in
    if is_leaf i.flayout
    then elim alts [
      | [] ↦ i
      | a ∷ rest ↦ replace_in env rest tail (end_of (i.exts a)) stop (set_root a i)
    ]
    else replace_in env alts tail start stop i

-- The ends of `pado_write`, `pado_truncate` and `pado_clone`: the times and the version.
abbrev pub touch : Env → Inode → Inode
touch env i = record i { mtime = env.now; atime = env.now; version = add64 i.version 1 }

-- `pado_write`; `dobj` is what `acquire_dobject` returned.
unfoldable pub pado_write : Env → Option ℕ → (off_f off_do len : ℕ) → Inode → Inode × Ret
pado_write env none off_f off_do len i = (i, minus invalid_dobject)
pado_write env (some d) off_f off_do len i =
    let (i₁, x) = create_extent d off_f off_do len i in
    let i₂ = record i₁ { size = max i₁.size (add64 off_f len) } in
    let i₃ =
      if is_leaf i₂.flayout
      then set_root x i₂
      else replace env (x ∷ []) (some x) off_f (add64 off_f len) i₂ in
    (touch env i₃, code success)

-- `pado_truncate`
unfoldable pub pado_truncate : Env → ℕ → Inode → Inode × Ret
pado_truncate env newsize i =
    let i' = record i { size = newsize } in
    let i'' = if ltb newsize i.size then replace env [] none newsize i.size i' else i' in
    (touch env i'', code success)

-- What a peer sends for one extent: `hid`, `loid`, `offset`, `off_do`, `length`.
pub record Segment : Type 0 where
  pub hid : ℕ
  pub loid : ℕ
  pub offset : ℕ
  pub off_do : ℕ
  pub length : ℕ

-- The host and the object that end the list of segments.
abbrev pub is_end : (hid loid : ℕ) → Bool
is_end hid loid = hid == 0 && loid == 0

-- The loop of `pado_clone`: it makes the extents. The list ends at the first segment of host 0 and
-- object 0; a list that has none is given without the one behind it. A failed `acquire_dobject`
-- gives `create_extent` a `NULL`.
unfoldable pub clone_extents : Env → (start stop : ℕ) → List Segment → Inode → Inode × List ℕ
clone_extents env start stop [] i = (i, [])
clone_extents env start stop (s ∷ ss) i =
    let off_f = add64 start s.offset in
    let len = if ltb stop (add64 off_f s.length) then sub64 stop off_f else s.length in
    let skip = clone_extents env start stop ss i in
    let (i₁, d) = acquire_dobject env s.hid s.loid or_new_linked i in
    let made : Inode × List ℕ = elim d [
      | none ↦ (record i₁ { halted = true }, [])
      | some d' ↦
          let (i₂, x) = create_extent d' off_f s.off_do len i₁ in
          let (i₃, xs) = clone_extents env start stop ss i₂ in (i₃, x ∷ xs)
    ] in
    if is_end s.hid s.loid then (i, []) else if ltb stop off_f then skip else made

abbrev pub last_of : Option ℕ → List ℕ → Option ℕ
last_of p [] = p
last_of p (x ∷ xs) = last_of (some x) xs

-- `pado_clone`
unfoldable pub pado_clone : Env → List Segment → (start stop : ℕ) → Inode → Inode × Ret
pado_clone env ss start stop i =
    let (i₁, alts) = clone_extents env start stop ss i in
    let i₂ = record i₁ { size = max i₁.size stop } in
    (touch env (replace env alts (last_of none alts) start stop i₂), code success)

-- `find_start_extent`: the first extent that ends behind `start`
unfoldable pub find_start_extent : (ℕ → Extent) → List ℕ → ℕ → Tree → Option ℕ
find_start_extent f chain start leaf = none
find_start_extent f chain start (node l x d r) =
    let cs = (f x).off_f in
    let ce = end_of (f x) in
    let to_left = find_start_extent f chain start l in
    let to_right = find_start_extent f chain start r in
    if leb cs start && ltb start ce
    then some x
    else if ltb start cs
    then (if is_leaf l then some x else to_left)
    else if is_leaf r
    then next_of x chain
    else to_right
