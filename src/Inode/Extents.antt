-- ===== src/Inode/Extents.antt =====
-- Extents and data objects of an inode (incont.c: `create_extent`, `release_extent`,
-- `replace_extent`, `remove_extent`, `remove_dobject`, `acquire_dobject`, `read_dobject`,
-- `get_inode_dobj`, `check_dobject`).
use pado_fs.Base.{
  ℕ, zero, suc, ◌+◌, Bool, true, false, not, ◌||◌, ◌&&◌, Option, none, some, List, [], ◌∷◌, ◌++◌,
  map, ◌==◌, leb, ltb, max, length, if◌then◌else◌,
}
use pado_fs.Base.Word.{add64, inc32, dec32}
use pado_fs.Base.Distinct.{has, erase, next_of, prev_of, replace_with}
use pado_fs.Codes.{
  Request, add_link, remove_link, Ret, code, minus, success, failed, invalid_dobject,
}
use pado_fs.Tree.{depth, locate, substitute, detach}
use pado_fs.Inode.{Dobject, Inode, Env, update, assert, set_tree}

-- `send(fd, ...)` and the reply: `none` if the connection fails, and then nothing is sent.
unfoldable pub request : Env → Request → Inode → Inode × Option Ret
request env q i = elim (env.dos i.sent q) [
  | none ↦ (i, none)
  | some r ↦ (record i { sent = q ∷ i.sent }, some r)
]

-- The new extent stands first in `refs`. `calloc` is taken to succeed.
unfoldable pub create_extent : ℕ → (off_f off_do len : ℕ) → Inode → Inode × ℕ
create_extent d off_f off_do len i =
    let o = i.dobs d in
    let x = i.next_ext in
    (
      record i {
        exts = update i.exts x (record { dobj = d; off_f = off_f; off_do = off_do; length = len });
        next_ext = x + 1;
        dobs = update i.dobs d (record o { refs = x ∷ o.refs; num_refs = inc32 o.num_refs });
        num_exts = inc32 i.num_exts;
      },
      x,
    )

abbrev pub is_empty : List ℕ → Bool
is_empty [] = true
is_empty (x ∷ xs) = false

-- `check_dobject`: the walk over `refs` counts `num_refs` extents.
unfoldable pub check_dobject : Dobject → Bool
check_dobject o = o.num_refs == length o.refs

-- `release_extent` up to the removal of its data object: out of `refs`, the counters, the
-- assertions.
unfoldable pub unref_extent : ℕ → Inode → Inode
unref_extent x i =
    let d = (i.exts x).dobj in
    let o = i.dobs d in
    let o' = record o { refs = erase x o.refs; num_refs = dec32 o.num_refs } in
    assert ((not (is_empty o'.refs) || o'.num_refs == 0) && check_dobject o')
      (record i { dobs = update i.dobs d o'; num_exts = dec32 i.num_exts })

-- `remove_extent` up to `release_extent`: out of the list and the tree.
unfoldable pub unlink_extent : ℕ → Inode → Inode
unlink_extent x i =
    set_tree (detach x (prev_of x i.chain) i.flayout) (record i { chain = erase x i.chain })

-- The loop of `remove_dobject`; a round takes one extent off `refs`.
unfoldable pub remove_refs : ℕ → ℕ → Inode → Inode
remove_refs zero d i = i
remove_refs (suc k) d i = elim ((i.dobs d).refs) [
  | [] ↦ i
  | x ∷ _ ↦ remove_refs k d (unref_extent x (unlink_extent x i))
]

-- `remove_dobject(dobj, unlink)`, with the `int` that it returns
unfoldable pub remove_dobject : Env → Option ℕ → Bool → Inode → Inode × Ret
remove_dobject env none unlink i = (i, minus invalid_dobject)
remove_dobject env (some d) unlink i =
    let o = i.dobs d in
    let i' = remove_refs (length o.refs) d (record i { do_map = erase d i.do_map }) in
    if unlink
    then (let (i'', reply) = request env (remove_link o.host_id o.loid i.ino) i' in
        elim reply [ none ↦ (i'', code failed) | some r ↦ (i'', r) ])
    else (i', code success)

-- `release_extent(target, triggered)`
unfoldable pub release_extent : Env → ℕ → Bool → Inode → Inode
release_extent env x triggered i =
    let d = (i.exts x).dobj in
    let i' = unref_extent x i in
    if is_empty ((i'.dobs d).refs) && triggered then (remove_dobject env (some d) true i').0 else i'

-- `remove_extent(target, triggered)`
unfoldable pub remove_extent : Env → ℕ → Bool → Inode → Inode
remove_extent env x triggered i = release_extent env x triggered (unlink_extent x i)

-- `check_extent`: what it asserts of an extent, without the last `assert` on `next` where `dur_rep`
-- is 1. That `parent` and `pivot` lead to the extent is that `locate` finds it, and that the links
-- of `refs` do, that it stands in `refs`.
unfoldable pub check_extent : ℕ → (dur_rep : Bool) → Inode → Bool
check_extent x dur_rep i =
    let e = i.exts x in
    let behind_prev : Bool = elim (prev_of x i.chain) [
      | none ↦ true
      | some p ↦ leb (add64 (i.exts p).off_f (i.exts p).length) e.off_f
    ] in
    let ahead_next : Bool = elim (next_of x i.chain) [
      | none ↦ true
      | some n ↦ dur_rep || leb (add64 e.length e.off_f) (i.exts n).off_f
    ] in
    let in_tree : Bool = elim (locate x i.flayout []) [
      | none ↦ false
      | some q ↦
          q.depth_of == max (depth q.left) (depth q.right) + 1
          && (ltb (depth q.left) (depth q.right + 2) && ltb (depth q.right) (depth q.left + 2))
    ] in
    ltb 0 e.length && (has x (i.dobs e.dobj).refs && (behind_prev && (ahead_next && in_tree)))

-- `replace_extent(orie, newe)`, with the check of the new extent at its end
unfoldable pub replace_extent : Env → ℕ → ℕ → Inode → Inode
replace_extent env x y i =
    let i' =
      release_extent env x true
        (set_tree (substitute x y i.flayout) (record i { chain = replace_with x y i.chain })) in
    assert (check_extent y true i') i'

-- `HASH_FIND` in `do_map` by the address
unfoldable pub find_dobject : (ℕ → Dobject) → (hid loid : ℕ) → List ℕ → Option ℕ
find_dobject f hid loid [] = none
find_dobject f hid loid (d ∷ ds) =
    if (f d).host_id == hid && (f d).loid == loid then some d else find_dobject f hid loid ds

-- What `flag` asks for: 0, 1 and 2 of the source.
pub data Acquire : Type 0 where
  existing : Acquire
  or_new : Acquire
  or_new_linked : Acquire

-- `acquire_dobject`, for an inode that is not `NULL`
unfoldable pub acquire_dobject : Env → (hid loid : ℕ) → Acquire → Inode → Inode × Option ℕ
acquire_dobject env hid loid flag i =
    let d = i.next_dob in
    let o : Dobject = record { host_id = hid; loid = loid; refs = []; num_refs = 0 } in
    let added = record i {
      do_map = i.do_map ++ d ∷ [];
      dobs = update i.dobs d o;
      next_dob = d + 1;
    } in
    elim (find_dobject i.dobs hid loid i.do_map) [
      | some d' ↦ (assert (check_dobject (i.dobs d')) i, some d')
      | none ↦ elim flag [
        | existing ↦ (i, none)
        | or_new ↦ (added, some d)
        | or_new_linked ↦
            let (i', reply) = request env (add_link hid loid i.ino) added in
            elim reply [
              | none ↦ (record i' { do_map = erase d i'.do_map }, none)
              | some _ ↦ (i', some d)
            ]
      ]
    ]

-- `read_dobject`: the number written, the words written behind it, and the result
unfoldable pub read_dobject : Option ℕ → Inode → (ℕ × List (ℕ × ℕ × ℕ)) × Ret
read_dobject none i = ((0, []), minus invalid_dobject)
read_dobject (some d) i =
    let o = i.dobs d in
    (
      (o.num_refs, map (λ x. ((i.exts x).off_f, (i.exts x).off_do, (i.exts x).length)) o.refs),
      code success,
    )

-- `get_inode_dobj`: the addresses written behind their number
unfoldable pub get_inode_dobj : Inode → List (ℕ × ℕ)
get_inode_dobj i = map (λ d. ((i.dobs d).host_id, (i.dobs d).loid)) i.do_map
