-- ===== src/Container/Restored.antt =====
-- The backup of one inode by `pado_getinode_all` (incont.c), and its restoration by `do_restore`
-- (inserver.c): where the positions of the file are kept.
use pado_fs.Base.{
  ℕ, ◌+◌, ◌≤◌, ◌<◌, ◌≡◌, refl, sym, ap, ◌∙◌, subst, Option, none, some, List, [], ◌∷◌, map, arith,
  All, Bool-cases, Option-cases, inl, inr, if◌then◌else◌, max, length, if-elim,
}
use pado_fs.Base.Word.{add64, add64_lem, u64_mod}
use pado_fs.Tree.{is_leaf}
use pado_fs.Inode.{Inode, Env, Extent}
use pado_fs.Inode.Extents.{create_extent, acquire_dobject, find_dobject, or_new}
use pado_fs.Layout.{replace, set_root, pado_write}
use pado_fs.Layout.Sorted.{IsSorted, drop_ended, end_of_lem}
use pado_fs.Layout.Valid.{IsLayout}
use pado_fs.Layout.Spots.{Within, Where, spot, inside_of, last_offset, Within-le, spot-below}
use pado_fs.Layout.Put.{put}
use pado_fs.Layout.Places.{Serves, place, in_object, write_place-Serves}
use pado_fs.Layout.Names.{IsNamed, replace-IsNamed, set_root-IsNamed}
use pado_fs.Read.{Saved, saved, pado_getinode_all}
use pado_fs.Read.Clone.{cursor}
use pado_fs.Container.{restore_extents}

-- Where the positions are kept once the extents `ss` have been written one after another.
unfoldable pub replayed : List Saved → (ℕ → Option Where) → ℕ → Option Where
replayed [] old = old
replayed (s ∷ ss) old =
    replayed ss (put s.off_f (s.off_f + s.length) (in_object s.hid s.loid s.off_f s.off_do) old)

abbrev pub IsSaved : Saved → Type 0
IsSaved s = (0 < s.length) × (s.off_f + s.length ≤ last_offset)

-- The file that an inode is, whatever its layout.
pub record IsFile (i j : Inode) : Type 0 where
  pub ino : j.ino ≡ i.ino
  pub flags : j.flags ≡ i.flags
  pub refcount : j.refcount ≡ i.refcount

IsFile-trans : (i j k : Inode) → IsFile i j → IsFile j k → IsFile i k
IsFile-trans i j k s t = record {
  ino = t.ino ∙ s.ino;
  flags = t.flags ∙ s.flags;
  refcount = t.refcount ∙ s.refcount;
}

IsNamed-IsFile : (i j : Inode) → IsNamed i j → IsFile i j
IsNamed-IsFile i j n = record {
  ino = ap (λ f. f.0) n.fields;
  flags = ap (λ f. f.5) n.fields;
  refcount = ap (λ f. f.6) n.fields;
}

pado_write-IsFile :
    (env : Env) (d : Option ℕ) (off_f off_do len : ℕ) (i : Inode)
    → IsFile i (pado_write env d off_f off_do len i).0
unfolding pado_write create_extent
pado_write-IsFile env none off_f off_do len i = record { ino = refl; flags = refl; refcount = refl }
pado_write-IsFile env (some d) off_f off_do len i =
    let c = create_extent d off_f off_do len i in
    let j = record c.0 { size = max c.0.size (add64 off_f len) } in
    let done =
      if is_leaf j.flayout
      then set_root c.1 j
      else replace env (c.1 ∷ []) (some c.1) off_f (add64 off_f len) j in
    let n : IsNamed j done =
      if-elim (IsNamed j) (is_leaf j.flayout) (λ _. set_root-IsNamed c.1 j)
        (λ _. replace-IsNamed env (c.1 ∷ []) (some c.1) off_f (add64 off_f len) j) in
    let f = IsNamed-IsFile j done n in
    record { ino = f.ino; flags = f.flags; refcount = f.refcount }

acquire_dobject-IsFile :
    (env : Env) (hid loid : ℕ) (i : Inode) → IsFile i (acquire_dobject env hid loid or_new i).0
unfolding acquire_dobject
acquire_dobject-IsFile env hid loid i = record {
  ino = ground arith;
  flags = ground arith;
  refcount = ground arith;
}

pub restore_extents-IsFile :
    (env : Env) (ss : List Saved) (i : Inode) → IsFile i (restore_extents env ss i)
unfolding restore_extents
restore_extents-IsFile env [] i = record { ino = refl; flags = refl; refcount = refl }
restore_extents-IsFile env (s ∷ ss) i =
    let r = acquire_dobject env s.hid s.loid or_new i in
    let w = (pado_write env r.1 s.off_f s.off_do s.length r.0).0 in
    IsFile-trans i w _
      (IsFile-trans i r.0 w (acquire_dobject-IsFile env s.hid s.loid i)
        (pado_write-IsFile env r.1 s.off_f s.off_do s.length r.0))
      (restore_extents-IsFile env ss w)

pub restore_extents-Serves :
    (env : Env) (ss : List Saved) (i : Inode) (want : ℕ → Option Where)
    → Serves want i
    → All IsSaved ss
    → Serves (replayed ss want) (restore_extents env ss i)
unfolding restore_extents replayed
restore_extents-Serves env [] i want k a = k
restore_extents-Serves env (s ∷ ss) i want k a =
    let r = acquire_dobject env s.hid s.loid or_new i in
    restore_extents-Serves env ss (pado_write env r.1 s.off_f s.off_do s.length r.0).0 _
      (write_place-Serves env s.hid s.loid s.off_f s.off_do s.length i want k a.0.0 a.0.1) a.1

abbrev pub or_else : Option Where → Option Where → Option Where
or_else none b = b
or_else (some a) b = some a

-- Writing the extents of a layout in order keeps each position where the layout does.
pub replayed-saved :
    (i : Inode) (zs : List ℕ) (lo : ℕ) (old : ℕ → Option Where) (p : ℕ)
    → Within lo last_offset (map i.exts zs)
    → replayed (map (saved i) zs) old p ≡ or_else (place i (spot (map i.exts zs) p)) (old p)
unfolding replayed spot
replayed-saved i [] lo old p w = refl
replayed-saved i (z ∷ zs) lo old p w =
    let e = i.exts z in
    let o = i.dobs e.dobj in
    let old' = put e.off_f (e.off_f + e.length) (in_object o.host_id o.loid e.off_f e.off_do) old in
    replayed-saved i zs (e.off_f + e.length) old' p w.2 ∙ elim (Bool-cases (inside_of e p)) [
      | inl q ↦
          rw (spot-below (e.off_f + e.length) last_offset (map i.exts zs) p w.2 (ground arith), q)
            refl
      | inr q ↦ rw q refl
    ]

-- Nothing ends at or before the start of the file.
drop_ended-none :
    (f : ℕ → Extent) (lo : ℕ) (zs : List ℕ) → IsSorted f lo zs → drop_ended f 0 zs ≡ zs
unfolding drop_ended
drop_ended-none f lo [] s = refl
drop_ended-none f lo (z ∷ zs) s = let e = end_of_lem (f z) s.1 in ground arith

pub pado_getinode_all-extents :
    (i : Inode) → IsLayout i → (pado_getinode_all (some i)).extents ≡ map (saved i) i.chain
unfolding pado_getinode_all
pado_getinode_all-extents i v =
    ap (map (saved i)) (cursor i v 0 0 ∙ drop_ended-none i.exts 0 i.chain v.sorted)

pub saved-IsSaved :
    (i : Inode) (lo : ℕ) (zs : List ℕ)
    → Within lo last_offset (map i.exts zs)
    → All IsSaved (map (saved i) zs)
saved-IsSaved i lo [] w = tt
saved-IsSaved i lo (z ∷ zs) w =
    let a = Within-le ((i.exts z).off_f + (i.exts z).length) last_offset (map i.exts zs) w.2 in
    ((w.1, a), saved-IsSaved i ((i.exts z).off_f + (i.exts z).length) zs w.2)

acquire_dobject-some :
    (env : Env) (hid loid : ℕ) (i : Inode)
    → (d : ℕ) × ((acquire_dobject env hid loid or_new i).1 ≡ some d)
unfolding acquire_dobject
acquire_dobject-some env hid loid i = elim (Option-cases (find_dobject i.dobs hid loid i.do_map)) [
  | inl e ↦ (i.next_dob, rw (e, acquire_dobject) refl)
  | inr (d, e) ↦ (d, rw (e, acquire_dobject) refl)
]

acquire_dobject-fields :
    (env : Env) (hid loid : ℕ) (i : Inode)
    → ((acquire_dobject env hid loid or_new i).0.version ≡ i.version)
      × ((acquire_dobject env hid loid or_new i).0.size ≡ i.size)
unfolding acquire_dobject
acquire_dobject-fields env hid loid i = (ground arith, ground arith)

pado_write-fields :
    (env : Env) (d off_f off_do len : ℕ) (i : Inode)
    → ((pado_write env (some d) off_f off_do len i).0.version ≡ add64 i.version 1)
      × ((pado_write env (some d) off_f off_do len i).0.size ≡ max i.size (add64 off_f len))
unfolding pado_write create_extent
pado_write-fields env d off_f off_do len i =
    let c = create_extent d off_f off_do len i in
    let j = record c.0 { size = max c.0.size (add64 off_f len) } in
    let done =
      if is_leaf j.flayout
      then set_root c.1 j
      else replace env (c.1 ∷ []) (some c.1) off_f (add64 off_f len) j in
    let n : IsNamed j done =
      if-elim (IsNamed j) (is_leaf j.flayout) (λ _. set_root-IsNamed c.1 j)
        (λ _. replace-IsNamed env (c.1 ∷ []) (some c.1) off_f (add64 off_f len) j) in
    (ap (λ f. add64 f.4 1) n.fields, ap (λ f. f.1) n.fields)

-- Each extent that is written back counts as a write.
pub restore_extents-version :
    (env : Env) (ss : List Saved) (i : Inode)
    → i.version + length ss < u64_mod
    → (restore_extents env ss i).version ≡ i.version + length ss
unfolding restore_extents
restore_extents-version env [] i h = omega arith
restore_extents-version env (s ∷ ss) i h =
    let r = acquire_dobject env s.hid s.loid or_new i in
    let w = (pado_write env r.1 s.off_f s.off_do s.length r.0).0 in
    let (d, e) = acquire_dobject-some env s.hid s.loid i in
    let a = (acquire_dobject-fields env s.hid s.loid i).0 in
    let b : w.version ≡ add64 r.0.version 1 =
      subst (λ o. (pado_write env o s.off_f s.off_do s.length r.0).0.version ≡ add64 r.0.version 1)
        (sym e) (pado_write-fields env d s.off_f s.off_do s.length r.0).0 in
    let c : w.version ≡ i.version + 1 =
      b ∙ (ap (λ v. add64 v 1) a ∙ add64_lem i.version 1 (omega arith)) in
    restore_extents-version env ss w (omega arith) ∙ (omega arith)

-- The size stays where no extent ends behind it.
pub restore_extents-size :
    (env : Env) (ss : List Saved) (i : Inode)
    → All IsSaved ss
    → All (λ s. s.off_f + s.length ≤ i.size) ss
    → (restore_extents env ss i).size ≡ i.size
unfolding restore_extents
restore_extents-size env [] i k h = refl
restore_extents-size env (s ∷ ss) i k h =
    let r = acquire_dobject env s.hid s.loid or_new i in
    let w = (pado_write env r.1 s.off_f s.off_do s.length r.0).0 in
    let (d, e) = acquire_dobject-some env s.hid s.loid i in
    let a = (acquire_dobject-fields env s.hid s.loid i).1 in
    let b : w.size ≡ max r.0.size (add64 s.off_f s.length) =
      subst
        (λ o.
          (pado_write env o s.off_f s.off_do s.length r.0).0.size
          ≡ max r.0.size (add64 s.off_f s.length))
        (sym e) (pado_write-fields env d s.off_f s.off_do s.length r.0).1 in
    let m = add64_lem s.off_f s.length (let q = k.0.1 in omega arith) in
    let c : w.size ≡ i.size = let g = h.0 in ground arith in
    restore_extents-size env ss w k.1
      (subst (λ n. All (λ s. s.off_f + s.length ≤ n) ss) (sym c) h.1)
    ∙ c
