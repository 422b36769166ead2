-- ===== src/Container/Recovered.antt =====
-- `do_backup` (incont.c) and `do_restore` (inserver.c) of a whole server: the inodes that are found
-- again, and where they keep the positions of their files.
use pado_fs.Base.{
  ℕ, suc, ◌+◌, ◌≤◌, ◌<◌, ◌≡◌, ◌⊎◌, refl, sym, ap, ap₂, ◌∙◌, subst, true, false, not, ◌&&◌, Option,
  none, some, List, [], ◌∷◌, ◌++◌, append_assoc, append-nil, map, arith, All, All-append, All-imp,
  Bool-cases, inl, inr, ◌==◌, length,
}
use pado_fs.Base.Word.{u64_mod}
use pado_fs.Inode.{Inode, Env, new_inode, update, is_deleted}
use pado_fs.Layout.Spots.{Where, spot, last_offset, Within}
use pado_fs.Layout.Places.{Serves, Serves-imp, place}
use pado_fs.Read.{pado_getinode_all, pado_getinode_meta, saved, Saved, Meta}
use pado_fs.Read.Served.{Holds-IsLayout}
use pado_fs.Container.{
  set_inode, Container, Backup, find_inode, acquire_inode, create_inode, backup_list, do_backup,
  read_extents, restore_extents, restore_one, do_restore, empty_container,
}
use pado_fs.Container.Invariant.{IsContainer, IsUnique, absent, absent-snoc, absent-find_inode}
use pado_fs.Container.Restored.{
  or_else, replayed, IsSaved, replayed-saved, restore_extents-Serves, restore_extents-IsFile,
  pado_getinode_all-extents, saved-IsSaved, restore_extents-version, restore_extents-size,
}

-- The inode that is made from a backup before its extents are written.
abbrev with_fields : Meta → Inode → Inode
with_fields m i = record i {
  flags = m.flags;
  atime = m.atime;
  mtime = m.mtime;
  refcount = 0;
  version = m.version;
}

abbrev unwritten : Backup → Inode
unwritten b = with_fields b.whole.fields (new_inode b.ino b.whole.fields.size)

-- The inode `j` is the file that `i` was, with its positions where `want` says, and unused.
pub record IsCopy (want : ℕ → Option Where) (i j : Inode) : Type 0 where
  pub ino : j.ino ≡ i.ino
  pub flags : j.flags ≡ i.flags
  pub unused : j.refcount ≡ 0
  pub serves : Serves want j
  pub version : i.version + length i.chain < u64_mod → j.version ≡ i.version + length i.chain
  pub size : All (λ x. (i.exts x).off_f + (i.exts x).length ≤ i.size) i.chain → j.size ≡ i.size

abbrev nowhere_at : ℕ → Option Where
nowhere_at p = none

unwritten-Serves : (b : Backup) → Serves nowhere_at (unwritten b)
unfolding new_inode spot
unwritten-Serves b = record {
  spots = λ p. none;
  holds = record {
    zs = [];
    linked = record { chain = refl; order = refl; avl = tt };
    distinct = tt;
    below = tt;
    sorted = omega arith;
    says = λ p. refl;
  };
  table = tt;
  made = λ p. tt;
  names = λ p. refl;
}

abbrev backup_of : Inode → Backup
backup_of i = record { ino = i.ino; whole = pado_getinode_all (some i) }

read_extents-all : (ss : List Saved) → read_extents (length ss) ss ≡ some ss
unfolding read_extents
read_extents-all [] = refl
read_extents-all (s ∷ ss) = rw (read_extents-all ss) refl

length-map : {A : Type 0} (f : ℕ → A) (xs : List ℕ) → length (map f xs) ≡ length xs
length-map f [] = refl
length-map f (x ∷ xs) = ap suc (length-map f xs)

-- The count in a backup is that of the extents behind it.
backup_of-read :
    (i : Inode) (want : ℕ → Option Where)
    → Serves want i
    → i.num_exts ≡ length i.chain
    → let b = backup_of i in read_extents b.whole.num b.whole.extents ≡ some b.whole.extents
unfolding pado_getinode_all
backup_of-read i want s n =
    let ss = (backup_of i).whole.extents in
    let e : ss ≡ map (saved i) i.chain =
      pado_getinode_all-extents i (Holds-IsLayout s.spots i s.holds) in
    let m : i.num_exts ≡ length ss = n ∙ sym (ap length e ∙ length-map (saved i) i.chain) in
    ap (λ k. read_extents k ss) m ∙ read_extents-all ss

-- One inode written back from its backup.
rewritten-IsCopy :
    (env : Env) (i : Inode) (want : ℕ → Option Where)
    → Serves want i
    → IsCopy want i (restore_extents env (backup_of i).whole.extents (unwritten (backup_of i)))
unfolding new_inode pado_getinode_all pado_getinode_meta
rewritten-IsCopy env i want s =
    let b = backup_of i in
    let f = restore_extents-IsFile env b.whole.extents (unwritten b) in
    let w : Within 0 last_offset (map i.exts i.chain) =
      subst (λ zs. Within 0 last_offset (map i.exts zs)) (sym s.holds.linked.chain)
        s.holds.sorted in
    let e : b.whole.extents ≡ map (saved i) i.chain =
      pado_getinode_all-extents i (Holds-IsLayout s.spots i s.holds) in
    let says : (p : ℕ) → replayed (map (saved i) i.chain) nowhere_at p ≡ want p = λ p.
      replayed-saved i i.chain 0 nowhere_at p w
      ∙ (or_else_none (place i (spot (map i.exts i.chain) p))
          ∙ (ap (λ zs. place i (spot (map i.exts zs) p)) s.holds.linked.chain
              ∙ (ap (place i) (s.holds.says p) ∙ s.names p))) in
    record {
      ino = f.ino;
      flags = f.flags;
      unused = f.refcount;
      serves = Serves-imp _ want _ says (
          subst
            (λ ss.
              Serves (replayed ss nowhere_at) (restore_extents env b.whole.extents (unwritten b)))
            e
            (restore_extents-Serves env b.whole.extents (unwritten b) nowhere_at
              (unwritten-Serves b) (subst (All IsSaved) (sym e) (saved-IsSaved i 0 i.chain w))));
      version = λ h.
          let n : length b.whole.extents ≡ length i.chain =
            ap length e ∙ length-map (saved i) i.chain in
          restore_extents-version env b.whole.extents (unwritten b) (omega arith) ∙ (omega arith);
      size = λ h.
          restore_extents-size env b.whole.extents (unwritten b)
            (subst (All IsSaved) (sym e) (saved-IsSaved i 0 i.chain w))
            (subst (All (λ s. s.off_f + s.length ≤ i.size)) (sym e)
              (ends_saved i i.size i.chain h));
    }
  where
    ends_saved :
        (i : Inode) (n : ℕ) (xs : List ℕ)
        → All (λ x. (i.exts x).off_f + (i.exts x).length ≤ n) xs
        → All (λ s. s.off_f + s.length ≤ n) (map (saved i) xs)
    ends_saved i n [] h = tt
    ends_saved i n (x ∷ xs) h = (h.0, ends_saved i n xs h.1)

    or_else_none : (o : Option Where) → or_else o none ≡ o
    or_else_none none = refl
    or_else_none (some a) = refl

-- What `restore_one` makes of a container without the number.
record IsAdded (c : Container) (j : Inode) (r : Container) : Type 0 where
  map_of : r.inode_map ≡ c.inode_map ++ c.next ∷ []
  next : r.next ≡ c.next + 1
  here : r.inodes c.next ≡ j
  others : (h : ℕ) → h < c.next → r.inodes h ≡ c.inodes h

restore_one-IsAdded :
    (env : Env) (b : Backup) (c : Container)
    → find_inode c.inodes b.ino c.inode_map ≡ none
    → read_extents b.whole.num b.whole.extents ≡ some b.whole.extents
    → (r : Container) × (restore_one env b c ≡ some r)
      × IsAdded c (restore_extents env b.whole.extents (unwritten b)) r
unfolding restore_one create_inode
restore_one-IsAdded env b c e k =
    let n = c.next in
    let q = create_inode b.ino b.whole.fields.size c in
    let r =
      set_inode q.1
        (restore_extents env b.whole.extents (with_fields b.whole.fields (q.0.inodes q.1))) q.0 in
    let here : (f : ℕ → Inode) (i : Inode) → update f n i n ≡ i = λ f i. ground arith in
    (
      r,
      rw (k, restore_one) refl,
      rw (e, create_inode)
          (record {
            map_of = refl;
            next = refl;
            here =
                here (update c.inodes n (new_inode b.ino b.whole.fields.size)) _
                ∙ ap (λ i. restore_extents env b.whole.extents (with_fields b.whole.fields i))
                    (here c.inodes (new_inode b.ino b.whole.fields.size));
            others = λ h l. ground arith;
          }),
    )

-- The inodes `js` of a container are, in order, copies of those of `hs` that are not deleted.
unfoldable Copies : (f g : ℕ → Inode) (want : ℕ → ℕ → Option Where) → List ℕ → List ℕ → Type 0
Copies f g want [] js = js ≡ []
Copies f g want (h ∷ hs) [] = (is_deleted (f h) ≡ true) × Copies f g want hs []
Copies f g want (h ∷ hs) (j ∷ js) =
    ((is_deleted (f h) ≡ true) × Copies f g want hs (j ∷ js))
    ⊎ ((is_deleted (f h) ≡ false) × IsCopy (want h) (f h) (g j) × Copies f g want hs js)

-- A copy is found under the number of what it is a copy of.
find_inode-Copies :
    (f g : ℕ → Inode) (want : ℕ → ℕ → Option Where) (ino h : ℕ) (hs js : List ℕ)
    → Copies f g want hs js
    → find_inode f ino hs ≡ some h
    → is_deleted (f h) ≡ false
    → (j : ℕ) × (find_inode g ino js ≡ some j) × IsCopy (want h) (f h) (g j)
unfolding find_inode Copies
find_inode-Copies f g want ino h [] js c e d = cc
find_inode-Copies f g want ino h (x ∷ xs) [] c e d = elim (Bool-cases ((f x).ino == ino)) [
  | inl t ↦
      let e' : some x ≡ some h = rw t at e in
      let q : x ≡ h = cc in
      let d' : is_deleted (f x) ≡ false = subst (λ y. is_deleted (f y) ≡ false) (sym q) d in
      let a : is_deleted (f x) ≡ true = c.0 in cc
  | inr t ↦ find_inode-Copies f g want ino h xs [] c.1 (rw t at e) d
]
find_inode-Copies f g want ino h (x ∷ xs) (y ∷ ys) c e d = elim (Bool-cases ((f x).ino == ino)) [
  | inl t ↦
      let e' : some x ≡ some h = rw t at e in
      let q : x ≡ h = cc in
      let d' : is_deleted (f x) ≡ false = subst (λ y. is_deleted (f y) ≡ false) (sym q) d in
      elim c [
        | inl (k, _) ↦ cc
        | inr (_, k, _) ↦ (
          y,
          (let b : (g y).ino == ino ≡ true = ap (λ n. n == ino) k.ino ∙ t in rw b refl),
          subst (λ z. IsCopy (want z) (f z) (g y)) q k,
        )
      ]
  | inr t ↦
      let e' : find_inode f ino xs ≡ some h = rw t at e in
      elim c [
        | inl (_, k) ↦ find_inode-Copies f g want ino h xs (y ∷ ys) k e' d
        | inr (_, k, m) ↦
            let b : (g y).ino == ino ≡ false = ap (λ n. n == ino) k.ino ∙ t in
            let (j, u, v) = find_inode-Copies f g want ino h xs ys m e' d in (j, rw b u, v)
      ]
]

-- A number is absent where other pointers only have changed.
absent-same :
    (f g : ℕ → Inode) (n ino : ℕ) (hs : List ℕ)
    → ((h : ℕ) → h < n → g h ≡ f h)
    → All (λ h. h < n) hs
    → absent g ino hs ≡ absent f ino hs
absent-same f g n ino [] e a = refl
absent-same f g n ino (x ∷ xs) e a =
    ap₂ (λ i b. not (i.ino == ino) && b) (e x a.0) (absent-same f g n ino xs e a.1)

-- What the restoration of the inodes `hs` adds to a container.
record IsRestored (f : ℕ → Inode) (want : ℕ → ℕ → Option Where) (hs : List ℕ) (c r : Container)
    : Type 0 where
  js : List ℕ
  map_of : r.inode_map ≡ c.inode_map ++ js
  copies : Copies f r.inodes want hs js
  others : (h : ℕ) → h < c.next → r.inodes h ≡ c.inodes h

write_back_each :
    (env : Env) (f : ℕ → Inode) (want : ℕ → ℕ → Option Where) (hs : List ℕ) (c : Container)
    → IsUnique f hs
    → All (λ h. Serves (want h) (f h)) hs
    → All (λ h. h < c.next) c.inode_map
    → All (λ h. absent c.inodes (f h).ino c.inode_map ≡ true) hs
    → All (λ h. (f h).num_exts ≡ length (f h).chain) hs
    → (r : Container) × (do_restore env (backup_list f hs) c ≡ some r) × IsRestored f want hs c r
unfolding do_restore backup_list Copies
write_back_each env f want [] c u s b a n = (
  c,
  refl,
  record { js = []; map_of = sym (append-nil c.inode_map); copies = refl; others = λ h l. refl },
)
write_back_each env f want (x ∷ xs) c u s b a m = elim (Bool-cases (is_deleted (f x))) [
  | inl d ↦
      let (r, g, k) = write_back_each env f want xs c u.1 s.1 b a.1 m.1 in
      rw d (
        r,
        g,
        record {
          js = k.js;
          map_of = k.map_of;
          copies = gone f _ want x xs k.js d k.copies;
          others = k.others;
        },
      )
  | inr d ↦
      let n = c.next in
      let z = backup_of (f x) in
      let (c', p, q) =
        restore_one-IsAdded env z c (absent-find_inode c.inodes (f x).ino c.inode_map a.0)
          (backup_of-read (f x) (want x) s.0 m.0) in
      let copy = rewritten-IsCopy env (f x) (want x) s.0 in
      let copy' : IsCopy (want x) (f x) (c'.inodes n) =
        subst (IsCopy (want x) (f x)) (sym q.here) copy in
      let below : All (λ h. h < c'.next) c'.inode_map =
        subst (λ hs. All (λ h. h < c'.next) hs) (sym q.map_of)
          (subst (λ m. All (λ h. h < m) (c.inode_map ++ n ∷ [])) (sym q.next)
            (All-append (λ h. h < n + 1) c.inode_map (n ∷ [])
              (All-imp (λ h k. omega arith) c.inode_map b) (omega arith, tt))) in
      let free =
        λ (ino : ℕ) (e : absent c.inodes ino c.inode_map ≡ true) (t : ((f x).ino == ino) ≡ false).
          let m : absent c'.inodes ino c'.inode_map ≡ true =
            ap (absent c'.inodes ino) q.map_of
            ∙ (absent-snoc c'.inodes ino c.inode_map n
                ∙ ap₂ (λ v w. v && not w)
                    (absent-same c.inodes c'.inodes n ino c.inode_map q.others b ∙ e)
                    (ap (λ y. y == ino) copy'.ino ∙ t)) in
          m in
      let (r, g, k) =
        write_back_each env f want xs c' u.1 s.1 below (still_absent f x xs c c' u.0 a.1 free)
          m.1 in
      let l = q.next in
      let g' : do_restore env (z ∷ backup_list f xs) c ≡ some r =
        subst
          (λ o.
            ◌≡◌ {A = Option Container}
              (elim o [ none ↦ none | some c' ↦ do_restore env (backup_list f xs) c' ]) (some r))
          (sym p) g in
      rw d (
        r,
        g',
        record {
          js = n ∷ k.js;
          map_of =
              k.map_of ∙ (ap (λ hs. hs ++ k.js) q.map_of ∙ append_assoc c.inode_map (n ∷ []) k.js);
          copies =
              inr
                (d, subst (IsCopy (want x) (f x)) (sym (k.others n (omega arith))) copy', k.copies);
          others = λ h m. k.others h (omega arith) ∙ q.others h m;
        },
      )
]
  where
    gone :
        (f g : ℕ → Inode) (want : ℕ → ℕ → Option Where) (x : ℕ) (xs js : List ℕ)
        → is_deleted (f x) ≡ true
        → Copies f g want xs js
        → Copies f g want (x ∷ xs) js
    gone f g want x xs [] d k = (d, k)
    gone f g want x xs (j ∷ js) d k = inl (d, k)

    still_absent :
        (f : ℕ → Inode) (x : ℕ) (xs : List ℕ) (c c' : Container)
        → absent f (f x).ino xs ≡ true
        → All (λ h. absent c.inodes (f h).ino c.inode_map ≡ true) xs
        → ((ino : ℕ)
            → absent c.inodes ino c.inode_map ≡ true
            → ((f x).ino == ino) ≡ false
            → absent c'.inodes ino c'.inode_map ≡ true)
        → All (λ h. absent c'.inodes (f h).ino c'.inode_map ≡ true) xs
    still_absent f x [] c c' u a g = tt
    still_absent f x (y ∷ ys) c c' u a g =
        (g (f y).ino a.0 (ground arith), still_absent f x ys c c' (ground arith) a.1 g)

-- A server whose inode map has pointers made before and at most one inode to a number, and whose
-- inodes keep their positions where `want` says and have as many extents as `num_exts` says, backed
-- up and restored into an empty server: the restoration reads the whole backup, and each inode that
-- is found under a number and is not deleted is found again under it, with its flags, with each
-- position at the same host, object and position, with no user, with its size if no extent ends
-- behind it, and, if the sum is less than 2 ^ 64, with a version that has grown by the number of
-- its extents.
pub do_restore-do_backup :
    (env : Env) (c : Container) (want : ℕ → ℕ → Option Where) (ino h : ℕ)
    → IsContainer c
    → All (λ h. Serves (want h) (c.inodes h)) c.inode_map
    → All (λ h. (c.inodes h).num_exts ≡ length (c.inodes h).chain) c.inode_map
    → acquire_inode ino c ≡ some h
    → is_deleted (c.inodes h) ≡ false
    → (r : Container) × (do_restore env (do_backup c) empty_container ≡ some r)
      × ((j : ℕ) × (acquire_inode ino r ≡ some j) × IsCopy (want h) (c.inodes h) (r.inodes j))
unfolding do_backup acquire_inode
do_restore-do_backup env c want ino h v s n e d =
    let (r, g, k) =
      write_back_each env c.inodes want c.inode_map empty_container v.unique s tt
        (all_free c.inodes c.inode_map) n in
    let (j, f, m) = find_inode-Copies c.inodes _ want ino h c.inode_map k.js k.copies e d in
    (r, g, (j, ap (find_inode _ ino) k.map_of ∙ f, m))
  where
    all_free : (f : ℕ → Inode) (hs : List ℕ) → All (λ h. absent f (f h).ino [] ≡ true) hs
    all_free f [] = tt
    all_free f (x ∷ xs) = (refl, all_free f xs)
