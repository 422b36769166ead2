-- ===== src/Read/Clone.antt =====
-- `pado_read` (incont.c) as a whole, for a clone and for a plain read.
use pado_fs.Base.{
  ℕ, suc, ◌+◌, ◌-◌, ◌*◌, ◌≤◌, ◌<◌, ◌≡◌, refl, sym, ap, ◌∙◌, subst, Bool, true, false, ◌&&◌, none,
  some, List, [], ◌∷◌, arith, leb, ltb, min, max, length, if◌then◌else◌, Bool-cases, inl, inr,
  lt→not-leb, leb→le, not-leb→lt, lt→ltb, ==_refl,
}
use native.Mathlib.Nat.{zero-add}
use pado_fs.Base.Word.{add64, sub64, u64_mod, sub64_lem}
use pado_fs.Base.Distinct.{head?, has, IsDistinct}
use pado_fs.Inode.{Extent, Dobject, Inode}
use pado_fs.Layout.{end_of, find_start_extent}
use pado_fs.Layout.Sorted.{IsProper, IsSorted, end_of_lem, drop_ended}
use pado_fs.Layout.Find.{find_start_extent-head}
use pado_fs.Layout.Valid.{IsLayout}
use pado_fs.Read.{Source, read_loop, mapped, pado_read, from_extent, from_pointer}
use pado_fs.Read.Fetch.{lookup, fetch, fetch-hit, lookup-skip}
use pado_fs.Read.Holes.{where_is, Tiles, IsAhead, read_loop-Covers, lookup-behind}

module _ (f : ℕ → Extent) (start : ℕ) where
  drop_ended-length : (xs : List ℕ) → length (drop_ended f start xs) ≤ length xs
  unfolding drop_ended
  drop_ended-length [] = omega arith
  drop_ended-length (x ∷ xs) = ground (arith, drop_ended-length xs)

  has-drop_ended : (a : ℕ) (xs : List ℕ) → has a xs ≡ false → has a (drop_ended f start xs) ≡ false
  unfolding drop_ended
  has-drop_ended a [] h = refl
  has-drop_ended a (x ∷ xs) h = ground (arith, has-drop_ended a xs)

  from_pointer-drop :
      (xs : List ℕ)
      → IsDistinct xs
      → from_pointer (head? (drop_ended f start xs)) xs ≡ drop_ended f start xs
  unfolding drop_ended from_extent
  from_pointer-drop [] u = refl
  from_pointer-drop (x ∷ xs) u = elim (Bool-cases (leb (end_of (f x)) start)) [
    | inl e ↦ rw e (
        from_pointer-skip x xs (drop_ended f start xs) (has-drop_ended x xs u.0)
          (from_pointer-drop xs u.1))
    | inr e ↦ rw (e, ==_refl x)
  ]
    where
      from_pointer-skip :
          (x : ℕ) (xs ys : List ℕ)
          → has x ys ≡ false
          → from_pointer (head? ys) xs ≡ ys
          → from_pointer (head? ys) (x ∷ xs) ≡ ys
      from_pointer-skip x xs [] h k = refl
      from_pointer-skip x xs (y ∷ ys) h k = ground arith

  lookup-drop_ended :
      (g : ℕ → Dobject) (lo : ℕ) (xs : List ℕ) (p : ℕ)
      → IsSorted f lo xs
      → start ≤ p
      → lookup f g (drop_ended f start xs) p ≡ lookup f g xs p
  unfolding drop_ended
  lookup-drop_ended g lo [] p s h = refl
  lookup-drop_ended g lo (x ∷ xs) p s h = elim (Bool-cases (leb (end_of (f x)) start)) [
    | inl e ↦
        let k = leb→le (end_of (f x)) start e in
        let q = end_of_lem (f x) s.1 in
        rw e (
          lookup-drop_ended g ((f x).off_f + (f x).length) xs p s.2 h
          ∙ sym (lookup-skip f g x xs p (omega arith)))
    | inr e ↦ rw e
  ]

drop_ended-IsAhead :
    (c : Source) (start lo : ℕ) (xs : List ℕ)
    → IsSorted c.exts lo xs
    → IsAhead c (drop_ended c.exts start xs) start
unfolding drop_ended
drop_ended-IsAhead c start lo [] s = tt
drop_ended-IsAhead c start lo (x ∷ xs) s = elim (Bool-cases (leb (end_of (c.exts x)) start)) [
  | inl e ↦ rw e (drop_ended-IsAhead c start ((c.exts x).off_f + (c.exts x).length) xs s.2)
  | inr e ↦ rw e (
    subst (λ n. start < n) (end_of_lem (c.exts x) s.1) (not-leb→lt (end_of (c.exts x)) start e),
    s.1,
    s.2,
  )
]

no_flag : (flag t : Bool) → flag ≡ false → (flag && t) ≡ false
no_flag flag t h = ground arith

sub_self : (n : ℕ) → n - n ≡ 0
sub_self n = omega arith

add64_padded : (a b : ℕ) → add64 (add64 a (max b 0)) 0 ≡ add64 a b
unfolding add64
add64_padded a b = omega arith

-- A round of a plain read, at a hole or not: it sends the next extent.
plain_first :
    (c : Source)
    → c.flag ≡ false
    → (x : ℕ) (xs : List ℕ) (fuel off_f offset : ℕ) → off_f < c.stop
    → (c.exts x).off_f < c.stop
    → IsProper (c.exts x)
    → c.stop < u64_mod
    → off_f < (c.exts x).off_f + (c.exts x).length
    → (n : ℕ) → n ≡ suc fuel
    → fetch (read_loop c n (x ∷ xs) off_f offset).0 offset
      ≡ some (record {
        hid = (c.dobs (c.exts x).dobj).host_id;
        loid = (c.dobs (c.exts x).dobj).loid;
        at = add64 (c.exts x).off_do (sub64 off_f (c.exts x).off_f);
      })
unfolding read_loop
plain_first c plain x xs fuel off_f offset h k q b l n en =
    let e = c.exts x in
    let z = sub64_lem (min c.stop (e.off_f + e.length)) off_f (omega arith) (omega arith) in
    let y = ap (λ w. sub64 (min c.stop w) off_f) (end_of_lem e q) in
    rw
      (
        en,
        no_flag c.flag (ltb off_f (min c.stop e.off_f)) plain,
        lt→ltb off_f c.stop h,
        lt→ltb e.off_f c.stop k,
      )
      (fetch-hit (mapped c x off_f offset) _ offset (omega arith) (omega (arith, z, y))
        ∙ ap
            (λ a.
              some (record { hid = (c.dobs e.dobj).host_id; loid = (c.dobs e.dobj).loid; at = a }))
            (ap (add64 (add64 e.off_do (max (sub64 off_f e.off_f) 0))) (sub_self offset)
              ∙ add64_padded e.off_do (sub64 off_f e.off_f)))

-- What the rounds of `pado_read` read.
abbrev pub source : Inode → Bool → ℕ → Source
source i flag stop = record {
  exts = i.exts;
  dobs = i.dobs;
  flag = flag;
  bino = i.ino;
  stop = min stop i.size;
}

module _ (i : Inode) (v : IsLayout i) (start stop : ℕ) where
  -- The descent and the walk start at the first extent that ends behind `start`.
  pub cursor :
      from_pointer (find_start_extent i.exts i.chain start i.flayout) i.chain
      ≡ drop_ended i.exts start i.chain
  cursor =
      ap (λ o. from_pointer o i.chain)
        (find_start_extent-head i.exts i.chain start i.flayout v.distinct v.sorted v.order)
      ∙ from_pointer-drop i.exts start i.chain v.distinct

  module _ (h : start < min stop i.size) where
    pado_read-segments :
        (flag : Bool)
        → (pado_read i flag start stop).0
          ≡ (read_loop
              (source i flag stop)
              (2 * length i.chain + 2)
              (drop_ended i.exts start i.chain)
              start
              (if flag then 0 else start)).0
    unfolding pado_read
    pado_read-segments flag = rw (lt→not-leb (min stop i.size) start h, cursor)

    -- For a well-formed layout of a file shorter than 2 ^ 64 and a range that begins before its
    -- end: the segments sent for a clone (`flag` set) tile the range, cut at the end of the file,
    -- from offset 0 on without gap or overlap, and say of every position of it what the layout
    -- says, or, where no extent is, the same position of the base file.
    pub pado_read-clone :
        i.size < u64_mod
        → Tiles 0 (min stop i.size - start) (pado_read i true start stop).0
          × ((p : ℕ)
              → start ≤ p
              → p < min stop i.size
              → fetch (pado_read i true start stop).0 (p - start)
                ≡ some (where_is (source i true stop) i.chain p))
    unfolding where_is
    pado_read-clone b =
        let c = source i true stop in
        let ys = drop_ended i.exts start i.chain in
        let segments = λ (c : Source) (ys : List ℕ) (start offset : ℕ).
          (read_loop c (2 * length i.chain + 2) ys start offset).0 in
        let w =
          read_loop-Covers c refl (omega arith) (2 * length i.chain + 2) ys start 0
            (let n = drop_ended-length i.exts start i.chain in omega arith) (omega arith)
            (omega arith) (drop_ended-IsAhead c start 0 i.chain v.sorted) in
        rw (pado_read-segments true) (
          subst (λ n. Tiles 0 n (segments c ys start 0)) (zero-add (min stop i.size - start))
              w.tiles,
          λ p lo hi.
              ap (fetch (segments c ys start 0)) (sym (zero-add (p - start)))
              ∙ (w.says p lo hi
                  ∙ ap
                      (λ o.
                        some (elim o [
                          | none ↦ record { hid = 0; loid = c.bino; at = p }
                          | some u ↦ u
                        ]))
                      (lookup-drop_ended i.exts start i.dobs 0 i.chain p v.sorted lo)),
        )

    -- For a well-formed layout of a file shorter than 2 ^ 64, a plain read (`flag` not set) whose
    -- range begins in a hole and goes on into an extent: no extent holds the first position, and
    -- the segments sent place it in that extent's object, at an offset of `off_do` plus the
    -- wrapped difference.
    pub pado_read-hole :
        (x : ℕ) (xs : List ℕ)
        → drop_ended i.exts start i.chain ≡ x ∷ xs
        → start < (i.exts x).off_f
        → (i.exts x).off_f < min stop i.size
        → i.size < u64_mod
        → (lookup i.exts i.dobs i.chain start ≡ none)
          × (fetch (pado_read i false start stop).0 start
              ≡ some (record {
                hid = (i.dobs (i.exts x).dobj).host_id;
                loid = (i.dobs (i.exts x).dobj).loid;
                at = add64 (i.exts x).off_do (sub64 start (i.exts x).off_f);
              }))
    pado_read-hole x xs e a k b =
        let c = source i false stop in
        let r : IsAhead c (x ∷ xs) start =
          subst (λ ys. IsAhead c ys start) e (drop_ended-IsAhead c start 0 i.chain v.sorted) in
        let q = r.1 in
        (
          sym (lookup-drop_ended i.exts start i.dobs 0 i.chain start v.sorted (omega arith))
              ∙ (ap (λ ys. lookup i.exts i.dobs ys start) e
                  ∙ lookup-behind c (i.exts x).off_f (x ∷ xs) start (omega arith, r.1, r.2) a),
          rw (pado_read-segments false, e)
              (plain_first c refl x xs (2 * length i.chain + 1) start start h k q (omega arith) r.0
                (2 * length i.chain + 2) (omega arith)),
        )
