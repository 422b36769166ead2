-- ===== src/Read/Served.antt =====
-- What `pado_read` (incont.c) says of a layout whose positions are known by host and object.
use pado_fs.Base.{
  ℕ, ◌+◌, ◌-◌, ◌≤◌, ◌<◌, ◌≡◌, refl, sym, ap, ◌∙◌, subst, true, Option, none, some, List, [], ◌∷◌,
  map, arith, ltb, leb, min, Bool-cases, inl, inr, ◌&&◌,
}
use pado_fs.Base.Word.{u64_mod}
use pado_fs.Base.Distinct.{IsDistinct}
use pado_fs.Inode.{Extent, Inode}
use pado_fs.Layout.Sorted.{IsSorted}
use pado_fs.Layout.Valid.{IsLayout}
use pado_fs.Layout.Spots.{Within, Spot, Where, spot, last_offset, Within-le}
use pado_fs.Layout.Content.{Holds}
use pado_fs.Layout.Places.{Serves, place}
use pado_fs.Read.{pado_read}
use pado_fs.Read.Fetch.{fetch, lookup}
use pado_fs.Read.Holes.{Tiles, where_is}
use pado_fs.Read.Clone.{pado_read-clone}

Within-IsSorted :
    (f : ℕ → Extent) (lo : ℕ) (zs : List ℕ) → Within lo last_offset (map f zs) → IsSorted f lo zs
Within-IsSorted f lo [] w = tt
Within-IsSorted f lo (z ∷ zs) w =
    let a = Within-le _ last_offset (map f zs) w.2 in
    (w.0, (w.1, omega arith), Within-IsSorted f ((f z).off_f + (f z).length) zs w.2)

-- A layout that holds its positions somewhere is well-formed.
pub Holds-IsLayout : (want : ℕ → Option Spot) (i : Inode) → Holds want i → IsLayout i
Holds-IsLayout want i h =
    let e = sym h.linked.chain in
    record {
      order = h.linked.order ∙ e;
      avl = h.linked.avl;
      distinct = subst IsDistinct e h.distinct;
      sorted = subst (IsSorted i.exts 0) e (Within-IsSorted i.exts 0 h.zs h.sorted);
    }

lookup-place :
    (i : Inode) (zs : List ℕ) (p : ℕ) → lookup i.exts i.dobs zs p ≡ place i (spot (map i.exts zs) p)
unfolding lookup spot
lookup-place i [] p = refl
lookup-place i (z ∷ zs) p =
    elim (Bool-cases (leb (i.exts z).off_f p && ltb p ((i.exts z).off_f + (i.exts z).length))) [
      | inl e ↦ rw e refl
      | inr e ↦ rw e (lookup-place i zs p)
    ]

-- Where no place is known, the position is that of the base file.
abbrev pub or_base : ℕ → ℕ → Option Where → Where
or_base bino p none = record { hid = 0; loid = bino; at = p }
or_base bino p (some w) = w

-- A layout that keeps each position at the host, object and position that `want` says, of a file
-- shorter than 2 ^ 64, and a range that begins before its end: the segments that `pado_read`
-- sends for a clone tile the range, cut at the end of the file, and say of every position of it
-- what `want` says, or, where that is nowhere, the same position of the base file.
pub pado_read-Serves :
    (i : Inode) (want : ℕ → Option Where) (start stop : ℕ)
    → Serves want i
    → i.size < u64_mod
    → start < min stop i.size
    → Tiles 0 (min stop i.size - start) (pado_read i true start stop).0
      × ((p : ℕ)
          → start ≤ p
          → p < min stop i.size
          → fetch (pado_read i true start stop).0 (p - start) ≡ some (or_base i.ino p (want p)))
unfolding where_is
pado_read-Serves i want start stop s b h =
    let v = Holds-IsLayout s.spots i s.holds in
    let (t, f) = pado_read-clone i v start stop h b in
    (
      t,
      λ p lo hi.
          let e : lookup i.exts i.dobs i.chain p ≡ want p =
            lookup-place i i.chain p
            ∙ (ap (λ zs. place i (spot (map i.exts zs) p)) s.holds.linked.chain
                ∙ (ap (place i) (s.holds.says p) ∙ s.names p)) in
          f p lo hi
          ∙ ap (λ o. some (elim o [ none ↦ record { hid = 0; loid = i.ino; at = p } | some u ↦ u ]))
              e
          ∙ or_base_lem i.ino p (want p),
    )
  where
    or_base_lem :
        (bino p : ℕ) (o : Option Where)
        → ◌≡◌ {A = Option Where}
            (some (elim o [ none ↦ record { hid = 0; loid = bino; at = p } | some u ↦ u ]))
            (some (or_base bino p o))
    or_base_lem bino p none = refl
    or_base_lem bino p (some u) = refl
