-- ===== src/Layout/Trim.antt =====
-- Extents cut off at the end of the range of `replace` (incont.c).
use pado_fs.Base.{
  true, false, map, ℕ, ◌+◌, ◌-◌, ◌%◌, ◌≤◌, ◌<◌, ◌≡◌, refl, ap, ◌∙◌, some, List, [], ◌∷◌, arith, leb,
  ltb, if◌then◌else◌, le→leb, lt→ltb, le→not-ltb, lt→not-leb,
}
use native.Mathlib.Decide.{dec_lt}
use pado_fs.Base.Word.{add64, sub64, u64_mod, add64_lem, sub64_lem}
use pado_fs.Inode.{Extent}
use pado_fs.Layout.{end_of}
use pado_fs.Layout.Spots.{
  Within, last_offset, spot, spot-hit, spot-behind, Within-le, Within-wider, add64_assoc,
}

-- What is left of extents when the file is cut off before `stop`.
unfoldable pub trim : ℕ → List Extent → List Extent
trim stop [] = []
trim stop (e ∷ es) =
    let cut : Extent = record e {
      off_f = add64 e.off_f (sub64 stop e.off_f);
      off_do = add64 e.off_do (sub64 stop e.off_f);
      length = sub64 e.length (sub64 stop e.off_f);
    } in
    if leb stop e.off_f then e ∷ es else if ltb stop (end_of e) then cut ∷ es else trim stop es

trim-ahead :
    (stop : ℕ) (e : Extent) (es : List Extent) → stop ≤ e.off_f → trim stop (e ∷ es) ≡ e ∷ es
unfolding trim
trim-ahead stop e es h = rw (le→leb stop e.off_f h) refl

trim-skip :
    (stop : ℕ) (e : Extent) (es : List Extent)
    → 0 < e.length
    → e.off_f + e.length ≤ stop
    → stop ≤ last_offset
    → trim stop (e ∷ es) ≡ trim stop es
unfolding trim end_of add64
trim-skip stop e es h k l =
    let n : (e.off_f + e.length) % u64_mod ≡ e.off_f + e.length = omega arith in
    rw (lt→not-leb stop e.off_f (omega arith), n, le→not-ltb stop (e.off_f + e.length) k) refl

-- The extent that reaches over `stop`, cut off.
abbrev cut_at : ℕ → Extent → Extent
cut_at stop e = record e {
  off_f = stop;
  off_do = add64 e.off_do (stop - e.off_f);
  length = e.off_f + e.length - stop;
}

trim-cut :
    (stop : ℕ) (e : Extent) (es : List Extent)
    → e.off_f < stop
    → stop < e.off_f + e.length
    → e.off_f + e.length ≤ last_offset
    → trim stop (e ∷ es) ≡ cut_at stop e ∷ es
unfolding trim end_of
trim-cut stop e es h k l =
    let d : sub64 stop e.off_f ≡ stop - e.off_f =
      sub64_lem stop e.off_f (omega arith) (omega arith) in
    let n : add64 e.off_f e.length ≡ e.off_f + e.length =
      add64_lem e.off_f e.length (omega arith) in
    let m : add64 e.off_f (stop - e.off_f) ≡ stop =
      add64_lem e.off_f (stop - e.off_f) (omega arith) ∙ (omega arith) in
    let r : sub64 e.length (stop - e.off_f) ≡ e.off_f + e.length - stop =
      sub64_lem e.length (stop - e.off_f) (omega arith) (omega arith) ∙ (omega arith) in
    rw (lt→not-leb stop e.off_f h, n, lt→ltb stop (e.off_f + e.length) k, d, m, r) refl

pub trim-Within :
    (lo stop : ℕ) (es : List Extent)
    → Within lo last_offset es
    → stop ≤ last_offset
    → Within stop last_offset (trim stop es)
unfolding trim
trim-Within lo stop [] w h = h
trim-Within lo stop (e ∷ es) w h =
    let q = Within-le (e.off_f + e.length) last_offset es w.2 in
    elim (dec_lt e.off_f stop) [
      | no k ↦ rw (trim-ahead stop e es (omega arith)) (omega arith, w.1, w.2)
      | yes k ↦ elim (dec_lt stop (e.off_f + e.length)) [
        | yes l ↦ rw (trim-cut stop e es k l q) (
          omega arith,
          omega arith,
          Within-wider (e.off_f + e.length) _ last_offset last_offset es (omega arith) (omega arith)
              w.2,
        )
        | no l ↦
            rw (trim-skip stop e es w.1 (omega arith) h)
              (trim-Within (e.off_f + e.length) stop es w.2 h)
      ]
    ]

-- From `stop` on nothing changes.
pub spot-trim :
    (lo stop : ℕ) (es : List Extent) (p : ℕ)
    → Within lo last_offset es
    → stop ≤ last_offset
    → stop ≤ p
    → spot (trim stop es) p ≡ spot es p
unfolding trim
spot-trim lo stop [] p w h g = refl
spot-trim lo stop (e ∷ es) p w h g =
    let q = Within-le (e.off_f + e.length) last_offset es w.2 in
    elim (dec_lt e.off_f stop) [
      | no k ↦ rw (trim-ahead stop e es (omega arith)) refl
      | yes k ↦ elim (dec_lt stop (e.off_f + e.length)) [
        | yes l ↦ rw (trim-cut stop e es k l q) (elim (dec_lt p (e.off_f + e.length)) [
          | yes m ↦
              rw
                (
                  spot-hit (cut_at stop e) es p (omega arith) (omega arith),
                  spot-hit e es p (omega arith) m,
                  add64_assoc e.off_do (stop - e.off_f) (p - stop),
                )
                (ap (λ n. some (e.dobj, add64 e.off_do n)) (omega arith))
          | no m ↦
              rw (spot-behind (cut_at stop e) es p (omega arith), spot-behind e es p (omega arith))
                refl
        ])
        | no l ↦
            rw (trim-skip stop e es w.1 (omega arith) h, spot-behind e es p (omega arith))
              (spot-trim (e.off_f + e.length) stop es p w.2 h g)
      ]
    ]

module _ (stop : ℕ) (f : ℕ → Extent) (x : ℕ) (zs : List ℕ) where
  -- What `trim` makes of the first extent, by the tests of the loop.
  pub trim-out : leb stop (f x).off_f ≡ true → trim stop (map f (x ∷ zs)) ≡ map f (x ∷ zs)
  unfolding trim
  trim-out h = rw h refl

  pub trim-over :
      leb stop (f x).off_f ≡ false
      → ltb stop (end_of (f x)) ≡ true
      → trim stop (map f (x ∷ zs))
        ≡ record (f x) {
          off_f = add64 (f x).off_f (sub64 stop (f x).off_f);
          off_do = add64 (f x).off_do (sub64 stop (f x).off_f);
          length = sub64 (f x).length (sub64 stop (f x).off_f);
        }
          ∷ map f zs
  unfolding trim
  trim-over h k = rw (h, k) refl

  pub trim-in :
      leb stop (f x).off_f ≡ false
      → ltb stop (end_of (f x)) ≡ false
      → trim stop (map f (x ∷ zs)) ≡ trim stop (map f zs)
  unfolding trim
  trim-in h k = rw (h, k) refl
