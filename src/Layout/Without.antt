-- ===== src/Layout/Without.antt =====
-- The extents of a layout without those of one data object.
use pado_fs.Base.{
  ℕ, ◌+◌, ◌≡◌, refl, ap, true, false, ◌&&◌, Option, none, some, List, [], ◌∷◌, ◌++◌, map, arith,
  ◌==◌, if◌then◌else◌, Bool-cases, inl, inr, if-elim,
}
use pado_fs.Base.Distinct.{has, IsDistinct}
use pado_fs.Inode.{Extent}
use pado_fs.Layout.Spots.{Within, Spot, spot, inside_of, Within-wider, spot-below}
use pado_fs.Layout.Content.{Below}

unfoldable pub without : (ℕ → Extent) → ℕ → List ℕ → List ℕ
without f d [] = []
without f d (x ∷ xs) = if (f x).dobj == d then without f d xs else x ∷ without f d xs

-- A position that was kept in the data object `d` is kept nowhere.
abbrev pub drop_of : ℕ → Option Spot → Option Spot
drop_of d none = none
drop_of d (some s) = if s.0 == d then none else some s

pub without-erase :
    (f : ℕ → Extent) (d x : ℕ) (xs ys : List ℕ)
    → (f x).dobj ≡ d
    → without f d (xs ++ ys) ≡ without f d (xs ++ x ∷ ys)
unfolding without
without-erase f d x [] ys e = ground arith
without-erase f d x (y ∷ xs) ys e = rw (without-erase f d x xs ys e) refl

pub without-none :
    (f : ℕ → Extent) (d : ℕ) (zs : List ℕ)
    → ((x : ℕ) → has x zs ≡ true → ((f x).dobj == d) ≡ false)
    → without f d zs ≡ zs
unfolding without
without-none f d [] h = refl
without-none f d (x ∷ xs) h =
    let a = h x (ground arith) in
    rw a (ap (λ us. x ∷ us) (without-none f d xs (λ y k. h y (ground arith))))

pub has-without :
    (f : ℕ → Extent) (d x : ℕ) (zs : List ℕ)
    → has x (without f d zs) ≡ (has x zs && (if (f x).dobj == d then false else true))
unfolding without
has-without f d x [] = refl
has-without f d x (z ∷ zs) =
    let ih = has-without f d x zs in
    elim (Bool-cases (x == z)) [
      | inl e ↦ let e' : x ≡ z = ground arith in let g = ap (λ y. (f y).dobj) e' in ground arith
      | inr e ↦ ground arith
    ]

pub IsDistinct-without :
    (f : ℕ → Extent) (d : ℕ) (zs : List ℕ) → IsDistinct zs → IsDistinct (without f d zs)
unfolding without
IsDistinct-without f d [] u = tt
IsDistinct-without f d (x ∷ xs) u =
    let ih = IsDistinct-without f d xs u.1 in
    let h = has-without f d x xs in
    let h' = u.0 in if-elim IsDistinct ((f x).dobj == d) (λ _. ih) (λ _. (ground arith, ih))

pub Below-without : (f : ℕ → Extent) (d n : ℕ) (zs : List ℕ) → Below n zs → Below n (without f d zs)
unfolding without
Below-without f d n [] b = tt
Below-without f d n (x ∷ xs) b =
    let ih = Below-without f d n xs b.1 in
    if-elim (Below n) ((f x).dobj == d) (λ _. ih) (λ _. (b.0, ih))

pub Within-without :
    (f : ℕ → Extent) (d lo hi : ℕ) (zs : List ℕ)
    → Within lo hi (map f zs)
    → Within lo hi (map f (without f d zs))
unfolding without
Within-without f d lo hi [] w = w
Within-without f d lo hi (x ∷ xs) w =
    let ih = Within-without f d ((f x).off_f + (f x).length) hi xs w.2 in
    if-elim (λ us. Within lo hi (map f us)) ((f x).dobj == d)
      (λ _.
        Within-wider ((f x).off_f + (f x).length) lo hi hi (map f (without f d xs))
          (let a = w.0 in omega arith) (omega arith) ih)
      (λ _. (w.0, w.1, ih))

pub spot-without :
    (f : ℕ → Extent) (d lo hi p : ℕ) (zs : List ℕ)
    → Within lo hi (map f zs)
    → spot (map f (without f d zs)) p ≡ drop_of d (spot (map f zs) p)
unfolding without spot
spot-without f d lo hi p [] w = refl
spot-without f d lo hi p (x ∷ xs) w =
    let e = f x in
    let ih = spot-without f d (e.off_f + e.length) hi p xs w.2 in
    let v = Within-without f d (e.off_f + e.length) hi xs w.2 in
    elim (Bool-cases (inside_of e p)) [
      | inl a ↦ elim (Bool-cases (e.dobj == d)) [
        | inl b ↦
            rw (a, b)
              (spot-below (e.off_f + e.length) hi (map f (without f d xs)) p v (ground arith))
        | inr b ↦ rw (a, b) (rw a refl)
      ]
      | inr a ↦ elim (Bool-cases (e.dobj == d)) [
        | inl b ↦ rw (a, b) ih
        | inr b ↦ rw (a, b) (rw a ih)
      ]
    ]
