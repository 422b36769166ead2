-- ===== src/Layout/Sorted.antt =====
-- Extents in order and without overlap, as `check_extent` asserts of neighbours, and the extents
-- that end behind an offset.
use pado_fs.Base.{
  ℕ, ◌+◌, ◌≤◌, ◌<◌, ◌≡◌, refl, List, [], ◌∷◌, ◌++◌, arith, leb, if◌then◌else◌, All, lt→not-leb,
  le→leb,
}
use pado_fs.Base.Word.{u64_mod, add64_lem}
use pado_fs.Inode.{Extent}
use pado_fs.Layout.{end_of}

-- An extent that is not empty and whose end is a `size_t`.
abbrev pub IsProper : Extent → Type 0
IsProper e = (0 < e.length) × (e.off_f + e.length < u64_mod)

pub end_of_lem : (e : Extent) → IsProper e → end_of e ≡ e.off_f + e.length
unfolding end_of
end_of_lem e h = add64_lem e.off_f e.length h.1

module _ (f : ℕ → Extent) where
  -- From `lo` on, each extent begins at or behind the end of the one before.
  abbrev pub IsSorted : ℕ → List ℕ → Type 0
  IsSorted lo [] = Unit
  IsSorted lo (x ∷ xs) =
      (lo ≤ (f x).off_f) × IsProper (f x) × IsSorted ((f x).off_f + (f x).length) xs

  pub IsSorted-le : (lo lo' : ℕ) (xs : List ℕ) → lo' ≤ lo → IsSorted lo xs → IsSorted lo' xs
  IsSorted-le lo lo' [] h s = tt
  IsSorted-le lo lo' (x ∷ xs) h s = (omega arith, s.1, s.2)

  -- All of `xs` ends at or before `hi`.
  abbrev pub EndsBy : ℕ → List ℕ → Type 0
  EndsBy hi xs = All (λ x. IsProper (f x) × ((f x).off_f + (f x).length ≤ hi)) xs

  pub IsSorted-EndsBy :
      (lo : ℕ) (xs : List ℕ) (x : ℕ) (ys : List ℕ)
      → IsSorted lo (xs ++ x ∷ ys)
      → EndsBy (f x).off_f xs × IsSorted 0 (x ∷ ys)
  IsSorted-EndsBy lo [] x ys s = (tt, (omega arith, s.1, s.2))
  IsSorted-EndsBy lo (w ∷ xs) x ys s =
      let (a, b) = IsSorted-EndsBy ((f w).off_f + (f w).length) xs x ys s.2 in
      let c = IsSorted-start ((f w).off_f + (f w).length) xs x ys s.2 in (((s.1, c), a), b)
    where
      IsSorted-start :
          (lo : ℕ) (xs : List ℕ) (x : ℕ) (ys : List ℕ)
          → IsSorted lo (xs ++ x ∷ ys)
          → lo ≤ (f x).off_f
      IsSorted-start lo [] x ys s = s.0
      IsSorted-start lo (w ∷ xs) x ys s =
          let q = IsSorted-start ((f w).off_f + (f w).length) xs x ys s.2 in omega arith

  -- The extents from the first that ends behind `start` on.
  unfoldable pub drop_ended : ℕ → List ℕ → List ℕ
  drop_ended start [] = []
  drop_ended start (x ∷ xs) = if leb (end_of (f x)) start then drop_ended start xs else x ∷ xs

  pub drop_ended-EndsBy :
      (start hi : ℕ) (xs ys : List ℕ)
      → EndsBy hi xs
      → hi ≤ start
      → drop_ended start (xs ++ ys) ≡ drop_ended start ys
  unfolding drop_ended
  drop_ended-EndsBy start hi [] ys e h = refl
  drop_ended-EndsBy start hi (x ∷ xs) ys e h =
      let q = end_of_lem (f x) e.0.0 in ground (arith, drop_ended-EndsBy start hi xs ys e.1 h)

  pub drop_ended-head :
      (start x : ℕ) (xs : List ℕ)
      → IsProper (f x)
      → start < (f x).off_f + (f x).length
      → drop_ended start (x ∷ xs) ≡ x ∷ xs
  unfolding drop_ended
  drop_ended-head start x xs p h =
      rw (end_of_lem (f x) p, lt→not-leb ((f x).off_f + (f x).length) start h)

  pub drop_ended-skip :
      (start x : ℕ) (xs : List ℕ)
      → IsProper (f x)
      → (f x).off_f + (f x).length ≤ start
      → drop_ended start (x ∷ xs) ≡ drop_ended start xs
  unfolding drop_ended
  drop_ended-skip start x xs p h =
      rw (end_of_lem (f x) p, le→leb ((f x).off_f + (f x).length) start h)
