-- ===== src/Layout/Spots.antt =====
-- Extents in order, as plain records, and where they keep a position of the file: the terms in
-- which `replace` of incont.c is specified.
use pado_fs.Base.{
  ℕ, ◌+◌, ◌-◌, ◌≤◌, ◌<◌, ◌≡◌, refl, ap, Bool, ◌&&◌, Option, none, some, List, [], ◌∷◌, ◌++◌, arith,
  leb, ltb, if◌then◌else◌, le→leb, lt→ltb, le→not-ltb, lt→not-leb,
}
use native.Mathlib.Decide.{dec_lt}
use pado_fs.Base.Word.{add64, u64_mod}
use pado_fs.Inode.{Extent}

-- From `lo` to `hi`, each extent begins at or behind the end of the one before, and is not empty.
abbrev pub Within : ℕ → ℕ → List Extent → Type 0
Within lo hi [] = lo ≤ hi
Within lo hi (e ∷ es) = (lo ≤ e.off_f) × (0 < e.length) × Within (e.off_f + e.length) hi es

-- The greatest `size_t`.
abbrev pub last_offset : ℕ
last_offset = u64_mod - 1

-- A data object and a position in it.
abbrev pub Spot : Type 0
Spot = ℕ × ℕ

-- The host, the local object and the position in that object.
pub record Where : Type 0 where
  pub hid : ℕ
  pub loid : ℕ
  pub at : ℕ

abbrev pub inside_of : Extent → ℕ → Bool
inside_of e p = leb e.off_f p && ltb p (e.off_f + e.length)

unfoldable pub spot : List Extent → ℕ → Option Spot
spot [] p = none
spot (e ∷ es) p = if inside_of e p then some (e.dobj, add64 e.off_do (p - e.off_f)) else spot es p

pub spot-hit :
    (e : Extent) (es : List Extent) (p : ℕ)
    → e.off_f ≤ p
    → p < e.off_f + e.length
    → spot (e ∷ es) p ≡ some (e.dobj, add64 e.off_do (p - e.off_f))
unfolding spot
spot-hit e es p h l = rw (le→leb e.off_f p h, lt→ltb p (e.off_f + e.length) l)

pub spot-behind :
    (e : Extent) (es : List Extent) (p : ℕ) → e.off_f + e.length ≤ p → spot (e ∷ es) p ≡ spot es p
unfolding spot
spot-behind e es p h = rw (le→leb e.off_f p (omega arith), le→not-ltb p (e.off_f + e.length) h)

pub spot-ahead : (e : Extent) (es : List Extent) (p : ℕ) → p < e.off_f → spot (e ∷ es) p ≡ spot es p
unfolding spot
spot-ahead e es p h = rw (lt→not-leb e.off_f p h)

pub Within-le : (lo hi : ℕ) (es : List Extent) → Within lo hi es → lo ≤ hi
Within-le lo hi [] w = w
Within-le lo hi (e ∷ es) w = let q = Within-le (e.off_f + e.length) hi es w.2 in omega arith

pub Within-wider :
    (lo lo' hi hi' : ℕ) (es : List Extent)
    → lo' ≤ lo
    → hi ≤ hi'
    → Within lo hi es
    → Within lo' hi' es
Within-wider lo lo' hi hi' [] h k w = omega arith
Within-wider lo lo' hi hi' (e ∷ es) h k w = (
  omega arith,
  w.1,
  Within-wider (e.off_f + e.length) (e.off_f + e.length) hi hi' es (omega arith) k w.2,
)

pub Within-append :
    (lo mid hi : ℕ) (xs ys : List Extent)
    → Within lo mid xs
    → Within mid hi ys
    → Within lo hi (xs ++ ys)
Within-append lo mid hi [] ys w v = Within-wider mid lo hi hi ys w (omega arith) v
Within-append lo mid hi (e ∷ xs) ys w v =
    (w.0, w.1, Within-append (e.off_f + e.length) mid hi xs ys w.2 v)

-- A cut at an extent.
pub Within-split :
    (lo hi : ℕ) (xs : List Extent) (e : Extent) (ys : List Extent)
    → Within lo hi (xs ++ e ∷ ys)
    → Within lo e.off_f xs × (0 < e.length) × Within (e.off_f + e.length) hi ys
Within-split lo hi [] e ys w = (w.0, w.1, w.2)
Within-split lo hi (x ∷ xs) e ys w =
    let q = Within-split (x.off_f + x.length) hi xs e ys w.2 in ((w.0, w.1, q.0), q.1, q.2)

pub spot-below :
    (lo hi : ℕ) (es : List Extent) (p : ℕ) → Within lo hi es → p < lo → spot es p ≡ none
unfolding spot
spot-below lo hi [] p w h = refl
spot-below lo hi (e ∷ es) p w h =
    rw (spot-ahead e es p (omega arith)) (spot-below (e.off_f + e.length) hi es p w.2 (omega arith))

pub spot-above :
    (lo hi : ℕ) (es : List Extent) (p : ℕ) → Within lo hi es → hi ≤ p → spot es p ≡ none
unfolding spot
spot-above lo hi [] p w h = refl
spot-above lo hi (e ∷ es) p w h =
    let q = Within-le (e.off_f + e.length) hi es w.2 in
    rw (spot-behind e es p (omega arith)) (spot-above (e.off_f + e.length) hi es p w.2 h)

-- Behind a list that ends by `mid`, from `mid` on, only the rest counts.
pub spot-second :
    (lo mid : ℕ) (xs ys : List Extent) (p : ℕ)
    → Within lo mid xs
    → mid ≤ p
    → spot (xs ++ ys) p ≡ spot ys p
spot-second lo mid [] ys p w h = refl
spot-second lo mid (e ∷ xs) ys p w h =
    let q = Within-le (e.off_f + e.length) mid xs w.2 in
    rw (spot-behind e (xs ++ ys) p (omega arith))
      (spot-second (e.off_f + e.length) mid xs ys p w.2 h)

-- Where the rest keeps nothing, only the first list counts.
pub spot-first : (xs ys : List Extent) (p : ℕ) → spot ys p ≡ none → spot (xs ++ ys) p ≡ spot xs p
unfolding spot
spot-first [] ys p h = h
spot-first (e ∷ xs) ys p h = ground (arith, spot-first xs ys p h)

pub add64_assoc : (a b c : ℕ) → add64 (add64 a b) c ≡ add64 a (b + c)
unfolding add64
add64_assoc a b c = omega arith

-- Two extents of which the second goes on where the first ends, in the file and in the object.
abbrev pub Joins : Extent → Extent → Type 0
Joins e b =
    (e.dobj ≡ b.dobj) × (add64 e.off_do e.length ≡ b.off_do) × (e.off_f + e.length ≡ b.off_f)

pub spot-joined :
    (e b e' : Extent) (es : List Extent) (p : ℕ)
    → Joins e b
    → e' ≡ record e { length = e.length + b.length }
    → spot (e' ∷ es) p ≡ spot (e ∷ b ∷ es) p
spot-joined e b e' es p (d, o, f) q = rw q (elim (dec_lt p e.off_f) [
  | yes h ↦
      rw
        (
          spot-ahead (record e { length = e.length + b.length }) es p h,
          spot-ahead e (b ∷ es) p h,
          spot-ahead b es p (omega arith),
        )
        refl
  | no h ↦ elim (dec_lt p b.off_f) [
    | yes k ↦
        rw
          (
            spot-hit (record e { length = e.length + b.length }) es p (omega arith) (omega arith),
            spot-hit e (b ∷ es) p (omega arith) (omega arith),
          )
          refl
    | no k ↦ elim (dec_lt p (b.off_f + b.length)) [
      | yes l ↦
          rw
            (
              spot-hit (record e { length = e.length + b.length }) es p (omega arith) (omega arith),
              spot-behind e (b ∷ es) p (omega arith),
              spot-hit b es p (omega arith) (omega arith),
              ← d,
              ← o,
              add64_assoc e.off_do e.length (p - b.off_f),
            )
            (ap (λ n. some (e.dobj, add64 e.off_do n)) (omega arith))
      | no l ↦
          rw
            (
              spot-behind (record e { length = e.length + b.length }) es p (omega arith),
              spot-behind e (b ∷ es) p (omega arith),
              spot-behind b es p (omega arith),
            )
            refl
    ]
  ]
])

pub spot-same_front :
    (xs ys zs : List Extent) (p : ℕ) → spot ys p ≡ spot zs p → spot (xs ++ ys) p ≡ spot (xs ++ zs) p
unfolding spot
spot-same_front [] ys zs p h = h
spot-same_front (e ∷ xs) ys zs p h = ground (arith, spot-same_front xs ys zs p h)

-- A list in order, cut in two.
pub Within-cut :
    (lo hi : ℕ) (xs ys : List Extent)
    → Within lo hi (xs ++ ys)
    → (mid : ℕ) × Within lo mid xs × Within mid hi ys
Within-cut lo hi [] ys w = (lo, omega arith, w)
Within-cut lo hi (e ∷ xs) ys w =
    let (mid, a, b) = Within-cut (e.off_f + e.length) hi xs ys w.2 in (mid, (w.0, w.1, a), b)

-- In place of two extents that join, the first one stretched over both.
pub Within-joined :
    (lo hi : ℕ) (xs : List Extent) (e b e' : Extent) (ys : List Extent)
    → Joins e b
    → e' ≡ record e { length = e.length + b.length }
    → Within lo hi (xs ++ e ∷ b ∷ ys)
    → Within lo hi (xs ++ e' ∷ ys)
Within-joined lo hi [] e b e' ys j q w = rw q (
  w.0,
  omega arith,
  Within-wider (b.off_f + b.length) _ hi hi ys (omega arith) (omega arith) w.2.2,
)
Within-joined lo hi (x ∷ xs) e b e' ys j q w =
    (w.0, w.1, Within-joined (x.off_f + x.length) hi xs e b e' ys j q w.2)
