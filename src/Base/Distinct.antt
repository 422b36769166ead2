-- ===== src/Base/Distinct.antt =====
-- Lists of pointers without repetition: membership tests, neighbours, and unique splits.
use mathlib.Core.Bool.{or_assoc}
use pado_fs.Base.{
  ℕ, ◌≡◌, refl, sym, ap, ◌∙◌, subst, append-nil, Bool-cases, inl, inr, Bool, true, false, ◌||◌,
  Option, none, some, List, [], ◌∷◌, ◌++◌, arith, ◌==◌, if◌then◌else◌, ◌&&◌, not, length, ◌+◌, ◌≤◌,
}

abbrev pub has : ℕ → List ℕ → Bool
has a [] = false
has a (x ∷ xs) = (a == x) || has a xs

abbrev pub IsDistinct : List ℕ → Type 0
IsDistinct [] = Unit
IsDistinct (x ∷ xs) = (has x xs ≡ false) × IsDistinct xs

-- `p->next` and `p->prev` of an element of the list.
abbrev pub head? : List ℕ → Option ℕ
head? [] = none
head? (x ∷ xs) = some x

abbrev pub last_or : Option ℕ → List ℕ → Option ℕ
last_or p [] = p
last_or p (x ∷ xs) = last_or (some x) xs

abbrev pub get_last? : List ℕ → Option ℕ
get_last? xs = last_or none xs

unfoldable pub next_of : ℕ → List ℕ → Option ℕ
next_of a [] = none
next_of a (x ∷ xs) = if a == x then head? xs else next_of a xs

unfoldable pub prev_of_from : Option ℕ → ℕ → List ℕ → Option ℕ
prev_of_from p a [] = none
prev_of_from p a (x ∷ xs) = if a == x then p else prev_of_from (some x) a xs

unfoldable pub prev_of : ℕ → List ℕ → Option ℕ
unfolding prev_of_from
prev_of a xs = prev_of_from none a xs

-- Unlinking, and the list with `y` in the place of `a`, behind `a` or before `a`.
unfoldable pub erase : ℕ → List ℕ → List ℕ
erase a [] = []
erase a (x ∷ xs) = if a == x then xs else x ∷ erase a xs

unfoldable pub replace_with : ℕ → ℕ → List ℕ → List ℕ
replace_with a y [] = []
replace_with a y (x ∷ xs) = if a == x then y ∷ xs else x ∷ replace_with a y xs

unfoldable pub insert_behind : ℕ → ℕ → List ℕ → List ℕ
insert_behind a y [] = []
insert_behind a y (x ∷ xs) = if a == x then x ∷ y ∷ xs else x ∷ insert_behind a y xs

unfoldable pub insert_ahead : ℕ → ℕ → List ℕ → List ℕ
insert_ahead a y [] = []
insert_ahead a y (x ∷ xs) = if a == x then y ∷ x ∷ xs else x ∷ insert_ahead a y xs

pub has-append : (a : ℕ) (xs ys : List ℕ) → has a (xs ++ ys) ≡ (has a xs || has a ys)
has-append a [] ys = refl
has-append a (x ∷ xs) ys = rw (has-append a xs ys, or_assoc)

pub not-has-append :
    (a : ℕ) (xs ys : List ℕ) → has a (xs ++ ys) ≡ false → (has a xs ≡ false) × (has a ys ≡ false)
not-has-append a xs ys h = let e = has-append a xs ys in ground arith

pub not-has_of_append :
    (a : ℕ) (xs ys : List ℕ) → has a xs ≡ false → has a ys ≡ false → has a (xs ++ ys) ≡ false
not-has_of_append a xs ys h k = let e = has-append a xs ys in ground arith

pub has-middle : (a : ℕ) (xs ys : List ℕ) → has a (xs ++ a ∷ ys) ≡ true
has-middle a [] ys = ground arith
has-middle a (x ∷ xs) ys = ground (arith, has-middle a xs ys)

-- An element of a distinct list stands neither before nor behind itself.
pub IsDistinct-middle :
    (xs : List ℕ) (a : ℕ) (ys : List ℕ)
    → IsDistinct (xs ++ a ∷ ys)
    → (has a xs ≡ false) × (has a ys ≡ false)
IsDistinct-middle [] a ys d = (refl, d.0)
IsDistinct-middle (x ∷ xs) a ys d =
    let e = not-has-append x xs (a ∷ ys) d.0 in
    let ih = IsDistinct-middle xs a ys d.1 in ground arith

pub IsDistinct-of-append : (xs ys : List ℕ) → IsDistinct (xs ++ ys) → IsDistinct xs × IsDistinct ys
IsDistinct-of-append [] ys d = (tt, d)
IsDistinct-of-append (x ∷ xs) ys d =
    let (a, b) = IsDistinct-of-append xs ys d.1 in (((not-has-append x xs ys d.0).0, a), b)

-- A distinct list stays distinct without a part of it.
pub IsDistinct-skip : (us vs ws : List ℕ) → IsDistinct (us ++ (vs ++ ws)) → IsDistinct (us ++ ws)
IsDistinct-skip [] vs ws d = (IsDistinct-of-append vs ws d).1
IsDistinct-skip (u ∷ us) vs ws d =
    let (a, b) = not-has-append u us (vs ++ ws) d.0 in
    let (_, c) = not-has-append u vs ws b in
    (not-has_of_append u us ws a c, IsDistinct-skip us vs ws d.1)

pub last_or-append :
    (p : Option ℕ) (xs ys : List ℕ) → last_or p (xs ++ ys) ≡ last_or (last_or p xs) ys
last_or-append p [] ys = refl
last_or-append p (x ∷ xs) ys = last_or-append (some x) xs ys

pub get_last?-snoc : (xs : List ℕ) (z : ℕ) → get_last? (xs ++ z ∷ []) ≡ some z
get_last?-snoc xs z = last_or-append none xs (z ∷ [])

-- The list can be split at such an element in one way only.
pub split_once :
    (a : ℕ) (xs ys us vs : List ℕ)
    → xs ++ a ∷ ys ≡ us ++ a ∷ vs
    → has a xs ≡ false
    → has a ys ≡ false
    → (us ≡ xs) × (vs ≡ ys)
split_once a [] ys [] vs e h k = (refl, cc)
split_once a [] ys (u ∷ us) vs e h k = absurd (
    let t : ys ≡ us ++ a ∷ vs = cc in
    let m = has-append a us (a ∷ vs) in
    let n : has a ys ≡ has a (us ++ a ∷ vs) = ap (has a) t in ground arith)
split_once a (x ∷ xs) ys [] vs e h k = absurd (let t : x ≡ a = cc in ground arith)
split_once a (x ∷ xs) ys (u ∷ us) vs e h k =
    let ih = split_once a xs ys us vs (cc) (ground arith) k in (cc, ih.1)

module _ (a : ℕ) (ys : List ℕ) where
  pub next_of-middle : (xs : List ℕ) → has a xs ≡ false → next_of a (xs ++ a ∷ ys) ≡ head? ys
  unfolding next_of
  next_of-middle [] h = ground arith
  next_of-middle (x ∷ xs) h = ground (arith, next_of-middle xs)

  prev_of_from-middle :
      (p : Option ℕ) (xs : List ℕ)
      → has a xs ≡ false
      → prev_of_from p a (xs ++ a ∷ ys) ≡ last_or p xs
  unfolding prev_of_from
  prev_of_from-middle p [] h = ground arith
  prev_of_from-middle p (x ∷ xs) h = ground (arith, prev_of_from-middle (some x) xs)

  pub prev_of-middle : (xs : List ℕ) → has a xs ≡ false → prev_of a (xs ++ a ∷ ys) ≡ get_last? xs
  unfolding prev_of
  prev_of-middle xs h = ground (arith, prev_of_from-middle none xs)

  pub erase-middle : (xs : List ℕ) → has a xs ≡ false → erase a (xs ++ a ∷ ys) ≡ xs ++ ys
  unfolding erase
  erase-middle [] h = ground arith
  erase-middle (x ∷ xs) h = ground (arith, erase-middle xs)

  pub replace_with-middle :
      (y : ℕ) (xs : List ℕ) → has a xs ≡ false → replace_with a y (xs ++ a ∷ ys) ≡ xs ++ y ∷ ys
  unfolding replace_with
  replace_with-middle y [] h = ground arith
  replace_with-middle y (x ∷ xs) h = ground (arith, replace_with-middle y xs)

  pub insert_behind-middle :
      (y : ℕ) (xs : List ℕ) → has a xs ≡ false → insert_behind a y (xs ++ a ∷ ys) ≡ xs ++ a ∷ y ∷ ys
  unfolding insert_behind
  insert_behind-middle y [] h = ground arith
  insert_behind-middle y (x ∷ xs) h = ground (arith, insert_behind-middle y xs)

  pub insert_ahead-middle :
      (y : ℕ) (xs : List ℕ) → has a xs ≡ false → insert_ahead a y (xs ++ a ∷ ys) ≡ xs ++ y ∷ a ∷ ys
  unfolding insert_ahead
  insert_ahead-middle y [] h = ground arith
  insert_ahead-middle y (x ∷ xs) h = ground (arith, insert_ahead-middle y xs)

-- An element splits the list.
pub has-split :
    (x : ℕ) (zs : List ℕ) → has x zs ≡ true → (xs : List ℕ) × (ys : List ℕ) × (zs ≡ xs ++ x ∷ ys)
has-split x [] h = cc
has-split x (z ∷ zs) h = elim (Bool-cases (x == z)) [
  | inl e ↦ ([], zs, let e' : x ≡ z = ground arith in ap (λ y. y ∷ zs) (sym e'))
  | inr e ↦ let (us, vs, q) = has-split x zs (ground arith) in (z ∷ us, vs, ap (λ ws. z ∷ ws) q)
]

has-head : (xs : List ℕ) (n : ℕ) → head? xs ≡ some n → has n xs ≡ true
has-head [] n e = cc
has-head (x ∷ xs) n e = let e' : x ≡ n = cc in ground arith

pub next_of-has : (x : ℕ) (zs : List ℕ) (n : ℕ) → next_of x zs ≡ some n → has n zs ≡ true
unfolding next_of
next_of-has x [] n e = cc
next_of-has x (z ∷ zs) n e = elim (Bool-cases (x == z)) [
  | inl b ↦ let h = has-head zs n (rw b at e) in ground arith
  | inr b ↦ let h = next_of-has x zs n (rw b at e) in ground arith
]

-- An element that stands nowhere in a distinct list may be put into it anywhere.
pub IsDistinct-insert :
    (y : ℕ) (us vs : List ℕ)
    → has y (us ++ vs) ≡ false
    → IsDistinct (us ++ vs)
    → IsDistinct (us ++ y ∷ vs)
IsDistinct-insert y [] vs h d = (h, d)
IsDistinct-insert y (u ∷ us) vs h d =
    let a = has-append u us vs in
    let b = has-append u us (y ∷ vs) in
    let e = d.0 in (ground arith, IsDistinct-insert y us vs (ground arith) d.1)

has-swap : (a : ℕ) (us vs ws : List ℕ) → has a (us ++ (vs ++ ws)) ≡ has a (us ++ (ws ++ vs))
has-swap a us vs ws =
    let p = has-append a us (vs ++ ws) in
    let q = has-append a us (ws ++ vs) in
    let r = has-append a vs ws in let s = has-append a ws vs in ground arith

pub IsDistinct-swap :
    (us vs ws : List ℕ) → IsDistinct (us ++ (vs ++ ws)) → IsDistinct (us ++ (ws ++ vs))
IsDistinct-swap [] [] ws d = subst IsDistinct (sym (append-nil ws)) d
IsDistinct-swap [] (v ∷ vs) ws d =
    IsDistinct-insert v ws vs (sym (has-swap v [] vs ws) ∙ d.0) (IsDistinct-swap [] vs ws d.1)
IsDistinct-swap (u ∷ us) vs ws d = (sym (has-swap u us vs ws) ∙ d.0, IsDistinct-swap us vs ws d.1)

-- Unlinking from a distinct list.
pub has-erase :
    (y x : ℕ) (zs : List ℕ) → IsDistinct zs → has y (erase x zs) ≡ (has y zs && not (y == x))
unfolding erase
has-erase y x [] u = refl
has-erase y x (z ∷ zs) u = let a = has-erase y x zs u.1 in let b = u.0 in ground arith

pub erase-IsDistinct : (x : ℕ) (zs : List ℕ) → IsDistinct zs → IsDistinct (erase x zs)
unfolding erase
erase-IsDistinct x [] u = tt
erase-IsDistinct x (z ∷ zs) u = elim (Bool-cases (x == z)) [
  | inl e ↦ rw e u.1
  | inr e ↦
      let a = has-erase z x zs u.1 in let b = u.0 in rw e (ground arith, erase-IsDistinct x zs u.1)
]

pub length-erase : (x : ℕ) (zs : List ℕ) → has x zs ≡ true → length (erase x zs) + 1 ≡ length zs
unfolding erase
length-erase x [] h = cc
length-erase x (z ∷ zs) h = ground (arith, length-erase x zs)

-- A distinct list is no longer than one that has all of it.
pub length-has :
    (us vs : List ℕ)
    → IsDistinct us
    → ((x : ℕ) → has x us ≡ true → has x vs ≡ true)
    → IsDistinct vs
    → length us ≤ length vs
length-has [] vs u h v = omega arith
length-has (x ∷ us) vs u h v =
    let m = h x (ground arith) in
    let n = length-erase x vs m in
    let ih =
      length-has us (erase x vs) u.1
        (λ y k.
          let a = has-erase y x vs v in
          let b = h y (ground arith) in
          let c = u.0 in
          elim (Bool-cases (y == x)) [
            | inl e ↦ let e' : y ≡ x = ground arith in cc
            | inr e ↦ ground arith
          ])
        (erase-IsDistinct x vs v) in
    omega arith
