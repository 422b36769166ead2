-- ===== src/Layout/Put.antt =====
-- What is kept where new extents are put over old ones, and the pointers of new extents, for
-- `replace` (incont.c).
use pado_fs.Base.{
  ℕ, ◌+◌, ◌≤◌, ◌<◌, ◌≡◌, ◌⊎◌, inl, inr, refl, ◌∙◌, false, ◌&&◌, Option, List, [], ◌∷◌, ◌++◌, map,
  arith, length, if◌then◌else◌, leb, ltb, All-append, Bool-cases,
}
use native.Mathlib.Decide.{dec_lt}
use pado_fs.Base.Distinct.{IsDistinct, has, head?, get_last?}
use pado_fs.Layout.{Work}
use pado_fs.Layout.Spots.{Within, Spot, spot, last_offset, spot-second, spot-first, spot-below}
use pado_fs.Layout.Linked.{IsLinked}
use pado_fs.Layout.Content.{Below, Placing}

-- What a new extent's pointer is told apart from.
pub fresh : (n : ℕ) (zs : List ℕ) → Below n zs → has n zs ≡ false
fresh n [] a = refl
fresh n (z ∷ zs) a = let b = fresh n zs a.1 in let c = a.0 in ground arith

pub Below-suc : (n : ℕ) (zs : List ℕ) → Below n zs → Below (n + 1) zs
Below-suc n [] a = tt
Below-suc n (z ∷ zs) a = (omega arith, Below-suc n zs a.1)

pub All-front : (n : ℕ) (us vs : List ℕ) → Below n (us ++ vs) → Below n us × Below n vs
All-front n [] vs a = (tt, a)
All-front n (u ∷ us) vs a = let (b, c) = All-front n us vs a.1 in ((a.0, b), c)

pub Below-swap :
    (n : ℕ) (us vs ws : List ℕ) → Below n (us ++ vs) → Below n ws → Below n (us ++ (ws ++ vs))
Below-swap n us vs ws a b =
    let (c, d) = All-front n us vs a in
    All-append (λ x. x < n) us (ws ++ vs) c (All-append (λ x. x < n) ws vs b d)

-- The new extents' content between `start` and `stop`, the old content elsewhere.
abbrev pub put {ℓ} : {A : Type ℓ} → (start stop : ℕ) → (new old : ℕ → A) → ℕ → A
put start stop new old p = if leb start p && ltb p stop then new p else old p

pub put-inside {ℓ} :
    {A : Type ℓ} (start stop : ℕ) (new old : ℕ → A) (p : ℕ)
    → start ≤ p
    → p < stop
    → put start stop new old p ≡ new p
put-inside start stop new old p h k = elim (Bool-cases (leb start p && ltb p stop)) [
  | inl e ↦ rw e refl
  | inr e ↦ absurd (ground arith)
]

pub put-outside {ℓ} :
    {A : Type ℓ} (start stop : ℕ) (new old : ℕ → A) (p : ℕ)
    → (p < start) ⊎ (stop ≤ p)
    → put start stop new old p ≡ old p
put-outside start stop new old p h = elim (Bool-cases (leb start p && ltb p stop)) [
  | inl e ↦ absurd (elim h [ inl k ↦ ground arith | inr k ↦ ground arith ])
  | inr e ↦ rw e refl
]

-- `want` may be read position by position.
module _ (stop lo : ℕ) (want : ℕ → Option Spot) (w : Work) (xs zs : List ℕ) (back : ℕ)
    (linked : IsLinked (xs ++ zs) w.inode) (tor : w.tor ≡ get_last? xs) (dh : w.dh ≡ head? zs)
    (distinct : IsDistinct (xs ++ (w.alts ++ zs)))
    (below : Below w.inode.next_ext (xs ++ (w.alts ++ zs))) (some_left : 0 < length (xs ++ zs))
    (front : Within 0 lo (map w.inode.exts xs)) (news : Within lo stop (map w.inode.exts w.alts))
    (behind : Within back last_offset (map w.inode.exts zs)) where
  pub placing :
      ((p : ℕ) → p < lo → spot (map w.inode.exts xs) p ≡ want p)
      → ((p : ℕ) → lo ≤ p → p < stop → spot (map w.inode.exts w.alts) p ≡ want p)
      → ((p : ℕ) → stop ≤ p → spot (map w.inode.exts zs) p ≡ want p)
      → Placing stop want w
  placing f g h = record {
    xs = xs;
    zs = zs;
    lo = lo;
    back = back;
    linked = linked;
    tor = tor;
    dh = dh;
    distinct = distinct;
    below = below;
    some_left = some_left;
    front = front;
    news = news;
    behind = behind;
    before = λ p m. elim (dec_lt p lo) [
      | yes l ↦
          spot-first (map w.inode.exts xs) (map w.inode.exts w.alts) p
            (spot-below lo stop (map w.inode.exts w.alts) p news l)
          ∙ f p l
      | no l ↦
          spot-second 0 lo (map w.inode.exts xs) (map w.inode.exts w.alts) p front (omega arith)
          ∙ g p (omega arith) m
    ];
    after = h;
  }
