-- ===== src/Layout/Content.antt =====
-- What a layout keeps where, before, between and behind the stages of `replace` (incont.c).
use pado_fs.Base.{ℕ, ◌≤◌, ◌<◌, ◌≡◌, Option, List, ◌++◌, map, length, All}
use pado_fs.Base.Distinct.{IsDistinct, head?, get_last?}
use pado_fs.Inode.{Inode}
use pado_fs.Layout.{Work}
use pado_fs.Layout.Spots.{Within, Spot, spot, last_offset}
use pado_fs.Layout.Linked.{IsLinked}

-- All of the pointers were made before `n`.
abbrev pub Below : ℕ → List ℕ → Type 0
Below n zs = All (λ x. x < n) zs

-- A layout that keeps each position where `want` says: the chain and the tree hold the same
-- extents, in order and without overlap, and the depths are in order.
pub record Holds (want : ℕ → Option Spot) (i : Inode) : Type 0 where
  pub zs : List ℕ
  pub linked : IsLinked zs i
  pub distinct : IsDistinct zs
  pub below : Below i.next_ext zs
  pub sorted : Within 0 last_offset (map i.exts zs)
  pub says : (p : ℕ) → spot (map i.exts zs) p ≡ want p

-- Where `replace` stands between its stages, towards a layout that keeps each position where `want`
-- says: `tor` ends the extents `xs`, `dh` begins `zs`; what `xs` and the new extents keep is right
-- before `stop`, and what `zs` keeps is right from there on.
pub record Placing (stop : ℕ) (want : ℕ → Option Spot) (w : Work) : Type 0 where
  pub xs : List ℕ
  pub zs : List ℕ
  pub lo : ℕ
  pub back : ℕ
  pub linked : IsLinked (xs ++ zs) w.inode
  pub tor : w.tor ≡ get_last? xs
  pub dh : w.dh ≡ head? zs
  pub distinct : IsDistinct (xs ++ (w.alts ++ zs))
  pub below : Below w.inode.next_ext (xs ++ (w.alts ++ zs))
  pub some_left : 0 < length (xs ++ zs)
  pub front : Within 0 lo (map w.inode.exts xs)
  pub news : Within lo stop (map w.inode.exts w.alts)
  pub behind : Within back last_offset (map w.inode.exts zs)
  pub before : (p : ℕ) → p < stop → spot (map w.inode.exts xs ++ map w.inode.exts w.alts) p ≡ want p
  pub after : (p : ℕ) → stop ≤ p → spot (map w.inode.exts zs) p ≡ want p
