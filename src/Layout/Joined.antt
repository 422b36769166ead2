-- ===== src/Layout/Joined.antt =====
-- The first merge of `replace` (incont.c) on references, counters and assertions.
use pado_fs.Base.{
  ℕ, ◌≡◌, refl, sym, ap, ◌∙◌, subst, true, false, Option, none, some, List, [], ◌∷◌, ◌++◌,
  append_assoc, if-elim,
}
use pado_fs.Base.Distinct.{
  has, IsDistinct, IsDistinct-middle, head?, erase-middle, IsDistinct-skip, not-has-append,
  has-middle, not-has-append, not-has_of_append,
}
use pado_fs.Inode.{Extent, Inode, Env, set_ext}
use pado_fs.Inode.Extents.{release_extent}
use pado_fs.Inode.Owned.{IsOwned, set_ext-IsOwned}
use pado_fs.Inode.Released.{release_extent-IsOwned}
use pado_fs.Layout.{Work, merge_first, continues}
use pado_fs.Layout.Spots.{Spot}
use pado_fs.Layout.Same.{release_extent-IsSame}
use pado_fs.Layout.Content.{Placing}
use pado_fs.Layout.Merged.{last-split}
use pado_fs.Layout.Swept.{Goes}
use pado_fs.Layout.Ahead.{IsAhead, IsAhead-update, head-not}

module _ (stop : ℕ) (want : ℕ → Option Spot) (env : Env) (start t a : ℕ) (rest : List ℕ) (i : Inode)
    (tail dh : Option ℕ)
    (c : Placing stop want
      (record { inode = i; alts = a ∷ rest; tail = tail; tor = some t; dh = dh })) where
  -- `a` is merged into `t`.
  merged :
      (e : Extent)
      → e.dobj ≡ (i.exts t).dobj
      → IsOwned (i.chain ++ (a ∷ rest)) i
      → IsAhead i.exts start dh
      → let j = release_extent env a true (set_ext t e i) in Goes i j rest × IsAhead j.exts start dh
  merged e h o b =
      let j = set_ext t e i in
      let r = release_extent env a true j in
      let s = release_extent-IsSame env a true j in
      let (us, q) = last-split t c.xs c.tor in
      let d : IsDistinct (us ++ t ∷ (rest ++ c.zs)) =
        subst IsDistinct
          (ap (λ zs. zs ++ (rest ++ c.zs)) q ∙ append_assoc us (t ∷ []) (rest ++ c.zs))
          (IsDistinct-skip c.xs (a ∷ []) (rest ++ c.zs) c.distinct) in
      let n = (not-has-append t rest c.zs (IsDistinct-middle us t (rest ++ c.zs) d).1).1 in
      let (m₁, m₂) = IsDistinct-middle c.xs a (rest ++ c.zs) c.distinct in
      let m : has a i.chain ≡ false =
        ap (has a) c.linked.chain
        ∙ not-has_of_append a c.xs c.zs m₁ (not-has-append a rest c.zs m₂).1 in
      let (p, g) =
        release_extent-IsOwned env (i.chain ++ (a ∷ rest)) a true j (has-middle a i.chain rest)
          (set_ext-IsOwned (i.chain ++ (a ∷ rest)) t e i h o) in
      (
        (
          subst (λ us. IsOwned us r)
              (erase-middle a rest i.chain m ∙ ap (λ us. us ++ rest) (sym s.chain)) p,
          g,
        ),
        subst (λ f. IsAhead f start dh) (sym s.exts)
            (subst (IsAhead j.exts start) (sym c.dh) (
              IsAhead-update i.exts start t e (head? c.zs) (head-not t c.zs n)
                (subst (IsAhead i.exts start) c.dh b))),
      )

pub merge_first-Goes :
    (stop : ℕ) (want : ℕ → Option Spot) (env : Env) (start : ℕ) (tor : Option ℕ) (alts : List ℕ)
    (i : Inode) (tail dh : Option ℕ)
    → Placing stop want (record { inode = i; alts = alts; tail = tail; tor = tor; dh = dh })
    → IsOwned (i.chain ++ alts) i
    → IsAhead i.exts start dh
    → let w =
        merge_first env (record { inode = i; alts = alts; tail = tail; tor = tor; dh = dh }) in
      Goes i w.inode w.alts × IsAhead w.inode.exts start w.dh
unfolding merge_first
merge_first-Goes stop want env start none alts i tail dh c o b = ((o, refl), b)
merge_first-Goes stop want env start (some t) [] i tail dh c o b = ((o, refl), b)
merge_first-Goes stop want env start (some t) (a ∷ rest) i tail dh c o b =
    if-elim (λ (w : Work). Goes i w.inode w.alts × IsAhead w.inode.exts start w.dh)
      (continues (i.exts t) (i.exts a))
      (λ _. merged stop want env start t a rest i tail dh c _ refl o b) (λ _. ((o, refl), b))
