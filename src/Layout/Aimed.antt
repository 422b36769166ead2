-- ===== src/Layout/Aimed.antt =====
-- The descent of `replace` (incont.c): what it leaves to the stages behind it, on what the layout
-- keeps where.
use pado_fs.Base.{
  ℕ, ◌≤◌, ◌≡◌, refl, sym, ap, ◌∙◌, subst, false, Option, some, List, [], ◌∷◌, ◌++◌, map, arith,
  length-append, append_assoc, append-nil,
}
use mathlib.Core.List.{map-append}
use pado_fs.Base.Distinct.{
  IsDistinct, IsDistinct-middle, next_of, next_of-middle, prev_of, prev_of-middle, get_last?-snoc,
}
use pado_fs.Tree.{is_leaf}
use pado_fs.Tree.Order.{inorder}
use pado_fs.Inode.{Inode}
use pado_fs.Layout.{
  Work, Stop, nowhere, starts_at, inside, before_first, behind_last, descend, find_first,
}
use pado_fs.Layout.Spots.{Within, Spot, spot, last_offset, Within-append}
use pado_fs.Layout.Content.{Below, Holds, Placing}
use pado_fs.Layout.Descent.{Aim, descend-Aim, around_one}
use pado_fs.Layout.Put.{put}
use pado_fs.Layout.Cuts.{cut_clean, cut_inside-Placing}

module _ (start stop : ℕ) (alts : List ℕ) (tail : Option ℕ) (i : Inode) (old : ℕ → Option Spot)
    (k : Holds old i) (u : IsDistinct (k.zs ++ alts)) (v : Below i.next_ext alts)
    (n : Within start stop (map i.exts alts)) (s : start ≤ stop) (t : stop ≤ last_offset) where
  abbrev Placed : Work → Type 0
  Placed w = Placing stop (put start stop (spot (map i.exts alts)) old) w

  -- The descent stops at `x`, which begins at or behind `start`.
  at_one :
      (x : ℕ) (xs ys : List ℕ)
      → k.zs ≡ xs ++ x ∷ ys
      → Within 0 start (map i.exts xs)
      → start ≤ (i.exts x).off_f
      → Placed
          (record { inode = i; alts = alts; tail = tail; tor = prev_of x i.chain; dh = some x })
  at_one x xs ys q f l =
      let w = around_one i.exts start k.zs k.sorted xs x ys q in
      let d = (IsDistinct-middle xs x ys (subst IsDistinct q k.distinct)).0 in
      cut_clean start stop alts tail i old k u v n s t xs (x ∷ ys) (prev_of x i.chain) (some x) q
        (ap (prev_of x) (k.linked.chain ∙ q) ∙ prev_of-middle x ys xs d) refl
        (let l = length-append xs (x ∷ ys) in omega arith) f (l, w.1, w.2)

  at_stop :
      (st : Stop)
      → descend i.exts start i.flayout ≡ st
      → Aim i.exts start k.zs st
      → Placed (find_first start stop alts tail i)
  unfolding find_first
  at_stop nowhere e h = absurd h
  at_stop (starts_at x) e (xs, ys, q, f, l) = rw (e, find_first) (at_one x xs ys q f l)
  at_stop (before_first x) e (xs, ys, q, f, l) = rw (e, find_first) (at_one x xs ys q f l)
  at_stop (inside x) e (xs, ys, q, l, m) =
      rw (e, find_first) (cut_inside-Placing start stop alts tail i old k u v n s t x xs ys q l m)
  at_stop (behind_last x) e (xs, ys, q, l, f) =
      let w = around_one i.exts start k.zs k.sorted xs x ys q in
      let g : k.zs ≡ (xs ++ x ∷ []) ++ ys = q ∙ sym (append_assoc xs (x ∷ []) ys) in
      let d = (IsDistinct-middle xs x ys (subst IsDistinct q k.distinct)).0 in
      rw (e, find_first)
        (cut_clean start stop alts tail i old k u v n s t (xs ++ x ∷ []) ys (some x)
          (next_of x i.chain) g (sym (get_last?-snoc xs x))
          (ap (next_of x) (k.linked.chain ∙ q) ∙ next_of-middle x ys xs d)
          (let l = length-append (xs ++ x ∷ []) ys in
            let l' = length-append xs (x ∷ []) in omega arith)
          (subst (Within 0 start) (sym (map-append i.exts xs (x ∷ []))) (
            Within-append 0 (i.exts x).off_f start (map i.exts xs) (i.exts x ∷ []) w.0
              (omega arith, w.1, l)))
          f)

  pub find_first-Placing : is_leaf i.flayout ≡ false → Placed (find_first start stop alts tail i)
  find_first-Placing l = at_stop (descend i.exts start i.flayout) refl (
      descend-Aim i.exts start k.zs k.sorted i.flayout [] [] l
        (sym k.linked.order ∙ sym (append-nil (inorder i.flayout))) (omega arith) (omega arith))
