-- ===== src/Layout/Replaced.antt =====
-- `replace` of incont.c as a whole: what the layout keeps where.
use pado_fs.Base.{
  ℕ, ◌+◌, ◌≤◌, ◌<◌, ◌≡◌, inl, inr, refl, sym, ap, ◌∙◌, subst, true, false, Option, none, List, [],
  ◌∷◌, ◌++◌, map, arith, ltb, Bool-cases,
}
use native.Mathlib.Decide.{dec_lt}
use pado_fs.Base.Word.{add64_lem}
use pado_fs.Base.Distinct.{IsDistinct, IsDistinct-of-append}
use pado_fs.Tree.{is_leaf}
use pado_fs.Inode.{Extent, Inode, Env, assert}
use pado_fs.Layout.{find_first, merge_first, replace_in, replace, set_root, end_of}
use pado_fs.Layout.Spots.{
  Within, Spot, spot, last_offset, spot-behind, spot-first, spot-below, spot-above, Within-le,
}
use pado_fs.Layout.Cleared.{asserted}
use pado_fs.Layout.Content.{Below, Holds}
use pado_fs.Layout.Merged.{merge_first-Placing}
use pado_fs.Layout.Settled.{stages-Holds}
use pado_fs.Layout.Descent.{is_leaf-inorder}
use pado_fs.Layout.Put.{put, put-inside, put-outside}
use pado_fs.Layout.Aimed.{find_first-Placing}

pub Holds-imp :
    (want want' : ℕ → Option Spot) (i : Inode)
    → ((p : ℕ) → want p ≡ want' p)
    → Holds want i
    → Holds want' i
Holds-imp want want' i f k = record {
  zs = k.zs;
  linked = k.linked;
  distinct = k.distinct;
  below = k.below;
  sorted = k.sorted;
  says = λ p. k.says p ∙ f p;
}

replace_in-Holds :
    (env : Env) (start stop : ℕ) (alts : List ℕ) (tail : Option ℕ) (i : Inode)
    (old : ℕ → Option Spot) (k : Holds old i)
    → is_leaf i.flayout ≡ false
    → IsDistinct (i.chain ++ alts)
    → Below i.next_ext alts
    → Within start stop (map i.exts alts)
    → start ≤ stop
    → stop ≤ last_offset
    → Holds (put start stop (spot (map i.exts alts)) old) (replace_in env alts tail start stop i)
unfolding replace_in
replace_in-Holds env start stop alts tail i old k l u v n s t =
    let u' = subst (λ us. IsDistinct (us ++ alts)) k.linked.chain u in
    let w = find_first start stop alts tail i in
    let want = put start stop (spot (map i.exts alts)) old in
    let c = find_first-Placing start stop alts tail i old k u' v n s t l in
    stages-Holds env start stop want (merge_first env w) t
      (merge_first-Placing stop want env w.tor w.alts w.inode w.tail w.dh t c)

-- The first new extent as the whole layout.
pub rooted :
    (a : ℕ) (i : Inode)
    → a < i.next_ext
    → 0 < (i.exts a).length
    → (i.exts a).off_f + (i.exts a).length ≤ last_offset
    → Holds (spot (i.exts a ∷ [])) (set_root a i)
rooted a i h m t = record {
  zs = a ∷ [];
  linked = record { chain = refl; order = refl; avl = (tt, tt, refl, omega arith, omega arith) };
  distinct = (refl, tt);
  below = (h, tt);
  sorted = (omega arith, m, t);
  says = λ p. refl;
}

-- An empty layout keeps nothing.
pub empty-none :
    {old : ℕ → Option Spot} {i : Inode} (k : Holds old i)
    → is_leaf i.flayout ≡ true
    → (p : ℕ) → old p ≡ none
empty-none {old} {i} k e p =
    let z : k.zs ≡ [] = sym k.linked.order ∙ is_leaf-inorder i.flayout e in
    sym (k.says p) ∙ (ap (λ zs. spot (map i.exts zs) p) z ∙ unfold spot in refl)

rooted_says :
    (start stop : ℕ) (e : Extent) (es : List Extent) (old : ℕ → Option Spot) (p : ℕ)
    → ((q : ℕ) → old q ≡ none)
    → Within start stop (e ∷ es)
    → put (e.off_f + e.length) stop (spot es) (spot (e ∷ [])) p
      ≡ put start stop (spot (e ∷ es)) old p
rooted_says start stop e es old p h w =
    let q = Within-le (e.off_f + e.length) stop es w.2 in
    elim (dec_lt p start) [
      | yes l ↦
          put-outside (e.off_f + e.length) stop (spot es) (spot (e ∷ [])) p (inl (omega arith))
          ∙ (spot-below start (e.off_f + e.length) (e ∷ []) p (omega arith, w.1, omega arith) l
              ∙ sym (put-outside start stop (spot (e ∷ es)) old p (inl l) ∙ h p))
      | no l ↦ elim (dec_lt p stop) [
        | no m ↦
            put-outside (e.off_f + e.length) stop (spot es) (spot (e ∷ [])) p (inr (omega arith))
            ∙ (spot-above start stop (e ∷ []) p (w.0, w.1, q) (omega arith)
                ∙ sym (put-outside start stop (spot (e ∷ es)) old p (inr (omega arith)) ∙ h p))
        | yes m ↦ elim (dec_lt p (e.off_f + e.length)) [
          | yes n ↦
              put-outside (e.off_f + e.length) stop (spot es) (spot (e ∷ [])) p (inl n)
              ∙ (sym (spot-first (e ∷ []) es p (spot-below (e.off_f + e.length) stop es p w.2 n))
                  ∙ sym (put-inside start stop (spot (e ∷ es)) old p (omega arith) m))
          | no n ↦
              put-inside (e.off_f + e.length) stop (spot es) (spot (e ∷ [])) p (omega arith) m
              ∙ (sym (spot-behind e es p (omega arith))
                  ∙ sym (put-inside start stop (spot (e ∷ es)) old p (omega arith) m))
        ]
      ]
    ]

-- `replace` on an empty layout.
on_empty :
    (env : Env) (start stop : ℕ) (alts : List ℕ) (tail : Option ℕ) (i : Inode)
    (old : ℕ → Option Spot) (k : Holds old i)
    → is_leaf i.flayout ≡ true
    → IsDistinct (k.zs ++ alts)
    → Below i.next_ext alts
    → Within start stop (map i.exts alts)
    → stop ≤ last_offset
    → Holds (put start stop (spot (map i.exts alts)) old) (elim alts [
      | [] ↦ i
      | a ∷ rest ↦ replace_in env rest tail (end_of (i.exts a)) stop (set_root a i)
    ])
on_empty env start stop [] tail i old k e u v n t =
    Holds-imp old _ i
      (λ p. elim (dec_lt p start) [
        | yes l ↦ sym (put-outside start stop (spot []) old p (inl l))
        | no l ↦ elim (dec_lt p stop) [
          | yes m ↦
              empty-none k e p
              ∙ sym (put-inside start stop (spot []) old p (omega arith) m ∙ unfold spot in refl)
          | no m ↦ sym (put-outside start stop (spot []) old p (inr (omega arith)))
        ]
      ])
      k
on_empty env start stop (a ∷ rest) tail i old k e u v n t =
    let w = Within-le _ stop (map i.exts rest) n.2 in
    let m : end_of (i.exts a) ≡ (i.exts a).off_f + (i.exts a).length =
      unfold end_of in add64_lem (i.exts a).off_f (i.exts a).length (omega arith) in
    rw m (
      Holds-imp _ _ _
        (λ p. rooted_says start stop (i.exts a) (map i.exts rest) old p (λ q. empty-none k e q) n)
        (replace_in-Holds env ((i.exts a).off_f + (i.exts a).length) stop rest tail (set_root a i)
          (spot (i.exts a ∷ [])) (rooted a i v.0 n.1 (omega arith)) refl
          (IsDistinct-of-append k.zs (a ∷ rest) u).1 v.1 n.2 w t))

-- A layout that keeps each position where `old` says and whose depths are in order, new extents
-- that are distinct from each other and from those of the layout, nonempty, in order and between
-- `start` and `stop`, and a `stop` of at most 2 ^ 64 - 1: after `replace` the layout keeps each
-- position from `start` to `stop` where the new extents keep it, or nowhere where none does,
-- keeps every other position where it was, and its chain and tree are again one sequence, in
-- order, without overlap and with every depth in order.
pub replace-Holds :
    (env : Env) (alts : List ℕ) (tail : Option ℕ) (start stop : ℕ) (i : Inode)
    (old : ℕ → Option Spot)
    → Holds old i
    → IsDistinct (i.chain ++ alts)
    → Below i.next_ext alts
    → Within start stop (map i.exts alts)
    → stop ≤ last_offset
    → Holds (put start stop (spot (map i.exts alts)) old) (replace env alts tail start stop i)
unfolding replace
replace-Holds env alts tail start stop i old k u v n t =
    let b = ltb start stop in
    let j = assert b i in
    let s = Within-le start stop (map i.exts alts) n in
    let k' : Holds old j = record {
      zs = k.zs;
      linked = asserted k.zs b i k.linked;
      distinct = k.distinct;
      below = k.below;
      sorted = k.sorted;
      says = k.says;
    } in
    let u' = subst (λ us. IsDistinct (us ++ alts)) k.linked.chain u in
    elim (Bool-cases (is_leaf i.flayout)) [
      | inl e ↦ rw (e, replace) (on_empty env start stop alts tail j old k' e u' v n t)
      | inr e ↦ rw (e, replace) (replace_in-Holds env start stop alts tail j old k' e u v n s t)
    ]
