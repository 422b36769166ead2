-- ===== src/Layout/Taken.antt =====
-- `pado_clone` (incont.c): where the positions of the file are kept afterwards.
use pado_fs.Base.{
  ℕ, ◌≤◌, ◌<◌, ◌≡◌, refl, sym, ap, ◌∙◌, subst, false, Option, none, List, [], ◌∷◌, ◌++◌, map, arith,
  All, Bool-cases, inl, inr, max, leb, ltb, ◌&&◌,
}
use pado_fs.Base.Distinct.{IsDistinct, has}
use pado_fs.Tree.Order.{inorder}
use pado_fs.Tree.Balance.{IsAvl}
use pado_fs.Inode.{Extent, Inode, Env}
use pado_fs.Layout.{Segment, clone_extents, last_of, replace, pado_clone, touch}
use pado_fs.Layout.Spots.{Spot, Where, Within, spot, last_offset}
use pado_fs.Layout.Content.{Below, Holds}
use pado_fs.Layout.Put.{put}
use pado_fs.Layout.Replaced.{replace-Holds}
use pado_fs.Layout.Kept.{Holds-as}
use pado_fs.Layout.Names.{replace-IsNamed}
use pado_fs.Layout.Places.{
  Serves, Serves-by, IsNamed-HasNames, IsMade, IsMade-wider, place, place-HasNames, place-put,
  put-cases, put-old,
}
use pado_fs.Layout.Cloned.{Cloned, AreInOrder, sent_place, clone_extents-Cloned}
use pado_fs.Layout.Acquired.{IsUp}

earlier-absent : (n x : ℕ) (ys : List ℕ) → x < n → All (λ y. n ≤ y) ys → has x ys ≡ false
earlier-absent n x [] l a = refl
earlier-absent n x (y ∷ ys) l a = let b = earlier-absent n x ys l a.1 in let c = a.0 in ground arith

-- Earlier pointers and later ones are distinct.
earlier-later :
    (n : ℕ) (us vs : List ℕ)
    → Below n us
    → All (λ y. n ≤ y) vs
    → IsDistinct us
    → IsDistinct vs
    → IsDistinct (us ++ vs)
earlier-later n [] vs a b u v = v
earlier-later n (x ∷ us) vs a b u v =
    (not_either x us vs u.0 (earlier-absent n x vs a.0 b), earlier-later n us vs a.1 b u.1 v)
  where
    not_either :
        (x : ℕ) (us vs : List ℕ) → has x us ≡ false → has x vs ≡ false → has x (us ++ vs) ≡ false
    not_either x [] vs a b = b
    not_either x (y ∷ us) vs a b = ground (arith, not_either x us vs)

map-kept :
    (f g : ℕ → Extent) (n : ℕ) (zs : List ℕ)
    → ((x : ℕ) → x < n → g x ≡ f x)
    → Below n zs
    → map g zs ≡ map f zs
map-kept f g n [] e b = refl
map-kept f g n (z ∷ zs) e b = rw (e z b.0, map-kept f g n zs e b.1) refl

Below-wider : (m n : ℕ) (zs : List ℕ) → m ≤ n → Below m zs → Below n zs
Below-wider m n [] h b = tt
Below-wider m n (z ∷ zs) h b = (let c = b.0 in omega arith, Below-wider m n zs h b.1)

pub put-new {ℓ} :
    {A : Type ℓ} (start stop : ℕ) (new new' old : ℕ → A) (p : ℕ)
    → (start ≤ p → p < stop → new p ≡ new' p)
    → put start stop new old p ≡ put start stop new' old p
put-new start stop new new' old p e = elim (Bool-cases (leb start p && ltb p stop)) [
  | inl b ↦ rw b (e (ground arith) (ground arith))
  | inr b ↦ rw b refl
]

-- The layout before `replace`, with the extents that the loop makes.
pub drawn-Holds :
    (start lo stop n : ℕ) (ss : List Segment) (i : Inode) (r : Inode × List ℕ)
    (old : ℕ → Option Spot)
    → Holds old i
    → Cloned start lo stop ss i r
    → Holds old (record r.0 { size = n }) × IsDistinct (r.0.chain ++ r.1)
drawn-Holds start lo stop n ss i r old k c =
    let zs = k.zs in
    let same : map r.0.exts zs ≡ map i.exts zs =
      map-kept i.exts r.0.exts i.next_ext zs c.kept k.below in
    (
      record {
        zs = zs;
        linked = record {
          chain = c.chain ∙ k.linked.chain;
          order = ap inorder c.flayout ∙ k.linked.order;
          avl = subst IsAvl (sym c.flayout) k.linked.avl;
        };
        distinct = k.distinct;
        below = Below-wider i.next_ext r.0.next_ext zs c.next_ext k.below;
        sorted = subst (Within 0 last_offset) (sym same) k.sorted;
        says = λ p. ap (λ es. spot es p) same ∙ k.says p;
      },
      subst (λ us. IsDistinct (us ++ r.1)) (sym (c.chain ∙ k.linked.chain))
          (earlier-later i.next_ext zs r.1 k.below c.later k.distinct c.distinct),
    )

-- The layout that `pado_clone` leaves, in terms of the extents that its loop makes.
pub pado_clone-Holds :
    (env : Env) (ss : List Segment) (start stop : ℕ) (i : Inode) (old : ℕ → Option Spot)
    → Holds old i
    → Cloned start start stop ss i (clone_extents env start stop ss i)
    → stop ≤ last_offset
    → let r = clone_extents env start stop ss i in
      Holds (put start stop (spot (map r.0.exts r.1)) old) (pado_clone env ss start stop i).0
unfolding pado_clone
pado_clone-Holds env ss start stop i old k c t =
    let r = clone_extents env start stop ss i in
    let j = record r.0 { size = max r.0.size stop } in
    let (held, d) = drawn-Holds start start stop (max r.0.size stop) ss i r old k c in
    let l = replace env r.1 (last_of none r.1) start stop j in
    Holds-as _ l (touch env l) refl refl refl refl
      (replace-Holds env r.1 (last_of none r.1) start stop j old held d c.below c.within t)

pub pado_clone-Serves :
    (env : Env) (ss : List Segment) (start stop : ℕ) (i : Inode) (want : ℕ → Option Where)
    → Serves want i
    → IsUp env
    → stop ≤ last_offset
    → AreInOrder start start stop ss
    → Serves (put start stop (sent_place start ss) want) (pado_clone env ss start stop i).0
unfolding pado_clone
pado_clone-Serves env ss start stop i want s u t o =
    let c = clone_extents-Cloned env start start stop ss i u t s.table o in
    let r = clone_extents env start stop ss i in
    let j = record r.0 { size = max r.0.size stop } in
    let k = replace env r.1 (last_of none r.1) start stop j in
    let h = pado_clone-Holds env ss start stop i s.spots s.holds c t in
    let n = IsNamed-HasNames j k (replace-IsNamed env r.1 (last_of none r.1) start stop j) in
    let new = spot (map r.0.exts r.1) in
    let spots = put start stop new s.spots in
    Serves-by (put start stop (sent_place start ss) want) spots r.0 (touch env k) h
      (c.names.table s.table)
      (record { next_dob = n.next_dob; table = n.table; hosts = n.hosts; loids = n.loids })
      (λ p.
        put-cases (IsMade r.0.next_dob) start stop new s.spots p c.made
          (λ q. IsMade-wider i.next_dob r.0.next_dob (s.spots q) c.names.next_dob (s.made q)))
      (λ p.
        place-put r.0 start stop new s.spots p
        ∙ (put-old start stop (λ q. place r.0 (new q)) (λ q. place r.0 (s.spots q)) want p
              (place-HasNames i r.0 (s.spots p) c.names (s.made p) ∙ s.names p)
            ∙ put-new start stop (λ q. place r.0 (new q)) (sent_place start ss) want p
                (λ _. c.says p)))
