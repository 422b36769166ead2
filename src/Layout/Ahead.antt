-- ===== src/Layout/Ahead.antt =====
-- The stages of `replace` (incont.c) before its loop, on references, counters and assertions, and
-- where the loop begins.
use pado_fs.Base.{
  ℕ, ◌+◌, ◌≤◌, ◌<◌, ◌≡◌, refl, sym, ap, ◌∙◌, subst, true, false, ◌&&◌, Option, some, List, [], ◌∷◌,
  ◌++◌, map, arith, length, append_assoc, append-nil, ltb, if-elim, ◌==◌, Bool-cases, inl, inr,
}
use pado_fs.Base.Word.{add64, sub64, u32_mod}
use pado_fs.Base.Distinct.{
  has, IsDistinct, IsDistinct-middle, head?, next_of, next_of-middle, prev_of, has-append,
  has-middle, not-has_of_append,
}
use pado_fs.Tree.{is_leaf}
use pado_fs.Tree.Order.{inorder}
use pado_fs.Inode.{Extent, Inode, set_ext, update}
use pado_fs.Inode.Extents.{create_extent}
use pado_fs.Inode.Owned.{IsOwned, set_ext-IsOwned, create_extent-IsOwned}
use pado_fs.Layout.{
  Work, Stop, nowhere, starts_at, inside, before_first, behind_last, descend, find_first,
  cut_inside, end_of,
}
use pado_fs.Layout.Spots.{Within, Spot, last_offset}
use pado_fs.Layout.Content.{Below, Holds}
use pado_fs.Layout.Descent.{Aim, descend-Aim, around_one}
use pado_fs.Layout.Put.{fresh}
use pado_fs.Layout.Checked.{IsOwned-swap}
use pado_fs.Layout.Swept.{Past, Goes}

-- The extent with which the loop begins ends behind `start`.
abbrev pub IsAhead : (ℕ → Extent) → ℕ → Option ℕ → Type 0
IsAhead f start dh = (x : ℕ) → dh ≡ some x → start < (f x).off_f + (f x).length

pub Within-IsAhead :
    (f : ℕ → Extent) (start lo : ℕ) (zs : List ℕ)
    → Within lo last_offset (map f zs)
    → start ≤ lo
    → IsAhead f start (head? zs)
Within-IsAhead f start lo [] w h x e = cc
Within-IsAhead f start lo (z ∷ zs) w h x e =
    let e' : z ≡ x = cc in
    subst (λ y. start < (f y).off_f + (f y).length) e' (let a = w.0 in let b = w.1 in omega arith)

-- So do all that follow it.
pub IsAhead-Past :
    (f : ℕ → Extent) (start lo : ℕ) (zs : List ℕ)
    → Within lo last_offset (map f zs)
    → IsAhead f start (head? zs)
    → Past f start zs
IsAhead-Past f start lo [] w a = tt
IsAhead-Past f start lo (z ∷ zs) w a =
    let b = a z refl in
    (
      b,
      IsAhead-Past f start ((f z).off_f + (f z).length) zs w.2
          (Within-IsAhead f start ((f z).off_f + (f z).length) zs w.2 (omega arith)),
    )

-- A change of an extent that stands elsewhere.
pub IsAhead-update :
    (f : ℕ → Extent) (start y : ℕ) (e : Extent) (dh : Option ℕ)
    → ((x : ℕ) → dh ≡ some x → (x == y) ≡ false)
    → IsAhead f start dh
    → IsAhead (update f y e) start dh
IsAhead-update f start y e dh n a x h = let b = a x h in let c = n x h in ground arith

IsAhead-one :
    (f : ℕ → Extent) (start x : ℕ) → start < (f x).off_f + (f x).length → IsAhead f start (some x)
IsAhead-one f start x h z g =
    let g' : x ≡ z = cc in subst (λ a. start < (f a).off_f + (f a).length) g' h

IsAhead-beside :
    (f : ℕ → Extent) (start x y : ℕ) (e : Extent)
    → (x == y) ≡ false
    → start < (f x).off_f + (f x).length
    → IsAhead (update f y e) start (some x)
IsAhead-beside f start x y e n h = IsAhead-one (update f y e) start x (ground arith)

pub head-not :
    (y : ℕ) (zs : List ℕ) → has y zs ≡ false → (x : ℕ) → head? zs ≡ some x → (x == y) ≡ false
head-not y [] h x e = cc
head-not y (z ∷ zs) h x e = let e' : z ≡ x = cc in ground arith

module _ (start stop : ℕ) (alts : List ℕ) (tail : Option ℕ) (i : Inode) (old : ℕ → Option Spot)
    (k : Holds old i) (u : IsDistinct (i.chain ++ alts)) (v : Below i.next_ext alts)
    (o : IsOwned (i.chain ++ alts) i) (few : length (i.chain ++ alts) + 1 < u32_mod) where
  -- Where the layout stands before the first merge.
  abbrev Begins : Work → Type 0
  Begins w = Goes i w.inode w.alts × IsAhead w.inode.exts start w.dh

  module _ (x : ℕ) (xs ys : List ℕ) (e : k.zs ≡ xs ++ x ∷ ys) where
    in_chain : has x i.chain ≡ true
    in_chain = ap (has x) (k.linked.chain ∙ e) ∙ has-middle x xs ys

    behind_one : has x xs ≡ false × (has x ys ≡ false)
    behind_one = IsDistinct-middle xs x ys (subst IsDistinct e k.distinct)

    next_one : next_of x i.chain ≡ head? ys
    next_one = ap (next_of x) (k.linked.chain ∙ e) ∙ next_of-middle x ys xs behind_one.0

    -- The head of `x` as an extent of its own.
    split_off :
        (d off_f off_do len : ℕ)
        → d ≡ (i.exts x).dobj
        → start < (i.exts x).off_f + (i.exts x).length
        → let c = create_extent d off_f off_do len i in
          Begins (record {
            inode = c.0;
            alts = c.1 ∷ alts;
            tail = tail;
            tor = prev_of x i.chain;
            dh = some x;
          })
    unfolding create_extent
    split_off d off_f off_do len q h =
        let y = i.next_ext in
        let c = create_extent d off_f off_do len i in
        let f : has y i.chain ≡ false = ap (has y) k.linked.chain ∙ fresh y k.zs k.below in
        let n = not-has_of_append y i.chain alts f (fresh y alts v) in
        let live = i.chain ++ alts in
        let m : has d i.do_map ≡ true =
          ap (λ d. has d i.do_map) q
          ∙ o.listed x (let a = has-append x i.chain alts in let b = in_chain in ground arith) in
        let p = create_extent-IsOwned live d off_f off_do len i n m few o in
        let r = IsOwned-swap [] (y ∷ []) live c.0 p in
        let r' = subst (λ us. IsOwned us c.0) (append_assoc i.chain alts (y ∷ [])) r in
        let r'' = IsOwned-swap i.chain alts (y ∷ []) c.0 r' in
        let t : (x == y) ≡ false = elim (Bool-cases (x == y)) [
          | inl s ↦
              let s' : x ≡ y = ground arith in
              let b = in_chain in let b' = ap (λ a. has a i.chain) s' in ground arith
          | inr s ↦ s
        ] in
        ((r'', refl), IsAhead-beside i.exts start x y _ t h)

    -- The merge of the head into the first new extent.
    joined_to :
        (g : ℕ) (rest : List ℕ) (c : Extent)
        → alts ≡ g ∷ rest
        → c.dobj ≡ (i.exts g).dobj
        → start < (i.exts x).off_f + (i.exts x).length
        → Begins (record {
          inode = set_ext g c i;
          alts = alts;
          tail = tail;
          tor = prev_of x i.chain;
          dh = some x;
        })
    joined_to g rest c q m h =
        let n : has g i.chain ≡ false =
          let w : IsDistinct (i.chain ++ (g ∷ rest)) =
            subst (λ us. IsDistinct (i.chain ++ us)) q u in
          (IsDistinct-middle i.chain g rest w).0 in
        let t : (x == g) ≡ false = elim (Bool-cases (x == g)) [
          | inl s ↦
              let s' : x ≡ g = ground arith in
              let b = in_chain in let b' = ap (λ a. has a i.chain) s' in ground arith
          | inr s ↦ s
        ] in
        ((set_ext-IsOwned (i.chain ++ alts) g c i m o, refl), IsAhead-beside i.exts start x g c t h)

    -- The end of `x` goes.
    shortened :
        (len : ℕ)
        → start < (i.exts x).off_f + (i.exts x).length
        → Begins (record {
          inode = set_ext x (record (i.exts x) { length = len }) i;
          alts = alts;
          tail = tail;
          tor = some x;
          dh = next_of x i.chain;
        })
    shortened len h =
        let w = around_one i.exts start k.zs k.sorted xs x ys e in
        (
          (set_ext-IsOwned (i.chain ++ alts) x _ i refl o, refl),
          subst (IsAhead (set_ext x (record (i.exts x) { length = len }) i).exts start)
              (sym next_one)
              (IsAhead-update i.exts start x _ (head? ys) (head-not x ys behind_one.1)
                (Within-IsAhead i.exts start _ ys w.2 (omega arith))),
        )

  -- The descent stops at `x`, which begins at or behind `start`.
  before_one :
      (x : ℕ) (xs ys : List ℕ)
      → k.zs ≡ xs ++ x ∷ ys
      → start ≤ (i.exts x).off_f
      → Begins
          (record { inode = i; alts = alts; tail = tail; tor = prev_of x i.chain; dh = some x })
  before_one x xs ys e l =
      let w = around_one i.exts start k.zs k.sorted xs x ys e in
      ((o, refl), IsAhead-one i.exts start x (let a = w.1 in omega arith))

cut_inside-Begins :
    (start stop : ℕ) (alts : List ℕ) (tail : Option ℕ) (i : Inode) (old : ℕ → Option Spot)
    (k : Holds old i) (u : IsDistinct (i.chain ++ alts)) (v : Below i.next_ext alts)
    (o : IsOwned (i.chain ++ alts) i) (few : length (i.chain ++ alts) + 1 < u32_mod) (x : ℕ)
    (xs ys : List ℕ)
    → k.zs ≡ xs ++ x ∷ ys
    → start < (i.exts x).off_f + (i.exts x).length
    → let w = cut_inside start stop x alts tail i in
      Goes i w.inode w.alts × IsAhead w.inode.exts start w.dh
unfolding cut_inside
cut_inside-Begins start stop [] tail i old k u v o few x xs ys e h =
    if-elim (λ (w : Work). Goes i w.inode w.alts × IsAhead w.inode.exts start w.dh)
      (ltb stop (end_of (i.exts x)))
      (λ _. split_off start stop [] tail i old k u v o few x xs ys e _ _ _ _ refl h)
      (λ _. shortened start stop [] tail i old k u v o few x xs ys e _ h)
cut_inside-Begins start stop (g ∷ rest) tail i old k u v o few x xs ys e h =
    let P = λ (w : Work). Goes i w.inode w.alts × IsAhead w.inode.exts start w.dh in
    if-elim P (ltb stop (end_of (i.exts x)))
      (λ _.
        if-elim P
          ((i.exts x).dobj == (i.exts g).dobj
            && add64 (i.exts x).off_do (sub64 start (i.exts x).off_f) == (i.exts g).off_do
            && start == (i.exts g).off_f)
          (λ _.
            joined_to start stop (g ∷ rest) tail i old k u v o few x xs ys e g rest _ refl refl h)
          (λ _. split_off start stop (g ∷ rest) tail i old k u v o few x xs ys e _ _ _ _ refl h))
      (λ _. shortened start stop (g ∷ rest) tail i old k u v o few x xs ys e _ h)

module _ (start stop : ℕ) (alts : List ℕ) (tail : Option ℕ) (i : Inode) (old : ℕ → Option Spot)
    (k : Holds old i) (u : IsDistinct (i.chain ++ alts)) (v : Below i.next_ext alts)
    (o : IsOwned (i.chain ++ alts) i) (few : length (i.chain ++ alts) + 1 < u32_mod) where
  aimed_at :
      (st : Stop)
      → descend i.exts start i.flayout ≡ st
      → Aim i.exts start k.zs st
      → Begins start stop alts tail i old k u v o few (find_first start stop alts tail i)
  unfolding find_first
  aimed_at nowhere e h = absurd h
  aimed_at (starts_at x) e (xs, ys, q, f, l) =
      rw (e, find_first) (before_one start stop alts tail i old k u v o few x xs ys q l)
  aimed_at (before_first x) e (xs, ys, q, f, l) =
      rw (e, find_first) (before_one start stop alts tail i old k u v o few x xs ys q l)
  aimed_at (inside x) e (xs, ys, q, l, m) =
      rw (e, find_first) (cut_inside-Begins start stop alts tail i old k u v o few x xs ys q m)
  aimed_at (behind_last x) e (xs, ys, q, l, f) =
      let n = next_one start stop alts tail i old k u v o few x xs ys q in
      rw (e, find_first)
        (
          (o, refl),
          subst (IsAhead i.exts start) (sym n)
              (Within-IsAhead i.exts start start ys f (omega arith)),
        )

  pub find_first-Goes :
      is_leaf i.flayout ≡ false
      → start ≤ last_offset
      → let w = find_first start stop alts tail i in
        Goes i w.inode w.alts × IsAhead w.inode.exts start w.dh
  find_first-Goes l m = aimed_at (descend i.exts start i.flayout) refl (
      descend-Aim i.exts start k.zs k.sorted i.flayout [] [] l
        (sym k.linked.order ∙ sym (append-nil (inorder i.flayout))) (omega arith) (omega arith))
