-- ===== src/Layout/Checked.antt =====
-- `remove_extent` and `replace_extent` (incont.c) on references, counters and assertions.
use pado_fs.Base.{
  ℕ, ◌≤◌, ◌<◌, ◌≡◌, refl, sym, ap, ◌∙◌, subst, Bool, true, false, not, ◌||◌, Option, none, some,
  List, [], ◌∷◌, ◌++◌, map, arith, length, length-append, Option-cases, inl, inr, leb, ltb, ◌==◌,
}
use mathlib.Core.List.{map-append}
use pado_fs.Base.Word.{add64, add64_lem}
use pado_fs.Base.Distinct.{
  has, IsDistinct, IsDistinct-middle, IsDistinct-swap, has-append, prev_of, next_of, prev_of-middle,
  get_last?, erase, replace_with, has-erase,
}
use pado_fs.Tree.{Tree, substitute, detach}
use pado_fs.Tree.Balance.{IsAvl}
use pado_fs.Tree.Locate.{locate_lem}
use pado_fs.Tree.Ops.{unplug-IsAvl}
use pado_fs.Inode.{Extent, Inode, Env, set_tree}
use pado_fs.Inode.Extents.{
  unlink_extent, release_extent, remove_extent, replace_extent, check_extent,
}
use pado_fs.Inode.Owned.{IsOwned, IsOwned-as}
use pado_fs.Inode.Released.{release_extent-IsOwned}
use pado_fs.Layout.Spots.{Within, last_offset, Within-split}
use pado_fs.Layout.Same.{release_extent-IsSame}
use pado_fs.Layout.Linked.{IsLinked, IsSame-IsLinked, unlink_extent-Keeps, relink}
use pado_fs.Layout.Merged.{last-split}

pub has_swap : (a : ℕ) (us vs ws : List ℕ) → has a (us ++ (ws ++ vs)) ≡ has a (us ++ (vs ++ ws))
has_swap a us vs ws =
    let p = has-append a us (vs ++ ws) in
    let q = has-append a us (ws ++ vs) in
    let r = has-append a vs ws in let s = has-append a ws vs in ground arith

length_swap : (us vs ws : List ℕ) → length (us ++ (ws ++ vs)) ≡ length (us ++ (vs ++ ws))
length_swap us vs ws =
    let p = length-append us (vs ++ ws) in
    let q = length-append us (ws ++ vs) in
    let r = length-append vs ws in let s = length-append ws vs in omega arith

-- The order of the extents does not count.
pub IsOwned-swap :
    (us vs ws : List ℕ) (i : Inode) → IsOwned (us ++ (vs ++ ws)) i → IsOwned (us ++ (ws ++ vs)) i
IsOwned-swap us vs ws i o =
    IsOwned-as (us ++ (vs ++ ws)) (us ++ (ws ++ vs)) i i (λ x. has_swap x us vs ws)
      (IsDistinct-swap us vs ws o.distinct) (length_swap us vs ws) refl refl refl refl refl o

-- An operation that leaves the extents `live` in use, and the process going on.
abbrev pub Runs : List ℕ → Inode → Inode → Type 0
Runs live i j = IsOwned live j × (j.halted ≡ i.halted)

-- A change of the chain and the tree.
pub relinked-IsOwned :
    (live : List ℕ) (o : Option Tree) (c : List ℕ) (i : Inode)
    → IsOwned live i
    → IsOwned live (set_tree o (record i { chain = c }))
relinked-IsOwned live none c i k =
    IsOwned-as live live i _ (λ x. refl) k.distinct refl refl refl refl refl refl k
relinked-IsOwned live (some t) c i k =
    IsOwned-as live live i _ (λ x. refl) k.distinct refl refl refl refl refl refl k

last_end :
    (f : ℕ → Extent) (hi p : ℕ) (xs : List ℕ)
    → Within 0 hi (map f xs)
    → hi ≤ last_offset
    → get_last? xs ≡ some p
    → leb (add64 (f p).off_f (f p).length) hi ≡ true
last_end f hi p xs w h e =
    let (us, q) = last-split p xs (sym e) in
    let s =
      Within-split 0 hi (map f us) (f p) []
        (subst (Within 0 hi) (ap (map f) q ∙ map-append f us (p ∷ [])) w) in
    let m = add64_lem (f p).off_f (f p).length (let a = s.2 in omega arith) in
    let a = s.2 in ground arith

-- What `check_extent` asserts of an extent that has just taken the place of another.
check_extent-true :
    (y : ℕ) (xs ys : List ℕ) (live : List ℕ) (i : Inode)
    → IsDistinct (xs ++ y ∷ ys)
    → IsLinked (xs ++ y ∷ ys) i
    → IsOwned live i
    → has y live ≡ true
    → 0 < (i.exts y).length
    → Within 0 (i.exts y).off_f (map i.exts xs)
    → (i.exts y).off_f ≤ last_offset
    → check_extent y true i ≡ true
unfolding check_extent
check_extent-true y xs ys live i u k o m n w h =
    let l = locate_lem y xs ys i.flayout k.order u in
    let a = (unplug-IsAvl l.above _ (subst IsAvl l.whole k.avl)).0 in
    let p : prev_of y i.chain ≡ get_last? xs =
      ap (prev_of y) k.chain ∙ prev_of-middle y ys xs (IsDistinct-middle xs y ys u).0 in
    let r : has y (i.dobs (i.exts y).dobj).refs ≡ true =
      let s = o.refs (i.exts y).dobj y in ground arith in
    let z : ltb 0 (i.exts y).length ≡ true = ground arith in
    elim (Option-cases (get_last? xs)) [
      | inl e ↦ elim (Option-cases (next_of y i.chain)) [
        | inl f ↦ rw (z, r, p, e, f, l.found) (ground arith)
        | inr (n, f) ↦ rw (z, r, p, e, f, l.found) (ground arith)
      ]
      | inr (t, e) ↦
          let b = last_end i.exts (i.exts y).off_f t xs w h e in
          elim (Option-cases (next_of y i.chain)) [
            | inl f ↦ rw (z, r, p, e, f, l.found, b) (ground arith)
            | inr (n', f) ↦ rw (z, r, p, e, f, l.found, b) (ground arith)
          ]
    ]

module _ (env : Env) (x : ℕ) (xs ys : List ℕ) (live : List ℕ) (i : Inode)
    (u : IsDistinct (xs ++ x ∷ ys)) (k : IsLinked (xs ++ x ∷ ys) i) (o : IsOwned live i)
    (m : has x live ≡ true) where
  pub remove_extent-Runs : (b : Bool) → Runs (erase x live) i (remove_extent env x b i)
  unfolding remove_extent unlink_extent
  remove_extent-Runs b =
      let j = unlink_extent x i in
      let h = (unlink_extent-Keeps x xs ys i u k).1 in
      let p =
        relinked-IsOwned live (detach x (prev_of x i.chain) i.flayout) (erase x i.chain) i o in
      let (q, g) = release_extent-IsOwned env live x b j m p in (q, g ∙ h)

  pub replace_extent-Runs :
      (y : ℕ)
      → IsDistinct (xs ++ y ∷ ys)
      → has y live ≡ true
      → (y == x) ≡ false
      → 0 < (i.exts y).length
      → Within 0 (i.exts y).off_f (map i.exts xs)
      → (i.exts y).off_f ≤ last_offset
      → Runs (erase x live) i (replace_extent env x y i)
  unfolding replace_extent
  replace_extent-Runs y v n d l w h =
      let j = set_tree (substitute x y i.flayout) (record i { chain = replace_with x y i.chain }) in
      let (r, g) = relink x xs ys i u k y in
      let p = relinked-IsOwned live (substitute x y i.flayout) (replace_with x y i.chain) i o in
      let (q, f) = release_extent-IsOwned env live x true j m p in
      let t = release_extent env x true j in
      let s = release_extent-IsSame env x true j in
      let e : t.exts ≡ i.exts = s.exts ∙ kept (substitute x y i.flayout) in
      let c : check_extent y true t ≡ true =
        check_extent-true y xs ys (erase x live) t v (IsSame-IsLinked (xs ++ y ∷ ys) j t s r) q
          (let a = has-erase y x live o.distinct in ground arith)
          (subst (λ f. 0 < (f y).length) (sym e) l)
          (subst (λ f. Within 0 (f y).off_f (map f xs)) (sym e) w)
          (subst (λ f. (f y).off_f ≤ last_offset) (sym e) h) in
      (
        IsOwned-as (erase x live) (erase x live) t _ (λ z. refl) q.distinct refl refl refl refl refl
            refl q,
        ap (λ b. t.halted || not b) c ∙ (or_false t.halted ∙ (f ∙ g)),
      )
    where
      or_false : (b : Bool) → (b || false) ≡ b
      or_false b = ground arith

      kept :
          (o : Option Tree)
          → (set_tree o (record i { chain = replace_with x y i.chain })).exts ≡ i.exts
      kept none = refl
      kept (some t) = refl
