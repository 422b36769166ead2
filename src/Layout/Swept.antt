-- ===== src/Layout/Swept.antt =====
-- The loop of `replace` (incont.c) over the range, on references, counters and assertions.
use pado_fs.Base.{
  ℕ, zero, suc, ◌+◌, ◌≤◌, ◌<◌, ◌≡◌, refl, sym, ap, ◌∙◌, subst, Bool, true, false, not, ◌||◌, Option,
  some, List, [], ◌∷◌, ◌++◌, map, arith, length, append_assoc, leb, ltb, if-elim, All, All-imp,
  ◌==◌,
}
use mathlib.Core.List.{map-append}
use pado_fs.Base.Word.{add64_lem}
use pado_fs.Base.Distinct.{
  has, IsDistinct, IsDistinct-middle, IsDistinct-skip, head?, erase, erase-middle, has-append,
  has-middle, not-has-append,
}
use pado_fs.Inode.{Extent, Inode, Env, assert}
use pado_fs.Inode.Extents.{remove_extent, replace_extent}
use pado_fs.Inode.Owned.{IsOwned, IsOwned-as, set_ext-IsOwned}
use pado_fs.Layout.{Work, clear_range, end_of}
use pado_fs.Layout.Spots.{Within, last_offset, Within-le, Within-append, Within-wider}
use pado_fs.Layout.Same.{remove_extent-SameBut, replace_extent-SameBut}
use pado_fs.Layout.Updates.{map-same, All-none}
use pado_fs.Layout.Linked.{IsLinked, remove_extent-IsLinked, replace_extent-IsLinked}
use pado_fs.Layout.Cleared.{asserted, next_of-linked, left_out}
use pado_fs.Layout.Checked.{IsOwned-swap, Runs, remove_extent-Runs, replace_extent-Runs}

-- Behind `start`.
abbrev pub Past : (ℕ → Extent) → ℕ → List ℕ → Type 0
Past f start zs = All (λ x. start < (f x).off_f + (f x).length) zs

-- The extents in the layout and the new ones that are left are in use, and the process goes on.
abbrev pub Goes : Inode → Inode → List ℕ → Type 0
Goes i j alts = Runs (j.chain ++ alts) i j

pub asserted-Runs :
    (live : List ℕ) (b : Bool) (i : Inode) → b ≡ true → IsOwned live i → Runs live i (assert b i)
asserted-Runs live b i e o = (
  IsOwned-as live live i _ (λ x. refl) o.distinct refl refl refl refl refl refl o,
  ap (λ c. i.halted || not c) e ∙ or_false i.halted,
)
  where
    or_false : (b : Bool) → (b || false) ≡ b
    or_false b = ground arith

Past-same :
    (f g : ℕ → Extent) (start : ℕ) (zs : List ℕ)
    → ((y : ℕ) → has y [] ≡ false → g y ≡ f y)
    → Past f start zs
    → Past g start zs
Past-same f g start zs e a =
    All-imp (λ y h. subst (λ z. start < z.off_f + z.length) (sym (e y refl)) h) zs a

-- The new extent in the place of the old one.
swapped :
    (xs zs alts : List ℕ) (a : ℕ) (i : Inode)
    → IsOwned ((xs ++ zs) ++ (a ∷ alts)) i
    → IsOwned (((xs ++ a ∷ []) ++ zs) ++ alts) i
swapped xs zs alts a i o =
    let o₁ = subst (λ us. IsOwned us i) (append_assoc xs zs (a ∷ alts)) o in
    let o₂ = IsOwned-swap xs zs (a ∷ alts) i o₁ in
    let o₃ = subst (λ us. IsOwned us i) (sym (append_assoc xs (a ∷ []) (alts ++ zs))) o₂ in
    let o₄ = IsOwned-swap (xs ++ a ∷ []) alts zs i o₃ in
    subst (λ us. IsOwned us i) (sym (append_assoc (xs ++ a ∷ []) zs alts)) o₄

erased :
    (x : ℕ) (xs zs alts : List ℕ)
    → has x xs ≡ false
    → erase x ((xs ++ x ∷ zs) ++ alts) ≡ (xs ++ zs) ++ alts
erased x xs zs alts h =
    ap (erase x) (append_assoc xs (x ∷ zs) alts)
    ∙ (erase-middle x (zs ++ alts) xs h ∙ sym (append_assoc xs zs alts))

has_in : (x : ℕ) (xs zs alts : List ℕ) → has x ((xs ++ x ∷ zs) ++ alts) ≡ true
has_in x xs zs alts = ap (has x) (append_assoc xs (x ∷ zs) alts) ∙ has-middle x xs (zs ++ alts)

-- The loop stops: the extents are as they were, but one of them may be cut off at the front.
module _ (i j : Inode) (xs zs alts : List ℕ) (k : IsLinked (xs ++ zs) j) where
  stays : Runs ((xs ++ zs) ++ alts) i j → Goes i j alts
  stays r = (subst (λ us. IsOwned (us ++ alts) j) (sym k.chain) r.0, r.1)

pub clear_range-Goes :
    (env : Env) (fuel start stop lo back : ℕ) (xs zs alts : List ℕ) (tor tail : Option ℕ)
    (i : Inode)
    → IsDistinct (xs ++ (alts ++ zs))
    → IsLinked (xs ++ zs) i
    → length zs < fuel
    → Within 0 lo (map i.exts xs)
    → Within lo stop (map i.exts alts)
    → stop ≤ last_offset
    → Within back last_offset (map i.exts zs)
    → Past i.exts start zs
    → IsOwned ((xs ++ zs) ++ alts) i
    → let r =
        clear_range env fuel start stop
          (record { inode = i; alts = alts; tail = tail; tor = tor; dh = head? zs }) in
      Goes i r.0.inode r.0.alts
unfolding clear_range
clear_range-Goes env zero start stop lo back xs zs alts tor tail i u k n f v t b p o =
    absurd (omega arith)
clear_range-Goes env (suc fuel) start stop lo back xs [] alts tor tail i u k n f v t b p o =
    stays i i xs [] alts k (o, refl)
clear_range-Goes env (suc fuel) start stop lo back xs (x ∷ zs) [] tor tail i u k n f v t b p o =
    let e = i.exts x in
    let top = Within-le (e.off_f + e.length) last_offset (map i.exts zs) b.2 in
    let m : end_of e ≡ e.off_f + e.length =
      unfold end_of in add64_lem e.off_f e.length (omega arith) in
    let c = ltb start (end_of e) in
    let c' : c ≡ true = let p' = p.0 in ground arith in
    let i' = assert c i in
    let k' = asserted (xs ++ x ∷ zs) c i k in
    let a = asserted-Runs ((xs ++ x ∷ zs) ++ []) c i c' o in
    let P = λ (r : Work × Option ℕ). Goes i r.0.inode r.0.alts in
    let y = (IsDistinct-middle xs x zs u).0 in
    if-elim P (leb stop e.off_f) (λ _. stays i i' xs (x ∷ zs) [] k' a)
      (λ _.
        if-elim P (ltb stop (end_of e))
          (λ _.
            stays i _ xs (x ∷ zs) [] (record { chain = k.chain; order = k.order; avl = k.avl })
              (set_ext-IsOwned ((xs ++ x ∷ zs) ++ []) x _ i' refl a.0, a.1))
          (λ _.
            let j = remove_extent env x true i' in
            let s = (remove_extent-SameBut env x true i').exts in
            let w : (ws : List ℕ) → map j.exts ws ≡ map i.exts ws =
              λ ws. map-same i.exts j.exts [] ws s (All-none ws) in
            let (q, g) =
              remove_extent-Runs env x xs zs ((xs ++ x ∷ zs) ++ []) i' u k' a.0 (has_in x xs zs [])
                true in
            let z =
              clear_range-Goes env fuel start stop lo (e.off_f + e.length) xs zs [] tor tail j
                (IsDistinct-skip xs (x ∷ []) zs u) (remove_extent-IsLinked env x xs zs i' u k' true)
                (omega arith) (subst (Within 0 lo) (sym (w xs)) f) v t
                (subst (Within (e.off_f + e.length) last_offset) (sym (w zs)) b.2)
                (Past-same i.exts j.exts start zs s p.1)
                (subst (λ us. IsOwned us j) (erased x xs zs [] y) q) in
            subst
              (λ d. P (
                clear_range env fuel start stop
                  (record { inode = j; alts = []; tail = tail; tor = tor; dh = d })))
              (sym (next_of-linked x xs zs i u k)) (z.0, z.1 ∙ (g ∙ a.1))))
clear_range-Goes env (suc fuel) start stop lo back xs (x ∷ zs) (y ∷ alts) tor tail i u k n f v t b p
      o =
    let e = i.exts x in
    let h = i.exts y in
    let top = Within-le (e.off_f + e.length) last_offset (map i.exts zs) b.2 in
    let top' = Within-le (h.off_f + h.length) stop (map i.exts alts) v.2 in
    let m : end_of e ≡ e.off_f + e.length =
      unfold end_of in add64_lem e.off_f e.length (omega arith) in
    let c = ltb start (end_of e) in
    let c' : c ≡ true = let p' = p.0 in ground arith in
    let i' = assert c i in
    let k' = asserted (xs ++ x ∷ zs) c i k in
    let live = (xs ++ x ∷ zs) ++ (y ∷ alts) in
    let a = asserted-Runs live c i c' o in
    let P = λ (r : Work × Option ℕ). Goes i r.0.inode r.0.alts in
    let u' = IsDistinct-skip xs (y ∷ alts) (x ∷ zs) u in
    let d = (IsDistinct-middle xs x zs u').0 in
    if-elim P (leb stop e.off_f) (λ _. stays i i' xs (x ∷ zs) (y ∷ alts) k' a)
      (λ _.
        if-elim P (ltb stop (end_of e))
          (λ _.
            stays i _ xs (x ∷ zs) (y ∷ alts)
              (record { chain = k.chain; order = k.order; avl = k.avl })
              (set_ext-IsOwned live x _ i' refl a.0, a.1))
          (λ _.
            let j = replace_extent env x y i' in
            let s = (replace_extent-SameBut env x y i').exts in
            let w : (ws : List ℕ) → map j.exts ws ≡ map i.exts ws =
              λ ws. map-same i.exts j.exts [] ws s (All-none ws) in
            let front : Within 0 h.off_f (map i.exts xs) =
              Within-wider 0 0 lo h.off_f (map i.exts xs) (omega arith) v.0 f in
            let l = left_out y x xs alts zs u in
            let dist : IsDistinct (xs ++ y ∷ zs) =
              subst IsDistinct (append_assoc xs (y ∷ []) zs)
                (IsDistinct-skip (xs ++ y ∷ []) alts zs l) in
            let in_live : has y live ≡ true =
              has-append y (xs ++ x ∷ zs) (y ∷ alts) ∙ (ground arith) in
            let ne : (y == x) ≡ false =
              let g =
                not-has-append y alts (x ∷ zs) (IsDistinct-middle xs y (alts ++ x ∷ zs) u).1 in
              ground arith in
            let (q, g) =
              replace_extent-Runs env x xs zs live i' u' k' a.0 (has_in x xs zs (y ∷ alts)) y dist
                in_live ne v.1 front (omega arith) in
            let xs' = xs ++ y ∷ [] in
            let z =
              clear_range-Goes env fuel start stop (h.off_f + h.length) (e.off_f + e.length) xs' zs
                alts (some y) tail j l
                (subst (λ us. IsLinked us j) (sym (append_assoc xs (y ∷ []) zs))
                  (replace_extent-IsLinked env x xs zs i' u' k' y))
                (omega arith)
                (subst (Within 0 (h.off_f + h.length)) (sym (w xs' ∙ map-append i.exts xs (y ∷ [])))
                  (Within-append 0 h.off_f (h.off_f + h.length) (map i.exts xs) (h ∷ []) front
                    (omega arith, v.1, omega arith)))
                (subst (Within (h.off_f + h.length) stop) (sym (w alts)) v.2) t
                (subst (Within (e.off_f + e.length) last_offset) (sym (w zs)) b.2)
                (Past-same i.exts j.exts start zs s p.1)
                (swapped xs zs alts y j
                  (subst (λ us. IsOwned us j) (erased x xs zs (y ∷ alts) d) q)) in
            subst
              (λ d. P (
                clear_range env fuel start stop
                  (record { inode = j; alts = alts; tail = tail; tor = some y; dh = d })))
              (sym (next_of-linked x xs zs i u' k)) (z.0, z.1 ∙ (g ∙ a.1))))
