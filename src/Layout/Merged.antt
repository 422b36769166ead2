-- ===== src/Layout/Merged.antt =====
-- The merges of `replace` (incont.c), with the extent before the range and with the one behind it:
-- they change nothing of what the layout keeps where.
use pado_fs.Base.{
  ℕ, ◌+◌, ◌≤◌, ◌≡◌, inl, inr, sym, ap, ap₂, ◌∙◌, subst, true, Option, none, some, List, [], ◌∷◌,
  ◌++◌, map, arith, append_assoc, Option-cases, Bool-cases, ◌==◌, if-elim,
}
use mathlib.Core.List.{map-append}
use pado_fs.Base.Word.{add64, add64_lem}
use pado_fs.Base.Distinct.{
  IsDistinct, IsDistinct-middle, IsDistinct-skip, not-has-append, next_of, get_last?,
}
use pado_fs.Inode.{Extent, Inode, Env, update, set_ext}
use pado_fs.Inode.Extents.{remove_extent, release_extent}
use pado_fs.Layout.{merge_first, merge_last, continues}
use pado_fs.Layout.Spots.{
  Within, Spot, spot, last_offset, Joins, spot-joined, spot-same_front, Within-split, Within-le,
  Within-append, Within-cut, Within-joined,
}
use pado_fs.Layout.Same.{remove_extent-SameBut, release_extent-IsSame}
use pado_fs.Layout.Linked.{IsLinked, IsSame-IsLinked, remove_extent-IsLinked}
use pado_fs.Layout.Updates.{map-update_absent, map-same, All-none}
use pado_fs.Layout.Stages.{snoc-split}
use pado_fs.Layout.Content.{Below, Holds, Placing}

-- `continues` without overflow.
continues-Joins :
    (e b : Extent) → continues e b ≡ true → e.off_f + e.length ≤ last_offset → Joins e b
unfolding continues
continues-Joins e b h k =
    let n : add64 e.off_f e.length ≡ e.off_f + e.length =
      add64_lem e.off_f e.length (omega arith) in
    ground arith

joined_length :
    (e b : Extent)
    → Joins e b
    → b.off_f + b.length ≤ last_offset
    → record e { length = add64 e.length b.length } ≡ record e { length = e.length + b.length }
joined_length e b j k =
    ap (λ n. record e { length = n }) (add64_lem e.length b.length (omega arith))

-- The fields of extents around one that is stretched.
map-update_middle :
    (f : ℕ → Extent) (x : ℕ) (e : Extent) (us vs : List ℕ)
    → IsDistinct (us ++ x ∷ vs)
    → map (update f x e) (us ++ x ∷ vs) ≡ map f us ++ e ∷ map f vs
map-update_middle f x e us vs u =
    let (a, b) = IsDistinct-middle us x vs u in
    let here : update f x e x ≡ e = ground arith in
    map-append (update f x e) us (x ∷ vs)
    ∙ ap₂ (λ xs ys. xs ++ ys) (map-update_absent f x e us a)
        (ap₂ (λ y ys. y ∷ ys) here (map-update_absent f x e vs b))

pub next_of-middle_eq :
    (t n : ℕ) (zs : List ℕ)
    → next_of t zs ≡ some n
    → (us : List ℕ) × (vs : List ℕ) × (zs ≡ us ++ t ∷ n ∷ vs)
unfolding next_of
next_of-middle_eq t n [] e = cc
next_of-middle_eq t n (z ∷ []) e = ground arith
next_of-middle_eq t n (z ∷ y ∷ zs) e = elim (Bool-cases (t == z)) [
  | inl b ↦
      let e' : t ≡ z = ground arith in
      let f' : y ≡ n = ground arith in ([], zs, ap₂ (λ a c. a ∷ c ∷ zs) (sym e') f')
  | inr b ↦
      let (us, vs, q) = next_of-middle_eq t n (y ∷ zs) (rw b at e) in
      (z ∷ us, vs, ap (λ ws. z ∷ ws) q)
]

All-skip : (n : ℕ) (us : List ℕ) (x : ℕ) (vs : List ℕ) → Below n (us ++ x ∷ vs) → Below n (us ++ vs)
All-skip n [] x vs a = a.1
All-skip n (u ∷ us) x vs a = (a.0, All-skip n us x vs a.1)

module _ (want : ℕ → Option Spot) (env : Env) (i : Inode) (t n : ℕ) (us vs : List ℕ)
    (k : Holds want i) (q : k.zs ≡ us ++ t ∷ n ∷ vs)
    (c : continues (i.exts t) (i.exts n) ≡ true) where
  -- The layout after the extent `n` was merged into `t`.
  merged-Holds : Holds want (
      remove_extent env n true
        (set_ext t (record (i.exts t) { length = add64 (i.exts t).length (i.exts n).length }) i))
  merged-Holds =
      let e = i.exts t in
      let b = i.exts n in
      let e' : Extent = record e { length = add64 e.length b.length } in
      let j = set_ext t e' i in
      let r = remove_extent env n true j in
      let w₀ : Within 0 last_offset (map i.exts us ++ e ∷ b ∷ map i.exts vs) =
        subst (Within 0 last_offset) (ap (map i.exts) q ∙ map-append i.exts us (t ∷ n ∷ vs))
          k.sorted in
      let (mid, _, w₂) = Within-cut 0 last_offset (map i.exts us) (e ∷ b ∷ map i.exts vs) w₀ in
      let g = Within-le _ last_offset (map i.exts vs) w₂.2.2 in
      let o = continues-Joins e b c (omega arith) in
      let l = joined_length e b o g in
      let f : us ++ t ∷ n ∷ vs ≡ (us ++ t ∷ []) ++ n ∷ vs =
        sym (append_assoc us (t ∷ []) (n ∷ vs)) in
      let f' : (us ++ t ∷ []) ++ vs ≡ us ++ t ∷ vs = append_assoc us (t ∷ []) vs in
      let d : IsDistinct ((us ++ t ∷ []) ++ n ∷ vs) = subst IsDistinct (q ∙ f) k.distinct in
      let d' : IsDistinct (us ++ t ∷ vs) =
        subst IsDistinct f' (IsDistinct-skip (us ++ t ∷ []) (n ∷ []) vs d) in
      let m : IsLinked ((us ++ t ∷ []) ++ n ∷ vs) j =
        subst (λ zs. IsLinked zs j) (q ∙ f)
          (record { chain = k.linked.chain; order = k.linked.order; avl = k.linked.avl }) in
      let s = remove_extent-SameBut env n true j in
      let x : map r.exts (us ++ t ∷ vs) ≡ map i.exts us ++ e' ∷ map i.exts vs =
        map-same j.exts r.exts [] (us ++ t ∷ vs) s.exts (All-none (us ++ t ∷ vs))
        ∙ map-update_middle i.exts t e' us vs d' in
      record {
        zs = us ++ t ∷ vs;
        linked =
            subst (λ zs. IsLinked zs r) f'
              (remove_extent-IsLinked env n (us ++ t ∷ []) vs j d m true);
        distinct = d';
        below =
            subst (λ a. Below a (us ++ t ∷ vs)) (sym s.next_ext)
              (subst (Below i.next_ext) f' (
                All-skip i.next_ext (us ++ t ∷ []) n vs
                  (subst (Below i.next_ext) (q ∙ f) k.below)));
        sorted =
            subst (Within 0 last_offset) (sym x)
              (Within-joined 0 last_offset (map i.exts us) e b e' (map i.exts vs) o l w₀);
        says = λ p.
            ap (λ es. spot es p) x
            ∙ (spot-same_front (map i.exts us) (e' ∷ map i.exts vs) (e ∷ b ∷ map i.exts vs) p
                  (spot-joined e b e' (map i.exts vs) p o l)
                ∙ (ap (λ es. spot es p)
                      (sym (ap (map i.exts) q ∙ map-append i.exts us (t ∷ n ∷ vs)))
                    ∙ k.says p));
      }

-- The last merge changes nothing of what the layout keeps.
pub merge_last-Holds :
    (want : ℕ → Option Spot) (env : Env) (tail : Option ℕ) (i : Inode)
    → Holds want i
    → Holds want (merge_last env tail i)
unfolding merge_last
merge_last-Holds want env none i k = k
merge_last-Holds want env (some t) i k = elim (Option-cases (next_of t i.chain)) [
  | inl e ↦ rw (e, merge_last) k
  | inr (n, e) ↦
      let (us, vs, q) =
        next_of-middle_eq t n k.zs (subst (λ zs. next_of t zs ≡ some n) k.linked.chain e) in
      rw (e, merge_last)
        (if-elim (Holds want) (continues (i.exts t) (i.exts n))
          (λ c. merged-Holds want env i t n us vs k q c) (λ _. k))
]

pub last-split : (t : ℕ) (xs : List ℕ) → some t ≡ get_last? xs → (us : List ℕ) × (xs ≡ us ++ t ∷ [])
last-split t [] e = cc
last-split t (x ∷ xs) e =
    let (us, t', q, f) = snoc-split x xs in
    let g : t' ≡ t = cc in (us, q ∙ ap (λ y. us ++ y ∷ []) g)

module _ (stop : ℕ) (want : ℕ → Option Spot) (env : Env) (t a : ℕ) (rest : List ℕ) (i : Inode)
    (tail dh : Option ℕ) (h : stop ≤ last_offset) where
  abbrev grown : Inode
  grown =
      release_extent env a true
        (set_ext t (record (i.exts t) { length = add64 (i.exts t).length (i.exts a).length }) i)

  merged_first-Placing :
      (tail' : Option ℕ)
      → continues (i.exts t) (i.exts a) ≡ true
      → Placing stop want
          (record { inode = i; alts = a ∷ rest; tail = tail; tor = some t; dh = dh })
      → Placing stop want
          (record { inode = grown; alts = rest; tail = tail'; tor = some t; dh = dh })
  merged_first-Placing tail' cs c =
      let e = i.exts t in
      let b = i.exts a in
      let e' : Extent = record e { length = add64 e.length b.length } in
      let j = set_ext t e' i in
      let s = release_extent-IsSame env a true j in
      let (us, q) = last-split t c.xs c.tor in
      let f : map i.exts c.xs ≡ map i.exts us ++ e ∷ [] =
        ap (map i.exts) q ∙ map-append i.exts us (t ∷ []) in
      let U = map i.exts us in
      let R = map i.exts rest in
      let all : map i.exts c.xs ++ b ∷ R ≡ U ++ e ∷ b ∷ R =
        ap (λ es. es ++ b ∷ R) f ∙ append_assoc U (e ∷ []) (b ∷ R) in
      let w₀ : Within 0 stop (U ++ e ∷ b ∷ R) =
        subst (Within 0 stop) all
          (Within-append 0 c.lo stop (map i.exts c.xs) (b ∷ R) c.front c.news) in
      let (mid, _, w₂) = Within-cut 0 stop U (e ∷ b ∷ R) w₀ in
      let g = Within-le _ stop R w₂.2.2 in
      let o = continues-Joins e b cs (omega arith) in
      let l = joined_length e b o (omega arith) in
      let w = Within-split 0 stop U e' R (Within-joined 0 stop U e b e' R o l w₀) in
      let d₁ : IsDistinct (us ++ t ∷ (rest ++ c.zs)) =
        subst IsDistinct
          (ap (λ zs. zs ++ (rest ++ c.zs)) q ∙ append_assoc us (t ∷ []) (rest ++ c.zs))
          (IsDistinct-skip c.xs (a ∷ []) (rest ++ c.zs) c.distinct) in
      let (a₁, a₂) = IsDistinct-middle us t (rest ++ c.zs) d₁ in
      let (a₃, a₄) = not-has-append t rest c.zs a₂ in
      let x₁ : map grown.exts c.xs ≡ U ++ e' ∷ [] =
        ap (λ g. map g c.xs) s.exts
        ∙ (ap (map j.exts) q
            ∙ (map-append j.exts us (t ∷ [])
                ∙ ap₂ (λ es es'. es ++ es') (map-update_absent i.exts t e' us a₁)
                    (let y : update i.exts t e' t ≡ e' = ground arith in ap (λ z. z ∷ []) y))) in
      let x₂ : map grown.exts rest ≡ R =
        ap (λ g. map g rest) s.exts ∙ map-update_absent i.exts t e' rest a₃ in
      let x₃ : map grown.exts c.zs ≡ map i.exts c.zs =
        ap (λ g. map g c.zs) s.exts ∙ map-update_absent i.exts t e' c.zs a₄ in
      record {
        xs = c.xs;
        zs = c.zs;
        lo = e'.off_f + e'.length;
        back = c.back;
        linked =
            IsSame-IsLinked (c.xs ++ c.zs) j grown s
              (record { chain = c.linked.chain; order = c.linked.order; avl = c.linked.avl });
        tor = c.tor;
        dh = c.dh;
        distinct = IsDistinct-skip c.xs (a ∷ []) (rest ++ c.zs) c.distinct;
        below =
            subst (λ n. Below n (c.xs ++ (rest ++ c.zs))) (sym s.next_ext)
              (All-skip i.next_ext c.xs a (rest ++ c.zs) c.below);
        some_left = c.some_left;
        front = subst (Within 0 (e'.off_f + e'.length)) (sym x₁) (
            Within-append 0 e'.off_f (e'.off_f + e'.length) U (e' ∷ []) w.0
              (omega arith, w.1, omega arith));
        news = subst (Within (e'.off_f + e'.length) stop) (sym x₂) w.2;
        behind = subst (Within c.back last_offset) (sym x₃) c.behind;
        before = λ p m.
            ap₂ (λ es es'. spot (es ++ es') p) x₁ x₂
            ∙ (ap (λ es. spot es p) (append_assoc U (e' ∷ []) R)
                ∙ (spot-same_front U (e' ∷ R) (e ∷ b ∷ R) p (spot-joined e b e' R p o l)
                    ∙ (ap (λ es. spot es p) (sym all) ∙ c.before p m)));
        after = λ p m. ap (λ es. spot es p) x₃ ∙ c.after p m;
      }

pub merge_first-Placing :
    (stop : ℕ) (want : ℕ → Option Spot) (env : Env) (tor : Option ℕ) (alts : List ℕ) (i : Inode)
    (tail dh : Option ℕ)
    → stop ≤ last_offset
    → Placing stop want (record { inode = i; alts = alts; tail = tail; tor = tor; dh = dh })
    → Placing stop want
        (merge_first env (record { inode = i; alts = alts; tail = tail; tor = tor; dh = dh }))
unfolding merge_first
merge_first-Placing stop want env none alts i tail dh h c = c
merge_first-Placing stop want env (some t) [] i tail dh h c = c
merge_first-Placing stop want env (some t) (a ∷ rest) i tail dh h c =
    if-elim (Placing stop want) (continues (i.exts t) (i.exts a))
      (λ e. merged_first-Placing stop want env t a rest i tail dh h _ e c) (λ _. c)
