-- ===== src/Layout/Kept.antt =====
-- `pado_write` and `pado_truncate` of incont.c: what the layout keeps where.
use pado_fs.Base.{
  ℕ, ◌+◌, ◌-◌, ◌≤◌, ◌<◌, ◌≡◌, inl, inr, refl, sym, ap, ◌∙◌, subst, false, Option, none, some, [],
  ◌∷◌, ◌++◌, map, arith, append-nil, ltb, max, if◌then◌else◌, if-elim,
}
use native.Mathlib.Decide.{dec_lt}
use pado_fs.Base.Word.{add64, add64_lem}
use pado_fs.Base.Distinct.{IsDistinct, IsDistinct-insert, has}
use pado_fs.Tree.{is_leaf}
use pado_fs.Tree.Order.{inorder}
use pado_fs.Tree.Balance.{IsAvl}
use pado_fs.Inode.{Extent, Inode, Env, update}
use pado_fs.Inode.Extents.{create_extent}
use pado_fs.Layout.{replace, touch, set_root, pado_write, pado_truncate}
use pado_fs.Layout.Spots.{Within, Spot, spot, last_offset, spot-hit, spot-below, spot-above}
use pado_fs.Layout.Updates.{map-update_absent}
use pado_fs.Layout.Content.{Below, Holds}
use pado_fs.Layout.Put.{put, put-inside, put-outside, fresh, Below-suc}
use pado_fs.Layout.Replaced.{Holds-imp, replace-Holds, empty-none, rooted}

-- A change of other fields, such as times, the size or the counters.
pub Holds-as :
    (want : ℕ → Option Spot) (i j : Inode)
    → j.chain ≡ i.chain
    → j.flayout ≡ i.flayout
    → j.exts ≡ i.exts
    → j.next_ext ≡ i.next_ext
    → Holds want i
    → Holds want j
Holds-as want i j e f g h k = record {
  zs = k.zs;
  linked = record {
    chain = e ∙ k.linked.chain;
    order = ap inorder f ∙ k.linked.order;
    avl = subst IsAvl (sym f) k.linked.avl;
  };
  distinct = k.distinct;
  below = subst (λ n. Below n k.zs) (sym h) k.below;
  sorted = subst (λ f. Within 0 last_offset (map f k.zs)) (sym g) k.sorted;
  says = λ p. ap (λ f. spot (map f k.zs) p) g ∙ k.says p;
}

-- What one new extent keeps.
one_extent :
    (start len : ℕ) (e : Extent) (old : ℕ → Option Spot) (p : ℕ)
    → e.off_f ≡ start
    → e.length ≡ len
    → put start (start + len) (spot (e ∷ [])) old p
      ≡ put start (start + len) (λ q. some (e.dobj, add64 e.off_do (q - start))) old p
one_extent start len e old p a b = elim (dec_lt p start) [
  | yes l ↦
      put-outside start (start + len) (spot (e ∷ [])) old p (inl l)
      ∙ sym (
          put-outside start (start + len) (λ q. some (e.dobj, add64 e.off_do (q - start))) old p
            (inl l))
  | no l ↦ elim (dec_lt p (start + len)) [
    | yes m ↦
        put-inside start (start + len) (spot (e ∷ [])) old p (omega arith) m
        ∙ (spot-hit e [] p (omega arith) (omega arith)
            ∙ (ap (λ s. some (e.dobj, add64 e.off_do (p - s))) a
                ∙ sym (
                    put-inside start (start + len) (λ q. some (e.dobj, add64 e.off_do (q - start)))
                      old p (omega arith) m)))
    | no m ↦
        put-outside start (start + len) (spot (e ∷ [])) old p (inr (omega arith))
        ∙ sym (
            put-outside start (start + len) (λ q. some (e.dobj, add64 e.off_do (q - start))) old p
              (inr (omega arith)))
  ]
]

-- The only extent of a layout.
alone :
    (start len : ℕ) (e : Extent) (old : ℕ → Option Spot) (p : ℕ)
    → e.off_f ≡ start
    → e.length ≡ len
    → 0 < len
    → old p ≡ none
    → spot (e ∷ []) p ≡ put start (start + len) (spot (e ∷ [])) old p
alone start len e old p a b h n = elim (dec_lt p start) [
  | yes l ↦
      spot-below start (start + len) (e ∷ []) p (omega arith, omega arith, omega arith) l
      ∙ sym (put-outside start (start + len) (spot (e ∷ [])) old p (inl l) ∙ n)
  | no l ↦ elim (dec_lt p (start + len)) [
    | yes m ↦ sym (put-inside start (start + len) (spot (e ∷ [])) old p (omega arith) m)
    | no m ↦
        spot-above start (start + len) (e ∷ []) p (omega arith, omega arith, omega arith)
          (omega arith)
        ∙ sym (put-outside start (start + len) (spot (e ∷ [])) old p (inr (omega arith)) ∙ n)
  ]
]

-- A new extent, and a new size.
pub with_extent :
    (d off_f off_do len n : ℕ) (i : Inode) (old : ℕ → Option Spot)
    → Holds old i
    → Holds old (record (create_extent d off_f off_do len i).0 { size = n })
      × IsDistinct (i.chain ++ i.next_ext ∷ [])
unfolding create_extent
with_extent d off_f off_do len n i old k =
    let x = i.next_ext in
    let e : Extent = record { dobj = d; off_f = off_f; off_do = off_do; length = len } in
    let i₂ = record (create_extent d off_f off_do len i).0 { size = n } in
    let k₂ : Holds old i₂ =
      let same : map (update i.exts x e) k.zs ≡ map i.exts k.zs =
        map-update_absent i.exts x e k.zs (fresh x k.zs k.below) in
      record {
        zs = k.zs;
        linked = record { chain = k.linked.chain; order = k.linked.order; avl = k.linked.avl };
        distinct = k.distinct;
        below = Below-suc x k.zs k.below;
        sorted = subst (Within 0 last_offset) (sym same) k.sorted;
        says = λ p. ap (λ es. spot es p) same ∙ k.says p;
      } in
    let u : IsDistinct (i.chain ++ x ∷ []) =
      let v : IsDistinct i.chain = subst IsDistinct (sym k.linked.chain) k.distinct in
      let f : has x i.chain ≡ false = ap (has x) k.linked.chain ∙ fresh x k.zs k.below in
      let n = sym (append-nil i.chain) in
      IsDistinct-insert x i.chain [] (subst (λ us. has x us ≡ false) n f) (subst IsDistinct n v) in
    (k₂, u)

-- A layout that keeps each position where `old` says and whose depths are in order, and a write
-- of at least one byte that ends at 2 ^ 64 - 1 at most: after `pado_write` the layout keeps the
-- positions of the range in the data object that was written to, from `off_do` on, and every
-- other position where it was, and its chain and tree are again one sequence, in order, without
-- overlap and with every depth in order.
pub pado_write-Holds :
    (env : Env) (d off_f off_do len : ℕ) (i : Inode) (old : ℕ → Option Spot)
    → Holds old i
    → 0 < len
    → off_f + len ≤ last_offset
    → Holds
        (put off_f (off_f + len) (λ p. some (d, add64 off_do (p - off_f))) old)
        (pado_write env (some d) off_f off_do len i).0
unfolding pado_write create_extent
pado_write-Holds env d off_f off_do len i old k h t =
    let x = i.next_ext in
    let e : Extent = record { dobj = d; off_f = off_f; off_do = off_do; length = len } in
    let c = create_extent d off_f off_do len i in
    let i₂ = record c.0 { size = max i.size (add64 off_f len) } in
    let want = put off_f (off_f + len) (λ p. some (d, add64 off_do (p - off_f))) old in
    let here : update i.exts x e x ≡ e = ground arith in
    let (k₂, u) = with_extent d off_f off_do len (max i.size (add64 off_f len)) i old k in
    let w : Within off_f (off_f + len) (update i.exts x e x ∷ []) =
      subst (λ a. Within off_f (off_f + len) (a ∷ [])) (sym here) (omega arith, h, omega arith) in
    let done =
      if is_leaf i.flayout
      then set_root x i₂
      else replace env (x ∷ []) (some x) off_f (add64 off_f len) i₂ in
    Holds-as want done (touch env done) refl refl refl refl (
      if-elim (Holds want) (is_leaf i.flayout)
        (λ l.
          Holds-imp _ want (set_root x i₂)
            (λ p.
              ap (λ a. spot (a ∷ []) p) here
              ∙ (alone off_f len e old p refl refl h (empty-none k l p)
                  ∙ one_extent off_f len e old p refl refl))
            (rooted x i₂ (omega arith) (subst (λ a. 0 < a.length) (sym here) h)
              (subst (λ a. a.off_f + a.length ≤ last_offset) (sym here) t)))
        (λ l.
          subst (λ m. Holds want (replace env (x ∷ []) (some x) off_f m i₂))
            (sym (add64_lem off_f len (omega arith)))
            (Holds-imp _ want _
              (λ p.
                ap (λ a. put off_f (off_f + len) (spot (a ∷ [])) old p) here
                ∙ one_extent off_f len e old p refl refl)
              (replace-Holds env (x ∷ []) (some x) off_f (off_f + len) i₂ old k₂ u (omega arith, tt)
                w t))))

-- A layout that keeps each position where `old` says and whose depths are in order, of a file of
-- at most 2 ^ 64 - 1 bytes: after `pado_truncate` the positions from the new size to the old one
-- are kept nowhere, every other position is kept where it was, and the chain and the tree are
-- again one sequence, in order, without overlap and with every depth in order.
pub pado_truncate-Holds :
    (env : Env) (newsize : ℕ) (i : Inode) (old : ℕ → Option Spot)
    → Holds old i
    → i.size ≤ last_offset
    → Holds (put newsize i.size (λ p. none) old) (pado_truncate env newsize i).0
unfolding pado_truncate spot
pado_truncate-Holds env newsize i old k t =
    let j = record i { size = newsize } in
    let k' = Holds-as old i j refl refl refl refl k in
    let cut = if ltb newsize i.size then replace env [] none newsize i.size j else j in
    let want = put newsize i.size (λ p. none) old in
    Holds-as want cut (touch env cut) refl refl refl refl (
      if-elim (Holds want) (ltb newsize i.size)
        (λ l.
          Holds-imp (put newsize i.size (spot []) old) want _ (λ p. refl)
            (replace-Holds env [] none newsize i.size j old k'
              (subst IsDistinct (sym (k.linked.chain) ∙ sym (append-nil i.chain)) k.distinct) tt
              (ground arith) t))
        (λ l.
          Holds-imp old want j
            (λ p. sym (
              put-outside newsize i.size (λ q. none) old p
                (elim (dec_lt p newsize) [ yes m ↦ inl m | no m ↦ inr (ground arith) ])))
            k'))
