-- ===== src/Layout/Cuts.antt =====
-- The extent that holds the start of the range of `replace` (incont.c): cut short, cut in two, or
-- merged into the first new extent.
use pado_fs.Base.{
  ℕ, ◌+◌, ◌-◌, ◌≤◌, ◌<◌, ◌≡◌, inl, inr, refl, sym, ap, ap₂, ◌∙◌, subst, true, ◌&&◌, Option, some,
  List, [], ◌∷◌, ◌++◌, map, arith, length, length-append, append_assoc, ltb, All-append, ◌==◌,
  if-elim,
}
use mathlib.Core.List.{map-append}
use native.Mathlib.Decide.{dec_lt}
use pado_fs.Base.Word.{add64, sub64, add64_lem, sub64_lem}
use pado_fs.Base.Distinct.{
  IsDistinct, IsDistinct-middle, IsDistinct-swap, IsDistinct-insert, not-has-append, next_of,
  next_of-middle, prev_of, prev_of-middle, head?, get_last?, get_last?-snoc,
}
use pado_fs.Inode.{Extent, Inode, update, set_ext}
use pado_fs.Inode.Extents.{create_extent}
use pado_fs.Layout.{cut_inside, end_of}
use pado_fs.Layout.Spots.{
  Within, Spot, spot, last_offset, Joins, spot-joined, spot-hit, spot-behind, spot-same_front,
  spot-second, spot-first, spot-below, Within-le, Within-wider, Within-append,
}
use pado_fs.Layout.Linked.{IsLinked}
use pado_fs.Layout.Updates.{map-update_absent}
use pado_fs.Layout.Content.{Below, Holds, Placing}
use pado_fs.Layout.Descent.{around_one}
use pado_fs.Layout.Put.{
  put, put-inside, put-outside, fresh, Below-suc, Below-swap, All-front, placing,
}

module _ (start stop : ℕ) (alts : List ℕ) (tail : Option ℕ) (i : Inode) (old : ℕ → Option Spot)
    (k : Holds old i) (u : IsDistinct (k.zs ++ alts)) (v : Below i.next_ext alts)
    (n : Within start stop (map i.exts alts)) (s : start ≤ stop) (t : stop ≤ last_offset) where
  abbrev goal : ℕ → Option Spot
  goal = put start stop (spot (map i.exts alts)) old

  -- A cut of the chain at `start`, no extent changed.
  pub cut_clean :
      (xs zs : List ℕ) (tor dh : Option ℕ)
      → k.zs ≡ xs ++ zs
      → tor ≡ get_last? xs
      → dh ≡ head? zs
      → 0 < length (xs ++ zs)
      → Within 0 start (map i.exts xs)
      → Within start last_offset (map i.exts zs)
      → Placing stop goal (record { inode = i; alts = alts; tail = tail; tor = tor; dh = dh })
  cut_clean xs zs tor dh e f g r a b =
      let X = map i.exts xs in
      let Z = map i.exts zs in
      let all : map i.exts k.zs ≡ X ++ Z = ap (map i.exts) e ∙ map-append i.exts xs zs in
      placing stop start goal _ xs zs start (subst (λ us. IsLinked us i) e k.linked) f g
        (IsDistinct-swap xs zs alts
          (subst IsDistinct (ap (λ us. us ++ alts) e ∙ append_assoc xs zs alts) u))
        (Below-swap i.next_ext xs zs alts (subst (Below i.next_ext) e k.below) v) r a n b
        (λ p l.
          sym (spot-first X Z p (spot-below start last_offset Z p b l))
          ∙ (ap (λ es. spot es p) (sym all)
              ∙ (k.says p ∙ sym (put-outside start stop (spot (map i.exts alts)) old p (inl l)))))
        (λ p l m. sym (put-inside start stop (spot (map i.exts alts)) old p l m))
        (λ p l.
          sym (spot-second 0 start X Z p a (omega arith))
          ∙ (ap (λ es. spot es p) (sym all)
              ∙ (k.says p ∙ sym (put-outside start stop (spot (map i.exts alts)) old p (inr l)))))

  module _ (x : ℕ) (xs ys : List ℕ) (e : k.zs ≡ xs ++ x ∷ ys) (a : (i.exts x).off_f < start)
      (b : start < (i.exts x).off_f + (i.exts x).length) where
    abbrev head_of : Extent
    head_of = record (i.exts x) { length = start - (i.exts x).off_f }

    -- What is around `x`, and that the pointers are distinct.
    record Around : Type 0 where
      front : Within 0 (i.exts x).off_f (map i.exts xs)
      back : Within ((i.exts x).off_f + (i.exts x).length) last_offset (map i.exts ys)
      top : (i.exts x).off_f + (i.exts x).length ≤ last_offset
      whole : map i.exts k.zs ≡ map i.exts xs ++ i.exts x ∷ map i.exts ys
      apart : IsDistinct (xs ++ (alts ++ x ∷ ys))
      below : Below i.next_ext (xs ++ (alts ++ x ∷ ys))
      head_len : sub64 start (i.exts x).off_f ≡ start - (i.exts x).off_f

    around : Around
    around =
        let q = around_one i.exts start k.zs k.sorted xs x ys e in
        let top = Within-le _ last_offset (map i.exts ys) q.2 in
        record {
          front = q.0;
          back = q.2;
          top = top;
          whole = ap (map i.exts) e ∙ map-append i.exts xs (x ∷ ys);
          apart =
              IsDistinct-swap xs (x ∷ ys) alts
                (subst IsDistinct (ap (λ us. us ++ alts) e ∙ append_assoc xs (x ∷ ys) alts) u);
          below = Below-swap i.next_ext xs (x ∷ ys) alts (subst (Below i.next_ext) e k.below) v;
          head_len = sub64_lem start (i.exts x).off_f (omega arith) (omega arith);
        }

    -- Before `start`, the head of `x` keeps what `x` keeps.
    spot-head :
        (es es' : List Extent) (p : ℕ)
        → p < start
        → (i.exts x).off_f ≤ p
        → spot (head_of ∷ es) p ≡ spot (i.exts x ∷ es') p
    spot-head es es' p l m =
        spot-hit head_of es p m (omega arith) ∙ sym (spot-hit (i.exts x) es' p m (omega arith))

    said : (p : ℕ) → spot (map i.exts xs ++ i.exts x ∷ map i.exts ys) p ≡ old p
    said p = ap (λ es. spot es p) (sym around.whole) ∙ k.says p

    -- `x` reaches no further than `stop`: it is cut short.
    cut_short :
        (i.exts x).off_f + (i.exts x).length ≤ stop
        → Placing stop goal (record {
          inode = set_ext x (record (i.exts x) { length = sub64 start (i.exts x).off_f }) i;
          alts = alts;
          tail = tail;
          tor = some x;
          dh = next_of x i.chain;
        })
    cut_short h =
        let r = around in
        let X = map i.exts xs in
        let Y = map i.exts ys in
        let c : Extent = record (i.exts x) { length = sub64 start (i.exts x).off_f } in
        let c' : c ≡ head_of = ap (λ m. record (i.exts x) { length = m }) r.head_len in
        let j = set_ext x c i in
        let (d₁, d₂) = IsDistinct-middle xs x ys (subst IsDistinct e k.distinct) in
        let d₃ =
          (IsDistinct-middle (xs ++ alts) x ys
            (subst IsDistinct (sym (append_assoc xs alts (x ∷ ys))) r.apart)).0 in
        let d₄ = (not-has-append x xs alts d₃).1 in
        let x₁ : map j.exts (xs ++ x ∷ []) ≡ X ++ head_of ∷ [] =
          map-append j.exts xs (x ∷ [])
          ∙ ap₂ (λ us vs. us ++ vs) (map-update_absent i.exts x c xs d₁)
              (let y : update i.exts x c x ≡ c = ground arith in ap (λ z. z ∷ []) (y ∙ c')) in
        let x₂ : map j.exts alts ≡ map i.exts alts = map-update_absent i.exts x c alts d₄ in
        let x₃ : map j.exts ys ≡ Y = map-update_absent i.exts x c ys d₂ in
        let f : xs ++ x ∷ ys ≡ (xs ++ x ∷ []) ++ ys = sym (append_assoc xs (x ∷ []) ys) in
        let front : Within 0 start (map j.exts (xs ++ x ∷ [])) = subst (Within 0 start) (sym x₁) (
          Within-append 0 (i.exts x).off_f start X (head_of ∷ []) r.front
            (omega arith, omega arith, omega arith)) in
        let behind : Within start last_offset (map j.exts ys) =
          subst (Within start last_offset) (sym x₃)
            (Within-wider _ start last_offset last_offset Y (omega arith) (omega arith) r.back) in
        placing stop start goal _ (xs ++ x ∷ []) ys start
          (let m = subst (λ us. IsLinked us i) (e ∙ f) k.linked in
            record { chain = m.chain; order = m.order; avl = m.avl })
          (sym (get_last?-snoc xs x))
          (ap (next_of x) (k.linked.chain ∙ e) ∙ next_of-middle x ys xs d₁)
          (IsDistinct-swap (xs ++ x ∷ []) ys alts (
            subst IsDistinct (ap (λ us. us ++ alts) (e ∙ f) ∙ append_assoc (xs ++ x ∷ []) ys alts)
              u))
          (Below-swap i.next_ext (xs ++ x ∷ []) ys alts (subst (Below i.next_ext) (e ∙ f) k.below)
            v)
          (let l = length-append (xs ++ x ∷ []) ys in
            let l' = length-append xs (x ∷ []) in omega arith)
          front (subst (Within start stop) (sym x₂) n) behind
          (λ p l.
            ap (λ es. spot es p) x₁
            ∙ (elim (dec_lt p (i.exts x).off_f) [
              | yes m ↦
                  spot-first X (head_of ∷ []) p (
                    spot-below (i.exts x).off_f start (head_of ∷ []) p
                      (omega arith, omega arith, omega arith) m)
                  ∙ sym (
                      spot-first X (i.exts x ∷ Y) p (
                        spot-below (i.exts x).off_f last_offset (i.exts x ∷ Y) p
                          (omega arith, omega arith, r.back) m))
              | no m ↦
                  spot-same_front X (head_of ∷ []) (i.exts x ∷ Y) p
                    (spot-head [] Y p l (omega arith))
            ]
                ∙ (said p ∙ sym (put-outside start stop (spot (map i.exts alts)) old p (inl l)))))
          (λ p l m.
            ap (λ es. spot es p) x₂
            ∙ sym (put-inside start stop (spot (map i.exts alts)) old p l m))
          (λ p l.
            ap (λ es. spot es p) x₃
            ∙ (sym (spot-behind (i.exts x) Y p (omega arith))
                ∙ (sym (spot-second 0 (i.exts x).off_f X (i.exts x ∷ Y) p r.front (omega arith))
                    ∙ (said p
                        ∙ sym (put-outside start stop (spot (map i.exts alts)) old p (inr l))))))

    -- `x` reaches over `stop`: its head goes to the new extents.
    cut_over :
        (j : Inode) (alts' : List ℕ)
        → IsLinked (xs ++ x ∷ ys) j
        → map j.exts xs ≡ map i.exts xs
        → map j.exts (x ∷ ys) ≡ map i.exts (x ∷ ys)
        → IsDistinct (xs ++ (alts' ++ x ∷ ys))
        → Below j.next_ext (xs ++ (alts' ++ x ∷ ys))
        → Within (i.exts x).off_f stop (map j.exts alts')
        → ((p : ℕ) → spot (map j.exts alts') p ≡ spot (head_of ∷ map i.exts alts) p)
        → stop < (i.exts x).off_f + (i.exts x).length
        → Placing stop goal
            (record { inode = j; alts = alts'; tail = tail; tor = prev_of x i.chain; dh = some x })
    cut_over j alts' m x₁ x₂ d₁ d₂ w c h =
        let r = around in
        let X = map i.exts xs in
        let Z = map i.exts (x ∷ ys) in
        let f = IsDistinct-middle xs x ys (subst IsDistinct e k.distinct) in
        let z : Within (i.exts x).off_f last_offset Z = (omega arith, omega arith, r.back) in
        placing stop (i.exts x).off_f goal _ xs (x ∷ ys) (i.exts x).off_f m
          (ap (prev_of x) (k.linked.chain ∙ e) ∙ prev_of-middle x ys xs f.0) refl d₁ d₂
          (let l = length-append xs (x ∷ ys) in omega arith)
          (subst (Within 0 (i.exts x).off_f) (sym x₁) r.front) w
          (subst (Within (i.exts x).off_f last_offset) (sym x₂) z)
          (λ p l.
            ap (λ es. spot es p) x₁
            ∙ (sym (spot-first X Z p (spot-below (i.exts x).off_f last_offset Z p z l))
                ∙ (said p
                    ∙ sym (
                        put-outside start stop (spot (map i.exts alts)) old p
                          (inl (omega arith))))))
          (λ p l l'. c p ∙ (elim (dec_lt p start) [
            | yes g ↦
                spot-head (map i.exts alts) (map i.exts ys) p g l
                ∙ (sym (spot-second 0 (i.exts x).off_f X Z p r.front l)
                    ∙ (said p
                        ∙ sym (put-outside start stop (spot (map i.exts alts)) old p (inl g))))
            | no g ↦
                spot-behind head_of (map i.exts alts) p (omega arith)
                ∙ sym (put-inside start stop (spot (map i.exts alts)) old p (omega arith) l')
          ]))
          (λ p l.
            ap (λ es. spot es p) x₂
            ∙ (sym (spot-second 0 (i.exts x).off_f X Z p r.front (omega arith))
                ∙ (said p ∙ sym (put-outside start stop (spot (map i.exts alts)) old p (inr l)))))

    -- The head as a new extent of its own.
    cut_split :
        stop < (i.exts x).off_f + (i.exts x).length
        → let c =
            create_extent
              (i.exts x).dobj
              (i.exts x).off_f
              (i.exts x).off_do
              (sub64 start (i.exts x).off_f)
              i in
          Placing stop goal (record {
            inode = c.0;
            alts = i.next_ext ∷ alts;
            tail = tail;
            tor = prev_of x i.chain;
            dh = some x;
          })
    unfolding create_extent
    cut_split h =
        let r = around in
        let y = i.next_ext in
        let c : Extent = record (i.exts x) { length = sub64 start (i.exts x).off_f } in
        let c' : c ≡ head_of = ap (λ m. record (i.exts x) { length = m }) r.head_len in
        let (g₁, g₂) = All-front y xs (alts ++ x ∷ ys) r.below in
        let (g₃, g₄) = All-front y alts (x ∷ ys) g₂ in
        let here : update i.exts y c y ≡ c = ground arith in
        let news : map (update i.exts y c) (y ∷ alts) ≡ head_of ∷ map i.exts alts =
          ap₂ (λ a as'. a ∷ as') (here ∙ c')
            (map-update_absent i.exts y c alts (fresh y alts g₃)) in
        cut_over _ (y ∷ alts)
          (let m = subst (λ us. IsLinked us i) e k.linked in
            record { chain = m.chain; order = m.order; avl = m.avl })
          (map-update_absent i.exts y c xs (fresh y xs g₁))
          (map-update_absent i.exts y c (x ∷ ys) (fresh y (x ∷ ys) g₄))
          (IsDistinct-insert y xs (alts ++ x ∷ ys) (fresh y (xs ++ (alts ++ x ∷ ys)) r.below)
            r.apart)
          (All-append (λ z. z < y + 1) xs (y ∷ alts ++ x ∷ ys) (Below-suc y xs g₁)
            (omega arith, Below-suc y (alts ++ x ∷ ys) g₂))
          (subst (Within (i.exts x).off_f stop) (sym news) (
            omega arith,
            omega arith,
            Within-wider start _ stop stop (map i.exts alts) (omega arith) (omega arith) n,
          ))
          (λ p. ap (λ es. spot es p) news) h

    -- The head merged into the first new extent.
    cut_joined :
        (g : ℕ) (rest : List ℕ)
        → alts ≡ g ∷ rest
        → (i.exts x).dobj == (i.exts g).dobj
            && add64 (i.exts x).off_do (sub64 start (i.exts x).off_f) == (i.exts g).off_do
            && start == (i.exts g).off_f
          ≡ true
        → stop < (i.exts x).off_f + (i.exts x).length
        → Placing stop goal (record {
          inode =
              set_ext g
                (record (i.exts g) {
                  off_f = (i.exts x).off_f;
                  off_do = (i.exts x).off_do;
                  length = add64 (i.exts g).length (sub64 start (i.exts x).off_f);
                })
                i;
          alts = alts;
          tail = tail;
          tor = prev_of x i.chain;
          dh = some x;
        })
    cut_joined g rest q test h =
        let r = around in
        let o_g = i.exts g in
        let R = map i.exts rest in
        let n' : Within start stop (o_g ∷ R) =
          subst (λ us. Within start stop (map i.exts us)) q n in
        let top = Within-le _ stop R n'.2 in
        let c : Extent = record o_g {
          off_f = (i.exts x).off_f;
          off_do = (i.exts x).off_do;
          length = add64 o_g.length (sub64 start (i.exts x).off_f);
        } in
        let e₁ : (i.exts x).dobj ≡ o_g.dobj = ground arith in
        let e₂ : add64 (i.exts x).off_do (sub64 start (i.exts x).off_f) ≡ o_g.off_do =
          ground arith in
        let e₃ : start ≡ o_g.off_f = ground arith in
        let o : Joins head_of o_g =
          (e₁, ap (λ m. add64 (i.exts x).off_do m) (sym r.head_len) ∙ e₂, omega arith) in
        let len : add64 o_g.length (sub64 start (i.exts x).off_f) ≡ head_of.length + o_g.length =
          ap (λ m. add64 o_g.length m) r.head_len
          ∙ (add64_lem o_g.length (start - (i.exts x).off_f) (omega arith) ∙ (omega arith)) in
        let c' : c ≡ record head_of { length = head_of.length + o_g.length } =
          ap₂
            (λ m l. record {
              dobj = m;
              off_f = (i.exts x).off_f;
              off_do = (i.exts x).off_do;
              length = l;
            })
            (sym e₁) len in
        let d : IsDistinct (xs ++ (g ∷ rest ++ x ∷ ys)) =
          subst (λ us. IsDistinct (xs ++ (us ++ x ∷ ys))) q r.apart in
        let (d₁, d₂) = IsDistinct-middle xs g (rest ++ x ∷ ys) d in
        let (d₃, d₄) = not-has-append g rest (x ∷ ys) d₂ in
        let here : update i.exts g c g ≡ c = ground arith in
        let news : map (update i.exts g c) alts ≡ c ∷ R =
          ap (map (update i.exts g c)) q
          ∙ ap₂ (λ u us. u ∷ us) here (map-update_absent i.exts g c rest d₃) in
        cut_over _ alts
          (let m = subst (λ us. IsLinked us i) e k.linked in
            record { chain = m.chain; order = m.order; avl = m.avl })
          (map-update_absent i.exts g c xs d₁) (map-update_absent i.exts g c (x ∷ ys) d₄) r.apart
          r.below
          (subst (Within (i.exts x).off_f stop) (sym (news ∙ ap (λ m. m ∷ R) c')) (
            omega arith,
            omega arith,
            Within-wider (o_g.off_f + o_g.length) _ stop stop R (omega arith) (omega arith) n'.2,
          ))
          (λ p.
            ap (λ es. spot es p) news
            ∙ (spot-joined head_of o_g c R p o c'
                ∙ ap (λ us. spot (head_of ∷ map i.exts us) p) (sym q)))
          h

pub cut_inside-Placing :
    (start stop : ℕ) (alts : List ℕ) (tail : Option ℕ) (i : Inode) (old : ℕ → Option Spot)
    (k : Holds old i) (u : IsDistinct (k.zs ++ alts)) (v : Below i.next_ext alts)
    (n : Within start stop (map i.exts alts)) (s : start ≤ stop) (t : stop ≤ last_offset) (x : ℕ)
    (xs ys : List ℕ)
    → k.zs ≡ xs ++ x ∷ ys
    → (i.exts x).off_f < start
    → start < (i.exts x).off_f + (i.exts x).length
    → Placing stop
        (put start stop (spot (map i.exts alts)) old)
        (cut_inside start stop x alts tail i)
unfolding cut_inside create_extent
cut_inside-Placing start stop [] tail i old k u v n s t x xs ys e a b =
    let r = around start stop [] tail i old k u v n s t x xs ys e a b in
    let m : end_of (i.exts x) ≡ (i.exts x).off_f + (i.exts x).length =
      unfold end_of in
      add64_lem (i.exts x).off_f (i.exts x).length (let q = r.top in omega arith) in
    if-elim (Placing stop (put start stop (spot []) old)) (ltb stop (end_of (i.exts x)))
      (λ l. cut_split start stop [] tail i old k u v n s t x xs ys e a b (ground arith))
      (λ l. cut_short start stop [] tail i old k u v n s t x xs ys e a b (ground arith))
cut_inside-Placing start stop (g ∷ rest) tail i old k u v n s t x xs ys e a b =
    let r = around start stop (g ∷ rest) tail i old k u v n s t x xs ys e a b in
    let m : end_of (i.exts x) ≡ (i.exts x).off_f + (i.exts x).length =
      unfold end_of in
      add64_lem (i.exts x).off_f (i.exts x).length (let q = r.top in omega arith) in
    let P = Placing stop (put start stop (spot (map i.exts (g ∷ rest))) old) in
    if-elim P (ltb stop (end_of (i.exts x)))
      (λ l.
        let l' : stop < (i.exts x).off_f + (i.exts x).length = ground arith in
        if-elim P
          ((i.exts x).dobj == (i.exts g).dobj
            && add64 (i.exts x).off_do (sub64 start (i.exts x).off_f) == (i.exts g).off_do
            && start == (i.exts g).off_f)
          (λ q.
            cut_joined start stop (g ∷ rest) tail i old k u v n s t x xs ys e a b g rest refl q l')
          (λ q. cut_split start stop (g ∷ rest) tail i old k u v n s t x xs ys e a b l'))
      (λ l. cut_short start stop (g ∷ rest) tail i old k u v n s t x xs ys e a b (ground arith))
