-- ===== src/Read/Holes.antt =====
-- The loop of `pado_read` (incont.c) for a clone, `flag` set: the lengths and the places of the
-- segments.
use pado_fs.Base.{
  ℕ, zero, suc, ◌+◌, ◌-◌, ◌*◌, ◌≤◌, ◌<◌, ◌≡◌, refl, ap, ◌∙◌, subst₂, ltb→lt, not-ltb→le, lt→ltb,
  le→not-ltb, Bool, true, false, ◌&&◌, none, some, List, [], ◌∷◌, arith, ltb, min, max, length,
  Bool-cases, inl, inr,
}
use pado_fs.Base.Word.{add64, sub64, add64_lem, sub64_lem, u64_mod}
use pado_fs.Layout.{Segment}
use pado_fs.Layout.Sorted.{IsProper, IsSorted, end_of_lem}
use pado_fs.Read.{Source, read_loop, hole, mapped}
use pado_fs.Layout.Spots.{Where}
use pado_fs.Read.Fetch.{lookup, fetch, fetch-hit, fetch-miss, lookup-hit, lookup-skip}

-- Where a position is kept: as `lookup` says, and else in the base file, at the same position.
unfoldable pub where_is : Source → List ℕ → ℕ → Where
where_is c xs p = elim (lookup c.exts c.dobs xs p) [
  | none ↦ record { hid = 0; loid = c.bino; at = p }
  | some w ↦ w
]

-- The segments follow one another from the offset `k` to the offset `n`, none of them empty.
abbrev pub Tiles : (k n : ℕ) → List Segment → Type 0
Tiles k n [] = k ≡ n
Tiles k n (s ∷ ss) = (s.offset ≡ k) × (0 < s.length) × Tiles (k + s.length) n ss

mapped_at :
    (off_do base off_f p : ℕ)
    → base ≤ off_f
    → off_f ≤ p
    → p < u64_mod
    → add64 (add64 off_do (max (sub64 off_f base) 0)) (p - off_f) ≡ add64 off_do (p - base)
unfolding add64 sub64
mapped_at off_do base off_f p h k b = omega arith

is_hole : {flag t : Bool} → flag ≡ true → t ≡ true → (flag && t) ≡ true
is_hole f t = ground arith

pub no_hole : (flag : Bool) (a b : ℕ) → b ≤ a → (flag && ltb a b) ≡ false
no_hole flag a b h = ground arith

module _ (c : Source) where
  -- The segments cover the positions from `off_f` to `end`, and say what the layout says.
  pub record Covers (xs : List ℕ) (off_f offset : ℕ) (ss : List Segment) : Type 0 where
    pub tiles : Tiles offset (offset + (c.stop - off_f)) ss
    pub says :
        (p : ℕ) → off_f ≤ p → p < c.stop → fetch ss (offset + (p - off_f)) ≡ some (where_is c xs p)

  pub lookup-behind :
      (lo : ℕ) (xs : List ℕ) (p : ℕ)
      → IsSorted c.exts lo xs
      → p < lo
      → lookup c.exts c.dobs xs p ≡ none
  unfolding lookup
  lookup-behind lo [] p s h = refl
  lookup-behind lo (x ∷ xs) p s h =
      ground (arith, lookup-behind ((c.exts x).off_f + (c.exts x).length) xs p)

  Covers-stop : (xs : List ℕ) (off_f offset : ℕ) → c.stop ≤ off_f → Covers xs off_f offset []
  Covers-stop xs off_f offset h = record {
    tiles = omega arith;
    says = λ p a b. absurd (omega arith);
  }

  Covers-cons :
      (s : Segment) (xs xs' : List ℕ) (off_f next offset : ℕ) (ss : List Segment)
      → off_f < next
      → next ≤ c.stop
      → s.offset ≡ offset
      → s.length ≡ next - off_f
      → ((p : ℕ)
          → off_f ≤ p
          → p < next
          → ◌≡◌ {A = Where}
              (record { hid = s.hid; loid = s.loid; at = add64 s.off_do (p - off_f) })
              (where_is c xs p))
      → ((p : ℕ) → next ≤ p → p < c.stop → where_is c xs' p ≡ where_is c xs p)
      → Covers xs' next (offset + (next - off_f)) ss
      → Covers xs off_f offset (s ∷ ss)
  Covers-cons s xs xs' off_f next offset ss h k eo el near far v = record {
    tiles = (eo, omega arith, subst₂ (λ m n. Tiles m n ss) (omega arith) (omega arith) v.tiles);
    says = λ p lo hi. elim (Bool-cases (ltb p next)) [
      | inl e ↦
          let l = ltb→lt p next e in
          fetch-hit s ss (offset + (p - off_f)) (omega arith) (omega arith)
          ∙ (ap (λ k. some (record { hid = s.hid; loid = s.loid; at = add64 s.off_do k }))
                (omega arith)
              ∙ ap some (near p lo l))
      | inr e ↦
          let l = not-ltb→le p next e in
          fetch-miss s ss (offset + (p - off_f)) (omega arith)
          ∙ (ap (fetch ss) (omega arith) ∙ (v.says p l hi ∙ ap some (far p l hi)))
    ];
  }

  Covers-hole :
      (xs : List ℕ) (off_f next offset : ℕ) (ss : List Segment)
      → IsSorted c.exts next xs
      → off_f < next
      → next ≤ c.stop
      → c.stop < u64_mod
      → Covers xs next (offset + (next - off_f)) ss
      → Covers xs off_f offset (hole c off_f next offset ∷ ss)
  unfolding where_is
  Covers-hole xs off_f next offset ss s h k b =
      Covers-cons (hole c off_f next offset) xs xs off_f next offset ss h k refl
        (sub64_lem next off_f (omega arith) (omega arith))
        (λ p lo hi.
          rw (where_is, lookup-behind next xs p s hi)
            (ap (λ a. record { hid = 0; loid = c.bino; at = a })
              (add64_lem off_f (p - off_f) (omega arith) ∙ omega arith)))
        (λ p lo hi. refl)

  Covers-mapped :
      (x : ℕ) (xs : List ℕ) (off_f offset next : ℕ) (ss : List Segment)
      → IsProper (c.exts x)
      → (c.exts x).off_f ≤ off_f
      → off_f < c.stop
      → off_f < (c.exts x).off_f + (c.exts x).length
      → next ≡ min c.stop ((c.exts x).off_f + (c.exts x).length)
      → c.stop < u64_mod
      → Covers xs next (offset + (next - off_f)) ss
      → Covers (x ∷ xs) off_f offset (mapped c x off_f offset ∷ ss)
  unfolding where_is
  Covers-mapped x xs off_f offset next ss q a h k e b =
      let f = c.exts in
      Covers-cons (mapped c x off_f offset) (x ∷ xs) xs off_f next offset ss (omega arith)
        (omega arith) refl
        (rw (end_of_lem (f x) q) (
          sub64_lem (min c.stop ((f x).off_f + (f x).length)) off_f (omega arith) (omega arith)
          ∙ omega arith))
        (λ p lo hi.
          rw (where_is, lookup-hit f c.dobs x xs p (omega arith) (omega arith))
            (ap
              (λ a. record {
                hid = (c.dobs (f x).dobj).host_id;
                loid = (c.dobs (f x).dobj).loid;
                at = a;
              })
              (mapped_at (f x).off_do (f x).off_f off_f p a lo (omega arith))))
        (λ p lo hi. rw (where_is, lookup-skip f c.dobs x xs p (omega arith)))

  -- The rounds from `off_f` on, where the first extent of `xs` ends behind `off_f`.
  abbrev pub IsAhead : List ℕ → ℕ → Type 0
  IsAhead [] off_f = Unit
  IsAhead (x ∷ xs) off_f =
      (off_f < (c.exts x).off_f + (c.exts x).length)
      × IsProper (c.exts x)
      × IsSorted c.exts ((c.exts x).off_f + (c.exts x).length) xs

  IsAhead-sorted :
      (lo off_f : ℕ) (xs : List ℕ) → IsSorted c.exts lo xs → off_f ≤ lo → IsAhead xs off_f
  IsAhead-sorted lo off_f [] s h = tt
  IsAhead-sorted lo off_f (x ∷ xs) s h = (omega arith, s.1, s.2)

  -- At the end of the range the loop sends nothing.
  read_loop-stop :
      (fuel : ℕ) (xs : List ℕ) (off_f offset : ℕ)
      → c.stop ≤ off_f
      → read_loop c fuel xs off_f offset ≡ ([], false)
  unfolding read_loop
  read_loop-stop zero xs off_f offset h = refl
  read_loop-stop (suc fuel) [] off_f offset h = rw (le→not-ltb off_f c.stop h)
  read_loop-stop (suc fuel) (x ∷ xs) off_f offset h = rw (le→not-ltb off_f c.stop h)

  module _ (b : c.stop < u64_mod) (x : ℕ) (xs : List ℕ) (fuel off_f offset : ℕ) where
    -- A round that sends the extent `x`.
    mapped_round :
        IsAhead (x ∷ xs) off_f
        → offset ≤ off_f
        → (c.exts x).off_f ≤ off_f
        → off_f < c.stop
        → ((next offset' : ℕ)
            → offset' ≤ next
            → next ≤ c.stop
            → IsAhead xs next
            → Covers xs next offset' (read_loop c fuel xs next offset').0)
        → Covers (x ∷ xs) off_f offset (read_loop c (suc fuel) (x ∷ xs) off_f offset).0
    unfolding read_loop
    mapped_round r o a h ih =
        let e = c.exts x in
        let next = min c.stop (e.off_f + e.length) in
        let n = (mapped c x off_f offset).length in
        let en : n ≡ next - off_f =
          ap (λ z. sub64 (min c.stop z) off_f) (end_of_lem e r.1)
          ∙ sub64_lem next off_f (omega arith) (omega arith) in
        let e₁ : add64 off_f n ≡ next =
          ap (add64 off_f) en ∙ (add64_lem off_f (next - off_f) (omega arith) ∙ omega arith) in
        let e₂ : add64 offset n ≡ offset + (next - off_f) =
          ap (add64 offset) en ∙ add64_lem offset (next - off_f) (omega arith) in
        rw
          (
            lt→ltb off_f c.stop h,
            no_hole c.flag off_f (min c.stop e.off_f) (omega arith),
            lt→ltb e.off_f c.stop (omega arith),
            e₁,
            e₂,
          )
          (Covers-mapped x xs off_f offset next _ r.1 a h r.0 refl b (
            ih next (offset + (next - off_f)) (omega arith) (omega arith)
              (IsAhead-sorted ((c.exts x).off_f + (c.exts x).length) next xs r.2 (omega arith))))

  module _ (flagged : c.flag ≡ true) (b : c.stop < u64_mod) where
    -- A round that sends a hole up to `next`, and the rounds behind it.
    hole_step :
        (next off_f offset : ℕ)
        → offset ≤ off_f
        → off_f < next
        → next ≤ c.stop
        → (add64 off_f (hole c off_f next offset).length ≡ next)
          × (add64 offset (hole c off_f next offset).length ≡ offset + (next - off_f))
    hole_step next off_f offset o h k =
        let en = sub64_lem next off_f (omega arith) (omega arith) in
        (
          ap (add64 off_f) en ∙ (add64_lem off_f (next - off_f) (omega arith) ∙ omega arith),
          ap (add64 offset) en ∙ add64_lem offset (next - off_f) (omega arith),
        )

    pub read_loop-Covers :
        (fuel : ℕ) (xs : List ℕ) (off_f offset : ℕ)
        → 2 * length xs + 1 ≤ fuel
        → offset ≤ off_f
        → off_f ≤ c.stop
        → IsAhead xs off_f
        → Covers xs off_f offset (read_loop c fuel xs off_f offset).0
    unfolding read_loop
    read_loop-Covers zero xs off_f offset m o h r = absurd (omega arith)
    read_loop-Covers (suc fuel) [] off_f offset m o h r = elim (Bool-cases (ltb off_f c.stop)) [
      | inl e ↦
          let l = ltb→lt off_f c.stop e in
          let (e₁, e₂) = hole_step c.stop off_f offset o l (omega arith) in
          rw
            (
              is_hole flagged e,
              e,
              e₁,
              e₂,
              read_loop-stop fuel [] c.stop (offset + (c.stop - off_f)) (omega arith),
            )
            (Covers-hole [] off_f c.stop offset [] tt l (omega arith) b
              (Covers-stop [] c.stop _ (omega arith)))
      | inr e ↦ rw e (Covers-stop [] off_f offset (not-ltb→le off_f c.stop e))
    ]
    read_loop-Covers (suc zero) (x ∷ xs) off_f offset m o h r = absurd (omega arith)
    read_loop-Covers (suc (suc fuel)) (x ∷ xs) off_f offset m o h r =
        elim (Bool-cases (ltb off_f c.stop)) [
          | inr e ↦ rw e (Covers-stop (x ∷ xs) off_f offset (not-ltb→le off_f c.stop e))
          | inl e ↦
              let l = ltb→lt off_f c.stop e in
              elim (Bool-cases (ltb off_f (c.exts x).off_f)) [
                | inr k ↦
                    mapped_round b x xs (suc fuel) off_f offset r o
                      (not-ltb→le off_f (c.exts x).off_f k) l
                      (λ next offset' o' h'.
                        read_loop-Covers (suc fuel) xs next offset' (omega arith) o' h')
                | inl k ↦
                    let next = min c.stop (c.exts x).off_f in
                    let w = ltb→lt off_f (c.exts x).off_f k in
                    let (e₁, e₂) = hole_step next off_f offset o (omega arith) (omega arith) in
                    rw (is_hole flagged (lt→ltb off_f next (omega arith)), e, e₁, e₂)
                      (Covers-hole (x ∷ xs) off_f next offset _ (omega arith, r.1, r.2)
                        (omega arith) (omega arith) b
                        (elim (Bool-cases (ltb (c.exts x).off_f c.stop)) [
                          | inr z ↦
                              let z' = not-ltb→le (c.exts x).off_f c.stop z in
                              rw
                                (read_loop-stop (suc fuel) (x ∷ xs) next (offset + (next - off_f))
                                  (omega arith))
                                (Covers-stop (x ∷ xs) next _ (omega arith))
                          | inl z ↦
                              let z' = ltb→lt (c.exts x).off_f c.stop z in
                              mapped_round b x xs fuel next (offset + (next - off_f))
                                (omega arith, r.1, r.2) (omega arith) (omega arith) (omega arith)
                                (λ next' offset' o' h'.
                                  read_loop-Covers fuel xs next' offset' (omega arith) o' h')
                        ]))
              ]
        ]
