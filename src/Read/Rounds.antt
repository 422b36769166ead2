-- ===== src/Read/Rounds.antt =====
-- The rounds of `pado_read` (incont.c): how many there are at most.
use pado_fs.Base.{
  ℕ, suc, zero, ◌+◌, ◌-◌, ◌*◌, ◌≤◌, ◌<◌, ◌≡◌, refl, ap, ◌∙◌, false, ◌&&◌, List, [], ◌∷◌, arith, ltb,
  min, length, Bool-cases, inl, inr,
}
use pado_fs.Base.Word.{add64, u64_mod, add64_lem, sub64_lem}
use pado_fs.Read.{Source, read_loop, hole, mapped}

-- A hole ends where it is meant to.
hole_end :
    (c : Source) (off_f stop offset : ℕ)
    → off_f < stop
    → stop < u64_mod
    → add64 off_f (hole c off_f stop offset).length ≡ stop
hole_end c off_f stop offset h k =
    ap (add64 off_f) (sub64_lem stop off_f (omega arith) (omega arith))
    ∙ (add64_lem off_f (stop - off_f) (omega arith) ∙ (omega arith))

-- Behind the end nothing is sent, in however many rounds.
read_loop-end :
    (c : Source) (n : ℕ) (cur : List ℕ) (off_f offset : ℕ)
    → c.stop ≤ off_f
    → read_loop c n cur off_f offset ≡ ([], false)
unfolding read_loop
read_loop-end c zero cur off_f offset h = refl
read_loop-end c (suc n) [] off_f offset h = ground arith
read_loop-end c (suc n) (x ∷ xs) off_f offset h = ground arith

-- The rounds for the list `xs` do not depend on their bound from `2 * length xs + 2` on.
abbrev IsSteady : Source → List ℕ → Type 0
IsSteady c xs =
    (m n off_f offset : ℕ)
    → 2 * length xs + 2 ≤ m
    → 2 * length xs + 2 ≤ n
    → read_loop c m xs off_f offset ≡ read_loop c n xs off_f offset

-- The round for an extent, where no hole is sent before it.
mapped_steady :
    (c : Source) (x : ℕ) (xs : List ℕ) (m n off_f offset : ℕ)
    → IsSteady c xs
    → (c.flag && ltb off_f (min c.stop (c.exts x).off_f)) ≡ false
    → 2 * length xs + 2 ≤ m
    → 2 * length xs + 2 ≤ n
    → read_loop c (suc m) (x ∷ xs) off_f offset ≡ read_loop c (suc n) (x ∷ xs) off_f offset
unfolding read_loop
mapped_steady c x xs m n off_f offset s e h k =
    let a = mapped c x off_f offset in
    rw (e, s m n (add64 off_f a.length) (add64 offset a.length) h k) refl

-- For a range that ends before 2 ^ 64 and a list of extents, any two bounds of the rounds of at
-- least twice the length of the list and two give the same segments and the same result.
pub read_loop-rounds :
    (c : Source) (cur : List ℕ) (m n off_f offset : ℕ)
    → c.stop < u64_mod
    → 2 * length cur + 2 ≤ m
    → 2 * length cur + 2 ≤ n
    → read_loop c m cur off_f offset ≡ read_loop c n cur off_f offset
unfolding read_loop
read_loop-rounds c [] (suc m) (suc n) off_f offset b h k = elim (Bool-cases (ltb off_f c.stop)) [
  | inl e ↦
      let l = hole_end c off_f c.stop offset (ground arith) b in
      let o = add64 offset (hole c off_f c.stop offset).length in
      rw
        (
          e,
          l,
          read_loop-end c m [] c.stop o (omega arith),
          read_loop-end c n [] c.stop o (omega arith),
        )
        refl
  | inr e ↦ rw e refl
]
read_loop-rounds c (x ∷ xs) (suc (suc m)) (suc (suc n)) off_f offset b h k =
    let s : IsSteady c xs = λ m n o f. read_loop-rounds c xs m n o f b in
    elim (Bool-cases (c.flag && ltb off_f (min c.stop (c.exts x).off_f))) [
      | inl e ↦
          let p = min c.stop (c.exts x).off_f in
          let l = hole_end c off_f p offset (ground arith) (ground arith) in
          let o = add64 offset (hole c off_f p offset).length in
          let z : (c.flag && ltb p p) ≡ false = ground arith in
          rw (e, l, mapped_steady c x xs m n p o s z (omega arith) (omega arith)) refl
      | inr e ↦ mapped_steady c x xs (suc m) (suc n) off_f offset s e (omega arith) (omega arith)
    ]
read_loop-rounds c cur m n off_f offset b h k = absurd (omega arith)
