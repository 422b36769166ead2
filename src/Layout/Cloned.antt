-- ===== src/Layout/Cloned.antt =====
-- The loop of `pado_clone` (incont.c): the extents it makes of the segments that a peer sends.
use pado_fs.Base.{
  ℕ, ◌+◌, ◌-◌, ◌≤◌, ◌<◌, ◌≡◌, refl, sym, ap, ap₂, ◌∙◌, subst, true, false, ◌&&◌, Option, none, some,
  List, [], ◌∷◌, map, arith, All, All-imp, leb, ltb, Bool-cases, inl, inr, if◌then◌else◌, min,
}
use pado_fs.Base.Word.{add64, sub64, add64_lem, sub64_lem}
use pado_fs.Base.Distinct.{IsDistinct, has}
use pado_fs.Inode.{Extent, Inode, Env, update}
use pado_fs.Inode.Extents.{create_extent, acquire_dobject, or_new_linked}
use pado_fs.Layout.{is_end, Segment, clone_extents}
use pado_fs.Layout.Spots.{Within, Where, spot, inside_of, last_offset}
use pado_fs.Layout.Content.{Below}
use pado_fs.Layout.Names.{create_extent-IsNamed}
use pado_fs.Layout.Acquired.{IsUp, Linked, acquire_dobject-Linked}
use pado_fs.Layout.Places.{HasNames, HasNames-trans, IsNamed-HasNames, IsMade, place}

-- The segments follow one another from `lo` on, none empty, none of host 0 and object 0, each
-- beginning before `stop`; the part of a segment behind `stop` is cut off.
abbrev pub AreInOrder : (start lo stop : ℕ) → List Segment → Type 0
AreInOrder start lo stop [] = lo ≤ stop
AreInOrder start lo stop (s ∷ ss) =
    (lo ≤ start + s.offset)
    × (0 < s.length)
    × (start + s.offset < stop)
    × (start + s.offset + s.length ≤ last_offset)
    × (is_end s.hid s.loid ≡ false)
    × AreInOrder start (min stop (start + s.offset + s.length)) stop ss

-- Where the segments say that a position is kept.
unfoldable pub sent_place : (start : ℕ) → List Segment → ℕ → Option Where
sent_place start [] p = none
sent_place start (s ∷ ss) p =
    if leb (start + s.offset) p && ltb p (start + s.offset + s.length)
    then some (record { hid = s.hid; loid = s.loid; at = add64 s.off_do (p - (start + s.offset)) })
    else sent_place start ss p

-- The extents that the loop makes.
pub record Cloned (start lo stop : ℕ) (ss : List Segment) (i : Inode) (r : Inode × List ℕ)
    : Type 0 where
  pub chain : r.0.chain ≡ i.chain
  pub flayout : r.0.flayout ≡ i.flayout
  pub kept : (x : ℕ) → x < i.next_ext → r.0.exts x ≡ i.exts x
  pub next_ext : i.next_ext ≤ r.0.next_ext
  pub later : All (λ x. i.next_ext ≤ x) r.1
  pub below : Below r.0.next_ext r.1
  pub distinct : IsDistinct r.1
  pub within : Within lo stop (map r.0.exts r.1)
  pub names : HasNames i r.0
  pub made : (p : ℕ) → IsMade r.0.next_dob (spot (map r.0.exts r.1) p)
  pub says : (p : ℕ) → p < stop → place r.0 (spot (map r.0.exts r.1) p) ≡ sent_place start ss p

not-has_earlier : (x : ℕ) (ys : List ℕ) → All (λ y. x + 1 ≤ y) ys → has x ys ≡ false
not-has_earlier x [] a = refl
not-has_earlier x (y ∷ ys) a = let b = not-has_earlier x ys a.1 in let c = a.0 in ground arith

module _ (start lo stop : ℕ) (s : Segment) (ss : List Segment) (i : Inode) (q₁ : Inode × Option ℕ)
    (l : Linked s.hid s.loid i q₁) (r : Inode × List ℕ) (len : ℕ) where
  abbrev made_one : Inode
  made_one = (create_extent l.dobj (start + s.offset) s.off_do len q₁.0).0

  -- One more extent in front of those that the rest of the segments gives.
  one_more :
      lo ≤ start + s.offset
      → 0 < len
      → start + s.offset + len ≡ min stop (start + s.offset + s.length)
      → Cloned start (start + s.offset + len) stop ss made_one r
      → Cloned start lo stop (s ∷ ss) i (r.0, q₁.0.next_ext ∷ r.1)
  unfolding create_extent spot sent_place
  one_more h k q c =
      let x = q₁.0.next_ext in
      let e : Extent = record {
        dobj = l.dobj;
        off_f = start + s.offset;
        off_do = s.off_do;
        length = len;
      } in
      let here : r.0.exts x ≡ e =
        let f : update q₁.0.exts x e x ≡ e = ground arith in c.kept x (omega arith) ∙ f in
      let n =
        IsNamed-HasNames q₁.0 made_one
          (create_extent-IsNamed l.dobj (start + s.offset) s.off_do len q₁.0) in
      let m : l.dobj < q₁.0.next_dob = l.made in
      let m' = c.names.next_dob in
      let old = l.next_ext in
      let next = c.next_ext in
      let z = map r.0.exts r.1 in
      record {
        chain = c.chain ∙ l.chain;
        flayout = c.flayout ∙ l.flayout;
        kept = λ y b.
            let f : update q₁.0.exts x e y ≡ q₁.0.exts y = ground arith in
            c.kept y (omega arith) ∙ (f ∙ ap (λ f. f y) l.exts);
        next_ext = omega arith;
        later = (omega arith, All-imp (λ y b. omega arith) r.1 c.later);
        below = (omega arith, c.below);
        distinct = (not-has_earlier x r.1 c.later, c.distinct);
        within = subst (λ a. Within lo stop (a ∷ z)) (sym here) (h, k, c.within);
        names = HasNames-trans i q₁.0 r.0 l.names (HasNames-trans q₁.0 made_one r.0 n c.names);
        made = λ p.
            subst (λ a. IsMade r.0.next_dob (spot (a ∷ z) p)) (sym here)
              (elim (Bool-cases (inside_of e p)) [
                | inl b ↦ rw b (omega arith)
                | inr b ↦ rw b (c.made p)
              ]);
        says = λ p b.
            ap (λ a. place r.0 (spot (a ∷ z) p)) here ∙ elim (Bool-cases (inside_of e p)) [
              | inl f ↦
                  let t : (leb (start + s.offset) p && ltb p (start + s.offset + s.length)) ≡ true =
                    ground arith in
                  rw (f, t)
                    (ap₂
                      (λ a b. some (record {
                        hid = a;
                        loid = b;
                        at = add64 s.off_do (p - (start + s.offset));
                      }))
                      (c.names.hosts l.dobj m ∙ (n.hosts l.dobj m ∙ l.host))
                      (c.names.loids l.dobj m ∙ (n.loids l.dobj m ∙ l.object)))
              | inr f ↦
                  let t : (leb (start + s.offset) p && ltb p (start + s.offset + s.length))
                      ≡ false =
                    ground arith in
                  rw (f, t) (c.says p b)
            ];
      }

-- The length that the loop gives an extent.
clone_length :
    (start stop : ℕ) (s : Segment)
    → start + s.offset < stop
    → start + s.offset + s.length ≤ last_offset
    → stop ≤ last_offset
    → (add64 start s.offset ≡ start + s.offset)
      × ((len : ℕ) × ((if ltb stop (add64 (start + s.offset) s.length)
              then sub64 stop (start + s.offset)
              else s.length)
            ≡ len)
          × (start + s.offset + len ≡ min stop (start + s.offset + s.length)))
clone_length start stop s h k t =
    let a = add64_lem start s.offset (omega arith) in
    let b = add64_lem (start + s.offset) s.length (omega arith) in
    let c = sub64_lem stop (start + s.offset) (omega arith) (omega arith) in
    (
      a,
      elim (Bool-cases (ltb stop (start + s.offset + s.length))) [
        | inl e ↦ (stop - (start + s.offset), rw (b, e) c, ground arith)
        | inr e ↦ (s.length, rw (b, e) refl, ground arith)
      ],
    )

pub clone_extents-Cloned :
    (env : Env) (start lo stop : ℕ) (ss : List Segment) (i : Inode)
    → IsUp env
    → stop ≤ last_offset
    → Below i.next_dob i.do_map
    → AreInOrder start lo stop ss
    → Cloned start lo stop ss i (clone_extents env start stop ss i)
unfolding clone_extents spot sent_place create_extent
clone_extents-Cloned env start lo stop [] i u t b o = record {
  chain = refl;
  flayout = refl;
  kept = λ x l. refl;
  next_ext = omega arith;
  later = tt;
  below = tt;
  distinct = tt;
  within = o;
  names = record {
    next_dob = omega arith;
    table = λ h. h;
    hosts = λ d l. refl;
    loids = λ d l. refl;
  };
  made = λ p. tt;
  says = λ p l. refl;
}
clone_extents-Cloned env start lo stop (s ∷ ss) i u t b o =
    let (h, k, m, n, z, o') = o in
    let (a, w) = clone_length start stop s m n t in
    let (len, e, f) = w in
    let l = acquire_dobject-Linked env s.hid s.loid i u b in
    let r = acquire_dobject env s.hid s.loid or_new_linked i in
    let x = create_extent l.dobj (start + s.offset) s.off_do len r.0 in
    let v =
      IsNamed-HasNames r.0 x.0 (create_extent-IsNamed l.dobj (start + s.offset) s.off_do len r.0) in
    let g : ltb stop (start + s.offset) ≡ false = ground arith in
    let c =
      clone_extents-Cloned env start (start + s.offset + len) stop ss x.0 u t
        (v.table (l.names.table b)) (subst (λ z. AreInOrder start z stop ss) (sym f) o') in
    rw (z, l.given, a, g, e)
      (one_more start lo stop s ss i r l (clone_extents env start stop ss x.0) len h (ground arith)
        f c)
