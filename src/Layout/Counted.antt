-- ===== src/Layout/Counted.antt =====
-- `pado_write`, `pado_truncate` and `pado_clone` of incont.c on references, counters and assertions.
use pado_fs.Base.{
  ℕ, ◌+◌, ◌≤◌, ◌<◌, ◌≡◌, refl, sym, ap, ◌∙◌, subst, true, false, ◌||◌, ◌&&◌, Option, none, some,
  List, [], ◌∷◌, ◌++◌, arith, length, length-append, append-nil, ltb, max, ◌==◌, if◌then◌else◌,
  Bool-cases, Option-cases, inl, inr, if-elim,
}
use pado_fs.Base.Word.{add64, u32_mod, add64_lem}
use pado_fs.Base.Distinct.{has, IsDistinct, IsDistinct-insert, has-append, has-middle}
use pado_fs.Codes.{add_link}
use pado_fs.Tree.{is_leaf}
use pado_fs.Inode.{Extent, Dobject, Inode, Env, update, assert}
use pado_fs.Inode.Extents.{
  create_extent, acquire_dobject, find_dobject, check_dobject, request, Acquire, existing, or_new,
  or_new_linked,
}
use pado_fs.Inode.Owned.{IsOwned, IsOwned-as, create_extent-IsOwned}
use pado_fs.Inode.Released.{IsAlike-IsOwned, request-IsAlike, unlisted-IsOwned}
use pado_fs.Layout.{replace, set_root, touch, pado_write, pado_truncate}
use pado_fs.Layout.Spots.{Within, Spot, last_offset}
use pado_fs.Layout.Content.{Below, Holds}
use pado_fs.Layout.Put.{fresh}
use pado_fs.Layout.Kept.{Holds-as, with_extent}
use pado_fs.Layout.Acquired.{added}
use pado_fs.Layout.Checked.{IsOwned-swap, Runs}
use pado_fs.Layout.Swept.{asserted-Runs}
use pado_fs.Layout.Running.{GoesOn, empty_chain, replace-Runs}

-- A change of other fields.
pub GoesOn-as :
    (i j k : Inode)
    → j.halted ≡ i.halted
    → k.chain ≡ j.chain
    → k.exts ≡ j.exts
    → k.dobs ≡ j.dobs
    → k.num_exts ≡ j.num_exts
    → k.next_dob ≡ j.next_dob
    → k.do_map ≡ j.do_map
    → k.halted ≡ j.halted
    → IsOwned j.chain j
    → GoesOn i k
GoesOn-as i j k g c e d n m r h o = (
  subst (λ us. IsOwned us k) (sym c)
      (IsOwned-as j.chain j.chain j k (λ x. refl) o.distinct refl e d n m r o),
  h ∙ g,
)

-- A layout in order, whose extents the data objects list, each once, with counters that say how
-- many there are, fewer than 2 ^ 32 - 2 in all, and a write of at least one byte into a data object
-- of the inode that ends at 2 ^ 64 - 1 at most: `pado_write` trips no assertion, and afterwards the
-- data objects list the extents of the new layout, each once, and the counters say how many there
-- are.
pub pado_write-Runs :
    (env : Env) (d off_f off_do len : ℕ) (i : Inode) (old : ℕ → Option Spot)
    → Holds old i
    → 0 < len
    → off_f + len ≤ last_offset
    → has d i.do_map ≡ true
    → IsOwned i.chain i
    → length i.chain + 2 < u32_mod
    → GoesOn i (pado_write env (some d) off_f off_do len i).0
unfolding pado_write create_extent
pado_write-Runs env d off_f off_do len i old k h t m o few =
    let x = i.next_ext in
    let e : Extent = record { dobj = d; off_f = off_f; off_do = off_do; length = len } in
    let c = create_extent d off_f off_do len i in
    let i₂ = record c.0 { size = max i.size (add64 off_f len) } in
    let here : update i.exts x e x ≡ e = ground arith in
    let (k₂, u) = with_extent d off_f off_do len (max i.size (add64 off_f len)) i old k in
    let n : has x i.chain ≡ false = ap (has x) k.linked.chain ∙ fresh x k.zs k.below in
    let p = create_extent-IsOwned i.chain d off_f off_do len i n m (omega arith) o in
    let q = IsOwned-swap [] (x ∷ []) i.chain c.0 p in
    let q' =
      IsOwned-as (i.chain ++ x ∷ []) (i.chain ++ x ∷ []) c.0 i₂ (λ y. refl) q.distinct refl refl
        refl refl refl refl q in
    let done =
      if is_leaf i.flayout
      then set_root x i₂
      else replace env (x ∷ []) (some x) off_f (add64 off_f len) i₂ in
    let w : Within off_f (off_f + len) (update i.exts x e x ∷ []) =
      subst (λ a. Within off_f (off_f + len) (a ∷ [])) (sym here) (omega arith, h, omega arith) in
    let (r, g) : GoesOn i done =
      if-elim (GoesOn i) (is_leaf i.flayout)
        (λ l.
          let z = empty_chain k l in
          let s = subst (λ us. IsOwned (us ++ x ∷ []) i₂) z q' in
          (
            IsOwned-as (x ∷ []) (x ∷ []) i₂ _ (λ y. refl) s.distinct refl refl refl refl refl refl
                s,
            refl,
          ))
        (λ l.
          subst (λ m. GoesOn i (replace env (x ∷ []) (some x) off_f m i₂))
            (sym (add64_lem off_f len (omega arith)))
            (replace-Runs env (x ∷ []) (some x) off_f (off_f + len) i₂ old k₂ u (omega arith, tt) w
              (omega arith) t q' (let f = length-append i.chain (x ∷ []) in omega arith))) in
    GoesOn-as i done (touch env done) g refl refl refl refl refl refl refl r

-- A layout in order of a file of at most 2 ^ 64 - 1 bytes, whose extents the data objects list,
-- each once, with counters that say how many there are, fewer than 2 ^ 32 - 1 in all:
-- `pado_truncate` trips no assertion, and afterwards the data objects list the extents of the new
-- layout, each once, and the counters say how many there are.
pub pado_truncate-Runs :
    (env : Env) (newsize : ℕ) (i : Inode) (old : ℕ → Option Spot)
    → Holds old i
    → i.size ≤ last_offset
    → IsOwned i.chain i
    → length i.chain + 1 < u32_mod
    → GoesOn i (pado_truncate env newsize i).0
unfolding pado_truncate
pado_truncate-Runs env newsize i old k t o few =
    let j = record i { size = newsize } in
    let k' = Holds-as old i j refl refl refl refl k in
    let cut = if ltb newsize i.size then replace env [] none newsize i.size j else j in
    let n = sym (append-nil i.chain) in
    let o' =
      IsOwned-as i.chain i.chain i j (λ y. refl) o.distinct refl refl refl refl refl refl o in
    let (r, g) : GoesOn i cut =
      if-elim (GoesOn i) (ltb newsize i.size)
        (λ l.
          replace-Runs env [] none newsize i.size j old k' (subst IsDistinct n o.distinct) tt
            (ground arith) (ground arith) t (subst (λ us. IsOwned us j) n o')
            (let f = ap length n in omega arith))
        (λ _. (o', refl)) in
    GoesOn-as i cut (touch env cut) g refl refl refl refl refl refl refl r

has-Below : (n : ℕ) (ds : List ℕ) → ((d : ℕ) → has d ds ≡ true → d < n) → Below n ds
has-Below n [] h = tt
has-Below n (d ∷ ds) h = (h d (ground arith), has-Below n ds (λ e k. h e (ground arith)))

pub table-Below : (live : List ℕ) (i : Inode) → IsOwned live i → Below i.next_dob i.do_map
table-Below live i o = has-Below i.next_dob i.do_map o.made

-- A data object that `acquire_dobject` adds has no extents.
added-IsOwned :
    (live : List ℕ) (hid loid : ℕ) (i : Inode) → IsOwned live i → IsOwned live (added hid loid i)
added-IsOwned live hid loid i o =
    let n = i.next_dob in
    let m : (d : ℕ) → has d (i.do_map ++ n ∷ []) ≡ (has d i.do_map || d == n) =
      λ d. let a = has-append d i.do_map (n ∷ []) in ground arith in
    let f : has n i.do_map ≡ false = elim (Bool-cases (has n i.do_map)) [
      | inl h ↦ let w = o.made n h in absurd (omega arith)
      | inr h ↦ h
    ] in
    record {
      distinct = o.distinct;
      refs = λ d x.
          let r = o.refs d x in
          elim (Bool-cases (d == n)) [
            | inl e ↦ elim (Bool-cases (has x live)) [
              | inl h ↦ let w = o.made (i.exts x).dobj (o.listed x h) in ground arith
              | inr h ↦ ground arith
            ]
            | inr e ↦ ground arith
          ];
      apart = λ d. if-elim (λ (z : Dobject). IsDistinct z.refs) (d == n) (λ _. tt) (λ _. o.apart d);
      count = λ d.
          if-elim (λ (z : Dobject). z.num_refs ≡ length z.refs) (d == n) (λ _. refl)
            (λ _. o.count d);
      total = o.total;
      few = o.few;
      listed = λ x h. let a = m (i.exts x).dobj in let b = o.listed x h in ground arith;
      once =
          IsDistinct-insert n i.do_map []
            (subst (λ ds. has n ds ≡ false) (sym (append-nil i.do_map)) f)
            (subst IsDistinct (sym (append-nil i.do_map)) o.once);
      made = λ d h.
          let a = m d in
          elim (Bool-cases (has d i.do_map)) [
            | inl b ↦ let w = o.made d b in omega arith
            | inr b ↦ ground arith
          ];
    }

-- What `acquire_dobject` leaves; the data object that it gives stands in the table.
abbrev pub Takes : List ℕ → Inode → Inode × Option ℕ → Type 0
Takes live i r = Runs live i r.0 × ((d : ℕ) → r.1 ≡ some d → has d r.0.do_map ≡ true)

found-Takes :
    (live : List ℕ) (d : ℕ) (i : Inode)
    → has d i.do_map ≡ true
    → IsOwned live i
    → Takes live i (assert (check_dobject (i.dobs d)) i, some d)
unfolding check_dobject
found-Takes live d i h o =
    let n = o.count d in
    (
      asserted-Runs live (check_dobject (i.dobs d)) i (ground arith) o,
      λ c e. let e' : d ≡ c = cc in subst (λ d. has d i.do_map ≡ true) e' h,
    )

find_dobject-has :
    (f : ℕ → Dobject) (hid loid : ℕ) (ds : List ℕ) (d : ℕ)
    → find_dobject f hid loid ds ≡ some d
    → has d ds ≡ true
unfolding find_dobject
find_dobject-has f hid loid [] d e = cc
find_dobject-has f hid loid (x ∷ xs) d e =
    elim (Bool-cases ((f x).host_id == hid && (f x).loid == loid)) [
      | inl t ↦ let e' : some x ≡ some d = rw t at e in let q : x ≡ d = cc in ground arith
      | inr t ↦ let h = find_dobject-has f hid loid xs d (rw t at e) in ground arith
    ]

-- `acquire_dobject` trips no assertion.
pub acquire_dobject-Takes :
    (env : Env) (hid loid : ℕ) (flag : Acquire) (live : List ℕ) (i : Inode)
    → IsOwned live i
    → Takes live i (acquire_dobject env hid loid flag i)
unfolding acquire_dobject
acquire_dobject-Takes env hid loid flag live i o =
    let n = i.next_dob in
    let a = added hid loid i in
    let w = added-IsOwned live hid loid i o in
    let here : (d : ℕ) → some n ≡ some d → has d a.do_map ≡ true = λ d f.
      let g : n ≡ d = cc in subst (λ d. has d a.do_map ≡ true) g (has-middle n i.do_map []) in
    elim (Option-cases (find_dobject i.dobs hid loid i.do_map)) [
      | inr (d, e) ↦
          rw (e, acquire_dobject)
            (found-Takes live d i (find_dobject-has i.dobs hid loid i.do_map d e) o)
      | inl e ↦ elim flag as (λ f. Takes live i (acquire_dobject env hid loid f i)) [
        | existing ↦ rw (e, acquire_dobject) ((o, refl), λ d f. cc)
        | or_new ↦ rw (e, acquire_dobject) ((w, refl), here)
        | or_new_linked ↦
            let q = add_link hid loid i.ino in
            let s = request-IsAlike env q a in
            let p = IsAlike-IsOwned live a _ s w in
            elim (Option-cases (request env q a).1) [
              | inl f ↦
                  let none_left : ((request env q a).0.dobs n).refs ≡ [] =
                    ap (λ t. (t n).refs) s.dobs ∙ (ground arith) in
                  rw (e, acquire_dobject, f)
                    ((unlisted-IsOwned live n _ none_left p, s.halted), λ d f. cc)
              | inr (r, f) ↦
                  rw (e, acquire_dobject, f) ((p, s.halted), λ d g. ap (has d) s.do_map ∙ here d g)
            ]
      ]
    ]
