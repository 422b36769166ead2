-- ===== src/Inode/Owned.antt =====
-- References and counters of an inode (incont.c: `create_extent`, and `release_extent` up to the
-- removal of the data object): which extents stand in `refs` of which data object.
use pado_fs.Base.{
  ℕ, ◌+◌, ◌≤◌, ◌<◌, ◌≡◌, refl, sym, ap, ◌∙◌, subst, Bool, true, false, not, ◌||◌, ◌&&◌, List, [],
  ◌∷◌, arith, length, ◌==◌, Bool-cases, inl, inr, if-elim,
}
use pado_fs.Base.Word.{u32_mod, inc32, dec32}
use pado_fs.Base.Distinct.{
  has, IsDistinct, erase, has-erase, erase-IsDistinct, length-erase, length-has,
}
use pado_fs.Inode.{Extent, Dobject, Inode, update, set_ext}
use pado_fs.Inode.Extents.{create_extent, is_empty, check_dobject, unref_extent}

-- The extents `live` are those that stand in `refs` of their data objects, each once, the counters
-- say how many there are, and their data objects stand in `do_map`, each once.
pub record IsOwned (live : List ℕ) (i : Inode) : Type 0 where
  pub distinct : IsDistinct live
  pub refs : (d x : ℕ) → has x (i.dobs d).refs ≡ (has x live && (i.exts x).dobj == d)
  pub apart : (d : ℕ) → IsDistinct (i.dobs d).refs
  pub count : (d : ℕ) → (i.dobs d).num_refs ≡ length (i.dobs d).refs
  pub total : i.num_exts ≡ length live
  pub few : length live < u32_mod
  pub listed : (x : ℕ) → has x live ≡ true → has (i.exts x).dobj i.do_map ≡ true
  pub once : IsDistinct i.do_map
  pub made : (d : ℕ) → has d i.do_map ≡ true → d < i.next_dob

-- No data object has more extents than there are.
pub few_refs :
    (live : List ℕ) (i : Inode) (d : ℕ) → IsOwned live i → length (i.dobs d).refs ≤ length live
few_refs live i d o =
    length-has (i.dobs d).refs live (o.apart d) (λ x h. let r = o.refs d x in ground arith)
      o.distinct

-- The same extents in another order, in an inode that differs elsewhere.
pub IsOwned-as :
    (live live' : List ℕ) (i j : Inode)
    → ((x : ℕ) → has x live' ≡ has x live)
    → IsDistinct live'
    → length live' ≡ length live
    → j.exts ≡ i.exts
    → j.dobs ≡ i.dobs
    → j.num_exts ≡ i.num_exts
    → j.next_dob ≡ i.next_dob
    → j.do_map ≡ i.do_map
    → IsOwned live i
    → IsOwned live' j
IsOwned-as live live' i j m u l e f g h r o = record {
  distinct = u;
  refs = λ d x.
      ap (λ t. has x (t d).refs) f
      ∙ (o.refs d x ∙ (let a = m x in let b = ap (λ t. (t x).dobj) e in ground arith));
  apart = λ d. subst (λ t. IsDistinct (t d).refs) (sym f) (o.apart d);
  count = λ d. ap (λ t. (t d).num_refs) f ∙ (o.count d ∙ sym (ap (λ t. length (t d).refs) f));
  total = g ∙ (o.total ∙ sym l);
  few = let a = o.few in omega arith;
  listed = λ x k.
      ap (λ t. has (t x).dobj j.do_map) e
      ∙ (ap (has (i.exts x).dobj) r ∙ o.listed x (sym (m x) ∙ k));
  once = subst IsDistinct (sym r) o.once;
  made = λ d k. let a = o.made d (sym (ap (has d) r) ∙ k) in omega arith;
}

-- A change of one extent's range.
pub set_ext-IsOwned :
    (live : List ℕ) (x : ℕ) (e : Extent) (i : Inode)
    → e.dobj ≡ (i.exts x).dobj
    → IsOwned live i
    → IsOwned live (set_ext x e i)
set_ext-IsOwned live x e i h o =
    let same : (y : ℕ) → (update i.exts x e y).dobj ≡ (i.exts y).dobj = λ y.
      if-elim (λ (z : Extent). z.dobj ≡ (i.exts y).dobj) (y == x)
        (λ k. let k' : y ≡ x = ground arith in h ∙ ap (λ z. (i.exts z).dobj) (sym k'))
        (λ _. refl) in
    record {
      distinct = o.distinct;
      refs = λ d y. o.refs d y ∙ (let a = same y in ground arith);
      apart = o.apart;
      count = o.count;
      total = o.total;
      few = o.few;
      listed = λ y k. ap (λ d. has d i.do_map) (same y) ∙ o.listed y k;
      once = o.once;
      made = o.made;
    }

inc32_lem : (n : ℕ) → n + 1 < u32_mod → inc32 n ≡ n + 1
unfolding inc32
inc32_lem n h = omega arith

dec32_lem : (n : ℕ) → n + 1 < u32_mod → dec32 (n + 1) ≡ n
unfolding dec32
dec32_lem n h = omega arith

pub create_extent-IsOwned :
    (live : List ℕ) (d off_f off_do len : ℕ) (i : Inode)
    → has i.next_ext live ≡ false
    → has d i.do_map ≡ true
    → length live + 1 < u32_mod
    → IsOwned live i
    → IsOwned (i.next_ext ∷ live) (create_extent d off_f off_do len i).0
unfolding create_extent
create_extent-IsOwned live d off_f off_do len i n b l o =
    let x = i.next_ext in
    let f = few_refs live i d o in
    let a = o.refs d x in
    record {
      distinct = (n, o.distinct);
      refs = λ c y.
          let r = o.refs c y in
          let s = o.refs d y in
          elim (Bool-cases (y == x)) [
            | inl e ↦
                let e' : y ≡ x = ground arith in
                let t : has y live ≡ false = ap (λ z. has z live) e' ∙ n in ground arith
            | inr e ↦ ground arith
          ];
      apart = λ c.
          if-elim (λ (z : Dobject). IsDistinct z.refs) (c == d)
            (λ _. (let z : has x (i.dobs d).refs ≡ false = ground arith in z, o.apart d))
            (λ _. o.apart c);
      count = λ c.
          if-elim (λ (z : Dobject). z.num_refs ≡ length z.refs) (c == d)
            (λ _.
              let m = o.count d in
              let z = inc32_lem (i.dobs d).num_refs (omega arith) in omega arith)
            (λ _. o.count c);
      total = let m = o.total in let z = inc32_lem i.num_exts (omega arith) in omega arith;
      few = omega arith;
      listed = λ y k.
          if-elim (λ (z : Extent). has z.dobj i.do_map ≡ true) (y == x) (λ _. b)
            (λ e. o.listed y (ground arith));
      once = o.once;
      made = o.made;
    }

-- Taking an extent out of `refs` trips no assertion.
pub unref_extent-IsOwned :
    (live : List ℕ) (x : ℕ) (i : Inode)
    → has x live ≡ true
    → IsOwned live i
    → IsOwned (erase x live) (unref_extent x i) × ((unref_extent x i).halted ≡ i.halted)
unfolding unref_extent check_dobject
unref_extent-IsOwned live x i h o =
    let d = (i.exts x).dobj in
    let r = (i.dobs d).refs in
    let m : has x r ≡ true = let a = o.refs d x in ground arith in
    let n = length-erase x r m in
    let n' = length-erase x live h in
    let f = few_refs live i d o in
    let g = o.few in
    let a : dec32 (i.dobs d).num_refs ≡ length (erase x r) =
      ap dec32 (o.count d ∙ sym n) ∙ dec32_lem (length (erase x r)) (omega arith) in
    let b : dec32 i.num_exts ≡ length (erase x live) =
      ap dec32 (o.total ∙ sym n') ∙ dec32_lem (length (erase x live)) (omega arith) in
    (
      record {
        distinct = erase-IsDistinct x live o.distinct;
        refs = λ c y.
            let p = has-erase y x live o.distinct in
            let q = has-erase y x r (o.apart d) in
            let s = o.refs c y in
            let s' = o.refs d y in
            elim (Bool-cases (y == x)) [
              | inl e ↦
                  let e' : y ≡ x = ground arith in
                  let t : (i.exts y).dobj ≡ d = ap (λ z. (i.exts z).dobj) e' in ground arith
              | inr e ↦ ground arith
            ];
        apart = λ c.
            if-elim (λ (z : Dobject). IsDistinct z.refs) (c == d)
              (λ _. erase-IsDistinct x r (o.apart d)) (λ _. o.apart c);
        count = λ c.
            if-elim (λ (z : Dobject). z.num_refs ≡ length z.refs) (c == d) (λ _. a)
              (λ _. o.count c);
        total = b;
        few = omega arith;
        listed = λ y k. let p = has-erase y x live o.distinct in o.listed y (ground arith);
        once = o.once;
        made = o.made;
      },
      passes (erase x r) (dec32 (i.dobs d).num_refs) i.halted a,
    )
  where
    passes :
        (r : List ℕ) (n : ℕ) (b : Bool)
        → n ≡ length r
        → (b || not ((not (is_empty r) || n == 0) && n == length r)) ≡ b
    passes [] n b e = ground arith
    passes (x ∷ r) n b e = ground arith
