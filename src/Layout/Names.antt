-- ===== src/Layout/Names.antt =====
-- The data objects of an inode under `replace` (incont.c): their number, their names, and the size
-- of the file.
use pado_fs.Base.{
  ℕ, zero, suc, ◌+◌, ◌<◌, ◌≡◌, refl, ◌∙◌, Bool, true, ◌&&◌, Option, none, some, List, [], ◌∷◌,
  arith, All, leb, ltb, Option-cases, inl, inr, length, ◌==◌, if-elim,
}
use pado_fs.Base.Word.{add64, sub64}
use pado_fs.Base.Distinct.{next_of}
use pado_fs.Tree.{is_leaf}
use pado_fs.Inode.{Extent, Inode, Env, assert, set_ext}
use pado_fs.Inode.Extents.{create_extent, remove_extent, replace_extent}
use pado_fs.Layout.{
  Work, Stop, nowhere, starts_at, inside, before_first, behind_last, descend, find_first,
  cut_inside, merge_first, clear_range, insert_rest, merge_last, replace_in, replace, set_root,
  end_of, continues,
}
use pado_fs.Layout.Same.{
  fields_of, SameBut, SameBut-by, remove_extent-SameBut, replace_extent-SameBut,
  insert_rest-SameBut, release_extent-IsSame,
}

pub record IsNamed (i j : Inode) : Type 0 where
  pub fields : fields_of j ≡ fields_of i
  pub next_dob : j.next_dob ≡ i.next_dob
  pub fewer : (n : ℕ) → All (λ d. d < n) i.do_map → All (λ d. d < n) j.do_map
  pub hosts : (d : ℕ) → (j.dobs d).host_id ≡ (i.dobs d).host_id
  pub loids : (d : ℕ) → (j.dobs d).loid ≡ (i.dobs d).loid

pub IsNamed-trans : (i j k : Inode) → IsNamed i j → IsNamed j k → IsNamed i k
IsNamed-trans i j k s t = record {
  fields = t.fields ∙ s.fields;
  next_dob = t.next_dob ∙ s.next_dob;
  fewer = λ n a. t.fewer n (s.fewer n a);
  hosts = λ d. t.hosts d ∙ s.hosts d;
  loids = λ d. t.loids d ∙ s.loids d;
}

pub IsNamed-refl : (i : Inode) → IsNamed i i
IsNamed-refl i = record {
  fields = refl;
  next_dob = refl;
  fewer = λ n a. a;
  hosts = λ d. refl;
  loids = λ d. refl;
}

by_but : (i j : Inode) → SameBut [] i j → IsNamed i j
by_but i j s = record {
  fields = s.fields;
  next_dob = s.next_dob;
  fewer = s.fewer;
  hosts = s.hosts;
  loids = s.loids;
}

set_ext-IsNamed : (x : ℕ) (e : Extent) (i : Inode) → IsNamed i (set_ext x e i)
set_ext-IsNamed x e i = record {
  fields = refl;
  next_dob = refl;
  fewer = λ n a. a;
  hosts = λ d. refl;
  loids = λ d. refl;
}

assert-IsNamed : (b : Bool) (i : Inode) → IsNamed i (assert b i)
assert-IsNamed b i = record {
  fields = refl;
  next_dob = refl;
  fewer = λ n a. a;
  hosts = λ d. refl;
  loids = λ d. refl;
}

pub create_extent-IsNamed :
    (d off_f off_do len : ℕ) (i : Inode) → IsNamed i (create_extent d off_f off_do len i).0
unfolding create_extent
create_extent-IsNamed d off_f off_do len i = record {
  fields = refl;
  next_dob = refl;
  fewer = λ n a. a;
  hosts = λ c. ground arith;
  loids = λ c. ground arith;
}

cut_inside-IsNamed :
    (start stop x : ℕ) (alts : List ℕ) (tail : Option ℕ) (i : Inode)
    → IsNamed i (cut_inside start stop x alts tail i).inode
unfolding cut_inside
cut_inside-IsNamed start stop x [] tail i =
    if-elim (λ (w : Work). IsNamed i w.inode) (ltb stop (end_of (i.exts x)))
      (λ _.
        create_extent-IsNamed (i.exts x).dobj (i.exts x).off_f (i.exts x).off_do
          (sub64 start (i.exts x).off_f) i)
      (λ _. set_ext-IsNamed x _ i)
cut_inside-IsNamed start stop x (a ∷ alts) tail i =
    if-elim (λ (w : Work). IsNamed i w.inode) (ltb stop (end_of (i.exts x)))
      (λ _.
        if-elim (λ (w : Work). IsNamed i w.inode)
          ((i.exts x).dobj == (i.exts a).dobj
            && add64 (i.exts x).off_do (sub64 start (i.exts x).off_f) == (i.exts a).off_do
            && start == (i.exts a).off_f)
          (λ _. set_ext-IsNamed a _ i)
          (λ _.
            create_extent-IsNamed (i.exts x).dobj (i.exts x).off_f (i.exts x).off_do
              (sub64 start (i.exts x).off_f) i))
      (λ _. set_ext-IsNamed x _ i)

find_first-IsNamed_at :
    (start stop : ℕ) (alts : List ℕ) (tail : Option ℕ) (i : Inode) (s : Stop)
    → descend i.exts start i.flayout ≡ s
    → IsNamed i (find_first start stop alts tail i).inode
unfolding find_first
find_first-IsNamed_at start stop alts tail i nowhere e = rw (e, find_first) (IsNamed-refl i)
find_first-IsNamed_at start stop alts tail i (starts_at x) e = rw (e, find_first) (IsNamed-refl i)
find_first-IsNamed_at start stop alts tail i (inside x) e =
    rw (e, find_first) (cut_inside-IsNamed start stop x alts tail i)
find_first-IsNamed_at start stop alts tail i (before_first x) e =
    rw (e, find_first) (IsNamed-refl i)
find_first-IsNamed_at start stop alts tail i (behind_last x) e = rw (e, find_first) (IsNamed-refl i)

merge_first-IsNamed :
    (env : Env) (tor : Option ℕ) (alts : List ℕ) (i : Inode) (tail dh : Option ℕ)
    → IsNamed i
        (merge_first env (record { inode = i; alts = alts; tail = tail; tor = tor; dh = dh })).inode
unfolding merge_first
merge_first-IsNamed env none alts i tail dh = IsNamed-refl i
merge_first-IsNamed env (some t) [] i tail dh = IsNamed-refl i
merge_first-IsNamed env (some t) (a ∷ rest) i tail dh =
    let j =
      set_ext t (record (i.exts t) { length = add64 (i.exts t).length (i.exts a).length }) i in
    if-elim (λ (w : Work). IsNamed i w.inode) (continues (i.exts t) (i.exts a))
      (λ _.
        IsNamed-trans i j _ (set_ext-IsNamed t _ i)
          (by_but j _ (SameBut-by j _ (release_extent-IsSame env a true j))))
      (λ _. IsNamed-refl i)

clear_range-IsNamed :
    (env : Env) (fuel start stop : ℕ) (alts : List ℕ) (i : Inode) (tail tor dh : Option ℕ)
    → IsNamed i
        (clear_range env fuel start stop
          (record { inode = i; alts = alts; tail = tail; tor = tor; dh = dh })).0.inode
unfolding clear_range
clear_range-IsNamed env zero start stop alts i tail tor dh = IsNamed-refl i
clear_range-IsNamed env (suc fuel) start stop alts i tail tor none = IsNamed-refl i
clear_range-IsNamed env (suc fuel) start stop [] i tail tor (some x) =
    let b = ltb start (end_of (i.exts x)) in
    let i' = assert b i in
    let P = λ (r : Work × Option ℕ). IsNamed i r.0.inode in
    if-elim P (leb stop (i.exts x).off_f) (λ _. assert-IsNamed b i)
      (λ _.
        if-elim P (ltb stop (end_of (i.exts x)))
          (λ _. IsNamed-trans i i' _ (assert-IsNamed b i) (set_ext-IsNamed x _ i'))
          (λ _. IsNamed-trans i i' _ (assert-IsNamed b i) (
            IsNamed-trans i' (remove_extent env x true i') _
              (by_but i' _ (remove_extent-SameBut env x true i'))
              (clear_range-IsNamed env fuel start stop [] (remove_extent env x true i') tail tor
                (next_of x i.chain)))))
clear_range-IsNamed env (suc fuel) start stop (a ∷ alts) i tail tor (some x) =
    let b = ltb start (end_of (i.exts x)) in
    let i' = assert b i in
    let P = λ (r : Work × Option ℕ). IsNamed i r.0.inode in
    if-elim P (leb stop (i.exts x).off_f) (λ _. assert-IsNamed b i)
      (λ _.
        if-elim P (ltb stop (end_of (i.exts x)))
          (λ _. IsNamed-trans i i' _ (assert-IsNamed b i) (set_ext-IsNamed x _ i'))
          (λ _. IsNamed-trans i i' _ (assert-IsNamed b i) (
            IsNamed-trans i' (replace_extent env x a i') _
              (by_but i' _ (replace_extent-SameBut env x a i'))
              (clear_range-IsNamed env fuel start stop alts (replace_extent env x a i') tail
                (some a) (next_of x i.chain)))))

merge_last-IsNamed : (env : Env) (tail : Option ℕ) (i : Inode) → IsNamed i (merge_last env tail i)
unfolding merge_last
merge_last-IsNamed env none i = IsNamed-refl i
merge_last-IsNamed env (some t) i = elim (Option-cases (next_of t i.chain)) [
  | inl e ↦ rw (e, merge_last) (IsNamed-refl i)
  | inr (n, e) ↦
      let j =
        set_ext t (record (i.exts t) { length = add64 (i.exts t).length (i.exts n).length }) i in
      rw (e, merge_last)
        (if-elim (IsNamed i) (continues (i.exts t) (i.exts n))
          (λ _.
            IsNamed-trans i j _ (set_ext-IsNamed t _ i)
              (by_but j _ (remove_extent-SameBut env n true j)))
          (λ _. IsNamed-refl i))
]

replace_in-IsNamed :
    (env : Env) (alts : List ℕ) (tail : Option ℕ) (start stop : ℕ) (i : Inode)
    → IsNamed i (replace_in env alts tail start stop i)
unfolding replace_in
replace_in-IsNamed env alts tail start stop i =
    let w = find_first start stop alts tail i in
    let w' = merge_first env w in
    let r = clear_range env (length w'.inode.chain + 1) start stop w' in
    let j = insert_rest r.0.tor r.1 r.0.alts r.0.inode in
    IsNamed-trans i w.inode _ (find_first-IsNamed_at start stop alts tail i _ refl) (
      IsNamed-trans w.inode w'.inode _ (merge_first-IsNamed env w.tor w.alts w.inode w.tail w.dh) (
        IsNamed-trans w'.inode r.0.inode _
          (clear_range-IsNamed env _ start stop w'.alts w'.inode w'.tail w'.tor w'.dh)
          (IsNamed-trans r.0.inode j _
            (by_but r.0.inode j (insert_rest-SameBut r.0.tor r.1 r.0.alts r.0.inode))
            (merge_last-IsNamed env r.0.tail j))))

pub set_root-IsNamed : (a : ℕ) (i : Inode) → IsNamed i (set_root a i)
set_root-IsNamed a i = record {
  fields = refl;
  next_dob = refl;
  fewer = λ n a. a;
  hosts = λ d. refl;
  loids = λ d. refl;
}

-- `replace` keeps the size of the file, the host and the object id of every data object and the
-- number of data objects made, and adds none to the table.
pub replace-IsNamed :
    (env : Env) (alts : List ℕ) (tail : Option ℕ) (start stop : ℕ) (i : Inode)
    → IsNamed i (replace env alts tail start stop i)
unfolding replace
replace-IsNamed env [] tail start stop i =
    let j = assert (ltb start stop) i in
    if-elim (IsNamed i) (is_leaf i.flayout) (λ _. assert-IsNamed (ltb start stop) i)
      (λ _.
        IsNamed-trans i j _ (assert-IsNamed (ltb start stop) i)
          (replace_in-IsNamed env [] tail start stop j))
replace-IsNamed env (a ∷ rest) tail start stop i =
    let j = assert (ltb start stop) i in
    if-elim (IsNamed i) (is_leaf i.flayout)
      (λ _. IsNamed-trans i j _ (assert-IsNamed (ltb start stop) i) (
        IsNamed-trans j (set_root a j) _ (set_root-IsNamed a j)
          (replace_in-IsNamed env rest tail (end_of (j.exts a)) stop (set_root a j))))
      (λ _.
        IsNamed-trans i j _ (assert-IsNamed (ltb start stop) i)
          (replace_in-IsNamed env (a ∷ rest) tail start stop j))
