-- ===== src/Layout/Same.antt =====
-- What the operations of incont.c on extents leave alone: `release_extent`, `remove_extent`,
-- `replace_extent`, and the insertions of `replace`.
use pado_fs.Base.{
  ℕ, ◌<◌, ◌≡◌, refl, sym, ap, ◌∙◌, subst, Bool, true, false, ◌&&◌, Option, none, some, List, [],
  ◌∷◌, arith, All, Bool-cases, inl, inr,
}
use pado_fs.Base.Distinct.{has, next_of, prev_of, erase, replace_with, insert_behind, insert_ahead}
use pado_fs.Codes.{Request, remove_link, Ret, code, failed}
use pado_fs.Tree.{Tree, substitute, hang_right, hang_left, detach}
use pado_fs.Inode.{Inode, Env, set_tree}
use pado_fs.Inode.Extents.{
  unlink_extent, unref_extent, release_extent, remove_extent, replace_extent, remove_dobject,
  is_empty, request,
}
use pado_fs.Inode.Released.{is_empty-eq, remove_refs-none}
use pado_fs.Layout.{insert_rest}

-- The fields that `replace` has no business with.
abbrev pub fields_of : Inode → ℕ × ℕ × ℕ × ℕ × ℕ × ℕ × ℕ
fields_of i = (i.ino, i.size, i.atime, i.mtime, i.version, i.flags, i.refcount)

-- The parts of an inode that a release leaves alone: all but counters, references, the table of
-- data objects and the requests sent.
pub record IsSame (i j : Inode) : Type 0 where
  pub chain : j.chain ≡ i.chain
  pub flayout : j.flayout ≡ i.flayout
  pub exts : j.exts ≡ i.exts
  pub next_ext : j.next_ext ≡ i.next_ext
  pub fields : fields_of j ≡ fields_of i
  pub next_dob : j.next_dob ≡ i.next_dob
  pub fewer : (n : ℕ) → All (λ d. d < n) i.do_map → All (λ d. d < n) j.do_map
  pub hosts : (d : ℕ) → (j.dobs d).host_id ≡ (i.dobs d).host_id
  pub loids : (d : ℕ) → (j.dobs d).loid ≡ (i.dobs d).loid

pub IsSame-trans : (i j k : Inode) → IsSame i j → IsSame j k → IsSame i k
IsSame-trans i j k s t = record {
  chain = t.chain ∙ s.chain;
  flayout = t.flayout ∙ s.flayout;
  exts = t.exts ∙ s.exts;
  next_ext = t.next_ext ∙ s.next_ext;
  fields = t.fields ∙ s.fields;
  next_dob = t.next_dob ∙ s.next_dob;
  fewer = λ n a. t.fewer n (s.fewer n a);
  hosts = λ d. t.hosts d ∙ s.hosts d;
  loids = λ d. t.loids d ∙ s.loids d;
}

pub unref_extent-IsSame : (x : ℕ) (i : Inode) → IsSame i (unref_extent x i)
unfolding unref_extent
unref_extent-IsSame x i = record {
  chain = refl;
  flayout = refl;
  exts = refl;
  next_ext = refl;
  fields = refl;
  next_dob = refl;
  fewer = λ n a. a;
  hosts = λ d. ground arith;
  loids = λ d. ground arith;
}

pub request-do_map : (env : Env) (q : Request) (i : Inode) → (request env q i).0.do_map ≡ i.do_map
unfolding request
request-do_map env q i = ground arith

pub request-IsSame : (env : Env) (q : Request) (i : Inode) → IsSame i (request env q i).0
unfolding request
request-IsSame env q i = record {
  chain = ground arith;
  flayout = ground arith;
  exts = ground arith;
  next_ext = ground arith;
  fields = ground arith;
  next_dob = ground arith;
  fewer = λ n a. subst (All (λ d. d < n)) (sym (request-do_map env q i)) a;
  hosts = λ d. ground arith;
  loids = λ d. ground arith;
}

replied-IsSame :
    (i j : Inode) (r : Option Ret)
    → IsSame i j
    → let z : Inode × Ret = elim r [ none ↦ (j, code failed) | some r' ↦ (j, r') ] in IsSame i z.0
replied-IsSame i j none s = s
replied-IsSame i j (some r) s = s

All-erase : (n d : ℕ) (m : List ℕ) → All (λ x. x < n) m → All (λ x. x < n) (erase d m)
unfolding erase
All-erase n d [] a = tt
All-erase n d (x ∷ m) a = ground (arith, All-erase n d m)

pub unmapped-IsSame : (i : Inode) (d : ℕ) → IsSame i (record i { do_map = erase d i.do_map })
unmapped-IsSame i d = record {
  chain = refl;
  flayout = refl;
  exts = refl;
  next_ext = refl;
  fields = refl;
  next_dob = refl;
  fewer = λ n a. All-erase n d i.do_map a;
  hosts = λ d. refl;
  loids = λ d. refl;
}

-- A data object without extents is removed without a change of the layout.
remove_dobject-IsSame :
    (env : Env) (d : ℕ) (i : Inode)
    → (i.dobs d).refs ≡ []
    → IsSame i (remove_dobject env (some d) true i).0
unfolding remove_dobject
remove_dobject-IsSame env d i e =
    let o = i.dobs d in
    let q = remove_link o.host_id o.loid i.ino in
    let j = record i { do_map = erase d i.do_map } in
    subst
      (λ k.
        let (k', r) = request env q k in
        let z : Inode × Ret = elim r [ none ↦ (k', code failed) | some r' ↦ (k', r') ] in
        IsSame i z.0)
      (sym (remove_refs-none d j o.refs e))
      (replied-IsSame i (request env q j).0 (request env q j).1
        (IsSame-trans i j (request env q j).0 (unmapped-IsSame i d) (request-IsSame env q j)))

pub release_extent-IsSame :
    (env : Env) (x : ℕ) (b : Bool) (i : Inode) → IsSame i (release_extent env x b i)
unfolding release_extent
release_extent-IsSame env x b i =
    let j = unref_extent x i in
    let d = (i.exts x).dobj in
    elim (Bool-cases (is_empty (j.dobs d).refs && b)) [
      | inl e ↦ rw e (
          IsSame-trans i j _ (unref_extent-IsSame x i)
            (remove_dobject-IsSame env d j (is_empty-eq _ (ground arith))))
      | inr e ↦ rw e (unref_extent-IsSame x i)
    ]

-- What a step of `replace` leaves alone apart from the chain and the tree: the fields of all
-- extents but `zs`, the counter of extents, `fields_of`, and the names of the data objects.
pub record SameBut (zs : List ℕ) (i j : Inode) : Type 0 where
  pub exts : (y : ℕ) → has y zs ≡ false → j.exts y ≡ i.exts y
  pub next_ext : j.next_ext ≡ i.next_ext
  pub fields : fields_of j ≡ fields_of i
  pub next_dob : j.next_dob ≡ i.next_dob
  pub fewer : (n : ℕ) → All (λ d. d < n) i.do_map → All (λ d. d < n) j.do_map
  pub hosts : (d : ℕ) → (j.dobs d).host_id ≡ (i.dobs d).host_id
  pub loids : (d : ℕ) → (j.dobs d).loid ≡ (i.dobs d).loid

pub SameBut-trans : (zs : List ℕ) (i j k : Inode) → SameBut zs i j → SameBut zs j k → SameBut zs i k
SameBut-trans zs i j k s t = record {
  exts = λ y h. t.exts y h ∙ s.exts y h;
  next_ext = t.next_ext ∙ s.next_ext;
  fields = t.fields ∙ s.fields;
  next_dob = t.next_dob ∙ s.next_dob;
  fewer = λ n a. t.fewer n (s.fewer n a);
  hosts = λ d. t.hosts d ∙ s.hosts d;
  loids = λ d. t.loids d ∙ s.loids d;
}

pub SameBut-wider :
    (zs ws : List ℕ) (i j : Inode)
    → ((y : ℕ) → has y ws ≡ false → has y zs ≡ false)
    → SameBut zs i j
    → SameBut ws i j
SameBut-wider zs ws i j f s = record {
  exts = λ y h. s.exts y (f y h);
  next_ext = s.next_ext;
  fields = s.fields;
  next_dob = s.next_dob;
  fewer = s.fewer;
  hosts = s.hosts;
  loids = s.loids;
}

pub SameBut-by : (i j : Inode) → IsSame i j → SameBut [] i j
SameBut-by i j s = record {
  exts = λ y h. ap (λ f. f y) s.exts;
  next_ext = s.next_ext;
  fields = s.fields;
  next_dob = s.next_dob;
  fewer = s.fewer;
  hosts = s.hosts;
  loids = s.loids;
}

pub SameBut-refl : (i : Inode) → SameBut [] i i
SameBut-refl i = record {
  exts = λ y h. refl;
  next_ext = refl;
  fields = refl;
  next_dob = refl;
  fewer = λ n a. a;
  hosts = λ d. refl;
  loids = λ d. refl;
}

-- A change of the tree and the chain only.
pub relinked :
    (o : Option Tree) (i : Inode) (c : List ℕ) → SameBut [] i (set_tree o (record i { chain = c }))
relinked none i c = record {
  exts = λ y h. refl;
  next_ext = refl;
  fields = refl;
  next_dob = refl;
  fewer = λ n a. a;
  hosts = λ d. refl;
  loids = λ d. refl;
}
relinked (some t) i c = record {
  exts = λ y h. refl;
  next_ext = refl;
  fields = refl;
  next_dob = refl;
  fewer = λ n a. a;
  hosts = λ d. refl;
  loids = λ d. refl;
}

pub remove_extent-SameBut :
    (env : Env) (x : ℕ) (b : Bool) (i : Inode) → SameBut [] i (remove_extent env x b i)
unfolding remove_extent unlink_extent
remove_extent-SameBut env x b i =
    let j =
      set_tree (detach x (prev_of x i.chain) i.flayout) (record i { chain = erase x i.chain }) in
    SameBut-trans [] i j _ (relinked (detach x (prev_of x i.chain) i.flayout) i (erase x i.chain))
      (SameBut-by j _ (release_extent-IsSame env x b j))

pub replace_extent-SameBut :
    (env : Env) (x y : ℕ) (i : Inode) → SameBut [] i (replace_extent env x y i)
unfolding replace_extent
replace_extent-SameBut env x y i =
    let j = set_tree (substitute x y i.flayout) (record i { chain = replace_with x y i.chain }) in
    let s =
      SameBut-trans [] i j _ (relinked (substitute x y i.flayout) i (replace_with x y i.chain))
        (SameBut-by j _ (release_extent-IsSame env x true j)) in
    record {
      exts = s.exts;
      next_ext = s.next_ext;
      fields = s.fields;
      next_dob = s.next_dob;
      fewer = s.fewer;
      hosts = s.hosts;
      loids = s.loids;
    }

pub insert_rest-SameBut :
    (tor tol : Option ℕ) (alts : List ℕ) (i : Inode) → SameBut [] i (insert_rest tor tol alts i)
unfolding insert_rest
insert_rest-SameBut tor tol [] i = SameBut-refl i
insert_rest-SameBut (some t) tol (a ∷ rest) i =
    let o = hang_right t a (next_of t i.chain) i.flayout in
    SameBut-trans [] i _ _ (relinked o i (insert_behind t a i.chain))
      (insert_rest-SameBut (some a) tol rest _)
insert_rest-SameBut none (some t) (a ∷ rest) i =
    let o = hang_left t a (prev_of t i.chain) i.flayout in
    SameBut-trans [] i _ _ (relinked o i (insert_ahead t a i.chain))
      (insert_rest-SameBut none (some t) rest _)
insert_rest-SameBut none none (a ∷ rest) i = record {
  exts = λ y h. refl;
  next_ext = refl;
  fields = refl;
  next_dob = refl;
  fewer = λ n a. a;
  hosts = λ d. refl;
  loids = λ d. refl;
}
