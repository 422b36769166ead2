-- ===== src/Inode/Released.antt =====
-- `release_extent`, and `remove_dobject` of a data object without extents (incont.c), on references,
-- counters and assertions.
use pado_fs.Base.{
  ℕ, ◌≡◌, refl, sym, ap, ◌∙◌, subst, Bool, true, false, ◌&&◌, Option, none, some, List, [], ◌∷◌,
  arith, length, if-elim,
}
use pado_fs.Base.Distinct.{has, erase, has-erase, erase-IsDistinct}
use pado_fs.Codes.{Request, Ret, code, failed, remove_link}
use pado_fs.Inode.{Inode, Env}
use pado_fs.Inode.Extents.{
  request, is_empty, unref_extent, remove_refs, remove_dobject, release_extent,
}
use pado_fs.Inode.Owned.{IsOwned, IsOwned-as, unref_extent-IsOwned}

pub remove_refs-none : (d : ℕ) (i : Inode) (xs : List ℕ) → xs ≡ [] → remove_refs (length xs) d i ≡ i
unfolding remove_refs
remove_refs-none d i [] e = refl
remove_refs-none d i (x ∷ xs) e = cc

-- The data objects and extents, and whether the process goes on, are as they were.
pub record IsAlike (i j : Inode) : Type 0 where
  pub exts : j.exts ≡ i.exts
  pub dobs : j.dobs ≡ i.dobs
  pub num_exts : j.num_exts ≡ i.num_exts
  pub next_dob : j.next_dob ≡ i.next_dob
  pub do_map : j.do_map ≡ i.do_map
  pub halted : j.halted ≡ i.halted

pub IsAlike-IsOwned : (live : List ℕ) (i j : Inode) → IsAlike i j → IsOwned live i → IsOwned live j
IsAlike-IsOwned live i j s o =
    IsOwned-as live live i j (λ x. refl) o.distinct refl s.exts s.dobs s.num_exts s.next_dob
      s.do_map o

pub request-IsAlike : (env : Env) (q : Request) (i : Inode) → IsAlike i (request env q i).0
unfolding request
request-IsAlike env q i = record {
  exts = ground arith;
  dobs = ground arith;
  num_exts = ground arith;
  next_dob = ground arith;
  do_map = ground arith;
  halted = ground arith;
}

replied-IsAlike :
    (i j : Inode) (r : Option Ret)
    → IsAlike i j
    → let z : Inode × Ret = elim r [ none ↦ (j, code failed) | some r' ↦ (j, r') ] in IsAlike i z.0
replied-IsAlike i j none s = s
replied-IsAlike i j (some r) s = s

-- A data object without extents that goes.
remove_dobject-IsAlike :
    (env : Env) (d : ℕ) (i : Inode)
    → (i.dobs d).refs ≡ []
    → IsAlike (record i { do_map = erase d i.do_map }) (remove_dobject env (some d) true i).0
unfolding remove_dobject
remove_dobject-IsAlike env d i e =
    let o = i.dobs d in
    let q = remove_link o.host_id o.loid i.ino in
    let j = record i { do_map = erase d i.do_map } in
    subst
      (λ k.
        let (k', r) = request env q k in
        let z : Inode × Ret = elim r [ none ↦ (k', code failed) | some r' ↦ (k', r') ] in
        IsAlike j z.0)
      (sym (remove_refs-none d j o.refs e))
      (replied-IsAlike j (request env q j).0 (request env q j).1 (request-IsAlike env q j))

-- A data object without extents that is taken out of `do_map`.
pub unlisted-IsOwned :
    (live : List ℕ) (d : ℕ) (i : Inode)
    → (i.dobs d).refs ≡ []
    → IsOwned live i
    → IsOwned live (record i { do_map = erase d i.do_map })
unlisted-IsOwned live d i e o = record {
  distinct = o.distinct;
  refs = o.refs;
  apart = o.apart;
  count = o.count;
  total = o.total;
  few = o.few;
  listed = λ x k.
      let a = has-erase (i.exts x).dobj d i.do_map o.once in
      let b = o.listed x k in
      let r = o.refs d x in let r' : has x (i.dobs d).refs ≡ false = ap (has x) e in ground arith;
  once = erase-IsDistinct d i.do_map o.once;
  made = λ c k. let a = has-erase c d i.do_map o.once in o.made c (ground arith);
}

pub is_empty-eq : (xs : List ℕ) → is_empty xs ≡ true → xs ≡ []
is_empty-eq [] h = refl
is_empty-eq (x ∷ xs) h = cc

pub release_extent-IsOwned :
    (env : Env) (live : List ℕ) (x : ℕ) (b : Bool) (i : Inode)
    → has x live ≡ true
    → IsOwned live i
    → IsOwned (erase x live) (release_extent env x b i)
      × ((release_extent env x b i).halted ≡ i.halted)
unfolding release_extent
release_extent-IsOwned env live x b i h o =
    let j = unref_extent x i in
    let d = (i.exts x).dobj in
    let (p, q) = unref_extent-IsOwned live x i h o in
    let P = λ (k : Inode). IsOwned (erase x live) k × (k.halted ≡ i.halted) in
    if-elim P (is_empty (j.dobs d).refs && b)
      (λ e.
        let n = is_empty-eq _ (ground arith) in
        let s = remove_dobject-IsAlike env d j n in
        (
          IsAlike-IsOwned (erase x live) _ _ s (unlisted-IsOwned (erase x live) d j n p),
          s.halted ∙ q,
        ))
      (λ _. (p, q))
