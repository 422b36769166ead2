-- ===== src/Container/Safe.antt =====
-- The inodes of a server, all of them in order: `create_inode`, `free_inode` and `stageout_all`
-- (incont.c) trip no assertion.
use pado_fs.Base.{
  ℕ, ◌≡◌, ◌∙◌, refl, false, some, List, [], ◌∷◌, arith, ◌==◌, Option-cases, inl, inr, if-elim,
}
use pado_fs.Codes.{Ret, drain_do, drain_shared}
use pado_fs.Inode.{Inode, Env, new_inode, is_deleted, update, is_shared, unset_shared, assert}
use pado_fs.Layout.Spots.{spot}
use pado_fs.Layout.Sound.{IsSound}
use pado_fs.Inode.Extents.{check_dobject, read_dobject, request}
use pado_fs.Layout.Kept.{Holds-as}
use pado_fs.Layout.Swept.{asserted-Runs}
use pado_fs.Container.{
  drain_objects, stageout_objects, stageout, stageout_list, stageout_all, is_success, Container,
  create_inode, free_inode, set_inode, find_inode,
}
use pado_fs.Container.Deleted.{IsFreeable, flags-IsSound, requested-IsSound}

-- Every inode is in order, and no assertion has failed.
pub record IsSafe (c : Container) : Type 0 where
  pub inodes : (h : ℕ) → IsSound (c.inodes h)
  pub alive : c.dead ≡ false

pub new_inode-IsSound : (ino size : ℕ) → IsSound (new_inode ino size)
unfolding new_inode
new_inode-IsSound ino size = record {
  spots = spot [];
  holds = record {
    zs = [];
    linked = record { chain = refl; order = refl; avl = tt };
    distinct = tt;
    below = tt;
    sorted = omega arith;
    says = λ p. refl;
  };
  owned = record {
    distinct = tt;
    refs = λ d x. refl;
    apart = λ d. tt;
    count = λ d. refl;
    total = refl;
    few = omega arith;
    listed = λ x h. cc;
    once = tt;
    made = λ d h. cc;
  };
  alive = refl;
}

update-IsSound :
    (f : ℕ → Inode) (h : ℕ) (i : Inode)
    → ((k : ℕ) → IsSound (f k))
    → IsSound i
    → (k : ℕ) → IsSound (update f h i k)
update-IsSound f h i a s k = if-elim IsSound (k == h) (λ _. s) (λ _. a k)

pub set_inode-IsSafe :
    (h : ℕ) (i : Inode) (c : Container) → IsSound i → IsSafe c → IsSafe (set_inode h i c)
set_inode-IsSafe h i c s k = record {
  inodes = update-IsSound c.inodes h i k.inodes s;
  alive = k.alive;
}

pub create_inode-IsSafe :
    (ino size : ℕ) (c : Container) → IsSafe c → IsSafe (create_inode ino size c).0
unfolding create_inode
create_inode-IsSafe ino size c k =
    let a =
      update-IsSound c.inodes c.next (new_inode ino size) k.inodes (new_inode-IsSound ino size) in
    elim (Option-cases (find_inode c.inodes ino c.inode_map)) [
      | inl e ↦ rw (e, create_inode) (record { inodes = a; alive = k.alive })
      | inr (h, e) ↦
          rw (e, create_inode)
            (if-elim (λ (r : Container × ℕ × Ret). IsSafe r.0) (is_deleted (c.inodes h))
              (λ _. record { inodes = a; alive = k.alive }) (λ _. k))
    ]

pub free_inode-IsSafe :
    (h : ℕ) (c : Container) → IsSafe c → IsFreeable (c.inodes h) → IsSafe (free_inode h c)
unfolding free_inode
free_inode-IsSafe h c k f = record {
  inodes = k.inodes;
  alive =
      let a = f.leaf in let b = f.num_exts in let d = f.refcount in let e = k.alive in ground arith;
}

-- The loop of `stageout` checks each data object before it sends what it is mapped to.
drain_objects-IsSound :
    (env : Env) (ds : List ℕ) (i : Inode) → IsSound i → IsSound (drain_objects env ds i).0
unfolding drain_objects check_dobject
drain_objects-IsSound env [] i s = s
drain_objects-IsSound env (d ∷ ds) i s =
    let n = s.owned.count d in
    let a = asserted-Runs i.chain (check_dobject (i.dobs d)) i (ground arith) s.owned in
    let j = assert (check_dobject (i.dobs d)) i in
    let t : IsSound j = record {
      spots = s.spots;
      holds = Holds-as s.spots i j refl refl refl refl s.holds;
      owned = a.0;
      alive = a.1 ∙ s.alive;
    } in
    let q = drain_do (i.dobs d).host_id (i.dobs d).loid (read_dobject (some d) i).0 in
    let w = requested-IsSound env q j t in
    let v = drain_objects-IsSound env ds (request env q j).0 w in
    elim (Option-cases (request env q j).1) [
      | inl e ↦ rw (e, drain_objects) w
      | inr (r, e) ↦ rw (e, drain_objects) v
    ]

stageout_objects-IsSound : (env : Env) (i : Inode) → IsSound i → IsSound (stageout_objects env i).0
unfolding stageout_objects
stageout_objects-IsSound env i s =
    let j = (drain_objects env i.do_map i).0 in
    let t = drain_objects-IsSound env i.do_map i s in
    elim (Option-cases (drain_objects env i.do_map i).1) [
      | inl e ↦ rw (e, stageout_objects) t
      | inr (n, e) ↦ rw (e, stageout_objects) (flags-IsSound _ j.refcount j t)
    ]

stageout-IsSound : (env : Env) (i : Inode) → IsSound i → IsSound (stageout env i).0
unfolding stageout
stageout-IsSound env i s =
    let P = λ (r : Inode × Ret). IsSound r.0 in
    let q = drain_shared i.ino in
    let j = (request env q i).0 in
    let t = requested-IsSound env q i s in
    if-elim P (is_shared i)
      (λ _. elim (Option-cases (request env q i).1) [
        | inl e ↦ rw e t
        | inr (r, e) ↦ rw e (
            if-elim P (is_success r)
              (λ _. stageout_objects-IsSound env (unset_shared j) (flags-IsSound _ j.refcount j t))
              (λ _. t))
      ])
      (λ _. stageout_objects-IsSound env i s)

stageout_list-IsSafe :
    (env : Env) (hs : List ℕ) (c : Container) → IsSafe c → IsSafe (stageout_list env hs c)
unfolding stageout_list
stageout_list-IsSafe env [] c k = k
stageout_list-IsSafe env (h ∷ hs) c k =
    stageout_list-IsSafe env hs _
      (set_inode-IsSafe h _ c (stageout-IsSound env (c.inodes h) (k.inodes h)) k)

pub stageout_all-IsSafe : (env : Env) (c : Container) → IsSafe c → IsSafe (stageout_all env c)
unfolding stageout_all
stageout_all-IsSafe env c k = stageout_list-IsSafe env c.inode_map c k
