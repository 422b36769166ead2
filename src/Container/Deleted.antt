-- ===== src/Container/Deleted.antt =====
-- `release_inode` and `delete_inode` (incont.c) on an inode in order: the assertions of `free_inode`
-- hold of what they give up.
use pado_fs.Base.{
  ℕ, ◌≡◌, ◌⊎◌, refl, sym, ap, ◌∙◌, subst, Bool, true, false, not, ◌||◌, Option, some, List, [], ◌∷◌,
  arith, length, length-append, ltb, Option-cases, Bool-cases, inl, inr, if-elim,
}
use pado_fs.Base.Distinct.{has}
use pado_fs.Codes.{Request, move_shared_base}
use pado_fs.Tree.{is_leaf, Tree, leaf, node}
use pado_fs.Tree.Order.{inorder}
use pado_fs.Inode.{
  Inode, Env, set_deleted, is_shared, unset_shared, is_deleted, bit, set_bit, clear_bit,
}
use pado_fs.Inode.Extents.{remove_dobject, request}
use pado_fs.Inode.Owned.{IsOwned, IsOwned-as}
use pado_fs.Inode.Released.{request-IsAlike, IsAlike-IsOwned}
use pado_fs.Container.{remove_dobjects, release_inode, delete_inode}
use pado_fs.Layout.Spots.{Spot}
use pado_fs.Layout.Same.{request-IsSame, fields_of}
use pado_fs.Layout.Content.{Holds}
use pado_fs.Layout.Kept.{Holds-as}
use pado_fs.Layout.Without.{has-without}
use pado_fs.Layout.Removed.{remove_dobject-Gone}
use pado_fs.Layout.Running.{empty_chain}
use pado_fs.Layout.Acquired.{IsUp, request-up}
use pado_fs.Layout.Sound.{IsSound, remove_dobject-Holds}

-- What `free_inode` asserts.
pub record IsFreeable (i : Inode) : Type 0 where
  pub leaf : is_leaf i.flayout ≡ true
  pub num_exts : i.num_exts ≡ 0
  pub refcount : i.refcount ≡ 0

-- The layout without the extents of the data objects `ds`.
pub record Rid (ds : List ℕ) (i j : Inode) : Type 0 where
  pub spots : ℕ → Option Spot
  pub holds : Holds spots j
  pub owned : IsOwned j.chain j
  pub halted : j.halted ≡ i.halted
  pub fields : fields_of j ≡ fields_of i
  pub exts : j.exts ≡ i.exts
  pub rid :
      (x : ℕ) → has x j.chain ≡ true → (has x i.chain ≡ true) × (has (i.exts x).dobj ds ≡ false)

pub remove_dobjects-Rid :
    (env : Env) (ds : List ℕ) (i : Inode) (old : ℕ → Option Spot)
    → Holds old i
    → IsOwned i.chain i
    → Rid ds i (remove_dobjects env ds i)
unfolding remove_dobjects
remove_dobjects-Rid env [] i old k o = record {
  spots = old;
  holds = k;
  owned = o;
  halted = refl;
  fields = refl;
  exts = refl;
  rid = λ x h. (h, refl);
}
remove_dobjects-Rid env (d ∷ ds) i old k o =
    let j = (remove_dobject env (some d) true i).0 in
    let g =
      remove_dobject-Gone env d true k.zs i k.distinct k.linked
        (subst (λ us. IsOwned us i) k.linked.chain o) in
    let (h, w) = remove_dobject-Holds env d true i old k o in
    let r = remove_dobjects-Rid env ds j _ h w.0 in
    record {
      spots = r.spots;
      holds = r.holds;
      owned = r.owned;
      halted = r.halted ∙ w.1;
      fields = r.fields ∙ g.others.fields;
      exts = r.exts ∙ g.exts;
      rid = λ x a.
          let (b, c) = r.rid x a in
          let e = ap (has x) g.linked.chain in
          let f = has-without i.exts d x k.zs in
          let l = ap (has x) k.linked.chain in
          let c' = ap (λ t. has (t x).dobj ds) g.exts in ground arith;
    }

leaf-of : (t : Tree) → inorder t ≡ [] → is_leaf t ≡ true
leaf-of leaf e = refl
leaf-of (node l x d r) e =
    let a = length-append (inorder l) (x ∷ inorder r) in let b = ap length e in absurd (omega arith)

none_has : (zs : List ℕ) → ((x : ℕ) → has x zs ≡ true → ⊥) → zs ≡ []
none_has [] h = refl
none_has (z ∷ zs) h = absurd (h z (ground arith))

-- Everything goes with the data objects of the table.
all_gone : (i j : Inode) → IsOwned i.chain i → Rid i.do_map i j → j.chain ≡ []
all_gone i j o r = none_has j.chain (λ x h. let (a, b) = r.rid x h in let c = o.listed x a in cc)

-- Without a layout there are no extents.
no_extents : (i : Inode) → IsSound i → is_leaf i.flayout ≡ true → i.num_exts ≡ 0
no_extents i s e = s.owned.total ∙ ap length (empty_chain s.holds e)

-- What `release_inode` leaves; it gives up only what `free_inode` accepts.
pub record Released (r : Inode × Bool) : Type 0 where
  pub sound : IsSound r.0
  pub freeable : r.1 ≡ true → IsFreeable r.0

pub flags-IsSound :
    (n m : ℕ) (i : Inode) → IsSound i → IsSound (record i { flags = n; refcount = m })
flags-IsSound n m i s = record {
  spots = s.spots;
  holds = Holds-as s.spots i _ refl refl refl refl s.holds;
  owned =
      IsOwned-as i.chain i.chain i _ (λ x. refl) s.owned.distinct refl refl refl refl refl refl
        s.owned;
  alive = s.alive;
}

pub times-IsSound :
    (a m v : ℕ) (i : Inode) → IsSound i → IsSound (record i { atime = a; mtime = m; version = v })
times-IsSound a m v i s = record {
  spots = s.spots;
  holds = Holds-as s.spots i _ refl refl refl refl s.holds;
  owned =
      IsOwned-as i.chain i.chain i _ (λ x. refl) s.owned.distinct refl refl refl refl refl refl
        s.owned;
  alive = s.alive;
}

pub release_inode-Released : (i : Inode) → IsSound i → Released (release_inode i)
unfolding release_inode
release_inode-Released i s =
    if-elim Released (ltb 0 i.refcount || (not (is_leaf i.flayout) || is_shared i))
      (λ _. record { sound = s; freeable = λ e. cc })
      (λ e.
        let l : is_leaf i.flayout ≡ true = ground arith in
        record {
          sound = flags-IsSound _ i.refcount i s;
          freeable = λ _. record { leaf = l; num_exts = no_extents i s l; refcount = ground arith };
        })

pub requested-IsSound :
    (env : Env) (q : Request) (i : Inode) → IsSound i → IsSound (request env q i).0
requested-IsSound env q i s =
    let j = (request env q i).0 in
    let a = request-IsAlike env q i in
    let b = request-IsSame env q i in
    record {
      spots = s.spots;
      holds = Holds-as s.spots i j b.chain b.flayout b.exts b.next_ext s.holds;
      owned = subst (λ us. IsOwned us j) (sym b.chain) (IsAlike-IsOwned i.chain i j a s.owned);
      alive = a.halted ∙ s.alive;
    }

-- What `delete_inode` leaves.
pub record Deleted (r : Inode × Bool) : Type 0 where
  pub released : Released r
  pub empty : IsFreeable r.0
  pub freed : r.1 ≡ true
  pub deleted : is_deleted r.0 ≡ true

no_longer_shared : (n : ℕ) → bit 1 (clear_bit 1 n) ≡ false
no_longer_shared n = ground arith

set-is_deleted : (n : ℕ) → bit 2 (set_bit 2 n) ≡ true
set-is_deleted n = ground arith

release_inode-Deleted :
    (i : Inode)
    → IsSound i
    → i.chain ≡ []
    → i.refcount ≡ 0
    → is_shared i ≡ false
    → Deleted (release_inode i)
unfolding release_inode
release_inode-Deleted i s e n h =
    let l = leaf-of i.flayout (s.holds.linked.order ∙ (sym s.holds.linked.chain ∙ e)) in
    let f : ltb 0 i.refcount || (not (is_leaf i.flayout) || is_shared i) ≡ false = ground arith in
    let z : IsFreeable (set_deleted i) = record {
      leaf = l;
      num_exts = no_extents i s l;
      refcount = n;
    } in
    rw f (record {
      released = record {
        sound = flags-IsSound (set_bit 2 i.flags) i.refcount i s;
        freeable = λ _. z;
      };
      empty = z;
      freed = refl;
      deleted = set-is_deleted i.flags;
    })

-- The inode without its data objects.
emptied-IsSound : (env : Env) (i : Inode) → IsSound i → IsSound (remove_dobjects env i.do_map i)
emptied-IsSound env i s =
    let r = remove_dobjects-Rid env i.do_map i s.spots s.holds s.owned in
    record { spots = r.spots; holds = r.holds; owned = r.owned; alive = r.halted ∙ s.alive }

-- An inode in order that no file refers to, and, if it shares its base file, data object servers
-- that can be connected: `delete_inode` says that the inode is to be freed, marks it as deleted,
-- and leaves it without extents and references, in order and with no assertion failed, so that the
-- assertions of `free_inode` hold.
pub delete_inode-Deleted :
    (env : Env) (i : Inode)
    → IsSound i
    → i.refcount ≡ 0
    → (is_shared i ≡ false) ⊎ IsUp env
    → Deleted (delete_inode env i)
unfolding delete_inode
delete_inode-Deleted env i s n h =
    let j = remove_dobjects env i.do_map i in
    let r = remove_dobjects-Rid env i.do_map i s.spots s.holds s.owned in
    let e = all_gone i j s.owned r in
    let t = emptied-IsSound env i s in
    let m : j.refcount ≡ 0 = ap (λ f. f.6) r.fields ∙ n in
    let f : is_shared j ≡ is_shared i = ap (λ f. bit 1 f.5) r.fields in
    elim (Bool-cases (is_shared j)) [
      | inr b ↦ rw b (release_inode-Deleted j t e m b)
      | inl b ↦ elim h [
        | inl c ↦ cc
        | inr up ↦
            let q = move_shared_base j.ino j.ino in
            let (reply, w) = request-up env q j up in
            let k = (request env q j).0 in
            let a = request-IsSame env q j in
            rw (b, w)
              (release_inode-Deleted (unset_shared k)
                (flags-IsSound _ k.refcount k (requested-IsSound env q j t)) (a.chain ∙ e)
                (ap (λ f. f.6) a.fields ∙ m) (no_longer_shared k.flags))
      ]
    ]

pub delete_inode-Released : (env : Env) (i : Inode) → IsSound i → Released (delete_inode env i)
unfolding delete_inode
delete_inode-Released env i s =
    let j = remove_dobjects env i.do_map i in
    let t = emptied-IsSound env i s in
    if-elim Released (is_shared j)
      (λ _.
        let q = move_shared_base j.ino j.ino in
        let k = (request env q j).0 in
        let w = requested-IsSound env q j t in
        elim (Option-cases (request env q j).1) [
          | inl e ↦ rw e (record { sound = w; freeable = λ e. cc })
          | inr (r, e) ↦
              rw e (release_inode-Released (unset_shared k) (flags-IsSound _ k.refcount k w))
        ])
      (λ _. release_inode-Released j t)
