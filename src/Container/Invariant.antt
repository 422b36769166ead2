-- ===== src/Container/Invariant.antt =====
-- The inode map of incont.c as a table: its numbers, and the lookup of a new inode.
use pado_fs.Base.{
  ℕ, ◌+◌, ◌<◌, ◌≡◌, refl, ◌∙◌, Bool, true, not, ◌&&◌, none, some, List, [], ◌∷◌, ◌++◌, arith, ◌==◌,
  Bool-cases, Option-cases, inl, inr, All, All-append, All-imp,
}
use pado_fs.Base.Distinct.{erase}
use pado_fs.Inode.{Inode, update, new_inode, is_deleted}
use pado_fs.Container.{Container, find_inode, create_inode, acquire_inode}

-- No number stands twice in the map.
abbrev pub absent : (ℕ → Inode) → ℕ → List ℕ → Bool
absent f ino [] = true
absent f ino (h ∷ hs) = not ((f h).ino == ino) && absent f ino hs

abbrev pub IsUnique : (ℕ → Inode) → List ℕ → Type 0
IsUnique f [] = Unit
IsUnique f (h ∷ hs) = (absent f (f h).ino hs ≡ true) × IsUnique f hs

-- The pointers of the map are below the next one, and no number stands twice.
pub record IsContainer (c : Container) : Type 0 where
  pub below : All (λ h. h < c.next) c.inode_map
  pub unique : IsUnique c.inodes c.inode_map

pub find_inode-absent :
    (f : ℕ → Inode) (ino : ℕ) (hs : List ℕ) → find_inode f ino hs ≡ none → absent f ino hs ≡ true
unfolding find_inode
find_inode-absent f ino [] h = refl
find_inode-absent f ino (x ∷ xs) h = ground (arith, find_inode-absent f ino xs)

pub absent-find_inode :
    (f : ℕ → Inode) (ino : ℕ) (hs : List ℕ) → absent f ino hs ≡ true → find_inode f ino hs ≡ none
unfolding find_inode
absent-find_inode f ino [] h = refl
absent-find_inode f ino (x ∷ xs) h = ground (arith, absent-find_inode f ino xs)

absent-erase :
    (f : ℕ → Inode) (ino old : ℕ) (hs : List ℕ)
    → absent f ino hs ≡ true
    → absent f ino (erase old hs) ≡ true
unfolding erase
absent-erase f ino old [] h = refl
absent-erase f ino old (x ∷ xs) h = ground (arith, absent-erase f ino old xs)

erase-IsUnique : (f : ℕ → Inode) (old : ℕ) (hs : List ℕ) → IsUnique f hs → IsUnique f (erase old hs)
unfolding erase
erase-IsUnique f old [] u = tt
erase-IsUnique f old (x ∷ xs) u =
    ground (arith, erase-IsUnique f old xs u.1, absent-erase f (f x).ino old xs u.0)

erase-All : (n old : ℕ) (hs : List ℕ) → All (λ h. h < n) hs → All (λ h. h < n) (erase old hs)
unfolding erase
erase-All n old [] a = tt
erase-All n old (x ∷ xs) a = ground (arith, erase-All n old xs a.1)

pub find_inode-ino :
    (f : ℕ → Inode) (ino h : ℕ) (hs : List ℕ)
    → find_inode f ino hs ≡ some h
    → ((f h).ino == ino) ≡ true
unfolding find_inode
find_inode-ino f ino h [] e = cc
find_inode-ino f ino h (x ∷ xs) e = ground (arith, find_inode-ino f ino h xs)

-- With the inode that was found under a number gone, no other has the number.
absent-found :
    (f : ℕ → Inode) (ino old : ℕ) (hs : List ℕ)
    → IsUnique f hs
    → find_inode f ino hs ≡ some old
    → absent f ino (erase old hs) ≡ true
unfolding find_inode erase
absent-found f ino old [] u h = cc
absent-found f ino old (x ∷ xs) u h = elim (Bool-cases ((f x).ino == ino)) [
  | inl e ↦ let q = u.0 in ground arith
  | inr e ↦
      let k : find_inode f ino xs ≡ some old = ground arith in
      let m = find_inode-ino f ino old xs k in ground (arith, absent-found f ino old xs u.1 k)
]

-- An inode behind the last pointer changes nothing for those in the map.
absent-update :
    (f : ℕ → Inode) (n ino : ℕ) (i : Inode) (hs : List ℕ)
    → All (λ h. h < n) hs
    → absent (update f n i) ino hs ≡ absent f ino hs
absent-update f n ino i [] a = refl
absent-update f n ino i (x ∷ xs) a = ground (arith, absent-update f n ino i xs a.1)

pub absent-snoc :
    (f : ℕ → Inode) (ino : ℕ) (hs : List ℕ) (n : ℕ)
    → absent f ino (hs ++ n ∷ []) ≡ (absent f ino hs && not ((f n).ino == ino))
absent-snoc f ino [] n = ground arith
absent-snoc f ino (x ∷ xs) n = ground (arith, absent-snoc f ino xs n)

add-IsUnique :
    (f : ℕ → Inode) (n : ℕ) (i : Inode) (hs : List ℕ)
    → All (λ h. h < n) hs
    → IsUnique f hs
    → absent f i.ino hs ≡ true
    → IsUnique (update f n i) (hs ++ n ∷ [])
add-IsUnique f n i [] a u h = (refl, tt)
add-IsUnique f n i (x ∷ xs) a u h = (
  absent-snoc (update f n i) (update f n i x).ino xs n
      ∙ (let b = a.0 in
          let q = absent-update f n (f x).ino i xs a.1 in let w = u.0 in ground arith),
  add-IsUnique f n i xs a.1 u.1 (ground arith),
)

find-add :
    (f : ℕ → Inode) (n : ℕ) (i : Inode) (hs : List ℕ)
    → All (λ h. h < n) hs
    → absent f i.ino hs ≡ true
    → find_inode (update f n i) i.ino (hs ++ n ∷ []) ≡ some n
unfolding find_inode
find-add f n i [] a h = ground arith
find-add f n i (x ∷ xs) a h = ground (arith, find-add f n i xs a.1)

-- A new inode at the end of a map without its number.
added :
    (ino size : ℕ) (c : Container) (hs : List ℕ)
    → All (λ h. h < c.next) hs
    → IsUnique c.inodes hs
    → absent c.inodes ino hs ≡ true
    → let f = update c.inodes c.next (new_inode ino size) in
      IsContainer (record c { inodes = f; inode_map = hs ++ c.next ∷ []; next = c.next + 1 })
      × (find_inode f ino (hs ++ c.next ∷ []) ≡ some c.next)
unfolding new_inode
added ino size c hs b u a = (
  record {
    below =
        All-append (λ h. h < c.next + 1) hs (c.next ∷ []) (All-imp (λ h k. omega arith) hs b)
          (omega arith, tt);
    unique = add-IsUnique c.inodes c.next (new_inode ino size) hs b u a;
  },
  find-add c.inodes c.next (new_inode ino size) hs b a,
)

-- In an inode map with at most one inode to a number, `create_inode` keeps that so, and
-- `acquire_inode` then finds the inode that it returned, whether that was new, took the place of
-- a deleted one, or was there before.
pub create_inode-acquire :
    (ino size : ℕ) (c : Container)
    → IsContainer c
    → IsContainer (create_inode ino size c).0
      × (acquire_inode ino (create_inode ino size c).0 ≡ some (create_inode ino size c).1)
unfolding create_inode acquire_inode
create_inode-acquire ino size c v = elim (Option-cases (find_inode c.inodes ino c.inode_map)) [
  | inl e ↦
      rw (e, create_inode)
        (added ino size c c.inode_map v.below v.unique
          (find_inode-absent c.inodes ino c.inode_map e))
  | inr (old, e) ↦
      rw (e, create_inode)
        (elim (Bool-cases (is_deleted (c.inodes old))) [
          | inl d ↦ rw d (
              added ino size c (erase old c.inode_map) (erase-All c.next old c.inode_map v.below)
                (erase-IsUnique c.inodes old c.inode_map v.unique)
                (absent-found c.inodes ino old c.inode_map v.unique e))
          | inr d ↦ rw d (v, e)
        ])
]
