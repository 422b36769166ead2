-- ===== src/Layout/Places.antt =====
-- Where the positions of a file are kept, by the host and the object id of the data object, through
-- the operations of incont.c that are given these: a write with its `acquire_dobject`, and
-- `pado_truncate`.
use pado_fs.Base.{
  ℕ, ◌+◌, ◌-◌, ◌≤◌, ◌<◌, ◌≡◌, inl, inr, refl, sym, ap, ap₂, ◌∙◌, subst, ◌&&◌, Option, none, some,
  List, [], ◌∷◌, arith, ltb, leb, All-append, Bool-cases, Option-cases, max, if◌then◌else◌, ◌==◌,
  if-elim,
}
use pado_fs.Base.Word.{add64}
use pado_fs.Tree.{is_leaf}
use pado_fs.Inode.{Dobject, Inode, Env}
use pado_fs.Inode.Extents.{create_extent, find_dobject, acquire_dobject, or_new}
use pado_fs.Layout.{replace, set_root, pado_write, pado_truncate}
use pado_fs.Layout.Spots.{Spot, Where, last_offset}
use pado_fs.Layout.Content.{Below, Holds}
use pado_fs.Layout.Put.{put, Below-suc}
use pado_fs.Layout.Kept.{Holds-as, pado_write-Holds, pado_truncate-Holds}
use pado_fs.Layout.Names.{
  IsNamed, IsNamed-refl, create_extent-IsNamed, set_root-IsNamed, replace-IsNamed,
}

abbrev pub place : Inode → Option Spot → Option Where
place i none = none
place i (some s) = some (record { hid = (i.dobs s.0).host_id; loid = (i.dobs s.0).loid; at = s.1 })

-- The positions of a range in one object: the one at `off_f` stands at `off_do`.
abbrev pub in_object : (hid loid off_f off_do : ℕ) → ℕ → Option Where
in_object hid loid off_f off_do p =
    some (record { hid = hid; loid = loid; at = add64 off_do (p - off_f) })

-- A data object that was made before `n`.
abbrev pub IsMade : ℕ → Option Spot → Type 0
IsMade n none = Unit
IsMade n (some s) = s.0 < n

-- A layout that keeps each position of the file at the host, in the object and at the position in
-- it that `want` says: it `Holds` each position somewhere, and its data objects have these names.
pub record Serves (want : ℕ → Option Where) (i : Inode) : Type 0 where
  pub spots : ℕ → Option Spot
  pub holds : Holds spots i
  pub table : Below i.next_dob i.do_map
  pub made : (p : ℕ) → IsMade i.next_dob (spots p)
  pub names : (p : ℕ) → place i (spots p) ≡ want p

pub Serves-imp :
    (want want' : ℕ → Option Where) (i : Inode)
    → ((p : ℕ) → want p ≡ want' p)
    → Serves want i
    → Serves want' i
Serves-imp want want' i f s = record {
  spots = s.spots;
  holds = s.holds;
  table = s.table;
  made = s.made;
  names = λ p. s.names p ∙ f p;
}

-- The data objects that `i` has are those of `j`, with the same names.
pub record HasNames (i j : Inode) : Type 0 where
  pub next_dob : i.next_dob ≤ j.next_dob
  pub table : Below i.next_dob i.do_map → Below j.next_dob j.do_map
  pub hosts : (d : ℕ) → d < i.next_dob → (j.dobs d).host_id ≡ (i.dobs d).host_id
  pub loids : (d : ℕ) → d < i.next_dob → (j.dobs d).loid ≡ (i.dobs d).loid

pub HasNames-trans : (i j k : Inode) → HasNames i j → HasNames j k → HasNames i k
HasNames-trans i j k s t =
    let a = s.next_dob in
    let b = t.next_dob in
    record {
      next_dob = omega arith;
      table = λ h. t.table (s.table h);
      hosts = λ d l. t.hosts d (omega arith) ∙ s.hosts d l;
      loids = λ d l. t.loids d (omega arith) ∙ s.loids d l;
    }

pub IsNamed-HasNames : (i j : Inode) → IsNamed i j → HasNames i j
IsNamed-HasNames i j n =
    let e = n.next_dob in
    record {
      next_dob = omega arith;
      table = λ h. subst (λ m. Below m j.do_map) (sym n.next_dob) (n.fewer i.next_dob h);
      hosts = λ d l. n.hosts d;
      loids = λ d l. n.loids d;
    }

pub IsMade-wider : (m n : ℕ) (o : Option Spot) → m ≤ n → IsMade m o → IsMade n o
IsMade-wider m n none h a = tt
IsMade-wider m n (some s) h a = omega arith

pub place-HasNames :
    (i j : Inode) (o : Option Spot) → HasNames i j → IsMade i.next_dob o → place j o ≡ place i o
place-HasNames i j none n a = refl
place-HasNames i j (some s) n a =
    ap₂ (λ h l. some (record { hid = h; loid = l; at = s.1 })) (n.hosts s.0 a) (n.loids s.0 a)

-- A change of where the positions are kept, in the data objects that there are.
pub Serves-by :
    (want : ℕ → Option Where) (spots : ℕ → Option Spot) (i j : Inode)
    → Holds spots j
    → Below i.next_dob i.do_map
    → HasNames i j
    → ((p : ℕ) → IsMade i.next_dob (spots p))
    → ((p : ℕ) → place i (spots p) ≡ want p)
    → Serves want j
Serves-by want spots i j h t n m e = record {
  spots = spots;
  holds = h;
  table = n.table t;
  made = λ p. IsMade-wider i.next_dob j.next_dob (spots p) n.next_dob (m p);
  names = λ p. place-HasNames i j (spots p) n (m p) ∙ e p;
}

pub put-cases {ℓ} :
    {A : Type ℓ} (P : A → Type 0) (start stop : ℕ) (new old : ℕ → A) (p : ℕ)
    → ((p : ℕ) → P (new p))
    → ((p : ℕ) → P (old p))
    → P (put start stop new old p)
put-cases P start stop new old p f g = if-elim P (leb start p && ltb p stop) (λ _. f p) (λ _. g p)

pub place-put :
    (i : Inode) (start stop : ℕ) (new old : ℕ → Option Spot) (p : ℕ)
    → place i (put start stop new old p)
      ≡ put start stop (λ q. place i (new q)) (λ q. place i (old q)) p
place-put i start stop new old p = elim (Bool-cases (leb start p && ltb p stop)) [
  | inl e ↦ rw e refl
  | inr e ↦ rw e refl
]

pub put-old {ℓ} :
    {A : Type ℓ} (start stop : ℕ) (new old old' : ℕ → A) (p : ℕ)
    → old p ≡ old' p
    → put start stop new old p ≡ put start stop new old' p
put-old start stop new old old' p e = ap (λ a. if leb start p && ltb p stop then new p else a) e

-- `pado_write` to a data object of the inode leaves the names of the data objects.
pado_write-HasNames :
    (env : Env) (d off_f off_do len : ℕ) (i : Inode)
    → HasNames i (pado_write env (some d) off_f off_do len i).0
unfolding pado_write
pado_write-HasNames env d off_f off_do len i =
    let c = create_extent d off_f off_do len i in
    let i₂ = record c.0 { size = max c.0.size (add64 off_f len) } in
    let done =
      if is_leaf i₂.flayout
      then set_root c.1 i₂
      else replace env (c.1 ∷ []) (some c.1) off_f (add64 off_f len) i₂ in
    let n : IsNamed i₂ done =
      if-elim (IsNamed i₂) (is_leaf i₂.flayout) (λ _. set_root-IsNamed c.1 i₂)
        (λ _. replace-IsNamed env (c.1 ∷ []) (some c.1) off_f (add64 off_f len) i₂) in
    let a = IsNamed-HasNames i c.0 (create_extent-IsNamed d off_f off_do len i) in
    let b = IsNamed-HasNames i₂ done n in
    HasNames-trans i c.0 _ a
      (record { next_dob = b.next_dob; table = b.table; hosts = b.hosts; loids = b.loids })

pado_truncate-HasNames :
    (env : Env) (newsize : ℕ) (i : Inode) → HasNames i (pado_truncate env newsize i).0
unfolding pado_truncate
pado_truncate-HasNames env newsize i =
    let j = record i { size = newsize } in
    let cut = if ltb newsize i.size then replace env [] none newsize i.size j else j in
    let n : IsNamed j cut =
      if-elim (IsNamed j) (ltb newsize i.size) (λ _. replace-IsNamed env [] none newsize i.size j)
        (λ _. IsNamed-refl j) in
    let b = IsNamed-HasNames j cut n in
    record { next_dob = b.next_dob; table = b.table; hosts = b.hosts; loids = b.loids }

pub pado_truncate-Serves :
    (env : Env) (newsize : ℕ) (i : Inode) (want : ℕ → Option Where)
    → Serves want i
    → i.size ≤ last_offset
    → Serves (put newsize i.size (λ p. none) want) (pado_truncate env newsize i).0
pado_truncate-Serves env newsize i want s h =
    Serves-by _ _ i _ (pado_truncate-Holds env newsize i s.spots s.holds h) s.table
      (pado_truncate-HasNames env newsize i)
      (λ p. put-cases (IsMade i.next_dob) newsize i.size (λ q. none) s.spots p (λ q. tt) s.made)
      (λ p.
        place-put i newsize i.size (λ q. none) s.spots p
        ∙ put-old newsize i.size (λ q. none) (λ q. place i (s.spots q)) want p (s.names p))

pado_write-Serves :
    (env : Env) (d off_f off_do len : ℕ) (i : Inode) (want : ℕ → Option Where)
    → Serves want i
    → d < i.next_dob
    → 0 < len
    → off_f + len ≤ last_offset
    → Serves
        (put off_f (off_f + len) (in_object (i.dobs d).host_id (i.dobs d).loid off_f off_do) want)
        (pado_write env (some d) off_f off_do len i).0
pado_write-Serves env d off_f off_do len i want s m l h =
    let new : ℕ → Option Spot = λ p. some (d, add64 off_do (p - off_f)) in
    Serves-by _ _ i _ (pado_write-Holds env d off_f off_do len i s.spots s.holds l h) s.table
      (pado_write-HasNames env d off_f off_do len i)
      (λ p. put-cases (IsMade i.next_dob) off_f (off_f + len) new s.spots p (λ q. m) s.made)
      (λ p.
        place-put i off_f (off_f + len) new s.spots p
        ∙ put-old off_f (off_f + len) (λ q. place i (new q)) (λ q. place i (s.spots q)) want p
            (s.names p))

-- What `acquire_dobject` finds has the name that was asked for.
pub find_dobject-some :
    (f : ℕ → Dobject) (hid loid n : ℕ) (ds : List ℕ) (d : ℕ)
    → Below n ds
    → find_dobject f hid loid ds ≡ some d
    → (d < n) × ((f d).host_id ≡ hid) × ((f d).loid ≡ loid)
unfolding find_dobject
find_dobject-some f hid loid n [] d b e = cc
find_dobject-some f hid loid n (x ∷ xs) d b e =
    elim (Bool-cases ((f x).host_id == hid && (f x).loid == loid)) [
      | inl t ↦
          let e' : some x ≡ some d = rw t at e in
          let q : x ≡ d = cc in
          subst (λ y. (y < n) × ((f y).host_id ≡ hid) × ((f y).loid ≡ loid)) q
            (b.0, ground arith, ground arith)
      | inr t ↦ find_dobject-some f hid loid n xs d b.1 (rw t at e)
    ]

-- What `acquire_dobject` gives for a name.
pub record Acquired (want : ℕ → Option Where) (hid loid : ℕ) (r : Inode × Option ℕ) : Type 0 where
  pub dobj : ℕ
  pub given : r.1 ≡ some dobj
  pub made : dobj < r.0.next_dob
  pub host : (r.0.dobs dobj).host_id ≡ hid
  pub object : (r.0.dobs dobj).loid ≡ loid
  pub serves : Serves want r.0

pub acquire_dobject-Acquired :
    (env : Env) (hid loid : ℕ) (i : Inode) (want : ℕ → Option Where)
    → Serves want i
    → Acquired want hid loid (acquire_dobject env hid loid or_new i)
unfolding acquire_dobject
acquire_dobject-Acquired env hid loid i want s =
    elim (Option-cases (find_dobject i.dobs hid loid i.do_map)) [
      | inr (d, e) ↦
          let (a, b, c) = find_dobject-some i.dobs hid loid i.next_dob i.do_map d s.table e in
          rw (e, acquire_dobject)
            (record {
              dobj = d;
              given = refl;
              made = a;
              host = b;
              object = c;
              serves =
                  Serves-by want s.spots i _ (Holds-as s.spots i _ refl refl refl refl s.holds)
                    s.table
                    (record {
                      next_dob = omega arith;
                      table = λ h. h;
                      hosts = λ d l. refl;
                      loids = λ d l. refl;
                    })
                    s.made s.names;
            })
      | inl e ↦
          let n = i.next_dob in
          let o : Dobject = record { host_id = hid; loid = loid; refs = []; num_refs = 0 } in
          rw (e, acquire_dobject)
            (record {
              dobj = n;
              given = refl;
              made = omega arith;
              host = ground arith;
              object = ground arith;
              serves =
                  Serves-by want s.spots i _ (Holds-as s.spots i _ refl refl refl refl s.holds)
                    s.table
                    (record {
                      next_dob = omega arith;
                      table = λ h.
                          All-append (λ x. x < n + 1) i.do_map (n ∷ []) (Below-suc n i.do_map h)
                            (omega arith, tt);
                      hosts = λ d l. ground arith;
                      loids = λ d l. ground arith;
                    })
                    s.made s.names;
            })
    ]

pub write_place-Serves :
    (env : Env) (hid loid off_f off_do len : ℕ) (i : Inode) (want : ℕ → Option Where)
    → Serves want i
    → 0 < len
    → off_f + len ≤ last_offset
    → let r = acquire_dobject env hid loid or_new i in
      Serves
        (put off_f (off_f + len) (in_object hid loid off_f off_do) want)
        (pado_write env r.1 off_f off_do len r.0).0
write_place-Serves env hid loid off_f off_do len i want s l h =
    let r = acquire_dobject env hid loid or_new i in
    let a = acquire_dobject-Acquired env hid loid i want s in
    let at_name = λ (h l : ℕ). put off_f (off_f + len) (in_object h l off_f off_do) want in
    subst (λ d. Serves (at_name hid loid) (pado_write env d off_f off_do len r.0).0) (sym a.given)
      (subst (λ n. Serves (at_name hid n) (pado_write env (some a.dobj) off_f off_do len r.0).0)
        a.object
        (subst
          (λ n.
            Serves (at_name n ((r.0.dobs a.dobj).loid))
              (pado_write env (some a.dobj) off_f off_do len r.0).0)
          a.host (pado_write-Serves env a.dobj off_f off_do len r.0 want a.serves a.made l h)))
