-- ===== src/Read/Copied.antt =====
-- What `pado_read` sends of one inode, taken over by `pado_clone` for another (incont.c).
use pado_fs.Base.{
  ℕ, ◌+◌, ◌-◌, ◌≤◌, ◌<◌, ◌≡◌, refl, sym, ap, none, ◌∙◌, subst, true, Option, some, List, [], ◌∷◌,
  arith, ltb, leb, min, Bool-cases, inl, inr, ◌&&◌, false,
}
use pado_fs.Base.Word.{u64_mod, add64}
use pado_fs.Inode.{Inode, Env}
use pado_fs.Layout.{is_end, Segment, pado_clone}
use pado_fs.Layout.Spots.{Where, last_offset}
use pado_fs.Layout.Put.{put}
use pado_fs.Layout.Places.{Serves, Serves-imp}
use pado_fs.Layout.Cloned.{AreInOrder, sent_place}
use pado_fs.Layout.Acquired.{IsUp}
use pado_fs.Layout.Taken.{pado_clone-Serves, put-new}
use pado_fs.Read.{pado_read}
use pado_fs.Read.Fetch.{fetch}
use pado_fs.Read.Holes.{Tiles}
use pado_fs.Read.Served.{or_base, pado_read-Serves}

Tiles-le : (k n : ℕ) (ss : List Segment) → Tiles k n ss → k ≤ n
Tiles-le k n [] t = omega arith
Tiles-le k n (s ∷ ss) t = let a = Tiles-le (k + s.length) n ss t.2 in omega arith

-- A place that no clone takes for the end of the segments.
abbrev pub IsListed : Where → Type 0
IsListed w = is_end w.hid w.loid ≡ false

head-IsListed :
    (start k n : ℕ) (s : Segment) (ss : List Segment)
    → Tiles k n (s ∷ ss)
    → ((q : ℕ) → k ≤ q → q < n → (w : Where) × (fetch (s ∷ ss) q ≡ some w) × IsListed w)
    → is_end s.hid s.loid ≡ false
unfolding fetch
head-IsListed start k n s ss t g =
    let a = Tiles-le (k + s.length) n ss t.2 in
    let b = t.0 in
    let c = t.1 in
    let (w, e, l) = g k (omega arith) (omega arith) in
    let m : (leb s.offset k && ltb k (s.offset + s.length)) ≡ true = ground arith in
    let at_head : Where = record {
      hid = s.hid;
      loid = s.loid;
      at = add64 s.off_do (k - s.offset);
    } in
    let e' : ◌≡◌ {A = Option Where} (some at_head) (some w) = rw m at e in
    let q : at_head ≡ w = cc in subst IsListed (sym q) l

tail-IsListed :
    (k n : ℕ) (s : Segment) (ss : List Segment)
    → Tiles k n (s ∷ ss)
    → ((q : ℕ) → k ≤ q → q < n → (w : Where) × (fetch (s ∷ ss) q ≡ some w) × IsListed w)
    → (q : ℕ) → k + s.length ≤ q
    → q < n
    → (w : Where) × (fetch ss q ≡ some w) × IsListed w
unfolding fetch
tail-IsListed k n s ss t g q lo hi =
    let b = t.0 in
    let m : (leb s.offset q && ltb q (s.offset + s.length)) ≡ false = ground arith in
    let (w, e, l) = g q (omega arith) hi in (w, rw m at e, l)

-- Segments that tile a range are in order wherever the range is put.
Tiles-AreInOrder :
    (start k n : ℕ) (ss : List Segment)
    → Tiles k n ss
    → start + n ≤ last_offset
    → ((q : ℕ) → k ≤ q → q < n → (w : Where) × (fetch ss q ≡ some w) × IsListed w)
    → AreInOrder start (start + k) (start + n) ss
Tiles-AreInOrder start k n [] t h g = omega arith
Tiles-AreInOrder start k n (s ∷ ss) t h g =
    let a = Tiles-le (k + s.length) n ss t.2 in
    let e = t.0 in
    let f : start + (k + s.length) ≡ min (start + n) (start + s.offset + s.length) = ground arith in
    (
      omega arith,
      t.1,
      omega arith,
      omega arith,
      head-IsListed start k n s ss t g,
      subst (λ m. AreInOrder start m (start + n) ss) f
          (Tiles-AreInOrder start (k + s.length) n ss t.2 h (tail-IsListed k n s ss t g)),
    )

sent_place-fetch :
    (start : ℕ) (ss : List Segment) (p : ℕ)
    → start ≤ p
    → sent_place start ss p ≡ fetch ss (p - start)
unfolding sent_place fetch
sent_place-fetch start [] p h = refl
sent_place-fetch start (s ∷ ss) p h =
    elim (Bool-cases (leb s.offset (p - start) && ltb (p - start) (s.offset + s.length))) [
      | inl e ↦
          let f : (leb (start + s.offset) p && ltb p (start + s.offset + s.length)) ≡ true =
            ground arith in
          let g : p - (start + s.offset) ≡ p - start - s.offset = omega arith in rw (e, f, g) refl
      | inr e ↦
          let f : (leb (start + s.offset) p && ltb p (start + s.offset + s.length)) ≡ false =
            ground arith in
          rw (e, f) (sent_place-fetch start ss p h)
    ]

-- The segments that `pado_read` sends for a nonempty range of one file, which lies in the file and
-- is shorter than 2 ^ 64, taken over by `pado_clone` for another at the offset `to`, where the
-- range ends at 2 ^ 64 - 1 at most and every data object server can be connected, where the first
-- file's number is not 0 and it keeps no position in an object 0 of a host 0: the positions of the
-- range are then kept where the first file keeps them, or in its base file where it keeps them
-- nowhere, and every other position of the second file where it was.
pub pado_clone-pado_read :
    (env : Env) (i j : Inode) (want old : ℕ → Option Where) (start stop to : ℕ)
    → Serves want i
    → Serves old j
    → IsUp env
    → 0 < i.ino
    → ((p : ℕ) (w : Where) → want p ≡ some w → IsListed w)
    → i.size < u64_mod
    → start < stop
    → stop ≤ i.size
    → to + (stop - start) ≤ last_offset
    → Serves
        (put to
          (to + (stop - start))
          (λ p. some (or_base i.ino (start + (p - to)) (want (start + (p - to)))))
          old)
        (pado_clone env (pado_read i true start stop).0 to (to + (stop - start)) j).0
pado_clone-pado_read env i j want old start stop to s t u z v b h k l =
    let m : min stop i.size ≡ stop = ground arith in
    let (tiles, f) = pado_read-Serves i want start stop s b (omega arith) in
    let ss = (pado_read i true start stop).0 in
    let n = stop - start in
    let o : AreInOrder to to (to + n) ss =
      subst (λ a. AreInOrder to a (to + n) ss) (omega arith)
        (Tiles-AreInOrder to 0 n ss (subst (λ a. Tiles 0 (a - start) ss) m tiles) l (λ q lo hi. (
          or_base i.ino (start + q) (want (start + q)),
          ap (fetch ss) (omega arith) ∙ f (start + q) (omega arith) (omega arith),
          listed (start + q) (want (start + q)) refl,
        ))) in
    Serves-imp _ _ _
      (λ p.
        put-new to (to + n) (sent_place to ss)
          (λ q. some (or_base i.ino (start + (q - to)) (want (start + (q - to))))) old p
          (λ lo hi.
            sent_place-fetch to ss p lo
            ∙ (ap (fetch ss) (omega arith) ∙ f (start + (p - to)) (omega arith) (omega arith))))
      (pado_clone-Serves env ss to (to + n) j old t u l o)
  where
    listed : (p : ℕ) (o : Option Where) → want p ≡ o → IsListed (or_base i.ino p o)
    listed p none e = ground arith
    listed p (some w) e = v p w e
