-- ===== src/Read/Fetch.antt =====
-- Where a position of a file is kept, as the layout says it and as a list of segments says it.
use pado_fs.Base.{
  ℕ, ◌+◌, ◌-◌, ◌≤◌, ◌<◌, ◌≡◌, arith, le→leb, lt→ltb, le→not-ltb, ◌&&◌, Option, none, some, List, [],
  ◌∷◌, leb, ltb, if◌then◌else◌,
}
use pado_fs.Base.Word.{add64}
use pado_fs.Inode.{Extent, Dobject}
use pado_fs.Layout.{Segment}
use pado_fs.Layout.Spots.{Where}

-- By the layout: the first extent that holds the position, and else nothing.
unfoldable pub lookup : (ℕ → Extent) → (ℕ → Dobject) → List ℕ → ℕ → Option Where
lookup f g [] p = none
lookup f g (x ∷ xs) p =
    if leb (f x).off_f p && ltb p ((f x).off_f + (f x).length)
    then some (record {
      hid = (g (f x).dobj).host_id;
      loid = (g (f x).dobj).loid;
      at = add64 (f x).off_do (p - (f x).off_f);
    })
    else lookup f g xs p

-- By a list of segments: the first that holds the offset.
unfoldable pub fetch : List Segment → ℕ → Option Where
fetch [] k = none
fetch (s ∷ ss) k =
    if leb s.offset k && ltb k (s.offset + s.length)
    then some (record { hid = s.hid; loid = s.loid; at = add64 s.off_do (k - s.offset) })
    else fetch ss k

pub fetch-hit :
    (s : Segment) (ss : List Segment) (k : ℕ)
    → s.offset ≤ k
    → k < s.offset + s.length
    → fetch (s ∷ ss) k
      ≡ some (record { hid = s.hid; loid = s.loid; at = add64 s.off_do (k - s.offset) })
unfolding fetch
fetch-hit s ss k h l = rw (le→leb s.offset k h, lt→ltb k (s.offset + s.length) l)

pub fetch-miss :
    (s : Segment) (ss : List Segment) (k : ℕ)
    → s.offset + s.length ≤ k
    → fetch (s ∷ ss) k ≡ fetch ss k
unfolding fetch
fetch-miss s ss k h = rw (le→leb s.offset k (omega arith), le→not-ltb k (s.offset + s.length) h)

pub lookup-hit :
    (f : ℕ → Extent) (g : ℕ → Dobject) (x : ℕ) (xs : List ℕ) (p : ℕ)
    → (f x).off_f ≤ p
    → p < (f x).off_f + (f x).length
    → lookup f g (x ∷ xs) p
      ≡ some (record {
        hid = (g (f x).dobj).host_id;
        loid = (g (f x).dobj).loid;
        at = add64 (f x).off_do (p - (f x).off_f);
      })
unfolding lookup
lookup-hit f g x xs p h l = rw (le→leb (f x).off_f p h, lt→ltb p ((f x).off_f + (f x).length) l)

pub lookup-skip :
    (f : ℕ → Extent) (g : ℕ → Dobject) (x : ℕ) (xs : List ℕ) (p : ℕ)
    → (f x).off_f + (f x).length ≤ p
    → lookup f g (x ∷ xs) p ≡ lookup f g xs p
unfolding lookup
lookup-skip f g x xs p h =
    rw (le→leb (f x).off_f p (omega arith), le→not-ltb p ((f x).off_f + (f x).length) h)
