-- ===== src/Mapping/Table.antt =====
-- The mapping server lpmapser.c as a map from numbers to numbers.
use pado_fs.Base.{
  ℕ, ◌≡◌, refl, sym, ◌∙◌, Bool, false, ◌||◌, Option, none, some, List, [], ◌∷◌, ◌++◌, arith, ◌==◌,
  if◌then◌else◌, append_assoc, append-nil,
}
use pado_fs.Mapping.{Item, find, delete, Query, get, put, del, unknown, serve, do_backup, restore}

-- No key stands twice.
abbrev pub holds : ℕ → List Item → Bool
holds k [] = false
holds k ((j, v) ∷ m) = (j == k) || holds k m

abbrev pub IsTable : List Item → Type 0
IsTable [] = Unit
IsTable ((k, v) ∷ m) = (holds k m ≡ false) × IsTable m

pub find-add :
    (j k v : ℕ) (m : List Item)
    → find j (m ++ (k, v) ∷ [])
      ≡ elim (find j m) [ none ↦ (if k == j then some v else none) | some w ↦ some w ]
unfolding find
find-add j k v [] = refl
find-add j k v ((i, w) ∷ m) = ground (arith, find-add j k v m)

find-not-holds : (k : ℕ) (m : List Item) → holds k m ≡ false → find k m ≡ none
unfolding find
find-not-holds k [] h = refl
find-not-holds k ((j, v) ∷ m) h = ground (arith, find-not-holds k m)

find-delete :
    (j k : ℕ) (m : List Item)
    → IsTable m
    → find j (delete k m) ≡ (if k == j then none else find j m)
unfolding find delete
find-delete j k [] t = ground arith
find-delete j k ((i, v) ∷ m) t = ground (arith, find-delete j k m t.1, find-not-holds i m t.0)

holds-none : (k : ℕ) (m : List Item) → find k m ≡ none → holds k m ≡ false
unfolding find
holds-none k [] h = refl
holds-none k ((j, v) ∷ m) h = ground (arith, holds-none k m)

holds-add : (j k v : ℕ) (m : List Item) → holds j (m ++ (k, v) ∷ []) ≡ (holds j m || (k == j))
holds-add j k v [] = ground arith
holds-add j k v ((i, w) ∷ m) = ground (arith, holds-add j k v m)

add-IsTable : (k v : ℕ) (m : List Item) → holds k m ≡ false → IsTable m → IsTable (m ++ (k, v) ∷ [])
add-IsTable k v [] h t = (refl, tt)
add-IsTable k v ((i, w) ∷ m) h t =
    let e = holds-add i k v m in (ground arith, add-IsTable k v m (ground arith) t.1)

holds-delete : (j k : ℕ) (m : List Item) → holds j m ≡ false → holds j (delete k m) ≡ false
unfolding delete
holds-delete j k [] h = refl
holds-delete j k ((i, w) ∷ m) h = ground (arith, holds-delete j k m)

delete-IsTable : (k : ℕ) (m : List Item) → IsTable m → IsTable (delete k m)
unfolding delete
delete-IsTable k [] t = tt
delete-IsTable k ((i, w) ∷ m) t = ground (arith, delete-IsTable k m t.1, holds-delete i k m t.0)

-- The abstract server: a function from keys, and the answer to a request.
abbrev pub Keys : Type 0
Keys = ℕ → Option ℕ

abbrev pub or_zero : Option ℕ → ℕ
or_zero none = 0
or_zero (some v) = v

unfoldable pub spec_reply : Query → Keys → ℕ
spec_reply (get none) f = 0
spec_reply (get (some k)) f = or_zero (f k)
spec_reply (put none) f = 0
spec_reply (put (some (k, v))) f = elim (f k) [ none ↦ v | some w ↦ w ]
spec_reply (del none) f = 0
spec_reply (del (some k)) f = or_zero (f k)
spec_reply unknown f = 0

unfoldable pub spec_keys : Query → Keys → Keys
spec_keys (put (some (k, v))) f j = elim (f j) [
  | none ↦ (if k == j then some v else none)
  | some w ↦ some w
]
spec_keys (del (some k)) f j = if k == j then none else f j
spec_keys q f j = f j

-- A request to the mapping server whose keys stand at most once in the table: the keys still do,
-- every key has the value that the abstract map has after the request, and the number sent back
-- is the abstract map's answer.
pub serve-refines :
    (q : Query) (m : List Item)
    → IsTable m
    → IsTable (serve q m).0
      × ((j : ℕ) → find j (serve q m).0 ≡ spec_keys q (λ k. find k m) j)
      × ((serve q m).1 ≡ spec_reply q (λ k. find k m))
unfolding serve spec_keys spec_reply
serve-refines (get none) m t = (t, λ j. refl, refl)
serve-refines (get (some k)) m t = (t, λ j. refl, ground arith)
serve-refines (put none) m t = (t, λ j. refl, refl)
serve-refines (put (some (k, v))) m t = (
  ground (arith, add-IsTable k v m, holds-none k m),
  λ j. ground (arith, find-add j k v m),
  ground arith,
)
serve-refines (del none) m t = (t, λ j. refl, refl)
serve-refines (del (some k)) m t =
    (ground (arith, delete-IsTable k m t), λ j. ground (arith, find-delete j k m t), ground arith)
serve-refines unknown m t = (t, λ j. refl, refl)

restore-do_backup_from : (m m' : List Item) → restore (do_backup m) m' ≡ m' ++ m
unfolding restore do_backup
restore-do_backup_from [] m' = sym (append-nil m')
restore-do_backup_from ((k, v) ∷ m) m' =
    restore-do_backup_from m (m' ++ (k, v) ∷ []) ∙ append_assoc m' ((k, v) ∷ []) m

-- The table restored from a backup file into an empty table is the table that was backed up.
pub restore-do_backup : (m : List Item) → restore (do_backup m) [] ≡ m
restore-do_backup m = restore-do_backup_from m []
