-- ===== src/Layout/Updates.antt =====
-- Lists of extents whose fields change elsewhere, for the proofs on `replace` (incont.c).
use pado_fs.Base.{ℕ, ◌≡◌, refl, ap₂, false, List, [], ◌∷◌, map, arith, All}
use pado_fs.Base.Distinct.{has}
use pado_fs.Inode.{Extent, update}

pub map-update_absent :
    (f : ℕ → Extent) (x : ℕ) (e : Extent) (zs : List ℕ)
    → has x zs ≡ false
    → map (update f x e) zs ≡ map f zs
map-update_absent f x e [] h = refl
map-update_absent f x e (z ∷ zs) h = ground (arith, map-update_absent f x e zs)

pub map-same :
    (f g : ℕ → Extent) (us zs : List ℕ)
    → ((y : ℕ) → has y us ≡ false → g y ≡ f y)
    → All (λ y. has y us ≡ false) zs
    → map g zs ≡ map f zs
map-same f g us [] h a = refl
map-same f g us (z ∷ zs) h a = ap₂ (λ e es. e ∷ es) (h z a.0) (map-same f g us zs h a.1)

pub All-none : (zs : List ℕ) → All (λ y. has y [] ≡ false) zs
All-none [] = tt
All-none (z ∷ zs) = (refl, All-none zs)
