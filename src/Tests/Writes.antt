-- ===== src/Tests/Writes.antt =====
-- Writes and truncations of the layout of Reads, and the loops of `replace` on it.
use pado_fs.Base.{◌+◌, ◌-◌, ◌≡◌, refl, none, some, [], ◌∷◌, map, arith, ◌==◌, if◌then◌else◌}
use pado_fs.Base.Word.{add64}
use pado_fs.Codes.{code, success}
use pado_fs.Base.Distinct.{head?}
use pado_fs.Inode.{Env, Inode}
use pado_fs.Layout.{replace, insert_rest, clear_range, pado_write, pado_truncate}
use pado_fs.Layout.Linked.{IsLinked, insert_rest-behind}
use pado_fs.Layout.Cleared.{Cleared, clear_range-Cleared}
use pado_fs.Layout.Spots.{spot}
use pado_fs.Layout.Content.{Holds}
use pado_fs.Layout.Put.{put}
use pado_fs.Layout.Replaced.{replace-Holds}
use pado_fs.Layout.Kept.{pado_write-Holds, pado_truncate-Holds}
use pado_fs.Tests.Reads.{sample, sample-IsLayout}

abbrev pub env : Env
env = record { now = 3; dos = λ _ _. some (code success) }

sample-IsLinked : IsLinked (0 ∷ 1 ∷ []) sample
sample-IsLinked = record { chain = refl; order = refl; avl = sample-IsLayout.avl }

insert_rest-behind_example :
    IsLinked (0 ∷ 3 ∷ 4 ∷ 1 ∷ []) (insert_rest (some 0) none (3 ∷ 4 ∷ []) sample)
    × ((insert_rest (some 0) none (3 ∷ 4 ∷ []) sample).halted ≡ sample.halted)
insert_rest-behind_example =
    insert_rest-behind (3 ∷ 4 ∷ []) none 0 [] (1 ∷ []) sample (refl, (refl, (refl, (refl, tt))))
      sample-IsLinked

clear_range-Cleared_example : Cleared 22 sample [] (0 ∷ 1 ∷ []) (3 ∷ []) none (some 3) (
    clear_range env 3 10 22 (record {
      inode = sample;
      alts = 3 ∷ [];
      tail = some 3;
      tor = none;
      dh = head? (0 ∷ 1 ∷ []);
    }))
clear_range-Cleared_example =
    clear_range-Cleared env 3 10 22 [] (0 ∷ 1 ∷ []) (3 ∷ []) none (some 3) sample
      (refl, (refl, (refl, tt))) sample-IsLinked (omega arith)

pub sample-Holds : Holds (spot (map sample.exts (0 ∷ 1 ∷ []))) sample
sample-Holds = record {
  zs = 0 ∷ 1 ∷ [];
  linked = sample-IsLinked;
  distinct = (refl, (refl, tt));
  below = (omega arith, (omega arith, tt));
  sorted = (omega arith, omega arith, (omega arith, omega arith, omega arith));
  says = λ p. refl;
}

-- Two new extents, over the end of the first one and the start of the second one.
abbrev two_more : Inode
two_more = record sample {
  next_ext = 5;
  exts = λ x.
      if x == 3
      then record { dobj = 0; off_f = 14; off_do = 4; length = 2 }
      else if x == 4
      then record { dobj = 0; off_f = 18; off_do = 70; length = 4 }
      else sample.exts x;
}

two_more-Holds : Holds (spot (map two_more.exts (0 ∷ 1 ∷ []))) two_more
two_more-Holds = record {
  zs = 0 ∷ 1 ∷ [];
  linked = record { chain = refl; order = refl; avl = sample-IsLayout.avl };
  distinct = (refl, (refl, tt));
  below = (omega arith, (omega arith, tt));
  sorted = (omega arith, omega arith, (omega arith, omega arith, omega arith));
  says = λ p. refl;
}

replace-Holds_example :
    Holds
      (put 14 22 (spot (map two_more.exts (3 ∷ 4 ∷ []))) (spot (map two_more.exts (0 ∷ 1 ∷ []))))
      (replace env (3 ∷ 4 ∷ []) (some 4) 14 22 two_more)
replace-Holds_example =
    replace-Holds env (3 ∷ 4 ∷ []) (some 4) 14 22 two_more (spot (map two_more.exts (0 ∷ 1 ∷ [])))
      two_more-Holds (refl, (refl, (refl, (refl, tt)))) (omega arith, (omega arith, tt))
      (omega arith, omega arith, (omega arith, omega arith, omega arith)) (omega arith)

pado_write-Holds_example :
    Holds
      (put 15 (15 + 8) (λ p. some (0, add64 3 (p - 15))) (spot (map sample.exts (0 ∷ 1 ∷ []))))
      (pado_write env (some 0) 15 3 8 sample).0
pado_write-Holds_example =
    pado_write-Holds env 0 15 3 8 sample (spot (map sample.exts (0 ∷ 1 ∷ []))) sample-Holds
      (omega arith) (omega arith)

pado_truncate-Holds_example :
    Holds
      (put 15 sample.size (λ p. none) (spot (map sample.exts (0 ∷ 1 ∷ []))))
      (pado_truncate env 15 sample).0
pado_truncate-Holds_example =
    pado_truncate-Holds env 15 sample (spot (map sample.exts (0 ∷ 1 ∷ []))) sample-Holds
      (omega arith)
