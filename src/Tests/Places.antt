-- ===== src/Tests/Places.antt =====
-- Where requests, clones, and a backup with its restoration keep the positions of the layout of
-- Reads.
use pado_fs.Base.{ℕ, ◌+◌, ◌-◌, ◌≡◌, refl, none, some, Option, [], ◌∷◌, map, arith, true, false}
use pado_fs.Codes.{code, success}
use pado_fs.Layout.{Segment, pado_clone}
use pado_fs.Layout.Spots.{Where, spot}
use pado_fs.Layout.Put.{put}
use pado_fs.Layout.Places.{Serves, place, in_object}
use pado_fs.Read.{pado_read, read_loop}
use pado_fs.Read.Served.{or_base}
use pado_fs.Read.Clone.{source}
use pado_fs.Read.Rounds.{read_loop-rounds}
use pado_fs.Read.Copied.{IsListed, pado_clone-pado_read}
use pado_fs.Container.{
  Container, acquire_inode, find_inode, do_backup, do_restore, empty_container, stageout,
}
use pado_fs.Container.Drained.{IsStagedOut, stageout-IsStagedOut}
use pado_fs.Container.Recovered.{IsCopy, do_restore-do_backup}
use pado_fs.Worker.{on_inode, write, truncate}
use pado_fs.Worker.Places.{IsServed, write-IsServed, truncate-IsServed}
use pado_fs.Tests.Reads.{sample}
use pado_fs.Tests.Writes.{env, sample-Holds}

abbrev wanted : ℕ → Option Where
wanted p = place sample (spot (map sample.exts (0 ∷ 1 ∷ [])) p)

sample-Serves : Serves wanted sample
unfolding spot
sample-Serves = record {
  spots = spot (map sample.exts (0 ∷ 1 ∷ []));
  holds = sample-Holds;
  table = (omega arith, (omega arith, tt));
  made = λ p. ground arith;
  names = λ p. refl;
}

write-IsServed_example :
    IsServed (put 15 (15 + 8) (in_object 1 7 15 3) wanted) (on_inode env (write 1 7 15 3 8) sample)
write-IsServed_example =
    write-IsServed env 1 7 15 3 8 sample wanted sample-Serves refl (omega arith) (omega arith)

truncate-IsServed_example :
    IsServed (put 15 sample.size (λ p. none) wanted) (on_inode env (truncate 15) sample)
truncate-IsServed_example = truncate-IsServed env 15 sample wanted sample-Serves refl (omega arith)

-- Two segments, the second of which reaches over the end of the range.
abbrev seg₁ : Segment
seg₁ = record { hid = 3; loid = 9; offset = 0; off_do = 50; length = 4 }

abbrev seg₂ : Segment
seg₂ = record { hid = 1; loid = 7; offset = 6; off_do = 20; length = 9 }

wanted-IsListed : (p : ℕ) (w : Where) → wanted p ≡ some w → IsListed w
unfolding spot
wanted-IsListed p w e = ground arith

pado_clone-pado_read_example :
    Serves
      (put 12
        (12 + (30 - 5))
        (λ p. some (or_base sample.ino (5 + (p - 12)) (wanted (5 + (p - 12)))))
        wanted)
      (pado_clone env (pado_read sample true 5 30).0 12 (12 + (30 - 5)) sample).0
pado_clone-pado_read_example =
    pado_clone-pado_read env sample sample wanted wanted 5 30 12 sample-Serves sample-Serves
      (λ qs q. (code success, refl)) (omega arith) wanted-IsListed (omega arith) (omega arith)
      (omega arith) (omega arith)

abbrev one_sample : Container
one_sample = record { inodes = λ _. sample; inode_map = 0 ∷ []; next = 1; dead = false }

do_restore-do_backup_example :
    (r : Container) × (do_restore env (do_backup one_sample) empty_container ≡ some r)
    × ((j : ℕ) × (acquire_inode 5 r ≡ some j) × IsCopy wanted sample (r.inodes j))
unfolding acquire_inode find_inode
do_restore-do_backup_example =
    do_restore-do_backup env one_sample (λ _. wanted) 5 0
      (record { below = (omega arith, tt); unique = (refl, tt) }) (sample-Serves, tt) (refl, tt)
      refl refl

read_loop-rounds_example :
    read_loop (source sample true 30) 6 (0 ∷ 1 ∷ []) 5 0
    ≡ read_loop (source sample true 30) 9 (0 ∷ 1 ∷ []) 5 0
read_loop-rounds_example =
    read_loop-rounds (source sample true 30) (0 ∷ 1 ∷ []) 6 9 5 0 (omega arith) (omega arith)
      (omega arith)

stageout-IsStagedOut_example :
    IsStagedOut (record sample { flags = 1 }) (stageout env (record sample { flags = 1 }))
stageout-IsStagedOut_example = stageout-IsStagedOut env (record sample { flags = 1 }) (λ qs q. refl)
