-- ===== src/Tests/Soundness.antt =====
-- The state of inodes between requests, at the layout of Reads and at a server that starts.
use pado_fs.Base.{
  ◌+◌, ◌<◌, ◌≡◌, refl, subst, some, [], ◌∷◌, map, arith, true, inl, ◌==◌, if-elim, if◌then◌else◌,
  length,
}
use pado_fs.Base.Distinct.{IsDistinct}
use pado_fs.Base.Word.{u32_mod}
use pado_fs.Codes.{code, success}
use pado_fs.Inode.{Inode, Dobject, new_inode}
use pado_fs.Inode.Owned.{IsOwned}
use pado_fs.Inode.Extents.{remove_dobject, acquire_dobject, find_dobject, create_extent}
use pado_fs.Layout.{replace, pado_write}
use pado_fs.Layout.Spots.{spot}
use pado_fs.Layout.Content.{Holds}
use pado_fs.Layout.Without.{drop_of}
use pado_fs.Layout.Running.{GoesOn, replace-Runs}
use pado_fs.Layout.Sound.{IsSound, remove_dobject-Holds}
use pado_fs.Container.{Container, create_inode, find_inode, acquire_inode, delete_inode}
use pado_fs.Container.Deleted.{Deleted, delete_inode-Deleted}
use pado_fs.Worker.{
  Server, on_create_open, finish, locking, nothing, Outcome, replied, blocked, aborted, serve,
  on_inode, write, create_open_inode, delete_inode as deletes,
}
use pado_fs.Worker.Sound.{Fits, Kept, on_inode-Kept}
use pado_fs.Worker.Safe.{FitsIn, initial, request, started, AreSafe, Leaves, Reached-AreSafe}
use pado_fs.Worker.Answered
use pado_fs.Worker.Answered.{IsAnswered, Ready-IsAnswered}
use pado_fs.Tests.Reads.{sample, sample-IsLayout}
use pado_fs.Tests.Writes.{env, sample-Holds}

sample-IsOwned : IsOwned (0 ∷ 1 ∷ []) sample
sample-IsOwned = record {
  distinct = (refl, (refl, tt));
  refs = λ d x. ground arith;
  apart = λ d.
      let P = λ (o : Dobject). IsDistinct o.refs in
      if-elim P (d == 0) (λ _. (refl, tt)) (λ _. if-elim P (d == 1) (λ _. (refl, tt)) (λ _. tt));
  count = λ d. ground arith;
  total = refl;
  few = omega arith;
  listed = λ x h. ground arith;
  once = (refl, (refl, tt));
  made = λ d h. ground arith;
}

sample-IsSound : IsSound sample
sample-IsSound = record {
  spots = spot (map sample.exts (0 ∷ 1 ∷ []));
  holds = sample-Holds;
  owned = sample-IsOwned;
  alive = refl;
}

remove_dobject-Holds_example :
    Holds
      (λ p. drop_of 0 (spot (map sample.exts (0 ∷ 1 ∷ [])) p))
      (remove_dobject env (some 0) true sample).0
    × GoesOn sample (remove_dobject env (some 0) true sample).0
remove_dobject-Holds_example =
    remove_dobject-Holds env 0 true sample (spot (map sample.exts (0 ∷ 1 ∷ []))) sample-Holds
      sample-IsOwned

delete_inode-Deleted_example : Deleted (delete_inode env sample)
delete_inode-Deleted_example = delete_inode-Deleted env sample sample-IsSound refl (inl refl)

write-Fits : Fits env (write 1 7 15 3 8) sample
unfolding Fits
write-Fits = (omega arith, omega arith, omega arith)

on_inode-Kept_example : Kept (on_inode env (write 1 7 15 3 8) sample)
on_inode-Kept_example = on_inode-Kept env (write 1 7 15 3 8) sample sample-IsSound write-Fits

-- One new extent over the end of the first one and the start of the second one.
abbrev one_new : Inode
one_new = record sample {
  num_exts = 3;
  next_ext = 3;
  exts = λ x.
      if x == 2 then record { dobj = 0; off_f = 14; off_do = 4; length = 8 } else sample.exts x;
  dobs = λ d.
      if d == 0
      then record { host_id = 1; loid = 7; refs = 2 ∷ 0 ∷ []; num_refs = 2 }
      else sample.dobs d;
}

one_new-IsOwned : IsOwned (0 ∷ 1 ∷ 2 ∷ []) one_new
one_new-IsOwned = record {
  distinct = (refl, (refl, (refl, tt)));
  refs = λ d x. ground arith;
  apart = λ d.
      let P = λ (o : Dobject). IsDistinct o.refs in
      if-elim P (d == 0) (λ _. (refl, (refl, tt))) (λ _. sample-IsOwned.apart d);
  count = λ d. ground arith;
  total = refl;
  few = omega arith;
  listed = λ x h. ground arith;
  once = (refl, (refl, tt));
  made = λ d h. ground arith;
}

one_new-Holds : Holds (spot (map one_new.exts (0 ∷ 1 ∷ []))) one_new
one_new-Holds = record {
  zs = 0 ∷ 1 ∷ [];
  linked = record { chain = refl; order = refl; avl = sample-IsLayout.avl };
  distinct = (refl, (refl, tt));
  below = (omega arith, (omega arith, tt));
  sorted = (omega arith, omega arith, (omega arith, omega arith, omega arith));
  says = λ p. refl;
}

replace-Runs_example : GoesOn one_new (replace env (2 ∷ []) (some 2) 14 22 one_new)
replace-Runs_example =
    replace-Runs env (2 ∷ []) (some 2) 14 22 one_new (spot (map one_new.exts (0 ∷ 1 ∷ [])))
      one_new-Holds (refl, (refl, (refl, tt))) (omega arith, tt)
      (omega arith, omega arith, omega arith) (omega arith) (omega arith) one_new-IsOwned
      (omega arith)

-- The server behind a request that is answered.
abbrev after : Outcome → Server
after (replied s b r) = s
after blocked = started
after aborted = started

abbrev with_file : Server
with_file = after (serve env 5 (create_open_inode 100 0 0 1 2 3) started)

abbrev with_data : Server
with_data = after (serve env 5 (write 1 7 10 0 8) with_file)

created :
    serve env 5 (create_open_inode 100 0 0 1 2 3) started ≡ replied with_file nothing (code success)
unfolding serve on_create_open create_inode find_inode new_inode
created = refl

written : serve env 5 (write 1 7 10 0 8) with_file ≡ replied with_data nothing (code success)
unfolding serve on_create_open create_inode find_inode new_inode acquire_inode finish locking
    on_inode acquire_dobject find_dobject pado_write create_extent
written = refl

file-FitsIn : FitsIn env 5 (create_open_inode 100 0 0 1 2 3) started
unfolding Fits
file-FitsIn h e = tt

data-FitsIn : FitsIn env 5 (write 1 7 10 0 8) with_file
unfolding Fits serve on_create_open create_inode find_inode new_inode acquire_inode
data-FitsIn h e =
    let e' : 0 ≡ h = cc in
    (
      omega arith,
      omega arith,
      subst (λ k. length (Container.inodes with_file.container k).chain + 2 < u32_mod) e'
          (omega arith),
    )

delete-FitsIn : FitsIn env 5 deletes with_data
unfolding Fits
delete-FitsIn h e = tt

Reached-AreSafe_example : AreSafe with_data × Leaves AreSafe (serve env 5 deletes with_data)
Reached-AreSafe_example =
    Reached-AreSafe with_data env 5 deletes
      (request env 5 (write 1 7 10 0 8) nothing (code success)
        (request env 5 (create_open_inode 100 0 0 1 2 3) nothing (code success) initial file-FitsIn
          created)
        data-FitsIn written)
      delete-FitsIn

Ready-IsAnswered_example : IsAnswered (serve env 5 deletes with_data)
Ready-IsAnswered_example =
    Ready-IsAnswered with_data env 5 deletes
      (Answered.request env 5 (write 1 7 10 0 8) nothing (code success)
        (Answered.request env 5 (create_open_inode 100 0 0 1 2 3) nothing (code success)
          Answered.initial file-FitsIn refl created)
        data-FitsIn refl written)
      delete-FitsIn refl
