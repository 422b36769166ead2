-- ===== src/Tests/Servers.antt =====
-- Requests at concrete servers.
use pado_fs.Base.{
  ℕ, ◌+◌, ◌*◌, ◌^◌, ◌/◌, ◌≤◌, ◌<◌, ◌≡◌, refl, true, false, some, List, [], ◌∷◌, arith, length,
}
use pado_fs.Base.Word.{u32_mod}
use pado_fs.Codes.{code, minus, success, is_dlocked}
use pado_fs.Tree.{leaf}
use pado_fs.Inode
use pado_fs.Inode.{Inode, Env, is_shared}
use pado_fs.Container.{Container, create_inode, acquire_inode}
use pado_fs.Container.Invariant.{IsContainer, create_inode-acquire}
use pado_fs.Worker.{on_inode, read_dobj, release_drain_lock, read_inode_meta, unref}
use pado_fs.Worker.Flags.{open-close, drain_lock, is_unused}
use pado_fs.Mapping.{
  Item, find, serve as serve_map, put, create_inode_withms, NumbersLeft, restore, do_backup,
}
use pado_fs.Mapping.Table.{IsTable, serve-refines, spec_keys, spec_reply, restore-do_backup}
use pado_fs.Mapping.Numbers.{IsBlock, create_inode_withms-IsBlock, create_inode_withms-fresh}
use pado_fs.Queue.{
  Pool, Reach, initial, step, stop, finish as thread_ends, start, accept_job, accept, take,
  take_job, Job, fill_pool,
}
use pado_fs.Queue.Progress.{IsPrefix, here, look, started-in_time}
use pado_fs.Queue.Fifo.{IsPool, Reach-IsPool, finished-all}

abbrev env : Env
env = record { now = 3; dos = λ _ _. some (code success) }

-- An inode without extents, with the flags given.
abbrev bare : (flags : ℕ) → Inode
bare flags = record {
  ino = 5;
  size = 9;
  atime = 0;
  mtime = 0;
  version = 1;
  flags = flags;
  refcount = 0;
  num_exts = 0;
  flayout = leaf;
  chain = [];
  exts = λ _. record { dobj = 0; off_f = 0; off_do = 0; length = 0 };
  next_ext = 0;
  do_map = [];
  dobs = λ _. record { host_id = 0; loid = 0; refs = []; num_refs = 0 };
  next_dob = 0;
  sent = [];
  halted = false;
}

abbrev locked_once : Inode
locked_once = (on_inode env (read_dobj 1 7) (bare 0)).inode

drain_lock_example :
    (Inode.is_dlocked locked_once ≡ true)
    × ((on_inode env (read_dobj 1 8) locked_once).ret ≡ minus is_dlocked)
    × ((on_inode env (read_dobj 1 8) locked_once).inode.flags ≡ locked_once.flags)
    × (Inode.is_dlocked (on_inode env release_drain_lock locked_once).inode ≡ false)
    × ((on_inode env release_drain_lock locked_once).ret ≡ code success)
drain_lock_example = drain_lock env env 1 7 1 8 (bare 0) refl refl

abbrev opened_closed : Inode → Inode
opened_closed i = (on_inode env unref (on_inode env (read_inode_meta 1) i).inode).inode

open-close_example :
    ((on_inode env unref (on_inode env (read_inode_meta 1) (bare 0)).inode).ret ≡ code success)
    × ((opened_closed (bare 0)).refcount ≡ 0)
    × ((on_inode env unref (on_inode env (read_inode_meta 1) (bare 0)).inode).free
        ≡ is_unused (bare 0))
    × (Inode.is_deleted (opened_closed (bare 0)) ≡ is_unused (bare 0))
    × ((opened_closed (bare 0)).flayout ≡ leaf)
open-close_example = open-close env env (bare 0) refl

-- A container with one inode, number 5, and a server with it.
abbrev one : Container
one = record { inodes = λ _. bare 0; inode_map = 0 ∷ []; next = 1; dead = false }

one-IsContainer : IsContainer one
one-IsContainer = record { below = (omega arith, tt); unique = (refl, tt) }

create_inode-acquire_example :
    IsContainer (create_inode 6 100 one).0
    × (acquire_inode 6 (create_inode 6 100 one).0 ≡ some (create_inode 6 100 one).1)
create_inode-acquire_example = create_inode-acquire 6 100 one one-IsContainer

abbrev table : List Item
table = (3, 30) ∷ (4, 40) ∷ []

serve-refines_example :
    IsTable (serve_map (put (some (5, 50))) table).0
    × ((j : ℕ)
        → find j (serve_map (put (some (5, 50))) table).0
          ≡ spec_keys (put (some (5, 50))) (λ k. find k table) j)
    × ((serve_map (put (some (5, 50))) table).1
        ≡ spec_reply (put (some (5, 50))) (λ k. find k table))
serve-refines_example = serve-refines (put (some (5, 50))) table (refl, (refl, tt))

restore-do_backup_example : restore (do_backup table) [] ≡ table
restore-do_backup_example = restore-do_backup table

abbrev numbers : NumbersLeft
numbers = record { inodebase = 2 * 2 ^ 32 + 9; inodemax = 2 * 2 ^ 32 + 0xffff_ffff }

numbers-IsBlock : IsBlock 2 numbers
numbers-IsBlock = omega arith

create_inode_withms-IsBlock_example : IsBlock 2 (create_inode_withms true 5 numbers table).0
create_inode_withms-IsBlock_example =
    create_inode_withms-IsBlock 2 true 5 numbers table numbers-IsBlock

makes : (create_inode_withms true 5 numbers table).2.0 ≡ some (2 * 2 ^ 32 + 9)
unfolding create_inode_withms serve_map find
makes = refl

create_inode_withms-fresh_example :
    ((2 * 2 ^ 32 + 9) / u32_mod ≡ 2)
    × (2 * 2 ^ 32 + 9 ≤ 2 * 2 ^ 32 + 9)
    × (2 * 2 ^ 32 + 9 < (create_inode_withms true 5 numbers table).0.inodebase)
    × (find 5 (create_inode_withms true 5 numbers table).1 ≡ some (2 * 2 ^ 32 + 9))
create_inode_withms-fresh_example =
    create_inode_withms-fresh 2 true 5 numbers table (2 * 2 ^ 32 + 9) numbers-IsBlock makes

-- One job is accepted, started and done; then the server stops and a thread ends.
abbrev job : Job
job = (0, 4)

abbrev queue_end : Pool
queue_end = record (record (take_job (accept_job job start).0) { cont = false }) { finished = 1 }

ends : Reach queue_end
unfolding start accept_job take_job fill_pool
ends = step (step (step (step initial (accept job refl)) take) stop) (thread_ends refl refl)

Reach-IsPool_example : IsPool queue_end
Reach-IsPool_example = Reach-IsPool ends

one_ended : 0 < queue_end.finished
unfolding start accept_job take_job fill_pool
one_ended = omega arith

finished-all_example : (queue_end.accepted ≡ queue_end.started) × (queue_end.cont ≡ false)
finished-all_example = finished-all ends one_ended

abbrev queued_one : Pool
queued_one = (accept_job job start).0

queued_one-Reach : Reach queued_one
unfolding start
queued_one-Reach = step initial (accept job refl)

one_look : length queued_one.wq ≤ 1
unfolding start accept_job fill_pool
one_look = omega arith

started-in_time_example : IsPrefix queued_one.accepted (take_job queued_one).started
started-in_time_example = started-in_time queued_one-Reach (look here) one_look
