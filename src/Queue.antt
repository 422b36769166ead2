-- ===== src/Queue.antt =====
-- The work queue of inserver.c: the accepting loop of `main` and the loop of `worker_thread`, as
-- the threads' critical sections under `wq_mut` and `rq_mut`. A `struct wqentry` is a number, its
-- fields stand in `entry`; the list at `rqhead` and the list from `wqhead` to `wqtail` are lists.
pub mod Fifo
pub mod Progress
use pado_fs.Base.{
  ℕ, zero, suc, ◌+◌, ◌≡◌, Bool, true, false, Option, none, some, List, [], ◌∷◌, ◌++◌, ◌==◌,
  if◌then◌else◌,
}
use pado_fs.Base.Distinct.{has, erase}
use pado_fs.Codes.{InsRet, queued, server_busy}
use pado_fs.Inode.{update}

-- `WQ_LENGTH` and `NUM_THREADS`
abbrev pub wq_length : ℕ
wq_length = 128

abbrev pub num_threads : ℕ
num_threads = 4

-- `com` and `fd` of an entry.
abbrev pub Job : Type 0
Job = ℕ × ℕ

pub record Pool : Type 0 where
  pub rq : List ℕ
  pub wq : List ℕ
  pub entry : ℕ → Job
  -- The entries that threads have taken off the queue and not yet given back to `rqhead`.
  pub taken : List ℕ
  pub cont : Bool
  -- The number of threads that have left their loop.
  pub finished : ℕ
  -- The jobs answered `QUEUED` and the jobs that threads work on or have done, in order.
  pub accepted : List Job
  pub started : List Job

-- The loop of `main` that fills `rqhead`.
unfoldable pub fill_pool : ℕ → List ℕ
fill_pool zero = []
fill_pool (suc n) = n ∷ fill_pool n

unfoldable pub start : Pool
start = record {
  rq = fill_pool wq_length;
  wq = [];
  entry = λ _. (0, 0);
  taken = [];
  cont = true;
  finished = 0;
  accepted = [];
  started = [];
}

-- `main` on a request that is not one of the two that stop the server.
unfoldable pub accept_job : Job → Pool → Pool × InsRet
accept_job j p = elim p.rq [
  | [] ↦ (p, server_busy)
  | e ∷ rest ↦ (
    record p {
      rq = rest;
      wq = p.wq ++ e ∷ [];
      entry = update p.entry e j;
      accepted = p.accepted ++ j ∷ [];
    },
    queued,
  )
]

-- A thread takes the first entry.
unfoldable pub take_job : Pool → Pool
take_job p = elim p.wq [
  | [] ↦ p
  | e ∷ rest ↦ record p { wq = rest; taken = e ∷ p.taken; started = p.started ++ p.entry e ∷ [] }
]

-- A thread gives an entry back.
unfoldable pub give_back : ℕ → Pool → Pool
give_back e p = record p { rq = e ∷ p.rq; taken = erase e p.taken }

-- The steps of the threads; `main` accepts until it stops.
pub data Step (p : Pool) : Pool → Type 0 where
  accept : (j : Job) → p.cont ≡ true → Step p (accept_job j p).0
  take : Step p (take_job p)
  give : (e : ℕ) → has e p.taken ≡ true → Step p (give_back e p)
  stop : Step p (record p { cont = false })
  finish : p.wq ≡ [] → p.cont ≡ false → Step p (record p { finished = p.finished + 1 })

pub data Reach : Pool → Type 0 where
  initial : Reach start
  step : {p q : Pool} → Reach p → Step p q → Reach q
