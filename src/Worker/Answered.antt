-- ===== src/Worker/Answered.antt =====
-- Requests one after another (inserver.c: `worker_thread`), each of which is answered.
use pado_fs.Base.{
  ℕ, ◌≡◌, ◌≢◌, refl, subst, Bool, true, false, not, ◌||◌, ◌&&◌, ◌==◌, if◌then◌else◌, if-elim,
  Option-cases, inl, inr,
}
use pado_fs.Codes.{Ret}
use pado_fs.Inode.{Env}
use pado_fs.Container.{acquire_inode, free_inode, set_inode, stageout_all}
use pado_fs.Container.Safe.{stageout_all-IsSafe}
use pado_fs.Worker.{
  Command, create_open_inode, write, truncate, read_layout, clone_to, read_inode_meta,
  read_inode_whole, read_dobj, release_drain_lock, remove_dobj, get_inode_dobj, delete_inode, unref,
  other, Locking, unlocked, released, kept, locking, Handled, finish, Server, Outcome, replied,
  blocked, aborted, Body, serve,
}
use pado_fs.Worker.Safe.{AreSafe, Leaves, FitsIn, started, started-AreSafe, serve-AreSafe}

-- `READ_INODE_WHOLE` with flag 1
abbrev pub is_whole_open : Command → Bool
is_whole_open (read_inode_whole flags ver) = flags == 1
is_whole_open _ = false

-- No thread holds the lock of an inode for good.
abbrev pub IsFree : Server → Type 0
IsFree s = (h : ℕ) → s.held h ≡ false

-- The request does not wait, and if it is answered no lock is held for good.
abbrev Goes : Outcome → Type 0
Goes (replied s b r) = IsFree s
Goes blocked = ⊥
Goes aborted = Unit

-- The request is answered; the server is in order and no lock is held for good.
abbrev pub IsAnswered : Outcome → Type 0
IsAnswered o = (s : Server) × (b : Body) × (r : Ret) × (o ≡ replied s b r) × AreSafe s × IsFree s

Goes-IsAnswered : (o : Outcome) → Goes o → Leaves AreSafe o → IsAnswered o
Goes-IsAnswered (replied s b r) g a = (s, b, r, refl, a, g)
Goes-IsAnswered blocked g a = absurd g
Goes-IsAnswered aborted g a = absurd a

locking-released : (cmd : Command) → is_whole_open cmd ≡ false → locking cmd ≢ kept
unfolding locking
locking-released (read_inode_meta flags) e =
    if-elim (λ l. l ≢ kept) (flags == 1 || flags == 0) (λ _. cc) (λ _. cc)
locking-released (read_inode_whole flags ver) e =
    rw e (if-elim (λ l. l ≢ kept) (flags == 0) (λ _. cc) (λ _. cc))
locking-released (create_open_inode size flags flags' at mt ver) e = cc
locking-released (write hid loid off_f off_do len) e = cc
locking-released (truncate off_f) e = cc
locking-released (read_layout off_f len flags) e = cc
locking-released (clone_to off_f len ss) e = cc
locking-released (read_dobj hid loid) e = cc
locking-released release_drain_lock e = cc
locking-released (remove_dobj hid loid flags) e = cc
locking-released get_inode_dobj e = cc
locking-released delete_inode e = cc
locking-released unref e = cc
locking-released other e = cc

unless_aborted :
    (failed : Bool) (s : Server) (b : Body) (r : Ret)
    → IsFree s
    → Goes (if failed then aborted else replied s b r)
unless_aborted true s b r f = tt
unless_aborted false s b r f = f

finish-Goes :
    (h : ℕ) (r : Handled) (l : Locking) (s : Server) → IsFree s → l ≢ kept → Goes (finish h r l s)
unfolding finish
finish-Goes h r unlocked s f k =
    let c = set_inode h r.inode s.container in
    let c' = if r.free then free_inode h c else c in
    unless_aborted (r.inode.halted || c'.dead) (record { container = c'; held = s.held }) r.body
      r.ret f
finish-Goes h r released s f k =
    let c = set_inode h r.inode s.container in
    let c' = if r.free then free_inode h c else c in
    unless_aborted (r.inode.halted || c'.dead) (record { container = c'; held = s.held }) r.body
      r.ret f
finish-Goes h r kept s f k = absurd (k refl)

-- A request need not wait for a lock that is free.
locked-Goes :
    (l : Locking) (held : Bool) (o : Outcome)
    → held ≡ false
    → Goes o
    → Goes (elim l [ unlocked ↦ o | _ ↦ if held then blocked else o ])
locked-Goes unlocked held o e a = a
locked-Goes released held o e a = rw e a
locked-Goes kept held o e a = rw e a

opened-Goes :
    (asks held : Bool) (o : Outcome)
    → held ≡ false
    → Goes o
    → Goes (if asks && held then blocked else o)
opened-Goes true held o e a = rw e a
opened-Goes false held o e a = a

serve-Goes :
    (env : Env) (ino : ℕ) (cmd : Command) (s : Server)
    → IsFree s
    → is_whole_open cmd ≡ false
    → Goes (serve env ino cmd s)
unfolding serve
serve-Goes env ino (create_open_inode size flags flags' at mt ver) s f k =
    opened-Goes (not (flags == 0)) _ _ (f _) f
serve-Goes env ino cmd s f k = elim (Option-cases (acquire_inode ino s.container)) [
  | inl e ↦ rw (e, serve) f
  | inr (h, e) ↦
      rw (e, serve)
        (locked-Goes (locking cmd) (s.held h) _ (f h)
          (finish-Goes h _ (locking cmd) s f (locking-released cmd k)))
]

-- The servers that requests lead to, each of which fits the server that it meets and is not a
-- `READ_INODE_WHOLE` with flag 1, and `stageout_all`.
pub data Ready : Server → Type 0 where
  initial : Ready started
  request :
      {s t : Server} (env : Env) (tino : ℕ) (cmd : Command) (b : Body) (r : Ret)
      → Ready s
      → FitsIn env tino cmd s
      → is_whole_open cmd ≡ false
      → serve env tino cmd s ≡ replied t b r
      → Ready t
  drained :
      {s : Server} (env : Env)
      → Ready s
      → Ready (record s { container = stageout_all env s.container })

Ready-order : {t : Server} → Ready t → AreSafe t × IsFree t
Ready-order initial = (started-AreSafe, λ h. refl)
Ready-order (request {s} env tino cmd b r h f k e) =
    let (a, g) = Ready-order h in
    (
      subst (Leaves AreSafe) e (serve-AreSafe env tino cmd s a f),
      subst Goes e (serve-Goes env tino cmd s g k),
    )
Ready-order (drained {s} env h) =
    let (a, g) = Ready-order h in (stageout_all-IsSafe env s.container a, g)

-- A server that started without inodes and has answered any requests that fit, none of them a
-- `READ_INODE_WHOLE` with flag 1, and a further such request: it is answered, which means that it
-- neither waits for a lock nor fails an assertion, and afterwards no lock is held for good and the
-- layouts, references and counters of all inodes are in order.
pub Ready-IsAnswered :
    (t : Server) (env : Env) (tino : ℕ) (cmd : Command)
    → Ready t
    → FitsIn env tino cmd t
    → is_whole_open cmd ≡ false
    → IsAnswered (serve env tino cmd t)
Ready-IsAnswered t env tino cmd h f k =
    let (a, g) = Ready-order h in
    Goes-IsAnswered _ (serve-Goes env tino cmd t g k) (serve-AreSafe env tino cmd t a f)
