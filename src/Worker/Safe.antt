-- ===== src/Worker/Safe.antt =====
-- Requests to a server (inserver.c: `worker_thread`), one after another: no assertion ever fails.
use pado_fs.Base.{
  ℕ, ◌+◌, ◌≡◌, refl, sym, subst, Bool, false, not, ◌&&◌, ◌||◌, none, some, arith, ◌==◌,
  if◌then◌else◌, Option-cases, inl, inr, if-elim,
}
use pado_fs.Codes.{Ret}
use pado_fs.Inode.{Env, update}
use pado_fs.Container.{
  Container, create_inode, acquire_inode, free_inode, set_inode, empty_container,
}
use pado_fs.Container.Deleted.{IsFreeable, flags-IsSound, times-IsSound}
use pado_fs.Worker.{
  Command, create_open_inode, write, truncate, read_layout, clone_to, read_inode_meta,
  read_inode_whole, read_dobj, release_drain_lock, remove_dobj, get_inode_dobj, delete_inode, unref,
  other, Handled, Body, Server, Locking, unlocked, released, kept, Outcome, replied, blocked,
  aborted, on_missing, on_inode, on_create_open, locking, finish, serve,
}
use pado_fs.Worker.Sound.{Fits, Kept, on_inode-Kept}
use pado_fs.Container.{stageout_all}
use pado_fs.Container.Safe.{
  IsSafe, new_inode-IsSound, set_inode-IsSafe, create_inode-IsSafe, free_inode-IsSafe,
  stageout_all-IsSafe,
}

-- What a request leaves, if it does not have to wait; it must not end the process.
abbrev pub Leaves : (Server → Type 0) → Outcome → Type 0
Leaves P (replied s b r) = P s
Leaves P blocked = Unit
Leaves P aborted = ⊥

abbrev pub AreSafe : Server → Type 0
AreSafe s = IsSafe s.container

unless_failed :
    (failed : Bool) (c : Container) (held : ℕ → Bool) (b : Body) (r : Ret)
    → failed ≡ false
    → IsSafe c
    → Leaves AreSafe
        (if failed || c.dead then aborted else replied (record { container = c; held = held }) b r)
unless_failed failed c held b r e k =
    let d = k.alive in let f : (failed || c.dead) ≡ false = ground arith in rw f k

finish-Leaves :
    (h : ℕ) (r : Handled) (l : Locking) (s : Server)
    → AreSafe s
    → Kept r
    → Leaves AreSafe (finish h r l s)
unfolding finish
finish-Leaves h r l s a k =
    let c = set_inode h r.inode s.container in
    let b = set_inode-IsSafe h r.inode s.container k.sound a in
    let b' : IsSafe (if r.free then free_inode h c else c) =
      if-elim IsSafe r.free
        (λ e.
          let here : update s.inodes h r.inode h ≡ r.inode = ground arith in
          free_inode-IsSafe h c b (subst IsFreeable (sym here) (k.freeable e)))
        (λ _. b) in
    unless_failed r.inode.halted (if r.free then free_inode h c else c) _ r.body r.ret k.sound.alive
      b'

on_create_open-IsSafe :
    (ino size flags flags' at mt ver : ℕ) (c : Container)
    → IsSafe c
    → IsSafe (on_create_open ino size flags flags' at mt ver c).0
unfolding on_create_open
on_create_open-IsSafe ino size flags flags' at mt ver c k =
    let r = create_inode ino size c in
    let a = create_inode-IsSafe ino size c k in
    let i = r.0.inodes r.1 in
    let s = a.inodes r.1 in
    let P = λ (q : Container × Body × Ret). IsSafe q.0 in
    let opened = flags-IsSound i.flags (i.refcount + 1) i s in
    if-elim P (flags == 0)
      (λ _.
        set_inode-IsSafe r.1 _ r.0 (times-IsSound at mt ver _ (flags-IsSound flags' i.refcount i s))
          a)
      (λ _.
        if-elim P (flags == 1) (λ _. set_inode-IsSafe r.1 _ r.0 opened a)
          (λ _. set_inode-IsSafe r.1 _ r.0 opened a))

-- A request for the inode `tino` fits if it fits the inode of that number, if there is one.
abbrev pub FitsIn : Env → ℕ → Command → Server → Type 0
FitsIn env tino cmd s =
    (h : ℕ) → acquire_inode tino s.container ≡ some h → Fits env cmd (s.inodes h)

answered-Leaves :
    (env : Env) (tino : ℕ) (cmd : Command) (s : Server)
    → AreSafe s
    → FitsIn env tino cmd s
    → Leaves AreSafe (elim (acquire_inode tino s.container) [
      | none ↦ replied s (on_missing cmd).0 (on_missing cmd).1
      | some h ↦
          let l = locking cmd in
          let done = finish h (on_inode env cmd (s.inodes h)) l s in
          elim l [ unlocked ↦ done | _ ↦ if s.held h then blocked else done ]
    ])
answered-Leaves env tino cmd s a f = elim (Option-cases (acquire_inode tino s.container)) [
  | inl e ↦ rw e a
  | inr (h, e) ↦ rw e (
      waits (locking cmd) (s.held h) _ (
        finish-Leaves h _ (locking cmd) s a
          (on_inode-Kept env cmd (s.inodes h) (a.inodes h) (f h e))))
]
  where
    waits :
        (l : Locking) (b : Bool) (o : Outcome)
        → Leaves AreSafe o
        → Leaves AreSafe (elim l [ unlocked ↦ o | _ ↦ if b then blocked else o ])
    waits unlocked b o k = k
    waits released b o k = if-elim (Leaves AreSafe) b (λ _. tt) (λ _. k)
    waits kept b o k = if-elim (Leaves AreSafe) b (λ _. tt) (λ _. k)

-- A request that fits, to a server all of whose inodes are in order and that has not failed an
-- assertion: the request has to wait for a lock, or it leaves all inodes in order, and no assertion
-- has failed.
pub serve-AreSafe :
    (env : Env) (tino : ℕ) (cmd : Command) (s : Server)
    → AreSafe s
    → FitsIn env tino cmd s
    → Leaves AreSafe (serve env tino cmd s)
unfolding serve
serve-AreSafe env tino (create_open_inode size flags flags' at mt ver) s a f =
    let h = (create_inode tino size s.container).1 in
    if-elim (Leaves AreSafe) (not (flags == 0) && s.held h) (λ _. tt)
      (λ _. on_create_open-IsSafe tino size flags flags' at mt ver s.container a)
serve-AreSafe env tino (write hid loid off_f off_do len) s a f =
    answered-Leaves env tino (write hid loid off_f off_do len) s a f
serve-AreSafe env tino (truncate off_f) s a f = answered-Leaves env tino (truncate off_f) s a f
serve-AreSafe env tino (read_layout off_f len flags) s a f =
    answered-Leaves env tino (read_layout off_f len flags) s a f
serve-AreSafe env tino (clone_to off_f len ss) s a f =
    answered-Leaves env tino (clone_to off_f len ss) s a f
serve-AreSafe env tino (read_inode_meta flags) s a f =
    answered-Leaves env tino (read_inode_meta flags) s a f
serve-AreSafe env tino (read_inode_whole flags ver) s a f =
    answered-Leaves env tino (read_inode_whole flags ver) s a f
serve-AreSafe env tino (read_dobj hid loid) s a f =
    answered-Leaves env tino (read_dobj hid loid) s a f
serve-AreSafe env tino release_drain_lock s a f = answered-Leaves env tino release_drain_lock s a f
serve-AreSafe env tino (remove_dobj hid loid flags) s a f =
    answered-Leaves env tino (remove_dobj hid loid flags) s a f
serve-AreSafe env tino get_inode_dobj s a f = answered-Leaves env tino get_inode_dobj s a f
serve-AreSafe env tino delete_inode s a f = answered-Leaves env tino delete_inode s a f
serve-AreSafe env tino unref s a f = answered-Leaves env tino unref s a f
serve-AreSafe env tino other s a f = answered-Leaves env tino other s a f

-- A server without inodes, none of which is locked.
abbrev pub started : Server
started = record { container = empty_container; held = λ _. false }

pub started-AreSafe : AreSafe started
started-AreSafe = record { inodes = λ h. new_inode-IsSound 0 0; alive = refl }

-- The servers that requests lead to, each of which fits the server that it meets, and
-- `stageout_all`, which `main` calls in the end.
pub data Reached : Server → Type 0 where
  initial : Reached started
  request :
      {s t : Server} (env : Env) (tino : ℕ) (cmd : Command) (b : Body) (r : Ret)
      → Reached s
      → FitsIn env tino cmd s
      → serve env tino cmd s ≡ replied t b r
      → Reached t
  drained :
      {s : Server} (env : Env)
      → Reached s
      → Reached (record s { container = stageout_all env s.container })

Reached-is_safe : (t : Server) → Reached t → AreSafe t
Reached-is_safe t initial = started-AreSafe
Reached-is_safe t (request {s} env tino cmd b r h f e) =
    subst (Leaves AreSafe) e (serve-AreSafe env tino cmd s (Reached-is_safe s h) f)
Reached-is_safe t (drained {s} env h) = stageout_all-IsSafe env s.container (Reached-is_safe s h)

-- Whatever requests a server that starts without inodes answers, each of which fits the inode that
-- it is for, and wherever it calls `stageout_all`: the layouts of all inodes are in order, their
-- data objects list their extents, each once, the counters say how many there are, and no assertion
-- has failed, neither of the operations on an inode nor of `free_inode`. One more request that fits
-- fails no such assertion either: it has to wait for a lock, or it is answered and leaves a server
-- of which the same holds.
pub Reached-AreSafe :
    (t : Server) (env : Env) (tino : ℕ) (cmd : Command)
    → Reached t
    → FitsIn env tino cmd t
    → AreSafe t × Leaves AreSafe (serve env tino cmd t)
Reached-AreSafe t env tino cmd h f =
    let a = Reached-is_safe t h in (a, serve-AreSafe env tino cmd t a f)
