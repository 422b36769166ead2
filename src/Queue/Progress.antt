-- ===== src/Queue/Progress.antt =====
-- How long a job waits in the work queue of inserver.c (`main`, `worker_thread`).
use pado_fs.Base.{
  ℕ, suc, ◌+◌, ◌-◌, ◌≤◌, ◌≡◌, inl, inr, refl, sym, ap, ap₂, ◌∙◌, subst, List, [], ◌∷◌, ◌++◌, map,
  arith, length, length-append, append_assoc, append-nil, List-cases,
}
use pado_fs.Queue.{
  Pool, Job, Step, accept, take, give, stop, finish, Reach, accept_job, take_job, give_back,
}
use pado_fs.Queue.Fifo.{
  IsPool, Reach-IsPool, Step-IsPool, accept_job-none, accept_job-some, take_job-none, take_job-some,
}

-- A run from `p`, with the number of times that a thread looked for a job.
pub data Run (p : Pool) : ℕ → Pool → Type 0 where
  here : Run p 0 p
  look : {n : ℕ} {q : Pool} → Run p n q → Run p (n + 1) (take_job q)
  other : {n : ℕ} {q r : Pool} → Run p n q → Step q r → Run p n r

-- The jobs `xs` come first in `ys`.
abbrev pub IsPrefix : List Job → List Job → Type 0
IsPrefix xs ys = (zs : List Job) × (ys ≡ xs ++ zs)

IsPrefix-snoc : (xs ys : List Job) (j : Job) → IsPrefix xs ys → IsPrefix xs (ys ++ j ∷ [])
IsPrefix-snoc xs ys j (zs, e) =
    (zs ++ j ∷ [], ap (λ us. us ++ j ∷ []) e ∙ append_assoc xs zs (j ∷ []))

-- Of two lists that begin one list, the shorter one begins the other.
IsPrefix-shorter :
    (xs ys zs us : List Job) → xs ++ zs ≡ ys ++ us → length xs ≤ length ys → IsPrefix xs ys
IsPrefix-shorter [] ys zs us e h = (ys, refl)
IsPrefix-shorter (x ∷ xs) [] zs us e h = absurd (omega arith)
IsPrefix-shorter (x ∷ xs) (y ∷ ys) zs us e h =
    let f : x ≡ y = cc in
    let g : xs ++ zs ≡ ys ++ us = cc in
    let (vs, k) = IsPrefix-shorter xs ys zs us g (omega arith) in
    (vs, ap₂ (λ a as'. a ∷ as') (sym f) k)

-- What a run keeps: no accepted job is lost, and each look brings the jobs of `p` nearer.
record Waits (p : Pool) (n : ℕ) (q : Pool) : Type 0 where
  valid : IsPool q
  accepted : IsPrefix p.accepted q.accepted
  nearer : length p.accepted ≤ length q.started + (length p.wq - n)

IsPrefix-length : (xs ys : List Job) → IsPrefix xs ys → length xs ≤ length ys
IsPrefix-length xs ys (zs, e) = let a = ap length e in let b = length-append xs zs in omega arith

look-Waits : (p q : Pool) (n : ℕ) → Waits p n q → IsPool (take_job q) → Waits p (n + 1) (take_job q)
look-Waits p q n w v = elim (List-cases q.wq) [
  | inl e ↦
      let s : q.accepted ≡ q.started =
        w.valid.order ∙ (ap (λ zs. q.started ++ map q.entry zs) e ∙ append-nil q.started) in
      let l = IsPrefix-length p.accepted q.accepted w.accepted in
      let m = ap length s in
      subst (Waits p (n + 1)) (sym (take_job-none q e))
        (record { valid = w.valid; accepted = w.accepted; nearer = omega arith })
  | inr (x, rest, e) ↦
      let l = length-append q.started (q.entry x ∷ []) in
      let m = w.nearer in
      subst (Waits p (n + 1)) (sym (take_job-some q x rest e)) (record {
        valid = subst IsPool (take_job-some q x rest e) v;
        accepted = w.accepted;
        nearer = omega arith;
      })
]

accept-Waits :
    (p q : Pool) (n : ℕ) (j : Job)
    → Waits p n q
    → IsPool (accept_job j q).0
    → Waits p n (accept_job j q).0
accept-Waits p q n j w v = elim (List-cases q.rq) [
  | inl e ↦ subst (Waits p n) (sym (accept_job-none j q e)) w
  | inr (x, rest, e) ↦ subst (Waits p n) (sym (accept_job-some j q x rest e)) (record {
    valid = subst IsPool (accept_job-some j q x rest e) v;
    accepted = IsPrefix-snoc p.accepted q.accepted j w.accepted;
    nearer = w.nearer;
  })
]

step-Waits : {p q r : Pool} {n : ℕ} → Waits p n q → Step q r → Waits p n r
unfolding give_back
step-Waits {p} {q} {n = n} w (accept j c) =
    accept-Waits p q n j w (Step-IsPool (accept j c) w.valid)
step-Waits {p} {q} {n = n} w take =
    let k = look-Waits p q n w (Step-IsPool take w.valid) in
    let h = k.nearer in record { valid = k.valid; accepted = k.accepted; nearer = omega arith }
step-Waits w (give e h) = record {
  valid = Step-IsPool (give e h) w.valid;
  accepted = w.accepted;
  nearer = w.nearer;
}
step-Waits w stop = record {
  valid = Step-IsPool stop w.valid;
  accepted = w.accepted;
  nearer = w.nearer;
}
step-Waits w (finish e c) = record {
  valid = Step-IsPool (finish e c) w.valid;
  accepted = w.accepted;
  nearer = w.nearer;
}

Run-Waits : {p q : Pool} {n : ℕ} → IsPool p → Run p n q → Waits p n q
Run-Waits {p} v here =
    let a = ap length v.order in
    let b = length-append p.started (map p.entry p.wq) in
    let c = length-map p.entry p.wq in
    record { valid = v; accepted = ([], sym (append-nil p.accepted)); nearer = omega arith }
  where
    length-map : (f : ℕ → Job) (xs : List ℕ) → length (map f xs) ≡ length xs
    length-map f [] = refl
    length-map f (x ∷ xs) = ap suc (length-map f xs)
Run-Waits {p} v (look {n} {q} r) =
    let w = Run-Waits v r in look-Waits p q n w (Step-IsPool take w.valid)
Run-Waits v (other r s) = step-Waits (Run-Waits v r) s

-- From a reachable state, in every run in which threads look for a job at least as often as there
-- are jobs queued in that state, whatever else happens in between, every job accepted by then is
-- started, and in the order of acceptance.
pub started-in_time :
    {p q : Pool} {n : ℕ} → Reach p → Run p n q → length p.wq ≤ n → IsPrefix p.accepted q.started
started-in_time {p} {q} r k h =
    let w = Run-Waits (Reach-IsPool r) k in
    let (zs, e) = w.accepted in
    let l = w.nearer in
    IsPrefix-shorter p.accepted q.started zs (map q.entry q.wq) (sym e ∙ w.valid.order)
      (omega arith)
