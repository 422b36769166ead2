-- ===== src/Queue/Fifo.antt =====
-- The order of the work queue, over the reachable states of Queue.antt (inserver.c: `main`,
-- `worker_thread`).
use pado_fs.Base.{
  ℕ, zero, suc, ◌+◌, ◌≤◌, ◌<◌, ◌≡◌, ◌⊎◌, inl, inr, refl, sym, ap, ap₂, subst, List-cases, ◌∙◌, true,
  false, List, [], ◌∷◌, ◌++◌, map, arith, ◌==◌, length, length-append, if◌then◌else◌, append_assoc,
  append-nil,
}
use pado_fs.Base.Distinct.{has, erase, length-erase}
use pado_fs.Inode.{update}
use pado_fs.Queue.{
  Pool, Job, Step, accept, take, give, stop, finish, Reach, initial, step, start, fill_pool,
  accept_job, take_job, give_back, wq_length,
}

abbrev pub count : ℕ → List ℕ → ℕ
count e [] = 0
count e (x ∷ xs) = (if e == x then 1 else 0) + count e xs

count-append : (e : ℕ) (xs ys : List ℕ) → count e (xs ++ ys) ≡ count e xs + count e ys
count-append e [] ys = omega arith
count-append e (x ∷ xs) ys = omega (arith, count-append e xs ys)

count-erase :
    (e x : ℕ) (xs : List ℕ)
    → has x xs ≡ true
    → count e (erase x xs) + (if e == x then 1 else 0) ≡ count e xs
unfolding erase
count-erase e x [] h = cc
count-erase e x (y ∷ ys) h = ground (arith, count-erase e x ys)

map-update :
    (f : ℕ → Job) (e : ℕ) (j : Job) (xs : List ℕ)
    → count e xs ≡ 0
    → map (update f e j) xs ≡ map f xs
map-update f e j [] h = refl
map-update f e j (x ∷ xs) h = ground (arith, map-update f e j xs)

pub accept_job-none : (j : Job) (p : Pool) → p.rq ≡ [] → (accept_job j p).0 ≡ p
unfolding accept_job
accept_job-none j p h = ground arith

pub take_job-none : (p : Pool) → p.wq ≡ [] → take_job p ≡ p
unfolding take_job
take_job-none p h = ground arith

-- The places of the entries, the order of the jobs, and what the end of a thread says.
pub record IsPool (p : Pool) : Type 0 where
  pub once : (e : ℕ) → count e p.rq + count e p.wq + count e p.taken ≤ 1
  pub all : length p.rq + length p.wq + length p.taken ≡ wq_length
  pub order : p.accepted ≡ p.started ++ map p.entry p.wq
  pub ended : (p.finished ≡ 0) ⊎ ((p.cont ≡ false) × (p.wq ≡ []))

count-fill_pool : (e n : ℕ) → (count e (fill_pool n) ≤ 1) × (n ≤ e → count e (fill_pool n) ≡ 0)
unfolding fill_pool
count-fill_pool e zero = (omega arith, λ h. refl)
count-fill_pool e (suc n) =
    let (a, b) = count-fill_pool e n in (ground arith, λ h. ground (arith, b))

start-IsPool : IsPool start
unfolding start fill_pool
start-IsPool = record {
  once = λ e. let (a, b) = count-fill_pool e wq_length in omega arith;
  all = refl;
  order = refl;
  ended = inl refl;
}

pub accept_job-some :
    (j : Job) (p : Pool) (e : ℕ) (rest : List ℕ)
    → p.rq ≡ e ∷ rest
    → (accept_job j p).0 ≡ record p {
      rq = rest;
      wq = p.wq ++ e ∷ [];
      entry = update p.entry e j;
      accepted = p.accepted ++ j ∷ [];
    }
unfolding accept_job
accept_job-some j p e rest h = ground arith

pub take_job-some :
    (p : Pool) (e : ℕ) (rest : List ℕ)
    → p.wq ≡ e ∷ rest
    → take_job p
      ≡ record p { wq = rest; taken = e ∷ p.taken; started = p.started ++ p.entry e ∷ [] }
unfolding take_job
take_job-some p e rest h = ground arith

map-snoc : (f : ℕ → Job) (xs : List ℕ) (x : ℕ) → map f (xs ++ x ∷ []) ≡ map f xs ++ f x ∷ []
map-snoc f [] x = refl
map-snoc f (y ∷ ys) x = ap (λ zs. f y ∷ zs) (map-snoc f ys x)

update_self : (f : ℕ → Job) (e : ℕ) (j : Job) → update f e j e ≡ j
update_self f e j = ground arith

accept-IsPool : (j : Job) (p : Pool) → p.cont ≡ true → IsPool p → IsPool (accept_job j p).0
accept-IsPool j p c v = elim (List-cases p.rq) [
  | inl h ↦ subst IsPool (sym (accept_job-none j p h)) v
  | inr (e, rest, h) ↦
      let n : (x : ℕ) → count x p.rq ≡ (if x == e then 1 else 0) + count x rest =
        λ x. ap (count x) h in
      let fresh : count e p.wq ≡ 0 = let a = v.once e in let b = n e in ground arith in
      subst IsPool (sym (accept_job-some j p e rest h)) (record {
        once = λ x.
            let a = v.once x in let b = n x in let d = count-append x p.wq (e ∷ []) in omega arith;
        all =
            let a = v.all in
            let b = ap length h in let d = length-append p.wq (e ∷ []) in omega arith;
        order =
            ap (λ zs. zs ++ j ∷ []) v.order
            ∙ (append_assoc p.started (map p.entry p.wq) (j ∷ [])
                ∙ ap (λ zs. p.started ++ zs)
                    (ap₂ (λ us u. us ++ u ∷ []) (sym (map-update p.entry e j p.wq fresh))
                        (sym (update_self p.entry e j))
                      ∙ sym (map-snoc (update p.entry e j) p.wq e)));
        ended = elim v.ended [ inl z ↦ inl z | inr z ↦ absurd (ground arith) ];
      })
]

pub take-IsPool : (p : Pool) → IsPool p → IsPool (take_job p)
take-IsPool p v = elim (List-cases p.wq) [
  | inl h ↦ subst IsPool (sym (take_job-none p h)) v
  | inr (e, rest, h) ↦
      let n : (x : ℕ) → count x p.wq ≡ (if x == e then 1 else 0) + count x rest =
        λ x. ap (count x) h in
      subst IsPool (sym (take_job-some p e rest h)) (record {
        once = λ x. let a = v.once x in let b = n x in omega arith;
        all = let a = v.all in let b = ap length h in omega arith;
        order =
            v.order
            ∙ (ap (λ zs. p.started ++ map p.entry zs) h
                ∙ sym (append_assoc p.started (p.entry e ∷ []) (map p.entry rest)));
        ended = elim v.ended [ inl z ↦ inl z | inr z ↦ absurd (ground arith) ];
      })
]

pub Step-IsPool : {p q : Pool} → Step p q → IsPool p → IsPool q
unfolding give_back
Step-IsPool {p} (accept j c) v = accept-IsPool j p c v
Step-IsPool {p} take v = take-IsPool p v
Step-IsPool {p} (give e h) v = record {
  once = λ x. let q = v.once x in let k = count-erase x e p.taken h in omega arith;
  all = let k = length-erase e p.taken h in let q = v.all in omega arith;
  order = v.order;
  ended = v.ended;
}
Step-IsPool stop v = record {
  once = v.once;
  all = v.all;
  order = v.order;
  ended = elim v.ended [ inl z ↦ inl z | inr z ↦ inr (refl, z.1) ];
}
Step-IsPool (finish e c) v = record {
  once = v.once;
  all = v.all;
  order = v.order;
  ended = inr (c, e);
}

-- In every reachable state no entry stands twice among the free, the queued and the taken
-- entries, there are 128 of these, the jobs accepted are those started followed by those still
-- queued, in order, and where a thread has ended nothing is queued and nothing more is accepted.
pub Reach-IsPool : {p : Pool} → Reach p → IsPool p
Reach-IsPool initial = start-IsPool
Reach-IsPool (step r s) = Step-IsPool s (Reach-IsPool r)

-- In every reachable state in which a thread has ended, the jobs that were answered `QUEUED` are
-- the jobs started, in the same order, and the server has stopped.
pub finished-all :
    {p : Pool} → Reach p → 0 < p.finished → (p.accepted ≡ p.started) × (p.cont ≡ false)
finished-all {p} r h =
    let v = Reach-IsPool r in
    elim v.ended [
      | inl z ↦ absurd (omega arith)
      | inr (c, w) ↦
          (v.order ∙ (ap (λ zs. p.started ++ map p.entry zs) w ∙ append-nil p.started), c)
    ]
