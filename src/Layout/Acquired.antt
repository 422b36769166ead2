-- ===== src/Layout/Acquired.antt =====
-- `acquire_dobject` (incont.c) with flag 2, as `pado_clone` calls it.
use pado_fs.Base.{
  ℕ, ◌+◌, ◌<◌, ◌≡◌, refl, sym, ◌∙◌, subst, Option, some, List, [], ◌∷◌, ◌++◌, arith, All-append,
  Option-cases, inl, inr,
}
use pado_fs.Codes.{Request, Ret, add_link}
use pado_fs.Inode.{Inode, Env, update}
use pado_fs.Inode.Extents.{find_dobject, acquire_dobject, or_new_linked, request}
use pado_fs.Layout.Same.{request-IsSame}
use pado_fs.Layout.Content.{Below}
use pado_fs.Layout.Put.{Below-suc}
use pado_fs.Layout.Places.{HasNames, HasNames-trans, find_dobject-some}

-- Every data object server can be connected, whatever it then replies.
abbrev pub IsUp : Env → Type 0
IsUp env = (qs : List Request) (q : Request) → (r : Ret) × (env.dos qs q ≡ some r)

-- What `acquire_dobject(..., 2)` gives where the server can be connected.
pub record Linked (hid loid : ℕ) (i : Inode) (r : Inode × Option ℕ) : Type 0 where
  pub dobj : ℕ
  pub given : r.1 ≡ some dobj
  pub made : dobj < r.0.next_dob
  pub host : (r.0.dobs dobj).host_id ≡ hid
  pub object : (r.0.dobs dobj).loid ≡ loid
  pub names : HasNames i r.0
  pub chain : r.0.chain ≡ i.chain
  pub flayout : r.0.flayout ≡ i.flayout
  pub exts : r.0.exts ≡ i.exts
  pub next_ext : r.0.next_ext ≡ i.next_ext

pub request-up :
    (env : Env) (q : Request) (i : Inode) → IsUp env → (r : Ret) × ((request env q i).1 ≡ some r)
unfolding request
request-up env q i u = let (r, e) = u i.sent q in (r, rw (e, request) refl)

-- A data object that `acquire_dobject` adds to the table.
abbrev pub added : (hid loid : ℕ) → Inode → Inode
added hid loid i = record i {
  do_map = i.do_map ++ i.next_dob ∷ [];
  dobs = update i.dobs i.next_dob (record { host_id = hid; loid = loid; refs = []; num_refs = 0 });
  next_dob = i.next_dob + 1;
}

added-HasNames : (hid loid : ℕ) (i : Inode) → HasNames i (added hid loid i)
added-HasNames hid loid i =
    let n = i.next_dob in
    record {
      next_dob = omega arith;
      table = λ h.
          All-append (λ x. x < n + 1) i.do_map (n ∷ []) (Below-suc n i.do_map h) (omega arith, tt);
      hosts = λ d l. ground arith;
      loids = λ d l. ground arith;
    }

pub acquire_dobject-Linked :
    (env : Env) (hid loid : ℕ) (i : Inode)
    → IsUp env
    → Below i.next_dob i.do_map
    → Linked hid loid i (acquire_dobject env hid loid or_new_linked i)
unfolding acquire_dobject
acquire_dobject-Linked env hid loid i u t =
    elim (Option-cases (find_dobject i.dobs hid loid i.do_map)) [
      | inr (d, e) ↦
          let (a, b, c) = find_dobject-some i.dobs hid loid i.next_dob i.do_map d t e in
          rw (e, acquire_dobject)
            (record {
              dobj = d;
              given = refl;
              made = a;
              host = b;
              object = c;
              names = record {
                next_dob = omega arith;
                table = λ h. h;
                hosts = λ d l. refl;
                loids = λ d l. refl;
              };
              chain = refl;
              flayout = refl;
              exts = refl;
              next_ext = refl;
            })
      | inl e ↦
          let n = i.next_dob in
          let a = added hid loid i in
          let q = add_link hid loid i.ino in
          let (reply, f) = request-up env q a u in
          let j = (request env q a).0 in
          let s = request-IsSame env q a in
          let host : (a.dobs n).host_id ≡ hid = ground arith in
          let object : (a.dobs n).loid ≡ loid = ground arith in
          let m = s.next_dob in
          rw (e, acquire_dobject, f)
            (record {
              dobj = n;
              given = refl;
              made = omega arith;
              host = s.hosts n ∙ host;
              object = s.loids n ∙ object;
              names = HasNames-trans i a j (added-HasNames hid loid i) (record {
                next_dob = omega arith;
                table = λ h. subst (λ k. Below k j.do_map) (sym m) (s.fewer (n + 1) h);
                hosts = λ d l. s.hosts d;
                loids = λ d l. s.loids d;
              });
              chain = s.chain;
              flayout = s.flayout;
              exts = s.exts;
              next_ext = s.next_ext;
            })
    ]
