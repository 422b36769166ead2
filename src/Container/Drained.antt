-- ===== src/Container/Drained.antt =====
-- `stageout` (incont.c): what is sent to the data object servers.
use pado_fs.Base.{
  ℕ, ◌+◌, ◌≡◌, refl, sym, map, subst, ap, ◌∙◌, Option, none, some, List, [], ◌∷◌, if◌then◌else◌,
  Bool-cases, inl, inr,
}
use pado_fs.Codes.{
  Request, Ret, code, minus, dos_con_error, dos_fail, success, drain_do, drain_shared,
}
use pado_fs.Inode.{
  Extent, Inode, Env, is_shared, shared, deleted, set_bit, clear_bit, assert, unset_shared,
}
use pado_fs.Inode.Extents.{request, read_dobject, check_dobject}
use pado_fs.Container.{drain_objects, stageout_objects, stageout, is_success}

-- Every data object server can be connected and replies `SUCCESS`.
abbrev pub IsWilling : Env → Type 0
IsWilling env = (qs : List Request) (q : Request) → env.dos qs q ≡ some (code success)

-- Where each of these extents stands in the file and in its data object, and its length.
unfoldable pub ranges : (ℕ → Extent) → List ℕ → List (ℕ × ℕ × ℕ)
ranges f [] = []
ranges f (x ∷ xs) = ((f x).off_f, (f x).off_do, (f x).length) ∷ ranges f xs

-- The request that tells a server how many extents are mapped to one of its data objects, and which.
abbrev pub drain_of : Inode → ℕ → Request
drain_of i d = let o = i.dobs d in drain_do o.host_id o.loid (o.num_refs, ranges i.exts o.refs)

read_dobject-ranges :
    (i : Inode) (d : ℕ)
    → (read_dobject (some d) i).0 ≡ ((i.dobs d).num_refs, ranges i.exts (i.dobs d).refs)
unfolding read_dobject ranges
read_dobject-ranges i d = ap (λ rs. ((i.dobs d).num_refs, rs)) (map_ranges (i.dobs d).refs)
  where
    map_ranges :
        (xs : List ℕ)
        → map (λ x. ((i.exts x).off_f, (i.exts x).off_do, (i.exts x).length)) xs ≡ ranges i.exts xs
    map_ranges [] = refl
    map_ranges (x ∷ xs) =
        ap (λ rs. ((i.exts x).off_f, (i.exts x).off_do, (i.exts x).length) ∷ rs) (map_ranges xs)

-- These requests on top of the ones sent before.
unfoldable pub drains : Inode → List ℕ → List Request → List Request
drains i [] sent = sent
drains i (d ∷ ds) sent = drains i ds (drain_of i d ∷ sent)

request-willing :
    (env : Env) (q : Request) (i : Inode)
    → IsWilling env
    → request env q i ≡ (record i { sent = q ∷ i.sent }, some (code success))
unfolding request
request-willing env q i w = rw (w i.sent q, request) refl

drains-sent :
    (i j : Inode) (ds : List ℕ) (qs : List Request)
    → ((d : ℕ) → drain_of j d ≡ drain_of i d)
    → drains j ds qs ≡ drains i ds qs
unfolding drains
drains-sent i j [] qs e = refl
drains-sent i j (d ∷ ds) qs e =
    ap (λ q. drains j ds (q ∷ qs)) (e d) ∙ drains-sent i j ds (drain_of i d ∷ qs) e

-- What the loop over the data objects does.
record AreDrained (i : Inode) (ds : List ℕ) (r : Inode × Option ℕ) : Type 0 where
  sent : r.0.sent ≡ drains i ds i.sent
  flags : r.0.flags ≡ i.flags
  fails : r.1 ≡ some 0

drain_objects-AreDrained :
    (env : Env) (ds : List ℕ) (i : Inode) → IsWilling env → AreDrained i ds (drain_objects env ds i)
unfolding drain_objects drains
drain_objects-AreDrained env [] i w = record { sent = refl; flags = refl; fails = refl }
drain_objects-AreDrained env (d ∷ ds) i w =
    let b = check_dobject (i.dobs d) in
    let j = record (assert b i) { sent = drain_of i d ∷ i.sent } in
    let e =
      subst
        (λ rs.
          request env (drain_do (i.dobs d).host_id (i.dobs d).loid rs) (assert b i)
          ≡ (j, some (code success)))
        (sym (read_dobject-ranges i d)) (request-willing env (drain_of i d) (assert b i) w) in
    let k = drain_objects-AreDrained env ds j w in
    subst
      (λ (x : Inode × Option Ret). AreDrained i (d ∷ ds) (elim x.1 [
        | none ↦ (x.0, none)
        | some r ↦ (
          (drain_objects env ds x.0).0,
          elim (drain_objects env ds x.0).1 [
            | none ↦ none
            | some n ↦ some (if is_success r then n else n + 1)
          ],
        )
      ]))
      (sym e)
      (record {
        sent = k.sent ∙ drains-sent i j ds (drain_of i d ∷ i.sent) (λ d. refl);
        flags = k.flags;
        fails = rw k.fails refl;
      })

-- What `stageout` does to an inode.
pub record IsStagedOut (i : Inode) (r : Inode × Ret) : Type 0 where
  pub ret : r.1 ≡ code success
  pub sent :
      r.0.sent ≡ drains i i.do_map (if is_shared i then drain_shared i.ino ∷ i.sent else i.sent)
  pub flags : r.0.flags ≡ set_bit deleted (clear_bit shared i.flags)

stageout_objects-sent :
    (env : Env) (i : Inode)
    → IsWilling env
    → ((stageout_objects env i).1 ≡ code success)
      × ((stageout_objects env i).0.sent ≡ drains i i.do_map i.sent)
      × ((stageout_objects env i).0.flags ≡ set_bit deleted i.flags)
unfolding stageout_objects
stageout_objects-sent env i w =
    let k = drain_objects-AreDrained env i.do_map i w in
    rw (k.fails, stageout_objects) (refl, k.sent, ap (set_bit deleted) k.flags)

-- Where every data object server can be connected and replies `SUCCESS`: `stageout` returns
-- `SUCCESS`, has sent, if the inode was shared, a request to drain its base file, and then for
-- every data object in the table, in order, one request with the number of its extents as
-- `num_refs` counts them and their offsets in the file, offsets in the object and lengths, in the
-- order of `refs`, and leaves the inode not shared and deleted.
pub stageout-IsStagedOut : (env : Env) (i : Inode) → IsWilling env → IsStagedOut i (stageout env i)
unfolding stageout
stageout-IsStagedOut env i w = elim (Bool-cases (is_shared i)) [
  | inr e ↦
      let (a, b, c) = stageout_objects-sent env i w in
      let f : clear_bit shared i.flags ≡ i.flags = rw e refl in
      rw e (record { ret = a; sent = b ∙ rw e refl; flags = c ∙ ap (set_bit deleted) (sym f) })
  | inl e ↦
      let q = drain_shared i.ino in
      let j = unset_shared (record i { sent = q ∷ i.sent }) in
      let (a, b, c) = stageout_objects-sent env j w in
      let f = request-willing env q i w in
      rw e (
        subst
          (λ (x : Inode × Option Ret). IsStagedOut i (elim x.1 [
            | none ↦ (x.0, minus dos_con_error)
            | some r ↦
                if is_success r
                then stageout_objects env (unset_shared x.0)
                else (x.0, minus dos_fail)
          ]))
          (sym f)
          (record {
            ret = a;
            sent = b ∙ (drains-sent i j i.do_map (q ∷ i.sent) (λ d. refl) ∙ rw e refl);
            flags = c;
          }))
]
