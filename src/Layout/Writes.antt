-- ===== src/Layout/Writes.antt =====
-- `pado_write` and `pado_truncate` of incont.c: the chain and the tree.
use pado_fs.Base.{
  ℕ, ◌+◌, ◌≡◌, refl, sym, ap, ◌∙◌, subst, false, Option, none, some, [], ◌∷◌, ◌++◌, arith,
  append-nil, if◌then◌else◌, ltb, max, if-elim,
}
use pado_fs.Base.Word.{add64}
use pado_fs.Base.Distinct.{IsDistinct, IsDistinct-insert, has, not-has_of_append}
use pado_fs.Tree.{is_leaf}
use pado_fs.Tree.Order.{inorder}
use pado_fs.Tree.Balance.{IsAvl}
use pado_fs.Inode.{Inode, Env}
use pado_fs.Inode.Extents.{create_extent}
use pado_fs.Layout.{replace, touch, set_root, pado_write, pado_truncate}
use pado_fs.Layout.Stages.{IsWoven}
use pado_fs.Layout.Woven.{replace-IsWoven}

-- A change of other fields.
IsWoven-as : (i j : Inode) → j.chain ≡ i.chain → j.flayout ≡ i.flayout → IsWoven i → IsWoven j
IsWoven-as i j e f k = record {
  zs = k.zs;
  linked = record {
    chain = e ∙ k.linked.chain;
    order = ap inorder f ∙ k.linked.order;
    avl = subst IsAvl (sym f) k.linked.avl;
  };
  distinct = k.distinct;
}

chain-IsDistinct : (i : Inode) → IsWoven i → IsDistinct i.chain
chain-IsDistinct i k = subst IsDistinct (sym k.linked.chain) k.distinct

-- `pado_truncate`, to any size, keeps the chain and the tree one sequence, with every depth in
-- order and no extent twice, where the next extent to be made is not in the layout. This does not
-- exclude a failed assertion.
pub pado_truncate-IsWoven :
    (env : Env) (newsize : ℕ) (i : Inode)
    → IsWoven i
    → has i.next_ext i.chain ≡ false
    → IsWoven (pado_truncate env newsize i).0
unfolding pado_truncate
pado_truncate-IsWoven env newsize i k f =
    let j = record i { size = newsize } in
    let e = sym (append-nil i.chain) in
    let cut = if ltb newsize i.size then replace env [] none newsize i.size j else j in
    IsWoven-as cut (touch env cut) refl refl (
      if-elim IsWoven (ltb newsize i.size)
        (λ _.
          replace-IsWoven env [] none newsize i.size j (IsWoven-as i j refl refl k)
            (subst IsDistinct e (chain-IsDistinct i k))
            (subst (λ us. has i.next_ext us ≡ false) e f))
        (λ _. IsWoven-as i j refl refl k))

-- `pado_write`, of any range, keeps the chain and the tree one sequence, with every depth in
-- order and no extent twice, where the next two extents to be made are not in the layout. This
-- does not exclude a failed assertion.
pub pado_write-IsWoven :
    (env : Env) (d : Option ℕ) (off_f off_do len : ℕ) (i : Inode)
    → IsWoven i
    → has i.next_ext i.chain ≡ false
    → has (i.next_ext + 1) i.chain ≡ false
    → IsWoven (pado_write env d off_f off_do len i).0
unfolding pado_write create_extent
pado_write-IsWoven env none off_f off_do len i k f g = k
pado_write-IsWoven env (some d) off_f off_do len i k f g =
    let x = i.next_ext in
    let i₁ = (create_extent d off_f off_do len i).0 in
    let i₂ = record i₁ { size = max i₁.size (add64 off_f len) } in
    let k₂ = IsWoven-as i i₂ refl refl k in
    let i₃ =
      if is_leaf i₂.flayout
      then set_root x i₂
      else replace env (x ∷ []) (some x) off_f (add64 off_f len) i₂ in
    let e = sym (append-nil i.chain) in
    let u : IsDistinct (i.chain ++ x ∷ []) =
      IsDistinct-insert x i.chain [] (subst (λ us. has x us ≡ false) e f)
        (subst IsDistinct e (chain-IsDistinct i k)) in
    IsWoven-as i₃ (touch env i₃) refl refl (
      if-elim IsWoven (is_leaf i.flayout)
        (λ _. record {
          zs = x ∷ [];
          linked = record {
            chain = refl;
            order = refl;
            avl = (tt, tt, refl, omega arith, omega arith);
          };
          distinct = (refl, tt);
        })
        (λ _.
          replace-IsWoven env (x ∷ []) (some x) off_f (add64 off_f len) i₂ k₂ u
            (not-has_of_append (x + 1) i.chain (x ∷ []) g (ground arith))))
