-- ===== src/Layout/Valid.antt =====
-- The well-formed layouts: what `check_extent` asserts of every extent.
use pado_fs.Base.{◌≡◌}
use pado_fs.Base.Distinct.{IsDistinct}
use pado_fs.Tree.Order.{inorder}
use pado_fs.Tree.Balance.{IsAvl}
use pado_fs.Inode.{Inode}
use pado_fs.Layout.Sorted.{IsSorted}

pub record IsLayout (i : Inode) : Type 0 where
  pub order : inorder i.flayout ≡ i.chain
  pub avl : IsAvl i.flayout
  pub distinct : IsDistinct i.chain
  pub sorted : IsSorted i.exts 0 i.chain
