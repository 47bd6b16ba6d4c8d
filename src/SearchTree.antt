-- ===== src/SearchTree.antt =====
-- example_binary_tree_adt.cpp: a binary search tree.
--
-- The values are only compared, so an `int` is given as its distance from INT_MIN. A `PSearchTree`
-- is `nil` for NULL and `freed` for a pointer to a node that was freed; what is read through that
-- one is left at `freed`. The functions are modelled by what they return: a caller keeps nothing
-- else of the tree that it passes. `malloc` does not fail.
pub mod Laws
pub mod Find
pub mod Delete
mod Tests
use uc.Prelude.{ℕ, Option, none, some, Bool, true, false, ◌&&◌, ltb}

pub data Tree : Type 0 where
  nil : Tree
  freed : Tree
  node : ℕ → Tree → Tree → Tree

-- `insNode`
unfoldable pub insert : ℕ → Tree → Tree
insert v nil = node v nil nil
insert v freed = freed
insert v (node x l r) = elim (ltb x v) [
  | true ↦ node x l (insert v r)
  | false ↦ elim (ltb v x) [ true ↦ node x (insert v l) r | false ↦ node x l r ]
]

-- `find`
unfoldable pub find : ℕ → Tree → Tree
find v nil = nil
find v freed = freed
find v (node x l r) = elim (ltb x v) [
  | true ↦ find v r
  | false ↦ elim (ltb v x) [ true ↦ find v l | false ↦ node x l r ]
]

-- `findMin`
unfoldable pub find_min : Tree → Tree
find_min nil = nil
find_min freed = freed
find_min (node x nil r) = node x nil r
find_min (node x freed r) = freed
find_min (node x (node y a b) r) = find_min (node y a b)

-- `findMax`, which returns nothing for NULL.
unfoldable pub find_max : Tree → Option Tree
find_max nil = none
find_max freed = some freed
find_max (node x l nil) = some (node x l nil)
find_max (node x l freed) = some freed
find_max (node x l (node y a b)) = find_max (node y a b)

-- `min->value`
unfoldable pub value : Tree → ℕ
value nil = 0
value freed = 0
value (node x l r) = x

-- A pointer that is not NULL.
unfoldable pub present : Tree → Bool
present nil = false
present freed = true
present (node x l r) = true

-- The inner `else` of `delNode`, for a node with at most one child, which it frees: the second `if`
-- reads the `left` of the tree that the first one may have moved to.
unfoldable pub unlink : Tree → Tree → Tree
unlink nil nil = freed
unlink freed nil = freed
unlink (node y a b) nil = node y a b
unlink l freed = freed
unlink l (node y nil b) = node y nil b
unlink l (node y freed b) = freed
unlink l (node y (node z c d) b) = node z c d

-- `delNode`
unfoldable pub delete : ℕ → Tree → Tree
delete v nil = nil
delete v freed = freed
delete v (node x l r) =
    let replaced = node (value (find_min r)) l (delete (value (find_min r)) r) in
    elim (ltb x v) [
      | true ↦ delete v r
      | false ↦ elim (ltb v x) [
        | true ↦ delete v l
        | false ↦ elim (present r && present l) [ true ↦ replaced | false ↦ unlink l r ]
      ]
    ]
