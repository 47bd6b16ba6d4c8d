-- ===== src/Avl.antt =====
-- example_binary_tree_avl.cpp: insertion into an AVL tree, with its rotations.
--
-- A value is given as its distance from INT_MIN, which keeps the order, and a height as one more than
-- the code's, so that `treeDeep` of NULL is 0. A tree is a value; a read through NULL is `none`.
pub mod Order
pub mod Heights
pub mod Least
mod Tests
use uc.Prelude.{ℕ, zero, suc, ◌+◌, Option, none, some, Bool, true, false, ltb, ◌==◌, if◌then◌else◌}

-- `AvlNode` with `value`, `height`, `left` and `right`; NULL is `nil`.
pub data Avl : Type 0 where
  nil : Avl
  node : ℕ → ℕ → Avl → Avl → Avl

-- `treeDeep`
unfoldable pub deep : Avl → ℕ
deep nil = 0
deep (node x h l r) = h

-- `tree->value`, of a tree that is not NULL.
unfoldable pub value : Avl → ℕ
value nil = 0
value (node x h l r) = x

-- `max`
unfoldable pub max : ℕ → ℕ → ℕ
max a b = if ltb b a then a else b

-- `findMin`, of a tree that is not NULL.
unfoldable pub find_min : Avl → Avl
find_min nil = nil
find_min (node x h nil r) = node x h nil r
find_min (node x h (node y k a b) r) = find_min (node y k a b)

-- `singleRotateWithLeft`. The height of the new root is that of its right child.
unfoldable pub rotate_with_left : Avl → Option Avl
rotate_with_left nil = none
rotate_with_left (node x h nil r) = none
rotate_with_left (node x h (node y k a b) c) =
    let m = max (deep b) (deep c) + 1 in some (node y m a (node x m b c))

-- `singleRotateWithRight`
unfoldable pub rotate_with_right : Avl → Option Avl
rotate_with_right nil = none
rotate_with_right (node x h l nil) = none
rotate_with_right (node x h a (node y k b c)) =
    let m = max (deep a) (deep b) + 1 in some (node y m (node x m a b) c)

-- `doubleRotateWithLeft`
unfoldable pub double_with_left : Avl → Option Avl
double_with_left nil = none
double_with_left (node x h l r) = elim (rotate_with_right l) [
  | none ↦ none
  | some l' ↦ rotate_with_left (node x h l' r)
]

-- `doubleRotateWithRight`
unfoldable pub double_with_right : Avl → Option Avl
double_with_right nil = none
double_with_right (node x h l r) = elim (rotate_with_left r) [
  | none ↦ none
  | some r' ↦ rotate_with_left (node x h l r')
]

-- What `insNode` does when a child `c` has come back: `d` is the other one, and `first` is whether the
-- single rotation is chosen.
unfoldable pub rebalance : Avl → Avl → Bool → Avl → Option Avl
rebalance c d first t = elim (deep c == deep d + 2) [
  | true ↦ if first then rotate_with_left t else double_with_left t
  | false ↦ some t
]

-- `tree->height = max(treeDeep(tree->left), treeDeep(tree->right))+1`
unfoldable pub set_height : Option Avl → Option Avl
set_height none = none
set_height (some nil) = some nil
set_height (some (node x h l r)) = some (node x (max (deep l) (deep r) + 1) l r)

-- `insNode`
unfoldable pub insert : ℕ → Avl → Option Avl
insert v nil = some (node v 1 nil nil)
insert v (node x h l r) =
    let in_left = insert v l in
    let in_right = insert v r in
    elim (ltb v x) [
      | true ↦ elim in_left [
        | none ↦ none
        | some l' ↦ set_height (rebalance l' r (ltb v (value l')) (node x h l' r))
      ]
      | false ↦ elim (ltb x v) [
        | true ↦ elim in_right [
          | none ↦ none
          | some r' ↦ set_height (rebalance r' l (ltb (value r') v) (node x h l r'))
        ]
        | false ↦ set_height (some (node x h l r))
      ]
    ]
