-- ===== src/BinaryTree.antt =====
-- example_binary_tree.cpp, example_binary_tree2.cpp: a binary tree that is read from the input, its
-- traversals and its depth.
--
-- The input is the list of the numbers that `scanf` reads, where -1 is `stop`, and what is printed is
-- a list of numbers. `none` is the end of the input, where `scanf` sets nothing.
pub mod Round
mod Tests
use uc.Prelude.{
  ℕ, zero, suc, ◌+◌, ◌++◌, List, [], ◌∷◌, Bool, true, false, leb, ltb, if◌then◌else◌, Option, none,
  some,
}

-- `BinaryTreeNode`, and NULL
pub data Tree : Type 0 where
  null : Tree
  node : (value : ℕ) (left right : Tree) → Tree

-- A number of the input
pub data Input : Type 0 where
  stop : Input
  number : ℕ → Input

-- `createBinaryTree` and `createBiTree`: the tree and the rest of the input. A call reads a number
-- before it calls itself, so the length of the input is enough.
unfoldable pub create : ℕ → List Input → Option (Tree × List Input)
create zero inputs = none
create (suc fuel) [] = none
create (suc fuel) (stop ∷ inputs) = some (null, inputs)
create (suc fuel) (number value ∷ inputs) = elim (create fuel inputs) [
  | none ↦ none
  | some (left, rest) ↦ elim (create fuel rest) [
    | none ↦ none
    | some (right, rest') ↦ some (node value left right, rest')
  ]
]

-- `preTravelTree`, `traverseBiTree`
unfoldable pub pre_travel_tree : Tree → List ℕ
pre_travel_tree null = []
pre_travel_tree (node value left right) = value ∷ pre_travel_tree left ++ pre_travel_tree right

-- `inTravelTree`, whose calls are of `preTravelTree`
unfoldable pub in_travel_tree : Tree → List ℕ
unfolding pre_travel_tree
in_travel_tree null = []
in_travel_tree (node value left right) = pre_travel_tree left ++ value ∷ pre_travel_tree right

-- `postTravelTree`, whose calls are of `preTravelTree`
unfoldable pub post_travel_tree : Tree → List ℕ
unfolding pre_travel_tree
post_travel_tree null = []
post_travel_tree (node value left right) =
    (pre_travel_tree left ++ pre_travel_tree right) ++ value ∷ []

-- `inOrderBiTree`
unfoldable pub in_order_bi_tree : Tree → List ℕ
in_order_bi_tree null = []
in_order_bi_tree (node value left right) = in_order_bi_tree left ++ value ∷ in_order_bi_tree right

-- `postOrderBiTree`
unfoldable pub post_order_bi_tree : Tree → List ℕ
post_order_bi_tree null = []
post_order_bi_tree (node value left right) =
    (post_order_bi_tree left ++ post_order_bi_tree right) ++ value ∷ []

-- `treeDeep` of example_binary_tree.cpp
unfoldable pub tree_deep : Tree → ℕ
tree_deep null = 0
tree_deep (node value left right) =
    let ldeep = tree_deep left in
    let rdeep = tree_deep right in if ltb rdeep ldeep then ldeep + 1 else rdeep + 1
