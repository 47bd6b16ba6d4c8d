-- ===== src/BinaryTree/Tests.antt =====
-- example_binary_tree.cpp, example_binary_tree2.cpp: tests, and the theorems at a concrete tree.
use uc.Prelude.{◌^◌, ◌≤◌, ◌<◌, ◌≡◌, refl, ◌++◌, List, [], ◌∷◌, some, length}
use uc.BinaryTree.{
  Tree, null, node, Input, stop, create, pre_travel_tree, in_travel_tree, post_travel_tree,
  in_order_bi_tree, post_order_bi_tree, tree_deep,
}
use uc.BinaryTree.Round.{inputs_of, create_lem, occurrences, occurrences_in, tree_deep_bounds}

abbrev sample : Tree
sample = node 1 (node 2 (node 3 null null) null) (node 4 null null)

-- The subtree of 2 is printed from its root.
in_travel_runs :
    (in_travel_tree sample ≡ 2 ∷ 3 ∷ 1 ∷ 4 ∷ []) × (in_order_bi_tree sample ≡ 3 ∷ 2 ∷ 1 ∷ 4 ∷ [])
unfolding in_travel_tree in_order_bi_tree
in_travel_runs = (refl, refl)

post_travel_runs :
    (post_travel_tree sample ≡ 2 ∷ 3 ∷ 4 ∷ 1 ∷ [])
    × (post_order_bi_tree sample ≡ 3 ∷ 2 ∷ 4 ∷ 1 ∷ [])
unfolding post_travel_tree post_order_bi_tree
post_travel_runs = (refl, refl)

create_lem_example :
    (length (inputs_of sample) ≤ 9
      → create 9 (inputs_of sample ++ stop ∷ []) ≡ some (sample, stop ∷ []))
    × ((inputs : List Input)
        → create 9 inputs ≡ some (sample, stop ∷ [])
        → inputs ≡ inputs_of sample ++ stop ∷ [])
create_lem_example = create_lem 9 sample (stop ∷ [])

tree_deep_bounds_example :
    (occurrences 3 (pre_travel_tree sample) ≡ occurrences_in 3 sample)
    × (occurrences 3 (in_order_bi_tree sample) ≡ occurrences_in 3 sample)
    × (occurrences 3 (post_order_bi_tree sample) ≡ occurrences_in 3 sample)
    × (tree_deep sample ≤ length (pre_travel_tree sample))
    × (length (pre_travel_tree sample) < 2 ^ tree_deep sample)
tree_deep_bounds_example = tree_deep_bounds sample 3
