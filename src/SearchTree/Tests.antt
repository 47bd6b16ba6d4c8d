-- ===== src/SearchTree/Tests.antt =====
-- example_binary_tree_adt.cpp: tests, and the theorems at a concrete tree.
use uc.Prelude.{ℕ, ◌≡◌, ◌⊎◌, ◌↔◌, refl, arith}
use uc.SearchTree.{Tree, nil, freed, node, insert, delete, present, unlink}
use uc.SearchTree.Laws.{Has, IsSearch, insert_search_lem}

abbrev leaf : ℕ → Tree
leaf v = node v nil nil

abbrev sample : Tree
sample = node 5 (leaf 3) (leaf 8)

sample-IsSearch : IsSearch sample
unfolding IsSearch Has
sample-IsSearch = ground arith

inserted_runs : insert 4 sample ≡ node 5 (node 3 nil (leaf 4)) (leaf 8)
unfolding insert
inserted_runs = refl

-- A leaf that is deleted is returned although it is freed.
leaf_runs : delete 8 (leaf 8) ≡ freed
unfolding delete unlink present
leaf_runs = refl

-- The nodes 7 and 9 are lost with 6.
chain_runs : delete 6 (node 6 nil (node 8 (leaf 7) (leaf 9))) ≡ leaf 7
unfolding delete unlink present
chain_runs = refl

insert_search_lem_example :
    IsSearch (insert 4 sample) × ((q : ℕ) → Has q (insert 4 sample) ↔ ((q ≡ 4) ⊎ Has q sample))
insert_search_lem_example = insert_search_lem 4 sample sample-IsSearch
