-- ===== src/BPlus/Tests.antt =====
-- example_bplus_tree.cpp: the B+ tree on concrete inputs.
use uc.Prelude.{ℕ, ◌+◌, ◌*◌, ◌≡◌, refl, arith, true, false, not, if◌then◌else◌, some, inr}
use uc.BPlus.{
  Node, leaf, internal, Tree, insert, search, recursive_search, index_loop, key_index, copied,
  split, merge_entries, min_key, max_key_num,
}
use uc.BPlus.Index.{Rises, IsIndex, key_index-IsIndex}
use uc.BPlus.Insert.{IsTree, tree_total, insert-IsTree}
use uc.BPlus.Merge.{Same, merge_entries-split}
use uc.BPlus.Merged.{Mergeable}
use uc.BPlus.Shape.{Sized}

abbrev tens : ℕ → ℕ
tens i = 10 * i

-- A tree whose root is a leaf with all places taken.
abbrev full_tree : Tree
full_tree = record { root = some (leaf 13 tens tens); max_key = 120 }

full_tree-IsTree : IsTree full_tree
unfolding IsTree Sized
full_tree-IsTree = inr (leaf 13 tens tens, 0, refl, (refl, omega arith))

insert-IsTree_example :
    let (done, t') = insert full_tree 55 1 in
    (done ≡ not (search full_tree 55))
    × IsTree t'
    × ((w : ℕ → ℕ → ℕ) → tree_total w t' ≡ tree_total w full_tree + (if done then w 55 1 else 0))
insert-IsTree_example = insert-IsTree full_tree 55 1 full_tree-IsTree

tens-Rises : (n : ℕ) → Rises n tens
unfolding Rises
tens-Rises n = λ i j lt less. omega arith

key_index-IsIndex_example :
    (index_loop 5 tens 20 0 4 ≡ some (key_index 5 tens 20))
    × IsIndex 5 tens 20 (key_index 5 tens 20)
key_index-IsIndex_example = key_index-IsIndex 5 tens 20 (omega arith) (tens-Rises 5)

-- A leaf of two entries with the keys `k` and `k + 1`.
abbrev pair : ℕ → Node
pair k = leaf 2 (λ i. k + i) (λ i. k + i)

-- The children of a node.
abbrev pairs : ℕ → Node
pairs i = pair (10 * i)

abbrev seps : ℕ → ℕ
seps i = 10 * i + 10

seps-Rises : Rises 2 seps
unfolding Rises
seps-Rises = λ i j lt less. omega arith

-- The key 21 stands in the last child, and the search does not find it.
lost_21 : recursive_search (internal 2 seps pairs) 21 ≡ false
unfolding recursive_search key_index index_loop uc.BPlus.child_index
lost_21 = refl

found_11 : recursive_search (internal 2 seps pairs) 11 ≡ true
unfolding recursive_search key_index index_loop uc.BPlus.child_index
found_11 = refl

abbrev grown_tree : Tree
grown_tree = (insert full_tree 130 1).1

-- The key 70 is found, and then not any more when another key is inserted, which splits the root.
found_70 : search full_tree 70 ≡ true
unfolding search insert recursive_search key_index index_loop uc.BPlus.recursive_insert
    uc.BPlus.grow uc.BPlus.key_num uc.BPlus.depth uc.BPlus.split_child uc.BPlus.insert_child
    uc.BPlus.put uc.BPlus.child_index split uc.BPlus.insert_shift uc.BPlus.insert_entry copied
found_70 = refl

lost_70 : search grown_tree 70 ≡ false
unfolding search insert recursive_search key_index index_loop uc.BPlus.recursive_insert
    uc.BPlus.grow uc.BPlus.key_num uc.BPlus.depth uc.BPlus.split_child uc.BPlus.insert_child
    uc.BPlus.put uc.BPlus.child_index split uc.BPlus.insert_shift uc.BPlus.insert_entry copied
lost_70 = refl

merge_entries-split_example :
    let right_keys = copied (min_key + 1) tens min_key (λ i. 0) in
    let right_datas = copied (min_key + 1) tens min_key (λ i. 0) in
    (split (leaf max_key_num tens tens)
      ≡ (leaf min_key tens tens, tens min_key, leaf (min_key + 1) right_keys right_datas))
    × (let (keys', datas') =
          merge_entries (min_key + 1) 0 right_keys right_datas min_key tens tens in
        Same max_key_num tens tens keys' datas')
merge_entries-split_example = merge_entries-split tens tens (tens-Rises max_key_num)

abbrev others : ℕ → Node
others i = pair (100 * i)

pairs-Mergeable : Mergeable (pairs 0) (pairs (0 + 1))
unfolding Mergeable
pairs-Mergeable = omega arith
