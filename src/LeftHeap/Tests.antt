-- ===== src/LeftHeap/Tests.antt =====
-- example_left_heap.cpp: tests, and the theorems at concrete heaps.
use uc.Prelude.{ℕ, ◌≡◌, refl, arith, Bool, true, false}
use uc.LeftHeap.{Heap, nil, node, merge, merge_into, size, delete_min, delete_root, npl}
use uc.LeftHeap.Order.{path, Least, IsLeftist}
use uc.LeftHeap.Merge.{Joins, merge_lem}

is_null : Heap → Bool
is_null nil = true
is_null (node x l r n) = false

abbrev leaf : ℕ → Heap
leaf x = node x nil nil 0

abbrev sample : Heap
sample = node 2 (leaf 7) (leaf 4) 1

merge_runs : merge 4 sample (leaf 3) ≡ node 2 (leaf 7) (node 3 (leaf 4) nil 0) 1
unfolding merge merge_into npl
merge_runs = refl

delete_runs : delete_min is_null sample ≡ node 4 (leaf 7) nil 0
unfolding delete_min delete_root merge merge_into size is_null
delete_runs = refl

leaf-IsLeftist : (x : ℕ) → IsLeftist (leaf x)
unfolding IsLeftist path Least
leaf-IsLeftist x = (omega arith, refl, tt, tt, tt, tt)

sample-IsLeftist : IsLeftist sample
unfolding IsLeftist path Least
sample-IsLeftist = (omega arith, refl, omega arith, omega arith, leaf-IsLeftist 7, leaf-IsLeftist 4)

merge_lem_example : Joins sample (leaf 3) (merge 4 sample (leaf 3))
unfolding size
merge_lem_example = merge_lem 4 sample (leaf 3) (omega arith) sample-IsLeftist (leaf-IsLeftist 3)
