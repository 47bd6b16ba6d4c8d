-- ===== src/LeftHeap.antt =====
-- example_left_heap.cpp: a leftist heap.
--
-- The elements are only compared, so an `int` is given as its distance from INT_MIN. `nil` is NULL.
-- The file declares `isEmpty` and does not define it: it is the parameter `is_empty`. `malloc`
-- does not fail.
pub mod Order
pub mod Merge
pub mod Methods
mod Tests
use uc.Prelude.{ℕ, zero, suc, ◌+◌, Bool, true, false, ltb}

-- `LeftHeapNode`: `element`, `left`, `right` and `npl`.
pub data Heap : Type 0 where
  nil : Heap
  node : ℕ → Heap → Heap → ℕ → Heap

-- `queue->npl`
unfoldable pub npl : Heap → ℕ
npl nil = 0
npl (node x l r n) = n

-- `merge1(queue1, queue2)`, where `merged` is `merge(queue1->right, queue2)`; with `swapChild`.
unfoldable pub merge_into : Heap → Heap → Heap → Heap
merge_into nil queue2 merged = nil
merge_into (node x nil r n) queue2 merged = node x queue2 r n
merge_into (node x (node y a b k) r n) queue2 merged = elim (ltb k (npl merged)) [
  | true ↦ node x merged (node y a b k) (k + 1)
  | false ↦ node x (node y a b k) merged (npl merged + 1)
]

-- `merge`. Each call takes a node away from one of the two heaps, so as many calls as there are
-- nodes are enough.
unfoldable pub merge : ℕ → Heap → Heap → Heap
merge fuel nil queue2 = queue2
merge fuel (node x l r n) nil = node x l r n
merge zero (node x l r n) (node y a b k) = nil
merge (suc fuel) (node x l r n) (node y a b k) = elim (ltb x y) [
  | true ↦ merge_into (node x l r n) (node y a b k) (merge fuel r (node y a b k))
  | false ↦ merge_into (node y a b k) (node x l r n) (merge fuel b (node x l r n))
]

-- How many nodes there are.
unfoldable pub size : Heap → ℕ
size nil = 0
size (node x l r n) = suc (size l + size r)

-- `insert1`
unfoldable pub insert : ℕ → Heap → Heap
insert x queue = merge (1 + size queue) (node x nil nil 0) queue

-- The end of `deleteMin`: the two children are merged.
unfoldable pub delete_root : Heap → Heap
delete_root nil = nil
delete_root (node x l r n) = merge (size l + size r) l r

-- `deleteMin`
unfoldable pub delete_min : (Heap → Bool) → Heap → Heap
delete_min is_empty queue = elim (is_empty queue) [ true ↦ queue | false ↦ delete_root queue ]
