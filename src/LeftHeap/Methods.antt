-- ===== src/LeftHeap/Methods.antt =====
-- example_left_heap.cpp: what `insert1` and `deleteMin` do to a leftist heap.
use uc.Prelude.{one, ℕ, ◌+◌, ◌≤◌, ◌<◌, ◌≡◌, refl, arith, Bool, true, false}
use uc.LeftHeap.{Heap, nil, node, merge, size, insert, delete_root, delete_min}
use uc.LeftHeap.Order.{count, path, Least, IsLeftist, Least-count}
use uc.LeftHeap.Merge.{merge_lem}

single-IsLeftist : (x : ℕ) → IsLeftist (node x nil nil 0)
unfolding IsLeftist Least path
single-IsLeftist x = (omega arith, refl, tt, tt, tt, tt)

-- `insert1` of an element into a leftist heap gives a leftist heap with the elements of before, and
-- the new one once more.
pub insert-IsLeftist :
    (x : ℕ) (queue : Heap)
    → IsLeftist queue
    → IsLeftist (insert x queue) × ((q : ℕ) → count q (insert x queue) ≡ one q x + count q queue)
unfolding insert count size
insert-IsLeftist x queue v =
    let j =
      merge_lem (1 + size queue) (node x nil nil 0) queue (omega arith) (single-IsLeftist x) v in
    (j.valid, (λ q. omega (arith, j.counted q)))

-- What is left of a heap when its root is taken: nothing of NULL, and else the other elements, none
-- of which is below the root.
unfoldable pub Removed : Heap → Heap → Type 0
Removed nil rest = rest ≡ nil
Removed (node x l r n) rest =
    ((q : ℕ) → count q (node x l r n) ≡ one q x + count q rest)
    × ((q : ℕ) → 0 < count q rest → x ≤ q)

-- With an `isEmpty` that tells NULL from a node, `deleteMin` takes the root of a leftist heap: what
-- is left is a leftist heap of the other elements, none of which is below the root; of NULL it
-- leaves NULL.
pub delete_min_lem :
    (is_empty : Heap → Bool) (queue : Heap)
    → is_empty nil ≡ true
    → ((x : ℕ) (l r : Heap) (n : ℕ) → is_empty (node x l r n) ≡ false)
    → IsLeftist queue
    → IsLeftist (delete_min is_empty queue) × Removed queue (delete_min is_empty queue)
unfolding delete_min delete_root IsLeftist Removed count
delete_min_lem is_empty nil on_null on_node v = rw (on_null, delete_min) (tt, refl)
delete_min_lem is_empty (node x l r n) on_null on_node v =
    let j = merge_lem (size l + size r) l r (omega arith) v.4 v.5 in
    rw (on_node, delete_min)
      (
        j.valid,
        (
          (λ q. omega (arith, j.counted q)),
          (λ q some_q.
              Least-count x q (merge (size l + size r) l r) j.valid (j.least x v.2 v.3) some_q),
        ),
      )
