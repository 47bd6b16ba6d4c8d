-- ===== src/Sort/Heap/Sorted.antt =====
-- example_sort.cpp: what `heapsort` does to an array.
use uc.Prelude.{
  ℕ, zero, suc, ◌+◌, ◌-◌, ◌/◌, ◌^◌, ◌≤◌, ◌<◌, ◌≡◌, arith, List, length, inr, some, if◌then◌else◌,
  ◌==◌,
}
use native.Mathlib.Decide.{ℕ_discrete}
use uc.Sort.{at}
use uc.Sort.Count.{IsSortOf}
use uc.Sort.Shuffle.{
  IsShuffle, IsShuffle-refl, IsShuffle-trans, IsShuffle-widen, IsRangeSort, IsRangeSort-IsSortOf,
}
use uc.Sort.Heap.{swap, heapsort}
use uc.Sort.Heap.Plain.{heapsort-heap_sorted, sink, make_heap, take_down, heap_sorted}
use uc.Sort.Heap.Down.{
  IsHeapFrom, IsSunk, at-swap, swap-IsShuffle, sink-IsHeapFrom, make_heap-IsHeapFrom,
}

-- No element of a heap is above the root.
root_lem :
    (fuel size : ℕ) (arr : List ℕ)
    → IsHeapFrom 0 size arr
    → (k : ℕ) → k ≤ fuel
    → k < size
    → at arr k ≤ at arr 0
root_lem zero size arr h k few lt = ground arith
root_lem (suc fuel) size arr h zero few lt = omega arith
root_lem (suc fuel) size arr h (suc k) few lt = omega (
  arith,
  h (k / 2) (suc k) (omega arith) (grind arith) lt,
  root_lem fuel size arr h (k / 2) (grind arith) (grind arith),
)

-- The elements up to `i` are a heap, none is above those behind `i`, and these are in order.
record IsPartSorted (size : ℕ) (arr : List ℕ) (i : ℕ) : Type 0 where
  heap : IsHeapFrom 0 (i + 1) arr
  ordered : (a b : ℕ) → i < a → a < b → b < size → at arr a ≤ at arr b
  parted : (a b : ℕ) → a ≤ i → i < b → b < size → at arr a ≤ at arr b

module _ (size : ℕ) (arr : List ℕ) (i : ℕ) (few : suc i < size) (len : size ≤ length arr)
    (s : IsPartSorted size arr (suc i)) where
  abbrev swapped : List ℕ
  swapped = swap arr 0 (suc i)

  read :
      (k : ℕ)
      → at swapped k
        ≡ (if k == 0 then at arr (suc i) else if k == suc i then at arr 0 else at arr k)
  read k = at-swap arr 0 (suc i) k (omega arith) (omega arith)

  exchanged : IsShuffle 0 size arr swapped
  exchanged = swap-IsShuffle size arr 0 (suc i) (omega arith) few len

  sunk : IsSunk 0 (suc i) swapped 0
  sunk = record {
    edges = λ k c from ne h lt. ground (arith, read k, read c, s.heap k c from h);
    bridged = λ k c from h g lt. absurd (ground arith);
  }

  abbrev next : List ℕ
  next = sink swapped (suc i) 0

  heaped : IsHeapFrom 0 (suc i) next × IsShuffle 0 (suc i) swapped next
  heaped = sink-IsHeapFrom 0 (suc i) swapped 0 (omega (arith, exchanged.same)) (omega arith) sunk

  next-IsShuffle : IsShuffle 0 size arr next
  next-IsShuffle =
      IsShuffle-trans exchanged (IsShuffle-widen 0 size (omega arith) (omega arith) (heaped.1))

  -- Behind the heap
  behind : (k : ℕ) → suc i ≤ k → at next k ≡ at swapped k
  behind k far = heaped.1.outside k (inr far)

  next-IsPartSorted : IsPartSorted size next i
  next-IsPartSorted = record {
    heap = λ k c from h lt. heaped.0 k c from h (omega arith);
    ordered = λ a b from lt to. elim (ℕ_discrete a (suc i)) [
      | yes e ↦ ground (arith, behind a, behind b, read a, read b, s.parted 0 b)
      | no ne ↦ ground (arith, behind a, behind b, read a, read b, s.ordered a b)
    ];
    parted = λ a b le from to. omega (
      arith,
      heaped.1.below (at next b)
          (λ k f t. elim (ℕ_discrete b (suc i)) [
            | yes e ↦ ground (
              arith,
              behind b,
              read b,
              read k,
              root_lem (suc i) (suc i + 1) arr s.heap k (omega arith) (omega arith),
              root_lem (suc i) (suc i + 1) arr s.heap (suc i) (omega arith) (omega arith),
            )
            | no ne ↦ ground (arith, behind b, read b, read k, s.parted k b, s.parted (suc i) b)
          ])
          a (omega arith) (omega arith),
    );
  }

take_down-IsRangeSort :
    (size : ℕ) (arr : List ℕ) (i : ℕ)
    → i < size
    → size ≤ length arr
    → IsPartSorted size arr i
    → IsRangeSort 0 size arr (take_down arr i)
unfolding take_down
take_down-IsRangeSort size arr zero few len s = record {
  ordered = λ a b from lt to. elim (ℕ_discrete a 0) [
    | yes e ↦ s.parted a b (omega arith) (omega arith) to
    | no ne ↦ s.ordered a b (omega arith) lt to
  ];
  shuffled = IsShuffle-refl 0 size arr;
}
take_down-IsRangeSort size arr (suc i) few len s =
    let moved = next-IsShuffle size arr i few len s in
    let rest =
      take_down-IsRangeSort size (next size arr i few len s) i (omega arith)
        (omega (arith, moved.same, len)) (next-IsPartSorted size arr i few len s) in
    record { ordered = rest.ordered; shuffled = IsShuffle-trans moved rest.shuffled }

heap_sorted-IsRangeSort :
    (arr : List ℕ) (size : ℕ) → size ≤ length arr → IsRangeSort 0 size arr (heap_sorted arr size)
unfolding heap_sorted
heap_sorted-IsRangeSort arr zero len = record {
  ordered = λ a b from lt to. absurd (omega arith);
  shuffled = IsShuffle-refl 0 0 arr;
}
heap_sorted-IsRangeSort arr (suc n) len =
    let (h, s) = make_heap-IsHeapFrom (suc n) arr len in
    let rest =
      take_down-IsRangeSort (suc n) (make_heap arr (suc n)) (suc n - 1) (omega arith)
        (omega (arith, s.same, len))
        (record {
          heap = λ k c from child lt. h k c from child (omega arith);
          ordered = λ a b from lt to. absurd (omega arith);
          parted = λ a b le from to. absurd (omega arith);
        }) in
    record { ordered = rest.ordered; shuffled = IsShuffle-trans s rest.shuffled }

-- `heapsort` of the first `size` elements of an array that has as many, where these are fewer than
-- 2^30, ends without an overflow of an `int` and puts them in order: they are the same values, each
-- as often as before, and the elements behind them stay.
pub heapsort-IsSortOf :
    (arr : List ℕ) (size : ℕ)
    → size ≤ length arr
    → size < 2 ^ 30
    → (out : List ℕ) × (heapsort arr size ≡ some out) × IsSortOf size arr out
heapsort-IsSortOf arr size len int = (
  heap_sorted arr size,
  heapsort-heap_sorted arr size int,
  IsRangeSort-IsSortOf (heap_sorted-IsRangeSort arr size len),
)
