-- ===== src/Sort/Heap/Plain.antt =====
-- example_sort.cpp: what `heapsort` does where no `int` overflows, with `max_pos` as
-- `larger_child`, `heapify_from` as `sink_from`, `maxheapify` as `sink`, `build_down` as `sink_down`,
-- `buildheap` as `make_heap` and `sort_down` as `take_down`; and that it does not overflow below 2^30.
use uc.Prelude.{
  ℕ, zero, suc, ◌+◌, ◌-◌, ◌*◌, ◌/◌, ◌^◌, ◌≤◌, ◌<◌, ◌≡◌, refl, arith, List, true, false, ◌&&◌, ltb,
  ◌==◌, if◌then◌else◌, some, Bool-cases, inl, inr,
}
use uc.Sort.{at}
use uc.Sort.Heap.{
  swap, max_pos, heapify_from, maxheapify, build_down, buildheap, sort_down, heapsort,
}

-- The larger child of `pos` if it is larger
unfoldable pub larger_child : List ℕ → ℕ → ℕ → ℕ
larger_child arr size pos =
    let left = pos * 2 + 1 in
    let right = pos * 2 + 2 in
    let maxpos = if ltb left size && ltb (at arr pos) (at arr left) then left else pos in
    if ltb right size && ltb (at arr maxpos) (at arr right) then right else maxpos

unfoldable pub sink_from : ℕ → List ℕ → ℕ → ℕ → List ℕ
unfolding larger_child swap
sink_from zero arr size pos = arr
sink_from (suc fuel) arr size pos =
    let maxpos = larger_child arr size pos in
    let rest = sink_from fuel (swap arr maxpos pos) size maxpos in
    if maxpos == pos then arr else rest

unfoldable pub sink : List ℕ → ℕ → ℕ → List ℕ
unfolding sink_from
sink arr size pos = sink_from (size - pos) arr size pos

unfoldable pub sink_down : List ℕ → ℕ → ℕ → List ℕ
unfolding sink
sink_down arr size zero = arr
sink_down arr size (suc i) = sink_down (sink arr size i) size i

unfoldable pub make_heap : List ℕ → ℕ → List ℕ
unfolding sink_down
make_heap arr size = sink_down arr size (size / 2)

unfoldable pub take_down : List ℕ → ℕ → List ℕ
unfolding sink swap
take_down arr zero = arr
take_down arr (suc i) = take_down (sink (swap arr 0 (suc i)) (suc i) 0) i

unfoldable pub heap_sorted : List ℕ → ℕ → List ℕ
unfolding make_heap take_down
heap_sorted arr size = take_down (make_heap arr size) (size - 1)

max_pos-larger_child :
    (arr : List ℕ) (size pos : ℕ)
    → pos < size
    → size < 2 ^ 30
    → max_pos arr size pos ≡ some (larger_child arr size pos)
unfolding max_pos larger_child
max_pos-larger_child arr size pos lt int =
    let e : ltb (pos * 2 + 2) (2 ^ 31) ≡ true = ground arith in rw (e, max_pos) refl

larger_child_down :
    (arr : List ℕ) (size pos : ℕ)
    → (larger_child arr size pos == pos) ≡ false
    → (pos < larger_child arr size pos) × (larger_child arr size pos < size)
unfolding larger_child
larger_child_down arr size pos ne = (ground arith, ground arith)

heapify_from-sink_from :
    (fuel : ℕ) (arr : List ℕ) (size pos : ℕ)
    → pos < size
    → size ≤ pos + fuel
    → size < 2 ^ 30
    → heapify_from fuel arr size pos ≡ some (sink_from fuel arr size pos)
unfolding heapify_from sink_from
heapify_from-sink_from zero arr size pos lt few int = absurd (omega arith)
heapify_from-sink_from (suc fuel) arr size pos lt few int =
    let m = larger_child arr size pos in
    let e = max_pos-larger_child arr size pos lt int in
    elim (Bool-cases (m == pos)) [
      | inl here ↦ rw (e, heapify_from, sink_from, here) refl
      | inr down ↦
          let (above, inside) = larger_child_down arr size pos down in
          let rest = heapify_from-sink_from fuel (swap arr m pos) size m inside (omega arith) int in
          rw (e, heapify_from, sink_from, down) rest
    ]

maxheapify-sink :
    (arr : List ℕ) (size pos : ℕ)
    → pos < size
    → size < 2 ^ 30
    → maxheapify arr size pos ≡ some (sink arr size pos)
unfolding maxheapify sink
maxheapify-sink arr size pos lt int =
    heapify_from-sink_from (size - pos) arr size pos lt (omega arith) int

build_down-sink_down :
    (arr : List ℕ) (size i : ℕ)
    → i ≤ size
    → size < 2 ^ 30
    → build_down arr size i ≡ some (sink_down arr size i)
unfolding build_down sink_down
build_down-sink_down arr size zero le int = refl
build_down-sink_down arr size (suc i) le int =
    rw (maxheapify-sink arr size i (omega arith) int, build_down)
      (build_down-sink_down (sink arr size i) size i (omega arith) int)

sort_down-take_down : (arr : List ℕ) (i : ℕ) → i < 2 ^ 30 → sort_down arr i ≡ some (take_down arr i)
unfolding sort_down take_down
sort_down-take_down arr zero int = refl
sort_down-take_down arr (suc i) int =
    rw (maxheapify-sink (swap arr 0 (suc i)) (suc i) 0 (omega arith) int, sort_down)
      (sort_down-take_down (sink (swap arr 0 (suc i)) (suc i) 0) i (omega arith))

-- Below 2^30 elements nothing overflows, and every call of `maxheapify` ends.
pub heapsort-heap_sorted :
    (arr : List ℕ) (size : ℕ) → size < 2 ^ 30 → heapsort arr size ≡ some (heap_sorted arr size)
unfolding heapsort heap_sorted buildheap make_heap
heapsort-heap_sorted arr size int =
    rw (build_down-sink_down arr size (size / 2) (omega arith) int, heapsort)
      (sort_down-take_down (sink_down arr size (size / 2)) (size - 1) (omega arith))
