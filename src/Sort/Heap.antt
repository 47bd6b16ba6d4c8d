-- ===== src/Sort/Heap.antt =====
-- example_sort.cpp, example_heapsort.cpp: `heapsort`, which the two files have alike.
mod Plain
mod Down
pub mod Sorted
use uc.Prelude.{
  ℕ, zero, suc, ◌+◌, ◌-◌, ◌*◌, ◌/◌, ◌^◌, List, set, Bool, true, false, ◌&&◌, ltb, ◌==◌,
  if◌then◌else◌, Option, none, some,
}
use uc.Sort.{at}

-- `swap(&arr[i], &arr[j])`
unfoldable pub swap : List ℕ → ℕ → ℕ → List ℕ
swap arr i j = set (set arr i (at arr j)) j (at arr i)

-- `maxpos` of `maxheapify`: `pos`, or the larger of its children if that is larger. It is `none`
-- where `(pos << 1) + 2` overflows an `int`, which C leaves open.
unfoldable pub max_pos : List ℕ → ℕ → ℕ → Option ℕ
max_pos arr size pos =
    let left = pos * 2 + 1 in
    let right = pos * 2 + 2 in
    let maxpos = if ltb left size && ltb (at arr pos) (at arr left) then left else pos in
    elim (ltb right (2 ^ 31)) [
      | true ↦ some (if ltb right size && ltb (at arr maxpos) (at arr right) then right else maxpos)
      | false ↦ none
    ]

-- `maxheapify`; a call goes to a larger place below `size`, so that `size - pos` calls are enough.
-- It is `none` for an overflow, and where the fuel runs out.
unfoldable pub heapify_from : ℕ → List ℕ → ℕ → ℕ → Option (List ℕ)
unfolding max_pos swap
heapify_from zero arr size pos = none
heapify_from (suc fuel) arr size pos = elim (max_pos arr size pos) [
  | none ↦ none
  | some maxpos ↦
      let rest = heapify_from fuel (swap arr maxpos pos) size maxpos in
      if maxpos == pos then some arr else rest
]

unfoldable pub maxheapify : List ℕ → ℕ → ℕ → Option (List ℕ)
unfolding heapify_from
maxheapify arr size pos = heapify_from (size - pos) arr size pos

-- The loop of `buildheap` from `i - 1` down to 0.
unfoldable pub build_down : List ℕ → ℕ → ℕ → Option (List ℕ)
unfolding maxheapify
build_down arr size zero = some arr
build_down arr size (suc i) = elim (maxheapify arr size i) [
  | none ↦ none
  | some next ↦ build_down next size i
]

unfoldable pub buildheap : List ℕ → ℕ → Option (List ℕ)
unfolding build_down
buildheap arr size = build_down arr size (size / 2)

-- The loop of `heapsort` from `i` down to 1, where `heapsize` is `i + 1`.
unfoldable pub sort_down : List ℕ → ℕ → Option (List ℕ)
unfolding maxheapify swap
sort_down arr zero = some arr
sort_down arr (suc i) = elim (maxheapify (swap arr 0 (suc i)) (suc i) 0) [
  | none ↦ none
  | some next ↦ sort_down next i
]

unfoldable pub heapsort : List ℕ → ℕ → Option (List ℕ)
unfolding buildheap sort_down
heapsort arr size = elim (buildheap arr size) [
  | none ↦ none
  | some heap ↦ sort_down heap (size - 1)
]
