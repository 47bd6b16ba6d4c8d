-- ===== src/Sort/Heap/Down.antt =====
-- example_sort.cpp: `maxheapify` and `buildheap` make a heap of the first `size` elements.
use uc.Prelude.{
  ℕ, zero, suc, ◌+◌, ◌-◌, ◌*◌, ◌/◌, ◌≤◌, ◌<◌, ◌≡◌, ◌≢◌, ◌∙◌, arith, List, set, length, length-set,
  ◌==◌, if◌then◌else◌, ◌⊎◌, inl, inr, eq→==, ne→==,
}
use native.Mathlib.Decide.{ℕ_discrete}
use uc.Sort.{at}
use uc.Sort.Count.{count-set, at-set}
use uc.Sort.Shuffle.{IsShuffle, IsShuffle-refl, IsShuffle-trans, IsShuffle-exchange}
use uc.Sort.Heap.{swap}
use uc.Sort.Heap.Plain.{larger_child, sink_from, sink, sink_down, make_heap}

abbrev pub IsChild : ℕ → ℕ → Type 0
IsChild i c = (c ≡ i * 2 + 1) ⊎ (c ≡ i * 2 + 2)

-- No child below `size` is above its parent, for the parents from `lo` on.
abbrev pub IsHeapFrom : ℕ → ℕ → List ℕ → Type 0
IsHeapFrom lo size arr = (i c : ℕ) → lo ≤ i → IsChild i c → c < size → at arr c ≤ at arr i

-- The same but for the children of `pos`, which are not above the parent of `pos`.
pub record IsSunk (lo size : ℕ) (arr : List ℕ) (pos : ℕ) : Type 0 where
  pub edges : (i c : ℕ) → lo ≤ i → i ≢ pos → IsChild i c → c < size → at arr c ≤ at arr i
  pub bridged : (i c : ℕ) → lo ≤ i → IsChild i pos → IsChild pos c → c < size → at arr c ≤ at arr i

pub at-swap :
    (arr : List ℕ) (i j k : ℕ)
    → i < length arr
    → j < length arr
    → at (swap arr i j) k ≡ (if k == i then at arr j else if k == j then at arr i else at arr k)
unfolding swap
at-swap arr i j k li lj = ground (
  arith,
  at-set (set arr i (at arr j)) j k (at arr i) (omega (arith, length-set arr i (at arr j))),
  at-set arr i k (at arr j) li,
)

length-swap : (arr : List ℕ) (i j : ℕ) → length (swap arr i j) ≡ length arr
unfolding swap
length-swap arr i j = length-set (set arr i (at arr j)) j (at arr i) ∙ length-set arr i (at arr j)

pub swap-IsShuffle :
    (size : ℕ) (arr : List ℕ) (i j : ℕ)
    → i < size
    → j < size
    → size ≤ length arr
    → IsShuffle 0 size arr (swap arr i j)
unfolding swap
swap-IsShuffle size arr i j li lj le =
    IsShuffle-exchange {i = i} {j = j} (omega arith) li (omega arith) lj
      (λ x. ground (
        arith,
        count-set x arr i (at arr j) (omega arith),
        count-set x (set arr i (at arr j)) j (at arr i)
            (omega (arith, length-set arr i (at arr j))),
        at-set arr i j (at arr j) (omega arith),
      ))
      (length-swap arr i j) (λ k. at-swap arr i j k (omega arith) (omega arith))

-- `maxpos` is `pos` or a child of it with a larger element, and no child has a larger one.
max_pos_lem :
    (arr : List ℕ) (size pos : ℕ)
    → ((larger_child arr size pos ≡ pos)
        ⊎ IsChild pos (larger_child arr size pos)
          × (larger_child arr size pos < size)
          × (at arr pos < at arr (larger_child arr size pos)))
      × ((c : ℕ) → IsChild pos c → c < size → at arr c ≤ at arr (larger_child arr size pos))
unfolding larger_child
max_pos_lem arr size pos = (ground arith, λ c h lt. ground arith)

-- The exchange with the larger child moves the place out of order down.
swap-IsSunk :
    (lo size : ℕ) (arr : List ℕ) (pos m : ℕ)
    → size ≤ length arr
    → IsSunk lo size arr pos
    → lo ≤ pos
    → IsChild pos m
    → m < size
    → at arr pos < at arr m
    → ((c : ℕ) → IsChild pos c → c < size → at arr c ≤ at arr m)
    → IsSunk lo size (swap arr m pos) m
swap-IsSunk lo size arr pos m len s le child lt more most =
    let read : (k : ℕ)
        → at (swap arr m pos) k
          ≡ (if k == m then at arr pos else if k == pos then at arr m else at arr k) =
      λ k. at-swap arr m pos k (omega arith) (ground arith) in
    record {
      edges = λ i c from ne h small. elim (ℕ_discrete i pos) [
        | yes e ↦ ground (arith, read i, read c, most c)
        | no other ↦
            ground (arith, read i, read c, s.edges i c from other h small, s.bridged i m from)
      ];
      bridged = λ i c from h g small. ground (arith, read i, read c, s.edges m c);
    }

sink_from-IsHeapFrom :
    (fuel lo size : ℕ) (arr : List ℕ) (pos : ℕ)
    → size ≤ pos + fuel
    → size ≤ length arr
    → lo ≤ pos
    → IsSunk lo size arr pos
    → IsHeapFrom lo size (sink_from fuel arr size pos)
      × IsShuffle 0 size arr (sink_from fuel arr size pos)
unfolding sink_from
sink_from-IsHeapFrom zero lo size arr pos few len le s = (
  λ i c from h small. elim (ℕ_discrete i pos) [
    | yes e ↦ absurd (ground arith)
    | no ne ↦ s.edges i c from ne h small
  ],
  IsShuffle-refl 0 size arr,
)
sink_from-IsHeapFrom (suc fuel) lo size arr pos few len le s =
    let m : ℕ = larger_child arr size pos in
    let (which, most) = max_pos_lem arr size pos in
    elim (ℕ_discrete m pos) [
      | yes e ↦
          rw (eq→== m pos e, sink_from)
            (
              λ i c from h small. elim (ℕ_discrete i pos) [
                | yes here ↦ ground (arith, most c)
                | no ne ↦ s.edges i c from ne h small
              ],
              IsShuffle-refl 0 size arr,
            )
      | no ne ↦ elim which [
        | inl e ↦ absurd (ne e)
        | inr (child, lt, more) ↦
            let (heap, moved) =
              sink_from-IsHeapFrom fuel lo size (swap arr m pos) m (ground arith)
                (omega (arith, length-swap arr m pos, len)) (ground arith)
                (swap-IsSunk lo size arr pos m len s le child lt more most) in
            rw (ne→== m pos ne, sink_from)
              (heap, IsShuffle-trans (swap-IsShuffle size arr m pos lt (ground arith) len) moved)
      ]
    ]

-- `maxheapify` at `pos`, where only the children of `pos` may be above their parent.
pub sink-IsHeapFrom :
    (lo size : ℕ) (arr : List ℕ) (pos : ℕ)
    → size ≤ length arr
    → lo ≤ pos
    → IsSunk lo size arr pos
    → IsHeapFrom lo size (sink arr size pos) × IsShuffle 0 size arr (sink arr size pos)
unfolding sink
sink-IsHeapFrom lo size arr pos = sink_from-IsHeapFrom (size - pos) lo size arr pos (omega arith)

sink_down-IsHeapFrom :
    (i size : ℕ) (arr : List ℕ)
    → size ≤ length arr
    → IsHeapFrom i size arr
    → IsHeapFrom 0 size (sink_down arr size i) × IsShuffle 0 size arr (sink_down arr size i)
unfolding sink_down
sink_down-IsHeapFrom zero size arr len h = (h, IsShuffle-refl 0 size arr)
sink_down-IsHeapFrom (suc i) size arr len h =
    let (h', s) = sink-IsHeapFrom i size arr i len (omega arith) (record {
      edges = λ k c from ne child lt. h k c (omega arith) child lt;
      bridged = λ k c from up down lt. absurd (ground arith);
    }) in
    let (h'', s') = sink_down-IsHeapFrom i size (sink arr size i) (omega (arith, s.same, len)) h' in
    (h'', IsShuffle-trans s s')

pub make_heap-IsHeapFrom :
    (size : ℕ) (arr : List ℕ)
    → size ≤ length arr
    → IsHeapFrom 0 size (make_heap arr size) × IsShuffle 0 size arr (make_heap arr size)
unfolding make_heap
make_heap-IsHeapFrom size arr len =
    sink_down-IsHeapFrom (size / 2) size arr len (λ i c from h lt. absurd (grind arith))
