-- ===== src/Sort/Merge/Sorted.antt =====
-- example_sort.cpp: what `mergeSort` does to an array.
use uc.Prelude.{
  ℕ, zero, suc, ◌+◌, ◌-◌, ◌/◌, ◌^◌, ◌≤◌, ◌<◌, ◌≡◌, refl, ◌∙◌, arith, List, length, ltb, inl, some,
  lt→ltb, false,
}
use native.Mathlib.Decide.{dec_lt}
use uc.Sort.Count.{IsSortOf}
use uc.Sort.Shuffle.{
  IsShuffle-refl, IsShuffle-trans, IsShuffle-widen, IsRangeSort, IsRangeSort-IsSortOf,
}
use uc.Sort.Merge.{merge_sort}
use uc.Sort.Merge.Part.{merge-IsRangeSort}
use uc.Sort.Merge.Plain.{merge_parts, merge_sort-merge_parts}

ge→ltb : (a b : ℕ) → b ≤ a → ltb a b ≡ false
ge→ltb a b h = ground arith

merge_parts-IsRangeSort :
    (fuel : ℕ) (arr tmp_array : List ℕ) (left right : ℕ)
    → right ≤ left + fuel
    → (left < right → (right < length arr) × (right < length tmp_array))
    → IsRangeSort left (right + 1) arr (merge_parts fuel arr tmp_array left right).0
      × (length (merge_parts fuel arr tmp_array left right).1 ≡ length tmp_array)
unfolding merge_parts
merge_parts-IsRangeSort zero arr tmp_array left right few len = (
  record {
    ordered = λ a b from lt to. absurd (omega arith);
    shuffled = IsShuffle-refl left (right + 1) arr;
  },
  refl,
)
merge_parts-IsRangeSort (suc fuel) arr tmp_array left right few len = elim (dec_lt left right) [
  | no short ↦
      rw (ge→ltb left right (omega arith), merge_parts)
        (
          record {
            ordered = λ a b from lt to. absurd (omega arith);
            shuffled = IsShuffle-refl left (right + 1) arr;
          },
          refl,
        )
  | yes long ↦
      let center : ℕ = (left + right) / 2 in
      let c_from : left ≤ center = grind arith in
      let c_to : center < right = grind arith in
      let (la, lt) = len long in
      let (first, t1) =
        merge_parts-IsRangeSort fuel arr tmp_array left center (omega arith)
          (λ _. (omega arith, omega arith)) in
      let a : List ℕ = (merge_parts fuel arr tmp_array left center).0 in
      let t : List ℕ = (merge_parts fuel arr tmp_array left center).1 in
      let (second, t2) =
        merge_parts-IsRangeSort fuel a t (center + 1) right (omega arith)
          (λ _. (omega (arith, first.shuffled.same), omega (arith, t1))) in
      let b : List ℕ = (merge_parts fuel a t (center + 1) right).0 in
      let u : List ℕ = (merge_parts fuel a t (center + 1) right).1 in
      let (whole, t3) =
        merge-IsRangeSort b u left (center + 1) right (omega arith) (omega arith)
          (omega (arith, second.shuffled.same, first.shuffled.same)) (omega (arith, t1, t2))
          (record {
            left_ordered = λ i j from less to. omega (
              arith,
              second.shuffled.outside i (inl (omega arith)),
              second.shuffled.outside j (inl (omega arith)),
              first.ordered i j from less to,
            );
            right_ordered = second.ordered;
          }) in
      rw (lt→ltb left right long, merge_parts)
        (
          record {
            ordered = whole.ordered;
            shuffled =
                IsShuffle-trans
                  (IsShuffle-widen left (right + 1) (omega arith) (omega arith) first.shuffled)
                  (IsShuffle-trans
                    (IsShuffle-widen left (right + 1) (omega arith) (omega arith) second.shuffled)
                    whole.shuffled);
          },
          t3 ∙ t2 ∙ t1,
        )
]

merge_parts-IsSortOf :
    (fuel : ℕ) (arr tmp_array : List ℕ) (size : ℕ)
    → size ≤ fuel
    → size ≤ length arr
    → size ≤ length tmp_array
    → IsSortOf size arr ((merge_parts fuel arr tmp_array 0 (size - 1)).0)
unfolding merge_parts
merge_parts-IsSortOf zero arr tmp_array zero few la lt = record {
  ordered = λ a b less to. absurd (omega arith);
  kept = λ x. refl;
  behind = λ k far. refl;
  same = refl;
}
merge_parts-IsSortOf (suc fuel) arr tmp_array zero few la lt = record {
  ordered = λ a b less to. absurd (omega arith);
  kept = λ x. refl;
  behind = λ k far. refl;
  same = refl;
}
merge_parts-IsSortOf fuel arr tmp_array (suc n) few la lt =
    let e : suc n - 1 + 1 ≡ suc n = omega arith in
    let (s, _) =
      merge_parts-IsRangeSort fuel arr tmp_array 0 (suc n - 1) (omega arith)
        (λ _. (omega arith, omega arith)) in
    IsRangeSort-IsSortOf (rw e at s)

-- `mergeSort` of the first `size` elements of an array that has as many, where these are at most
-- 2^30, with a temporary array of that length whatever it holds, ends without an overflow of an
-- `int` and puts them in order: they are the same values, each as often as before, and the elements
-- behind them stay.
pub merge_sort-IsSortOf :
    (arr tmp_array : List ℕ) (size : ℕ)
    → size ≤ length arr
    → size ≤ length tmp_array
    → size ≤ 2 ^ 30
    → (out : List ℕ) × (merge_sort (some tmp_array) arr size ≡ some out) × IsSortOf size arr out
merge_sort-IsSortOf arr tmp_array size la lt int = (
  (merge_parts (size + 1) arr tmp_array 0 (size - 1)).0,
  merge_sort-merge_parts arr tmp_array size int,
  merge_parts-IsSortOf (size + 1) arr tmp_array size (omega arith) la lt,
)
