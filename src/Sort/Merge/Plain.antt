-- ===== src/Sort/Merge/Plain.antt =====
-- example_sort.cpp: what `mSort` does where no `int` overflows; and that it does not overflow up to
-- 2^30 elements.
use uc.Prelude.{
  ℕ, zero, suc, ◌+◌, ◌-◌, ◌/◌, ◌^◌, ◌≤◌, ◌<◌, ◌≡◌, refl, arith, List, true, false, ltb, some,
  Bool-cases, inl, inr,
}
use uc.Sort.Merge.{merge, sort_from, merge_sort}

unfoldable pub merge_parts : ℕ → List ℕ → List ℕ → ℕ → ℕ → List ℕ × List ℕ
unfolding merge
merge_parts zero arr tmp_array left right = (arr, tmp_array)
merge_parts (suc fuel) arr tmp_array left right = elim (ltb left right) [
  | true ↦
      let center = (left + right) / 2 in
      let (arr', tmp') = merge_parts fuel arr tmp_array left center in
      let (arr'', tmp'') = merge_parts fuel arr' tmp' (center + 1) right in
      merge arr'' tmp'' left (center + 1) right
  | false ↦ (arr, tmp_array)
]

sort_from-merge_parts :
    (fuel : ℕ) (arr tmp_array : List ℕ) (left right : ℕ)
    → right < left + fuel
    → left ≤ right
    → right < 2 ^ 30
    → sort_from fuel arr tmp_array left right ≡ some (merge_parts fuel arr tmp_array left right)
unfolding sort_from merge_parts
sort_from-merge_parts zero arr tmp_array left right few le int = absurd (omega arith)
sort_from-merge_parts (suc fuel) arr tmp_array left right few le int =
    elim (Bool-cases (ltb left right)) [
      | inr short ↦ rw (short, sort_from, merge_parts) refl
      | inl long ↦
          let e : ltb (left + right) (2 ^ 31) ≡ true = ground arith in
          let center = (left + right) / 2 in
          let lt : left < right = ground arith in
          let first =
            sort_from-merge_parts fuel arr tmp_array left center (grind arith) (grind arith)
              (grind arith) in
          let (arr', tmp') = merge_parts fuel arr tmp_array left center in
          let second =
            sort_from-merge_parts fuel arr' tmp' (center + 1) right (grind arith) (grind arith)
              int in
          rw (long, sort_from, merge_parts, e, first, second) refl
    ]

-- The first array of `mSort` on the whole array
pub merge_sort-merge_parts :
    (arr tmp_array : List ℕ) (size : ℕ)
    → size ≤ 2 ^ 30
    → merge_sort (some tmp_array) arr size
      ≡ some ((merge_parts (size + 1) arr tmp_array 0 (size - 1)).0)
unfolding merge_sort
merge_sort-merge_parts arr tmp_array size int =
    let e =
      sort_from-merge_parts (size + 1) arr tmp_array 0 (size - 1) (omega arith) (omega arith)
        (omega arith) in
    rw (e, merge_sort) refl
