-- ===== src/Sort/Quick.antt =====
-- example_quicksort.cpp: `quicksort` of the elements from `left` to `right`.
--
-- Where the code computes `i-1` at 0, the model has 0 in place of -1, and `left>=right` ends the call
-- as it does at -1.
mod Split
pub mod Sorted
use uc.Prelude.{ℕ, zero, suc, ◌+◌, ◌-◌, List, set, Bool, true, false, ◌&&◌, ltb, leb, if◌then◌else◌}
use uc.Sort.{at}

-- `while(i<j && arr[j]>=key)j--;`
unfoldable pub scan_down : List ℕ → ℕ → ℕ → ℕ → ℕ
scan_down arr key i zero = 0
scan_down arr key i (suc j) = elim (ltb i (suc j) && leb key (at arr (suc j))) [
  | true ↦ scan_down arr key i j
  | false ↦ suc j
]

-- `while(i<j && arr[i]<=key)i++;`, which ends within `j - i` rounds.
unfoldable pub scan_up : ℕ → List ℕ → ℕ → ℕ → ℕ → ℕ
scan_up zero arr key i j = i
scan_up (suc fuel) arr key i j = elim (ltb i j && leb (at arr i) key) [
  | true ↦ scan_up fuel arr key (i + 1) j
  | false ↦ i
]

-- The loop on `i` and `j`, with the write of `key` behind it. A round leaves fewer elements between
-- the two.
unfoldable pub split : ℕ → List ℕ → ℕ → ℕ → ℕ → List ℕ × ℕ
unfolding scan_down scan_up
split zero arr key i j = (set arr i key, i)
split (suc fuel) arr key i j = elim (ltb i j) [
  | true ↦
      let j' = scan_down arr key i j in
      let arr' = set arr i (at arr j') in
      let i' = scan_up (j' - i) arr' key i j' in split fuel (set arr' j' (at arr' i')) key i' j'
  | false ↦ (set arr i key, i)
]

-- `quicksort`, with fuel for the depth of the calls.
unfoldable pub quick_from : ℕ → List ℕ → ℕ → ℕ → List ℕ
unfolding split
quick_from zero arr left right = arr
quick_from (suc fuel) arr left right = elim (leb right left) [
  | true ↦ arr
  | false ↦
      let (arr', i) = split (right - left) arr (at arr left) left right in
      quick_from fuel (quick_from fuel arr' (i + 1) right) left (i - 1)
]

-- A call has at least one element less than the call that makes it.
unfoldable pub quicksort : List ℕ → ℕ → ℕ → List ℕ
unfolding quick_from
quicksort arr left right = quick_from (right - left + 1) arr left right
