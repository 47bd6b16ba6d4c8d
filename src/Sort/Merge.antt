-- ===== src/Sort/Merge.antt =====
-- example_sort.cpp: `mergeSort`.
--
-- A position behind the last of a part, `leftEnd` or `rightend`, is a place of the array. The code's
-- -1 for `size - 1` and behind the last write of `merge` is 0 here, and is not used as a place.
mod Plain
mod Counts
mod Step
mod Loops
mod Back
mod Part
pub mod Sorted
use uc.Prelude.{
  ℕ, zero, suc, ◌+◌, ◌-◌, ◌/◌, ◌^◌, List, set, Bool, true, false, ◌&&◌, ltb, leb, if◌then◌else◌,
  Option, none, some,
}
use uc.Sort.{at}

-- The variables of `merge` that its loops change.
pub record Merging : Type 0 where
  pub tmp_array : List ℕ
  pub lpos : ℕ
  pub rpos : ℕ
  pub tmp_pos : ℕ

-- `tmpArray[tmpPos++] = arr[lpos++];`
unfoldable pub take_left : List ℕ → Merging → Merging
take_left arr s = record s {
  tmp_array = set s.tmp_array s.tmp_pos (at arr s.lpos);
  lpos = s.lpos + 1;
  tmp_pos = s.tmp_pos + 1;
}

-- `tmpArray[tmpPos++] = arr[rpos++];`
unfoldable pub take_right : List ℕ → Merging → Merging
take_right arr s = record s {
  tmp_array = set s.tmp_array s.tmp_pos (at arr s.rpos);
  rpos = s.rpos + 1;
  tmp_pos = s.tmp_pos + 1;
}

-- The first loop of `merge`. A round of it leaves one element less.
unfoldable pub merge_both : ℕ → List ℕ → ℕ → ℕ → Merging → Merging
unfolding take_left take_right
merge_both zero arr left_end rightend s = s
merge_both (suc fuel) arr left_end rightend s = elim (leb s.lpos left_end && leb s.rpos rightend) [
  | true ↦
      merge_both fuel arr left_end rightend
        (if leb (at arr s.lpos) (at arr s.rpos) then take_left arr s else take_right arr s)
  | false ↦ s
]

-- The second loop
unfoldable pub merge_left : ℕ → List ℕ → ℕ → Merging → Merging
unfolding take_left
merge_left zero arr left_end s = s
merge_left (suc fuel) arr left_end s = elim (leb s.lpos left_end) [
  | true ↦ merge_left fuel arr left_end (take_left arr s)
  | false ↦ s
]

-- The third loop
unfoldable pub merge_right : ℕ → List ℕ → ℕ → Merging → Merging
unfolding take_right
merge_right zero arr rightend s = s
merge_right (suc fuel) arr rightend s = elim (leb s.rpos rightend) [
  | true ↦ merge_right fuel arr rightend (take_right arr s)
  | false ↦ s
]

-- The last loop, with `n` rounds left.
unfoldable pub copy_back : List ℕ → List ℕ → ℕ → ℕ → List ℕ
copy_back arr tmp_array zero rightend = arr
copy_back arr tmp_array (suc n) rightend =
    copy_back (set arr rightend (at tmp_array rightend)) tmp_array n (rightend - 1)

-- `merge`, with the two arrays behind it.
unfoldable pub merge : List ℕ → List ℕ → ℕ → ℕ → ℕ → List ℕ × List ℕ
unfolding merge_both merge_left merge_right copy_back
merge arr tmp_array lpos rpos rightend =
    let left_end = rpos - 1 in
    let n = rightend + 1 - lpos in
    let s : Merging = record { tmp_array = tmp_array; lpos = lpos; rpos = rpos; tmp_pos = lpos } in
    let s' = merge_both n arr left_end rightend s in
    let s'' = merge_right n arr rightend (merge_left n arr left_end s') in
    (copy_back arr s''.tmp_array n rightend, s''.tmp_array)

-- `mSort`, with fuel for the depth of the calls. It is `none` where `left + right` overflows an
-- `int`, which C leaves open, and where the fuel runs out.
unfoldable pub sort_from : ℕ → List ℕ → List ℕ → ℕ → ℕ → Option (List ℕ × List ℕ)
unfolding merge
sort_from zero arr tmp_array left right = none
sort_from (suc fuel) arr tmp_array left right = elim (ltb left right) [
  | true ↦ elim (ltb (left + right) (2 ^ 31)) [
    | true ↦
        let center = (left + right) / 2 in
        elim (sort_from fuel arr tmp_array left center) [
          | none ↦ none
          | some (arr', tmp') ↦ elim (sort_from fuel arr' tmp' (center + 1) right) [
            | none ↦ none
            | some (arr'', tmp'') ↦ some (merge arr'' tmp'' left (center + 1) right)
          ]
        ]
    | false ↦ none
  ]
  | false ↦ some (arr, tmp_array)
]

-- `mergeSort`, with what `malloc` returns. The two calls of a call have fewer elements each, so
-- that the depth is at most `size`.
unfoldable pub merge_sort : Option (List ℕ) → List ℕ → ℕ → Option (List ℕ)
unfolding sort_from
merge_sort none arr size = some arr
merge_sort (some tmp_array) arr size = elim (sort_from (size + 1) arr tmp_array 0 (size - 1)) [
  | none ↦ none
  | some (arr', _) ↦ some arr'
]
