-- ===== src/Sort/Merge/Loops.antt =====
-- example_sort.cpp: the three loops of `merge` that fill the temporary array.
use uc.Prelude.{
  ℕ, zero, suc, ◌+◌, ◌-◌, ◌≤◌, ◌≡◌, refl, arith, List, length, length-set, leb, ◌&&◌, if◌then◌else◌,
  Bool-cases, inl, inr, ◌⊎◌,
}
use native.Mathlib.Decide.{dec_lt}
use uc.Sort.{at}
use uc.Sort.Merge.{Merging, take_left, take_right, merge_both, merge_left, merge_right}
use uc.Sort.Merge.Step.{IsMerging, IsHalved, take_left-IsMerging, take_right-IsMerging}

module _ (arr : List ℕ) (lo mid hi left_end rightend : ℕ) (last_left : left_end + 1 ≡ mid)
    (last_right : rightend + 1 ≡ hi) (h : IsHalved arr lo mid hi) where
  pub both-IsMerging :
      (fuel : ℕ) (s : Merging)
      → (mid - s.lpos) + (hi - s.rpos) ≤ fuel
      → IsMerging arr lo mid hi s
      → IsMerging arr lo mid hi (merge_both fuel arr left_end rightend s)
        × ((mid ≤ (merge_both fuel arr left_end rightend s).lpos)
            ⊎ (hi ≤ (merge_both fuel arr left_end rightend s).rpos))
  unfolding merge_both
  both-IsMerging zero s few m = (m, inl (omega arith))
  both-IsMerging (suc fuel) s few m =
      elim (Bool-cases (leb s.lpos left_end && leb s.rpos rightend)) [
        | inr ends ↦
            rw (ends, merge_both)
              (
                m,
                elim (dec_lt s.lpos mid) [
                  | yes left ↦ inr (ground arith)
                  | no done ↦ inl (omega arith)
                ],
              )
        | inl goes ↦ elim (Bool-cases (leb (at arr s.lpos) (at arr s.rpos))) [
          | inl le ↦
              rw (goes, merge_both, le)
                (both-IsMerging fuel (take_left arr s) (ground arith)
                  (take_left-IsMerging h m (ground arith) (λ _. ground arith)))
          | inr gt ↦
              rw (goes, merge_both, gt)
                (both-IsMerging fuel (take_right arr s) (ground arith)
                  (take_right-IsMerging h m (ground arith) (λ _. ground arith)))
        ]
      ]

  pub left-IsMerging :
      (fuel : ℕ) (s : Merging)
      → mid - s.lpos ≤ fuel
      → (mid ≤ s.lpos) ⊎ (hi ≤ s.rpos)
      → IsMerging arr lo mid hi s
      → IsMerging arr lo mid hi (merge_left fuel arr left_end s)
        × (mid ≤ (merge_left fuel arr left_end s).lpos)
  unfolding merge_left
  left-IsMerging zero s few o m = (m, omega arith)
  left-IsMerging (suc fuel) s few o m = elim (Bool-cases (leb s.lpos left_end)) [
    | inr ends ↦ rw (ends, merge_left) (m, ground arith)
    | inl goes ↦
        let right : hi ≤ s.rpos = elim o [ inl x ↦ absurd (ground arith) | inr y ↦ y ] in
        rw (goes, merge_left)
          (left-IsMerging fuel (take_left arr s) (ground arith) (inr right)
            (take_left-IsMerging h m (ground arith) (λ x. absurd (omega arith))))
  ]

  pub right-IsMerging :
      (fuel : ℕ) (s : Merging)
      → hi - s.rpos ≤ fuel
      → mid ≤ s.lpos
      → IsMerging arr lo mid hi s
      → IsMerging arr lo mid hi (merge_right fuel arr rightend s)
        × (mid ≤ (merge_right fuel arr rightend s).lpos)
        × (hi ≤ (merge_right fuel arr rightend s).rpos)
  unfolding merge_right
  right-IsMerging zero s few o m = (m, o, omega arith)
  right-IsMerging (suc fuel) s few o m = elim (Bool-cases (leb s.rpos rightend)) [
    | inr ends ↦ rw (ends, merge_right) (m, o, ground arith)
    | inl goes ↦
        rw (goes, merge_right)
          (right-IsMerging fuel (take_right arr s) (ground arith) (ground arith)
            (take_right-IsMerging h m (ground arith) (λ x. absurd (omega arith))))
  ]

length-take_left :
    (arr : List ℕ) (s : Merging) → length (take_left arr s).tmp_array ≡ length s.tmp_array
unfolding take_left
length-take_left arr s = length-set s.tmp_array s.tmp_pos (at arr s.lpos)

length-take_right :
    (arr : List ℕ) (s : Merging) → length (take_right arr s).tmp_array ≡ length s.tmp_array
unfolding take_right
length-take_right arr s = length-set s.tmp_array s.tmp_pos (at arr s.rpos)

pub length-merge_both :
    (fuel : ℕ) (arr : List ℕ) (left_end rightend : ℕ) (s : Merging)
    → length (merge_both fuel arr left_end rightend s).tmp_array ≡ length s.tmp_array
unfolding merge_both
length-merge_both zero arr left_end rightend s = refl
length-merge_both (suc fuel) arr left_end rightend s =
    let next : Merging =
      (if leb (at arr s.lpos) (at arr s.rpos) then take_left arr s else take_right arr s) in
    ground (
      arith,
      length-merge_both fuel arr left_end rightend next,
      length-take_left arr s,
      length-take_right arr s,
    )

pub length-merge_left :
    (fuel : ℕ) (arr : List ℕ) (left_end : ℕ) (s : Merging)
    → length (merge_left fuel arr left_end s).tmp_array ≡ length s.tmp_array
unfolding merge_left
length-merge_left zero arr left_end s = refl
length-merge_left (suc fuel) arr left_end s =
    ground (arith, length-merge_left fuel arr left_end (take_left arr s), length-take_left arr s)

pub length-merge_right :
    (fuel : ℕ) (arr : List ℕ) (rightend : ℕ) (s : Merging)
    → length (merge_right fuel arr rightend s).tmp_array ≡ length s.tmp_array
unfolding merge_right
length-merge_right zero arr rightend s = refl
length-merge_right (suc fuel) arr rightend s =
    ground (arith, length-merge_right fuel arr rightend (take_right arr s), length-take_right arr s)
