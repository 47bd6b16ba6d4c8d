-- ===== src/Sort/Quick/Sorted.antt =====
-- example_quicksort.cpp: what `quicksort` does to an array.
use uc.Prelude.{
  ℕ, zero, suc, ◌+◌, ◌-◌, ◌≤◌, ◌<◌, ◌≡◌, refl, ◌∙◌, arith, List, length, leb, inl, inr, Bool-cases,
}
use native.Mathlib.Decide.{dec_lt, ℕ_discrete}
use uc.Sort.{at}
use uc.Sort.Shuffle.{IsShuffle-refl, IsShuffle-trans, IsShuffle-widen, IsRangeSort}
use uc.Sort.Quick.{split, quick_from, quicksort}
use uc.Sort.Quick.Split.{IsSplit, split-start}

-- A range of at most one element
short-IsRangeSort : (arr : List ℕ) (lo hi : ℕ) → hi ≤ lo + 1 → IsRangeSort lo hi arr arr
short-IsRangeSort arr lo hi le = record {
  ordered = λ a b from lt to. absurd (omega arith);
  shuffled = IsShuffle-refl lo hi arr;
}

quick_from-short :
    (fuel : ℕ) (arr : List ℕ) (left right : ℕ) → right ≤ left → quick_from fuel arr left right ≡ arr
unfolding quick_from
quick_from-short zero arr left right le = refl
quick_from-short (suc fuel) arr left right le = ground arith

-- The range from `left` to `p - 1`, which the code computes as -1 for 0.
before-IsRangeSort :
    {b c : List ℕ} (left p : ℕ)
    → left ≤ p
    → IsRangeSort left (p - 1 + 1) b c
    → (p ≤ left → c ≡ b)
    → IsRangeSort left p b c
before-IsRangeSort {b} {c} left zero le s same =
    rw (same (omega arith)) (short-IsRangeSort b left 0 (omega arith))
before-IsRangeSort left (suc p) le s same = let e : suc p - 1 + 1 ≡ suc p = omega arith in rw e at s

-- The two parts around `p` in order give the whole in order.
parts-IsRangeSort :
    {left right : ℕ} {x a b c : List ℕ} {p : ℕ}
    → IsSplit left right x a p
    → IsRangeSort (p + 1) (right + 1) a b
    → IsRangeSort left p b c
    → IsRangeSort left (right + 1) x c
parts-IsRangeSort {left} {right} {x} {a} {b} {c} {p} s hi lo =
    let at_p : at c p ≡ at a p =
      lo.shuffled.outside p (inr (omega arith)) ∙ hi.shuffled.outside p (inl (omega arith)) in
    let low : (k : ℕ) → left ≤ k → k < p → at c k ≤ at a p =
      lo.shuffled.below (at a p)
        (λ k f t. omega (arith, hi.shuffled.outside k (inl (omega arith)), s.small k f t)) in
    let high : (k : ℕ) → p < k → k ≤ right → at a p ≤ at c k = λ k f t. omega (
      arith,
      lo.shuffled.outside k (inr (omega arith)),
      hi.shuffled.above (at a p) (λ j g u. s.large j (omega arith) (omega arith)) k (omega arith)
          (omega arith),
    ) in
    record {
      ordered = λ i j from lt to. elim (dec_lt j p) [
        | yes both ↦ lo.ordered i j from lt both
        | no right_of ↦ elim (dec_lt p i) [
          | yes beyond ↦ omega (
            arith,
            lo.shuffled.outside i (inr (omega arith)),
            lo.shuffled.outside j (inr (omega arith)),
            hi.ordered i j (omega arith) lt to,
          )
          | no up_to ↦
              let i_le : at c i ≤ at a p = elim (ℕ_discrete i p) [
                | yes e ↦ ground (arith, at_p)
                | no ne ↦ low i from (omega arith)
              ] in
              let le_j : at a p ≤ at c j = elim (ℕ_discrete j p) [
                | yes e ↦ ground (arith, at_p)
                | no ne ↦ high j (omega arith) (omega arith)
              ] in
              omega arith
        ]
      ];
      shuffled = IsShuffle-trans s.shuffled (
          IsShuffle-trans
            (IsShuffle-widen left (right + 1) (omega (arith, s.from)) (omega arith) hi.shuffled)
            (IsShuffle-widen left (right + 1) (omega arith) (omega (arith, s.to)) lo.shuffled));
    }

quick_from-IsRangeSort :
    (fuel : ℕ) (arr : List ℕ) (left right : ℕ)
    → right ≤ left + fuel
    → (left < right → right < length arr)
    → IsRangeSort left (right + 1) arr (quick_from fuel arr left right)
unfolding quick_from
quick_from-IsRangeSort zero arr left right few len =
    short-IsRangeSort arr left (right + 1) (omega arith)
quick_from-IsRangeSort (suc fuel) arr left right few len = elim (Bool-cases (leb right left)) [
  | inl short ↦ rw (short, quick_from) (short-IsRangeSort arr left (right + 1) (ground arith))
  | inr long ↦
      let lt : left < right = ground arith in
      let s = split-start arr left right lt (len lt) in
      let a : List ℕ = (split (right - left) arr (at arr left) left right).0 in
      let p : ℕ = (split (right - left) arr (at arr left) left right).1 in
      let hi =
        quick_from-IsRangeSort fuel a (p + 1) right (omega (arith, s.from))
          (λ _. omega (arith, s.shuffled.same, len lt)) in
      let b : List ℕ = quick_from fuel a (p + 1) right in
      let lo =
        quick_from-IsRangeSort fuel b left (p - 1) (omega (arith, s.to))
          (λ _. omega (arith, s.to, hi.shuffled.same, s.shuffled.same, len lt)) in
      rw (long, quick_from)
        (parts-IsRangeSort s hi (
          before-IsRangeSort left p s.from lo
            (λ le. quick_from-short fuel b left (p - 1) (omega arith))))
]

-- `quicksort` from `left` to `right`, where `right` is a place of the array, puts the elements
-- between these places, both included, in order: they are the same values, each as often as before,
-- and the elements outside stay.
pub quicksort-IsRangeSort :
    (arr : List ℕ) (left right : ℕ)
    → right < length arr
    → IsRangeSort left (right + 1) arr (quicksort arr left right)
unfolding quicksort
quicksort-IsRangeSort arr left right len =
    quick_from-IsRangeSort (right - left + 1) arr left right (omega arith) (λ _. len)
