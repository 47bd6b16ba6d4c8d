-- ===== src/Sort/Merge/Part.antt =====
-- example_sort.cpp: `merge` puts two parts that are in order together.
use uc.Prelude.{ℕ, ◌+◌, ◌-◌, ◌≤◌, ◌<◌, ◌≡◌, refl, ◌∙◌, arith, List, length, inl, inr}
use uc.Sort.{at}
use uc.Sort.Count.{count}
use uc.Sort.Shuffle.{IsRangeSort}
use uc.Sort.Merge.{Merging, merge_both, merge_left, merge_right, copy_back, merge}
use uc.Sort.Merge.Counts.{count_in, count_in-split}
use uc.Sort.Merge.Step.{IsMerging, IsHalved}
use uc.Sort.Merge.Loops.{
  both-IsMerging, left-IsMerging, right-IsMerging, length-merge_both, length-merge_left,
  length-merge_right,
}
use uc.Sort.Merge.Back.{length-copy_back, at-copy_back, count-copy_back}

full_counts :
    (arr : List ℕ) (lo mid hi : ℕ) (s : Merging)
    → IsMerging arr lo mid hi s
    → mid ≤ s.lpos
    → hi ≤ s.rpos
    → (x : ℕ) {c : ℕ}
    → c + count_in x arr lo (hi - lo) ≡ count x arr + count_in x s.tmp_array lo (hi - lo)
    → c ≡ count x arr
unfolding count_in
full_counts arr lo mid hi s m done_left done_right x e =
    let full : s.tmp_pos ≡ hi = omega (arith, m.place, m.left_to, m.right_to) in
    let left : mid - s.lpos ≡ 0 = omega arith in
    let right : hi - s.rpos ≡ 0 = omega arith in
    let c = m.counts x in let c' = rw (full, left, right) at c in omega (arith, c', e)

-- The temporary array is full: what the last loop copies back is in order.
merged-IsRangeSort :
    (arr : List ℕ) (lo mid hi rightend : ℕ) (s : Merging)
    → rightend + 1 ≡ hi
    → hi ≤ length arr
    → IsMerging arr lo mid hi s
    → mid ≤ s.lpos
    → hi ≤ s.rpos
    → IsRangeSort lo hi arr (copy_back arr s.tmp_array (hi - lo) rightend)
merged-IsRangeSort arr lo mid hi rightend s last len m done_left done_right =
    let full : s.tmp_pos ≡ hi = omega (arith, m.place, m.left_to, m.right_to) in
    let lo_le : lo ≤ hi = omega (arith, m.from, m.left_to, m.middle, m.right_to) in
    let whole : lo + (hi - lo) ≡ hi = omega arith in
    let back = λ (k : ℕ).
      at-copy_back arr s.tmp_array (hi - lo) lo rightend k (λ p. omega arith) (omega arith) in
    let inside : (k : ℕ)
        → lo ≤ k
        → k < hi
        → at (copy_back arr s.tmp_array (hi - lo) rightend) k ≡ at s.tmp_array k =
      λ k a b. (back k).0 a (omega arith) in
    record {
      ordered = λ a b from lt to. omega (
        arith,
        inside a from (omega arith),
        inside b (omega arith) to,
        m.ordered a b from lt (omega arith),
      );
      shuffled = record {
        kept = λ x. full_counts arr lo mid hi s m done_left done_right x (
            count-copy_back x arr s.tmp_array (hi - lo) lo rightend (λ p. omega arith)
              (omega arith));
        same = length-copy_back arr s.tmp_array (hi - lo) rightend;
        outside = λ k o. (back k).1 (elim o [ inl l ↦ inl l | inr r ↦ inr (omega arith) ]);
        below = λ v h k a b. omega (arith, inside k a b, m.below v h k a (omega arith));
        above = λ v h k a b. omega (arith, inside k a b, m.above v h k a (omega arith));
      };
    }

-- Before the loops
start-IsMerging :
    (arr tmp_array : List ℕ) (lo mid hi : ℕ)
    → lo ≤ mid
    → mid ≤ hi
    → hi ≤ length tmp_array
    → IsMerging arr lo mid hi
        (record { tmp_array = tmp_array; lpos = lo; rpos = mid; tmp_pos = lo })
unfolding count_in
start-IsMerging arr tmp_array lo mid hi le ge room = record {
  from = omega arith;
  left_to = le;
  middle = omega arith;
  right_to = ge;
  room = room;
  place = omega arith;
  ordered = λ a b f l t. absurd (omega arith);
  under_left = λ a b f l g t. absurd (omega arith);
  under_right = λ a b f l g t. absurd (omega arith);
  below = λ v k a f l. absurd (omega arith);
  above = λ v k a f l. absurd (omega arith);
  counts = λ x.
      let none_yet : lo - lo ≡ 0 = omega arith in
      let parts : hi - lo ≡ (mid - lo) + (hi - mid) = omega arith in
      let whole : lo + (mid - lo) ≡ mid = omega arith in
      let split = count_in-split x arr lo (mid - lo) (hi - mid) in
      let split' = rw whole at split in rw (none_yet, parts) (omega (arith, split'));
}

pub merge-IsRangeSort :
    (arr tmp_array : List ℕ) (lo mid rightend : ℕ)
    → lo < mid
    → mid ≤ rightend + 1
    → rightend < length arr
    → rightend < length tmp_array
    → IsHalved arr lo mid (rightend + 1)
    → IsRangeSort lo (rightend + 1) arr (merge arr tmp_array lo mid rightend).0
      × (length (merge arr tmp_array lo mid rightend).1 ≡ length tmp_array)
unfolding merge
merge-IsRangeSort arr tmp_array lo mid rightend lt le len room h =
    let hi : ℕ = rightend + 1 in
    let n : ℕ = hi - lo in
    let s : Merging = record { tmp_array = tmp_array; lpos = lo; rpos = mid; tmp_pos = lo } in
    let last : mid - 1 + 1 ≡ mid = omega arith in
    let (m, o) =
      both-IsMerging arr lo mid hi (mid - 1) rightend last refl h n s (omega arith)
        (start-IsMerging arr tmp_array lo mid hi (omega arith) le (omega arith)) in
    let s1 : Merging = merge_both n arr (mid - 1) rightend s in
    let (m', l) =
      left-IsMerging arr lo mid hi (mid - 1) rightend last refl h n s1 (omega (arith, m.from)) o
        m in
    let s2 : Merging = merge_left n arr (mid - 1) s1 in
    let (m'', l', r) =
      right-IsMerging arr lo mid hi (mid - 1) rightend last refl h n s2 (omega (arith, m'.middle)) l
        m' in
    (
      merged-IsRangeSort arr lo mid hi rightend (merge_right n arr rightend s2) refl (omega arith)
          m'' l' r,
      length-merge_right n arr rightend s2
          ∙ length-merge_left n arr (mid - 1) s1
          ∙ length-merge_both n arr (mid - 1) rightend s,
    )
