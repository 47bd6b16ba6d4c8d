-- ===== src/BPlus/Child.antt =====
-- example_bplus_tree.cpp: what the split of a child leaves in its parent.
use uc.Prelude.{ℕ, suc, ◌+◌, ◌-◌, ◌≤◌, ◌<◌, ◌≡◌, ◌≢◌, ap, arith}
use native.Mathlib.Decide.{ℕ_discrete, dec_lt}
use uc.BPlus.{Node, key_num, put, split, split_child, min_key, max_key_num}
use uc.BPlus.Arrays.{sum, sum-replaced, sum-inserted}
use uc.BPlus.Shift.{put_self, put_ne, insert_child_lem}
use uc.BPlus.Shape.{total, Sized, split-Halves}

-- Every child of a node of `n` keys has depth `h` and enough keys.
unfoldable pub AllSized : ℕ → ℕ → (ℕ → Node) → Type 0
AllSized h n childs = (i : ℕ) → i < suc n → (min_key ≤ key_num (childs i)) × Sized h (childs i)

-- The children of a node of `n` keys behind the split of the one at `c`.
pub record Divided (h n c : ℕ) (childs childs' : ℕ → Node) : Type 0 where
  pub sized : AllSized h (suc n) childs'
  pub left_room : key_num (childs' c) < max_key_num
  pub right_room : key_num (childs' (c + 1)) < max_key_num
  pub entries :
      (w : ℕ → ℕ → ℕ)
      → sum (suc (suc n)) (λ i. total w (childs' i)) ≡ sum (suc n) (λ i. total w (childs i))

pub split_child-Divided :
    (h n : ℕ) (keys : ℕ → ℕ) (childs : ℕ → Node) (c : ℕ)
    → c < suc n
    → AllSized h n childs
    → key_num (childs c) ≡ max_key_num
    → Divided h n c childs (split_child n keys childs c).1
unfolding split_child AllSized
split_child-Divided h n keys childs c lt sized full =
    let (left, key, right) = split (childs c) in
    let half = split-Halves h (childs c) (sized c lt).1 full in
    let changed = put childs c left in
    let s = insert_child_lem n keys changed c key right (omega arith) in
    let here : changed c ≡ left = put_self childs c left in
    let other : (j : ℕ) → j ≢ c → changed j ≡ childs j = λ j ne. put_ne childs c j left ne in
    record {
      sized = λ i less. elim (ℕ_discrete i c) [
        | yes same ↦
            rw (same, s.low_childs c (omega arith), here)
              (omega (arith, half.left_num), half.left_sized)
        | no apart ↦ elim (ℕ_discrete i (c + 1)) [
          | yes new ↦ rw (new, s.new_child) (half.right_num.0, half.right_sized)
          | no far ↦ elim (dec_lt i c) [
            | yes low ↦ rw (s.low_childs i (omega arith), other i apart) (sized i (omega arith))
            | no high ↦
                let e : suc (i - 1) ≡ i = omega arith in
                rw
                  (
                    ← e,
                    s.high_childs (i - 1) (omega arith) (omega arith),
                    other (i - 1) (omega arith),
                  )
                  (sized (i - 1) (omega arith))
          ]
        ]
      ];
      left_room = rw (s.low_childs c (omega arith), here) (omega (arith, half.left_num));
      right_room = rw (s.new_child) (omega (arith, half.right_num.1));
      entries = λ w. omega (
        arith,
        sum-inserted (suc n) (c + 1) (total w right) (λ i. total w (changed i))
            (λ i. total w ((split_child n keys childs c).1 i)) (omega arith)
            (λ j less. ap (total w) (s.low_childs j less)) (ap (total w) s.new_child)
            (λ j ge less. ap (total w) (s.high_childs j ge (omega arith))),
        sum-replaced (suc n) c (total w left) (λ i. total w (childs i)) (λ i. total w (changed i))
            lt (ap (total w) here) (λ j less ne. ap (total w) (other j ne)),
        half.entries w,
      );
    }
