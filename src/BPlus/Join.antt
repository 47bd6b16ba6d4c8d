-- ===== src/BPlus/Join.antt =====
-- example_bplus_tree.cpp: what inner nodes hold when they borrow from each other or are merged.
use uc.Prelude.{ℕ, suc, ◌+◌, ◌-◌, ◌<◌, ◌≡◌, refl, ap, ◌∙◌, arith}
use native.Mathlib.Decide.{ℕ_discrete}
use uc.BPlus.{Node, internal, put, insert_child, insert_shift}
use uc.BPlus.Borrow.{left, right, remove_loop, remove_child, borrow_child}
use uc.BPlus.Arrays.{sum, sum_congr, sum-add, sum-inserted}
use uc.BPlus.Shift.{put_self, put_ne, insert_child_lem, insert_shift_lem}
use uc.BPlus.Lend.{remove_loop-Closed}
use uc.BPlus.Shape.{total}

-- A child is inserted in front of the others.
insert_first-sum :
    (n : ℕ) (keys : ℕ → ℕ) (childs : ℕ → Node) (key : ℕ) (child : Node) (g : Node → ℕ)
    → sum (suc (suc n)) (λ i. g ((insert_child n keys childs 0 0 key child).1 i))
      ≡ sum (suc n) (λ i. g (childs i)) + g child
unfolding insert_child
insert_first-sum n keys childs key child g =
    let c = (insert_shift_lem 0 (n - 0) keys childs).1 in
    let cs = (insert_shift 0 (n - 0) keys childs).1 in
    let moved = put cs 1 (cs 0) in
    sum-inserted (suc n) 0 (g child) (λ i. g (childs i)) (λ i. g (put moved 0 child i))
      (omega arith) (λ j lt. absurd (omega arith)) (ap g (put_self moved 0 child))
      (λ j ge lt.
        let up : moved (suc j) ≡ childs j = elim (ℕ_discrete j 0) [
          | yes first ↦ rw first (put_self cs 1 (cs 0) ∙ c.below 0 (omega arith))
          | no later ↦
              put_ne cs 1 (suc j) (cs 0) (omega arith) ∙ c.moved j (omega arith) (omega arith)
        ] in
        ap g (put_ne moved 0 (suc j) child (omega arith) ∙ up))

-- A child is inserted behind the others.
pub insert_last-sum :
    (n i j : ℕ) (keys : ℕ → ℕ) (childs : ℕ → Node) (key : ℕ) (child : Node) (g : Node → ℕ)
    → i ≡ n
    → j ≡ n + 1
    → sum (suc (suc n)) (λ x. g ((insert_child n keys childs i j key child).1 x))
      ≡ sum (suc n) (λ x. g (childs x)) + g child
insert_last-sum n i j keys childs key child g e_i e_j =
    rw (e_i, e_j)
      (let s = insert_child_lem n keys childs n key child (omega arith) in
        sum-inserted (suc n) (n + 1) (g child) (λ x. g (childs x))
          (λ x. g ((insert_child n keys childs n (n + 1) key child).1 x)) (omega arith)
          (λ x lt. ap g (s.low_childs x lt)) (ap g s.new_child)
          (λ x ge lt. ap g (s.high_childs x ge (omega arith))))

pub sum-zero : (f : ℕ → ℕ) → sum 0 f ≡ 0
unfolding sum
sum-zero f = refl

pub sum-step : (n m : ℕ) (f : ℕ → ℕ) → m ≡ suc n → sum m f ≡ sum n f + f n
unfolding sum
sum-step n m f e = ap (λ k. sum k f) e

-- The total of an inner node with `m` children.
pub total-internal :
    (w : ℕ → ℕ → ℕ) (m n : ℕ) (keys : ℕ → ℕ) (childs : ℕ → Node)
    → n + 1 ≡ m
    → total w (internal n keys childs) ≡ sum m (λ i. total w (childs i))
unfolding total
total-internal w m n keys childs e =
    ap (λ k. sum k (λ i. total w (childs i))) (let e' : suc n ≡ m = omega arith in e')

-- An inner node borrows a child from its left sibling: together they have the entries they had. From
-- the right sibling, the last child of that one is lost, and the one before it is there twice.
pub borrow_child-total :
    (n : ℕ) (keys : ℕ → ℕ) (childs : ℕ → Node) (key m : ℕ) (from_keys : ℕ → ℕ)
    (from_childs : ℕ → Node) (w : ℕ → ℕ → ℕ)
    → 0 < m
    → let before = total w (internal n keys childs) + total w (internal m from_keys from_childs) in
      let (node, sibling, new_key) = borrow_child left n keys childs key m from_keys from_childs in
      let (node', sibling', new_key') =
        borrow_child right n keys childs key m from_keys from_childs in
      (total w node + total w sibling ≡ before)
      × (total w node' + total w sibling' + total w (from_childs m)
          ≡ before + total w (from_childs (m - 1)))
unfolding borrow_child remove_child
borrow_child-total n keys childs key m from_keys from_childs w some_key =
    let g : Node → ℕ = total w in
    let (keys0, childs0) = insert_child n keys childs 0 0 key (from_childs m) in
    let (keys1, childs1) = insert_child n keys childs n (n + 1) key (from_childs 0) in
    let (rest_keys0, rest0) = remove_loop (m - (m - 1) - 1) 0 (m - 1) m from_keys from_childs in
    let (rest_keys, rest) = remove_loop (m - 0 - 1) 0 0 0 from_keys from_childs in
    let kept = (remove_loop-Closed (m - (m - 1) - 1) 0 (m - 1) m from_keys from_childs).1 in
    let closed = (remove_loop-Closed (m - 0 - 1) 0 0 0 from_keys from_childs).1 in
    let same =
      sum_congr m (λ i. g (rest0 i)) (λ i. g (from_childs i))
        (λ j lt. ap g (kept.below j (omega arith))) in
    let moved =
      sum_congr (m - 1) (λ i. g (rest i)) (λ i. g (from_childs (i + 1)))
        (λ j lt.
          let e : suc j ≡ j + 1 = omega arith in
          ap g (closed.moved j (omega arith) (omega arith) ∙ ap from_childs e)) in
    (
      omega (
        arith,
        insert_first-sum n keys childs key (from_childs m) g,
        total-internal w (suc n) n keys childs (omega arith),
        total-internal w (suc m) m from_keys from_childs (omega arith),
        sum-step m (suc m) (λ i. g (from_childs i)) refl,
        total-internal w (suc (suc n)) (n + 1) keys0 childs0 (omega arith),
        total-internal w m (m - 1) rest_keys0 rest0 (omega arith),
        same,
      ),
      omega (
        arith,
        insert_last-sum n n (n + 1) keys childs key (from_childs 0) g refl refl,
        total-internal w (suc n) n keys childs (omega arith),
        total-internal w (1 + (m - 1) + 1) m from_keys from_childs (omega arith),
        sum-step (m - 1) m (λ i. g (rest i)) (omega arith),
        sum-step m (1 + (m - 1) + 1) (λ i. g (from_childs i)) (omega arith),
        ap (λ k. sum k (λ i. g (from_childs i))) (let e : 1 + (m - 1) ≡ m = omega arith in e),
        total-internal w (suc (suc n)) (n + 1) keys1 childs1 (omega arith),
        total-internal w m (m - 1) rest_keys rest (omega arith),
        moved,
        ap g (closed.behind (m - 1) (omega arith)),
        sum-add 1 (m - 1) (λ i. g (from_childs i)),
        sum-step 0 1 (λ i. g (from_childs i)) refl,
        sum-zero (λ i. g (from_childs i)),
      ),
    )
