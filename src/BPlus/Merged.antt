-- ===== src/BPlus/Merged.antt =====
-- example_bplus_tree.cpp: what a parent holds when two of its children are merged.
use uc.Prelude.{
  ℕ, zero, suc, ◌+◌, ◌-◌, ◌≤◌, ◌<◌, ◌≡◌, ◌≢◌, refl, sym, ap, ◌∙◌, arith, ltb, if◌then◌else◌,
  Bool-cases, inl, inr,
}
use uc.BPlus.{
  Node, leaf, internal, put, insert_entry, insert_child, min_key, max_key_num, merge_entries,
}
use uc.BPlus.Borrow.{remove_child, remove_loop, merge_loop, merge_nodes, merge_child}
use uc.BPlus.Arrays.{sum, sum_congr, sum-add, sum-inserted, sum-replaced}
use uc.BPlus.Shift.{put_self, put_ne}
use uc.BPlus.Lend.{remove_loop-Closed, insert_entry-total}
use uc.BPlus.Join.{insert_last-sum, sum-step, sum-zero, total-internal}
use uc.BPlus.Shape.{total}

-- What two children have when `mergeChild` is called: they are of one class, and inner ones have
-- MINNUM_KEY keys.
unfoldable pub Mergeable : Node → Node → Type 0
Mergeable (leaf n keys datas) (leaf m from_keys from_datas) = n + m ≤ max_key_num
Mergeable (leaf n keys datas) (internal m from_keys from_childs) = ⊥
Mergeable (internal n keys childs) (leaf m from_keys from_datas) = ⊥
Mergeable (internal n keys childs) (internal m from_keys from_childs) =
    (n ≡ min_key) × (m ≡ min_key)

-- The first value of a sum.
sum-first : (r : ℕ) (f : ℕ → ℕ) → sum (suc r) f ≡ f 0 + sum r (λ j. f (j + 1))
sum-first r f = omega (
  arith,
  ap (λ k. sum k f) (let e : suc r ≡ 1 + r = omega arith in e),
  sum-add 1 r f,
  sum-step 0 1 f refl,
  sum-zero f,
)

total-empty : (w : ℕ → ℕ → ℕ) (keys datas : ℕ → ℕ) → total w (leaf 0 keys datas) ≡ 0
unfolding total sum
total-empty w keys datas = refl

-- The first entry of a leaf whose entries are those from `i` on.
total-first :
    (r i : ℕ) (keys datas : ℕ → ℕ) (w : ℕ → ℕ → ℕ)
    → total w (leaf (suc r) (λ j. keys (i + j)) (λ j. datas (i + j)))
      ≡ w (keys i) (datas i) + total w (leaf r (λ j. keys (i + 1 + j)) (λ j. datas (i + 1 + j)))
unfolding total
total-first r i keys datas w =
    let at : ℕ → ℕ = λ k. w (keys k) (datas k) in
    let later =
      sum_congr r (λ j. at (i + (j + 1))) (λ j. at (i + 1 + j))
        (λ j lt. ap at (let e : i + (j + 1) ≡ i + 1 + j = omega arith in e)) in
    omega
      (arith, sum-first r (λ j. at (i + j)), ap at (let e : i + 0 ≡ i = omega arith in e), later)

-- The entries from the first on.
total_from :
    (m : ℕ) (keys datas : ℕ → ℕ) (w : ℕ → ℕ → ℕ)
    → total w (leaf m (λ j. keys (0 + j)) (λ j. datas (0 + j))) ≡ total w (leaf m keys datas)
unfolding total
total_from m keys datas w =
    sum_congr m (λ j. w (keys (0 + j)) (datas (0 + j))) (λ j. w (keys j) (datas j))
      (λ j lt. ap (λ k. w (keys k) (datas k)) (let e : 0 + j ≡ j = omega arith in e))

merge_loop-sum :
    (r i : ℕ) (from_keys : ℕ → ℕ) (from_childs : ℕ → Node) (n : ℕ) (keys : ℕ → ℕ)
    (childs : ℕ → Node) (g : Node → ℕ)
    → n ≡ min_key
    → sum (suc (n + i) + r) (λ x. g ((merge_loop r i from_keys from_childs n keys childs).1 x))
      ≡ sum (suc (n + i)) (λ x. g (childs x)) + sum r (λ j. g (from_childs (i + j)))
unfolding merge_loop
merge_loop-sum zero i from_keys from_childs n keys childs g few = omega (
  arith,
  ap (λ k. sum k (λ x. g (childs x))) (let e : suc (n + i) + 0 ≡ suc (n + i) = omega arith in e),
  sum-zero (λ j. g (from_childs (i + j))),
)
merge_loop-sum (suc r) i from_keys from_childs n keys childs g few =
    let (keys', childs') =
      insert_child (n + i) keys childs (min_key + i) (min_key + i + 1) (from_keys (i - 1))
        (from_childs i) in
    let (keys'', childs'') = merge_loop r (i + 1) from_keys from_childs n keys' childs' in
    let later =
      sum_congr r (λ j. g (from_childs (i + (j + 1)))) (λ j. g (from_childs (i + 1 + j)))
        (λ j lt.
          ap (λ k. g (from_childs k)) (let e : i + (j + 1) ≡ i + 1 + j = omega arith in e)) in
    omega (
      arith,
      insert_last-sum (n + i) (min_key + i) (min_key + i + 1) keys childs (from_keys (i - 1))
          (from_childs i) g (omega arith) (omega arith),
      merge_loop-sum r (i + 1) from_keys from_childs n keys' childs' g few,
      ap (λ k. sum k (λ x. g (childs' x)))
          (let e : suc (n + (i + 1)) ≡ suc (suc (n + i)) = omega arith in e),
      ap (λ k. sum k (λ x. g (childs'' x)))
          (let e : suc (n + i) + suc r ≡ suc (n + (i + 1)) + r = omega arith in e),
      sum-first r (λ j. g (from_childs (i + j))),
      ap (λ k. g (from_childs k)) (let e : i + 0 ≡ i = omega arith in e),
      later,
    )

merge_entries-total :
    (r i : ℕ) (from_keys from_datas : ℕ → ℕ) (n : ℕ) (keys datas : ℕ → ℕ) (w : ℕ → ℕ → ℕ)
    → let (keys', datas') = merge_entries r i from_keys from_datas n keys datas in
      total w (leaf (n + r) keys' datas')
      ≡ total w (leaf n keys datas)
        + total w (leaf r (λ j. from_keys (i + j)) (λ j. from_datas (i + j)))
unfolding merge_entries
merge_entries-total zero i from_keys from_datas n keys datas w = omega (
  arith,
  ap (λ k. total w (leaf k keys datas)) (let e : n + 0 ≡ n = omega arith in e),
  total-empty w (λ j. from_keys (i + j)) (λ j. from_datas (i + j)),
)
merge_entries-total (suc r) i from_keys from_datas n keys datas w =
    let (keys', datas') = insert_entry n keys datas (from_keys i) (from_datas i) in
    let (keys'', datas'') = merge_entries r (i + 1) from_keys from_datas (n + 1) keys' datas' in
    omega (
      arith,
      insert_entry-total n keys datas (from_keys i) (from_datas i) w,
      merge_entries-total r (i + 1) from_keys from_datas (n + 1) keys' datas' w,
      ap (λ k. total w (leaf k keys'' datas'')) (let e : n + suc r ≡ n + 1 + r = omega arith in e),
      total-first r i from_keys from_datas w,
    )

-- Two nodes that may be merged: the node has the entries of both.
merge_nodes-total :
    (t : Node) (key : ℕ) (s : Node) (w : ℕ → ℕ → ℕ)
    → Mergeable t s
    → total w (merge_nodes t key s) ≡ total w t + total w s
unfolding merge_nodes Mergeable
merge_nodes-total (leaf n keys datas) key (leaf m from_keys from_datas) w fit = omega (
  arith,
  merge_entries-total m 0 from_keys from_datas n keys datas w,
  total_from m from_keys from_datas w,
)
merge_nodes-total (leaf n keys datas) key (internal m from_keys from_childs) w bad = absurd bad
merge_nodes-total (internal n keys childs) key (leaf m from_keys from_datas) w bad = absurd bad
merge_nodes-total (internal n keys childs) key (internal m from_keys from_childs) w (few, few') =
    let g : Node → ℕ = total w in
    let (keys0, childs0) = insert_child n keys childs min_key (min_key + 1) key (from_childs 0) in
    let (keys', childs') = merge_loop m 1 from_keys from_childs n keys0 childs0 in
    let later =
      sum_congr m (λ j. g (from_childs (j + 1))) (λ j. g (from_childs (1 + j)))
        (λ j lt. ap (λ k. g (from_childs k)) (let e : j + 1 ≡ 1 + j = omega arith in e)) in
    omega (
      arith,
      insert_last-sum n min_key (min_key + 1) keys childs key (from_childs 0) g (omega arith)
          (omega arith),
      merge_loop-sum m 1 from_keys from_childs n keys0 childs0 g few,
      ap (λ k. sum k (λ x. g (childs0 x))) (let e : suc (n + 1) ≡ suc (suc n) = omega arith in e),
      total-internal w (suc n) n keys childs (omega arith),
      total-internal w (suc m) m from_keys from_childs (omega arith),
      total-internal w (suc (n + 1) + m) (n + 1 + m) keys' childs' (omega arith),
      sum-first m (λ x. g (from_childs x)),
      later,
    )

-- Two neighbours below a node are merged. The node has the same entries as before and one key less.
-- The child that is deleted if they are inner nodes is the one behind the two, to which the node still
-- points, unless they are the last two.
pub merge_child-total :
    (n : ℕ) (keys : ℕ → ℕ) (childs : ℕ → Node) (k : ℕ) (w : ℕ → ℕ → ℕ)
    → k < n
    → Mergeable (childs k) (childs (k + 1))
    → let (parent, deleted) = merge_child n keys childs k in
      (total w parent ≡ total w (internal n keys childs))
      × (deleted ≡ (if ltb (k + 1) n then childs (k + 2) else childs (k + 1)))
unfolding merge_child remove_child
merge_child-total n keys childs k w lt fit =
    let g : Node → ℕ = total w in
    let node = merge_nodes (childs k) (keys k) (childs (k + 1)) in
    let childs0 = put childs k node in
    let r = n - k - 1 in
    let s = (remove_loop-Closed r 0 k (k + 1) keys childs0).1 in
    let (keys', childs') = remove_loop r 0 k (k + 1) keys childs0 in
    let same : (j : ℕ) → j ≢ k → childs0 j ≡ childs j = λ j ne. put_ne childs k j node ne in
    (
      omega (
        arith,
        merge_nodes-total (childs k) (keys k) (childs (k + 1)) w fit,
        total-internal w (suc n) n keys childs (omega arith),
        total-internal w n (n - 1) keys' childs' (omega arith),
        sum-inserted n (k + 1) (g (childs (k + 1))) (λ i. g (childs' i)) (λ i. g (childs0 i))
            (omega arith) (λ j less. ap g (sym (s.below j (omega arith))))
            (ap g (same (k + 1) (omega arith)))
            (λ j ge less. ap g (sym (s.moved j (omega arith) (omega arith)))),
        sum-replaced (suc n) k (g node) (λ i. g (childs i)) (λ i. g (childs0 i)) (omega arith)
            (ap g (put_self childs k node)) (λ j less ne. ap g (same j ne)),
      ),
      (elim (Bool-cases (ltb (k + 1) n)) [
        | inl more ↦
            let e : suc (k + 1) ≡ k + 2 = omega arith in
            rw more (
              s.moved (k + 1) (omega arith) (ground arith)
              ∙ ap childs0 e
              ∙ same (k + 2) (omega arith))
        | inr end ↦ rw end (s.behind (k + 1) (ground arith) ∙ same (k + 1) (omega arith))
      ]),
    )
