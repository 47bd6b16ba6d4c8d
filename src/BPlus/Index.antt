-- ===== src/BPlus/Index.antt =====
-- example_bplus_tree.cpp: what `getKeyIndex` answers.
use uc.Prelude.{
  ℕ, zero, suc, ◌+◌, ◌-◌, ◌/◌, ◌≤◌, ◌<◌, ◌≡◌, ◌⊎◌, refl, arith, ltb, ◌==◌, some, eq→==, Bool-cases,
  inl, inr, ==→eq, ==→ne,
}
use uc.BPlus.{index_loop, key_index, child_index}

-- The first `n` keys rise.
unfoldable pub Rises : ℕ → (ℕ → ℕ) → Type 0
Rises n keys = (a b : ℕ) → a < b → b < n → keys a < keys b

-- An index: the keys before it are less than `key`; the one there is not, unless it is the last.
pub record IsIndex (n : ℕ) (keys : ℕ → ℕ) (key i : ℕ) : Type 0 where
  pub inside : i < n
  pub before : (j : ℕ) → j < i → keys j < key
  pub there : (key ≤ keys i) ⊎ (suc i ≡ n)

index_loop-IsIndex :
    (fuel n : ℕ) (keys : ℕ → ℕ) (key left right : ℕ)
    → Rises n keys
    → right ≤ left + fuel
    → left ≤ right
    → right < n
    → ((j : ℕ) → j < left → keys j < key)
    → (key ≤ keys right) ⊎ (suc right ≡ n)
    → (i : ℕ) × (index_loop fuel keys key left right ≡ some i) × IsIndex n keys key i
unfolding index_loop Rises
index_loop-IsIndex zero n keys key left right rises enough le lt before there =
    let e : left ≡ right = omega arith in
    (
      left,
      rw (eq→== left right e, index_loop) refl,
      record { inside = omega arith; before = before; there = rw e there },
    )
index_loop-IsIndex (suc fuel) n keys key left right rises enough le lt before there =
    let current = (left + right) / 2 in
    elim (Bool-cases (left == right)) [
      | inl done ↦
          let e : left ≡ right = ==→eq left right done in
          (
            left,
            rw (done, index_loop) refl,
            record { inside = omega arith; before = before; there = rw e there },
          )
      | inr more ↦
          let apart = ==→ne left right more in
          elim (Bool-cases (ltb (keys current) key)) [
            | inl up ↦
                rw (more, index_loop, up)
                  (index_loop-IsIndex fuel n keys key (current + 1) right rises (omega arith)
                    (omega arith) lt (λ j less. ground (arith, rises j current)) there)
            | inr down ↦
                rw (more, index_loop, down)
                  (index_loop-IsIndex fuel n keys key left current rises (omega arith) (omega arith)
                    (omega arith) before (inl (ground arith)))
          ]
    ]

key_index-some :
    (n : ℕ) (keys : ℕ → ℕ) (key i : ℕ)
    → index_loop n keys key 0 (n - 1) ≡ some i
    → key_index n keys key ≡ i
unfolding key_index
key_index-some n keys key i e = rw (e, key_index) refl

-- On a node with a key, whose keys rise, the loop of `getKeyIndex` ends, after at most as many rounds
-- as there are keys, and `getKeyIndex` answers the index of the first key that is not less than `key`;
-- if all are less, that of the last one.
pub key_index-IsIndex :
    (n : ℕ) (keys : ℕ → ℕ) (key : ℕ)
    → 0 < n
    → Rises n keys
    → (index_loop n keys key 0 (n - 1) ≡ some (key_index n keys key))
      × IsIndex n keys key (key_index n keys key)
key_index-IsIndex n keys key some_key rises =
    let (i, e, h) =
      index_loop-IsIndex n n keys key 0 (n - 1) rises (omega arith) (omega arith) (omega arith)
        (λ j lt. absurd (omega arith)) (inr (omega arith)) in
    rw (key_index-some n keys key i e) (e, h)

-- The loop ends whatever the keys are.
index_loop-le :
    (fuel : ℕ) (keys : ℕ → ℕ) (key left right : ℕ)
    → right ≤ left + fuel
    → left ≤ right
    → (i : ℕ) × (index_loop fuel keys key left right ≡ some i) × (i ≤ right)
unfolding index_loop
index_loop-le zero keys key left right enough le =
    let e : left ≡ right = omega arith in (left, rw (eq→== left right e, index_loop) refl, le)
index_loop-le (suc fuel) keys key left right enough le =
    let current = (left + right) / 2 in
    elim (Bool-cases (left == right)) [
      | inl done ↦ (left, rw (done, index_loop) refl, le)
      | inr more ↦
          let apart = ==→ne left right more in
          elim (Bool-cases (ltb (keys current) key)) [
            | inl up ↦
                rw (more, index_loop, up)
                  (index_loop-le fuel keys key (current + 1) right (omega arith) (omega arith))
            | inr down ↦
                let (i, e, small) =
                  index_loop-le fuel keys key left current (omega arith) (omega arith) in
                rw (more, index_loop, down) (i, e, omega arith)
          ]
    ]

-- A node with a key has a child at the index.
pub child_index-le :
    (n : ℕ) (keys : ℕ → ℕ) (key : ℕ) → 0 < n → child_index keys key (key_index n keys key) ≤ n
unfolding child_index key_index
child_index-le n keys key some_key =
    let (i, e, le) = index_loop-le n keys key 0 (n - 1) (omega arith) (omega arith) in
    ground (arith, e)
