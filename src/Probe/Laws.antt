-- ===== src/Probe/Laws.antt =====
-- What the probing loops find, and how a write to one node changes what they find.
use uc.Prelude.{
  ℕ, zero, suc, ◌+◌, ◌<◌, ◌≤◌, ◌≡◌, ◌≢◌, refl, List, Option, none, some, set, length, ◌==◌,
  get_elem?-set_self, get_elem?-set_ne, arith, Bool-cases, Option-cases, inl, inr,
}
use uc.Probe.{Node, at, outside, full, key_at, find_row, free_row}

module _ {ℓ} {V : Type ℓ} where
  pub key_at-set_self :
      (nodes : List (Node V)) (p : ℕ) (e : Node V)
      → p < length nodes
      → key_at (set nodes p e) p ≡ e.key
  unfolding key_at
  key_at-set_self nodes p e h = rw (get_elem?-set_self nodes p e h, key_at)

  pub key_at-set_ne :
      (nodes : List (Node V)) (p q : ℕ) (e : Node V)
      → p ≢ q
      → key_at (set nodes p e) q ≡ key_at nodes q
  unfolding key_at
  key_at-set_ne nodes p q e h = rw (get_elem?-set_ne nodes p q e h, key_at)

  module _ (pos : ℕ → Option ℕ) where
    -- Two memories that agree on where `key` stands give one answer.
    pub find_row_congr :
        (a b : List (Node V)) (key : ℕ)
        → ((p : ℕ) → (key_at a p == key) ≡ (key_at b p == key))
        → (n i : ℕ) → find_row pos a key n i ≡ find_row pos b key n i
    unfolding find_row
    find_row_congr a b key same zero i = refl
    find_row_congr a b key same (suc n) i = elim (Option-cases (pos i)) [
      | inl e ↦ rw (e, find_row)
      | inr (p, e) ↦ rw (e, find_row, same p, find_row_congr a b key same n (i + 1))
    ]

    module _ (nodes : List (Node V)) where
      pub key_at-find_row :
          (key n i p : ℕ) → find_row pos nodes key n i ≡ some p → key_at nodes p ≡ key
      unfolding find_row
      key_at-find_row key zero i p h = ground arith
      key_at-find_row key (suc n) i p h = ground (arith, key_at-find_row key n (i + 1) p)

      pub key_at-free_row : (n i p : ℕ) → free_row pos nodes n i ≡ at p → key_at nodes p ≡ 0
      unfolding free_row
      key_at-free_row zero i p h = ground arith
      key_at-free_row (suc n) i p h = ground (arith, key_at-free_row n (i + 1) p)

      -- The position that the insertion writes is the one that the search then finds.
      pub find_row-set_free :
          (e : Node V) (n i p : ℕ)
          → e.key ≢ 0
          → p < length nodes
          → find_row pos nodes e.key n i ≡ none
          → free_row pos nodes n i ≡ at p
          → find_row pos (set nodes p e) e.key n i ≡ some p
      unfolding find_row free_row
      find_row-set_free e zero i p nz lt absent free = ground arith
      find_row-set_free e (suc n) i p nz lt absent free = elim (Option-cases (pos i)) [
        | inl none_here ↦ ground arith
        | inr (q, here) ↦ elim (Bool-cases (p == q)) [
          | inl same ↦ ground (arith, key_at-set_self nodes p e)
          | inr other ↦ ground (
            arith,
            key_at-set_ne nodes p q e,
            key_at-free_row n (i + 1) p,
            find_row-set_free e n (i + 1) p,
          )
        ]
      ]

      -- Every position that a search looks at, and so finds, has the property of `pos`.
      pub find_row_bound :
          (m key n i p : ℕ)
          → ((j q : ℕ) → j < i + n → pos j ≡ some q → q < m)
          → find_row pos nodes key n i ≡ some p
          → p < m
      unfolding find_row
      find_row_bound m key zero i p below h = ground arith
      find_row_bound m key (suc n) i p below h =
          ground
            (arith, below i p, find_row_bound m key n (i + 1) p (λ j q l. below j q (omega arith)))

      pub free_row_bound :
          (m n i p : ℕ)
          → ((j q : ℕ) → j < i + n → pos j ≡ some q → q < m)
          → free_row pos nodes n i ≡ at p
          → p < m
      unfolding free_row
      free_row_bound m zero i p below h = ground arith
      free_row_bound m (suc n) i p below h =
          ground (arith, below i p, free_row_bound m n (i + 1) p (λ j q l. below j q (omega arith)))

      -- No search falls off the rows if each row has a position.
      pub free_row-ne-outside :
          (n i : ℕ)
          → ((j : ℕ) → j < i + n → (q : ℕ) × (pos j ≡ some q))
          → free_row pos nodes n i ≢ outside
      unfolding free_row
      free_row-ne-outside zero i all = λ h. cc
      free_row-ne-outside (suc n) i all =
          let rest = free_row-ne-outside n (i + 1) (λ j l. all j (omega arith)) in
          let (q, e) = all i (omega arith) in λ h. ground (arith, rest)

      -- The loop of `Set` ends without a place only if every candidate is in use.
      pub free_row-full :
          (n i j q : ℕ)
          → free_row pos nodes n i ≡ full
          → i ≤ j
          → j < i + n
          → pos j ≡ some q
          → key_at nodes q ≢ 0
      unfolding free_row
      free_row-full zero i j q h le lt e = absurd (omega arith)
      free_row-full (suc n) i j q h le lt e = elim (Bool-cases (i == j)) [
        | inl same ↦ ground arith
        | inr other ↦ ground (arith, free_row-full n (i + 1) j q)
      ]
