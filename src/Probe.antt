-- ===== src/Probe.antt =====
-- The probing loops of the shared-memory hash table of example_shm_hashtable2.cpp: one candidate
-- position in each row, looked at in the order of the rows.
--
-- `pos` stands for `getPos(i, hash)`, whose NULL is `none`. The memory is the list of the nodes.
-- A position outside the list reads as an empty node.
pub mod Laws
pub mod Live
use uc.Prelude.{
  ℕ, zero, suc, ◌+◌, List, [], ◌∷◌, Option, none, some, get_elem?, ◌==◌, if◌then◌else◌,
}

-- `hash_node`: the node is empty when its key is 0.
pub record Node {ℓ} (V : Type ℓ) : Type ℓ where
  pub key : ℕ
  pub value : V

-- What a search for an empty node ends with.
pub data Slot : Type 0 where
  at : ℕ → Slot
  outside : Slot
  full : Slot

module _ {ℓ} {V : Type ℓ} where
  -- `pH->key`
  unfoldable pub key_at : List (Node V) → ℕ → ℕ
  key_at nodes p = elim (get_elem? nodes p) [ none ↦ 0 | some e ↦ e.key ]

  module _ (pos : ℕ → Option ℕ) (nodes : List (Node V)) where
    -- The loop of `find` from row `i` with `n` rows left: the first candidate that holds `key`.
    unfoldable pub find_row : ℕ → ℕ → ℕ → Option ℕ
    find_row key zero i = none
    find_row key (suc n) i = elim (pos i) [
      | none ↦ none
      | some p ↦ if key_at nodes p == key then some p else find_row key n (i + 1)
    ]

    -- The loop of `Set` and `Replace`: the first candidate that is empty.
    unfoldable pub free_row : ℕ → ℕ → Slot
    free_row zero i = full
    free_row (suc n) i = elim (pos i) [
      | none ↦ outside
      | some p ↦ if key_at nodes p == 0 then at p else free_row n (i + 1)
    ]

  -- How many nodes of the memory are in use.
  unfoldable pub live : List (Node V) → ℕ
  live [] = 0
  live (e ∷ es) = if e.key == 0 then live es else suc (live es)
