-- ===== src/OpenTable.antt =====
-- example_hashtable.cpp: a hash table with open addressing, without removal.
--
-- The data are not negative: the remainder of a negative number would be an index below the array.
-- `elem` is a function of the index, in which NULLKEY is `none`. `malloc` finds memory.
pub mod Laws
pub mod Find
mod Tests
use uc.Prelude.{
  ℕ, zero, suc, ◌+◌, ◌%◌, Option, none, some, Bool, true, false, ◌||◌, ◌==◌, if◌then◌else◌,
}

-- `HASHSIZE`, and `m` after `Init`
abbrev pub hashsize : ℕ
hashsize = 7

-- `HashTable`
pub record Table : Type 0 where
  pub elem : ℕ → Option ℕ
  pub count : ℕ

-- `Init`
abbrev pub init : Table
init = record { elem = λ i. none; count = hashsize }

-- `Hash`
unfoldable pub hash : ℕ → ℕ
hash x = x % hashsize

-- `hashTable->elem[a] = data`
unfoldable pub put : (ℕ → Option ℕ) → ℕ → ℕ → ℕ → Option ℕ
put elem a x i = if i == a then some x else elem i

-- The loop of `Insert` from the address `a`, and the write behind it; `none` if it goes on.
unfoldable pub insert_loop : ℕ → (ℕ → Option ℕ) → ℕ → ℕ → Option (ℕ → Option ℕ)
insert_loop zero elem a x = none
insert_loop (suc fuel) elem a x = elim (elem a) [
  | none ↦ some (put elem a x)
  | some y ↦ insert_loop fuel elem ((a + 1) % hashsize) x
]

-- `Insert`. After `hashsize` rounds the loop is back where it began.
unfoldable pub insert : (ℕ → Option ℕ) → ℕ → Option (ℕ → Option ℕ)
insert elem x = insert_loop hashsize elem (hash x) x

-- `elem[a] == data`, and `elem[a] == NULLKEY`
unfoldable pub holds : (ℕ → Option ℕ) → ℕ → ℕ → Bool
holds elem a x = elim (elem a) [ none ↦ false | some y ↦ y == x ]

unfoldable pub empty : (ℕ → Option ℕ) → ℕ → Bool
empty elem a = elim (elem a) [ none ↦ true | some y ↦ false ]

-- The loop of `Search` from the address `a`; `none` is -1. It ends when it is back where it began.
unfoldable pub search_loop : ℕ → (ℕ → Option ℕ) → ℕ → ℕ → Option ℕ
search_loop zero elem a x = none
search_loop (suc fuel) elem a x = elim (holds elem a x) [
  | true ↦ some a
  | false ↦
      let next = (a + 1) % hashsize in
      if empty elem next || next == hash x then none else search_loop fuel elem next x
]

-- `Search`
unfoldable pub search : (ℕ → Option ℕ) → ℕ → Option ℕ
search elem x = search_loop hashsize elem (hash x) x
