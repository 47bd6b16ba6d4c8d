-- ===== src/ChainTable.antt =====
-- example_hashtable2.cpp: a hash table of texts with a chain of nodes for each position.
--
-- A text is the list of its chars before the NUL, a char a number below 256. The values are only
-- moved: an `int` is given as its rank. A chain is the list of its nodes. `malloc` finds memory.
pub mod Texts
pub mod Chains
pub mod Tables
pub mod Run
mod Tests
use uc.Prelude.Texts.{same}
use uc.Prelude.{
  ℕ, zero, suc, ◌+◌, ◌-◌, ◌*◌, ◌%◌, ◌^◌, List, [], ◌∷◌, ◌++◌, Option, none, some, Bool, true, false,
  ◌&&◌, ltb, leb, ◌==◌, if◌then◌else◌,
}

abbrev pub word : ℕ
word = 2 ^ 32

-- `HASH_TABLE_MAX_SIZE`
abbrev pub hash_table_max_size : ℕ
hash_table_max_size = 10000

-- `HashNode`, without its link.
pub record Node : Type 0 where
  pub key : List ℕ
  pub value : ℕ

-- `hashTable` and `hash_table_size`
pub record Table : Type 0 where
  pub chains : ℕ → List Node
  pub size : ℕ

-- `hash_table_init`
abbrev pub hash_table_init : Table
hash_table_init = record { chains = λ i. []; size = 0 }

-- A `signed char` as an `unsigned int`.
unfoldable pub signed : ℕ → ℕ
signed c = if ltb c 128 then c else (c + (word - 256))

-- The loop of `hash_table_hash_str`.
unfoldable pub hash_chars : ℕ → List ℕ → ℕ
hash_chars h [] = h
hash_chars h (c ∷ cs) = hash_chars ((h * 2 ^ 5 % word + (word - h) + signed c) % word) cs

-- `hash_table_hash_str`
unfoldable pub hash_str : List ℕ → ℕ
hash_str [] = 0
hash_str (c ∷ cs) = if signed c == 0 then 0 else hash_chars (signed c) cs

-- `pos`
unfoldable pub pos : List ℕ → ℕ
pos key = hash_str key % hash_table_max_size

-- The loop of `hash_table_lookup`.
unfoldable pub find : List Node → List ℕ → Option Node
find [] key = none
find (e ∷ es) key = if same key e.key then some e else find es key

-- `hash_table_lookup`
unfoldable pub lookup : Table → List ℕ → Option Node
lookup t key = find (t.chains (pos key)) key

-- `hashTable[pos] = chain`
unfoldable pub put : (ℕ → List Node) → ℕ → List Node → ℕ → List Node
put chains p chain j = if j == p then chain else chains j

-- `hash_table_insert`
unfoldable pub insert : Table → List ℕ → ℕ → Table
insert t key v = elim (leb hash_table_max_size t.size) [
  | true ↦ t
  | false ↦ elim (find (t.chains (pos key)) key) [
    | some e ↦ t
    | none ↦ record {
      chains = put t.chains (pos key) (record { key = key; value = v } ∷ t.chains (pos key));
      size = t.size + 1;
    }
  ]
]

-- The chain behind its first node when `pRemove` is taken out of it.
unfoldable pub unlink : List Node → List ℕ → List Node
unlink [] key = []
unlink (e ∷ es) key = if same key e.key then es else e ∷ unlink es key

-- The chain behind `hash_table_remove`: if the first node goes, `pLast` is NULL.
unfoldable pub remove_node : List Node → List ℕ → List Node
remove_node [] key = []
remove_node (e ∷ es) key = if same key e.key then [] else e ∷ unlink es key

-- `hash_table_remove`
unfoldable pub remove : Table → List ℕ → Table
remove t key = record {
  chains = put t.chains (pos key) (remove_node (t.chains (pos key)) key);
  size = t.size;
}

-- The rounds of `hash_table_release` from `i`, `n` of them: the nodes that it frees. `hashTable`
-- stays as it is.
unfoldable pub release : ℕ → ℕ → (ℕ → List Node) → List Node
release zero i chains = []
release (suc n) i chains = chains i ++ release n (i + 1) chains
