-- ===== src/Trie.antt =====
-- example_trie.cpp: the trie of the words of a text.
--
-- A character is a number below 128, so that it is no negative index, and a word is the list of its
-- characters before the NUL. `root` is passed and returned. `malloc` does not fail.
pub mod Counts
mod Words
pub mod Travel
mod Tests
use uc.Prelude.{
  ℕ, zero, suc, ◌+◌, List, [], ◌∷◌, ◌++◌, length, true, false, ◌==◌, leb, if◌then◌else◌, Option,
  none, some,
}

-- `trie_node_st`: `count`, `pass` and `next`, whose NULL is `missing`.
pub data Trie : Type 0 where
  missing : Trie
  node : ℕ → ℕ → (ℕ → Trie) → Trie

-- The child, or the new node that takes the place of NULL.
unfoldable pub created : Trie → Trie
created missing = node 0 0 (λ b. missing)
created (node c p next) = node c p next

-- The loop of `insert` from `curr` with the rest of the word, and the count behind it.
unfoldable pub insert_from : List ℕ → Trie → Trie
insert_from word missing = missing
insert_from [] (node c p next) = node (c + 1) p next
insert_from (b ∷ word) (node c p next) =
    let child = insert_from word (created (next b)) in
    node c (p + 1) (λ k. if k == b then child else next k)

-- `insert`
unfoldable pub insert : List ℕ → Trie → Trie
insert [] root = root
insert (b ∷ word) root = insert_from (b ∷ word) root

-- `TREE_WIDTH`
abbrev pub tree_width : ℕ
tree_width = 256

-- `WORDLENMAX`
abbrev pub wordlenmax : ℕ
wordlenmax = 128

-- The loop of `do_travel` over the children below `n`, with what each of them prints.
unfoldable pub each_child {ℓ} : {A : Type ℓ} → ℕ → (ℕ → Option (List A)) → Option (List A)
each_child zero prints = some []
each_child (suc n) prints = elim (each_child n prints) [
  | none ↦ none
  | some before ↦ elim (prints n) [ none ↦ none | some last ↦ some (before ++ last) ]
]

-- `do_travel` of the node at the end of `worddump`: the words that it prints, each with its number.
-- A node writes at the index `pos`, the length of what stands in `worddump`, which has
-- WORDLENMAX + 1 places: it is `none` where that write is behind the array.
unfoldable pub do_travel : Trie → List ℕ → Option (List (List ℕ × ℕ))
unfolding each_child
do_travel missing worddump = some []
do_travel (node c p next) worddump = elim (leb (length worddump) wordlenmax) [
  | true ↦ elim (each_child tree_width (λ i. do_travel (next i) (worddump ++ (i ∷ [])))) [
    | none ↦ none
    | some below ↦ some ((if c == 0 then [] else ((worddump, c + p) ∷ [])) ++ below)
  ]
  | false ↦ none
]
