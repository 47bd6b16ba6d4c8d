-- ===== src/Trie/Travel.antt =====
-- example_trie.cpp: which words `do_travel` prints, and that they fit into `worddump`.
use uc.Prelude.{
  ℕ, zero, suc, ◌+◌, ◌<◌, ◌≤◌, ◌≡◌, ◌↔◌, refl, arith, List, [], ◌∷◌, ◌++◌, length, length-append,
  true, ◌==◌, leb, Option, some, Bool-cases, inl, inr,
}
use uc.Trie.{
  Trie, missing, node, created, insert_from, insert, wordlenmax, tree_width, each_child, do_travel,
}
use uc.Trie.Words.{all_children, words_of, In, Counted, words_of_lem}

-- The nodes of the trie stand on at most `n` levels: no word is longer than `n - 1`.
unfoldable pub Shallow : Trie → ℕ → Type 0
Shallow missing n = Unit
Shallow (node c p next) zero = ⊥
Shallow (node c p next) (suc n) = (b : ℕ) → Shallow (next b) n

created-Shallow : (t : Trie) (n : ℕ) → Shallow t n → 0 < n → Shallow (created t) n
unfolding created Shallow
created-Shallow missing zero s pos = absurd (omega arith)
created-Shallow missing (suc n) s pos = λ b. tt
created-Shallow (node c p next) n s pos = s

insert_from-Shallow :
    (word : List ℕ) (t : Trie) (n : ℕ)
    → Shallow t n
    → length word < n
    → Shallow (insert_from word t) n
unfolding insert_from Shallow
insert_from-Shallow word missing n s short = tt
insert_from-Shallow [] (node c p next) zero s short = absurd (omega arith)
insert_from-Shallow [] (node c p next) (suc n) s short = s
insert_from-Shallow (b ∷ word) (node c p next) zero s short = absurd (omega arith)
insert_from-Shallow (b ∷ word) (node c p next) (suc n) s short = λ k. elim (Bool-cases (k == b)) [
  | inl e ↦ rw e (
      insert_from-Shallow word (created (next b)) n (created-Shallow (next b) n (s b) (omega arith))
        (omega arith))
  | inr e ↦ rw e (s k)
]

-- An insertion of a word that fits keeps the levels.
pub insert-Shallow :
    (word : List ℕ) (t : Trie) (n : ℕ) → Shallow t n → length word < n → Shallow (insert word t) n
unfolding insert
insert-Shallow [] t n s short = s
insert-Shallow (b ∷ word) t n s short = insert_from-Shallow (b ∷ word) t n s short

each_child-some :
    {A : Type 0} (n : ℕ) (prints : ℕ → Option (List A)) (words : ℕ → List A)
    → ((i : ℕ) → prints i ≡ some (words i))
    → each_child n prints ≡ some (all_children n words)
unfolding each_child all_children
each_child-some zero prints words h = refl
each_child-some (suc n) prints words h = rw (each_child-some n prints words h, each_child, h n) refl

do_travel-words_of :
    (t : Trie) (u : List ℕ) (n : ℕ)
    → Shallow t n
    → length u + n ≤ wordlenmax + 1
    → do_travel t u ≡ some (words_of t u)
unfolding do_travel words_of Shallow
do_travel-words_of missing u n s fit = refl
do_travel-words_of (node c p next) u zero s fit = absurd s
do_travel-words_of (node c p next) u (suc n) s fit =
    let inside : leb (length u) wordlenmax ≡ true = ground arith in
    let below =
      each_child-some tree_width (λ i. do_travel (next i) (u ++ (i ∷ [])))
        (λ i. words_of (next i) (u ++ (i ∷ [])))
        (λ i.
          do_travel-words_of (next i) (u ++ (i ∷ [])) n (s i)
            (omega (arith, length-append u (i ∷ []), fit))) in
    rw (inside, do_travel, below) refl

-- Where the nodes of the trie, on `n` levels, fit into `worddump` behind the word `u` that stands in it,
-- `do_travel` writes to no place behind that array, and it prints the words that have been counted,
-- behind `u`, each with the sum of its two counters, and nothing else.
pub do_travel_lem :
    (t : Trie) (u : List ℕ) (n : ℕ) (x : List ℕ × ℕ)
    → Shallow t n
    → length u + n ≤ wordlenmax + 1
    → (printed : List (List ℕ × ℕ)) × (do_travel t u ≡ some printed)
      × (In x printed ↔ Counted t u x)
do_travel_lem t u n x s fit = (words_of t u, do_travel-words_of t u n s fit, words_of_lem t u x)
