-- ===== src/Trie/Tests.antt =====
-- example_trie.cpp: tests, and the theorem at a concrete trie.
use uc.Prelude.{ℕ, ◌≡◌, ◌↔◌, refl, arith, some, none, replicate, List, [], ◌∷◌}
use uc.Trie.{Trie, missing, node, insert, insert_from, created, do_travel}
use uc.Trie.Words.{In, Counted}
use uc.Trie.Travel.{Shallow, insert-Shallow, do_travel_lem}
use uc.Trie.Counts.{walk, count, pass}

abbrev root : Trie
root = node 0 0 (λ b. missing)

abbrev is : List ℕ
is = 105 ∷ 115 ∷ []

inserted_runs : count (walk is (insert is (insert is root))) ≡ 2
unfolding count walk insert insert_from created
inserted_runs = refl

passed_runs : pass (walk (105 ∷ []) (insert is (insert is root))) ≡ 2
unfolding pass walk insert insert_from created
passed_runs = refl

abbrev twice : Trie
twice = insert is (insert is root)

twice-Shallow : Shallow twice 129
unfolding Shallow
twice-Shallow =
    insert-Shallow is (insert is root) 129 (insert-Shallow is root 129 (λ b. tt) (omega arith))
      (omega arith)

do_travel_lem_example :
    (printed : List (List ℕ × ℕ)) × (do_travel twice [] ≡ some printed)
    × (In (is, 2) printed ↔ Counted twice [] (is, 2))
do_travel_lem_example = do_travel_lem twice [] 129 (is, 2) twice-Shallow (omega arith)

-- A node behind 129 chars writes past the end of `worddump`.
overflow_runs : do_travel root (replicate 129 97) ≡ none
unfolding do_travel
overflow_runs = refl
