-- ===== src/Search/Tests.antt =====
-- example_binarysearch.cpp: tests, and the theorem at a concrete array.
use uc.Prelude.{ℕ, zero, suc, ◌^◌, ◌≡◌, refl, arith, List, [], ◌∷◌, false, some, none}
use uc.Search.{mid_of, binary_search, search_recursive}
use uc.Search.Answer.{Ordered, IsAnswer, binary_search-IsAnswer}

abbrev sample : List ℕ
sample = 1 ∷ 3 ∷ 5 ∷ 7 ∷ []

sample_runs : binary_search false sample 4 7 ≡ some (some 3)
unfolding binary_search mid_of
sample_runs = refl

missing_runs : search_recursive 4 sample 0 4 4 ≡ some none
unfolding search_recursive mid_of
missing_runs = refl

overflow_runs : mid_of (2 ^ 30) (2 ^ 30) ≡ none
unfolding mid_of
overflow_runs = refl

abbrev pair : List ℕ
pair = 3 ∷ 5 ∷ []

pair-Ordered : Ordered pair 2
unfolding Ordered
pair-Ordered zero zero le lt = omega arith
pair-Ordered zero (suc zero) le lt = omega arith
pair-Ordered zero (suc (suc b)) le lt = absurd (omega arith)
pair-Ordered (suc a) zero le lt = absurd (omega arith)
pair-Ordered (suc zero) (suc zero) le lt = omega arith
pair-Ordered (suc (suc a)) (suc zero) le lt = absurd (omega arith)
pair-Ordered (suc a) (suc (suc b)) le lt = absurd (omega arith)

binary_search-IsAnswer_example : IsAnswer pair 5 0 2 (binary_search false pair 2 5)
binary_search-IsAnswer_example =
    binary_search-IsAnswer false pair 2 5 (omega arith) (λ e. absurd (ground arith)) pair-Ordered
