-- ===== src/OpenTable/Tests.antt =====
-- example_hashtable.cpp: the table of `main`.
use uc.Prelude.{ℕ, ◌<◌, ◌≡◌, ◌≢◌, ◌⊎◌, refl, arith, Option, none, some}
use uc.OpenTable.{hashsize, hash, put, insert_loop, insert, search_loop, search, holds, empty}
use uc.OpenTable.Laws.{Probed, insert_open_lem, put-Probed, step}

abbrev free : ℕ → Option ℕ
free i = none

free-Probed : Probed free
unfolding Probed
free-Probed = λ i x lt e. cc

insert_open_lem_example :
    ((a : ℕ) × (a < hashsize)
      × (free a ≡ none)
      × (insert free 13 ≡ some (put free a 13))
      × Probed (put free a 13))
    ⊎ (((i : ℕ) → i < hashsize → free i ≢ none)
        × ((fuel : ℕ) → insert_loop fuel free (hash 13) 13 ≡ none))
insert_open_lem_example = insert_open_lem free 13 free-Probed

abbrev filled : ℕ → Option ℕ
filled = put (put free 6 13) 1 29

filled-Probed : Probed filled
unfolding step hash
filled-Probed =
    put-Probed (put free 6 13) 29 0
      (put-Probed free 13 0 free-Probed (omega arith) (λ j ge lt. absurd (omega arith)))
      (omega arith) (λ j ge lt. absurd (omega arith))

search_6 : search filled 6 ≡ none
unfolding search search_loop holds empty put hash
search_6 = refl
