-- ===== src/Sort/Tests.antt =====
-- example_sort.cpp: tests, and the theorems at a concrete array.
use uc.Prelude.{ℕ, ◌^◌, ◌≡◌, refl, arith, List, [], ◌∷◌, some, none}
use uc.Sort.{insert_sort, shell_sort}
use uc.Sort.Count.{IsSortOf}
use uc.Sort.Shuffle.{IsRangeSort}
use uc.Sort.Quick.{quicksort}
use uc.Sort.Quick.Sorted.{quicksort-IsRangeSort}
use uc.Sort.Heap.{max_pos, heapsort}
use uc.Sort.Heap.Sorted.{heapsort-IsSortOf}
use uc.Sort.Merge.{merge_sort}
use uc.Sort.Merge.Sorted.{merge_sort-IsSortOf}
use uc.Sort.Shell.{shell_sort-IsSortOf}

abbrev sample : List ℕ
sample = 81 ∷ 94 ∷ 11 ∷ 96 ∷ 12 ∷ 35 ∷ 1 ∷ []

insert_sort_runs : insert_sort sample 6 ≡ 11 ∷ 12 ∷ 35 ∷ 81 ∷ 94 ∷ 96 ∷ 1 ∷ []
unfolding insert_sort
insert_sort_runs = refl

shell_sort_runs : shell_sort sample 7 ≡ 1 ∷ 11 ∷ 12 ∷ 35 ∷ 81 ∷ 94 ∷ 96 ∷ []
unfolding shell_sort
shell_sort_runs = refl

shell_sort-IsSortOf_example : IsSortOf 7 sample (shell_sort sample 7)
shell_sort-IsSortOf_example = shell_sort-IsSortOf sample 7 (omega arith)

quicksort_runs :
    quicksort (1 ∷ 5 ∷ 7 ∷ 10 ∷ 2 ∷ 3 ∷ 45 ∷ 6 ∷ 78 ∷ 9 ∷ []) 0 9
    ≡ 1 ∷ 2 ∷ 3 ∷ 5 ∷ 6 ∷ 7 ∷ 9 ∷ 10 ∷ 45 ∷ 78 ∷ []
unfolding quicksort
quicksort_runs = refl

heapsort_runs : heapsort sample 7 ≡ some (1 ∷ 11 ∷ 12 ∷ 35 ∷ 81 ∷ 94 ∷ 96 ∷ [])
unfolding heapsort
heapsort_runs = refl

overflow_runs : max_pos sample 7 (2 ^ 30) ≡ none
unfolding max_pos
overflow_runs = refl

-- What the temporary array holds before
abbrev rubbish : List ℕ
rubbish = 9 ∷ 9 ∷ 9 ∷ 9 ∷ 9 ∷ 9 ∷ 9 ∷ []

merge_sort_runs : merge_sort (some rubbish) sample 7 ≡ some (1 ∷ 11 ∷ 12 ∷ 35 ∷ 81 ∷ 94 ∷ 96 ∷ [])
unfolding merge_sort
merge_sort_runs = refl

quicksort-IsRangeSort_example : IsRangeSort 1 6 sample (quicksort sample 1 5)
quicksort-IsRangeSort_example = quicksort-IsRangeSort sample 1 5 (omega arith)

heapsort-IsSortOf_example : (out : List ℕ) × (heapsort sample 6 ≡ some out) × IsSortOf 6 sample out
heapsort-IsSortOf_example = heapsort-IsSortOf sample 6 (omega arith) (omega arith)

merge_sort-IsSortOf_example :
    (out : List ℕ) × (merge_sort (some rubbish) sample 7 ≡ some out) × IsSortOf 7 sample out
merge_sort-IsSortOf_example =
    merge_sort-IsSortOf sample rubbish 7 (omega arith) (omega arith) (omega arith)
