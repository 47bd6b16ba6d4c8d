-- ===== src/Sort.antt =====
-- example_sort.cpp: `insertSort` and `shellSort`.
--
-- The routines compare and move values of type `int` and do nothing else with them, so an `int` is
-- given as its distance from INT_MIN, which keeps the order. The array is a list, of which `size`
-- elements are to be sorted.
pub mod Count
pub mod Insert
pub mod Shell
pub mod Shuffle
pub mod Quick
pub mod Heap
pub mod Merge
mod Tests
use uc.Prelude.{
  ℕ, zero, suc, ◌+◌, ◌-◌, ◌/◌, List, get_or, set, Bool, true, false, ◌&&◌, ltb, leb, if◌then◌else◌,
}

-- `arr[i]`
abbrev pub at : List ℕ → ℕ → ℕ
at arr i = get_or arr i 0

-- The inner loop of `insertSort` from `j`, and the write of `tmp` behind it.
unfoldable pub insert_down : List ℕ → ℕ → ℕ → List ℕ
insert_down arr tmp zero = set arr 0 tmp
insert_down arr tmp (suc j) = elim (ltb tmp (at arr j)) [
  | true ↦ insert_down (set arr (suc j) (at arr j)) tmp j
  | false ↦ set arr (suc j) tmp
]

-- The outer loop of `insertSort` from `i`, with `n` rounds left.
unfoldable pub insert_rounds : List ℕ → ℕ → ℕ → List ℕ
unfolding insert_down
insert_rounds arr zero i = arr
insert_rounds arr (suc n) i = insert_rounds (insert_down arr (at arr i) i) n (i + 1)

-- `insertSort`
unfoldable pub insert_sort : List ℕ → ℕ → List ℕ
unfolding insert_rounds
insert_sort arr size = insert_rounds arr (size - 1) 1

-- The innermost loop of `shellSort` from `j`, and the write of `tmp` behind it. `j` falls by the
-- increment, so `j` rounds are enough.
unfoldable pub shell_down : ℕ → List ℕ → ℕ → ℕ → ℕ → List ℕ
shell_down zero arr increment tmp j = set arr j tmp
shell_down (suc fuel) arr increment tmp j =
    elim (leb increment j && ltb tmp (at arr (j - increment))) [
      | true ↦ shell_down fuel (set arr j (at arr (j - increment))) increment tmp (j - increment)
      | false ↦ set arr j tmp
    ]

-- The middle loop from `i`, with `n` rounds left.
unfoldable pub shell_rounds : List ℕ → ℕ → ℕ → ℕ → List ℕ
unfolding shell_down
shell_rounds arr increment zero i = arr
shell_rounds arr increment (suc n) i =
    shell_rounds (shell_down i arr increment (at arr i) i) increment n (i + 1)

-- The outer loop from `increment`, which is halved until it is 0.
unfoldable pub shell_gaps : ℕ → List ℕ → ℕ → ℕ → List ℕ
unfolding shell_rounds
shell_gaps zero arr size increment = arr
shell_gaps (suc fuel) arr size zero = arr
shell_gaps (suc fuel) arr size (suc k) =
    shell_gaps fuel (shell_rounds arr (suc k) (size - suc k) (suc k)) size (suc k / 2)

-- `shellSort`; `size` halvings are enough.
unfoldable pub shell_sort : List ℕ → ℕ → List ℕ
unfolding shell_gaps
shell_sort arr size = shell_gaps size arr size (size / 2)
