-- ===== src/Search.antt =====
-- example_binarysearch.cpp: `binarySearch` and `BinarySearchRecursive`.
--
-- The elements and the key are only compared, so an `int` is given as its distance from INT_MIN.
-- The last index `r` of the part that is searched may be -1: `end` is `r + 1`. The answer -1 is
-- `none`. A search is an Option of such an answer: it is `none` where `l + r` overflows an `int`,
-- which C leaves open, and where the fuel runs out.
pub mod Answer
mod Tests
use uc.Prelude.{
  ℕ, zero, suc, ◌+◌, ◌-◌, ◌/◌, ◌^◌, List, get_or, Bool, true, false, ◌&&◌, ltb, leb, ◌==◌,
  if◌then◌else◌, Option, none, some,
}

abbrev pub at : List ℕ → ℕ → ℕ
at array i = get_or array i 0

-- `(l + r) / 2` in `int`
unfoldable pub mid_of : ℕ → ℕ → Option ℕ
mid_of l r = elim (ltb (l + r) (2 ^ 31)) [ true ↦ some ((l + r) / 2) | false ↦ none ]

-- The loop of `binarySearch`. A round leaves at least one index out, and the last round only tests
-- `l <= r`.
unfoldable pub search_loop : ℕ → List ℕ → ℕ → ℕ → ℕ → Option (Option ℕ)
search_loop zero array key l end = none
search_loop (suc fuel) array key l end = elim (ltb l end) [
  | false ↦ some none
  | true ↦ elim (mid_of l (end - 1)) [
    | none ↦ none
    | some mid ↦ elim (at array mid == key) [
      | true ↦ some (some mid)
      | false ↦ elim (ltb (at array mid) key) [
        | true ↦ search_loop fuel array key (mid + 1) end
        | false ↦ search_loop fuel array key l mid
      ]
    ]
  ]
]

-- `binarySearch`; `null` says that the array is NULL. What C leaves open, a read of a NULL array,
-- reads the list here.
unfoldable pub binary_search : Bool → List ℕ → ℕ → ℕ → Option (Option ℕ)
unfolding search_loop
binary_search null array size key =
    if null && (size == 0) then some none else search_loop (size + 1) array key 0 size

-- `BinarySearchRecursive`; `end` is `high + 1`.
unfoldable pub search_recursive : ℕ → List ℕ → ℕ → ℕ → ℕ → Option (Option ℕ)
search_recursive zero array low end key = none
search_recursive (suc fuel) array low end key = elim (leb end low) [
  | true ↦ some none
  | false ↦ elim (mid_of low (end - 1)) [
    | none ↦ none
    | some mid ↦ elim (at array mid == key) [
      | true ↦ some (some mid)
      | false ↦ elim (ltb (at array mid) key) [
        | true ↦ search_recursive fuel array (mid + 1) end key
        | false ↦ search_recursive fuel array low mid key
      ]
    ]
  ]
]
