-- ===== src/Search/Answer.antt =====
-- example_binarysearch.cpp: what the searches answer on an ordered array.
use uc.Prelude.{
  ℕ, zero, suc, ◌+◌, ◌-◌, ◌/◌, ◌^◌, ◌≤◌, ◌<◌, ◌≡◌, ◌≢◌, refl, arith, List, Bool, true, false, ltb,
  ◌==◌, Option, none, some, Bool-cases, Option-cases, inl, inr, ==→eq, ==→ne,
}
use native.Mathlib.Decide.{dec_lt}
use uc.Search.{at, mid_of, search_loop, binary_search, search_recursive}

-- The first `size` elements do not fall.
unfoldable pub Ordered : List ℕ → ℕ → Type 0
Ordered array size = (a b : ℕ) → a ≤ b → b < size → at array a ≤ at array b

-- What an answer for the indices from `l` below `end` says.
pub data IsAnswer (array : List ℕ) (key l end : ℕ) : Option (Option ℕ) → Type 0 where
  found : {i : ℕ} → l ≤ i → i < end → at array i ≡ key → IsAnswer array key l end (some (some i))
  absent : ((k : ℕ) → l ≤ k → k < end → at array k ≢ key) → IsAnswer array key l end (some none)

-- The part to the left of `mid` cannot hold the key.
IsAnswer-right :
    (array : List ℕ) (key l mid end : ℕ) (o : Option (Option ℕ))
    → l ≤ mid
    → ((k : ℕ) → l ≤ k → k ≤ mid → at array k ≢ key)
    → IsAnswer array key (mid + 1) end o
    → IsAnswer array key l end o
IsAnswer-right array key l mid end _ le out (found a b e) = found (omega arith) b e
IsAnswer-right array key l mid end _ le out (absent none_there) = absent (λ k a b e.
    elim (dec_lt mid k) [
      | yes right ↦ none_there k (omega arith) b e
      | no left ↦ out k a (omega arith) e
    ])

IsAnswer-left :
    (array : List ℕ) (key l mid end : ℕ) (o : Option (Option ℕ))
    → mid ≤ end
    → ((k : ℕ) → mid ≤ k → k < end → at array k ≢ key)
    → IsAnswer array key l mid o
    → IsAnswer array key l end o
IsAnswer-left array key l mid end _ le out (found a b e) = found a (omega arith) e
IsAnswer-left array key l mid end _ le out (absent none_there) = absent (λ k a b e.
    elim (dec_lt k mid) [ yes left ↦ none_there k a left e | no right ↦ out k (omega arith) b e ])

-- A round: the middle does not overflow and lies between the ends.
mid_of_lem : (l end : ℕ) → l < end → end ≤ 2 ^ 30 → mid_of l (end - 1) ≡ some ((l + (end - 1)) / 2)
unfolding mid_of
mid_of_lem l end lt le =
    let e : ltb (l + (end - 1)) (2 ^ 31) ≡ true = ground arith in rw (e, mid_of) refl

search_loop-IsAnswer :
    (fuel : ℕ) (array : List ℕ) (key size l end : ℕ)
    → Ordered array size
    → size ≤ 2 ^ 30
    → end ≤ size
    → end < l + fuel
    → l ≤ end
    → IsAnswer array key l end (search_loop fuel array key l end)
unfolding search_loop Ordered
search_loop-IsAnswer zero array key size l end o int le enough from = absurd (omega arith)
search_loop-IsAnswer (suc fuel) array key size l end o int le enough from =
    let mid = (l + (end - 1)) / 2 in
    elim (Bool-cases (ltb l end)) [
      | inr over ↦ rw (over, search_loop) (absent (λ k a b e. ground arith))
      | inl more ↦
          let lt : l < end = ground arith in
          let m = mid_of_lem l end lt (omega arith) in
          let here : (l ≤ mid) × (mid < end) = (omega arith, omega arith) in
          elim (Bool-cases (at array mid == key)) [
            | inl hit ↦ rw (more, m, search_loop, hit) (found here.0 here.1 (==→eq _ _ hit))
            | inr miss ↦ elim (Bool-cases (ltb (at array mid) key)) [
              | inl below ↦
                  rw (more, m, search_loop, miss, below)
                    (IsAnswer-right array key l mid end _ here.0
                      (λ k a b e. ground (arith, o k mid b (omega arith)))
                      (search_loop-IsAnswer fuel array key size (mid + 1) end o int le (omega arith)
                        (omega arith)))
              | inr above ↦
                  rw (more, m, search_loop, miss, above)
                    (IsAnswer-left array key l mid end _ (omega arith)
                      (λ k a b e. ground (arith, ==→ne _ _ miss, o mid k a (omega arith)))
                      (search_loop-IsAnswer fuel array key size l mid o int (omega arith)
                        (omega arith) (omega arith)))
            ]
          ]
    ]

-- On an array of at most 2^30 elements whose first `size` elements do not fall, and that is NULL
-- only for the size 0, `binarySearch` ends without an overflow, and it answers the index of an
-- element that is the key, or -1 if none of them is.
pub binary_search-IsAnswer :
    (null : Bool) (array : List ℕ) (size key : ℕ)
    → size ≤ 2 ^ 30
    → (null ≡ true → size ≡ 0)
    → Ordered array size
    → IsAnswer array key 0 size (binary_search null array size key)
unfolding binary_search
binary_search-IsAnswer true array zero key int empty o = absent (λ k a b e. omega arith)
binary_search-IsAnswer true array (suc n) key int empty o = absurd (omega (arith, empty refl))
binary_search-IsAnswer false array size key int empty o =
    search_loop-IsAnswer (size + 1) array key size 0 size o int (omega arith) (omega arith)
      (omega arith)

-- With the same fuel the two searches answer the same: on an array of `size` elements,
-- `BinarySearchRecursive` from 0 to `size - 1` answers what `binarySearch` does.
pub search_recursive_lem :
    (fuel : ℕ) (array : List ℕ) (l end key : ℕ)
    → search_recursive fuel array l end key ≡ search_loop fuel array key l end
unfolding search_recursive search_loop
search_recursive_lem zero array l end key = refl
search_recursive_lem (suc fuel) array l end key = elim (Option-cases (mid_of l (end - 1))) [
  | inl e ↦ ground (arith, e)
  | inr (mid, e) ↦ ground (
    arith,
    e,
    search_recursive_lem fuel array (mid + 1) end key,
    search_recursive_lem fuel array l mid key,
  )
]
