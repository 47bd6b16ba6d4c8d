-- ===== src/Sort/Count.antt =====
-- example_sort.cpp: how often a value occurs in an array, and what a write does to that.
use uc.Prelude.{
  one, ℕ, zero, suc, ◌+◌, ◌≤◌, ◌<◌, ◌≡◌, refl, arith, List, [], ◌∷◌, set, length, ◌==◌,
  if◌then◌else◌,
}
use uc.Sort.{at}

unfoldable pub count : ℕ → List ℕ → ℕ
count x [] = 0
count x (y ∷ ys) = one x y + count x ys

-- A write takes the old value away and adds the new one.
pub count-set :
    (x : ℕ) (arr : List ℕ) (i v : ℕ)
    → i < length arr
    → count x (set arr i v) + one x (at arr i) ≡ count x arr + one x v
unfolding count
count-set x [] i v lt = absurd (omega arith)
count-set x (y ∷ arr) zero v lt = omega arith
count-set x (y ∷ arr) (suc i) v lt = omega (arith, count-set x arr i v (omega arith))

pub at-set :
    (arr : List ℕ) (i j v : ℕ)
    → i < length arr
    → at (set arr i v) j ≡ (if j == i then v else at arr j)
at-set [] i j v lt = absurd (omega arith)
at-set (y ∷ arr) zero zero v lt = refl
at-set (y ∷ arr) zero (suc j) v lt = ground arith
at-set (y ∷ arr) (suc i) zero v lt = ground arith
at-set (y ∷ arr) (suc i) (suc j) v lt = ground (arith, at-set arr i j v)

-- `after` has the first `size` elements of `before` in their order, and the others in place.
pub record IsSortOf (size : ℕ) (before after : List ℕ) : Type 0 where
  pub ordered : (a b : ℕ) → a < b → b < size → at after a ≤ at after b
  pub kept : (x : ℕ) → count x after ≡ count x before
  pub behind : (k : ℕ) → size ≤ k → at after k ≡ at before k
  pub same : length after ≡ length before
