-- ===== src/Sort/Merge/Counts.antt =====
-- example_sort.cpp: how often a value occurs in a part of an array.
use uc.Prelude.{one, ℕ, zero, suc, ◌+◌, ◌≤◌, ◌<◌, ◌≡◌, refl, arith, List, set, length}
use uc.Sort.{at}
use uc.Sort.Count.{at-set}

-- How often `x` is among the `n` elements from `lo` on.
unfoldable pub count_in : ℕ → List ℕ → ℕ → ℕ → ℕ
count_in x arr lo zero = 0
count_in x arr lo (suc n) = count_in x arr lo n + one x (at arr (lo + n))

pub count_in-first :
    (x : ℕ) (arr : List ℕ) (lo n : ℕ)
    → count_in x arr lo (suc n) ≡ one x (at arr lo) + count_in x arr (lo + 1) n
unfolding count_in
count_in-first x arr lo zero = let e : lo + 0 ≡ lo = omega arith in rw e (omega arith)
count_in-first x arr lo (suc n) =
    let e : lo + suc n ≡ lo + 1 + n = omega arith in rw e (omega (arith, count_in-first x arr lo n))

pub count_in-split :
    (x : ℕ) (arr : List ℕ) (lo n m : ℕ)
    → count_in x arr lo (n + m) ≡ count_in x arr lo n + count_in x arr (lo + n) m
unfolding count_in
count_in-split x arr lo n zero = let e : n + 0 ≡ n = omega arith in rw e (omega arith)
count_in-split x arr lo n (suc m) =
    let e : n + suc m ≡ suc (n + m) = omega arith in
    let e' : lo + (n + m) ≡ lo + n + m = omega arith in
    rw (e, e') (omega (arith, count_in-split x arr lo n m))

-- A write behind the range
pub count_in-set :
    (x : ℕ) (arr : List ℕ) (lo n i v : ℕ)
    → i < length arr
    → lo + n ≤ i
    → count_in x (set arr i v) lo n ≡ count_in x arr lo n
unfolding count_in
count_in-set x arr lo zero i v lt far = refl
count_in-set x arr lo (suc n) i v lt far =
    ground (arith, count_in-set x arr lo n i v lt (omega arith), at-set arr i (lo + n) v lt)
