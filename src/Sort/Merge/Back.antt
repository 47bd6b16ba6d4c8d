-- ===== src/Sort/Merge/Back.antt =====
-- example_sort.cpp: the loop of `merge` that copies the temporary array back.
use uc.Prelude.{
  ℕ, zero, suc, ◌+◌, ◌-◌, ◌≤◌, ◌<◌, ◌≡◌, refl, ◌∙◌, arith, List, set, length, length-set, ◌⊎◌, inl,
  inr,
}
use native.Mathlib.Decide.{ℕ_discrete}
use uc.Sort.{at}
use uc.Sort.Count.{count, count-set, at-set}
use uc.Sort.Merge.{copy_back}
use uc.Sort.Merge.Counts.{count_in, count_in-set}

pub length-copy_back :
    (arr tmp_array : List ℕ) (n end : ℕ) → length (copy_back arr tmp_array n end) ≡ length arr
unfolding copy_back
length-copy_back arr tmp_array zero end = refl
length-copy_back arr tmp_array (suc n) end =
    length-copy_back (set arr end (at tmp_array end)) tmp_array n (end - 1)
    ∙ length-set arr end (at tmp_array end)

-- The `n` places from `lo` to `end` get the elements of the temporary array.
pub at-copy_back :
    (arr tmp_array : List ℕ) (n lo end k : ℕ)
    → (0 < n → end + 1 ≡ lo + n)
    → lo + n ≤ length arr
    → ((lo ≤ k → k < lo + n → at (copy_back arr tmp_array n end) k ≡ at tmp_array k)
        × ((k < lo) ⊎ (lo + n ≤ k) → at (copy_back arr tmp_array n end) k ≡ at arr k))
unfolding copy_back
at-copy_back arr tmp_array zero lo end k e len = (λ a b. absurd (omega arith), λ o. refl)
at-copy_back arr tmp_array (suc n) lo end k e len =
    let eq : end + 1 ≡ lo + suc n = e (omega arith) in
    let read = at-set arr end k (at tmp_array end) (omega arith) in
    let (inside, outside) =
      at-copy_back (set arr end (at tmp_array end)) tmp_array n lo (end - 1) k (λ p. omega arith)
        (omega (arith, length-set arr end (at tmp_array end))) in
    (
      λ a b. elim (ℕ_discrete k end) [
        | yes last ↦ ground (arith, read, outside (inr (omega arith)))
        | no before ↦ inside a (omega arith)
      ],
      λ o. elim o [
        | inl l ↦ ground (arith, read, outside (inl l))
        | inr r ↦ ground (arith, read, outside (inr (omega arith)))
      ],
    )

pub count-copy_back :
    (x : ℕ) (arr tmp_array : List ℕ) (n lo end : ℕ)
    → (0 < n → end + 1 ≡ lo + n)
    → lo + n ≤ length arr
    → count x (copy_back arr tmp_array n end) + count_in x arr lo n
      ≡ count x arr + count_in x tmp_array lo n
unfolding copy_back count_in
count-copy_back x arr tmp_array zero lo end e len = refl
count-copy_back x arr tmp_array (suc n) lo end e len =
    let eq : end ≡ lo + n = omega (arith, e (omega arith)) in
    let arr' : List ℕ = set arr end (at tmp_array end) in
    let lt : end < length arr = omega arith in
    rw (← eq) (
      omega (
        arith,
        count-copy_back x arr' tmp_array n lo (end - 1) (λ p. omega arith)
            (omega (arith, length-set arr end (at tmp_array end))),
        count-set x arr end (at tmp_array end) lt,
        count_in-set x arr lo n end (at tmp_array end) lt (omega arith),
      ))
