-- ===== src/Sort/Shuffle.antt =====
-- example_sort.cpp, example_quicksort.cpp: arrays whose elements from `lo` to before `hi` are in
-- another order.
use uc.Prelude.{
  ℕ, ◌≤◌, ◌<◌, ◌≡◌, refl, ◌∙◌, arith, List, length, ◌==◌, if◌then◌else◌, ◌⊎◌, inl, inr,
}
use native.Mathlib.Decide.{dec_lt}
use uc.Sort.{at}
use uc.Sort.Count.{count, IsSortOf}

-- A bound of all elements in the range stays one.
pub record IsShuffle (lo hi : ℕ) (before after : List ℕ) : Type 0 where
  pub kept : (x : ℕ) → count x after ≡ count x before
  pub same : length after ≡ length before
  pub outside : (k : ℕ) → (k < lo) ⊎ (hi ≤ k) → at after k ≡ at before k
  pub below :
      (v : ℕ)
      → ((k : ℕ) → lo ≤ k → k < hi → at before k ≤ v)
      → (k : ℕ) → lo ≤ k
      → k < hi
      → at after k ≤ v
  pub above :
      (v : ℕ)
      → ((k : ℕ) → lo ≤ k → k < hi → v ≤ at before k)
      → (k : ℕ) → lo ≤ k
      → k < hi
      → v ≤ at after k

pub IsShuffle-refl : (lo hi : ℕ) (arr : List ℕ) → IsShuffle lo hi arr arr
IsShuffle-refl lo hi arr = record {
  kept = λ x. refl;
  same = refl;
  outside = λ k o. refl;
  below = λ v h. h;
  above = λ v h. h;
}

pub IsShuffle-trans :
    {lo hi : ℕ} {a b c : List ℕ} → IsShuffle lo hi a b → IsShuffle lo hi b c → IsShuffle lo hi a c
IsShuffle-trans s t = record {
  kept = λ x. t.kept x ∙ s.kept x;
  same = t.same ∙ s.same;
  outside = λ k o. t.outside k o ∙ s.outside k o;
  below = λ v h. t.below v (s.below v h);
  above = λ v h. t.above v (s.above v h);
}

-- A shuffle of a range is one of a wider range.
pub IsShuffle-widen :
    {lo hi : ℕ} {a b : List ℕ} (lo' hi' : ℕ)
    → lo' ≤ lo
    → hi ≤ hi'
    → IsShuffle lo hi a b
    → IsShuffle lo' hi' a b
IsShuffle-widen {lo} {hi} lo' hi' le ge s = record {
  kept = s.kept;
  same = s.same;
  outside = λ k o. s.outside k (elim o [ inl l ↦ inl (omega arith) | inr r ↦ inr (omega arith) ]);
  below = λ v h k l g. elim (dec_lt k lo) [
    | yes out ↦ omega (arith, s.outside k (inl out), h k l g)
    | no in_lo ↦ elim (dec_lt k hi) [
      | yes inside ↦ s.below v (λ j jl jg. h j (omega arith) (omega arith)) k (omega arith) inside
      | no out ↦ omega (arith, s.outside k (inr (omega arith)), h k l g)
    ]
  ];
  above = λ v h k l g. elim (dec_lt k lo) [
    | yes out ↦ omega (arith, s.outside k (inl out), h k l g)
    | no in_lo ↦ elim (dec_lt k hi) [
      | yes inside ↦ s.above v (λ j jl jg. h j (omega arith) (omega arith)) k (omega arith) inside
      | no out ↦ omega (arith, s.outside k (inr (omega arith)), h k l g)
    ]
  ];
}

-- Two arrays with the same values of which one has the elements of the other at `i` and `j`
-- exchanged.
pub IsShuffle-exchange :
    {lo hi i j : ℕ} {a b : List ℕ}
    → lo ≤ i
    → i < hi
    → lo ≤ j
    → j < hi
    → ((x : ℕ) → count x b ≡ count x a)
    → length b ≡ length a
    → ((k : ℕ) → at b k ≡ (if k == i then at a j else if k == j then at a i else at a k))
    → IsShuffle lo hi a b
IsShuffle-exchange {lo} {hi} {i} {j} {a} {b} li gi lj gj counts len read = record {
  kept = counts;
  same = len;
  outside = λ k o. elim o [ inl l ↦ ground (arith, read k) | inr r ↦ ground (arith, read k) ];
  below = λ v h k l g. ground (arith, read k, h k l g, h i li gi, h j lj gj);
  above = λ v h k l g. ground (arith, read k, h k l g, h i li gi, h j lj gj);
}

-- `after` has the elements from `lo` to before `hi` in order.
pub record IsRangeSort (lo hi : ℕ) (before after : List ℕ) : Type 0 where
  pub ordered : (a b : ℕ) → lo ≤ a → a < b → b < hi → at after a ≤ at after b
  pub shuffled : IsShuffle lo hi before after

pub IsRangeSort-IsSortOf : {size : ℕ} {a b : List ℕ} → IsRangeSort 0 size a b → IsSortOf size a b
IsRangeSort-IsSortOf s = record {
  ordered = λ a b lt top. s.ordered a b (omega arith) lt top;
  kept = s.shuffled.kept;
  behind = λ k far. s.shuffled.outside k (inr far);
  same = s.shuffled.same;
}
