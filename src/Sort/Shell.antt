-- ===== src/Sort/Shell.antt =====
-- example_sort.cpp: the passes of `shellSort`, and the last one, whose increment is 1.
use uc.Prelude.{
  one, ℕ, zero, suc, ◌+◌, ◌-◌, ◌/◌, ◌≤◌, ◌<◌, ◌≡◌, refl, ◌∙◌, arith, List, set, length, length-set,
  ltb, leb, Bool-cases, inl, inr, ◌&&◌,
}
use native.Mathlib.Decide.{dec_lt}
use uc.Sort.{at, insert_down, insert_rounds, shell_down, shell_rounds, shell_gaps, shell_sort}
use uc.Sort.Count.{count, count-set, at-set, IsSortOf}
use uc.Sort.Insert.{Ordered, rounds-IsSortOf}

-- What every pass keeps.
record Keeps (size : ℕ) (before after : List ℕ) : Type 0 where
  kept : (x : ℕ) → count x after ≡ count x before
  behind : (k : ℕ) → size ≤ k → at after k ≡ at before k
  same : length after ≡ length before

Keeps-refl : (size : ℕ) (arr : List ℕ) → Keeps size arr arr
Keeps-refl size arr = record { kept = λ x. refl; behind = λ k far. refl; same = refl }

length-shell_down :
    (fuel : ℕ) (arr : List ℕ) (gap tmp j : ℕ) → length (shell_down fuel arr gap tmp j) ≡ length arr
unfolding shell_down
length-shell_down zero arr gap tmp j = length-set arr j tmp
length-shell_down (suc fuel) arr gap tmp j = ground (
  arith,
  length-shell_down fuel (set arr j (at arr (j - gap))) gap tmp (j - gap),
  length-set arr j (at arr (j - gap)),
  length-set arr j tmp,
)

count-shell_down :
    (x fuel : ℕ) (arr : List ℕ) (gap tmp j : ℕ)
    → 0 < gap
    → j < length arr
    → count x (shell_down fuel arr gap tmp j) + one x (at arr j) ≡ count x arr + one x tmp
unfolding shell_down
count-shell_down x zero arr gap tmp j pos lt = count-set x arr j tmp lt
count-shell_down x (suc fuel) arr gap tmp j pos lt =
    elim (Bool-cases (leb gap j && ltb tmp (at arr (j - gap)))) [
      | inr stops ↦ rw (stops, shell_down) (count-set x arr j tmp lt)
      | inl moves ↦
          let shifted = set arr j (at arr (j - gap)) in
          rw (moves, shell_down)
            (ground (
              arith,
              count-shell_down x fuel shifted gap tmp (j - gap) pos
                  (omega (arith, length-set arr j (at arr (j - gap)))),
              count-set x arr j (at arr (j - gap)) lt,
              at-set arr j (j - gap) (at arr (j - gap)) lt,
            ))
    ]

at-shell_down :
    (fuel : ℕ) (arr : List ℕ) (gap tmp j k : ℕ)
    → j < length arr
    → j < k
    → at (shell_down fuel arr gap tmp j) k ≡ at arr k
unfolding shell_down
at-shell_down zero arr gap tmp j k lt far = ground (arith, at-set arr j k tmp lt)
at-shell_down (suc fuel) arr gap tmp j k lt far = ground (
  arith,
  at-set arr j k tmp lt,
  at-set arr j k (at arr (j - gap)) lt,
  at-shell_down fuel (set arr j (at arr (j - gap))) gap tmp (j - gap) k
      (omega (arith, length-set arr j (at arr (j - gap)))) (omega arith),
)

shell_rounds-Keeps :
    (arr : List ℕ) (gap n i : ℕ)
    → 0 < gap
    → i + n ≤ length arr
    → Keeps (i + n) arr (shell_rounds arr gap n i)
unfolding shell_rounds
shell_rounds-Keeps arr gap zero i pos le = Keeps-refl (i + 0) arr
shell_rounds-Keeps arr gap (suc n) i pos le =
    let next = shell_down i arr gap (at arr i) i in
    let same = length-shell_down i arr gap (at arr i) i in
    let later = shell_rounds-Keeps next gap n (i + 1) pos (omega (arith, same)) in
    record {
      kept = λ x.
          omega (arith, later.kept x, count-shell_down x i arr gap (at arr i) i pos (omega arith));
      behind = λ k far.
          later.behind k (omega arith)
          ∙ at-shell_down i arr gap (at arr i) i k (omega arith) (omega arith);
      same = later.same ∙ same;
    }

-- With the increment 1 the loops are those of `insertSort`.
shell_down-one :
    (fuel : ℕ) (arr : List ℕ) (tmp j : ℕ)
    → j ≤ fuel
    → shell_down fuel arr 1 tmp j ≡ insert_down arr tmp j
unfolding shell_down insert_down
shell_down-one zero arr tmp zero le = refl
shell_down-one zero arr tmp (suc j) le = absurd (omega arith)
shell_down-one (suc fuel) arr tmp zero le = refl
shell_down-one (suc fuel) arr tmp (suc j) le =
    ground (arith, shell_down-one fuel (set arr (suc j) (at arr j)) tmp j (omega arith))

shell_rounds-one : (arr : List ℕ) (n i : ℕ) → shell_rounds arr 1 n i ≡ insert_rounds arr n i
unfolding shell_rounds insert_rounds
shell_rounds-one arr zero i = refl
shell_rounds-one arr (suc n) i =
    rw (shell_down-one i arr (at arr i) i (omega arith))
      (shell_rounds-one (insert_down arr (at arr i) i) n (i + 1))

-- A pass with an increment that is not above the size.
pass-Keeps :
    (arr : List ℕ) (size gap : ℕ)
    → 0 < gap
    → gap ≤ size
    → size ≤ length arr
    → Keeps size arr (shell_rounds arr gap (size - gap) gap)
pass-Keeps arr size gap pos small le =
    let k = shell_rounds-Keeps arr gap (size - gap) gap pos (omega arith) in
    record { kept = k.kept; behind = λ j far. k.behind j (omega arith); same = k.same }

Keeps-IsSortOf :
    (size : ℕ) (a b c : List ℕ) → Keeps size a b → IsSortOf size b c → IsSortOf size a c
Keeps-IsSortOf size a b c p s = record {
  ordered = s.ordered;
  kept = λ x. s.kept x ∙ p.kept x;
  behind = λ k far. s.behind k far ∙ p.behind k far;
  same = s.same ∙ p.same;
}

last-IsSortOf :
    (arr : List ℕ) (size : ℕ)
    → 0 < size
    → size ≤ length arr
    → IsSortOf size arr (shell_rounds arr 1 (size - 1) 1)
unfolding Ordered
last-IsSortOf arr size pos le =
    let r = rounds-IsSortOf arr (size - 1) 1 (omega arith) (λ a b lt top. absurd (omega arith)) in
    rw (shell_rounds-one arr (size - 1) 1) (record {
      ordered = λ a b lt top. r.ordered a b lt (omega arith);
      kept = r.kept;
      behind = λ k far. r.behind k (omega arith);
      same = r.same;
    })

shell_gaps-zero : (fuel : ℕ) (arr : List ℕ) (size : ℕ) → shell_gaps fuel arr size 0 ≡ arr
unfolding shell_gaps
shell_gaps-zero zero arr size = refl
shell_gaps-zero (suc fuel) arr size = refl

shell_gaps-IsSortOf :
    (fuel : ℕ) (arr : List ℕ) (size gap : ℕ)
    → 0 < gap
    → gap ≤ size
    → gap ≤ fuel
    → size ≤ length arr
    → IsSortOf size arr (shell_gaps fuel arr size gap)
unfolding shell_gaps
shell_gaps-IsSortOf zero arr size gap pos small enough le = absurd (omega arith)
shell_gaps-IsSortOf (suc fuel) arr size zero pos small enough le = absurd (omega arith)
shell_gaps-IsSortOf (suc fuel) arr size (suc zero) pos small enough le =
    rw (shell_gaps-zero fuel (shell_rounds arr 1 (size - 1) 1) size)
      (last-IsSortOf arr size (omega arith) le)
shell_gaps-IsSortOf (suc fuel) arr size (suc (suc k)) pos small enough le =
    let gap = suc (suc k) in
    let next = shell_rounds arr gap (size - gap) gap in
    let keeps = pass-Keeps arr size gap pos small le in
    Keeps-IsSortOf size arr next (shell_gaps fuel next size (gap / 2)) keeps (
      shell_gaps-IsSortOf fuel next size (gap / 2) (omega arith) (omega arith) (omega arith)
        (omega (arith, keeps.same)))

-- `shellSort` of the first `size` elements of an array that has as many puts these in order: they
-- are the same values, each as often as before, and the elements behind them stay.
pub shell_sort-IsSortOf :
    (arr : List ℕ) (size : ℕ) → size ≤ length arr → IsSortOf size arr (shell_sort arr size)
unfolding shell_sort
shell_sort-IsSortOf arr size le = elim (dec_lt size 2) [
  | no more ↦
      shell_gaps-IsSortOf size arr size (size / 2) (omega arith) (omega arith) (omega arith) le
  | yes less ↦
      let none : size / 2 ≡ 0 = omega arith in
      rw (none, shell_gaps-zero size arr size)
        (record {
          ordered = λ a b lt top. absurd (omega arith);
          kept = λ x. refl;
          behind = λ k far. refl;
          same = refl;
        })
]
