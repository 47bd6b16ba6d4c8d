-- ===== src/Sort/Insert.antt =====
-- example_sort.cpp: what `insertSort` does to an array.
use uc.Prelude.{
  one, ℕ, zero, suc, ◌+◌, ◌-◌, ◌≤◌, ◌<◌, ◌≡◌, ◌≢◌, refl, ◌∙◌, arith, List, set, length, length-set,
  ◌==◌, ltb, if◌then◌else◌, Bool-cases, inl, inr,
}
use uc.Sort.{at, insert_down, insert_rounds, insert_sort}
use uc.Sort.Count.{count, count-set, at-set, IsSortOf}

-- The elements before `n` are in order.
unfoldable pub Ordered : List ℕ → ℕ → Type 0
Ordered arr n = (a b : ℕ) → a < b → b < n → at arr a ≤ at arr b

pub length-insert_down : (arr : List ℕ) (tmp j : ℕ) → length (insert_down arr tmp j) ≡ length arr
unfolding insert_down
length-insert_down arr tmp zero = length-set arr 0 tmp
length-insert_down arr tmp (suc j) = ground (
  arith,
  length-insert_down (set arr (suc j) (at arr j)) tmp j,
  length-set arr (suc j) (at arr j),
  length-set arr (suc j) tmp,
)

-- The element at `j` is replaced by `tmp`, as far as the numbers of values go.
pub count-insert_down :
    (x : ℕ) (arr : List ℕ) (tmp j : ℕ)
    → j < length arr
    → count x (insert_down arr tmp j) + one x (at arr j) ≡ count x arr + one x tmp
unfolding insert_down
count-insert_down x arr tmp zero lt = count-set x arr 0 tmp lt
count-insert_down x arr tmp (suc j) lt = elim (Bool-cases (ltb tmp (at arr j))) [
  | inr stops ↦ rw (stops, insert_down) (count-set x arr (suc j) tmp lt)
  | inl moves ↦
      let shifted = set arr (suc j) (at arr j) in
      rw (moves, insert_down)
        (ground (
          arith,
          count-insert_down x shifted tmp j (omega (arith, length-set arr (suc j) (at arr j))),
          count-set x arr (suc j) (at arr j) lt,
          at-set arr (suc j) j (at arr j) lt,
        ))
]

pub at-insert_down :
    (arr : List ℕ) (tmp j k : ℕ) → j < length arr → j < k → at (insert_down arr tmp j) k ≡ at arr k
unfolding insert_down
at-insert_down arr tmp zero k lt far = ground (arith, at-set arr 0 k tmp lt)
at-insert_down arr tmp (suc j) k lt far = ground (
  arith,
  at-set arr (suc j) k tmp lt,
  at-set arr (suc j) k (at arr j) lt,
  at-insert_down (set arr (suc j) (at arr j)) tmp j k
      (omega (arith, length-set arr (suc j) (at arr j))) (omega arith),
)

-- The first `n` elements are in order without the one at `j`, from where on `tmp` is not above
-- them.
record Gap (arr : List ℕ) (n tmp j : ℕ) : Type 0 where
  inside : j < length arr
  apart : (a b : ℕ) → a < b → b < n → a ≢ j → b ≢ j → at arr a ≤ at arr b
  above : (b : ℕ) → j < b → b < n → tmp ≤ at arr b

Gap-shift :
    (arr : List ℕ) (n tmp j : ℕ)
    → suc j < n
    → Gap arr n tmp (suc j)
    → tmp < at arr j
    → Gap (set arr (suc j) (at arr j)) n tmp j
Gap-shift arr n tmp j small g less =
    let read : (k : ℕ)
        → at (set arr (suc j) (at arr j)) k ≡ (if k == suc j then at arr j else at arr k) =
      λ k. at-set arr (suc j) k (at arr j) g.inside in
    record {
      inside = omega (arith, length-set arr (suc j) (at arr j), g.inside);
      apart = λ a b lt top na nb.
          ground (arith, read a, read b, g.apart a b lt top, g.apart a j, g.apart j b);
      above = λ b lt top. ground (arith, read b, g.above b);
    }

insert_down-Ordered :
    (arr : List ℕ) (n tmp j : ℕ) → j < n → Gap arr n tmp j → Ordered (insert_down arr tmp j) n
unfolding insert_down Ordered
insert_down-Ordered arr n tmp zero small g = λ a b lt top.
    ground (arith, at-set arr 0 a tmp g.inside, at-set arr 0 b tmp g.inside, g.apart a b, g.above b)
insert_down-Ordered arr n tmp (suc j) small g = elim (Bool-cases (ltb tmp (at arr j))) [
  | inl moves ↦
      rw (moves, insert_down)
        (insert_down-Ordered (set arr (suc j) (at arr j)) n tmp j (omega arith)
          (Gap-shift arr n tmp j small g (ground arith)))
  | inr stops ↦
      rw (stops, insert_down)
        (λ a b lt top. ground (
          arith,
          at-set arr (suc j) a tmp g.inside,
          at-set arr (suc j) b tmp g.inside,
          g.apart a b lt top,
          g.apart a j,
          g.above b,
        ))
]

-- A round of the outer loop puts the element at `i` among those before it.
round-IsSortOf :
    (arr : List ℕ) (i : ℕ)
    → i < length arr
    → Ordered arr i
    → IsSortOf (i + 1) arr (insert_down arr (at arr i) i)
unfolding Ordered
round-IsSortOf arr i lt o =
    let g : Gap arr (i + 1) (at arr i) i = record {
      inside = lt;
      apart = λ a b less top na nb. o a b less (omega arith);
      above = λ b less top. absurd (omega arith);
    } in
    record {
      ordered = insert_down-Ordered arr (i + 1) (at arr i) i (omega arith) g;
      kept = λ x. omega (arith, count-insert_down x arr (at arr i) i lt);
      behind = λ k far. at-insert_down arr (at arr i) i k lt (omega arith);
      same = length-insert_down arr (at arr i) i;
    }

pub rounds-IsSortOf :
    (arr : List ℕ) (n i : ℕ)
    → i + n ≤ length arr
    → Ordered arr i
    → IsSortOf (i + n) arr (insert_rounds arr n i)
unfolding insert_rounds Ordered
rounds-IsSortOf arr zero i le o = record {
  ordered = λ a b lt top. o a b lt (omega arith);
  kept = λ x. refl;
  behind = λ k far. refl;
  same = refl;
}
rounds-IsSortOf arr (suc n) i le o =
    let r = round-IsSortOf arr i (omega arith) o in
    let later =
      rounds-IsSortOf (insert_down arr (at arr i) i) n (i + 1) (omega (arith, r.same)) r.ordered in
    record {
      ordered = λ a b lt top. later.ordered a b lt (omega arith);
      kept = λ x. later.kept x ∙ r.kept x;
      behind = λ k far. later.behind k (omega arith) ∙ r.behind k (omega arith);
      same = later.same ∙ r.same;
    }

-- `insertSort` of the first `size` elements of an array that has as many puts these in order: they
-- are the same values, each as often as before, and the elements behind them stay.
pub insert_sort-IsSortOf :
    (arr : List ℕ) (size : ℕ) → size ≤ length arr → IsSortOf size arr (insert_sort arr size)
unfolding insert_sort Ordered
insert_sort-IsSortOf arr zero le = record {
  ordered = λ a b lt top. absurd (omega arith);
  kept = λ x. refl;
  behind = λ k far. refl;
  same = refl;
}
insert_sort-IsSortOf arr (suc n) le =
    let r = rounds-IsSortOf arr (suc n - 1) 1 (omega arith) (λ a b lt top. absurd (omega arith)) in
    record {
      ordered = λ a b lt top. r.ordered a b lt (omega arith);
      kept = r.kept;
      behind = λ k far. r.behind k (omega arith);
      same = r.same;
    }
