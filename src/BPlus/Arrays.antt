-- ===== src/BPlus/Arrays.antt =====
-- example_bplus_tree.cpp: sums over the first places of an array, under the changes that the nodes
-- make to their arrays.
use uc.Prelude.{ℕ, zero, suc, ◌+◌, ◌≤◌, ◌<◌, ◌≡◌, ◌≢◌, refl, sym, ap, arith}
use native.Mathlib.Decide.{ℕ_discrete}

-- The sum of the first `n` values.
unfoldable pub sum : ℕ → (ℕ → ℕ) → ℕ
sum zero f = 0
sum (suc n) f = sum n f + f n

pub sum_congr : (n : ℕ) (f g : ℕ → ℕ) → ((i : ℕ) → i < n → f i ≡ g i) → sum n f ≡ sum n g
unfolding sum
sum_congr zero f g same = refl
sum_congr (suc n) f g same =
    omega (arith, sum_congr n f g (λ i lt. same i (omega arith)), same n (omega arith))

pub sum-add : (a b : ℕ) (f : ℕ → ℕ) → sum (a + b) f ≡ sum a f + sum b (λ i. f (i + a))
unfolding sum
sum-add a zero f = let e : a + 0 ≡ a = omega arith in rw e (omega arith)
sum-add a (suc b) f =
    let e : a + suc b ≡ suc (a + b) = omega arith in
    let e' : b + a ≡ a + b = omega arith in rw (e, e') (omega (arith, sum-add a b f))

-- One value is replaced.
pub sum-replaced :
    (n i v : ℕ) (f g : ℕ → ℕ)
    → i < n
    → g i ≡ v
    → ((j : ℕ) → j < n → j ≢ i → g j ≡ f j)
    → sum n g + f i ≡ sum n f + v
unfolding sum
sum-replaced zero i v f g lt here other = absurd (omega arith)
sum-replaced (suc n) i v f g lt here other = elim (ℕ_discrete i n) [
  | yes last ↦
      let same = sum_congr n g f (λ j less. other j (omega arith) (omega arith)) in
      let e : f i ≡ f n = ap f last in let e' : g i ≡ g n = ap g last in omega (arith, same, here)
  | no before ↦
      let rest = sum-replaced n i v f g (omega arith) here (λ j less. other j (omega arith)) in
      omega (arith, rest, other n (omega arith) (λ p. before (sym p)))
]

-- One value is put in at `i`, and those from there on move up.
pub sum-inserted :
    (n i v : ℕ) (f g : ℕ → ℕ)
    → i ≤ n
    → ((j : ℕ) → j < i → g j ≡ f j)
    → g i ≡ v
    → ((j : ℕ) → i ≤ j → j < n → g (suc j) ≡ f j)
    → sum (suc n) g ≡ sum n f + v
unfolding sum
sum-inserted zero i v f g le below here above =
    let e : g 0 ≡ g i = ap g (let z : 0 ≡ i = omega arith in z) in omega (arith, here)
sum-inserted (suc n) i v f g le below here above = elim (ℕ_discrete i (suc n)) [
  | yes last ↦
      let same = sum_congr (suc n) g f (λ j less. below j (omega arith)) in
      let e : g i ≡ g (suc n) = ap g last in omega (arith, same, here)
  | no before ↦
      let rest =
        sum-inserted n i v f g (omega arith) below here (λ j ge less. above j ge (omega arith)) in
      omega (arith, rest, above n (omega arith) (omega arith))
]
