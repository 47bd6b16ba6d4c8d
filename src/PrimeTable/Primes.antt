-- ===== src/PrimeTable/Primes.antt =====
-- example_shm_hashtable1.cpp: the numbers whose flags `getMode` leaves set.
use uc.Prelude.{
  ℕ, zero, suc, ◌+◌, ◌-◌, ◌*◌, ◌%◌, ◌≤◌, ◌<◌, ◌≡◌, ◌≢◌, inl, inr, Bool, true, false, not, ◌&&◌,
  ◌||◌, ◌==◌, leb, Bool-cases, refl, ap, ◌∙◌, arith,
}
use native.Mathlib.Decide.{ℕ_discrete}
use native.Mathlib.Nat.{mul-le-mul, add-mod_right, mod-eq_of_lt}
use uc.PrimeTable.{word, survives, test_divisors, below_of, flags}
use uc.PrimeTable.Divisors.{Divides, tried, small_divisor}

unfoldable pub IsPrime : ℕ → Type 0
IsPrime q = (2 ≤ q) × ((d : ℕ) → 2 ≤ d → d < q → q % d ≢ 0)

-- What is tried divides no number that survives.
survives-Divides : (x p : ℕ) → survives x p true ≡ true → ¬ Divides x p
unfolding survives Divides
survives-Divides x p h (pos, limit, inl (tries, e)) = ground arith
survives-Divides x p h (pos, limit, inr (tries, e)) = ground arith

survives-flag :
    (x p : ℕ) (flag : Bool) → survives x p flag ≡ true → (flag ≡ true) × (survives x p true ≡ true)
unfolding survives
survives-flag x p true h = (refl, h)
survives-flag x p false h = cc

-- No flag is set again.
test_divisors-flags :
    (fuel p below above : ℕ) (i j : Bool)
    → let (i', j') = test_divisors fuel p below above i j in
      (i' ≡ true → i ≡ true) × (j' ≡ true → j ≡ true)
unfolding test_divisors
test_divisors-flags zero p below above i j = ((λ h. h), (λ h. h))
test_divisors-flags (suc fuel) p below above i j =
    elim (Bool-cases (leb ((p * 6 - 2) * (p * 6 - 2)) above)) [
      | inr end ↦ rw (end, test_divisors) ((λ h. h), (λ h. h))
      | inl more ↦
          let i' = survives below p i in
          let j' = survives above p j in
          let (fi, fj) = test_divisors-flags fuel (p + 1) below above i' j' in
          elim (Bool-cases (not i' && not j')) [
            | inl both ↦
                rw (more, test_divisors, both)
                  ((λ h. (survives-flag below p i h).0), (λ h. (survives-flag above p j h).0))
            | inr one ↦
                rw (more, test_divisors, one)
                  (
                    (λ h. (survives-flag below p i (fi h)).0),
                    (λ h. (survives-flag above p j (fj h)).0),
                  )
          ]
    ]

-- A number whose flag is set has survived every `q` within the limit.
test_divisors_lem :
    (fuel p below above : ℕ) (i j : Bool) (q : ℕ)
    → 0 < p
    → above < p + fuel
    → p ≤ q
    → (q * 6 - 2) * (q * 6 - 2) ≤ above
    → let (i', j') = test_divisors fuel p below above i j in
      (i' ≡ true → survives below q true ≡ true) × (j' ≡ true → survives above q true ≡ true)
unfolding test_divisors
test_divisors_lem zero p below above i j q pos enough le limit =
    let big : (q * 6 - 2) * 1 ≤ (q * 6 - 2) * (q * 6 - 2) =
      mul-le-mul (omega arith) (omega arith) in
    absurd (omega arith)
test_divisors_lem (suc fuel) p below above i j q pos enough le limit =
    elim (Bool-cases (leb ((p * 6 - 2) * (p * 6 - 2)) above)) [
      | inr end ↦
          let grows : (p * 6 - 2) * (p * 6 - 2) ≤ (q * 6 - 2) * (q * 6 - 2) =
            mul-le-mul (omega arith) (omega arith) in
          absurd (ground arith)
      | inl more ↦
          let i' = survives below p i in
          let j' = survives above p j in
          let (fi, fj) = test_divisors-flags fuel (p + 1) below above i' j' in
          elim (Bool-cases (not i' && not j')) [
            | inl both ↦
                let i_off : i' ≡ false = ground arith in
                let j_off : j' ≡ false = ground arith in
                rw (more, test_divisors, both, i_off, j_off) ((λ h. cc), (λ h. cc))
            | inr one ↦ elim (ℕ_discrete p q) [
              | yes here ↦
                  rw (more, test_divisors, one)
                    (rw (← here) (
                      (λ h. (survives-flag below p i (fi h)).1),
                      (λ h. (survives-flag above p j (fj h)).1),
                    ))
              | no later ↦
                  rw (more, test_divisors, one)
                    (test_divisors_lem fuel (p + 1) below above i' j' q (omega arith) (omega arith)
                      (omega arith) limit)
            ]
          ]
    ]

-- A number between multiples of 6 that survives every `p` within the limit is a prime.
survives-IsPrime :
    (x : ℕ)
    → 2 ≤ x
    → x % 2 ≢ 0
    → x % 3 ≢ 0
    → ((p : ℕ) → 0 < p → (p * 6 - 2) * (p * 6 - 2) ≤ x → survives x p true ≡ true)
    → IsPrime x
unfolding IsPrime Divides
survives-IsPrime x two odd apart all = (
  two,
  (λ d two_d lt e.
      let (c, two_c, root, e_c) = small_divisor x d two_d lt e in
      let (p, v) = tried x c odd apart two_c root e_c in survives-Divides x p (all p v.0 v.1) v),
)

pub below_of_pred : (m : ℕ) → 0 < m → m ≤ word → below_of m ≡ m - 1
unfolding below_of
below_of_pred m pos le =
    let e : m + (word - 1) ≡ m - 1 + word = omega arith in
    ap (λ k. k % word) e ∙ add-mod_right (m - 1) word ∙ mod-eq_of_lt (omega arith)

-- For `t` above 0, if the flag of 6t+1 is left set, it is a prime, and if that of 6t-1 is, that is one.
pub flags-IsPrime :
    (t : ℕ)
    → 0 < t
    → 6 * t ≤ word
    → let (i, j) = flags t in (i ≡ true → IsPrime (6 * t - 1)) × (j ≡ true → IsPrime (6 * t + 1))
unfolding flags
flags-IsPrime t pos le =
    let m = 6 * t in
    let e = below_of_pred m (omega arith) le in
    let i0 = not (t % 10 == 6 || below_of m % 3 == 0) in
    let j0 = not (t % 10 == 4 || t % 10 == 9 || (m + 1) % 3 == 0) in
    let all : (p : ℕ)
        → 0 < p
        → (p * 6 - 2) * (p * 6 - 2) ≤ m + 1
        → let (i, j) = test_divisors (m + 2) 1 (below_of m) (m + 1) i0 j0 in
          (i ≡ true → survives (below_of m) p true ≡ true)
          × (j ≡ true → survives (m + 1) p true ≡ true) =
      λ p pos_p limit.
        test_divisors_lem (m + 2) 1 (below_of m) (m + 1) i0 j0 p (omega arith) (omega arith) pos_p
          limit in
    (
      (λ h.
          survives-IsPrime (m - 1) (omega arith) (grind arith) (grind arith)
            (λ p pos_p limit. let s = (all p pos_p (omega arith)).0 h in rw e at s)),
      (λ h.
          survives-IsPrime (m + 1) (omega arith) (grind arith) (grind arith)
            (λ p pos_p limit. (all p pos_p limit).1 h)),
    )
