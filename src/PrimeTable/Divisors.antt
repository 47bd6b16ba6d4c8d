-- ===== src/PrimeTable/Divisors.antt =====
-- example_shm_hashtable1.cpp: which divisors a number has that is not a multiple of 2 or 3.
use uc.Prelude.{
  ℕ, ◌+◌, ◌-◌, ◌*◌, ◌/◌, ◌%◌, ◌≤◌, ◌<◌, ◌≡◌, ◌≢◌, ◌⊎◌, inl, inr, true, false, Bool-cases, refl, ap,
  ◌∙◌, arith,
}
use native.Mathlib.Decide.{dec_lt}
use native.Mathlib.Nat.{
  mod-add-div, mul-mod_right, mul_assoc, mul_comm, lt_of_mul-lt-mul_left, mul-le-mul_left,
  mul-le-mul_right, mul-le-mul,
}
use uc.PrimeTable.{tries_above, tries_below}

-- Divisors have divisors.
mod_trans : (x d k : ℕ) → x % d ≡ 0 → d % k ≡ 0 → x % k ≡ 0
mod_trans x d k e e' =
    let q = x / d in
    let r = d / k in
    let e_x : x ≡ d * q = omega (arith, mod-add-div x d) in
    let e_d : d ≡ k * r = omega (arith, mod-add-div d k) in
    let e_p : x ≡ k * (r * q) = e_x ∙ ap (λ y. y * q) e_d ∙ mul_assoc k r q in
    rw e_p (mul-mod_right k (r * q))

-- A number with a divisor has one that is not above the root.
pub small_divisor :
    (x d : ℕ) → 2 ≤ d → d < x → x % d ≡ 0 → (c : ℕ) × (2 ≤ c) × (c * c ≤ x) × (x % c ≡ 0)
small_divisor x d two lt e =
    let q = x / d in
    let e_x : x ≡ d * q = omega (arith, mod-add-div x d) in
    elim (dec_lt x (d * d)) [
      | no small ↦ (d, two, omega arith, e)
      | yes big ↦
          let q_lt : q < d = lt_of_mul-lt-mul_left d (omega (arith, e_x)) in
          let q_two : 2 ≤ q = elim (dec_lt q 2) [
            | no ge ↦ omega arith
            | yes one_or_zero ↦
                let le : d * q ≤ d * 1 = mul-le-mul_left d (omega arith) in
                absurd (omega (arith, le, e_x))
          ] in
          let square : q * q ≤ d * q = mul-le-mul_right q (omega arith) in
          let e_q : x % q ≡ 0 = ap (λ y. y % q) (e_x ∙ mul_comm d q) ∙ mul-mod_right q d in
          (q, q_two, omega (arith, square, e_x), e_q)
    ]

-- One of the two numbers that are tried for `p` divides `x`, and `p` is within the limit.
unfoldable pub Divides : ℕ → ℕ → Type 0
Divides x p =
    (0 < p)
    × ((p * 6 - 2) * (p * 6 - 2) ≤ x)
    × (((tries_above p ≡ true) × (x % (p * 6 + 1) ≡ 0))
        ⊎ ((tries_below p ≡ true) × (x % (p * 6 - 1) ≡ 0)))

-- A multiple of 5.
Divides-five : (x : ℕ) → 25 ≤ x → x % 5 ≡ 0 → Divides x 1
unfolding Divides tries_below
Divides-five x ge e = (omega arith, omega arith, inr (refl, e))

-- What is not tried is a multiple of 5.
skip_above : (p : ℕ) → tries_above p ≡ false → (p * 6 + 1) % 5 ≡ 0
unfolding tries_above
skip_above p f =
    let ends : (p % 10 ≡ 4) ⊎ (p % 10 ≡ 9) = ground arith in
    elim ends [ inl four ↦ grind arith | inr nine ↦ grind arith ]

skip_below : (p : ℕ) → tries_below p ≡ false → (p * 6 - 1) % 5 ≡ 0
unfolding tries_below
skip_below p f = let six : p % 10 ≡ 6 = ground arith in grind arith

-- A divisor up to the root is tried, or is a multiple of 5.
pub tried :
    (x c : ℕ) → x % 2 ≢ 0 → x % 3 ≢ 0 → 2 ≤ c → c * c ≤ x → x % c ≡ 0 → (p : ℕ) × Divides x p
unfolding Divides
tried x c odd apart two root e =
    let c_odd : c % 2 ≢ 0 = λ z. odd (mod_trans x c 2 e z) in
    let c_apart : c % 3 ≢ 0 = λ z. apart (mod_trans x c 3 e z) in
    let five_le : 5 ≤ c = grind arith in
    let big : 5 * 5 ≤ c * c = mul-le-mul five_le five_le in
    let five : c % 5 ≡ 0 → (p : ℕ) × Divides x p =
      λ z. (1, Divides-five x (omega arith) (mod_trans x c 5 e z)) in
    let kinds : (c % 6 ≡ 1) ⊎ (c % 6 ≡ 5) = grind arith in
    elim kinds [
      | inl one ↦
          let p = c / 6 in
          let e_c : c ≡ p * 6 + 1 = grind arith in
          let limit : (p * 6 - 2) * (p * 6 - 2) ≤ c * c = mul-le-mul (omega arith) (omega arith) in
          elim (Bool-cases (tries_above p)) [
            | inl t ↦ (p, (omega arith, omega arith, inl (t, rw (← e_c) e)))
            | inr f ↦ five (rw e_c (skip_above p f))
          ]
      | inr last ↦
          let p = (c + 1) / 6 in
          let e_c : c ≡ p * 6 - 1 = grind arith in
          let limit : (p * 6 - 2) * (p * 6 - 2) ≤ c * c = mul-le-mul (omega arith) (omega arith) in
          elim (Bool-cases (tries_below p)) [
            | inl t ↦ (p, (grind arith, omega arith, inr (t, rw (← e_c) e)))
            | inr f ↦ five (rw e_c (skip_below p f))
          ]
    ]
