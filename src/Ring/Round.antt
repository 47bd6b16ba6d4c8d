-- ===== src/Ring/Round.antt =====
-- example_unlockqueue.cpp: the size that the constructor rounds up to.
use Prim.Native.Nat.{bit_and}
use native.Mathlib.Nat.{pow-suc, two-pow-succ, pow-le-pow_right, div-eq_of_lt}
use native.Mathlib.Decide.{dec_lt}
use uc.Prelude.{
  ℕ, zero, suc, ◌+◌, ◌-◌, ◌*◌, ◌/◌, ◌%◌, ◌^◌, ◌≤◌, ◌<◌, ◌≡◌, ◌≢◌, refl, ap, arith, ◌==◌, inl, inr,
  Bool-cases, ne→==, ==→eq, ==→ne, false,
}
use uc.Ring.{u32, u64, is_power_of_2, shift_down, roundup_power_of_two, construct}
use uc.Ring.Mask.{pow_pos, bit_and-bit, power_of_bit_and_pred, bit_and_pred-power}

bit_low : (j val : ℕ) → val < 2 ^ j → bit_and (2 ^ j) val ≡ 0
bit_low j val h =
    let e : val / 2 ^ j ≡ 0 = div-eq_of_lt h in
    omega (arith, bit_and-bit j val, ap (λ k. k % 2 * 2 ^ j) e)

one_div : (val p : ℕ) → p ≤ val → val < p + p → val / p ≡ 1
one_div val p h k = grind arith

bit_high : (j val : ℕ) → 2 ^ j ≤ val → val < 2 ^ suc j → bit_and (2 ^ j) val ≡ 2 ^ j
bit_high j val h k =
    let e : val / 2 ^ j ≡ 1 = one_div val (2 ^ j) h (omega (arith, pow-suc 2 j)) in
    omega (arith, bit_and-bit j val, ap (λ t. t % 2 * 2 ^ j) e)

-- The shifts stop at the highest bit of `val`.
shift_down_lem :
    (f j val : ℕ)
    → j < f
    → 0 < val
    → val < 2 ^ suc j
    → (i : ℕ) × (shift_down f val (2 ^ j) ≡ 2 ^ i) × (2 ^ i ≤ val) × (val < 2 ^ suc i) × (i ≤ j)
unfolding shift_down
shift_down_lem zero j val h pos small = absurd (omega arith)
shift_down_lem (suc f) zero val h pos small =
    let one : val ≡ 1 = omega arith in
    (0, rw (one, shift_down) refl, omega arith, omega arith, omega arith)
shift_down_lem (suc f) (suc j) val h pos small = elim (dec_lt val (2 ^ suc j)) [
  | yes less ↦
      let (i, e, lo, hi, le) = shift_down_lem f j val (omega arith) pos less in
      let half : 2 ^ suc j / 2 ≡ 2 ^ j = omega (arith, pow-suc 2 j) in
      (i, rw (bit_low (suc j) val less, shift_down, half) e, lo, hi, omega arith)
  | no more ↦
      let z : (bit_and (2 ^ suc j) val == 0) ≡ false =
        ne→== _ _ (omega (arith, bit_high (suc j) val (omega arith) small, pow_pos (suc j))) in
      (suc j, rw (z, shift_down), omega arith, small, omega arith)
]

pred_word : (val : ℕ) → 0 < val → val < u64 → (val + u64 - 1) % u64 ≡ val - 1
pred_word val pos lt = omega arith

-- What the constructor asks of the size that it settles on.
pub record IsRounded (n size : ℕ) : Type 0 where
  pub exponent : ℕ
  pub power : size ≡ 2 ^ exponent
  pub narrow : exponent ≤ 31
  pub enough : n ≤ size
  pub tight : size < n + n

power-narrow : (k : ℕ) → 2 ^ k ≤ 2 ^ 31 → k ≤ 31
power-narrow k h = elim (dec_lt 31 k) [
  | yes more ↦
      absurd (omega (arith, pow-le-pow_right {n = 2} (omega arith) {i = 32} {j = k} (omega arith)))
  | no le ↦ omega arith
]

power-narrow_strict : (k : ℕ) → 2 ^ k < 2 ^ 31 → suc k ≤ 31
power-narrow_strict k h = elim (dec_lt k 31) [
  | yes less ↦ less
  | no more ↦
      absurd (omega (arith, pow-le-pow_right {n = 2} (omega arith) {i = 31} {j = k} (omega arith)))
]

kept-IsRounded : (n : ℕ) → 0 < n → n ≤ 2 ^ 31 → bit_and n (n - 1) ≡ 0 → IsRounded n n
kept-IsRounded n pos le e =
    let (k, p) = power_of_bit_and_pred n pos e in
    record {
      exponent = k;
      power = p;
      narrow = power-narrow k (omega arith);
      enough = omega arith;
      tight = omega arith;
    }

raised-IsRounded :
    (n : ℕ)
    → 0 < n
    → n ≤ 2 ^ 31
    → bit_and n (n - 1) ≢ 0
    → IsRounded n (shift_down 64 n (2 ^ 63) * 2 % u64 % u32)
raised-IsRounded n pos le ne =
    let (i, e, lo, hi, small) = shift_down_lem 64 63 n (omega arith) pos (omega arith) in
    let strict : 2 ^ i ≢ n = λ p. ne (rw (← p) (bit_and_pred-power i)) in
    let half : 2 ^ i < 2 ^ 31 = omega (arith, strict) in
    let twice : 2 ^ suc i ≡ 2 ^ i + 2 ^ i = two-pow-succ i in
    let value : shift_down 64 n (2 ^ 63) * 2 % u64 % u32 ≡ 2 ^ suc i = omega (arith, e) in
    record {
      exponent = suc i;
      power = value;
      narrow = power-narrow_strict i half;
      enough = omega (arith, value);
      tight = omega (arith, value, strict);
    }

-- For a size from 1 to 2^31 - 1, the constructor settles on a power of two that is at least the
-- size asked for and less than twice it, at most 2^31, with both indices at 0.
pub construct-IsRounded :
    (n : ℕ)
    → 0 < n
    → n < 2 ^ 31
    → IsRounded n (construct n).size × ((construct n).input ≡ 0) × ((construct n).output ≡ 0)
unfolding construct is_power_of_2 roundup_power_of_two
construct-IsRounded n pos lt =
    let nz : (n == 0) ≡ false = ne→== n 0 (omega arith) in
    let back = pred_word n pos (omega arith) in
    elim (Bool-cases (bit_and n (n - 1) == 0)) [
      | inl power ↦
          (rw (nz, back, power) (kept-IsRounded n pos (omega arith) (==→eq _ _ power)), refl, refl)
      | inr other ↦ (
        rw (nz, back, other) (raised-IsRounded n pos (omega arith) (==→ne _ _ other)),
        refl,
        refl,
      )
    ]
