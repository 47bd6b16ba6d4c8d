-- ===== src/Ring/Mask.antt =====
-- Bit masks: what `&` gives with a mask of ones, and with a single bit.
use Prim.Native.Nat.{bit_and, digits, bit_and-bitwise, min}
use native.Mathlib.Nat.{pow-suc, one-le-pow, zero-mod, mod_self}
use native.Mathlib.Decide.{ℕ_discrete}
use uc.Prelude.{ℕ, zero, suc, ◌+◌, ◌-◌, ◌*◌, ◌/◌, ◌%◌, ◌^◌, ◌≤◌, ◌<◌, ◌≡◌, refl, ◌∙◌, sym, arith}

pub pow_pos : (k : ℕ) → 0 < 2 ^ k
pow_pos k = one-le-pow k 2 (omega arith)

-- The lowest digit of `x` and the rest, for a modulus that doubles.
mod-double : (x p : ℕ) → 0 < p → x / 2 % p * 2 + x % 2 ≡ x % (p * 2)
mod-double x p h = grind arith

abbrev and_digits : ℕ → ℕ → ℕ → ℕ
and_digits n a b = digits (λ _. zero) min n a b

half_mask : (k : ℕ) → ((2 ^ suc k - 1) / 2 ≡ 2 ^ k - 1) × ((2 ^ suc k - 1) % 2 ≡ 1)
half_mask k =
    let e : 2 ^ suc k ≡ 2 ^ k * 2 = pow-suc 2 k in
    (omega (arith, e, pow_pos k), omega (arith, e, pow_pos k))

mask_digits : (n k a : ℕ) → a ≤ n → and_digits n a (2 ^ k - 1) ≡ a % 2 ^ k
mask_digits zero k zero h = sym (zero-mod (2 ^ k))
mask_digits zero k (suc a) h = absurd (omega arith)
mask_digits (suc n) k zero h = sym (zero-mod (2 ^ k))
mask_digits (suc n) zero (suc a) h = omega (arith, mask_digits n 0 (suc a / 2) (omega arith))
mask_digits (suc n) (suc k) (suc a) h =
    rw ((half_mask k).0, (half_mask k).1, mask_digits n k (suc a / 2) (omega arith), pow-suc)
      (omega (arith, mod-double (suc a) (2 ^ k) (pow_pos k)))

-- `x & (2^k - 1)` is the remainder modulo 2^k.
pub bit_and-mask : (x k : ℕ) → bit_and x (2 ^ k - 1) ≡ x % 2 ^ k
bit_and-mask x k = bit_and-bitwise x (2 ^ k - 1) ∙ mask_digits x k x (omega arith)

and_digits-zero : (n b : ℕ) → and_digits n 0 b ≡ 0
and_digits-zero zero b = refl
and_digits-zero (suc n) b = refl

digits_step :
    (n a b : ℕ) → and_digits (suc n) a b ≡ and_digits n (a / 2) (b / 2) * 2 + min (a % 2) (b % 2)
digits_step n zero b = omega (arith, and_digits-zero n (b / 2))
digits_step n (suc a) b = refl

div-double : (x p : ℕ) → 0 < p → x / 2 / p ≡ x / (p * 2)
div-double x p h = grind arith

bit_digits : (n j v : ℕ) → 2 ^ j ≤ n → and_digits n (2 ^ j) v ≡ v / 2 ^ j % 2 * 2 ^ j
bit_digits zero j v h = absurd (omega (arith, pow_pos j))
bit_digits (suc n) zero v h = omega (arith, and_digits-zero n (v / 2))
bit_digits (suc n) (suc j) v h =
    let e : 2 ^ suc j ≡ 2 ^ j * 2 = pow-suc 2 j in
    rw
      (
        digits_step n (2 ^ suc j) v,
        e,
        (let half : 2 ^ j * 2 / 2 ≡ 2 ^ j = omega arith in half),
        bit_digits n j (v / 2) (omega (arith, e)),
        div-double v (2 ^ j) (pow_pos j),
      )
      (omega arith)

-- `2^j & v` is the digit of `v` at `j`, in its place.
pub bit_and-bit : (j v : ℕ) → bit_and (2 ^ j) v ≡ v / 2 ^ j % 2 * 2 ^ j
bit_and-bit j v = bit_and-bitwise (2 ^ j) v ∙ bit_digits (2 ^ j) j v (omega arith)

and_digits_self : (n a : ℕ) → a ≤ n → and_digits n a a ≡ a
and_digits_self zero zero h = refl
and_digits_self zero (suc a) h = absurd (omega arith)
and_digits_self (suc n) zero h = refl
and_digits_self (suc n) (suc a) h = omega (arith, and_digits_self n (suc a / 2) (omega arith))

pred_digits : (n a : ℕ) → a ≤ n → 0 < a → and_digits n a (a - 1) ≡ 0 → (k : ℕ) × (a ≡ 2 ^ k)
pred_digits zero a h pos e = absurd (omega arith)
pred_digits (suc n) zero h pos e = absurd (omega arith)
pred_digits (suc n) (suc a) h pos e =
    let step = digits_step n (suc a) (suc a - 1) in
    let w = suc a / 2 in
    elim (ℕ_discrete (suc a % 2) 0) [
      | yes even ↦
          let down : (suc a - 1) / 2 ≡ w - 1 = omega arith in
          let (k, p) = pred_digits n w (omega arith) (omega arith) (
            rw down at
              (let z : and_digits n w ((suc a - 1) / 2) ≡ 0 = omega (arith, step, e) in z)) in
          (suc k, omega (arith, p, pow-suc 2 k))
      | no odd ↦
          let down : (suc a - 1) / 2 ≡ w = omega arith in
          let self = and_digits_self n w (omega arith) in
          let z : and_digits n w w ≡ 0 =
            rw down at
              (let y : and_digits n w ((suc a - 1) / 2) ≡ 0 = omega (arith, step, e) in y) in
          (0, omega (arith, self, z))
    ]

-- A number that shares no digit with its predecessor is a power of two.
pub power_of_bit_and_pred : (a : ℕ) → 0 < a → bit_and a (a - 1) ≡ 0 → (k : ℕ) × (a ≡ 2 ^ k)
power_of_bit_and_pred a pos e =
    pred_digits a a (omega arith) pos (sym (bit_and-bitwise a (a - 1)) ∙ e)

pub bit_and_pred-power : (k : ℕ) → bit_and (2 ^ k) (2 ^ k - 1) ≡ 0
bit_and_pred-power k = bit_and-mask (2 ^ k) k ∙ mod_self (2 ^ k)
