-- ===== src/Ring/Fifo.antt =====
-- example_unlockqueue.cpp: `Put` and `Get` as the operations of a bounded first-in-first-out queue
-- of bytes. The indices wrap at 2^32, which the size divides.
use Prim.Native.Nat.{◌∣◌}
use native.Mathlib.Nat.{mod-mod_of_dvd, dvd_refl, dvd-mul_right_of_dvd, pow-suc, pow-le-pow_right}
use mathlib.Core.Path.{subst}
use uc.Prelude.{ℕ, zero, suc, ◌+◌, ◌-◌, ◌%◌, ◌^◌, ◌≤◌, ◌<◌, ◌≡◌, ap, ◌∙◌, sym, arith, List, length}
use uc.Ring.{Queue, u32, data_len, masked}
use uc.Ring.Mask.{pow_pos, bit_and-mask}
use uc.Ring.Window.{window, length-window}

-- The size is a power of two up to 2^31, the buffer is there, the indices are `unsigned int`, and
-- no more bytes lie between them than the buffer holds.
pub record IsValid (q : Queue) : Type 0 where
  pub exponent : ℕ
  pub power : q.size ≡ 2 ^ exponent
  pub narrow : exponent ≤ 31
  pub allocated : length q.buffer ≡ q.size
  pub input_word : q.input < u32
  pub output_word : q.output < u32
  pub within : data_len q ≤ q.size

-- The bytes in the queue, the next to leave first.
unfoldable pub contents : Queue → List ℕ
contents q = window q.size q.buffer q.output (data_len q)

power-dvd : (k d : ℕ) → 2 ^ k ∣ 2 ^ (k + d)
power-dvd k zero = let e : k + 0 ≡ k = omega arith in rw e (dvd_refl (2 ^ k))
power-dvd k (suc d) =
    let e : k + suc d ≡ suc (k + d) = omega arith in
    rw (e, pow-suc) (dvd-mul_right_of_dvd (2 ^ k) (power-dvd k d) 2)

module _ (q : Queue) (v : IsValid q) where
  pub size_pos : 0 < q.size
  size_pos = omega (arith, v.power, pow_pos v.exponent)

  pub size-le : q.size ≤ 2 ^ 31
  size-le =
      omega
        (arith, v.power, pow-le-pow_right {n = 2} (omega arith) {i = v.exponent} {j = 31} v.narrow)

  size-dvd : q.size ∣ u32
  size-dvd =
      let e : 32 ≡ v.exponent + (32 - v.exponent) = omega (arith, v.narrow) in
      subst (λ t. q.size ∣ 2 ^ t) (sym e)
        (subst (λ s. s ∣ 2 ^ (v.exponent + (32 - v.exponent))) (sym v.power)
          (power-dvd v.exponent (32 - v.exponent)))

  -- Wrapping at 2^32 does not change the place in the ring.
  pub wrap : (x : ℕ) → x % u32 % q.size ≡ x % q.size
  wrap x = mod-mod_of_dvd q.size x size-dvd

  pub masked-mod : (x : ℕ) → masked q x ≡ x % q.size
  unfolding masked
  masked-mod x = rw v.power (bit_and-mask x v.exponent)

  -- The unreduced end of the window is the input index, up to the wrap.
  pub input-mod : (q.output + data_len q) % q.size ≡ q.input % q.size
  unfolding data_len
  input-mod =
      let e : (q.output + data_len q) % u32 ≡ q.input =
        omega (arith, v.input_word, v.output_word) in
      sym (wrap (q.output + data_len q)) ∙ ap (λ k. k % q.size) e

  pub length-contents : length (contents q) ≡ data_len q
  unfolding contents
  length-contents = length-window q.size q.buffer q.output (data_len q)

  pub room : (q.size + u32 - q.input + q.output) % u32 ≡ q.size - data_len q
  unfolding data_len
  room = omega (arith, v.input_word, v.output_word, v.within, size-le)
