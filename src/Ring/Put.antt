-- ===== src/Ring/Put.antt =====
-- example_unlockqueue.cpp: `Put` on the queue of bytes.
use Prim.Native.Nat.{min}
use mathlib.Core.Path.{ap₂}
use uc.Prelude.{
  ℕ, zero, suc, ◌+◌, ◌-◌, ◌%◌, ◌≤◌, ◌≡◌, refl, ap, ◌∙◌, sym, arith, List, [], ◌∷◌, ◌++◌, length,
  take, drop, length-take,
}
use uc.Ring.{Queue, u32, data_len, copy, put}
use uc.Ring.Copy.{ring_write, ring_write_congr, length-ring_write, copy_twice}
use uc.Ring.Window.{window, window-ring_write}
use uc.Ring.Fifo.{IsValid, contents, size_pos, size-le, masked-mod, input-mod, room}

take-take : (l n : ℕ) (xs : List ℕ) → l ≤ n → take l (take n xs) ≡ take l xs
take-take zero n xs h = refl
take-take (suc l) zero xs h = absurd (omega arith)
take-take (suc l) (suc n) [] h = refl
take-take (suc l) (suc n) (x ∷ xs) h = ap (λ t. x ∷ t) (take-take l n xs (omega arith))

nil-take : (n : ℕ) → [] ≡ take {A = ℕ} n []
nil-take zero = refl
nil-take (suc n) = refl

drop-take : (l n : ℕ) (xs : List ℕ) → drop l (take n xs) ≡ take (n - l) (drop l xs)
drop-take zero n xs = let e : n ≡ n - 0 = omega arith in ap (λ k. take k xs) e
drop-take (suc l) zero xs =
    let e : 0 ≡ 0 - suc l = omega arith in ap (λ k. take k (drop (suc l) xs)) e
drop-take (suc l) (suc n) [] = nil-take (suc n - suc l)
drop-take (suc l) (suc n) (x ∷ xs) =
    let e : n - l ≡ suc n - suc l = omega arith in drop-take l n xs ∙ ap (λ k. take k (drop l xs)) e

module _ (q : Queue) (v : IsValid q) (bytes : List ℕ) (n : ℕ) (supplied : n ≤ length bytes) where
  -- How many bytes are taken, and which.
  abbrev taken : ℕ
  taken = min n (q.size - data_len q)

  abbrev written : List ℕ
  written = ring_write q.size q.buffer q.input (take taken bytes)

  two_copies :
      let l = min taken (q.size - q.input % q.size) in
      copy (copy q.buffer (q.input % q.size) (take l bytes)) 0 (take (taken - l) (drop l bytes))
      ≡ written
  two_copies =
      let l = min taken (q.size - q.input % q.size) in
      let xs = take taken bytes in
      let count : length xs ≡ taken = omega (arith, length-take taken bytes) in
      ap₂ (λ a b. copy (copy q.buffer (q.input % q.size) a) 0 b)
        (sym (take-take l taken bytes (omega arith))) (sym (drop-take l taken bytes))
      ∙ ap
          (λ k.
            copy (copy q.buffer (q.input % q.size) (take (min k (q.size - q.input % q.size)) xs)) 0
              (drop (min k (q.size - q.input % q.size)) xs))
          (sym count)
      ∙ copy_twice q.size q.buffer q.input xs (size_pos q v) (omega (arith, count))

  abbrev after : Queue
  after = record q { buffer = written; input = (q.input + taken) % u32 }

  put-after : put q bytes n ≡ (taken, after)
  unfolding put
  put-after = rw (room q v, masked-mod q v q.input, two_copies) refl

  used-after : data_len after ≡ data_len q + taken
  unfolding data_len
  used-after = omega (arith, v.within, v.input_word, v.output_word, size-le q v)

  contents-after : contents after ≡ contents q ++ take taken bytes
  unfolding contents
  contents-after =
      let xs = take taken bytes in
      let count : length xs ≡ taken = omega (arith, length-take taken bytes) in
      let place : q.input % q.size ≡ (q.output + data_len q) % q.size = sym (input-mod q v) in
      ap (window q.size written q.output) (used-after ∙ ap (λ k. data_len q + k) (sym count))
      ∙ ap (λ b. window q.size b q.output (data_len q + length xs))
          (ring_write_congr q.size q.buffer q.input (q.output + data_len q) xs place)
      ∙ window-ring_write q.size q.buffer q.output (data_len q) (q.output + data_len q) xs
          v.allocated (omega (arith, count, v.within)) refl

  -- On a valid queue, with `nLen` bytes in the buffer given, `Put` returns the smaller of `nLen`
  -- and the free room, the queue then holds that many of the bytes behind what it held, in their
  -- order, and it is valid again.
  pub put_lem :
      let (k, q') = put q bytes n in
      (k ≡ min n (q.size - data_len q)) × (contents q' ≡ contents q ++ take k bytes) × IsValid q'
  put_lem = rw put-after (
    refl,
    contents-after,
    record {
      exponent = v.exponent;
      power = v.power;
      narrow = v.narrow;
      allocated = length-ring_write q.size q.buffer q.input (take taken bytes) ∙ v.allocated;
      input_word = omega arith;
      output_word = v.output_word;
      within = omega (arith, used-after, v.within);
    },
  )
