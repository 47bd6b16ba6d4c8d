-- ===== src/Ring/Get.antt =====
-- example_unlockqueue.cpp: `Get` on the queue of bytes.
use Prim.Native.Nat.{min}
use native.Mathlib.Nat.{mod-lt}
use native.Mathlib.Decide.{dec_lt}
use mathlib.Core.Path.{ap₂, subst}
use uc.Prelude.{
  ℕ, ◌+◌, ◌-◌, ◌%◌, ◌≡◌, refl, ap, ◌∙◌, sym, arith, List, ◌++◌, take, drop, take_all,
  take-append_left, drop-append_left,
}
use uc.Ring.{Queue, u32, data_len, get}
use uc.Ring.Copy.{wrap-mod}
use uc.Ring.Window.{window, length-window, window_congr, window-add, take-drop-window}
use uc.Ring.Fifo.{IsValid, contents, size_pos, size-le, masked-mod, wrap}

module _ (q : Queue) (v : IsValid q) (n : ℕ) where
  abbrev taken : ℕ
  taken = min n (data_len q)

  abbrev tail_room : ℕ
  tail_room = min taken (q.size - q.output % q.size)

  abbrev front : List ℕ
  front = window q.size q.buffer q.output taken

  -- The rest after the end of the buffer, if any, comes from its start.
  second_part :
      take (taken - tail_room) q.buffer
      ≡ window q.size q.buffer (q.output + tail_room) (taken - tail_room)
  unfolding window
  second_part = elim (dec_lt tail_room taken) [
    | yes more ↦
        let lt = mod-lt q.output (size_pos q v) in
        let home : (q.output + tail_room) % q.size ≡ 0 =
          wrap-mod q.output tail_room q.size (size_pos q v) (omega arith) in
        take-drop-window q.size q.buffer (q.output + tail_room) 0 (taken - tail_room) v.allocated
          (sym home) (omega (arith, v.within))
    | no whole ↦
        let none_left : 0 ≡ taken - tail_room = omega arith in
        subst (λ k. take k q.buffer ≡ window q.size q.buffer (q.output + tail_room) k) none_left
          refl
  ]

  two_parts :
      take tail_room (drop (q.output % q.size) q.buffer) ++ take (taken - tail_room) q.buffer
      ≡ front
  two_parts =
      let lt = mod-lt q.output (size_pos q v) in
      let count : tail_room + (taken - tail_room) ≡ taken = omega arith in
      ap₂ ◌++◌
        (take-drop-window q.size q.buffer q.output (q.output % q.size) tail_room v.allocated refl
          (omega arith))
        second_part
      ∙ sym (window-add q.size q.buffer q.output tail_room (taken - tail_room))
      ∙ ap (window q.size q.buffer q.output) count

  abbrev after : Queue
  after = record q { output = (q.output + taken) % u32 }

  get-after : get q n ≡ (taken, front, after)
  unfolding get
  get-after = rw (masked-mod q v q.output, two_parts) refl

  used-after : data_len after ≡ data_len q - taken
  unfolding data_len
  used-after = omega (arith, v.within, v.input_word, v.output_word, size-le q v)

  split : contents q ≡ front ++ contents after
  unfolding contents
  split =
      let count : data_len q ≡ taken + (data_len q - taken) = omega arith in
      ap (window q.size q.buffer q.output) count
      ∙ window-add q.size q.buffer q.output taken (data_len q - taken)
      ∙ ap (λ w. front ++ w)
          (window_congr q.size q.buffer (q.output + taken) ((q.output + taken) % u32)
              (data_len q - taken) (sym (wrap q v (q.output + taken)))
            ∙ ap (window q.size q.buffer ((q.output + taken) % u32)) (sym used-after))

  -- On a valid queue, `Get` returns the smaller of `nLen` and the number of bytes in the queue,
  -- stores that many bytes from its front in their order, leaves the others, and keeps it valid.
  pub get_lem :
      let (k, out, q') = get q n in
      (k ≡ min n (data_len q))
      × (out ≡ take k (contents q))
      × (contents q' ≡ drop k (contents q))
      × IsValid q'
  get_lem =
      let count = length-window q.size q.buffer q.output taken in
      rw get-after (
        refl,
        sym (
            ap (take taken) split
            ∙ take-append_left taken front (contents after) (omega (arith, count))
            ∙ take_all taken front (omega (arith, count))),
        sym (ap (drop taken) split ∙ drop-append_left taken front (contents after) count),
        record {
          exponent = v.exponent;
          power = v.power;
          narrow = v.narrow;
          allocated = v.allocated;
          input_word = v.input_word;
          output_word = omega arith;
          within = omega (arith, used-after, v.within);
        },
      )
