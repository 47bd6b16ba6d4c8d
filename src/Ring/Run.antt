-- ===== src/Ring/Run.antt =====
-- example_unlockqueue.cpp: any sequence of calls on an `UnlockQueue`, against a bounded queue that
-- is a list.
use Prim.Native.Nat.{min}
use uc.Prelude.{
  ℕ, ◌-◌, ◌^◌, ◌<◌, ◌≡◌, refl, ap, ◌∙◌, sym, arith, List, [], ◌∷◌, ◌++◌, length, take, drop,
}
use uc.Ring.{Queue, data_len, put, get, clean, construct, initialize}
use uc.Ring.Round.{construct-IsRounded}
use uc.Ring.Window.{window}
use uc.Ring.Fifo.{IsValid, contents, length-contents}
use uc.Ring.Put.{put_lem}
use uc.Ring.Get.{get_lem}

pub data Op : Type 0 where
  put_op : List ℕ → Op
  get_op : ℕ → Op
  len_op : Op
  clean_op : Op

-- What a call returns, and the bytes that it stores.
abbrev pub Reply : Type 0
Reply = ℕ × List ℕ

-- The calls in their order, each with what it returns.
unfoldable pub run : Queue → List Op → List Reply
run q [] = []
run q (put_op bytes ∷ ops) = let (k, q') = put q bytes (length bytes) in (k, []) ∷ run q' ops
run q (get_op n ∷ ops) = let (k, out, q') = get q n in (k, out) ∷ run q' ops
run q (len_op ∷ ops) = (data_len q, []) ∷ run q ops
run q (clean_op ∷ ops) = (0, []) ∷ run (clean q) ops

-- The same calls on a list that holds at most `size` bytes.
unfoldable pub run_list : ℕ → List ℕ → List Op → List Reply
run_list size held [] = []
run_list size held (put_op bytes ∷ ops) =
    let k = min (length bytes) (size - length held) in
    (k, []) ∷ run_list size (held ++ take k bytes) ops
run_list size held (get_op n ∷ ops) =
    let k = min n (length held) in (k, take k held) ∷ run_list size (drop k held) ops
run_list size held (len_op ∷ ops) = (length held, []) ∷ run_list size held ops
run_list size held (clean_op ∷ ops) = (0, []) ∷ run_list size [] ops

clean-IsValid : (q : Queue) → IsValid q → IsValid (clean q) × (contents (clean q) ≡ [])
unfolding clean contents data_len window
clean-IsValid q v = (
  record {
    exponent = v.exponent;
    power = v.power;
    narrow = v.narrow;
    allocated = v.allocated;
    input_word = omega arith;
    output_word = omega arith;
    within = omega arith;
  },
  refl,
)

size-put : (q : Queue) (bytes : List ℕ) (n : ℕ) → (put q bytes n).1.size ≡ q.size
unfolding put
size-put q bytes n = refl

size-get : (q : Queue) (n : ℕ) → (get q n).2.size ≡ q.size
unfolding get
size-get q n = refl

size-clean : (q : Queue) → (clean q).size ≡ q.size
unfolding clean
size-clean q = refl

-- From a valid queue, every sequence of `Put` (of a whole buffer), `Get`, `GetDataLen` and `Clean`
-- returns what it returns on the list of the bytes in the queue, bounded by the size.
pub run-run_list :
    (ops : List Op) (q : Queue) → IsValid q → run q ops ≡ run_list q.size (contents q) ops
unfolding run run_list
run-run_list [] q v = refl
run-run_list (put_op bytes ∷ ops) q v =
    let (count, held, v') = put_lem q v bytes (length bytes) (omega arith) in
    let k = count ∙ ap (λ l. min (length bytes) (q.size - l)) (sym (length-contents q v)) in
    rw (run-run_list ops (put q bytes (length bytes)).1 v', size-put, held, k) refl
run-run_list (get_op n ∷ ops) q v =
    let (count, out, held, v') = get_lem q v n in
    let k = count ∙ ap (min n) (sym (length-contents q v)) in
    rw (run-run_list ops (get q n).2 v', size-get, held, out, k) refl
run-run_list (len_op ∷ ops) q v = rw (run-run_list ops q v, length-contents q v) refl
run-run_list (clean_op ∷ ops) q v =
    let (v', held) = clean-IsValid q v in
    ap (λ r. (0, []) ∷ r)
      (run-run_list ops (clean q) v'
        ∙ ap (λ h. run_list (clean q).size h ops) held
        ∙ ap (λ s. run_list s [] ops) (size-clean q))

-- A queue that is constructed for a size from 1 to 2^31 - 1 and then initialized, with any bytes
-- in the new buffer, is valid and empty.
pub initialize-IsValid :
    (n : ℕ) (fill : ℕ → List ℕ)
    → 0 < n
    → n < 2 ^ 31
    → ((size : ℕ) → length (fill size) ≡ size)
    → IsValid (initialize fill (construct n)) × (contents (initialize fill (construct n)) ≡ [])
unfolding initialize contents data_len window
initialize-IsValid n fill pos lt filled =
    let (r, i, o) = construct-IsRounded n pos lt in
    (
      record {
        exponent = r.exponent;
        power = r.power;
        narrow = r.narrow;
        allocated = filled (construct n).size;
        input_word = omega arith;
        output_word = omega arith;
        within = omega arith;
      },
      refl,
    )
