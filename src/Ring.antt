-- ===== src/Ring.antt =====
-- example_unlockqueue.cpp: `UnlockQueue`, a byte queue in a ring whose size is a power of two,
-- with indices that run through all of `unsigned int` and are reduced by a mask.
--
-- A byte is a number that is only moved. `unsigned int` is a number below 2 ^ 32 and
-- `unsigned long` one below 2 ^ 64. The memory barriers order the steps for another thread; one
-- call at a time needs none. `m_pBuffer` is the list of its bytes, and `new` does not fail.
pub mod Mask
pub mod Round
pub mod Copy
pub mod Window
pub mod Fifo
pub mod Put
pub mod Get
pub mod Run
mod Tests
use Prim.Native.Nat.{bit_and, min}
use uc.Prelude.{
  ℕ, zero, suc, ◌+◌, ◌-◌, ◌*◌, ◌/◌, ◌%◌, ◌^◌, List, [], ◌∷◌, ◌++◌, Bool, true, false, ◌&&◌, not,
  ◌==◌, if◌then◌else◌, set, take, drop, replicate,
}

abbrev pub u32 : ℕ
u32 = 2 ^ 32

abbrev pub u64 : ℕ
u64 = 2 ^ 64

pub record Queue : Type 0 where
  pub buffer : List ℕ
  pub size : ℕ
  pub input : ℕ
  pub output : ℕ

-- `n != 0 && (n & (n - 1)) == 0`
unfoldable pub is_power_of_2 : ℕ → Bool
is_power_of_2 n = not (n == 0) && (bit_and n ((n + u64 - 1) % u64) == 0)

-- The loop of `roundup_power_of_two`, `andv = andv>>1` until it meets a bit of `val`.
unfoldable pub shift_down : ℕ → ℕ → ℕ → ℕ
shift_down zero val andv = andv
shift_down (suc f) val andv = elim (bit_and andv val == 0) [
  | true ↦ shift_down f val (andv / 2)
  | false ↦ andv
]

-- `andv` starts as the highest bit; 64 shifts are enough for a `val` other than 0.
unfoldable pub roundup_power_of_two : ℕ → ℕ
roundup_power_of_two val =
    if bit_and val ((val + u64 - 1) % u64) == 0 then val else shift_down 64 val (2 ^ 63) * 2 % u64

-- The constructor; `m_pBuffer` is NULL.
unfoldable pub construct : ℕ → Queue
construct n = record {
  buffer = [];
  size = if is_power_of_2 n then n else roundup_power_of_two n % u32;
  input = 0;
  output = 0;
}

-- `Initialize`; the bytes of the new buffer are whatever `fill` says.
unfoldable pub initialize : (ℕ → List ℕ) → Queue → Queue
initialize fill q = record q { buffer = fill q.size; input = 0; output = 0 }

-- `Clean`
unfoldable pub clean : Queue → Queue
clean q = record q { input = 0; output = 0 }

-- `GetDataLen`: `m_nIn - m_nOut`, which wraps.
unfoldable pub data_len : Queue → ℕ
data_len q = (q.input + u32 - q.output) % u32

-- `memcpy(buffer + at, xs, length xs)`
unfoldable pub copy : List ℕ → ℕ → List ℕ → List ℕ
copy buffer at [] = buffer
copy buffer at (x ∷ xs) = copy (set buffer at x) (at + 1) xs

-- `i & (m_nSize - 1)`
unfoldable pub masked : Queue → ℕ → ℕ
masked q i = bit_and i (q.size - 1)

-- `Put`: what it returns, and the queue.
unfoldable pub put : Queue → List ℕ → ℕ → ℕ × Queue
put q bytes n =
    let len = min n ((q.size + u32 - q.input + q.output) % u32) in
    let l = min len (q.size - masked q q.input) in
    let first = copy q.buffer (masked q q.input) (take l bytes) in
    let second = copy first 0 (take (len - l) (drop l bytes)) in
    (len, record q { buffer = second; input = (q.input + len) % u32 })

-- `Get`: what it returns, the bytes that it stores, and the queue.
unfoldable pub get : Queue → ℕ → ℕ × List ℕ × Queue
get q n =
    let len = min n (data_len q) in
    let l = min len (q.size - masked q q.output) in
    let first = take l (drop (masked q q.output) q.buffer) in
    let second = take (len - l) q.buffer in
    (len, first ++ second, record q { output = (q.output + len) % u32 })
