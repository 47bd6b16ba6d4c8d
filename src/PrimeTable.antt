-- ===== src/PrimeTable.antt =====
-- example_shm_hashtable1.cpp: `hash_shm`, a hash table of rows in a shared memory segment. The lengths
-- of the rows are primes, which the constructor computes.
--
-- `lines` and `maxLine`, the template's parameters, are arguments. The test `p*6<=sqrt(m+1)+2` is that
-- of the exact root, which the `double` has for numbers below 2 ^ 52. What the system answers to
-- `shmget` and `shmat` is an argument. A read through NULL is `none`.
pub mod Divisors
pub mod Primes
pub mod Rows
pub mod Calls
pub mod Contract
pub mod Removal
pub mod Safety
mod Tests
use uc.Prelude.{
  ℕ, zero, suc, ◌+◌, ◌-◌, ◌*◌, ◌/◌, ◌%◌, ◌^◌, List, [], ◌∷◌, ◌++◌, Option, none, some, Bool, true,
  false, not, ◌&&◌, ◌||◌, ltb, leb, ◌==◌, if◌then◌else◌, take, length, get_or, get_elem?, set,
  replicate,
}
use uc.Probe.{Node, key_at}

abbrev pub word : ℕ
word = 2 ^ 64

-- `a`, and `b`: whether `n+1` and `n-1` are tried as divisors.
unfoldable pub tries_above : ℕ → Bool
tries_above p = not (p % 10 == 4 || p % 10 == 9)

unfoldable pub tries_below : ℕ → Bool
tries_below p = not (p % 10 == 6)

-- The flag of `x` when `n+1` and `n-1` have been tried.
unfoldable pub survives : ℕ → ℕ → Bool → Bool
survives x p flag =
    flag
    && (not (tries_above p && x % (p * 6 + 1) == 0) && not (tries_below p && x % (p * 6 - 1) == 0))

-- The loop over `p`; `i` is the flag of `m-1` and `j` that of `m+1`. The limit is reached before `p` is
-- `m + 2`.
unfoldable pub test_divisors : ℕ → ℕ → ℕ → ℕ → Bool → Bool → Bool × Bool
test_divisors zero p below above i j = (i, j)
test_divisors (suc fuel) p below above i j = elim (leb ((p * 6 - 2) * (p * 6 - 2)) above) [
  | false ↦ (i, j)
  | true ↦
      let i' = survives below p i in
      let j' = survives above p j in
      elim (not i' && not j') [
        | true ↦ (i', j')
        | false ↦ test_divisors fuel (p + 1) below above i' j'
      ]
]

-- `m-1`, which wraps for `m` 0.
unfoldable pub below_of : ℕ → ℕ
below_of m = (m + (word - 1)) % word

-- The flags behind the loop for `t`.
unfoldable pub flags : ℕ → Bool × Bool
flags t =
    let m = 6 * t in
    let k = t % 10 in
    let j = not (k == 4 || k == 9 || (m + 1) % 3 == 0) in
    let i = not (k == 6 || below_of m % 3 == 0) in test_divisors (m + 2) 1 (below_of m) (m + 1) i j

-- What the round for `t` adds to `modTable`.
unfoldable pub candidates : ℕ → List ℕ
candidates t =
    let (i, j) = flags t in
    (if j then ((6 * t + 1) ∷ []) else []) ++ (if i then (below_of (6 * t) ∷ []) else [])

-- The loop over `t`, from `t - 1` down, with `z` places of `modTable` left. It does not end at 0, since
-- `t>=0` always holds, but goes on from 2 ^ 64 - 1: this is `none`.
unfoldable pub mode_loop : ℕ → ℕ → Option (List ℕ)
mode_loop t zero = some []
mode_loop zero (suc z) = none
mode_loop (suc t) (suc z) =
    let found = take (suc z) (candidates t) in
    elim (mode_loop t (suc z - length found)) [ none ↦ none | some rest ↦ some (found ++ rest) ]

-- `getMode`; `none` also if the program exits.
unfoldable pub get_mode : ℕ → ℕ → Option (List ℕ)
get_mode max_line lines = if ltb max_line 5 then none else mode_loop (max_line / 6 + 1) lines

-- `pos` of `getPos` behind its loop over the rows above `i`.
unfoldable pub row_start : List ℕ → ℕ → ℕ
row_start mods zero = 0
row_start mods (suc i) = row_start mods i + get_or mods i 0

-- `getPos`, with `maxSize` the sum over all rows.
unfoldable pub get_pos : List ℕ → ℕ → ℕ → ℕ → Option ℕ
get_pos mods lines row col =
    let pos = row_start mods row + col in if leb (row_start mods lines) pos then none else some pos

-- The node of `key` in row `i`.
unfoldable pub candidate : ℕ → List ℕ → ℕ → ℕ → ℕ → Option ℕ
candidate max_line mods lines key i =
    get_pos mods lines i ((key + max_line) % word % get_or mods i 0)

-- The nodes of the segment, and `*currentSize`, which stands behind them.
pub record Memory {ℓ} (V : Type ℓ) : Type ℓ where
  pub nodes : List (Node V)
  pub current_size : ℕ

-- What `insert` returns: 0, 1 and -1.
pub data Code : Type 0 where
  done exists failed : Code

module _ {ℓ} {V : Type ℓ} where
  -- `getShm`, where the system finds a segment or not, makes one or not, and attaches it or not.
  unfoldable pub get_shm : Bool → Bool → Option (Memory V) → Option (Memory V)
  get_shm found made attached = if found || made then attached else none

  -- The constructor with a key: `modTable` and the segment. `*currentSize` is left as it is, since an
  -- `unsigned long` is not below 0.
  unfoldable pub construct : ℕ → ℕ → Bool → Bool → Option (Memory V) → Option (List ℕ × Memory V)
  construct max_line lines found made attached = elim (get_mode max_line lines) [
    | none ↦ none
    | some mods ↦ elim (get_shm found made attached) [ none ↦ none | some m ↦ some (mods, m) ]
  ]

  -- The loops of `find` and `insert` from row `i`, with `n` rows left: where a node with the key
  -- stands first.
  unfoldable pub first_row : (ℕ → Option ℕ) → List (Node V) → ℕ → ℕ → ℕ → Option (Option ℕ)
  first_row pos nodes key zero i = some none
  first_row pos nodes key (suc n) i = elim (pos i) [
    | none ↦ none
    | some p ↦ if key_at nodes p == key then some (some p) else first_row pos nodes key n (i + 1)
  ]

  module _ (max_line : ℕ) (mods : List ℕ) (lines : ℕ) where
    -- `find`: the node is `lastFound`.
    unfoldable pub find : Memory V → ℕ → Option (Option ℕ)
    find m key = first_row (candidate max_line mods lines key) m.nodes key lines 0

    -- `remove`: false is -1. The value of the node stays; `(*currentSize)--` wraps below 0.
    unfoldable pub remove : Memory V → ℕ → Option (Bool × Memory V)
    remove m key = elim (find m key) [
      | none ↦ none
      | some found ↦ elim found [
        | none ↦ some (false, m)
        | some p ↦ some (
          true,
          record {
            nodes = elim (get_elem? m.nodes p) [
              | none ↦ m.nodes
              | some e ↦ set m.nodes p (record e { key = 0 })
            ];
            current_size = (m.current_size + (word - 1)) % word;
          },
        )
      ]
    ]

    -- The insertion loop, which looks for an empty node, and the write.
    unfoldable pub fill : Memory V → ℕ → V → Option (Code × Memory V)
    fill m key v = elim (first_row (candidate max_line mods lines key) m.nodes 0 lines 0) [
      | none ↦ none
      | some found ↦ elim found [
        | none ↦ some (failed, m)
        | some p ↦ some (
          done,
          record {
            nodes = set m.nodes p (record { key = key; value = v });
            current_size = (m.current_size + 1) % word;
          },
        )
      ]
    ]

    -- `insert`
    unfoldable pub insert : Memory V → ℕ → V → Option (Code × Memory V)
    insert m key v = elim (find m key) [
      | none ↦ none
      | some found ↦ elim found [ none ↦ fill m key v | some p ↦ some (exists, m) ]
    ]

    -- `clear`
    unfoldable pub clear : V → Memory V
    clear zero_value = record {
      nodes = replicate (row_start mods lines) (record { key = 0; value = zero_value });
      current_size = 0;
    }
