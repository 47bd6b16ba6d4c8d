-- ===== src/HashShm.antt =====
-- example_shm_hashtable2.cpp: `CHashShm`, a hash table of a fixed number of rows ("lines") in a
-- shared memory segment. Row `i` has `PRIMER_TABLE[i]` nodes, and a key has one candidate node in
-- each row.
--
-- The template parameter `lines` and the all-zero value of `valueType` (what `memset` writes) are
-- section parameters. `unsigned long` is a number below 2 ^ 64. The segment is its head and the
-- list of its nodes. `find` returns what it would leave in `lastFound`: its callers read that
-- field at once and nothing else does.
pub mod Time33
pub mod TimeLaws
pub mod Text
pub mod Bounds
pub mod Invariant
pub mod Preserve
pub mod Map
pub mod Contract
pub mod Segment
pub mod Visit
pub mod Faults
mod Tests
use Prim.Native.Nat.{bit_or, bit_and}
use uc.Prelude.{
  ℕ, zero, suc, ◌+◌, ◌-◌, ◌*◌, ◌%◌, ◌^◌, List, [], ◌∷◌, Option, none, some, get_elem?, get_or, set,
  replicate, Bool, true, false, ◌==◌, ltb, leb, if◌then◌else◌, length, map,
}
use uc.Probe.{Node, key_at, find_row, free_row, Slot, at, outside, full}

abbrev pub word : ℕ
word = 2 ^ 64

-- `HASH_RETURN_CODE`
pub data Code : Type 0 where
  ok key_exist error not_found insert_error out_of_mem update_error : Code

-- `FACTOR`, and `sizeof(hash_head)`: four `unsigned long`.
abbrev pub factor : ℕ
factor = 5381

abbrev pub head_bytes : ℕ
head_bytes = 32

abbrev pub primer_table : List ℕ
primer_table =
    1511 ∷ 1523 ∷ 1531 ∷ 1543 ∷ 1549 ∷ 1553 ∷ 1559 ∷ 1567 ∷ 1571 ∷ 1579 ∷ 1583 ∷ 1597 ∷ 1601 ∷ 1607
    ∷ 1609 ∷ 1613 ∷ 1619 ∷ 1621 ∷ 1627 ∷ 1637 ∷ 1657 ∷ 1663 ∷ 1667 ∷ 1669 ∷ 1693 ∷ 1697 ∷ 1699
    ∷ 1709 ∷ 1721 ∷ 1723 ∷ 1733 ∷ 1741 ∷ 1747 ∷ 1753 ∷ 1759 ∷ 1777 ∷ 1783 ∷ 1787 ∷ 1789 ∷ 1801
    ∷ 1811 ∷ 1823 ∷ 1831 ∷ 1847 ∷ 1861 ∷ 1867 ∷ 1871 ∷ 1873 ∷ 1877 ∷ 1879 ∷ 1889 ∷ 1901 ∷ 1907
    ∷ 1913 ∷ 1931 ∷ 1933 ∷ 1949 ∷ 1951 ∷ 1973 ∷ 1979 ∷ 1987 ∷ 1993 ∷ 1997 ∷ 1999 ∷ []

-- `PRIMER_TABLE_LEN`
abbrev pub primer_table_len : ℕ
primer_table_len = 64

-- `PRIMER_TABLE[i]`
unfoldable pub primer : ℕ → ℕ
primer i = get_or primer_table i 0

-- `PRIMER_TABLE_TATAL[i]`, as the loop of `Init` fills it.
unfoldable pub primer_total : ℕ → ℕ
primer_total zero = 0
primer_total (suc i) = primer_total i + primer i

-- `maxSize` after `n` rounds of the loop of `Init`.
unfoldable pub max_size : ℕ → ℕ
max_size zero = 0
max_size (suc n) = max_size n + primer n

-- `hash_head`
pub record Head : Type 0 where
  pub current_size : ℕ
  pub status : ℕ

-- The shared memory segment.
pub record Memory {ℓ} (V : Type ℓ) : Type ℓ where
  pub head : Head
  pub nodes : List (Node V)

-- The object. `mem` is unset before a successful `Init`.
pub record Table {ℓ} (V : Type ℓ) : Type ℓ where
  pub mem : Memory V
  pub init_ok : Bool
  pub flag : ℕ

-- What the system answers in `getShm`: the segment that exists under the key, whether a new one
-- can be made, and whether it can be attached.
pub record Shm {ℓ} (V : Type ℓ) : Type ℓ where
  pub existing : Option (Memory V)
  pub can_create : Bool
  pub can_attach : Bool

-- `_key + lines * FACTOR`, reduced to a row of `PRIMER_TABLE[i]` nodes.
unfoldable pub hash : ℕ → ℕ → ℕ → ℕ
hash lines key i = (key + lines * factor) % word % primer i

-- `getPos`: NULL past `maxSize + sizeof(hash_head)`.
unfoldable pub get_pos : ℕ → ℕ → ℕ → Option ℕ
get_pos lines row col =
    let pos = primer_total row + col in
    if leb (max_size lines + head_bytes) pos then none else some pos

-- The candidate of `key` in row `i`.
unfoldable pub candidate : ℕ → ℕ → ℕ → Option ℕ
candidate lines key i = get_pos lines i (hash lines key i)

abbrev empty_head : Head
empty_head = record { current_size = 0; status = 0 }

module _ {ℓ} {V : Type ℓ} (lines : ℕ) (zero_value : V) where
  abbrev pub empty_node : Node V
  empty_node = record { key = 0; value = zero_value }

  -- `memset(mem, 0, memSize)`
  unfoldable pub zeroed : Memory V
  zeroed = record { head = empty_head; nodes = replicate (max_size lines) empty_node }

  -- `none` stands for `false`. A segment that cannot be attached is reported after the `memset`
  -- of the new one, which the process then does not survive; it is `none` here too.
  unfoldable pub get_shm : Shm V → Option (Memory V)
  get_shm shm = elim shm.existing [
    | none ↦ if shm.can_create then if shm.can_attach then some zeroed else none else none
    | some m ↦ if shm.can_attach then some m else none
  ]

  -- `Init`; HASH_STATUS_NORMAL is 1, and HASH_ENABLE_NONE is 0.
  unfoldable pub init : Shm V → Table V → Bool × Table V
  init shm t = if ltb primer_table_len lines then (false, t) else elim (get_shm shm) [
    | none ↦ (false, record t { init_ok = false })
    | some m ↦ (
      true,
      record {
        mem = record m { head = record { current_size = 0; status = 1 } };
        init_ok = true;
        flag = 0;
      },
    )
  ]

module _ {ℓ} {V : Type ℓ} (lines : ℕ) where
  -- `find`; HASHSHM_NOTFOUND is `none`, and otherwise the node is `lastFound`.
  unfoldable pub find : Memory V → ℕ → Option ℕ
  find m key = find_row (candidate lines key) m.nodes key lines 0

  -- The insertion loop, once in `Set` and once more in `Replace`.
  unfoldable pub place : Memory V → ℕ → V → Code × Memory V
  place m key v = elim (free_row (candidate lines key) m.nodes lines 0) [
    | outside ↦ (out_of_mem, m)
    | full ↦ (error, m)
    | at p ↦ (
      ok,
      record {
        head = record (m.head) { current_size = (m.head.current_size + 1) % word };
        nodes = set m.nodes p (record { key = key; value = v });
      },
    )
  ]

  -- `Set`
  unfoldable pub insert : Memory V → ℕ → V → Code × Memory V
  insert m key v = elim (find m key) [ some p ↦ (key_exist, m) | none ↦ place m key v ]

  -- `Get`: the value that is stored through `_value`, which is left alone on HASHSHM_NOTFOUND.
  unfoldable pub get : Memory V → ℕ → Code × Option V
  get m key = elim (find m key) [
    | none ↦ (not_found, none)
    | some p ↦ (ok, elim (get_elem? m.nodes p) [ none ↦ none | some e ↦ some e.value ])
  ]

  -- `Replace`
  unfoldable pub replace : Memory V → ℕ → V → Code × Memory V
  replace m key v = elim (find m key) [
    | some p ↦
        (ok, record m { nodes = set m.nodes p (record { key = key_at m.nodes p; value = v }) })
    | none ↦ place m key v
  ]

  -- `Remove`. The value of the node stays; `currentSize--` wraps below 0.
  unfoldable pub remove : Memory V → ℕ → Code × Memory V
  remove m key = elim (find m key) [
    | none ↦ (not_found, m)
    | some p ↦ (
      ok,
      record {
        head = record (m.head) { current_size = (m.head.current_size + word - 1) % word };
        nodes = elim (get_elem? m.nodes p) [
          | none ↦ m.nodes
          | some e ↦ set m.nodes p (record e { key = 0 })
        ];
      },
    )
  ]

-- The loop of `GetBucketUseSize` from `i`, with `n` rounds left. `pNode` does not move.
unfoldable pub count_rounds {ℓ} : {V : Type ℓ} → Memory V → ℕ → ℕ → ℕ → ℕ
count_rounds m p zero sum = sum
count_rounds m p (suc n) sum = count_rounds m p n (if key_at m.nodes p == 0 then sum else sum + 1)

module _ {ℓ} {V : Type ℓ} (lines : ℕ) where
  -- `Clear`
  unfoldable pub clear : V → Memory V
  clear zero_value =
      let m = zeroed lines zero_value in record m { head = record (m.head) { current_size = 0 } }

  -- `GetBucketUseSize`
  unfoldable pub bucket_use_size : Memory V → ℕ → ℕ
  unfolding count_rounds
  bucket_use_size m index = if leb lines index then 0 else count_rounds m index (primer index) 0

-- The loop of `Foreach` over `n` nodes. The callback gets the key, the value, which it may write,
-- and what `param_in` points to, which it may change.
module _ {ℓ κ} {V : Type ℓ} {P : Type κ} (callback : ℕ → V → P → V × P) where
  unfoldable pub visit : ℕ → List (Node V) → P → List (Node V) × P
  visit zero nodes s = (nodes, s)
  visit (suc n) [] s = ([], s)
  visit (suc n) (e ∷ es) s =
      let (x, s') = callback e.key e.value s in
      let used = visit n es s' in
      let unused = visit n es s in
      if e.key == 0
      then (e ∷ unused.0, unused.1)
      else (record { key = e.key; value = x } ∷ used.0, used.1)

  -- `Foreach`: the end is `PRIMER_TABLE[lines-1] + PRIMER_TABLE_TATAL[lines-1]` nodes on.
  unfoldable pub foreach : ℕ → Memory V → P → Memory V × P
  unfolding visit
  foreach lines m s =
      let (nodes, s') = visit (primer (lines - 1) + primer_total (lines - 1)) m.nodes s in
      (record m { nodes = nodes }, s')

-- `SetBehavior` and `UnsetBehavior`, with what they return.
unfoldable pub set_behavior {ℓ} : {V : Type ℓ} → Table V → ℕ → Table V × ℕ
set_behavior t iflag = let f = bit_or t.flag iflag in (record t { flag = f }, f)

-- `flag &= ~iflag` on 32 bits.
unfoldable pub unset_behavior {ℓ} : {V : Type ℓ} → Table V → ℕ → Table V × ℕ
unset_behavior t iflag = let f = bit_and t.flag (2 ^ 32 - 1 - iflag) in (record t { flag = f }, f)
