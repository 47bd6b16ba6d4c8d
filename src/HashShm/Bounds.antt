-- ===== src/HashShm/Bounds.antt =====
-- example_shm_hashtable2.cpp: where the candidates of a key lie. `getPos` allows positions up to
-- `maxSize + sizeof(hash_head)`.
use uc.Prelude.{
  ℕ, zero, suc, ◌+◌, ◌-◌, ◌*◌, ◌≤◌, ◌<◌, ◌≡◌, refl, some, Bool, true, ◌&&◌, ltb, arith, List, [],
  ◌∷◌, get_or, length,
}
use uc.HashShm.{
  primer, primer_table, primer_table_len, primer_total, max_size, hash, get_pos, candidate,
}

sizes_in_range : List ℕ → Bool
sizes_in_range [] = true
sizes_in_range (size ∷ sizes) = ltb 0 size && (ltb size 2000 && sizes_in_range sizes)

get_or-in_range :
    (sizes : List ℕ) (i : ℕ)
    → sizes_in_range sizes ≡ true
    → i < length sizes
    → (0 < get_or sizes i 0) × (get_or sizes i 0 < 2000)
unfolding sizes_in_range
get_or-in_range [] i h lt = absurd (omega arith)
get_or-in_range (size ∷ sizes) zero h lt = ground arith
get_or-in_range (size ∷ sizes) (suc i) h lt = ground (arith, get_or-in_range sizes i)

pub primer_range : (i : ℕ) → i < primer_table_len → (0 < primer i) × (primer i < 2000)
unfolding primer sizes_in_range
primer_range i h = get_or-in_range primer_table i refl h

pub max_size-primer_total : (n : ℕ) → max_size n ≡ primer_total n
unfolding max_size primer_total
max_size-primer_total zero = refl
max_size-primer_total (suc n) = omega (arith, max_size-primer_total n)

pub max_size-pred : (n : ℕ) → 0 < n → max_size n ≡ primer_total (n - 1) + primer (n - 1)
unfolding max_size
max_size-pred zero h = absurd (omega arith)
max_size-pred (suc n) h =
    let e : suc n - 1 ≡ n = omega arith in rw e (omega (arith, max_size-primer_total n))

-- The rows lie one behind the other, all inside the table.
pub primer_total-le : (i n : ℕ) → i < n → primer_total i + primer i ≤ max_size n
unfolding primer_total max_size
primer_total-le i zero h = absurd (omega arith)
primer_total-le i (suc n) h = ground (arith, max_size-primer_total n, primer_total-le i n)

pub max_size-le : (n : ℕ) → n ≤ primer_table_len → max_size n ≤ n * 2000
unfolding max_size
max_size-le zero h = omega arith
max_size-le (suc n) h = omega (arith, max_size-le n (omega arith), primer_range n (omega arith))

hash-lt : (lines key i : ℕ) → i < primer_table_len → hash lines key i < primer i
unfolding hash
hash-lt lines key i h = omega (arith, primer_range i h)

-- In every row of the table a key has a candidate node, in the part of the memory that belongs
-- to that row: after the rows above it, and before its own end and that of the table.
pub candidate_lem :
    (lines key i : ℕ)
    → lines ≤ primer_table_len
    → i < lines
    → (p : ℕ) × (candidate lines key i ≡ some p)
      × (primer_total i ≤ p)
      × (p < primer_total i + primer i)
      × (p < max_size lines)
unfolding candidate get_pos
candidate_lem lines key i few h =
    let small = hash-lt lines key i (omega arith) in
    let inside = primer_total-le i lines h in
    (primer_total i + hash lines key i, ground arith, omega arith, omega arith, omega arith)

pub candidate-lt :
    (lines key i p : ℕ)
    → lines ≤ primer_table_len
    → i < lines
    → candidate lines key i ≡ some p
    → p < max_size lines
candidate-lt lines key i p few h e =
    let (q, found, a, b, c) = candidate_lem lines key i few h in ground arith
