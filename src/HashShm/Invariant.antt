-- ===== src/HashShm/Invariant.antt =====
-- example_shm_hashtable2.cpp: the invariant of the segment between calls. The key 0 is the mark of an
-- empty node.
use uc.Prelude.{
  ℕ, ◌+◌, ◌%◌, ◌≤◌, ◌<◌, ◌≡◌, ◌≢◌, ◌∙◌, some, none, length, set, length-set, ◌==◌, inl, inr,
  Bool-cases, arith, ==→ne,
}
use uc.Probe.{Node, key_at, free_row, at, outside, live}
use uc.Probe.Laws.{
  key_at-set_self, key_at-set_ne, find_row_congr, key_at-find_row, key_at-free_row,
  find_row-set_free, free_row_bound, free_row-ne-outside,
}
use uc.Probe.Live.{live-set_fill, live-le-length}
use uc.HashShm.{Memory, Head, word, primer_table_len, max_size, candidate, find}
use uc.HashShm.Bounds.{candidate_lem, candidate-lt, max_size-le}

module _ {ℓ} {V : Type ℓ} (lines : ℕ) where
  -- The nodes fill the table, the counter counts those in use, and every node in use is the one
  -- that a search for its key finds.
  pub record IsValid (m : Memory V) : Type ℓ where
    pub few : lines ≤ primer_table_len
    pub width : length m.nodes ≡ max_size lines
    pub counted : m.head.current_size ≡ live m.nodes
    pub placed : (p : ℕ) → key_at m.nodes p ≢ 0 → find lines m (key_at m.nodes p) ≡ some p

  pub key_at-find : (m : Memory V) (key p : ℕ) → find lines m key ≡ some p → key_at m.nodes p ≡ key
  unfolding find
  key_at-find m key p h = key_at-find_row (candidate lines key) m.nodes key lines 0 p h

  -- A search for `q` does not notice a write to a node that holds another key before and after.
  pub find-set_other :
      (m : Memory V) (h : Head) (p q : ℕ) (e : Node V)
      → p < length m.nodes
      → key_at m.nodes p ≢ q
      → e.key ≢ q
      → find lines (record { head = h; nodes = set m.nodes p e }) q ≡ find lines m q
  unfolding find
  find-set_other m h p q e lt before after =
      find_row_congr (candidate lines q) (set m.nodes p e) m.nodes q same lines 0
    where
      same : (r : ℕ) → (key_at (set m.nodes p e) r == q) ≡ (key_at m.nodes r == q)
      same r = elim (Bool-cases (p == r)) [
        | inl eq ↦ ground (arith, key_at-set_self m.nodes p e)
        | inr ne ↦ ground (arith, key_at-set_ne m.nodes p r e)
      ]

  -- A write of the key that the node already holds changes no search.
  pub find-set_same :
      (m : Memory V) (p q : ℕ) (e : Node V)
      → p < length m.nodes
      → e.key ≡ key_at m.nodes p
      → find lines (record m { nodes = set m.nodes p e }) q ≡ find lines m q
  unfolding find
  find-set_same m p q e lt keep =
      find_row_congr (candidate lines q) (set m.nodes p e) m.nodes q same lines 0
    where
      same : (r : ℕ) → (key_at (set m.nodes p e) r == q) ≡ (key_at m.nodes r == q)
      same r = elim (Bool-cases (p == r)) [
        | inl eq ↦ ground (arith, key_at-set_self m.nodes p e)
        | inr ne ↦ ground (arith, key_at-set_ne m.nodes p r e)
      ]

  live-lt-word : {m : Memory V} → IsValid m → live m.nodes < word
  live-lt-word {m} v =
      omega (arith, live-le-length m.nodes, v.few, v.width, max_size-le lines v.few)

  -- The node that `Set` and `Replace` fill.
  abbrev pub filled : Memory V → ℕ → ℕ → V → Memory V
  filled m p key x = record {
    head = record (m.head) { current_size = (m.head.current_size + 1) % word };
    nodes = set m.nodes p (record { key = key; value = x });
  }

  -- The insertion loop looks inside the table only.
  pub free-lt :
      (m : Memory V) (key p : ℕ)
      → IsValid m
      → free_row (candidate lines key) m.nodes lines 0 ≡ at p
      → p < length m.nodes
  free-lt m key p v h = rw v.width (
      free_row_bound (candidate lines key) m.nodes (max_size lines) lines 0 p
        (λ j q l. candidate-lt lines key j q v.few (omega arith)) h)

  pub free-ne-outside :
      (m : Memory V) (key : ℕ)
      → IsValid m
      → free_row (candidate lines key) m.nodes lines 0 ≢ outside
  free-ne-outside m key v =
      free_row-ne-outside (candidate lines key) m.nodes lines 0
        (λ j l. let (q, e, a, b, c) = candidate_lem lines key j v.few (omega arith) in (q, e))

  pub find-filled_self :
      (m : Memory V) (key p : ℕ) (x : V)
      → IsValid m
      → key ≢ 0
      → find lines m key ≡ none
      → free_row (candidate lines key) m.nodes lines 0 ≡ at p
      → find lines (filled m p key x) key ≡ some p
  unfolding find
  find-filled_self m key p x v nz absent free =
      find_row-set_free (candidate lines key) m.nodes (record { key = key; value = x }) lines 0 p nz
        (free-lt m key p v free) absent free

  pub filled-IsValid :
      (m : Memory V) (key p : ℕ) (x : V)
      → IsValid m
      → key ≢ 0
      → find lines m key ≡ none
      → free_row (candidate lines key) m.nodes lines 0 ≡ at p
      → IsValid (filled m p key x)
  filled-IsValid m key p x v nz absent free =
      let e : Node V = record { key = key; value = x } in
      let lt = free-lt m key p v free in
      let empty = key_at-free_row (candidate lines key) m.nodes lines 0 p free in
      let grown = live-set_fill m.nodes p e lt empty nz in
      record {
        few = v.few;
        width = length-set m.nodes p e ∙ v.width;
        counted = omega (
          arith,
          v.counted,
          v.few,
          v.width,
          max_size-le lines v.few,
          live-le-length (set m.nodes p e),
          length-set m.nodes p e,
        );
        placed = λ r used. elim (Bool-cases (p == r)) [
          | inl eq ↦
              ground
                (arith, key_at-set_self m.nodes p e lt, find-filled_self m key p x v nz absent free)
          | inr ne ↦
              let k = key_at m.nodes r in
              let keep = key_at-set_ne m.nodes p r e (==→ne p r ne) in
              ground (arith, keep, v.placed r, find-set_other m (filled m p key x).head p k e lt)
        ];
      }
