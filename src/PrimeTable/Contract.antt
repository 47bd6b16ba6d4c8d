-- ===== src/PrimeTable/Contract.antt =====
-- example_shm_hashtable1.cpp: how `insert` and `remove` end, and what `find` answers then.
use uc.Prelude.{
  List, ℕ, zero, suc, ◌+◌, ◌≤◌, ◌<◌, ◌≡◌, ◌≢◌, inl, inr, Option, none, some, Bool-cases,
  Option-cases, some_inj, refl, sym, ap, ◌∙◌, arith, ◌==◌, get_elem?, get_elem?-set_self, ==→ne,
}
use uc.Probe.{Node, key_at, find_row}
use uc.PrimeTable.{candidate, Memory, done, exists, failed, first_row, find, fill, insert}
use uc.PrimeTable.Calls.{
  IsValid, each_row, find-look, look, free, look-set, free-lt, free-key, filled, filled-IsValid,
  look-filled_self, free-first, free-none,
}

module _ {ℓ} {V : Type ℓ} where
  find_row-none :
      (pos : ℕ → Option ℕ) (nodes : List (Node V)) (key n i j p : ℕ)
      → find_row pos nodes key n i ≡ none
      → ((r : ℕ) → r < i + n → (q : ℕ) × (pos r ≡ some q))
      → i ≤ j
      → j < i + n
      → pos j ≡ some p
      → key_at nodes p ≢ key
  unfolding find_row
  find_row-none pos nodes key zero i j p h all le lt e = absurd (omega arith)
  find_row-none pos nodes key (suc n) i j p h all le lt e =
      let (q, e_q) = all i (omega arith) in
      elim (Bool-cases (key_at nodes q == key)) [
        | inl here ↦
            absurd (let t : ◌≡◌ {A = Option ℕ} (some q) none = rw (find_row, e_q, here) at h in cc)
        | inr there ↦ elim (Bool-cases (i == j)) [
          | inl same ↦
              let e_p : q ≡ p =
                some_inj q p (sym e_q ∙ ap pos (let x : i ≡ j = ground arith in x) ∙ e) in
              rw (← e_p) (==→ne (key_at nodes q) key there)
          | inr apart ↦
              find_row-none pos nodes key n (i + 1) j p (rw (find_row, e_q, there) at h)
                (λ r l. all r (omega arith)) (ground arith) (omega arith) e
        ]
      ]

  module _ (max_line : ℕ) (mods : List ℕ) (lines : ℕ) where
    -- How `insert` ends.
    pub data Inserted (m : Memory V) (key : ℕ) (v : V) : Type ℓ where
      there :
          (p : ℕ)
          → find max_line mods lines m key ≡ some (some p)
          → insert max_line mods lines m key v ≡ some (exists, m)
          → Inserted m key v
      crowded :
          find max_line mods lines m key ≡ some none
          → insert max_line mods lines m key v ≡ some (failed, m)
          → ((i p : ℕ)
              → i < lines
              → candidate max_line mods lines key i ≡ some p
              → key_at m.nodes p ≢ 0)
          → Inserted m key v
      added :
          (m' : Memory V) (p : ℕ)
          → find max_line mods lines m key ≡ some none
          → insert max_line mods lines m key v ≡ some (done, m')
          → IsValid max_line mods lines m'
          → find max_line mods lines m' key ≡ some (some p)
          → get_elem? m'.nodes p ≡ some (record { key = key; value = v })
          → ((q : ℕ)
              → q ≢ 0
              → q ≢ key
              → find max_line mods lines m' q ≡ find max_line mods lines m q)
          → Inserted m key v

    -- In a valid segment, for a key that is not 0: `insert` leaves all as it is if the key is there, or if
    -- every node of the key is in use. If not, the segment stays valid, the key is found, at a node that
    -- holds the value, and what `find` answers for the other keys does not change.
    pub insert_rows_lem :
        (m : Memory V) (key : ℕ) (v : V)
        → IsValid max_line mods lines m
        → key ≢ 0
        → Inserted m key v
    unfolding insert fill
    insert_rows_lem m key v valid nz =
        let found = find-look max_line mods lines valid.rows m key in
        let place : first_row (candidate max_line mods lines key) m.nodes 0 lines 0
            ≡ some (free max_line mods lines m key) =
          free-first max_line mods lines valid.rows m key in
        elim (Option-cases (look max_line mods lines m key)) [
          | inr (p, e) ↦ let f = found ∙ ap some e in there p f (rw (f, insert) refl)
          | inl absent ↦
              let f = found ∙ ap some absent in
              elim (Option-cases (free max_line mods lines m key)) [
                | inl none_free ↦
                    crowded f (rw (f, insert, place, fill, none_free) refl) (λ i p lt e.
                      find_row-none (candidate max_line mods lines key) m.nodes 0 lines 0 i p
                        (free-none max_line mods lines m key none_free)
                        (each_row max_line mods lines valid.rows key) (omega arith) (omega arith) e)
                | inr (p, e) ↦
                    let m' = filled max_line mods lines m p key v in
                    let valid' = filled-IsValid max_line mods lines m key p v valid nz absent e in
                    let lt = free-lt max_line mods lines m key p valid e in
                    added m' p f (rw (f, insert, place, fill, e) refl) valid'
                      (find-look max_line mods lines valid.rows m' key
                        ∙ ap some
                            (look-filled_self max_line mods lines m key p v valid nz absent e))
                      (get_elem?-set_self m.nodes p (record { key = key; value = v }) lt)
                      (λ q nq other.
                        find-look max_line mods lines valid.rows m' q
                        ∙ ap some (
                            look-set max_line mods lines m _ p q _ lt
                              (λ z. nq (sym z ∙ free-key max_line mods lines m key p e))
                              (λ z. other (sym z)))
                        ∙ sym (find-look max_line mods lines valid.rows m q))
              ]
        ]
