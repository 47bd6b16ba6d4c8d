-- ===== src/HashShm/Map.antt =====
-- example_shm_hashtable2.cpp: the table as a map from the keys other than 0. Each operation is
-- described by what `Get` answers afterwards.
use uc.Prelude.{
  ℕ, ◌≡◌, ◌≢◌, refl, sym, ◌∙◌, some, none, get_elem?, ◌==◌, inl, inr, Bool-cases, Option-cases,
  arith, get_elem?-set_self, get_elem?-set_ne, ==→eq, if◌then◌else◌,
}
use uc.Probe.{Node, key_at, free_row, at}
use uc.Probe.Laws.{key_at-set_self, key_at-set_ne, key_at-free_row}
use uc.Probe.Live.{key_at-lt}
use uc.HashShm.{Memory, ok, not_found, candidate, find, get}
use uc.HashShm.Invariant.{
  IsValid, key_at-find, find-set_other, find-set_same, filled, find-filled_self, free-lt,
}
use uc.HashShm.Preserve.{emptied, rewritten, get_elem?-found}

module _ {ℓ} {V : Type ℓ} (lines : ℕ) where
  pub get-absent :
      (m : Memory V) (q : ℕ) → find lines m q ≡ none → get lines m q ≡ (not_found, none)
  unfolding get
  get-absent m q e = rw (e, get)

  pub get-found :
      (m : Memory V) (q p : ℕ) (e : Node V)
      → find lines m q ≡ some p
      → get_elem? m.nodes p ≡ some e
      → get lines m q ≡ (ok, some e.value)
  unfolding get
  get-found m q p e here node = rw (here, get, node)

  -- Two memories in which a search for `q` ends at one place, with one node there.
  get_congr :
      (a b : Memory V) (q : ℕ)
      → q ≢ 0
      → find lines a q ≡ find lines b q
      → ((p : ℕ) → find lines b q ≡ some p → get_elem? a.nodes p ≡ get_elem? b.nodes p)
      → get lines a q ≡ get lines b q
  get_congr a b q nz same node = elim (Option-cases (find lines b q)) [
    | inl absent ↦ get-absent a q (same ∙ absent) ∙ sym (get-absent b q absent)
    | inr (p, here) ↦
        let (e, at_p, held) = get_elem?-found lines b q p nz here in
        get-found a q p e (same ∙ here) (node p here ∙ at_p) ∙ sym (get-found b q p e here at_p)
  ]

  pub get-filled :
      (m : Memory V) (key p q : ℕ) (x : V)
      → IsValid lines m
      → key ≢ 0
      → q ≢ 0
      → find lines m key ≡ none
      → free_row (candidate lines key) m.nodes lines 0 ≡ at p
      → get lines (filled lines m p key x) q ≡ (if q == key then (ok, some x) else get lines m q)
  get-filled m key p q x v nz nq absent free =
      let e : Node V = record { key = key; value = x } in
      let lt = free-lt lines m key p v free in
      let empty = key_at-free_row (candidate lines key) m.nodes lines 0 p free in
      elim (Bool-cases (q == key)) [
        | inl same ↦
            rw (same, ==→eq q key same)
              (get-found (filled lines m p key x) key p e
                (find-filled_self lines m key p x v nz absent free)
                (get_elem?-set_self m.nodes p e lt))
        | inr other ↦ rw other (
            get_congr (filled lines m p key x) m q nq
              (find-set_other lines m _ p q e lt (ground arith) (ground arith))
              (λ r here.
                get_elem?-set_ne m.nodes p r e (ground (arith, key_at-find lines m q r here))))
      ]

  pub get-rewritten :
      (m : Memory V) (key p q : ℕ) (x : V)
      → IsValid lines m
      → key ≢ 0
      → q ≢ 0
      → find lines m key ≡ some p
      → get lines (rewritten lines m p x) q ≡ (if q == key then (ok, some x) else get lines m q)
  get-rewritten m key p q x v nz nq here =
      let e : Node V = record { key = key_at m.nodes p; value = x } in
      let held = key_at-find lines m key p here in
      let lt = key_at-lt m.nodes p (omega arith) in
      let same_find = find-set_same lines m p q e lt refl in
      elim (Bool-cases (q == key)) [
        | inl same ↦ rw (same) (
            get-found (rewritten lines m p x) q p e (same_find ∙ ground arith)
              (get_elem?-set_self m.nodes p e lt))
        | inr other ↦ rw other (
            get_congr (rewritten lines m p x) m q nq same_find (λ r found.
              get_elem?-set_ne m.nodes p r e (ground (arith, key_at-find lines m q r found))))
      ]

  find-emptied :
      (m : Memory V) (key p : ℕ) (e : Node V)
      → IsValid lines m
      → key ≢ 0
      → find lines m key ≡ some p
      → find lines (emptied lines m p e) key ≡ none
  find-emptied m key p e v nz here =
      let e' : Node V = record e { key = 0 } in
      let m' = emptied lines m p e in
      let held = key_at-find lines m key p here in
      let lt = key_at-lt m.nodes p (omega arith) in
      elim (Option-cases (find lines m' key)) [
        | inl absent ↦ absent
        | inr (r, again) ↦
            let held' = key_at-find lines m' key r again in
            absurd (elim (Bool-cases (p == r)) [
              | inl eq ↦ ground (arith, key_at-set_self m.nodes p e' lt)
              | inr ne ↦ ground (arith, key_at-set_ne m.nodes p r e', v.placed r)
            ])
      ]

  pub get-emptied :
      (m : Memory V) (key p q : ℕ) (e : Node V)
      → IsValid lines m
      → key ≢ 0
      → q ≢ 0
      → find lines m key ≡ some p
      → get lines (emptied lines m p e) q ≡ (if q == key then (not_found, none) else get lines m q)
  get-emptied m key p q e v nz nq here =
      let e' : Node V = record e { key = 0 } in
      let held = key_at-find lines m key p here in
      let lt = key_at-lt m.nodes p (omega arith) in
      elim (Bool-cases (q == key)) [
        | inl same ↦
            rw (same, ==→eq q key same)
              (get-absent (emptied lines m p e) key (find-emptied m key p e v nz here))
        | inr other ↦ rw other (
            get_congr (emptied lines m p e) m q nq
              (find-set_other lines m _ p q e' lt (ground arith) (omega arith))
              (λ r found.
                get_elem?-set_ne m.nodes p r e' (ground (arith, key_at-find lines m q r found))))
      ]
