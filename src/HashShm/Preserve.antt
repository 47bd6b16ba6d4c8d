-- ===== src/HashShm/Preserve.antt =====
-- example_shm_hashtable2.cpp: the invariant of the segment under `Set`, `Replace` and `Remove`.
use uc.Prelude.{
  ℕ, ◌+◌, ◌-◌, ◌%◌, ◌≡◌, ◌≢◌, refl, sym, ◌∙◌, some, none, set, get_elem?, length-set, ◌==◌, inl,
  inr, Bool-cases, Option-cases, arith, ==→ne,
}
use uc.Probe.{Node, key_at, free_row, Slot, at, outside, full}
use uc.Probe.Laws.{key_at-set_self, key_at-set_ne}
use uc.Probe.Live.{live-set_empty, live-set_same, live-le-length, key_at-lt}
use uc.HashShm
use uc.HashShm.{
  Memory, word, primer_table_len, max_size, candidate, find, place, insert, replace, remove,
}
use uc.HashShm.Bounds.{max_size-le}
use uc.HashShm.Invariant.{
  IsValid, key_at-find, find-set_other, find-set_same, filled, filled-IsValid, free-ne-outside,
}

module _ {ℓ} {V : Type ℓ} (lines : ℕ) where
  -- The memory after `Remove` of the node at `p`, which holds `e`.
  abbrev pub emptied : Memory V → ℕ → Node V → Memory V
  emptied m p e = record {
    head = record (m.head) { current_size = (m.head.current_size + word - 1) % word };
    nodes = set m.nodes p (record e { key = 0 });
  }

  -- The memory after `Replace` of the value at `p`.
  abbrev pub rewritten : Memory V → ℕ → V → Memory V
  rewritten m p x = record m {
    nodes = set m.nodes p (record { key = key_at m.nodes p; value = x });
  }

  pub get_elem?-found :
      (m : Memory V) (key p : ℕ)
      → key ≢ 0
      → find lines m key ≡ some p
      → (e : Node V) × (get_elem? m.nodes p ≡ some e) × (e.key ≡ key)
  unfolding key_at
  get_elem?-found m key p nz h = elim (Option-cases (get_elem? m.nodes p)) [
    | inl out ↦ absurd (ground (arith, key_at-find lines m key p h))
    | inr (e, here) ↦ (e, here, ground (arith, key_at-find lines m key p h))
  ]

  pub emptied-IsValid :
      (m : Memory V) (key p : ℕ) (e : Node V)
      → IsValid lines m
      → key ≢ 0
      → find lines m key ≡ some p
      → IsValid lines (emptied m p e)
  emptied-IsValid m key p e v nz here =
      let e' : Node V = record e { key = 0 } in
      let held = key_at-find lines m key p here in
      let used : key_at m.nodes p ≢ 0 = omega arith in
      let lt = key_at-lt m.nodes p used in
      let fewer = live-set_empty m.nodes p e' used refl in
      record {
        few = v.few;
        width = length-set m.nodes p e' ∙ v.width;
        counted =
            omega
              (arith, v.counted, v.few, v.width, max_size-le lines v.few, live-le-length m.nodes);
        placed = λ r used'. elim (Bool-cases (p == r)) [
          | inl eq ↦ absurd (ground (arith, key_at-set_self m.nodes p e' lt))
          | inr ne ↦
              let k = key_at m.nodes r in
              let keep = key_at-set_ne m.nodes p r e' (==→ne p r ne) in
              ground
                (arith, keep, v.placed r, find-set_other lines m (emptied m p e).head p k e' lt)
        ];
      }

  pub rewritten-IsValid :
      (m : Memory V) (key p : ℕ) (x : V)
      → IsValid lines m
      → key ≢ 0
      → find lines m key ≡ some p
      → IsValid lines (rewritten m p x)
  rewritten-IsValid m key p x v nz here =
      let e' : Node V = record { key = key_at m.nodes p; value = x } in
      let held = key_at-find lines m key p here in
      let used : key_at m.nodes p ≢ 0 = omega arith in
      let lt = key_at-lt m.nodes p used in
      record {
        few = v.few;
        width = length-set m.nodes p e' ∙ v.width;
        counted = v.counted ∙ sym (live-set_same m.nodes p e' refl);
        placed = λ r used'. elim (Bool-cases (p == r)) [
          | inl eq ↦ ground (
            arith,
            key_at-set_self m.nodes p e' lt,
            v.placed p,
            find-set_same lines m p (key_at m.nodes p) e' lt refl,
          )
          | inr ne ↦
              let k = key_at m.nodes r in
              let keep = key_at-set_ne m.nodes p r e' (==→ne p r ne) in
              ground (arith, keep, v.placed r, find-set_same lines m p k e' lt refl)
        ];
      }

  -- What the insertion loop leaves: a full report with nothing changed, or the filled node.
  pub data Placed (m : Memory V) (key : ℕ) (x : V) : Type ℓ where
    no_room :
        free_row (candidate lines key) m.nodes lines 0 ≡ full
        → place lines m key x ≡ (HashShm.Code.error, m)
        → Placed m key x
    stored :
        (p : ℕ)
        → free_row (candidate lines key) m.nodes lines 0 ≡ at p
        → place lines m key x ≡ (HashShm.Code.ok, filled lines m p key x)
        → Placed m key x

  Slot-Placed :
      (m : Memory V) (key : ℕ) (x : V) (s : Slot)
      → free_row (candidate lines key) m.nodes lines 0 ≡ s
      → IsValid lines m
      → Placed m key x
  unfolding place
  Slot-Placed m key x outside e v = absurd (free-ne-outside lines m key v e)
  Slot-Placed m key x full e v = no_room e (rw (e, place))
  Slot-Placed m key x (at p) e v = stored p e (rw (e, place))

  pub place-Placed : (m : Memory V) (key : ℕ) (x : V) → IsValid lines m → Placed m key x
  place-Placed m key x v =
      Slot-Placed m key x (free_row (candidate lines key) m.nodes lines 0) refl v

  place-IsValid :
      (m : Memory V) (key : ℕ) (x : V)
      → IsValid lines m
      → key ≢ 0
      → find lines m key ≡ none
      → IsValid lines (place lines m key x).1
  place-IsValid m key x v nz absent = elim (place-Placed m key x v) [
    | no_room e r ↦ rw r v
    | stored p e r ↦ rw r (filled-IsValid lines m key p x v nz absent e)
  ]

  -- `Set` keeps the invariant, whatever it returns.
  pub insert-IsValid :
      (m : Memory V) (key : ℕ) (x : V)
      → IsValid lines m
      → key ≢ 0
      → IsValid lines (insert lines m key x).1
  unfolding insert
  insert-IsValid m key x v nz = elim (Option-cases (find lines m key)) [
    | inl absent ↦ rw (absent, insert) (place-IsValid m key x v nz absent)
    | inr (p, here) ↦ rw (here, insert) v
  ]

  -- `Replace` keeps the invariant, whatever it returns.
  pub replace-IsValid :
      (m : Memory V) (key : ℕ) (x : V)
      → IsValid lines m
      → key ≢ 0
      → IsValid lines (replace lines m key x).1
  unfolding replace
  replace-IsValid m key x v nz = elim (Option-cases (find lines m key)) [
    | inl absent ↦ rw (absent, replace) (place-IsValid m key x v nz absent)
    | inr (p, here) ↦ rw (here, replace) (rewritten-IsValid m key p x v nz here)
  ]

  pub remove-found :
      (m : Memory V) (key p : ℕ) (e : Node V)
      → find lines m key ≡ some p
      → get_elem? m.nodes p ≡ some e
      → remove lines m key ≡ (HashShm.Code.ok, emptied m p e)
  unfolding remove
  remove-found m key p e here node = rw (here, remove, node)

  -- `Remove` keeps the invariant, whatever it returns.
  pub remove-IsValid :
      (m : Memory V) (key : ℕ) → IsValid lines m → key ≢ 0 → IsValid lines (remove lines m key).1
  unfolding remove
  remove-IsValid m key v nz = elim (Option-cases (find lines m key)) [
    | inl absent ↦ rw (absent, remove) v
    | inr (p, here) ↦
        let (e, node, held) = get_elem?-found m key p nz here in
        rw (remove-found m key p e here node) (emptied-IsValid m key p e v nz here)
  ]
