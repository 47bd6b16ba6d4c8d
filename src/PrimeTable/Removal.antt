-- ===== src/PrimeTable/Removal.antt =====
-- example_shm_hashtable1.cpp: how `remove` ends, and what `find` answers then.
use uc.Prelude.{
  ℕ, ◌+◌, ◌-◌, ◌%◌, ◌<◌, ◌≡◌, ◌≢◌, ◌⊎◌, inl, inr, List, none, some, true, false, Bool-cases,
  Option-cases, some_inj, refl, sym, ap, ◌∙◌, arith, ◌==◌, length, set, length-set, get_elem?-some,
  ==→ne,
}
use uc.Probe.{Node, key_at}
use uc.Probe.Laws.{key_at-set_self, key_at-set_ne}
use uc.Probe.Live.{live-set_empty, live-le-length, key_at-lt}
use uc.PrimeTable.{word, Memory, find, remove}
use uc.PrimeTable.Calls.{IsValid, find-look, look, look-set, look-key, placed-look}

module _ {ℓ} {V : Type ℓ} (max_line : ℕ) (mods : List ℕ) (lines : ℕ) where
  -- The segment when the node `e` at `p` is emptied.
  abbrev emptied : Memory V → ℕ → Node V → Memory V
  emptied m p e = record {
    nodes = set m.nodes p (record e { key = 0 });
    current_size = (m.current_size + (word - 1)) % word;
  }

  module _ (m : Memory V) (key p : ℕ) (e : Node V) (valid : IsValid max_line mods lines m)
      (nz : key ≢ 0) (here : look max_line mods lines m key ≡ some p) where
    at_key : key_at m.nodes p ≡ key
    at_key = look-key max_line mods lines m key p here

    lt_length : p < length m.nodes
    lt_length = key_at-lt m.nodes p (λ z. nz (sym at_key ∙ z))

    emptied_here : key_at (emptied m p e).nodes p ≡ 0
    emptied_here = key_at-set_self m.nodes p (record e { key = 0 }) lt_length

    -- A search that does not look for the emptied key ends where it did.
    look-emptied :
        (q : ℕ)
        → q ≢ 0
        → q ≢ key
        → look max_line mods lines (emptied m p e) q ≡ look max_line mods lines m q
    look-emptied q nq other =
        look-set max_line mods lines m _ p q (record e { key = 0 }) lt_length
          (λ z. other (sym z ∙ at_key)) (λ z. nq (sym z))

    -- A node that is in use behind the removal was so before, and is another one.
    still_used :
        (r : ℕ)
        → key_at (emptied m p e).nodes r ≢ 0
        → (p ≢ r) × (key_at (emptied m p e).nodes r ≡ key_at m.nodes r) × (key_at m.nodes r ≢ key)
    still_used r used = elim (Bool-cases (p == r)) [
      | inl same ↦
          let e_r : p ≡ r = ground arith in
          absurd (used (ap (key_at (emptied m p e).nodes) (sym e_r) ∙ emptied_here))
      | inr apart ↦
          let ne = ==→ne p r apart in
          let keep = key_at-set_ne m.nodes p r (record e { key = 0 }) ne in
          (
            ne,
            keep,
            (λ z.
                let t : look max_line mods lines m key ≡ some r =
                  ap (look max_line mods lines m) (sym z)
                  ∙ placed-look max_line mods lines m valid r (λ y. used (keep ∙ y)) in
                ne (some_inj p r (sym here ∙ t))),
          )
    ]

    look-emptied_self : look max_line mods lines (emptied m p e) key ≡ none
    look-emptied_self = elim (Option-cases (look max_line mods lines (emptied m p e) key)) [
      | inl absent ↦ absent
      | inr (r, there) ↦
          let k = look-key max_line mods lines (emptied m p e) key r there in
          let (ne, keep, other) = still_used r (λ z. nz (sym k ∙ z)) in
          absurd (other (sym keep ∙ k))
    ]

    emptied-IsValid : IsValid max_line mods lines (emptied m p e)
    emptied-IsValid = record {
      rows = valid.rows;
      room = valid.room;
      width = length-set m.nodes p (record e { key = 0 }) ∙ valid.width;
      counted = omega (
        arith,
        valid.counted,
        valid.room,
        valid.width,
        live-set_empty m.nodes p (record e { key = 0 }) (λ z. nz (sym at_key ∙ z)) refl,
        live-le-length m.nodes,
      );
      placed = λ r used.
          let (ne, keep, other) = still_used r used in
          let used_k : key_at m.nodes r ≢ 0 = λ z. used (keep ∙ z) in
          find-look max_line mods lines valid.rows (emptied m p e) (key_at (emptied m p e).nodes r)
          ∙ ap some (
              ap (look max_line mods lines (emptied m p e)) keep
              ∙ look-emptied (key_at m.nodes r) used_k other
              ∙ placed-look max_line mods lines m valid r used_k);
    }

  -- In a valid segment, for a key that is not 0: `remove` leaves all as it is if the key is not there.
  -- If it is, the segment stays valid, the key is not found any more, and what `find` answers for the
  -- other keys does not change.
  pub remove_rows_lem :
      (m : Memory V) (key : ℕ)
      → IsValid max_line mods lines m
      → key ≢ 0
      → ((find max_line mods lines m key ≡ some none)
          × (remove max_line mods lines m key ≡ some (false, m)))
        ⊎ ((m' : Memory V) × (remove max_line mods lines m key ≡ some (true, m'))
            × IsValid max_line mods lines m'
            × (find max_line mods lines m' key ≡ some none)
            × ((q : ℕ)
                → q ≢ 0
                → q ≢ key
                → find max_line mods lines m' q ≡ find max_line mods lines m q))
  unfolding remove
  remove_rows_lem m key valid nz =
      let found = find-look max_line mods lines valid.rows m key in
      elim (Option-cases (look max_line mods lines m key)) [
        | inl absent ↦ let f = found ∙ ap some absent in inl (f, rw (f, remove) refl)
        | inr (p, here) ↦
            let f = found ∙ ap some here in
            let (e, at_p) = get_elem?-some m.nodes p (
              key_at-lt m.nodes p
                (λ z. nz (sym (look-key max_line mods lines m key p here) ∙ z))) in
            let m' = emptied m p e in
            inr (
              m',
              rw (f, remove, at_p) refl,
              emptied-IsValid m key p e valid nz here,
              find-look max_line mods lines valid.rows m' key
                  ∙ ap some (look-emptied_self m key p e valid nz here),
              (λ q nq other.
                  find-look max_line mods lines valid.rows m' q
                  ∙ ap some (look-emptied m key p e valid nz here q nq other)
                  ∙ sym (find-look max_line mods lines valid.rows m q)),
            )
      ]
