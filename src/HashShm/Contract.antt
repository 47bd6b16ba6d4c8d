-- ===== src/HashShm/Contract.antt =====
-- example_shm_hashtable2.cpp: what `Set`, `Replace` and `Remove` return and what `Get` answers
-- afterwards, for the keys other than 0.
use uc.Prelude.{
  ℕ, ◌<◌, ◌≡◌, ◌≢◌, refl, some, none, ap, ◌==◌, inl, inr, Option-cases, arith, if◌then◌else◌,
}
use uc.Probe.{key_at, free_row, full}
use uc.Probe.Laws.{free_row-full}
use uc.HashShm.{
  Memory, Code, ok, key_exist, error, not_found, candidate, find, insert, get, replace, remove,
}
use uc.HashShm.Bounds.{candidate_lem}
use uc.HashShm.Invariant.{IsValid}
use uc.HashShm.Preserve.{get_elem?-found, remove-found, place-Placed, no_room, stored}
use uc.HashShm.Map.{get-absent, get-found, get-filled, get-rewritten, get-emptied}

module _ {ℓ} {V : Type ℓ} (lines : ℕ) where
  -- Every candidate node of `key` is in use.
  abbrev pub IsCrowded : Memory V → ℕ → Type 0
  IsCrowded m key =
      (i : ℕ) → i < lines → (p : ℕ) × (candidate lines key i ≡ some p) × (key_at m.nodes p ≢ 0)

  -- How a call that must not overwrite ends, with `q` any key that is asked for afterwards.
  pub data Inserted (m : Memory V) (key q : ℕ) (x : V) (r : Code × Memory V) : Type ℓ where
    present : (get lines m key).0 ≡ ok → r ≡ (key_exist, m) → Inserted m key q x r
    added :
        get lines m key ≡ (not_found, none)
        → r.0 ≡ ok
        → get lines r.1 q ≡ (if q == key then (ok, some x) else get lines m q)
        → Inserted m key q x r
    crowded :
        get lines m key ≡ (not_found, none)
        → r ≡ (error, m)
        → IsCrowded m key
        → Inserted m key q x r

  -- How a call that may overwrite ends.
  pub data Replaced (m : Memory V) (key q : ℕ) (x : V) (r : Code × Memory V) : Type ℓ where
    written :
        r.0 ≡ ok
        → get lines r.1 q ≡ (if q == key then (ok, some x) else get lines m q)
        → Replaced m key q x r
    crowded :
        get lines m key ≡ (not_found, none)
        → r ≡ (error, m)
        → IsCrowded m key
        → Replaced m key q x r

  -- How a removal ends.
  pub data Removed (m : Memory V) (key q : ℕ) (r : Code × Memory V) : Type ℓ where
    missing : get lines m key ≡ (not_found, none) → r ≡ (not_found, m) → Removed m key q r
    gone :
        (get lines m key).0 ≡ ok
        → r.0 ≡ ok
        → get lines r.1 q ≡ (if q == key then (not_found, none) else get lines m q)
        → Removed m key q r

  full-IsCrowded :
      (m : Memory V) (key : ℕ)
      → IsValid lines m
      → free_row (candidate lines key) m.nodes lines 0 ≡ full
      → IsCrowded m key
  full-IsCrowded m key v h i lt =
      let (p, e, a, b, c) = candidate_lem lines key i v.few lt in
      (
        p,
        e,
        free_row-full (candidate lines key) m.nodes lines 0 i p h (omega arith) (omega arith) e,
      )

  -- On a valid segment and for keys other than 0, `Set` ends in one of three ways. The key is in
  -- the table: HASHSHM_KEYEXIST, and nothing changes. It is not, and a candidate node is free:
  -- HASHSHM_OK, and `Get` then answers the value under that key and as before under each other.
  -- It is not, and all its candidates are in use: HASHSHM_ERROR, and nothing changes.
  pub insert_lem :
      (m : Memory V) (key q : ℕ) (x : V)
      → IsValid lines m
      → key ≢ 0
      → q ≢ 0
      → Inserted m key q x (insert lines m key x)
  unfolding insert
  insert_lem m key q x v nz nq = elim (Option-cases (find lines m key)) [
    | inr (p, here) ↦
        let (e, node, held) = get_elem?-found lines m key p nz here in
        present (ap (λ r. r.0) (get-found lines m key p e here node)) (rw (here, insert))
    | inl absent ↦
        let before = get-absent lines m key absent in
        elim (place-Placed lines m key x v) [
          | no_room e r ↦
              rw (absent, insert) (rw r (crowded before refl (full-IsCrowded m key v e)))
          | stored p e r ↦
              rw (absent, insert)
                (rw r (added before refl (get-filled lines m key p q x v nz nq absent e)))
        ]
  ]

  -- On a valid segment and for keys other than 0, `Replace` ends in one of two ways. HASHSHM_OK,
  -- and `Get` then answers the new value under that key and as before under each other. Or
  -- HASHSHM_ERROR with nothing changed, which happens only to a key that is not in the table and
  -- whose candidates are all in use.
  pub replace_lem :
      (m : Memory V) (key q : ℕ) (x : V)
      → IsValid lines m
      → key ≢ 0
      → q ≢ 0
      → Replaced m key q x (replace lines m key x)
  unfolding replace
  replace_lem m key q x v nz nq = elim (Option-cases (find lines m key)) [
    | inr (p, here) ↦
        rw (here, replace) (written refl (get-rewritten lines m key p q x v nz nq here))
    | inl absent ↦
        let before = get-absent lines m key absent in
        elim (place-Placed lines m key x v) [
          | no_room e r ↦
              rw (absent, replace) (rw r (crowded before refl (full-IsCrowded m key v e)))
          | stored p e r ↦
              rw (absent, replace)
                (rw r (written refl (get-filled lines m key p q x v nz nq absent e)))
        ]
  ]

  -- On a valid segment and for keys other than 0, `Remove` ends in one of two ways. The key is not
  -- in the table: HASHSHM_NOTFOUND, and nothing changes. It is: HASHSHM_OK, and `Get` then finds
  -- nothing under that key and answers as before under each other.
  pub remove_lem :
      (m : Memory V) (key q : ℕ)
      → IsValid lines m
      → key ≢ 0
      → q ≢ 0
      → Removed m key q (remove lines m key)
  unfolding remove
  remove_lem m key q v nz nq = elim (Option-cases (find lines m key)) [
    | inl absent ↦ missing (get-absent lines m key absent) (rw (absent, remove))
    | inr (p, here) ↦
        let (e, node, held) = get_elem?-found lines m key p nz here in
        rw (remove-found lines m key p e here node) (
          gone (ap (λ r. r.0) (get-found lines m key p e here node)) refl
            (get-emptied lines m key p q e v nz nq here))
  ]
