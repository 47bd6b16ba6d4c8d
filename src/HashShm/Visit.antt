-- ===== src/HashShm/Visit.antt =====
-- example_shm_hashtable2.cpp: what `Foreach` shows its callback.
use uc.Prelude.{
  ℕ, zero, suc, ◌+◌, ◌-◌, ◌≤◌, ◌<◌, ◌≡◌, ◌≢◌, refl, sym, ◌∙◌, some, List, [], ◌∷◌, ◌==◌, inl, inr,
  Bool-cases, arith, if◌then◌else◌, length, ◌++◌, get_elem?, ==→ne,
}
use mathlib.Core.List.{append-nil, append_assoc}
use uc.Probe.{Node, key_at, live}
use uc.HashShm.{Memory, ok, primer, primer_total, get, visit, foreach}
use uc.HashShm.Bounds.{max_size-pred}
use uc.HashShm.Invariant.{IsValid}
use uc.HashShm.Map.{get-found}

abbrev pub All {ℓ κ} : {A : Type ℓ} → (A → Type κ) → List A → Type κ
All P [] = Unit
All P (x ∷ xs) = P x × All P xs

module _ {ℓ} {V : Type ℓ} where
  -- The callback of a reader: it leaves the value alone and notes what it is shown.
  abbrev pub note : ℕ → V → List (ℕ × V) → V × List (ℕ × V)
  note k x seen = (x, seen ++ (k, x) ∷ [])

  -- The entries in use, in the order of their nodes.
  entries : List (Node V) → List (ℕ × V)
  entries [] = []
  entries (e ∷ es) = if e.key == 0 then entries es else (e.key, e.value) ∷ entries es

  visit-note :
      (n : ℕ) (nodes : List (Node V)) (seen : List (ℕ × V))
      → length nodes ≤ n
      → visit note n nodes seen ≡ (nodes, seen ++ entries nodes)
  unfolding visit entries
  visit-note zero [] seen le = rw append-nil
  visit-note zero (e ∷ es) seen le = absurd (omega arith)
  visit-note (suc n) [] seen le = rw append-nil
  visit-note (suc n) (e ∷ es) seen le = elim (Bool-cases (e.key == 0)) [
    | inl unused ↦ rw (unused, visit-note n es seen (omega arith))
    | inr used ↦
        rw (used, visit-note n es (seen ++ (e.key, e.value) ∷ []) (omega arith), append_assoc)
  ]

  length-entries : (nodes : List (Node V)) → length (entries nodes) ≡ live nodes
  unfolding entries live
  length-entries [] = refl
  length-entries (e ∷ es) = ground (arith, length-entries es)

  All-entries :
      (P : ℕ × V → Type ℓ) (nodes : List (Node V))
      → ((p : ℕ) (e : Node V) → get_elem? nodes p ≡ some e → e.key ≢ 0 → P (e.key, e.value))
      → All P (entries nodes)
  unfolding entries
  All-entries P [] h = tt
  All-entries P (e ∷ es) h = elim (Bool-cases (e.key == 0)) [
    | inl unused ↦ rw unused (All-entries P es (λ p. h (suc p)))
    | inr used ↦ rw used (h 0 e refl (==→ne e.key 0 used), All-entries P es (λ p. h (suc p)))
  ]

  module _ (lines : ℕ) where
    get-node :
        (m : Memory V) (p : ℕ) (e : Node V)
        → IsValid lines m
        → get_elem? m.nodes p ≡ some e
        → e.key ≢ 0
        → get lines m e.key ≡ (ok, some e.value)
    unfolding key_at
    get-node m p e v node used =
        let held : key_at m.nodes p ≡ e.key = rw (node, key_at) in
        get-found lines m e.key p e (rw (← held) (v.placed p (rw held used))) node

    -- `Foreach` on a valid segment of at least one row, with a callback that leaves the values
    -- alone: the segment is unchanged, the callback runs as often as the counter says, and every
    -- key comes with the value that `Get` answers for it.
    pub foreach_lem :
        (m : Memory V)
        → 0 < lines
        → IsValid lines m
        → let (m', seen) = foreach note lines m [] in
          (m' ≡ m)
          × (length seen ≡ m.head.current_size)
          × All (λ e. get lines m e.0 ≡ (ok, some e.1)) seen
    unfolding foreach
    foreach_lem m pos v =
        rw (foreach, visit-note (primer (lines - 1) + primer_total (lines - 1)) m.nodes [] whole)
          (
            refl,
            length-entries m.nodes ∙ sym v.counted,
            All-entries (λ e. get lines m e.0 ≡ (ok, some e.1)) m.nodes
                (λ p e node used. get-node m p e v node used),
          )
      where
        whole : length m.nodes ≤ primer (lines - 1) + primer_total (lines - 1)
        whole = omega (arith, max_size-pred lines pos, v.width)
