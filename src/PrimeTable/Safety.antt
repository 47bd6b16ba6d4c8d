-- ===== src/PrimeTable/Safety.antt =====
-- example_shm_hashtable1.cpp: the reads of `find` in a table that the constructor has made.
use uc.Prelude.{
  ℕ, zero, suc, ◌+◌, ◌-◌, ◌<◌, ◌≡◌, ◌≢◌, List, [], ◌∷◌, Option, none, some, Bool, Option-cases, inl,
  inr, some_inj, ap, ◌∙◌, arith, length, get_or,
}
use uc.PrimeTable.{word, get_mode, get_shm, construct, Memory, find}
use uc.PrimeTable.Rows.{Falling, get_mode-Falling}
use uc.PrimeTable.Calls.{HasRows, find-look}

Falling-get_or :
    (b : ℕ) (mods : List ℕ) (i : ℕ) → Falling b mods → i < length mods → 0 < get_or mods i 0
unfolding Falling
Falling-get_or b [] i v lt = absurd (omega arith)
Falling-get_or b (q ∷ qs) zero (top, pos, kind, rest) lt = pos
Falling-get_or b (q ∷ qs) (suc i) (top, pos, kind, rest) lt =
    Falling-get_or (q - 1) qs i rest (omega arith)

-- With the lengths that the constructor has computed, `find` reads no node through NULL, whatever the
-- segment holds.
pub construct-find {ℓ} :
    {V : Type ℓ} (max_line lines : ℕ) (found made : Bool) (attached : Option (Memory V))
    (mods : List ℕ) (m : Memory V) (key : ℕ)
    → max_line < word
    → construct max_line lines found made attached ≡ some (mods, m)
    → find max_line mods lines m key ≢ none
unfolding construct HasRows
construct-find {V = V} max_line lines found made attached mods m key lt e =
    elim (Option-cases (get_mode max_line lines)) [
      | inl none_here ↦ absurd (
          let x : ◌≡◌ {A = Option (List ℕ × Memory V)} none (some (mods, m)) =
            rw (construct, none_here) at e in
          cc)
      | inr (mods', e_mods) ↦ elim (Option-cases (get_shm found made attached)) [
        | inl no_shm ↦ absurd (
            let x : ◌≡◌ {A = Option (List ℕ × Memory V)} none (some (mods, m)) =
              rw (construct, e_mods, no_shm) at e in
            cc)
        | inr (m', e_shm) ↦
            let x : ◌≡◌ {A = Option (List ℕ × Memory V)} (some (mods', m')) (some (mods, m)) =
              rw (construct, e_mods, e_shm) at e in
            let same : mods' ≡ mods = ap (λ r. r.0) (some_inj (mods', m') (mods, m) x) in
            let (len, falls) = get_mode-Falling max_line lines mods lt (e_mods ∙ ap some same) in
            let rows : HasRows mods lines =
              λ i less. Falling-get_or (max_line + 1) mods i falls (omega arith) in
            λ z. let t = find-look max_line mods lines rows m key in cc
      ]
    ]
