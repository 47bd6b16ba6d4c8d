-- ===== src/Coroutine/Slots.antt =====
-- coroutine.cpp: the table of coroutines, and the search for an empty place in it.
use native.Mathlib.Nat.{mod-lt, mod-add-mod}
use native.Mathlib.Decide.{ℕ_discrete}
use uc.Prelude.{
  ℕ, zero, suc, ◌+◌, ◌-◌, ◌%◌, ◌≤◌, ◌<◌, ◌≡◌, ◌≢◌, refl, ap, ◌∙◌, arith, List, [], ◌∷◌, ◌++◌,
  Option, none, some, get_elem?, get_elem?-some, set, length, replicate, inl, inr, Option-cases,
}
use uc.Coroutine.{Co, close_schedule, free_slot}

-- How many places are taken.
unfoldable pub taken : List (Option Co) → ℕ
taken [] = 0
taken (none ∷ slots) = taken slots
taken (some c ∷ slots) = suc (taken slots)

pub taken-le-length : (slots : List (Option Co)) → taken slots ≤ length slots
unfolding taken
taken-le-length [] = omega arith
taken-le-length (none ∷ slots) = omega (arith, taken-le-length slots)
taken-le-length (some c ∷ slots) = omega (arith, taken-le-length slots)

pub taken-append : (a b : List (Option Co)) → taken (a ++ b) ≡ taken a + taken b
unfolding taken
taken-append [] b = omega arith
taken-append (none ∷ a) b = taken-append a b
taken-append (some c ∷ a) b = omega (arith, taken-append a b)

pub taken-replicate : (n : ℕ) → taken (replicate n none) ≡ 0
unfolding taken
taken-replicate zero = refl
taken-replicate (suc n) = taken-replicate n

pub taken-set_fill :
    (slots : List (Option Co)) (id : ℕ) (c : Co)
    → get_elem? slots id ≡ some none
    → taken (set slots id (some c)) ≡ suc (taken slots)
unfolding taken
taken-set_fill [] id c e = absurd (ground arith)
taken-set_fill (none ∷ slots) zero c e = refl
taken-set_fill (some d ∷ slots) zero c e = absurd (ground arith)
taken-set_fill (none ∷ slots) (suc id) c e = taken-set_fill slots id c e
taken-set_fill (some d ∷ slots) (suc id) c e = ap suc (taken-set_fill slots id c e)

pub taken-set_same :
    (slots : List (Option Co)) (id : ℕ) (c d : Co)
    → get_elem? slots id ≡ some (some d)
    → taken (set slots id (some c)) ≡ taken slots
unfolding taken
taken-set_same [] id c d e = refl
taken-set_same (none ∷ slots) zero c d e = absurd (ground arith)
taken-set_same (some b ∷ slots) zero c d e = refl
taken-set_same (none ∷ slots) (suc id) c d e = taken-set_same slots id c d e
taken-set_same (some b ∷ slots) (suc id) c d e = ap suc (taken-set_same slots id c d e)

pub taken-set_clear :
    (slots : List (Option Co)) (id : ℕ) (d : Co)
    → get_elem? slots id ≡ some (some d)
    → suc (taken (set slots id none)) ≡ taken slots
unfolding taken
taken-set_clear [] id d e = absurd (ground arith)
taken-set_clear (none ∷ slots) zero d e = absurd (ground arith)
taken-set_clear (some b ∷ slots) zero d e = refl
taken-set_clear (none ∷ slots) (suc id) d e = taken-set_clear slots id d e
taken-set_clear (some b ∷ slots) (suc id) d e = ap suc (taken-set_clear slots id d e)

taken_all :
    (slots : List (Option Co))
    → ((j : ℕ) → j < length slots → get_elem? slots j ≢ some none)
    → taken slots ≡ length slots
unfolding taken
taken_all [] all = refl
taken_all (none ∷ slots) all = absurd (all 0 (omega arith) refl)
taken_all (some c ∷ slots) all = ap suc (taken_all slots (λ j lt. all (suc j) (omega arith)))

-- Deleting every coroutine deletes as many as there are.
pub length-close : (slots : List (Option Co)) → length (close_schedule slots) ≡ taken slots
unfolding taken close_schedule
length-close [] = refl
length-close (none ∷ slots) = length-close slots
length-close (some c ∷ slots) = ap suc (length-close slots)

-- What the search returns is empty.
pub free_slot-empty :
    (slots : List (Option Co)) (nco cap n i id : ℕ)
    → free_slot slots nco cap n i ≡ some id
    → get_elem? slots id ≡ some none
unfolding free_slot
free_slot-empty slots nco cap zero i id e = absurd (ground arith)
free_slot-empty slots nco cap (suc n) i id e =
    ground (arith, free_slot-empty slots nco cap n (i + 1) id)

-- A search that fails has seen no empty place.
free_slot-none :
    (slots : List (Option Co)) (nco cap n i k : ℕ)
    → 0 < cap
    → length slots ≡ cap
    → free_slot slots nco cap n i ≡ none
    → i ≤ k
    → k < i + n
    → get_elem? slots ((k + nco) % cap) ≢ some none
unfolding free_slot
free_slot-none slots nco cap zero i k pos whole e le lt h = absurd (omega arith)
free_slot-none slots nco cap (suc n) i k pos whole e le lt h =
    let (slot, here) = get_elem?-some slots ((i + nco) % cap) (rw whole (mod-lt (i + nco) pos)) in
    elim (ℕ_discrete i k) [
      | yes same ↦ ground arith
      | no other ↦ ground (arith, free_slot-none slots nco cap n (i + 1) k pos whole)
    ]

-- Every place is looked at in some round.
round_of : (j nco n : ℕ) → j < n → (k : ℕ) × (k < n) × ((k + nco) % n ≡ j)
round_of j nco n lt =
    let r = mod-lt nco {m = n} (omega arith) in
    (
      (j + (n - nco % n)) % n,
      mod-lt _ (omega arith),
      mod-add-mod (j + (n - nco % n)) n nco ∙ grind arith,
    )

-- While a place is empty the search finds one.
pub free_slot-some :
    (slots : List (Option Co)) (nco n : ℕ)
    → length slots ≡ n
    → taken slots < n
    → (id : ℕ) × (free_slot slots nco n n 0 ≡ some id)
free_slot-some slots nco n whole room = elim (Option-cases (free_slot slots nco n n 0)) [
  | inr found ↦ found
  | inl failed ↦
      let full = taken_all slots (λ j lt.
        let (k, small, e) = round_of j nco n (omega arith) in
        rw (← e) (
          free_slot-none slots nco n n 0 k (omega arith) whole failed (omega arith)
            (omega arith))) in
      absurd (omega arith)
]
