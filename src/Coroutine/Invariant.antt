-- ===== src/Coroutine/Invariant.antt =====
-- coroutine.cpp: what holds of a scheduler between the steps.
use uc.Prelude.{
  ℕ, zero, suc, ◌≤◌, ◌<◌, ◌≡◌, ◌≢◌, refl, sym, arith, List, Option, none, some, get_elem?,
  get_elem?-set_self, get_elem?-set_ne, set, length, ◌⊎◌, inl, inr, replicate,
}
use native.Mathlib.Decide.{ℕ_discrete}
use uc.Coroutine.{Co, Schedule, dead, running, open_schedule}
use uc.Coroutine.Slots.{taken, taken-replicate}

-- A coroutine in the place `id`: it is not dead, it has status RUNNING exactly if it is the
-- current one, and its saved stack lies in its buffer and is no deeper than the shared stack.
pub record Fits (depth : ℕ) (current : Option ℕ) (id : ℕ) (c : Co) : Type 0 where
  pub alive : c.status ≢ dead
  pub only : c.status ≡ running → current ≡ some id
  pub back : current ≡ some id → c.status ≡ running
  pub buffer : length c.stack ≡ c.cap
  pub filled : c.size ≤ c.cap
  pub shallow : c.size ≤ depth

-- `depth` is STACK_SIZE.
pub record IsValid (depth : ℕ) (s : Schedule) : Type 0 where
  pub whole : length s.stack ≡ depth
  pub width : length s.co ≡ s.cap
  pub room : 0 < s.cap
  pub counted : s.nco ≡ taken s.co
  pub slots : (id : ℕ) (c : Co) → get_elem? s.co id ≡ some (some c) → Fits depth s.current id c
  pub owner : (id : ℕ) → s.current ≡ some id → (c : Co) × (get_elem? s.co id ≡ some (some c))

-- What stands in a place after a write to a place of the table.
pub get_elem?-set_cases :
    (co : List (Option Co)) (id j : ℕ) (v : Option Co) (c : Co)
    → id < length co
    → get_elem? (set co id v) j ≡ some (some c)
    → ((j ≡ id) × (v ≡ some c)) ⊎ ((j ≢ id) × (get_elem? co j ≡ some (some c)))
get_elem?-set_cases co id j v c lt e = elim (ℕ_discrete j id) [
  | yes same ↦ inl (same, ground (arith, get_elem?-set_self co id v lt))
  | no other ↦ inr (other, ground (arith, get_elem?-set_ne co id j v (λ p. other (sym p))))
]

empty-slot : (n j : ℕ) (c : Co) → get_elem? (replicate n none) j ≡ some (some c) → ⊥
empty-slot zero j c e = ground arith
empty-slot (suc n) zero c e = ground arith
empty-slot (suc n) (suc j) c e = empty-slot n j c e

-- A scheduler is valid when it has been opened, with whatever bytes on its stack.
pub open-IsValid : (bytes : List ℕ) → IsValid (length bytes) (open_schedule bytes)
unfolding open_schedule
open-IsValid bytes = record {
  whole = refl;
  width = refl;
  room = omega arith;
  counted = sym (taken-replicate 16);
  slots = λ id c e. absurd (empty-slot 16 id c e);
  owner = λ id e. absurd (ground arith);
}
