-- ===== src/Coroutine/Reachable.antt =====
-- coroutine.cpp: what holds after any steps of a program on a scheduler.
use uc.Prelude.{
  ℕ, ◌<◌, ◌≡◌, ◌↔◌, ◌∙◌, sym, ap, arith, List, some, get_elem?, get_elem?-lt, length, inl, inr,
  Option-cases,
}
use uc.Coroutine.{
  Co, Schedule, running, coroutine_status, coroutine_running, open_schedule, close_schedule,
}
use uc.Coroutine.Slots.{length-close}
use uc.Coroutine.Invariant.{IsValid, open-IsValid}
use uc.Coroutine.Steps.{Label, Reach, Reach-IsValid_lem}

-- After any steps from `coroutine_open` the scheduler is valid, and `coroutine_close` then deletes
-- as many coroutines as `nco` counts.
pub Reach-IsValid :
    (bytes : List ℕ) (ls : List Label) (s : Schedule)
    → Reach s (open_schedule bytes) ls
    → IsValid (length bytes) s × (length (close_schedule s.co) ≡ s.nco)
Reach-IsValid bytes ls s steps =
    let v =
      Reach-IsValid_lem (length bytes) (open_schedule bytes) s ls (open-IsValid bytes) steps in
    (v, length-close s.co ∙ sym v.counted)

status-slot :
    (s : Schedule) (id : ℕ)
    → coroutine_status s id ≡ some running
    → (c : Co) × (get_elem? s.co id ≡ some (some c)) × (c.status ≡ running)
unfolding coroutine_status
status-slot s id e = elim (Option-cases (get_elem? s.co id)) [
  | inl out ↦ absurd (ground arith)
  | inr (slot, at_slot) ↦ elim (Option-cases slot) [
    | inl empty ↦ absurd (ground arith)
    | inr (c, full) ↦ (c, at_slot ∙ ap some full, ground arith)
  ]
]

slot-status :
    (s : Schedule) (id : ℕ) (c : Co)
    → id < s.cap
    → get_elem? s.co id ≡ some (some c)
    → coroutine_status s id ≡ some c.status
unfolding coroutine_status
slot-status s id c lt here = rw here (ground arith)

-- After any steps from `coroutine_open`, `coroutine_status` says RUNNING of an id exactly if it is
-- the id that `coroutine_running` answers; so no two ids are RUNNING.
pub running-only :
    (bytes : List ℕ) (ls : List Label) (s : Schedule) (id : ℕ)
    → Reach s (open_schedule bytes) ls
    → coroutine_status s id ≡ some running ↔ coroutine_running s ≡ some id
unfolding coroutine_running
running-only bytes ls s id steps =
    let v = (Reach-IsValid bytes ls s steps).0 in
    (
      λ e. (let (c, here, on) = status-slot s id e in (v.slots id c here).only on),
      λ e.
          (let (c, here) = v.owner id e in
            slot-status s id c (omega (arith, get_elem?-lt s.co id here, v.width)) here
            ∙ ap some ((v.slots id c here).back e)),
    )
