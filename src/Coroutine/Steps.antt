-- ===== src/Coroutine/Steps.antt =====
-- coroutine.cpp: the steps of a program on one scheduler, in any order.
--
-- While no coroutine runs, the program that opened the scheduler has control; then it may create
-- and resume coroutines. The coroutine that runs may create coroutines, write to the shared stack,
-- yield, or return from its function.
use uc.Prelude.{
  some_inj, ℕ, ◌≤◌, ◌≡◌, ◌∙◌, sym, ap, arith, List, [], ◌∷◌, Option, none, some, get_elem?, length,
  inl, inr, ◌⊎◌, Option-cases,
}
use uc.Coroutine.{Co, Schedule, finish, coroutine_new, coroutine_resume, coroutine_yield}
use uc.Coroutine.Invariant.{IsValid}
use uc.Coroutine.New.{new_lem}
use uc.Coroutine.Resume.{resume_lem}
use uc.Coroutine.Yield.{yield_lem, finish_lem}

pub data Label : Type 0 where
  new_label : ℕ → ℕ → Label
  resume_label : ℕ → Label
  yield_label : ℕ → Label
  finish_label : Label
  write_label : List ℕ → Label

pub data Step (s : Schedule) : Label → Schedule → Type 0 where
  new_step :
      {func ud id : ℕ} {s' : Schedule}
      → coroutine_new s func ud ≡ some (id, s')
      → Step s (new_label func ud) s'
  resume_step :
      {id : ℕ} {s' : Schedule} → coroutine_resume s id ≡ some s' → Step s (resume_label id) s'
  yield_step :
      {used : ℕ} {s' : Schedule} → coroutine_yield s used ≡ some s' → Step s (yield_label used) s'
  finish_step :
      {id : ℕ} {s' : Schedule} → s.current ≡ some id → s' ≡ finish s id → Step s finish_label s'
  write_step :
      {id : ℕ} {bytes : List ℕ} {s' : Schedule}
      → s.current ≡ some id
      → length bytes ≡ length s.stack
      → s' ≡ record s { stack = bytes }
      → Step s (write_label bytes) s'

-- The steps with the labels, in their order.
pub data Reach (s' : Schedule) : Schedule → List Label → Type 0 where
  stop : {s : Schedule} → s ≡ s' → Reach s' s []
  next :
      {s t : Schedule} {l : Label} {ls : List Label}
      → Step s l t
      → Reach s' t ls
      → Reach s' s (l ∷ ls)

-- A resume that fails no assertion found no coroutine in the place and did nothing, or a
-- coroutine, while none ran.
pub resume-cases :
    (s s' : Schedule) (id : ℕ)
    → coroutine_resume s id ≡ some s'
    → (s' ≡ s) ⊎ ((s.current ≡ none) × ((c : Co) × (get_elem? s.co id ≡ some (some c))))
unfolding coroutine_resume
resume-cases s s' id e = elim (Option-cases s.current) [
  | inr (k, busy) ↦ absurd (ground arith)
  | inl idle ↦ elim (Option-cases (get_elem? s.co id)) [
    | inl out ↦ absurd (ground arith)
    | inr (slot, at_slot) ↦ elim (Option-cases slot) [
      | inl empty ↦ inl (ground arith)
      | inr (c, full) ↦ inr (idle, (c, at_slot ∙ ap some full))
    ]
  ]
]

-- A yield that fails no assertion found the coroutine that ran.
pub yield-cases :
    (s s' : Schedule) (used : ℕ)
    → coroutine_yield s used ≡ some s'
    → (id : ℕ) × (c : Co) × (s.current ≡ some id)
      × (get_elem? s.co id ≡ some (some c))
      × (used ≤ length s.stack)
unfolding coroutine_yield
yield-cases s s' used e = elim (Option-cases s.current) [
  | inl idle ↦ absurd (ground arith)
  | inr (id, turn) ↦ elim (Option-cases (get_elem? s.co id)) [
    | inl out ↦ absurd (ground arith)
    | inr (slot, at_slot) ↦ elim (Option-cases slot) [
      | inl empty ↦ absurd (ground arith)
      | inr (c, full) ↦ (id, c, turn, at_slot ∙ ap some full, ground arith)
    ]
  ]
]

pub some_pair :
    (i j : ℕ) (a b : Schedule) → ◌≡◌ {A = Option (ℕ × Schedule)} (some (i, a)) (some (j, b)) → a ≡ b
some_pair i j a b e = ground arith

pub Step-IsValid :
    (depth : ℕ) (s s' : Schedule) (l : Label) → IsValid depth s → Step s l s' → IsValid depth s'
Step-IsValid depth s s' (new_label func ud) v (new_step e) =
    let (id, t, e', made) = new_lem depth func ud s v in
    rw (← some_pair id _ t s' (sym e' ∙ e)) made.valid
Step-IsValid depth s s' (resume_label id) v (resume_step e) = elim (resume-cases s s' id e) [
  | inl same ↦ rw same v
  | inr (idle, (c, here)) ↦
      let (t, e', done) = resume_lem depth s id c v idle here in
      rw (← some_inj t s' (sym e' ∙ e)) done.valid
]
Step-IsValid depth s s' (yield_label used) v (yield_step e) =
    let (id, c, turn, here, le) = yield-cases s s' used e in
    let (t, e', done) = yield_lem depth used s id c v turn here (omega (arith, v.whole)) in
    rw (← some_inj t s' (sym e' ∙ e)) done.valid
Step-IsValid depth s s' finish_label v (finish_step {id = id} turn e) =
    rw e (finish_lem depth s id v turn).valid
Step-IsValid depth s s' (write_label bytes) v (write_step turn same e) = rw e (record {
  whole = same ∙ v.whole;
  width = v.width;
  room = v.room;
  counted = v.counted;
  slots = v.slots;
  owner = v.owner;
})

pub Reach-IsValid_lem :
    (depth : ℕ) (s s' : Schedule) (ls : List Label)
    → IsValid depth s
    → Reach s' s ls
    → IsValid depth s'
Reach-IsValid_lem depth s s' [] v (stop e) = rw (← e) v
Reach-IsValid_lem depth s s' (l ∷ ls) v (next {t = t} step rest) =
    Reach-IsValid_lem depth t s' ls (Step-IsValid depth s t l v step) rest
