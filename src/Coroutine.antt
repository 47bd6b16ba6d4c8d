-- ===== src/Coroutine.antt =====
-- coroutine.cpp and coroutine.h: a scheduler of coroutines that share one stack.
--
-- `func` and `ud` are pointers and are only passed on. A byte is a number that is only moved. A
-- context of the library ucontext is not a value here: `swapcontext` passes control on, so each
-- operation is the code up to its `swapcontext`, and what a coroutine does in its turn is a step
-- of `Steps`. `running` is `none` for -1. An `assert` that fails is `none`, as is the use of a
-- NULL coroutine. `malloc` and `realloc` do not fail. STACK_SIZE is the length that `IsValid`
-- gives the shared stack. How deep the stack is at a yield, `top - &dummy`, is an argument.
pub mod Slots
pub mod Invariant
pub mod New
pub mod Turns
pub mod Resume
pub mod Yield
pub mod Steps
pub mod Reachable
pub mod Restore
mod Tests
use uc.Prelude.{
  ℕ, zero, suc, ◌+◌, ◌-◌, ◌*◌, ◌%◌, List, [], ◌∷◌, ◌++◌, Option, none, some, get_elem?, set, take,
  drop, length, replicate, ltb, leb, ◌==◌, if◌then◌else◌, Bool, true, false,
}

-- COROUTINE_DEAD, COROUTINE_READY, COROUTINE_RUNNING, COROUTINE_SUSPEND
pub data Status : Type 0 where
  dead ready running suspend : Status

-- `struct coroutine`
pub record Co : Type 0 where
  pub func : ℕ
  pub ud : ℕ
  pub cap : ℕ
  pub size : ℕ
  pub status : Status
  pub stack : List ℕ

-- `struct schedule`
pub record Schedule : Type 0 where
  pub stack : List ℕ
  pub nco : ℕ
  pub cap : ℕ
  pub current : Option ℕ
  pub co : List (Option Co)

-- `_co_new`
unfoldable pub co_new : ℕ → ℕ → Co
co_new func ud = record { func = func; ud = ud; cap = 0; size = 0; status = ready; stack = [] }

-- `coroutine_open`; DEFAULT_COROUTINE is 16. The bytes of the stack are whatever they are.
unfoldable pub open_schedule : List ℕ → Schedule
open_schedule bytes = record {
  stack = bytes;
  nco = 0;
  cap = 16;
  current = none;
  co = replicate 16 none;
}

-- `coroutine_close`: the coroutines that it hands to `_co_delete`.
unfoldable pub close_schedule : List (Option Co) → List Co
close_schedule [] = []
close_schedule (none ∷ slots) = close_schedule slots
close_schedule (some c ∷ slots) = c ∷ close_schedule slots

-- The search of `coroutine_new` from round `i`, with `n` rounds left.
unfoldable pub free_slot : List (Option Co) → ℕ → ℕ → ℕ → ℕ → Option ℕ
free_slot slots nco cap zero i = none
free_slot slots nco cap (suc n) i =
    let id = (i + nco) % cap in
    elim (get_elem? slots id) [
      | none ↦ none
      | some slot ↦ elim slot [ none ↦ some id | some c ↦ free_slot slots nco cap n (i + 1) ]
    ]

-- `coroutine_new`: the id, and the schedule.
unfoldable pub coroutine_new : Schedule → ℕ → ℕ → Option (ℕ × Schedule)
coroutine_new s func ud =
    let c = co_new func ud in
    if leb s.cap s.nco
    then some (
      s.cap,
      record s {
        co = set (s.co ++ replicate s.cap none) s.cap (some c);
        cap = s.cap * 2;
        nco = s.nco + 1;
      },
    )
    else elim (free_slot s.co s.nco s.cap s.cap 0) [
      | none ↦ none
      | some id ↦ some (id, record s { co = set s.co id (some c); nco = s.nco + 1 })
    ]

-- The end of `mainfunc`, when the function of the coroutine `id` has returned.
unfoldable pub finish : Schedule → ℕ → Schedule
finish s id = record s { co = set s.co id none; nco = s.nco - 1; current = none }

-- The `switch` of `coroutine_resume`, up to `swapcontext`.
unfoldable pub resume_status : Schedule → ℕ → Co → Status → Option Schedule
resume_status s id c ready =
    some (record s { co = set s.co id (some (record c { status = running })); current = some id })
resume_status s id c suspend = some (record s {
  stack = take (length s.stack - c.size) s.stack ++ take c.size c.stack;
  co = set s.co id (some (record c { status = running }));
  current = some id;
})
resume_status s id c running = none
resume_status s id c dead = none

-- `coroutine_resume`; for an empty slot it returns at once.
unfoldable pub coroutine_resume : Schedule → ℕ → Option Schedule
coroutine_resume s id = elim s.current [
  | some other ↦ none
  | none ↦ if leb s.cap id then none else elim (get_elem? s.co id) [
    | none ↦ none
    | some slot ↦ elim slot [ none ↦ some s | some c ↦ resume_status s id c c.status ]
  ]
]

-- `_save_stack`: the `used` bytes below `top` go to the start of the stack of `c`, which is new if
-- it was too small.
unfoldable pub save_stack : List ℕ → ℕ → Co → Co
save_stack bytes used c =
    let saved = drop (length bytes - used) bytes in
    if ltb c.cap used
    then record c { cap = used; size = used; stack = saved }
    else record c { size = used; stack = saved ++ drop used c.stack }

-- `coroutine_yield`, up to `swapcontext`.
unfoldable pub coroutine_yield : Schedule → ℕ → Option Schedule
coroutine_yield s used = elim s.current [
  | none ↦ none
  | some id ↦ elim (get_elem? s.co id) [
    | none ↦ none
    | some slot ↦ elim slot [
      | none ↦ none
      | some c ↦
          if ltb (length s.stack) used
          then none
          else some (record s {
            co = set s.co id (some (record (save_stack s.stack used c) { status = suspend }));
            current = none;
          })
    ]
  ]
]

-- `coroutine_status`
unfoldable pub coroutine_status : Schedule → ℕ → Option Status
coroutine_status s id = if leb s.cap id then none else elim (get_elem? s.co id) [
  | none ↦ none
  | some slot ↦ elim slot [ none ↦ some dead | some c ↦ some c.status ]
]

-- `coroutine_running`
unfoldable pub coroutine_running : Schedule → Option ℕ
coroutine_running s = s.current
