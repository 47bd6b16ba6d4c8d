-- ===== src/Coroutine/Tests.antt =====
-- coroutine.cpp: a program with two coroutines and a stack of four bytes.
use uc.Prelude.{
  ℕ, ◌≡◌, refl, arith, List, [], ◌∷◌, Option, none, some, replicate, ◌↔◌, drop, length,
}
use uc.Coroutine.{
  Co, Schedule, running, suspend, co_new, coroutine_new, coroutine_resume, coroutine_yield,
  coroutine_status, coroutine_running, free_slot, finish, open_schedule, resume_status, save_stack,
  close_schedule,
}
use uc.Coroutine.Invariant.{IsValid}
use uc.Coroutine.Steps.{
  Label, new_label, resume_label, finish_label, write_label, Step, new_step, resume_step,
  finish_step, write_step, Reach, stop, next, Step-IsValid,
}
use uc.Coroutine.Reachable.{Reach-IsValid, running-only}
use uc.Coroutine.Restore.{Spares, resume-yield}

abbrev garbage : List ℕ
garbage = 9 ∷ 9 ∷ 9 ∷ 9 ∷ []

abbrev frame : List ℕ
frame = 9 ∷ 9 ∷ 5 ∷ 6 ∷ []

abbrev opened : Schedule
opened = open_schedule garbage

abbrev table : Option Co → Option Co → List (Option Co)
table a b = a ∷ b ∷ replicate 14 none

abbrev with_one : Schedule
with_one = record {
  stack = garbage;
  nco = 1;
  cap = 16;
  current = none;
  co = table (some (co_new 1 2)) none;
}

abbrev with_two : Schedule
with_two = record with_one { nco = 2; co = table (some (co_new 1 2)) (some (co_new 3 4)) }

abbrev first_runs : Schedule
first_runs = record with_two {
  current = some 0;
  co = table (some (record (co_new 1 2) { status = running })) (some (co_new 3 4));
}

abbrev first_wrote : Schedule
first_wrote = record first_runs { stack = frame }

abbrev saved : Co
saved = record { func = 1; ud = 2; cap = 2; size = 2; status = suspend; stack = 5 ∷ 6 ∷ [] }

abbrev first_waits : Schedule
first_waits = record first_wrote { current = none; co = table (some saved) (some (co_new 3 4)) }

abbrev second_runs : Schedule
second_runs = record first_waits {
  current = some 1;
  co = table (some saved) (some (record (co_new 3 4) { status = running }));
}

abbrev second_wrote : Schedule
second_wrote = record second_runs { stack = garbage }

abbrev second_done : Schedule
second_done = record second_wrote { nco = 1; current = none; co = table (some saved) none }

create_first : Step opened (new_label 1 2) with_one
unfolding coroutine_new open_schedule free_slot
create_first = new_step refl

create_second : Step with_one (new_label 3 4) with_two
unfolding coroutine_new free_slot
create_second = new_step refl

start_first : Step with_two (resume_label 0) first_runs
unfolding coroutine_resume resume_status co_new
start_first = resume_step refl

write_first : Step first_runs (write_label frame) first_wrote
write_first = write_step refl refl refl

yield_first : coroutine_yield first_wrote 2 ≡ some first_waits
unfolding coroutine_yield save_stack co_new
yield_first = refl

start_second : Step first_waits (resume_label 1) second_runs
unfolding coroutine_resume resume_status co_new
start_second = resume_step refl

write_second : Step second_runs (write_label garbage) second_wrote
write_second = write_step refl refl refl

finish_second : Step second_wrote finish_label second_done
unfolding finish
finish_second = finish_step refl refl

abbrev begin : List Label
begin = new_label 1 2 ∷ new_label 3 4 ∷ resume_label 0 ∷ []

to_first_runs : Reach first_runs opened begin
to_first_runs = next create_first (next create_second (next start_first (stop refl)))

meanwhile : Reach second_done first_waits (resume_label 1 ∷ write_label garbage ∷ finish_label ∷ [])
meanwhile = next start_second (next write_second (next finish_second (stop refl)))

with_two-IsValid : IsValid 4 with_two
with_two-IsValid =
    (Reach-IsValid garbage (new_label 1 2 ∷ new_label 3 4 ∷ []) with_two
      (next create_first (next create_second (stop refl)))).0

first_runs-IsValid : IsValid 4 first_runs
first_runs-IsValid = (Reach-IsValid garbage begin first_runs to_first_runs).0

first_wrote-IsValid : IsValid 4 first_wrote
first_wrote-IsValid =
    Step-IsValid 4 first_runs first_wrote (write_label frame) first_runs-IsValid write_first

Reach-IsValid_example :
    IsValid 4 first_runs × (length (close_schedule first_runs.co) ≡ first_runs.nco)
Reach-IsValid_example = Reach-IsValid garbage begin first_runs to_first_runs

running-only_example :
    coroutine_status first_runs 0 ≡ some running ↔ coroutine_running first_runs ≡ some 0
running-only_example = running-only garbage begin first_runs 0 to_first_runs

spares : Spares 0 (resume_label 1 ∷ write_label garbage ∷ finish_label ∷ [])
unfolding Spares
spares = ((λ e. ground arith), ((λ e. ground arith), ((λ e. ground arith), tt)))

resume-yield_example :
    (u' : Schedule) × (coroutine_resume second_done 0 ≡ some u')
    × (u'.current ≡ some 0)
    × (drop 2 u'.stack ≡ drop 2 first_wrote.stack)
resume-yield_example =
    resume-yield 4 2 0 first_wrote first_waits second_done
      (resume_label 1 ∷ write_label garbage ∷ finish_label ∷ []) first_wrote-IsValid refl
      yield_first spares meanwhile refl
