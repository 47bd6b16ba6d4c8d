-- ===== src/ThreadPool/Tests.antt =====
-- example_thread_pool.cpp: runs of the pool along a schedule.
use uc.Prelude.{
  ℕ, zero, suc, ◌≡◌, ◌≢◌, ◌⊎◌, inl, refl, arith, Option, none, some, List, [], ◌∷◌, ◌++◌, Bool,
  true, false, length,
}
use mathlib.Core.List.{foldl}
use native.Mathlib.Decide.{dec_lt}
use uc.ThreadPool.{
  Pool, Pc, waiting, exited, outside, signalling, broadcasting, joining, crashed, access, move,
  System, go, call_add, call_destroy, broadcast, join, Reach, start, later,
}
use uc.ThreadPool.Safety.{mutual_exclusion, queue-FirstIn, freed-joined, never_crashed}
use uc.ThreadPool.Valid.{holds, awake}
use uc.ThreadPool.Progress.{CanGo, waiting_task_progress}

-- Who does what next in a schedule
data Turn : Type 0 where
  access_by : ℕ → Turn
  add_by : ℕ → ℕ → Turn
  destroy_by : ℕ → Turn
  broadcast_by : ℕ → Turn
  join_by : ℕ → Turn

outside? : (p : Pc) → Option (p ≡ outside)
outside? outside = some refl
outside? p = none

broadcasting? : (p : Pc) → Option (p ≡ broadcasting)
broadcasting? broadcasting = some refl
broadcasting? p = none

exited? : (p : Pc) → Option (p ≡ exited)
exited? exited = some refl
exited? p = none

joining? : (p : Pc) → Option ((k : ℕ) × (p ≡ joining k))
joining? (joining k) = some (k, refl)
joining? p = none

alive? : (b : Bool) → Option (b ≡ true)
alive? true = some refl
alive? false = none

moved : (o : Option (Pool × Pc)) → Option ((m : Pool) × (p : Pc) × (o ≡ some (m, p)))
moved none = none
moved (some (m, p)) = some (m, p, refl)

record Run (n : ℕ) : Type 0 where
  last : System
  reach : Reach n last

-- A turn that is not possible is passed over.
turn : {n : ℕ} → Run n → Turn → Run n
unfolding outside? broadcasting? exited? joining? alive? moved
turn r (access_by i) = elim (moved (move r.last.pool i (r.last.pc i))) [
  | none ↦ r
  | some (m, p, e) ↦ record { last = _; reach = later r.reach (go i e) }
]
turn r (add_by i x) = elim (outside? (r.last.pc i)) [
  | none ↦ r
  | some e ↦ record {
    last = _;
    reach = later r.reach (call_add i (record { process = 0; arg = x }) e);
  }
]
turn r (destroy_by i) = elim (outside? (r.last.pc i)) [
  | none ↦ r
  | some e ↦ record { last = _; reach = later r.reach (call_destroy i e) }
]
turn r (broadcast_by i) = elim (alive? r.last.pool.alive) [
  | none ↦ r
  | some l ↦ elim (broadcasting? (r.last.pc i)) [
    | none ↦ r
    | some e ↦ record { last = _; reach = later r.reach (broadcast i l e) }
  ]
]
turn r (join_by i) = elim (alive? r.last.pool.alive) [
  | none ↦ r
  | some l ↦ elim (joining? (r.last.pc i)) [
    | none ↦ r
    | some (k, e) ↦ elim (dec_lt k r.last.pool.max_thread_num) [
      | no _ ↦ r
      | yes lt ↦ elim (exited? (r.last.pc k)) [
        | none ↦ r
        | some x ↦ record { last = _; reach = later r.reach (join i k l e lt x) }
      ]
    ]
  ]
]

run : (n : ℕ) → List Turn → Run n
unfolding turn dec_lt move
run n = foldl turn (record { last = _; reach = start })

by : ℕ → ℕ → List Turn
by i zero = []
by i (suc k) = access_by i ∷ by i k

-- One thread and one client, which has put a task into the list and is about to signal; the thread
-- waits.
abbrev task_waits : Run 1
task_waits = run 1 (by 0 3 ++ add_by 1 7 ∷ by 1 5)

-- The thread has the lock.
abbrev locked : Run 1
locked = run 1 (by 0 1)

-- The pool is destroyed and freed.
abbrev destroyed : Run 1
destroyed = run 1 (destroy_by 1 ∷ by 1 2 ++ broadcast_by 1 ∷ by 0 4 ++ join_by 1 ∷ by 1 3)

task_waits_places :
    (task_waits.last.pc 0 ≡ waiting)
    × (task_waits.last.pc 1 ≡ signalling)
    × (task_waits.last.pool.cur_queue_size ≡ 1)
unfolding run by
task_waits_places = (refl, refl, refl)

-- The thread has read `shutdown` before it is set, and waits after the broadcast: `pool_destroy`
-- waits for it.
abbrev hung : Run 1
hung = run 1 (by 0 2 ++ destroy_by 1 ∷ by 1 2 ++ broadcast_by 1 ∷ by 0 1)

hung_places :
    (hung.last.pc 0 ≡ waiting) × (hung.last.pc 1 ≡ joining 0) × (hung.last.pool.shutdown ≡ true)
unfolding run by
hung_places = (refl, refl, refl)

-- No thread has an access that goes through.
hung_blocked : (i : ℕ) → move hung.last.pool i (hung.last.pc i) ≡ none
unfolding run by move access
hung_blocked zero = refl
hung_blocked (suc zero) = refl
hung_blocked (suc (suc i)) = ground arith

-- A second call of `pool_destroy` reads the pool that the first has freed.
second_call :
    (run 1 (
        destroy_by 1 ∷ by 1 2
        ++ broadcast_by 1 ∷ by 0 4
        ++ join_by 1 ∷ by 1 3
        ++ destroy_by 1 ∷ by 1 1)).last.pc
      1
    ≡ crashed
unfolding run by
second_call = refl

mutual_exclusion_example : ◌≡◌ {A = ℕ} 0 0
unfolding run by
mutual_exclusion_example = mutual_exclusion locked.reach 0 0 refl refl

queue-FirstIn_example :
    (task_waits.last.pool.queue_lock ≡ none
      → task_waits.last.pool.cur_queue_size ≡ length task_waits.last.pool.queue_head)
    × (task_waits.last.pool.taken ++ task_waits.last.pool.queue_head ≡ task_waits.last.pool.added)
unfolding run by
queue-FirstIn_example = queue-FirstIn task_waits.reach refl

freed-joined_example : destroyed.last.pc 0 ≡ exited
unfolding run by
freed-joined_example = freed-joined destroyed.reach refl 0 (omega arith)

never_crashed_example : task_waits.last.pc 0 ≢ crashed
never_crashed_example = never_crashed task_waits.reach 0 (inl (omega arith))

waiting_task_progress_example :
    (i : ℕ) × ((holds (task_waits.last.pc i) ≡ true) ⊎ (awake (task_waits.last.pc i) ≡ true))
    × CanGo task_waits.last i
unfolding run by
waiting_task_progress_example =
    waiting_task_progress (omega arith) task_waits.reach refl (λ x. ground arith)

-- The assertion of `pool_add_worker` can fail while another client frees the list.
assertion_fails :
    (run 1 (
        add_by 2 7 ∷ destroy_by 1 ∷ by 1 2
        ++ broadcast_by 1 ∷ by 0 4
        ++ join_by 1 ∷ by 2 2
        ++ by 1 3
        ++ by 2 1)).last.pc
      2
    ≡ crashed
unfolding run by
assertion_fails = refl
