-- ===== src/ThreadPool.antt =====
-- example_thread_pool.cpp: a pool of threads that take tasks from a linked list under a mutex.
--
-- A state has the pool and the place of each thread. The threads below `max_thread_num` run
-- `thread_routine`; the others are clients that call `pool_add_worker` and `pool_destroy`. A thread
-- goes from one access of shared state to the next, and the steps of the threads come in any order.
mod Valid
mod Access
mod Moves
mod Invariant
pub mod Safety
pub mod Progress
mod Tests
use uc.Prelude.{
  ℕ, zero, suc, ◌+◌, ◌-◌, ◌≡◌, ◌≢◌, ◌≤◌, ◌<◌, Option, none, some, List, [], ◌∷◌, ◌++◌, Bool, true,
  false, not, ◌&&◌, ◌||◌, ltb, leb, ◌==◌, if◌then◌else◌,
}

-- `CThread_worker`: a function and its argument, each by a number
pub record Worker : Type 0 where
  pub process : ℕ
  pub arg : ℕ

-- `CThread_pool`, with the thread that holds `queue_lock`, and with `alive` until the mutex, the
-- condition and the pool are given back, from where on every use of them is undefined.
-- `queue_head` is the list of the workers from the head on. The last three are the history: whether
-- a `pool_destroy` has joined every thread and come to the loop that frees the list, the workers put
-- into the list, and those that threads have taken out of it. No code reads these three.
pub record Pool : Type 0 where
  pub queue_lock : Option ℕ
  pub queue_head : List Worker
  pub shutdown : Bool
  pub max_thread_num : ℕ
  pub cur_queue_size : ℕ
  pub alive : Bool
  pub drained : Bool
  pub added : List Worker
  pub taken : List Worker

-- Where a thread stands: in `thread_routine` up to `exited`, or a client.
pub data Pc : Type 0 where
  locking : Pc  -- before the lock
  testing : Pc  -- at the condition of the inner loop
  to_wait : Pc  -- before `pthread_cond_wait`
  waiting : Pc  -- in it, blocked
  woken : Pc  -- in it, before it has the lock again
  checked : Pc  -- behind the inner loop
  leaving : Pc  -- before the unlock and the exit
  taking : Pc  -- before the assertions
  popping : Pc  -- `cur_queue_size` is counted down
  unlocking : Worker → Pc  -- with the worker, before the unlock
  running : Worker → Pc  -- before the call of `process`
  exited : Pc
  outside : Pc  -- a client in no call
  add_locking : Worker → Pc  -- `pool_add_worker` before the lock
  add_linking : Worker → Pc
  add_asserting : Pc  -- `newworker` is in the list
  add_counting : Pc
  add_unlocking : Pc
  signalling : Pc  -- before `pthread_cond_signal`
  destroying : Pc  -- start of `pool_destroy`
  setting : Pc  -- before `shutdown` is set
  broadcasting : Pc  -- before `pthread_cond_broadcast`
  joining : ℕ → Pc  -- before the join of a thread, or the end of that loop
  draining : Pc  -- at the condition of the loop that frees the list
  unlinking : Pc  -- in that loop
  freeing : Pc  -- before the end of the mutex, the condition and the pool
  crashed : Pc  -- an assertion has failed, or a freed pool was read

-- The walk of `pool_add_worker` to the last member, and the link behind it.
unfoldable pub link_last : List Worker → Worker → List Worker
link_last [] newworker = newworker ∷ []
link_last (member ∷ rest) newworker = member ∷ link_last rest newworker

unfoldable pub is_null : List Worker → Bool
is_null [] = true
is_null (w ∷ ws) = false

-- `pthread_mutex_lock` by thread `i`, which blocks while another thread has the lock.
unfoldable pub lock : Pool → ℕ → Pc → Option (Pool × Pc)
lock m i p = elim m.queue_lock [ none ↦ some (record m { queue_lock = some i }, p) | some _ ↦ none ]

-- The worker is taken off the head of the list.
unfoldable pub pop_head : Pool → List Worker → Option (Pool × Pc)
pop_head m [] = some (m, crashed)
pop_head m (w ∷ ws) = some (record m { queue_head = ws; taken = m.taken ++ w ∷ [] }, unlocking w)

-- A round of the loop of `pool_destroy`, which takes the head off the list without the lock.
unfoldable pub drop_head : Pool → List Worker → Option (Pool × Pc)
drop_head m [] = some (m, crashed)
drop_head m (w ∷ ws) = some (record m { queue_head = ws }, draining)

-- The next access of thread `i`, which stands at `p`; `none` where it is blocked or where its step
-- is one that another thread has a part in. The worker is linked behind the last in one access, under
-- the lock. The mutex, the condition and the pool end in one access, from which on every use of them
-- by another thread is undefined.
unfoldable pub access : Pool → ℕ → Pc → Option (Pool × Pc)
unfolding lock pop_head drop_head link_last is_null
access m i locking = lock m i testing
access m i testing = some (m, if m.cur_queue_size == 0 && not m.shutdown then to_wait else checked)
access m i to_wait = some (record m { queue_lock = none }, waiting)
access m i waiting = none
access m i woken = lock m i testing
access m i checked = some (m, if m.shutdown then leaving else taking)
access m i leaving = some (record m { queue_lock = none }, exited)
access m i taking =
    if m.cur_queue_size == 0 || is_null m.queue_head
    then some (m, crashed)
    else some (record m { cur_queue_size = m.cur_queue_size - 1 }, popping)
access m i popping = pop_head m m.queue_head
access m i (unlocking w) = some (record m { queue_lock = none }, running w)
access m i (running w) = some (m, locking)
access m i exited = none
access m i outside = none
access m i (add_locking w) = lock m i (add_linking w)
access m i (add_linking w) =
    some
      (record m { queue_head = link_last m.queue_head w; added = m.added ++ w ∷ [] }, add_asserting)
access m i add_asserting = some (m, if is_null m.queue_head then crashed else add_counting)
access m i add_counting = some (record m { cur_queue_size = m.cur_queue_size + 1 }, add_unlocking)
access m i add_unlocking = some (record m { queue_lock = none }, signalling)
access m i signalling = none
access m i destroying = some (m, if m.shutdown then outside else setting)
access m i setting = some (record m { shutdown = true }, broadcasting)
access m i broadcasting = none
access m i (joining k) =
    if ltb k m.max_thread_num then none else some (record m { drained = true }, draining)
access m i draining = some (m, if is_null m.queue_head then freeing else unlinking)
access m i unlinking = drop_head m m.queue_head
access m i freeing = some (record m { alive = false }, outside)
access m i crashed = none

-- The places at which a thread does not read the pool next.
abbrev pub off_pool : Pc → Bool
off_pool waiting = true
off_pool (running _) = true
off_pool exited = true
off_pool outside = true
off_pool crashed = true
off_pool _ = false

-- The same with the reads of a pool that is freed.
unfoldable pub move : Pool → ℕ → Pc → Option (Pool × Pc)
unfolding access
move m i p = if m.alive || off_pool p then access m i p else some (m, crashed)

pub record System : Type 0 where
  pub pool : Pool
  pub pc : ℕ → Pc

-- What a wake-up does to a thread.
abbrev pub wake : Pc → Pc
wake waiting = woken
wake p = p

abbrev pub update {ℓ} : {A : Type ℓ} → (ℕ → A) → ℕ → A → ℕ → A
update f i a j = if j == i then a else f j

-- `pool_init`: every thread runs, and stands before the lock.
abbrev pub pool_init : ℕ → System
pool_init n = record {
  pool = record {
    queue_lock = none;
    queue_head = [];
    shutdown = false;
    max_thread_num = n;
    cur_queue_size = 0;
    alive = true;
    drained = false;
    added = [];
    taken = [];
  };
  pc = λ i. if ltb i n then locking else outside;
}

-- One step of the program. A signal wakes one of the threads that wait, if there is one, and a
-- thread may also be woken without a signal.
pub data Step (s : System) : System → Type 0 where
  go :
      (i : ℕ) {m : Pool} {p : Pc}
      → move s.pool i (s.pc i) ≡ some (m, p)
      → Step s (record { pool = m; pc = update s.pc i p })
  call_add :
      (i : ℕ) (w : Worker)
      → s.pc i ≡ outside
      → Step s (record s { pc = update s.pc i (add_locking w) })
  call_destroy : (i : ℕ) → s.pc i ≡ outside → Step s (record s { pc = update s.pc i destroying })
  signal :
      (i j : ℕ)
      → s.pool.alive ≡ true
      → s.pc i ≡ signalling
      → s.pc j ≡ waiting
      → Step s (record s { pc = update (update s.pc i outside) j woken })
  signal_none :
      (i : ℕ)
      → s.pool.alive ≡ true
      → s.pc i ≡ signalling
      → ((j : ℕ) → s.pc j ≢ waiting)
      → Step s (record s { pc = update s.pc i outside })
  broadcast :
      (i : ℕ)
      → s.pool.alive ≡ true
      → s.pc i ≡ broadcasting
      → Step s (record s { pc = update (λ j. wake (s.pc j)) i (joining 0) })
  join :
      (i k : ℕ)
      → s.pool.alive ≡ true
      → s.pc i ≡ joining k
      → k < s.pool.max_thread_num
      → s.pc k ≡ exited
      → Step s (record s { pc = update s.pc i (joining (suc k)) })
  spurious : (j : ℕ) → s.pc j ≡ waiting → Step s (record s { pc = update s.pc j woken })

pub data Reach (n : ℕ) : System → Type 0 where
  start : Reach n (pool_init n)
  later : {s t : System} → Reach n s → Step s t → Reach n t
