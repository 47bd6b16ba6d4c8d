-- ===== src/ThreadPool/Safety.antt =====
-- example_thread_pool.cpp: the lock, the assertions, the order of the tasks and the end of the pool.
use uc.Prelude.{ℕ, ◌≡◌, ◌≢◌, ◌<◌, ◌⊎◌, inl, inr, arith, none, ◌++◌, true, false, length}
use uc.ThreadPool.{
  exited, crashed, System, Step, go, call_add, call_destroy, signal, signal_none, broadcast, join,
  spurious, Reach, start, later,
}
use uc.ThreadPool.Valid.{holds}
use uc.ThreadPool.Moves.{move-crashed, move-drained}
use uc.ThreadPool.Invariant.{Reach-IsValid}

-- In every state that the program comes to, at most one thread is between the lock and the unlock
-- of `queue_lock`, however many threads and clients there are.
pub mutual_exclusion :
    {n : ℕ} {s : System}
    → Reach n s
    → (i j : ℕ) → holds (s.pc i) ≡ true
    → holds (s.pc j) ≡ true
    → i ≡ j
mutual_exclusion {s} r i j a b = ground (arith, held i a, held j b)
  where
    open (Reach-IsValid r) use {held}

-- Until a `pool_destroy` has joined every thread and comes to free the list, `cur_queue_size` is the length of the list whenever no thread has the
-- lock, and the workers taken out of the list, followed by those in it, are those put into it, in
-- the order of their calls: each is taken once, and the first in is the first out.
pub queue-FirstIn :
    {n : ℕ} {s : System}
    → Reach n s
    → s.pool.drained ≡ false
    → (s.pool.queue_lock ≡ none → s.pool.cur_queue_size ≡ length s.pool.queue_head)
      × (s.pool.taken ++ s.pool.queue_head ≡ s.pool.added)
queue-FirstIn r a = (free a, ordered a)
  where
    open (Reach-IsValid r) use {free, ordered}

-- Once the pool is freed, every thread of it has exited.
pub freed-joined :
    {n : ℕ} {s : System} → Reach n s → s.pool.alive ≡ false → (j : ℕ) → j < n → s.pc j ≡ exited
freed-joined {s} r d j lt = freed j (gone d) lt
  where
    open (Reach-IsValid r) use {gone, freed}

Step-drained : {s t : System} → Step s t → t.pool.drained ≡ false → s.pool.drained ≡ false
Step-drained (go i h) a = move-drained _ i _ h a
Step-drained (call_add i w e) a = a
Step-drained (call_destroy i e) a = a
Step-drained (signal i j l e f) a = a
Step-drained (signal_none i l e f) a = a
Step-drained (broadcast i l e) a = a
Step-drained (join i k l e lt x) a = a
Step-drained (spurious j e) a = a

-- Until then no thread and no client has crashed.
before-ne-crashed :
    {n : ℕ} {s : System} → Reach n s → s.pool.drained ≡ false → (i : ℕ) → s.pc i ≢ crashed
before-ne-crashed start a i = λ e. ground arith
before-ne-crashed (later r (go j h)) a i =
    move-crashed (Reach-IsValid r) j h a i (before-ne-crashed r (move-drained _ j _ h a) i)
before-ne-crashed (later r (call_add j w e)) a i = λ x. ground (arith, before-ne-crashed r a i)
before-ne-crashed (later r (call_destroy j e)) a i = λ x. ground (arith, before-ne-crashed r a i)
before-ne-crashed (later r (signal j k l e f)) a i = λ x. ground (arith, before-ne-crashed r a i)
before-ne-crashed (later r (signal_none j l e f)) a i = λ x. ground (arith, before-ne-crashed r a i)
before-ne-crashed (later {s} r (broadcast j l e)) a i = λ x. ground (arith, before-ne-crashed r a i)
before-ne-crashed (later r (join j k l e lt y)) a i = λ x. ground (arith, before-ne-crashed r a i)
before-ne-crashed (later r (spurious j e)) a i = λ x. ground (arith, before-ne-crashed r a i)

-- No thread of the pool fails one of its assertions or reads the pool after it is freed, in any
-- state; and until a `pool_destroy` has joined every thread and comes to free the list, no client
-- fails the assertion of `pool_add_worker`.
pub never_crashed :
    {n : ℕ} {s : System}
    → Reach n s
    → (i : ℕ) → (i < n) ⊎ (s.pool.drained ≡ false)
    → s.pc i ≢ crashed
never_crashed r i (inl lt) = λ e. ground (arith, (Reach-IsValid r).routines i lt)
never_crashed r i (inr a) = before-ne-crashed r a i
