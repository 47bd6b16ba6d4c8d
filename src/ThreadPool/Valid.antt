-- ===== src/ThreadPool/Valid.antt =====
-- example_thread_pool.cpp: what holds of the pool and of the places of its threads.
use mathlib.Core.List.{append_assoc}
use uc.Prelude.{
  ℕ, ◌+◌, ◌≡◌, ◌≢◌, ◌≤◌, ◌<◌, refl, ap, arith, none, some, List, [], ◌∷◌, ◌++◌, Bool, true, false,
  length,
}
use uc.ThreadPool.{
  Worker, Pool, Pc, locking, testing, to_wait, waiting, woken, checked, leaving, taking, popping,
  unlocking, running, exited, add_linking, add_asserting, add_counting, add_unlocking, signalling,
  joining, draining, unlinking, freeing, link_last, is_null, pop_head,
}

-- A thread in `thread_routine`
abbrev pub in_routine : Pc → Bool
in_routine locking = true
in_routine testing = true
in_routine to_wait = true
in_routine waiting = true
in_routine woken = true
in_routine checked = true
in_routine leaving = true
in_routine taking = true
in_routine popping = true
in_routine (unlocking _) = true
in_routine (running _) = true
in_routine exited = true
in_routine _ = false

-- The thread has `queue_lock`.
abbrev pub holds : Pc → Bool
holds testing = true
holds to_wait = true
holds checked = true
holds leaving = true
holds taking = true
holds popping = true
holds (unlocking _) = true
holds (add_linking _) = true
holds add_asserting = true
holds add_counting = true
holds add_unlocking = true
holds _ = false

-- By how much `cur_queue_size` is behind the list
abbrev pub lag : Pc → ℕ
lag popping = 1
lag add_asserting = 1
lag add_counting = 1
lag _ = 0

-- The thread comes to the list, or is about to wake one that does.
abbrev pub awake : Pc → Bool
awake locking = true
awake testing = true
awake to_wait = true
awake woken = true
awake checked = true
awake leaving = true
awake taking = true
awake popping = true
awake (unlocking _) = true
awake (running _) = true
awake add_asserting = true
awake add_counting = true
awake add_unlocking = true
awake signalling = true
awake _ = false

-- What a thread has read of the pool and relies on
abbrev pub IsFresh : Pool → Pc → Type 0
IsFresh m to_wait = m.cur_queue_size ≡ 0
IsFresh m checked = m.shutdown ≡ false → 0 < m.cur_queue_size
IsFresh m taking = 0 < m.cur_queue_size
IsFresh m leaving = m.shutdown ≡ true
IsFresh m exited = m.shutdown ≡ true
IsFresh m draining = m.drained ≡ true
IsFresh m unlinking = m.drained ≡ true
IsFresh m freeing = m.drained ≡ true
IsFresh m _ = Unit

-- The threads that a client has seen the end of
abbrev pub seen : ℕ → Pc → ℕ
seen n (joining k) = k
seen n draining = n
seen n unlinking = n
seen n freeing = n
seen n _ = 0

pub record IsValid (n : ℕ) (m : Pool) (pc : ℕ → Pc) : Type 0 where
  pub threads : m.max_thread_num ≡ n
  pub routines : (i : ℕ) → i < n → in_routine (pc i) ≡ true
  pub clients : (i : ℕ) → n ≤ i → in_routine (pc i) ≡ false
  pub held : (i : ℕ) → holds (pc i) ≡ true → m.queue_lock ≡ some i
  pub owned : (i : ℕ) → m.drained ≡ false → m.queue_lock ≡ some i → holds (pc i) ≡ true
  pub free : m.drained ≡ false → m.queue_lock ≡ none → m.cur_queue_size ≡ length m.queue_head
  pub counted :
      (i : ℕ)
      → m.drained ≡ false
      → holds (pc i) ≡ true
      → m.cur_queue_size + lag (pc i) ≡ length m.queue_head
  pub fresh : (i : ℕ) → IsFresh m (pc i)
  pub joined : (i j : ℕ) → j < seen n (pc i) → j < n → pc j ≡ exited
  pub gone : m.alive ≡ false → m.drained ≡ true
  pub freed : (j : ℕ) → m.drained ≡ true → j < n → pc j ≡ exited
  pub ordered : m.drained ≡ false → m.taken ++ m.queue_head ≡ m.added

pub length-link_last : (ws : List Worker) (w : Worker) → length (link_last ws w) ≡ length ws + 1
unfolding link_last
length-link_last [] w = refl
length-link_last (x ∷ ws) w = omega (arith, length-link_last ws w)

pub is_null-link_last : (ws : List Worker) (w : Worker) → is_null (link_last ws w) ≡ false
unfolding link_last is_null
is_null-link_last [] w = refl
is_null-link_last (x ∷ ws) w = refl

pub link_last_lem : (ws : List Worker) (w : Worker) → link_last ws w ≡ ws ++ w ∷ []
unfolding link_last
link_last_lem [] w = refl
link_last_lem (x ∷ ws) w = ap (x ∷◌) (link_last_lem ws w)

pub is_null-eq : (ws : List Worker) → length ws ≢ 0 → is_null ws ≡ false
unfolding is_null
is_null-eq [] h = absurd (h refl)
is_null-eq (w ∷ ws) h = refl

pub pop_head-history :
    (m : Pool) {m' : Pool} {p' : Pc} (ws : List Worker)
    → pop_head m ws ≡ some (m', p')
    → ws ≢ []
    → (m'.taken ++ m'.queue_head ≡ m.taken ++ ws) × (m'.added ≡ m.added)
unfolding pop_head
pop_head-history m [] h ne = absurd (ne refl)
pop_head-history m (w ∷ ws) h ne = ground (arith, append_assoc m.taken (w ∷ []) ws)
