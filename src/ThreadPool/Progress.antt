-- ===== src/ThreadPool/Progress.antt =====
-- example_thread_pool.cpp: no deadlock while there is a task in the list.
use uc.Prelude.{
  ℕ, suc, ◌≡◌, ◌≢◌, ◌<◌, ◌⊎◌, inl, inr, refl, arith, none, List, [], ◌∷◌, true, false, Option-cases,
  Bool-cases,
}
use uc.ThreadPool.{
  Worker, Pool, Pc, waiting, popping, exited, add_locking, signalling, destroying, joining, update,
  lock, pop_head, access, move, System, Step, go, call_add, call_destroy, signal, signal_none,
  broadcast, join, spurious, Reach, start, later,
}
use uc.ThreadPool.Valid.{in_routine, holds, awake, IsValid}
use uc.ThreadPool.Moves.{move-access, move-drained, move-awake, move-shutdown}
use uc.ThreadPool.Invariant.{Reach-IsValid}

-- Some thread comes to the list, or is about to wake one that does.
abbrev IsAwake : System → Type 0
IsAwake s = (i : ℕ) × (awake (s.pc i) ≡ true)

-- A thread of the pool that does not wait and has not exited is awake.
routine-awake : (p : Pc) → in_routine p ≡ true → p ≢ waiting → p ≢ exited → awake p ≡ true
routine-awake waiting h a b = absurd (a refl)
routine-awake exited h a b = absurd (b refl)
routine-awake p h a b = ground arith

-- A change of place of thread `i` that does not put it to sleep keeps some thread awake.
update-awake :
    (pc : ℕ → Pc) (i : ℕ) (p' : Pc) (k : ℕ)
    → awake (pc k) ≡ true
    → (awake p' ≡ true) ⊎ (awake (pc i) ≡ false)
    → (j : ℕ) × (awake (update pc i p' j) ≡ true)
update-awake pc i p' k a (inl b) = (i, ground arith)
update-awake pc i p' k a (inr b) = (k, ground arith)

Step-IsAwake :
    {n : ℕ} {s t : System}
    → 0 < n
    → IsValid n s.pool s.pc
    → Step s t
    → t.pool.drained ≡ false
    → t.pool.shutdown ≡ false
    → t.pool.queue_head ≢ []
    → (s.pool.drained ≡ false → s.pool.shutdown ≡ false → s.pool.queue_head ≢ [] → IsAwake s)
    → IsAwake t
Step-IsAwake {s} pos v (go i {m} {p} h) l d ne before =
    let l' : s.pool.drained ≡ false = move-drained s.pool i (s.pc i) h l in
    let d' : s.pool.shutdown ≡ false = move-shutdown v i h l d in
    elim (move-awake v i h l d ne) [
      | inl b ↦ (i, ground arith)
      | inr b ↦ let (k, a) = before l' d' b.1 in update-awake s.pc i p k a (inr b.0)
    ]
Step-IsAwake {s} pos v (call_add i w e) l d ne before =
    let (k, a) = before l d ne in update-awake s.pc i (add_locking w) k a (inr (rw e))
Step-IsAwake {s} pos v (call_destroy i e) l d ne before =
    let (k, a) = before l d ne in update-awake s.pc i destroying k a (inr (rw e))
Step-IsAwake {s} pos v (signal i j x e f) l d ne before = (j, ground arith)
Step-IsAwake {s} pos v (signal_none i x e f) l d ne before = (
  0,
  ground (arith, routine-awake (s.pc 0) (v.routines 0 pos) (f 0), v.routines 0 pos, v.fresh 0),
)
Step-IsAwake {s} pos v (broadcast i x e) l d ne before =
    let (k, a) = before l d ne in (k, ground arith)
Step-IsAwake {s} pos v (join i k x e lt y) l d ne before =
    let (k', a) = before l d ne in update-awake s.pc i (joining (suc k)) k' a (inr (rw e))
Step-IsAwake {s} pos v (spurious j e) l d ne before = (j, ground arith)

Reach-IsAwake :
    {n : ℕ} {s : System}
    → 0 < n
    → Reach n s
    → s.pool.drained ≡ false
    → s.pool.shutdown ≡ false
    → s.pool.queue_head ≢ []
    → IsAwake s
Reach-IsAwake pos start l d ne = absurd (ne refl)
Reach-IsAwake pos (later r st) l d ne =
    Step-IsAwake pos (Reach-IsValid r) st l d ne (Reach-IsAwake pos r)

-- The next access of the thread goes through, or it is about to signal, which does not block.
abbrev pub CanGo : System → ℕ → Type 0
CanGo s i = (move s.pool i (s.pc i) ≢ none) ⊎ (s.pc i ≡ signalling)

pop_head-ne-none : (m : Pool) (ws : List Worker) → pop_head m ws ≢ none
unfolding pop_head
pop_head-ne-none m [] = λ x. ground arith
pop_head-ne-none m (w ∷ ws) = λ x. ground arith

-- The owner of the lock is not blocked.
holds-access : (m : Pool) (i : ℕ) (p : Pc) → holds p ≡ true → access m i p ≢ none
unfolding access lock
holds-access m i popping h = pop_head-ne-none m m.queue_head
holds-access m i p h = λ x. ground arith

awake-access :
    (m : Pool) (i : ℕ) (p : Pc)
    → awake p ≡ true
    → m.queue_lock ≡ none
    → (access m i p ≢ none) ⊎ (p ≡ signalling)
unfolding access lock
awake-access m i signalling h f = inr refl
awake-access m i popping h f = inl (pop_head-ne-none m m.queue_head)
awake-access m i p h f = inl (λ x. ground arith)

-- Without `shutdown`, a pool with a thread is not yet drained.
before_shutdown :
    {n : ℕ} {m : Pool} {pc : ℕ → Pc}
    → 0 < n
    → IsValid n m pc
    → m.shutdown ≡ false
    → m.drained ≡ false
before_shutdown {m} {pc} pos v d = elim (Bool-cases m.drained) [
  | inr e ↦ e
  | inl e ↦ absurd (ground (arith, v.freed 0 e pos, v.fresh 0))
]

-- The pool does not come to a deadlock with a task in its list: in every state that a pool of at
-- least one thread comes to, with a task in the list and without `shutdown`, some thread or client
-- is not blocked, which has the lock, or comes to the list, or is about to signal to a thread: its
-- next access goes through, where a task that runs is taken to return, or its next step is that
-- signal.
pub waiting_task_progress :
    {n : ℕ} {s : System}
    → 0 < n
    → Reach n s
    → s.pool.shutdown ≡ false
    → s.pool.queue_head ≢ []
    → (i : ℕ) × ((holds (s.pc i) ≡ true) ⊎ (awake (s.pc i) ≡ true)) × CanGo s i
waiting_task_progress {s} pos r d ne =
    let v = Reach-IsValid r in
    let l : s.pool.drained ≡ false = before_shutdown pos v d in
    elim (Option-cases s.pool.queue_lock) [
      | inl free ↦
          let (k, a) = Reach-IsAwake pos r l d ne in
          (
            k,
            inr a,
            elim (awake-access s.pool k (s.pc k) a free) [
              | inl goes ↦ inl (rw (move-access v k (s.pc k) l) goes)
              | inr sig ↦ inr sig
            ],
          )
      | inr (o, e) ↦
          let h : holds (s.pc o) ≡ true = v.owned o l e in
          (o, inl h, inl (rw (move-access v o (s.pc o) l) (holds-access s.pool o (s.pc o) h)))
    ]
