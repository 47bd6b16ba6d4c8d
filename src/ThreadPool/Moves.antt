-- ===== src/ThreadPool/Moves.antt =====
-- example_thread_pool.cpp: an access of one thread, and what it keeps of the pool and the places.
use native.Mathlib.Decide.{dec_lt}
use uc.Prelude.{
  ℕ, ◌≡◌, ◌≢◌, ◌≤◌, ◌⊎◌, inl, inr, refl, sym, ◌∙◌, arith, Option, some, [], true, false, ◌||◌,
  Bool-cases,
}
use uc.ThreadPool.{Pool, Pc, exited, crashed, update, lock, drop_head, access, off_pool, move}
use uc.ThreadPool.Valid.{in_routine, holds, awake, IsFresh, IsValid}
use uc.ThreadPool.Access.{
  access-drained, access-routine, access-pool, access-crashed, access-held, access-owned,
  access-free, access-counted, access-IsFresh, access-ordered, access-joined, access-gone,
  access-freed, access-awake,
}

pub move-drained :
    (m : Pool) {m' : Pool} {p' : Pc} (i : ℕ) (p : Pc)
    → move m i p ≡ some (m', p')
    → m'.drained ≡ false
    → m.drained ≡ false
unfolding move
move-drained m i p h a = ground (arith, access-drained m i p)

-- A thread goes on, or it reads the freed pool.
move-or_crash :
    (m : Pool) {m' : Pool} {p' : Pc} (i : ℕ) (p : Pc)
    → move m i p ≡ some (m', p')
    → (access m i p ≡ some (m', p')) ⊎ (p' ≡ crashed) × (m' ≡ m)
unfolding move
move-or_crash m {m'} {p'} i p h = elim (Bool-cases (m.alive || off_pool p)) [
  | inl go ↦ inl (rw (go, move) at h)
  | inr gone ↦
      let z : ◌≡◌ {A = Option (Pool × Pc)} (some (m, crashed)) (some (m', p')) =
        rw (gone, move) at h in
      inr (ground arith, ground arith)
]

-- Of an access of a client, whatever it does to the list
client-access :
    (n : ℕ) (m : Pool) {m' : Pool} {p' : Pc} (i : ℕ) (p : Pc)
    → in_routine p ≡ false
    → access m i p ≡ some (m', p')
    → (m'.max_thread_num ≡ m.max_thread_num)
      × (m'.shutdown ≡ false → m.shutdown ≡ false)
      × (m.drained ≡ true → m'.drained ≡ true)
      × (in_routine p' ≡ false)
unfolding access lock drop_head
client-access n m i p r h = (ground arith, ground arith, ground arith, ground arith)

client-IsFresh : (m : Pool) (p : Pc) → in_routine p ≡ false → m.drained ≡ true → IsFresh m p
client-IsFresh m p r d = ground arith

-- An access of thread `i`.
module _ {n : ℕ} {m : Pool} {pc : ℕ → Pc} (v : IsValid n m pc) (i : ℕ) where
  open v use {free, counted, held, owned, fresh, ordered, joined}

  alive : m.drained ≡ false → m.alive ≡ true
  alive d = ground (arith, v.gone)

  pub move-access : (p : Pc) → m.drained ≡ false → move m i p ≡ access m i p
  unfolding move
  move-access p d = ground (arith, alive d)

  -- A client that goes on while the list is freed, or that reads the freed pool
  drained-IsValid :
      (m' : Pool) (p' : Pc)
      → m.drained ≡ true
      → n ≤ i
      → m'.max_thread_num ≡ m.max_thread_num
      → (m'.shutdown ≡ false → m.shutdown ≡ false)
      → m'.drained ≡ true
      → in_routine p' ≡ false
      → ((j : ℕ) → holds (update pc i p' j) ≡ true → m'.queue_lock ≡ some j)
      → IsValid n m' (update pc i p')
  drained-IsValid m' p' d le same down d' client has = record {
    threads = ground (arith, v.threads);
    routines = λ j lt. ground (arith, v.routines j lt);
    clients = λ j ge. ground (arith, v.clients j ge);
    held = has;
    owned = λ j a. absurd (ground arith);
    free = λ a. absurd (ground arith);
    counted = λ j a. absurd (ground arith);
    fresh = λ j. elim (dec_lt j n) [
      | yes lt ↦
          let x : update pc i p' j ≡ exited = ground (arith, v.freed j d lt) in
          rw x (ground (arith, v.freed j d lt, fresh j))
      | no ge ↦ client-IsFresh m' (update pc i p' j) (ground (arith, v.clients j (omega arith))) d'
    ];
    joined = λ a b q lt. ground (arith, v.freed b d lt);
    gone = λ _. d';
    freed = λ j _ lt. ground (arith, v.freed j d lt);
    ordered = λ a. absurd (ground arith);
  }

  -- What an access does to the fields of `IsValid`
  module _ {m' : Pool} {p' : Pc} where
    access-IsValid :
        (p : Pc)
        → pc i ≡ p
        → m.drained ≡ false
        → access m i p ≡ some (m', p')
        → IsValid n m' (update pc i p')
    access-IsValid p e a h = record {
      threads = ground (arith, access-pool v i p e a h, v.threads);
      routines = λ j lt. ground (arith, access-routine v i p e a h, v.routines j lt, v.routines i);
      clients = λ j le. ground (arith, access-routine v i p e a h, v.clients j le, v.clients i);
      held = access-held v i p e a h;
      owned = access-owned v i p e a h;
      free = access-free v i p e a h;
      counted = access-counted v i p e a h;
      fresh = access-IsFresh v i p e a h;
      joined = access-joined v i p e a h;
      gone = access-gone v i p e a h;
      freed = access-freed v i p e a h;
      ordered = access-ordered v i p e a h;
    }

    client-held :
        (p : Pc)
        → pc i ≡ p
        → in_routine p ≡ false
        → access m i p ≡ some (m', p')
        → (j : ℕ) → holds (update pc i p' j) ≡ true
        → m'.queue_lock ≡ some j
    unfolding access lock drop_head
    client-held p e r h j q = ground (arith, held i, held j)

    -- A thread of the pool has exited.
    drained-client : m.drained ≡ true → move m i (pc i) ≡ some (m', p') → n ≤ i
    unfolding move access
    drained-client d h = elim (dec_lt i n) [
      | yes lt ↦ absurd (
          let e : pc i ≡ exited = v.freed i d lt in
          let g : move m i exited ≡ some (m', p') = rw e at h in ground arith)
      | no ge ↦ omega arith
    ]

    pub move-IsValid : move m i (pc i) ≡ some (m', p') → IsValid n m' (update pc i p')
    move-IsValid h = elim (Bool-cases m.drained) [
      | inr a ↦ access-IsValid (pc i) refl a (sym (move-access (pc i) a) ∙ h)
      | inl d ↦
          let le = drained-client d h in
          let client = v.clients i le in
          elim (move-or_crash m i (pc i) h) [
            | inl g ↦
                let (same, down, stays, out) = client-access n m i (pc i) client g in
                drained-IsValid _ _ d le same down (stays d) out (client-held (pc i) refl client g)
            | inr (crash, same) ↦
                rw (crash, same)
                  (drained-IsValid _ _ d le refl (λ x. x) d refl (λ j q. ground (arith, held j)))
          ]
    ]

    pub move-crashed :
        move m i (pc i) ≡ some (m', p')
        → m'.drained ≡ false
        → (j : ℕ) → pc j ≢ crashed
        → update pc i p' j ≢ crashed
    move-crashed h a j ne = λ e.
        let l : m.drained ≡ false = move-drained m i (pc i) h a in
        let g : access m i (pc i) ≡ some (m', p') = sym (move-access (pc i) l) ∙ h in
        ground (arith, access-crashed v i (pc i) refl l g)

    pub move-awake :
        move m i (pc i) ≡ some (m', p')
        → m'.drained ≡ false
        → m'.shutdown ≡ false
        → m'.queue_head ≢ []
        → (awake p' ≡ true) ⊎ (awake (pc i) ≡ false) × (m.queue_head ≢ [])
    move-awake h l d ne =
        let a : m.drained ≡ false = move-drained m i (pc i) h l in
        let g : access m i (pc i) ≡ some (m', p') = sym (move-access (pc i) a) ∙ h in
        access-awake v i (pc i) refl a g l d ne

    pub move-shutdown :
        move m i (pc i) ≡ some (m', p')
        → m'.drained ≡ false
        → m'.shutdown ≡ false
        → m.shutdown ≡ false
    move-shutdown h l d =
        let a : m.drained ≡ false = move-drained m i (pc i) h l in
        let g : access m i (pc i) ≡ some (m', p') = sym (move-access (pc i) a) ∙ h in
        ground (arith, access-pool v i (pc i) refl a g)
