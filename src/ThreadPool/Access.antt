-- ===== src/ThreadPool/Access.antt =====
-- example_thread_pool.cpp: an access of one thread before a `pool_destroy` frees the list.
use mathlib.Core.List.{append_assoc}
use uc.Prelude.{
  ℕ, ◌+◌, ◌≡◌, ◌≢◌, ◌<◌, ◌⊎◌, refl, arith, none, some, List, [], ◌∷◌, ◌++◌, true, false, length,
}
use uc.ThreadPool.{
  Worker, Pool, Pc, to_wait, leaving, taking, popping, exited, add_linking, add_asserting,
  unlinking, freeing, crashed, update, is_null, lock, pop_head, drop_head, access,
}
use uc.ThreadPool.Valid.{
  in_routine, holds, lag, awake, IsFresh, seen, IsValid, length-link_last, link_last_lem,
  is_null-eq, pop_head-history,
}

length-zero : (ws : List Worker) → length ws ≡ 0 → ws ≡ []
length-zero [] h = refl
length-zero (w ∷ ws) h = absurd (omega arith)

-- What a `pool_destroy` has begun is not taken back.
pub access-drained :
    (m : Pool) {m' : Pool} {p' : Pc} (i : ℕ) (p : Pc)
    → access m i p ≡ some (m', p')
    → m'.drained ≡ false
    → m.drained ≡ false
unfolding access lock pop_head drop_head
access-drained m i p h a = ground arith

-- An access of thread `i`, which stands at `p`, before a `pool_destroy` comes to the list.
module _ {n : ℕ} {m : Pool} {pc : ℕ → Pc} (v : IsValid n m pc) (i : ℕ) where
  open v use {free, counted, held, owned, fresh, ordered, joined}

  IsFresh-at : (p : Pc) → pc i ≡ p → IsFresh m p
  IsFresh-at p e = rw (← e) (fresh i)

  counted_at :
      (p : Pc)
      → pc i ≡ p
      → m.drained ≡ false
      → holds p ≡ true
      → m.cur_queue_size + lag p ≡ length m.queue_head
  counted_at p e a h = rw (← e) (counted i a (rw e h))

  -- Both assertions of `thread_routine` hold, and the list is not empty when its head is taken.
  taking-list : m.drained ≡ false → pc i ≡ taking → is_null m.queue_head ≡ false
  taking-list a e =
      is_null-eq m.queue_head (omega (arith, IsFresh-at taking e, counted_at taking e a refl))

  -- The assertion of `pool_add_worker` holds.
  asserting-list : m.drained ≡ false → pc i ≡ add_asserting → is_null m.queue_head ≡ false
  asserting-list a e = is_null-eq m.queue_head (omega (arith, counted_at add_asserting e a refl))

  pub access-routine :
      (p : Pc) {m' : Pool} {p' : Pc}
      → pc i ≡ p
      → m.drained ≡ false
      → access m i p ≡ some (m', p')
      → in_routine p' ≡ in_routine p
  unfolding access lock pop_head drop_head
  access-routine taking e a h = ground (arith, taking-list a e, fresh i)
  access-routine popping e a h = ground (arith, counted i a)
  access-routine p e a h = ground arith

  -- What an access does to the fields of `IsValid`
  module _ {m' : Pool} {p' : Pc} where
    pub access-pool :
        (p : Pc)
        → pc i ≡ p
        → m.drained ≡ false
        → access m i p ≡ some (m', p')
        → (m'.max_thread_num ≡ m.max_thread_num) × (m.shutdown ≡ true → m'.shutdown ≡ true)
    unfolding access lock pop_head drop_head
    access-pool taking e a h = ground (arith, taking-list a e, fresh i)
    access-pool popping e a h = ground (arith, counted i a)
    access-pool p e a h = ground arith

    pub access-crashed :
        (p : Pc) → pc i ≡ p → m.drained ≡ false → access m i p ≡ some (m', p') → p' ≢ crashed
    unfolding access lock pop_head drop_head
    access-crashed taking e a h = λ x. ground (arith, taking-list a e, fresh i)
    access-crashed popping e a h = λ x. ground (arith, counted_at popping e a refl)
    access-crashed add_asserting e a h = λ x. ground (arith, asserting-list a e)
    access-crashed unlinking e a h = absurd (ground (arith, IsFresh-at unlinking e))
    access-crashed p e a h = λ x. ground arith

    pub access-held :
        (p : Pc)
        → pc i ≡ p
        → m.drained ≡ false
        → access m i p ≡ some (m', p')
        → (j : ℕ) → holds (update pc i p' j) ≡ true
        → m'.queue_lock ≡ some j
    unfolding access lock pop_head drop_head
    access-held taking e a h j q = ground (arith, taking-list a e, held i, held j)
    access-held p e a h j q = ground (arith, held i, held j)

    pub access-owned :
        (p : Pc)
        → pc i ≡ p
        → m.drained ≡ false
        → access m i p ≡ some (m', p')
        → (j : ℕ) → m'.drained ≡ false
        → m'.queue_lock ≡ some j
        → holds (update pc i p' j) ≡ true
    unfolding access lock pop_head drop_head
    access-owned taking e a h j b q =
        ground (arith, taking-list a e, IsFresh-at taking e, held i, owned j)
    access-owned popping e a h j b q = ground (arith, counted_at popping e a refl, held i, owned j)
    access-owned add_asserting e a h j b q = ground (arith, asserting-list a e, held i, owned j)
    access-owned unlinking e a h j b q = absurd (ground (arith, IsFresh-at unlinking e))
    access-owned p e a h j b q = ground (arith, held i, owned j)

    pub access-free :
        (p : Pc)
        → pc i ≡ p
        → m.drained ≡ false
        → access m i p ≡ some (m', p')
        → m'.drained ≡ false
        → m'.queue_lock ≡ none
        → m'.cur_queue_size ≡ length m'.queue_head
    unfolding access lock pop_head drop_head
    access-free unlinking e a h b q = absurd (ground (arith, IsFresh-at unlinking e))
    access-free p e a h b q = ground (arith, counted i a, held i, free a)

    pub access-counted :
        (p : Pc)
        → pc i ≡ p
        → m.drained ≡ false
        → access m i p ≡ some (m', p')
        → (j : ℕ) → m'.drained ≡ false
        → holds (update pc i p' j) ≡ true
        → m'.cur_queue_size + lag (update pc i p' j) ≡ length m'.queue_head
    unfolding access lock pop_head drop_head
    access-counted taking e a h j b q = ground (
      arith,
      taking-list a e,
      IsFresh-at taking e,
      counted_at taking e a refl,
      counted j a,
      held i,
      held j,
    )
    access-counted (add_linking w) e a h j b q = ground (
      arith,
      length-link_last m.queue_head w,
      counted_at (add_linking w) e a refl,
      counted j a,
      held i,
      held j,
    )
    access-counted unlinking e a h j b q = absurd (ground (arith, IsFresh-at unlinking e))
    access-counted p e a h j b q = ground (arith, counted i a, counted j a, held i, held j, free a)

    pub access-IsFresh :
        (p : Pc)
        → pc i ≡ p
        → m.drained ≡ false
        → access m i p ≡ some (m', p')
        → (j : ℕ) → IsFresh m' (update pc i p' j)
    unfolding access lock pop_head drop_head
    access-IsFresh p e a h j = ground (arith, fresh i, fresh j, counted i a, held i, held j)

    pub access-ordered :
        (p : Pc)
        → pc i ≡ p
        → m.drained ≡ false
        → access m i p ≡ some (m', p')
        → m'.drained ≡ false
        → m'.taken ++ m'.queue_head ≡ m'.added
    unfolding access lock pop_head drop_head
    access-ordered popping e a h b =
        ground (arith, ordered a, counted_at popping e a refl, pop_head-history m m.queue_head h)
    access-ordered (add_linking w) e a h b =
        ground (
          arith,
          ordered a,
          link_last_lem m.queue_head w,
          append_assoc m.taken m.queue_head (w ∷ []),
        )
    access-ordered unlinking e a h b = absurd (ground (arith, IsFresh-at unlinking e))
    access-ordered p e a h b = ground (arith, ordered a)

    pub access-joined :
        (p : Pc)
        → pc i ≡ p
        → m.drained ≡ false
        → access m i p ≡ some (m', p')
        → (a b : ℕ) → b < seen n (update pc i p' a)
        → b < n
        → update pc i p' b ≡ exited
    unfolding access lock pop_head drop_head
    access-joined p e l h a b q lt = ground (arith, joined i b, joined a b, v.threads)

    pub access-gone :
        (p : Pc)
        → pc i ≡ p
        → m.drained ≡ false
        → access m i p ≡ some (m', p')
        → m'.alive ≡ false
        → m'.drained ≡ true
    unfolding access lock pop_head drop_head
    access-gone freeing e a h d = absurd (ground (arith, IsFresh-at freeing e))
    access-gone p e a h d = ground (arith, v.gone)

    pub access-freed :
        (p : Pc)
        → pc i ≡ p
        → m.drained ≡ false
        → access m i p ≡ some (m', p')
        → (j : ℕ) → m'.drained ≡ true
        → j < n
        → update pc i p' j ≡ exited
    unfolding access lock pop_head drop_head
    access-freed p e l h j d lt = ground (arith, joined i j)

    -- While the list is not empty and `shutdown` is not set, an access leaves its thread awake, or
    -- the list was not empty before and its thread was not awake.
    pub access-awake :
        (p : Pc)
        → pc i ≡ p
        → m.drained ≡ false
        → access m i p ≡ some (m', p')
        → m'.drained ≡ false
        → m'.shutdown ≡ false
        → m'.queue_head ≢ []
        → (awake p' ≡ true) ⊎ (awake p ≡ false) × (m.queue_head ≢ [])
    unfolding access lock pop_head drop_head
    access-awake to_wait e a h l d ne = absurd (
        ne (
          length-zero m'.queue_head
            (ground (arith, IsFresh-at to_wait e, counted_at to_wait e a refl))))
    access-awake leaving e a h l d ne = ground (arith, IsFresh-at leaving e)
    access-awake taking e a h l d ne = ground (arith, taking-list a e, fresh i)
    access-awake popping e a h l d ne = ground (arith, counted_at popping e a refl)
    access-awake p e a h l d ne = ground arith
