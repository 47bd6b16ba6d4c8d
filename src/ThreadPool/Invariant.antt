-- ===== src/ThreadPool/Invariant.antt =====
-- example_thread_pool.cpp: what holds in every state that the program comes to.
use uc.Prelude.{ℕ, suc, ◌≡◌, ◌≢◌, ◌≤◌, refl, arith, true, ◌==◌, eq→==, ne→==}
use native.Mathlib.Decide.{ℕ_discrete}
use uc.ThreadPool.{
  Pool, Pc, waiting, woken, exited, outside, add_locking, signalling, destroying, broadcasting,
  joining, update, wake, System, pool_init, Step, go, call_add, call_destroy, signal, signal_none,
  broadcast, join, spurious, Reach, start, later,
}
use uc.ThreadPool.Valid.{in_routine, holds, lag, IsFresh, seen, IsValid}
use uc.ThreadPool.Moves.{move-IsValid}

-- A change of place that no field of `IsValid` tells apart
record IsAlike (n : ℕ) (m : Pool) (p p' : Pc) : Type 0 where
  routine : in_routine p' ≡ in_routine p
  held : holds p' ≡ holds p
  behind : lag p' ≡ lag p
  freshly : IsFresh m p → IsFresh m p'
  sees : seen n p' ≤ seen n p
  stays : p ≡ exited → p' ≡ exited

IsAlike-refl : (n : ℕ) (m : Pool) (p : Pc) → IsAlike n m p p
IsAlike-refl n m p = record {
  routine = refl;
  held = refl;
  behind = refl;
  freshly = λ f. f;
  sees = omega arith;
  stays = λ e. e;
}

wake-IsAlike : (n : ℕ) (m : Pool) (p : Pc) → IsAlike n m p (wake p)
wake-IsAlike n m waiting = record {
  routine = refl;
  held = refl;
  behind = refl;
  freshly = λ f. tt;
  sees = omega arith;
  stays = λ e. absurd (ground arith);
}
wake-IsAlike n m p = IsAlike-refl n m _

==-refl : (i : ℕ) → (i == i) ≡ true
==-refl i = eq→== i i refl

module _ {n : ℕ} {m : Pool} {pc : ℕ → Pc} (v : IsValid n m pc) where
  alike-IsValid : (pc' : ℕ → Pc) → ((j : ℕ) → IsAlike n m (pc j) (pc' j)) → IsValid n m pc'
  alike-IsValid pc' s = record {
    threads = v.threads;
    routines = λ j lt. ground (arith, v.routines j lt, (s j).routine);
    clients = λ j le. ground (arith, v.clients j le, (s j).routine);
    held = λ j q. ground (arith, v.held j, (s j).held);
    owned = λ j a q. ground (arith, v.owned j a q, (s j).held);
    free = v.free;
    counted = λ j a q. ground (arith, v.counted j a, (s j).held, (s j).behind);
    fresh = λ j. (s j).freshly (v.fresh j);
    joined = λ a b q lt. (s b).stays (v.joined a b (omega (arith, (s a).sees)) lt);
    gone = v.gone;
    freed = λ j d lt. (s j).stays (v.freed j d lt);
    ordered = v.ordered;
  }

  update-IsAlike :
      (i : ℕ) (p' : Pc) → IsAlike n m (pc i) p' → (j : ℕ) → IsAlike n m (pc j) (update pc i p' j)
  update-IsAlike i p' s j = elim (ℕ_discrete j i) [
    | yes e ↦ rw (e, ==-refl i) s
    | no ne ↦ rw (ne→== j i ne) (IsAlike-refl n m (pc j))
  ]

  update-IsValid : (i : ℕ) (p' : Pc) → IsAlike n m (pc i) p' → IsValid n m (update pc i p')
  update-IsValid i p' s = alike-IsValid (update pc i p') (update-IsAlike i p' s)

  join-IsValid :
      (i k : ℕ) → pc i ≡ joining k → pc k ≡ exited → IsValid n m (update pc i (joining (suc k)))
  join-IsValid i k e x = record {
    threads = v.threads;
    routines = λ j lt. ground (arith, v.routines j lt);
    clients = λ j le. ground (arith, v.clients j le);
    held = λ j q. ground (arith, v.held j);
    owned = λ j a q. ground (arith, v.owned j a q);
    free = v.free;
    counted = λ j a q. ground (arith, v.counted j a);
    fresh = λ j. ground (arith, v.fresh j);
    joined = λ a b q lt. elim (ℕ_discrete b k) [
      | yes same ↦ ground arith
      | no other ↦ ground (arith, v.joined a b, v.joined i b)
    ];
    gone = v.gone;
    freed = λ j d lt. ground (arith, v.freed j d lt);
    ordered = v.ordered;
  }

  -- The changes of place of the steps that are not an access
  place : (i : ℕ) (p p' : Pc) → pc i ≡ p → IsAlike n m p p' → IsValid n m (update pc i p')
  place i p p' e s = update-IsValid i p' (rw e s)

-- A change of a client's place, or of one that waits
call-IsAlike :
    {n : ℕ} {m : Pool} (p p' : Pc)
    → in_routine p' ≡ in_routine p
    → holds p' ≡ holds p
    → lag p' ≡ lag p
    → IsFresh m p'
    → seen n p' ≤ seen n p
    → p ≢ exited
    → IsAlike n m p p'
call-IsAlike p p' a b c f le ne = record {
  routine = a;
  held = b;
  behind = c;
  freshly = λ _. f;
  sees = le;
  stays = λ e. absurd (ne e);
}

pub Step-IsValid : {n : ℕ} {s t : System} → IsValid n s.pool s.pc → Step s t → IsValid n t.pool t.pc
Step-IsValid v (go i h) = move-IsValid v i h
Step-IsValid v (call_add i w e) =
    place v i outside (add_locking w) e
      (call-IsAlike outside (add_locking w) refl refl refl tt (omega arith) (ground arith))
Step-IsValid v (call_destroy i e) =
    place v i outside destroying e
      (call-IsAlike outside destroying refl refl refl tt (omega arith) (ground arith))
Step-IsValid v (signal i j a e f) =
    place
      (place v i signalling outside e
        (call-IsAlike signalling outside refl refl refl tt (omega arith) (ground arith)))
      j waiting woken (ground arith) (wake-IsAlike _ _ waiting)
Step-IsValid v (signal_none i a e f) =
    place v i signalling outside e
      (call-IsAlike signalling outside refl refl refl tt (omega arith) (ground arith))
Step-IsValid {s} v (broadcast i a e) =
    place (alike-IsValid v (λ j. wake (s.pc j)) (λ j. wake-IsAlike _ _ (s.pc j))) i broadcasting
      (joining 0) (rw e)
      (call-IsAlike broadcasting (joining 0) refl refl refl tt (omega arith) (ground arith))
Step-IsValid v (join i k a e lt x) = join-IsValid v i k e x
Step-IsValid v (spurious j e) = place v j waiting woken e (wake-IsAlike _ _ waiting)

pool_init-IsValid : (n : ℕ) → IsValid n (pool_init n).pool (pool_init n).pc
pool_init-IsValid n = record {
  threads = refl;
  routines = λ j lt. ground arith;
  clients = λ j le. ground arith;
  held = λ j q. absurd (ground arith);
  owned = λ j a q. absurd (ground arith);
  free = λ a q. refl;
  counted = λ j a q. absurd (ground arith);
  fresh = λ j. ground arith;
  joined = λ a b q lt. absurd (ground arith);
  gone = λ d. absurd (ground arith);
  freed = λ j d lt. absurd (ground arith);
  ordered = λ a. refl;
}

pub Reach-IsValid : {n : ℕ} {s : System} → Reach n s → IsValid n s.pool s.pc
Reach-IsValid {n} start = pool_init-IsValid n
Reach-IsValid (later r st) = Step-IsValid (Reach-IsValid r) st
