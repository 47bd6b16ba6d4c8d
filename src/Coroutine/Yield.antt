-- ===== src/Coroutine/Yield.antt =====
-- coroutine.cpp: what `coroutine_yield` and the end of `mainfunc` do to a valid scheduler.
use uc.Prelude.{
  ℕ, ◌+◌, ◌-◌, ◌≤◌, ◌≡◌, ◌≢◌, refl, ◌∙◌, sym, ap, arith, List, ◌++◌, none, some, get_elem?,
  get_elem?-lt, get_elem?-set_self, get_elem?-set_ne, set, take, drop, length, length-set,
  length-append, length-drop, ltb, inl, inr, Bool-cases, take-append_left, take_all, false,
}
use uc.Coroutine.{Co, Schedule, suspend, finish, save_stack, coroutine_yield}
use uc.Coroutine.Slots.{taken-set_clear}
use uc.Coroutine.Invariant.{IsValid, get_elem?-set_cases}
use uc.Coroutine.Turns.{elsewhere, itself, nobody, turn-IsValid}

-- A saved stack is in its buffer, and the first bytes of the buffer are the saved ones.
record Saved (bytes : List ℕ) (used : ℕ) (c c' : Co) : Type 0 where
  size : c'.size ≡ used
  buffer : length c'.stack ≡ c'.cap
  filled : used ≤ c'.cap
  kept : take used c'.stack ≡ drop (length bytes - used) bytes
  func : c'.func ≡ c.func
  ud : c'.ud ≡ c.ud

take-append_first : (n : ℕ) (xs ys : List ℕ) → length xs ≡ n → take n (xs ++ ys) ≡ xs
take-append_first n xs ys e = take-append_left n xs ys (omega arith) ∙ take_all n xs (omega arith)

take_full : (n : ℕ) (xs : List ℕ) → length xs ≡ n → take n xs ≡ xs
take_full n xs e = take_all n xs (omega arith)

save_stack-Saved :
    (bytes : List ℕ) (used : ℕ) (c : Co)
    → length c.stack ≡ c.cap
    → used ≤ length bytes
    → Saved bytes used c (save_stack bytes used c)
unfolding save_stack
save_stack-Saved bytes used c whole le =
    let saved = drop (length bytes - used) bytes in
    let n : length saved ≡ used = omega (arith, length-drop (length bytes - used) bytes) in
    elim (Bool-cases (ltb c.cap used)) [
      | inl grow ↦ rw (grow) (record {
        size = refl;
        buffer = n;
        filled = omega arith;
        kept = take_full used saved n;
        func = refl;
        ud = refl;
      })
      | inr fits ↦ rw (fits) (record {
        size = refl;
        buffer = ground (arith, length-append saved (drop used c.stack), length-drop used c.stack);
        filled = ground arith;
        kept = take-append_first used saved (drop used c.stack) n;
        func = refl;
        ud = refl;
      })
    ]

yield-switch :
    (s : Schedule) (used id : ℕ) (c : Co)
    → s.current ≡ some id
    → get_elem? s.co id ≡ some (some c)
    → ltb (length s.stack) used ≡ false
    → coroutine_yield s used
      ≡ some (record s {
        co = set s.co id (some (record (save_stack s.stack used c) { status = suspend }));
        current = none;
      })
unfolding coroutine_yield
yield-switch s used id c turn here fits = simp (turn, coroutine_yield, here, fits)

-- The schedule after the coroutine `c` of the place `id` yielded with `used` bytes on the stack.
pub record Yielded (depth used : ℕ) (s : Schedule) (id : ℕ) (c : Co) (s' : Schedule) : Type 0 where
  pub valid : IsValid depth s'
  pub turn : s'.current ≡ none
  pub after : Co
  pub stored : get_elem? s'.co id ≡ some (some after)
  pub waits : after.status ≡ suspend
  pub task : (after.func ≡ c.func) × (after.ud ≡ c.ud)
  pub deep : after.size ≡ used
  pub kept : take used after.stack ≡ drop (depth - used) s.stack
  pub others : (j : ℕ) → j ≢ id → get_elem? s'.co j ≡ get_elem? s.co j

-- A coroutine that runs in a valid scheduler and has no more on the shared stack than its length
-- can yield: no assertion fails, it is suspended with a copy of its part of the stack, no other
-- coroutine changes, none runs, and the scheduler is valid.
pub yield_lem :
    (depth used : ℕ) (s : Schedule) (id : ℕ) (c : Co)
    → IsValid depth s
    → s.current ≡ some id
    → get_elem? s.co id ≡ some (some c)
    → used ≤ depth
    → (s' : Schedule) × (coroutine_yield s used ≡ some s') × Yielded depth used s id c s'
yield_lem depth used s id c v turn here le =
    let f = v.slots id c here in
    let lt = get_elem?-lt s.co id here in
    let fits : ltb (length s.stack) used ≡ false = ground (arith, v.whole) in
    let old = save_stack-Saved s.stack used c f.buffer (omega (arith, v.whole)) in
    let c' = record (save_stack s.stack used c) { status = suspend } in
    (
      record s { co = set s.co id (some c'); current = none },
      yield-switch s used id c turn here fits,
      record {
        valid =
            turn-IsValid depth s id c c' s.stack none v here v.whole (rw turn (itself id))
              (nobody none id refl)
              (record {
                alive = λ e. ground arith;
                only = λ e. absurd (ground arith);
                back = λ e. absurd (ground arith);
                buffer = old.buffer;
                filled = omega (arith, old.filled, old.size);
                shallow = omega (arith, old.size);
              });
        turn = refl;
        after = c';
        stored = get_elem?-set_self s.co id (some c') lt;
        waits = refl;
        task = (old.func, old.ud);
        deep = old.size;
        kept = old.kept ∙ ap (λ n. drop (n - used) s.stack) v.whole;
        others = λ j other. get_elem?-set_ne s.co id j (some c') (λ p. other (sym p));
      },
    )

-- The schedule after the function of the coroutine in the place `id` has returned.
pub record Finished (depth : ℕ) (s : Schedule) (id : ℕ) (s' : Schedule) : Type 0 where
  pub valid : IsValid depth s'
  pub turn : s'.current ≡ none
  pub gone : get_elem? s'.co id ≡ some none
  pub fewer : s'.nco + 1 ≡ s.nco
  pub others : (j : ℕ) → j ≢ id → get_elem? s'.co j ≡ get_elem? s.co j

-- When the function of the coroutine that runs in a valid scheduler has returned, its place is
-- empty, the counter is one less, no other coroutine changes, none runs, and the scheduler is
-- valid.
pub finish_lem :
    (depth : ℕ) (s : Schedule) (id : ℕ)
    → IsValid depth s
    → s.current ≡ some id
    → Finished depth s id (finish s id)
unfolding finish
finish_lem depth s id v turn =
    let (c, here) = v.owner id turn in
    let lt = get_elem?-lt s.co id here in
    let count = taken-set_clear s.co id c here in
    record {
      valid = record {
        whole = v.whole;
        width = length-set s.co id none ∙ v.width;
        room = v.room;
        counted = omega (arith, v.counted);
        slots = λ j d e. elim (get_elem?-set_cases s.co id j none d lt e) [
          | inl (same, is_c) ↦ absurd (ground arith)
          | inr (other, old) ↦
              elsewhere depth s.current none id j d (rw turn (itself id)) (nobody none id refl)
                other (v.slots j d old)
        ];
        owner = λ j e. absurd (ground arith);
      };
      turn = refl;
      gone = get_elem?-set_self s.co id none lt;
      fewer = omega (arith, v.counted);
      others = λ j other. get_elem?-set_ne s.co id j none (λ p. other (sym p));
    }
