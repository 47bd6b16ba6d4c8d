-- ===== src/Coroutine/Turns.antt =====
-- coroutine.cpp: the scheduler when the coroutine in one place changes and the turn passes.
use uc.Prelude.{
  some_inj, ℕ, ◌-◌, ◌≡◌, ◌≢◌, refl, ◌∙◌, sym, arith, List, Option, none, some, get_elem?,
  get_elem?-lt, get_elem?-set_self, set, take, drop, length, length-set, inl, inr,
}
use uc.Coroutine.{Co, Schedule, ready, running, suspend}
use uc.Coroutine.Slots.{taken-set_same}
use uc.Coroutine.Invariant.{Fits, IsValid, get_elem?-set_cases}

-- At most the place `id` is current.
unfoldable pub AtMost : Option ℕ → ℕ → Type 0
AtMost current id = (k : ℕ) → current ≡ some k → k ≡ id

-- A coroutine in another place fits before and after.
pub elsewhere :
    (depth : ℕ) (before after : Option ℕ) (id j : ℕ) (d : Co)
    → AtMost before id
    → AtMost after id
    → j ≢ id
    → Fits depth before j d
    → Fits depth after j d
unfolding AtMost
elsewhere depth before after id j d b a other f = record {
  alive = f.alive;
  only = λ e. absurd (other (b j (f.only e)));
  back = λ e. absurd (other (a j e));
  buffer = f.buffer;
  filled = f.filled;
  shallow = f.shallow;
}

-- A valid scheduler in which the coroutine of the place `id` becomes `c'`.
pub turn-IsValid :
    (depth : ℕ) (s : Schedule) (id : ℕ) (c c' : Co) (bytes : List ℕ) (after : Option ℕ)
    → IsValid depth s
    → get_elem? s.co id ≡ some (some c)
    → length bytes ≡ depth
    → AtMost s.current id
    → AtMost after id
    → Fits depth after id c'
    → IsValid depth (record s { stack = bytes; co = set s.co id (some c'); current = after })
unfolding AtMost
turn-IsValid depth s id c c' bytes after v here whole b a f =
    let lt = get_elem?-lt s.co id here in
    record {
      whole = whole;
      width = length-set s.co id (some c') ∙ v.width;
      room = v.room;
      counted = v.counted ∙ sym (taken-set_same s.co id c' c here);
      slots = λ j d e. elim (get_elem?-set_cases s.co id j (some c') d lt e) [
        | inl (same, is_c) ↦ rw (← some_inj c' d is_c, same) f
        | inr (other, old) ↦ elsewhere depth s.current after id j d b a other (v.slots j d old)
      ];
      owner = λ j e. (c', rw (a j e) (get_elem?-set_self s.co id (some c') lt));
    }

-- The schedule after `id` was resumed, whose coroutine was `c`.
pub record Resumed (depth : ℕ) (s : Schedule) (id : ℕ) (c : Co) (s' : Schedule) : Type 0 where
  pub valid : IsValid depth s'
  pub turn : s'.current ≡ some id
  pub stored : get_elem? s'.co id ≡ some (some (record c { status = running }))
  pub others : (j : ℕ) → j ≢ id → get_elem? s'.co j ≡ get_elem? s.co j
  pub fresh : c.status ≡ ready → s'.stack ≡ s.stack
  pub restored : c.status ≡ suspend → drop (depth - c.size) s'.stack ≡ take c.size c.stack

pub running-Fits :
    (depth : ℕ) (before : Option ℕ) (id : ℕ) (c : Co)
    → Fits depth before id c
    → Fits depth (some id) id (record c { status = running })
running-Fits depth before id c f = record {
  alive = λ e. ground arith;
  only = λ e. refl;
  back = λ e. refl;
  buffer = f.buffer;
  filled = f.filled;
  shallow = f.shallow;
}

pub nobody : (current : Option ℕ) (id : ℕ) → current ≡ none → AtMost current id
unfolding AtMost
nobody current id e k here = absurd (ground arith)

pub itself : (id : ℕ) → AtMost (some id) id
unfolding AtMost
itself id k e = some_inj k id (sym e)
