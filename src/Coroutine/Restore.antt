-- ===== src/Coroutine/Restore.antt =====
-- coroutine.cpp: the shared stack of a coroutine between a yield and the next resume.
use uc.Prelude.{
  some_inj, ℕ, ◌-◌, ◌≡◌, ◌≢◌, ◌∙◌, sym, ap, arith, List, [], ◌∷◌, none, some, get_elem?, drop, take,
  inl, inr,
}
use uc.Coroutine.{Co, Schedule, coroutine_resume, coroutine_yield}
use uc.Coroutine.Invariant.{IsValid}
use uc.Coroutine.New.{new_lem}
use uc.Coroutine.Resume.{resume_lem}
use uc.Coroutine.Yield.{yield_lem, finish_lem}
use uc.Coroutine.Steps.{
  Label, new_label, resume_label, yield_label, finish_label, write_label, Step, new_step,
  resume_step, yield_step, finish_step, write_step, Reach, stop, next, resume-cases, yield-cases,
  Step-IsValid, some_pair,
}

-- None of the steps resumes `id`.
unfoldable pub Spares : ℕ → List Label → Type 0
Spares id [] = Unit
Spares id (l ∷ ls) = (l ≢ resume_label id) × Spares id ls

-- The coroutine `c` is in its place and does not run.
record Waits (s : Schedule) (id : ℕ) (c : Co) : Type 0 where
  here : get_elem? s.co id ≡ some (some c)
  idle : s.current ≢ some id

Step-Waits :
    (depth : ℕ) (s s' : Schedule) (l : Label) (id : ℕ) (c : Co)
    → IsValid depth s
    → Waits s id c
    → l ≢ resume_label id
    → Step s l s'
    → Waits s' id c
Step-Waits depth s s' (new_label func ud) id c v w other (new_step e) =
    let (j, t, e', made) = new_lem depth func ud s v in
    rw (← some_pair j _ t s' (sym e' ∙ e))
      (record { here = made.others id c w.here; idle = λ turn. w.idle (sym made.same.0 ∙ turn) })
Step-Waits depth s s' (resume_label j) id c v w other (resume_step e) =
    elim (resume-cases s s' j e) [
      | inl same ↦ rw same w
      | inr (idle, (d, at)) ↦
          let (t, e', done) = resume_lem depth s j d v idle at in
          let far : id ≢ j = λ p. other (ap resume_label (sym p)) in
          rw (← some_inj t s' (sym e' ∙ e)) (record {
            here = done.others id far ∙ w.here;
            idle = λ turn. far (some_inj id j (sym turn ∙ done.turn));
          })
    ]
Step-Waits depth s s' (yield_label used) id c v w other (yield_step e) =
    let (j, d, turn, at, le) = yield-cases s s' used e in
    let (t, e', done) = yield_lem depth used s j d v turn at (omega (arith, v.whole)) in
    rw (← some_inj t s' (sym e' ∙ e)) (record {
      here = done.others id (λ p. w.idle (rw p turn)) ∙ w.here;
      idle = λ h. ground (arith, done.turn);
    })
Step-Waits depth s s' finish_label id c v w other (finish_step {id = j} turn e) =
    let done = finish_lem depth s j v turn in
    rw e (record {
      here = done.others id (λ p. w.idle (rw p turn)) ∙ w.here;
      idle = λ h. ground (arith, done.turn);
    })
Step-Waits depth s s' (write_label bytes) id c v w other (write_step turn same e) =
    rw e (record { here = w.here; idle = w.idle })

Reach-Waits :
    (depth : ℕ) (s s' : Schedule) (ls : List Label) (id : ℕ) (c : Co)
    → IsValid depth s
    → Waits s id c
    → Spares id ls
    → Reach s' s ls
    → Waits s' id c × IsValid depth s'
unfolding Spares
Reach-Waits depth s s' [] id c v w other (stop e) = rw (← e) (w, v)
Reach-Waits depth s s' (l ∷ ls) id c v w (now, later) (next {t = t} step rest) =
    Reach-Waits depth t s' ls id c (Step-IsValid depth s t l v step)
      (Step-Waits depth s t l id c v w now step) later rest

-- A coroutine runs in a valid scheduler and yields with `used` bytes on the shared stack. After any
-- steps that do not resume it (others may run, write to the stack, yield, return, and be created),
-- while none runs, a resume of it succeeds, and it then runs with the same `used` bytes at the top
-- of the stack.
pub resume-yield :
    (depth used id : ℕ) (s t u : Schedule) (ls : List Label)
    → IsValid depth s
    → s.current ≡ some id
    → coroutine_yield s used ≡ some t
    → Spares id ls
    → Reach u t ls
    → u.current ≡ none
    → (u' : Schedule) × (coroutine_resume u id ≡ some u')
      × (u'.current ≡ some id)
      × (drop (depth - used) u'.stack ≡ drop (depth - used) s.stack)
resume-yield depth used id s t u ls v turn yields other steps idle =
    let (j, c, turn', at, le) = yield-cases s t used yields in
    let at' : get_elem? s.co id ≡ some (some c) = rw (some_inj id j (sym turn ∙ turn')) at in
    let (t', e, y) = yield_lem depth used s id c v turn at' (omega (arith, v.whole)) in
    let same = some_inj t' t (sym e ∙ yields) in
    let start : Waits t id y.after × IsValid depth t =
      rw (← same) (record { here = y.stored; idle = λ h. ground (arith, y.turn) }, y.valid) in
    let (w, v') = Reach-Waits depth t u ls id y.after start.1 start.0 other steps in
    let (u', e', r) = resume_lem depth u id y.after v' idle w.here in
    (
      u',
      e',
      r.turn,
      ap (λ n. drop (depth - n) u'.stack) (sym y.deep)
          ∙ r.restored y.waits
          ∙ ap (λ n. take n y.after.stack) y.deep
          ∙ y.kept,
    )
