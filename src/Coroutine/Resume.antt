-- ===== src/Coroutine/Resume.antt =====
-- coroutine.cpp: what `coroutine_resume` does to a valid scheduler.
use uc.Prelude.{
  ℕ, ◌-◌, ◌≤◌, ◌<◌, ◌≡◌, ◌≢◌, refl, ◌∙◌, sym, ap, arith, List, ◌++◌, none, some, get_elem?,
  get_elem?-lt, get_elem?-set_self, get_elem?-set_ne, set, take, drop, length, length-append,
  length-take, inl, inr, ◌⊎◌, drop-append_left,
}
use uc.Coroutine.{
  Co, Schedule, Status, dead, ready, running, suspend, resume_status, coroutine_resume,
}
use uc.Coroutine.Invariant.{IsValid}
use uc.Coroutine.Turns.{Resumed, itself, nobody, running-Fits, turn-IsValid}

-- With no coroutine running, the rest of a resume depends on the status alone.
resume-switch :
    (s : Schedule) (id : ℕ) (c : Co)
    → s.current ≡ none
    → id < s.cap
    → get_elem? s.co id ≡ some (some c)
    → coroutine_resume s id ≡ resume_status s id c c.status
unfolding coroutine_resume
resume-switch s id c idle lt here = rw (idle, here) (ground arith)

restore-drop :
    (bytes buffer : List ℕ) (depth size cap : ℕ)
    → length bytes ≡ depth
    → size ≤ depth
    → drop (depth - size) (take (length bytes - size) bytes ++ take size buffer) ≡ take size buffer
restore-drop bytes buffer depth size cap whole le =
    drop-append_left (depth - size) (take (length bytes - size) bytes) (take size buffer)
      (ground (arith, length-take (length bytes - size) bytes))

restore-length :
    (bytes buffer : List ℕ) (depth size cap : ℕ)
    → length bytes ≡ depth
    → length buffer ≡ cap
    → size ≤ cap
    → size ≤ depth
    → length (take (length bytes - size) bytes ++ take size buffer) ≡ depth
restore-length bytes buffer depth size cap whole filled small le = ground (
  arith,
  length-append (take (length bytes - size) bytes) (take size buffer),
  length-take (length bytes - size) bytes,
  length-take size buffer,
)

status-cases : (t : Status) → t ≢ dead → t ≢ running → (t ≡ ready) ⊎ (t ≡ suspend)
status-cases dead a b = absurd (a refl)
status-cases ready a b = inl refl
status-cases running a b = absurd (b refl)
status-cases suspend a b = inr refl

-- While no coroutine runs, a resume of a coroutine of a valid scheduler does not fail an assertion:
-- the coroutine becomes the one that runs, no other changes, a READY coroutine leaves the shared
-- stack as it is, a suspended one gets its saved bytes back at the top of the stack, and the
-- scheduler is valid.
pub resume_lem :
    (depth : ℕ) (s : Schedule) (id : ℕ) (c : Co)
    → IsValid depth s
    → s.current ≡ none
    → get_elem? s.co id ≡ some (some c)
    → (s' : Schedule) × (coroutine_resume s id ≡ some s') × Resumed depth s id c s'
unfolding resume_status
resume_lem depth s id c v idle here =
    let f = v.slots id c here in
    let lt = get_elem?-lt s.co id here in
    let begin = resume-switch s id c idle (omega (arith, v.width)) here in
    let awake : c.status ≢ running = λ e. (let k = f.only e in ground arith) in
    let c' = record c { status = running } in
    elim (status-cases c.status f.alive awake) [
      | inl new ↦ (
        record s { co = set s.co id (some c'); current = some id },
        begin ∙ ap (resume_status s id c) new,
        record {
          valid =
              turn-IsValid depth s id c c' s.stack (some id) v here v.whole
                (nobody s.current id idle) (itself id) (running-Fits depth s.current id c f);
          turn = refl;
          stored = get_elem?-set_self s.co id (some c') lt;
          others = λ j other. get_elem?-set_ne s.co id j (some c') (λ p. other (sym p));
          fresh = λ e. refl;
          restored = λ e. absurd (ground arith);
        },
      )
      | inr old ↦
          let bytes = take (length s.stack - c.size) s.stack ++ take c.size c.stack in
          (
            record s { stack = bytes; co = set s.co id (some c'); current = some id },
            begin ∙ ap (resume_status s id c) old,
            record {
              valid =
                  turn-IsValid depth s id c c' bytes (some id) v here
                    (restore-length s.stack c.stack depth c.size c.cap v.whole f.buffer f.filled
                      f.shallow)
                    (nobody s.current id idle) (itself id) (running-Fits depth s.current id c f);
              turn = refl;
              stored = get_elem?-set_self s.co id (some c') lt;
              others = λ j other. get_elem?-set_ne s.co id j (some c') (λ p. other (sym p));
              fresh = λ e. absurd (ground arith);
              restored = λ e. restore-drop s.stack c.stack depth c.size c.cap v.whole f.shallow;
            },
          )
    ]
