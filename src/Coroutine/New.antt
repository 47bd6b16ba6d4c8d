-- ===== src/Coroutine/New.antt =====
-- coroutine.cpp: what `coroutine_new` does to a valid scheduler.
use mathlib.Core.Path.{subst}
use uc.Prelude.{
  some_inj, ℕ, zero, suc, ◌+◌, ◌*◌, ◌<◌, ◌≡◌, ◌≢◌, refl, ◌∙◌, arith, List, [], ◌∷◌, ◌++◌, Option,
  none, some, get_elem?, get_elem?-lt, get_elem?-set_self, get_elem?-set_ne, set, length,
  length-set, length-append, length-replicate, replicate, leb, inl, inr, Bool-cases,
}
use uc.Coroutine.{Co, Schedule, co_new, coroutine_new}
use uc.Coroutine.Slots.{
  taken, taken-append, taken-replicate, taken-set_fill, free_slot-empty, free_slot-some,
}
use uc.Coroutine.Invariant.{Fits, IsValid, get_elem?-set_cases}

-- The schedule after `coroutine_new` put `c` in the place `id`.
pub record Created (depth : ℕ) (s : Schedule) (c : Co) (id : ℕ) (s' : Schedule) : Type 0 where
  pub valid : IsValid depth s'
  pub stored : get_elem? s'.co id ≡ some (some c)
  pub unused : (d : Co) → get_elem? s.co id ≢ some (some d)
  pub others :
      (j : ℕ) (d : Co) → get_elem? s.co j ≡ some (some d) → get_elem? s'.co j ≡ some (some d)
  pub more : s'.nco ≡ s.nco + 1
  pub same : (s'.current ≡ s.current) × (s'.stack ≡ s.stack)

co_new-Fits :
    (depth : ℕ) (current : Option ℕ) (id func ud : ℕ)
    → current ≢ some id
    → Fits depth current id (co_new func ud)
unfolding co_new
co_new-Fits depth current id func ud free = record {
  alive = ground arith;
  only = ground arith;
  back = λ e. absurd (free e);
  buffer = refl;
  filled = omega arith;
  shallow = omega arith;
}

-- A table `co`, in which the coroutines stand where they stood and `id` is empty, takes the new one.
fill-Created :
    (depth func ud : ℕ) (s : Schedule) (co : List (Option Co)) (id cap : ℕ)
    → IsValid depth s
    → length co ≡ cap
    → 0 < cap
    → taken co ≡ taken s.co
    → get_elem? co id ≡ some none
    → ((d : Co) → get_elem? s.co id ≢ some (some d))
    → ((j : ℕ) (d : Co) → get_elem? s.co j ≡ some (some d) → get_elem? co j ≡ some (some d))
    → ((j : ℕ) (d : Co) → get_elem? co j ≡ some (some d) → get_elem? s.co j ≡ some (some d))
    → Created depth s
        (co_new func ud)
        id
        (record s { co = set co id (some (co_new func ud)); cap = cap; nco = s.nco + 1 })
fill-Created depth func ud s co id cap v width room same empty unused to from =
    let c = co_new func ud in
    let lt = get_elem?-lt co id empty in
    let idle : s.current ≢ some id = λ e. (let (d, here) = v.owner id e in unused d here) in
    let kept : (j : ℕ) (d : Co)
        → get_elem? s.co j ≡ some (some d)
        → get_elem? (set co id (some c)) j ≡ some (some d) =
      λ j d e. get_elem?-set_ne co id j (some c) (λ p. unused d (rw p e)) ∙ to j d e in
    record {
      valid = record {
        whole = v.whole;
        width = length-set co id (some c) ∙ width;
        room = room;
        counted = omega (arith, v.counted, taken-set_fill co id c empty);
        slots = λ j d e. elim (get_elem?-set_cases co id j (some c) d lt e) [
          | inl (here, is_c) ↦
              subst (Fits depth s.current j) (some_inj c d is_c)
                (rw here (co_new-Fits depth s.current id func ud idle))
          | inr (there, old) ↦ v.slots j d (from j d old)
        ];
        owner = λ j e. (let (d, here) = v.owner j e in (d, kept j d here));
      };
      stored = get_elem?-set_self co id (some c) lt;
      unused = unused;
      others = kept;
      more = refl;
      same = (refl, refl);
    }

append_left :
    (a b : List (Option Co)) (j : ℕ) (x : Option Co)
    → get_elem? a j ≡ some x
    → get_elem? (a ++ b) j ≡ some x
append_left [] b j x e = absurd (ground arith)
append_left (y ∷ a) b zero x e = e
append_left (y ∷ a) b (suc j) x e = append_left a b j x e

append_empty :
    (a : List (Option Co)) (n j : ℕ) (d : Co)
    → get_elem? (a ++ replicate n none) j ≡ some (some d)
    → get_elem? a j ≡ some (some d)
append_empty [] zero j d e = e
append_empty [] (suc n) zero d e = absurd (ground arith)
append_empty [] (suc n) (suc j) d e = absurd (ground (arith, append_empty [] n j d e))
append_empty (x ∷ a) n zero d e = e
append_empty (x ∷ a) n (suc j) d e = append_empty a n j d e

append_end :
    (a : List (Option Co)) (n : ℕ)
    → 0 < n
    → get_elem? (a ++ replicate n none) (length a) ≡ some none
append_end [] zero pos = absurd (omega arith)
append_end [] (suc n) pos = refl
append_end (x ∷ a) n pos = append_end a n pos

behind : (a : List (Option Co)) (x : Option Co) → get_elem? a (length a) ≢ some x
behind a x e = absurd (omega (arith, get_elem?-lt a (length a) e))

-- In a valid scheduler `coroutine_new` answers an id (the `assert(0)` at its end is not reached):
-- a place that held no coroutine now holds the new one, READY; every other coroutine stands where
-- it stood, the counter is one more, the current id and the stack are the same, and the scheduler
-- is valid.
pub new_lem :
    (depth func ud : ℕ) (s : Schedule)
    → IsValid depth s
    → (id : ℕ) × (s' : Schedule) × (coroutine_new s func ud ≡ some (id, s'))
      × Created depth s (co_new func ud) id s'
unfolding coroutine_new
new_lem depth func ud s v = elim (Bool-cases (leb s.cap s.nco)) [
  | inl full ↦
      let longer = s.co ++ replicate s.cap none in
      (
        s.cap,
        _,
        rw full refl,
        fill-Created depth func ud s longer s.cap (s.cap * 2) v
            (omega (
              arith,
              length-append s.co (replicate s.cap none),
              length-replicate {A = Option Co} s.cap none,
              v.width,
            ))
            (omega (arith, v.room))
            (omega (arith, taken-append s.co (replicate s.cap none), taken-replicate s.cap))
            (rw (← v.width) (append_end s.co (length s.co) (rw v.width v.room)))
            (λ d. rw (← v.width) (behind s.co (some d)))
            (λ j d e. append_left s.co (replicate s.cap none) j (some d) e)
            (λ j d e. append_empty s.co s.cap j d e),
      )
  | inr space ↦
      let (id, found) = free_slot-some s.co s.nco s.cap v.width (ground (arith, v.counted)) in
      let empty = free_slot-empty s.co s.nco s.cap s.cap 0 id found in
      (
        id,
        _,
        rw (space, found) refl,
        fill-Created depth func ud s s.co id s.cap v v.width v.room refl empty (λ d e. ground arith)
            (λ j d e. e) (λ j d e. e),
      )
]
