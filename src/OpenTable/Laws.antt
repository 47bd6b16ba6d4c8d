-- ===== src/OpenTable/Laws.antt =====
-- example_hashtable.cpp: where `Insert` puts an element.
use uc.Prelude.{
  ℕ, zero, suc, ◌+◌, ◌-◌, ◌%◌, ◌≤◌, ◌<◌, ◌≡◌, ◌≢◌, ◌⊎◌, inl, inr, refl, sym, ap, ◌∙◌, arith, Option,
  none, some, Option-cases, ne→==,
}
use native.Mathlib.Decide.{ℕ_discrete}
use uc.OpenTable.{hashsize, hash, put, insert_loop, insert}

-- The `k`-th address that is looked at for `x`.
unfoldable pub step : ℕ → ℕ → ℕ
step x k = (hash x + k) % hashsize

-- Every element stands at one of its addresses, and those before are taken.
unfoldable pub Probed : (ℕ → Option ℕ) → Type 0
Probed elem =
    (i x : ℕ)
    → i < hashsize
    → elem i ≡ some x
    → (k : ℕ) × (k < hashsize) × (step x k ≡ i) × ((j : ℕ) → j < k → elem (step x j) ≢ none)

pub hash-lt : (x : ℕ) → hash x < hashsize
unfolding hash
hash-lt x = grind arith

pub step-lt : (x k : ℕ) → step x k < hashsize
unfolding step
step-lt x k = grind arith

pub step-suc : (x k : ℕ) → (step x k + 1) % hashsize ≡ step x (k + 1)
unfolding step
step-suc x k = grind arith

pub step-zero : (x : ℕ) → step x 0 ≡ hash x
unfolding step
step-zero x = grind (arith, hash-lt x)

pub step-apart : (x k : ℕ) → 0 < k → k < hashsize → step x k ≢ hash x
unfolding step
step-apart x k pos lt e = grind (arith, hash-lt x)

-- Every address is one of the first steps.
step-onto : (x i : ℕ) → i < hashsize → (k : ℕ) × (k < hashsize) × (step x k ≡ i)
unfolding step
step-onto x i lt = ((i + hashsize - hash x) % hashsize, grind arith, grind (arith, hash-lt x))

-- The loop of `Insert` from the step `s` writes at the first empty address, or all it looks at are
-- taken.
insert_loop_lem :
    (fuel s : ℕ) (elem : ℕ → Option ℕ) (x : ℕ)
    → ((k : ℕ) × (k < s + fuel)
        × (elem (step x k) ≡ none)
        × ((j : ℕ) → s ≤ j → j < k → elem (step x j) ≢ none)
        × (insert_loop fuel elem (step x s) x ≡ some (put elem (step x k) x)))
      ⊎ ((j : ℕ) → s ≤ j → j < s + fuel → elem (step x j) ≢ none)
unfolding insert_loop
insert_loop_lem zero s elem x = inr (λ j ge lt. absurd (omega arith))
insert_loop_lem (suc fuel) s elem x = elim (Option-cases (elem (step x s))) [
  | inl free ↦
      inl (s, omega arith, free, (λ j ge lt. absurd (omega arith)), rw (free, insert_loop) refl)
  | inr (y, taken) ↦
      let here : (j : ℕ) → j ≡ s → elem (step x j) ≢ none =
        λ j e z. let t : elem (step x s) ≡ none = ap (λ k. elem (step x k)) (sym e) ∙ z in cc in
      elim (insert_loop_lem fuel (s + 1) elem x) [
        | inl (k, lt, free, before, e) ↦ inl (
          k,
          omega arith,
          free,
          (λ j ge less. elim (ℕ_discrete j s) [
            | yes e_j ↦ here j e_j
            | no later ↦ before j (omega arith) less
          ]),
          rw (taken, insert_loop, step-suc x s) e,
        )
        | inr all ↦ inr (λ j ge less. elim (ℕ_discrete j s) [
          | yes e_j ↦ here j e_j
          | no later ↦ all j (omega arith) (omega arith)
        ])
      ]
]

-- With all places taken, `Insert` goes on for ever.
insert_loop-full :
    (fuel : ℕ) (elem : ℕ → Option ℕ) (a x : ℕ)
    → a < hashsize
    → ((i : ℕ) → i < hashsize → elem i ≢ none)
    → insert_loop fuel elem a x ≡ none
unfolding insert_loop
insert_loop-full zero elem a x lt all = refl
insert_loop-full (suc fuel) elem a x lt all = elim (Option-cases (elem a)) [
  | inl free ↦ absurd (all a lt free)
  | inr (y, taken) ↦
      rw (taken, insert_loop) (insert_loop-full fuel elem ((a + 1) % hashsize) x (grind arith) all)
]

put_self : (elem : ℕ → Option ℕ) (a x : ℕ) → put elem a x a ≡ some x
unfolding put
put_self elem a x = ground arith

put_ne : (elem : ℕ → Option ℕ) (a x i : ℕ) → i ≢ a → put elem a x i ≡ elem i
unfolding put
put_ne elem a x i ne = rw (ne→== i a ne) refl

put-taken : (elem : ℕ → Option ℕ) (a x i : ℕ) → elem i ≢ none → put elem a x i ≢ none
put-taken elem a x i ne = elim (ℕ_discrete i a) [
  | yes here ↦ λ e. let t : put elem a x i ≡ some x = rw here (put_self elem a x) in cc
  | no there ↦ λ e. ne (sym (put_ne elem a x i there) ∙ e)
]

pub put-Probed :
    (elem : ℕ → Option ℕ) (x k : ℕ)
    → Probed elem
    → k < hashsize
    → ((j : ℕ) → 0 ≤ j → j < k → elem (step x j) ≢ none)
    → Probed (put elem (step x k) x)
unfolding Probed
put-Probed elem x k v lt before i y less e = elim (ℕ_discrete i (step x k)) [
  | yes here ↦
      let t : put elem (step x k) x i ≡ some x = rw here (put_self elem (step x k) x) in
      let e_y : y ≡ x = let both : ◌≡◌ {A = Option ℕ} (some y) (some x) = sym e ∙ t in cc in
      rw e_y (
        k,
        lt,
        sym here,
        (λ j l. put-taken elem (step x k) x (step x j) (before j (omega arith) l)),
      )
  | no there ↦
      let (k', lt', at_i, taken) = v i y less (sym (put_ne elem (step x k) x i there) ∙ e) in
      (k', lt', at_i, (λ j l. put-taken elem (step x k) x (step y j) (taken j l)))
]

-- If a place is free, `Insert` ends with the element at a free one, and the rest as before; if none
-- is, it does not end, however many rounds it is given.
pub insert_open_lem :
    (elem : ℕ → Option ℕ) (x : ℕ)
    → Probed elem
    → ((a : ℕ) × (a < hashsize)
        × (elem a ≡ none)
        × (insert elem x ≡ some (put elem a x))
        × Probed (put elem a x))
      ⊎ (((i : ℕ) → i < hashsize → elem i ≢ none)
          × ((fuel : ℕ) → insert_loop fuel elem (hash x) x ≡ none))
unfolding insert
insert_open_lem elem x v = elim (insert_loop_lem hashsize 0 elem x) [
  | inl (k, lt, free, before, e) ↦ inl (
    step x k,
    step-lt x k,
    free,
    ap (λ a. insert_loop hashsize elem a x) (sym (step-zero x)) ∙ e,
    put-Probed elem x k v (omega arith) before,
  )
  | inr taken ↦
      let all : (i : ℕ) → i < hashsize → elem i ≢ none = λ i lt e.
        let (k, less, at_i) = step-onto x i lt in
        taken k (omega arith) (omega arith) (ap elem at_i ∙ e) in
      inr (all, (λ fuel. insert_loop-full fuel elem (hash x) x (hash-lt x) all))
]
