-- ===== src/OpenTable/Find.antt =====
-- example_hashtable.cpp: what `Search` finds.
use uc.Prelude.{
  ℕ, zero, suc, ◌+◌, ◌%◌, ◌≤◌, ◌<◌, ◌≡◌, ◌≢◌, ◌⊎◌, inl, inr, refl, sym, ap, ◌∙◌, arith, Option,
  none, some, true, false, ◌||◌, ◌==◌, Bool-cases, Option-cases, eq→==, ne→==, ==→eq,
}
use native.Mathlib.Decide.{ℕ_discrete}
use uc.OpenTable.Laws.{Probed, step, step-suc, step-zero, step-apart, hash-lt}
use uc.OpenTable.{hashsize, hash, holds, empty, search_loop, search}

holds→some : (elem : ℕ → Option ℕ) (a x : ℕ) → holds elem a x ≡ true → elem a ≡ some x
unfolding holds
holds→some elem a x h = elim (Option-cases (elem a)) [
  | inl free ↦ absurd (let t : false ≡ true = sym (rw (free, holds) refl) ∙ h in cc)
  | inr (y, there) ↦
      let t : (y == x) ≡ true = rw (there, holds) at h in there ∙ ap some (==→eq y x t)
]

some→holds : (elem : ℕ → Option ℕ) (a x : ℕ) → elem a ≡ some x → holds elem a x ≡ true
unfolding holds
some→holds elem a x e = rw (e, holds) (eq→== x x refl)

taken→empty : (elem : ℕ → Option ℕ) (a : ℕ) → elem a ≢ none → empty elem a ≡ false
unfolding empty
taken→empty elem a ne = elim (Option-cases (elem a)) [
  | inl free ↦ absurd (ne free)
  | inr (y, there) ↦ rw (there, empty) refl
]

-- What the loop of `Search` answers is an address of the element.
search_loop-some :
    (fuel : ℕ) (elem : ℕ → Option ℕ) (a x r : ℕ)
    → a < hashsize
    → search_loop fuel elem a x ≡ some r
    → (r < hashsize) × (elem r ≡ some x)
unfolding search_loop
search_loop-some zero elem a x r lt e = cc
search_loop-some (suc fuel) elem a x r lt e = elim (Bool-cases (holds elem a x)) [
  | inl here ↦
      let t : ◌≡◌ {A = Option ℕ} (some a) (some r) = rw (here, search_loop) at e in
      let e_r : a ≡ r = cc in rw (← e_r) (lt, holds→some elem a x here)
  | inr elsewhere ↦
      let next = (a + 1) % hashsize in
      elim (Bool-cases (empty elem next || next == hash x)) [
        | inl end ↦
            absurd (
              let t : ◌≡◌ {A = Option ℕ} none (some r) = rw (elsewhere, search_loop, end) at e in
              cc)
        | inr more ↦
            search_loop-some fuel elem next x r (grind arith)
              (rw (elsewhere, search_loop, more) at e)
      ]
]

-- From the step `s` the loop finds the element of the step `k`, if the places between are taken.
search_loop-finds :
    (fuel s k : ℕ) (elem : ℕ → Option ℕ) (x : ℕ)
    → s ≤ k
    → k < s + fuel
    → k < hashsize
    → elem (step x k) ≡ some x
    → ((j : ℕ) → j < k → elem (step x j) ≢ none)
    → (r : ℕ) × (search_loop fuel elem (step x s) x ≡ some r)
unfolding search_loop
search_loop-finds zero s k elem x le lt few there taken = absurd (omega arith)
search_loop-finds (suc fuel) s k elem x le lt few there taken =
    elim (Bool-cases (holds elem (step x s) x)) [
      | inl here ↦ (step x s, rw (here, search_loop) refl)
      | inr elsewhere ↦
          let later : s ≢ k = λ e.
            let t = some→holds elem (step x k) x there in
            let t' : holds elem (step x k) x ≡ false = rw (← e) elsewhere in cc in
          let full : elem (step x (s + 1)) ≢ none = elim (ℕ_discrete (s + 1) k) [
            | yes e ↦ λ z. let t : elem (step x k) ≡ none = rw (← e) z in cc
            | no ne ↦ taken (s + 1) (omega arith)
          ] in
          let e_empty = taken→empty elem (step x (s + 1)) full in
          let e_start =
            ne→== (step x (s + 1)) (hash x) (step-apart x (s + 1) (omega arith) (omega arith)) in
          let (r, e) =
            search_loop-finds fuel (s + 1) k elem x (omega arith) (omega arith) few there taken in
          (r, rw (elsewhere, search_loop, step-suc x s, e_empty, e_start) e)
    ]

-- In a table that `Insert` has filled, `Search` answers an address of the element, or -1 if it stands
-- at none.
pub search_open_lem :
    (elem : ℕ → Option ℕ) (x : ℕ)
    → Probed elem
    → ((a : ℕ) × (search elem x ≡ some a) × (a < hashsize) × (elem a ≡ some x))
      ⊎ ((search elem x ≡ none) × ((i : ℕ) → i < hashsize → elem i ≢ some x))
unfolding search Probed
search_open_lem elem x v = elim (Option-cases (search_loop hashsize elem (hash x) x)) [
  | inr (a, e) ↦
      let (lt, there) = search_loop-some hashsize elem (hash x) x a (hash-lt x) e in
      inl (a, e, lt, there)
  | inl e ↦ inr (
    e,
    (λ i lt there.
        let (k, less, at_i, taken) = v i x lt there in
        let (r, found) =
          search_loop-finds hashsize 0 k elem x (omega arith) (omega arith) less
            (ap elem at_i ∙ there) taken in
        let found' : search_loop hashsize elem (hash x) x ≡ some r =
          ap (λ a. search_loop hashsize elem a x) (sym (step-zero x)) ∙ found in
        cc),
  )
]
