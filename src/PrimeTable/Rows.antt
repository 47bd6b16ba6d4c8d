-- ===== src/PrimeTable/Rows.antt =====
-- example_shm_hashtable1.cpp: the lengths of the rows that `getMode` chooses.
use uc.Prelude.{
  ℕ, zero, suc, ◌+◌, ◌-◌, ◌*◌, ◌/◌, ◌≤◌, ◌<◌, ◌≡◌, ◌⊎◌, inl, inr, List, [], ◌∷◌, ◌++◌, Option, none,
  some, true, false, Bool-cases, Option-cases, some_inj, refl, arith, ltb, take, length,
  length-append,
}
use native.Mathlib.Decide.{ℕ_discrete}
use uc.PrimeTable.{word, below_of, flags, test_divisors, candidates, mode_loop, get_mode}
use uc.PrimeTable.Primes.{IsPrime, below_of_pred, flags-IsPrime}

-- The lengths fall, from `b` at most; each is a prime, or 1.
unfoldable pub Falling : ℕ → List ℕ → Type 0
Falling b [] = Unit
Falling b (q ∷ qs) = (q ≤ b) × (0 < q) × ((q ≡ 1) ⊎ IsPrime q) × Falling (q - 1) qs

Falling-mono : (a b : ℕ) (qs : List ℕ) → a ≤ b → Falling a qs → Falling b qs
unfolding Falling
Falling-mono a b [] le v = tt
Falling-mono a b (q ∷ qs) le (top, pos, kind, rest) = (omega arith, pos, kind, rest)

-- In the round for 0, `m-1` is a multiple of 3 and `m+1` is 1.
flags_zero : flags 0 ≡ (false, true)
unfolding flags test_divisors below_of
flags_zero = refl

above_lem : (t : ℕ) → 6 * t ≤ word → (flags t).1 ≡ true → (6 * t + 1 ≡ 1) ⊎ IsPrime (6 * t + 1)
above_lem t le on = elim (ℕ_discrete t 0) [
  | yes first ↦ inl (omega arith)
  | no later ↦ inr ((flags-IsPrime t (omega arith) le).1 on)
]

below_lem :
    (t : ℕ)
    → 6 * t ≤ word
    → (flags t).0 ≡ true
    → (0 < t) × (below_of (6 * t) ≡ 6 * t - 1) × IsPrime (6 * t - 1)
below_lem t le on = elim (ℕ_discrete t 0) [
  | yes first ↦ absurd (let off : (flags t).0 ≡ false = rw (first, flags_zero) refl in cc)
  | no later ↦
      (omega arith, below_of_pred (6 * t) (omega arith) le, (flags-IsPrime t (omega arith) le).0 on)
]

-- The numbers of one round fall from `b`, and stay above `e`.
unfoldable Runs : ℕ → List ℕ → ℕ → Type 0
Runs b [] e = e ≤ b
Runs b (q ∷ qs) e = (q ≤ b) × (0 < q) × ((q ≡ 1) ⊎ IsPrime q) × Runs (q - 1) qs e

Runs-le : (b : ℕ) (c : List ℕ) (e : ℕ) → Runs b c e → e ≤ b
unfolding Runs
Runs-le b [] e v = v
Runs-le b (q ∷ qs) e (top, pos, kind, rest) = omega (arith, Runs-le (q - 1) qs e rest)

-- As many of them as there is room for, in front of later ones.
Runs-Falling :
    (n b : ℕ) (c : List ℕ) (e : ℕ) (rest : List ℕ)
    → Runs b c e
    → Falling e rest
    → Falling b (take n c ++ rest)
unfolding Runs Falling
Runs-Falling zero b c e rest v f = Falling-mono e b rest (Runs-le b c e v) f
Runs-Falling (suc n) b [] e rest v f = Falling-mono e b rest v f
Runs-Falling (suc n) b (q ∷ qs) e rest (top, pos, kind, later) f =
    (top, pos, kind, Runs-Falling n (q - 1) qs e rest later f)

candidates-Runs : (t : ℕ) → 6 * t ≤ word → Runs (6 * suc t - 5) (candidates t) (6 * t - 5)
unfolding Runs candidates
candidates-Runs t le = elim (Bool-cases (flags t).1) [
  | inl j ↦
      let kind = above_lem t le j in
      elim (Bool-cases (flags t).0) [
        | inl i ↦
            let (pos, e, prime) = below_lem t le i in
            rw (j, i, e)
              (omega arith, omega arith, kind, (omega arith, omega arith, inr prime, omega arith))
        | inr no_i ↦ rw (j, no_i) (omega arith, omega arith, kind, omega arith)
      ]
  | inr no_j ↦ elim (Bool-cases (flags t).0) [
    | inl i ↦
        let (pos, e, prime) = below_lem t le i in
        rw (no_j, i, e) (omega arith, omega arith, inr prime, omega arith)
    | inr no_i ↦ rw (no_j, no_i) (omega arith)
  ]
]

length-take_le : (n : ℕ) (xs : List ℕ) → length (take n xs) ≤ n
length-take_le zero xs = omega arith
length-take_le (suc n) [] = omega arith
length-take_le (suc n) (x ∷ xs) = omega (arith, length-take_le n xs)

mode_loop_lem :
    (t z : ℕ) (mods : List ℕ)
    → 6 * t ≤ word + 6
    → mode_loop t z ≡ some mods
    → (length mods ≡ z) × Falling (6 * t - 5) mods
unfolding mode_loop Falling
mode_loop_lem t zero mods le e =
    let e_mods : [] ≡ mods = some_inj [] mods e in rw (← e_mods) (refl, tt)
mode_loop_lem zero (suc z) mods le e = cc
mode_loop_lem (suc t) (suc z) mods le e =
    let found = take (suc z) (candidates t) in
    elim (Option-cases (mode_loop t (suc z - length found))) [
      | inl end ↦
          absurd
            (let x : ◌≡◌ {A = Option (List ℕ)} none (some mods) = rw (mode_loop, end) at e in cc)
      | inr (rest, more) ↦
          let x : ◌≡◌ {A = Option (List ℕ)} (some (found ++ rest)) (some mods) =
            rw (mode_loop, more) at e in
          let e_mods : found ++ rest ≡ mods = some_inj (found ++ rest) mods x in
          let (len, falls) = mode_loop_lem t (suc z - length found) rest (omega arith) more in
          rw (← e_mods) (
            omega (arith, length-append found rest, length-take_le (suc z) (candidates t), len),
            Runs-Falling (suc z) (6 * suc t - 5) (candidates t) (6 * t - 5) rest
                (candidates-Runs t (omega arith)) falls,
          )
    ]

-- If `getMode` ends with its counter not below 0, it has set a length for each row. They fall, from
-- `maxLine + 1` at most; each is a prime, or 1.
pub get_mode-Falling :
    (max_line lines : ℕ) (mods : List ℕ)
    → max_line < word
    → get_mode max_line lines ≡ some mods
    → (length mods ≡ lines) × Falling (max_line + 1) mods
unfolding get_mode
get_mode-Falling max_line lines mods lt e = elim (Bool-cases (ltb max_line 5)) [
  | inl small ↦
      absurd (let x : ◌≡◌ {A = Option (List ℕ)} none (some mods) = rw (get_mode, small) at e in cc)
  | inr ok ↦
      let x : mode_loop (max_line / 6 + 1) lines ≡ some mods = rw (get_mode, ok) at e in
      let (len, falls) = mode_loop_lem (max_line / 6 + 1) lines mods (grind arith) x in
      (len, Falling-mono (6 * (max_line / 6 + 1) - 5) (max_line + 1) mods (grind arith) falls)
]
