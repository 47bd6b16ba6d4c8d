-- ===== src/HashShm/TimeLaws.antt =====
-- `hash_time33` of example_shm_hashtable2.cpp: the unrolled loop with its `switch`, and the plain
-- loop.
use uc.Prelude.{
  ℕ, zero, suc, ◌+◌, ◌-◌, ◌*◌, ◌≤◌, ◌<◌, ◌≡◌, ◌≢◌, refl, sym, ◌∙◌, some, none, List, [], ◌∷◌, ◌++◌,
  leb, inl, inr, Bool-cases, arith, length, take, take_all, take-append_left, length-append, ap,
}
use uc.HashShm.Time33.{step, mixed, to_nul, eights, times, switch, hash_time33}
use uc.HashShm.Visit.{All}

-- The plain loop over a text.
unfoldable pub hash_all : ℕ → List ℕ → ℕ
hash_all h [] = h
hash_all h (c ∷ cs) = hash_all (step h c) cs

times_add : (a b : ℕ) (s : ℕ × List ℕ) → times b (times a s) ≡ times (a + b) s
unfolding times
times_add zero b s = let e : b ≡ 0 + b = omega arith in ap (λ n. times n s) e
times_add (suc a) b s = times_add a b (mixed s) ∙ ap (λ n. times n s) suc_add
  where
    suc_add : suc (a + b) ≡ suc a + b
    suc_add = omega arith

abbrev mixed_eight : ℕ × List ℕ → ℕ × List ℕ
mixed_eight s = mixed (mixed (mixed (mixed (mixed (mixed (mixed (mixed s)))))))

times_eight : (s : ℕ × List ℕ) → mixed_eight s ≡ times 8 s
unfolding times
times_eight s = refl

times-eights :
    (f len : ℕ) (s : ℕ × List ℕ)
    → len < 8 * f + 8
    → let (left, t) = eights f len s in (times left t ≡ times len s) × (left ≤ 7)
unfolding eights
times-eights zero len s h = (refl, omega arith)
times-eights (suc f) len s h = elim (Bool-cases (leb 8 len)) [
  | inl more ↦
      let (same, small) = times-eights f (len - 8) (mixed_eight s) (ground arith) in
      let whole : 8 + (len - 8) ≡ len = ground arith in
      rw (more, eights)
        (
          same
              ∙ ap (times (len - 8)) (times_eight s)
              ∙ times_add 8 (len - 8) s
              ∙ ap (λ n. times n s) whole,
          small,
        )
  | inr done ↦ rw (done, eights) (refl, ground arith)
]

-- The bytes that the unrolled loop and the `switch` take are as many as `len`.
hash_time33-times :
    (str : List ℕ) (len : ℕ) → hash_time33 str (some len) ≡ (times len (5381, str)).0
unfolding hash_time33 switch
hash_time33-times str len =
    let (same, small) = times-eights len len (5381, str) (omega arith) in
    ground (arith, ap (λ (t : ℕ × List ℕ). t.0) same)

mixed_lem : (h c : ℕ) (p : List ℕ) → mixed (h, c ∷ p) ≡ (step h c, p)
unfolding mixed step
mixed_lem h c p = ap (λ x. (x, p)) (omega arith)

times-hash_all : (n h : ℕ) (p : List ℕ) → n ≤ length p → (times n (h, p)).0 ≡ hash_all h (take n p)
unfolding times hash_all
times-hash_all zero h p le = refl
times-hash_all (suc n) h [] le = absurd (omega arith)
times-hash_all (suc n) h (c ∷ p) le =
    ap (λ s. (times n s).0) (mixed_lem h c p) ∙ times-hash_all n (step h c) p (omega arith)

-- With a length that the text has, `hash_time33` is the plain loop over that many characters.
pub hash_time33_lem :
    (str : List ℕ) (len : ℕ)
    → len ≤ length str
    → hash_time33 str (some len) ≡ hash_all 5381 (take len str)
hash_time33_lem str len le = hash_time33-times str len ∙ times-hash_all len 5381 str le

to_nul-hash_all :
    (h : ℕ) (s rest : List ℕ) → All (λ c. c ≢ 0) s → to_nul h (s ++ 0 ∷ rest) ≡ hash_all h s
unfolding to_nul hash_all
to_nul-hash_all h [] rest nz = refl
to_nul-hash_all h (c ∷ s) rest nz = ground (arith, to_nul-hash_all (step h c) s rest nz.1)

-- Without a length, `hash_time33` hashes a text up to its NUL to what it gives with the length.
pub hash_time33-nul :
    (s rest : List ℕ)
    → All (λ c. c ≢ 0) s
    → hash_time33 (s ++ 0 ∷ rest) none ≡ hash_time33 (s ++ 0 ∷ rest) (some (length s))
hash_time33-nul s rest nz =
    nul_form
    ∙ sym (
        hash_time33_lem (s ++ 0 ∷ rest) (length s) (omega (arith, length-append s (0 ∷ rest)))
        ∙ ap (hash_all 5381) (
            take-append_left (length s) s (0 ∷ rest) (omega arith)
            ∙ take_all (length s) s (omega arith)))
  where
    nul_form : hash_time33 (s ++ 0 ∷ rest) none ≡ hash_all 5381 s
    nul_form = unfold hash_time33 in to_nul-hash_all 5381 s rest nz
