-- ===== src/HashShm/Time33.antt =====
-- `hash_time33` of example_shm_hashtable2.cpp. The `char`s are signed: each is given as the
-- `unsigned long` that it is converted to. A length below 0 is `none`.
use uc.Prelude.{
  ℕ, zero, suc, ◌+◌, ◌-◌, ◌*◌, ◌%◌, ◌^◌, List, [], ◌∷◌, Option, none, some, true, false, leb, ◌==◌,
  if◌then◌else◌,
}

-- `hash = hash * 33 + *p`
unfoldable pub step : ℕ → ℕ → ℕ
step h c = (h * 33 + c) % 2 ^ 64

-- `TIME33_HASH_MIXED_CH`: `hash` and `p` after it. Nothing is read past the end of the text.
unfoldable pub mixed : ℕ × List ℕ → ℕ × List ℕ
mixed (h, []) = (h, [])
mixed (h, c ∷ p) = ((h * 2 ^ 5 % 2 ^ 64 + h + c) % 2 ^ 64, p)

-- The loop to the terminating NUL.
unfoldable pub to_nul : ℕ → List ℕ → ℕ
unfolding step
to_nul h [] = h
to_nul h (c ∷ p) = if c == 0 then h else to_nul (step h c) p

-- The loop over eight characters at a time, with fuel `len`; `len` itself falls by 8 a round.
unfoldable pub eights : ℕ → ℕ → ℕ × List ℕ → ℕ × (ℕ × List ℕ)
unfolding mixed
eights zero len s = (len, s)
eights (suc f) len s = elim (leb 8 len) [
  | true ↦ eights f (len - 8) (mixed (mixed (mixed (mixed (mixed (mixed (mixed (mixed s))))))))
  | false ↦ (len, s)
]

-- The `switch`, whose cases 7 to 1 fall through; no case is above 7.
unfoldable pub times : ℕ → ℕ × List ℕ → ℕ × List ℕ
unfolding mixed
times zero s = s
times (suc n) s = times n (mixed s)

unfoldable pub switch : ℕ → ℕ × List ℕ → ℕ × List ℕ
unfolding times
switch len s = if leb len 7 then times len s else s

unfoldable pub hash_time33 : List ℕ → Option ℕ → ℕ
unfolding to_nul eights switch
hash_time33 str none = to_nul 5381 str
hash_time33 str (some len) = let (left, s) = eights len len (5381, str) in (switch left s).0
