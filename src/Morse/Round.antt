-- ===== src/Morse/Round.antt =====
-- example_morse.cpp: decoding what was encoded.
use uc.Prelude.{
  ℕ, zero, suc, ◌+◌, ◌-◌, ◌≤◌, ◌<◌, ◌≡◌, refl, ap, ◌∙◌, arith, ◌++◌, List, [], ◌∷◌, Bool, true,
  false, ◌&&◌, ◌||◌, not, ltb, leb, if◌then◌else◌, some, length, length-append, get_or, drop,
  Bool-cases, inl, inr,
}
use mathlib.Core.List.{append-nil}
use native.Mathlib.Decide.{ℕ_discrete}
use uc.Prelude.Texts.{same, same→eq}
use uc.Morse.{
  morse_table, is_digit, is_alpha, to_upper, is_space, code, encode_morse, skip_space, word, scan,
  skip_blank, letter, matches, decode_from, decode_morse,
}

-- A letter or a digit
abbrev pub is_coded : ℕ → Bool
is_coded c = is_alpha c || is_digit c

-- The letters and digits of a text, in upper case.
unfoldable pub coded_of : List ℕ → List ℕ
coded_of [] = []
coded_of (c ∷ s) = if is_coded c then to_upper c ∷ coded_of s else coded_of s

-- The text is empty or starts with a letter or a digit.
unfoldable pub starts_coded : List ℕ → Bool
starts_coded [] = true
starts_coded (c ∷ s) = is_coded c

all_below : (ℕ → Bool) → ℕ → Bool
all_below f zero = true
all_below f (suc n) = f n && all_below f n

all_below_sound : (f : ℕ → Bool) (n k : ℕ) → all_below f n ≡ true → k < n → f k ≡ true
unfolding all_below
all_below_sound f zero k h lt = absurd (omega arith)
all_below_sound f (suc n) k h lt = elim (ℕ_discrete k n) [
  | yes e ↦ rw e (ground arith)
  | no ne ↦ all_below_sound f n k (ground arith) (omega arith)
]

-- No white space is in the text.
plain : List ℕ → Bool
plain [] = true
plain (c ∷ w) = not (is_space c) && plain w

-- An entry of the table is a word of its own.
entry : ℕ → Bool
entry k =
    let w = get_or morse_table k [] in
    plain w
    && ltb 0 (length w)
    && leb (length w) 49
    && same (matches morse_table 0 w) (letter k ∷ [])

entries : all_below entry 36 ≡ true
unfolding all_below entry plain morse_table matches same letter
entries = refl

-- The place of a character in the table
place : ℕ → ℕ
place c = if is_alpha c then to_upper c - b'A' else c - b'0' + 26

code_lem :
    (c : ℕ)
    → is_coded c ≡ true
    → (place c < 36) × (code c ≡ get_or morse_table (place c) []) × (letter (place c) ≡ to_upper c)
unfolding place code letter
code_lem c h = elim (Bool-cases (is_alpha c)) [
  | inl alpha ↦
      let other : is_digit c ≡ false = ground arith in
      (ground arith, rw (alpha, other) (append-nil _), ground arith)
  | inr no_alpha ↦
      let digit : is_digit c ≡ true = ground arith in
      let e : c - b'0' + (b'Z' - b'A') + 1 ≡ c - b'0' + 26 = omega arith in
      (ground arith, rw (no_alpha, digit) (ap (λ k. get_or morse_table k []) e), ground arith)
]

code-none : (c : ℕ) → is_coded c ≡ false → code c ≡ []
unfolding code
code-none c h = ground arith

-- What the entry of a letter or digit is to `decodeMorse`
code-entry :
    (c : ℕ)
    → is_coded c ≡ true
    → (plain (code c) ≡ true)
      × (0 < length (code c))
      × (length (code c) ≤ 49)
      × (matches morse_table 0 (code c) ≡ to_upper c ∷ [])
unfolding entry
code-entry c h =
    let (lt, e, up) = code_lem c h in
    let ok = all_below_sound entry 36 (place c) entries lt in
    let w = get_or morse_table (place c) [] in
    rw (e, ← up)
      (
        ground arith,
        ground arith,
        ground arith,
        same→eq (matches morse_table 0 w) (letter (place c) ∷ []) (ground arith),
      )

word-append : (w t : List ℕ) → plain w ≡ true → word (w ++ 32 ∷ t) ≡ w
unfolding word plain
word-append [] t h = refl
word-append (c ∷ w) t h = ground (arith, word-append w t)

scan-append : (w t temp : List ℕ) → plain w ≡ true → 0 < length w → scan (w ++ 32 ∷ t) temp ≡ w
unfolding scan skip_space word plain
scan-append [] t temp h pos = absurd (omega arith)
scan-append (c ∷ w) t temp h pos =
    let e : is_space c ≡ false = ground arith in ground (arith, word-append w t)

drop-append : (w t : List ℕ) → drop (length w) (w ++ t) ≡ t
drop-append [] t = refl
drop-append (c ∷ w) t = drop-append w t

-- The rest of a text from the first letter or digit on
strip : List ℕ → List ℕ
strip [] = []
strip (c ∷ s) = if is_coded c then c ∷ s else strip s

strip-starts_coded : (s : List ℕ) → starts_coded (strip s) ≡ true
unfolding strip starts_coded
strip-starts_coded [] = refl
strip-starts_coded (c ∷ s) = ground (arith, strip-starts_coded s)

coded_of-strip : (s : List ℕ) → coded_of (strip s) ≡ coded_of s
unfolding strip coded_of
coded_of-strip [] = refl
coded_of-strip (c ∷ s) = ground (arith, coded_of-strip s)

skip_blank-append : (w t : List ℕ) → plain w ≡ true → 0 < length w → skip_blank (w ++ t) ≡ w ++ t
unfolding skip_blank plain
skip_blank-append [] t h pos = absurd (omega arith)
skip_blank-append (c ∷ w) t h pos = ground arith

skip_blank-encode : (s : List ℕ) → skip_blank (encode_morse s) ≡ encode_morse (strip s)
unfolding encode_morse strip skip_blank
skip_blank-encode [] = refl
skip_blank-encode (c ∷ s) = elim (Bool-cases (is_coded c)) [
  | inl coded ↦
      let (p, n, _, _) = code-entry c coded in
      rw coded (skip_blank-append (code c) (32 ∷ encode_morse s) p n)
  | inr not_coded ↦ rw (not_coded, code-none c not_coded) (skip_blank-encode s)
]

length-skip_blank : (s : List ℕ) → length (skip_blank s) ≤ length s
unfolding skip_blank
length-skip_blank [] = omega arith
length-skip_blank (c ∷ s) = ground (arith, length-skip_blank s)

-- A round of `decodeMorse` on a word that a blank follows
round_lem :
    (fuel : ℕ) (w t temp : List ℕ)
    → plain w ≡ true
    → 0 < length w
    → length w ≤ 49
    → {d : List ℕ} → decode_from fuel (skip_blank t) w ≡ some d
    → decode_from (suc fuel) (w ++ 32 ∷ t) temp ≡ some (matches morse_table 0 w ++ d)
unfolding decode_from skip_blank
round_lem fuel [] t temp p pos few e = absurd (omega arith)
round_lem fuel (c ∷ w) t temp p pos few {d} e =
    let scanned = scan-append (c ∷ w) t temp p pos in
    let dropped = drop-append (c ∷ w) (32 ∷ t) in
    let fits : (ltb 49 (length (c ∷ w)) || ltb (length (c ∷ w ++ 32 ∷ t)) (length (c ∷ w)))
        ≡ false =
      ground (arith, length-append w (32 ∷ t)) in
    rw (scanned, dropped, fits, e) (ap (λ v. some (matches morse_table 0 v ++ d)) scanned)

decode-encode :
    (fuel : ℕ) (s temp : List ℕ)
    → starts_coded s ≡ true
    → length (encode_morse s) ≤ fuel
    → decode_from fuel (encode_morse s) temp ≡ some (coded_of s)
unfolding starts_coded encode_morse coded_of decode_from
decode-encode zero [] temp h few = refl
decode-encode (suc fuel) [] temp h few = refl
decode-encode zero (c ∷ s) temp h few =
    absurd (omega (arith, length-append (code c) (32 ∷ encode_morse s)))
decode-encode (suc fuel) (c ∷ s) temp h few =
    let (p, pos, short, hit) = code-entry c h in
    let size = length-append (code c) (32 ∷ encode_morse s) in
    let rest =
      decode-encode fuel (strip s) (code c) (strip-starts_coded s) (
        omega (arith, size, length-skip_blank (encode_morse s), ap length (skip_blank-encode s))) in
    let again : decode_from fuel (skip_blank (encode_morse s)) (code c) ≡ some (coded_of s) =
      rw (skip_blank-encode s, ← coded_of-strip s) rest in
    round_lem fuel (code c) (encode_morse s) temp p pos short again ∙ rw (hit, h) refl

-- Decoding what was encoded, of a text that is empty or starts with a letter or a digit, gives its
-- letters and digits in upper case, whatever `temp` holds before; the word that is read always fits
-- in `temp` and the loop ends.
pub decode_morse-encode_morse :
    (s temp : List ℕ)
    → starts_coded s ≡ true
    → decode_morse (encode_morse s) temp ≡ some (coded_of s)
unfolding decode_morse
decode_morse-encode_morse s temp h = decode-encode (length (encode_morse s)) s temp h (omega arith)
