-- ===== src/Morse.antt =====
-- example_morse.cpp: `encodeMorse` and `decodeMorse`.
--
-- A text is the list of its characters, without the NUL at its end. The buffers that are written are
-- taken to be long enough, but for the `temp` of `decodeMorse`.
pub mod Round
mod Tests
use uc.Prelude.{
  ℕ, zero, suc, ◌+◌, ◌-◌, ◌<◌, ◌++◌, List, [], ◌∷◌, Bool, true, false, ◌&&◌, ◌||◌, not, ltb, leb,
  ◌==◌, if◌then◌else◌, Option, none, some, length, get_or, drop,
}
use uc.Prelude.Texts.{same}

abbrev dot : ℕ
dot = b'.'

abbrev dash : ℕ
dash = b'_'

abbrev space : ℕ
space = b' '

-- `morse_table`: A to Z, then 0 to 9
unfoldable pub morse_table : List (List ℕ)
morse_table =
    (dot ∷ dash ∷ [])
    ∷ (dash ∷ dot ∷ dot ∷ dot ∷ [])
    ∷ (dash ∷ dot ∷ dash ∷ dot ∷ [])
    ∷ (dash ∷ dot ∷ dot ∷ [])
    ∷ (dot ∷ [])
    ∷ (dot ∷ dot ∷ dash ∷ dot ∷ [])
    ∷ (dash ∷ dash ∷ dot ∷ [])
    ∷ (dot ∷ dot ∷ dot ∷ dot ∷ [])
    ∷ (dot ∷ dot ∷ [])
    ∷ (dot ∷ dash ∷ dash ∷ dash ∷ [])
    ∷ (dash ∷ dot ∷ dash ∷ [])
    ∷ (dot ∷ dash ∷ dot ∷ dot ∷ [])
    ∷ (dash ∷ dash ∷ [])
    ∷ (dash ∷ dot ∷ [])
    ∷ (dash ∷ dash ∷ dash ∷ [])
    ∷ (dot ∷ dash ∷ dash ∷ dot ∷ [])
    ∷ (dash ∷ dash ∷ dot ∷ dash ∷ [])
    ∷ (dot ∷ dash ∷ dot ∷ [])
    ∷ (dot ∷ dot ∷ dot ∷ [])
    ∷ (dash ∷ [])
    ∷ (dot ∷ dot ∷ dash ∷ [])
    ∷ (dot ∷ dot ∷ dot ∷ dash ∷ [])
    ∷ (dot ∷ dash ∷ dash ∷ [])
    ∷ (dash ∷ dot ∷ dot ∷ dash ∷ [])
    ∷ (dash ∷ dot ∷ dash ∷ dash ∷ [])
    ∷ (dash ∷ dash ∷ dot ∷ dot ∷ [])
    ∷ (dash ∷ dash ∷ dash ∷ dash ∷ dash ∷ [])
    ∷ (dot ∷ dash ∷ dash ∷ dash ∷ dash ∷ [])
    ∷ (dot ∷ dot ∷ dash ∷ dash ∷ dash ∷ [])
    ∷ (dot ∷ dot ∷ dot ∷ dash ∷ dash ∷ [])
    ∷ (dot ∷ dot ∷ dot ∷ dot ∷ dash ∷ [])
    ∷ (dot ∷ dot ∷ dot ∷ dot ∷ dot ∷ [])
    ∷ (dash ∷ dot ∷ dot ∷ dot ∷ dot ∷ [])
    ∷ (dash ∷ dash ∷ dot ∷ dot ∷ dot ∷ [])
    ∷ (dash ∷ dash ∷ dash ∷ dot ∷ dot ∷ [])
    ∷ (dash ∷ dash ∷ dash ∷ dash ∷ dot ∷ [])
    ∷ []

-- `isalpha`, `isdigit` and `toupper` of the C locale, on ASCII
abbrev pub is_lower : ℕ → Bool
is_lower c = leb b'a' c && leb c b'z'

abbrev pub is_upper : ℕ → Bool
is_upper c = leb b'A' c && leb c b'Z'

abbrev pub is_digit : ℕ → Bool
is_digit c = leb b'0' c && leb c b'9'

abbrev pub is_alpha : ℕ → Bool
is_alpha c = is_lower c || is_upper c

abbrev pub to_upper : ℕ → ℕ
to_upper c = if is_lower c then c - 32 else c

-- What a character adds to the text that is written, without the blank
unfoldable pub code : ℕ → List ℕ
unfolding morse_table
code c =
    (if is_alpha c then get_or morse_table (to_upper c - b'A') [] else [])
    ++ (if is_digit c then get_or morse_table (c - b'0' + (b'Z' - b'A') + 1) [] else [])

-- `encodeMorse`
unfoldable pub encode_morse : List ℕ → List ℕ
unfolding code
encode_morse [] = []
encode_morse (c ∷ s) = code c ++ space ∷ encode_morse s

-- `isspace`
abbrev pub is_space : ℕ → Bool
is_space c = c == 32 || (leb 9 c && leb c 13)

unfoldable pub skip_space : List ℕ → List ℕ
skip_space [] = []
skip_space (c ∷ s) = if is_space c then skip_space s else c ∷ s

-- The characters before the first white space
unfoldable pub word : List ℕ → List ℕ
word [] = []
word (c ∷ s) = if is_space c then [] else c ∷ word s

-- `sscanf(s,"%s",temp)`: without a word in `s`, `temp` stays.
unfoldable pub scan : List ℕ → List ℕ → List ℕ
unfolding skip_space word
scan s temp = elim (word (skip_space s)) [ [] ↦ temp | c ∷ w ↦ c ∷ w ]

-- `while(*s==' ')s++;`
unfoldable pub skip_blank : List ℕ → List ℕ
skip_blank [] = []
skip_blank (c ∷ s) = if c == space then skip_blank s else c ∷ s

-- The character that stands at place `i` of `morse_table`
unfoldable pub letter : ℕ → ℕ
letter i = if ltb i 26 then b'A' + i else b'0' + i - 26

-- The loop over `morse_table` from `i`: the characters that it writes.
unfoldable pub matches : List (List ℕ) → ℕ → List ℕ → List ℕ
unfolding letter
matches [] i temp = []
matches (w ∷ ws) i temp =
    if same temp w then letter i ∷ matches ws (i + 1) temp else matches ws (i + 1) temp

-- The loop of `decodeMorse`. `none` is a write behind `temp`, a step behind the end of `s`, or a loop
-- that does not end. `temp` has at first what the stack holds there. Every other round takes at
-- least one character of `s`.
unfoldable pub decode_from : ℕ → List ℕ → List ℕ → Option (List ℕ)
decode_from zero [] temp = some []
decode_from zero (c ∷ s) temp = none
decode_from (suc fuel) [] temp = some []
decode_from (suc fuel) (c ∷ s) temp =
    let temp' = scan (c ∷ s) temp in
    let rest = decode_from fuel (skip_blank (drop (length temp') (c ∷ s))) temp' in
    if ltb 49 (length temp') || ltb (length (c ∷ s)) (length temp')
    then none
    else elim rest [ none ↦ none | some d ↦ some (matches morse_table 0 temp' ++ d) ]

-- `decodeMorse`
unfoldable pub decode_morse : List ℕ → List ℕ → Option (List ℕ)
unfolding decode_from
decode_morse s temp = decode_from (length s) s temp
