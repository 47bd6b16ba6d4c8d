-- ===== src/Morse/Tests.antt =====
-- example_morse.cpp: tests, and the theorem at a concrete text.
use uc.Prelude.{ℕ, ◌≡◌, refl, List, [], ◌∷◌, some}
use uc.Prelude.Texts.{same}
use uc.Morse.{encode_morse, decode_morse, decode_from, scan, skip_blank, matches, morse_table}
use uc.Morse.Round.{coded_of, starts_coded, decode_morse-encode_morse}

-- "Hi 5!"
abbrev hi_5 : List ℕ
hi_5 = b'H' ∷ b'i' ∷ b' ' ∷ b'5' ∷ b'!' ∷ []

encode_runs : encode_morse (b'A' ∷ b'?' ∷ b'e' ∷ []) ≡ b'.' ∷ b'_' ∷ b' ' ∷ b' ' ∷ b'.' ∷ b' ' ∷ []
unfolding encode_morse
encode_runs = refl

decode_runs : decode_morse (encode_morse hi_5) [] ≡ some (b'H' ∷ b'I' ∷ b'5' ∷ [])
unfolding encode_morse decode_morse decode_from scan skip_blank matches morse_table same
decode_runs = refl

-- The text "?A" starts with a blank in its code, and is decoded to "AT".
decode_after_blank : decode_morse (encode_morse (b'?' ∷ b'A' ∷ [])) [] ≡ some (b'A' ∷ b'T' ∷ [])
unfolding encode_morse decode_morse decode_from scan skip_blank matches morse_table same
decode_after_blank = refl

decode_morse-encode_morse_example :
    decode_morse (encode_morse hi_5) (1 ∷ 2 ∷ []) ≡ some (coded_of hi_5)
unfolding starts_coded
decode_morse-encode_morse_example = decode_morse-encode_morse hi_5 (1 ∷ 2 ∷ []) refl
