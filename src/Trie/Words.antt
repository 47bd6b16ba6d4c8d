-- ===== src/Trie/Words.antt =====
-- example_trie.cpp: the words that `do_travel` prints where they fit into `worddump`.
use uc.Prelude.{
  ℕ, zero, suc, ◌+◌, ◌<◌, ◌≡◌, ◌≢◌, ◌⊎◌, ◌↔◌, inl, inr, refl, sym, ap, ◌∙◌, arith, ==→ne, ne→==,
  Bool-cases, List, [], ◌∷◌, ◌++◌, ◌==◌, if◌then◌else◌, false,
}
use mathlib.Core.List.{append-nil, append_assoc}
use native.Mathlib.Decide.{ℕ_discrete}
use uc.Trie.{Trie, missing, node, tree_width}
use uc.Trie.Counts.{walk, count, pass}

-- What the children below `n` print
unfoldable pub all_children {ℓ} : {A : Type ℓ} → ℕ → (ℕ → List A) → List A
all_children zero prints = []
all_children (suc n) prints = all_children n prints ++ prints n

-- The words behind `u`, each with its number, in the order of `do_travel`
unfoldable pub words_of : Trie → List ℕ → List (List ℕ × ℕ)
words_of missing u = []
words_of (node c p next) u =
    (if c == 0 then [] else ((u, c + p) ∷ []))
    ++ all_children tree_width (λ i. words_of (next i) (u ++ (i ∷ [])))

-- The entry stands in the list.
unfoldable pub In : List ℕ × ℕ → List (List ℕ × ℕ) → Type 0
In x [] = ⊥
In x (y ∷ ys) = (x ≡ y) ⊎ In x ys

In-append : (x : List ℕ × ℕ) (xs ys : List (List ℕ × ℕ)) → In x (xs ++ ys) ↔ (In x xs ⊎ In x ys)
unfolding In
In-append x [] ys = ((λ i. inr i), (λ i. elim i [ inl z ↦ absurd z | inr j ↦ j ]))
In-append x (y ∷ xs) ys =
    let (to, of) = In-append x xs ys in
    (
      (λ i. elim i [
        | inl here ↦ inl (inl here)
        | inr later ↦ elim (to later) [ inl a ↦ inl (inr a) | inr b ↦ inr b ]
      ]),
      (λ i. elim i [
        | inl a ↦ elim a [ inl here ↦ inl here | inr later ↦ inr (of (inl later)) ]
        | inr b ↦ inr (of (inr b))
      ]),
    )

In-all_children :
    (x : List ℕ × ℕ) (n : ℕ) (prints : ℕ → List (List ℕ × ℕ))
    → In x (all_children n prints) ↔ ((i : ℕ) × (i < n) × In x (prints i))
unfolding all_children In
In-all_children x zero prints = ((λ z. absurd z), (λ (i, lt, h). absurd (omega arith)))
In-all_children x (suc n) prints =
    let (to, of) = In-all_children x n prints in
    let (split, join) = In-append x (all_children n prints) (prints n) in
    (
      (λ h. elim (split h) [
        | inl early ↦ let (i, lt, there) = to early in (i, omega arith, there)
        | inr last ↦ (n, omega arith, last)
      ]),
      (λ (i, lt, there). elim (ℕ_discrete i n) [
        | yes e ↦ join (inr (rw (← e) there))
        | no ne ↦ join (inl (of (i, omega arith, there)))
      ]),
    )

-- Every char is an index of `next`.
unfoldable pub Chars : List ℕ → Type 0
Chars [] = Unit
Chars (b ∷ v) = (b < tree_width) × Chars v

-- The entry is `u` with a word of the trie behind it, and the sum of the word's counters.
unfoldable pub Counted : Trie → List ℕ → List ℕ × ℕ → Type 0
Counted t u x =
    (v : List ℕ) × (x ≡ (u ++ v, count (walk v t) + pass (walk v t)))
    × Chars v
    × (count (walk v t) ≢ 0)

-- The word of the node itself.
In-head :
    (c p : ℕ) (next : ℕ → Trie) (u : List ℕ) (x : List ℕ × ℕ)
    → In x (if c == 0 then [] else ((u, c + p) ∷ []))
    → Counted (node c p next) u x
unfolding Counted Chars walk count pass In
In-head c p next u x h = elim (Bool-cases (c == 0)) [
  | inl zero_count ↦ absurd (let z : In x [] = rw zero_count at h in z)
  | inr used ↦
      let one : In x ((u, c + p) ∷ []) = rw used at h in
      elim one [
        | inl here ↦ ([], here ∙ ap (λ w. (w, c + p)) (sym (append-nil u)), tt, ==→ne c 0 used)
        | inr z ↦ absurd z
      ]
]

-- A word that is counted is printed, if those below the children are.
Counted-In :
    (c p : ℕ) (next : ℕ → Trie) (u : List ℕ) (x : List ℕ × ℕ)
    → ((i : ℕ) → Counted (next i) (u ++ (i ∷ [])) x → In x (words_of (next i) (u ++ (i ∷ []))))
    → (v : List ℕ) → x ≡ (u ++ v, count (walk v (node c p next)) + pass (walk v (node c p next)))
    → Chars v
    → count (walk v (node c p next)) ≢ 0
    → In x (words_of (node c p next) u)
unfolding Counted Chars walk count pass In words_of
Counted-In c p next u x below [] e chars used =
    let off : (c == 0) ≡ false = ne→== c 0 used in
    rw off (inl (e ∙ ap (λ w. (w, c + p)) (append-nil u)))
Counted-In c p next u x below (i ∷ v) e (lt, chars) used =
    let rest : ℕ → List (List ℕ × ℕ) = λ k. words_of (next k) (u ++ (k ∷ [])) in
    let e' =
      e
      ∙ ap (λ w. (w, count (walk v (next i)) + pass (walk v (next i))))
          (sym (append_assoc u (i ∷ []) v)) in
    let here = (In-all_children x tree_width rest).1 (i, lt, below i (v, e', chars, used)) in
    (In-append x (if c == 0 then [] else ((u, c + p) ∷ [])) (all_children tree_width rest)).1
      (inr here)

-- The list has the words that have been counted, and nothing else.
pub words_of_lem : (t : Trie) (u : List ℕ) (x : List ℕ × ℕ) → In x (words_of t u) ↔ Counted t u x
unfolding words_of Counted Chars walk count pass In
words_of_lem missing u x = ((λ z. absurd z), (λ (v, e, chars, used). absurd (used refl)))
words_of_lem (node c p next) u x =
    let head : List (List ℕ × ℕ) = if c == 0 then [] else ((u, c + p) ∷ []) in
    let rest : ℕ → List (List ℕ × ℕ) = λ i. words_of (next i) (u ++ (i ∷ [])) in
    (
      (λ h. elim ((In-append x head (all_children tree_width rest)).0 h) [
        | inl first ↦ In-head c p next u x first
        | inr below ↦
            let (i, lt, there) = (In-all_children x tree_width rest).0 below in
            let (v, e, chars, used) = (words_of_lem (next i) (u ++ (i ∷ [])) x).0 there in
            (
              i ∷ v,
              e
                  ∙ ap (λ w. (w, count (walk v (next i)) + pass (walk v (next i))))
                      (append_assoc u (i ∷ []) v),
              (lt, chars),
              used,
            )
      ]),
      (λ (v, e, chars, used).
          Counted-In c p next u x (λ i. (words_of_lem (next i) (u ++ (i ∷ [])) x).1) v e chars
            used),
    )
