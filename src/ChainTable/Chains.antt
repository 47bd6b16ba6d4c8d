-- ===== src/ChainTable/Chains.antt =====
-- example_hashtable2.cpp: what a search finds in a chain that an operation has changed.
use uc.Prelude.{
  ℕ, List, [], ◌∷◌, none, Bool, false, ◌≡◌, ◌≢◌, refl, sym, ap, ◌∙◌, arith, Bool-cases, inl, inr,
  if◌then◌else◌,
}
use uc.Prelude.Texts.{same, same→eq, same→ne, ne→same}
use uc.ChainTable.{Node, find, unlink, remove_node, pos}

-- The keys of a chain are those of its position, each once.
unfoldable pub IsChain : ℕ → List Node → Type 0
IsChain p [] = Unit
IsChain p (e ∷ es) = (pos e.key ≡ p) × (find es e.key ≡ none) × IsChain p es

-- A key of another position is not found.
pub find-other :
    (p : ℕ) (es : List Node) (key : List ℕ) → IsChain p es → pos key ≢ p → find es key ≡ none
unfolding find IsChain
find-other p [] key v ne = refl
find-other p (e ∷ es) key (at_p, once, rest) ne =
    rw (ne→same key e.key (λ same_key. ne (ap pos same_key ∙ at_p))) (find-other p es key rest ne)

-- A node that keeps its place, when `key` is taken out behind it.
find-behind :
    (e : Node) (es : List Node) (key k : List ℕ)
    → same key e.key ≡ false
    → find (unlink es key) k ≡ (if same key k then none else find es k)
    → find (e ∷ unlink es key) k ≡ (if same key k then none else find (e ∷ es) k)
unfolding find
find-behind e es key k elsewhere tail = elim (Bool-cases (same key k)) [
  | inl it ↦
      let e_k : key ≡ k = same→eq key k it in
      let miss : same k e.key ≡ false = ap (λ x. same x e.key) (sym e_k) ∙ elsewhere in
      let tail' : find (unlink es key) k ≡ none = tail ∙ rw it refl in rw (it, miss) tail'
  | inr apart ↦
      let tail' : find (unlink es key) k ≡ find es k = tail ∙ rw apart refl in
      rw (apart, tail') refl
]

-- Taken out, a key is not found, and the others are as before.
pub find-unlink :
    (p : ℕ) (es : List Node) (key k : List ℕ)
    → IsChain p es
    → find (unlink es key) k ≡ (if same key k then none else find es k)
unfolding find unlink IsChain
find-unlink p [] key k v = ground arith
find-unlink p (e ∷ es) key k (at_p, once, rest) = elim (Bool-cases (same key e.key)) [
  | inl here ↦ elim (Bool-cases (same key k)) [
    | inl it ↦
        let same_key : k ≡ e.key = sym (same→eq key k it) ∙ same→eq key e.key here in
        rw (here, it, same_key) once
    | inr apart ↦
        let ne : same k e.key ≡ false =
          ne→same k e.key (λ x. same→ne key k apart (same→eq key e.key here ∙ sym x)) in
        rw (here, apart, ne) refl
  ]
  | inr elsewhere ↦
      let tail = find-behind e es key k elsewhere (find-unlink p es key k rest) in rw elsewhere tail
]

unlink-IsChain : (p : ℕ) (es : List Node) (key : List ℕ) → IsChain p es → IsChain p (unlink es key)
unfolding unlink IsChain
unlink-IsChain p [] key v = v
unlink-IsChain p (e ∷ es) key (at_p, once, rest) = elim (Bool-cases (same key e.key)) [
  | inl here ↦ rw here rest
  | inr elsewhere ↦
      rw elsewhere
        (at_p, find-unlink p es key e.key rest ∙ rw elsewhere once, unlink-IsChain p es key rest)
]

pub remove_node-IsChain :
    (p : ℕ) (es : List Node) (key : List ℕ) → IsChain p es → IsChain p (remove_node es key)
unfolding remove_node IsChain
remove_node-IsChain p [] key v = v
remove_node-IsChain p (e ∷ es) key (at_p, once, rest) = elim (Bool-cases (same key e.key)) [
  | inl here ↦ rw here tt
  | inr elsewhere ↦
      rw elsewhere
        (at_p, find-unlink p es key e.key rest ∙ rw elsewhere once, unlink-IsChain p es key rest)
]

-- The key of the first node of a chain.
unfoldable pub leads : List Node → List ℕ → Bool
leads [] key = false
leads (e ∷ es) key = same key e.key

-- The key that leads the chain takes all others with it; another one goes alone.
pub find-remove_node :
    (p : ℕ) (es : List Node) (key k : List ℕ)
    → IsChain p es
    → find (remove_node es key) k
      ≡ (if leads es key then none else (if same key k then none else find es k))
unfolding remove_node find leads IsChain
find-remove_node p [] key k v = ground arith
find-remove_node p (e ∷ es) key k (at_p, once, rest) = elim (Bool-cases (same key e.key)) [
  | inl here ↦ rw here refl
  | inr elsewhere ↦
      let tail = find-behind e es key k elsewhere (find-unlink p es key k rest) in rw elsewhere tail
]
