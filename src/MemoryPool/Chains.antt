-- ===== src/MemoryPool/Chains.antt =====
-- example_mem_pool.cpp: the list of blocks that a pointer leads to.
use uc.Prelude.{
  ℕ, ◌≡◌, refl, ◌∙◌, arith, List, [], ◌∷◌, ◌++◌, Bool, true, false, ◌==◌, ◌||◌, none, some,
  some_inj, eq→==, ne→==,
}
use uc.MemoryPool.{Pointer, Block, update}

unfoldable pub has : List ℕ → ℕ → Bool
has [] k = false
has (b ∷ bs) k = k == b || has bs k

-- From `p` on, `pNext` leads through the blocks of the list, and no block is there twice.
unfoldable pub IsChain : (ℕ → Block) → Pointer → List ℕ → Type 0
IsChain f p [] = p ≡ none
IsChain f p (b ∷ bs) = (p ≡ some b) × ((has bs b ≡ false) × IsChain f ((f b).p_next) bs)

-- The last block of a list
unfoldable pub last_of : List ℕ → Pointer
last_of [] = none
last_of (b ∷ []) = some b
last_of (b ∷ c ∷ bs) = last_of (c ∷ bs)

-- A write to another block
pub IsChain-update :
    (f : ℕ → Block) (p : Pointer) (bs : List ℕ) (k : ℕ) (v : Block)
    → has bs k ≡ false
    → IsChain f p bs
    → IsChain (update f k v) p bs
unfolding IsChain has
IsChain-update f p [] k v h c = c
IsChain-update f p (b ∷ bs) k v h (e, (once, rest)) =
    let ne : (b == k) ≡ false = ground arith in
    (e, (once, rw ne (IsChain-update f ((f b).p_next) bs k v (ground arith) rest)))

pub has-append : (bs : List ℕ) (b k : ℕ) → has (bs ++ b ∷ []) k ≡ (has bs k || k == b)
unfolding has
has-append [] b k = ground arith
has-append (c ∷ bs) b k = ground (arith, has-append bs b k)

==-refl : (i : ℕ) → (i == i) ≡ true
==-refl i = eq→== i i refl

pub has-last_of : (bs : List ℕ) (t : ℕ) → last_of bs ≡ some t → has bs t ≡ true
unfolding has last_of
has-last_of [] t l = absurd (ground arith)
has-last_of (x ∷ []) t l = ground arith
has-last_of (x ∷ y ∷ bs) t l = ground (arith, has-last_of (y ∷ bs) t l)

pub last_of-append : (bs : List ℕ) (b : ℕ) → last_of (bs ++ b ∷ []) ≡ some b
unfolding last_of
last_of-append [] b = refl
last_of-append (x ∷ []) b = refl
last_of-append (x ∷ y ∷ bs) b = last_of-append (y ∷ bs) b

-- A new block behind the last
pub IsChain-append :
    (f : ℕ → Block) (p : Pointer) (bs : List ℕ) (t b : ℕ) (v : Block)
    → IsChain f p bs
    → last_of bs ≡ some t
    → has bs b ≡ false
    → (f b).p_next ≡ none
    → v.p_next ≡ some b
    → IsChain (update f t v) p (bs ++ b ∷ [])
unfolding IsChain has last_of
IsChain-append f p [] t b v c l n e w = absurd (ground arith)
IsChain-append f p (x ∷ []) t b v (e, (once, rest)) l n e' w =
    let same : x ≡ t = some_inj x t l in
    let far : (b == x) ≡ false = ground arith in
    rw (← same) (e, (ground arith, (rw (==-refl x) w, (refl, rw far e'))))
IsChain-append f p (x ∷ y ∷ bs) t b v (e, (once, rest)) l n e' w =
    let inside : has (y ∷ bs) t ≡ true = has-last_of (y ∷ bs) t l in
    let far : (x == t) ≡ false =
      ne→== x t (λ same. let z : has (y ∷ bs) t ≡ false = rw (← same) once in cc) in
    let apart : (x == b) ≡ false = ground arith in
    let tail = IsChain-append f ((f x).p_next) (y ∷ bs) t b v rest l (ground arith) e' w in
    (e, (has-append (y ∷ bs) b x ∙ rw (once, apart) refl, rw far tail))
