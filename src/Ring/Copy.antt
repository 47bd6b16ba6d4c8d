-- ===== src/Ring/Copy.antt =====
-- example_unlockqueue.cpp: the two `memcpy` of `Put`, round the ring.
use Prim.Native.Nat.{min}
use native.Mathlib.Nat.{mod-lt, add-mod}
use native.Mathlib.Decide.{dec_lt}
use uc.Prelude.{
  ℕ, zero, suc, ◌+◌, ◌-◌, ◌%◌, ◌≤◌, ◌<◌, ◌≡◌, refl, ap, ◌∙◌, sym, arith, List, [], ◌∷◌, ◌++◌,
  length, set, take, drop, take-append-drop, take_all, length-take, length-drop, length-set,
}
use uc.Ring.{copy}

-- `xs` from the unreduced index `i` on.
unfoldable pub ring_write : ℕ → List ℕ → ℕ → List ℕ → List ℕ
ring_write size buffer i [] = buffer
ring_write size buffer i (x ∷ xs) = ring_write size (set buffer (i % size) x) (i + 1) xs

pub length-ring_write :
    (size : ℕ) (buffer : List ℕ) (i : ℕ) (xs : List ℕ)
    → length (ring_write size buffer i xs) ≡ length buffer
unfolding ring_write
length-ring_write size buffer i [] = refl
length-ring_write size buffer i (x ∷ xs) =
    length-ring_write size (set buffer (i % size) x) (i + 1) xs ∙ length-set buffer (i % size) x

pub next-congr : (size a b : ℕ) → a % size ≡ b % size → (a + 1) % size ≡ (b + 1) % size
next-congr size a b e =
    add-mod a 1 size ∙ ap (λ k. (k + 1 % size) % size) e ∙ sym (add-mod b 1 size)

-- Only the reduced index counts.
pub ring_write_congr :
    (size : ℕ) (buffer : List ℕ) (i j : ℕ) (xs : List ℕ)
    → i % size ≡ j % size
    → ring_write size buffer i xs ≡ ring_write size buffer j xs
unfolding ring_write
ring_write_congr size buffer i j [] e = refl
ring_write_congr size buffer i j (x ∷ xs) e =
    ap (λ k. ring_write size (set buffer k x) (i + 1) xs) e
    ∙ ring_write_congr size (set buffer (j % size) x) (i + 1) (j + 1) xs (next-congr size i j e)

ring_write-append :
    (size : ℕ) (buffer : List ℕ) (i j : ℕ) (xs ys : List ℕ)
    → j ≡ i + length xs
    → ring_write size buffer i (xs ++ ys) ≡ ring_write size (ring_write size buffer i xs) j ys
unfolding ring_write
ring_write-append size buffer i j [] ys e = ap (λ k. ring_write size buffer k ys) (omega arith)
ring_write-append size buffer i j (x ∷ xs) ys e =
    ring_write-append size (set buffer (i % size) x) (i + 1) j xs ys (omega arith)

-- One step round the ring, short of its end.
pub next-mod : (i size : ℕ) → i % size + 1 < size → (i + 1) % size ≡ i % size + 1
next-mod i size h = grind arith

pub wrap-mod : (i l size : ℕ) → 0 < size → i % size + l ≡ size → (i + l) % size ≡ 0
wrap-mod i l size pos h = grind arith

copy-ring_write :
    (size : ℕ) (buffer : List ℕ) (i at : ℕ) (xs : List ℕ)
    → at ≡ i % size
    → at + length xs ≤ size
    → copy buffer at xs ≡ ring_write size buffer i xs
unfolding copy ring_write
copy-ring_write size buffer i at [] e fits = refl
copy-ring_write size buffer i at (x ∷ []) e fits = ap (λ k. set buffer k x) e
copy-ring_write size buffer i at (x ∷ y ∷ ys) e fits =
    ap (λ k. copy (set buffer k x) (at + 1) (y ∷ ys)) e
    ∙ copy-ring_write size (set buffer (i % size) x) (i + 1) (at + 1) (y ∷ ys)
        (omega (arith, next-mod i size (omega arith))) (omega arith)

drop_all : (n : ℕ) (xs : List ℕ) → length xs ≤ n → drop n xs ≡ []
drop_all zero [] h = refl
drop_all zero (x ∷ xs) h = absurd (omega arith)
drop_all (suc n) [] h = refl
drop_all (suc n) (x ∷ xs) h = drop_all n xs (omega arith)

-- The part up to the end of the buffer, and then the rest from its start.
pub copy_twice :
    (size : ℕ) (buffer : List ℕ) (i : ℕ) (xs : List ℕ)
    → 0 < size
    → length xs ≤ size
    → let l = min (length xs) (size - i % size) in
      copy (copy buffer (i % size) (take l xs)) 0 (drop l xs) ≡ ring_write size buffer i xs
unfolding copy
copy_twice size buffer i xs pos fits =
    let l = min (length xs) (size - i % size) in
    let lt = mod-lt i pos in
    let first =
      copy-ring_write size buffer i (i % size) (take l xs) refl (omega (arith, length-take l xs)) in
    elim (dec_lt (size - i % size) (length xs)) [
      | yes more ↦
          let back : 0 ≡ (i + l) % size = sym (wrap-mod i l size pos (omega arith)) in
          ap (λ b. copy b 0 (drop l xs)) first
          ∙ copy-ring_write size (ring_write size buffer i (take l xs)) (i + l) 0 (drop l xs) back
              (omega (arith, length-drop l xs))
          ∙ sym (
              ring_write-append size buffer i (i + l) (take l xs) (drop l xs)
                (omega (arith, length-take l xs)))
          ∙ ap (ring_write size buffer i) (take-append-drop l xs)
      | no less ↦
          let all : take l xs ≡ xs = take_all l xs (omega arith) in
          ap (λ r. copy (copy buffer (i % size) (take l xs)) 0 r) (drop_all l xs (omega arith))
          ∙ first
          ∙ ap (ring_write size buffer i) all
    ]
