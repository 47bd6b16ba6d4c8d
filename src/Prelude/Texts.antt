-- ===== src/Prelude/Texts.antt =====
-- Texts as lists of characters.
use mathlib.Core.Path.{◌≡◌, refl}
use mathlib.Core.Logic.{◌≢◌, inl, inr}
use mathlib.Core.Bool.{Bool, true, false, ◌&&◌}
use mathlib.Core.List.{List, [], ◌∷◌}
use native.Mathlib.Omega.{arith}
use Prim.Native.Nat.{ℕ}
use uc.Prelude.Tests.{◌==◌, Bool-cases}

-- `strcmp(a, b) == 0`
unfoldable pub same : List ℕ → List ℕ → Bool
same [] [] = true
same [] (b ∷ ys) = false
same (a ∷ xs) [] = false
same (a ∷ xs) (b ∷ ys) = a == b && same xs ys

pub same_refl : (a : List ℕ) → same a a ≡ true
unfolding same
same_refl [] = refl
same_refl (x ∷ xs) = ground (arith, same_refl xs)

pub same→eq : (a b : List ℕ) → same a b ≡ true → a ≡ b
unfolding same
same→eq [] [] h = refl
same→eq [] (b ∷ ys) h = cc
same→eq (a ∷ xs) [] h = cc
same→eq (a ∷ xs) (b ∷ ys) h =
    let e : a ≡ b = ground arith in let e' : xs ≡ ys = same→eq xs ys (ground arith) in cc

pub same→ne : (a b : List ℕ) → same a b ≡ false → a ≢ b
same→ne a b h e = let t : same a b ≡ true = rw e (same_refl b) in cc

pub ne→same : (a b : List ℕ) → a ≢ b → same a b ≡ false
ne→same a b ne = elim (Bool-cases (same a b)) [ inl t ↦ absurd (ne (same→eq a b t)) | inr f ↦ f ]
