-- ===== src/Ring/Window.antt =====
-- example_unlockqueue.cpp: the bytes between the two indices, round the ring.
use native.Mathlib.Nat.{mod-lt, add-zero, zero-add}
use mathlib.Core.Path.{ap₂}
use mathlib.Core.List.{append-nil, append_assoc}
use uc.Prelude.{
  ℕ, zero, suc, ◌+◌, ◌-◌, ◌%◌, ◌≤◌, ◌<◌, ◌≡◌, ◌≢◌, refl, ap, ◌∙◌, sym, arith, List, [], ◌∷◌, ◌++◌,
  length, set, take, drop, get_or, length-set, get_or-set_self, get_or-set_ne,
}
use uc.Ring.Copy.{ring_write, next-congr, next-mod}

module _ (size : ℕ) where
  -- `n` bytes from the unreduced index `o` on.
  unfoldable pub window : List ℕ → ℕ → ℕ → List ℕ
  window buffer o zero = []
  window buffer o (suc n) = get_or buffer (o % size) 0 ∷ window buffer (o + 1) n

  pub length-window : (buffer : List ℕ) (o n : ℕ) → length (window buffer o n) ≡ n
  unfolding window
  length-window buffer o zero = refl
  length-window buffer o (suc n) = ap suc (length-window buffer (o + 1) n)

  -- Only the reduced index counts.
  pub window_congr :
      (buffer : List ℕ) (a b n : ℕ) → a % size ≡ b % size → window buffer a n ≡ window buffer b n
  unfolding window
  window_congr buffer a b zero e = refl
  window_congr buffer a b (suc n) e =
      ap₂ (λ k t. get_or buffer k 0 ∷ t) e
        (window_congr buffer (a + 1) (b + 1) n (next-congr size a b e))

  -- A byte more at the end.
  window-suc :
      (buffer : List ℕ) (o n : ℕ)
      → window buffer o (suc n) ≡ window buffer o n ++ get_or buffer ((o + n) % size) 0 ∷ []
  unfolding window
  window-suc buffer o zero = ap (λ k. get_or buffer (k % size) 0 ∷ []) (sym (add-zero o))
  window-suc buffer o (suc n) =
      let e : o + 1 + n ≡ o + suc n = omega arith in
      ap (λ t. get_or buffer (o % size) 0 ∷ t)
        (window-suc buffer (o + 1) n
          ∙ ap (λ k. window buffer (o + 1) n ++ get_or buffer (k % size) 0 ∷ []) e)

  window-set_outside :
      (buffer : List ℕ) (o n p x : ℕ)
      → ((k : ℕ) → k < n → (o + k) % size ≢ p)
      → window (set buffer p x) o n ≡ window buffer o n
  unfolding window
  window-set_outside buffer o zero p x out = refl
  window-set_outside buffer o (suc n) p x out =
      let here : o % size ≢ p = λ e. out 0 (omega arith) (ap (λ k. k % size) (add-zero o) ∙ e) in
      ap₂ ◌∷◌ (get_or-set_ne buffer p (o % size) x 0 (λ e. here (sym e))) (
        window-set_outside buffer (o + 1) n p x
          (λ k lt e. out (suc k) (omega arith) (ap (λ t. t % size) (shift k) ∙ e)))
    where
      shift : (k : ℕ) → o + suc k ≡ o + 1 + k
      shift k = omega arith

  apart : (o k : ℕ) → 0 < k → k < size → (o + k) % size ≢ o % size
  apart o k pos lt = grind arith

  apart_below : (o k n : ℕ) → k < n → n < size → (o + k) % size ≢ (o + n) % size
  apart_below o k n lt small e =
      let far : o + n ≡ o + k + (n - k) = omega arith in
      apart (o + k) (n - k) (omega arith) (omega arith) (sym (e ∙ ap (λ t. t % size) far))

  -- A byte written just behind a window that does not fill the ring joins it.
  window-set_end :
      (buffer : List ℕ) (o n x : ℕ)
      → length buffer ≡ size
      → n < size
      → window (set buffer ((o + n) % size) x) o (suc n) ≡ window buffer o n ++ x ∷ []
  window-set_end buffer o n x whole small =
      let p = (o + n) % size in
      let lt : p < size = mod-lt (o + n) (omega arith) in
      window-suc (set buffer p x) o n
      ∙ ap₂ (λ w b. w ++ b ∷ [])
          (window-set_outside buffer o n p x (λ k l. apart_below o k n l small))
          (get_or-set_self buffer p x 0 (rw whole lt))

  -- Bytes written behind a window, as many as the ring has room for, join it in their order.
  pub window-ring_write :
      (buffer : List ℕ) (o n i : ℕ) (xs : List ℕ)
      → length buffer ≡ size
      → n + length xs ≤ size
      → i ≡ o + n
      → window (ring_write size buffer i xs) o (n + length xs) ≡ window buffer o n ++ xs
  unfolding ring_write
  window-ring_write buffer o n i [] whole fits e =
      ap (window buffer o) (add-zero n) ∙ sym (append-nil (window buffer o n))
  window-ring_write buffer o n i (x ∷ xs) whole fits e =
      let b = set buffer (i % size) x in
      let count : n + suc (length xs) ≡ suc n + length xs = omega arith in
      let joined : window b o (suc n) ≡ window buffer o n ++ x ∷ [] =
        ap (λ k. window (set buffer (k % size) x) o (suc n)) e
        ∙ window-set_end buffer o n x whole (omega arith) in
      ap (window (ring_write size b (i + 1) xs) o) count
      ∙ window-ring_write b o (suc n) (i + 1) xs (length-set buffer (i % size) x ∙ whole)
          (omega arith) (omega arith)
      ∙ ap (λ w. w ++ xs) joined
      ∙ append_assoc (window buffer o n) (x ∷ []) xs

  pub window-add :
      (buffer : List ℕ) (o a b : ℕ)
      → window buffer o (a + b) ≡ window buffer o a ++ window buffer (o + a) b
  unfolding window
  window-add buffer o zero b = ap₂ (window buffer) (sym (add-zero o)) (zero-add b)
  window-add buffer o (suc a) b =
      let count : suc a + b ≡ suc (a + b) = omega arith in
      let shift : o + 1 + a ≡ o + suc a = omega arith in
      ap (window buffer o) count
      ∙ ap (λ t. get_or buffer (o % size) 0 ∷ t)
          (window-add buffer (o + 1) a b
            ∙ ap (λ k. window buffer (o + 1) a ++ window buffer k b) shift)

  take-drop-suc :
      (l at : ℕ) (xs : List ℕ)
      → at < length xs
      → take (suc l) (drop at xs) ≡ get_or xs at 0 ∷ take l (drop (at + 1) xs)
  take-drop-suc l at [] h = absurd (omega arith)
  take-drop-suc l zero (x ∷ xs) h = refl
  take-drop-suc l (suc at) (x ∷ xs) h =
      let e : suc at + 1 ≡ suc (at + 1) = omega arith in
      take-drop-suc l at xs (omega arith)
      ∙ ap (λ k. get_or xs at 0 ∷ take l (drop k (x ∷ xs))) (sym e)

  -- A stretch that does not reach past the end of the buffer.
  pub take-drop-window :
      (buffer : List ℕ) (o at l : ℕ)
      → length buffer ≡ size
      → at ≡ o % size
      → at + l ≤ size
      → take l (drop at buffer) ≡ window buffer o l
  unfolding window
  take-drop-window buffer o at zero whole e fits = refl
  take-drop-window buffer o at (suc zero) whole e fits =
      take-drop-suc 0 at buffer (omega arith) ∙ ap (λ k. get_or buffer k 0 ∷ []) e
  take-drop-window buffer o at (suc (suc l)) whole e fits =
      let on : at + 1 ≡ (o + 1) % size = omega (arith, next-mod o size (omega arith)) in
      take-drop-suc (suc l) at buffer (omega arith)
      ∙ ap₂ (λ k t. get_or buffer k 0 ∷ t) e
          (take-drop-window buffer (o + 1) (at + 1) (suc l) whole on (omega arith))
