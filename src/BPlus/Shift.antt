-- ===== src/BPlus/Shift.antt =====
-- example_bplus_tree.cpp: what the shifting loops of the two `insert` leave in the arrays.
use uc.Prelude.{
  ℕ, zero, suc, ◌+◌, ◌-◌, ◌≤◌, ◌<◌, ◌≡◌, ◌≢◌, refl, ap, ◌∙◌, arith, ◌==◌, false, ne→==,
}
use native.Mathlib.Decide.{dec_lt}
use uc.BPlus.{Node, put, insert_shift, insert_child}

pub put_self {ℓ} : {A : Type ℓ} (f : ℕ → A) (i : ℕ) (v : A) → put f i v i ≡ v
unfolding put
put_self f i v = ground arith

pub put_ne {ℓ} : {A : Type ℓ} (f : ℕ → A) (i j : ℕ) (v : A) → j ≢ i → put f i v j ≡ f j
unfolding put
put_ne f i j v ne = rw (ne→== j i ne) refl

-- What stands behind the loop: the places up to `at` as before, those from there to `end` one up,
-- and those behind as before.
pub record Shifted {ℓ} {A : Type ℓ} (at end : ℕ) (f g : ℕ → A) : Type ℓ where
  pub below : (j : ℕ) → j ≤ at → g j ≡ f j
  pub moved : (j : ℕ) → at ≤ j → j < end → g (suc j) ≡ f j
  pub behind : (j : ℕ) → end < j → g j ≡ f j

-- One round more, which comes first.
Shifted-put {ℓ} :
    {A : Type ℓ} (at end i p end' : ℕ) (f g : ℕ → A)
    → at ≤ end
    → i ≡ suc end
    → p ≡ end
    → end' ≡ suc end
    → Shifted at end (put f i (f p)) g
    → Shifted at end' f g
Shifted-put at end i p end' f g room e_i e_p e_end s = record {
  below = λ j le. s.below j le ∙ put_ne f i j (f p) (omega arith);
  moved = λ j ge lt. elim (dec_lt j end) [
    | yes inside ↦ s.moved j ge inside ∙ put_ne f i j (f p) (omega arith)
    | no last ↦
        let e : i ≡ suc j = omega arith in
        s.behind (suc j) (omega arith)
        ∙ rw e (put_self f (suc j) (f p))
        ∙ ap f (let q : p ≡ j = omega arith in q)
  ];
  behind = λ j lt. s.behind j (omega arith) ∙ put_ne f i j (f p) (omega arith);
}

pub insert_shift_lem :
    (at n : ℕ) (keys : ℕ → ℕ) (childs : ℕ → Node)
    → Shifted at (at + n) keys (insert_shift at n keys childs).0
      × Shifted (at + 1) (at + 1 + n) childs (insert_shift at n keys childs).1
unfolding insert_shift
insert_shift_lem at zero keys childs = (
  record { below = λ j le. refl; moved = λ j ge lt. absurd (omega arith); behind = λ j lt. refl },
  record { below = λ j le. refl; moved = λ j ge lt. absurd (omega arith); behind = λ j lt. refl },
)
insert_shift_lem at (suc n) keys childs =
    let i = at + n + 1 in
    let (k, c) =
      insert_shift_lem at n (put keys i (keys (i - 1))) (put childs (i + 1) (childs i)) in
    (
      Shifted-put at (at + n) i (i - 1) (at + suc n) keys _ (omega arith) (omega arith)
          (omega arith) (omega arith) k,
      Shifted-put (at + 1) (at + 1 + n) (i + 1) i (at + 1 + suc n) childs _ (omega arith)
          (omega arith) (omega arith) (omega arith) c,
    )

-- The arrays of a node of `n` keys behind the insertion of a key at `i` and a child behind it.
pub record Inserted (n i key : ℕ) (child : Node) (keys keys' : ℕ → ℕ) (childs childs' : ℕ → Node)
    : Type 0 where
  pub low_keys : (j : ℕ) → j < i → keys' j ≡ keys j
  pub new_key : keys' i ≡ key
  pub high_keys : (j : ℕ) → i ≤ j → j < n → keys' (suc j) ≡ keys j
  pub low_childs : (j : ℕ) → j < i + 1 → childs' j ≡ childs j
  pub new_child : childs' (i + 1) ≡ child
  pub high_childs : (j : ℕ) → i + 1 ≤ j → j < n + 1 → childs' (suc j) ≡ childs j

pub insert_child_lem :
    (n : ℕ) (keys : ℕ → ℕ) (childs : ℕ → Node) (i key : ℕ) (child : Node)
    → i ≤ n
    → let (keys', childs') = insert_child n keys childs i (i + 1) key child in
      Inserted n i key child keys keys' childs childs'
unfolding insert_child
insert_child_lem n keys childs i key child le =
    let (k, c) = insert_shift_lem i (n - i) keys childs in
    let (ks, cs) = insert_shift i (n - i) keys childs in
    let apart : (i == i + 1) ≡ false = ne→== i (i + 1) (omega arith) in
    rw apart (record {
      low_keys = λ j lt. put_ne ks i j key (omega arith) ∙ k.below j (omega arith);
      new_key = put_self ks i key;
      high_keys = λ j ge lt. put_ne ks i (suc j) key (omega arith) ∙ k.moved j ge (omega arith);
      low_childs = λ j lt. put_ne cs (i + 1) j child (omega arith) ∙ c.below j (omega arith);
      new_child = put_self cs (i + 1) child;
      high_childs =
          λ j ge lt. put_ne cs (i + 1) (suc j) child (omega arith) ∙ c.moved j ge (omega arith);
    })
