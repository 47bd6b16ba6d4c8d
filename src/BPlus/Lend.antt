-- ===== src/BPlus/Lend.antt =====
-- example_bplus_tree.cpp: what a node and its sibling hold when one borrows from the other.
use uc.Prelude.{ℕ, zero, suc, ◌+◌, ◌-◌, ◌≤◌, ◌<◌, ◌≡◌, refl, sym, ap, ◌∙◌, arith}
use native.Mathlib.Decide.{ℕ_discrete}
use uc.BPlus.{Node, leaf, put, insert_entry, remove_entry}
use uc.BPlus.Borrow.{Direction, left, right, remove_loop, borrow_entry}
use uc.BPlus.Arrays.{sum, sum-inserted}
use uc.BPlus.Shift.{put_self, put_ne}
use uc.BPlus.Leaf.{insert_entry-Placed}
use uc.BPlus.Shape.{total}

-- The places up to `i` are as before, and the `r` from there on have what stood one up.
pub record Closed {ℓ} {A : Type ℓ} (i r : ℕ) (f g : ℕ → A) : Type ℓ where
  pub below : (j : ℕ) → j < i → g j ≡ f j
  pub moved : (j : ℕ) → i ≤ j → j < i + r → g j ≡ f (suc j)
  pub behind : (j : ℕ) → i + r ≤ j → g j ≡ f j

Closed-zero {ℓ} : {A : Type ℓ} (i : ℕ) (f : ℕ → A) → Closed i 0 f f
Closed-zero i f = record {
  below = λ j lt. refl;
  moved = λ j ge lt. absurd (omega arith);
  behind = λ j ge. refl;
}

-- One round more, which comes first.
Closed-put {ℓ} :
    {A : Type ℓ} (i i' p r : ℕ) (f g : ℕ → A)
    → i' ≡ suc i
    → p ≡ suc i
    → Closed i' r (put f i (f p)) g
    → Closed i (suc r) f g
Closed-put i i' p r f g e_i e_p s = record {
  below = λ j lt. s.below j (omega arith) ∙ put_ne f i j (f p) (omega arith);
  moved = λ j ge lt. elim (ℕ_discrete j i) [
    | yes here ↦
        s.below j (omega arith)
        ∙ rw here (put_self f i (f p))
        ∙ ap f (let e : p ≡ suc j = omega arith in e)
    | no above ↦ s.moved j (omega arith) (omega arith) ∙ put_ne f i (suc j) (f p) (omega arith)
  ];
  behind = λ j ge. s.behind j (omega arith) ∙ put_ne f i j (f p) (omega arith);
}

pub remove_entry-Closed :
    (r i : ℕ) (keys datas : ℕ → ℕ)
    → Closed i r keys (remove_entry r i keys datas).0
      × Closed i r datas (remove_entry r i keys datas).1
unfolding remove_entry
remove_entry-Closed zero i keys datas = (Closed-zero i keys, Closed-zero i datas)
remove_entry-Closed (suc r) i keys datas =
    let (k, d) =
      remove_entry-Closed r (i + 1) (put keys i (keys (i + 1))) (put datas i (datas (i + 1))) in
    (
      Closed-put i (i + 1) (i + 1) r keys _ (omega arith) (omega arith) k,
      Closed-put i (i + 1) (i + 1) r datas _ (omega arith) (omega arith) d,
    )

pub remove_loop-Closed :
    (r i k c : ℕ) (keys : ℕ → ℕ) (childs : ℕ → Node)
    → Closed (k + i) r keys (remove_loop r i k c keys childs).0
      × Closed (c + i) r childs (remove_loop r i k c keys childs).1
unfolding remove_loop
remove_loop-Closed zero i k c keys childs = (Closed-zero (k + i) keys, Closed-zero (c + i) childs)
remove_loop-Closed (suc r) i k c keys childs =
    let (ks, cs) =
      remove_loop-Closed r (i + 1) k c (put keys (k + i) (keys (k + i + 1)))
        (put childs (c + i) (childs (c + i + 1))) in
    (
      Closed-put (k + i) (k + (i + 1)) (k + i + 1) r keys _ (omega arith) (omega arith) ks,
      Closed-put (c + i) (c + (i + 1)) (c + i + 1) r childs _ (omega arith) (omega arith) cs,
    )

-- The total of a leaf behind `CLeafNode::insert`.
pub insert_entry-total :
    (n : ℕ) (keys datas : ℕ → ℕ) (key d : ℕ) (w : ℕ → ℕ → ℕ)
    → let (keys', datas') = insert_entry n keys datas key d in
      total w (leaf (n + 1) keys' datas') ≡ total w (leaf n keys datas) + w key d
unfolding total
insert_entry-total n keys datas key d w =
    let (p, s) = insert_entry-Placed n keys datas key d in
    let (keys', datas') = insert_entry n keys datas key d in
    let e : n + 1 ≡ suc n = omega arith in
    rw e (
      sum-inserted n p (w key d) (λ i. w (keys i) (datas i)) (λ i. w (keys' i) (datas' i)) s.place
        (λ j lt. ap (λ k. w k (datas' j)) (s.low j lt).0 ∙ ap (w (keys j)) (s.low j lt).1)
        (ap (λ k. w k (datas' p)) s.new.0 ∙ ap (w key) s.new.1)
        (λ j ge lt.
          ap (λ k. w k (datas' (suc j))) (s.high j ge lt).0 ∙ ap (w (keys j)) (s.high j ge lt).1))

-- The total of a leaf behind the removal of its entry at `i`.
remove_entry-total :
    (n i : ℕ) (keys datas : ℕ → ℕ) (w : ℕ → ℕ → ℕ)
    → i < n
    → let (keys', datas') = remove_entry (n - 1 - i) i keys datas in
      total w (leaf n keys datas) ≡ total w (leaf (n - 1) keys' datas') + w (keys i) (datas i)
unfolding total
remove_entry-total n i keys datas w lt =
    let (k, d) = remove_entry-Closed (n - 1 - i) i keys datas in
    let (keys', datas') = remove_entry (n - 1 - i) i keys datas in
    let e : n ≡ suc (n - 1) = omega arith in
    ap (λ m. sum m (λ j. w (keys j) (datas j))) e
    ∙ sum-inserted (n - 1) i (w (keys i) (datas i)) (λ j. w (keys' j) (datas' j))
        (λ j. w (keys j) (datas j)) (omega arith)
        (λ j less.
          ap (λ x. w x (datas j)) (sym (k.below j less)) ∙ ap (w (keys' j)) (sym (d.below j less)))
        refl
        (λ j ge less.
          ap (λ x. w x (datas (suc j))) (sym (k.moved j ge (omega arith)))
          ∙ ap (w (keys' j)) (sym (d.moved j ge (omega arith))))

-- A leaf with at least one entry lends the last or the first of them: the two leaves together have
-- the same entries as before.
pub borrow_entry-total :
    (side : Direction) (n : ℕ) (keys datas : ℕ → ℕ) (m : ℕ) (from_keys from_datas : ℕ → ℕ)
    (w : ℕ → ℕ → ℕ)
    → 0 < m
    → let (node, sibling, key) = borrow_entry side n keys datas m from_keys from_datas in
      total w node + total w sibling
      ≡ total w (leaf n keys datas) + total w (leaf m from_keys from_datas)
unfolding borrow_entry
borrow_entry-total left n keys datas m from_keys from_datas w some_key = omega (
  arith,
  insert_entry-total n keys datas (from_keys (m - 1)) (from_datas (m - 1)) w,
  remove_entry-total m (m - 1) from_keys from_datas w (omega arith),
)
borrow_entry-total right n keys datas m from_keys from_datas w some_key = omega (
  arith,
  insert_entry-total n keys datas (from_keys 0) (from_datas 0) w,
  remove_entry-total m 0 from_keys from_datas w some_key,
)
