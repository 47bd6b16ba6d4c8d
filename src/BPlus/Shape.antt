-- ===== src/BPlus/Shape.antt =====
-- example_bplus_tree.cpp: the entries in a node, and the shape of a B+ tree.
use uc.Prelude.{ℕ, suc, ◌+◌, ◌-◌, ◌≤◌, ◌<◌, ◌≡◌, refl, sym, ap, arith}
use uc.BPlus.{Node, leaf, internal, key_num, split, min_key, max_key_num, copied}
use uc.BPlus.Arrays.{sum, sum_congr, sum-add}

-- The sum of a weight over all entries in the leaves.
unfoldable pub total : (ℕ → ℕ → ℕ) → Node → ℕ
total w (leaf n keys datas) = sum n (λ i. w (keys i) (datas i))
total w (internal n keys childs) = sum (suc n) (λ i. total w (childs i))

-- A node of depth `h`: its leaves are all `h` below it, no array is fuller than it is long, and every
-- node below it has at least MINNUM_KEY keys.
unfoldable pub Sized : ℕ → Node → Type 0
Sized h (leaf n keys datas) = (h ≡ 0) × (n ≤ max_key_num)
Sized h (internal n keys childs) =
    (0 < h)
    × ((0 < n) × (n ≤ max_key_num))
    × ((i : ℕ) → i < suc n → (min_key ≤ key_num (childs i)) × Sized (h - 1) (childs i))

-- What a full node of depth `h` is split into.
pub record Halves (h : ℕ) (t left right : Node) : Type 0 where
  pub left_sized : Sized h left
  pub right_sized : Sized h right
  pub left_num : key_num left ≡ min_key
  pub right_num : (min_key ≤ key_num right) × (key_num right ≤ min_key + 1)
  pub entries : (w : ℕ → ℕ → ℕ) → total w left + total w right ≡ total w t

pub copied-lt {ℓ} :
    {A : Type ℓ} (n : ℕ) (source : ℕ → A) (from : ℕ) (f : ℕ → A) (j : ℕ)
    → j < n
    → copied n source from f j ≡ source (j + from)
unfolding copied
copied-lt n source from f j lt = ground arith

pub split-Halves :
    (h : ℕ) (t : Node)
    → Sized h t
    → key_num t ≡ max_key_num
    → let (left, key, right) = split t in Halves h t left right
unfolding split Sized key_num total
split-Halves h (leaf n keys datas) (level, few) full = record {
  left_sized = (level, omega arith);
  right_sized = (level, omega arith);
  left_num = refl;
  right_num = (omega arith, omega arith);
  entries = λ w.
      (let e : sum 13 (λ i. w (keys i) (datas i)) ≡ sum n (λ i. w (keys i) (datas i)) =
          ap (λ k. sum k (λ i. w (keys i) (datas i))) (sym full) in
        let half =
          sum_congr 7 (λ i. w (copied 7 keys 6 (λ i. 0) i) (copied 7 datas 6 (λ i. 0) i))
            (λ i. w (keys (i + 6)) (datas (i + 6)))
            (λ i lt.
              rw (copied-lt 7 keys 6 (λ i. 0) i lt, copied-lt 7 datas 6 (λ i. 0) i lt) refl) in
        omega (arith, sum-add 6 7 (λ i. w (keys i) (datas i)), half, e));
}
split-Halves h (internal n keys childs) (level, some_key, below) full =
    let moved : (i : ℕ) → i < 7 → copied 7 childs 7 childs i ≡ childs (i + 7) =
      λ i lt. copied-lt 7 childs 7 childs i lt in
    record {
      left_sized = (level, (omega arith, omega arith), (λ i lt. below i (omega arith)));
      right_sized = (
        level,
        (omega arith, omega arith),
        (λ i lt. rw (moved i lt) (below (i + 7) (omega arith))),
      );
      left_num = refl;
      right_num = (omega arith, omega arith);
      entries = λ w.
          (let e : sum 14 (λ i. total w (childs i)) ≡ sum (suc n) (λ i. total w (childs i)) =
              ap (λ k. sum (suc k) (λ i. total w (childs i))) (sym full) in
            let half =
              sum_congr 7 (λ i. total w (copied 7 childs 7 childs i))
                (λ i. total w (childs (i + 7))) (λ i lt. ap (total w) (moved i lt)) in
            omega (arith, sum-add 7 7 (λ i. total w (childs i)), half, e));
    }
