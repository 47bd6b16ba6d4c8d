-- ===== src/Sort/Merge/Step.antt =====
-- example_sort.cpp: what the loops of `merge` keep.
use uc.Prelude.{
  one, ℕ, suc, ◌+◌, ◌-◌, ◌≤◌, ◌<◌, ◌≡◌, arith, List, set, length, length-set, ◌==◌, if◌then◌else◌,
}
use native.Mathlib.Decide.{ℕ_discrete}
use uc.Sort.{at}
use uc.Sort.Count.{at-set}
use uc.Sort.Merge.{Merging, take_left, take_right}
use uc.Sort.Merge.Counts.{count_in, count_in-first, count_in-set}

-- The parts of `arr` from `lo` and from `mid` on, up to before `hi`, on the way into the temporary
-- array: what has gone there is in order and not above what has not.
pub record IsMerging (arr : List ℕ) (lo mid hi : ℕ) (s : Merging) : Type 0 where
  pub from : lo ≤ s.lpos
  pub left_to : s.lpos ≤ mid
  pub middle : mid ≤ s.rpos
  pub right_to : s.rpos ≤ hi
  pub room : hi ≤ length s.tmp_array
  pub place : s.tmp_pos + mid ≡ s.lpos + s.rpos
  pub ordered : (a b : ℕ) → lo ≤ a → a < b → b < s.tmp_pos → at s.tmp_array a ≤ at s.tmp_array b
  pub under_left :
      (a b : ℕ) → lo ≤ a → a < s.tmp_pos → s.lpos ≤ b → b < mid → at s.tmp_array a ≤ at arr b
  pub under_right :
      (a b : ℕ) → lo ≤ a → a < s.tmp_pos → s.rpos ≤ b → b < hi → at s.tmp_array a ≤ at arr b
  pub below :
      (v : ℕ)
      → ((k : ℕ) → lo ≤ k → k < hi → at arr k ≤ v)
      → (a : ℕ) → lo ≤ a
      → a < s.tmp_pos
      → at s.tmp_array a ≤ v
  pub above :
      (v : ℕ)
      → ((k : ℕ) → lo ≤ k → k < hi → v ≤ at arr k)
      → (a : ℕ) → lo ≤ a
      → a < s.tmp_pos
      → v ≤ at s.tmp_array a
  pub counts :
      (x : ℕ)
      → count_in x s.tmp_array lo (s.tmp_pos - lo)
          + count_in x arr s.lpos (mid - s.lpos)
          + count_in x arr s.rpos (hi - s.rpos)
        ≡ count_in x arr lo (hi - lo)

module _ (arr : List ℕ) (lo mid hi : ℕ) where
  -- The two parts are in order.
  pub record IsHalved : Type 0 where
    pub left_ordered : (a b : ℕ) → lo ≤ a → a < b → b < mid → at arr a ≤ at arr b
    pub right_ordered : (a b : ℕ) → mid ≤ a → a < b → b < hi → at arr a ≤ at arr b

module _ {arr : List ℕ} {lo mid hi : ℕ} {s : Merging} (h : IsHalved arr lo mid hi)
    (m : IsMerging arr lo mid hi s) where
  -- A write of `v` at `tmp_pos`
  read :
      (v : ℕ)
      → s.tmp_pos < hi
      → (k : ℕ)
      → at (set s.tmp_array s.tmp_pos v) k ≡ (if k == s.tmp_pos then v else at s.tmp_array k)
  read v lt k = at-set s.tmp_array s.tmp_pos k v (omega (arith, lt, m.room))

  count_in-write :
      (x v : ℕ)
      → s.tmp_pos < hi
      → count_in x (set s.tmp_array s.tmp_pos v) lo (s.tmp_pos + 1 - lo)
        ≡ count_in x s.tmp_array lo (s.tmp_pos - lo) + one x v
  unfolding count_in
  count_in-write x v lt =
      let e : s.tmp_pos + 1 - lo ≡ suc (s.tmp_pos - lo) =
        omega (arith, m.place, m.from, m.middle) in
      let e' : lo + (s.tmp_pos - lo) ≡ s.tmp_pos = omega (arith, m.place, m.from, m.middle) in
      rw (e, e')
        (ground (
          arith,
          count_in-set x s.tmp_array lo (s.tmp_pos - lo) s.tmp_pos v (omega (arith, lt, m.room))
              (omega arith),
          read v lt s.tmp_pos,
        ))

  count_in-rest :
      (x p end : ℕ)
      → p < end
      → count_in x arr p (end - p) ≡ one x (at arr p) + count_in x arr (p + 1) (end - (p + 1))
  count_in-rest x p end lt =
      let e : end - p ≡ suc (end - (p + 1)) = omega arith in
      rw e (count_in-first x arr p (end - (p + 1)))

  pub take_left-IsMerging :
      s.lpos < mid
      → (s.rpos < hi → at arr s.lpos ≤ at arr s.rpos)
      → IsMerging arr lo mid hi (take_left arr s)
  unfolding take_left
  take_left-IsMerging lt least =
      let v : ℕ = at arr s.lpos in
      let small : s.tmp_pos < hi = omega (arith, m.place, m.right_to, lt) in
      let rd = read v small in
      record {
        from = omega (arith, m.from);
        left_to = omega (arith, lt);
        middle = m.middle;
        right_to = m.right_to;
        room = omega (arith, m.room, length-set s.tmp_array s.tmp_pos v);
        place = omega (arith, m.place);
        ordered =
            λ a b f l t. ground (arith, rd a, rd b, m.ordered a b f l, m.under_left a s.lpos f);
        under_left =
            λ a b f l g t. ground (arith, rd a, m.under_left a b f, h.left_ordered s.lpos b m.from);
        under_right = λ a b f l g t. elim (ℕ_discrete b s.rpos) [
          | yes e ↦ ground (arith, rd a, m.under_right a b f, least)
          | no ne ↦
              ground (arith, rd a, m.under_right a b f, least, h.right_ordered s.rpos b m.middle)
        ];
        below = λ u k a f l. ground (
          arith,
          rd a,
          m.below u k a f,
          k s.lpos m.from (omega (arith, m.middle, m.right_to, lt)),
        );
        above = λ u k a f l. ground (
          arith,
          rd a,
          m.above u k a f,
          k s.lpos m.from (omega (arith, m.middle, m.right_to, lt)),
        );
        counts =
            λ x. omega (arith, m.counts x, count_in-write x v small, count_in-rest x s.lpos mid lt);
      }

  pub take_right-IsMerging :
      s.rpos < hi
      → (s.lpos < mid → at arr s.rpos ≤ at arr s.lpos)
      → IsMerging arr lo mid hi (take_right arr s)
  unfolding take_right
  take_right-IsMerging lt least =
      let v : ℕ = at arr s.rpos in
      let small : s.tmp_pos < hi = omega (arith, m.place, m.left_to, lt) in
      let rd = read v small in
      record {
        from = m.from;
        left_to = m.left_to;
        middle = omega (arith, m.middle);
        right_to = omega (arith, lt);
        room = omega (arith, m.room, length-set s.tmp_array s.tmp_pos v);
        place = omega (arith, m.place);
        ordered =
            λ a b f l t. ground (arith, rd a, rd b, m.ordered a b f l, m.under_right a s.rpos f);
        under_left = λ a b f l g t. elim (ℕ_discrete b s.lpos) [
          | yes e ↦ ground (arith, rd a, m.under_left a b f, least)
          | no ne ↦ ground (arith, rd a, m.under_left a b f, least, h.left_ordered s.lpos b m.from)
        ];
        under_right = λ a b f l g t.
            ground (arith, rd a, m.under_right a b f, h.right_ordered s.rpos b m.middle);
        below = λ u k a f l. ground (
          arith,
          rd a,
          m.below u k a f,
          k s.rpos (omega (arith, m.from, m.left_to, m.middle)) lt,
        );
        above = λ u k a f l. ground (
          arith,
          rd a,
          m.above u k a f,
          k s.rpos (omega (arith, m.from, m.left_to, m.middle)) lt,
        );
        counts =
            λ x. omega (arith, m.counts x, count_in-write x v small, count_in-rest x s.rpos hi lt);
      }
