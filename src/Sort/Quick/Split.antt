-- ===== src/Sort/Quick/Split.antt =====
-- example_quicksort.cpp: how the loop of `quicksort` divides the elements around `key`.
use uc.Prelude.{
  ℕ, zero, suc, ◌+◌, ◌-◌, ◌≤◌, ◌<◌, ◌≡◌, refl, ap, arith, List, [], ◌∷◌, set, length, length-set,
  ◌==◌, ltb, leb, ltb→lt, ◌&&◌, if◌then◌else◌, ◌⊎◌, inl, inr, Bool-cases,
}
use native.Mathlib.Decide.{dec_lt, ℕ_discrete}
use uc.Sort.{at}
use uc.Sort.Count.{count-set, at-set}
use uc.Sort.Shuffle.{IsShuffle, IsShuffle-refl, IsShuffle-trans, IsShuffle-exchange}
use uc.Sort.Quick.{scan_down, scan_up, split}

pub set-at : (arr : List ℕ) (i : ℕ) → set arr i (at arr i) ≡ arr
set-at [] i = refl
set-at (x ∷ arr) zero = refl
set-at (x ∷ arr) (suc i) = ap (x ∷◌) (set-at arr i)

scan_down_lem :
    (arr : List ℕ) (key i j : ℕ)
    → i ≤ j
    → (i ≤ scan_down arr key i j)
      × (scan_down arr key i j ≤ j)
      × ((k : ℕ) → scan_down arr key i j < k → k ≤ j → key ≤ at arr k)
      × ((scan_down arr key i j ≡ i) ⊎ (at arr (scan_down arr key i j) < key))
unfolding scan_down
scan_down_lem arr key i zero le =
    (omega arith, omega arith, λ k a b. absurd (omega arith), inl (omega arith))
scan_down_lem arr key i (suc j) le = elim (Bool-cases (ltb i (suc j) && leb key (at arr (suc j)))) [
  | inl goes ↦
      let (a, b, c, d) = scan_down_lem arr key i j (ground arith) in
      rw (goes, scan_down)
        (
          a,
          omega arith,
          λ k g l. elim (ℕ_discrete k (suc j)) [
            | yes e ↦ ground arith
            | no ne ↦ c k g (omega arith)
          ],
          d,
        )
  | inr stops ↦ rw (stops, scan_down) (le, omega arith, λ k a b. absurd (omega arith), ground arith)
]

scan_up_lem :
    (fuel : ℕ) (arr : List ℕ) (key i j : ℕ)
    → i ≤ j
    → j ≤ i + fuel
    → (i ≤ scan_up fuel arr key i j)
      × (scan_up fuel arr key i j ≤ j)
      × ((k : ℕ) → i ≤ k → k < scan_up fuel arr key i j → at arr k ≤ key)
      × (i < j → at arr i ≤ key → i < scan_up fuel arr key i j)
unfolding scan_up
scan_up_lem zero arr key i j le few =
    (omega arith, omega arith, λ k a b. absurd (omega arith), λ a b. absurd (omega arith))
scan_up_lem (suc fuel) arr key i j le few = elim (Bool-cases (ltb i j && leb (at arr i) key)) [
  | inl goes ↦
      let (a, b, c, d) = scan_up_lem fuel arr key (i + 1) j (ground arith) (omega arith) in
      rw (goes, scan_up)
        (
          omega arith,
          b,
          λ k l g. elim (ℕ_discrete k i) [ yes e ↦ ground arith | no ne ↦ c k (omega arith) g ],
          λ _ _. omega arith,
        )
  | inr stops ↦
      rw (stops, scan_up)
        (omega arith, le, λ k a b. absurd (omega arith), λ a b. absurd (ground arith))
]

-- The hole at `p`, where `key` belongs, goes to `q`, whose element comes to `p`.
hole-IsShuffle :
    (lo hi : ℕ) (b : List ℕ) (key p q : ℕ)
    → lo ≤ p
    → p < hi
    → lo ≤ q
    → q < hi
    → hi ≤ length b
    → IsShuffle lo hi (set b p key) (set (set b p (at b q)) q key)
hole-IsShuffle lo hi b key p q lp gp lq gq len =
    let c : List ℕ = set b p (at b q) in
    let size : length c ≡ length b = length-set b p (at b q) in
    IsShuffle-exchange {i = p} {j = q} lp gp lq gq
      (λ x. ground (
        arith,
        count-set x b p key (omega arith),
        count-set x b p (at b q) (omega arith),
        count-set x c q key (omega arith),
        at-set b p q (at b q) (omega arith),
      ))
      (omega (arith, length-set c q key, size, length-set b p key))
      (λ k. ground (
        arith,
        at-set c q k key (omega arith),
        at-set b p k (at b q) (omega arith),
        at-set b p k key (omega arith),
        at-set b p q key (omega arith),
        at-set b p p key (omega arith),
      ))

-- At the head of the loop: the elements before the hole at `i` are not above `key`, and those behind
-- `j` are not below it.
record Divided (arr : List ℕ) (key left right i j : ℕ) : Type 0 where
  from : left ≤ i
  between : i ≤ j
  to : j ≤ right
  room : right < length arr
  small : (k : ℕ) → left ≤ k → k < i → at arr k ≤ key
  large : (k : ℕ) → j < k → k ≤ right → key ≤ at arr k

-- The array and the place of `key` behind the loop.
pub record IsSplit (left right : ℕ) (before after : List ℕ) (p : ℕ) : Type 0 where
  pub shuffled : IsShuffle left (right + 1) before after
  pub from : left ≤ p
  pub to : p ≤ right
  pub small : (k : ℕ) → left ≤ k → k < p → at after k ≤ at after p
  pub large : (k : ℕ) → p < k → k ≤ right → at after p ≤ at after k

module _ (arr : List ℕ) (key left right i j : ℕ) (d : Divided arr key left right i j) where
  -- The loop ends with the hole filled.
  ended-IsSplit : j ≤ i → IsSplit left right (set arr i key) (set arr i key) i
  ended-IsSplit le =
      let read : (k : ℕ) → at (set arr i key) k ≡ (if k == i then key else at arr k) =
        λ k. at-set arr i k key (omega (arith, d.between, d.to, d.room)) in
      record {
        shuffled = IsShuffle-refl left (right + 1) (set arr i key);
        from = d.from;
        to = omega (arith, d.between, d.to);
        small = λ k a b. ground (arith, read k, read i, d.small k a b);
        large = λ k a b. ground (arith, read k, read i, d.large k (omega (arith, le)) b);
      }

  -- A round of the loop
  abbrev j' : ℕ
  j' = scan_down arr key i j

  abbrev arr' : List ℕ
  arr' = set arr i (at arr j')

  abbrev i' : ℕ
  i' = scan_up (j' - i) arr' key i j'

  abbrev arr'' : List ℕ
  arr'' = set arr' j' (at arr' i')

  down :
      (i ≤ j')
      × (j' ≤ j)
      × ((k : ℕ) → j' < k → k ≤ j → key ≤ at arr k)
      × ((j' ≡ i) ⊎ (at arr j' < key))
  down = scan_down_lem arr key i j d.between

  up :
      (i ≤ i')
      × (i' ≤ j')
      × ((k : ℕ) → i ≤ k → k < i' → at arr' k ≤ key)
      × (i < j' → at arr' i ≤ key → i < i')
  up = scan_up_lem (j' - i) arr' key i j' (down.0) (omega (arith, down))

  size : length arr' ≡ length arr
  size = length-set arr i (at arr j')

  inside : i < length arr
  inside = omega (arith, d.between, d.to, d.room)

  read' : (k : ℕ) → at arr' k ≡ (if k == i then at arr j' else at arr k)
  read' k = at-set arr i k (at arr j') inside

  read'' : (k : ℕ) → at arr'' k ≡ (if k == j' then at arr' i' else at arr' k)
  read'' k = at-set arr' j' k (at arr' i') (omega (arith, down.1, d.to, d.room, size))

  round-Divided : Divided arr'' key left right i' j'
  round-Divided = record {
    from = omega (arith, d.from, up.0);
    between = up.1;
    to = omega (arith, down.1, d.to);
    room = omega (arith, length-set arr' j' (at arr' i'), size, d.room);
    small = λ k a b. elim (dec_lt k i) [
      | yes before ↦ ground (arith, read'' k, read' k, d.small k a before, up.1)
      | no behind ↦ ground (arith, read'' k, up.1, up.2 k (omega arith) b)
    ];
    large = λ k a b. elim (dec_lt j k) [
      | yes behind ↦ ground (arith, read'' k, read' k, d.large k behind b, down.0)
      | no before ↦ ground (arith, read'' k, read' k, down.0, down.2 k a (omega arith))
    ];
  }

  round-shorter : i < j → j' - i' < j - i
  round-shorter lt = elim down.3 [
    | inl e ↦ omega (arith, up.0, lt)
    | inr less ↦ elim (dec_lt i j') [
      | yes more ↦
          let moved : i < i' = up.3 more (ground (arith, read' i)) in omega (arith, down.1, up.1)
      | no none_left ↦ omega (arith, up.0, down.0, lt)
    ]
  ]

  round-IsShuffle : IsShuffle left (right + 1) (set arr i key) (set arr'' i' key)
  round-IsShuffle =
      IsShuffle-trans
        (hole-IsShuffle left (right + 1) arr key i j' d.from (omega (arith, d.between, d.to))
          (omega (arith, d.from, down.0)) (omega (arith, down.1, d.to)) (omega (arith, d.room)))
        (hole-IsShuffle left (right + 1) arr' key j' i' (omega (arith, d.from, down.0))
          (omega (arith, down.1, d.to)) (omega (arith, d.from, up.0))
          (omega (arith, up.1, down.1, d.to)) (omega (arith, size, d.room)))

IsSplit-after :
    {left right : ℕ} {a b c : List ℕ} {p : ℕ}
    → IsShuffle left (right + 1) a b
    → IsSplit left right b c p
    → IsSplit left right a c p
IsSplit-after s t = record {
  shuffled = IsShuffle-trans s t.shuffled;
  from = t.from;
  to = t.to;
  small = t.small;
  large = t.large;
}

split-IsSplit :
    (fuel : ℕ) (arr : List ℕ) (key left right i j : ℕ)
    → j ≤ i + fuel
    → Divided arr key left right i j
    → IsSplit left right (set arr i key) (split fuel arr key i j).0 (split fuel arr key i j).1
unfolding split
split-IsSplit zero arr key left right i j few d =
    ended-IsSplit arr key left right i j d (omega arith)
split-IsSplit (suc fuel) arr key left right i j few d = elim (Bool-cases (ltb i j)) [
  | inr ends ↦ rw (ends, split) (ended-IsSplit arr key left right i j d (ground arith))
  | inl goes ↦
      let lt : i < j = ltb→lt i j goes in
      rw (goes, split)
        (IsSplit-after (round-IsShuffle arr key left right i j d) (
          split-IsSplit fuel (arr'' arr key left right i j d) key left right
            (i' arr key left right i j d) (j' arr key left right i j d)
            (omega
              (arith, round-shorter arr key left right i j d lt, (up arr key left right i j d).1))
            (round-Divided arr key left right i j d)))
]

-- The loop from the start, where `key` is the first element.
pub split-start :
    (arr : List ℕ) (left right : ℕ)
    → left < right
    → right < length arr
    → IsSplit left right arr
        (split (right - left) arr (at arr left) left right).0
        (split (right - left) arr (at arr left) left right).1
split-start arr left right lt len =
    let s =
      split-IsSplit (right - left) arr (at arr left) left right left right (omega arith) (record {
        from = omega arith;
        between = omega arith;
        to = omega arith;
        room = len;
        small = λ k a b. absurd (omega arith);
        large = λ k a b. absurd (omega arith);
      }) in
    rw (set-at arr left) at s
