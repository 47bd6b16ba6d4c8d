-- ===== src/Avl/Least.antt =====
-- example_binary_tree_avl.cpp: the insertion of a value that is less than all others.
use uc.Prelude.{
  ℕ, ◌+◌, ◌≤◌, ◌<◌, ◌≡◌, ◌≢◌, ◌⊎◌, inl, inr, some, true, refl, arith, ltb, ◌==◌, lt→ltb, eq→==,
  ne→==,
}
use native.Mathlib.Decide.{ℕ_discrete}
use uc.Avl.{Avl, nil, node, deep, value, max, rotate_with_left, rebalance, set_height, insert}
use uc.Avl.Order.{Has}
use uc.Avl.Heights.{Right, insert-Right}

max_lem : (a b : ℕ) → (a ≤ max a b) × (b ≤ max a b) × ((max a b ≡ a) ⊎ (max a b ≡ b))
unfolding max
max_lem a b = ground arith

-- The heights of the two children differ by one at most, everywhere.
unfoldable pub Balanced : Avl → Type 0
Balanced nil = Unit
Balanced (node x h l r) = (deep l ≤ deep r + 1) × (deep r ≤ deep l + 1) × Balanced l × Balanced r

-- A tree that has got higher: it is one node, or its left child is the higher one.
unfoldable Heavy : ℕ → Avl → Type 0
Heavy v nil = ⊥
Heavy v (node y k a b) = (k ≡ 1) ⊎ ((v < y) × (deep a ≡ deep b + 1))

record Grown (v : ℕ) (t t' : Avl) : Type 0 where
  right : Right t'
  balanced : Balanced t'
  height : (deep t' ≡ deep t) ⊎ ((deep t' ≡ deep t + 1) × Heavy v t')

-- By how much the height has changed.
higher : (v : ℕ) (t t' : Avl) → Grown v t t' → (deep t' ≡ deep t) ⊎ (deep t' ≡ deep t + 1)
higher v t t' g = elim g.height [ inl same ↦ inl same | inr more ↦ inr (more.0) ]

-- What a node is made into when its left child has grown.
Step : ℕ → Avl → Avl → Avl → Avl → Type 0
Step v t l' r t1 =
    (t' : Avl) × (set_height (rebalance l' r (ltb v (value l')) t1) ≡ some t')
    × Balanced t'
    × ((deep t' ≡ deep t) ⊎ ((deep t' ≡ deep t + 1) × Heavy v t'))

-- The node stays balanced.
even-Step :
    (v x h : ℕ) (l l' r : Avl)
    → v < x
    → Right (node x h l r)
    → Balanced (node x h l r)
    → Grown v l l'
    → deep l' ≢ deep r + 2
    → Step v (node x h l r) l' r (node x h l' r)
unfolding Step Right Balanced Heavy rebalance set_height deep
even-Step v x h l l' r less (at_t, wl, wr) (bl, br, b, b') g even =
    let shut = ne→== (deep l') (deep r + 2) even in
    let before = max_lem (deep l) (deep r) in
    let after = max_lem (deep l') (deep r) in
    let up = higher v l l' g in
    (
      node x (max (deep l') (deep r) + 1) l' r,
      rw (shut, rebalance) refl,
      (ground arith, ground arith, g.balanced, b'),
      (elim (ℕ_discrete (max (deep l') (deep r)) (max (deep l) (deep r))) [
        | yes same ↦ inl (omega (arith, same, at_t))
        | no apart ↦ inr (ground arith, inr (less, ground arith))
      ]),
    )

-- The node is rotated.
rotated-Step :
    (v x h : ℕ) (l r : Avl) (y k : ℕ) (a b : Avl)
    → Right (node x h l r)
    → Balanced (node x h l r)
    → Grown v l (node y k a b)
    → k ≡ deep r + 2
    → Step v (node x h l r) (node y k a b) r (node x h (node y k a b) r)
unfolding Step Right Balanced Heavy rebalance set_height rotate_with_left deep value
rotated-Step v x h l r y k a b (at_t, wl, wr) (bl, br, b_l, b_r) g uneven =
    let (at_k, ra, rb) = g.right in
    let (ba, bb, b_a, b_b) = g.balanced in
    let before = max_lem (deep l) (deep r) in
    let inner = max_lem (deep a) (deep b) in
    let heavy : (k ≡ deep l + 1) × ((k ≡ 1) ⊎ ((v < y) × (deep a ≡ deep b + 1))) = elim g.height [
      | inl same ↦ absurd (omega arith)
      | inr more ↦ more
    ] in
    elim heavy.1 [
      | inl one ↦ absurd (omega arith)
      | inr (less, left_higher) ↦
          let m = max (deep b) (deep r) + 1 in
          let low = max_lem (deep b) (deep r) in
          let top = max_lem (deep a) m in
          let open_up : (k == deep r + 2) ≡ true = eq→== k (deep r + 2) uneven in
          let chosen : ltb v y ≡ true = lt→ltb v y less in
          (
            node y (max (deep a) m + 1) a (node x m b r),
            rw (rebalance, open_up, chosen) refl,
            (
              omega (arith, inner, low),
              omega (arith, inner, low),
              b_a,
              (omega (arith, inner), omega (arith, inner), b_b, b_r),
            ),
            inl (omega (arith, inner, low, top, before, heavy.0)),
          )
    ]

uneven-Step :
    (v x h : ℕ) (l l' r : Avl)
    → Right (node x h l r)
    → Balanced (node x h l r)
    → Grown v l l'
    → deep l' ≡ deep r + 2
    → Step v (node x h l r) l' r (node x h l' r)
unfolding deep
uneven-Step v x h l nil r w b g uneven = absurd (omega arith)
uneven-Step v x h l (node y k a b) r w b' g uneven = rotated-Step v x h l r y k a b w b' g uneven

Grown-Step :
    (v x h : ℕ) (l l' r : Avl)
    → v < x
    → Right (node x h l r)
    → Balanced (node x h l r)
    → Grown v l l'
    → Step v (node x h l r) l' r (node x h l' r)
Grown-Step v x h l l' r less w b g = elim (ℕ_discrete (deep l') (deep r + 2)) [
  | no even ↦ even-Step v x h l l' r less w b g even
  | yes uneven ↦ uneven-Step v x h l l' r w b g uneven
]

Grown-node : (v : ℕ) → Grown v nil (node v 1 nil nil)
unfolding Right Balanced Heavy deep max
Grown-node v = record {
  right = (refl, tt, tt);
  balanced = (omega arith, omega arith, tt, tt);
  height = inr (refl, inl refl);
}

insert-Grown :
    (v : ℕ) (t : Avl)
    → Right t
    → Balanced t
    → ((q : ℕ) → Has q t → v < q)
    → (t' : Avl) × (insert v t ≡ some t') × Grown v t t'
unfolding Right Balanced Has Step insert
insert-Grown v nil w b least = (node v 1 nil nil, refl, Grown-node v)
insert-Grown v (node x h l r) (at_t, wl, wr) (bl, br, b_l, b_r) least =
    let less = least x (inl refl) in
    let chosen = lt→ltb v x less in
    let (l', e_l, g) = insert-Grown v l wl b_l (λ q i. least q (inr (inl i))) in
    let (t', e, balanced, height) =
      Grown-Step v x h l l' r less (at_t, wl, wr) (bl, br, b_l, b_r) g in
    let done : insert v (node x h l r) ≡ some t' = rw (insert, chosen, e_l) e in
    (
      t',
      done,
      record {
        right = insert-Right v (node x h l r) t' (at_t, wl, wr) done;
        balanced = balanced;
        height = height;
      },
    )

-- Into a balanced tree with right heights, `insNode` of a value that is less than all others returns a
-- balanced tree with right heights, at most one higher.
pub insert_least_lem :
    (v : ℕ) (t : Avl)
    → Right t
    → Balanced t
    → ((q : ℕ) → Has q t → v < q)
    → (t' : Avl) × (insert v t ≡ some t') × Right t' × Balanced t' × (deep t' ≤ deep t + 1)
insert_least_lem v t w b least =
    let (t', e, g) = insert-Grown v t w b least in
    (t', e, g.right, g.balanced, omega (arith, higher v t t' g))
