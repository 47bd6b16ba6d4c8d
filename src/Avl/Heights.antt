-- ===== src/Avl/Heights.antt =====
-- example_binary_tree_avl.cpp: the heights of the nodes, under rotations and insertion.
use uc.Prelude.{
  ℕ, ◌+◌, ◌≡◌, ◌⊎◌, ◌↔◌, inl, inr, Option, none, some, some_inj, Bool, Bool-cases, Option-cases,
  refl, ltb, ◌==◌,
}
use uc.Avl.{
  Avl, nil, node, deep, value, max, rotate_with_left, rotate_with_right, double_with_left,
  rebalance, set_height, insert,
}
use uc.Avl.Order.{Has, IsSearch, With, insert-With}

-- Every height is one more than the greater of those below.
unfoldable pub Right : Avl → Type 0
Right nil = Unit
Right (node x h l r) = (h ≡ max (deep l) (deep r) + 1) × Right l × Right r

-- The same, but for the root.
unfoldable Below : Avl → Type 0
Below nil = Unit
Below (node x h l r) = Right l × Right r

Right-Below : (t : Avl) → Right t → Below t
unfolding Right Below
Right-Below nil v = tt
Right-Below (node x h l r) v = (v.1, v.2)

rotate_with_left-Below :
    (x h : ℕ) (l r t' : Avl)
    → Below l
    → Right r
    → rotate_with_left (node x h l r) ≡ some t'
    → Below t'
unfolding rotate_with_left Right Below
rotate_with_left-Below x h nil r t' v w e = cc
rotate_with_left-Below x h (node y k a b) r t' (v, v') w e =
    rw (← some_inj _ t' e) (v, (refl, v', w))

rotate_with_right-Below :
    (x h : ℕ) (l r t' : Avl)
    → Right l
    → Below r
    → rotate_with_right (node x h l r) ≡ some t'
    → Below t'
unfolding rotate_with_right Right Below
rotate_with_right-Below x h l nil t' v w e = cc
rotate_with_right-Below x h l (node y k a b) t' v (w, w') e =
    rw (← some_inj _ t' e) ((refl, v, w), w')

double_with_left-Below :
    (x h : ℕ) (l r t' : Avl)
    → Right l
    → Right r
    → double_with_left (node x h l r) ≡ some t'
    → Below t'
unfolding double_with_left rotate_with_right Right
double_with_left-Below x h nil r t' v w e = cc
double_with_left-Below x h (node y k a b) r t' (at_l, va, vb) w e =
    elim (Option-cases (rotate_with_right (node y k a b))) [
      | inl crash ↦
          absurd
            (let z : ◌≡◌ {A = Option Avl} none (some t') = rw (double_with_left, crash) at e in cc)
      | inr (l', turned) ↦
          rotate_with_left-Below x h l' r t'
            (rotate_with_right-Below y k a b l' va (Right-Below b vb) turned) w
            (rw (double_with_left, turned) at e)
    ]

rebalance-Below :
    (c d : Avl) (first : Bool) (x h : ℕ) (l r t' : Avl)
    → Right l
    → Right r
    → rebalance c d first (node x h l r) ≡ some t'
    → Below t'
unfolding rebalance Below
rebalance-Below c d first x h l r t' v w e = elim (Bool-cases (deep c == deep d + 2)) [
  | inr even ↦
      let same = some_inj (node x h l r) t' (rw (rebalance, even) at e) in rw (← same) (v, w)
  | inl uneven ↦ elim (Bool-cases first) [
    | inl single ↦
        rotate_with_left-Below x h l r t' (Right-Below l v) w (rw (rebalance, uneven, single) at e)
    | inr double ↦ double_with_left-Below x h l r t' v w (rw (rebalance, uneven, double) at e)
  ]
]

set_height-Right :
    (o : Option Avl) (t' : Avl)
    → ((t : Avl) → o ≡ some t → Below t)
    → set_height o ≡ some t'
    → Right t'
unfolding set_height Right Below
set_height-Right none t' v e = cc
set_height-Right (some nil) t' v e = rw (← some_inj _ t' e) tt
set_height-Right (some (node x h l r)) t' v e =
    let w = v (node x h l r) refl in rw (← some_inj _ t' e) (refl, w.0, w.1)

-- Whenever `insNode` returns: if all heights were right, they are.
pub insert-Right : (v : ℕ) (t t' : Avl) → Right t → insert v t ≡ some t' → Right t'
unfolding insert Right Below max deep
insert-Right v nil t' w e = rw (← some_inj _ t' e) (refl, tt, tt)
insert-Right v (node x h l r) t' (at_t, wl, wr) e = elim (Bool-cases (ltb v x)) [
  | inl less ↦ elim (Option-cases (insert v l)) [
    | inl crash ↦
        absurd (let z : ◌≡◌ {A = Option Avl} none (some t') = rw (insert, less, crash) at e in cc)
    | inr (l', e_l) ↦
        set_height-Right _ t'
          (λ t1 e1.
            rebalance-Below l' r (ltb v (value l')) x h l' r t1 (insert-Right v l l' wl e_l) wr e1)
          (rw (insert, less, e_l) at e)
  ]
  | inr not_less ↦ elim (Bool-cases (ltb x v)) [
    | inl greater ↦ elim (Option-cases (insert v r)) [
      | inl crash ↦ absurd (
          let z : ◌≡◌ {A = Option Avl} none (some t') =
            rw (insert, not_less, greater, crash) at e in
          cc)
      | inr (r', e_r) ↦
          set_height-Right _ t'
            (λ t1 e1.
              rebalance-Below r' l (ltb (value r') v) x h l r' t1 wl (insert-Right v r r' wr e_r)
                e1)
            (rw (insert, not_less, greater, e_r) at e)
    ]
    | inr equal ↦
        set_height-Right (some (node x h l r)) t' (λ t1 e1. rw (← some_inj _ t1 e1) (wl, wr))
          (rw (insert, not_less, equal) at e)
  ]
]

-- Whenever `insNode` returns: a search tree stays one, its values are the old ones and the new one, and
-- if all heights were right, they are.
pub insert_avl_lem :
    (v : ℕ) (t t' : Avl)
    → IsSearch t
    → Right t
    → insert v t ≡ some t'
    → IsSearch t' × ((q : ℕ) → Has q t' ↔ ((q ≡ v) ⊎ Has q t)) × Right t'
unfolding With
insert_avl_lem v t t' s w e =
    let (s', has) = insert-With v t t' s e in (s', has, insert-Right v t t' w e)
