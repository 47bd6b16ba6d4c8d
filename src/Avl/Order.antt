-- ===== src/Avl/Order.antt =====
-- example_binary_tree_avl.cpp: the values of a tree and their order, under rotations and insertion.
use uc.Prelude.{
  ℕ, ◌+◌, ◌<◌, ◌≡◌, ◌⊎◌, ◌↔◌, inl, inr, Option, none, some, some_inj, Bool, Bool-cases,
  Option-cases, refl, arith, ltb, ◌==◌, ltb→lt,
}
use uc.Avl.{
  Avl, nil, node, deep, value, rotate_with_left, rotate_with_right, double_with_left, rebalance,
  set_height, insert,
}

-- The value stands in the tree.
unfoldable pub Has : ℕ → Avl → Type 0
Has q nil = ⊥
Has q (node x h l r) = (q ≡ x) ⊎ (Has q l ⊎ Has q r)

-- In every subtree, what is left of a value is less, and what is right of it is greater.
unfoldable pub IsSearch : Avl → Type 0
IsSearch nil = Unit
IsSearch (node x h l r) =
    ((q : ℕ) → Has q l → q < x) × ((q : ℕ) → Has q r → x < q) × IsSearch l × IsSearch r

-- The two trees have the same values, and the second is a search tree if the first is.
unfoldable pub Same : Avl → Avl → Type 0
Same t t' = ((q : ℕ) → Has q t' ↔ Has q t) × (IsSearch t → IsSearch t')

Same-trans : (a b c : Avl) → Same a b → Same b c → Same a c
unfolding Same
Same-trans a b c (has, keep) (has', keep') = (
  (λ q. ((λ h. (has q).0 ((has' q).0 h)), (λ h. (has' q).1 ((has q).1 h)))),
  (λ s. keep' (keep s)),
)

rotate_with_left-Same : (t t' : Avl) → rotate_with_left t ≡ some t' → Same t t'
unfolding rotate_with_left Same Has IsSearch
rotate_with_left-Same nil t' e = cc
rotate_with_left-Same (node x h nil r) t' e = cc
rotate_with_left-Same (node x h (node y k a b) c) t' e =
    let e' = some_inj _ t' e in
    rw (← e') (
      (λ q. ((λ h. ground arith), (λ h. ground arith))),
      (λ (up, down, (up', down', sa, sb), sc). (
        up',
        (λ q h. elim h [
          | inl here ↦ omega (arith, up y (inl refl), here)
          | inr below ↦ elim below [
            | inl in_b ↦ down' q in_b
            | inr in_c ↦ omega (arith, down q in_c, up y (inl refl))
          ]
        ]),
        sa,
        ((λ q h. up q (inr (inr h))), down, sb, sc),
      )),
    )

rotate_with_right-Same : (t t' : Avl) → rotate_with_right t ≡ some t' → Same t t'
unfolding rotate_with_right Same Has IsSearch
rotate_with_right-Same nil t' e = cc
rotate_with_right-Same (node x h l nil) t' e = cc
rotate_with_right-Same (node x h a (node y k b c)) t' e =
    let e' = some_inj _ t' e in
    rw (← e') (
      (λ q. ((λ h. ground arith), (λ h. ground arith))),
      (λ (up, down, sa, (up', down', sb, sc)). (
        (λ q h. elim h [
          | inl here ↦ omega (arith, down y (inl refl), here)
          | inr below ↦ elim below [
            | inl in_a ↦ omega (arith, up q in_a, down y (inl refl))
            | inr in_b ↦ up' q in_b
          ]
        ]),
        down',
        (up, (λ q h. down q (inr (inl h))), sa, sb),
        sc,
      )),
    )

-- A left subtree is replaced.
Same-left : (x h : ℕ) (l l' r : Avl) → Same l l' → Same (node x h l r) (node x h l' r)
unfolding Same Has IsSearch
Same-left x h l l' r (has, keep) = (
  (λ q. (
    (λ p. elim p [
      | inl here ↦ inl here
      | inr below ↦ elim below [ inl i ↦ inr (inl ((has q).0 i)) | inr i ↦ inr (inr i) ]
    ]),
    (λ p. elim p [
      | inl here ↦ inl here
      | inr below ↦ elim below [ inl i ↦ inr (inl ((has q).1 i)) | inr i ↦ inr (inr i) ]
    ]),
  )),
  (λ (up, down, sl, sr). ((λ q i. up q ((has q).0 i)), down, keep sl, sr)),
)

double_with_left-Same : (t t' : Avl) → double_with_left t ≡ some t' → Same t t'
unfolding double_with_left
double_with_left-Same nil t' e = cc
double_with_left-Same (node x h l r) t' e = elim (Option-cases (rotate_with_right l)) [
  | inl crash ↦
      absurd (let z : ◌≡◌ {A = Option Avl} none (some t') = rw (double_with_left, crash) at e in cc)
  | inr (l', turned) ↦
      Same-trans (node x h l r) (node x h l' r) t'
        (Same-left x h l l' r (rotate_with_right-Same l l' turned))
        (rotate_with_left-Same (node x h l' r) t' (rw (double_with_left, turned) at e))
]

Same-refl : (t : Avl) → Same t t
unfolding Same
Same-refl t = ((λ q. ((λ h. h), (λ h. h))), (λ s. s))

rebalance-Same :
    (c d : Avl) (first : Bool) (t t' : Avl) → rebalance c d first t ≡ some t' → Same t t'
unfolding rebalance
rebalance-Same c d first t t' e = elim (Bool-cases (deep c == deep d + 2)) [
  | inr even ↦
      let same : t ≡ t' = some_inj t t' (rw (rebalance, even) at e) in rw (← same) (Same-refl t)
  | inl uneven ↦ elim (Bool-cases first) [
    | inl single ↦ rotate_with_left-Same t t' (rw (rebalance, uneven, single) at e)
    | inr double ↦ double_with_left-Same t t' (rw (rebalance, uneven, double) at e)
  ]
]

set_height-Same :
    (o : Option Avl) (t' : Avl) → set_height o ≡ some t' → (t : Avl) × (o ≡ some t) × Same t t'
unfolding set_height Same Has IsSearch
set_height-Same none t' e = cc
set_height-Same (some nil) t' e =
    let same = some_inj nil t' e in (nil, refl, rw (← same) ((λ q. ((λ h. h), (λ h. h))), (λ s. s)))
set_height-Same (some (node x h l r)) t' e =
    let same = some_inj _ t' e in
    (node x h l r, refl, rw (← same) ((λ q. ((λ p. p), (λ p. p))), (λ s. s)))

-- The values are those of the first tree and `v`, in order if the first one's are.
unfoldable pub With : ℕ → Avl → Avl → Type 0
With v t t' = IsSearch t' × ((q : ℕ) → Has q t' ↔ ((q ≡ v) ⊎ Has q t))

With-Same : (v : ℕ) (t t1 t' : Avl) → With v t t1 → Same t1 t' → With v t t'
unfolding With Same
With-Same v t t1 t' (search, has) (has', keep) =
    (keep search, (λ q. ((λ h. (has q).0 ((has' q).0 h)), (λ h. (has' q).1 ((has q).1 h)))))

With-rest :
    (v : ℕ) (c d : Avl) (first : Bool) (t t1 t' : Avl)
    → With v t t1
    → set_height (rebalance c d first t1) ≡ some t'
    → With v t t'
With-rest v c d first t t1 t' w e =
    let (t2, e2, same) = set_height-Same (rebalance c d first t1) t' e in
    With-Same v t t2 t' (With-Same v t t1 t2 w (rebalance-Same c d first t1 t2 e2)) same

With-left :
    (v x h : ℕ) (l l' r : Avl)
    → IsSearch (node x h l r)
    → v < x
    → With v l l'
    → With v (node x h l r) (node x h l' r)
unfolding With Has IsSearch
With-left v x h l l' r (up, down, sl, sr) less (s', has) = (
  ((λ q i. elim ((has q).0 i) [ inl it ↦ omega (arith, it) | inr old ↦ up q old ]), down, s', sr),
  (λ q. ((λ p. ground (arith, (has q).0)), (λ p. ground (arith, (has q).1)))),
)

With-right :
    (v x h : ℕ) (l r r' : Avl)
    → IsSearch (node x h l r)
    → x < v
    → With v r r'
    → With v (node x h l r) (node x h l r')
unfolding With Has IsSearch
With-right v x h l r r' (up, down, sl, sr) greater (s', has) = (
  (up, (λ q i. elim ((has q).0 i) [ inl it ↦ omega (arith, it) | inr old ↦ down q old ]), sl, s'),
  (λ q. ((λ p. ground (arith, (has q).0)), (λ p. ground (arith, (has q).1)))),
)

With-old :
    (v x h : ℕ) (l r : Avl) → IsSearch (node x h l r) → v ≡ x → With v (node x h l r) (node x h l r)
unfolding With Has IsSearch
With-old v x h l r s same = (s, (λ q. ((λ p. inr p), (λ p. ground arith))))

-- Whenever `insNode` returns: from a search tree it makes a search tree, whose values are the old ones
-- and the new one.
pub insert-With : (v : ℕ) (t t' : Avl) → IsSearch t → insert v t ≡ some t' → With v t t'
unfolding insert With Has IsSearch
insert-With v nil t' s e =
    let same = some_inj _ t' e in
    rw (← same) (
      ((λ q h. absurd h), (λ q h. absurd h), tt, tt),
      (λ q. ((λ h. ground arith), (λ h. ground arith))),
    )
insert-With v (node x h l r) t' (up, down, sl, sr) e = elim (Bool-cases (ltb v x)) [
  | inl less ↦ elim (Option-cases (insert v l)) [
    | inl crash ↦
        absurd (let z : ◌≡◌ {A = Option Avl} none (some t') = rw (insert, less, crash) at e in cc)
    | inr (l', e_l) ↦
        With-rest v l' r (ltb v (value l')) (node x h l r) (node x h l' r) t'
          (With-left v x h l l' r (up, down, sl, sr) (ltb→lt v x less) (insert-With v l l' sl e_l))
          (rw (insert, less, e_l) at e)
  ]
  | inr not_less ↦ elim (Bool-cases (ltb x v)) [
    | inl greater ↦ elim (Option-cases (insert v r)) [
      | inl crash ↦ absurd (
          let z : ◌≡◌ {A = Option Avl} none (some t') =
            rw (insert, not_less, greater, crash) at e in
          cc)
      | inr (r', e_r) ↦
          With-rest v r' l (ltb (value r') v) (node x h l r) (node x h l r') t'
            (With-right v x h l r r' (up, down, sl, sr) (ltb→lt x v greater)
              (insert-With v r r' sr e_r))
            (rw (insert, not_less, greater, e_r) at e)
    ]
    | inr equal ↦
        let (t0, e0, same) =
          set_height-Same (some (node x h l r)) t' (rw (insert, not_less, equal) at e) in
        let same_t = some_inj (node x h l r) t0 e0 in
        With-Same v (node x h l r) (node x h l r) t'
          (With-old v x h l r (up, down, sl, sr) (ground arith)) (rw same_t same)
  ]
]
