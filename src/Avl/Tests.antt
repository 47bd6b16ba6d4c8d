-- ===== src/Avl/Tests.antt =====
-- example_binary_tree_avl.cpp: insertions into small trees.
use uc.Prelude.{ℕ, ◌+◌, ◌≤◌, ◌<◌, ◌≡◌, ◌⊎◌, ◌↔◌, inl, inr, refl, arith, none, some}
use uc.Avl.{
  Avl, nil, node, deep, value, max, find_min, rotate_with_left, rotate_with_right, double_with_left,
  rebalance, set_height, insert,
}
use uc.Avl.Order.{Has, IsSearch}
use uc.Avl.Heights.{Right, insert_avl_lem}
use uc.Avl.Least.{Balanced, insert_least_lem}

abbrev leaning : Avl
leaning = node 10 2 (node 6 1 nil nil) nil

abbrev turned : Avl
turned = node 6 2 (node 3 1 nil nil) (node 10 1 nil nil)

insert_3 : insert 3 leaning ≡ some turned
unfolding insert rebalance set_height rotate_with_left deep value max
insert_3 = refl

-- The double rotation.
insert_8 : insert 8 leaning ≡ some (node 8 2 (node 6 1 nil nil) (node 10 1 nil nil))
unfolding insert rebalance set_height double_with_left rotate_with_right rotate_with_left deep value
    max
insert_8 = refl

-- On the other side the left child, which is NULL, is read.
insert_up : insert 3 (node 1 2 nil (node 2 1 nil nil)) ≡ none
unfolding insert rebalance set_height rotate_with_left deep value max
insert_up = refl

least_turned : find_min turned ≡ node 3 1 nil nil
unfolding find_min
least_turned = refl

leaning-IsSearch : IsSearch leaning
unfolding IsSearch Has
leaning-IsSearch = (
  (λ q i. elim i [
    | inl it ↦ omega arith
    | inr below ↦ elim below [ inl z ↦ absurd z | inr z ↦ absurd z ]
  ]),
  (λ q i. absurd i),
  ((λ q i. absurd i), (λ q i. absurd i), tt, tt),
  tt,
)

leaning-Right : Right leaning
unfolding Right deep max
leaning-Right = (refl, (refl, tt, tt), tt)

leaning-Balanced : Balanced leaning
unfolding Balanced deep
leaning-Balanced = (omega arith, omega arith, (omega arith, omega arith, tt, tt), tt)

insert_avl_lem_example :
    IsSearch turned × ((q : ℕ) → Has q turned ↔ ((q ≡ 3) ⊎ Has q leaning)) × Right turned
insert_avl_lem_example = insert_avl_lem 3 leaning turned leaning-IsSearch leaning-Right insert_3

leaning-above : (q : ℕ) → Has q leaning → 3 < q
unfolding Has
leaning-above q i = elim i [
  | inl it ↦ omega arith
  | inr below ↦ elim below [
    | inl child ↦ elim child [
      | inl it ↦ omega arith
      | inr z ↦ elim z [ inl y ↦ absurd y | inr y ↦ absurd y ]
    ]
    | inr z ↦ absurd z
  ]
]

insert_least_lem_example :
    (t' : Avl) × (insert 3 leaning ≡ some t')
    × Right t'
    × Balanced t'
    × (deep t' ≤ deep leaning + 1)
insert_least_lem_example = insert_least_lem 3 leaning leaning-Right leaning-Balanced leaning-above
