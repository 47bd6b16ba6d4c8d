-- ===== src/SearchTree/Laws.antt =====
-- example_binary_tree_adt.cpp: the values in a tree, the order of a search tree, and `insNode`.
use uc.Prelude.{ℕ, ◌<◌, ◌≡◌, ◌⊎◌, inl, inr, ◌↔◌, arith, ltb, Bool-cases}
use uc.SearchTree.{Tree, nil, freed, node, insert}

-- The tree has a node with this value.
unfoldable pub Has : ℕ → Tree → Type 0
Has q nil = ⊥
Has q freed = ⊥
Has q (node x l r) = (q ≡ x) ⊎ (Has q l ⊎ Has q r)

-- What the comment at the head of the file asks of a search tree.
unfoldable pub IsSearch : Tree → Type 0
IsSearch nil = Unit
IsSearch freed = ⊥
IsSearch (node x l r) =
    ((q : ℕ) → Has q l → q < x) × ((q : ℕ) → Has q r → x < q) × IsSearch l × IsSearch r

-- `insNode` into a search tree gives a tree whose values are the old ones and the new one.
pub insert-Has : (v q : ℕ) (t : Tree) → IsSearch t → Has q (insert v t) ↔ ((q ≡ v) ⊎ Has q t)
unfolding Has IsSearch insert
insert-Has v q nil s = ground arith
insert-Has v q freed s = absurd s
insert-Has v q (node x l r) (sl, sr, tl, tr) =
    ground (arith, insert-Has v q l tl, insert-Has v q r tr)

-- `insNode` into a search tree gives a search tree, so no value twice.
pub insert-IsSearch : (v : ℕ) (t : Tree) → IsSearch t → IsSearch (insert v t)
unfolding Has IsSearch insert
insert-IsSearch v nil s = ground arith
insert-IsSearch v freed s = absurd s
insert-IsSearch v (node x l r) (sl, sr, tl, tr) = elim (Bool-cases (ltb x v)) [
  | inl up ↦
      rw (up, insert)
        (sl, (λ q h. ground (arith, (insert-Has v q r tr).0 h, sr q)), tl, insert-IsSearch v r tr)
  | inr not_up ↦ elim (Bool-cases (ltb v x)) [
    | inl down ↦
        rw (not_up, insert, down)
          ((λ q h. ground (arith, (insert-Has v q l tl).0 h, sl q)), sr, insert-IsSearch v l tl, tr)
    | inr same ↦ rw (not_up, insert, same) (sl, sr, tl, tr)
  ]
]

-- `insNode` into a search tree gives a search tree, so no value twice; its values are the old ones and
-- the new one.
pub insert_search_lem :
    (v : ℕ) (t : Tree)
    → IsSearch t
    → IsSearch (insert v t) × ((q : ℕ) → Has q (insert v t) ↔ ((q ≡ v) ⊎ Has q t))
insert_search_lem v t s = (insert-IsSearch v t s, (λ q. insert-Has v q t s))
