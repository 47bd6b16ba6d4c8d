-- ===== src/SearchTree/Find.antt =====
-- example_binary_tree_adt.cpp: what `find`, `findMin` and `findMax` return.
use uc.Prelude.{ℕ, ◌≤◌, ◌≡◌, ◌≢◌, ◌⊎◌, inl, inr, refl, arith, ltb, Bool-cases, some}
use uc.SearchTree.{Tree, nil, freed, node, find, find_min, find_max}
use uc.SearchTree.Laws.{Has, IsSearch}

-- The node that a pointer is to: its value is `v`.
unfoldable pub IsNode : ℕ → Tree → Type 0
IsNode v nil = ⊥
IsNode v freed = ⊥
IsNode v (node x l r) = v ≡ x

-- In a search tree, `find` returns a node with the value, if there is one, and else NULL.
pub find_lem :
    (v : ℕ) (t : Tree)
    → IsSearch t
    → (Has v t × IsNode v (find v t)) ⊎ ((Has v t → ⊥) × (find v t ≡ nil))
unfolding Has IsSearch find IsNode
find_lem v nil s = inr ((λ h. h), refl)
find_lem v freed s = absurd s
find_lem v (node x l r) (sl, sr, tl, tr) = elim (Bool-cases (ltb x v)) [
  | inl up ↦ rw (up, find) (ground (arith, find_lem v r tr, sl v))
  | inr not_up ↦ elim (Bool-cases (ltb v x)) [
    | inl down ↦ rw (not_up, find, down) (ground (arith, find_lem v l tl, sr v))
    | inr same ↦ rw (not_up, find, same) (ground arith)
  ]
]

-- In a search tree other than NULL, `findMin` returns a node with the least value.
pub find_min_lem :
    (t : Tree)
    → IsSearch t
    → t ≢ nil
    → (v : ℕ) × IsNode v (find_min t) × Has v t × ((q : ℕ) → Has q t → v ≤ q)
unfolding Has IsSearch find_min IsNode
find_min_lem nil s some_node = absurd (some_node refl)
find_min_lem freed s some_node = absurd s
find_min_lem (node x nil r) (sl, sr, tl, tr) some_node =
    (x, refl, inl refl, (λ q h. ground (arith, sr q)))
find_min_lem (node x freed r) (sl, sr, tl, tr) some_node = absurd tl
find_min_lem (node x (node y a b) r) (sl, sr, tl, tr) some_node =
    let (v, n, h, least) = find_min_lem (node y a b) tl (λ e. ground arith) in
    (v, n, inr (inl h), (λ q h'. ground (arith, least q, sr q, sl v h)))

-- In a search tree other than NULL, `findMax` returns a node with the greatest value.
pub find_max_lem :
    (t : Tree)
    → IsSearch t
    → t ≢ nil
    → (v : ℕ) × (n : Tree) × (find_max t ≡ some n)
      × IsNode v n
      × Has v t
      × ((q : ℕ) → Has q t → q ≤ v)
unfolding Has IsSearch find_max IsNode
find_max_lem nil s some_node = absurd (some_node refl)
find_max_lem freed s some_node = absurd s
find_max_lem (node x l nil) (sl, sr, tl, tr) some_node =
    (x, node x l nil, refl, refl, inl refl, (λ q h. ground (arith, sl q)))
find_max_lem (node x l freed) (sl, sr, tl, tr) some_node = absurd tr
find_max_lem (node x l (node y a b)) (sl, sr, tl, tr) some_node =
    let (v, n, e, is_node, h, most) = find_max_lem (node y a b) tr (λ e. ground arith) in
    (v, n, e, is_node, inr (inr h), (λ q h'. ground (arith, most q, sl q, sr v h)))
