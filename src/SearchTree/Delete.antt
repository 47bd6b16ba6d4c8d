-- ===== src/SearchTree/Delete.antt =====
-- example_binary_tree_adt.cpp: what `delNode` returns.
use uc.Prelude.{ℕ, ◌≡◌, ◌≢◌, ◌⊎◌, inl, inr, sym, arith, true}
use uc.SearchTree.{Tree, nil, freed, node, find_min, value, present, unlink, delete}
use uc.SearchTree.Laws.{Has, IsSearch}
use uc.SearchTree.Find.{IsNode, find_min_lem}

unlink-Has : (q : ℕ) (l r : Tree) → Has q (unlink l r) → Has q l ⊎ Has q r
unfolding Has unlink
unlink-Has q nil nil h = absurd h
unlink-Has q freed nil h = absurd h
unlink-Has q (node y a b) nil h = inl h
unlink-Has q nil freed h = absurd h
unlink-Has q freed freed h = absurd h
unlink-Has q (node y a b) freed h = absurd h
unlink-Has q nil (node y nil b) h = inr h
unlink-Has q freed (node y nil b) h = inr h
unlink-Has q (node z c d) (node y nil b) h = inr h
unlink-Has q nil (node y freed b) h = absurd h
unlink-Has q freed (node y freed b) h = absurd h
unlink-Has q (node z c d) (node y freed b) h = absurd h
unlink-Has q nil (node y (node e f g) b) h = inr (inr (inl h))
unlink-Has q freed (node y (node e f g) b) h = inr (inr (inl h))
unlink-Has q (node z c d) (node y (node e f g) b) h = inr (inr (inl h))

present-nil : (r : Tree) → present r ≡ true → r ≢ nil
unfolding present
present-nil r here e = ground arith

node-value : (v : ℕ) (t : Tree) → IsNode v t → value t ≡ v
unfolding IsNode value
node-value v nil h = absurd h
node-value v freed h = absurd h
node-value v (node x l r) h = sym h

min-Has : (r : Tree) → IsSearch r → present r ≡ true → Has (value (find_min r)) r
unfolding IsNode value
min-Has r s here =
    let (v, n, h, least) = find_min_lem r s (present-nil r here) in
    rw (node-value v (find_min r) n) h

delete-Has : (v q : ℕ) (t : Tree) → IsSearch t → Has q (delete v t) → Has q t
unfolding Has IsSearch delete
delete-Has v q nil s h = h
delete-Has v q freed s h = h
delete-Has v q (node x l r) (sl, sr, tl, tr) h = ground (
  arith,
  delete-Has v q l tl,
  delete-Has v q r tr,
  unlink-Has q l r,
  min-Has r tr,
  delete-Has (value (find_min r)) q r tr,
)

-- `delNode` of a search tree, of a value other than the one at the root, returns a tree without
-- the value at the root.
pub delete-lost :
    (v x : ℕ) (l r : Tree) → IsSearch (node x l r) → v ≢ x → Has x (delete v (node x l r)) → ⊥
unfolding Has IsSearch delete
delete-lost v x l r (sl, sr, tl, tr) other h =
    ground (arith, delete-Has v x l tl, delete-Has v x r tr, sl x, sr x)
