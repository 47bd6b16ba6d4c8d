-- ===== src/BinaryTree/Round.antt =====
-- example_binary_tree.cpp, example_binary_tree2.cpp: reading a tree, and its depth.
use uc.Prelude.{
  ℕ, zero, suc, ◌+◌, ◌^◌, ◌≤◌, ◌<◌, ◌≡◌, refl, arith, ◌++◌, List, [], ◌∷◌, ltb, ◌==◌, if◌then◌else◌,
  Option, none, some, length, length-append, Bool-cases, Option-cases, inl, inr,
}
use mathlib.Core.List.{append_assoc}
use native.Mathlib.Nat.{pow-suc, pow-le-pow_right}
use uc.BinaryTree.{
  Tree, null, node, Input, stop, number, create, pre_travel_tree, in_order_bi_tree,
  post_order_bi_tree, tree_deep,
}

-- The numbers to put in for a tree: those of `preTravelTree`, with -1 for each NULL.
unfoldable pub inputs_of : Tree → List Input
inputs_of null = stop ∷ []
inputs_of (node value left right) = number value ∷ inputs_of left ++ inputs_of right

create-more :
    (fuel : ℕ) (t : Tree) (rest : List Input)
    → length (inputs_of t) ≤ fuel
    → create fuel (inputs_of t ++ rest) ≡ some (t, rest)
unfolding create inputs_of
create-more zero null rest few = absurd (omega arith)
create-more (suc fuel) null rest few = refl
create-more zero (node value left right) rest few = absurd (omega arith)
create-more (suc fuel) (node value left right) rest few =
    let size = length-append (inputs_of left) (inputs_of right) in
    let e = append_assoc (inputs_of left) (inputs_of right) rest in
    let l = create-more fuel left (inputs_of right ++ rest) (omega (arith, size)) in
    let r = create-more fuel right rest (omega (arith, size)) in rw (e, l, r) refl

read_node :
    {inputs r rest rest' : List Input} (value : ℕ) (left right t : Tree)
    → inputs ≡ inputs_of left ++ r
    → r ≡ inputs_of right ++ rest'
    → ◌≡◌ {A = Option (Tree × List Input)} (some (node value left right, rest')) (some (t, rest))
    → number value ∷ inputs ≡ inputs_of t ++ rest
unfolding inputs_of
read_node {rest'} value left right t first second e =
    ground (arith, first, second, append_assoc (inputs_of left) (inputs_of right) rest')

create-inputs_of :
    (fuel : ℕ) (inputs : List Input) (t : Tree) (rest : List Input)
    → create fuel inputs ≡ some (t, rest)
    → inputs ≡ inputs_of t ++ rest
unfolding create inputs_of
create-inputs_of zero inputs t rest h = cc
create-inputs_of (suc fuel) [] t rest h = cc
create-inputs_of (suc fuel) (stop ∷ inputs) t rest h = ground arith
create-inputs_of (suc fuel) (number value ∷ inputs) t rest h =
    elim (Option-cases (create fuel inputs)) [
      | inl e ↦ absurd (
          let z : ◌≡◌ {A = Option (Tree × List Input)} none (some (t, rest)) =
            rw (create, e) at h in
          cc)
      | inr ((left, r), e) ↦ elim (Option-cases (create fuel r)) [
        | inl e' ↦ absurd (
            let z : ◌≡◌ {A = Option (Tree × List Input)} none (some (t, rest)) =
              rw (create, e, e') at h in
            cc)
        | inr ((right, r'), e') ↦
            let z : ◌≡◌ {A = Option (Tree × List Input)} (some (node value left right, r'))
                (some (t, rest)) =
              rw (create, e, e') at h in
            let first = create-inputs_of fuel inputs left r e in
            let second = create-inputs_of fuel r right r' e' in
            read_node value left right t first second z
      ]
    ]

-- `createBinaryTree` reads every tree from its numbers, whatever follows them, and stops behind them;
-- and where it ends on some input, that input starts with the numbers of the tree that it returns.
pub create_lem :
    (fuel : ℕ) (t : Tree) (rest : List Input)
    → (length (inputs_of t) ≤ fuel → create fuel (inputs_of t ++ rest) ≡ some (t, rest))
      × ((inputs : List Input) → create fuel inputs ≡ some (t, rest) → inputs ≡ inputs_of t ++ rest)
create_lem fuel t rest = (create-more fuel t rest, λ inputs. create-inputs_of fuel inputs t rest)

pow_next : (n : ℕ) → 2 ^ (n + 1) ≡ 2 ^ n + 2 ^ n
pow_next n = let e : n + 1 ≡ suc n = omega arith in rw e (omega (arith, pow-suc 2 n))

-- How often a number is in a list, and in a tree
unfoldable pub occurrences : ℕ → List ℕ → ℕ
occurrences x [] = 0
occurrences x (y ∷ ys) = (if x == y then 1 else 0) + occurrences x ys

unfoldable pub occurrences_in : ℕ → Tree → ℕ
occurrences_in x null = 0
occurrences_in x (node value left right) =
    (if x == value then 1 else 0) + occurrences_in x left + occurrences_in x right

occurrences-append :
    (x : ℕ) (xs ys : List ℕ) → occurrences x (xs ++ ys) ≡ occurrences x xs + occurrences x ys
unfolding occurrences
occurrences-append x [] ys = omega arith
occurrences-append x (y ∷ xs) ys = omega (arith, occurrences-append x xs ys)

occurrences-traversals :
    (t : Tree) (x : ℕ)
    → (occurrences x (pre_travel_tree t) ≡ occurrences_in x t)
      × (occurrences x (in_order_bi_tree t) ≡ occurrences_in x t)
      × (occurrences x (post_order_bi_tree t) ≡ occurrences_in x t)
unfolding occurrences occurrences_in pre_travel_tree in_order_bi_tree post_order_bi_tree
occurrences-traversals null x = (refl, refl, refl)
occurrences-traversals (node value left right) x =
    let (a, b, c) = occurrences-traversals left x in
    let (a', b', c') = occurrences-traversals right x in
    let pre = occurrences-append x (pre_travel_tree left) (pre_travel_tree right) in
    let mid = occurrences-append x (in_order_bi_tree left) (value ∷ in_order_bi_tree right) in
    let post = occurrences-append x (post_order_bi_tree left) (post_order_bi_tree right) in
    let last =
      occurrences-append x (post_order_bi_tree left ++ post_order_bi_tree right) (value ∷ []) in
    (omega arith, omega arith, omega arith)

tree_deep-length :
    (t : Tree)
    → (tree_deep t ≤ length (pre_travel_tree t)) × (length (pre_travel_tree t) < 2 ^ tree_deep t)
unfolding tree_deep pre_travel_tree
tree_deep-length null = (omega arith, omega arith)
tree_deep-length (node value left right) =
    let (dl, sl) = tree_deep-length left in
    let (dr, sr) = tree_deep-length right in
    let a = length-append (pre_travel_tree left) (pre_travel_tree right) in
    let up_left = pow_next (tree_deep left) in
    let up_right = pow_next (tree_deep right) in
    elim (Bool-cases (ltb (tree_deep right) (tree_deep left))) [
      | inl more ↦
          let grow : 2 ^ tree_deep right ≤ 2 ^ tree_deep left =
            pow-le-pow_right {n = 2} (omega arith) {i = tree_deep right} {j = tree_deep left}
              (ground arith) in
          rw more (omega arith, omega arith)
      | inr less ↦
          let grow : 2 ^ tree_deep left ≤ 2 ^ tree_deep right =
            pow-le-pow_right {n = 2} (omega arith) {i = tree_deep left} {j = tree_deep right}
              (ground arith) in
          rw less (ground arith, omega arith)
    ]

-- `preTravelTree` and the two other traversals of example_binary_tree2.cpp print every number exactly
-- as often as it is in the tree; and what `preTravelTree` prints is at least as long as the tree is
-- deep and shorter than 2 to the power of the depth that `treeDeep` returns.
pub tree_deep_bounds :
    (t : Tree) (x : ℕ)
    → (occurrences x (pre_travel_tree t) ≡ occurrences_in x t)
      × (occurrences x (in_order_bi_tree t) ≡ occurrences_in x t)
      × (occurrences x (post_order_bi_tree t) ≡ occurrences_in x t)
      × (tree_deep t ≤ length (pre_travel_tree t))
      × (length (pre_travel_tree t) < 2 ^ tree_deep t)
tree_deep_bounds t x =
    let (a, b, c) = occurrences-traversals t x in
    let (deep, short) = tree_deep-length t in (a, b, c, deep, short)
