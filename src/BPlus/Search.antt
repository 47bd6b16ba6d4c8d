-- ===== src/BPlus/Search.antt =====
-- example_bplus_tree.cpp: what `search` finds, and where it does not look.
use uc.Prelude.{
  ℕ, ◌-◌, ◌<◌, ◌≡◌, ◌⊎◌, ◌↔◌, arith, ltb, ◌==◌, true, false, Bool-cases, inl, inr, ◌&&◌, ne→==,
}
use native.Mathlib.Decide.{dec_lt}
use uc.BPlus.{Node, leaf, internal, recursive_search, key_index, child_index}
use uc.BPlus.Index.{Rises, key_index-IsIndex}

-- The key stands in a node, in a leaf or above.
unfoldable pub Has : ℕ → Node → Type 0
Has key (leaf n keys datas) = (i : ℕ) × (i < n) × (keys i ≡ key)
Has key (internal n keys childs) =
    ((i : ℕ) × (i < n) × (keys i ≡ key)) ⊎ ((i : ℕ) × Has key (childs i))

-- What `search` finds stands in the tree.
pub recursive_search-Has : (t : Node) (key : ℕ) → recursive_search t key ≡ true → Has key t
unfolding Has recursive_search
recursive_search-Has (leaf n keys datas) key found =
    (key_index n keys key, ground arith, ground arith)
recursive_search-Has (internal n keys childs) key found =
    let i = key_index n keys key in
    elim (Bool-cases (ltb i n && (key == keys i))) [
      | inl here ↦ inl (i, ground arith, ground arith)
      | inr below ↦ inr (
        child_index keys key i,
        recursive_search-Has (childs (child_index keys key i)) key (rw below at found),
      )
    ]

found_at :
    (n : ℕ) (keys datas : ℕ → ℕ) (key : ℕ)
    → key_index n keys key < n
    → keys (key_index n keys key) ≡ key
    → recursive_search (leaf n keys datas) key ≡ true
unfolding recursive_search
found_at n keys datas key lt e = ground arith

-- On a leaf whose keys rise, `search` finds a key exactly if it is there.
pub search-leaf :
    (n : ℕ) (keys datas : ℕ → ℕ) (key : ℕ)
    → 0 < n
    → Rises n keys
    → (recursive_search (leaf n keys datas) key ≡ true) ↔ Has key (leaf n keys datas)
unfolding Has Rises
search-leaf n keys datas key some_key rises = (
  recursive_search-Has (leaf n keys datas) key,
  (λ (i, lt, e).
      let (_, x) = key_index-IsIndex n keys key some_key rises in
      let at = key_index n keys key in
      let here : i ≡ at = elim (dec_lt i at) [
        | yes low ↦ absurd (omega (arith, x.before i low, e))
        | no ge ↦ elim (dec_lt at i) [
          | yes high ↦ elim x.there [
            | inl le ↦ absurd (omega (arith, rises at i high lt, e, le))
            | inr last ↦ omega arith
          ]
          | no le ↦ omega arith
        ]
      ] in
      found_at n keys datas key x.inside (rw here at e)),
)

-- In an inner node whose keys rise, for a key above all of them, the search goes on in the last child
-- but one, and not in the last one.
pub search-skips :
    (n : ℕ) (keys : ℕ → ℕ) (childs : ℕ → Node) (key : ℕ)
    → 0 < n
    → Rises n keys
    → ((i : ℕ) → i < n → keys i < key)
    → recursive_search (internal n keys childs) key ≡ recursive_search (childs (n - 1)) key
unfolding recursive_search child_index
search-skips n keys childs key some_key rises above =
    let (_, x) = key_index-IsIndex n keys key some_key rises in
    let less = above (key_index n keys key) x.inside in
    let last : key_index n keys key ≡ n - 1 = elim x.there [
      | inl le ↦ absurd (omega arith)
      | inr top ↦ omega arith
    ] in
    let apart : (key == keys (n - 1)) ≡ false =
      ne→== key (keys (n - 1)) (λ e. omega (arith, above (n - 1) (omega arith))) in
    rw (last, apart) (ground arith)
