-- ===== src/BPlus.antt =====
-- example_bplus_tree.cpp: the nodes of a B+ tree, and the search and the insertion. The file holds
-- its code twice; this is about the first copy.
--
-- The keys are only compared, and none is NaN: a `float` is given as its rank. The data are only
-- moved. An array is a function of its index, so what is not set yet has some value. `m_Type` is
-- the constructor. A node that a call changes is returned: no two places point to one node. The
-- links between the leaves are not in the model.
pub mod Arrays
pub mod Index
pub mod Shift
pub mod Leaf
pub mod Shape
pub mod Child
pub mod Insert
pub mod Search
pub mod Merge
pub mod Borrow
pub mod Lend
pub mod Join
pub mod Merged
mod Tests
use uc.Prelude.{
  ℕ, zero, suc, ◌+◌, ◌-◌, ◌/◌, Bool, true, false, ltb, leb, ◌==◌, if◌then◌else◌, Option, none, some,
  ◌&&◌,
}

-- MINNUM_KEY and MINNUM_LEAF; MAXNUM_KEY and MAXNUM_LEAF; MINNUM_CHILD
abbrev pub min_key : ℕ
min_key = 6

abbrev pub max_key_num : ℕ
max_key_num = 13

abbrev pub min_child : ℕ
min_child = 7

-- `CLeafNode` with `m_KeyNum`, `m_KeyValues` and `m_Datas`, and `CInternalNode` with `m_KeyNum`,
-- `m_KeyValues` and `m_Childs`.
pub data Node : Type 0 where
  leaf : ℕ → (ℕ → ℕ) → (ℕ → ℕ) → Node
  internal : ℕ → (ℕ → ℕ) → (ℕ → Node) → Node

-- `getKeyNum`
unfoldable pub key_num : Node → ℕ
key_num (leaf n keys datas) = n
key_num (internal n keys childs) = n

module _ {ℓ} {A : Type ℓ} where
  -- `setKeyValue`, `setData` and `setChild`
  unfoldable pub put : (ℕ → A) → ℕ → A → ℕ → A
  put f i v j = if j == i then v else f j

  -- A loop that sets the first `n` places to those of `source` from `from` on.
  unfoldable pub copied : ℕ → (ℕ → A) → ℕ → (ℕ → A) → ℕ → A
  copied n source from f j = if ltb j n then source (j + from) else f j

-- The loop of `CNode::getKeyIndex`. The distance of `left` and `right` falls in each round. It is
-- `none` if there is still a distance when the fuel runs out.
unfoldable pub index_loop : ℕ → (ℕ → ℕ) → ℕ → ℕ → ℕ → Option ℕ
index_loop zero keys key left right = if left == right then some left else none
index_loop (suc fuel) keys key left right = elim (left == right) [
  | true ↦ some left
  | false ↦
      let current = (left + right) / 2 in
      elim (ltb (keys current) key) [
        | true ↦ index_loop fuel keys key (current + 1) right
        | false ↦ index_loop fuel keys key left current
      ]
]

-- `CNode::getKeyIndex`, of a node with a key. It would be the number of the keys, which is no index,
-- if the loop did not end.
unfoldable pub key_index : ℕ → (ℕ → ℕ) → ℕ → ℕ
unfolding index_loop
key_index n keys key = elim (index_loop n keys key 0 (n - 1)) [ none ↦ n | some i ↦ i ]

-- `CInternalNode::getChildIndex`; that of a leaf is the index of the key.
unfoldable pub child_index : (ℕ → ℕ) → ℕ → ℕ → ℕ
child_index keys key i = if key == keys i then i + 1 else i

-- The loop of `CInternalNode::insert`, `n` rounds down to `i == at`.
unfoldable pub insert_shift : ℕ → ℕ → (ℕ → ℕ) → (ℕ → Node) → (ℕ → ℕ) × (ℕ → Node)
insert_shift at zero keys childs = (keys, childs)
insert_shift at (suc n) keys childs =
    let i = at + n + 1 in
    insert_shift at n (put keys i (keys (i - 1))) (put childs (i + 1) (childs i))

-- `CInternalNode::insert`: the arrays; `m_KeyNum` is one more.
unfoldable pub insert_child : ℕ → (ℕ → ℕ) → (ℕ → Node) → ℕ → ℕ → ℕ → Node → (ℕ → ℕ) × (ℕ → Node)
insert_child n keys childs i c key child =
    let (keys', childs') = insert_shift i (n - i) keys childs in
    let childs'' = if i == c then put childs' (i + 1) (childs' i) else childs' in
    (put keys' i key, put childs'' c child)

-- `CLeafNode::insert`, the loop from `i` and what follows it.
unfoldable pub insert_entry : ℕ → (ℕ → ℕ) → (ℕ → ℕ) → ℕ → ℕ → (ℕ → ℕ) × (ℕ → ℕ)
insert_entry zero keys datas key d = (put keys 0 key, put datas 0 d)
insert_entry (suc i) keys datas key d = elim (ltb key (keys i)) [
  | true ↦ insert_entry i (put keys (suc i) (keys i)) (put datas (suc i) (datas i)) key d
  | false ↦ (put keys (suc i) key, put datas (suc i) d)
]

-- `split`: the node itself, the key that goes to the parent, and the new node to its right.
unfoldable pub split : Node → Node × ℕ × Node
split (leaf n keys datas) = (
  leaf min_key keys datas,
  keys min_key,
  leaf (min_key + 1) (copied (min_key + 1) keys min_key (λ i. 0))
      (copied (min_key + 1) datas min_key (λ i. 0)),
)
split (internal n keys childs) = (
  internal min_key keys childs,
  keys min_key,
  internal min_key (copied min_key keys min_child (λ i. 0))
      (copied min_child childs min_child childs),
)

-- A child is split: the parent's arrays behind it.
unfoldable pub split_child : ℕ → (ℕ → ℕ) → (ℕ → Node) → ℕ → (ℕ → ℕ) × (ℕ → Node)
split_child n keys childs c =
    let (left, key, right) = split (childs c) in
    insert_child n keys (put childs c left) c (c + 1) key right

-- `recursive_insert`; the depth of the node is enough fuel.
unfoldable pub recursive_insert : ℕ → Node → ℕ → ℕ → Node
recursive_insert fuel (leaf n keys datas) key d =
    let (keys', datas') = insert_entry n keys datas key d in leaf (n + 1) keys' datas'
recursive_insert zero (internal n keys childs) key d = internal n keys childs
recursive_insert (suc fuel) (internal n keys childs) key d =
    let c = child_index keys key (key_index n keys key) in
    elim (leb max_key_num (key_num (childs c))) [
      | false ↦ internal n keys (put childs c (recursive_insert fuel (childs c) key d))
      | true ↦
          let (keys', childs') = split_child n keys childs c in
          let target = if leb (keys' c) key then c + 1 else c in
          internal (n + 1) keys' (put childs' target (recursive_insert fuel (childs' target) key d))
    ]

-- `recursive_search`
unfoldable pub recursive_search : Node → ℕ → Bool
recursive_search (leaf n keys datas) key =
    let i = key_index n keys key in ltb i n && (key == keys i)
recursive_search (internal n keys childs) key =
    let i = key_index n keys key in
    let below = recursive_search (childs (child_index keys key i)) key in
    if ltb i n && (key == keys i) then true else below

-- `CBPlusTree`: `m_Root`, which is `none` for NULL, and `m_MaxKey`.
pub record Tree : Type 0 where
  pub root : Option Node
  pub max_key : ℕ

-- `search`
unfoldable pub search : Tree → ℕ → Bool
search t key = elim t.root [ none ↦ false | some node ↦ recursive_search node key ]

-- A full root gets a parent and is split; `insert` gives it the fuel of its depth, which is one
-- more then.
unfoldable pub grow : Node → Node
grow root =
    if leb max_key_num (key_num root)
    then (let (keys, childs) = split_child 0 (λ i. 0) (λ i. root) 0 in internal 1 keys childs)
    else root

-- The depth of a node, along its first children.
unfoldable pub depth : Node → ℕ
depth (leaf n keys datas) = 0
depth (internal n keys childs) = suc (depth (childs 0))

-- `insert`
unfoldable pub insert : Tree → ℕ → ℕ → Bool × Tree
insert t key d =
    if search t key
    then (false, t)
    else let start : Node = elim t.root [ none ↦ leaf 0 (λ i. 0) (λ i. 0) | some node ↦ node ] in
      let top : ℕ = elim t.root [ none ↦ key | some node ↦ t.max_key ] in
      let root = grow start in
      (
        true,
        record {
          root = some (recursive_insert (depth root) root key d);
          max_key = if ltb top key then key else top;
        },
      )

-- `clear`
unfoldable pub clear : Tree → Tree
clear t = record t { root = none }

-- `CLeafNode::removeKey`: the loop from `i`, with `n` rounds left.
unfoldable pub remove_entry : ℕ → ℕ → (ℕ → ℕ) → (ℕ → ℕ) → (ℕ → ℕ) × (ℕ → ℕ)
remove_entry zero i keys datas = (keys, datas)
remove_entry (suc n) i keys datas =
    remove_entry n (i + 1) (put keys i (keys (i + 1))) (put datas i (datas (i + 1)))

-- The loop of `CLeafNode::mergeChild` over the entries of the other leaf from `i`, with `n` rounds
-- left: the entries are inserted one after the other into the leaf, which has `m` so far.
unfoldable pub merge_entries : ℕ → ℕ → (ℕ → ℕ) → (ℕ → ℕ) → ℕ → (ℕ → ℕ) → (ℕ → ℕ) → (ℕ → ℕ) × (ℕ → ℕ)
merge_entries zero i from_keys from_datas m keys datas = (keys, datas)
merge_entries (suc n) i from_keys from_datas m keys datas =
    let (keys', datas') = insert_entry m keys datas (from_keys i) (from_datas i) in
    merge_entries n (i + 1) from_keys from_datas (m + 1) keys' datas'
