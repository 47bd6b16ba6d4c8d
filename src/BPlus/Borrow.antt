-- ===== src/BPlus/Borrow.antt =====
-- example_bplus_tree.cpp: `removeKey`, `borrowFrom` and `mergeChild` of the two classes of nodes.
--
-- A call changes the node, its sibling and the parent; the model returns what they are then.
use uc.Prelude.{ℕ, zero, suc, ◌+◌, ◌-◌}
use uc.BPlus.{
  Node, leaf, internal, put, insert_entry, insert_child, remove_entry, merge_entries, min_key,
}

-- `SIBLING_DIRECTION`
pub data Direction : Type 0 where
  left right : Direction

-- The loop of `CInternalNode::removeKey` from `i`, with `r` rounds left.
unfoldable pub remove_loop : ℕ → ℕ → ℕ → ℕ → (ℕ → ℕ) → (ℕ → Node) → (ℕ → ℕ) × (ℕ → Node)
remove_loop zero i key_at child_at keys childs = (keys, childs)
remove_loop (suc r) i key_at child_at keys childs =
    remove_loop r (i + 1) key_at child_at (put keys (key_at + i) (keys (key_at + i + 1)))
      (put childs (child_at + i) (childs (child_at + i + 1)))

-- `CInternalNode::removeKey`: the arrays; `m_KeyNum` is one less.
unfoldable pub remove_child : ℕ → (ℕ → ℕ) → (ℕ → Node) → ℕ → ℕ → (ℕ → ℕ) × (ℕ → Node)
remove_child n keys childs key_at child_at =
    remove_loop (n - key_at - 1) 0 key_at child_at keys childs

-- `CLeafNode::borrowFrom` with the sibling's arrays: the node, the sibling, and the key that the
-- parent gets.
unfoldable pub borrow_entry :
    Direction → ℕ → (ℕ → ℕ) → (ℕ → ℕ) → ℕ → (ℕ → ℕ) → (ℕ → ℕ) → Node × Node × ℕ
borrow_entry left n keys datas m from_keys from_datas =
    let (keys', datas') = insert_entry n keys datas (from_keys (m - 1)) (from_datas (m - 1)) in
    let (rest_keys, rest_datas) = remove_entry (m - 1 - (m - 1)) (m - 1) from_keys from_datas in
    (leaf (n + 1) keys' datas', leaf (m - 1) rest_keys rest_datas, keys' 0)
borrow_entry right n keys datas m from_keys from_datas =
    let (keys', datas') = insert_entry n keys datas (from_keys 0) (from_datas 0) in
    let (rest_keys, rest_datas) = remove_entry (m - 1 - 0) 0 from_keys from_datas in
    (leaf (n + 1) keys' datas', leaf (m - 1) rest_keys rest_datas, rest_keys 0)

-- `CInternalNode::borrowFrom`, where `key` is the parent's: the node, the sibling, and the key that
-- the parent gets.
unfoldable pub borrow_child :
    Direction → ℕ → (ℕ → ℕ) → (ℕ → Node) → ℕ → ℕ → (ℕ → ℕ) → (ℕ → Node) → Node × Node × ℕ
borrow_child left n keys childs key m from_keys from_childs =
    let (keys', childs') = insert_child n keys childs 0 0 key (from_childs m) in
    let (rest_keys, rest_childs) = remove_child m from_keys from_childs (m - 1) m in
    (internal (n + 1) keys' childs', internal (m - 1) rest_keys rest_childs, from_keys (m - 1))
borrow_child right n keys childs key m from_keys from_childs =
    let (keys', childs') = insert_child n keys childs n (n + 1) key (from_childs 0) in
    let (rest_keys, rest_childs) = remove_child m from_keys from_childs 0 0 in
    (internal (n + 1) keys' childs', internal (m - 1) rest_keys rest_childs, from_keys 0)

-- The loop of `CInternalNode::mergeChild` from `i`, with `r` rounds left. The node had `n` keys when
-- `mergeChild` was called.
unfoldable pub merge_loop :
    ℕ → ℕ → (ℕ → ℕ) → (ℕ → Node) → ℕ → (ℕ → ℕ) → (ℕ → Node) → (ℕ → ℕ) × (ℕ → Node)
merge_loop zero i from_keys from_childs n keys childs = (keys, childs)
merge_loop (suc r) i from_keys from_childs n keys childs =
    let (keys', childs') =
      insert_child (n + i) keys childs (min_key + i) (min_key + i + 1) (from_keys (i - 1))
        (from_childs i) in
    merge_loop r (i + 1) from_keys from_childs n keys' childs'

-- What `mergeChild` of either class makes of the node; `key` is the parent's. The two nodes are of
-- one class: the code casts the sibling to the class of the node.
unfoldable pub merge_nodes : Node → ℕ → Node → Node
merge_nodes (leaf n keys datas) key (leaf m from_keys from_datas) =
    let (keys', datas') = merge_entries m 0 from_keys from_datas n keys datas in
    leaf (n + m) keys' datas'
merge_nodes (leaf n keys datas) key (internal m from_keys from_childs) = leaf n keys datas
merge_nodes (internal n keys childs) key (leaf m from_keys from_datas) = internal n keys childs
merge_nodes (internal n keys childs) key (internal m from_keys from_childs) =
    let (keys0, childs0) = insert_child n keys childs min_key (min_key + 1) key (from_childs 0) in
    let (keys', childs') = merge_loop m 1 from_keys from_childs n keys0 childs0 in
    internal (n + 1 + m) keys' childs'

-- `mergeChild` of the children `k` and `k + 1` of a node of `n` keys: the parent, and the child that
-- `CInternalNode::mergeChild` deletes then. That of a leaf deletes nothing.
unfoldable pub merge_child : ℕ → (ℕ → ℕ) → (ℕ → Node) → ℕ → Node × Node
merge_child n keys childs k =
    let node = merge_nodes (childs k) (keys k) (childs (k + 1)) in
    let (keys', childs') = remove_child n keys (put childs k node) k (k + 1) in
    (internal (n - 1) keys' childs', childs' (k + 1))
