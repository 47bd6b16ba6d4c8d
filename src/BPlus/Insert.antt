-- ===== src/BPlus/Insert.antt =====
-- example_bplus_tree.cpp: what `insert` does to the entries and to the shape of a B+ tree.
use uc.Prelude.{
  ℕ, zero, suc, ◌+◌, ◌-◌, ◌≤◌, ◌<◌, ◌≡◌, ◌≢◌, refl, sym, ap, ◌∙◌, arith, leb, Bool-cases, inl, inr,
  none, some, if◌then◌else◌, ◌⊎◌, not,
}
use native.Mathlib.Decide.{ℕ_discrete}
use uc.BPlus.{
  Node, leaf, internal, key_num, put, split_child, recursive_insert, insert_entry, max_key_num,
  key_index, child_index, Tree, grow, depth, insert, search,
}
use uc.BPlus.Arrays.{sum, sum-replaced, sum-inserted}
use uc.BPlus.Shift.{put_self, put_ne}
use uc.BPlus.Leaf.{insert_entry-Placed}
use uc.BPlus.Index.{child_index-le}
use uc.BPlus.Shape.{total, Sized}
use uc.BPlus.Child.{AllSized, Divided, split_child-Divided}

-- The node behind the insertion of an entry below it.
pub record Grown (h key d : ℕ) (t t' : Node) : Type 0 where
  pub sized : Sized h t'
  pub more : key_num t ≤ key_num t'
  pub entries : (w : ℕ → ℕ → ℕ) → total w t' ≡ total w t + w key d

-- The child at `c` grows.
AllSized-put :
    (h n c key d : ℕ) (childs : ℕ → Node) (t : Node)
    → c < suc n
    → AllSized h n childs
    → Grown h key d (childs c) t
    → AllSized h n (put childs c t)
      × ((w : ℕ → ℕ → ℕ)
          → sum (suc n) (λ i. total w (put childs c t i))
            ≡ sum (suc n) (λ i. total w (childs i)) + w key d)
unfolding AllSized
AllSized-put h n c key d childs t lt sized g =
    let here = put_self childs c t in
    let other : (j : ℕ) → j ≢ c → put childs c t j ≡ childs j = λ j ne. put_ne childs c j t ne in
    (
      (λ i less. elim (ℕ_discrete i c) [
        | yes same ↦ rw (same, here) (omega (arith, g.more, (sized c lt).0), g.sized)
        | no apart ↦ rw (other i apart) (sized i less)
      ]),
      (λ w. omega (
        arith,
        sum-replaced (suc n) c (total w t) (λ i. total w (childs i))
            (λ i. total w (put childs c t i)) lt (ap (total w) here)
            (λ j less ne. ap (total w) (other j ne)),
        g.entries w,
      )),
    )

leaf-Grown :
    (h n : ℕ) (keys datas : ℕ → ℕ) (key d : ℕ)
    → Sized h (leaf n keys datas)
    → n < max_key_num
    → let (keys', datas') = insert_entry n keys datas key d in
      Grown h key d (leaf n keys datas) (leaf (n + 1) keys' datas')
unfolding Sized total key_num
leaf-Grown h n keys datas key d (level, few) room =
    let (p, s) = insert_entry-Placed n keys datas key d in
    let (keys', datas') = insert_entry n keys datas key d in
    let e : n + 1 ≡ suc n = omega arith in
    record {
      sized = (level, omega arith);
      more = omega arith;
      entries = λ w. rw e (
          sum-inserted n p (w key d) (λ i. w (keys i) (datas i)) (λ i. w (keys' i) (datas' i))
            s.place
            (λ j lt. ap (λ k. w k (datas' j)) (s.low j lt).0 ∙ ap (w (keys j)) (s.low j lt).1)
            (ap (λ k. w k (datas' p)) s.new.0 ∙ ap (w key) s.new.1)
            (λ j ge lt.
              ap (λ k. w k (datas' (suc j))) (s.high j ge lt).0
              ∙ ap (w (keys j)) (s.high j ge lt).1));
    }

key_num-le : (h : ℕ) (t : Node) → Sized h t → key_num t ≤ max_key_num
unfolding Sized key_num
key_num-le h (leaf n keys datas) v = v.1
key_num-le h (internal n keys childs) v = v.1.1

-- The node behind a split of a child and an insertion below one of the halves.
Divided-Grown :
    (h n c t key d : ℕ) (keys keys' : ℕ → ℕ) (childs childs' : ℕ → Node) (x : Node)
    → 0 < h
    → n < max_key_num
    → Divided (h - 1) n c childs childs'
    → t < suc (suc n)
    → Grown (h - 1) key d (childs' t) x
    → Grown h key d (internal n keys childs) (internal (n + 1) keys' (put childs' t x))
unfolding Sized key_num total AllSized
Divided-Grown h n c t key d keys keys' childs childs' x level room dv lt g =
    let (all, entries) = AllSized-put (h - 1) (suc n) t key d childs' x lt dv.sized g in
    let e : n + 1 ≡ suc n = omega arith in
    rw e (record {
      sized = (level, (omega arith, omega arith), all);
      more = omega arith;
      entries = λ w. omega (arith, entries w, dv.entries w);
    })

-- Below a node that is not full, `recursive_insert` adds the entry to the leaves and keeps the shape.
pub recursive_insert-Grown :
    (fuel h : ℕ) (t : Node) (key d : ℕ)
    → h ≤ fuel
    → Sized h t
    → key_num t < max_key_num
    → Grown h key d t (recursive_insert fuel t key d)
unfolding recursive_insert Sized key_num AllSized total sum
recursive_insert-Grown fuel h (leaf n keys datas) key d enough (level, few) room =
    leaf-Grown h n keys datas key d (level, few) room
recursive_insert-Grown zero h (internal n keys childs) key d enough (level, some_key, below) room =
    absurd (omega arith)
recursive_insert-Grown (suc fuel) h (internal n keys childs) key d enough (level, some_key, below)
      room =
    let c = child_index keys key (key_index n keys key) in
    let lt : c < suc n = omega (arith, child_index-le n keys key some_key.0) in
    elim (Bool-cases (leb max_key_num (key_num (childs c)))) [
      | inr fits ↦
          let g =
            recursive_insert-Grown fuel (h - 1) (childs c) key d (omega arith) (below c lt).1
              (ground arith) in
          let (all, entries) = AllSized-put (h - 1) n c key d childs _ lt below g in
          rw (fits, recursive_insert)
            (record { sized = (level, some_key, all); more = omega arith; entries = entries })
      | inl full ↦
          let top = key_num-le (h - 1) (childs c) (below c lt).1 in
          let dv = split_child-Divided (h - 1) n keys childs c lt below (ground arith) in
          let childs' = (split_child n keys childs c).1 in
          let keys' = (split_child n keys childs c).0 in
          elim (Bool-cases (leb (keys' c) key)) [
            | inl right ↦
                rw (full, recursive_insert, right)
                  (Divided-Grown h n c (c + 1) key d keys keys' childs childs' _ level room dv
                    (omega arith)
                    (recursive_insert-Grown fuel (h - 1) (childs' (c + 1)) key d (omega arith)
                      (dv.sized (c + 1) (omega arith)).1 dv.right_room))
            | inr left ↦
                rw (full, recursive_insert, left)
                  (Divided-Grown h n c c key d keys keys' childs childs' _ level room dv
                    (omega arith)
                    (recursive_insert-Grown fuel (h - 1) (childs' c) key d (omega arith)
                      (dv.sized c (omega arith)).1 dv.left_room))
          ]
    ]

depth-Sized : (h : ℕ) (t : Node) → Sized h t → depth t ≡ h
unfolding Sized depth
depth-Sized h (leaf n keys datas) v = sym v.0
depth-Sized h (internal n keys childs) v =
    let rest = depth-Sized (h - 1) (childs 0) (v.2 0 (omega arith)).1 in omega (arith, rest, v.0)

-- A root that is full gets a parent.
grow-Sized :
    (h : ℕ) (t : Node)
    → Sized h t
    → (h' : ℕ) × Sized h' (grow t)
      × (key_num (grow t) < max_key_num)
      × ((w : ℕ → ℕ → ℕ) → total w (grow t) ≡ total w t)
unfolding grow total sum Sized key_num AllSized
grow-Sized h t v = elim (Bool-cases (leb max_key_num (key_num t))) [
  | inr fits ↦ rw (fits, grow) (h, v, ground arith, (λ w. refl))
  | inl full ↦
      let top = key_num-le h t v in
      let dv =
        split_child-Divided h 0 (λ i. 0) (λ i. t) 0 (omega arith) (λ i lt. (ground arith, v))
          (ground arith) in
      rw (full, grow)
        (
          suc h,
          (
            omega arith,
            (omega arith, omega arith),
            (let e : suc h - 1 ≡ h = omega arith in rw e dv.sized),
          ),
          omega arith,
          (λ w. omega (arith, dv.entries w)),
        )
]

-- A tree is NULL or a root with the shape of some depth.
unfoldable pub IsTree : Tree → Type 0
IsTree t = (t.root ≡ none) ⊎ ((node : Node) × (h : ℕ) × (t.root ≡ some node) × Sized h node)

-- The sum of a weight over all entries of the tree.
unfoldable pub tree_total : (ℕ → ℕ → ℕ) → Tree → ℕ
tree_total w t = elim t.root [ none ↦ 0 | some node ↦ total w node ]

-- The root that the insertion starts at.
start-Sized :
    (t : Tree)
    → IsTree t
    → let start : Node = elim t.root [ none ↦ leaf 0 (λ i. 0) (λ i. 0) | some node ↦ node ] in
      (h : ℕ) × Sized h start × ((w : ℕ → ℕ → ℕ) → total w start ≡ tree_total w t)
unfolding IsTree tree_total Sized total sum
start-Sized t (inl e) = rw (e, tree_total) (0, (refl, omega arith), (λ w. refl))
start-Sized t (inr (node, h, e, v)) = rw (e, tree_total) (h, v, (λ w. refl))

-- `insert` answers whether the key was not found. If so, the entry is added to those in the leaves,
-- which all stay; if not, nothing changes. The leaves stay at one depth, no node gets more keys than
-- its array holds, and none but the root has less than MINNUM_KEY.
pub insert-IsTree :
    (t : Tree) (key d : ℕ)
    → IsTree t
    → let (done, t') = insert t key d in
      (done ≡ not (search t key))
      × IsTree t'
      × ((w : ℕ → ℕ → ℕ) → tree_total w t' ≡ tree_total w t + (if done then w key d else 0))
unfolding insert IsTree tree_total total
insert-IsTree t key d v = elim (Bool-cases (search t key)) [
  | inl found ↦ rw found (refl, v, (λ w. omega arith))
  | inr absent ↦
      let (h0, sized, same) = start-Sized t v in
      let (h, sized', room, same') = grow-Sized h0 _ sized in
      let g =
        recursive_insert-Grown (depth _) h _ key d (omega (arith, depth-Sized h _ sized')) sized'
          room in
      rw absent (
        refl,
        inr (_, h, refl, g.sized),
        (λ w. g.entries w ∙ ap (λ k. k + w key d) (same' w ∙ same w)),
      )
]
