-- ===== src/ChainTable/Tables.antt =====
-- example_hashtable2.cpp: what the operations do to a table, and what holds after any of them.
use uc.Prelude.{
  ℕ, zero, suc, ◌+◌, ◌≤◌, ◌<◌, List, [], ◌∷◌, none, some, Bool, true, false, ◌≡◌, ◌≢◌, refl, sym,
  ap, ◌∙◌, arith, Bool-cases, Option-cases, inl, inr, if◌then◌else◌, ◌&&◌, ◌||◌, ltb, leb, ◌==◌,
  length, length-append, eq→==, ne→==,
}
use native.Mathlib.Decide.{ℕ_discrete}
use uc.Prelude.Texts.{same, same_refl, same→eq, same→ne, ne→same}
use uc.ChainTable.{
  Node, Table, find, lookup, put, insert, unlink, remove_node, remove, release, pos,
  hash_table_max_size,
}
use uc.ChainTable.Texts.{pos-lt}
use uc.ChainTable.Chains.{IsChain, find-remove_node, remove_node-IsChain, leads}

-- Every chain has the keys of its position, each once. No more nodes are in the table than
-- `hash_table_size` says, and that is not above the limit.
pub record IsTable (t : Table) : Type 0 where
  pub chained : (p : ℕ) → IsChain p (t.chains p)
  pub few : length (release hash_table_max_size 0 t.chains) ≤ t.size
  pub bounded : t.size ≤ hash_table_max_size

put_self : (chains : ℕ → List Node) (p : ℕ) (c : List Node) → put chains p c p ≡ c
unfolding put
put_self chains p c = ground arith

put_ne : (chains : ℕ → List Node) (p j : ℕ) (c : List Node) → j ≢ p → put chains p c j ≡ chains j
unfolding put
put_ne chains p j c ne = rw (ne→== j p ne) refl

-- The chains in front of `i` are not in the list.
release-below :
    (n i p : ℕ) (chains : ℕ → List Node) (c : List Node)
    → p < i
    → release n i (put chains p c) ≡ release n i chains
unfolding release
release-below zero i p chains c lt = refl
release-below (suc n) i p chains c lt =
    rw (put_ne chains p i c (omega arith), release-below n (i + 1) p chains c (omega arith)) refl

-- A chain is replaced.
release-put :
    (n i p : ℕ) (chains : ℕ → List Node) (c : List Node)
    → i ≤ p
    → p < i + n
    → length (release n i (put chains p c)) + length (chains p)
      ≡ length (release n i chains) + length c
unfolding release
release-put zero i p chains c ge lt = absurd (omega arith)
release-put (suc n) i p chains c ge lt =
    let split = length-append (put chains p c i) (release n (i + 1) (put chains p c)) in
    let split' = length-append (chains i) (release n (i + 1) chains) in
    elim (ℕ_discrete i p) [
      | yes here ↦
          let e : put chains p c i ≡ c = rw here (put_self chains p c) in
          let e' : chains i ≡ chains p = ap chains here in
          omega (
            arith,
            split,
            split',
            ap length e,
            ap length e',
            ap length (release-below n (i + 1) p chains c (omega arith)),
          )
      | no later ↦ omega (
        arith,
        split,
        split',
        ap length (put_ne chains p i c later),
        release-put n (i + 1) p chains c (omega arith) (omega arith),
      )
    ]

-- Whether `hash_table_insert` adds a node.
unfoldable pub adds : Table → List ℕ → Bool
adds t key =
    ltb t.size hash_table_max_size && (elim (lookup t key) [ none ↦ true | some e ↦ false ])

-- What a search answers when one chain is another one.
lookup-put :
    (chains : ℕ → List Node) (size p : ℕ) (c : List Node) (k : List ℕ)
    → lookup (record { chains = put chains p c; size = size }) k
      ≡ (if pos k == p then find c k else find (chains (pos k)) k)
unfolding lookup
lookup-put chains size p c k = elim (ℕ_discrete (pos k) p) [
  | yes here ↦ rw (eq→== (pos k) p here, here, put_self chains p c) refl
  | no there ↦ rw (ne→== (pos k) p there, put_ne chains p (pos k) c there) refl
]

-- What `hash_table_insert` does when it adds a node.
record Added (t t' : Table) (key : List ℕ) (v : ℕ) : Type 0 where
  table : IsTable t'
  counted : t'.size ≡ t.size + 1
  answers :
      (k : List ℕ)
      → lookup t' k ≡ (if same key k then some (record { key = key; value = v }) else lookup t k)

insert-Added :
    (t : Table) (key : List ℕ) (v : ℕ)
    → IsTable t
    → t.size < hash_table_max_size
    → find (t.chains (pos key)) key ≡ none
    → Added t
        (record {
          chains = put t.chains (pos key) (record { key = key; value = v } ∷ t.chains (pos key));
          size = t.size + 1;
        })
        key
        v
unfolding IsChain find lookup
insert-Added t key v valid room absent =
    let p = pos key in
    let new : Node = record { key = key; value = v } in
    let c = new ∷ t.chains p in
    record {
      table = record {
        chained = λ q. elim (ℕ_discrete q p) [
          | yes here ↦ rw (here, put_self t.chains p c) (refl, absent, valid.chained p)
          | no there ↦ rw (put_ne t.chains p q c there) (valid.chained q)
        ];
        few = omega (
          arith,
          release-put hash_table_max_size 0 p t.chains c (omega arith) (omega (arith, pos-lt key)),
          valid.few,
        );
        bounded = omega arith;
      };
      counted = refl;
      answers = λ k. lookup-put t.chains (t.size + 1) p c k ∙ elim (Bool-cases (same key k)) [
        | inl it ↦
            let e : k ≡ key = sym (same→eq key k it) in rw (e, same_refl key, eq→== p p refl) refl
        | inr apart ↦
            let ne : same k key ≡ false = ne→same k key (λ x. same→ne key k apart (sym x)) in
            elim (ℕ_discrete (pos k) p) [
              | yes here ↦ rw (apart, eq→== (pos k) p here, ne, here) refl
              | no there ↦ rw (apart, ne→== (pos k) p there) refl
            ]
      ];
    }

-- A table stays one. A node is added if there is room and the key is not there; then the key has the
-- value, and every other key what it had. If not, nothing changes.
pub insert_chain_lem :
    (t : Table) (key : List ℕ) (v : ℕ)
    → IsTable t
    → let t' = insert t key v in
      let added = adds t key in
      IsTable t'
      × (t'.size ≡ (if added then t.size + 1 else t.size))
      × ((k : List ℕ)
          → lookup t' k
            ≡ (if added && same key k then some (record { key = key; value = v }) else lookup t k))
unfolding insert adds lookup
insert_chain_lem t key v valid = elim (Bool-cases (leb hash_table_max_size t.size)) [
  | inl full ↦
      let no_room : ltb t.size hash_table_max_size ≡ false = ground arith in
      rw (full, insert, no_room, adds) (valid, refl, (λ k. refl))
  | inr fits ↦
      let room : ltb t.size hash_table_max_size ≡ true = ground arith in
      elim (Option-cases (find (t.chains (pos key)) key)) [
        | inr (e, there) ↦ rw (fits, insert, room, adds, there) (valid, refl, (λ k. refl))
        | inl absent ↦
            let a = insert-Added t key v valid (ground arith) absent in
            rw (fits, insert, room, adds, absent) (a.table, a.counted, a.answers)
      ]
]

-- Whether `hash_table_remove` of `key` takes the key `k` out of the table.
unfoldable pub loses : Table → List ℕ → List ℕ → Bool
loses t key k = (pos k == pos key) && (leads (t.chains (pos key)) key || same key k)

length-unlink : (es : List Node) (key : List ℕ) → length (unlink es key) ≤ length es
unfolding unlink
length-unlink [] key = omega arith
length-unlink (e ∷ es) key = elim (Bool-cases (same key e.key)) [
  | inl here ↦ rw here (omega arith)
  | inr there ↦ rw there (omega (arith, length-unlink es key))
]

length-remove_node : (es : List Node) (key : List ℕ) → length (remove_node es key) ≤ length es
unfolding remove_node
length-remove_node [] key = omega arith
length-remove_node (e ∷ es) key = elim (Bool-cases (same key e.key)) [
  | inl here ↦ rw here (omega arith)
  | inr there ↦ rw there (omega (arith, length-unlink es key))
]

lookup-remove :
    (t : Table) (key k : List ℕ)
    → IsTable t
    → lookup (remove t key) k ≡ (if loses t key k then none else lookup t k)
unfolding remove loses lookup
lookup-remove t key k valid =
    let p = pos key in
    let chain = t.chains p in
    let c = remove_node chain key in
    let there_or = lookup-put t.chains t.size p c k in
    elim (ℕ_discrete (pos k) p) [
      | yes here ↦
          let e = eq→== (pos k) p here in
          let first : lookup (remove t key) k ≡ find c k = there_or ∙ rw e refl in
          let gone = first ∙ find-remove_node p chain key k (valid.chained p) in
          let same_chain : lookup t k ≡ find chain k = rw here refl in
          elim (Bool-cases (leads chain key)) [
            | inl head ↦ gone ∙ rw (e, head) refl
            | inr behind ↦ elim (Bool-cases (same key k)) [
              | inl it ↦ gone ∙ rw (e, behind, it) refl
              | inr apart ↦ gone ∙ rw (e, behind, apart) (sym same_chain)
            ]
          ]
      | no there ↦ let e = ne→== (pos k) p there in there_or ∙ rw e refl
    ]

loses_self : (t : Table) (key : List ℕ) → loses t key key ≡ true
unfolding loses
loses_self t key = rw (eq→== (pos key) (pos key) refl, same_refl key) (ground arith)

-- Behind `hash_table_remove` a table stays one, `hash_table_size` is as before, and the key is not
-- found. The other keys are, unless the key was in the first node of its chain: then no key of its
-- position is found.
pub remove_chain_lem :
    (t : Table) (key : List ℕ)
    → IsTable t
    → let t' = remove t key in
      IsTable t'
      × (t'.size ≡ t.size)
      × (lookup t' key ≡ none)
      × ((k : List ℕ) → lookup t' k ≡ (if loses t key k then none else lookup t k))
unfolding remove
remove_chain_lem t key valid =
    let p = pos key in
    let c = remove_node (t.chains p) key in
    (
      record {
        chained = λ q. elim (ℕ_discrete q p) [
          | yes here ↦
              rw (here, put_self t.chains p c)
                (remove_node-IsChain p (t.chains p) key (valid.chained p))
          | no there ↦ rw (put_ne t.chains p q c there) (valid.chained q)
        ];
        few = omega (
          arith,
          release-put hash_table_max_size 0 p t.chains c (omega arith) (omega (arith, pos-lt key)),
          length-remove_node (t.chains p) key,
          valid.few,
        );
        bounded = valid.bounded;
      },
      refl,
      lookup-remove t key key valid ∙ rw (loses_self t key) refl,
      (λ k. lookup-remove t key k valid),
    )
