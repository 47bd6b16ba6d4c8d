-- ===== src/ChainTable/Tests.antt =====
-- example_hashtable2.cpp: the table on concrete texts.
use uc.Prelude.{ℕ, ◌+◌, ◌≡◌, refl, List, [], ◌∷◌, none, some, ◌&&◌, if◌then◌else◌}
use uc.Prelude.Texts.{same}
use uc.ChainTable.{
  Table, hash_table_init, insert, remove, lookup, find, put, pos, hash_str, hash_chars, signed,
  remove_node,
}
use uc.ChainTable.Tables.{IsTable, adds, insert_chain_lem, loses, remove_chain_lem}
use uc.ChainTable.Run.{inserting, removing, run, run-IsTable}

-- Two texts with the same hash.
abbrev ab : List ℕ
ab = 97 ∷ 98 ∷ []

abbrev ba : List ℕ
ba = 98 ∷ 67 ∷ []

hash_ab : hash_str ab ≡ hash_str ba
unfolding hash_str hash_chars signed
hash_ab = refl

abbrev two : Table
two = run hash_table_init (inserting ab 110 ∷ inserting ba 220 ∷ [])

insert_chain_lem_example :
    let t' = insert two ab 330 in
    let added = adds two ab in
    IsTable t'
    × (t'.size ≡ (if added then two.size + 1 else two.size))
    × ((k : List ℕ)
        → lookup t' k
          ≡ (if added && same ab k then some (record { key = ab; value = 330 }) else lookup two k))
insert_chain_lem_example =
    insert_chain_lem two ab 330 (run-IsTable (inserting ab 110 ∷ inserting ba 220 ∷ []))

remove_chain_lem_example :
    let t' = remove two ba in
    IsTable t'
    × (t'.size ≡ two.size)
    × (lookup t' ba ≡ none)
    × ((k : List ℕ) → lookup t' k ≡ (if loses two ba k then none else lookup two k))
remove_chain_lem_example =
    remove_chain_lem two ba (run-IsTable (inserting ab 110 ∷ inserting ba 220 ∷ []))

run-IsTable_example : IsTable (run hash_table_init (inserting ab 110 ∷ removing ab ∷ []))
run-IsTable_example = run-IsTable (inserting ab 110 ∷ removing ab ∷ [])

-- `ba` leads its chain: with it, `ab` goes.
lost_ab : lookup (remove two ba) ab ≡ none
unfolding lookup find remove put pos hash_str signed hash_chars remove_node run insert same
lost_ab = refl

kept_ba : lookup (remove two ab) ba ≡ some (record { key = ba; value = 220 })
unfolding lookup find remove put pos hash_str signed hash_chars remove_node run insert same
kept_ba = refl
