-- ===== src/ChainTable/Run.antt =====
-- example_hashtable2.cpp: a table after any calls.
use uc.Prelude.{ℕ, zero, suc, ◌+◌, List, [], ◌∷◌, ◌≡◌, refl, ap, arith, length}
use uc.ChainTable.{Table, insert, remove, release, hash_table_max_size, hash_table_init}
use uc.ChainTable.Chains.{IsChain}
use uc.ChainTable.Tables.{IsTable, insert_chain_lem, remove_chain_lem}

-- What a program does with the table.
pub data Call : Type 0 where
  inserting : List ℕ → ℕ → Call
  removing : List ℕ → Call

unfoldable pub run : Table → List Call → Table
run t [] = t
run t (inserting key v ∷ calls) = run (insert t key v) calls
run t (removing key ∷ calls) = run (remove t key) calls

run-from : (t : Table) (calls : List Call) → IsTable t → IsTable (run t calls)
unfolding run
run-from t [] valid = valid
run-from t (inserting key v ∷ calls) valid =
    run-from (insert t key v) calls (insert_chain_lem t key v valid).0
run-from t (removing key ∷ calls) valid =
    run-from (remove t key) calls (remove_chain_lem t key valid).0

release-empty : (n i : ℕ) → release n i (λ j. []) ≡ []
unfolding release
release-empty zero i = refl
release-empty (suc n) i = release-empty n (i + 1)

init-IsTable : IsTable hash_table_init
unfolding IsChain
init-IsTable = record {
  chained = λ p. tt;
  few = omega (arith, ap length (release-empty hash_table_max_size 0));
  bounded = omega arith;
}

-- After `hash_table_init` and any calls, a chain holds only keys of its position, each once, and
-- `hash_table_release` then frees no more nodes than `hash_table_size` says, which is not above the
-- limit.
pub run-IsTable : (calls : List Call) → IsTable (run hash_table_init calls)
run-IsTable calls = run-from hash_table_init calls init-IsTable
