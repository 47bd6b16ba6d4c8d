-- ===== src/ChainTable/Texts.antt =====
-- example_hashtable2.cpp: the range of the hashes of texts.
use uc.Prelude.{ℕ, ◌<◌, List, arith}
use uc.ChainTable.{pos, hash_table_max_size}

pub pos-lt : (key : List ℕ) → pos key < hash_table_max_size
unfolding pos
pos-lt key = grind arith
