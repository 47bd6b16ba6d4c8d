-- ===== src/PrimeTable/Tests.antt =====
-- example_shm_hashtable1.cpp: the table on concrete inputs.
use uc.Prelude.{
  ℕ, zero, suc, ◌+◌, ◌≡◌, ◌≢◌, ◌⊎◌, List, [], ◌∷◌, none, some, true, false, refl, sym, arith,
  length,
}
use uc.Probe.{key_at, find_row}
use uc.Probe.Live.{live-replicate, key_at-replicate}
use uc.PrimeTable.{
  get_mode, mode_loop, candidates, flags, test_divisors, survives, tries_above, tries_below,
  below_of, row_start, get_pos, candidate, Memory, exists, construct, get_shm, first_row, find,
  insert, remove, clear,
}
use uc.PrimeTable.Rows.{Falling, get_mode-Falling}
use uc.PrimeTable.Calls.{IsValid, HasRows, look, free, filled, filled-IsValid}
use uc.PrimeTable.Safety.{construct-find}
use uc.PrimeTable.Contract.{Inserted, insert_rows_lem}
use uc.PrimeTable.Removal.{remove_rows_lem}

abbrev three : List ℕ
three = 31 ∷ 29 ∷ 23 ∷ []

mode_30 : get_mode 30 3 ≡ some three
unfolding get_mode mode_loop candidates flags test_divisors survives tries_above tries_below
    below_of
mode_30 = refl

-- The first length may be above `maxLine`.
mode_6 : get_mode 6 1 ≡ some (7 ∷ [])
unfolding get_mode mode_loop candidates flags test_divisors survives tries_above tries_below
    below_of
mode_6 = refl

get_mode-Falling_example : (length three ≡ 3) × Falling (30 + 1) three
get_mode-Falling_example = get_mode-Falling 30 3 three (omega arith) mode_30

abbrev cleared : Memory ℕ
cleared = clear 30 three 3 7

three-HasRows : HasRows three 3
unfolding HasRows
three-HasRows zero lt = omega arith
three-HasRows (suc zero) lt = omega arith
three-HasRows (suc (suc zero)) lt = omega arith
three-HasRows (suc (suc (suc i))) lt = absurd (omega arith)

cleared-IsValid : IsValid 30 three 3 cleared
unfolding clear row_start
cleared-IsValid = record {
  rows = three-HasRows;
  room = omega arith;
  width = refl;
  counted = sym (live-replicate 83 (record { key = 0; value = 7 }) refl);
  placed = λ p used. absurd (used (key_at-replicate 83 p (record { key = 0; value = 7 }) refl));
}

insert_rows_lem_example : Inserted 30 three 3 cleared 5 50
insert_rows_lem_example = insert_rows_lem 30 three 3 cleared 5 50 cleared-IsValid (λ e. omega arith)

-- The segment with one entry.
abbrev held : Memory ℕ
held = filled 30 three 3 cleared 4 5 50

held-IsValid : IsValid 30 three 3 held
unfolding look free find_row candidate get_pos row_start key_at clear
held-IsValid = filled-IsValid 30 three 3 cleared 5 4 50 cleared-IsValid (λ e. omega arith) refl refl

remove_rows_lem_example :
    ((find 30 three 3 held 5 ≡ some none) × (remove 30 three 3 held 5 ≡ some (false, held)))
    ⊎ ((m' : Memory ℕ) × (remove 30 three 3 held 5 ≡ some (true, m'))
        × IsValid 30 three 3 m'
        × (find 30 three 3 m' 5 ≡ some none)
        × ((q : ℕ) → q ≢ 0 → q ≢ 5 → find 30 three 3 m' q ≡ find 30 three 3 held q))
remove_rows_lem_example = remove_rows_lem 30 three 3 held 5 held-IsValid (λ e. omega arith)

constructed : construct 30 3 true false (some cleared) ≡ some (three, cleared)
unfolding construct get_shm
constructed = rw (construct, mode_30) refl

construct-find_example : find 30 three 3 cleared 5 ≢ none
construct-find_example =
    construct-find 30 3 true false (some cleared) three cleared 5 (omega arith) constructed

-- The key 0 is always found while a node is empty.
insert_zero : insert 30 three 3 cleared 0 9 ≡ some (exists, cleared)
unfolding insert find first_row candidate get_pos row_start key_at clear
insert_zero = refl
