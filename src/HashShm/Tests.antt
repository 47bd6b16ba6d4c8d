-- ===== src/HashShm/Tests.antt =====
-- example_shm_hashtable2.cpp: tests, and the theorems at concrete tables.
use uc.Prelude.{
  ℕ, ◌+◌, ◌-◌, ◌*◌, ◌==◌, if◌then◌else◌, ap, ◌≡◌, refl, some, none, [], ◌∷◌, true, false, arith,
  get_elem?,
}
use uc.Probe.{Node, key_at}
use uc.HashShm.{
  Memory, Table, word, Shm, ok, error, key_exist, not_found, clear, insert, replace, remove, get,
  find, init, foreach, bucket_use_size, candidate, primer, primer_total, max_size, hash, get_pos,
  zeroed,
}
use uc.HashShm.Time33.{hash_time33}
use uc.HashShm.TimeLaws.{hash_time33_lem, hash_all}
use uc.HashShm.Invariant.{IsValid}
use uc.HashShm.Preserve.{insert-IsValid}
use uc.HashShm.Contract.{Inserted, Removed, insert_lem, remove_lem}
use uc.HashShm.Segment.{clear_lem, init-existing}

abbrev cleared : Memory ℕ
cleared = clear 1 0

cleared-IsValid : IsValid 1 cleared
cleared-IsValid = (clear_lem 1 0 5 (omega arith) (omega arith)).0

-- One entry, 50 under the key 5.
abbrev sample : Memory ℕ
sample = (insert 1 cleared 5 50).1

sample-IsValid : IsValid 1 sample
sample-IsValid = insert-IsValid 1 cleared 5 50 cleared-IsValid (omega arith)

program : Unit {0}
unfolding insert replace remove get find candidate hash get_pos primer primer_total max_size clear
    zeroed key_at
program = tt

sample_runs : (get 1 sample 5 ≡ (ok, some 50)) × (get 1 sample 6 ≡ (not_found, none))
unfolding program uc.Probe.find_row uc.Probe.free_row uc.HashShm.place
sample_runs = (refl, refl)

-- 5 and 5 + 1511 share their only candidate.
crowded_runs : ((insert 1 sample 1516 7).0 ≡ error) × ((insert 1 sample 5 7).0 ≡ key_exist)
unfolding program uc.Probe.find_row uc.Probe.free_row uc.HashShm.place
crowded_runs = (refl, refl)

insert_lem_example : Inserted 1 sample 6 5 60 (insert 1 sample 6 60)
insert_lem_example = insert_lem 1 sample 6 5 60 sample-IsValid (omega arith) (omega arith)

remove_lem_example : Removed 1 sample 5 5 (remove 1 sample 5)
remove_lem_example = remove_lem 1 sample 5 5 sample-IsValid (omega arith) (omega arith)

abbrev unset_table : Table ℕ
unset_table = record { mem = cleared; init_ok = false; flag = 3 }

abbrev old_shm : Shm ℕ
old_shm = record { existing = some sample; can_create = false; can_attach = true }

init-existing_example :
    let (done, t) = init 1 0 old_shm unset_table in
    let m = (remove 1 t.mem 5).1 in
    (done ≡ true)
    × (get 1 t.mem 6 ≡ get 1 sample 6)
    × (get 1 m 6 ≡ (if 6 == 5 then (not_found, none) else get 1 sample 6))
    × (m.head.current_size ≡ word - 1)
init-existing_example =
    init-existing 1 0 old_shm unset_table sample 5 6 refl refl sample-IsValid (omega arith)
      (omega arith) (ap (λ r. r.0) sample_runs.0)

zero_found : find 1 cleared 0 ≡ some 848
unfolding program uc.Probe.find_row
zero_found = refl

zero_node : get_elem? cleared.nodes 848 ≡ some (record { key = 0; value = 0 })
unfolding clear zeroed max_size primer
zero_node = refl

hash_runs : hash_time33 (97 ∷ 98 ∷ 0 ∷ []) none ≡ (5381 * 33 + 97) * 33 + 98
unfolding hash_time33
hash_runs = refl

hash_time33_lem_example :
    hash_time33 (1 ∷ 2 ∷ 3 ∷ 4 ∷ 5 ∷ 6 ∷ 7 ∷ 8 ∷ 9 ∷ 10 ∷ []) (some 9)
    ≡ hash_all 5381 (1 ∷ 2 ∷ 3 ∷ 4 ∷ 5 ∷ 6 ∷ 7 ∷ 8 ∷ 9 ∷ [])
hash_time33_lem_example =
    hash_time33_lem (1 ∷ 2 ∷ 3 ∷ 4 ∷ 5 ∷ 6 ∷ 7 ∷ 8 ∷ 9 ∷ 10 ∷ []) 9 (omega arith)
