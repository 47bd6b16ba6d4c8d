-- ===== src/HashShm/Faults.antt =====
-- example_shm_hashtable2.cpp: `Set` and `Remove` of the key 0, the mark of an empty node.
use uc.Prelude.{ℕ, ◌≡◌, ◌≢◌, some, arith, get_elem?}
use uc.Probe.{Node, key_at, live}
use uc.Probe.Live.{live-set_same, live-le-length}
use uc.HashShm.{Memory, ok, key_exist, find, insert, remove}
use uc.HashShm.Bounds.{max_size-le}
use uc.HashShm.Invariant.{IsValid, key_at-find}

module _ {ℓ} {V : Type ℓ} (lines : ℕ) where
  -- Where a candidate node of key 0 is empty, the key 0 counts as present on a valid segment:
  -- `Set` answers HASHSHM_KEYEXIST and stores nothing, and `Remove` answers HASHSHM_OK, frees no
  -- node, and takes 1 from the counter, which then no longer counts the nodes in use.
  pub remove-zero :
      (m : Memory V) (x : V) (p : ℕ) (e : Node V)
      → IsValid lines m
      → find lines m 0 ≡ some p
      → get_elem? m.nodes p ≡ some e
      → (insert lines m 0 x ≡ (key_exist, m))
        × ((remove lines m 0).0 ≡ ok)
        × (live (remove lines m 0).1.nodes ≡ live m.nodes)
        × ((remove lines m 0).1.head.current_size ≢ live (remove lines m 0).1.nodes)
  unfolding insert remove key_at
  remove-zero m x p e v here node =
      let none_freed =
        live-set_same m.nodes p (record e { key = 0 }) (key_at-find lines m 0 p here) in
      (
        rw (here, insert),
        rw (here, remove),
        rw (here, remove, node) none_freed,
        rw (here, remove, node)
            (omega (
              arith,
              none_freed,
              v.counted,
              v.few,
              v.width,
              max_size-le lines v.few,
              live-le-length m.nodes,
            )),
      )
