-- ===== src/HashShm/Segment.antt =====
-- example_shm_hashtable2.cpp: the whole segment. `Init` on a new one and on one that
-- exists, and `Clear`.
use uc.Prelude.{
  ℕ, ◌-◌, ◌==◌, if◌then◌else◌, ◌≤◌, ◌≡◌, ◌≢◌, refl, sym, ap, ◌∙◌, some, none, inl, inr, true, false,
  Option-cases, arith, ltb, length-replicate,
}
use uc.Probe.{key_at}
use uc.Probe.Live.{live-replicate, key_at-replicate}
use uc.HashShm.{
  Memory, Head, Table, Shm, word, ok, not_found, max_size, primer_table_len, find, get, remove,
  zeroed, get_shm, init, clear,
}
use uc.HashShm.Invariant.{IsValid, key_at-find}
use uc.HashShm.Contract.{missing, gone, remove_lem}

module _ {ℓ} {V : Type ℓ} (lines : ℕ) where
  zeroed-IsValid :
      (x : V) (m : Memory V)
      → lines ≤ primer_table_len
      → m.nodes ≡ (zeroed lines x).nodes
      → m.head.current_size ≡ 0
      → IsValid lines m
  unfolding zeroed
  zeroed-IsValid x m few nodes size = record {
    few = few;
    width = rw nodes (length-replicate (max_size lines) (record { key = 0; value = x }));
    counted =
        size
        ∙ sym (rw nodes (live-replicate (max_size lines) (record { key = 0; value = x }) refl));
    placed = λ p used. absurd (
        used (rw nodes (key_at-replicate (max_size lines) p (record { key = 0; value = x }) refl)));
  }

  get-empty :
      (m : Memory V) (q : ℕ)
      → ((p : ℕ) → key_at m.nodes p ≡ 0)
      → q ≢ 0
      → get lines m q ≡ (not_found, none)
  unfolding get
  get-empty m q empty nq = elim (Option-cases (find lines m q)) [
    | inl absent ↦ rw (absent, get)
    | inr (p, here) ↦ absurd (omega (arith, key_at-find lines m q p here, empty p))
  ]

  -- For at most 64 rows, `Clear` leaves a valid segment that counts no entry and in which `Get`
  -- finds nothing under a key other than 0.
  pub clear_lem :
      (x : V) (q : ℕ)
      → lines ≤ primer_table_len
      → q ≢ 0
      → let m = clear lines x in
        IsValid lines m × (m.head.current_size ≡ 0) × (get lines m q ≡ (not_found, none))
  unfolding clear zeroed
  clear_lem x q few nq = (
    zeroed-IsValid x (clear lines x) few refl refl,
    refl,
    get-empty (clear lines x) q
        (λ p. key_at-replicate (max_size lines) p (record { key = 0; value = x }) refl) nq,
  )

  get_shm-fresh :
      (x : V) (shm : Shm V)
      → shm.existing ≡ none
      → shm.can_create ≡ true
      → shm.can_attach ≡ true
      → get_shm lines x shm ≡ some (zeroed lines x)
  unfolding get_shm
  get_shm-fresh x shm new create attach = rw (new, get_shm, create, attach)

  init-attached :
      (x : V) (shm : Shm V) (t : Table V) (m : Memory V)
      → lines ≤ primer_table_len
      → get_shm lines x shm ≡ some m
      → init lines x shm t ≡ (
        true,
        record {
          mem = record m { head = record { current_size = 0; status = 1 } };
          init_ok = true;
          flag = 0;
        },
      )
  unfolding init
  init-attached x shm t m few e = rw (ltb-false, init, e)
    where
      ltb-false : ltb primer_table_len lines ≡ false
      ltb-false = ground arith

  -- `Init` on a segment that does not exist yet, where the system makes and attaches one, answers
  -- true and leaves a valid table, for at most 64 rows; `Get` finds nothing under a key other
  -- than 0.
  pub init-IsValid :
      (x : V) (shm : Shm V) (t : Table V) (q : ℕ)
      → lines ≤ primer_table_len
      → shm.existing ≡ none
      → shm.can_create ≡ true
      → shm.can_attach ≡ true
      → q ≢ 0
      → let (done, t') = init lines x shm t in
        (done ≡ true)
        × (t'.init_ok ≡ true)
        × IsValid lines t'.mem
        × (get lines t'.mem q ≡ (not_found, none))
  unfolding zeroed
  init-IsValid x shm t q few new create attach nq =
      rw (init-attached x shm t _ few (get_shm-fresh x shm new create attach)) (
        refl,
        refl,
        zeroed-IsValid x _ few refl refl,
        get-empty _ q
            (λ p. key_at-replicate (max_size lines) p (record { key = 0; value = x }) refl) nq,
      )

  -- `Get` and `Remove` look for a key without the head of the segment.
  find-head :
      (m : Memory V) (h : Head) (q : ℕ) → find lines (record m { head = h }) q ≡ find lines m q
  unfolding find
  find-head m h q = refl

  get-head : (m m' : Memory V) (q : ℕ) → m.nodes ≡ m'.nodes → get lines m q ≡ get lines m' q
  unfolding get find
  get-head m m' q e =
      ap (λ ns. get lines (let n : Memory V = record { head = m.head; nodes = ns } in n) q) e

  nodes-remove_head :
      (m : Memory V) (h : Head) (key : ℕ)
      → (remove lines (record m { head = h }) key).1.nodes ≡ (remove lines m key).1.nodes
  unfolding remove
  nodes-remove_head m h key = elim (Option-cases (find lines m key)) [
    | inl e ↦ let e' = find-head m h key ∙ e in rw (remove, e, e') refl
    | inr (p, e) ↦ let e' = find-head m h key ∙ e in rw (remove, e, e') refl
  ]

  -- The counter is 0 although the key is in the table.
  remove-wraps :
      (m : Memory V) (status key : ℕ)
      → (get lines m key).0 ≡ ok
      → let h : Head = record { current_size = 0; status = status } in
        let m' = (remove lines (record m { head = h }) key).1 in m'.head.current_size ≡ word - 1
  unfolding get remove
  remove-wraps m status key here =
      let h : Head = record { current_size = 0; status = status } in
      elim (Option-cases (find lines m key)) [
        | inl e ↦ absurd (let z : not_found ≡ ok = rw (get, e) at here in ground arith)
        | inr (p, e) ↦ let e' = find-head m h key ∙ e in rw (remove, e') refl
      ]

  get-removed :
      (m : Memory V) (key q : ℕ)
      → IsValid lines m
      → key ≢ 0
      → q ≢ 0
      → (get lines m key).0 ≡ ok
      → get lines (remove lines m key).1 q ≡ (if q == key then (not_found, none) else get lines m q)
  get-removed m key q v nz nq here = elim (remove_lem lines m key q v nz nq) [
    | missing absent same ↦ absurd (let z : not_found ≡ ok = rw absent at here in ground arith)
    | gone _ _ after ↦ after
  ]

  -- An `Init` on a valid segment that exists and can be attached keeps what every `Get` answers but
  -- starts the counter at 0 again. So the first `Remove` of a key that is in the table behind it
  -- takes this key out and no other, and leaves the counter at 2^64 - 1.
  pub init-existing :
      (x : V) (shm : Shm V) (t : Table V) (m : Memory V) (key q : ℕ)
      → shm.existing ≡ some m
      → shm.can_attach ≡ true
      → IsValid lines m
      → key ≢ 0
      → q ≢ 0
      → (get lines m key).0 ≡ ok
      → let (done, t') = init lines x shm t in
        let m' = (remove lines t'.mem key).1 in
        (done ≡ true)
        × (get lines t'.mem q ≡ get lines m q)
        × (get lines m' q ≡ (if q == key then (not_found, none) else get lines m q))
        × (m'.head.current_size ≡ word - 1)
  unfolding get_shm
  init-existing x shm t m key q old attach v nz nq here =
      let h : Head = record { current_size = 0; status = 1 } in
      rw (init-attached x shm t m v.few (rw (old, get_shm, attach))) (
        refl,
        get-head _ m q refl,
        get-head _ _ q (nodes-remove_head m h key) ∙ get-removed m key q v nz nq here,
        remove-wraps m 1 key here,
      )
