-- ===== src/BPlus/Merge.antt =====
-- example_bplus_tree.cpp: entries that move between two leaves.
use uc.Prelude.{ℕ, zero, suc, ◌+◌, ◌≤◌, ◌<◌, ◌≡◌, refl, sym, ap, ◌∙◌, arith}
use native.Mathlib.Decide.{dec_lt}
use uc.BPlus.{leaf, insert_entry, merge_entries, split, copied, min_key, max_key_num}
use uc.BPlus.Leaf.{insert_entry-Placed}
use uc.BPlus.Index.{Rises}
use uc.BPlus.Shape.{copied-lt}

-- An entry whose key is not below any goes behind the others.
insert_entry-last :
    (n : ℕ) (keys datas : ℕ → ℕ) (key d : ℕ)
    → ((j : ℕ) → j < n → keys j ≤ key)
    → let (keys', datas') = insert_entry n keys datas key d in
      ((j : ℕ) → j < n → (keys' j ≡ keys j) × (datas' j ≡ datas j))
      × (keys' n ≡ key)
      × (datas' n ≡ d)
insert_entry-last n keys datas key d top =
    let (p, s) = insert_entry-Placed n keys datas key d in
    let (keys', datas') = insert_entry n keys datas key d in
    let e : p ≡ n = elim (dec_lt p n) [
      | yes low ↦ absurd (omega (arith, top p low, s.first p (omega arith) low))
      | no high ↦ omega (arith, s.place)
    ] in
    let at_n : n ≡ p = sym e in
    ((λ j lt. s.low j (omega arith)), ap keys' at_n ∙ s.new.0, ap datas' at_n ∙ s.new.1)

-- The two pairs of arrays agree on the first `n` places.
unfoldable pub Same : ℕ → (ℕ → ℕ) → (ℕ → ℕ) → (ℕ → ℕ) → (ℕ → ℕ) → Type 0
Same n keys datas keys' datas' = (j : ℕ) → j < n → (keys' j ≡ keys j) × (datas' j ≡ datas j)

merge_entries-Same :
    (n i m k : ℕ) (keys datas from_keys from_datas keys0 datas0 : ℕ → ℕ)
    → Rises k keys0
    → m + n ≡ k
    → ((j : ℕ)
        → j < n
        → (from_keys (i + j) ≡ keys0 (m + j)) × (from_datas (i + j) ≡ datas0 (m + j)))
    → Same m keys0 datas0 keys datas
    → let (keys', datas') = merge_entries n i from_keys from_datas m keys datas in
      Same k keys0 datas0 keys' datas'
unfolding merge_entries Same Rises
merge_entries-Same zero i m k keys datas from_keys from_datas keys0 datas0 rises all next same =
    λ j lt. same j (omega arith)
merge_entries-Same (suc n) i m k keys datas from_keys from_datas keys0 datas0 rises all next same =
    let e_i : i + 0 ≡ i = omega arith in
    let e_m : m + 0 ≡ m = omega arith in
    let here = next 0 (omega arith) in
    let key_here : from_keys i ≡ keys0 m = ap from_keys (sym e_i) ∙ here.0 ∙ ap keys0 e_m in
    let data_here : from_datas i ≡ datas0 m = ap from_datas (sym e_i) ∙ here.1 ∙ ap datas0 e_m in
    let (low, new_key, new_data) =
      insert_entry-last m keys datas (from_keys i) (from_datas i)
        (λ j lt. omega (arith, (same j lt).0, rises j m lt (omega arith), key_here)) in
    merge_entries-Same n (i + 1) (m + 1) k _ _ from_keys from_datas keys0 datas0 rises (omega arith)
      (λ j lt.
        let s = next (suc j) (omega arith) in
        let a : i + 1 + j ≡ i + suc j = omega arith in
        let b : m + 1 + j ≡ m + suc j = omega arith in rw (a, b) s)
      (λ j lt. elim (dec_lt j m) [
        | yes before ↦ ((low j before).0 ∙ (same j before).0, (low j before).1 ∙ (same j before).1)
        | no top ↦ let e : j ≡ m = omega arith in rw e (new_key ∙ key_here, new_data ∙ data_here)
      ])

-- A full leaf whose keys rise is split, and the entries of the right half are merged into the left one:
-- its arrays are then those of the leaf.
pub merge_entries-split :
    (keys datas : ℕ → ℕ)
    → Rises max_key_num keys
    → let right_keys = copied (min_key + 1) keys min_key (λ i. 0) in
      let right_datas = copied (min_key + 1) datas min_key (λ i. 0) in
      (split (leaf max_key_num keys datas)
        ≡ (leaf min_key keys datas, keys min_key, leaf (min_key + 1) right_keys right_datas))
      × (let (keys', datas') =
            merge_entries (min_key + 1) 0 right_keys right_datas min_key keys datas in
          Same max_key_num keys datas keys' datas')
unfolding split Same
merge_entries-split keys datas rises =
    let zero_add : (j : ℕ) → 0 + j ≡ j = λ j. omega arith in
    (
      refl,
      merge_entries-Same (min_key + 1) 0 min_key max_key_num keys datas
          (copied (min_key + 1) keys min_key (λ i. 0)) (copied (min_key + 1) datas min_key (λ i. 0))
          keys datas rises refl
          (λ j lt. rw (zero_add j) (
            copied-lt (min_key + 1) keys min_key (λ i. 0) j lt
                ∙ ap keys (let e : j + min_key ≡ min_key + j = omega arith in e),
            copied-lt (min_key + 1) datas min_key (λ i. 0) j lt
                ∙ ap datas (let e : j + min_key ≡ min_key + j = omega arith in e),
          ))
          (λ j lt. (refl, refl)),
    )
