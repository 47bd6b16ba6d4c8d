-- ===== src/PrimeTable/Calls.antt =====
-- example_shm_hashtable1.cpp: what `find`, `insert` and `remove` do to a valid segment. The key 0 is the
-- mark of an empty node.
use uc.Prelude.{
  ℕ, zero, suc, ◌+◌, ◌%◌, ◌≤◌, ◌<◌, ◌≡◌, ◌≢◌, inl, inr, List, Option, none, some, false, Bool-cases,
  some_inj, refl, sym, ap, ◌∙◌, arith, ◌==◌, leb, length, set, get_or, length-set, ==→ne,
}
use native.Mathlib.Nat.{mod-lt}
use uc.Probe.{Node, key_at, find_row, free_row, at, live}
use uc.Probe.Laws.{
  key_at-set_self, key_at-set_ne, find_row_congr, key_at-find_row, find_row-set_free,
  find_row_bound,
}
use uc.Probe.Live.{live-set_fill, live-le-length}
use uc.PrimeTable.{word, row_start, get_pos, candidate, Memory, first_row, find}

row_start_mono :
    (mods : List ℕ) (i n : ℕ) → i < n → row_start mods i + get_or mods i 0 ≤ row_start mods n
unfolding row_start
row_start_mono mods i zero lt = absurd (omega arith)
row_start_mono mods i (suc n) lt = elim (Bool-cases (i == n)) [
  | inl same ↦ let e : i ≡ n = ground arith in rw e (omega arith)
  | inr apart ↦ omega (arith, row_start_mono mods i n (ground arith))
]

-- Where every row has a length above 0, every row has a node for every key, in the segment.
pub candidate-some :
    (max_line : ℕ) (mods : List ℕ) (lines key i : ℕ)
    → i < lines
    → 0 < get_or mods i 0
    → (p : ℕ) × (candidate max_line mods lines key i ≡ some p) × (p < row_start mods lines)
unfolding candidate get_pos
candidate-some max_line mods lines key i lt pos =
    let col = (key + max_line) % word % get_or mods i 0 in
    let inside : col < get_or mods i 0 = mod-lt ((key + max_line) % word) pos in
    let p = row_start mods i + col in
    let below : p < row_start mods lines = omega (arith, row_start_mono mods i lines lt) in
    let ok : leb (row_start mods lines) p ≡ false = ground arith in (p, rw ok refl, below)

-- Every row has a length above 0.
unfoldable pub HasRows : List ℕ → ℕ → Type 0
HasRows mods lines = (i : ℕ) → i < lines → 0 < get_or mods i 0

pub each_row :
    (max_line : ℕ) (mods : List ℕ) (lines : ℕ)
    → HasRows mods lines
    → (key j : ℕ) → j < 0 + lines
    → (p : ℕ) × (candidate max_line mods lines key j ≡ some p)
unfolding HasRows
each_row max_line mods lines rows key j lt =
    let (p, e, below) =
      candidate-some max_line mods lines key j (omega arith) (rows j (omega arith)) in
    (p, e)

module _ {ℓ} {V : Type ℓ} where
  -- No search reads through NULL if each row has a node.
  first_row-find_row :
      (pos : ℕ → Option ℕ) (nodes : List (Node V)) (key n i : ℕ)
      → ((j : ℕ) → j < i + n → (p : ℕ) × (pos j ≡ some p))
      → first_row pos nodes key n i ≡ some (find_row pos nodes key n i)
  unfolding first_row find_row
  first_row-find_row pos nodes key zero i all = refl
  first_row-find_row pos nodes key (suc n) i all =
      let (p, e) = all i (omega arith) in
      let rest = first_row-find_row pos nodes key n (i + 1) (λ j lt. all j (omega arith)) in
      elim (Bool-cases (key_at nodes p == key)) [
        | inl here ↦ rw (first_row, find_row, e, here) refl
        | inr there ↦ rw (first_row, find_row, e, there) rest
      ]

  -- The search for the key 0 is that for an empty node.
  find_row-free :
      (pos : ℕ → Option ℕ) (nodes : List (Node V)) (n i p : ℕ)
      → find_row pos nodes 0 n i ≡ some p
      → free_row pos nodes n i ≡ at p
  unfolding find_row free_row
  find_row-free pos nodes zero i p h = cc
  find_row-free pos nodes (suc n) i p h = ground (arith, find_row-free pos nodes n (i + 1) p)

  module _ (max_line : ℕ) (mods : List ℕ) (lines : ℕ) where
    -- The nodes fill the rows, the counter counts those in use, and each of these is the one that a
    -- search for its key finds.
    pub record IsValid (m : Memory V) : Type ℓ where
      pub rows : HasRows mods lines
      pub room : row_start mods lines < word
      pub width : length m.nodes ≡ row_start mods lines
      pub counted : m.current_size ≡ live m.nodes
      pub placed :
          (p : ℕ)
          → key_at m.nodes p ≢ 0
          → find max_line mods lines m (key_at m.nodes p) ≡ some (some p)

    -- Where `find` ends.
    unfoldable pub look : Memory V → ℕ → Option ℕ
    look m key = find_row (candidate max_line mods lines key) m.nodes key lines 0

    pub find-look :
        HasRows mods lines
        → (m : Memory V) (key : ℕ) → find max_line mods lines m key ≡ some (look m key)
    unfolding find look
    find-look rows m key =
        first_row-find_row (candidate max_line mods lines key) m.nodes key lines 0
          (each_row max_line mods lines rows key)

    pub placed-look :
        (m : Memory V)
        → IsValid m
        → (p : ℕ) → key_at m.nodes p ≢ 0
        → look m (key_at m.nodes p) ≡ some p
    placed-look m valid p used =
        some_inj (look m (key_at m.nodes p)) (some p)
          (sym (find-look valid.rows m (key_at m.nodes p)) ∙ valid.placed p used)

    -- A search for `q` does not notice a write to a node that holds another key before and after.
    pub look-set :
        (m : Memory V) (c p q : ℕ) (e : Node V)
        → p < length m.nodes
        → key_at m.nodes p ≢ q
        → e.key ≢ q
        → look (record { nodes = set m.nodes p e; current_size = c }) q ≡ look m q
    unfolding look
    look-set m c p q e lt before after =
        find_row_congr (candidate max_line mods lines q) (set m.nodes p e) m.nodes q
          (λ r. elim (Bool-cases (p == r)) [
            | inl same ↦ ground (arith, key_at-set_self m.nodes p e)
            | inr apart ↦ ground (arith, key_at-set_ne m.nodes p r e)
          ])
          lines 0

    pub look-lt :
        HasRows mods lines
        → (m : Memory V) (key q p : ℕ)
        → find_row (candidate max_line mods lines key) m.nodes q lines 0 ≡ some p
        → p < row_start mods lines
    unfolding HasRows
    look-lt rows m key q p h =
        find_row_bound (candidate max_line mods lines key) m.nodes (row_start mods lines) q lines 0
          p
          (λ j r lt e.
            let (s, e_s, below) =
              candidate-some max_line mods lines key j (omega arith) (rows j (omega arith)) in
            let same : s ≡ r = some_inj s r (sym e_s ∙ e) in omega arith)
          h

    pub look-key : (m : Memory V) (q p : ℕ) → look m q ≡ some p → key_at m.nodes p ≡ q
    unfolding look
    look-key m q p h = key_at-find_row (candidate max_line mods lines q) m.nodes q lines 0 p h

    -- The segment behind the write of an insertion at `p`.
    abbrev pub filled : Memory V → ℕ → ℕ → V → Memory V
    filled m p key v = record {
      nodes = set m.nodes p (record { key = key; value = v });
      current_size = (m.current_size + 1) % word;
    }

    -- Where the insertion loop ends.
    unfoldable pub free : Memory V → ℕ → Option ℕ
    free m key = find_row (candidate max_line mods lines key) m.nodes 0 lines 0

    pub free-key : (m : Memory V) (key p : ℕ) → free m key ≡ some p → key_at m.nodes p ≡ 0
    unfolding free
    free-key m key p h = key_at-find_row (candidate max_line mods lines key) m.nodes 0 lines 0 p h

    pub free-lt : (m : Memory V) (key p : ℕ) → IsValid m → free m key ≡ some p → p < length m.nodes
    unfolding free
    free-lt m key p valid h = omega (arith, valid.width, look-lt valid.rows m key 0 p h)

    pub look-filled_self :
        (m : Memory V) (key p : ℕ) (v : V)
        → IsValid m
        → key ≢ 0
        → look m key ≡ none
        → free m key ≡ some p
        → look (filled m p key v) key ≡ some p
    unfolding look free
    look-filled_self m key p v valid nz absent h =
        find_row-set_free (candidate max_line mods lines key) m.nodes
          (record { key = key; value = v }) lines 0 p nz (free-lt m key p valid h) absent
          (find_row-free (candidate max_line mods lines key) m.nodes lines 0 p h)

    pub filled-IsValid :
        (m : Memory V) (key p : ℕ) (v : V)
        → IsValid m
        → key ≢ 0
        → look m key ≡ none
        → free m key ≡ some p
        → IsValid (filled m p key v)
    filled-IsValid m key p v valid nz absent h =
        let e : Node V = record { key = key; value = v } in
        let lt = free-lt m key p valid h in
        let empty = free-key m key p h in
        record {
          rows = valid.rows;
          room = valid.room;
          width = length-set m.nodes p e ∙ valid.width;
          counted = omega (
            arith,
            valid.counted,
            valid.room,
            valid.width,
            live-set_fill m.nodes p e lt empty nz,
            live-le-length (set m.nodes p e),
            length-set m.nodes p e,
          );
          placed = λ r used.
              find-look valid.rows (filled m p key v) (key_at (set m.nodes p e) r)
              ∙ ap some (elim (Bool-cases (p == r)) [
                | inl same ↦
                    let e_r : p ≡ r = ground arith in
                    let k : key_at (set m.nodes p e) r ≡ key =
                      ap (key_at (set m.nodes p e)) (sym e_r) ∙ key_at-set_self m.nodes p e lt in
                    rw k (look-filled_self m key p v valid nz absent h ∙ ap some e_r)
                | inr apart ↦
                    let keep = key_at-set_ne m.nodes p r e (==→ne p r apart) in
                    let k = key_at m.nodes r in
                    let used_k : k ≢ 0 = λ z. used (keep ∙ z) in
                    let there : look m k ≡ some r = placed-look m valid r used_k in
                    let other : key ≢ k =
                      λ z. let t : look m key ≡ some r = ap (look m) z ∙ there in cc in
                    rw keep (
                      look-set m ((m.current_size + 1) % word) p k e lt
                        (λ z. used_k (sym z ∙ empty)) other
                      ∙ there)
              ]);
        }

    pub free-first :
        HasRows mods lines
        → (m : Memory V) (key : ℕ)
        → first_row (candidate max_line mods lines key) m.nodes 0 lines 0 ≡ some (free m key)
    unfolding free
    free-first rows m key =
        first_row-find_row (candidate max_line mods lines key) m.nodes 0 lines 0
          (each_row max_line mods lines rows key)

    pub free-none :
        (m : Memory V) (key : ℕ)
        → free m key ≡ none
        → find_row (candidate max_line mods lines key) m.nodes 0 lines 0 ≡ none
    unfolding free
    free-none m key h = h
