-- ===== src/LeftHeap/Order.antt =====
-- example_left_heap.cpp: what a leftist heap is.
use uc.Prelude.{one, ℕ, suc, ◌+◌, ◌^◌, ◌≤◌, ◌<◌, ◌≡◌, ap, arith}
use native.Mathlib.Nat.{pow-suc, pow-le-pow_right}
use native.Mathlib.Decide.{dec_lt}
use uc.LeftHeap.{Heap, nil, node, size}

-- How often an element is in the heap.
unfoldable pub count : ℕ → Heap → ℕ
count q nil = 0
count q (node x l r n) = one q x + (count q l + count q r)

-- The length of the path to the right: one more than `npl`, and 0 for NULL.
unfoldable pub path : Heap → ℕ
path nil = 0
path (node x l r n) = suc n

-- `x` is not above any element.
unfoldable pub Least : ℕ → Heap → Type 0
Least x nil = Unit
Least x (node y l r n) = x ≤ y

-- Every element is at most those below it, the path to the right is the shorter one, and `npl`
-- tells its length.
unfoldable pub IsLeftist : Heap → Type 0
IsLeftist nil = Unit
IsLeftist (node x l r n) =
    (path r ≤ path l) × (n ≡ path r) × Least x l × Least x r × IsLeftist l × IsLeftist r

-- A heap whose path to the right has `k` nodes has at least 2^k - 1 nodes.
pub path-size : (h : Heap) → IsLeftist h → 2 ^ path h ≤ size h + 1
unfolding IsLeftist path size
path-size nil v = omega arith
path-size (node x l r n) (short, len, least_l, least_r, vl, vr) = omega (
  arith,
  path-size l vl,
  path-size r vr,
  pow-suc 2 n,
  ap (λ k. 2 ^ k) len,
  pow-le-pow_right {n = 2} (omega arith) {i = path r} {j = path l} short,
)

-- The root of a leftist heap is not above any element.
pub Least-count : (x q : ℕ) (h : Heap) → IsLeftist h → Least x h → 0 < count q h → x ≤ q
unfolding IsLeftist Least count
Least-count x q nil v le some_q = absurd (omega arith)
Least-count x q (node y l r n) (short, len, least_l, least_r, vl, vr) le some_q =
    let below : y ≤ q = elim (dec_lt 0 (count q l)) [
      | yes in_l ↦ Least-count y q l vl least_l in_l
      | no not_l ↦ elim (dec_lt 0 (count q r)) [
        | yes in_r ↦ Least-count y q r vr least_r in_r
        | no not_r ↦ ground arith
      ]
    ] in
    omega (arith, below, le)
