-- ===== src/LeftHeap/Merge.antt =====
-- example_left_heap.cpp: `merge` of two leftist heaps.
use uc.Prelude.{ℕ, zero, suc, ◌+◌, ◌≤◌, ◌<◌, ◌≡◌, arith, ltb, Bool-cases, inl, inr}
use uc.LeftHeap.{Heap, nil, node, npl, merge_into, merge, size}
use uc.LeftHeap.Order.{count, path, Least, IsLeftist}

-- The heap has the elements of the two, and what is not above both of them is not above it.
pub record Joins (a b m : Heap) : Type 0 where
  pub valid : IsLeftist m
  pub counted : (q : ℕ) → count q m ≡ count q a + count q b
  pub least : (x : ℕ) → Least x a → Least x b → Least x m
  pub joined : size m ≡ size a + size b

merge_into-Joins :
    (x : ℕ) (l r : Heap) (n : ℕ) (q m : Heap)
    → IsLeftist (node x l r n)
    → IsLeftist q
    → Least x q
    → 0 < size q
    → Joins r q m
    → Joins (node x l r n) q (merge_into (node x l r n) q m)
unfolding merge_into IsLeftist count path Least npl size
merge_into-Joins x nil nil n q m (short, len, ll, lr, vl, vr) vq le full j = record {
  valid = (omega arith, len, le, lr, vq, vr);
  counted = λ v. omega arith;
  least = λ v a b. a;
  joined = omega arith;
}
merge_into-Joins x nil (node z c d p) n q m (short, len, ll, lr, vl, vr) vq le full j =
    absurd (omega arith)
merge_into-Joins x (node y a b k) r n q nil v vq le full j = absurd (omega (arith, j.joined))
merge_into-Joins x (node y a b k) r n q (node z c d p) (short, len, ll, lr, vl, vr) vq le full j =
    elim (Bool-cases (ltb k p)) [
      | inl swaps ↦
          rw (swaps, merge_into)
            (record {
              valid = (ground arith, omega arith, j.least x lr le, ll, j.valid, vl);
              counted = λ v. omega (arith, j.counted v);
              least = λ v a b. a;
              joined = omega (arith, j.joined);
            })
      | inr stays ↦
          rw (stays, merge_into)
            (record {
              valid = (ground arith, omega arith, ll, j.least x lr le, vl, j.valid);
              counted = λ v. omega (arith, j.counted v);
              least = λ v a b. a;
              joined = omega (arith, j.joined);
            })
    ]

Joins-swap : (a b m : Heap) → Joins b a m → Joins a b m
Joins-swap a b m j = record {
  valid = j.valid;
  counted = λ q. omega (arith, j.counted q);
  least = λ x p q. j.least x q p;
  joined = omega (arith, j.joined);
}

-- With fuel for every node of the two, `merge` of leftist heaps is a leftist heap that has the
-- elements of both, each as often as the two together, in as many nodes; and what is above neither
-- root is not above its root.
pub merge_lem :
    (fuel : ℕ) (a b : Heap)
    → size a + size b ≤ fuel
    → IsLeftist a
    → IsLeftist b
    → Joins a b (merge fuel a b)
unfolding merge size IsLeftist Least count
merge_lem fuel nil b enough va vb = record {
  valid = vb;
  counted = λ q. omega arith;
  least = λ x p q. q;
  joined = omega arith;
}
merge_lem fuel (node x l r n) nil enough va vb = record {
  valid = va;
  counted = λ q. omega arith;
  least = λ x p q. p;
  joined = omega arith;
}
merge_lem zero (node x l r n) (node y a b k) enough va vb = absurd (omega arith)
merge_lem (suc fuel) (node x l r n) (node y a b k) enough va vb = elim (Bool-cases (ltb x y)) [
  | inl first ↦
      rw (first, merge)
        (merge_into-Joins x l r n (node y a b k) (merge fuel r (node y a b k)) va vb (ground arith)
          (omega arith) (merge_lem fuel r (node y a b k) (omega arith) va.5 vb))
  | inr second ↦
      rw (second, merge)
        (Joins-swap (node x l r n) (node y a b k) _ (
          merge_into-Joins y a b k (node x l r n) (merge fuel b (node x l r n)) vb va (ground arith)
            (omega arith) (merge_lem fuel b (node x l r n) (omega arith) vb.5 va)))
]
