-- ===== src/BPlus/Leaf.antt =====
-- example_bplus_tree.cpp: what `CLeafNode::insert` leaves in the arrays of a leaf.
use uc.Prelude.{ℕ, zero, suc, ◌≤◌, ◌<◌, ◌≡◌, ◌∙◌, arith, ltb, Bool-cases, inl, inr}
use native.Mathlib.Decide.{dec_lt}
use uc.BPlus.{put, insert_entry}
use uc.BPlus.Shift.{put_self, put_ne}

-- The arrays of a leaf of `n` entries behind the insertion of one at `p`.
pub record Placed (n p key d : ℕ) (keys keys' datas datas' : ℕ → ℕ) : Type 0 where
  pub place : p ≤ n
  pub low : (j : ℕ) → j < p → (keys' j ≡ keys j) × (datas' j ≡ datas j)
  pub new : (keys' p ≡ key) × (datas' p ≡ d)
  pub high : (j : ℕ) → p ≤ j → j < n → (keys' (suc j) ≡ keys j) × (datas' (suc j) ≡ datas j)
  pub behind : (j : ℕ) → n < j → (keys' j ≡ keys j) × (datas' j ≡ datas j)
  pub first : (j : ℕ) → p ≤ j → j < n → key < keys j
  pub last : (q : ℕ) → suc q ≡ p → keys q ≤ key

-- One round of the loop, which comes first.
Placed-put :
    (n p key d : ℕ) (keys keys' datas datas' : ℕ → ℕ)
    → key < keys n
    → Placed n p key d (put keys (suc n) (keys n)) keys' (put datas (suc n) (datas n)) datas'
    → Placed (suc n) p key d keys keys' datas datas'
Placed-put n p key d keys keys' datas datas' less s =
    let same_k : (j : ℕ) → j < suc n → put keys (suc n) (keys n) j ≡ keys j =
      λ j lt. put_ne keys (suc n) j (keys n) (omega arith) in
    let same_d : (j : ℕ) → j < suc n → put datas (suc n) (datas n) j ≡ datas j =
      λ j lt. put_ne datas (suc n) j (datas n) (omega arith) in
    record {
      place = omega (arith, s.place);
      low = λ j lt. (
        (s.low j lt).0 ∙ same_k j (omega (arith, s.place)),
        (s.low j lt).1 ∙ same_d j (omega (arith, s.place)),
      );
      new = s.new;
      high = λ j ge lt. elim (dec_lt j n) [
        | yes inside ↦ ((s.high j ge inside).0 ∙ same_k j lt, (s.high j ge inside).1 ∙ same_d j lt)
        | no top ↦
            let e : j ≡ n = omega arith in
            rw e (
              (s.behind (suc n) (omega arith)).0 ∙ put_self keys (suc n) (keys n),
              (s.behind (suc n) (omega arith)).1 ∙ put_self datas (suc n) (datas n),
            )
      ];
      behind = λ j lt. (
        (s.behind j (omega arith)).0 ∙ put_ne keys (suc n) j (keys n) (omega arith),
        (s.behind j (omega arith)).1 ∙ put_ne datas (suc n) j (datas n) (omega arith),
      );
      first = λ j ge lt. elim (dec_lt j n) [
        | yes inside ↦ rw (← same_k j lt) (s.first j ge inside)
        | no top ↦ (let e : j ≡ n = omega arith in rw e less)
      ];
      last = λ q e. rw (← same_k q (omega (arith, s.place))) (s.last q e);
    }

-- The loop stops at a place.
pub insert_entry-Placed :
    (n : ℕ) (keys datas : ℕ → ℕ) (key d : ℕ)
    → let (keys', datas') = insert_entry n keys datas key d in
      (p : ℕ) × Placed n p key d keys keys' datas datas'
unfolding insert_entry
insert_entry-Placed zero keys datas key d = (
  0,
  record {
    place = omega arith;
    low = λ j lt. absurd (omega arith);
    new = (put_self keys 0 key, put_self datas 0 d);
    high = λ j ge lt. absurd (omega arith);
    behind = λ j lt. (put_ne keys 0 j key (omega arith), put_ne datas 0 j d (omega arith));
    first = λ j ge lt. absurd (omega arith);
    last = λ q e. absurd (omega arith);
  },
)
insert_entry-Placed (suc n) keys datas key d = elim (Bool-cases (ltb key (keys n))) [
  | inr stops ↦
      rw (stops, insert_entry)
        (
          suc n,
          record {
            place = omega arith;
            low = λ j lt.
                (put_ne keys (suc n) j key (omega arith), put_ne datas (suc n) j d (omega arith));
            new = (put_self keys (suc n) key, put_self datas (suc n) d);
            high = λ j ge lt. absurd (omega arith);
            behind = λ j lt.
                (put_ne keys (suc n) j key (omega arith), put_ne datas (suc n) j d (omega arith));
            first = λ j ge lt. absurd (omega arith);
            last = λ q e. (let same : q ≡ n = omega arith in rw same (ground arith));
          },
        )
  | inl moves ↦
      let (p, s) =
        insert_entry-Placed n (put keys (suc n) (keys n)) (put datas (suc n) (datas n)) key d in
      rw (moves, insert_entry) (p, Placed-put n p key d keys _ datas _ (ground arith) s)
]
