-- ===== src/Probe/Live.antt =====
-- The number of nodes in use, under a write to one of them.
use uc.Prelude.{ℕ, zero, suc, ◌<◌, ◌≤◌, ◌≡◌, ◌≢◌, List, [], ◌∷◌, set, length, arith, replicate}
use uc.Probe.{Node, key_at, live}

module _ {ℓ} {V : Type ℓ} where
  pub live-set_fill :
      (nodes : List (Node V)) (p : ℕ) (e : Node V)
      → p < length nodes
      → key_at nodes p ≡ 0
      → e.key ≢ 0
      → live (set nodes p e) ≡ suc (live nodes)
  unfolding live key_at
  live-set_fill [] p e lt empty used = absurd (omega arith)
  live-set_fill (x ∷ xs) zero e lt empty used = ground arith
  live-set_fill (x ∷ xs) (suc p) e lt empty used = ground (arith, live-set_fill xs p e)

  pub live-set_empty :
      (nodes : List (Node V)) (p : ℕ) (e : Node V)
      → key_at nodes p ≢ 0
      → e.key ≡ 0
      → suc (live (set nodes p e)) ≡ live nodes
  unfolding live key_at
  live-set_empty [] p e used empty = ground arith
  live-set_empty (x ∷ xs) zero e used empty = ground arith
  live-set_empty (x ∷ xs) (suc p) e used empty = ground (arith, live-set_empty xs p e)

  pub live-set_same :
      (nodes : List (Node V)) (p : ℕ) (e : Node V)
      → key_at nodes p ≡ e.key
      → live (set nodes p e) ≡ live nodes
  unfolding live key_at
  live-set_same [] p e same = ground arith
  live-set_same (x ∷ xs) zero e same = ground arith
  live-set_same (x ∷ xs) (suc p) e same = ground (arith, live-set_same xs p e)

  pub live-le-length : (nodes : List (Node V)) → live nodes ≤ length nodes
  unfolding live
  live-le-length [] = omega arith
  live-le-length (x ∷ xs) = ground (arith, live-le-length xs)

  pub key_at-lt : (nodes : List (Node V)) (p : ℕ) → key_at nodes p ≢ 0 → p < length nodes
  unfolding key_at
  key_at-lt [] p used = ground arith
  key_at-lt (x ∷ xs) zero used = omega arith
  key_at-lt (x ∷ xs) (suc p) used = ground (arith, key_at-lt xs p)

  pub live-replicate : (n : ℕ) (e : Node V) → e.key ≡ 0 → live (replicate n e) ≡ 0
  unfolding live
  live-replicate zero e empty = ground arith
  live-replicate (suc n) e empty = ground (arith, live-replicate n e)

  pub key_at-replicate : (n p : ℕ) (e : Node V) → e.key ≡ 0 → key_at (replicate n e) p ≡ 0
  unfolding key_at
  key_at-replicate zero p e empty = ground arith
  key_at-replicate (suc n) zero e empty = ground arith
  key_at-replicate (suc n) (suc p) e empty = ground (arith, key_at-replicate n p e)
