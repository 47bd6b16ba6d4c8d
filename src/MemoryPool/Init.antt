-- ===== src/MemoryPool/Init.antt =====
-- example_mem_pool.cpp: `Xpool_init`.
use uc.Prelude.{
  ℕ, zero, suc, ◌+◌, ◌≤◌, ◌≡◌, ◌≢◌, refl, ◌∙◌, sym, arith, List, [], ◌∷◌, ◌++◌, false, none, some,
}
use mathlib.Core.List.{append-nil, append_assoc}
use uc.MemoryPool.{
  Pointer, Pool, data_memory, update, link_new, add_free, add_all_free, pool_block, pool_init,
}
use uc.MemoryPool.Chains.{has, IsChain, IsChain-update, last_of, last_of-append, has-append}
use uc.MemoryPool.Lists.{IsFreeList, next-IsChain}

-- The numbers from `m` on
abbrev pub numbers : ℕ → ℕ → List ℕ
numbers m zero = []
numbers m (suc n) = m ∷ numbers (m + 1) n

-- No block from `m` on is in the list.
abbrev IsBelow : List ℕ → ℕ → Type 0
IsBelow fs m = (k : ℕ) → m ≤ k → has fs k ≡ false

last-ne-none : (x : ℕ) (fs : List ℕ) → last_of (x ∷ fs) ≢ none
unfolding last_of
last-ne-none x [] = λ e. ground arith
last-ne-none x (y ∷ fs) = last-ne-none y fs

link_new_lem :
    (p : Pool) (head tail : Pointer) (b : ℕ) (fs : List ℕ)
    → p.free_head ≡ head
    → IsChain p.blocks head fs
    → tail ≡ last_of fs
    → has fs b ≡ false
    → (p.blocks b).p_next ≡ none
    → (p' : Pool) × (link_new p head tail b ≡ some p')
      × IsFreeList p' (fs ++ b ∷ [])
      × (p'.free_count ≡ p.free_count)
      × (p'.made ≡ p.made)
unfolding link_new IsChain last_of has
link_new_lem p none tail b [] at_head c ends out e =
    (_, refl, record { chain = (refl, (refl, e)); ends = refl }, refl, refl)
link_new_lem p none tail b (x ∷ fs) at_head c ends out e = absurd (let z = c.0 in ground arith)
link_new_lem p (some h) tail b [] at_head c ends out e = absurd (ground arith)
link_new_lem p (some h) none b (x ∷ fs) at_head c ends out e = absurd (last-ne-none x fs (sym ends))
link_new_lem p (some h) (some t) b (x ∷ fs) at_head c ends out e =
    let c' : IsChain p.blocks p.free_head (x ∷ fs) = rw at_head c in
    (
      _,
      refl,
      record {
        chain = next-IsChain p t t b (x ∷ fs) refl (sym ends) out e c';
        ends = sym (last_of-append (x ∷ fs) b);
      },
      refl,
      refl,
    )

add_free_lem :
    (p : Pool) (fs : List ℕ)
    → IsFreeList p fs
    → IsBelow fs p.made
    → (p' : Pool) × (add_free p ≡ some p')
      × IsFreeList p' (fs ++ p.made ∷ [])
      × (p'.free_count ≡ p.free_count)
      × (p'.made ≡ p.made + 1)
unfolding add_free
add_free_lem p fs l fresh =
    let b : ℕ = p.made in
    let laid : Pool = record p {
      blocks =
          update p.blocks b
            (record { p_next = none; p_prev = p.free_tail; data_of = data_memory b });
      made = b + 1;
    } in
    link_new_lem laid p.free_head p.free_tail b fs refl
      (IsChain-update p.blocks p.free_head fs b _ (fresh b (omega arith)) l.chain) l.ends
      (fresh b (omega arith)) (ground arith)

IsBelow-append : (fs : List ℕ) (m : ℕ) → IsBelow fs m → IsBelow (fs ++ m ∷ []) (m + 1)
IsBelow-append fs m h = λ k le. has-append fs m k ∙ rw (h k (omega arith)) (ground arith)

add_all_free_lem :
    (n : ℕ) (p : Pool) (fs : List ℕ)
    → IsFreeList p fs
    → IsBelow fs p.made
    → (p' : Pool) × (add_all_free n p ≡ some p')
      × IsFreeList p' (fs ++ numbers p.made n)
      × (p'.free_count ≡ p.free_count)
unfolding add_all_free
add_all_free_lem zero p fs l fresh = (p, refl, rw (append-nil fs) l, refl)
add_all_free_lem (suc n) p fs l fresh =
    let (q, e, l', count, made) = add_free_lem p fs l fresh in
    let fresh' : IsBelow (fs ++ p.made ∷ []) q.made = rw made (IsBelow-append fs p.made fresh) in
    let (p', e', l'', count') = add_all_free_lem n q (fs ++ p.made ∷ []) l' fresh' in
    let order : (fs ++ p.made ∷ []) ++ numbers q.made n ≡ fs ++ numbers p.made (suc n) =
      rw made (append_assoc fs (p.made ∷ []) (numbers (p.made + 1) n)) in
    (p', rw (add_all_free, e) e', rw (← order) l'', count' ∙ count)

-- `Xpool_init` makes a list of as many free blocks as it is asked for, in the order in which they are
-- laid out, with that counter and without used blocks; it never reads through NULL.
pub pool_init_lem :
    (n size : ℕ) (p : Pool)
    → (p' : Pool) × (pool_init n size p ≡ some p')
      × IsFreeList p' (numbers p.made n)
      × (p'.free_count ≡ n)
unfolding pool_init pool_block IsChain last_of has
pool_init_lem n size p =
    add_all_free_lem n
      (record p {
        block_count = n;
        block_size = size;
        free_count = n;
        block_count_step = 100;
        free_head = none;
        free_tail = none;
        used_head = none;
        used_tail = none;
        block_memory_head = p.made;
      })
      [] (record { chain = refl; ends = refl }) (λ k le. refl)
