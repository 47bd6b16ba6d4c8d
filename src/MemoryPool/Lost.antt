-- ===== src/MemoryPool/Lost.antt =====
-- example_mem_pool.cpp: `Xpool_init`, and blocks that are freed while there is no free one.
use uc.Prelude.{
  ℕ, zero, suc, ◌+◌, ◌-◌, ◌%◌, ◌^◌, ◌<◌, ◌≡◌, ◌≢◌, ◌⊎◌, refl, ◌∙◌, arith, Option, none, some,
  Option-cases, inl, inr,
}
use uc.MemoryPool.{
  Pointer, Pool, header, set_next, set_prev, set_data, set_next_at, link_back, link_free,
  unlink_from, unlink, append_free, pool_free, link_new, add_free, add_all_free, pool_block,
  link_used, take_block, take_at, alloc_at, pool_alloc,
}

link_back-head :
    (p : Pool) (b : ℕ) (q : Pointer) {p' : Pool}
    → link_back p b q ≡ some p'
    → (p'.free_head ≡ p.free_head) × (p'.free_count ≡ p.free_count) × (p'.made ≡ p.made)
unfolding link_back set_prev
link_back-head p b none h = absurd (ground arith)
link_back-head p b (some m) h = ground arith

unlink_from-head :
    (p : Pool) (b : ℕ) (prev next : Pointer) {p' : Pool}
    → unlink_from p b prev next ≡ some p'
    → (p'.free_head ≡ p.free_head) × (p'.free_count ≡ p.free_count) × (p'.made ≡ p.made)
unfolding unlink_from set_next set_prev
unlink_from-head p b none none h = ground arith
unlink_from-head p b none (some n) h = ground arith
unlink_from-head p b (some t) none h = ground arith
unlink_from-head p b (some t) (some n) h =
    link_back-head (set_next p t (some n)) b (((set_next p t (some n)).blocks b).p_next) h

link_free-head :
    (p : Pool) (tail : Pointer) (b : ℕ) {p' : Pool}
    → link_free p tail b ≡ some p'
    → (p'.free_head ≡ p.free_head)
      × (p'.free_count ≡ (p.free_count + 1) % 2 ^ 32)
      × (p'.made ≡ p.made)
unfolding link_free set_next_at set_next
link_free-head p none b h = absurd (ground arith)
link_free-head p (some t) b h = ground arith

pool_free-head :
    (p p' : Pool) (b : ℕ)
    → p.free_head ≡ none
    → pool_free p b ≡ some p'
    → (p'.free_head ≡ none) × (p'.free_count ≡ (p.free_count + 1) % 2 ^ 32) × (p'.made ≡ p.made)
unfolding pool_free unlink append_free set_data set_next set_prev
pool_free-head p p' b e h =
    elim (Option-cases (unlink_from p b (p.blocks b).p_prev (p.blocks b).p_next)) [
      | inl u ↦ absurd (let z : ◌≡◌ {A = Option Pool} none (some p') = rw (pool_free, u) at h in cc)
      | inr (q, u) ↦
          let (head, n, m) = unlink_from-head p b ((p.blocks b).p_prev) ((p.blocks b).p_next) u in
          let g = rw (pool_free, u) at h in
          let (head', n', m') =
            link_free-head (set_data (set_next (set_prev q b q.free_tail) b none) b (header b))
              q.free_tail b g in
          (head' ∙ head ∙ e, n' ∙ rw n refl, m' ∙ m)
    ]

link_new-head :
    (p : Pool) (head tail : Pointer) (b h : ℕ) {p' : Pool}
    → p.free_head ≡ head
    → link_new p head tail b ≡ some p'
    → (head ≡ none → p'.free_head ≡ some b) × (head ≡ some h → p'.free_head ≡ some h)
unfolding link_new set_next_at set_next
link_new-head p none tail b h e g = (λ z. ground arith, λ z. absurd (ground arith))
link_new-head p (some x) none b h e g = absurd (ground arith)
link_new-head p (some x) (some t) b h e g = (λ z. absurd (ground arith), λ z. ground arith)

add_free-head :
    (p p' : Pool) (h : ℕ)
    → add_free p ≡ some p'
    → (p.free_head ≡ none → p'.free_head ≡ some p.made)
      × (p.free_head ≡ some h → p'.free_head ≡ some h)
unfolding add_free
add_free-head p p' h g = link_new-head _ p.free_head p.free_tail p.made h refl g

-- The first block of a chunk that is made while no block is free becomes the head.
add_all_free-head :
    (n : ℕ) (p p' : Pool) (h : ℕ)
    → add_all_free n p ≡ some p'
    → (p.free_head ≡ none → (p'.free_head ≡ none) ⊎ (p'.free_head ≡ some p.made))
      × (p.free_head ≡ some h → p'.free_head ≡ some h)
unfolding add_all_free
add_all_free-head zero p p' h g = (λ z. inl (ground arith), λ z. ground arith)
add_all_free-head (suc n) p p' h g = elim (Option-cases (add_free p)) [
  | inl e ↦ absurd (let z : ◌≡◌ {A = Option Pool} none (some p') = rw (add_all_free, e) at g in cc)
  | inr (q, e) ↦
      let g' = rw (add_all_free, e) at g in
      let first = add_free-head p q h e in
      (
        λ z. inr ((add_all_free-head n q p' p.made g').1 (first.0 z)),
        λ z. (add_all_free-head n q p' h g').1 (first.1 z),
      )
]

taken_block :
    (o : Option Pool) (x b : ℕ) {q : Pool}
    → ◌≡◌ {A = Option (ℕ × Pool)}
        (elim o [ none ↦ none | some p ↦ some (x, set_data p x (header x)) ])
        (some (b, q))
    → b ≡ x
taken_block none x b h = absurd (ground arith)
taken_block (some p) x b h = ground arith

take_at-head :
    (p : Pool) (at : Pointer) (b h : ℕ) {q : Pool}
    → take_at p at ≡ some (b, q)
    → (at ≡ none) ⊎ (at ≡ some h)
    → b ≡ h
unfolding take_at take_block
take_at-head p none b h g w = absurd (ground arith)
take_at-head p (some x) b h g w =
    let taken : Pool = record p {
      free_head = (p.blocks x).p_next;
      free_count = (p.free_count + 2 ^ 32 - 1) % 2 ^ 32;
    } in
    let linked : Pool = set_prev (set_next taken x none) x p.used_tail in
    let e : b ≡ x = taken_block (link_used linked p.used_head p.used_tail x) x b g in ground arith

-- The new chunk of an `Xpool_alloc` that returns
new_chunk :
    (o : Option Pool) (b : ℕ) {q : Pool}
    → ◌≡◌ {A = Option (ℕ × Pool)}
        (elim o [ none ↦ none | some r ↦ take_at r r.free_head ])
        (some (b, q))
    → (r : Pool) × (o ≡ some r) × (take_at r r.free_head ≡ some (b, q))
new_chunk none b h = absurd (ground arith)
new_chunk (some r) b h = (r, refl, h)

alloc_at-none :
    (p : Pool) (at : Pointer) (b : ℕ) {q : Pool}
    → at ≡ none
    → alloc_at p at ≡ some (b, q)
    → (r : Pool) × (pool_block p.block_count_step p ≡ some r)
      × (take_at r r.free_head ≡ some (b, q))
unfolding alloc_at
alloc_at-none p none b e h = new_chunk (pool_block p.block_count_step p) b h
alloc_at-none p (some x) b e h = absurd (ground arith)

-- A block that is freed while there is no free block is counted as free, but `freeHead` stays NULL,
-- so that the next `Xpool_alloc` that returns makes a new chunk and hands out the first block of it,
-- which is not the block that was freed.
pub pool_free-lost :
    (p p' q : Pool) (b b' : ℕ)
    → p.free_head ≡ none
    → b < p.made
    → pool_free p b ≡ some p'
    → pool_alloc p' ≡ some (b', q)
    → (p'.free_head ≡ none)
      × (p'.free_count ≡ (p.free_count + 1) % 2 ^ 32)
      × (b' ≡ p.made)
      × (b' ≢ b)
unfolding pool_alloc pool_block
pool_free-lost p p' q b b' e old h g =
    let (head, count, made) = pool_free-head p p' b e h in
    let (r, chunk, taken) = alloc_at-none p' p'.free_head b' head g in
    let first =
      (add_all_free-head p'.block_count_step (record p' { block_memory_head = p'.made }) r 0
          chunk).0
        head in
    let new : b' ≡ p'.made = take_at-head r r.free_head b' p'.made taken first in
    (head, count, new ∙ made, λ same. omega (arith, new, made, same))
