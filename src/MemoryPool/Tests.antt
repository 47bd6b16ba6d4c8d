-- ===== src/MemoryPool/Tests.antt =====
-- example_mem_pool.cpp: runs of the pool, and the theorems at concrete pools.
use uc.Prelude.{
  ℕ, zero, suc, ◌-◌, ◌^◌, ◌≡◌, ◌≢◌, refl, arith, List, [], ◌∷◌, Option, none, some, inr, Bool, true,
  false, ◌==◌, if◌then◌else◌,
}
use uc.MemoryPool.{
  Pool, data_memory, pool_init, pool_alloc, pool_free, unlink, append_free, pool_destroy,
}
use uc.MemoryPool.Chains.{has, IsChain, last_of}
use uc.MemoryPool.Lists.{IsFreeList, Leaves, pool_alloc_lem, pool_free_lem}
use uc.MemoryPool.Lost.{pool_free-lost}

-- `memory` before `Xpool_init`
abbrev blank : Pool
blank = record {
  block_count = 0;
  block_count_step = 0;
  block_size = 0;
  free_count = 0;
  free_head = none;
  free_tail = none;
  used_head = none;
  used_tail = none;
  block_memory_head = 0;
  blocks = λ i. record { p_next = none; p_prev = none; data_of = data_memory 0 };
  made = 0;
}

data Call : Type 0 where
  alloc : Call
  free : ℕ → Call

step : Pool → Call → Option Pool
step p alloc = elim (pool_alloc p) [ none ↦ none | some r ↦ some r.1 ]
step p (free b) = pool_free p b

run : Pool → List Call → Option Pool
unfolding step
run p [] = some p
run p (c ∷ cs) = elim (step p c) [ none ↦ none | some p' ↦ run p' cs ]

started : ℕ → List Call → Option Pool
unfolding run
started n cs = elim (pool_init n 96 blank) [ none ↦ none | some p ↦ run p cs ]

-- The blocks that the free list leads through
walk : ℕ → Pool → Option ℕ → List ℕ
walk zero p q = []
walk (suc n) p none = []
walk (suc n) p (some b) = b ∷ walk n p (p.blocks b).p_next

free_blocks : Option Pool → List ℕ
unfolding walk
free_blocks none = []
free_blocks (some p) = walk 9 p p.free_head

counter : Option Pool → ℕ
counter none = 0
counter (some p) = p.free_count

destroyed : Option Pool → ℕ → Bool
destroyed none b = false
destroyed (some p) b = pool_destroy p b

-- The only block is lost when it comes back.
one_block :
    (free_blocks (started 1 (alloc ∷ free 0 ∷ [])) ≡ [])
    × (counter (started 1 (alloc ∷ free 0 ∷ [])) ≡ 1)
unfolding started free_blocks counter pool_init pool_alloc pool_free unlink append_free
one_block = (refl, refl)

-- Four blocks, all of them free again, of which the list has two: the end of the used blocks is stale,
-- and a later `Xpool_free` cuts the free list there.
four_blocks :
    let s = started 4 (alloc ∷ free 0 ∷ alloc ∷ alloc ∷ free 2 ∷ free 1 ∷ []) in
    (free_blocks s ≡ 3 ∷ 0 ∷ []) × (counter s ≡ 4)
unfolding started free_blocks counter pool_init pool_alloc pool_free unlink append_free
four_blocks = (refl, refl)

-- A new chunk of blocks does not raise the counter, which wraps below 0.
second_chunk : counter (started 1 (alloc ∷ alloc ∷ [])) ≡ 2 ^ 32 - 1
unfolding started counter pool_init pool_alloc
second_chunk = refl

-- Blocks 0 and 1 are free, and block 2 is used.
abbrev three : Pool
three = record blank {
  free_count = 2;
  free_head = some 0;
  free_tail = some 1;
  used_head = some 2;
  used_tail = some 2;
  blocks = λ i.
      if i == 0
      then record { p_next = some 1; p_prev = none; data_of = data_memory 0 }
      else record { p_next = none; p_prev = none; data_of = data_memory i };
  made = 3;
}

three-IsFreeList : IsFreeList three (0 ∷ 1 ∷ [])
unfolding IsChain has last_of
three-IsFreeList = record { chain = (refl, (refl, (refl, (refl, refl)))); ends = refl }

pool_alloc_lem_example : Leaves (pool_alloc three) 0 (1 ∷ []) 1
unfolding has
pool_alloc_lem_example = pool_alloc_lem three 0 1 [] three-IsFreeList (inr (2, refl, refl))

pool_free_lem_example :
    (p' : Pool) × (pool_free three 2 ≡ some p')
    × IsFreeList p' (0 ∷ 1 ∷ 2 ∷ [])
    × (p'.free_count ≡ 3)
unfolding has last_of
pool_free_lem_example =
    pool_free_lem three 2 1 (0 ∷ 1 ∷ []) three-IsFreeList refl
      (refl, λ t e. absurd (ground arith), λ n e. absurd (ground arith))

-- The only block is used.
abbrev lone : Pool
lone = record blank {
  block_count_step = 2;
  free_tail = some 0;
  used_head = some 0;
  used_tail = some 0;
  made = 1;
}

abbrev lone_freed : Pool
unfolding pool_free unlink append_free
lone_freed = elim (pool_free lone 0) [ none ↦ lone | some p ↦ p ]

-- The chunk after that has two blocks.
abbrev next_alloc : ℕ × Pool
unfolding pool_alloc
next_alloc = elim (pool_alloc lone_freed) [ none ↦ (9, lone) | some r ↦ r ]

pool_free-lost_example :
    (lone_freed.free_head ≡ none)
    × (lone_freed.free_count ≡ 1)
    × (next_alloc.0 ≡ 1)
    × (next_alloc.0 ≢ 0)
unfolding pool_free unlink append_free pool_alloc
pool_free-lost_example =
    pool_free-lost lone lone_freed next_alloc.1 0 next_alloc.0 refl (omega arith) refl refl

-- The first block of a pool that has made a second chunk is not given back.
first_chunk_leaks :
    (destroyed (started 1 (alloc ∷ alloc ∷ [])) 0 ≡ false)
    × (destroyed (started 1 (alloc ∷ alloc ∷ [])) 1 ≡ true)
unfolding started destroyed pool_init pool_alloc pool_destroy
first_chunk_leaks = (refl, refl)
