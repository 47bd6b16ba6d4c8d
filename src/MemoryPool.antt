-- ===== src/MemoryPool.antt =====
-- example_mem_pool.cpp: a pool of memory blocks in two linked lists, the free and the used ones.
--
-- A block is the number of its header, in the order in which headers are laid out, and a pointer is
-- that number or NULL. `Xpool_alloc` returns a pointer into the header of the block, from which
-- `Xpool_free` computes the header again: here both speak of the block. `none` is an access through
-- NULL.
mod Chains
pub mod Lists
pub mod Lost
pub mod Init
mod Tests
use uc.Prelude.{
  ℕ, zero, suc, ◌+◌, ◌-◌, ◌%◌, ◌^◌, Bool, true, false, ◌==◌, ltb, leb, ◌&&◌, if◌then◌else◌, Option,
  none, some,
}

abbrev pub Pointer : Type 0
Pointer = Option ℕ

-- What `data` points to: a part of the data memory, or the header of a block.
pub data Target : Type 0 where
  data_memory : ℕ → Target
  header : ℕ → Target

-- `MemoryBlock`
pub record Block : Type 0 where
  pub p_next : Pointer
  pub p_prev : Pointer
  pub data_of : Target

-- `MemoryPool`, with the blocks and with the number of headers that are laid out so far.
-- `block_memory_head` is the first header of the memory that was allocated last, and the data memory
-- goes with it.
pub record Pool : Type 0 where
  pub block_count : ℕ
  pub block_count_step : ℕ
  pub block_size : ℕ
  pub free_count : ℕ
  pub free_head : Pointer
  pub free_tail : Pointer
  pub used_head : Pointer
  pub used_tail : Pointer
  pub block_memory_head : ℕ
  pub blocks : ℕ → Block
  pub made : ℕ

abbrev pub update : (ℕ → Block) → ℕ → Block → ℕ → Block
update f i b j = if j == i then b else f j

-- `b->pNext = v`, `b->pPrev = v` for a block `b`
unfoldable pub set_next : Pool → ℕ → Pointer → Pool
set_next p b v = record p { blocks = update p.blocks b (record (p.blocks b) { p_next = v }) }

unfoldable pub set_prev : Pool → ℕ → Pointer → Pool
set_prev p b v = record p { blocks = update p.blocks b (record (p.blocks b) { p_prev = v }) }

unfoldable pub set_data : Pool → ℕ → Target → Pool
set_data p b v = record p { blocks = update p.blocks b (record (p.blocks b) { data_of = v }) }

-- `t->pNext = v` for a pointer `t`
unfoldable pub set_next_at : Pool → Pointer → Pointer → Option Pool
unfolding set_next
set_next_at p none v = none
set_next_at p (some b) v = some (set_next p b v)

-- The new block `b` goes behind the free blocks, whose ends are `head` and `tail`.
unfoldable pub link_new : Pool → Pointer → Pointer → ℕ → Option Pool
unfolding set_next_at
link_new p none tail b = some (record p { free_head = some b; free_tail = some b })
link_new p (some _) tail b = elim (set_next_at p tail (some b)) [
  | none ↦ none
  | some p' ↦ some (record p' { free_tail = some b })
]

-- A round of the loop of `Xpool_block`
unfoldable pub add_free : Pool → Option Pool
unfolding link_new
add_free p =
    let b = p.made in
    let laid : Pool = record p {
      blocks =
          update p.blocks b
            (record { p_next = none; p_prev = p.free_tail; data_of = data_memory b });
      made = b + 1;
    } in
    link_new laid p.free_head p.free_tail b

-- The loop, with `n` rounds left.
unfoldable pub add_all_free : ℕ → Pool → Option Pool
unfolding add_free
add_all_free zero p = some p
add_all_free (suc n) p = elim (add_free p) [ none ↦ none | some p' ↦ add_all_free n p' ]

-- `Xpool_block`
unfoldable pub pool_block : ℕ → Pool → Option Pool
unfolding add_all_free
pool_block n p = add_all_free n (record p { block_memory_head = p.made })

-- `Xpool_init`, with the memory before it.
unfoldable pub pool_init : ℕ → ℕ → Pool → Option Pool
unfolding pool_block
pool_init block_count block_size p = pool_block block_count (record p {
  block_count = block_count;
  block_size = block_size;
  free_count = block_count;
  block_count_step = 100;
  free_head = none;
  free_tail = none;
  used_head = none;
  used_tail = none;
})

-- `b` goes behind the used blocks, whose ends are `head` and `tail`.
unfoldable pub link_used : Pool → Pointer → Pointer → ℕ → Option Pool
unfolding set_next_at
link_used p none tail b = some (record p { used_head = some b; used_tail = some b })
link_used p (some _) tail b = elim (set_next_at p tail (some b)) [
  | none ↦ none
  | some p' ↦ some (record p' { used_tail = some b })
]

-- `Xpool_alloc` from where `block` is set.
unfoldable pub take_block : Pool → ℕ → Option (ℕ × Pool)
unfolding set_next set_prev set_data link_used
take_block p b =
    let taken : Pool = record p {
      free_head = (p.blocks b).p_next;
      free_count = (p.free_count + 2 ^ 32 - 1) % 2 ^ 32;
    } in
    let linked : Pool = set_prev (set_next taken b none) b p.used_tail in
    elim (link_used linked p.used_head p.used_tail b) [
      | none ↦ none
      | some p' ↦ some (b, set_data p' b (header b))
    ]

-- `Xpool_alloc` from where `block` is set, which is the pointer.
unfoldable pub take_at : Pool → Pointer → Option (ℕ × Pool)
unfolding take_block
take_at p none = none
take_at p (some b) = take_block p b

-- `Xpool_alloc`, which does not use its argument, where the pointer is `freeHead`.
unfoldable pub alloc_at : Pool → Pointer → Option (ℕ × Pool)
unfolding take_at pool_block
alloc_at p none = elim (pool_block p.block_count_step p) [
  | none ↦ none
  | some p' ↦ take_at p' p'.free_head
]
alloc_at p (some b) = take_at p (some b)

unfoldable pub pool_alloc : Pool → Option (ℕ × Pool)
unfolding alloc_at
pool_alloc p = alloc_at p p.free_head

-- `block->pNext->pPrev = block->pPrev`
unfoldable pub link_back : Pool → ℕ → Pointer → Option Pool
unfolding set_prev
link_back p b none = none
link_back p b (some m) = some (set_prev p m (p.blocks b).p_prev)

-- `b` comes out of the used blocks, where the pointers are its `pPrev` and its `pNext`.
unfoldable pub unlink_from : Pool → ℕ → Pointer → Pointer → Option Pool
unfolding set_next set_prev link_back
unlink_from p b none none = some (record p { used_head = none })
unlink_from p b none (some n) = some (set_prev (record p { used_head = some n }) n none)
unlink_from p b (some t) none = some (set_next (record p { used_tail = some t }) t none)
unlink_from p b (some t) (some n) =
    let p' : Pool = set_next p t (some n) in link_back p' b (p'.blocks b).p_next

unfoldable pub unlink : Pool → ℕ → Option Pool
unfolding unlink_from
unlink p b = unlink_from p b (p.blocks b).p_prev (p.blocks b).p_next

-- The last lines of `Xpool_free`, where `tail` is the last free block.
unfoldable pub link_free : Pool → Pointer → ℕ → Option Pool
unfolding set_next_at
link_free p tail b = elim (set_next_at p tail (some b)) [
  | none ↦ none
  | some p' ↦ some (record p' { free_tail = some b; free_count = (p'.free_count + 1) % 2 ^ 32 })
]

-- `b` goes behind the free blocks.
unfoldable pub append_free : Pool → ℕ → Option Pool
unfolding set_next set_prev set_data link_free
append_free p b =
    link_free (set_data (set_next (set_prev p b p.free_tail) b none) b (header b)) p.free_tail b

-- `Xpool_free` of the pointer into block `b`
unfoldable pub pool_free : Pool → ℕ → Option Pool
unfolding unlink append_free
pool_free p b = elim (unlink p b) [ none ↦ none | some p' ↦ append_free p' b ]

-- `Xpool_destroy`: whether it gives back the memory of block `b`, which is that of the last chunk.
unfoldable pub pool_destroy : Pool → ℕ → Bool
pool_destroy p b = leb p.block_memory_head b && ltb b p.made
