-- ===== src/MemoryPool/Lists.antt =====
-- example_mem_pool.cpp: what `Xpool_init`, `Xpool_alloc` and `Xpool_free` do to the free blocks.
use uc.Prelude.{
  ℕ, ◌+◌, ◌-◌, ◌%◌, ◌^◌, ◌≡◌, ◌⊎◌, refl, ap, ◌∙◌, sym, arith, List, [], ◌∷◌, ◌++◌, false, Option,
  none, some, inl, inr, some_inj,
}
use uc.MemoryPool.{
  Pointer, Pool, Target, header, set_next, set_prev, set_data, link_used, link_free, take_block,
  take_at, alloc_at, pool_alloc, unlink_from, unlink, append_free, pool_free,
}
use uc.MemoryPool.Chains.{has, IsChain, IsChain-update, IsChain-append, last_of, last_of-append}

-- The free blocks in their order
pub record IsFreeList (p : Pool) (fs : List ℕ) : Type 0 where
  pub chain : IsChain p.blocks p.free_head fs
  pub ends : p.free_tail ≡ last_of fs

-- The used blocks: there is none, or the last of them is not in the list.
abbrev pub IsApart : Pool → List ℕ → Type 0
IsApart p fs = (p.used_head ≡ none) ⊎ ((u : ℕ) × (p.used_tail ≡ some u) × (has fs u ≡ false))

-- The fields of a block are written one at a time.
module _ (p : Pool) (q : Pointer) (fs : List ℕ) (b : ℕ) (out : has fs b ≡ false) where
  set_next-IsChain : (v : Pointer) → IsChain p.blocks q fs → IsChain (set_next p b v).blocks q fs
  unfolding set_next
  set_next-IsChain v c = IsChain-update p.blocks q fs b _ out c

  set_prev-IsChain : (v : Pointer) → IsChain p.blocks q fs → IsChain (set_prev p b v).blocks q fs
  unfolding set_prev
  set_prev-IsChain v c = IsChain-update p.blocks q fs b _ out c

  set_data-IsChain : (v : Target) → IsChain p.blocks q fs → IsChain (set_data p b v).blocks q fs
  unfolding set_data
  set_data-IsChain v c = IsChain-update p.blocks q fs b _ out c

-- The link behind the used blocks keeps the free ones.
link_used_lem :
    (p : Pool) (head tail : Pointer) (b : ℕ) (r : Pointer) (fs : List ℕ)
    → (head ≡ none) ⊎ ((u : ℕ) × (tail ≡ some u) × (has fs u ≡ false))
    → IsChain p.blocks r fs
    → (p' : Pool) × (link_used p head tail b ≡ some p')
      × IsChain p'.blocks r fs
      × (p'.free_head ≡ p.free_head)
      × (p'.free_tail ≡ p.free_tail)
      × (p'.free_count ≡ p.free_count)
unfolding link_used
link_used_lem p none tail b r fs a c = (_, refl, c, refl, refl, refl)
link_used_lem p (some h) none b r fs a c =
    absurd (elim a [ inl x ↦ ground arith | inr (u, e, _) ↦ ground arith ])
link_used_lem p (some h) (some t) b r fs a c =
    let apart : has fs t ≡ false = elim a [
      | inl x ↦ absurd (ground arith)
      | inr (u, e, o) ↦ rw (some_inj t u e) o
    ] in
    (_, refl, set_next-IsChain p r fs t apart (some b) c, refl, refl, refl)

-- What the list of the free blocks and their number are behind an operation
abbrev pub Leaves : Option (ℕ × Pool) → ℕ → List ℕ → ℕ → Type 0
Leaves o b fs n = (p' : Pool) × (o ≡ some (b, p')) × IsFreeList p' fs × (p'.free_count ≡ n)

take_block_lem :
    (p : Pool) (b c : ℕ) (fs : List ℕ)
    → IsFreeList p (b ∷ c ∷ fs)
    → IsApart p (c ∷ fs)
    → Leaves (take_block p b) b (c ∷ fs) ((p.free_count + 2 ^ 32 - 1) % 2 ^ 32)
unfolding take_block IsChain last_of set_data
take_block_lem p b c fs l a =
    let out : has (c ∷ fs) b ≡ false = l.chain.1.0 in
    let r : Pointer = (p.blocks b).p_next in
    let taken : Pool = record p {
      free_head = r;
      free_count = (p.free_count + 2 ^ 32 - 1) % 2 ^ 32;
    } in
    let q : Pool = set_prev (set_next taken b none) b p.used_tail in
    let chain =
      set_prev-IsChain (set_next taken b none) r (c ∷ fs) b out p.used_tail
        (set_next-IsChain taken r (c ∷ fs) b out none l.chain.1.1) in
    let (p', e, kept, head, tail, n) =
      link_used_lem q p.used_head p.used_tail b r (c ∷ fs) a chain in
    (
      set_data p' b (header b),
      rw (take_block, e) refl,
      record {
        chain = rw head (set_data-IsChain p' r (c ∷ fs) b out (header b) kept);
        ends = tail ∙ l.ends;
      },
      n,
    )

alloc_at-some : (p : Pool) (q : Pointer) (b : ℕ) → q ≡ some b → alloc_at p q ≡ take_block p b
unfolding alloc_at take_at
alloc_at-some p none b e = absurd (ground arith)
alloc_at-some p (some x) b e = rw (some_inj x b e) refl

-- While there are two free blocks or more and no free block is the end of the used ones,
-- `Xpool_alloc` returns the first free block and leaves the others in their order, and the counter
-- goes down by one.
pub pool_alloc_lem :
    (p : Pool) (b c : ℕ) (fs : List ℕ)
    → IsFreeList p (b ∷ c ∷ fs)
    → IsApart p (c ∷ fs)
    → Leaves (pool_alloc p) b (c ∷ fs) ((p.free_count + 2 ^ 32 - 1) % 2 ^ 32)
unfolding pool_alloc IsChain
pool_alloc_lem p b c fs l a =
    let (p', e, l', n) = take_block_lem p b c fs l a in
    (p', alloc_at-some p p.free_head b l.chain.0 ∙ e, l', n)

-- The neighbours of a used block are not free.
abbrev pub IsOutside : Pool → ℕ → List ℕ → Type 0
IsOutside p b fs =
    (has fs b ≡ false)
    × ((t : ℕ) → (p.blocks b).p_prev ≡ some t → has fs t ≡ false)
    × ((n : ℕ) → (p.blocks b).p_next ≡ some n → has fs n ≡ false)

-- What `unlink` of a used block leaves
abbrev Kept : Pool → Option Pool → Pointer → List ℕ → Type 0
Kept p o r fs =
    (p' : Pool) × (o ≡ some p')
    × IsChain p'.blocks r fs
    × (p'.free_head ≡ p.free_head)
    × (p'.free_tail ≡ p.free_tail)
    × (p'.free_count ≡ p.free_count)

still_next :
    (p : Pool) (b t n : ℕ)
    → (p.blocks b).p_next ≡ some n
    → ((set_next p t (some n)).blocks b).p_next ≡ some n
unfolding set_next
still_next p b t n e = ground arith

unlink_from_lem :
    (p : Pool) (b : ℕ) (prev next : Pointer) (r : Pointer) (fs : List ℕ)
    → (p.blocks b).p_next ≡ next
    → ((t : ℕ) → prev ≡ some t → has fs t ≡ false)
    → ((n : ℕ) → next ≡ some n → has fs n ≡ false)
    → IsChain p.blocks r fs
    → Kept p (unlink_from p b prev next) r fs
unfolding unlink_from
unlink_from_lem p b none none r fs e before behind c = (_, refl, c, refl, refl, refl)
unlink_from_lem p b none (some n) r fs e before behind c = (
  _,
  refl,
  set_prev-IsChain (record p { used_head = some n }) r fs n (behind n refl) none c,
  refl,
  refl,
  refl,
)
unlink_from_lem p b (some t) none r fs e before behind c = (
  _,
  refl,
  set_next-IsChain (record p { used_tail = some t }) r fs t (before t refl) none c,
  refl,
  refl,
  refl,
)
unlink_from_lem p b (some t) (some n) r fs e before behind c =
    let p' : Pool = set_next p t (some n) in
    let still : (p'.blocks b).p_next ≡ some n = still_next p b t n e in
    (
      set_prev p' n (p'.blocks b).p_prev,
      rw still refl,
      set_prev-IsChain p' r fs n (behind n refl) ((p'.blocks b).p_prev)
          (set_next-IsChain p r fs t (before t refl) (some n) c),
      refl,
      refl,
      refl,
    )

pub next-IsChain :
    (p : Pool) (t x b : ℕ) (fs : List ℕ)
    → x ≡ t
    → last_of fs ≡ some t
    → has fs b ≡ false
    → (p.blocks b).p_next ≡ none
    → IsChain p.blocks p.free_head fs
    → IsChain (set_next p x (some b)).blocks p.free_head (fs ++ b ∷ [])
unfolding set_next
next-IsChain p t x b fs same l out ends c =
    IsChain-append p.blocks p.free_head fs x b _ c (l ∙ ap some (sym same)) out ends refl

-- The block before it is linked
closed : Pool → ℕ → Pool
closed q b = set_data (set_next (set_prev q b q.free_tail) b none) b (header b)

closed-next : (q : Pool) (b : ℕ) → ((closed q b).blocks b).p_next ≡ none
unfolding closed set_data set_next
closed-next q b = ground arith

closed-IsChain :
    (q : Pool) (b : ℕ) (fs : List ℕ)
    → has fs b ≡ false
    → IsChain q.blocks q.free_head fs
    → IsChain (closed q b).blocks q.free_head fs
unfolding closed
closed-IsChain q b fs out c =
    set_data-IsChain (set_next (set_prev q b q.free_tail) b none) q.free_head fs b out (header b) (
      set_next-IsChain (set_prev q b q.free_tail) q.free_head fs b out none
        (set_prev-IsChain q q.free_head fs b out q.free_tail c))

link_free_lem :
    (p : Pool) (tail : Pointer) (t b : ℕ) (fs : List ℕ)
    → tail ≡ some t
    → last_of fs ≡ some t
    → has fs b ≡ false
    → (p.blocks b).p_next ≡ none
    → IsChain p.blocks p.free_head fs
    → (p' : Pool) × (link_free p tail b ≡ some p')
      × IsFreeList p' (fs ++ b ∷ [])
      × (p'.free_count ≡ (p.free_count + 1) % 2 ^ 32)
unfolding link_free
link_free_lem p none t b fs e l out ends c = absurd (ground arith)
link_free_lem p (some x) t b fs e l out ends c = (
  _,
  refl,
  record {
    chain = next-IsChain p t x b fs (some_inj x t e) l out ends c;
    ends = sym (last_of-append fs b);
  },
  refl,
)

-- While there is a free block, `Xpool_free` of a used block, whose neighbours are not free, puts it
-- behind the free blocks, and the counter goes up by one.
pub pool_free_lem :
    (p : Pool) (b t : ℕ) (fs : List ℕ)
    → IsFreeList p fs
    → last_of fs ≡ some t
    → IsOutside p b fs
    → (p' : Pool) × (pool_free p b ≡ some p')
      × IsFreeList p' (fs ++ b ∷ [])
      × (p'.free_count ≡ (p.free_count + 1) % 2 ^ 32)
unfolding pool_free unlink append_free closed
pool_free_lem p b t fs l last (out, before, behind) =
    let (q, e, c, head, tail, n) =
      unlink_from_lem p b ((p.blocks b).p_prev) ((p.blocks b).p_next) p.free_head fs refl before
        behind l.chain in
    let c' : IsChain q.blocks q.free_head fs = rw head c in
    let end : q.free_tail ≡ some t = tail ∙ l.ends ∙ last in
    let (p', e', l', n') =
      link_free_lem (closed q b) q.free_tail t b fs end last out (closed-next q b)
        (closed-IsChain q b fs out c') in
    (p', rw (pool_free, e) e', l', n' ∙ rw n refl)
