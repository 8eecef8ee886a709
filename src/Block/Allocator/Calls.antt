-- ===== src/Block/Allocator/Calls.antt =====
-- Every call of an allocator: what it returns, when it raises, and what it leaves.
use token_sim.Prelude.{
  subst, ℕ, ◌+◌, ◌≤◌, ◌<◌, ◌≡◌, ◌≢◌, refl, ap, ◌∙◌, inl, inr, some, arith, ◌==◌, ltb, length,
  nat_eq, Bool-cases,
}
use token_sim.Prelude.Dict.{get, get-put_self, length-remove, get-remove}
use token_sim.Errors.{Outcome, ok, raise, continue, ◌>>=◌, out_of_blocks_error}
use token_sim.Block.Physical.{PhysicalTokenBlock, Memory, new_block}
use token_sim.Block.FreeQueue.{FreeBlockQueue, popleft}
use token_sim.Block.FreeQueue.Order.{Pops, popleft-Pops}
use token_sim.Block.FreeQueue.Order
use token_sim.Block.Pool
use token_sim.Block.Pool.{BlockPool}
use token_sim.Block.Allocator.{
  BlockAllocator, get_num_free_blocks, ref_count, claim, allocate, pop_free_block,
}
use token_sim.Block.Allocator.Consistency.{IsConserved}
use token_sim.Block.Allocator.Moves
use token_sim.Block.Allocator.Moves.{Sets, hold, let_go, fresh, build}

abbrev pub IsAllocator : BlockAllocator → Type 0
IsAllocator a = IsConserved a.memory a.pool

-- What `claim` does to a block that nobody references.
module _ (b : PhysicalTokenBlock) (a : BlockAllocator) (idle : ref_count a b ≡ 0) where
  claim_ok : (claim b a).0 ≡ ok b
  unfolding claim
  claim_ok = ground arith

  claim-Sets : Sets a.memory b 1 (claim b a).1.memory
  unfolding claim
  claim-Sets i = ground arith

  claim_next : (claim b a).1.memory.next ≡ a.memory.next
  unfolding claim
  claim_next = ground arith

  claim_pool : (claim b a).1.pool ≡ a.pool
  unfolding claim
  claim_pool = ground arith

-- The outcomes of `allocate`.
pub data Allocates (a : BlockAllocator) : Outcome PhysicalTokenBlock × BlockAllocator → Type 0 where
  full : get_num_free_blocks a ≡ 0 → Allocates a (raise out_of_blocks_error, a)
  taken :
      {a' : BlockAllocator} (b : PhysicalTokenBlock)
      → IsAllocator a'
      → get b.block_number a'.pool.materialized ≡ some b
      → ref_count a' b ≡ 1
      → ((i : ℕ) → i ≢ b.ident → (a'.memory.cell i).ref_count ≡ (a.memory.cell i).ref_count)
      → get_num_free_blocks a' + 1 ≡ get_num_free_blocks a
      → Allocates a (ok b, a')

pair_ok :
    (r : Outcome PhysicalTokenBlock × BlockAllocator) (b : PhysicalTokenBlock)
    → r.0 ≡ ok b
    → r ≡ (ok b, r.1)
pair_ok r b e = λ i. (e i, r.1)

-- `claim` on the state `s` that a pop in state `a` has left.
claim-Allocates :
    (a s : BlockAllocator) (b : PhysicalTokenBlock)
    → ref_count s b ≡ 0
    → ((i : ℕ) → i ≢ b.ident → (s.memory.cell i).ref_count ≡ (a.memory.cell i).ref_count)
    → ((m : Memory) → Sets s.memory b 1 m → m.next ≡ s.memory.next → IsConserved m s.pool)
    → get b.block_number s.pool.materialized ≡ some b
    → get_num_free_blocks s + 1 ≡ get_num_free_blocks a
    → Allocates a (claim b s)
claim-Allocates a s b idle frame keep mine count = rw (pair_ok (claim b s) b (claim_ok b s idle)) (
    taken b (rw (claim_pool b s idle) (keep _ (claim-Sets b s idle) (claim_next b s idle)))
      (rw (claim_pool b s idle) mine) (ground (arith, claim-Sets b s idle b.ident))
      (λ i ne. ground (arith, claim-Sets b s idle i, frame i ne)) (rw (claim_pool b s idle) count))

module _ (a : BlockAllocator) (c : IsAllocator a) where
  after_fresh : BlockAllocator
  after_fresh = record a {
    memory = (new_block a.pool.device a.pool.next_fresh a.pool.block_size a.memory).1;
    pool = Moves.grown a.memory a.pool c;
  }

  pop_fresh :
      a.pool.next_fresh < a.pool.num_blocks
      → pop_free_block a ≡ (ok (fresh a.memory a.pool c), after_fresh)
  unfolding pop_free_block Pool.pop_free_block new_block after_fresh
  pop_fresh room = ground arith

  fresh-Allocates :
      a.pool.next_fresh < a.pool.num_blocks → Allocates a ((pop_free_block >>= claim) a)
  unfolding new_block after_fresh
  fresh-Allocates room = rw (pop_fresh room) (
      claim-Allocates a after_fresh (fresh a.memory a.pool c) (ground arith) (λ i ne. ground arith)
        (λ m sets next. build a.memory a.pool c m room (λ i. ground (arith, sets i)) (omega arith))
        (get-put_self a.pool.next_fresh (fresh a.memory a.pool c) a.pool.materialized)
        (omega arith))

  pop_queued :
      a.pool.num_blocks ≤ a.pool.next_fresh
      → pop_free_block a ≡ (
        (popleft a.pool.free_blocks).0,
        record a { pool = record a.pool { free_blocks = (popleft a.pool.free_blocks).1 } },
      )
  unfolding pop_free_block Pool.pop_free_block
  pop_queued none_fresh = ground arith

  queued-Allocates :
      {r : Outcome PhysicalTokenBlock × FreeBlockQueue}
      → a.pool.num_blocks ≤ a.pool.next_fresh
      → 0 < get_num_free_blocks a
      → Pops a.pool.free_blocks r
      → Allocates a (continue r.0 claim (record a { pool = record a.pool { free_blocks = r.1 } }))
  queued-Allocates none_fresh some_free (Order.empty all_empty _ _) =
      absurd (omega (arith, c.queue.tracks.counted, ap length all_empty))
  queued-Allocates none_fresh some_free (Order.first {r = q} e _ entries found queue) =
      let (mine, idle) = c.idle e.block.block_number e found in
      claim-Allocates a (record a { pool = record a.pool { free_blocks = q } }) e.block idle
        (λ i ne. refl)
        (λ m sets next.
          hold a.memory a.pool e.block c 1 m q mine (omega arith) sets next queue (λ n.
            ap (get n) entries
            ∙ get-remove e.block.block_number n a.pool.free_blocks.entries c.queue.tracks.distinct))
        mine
        (omega (
          arith,
          ap length entries,
          length-remove e.block.block_number e a.pool.free_blocks.entries found,
        ))

  popped-Allocates :
      a.pool.num_blocks ≤ a.pool.next_fresh
      → 0 < get_num_free_blocks a
      → Allocates a ((pop_free_block >>= claim) a)
  popped-Allocates none_fresh some_free =
      rw (pop_queued none_fresh)
        (queued-Allocates none_fresh some_free (popleft-Pops a.pool.free_blocks c.queue))

-- `allocate` raises exactly where no block is free; otherwise it returns a block that nobody else
-- references.
pub allocate-Allocates : (a : BlockAllocator) → IsAllocator a → Allocates a (allocate a)
unfolding allocate
allocate-Allocates a c = elim (Bool-cases (get_num_free_blocks a == 0)) [
  | inl z ↦ rw z (full (ground arith))
  | inr nz ↦ rw nz (elim (Bool-cases (ltb a.pool.next_fresh a.pool.num_blocks)) [
    | inl t ↦ fresh-Allocates a c (ground arith)
    | inr f ↦ popped-Allocates a c (ground arith) (ground arith)
  ])
]

-- What a returned block is.
pub allocate_ok :
    (a : BlockAllocator) (b : PhysicalTokenBlock)
    → IsAllocator a
    → (allocate a).0 ≡ ok b
    → IsAllocator (allocate a).1
      × (get b.block_number (allocate a).1.pool.materialized ≡ some b)
      × (ref_count (allocate a).1 b ≡ 1)
allocate_ok a b c e = of (allocate a) (allocate-Allocates a c) e
  where
    of :
        (r : Outcome PhysicalTokenBlock × BlockAllocator)
        → Allocates a r
        → r.0 ≡ ok b
        → IsAllocator r.1
          × (get b.block_number r.1.pool.materialized ≡ some b)
          × (ref_count r.1 b ≡ 1)
    of _ (full _) e = absurd (ground (arith, e))
    of _ (taken {a'} x d m r _ _) e =
        let same : x ≡ b = ground (arith, e) in
        subst
          (λ y.
            IsAllocator a'
            × (get y.block_number a'.pool.materialized ≡ some y)
            × (ref_count a' y ≡ 1))
          same (d, m, r)
