-- ===== src/Block/Allocator/Consistency.antt =====
-- What holds of an allocator between two calls, and the effect of cache bookkeeping on references.
use token_sim.Prelude.{ℕ, ◌≤◌, ◌<◌, ◌≡◌, refl, none, some, arith, nat_eq}
use token_sim.Prelude.Dict.{get}
use token_sim.Block.Physical.{PhysicalTokenBlock, Memory, read, Device, clear_cache_metadata}
use token_sim.Block.FreeQueue.{Entry}
use token_sim.Block.FreeQueue.Live
use token_sim.Block.Pool.{BlockPool, init}
use token_sim.Block.Allocator.{BlockAllocator, touch, evict}

-- Of a pool over a memory: the queue holds exactly the built blocks that nobody references.
pub record IsConserved (m : Memory) (p : BlockPool) : Type 0 where
  pub queue : Live.IsConsistent p.free_blocks
  pub fresh_le : p.next_fresh ≤ p.num_blocks
  pub owned :
      (n : ℕ) (b : PhysicalTokenBlock)
      → get n p.materialized ≡ some b
      → (b.block_number ≡ n) × (n < p.next_fresh) × (b.ident < m.next) × (b.device ≡ p.device)
  pub apart :
      (i j : ℕ) (b c : PhysicalTokenBlock)
      → get i p.materialized ≡ some b
      → get j p.materialized ≡ some c
      → b.ident ≡ c.ident
      → i ≡ j
  pub idle :
      (n : ℕ) (e : Entry)
      → get n p.free_blocks.entries ≡ some e
      → (get n p.materialized ≡ some e.block) × ((read m e.block).ref_count ≡ 0)
  pub held :
      (n : ℕ) (b : PhysicalTokenBlock)
      → get n p.materialized ≡ some b
      → get n p.free_blocks.entries ≡ none
      → 0 < (read m b).ref_count

-- Two memories with the same reference counts and the same objects.
pub record SameRefs (m m' : Memory) : Type 0 where
  pub refs : (i : ℕ) → (m'.cell i).ref_count ≡ (m.cell i).ref_count
  pub next : m'.next ≡ m.next

pub SameRefs-IsConserved :
    (m m' : Memory) (p : BlockPool) → SameRefs m m' → IsConserved m p → IsConserved m' p
SameRefs-IsConserved m m' p s c = record {
  queue = c.queue;
  fresh_le = c.fresh_le;
  owned = λ n b h. let (x, y, z, w) = c.owned n b h in (x, y, rw s.next z, w);
  apart = c.apart;
  idle = λ n e h. let (x, y) = c.idle n e h in (x, rw (s.refs e.block.ident) y);
  held = λ n b h g. rw (s.refs b.ident) (c.held n b h g);
}

pub SameRefs-clear : (b : PhysicalTokenBlock) (m : Memory) → SameRefs m (clear_cache_metadata b m)
unfolding clear_cache_metadata
SameRefs-clear b m = record { refs = λ i. ground arith; next = refl }

pub SameRefs-touch :
    (b : PhysicalTokenBlock) (a : BlockAllocator) → SameRefs a.memory (touch b a).memory
unfolding touch
SameRefs-touch b a = record { refs = λ i. ground arith; next = refl }

pub SameRefs-evict :
    (b : PhysicalTokenBlock) (a : BlockAllocator) → SameRefs a.memory (evict b a).memory
unfolding evict
SameRefs-evict b a = record { refs = λ i. ground arith; next = refl }

-- A new pool owns no block and queues none.
pub init-IsConserved :
    (m : Memory) (d : Device) (block_size num_blocks : ℕ)
    → IsConserved m (init d block_size num_blocks)
unfolding get
init-IsConserved m d block_size num_blocks = record {
  queue = Live.empty-IsConsistent;
  fresh_le = omega arith;
  owned = λ n b e. absurd (cc e);
  apart = λ i j b c e. absurd (cc e);
  idle = λ n e g. absurd (cc g);
  held = λ n b e. absurd (cc e);
}
