-- ===== src/Examples/Blocks.antt =====
-- The block memory at concrete inputs.
use token_sim.Prelude.{
  List, ◌≡◌, refl, none, some, [], ◌∷◌, arith, ◌+◌, if◌then◌else◌, ◌==◌, nat_eq, ◌<◌,
}
use token_sim.Errors.{ok}
use token_sim.Block.FreeQueue
use token_sim.Block.FreeQueue.{FreeBlockQueue}
use token_sim.Block.FreeQueue.Age.{Queued}
use token_sim.Block.FreeQueue.Run.{
  Reaches, created, appended, appended_lru, popped, Serves, Reaches-popleft,
}
use token_sim.Block.Allocator
use token_sim.Block.Pool
use token_sim.Prelude.Dict.{get}
use token_sim.Block.Allocator.{BlockAllocator, ref_count, get_num_free_blocks}
use token_sim.Block.Allocator.Consistency.{init-IsConserved}
use token_sim.Block.Allocator.Calls.{IsAllocator, Allocates, allocate-Allocates, allocate_ok}
use token_sim.Block.Allocator.References.{acquire_lem, free_lem}
use token_sim.Block.PrefixCache.{build_prefix_keys, text, common_prefix}
use token_sim.Block.PrefixCache.CommonPrefix.{IsLongestPrefix, common_prefix-IsLongestPrefix}
use token_sim.Block.PrefixCache.Reuse.{IsSound, build_prefix_keys-rebuilt, rebuilt_keys}
use token_sim.Examples.Data.{allocator, memory, first, second, chains, hashes}

-- A cached block, then an uncached one, and the uncached one handed out again.
abbrev two_queued : FreeBlockQueue
two_queued = FreeQueue.append first (FreeQueue.append_lru memory second FreeQueue.empty)

abbrev cached_queued : FreeBlockQueue
cached_queued = FreeQueue.append_lru memory first (FreeQueue.popleft two_queued).1

abbrev queued_log : List Queued
queued_log = record { block = first; stamp = 0 } ∷ record { block = second; stamp = 0 } ∷ []

cached_queued-Reaches : Reaches queued_log cached_queued
cached_queued-Reaches =
    appended_lru memory first (popped (appended first (appended_lru memory second created)))

Reaches-popleft_example : Serves queued_log cached_queued (FreeQueue.popleft cached_queued)
Reaches-popleft_example = Reaches-popleft cached_queued-Reaches

allocator-IsAllocator : IsAllocator allocator
allocator-IsAllocator = init-IsConserved memory _ 4 2

allocate-Allocates_example : Allocates allocator (Allocator.allocate allocator)
allocate-Allocates_example = allocate-Allocates allocator allocator-IsAllocator

abbrev held : BlockAllocator
held = (Allocator.allocate allocator).1

allocated : (Allocator.allocate allocator).0 ≡ ok first
unfolding Allocator.allocate Pool.pop_free_block
allocated = refl

acquire_lem_example :
    ((Allocator.acquire first held).0 ≡ ok tt)
    × IsAllocator (Allocator.acquire first held).1
    × (ref_count (Allocator.acquire first held).1 first ≡ ref_count held first + 1)
    × (get_num_free_blocks (Allocator.acquire first held).1
          + (if ref_count held first == 0 then 1 else 0)
        ≡ get_num_free_blocks held)
acquire_lem_example =
    acquire_lem first held (allocate_ok allocator first allocator-IsAllocator allocated).0
      (allocate_ok allocator first allocator-IsAllocator allocated).1

free_lem_example :
    ((Allocator.free first held).0 ≡ ok tt)
    × IsAllocator (Allocator.free first held).1
    × (ref_count (Allocator.free first held).1 first + 1 ≡ ref_count held first)
    × (get_num_free_blocks (Allocator.free first held).1
        ≡ get_num_free_blocks held + (if ref_count held first == 1 then 1 else 0))
free_lem_example =
    free_lem first held (allocate_ok allocator first allocator-IsAllocator allocated).0
      (allocate_ok allocator first allocator-IsAllocator allocated).1 some_reference
  where
    some_reference : 0 < ref_count held first
    some_reference = omega (arith, (allocate_ok allocator first allocator-IsAllocator allocated).2)

chains-IsSound : IsSound hashes chains
unfolding get
chains-IsSound = record { distinct = tt; chains = λ extra cs e. absurd (cc e) }

build_prefix_keys-rebuilt_example :
    ((build_prefix_keys hashes (text "a" ∷ text "b" ∷ []) "llama" none (some "g") chains).0
      ≡ rebuilt_keys hashes (text "a" ∷ text "b" ∷ []) "llama" none (some "g"))
    × IsSound hashes
        (build_prefix_keys hashes (text "a" ∷ text "b" ∷ []) "llama" none (some "g") chains).1
build_prefix_keys-rebuilt_example =
    build_prefix_keys-rebuilt hashes (text "a" ∷ text "b" ∷ []) "llama" none (some "g") chains
      chains-IsSound

common_prefix-IsLongestPrefix_example :
    IsLongestPrefix
      ("a" ∷ "b" ∷ "c" ∷ [])
      ("a" ∷ "b" ∷ "d" ∷ [])
      (common_prefix ("a" ∷ "b" ∷ "c" ∷ []) ("a" ∷ "b" ∷ "d" ∷ []))
common_prefix-IsLongestPrefix_example =
    common_prefix-IsLongestPrefix ("a" ∷ "b" ∷ "c" ∷ []) ("a" ∷ "b" ∷ "d" ∷ [])
