-- ===== src/Block/Allocator.antt =====
-- `BlockAllocator` of TokenSim/block/block_manager.py, with the methods of the shared `KVCacheManager`
-- (TokenSim/block/kv_cache_manager.py) that it calls on a block: `evict`, `touch`, `release_block`.
-- The memory of block objects and the manager are shared, so they are part of the state.
pub mod Consistency
pub mod Moves
pub mod Calls
pub mod References
use token_sim.Prelude.{
  ℕ, ◌+◌, ◌-◌, ◌≡◌, Bool, true, false, not, Option, none, some, List, [], ◌∷◌, ltb, ◌==◌,
  if◌then◌else◌, nat_eq, String,
}
use token_sim.Prelude.Dict.{Dict, get, put, remove}
use token_sim.Errors.{
  Outcome, ok, raise, Action, continue, ◌>>=◌, ◌>>◌, pure, throw, gets, modify, out_of_blocks_error,
  simulation_state_error,
}
use token_sim.Block.Physical.{
  PhysicalTokenBlock, Memory, BlockState, read, write, PrefixCacheKey, key_eq, clear_cache_metadata,
}
use token_sim.Block.FreeQueue
use token_sim.Block.Pool
use token_sim.Block.Pool.{BlockPool}

pub record KvCacheManager : Type 0 where
  pub block_size : ℕ
  pub model : String
  pub cache : Dict PrefixCacheKey PhysicalTokenBlock
  pub access_counter : ℕ
  pub input_keys_cache : Dict ℕ (List PrefixCacheKey)

pub record BlockAllocator : Type 0 where
  pub memory : Memory
  pub pool : BlockPool
  -- The shared cache manager, and whether this allocator was given it.
  pub kv : KvCacheManager
  pub has_manager : Bool

abbrev pub get_num_free_blocks : BlockAllocator → ℕ
get_num_free_blocks a = Pool.get_num_free_blocks a.pool

abbrev pub get_num_allocated_blocks : BlockAllocator → ℕ
get_num_allocated_blocks a = a.pool.num_blocks - get_num_free_blocks a

abbrev pub get_status : BlockAllocator → ℕ × ℕ × ℕ
get_status a = (get_num_free_blocks a, get_num_allocated_blocks a, a.pool.num_blocks)

abbrev pub ref_count : BlockAllocator → PhysicalTokenBlock → ℕ
ref_count a b = (read a.memory b).ref_count

abbrev pub set_ref_count : PhysicalTokenBlock → ℕ → Memory → Memory
set_ref_count b n m = write m b (record (read m b) { ref_count = n })

-- `KVCacheManager.touch`
unfoldable pub touch : PhysicalTokenBlock → BlockAllocator → BlockAllocator
touch b a = record a {
  kv = record a.kv { access_counter = a.kv.access_counter + 1 };
  memory = write a.memory b (record (read a.memory b) { last_accessed = a.kv.access_counter + 1 });
}

-- `self._cache.get(key) is block`
abbrev pub indexes : KvCacheManager → PrefixCacheKey → PhysicalTokenBlock → Bool
indexes kv key b = elim (get key kv.cache) [ none ↦ false | some c ↦ c.ident == b.ident ]

abbrev pub unindex : Option PrefixCacheKey → PhysicalTokenBlock → KvCacheManager → KvCacheManager
unindex none b kv = kv
unindex (some key) b kv = if indexes kv key b then record kv { cache = remove key kv.cache } else kv

-- `KVCacheManager.evict`
unfoldable pub evict : PhysicalTokenBlock → BlockAllocator → BlockAllocator
unfolding clear_cache_metadata
evict b a = record a {
  kv = unindex (read a.memory b).block_hash b a.kv;
  memory = clear_cache_metadata b a.memory;
}

-- The pop of `allocate` on the shared state.
unfoldable pub pop_free_block : Action BlockAllocator PhysicalTokenBlock
pop_free_block a =
    let (r, mp) = Pool.pop_free_block a.memory a.pool in
    (r, record a { memory = mp.0; pool = mp.1 })

-- What `allocate` does with the popped block.
unfoldable pub claim : PhysicalTokenBlock → Action BlockAllocator PhysicalTokenBlock
unfolding evict clear_cache_metadata
claim b a =
    let a' =
      if (read a.memory b).cached
      then (if a.has_manager
          then evict b a
          else record a { memory = clear_cache_metadata b a.memory })
      else a in
    if ref_count a' b == 0
    then (ok b, record a' { memory = set_ref_count b (ref_count a' b + 1) a'.memory })
    else (raise simulation_state_error, a')

unfoldable pub allocate : Action BlockAllocator PhysicalTokenBlock
unfolding pop_free_block claim
allocate a =
    if get_num_free_blocks a == 0
    then (raise out_of_blocks_error, a)
    else (pop_free_block >>= claim) a

-- `acquire` after `validate_owned`.
unfoldable pub acquire_owned : PhysicalTokenBlock → BlockAllocator → BlockAllocator
unfolding touch
acquire_owned b a =
    let a1 : BlockAllocator =
      if ref_count a b == 0 then record a { pool = Pool.remove_from_free_queue b a.pool } else a in
    let a2 : BlockAllocator = record a1 {
      memory = set_ref_count b (ref_count a1 b + 1) a1.memory;
    } in
    if a2.has_manager then touch b a2 else a2

unfoldable pub acquire : PhysicalTokenBlock → Action BlockAllocator (Unit {0})
unfolding acquire_owned
acquire b a = continue (Pool.validate_owned a.pool b) (λ _. modify (acquire_owned b)) a

-- `KVCacheManager.release_block` on this allocator's free queue.
unfoldable pub release_block : PhysicalTokenBlock → Action BlockAllocator (Unit {0})
unfolding clear_cache_metadata
release_block b a =
    if ref_count a b == 0
    then (raise simulation_state_error, a)
    else let m = set_ref_count b (ref_count a b - 1) a.memory in
      if not ((read m b).ref_count == 0)
      then (ok tt, record a { memory = m })
      else if not (read m b).cached
      then (
        ok tt,
        record a {
          memory = clear_cache_metadata b m;
          pool = record a.pool { free_blocks = FreeQueue.append_unique b a.pool.free_blocks };
        },
      )
      else (
        ok tt,
        record a {
          memory = m;
          pool = record a.pool { free_blocks = FreeQueue.append_lru m b a.pool.free_blocks };
        },
      )

-- The branch of `free` with no cache manager.
unfoldable pub release_plain : PhysicalTokenBlock → Action BlockAllocator (Unit {0})
unfolding clear_cache_metadata
release_plain b a =
    let m = set_ref_count b (ref_count a b - 1) a.memory in
    if not ((read m b).ref_count == 0) then (ok tt, record a { memory = m }) else (
      ok tt,
      record a { memory = clear_cache_metadata b m; pool = Pool.append_free_block b a.pool },
    )

unfoldable pub free_owned : PhysicalTokenBlock → Action BlockAllocator (Unit {0})
unfolding release_block release_plain
free_owned b a =
    if ref_count a b == 0
    then (raise simulation_state_error, a)
    else if a.has_manager
    then release_block b a
    else release_plain b a

-- `free(block)`; its default argument `None` is never used by the program.
unfoldable pub free : PhysicalTokenBlock → Action BlockAllocator (Unit {0})
unfolding free_owned
free b a = continue (Pool.validate_owned a.pool b) (λ _. free_owned b) a

unfoldable pub set_num_free_blocks : ℕ → Action BlockAllocator (Unit {0})
set_num_free_blocks block_num a =
    let (r, mp) = Pool.set_num_free_blocks block_num (a.memory, a.pool) in
    (r, record a { memory = mp.0; pool = mp.1 })
