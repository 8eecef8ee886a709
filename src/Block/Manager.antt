-- ===== src/Block/Manager.antt =====
-- `BlockManager` of TokenSim/block/block_manager.py: uniform paged KV blocks with prefix reuse and host
-- swap space. The manager, its two allocators, the cache index, the memory of block objects and the
-- process-wide chain cache are one state; a method that also writes to a request returns the request.
use token_sim.Prelude.{
  ℕ, zero, suc, ◌+◌, Bool, true, false, not, ◌&&◌, Option, none, some, List, [], ◌∷◌, ◌++◌, ltb,
  leb, ◌==◌, if◌then◌else◌, length, take, nat_eq, String,
}
use mathlib.Core.List.{reverse}
use token_sim.Errors.{
  Outcome, ok, raise, Action, continue, ◌>>=◌, throw, simulation_state_error, out_of_blocks_error,
  index_error, Error,
}
use token_sim.Block.Physical.{
  Device, gpu, cpu, device_eq, PhysicalTokenBlock, Memory, read, write, PrefixCacheKey, initial,
}
use token_sim.Block.PrefixCache.{Hashes, ChainCache}
use token_sim.Block.Pool
use token_sim.Block.Pool.{BlockPool}
use token_sim.Block.Allocator
use token_sim.Block.Allocator.{BlockAllocator, KvCacheManager, get_num_free_blocks}
use token_sim.Block.Table.{
  BlockTable, get_blocks, get_num_blocks, add_blocks, add_block, pop_blocks, set_blocks,
  pop_last_block,
}
use token_sim.Block.CacheManager.{
  PrefixReusePlan, plan_reuse, apply_plan, register_blocks, register_output_blocks, forget_request,
  miss_block_count, hit_block_count, zero_ref_hit_blocks, is_empty,
}
use token_sim.Request.{Request, or_else, num_logical_token_blocks, num_physical_token_blocks}

pub record BlockManager : Type 0 where
  pub block_size : ℕ
  pub num_total_gpu_blocks : ℕ
  pub num_total_cpu_blocks : ℕ
  pub watermark_blocks : ℕ
  pub reserved_gpu_blocks : List PhysicalTokenBlock
  pub block_table : BlockTable
  pub kv : KvCacheManager
  pub memory : Memory
  pub gpu_pool : BlockPool
  pub cpu_pool : BlockPool
  pub chains : ChainCache

-- The two `BlockAllocator` objects, over the shared state.
abbrev pub allocator : Device → BlockManager → BlockAllocator
allocator gpu s = record { memory = s.memory; pool = s.gpu_pool; kv = s.kv; has_manager = true }
allocator cpu s = record { memory = s.memory; pool = s.cpu_pool; kv = s.kv; has_manager = false }

abbrev pub put_back : Device → BlockAllocator → BlockManager → BlockManager
put_back gpu a s = record s { memory = a.memory; gpu_pool = a.pool; kv = a.kv }
put_back cpu a s = record s { memory = a.memory; cpu_pool = a.pool; kv = a.kv }

-- A call of one allocator's method.
unfoldable pub on {ℓ} : {A : Type ℓ} → Device → Action BlockAllocator A → Action BlockManager A
on d m s = let (r, a) = m (allocator d s) in (r, put_back d a s)

-- `BlockManager(block_size, num_gpu_blocks, num_cpu_blocks, model, watermark)`, with the product of the
-- watermark ratio and the block count already rounded down.
abbrev pub init : ℕ → ℕ → ℕ → String → ℕ → ChainCache → BlockManager
init block_size num_gpu_blocks num_cpu_blocks model watermark_blocks chains = record {
  block_size = block_size;
  num_total_gpu_blocks = num_gpu_blocks;
  num_total_cpu_blocks = num_cpu_blocks;
  watermark_blocks = watermark_blocks;
  reserved_gpu_blocks = [];
  block_table = [];
  kv = record {
    block_size = block_size;
    model = model;
    cache = [];
    access_counter = 0;
    input_keys_cache = [];
  };
  memory = record { cell = λ _. initial; next = 0 };
  gpu_pool = Pool.init gpu block_size num_gpu_blocks;
  cpu_pool = Pool.init cpu block_size num_cpu_blocks;
  chains = chains;
}

abbrev pub num_free : Device → BlockManager → ℕ
num_free d s = get_num_free_blocks (allocator d s)

-- `_free_block`
abbrev pub free_block : PhysicalTokenBlock → Action BlockManager (Unit {0})
free_block b = on b.device (Allocator.free b)

-- `for block in blocks: self._free_block(block)`
unfoldable pub free_blocks : List PhysicalTokenBlock → Action BlockManager (Unit {0})
unfolding on
free_blocks [] s = (ok tt, s)
free_blocks (b ∷ bs) s = let (r, s') = free_block b s in continue r (λ _. free_blocks bs) s'

-- `for _ in range(count): blocks.append(allocator.allocate())`. On a raise the blocks taken so far come
-- back, newest first, for the handler.
unfoldable pub allocate_many :
    Device
    → ℕ
    → List PhysicalTokenBlock
    → BlockManager
    → (Option Error × List PhysicalTokenBlock) × BlockManager
unfolding on
allocate_many d zero taken s = ((none, taken), s)
allocate_many d (suc count) taken s =
    let (r, s') = on d Allocator.allocate s in
    elim r [ ok b ↦ allocate_many d count (b ∷ taken) s' | raise e ↦ ((some e, taken), s') ]

-- `for block in blocks: allocator.acquire(block); acquired.append(block)`, the same way.
unfoldable pub acquire_many :
    (PhysicalTokenBlock → Device)
    → List PhysicalTokenBlock
    → List PhysicalTokenBlock
    → BlockManager
    → (Option Error × List PhysicalTokenBlock) × BlockManager
unfolding on
acquire_many device [] taken s = ((none, taken), s)
acquire_many device (b ∷ bs) taken s =
    let (r, s') = on (device b) (Allocator.acquire b) s in
    elim r [ ok _ ↦ acquire_many device bs (b ∷ taken) s' | raise e ↦ ((some e, taken), s') ]

-- `except Exception: for block in reversed(blocks): free(block); raise`; a raise of the handler itself
-- replaces the error.
unfoldable pub or_roll_back :
    (Option Error × List PhysicalTokenBlock) × BlockManager
    → Outcome (List PhysicalTokenBlock) × BlockManager
unfolding free_blocks
or_roll_back ((none, taken), s) = (ok (reverse taken), s)
or_roll_back ((some e, taken), s) =
    let (r, s') = free_blocks taken s in continue r (λ _. throw e) s'

-- The `try` of `BlockManager.allocate`: the hits are acquired and the misses allocated.
unfoldable pub take_blocks :
    List PhysicalTokenBlock → ℕ → BlockManager → Outcome (List PhysicalTokenBlock) × BlockManager
unfolding acquire_many allocate_many or_roll_back
take_blocks hits misses s =
    let ((failed, taken), s') = acquire_many (λ _. gpu) hits [] s in
    or_roll_back
      (elim failed [ some e ↦ ((some e, taken), s') | none ↦ allocate_many gpu misses taken s' ])

-- `_sync_request_blocks`
abbrev pub sync_request_blocks : List PhysicalTokenBlock → Request → Request
sync_request_blocks blocks req = record req { physical_token_blocks = blocks }

-- The `for` of `_mark_input_blocks_pending`, from `index` on.
unfoldable pub mark_pending :
    ℕ → ℕ → List PrefixCacheKey → List PhysicalTokenBlock → Memory → Memory
mark_pending hits index [] blocks m = m
mark_pending hits index (key ∷ keys) [] m = m
mark_pending hits index (key ∷ keys) (b ∷ bs) m = mark_pending hits (index + 1) keys bs (
    if ltb index hits
    then m
    else write m b (record (read m b) { block_hash = some key; is_full = true; cached = false }))

module _ (hashes : Hashes) where
  -- `self.kv_cache_manager.plan_reuse(req)`
  unfoldable pub plan : Request → BlockManager → PrefixReusePlan × BlockManager
  unfolding plan_reuse
  plan req s =
      let (p, c) = plan_reuse hashes s.memory req (s.kv, s.chains) in
      (p, record s { kv = c.0; chains = c.1 })

  -- The test of `can_allocate`; a negative difference is below any watermark.
  unfoldable pub can_allocate : Request → BlockManager → Bool × BlockManager
  unfolding plan
  can_allocate req s =
      let (p, s') = plan req s in
      (
        leb (s.watermark_blocks + miss_block_count p + zero_ref_hit_blocks s'.memory p)
            (num_free gpu s'),
        s',
      )

  unfoldable pub allocate : Request → BlockManager → Outcome Request × BlockManager
  unfolding plan take_blocks apply_plan mark_pending
  allocate req s =
      let (p, s1) = plan req s in
      let (r, s2) = take_blocks p.hit_blocks (miss_block_count p) s1 in
      if ltb 0 (get_num_blocks req.id s.block_table)
      then (raise simulation_state_error, s)
      else continue r
          (λ blocks s. (
            ok (sync_request_blocks blocks (apply_plan p req)),
            record s {
              block_table = add_blocks req.id blocks s.block_table;
              memory = mark_pending (hit_block_count p) 0 p.input_keys blocks s.memory;
            },
          ))
          s2

  -- `_commit_input_cache`
  unfoldable pub commit_input_cache : Request → BlockManager → Request × BlockManager
  unfolding register_blocks
  commit_input_cache req s =
      let a =
        register_blocks (take (length req.input_cache_keys) (get_blocks req.id s.block_table))
          req.input_cache_keys (allocator gpu s) in
      if req.input_cache_committed then (req, s) else (
        record req { admission = record req.admission { input_cache_committed = true } },
        put_back gpu a s,
      )

  unfoldable pub commit_finished_cache : Request → BlockManager → Request × BlockManager
  unfolding commit_input_cache register_output_blocks
  commit_finished_cache req s =
      let (req', s') = commit_input_cache req s in
      let (a, chains) =
        register_output_blocks hashes req' (get_blocks req'.id s'.block_table)
          (allocator gpu s', s'.chains) in
      (req', record (put_back gpu a s') { chains = chains })

-- `pop_blocks(req.id) or list(req._physical_token_blocks)`
abbrev pub or_physical : List PhysicalTokenBlock → Request → List PhysicalTokenBlock
or_physical [] req = req.physical_token_blocks
or_physical (b ∷ bs) req = b ∷ bs

unfoldable pub release_request_blocks : Request → BlockManager → Outcome Request × BlockManager
unfolding free_blocks forget_request
release_request_blocks req s =
    let (held, table) = pop_blocks req.id s.block_table in
    let (r, s') = free_blocks (or_physical held req) (record s { block_table = table }) in
    continue r
      (λ _ s. (ok (sync_request_blocks [] req), record s { kv = forget_request req.id s.kv })) s'

unfoldable pub free : Hashes → Request → BlockManager → Outcome Request × BlockManager
unfolding commit_finished_cache release_request_blocks
free hashes req s =
    let (req', s') = commit_finished_cache hashes req s in release_request_blocks req' s'

abbrev pub num_blocks : Request → BlockManager → ℕ
num_blocks req s = or_else (get_num_blocks req.id s.block_table) (num_physical_token_blocks req)

abbrev pub needs_block : Request → BlockManager → Bool
needs_block req s = ltb (get_num_blocks req.id s.block_table) (num_logical_token_blocks req)

abbrev pub can_append_slot : Request → ℕ → BlockManager → Bool
can_append_slot req reserved_blocks s =
    leb ((if needs_block req s then 1 else 0) + reserved_blocks) (num_free gpu s)

unfoldable pub append_slot : Request → BlockManager → Outcome Request × BlockManager
unfolding on
append_slot req s =
    if needs_block req s
    then (on gpu Allocator.allocate >>= λ b s'. (
      ok (record req { physical_token_blocks = req.physical_token_blocks ++ b ∷ [] }),
      record s' { block_table = add_block req.id b s'.block_table },
    ))
        s
    else (ok req, s)

unfoldable pub rollback_last_block : Request → BlockManager → Outcome Request × BlockManager
unfolding on pop_last_block
rollback_last_block req s =
    let (popped, table) = pop_last_block req.id s.block_table in
    elim popped [
      | none ↦ (ok req, s)
      | some b ↦
          (free_block b >>= λ _ s'.
          (ok (sync_request_blocks (get_blocks req.id s'.block_table) req), s'))
            (record s { block_table = table })
    ]

unfoldable pub fork : Request → Request → BlockManager → Outcome Request × BlockManager
unfolding acquire_many or_roll_back
fork parent child s =
    let parent_blocks = get_blocks parent.id s.block_table in
    let (r, s') = or_roll_back (acquire_many (λ b. b.device) parent_blocks [] s) in
    if ltb 0 (get_num_blocks child.id s.block_table)
    then (raise simulation_state_error, s)
    else if is_empty parent_blocks
    then (raise simulation_state_error, s)
    else continue r
        (λ acquired s. (
          ok (sync_request_blocks acquired child),
          record s { block_table = add_blocks child.id acquired s.block_table },
        ))
        s'

abbrev pub can_swap : Device → Request → BlockManager → Bool
can_swap target req s =
    let blocks = get_blocks req.id s.block_table in
    not (is_empty blocks) && leb (length blocks) (num_free target s)

-- `_validate_blocks_device`
abbrev pub all_on : Device → List PhysicalTokenBlock → Bool
all_on d [] = true
all_on d (b ∷ bs) = b.device == d && all_on d bs

-- The loop of `_swap`: a target block for each source block, with its hash and no cache entry.
unfoldable pub copy_blocks :
    Device
    → List PhysicalTokenBlock
    → List PhysicalTokenBlock
    → BlockManager
    → (Option Error × List PhysicalTokenBlock) × BlockManager
unfolding on
copy_blocks target [] taken s = ((none, taken), s)
copy_blocks target (src ∷ rest) taken s =
    let (r, s') = on target Allocator.allocate s in
    elim r [
      | ok b ↦ copy_blocks target rest (b ∷ taken) (record s' {
        memory = write s'.memory b (record (read s'.memory b) {
          block_hash = (read s'.memory src).block_hash;
          is_full = (read s'.memory src).is_full;
          cached = false;
        });
      })
      | raise e ↦ ((some e, taken), s')
    ]

unfoldable pub swap : Device → Device → Request → BlockManager → Outcome Request × BlockManager
unfolding copy_blocks or_roll_back free_blocks
swap source target req s =
    let source_blocks = get_blocks req.id s.block_table in
    let (r, s1) = or_roll_back (copy_blocks target source_blocks [] s) in
    if not (all_on source source_blocks)
    then (raise simulation_state_error, s)
    else if ltb (num_free target s) (length source_blocks)
    then (raise out_of_blocks_error, s)
    else continue r
        (λ target_blocks s2.
          (free_blocks source_blocks >>= λ _ s3. (ok (sync_request_blocks target_blocks req), s3))
            (record s2 { block_table = set_blocks req.id target_blocks s2.block_table }))
        s1

abbrev pub swap_out : Request → BlockManager → Outcome Request × BlockManager
swap_out = swap gpu cpu

abbrev pub swap_in : Request → BlockManager → Outcome Request × BlockManager
swap_in = swap cpu gpu

-- `reserve_gpu_blocks`; its handler frees the blocks in the order of their allocation.
unfoldable pub reserve_gpu_blocks : ℕ → Action BlockManager (Unit {0})
unfolding allocate_many free_blocks
reserve_gpu_blocks num_blocks s =
    let ((failed, taken), s') = allocate_many gpu num_blocks [] s in
    elim failed [
      | none ↦ (ok tt, record s' { reserved_gpu_blocks = s'.reserved_gpu_blocks ++ reverse taken })
      | some e ↦ (free_blocks (reverse taken) >>= λ _. throw e) s'
    ]

-- `for _ in range(num_blocks): free(self._reserved_gpu_blocks.pop(0))`
unfoldable pub release_first : ℕ → Action BlockManager (Unit {0})
unfolding on
release_first zero s = (ok tt, s)
release_first (suc n) s = elim s.reserved_gpu_blocks [
  | [] ↦ (raise index_error, s)
  | b ∷ bs ↦
      let (r, s') = on gpu (Allocator.free b) (record s { reserved_gpu_blocks = bs }) in
      continue r (λ _. release_first n) s'
]

unfoldable pub release_reserved_blocks : Option ℕ → Action BlockManager (Unit {0})
unfolding release_first
release_reserved_blocks requested s =
    let count : ℕ = elim requested [ none ↦ length s.reserved_gpu_blocks | some n ↦ n ] in
    if ltb (length s.reserved_gpu_blocks) count
    then (raise simulation_state_error, s)
    else release_first count s
