-- ===== src/Block/CacheManager.antt =====
-- TokenSim/block/kv_cache_manager.py: the prefix-cache index over the blocks of one allocator, whose
-- `evict`, `touch` and `release_block` are in Block/Allocator.antt.
use token_sim.Prelude.{
  ℕ, ◌+◌, ◌-◌, ◌*◌, ◌/◌, ◌%◌, min, Bool, true, false, not, ◌&&◌, ◌||◌, Option, none, some, List, [],
  ◌∷◌, ◌++◌, ltb, leb, ◌==◌, if◌then◌else◌, length, take, drop, nat_eq,
}
use token_sim.Prelude.Dict.{get, put, remove}
use token_sim.Block.Physical.{
  gpu, device_eq, PhysicalTokenBlock, Memory, read, write, PrefixCacheKey, key_eq,
}
use token_sim.Block.PrefixCache.{Hashes, ChainCache, build_prefix_keys}
use token_sim.Block.Allocator.{KvCacheManager, BlockAllocator, evict, touch}
use token_sim.Request.{Request, AdmissionFields, num_logical_token_blocks}

pub record PrefixReusePlan : Type 0 where
  pub request_id : ℕ
  pub hit_blocks : List PhysicalTokenBlock
  pub input_keys : List PrefixCacheKey
  pub full_input_blocks : ℕ
  pub total_logical_blocks : ℕ
  pub has_hash_ids : Bool
  pub hit_tokens : ℕ
  pub effective_prefill_tokens : ℕ

abbrev pub hit_block_count : PrefixReusePlan → ℕ
hit_block_count p = length p.hit_blocks

-- The hits are among the logical blocks and among the full input blocks, so no difference below is
-- negative.
abbrev pub miss_block_count : PrefixReusePlan → ℕ
miss_block_count p = p.total_logical_blocks - hit_block_count p

abbrev pub reuse_miss_blocks : PrefixReusePlan → ℕ
reuse_miss_blocks p = if not p.has_hash_ids then 0 else p.full_input_blocks - hit_block_count p

abbrev pub count_idle : Memory → List PhysicalTokenBlock → ℕ
count_idle m [] = 0
count_idle m (b ∷ bs) = (if (read m b).ref_count == 0 then 1 else 0) + count_idle m bs

abbrev pub zero_ref_hit_blocks : Memory → PrefixReusePlan → ℕ
zero_ref_hit_blocks m p = count_idle m p.hit_blocks

abbrev pub is_gpu_hit : Memory → Option PhysicalTokenBlock → Bool
is_gpu_hit m none = false
is_gpu_hit m (some b) = (read m b).cached && (read m b).is_full && b.device == gpu

-- The blocks of the leading keys that are cached.
unfoldable pub leading_hits :
    Memory → KvCacheManager → List PrefixCacheKey → List PhysicalTokenBlock
leading_hits m kv [] = []
leading_hits m kv (key ∷ keys) = elim (get key kv.cache) [
  | none ↦ []
  | some b ↦ if is_gpu_hit m (some b) then b ∷ leading_hits m kv keys else []
]

abbrev pub is_empty {ℓ} : {A : Type ℓ} → List A → Bool
is_empty [] = true
is_empty (x ∷ xs) = false

module _ (hashes : Hashes) where
  -- `_build_input_keys`, through the keys kept for the request and the process-wide chain cache.
  unfoldable pub build_input_keys :
      Request
      → ℕ
      → KvCacheManager × ChainCache
      → List PrefixCacheKey × (KvCacheManager × ChainCache)
  build_input_keys req full_input_blocks (kv, chains) =
      let built =
        build_prefix_keys hashes (take full_input_blocks req.hash_ids) kv.model req.cache_salt
          req.reuse_group chains in
      let fresh : List PrefixCacheKey × (KvCacheManager × ChainCache) = (
        built.0,
        (record kv { input_keys_cache = put req.id built.0 kv.input_keys_cache }, built.1),
      ) in
      if is_empty req.hash_ids then ([], (kv, chains)) else elim (get req.id kv.input_keys_cache) [
        | none ↦ fresh
        | some keys ↦ if length keys == full_input_blocks then (keys, (kv, chains)) else fresh
      ]

  unfoldable pub plan_reuse :
      Memory
      → Request
      → KvCacheManager × ChainCache
      → PrefixReusePlan × (KvCacheManager × ChainCache)
  unfolding build_input_keys leading_hits
  plan_reuse m req (kv, chains) =
      let full_input_blocks = req.prefill_len / kv.block_size in
      let (input_keys, s) = build_input_keys req full_input_blocks (kv, chains) in
      let hit_blocks = leading_hits m s.0 input_keys in
      (
        record {
          request_id = req.id;
          hit_blocks = hit_blocks;
          input_keys = input_keys;
          full_input_blocks = full_input_blocks;
          total_logical_blocks = num_logical_token_blocks req;
          has_hash_ids = not (is_empty req.hash_ids);
          hit_tokens = length hit_blocks * kv.block_size;
          effective_prefill_tokens = req.prefill_len - length hit_blocks * kv.block_size;
        },
        s,
      )

abbrev pub reuse_metrics : PrefixReusePlan → AdmissionFields → AdmissionFields
reuse_metrics plan a = record a {
  cached_prefill_blocks = hit_block_count plan;
  cached_prefill_tokens = plan.hit_tokens;
  effective_prefill_tokens = plan.effective_prefill_tokens;
  reuse_hit_blocks = hit_block_count plan;
  reuse_miss_blocks = reuse_miss_blocks plan;
}

unfoldable pub apply_plan : PrefixReusePlan → Request → Request
apply_plan plan req = record req {
  admission = record (reuse_metrics plan req.admission) {
    input_cache_keys = plan.input_keys;
    input_cache_committed = false;
  };
}

-- `block.block_hash is not None and block.block_hash != key`
abbrev pub other_hash : Option PrefixCacheKey → PrefixCacheKey → Bool
other_hash none key = false
other_hash (some k) key = not (k == key)

unfoldable pub register_block :
    PhysicalTokenBlock → PrefixCacheKey → BlockAllocator → BlockAllocator
unfolding evict touch
register_block b key a =
    let a1 = if other_hash (read a.memory b).block_hash key then evict b a else a in
    let a2 : BlockAllocator = record a1 {
      memory =
          write a1.memory b
            (record (read a1.memory b) { block_hash = some key; is_full = true; cached = true });
      kv = record a1.kv { cache = put key b a1.kv.cache };
    } in
    touch b a2

-- The loop over `zip(blocks, keys)`.
unfoldable pub register_blocks :
    List PhysicalTokenBlock → List PrefixCacheKey → BlockAllocator → BlockAllocator
unfolding register_block
register_blocks [] keys a = a
register_blocks (b ∷ bs) [] a = a
register_blocks (b ∷ bs) (k ∷ ks) a = register_blocks bs ks (register_block b k a)

module _ (hashes : Hashes) where
  unfoldable pub register_output_blocks :
      Request → List PhysicalTokenBlock → BlockAllocator × ChainCache → BlockAllocator × ChainCache
  unfolding register_blocks
  register_output_blocks req blocks (a, chains) =
      let full_input_blocks = req.prefill_len / a.kv.block_size in
      let output_hash_ids = take (req.decode_len / a.kv.block_size) req.output_hash_ids in
      let input_hash_ids = take full_input_blocks req.hash_ids in
      let (all_keys, chains') =
        build_prefix_keys hashes (input_hash_ids ++ output_hash_ids) a.kv.model req.cache_salt
          req.reuse_group chains in
      let keys = drop (length input_hash_ids) all_keys in
      let output_end = min (full_input_blocks + length keys) (length blocks) in
      if is_empty req.output_hash_ids
        || not (req.prefill_len % a.kv.block_size == 0)
        || ltb (length req.hash_ids) full_input_blocks
        || is_empty output_hash_ids
      then (a, chains)
      else if leb output_end full_input_blocks
      then (a, chains')
      else (
        register_blocks (take (output_end - full_input_blocks) (drop full_input_blocks blocks))
            (take (output_end - full_input_blocks) keys) a,
        chains',
      )

unfoldable pub forget_request : ℕ → KvCacheManager → KvCacheManager
forget_request req_id kv = record kv { input_keys_cache = remove req_id kv.input_keys_cache }
