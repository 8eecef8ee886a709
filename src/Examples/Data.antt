-- ===== src/Examples/Data.antt =====
-- Concrete objects for the examples.
use token_sim.Prelude.{true, false, none, some, [], ◌∷◌}
use token_sim.Block.Physical.{Memory, initial, gpu, PhysicalTokenBlock}
use token_sim.Block.Pool
use token_sim.Block.Allocator.{BlockAllocator, KvCacheManager}
use token_sim.Block.PrefixCache.{Hashes, ChainCache, text}
use token_sim.Request.{Request, AdmissionFields, waiting}

abbrev pub memory : Memory
memory = record { cell = λ _. initial; next = 0 }

abbrev pub manager : KvCacheManager
manager = record {
  block_size = 4;
  model = "llama";
  cache = [];
  access_counter = 0;
  input_keys_cache = [];
}

abbrev pub allocator : BlockAllocator
allocator = record { memory = memory; pool = Pool.init gpu 4 2; kv = manager; has_manager = true }

-- The first two blocks that the allocator builds.
abbrev pub first : PhysicalTokenBlock
first = record { device = gpu; block_number = 0; block_size = 4; ident = 0 }

abbrev pub second : PhysicalTokenBlock
second = record { device = gpu; block_number = 1; block_size = 4; ident = 1 }

-- The chain cache before any request, and hash functions that keep what they are given.
abbrev pub chains : ChainCache
chains = record { scope_limit = 8; chain_limit = 4; scopes = [] }

abbrev pub hashes : Hashes
hashes = record {
  sha256 = λ s. s;
  quote = λ s. s;
  concat = λ ss. elim ss [ [] ↦ "" | s ∷ _ ↦ s ];
  dump_extra = λ model _ _. model;
  dump_root = λ s. s;
  str_int = λ _. "0";
}

abbrev pub admission : AdmissionFields
admission = record {
  status = waiting;
  num_computed_tokens = 0;
  scheduled_tokens = 0;
  scheduled_query_tokens = 0;
  scheduled_placeholder_tokens = 0;
  recompute_tokens = 0;
  cached_prefill_blocks = 0;
  cached_prefill_tokens = 0;
  gpu_cached_prefill_tokens = 0;
  external_cached_prefill_tokens = 0;
  gpu_cached_context_tokens = 0;
  external_cached_context_tokens = 0;
  effective_prefill_tokens = 0;
  reuse_hit_blocks = 0;
  reuse_miss_blocks = 0;
  input_cache_keys = [];
  input_cache_committed = false;
  first_prefill_source = none;
  prefill_admission_count = 0;
  reloaded_gpu_tokens = 0;
  reloaded_cpu_tokens = 0;
  reloaded_generated_gpu_tokens = 0;
  reloaded_generated_cpu_tokens = 0;
}

-- A request with a prompt of ten tokens and three to decode, at its arrival.
abbrev pub prompt : Request
prompt = record {
  id = 7;
  prefill_len = 10;
  decode_len = 3;
  block_size = 4;
  hash_ids = text "a" ∷ text "b" ∷ [];
  output_hash_ids = [];
  cache_salt = none;
  reuse_group = none;
  admission = admission;
  timing = record {
    arrival_at = some 5;
    completed_at = none;
    last_event_at = 5;
    total_time = 0;
    prefill_latency = 0;
    decode_time_sum = 0;
    decode_time_max = 0;
    prefill_service_time = 0;
    decode_service_time_sum = 0;
    recompute_service_time = 0;
    prefill_batch_size = 0;
    decode_batch_sum = 0;
  };
  generation_idx = 0;
  needs_recompute = false;
  recomputation_count = 0;
  recomputed_tokens_total = 0;
  scheduled_accepted_tokens = 0;
  decode_round = 0;
  prefill_chunk_pending = false;
  prefill_chunks = 0;
  max_model_len = some 32;
  cancel_requested = false;
  cancel_requested_at = none;
  cancelled_at = none;
  owner_worker_ids = 1 ∷ 2 ∷ [];
  cancel_pending_worker_ids = [];
  completion_event = some false;
  cancellation_event = none;
  physical_token_blocks = [];
  logical_tokens = 10;
}

-- The request when its first token has been decoded.
abbrev pub decoding : Request
decoding = record prompt { generation_idx = 1; logical_tokens = 11 }

-- The request when a cancellation waits for two workers.
abbrev pub cancelling : Request
cancelling = record prompt {
  cancel_requested = true;
  cancel_requested_at = some 9;
  cancel_pending_worker_ids = 1 ∷ 2 ∷ [];
}
