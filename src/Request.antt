-- ===== src/Request.antt =====
-- `Request` of TokenSim/llm/llm_request.py: the life of one request, in tokens and in time.
-- Times are natural numbers of one tick size and the clock does not run backwards; floating-point
-- rounding is not modelled. The fields that only name a workload's provenance are left out, and so are
-- the expert histograms, which no method of the class reads.
pub mod Steps
pub mod Tokens
pub mod Admission
pub mod Cancel
use token_sim.Prelude.{
  ℕ, zero, suc, ◌+◌, ◌-◌, ◌*◌, ◌/◌, min, max, Bool, true, false, not, ◌&&◌, ◌||◌, Option, none,
  some, String, List, [], ◌∷◌, ltb, leb, ◌==◌, if◌then◌else◌, nat_eq, keep_if, length,
}
use token_sim.Errors.{Outcome, ok, raise, simulation_state_error}
use token_sim.Block.Physical.{PhysicalTokenBlock, PrefixCacheKey}
use token_sim.Block.PrefixCache.{HashId}

pub data RequestStatus : Type 0 where
  waiting running waiting_for_kv waiting_for_connector_free : RequestStatus
  finished_stopped finished_length_capped cancel_pending finished_cancelled : RequestStatus

pub record PrefillSourceStats : Type 0 where
  pub input_tokens : ℕ
  pub gpu_hit_tokens : ℕ
  pub cpu_hit_tokens : ℕ

abbrev pub computed_tokens : PrefillSourceStats → ℕ
computed_tokens s = s.input_tokens - s.gpu_hit_tokens - s.cpu_hit_tokens

-- What an admission writes: `_ADMISSION_FIELDS`.
pub record AdmissionFields : Type 0 where
  pub status : RequestStatus
  pub num_computed_tokens : ℕ
  pub scheduled_tokens : ℕ
  pub scheduled_query_tokens : ℕ
  pub scheduled_placeholder_tokens : ℕ
  pub recompute_tokens : ℕ
  pub cached_prefill_blocks : ℕ
  pub cached_prefill_tokens : ℕ
  pub gpu_cached_prefill_tokens : ℕ
  pub external_cached_prefill_tokens : ℕ
  pub gpu_cached_context_tokens : ℕ
  pub external_cached_context_tokens : ℕ
  pub effective_prefill_tokens : ℕ
  pub reuse_hit_blocks : ℕ
  pub reuse_miss_blocks : ℕ
  pub input_cache_keys : List PrefixCacheKey
  pub input_cache_committed : Bool
  pub first_prefill_source : Option PrefillSourceStats
  pub prefill_admission_count : ℕ
  pub reloaded_gpu_tokens : ℕ
  pub reloaded_cpu_tokens : ℕ
  pub reloaded_generated_gpu_tokens : ℕ
  pub reloaded_generated_cpu_tokens : ℕ

-- The online timing aggregates, from which `complete_timing` makes a `RequestTime`.
pub record Timing : Type 0 where
  pub arrival_at : Option ℕ
  pub completed_at : Option ℕ
  pub last_event_at : ℕ
  pub total_time : ℕ
  pub prefill_latency : ℕ
  pub decode_time_sum : ℕ
  pub decode_time_max : ℕ
  pub prefill_service_time : ℕ
  pub decode_service_time_sum : ℕ
  pub recompute_service_time : ℕ
  pub prefill_batch_size : ℕ
  pub decode_batch_sum : ℕ

pub record Request : Type 0 where
  pub id : ℕ
  pub prefill_len : ℕ
  pub decode_len : ℕ
  pub block_size : ℕ
  pub hash_ids : List HashId
  pub output_hash_ids : List HashId
  pub cache_salt : Option String
  pub reuse_group : Option String
  pub admission : AdmissionFields
  pub open admission use *
  pub timing : Timing
  pub open timing use *
  pub generation_idx : ℕ
  pub needs_recompute : Bool
  pub recomputation_count : ℕ
  pub recomputed_tokens_total : ℕ
  pub scheduled_accepted_tokens : ℕ
  pub decode_round : ℕ
  pub prefill_chunk_pending : Bool
  pub prefill_chunks : ℕ
  pub max_model_len : Option ℕ
  pub cancel_requested : Bool
  pub cancel_requested_at : Option ℕ
  pub cancelled_at : Option ℕ
  pub owner_worker_ids : List ℕ
  pub cancel_pending_worker_ids : List ℕ
  -- The events of simpy: `None`, or whether the event has been triggered.
  pub completion_event : Option Bool
  pub cancellation_event : Option Bool
  pub physical_token_blocks : List PhysicalTokenBlock
  pub logical_tokens : ℕ

abbrev pub is_prefill : Request → Bool
is_prefill r = r.generation_idx == 0

abbrev pub context_len : Request → ℕ
context_len r = r.prefill_len + r.generation_idx

-- `max_model_len is not None and context_len >= max_model_len`
abbrev pub is_length_capped : Request → Bool
is_length_capped r = elim r.max_model_len [ none ↦ false | some limit ↦ leb limit (context_len r) ]

abbrev pub is_done : Request → Bool
is_done r = not r.cancel_requested && (leb r.decode_len r.generation_idx || is_length_capped r)

abbrev pub remaining_context_tokens : Request → ℕ
remaining_context_tokens r = context_len r - r.num_computed_tokens

abbrev pub is_context_build : Request → Bool
is_context_build r = is_prefill r || r.needs_recompute

abbrev pub is_prompt_prefilling : Request → Bool
is_prompt_prefilling r = is_context_build r && ltb r.num_computed_tokens r.prefill_len

-- Python's `a or b` on numbers.
abbrev pub or_else : ℕ → ℕ → ℕ
or_else a b = if a == 0 then b else a

abbrev pub step_tokens : Request → ℕ
step_tokens r = or_else r.scheduled_tokens (max 1 (remaining_context_tokens r))

abbrev pub query_tokens : Request → ℕ
query_tokens r = or_else r.scheduled_query_tokens (step_tokens r)

abbrev pub decode_graph_eligible : Request → Bool
decode_graph_eligible r =
    not (is_prompt_prefilling r) || (step_tokens r == 1 && ltb 0 r.num_computed_tokens)

abbrev pub logits_tokens : Request → ℕ
logits_tokens r = if is_context_build r then 1 + r.scheduled_placeholder_tokens else query_tokens r

-- `-(-n // d)`, a division that rounds up.
abbrev pub ceil_div : ℕ → ℕ → ℕ
ceil_div n d = (n + (d - 1)) / d

abbrev pub num_logical_token_blocks : Request → ℕ
num_logical_token_blocks r = ceil_div r.logical_tokens r.block_size

abbrev pub no_schedule : AdmissionFields → AdmissionFields
no_schedule a = record a {
  scheduled_tokens = 0;
  scheduled_query_tokens = 0;
  scheduled_placeholder_tokens = 0;
}

unfoldable pub start_context_build : ℕ → Request → Request
start_context_build cached_tokens r = record r {
  admission =
      no_schedule
        (record r.admission { num_computed_tokens = min cached_tokens (context_len r - 1) });
}

unfoldable pub record_prefill_admission : ℕ → ℕ → Request → Outcome (Unit {0}) × Request
record_prefill_admission gpu_tokens cpu_tokens r =
    if ltb r.prefill_len (gpu_tokens + cpu_tokens) then (raise simulation_state_error, r) else (
      ok tt,
      record r {
        admission = elim r.first_prefill_source [
          | none ↦ record r.admission {
            first_prefill_source = some (record {
              input_tokens = r.prefill_len;
              gpu_hit_tokens = gpu_tokens;
              cpu_hit_tokens = cpu_tokens;
            });
            prefill_admission_count = r.prefill_admission_count + 1;
          }
          | some _ ↦ record r.admission {
            reloaded_gpu_tokens = r.reloaded_gpu_tokens + gpu_tokens;
            reloaded_cpu_tokens = r.reloaded_cpu_tokens + cpu_tokens;
            prefill_admission_count = r.prefill_admission_count + 1;
          }
        ];
      },
    )

-- The fields that `record_context_admission` writes before it calls `record_prefill_admission`.
abbrev pub context_sources : ℕ → ℕ → ℕ → ℕ → Request → Request
context_sources gpu_tokens cpu_tokens prompt_gpu prompt_cpu r = record r {
  admission = record r.admission {
    gpu_cached_context_tokens = gpu_tokens;
    external_cached_context_tokens = cpu_tokens;
    gpu_cached_prefill_tokens = prompt_gpu;
    external_cached_prefill_tokens = prompt_cpu;
    cached_prefill_tokens = prompt_gpu + prompt_cpu;
    cached_prefill_blocks = (prompt_gpu + prompt_cpu) / r.block_size;
    effective_prefill_tokens = r.prefill_len - (prompt_gpu + prompt_cpu);
    reloaded_generated_gpu_tokens = r.reloaded_generated_gpu_tokens + (gpu_tokens - prompt_gpu);
    reloaded_generated_cpu_tokens = r.reloaded_generated_cpu_tokens + (cpu_tokens - prompt_cpu);
  };
}

unfoldable pub record_context_admission : ℕ → ℕ → Request → Outcome (Unit {0}) × Request
unfolding record_prefill_admission
record_context_admission gpu_tokens cpu_tokens r =
    let prompt_gpu = min gpu_tokens r.prefill_len in
    let prompt_cpu = min cpu_tokens (r.prefill_len - prompt_gpu) in
    if leb (context_len r) (gpu_tokens + cpu_tokens)
    then (raise simulation_state_error, r)
    else record_prefill_admission prompt_gpu prompt_cpu
        (context_sources gpu_tokens cpu_tokens prompt_gpu prompt_cpu r)

abbrev pub admission_state : Request → AdmissionFields
admission_state r = r.admission

abbrev pub restore_admission_state : AdmissionFields → Request → Request
restore_admission_state state r = record r { admission = state }

-- `arrive` under an environment that makes events.
unfoldable pub arrive : ℕ → Request → Request
arrive now r = if r.cancel_requested then r else record r {
  timing = record r.timing { arrival_at = some now; last_event_at = now };
  completion_event = some false;
}

unfoldable pub prepare_recompute : Request → Request
prepare_recompute r = record r {
  needs_recompute = true;
  admission =
      no_schedule
        (record r.admission { recompute_tokens = context_len r; num_computed_tokens = 0 });
}

unfoldable pub finish_recompute : ℕ → Request → Request
finish_recompute latency r = record r {
  needs_recompute = false;
  recomputation_count = r.recomputation_count + 1;
  recomputed_tokens_total = r.recomputed_tokens_total + r.recompute_tokens;
  admission = record r.admission { recompute_tokens = 0 };
  timing = record r.timing { recompute_service_time = r.recompute_service_time + latency };
}

unfoldable pub release_logical_blocks : Request → Request
release_logical_blocks r = record r {
  logical_tokens = 0;
  admission = record r.admission { input_cache_keys = [] };
}

abbrev pub num_physical_token_blocks : Request → ℕ
num_physical_token_blocks r = length r.physical_token_blocks
