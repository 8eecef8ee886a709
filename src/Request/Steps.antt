-- ===== src/Request/Steps.antt =====
-- `Request.step`, `advance`, `request_cancel` and `acknowledge_cancel` of TokenSim/llm/llm_request.py,
-- and the `RequestTime` of TokenSim/llm/request_time.py that `complete_timing` makes. `now` is
-- `env.now`; an event is `succeed`ed by its flag. The progress bar and the timing recorder are
-- effects on other objects, and the returned `RequestTime` is what they are given.
use token_sim.Prelude.{
  ℕ, ◌+◌, ◌-◌, min, max, Bool, true, false, not, ◌||◌, Option, none, some, List, [], ◌∷◌, ltb, ◌==◌,
  if◌then◌else◌, nat_eq, keep_if,
}
use token_sim.Request.{
  Request, Timing, finished_length_capped, cancel_pending, finished_cancelled, is_prefill,
  context_len, is_length_capped, is_done, step_tokens, no_schedule, finish_recompute,
}

pub record RequestTime : Type 0 where
  pub id : ℕ
  pub steps : ℕ
  pub total_time : ℕ
  pub first_step_time : ℕ
  pub decode_time_sum : ℕ
  pub decode_time_max_value : ℕ
  pub first_step_service_time : ℕ
  pub decode_service_time_sum : ℕ
  pub first_step_batch : ℕ
  pub decode_batch_sum : ℕ

abbrev pub complete_timing : Request → RequestTime
complete_timing r = record {
  id = r.id;
  steps = r.generation_idx;
  total_time = r.total_time;
  first_step_time = r.prefill_latency;
  decode_time_sum = r.decode_time_sum;
  decode_time_max_value = r.decode_time_max;
  first_step_service_time = r.prefill_service_time;
  decode_service_time_sum = r.decode_service_time_sum;
  first_step_batch = r.prefill_batch_size;
  decode_batch_sum = r.decode_batch_sum;
}

-- The clipped width of a step's output.
abbrev pub clip_output : Request → ℕ → ℕ
clip_output r wanted =
    let clipped = max 1 (min wanted (r.decode_len - r.generation_idx)) in
    elim r.max_model_len [ none ↦ clipped | some limit ↦ min clipped (limit - context_len r) ]

abbrev pub sample_timing : ℕ → ℕ → ℕ → ℕ → Timing → Timing
sample_timing now latency batch generation_idx t =
    let step_time = now - t.last_event_at in
    let t' : Timing = record t { last_event_at = now; total_time = t.total_time + step_time } in
    if generation_idx == 1
    then record t' {
      prefill_latency = step_time;
      prefill_service_time = t.prefill_service_time + latency;
      prefill_batch_size = batch;
    }
    else record t' {
      decode_time_sum = t.decode_time_sum + step_time;
      decode_time_max = if ltb t.decode_time_max step_time then step_time else t.decode_time_max;
      decode_service_time_sum = t.decode_service_time_sum + latency;
      decode_batch_sum = t.decode_batch_sum + batch;
    }

-- `event.succeed()` unless there is none or it has been triggered.
abbrev pub succeed : Option Bool → Option Bool
succeed none = none
succeed (some _) = some true

unfoldable pub finish : ℕ → Request → Option RequestTime × Request
finish now r = (
  some (complete_timing r),
  record r {
    admission =
        if is_length_capped r
        then record r.admission { status = finished_length_capped }
        else r.admission;
    timing = record r.timing { completed_at = some now };
    completion_event = succeed r.completion_event;
  },
)

unfoldable pub sample : ℕ → ℕ → ℕ → ℕ → Request → Request
sample now latency batch wanted r =
    let output_tokens = clip_output r wanted in
    record r {
      generation_idx = r.generation_idx + output_tokens;
      logical_tokens = r.logical_tokens + output_tokens;
      timing = sample_timing now latency batch (r.generation_idx + output_tokens) r.timing;
    }

unfoldable pub step : ℕ → ℕ → ℕ → ℕ → Request → Option RequestTime × Request
unfolding sample finish
step now latency batch wanted r =
    let r' = sample now latency batch wanted r in
    if r.cancel_requested then (none, r) else if is_done r' then finish now r' else (none, r')

-- `advance` up to the comparison of the computed tokens with the context.
unfoldable pub compute : Request → Request
compute r = record r {
  admission =
      no_schedule
        (record r.admission { num_computed_tokens = r.num_computed_tokens + step_tokens r });
  decode_round = if is_prefill r || r.needs_recompute then r.decode_round else r.decode_round + 1;
  prefill_chunks = if is_prefill r then r.prefill_chunks + 1 else r.prefill_chunks;
}

-- A partial chunk only accumulates service time.
abbrev pub book_chunk : ℕ → Request → Request
book_chunk latency r = record r {
  timing =
      if r.needs_recompute
      then record r.timing { recompute_service_time = r.recompute_service_time + latency }
      else record r.timing { prefill_service_time = r.prefill_service_time + latency };
}

unfoldable pub advance : ℕ → ℕ → ℕ → Request → Option RequestTime × Request
unfolding compute step finish_recompute
advance now latency batch r =
    let computed = compute r in
    let output_tokens = if is_prefill r || r.needs_recompute then 1 else step_tokens r in
    if r.cancel_requested
    then (none, r)
    else if ltb computed.num_computed_tokens (context_len computed)
    then (none, book_chunk latency computed)
    else if computed.needs_recompute
    then step now 0 batch output_tokens (finish_recompute latency computed)
    else step now latency batch output_tokens computed

unfoldable pub request_cancel : ℕ → Request → Request
request_cancel now r =
    let r' : Request = record r {
      cancellation_event = elim r.cancellation_event [ none ↦ some false | some b ↦ some b ];
    } in
    if is_done r
    then record r' { cancellation_event = some true }
    else if r.cancel_requested
    then r'
    else record r' {
      cancel_requested = true;
      cancel_requested_at = some now;
      admission = record r.admission { status = cancel_pending };
      cancel_pending_worker_ids = r.owner_worker_ids;
    }

-- `set.discard`
abbrev pub discard : ℕ → List ℕ → List ℕ
discard x = keep_if (λ y. not (y == x))

abbrev pub acknowledged : Option ℕ → List ℕ → List ℕ
acknowledged none pending = pending
acknowledged (some w) pending = discard w pending

unfoldable pub settle_cancel : ℕ → List ℕ → Option ℕ → Request → Request
settle_cancel now [] none r = record r {
  cancelled_at = some now;
  admission = record r.admission { status = finished_cancelled };
  completion_event = succeed r.completion_event;
  cancellation_event = succeed r.cancellation_event;
}
settle_cancel now [] (some t) r = r
settle_cancel now (w ∷ ws) at_time r = r

unfoldable pub acknowledge_cancel : ℕ → Option ℕ → Request → Request
unfolding settle_cancel
acknowledge_cancel now worker_id r =
    let r' : Request = record r {
      cancel_pending_worker_ids = acknowledged worker_id r.cancel_pending_worker_ids;
    } in
    if r.cancel_requested
    then settle_cancel now r'.cancel_pending_worker_ids r.cancelled_at r'
    else r
