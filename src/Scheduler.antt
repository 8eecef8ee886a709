-- ===== src/Scheduler.antt =====
-- The schedulers of TokenSim/llm: the state of the paged scheduler, with its token budget
-- (TokenSim/llm/paged_tokens.py) and its preemption (TokenSim/llm/llm_scheduler.py), over the uniform
-- `BlockManager`. The draws of TokenSim/llm/speculative_acceptance.py, which compare floating-point
-- numbers, are the argument `accepted_by`.
pub mod Batch
pub mod Budget
pub mod Kept
pub mod Progress
pub mod Running
pub mod Begin
pub mod Admission
pub mod Entries
pub mod Steps
pub mod Rounds
use token_sim.Prelude.{
  ℕ, zero, suc, ◌+◌, ◌-◌, min, max, Bool, true, false, not, ◌&&◌, ◌||◌, Option, none, some, List,
  [], ◌∷◌, ltb, leb, ◌==◌, if◌then◌else◌, nat_eq,
}
use token_sim.Errors.{Outcome, ok, raise, continue}
use token_sim.Block.Manager
use token_sim.Block.Manager.{BlockManager}
use token_sim.Request.{
  Request, AdmissionFields, RequestStatus, context_len, is_context_build, remaining_context_tokens,
  prepare_recompute,
}

-- The fields of `LLMPagedAttnScheduler` that these methods read.
pub record Config : Type 0 where
  pub max_num_batched_tokens : Option ℕ
  pub max_model_len : Option ℕ
  pub mtp_enabled : Bool
  pub speculative_tokens : ℕ

-- The smaller of a number and a limit that may be infinite.
abbrev pub clip : ℕ → Option ℕ → ℕ
clip n none = n
clip n (some limit) = min n limit

-- `_query_room`; `none` is infinity.
abbrev pub query_room : Config → Request → Option ℕ
query_room c req = elim c.max_model_len [
  | none ↦ none
  | some limit ↦ some (limit - req.num_computed_tokens - 1)
]

-- `_decode_output_tokens`, which records the accepted tokens in the request.
unfoldable pub decode_output_tokens : Config → (Request → ℕ) → Request → ℕ → ℕ × Request
decode_output_tokens c accepted_by req remaining =
    if not c.mtp_enabled then (min 1 remaining, req) else (
      min (accepted_by req) remaining,
      record req { scheduled_accepted_tokens = accepted_by req },
    )

-- `_query_tokens`
unfoldable pub query_width : Config → Request → ℕ → ℕ
query_width c req accepted =
    if is_context_build req || not c.mtp_enabled
    then clip accepted (query_room c req)
    else clip (1 + c.speculative_tokens) (query_room c req)

-- `_budget_cost`
unfoldable pub budget_cost : Config → Request → ℕ → ℕ
unfolding query_width
budget_cost c req accepted =
    if not (is_context_build req) then query_width c req accepted else accepted

-- `budget is None or budget >= cost`
abbrev pub affords : Option ℕ → ℕ → Bool
affords none cost = true
affords (some budget) cost = leb cost budget

-- `_step_tokens`, where `threshold` is `effective_long_prefill_threshold`.
unfoldable pub scheduled_step_tokens : Config → (Request → ℕ) → ℕ → Request → Option ℕ → ℕ × Request
unfolding decode_output_tokens query_width
scheduled_step_tokens c accepted_by threshold req budget =
    let left = max 1 (req.decode_len - req.generation_idx) in
    let remaining : ℕ = elim c.max_model_len [
      | none ↦ left
      | some limit ↦ min left (limit - context_len req)
    ] in
    let (wanted, req') = decode_output_tokens c accepted_by req remaining in
    let accepted = clip wanted (query_room c req') in
    let context = max 1 (remaining_context_tokens req) in
    let chunk = if threshold == 0 then context else min context threshold in
    if not (is_context_build req)
    then if remaining == 0
      then (0, req)
      else ((if affords budget (query_width c req' accepted) then accepted else 0), req')
    else (clip (clip chunk (query_room c req)) budget, req)

-- `_decode_lookahead`
abbrev pub decode_lookahead : Config → ℕ
decode_lookahead c = if c.mtp_enabled then c.speculative_tokens else 0

-- `_waiting_query_tokens`, with the `computed` and `prefill_scheduled` of its callers; `scheduled` is
-- whether any running request was scheduled.
unfoldable pub waiting_query_tokens :
    Config → Request → ℕ → ℕ → Option ℕ → Bool → Option ℕ → Bool → ℕ
waiting_query_tokens c req real_tokens queries budget scheduled computed prefill_scheduled =
    let prefix : ℕ = elim computed [ none ↦ req.num_computed_tokens | some n ↦ n ] in
    let width = 1 + c.speculative_tokens in
    let over : Bool = elim c.max_model_len [
      | none ↦ false
      | some limit ↦ ltb limit (prefix + width + 1)
    ] in
    if not c.mtp_enabled || (not (is_context_build req) || not (real_tokens == 1))
    then queries
    else if not (context_len req == prefix + 1)
        || (prefill_scheduled || not (scheduled || ltb 0 prefix))
    then queries
    else if over
    then queries
    else if affords budget width
    then width
    else 0

-- The part of `LLMPagedAttnScheduler` that a step over running requests changes.
pub record State : Type 0 where
  pub running : List Request
  pub waiting : List Request
  pub block_manager : BlockManager
  pub deferred_running_prefills : ℕ

-- `_preempt`
unfoldable pub preempt : Request → State → Outcome Request × State
preempt req s =
    let (r, m) = Manager.release_request_blocks req s.block_manager in
    let s' : State = record s { block_manager = m } in
    continue r
      (λ released s.
        let victim : Request = record (prepare_recompute released) {
          admission = record (prepare_recompute released).admission {
            status = RequestStatus.waiting;
          };
        } in
        (ok victim, record s { waiting = victim ∷ s.waiting }))
      s'
