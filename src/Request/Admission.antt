-- ===== src/Request/Admission.antt =====
-- Admission accounting of a request: the sources of its prompt, and the rollback of an admission.
use token_sim.Prelude.{ℕ, ◌+◌, ◌≤◌, ◌<◌, ◌≡◌, some, arith, nat_eq}
use token_sim.Errors.{ok, raise, simulation_state_error}
use token_sim.Request.{
  Request, PrefillSourceStats, context_len, start_context_build, record_context_admission,
  admission_state, restore_admission_state, remaining_context_tokens,
}

-- A build leaves at least one token of a non-empty context to compute, and never more than the cache
-- lacks.
start_context_build_leaves :
    (cached : ℕ) (r : Request)
    → 0 < context_len r
    → let r' = start_context_build cached r in
      (0 < remaining_context_tokens r')
      × (r'.num_computed_tokens ≤ cached)
      × (cached < context_len r → r'.num_computed_tokens ≡ cached)
unfolding start_context_build
start_context_build_leaves cached r h = (omega arith, omega arith, λ l. omega arith)

-- An admission that hits `gpu` and `cpu` context tokens and leaves a query splits the prompt into what
-- each source gave and what is computed; any other is refused with no effect.
record_context_admission_splits :
    (gpu cpu : ℕ) (r : Request)
    → let (result, r') = record_context_admission gpu cpu r in
      (context_len r ≤ gpu + cpu → (result ≡ raise simulation_state_error) × (r' ≡ r))
      × (gpu + cpu < context_len r
          → (result ≡ ok tt)
            × (r'.gpu_cached_prefill_tokens + r'.external_cached_prefill_tokens
                  + r'.effective_prefill_tokens
                ≡ r.prefill_len)
            × (r'.prefill_admission_count ≡ r.prefill_admission_count + 1)
            × (r'.gpu_cached_prefill_tokens + r'.reloaded_generated_gpu_tokens
                ≡ r.reloaded_generated_gpu_tokens + gpu))
unfolding record_context_admission
record_context_admission_splits gpu cpu r = (
  λ h. (ground arith, ground arith),
  λ h. (ground arith, ground arith, ground arith, ground arith),
)

-- The first admission fixes the prompt's sources; later ones leave them and count as reloads.
first_source_kept :
    (gpu cpu : ℕ) (r : Request) (s : PrefillSourceStats)
    → r.first_prefill_source ≡ some s
    → let r' = (record_context_admission gpu cpu r).1 in (r'.first_prefill_source ≡ some s)
unfolding record_context_admission
first_source_kept gpu cpu r s e = ground arith

-- An admission that never ran is undone: whatever was recorded and started, restoring the snapshot
-- gives the request back.
pub rollback :
    (gpu cpu cached : ℕ) (r : Request)
    → restore_admission_state
        (admission_state r)
        (start_context_build cached (record_context_admission gpu cpu r).1)
      ≡ r
unfolding record_context_admission start_context_build
rollback gpu cpu cached r = ground arith
