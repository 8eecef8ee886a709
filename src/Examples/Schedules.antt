-- ===== src/Examples/Schedules.antt =====
-- The schedulers at concrete inputs.
use token_sim.Prelude.{
  ℕ, ◌*◌, ◌⊎◌, ◌+◌, ◌-◌, ◌≤◌, ◌<◌, ◌≡◌, ◌≢◌, refl, true, false, some, [], ◌∷◌, ◌++◌, arith, length,
  min, max,
}
use token_sim.Errors.{ok}
use token_sim.Block.Manager
use token_sim.Request.{context_len, is_context_build, remaining_context_tokens}
use token_sim.Scheduler.{Config, State, scheduled_step_tokens, budget_cost}
use token_sim.Scheduler.Running
use token_sim.Scheduler.Running.{Step, planned, run, schedule_running}
use token_sim.Scheduler.Budget.{
  Fits, Accounts, schedule_running-Accounts, scheduled_step_tokens_lem,
}
use token_sim.Scheduler.Kept.{times}
use token_sim.Scheduler.Progress.{schedule_running_keeps}
use token_sim.Scheduler.Begin.{LongPrefill, begin_step, begin_step_lem}
use token_sim.Scheduler.Batch.{
  LlmScheduler, schedule_dynamic, schedule_static, schedule_dynamic_lem, schedule_static_lem,
}
use token_sim.Examples.Data.{prompt, chains}

abbrev pub config : Config
config = record {
  max_num_batched_tokens = some 8;
  max_model_len = some 32;
  mtp_enabled = false;
  speculative_tokens = 0;
}

scheduled_step_tokens_lem_example :
    let threshold : ℕ = 0 in
    let (tokens, req') = scheduled_step_tokens config (λ _. 1) threshold prompt (some 8) in
    (tokens ≢ 0 → budget_cost config req' tokens ≤ 8)
    × (is_context_build prompt ≡ true → tokens ≤ max 1 (remaining_context_tokens prompt))
    × (is_context_build prompt ≡ false → tokens ≤ max 1 (prompt.decode_len - prompt.generation_idx))
    × ((limit : ℕ)
        → config.max_model_len ≡ some limit
        → tokens ≢ 0
        → (is_context_build prompt ≡ false → context_len prompt + tokens ≤ limit)
          × (prompt.num_computed_tokens + tokens < limit))
    × (is_context_build prompt ≡ true
        → (n : ℕ) → n ≤ min 8 (max 1 (remaining_context_tokens prompt))
        → (threshold ≡ 0) ⊎ (n ≤ threshold)
        → Fits config prompt n
        → n ≤ tokens)
    × (is_context_build prompt ≡ false
        → config.mtp_enabled ≡ false
        → 0 < 8
        → Fits config prompt 1
        → ((limit : ℕ) → config.max_model_len ≡ some limit → context_len prompt < limit)
        → tokens ≡ 1)
scheduled_step_tokens_lem_example = scheduled_step_tokens_lem config (λ _. 1) 0 8 prompt

abbrev before : State
before = record {
  running = prompt ∷ [];
  waiting = [];
  block_manager = Manager.init 4 8 0 "llama" 1 chains;
  deferred_running_prefills = 0;
}

abbrev empty_step : Step
empty_step = record { budget = some 8; scheduled = []; preempted = []; prefill_scheduled = false }

-- The budget takes eight of the ten tokens of the prompt.
abbrev full_step : Step
full_step = record {
  budget = some 0;
  scheduled = planned 8 8 prompt ∷ [];
  preempted = [];
  prefill_scheduled = false;
}

schedule :
    schedule_running config (λ _. 1) 0 false empty_step before
    ≡ (ok full_step, record before { running = planned 8 8 prompt ∷ [] })
unfolding schedule_running Running.round
schedule = refl

schedule_running-Accounts_example : Accounts config 8 full_step
schedule_running-Accounts_example =
    schedule_running-Accounts config (λ _. 1) 0 false empty_step full_step before
      (record before { running = planned 8 8 prompt ∷ [] }) 8 refl refl schedule

abbrev queue : LlmScheduler
queue = record { max_num_seqs = 2; running = prompt ∷ []; waiting = prompt ∷ prompt ∷ [] }

schedule_dynamic_lem_example :
    let s' = schedule_dynamic queue in
    (s'.running ++ s'.waiting ≡ queue.running ++ queue.waiting)
    × (length s'.running ≤ queue.max_num_seqs)
    × (0 < length s'.waiting → length s'.running ≡ queue.max_num_seqs)
schedule_dynamic_lem_example = schedule_dynamic_lem queue (omega arith)

schedule_static_lem_example :
    let s' = schedule_static queue in
    (0 < length queue.running → s' ≡ queue)
    × (queue.running ≡ []
        → (s'.running ++ s'.waiting ≡ queue.waiting)
          × (length s'.running ≡ min queue.max_num_seqs (length queue.waiting)))
schedule_static_lem_example = schedule_static_lem queue

schedule_running_keeps_example :
    times 7 (planned 8 8 prompt ∷ []) + times 7 [] ≡ times 7 (prompt ∷ []) + times 7 []
schedule_running_keeps_example =
    schedule_running_keeps config (λ _. 1) 0 false empty_step full_step before
      (record before { running = planned 8 8 prompt ∷ [] }) 7 schedule

abbrev long : LongPrefill
long = record { threshold = 2; adaptive = true }

begin_step_lem_example :
    let eligible = length (prompt ∷ []) + 1 + 0 in
    let limit = (begin_step long true false (some 8) 1 0 (prompt ∷ [])).1 in
    ((eligible ≤ 1) ⊎ (long.threshold ≡ 0) → limit ≡ 0)
    × (1 < eligible → long.threshold ≤ limit)
    × (1 < eligible
        → long.threshold < limit
        → (long.adaptive ≡ true) × ((n : ℕ) × (some 8 ≡ some n) × (limit * eligible ≤ n)))
    × (1 < eligible
        → 0 < long.threshold
        → long.adaptive ≡ true
        → (n : ℕ) → some 8 ≡ some n
        → n < limit * eligible + eligible)
begin_step_lem_example = begin_step_lem long true false (some 8) 1 0 (prompt ∷ [])
