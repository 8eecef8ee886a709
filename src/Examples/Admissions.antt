-- ===== src/Examples/Admissions.antt =====
-- A whole step of the paged scheduler at a concrete input.
use token_sim.Prelude.{◌≡◌, refl, false, some, [], ◌∷◌, length}
use token_sim.Prelude.Dict.{get, put}
use token_sim.Errors.{Outcome, ok, raise, with_state}
use token_sim.Block.Allocator
use token_sim.Block.Manager
use token_sim.Block.Pool.{pop_free_block}
use token_sim.Block.PrefixCache.{build_prefix_keys}
use token_sim.Scheduler.Running
use token_sim.Scheduler.Running.{Step}
use token_sim.Scheduler.Budget.{Accounts}
use token_sim.Scheduler.Admission.{Limits, PagedScheduler, schedule, schedule_waiting, first_step}
use token_sim.Scheduler.Entries.{Admits, schedule_waiting-Admits}
use token_sim.Scheduler.Steps.{schedule-Accounts}
use token_sim.Examples.Data.{prompt, chains, hashes}
use token_sim.Examples.Schedules.{config}

abbrev limits : Limits
limits = record {
  max_num_seqs = some 4;
  occupy_num = 1;
  occupy_den = 1;
  long = record { threshold = 0; adaptive = false };
}

-- One prompt of ten tokens waits.
abbrev queued : PagedScheduler
queued = record {
  state = record {
    running = [];
    waiting = prompt ∷ [];
    block_manager = Manager.init 4 8 0 "llama" 1 chains;
    deferred_running_prefills = 0;
  };
  last_admitted = [];
  prefill_capacity_bound = false;
  stats = record {
    steps = 0;
    capacity_bound_steps = 0;
    deferred_waiting_prefills = 0;
    max_num_seqs_gate = 0;
    full_input_gate = 0;
  };
}

abbrev step_or : Step → Outcome Step → Step
step_or d (ok step) = step
step_or d (raise e) = d

abbrev admitting : Step
admitting = step_or (first_step config) (schedule hashes config limits (λ _. 1) false queued).0

admits_prompt : (schedule hashes config limits (λ _. 1) false queued).0 ≡ ok admitting
unfolding schedule Running.round Allocator.allocate get put build_prefix_keys pop_free_block
admits_prompt = refl

one_scheduled : length admitting.scheduled ≡ 1
unfolding schedule Running.round Allocator.allocate get put build_prefix_keys pop_free_block
one_scheduled = refl

schedule-Accounts_example : Accounts config 8 admitting
schedule-Accounts_example =
    schedule-Accounts hashes config refl limits (λ _. 1) false 8 admitting queued
      (schedule hashes config limits (λ _. 1) false queued).1 refl
      (with_state (schedule hashes config limits (λ _. 1) false queued) (ok admitting)
        admits_prompt)

abbrev waited : Outcome Step × PagedScheduler
waited =
    schedule_waiting hashes config limits (λ _. 1) 0 false false (prompt ∷ []) (first_step config)
      queued

abbrev entered : Step
entered = step_or (first_step config) waited.0

enters_prompt : waited.0 ≡ ok entered
unfolding schedule_waiting Running.round Allocator.allocate get put build_prefix_keys pop_free_block
enters_prompt = refl

schedule_waiting-Admits_example :
    Admits hashes config limits
      (λ _. 1)
      0
      false
      (prompt ∷ [])
      (first_step config)
      entered
      queued
      waited.1
schedule_waiting-Admits_example =
    schedule_waiting-Admits hashes config limits (λ _. 1) 0 false false (prompt ∷ [])
      (first_step config) entered queued waited.1 refl
      (with_state waited (ok entered) enters_prompt)
