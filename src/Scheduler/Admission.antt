-- ===== src/Scheduler/Admission.antt =====
-- `_admit`, `_is_occupy_below_usage` and the whole `schedule` of the paged scheduler (TokenSim/llm/llm_scheduler.py,
-- paged_scheduling.py) over a uniform cache and a `NoopConnector`, which matches no token and loads
-- nothing: `loading` and `loaded_waiting` stay empty. `max_occupy_ratio` is a fraction of whole numbers,
-- the pool has blocks, and the counters of `_record_scheduled`, which only reports read, are left out.
use token_sim.Prelude.{
  ℕ, ◌+◌, ◌-◌, ◌*◌, Bool, true, false, not, ◌&&◌, Option, none, some, List, [], ◌∷◌, ◌++◌, ltb, leb,
  ◌==◌, if◌then◌else◌, nat_eq, length,
}
use token_sim.Errors.{Outcome, ok, raise, continue, configuration_error}
use token_sim.Block.Physical.{gpu}
use token_sim.Block.PrefixCache.{Hashes}
use token_sim.Block.Manager
use token_sim.Block.Manager.{BlockManager, plan, num_free}
use token_sim.Block.Allocator.{get_num_allocated_blocks}
use token_sim.Request.{Request, running, context_len, is_prefill, start_context_build}
use token_sim.Scheduler.{Config, State, query_width, scheduled_step_tokens, waiting_query_tokens}
use token_sim.Scheduler.Running.{Step, schedule_running}
use token_sim.Scheduler.Begin.{LongPrefill, begin_step, assigned, assign_waiting}

-- The other fields of the constructor that a step reads.
pub record Limits : Type 0 where
  pub max_num_seqs : Option ℕ
  pub occupy_num : ℕ
  pub occupy_den : ℕ
  pub long : LongPrefill

pub record Counters : Type 0 where
  pub steps : ℕ
  pub capacity_bound_steps : ℕ
  pub deferred_waiting_prefills : ℕ
  pub max_num_seqs_gate : ℕ
  pub full_input_gate : ℕ

-- What `schedule` changes.
pub record PagedScheduler : Type 0 where
  pub state : State
  pub last_admitted : List Request
  pub prefill_capacity_bound : Bool
  pub stats : Counters

-- `_is_occupy_below_usage`
abbrev pub is_occupy_below_usage : Limits → BlockManager → Bool
is_occupy_below_usage l m =
    ltb (get_num_allocated_blocks (Manager.allocator gpu m) * l.occupy_den)
      (l.occupy_num * m.gpu_pool.num_blocks)

-- `len(self.running) >= self.max_num_seqs`, where there is such a limit.
abbrev pub is_full : Option ℕ → List Request → Bool
is_full none rs = false
is_full (some limit) rs = leb limit (length rs)

-- `budget is None or budget > 0`
abbrev pub has_budget : Option ℕ → Bool
has_budget none = true
has_budget (some n) = ltb 0 n

abbrev pub with_manager : BlockManager → PagedScheduler → PagedScheduler
with_manager m s = record s { state = record s.state { block_manager = m } }

-- The number of tokens that an admitted request computes.
abbrev pub to_compute : Request → ℕ
to_compute req =
    if req.needs_recompute
    then req.recompute_tokens
    else if is_prefill req
    then req.effective_prefill_tokens
    else 1

-- The end of `_admit`.
abbrev pub started : Request → Request
started req =
    let built = start_context_build (context_len req - to_compute req) req in
    record built { admission = record built.admission { status = running } }

abbrev pub is_none : List Request → Bool
is_none [] = true
is_none (r ∷ rs) = false

-- The end of `schedule`: whether the capacity bounds the next step.
abbrev pub settle_step : Bool → Step → PagedScheduler → Outcome Step × PagedScheduler
settle_step defer_prefills step s =
    let bound =
      if is_none step.preempted && not defer_prefills
      then not (is_none s.state.waiting)
      else s.prefill_capacity_bound in
    (
      ok step,
      record s {
        prefill_capacity_bound = bound;
        stats = record s.stats {
          capacity_bound_steps =
              if bound then s.stats.capacity_bound_steps + 1 else s.stats.capacity_bound_steps;
        };
      },
    )

abbrev pub first_step : Config → Step
first_step c = record {
  budget = c.max_num_batched_tokens;
  scheduled = [];
  preempted = [];
  prefill_scheduled = false;
}

module _ (hashes : Hashes) where
  -- The writes of `_admit` before it allocates.
  abbrev pub prepared : Request → BlockManager → Request × BlockManager
  prepared req m =
      let (p, m') = plan hashes req m in
      let recomputed =
        if req.needs_recompute then context_len req - p.hit_tokens else req.recompute_tokens in
      (
        record req {
          admission = record req.admission {
            input_cache_keys = p.input_keys;
            recompute_tokens = recomputed;
          };
        },
        m',
      )

  unfoldable pub admit : Request → BlockManager → Outcome Request × BlockManager
  unfolding plan Manager.allocate start_context_build
  admit req m =
      let (req', m') = prepared req m in
      let (r, m'') = Manager.allocate hashes req' m' in
      continue r (λ allocated m. (ok (started allocated), m)) m''

  -- The gates of `_admit_waiting`: whether the request goes in, and the counter that says why not.
  unfoldable pub can_admit : Bool → Request → PagedScheduler → Bool × PagedScheduler
  unfolding plan Manager.can_allocate
  can_admit defer_prefills req s =
      let (p, planned) = plan hashes req s.state.block_manager in
      let m = if defer_prefills then planned else s.state.block_manager in
      let (fits, m') = Manager.can_allocate hashes req m in
      if defer_prefills && ltb 1 (context_len req - p.hit_tokens)
      then (
        false,
        record (with_manager m s) {
          stats = record s.stats {
            deferred_waiting_prefills = s.stats.deferred_waiting_prefills + 1;
          };
        },
      )
      else if not fits
      then (
        false,
        record (with_manager m' s) {
          stats = record s.stats { full_input_gate = s.stats.full_input_gate + 1 };
        },
      )
      else (true, with_manager m' s)

  module _ (c : Config) (l : Limits) (accepted_by : Request → ℕ) (threshold : ℕ)
      (defer_prefills : Bool) where
    -- What `_admit_waiting` does with the request that `_admit` returns; `settled` is whether a running
    -- request was scheduled before.
    unfoldable pub place : Bool → Request → Step → PagedScheduler → Outcome Step × PagedScheduler
    unfolding assign_waiting scheduled_step_tokens query_width waiting_query_tokens
    place settled req step s =
        let (tokens, req') = scheduled_step_tokens c accepted_by threshold req step.budget in
        let queries =
          waiting_query_tokens c req' tokens (query_width c req' tokens) step.budget settled none
            step.prefill_scheduled in
        let (step', state) = assign_waiting req' tokens queries step s.state in
        if queries == 0 then (raise configuration_error, s) else (
          ok step',
          record s {
            state = state;
            last_admitted = s.last_admitted ++ assigned tokens queries req' ∷ [];
          },
        )

    -- The rest of `_admit_waiting` once the gates are passed: the request leaves the queue first.
    unfoldable pub enter :
        Bool → Request → List Request → Step → PagedScheduler → Outcome Step × PagedScheduler
    unfolding admit place
    enter settled req rest step s =
        let popped : PagedScheduler = record s { state = record s.state { waiting = rest } } in
        let (r, m) = admit req s.state.block_manager in
        continue r (λ req' s. place settled req' step s) (with_manager m popped)

    -- `_schedule_waiting`, over the waiting requests.
    unfoldable pub schedule_waiting :
        Bool → List Request → Step → PagedScheduler → Outcome Step × PagedScheduler
    unfolding can_admit enter
    schedule_waiting settled [] step s = (ok step, s)
    schedule_waiting settled (req ∷ rest) step s =
        let (admits, s') = can_admit defer_prefills req s in
        let (r, s'') = enter settled req rest step s' in
        let more : Step → PagedScheduler → Outcome Step × PagedScheduler =
          λ step s. schedule_waiting settled rest step s in
        if not (has_budget step.budget)
        then (ok step, s)
        else if not (is_occupy_below_usage l s.state.block_manager)
        then (ok step, s)
        else if is_full l.max_num_seqs s.state.running
        then (
          ok step,
          record s { stats = record s.stats { max_num_seqs_gate = s.stats.max_num_seqs_gate + 1 } },
        )
        else if not admits
        then (ok step, s')
        else continue r more s''

  -- `schedule` after the running requests: a step that preempted admits nobody.
  unfoldable pub after_running :
      Config
      → Limits
      → (Request → ℕ)
      → ℕ
      → Bool
      → Step
      → PagedScheduler
      → Outcome Step × PagedScheduler
  unfolding schedule_waiting
  after_running c l accepted_by threshold defer_prefills step s =
      let settled = not (is_none step.scheduled) in
      let (r, s') =
        schedule_waiting c l accepted_by threshold defer_prefills settled s.state.waiting step s in
      if is_none step.preempted
      then continue r (settle_step defer_prefills) s'
      else settle_step defer_prefills step s

  unfoldable pub schedule :
      Config → Limits → (Request → ℕ) → Bool → PagedScheduler → Outcome Step × PagedScheduler
  unfolding begin_step schedule_running after_running
  schedule c l accepted_by throttle s =
      let counted : PagedScheduler = record s {
        last_admitted = [];
        stats = record s.stats { steps = s.stats.steps + 1 };
      } in
      let (defer_prefills, threshold) =
        begin_step l.long throttle s.prefill_capacity_bound c.max_num_batched_tokens
          (length s.state.waiting) 0 s.state.running in
      let (r, state) =
        schedule_running c accepted_by threshold defer_prefills (first_step c) s.state in
      continue r (λ step s. after_running c l accepted_by threshold defer_prefills step s)
        (record counted { state = state })
