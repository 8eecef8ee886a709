-- ===== src/Scheduler/Running.antt =====
-- `_reserve_decode_slot` of TokenSim/llm/paged_tokens.py and `_schedule_running` of
-- TokenSim/llm/paged_scheduling.py, for a manager without grouped caches.
use token_sim.Prelude.{
  ℕ, zero, suc, ◌+◌, ◌-◌, Bool, true, false, ◌&&◌, ◌||◌, Option, none, some, List, [], ◌∷◌, ◌++◌,
  ltb, leb, ◌==◌, if◌then◌else◌, nat_eq, length,
}
use mathlib.Core.List.{reverse}
use token_sim.Errors.{Outcome, ok, continue}
use token_sim.Block.Manager
use token_sim.Block.Manager.{can_append_slot}
use token_sim.Request.{Request, context_len, is_context_build}
use token_sim.Scheduler.{Config, State, query_width, budget_cost, scheduled_step_tokens, preempt}

-- What a search for a slot leaves: the request with its slot, unless it was preempted itself, the
-- requests that are still queued, youngest first, and the preempted ones.
pub record Reserved : Type 0 where
  pub slot : Option Request
  pub queue : List Request
  pub preempted : List Request

-- `_reserve_decode_slot`, with the queue youngest first: `queue.pop()` takes its head.
unfoldable pub reserve_decode_slot :
    Request → List Request → List Request → State → Outcome Reserved × State
unfolding preempt
reserve_decode_slot req [] preempted s =
    let (r, m) = Manager.append_slot req s.block_manager in
    let (r', s') = preempt req s in
    if can_append_slot req 0 s.block_manager
    then continue r
        (λ req' s. (ok (record { slot = some req'; queue = []; preempted = preempted }), s))
        (record s { block_manager = m })
    else continue r'
        (λ req' s. (ok (record { slot = none; queue = []; preempted = preempted ++ req' ∷ [] }), s))
        s'
reserve_decode_slot req (victim ∷ queue) preempted s =
    let (r, m) = Manager.append_slot req s.block_manager in
    let (r', s') = preempt victim s in
    let again : Request → State → Outcome Reserved × State =
      λ victim' s. reserve_decode_slot req queue (preempted ++ victim' ∷ []) s in
    if can_append_slot req 0 s.block_manager
    then continue r
        (λ req' s.
          (ok (record { slot = some req'; queue = victim ∷ queue; preempted = preempted }), s))
        (record s { block_manager = m })
    else continue r' again s'

-- `_Step`, less the field that is written after the running requests.
pub record Step : Type 0 where
  pub budget : Option ℕ
  pub scheduled : List Request
  pub preempted : List Request
  pub prefill_scheduled : Bool

abbrev pub spend : ℕ → Option ℕ → Option ℕ
spend cost none = none
spend cost (some budget) = some (budget - cost)

-- The end of a round: the request is scheduled for `tokens` tokens.
abbrev pub planned : ℕ → ℕ → Request → Request
planned tokens queries req = record req {
  admission = record req.admission { scheduled_tokens = tokens; scheduled_query_tokens = queries };
  prefill_chunk_pending = ltb (req.num_computed_tokens + queries) (context_len req);
}

abbrev pub publish : Config → ℕ → ℕ → Request → Step → Step
publish c tokens queries req step = record step {
  prefill_scheduled = step.prefill_scheduled || req.prefill_chunk_pending;
  budget = spend (budget_cost c req tokens) step.budget;
  scheduled = step.scheduled ++ planned tokens queries req ∷ [];
}

abbrev pub keep : Request → State → State
keep req s = record s { running = s.running ++ req ∷ [] }

-- What follows `_reserve_decode_slot`: the request is scheduled if it has a slot.
unfoldable pub after_slot :
    Config
    → (List Request → Step → State → Outcome Step × State)
    → ℕ
    → ℕ
    → List Request
    → Step
    → Option Request
    → State
    → Outcome Step × State
after_slot c next tokens queries queue step none s = next queue step s
after_slot c next tokens queries queue step (some req) s =
    next queue (publish c tokens queries req step) (keep (planned tokens queries req) s)

-- The order of the `arrival_time`s. Requests that run have arrived; Python compares no others.
abbrev pub arrives_by : Request → Request → Bool
arrives_by a b = elim b.arrival_at [
  | none ↦ true
  | some tb ↦ elim a.arrival_at [ none ↦ false | some ta ↦ leb ta tb ]
]

-- `sorted(self.running, key=lambda req: req.arrival_time)`, stable.
abbrev pub insert_by_arrival : Request → List Request → List Request
insert_by_arrival req [] = req ∷ []
insert_by_arrival req (r ∷ rs) =
    let rest = insert_by_arrival req rs in if arrives_by req r then req ∷ r ∷ rs else r ∷ rest

abbrev pub sort_by_arrival : List Request → List Request
sort_by_arrival [] = []
sort_by_arrival (r ∷ rs) = insert_by_arrival r (sort_by_arrival rs)

module _ (c : Config) (accepted_by : Request → ℕ) (threshold : ℕ) (defer_prefills : Bool) where
  -- The round of one request, which goes on by `next` with the requests still queued.
  unfoldable pub round :
      (List Request → Step → State → Outcome Step × State)
      → Request
      → List Request
      → Step
      → State
      → Outcome Step × State
  unfolding reserve_decode_slot scheduled_step_tokens budget_cost query_width after_slot
  round next req queue step s =
      let (tokens, req') = scheduled_step_tokens c accepted_by threshold req step.budget in
      let queries = query_width c req' tokens in
      let (r, s') = reserve_decode_slot req' (reverse queue) step.preempted s in
      let decode : Reserved → State → Outcome Step × State = λ reserved.
        after_slot c next tokens queries (reverse reserved.queue)
          (record step { preempted = reserved.preempted }) reserved.slot in
      if defer_prefills && req.prefill_chunk_pending
      then next queue step
          (keep req (record s { deferred_running_prefills = s.deferred_running_prefills + 1 }))
      else if tokens == 0
      then next queue step (keep req' s)
      else if is_context_build req'
      then next queue (publish c tokens queries req' step) (keep (planned tokens queries req') s)
      else continue r decode s'

  -- The `while queue` loop, of at most as many rounds as its first argument.
  unfoldable pub run : ℕ → List Request → Step → State → Outcome Step × State
  run zero queue step s = (ok step, s)
  run (suc fuel) [] step s = (ok step, s)
  run (suc fuel) (req ∷ queue) step s = round (run fuel) req queue step s

  -- `_schedule_running`
  unfoldable pub schedule_running : Step → State → Outcome Step × State
  unfolding run
  schedule_running step s =
      let queue = sort_by_arrival s.running in
      run (length queue) queue step (record s { running = [] })
