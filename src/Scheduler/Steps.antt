-- ===== src/Scheduler/Steps.antt =====
-- The budget of a whole step of the paged scheduler without speculation, as uniform caches have it.
use token_sim.Prelude.{
  ℕ, ◌-◌, ◌≤◌, ◌≡◌, ◌≢◌, refl, ◌∙◌, subst, Bool, false, not, Option, none, some, List, [], ◌∷◌,
  ◌==◌, nat_eq, Bool-cases, inl, inr, arith, length,
}
use token_sim.Errors.{Outcome, ok, continue_ok, with_state}
use token_sim.Block.PrefixCache.{Hashes}
use token_sim.Request.{Request}
use token_sim.Scheduler.{
  Config, State, query_width, budget_cost, scheduled_step_tokens, waiting_query_tokens,
  decode_output_tokens,
}
use token_sim.Scheduler.Running.{Step, schedule_running}
use token_sim.Scheduler.Begin.{assigned, assign_waiting, begin_step}
use token_sim.Scheduler.Budget.{
  Accounts, total_cost-append, affordable_tokens, schedule_running-Accounts,
}
use token_sim.Scheduler.Admission.{
  Limits, PagedScheduler, can_admit, admit, place, enter, schedule_waiting, is_full, has_budget,
  with_manager, is_occupy_below_usage, after_running, schedule, first_step, settle_step, is_none,
}

module _ (hashes : Hashes) (c : Config) (plain : c.mtp_enabled ≡ false) where
  -- The queries of a request without speculation are what it costs.
  query_cost :
      (accepted_by : Request → ℕ) (threshold : ℕ) (req : Request) (budget : Option ℕ)
      → let (tokens, req') = scheduled_step_tokens c accepted_by threshold req budget in
        (query_width c req' tokens ≡ budget_cost c req' tokens)
        × (query_width c req' tokens ≢ 0 → tokens ≢ 0)
  unfolding scheduled_step_tokens decode_output_tokens budget_cost query_width
  query_cost accepted_by threshold req budget = (ground (arith, plain), ground (arith, plain))

  waiting_width :
      (req : Request) (tokens queries : ℕ) (budget : Option ℕ) (settled : Bool) (pending : Bool)
      → waiting_query_tokens c req tokens queries budget settled none pending ≡ queries
  unfolding waiting_query_tokens
  waiting_width req tokens queries budget settled pending = ground (arith, plain)

  module _ (l : Limits) (accepted_by : Request → ℕ) (threshold : ℕ) (defer_prefills : Bool)
      (total : ℕ) where
    assign-Accounts :
        (req : Request) (tokens queries : ℕ) (step : Step) (s : State)
        → queries ≡ budget_cost c req tokens
        → ((left : ℕ) → step.budget ≡ some left → budget_cost c req tokens ≤ left)
        → Accounts c total step
        → Accounts c total (assign_waiting req tokens queries step s).0
    unfolding assign_waiting budget_cost query_width
    assign-Accounts req tokens queries step s cost affordable (left, b, sum) = (
      left - queries,
      rw b refl,
      omega (
        arith,
        affordable left b,
        cost,
        total_cost-append c step.scheduled (assigned tokens queries req ∷ []),
        sum,
      ),
    )

    place-Accounts :
        (settled : Bool) (req : Request) (step step' : Step) (s s' : PagedScheduler)
        → Accounts c total step
        → place hashes c l accepted_by threshold defer_prefills settled req step s ≡ (ok step', s')
        → Accounts c total step'
    unfolding place
    place-Accounts settled req step step' s s' acc h =
        let (tokens, req') = scheduled_step_tokens c accepted_by threshold req step.budget in
        let width = query_width c req' tokens in
        let queries =
          waiting_query_tokens c req' tokens width step.budget settled none
            step.prefill_scheduled in
        let same = waiting_width req' tokens width step.budget settled step.prefill_scheduled in
        let (cost, some_token) = query_cost accepted_by threshold req step.budget in
        elim (Bool-cases (queries == 0)) [
          | inl nothing ↦ absurd (ground (arith, nothing, h))
          | inr some_query ↦
              let step2 = (assign_waiting req' tokens queries step s.state).0 in
              let here : step2 ≡ step' = ground (arith, some_query, h) in
              subst (Accounts c total) here (
                assign-Accounts req' tokens queries step s.state (same ∙ cost)
                  (λ left b.
                    affordable_tokens c accepted_by threshold req step.budget left b
                      (some_token (ground (arith, some_query, same))))
                  acc)
        ]

    enter-Accounts :
        (settled : Bool) (req : Request) (rest : List Request) (step step' : Step)
        (s s' : PagedScheduler)
        → Accounts c total step
        → enter hashes c l accepted_by threshold defer_prefills settled req rest step s
          ≡ (ok step', s')
        → Accounts c total step'
    unfolding enter
    enter-Accounts settled req rest step step' s s' acc h =
        let (r, m) = admit hashes req s.state.block_manager in
        let popped : PagedScheduler = record s { state = record s.state { waiting = rest } } in
        let (req', got, placed) =
          continue_ok r
            (λ (a : Request) (t : PagedScheduler).
              place hashes c l accepted_by threshold defer_prefills settled a step t)
            (with_manager m popped) s' step' h in
        place-Accounts settled req' step step' (with_manager m popped) s' acc placed

    same_step :
        (step step' : Step) (u s' : PagedScheduler)
        → ◌≡◌ {A = Outcome Step × PagedScheduler} (ok step, u) (ok step', s')
        → Accounts c total step
        → Accounts c total step'
    same_step step step' u s' h acc =
        let same : step ≡ step' = ground (arith, h) in subst (Accounts c total) same acc

    schedule_waiting-Accounts :
        (settled : Bool) (waiting : List Request) (step step' : Step) (s s' : PagedScheduler)
        → Accounts c total step
        → schedule_waiting hashes c l accepted_by threshold defer_prefills settled waiting step s
          ≡ (ok step', s')
        → Accounts c total step'
    unfolding schedule_waiting
    schedule_waiting-Accounts settled [] step step' s s' acc h = same_step step step' s s' h acc
    schedule_waiting-Accounts settled (req ∷ rest) step step' s s' acc h =
        let (admits, t) = can_admit hashes defer_prefills req s in
        let out = enter hashes c l accepted_by threshold defer_prefills settled req rest step t in
        elim (Bool-cases (has_budget step.budget)) [
          | inr spent ↦ same_step step step' s s' (rw (spent, schedule_waiting) at h) acc
          | inl left ↦ elim (Bool-cases (is_occupy_below_usage l s.state.block_manager)) [
            | inr crowded ↦
                same_step step step' s s' (rw (left, crowded, schedule_waiting) at h) acc
            | inl below ↦ elim (Bool-cases (is_full l.max_num_seqs s.state.running)) [
              | inl full ↦
                  same_step step step' _ s' (rw (left, below, full, schedule_waiting) at h) acc
              | inr room ↦ elim (Bool-cases admits) [
                | inr refused ↦
                    same_step step step' t s'
                      (rw (left, below, room, refused, schedule_waiting) at h) acc
                | inl admitted ↦
                    let (mid, got, after) =
                      continue_ok out.0 _ out.1 s' step'
                        (rw (left, below, room, admitted, schedule_waiting) at h) in
                    schedule_waiting-Accounts settled rest mid step' out.1 s'
                      (enter-Accounts settled req rest step mid t out.1 acc
                        (with_state out (ok mid) got))
                      after
              ]
            ]
          ]
        ]

    after_running-Accounts :
        (step step' : Step) (s s' : PagedScheduler)
        → Accounts c total step
        → after_running hashes c l accepted_by threshold defer_prefills step s ≡ (ok step', s')
        → Accounts c total step'
    unfolding after_running
    after_running-Accounts step step' s s' acc h =
        let settled = not (is_none step.scheduled) in
        let out =
          schedule_waiting hashes c l accepted_by threshold defer_prefills settled s.state.waiting
            step s in
        elim (Bool-cases (is_none step.preempted)) [
          | inr some_preempted ↦ same_step step step' _ s' (rw some_preempted at h) acc
          | inl none_preempted ↦
              let (mid, got, after) =
                continue_ok out.0 (settle_step defer_prefills) out.1 s' step'
                  (rw none_preempted at h) in
              same_step mid step' _ s' after (
                schedule_waiting-Accounts settled s.state.waiting step mid s out.1 acc
                  (with_state out (ok mid) got))
        ]

  -- A whole step without speculation that has a budget and returns has scheduled requests, running before
  -- or admitted by it, whose costs and what is left of the budget add up to the configured one.
  pub schedule-Accounts :
      (l : Limits) (accepted_by : Request → ℕ) (throttle : Bool) (total : ℕ) (step : Step)
      (s s' : PagedScheduler)
      → c.max_num_batched_tokens ≡ some total
      → schedule hashes c l accepted_by throttle s ≡ (ok step, s')
      → Accounts c total step
  unfolding schedule
  schedule-Accounts l accepted_by throttle total step s s' b h =
      let (defer_prefills, threshold) =
        begin_step l.long throttle s.prefill_capacity_bound c.max_num_batched_tokens
          (length s.state.waiting) 0 s.state.running in
      let out = schedule_running c accepted_by threshold defer_prefills (first_step c) s.state in
      let (mid, got, after) = continue_ok out.0 _ _ s' step h in
      after_running-Accounts l accepted_by threshold defer_prefills total mid step _ s'
        (schedule_running-Accounts c accepted_by threshold defer_prefills (first_step c) mid s.state
          out.1 total b refl (with_state out (ok mid) got))
        after
