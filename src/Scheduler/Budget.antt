-- ===== src/Scheduler/Budget.antt =====
-- The token budget of a step: what one request may take of it, and what a step over the running requests
-- takes of it in all.
use token_sim.Prelude.{
  min, ◌⊎◌, inl, inr, Option-cases, ℕ, zero, suc, ◌+◌, ◌-◌, ◌≤◌, ◌<◌, max, ◌≡◌, ◌≢◌, refl, sym, ap,
  ◌∙◌, Bool, true, false, Option, some, List, [], ◌∷◌, ◌++◌, arith, nat_eq, subst,
}
use mathlib.Core.List.{reverse}
use token_sim.Errors.{ok, raise}
use token_sim.Request.{Request, context_len, is_context_build, remaining_context_tokens}
use token_sim.Scheduler.{
  Config, State, query_width, budget_cost, decode_output_tokens, scheduled_step_tokens,
}
use token_sim.Scheduler.Rounds.{
  round-Rounds, deferred, idle, context, itself, decode, failed, reserve_keeps,
}
use token_sim.Scheduler.Running.{Step, reserve_decode_slot, planned, publish, run, schedule_running}

-- That `n` more tokens leave what a request has computed short of the limit on the model's length.
abbrev pub Fits : Config → Request → ℕ → Type 0
Fits c req n = (limit : ℕ) → c.max_model_len ≡ some limit → req.num_computed_tokens + n < limit

-- The tokens that a running request is given cost no more than the budget. A context build is given no more
-- than the context that is left, or one token where none is; a decode no more than its output that is left,
-- or one where none is. Under a limit on the model's length, a decode that is given a token ends with its
-- context within the limit, and the tokens computed stay short of it. A context build is given every
-- number of tokens that the budget, the context left, the long-prefill threshold where there is one, and
-- the limit on the length admit. A decode without speculation is given a token where the budget has one and
-- the limit admits it.
pub scheduled_step_tokens_lem :
    (c : Config) (accepted_by : Request → ℕ) (threshold budget : ℕ) (req : Request)
    → let (tokens, req') = scheduled_step_tokens c accepted_by threshold req (some budget) in
      (tokens ≢ 0 → budget_cost c req' tokens ≤ budget)
      × (is_context_build req ≡ true → tokens ≤ max 1 (remaining_context_tokens req))
      × (is_context_build req ≡ false → tokens ≤ max 1 (req.decode_len - req.generation_idx))
      × ((limit : ℕ)
          → c.max_model_len ≡ some limit
          → tokens ≢ 0
          → (is_context_build req ≡ false → context_len req + tokens ≤ limit)
            × (req.num_computed_tokens + tokens < limit))
      × (is_context_build req ≡ true
          → (n : ℕ) → n ≤ min budget (max 1 (remaining_context_tokens req))
          → (threshold ≡ 0) ⊎ (n ≤ threshold)
          → Fits c req n
          → n ≤ tokens)
      × (is_context_build req ≡ false
          → c.mtp_enabled ≡ false
          → 0 < budget
          → Fits c req 1
          → ((limit : ℕ) → c.max_model_len ≡ some limit → context_len req < limit)
          → tokens ≡ 1)
unfolding scheduled_step_tokens decode_output_tokens budget_cost query_width
scheduled_step_tokens_lem c accepted_by threshold budget req = (
  λ some_token. ground arith,
  λ b. ground (arith, b),
  λ b. ground (arith, b),
  λ limit l some_token. (λ b. ground (arith, b, l, some_token), ground (arith, l, some_token)),
  λ b n within short fits. elim (Option-cases c.max_model_len) [
    | inl e ↦ ground (arith, b, within, short, e)
    | inr (limit, e) ↦ let room = fits limit e in ground (arith, b, within, short, e, room)
  ],
  λ b m some_budget fits open_. elim (Option-cases c.max_model_len) [
    | inl e ↦ ground (arith, b, m, some_budget, e)
    | inr (limit, e) ↦
        let room = fits limit e in
        let below = open_ limit e in ground (arith, b, m, some_budget, e, room, below)
  ],
)

-- The cost of what a step has scheduled.
abbrev pub total_cost : Config → List Request → ℕ
total_cost c [] = 0
total_cost c (r ∷ rs) = budget_cost c r r.scheduled_tokens + total_cost c rs

pub total_cost-append :
    (c : Config) (rs ss : List Request)
    → total_cost c (rs ++ ss) ≡ total_cost c rs + total_cost c ss
total_cost-append c [] ss = omega arith
total_cost-append c (r ∷ rs) ss = omega (arith, total_cost-append c rs ss)

-- What is left of a budget and what is spent are the whole of it.
abbrev pub Accounts : Config → ℕ → Step → Type 0
Accounts c total step =
    (left : ℕ) × (step.budget ≡ some left) × (left + total_cost c step.scheduled ≡ total)

publish-Accounts :
    (c : Config) (tokens queries total : ℕ) (req : Request) (step : Step)
    → ((left : ℕ) → step.budget ≡ some left → budget_cost c req tokens ≤ left)
    → Accounts c total step
    → Accounts c total (publish c tokens queries req step)
unfolding budget_cost query_width
publish-Accounts c tokens queries total req step affordable (left, e, sum) = (
  left - budget_cost c req tokens,
  rw e refl,
  omega (
    arith,
    affordable left e,
    total_cost-append c step.scheduled (planned tokens queries req ∷ []),
    sum,
  ),
)

pub affordable_tokens :
    (c : Config) (accepted_by : Request → ℕ) (threshold : ℕ) (req : Request) (budget : Option ℕ)
    (left : ℕ)
    → budget ≡ some left
    → let (tokens, req') = scheduled_step_tokens c accepted_by threshold req budget in
      tokens ≢ 0 → budget_cost c req' tokens ≤ left
affordable_tokens c accepted_by threshold req budget left e =
    rw e (scheduled_step_tokens_lem c accepted_by threshold left req).0

-- The cost of a request does not depend on its blocks.
cost_of_blocks :
    (c : Config) (tokens : ℕ) (req req2 : Request)
    → req2 ≡ record req { physical_token_blocks = req2.physical_token_blocks }
    → budget_cost c req2 tokens ≡ budget_cost c req tokens
unfolding budget_cost query_width
cost_of_blocks c tokens req req2 e = rw e refl

module _ (c : Config) (accepted_by : Request → ℕ) (threshold : ℕ) (defer_prefills : Bool) where
  run-Accounts :
      (fuel : ℕ) (queue : List Request) (step step' : Step) (s s' : State) (total : ℕ)
      → Accounts c total step
      → run c accepted_by threshold defer_prefills fuel queue step s ≡ (ok step', s')
      → Accounts c total step'
  unfolding run
  run-Accounts zero queue step step' s s' total acc h =
      let same : step ≡ step' = ground (arith, h) in subst (Accounts c total) same acc
  run-Accounts (suc fuel) [] step step' s s' total acc h =
      let same : step ≡ step' = ground (arith, h) in subst (Accounts c total) same acc
  run-Accounts (suc fuel) (req ∷ queue) step step' s s' total acc h =
      let next = run c accepted_by threshold defer_prefills fuel in
      let made = scheduled_step_tokens c accepted_by threshold req step.budget in
      let queries = query_width c made.1 made.0 in
      let afford = affordable_tokens c accepted_by threshold req step.budget in
      elim (round-Rounds c accepted_by threshold defer_prefills next req queue step s) [
        | deferred e ↦ run-Accounts fuel queue step step' _ s' total acc (sym e ∙ h)
        | idle e ↦ run-Accounts fuel queue step step' _ s' total acc (sym e ∙ h)
        | context some_token e ↦
            run-Accounts fuel queue (publish c made.0 queries made.1 step) step' _ s' total
              (publish-Accounts c made.0 queries total made.1 step
                (λ left b. afford left b some_token) acc)
              (sym e ∙ h)
        | itself res got none_left e ↦
            run-Accounts fuel (reverse res.queue) (record step { preempted = res.preempted }) step'
              _ s' total acc (sym e ∙ h)
        | decode some_token res req2 got slot e ↦
            let step2 : Step = record step { preempted = res.preempted } in
            let same = cost_of_blocks c made.0 made.1 req2 (
              reserve_keeps made.1 (reverse queue) step.preempted s res _
                (ap (λ o. (o, (reserve_decode_slot made.1 (reverse queue) step.preempted s).1)) got)
                req2 slot) in
            run-Accounts fuel (reverse res.queue) (publish c made.0 queries req2 step2) step' _ s'
              total
              (publish-Accounts c made.0 queries total req2 step2
                (λ left b. rw same (afford left b some_token)) acc)
              (sym e ∙ h)
        | failed x e ↦
            let no : (raise x, _) ≡ (ok step', s') = sym e ∙ h in absurd (ground (arith, no))
      ]

  -- A step over the running requests that starts with a budget and nothing scheduled, and returns, has
  -- scheduled requests whose costs and what is left of the budget add up to it.
  pub schedule_running-Accounts :
      (step step' : Step) (s s' : State) (total : ℕ)
      → step.budget ≡ some total
      → step.scheduled ≡ []
      → schedule_running c accepted_by threshold defer_prefills step s ≡ (ok step', s')
      → Accounts c total step'
  unfolding schedule_running
  schedule_running-Accounts step step' s s' total b e h =
      run-Accounts _ _ step step' _ s' total (total, b, rw e (omega arith)) h
