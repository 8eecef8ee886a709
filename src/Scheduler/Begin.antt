-- ===== src/Scheduler/Begin.antt =====
-- `_begin_step` and `_assign_waiting` of TokenSim/llm/paged_scheduling.py: the throttling of a step, and
-- the entry of an admitted request.
use token_sim.Prelude.{
  ℕ, ◌+◌, ◌-◌, ◌/◌, ◌≤◌, ◌<◌, max, ◌≡◌, Bool, true, false, not, ◌&&◌, ◌||◌, Option, none, some,
  List, [], ◌∷◌, ◌++◌, arith, ltb, ◌==◌, if◌then◌else◌, nat_eq, length, ◌⊎◌, inl, inr, refl, subst,
  ◌*◌, Bool-cases,
}
use native.Mathlib.Nat.{mod-lt, mod-add-div', mul-le-mul_right}
use token_sim.Request.{Request, is_context_build}
use token_sim.Scheduler.{State}
use token_sim.Scheduler.Running.{Step, spend, planned, keep}

-- `any(not r.prefill_chunk_pending for r in self.running)`
abbrev pub any_settled : List Request → Bool
any_settled [] = false
any_settled (r ∷ rs) = not r.prefill_chunk_pending || any_settled rs

-- The two configured values of the long-prefill limit.
pub record LongPrefill : Type 0 where
  pub threshold : ℕ
  pub adaptive : Bool

-- `_begin_step`: whether prefills are deferred, and `effective_long_prefill_threshold`.
unfoldable pub begin_step : LongPrefill → Bool → Bool → Option ℕ → ℕ → ℕ → List Request → Bool × ℕ
begin_step long throttle_prefills capacity_bound budget waiting loading running =
    let eligible = length running + waiting + loading in
    let threshold = if ltb 1 eligible then long.threshold else 0 in
    let raised : ℕ = elim budget [
      | none ↦ threshold
      | some n ↦ if n == 0 then threshold else max threshold (n / eligible)
    ] in
    (
      throttle_prefills && (not capacity_bound && any_settled running),
      (if not (threshold == 0) && long.adaptive then raised else threshold),
    )

-- The fields that `_assign_waiting` writes.
abbrev pub assigned : ℕ → ℕ → Request → Request
assigned tokens query_tokens req = record (planned tokens query_tokens req) {
  admission = record (planned tokens query_tokens req).admission {
    scheduled_placeholder_tokens = if is_context_build req then query_tokens - tokens else 0;
  };
}

-- `_assign_waiting`
unfoldable pub assign_waiting : Request → ℕ → ℕ → Step → State → Step × State
assign_waiting req tokens query_tokens step s = (
  record step {
    budget = spend query_tokens step.budget;
    scheduled = step.scheduled ++ assigned tokens query_tokens req ∷ [];
  },
  keep (assigned tokens query_tokens req) s,
)

-- The limit of a step, whatever its budget. Where one request is eligible at most, or no limit is configured,
-- there is none. It is never below the configured one, and is above it only with the adaptive option and
-- where the step has a budget that gives every eligible request the limit. With the adaptive option, a
-- configured limit and more than one eligible request, it leaves less than one token of the budget for each
-- of them when all take it.
pub begin_step_lem :
    (long : LongPrefill) (throttle capacity_bound : Bool) (budget : Option ℕ) (waiting loading : ℕ)
    (running : List Request)
    → let eligible = length running + waiting + loading in
      let limit = (begin_step long throttle capacity_bound budget waiting loading running).1 in
      ((eligible ≤ 1) ⊎ (long.threshold ≡ 0) → limit ≡ 0)
      × (1 < eligible → long.threshold ≤ limit)
      × (1 < eligible
          → long.threshold < limit
          → (long.adaptive ≡ true) × ((n : ℕ) × (budget ≡ some n) × (limit * eligible ≤ n)))
      × (1 < eligible
          → 0 < long.threshold
          → long.adaptive ≡ true
          → (n : ℕ) → budget ≡ some n
          → n < limit * eligible + eligible)
unfolding begin_step
begin_step_lem long throttle capacity_bound none waiting loading running = (
  λ a. ground (arith, a),
  λ a. ground (arith, a),
  λ a b. absurd (ground (arith, a, b)),
  λ a b c n e. absurd (ground (arith, e)),
)
begin_step_lem long throttle capacity_bound (some n) waiting loading running = (
  λ a. ground (arith, a),
  λ a. ground (arith, a),
  λ a b. (ground (arith, a, b), (n, refl, shared a b)),
  λ a b c m e. subst (λ (k : ℕ). k < limit * eligible + eligible) (ground (arith, e)) (fair a b c),
)
  where
    eligible : ℕ
    eligible = length running + waiting + loading

    limit : ℕ
    limit = (begin_step long throttle capacity_bound (some n) waiting loading running).1

    shared : 1 < eligible → long.threshold < limit → limit * eligible ≤ n
    shared a b =
        let share : limit ≡ n / eligible = ground (arith, a, b) in
        rw share (omega (arith, mod-add-div' n eligible))

    fair :
        1 < eligible → 0 < long.threshold → long.adaptive ≡ true → n < limit * eligible + eligible
    fair a b c = elim (Bool-cases (n == 0)) [
      | inl t ↦ let none_left : n ≡ 0 = ground (arith, t) in omega (arith, none_left, a)
      | inr f ↦
          let enough : n / eligible ≤ limit = ground (arith, a, b, c, f) in
          let below = mul-le-mul_right eligible enough in
          let pos : 0 < eligible = omega (arith, a) in
          omega (arith, mod-add-div' n eligible, mod-lt n pos, below)
    ]
