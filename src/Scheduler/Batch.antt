-- ===== src/Scheduler/Batch.antt =====
-- `LLMDynamicScheduler`, `LLMStaticScheduler` and `step_phase` of TokenSim/llm/llm_scheduler.py: batching
-- by request count alone. The static scheduler shares the dynamic one's limit, which is positive.
use token_sim.Prelude.{
  ℕ, ◌+◌, ◌-◌, ◌≤◌, ◌<◌, min, ◌≡◌, ap, ◌∙◌, Bool, true, false, not, ◌&&◌, List, [], ◌∷◌, ◌++◌,
  arith, if◌then◌else◌, keep_if, length, take, drop, append_assoc, length-append, length-take,
  length-drop, take-append-drop, All, Bool-cases, inl, inr,
}
use token_sim.Request.{Request, is_done, is_prefill}

pub data SchedulePhase : Type 0 where
  prefill decode mixed recompute idle : SchedulePhase

-- The phase of one request, in `step_phase`.
abbrev pub kind : Request → SchedulePhase
kind r = if r.needs_recompute then recompute else if is_prefill r then prefill else decode

abbrev pub same_phase : SchedulePhase → SchedulePhase → Bool
same_phase prefill prefill = true
same_phase decode decode = true
same_phase mixed mixed = true
same_phase recompute recompute = true
same_phase idle idle = true
same_phase _ _ = false

-- Whether the set of the kinds has `k` alone.
abbrev pub only : SchedulePhase → List Request → Bool
only k [] = true
only k (r ∷ rs) = same_phase (kind r) k && only k rs

unfoldable pub step_phase : List Request → SchedulePhase
step_phase [] = idle
step_phase (r ∷ rs) = if only (kind r) rs then kind r else mixed

pub record LlmScheduler : Type 0 where
  pub max_num_seqs : ℕ
  pub running : List Request
  pub waiting : List Request

-- The two statements that move the head of the waiting list.
abbrev pub admit : ℕ → LlmScheduler → LlmScheduler
admit available s = record s {
  running = s.running ++ take available s.waiting;
  waiting = drop available s.waiting;
}

unfoldable pub schedule_dynamic : LlmScheduler → LlmScheduler
schedule_dynamic s = admit (s.max_num_seqs - length s.running) s

unfoldable pub schedule_static : LlmScheduler → LlmScheduler
schedule_static s = elim s.running [ [] ↦ admit s.max_num_seqs s | _ ∷ _ ↦ s ]

-- The last assignment of `update`.
unfoldable pub update_running : LlmScheduler → LlmScheduler
update_running s = record s { running = keep_if (λ r. not (is_done r)) s.running }

-- A dynamic step keeps the order of arrival over the running and the waiting requests, leaves the batch
-- within the limit where it was within it, and leaves a request waiting only when the batch is full.
pub schedule_dynamic_lem :
    (s : LlmScheduler)
    → length s.running ≤ s.max_num_seqs
    → let s' = schedule_dynamic s in
      (s'.running ++ s'.waiting ≡ s.running ++ s.waiting)
      × (length s'.running ≤ s.max_num_seqs)
      × (0 < length s'.waiting → length s'.running ≡ s.max_num_seqs)
unfolding schedule_dynamic
schedule_dynamic_lem s fits =
    let available = s.max_num_seqs - length s.running in
    let grown = length-append s.running (take available s.waiting) in
    let taken = length-take available s.waiting in
    let left = length-drop available s.waiting in
    (
      append_assoc s.running (take available s.waiting) (drop available s.waiting)
          ∙ ap (s.running ++◌) (take-append-drop available s.waiting),
      omega (arith, grown, taken, fits),
      λ some_left. omega (arith, grown, taken, left, fits, some_left),
    )

-- A static step changes nothing while a batch runs; otherwise the batch is the longest prefix of the
-- waiting requests within the limit, and the rest waits in order.
pub schedule_static_lem :
    (s : LlmScheduler)
    → let s' = schedule_static s in
      (0 < length s.running → s' ≡ s)
      × (s.running ≡ []
          → (s'.running ++ s'.waiting ≡ s.waiting)
            × (length s'.running ≡ min s.max_num_seqs (length s.waiting)))
unfolding schedule_static
schedule_static_lem s = (
  λ busy. ground (arith, busy),
  λ none_runs. (
    rw none_runs (take-append-drop s.max_num_seqs s.waiting),
    rw none_runs (length-take s.max_num_seqs s.waiting),
  ),
)

-- After an update no running request is done, and every request that was not done is still running.
update_running_lem :
    (s : LlmScheduler)
    → All (λ r. is_done r ≡ false) (update_running s).running
      × (length (update_running s).running + length (keep_if is_done s.running) ≡ length s.running)
unfolding update_running
update_running_lem s = (open_ s.running, parts s.running)
  where
    open_ : (rs : List Request) → All (λ r. is_done r ≡ false) (keep_if (λ r. not (is_done r)) rs)
    open_ [] = tt
    open_ (r ∷ rs) = elim (Bool-cases (is_done r)) [
      | inl t ↦ rw t (open_ rs)
      | inr f ↦ rw f (f, open_ rs)
    ]

    parts :
        (rs : List Request)
        → length (keep_if (λ r. not (is_done r)) rs) + length (keep_if is_done rs) ≡ length rs
    parts [] = omega arith
    parts (r ∷ rs) = ground (arith, parts rs)
