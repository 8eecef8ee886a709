-- ===== src/Scheduler/Entries.antt =====
-- What the admission of waiting requests does with the requests, the budget and the limits of a step.
use token_sim.Prelude.{
  ℕ, ◌≤◌, ◌<◌, ◌≡◌, refl, sym, ap, ◌∙◌, Bool, false, Option, none, some, List, [], ◌∷◌, ◌++◌, ltb,
  leb, ◌==◌, nat_eq, length, length-append, append_assoc, append-nil, Bool-cases, inl, inr, arith,
}
use token_sim.Errors.{Outcome, ok, raise, continue_ok, with_state, Outcome-cases}
use token_sim.Block.PrefixCache.{Hashes}
use token_sim.Block.Manager
use token_sim.Block.Manager.{BlockManager, plan, take_blocks}
use token_sim.Block.CacheManager.{apply_plan, miss_block_count}
use token_sim.Block.Table.{get_num_blocks}
use token_sim.Request.{Request, start_context_build}
use token_sim.Scheduler.{
  Config, query_width, scheduled_step_tokens, waiting_query_tokens, decode_output_tokens,
}
use token_sim.Scheduler.Running.{Step}
use token_sim.Scheduler.Begin.{assigned, assign_waiting}
use token_sim.Scheduler.Admission.{
  Limits, PagedScheduler, admit, can_admit, place, enter, schedule_waiting, is_full, has_budget,
  prepared, with_manager, is_occupy_below_usage,
}

abbrev ids : List Request → List ℕ
ids [] = []
ids (r ∷ rs) = r.id ∷ ids rs

id_or : ℕ → Outcome Request → ℕ
id_or d (ok r) = r.id
id_or d (raise e) = d

module _ (hashes : Hashes) where
  allocate_id :
      (req : Request) (m : BlockManager) → id_or req.id (Manager.allocate hashes req m).0 ≡ req.id
  unfolding Manager.allocate apply_plan id_or
  allocate_id req m =
      let (p, m1) = plan hashes req m in
      elim (Bool-cases (ltb 0 (get_num_blocks req.id m.block_table))) [
        | inl held ↦ rw held refl
        | inr new ↦ elim (Outcome-cases (take_blocks p.hit_blocks (miss_block_count p) m1).0) [
          | inl (blocks, got) ↦ rw (new, got) refl
          | inr (e, got) ↦ rw (new, got) refl
        ]
      ]

  admit_id : (req r : Request) (m : BlockManager) → (admit hashes req m).0 ≡ ok r → r.id ≡ req.id
  unfolding admit start_context_build id_or
  admit_id req r m h =
      let (req', m') = prepared hashes req m in
      elim (Outcome-cases (Manager.allocate hashes req' m').0) [
        | inl (a, got) ↦
            sym (ap (id_or req.id) (rw got at h))
            ∙ sym (ap (id_or req.id) got)
            ∙ allocate_id req' m'
        | inr (e, got) ↦ let no : raise e ≡ ok r = rw got at h in absurd (cc no)
      ]

  module _ (c : Config) (l : Limits) (accepted_by : Request → ℕ) (threshold : ℕ)
      (defer_prefills : Bool) where
    -- A gate changes only the block manager and a counter.
    can_admit_keeps :
        (req : Request) (s : PagedScheduler)
        → let s' = (can_admit hashes defer_prefills req s).1 in
          (s'.state.running ≡ s.state.running)
          × (s'.state.waiting ≡ s.state.waiting)
          × (s'.last_admitted ≡ s.last_admitted)
    unfolding can_admit
    can_admit_keeps req s = (ground arith, ground arith, ground arith)

    -- A request that enters joins the running, scheduled and admitted ones.
    abbrev Enters : ℕ → Step → Step → PagedScheduler → PagedScheduler → Type 0
    Enters x step step' s s' =
        (r : Request) × (r.id ≡ x)
        × (s'.state.running ≡ s.state.running ++ r ∷ [])
        × (step'.scheduled ≡ step.scheduled ++ r ∷ [])
        × (s'.last_admitted ≡ s.last_admitted ++ r ∷ [])
        × (step'.preempted ≡ step.preempted)
        × (s'.state.waiting ≡ s.state.waiting)

    asked_id :
        (req : Request) (budget : Option ℕ)
        → (scheduled_step_tokens c accepted_by threshold req budget).1.id ≡ req.id
    unfolding scheduled_step_tokens decode_output_tokens
    asked_id req budget = ground arith

    place-Enters :
        (settled : Bool) (req : Request) (step step' : Step) (s s' : PagedScheduler)
        → place hashes c l accepted_by threshold defer_prefills settled req step s ≡ (ok step', s')
        → Enters req.id step step' s s'
    unfolding place assign_waiting
    place-Enters settled req step step' s s' h =
        let (tokens, req') = scheduled_step_tokens c accepted_by threshold req step.budget in
        let queries =
          waiting_query_tokens c req' tokens (query_width c req' tokens) step.budget settled none
            step.prefill_scheduled in
        elim (Bool-cases (queries == 0)) [
          | inl nothing ↦ absurd (ground (arith, nothing, h))
          | inr some_query ↦ (
            assigned tokens queries req',
            asked_id req step.budget,
            ground (arith, some_query, h),
            ground (arith, some_query, h),
            ground (arith, some_query, h),
            ground (arith, some_query, h),
            ground (arith, some_query, h),
          )
        ]

    enter-Enters :
        (settled : Bool) (req : Request) (rest : List Request) (step step' : Step)
        (s s' : PagedScheduler)
        → enter hashes c l accepted_by threshold defer_prefills settled req rest step s
          ≡ (ok step', s')
        → Enters req.id step step' (record s { state = record s.state { waiting = rest } }) s'
    unfolding enter
    enter-Enters settled req rest step step' s s' h =
        let popped : PagedScheduler = record s { state = record s.state { waiting = rest } } in
        let (r, m) = admit hashes req s.state.block_manager in
        let (req', got, placed) =
          continue_ok r
            (λ (a : Request) (t : PagedScheduler).
              place hashes c l accepted_by threshold defer_prefills settled a step t)
            (with_manager m popped) s' step' h in
        let (x, same, run, sched, last, pre, wait) =
          place-Enters settled req' step step' (with_manager m popped) s' placed in
        (x, same ∙ admit_id req req' s.state.block_manager got, run, sched, last, pre, wait)

    -- What admissions do: a first part of the waiting requests goes to the end of the running and of the
    -- scheduled ones, the rest waits on in order, and the limit on running requests is kept.
    pub record Admits (waiting : List Request) (step step' : Step) (s s' : PagedScheduler)
        : Type 0 where
      pub admitted : List Request
      pub in_order : ids waiting ≡ ids admitted ++ ids s'.state.waiting
      pub joined : s'.state.running ≡ s.state.running ++ admitted
      pub scheduled : step'.scheduled ≡ step.scheduled ++ admitted
      pub recorded : s'.last_admitted ≡ s.last_admitted ++ admitted
      pub preempted : step'.preempted ≡ step.preempted
      pub within :
          (limit : ℕ)
          → l.max_num_seqs ≡ some limit
          → length s.state.running ≤ limit
          → length s'.state.running ≤ limit

    none_admitted :
        (waiting : List Request) (step step' : Step) (s s' : PagedScheduler)
        → s'.state.waiting ≡ waiting
        → s'.state.running ≡ s.state.running
        → s'.last_admitted ≡ s.last_admitted
        → step' ≡ step
        → Admits waiting step step' s s'
    none_admitted waiting step step' s s' w r a e = record {
      admitted = [];
      in_order = ap ids (sym w);
      joined = r ∙ sym (append-nil s.state.running);
      scheduled = ap (λ (x : Step). x.scheduled) e ∙ sym (append-nil step.scheduled);
      recorded = a ∙ sym (append-nil s.last_admitted);
      preempted = ap (λ (x : Step). x.preempted) e;
      within = λ limit some_limit fits. rw r fits;
    }

    ltb_of : (m n : ℕ) → leb m n ≡ false → n < m
    ltb_of m n h = ground (arith, h)

    one_more :
        (req : Request) (rest : List Request) (step mid step' : Step)
        (s gated t s' : PagedScheduler)
        → gated.state.running ≡ s.state.running
        → gated.last_admitted ≡ s.last_admitted
        → is_full l.max_num_seqs s.state.running ≡ false
        → Enters req.id step mid (record gated { state = record gated.state { waiting = rest } }) t
        → Admits rest mid step' t s'
        → Admits (req ∷ rest) step step' s s'
    one_more req rest step mid step' s gated t s' still kept room
          (r, same, run, sched, last, pre, wait) a =
        let grown : t.state.running ≡ s.state.running ++ r ∷ [] =
          run ∙ ap (λ (x : List Request). x ++ r ∷ []) still in
        record {
          admitted = r ∷ a.admitted;
          in_order = cc (a.in_order, same);
          joined =
              a.joined
              ∙ ap (λ (x : List Request). x ++ a.admitted) grown
              ∙ append_assoc s.state.running (r ∷ []) a.admitted;
          scheduled =
              a.scheduled
              ∙ ap (λ (x : List Request). x ++ a.admitted) sched
              ∙ append_assoc step.scheduled (r ∷ []) a.admitted;
          recorded =
              a.recorded
              ∙ ap (λ (x : List Request). x ++ a.admitted)
                  (last ∙ ap (λ (x : List Request). x ++ r ∷ []) kept)
              ∙ append_assoc s.last_admitted (r ∷ []) a.admitted;
          preempted = a.preempted ∙ pre;
          within = λ limit some_limit fits. a.within limit some_limit (
              let free : leb limit (length s.state.running) ≡ false = rw some_limit at room in
              omega (
                arith,
                ltb_of limit (length s.state.running) free,
                ap (λ (x : List Request). length x) grown,
                length-append s.state.running (r ∷ []),
              ));
        }

    stays :
        (waiting : List Request) (step step' : Step) (s u s' : PagedScheduler)
        → u.state.waiting ≡ waiting
        → u.state.running ≡ s.state.running
        → u.last_admitted ≡ s.last_admitted
        → ◌≡◌ {A = Outcome Step × PagedScheduler} (ok step, u) (ok step', s')
        → Admits waiting step step' s s'
    stays waiting step step' s u s' w r a h =
        let same : s' ≡ u = sym (ap (λ (o : Outcome Step × PagedScheduler). o.1) h) in
        none_admitted waiting step step' s s'
          (ap (λ (x : PagedScheduler). x.state.waiting) same ∙ w)
          (ap (λ (x : PagedScheduler). x.state.running) same ∙ r)
          (ap (λ (x : PagedScheduler). x.last_admitted) same ∙ a) (ground (arith, h))

    -- Admissions that return move a first part of the waiting requests, in order, to the end of the running,
    -- scheduled and recorded ones, leave the rest waiting, preempt nobody, and keep the limit on running
    -- requests where it was kept before.
    pub schedule_waiting-Admits :
        (settled : Bool) (waiting : List Request) (step step' : Step) (s s' : PagedScheduler)
        → s.state.waiting ≡ waiting
        → schedule_waiting hashes c l accepted_by threshold defer_prefills settled waiting step s
          ≡ (ok step', s')
        → Admits waiting step step' s s'
    unfolding schedule_waiting
    schedule_waiting-Admits settled [] step step' s s' w h =
        stays [] step step' s s s' w refl refl h
    schedule_waiting-Admits settled (req ∷ rest) step step' s s' w h =
        let (admits, t) = can_admit hashes defer_prefills req s in
        let (running, waits, last) = can_admit_keeps req s in
        let out = enter hashes c l accepted_by threshold defer_prefills settled req rest step t in
        elim (Bool-cases (has_budget step.budget)) [
          | inr spent ↦
              stays (req ∷ rest) step step' s s s' w refl refl (rw (spent, schedule_waiting) at h)
          | inl left ↦ elim (Bool-cases (is_occupy_below_usage l s.state.block_manager)) [
            | inr crowded ↦
                stays (req ∷ rest) step step' s s s' w refl refl
                  (rw (left, crowded, schedule_waiting) at h)
            | inl below ↦ elim (Bool-cases (is_full l.max_num_seqs s.state.running)) [
              | inl full ↦
                  stays (req ∷ rest) step step' s _ s' w refl refl
                    (rw (left, below, full, schedule_waiting) at h)
              | inr room ↦ elim (Bool-cases admits) [
                | inr refused ↦
                    stays (req ∷ rest) step step' s t s' (waits ∙ w) running last
                      (rw (left, below, room, refused, schedule_waiting) at h)
                | inl admitted ↦
                    let (mid, got, after) =
                      continue_ok out.0 _ out.1 s' step'
                        (rw (left, below, room, admitted, schedule_waiting) at h) in
                    let entered =
                      enter-Enters settled req rest step mid t out.1
                        (with_state out (ok mid) got) in
                    one_more req rest step mid step' s t out.1 s' running last room entered
                      (schedule_waiting-Admits settled rest mid step' out.1 s' entered.6 after)
              ]
            ]
          ]
        ]
