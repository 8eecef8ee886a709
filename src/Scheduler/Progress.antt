-- ===== src/Scheduler/Progress.antt =====
-- No request is lost by a step over the running requests: the rounds that the loop is given are enough.
use token_sim.Prelude.{
  ℕ, zero, suc, ◌+◌, ◌≤◌, ◌≡◌, refl, sym, ap, ◌∙◌, Bool, Option, none, some, List, [], ◌∷◌, subst,
  arith, nat_eq, length,
}
use mathlib.Core.List.{reverse}
use token_sim.Errors.{Outcome, ok, raise}
use token_sim.Request.{Request}
use token_sim.Scheduler.{Config, State, scheduled_step_tokens, decode_output_tokens, query_width}
use token_sim.Scheduler.Rounds.{round-Rounds, deferred, idle, context, itself, decode, failed}
use token_sim.Scheduler.Running.{
  Reserved, Step, reserve_decode_slot, planned, keep, run, schedule_running, sort_by_arrival,
}
use token_sim.Scheduler.Kept.{
  times, times-append, times-reverse, times-sort, length-reverse, same_times, reserve-Kept, Kept,
  KeptIn, slot_times,
}

module _ (c : Config) (accepted_by : Request → ℕ) (threshold : ℕ) (defer_prefills : Bool) where
  asked_id :
      (req : Request) (budget : Option ℕ)
      → (scheduled_step_tokens c accepted_by threshold req budget).1.id ≡ req.id
  unfolding scheduled_step_tokens decode_output_tokens
  asked_id req budget = ground arith

  abbrev held : ℕ → List Request → Step → State → ℕ
  held x queue step s = times x queue + times x s.running + times x step.preempted

  held-keep :
      (x : ℕ) (r req : Request) (queue : List Request) (step : Step) (s : State)
      → r.id ≡ req.id
      → held x queue step (keep r s) ≡ held x (req ∷ queue) step s
  held-keep x r req queue step s e =
      omega (arith, times-append x s.running (r ∷ []), same_times x r req e)

  held_found :
      (x : ℕ) (req asked : Request) (queue : List Request) (step : Step) (s s' : State)
      (res : Reserved)
      → asked.id ≡ req.id
      → Kept asked (reverse queue) step.preempted s s' res
      → slot_times x res.slot
          + held x (reverse res.queue) (record step { preempted = res.preempted }) s'
        ≡ held x (req ∷ queue) step s
  held_found x req asked queue step s s' res e k =
      let same : times x s'.running ≡ times x s.running =
        ap (λ (o : List Request). times x o) k.running in
      omega (
        arith,
        same,
        k.all x,
        times-reverse x queue,
        times-reverse x res.queue,
        same_times x asked req e,
      )

  held-slot :
      (x : ℕ) (req2 : Request) (res : Reserved) (queue : List Request) (step : Step) (s : State)
      → res.slot ≡ some req2
      → held x (req2 ∷ queue) step s ≡ slot_times x res.slot + held x queue step s
  held-slot x req2 res queue step s e = rw e (omega arith)

  held-none :
      (x : ℕ) (res : Reserved) (queue : List Request) (step : Step) (s : State)
      → res.slot ≡ none
      → held x queue step s ≡ slot_times x res.slot + held x queue step s
  held-none x res queue step s e = rw e (omega arith)

  held_same :
      (x : ℕ) (step step' : Step) (s s' : State)
      → ◌≡◌ {A = Outcome Step × State} (ok step, s) (ok step', s')
      → held x [] step' s' ≡ held x [] step s
  held_same x step step' s s' h =
      let a : step' ≡ step = ground (arith, h) in
      let b : s' ≡ s = sym (ap (λ (o : Outcome Step × State). o.1) h) in
      omega
        (arith, ap (λ (o : Step). times x o.preempted) a, ap (λ (o : State). times x o.running) b)

  run_keeps :
      (fuel : ℕ) (queue : List Request) (step step' : Step) (s s' : State)
      → length queue ≤ fuel
      → run c accepted_by threshold defer_prefills fuel queue step s ≡ (ok step', s')
      → (x : ℕ) → held x [] step' s' ≡ held x queue step s
  unfolding run
  run_keeps zero [] step step' s s' enough h x = held_same x step step' s s' h
  run_keeps (suc fuel) [] step step' s s' enough h x = held_same x step step' s s' h
  run_keeps zero (req ∷ queue) step step' s s' enough h x = absurd (omega (arith, enough))
  run_keeps (suc fuel) (req ∷ queue) step step' s s' enough h x =
      let next = run c accepted_by threshold defer_prefills fuel in
      let made = scheduled_step_tokens c accepted_by threshold req step.budget in
      let queries = query_width c made.1 made.0 in
      let same = asked_id req step.budget in
      let found = reserve_decode_slot made.1 (reverse queue) step.preempted s in
      let kept = λ (res : Reserved) (got : found.0 ≡ ok res).
        subst (KeptIn made.1 (reverse queue) step.preempted s) (ap (λ o. (o, found.1)) got)
          (reserve-Kept made.1 (reverse queue) step.preempted s) in
      let shorter : (res : Reserved) → found.0 ≡ ok res → length (reverse res.queue) ≤ fuel =
        λ res got.
          omega (
            arith,
            enough,
            (kept res got).shorter,
            length-reverse res.queue,
            length-reverse queue,
          ) in
      let fits : length queue ≤ fuel = omega (arith, enough) in
      elim (round-Rounds c accepted_by threshold defer_prefills next req queue step s) [
        | deferred e ↦
            run_keeps fuel queue step step' _ s' fits (sym e ∙ h) x
            ∙ held-keep x req req queue step s refl
        | idle e ↦
            run_keeps fuel queue step step' _ s' fits (sym e ∙ h) x
            ∙ held-keep x made.1 req queue step s same
        | context some_token e ↦
            run_keeps fuel queue _ step' _ s' fits (sym e ∙ h) x
            ∙ held-keep x (planned made.0 queries made.1) req queue step s same
        | itself res got none_left e ↦
            run_keeps fuel (reverse res.queue) _ step' _ s' (shorter res got) (sym e ∙ h) x
            ∙ held-none x res (reverse res.queue) (record step { preempted = res.preempted })
                found.1 none_left
            ∙ held_found x req made.1 queue step s found.1 res same (kept res got)
        | decode some_token res req2 got slot e ↦
            run_keeps fuel (reverse res.queue) _ step' _ s' (shorter res got) (sym e ∙ h) x
            ∙ held-keep x (planned made.0 queries req2) req2 (reverse res.queue)
                (record step { preempted = res.preempted }) found.1 refl
            ∙ held-slot x req2 res (reverse res.queue) (record step { preempted = res.preempted })
                found.1 slot
            ∙ held_found x req made.1 queue step s found.1 res same (kept res got)
        | failed y e ↦
            let no : (raise y, _) ≡ (ok step', s') = sym e ∙ h in absurd (ground (arith, no))
      ]

  -- A step over the running requests that returns has lost and doubled none: each request that was running
  -- or preempted is afterwards as often running or preempted.
  pub schedule_running_keeps :
      (step step' : Step) (s s' : State) (x : ℕ)
      → schedule_running c accepted_by threshold defer_prefills step s ≡ (ok step', s')
      → times x s'.running + times x step'.preempted ≡ times x s.running + times x step.preempted
  unfolding schedule_running
  schedule_running_keeps step step' s s' x h = omega (
    arith,
    run_keeps _ (sort_by_arrival s.running) step step' _ s' (omega arith) h x,
    times-sort x s.running,
  )
