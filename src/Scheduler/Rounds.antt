-- ===== src/Scheduler/Rounds.antt =====
-- The cases of a round of `_schedule_running`, and what `append_slot` and `_reserve_decode_slot` leave of a
-- request.
use token_sim.Prelude.{
  ℕ, ◌+◌, ◌≡◌, ◌≢◌, refl, ap, ◌∙◌, Bool, false, ◌&&◌, Option, none, some, List, [], ◌∷◌, ◌++◌,
  arith, ◌==◌, if◌then◌else◌, nat_eq, Bool-cases, inl, inr, Option-cases,
}
use mathlib.Core.List.{reverse}
use token_sim.Errors.{Error, Outcome, ok, raise, continue, Outcome-cases}
use token_sim.Block.Manager
use token_sim.Block.Manager.{can_append_slot}
use token_sim.Block.Allocator
use token_sim.Block.Physical.{gpu}
use token_sim.Request.{Request, is_context_build}
use token_sim.Scheduler.{Config, State, query_width, preempt, scheduled_step_tokens}
use token_sim.Scheduler.Running.{
  Reserved, Step, reserve_decode_slot, planned, publish, keep, round, after_slot,
}

-- What `append_slot` and `reserve_decode_slot` leave of a request: all but its blocks.
pub append_slot_keeps :
    (req req2 : Request) (m : Manager.BlockManager)
    → (Manager.append_slot req m).0 ≡ ok req2
    → req2 ≡ record req { physical_token_blocks = req2.physical_token_blocks }
unfolding Manager.append_slot
append_slot_keeps req req2 m h = elim (Bool-cases (Manager.needs_block req m)) [
  | inl t ↦ elim (Outcome-cases (Manager.on gpu Allocator.allocate m).0) [
    | inl (b, got) ↦ ground (arith, t, got, h)
    | inr (e, got) ↦ absurd (ground (arith, t, got, h))
  ]
  | inr f ↦ ground (arith, h)
]

pub reserve_keeps :
    (req : Request) (queue preempted : List Request) (s : State) (res : Reserved) (s' : State)
    → reserve_decode_slot req queue preempted s ≡ (ok res, s')
    → (req2 : Request) → res.slot ≡ some req2
    → req2 ≡ record req { physical_token_blocks = req2.physical_token_blocks }
unfolding reserve_decode_slot
reserve_keeps req [] preempted s res s' h req2 e =
    let r = (Manager.append_slot req s.block_manager).0 in
    elim (Outcome-cases r) [
      | inl (a, got) ↦ elim (Outcome-cases (preempt req s).0) [
        | inl (v, gone) ↦ ground (arith, append_slot_keeps req a s.block_manager got)
        | inr (x, gone) ↦ ground (arith, append_slot_keeps req a s.block_manager got)
      ]
      | inr (x, got) ↦ elim (Outcome-cases (preempt req s).0) [
        | inl (v, gone) ↦ absurd (ground arith)
        | inr (y, gone) ↦ absurd (ground arith)
      ]
    ]
reserve_keeps req (victim ∷ queue) preempted s res s' h req2 e =
    elim (Bool-cases (can_append_slot req 0 s.block_manager)) [
      | inl t ↦ elim (Outcome-cases (Manager.append_slot req s.block_manager).0) [
        | inl (a, got) ↦ ground (arith, append_slot_keeps req a s.block_manager got)
        | inr (x, got) ↦ absurd (ground arith)
      ]
      | inr f ↦ elim (Outcome-cases (preempt victim s).0) [
        | inl (v, gone) ↦
            reserve_keeps req queue (preempted ++ v ∷ []) (preempt victim s).1 res s'
              (ground (arith, f, gone, h)) req2 e
        | inr (y, gone) ↦ absurd (ground arith)
      ]
    ]

if_false {ℓ} : {A : Type ℓ} {b : Bool} (x y : A) → b ≡ false → (if b then x else y) ≡ y
if_false x y f = rw f refl

module _ (c : Config) (accepted_by : Request → ℕ) (threshold : ℕ) (defer_prefills : Bool)
    (next : List Request → Step → State → Outcome Step × State) (req : Request)
    (queue : List Request) (step : Step) (s : State) where
  -- The tokens and the request that `_step_tokens` gives, and the search for a slot.
  abbrev pub tokens : ℕ
  tokens = (scheduled_step_tokens c accepted_by threshold req step.budget).0

  abbrev pub asked : Request
  asked = (scheduled_step_tokens c accepted_by threshold req step.budget).1

  abbrev pub found : Outcome Reserved × State
  found = reserve_decode_slot asked (reverse queue) step.preempted s

  pub data Rounds (out : Outcome Step × State) : Type 0 where
    deferred :
        out
          ≡ next queue step
              (keep req (record s { deferred_running_prefills = s.deferred_running_prefills + 1 }))
        → Rounds out
    idle : out ≡ next queue step (keep asked s) → Rounds out
    context :
        tokens ≢ 0
        → out
          ≡ next queue
              (publish c tokens (query_width c asked tokens) asked step)
              (keep (planned tokens (query_width c asked tokens) asked) s)
        → Rounds out
    itself :
        (res : Reserved)
        → found.0 ≡ ok res
        → res.slot ≡ none
        → out ≡ next (reverse res.queue) (record step { preempted = res.preempted }) found.1
        → Rounds out
    decode :
        tokens ≢ 0
        → (res : Reserved) (req2 : Request) → found.0 ≡ ok res
        → res.slot ≡ some req2
        → out
          ≡ next
              (reverse res.queue)
              (publish c tokens
                (query_width c asked tokens)
                req2
                (record step { preempted = res.preempted }))
              (keep (planned tokens (query_width c asked tokens) req2) found.1)
        → Rounds out
    failed : (e : Error) → out ≡ (raise e, found.1) → Rounds out

  go_on : Reserved → Option Request → State → Outcome Step × State
  go_on res slot s' =
      after_slot c next tokens (query_width c asked tokens) (reverse res.queue)
        (record step { preempted = res.preempted }) slot s'

  resume : Outcome Reserved → Outcome Step × State
  resume r = continue r (λ res. go_on res res.slot) found.1

  pub round-Rounds : Rounds (round c accepted_by threshold defer_prefills next req queue step s)
  unfolding round after_slot go_on resume
  round-Rounds = elim (Bool-cases (defer_prefills && req.prefill_chunk_pending)) [
    | inl t ↦ deferred (rw t refl)
    | inr f ↦ elim (Bool-cases (tokens == 0)) [
      | inl t ↦ idle (rw (f, t) refl)
      | inr g ↦
          let some_token : tokens ≢ 0 = ground (arith, g) in
          elim (Bool-cases (is_context_build asked)) [
            | inl t ↦ context some_token (rw (f, g, t) refl)
            | inr k ↦
                let searched = if_false _ _ f ∙ if_false _ _ g ∙ if_false _ _ k in
                elim (Outcome-cases found.0) [
                  | inr (x, got) ↦ failed x (searched ∙ ap resume got)
                  | inl (res, got) ↦ elim (Option-cases res.slot) [
                    | inl e ↦
                        itself res got e
                          (searched ∙ ap resume got ∙ ap (λ slot. go_on res slot found.1) e)
                    | inr (req2, e) ↦
                        decode some_token res req2 got e
                          (searched ∙ ap resume got ∙ ap (λ slot. go_on res slot found.1) e)
                  ]
                ]
          ]
    ]
  ]
