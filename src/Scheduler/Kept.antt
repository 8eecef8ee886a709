-- ===== src/Scheduler/Kept.antt =====
-- What sorting, preemption and the search for a slot do with the requests that they are given.
use token_sim.Prelude.{
  ℕ, suc, ◌+◌, ◌≤◌, ◌≡◌, refl, sym, ap, ◌∙◌, Option, none, some, List, [], ◌∷◌, ◌++◌, arith, ◌==◌,
  if◌then◌else◌, nat_eq, length, length-append, Bool-cases, inl, inr,
}
use mathlib.Core.List.{reverse, reverse-cons}
use token_sim.Errors.{Outcome, ok, raise, Outcome-cases}
use token_sim.Block.Manager
use token_sim.Block.Manager.{can_append_slot}
use token_sim.Block.Table.{pop_blocks}
use token_sim.Request.{Request, prepare_recompute}
use token_sim.Scheduler.{State, preempt}
use token_sim.Scheduler.Rounds.{append_slot_keeps}
use token_sim.Scheduler.Running.{
  Reserved, reserve_decode_slot, sort_by_arrival, insert_by_arrival, arrives_by,
}

-- How often a request with this identifier is in a list.
abbrev pub times : ℕ → List Request → ℕ
times x [] = 0
times x (r ∷ rs) = (if r.id == x then 1 else 0) + times x rs

pub times-append : (x : ℕ) (rs ss : List Request) → times x (rs ++ ss) ≡ times x rs + times x ss
times-append x [] ss = omega arith
times-append x (r ∷ rs) ss = omega (arith, times-append x rs ss)

pub times-reverse : (x : ℕ) (rs : List Request) → times x (reverse rs) ≡ times x rs
times-reverse x [] = refl
times-reverse x (r ∷ rs) =
    rw (reverse-cons r rs) (omega (arith, times-append x (reverse rs) (r ∷ []), times-reverse x rs))

times-insert :
    (x : ℕ) (r : Request) (rs : List Request) → times x (insert_by_arrival r rs) ≡ times x (r ∷ rs)
times-insert x r [] = refl
times-insert x r (y ∷ rs) = elim (Bool-cases (arrives_by r y)) [
  | inl t ↦ rw t refl
  | inr f ↦ rw f (omega (arith, times-insert x r rs))
]

pub times-sort : (x : ℕ) (rs : List Request) → times x (sort_by_arrival rs) ≡ times x rs
times-sort x [] = refl
times-sort x (r ∷ rs) = omega (arith, times-insert x r (sort_by_arrival rs), times-sort x rs)

length-insert :
    (r : Request) (rs : List Request) → length (insert_by_arrival r rs) ≡ suc (length rs)
length-insert r [] = refl
length-insert r (y ∷ rs) = elim (Bool-cases (arrives_by r y)) [
  | inl t ↦ rw t refl
  | inr f ↦ rw f (ap suc (length-insert r rs))
]

pub length-reverse : (rs : List Request) → length (reverse rs) ≡ length rs
length-reverse [] = refl
length-reverse (r ∷ rs) =
    rw (reverse-cons r rs) (omega (arith, length-append (reverse rs) (r ∷ []), length-reverse rs))

id_of : ℕ → Outcome Request → ℕ
id_of d (ok r) = r.id
id_of d (raise e) = d

release_keeps :
    (req r : Request) (m : Manager.BlockManager)
    → (Manager.release_request_blocks req m).0 ≡ ok r
    → r.id ≡ req.id
unfolding Manager.release_request_blocks id_of
release_keeps req r m h =
    let (held, table) = pop_blocks req.id m.block_table in
    elim (Outcome-cases
      (Manager.free_blocks (Manager.or_physical held req) (record m { block_table = table })).0) [
        | inl (v, got) ↦ sym (ap (id_of req.id) (rw got at h))
        | inr (e, got) ↦ let no : raise e ≡ ok r = rw got at h in absurd (cc no)
      ]

preempt_keeps :
    (req r : Request) (s : State)
    → (preempt req s).0 ≡ ok r
    → (r.id ≡ req.id) × ((preempt req s).1.running ≡ s.running)
unfolding preempt prepare_recompute id_of
preempt_keeps req r s h =
    elim (Outcome-cases (Manager.release_request_blocks req s.block_manager).0) [
      | inl (v, got) ↦ (
        sym (ap (id_of req.id) (rw got at h)) ∙ release_keeps req v s.block_manager got,
        rw got refl,
      )
      | inr (e, got) ↦ let no : raise e ≡ ok r = rw got at h in absurd (cc no)
    ]

abbrev pub slot_times : ℕ → Option Request → ℕ
slot_times x none = 0
slot_times x (some r) = if r.id == x then 1 else 0

-- What a search for a slot does with the requests: each is in the slot, queued or preempted.
pub record Kept (req : Request) (queue preempted : List Request) (s s' : State) (res : Reserved)
    : Type 0 where
  pub running : s'.running ≡ s.running
  pub shorter : length res.queue ≤ length queue
  pub all :
      (x : ℕ)
      → slot_times x res.slot + times x res.queue + times x res.preempted
        ≡ times x (req ∷ queue) + times x preempted

abbrev pub KeptIn :
    Request → List Request → List Request → State → Outcome Reserved × State → Type 0
KeptIn req queue preempted s (ok res, s') = Kept req queue preempted s s' res
KeptIn req queue preempted s (raise e, s') = Unit

pub same_times : (x : ℕ) (a b : Request) → a.id ≡ b.id → times x (a ∷ []) ≡ times x (b ∷ [])
same_times x a b e = rw e refl

append_slot_id :
    (req a : Request) (m : Manager.BlockManager)
    → (Manager.append_slot req m).0 ≡ ok a
    → a.id ≡ req.id
append_slot_id req a m h = ap (λ (r : Request). r.id) (append_slot_keeps req a m h)

pub reserve-Kept :
    (req : Request) (queue preempted : List Request) (s : State)
    → KeptIn req queue preempted s (reserve_decode_slot req queue preempted s)
unfolding reserve_decode_slot
reserve-Kept req [] preempted s = elim (Bool-cases (can_append_slot req 0 s.block_manager)) [
  | inl t ↦ elim (Outcome-cases (Manager.append_slot req s.block_manager).0) [
    | inl (a, got) ↦
        rw (t, got)
          (record {
            running = refl;
            shorter = omega arith;
            all = λ x. omega (arith, same_times x a req (append_slot_id req a s.block_manager got));
          })
    | inr (e, got) ↦ rw (t, got) tt
  ]
  | inr f ↦ elim (Outcome-cases (preempt req s).0) [
    | inl (v, gone) ↦
        let (same, kept) = preempt_keeps req v s gone in
        rw (f, gone)
          (record {
            running = kept;
            shorter = omega arith;
            all = λ x. omega (arith, times-append x preempted (v ∷ []), same_times x v req same);
          })
    | inr (e, gone) ↦ rw (f, gone) tt
  ]
]
reserve-Kept req (victim ∷ queue) preempted s =
    elim (Bool-cases (can_append_slot req 0 s.block_manager)) [
      | inl t ↦ elim (Outcome-cases (Manager.append_slot req s.block_manager).0) [
        | inl (a, got) ↦
            rw (t, got)
              (record {
                running = refl;
                shorter = omega arith;
                all = λ x.
                    omega (arith, same_times x a req (append_slot_id req a s.block_manager got));
              })
        | inr (e, got) ↦ rw (t, got) tt
      ]
      | inr f ↦ elim (Outcome-cases (preempt victim s).0) [
        | inl (v, gone) ↦
            rw (f, gone)
              (widen v gone
                (reserve_decode_slot req queue (preempted ++ v ∷ []) (preempt victim s).1)
                (reserve-Kept req queue (preempted ++ v ∷ []) (preempt victim s).1))
        | inr (e, gone) ↦ rw (f, gone) tt
      ]
    ]
  where
    widen :
        (v : Request)
        → (preempt victim s).0 ≡ ok v
        → (out : Outcome Reserved × State)
        → KeptIn req queue (preempted ++ v ∷ []) (preempt victim s).1 out
        → KeptIn req (victim ∷ queue) preempted s out
    widen v gone (raise e, s') k = tt
    widen v gone (ok res, s') k =
        let (same, kept) = preempt_keeps victim v s gone in
        record {
          running = k.running ∙ kept;
          shorter = omega (arith, k.shorter);
          all = λ x.
              omega (arith, k.all x, times-append x preempted (v ∷ []), same_times x v victim same);
        }
