-- ===== src/Request/Tokens.antt =====
-- Token progress of a request: what every step keeps, and that a request finishes.
use token_sim.Prelude.{
  List, [], ◌∷◌, length, ℕ, ◌+◌, ◌≤◌, ◌<◌, ◌≡◌, ◌⊎◌, inl, inr, true, false, none, some, arith, ltb,
  if◌then◌else◌, nat_eq, Bool-cases,
}
use token_sim.Request.{Request, context_len, is_done, is_context_build, step_tokens}
use token_sim.Request.Steps.{sample, step, advance, complete_timing}

-- What holds of a request that is not cancelled, between two steps.
pub record IsProgressing (r : Request) : Type 0 where
  pub logical : r.logical_tokens ≡ context_len r
  pub within : r.generation_idx ≤ r.decode_len
  pub fits : (limit : ℕ) → r.max_model_len ≡ some limit → context_len r ≤ limit
  pub clock : (t : ℕ) → r.arrival_at ≡ some t → t + r.total_time ≡ r.last_event_at

-- `step` of a request that is not done, at a time that is not before its last event, keeps the logical tokens
-- those of its context, its output within what it decodes, its context within the model's length, and its
-- total time the time since its arrival.
pub step-IsProgressing :
    (now latency batch wanted : ℕ) (r : Request)
    → IsProgressing r
    → is_done r ≡ false
    → r.last_event_at ≤ now
    → IsProgressing (step now latency batch wanted r).1
unfolding step
step-IsProgressing now latency batch wanted r p open_ tick = record {
  logical = ground (arith, p.logical);
  within = ground (arith, p.within);
  fits = λ limit e. ground (arith, p.fits limit);
  clock = λ t e. ground (arith, p.clock t);
}

-- A request that is not done has room for a token.
room :
    (r : Request)
    → r.cancel_requested ≡ false
    → is_done r ≡ false
    → (r.generation_idx < r.decode_len)
      × ((limit : ℕ) → r.max_model_len ≡ some limit → context_len r < limit)
room r c open_ = (ground arith, λ limit e. ground arith)

-- `step` emits between one token and the tokens that were still to decode, and returns the timing
-- exactly where the request is done.
pub step_emits :
    (now latency batch wanted : ℕ) (r : Request)
    → r.cancel_requested ≡ false
    → is_done r ≡ false
    → let (result, r') = step now latency batch wanted r in
      (r.generation_idx < r'.generation_idx)
      × (r'.generation_idx ≤ r.decode_len)
      × ((is_done r' ≡ true) × (result ≡ some (complete_timing r'))
          ⊎ (is_done r' ≡ false) × (result ≡ none))
unfolding step
step_emits now latency batch wanted r c open_ =
    let (a, b) = room r c open_ in
    (
      ground (arith, a),
      ground (arith, a),
      elim (Bool-cases (is_done (sample now latency batch wanted r))) [
        | inl t ↦ inl (ground arith, ground arith)
        | inr f ↦ inr (ground arith, ground arith)
      ],
    )

-- The arguments of one call of `step`.
pub record StepCall : Type 0 where
  pub now : ℕ
  pub latency : ℕ
  pub batch : ℕ
  pub wanted : ℕ

abbrev pub call_step : StepCall → Request → Request
call_step c r = (step c.now c.latency c.batch c.wanted r).1

-- Calls of `step` in turn, until the request is done or they are used up.
pub decode_all : List StepCall → Request → Request
decode_all [] r = r
decode_all (c ∷ cs) r = let rest = decode_all cs (call_step c r) in if is_done r then r else rest

step_not_cancelled :
    (now latency batch wanted : ℕ) (r : Request)
    → r.cancel_requested ≡ false
    → ((step now latency batch wanted r).1.cancel_requested ≡ false)
      × ((step now latency batch wanted r).1.decode_len ≡ r.decode_len)
unfolding step
step_not_cancelled now latency batch wanted r c = (ground arith, ground arith)

-- Decoding of a request that is not cancelled finishes: as many steps as there are tokens left are enough,
-- whatever time, latency, batch and number of tokens each step has.
pub decode_all_finishes :
    (cs : List StepCall) (r : Request)
    → r.cancel_requested ≡ false
    → r.decode_len ≤ r.generation_idx + length cs
    → is_done (decode_all cs r) ≡ true
unfolding decode_all
decode_all_finishes [] r c enough = ground arith
decode_all_finishes (s ∷ cs) r c enough = elim (Bool-cases (is_done r)) [
  | inl t ↦ rw t t
  | inr f ↦
      let (more, _, _) = step_emits s.now s.latency s.batch s.wanted r c f in
      let (c', same) = step_not_cancelled s.now s.latency s.batch s.wanted r c in
      rw f (decode_all_finishes cs (call_step s r) c' (omega arith))
]

-- One scheduler step of a context build that takes `n` tokens: short of the context it only
-- accumulates; reaching it, exactly one token is sampled.
pub advance_chunk :
    (now latency batch : ℕ) (r : Request)
    → r.cancel_requested ≡ false
    → is_done r ≡ false
    → is_context_build r ≡ true
    → let (result, r') = advance now latency batch r in
      let computed = r.num_computed_tokens + step_tokens r in
      (r'.num_computed_tokens ≡ computed)
      × (if ltb computed (context_len r)
          then (result ≡ none) × (r'.generation_idx ≡ r.generation_idx)
          else (r'.generation_idx ≡ r.generation_idx + 1) × (r'.needs_recompute ≡ false))
unfolding advance
advance_chunk now latency batch r c open_ build =
    let (a, b) = room r c open_ in
    (
      ground (arith, a),
      elim (Bool-cases (ltb (r.num_computed_tokens + step_tokens r) (context_len r))) [
        | inl t ↦ rw t (ground arith, ground arith)
        | inr f ↦ rw f (ground (arith, a), ground arith)
      ],
    )
