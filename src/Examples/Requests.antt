-- ===== src/Examples/Requests.antt =====
-- The life of a request at concrete inputs.
use token_sim.Prelude.{
  ◌+◌, ◌≤◌, ◌<◌, ◌≡◌, refl, true, false, none, some, List, [], ◌∷◌, arith, ltb, ◌⊎◌, if◌then◌else◌,
}
use token_sim.Request.{
  Request, context_len, is_done, step_tokens, record_context_admission, start_context_build,
  restore_admission_state, admission_state,
}
use token_sim.Request.Steps.{step, advance, request_cancel, acknowledge_cancel, complete_timing}
use token_sim.Request.Tokens.{
  StepCall, IsProgressing, step-IsProgressing, step_emits, decode_all, decode_all_finishes,
  advance_chunk,
}
use token_sim.Request.Admission.{rollback}
use token_sim.Request.Cancel.{Answer, Settles, answers, answers_settle, cancelled_stands}
use token_sim.Examples.Data.{prompt, decoding, cancelling}

prompt-IsProgressing : IsProgressing prompt
prompt-IsProgressing = record {
  logical = refl;
  within = omega arith;
  fits = λ limit e. ground (arith, e);
  clock = λ t e. ground (arith, e);
}

step-IsProgressing_example : IsProgressing (step 8 2 4 1 prompt).1
step-IsProgressing_example =
    step-IsProgressing 8 2 4 1 prompt prompt-IsProgressing refl (omega arith)

step_emits_example :
    let (result, r') = step 8 2 4 2 decoding in
    (1 < r'.generation_idx)
    × (r'.generation_idx ≤ 3)
    × ((is_done r' ≡ true) × (result ≡ some (complete_timing r'))
        ⊎ (is_done r' ≡ false) × (result ≡ none))
step_emits_example = step_emits 8 2 4 2 decoding refl refl

-- A step that wants no token, and one that wants more than are left.
abbrev step_calls : List StepCall
step_calls =
    record { now = 9; latency = 2; batch = 4; wanted = 0 }
    ∷ record { now = 12; latency = 3; batch = 1; wanted = 5 }
    ∷ []

decode_all_finishes_example : is_done (decode_all step_calls decoding) ≡ true
decode_all_finishes_example = decode_all_finishes step_calls decoding refl (omega arith)

advance_chunk_example :
    let (result, r') = advance 8 2 4 prompt in
    let computed = prompt.num_computed_tokens + step_tokens prompt in
    (r'.num_computed_tokens ≡ computed)
    × (if ltb computed (context_len prompt)
        then (result ≡ none) × (r'.generation_idx ≡ prompt.generation_idx)
        else (r'.generation_idx ≡ prompt.generation_idx + 1) × (r'.needs_recompute ≡ false))
advance_chunk_example = advance_chunk 8 2 4 prompt refl refl refl

abbrev readmitted : Request
readmitted = record prompt {
  admission = record prompt.admission {
    first_prefill_source =
        some (record { input_tokens = 10; gpu_hit_tokens = 4; cpu_hit_tokens = 0 });
  };
}

rollback_example :
    restore_admission_state
      (admission_state prompt)
      (start_context_build 4 (record_context_admission 4 0 prompt).1)
    ≡ prompt
rollback_example = rollback 4 0 4 prompt

cancelled_stands_example :
    let r' = request_cancel 9 decoding in
    (step 9 2 4 1 r' ≡ (none, r')) × (advance 9 2 4 r' ≡ (none, r')) × (is_done r' ≡ false)
cancelled_stands_example = cancelled_stands 9 2 4 1 decoding refl

-- The first worker answers twice, and one call names no worker.
abbrev cancel_answers : List Answer
cancel_answers =
    record { at_time = 10; worker = some 2 }
    ∷ record { at_time = 11; worker = some 2 }
    ∷ record { at_time = 12; worker = none }
    ∷ record { at_time = 13; worker = some 1 }
    ∷ []

answers_settle_example : Settles cancel_answers cancelling
answers_settle_example = answers_settle cancel_answers cancelling refl refl

cancelling_answered : (answers cancel_answers cancelling).cancelled_at ≡ some 13
unfolding acknowledge_cancel
cancelling_answered = refl
