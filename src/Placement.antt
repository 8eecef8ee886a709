-- ===== src/Placement.antt =====
-- The assignments of TokenSim/moe/placement.py: experts to expert-parallel ranks and layers to pipeline
-- stages. A result keyed by the ranks `0 .. n-1` is the list of its values.
pub mod Experts
use token_sim.Prelude.{
  ℕ, zero, suc, ◌+◌, ◌-◌, ◌/◌, ◌%◌, Bool, true, false, ◌&&◌, List, [], ◌∷◌, ◌++◌, ltb, leb, ◌==◌,
  if◌then◌else◌, nat_eq, String, string_eq,
}
use token_sim.Errors.{Outcome, ok, raise, configuration_error}

-- `list(range(cursor, cursor + count))`
abbrev pub range : ℕ → ℕ → List ℕ
range cursor zero = []
range cursor (suc count) = cursor ∷ range (cursor + 1) count

abbrev pub empty_ranks : ℕ → List (List ℕ)
empty_ranks zero = []
empty_ranks (suc n) = [] ∷ empty_ranks n

-- `count = base + (1 if rank < remainder else 0)`
abbrev pub share : ℕ → ℕ → ℕ → ℕ
share base remainder rank = base + (if ltb rank remainder then 1 else 0)

-- The `linear` loop, with `left` ranks to come from `rank` on.
unfoldable pub linear : ℕ → ℕ → ℕ → ℕ → ℕ → List (List ℕ)
linear base remainder cursor rank zero = []
linear base remainder cursor rank (suc left) =
    let count = share base remainder rank in
    range cursor count ∷ linear base remainder (cursor + count) (rank + 1) left

-- `result[rank].append(expert_id)`
unfoldable pub append_at : ℕ → ℕ → List (List ℕ) → List (List ℕ)
append_at rank expert_id [] = []
append_at zero expert_id (xs ∷ xss) = (xs ++ expert_id ∷ []) ∷ xss
append_at (suc rank) expert_id (xs ∷ xss) = xs ∷ append_at rank expert_id xss

-- The `round_robin` loop, with `left` experts to come from `expert_id` on.
unfoldable pub round_robin : ℕ → ℕ → ℕ → List (List ℕ) → List (List ℕ)
unfolding append_at
round_robin ranks expert_id zero result = result
round_robin ranks expert_id (suc left) result =
    round_robin ranks (expert_id + 1) left (append_at (expert_id % ranks) expert_id result)

-- `_assign_experts`
unfoldable pub assign_experts : String → ℕ → ℕ → Outcome (List (List ℕ))
unfolding linear round_robin
assign_experts strategy num_experts ranks =
    if ltb ranks 1
    then raise configuration_error
    else if leb num_experts 0
    then ok (empty_ranks ranks)
    else if strategy == "linear"
    then ok (linear (num_experts / ranks) (num_experts % ranks) 0 0 ranks)
    else if strategy == "round_robin"
    then ok (round_robin ranks 0 num_experts (empty_ranks ranks))
    else raise configuration_error

-- The loop of `_pp_rank_for_layer`, with `left` stages to come from `pp_rank` on.
unfoldable pub stage_from : ℕ → ℕ → ℕ → ℕ → ℕ → ℕ → ℕ → ℕ
stage_from layer_id base remainder pp_size cursor pp_rank zero = pp_size - 1
stage_from layer_id base remainder pp_size cursor pp_rank (suc left) =
    let count = share base remainder pp_rank in
    let rest = stage_from layer_id base remainder pp_size (cursor + count) (pp_rank + 1) left in
    if leb cursor layer_id && ltb layer_id (cursor + count) then pp_rank else rest

-- `_pp_rank_for_layer`
unfoldable pub pp_rank_for_layer : ℕ → ℕ → ℕ → ℕ
unfolding stage_from
pp_rank_for_layer layer_id total_layers pp_size =
    if leb pp_size 1
    then 0
    else stage_from layer_id (total_layers / pp_size) (total_layers % pp_size) pp_size 0 0 pp_size
