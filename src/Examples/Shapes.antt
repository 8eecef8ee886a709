-- ===== src/Examples/Shapes.antt =====
-- Forward shapes and placements at concrete inputs.
use token_sim.Prelude.{
  ℕ, suc, ◌+◌, ◌/◌, ◌%◌, ◌≤◌, ◌<◌, ◌≡◌, refl, false, none, some, List, [], ◌∷◌, arith, length, All,
  get_elem?,
}
use token_sim.Errors.{ok}
use token_sim.Request.{ceil_div}
use token_sim.Forward.{RankShape, sp_valid_rows, uniform_decode_rows}
use token_sim.Forward.Shards.{owned_rows, sp_valid_rows-partition}
use token_sim.Placement.{assign_experts, range, pp_rank_for_layer}
use token_sim.Placement.Experts.{
  concat, dealt, shares, linear_lem, round_robin_lem, pp_rank_for_layer_lem,
}

sp_valid_rows-partition_example :
    (owned_rows 5 10 4 4 ≡ 5) × ((rank : ℕ) → sp_valid_rows 5 10 4 rank ≤ ceil_div 10 4)
sp_valid_rows-partition_example = sp_valid_rows-partition 5 10 4 (omega arith) (omega arith)

abbrev decoders : List RankShape
decoders =
    record {
      tokens = 5;
      query_width = some 2;
      context_build = false;
      requests = none;
      valid_tokens = none;
      valid_requests = none;
    }
    ∷ []

six_rows : uniform_decode_rows decoders 2 4 ≡ some 6
unfolding uniform_decode_rows
six_rows = refl

linear_lem_example :
    let shared = 10 / 4 in
    (result : List (List ℕ)) × (assign_experts "linear" 10 4 ≡ ok result)
    × (length result ≡ 4)
    × (concat result ≡ range 0 10)
    × All (λ xs. (shared ≤ length xs) × (length xs ≤ shared + 1)) result
linear_lem_example = linear_lem 10 4 (omega arith) (omega arith)

round_robin_lem_example :
    (result : List (List ℕ)) × (assign_experts "round_robin" 10 4 ≡ ok result)
    × (get_elem? result 2 ≡ some (dealt 4 2 0 10))
round_robin_lem_example = round_robin_lem 10 4 2 (omega arith) (omega arith)

pp_rank_for_layer_lem_example :
    let stage = pp_rank_for_layer 5 10 4 in
    (stage < 4)
    × (shares (10 / 4) (10 % 4) 0 stage ≤ 5)
    × (5 < shares (10 / 4) (10 % 4) 0 (suc stage))
pp_rank_for_layer_lem_example = pp_rank_for_layer_lem 5 10 4 (omega arith) (omega arith)
