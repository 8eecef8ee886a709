-- ===== src/Examples/Clusters.antt =====
-- Parallel configurations at concrete inputs.
use token_sim.Prelude.{◌+◌, ◌*◌, ◌<◌, ◌≡◌, refl, true, some, arith}
use token_sim.Errors.{ok}
use token_sim.Parallel.{
  ParallelConfig, global, validate, from_global_rank, expert_parallel_group,
  expert_parallel_group_count, expert_parallel_rank, expert_parallel_group_size,
  expert_parallel_replicas_per_group,
}
use token_sim.Parallel.Ranks.{rank_at, rank_at-from_global_rank}
use token_sim.Parallel.Experts.{expert_parallel_group_lem}

-- Four data-parallel replicas of two ranks in two stages, with groups of two replicas.
abbrev wide : ParallelConfig
wide = record {
  tensor_parallel_size = 2;
  pipeline_parallel_size = 2;
  data_parallel_size = 4;
  data_parallel_rank = 0;
  data_parallel_size_local = 1;
  enable_expert_parallel = true;
  expert_parallel_scope = global;
  expert_parallel_size = some 4;
}

wide_valid : validate wide ≡ ok tt
unfolding validate
wide_valid = refl

rank_at-from_global_rank_example :
    let i = from_global_rank 11 wide in
    (i.tp_rank < 2)
    × (i.pp_rank < 2)
    × (i.dp_rank < 4)
    × (rank_at i.dp_rank i.pp_rank i.tp_rank wide ≡ 11)
rank_at-from_global_rank_example = rank_at-from_global_rank wide 11 wide_valid (omega arith)

expert_parallel_group_lem_example :
    (expert_parallel_group 3 1 wide < expert_parallel_group_count wide)
    × (expert_parallel_rank 3 1 wide < expert_parallel_group_size wide)
    × (expert_parallel_group 3 1 wide * expert_parallel_group_size wide
          + expert_parallel_rank 3 1 wide
        ≡ 7)
    × (expert_parallel_group_count wide * expert_parallel_group_size wide ≡ 8)
    × (wide.enable_expert_parallel ≡ true
        → expert_parallel_replicas_per_group wide * 2 ≡ expert_parallel_group_size wide)
expert_parallel_group_lem_example =
    expert_parallel_group_lem wide 3 1 wide_valid (omega arith) (omega arith)
