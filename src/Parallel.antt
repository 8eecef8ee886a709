-- ===== src/Parallel.antt =====
-- TokenSim/config/parallel_config.py: `ParallelConfig` with its validation, the sizes of its groups, and the
-- coordinates of a rank. A field is a natural number here, so the checks for negative values are those
-- for zero; the names of the placement strategy and of the all-to-all backend are left out.
pub mod Ranks
pub mod Experts
use token_sim.Prelude.{
  ℕ, ◌+◌, ◌*◌, ◌/◌, ◌%◌, Bool, true, false, not, ◌&&◌, ◌||◌, Option, none, some, List, [], ◌∷◌, ltb,
  leb, ◌==◌, if◌then◌else◌, nat_eq,
}
use token_sim.Errors.{Outcome, ok, raise, configuration_error}

-- "global" and "per_dp"
pub data ExpertParallelScope : Type 0 where
  global per_dp : ExpertParallelScope

pub record ParallelConfig : Type 0 where
  pub tensor_parallel_size : ℕ
  pub pipeline_parallel_size : ℕ
  pub data_parallel_size : ℕ
  pub data_parallel_rank : ℕ
  pub data_parallel_size_local : ℕ
  pub enable_expert_parallel : Bool
  pub expert_parallel_scope : ExpertParallelScope
  pub expert_parallel_size : Option ℕ

abbrev pub sequence_parallel_moe : Bool → ParallelConfig → Bool
sequence_parallel_moe fused_moe c =
    c.enable_expert_parallel
    && ltb 1 c.tensor_parallel_size
    && (fused_moe || ltb 1 c.data_parallel_size)

abbrev pub ranks_per_dp_group : ParallelConfig → ℕ
ranks_per_dp_group c = c.tensor_parallel_size * c.pipeline_parallel_size

abbrev pub world_size : ParallelConfig → ℕ
world_size c = ranks_per_dp_group c * c.data_parallel_size

abbrev pub is_per_dp : ExpertParallelScope → Bool
is_per_dp global = false
is_per_dp per_dp = true

abbrev pub expert_parallel_scope_ranks : ParallelConfig → ℕ
expert_parallel_scope_ranks c =
    if is_per_dp c.expert_parallel_scope
    then c.tensor_parallel_size
    else c.tensor_parallel_size * c.data_parallel_size

-- `_validate_expert_parallel_size` of a size that is given.
abbrev pub validate_size : ℕ → ParallelConfig → Outcome (Unit {0})
validate_size size c =
    if ltb size 1
    then raise configuration_error
    else if not c.enable_expert_parallel
    then raise configuration_error
    else if is_per_dp c.expert_parallel_scope && not (size == c.tensor_parallel_size)
    then raise configuration_error
    else if not (size % c.tensor_parallel_size == 0)
        || not (expert_parallel_scope_ranks c % size == 0)
    then raise configuration_error
    else ok tt

abbrev pub validate_expert_parallel_size : Option ℕ → ParallelConfig → Outcome (Unit {0})
validate_expert_parallel_size none c = ok tt
validate_expert_parallel_size (some size) c = validate_size size c

-- `__post_init__`
unfoldable pub validate : ParallelConfig → Outcome (Unit {0})
validate c =
    if ltb c.tensor_parallel_size 1
      || ltb c.pipeline_parallel_size 1
      || ltb c.data_parallel_size 1
      || ltb c.data_parallel_size_local 1
    then raise configuration_error
    else if leb c.data_parallel_size c.data_parallel_rank
    then raise configuration_error
    else if ltb c.data_parallel_size c.data_parallel_size_local
    then raise configuration_error
    else validate_expert_parallel_size c.expert_parallel_size c

-- `expert_parallel_group_size` of an explicit size, if there is one.
abbrev pub group_size_of : Option ℕ → ParallelConfig → ℕ
group_size_of none c = expert_parallel_scope_ranks c
group_size_of (some size) c = size

abbrev pub expert_parallel_group_size : ParallelConfig → ℕ
expert_parallel_group_size c =
    if not c.enable_expert_parallel then 1 else group_size_of c.expert_parallel_size c

abbrev pub expert_parallel_group_count : ParallelConfig → ℕ
expert_parallel_group_count c =
    c.tensor_parallel_size * c.data_parallel_size / expert_parallel_group_size c

abbrev pub expert_parallel_replicas_per_group : ParallelConfig → ℕ
expert_parallel_replicas_per_group c = expert_parallel_group_size c / c.tensor_parallel_size

abbrev pub expert_parallel_group : ℕ → ℕ → ParallelConfig → ℕ
expert_parallel_group dp_rank tp_rank c =
    (dp_rank * c.tensor_parallel_size + tp_rank) / expert_parallel_group_size c

abbrev pub expert_parallel_rank : ℕ → ℕ → ParallelConfig → ℕ
expert_parallel_rank dp_rank tp_rank c =
    (dp_rank * c.tensor_parallel_size + tp_rank) % expert_parallel_group_size c

-- `kv_cache_group_id` is the pair of ranks that the string "dp{dp_rank}-pp{pp_rank}" shows.
pub record ParallelRankInfo : Type 0 where
  pub global_rank : ℕ
  pub rank_in_dp_group : ℕ
  pub tp_rank : ℕ
  pub pp_rank : ℕ
  pub dp_rank : ℕ
  pub kv_cache_group_id : ℕ × ℕ

unfoldable pub from_global_rank : ℕ → ParallelConfig → ParallelRankInfo
from_global_rank g c =
    let r = g % ranks_per_dp_group c in
    if leb (world_size c) g
    then record {
      global_rank = g;
      rank_in_dp_group = g;
      tp_rank = 0;
      pp_rank = 0;
      dp_rank = 0;
      kv_cache_group_id = (0, 0);
    }
    else record {
      global_rank = g;
      rank_in_dp_group = r;
      tp_rank = r % c.tensor_parallel_size;
      pp_rank = r / c.tensor_parallel_size;
      dp_rank = g / ranks_per_dp_group c;
      kv_cache_group_id = (g / ranks_per_dp_group c, r / c.tensor_parallel_size);
    }
