-- ===== src/Parallel/Experts.antt =====
-- The expert-parallel groups of a validated configuration.
use token_sim.Prelude.{
  ℕ, ◌+◌, ◌*◌, ◌/◌, ◌%◌, ◌<◌, ◌≡◌, true, Option, none, some, arith, nat_eq, Bool-cases, inl, inr,
}
use native.Mathlib.Nat.{
  mul_comm, mod_self, mod-one, mul-mod_right, div-lt_iff_lt-mul, mod-lt, div-add-mod',
}
use token_sim.Errors.{ok}
use token_sim.Parallel.{
  ParallelConfig, is_per_dp, expert_parallel_group_size, expert_parallel_group_count,
  expert_parallel_replicas_per_group, expert_parallel_group, expert_parallel_rank, group_size_of,
  validate, validate_expert_parallel_size,
}
use token_sim.Parallel.Ranks.{below, mul-pos}

whole : (size n : ℕ) → n % size ≡ 0 → n / size * size ≡ n
whole size n h = omega (arith, div-add-mod' n size, h)

-- A size whose groups are made of whole replicas, and of which the stage is made.
abbrev Fits : ℕ → ParallelConfig → Type 0
Fits size c =
    (0 < size)
    × (c.tensor_parallel_size * c.data_parallel_size % size ≡ 0)
    × (size % c.tensor_parallel_size ≡ 0)

group_size_of-Fits :
    (size : Option ℕ) (c : ParallelConfig)
    → 0 < c.tensor_parallel_size
    → 0 < c.data_parallel_size
    → validate_expert_parallel_size size c ≡ ok tt
    → Fits (group_size_of size c) c
group_size_of-Fits none c tp dp valid =
    let stage = mul-pos c.tensor_parallel_size c.data_parallel_size tp dp in
    elim (Bool-cases (is_per_dp c.expert_parallel_scope)) [
      | inl one ↦ rw one (
        tp,
        mul-mod_right c.tensor_parallel_size c.data_parallel_size,
        mod_self c.tensor_parallel_size,
      )
      | inr wide ↦ rw wide (
        stage,
        mod_self (c.tensor_parallel_size * c.data_parallel_size),
        mul-mod_right c.tensor_parallel_size c.data_parallel_size,
      )
    ]
group_size_of-Fits (some size) c tp dp valid =
    elim (Bool-cases (is_per_dp c.expert_parallel_scope)) [
      | inl one ↦
          let same : size ≡ c.tensor_parallel_size = ground (arith, valid, one) in
          rw same (
            tp,
            mul-mod_right c.tensor_parallel_size c.data_parallel_size,
            mod_self c.tensor_parallel_size,
          )
      | inr wide ↦ (ground (arith, valid), ground (arith, valid, wide), ground (arith, valid))
    ]

-- The parts of a configuration that is accepted.
accepted :
    (c : ParallelConfig)
    → validate c ≡ ok tt
    → (0 < c.tensor_parallel_size)
      × (0 < c.data_parallel_size)
      × (validate_expert_parallel_size c.expert_parallel_size c ≡ ok tt)
unfolding validate
accepted c valid = (ground (arith, valid), ground (arith, valid), ground (arith, valid))

-- The groups of an accepted configuration make up the stage, and with expert parallelism each is made of
-- whole replicas.
groups_lem :
    (c : ParallelConfig)
    → validate c ≡ ok tt
    → (0 < expert_parallel_group_size c)
      × (expert_parallel_group_count c * expert_parallel_group_size c
          ≡ c.tensor_parallel_size * c.data_parallel_size)
      × (c.enable_expert_parallel ≡ true
          → expert_parallel_replicas_per_group c * c.tensor_parallel_size
            ≡ expert_parallel_group_size c)
groups_lem c valid =
    let (tp, dp, sized) = accepted c valid in
    let stage = c.tensor_parallel_size * c.data_parallel_size in
    elim (Bool-cases c.enable_expert_parallel) [
      | inl enabled ↦
          let size = group_size_of c.expert_parallel_size c in
          let (some_rank, whole_groups, whole_replicas) =
            group_size_of-Fits c.expert_parallel_size c tp dp sized in
          simp enabled (
            some_rank,
            whole size stage whole_groups,
            λ _. whole c.tensor_parallel_size size whole_replicas,
          )
      | inr off ↦ simp off (omega arith, whole 1 stage (mod-one stage), λ h. absurd (cc h))
    ]

-- Every place of a stage of an accepted configuration is a rank of one of its expert-parallel groups,
-- which the group and the rank in it give back; the groups have together as many ranks as the stage, and
-- with expert parallelism a group is made of whole data-parallel replicas.
pub expert_parallel_group_lem :
    (c : ParallelConfig) (dp_rank tp_rank : ℕ)
    → validate c ≡ ok tt
    → dp_rank < c.data_parallel_size
    → tp_rank < c.tensor_parallel_size
    → (expert_parallel_group dp_rank tp_rank c < expert_parallel_group_count c)
      × (expert_parallel_rank dp_rank tp_rank c < expert_parallel_group_size c)
      × (expert_parallel_group dp_rank tp_rank c * expert_parallel_group_size c
            + expert_parallel_rank dp_rank tp_rank c
          ≡ dp_rank * c.tensor_parallel_size + tp_rank)
      × (expert_parallel_group_count c * expert_parallel_group_size c
          ≡ c.tensor_parallel_size * c.data_parallel_size)
      × (c.enable_expert_parallel ≡ true
          → expert_parallel_replicas_per_group c * c.tensor_parallel_size
            ≡ expert_parallel_group_size c)
expert_parallel_group_lem c dp_rank tp_rank valid in_dp in_tp =
    let (some_rank, all_ranks, replicas) = groups_lem c valid in
    let place = dp_rank * c.tensor_parallel_size + tp_rank in
    let inside = below dp_rank c.data_parallel_size c.tensor_parallel_size tp_rank in_dp in_tp in
    (
      (div-lt_iff_lt-mul some_rank).1
          (omega (arith, inside, all_ranks, mul_comm c.data_parallel_size c.tensor_parallel_size)),
      mod-lt place some_rank,
      div-add-mod' place (expert_parallel_group_size c),
      all_ranks,
      replicas,
    )
