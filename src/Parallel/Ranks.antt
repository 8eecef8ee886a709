-- ===== src/Parallel/Ranks.antt =====
-- The coordinates of a rank, and the rank of its coordinates.
use token_sim.Prelude.{ℕ, ◌+◌, ◌*◌, ◌/◌, ◌%◌, ◌<◌, ◌≡◌, ◌∙◌, false, leb, arith, nat_eq}
use native.Mathlib.Nat.{
  mul-add-mod_self_right, mod-eq_of_lt, mul-add-div_right, div-eq_of_lt, mul_comm,
  div-lt_iff_lt-mul, mod-lt, div-add-mod', mul-le-mul_right, mul-le-mul, add-mul,
}
use token_sim.Errors.{ok}
use token_sim.Parallel.{ParallelConfig, ranks_per_dp_group, world_size, from_global_rank, validate}

-- Two digits of a mixed-radix number.
pub high_digit : (a b r : ℕ) → r < b → (a * b + r) / b ≡ a
high_digit a b r h = mul-add-div_right (omega (arith, h)) a r ∙ omega (arith, div-eq_of_lt h)

pub low_digit : (a b r : ℕ) → r < b → (a * b + r) % b ≡ r
low_digit a b r h = mul-add-mod_self_right a b r ∙ mod-eq_of_lt h

pub below : (a n b r : ℕ) → a < n → r < b → a * b + r < n * b
below a n b r k h = omega (arith, h, mul-le-mul_right b k, add-mul a 1 b)

-- A rank lies in one data-parallel group, in one pipeline stage of it, at one tensor-parallel place.
abbrev pub rank_at : ℕ → ℕ → ℕ → ParallelConfig → ℕ
rank_at dp pp tp c = dp * ranks_per_dp_group c + (pp * c.tensor_parallel_size + tp)

-- Coordinates in range give a rank of the world, and that rank gives the coordinates back.
pub from_global_rank-rank_at :
    (c : ParallelConfig) (dp pp tp : ℕ)
    → dp < c.data_parallel_size
    → pp < c.pipeline_parallel_size
    → tp < c.tensor_parallel_size
    → (rank_at dp pp tp c < world_size c)
      × (from_global_rank (rank_at dp pp tp c) c ≡ record {
        global_rank = rank_at dp pp tp c;
        rank_in_dp_group = pp * c.tensor_parallel_size + tp;
        tp_rank = tp;
        pp_rank = pp;
        dp_rank = dp;
        kv_cache_group_id = (dp, pp);
      })
unfolding from_global_rank
from_global_rank-rank_at c dp pp tp hd hp ht =
    let inner = below pp c.pipeline_parallel_size c.tensor_parallel_size tp hp ht in
    let r = pp * c.tensor_parallel_size + tp in
    let in_group : r < ranks_per_dp_group c =
      omega (arith, inner, mul_comm c.pipeline_parallel_size c.tensor_parallel_size) in
    let outer = below dp c.data_parallel_size (ranks_per_dp_group c) r hd in_group in
    let in_world : rank_at dp pp tp c < world_size c =
      omega (arith, outer, mul_comm c.data_parallel_size (ranks_per_dp_group c)) in
    let known : leb (world_size c) (rank_at dp pp tp c) ≡ false = ground (arith, in_world) in
    (
      in_world,
      rw (
        known,
        low_digit dp (ranks_per_dp_group c) r in_group,
        high_digit dp (ranks_per_dp_group c) r in_group,
        low_digit pp c.tensor_parallel_size tp ht,
        high_digit pp c.tensor_parallel_size tp ht,
      ),
    )

pub mul-pos : (a b : ℕ) → 0 < a → 0 < b → 0 < a * b
mul-pos a b h k = omega (arith, h, k, mul-le-mul h k)

-- A rank of the world has coordinates in range, and they give the rank back.
pub rank_at-from_global_rank :
    (c : ParallelConfig) (g : ℕ)
    → validate c ≡ ok tt
    → g < world_size c
    → (let i = from_global_rank g c in
        (i.tp_rank < c.tensor_parallel_size)
        × (i.pp_rank < c.pipeline_parallel_size)
        × (i.dp_rank < c.data_parallel_size)
        × (rank_at i.dp_rank i.pp_rank i.tp_rank c ≡ g))
unfolding from_global_rank validate
rank_at-from_global_rank c g valid inside =
    let known : leb (world_size c) g ≡ false = ground (arith, inside) in
    let positive : (0 < c.tensor_parallel_size) × (0 < c.pipeline_parallel_size) =
      ground (arith, valid) in
    let group : 0 < ranks_per_dp_group c =
      mul-pos c.tensor_parallel_size c.pipeline_parallel_size positive.0 positive.1 in
    let r = g % ranks_per_dp_group c in
    let in_group : r < ranks_per_dp_group c = mod-lt g group in
    rw known (
      mod-lt r positive.0,
      (div-lt_iff_lt-mul positive.0).1
          (omega (arith, in_group, mul_comm c.pipeline_parallel_size c.tensor_parallel_size)),
      (div-lt_iff_lt-mul group).1
          (omega (arith, inside, mul_comm c.data_parallel_size (ranks_per_dp_group c))),
      omega (arith, div-add-mod' g (ranks_per_dp_group c), div-add-mod' r c.tensor_parallel_size),
    )
