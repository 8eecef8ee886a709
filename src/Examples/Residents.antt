-- ===== src/Examples/Residents.antt =====
-- Reservations of a plan at concrete inputs.
use token_sim.Prelude.{ℕ, ◌+◌, ◌≤◌, ◌<◌, ◌≡◌, refl, none, some, String, [], ◌∷◌, string_eq, nat_eq}
use token_sim.Prelude.Dict.{get, put, total}
use token_sim.Errors.{ok, raise, configuration_error}
use token_sim.Af.Plan.{
  RankKey, rank_key_eq, KvPartition, Binding, PhysicalState, RuntimePlan, protocol_buffer_bytes,
  stage_layer_range, rank_kv_bytes,
}
use token_sim.Af.Resident.{KvLease, ResidentKv, new_resident, count, admit, release, bytes}
use token_sim.Af.Resident.Sizes.{states}
use token_sim.Af.Resident.Residence.{worker_bytes, rank_share}
use token_sim.Af.Resident.Run.{start, after, admits, Reaches-fits, Reaches-release}

abbrev partition : KvPartition
partition = record { bytes_per_token = 6; bytes_per_block = 48; layer_partitions = [] }

abbrev rank : ℕ → String → Binding
rank n worker = record {
  domain = "a";
  instance_name = "i0";
  domain_rank = n;
  tp_rank = 0;
  pp_rank = n;
  ep_rank = 0;
  physical_identity = worker;
  kv_partition = some partition;
}

abbrev worker_state : String → PhysicalState
worker_state name = record {
  physical_identity = name;
  capacity_bytes = 190;
  model_bytes = 90;
  protocol_buffers = ("in", 4) ∷ ("out", 6) ∷ [];
}

-- One replica of two pipeline stages; the second of its three layers has a window of four tokens.
abbrev plan : RuntimePlan
plan = record {
  total_layers = 3;
  domains = record { name = "a"; pipeline_parallel_size = 2; pipeline_layer_counts = none } ∷ [];
  rank_bindings = rank 0 "w0" ∷ rank 1 "w1" ∷ [];
  replicas =
      record {
        domain = "a";
        instance_name = "i0";
        local_gpu_blocks = (("a", 0), 2) ∷ (("a", 1), 2) ∷ [];
      }
      ∷ [];
  physical_states = worker_state "w0" ∷ worker_state "w1" ∷ [];
  layers = 0 ∷ 4 ∷ 0 ∷ [];
}

stages :
    (stage_layer_range 7 3 0 none ≡ ok (0 ∷ 1 ∷ 2 ∷ []))
    × (stage_layer_range 7 3 2 none ≡ ok (5 ∷ 6 ∷ []))
    × (stage_layer_range 7 3 1 (some (1 ∷ 4 ∷ 2 ∷ [])) ≡ ok (1 ∷ 2 ∷ 3 ∷ 4 ∷ []))
    × (stage_layer_range 2 3 1 none ≡ raise configuration_error)
unfolding stage_layer_range
stages = (refl, refl, refl, refl)

-- A full context of eight tokens, and a window of four of them in the second layer.
sizes : bytes plan "a" "i0" 8 ≡ ok (("w0", 36) ∷ ("w1", 48) ∷ [])
unfolding bytes rank_kv_bytes put get
sizes = refl

abbrev lease : KvLease
lease = record { domain = "a"; instance_name = "i0"; maximum_context = 8; current_context = 2 }

abbrev admitted : ResidentKv
admitted = (admit plan 1 "a" "i0" 8 2 (new_resident plan)).1

-- The second lease of the same size does not fit.
books :
    (get 1 admitted.leases ≡ some lease)
    × (count "w1" admitted.reserved ≡ 48)
    × ((admit plan 2 "a" "i0" 8 2 admitted).0 ≡ raise configuration_error)
unfolding admit rank_kv_bytes put get
books = (refl, refl, refl)

Reaches-fits_example :
    (count "w1" admitted.reserved ≡ total (worker_bytes plan "w1") admitted.leases)
    × ((r : RankKey)
        → count r admitted.reserved_by_rank ≡ total (rank_share plan r) admitted.leases)
    × ((st : PhysicalState)
        → get "w1" (states plan) ≡ some st
        → 0 < count "w1" admitted.reserved
        → st.model_bytes + protocol_buffer_bytes st + count "w1" admitted.reserved
          ≤ st.capacity_bytes)
Reaches-fits_example = Reaches-fits plan admitted (after start (admits 1 "a" "i0" 8 2)) "w1"

Reaches-release_example :
    (2 ≤ 8)
    × ((release plan 1 admitted).0 ≡ ok tt)
    × ((name : String)
        → count name (release plan 1 admitted).1.reserved + worker_bytes plan name lease
          ≡ count name admitted.reserved)
Reaches-release_example =
    Reaches-release plan admitted (after start (admits 1 "a" "i0" 8 2)) 1 lease books.0
