-- ===== src/Af/Resident.antt =====
-- `ResidentKV` of TokenSim/af/runtime/admission.py: leases of cohort requests, the bytes that they reserve on
-- physical workers and on ranks, and the calls that admit, commit and release one. Byte counts are natural
-- numbers: `release` subtracts what `admit` added.
use token_sim.Prelude.{
  or_zero, ℕ, ◌+◌, ◌-◌, ◌*◌, ◌≡◌, Bool, true, false, ◌||◌, Option, none, some, List, [], ◌∷◌,
  String, Eq, ◌==◌, if◌then◌else◌, nat_eq, string_eq, ltb,
}
use token_sim.Prelude.Dict.{Dict, get, put, remove, has}
use token_sim.Errors.{
  Outcome, ok, raise, and_then, Action, continue, ◌>>=◌, ◌>>◌, configuration_error,
  simulation_state_error, key_error,
}
use token_sim.Af.Plan.{
  RankKey, rank_key_eq, Binding, PhysicalState, RuntimePlan, Replica, protocol_buffer_bytes,
  rank_key, binding, rank_kv_bytes, bindings_for_instance, replica_for_instance, physical_index,
  physical_state,
}
mod Counts
pub mod Sizes
pub mod Residence
pub mod Releases
pub mod Run

pub record KvLease : Type 0 where
  pub domain : String
  pub instance_name : String
  pub maximum_context : ℕ
  pub current_context : ℕ

pub record ResidentKv : Type 0 where
  pub leases : Dict ℕ KvLease
  pub reserved : Dict String ℕ
  pub reserved_by_rank : Dict RankKey ℕ

module _ {ℓ} {K : Type ℓ} ⦃e : Eq K⦄ where
  -- `d.get(k, 0)`
  abbrev pub count : K → Dict K ℕ → ℕ
  count k d = or_zero (get k d)

  -- The `for` that adds each entry of `sizes` with `+=`, which raises where there is no entry to add to.
  unfoldable pub add_each : Dict K ℕ → Action (Dict K ℕ) (Unit {0})
  add_each [] d = (ok tt, d)
  add_each ((k, n) ∷ rest) d =
      let added = add_each rest (put k (count k d + n) d) in
      if has k d then added else (raise key_error, d)

  -- The `for` that adds each entry of `sizes` to `get(k, 0)`.
  unfoldable pub add_or_new : Dict K ℕ → Dict K ℕ → Dict K ℕ
  add_or_new [] d = d
  add_or_new ((k, n) ∷ rest) d = add_or_new rest (put k (count k d + n) d)

  -- The `for` that subtracts each entry with `-=`.
  unfoldable pub subtract_each : Dict K ℕ → Action (Dict K ℕ) (Unit {0})
  subtract_each [] d = (ok tt, d)
  subtract_each ((k, n) ∷ rest) d =
      let taken = subtract_each rest (put k (count k d - n) d) in
      if has k d then taken else (raise key_error, d)

-- `{state.physical_identity: 0 for state in plan.physical_states}`, from the entries before on
abbrev pub zeros : Dict String ℕ → List PhysicalState → Dict String ℕ
zeros before [] = before
zeros before (st ∷ sts) = zeros (put st.physical_identity 0 before) sts

module _ (plan : RuntimePlan) where
  abbrev pub new_resident : ResidentKv
  new_resident = record {
    leases = [];
    reserved = zeros [] plan.physical_states;
    reserved_by_rank = [];
  }

  abbrev ranks_of : ℕ → Dict RankKey ℕ → List Binding → Outcome (Dict RankKey ℕ)
  ranks_of context before [] = ok before
  ranks_of context before (b ∷ bs) =
      and_then (rank_kv_bytes plan b context) λ n. ranks_of context (put (rank_key b) n before) bs

  -- `_rank_bytes`
  unfoldable pub rank_bytes : String → String → ℕ → Outcome (Dict RankKey ℕ)
  rank_bytes domain inst context =
      and_then (bindings_for_instance plan domain inst) λ bs. ranks_of context [] bs

  abbrev workers_of : Dict String ℕ → Dict RankKey ℕ → Outcome (Dict String ℕ)
  workers_of before [] = ok before
  workers_of before ((k, n) ∷ rest) =
      and_then (binding plan k)
        λ b. workers_of (put b.physical_identity (count b.physical_identity before + n) before) rest

  -- `_bytes`
  unfoldable pub bytes : String → String → ℕ → Outcome (Dict String ℕ)
  unfolding rank_bytes
  bytes domain inst context = and_then (rank_bytes domain inst context) λ sizes. workers_of [] sizes

  -- The budget that a replica's blocks give a rank.
  abbrev budget : ℕ → Binding → ℕ
  budget blocks b = elim b.kv_partition [ none ↦ 0 | some k ↦ blocks * k.bytes_per_block ]

  -- The `for` over `replica.local_gpu_blocks`.
  abbrev check_ranks : Dict RankKey ℕ → Dict RankKey ℕ → List (RankKey × ℕ) → Outcome (Unit {0})
  check_ranks sizes reserved [] = ok tt
  check_ranks sizes reserved ((rank, blocks) ∷ rest) = and_then (binding plan rank) λ b.
      and_then (elim (get rank sizes) [ none ↦ raise key_error | some n ↦ ok n ])
        λ n.
          if ltb (budget blocks b) (count rank reserved + n)
          then raise configuration_error
          else check_ranks sizes reserved rest

  -- The `for` over `sizes`.
  unfoldable pub check_workers : Dict String ℕ → Dict String ℕ → Outcome (Unit {0})
  check_workers reserved [] = ok tt
  check_workers reserved ((name, n) ∷ rest) =
      let others = check_workers reserved rest in
      and_then (physical_state plan name) λ st.
        and_then (elim (get name reserved) [ none ↦ raise key_error | some r ↦ ok r ])
          λ r.
            if ltb st.capacity_bytes (st.model_bytes + protocol_buffer_bytes st + r + n)
            then raise configuration_error
            else others

  -- What `admit` does before it writes: the bytes of each worker and of each rank.
  unfoldable pub admission :
      ℕ → String → String → ℕ → ℕ → ResidentKv → Outcome (Dict String ℕ × Dict RankKey ℕ)
  unfolding bytes rank_bytes check_workers
  admission id domain inst maximum current s =
      if maximum == 0 || has id s.leases || ltb maximum current
      then raise configuration_error
      else and_then (bytes domain inst maximum) λ sizes.
        and_then (rank_bytes domain inst maximum) λ rank_sizes.
          and_then (replica_for_instance plan domain inst) λ r.
            and_then (check_ranks rank_sizes s.reserved_by_rank r.local_gpu_blocks)
              λ _. and_then (check_workers s.reserved sizes) λ _. ok (sizes, rank_sizes)

  -- What `admit` writes.
  unfoldable pub reserve :
      ℕ → KvLease → Dict String ℕ → Dict RankKey ℕ → Action ResidentKv (Unit {0})
  unfolding add_each add_or_new
  reserve id lease sizes rank_sizes s =
      let (added, reserved) = add_each sizes s.reserved in
      let leased = record s { leases = put id lease s.leases; reserved = reserved } in
      continue added
        (λ _ t. (ok tt, record t { reserved_by_rank = add_or_new rank_sizes t.reserved_by_rank }))
        leased

  unfoldable pub admit : ℕ → String → String → ℕ → ℕ → Action ResidentKv (Unit {0})
  unfolding admission reserve
  admit id domain inst maximum current s = elim (admission id domain inst maximum current s) [
    | raise e ↦ (raise e, s)
    | ok (sizes, rank_sizes) ↦
        reserve id
          (record {
            domain = domain;
            instance_name = inst;
            maximum_context = maximum;
            current_context = current;
          })
          sizes rank_sizes s
  ]

  unfoldable pub commit : ℕ → ℕ → Action ResidentKv (Unit {0})
  commit id context s = elim (get id s.leases) [
    | none ↦ (raise key_error, s)
    | some lease ↦
        if ltb lease.maximum_context context then (raise simulation_state_error, s) else (
          ok tt,
          record s { leases = put id (record lease { current_context = context }) s.leases },
        )
  ]

  -- The two `for`s of `release`, once the lease is gone.
  unfoldable pub unreserve : KvLease → Action ResidentKv (Unit {0})
  unfolding bytes rank_bytes subtract_each
  unreserve lease s = elim (bytes lease.domain lease.instance_name lease.maximum_context) [
    | raise e ↦ (raise e, s)
    | ok sizes ↦
        let (taken, reserved) = subtract_each sizes s.reserved in
        let t = record s { reserved = reserved } in
        elim taken [
          | raise e ↦ (raise e, t)
          | ok _ ↦ elim (rank_bytes lease.domain lease.instance_name lease.maximum_context) [
            | raise e ↦ (raise e, t)
            | ok rank_sizes ↦
                let (taken', by_rank) = subtract_each rank_sizes t.reserved_by_rank in
                (taken', record t { reserved_by_rank = by_rank })
          ]
        ]
  ]

  unfoldable pub release : ℕ → Action ResidentKv (Unit {0})
  unfolding unreserve
  release id s = elim (get id s.leases) [
    | none ↦ (raise key_error, s)
    | some lease ↦ unreserve lease (record s { leases = remove id s.leases })
  ]
