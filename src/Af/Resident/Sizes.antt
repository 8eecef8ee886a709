-- ===== src/Af/Resident/Sizes.antt =====
-- What an admission of TokenSim/af/runtime/admission.py has found out before it writes: the sizes of a lease,
-- each key once, and room for them on every worker.
use token_sim.Prelude.{
  ℕ, ◌+◌, ◌≤◌, ◌≡◌, refl, sym, ap, ◌∙◌, subst, true, false, ◌||◌, none, some, List, [], ◌∷◌, String,
  ◌==◌, ==_refl, or_zero, arith, Bool-cases, inl, inr, nat_eq, string_eq, ltb, Option-cases,
}
use token_sim.Prelude.Dict.{Dict, Distinct, get, put, has, has-cons, put-Distinct}
use token_sim.Errors.{ok, raise, key_error, and_then_ok}
use token_sim.Af.Plan.{
  RankKey, rank_key_eq, Binding, PhysicalState, RuntimePlan, protocol_buffer_bytes, rank_key,
  binding, rank_kv_bytes, bindings_for_instance, replica_for_instance, physical_index,
  physical_state,
}
use token_sim.Af.Resident.{
  ResidentKv, count, ranks_of, rank_bytes, workers_of, bytes, check_ranks, check_workers, admission,
}
use token_sim.Af.Resident.Counts.{count-cons}

module _ (plan : RuntimePlan) where
  ranks_of-Distinct :
      (context : ℕ) (before : Dict RankKey ℕ) (bs : List Binding) (sizes : Dict RankKey ℕ)
      → ranks_of plan context before bs ≡ ok sizes
      → Distinct before
      → Distinct sizes
  ranks_of-Distinct context before [] sizes h d =
      let e : before ≡ sizes = ground (arith, h) in subst (λ (x : Dict RankKey ℕ). Distinct x) e d
  ranks_of-Distinct context before (b ∷ bs) sizes h d =
      let (n, counted, rest) = and_then_ok (rank_kv_bytes plan b context) _ sizes h in
      ranks_of-Distinct context (put (rank_key b) n before) bs sizes rest
        (put-Distinct (rank_key b) n before d)

  pub rank_bytes-Distinct :
      (domain inst : String) (context : ℕ) (sizes : Dict RankKey ℕ)
      → rank_bytes plan domain inst context ≡ ok sizes
      → Distinct sizes
  unfolding rank_bytes
  rank_bytes-Distinct domain inst context sizes h =
      let (bs, found, rest) = and_then_ok (bindings_for_instance plan domain inst) _ sizes h in
      ranks_of-Distinct context [] bs sizes rest tt

  workers_of-Distinct :
      (before : Dict String ℕ) (ranks : Dict RankKey ℕ) (sizes : Dict String ℕ)
      → workers_of plan before ranks ≡ ok sizes
      → Distinct before
      → Distinct sizes
  workers_of-Distinct before [] sizes h d =
      let e : before ≡ sizes = ground (arith, h) in subst (λ (x : Dict String ℕ). Distinct x) e d
  workers_of-Distinct before ((k, n) ∷ rest) sizes h d =
      let (b, found, more) = and_then_ok (binding plan k) _ sizes h in
      workers_of-Distinct (put b.physical_identity (count b.physical_identity before + n) before)
        rest sizes more
        (put-Distinct b.physical_identity (count b.physical_identity before + n) before d)

  pub bytes-Distinct :
      (domain inst : String) (context : ℕ) (sizes : Dict String ℕ)
      → bytes plan domain inst context ≡ ok sizes
      → Distinct sizes
  unfolding bytes
  bytes-Distinct domain inst context sizes h =
      let (ranks, found, rest) = and_then_ok (rank_bytes plan domain inst context) _ sizes h in
      workers_of-Distinct [] ranks sizes rest tt

  abbrev pub states : Dict String PhysicalState
  states = physical_index [] plan.physical_states

  -- A worker with an entry to add to, and room for what is added.
  abbrev pub HasRoom : Dict String ℕ → Dict String ℕ → String → Type 0
  HasRoom reserved sizes name =
      (has name reserved ≡ true)
      × ((st : PhysicalState)
          → get name states ≡ some st
          → st.model_bytes + protocol_buffer_bytes st + count name reserved + count name sizes
            ≤ st.capacity_bytes)

  pub check_workers-HasRoom :
      (reserved sizes : Dict String ℕ)
      → Distinct sizes
      → check_workers plan reserved sizes ≡ ok tt
      → (name : String) → has name sizes ≡ true
      → HasRoom reserved sizes name
  unfolding check_workers get
  check_workers-HasRoom reserved [] distinct h name there = absurd (ground (arith, there))
  check_workers-HasRoom reserved ((k, n) ∷ rest) (absent, distinct) h name there =
      let (st, found, h') = and_then_ok (physical_state plan k) _ tt h in
      let (r, reserved_here, h'') =
        and_then_ok (elim (get k reserved) [ none ↦ raise key_error | some r ↦ ok r ]) _ tt h' in
      elim (Bool-cases
        (ltb st.capacity_bytes (st.model_bytes + protocol_buffer_bytes st + r + n))) [
          | inl over ↦ absurd (ground (arith, rw over at h''))
          | inr fits ↦ elim (Bool-cases (k == name)) [
            | inl t ↦
                subst (HasRoom reserved ((k, n) ∷ rest)) ((string_eq.eqb_iff k name).0 t)
                  (room k n rest r st found reserved_here (ground (arith, fits)))
            | inr f ↦
                let (has_entry, room_there) =
                  check_workers-HasRoom reserved rest distinct (rw fits at h'') name
                    (ground (arith, has-cons name k n rest, f, there)) in
                (
                  has_entry,
                  λ st' got.
                      let same : count name ((k, n) ∷ rest) ≡ count name rest =
                        count-cons name k n rest ∙ rw f refl in
                      omega (arith, room_there st' got, same),
                )
          ]
        ]
    where
      room :
          (k : String) (n : ℕ) (rest : Dict String ℕ) (r : ℕ) (st : PhysicalState)
          → physical_state plan k ≡ ok st
          → (elim (get k reserved) [ none ↦ raise key_error | some r ↦ ok r ]) ≡ ok r
          → st.model_bytes + protocol_buffer_bytes st + r + n ≤ st.capacity_bytes
          → HasRoom reserved ((k, n) ∷ rest) k
      room k n rest r st found reserved_here fits = elim (Option-cases (get k reserved)) [
        | inl absent ↦ absurd (ground (arith, reserved_here, absent))
        | inr (r', there) ↦
            let same : r' ≡ r = ground (arith, reserved_here, there) in
            let listed : count k ((k, n) ∷ rest) ≡ n =
              count-cons k k n rest ∙ rw (==_refl k) refl in
            let counted : count k reserved ≡ r = ap or_zero there ∙ same in
            (
              ground (arith, there),
              λ st' got.
                  let same_state : st' ≡ st = ground (arith, found, got) in
                  rw (counted, listed, same_state) fits,
            )
      ]

  -- What `admit` has found out when it starts to write.
  abbrev pub Admitted :
      ℕ → String → String → ℕ → ℕ → ResidentKv → Dict String ℕ → Dict RankKey ℕ → Type 0
  Admitted id domain inst maximum current s sizes ranks =
      (has id s.leases ≡ false)
      × (current ≤ maximum)
      × (bytes plan domain inst maximum ≡ ok sizes)
      × (rank_bytes plan domain inst maximum ≡ ok ranks)
      × (check_workers plan s.reserved sizes ≡ ok tt)

  pub admission-Admitted :
      (id : ℕ) (domain inst : String) (maximum current : ℕ) (s : ResidentKv) (sizes : Dict String ℕ)
      (ranks : Dict RankKey ℕ)
      → admission plan id domain inst maximum current s ≡ ok (sizes, ranks)
      → Admitted id domain inst maximum current s sizes ranks
  unfolding admission
  admission-Admitted id domain inst maximum current s sizes ranks h =
      elim (Bool-cases (maximum == 0 || has id s.leases || ltb maximum current)) [
        | inl bad ↦ absurd (ground (arith, rw bad at h))
        | inr good ↦
            let (sizes', sized, h1) =
              and_then_ok (bytes plan domain inst maximum) _ (sizes, ranks) (rw good at h) in
            let (ranks', ranked, h2) =
              and_then_ok (rank_bytes plan domain inst maximum) _ (sizes, ranks) h1 in
            let (r, placed, h3) =
              and_then_ok (replica_for_instance plan domain inst) _ (sizes, ranks) h2 in
            let (u, budgets, h4) =
              and_then_ok (check_ranks plan ranks' s.reserved_by_rank r.local_gpu_blocks) _
                (sizes, ranks) h3 in
            let (u', workers, h5) =
              and_then_ok (check_workers plan s.reserved sizes') _ (sizes, ranks) h4 in
            let same : sizes' ≡ sizes = ground (arith, h5) in
            let same_ranks : ranks' ≡ ranks = ground (arith, h5) in
            (
              ground (arith, good),
              ground (arith, good),
              sized ∙ ap (λ (x : Dict String ℕ). ok x) same,
              ranked ∙ ap (λ (x : Dict RankKey ℕ). ok x) same_ranks,
              ap (check_workers plan s.reserved) (sym same) ∙ workers,
            )
      ]
