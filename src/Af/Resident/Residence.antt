-- ===== src/Af/Resident/Residence.antt =====
-- The invariant of `ResidentKV` (TokenSim/af/runtime/admission.py) on its leases and reservations, and its call
-- `admit`.
use token_sim.Prelude.{
  ℕ, ◌+◌, ◌≤◌, ◌<◌, ◌≡◌, refl, sym, ap, ◌∙◌, subst, true, false, none, some, [], String, ◌==◌,
  or_zero, arith, Bool-cases, inl, inr, nat_eq, string_eq, Option-cases,
}
use token_sim.Prelude.Dict.{
  Dict, Distinct, get, put, has, get-put_same, get-put_other, put-Distinct, total, total-put_new,
}
use token_sim.Errors.{Outcome, ok, raise}
use token_sim.Af.Plan.{RankKey, rank_key_eq, PhysicalState, RuntimePlan, protocol_buffer_bytes}
use token_sim.Af.Resident.{
  KvLease, ResidentKv, count, add_each, add_or_new, rank_bytes, bytes, reserve,
}
use token_sim.Af.Resident.Counts.{add_each-Adds, add_or_new-Adds}
use token_sim.Af.Resident.Sizes.{
  states, HasRoom, check_workers-HasRoom, rank_bytes-Distinct, bytes-Distinct, Admitted,
}

module _ (plan : RuntimePlan) where
  -- The bytes that a lease reserves on a worker and on a rank.
  abbrev pub or_nothing {ℓ} : {K : Type ℓ} → Outcome (Dict K ℕ) → Dict K ℕ
  or_nothing (ok d) = d
  or_nothing (raise e) = []

  abbrev pub worker_bytes : String → KvLease → ℕ
  worker_bytes name l =
      count name (or_nothing (bytes plan l.domain l.instance_name l.maximum_context))

  abbrev pub rank_share : RankKey → KvLease → ℕ
  rank_share r l = count r (or_nothing (rank_bytes plan l.domain l.instance_name l.maximum_context))

  -- A lease whose bytes are on the books.
  pub record Held (l : KvLease) (s : ResidentKv) : Type 0 where
    pub sizes : Dict String ℕ
    pub ranks : Dict RankKey ℕ
    pub sized : bytes plan l.domain l.instance_name l.maximum_context ≡ ok sizes
    pub ranked : rank_bytes plan l.domain l.instance_name l.maximum_context ≡ ok ranks
    pub workers_there : (name : String) → has name sizes ≡ true → has name s.reserved ≡ true
    pub ranks_there : (r : RankKey) → has r ranks ≡ true → has r s.reserved_by_rank ≡ true
    pub bounded : l.current_context ≤ l.maximum_context

  -- A worker that something is reserved on holds its model, its buffers and the reservations.
  abbrev pub Fits : ResidentKv → String → Type 0
  Fits s name =
      (st : PhysicalState)
      → get name (states plan) ≡ some st
      → 0 < count name s.reserved
      → st.model_bytes + protocol_buffer_bytes st + count name s.reserved ≤ st.capacity_bytes

  pub record IsResident (s : ResidentKv) : Type 0 where
    pub distinct : Distinct s.leases
    pub held : (id : ℕ) (l : KvLease) → get id s.leases ≡ some l → Held l s
    pub worker_sums : (name : String) → count name s.reserved ≡ total (worker_bytes name) s.leases
    pub rank_sums : (r : RankKey) → count r s.reserved_by_rank ≡ total (rank_share r) s.leases
    pub fits : (name : String) → Fits s name

  reserve_lem :
      (id : ℕ) (l : KvLease) (sizes : Dict String ℕ) (ranks : Dict RankKey ℕ) (s : ResidentKv)
      → (add_each sizes s.reserved).0 ≡ ok tt
      → reserve plan id l sizes ranks s ≡ (
        ok tt,
        record {
          leases = put id l s.leases;
          reserved = (add_each sizes s.reserved).1;
          reserved_by_rank = add_or_new ranks s.reserved_by_rank;
        },
      )
  unfolding reserve
  reserve_lem id l sizes ranks s h = rw h refl

  -- The keys that a lease needs are there when no key has gone.
  pub held_still :
      (l : KvLease) (s t : ResidentKv)
      → ((name : String) → has name s.reserved ≡ true → has name t.reserved ≡ true)
      → ((r : RankKey) → has r s.reserved_by_rank ≡ true → has r t.reserved_by_rank ≡ true)
      → Held l s
      → Held l t
  held_still l s t workers ranks h = record {
    sizes = h.sizes;
    ranks = h.ranks;
    sized = h.sized;
    ranked = h.ranked;
    workers_there = λ name there. workers name (h.workers_there name there);
    ranks_there = λ r there. ranks r (h.ranks_there r there);
    bounded = h.bounded;
  }

  -- What an admission with these sizes leaves.
  module _ (id : ℕ) (l : KvLease) (sizes : Dict String ℕ) (ranks : Dict RankKey ℕ) (s : ResidentKv)
      (i : IsResident s)
      (found : Admitted plan id l.domain l.instance_name l.maximum_context l.current_context s sizes
        ranks) where
    abbrev pub admitted : ResidentKv
    admitted = record {
      leases = put id l s.leases;
      reserved = (add_each sizes s.reserved).1;
      reserved_by_rank = add_or_new ranks s.reserved_by_rank;
    }

    sizes-Distinct : Distinct sizes
    sizes-Distinct = bytes-Distinct plan l.domain l.instance_name l.maximum_context sizes found.2

    ranks-Distinct : Distinct ranks
    ranks-Distinct =
        rank_bytes-Distinct plan l.domain l.instance_name l.maximum_context ranks found.3

    room : (name : String) → has name sizes ≡ true → HasRoom plan s.reserved sizes name
    room = check_workers-HasRoom plan s.reserved sizes sizes-Distinct found.4

    pub returns : reserve plan id l sizes ranks s ≡ (ok tt, admitted)
    returns =
        reserve_lem id l sizes ranks s
          (add_each-Adds sizes s.reserved sizes-Distinct (λ name there. (room name there).0)).0

    worker_added :
        (name : String)
        → (count name admitted.reserved ≡ count name s.reserved + count name sizes)
          × (has name admitted.reserved ≡ has name s.reserved)
    worker_added =
        (add_each-Adds sizes s.reserved sizes-Distinct (λ name there. (room name there).0)).1

    absent : get id s.leases ≡ none
    absent = elim (Option-cases (get id s.leases)) [
      | inl a ↦ a
      | inr (l', there) ↦ absurd (ground (arith, there, found.0))
    ]

    admitted-Fits : (name : String) → Fits admitted name
    admitted-Fits name st got some_bytes = elim (Bool-cases (has name sizes)) [
      | inl there ↦ omega (arith, (room name there).1 st got, (worker_added name).0)
      | inr other ↦
          let none_added : count name sizes ≡ 0 = missing name sizes other in
          omega (
            arith,
            i.fits name st got (omega (arith, (worker_added name).0, none_added)),
            (worker_added name).0,
            none_added,
          )
    ]
      where
        missing : (name : String) (d : Dict String ℕ) → has name d ≡ false → count name d ≡ 0
        missing name d h = elim (Option-cases (get name d)) [
          | inl a ↦ ap or_zero a
          | inr (n, there) ↦ absurd (ground (arith, h, there))
        ]

    new_held : Held l admitted
    new_held = record {
      sizes = sizes;
      ranks = ranks;
      sized = found.2;
      ranked = found.3;
      workers_there = λ name there. (worker_added name).1 ∙ (room name there).0;
      ranks_there = λ r there. (add_or_new-Adds ranks s.reserved_by_rank ranks-Distinct r).2 there;
      bounded = found.1;
    }

    pub admitted-IsResident : IsResident admitted
    admitted-IsResident = record {
      distinct = put-Distinct id l s.leases i.distinct;
      held = λ j k got. elim (Bool-cases (id == j)) [
        | inl t ↦
            let same : l ≡ k = ground (arith, get-put_same id j l s.leases t, got) in
            subst (λ (x : KvLease). Held x admitted) same new_held
        | inr f ↦
            held_still k s admitted (λ name there. (worker_added name).1 ∙ there)
              (λ r there. (add_or_new-Adds ranks s.reserved_by_rank ranks-Distinct r).1 there)
              (i.held j k (sym (get-put_other id j l s.leases f) ∙ got))
      ];
      worker_sums = λ name.
          let here : worker_bytes name l ≡ count name sizes =
            ap (λ o. count name (or_nothing o)) found.2 in
          omega (
            arith,
            (worker_added name).0,
            i.worker_sums name,
            here,
            total-put_new (worker_bytes name) id l s.leases absent,
          );
      rank_sums = λ r.
          let here : rank_share r l ≡ count r ranks = ap (λ o. count r (or_nothing o)) found.3 in
          omega (
            arith,
            (add_or_new-Adds ranks s.reserved_by_rank ranks-Distinct r).0,
            i.rank_sums r,
            here,
            total-put_new (rank_share r) id l s.leases absent,
          );
      fits = admitted-Fits;
    }
