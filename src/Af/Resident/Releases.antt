-- ===== src/Af/Resident/Releases.antt =====
-- The invariant of `ResidentKV` and its calls `commit` and `release` (TokenSim/af/runtime/admission.py).
use token_sim.Prelude.{
  ℕ, ◌+◌, ◌≤◌, ◌≡◌, refl, sym, ap, ◌∙◌, subst, true, false, none, some, String, ◌==◌, arith,
  Bool-cases, inl, inr, nat_eq, string_eq, ltb, Option-cases,
}
use token_sim.Prelude.Dict.{
  get, put, remove, get-put_same, get-put_other, get-remove, put-Distinct, remove-Distinct,
  total-put_old, total-remove,
}
use token_sim.Errors.{Outcome, ok, raise, key_error, simulation_state_error}
use token_sim.Af.Plan.{RankKey, rank_key_eq, RuntimePlan}
use token_sim.Af.Resident.{KvLease, ResidentKv, count, subtract_each, commit, unreserve, release}
use token_sim.Af.Resident.Counts.{Takes, subtract_each-Takes}
use token_sim.Af.Resident.Sizes.{rank_bytes-Distinct, bytes-Distinct}
use token_sim.Af.Resident.Residence.{
  or_nothing, worker_bytes, rank_share, Held, IsResident, held_still,
}

module _ (plan : RuntimePlan) where
  -- A lease of the books with another context within its maximum.
  pub committed-IsResident :
      (id context : ℕ) (l : KvLease) (s : ResidentKv)
      → get id s.leases ≡ some l
      → context ≤ l.maximum_context
      → IsResident plan s
      → IsResident plan
          (record s { leases = put id (record l { current_context = context }) s.leases })
  committed-IsResident id context l s there fits i =
      let l' : KvLease = record l { current_context = context } in
      let t : ResidentKv = record s { leases = put id l' s.leases } in
      let h = i.held id l there in
      let new_held : Held plan l' t = record {
        sizes = h.sizes;
        ranks = h.ranks;
        sized = h.sized;
        ranked = h.ranked;
        workers_there = h.workers_there;
        ranks_there = h.ranks_there;
        bounded = fits;
      } in
      record {
        distinct = put-Distinct id l' s.leases i.distinct;
        held = λ j k got. elim (Bool-cases (id == j)) [
          | inl t' ↦
              subst (λ (x : KvLease). Held plan x t)
                (ground (arith, get-put_same id j l' s.leases t', got)) new_held
          | inr f ↦
              held_still plan k s t (λ _ x. x) (λ _ x. x)
                (i.held j k (sym (get-put_other id j l' s.leases f) ∙ got))
        ];
        worker_sums = λ name. omega (
          arith,
          i.worker_sums name,
          total-put_old (worker_bytes plan name) id l' l s.leases there,
        );
        rank_sums = λ r.
            omega (arith, i.rank_sums r, total-put_old (rank_share plan r) id l' l s.leases there);
        fits = i.fits;
      }

  commit_absent :
      (id context : ℕ) (s : ResidentKv)
      → get id s.leases ≡ none
      → commit plan id context s ≡ (raise key_error, s)
  unfolding commit
  commit_absent id context s absent = rw (absent, commit) refl

  commit_over :
      (id context : ℕ) (l : KvLease) (s : ResidentKv)
      → get id s.leases ≡ some l
      → ltb l.maximum_context context ≡ true
      → commit plan id context s ≡ (raise simulation_state_error, s)
  unfolding commit
  commit_over id context l s there over = rw (there, over, commit) refl

  commit_within :
      (id context : ℕ) (l : KvLease) (s : ResidentKv)
      → get id s.leases ≡ some l
      → ltb l.maximum_context context ≡ false
      → commit plan id context s
        ≡ (ok tt, record s { leases = put id (record l { current_context = context }) s.leases })
  unfolding commit
  commit_within id context l s there within = rw (there, within, commit) refl

  -- What a call leaves, by what it returns and leaves.
  abbrev pub leaves :
      {out after : Outcome (Unit {0}) × ResidentKv}
      → out ≡ after
      → IsResident plan after.1
      → IsResident plan out.1
  leaves e i = subst (λ o. IsResident plan o.1) (sym e) i

  pub commit-IsResident :
      (id context : ℕ) (s : ResidentKv)
      → IsResident plan s
      → IsResident plan (commit plan id context s).1
  commit-IsResident id context s i = elim (Option-cases (get id s.leases)) [
    | inl absent ↦ leaves (commit_absent id context s absent) i
    | inr (l, there) ↦ elim (Bool-cases (ltb l.maximum_context context)) [
      | inl over ↦ leaves (commit_over id context l s there over) i
      | inr within ↦
          leaves (commit_within id context l s there within)
            (committed-IsResident id context l s there (ground (arith, within)) i)
    ]
  ]

  -- The release of a lease.
  module _ (id : ℕ) (l : KvLease) (s : ResidentKv) (there : get id s.leases ≡ some l)
      (i : IsResident plan s) where
    pub held_here : Held plan l s
    held_here = i.held id l there

    worker_listed : (name : String) → worker_bytes plan name l ≡ count name held_here.sizes
    worker_listed name = ap (λ o. count name (or_nothing plan o)) held_here.sized

    rank_listed : (r : RankKey) → rank_share plan r l ≡ count r held_here.ranks
    rank_listed r = ap (λ o. count r (or_nothing plan o)) held_here.ranked

    abbrev released : ResidentKv
    released = record {
      leases = remove id s.leases;
      reserved = (subtract_each held_here.sizes s.reserved).1;
      reserved_by_rank = (subtract_each held_here.ranks s.reserved_by_rank).1;
    }

    workers_taken : Takes held_here.sizes s.reserved (subtract_each held_here.sizes s.reserved)
    workers_taken =
        subtract_each-Takes held_here.sizes s.reserved
          (bytes-Distinct plan l.domain l.instance_name l.maximum_context held_here.sizes
            held_here.sized)
          held_here.workers_there
          (λ name. omega (
            arith,
            i.worker_sums name,
            worker_listed name,
            total-remove (worker_bytes plan name) id l s.leases there,
          ))

    ranks_taken :
        Takes held_here.ranks s.reserved_by_rank (subtract_each held_here.ranks s.reserved_by_rank)
    ranks_taken =
        subtract_each-Takes held_here.ranks s.reserved_by_rank
          (rank_bytes-Distinct plan l.domain l.instance_name l.maximum_context held_here.ranks
            held_here.ranked)
          held_here.ranks_there
          (λ r. omega (
            arith,
            i.rank_sums r,
            rank_listed r,
            total-remove (rank_share plan r) id l s.leases there,
          ))

    pub release_lem : release plan id s ≡ (ok tt, released)
    unfolding release unreserve
    release_lem =
        rw
          (
            there, release, unreserve, held_here.sized, workers_taken.0, held_here.ranked,
            ranks_taken.0,
          )
          refl

    pub released-IsResident : IsResident plan released
    released-IsResident = record {
      distinct = remove-Distinct id s.leases i.distinct;
      held = λ j k got. elim (Bool-cases (id == j)) [
        | inl t ↦ absurd (ground (arith, got, get-remove id j s.leases i.distinct, t))
        | inr f ↦
            let kept : get j s.leases ≡ some k =
              ground (arith, got, get-remove id j s.leases i.distinct, f) in
            held_still plan k s released (λ name h. (workers_taken.1 name).1 ∙ h)
              (λ r h. (ranks_taken.1 r).1 ∙ h) (i.held j k kept)
      ];
      worker_sums = λ name. omega (
        arith,
        (workers_taken.1 name).0,
        i.worker_sums name,
        worker_listed name,
        total-remove (worker_bytes plan name) id l s.leases there,
      );
      rank_sums = λ r. omega (
        arith,
        (ranks_taken.1 r).0,
        i.rank_sums r,
        rank_listed r,
        total-remove (rank_share plan r) id l s.leases there,
      );
      fits = λ name st got some_bytes. omega (
        arith,
        (workers_taken.1 name).0,
        i.fits name st got (omega (arith, (workers_taken.1 name).0)),
      );
    }

  release_absent :
      (id : ℕ) (s : ResidentKv) → get id s.leases ≡ none → release plan id s ≡ (raise key_error, s)
  unfolding release
  release_absent id s absent = rw (absent, release) refl

  pub release-IsResident :
      (id : ℕ) (s : ResidentKv) → IsResident plan s → IsResident plan (release plan id s).1
  release-IsResident id s i = elim (Option-cases (get id s.leases)) [
    | inl absent ↦ leaves (release_absent id s absent) i
    | inr (l, there) ↦ leaves (release_lem id l s there i) (released-IsResident id l s there i)
  ]

  pub released_bytes :
      (id : ℕ) (l : KvLease) (s : ResidentKv)
      → get id s.leases ≡ some l
      → IsResident plan s
      → (name : String)
      → count name (release plan id s).1.reserved + worker_bytes plan name l ≡ count name s.reserved
  released_bytes id l s there i name =
      subst
        (λ (t : ResidentKv).
          count name t.reserved + worker_bytes plan name l ≡ count name s.reserved)
        (sym (ap (λ o. o.1) (release_lem id l s there i)))
        (omega (arith, (workers_taken id l s there i).1 name, worker_listed id l s there i name))
