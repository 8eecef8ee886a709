-- ===== src/Af/Resident/Run.antt =====
-- Runs of `admit`, `commit` and `release` on a new `ResidentKV` (TokenSim/af/runtime/admission.py).
use token_sim.Prelude.{
  ℕ, ◌+◌, ◌≤◌, ◌<◌, ◌≡◌, refl, ap, ◌∙◌, some, List, [], ◌∷◌, String, ◌==◌, arith, Bool-cases, inl,
  inr, nat_eq, string_eq,
}
use token_sim.Prelude.Dict.{Dict, get, put, total}
use token_sim.Errors.{Error, ok, raise, Outcome-cases}
use token_sim.Af.Plan.{RankKey, rank_key_eq, PhysicalState, RuntimePlan, protocol_buffer_bytes}
use token_sim.Af.Resident.{
  KvLease, ResidentKv, count, zeros, new_resident, admission, reserve, admit, commit, release,
}
use token_sim.Af.Resident.Counts.{count-put}
use token_sim.Af.Resident.Sizes.{states, admission-Admitted}
use token_sim.Af.Resident.Residence.{
  worker_bytes, rank_share, IsResident, returns, admitted-IsResident,
}
use token_sim.Af.Resident.Releases.{
  leaves, commit-IsResident, release-IsResident, release_lem, released_bytes,
}

-- One call, with any arguments and whatever it returns or raises.
pub data Call (plan : RuntimePlan) (s : ResidentKv) : ResidentKv → Type 0 where
  admits :
      (id : ℕ) (domain inst : String) (maximum current : ℕ)
      → Call plan s (admit plan id domain inst maximum current s).1
  commits : (id context : ℕ) → Call plan s (commit plan id context s).1
  releases : (id : ℕ) → Call plan s (release plan id s).1

pub data Reaches (plan : RuntimePlan) : ResidentKv → Type 0 where
  start : Reaches plan (new_resident plan)
  after : {s t : ResidentKv} → Reaches plan s → Call plan s t → Reaches plan t

module _ (plan : RuntimePlan) where
  zeros-count :
      (before : Dict String ℕ) (sts : List PhysicalState) (name : String)
      → count name before ≡ 0
      → count name (zeros before sts) ≡ 0
  zeros-count before [] name h = h
  zeros-count before (st ∷ sts) name h =
      zeros-count (put st.physical_identity 0 before) sts name
        (elim (Bool-cases (st.physical_identity == name)) [
          | inl t ↦ count-put st.physical_identity name 0 before ∙ rw t refl
          | inr f ↦ count-put st.physical_identity name 0 before ∙ rw f h
        ])

  new_resident-IsResident : IsResident plan (new_resident plan)
  unfolding get
  new_resident-IsResident = record {
    distinct = tt;
    held = λ id l got. absurd (ground (arith, got));
    worker_sums = λ name. zeros-count [] plan.physical_states name refl;
    rank_sums = λ r. refl;
    fits = λ name st got some_bytes.
        absurd (omega (arith, some_bytes, zeros-count [] plan.physical_states name refl));
  }

  admit_refused :
      (id : ℕ) (domain inst : String) (maximum current : ℕ) (s : ResidentKv) (e : Error)
      → admission plan id domain inst maximum current s ≡ raise e
      → admit plan id domain inst maximum current s ≡ (raise e, s)
  unfolding admit
  admit_refused id domain inst maximum current s e refused = rw (refused, admit) refl

  admit_reserves :
      (id : ℕ) (l : KvLease) (s : ResidentKv) (sizes : Dict String ℕ) (ranks : Dict RankKey ℕ)
      → admission plan id l.domain l.instance_name l.maximum_context l.current_context s
        ≡ ok (sizes, ranks)
      → admit plan id l.domain l.instance_name l.maximum_context l.current_context s
        ≡ reserve plan id l sizes ranks s
  unfolding admit
  admit_reserves id l s sizes ranks found = rw (found, admit) refl

  admit-IsResident :
      (id : ℕ) (l : KvLease) (s : ResidentKv)
      → IsResident plan s
      → IsResident plan
          (admit plan id l.domain l.instance_name l.maximum_context l.current_context s).1
  admit-IsResident id l s i =
      elim (Outcome-cases
        (admission plan id l.domain l.instance_name l.maximum_context l.current_context s)) [
          | inr (e, refused) ↦
              leaves plan
                (admit_refused id l.domain l.instance_name l.maximum_context l.current_context s e
                  refused)
                i
          | inl ((sizes, ranks), found) ↦
              let facts =
                admission-Admitted plan id l.domain l.instance_name l.maximum_context
                  l.current_context s sizes ranks found in
              leaves plan
                (admit_reserves id l s sizes ranks found ∙ returns plan id l sizes ranks s i facts)
                (admitted-IsResident plan id l sizes ranks s i facts)
        ]

  Call-IsResident : {s t : ResidentKv} → Call plan s t → IsResident plan s → IsResident plan t
  Call-IsResident (admits id domain inst maximum current) i =
      admit-IsResident id
        (record {
          domain = domain;
          instance_name = inst;
          maximum_context = maximum;
          current_context = current;
        })
        _ i
  Call-IsResident (commits id context) i = commit-IsResident plan id context _ i
  Call-IsResident (releases id) i = release-IsResident plan id _ i

  Reaches-IsResident : (s : ResidentKv) → Reaches plan s → IsResident plan s
  Reaches-IsResident _ start = new_resident-IsResident
  Reaches-IsResident _ (after r c) = Call-IsResident c (Reaches-IsResident _ r)

  -- After any run of calls on a new `ResidentKV`, the bytes reserved on a worker, and on a rank, are the sums of
  -- what the leases need at their maximum contexts, and a worker with reserved bytes holds them within its
  -- capacity beside its model and its protocol buffers.
  pub Reaches-fits :
      (s : ResidentKv)
      → Reaches plan s
      → (name : String)
      → (count name s.reserved ≡ total (worker_bytes plan name) s.leases)
        × ((r : RankKey) → count r s.reserved_by_rank ≡ total (rank_share plan r) s.leases)
        × ((st : PhysicalState)
            → get name (states plan) ≡ some st
            → 0 < count name s.reserved
            → st.model_bytes + protocol_buffer_bytes st + count name s.reserved ≤ st.capacity_bytes)
  Reaches-fits s runs name =
      let i = Reaches-IsResident s runs in (i.worker_sums name, i.rank_sums, i.fits name)

  -- After any run of calls on a new `ResidentKV`, the context that a lease has committed is within its maximum,
  -- and its release returns, with every entry that it takes from there, and leaves the bytes reserved on each
  -- worker less by the lease's bytes.
  pub Reaches-release :
      (s : ResidentKv)
      → Reaches plan s
      → (id : ℕ) (l : KvLease) → get id s.leases ≡ some l
      → (l.current_context ≤ l.maximum_context)
        × ((release plan id s).0 ≡ ok tt)
        × ((name : String)
            → count name (release plan id s).1.reserved + worker_bytes plan name l
              ≡ count name s.reserved)
  Reaches-release s runs id l there =
      let i = Reaches-IsResident s runs in
      (
        (i.held id l there).bounded,
        ap (λ o. o.0) (release_lem plan id l s there i),
        λ name. released_bytes plan id l s there i name,
      )
