-- ===== src/Routing/Sessions.antt =====
-- `ConsistentHashRouter` of TokenSim/placement/consistent_hash.py: its workers by rank, the ring of their
-- virtual nodes, and the rank it keeps for each session. The bytes of a virtual node's label
-- f"{backend_url}@{rank}:{ordinal}" and of a session's key f"header:x-session-id:{session}" are the
-- parameters `label` and `session_key`, since Python's formatting and UTF-8 make them.
use token_sim.Prelude.{
  Eq, or_zero, ℕ, zero, suc, ◌+◌, Bool, true, not, ◌||◌, Option, none, some, List, [], ◌∷◌, String,
  ◌==◌, if◌then◌else◌, nat_eq, string_eq, length,
}
use token_sim.Prelude.Dict.{Dict, get, put}
use token_sim.Errors.{
  Outcome, ok, raise, Action, configuration_error, key_error, zero_division_error,
}
use token_sim.Routing.Hash.{fbi_hash}
use token_sim.Routing.Ring.{rank_for_hash}

pub record Worker : Type 0 where
  pub id : ℕ
  pub dp_rank : ℕ

-- The fields of a request that routing reads and writes.
pub record Message : Type 0 where
  pub chat_id : Option String
  pub dp_rank : Option ℕ
  pub routing_worker_id : Option ℕ

pub record Router : Type 0 where
  pub workers : Dict ℕ Worker
  pub ring : Dict ℕ ℕ
  pub sessions : Dict String ℕ
  pub request_counts : Dict ℕ ℕ
  pub session_counts : Dict ℕ ℕ

module _ {ℓ} {K : Type ℓ} ⦃e : Eq K⦄ where
  -- `counter[k]` of a `Counter`
  abbrev pub count_of : K → Dict K ℕ → ℕ
  count_of k counter = or_zero (get k counter)

  -- `counter[k] += 1`
  abbrev pub bump : K → Dict K ℕ → Dict K ℕ
  bump k counter = put k (count_of k counter + 1) counter

-- `{w.dp_rank: w for w in workers}`, from the entries before on
abbrev pub by_rank : Dict ℕ Worker → List Worker → Dict ℕ Worker
by_rank before [] = before
by_rank before (w ∷ ws) = by_rank (put w.dp_rank w before) ws

-- `not session`
abbrev pub no_session : Option String → Bool
no_session none = true
no_session (some s) = s == ""

abbrev pub virtual_nodes : ℕ
virtual_nodes = 160

module _ (label : ℕ → ℕ → List ℕ) where
  -- The `for ordinal` of the constructor, for so many ordinals from one on.
  unfoldable pub add_nodes : ℕ → ℕ → ℕ → Dict ℕ ℕ → Dict ℕ ℕ
  add_nodes rank ordinal zero ring = ring
  add_nodes rank ordinal (suc count) ring =
      add_nodes rank (ordinal + 1) count (put (fbi_hash (label rank ordinal)) rank ring)

  -- The `for rank` of the constructor.
  unfoldable pub add_ranks : Dict ℕ Worker → Dict ℕ ℕ → Dict ℕ ℕ
  add_ranks [] ring = ring
  add_ranks ((rank, w) ∷ rest) ring = add_ranks rest (add_nodes rank 0 virtual_nodes ring)

  unfoldable pub new_router : List Worker → Outcome Router
  new_router workers =
      let ranks = by_rank [] workers in
      if not (length ranks == length workers) || (length workers == 0)
      then raise configuration_error
      else ok (record {
        workers = ranks;
        ring = add_ranks ranks [];
        sessions = [];
        request_counts = [];
        session_counts = [];
      })

-- The part of `select` after the session's rank is known.
unfoldable pub route : ℕ → Action (Router × Message) Worker
route rank (r, m) = elim (get rank r.workers) [
  | none ↦ (raise key_error, (r, record m { dp_rank = some rank }))
  | some w ↦ (
    ok w,
    (
      record r { request_counts = bump rank r.request_counts },
      record m { dp_rank = some rank; routing_worker_id = some w.id },
    ),
  )
]

module _ (session_key : String → List ℕ) where
  unfoldable pub select : Action (Router × Message) Worker
  unfolding route
  select (r, m) = elim m.chat_id [
    | none ↦ (raise configuration_error, (r, m))
    | some session ↦
        if session == ""
        then (raise configuration_error, (r, m))
        else elim (get session r.sessions) [
          | some rank ↦ route rank (r, m)
          -- a modulus of 0 where the ring is empty
          | none ↦ elim (rank_for_hash r.ring (fbi_hash (session_key session))) [
            | none ↦ (raise zero_division_error, (r, m))
            | some rank ↦ route rank (
              record r {
                sessions = put session rank r.sessions;
                session_counts = bump rank r.session_counts;
              },
              m,
            )
          ]
        ]
  ]

unfoldable pub reset_stats : Router → Router
reset_stats r = record r { request_counts = []; session_counts = [] }
