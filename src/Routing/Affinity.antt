-- ===== src/Routing/Affinity.antt =====
-- Runs of `select` and `reset_stats` of `ConsistentHashRouter` (TokenSim/placement/consistent_hash.py) beside the
-- worker that hashing a session's key on the constructor's ring gives.
use token_sim.Prelude.{
  ℕ, ◌+◌, ◌<◌, ◌≡◌, refl, sym, subst, true, false, not, ◌||◌, Option, none, some, List, [], String,
  ◌==◌, nat_eq, string_eq, length, arith, Bool-cases, inl, inr,
}
use token_sim.Prelude.Dict.{get, total}
use token_sim.Errors.{ok}
use token_sim.Routing.Hash.{fbi_hash}
use token_sim.Routing.Ring.{rank_for_hash}
use token_sim.Routing.Sessions.{
  Worker, Message, Router, by_rank, no_session, add_ranks, new_router, select, reset_stats,
}
use token_sim.Routing.Nodes.{HasWorkers, add_ranks-HasWorkers, add_ranks-nonempty}
use token_sim.Routing.Visits.{Kept, Home, Home-exists, select-Routed, session_of, refused-same}

module _ (label : ℕ → ℕ → List ℕ) (session_key : String → List ℕ) where
  -- Where a session belongs: the worker of the rank its key's hash falls on, with nothing remembered.
  abbrev pub home : List Worker → String → Option Worker
  home workers session =
      let ranks = by_rank [] workers in
      elim (rank_for_hash (add_ranks label ranks []) (fbi_hash (session_key session))) [
        | none ↦ none
        | some rank ↦ get rank ranks
      ]

  -- The router after a run of calls, with the number of requests routed since the last reset.
  pub data Reaches (start : Router) : ℕ → Router → Type 0 where
    begin : Reaches start 0 start
    selects :
        {n : ℕ} {r : Router} (m : Message)
        → no_session m.chat_id ≡ false
        → Reaches start n r
        → Reaches start (n + 1) (select session_key (r, m)).1.0
    refuses :
        {n : ℕ} {r : Router} (m : Message)
        → no_session m.chat_id ≡ true
        → Reaches start n r
        → Reaches start n (select session_key (r, m)).1.0
    resets : {n : ℕ} {r : Router} → Reaches start n r → Reaches start 0 (reset_stats r)

  Reaches-Kept :
      (start : Router) (n : ℕ) (r : Router)
      → 0 < length start.ring
      → HasWorkers start.workers start.ring
      → Kept session_key start 0 start
      → Reaches start n r
      → Kept session_key start n r
  unfolding reset_stats select
  Reaches-Kept start _ _ some_node all fresh begin = fresh
  Reaches-Kept start _ _ some_node all fresh (selects {n} {r} m named runs) =
      let kept = Reaches-Kept start n r some_node all fresh runs in
      let (s, is, full) = session_of session_key m named in
      let (rank, w, home) = Home-exists session_key start s some_node all in
      (select-Routed session_key start n rank w r m s home kept is full).3
  Reaches-Kept start _ _ some_node all fresh (refuses {n} {r} m named runs) =
      let kept = Reaches-Kept start n r some_node all fresh runs in
      subst (λ (x : Router). Kept session_key start n x) (sym (refused-same session_key r m named))
        kept
  Reaches-Kept start _ _ some_node all fresh (resets {n} {r} runs) =
      let kept = Reaches-Kept start n r some_node all fresh runs in
      record {
        same_workers = kept.same_workers;
        same_ring = kept.same_ring;
        counted = refl;
        remembered = kept.remembered;
      }

  -- What the constructor makes of workers it accepts.
  abbrev made : List Worker → Router
  made workers = record {
    workers = by_rank [] workers;
    ring = add_ranks label (by_rank [] workers) [];
    sessions = [];
    request_counts = [];
    session_counts = [];
  }

  new_router-made :
      (workers : List Worker) (start : Router)
      → new_router label workers ≡ ok start
      → (0 < length (by_rank [] workers)) × (made workers ≡ start)
  unfolding new_router
  new_router-made workers start h =
      let ranks = by_rank [] workers in
      elim (Bool-cases (not (length ranks == length workers) || (length workers == 0))) [
        | inl bad ↦ absurd (ground (arith, rw bad at h))
        | inr good ↦ (ground (arith, good), ground (arith, rw good at h))
      ]

  home-Home :
      (workers : List Worker) (s : String) (rank : ℕ) (w : Worker)
      → Home session_key (made workers) s rank w
      → home workers s ≡ some w
  home-Home workers s rank w (hashed, found) =
      let here : rank_for_hash (add_ranks label (by_rank [] workers) []) (fbi_hash (session_key s))
          ≡ some rank =
        hashed in
      rw (here, home) found

  -- A session is routed to its home whatever was routed before.
  at_home :
      (workers : List Worker) (n : ℕ) (r : Router) (m : Message) (s : String)
      → 0 < length (by_rank [] workers)
      → Reaches (made workers) n r
      → m.chat_id ≡ some s
      → (s == "") ≡ false
      → let (returned, (r', m')) = select session_key (r, m) in
        (w : Worker) × (home workers s ≡ some w)
        × (returned ≡ ok w)
        × (m'.routing_worker_id ≡ some w.id)
        × (total (λ c. c) r'.request_counts ≡ n + 1)
  unfolding get
  at_home workers n r m s some_worker runs named full =
      let start = made workers in
      let ranks = by_rank [] workers in
      let some_node = add_ranks-nonempty label ranks [] (omega (arith, some_worker)) in
      let all =
        add_ranks-HasWorkers label ranks ranks [] (λ r h. h)
          (λ p r got. absurd (ground (arith, got))) in
      let fresh : Kept session_key start 0 start = record {
        same_workers = refl;
        same_ring = refl;
        counted = refl;
        remembered = λ s rank got. absurd (ground (arith, got));
      } in
      let kept = Reaches-Kept start n r some_node all fresh runs in
      let (rank, w, there) = Home-exists session_key start s some_node all in
      let (returned, to_rank, to_worker, after) =
        select-Routed session_key start n rank w r m s there kept named full in
      (w, home-Home workers s rank w there, returned, to_worker, after.counted)

  -- After any run of `select` and `reset_stats` on a new router, `select` returns for a session the worker that
  -- its key's hash gives on the constructor's ring, whatever was routed before; it writes that worker's id
  -- on the request, and the request counts add up to the requests routed since the last reset.
  pub select-home :
      (workers : List Worker) (start : Router) (n : ℕ) (r : Router) (m : Message) (s : String)
      → new_router label workers ≡ ok start
      → Reaches start n r
      → m.chat_id ≡ some s
      → (s == "") ≡ false
      → let (returned, (r', m')) = select session_key (r, m) in
        (w : Worker) × (home workers s ≡ some w)
        × (returned ≡ ok w)
        × (m'.routing_worker_id ≡ some w.id)
        × (total (λ c. c) r'.request_counts ≡ n + 1)
  select-home workers start n r m s built runs named full =
      let (some_worker, same) = new_router-made workers start built in
      at_home workers n r m s some_worker (subst (λ (x : Router). Reaches x n r) (sym same) runs)
        named full
