-- ===== src/Examples/Routes.antt =====
-- Routing at concrete inputs.
use token_sim.Prelude.{
  false, ◌==◌, string_eq, nat_eq, ℕ, ◌≡◌, refl, none, some, String, List, [], ◌∷◌, arith,
}
use Prim.Native.String.{len}
use token_sim.Prelude.Dict.{Dict, get, put, total}
use token_sim.Errors.{ok}
use token_sim.Routing.Ring.{rank_for_hash, rank_for_hash_lem, Serves}
use token_sim.Routing.Sessions.{
  by_rank, Worker, Message, Router, add_ranks, new_router, select, reset_stats,
}
use token_sim.Routing.Fixed.{FixedRouter, new_fixed, select_fixed}
use token_sim.Routing.Fixed.Replay.{fresh, selected, select_fixed-replays}
use token_sim.Routing.Affinity.{home, begin, selects, refuses, resets, select-home}

-- Three nodes of two ranks.
abbrev small_ring : Dict ℕ ℕ
small_ring = (40, 0) ∷ (10, 1) ∷ (25, 0) ∷ []

rank_for_hash_lem_example :
    (p r : ℕ) × (get p small_ring ≡ some r)
    × (rank_for_hash small_ring 26 ≡ some r)
    × Serves small_ring 26 p
rank_for_hash_lem_example = rank_for_hash_lem small_ring 26 (omega arith)

abbrev label : ℕ → ℕ → List ℕ
label rank ordinal = rank ∷ ordinal ∷ []

abbrev session_key : String → List ℕ
session_key s = len s ∷ []

abbrev leaders : List Worker
leaders = record { id = 7; dp_rank = 0 } ∷ record { id = 8; dp_rank = 1 } ∷ []

abbrev message : String → Message
message s = record { chat_id = some s; dp_rank = none; routing_worker_id = none }

-- The router that the constructor builds, the ring as the constructor writes it.
abbrev first_router : Router
first_router = record {
  workers = (0, record { id = 7; dp_rank = 0 }) ∷ (1, record { id = 8; dp_rank = 1 }) ∷ [];
  ring =
      add_ranks label
        ((0, record { id = 7; dp_rank = 0 }) ∷ (1, record { id = 8; dp_rank = 1 }) ∷ []) [];
  sessions = [];
  request_counts = [];
  session_counts = [];
}

first_router_ok : new_router label leaders ≡ ok first_router
unfolding new_router put
first_router_ok = refl

-- A reset, then one session and a message without one.
abbrev later : Router
later =
    (select session_key
      ((select session_key (reset_stats first_router, message "chat")).1.0, message "")).1.0

select-home_example :
    let (returned, (r', m')) = select session_key (later, message "chat") in
    (w : Worker) × (home label session_key leaders "chat" ≡ some w)
    × (returned ≡ ok w)
    × (m'.routing_worker_id ≡ some w.id)
    × (total (λ c. c) r'.request_counts ≡ 2)
select-home_example =
    select-home label session_key leaders first_router 1 later (message "chat") "chat"
      first_router_ok (refuses (message "") refl (selects (message "chat") refl (resets begin)))
      refl refl

abbrev recorded : Dict String ℕ
recorded = ("old", 1) ∷ []

abbrev replay : FixedRouter
replay = record {
  workers = first_router.workers;
  mapping = recorded;
  fallback = first_router;
  request_counts = [];
  mapped_request_counts = [];
  missing_keys = [];
  session_counts = [];
}

replay_ok : new_fixed label leaders recorded ≡ ok replay
unfolding new_fixed put get
replay_ok = refl

-- A conversation of the mapping, then one that it lacks.
abbrev replayed : FixedRouter
replayed =
    (select_fixed session_key none
      ((select_fixed session_key (some "old") (replay, message "a")).1.0, message "b")).1.0

select_fixed-replays_example :
    ((rank : ℕ)
      → get "old" recorded ≡ some rank
      → (w : Worker) × (get rank (by_rank [] leaders) ≡ some w)
        × ((select_fixed session_key (some "old") (replayed, message "c")).0 ≡ ok w))
    × (get "old" recorded ≡ none
        → (s : String) → some "c" ≡ some s
        → (s == "") ≡ false
        → (w : Worker) × (home label session_key leaders s ≡ some w)
          × ((select_fixed session_key (some "old") (replayed, message "c")).0 ≡ ok w))
select_fixed-replays_example =
    select_fixed-replays label session_key leaders recorded replay replayed (some "old")
      (message "c") replay_ok
      (selected none (message "b") (selected (some "old") (message "a") fresh))
