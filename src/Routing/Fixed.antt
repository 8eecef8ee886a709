-- ===== src/Routing/Fixed.antt =====
-- `FixedWorkerRouter` of TokenSim/placement/consistent_hash.py: conversations of a recorded mapping go to its rank, the
-- others to a consistent-hash router. The mapping is the validated one, from texts to ranks.
use token_sim.Prelude.{
  ℕ, ◌+◌, ◌≡◌, Bool, true, false, not, ◌||◌, ◌&&◌, Option, none, some, List, [], ◌∷◌, String, ◌==◌,
  if◌then◌else◌, nat_eq, string_eq,
}
use token_sim.Prelude.Dict.{Dict, get, has}
use token_sim.Errors.{Outcome, ok, raise, Action, and_then, configuration_error, key_error}
use token_sim.Routing.Sessions.{
  Worker, Message, Router, bump, by_rank, no_session, new_router, select, reset_stats,
}
pub mod Replay

pub record FixedRouter : Type 0 where
  pub workers : Dict ℕ Worker
  pub mapping : Dict String ℕ
  pub fallback : Router
  pub request_counts : Dict ℕ ℕ
  pub mapped_request_counts : Dict ℕ ℕ
  pub missing_keys : Dict String ℕ
  pub session_counts : Dict ℕ ℕ

-- `all(rank in self.workers for rank in self.mapping.values())`
abbrev pub all_known : Dict ℕ Worker → Dict String ℕ → Bool
all_known workers [] = true
all_known workers ((k, rank) ∷ rest) = has rank workers && all_known workers rest

-- `str(chat_id)`
abbrev pub chat_text : Option String → String
chat_text none = "None"
chat_text (some chat) = chat

-- `str(conversation_id or chat_id)`
abbrev pub key_text : Option String → Option String → String
key_text none chat = chat_text chat
key_text (some conversation) chat = if conversation == "" then chat_text chat else conversation

-- `request_counts[rank] += 1` and `session_counts[rank] += 1`
abbrev pub tally : ℕ → FixedRouter → FixedRouter
tally rank f = record f {
  request_counts = bump rank f.request_counts;
  session_counts = bump rank f.session_counts;
}

-- The end of `select`, after the fallback has answered.
abbrev pub settle_missed :
    Outcome Worker → FixedRouter → Message → Outcome Worker × (FixedRouter × Message)
settle_missed (raise e) f m = (raise e, (f, m))
settle_missed (ok w) f m = (ok w, (tally w.dp_rank f, m))

-- The end of `select` for a mapped rank.
abbrev pub settle_mapped :
    ℕ → Option Worker → FixedRouter → Message → Outcome Worker × (FixedRouter × Message)
settle_mapped rank none f m = (raise key_error, (f, record m { dp_rank = some rank }))
settle_mapped rank (some w) f m = (
  ok w,
  (
    tally rank (record f { mapped_request_counts = bump rank f.mapped_request_counts }),
    record m { dp_rank = some rank; routing_worker_id = some w.id },
  ),
)

unfoldable pub new_fixed : (ℕ → ℕ → List ℕ) → List Worker → Dict String ℕ → Outcome FixedRouter
unfolding new_router
new_fixed label workers mapping =
    if not (all_known (by_rank [] workers) mapping)
    then raise configuration_error
    else and_then (new_router label workers) λ fallback. ok (record {
      workers = by_rank [] workers;
      mapping = mapping;
      fallback = fallback;
      request_counts = [];
      mapped_request_counts = [];
      missing_keys = [];
      session_counts = [];
    })

-- `select`, of a request with this conversation identity in its source.
unfoldable pub select_fixed :
    (String → List ℕ) → Option String → Action (FixedRouter × Message) Worker
unfolding select
select_fixed session_key conversation (f, m) =
    let key = key_text conversation m.chat_id in
    let (answer, (fallback, m')) = select session_key (f.fallback, m) in
    elim (get key f.mapping) [
      | none ↦
          settle_missed answer
            (record f { missing_keys = bump key f.missing_keys; fallback = fallback }) m'
      | some rank ↦ settle_mapped rank (get rank f.workers) f m
    ]

unfoldable pub reset_fixed : FixedRouter → FixedRouter
unfolding reset_stats
reset_fixed f = record f {
  request_counts = [];
  mapped_request_counts = [];
  missing_keys = [];
  session_counts = [];
  fallback = reset_stats f.fallback;
}
