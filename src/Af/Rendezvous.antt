-- ===== src/Af/Rendezvous.antt =====
-- `NativeRendezvous` of TokenSim/af/execution/rendezvous.py: the rounds of microbatches that attention peers
-- submit together, the stages that every peer finishes before the next, and the failure they share. Sets
-- are lists without repetitions; `completed_round` starts at -1, so `next_round` is one more; the
-- event `changed` is counted by `wakes`, and `wait_turn` is one test of its loop.
use token_sim.Prelude.{
  or_zero, ℕ, ◌+◌, ◌*◌, ◌≡◌, Bool, true, false, not, ◌&&◌, ◌||◌, Option, none, some, List, [], ◌∷◌,
  String, ◌==◌, if◌then◌else◌, nat_eq, string_eq, length, ltb,
}
use token_sim.Prelude.Dict.{Dict, get, put, remove}
use token_sim.Errors.{
  Outcome, ok, raise, Action, configuration_error, simulation_state_error, key_error, index_error,
}
pub mod Stages
pub mod Order

pub record AfBlock : Type 0 where
  pub iteration_id : ℕ
  pub block_id : ℕ
  pub a_dp_rank : ℕ
  pub forward_phase : String

pub record Iteration : Type 0 where
  pub iteration_id : ℕ
  pub blocks : List AfBlock

pub record Transaction : Type 0 where
  pub phases : List String
  pub finished : List ℕ
  pub stage : ℕ
  pub stage_peers : List ℕ

-- `iterations` holds the round and the owner of each.
pub record NativeRendezvous : Type 0 where
  pub peers : ℕ
  pub enabled : Bool
  pub failed : Bool
  pub sequences : Dict ℕ ℕ
  pub iterations : Dict ℕ (ℕ × ℕ)
  pub rounds : Dict ℕ Transaction
  pub next_round : ℕ
  pub wakes : ℕ

abbrev pub contains : ℕ → List ℕ → Bool
contains n [] = false
contains n (m ∷ ms) = m == n || contains n ms

-- `s.add(n)`
abbrev add_to_set : ℕ → List ℕ → List ℕ
add_to_set n ms = if contains n ms then ms else n ∷ ms

abbrev phases_of : List AfBlock → List String
phases_of [] = []
phases_of (b ∷ bs) = b.forward_phase ∷ phases_of bs

abbrev same_phases : List String → List String → Bool
same_phases [] [] = true
same_phases (p ∷ ps) (q ∷ qs) = p == q && same_phases ps qs
same_phases _ _ = false

abbrev pub new_rendezvous : ℕ → Bool → NativeRendezvous
new_rendezvous peers native = record {
  peers = peers;
  enabled = native && ltb 1 peers;
  failed = false;
  sequences = [];
  iterations = [];
  rounds = [];
  next_round = 0;
  wakes = 0;
}

abbrev pub abort : NativeRendezvous → NativeRendezvous
abort s =
    if s.enabled && not s.failed
    then record s { failed = true; iterations = []; rounds = [] }
    else s

-- `register`, once the owner and the phases of the iteration are known.
abbrev enroll : ℕ → ℕ → List String → Action NativeRendezvous (Unit {0})
enroll id owner phases s =
    let round = or_zero (get owner s.sequences) in
    let t : Transaction = elim (get round s.rounds) [
      | none ↦ record { phases = phases; finished = []; stage = 0; stage_peers = [] }
      | some t ↦ t
    ] in
    let opened = record s { rounds = put round t s.rounds } in
    if not (same_phases t.phases phases) then (raise configuration_error, abort opened) else (
      ok tt,
      record opened {
        iterations = put id (round, owner) s.iterations;
        sequences = put owner (round + 1) s.sequences;
      },
    )

unfoldable pub register : Iteration → Action NativeRendezvous (Unit {0})
register it s =
    if not s.enabled
    then (ok tt, s)
    else if s.failed
    then (raise simulation_state_error, s)
    else elim it.blocks [
      | [] ↦ (raise index_error, s)
      | b ∷ bs ↦ enroll it.iteration_id b.a_dp_rank (phases_of (b ∷ bs)) s
    ]

-- `layer * len(transaction["phases"]) + block_id`
abbrev pub ordinal : ℕ → AfBlock → Transaction → ℕ
ordinal layer b t = layer * length t.phases + b.block_id

-- Whether a block's turn has come in its round; a router stage waits for the stages before it.
unfoldable pub wait_turn : AfBlock → ℕ → Bool → Action NativeRendezvous Bool
wait_turn b layer router s =
    if s.enabled && s.failed
    then (raise simulation_state_error, s)
    else elim (get b.iteration_id s.iterations) [
      | none ↦ (raise key_error, s)
      | some (round, owner) ↦ elim (get round s.rounds) [
        | none ↦ (raise key_error, s)
        | some t ↦
            (ok (not (ltb s.next_round round || router && not (ordinal layer b t == t.stage))), s)
      ]
    ]

-- The end of `finish_stage`: the peer is added, and the stage is over when it is the last.
abbrev pub advance_stage : ℕ → ℕ → Transaction → NativeRendezvous → NativeRendezvous
advance_stage round rank t s =
    let done = rank ∷ t.stage_peers in
    if length done == s.peers
    then record s {
      rounds = put round (record t { stage = t.stage + 1; stage_peers = [] }) s.rounds;
      wakes = s.wakes + 1;
    }
    else record s { rounds = put round (record t { stage_peers = done }) s.rounds }

abbrev pub finish_in : ℕ → AfBlock → ℕ → Action NativeRendezvous (Unit {0})
finish_in round b layer s = elim (get round s.rounds) [
  | none ↦ (raise key_error, s)
  | some t ↦
      if not (ordinal layer b t == t.stage) || contains b.a_dp_rank t.stage_peers
      then (raise simulation_state_error, s)
      else (ok tt, advance_stage round b.a_dp_rank t s)
]

unfoldable pub finish_stage : AfBlock → ℕ → Action NativeRendezvous (Unit {0})
finish_stage b layer s =
    if not s.enabled
    then (ok tt, s)
    else if s.failed
    then (raise simulation_state_error, s)
    else elim (get b.iteration_id s.iterations) [
      | none ↦ (raise key_error, s)
      | some (round, owner) ↦ finish_in round b layer s
    ]

unfoldable pub complete : ℕ → Action NativeRendezvous (Unit {0})
complete id s = elim (get id s.iterations) [
  | none ↦ (ok tt, s)
  | some (round, owner) ↦
      let popped = record s { iterations = remove id s.iterations } in
      elim (get round s.rounds) [
        | none ↦ (raise key_error, popped)
        | some t ↦
            let done = add_to_set owner t.finished in
            if length done == s.peers
            then (
              ok tt,
              record popped {
                rounds = remove round s.rounds;
                next_round = round + 1;
                wakes = s.wakes + 1;
              },
            )
            else (
              ok tt,
              record popped { rounds = put round (record t { finished = done }) s.rounds },
            )
      ]
]
