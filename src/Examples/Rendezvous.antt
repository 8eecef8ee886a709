-- ===== src/Examples/Rendezvous.antt =====
-- Two attention peers in one round of one microbatch.
use token_sim.Prelude.{ℕ, ◌≡◌, ◌<◌, refl, true, false, some, [], ◌∷◌, nat_eq, arith}
use token_sim.Prelude.Dict.{get, put, remove}
use token_sim.Errors.{ok, raise, simulation_state_error}
use token_sim.Af.Rendezvous.{
  AfBlock, Iteration, Transaction, NativeRendezvous, new_rendezvous, register, finish_stage,
  wait_turn, complete,
}
use token_sim.Af.Rendezvous.Stages.{begin, calls, logged, InOrder}
use token_sim.Af.Rendezvous.Order.{Finishes-InOrder}

abbrev block : ℕ → ℕ → AfBlock
block id peer = record {
  iteration_id = id;
  block_id = 0;
  a_dp_rank = peer;
  forward_phase = "decode";
}

abbrev submit : ℕ → ℕ → Iteration
submit id peer = record { iteration_id = id; blocks = block id peer ∷ [] }

abbrev both : NativeRendezvous
both = (register (submit 12 1) (register (submit 11 0) (new_rendezvous 2 true)).1).1

abbrev opened : Transaction
opened = record { phases = "decode" ∷ []; finished = []; stage = 0; stage_peers = [] }

both_ready : (both.enabled ≡ true) × (0 < both.peers) × (get 0 both.rounds ≡ some opened)
unfolding register get put
both_ready = (refl, omega arith, refl)

abbrev one_done : NativeRendezvous
one_done = (finish_stage (block 12 1) 0 both).1

abbrev two_done : NativeRendezvous
two_done = (finish_stage (block 11 0) 0 one_done).1

-- The router of the second layer waits for both peers, and a stage is finished once by each.
turns :
    ((wait_turn (block 12 1) 1 true one_done).0 ≡ ok false)
    × ((finish_stage (block 12 1) 0 one_done).0 ≡ raise simulation_state_error)
    × ((wait_turn (block 12 1) 1 true two_done).0 ≡ ok true)
    × ((complete 11 (complete 12 two_done).1).1.next_round ≡ 1)
unfolding register finish_stage wait_turn complete get put remove
turns = (refl, refl, refl, refl)

Finishes-InOrder_example :
    (now : Transaction) × (get 0 two_done.rounds ≡ some now)
    × InOrder 0 both.peers (logged 0 (block 11 0) 0 one_done (logged 0 (block 12 1) 0 both [])) now
Finishes-InOrder_example =
    Finishes-InOrder 0 both two_done
      (logged 0 (block 11 0) 0 one_done (logged 0 (block 12 1) 0 both [])) opened both_ready.0
      both_ready.1 both_ready.2 refl refl (calls (block 11 0) 0 (calls (block 12 1) 0 begin))
