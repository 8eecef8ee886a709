-- ===== src/Block/Pool.antt =====
-- TokenSim/block/block_pool.py: the block objects of one device, built when first used, and its queue
-- of free blocks.
use token_sim.Prelude.{
  ℕ, zero, suc, ◌+◌, ◌-◌, Bool, false, not, none, some, [], ltb, ◌==◌, if◌then◌else◌, nat_eq,
}
use token_sim.Prelude.Dict.{Dict, get, put}
use token_sim.Errors.{Outcome, ok, raise, Action, simulation_state_error}
use token_sim.Block.Physical.{Device, device_eq, PhysicalTokenBlock, Memory, read, write, new_block}
use token_sim.Block.FreeQueue
use token_sim.Block.FreeQueue.{FreeBlockQueue}

pub record BlockPool : Type 0 where
  pub device : Device
  pub block_size : ℕ
  pub num_blocks : ℕ
  pub materialized : Dict ℕ PhysicalTokenBlock
  pub next_fresh : ℕ
  pub free_blocks : FreeBlockQueue

-- `BlockPool(device, block_size, num_blocks)`
abbrev pub init : Device → ℕ → ℕ → BlockPool
init device block_size num_blocks = record {
  device = device;
  block_size = block_size;
  num_blocks = num_blocks;
  materialized = [];
  next_fresh = 0;
  free_blocks = FreeQueue.empty;
}

abbrev pub get_num_free_blocks : BlockPool → ℕ
get_num_free_blocks p = (p.num_blocks - p.next_fresh) + FreeQueue.size p.free_blocks

pub fresh_block : Memory → BlockPool → Outcome PhysicalTokenBlock × (Memory × BlockPool)
unfolding new_block
fresh_block m p =
    let (b, m') = new_block p.device p.next_fresh p.block_size m in
    (
      ok b,
      (
        m',
        record p {
          materialized = put b.block_number b p.materialized;
          next_fresh = p.next_fresh + 1;
        },
      ),
    )

unfoldable pub pop_free_block :
    Memory → BlockPool → Outcome PhysicalTokenBlock × (Memory × BlockPool)
unfolding fresh_block
pop_free_block m p =
    let (r, q) = FreeQueue.popleft p.free_blocks in
    if ltb p.next_fresh p.num_blocks
    then fresh_block m p
    else (r, (m, record p { free_blocks = q }))

unfoldable pub append_free_block : PhysicalTokenBlock → BlockPool → BlockPool
append_free_block b p = record p { free_blocks = FreeQueue.append b p.free_blocks }

-- `FreeBlockQueue.remove` is `_invalidate`.
unfoldable pub remove_from_free_queue : PhysicalTokenBlock → BlockPool → BlockPool
remove_from_free_queue b p = record p { free_blocks = FreeQueue.invalidate b p.free_blocks }

-- `self._materialized.get(block.block_number) is block`
abbrev pub owns : BlockPool → PhysicalTokenBlock → Bool
owns p b = elim (get b.block_number p.materialized) [ none ↦ false | some c ↦ c.ident == b.ident ]

unfoldable pub validate_owned : BlockPool → PhysicalTokenBlock → Outcome (Unit {0})
validate_owned p b =
    if not (b.device == p.device)
    then raise simulation_state_error
    else if not (owns p b)
    then raise simulation_state_error
    else ok tt

-- One round of the loop of `set_num_free_blocks`.
materialize : ℕ → ℕ → Memory × BlockPool → Memory × BlockPool
unfolding new_block
materialize block_num block_id (m, p) =
    let (b, m') = new_block p.device block_id p.block_size m in
    let p' : BlockPool = record p { materialized = put block_id b p.materialized } in
    if ltb block_id block_num
    then (m', record p' { free_blocks = FreeQueue.append b p'.free_blocks })
    else (write m' b (record (read m' b) { ref_count = 1 }), p')

-- `for block_id in range(...)`: the identifiers still to come, `count` of them from `block_id` on.
materialize_from : ℕ → ℕ → ℕ → Memory × BlockPool → Memory × BlockPool
unfolding materialize
materialize_from block_num zero block_id s = s
materialize_from block_num (suc count) block_id s =
    materialize_from block_num count (block_id + 1) (materialize block_num block_id s)

unfoldable pub set_num_free_blocks : ℕ → Action (Memory × BlockPool) (Unit {0})
unfolding materialize_from
set_num_free_blocks block_num (m, p) =
    if ltb p.num_blocks block_num then (raise simulation_state_error, (m, p)) else (
      ok tt,
      materialize_from block_num p.num_blocks 0 (
        m,
        record p { free_blocks = FreeQueue.empty; materialized = []; next_fresh = p.num_blocks },
      ),
    )
