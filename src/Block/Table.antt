-- ===== src/Block/Table.antt =====
-- TokenSim/block/block_table.py: which blocks each request holds, in logical order.
use token_sim.Prelude.{ℕ, Option, none, some, List, [], ◌∷◌, ◌++◌, length, nat_eq}
use token_sim.Prelude.Dict.{Dict, get, put, remove}
use token_sim.Block.Physical.{PhysicalTokenBlock}

abbrev pub BlockTable : Type 0
BlockTable = Dict ℕ (List PhysicalTokenBlock)

abbrev pub or_empty {ℓ} : {A : Type ℓ} → Option (List A) → List A
or_empty none = []
or_empty (some xs) = xs

abbrev pub get_blocks : ℕ → BlockTable → List PhysicalTokenBlock
get_blocks request_id t = or_empty (get request_id t)

abbrev pub get_num_blocks : ℕ → BlockTable → ℕ
get_num_blocks request_id t = length (get_blocks request_id t)

-- `setdefault(request_id, []).extend(blocks)`
abbrev pub add_blocks : ℕ → List PhysicalTokenBlock → BlockTable → BlockTable
add_blocks request_id blocks t = put request_id (get_blocks request_id t ++ blocks) t

abbrev pub add_block : ℕ → PhysicalTokenBlock → BlockTable → BlockTable
add_block request_id b = add_blocks request_id (b ∷ [])

abbrev pub pop_blocks : ℕ → BlockTable → List PhysicalTokenBlock × BlockTable
pop_blocks request_id t = (get_blocks request_id t, remove request_id t)

abbrev pub set_blocks : ℕ → List PhysicalTokenBlock → BlockTable → BlockTable
set_blocks request_id [] t = remove request_id t
set_blocks request_id (b ∷ bs) t = put request_id (b ∷ bs) t

-- `list.pop()`: the last element, and what is left before it.
unfoldable pub pop_last {ℓ} : {A : Type ℓ} → A → List A → List A × A
pop_last b [] = ([], b)
pop_last b (c ∷ cs) = let (front, last) = pop_last c cs in (b ∷ front, last)

-- `blocks.pop()`, and the entry is dropped with its last block.
unfoldable pub pop_last_of :
    ℕ → List PhysicalTokenBlock → BlockTable → Option PhysicalTokenBlock × BlockTable
unfolding pop_last
pop_last_of request_id [] t = (none, t)
pop_last_of request_id (b ∷ bs) t =
    let (front, last) = pop_last b bs in (some last, set_blocks request_id front t)

unfoldable pub pop_last_block : ℕ → BlockTable → Option PhysicalTokenBlock × BlockTable
unfolding pop_last_of
pop_last_block request_id t = pop_last_of request_id (get_blocks request_id t) t
