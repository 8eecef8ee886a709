-- ===== src/Block/FreeQueue.antt =====
-- TokenSim/block/free_queue.py. An `_Entry` object is shared by `_entries` and `_fifo` or `_heap`;
-- its `valid` flag is a cell found by the entry's identity. `heapq` is its documented behaviour: a
-- list in the order in which `heappop` gives the items.
pub mod Tracks
pub mod Live
pub mod Order
pub mod Lookup
pub mod Age
pub mod Run
use token_sim.Prelude.{
  ℕ, ◌+◌, Bool, true, false, ◌||◌, ◌&&◌, Option, none, some, List, [], ◌∷◌, ◌++◌, map, ltb, nat_beq,
  ◌==◌, if◌then◌else◌, length, nat_eq, arith,
}
use token_sim.Prelude.Dict.{Dict, get, put, remove}
use token_sim.Errors.{Outcome, ok, raise, index_error}
use token_sim.Block.Physical.{PhysicalTokenBlock, Memory, read}

pub record Entry : Type 0 where
  pub block : PhysicalTokenBlock
  pub ident : ℕ

-- A tuple of `_heap`.
pub record HeapItem : Type 0 where
  pub last_accessed : ℕ
  pub seq : ℕ
  pub entry : Entry

pub record FreeBlockQueue : Type 0 where
  pub fifo : List Entry
  pub heap : List HeapItem
  pub entries : Dict ℕ Entry
  pub seq : ℕ
  pub valid : ℕ → Bool
  pub next_entry : ℕ

-- `FreeBlockQueue()`; its callers in the program give no blocks.
abbrev pub empty : FreeBlockQueue
empty = record { fifo = []; heap = []; entries = []; seq = 0; valid = λ _. false; next_entry = 0 }

-- `__len__`
abbrev pub size : FreeBlockQueue → ℕ
size q = length q.entries

-- `__contains__`
abbrev pub contains : FreeBlockQueue → PhysicalTokenBlock → Bool
contains q b = elim (get b.block_number q.entries) [ none ↦ false | some _ ↦ true ]

abbrev pub set_valid : ℕ → Bool → (ℕ → Bool) → ℕ → Bool
set_valid i v valid j = if j == i then v else valid j

-- `_invalidate`
unfoldable pub invalidate : PhysicalTokenBlock → FreeBlockQueue → FreeBlockQueue
invalidate b q = elim (get b.block_number q.entries) [
  | none ↦ q
  | some e ↦ record q {
    entries = remove b.block_number q.entries;
    valid = set_valid e.ident false q.valid;
  }
]

-- `_Entry(block)`, put into `_entries` under the block's number.
unfoldable pub enter : PhysicalTokenBlock → FreeBlockQueue → Entry × FreeBlockQueue
enter b q =
    let e : Entry = record { block = b; ident = q.next_entry } in
    (
      e,
      record q {
        entries = put b.block_number e q.entries;
        valid = set_valid q.next_entry true q.valid;
        next_entry = q.next_entry + 1;
      },
    )

unfoldable pub append : PhysicalTokenBlock → FreeBlockQueue → FreeBlockQueue
unfolding invalidate enter
append b q = let (e, q') = enter b (invalidate b q) in record q' { fifo = q'.fifo ++ e ∷ [] }

unfoldable pub append_unique : PhysicalTokenBlock → FreeBlockQueue → FreeBlockQueue
unfolding append
append_unique b q = if contains q b then q else append b q

-- The tuple order of Python: by stamp, then by sequence number.
abbrev pub item_lt : HeapItem → HeapItem → Bool
item_lt a b =
    ltb a.last_accessed b.last_accessed
    || (nat_beq a.last_accessed b.last_accessed && ltb a.seq b.seq)

unfoldable pub heappush : HeapItem → List HeapItem → List HeapItem
heappush x [] = x ∷ []
heappush x (y ∷ ys) = if item_lt x y then x ∷ y ∷ ys else y ∷ heappush x ys

unfoldable pub append_lru : Memory → PhysicalTokenBlock → FreeBlockQueue → FreeBlockQueue
unfolding invalidate enter heappush
append_lru m b q =
    let (e, q') = enter b (invalidate b q) in
    record q' {
      seq = q'.seq + 1;
      heap =
          heappush
            (record { last_accessed = (read m b).last_accessed; seq = q'.seq + 1; entry = e })
            q'.heap;
    }

-- `while xs: x = xs.popleft(); if x.valid: return x`, with what is left behind.
unfoldable pub pop_valid {ℓ} : {A : Type ℓ} → (A → Bool) → List A → Option A × List A
pop_valid p [] = (none, [])
pop_valid p (x ∷ xs) = elim (p x) [ true ↦ (some x, xs) | false ↦ pop_valid p xs ]

-- `_finalize_pop`
unfoldable pub finalize_pop : Entry → FreeBlockQueue → Outcome PhysicalTokenBlock × FreeBlockQueue
finalize_pop e q = (
  ok e.block,
  record q {
    valid = set_valid e.ident false q.valid;
    entries = remove e.block.block_number q.entries;
  },
)

pop_heap :
    Option HeapItem × List HeapItem → FreeBlockQueue → Outcome PhysicalTokenBlock × FreeBlockQueue
unfolding finalize_pop
pop_heap (some i, rest) q = finalize_pop i.entry (record q { heap = rest })
pop_heap (none, rest) q = (raise index_error, record q { heap = rest })

pop_fifo : Option Entry × List Entry → FreeBlockQueue → Outcome PhysicalTokenBlock × FreeBlockQueue
unfolding finalize_pop pop_heap pop_valid
pop_fifo (some e, rest) q = finalize_pop e (record q { fifo = rest })
pop_fifo (none, rest) q =
    pop_heap (pop_valid (λ i. q.valid i.entry.ident) q.heap) (record q { fifo = rest })

unfoldable pub popleft : FreeBlockQueue → Outcome PhysicalTokenBlock × FreeBlockQueue
unfolding pop_fifo pop_valid
popleft q = pop_fifo (pop_valid (λ e. q.valid e.ident) q.fifo) q
