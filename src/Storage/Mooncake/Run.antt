-- ===== src/Storage/Mooncake/Run.antt =====
-- Runs of calls on a `MooncakeStore` from the start.
use token_sim.Prelude.{ℕ, refl, Option, none, some, List, String, arith, max}
use token_sim.Prelude.Dict.{get}
use token_sim.Storage.Offload.{Media, new_tier}
use token_sim.Storage.Mooncake.{MooncakeStore, MooncakeConfig, Policy, new_store}
use token_sim.Storage.Mooncake.Writes.{put_with_timing}
use token_sim.Storage.Mooncake.Reads.{lookup, get_keys}
use token_sim.Storage.Mooncake.Accounts.{IsAccounted, OffloadWithin}
use token_sim.Storage.Mooncake.Batch.{put_with_timing-Kept}
use token_sim.Storage.Mooncake.Reading.{lookup-IsAccounted, get_keys-IsAccounted}

-- One call of a method, with any arguments and whatever it returns or raises.
pub data Call (m : Media) (s : MooncakeStore) : MooncakeStore → Type 0 where
  looks_up : (keys : List String) (now : ℕ) → Call m s (lookup keys now s).1
  gets :
      (keys : List String) (now initial_delay : ℕ)
      → Call m s (get_keys m keys now initial_delay s).1
  puts :
      (keys : List String) (blocks : Option ℕ) (now initial_delay : ℕ) (policy : Option Policy)
      → Call m s (put_with_timing m keys blocks now initial_delay policy s).1

pub data Reaches (m : Media) (s : MooncakeStore) : MooncakeStore → Type 0 where
  start : Reaches m s s
  after : {t u : MooncakeStore} → Reaches m s t → Call m t u → Reaches m s u

Call-IsAccounted : (m : Media) {s t : MooncakeStore} → Call m s t → IsAccounted s → IsAccounted t
Call-IsAccounted m (looks_up keys now) c = lookup-IsAccounted m keys now _ c
Call-IsAccounted m (gets keys now initial_delay) c =
    get_keys-IsAccounted m keys now initial_delay _ c
Call-IsAccounted m (puts keys blocks now initial_delay policy) c =
    (put_with_timing-Kept m keys blocks now initial_delay policy _ c).0

new_store-IsAccounted :
    (config : MooncakeConfig) (block_bytes : ℕ) (capacity_blocks : Option ℕ) (segment_size : ℕ)
    (offload_bytes : Option ℕ)
    → IsAccounted (new_store config block_bytes capacity_blocks segment_size offload_bytes)
unfolding get
new_store-IsAccounted config block_bytes capacity_blocks segment_size offload_bytes = record {
  objects_distinct = tt;
  lru_distinct = tt;
  counted = refl;
  within = omega arith;
  queued = λ k q. absurd (ground (arith, q));
  offload_within = empty offload_bytes;
  alone = λ n k o g. absurd (ground (arith, g));
}
  where
    empty :
        (n : Option ℕ)
        → OffloadWithin (elim n [ none ↦ none | some b ↦ some (new_tier (max 1 block_bytes) b) ])
    empty none = tt
    empty (some b) = record {
      blocks_distinct = tt;
      lru_distinct = tt;
      counted = refl;
      within = omega arith;
    }

-- Whatever calls a new store gets, with whatever they return or raise: the bytes it counts are those of
-- the objects in memory and never above the capacity, every key of its queue has its object, and its
-- offload tier is within its own capacity.
pub Reaches-IsAccounted :
    (m : Media) (config : MooncakeConfig) (block_bytes : ℕ) (capacity_blocks : Option ℕ)
    (segment_size : ℕ) (offload_bytes : Option ℕ) (s : MooncakeStore)
    → Reaches m (new_store config block_bytes capacity_blocks segment_size offload_bytes) s
    → IsAccounted s
Reaches-IsAccounted m config block_bytes capacity_blocks segment_size offload_bytes s start =
    new_store-IsAccounted config block_bytes capacity_blocks segment_size offload_bytes
Reaches-IsAccounted m config block_bytes capacity_blocks segment_size offload_bytes s
      (after {t} {u} r step) =
    Call-IsAccounted m step
      (Reaches-IsAccounted m config block_bytes capacity_blocks segment_size offload_bytes t r)
