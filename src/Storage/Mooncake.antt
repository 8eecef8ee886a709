-- ===== src/Storage/Mooncake.antt =====
-- `MooncakeStore` of TokenSim/mooncake/store.py: a pool of KV blocks in a bounded memory with an optional
-- offload tier under it. A key is the string of a `PoolKey`, and an object's `key` is the one it stands
-- under. An object's tier is the string "memory" or the name of the offload tier, whose I/O counters
-- only reports read: they are left out. The counters are those of one `MooncakeStats`.

pub mod Writes
pub mod Reads
pub mod Accounts
pub mod Evictions
pub mod Room
pub mod Admission
pub mod Batch
pub mod Reading
pub mod Run
use token_sim.Prelude.{
  ℕ, zero, suc, ◌+◌, ◌-◌, ◌*◌, max, Bool, true, false, not, ◌&&◌, Option, none, some, List, [], ◌∷◌,
  ltb, leb, ◌==◌, if◌then◌else◌, nat_eq, String, string_eq, length,
}
use token_sim.Prelude.Dict.{Dict, get, put, remove, has}
use token_sim.Errors.{Outcome, ok, raise, Action, pure, continue, ◌>>=◌, key_error}
use token_sim.Storage.Offload.{OffloadTier, OffloadOperation, Media, contains, write, pin, new_tier}

pub data Tier : Type 0 where
  memory offloaded : Tier

pub record StoreObject : Type 0 where
  pub key : String
  pub blocks : ℕ
  pub bytes : ℕ
  pub tier : Tier
  pub segment : String
  pub replicas : ℕ
  pub persisted : Bool
  pub last_access : ℕ
  pub ready_at : ℕ
  pub in_use_until : ℕ

pub record StoreWriteTiming : Type 0 where
  pub accounting_latency : ℕ
  pub blocking_latency : ℕ

abbrev pub no_time : StoreWriteTiming
no_time = record { accounting_latency = 0; blocking_latency = 0 }

-- `StoreWriteTiming.__add__`
abbrev pub add : StoreWriteTiming → StoreWriteTiming → StoreWriteTiming
add a b = record {
  accounting_latency = a.accounting_latency + b.accounting_latency;
  blocking_latency = a.blocking_latency + b.blocking_latency;
}

pub data Policy : Type 0 where
  always never : Policy

pub record MooncakeConfig : Type 0 where
  pub admission_policy : Policy
  pub evicts_lru : Bool
  pub replica_num : ℕ
  pub preferred_segment : Option String

pub record MooncakeStats : Type 0 where
  pub store_hit_count : ℕ
  pub store_miss_count : ℕ
  pub memory_tier_hit_count : ℕ
  pub disk_tier_hit_count : ℕ
  pub get_count : ℕ
  pub put_count : ℕ
  pub admission_count : ℕ
  pub admission_rejection_count : ℕ
  pub eviction_count : ℕ

pub record MooncakeStore : Type 0 where
  pub config : MooncakeConfig
  pub block_bytes : ℕ
  pub memory_capacity_bytes : ℕ
  pub memory_used_bytes : ℕ
  pub objects : Dict String StoreObject
  pub memory_lru : Dict String (Unit {0})
  pub stats : MooncakeStats
  pub offload : Option OffloadTier
  pub access_counter : ℕ

abbrev pub no_stats : MooncakeStats
no_stats = record {
  store_hit_count = 0;
  store_miss_count = 0;
  memory_tier_hit_count = 0;
  disk_tier_hit_count = 0;
  get_count = 0;
  put_count = 0;
  admission_count = 0;
  admission_rejection_count = 0;
  eviction_count = 0;
}

-- `MooncakeStore.__init__`: `memory_capacity_blocks` goes before `global_segment_size`, and an enabled
-- offload tier comes with its capacity in bytes.
abbrev pub new_store : MooncakeConfig → ℕ → Option ℕ → ℕ → Option ℕ → MooncakeStore
new_store config block_bytes capacity_blocks segment_size offload_bytes =
    let size = max 1 block_bytes in
    record {
      config = config;
      block_bytes = size;
      memory_capacity_bytes = elim capacity_blocks [ none ↦ segment_size | some n ↦ n * size ];
      memory_used_bytes = 0;
      objects = [];
      memory_lru = [];
      stats = no_stats;
      offload = elim offload_bytes [ none ↦ none | some n ↦ some (new_tier size n) ];
      access_counter = 0;
    }

abbrev pub in_memory : Tier → Bool
in_memory memory = true
in_memory offloaded = false

abbrev pub is_offload_tier : MooncakeStore → Tier → Bool
is_offload_tier s tier = elim s.offload [ none ↦ false | some _ ↦ not (in_memory tier) ]

-- `_touch` of the object that stands under the key.
unfoldable pub touch : String → StoreObject → MooncakeStore → MooncakeStore
touch k o s = record s {
  access_counter = s.access_counter + 1;
  objects = put k (record o { last_access = s.access_counter + 1 }) s.objects;
  memory_lru =
      if in_memory o.tier && has k s.memory_lru
      then put k tt (remove k s.memory_lru)
      else s.memory_lru;
}

-- The `for` of `_record_offload_write` over the keys that the tier evicted.
unfoldable pub forget_evicted : List String → MooncakeStore → MooncakeStore
forget_evicted [] s = s
forget_evicted (k ∷ ks) s = elim (get k s.objects) [
  | none ↦ forget_evicted ks s
  | some o ↦
      let gone = record s {
        objects = remove k s.objects;
        stats = record s.stats { eviction_count = s.stats.eviction_count + 1 };
      } in
      let kept = record s { objects = put k (record o { persisted = false }) s.objects } in
      forget_evicted ks (if is_offload_tier s o.tier then gone else kept)
]

abbrev pub record_offload_write : OffloadOperation → MooncakeStore → MooncakeStore
record_offload_write op s = forget_evicted op.evicted_keys s

abbrev pub pinned_tier : String → ℕ → Option OffloadTier → Option OffloadTier
pinned_tier k until none = none
pinned_tier k until (some t) = some (pin k until t)

-- `self.offload.pin(key, until)`
abbrev pub pin_offload : String → ℕ → MooncakeStore → MooncakeStore
pin_offload k until s = record s { offload = pinned_tier k until s.offload }

-- `_write_timing`: what it returns, with the object it changes and the tier it pins the key in.
abbrev pub write_timing :
    String
    → StoreObject
    → ℕ
    → ℕ
    → ℕ
    → MooncakeStore
    → StoreWriteTiming × StoreObject × MooncakeStore
write_timing k o media now initial_delay s =
    let ready = now + initial_delay + media in
    (
      record { accounting_latency = media; blocking_latency = media },
      record o { persisted = true; ready_at = ready },
      pin_offload k ready s,
    )

abbrev pub put_object : String → StoreObject → MooncakeStore → MooncakeStore
put_object k o s = record s { objects = put k o s.objects }

abbrev pub among : String → List String → Bool
among k [] = false
among k (j ∷ ks) = if j == k then true else among k ks

-- `key in op.evicted_keys`
abbrev pub evicted : String → OffloadOperation → Bool
evicted k op = among k op.evicted_keys

-- The accounts of an object that leaves the memory.
abbrev pub freed : StoreObject → MooncakeStore → MooncakeStore
freed o s = record s {
  memory_used_bytes = s.memory_used_bytes - o.bytes;
  stats = record s.stats { eviction_count = s.stats.eviction_count + 1 };
}

-- The first key of `memory_lru` whose object is neither being written nor read.
unfoldable pub next_idle : ℕ → MooncakeStore → Dict String (Unit {0}) → Outcome (Option String)
next_idle now s [] = ok none
next_idle now s ((k, u) ∷ lru) = elim (get k s.objects) [
  | none ↦ raise key_error
  | some o ↦ if leb (max o.ready_at o.in_use_until) now then ok (some k) else next_idle now s lru
]

module _ (m : Media) where
  -- `self.offload.write(...)`, `_record_offload_write` and, if the tier took the key, `_write_timing`.
  unfoldable pub write_back :
      String → StoreObject → ℕ → ℕ → OffloadTier → Action MooncakeStore StoreWriteTiming
  unfolding forget_evicted
  write_back k o now initial_delay t s =
      let (r, t') = write m k o.blocks now t in
      continue r
        (λ op s.
          let s' = record_offload_write op s in
          let (timing, o', s'') = write_timing k o op.latency now initial_delay s' in
          if evicted k op then (ok no_time, s') else (ok timing, put_object k o' s''))
        (record s { offload = some t' })

  -- Where an evicted object goes: down to the offload tier, or out of the store without one.
  abbrev pub leave_memory :
      String → StoreObject → ℕ → Option OffloadTier → Action MooncakeStore StoreWriteTiming
  leave_memory k o now none s = (ok no_time, record s { objects = remove k s.objects })
  leave_memory k o now (some t) s =
      let moved : StoreObject = record o { tier = offloaded } in
      if contains k t
      then (ok no_time, put_object k moved s)
      else write_back k moved now 0 t (put_object k moved s)

  unfoldable pub evict_memory : String → ℕ → Action MooncakeStore StoreWriteTiming
  unfolding write_back
  evict_memory k now s =
      let popped = record s { memory_lru = remove k s.memory_lru } in
      elim (get k s.objects) [
        | none ↦ (ok no_time, popped)
        | some o ↦
            if in_memory o.tier
            then leave_memory k o now s.offload (freed o popped)
            else (ok no_time, popped)
      ]

  -- The `while` of `_ensure_memory_capacity`. A round takes a key off `memory_lru`, so as many rounds as it
  -- has keys are given.
  unfoldable pub free_memory :
      ℕ → ℕ → ℕ → StoreWriteTiming → Action MooncakeStore (Bool × StoreWriteTiming)
  unfolding evict_memory
  free_memory zero bytes now timing s =
      (ok (not (ltb s.memory_capacity_bytes (s.memory_used_bytes + bytes)), timing), s)
  free_memory (suc fuel) bytes now timing s =
      elim (ltb s.memory_capacity_bytes (s.memory_used_bytes + bytes)) [
        | false ↦ (ok (true, timing), s)
        | true ↦ elim s.config.evicts_lru [
          | false ↦ (ok (false, timing), s)
          | true ↦
              continue (next_idle now s s.memory_lru)
                (λ candidate s. elim candidate [
                  | none ↦ (ok (false, timing), s)
                  | some k ↦
                      (evict_memory k now >>= λ more. free_memory fuel bytes now (add timing more))
                        s
                ])
                s
        ]
      ]

  unfoldable pub ensure_memory_capacity : ℕ → ℕ → Action MooncakeStore (Bool × StoreWriteTiming)
  unfolding free_memory
  ensure_memory_capacity bytes now s =
      if ltb s.memory_capacity_bytes bytes
      then (ok (false, no_time), s)
      else free_memory (length s.memory_lru) bytes now no_time s
