-- ===== src/Storage/Mooncake/Writes.antt =====
-- The writing half of `MooncakeStore` in TokenSim/mooncake/store.py: `_put_one`, `put_with_timing` and `put`.
use token_sim.Prelude.{
  ℕ, ◌+◌, ◌*◌, Bool, true, false, not, ◌&&◌, ◌||◌, Option, none, some, List, [], ◌∷◌, ltb, leb,
  ◌==◌, if◌then◌else◌, nat_eq, String, string_eq, length, take, keep_if,
}
use token_sim.Prelude.Dict.{Dict, get, put, has}
use token_sim.Errors.{ok, Action, pure, continue, ◌>>=◌}
use token_sim.Storage.Offload.{OffloadTier, Media, write}
use token_sim.Storage.Mooncake.{
  MooncakeStore, StoreObject, StoreWriteTiming, memory, offloaded, Policy, always, never, no_time,
  add, touch, write_timing, record_offload_write, put_object, evicted, write_back,
  ensure_memory_capacity,
}

abbrev pub admit : ℕ → MooncakeStore → MooncakeStore
admit n s = record s { stats = record s.stats { admission_count = s.stats.admission_count + n } }

abbrev pub reject : ℕ → MooncakeStore → MooncakeStore
reject n s = record s {
  stats = record s.stats { admission_rejection_count = s.stats.admission_rejection_count + n };
}

-- `config.preferred_segment or "global"`
abbrev pub segment_of : Option String → String
segment_of none = "global"
segment_of (some s) = if s == "" then "global" else s

-- The object that a put of the key makes.
abbrev pub new_object : String → ℕ → MooncakeStore → StoreObject
new_object k ready s = record {
  key = k;
  blocks = 1;
  bytes = s.block_bytes;
  tier = memory;
  segment = segment_of s.config.preferred_segment;
  replicas = s.config.replica_num;
  persisted = false;
  last_access = 0;
  ready_at = ready;
  in_use_until = 0;
}

-- The object goes into memory.
abbrev pub install : String → StoreObject → MooncakeStore → MooncakeStore
install k o s = record s {
  objects = put k o s.objects;
  memory_used_bytes = s.memory_used_bytes + o.bytes;
  memory_lru = put k tt s.memory_lru;
}

-- The keys of the list, each once, in the order of their first occurrence.
abbrev pub unique : List String → Dict String (Unit {0}) → List String
unique [] seen = []
unique (k ∷ ks) seen = if has k seen then unique ks seen else k ∷ unique ks (put k tt seen)

-- `for key_string in fresh`
unfoldable pub install_fresh : List String → ℕ → MooncakeStore → MooncakeStore
install_fresh [] ready s = s
install_fresh (k ∷ ks) ready s = install_fresh ks ready (put_object k (new_object k ready s) s)

-- `for key in selected`; every selected key has its object by then.
unfoldable pub touch_all : List String → MooncakeStore → MooncakeStore
unfolding touch
touch_all [] s = s
touch_all (k ∷ ks) s =
    let listed = record s {
      memory_lru = if has k s.memory_lru then s.memory_lru else put k tt s.memory_lru;
    } in
    touch_all ks (elim (get k s.objects) [ none ↦ listed | some o ↦ touch k o listed ])

-- `eviction_policy_allows_batch`
abbrev pub allows_batch : ℕ → MooncakeStore → Bool
allows_batch blocks s = s.config.evicts_lru && leb (blocks * s.block_bytes) s.memory_capacity_bytes

abbrev pub fresh_keys : List String → MooncakeStore → List String
fresh_keys selected s = keep_if (λ k. not (has k s.objects)) selected

-- The writes of a batch that has room.
abbrev pub put_batch : List String → List String → ℕ → MooncakeStore → MooncakeStore
put_batch selected fresh ready s =
    let s' = install_fresh fresh ready s in
    admit (length fresh) (
      touch_all selected
        (record s' { memory_used_bytes = s'.memory_used_bytes + length fresh * s.block_bytes }))

-- `blocks if blocks is not None else len(keys)`
abbrev pub limit : List String → Option ℕ → ℕ
limit keys none = length keys
limit keys (some b) = b

-- `admission_policy or self.config.admission_policy`
abbrev pub chosen : Option Policy → MooncakeStore → Policy
chosen none s = s.config.admission_policy
chosen (some p) s = p

abbrev pub is_never : Policy → Bool
is_never never = true
is_never always = false

abbrev pub is_empty : List String → Bool
is_empty [] = true
is_empty (k ∷ ks) = false

abbrev pub offloads : Option OffloadTier → Bool
offloads none = false
offloads (some t) = true

module _ (m : Media) where
  -- `_put_one` of a new key once there is room in memory: the copy in the offload tier, if there is one.
  abbrev pub copy_below :
      String
      → StoreObject
      → ℕ
      → ℕ
      → StoreWriteTiming
      → Option OffloadTier
      → Action MooncakeStore StoreWriteTiming
  copy_below k o now initial_delay timing none s = (ok timing, s)
  copy_below k o now initial_delay timing (some t) s =
      (write_back m k o now (initial_delay + timing.accounting_latency) t >>= λ more.
      pure (add timing more))
        s

  -- `_put_one` of a new key where there is no room in memory.
  abbrev pub put_offloaded :
      String
      → StoreObject
      → ℕ
      → ℕ
      → StoreWriteTiming
      → Option OffloadTier
      → Action MooncakeStore StoreWriteTiming
  put_offloaded k o now initial_delay timing none s = (ok timing, reject 1 s)
  put_offloaded k o now initial_delay timing (some t) s =
      let (r, t') = write m k o.blocks now t in
      continue r
        (λ op s.
          let (more, o', pinned) =
            write_timing k (record o { tier = offloaded }) op.latency now
              (initial_delay + timing.accounting_latency) s in
          if evicted k op
          then (ok timing, reject 1 s)
          else (ok (add timing more), admit 1 (put_object k o' (record_offload_write op pinned))))
        (record s { offload = some t' })

  -- `_put_one` of a new key after `_ensure_memory_capacity`.
  abbrev pub place :
      String → StoreObject → ℕ → ℕ → Bool × StoreWriteTiming → Action MooncakeStore StoreWriteTiming
  place k o now initial_delay (true, timing) s =
      let o' = record o { ready_at = o.ready_at + timing.accounting_latency } in
      copy_below k o' now initial_delay timing s.offload (admit 1 (install k o' s))
  place k o now initial_delay (false, timing) s =
      put_offloaded k o now initial_delay timing s.offload s

  unfoldable pub put_one : String → ℕ → ℕ → Action MooncakeStore StoreWriteTiming
  unfolding touch ensure_memory_capacity write_back
  put_one k now initial_delay s = elim (get k s.objects) [
    | some o ↦ (ok no_time, touch k o s)
    | none ↦
        let o = new_object k (now + initial_delay) s in
        (ensure_memory_capacity m o.bytes now >>= place k o now initial_delay) s
  ]

  -- `for key in keys[:blocks]`
  unfoldable pub put_each :
      List String → ℕ → ℕ → StoreWriteTiming → Action MooncakeStore StoreWriteTiming
  unfolding put_one
  put_each [] now initial_delay timing s = (ok timing, s)
  put_each (k ∷ ks) now initial_delay timing s =
      (put_one k now (initial_delay + timing.accounting_latency) >>= λ more.
      put_each ks now initial_delay (add timing more))
        s

  unfoldable pub put_with_timing :
      List String → Option ℕ → ℕ → ℕ → Option Policy → Action MooncakeStore StoreWriteTiming
  unfolding put_each install_fresh touch_all
  put_with_timing keys blocks now initial_delay policy s =
      let counted = record s { stats = record s.stats { put_count = s.stats.put_count + 1 } } in
      let n = limit keys blocks in
      let selected = unique (take n keys) [] in
      let fresh = fresh_keys selected s in
      let each = put_each (take n keys) now initial_delay no_time counted in
      if is_never (chosen policy s) || is_empty keys
      then (ok no_time, reject (length keys) s)
      else if not (offloads s.offload)
          && ltb 64 n
          && allows_batch n s
          && leb (s.memory_used_bytes + length fresh * s.block_bytes) s.memory_capacity_bytes
      then (ok no_time, put_batch selected fresh (now + initial_delay) counted)
      else each

  -- `put`: the latency that blocks the caller.
  abbrev pub put_keys : List String → Option ℕ → ℕ → ℕ → Action MooncakeStore ℕ
  put_keys keys blocks now initial_delay =
      put_with_timing keys blocks now initial_delay none >>= λ timing. pure timing.blocking_latency
