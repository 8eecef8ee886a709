-- ===== src/Storage/Mooncake/Reads.antt =====
-- The reading half of `MooncakeStore` in TokenSim/mooncake/store.py: `lookup`, `missing_indices` and `get`.
use token_sim.Prelude.{
  ℕ, ◌+◌, max, Bool, true, false, not, ◌&&◌, ◌||◌, Option, none, some, List, [], ◌∷◌, ltb,
  if◌then◌else◌, String, string_eq, length,
}
use token_sim.Prelude.Dict.{get}
use token_sim.Errors.{ok, raise, Action, ◌>>=◌, simulation_state_error}
use token_sim.Storage.Offload.{OffloadTier, Media, contains, read}
use token_sim.Storage.Mooncake.{
  MooncakeStore, MooncakeStats, Tier, memory, offloaded, is_offload_tier, touch, pin_offload,
  put_object,
}

pub record StoreHit : Type 0 where
  pub keys : List String
  pub hit_blocks : ℕ
  pub tier : Option Tier

-- `self.offload.contains(key)` where there is an offload tier.
abbrev pub offload_contains : String → MooncakeStore → Bool
offload_contains k s = elim s.offload [ none ↦ true | some t ↦ contains k t ]

-- Whether the loop of `lookup` goes on past the key.
abbrev pub readable : String → ℕ → MooncakeStore → Bool
readable k now s = elim (get k s.objects) [
  | none ↦ false
  | some o ↦
      not (ltb now o.ready_at) && not (is_offload_tier s o.tier && not (offload_contains k s))
]

abbrev pub ready_prefix : List String → ℕ → MooncakeStore → List String
ready_prefix [] now s = []
ready_prefix (k ∷ ks) now s = if readable k now s then k ∷ ready_prefix ks now s else []

-- `slowest_tier` after the keys of a hit.
abbrev pub slowest : MooncakeStore → List String → Option Tier → Option Tier
slowest s [] t = t
slowest s (k ∷ ks) t = slowest s ks (elim (get k s.objects) [
  | none ↦ t
  | some o ↦
      if is_offload_tier s o.tier
      then some o.tier
      else (elim t [ none ↦ some memory | some u ↦ some u ])
])

abbrev pub hit_of : List String → ℕ → MooncakeStore → StoreHit
hit_of ks now s =
    let hits = ready_prefix ks now s in
    record { keys = hits; hit_blocks = length hits; tier = slowest s hits none }

unfoldable pub lookup : List String → ℕ → MooncakeStore → StoreHit × MooncakeStore
lookup [] now s = (hit_of [] now s, s)
lookup (k ∷ ks) now s =
    let hit = hit_of (k ∷ ks) now s in (hit, record s { stats = counted hit.keys hit.tier s.stats })
  where
    on_disk : Option Tier → Bool
    on_disk none = false
    on_disk (some t) = is_offload_tier s t

    counted : List String → Option Tier → MooncakeStats → MooncakeStats
    counted [] t st = record st { store_miss_count = st.store_miss_count + 1 }
    counted (j ∷ js) t st =
        if on_disk t
        then record st {
          store_hit_count = st.store_hit_count + 1;
          disk_tier_hit_count = st.disk_tier_hit_count + 1;
        }
        else record st {
          store_hit_count = st.store_hit_count + 1;
          memory_tier_hit_count = st.memory_tier_hit_count + 1;
        }

-- `present` of `missing_indices`
abbrev pub present : String → MooncakeStore → Bool
present k s = elim (get k s.objects) [
  | none ↦ false
  | some o ↦ not (is_offload_tier s o.tier) || offload_contains k s
]

abbrev pub missing_indices : List String → ℕ → MooncakeStore → List ℕ
missing_indices [] i s = []
missing_indices (k ∷ ks) i s =
    if present k s then missing_indices ks (i + 1) s else i ∷ missing_indices ks (i + 1) s

-- The second `for` of `get`.
unfoldable pub use_each : List String → ℕ → MooncakeStore → MooncakeStore
use_each [] until s = s
use_each (k ∷ ks) until s = elim (get k s.objects) [
  | none ↦ use_each ks until s
  | some o ↦
      let end = max o.in_use_until until in
      let s' = put_object k (record o { in_use_until = end }) s in
      use_each ks until (if is_offload_tier s o.tier then pin_offload k end s' else s')
]

module _ (m : Media) where
  -- `self.offload.read(obj.key)`, where the object is one of the offload tier.
  abbrev pub read_below : String → Tier → Option OffloadTier → ℕ × Option OffloadTier
  read_below k memory t = (0, t)
  read_below k offloaded none = (0, none)
  read_below k offloaded (some t) = let (op, t') = read m k t in (op.latency, some t')

  abbrev pub read_offload : String → Tier → MooncakeStore → ℕ × MooncakeStore
  read_offload k tier s =
      let (latency, t) = read_below k tier s.offload in (latency, record s { offload = t })

  -- The first `for` of `get`: the latency of its reads.
  unfoldable pub read_each : List String → ℕ → ℕ → Action MooncakeStore ℕ
  unfolding read touch
  read_each [] now latency s = (ok latency, s)
  read_each (k ∷ ks) now latency s = elim (get k s.objects) [
    | none ↦ (raise simulation_state_error, s)
    | some o ↦
        let (more, s') = read_offload k o.tier (touch k o s) in
        let rest = read_each ks now (latency + more) s' in
        if ltb now o.ready_at then (raise simulation_state_error, s) else rest
  ]

  unfoldable pub get_keys : List String → ℕ → ℕ → Action MooncakeStore ℕ
  unfolding read_each use_each
  get_keys [] now initial_delay s = (ok 0, s)
  get_keys (k ∷ ks) now initial_delay s =
      let counted = record s { stats = record s.stats { get_count = s.stats.get_count + 1 } } in
      (read_each (k ∷ ks) now 0 >>= λ latency s.
      (ok latency, use_each (k ∷ ks) (now + initial_delay + latency) s))
        counted
