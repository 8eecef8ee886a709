-- ===== src/Storage/Offload.antt =====
-- `OffloadTier` of TokenSim/mooncake/ssd.py: a tier of blocks under a capacity, with the least recently
-- used keys replaced first and pinned ones kept. The latency of the backend, in ticks, is a parameter; a
-- tier's names and profile, which only reports read, are left out. The keys of `_lru` are those of
-- `_blocks`.
pub mod Capacity
use token_sim.Prelude.{
  or_zero, ℕ, ◌+◌, ◌-◌, ◌*◌, ◌/◌, max, Bool, true, false, not, ◌&&◌, Option, none, some, List, [],
  ◌∷◌, ltb, leb, ◌==◌, if◌then◌else◌, nat_eq, String, string_eq,
}
use token_sim.Prelude.Dict.{Dict, get, put, remove, has}
use token_sim.Errors.{Outcome, ok, raise, configuration_error}

pub record OffloadOperation : Type 0 where
  pub blocks : ℕ
  pub bytes : ℕ
  pub latency : ℕ
  pub evicted_keys : List String

pub record OffloadTier : Type 0 where
  pub block_bytes : ℕ
  pub capacity_blocks : ℕ
  pub blocks : Dict String ℕ
  pub lru : Dict String (Unit {0})
  pub used_blocks : ℕ
  pub protected_until : Dict String ℕ

-- `estimate_io(...).service_seconds` of a storage backend, for reads and for writes of so many bytes.
pub record Media : Type 0 where
  pub read_time : ℕ → ℕ
  pub write_time : ℕ → ℕ

-- `OffloadTier.__init__`, with the capacity of the backend in bytes.
abbrev pub new_tier : ℕ → ℕ → OffloadTier
new_tier block_bytes capacity_bytes =
    let size = max 1 block_bytes in
    record {
      block_bytes = size;
      capacity_blocks = capacity_bytes / size;
      blocks = [];
      lru = [];
      used_blocks = 0;
      protected_until = [];
    }

abbrev pub contains : String → OffloadTier → Bool
contains k t = has k t.blocks

-- `_latency`
abbrev pub io_latency : (ℕ → ℕ) → ℕ → ℕ
io_latency time n = if n == 0 then 0 else time n

unfoldable pub read : Media → String → OffloadTier → OffloadOperation × OffloadTier
read m k t =
    let blocks = or_zero (get k t.blocks) in
    let bytes = blocks * t.block_bytes in
    (
      record {
        blocks = blocks;
        bytes = bytes;
        latency = io_latency m.read_time bytes;
        evicted_keys = [];
      },
      (if has k t.lru then record t { lru = put k tt (remove k t.lru) } else t),
    )

unfoldable pub pin : String → ℕ → OffloadTier → OffloadTier
pin k until t = record t {
  protected_until = put k (max (or_zero (get k t.protected_until)) until) t.protected_until;
}

unfoldable pub remove_existing : String → OffloadTier → OffloadTier
remove_existing k t = record t {
  used_blocks = t.used_blocks - or_zero (get k t.blocks);
  blocks = remove k t.blocks;
  lru = remove k t.lru;
  protected_until = remove k t.protected_until;
}

-- `for candidate in candidates: self._remove_existing(candidate)`
unfoldable pub remove_all : List String → OffloadTier → OffloadTier
unfolding remove_existing
remove_all [] t = t
remove_all (k ∷ ks) t = remove_all ks (remove_existing k t)

-- The `for` over `_lru`: the candidates, and the blocks that are available without them.
unfoldable pub collect : String → ℕ → ℕ → OffloadTier → Dict String (Unit {0}) → ℕ → List String × ℕ
collect k extra now t [] available = ([], available)
collect k extra now t ((c, u) ∷ lru) available =
    let more = available + or_zero (get c t.blocks) in
    let (cs, left) = collect k extra now t lru more in
    let skipped = collect k extra now t lru available in
    if not (c == k) && leb (or_zero (get c t.protected_until)) now
    then (if leb extra more then (c ∷ [], more) else (c ∷ cs, left))
    else skipped

abbrev pub refused : String → OffloadOperation
refused k = record { blocks = 0; bytes = 0; latency = 0; evicted_keys = k ∷ [] }

-- What is available, and the keys that go for it.
abbrev pub make_available : String → ℕ → ℕ → OffloadTier → List String × ℕ
make_available k extra now t =
    let available = t.capacity_blocks - t.used_blocks in
    if ltb available extra then collect k extra now t t.lru available else ([], available)

-- The statements that install the key.
abbrev pub install : String → ℕ → List String → OffloadTier → OffloadTier
install k n candidates t =
    let t' = remove_existing k (remove_all candidates t) in
    record t' {
      blocks = put k n t'.blocks;
      used_blocks = t'.used_blocks + n;
      lru = put k tt t'.lru;
    }

unfoldable pub write : Media → String → ℕ → ℕ → OffloadTier → Outcome OffloadOperation × OffloadTier
unfolding collect remove_all remove_existing
write m k blocks now t =
    let extra = blocks - or_zero (get k t.blocks) in
    let (candidates, available) = make_available k extra now t in
    let bytes = blocks * t.block_bytes in
    if t.capacity_blocks == 0
    then (raise configuration_error, t)
    else if ltb t.capacity_blocks blocks
    then (ok (refused k), t)
    else if ltb available extra
    then (ok (refused k), t)
    else (
      ok (record {
        blocks = blocks;
        bytes = bytes;
        latency = io_latency m.write_time bytes;
        evicted_keys = candidates;
      }),
      install k blocks candidates t,
    )
