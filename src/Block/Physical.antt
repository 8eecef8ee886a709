-- ===== src/Block/Physical.antt =====
-- TokenSim/block/block.py and the cache-key types of TokenSim/block/prefix_cache.py.
-- A `PhysicalTokenBlock` is shared by reference. Its reference carries the fields that never change
-- after `__init__`; the fields that change are cells of a memory, found by the object's identity.
use token_sim.Prelude.{
  ℕ, ◌+◌, ◌≡◌, ◌↔◌, Bool, true, false, ◌&&◌, Option, none, String, arith, Eq, ◌==◌, if◌then◌else◌,
  string_eq, nat_eq,
}

pub data Device : Type 0 where
  gpu cpu : Device

abbrev pub device_beq : Device → Device → Bool
device_beq gpu gpu = true
device_beq cpu cpu = true
device_beq _ _ = false

pub device_beq_iff : (a b : Device) → (device_beq a b ≡ true) ↔ (a ≡ b)
device_beq_iff a b = ground arith

instance abbrev pub device_eq : Eq Device
device_eq = record { eqb = device_beq; eqb_iff = device_beq_iff }

-- A NamedTuple of three texts, compared field by field.
pub record PrefixCacheKey : Type 0 where
  pub parent_hash : String
  pub block_signature : String
  pub extra_hash : String

abbrev pub key_beq : PrefixCacheKey → PrefixCacheKey → Bool
key_beq a b =
    a.parent_hash == b.parent_hash
    && a.block_signature == b.block_signature
    && a.extra_hash == b.extra_hash

pub key_beq_iff : (a b : PrefixCacheKey) → (key_beq a b ≡ true) ↔ (a ≡ b)
key_beq_iff a b = ground (
  arith,
  string_eq.eqb_iff a.parent_hash b.parent_hash,
  string_eq.eqb_iff a.block_signature b.block_signature,
  string_eq.eqb_iff a.extra_hash b.extra_hash,
)

instance abbrev pub key_eq : Eq PrefixCacheKey
key_eq = record { eqb = key_beq; eqb_iff = key_beq_iff }

-- A reference; `a is b` compares `ident`.
pub record PhysicalTokenBlock : Type 0 where
  pub device : Device
  pub block_number : ℕ
  pub block_size : ℕ
  pub ident : ℕ

pub record BlockState : Type 0 where
  pub ref_count : ℕ
  pub block_hash : Option PrefixCacheKey
  pub is_full : Bool
  pub cached : Bool
  pub last_accessed : ℕ

-- The state that `__init__` gives a block.
abbrev pub initial : BlockState
initial = record {
  ref_count = 0;
  block_hash = none;
  is_full = false;
  cached = false;
  last_accessed = 0;
}

pub record Memory : Type 0 where
  pub cell : ℕ → BlockState
  pub next : ℕ

abbrev pub read : Memory → PhysicalTokenBlock → BlockState
read m b = m.cell b.ident

abbrev pub write : Memory → PhysicalTokenBlock → BlockState → Memory
write m b s = record m { cell = λ i. if i == b.ident then s else m.cell i }

-- `PhysicalTokenBlock(device, block_id, block_size)`: a new object.
unfoldable pub new_block : Device → ℕ → ℕ → Memory → PhysicalTokenBlock × Memory
new_block device block_id block_size m =
    let b : PhysicalTokenBlock = record {
      device = device;
      block_number = block_id;
      block_size = block_size;
      ident = m.next;
    } in
    (b, write (record m { next = m.next + 1 }) b initial)

unfoldable pub clear_cache_metadata : PhysicalTokenBlock → Memory → Memory
clear_cache_metadata b m =
    write m b
      (record (read m b) { block_hash = none; is_full = false; cached = false; last_accessed = 0 })
