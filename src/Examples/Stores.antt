-- ===== src/Examples/Stores.antt =====
-- Stores of KV pages at concrete inputs.
use token_sim.Prelude.{
  ℕ, ◌+◌, ◌*◌, ◌<◌, ◌≡◌, ◌⊎◌, refl, true, Option, none, some, List, [], ◌∷◌, arith, String,
  string_eq, nat_eq,
}
use token_sim.Prelude.Dict.{has, get, put, remove}
use token_sim.Errors.{ok, raise, configuration_error}
use token_sim.Storage.Offload
use token_sim.Storage.Offload.{Media, OffloadTier}
use token_sim.Storage.Offload.Capacity.{IsWithin, Written, write-IsWithin}
use token_sim.Storage.PageStore
use token_sim.Storage.PageStore.{NativePageStore, StoredPage, allocation_bytes}
use token_sim.Storage.PageStore.Conservation.{IsConserved}
use token_sim.Storage.PageStore.Room.{Reserved, pinned_bytes, reserve_write_lem}
use token_sim.Storage.PageStore.Run
use token_sim.Storage.PageStore.Run.{Reaches-IsConserved, Reaches-validate}
use token_sim.Storage.Mooncake
use token_sim.Storage.Mooncake.{MooncakeConfig, MooncakeStore, always}
use token_sim.Storage.Mooncake.Reads.{lookup, get_keys}
use token_sim.Storage.Mooncake.Accounts.{IsAccounted}
use token_sim.Storage.Mooncake.Reading.{get_keys-lookup}
use token_sim.Storage.Mooncake.Run as Pool
use token_sim.Storage.Mooncake.Run.{Reaches-IsAccounted}

abbrev media : Media
media = record { read_time = λ n. n; write_time = λ n. 2 * n }

-- A full tier: the write has to evict the older key.
abbrev tier : OffloadTier
tier = record {
  block_bytes = 8;
  capacity_blocks = 3;
  blocks = ("a", 1) ∷ ("b", 2) ∷ [];
  lru = ("a", tt) ∷ ("b", tt) ∷ [];
  used_blocks = 3;
  protected_until = ("b", 9) ∷ [];
}

tier-IsWithin : IsWithin tier
unfolding get
tier-IsWithin = record {
  blocks_distinct = (refl, (refl, tt));
  lru_distinct = (refl, (refl, tt));
  counted = refl;
  within = omega arith;
}

write-IsWithin_example :
    IsWithin (Offload.write media "c" 1 4 tier).1
    × Written "c" 1 tier (Offload.write media "c" 1 4 tier)
write-IsWithin_example = write-IsWithin media "c" 1 4 tier tier-IsWithin

abbrev pages : NativePageStore ℕ
pages = PageStore.fresh_store 10 none

pages_ok : PageStore.new_store 10 none ≡ ok pages
unfolding PageStore.new_store
pages_ok = refl

abbrev held : NativePageStore ℕ
held = (PageStore.reserve_write 7 6 pages).1

held-Reaches : Run.Reaches pages held
held-Reaches = Run.after Run.start (Run.reserves 7 6)

held-IsConserved : IsConserved held
held-IsConserved =
    Reaches-IsConserved held-Reaches (PageStore.Conservation.fresh_store-IsConserved 10 none)

reserve_write_lem_example :
    let payload : ℕ = 5 in
    let (answer, s) = PageStore.reserve_write 8 payload held in
    let size = allocation_bytes held payload in
    (payload ≡ 0 → (answer ≡ raise configuration_error) × (s ≡ held))
    × (0 < payload
        → (result : Option (StoredPage ℕ)) × (answer ≡ ok result)
          × (result ≡ none
              → (has 8 held.pages ≡ true) ⊎ (held.capacity_bytes < pinned_bytes held + size))
          × ((p : StoredPage ℕ) → result ≡ some p → Reserved 8 size p s))
reserve_write_lem_example = reserve_write_lem 8 5 held held-IsConserved

Reaches-validate_example : PageStore.validate held ≡ ok true
Reaches-validate_example = Reaches-validate 10 none pages held pages_ok held-Reaches

abbrev config : MooncakeConfig
config = record {
  admission_policy = always;
  evicts_lru = true;
  replica_num = 1;
  preferred_segment = none;
}

abbrev keys : List String
keys = "x" ∷ "y" ∷ "z" ∷ []

-- A pool of two blocks over a tier of three.
abbrev pool : MooncakeStore
pool = Mooncake.new_store config 8 (some 2) 0 (some 24)

abbrev filled : MooncakeStore
filled = (Mooncake.Writes.put_with_timing media keys none 5 0 none pool).1

filled-Reaches : Pool.Reaches media pool filled
filled-Reaches = Pool.after Pool.start (Pool.puts keys none 5 0 none)

Reaches-IsAccounted_example : IsAccounted filled
Reaches-IsAccounted_example =
    Reaches-IsAccounted media config 8 (some 2) 0 (some 24) filled filled-Reaches

get_keys-lookup_example :
    let (hit, s) = lookup keys 500 filled in
    (latency : ℕ) × ((get_keys media hit.keys 500 0 s).0 ≡ ok latency)
get_keys-lookup_example = get_keys-lookup media keys 500 0 filled

-- All three keys are found, one of them below the memory.
three_found : (lookup keys 500 filled).0.hit_blocks ≡ 3
unfolding lookup Mooncake.Writes.put_with_timing Mooncake.ensure_memory_capacity Mooncake.touch get
    put remove Offload.write Offload.pin Mooncake.next_idle
three_found = refl
