-- ===== src/Block/PrefixCache.antt =====
-- TokenSim/block/prefix_cache.py: the hash chain of prefix keys, and the process-wide cache of chains.
-- `hashlib`, `json` and `str` are parameters: the digest of a text, the quoting of a text, the payload
-- of the two keyword dictionaries, and the text of an integer.
pub mod CommonPrefix
pub mod Chains
pub mod Reuse
use token_sim.Prelude.{
  ℕ, zero, suc, ◌+◌, ◌-◌, ◌/◌, min, Bool, true, false, not, ◌&&◌, ◌||◌, Option, none, some, String,
  List, [], ◌∷◌, ◌++◌, map, ltb, ◌==◌, if◌then◌else◌, length, take, drop, get_elem?, keep_if,
  nat_eq, string_eq,
}
use token_sim.Prelude.Dict.{Dict, get, put, remove}
use token_sim.Block.Physical.{PrefixCacheKey}

pub record Hashes : Type 0 where
  pub sha256 : String → String
  pub quote : String → String
  pub concat : List String → String
  -- `json.dumps` of the dictionaries of `make_extra_hash` and `make_root_parent_hash`.
  pub dump_extra : String → Option String → Option String → String
  pub dump_root : String → String
  pub str_int : ℕ → String

-- A block hash of a workload, `str | int`.
pub data HashId : Type 0 where
  text : String → HashId
  int : ℕ → HashId

abbrev pub list_beq : List String → List String → Bool
list_beq [] [] = true
list_beq (x ∷ xs) (y ∷ ys) = x == y && list_beq xs ys
list_beq [] (y ∷ ys) = false
list_beq (x ∷ xs) [] = false

-- The `while` of `_common_prefix`; a round at least halves `high - low`, so `high - low` rounds are
-- enough.
unfoldable pub bisect : List String → List String → ℕ → ℕ → ℕ → ℕ
bisect left right zero low high = low
bisect left right (suc fuel) low high =
    let middle = (low + high) / 2 in
    elim (ltb 1 (high - low)) [
      | true ↦ elim (list_beq (take middle left) (take middle right)) [
        | true ↦ bisect left right fuel middle high
        | false ↦ bisect left right fuel low middle
      ]
      | false ↦ low
    ]

abbrev pub same_head : List String → List String → Bool
same_head (x ∷ xs) (y ∷ ys) = x == y
same_head [] ys = false
same_head (x ∷ xs) [] = false

unfoldable pub common_prefix : List String → List String → ℕ
unfolding bisect
common_prefix left right =
    let size = min (length left) (length right) in
    if size == 0 || not (same_head left right)
    then 0
    else if list_beq (take size left) (take size right)
    then size
    else bisect left right size 1 size

-- `(signatures, keys, parent hash after the last key)`
pub record Chain : Type 0 where
  pub signatures : List String
  pub keys : List PrefixCacheKey
  pub parent : String

pub record ChainCache : Type 0 where
  pub scope_limit : ℕ
  pub chain_limit : ℕ
  pub scopes : Dict String (List Chain)

-- `OrderedDict.move_to_end` of a key that is there.
abbrev pub move_to_end {ℓ} : {V : Type ℓ} → String → V → Dict String V → Dict String V
move_to_end k v d = put k v (remove k d)

-- The `for` of `longest`, with `best` and `best_chain`.
unfoldable pub longest_in : List String → ℕ → Option Chain → List Chain → ℕ × Option Chain
unfolding common_prefix
longest_in signatures best best_chain [] = (best, best_chain)
longest_in signatures best best_chain (chain ∷ chains) =
    let shared = common_prefix chain.signatures signatures in
    elim (ltb best shared) [
      | true ↦ elim (shared == length signatures) [
        | true ↦ (shared, some chain)
        | false ↦ longest_in signatures shared (some chain) chains
      ]
      | false ↦ longest_in signatures best best_chain chains
    ]

unfoldable pub longest : String → List String → ChainCache → (ℕ × Option Chain) × ChainCache
unfolding longest_in
longest extra_hash signatures c = elim (get extra_hash c.scopes) [
  | none ↦ ((0, none), c)
  | some [] ↦ ((0, none), c)
  | some (chain ∷ chains) ↦ (
    longest_in signatures 0 none (chain ∷ chains),
    record c { scopes = move_to_end extra_hash (chain ∷ chains) c.scopes },
  )
]

-- The chains of a scope after `store`.
unfoldable pub stored_chains : ℕ → Chain → List Chain → List Chain
unfolding common_prefix
stored_chains limit new chains =
    let kept =
      keep_if (λ c. ltb (common_prefix c.signatures new.signatures) (length c.signatures)) chains
      ++ new ∷ [] in
    if ltb limit (length kept) then drop 1 kept else kept

-- `len(self.scopes) > self.scope_limit` evicts the scope used longest ago.
abbrev pub open_scope : String → ChainCache → Dict String (List Chain)
open_scope extra_hash c =
    let scopes = put extra_hash [] c.scopes in
    if ltb c.scope_limit (length scopes) then drop 1 scopes else scopes

unfoldable pub store : String → Chain → ChainCache → ChainCache
unfolding stored_chains
store extra_hash new c = elim (get extra_hash c.scopes) [
  | none ↦
      -- The list just made stays bound in the function also where its scope has been evicted.
      let scopes = open_scope extra_hash c in
      let chains = stored_chains c.chain_limit new [] in
      record c {
        scopes = elim (get extra_hash scopes) [
          | none ↦ scopes
          | some _ ↦ put extra_hash chains scopes
        ];
      }
  | some chains ↦ record c {
    scopes =
        put extra_hash (stored_chains c.chain_limit new chains)
          (move_to_end extra_hash chains c.scopes);
  }
]

module _ (hashes : Hashes) where
  open hashes use {sha256, quote, concat, dump_extra, dump_root, str_int}

  abbrev pub make_extra_hash : String → Option String → Option String → String
  make_extra_hash model cache_salt reuse_group = sha256 (dump_extra model cache_salt reuse_group)

  abbrev pub make_root_parent_hash : String → String
  make_root_parent_hash extra_hash = sha256 (dump_root extra_hash)

  unfoldable pub chain_hash : String → String → String → String
  chain_hash parent_hash signature quoted_extra = sha256 (
      concat (
        "{\"block_signature\":"
        ∷ quote signature
        ∷ ",\"extra_hash\":"
        ∷ quoted_extra
        ∷ ",\"parent_hash\":"
        ∷ quote parent_hash
        ∷ "}"
        ∷ []))

  abbrev pub next_parent_hash : PrefixCacheKey → String
  next_parent_hash key = chain_hash key.parent_hash key.block_signature (quote key.extra_hash)

  abbrev pub str : HashId → String
  str (text s) = s
  str (int n) = str_int n

  -- The loop that appends a key for each signature, and the parent hash that it ends with.
  unfoldable pub chain_keys : String → String → List String → List PrefixCacheKey × String
  chain_keys extra_hash parent_hash [] = ([], parent_hash)
  chain_keys extra_hash parent_hash (signature ∷ rest) =
      let (keys, last) =
        chain_keys extra_hash (chain_hash parent_hash signature (quote extra_hash)) rest in
      (
        record { parent_hash = parent_hash; block_signature = signature; extra_hash = extra_hash }
            ∷ keys,
        last,
      )

  -- `keys` and `parent_hash` before the loop.
  abbrev pub reused : String → ℕ → Option Chain → List PrefixCacheKey × String
  reused extra_hash shared none = ([], make_root_parent_hash extra_hash)
  reused extra_hash shared (some chain) = (
    take shared chain.keys,
    elim (get_elem? chain.keys shared) [ none ↦ chain.parent | some key ↦ key.parent_hash ],
  )

  unfoldable pub build_from :
      String → List String → ℕ × Option Chain → ChainCache → List PrefixCacheKey × ChainCache
  unfolding chain_keys store
  build_from extra_hash signatures (shared, chain) c =
      let (keys, parent_hash) = reused extra_hash shared chain in
      let (more, last) = chain_keys extra_hash parent_hash (drop shared signatures) in
      if ltb shared (length signatures)
      then (
        keys ++ more,
        store extra_hash (record { signatures = signatures; keys = keys ++ more; parent = last }) c,
      )
      else (keys, c)

  unfoldable pub build_signatures :
      String → List String → ChainCache → List PrefixCacheKey × ChainCache
  unfolding build_from longest
  build_signatures extra_hash [] c = ([], c)
  build_signatures extra_hash (s ∷ ss) c =
      let (found, c') = longest extra_hash (s ∷ ss) c in build_from extra_hash (s ∷ ss) found c'

  unfoldable pub build_prefix_keys :
      List HashId
      → String
      → Option String
      → Option String
      → ChainCache
      → List PrefixCacheKey × ChainCache
  unfolding build_signatures
  build_prefix_keys block_hashes model cache_salt reuse_group =
      build_signatures (make_extra_hash model cache_salt reuse_group) (map str block_hashes)
