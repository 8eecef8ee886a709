-- ===== src/Block/PrefixCache/Chains.antt =====
-- `build_prefix_keys` reuses cached chains, and returns exactly the keys of a full rebuild.
use token_sim.Prelude.{
  ℕ, zero, suc, ◌≤◌, ◌≡◌, refl, ap, ◌∙◌, inl, inr, Bool, true, false, Option, none, some, String,
  List, [], ◌∷◌, ◌++◌, arith, ltb, ◌==◌, if◌then◌else◌, length, take, drop, get_elem?, keep_if, All,
  All-append, string_eq, nat_eq, Bool-cases, take_all,
}
use token_sim.Block.Physical.{PrefixCacheKey}
use token_sim.Block.PrefixCache.{
  Hashes, Chain, common_prefix, longest_in, stored_chains, make_root_parent_hash, chain_hash,
  chain_keys, reused,
}
use token_sim.Block.PrefixCache.CommonPrefix.{common_prefix-IsLongestPrefix}

module _ (hashes : Hashes) (extra : String) where
  -- The chain of a prefix, and the parent hash that follows it.
  chain_keys-take :
      (p : String) (n : ℕ) (xs : List String)
      → take n (chain_keys hashes extra p xs).0 ≡ (chain_keys hashes extra p (take n xs)).0
  unfolding chain_keys
  chain_keys-take p zero xs = refl
  chain_keys-take p (suc n) [] = refl
  chain_keys-take p (suc n) (x ∷ xs) =
      ap (◌∷◌ (record { parent_hash = p; block_signature = x; extra_hash = extra }))
        (chain_keys-take (chain_hash hashes p x (hashes.quote extra)) n xs)

  chain_keys-parent :
      (p : String) (n : ℕ) (xs : List String)
      → n ≤ length xs
      → elim (get_elem? (chain_keys hashes extra p xs).0 n) as (λ _. String) [
        | none ↦ (chain_keys hashes extra p xs).1
        | some key ↦ key.parent_hash
      ]
        ≡ (chain_keys hashes extra p (take n xs)).1
  unfolding chain_keys
  chain_keys-parent p zero [] h = refl
  chain_keys-parent p zero (x ∷ xs) h = refl
  chain_keys-parent p (suc n) [] h = absurd (omega arith)
  chain_keys-parent p (suc n) (x ∷ xs) h =
      chain_keys-parent (chain_hash hashes p x (hashes.quote extra)) n xs (omega arith)

  -- Two halves of a chain.
  chain_keys-split :
      (p : String) (n : ℕ) (xs : List String)
      → let (front, middle) = chain_keys hashes extra p (take n xs) in
        let (back, last) = chain_keys hashes extra middle (drop n xs) in
        chain_keys hashes extra p xs ≡ (front ++ back, last)
  unfolding chain_keys
  chain_keys-split p zero xs = refl
  chain_keys-split p (suc n) [] = refl
  chain_keys-split p (suc n) (x ∷ xs) =
      ap {B = List PrefixCacheKey × String}
        (λ (r : List PrefixCacheKey × String).
          (record { parent_hash = p; block_signature = x; extra_hash = extra } ∷ r.0, r.1))
        (chain_keys-split (chain_hash hashes p x (hashes.quote extra)) n xs)

  -- A chain that a full rebuild would have made.
  pub record IsChain (c : Chain) : Type 0 where
    pub keys :
        c.keys ≡ (chain_keys hashes extra (make_root_parent_hash hashes extra) c.signatures).0
    pub parent :
        c.parent ≡ (chain_keys hashes extra (make_root_parent_hash hashes extra) c.signatures).1

  -- What `longest` returns: a shared length and the chain that shares it.
  pub data Found (signatures : List String) : ℕ × Option Chain → Type 0 where
    nothing : Found signatures (0, none)
    shares :
        (n : ℕ) (c : Chain)
        → IsChain c
        → take n c.signatures ≡ take n signatures
        → n ≤ length c.signatures
        → n ≤ length signatures
        → Found signatures (n, some c)

  pub longest_in-Found :
      (signatures : List String) (best : ℕ) (chain : Option Chain) (chains : List Chain)
      → All IsChain chains
      → Found signatures (best, chain)
      → Found signatures (longest_in signatures best chain chains)
  unfolding longest_in
  longest_in-Found s best chain [] a f = f
  longest_in-Found s best chain (c ∷ cs) a f =
      let n = common_prefix c.signatures s in
      let p = common_prefix-IsLongestPrefix c.signatures s in
      let better : Found s (n, some c) = shares n c a.0 p.same p.within_left p.within_right in
      elim (Bool-cases (ltb best n)) [
        | inr no_gain ↦ rw (no_gain, longest_in) (longest_in-Found s best chain cs a.1 f)
        | inl gain ↦ elim (Bool-cases (n == length s)) [
          | inl all ↦ rw (gain, all, longest_in) better
          | inr part ↦ rw (gain, part, longest_in) (longest_in-Found s n (some c) cs a.1 better)
        ]
      ]

  unfoldable pub rebuild : List String → List PrefixCacheKey × String
  rebuild signatures = chain_keys hashes extra (make_root_parent_hash hashes extra) signatures

  -- What is taken from the cache is the front of the rebuilt chain.
  reused-front :
      (signatures : List String) (found : ℕ × Option Chain)
      → Found signatures found
      → reused hashes extra found.0 found.1 ≡ rebuild (take found.0 signatures)
  unfolding rebuild chain_keys
  reused-front s found nothing = refl
  reused-front s found (shares n c chain same left right) = λ i. (keys_part i, parent_part i)
    where
      root_hash : String
      root_hash = make_root_parent_hash hashes extra

      keys_part : take n c.keys ≡ (chain_keys hashes extra root_hash (take n s)).0
      keys_part =
          ap (take n) chain.keys
          ∙ chain_keys-take root_hash n c.signatures
          ∙ ap (λ (xs : List String). (chain_keys hashes extra root_hash xs).0) same

      parent_part :
          elim (get_elem? c.keys n) as (λ _. String) [
            | none ↦ c.parent
            | some key ↦ key.parent_hash
          ]
          ≡ (chain_keys hashes extra root_hash (take n s)).1
      parent_part =
          (λ i. elim (get_elem? (chain.keys i) n) as (λ _. String) [
            | none ↦ chain.parent i
            | some key ↦ key.parent_hash
          ])
          ∙ chain_keys-parent root_hash n c.signatures left
          ∙ ap (λ (xs : List String). (chain_keys hashes extra root_hash xs).1) same

  -- The chain that `build_from` makes and stores.
  pub built-rebuild :
      (signatures : List String) (found : ℕ × Option Chain)
      → Found signatures found
      → let (keys, parent_hash) = reused hashes extra found.0 found.1 in
        let (more, last) = chain_keys hashes extra parent_hash (drop found.0 signatures) in
        rebuild signatures ≡ (keys ++ more, last)
  unfolding rebuild
  built-rebuild s found f =
      rw (reused-front s found f) (chain_keys-split (make_root_parent_hash hashes extra) found.0 s)

  pub whole-rebuild :
      (signatures : List String) (found : ℕ × Option Chain)
      → Found signatures found
      → length signatures ≤ found.0
      → (reused hashes extra found.0 found.1).0 ≡ (rebuild signatures).0
  whole-rebuild s found f all =
      ap (λ (r : List PrefixCacheKey × String). r.0)
        (reused-front s found f ∙ ap rebuild (take_all found.0 s all))

  pub stored_chains-All :
      (limit : ℕ) (new : Chain) (chains : List Chain)
      → IsChain new
      → All IsChain chains
      → All IsChain (stored_chains limit new chains)
  unfolding stored_chains
  stored_chains-All limit new chains n a =
      dropped (ltb limit _) _ (All-append IsChain _ _ (kept chains a) (n, tt))
    where
      shorter : Chain → Bool
      shorter c = ltb (common_prefix c.signatures new.signatures) (length c.signatures)

      kept : (cs : List Chain) → All IsChain cs → All IsChain (keep_if shorter cs)
      kept [] b = tt
      kept (c ∷ cs) b = elim (Bool-cases (shorter c)) [
        | inl t ↦ rw t (b.0, kept cs b.1)
        | inr f ↦ rw f (kept cs b.1)
      ]

      dropped :
          (b : Bool) (cs : List Chain) → All IsChain cs → All IsChain (if b then drop 1 cs else cs)
      dropped true [] h = tt
      dropped true (c ∷ cs) h = h.1
      dropped false cs h = h
