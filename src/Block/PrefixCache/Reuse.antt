-- ===== src/Block/PrefixCache/Reuse.antt =====
-- The chain cache of the process stays sound, whatever is built through it, and never changes a result.
use token_sim.Prelude.{
  ℕ, ◌≡◌, refl, sym, ap, ◌∙◌, inl, inr, Bool, true, false, Option, none, some, String, List, [],
  ◌∷◌, map, arith, ltb, ◌==◌, if◌then◌else◌, length, drop, All, string_eq, nat_eq, Bool-cases,
  Option-cases,
}
use token_sim.Prelude.Dict.{
  Dict, get, put, remove, Distinct, get-put, get-remove, put-Distinct, remove-Distinct,
}
use token_sim.Block.Physical.{PrefixCacheKey}
use token_sim.Block.PrefixCache.{
  Hashes, HashId, Chain, ChainCache, longest, stored_chains, open_scope, store, make_extra_hash,
  chain_keys, build_from, build_signatures, build_prefix_keys, str, move_to_end,
}
use token_sim.Block.PrefixCache.Chains.{
  IsChain, Found, nothing, longest_in-Found, built-rebuild, whole-rebuild, stored_chains-All,
  rebuild,
}

module _ (hashes : Hashes) where
  -- Every cached chain is one that a full rebuild would make.
  pub record IsSound (c : ChainCache) : Type 0 where
    pub distinct : Distinct c.scopes
    pub chains :
        (extra : String) (cs : List Chain)
        → get extra c.scopes ≡ some cs
        → All (IsChain hashes extra) cs

  move-get :
      (k j : String) (v : List Chain) (d : Dict String (List Chain))
      → Distinct d
      → get k d ≡ some v
      → get j (move_to_end k v d) ≡ get j d
  move-get k j v d h e =
      rw (get-put k j v (remove k d), get-remove k j d h)
        (ground (arith, string_eq.eqb_iff k j, ap (λ (x : String). get x d)))

  move-Distinct :
      (k : String) (v : List Chain) (d : Dict String (List Chain))
      → Distinct d
      → Distinct (move_to_end k v d)
  move-Distinct k v d h = put-Distinct k v (remove k d) (remove-Distinct k d h)

  moved-IsSound :
      (k : String) (v : List Chain) (c : ChainCache)
      → IsSound c
      → get k c.scopes ≡ some v
      → IsSound (record c { scopes = move_to_end k v c.scopes })
  moved-IsSound k v c s e = record {
    distinct = move-Distinct k v c.scopes s.distinct;
    chains = λ extra cs g. s.chains extra cs (sym (move-get k extra v c.scopes s.distinct e) ∙ g);
  }

  put-IsSound :
      (k : String) (v : List Chain) (c : ChainCache)
      → IsSound c
      → All (IsChain hashes k) v
      → IsSound (record c { scopes = put k v c.scopes })
  put-IsSound k v c s a = record {
    distinct = put-Distinct k v c.scopes s.distinct;
    chains = λ extra cs g. chosen extra cs (sym (get-put k extra v c.scopes) ∙ g);
  }
    where
      chosen :
          (extra : String) (cs : List Chain)
          → (if k == extra then some v else get extra c.scopes) ≡ some cs
          → All (IsChain hashes extra) cs
      chosen extra cs g = elim (Bool-cases (k == extra)) [
        | inl t ↦
            let same : k ≡ extra = (string_eq.eqb_iff k extra).0 t in
            let is_v : v ≡ cs = cc (rw t at g) in rw (← same, ← is_v) a
        | inr f ↦ s.chains extra cs (rw f at g)
      ]

  get-drop :
      (d : Dict String (List Chain)) (extra : String) (cs : List Chain)
      → Distinct d
      → get extra (drop 1 d) ≡ some cs
      → get extra d ≡ some cs
  unfolding get
  get-drop [] extra cs h g = g
  get-drop ((k, v) ∷ d) extra cs h g =
      ground (arith, string_eq.eqb_iff k extra, ap (λ (x : String). get x d))

  drop-Distinct : (d : Dict String (List Chain)) → Distinct d → Distinct (drop 1 d)
  drop-Distinct [] h = tt
  drop-Distinct ((k, v) ∷ d) h = h.1

  -- The scope that was used longest ago is dropped.
  dropped-IsSound :
      (b : Bool) (c : ChainCache)
      → IsSound c
      → IsSound (record c { scopes = if b then drop 1 c.scopes else c.scopes })
  dropped-IsSound false c s = s
  dropped-IsSound true c s = record {
    distinct = drop-Distinct c.scopes s.distinct;
    chains = λ extra cs g. s.chains extra cs (get-drop c.scopes extra cs s.distinct g);
  }

  pub store-IsSound :
      (extra : String) (new : Chain) (c : ChainCache)
      → IsSound c
      → IsChain hashes extra new
      → IsSound (store extra new c)
  unfolding store
  store-IsSound extra new c s n = elim (Option-cases (get extra c.scopes)) [
    | inr (chains, e) ↦
        rw (e, store)
          (put-IsSound extra (stored_chains c.chain_limit new chains)
            (record c { scopes = move_to_end extra chains c.scopes })
            (moved-IsSound extra chains c s e)
            (stored_chains-All hashes extra c.chain_limit new chains n (s.chains extra chains e)))
    | inl e ↦
        let opened =
          dropped-IsSound (ltb c.scope_limit (length (put extra [] c.scopes)))
            (record c { scopes = put extra [] c.scopes }) (put-IsSound extra [] c s tt) in
        elim (Option-cases (get extra (open_scope extra c))) [
          | inl gone ↦ rw (e, gone, store) opened
          | inr (cs, there) ↦
              rw (e, there, store)
                (put-IsSound extra (stored_chains c.chain_limit new [])
                  (record c { scopes = open_scope extra c }) opened
                  (stored_chains-All hashes extra c.chain_limit new [] n tt))
        ]
  ]

  pub longest_lem :
      (extra : String) (signatures : List String) (c : ChainCache)
      → IsSound c
      → Found hashes extra signatures (longest extra signatures c).0
        × IsSound (longest extra signatures c).1
  unfolding longest
  longest_lem extra signatures c s = by_scope (get extra c.scopes) refl
    where
      by_scope :
          (o : Option (List Chain))
          → get extra c.scopes ≡ o
          → Found hashes extra signatures (longest extra signatures c).0
            × IsSound (longest extra signatures c).1
      by_scope none e = rw (e, longest) (nothing, s)
      by_scope (some []) e = rw (e, longest) (nothing, s)
      by_scope (some (x ∷ xs)) e =
          rw (e, longest)
            (
              longest_in-Found hashes extra signatures 0 none (x ∷ xs) (s.chains extra (x ∷ xs) e)
                  nothing,
              moved-IsSound extra (x ∷ xs) c s e,
            )

  build_from-rebuild :
      (extra : String) (signatures : List String) (found : ℕ × Option Chain) (c : ChainCache)
      → Found hashes extra signatures found
      → IsSound c
      → ((build_from hashes extra signatures found c).0 ≡ (rebuild hashes extra signatures).0)
        × IsSound (build_from hashes extra signatures found c).1
  unfolding build_from rebuild
  build_from-rebuild extra signatures found c f s =
      elim (Bool-cases (ltb found.0 (length signatures))) [
        | inl t ↦
            let built = built-rebuild hashes extra signatures found f in
            rw (t, build_from)
              (
                sym (ap (λ (r : List PrefixCacheKey × String). r.0) built),
                store-IsSound extra _ c s (record {
                  keys = sym (ap (λ (r : List PrefixCacheKey × String). r.0) built);
                  parent = sym (ap (λ (r : List PrefixCacheKey × String). r.1) built);
                }),
              )
        | inr stop ↦
            rw (stop, build_from) (whole-rebuild hashes extra signatures found f (ground arith), s)
      ]

  -- The keys of a full rebuild, with no cache.
  abbrev pub rebuilt_keys :
      List HashId → String → Option String → Option String → List PrefixCacheKey
  rebuilt_keys block_hashes model cache_salt reuse_group =
      (rebuild hashes (make_extra_hash hashes model cache_salt reuse_group)
        (map (str hashes) block_hashes)).0

  -- Building through the chain cache gives exactly the keys of a full rebuild, and leaves the cache
  -- sound.
  pub build_prefix_keys-rebuilt :
      (block_hashes : List HashId) (model : String) (cache_salt reuse_group : Option String)
      (c : ChainCache)
      → IsSound c
      → ((build_prefix_keys hashes block_hashes model cache_salt reuse_group c).0
          ≡ rebuilt_keys block_hashes model cache_salt reuse_group)
        × IsSound (build_prefix_keys hashes block_hashes model cache_salt reuse_group c).1
  unfolding build_prefix_keys rebuild chain_keys
  build_prefix_keys-rebuilt block_hashes model cache_salt reuse_group c s =
      of_signatures (map (str hashes) block_hashes)
    where
      extra : String
      extra = make_extra_hash hashes model cache_salt reuse_group

      of_signatures :
          (signatures : List String)
          → ((build_signatures hashes extra signatures c).0 ≡ (rebuild hashes extra signatures).0)
            × IsSound (build_signatures hashes extra signatures c).1
      of_signatures [] = (refl, s)
      of_signatures (x ∷ xs) =
          let (found, sound) = longest_lem extra (x ∷ xs) c s in
          build_from-rebuild extra (x ∷ xs) (longest extra (x ∷ xs) c).0
            (longest extra (x ∷ xs) c).1 found sound
