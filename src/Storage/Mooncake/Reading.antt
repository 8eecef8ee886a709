-- ===== src/Storage/Mooncake/Reading.antt =====
-- The reads of a `MooncakeStore`: they keep its accounts, and what a lookup hits can be read.
use token_sim.Prelude.{
  ℕ, ◌+◌, ◌≡◌, refl, false, Option, none, some, List, [], ◌∷◌, ltb, ◌==◌, nat_eq, String, string_eq,
  Bool-cases, Option-cases, inl, inr, arith, All, max,
}
use token_sim.Prelude.Dict.{get, put, has, get-put, put-Distinct, remove-Distinct}
use token_sim.Errors.{Outcome, ok, raise, continue}
use token_sim.Storage.Offload.{OffloadTier, Media, read}
use token_sim.Storage.Offload.Capacity.{IsWithin}
use token_sim.Storage.Mooncake.{
  MooncakeStore, StoreObject, Tier, memory, offloaded, is_offload_tier, touch, pin_offload,
  put_object,
}
use token_sim.Storage.Mooncake.Reads.{
  lookup, readable, ready_prefix, read_offload, read_below, read_each, use_each, get_keys,
}
use token_sim.Storage.Mooncake.Accounts.{
  OffloadWithin, IsAccounted, put_object-IsAccounted, offload-IsAccounted, pin_offload-IsAccounted,
  touch-IsAccounted,
}

module _ (m : Media) where
  read-IsWithin : (k : String) (t : OffloadTier) → IsWithin t → IsWithin (read m k t).1
  unfolding read
  read-IsWithin k t w = elim (Bool-cases (has k t.lru)) [
    | inl listed ↦ rw listed (record {
      blocks_distinct = w.blocks_distinct;
      lru_distinct = put-Distinct k tt _ (remove-Distinct k t.lru w.lru_distinct);
      counted = w.counted;
      within = w.within;
    })
    | inr other ↦ rw other w
  ]

  read_below-OffloadWithin :
      (k : String) (tier : Tier) (t : Option OffloadTier)
      → OffloadWithin t
      → OffloadWithin (read_below m k tier t).1 × ((read_below m k tier t).1 ≡ none → t ≡ none)
  unfolding read
  read_below-OffloadWithin k memory t w = (w, λ n. n)
  read_below-OffloadWithin k offloaded none w = (tt, λ n. n)
  read_below-OffloadWithin k offloaded (some t) w = (read-IsWithin k t w, λ n. absurd (cc n))

  read_offload-IsAccounted :
      (k : String) (tier : Tier) (s : MooncakeStore)
      → IsAccounted s
      → IsAccounted (read_offload m k tier s).1
  read_offload-IsAccounted k tier s c =
      let (w, lasting) = read_below-OffloadWithin k tier s.offload c.offload_within in
      offload-IsAccounted (read_below m k tier s.offload).1 s c w lasting

  read_each-IsAccounted :
      (ks : List String) (now latency : ℕ) (s : MooncakeStore)
      → IsAccounted s
      → IsAccounted (read_each m ks now latency s).1
  unfolding read_each
  read_each-IsAccounted [] now latency s c = c
  read_each-IsAccounted (k ∷ ks) now latency s c = elim (Option-cases (get k s.objects)) [
    | inl absent ↦ rw (absent, read_each) c
    | inr (o, there) ↦
        let touched = touch k o s in
        let c' = read_offload-IsAccounted k o.tier touched (touch-IsAccounted k o s c there) in
        let (more, s') = read_offload m k o.tier touched in
        let rest = read_each-IsAccounted ks now (latency + more) s' c' in
        elim (Bool-cases (ltb now o.ready_at)) [
          | inl early ↦ rw (there, early, read_each) c
          | inr ready ↦ rw (there, ready, read_each) rest
        ]
  ]

  -- Every key has an object that is ready.
  abbrev pub Ready : List String → ℕ → MooncakeStore → Type 0
  Ready ks now s =
      All (λ k. (o : StoreObject) × (get k s.objects ≡ some o) × (ltb now o.ready_at ≡ false)) ks

  read_each_lem :
      (ks : List String) (now latency : ℕ) (s : MooncakeStore)
      → Ready ks now s
      → (l : ℕ) × ((read_each m ks now latency s).0 ≡ ok l)
  unfolding read_each touch
  read_each_lem [] now latency s r = (latency, refl)
  read_each_lem (k ∷ ks) now latency s ((o, there, ready), r) =
      let (more, s') = read_offload m k o.tier (touch k o s) in
      let (l, returns) = read_each_lem ks now (latency + more) s' (still ks r) in
      (l, rw (there, ready, read_each) returns)
    where
      still :
          (js : List String)
          → Ready js now s
          → All
              (λ j.
                (p : StoreObject) × (get j
                    (put k (record o { last_access = s.access_counter + 1 }) s.objects)
                  ≡ some p)
                × (ltb now p.ready_at ≡ false))
              js
      still [] r = tt
      still (j ∷ js) ((p, g, h), r) =
          let o' : StoreObject = record o { last_access = s.access_counter + 1 } in
          (
            elim (Bool-cases (k == j)) [
              | inl here ↦ (o', ground (arith, get-put k j o' s.objects, here), ready)
              | inr other ↦ (p, ground (arith, get-put k j o' s.objects, other, g), h)
            ],
            still js r,
          )

  ready_prefix-Ready :
      (ks : List String) (now : ℕ) (s : MooncakeStore) → Ready (ready_prefix ks now s) now s
  ready_prefix-Ready [] now s = tt
  ready_prefix-Ready (k ∷ ks) now s = elim (Bool-cases (readable k now s)) [
    | inr no_hit ↦ rw no_hit tt
    | inl hit ↦ elim (Option-cases (get k s.objects)) [
      | inl absent ↦ absurd (ground (arith, hit, absent))
      | inr (o, there) ↦
          rw hit ((o, there, ground (arith, hit, there)), ready_prefix-Ready ks now s)
    ]
  ]

  get_keys_lem :
      (ks : List String) (now initial_delay : ℕ) (s : MooncakeStore)
      → Ready ks now s
      → (latency : ℕ) × ((get_keys m ks now initial_delay s).0 ≡ ok latency)
  unfolding get_keys
  get_keys_lem [] now initial_delay s r = (0, refl)
  get_keys_lem (k ∷ ks) now initial_delay s r =
      let counted : MooncakeStore = record s {
        stats = record s.stats { get_count = s.stats.get_count + 1 };
      } in
      let (latency, returns) = read_each_lem (k ∷ ks) now 0 counted r in (latency, rw returns refl)

  -- What a lookup hits can be read at once: the read returns.
  pub get_keys-lookup :
      (ks : List String) (now initial_delay : ℕ) (s : MooncakeStore)
      → (let (hit, s') = lookup ks now s in
          (latency : ℕ) × ((get_keys m hit.keys now initial_delay s').0 ≡ ok latency))
  unfolding lookup
  get_keys-lookup [] now initial_delay s = get_keys_lem [] now initial_delay s tt
  get_keys-lookup (k ∷ ks) now initial_delay s =
      get_keys_lem (ready_prefix (k ∷ ks) now s) now initial_delay (lookup (k ∷ ks) now s).1
        (ready_prefix-Ready (k ∷ ks) now s)

  use_each-IsAccounted :
      (ks : List String) (until : ℕ) (s : MooncakeStore)
      → IsAccounted s
      → IsAccounted (use_each ks until s)
  unfolding use_each
  use_each-IsAccounted [] until s c = c
  use_each-IsAccounted (k ∷ ks) until s c = elim (Option-cases (get k s.objects)) [
    | inl absent ↦ rw (absent, use_each) (use_each-IsAccounted ks until s c)
    | inr (o, there) ↦
        let end = max o.in_use_until until in
        let s' = put_object k (record o { in_use_until = end }) s in
        let c' = put_object-IsAccounted k o (record o { in_use_until = end }) s c there refl refl in
        elim (Bool-cases (is_offload_tier s o.tier)) [
          | inl below ↦
              rw (there, below, use_each)
                (use_each-IsAccounted ks until (pin_offload k end s')
                  (pin_offload-IsAccounted k end s' c'))
          | inr above ↦ rw (there, above, use_each) (use_each-IsAccounted ks until s' c')
        ]
  ]

  pub get_keys-IsAccounted :
      (ks : List String) (now initial_delay : ℕ) (s : MooncakeStore)
      → IsAccounted s
      → IsAccounted (get_keys m ks now initial_delay s).1
  unfolding get_keys
  get_keys-IsAccounted [] now initial_delay s c = c
  get_keys-IsAccounted (k ∷ ks) now initial_delay s c =
      let counted : MooncakeStore = record s {
        stats = record s.stats { get_count = s.stats.get_count + 1 };
      } in
      let (r, s') = read_each m (k ∷ ks) now 0 counted in
      used r s' (read_each-IsAccounted (k ∷ ks) now 0 counted c)
    where
      used :
          (r : Outcome ℕ) (s' : MooncakeStore)
          → IsAccounted s'
          → IsAccounted
              (continue r
                (λ (latency : ℕ) (t : MooncakeStore).
                  (ok latency, use_each (k ∷ ks) (now + initial_delay + latency) t))
                s').1
      used (ok latency) s' c' = use_each-IsAccounted (k ∷ ks) (now + initial_delay + latency) s' c'
      used (raise e) s' c' = c'

  pub lookup-IsAccounted :
      (ks : List String) (now : ℕ) (s : MooncakeStore)
      → IsAccounted s
      → IsAccounted (lookup ks now s).1
  unfolding lookup
  lookup-IsAccounted [] now s c = c
  lookup-IsAccounted (k ∷ ks) now s c = c
