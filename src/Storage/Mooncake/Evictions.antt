-- ===== src/Storage/Mooncake/Evictions.antt =====
-- The accounts of a `MooncakeStore` through its evictions, in memory and in the tier under it.
use token_sim.Prelude.{
  ◌+◌, ◌≤◌, ◌≡◌, refl, ap, ◌∙◌, false, none, some, List, [], ◌∷◌, nat_eq, String, string_eq,
  Bool-cases, Option-cases, inl, inr, arith, length, subst,
}
use token_sim.Prelude.Dict.{get, remove, has, get-put, get-remove}
use token_sim.Errors.{Outcome, Error, ok, raise, Action, continue, configuration_error}
use token_sim.Storage.Mooncake.{
  MooncakeStore, StoreObject, in_memory, is_offload_tier, forget_evicted, among, put_object,
}
use token_sim.Storage.Mooncake.Accounts.{
  memory_bytes, Accounts, IsAccounted, put_object-IsAccounted, remove-IsAccounted,
}

-- What no eviction changes, the capacity and that a key is absent, that no key joins the queue
-- and that the offload tier stays.
pub record Follows (s s' : MooncakeStore) : Type 0 where
  pub same_capacity : s'.memory_capacity_bytes ≡ s.memory_capacity_bytes
  pub absent : (k : String) → get k s.objects ≡ none → get k s'.objects ≡ none
  pub shorter : length s'.memory_lru ≤ length s.memory_lru
  pub tiered : s'.offload ≡ none → s.offload ≡ none

pub Follows-refl : (s : MooncakeStore) → Follows s s
Follows-refl s = record {
  same_capacity = refl;
  absent = λ k h. h;
  shorter = omega arith;
  tiered = λ n. n;
}

pub Follows-trans : (s s' s'' : MooncakeStore) → Follows s s' → Follows s' s'' → Follows s s''
Follows-trans s s' s'' f g = record {
  same_capacity = g.same_capacity ∙ f.same_capacity;
  absent = λ k h. g.absent k (f.absent k h);
  shorter = omega (arith, f.shorter, g.shorter);
  tiered = λ n. f.tiered (g.tiered n);
}

pub Follows-put_object :
    (k : String) (o o' : StoreObject) (s : MooncakeStore)
    → get k s.objects ≡ some o
    → Follows s (put_object k o' s)
Follows-put_object k o o' s there = record {
  same_capacity = refl;
  absent = λ j h.
      ground (
        arith,
        get-put k j o' s.objects,
        h,
        there,
        string_eq.eqb_iff k j,
        ap (λ i. get i s.objects),
      );
  shorter = omega arith;
  tiered = λ n. n;
}

-- An object of the tier below takes no memory and is not queued, so it may go.
dropped-IsAccounted :
    (k : String) (o : StoreObject) (s : MooncakeStore)
    → IsAccounted s
    → get k s.objects ≡ some o
    → in_memory o.tier ≡ false
    → Accounts
        (remove k s.objects)
        s.memory_lru
        s.memory_used_bytes
        s.memory_capacity_bytes
        s.offload
dropped-IsAccounted k o s c there below =
    let unqueued : has k s.memory_lru ≡ false = elim (Bool-cases (has k s.memory_lru)) [
      | inr f ↦ f
      | inl q ↦
          (let (p, g, in_mem) = c.queued k q in
            absurd (
              ground (arith, below, in_mem, g, there, λ (e : p ≡ o). ap (λ x. in_memory x.tier) e)))
    ] in
    let c' = remove-IsAccounted k o s c there unqueued in
    let nothing : memory_bytes o ≡ 0 = rw below refl in
    subst (λ u. Accounts (remove k s.objects) s.memory_lru u s.memory_capacity_bytes s.offload)
      (ground (arith, nothing)) c'

-- The keys that a write of the offload tier evicted are dropped or marked, and the others stay.
pub forget_evicted-IsAccounted :
    (ks : List String) (s : MooncakeStore)
    → IsAccounted s
    → IsAccounted (forget_evicted ks s)
      × Follows s (forget_evicted ks s)
      × ((j : String) → among j ks ≡ false → get j (forget_evicted ks s).objects ≡ get j s.objects)
unfolding forget_evicted
forget_evicted-IsAccounted [] s c = (c, Follows-refl s, λ j h. refl)
forget_evicted-IsAccounted (k ∷ ks) s c = elim (Option-cases (get k s.objects)) [
  | inl none_there ↦
      let (kept, follows, same) = forget_evicted-IsAccounted ks s c in
      rw (none_there, forget_evicted) (kept, follows, λ j h. same j (ground (arith, h)))
  | inr (o, there) ↦ elim (Bool-cases (is_offload_tier s o.tier)) [
    | inl below ↦
        let c' = dropped-IsAccounted k o s c there (ground (arith, below)) in
        let gone : MooncakeStore = record s {
          objects = remove k s.objects;
          stats = record s.stats { eviction_count = s.stats.eviction_count + 1 };
        } in
        let (kept, follows, same) = forget_evicted-IsAccounted ks gone c' in
        rw (there, below, forget_evicted)
          (
            kept,
            Follows-trans s gone _
                (record {
                  same_capacity = refl;
                  absent = λ j h. ground (arith, get-remove k j s.objects c.objects_distinct, h);
                  shorter = omega arith;
                  tiered = λ n. n;
                })
                follows,
            λ j h.
                same j (ground (arith, h))
                ∙ ground (arith, h, get-remove k j s.objects c.objects_distinct),
          )
    | inr above ↦
        let c' = put_object-IsAccounted k o (record o { persisted = false }) s c there refl refl in
        let (kept, follows, same) = forget_evicted-IsAccounted ks (put_object k _ s) c' in
        rw (there, above, forget_evicted)
          (
            kept,
            Follows-trans s (put_object k _ s) _ (Follows-put_object k o _ s there) follows,
            λ j h.
                same j (ground (arith, h))
                ∙ ground (arith, h, get-put k j (record o { persisted = false }) s.objects),
          )
  ]
]

-- What every action below comes to: the accounts hold after it, whether it returns or raises, and it
-- raises only what the offload tier raises.
abbrev pub Fine {ℓ} : {A : Type ℓ} → MooncakeStore → Outcome A × MooncakeStore → Type ℓ
Fine s (r, s') =
    IsAccounted s' × Follows s s' × ((e : Error) → r ≡ raise e → e ≡ configuration_error)

pub returned-Fine {ℓ} :
    {A : Type ℓ} (a : A) (s s' : MooncakeStore) → IsAccounted s' → Follows s s' → Fine s (ok a, s')
returned-Fine a s s' c f = (c, f, λ e h. absurd (cc h))

pub continue-Fine {ℓ κ} :
    {A : Type ℓ} {B : Type κ} (r : Outcome A) (f : A → Action MooncakeStore B)
    (s s' : MooncakeStore)
    → Fine s (r, s')
    → ((a : A) → r ≡ ok a → Fine s' (f a s'))
    → Fine s (continue r f s')
continue-Fine (ok a) f s s' (c, follows, error) next =
    let (c', follows', error') = next a refl in (c', Follows-trans s s' _ follows follows', error')
continue-Fine (raise e) f s s' (c, follows, error) next = (c, follows, λ d h. error d (cc h))
