-- ===== src/Storage/Mooncake/Accounts.antt =====
-- The memory accounts of a `MooncakeStore`, and the small changes that keep them.
use token_sim.Prelude.{
  ℕ, ◌+◌, ◌-◌, ◌≤◌, ◌≡◌, refl, ap, ◌∙◌, true, false, ◌&&◌, Option, none, some, ◌==◌, if◌then◌else◌,
  nat_eq, String, string_eq, Bool-cases, inl, inr, arith,
}
use token_sim.Prelude.Dict.{
  Dict, get, put, remove, has, total, Distinct, get-put, get-remove, put-Distinct, remove-Distinct,
  total-put_old, total-remove, has-put, has-remove,
}
use token_sim.Storage.Offload.{OffloadTier, pin}
use token_sim.Storage.Offload.Capacity.{IsWithin}
use token_sim.Storage.Mooncake.{
  MooncakeStore, StoreObject, in_memory, touch, pin_offload, pinned_tier, put_object,
}

-- What an object takes of the memory.
abbrev pub memory_bytes : StoreObject → ℕ
memory_bytes o = if in_memory o.tier then o.bytes else 0

abbrev pub OffloadWithin : Option OffloadTier → Type 0
OffloadWithin none = Unit
OffloadWithin (some t) = IsWithin t

-- Without an offload tier every object is in memory.
abbrev pub Alone : Option OffloadTier → Dict String StoreObject → Type 0
Alone offload objects =
    offload ≡ none
    → (k : String) (o : StoreObject) → get k objects ≡ some o
    → in_memory o.tier ≡ true

-- The bytes that the store counts are those of the objects in memory and fit the capacity, every key of
-- the queue has an object in memory, and the offload tier is within its capacity.
pub record Accounts (objects : Dict String StoreObject) (lru : Dict String (Unit {0}))
    (used capacity : ℕ) (offload : Option OffloadTier) : Type 0 where
  pub objects_distinct : Distinct objects
  pub lru_distinct : Distinct lru
  pub counted : used ≡ total memory_bytes objects
  pub within : used ≤ capacity
  pub queued :
      (k : String)
      → has k lru ≡ true
      → (o : StoreObject) × (get k objects ≡ some o) × (in_memory o.tier ≡ true)
  pub offload_within : OffloadWithin offload
  pub alone : Alone offload objects

abbrev pub IsAccounted : MooncakeStore → Type 0
IsAccounted s =
    Accounts s.objects s.memory_lru s.memory_used_bytes s.memory_capacity_bytes s.offload

-- An object that is replaced by one of the same size in the same tier.
pub put_object-IsAccounted :
    (k : String) (o o' : StoreObject) (s : MooncakeStore)
    → IsAccounted s
    → get k s.objects ≡ some o
    → o'.tier ≡ o.tier
    → o'.bytes ≡ o.bytes
    → IsAccounted (put_object k o' s)
put_object-IsAccounted k o o' s c there tier bytes =
    let same = total-put_old memory_bytes k o' o s.objects there in
    let weight : memory_bytes o' ≡ memory_bytes o = rw (tier, bytes) refl in
    record {
      objects_distinct = put-Distinct k o' s.objects c.objects_distinct;
      lru_distinct = c.lru_distinct;
      counted = omega (arith, c.counted, same, weight);
      within = c.within;
      queued = λ j q. elim (Bool-cases (k == j)) [
        | inl here ↦
            let (p, g, in_mem) = c.queued j q in
            (
              o',
              ground (arith, get-put k j o' s.objects, here),
              ground (
                arith,
                tier,
                in_mem,
                g,
                there,
                string_eq.eqb_iff k j,
                here,
                ap (λ i. get i s.objects),
              ),
            )
        | inr other ↦
            let (p, g, in_mem) = c.queued j q in
            (p, ground (arith, get-put k j o' s.objects, other, g), in_mem)
      ];
      offload_within = c.offload_within;
      alone = λ n j p g. elim (Bool-cases (k == j)) [
        | inl here ↦
            (let e : p ≡ o' = ground (arith, get-put k j o' s.objects, here, g) in
              ap (λ x. in_memory x.tier) e ∙ ap in_memory tier ∙ c.alone n k o there)
        | inr other ↦ c.alone n j p (ground (arith, get-put k j o' s.objects, other, g))
      ];
    }

-- An object that is dropped frees what it took, and must leave the queue before.
pub remove-IsAccounted :
    (k : String) (o : StoreObject) (s : MooncakeStore)
    → IsAccounted s
    → get k s.objects ≡ some o
    → has k s.memory_lru ≡ false
    → Accounts
        (remove k s.objects)
        s.memory_lru
        (s.memory_used_bytes - memory_bytes o)
        s.memory_capacity_bytes
        s.offload
remove-IsAccounted k o s c there unqueued = record {
  objects_distinct = remove-Distinct k s.objects c.objects_distinct;
  lru_distinct = c.lru_distinct;
  counted = omega (arith, c.counted, total-remove memory_bytes k o s.objects there);
  within = omega (arith, c.within);
  queued = λ j q.
      let (p, g, in_mem) = c.queued j q in
      (
        p,
        ground (
          arith,
          get-remove k j s.objects c.objects_distinct,
          g,
          q,
          unqueued,
          string_eq.eqb_iff k j,
          ap (λ i. has i s.memory_lru),
        ),
        in_mem,
      );
  offload_within = c.offload_within;
  alone = λ n j p g. c.alone n j p (ground (arith, get-remove k j s.objects c.objects_distinct, g));
}

-- A key of the queue may move to its end.
pub requeue-IsAccounted :
    (k : String) (s : MooncakeStore)
    → IsAccounted s
    → has k s.memory_lru ≡ true
    → IsAccounted (record s { memory_lru = put k tt (remove k s.memory_lru) })
requeue-IsAccounted k s c listed = record {
  objects_distinct = c.objects_distinct;
  counted = c.counted;
  within = c.within;
  offload_within = c.offload_within;
  alone = c.alone;
  lru_distinct = put-Distinct k tt _ (remove-Distinct k s.memory_lru c.lru_distinct);
  queued = λ j q. c.queued j (
      ground (
        arith,
        has-put k j tt (remove k s.memory_lru),
        has-remove k j s.memory_lru c.lru_distinct,
        q,
        listed,
        string_eq.eqb_iff k j,
        ap (λ i. has i s.memory_lru),
      ));
}

pub touch-IsAccounted :
    (k : String) (o : StoreObject) (s : MooncakeStore)
    → IsAccounted s
    → get k s.objects ≡ some o
    → IsAccounted (touch k o s)
unfolding touch
touch-IsAccounted k o s c there =
    let c' =
      put_object-IsAccounted k o (record o { last_access = s.access_counter + 1 }) s c there refl
        refl in
    elim (Bool-cases (in_memory o.tier && has k s.memory_lru)) [
      | inl moved ↦ rw moved (requeue-IsAccounted k (put_object k _ s) c' (ground (arith, moved)))
      | inr stays ↦ rw stays c'
    ]

pub offload-IsAccounted :
    (t : Option OffloadTier) (s : MooncakeStore)
    → IsAccounted s
    → OffloadWithin t
    → (t ≡ none → s.offload ≡ none)
    → IsAccounted (record s { offload = t })
offload-IsAccounted t s c w n = record {
  objects_distinct = c.objects_distinct;
  lru_distinct = c.lru_distinct;
  counted = c.counted;
  within = c.within;
  queued = c.queued;
  offload_within = w;
  alone = λ e. c.alone (n e);
}

pub pinned_tier-none :
    (k : String) (until : ℕ) (t : Option OffloadTier) → pinned_tier k until t ≡ none → t ≡ none
pinned_tier-none k until none e = refl
pinned_tier-none k until (some t) e = absurd (cc e)

pub pin_offload-IsAccounted :
    (k : String) (until : ℕ) (s : MooncakeStore)
    → IsAccounted s
    → IsAccounted (pin_offload k until s)
unfolding pin
pin_offload-IsAccounted k until s c =
    offload-IsAccounted _ s c (pinned s.offload c.offload_within)
      (pinned_tier-none k until s.offload)
  where
    pinned : (t : Option OffloadTier) → OffloadWithin t → OffloadWithin (pinned_tier k until t)
    pinned none w = tt
    pinned (some t) w = record {
      blocks_distinct = w.blocks_distinct;
      lru_distinct = w.lru_distinct;
      counted = w.counted;
      within = w.within;
    }
