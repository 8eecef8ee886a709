-- ===== src/Storage/Mooncake/Admission.antt =====
-- `_put_one` keeps the accounts of the store, whether it takes the key, refuses it or raises.
use token_sim.Prelude.{
  ℕ, ◌+◌, ◌≤◌, ◌≡◌, ◌≢◌, refl, ap, ◌∙◌, Bool, true, false, Option, none, some, List, [], ◌∷◌, ◌==◌,
  nat_eq, String, string_eq, Bool-cases, Option-cases, inl, inr, arith,
}
use token_sim.Prelude.Dict.{get, get-put, get-put_self, put-Distinct, total-put_new, has-put}
use token_sim.Errors.{Outcome, Error, ok, raise, Action, continue, configuration_error}
use token_sim.Storage.Offload.{OffloadTier, Media, write}
use token_sim.Storage.Mooncake.{
  MooncakeStore, StoreObject, StoreWriteTiming, in_memory, evicted, pin_offload, put_object,
  record_offload_write, write_back, ensure_memory_capacity, no_time, add,
}
use token_sim.Storage.Mooncake.Writes.{
  put_one, put_each, place, copy_below, put_offloaded, install, admit, new_object,
}
use token_sim.Storage.Mooncake.Accounts.{
  memory_bytes, OffloadWithin, IsAccounted, pin_offload-IsAccounted, pinned_tier-none,
  touch-IsAccounted,
}
use token_sim.Storage.Mooncake.Evictions.{forget_evicted-IsAccounted}
use token_sim.Storage.Mooncake.Room.{
  write-Fine, write_back-Fine, ensure_memory_capacity_lem, Decided,
}

-- The accounts hold after the action, and it raises only what the offload tier raises.
abbrev pub Kept {ℓ} : {A : Type ℓ} → Outcome A × MooncakeStore → Type ℓ
Kept (r, s) = IsAccounted s × ((e : Error) → r ≡ raise e → e ≡ configuration_error)

pub no_raise {ℓ} : {A : Type ℓ} {a : A} (e : Error) → ok a ≡ raise e → e ≡ configuration_error
no_raise e h = absurd (cc h)

pub continue-Kept {ℓ κ} :
    {A : Type ℓ} {B : Type κ} (r : Outcome A) (f : A → Action MooncakeStore B) (s : MooncakeStore)
    → Kept (r, s)
    → ((a : A) → r ≡ ok a → Kept (f a s))
    → Kept (continue r f s)
continue-Kept (ok a) f s kept next = next a refl
continue-Kept (raise e) f s (c, error) next = (c, λ d h. error d (cc h))

-- A new object joins the queue and the accounts where its bytes fit.
install-IsAccounted :
    (k : String) (o : StoreObject) (s : MooncakeStore)
    → IsAccounted s
    → get k s.objects ≡ none
    → in_memory o.tier ≡ true
    → s.memory_used_bytes + o.bytes ≤ s.memory_capacity_bytes
    → IsAccounted (install k o s)
install-IsAccounted k o s c absent in_mem room =
    let weight : memory_bytes o ≡ o.bytes = rw in_mem refl in
    record {
      objects_distinct = put-Distinct k o s.objects c.objects_distinct;
      lru_distinct = put-Distinct k tt s.memory_lru c.lru_distinct;
      counted = omega (arith, c.counted, total-put_new memory_bytes k o s.objects absent, weight);
      within = room;
      queued = λ j q. elim (Bool-cases (k == j)) [
        | inl here ↦ (o, ground (arith, get-put k j o s.objects, here), in_mem)
        | inr other ↦
            let (p, g, kept) = c.queued j (ground (arith, has-put k j tt s.memory_lru, other, q)) in
            (p, ground (arith, get-put k j o s.objects, other, g), kept)
      ];
      offload_within = c.offload_within;
      alone = λ n j p g. elim (Bool-cases (k == j)) [
        | inl here ↦
            (let e : p ≡ o = ground (arith, get-put k j o s.objects, here, g) in
              ap (λ x. in_memory x.tier) e ∙ in_mem)
        | inr other ↦ c.alone n j p (ground (arith, get-put k j o s.objects, other, g))
      ];
    }

-- A new object that the offload tier holds.
below-IsAccounted :
    (k : String) (o : StoreObject) (s : MooncakeStore)
    → IsAccounted s
    → get k s.objects ≡ none
    → in_memory o.tier ≡ false
    → s.offload ≢ none
    → IsAccounted (put_object k o s)
below-IsAccounted k o s c absent below tiered =
    let weight : memory_bytes o ≡ 0 = rw below refl in
    record {
      objects_distinct = put-Distinct k o s.objects c.objects_distinct;
      lru_distinct = c.lru_distinct;
      counted = omega (arith, c.counted, total-put_new memory_bytes k o s.objects absent, weight);
      within = c.within;
      queued = λ j q.
          let (p, g, kept) = c.queued j q in
          (
            p,
            ground (
              arith,
              get-put k j o s.objects,
              g,
              absent,
              string_eq.eqb_iff k j,
              ap (λ i. get i s.objects),
            ),
            kept,
          );
      offload_within = c.offload_within;
      alone = λ n. absurd (tiered n);
    }

module _ (m : Media) where
  copy_below-Kept :
      (k : String) (o : StoreObject) (now initial_delay : ℕ) (timing : StoreWriteTiming)
      (offload : Option OffloadTier) (s : MooncakeStore)
      → IsAccounted s
      → OffloadWithin offload
      → get k s.objects ≡ some o
      → Kept (copy_below m k o now initial_delay timing offload s)
  copy_below-Kept k o now initial_delay timing none s c w there = (c, no_raise)
  copy_below-Kept k o now initial_delay timing (some t) s c w there =
      let (kept, follows, error) =
        write_back-Fine m k o now (initial_delay + timing.accounting_latency) t s c w there in
      continue-Kept (write_back m k o now (initial_delay + timing.accounting_latency) t s).0 _ _
        (kept, error) (λ more h. (kept, no_raise))

  put_offloaded-Kept :
      (k : String) (o : StoreObject) (now initial_delay : ℕ) (timing : StoreWriteTiming)
      (offload : Option OffloadTier) (s : MooncakeStore)
      → IsAccounted s
      → OffloadWithin offload
      → get k s.objects ≡ none
      → Kept (put_offloaded m k o now initial_delay timing offload s)
  put_offloaded-Kept k o now initial_delay timing none s c w absent = (c, no_raise)
  put_offloaded-Kept k o now initial_delay timing (some t) s c w absent =
      let (c', follows, error) = write-Fine m k o.blocks now t s c w in
      let s' : MooncakeStore = record s { offload = some (write m k o.blocks now t).1 } in
      continue-Kept (write m k o.blocks now t).0 _ s' (c', error)
        (λ op h. elim (Bool-cases (evicted k op)) [
          | inl gone ↦ rw gone (c', no_raise)
          | inr stays ↦
              let until = now + (initial_delay + timing.accounting_latency) + op.latency in
              let pinned = pin_offload k until s' in
              let (c'', follows', same) =
                forget_evicted-IsAccounted op.evicted_keys pinned
                  (pin_offload-IsAccounted k until s' c') in
              rw stays (
                below-IsAccounted k _ (record_offload_write op pinned) c'' (same k stays ∙ absent)
                    refl
                    (λ n. absurd (cc (pinned_tier-none k until s'.offload (follows'.tiered n)))),
                no_raise,
              )
        ])

  place-Kept :
      (k : String) (o : StoreObject) (now initial_delay : ℕ) (r : Outcome (Bool × StoreWriteTiming))
      (s : MooncakeStore)
      → Kept (r, s)
      → get k s.objects ≡ none
      → in_memory o.tier ≡ true
      → Decided m o.bytes now (r, s)
      → Kept (continue r (place m k o now initial_delay) s)
  place-Kept k o now initial_delay (raise e) s (c, error) absent in_mem decided =
      (c, λ d h. error d (cc h))
  place-Kept k o now initial_delay (ok (true, timing)) s (c, error) absent in_mem decided =
      let o' : StoreObject = record o { ready_at = o.ready_at + timing.accounting_latency } in
      copy_below-Kept k o' now initial_delay timing s.offload (admit 1 (install k o' s))
        (install-IsAccounted k o' s c absent in_mem decided) c.offload_within
        (get-put_self k o' s.objects)
  place-Kept k o now initial_delay (ok (false, timing)) s (c, error) absent in_mem decided =
      put_offloaded-Kept k o now initial_delay timing s.offload s c c.offload_within absent

  -- A put of one key keeps the accounts: the bytes counted are those of the objects in memory and never
  -- above the capacity, every queued key has its object, and the offload tier is within its own capacity.
  -- It raises nothing but the configuration error of an offload tier without capacity.
  pub put_one-Kept :
      (k : String) (now initial_delay : ℕ) (s : MooncakeStore)
      → IsAccounted s
      → Kept (put_one m k now initial_delay s)
  unfolding put_one
  put_one-Kept k now initial_delay s c = elim (Option-cases (get k s.objects)) [
    | inr (o, there) ↦ rw (there, put_one) (touch-IsAccounted k o s c there, no_raise)
    | inl absent ↦
        let o = new_object k (now + initial_delay) s in
        let room = ensure_memory_capacity m o.bytes now s in
        rw (absent, put_one)
          (elim (ensure_memory_capacity_lem m o.bytes now s c) [
            | inl ((kept, follows, error), decided) ↦
                place-Kept k o now initial_delay room.0 room.1 (kept, error)
                  (follows.absent k absent) refl decided
            | inr (refused, large) ↦ rw refused (
                put_offloaded-Kept k o now initial_delay no_time s.offload s c c.offload_within
                  absent)
          ])
  ]

  -- Puts of several keys, one after the other, keep the accounts too.
  pub put_each-Kept :
      (ks : List String) (now initial_delay : ℕ) (timing : StoreWriteTiming) (s : MooncakeStore)
      → IsAccounted s
      → Kept (put_each m ks now initial_delay timing s)
  unfolding put_each
  put_each-Kept [] now initial_delay timing s c = (c, no_raise)
  put_each-Kept (k ∷ ks) now initial_delay timing s c =
      let (kept, error) = put_one-Kept k now (initial_delay + timing.accounting_latency) s c in
      let (r, s') = put_one m k now (initial_delay + timing.accounting_latency) s in
      continue-Kept r _ s' (kept, error)
        (λ more h. put_each-Kept ks now initial_delay (add timing more) s' kept)
