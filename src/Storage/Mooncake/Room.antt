-- ===== src/Storage/Mooncake/Room.antt =====
-- `_evict_memory` and `_ensure_memory_capacity` keep the accounts, and make room where they say so.
use token_sim.Prelude.{
  ℕ, zero, suc, ◌+◌, ◌-◌, ◌≤◌, ◌<◌, ◌≡◌, ◌≢◌, refl, sym, ap, ◌∙◌, Bool, true, false, Option, none,
  some, [], ◌∷◌, ltb, leb, nat_eq, String, string_eq, ==_refl, Bool-cases, inl, inr, arith, max,
  length, ◌⊎◌, subst,
}
use token_sim.Prelude.Dict.{
  Dict, get, put, remove, has, get-put, get-put_self, get-remove, put-Distinct, remove-Distinct,
  total-put_old, has-remove, has-cons, length-remove,
}
use token_sim.Errors.{Outcome, ok, raise, Action, continue}
use token_sim.Storage.Offload.{OffloadTier, Media, write, contains}
use token_sim.Storage.Offload.Capacity.{IsWithin, write-IsWithin}
use token_sim.Storage.Mooncake.{
  MooncakeStore, StoreObject, StoreWriteTiming, offloaded, in_memory, forget_evicted, evicted,
  pin_offload, put_object, write_back, evict_memory, next_idle, free_memory, ensure_memory_capacity,
  no_time, add, leave_memory, freed,
}
use token_sim.Storage.Mooncake.Accounts.{
  memory_bytes, OffloadWithin, Accounts, IsAccounted, put_object-IsAccounted, remove-IsAccounted,
  offload-IsAccounted, pin_offload-IsAccounted, pinned_tier-none,
}
use token_sim.Storage.Mooncake.Evictions.{
  Follows, Follows-refl, Follows-trans, Follows-put_object, forget_evicted-IsAccounted, Fine,
  returned-Fine, continue-Fine,
}

module _ (m : Media) where
  -- A write of the offload tier alone.
  pub write-Fine :
      (k : String) (blocks now : ℕ) (t : OffloadTier) (s : MooncakeStore)
      → IsAccounted s
      → IsWithin t
      → Fine s ((write m k blocks now t).0, record s { offload = some (write m k blocks now t).1 })
  write-Fine k blocks now t s c w =
      let (w', written) = write-IsWithin m k blocks now t w in
      (
        offload-IsAccounted (some _) s c w' (λ e. absurd (cc e)),
        record {
          same_capacity = refl;
          absent = λ j h. h;
          shorter = omega arith;
          tiered = λ n. absurd (cc n);
        },
        λ e h. elim written [
          | inl (r, empty, same) ↦ cc (r, h)
          | inr (inl (r, same)) ↦ absurd (cc (r, h))
          | inr (inr (o, r, size, there)) ↦ absurd (cc (r, h))
        ],
      )

  pub write_back-Fine :
      (k : String) (o : StoreObject) (now initial_delay : ℕ) (t : OffloadTier) (s : MooncakeStore)
      → IsAccounted s
      → IsWithin t
      → get k s.objects ≡ some o
      → Fine s (write_back m k o now initial_delay t s)
  unfolding write_back
  write_back-Fine k o now initial_delay t s c w there =
      let fine = write-Fine k o.blocks now t s c w in
      let s' : MooncakeStore = record s { offload = some (write m k o.blocks now t).1 } in
      continue-Fine (write m k o.blocks now t).0 _ s s' fine (λ op r.
        let (kept, follows, same) = forget_evicted-IsAccounted op.evicted_keys s' fine.0 in
        let s'' = forget_evicted op.evicted_keys s' in
        let until = now + initial_delay + op.latency in
        elim (Bool-cases (evicted k op)) [
          | inl gone ↦ rw gone (returned-Fine _ s' s'' kept follows)
          | inr stays ↦
              let still = same k stays ∙ there in
              rw stays (
                returned-Fine _ s' _
                  (put_object-IsAccounted k o _ (pin_offload k until s'')
                    (pin_offload-IsAccounted k until s'' kept) still refl refl)
                  (Follows-trans s' s'' _ follows (record {
                    same_capacity = refl;
                    absent = λ j h. (Follows-put_object k o _ s'' still).absent j h;
                    shorter = omega arith;
                    tiered = pinned_tier-none k until s''.offload;
                  })))
        ])

  -- An object that leaves the memory, whether it is dropped or moved to the tier below.
  unqueue-IsAccounted :
      (k : String) (s : MooncakeStore)
      → IsAccounted s
      → IsAccounted (record s { memory_lru = remove k s.memory_lru })
  unqueue-IsAccounted k s c = record {
    objects_distinct = c.objects_distinct;
    lru_distinct = remove-Distinct k s.memory_lru c.lru_distinct;
    counted = c.counted;
    within = c.within;
    queued = λ j q. c.queued j (ground (arith, has-remove k j s.memory_lru c.lru_distinct, q));
    offload_within = c.offload_within;
    alone = c.alone;
  }

  moved-IsAccounted :
      (k : String) (o : StoreObject) (s : MooncakeStore)
      → IsAccounted s
      → get k s.objects ≡ some o
      → in_memory o.tier ≡ true
      → has k s.memory_lru ≡ false
      → s.offload ≢ none
      → Accounts
          (put k (record o { tier = offloaded }) s.objects)
          s.memory_lru
          (s.memory_used_bytes - o.bytes)
          s.memory_capacity_bytes
          s.offload
  moved-IsAccounted k o s c there in_mem unqueued below =
      let o' : StoreObject = record o { tier = offloaded } in
      let weight : memory_bytes o ≡ o.bytes = rw in_mem refl in
      record {
        objects_distinct = put-Distinct k o' s.objects c.objects_distinct;
        lru_distinct = c.lru_distinct;
        counted =
            omega (arith, c.counted, total-put_old memory_bytes k o' o s.objects there, weight);
        within = omega (arith, c.within);
        queued = λ j q.
            let (p, g, kept) = c.queued j q in
            (
              p,
              ground (
                arith,
                get-put k j o' s.objects,
                g,
                q,
                unqueued,
                string_eq.eqb_iff k j,
                ap (λ i. has i s.memory_lru),
              ),
              kept,
            );
        offload_within = c.offload_within;
        alone = λ n. absurd (below n);
      }

  -- `popped` is the store whose queue no longer has the key.
  leave_memory-Fine :
      (k : String) (o : StoreObject) (now : ℕ) (offload : Option OffloadTier)
      (popped : MooncakeStore)
      → IsAccounted popped
      → OffloadWithin offload
      → popped.offload ≡ offload
      → get k popped.objects ≡ some o
      → in_memory o.tier ≡ true
      → has k popped.memory_lru ≡ false
      → Fine popped (leave_memory m k o now offload (freed o popped))
  leave_memory-Fine k o now none popped c w same there in_mem unqueued =
      let weight : memory_bytes o ≡ o.bytes = rw in_mem refl in
      returned-Fine _ popped _
        (subst
          (λ u.
            Accounts (remove k popped.objects) popped.memory_lru u popped.memory_capacity_bytes
              popped.offload)
          (ap (λ b. popped.memory_used_bytes - b) weight)
          (remove-IsAccounted k o popped c there unqueued))
        (record {
          same_capacity = refl;
          absent = λ j h. ground (arith, get-remove k j popped.objects c.objects_distinct, h);
          shorter = omega arith;
          tiered = λ n. n;
        })
  leave_memory-Fine k o now (some t) popped c w same there in_mem unqueued =
      let moved : StoreObject = record o { tier = offloaded } in
      let s' = put_object k moved (freed o popped) in
      let c' = moved-IsAccounted k o popped c there in_mem unqueued (λ n. absurd (cc (n, same))) in
      let f : Follows popped s' = record {
        same_capacity = refl;
        absent = (Follows-put_object k o moved popped there).absent;
        shorter = omega arith;
        tiered = λ n. n;
      } in
      elim (Bool-cases (contains k t)) [
        | inl below ↦ rw below (returned-Fine _ popped s' c' f)
        | inr new ↦
            let (kept, follows, error) =
              write_back-Fine k moved now 0 t s' c' w (get-put_self k moved popped.objects) in
            rw new (kept, Follows-trans popped s' _ f follows, error)
      ]

  evict_memory-Fine :
      (k : String) (now : ℕ) (s : MooncakeStore)
      → IsAccounted s
      → has k s.memory_lru ≡ true
      → Fine s (evict_memory m k now s)
        × (length (evict_memory m k now s).1.memory_lru + 1 ≤ length s.memory_lru)
  unfolding evict_memory
  evict_memory-Fine k now s c listed =
      let (o, there, in_mem) = c.queued k listed in
      let popped : MooncakeStore = record s { memory_lru = remove k s.memory_lru } in
      let (kept, follows, error) =
        leave_memory-Fine k o now s.offload popped (unqueue-IsAccounted k s c) c.offload_within refl
          there in_mem (rw (has-remove k k s.memory_lru c.lru_distinct, ==_refl k) refl) in
      let less = length-remove k tt s.memory_lru (ground (arith, listed)) in
      rw (there, in_mem, evict_memory)
        (
          (
            kept,
            record {
              same_capacity = follows.same_capacity;
              absent = follows.absent;
              shorter = omega (arith, follows.shorter, less);
              tiered = follows.tiered;
            },
            error,
          ),
          omega (arith, follows.shorter, less),
        )

  -- A search of the queue finds one of its keys, or none that is idle.
  next_idle_lem :
      (now : ℕ) (s : MooncakeStore) (lru : Dict String (Unit {0}))
      → ((k : String) → has k lru ≡ true → (o : StoreObject) × (get k s.objects ≡ some o))
      → (next_idle now s lru ≡ ok none)
        ⊎ ((k : String) × (next_idle now s lru ≡ ok (some k)) × (has k lru ≡ true))
  unfolding next_idle
  next_idle_lem now s [] held = inl refl
  next_idle_lem now s ((k, u) ∷ lru) held =
      let (o, there) = held k (rw (has-cons k k u lru, ==_refl k) refl) in
      let later = next_idle_lem now s lru (λ j q. held j (ground (arith, has-cons j k u lru, q))) in
      elim (Bool-cases (leb (max o.ready_at o.in_use_until) now)) [
        | inl idle ↦
            inr (k, rw (there, idle, next_idle) refl, rw (has-cons k k u lru, ==_refl k) refl)
        | inr busy ↦ elim later [
          | inl nothing ↦ inl (rw (there, busy, nothing, next_idle) refl)
          | inr (j, found, q) ↦
              inr
                (j, rw (there, busy, found, next_idle) refl, ground (arith, has-cons j k u lru, q))
        ]
      ]

  -- The loop says rightly whether there is room: where there is none, nothing more may go.
  abbrev pub Decided : ℕ → ℕ → Outcome (Bool × StoreWriteTiming) × MooncakeStore → Type 0
  Decided bytes now (ok (true, timing), s) = s.memory_used_bytes + bytes ≤ s.memory_capacity_bytes
  Decided bytes now (ok (false, timing), s) =
      (s.memory_capacity_bytes < s.memory_used_bytes + bytes)
      × ((s.config.evicts_lru ≡ false) ⊎ (next_idle now s s.memory_lru ≡ ok none))
  Decided bytes now (raise e, s) = Unit

  abbrev pub Frees :
      ℕ → ℕ → MooncakeStore → Outcome (Bool × StoreWriteTiming) × MooncakeStore → Type 0
  Frees bytes now s r = Fine s r × Decided bytes now r

  continue-Frees :
      (bytes now : ℕ) (r : Outcome StoreWriteTiming)
      (f : StoreWriteTiming → Action MooncakeStore (Bool × StoreWriteTiming)) (s s' : MooncakeStore)
      → Fine s (r, s')
      → ((a : StoreWriteTiming) → Frees bytes now s' (f a s'))
      → Frees bytes now s (continue r f s')
  continue-Frees bytes now (ok a) f s s' fine next =
      (continue-Fine (ok a) f s s' fine (λ b h. (next b).0), (next a).1)
  continue-Frees bytes now (raise e) f s s' (c, follows, error) next =
      ((c, follows, λ d h. error d (cc h)), tt)

  free_memory_lem :
      (fuel bytes now : ℕ) (timing : StoreWriteTiming) (s : MooncakeStore)
      → IsAccounted s
      → length s.memory_lru ≤ fuel
      → Frees bytes now s (free_memory m fuel bytes now timing s)
  unfolding free_memory next_idle
  free_memory_lem zero bytes now timing s c enough =
      elim (Bool-cases (ltb s.memory_capacity_bytes (s.memory_used_bytes + bytes))) [
        | inr room ↦
            rw (room, free_memory) (returned-Fine _ s s c (Follows-refl s), ground (arith, room))
        | inl over ↦
            rw (over, free_memory)
              (
                returned-Fine _ s s c (Follows-refl s),
                (ground (arith, over), inr (no_keys s.memory_lru (omega (arith, enough)))),
              )
      ]
    where
      no_keys : (lru : Dict String (Unit {0})) → length lru ≡ 0 → next_idle now s lru ≡ ok none
      no_keys [] h = refl
      no_keys (x ∷ lru) h = absurd (omega (arith, h))
  free_memory_lem (suc fuel) bytes now timing s c enough =
      let unchanged = λ (r : Bool × StoreWriteTiming). returned-Fine r s s c (Follows-refl s) in
      elim (Bool-cases (ltb s.memory_capacity_bytes (s.memory_used_bytes + bytes))) [
        | inr room ↦ rw (room, free_memory) (unchanged _, ground (arith, room))
        | inl over ↦ elim (Bool-cases s.config.evicts_lru) [
          | inr fixed ↦
              subst (Frees bytes now s) (sym (simp (over, fixed, free_memory) refl))
                (unchanged (false, timing), (ground (arith, over), inl fixed))
          | inl lru ↦
              elim (next_idle_lem now s s.memory_lru
                (λ k q. let (o, there, in_mem) = c.queued k q in (o, there))) [
                  | inl nothing ↦
                      subst (Frees bytes now s) (sym (simp (over, lru, nothing, free_memory) refl))
                        (unchanged (false, timing), (ground (arith, over), inr nothing))
                  | inr (k, found, listed) ↦
                      let (fine, less) = evict_memory-Fine k now s c listed in
                      let s' = (evict_memory m k now s).1 in
                      subst (Frees bytes now s) (sym (simp (over, lru, found, free_memory) refl)) (
                        continue-Frees bytes now (evict_memory m k now s).0
                          (λ more. free_memory m fuel bytes now (add timing more)) s s' fine
                          (λ more.
                            free_memory_lem fuel bytes now (add timing more) s' fine.0
                              (omega (arith, less, enough))))
                ]
        ]
      ]

  -- A put of so many bytes: the loop has rounds enough, ends with its accounts in order, and says that
  -- there is room only where the bytes then fit. It refuses only bytes above the capacity, or those for
  -- which every object left is in use or nothing may be evicted.
  pub ensure_memory_capacity_lem :
      (bytes now : ℕ) (s : MooncakeStore)
      → IsAccounted s
      → Frees bytes now s (ensure_memory_capacity m bytes now s)
        ⊎ (ensure_memory_capacity m bytes now s ≡ (ok (false, no_time), s))
          × (s.memory_capacity_bytes < bytes)
  unfolding ensure_memory_capacity
  ensure_memory_capacity_lem bytes now s c = elim (Bool-cases (ltb s.memory_capacity_bytes bytes)) [
    | inl large ↦ inr (rw (large, ensure_memory_capacity) refl, ground (arith, large))
    | inr small ↦ inl (
        rw (small, ensure_memory_capacity)
          (free_memory_lem (length s.memory_lru) bytes now no_time s c (omega arith)))
  ]
