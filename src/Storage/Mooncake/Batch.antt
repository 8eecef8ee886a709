-- ===== src/Storage/Mooncake/Batch.antt =====
-- The batch of `put_with_timing`, which installs many keys at once, and the whole of `put_with_timing`.
use token_sim.Prelude.{
  ℕ, ◌+◌, ◌*◌, ◌≤◌, ◌≡◌, ◌≢◌, refl, sym, ap, ◌∙◌, Bool, true, false, not, ◌&&◌, ◌||◌, Option, none,
  some, List, [], ◌∷◌, ltb, leb, ◌==◌, if◌then◌else◌, nat_eq, String, string_eq, Bool-cases,
  Option-cases, inl, inr, arith, length, subst, All, keep_if, keep_if-in, keep_if-out, take,
}
use token_sim.Prelude.Dict.{
  Dict, get, put, has, total, Distinct, get-put, get-put_self, put-Distinct, total-put_new, has-put,
}
use token_sim.Storage.Offload.{OffloadTier, Media}
use token_sim.Storage.Offload.Capacity.{Apart}
use token_sim.Storage.Mooncake.{
  MooncakeStore, StoreObject, Policy, in_memory, put_object, no_time, touch,
}
use token_sim.Storage.Mooncake.Writes.{
  put_with_timing, install_fresh, touch_all, unique, fresh_keys, put_batch, new_object, limit,
  chosen, is_never, is_empty, offloads, allows_batch,
}
use token_sim.Storage.Mooncake.Accounts.{memory_bytes, Accounts, IsAccounted, touch-IsAccounted}
use token_sim.Storage.Mooncake.Admission.{Kept, no_raise, put_each-Kept}

-- Every key of the list has an object.
abbrev pub Present : List String → MooncakeStore → Type 0
Present ks s = All (λ k. has k s.objects ≡ true) ks

unique-Apart :
    (ks : List String) (seen : Dict String (Unit {0}))
    → Apart (unique ks seen) × All (λ k. has k seen ≡ false) (unique ks seen)
unique-Apart [] seen = (tt, tt)
unique-Apart (k ∷ ks) seen =
    let (apart, new) = unique-Apart ks (put k tt seen) in
    let (apart', new') = unique-Apart ks seen in
    elim (Bool-cases (has k seen)) [
      | inl known ↦ rw known (apart', new')
      | inr fresh ↦ rw fresh (
        (others (unique ks (put k tt seen)) new, apart),
        (fresh, older (unique ks (put k tt seen)) new),
      )
    ]
  where
    others : (js : List String) → All (λ j. has j (put k tt seen) ≡ false) js → All (λ j. j ≢ k) js
    others [] h = tt
    others (j ∷ js) (n, h) = (
      (λ (p : j ≡ k). ground (arith, n, has-put k j tt seen, p, string_eq.eqb_iff k j)),
      others js h,
    )

    older :
        (js : List String)
        → All (λ j. has j (put k tt seen) ≡ false) js
        → All (λ j. has j seen ≡ false) js
    older [] h = tt
    older (j ∷ js) (n, h) = (ground (arith, n, has-put k j tt seen), older js h)

keep_if-Apart : (p : String → Bool) (ks : List String) → Apart ks → Apart (keep_if p ks)
keep_if-Apart p [] a = tt
keep_if-Apart p (k ∷ ks) (others, a) = elim (Bool-cases (p k)) [
  | inl t ↦ rw t (fewer ks others, keep_if-Apart p ks a)
  | inr f ↦ rw f (keep_if-Apart p ks a)
]
  where
    fewer : (js : List String) → All (λ j. j ≢ k) js → All (λ j. j ≢ k) (keep_if p js)
    fewer [] h = tt
    fewer (j ∷ js) (n, h) = elim (Bool-cases (p j)) [
      | inl t ↦ rw t (n, fewer js h)
      | inr f ↦ rw f (fewer js h)
    ]

-- What installing the fresh keys leaves: each takes a block of memory, and no other object changes.
pub record Installed (n : ℕ) (s s' : MooncakeStore) : Type 0 where
  pub distinct : Distinct s'.objects
  pub bytes : total memory_bytes s'.objects ≡ total memory_bytes s.objects + n * s.block_bytes
  pub held : (k : String) (o : StoreObject) → get k s.objects ≡ some o → get k s'.objects ≡ some o
  pub in_mem :
      ((k : String) (o : StoreObject) → get k s.objects ≡ some o → in_memory o.tier ≡ true)
      → (k : String) (o : StoreObject) → get k s'.objects ≡ some o
      → in_memory o.tier ≡ true
  pub same_rest : s' ≡ record s { objects = s'.objects }

install_fresh-Installed :
    (ks : List String) (ready : ℕ) (s : MooncakeStore)
    → Distinct s.objects
    → Apart ks
    → All (λ k. get k s.objects ≡ none) ks
    → Installed (length ks) s (install_fresh ks ready s) × Present ks (install_fresh ks ready s)
unfolding install_fresh
install_fresh-Installed [] ready s d apart absent = (
  record {
    distinct = d;
    bytes = omega arith;
    held = λ k o h. h;
    in_mem = λ h. h;
    same_rest = refl;
  },
  tt,
)
install_fresh-Installed (k ∷ ks) ready s d (others, apart) (new, absent) =
    let o = new_object k ready s in
    let s' = put_object k o s in
    let (rest, present) =
      install_fresh-Installed ks ready s' (put-Distinct k o s.objects d) apart
        (still ks others absent) in
    (
      record {
        distinct = rest.distinct;
        bytes = grind (arith, rest.bytes, total-put_new memory_bytes k o s.objects new);
        held = λ j p h. rest.held j p (
            ground (
              arith,
              get-put k j o s.objects,
              new,
              h,
              string_eq.eqb_iff k j,
              ap (λ i. get i s.objects),
            ));
        in_mem = λ all. rest.in_mem (λ j p g. elim (Bool-cases (k == j)) [
          | inl here ↦
              (let e : p ≡ o = ground (arith, get-put k j o s.objects, here, g) in
                ap (λ x. in_memory x.tier) e)
          | inr other ↦ all j p (ground (arith, get-put k j o s.objects, other, g))
        ]);
        same_rest = rest.same_rest;
      },
      (ground (arith, rest.held k o (get-put_self k o s.objects)), present),
    )
  where
    still :
        (js : List String)
        → All (λ j. j ≢ k) js
        → All (λ j. get j s.objects ≡ none) js
        → All (λ j. get j (put k (new_object k ready s) s.objects) ≡ none) js
    still [] n h = tt
    still (j ∷ js) (n, ns) (h, hs) = (
      ground (arith, get-put k j (new_object k ready s) s.objects, h, n, string_eq.eqb_iff k j),
      still js ns hs,
    )

-- A key joins the queue where its object is in memory.
enqueue-IsAccounted :
    (k : String) (o : StoreObject) (s : MooncakeStore)
    → IsAccounted s
    → get k s.objects ≡ some o
    → in_memory o.tier ≡ true
    → IsAccounted (record s {
      memory_lru = if has k s.memory_lru then s.memory_lru else put k tt s.memory_lru;
    })
enqueue-IsAccounted k o s c there in_mem = elim (Bool-cases (has k s.memory_lru)) [
  | inl listed ↦ rw listed c
  | inr new ↦ rw new (record {
    objects_distinct = c.objects_distinct;
    lru_distinct = put-Distinct k tt s.memory_lru c.lru_distinct;
    counted = c.counted;
    within = c.within;
    queued = λ j q. elim (Bool-cases (k == j)) [
      | inl here ↦
          (o, sym (ap (λ i. get i s.objects) ((string_eq.eqb_iff k j).0 here)) ∙ there, in_mem)
      | inr other ↦ c.queued j (ground (arith, has-put k j tt s.memory_lru, other, q))
    ];
    offload_within = c.offload_within;
    alone = c.alone;
  })
]

touch_all-IsAccounted :
    (ks : List String) (s : MooncakeStore)
    → IsAccounted s
    → s.offload ≡ none
    → Present ks s
    → IsAccounted (touch_all ks s)
unfolding touch_all touch
touch_all-IsAccounted [] s c alone p = c
touch_all-IsAccounted (k ∷ ks) s c alone (here, p) = elim (Option-cases (get k s.objects)) [
  | inl gone ↦ absurd (ground (arith, here, gone))
  | inr (o, there) ↦
      let listed : MooncakeStore = record s {
        memory_lru = if has k s.memory_lru then s.memory_lru else put k tt s.memory_lru;
      } in
      let c' : IsAccounted (touch k o listed) =
        touch-IsAccounted k o listed (enqueue-IsAccounted k o s c there (c.alone alone k o there))
          there in
      rw (there, touch_all) (touch_all-IsAccounted ks (touch k o listed) c' alone (still o ks p))
]
  where
    still :
        (o : StoreObject) (js : List String)
        → Present js s
        → All
            (λ j. has j (put k (record o { last_access = s.access_counter + 1 }) s.objects) ≡ true)
            js
    still o [] p = tt
    still o (j ∷ js) (h, p) = (
      ground (arith, has-put k j (record o { last_access = s.access_counter + 1 }) s.objects, h),
      still o js p,
    )

fresh_keys-new :
    (k : String) (ks : List String) (s : MooncakeStore)
    → get k s.objects ≡ none
    → fresh_keys (k ∷ ks) s ≡ k ∷ fresh_keys ks s
fresh_keys-new k ks s new = keep_if-in (λ j. not (has j s.objects)) k ks (ground (arith, new))

fresh_keys-old :
    (k : String) (o : StoreObject) (ks : List String) (s : MooncakeStore)
    → get k s.objects ≡ some o
    → fresh_keys (k ∷ ks) s ≡ fresh_keys ks s
fresh_keys-old k o ks s old = keep_if-out (λ j. not (has j s.objects)) k ks (ground (arith, old))

-- Every selected key has an object once the fresh ones are installed.
selected-Present :
    (selected : List String) (s s' : MooncakeStore)
    → ((k : String) (o : StoreObject) → get k s.objects ≡ some o → get k s'.objects ≡ some o)
    → Present (fresh_keys selected s) s'
    → Present selected s'
selected-Present [] s s' held p = tt
selected-Present (k ∷ ks) s s' held p = elim (Option-cases (get k s.objects)) [
  | inl new ↦
      (let (here, rest) : Present (k ∷ fresh_keys ks s) s' =
          subst (λ js. Present js s') (fresh_keys-new k ks s new) p in
        (here, selected-Present ks s s' held rest))
  | inr (o, old) ↦
      (let rest : Present (fresh_keys ks s) s' =
          subst (λ js. Present js s') (fresh_keys-old k o ks s old) p in
        (ground (arith, held k o old), selected-Present ks s s' held rest))
]

fresh_keys-absent :
    (selected : List String) (s : MooncakeStore)
    → All (λ k. get k s.objects ≡ none) (fresh_keys selected s)
fresh_keys-absent [] s = tt
fresh_keys-absent (k ∷ ks) s = elim (Option-cases (get k s.objects)) [
  | inl new ↦
      subst (All (λ k. get k s.objects ≡ none)) (sym (fresh_keys-new k ks s new))
        (new, fresh_keys-absent ks s)
  | inr (o, old) ↦
      subst (All (λ k. get k s.objects ≡ none)) (sym (fresh_keys-old k o ks s old))
        (fresh_keys-absent ks s)
]

-- A batch that has room and no tier below it.
put_batch-IsAccounted :
    (ks : List String) (ready : ℕ) (s : MooncakeStore)
    → IsAccounted s
    → s.offload ≡ none
    → (let fresh = fresh_keys (unique ks []) s in
        s.memory_used_bytes + length fresh * s.block_bytes ≤ s.memory_capacity_bytes
        → IsAccounted (put_batch (unique ks []) fresh ready s))
put_batch-IsAccounted ks ready s c alone room =
    let selected = unique ks [] in
    let fresh = fresh_keys selected s in
    let s' = install_fresh fresh ready s in
    let (done, present) =
      install_fresh-Installed fresh ready s c.objects_distinct
        (keep_if-Apart _ selected (unique-Apart ks []).0) (fresh_keys-absent selected s) in
    let c' : Accounts s'.objects s.memory_lru (s.memory_used_bytes + length fresh * s.block_bytes)
        s.memory_capacity_bytes s.offload =
      record {
        objects_distinct = done.distinct;
        lru_distinct = c.lru_distinct;
        counted = omega (arith, c.counted, done.bytes);
        within = room;
        queued = λ k q. let (o, g, in_mem) = c.queued k q in (o, done.held k o g, in_mem);
        offload_within = c.offload_within;
        alone = λ n. done.in_mem (c.alone n);
      } in
    touch_all-IsAccounted selected
      (record s' { memory_used_bytes = s'.memory_used_bytes + length fresh * s.block_bytes })
      (subst
        (λ (x : MooncakeStore).
          Accounts s'.objects x.memory_lru (x.memory_used_bytes + length fresh * s.block_bytes)
            x.memory_capacity_bytes x.offload)
        (sym done.same_rest) c')
      (ap (λ (x : MooncakeStore). x.offload) done.same_rest ∙ alone)
      (selected-Present selected s s' done.held present)

offloads-none : (t : Option OffloadTier) → offloads t ≡ false → t ≡ none
offloads-none none h = refl
offloads-none (some t) h = absurd (ground (arith, h))

module _ (m : Media) where
  -- A put of any keys under any policy keeps the accounts, whether it refuses them, installs them as one
  -- batch or puts them one after the other, and raises only what the offload tier raises.
  pub put_with_timing-Kept :
      (keys : List String) (blocks : Option ℕ) (now initial_delay : ℕ) (policy : Option Policy)
      (s : MooncakeStore)
      → IsAccounted s
      → Kept (put_with_timing m keys blocks now initial_delay policy s)
  unfolding put_with_timing
  put_with_timing-Kept keys blocks now initial_delay policy s c =
      let n = limit keys blocks in
      let counted : MooncakeStore = record s {
        stats = record s.stats { put_count = s.stats.put_count + 1 };
      } in
      let fresh = fresh_keys (unique (take n keys) []) s in
      let batch =
        not (offloads s.offload)
        && ltb 64 n
        && allows_batch n s
        && leb (s.memory_used_bytes + length fresh * s.block_bytes) s.memory_capacity_bytes in
      elim (Bool-cases (is_never (chosen policy s) || is_empty keys)) [
        | inl refuses ↦ rw refuses (c, no_raise)
        | inr admits ↦ elim (Bool-cases batch) [
          | inl fits ↦
              rw (admits, fits)
                (
                  put_batch-IsAccounted (take n keys) (now + initial_delay) counted c
                      (ground (arith, fits, offloads-none s.offload)) (ground (arith, fits)),
                  no_raise,
                )
          | inr small ↦
              rw (admits, small) (put_each-Kept m (take n keys) now initial_delay no_time counted c)
        ]
      ]
