-- ===== src/Storage/PageStore/Conservation.antt =====
-- What every method of a page store keeps: the bytes, the budget and the keys.
use token_sim.Prelude.{
  ℕ, zero, suc, ◌+◌, ◌≤◌, ◌≡◌, refl, ap, ◌∙◌, true, false, Option, none, ltb, ◌==◌, Eq, nat_eq,
  length, Bool-cases, Option-cases, inl, inr, arith,
}
use token_sim.Prelude.Dict.{
  Dict, get, remove, has, total, Distinct, has-put, has-remove, put-Distinct, remove-Distinct,
  total-put_new, total-remove,
}
use token_sim.Storage.PageStore.{
  StoredPage, PageState, NativePageStore, state_of, write_page, fresh_store, allocation_bytes,
  release, touch, is_resident, lookup, first_unpinned, evict, make_room, insert_page, store_page,
  reserve_write, finish_write, acquire,
}

-- The bytes in use are those of the pages and fit the budget; `lru` has the keys of `pages`.
pub record IsConserved {ℓ} {K : Type ℓ} ⦃e : Eq K⦄ (s : NativePageStore K) : Type ℓ where
  pub pages_distinct : Distinct s.pages
  pub lru_distinct : Distinct s.lru
  pub same_keys : (k : K) → has k s.lru ≡ has k s.pages
  pub counted : s.used_bytes ≡ total (λ p. p.bytes) s.pages
  pub within : s.used_bytes ≤ s.capacity_bytes

module _ {ℓ} {K : Type ℓ} ⦃e : Eq K⦄ where
  pub fresh_store-IsConserved :
      (capacity : ℕ) (unit : Option ℕ) → IsConserved (fresh_store {K = K} capacity unit)
  unfolding get
  fresh_store-IsConserved capacity unit = record {
    pages_distinct = tt;
    lru_distinct = tt;
    same_keys = λ k. refl;
    counted = refl;
    within = omega arith;
  }

  absent_get : (k : K) (d : Dict K (StoredPage K)) → has k d ≡ false → get k d ≡ none
  absent_get k d h = ground (arith, h)

  resident_has :
      (p : StoredPage K) (s : NativePageStore K) → is_resident p s ≡ true → has p.key s.pages ≡ true
  resident_has p s h = ground (arith, h)

  pub touch-IsConserved :
      (k : K) (s : NativePageStore K)
      → has k s.pages ≡ true
      → IsConserved s
      → IsConserved (touch k s)
  touch-IsConserved k s there c = record {
    pages_distinct = c.pages_distinct;
    lru_distinct = put-Distinct k tt (remove k s.lru) (remove-Distinct k s.lru c.lru_distinct);
    same_keys = λ j. ground (
      arith,
      has-put k j tt (remove k s.lru),
      has-remove k j s.lru c.lru_distinct,
      c.same_keys j,
      c.same_keys k,
      e.eqb_iff k j,
      ap (λ (x : K). has x s.pages),
    );
    counted = c.counted;
    within = c.within;
  }

  pub write_page-IsConserved :
      (p : StoredPage K) (v : PageState) (s : NativePageStore K)
      → IsConserved s
      → IsConserved (write_page s p v)
  write_page-IsConserved p v s c = record {
    pages_distinct = c.pages_distinct;
    lru_distinct = c.lru_distinct;
    same_keys = c.same_keys;
    counted = c.counted;
    within = c.within;
  }

  pub evict-IsConserved : (k : K) (s : NativePageStore K) → IsConserved s → IsConserved (evict k s)
  unfolding evict
  evict-IsConserved k s c = elim (Option-cases (get k s.pages)) [
    | inl e ↦ rw (e, evict) c
    | inr (old, e) ↦
        let fewer = total-remove (λ p. p.bytes) k old s.pages e in
        rw (e, evict)
          (record {
            pages_distinct = remove-Distinct k s.pages c.pages_distinct;
            lru_distinct = remove-Distinct k s.lru c.lru_distinct;
            same_keys = λ j. ground (
              arith,
              has-remove k j s.lru c.lru_distinct,
              has-remove k j s.pages c.pages_distinct,
              c.same_keys j,
            );
            counted = omega (arith, c.counted, fewer);
            within = omega (arith, c.within);
          })
  ]

  evict_capacity : (k : K) (s : NativePageStore K) → (evict k s).capacity_bytes ≡ s.capacity_bytes
  unfolding evict
  evict_capacity k s = ground arith

  evict_absent :
      (k j : K) (s : NativePageStore K)
      → IsConserved s
      → has j s.pages ≡ false
      → has j (evict k s).pages ≡ false
  unfolding evict
  evict_absent k j s c h = ground (arith, h, has-remove k j s.pages c.pages_distinct)

  -- Room, where it is found, and what the loop leaves of the other fields.
  pub make_room-IsConserved :
      (fuel size : ℕ) (s : NativePageStore K)
      → IsConserved s
      → let (room, s') = make_room fuel size s in
        IsConserved s'
        × (s'.capacity_bytes ≡ s.capacity_bytes)
        × (room ≡ true → s'.used_bytes + size ≤ s'.capacity_bytes)
  unfolding make_room
  make_room-IsConserved zero size s c = (c, refl, λ room. ground (arith, room))
  make_room-IsConserved (suc fuel) size s c =
      elim (Bool-cases (ltb s.capacity_bytes (s.used_bytes + size))) [
        | inr fits ↦ rw (fits, make_room) (c, refl, λ _. ground (arith, fits))
        | inl over ↦ elim (Option-cases (first_unpinned s s.lru)) [
          | inl e ↦ rw (over, e, make_room) (c, refl, λ h. absurd (cc h))
          | inr (k, e) ↦
              let (d, same, room) =
                make_room-IsConserved fuel size (evict k s) (evict-IsConserved k s c) in
              rw (over, e, make_room) (d, same ∙ evict_capacity k s, room)
        ]
      ]

  make_room_absent :
      (fuel size : ℕ) (s : NativePageStore K) (k : K)
      → IsConserved s
      → has k s.pages ≡ false
      → has k (make_room fuel size s).1.pages ≡ false
  unfolding make_room
  make_room_absent zero size s k c h = h
  make_room_absent (suc fuel) size s k c h =
      elim (Bool-cases (ltb s.capacity_bytes (s.used_bytes + size))) [
        | inr fits ↦ rw (fits, make_room) h
        | inl over ↦ elim (Option-cases (first_unpinned s s.lru)) [
          | inl e ↦ rw (over, e, make_room) h
          | inr (j, e) ↦
              rw (over, e, make_room)
                (make_room_absent fuel size (evict j s) k (evict-IsConserved j s c)
                  (evict_absent j k s c h))
        ]
      ]

  pub insert_page-IsConserved :
      (k : K) (size : ℕ) (s : NativePageStore K)
      → get k s.pages ≡ none
      → s.used_bytes + size ≤ s.capacity_bytes
      → IsConserved s
      → IsConserved (insert_page k size s).1
  unfolding insert_page
  insert_page-IsConserved k size s new fits c =
      let page : StoredPage K = record { key = k; bytes = size; ident = s.next } in
      record {
        pages_distinct = put-Distinct k page s.pages c.pages_distinct;
        lru_distinct = put-Distinct k tt s.lru c.lru_distinct;
        same_keys =
            λ j. ground (arith, has-put k j tt s.lru, has-put k j page s.pages, c.same_keys j);
        counted = omega (arith, c.counted, total-put_new (λ p. p.bytes) k page s.pages new);
        within = fits;
      }

  pub store_page-IsConserved :
      (k : K) (payload : ℕ) (s : NativePageStore K)
      → IsConserved s
      → IsConserved (store_page k payload s).1
  unfolding store_page
  store_page-IsConserved k payload s c =
      let size = allocation_bytes s payload in
      let (d, same, fits) = make_room-IsConserved (length s.pages) size s c in
      let made = make_room (length s.pages) size s in
      elim (Bool-cases (has k s.pages)) [
        | inl t ↦ rw t c
        | inr new ↦ elim (Bool-cases (ltb s.capacity_bytes size)) [
          | inl t ↦ rw (new, t) c
          | inr small ↦ elim (Bool-cases made.0) [
            | inr full ↦ rw (new, small, full) d
            | inl room ↦
                rw (new, small, room)
                  (insert_page-IsConserved k size made.1
                    (absent_get k made.1.pages (make_room_absent (length s.pages) size s k c new))
                    (fits room) d)
          ]
        ]
      ]

  pub reserve_write-IsConserved :
      (k : K) (payload : ℕ) (s : NativePageStore K)
      → IsConserved s
      → IsConserved (reserve_write k payload s).1
  unfolding reserve_write
  reserve_write-IsConserved k payload s c = elim (Bool-cases (payload == 0)) [
    | inl t ↦ rw t c
    | inr f ↦ rw f (store_page-IsConserved k payload s c)
  ]

  pub release-IsConserved :
      (p : StoredPage K) (s : NativePageStore K) → IsConserved s → IsConserved (release p s).1
  unfolding release
  release-IsConserved p s c = elim (Bool-cases ((state_of s p).references == 0)) [
    | inl t ↦ rw t c
    | inr f ↦ rw f (write_page-IsConserved p _ s c)
  ]

  pub finish_write-IsConserved :
      (p : StoredPage K) (s : NativePageStore K) → IsConserved s → IsConserved (finish_write p s).1
  unfolding finish_write
  finish_write-IsConserved p s c = elim (Bool-cases (is_resident p s)) [
    | inl t ↦ rw t (release-IsConserved p _ (write_page-IsConserved p _ s c))
    | inr f ↦ rw f c
  ]

  pub acquire-IsConserved :
      (p : StoredPage K) (s : NativePageStore K) → IsConserved s → IsConserved (acquire p s).1
  unfolding acquire
  acquire-IsConserved p s c = elim (Bool-cases (is_resident p s)) [
    | inr f ↦ rw f c
    | inl t ↦ elim (Bool-cases (state_of s p).ready) [
      | inr f ↦ rw (t, f) c
      | inl r ↦
          rw (t, r)
            (touch-IsConserved p.key _ (resident_has p s t) (write_page-IsConserved p _ s c))
    ]
  ]

  pub lookup-IsConserved :
      (k : K) (s : NativePageStore K) → IsConserved s → IsConserved (lookup k s).1
  unfolding lookup
  lookup-IsConserved k s c = elim (Option-cases (get k s.pages)) [
    | inl e ↦ rw (e, lookup) c
    | inr (p, e) ↦ elim (Bool-cases (state_of s p).ready) [
      | inr f ↦ rw (e, f, lookup) c
      | inl t ↦ rw (e, t, lookup) (touch-IsConserved k s (rw (e, has) refl) c)
    ]
  ]
