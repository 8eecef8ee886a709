-- ===== src/Storage/PageStore/Room.antt =====
-- When `reserve_write` refuses a page.
use token_sim.Prelude.{
  ℕ, zero, suc, ◌+◌, ◌≤◌, ◌<◌, ◌≡◌, refl, sym, ap, ◌∙◌, true, false, Option, none, some, [], ◌∷◌,
  ltb, ◌==◌, ==_refl, if◌then◌else◌, Eq, nat_eq, length, Bool-cases, Option-cases, inl, inr, ◌⊎◌,
  arith, subst,
}
use token_sim.Prelude.Dict.{
  Dict, get, get-put_self, has, has-cons, total, Distinct, total-remove, length-remove,
}
use token_sim.Errors.{ok, raise, configuration_error}
use token_sim.Storage.PageStore.{
  StoredPage, NativePageStore, state_of, allocation_bytes, is_unpinned, first_unpinned, evict,
  make_room, store_page, reserve_write, insert_page,
}
use token_sim.Storage.PageStore.Conservation.{IsConserved, evict-IsConserved}

module _ {ℓ} {K : Type ℓ} ⦃e : Eq K⦄ where
  -- The bytes of the pages that a transfer holds.
  abbrev pub pinned_bytes : NativePageStore K → ℕ
  pinned_bytes s = total (λ p. if (state_of s p).references == 0 then 0 else p.bytes) s.pages

  -- Every page of the part of `lru` is pinned.
  none_unpinned :
      (s : NativePageStore K) (lru : Dict K (Unit {0}))
      → first_unpinned s lru ≡ none
      → (k : K) → has k lru ≡ true
      → is_unpinned s k ≡ false
  unfolding get
  none_unpinned s [] h k m = absurd (cc m)
  none_unpinned s ((j, u) ∷ lru) h k m = elim (Bool-cases (is_unpinned s j)) [
    | inl t ↦ absurd (ground (arith, t, h))
    | inr f ↦ elim (Bool-cases (j == k)) [
      | inl same ↦ ap (is_unpinned s) (sym ((e.eqb_iff j k).0 same)) ∙ f
      | inr other ↦
          none_unpinned s lru (ground (arith, f, h)) k
            (sym (has-cons k j u lru ∙ rw other refl) ∙ m)
    ]
  ]

  first_unpinned_lem :
      (s : NativePageStore K) (lru : Dict K (Unit {0})) (k : K)
      → first_unpinned s lru ≡ some k
      → (p : StoredPage K) × (get k s.pages ≡ some p) × ((state_of s p).references ≡ 0)
  first_unpinned_lem s [] k h = absurd (cc h)
  first_unpinned_lem s ((j, u) ∷ lru) k h = elim (Bool-cases (is_unpinned s j)) [
    | inl t ↦
        let same : j ≡ k = ground (arith, t, h) in
        elim (Option-cases (get k s.pages)) [
          | inl gone ↦ absurd (ground (arith, ap (is_unpinned s) same, t, gone))
          | inr (p, there) ↦ (p, there, ground (arith, ap (is_unpinned s) same, t, there))
        ]
    | inr f ↦ first_unpinned_lem s lru k (ground (arith, f, h))
  ]

  all_pinned :
      (s : NativePageStore K) (d : Dict K (StoredPage K))
      → Distinct d
      → ((k : K) (p : StoredPage K) → get k d ≡ some p → 0 < (state_of s p).references)
      → total (λ p. if (state_of s p).references == 0 then 0 else p.bytes) d
        ≡ total (λ p. p.bytes) d
  unfolding get
  all_pinned s [] h held = refl
  all_pinned s ((k, p) ∷ d) h held =
      let here = held k p (rw (==_refl k) refl) in
      let rest = all_pinned s d h.1 (λ j q g. held j q (elim (Bool-cases (k == j)) [
        | inl t ↦ absurd (ground (arith, g, h.0, (e.eqb_iff k j).0 t, ap (λ (x : K). get x d)))
        | inr f ↦ rw f g
      ])) in
      ground (arith, here, rest)

  evict_pinned :
      (s : NativePageStore K) (k : K) (p : StoredPage K)
      → IsConserved s
      → get k s.pages ≡ some p
      → (state_of s p).references ≡ 0
      → (pinned_bytes (evict k s) ≡ pinned_bytes s)
        × (length (evict k s).pages + 1 ≡ length s.pages)
        × ((evict k s).capacity_bytes ≡ s.capacity_bytes)
  unfolding evict
  evict_pinned s k p c there idle =
      let fewer =
        total-remove (λ q. if (state_of s q).references == 0 then 0 else q.bytes) k p s.pages
          there in
      rw (there, evict) (ground (arith, fewer, idle), length-remove k p s.pages there, refl)

  no_room :
      (fuel size : ℕ) (s : NativePageStore K)
      → IsConserved s
      → length s.pages ≤ fuel
      → size ≤ s.capacity_bytes
      → (make_room fuel size s).0 ≡ false
      → s.capacity_bytes < pinned_bytes s + size
  unfolding make_room
  no_room zero size s c enough fits h =
      absurd (empty_room s.pages c.counted (omega (arith, enough)))
    where
      empty_room :
          (d : Dict K (StoredPage K)) → s.used_bytes ≡ total (λ p. p.bytes) d → length d ≡ 0 → ⊥
      empty_room [] counted none_left = ground (arith, h, counted, fits)
      empty_room (x ∷ d) counted none_left = omega (arith, none_left)
  no_room (suc fuel) size s c enough fits h =
      elim (Bool-cases (ltb s.capacity_bytes (s.used_bytes + size))) [
        | inr room ↦ absurd (ground (arith, room, h))
        | inl over ↦ elim (Option-cases (first_unpinned s s.lru)) [
          | inl none_left ↦
              let same = all_pinned s s.pages c.pages_distinct (pinned c none_left) in
              ground (arith, over, c.counted, same)
          | inr (k, found) ↦
              let (p, there, idle) = first_unpinned_lem s s.lru k found in
              let (same, fewer, capacity) = evict_pinned s k p c there idle in
              let more =
                no_room fuel size (evict k s) (evict-IsConserved k s c)
                  (omega (arith, fewer, enough)) (omega (arith, capacity, fits))
                  (sym (rw (over, found, make_room) refl) ∙ h) in
              omega (arith, more, same, capacity)
        ]
      ]
    where
      pinned :
          IsConserved s
          → first_unpinned s s.lru ≡ none
          → (k : K) (p : StoredPage K) → get k s.pages ≡ some p
          → 0 < (state_of s p).references
      pinned c none_left k p g =
          let listed : has k s.lru ≡ true = c.same_keys k ∙ ground (arith, g) in
          ground (arith, none_unpinned s s.lru none_left k listed, g)

  -- What holds of a page in the store after its reservation.
  abbrev pub Reserved : K → ℕ → StoredPage K → NativePageStore K → Type ℓ
  Reserved k size p s =
      (get k s.pages ≡ some p)
      × (p.bytes ≡ size)
      × ((state_of s p).references ≡ 1)
      × ((state_of s p).ready ≡ false)

  inserted :
      (k : K) (size : ℕ) (s : NativePageStore K) (p : StoredPage K)
      → (insert_page k size s).0 ≡ p
      → Reserved k size p (insert_page k size s).1
  unfolding insert_page
  inserted k size s p same =
      let page : StoredPage K = record { key = k; bytes = size; ident = s.next } in
      subst (λ q. Reserved k size q (insert_page k size s).1) same
        (get-put_self k page s.pages, refl, ground arith, ground arith)

  store_page_lem :
      (k : K) (payload : ℕ) (s : NativePageStore K)
      → IsConserved s
      → let (result, s') = store_page k payload s in
        let size = allocation_bytes s payload in
        (result ≡ none → (has k s.pages ≡ true) ⊎ (s.capacity_bytes < pinned_bytes s + size))
        × ((p : StoredPage K) → result ≡ some p → Reserved k size p s')
  unfolding store_page insert_page
  store_page_lem k payload s c =
      let size = allocation_bytes s payload in
      let made = make_room (length s.pages) size s in
      elim (Bool-cases (has k s.pages)) [
        | inl t ↦ rw t (λ _. inl refl, λ p h. absurd (cc h))
        | inr new ↦ elim (Bool-cases (ltb s.capacity_bytes size)) [
          | inl t ↦ rw (new, t) (λ _. inr (ground (arith, t)), λ p h. absurd (cc h))
          | inr small ↦ elim (Bool-cases made.0) [
            | inr full ↦
                rw (new, small, full)
                  (
                    λ _. inr (
                        no_room (length s.pages) size s c (omega arith) (ground (arith, small))
                          full),
                    λ p h. absurd (cc h),
                  )
            | inl room ↦
                rw (new, small, room)
                  (λ h. absurd (cc h), λ p h. inserted k size made.1 p (ground (arith, h)))
          ]
        ]
      ]

  -- A payload of no bytes raises ConfigurationError with no effect. Any other returns: with no page only where
  -- the key has a page already, or the page would not fit the budget beside the pages that transfers
  -- hold; a page it returns is then the one stored under the key, pinned once and not ready.
  pub reserve_write_lem :
      (k : K) (payload : ℕ) (s : NativePageStore K)
      → IsConserved s
      → let (answer, s') = reserve_write k payload s in
        let size = allocation_bytes s payload in
        (payload ≡ 0 → (answer ≡ raise configuration_error) × (s' ≡ s))
        × (0 < payload
            → (result : Option (StoredPage K)) × (answer ≡ ok result)
              × (result ≡ none
                  → (has k s.pages ≡ true) ⊎ (s.capacity_bytes < pinned_bytes s + size))
              × ((p : StoredPage K) → result ≡ some p → Reserved k size p s'))
  unfolding reserve_write
  reserve_write_lem k payload s c = elim (Bool-cases (payload == 0)) [
    | inl t ↦ rw t ((λ _. (refl, refl)), λ pos. absurd (ground (arith, t, pos)))
    | inr f ↦
        let (refused, taken) = store_page_lem k payload s c in
        rw f (
          (λ zero_bytes. absurd (ground (arith, f, zero_bytes))),
          λ pos. ((store_page k payload s).0, refl, refused, taken),
        )
  ]
