-- ===== src/Storage/PageStore/Run.antt =====
-- Runs of calls on a page store, and that `validate` accepts every store they reach.
use token_sim.Prelude.{
  ℕ, ◌≡◌, refl, sym, ◌∙◌, subst, nat_eq, ◌||◌, true, Option, [], ◌∷◌, Eq, ◌==◌, ==_refl, arith,
  Bool-cases, inl, inr,
}
use token_sim.Prelude.Dict.{Dict, get, has, has-cons}
use token_sim.Errors.{ok}
use token_sim.Storage.PageStore
use token_sim.Storage.PageStore.{
  StoredPage, NativePageStore, is_zero, fresh_store, new_store, validate, keys_in,
}
use token_sim.Storage.PageStore.Conservation.{
  IsConserved, fresh_store-IsConserved, lookup-IsConserved, reserve_write-IsConserved,
  finish_write-IsConserved, acquire-IsConserved, release-IsConserved,
}

-- One call of a method that changes the store, with any arguments and whatever it returns or raises.
pub data Call {ℓ} {K : Type ℓ} ⦃e : Eq K⦄ (s : NativePageStore K) : NativePageStore K → Type ℓ where
  looks_up : (k : K) → Call s (PageStore.lookup k s).1
  reserves : (k : K) (payload : ℕ) → Call s (PageStore.reserve_write k payload s).1
  finishes : (p : StoredPage K) → Call s (PageStore.finish_write p s).1
  acquires : (p : StoredPage K) → Call s (PageStore.acquire p s).1
  releases : (p : StoredPage K) → Call s (PageStore.release p s).1

pub data Reaches {ℓ} {K : Type ℓ} ⦃e : Eq K⦄ (s : NativePageStore K)
    : NativePageStore K → Type ℓ where
  start : Reaches s s
  after : {t u : NativePageStore K} → Reaches s t → Call t u → Reaches s u

module _ {ℓ} {K : Type ℓ} ⦃e : Eq K⦄ where
  Call-IsConserved : {s t : NativePageStore K} → Call s t → IsConserved s → IsConserved t
  Call-IsConserved (looks_up k) c = lookup-IsConserved k _ c
  Call-IsConserved (reserves k payload) c = reserve_write-IsConserved k payload _ c
  Call-IsConserved (finishes p) c = finish_write-IsConserved p _ c
  Call-IsConserved (acquires p) c = acquire-IsConserved p _ c
  Call-IsConserved (releases p) c = release-IsConserved p _ c

  pub Reaches-IsConserved : {s t : NativePageStore K} → Reaches s t → IsConserved s → IsConserved t
  Reaches-IsConserved start c = c
  Reaches-IsConserved (after r step) c = Call-IsConserved step (Reaches-IsConserved r c)

  keys_in_of {κ μ} :
      {V : Type κ} {W : Type μ} (c : Dict K V) (d : Dict K W)
      → ((k : K) → has k c ≡ true → has k d ≡ true)
      → keys_in c d ≡ true
  unfolding get
  keys_in_of [] d h = refl
  keys_in_of ((k, v) ∷ c) d h =
      let here : has k d ≡ true = h k (rw (has-cons k k v c, ==_refl k) refl) in
      let rest = keys_in_of c d (λ j m. h j (
        rw (has-cons j k v c)
          (elim (Bool-cases (k == j)) [ inl t ↦ rw t refl | inr f ↦ rw f m ]))) in
      rw (here, rest) refl

  validate_lem : (s : NativePageStore K) → IsConserved s → validate s ≡ ok true
  unfolding validate
  validate_lem s c =
      let there = keys_in_of s.pages s.lru (λ k h. c.same_keys k ∙ h) in
      let back = keys_in_of s.lru s.pages (λ k h. sym (c.same_keys k) ∙ h) in
      ground (arith, c.counted, c.within, there, back)

  new_store-fresh :
      (capacity : ℕ) (unit : Option ℕ) (s : NativePageStore K)
      → new_store capacity unit ≡ ok s
      → fresh_store capacity unit ≡ s
  unfolding new_store
  new_store-fresh capacity unit s h = elim (Bool-cases (capacity == 0 || is_zero unit)) [
    | inl bad ↦ absurd (ground (arith, rw bad at h))
    | inr good ↦ ground (arith, rw good at h)
  ]

  -- After any run of calls on a store that the constructor makes, `validate` finds the bytes, the budget and
  -- the keys in order.
  pub Reaches-validate :
      (capacity : ℕ) (unit : Option ℕ) (first s : NativePageStore K)
      → new_store capacity unit ≡ ok first
      → Reaches first s
      → validate s ≡ ok true
  Reaches-validate capacity unit first s made r = validate_lem s (
      Reaches-IsConserved r (
        subst IsConserved (new_store-fresh capacity unit first made)
          (fresh_store-IsConserved capacity unit)))
