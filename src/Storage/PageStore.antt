-- ===== src/Storage/PageStore.antt =====
-- `NativePageStore` of TokenSim/kv_transfer/native_storage.py: pages of external storage under one byte
-- budget, pinned while a transfer reads or writes them. A `StoredPage` is shared by reference: its key and
-- its size never change, and its references and readiness are cells found by its identity.
-- The keys of `lru` are those of `pages`; `peak_used_bytes`, which only reports read, is left out.
pub mod Conservation
pub mod Room
pub mod Run
use token_sim.Prelude.{
  ℕ, zero, suc, ◌+◌, ◌-◌, Bool, true, false, not, ◌&&◌, ◌||◌, Option, none, some, List, [], ◌∷◌,
  ltb, ◌==◌, if◌then◌else◌, Eq, nat_eq, length,
}
use token_sim.Prelude.Dict.{Dict, get, put, remove, has, total}
use token_sim.Errors.{Outcome, ok, raise, configuration_error, simulation_state_error}

pub record StoredPage {ℓ} (K : Type ℓ) : Type ℓ where
  pub key : K
  pub bytes : ℕ
  pub ident : ℕ

pub record PageState : Type 0 where
  pub references : ℕ
  pub ready : Bool

pub record NativePageStore {ℓ} (K : Type ℓ) : Type ℓ where
  pub capacity_bytes : ℕ
  pub allocation_unit : Option ℕ
  pub pages : Dict K (StoredPage K)
  pub lru : Dict K (Unit {0})
  pub used_bytes : ℕ
  pub evictions : ℕ
  -- The page objects, and the identity of the next one.
  pub cell : ℕ → PageState
  pub next : ℕ

-- A unit that is given, and is 0.
abbrev pub is_zero : Option ℕ → Bool
is_zero none = false
is_zero (some unit) = unit == 0

module _ {ℓ} {K : Type ℓ} where
  abbrev pub state_of : NativePageStore K → StoredPage K → PageState
  state_of s p = s.cell p.ident

  abbrev pub write_page : NativePageStore K → StoredPage K → PageState → NativePageStore K
  write_page s p v = record s { cell = λ i. if i == p.ident then v else s.cell i }

  -- The fields that the constructor writes.
  abbrev pub fresh_store : ℕ → Option ℕ → NativePageStore K
  fresh_store capacity unit = record {
    capacity_bytes = capacity;
    allocation_unit = unit;
    pages = [];
    lru = [];
    used_bytes = 0;
    evictions = 0;
    cell = λ _. record { references = 0; ready = false };
    next = 0;
  }

  -- `NativePageStore(capacity_bytes, allocation_unit=unit)`: both are at least 1 where they are given.
  unfoldable pub new_store : ℕ → Option ℕ → Outcome (NativePageStore K)
  new_store capacity unit =
      if capacity == 0 || is_zero unit
      then raise configuration_error
      else ok (fresh_store capacity unit)

  abbrev pub allocation_bytes : NativePageStore K → ℕ → ℕ
  allocation_bytes s payload = elim s.allocation_unit [ none ↦ payload | some unit ↦ unit ]

  unfoldable pub release : StoredPage K → NativePageStore K → Outcome (Unit {0}) × NativePageStore K
  release p s =
      let st = state_of s p in
      if st.references == 0
      then (raise simulation_state_error, s)
      else (ok tt, write_page s p (record st { references = st.references - 1 }))

module _ {ℓ} {K : Type ℓ} ⦃e : Eq K⦄ where
  -- `lru.move_to_end(key)`
  abbrev pub touch : K → NativePageStore K → NativePageStore K
  touch k s = record s { lru = put k tt (remove k s.lru) }

  -- `self.pages.get(page.key) is page`
  abbrev pub is_resident : StoredPage K → NativePageStore K → Bool
  is_resident p s = elim (get p.key s.pages) [ none ↦ false | some q ↦ q.ident == p.ident ]

  unfoldable pub lookup : K → NativePageStore K → Option (StoredPage K) × NativePageStore K
  lookup k s = elim (get k s.pages) [
    | none ↦ (none, s)
    | some p ↦ if (state_of s p).ready then (some p, touch k s) else (none, s)
  ]

  -- `self.pages[k].references == 0`
  abbrev pub is_unpinned : NativePageStore K → K → Bool
  is_unpinned s k = elim (get k s.pages) [ none ↦ false | some p ↦ (state_of s p).references == 0 ]

  -- `next((k for k in self.lru if ...), None)`
  abbrev pub first_unpinned : NativePageStore K → Dict K (Unit {0}) → Option K
  first_unpinned s [] = none
  first_unpinned s ((k, u) ∷ lru) =
      let rest = first_unpinned s lru in if is_unpinned s k then some k else rest

  -- The four statements that evict a page.
  unfoldable pub evict : K → NativePageStore K → NativePageStore K
  evict k s = elim (get k s.pages) [
    | none ↦ s
    | some old ↦ record s {
      pages = remove k s.pages;
      lru = remove k s.lru;
      used_bytes = s.used_bytes - old.bytes;
      evictions = s.evictions + 1;
    }
  ]

  -- The `while` of `reserve_write`: whether there is room in the end. A round evicts a page, so as many
  -- rounds as there are pages are given.
  unfoldable pub make_room : ℕ → ℕ → NativePageStore K → Bool × NativePageStore K
  unfolding evict
  make_room zero size s = (not (ltb s.capacity_bytes (s.used_bytes + size)), s)
  make_room (suc fuel) size s = elim (ltb s.capacity_bytes (s.used_bytes + size)) [
    | false ↦ (true, s)
    | true ↦ elim (first_unpinned s s.lru) [
      | none ↦ (false, s)
      | some k ↦ make_room fuel size (evict k s)
    ]
  ]

  -- The statements of `reserve_write` after the loop.
  unfoldable pub insert_page : K → ℕ → NativePageStore K → StoredPage K × NativePageStore K
  insert_page k size s =
      let page : StoredPage K = record { key = k; bytes = size; ident = s.next } in
      (
        page,
        record (write_page s page (record { references = 1; ready = false })) {
          pages = put k page s.pages;
          lru = put k tt s.lru;
          used_bytes = s.used_bytes + size;
          next = s.next + 1;
        },
      )

  -- `reserve_write` after the check of its payload.
  unfoldable pub store_page : K → ℕ → NativePageStore K → Option (StoredPage K) × NativePageStore K
  unfolding make_room insert_page
  store_page k payload s =
      let size = allocation_bytes s payload in
      let (room, s') = make_room (length s.pages) size s in
      let (page, s'') = insert_page k size s' in
      if has k s.pages
      then (none, s)
      else if ltb s.capacity_bytes size
      then (none, s)
      else if room
      then (some page, s'')
      else (none, s')

  unfoldable pub reserve_write :
      K → ℕ → NativePageStore K → Outcome (Option (StoredPage K)) × NativePageStore K
  unfolding store_page
  reserve_write k payload s =
      let (result, s') = store_page k payload s in
      if payload == 0 then (raise configuration_error, s) else (ok result, s')

  unfoldable pub finish_write :
      StoredPage K → NativePageStore K → Outcome (Unit {0}) × NativePageStore K
  unfolding release
  finish_write p s =
      if is_resident p s
      then release p (write_page s p (record (state_of s p) { ready = true }))
      else (raise simulation_state_error, s)

  unfoldable pub acquire : StoredPage K → NativePageStore K → Outcome (Unit {0}) × NativePageStore K
  acquire p s =
      let st = state_of s p in
      if not (is_resident p s) || not st.ready
      then (raise simulation_state_error, s)
      else (ok tt, touch p.key (write_page s p (record st { references = st.references + 1 })))

  -- Whether every key of the first dictionary is one of the second.
  abbrev pub keys_in {κ μ} : {V : Type κ} {W : Type μ} → Dict K V → Dict K W → Bool
  keys_in [] d = true
  keys_in ((k, v) ∷ c) d = has k d && keys_in c d

  -- `validate`; a number of references is never negative here, since `release` refuses one.
  unfoldable pub validate : NativePageStore K → Outcome Bool
  validate s =
      if not (s.used_bytes == total (λ p. p.bytes) s.pages) || ltb s.capacity_bytes s.used_bytes
      then raise simulation_state_error
      else if not (keys_in s.pages s.lru && keys_in s.lru s.pages)
      then raise simulation_state_error
      else ok true
