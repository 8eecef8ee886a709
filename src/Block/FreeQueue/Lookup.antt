-- ===== src/Block/FreeQueue/Lookup.antt =====
-- Which block numbers a FreeBlockQueue holds after each operation.
use token_sim.Prelude.{
  ℕ, ◌+◌, ◌≡◌, inl, inr, none, some, arith, if◌then◌else◌, ◌==◌, length, nat_eq, Option-cases,
}
use token_sim.Prelude.Dict.{
  get, put, remove, Distinct, get-put, get-remove, length-remove, length-put_new, remove_absent,
}
use token_sim.Block.Physical.{PhysicalTokenBlock, Memory}
use token_sim.Block.FreeQueue.{Entry, FreeBlockQueue, invalidate, enter, append, append_lru, size}

module _ (b : PhysicalTokenBlock) (q : FreeBlockQueue) where
  abbrev pub new_entry : Entry
  new_entry = record { block = b; ident = (invalidate b q).next_entry }

  entries-invalidate : (invalidate b q).entries ≡ remove b.block_number q.entries
  unfolding invalidate
  entries-invalidate = elim (Option-cases (get b.block_number q.entries)) [
    | inl e ↦ rw (e, invalidate, remove_absent b.block_number q.entries e)
    | inr (x, e) ↦ rw (e, invalidate)
  ]

  pub get-invalidate :
      (n : ℕ)
      → Distinct q.entries
      → get n (invalidate b q).entries ≡ (if b.block_number == n then none else get n q.entries)
  get-invalidate n d = rw entries-invalidate (get-remove b.block_number n q.entries d)

  pub get-append :
      (n : ℕ)
      → Distinct q.entries
      → get n (append b q).entries
        ≡ (if b.block_number == n then some new_entry else get n q.entries)
  unfolding append enter
  get-append n d =
      rw (get-put b.block_number n new_entry (invalidate b q).entries, get-invalidate n d)
        (ground arith)

  pub get-append_lru :
      (m : Memory) (n : ℕ)
      → Distinct q.entries
      → get n (append_lru m b q).entries
        ≡ (if b.block_number == n then some new_entry else get n q.entries)
  unfolding append_lru enter
  get-append_lru m n d =
      rw (get-put b.block_number n new_entry (invalidate b q).entries, get-invalidate n d)
        (ground arith)

  pub size-invalidate :
      (e : Entry) → get b.block_number q.entries ≡ some e → size (invalidate b q) + 1 ≡ size q
  size-invalidate e h = rw entries-invalidate (length-remove b.block_number e q.entries h)

  size-enter :
      get b.block_number q.entries ≡ none
      → length (put b.block_number new_entry (invalidate b q).entries) ≡ size q + 1
  size-enter h =
      rw (entries-invalidate, remove_absent b.block_number q.entries h)
        (length-put_new b.block_number new_entry q.entries h)

  pub size-append : get b.block_number q.entries ≡ none → size (append b q) ≡ size q + 1
  unfolding append enter
  size-append h = size-enter h

  pub size-append_lru :
      (m : Memory) → get b.block_number q.entries ≡ none → size (append_lru m b q) ≡ size q + 1
  unfolding append_lru enter
  size-append_lru m h = size-enter h
