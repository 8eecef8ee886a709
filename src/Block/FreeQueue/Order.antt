-- ===== src/Block/FreeQueue/Order.antt =====
-- One call of `popleft` on a consistent queue.
use token_sim.Prelude.{
  ℕ, ◌<◌, ◌≡◌, refl, sym, ap, ◌∙◌, inl, inr, Bool, false, Option, none, some, List, [], ◌∷◌, ◌++◌,
  arith, All, keep_if, Bool-cases, nat_eq,
}
use token_sim.Prelude.Dict.{get, remove}
use token_sim.Errors.{Outcome, ok, raise, index_error}
use token_sim.Block.Physical.{PhysicalTokenBlock}
use token_sim.Block.FreeQueue.{
  Entry, HeapItem, FreeBlockQueue, set_valid, pop_valid, finalize_pop, pop_heap, pop_fifo, popleft,
}
use token_sim.Block.FreeQueue.Tracks.{here, Tracks, Tracks-delete, Unique-Inserted}
use token_sim.Block.FreeQueue.Live.{
  live_in, heap_entries, fifo_live, heap_live, live, Below, IsConsistent, idents-Apart,
  live_in_without, live_in-append,
}

-- The outcomes of the loop that skips dead entries.
data Popped {A : Type 0} (p : A → Bool) (P : A → Type 0) (xs : List A)
    : Option A × List A → Type 0 where
  nothing : keep_if p xs ≡ [] → Popped p P xs (none, [])
  found :
      (x : A) (rest : List A)
      → keep_if p xs ≡ x ∷ keep_if p rest
      → All P rest
      → Popped p P xs (some x, rest)

pop_valid-Popped :
    {A : Type 0} (p : A → Bool) (P : A → Type 0) (xs : List A)
    → All P xs
    → Popped p P xs (pop_valid p xs)
unfolding pop_valid
pop_valid-Popped {A} p P [] h = nothing refl
pop_valid-Popped {A} p P (x ∷ xs) h = elim (Bool-cases (p x)) [
  | inl t ↦ rw (t, pop_valid) (found x xs (rw t refl) h.1)
  | inr f ↦ rw (f, pop_valid) (weaken f (pop_valid-Popped p P xs h.1))
]
  where
    weaken : p x ≡ false → {r : Option A × List A} → Popped p P xs r → Popped p P (x ∷ xs) r
    weaken f (nothing e) = nothing (rw f e)
    weaken f (found y rest e a) = found y rest (rw f e) a

pub live_in-heap :
    (v : ℕ → Bool) (h : List HeapItem)
    → live_in v (heap_entries h) ≡ heap_entries (keep_if (λ i. v i.entry.ident) h)
live_in-heap v [] = refl
live_in-heap v (i ∷ h) = ground (arith, live_in-heap v h)

All-heap : (n : ℕ) (h : List HeapItem) → Below n (heap_entries h) → All (λ i. i.entry.ident < n) h
All-heap n [] b = tt
All-heap n (i ∷ h) b = (b.0, All-heap n h b.1)

heap-All : (n : ℕ) (h : List HeapItem) → All (λ i. i.entry.ident < n) h → Below n (heap_entries h)
heap-All n [] b = tt
heap-All n (i ∷ h) b = (b.0, heap-All n h b.1)

-- `popleft` on a queue `q`: either nothing is live and it raises, or it takes the first live entry.
pub data Pops (q : FreeBlockQueue) : Outcome PhysicalTokenBlock × FreeBlockQueue → Type 0 where
  empty :
      {r : FreeBlockQueue}
      → live q ≡ []
      → q.entries ≡ r.entries
      → IsConsistent r
      → Pops q (raise index_error, r)
  first :
      {r : FreeBlockQueue} (e : Entry)
      → live q ≡ e ∷ live r
      → r.entries ≡ remove e.block.block_number q.entries
      → get e.block.block_number q.entries ≡ some e
      → IsConsistent r
      → Pops q (ok e.block, r)

-- The state after a pop of the live entry `e`, when `s` is the queue without the popped place.
finalize_pop-Pops :
    (q s : FreeBlockQueue) (e : Entry)
    → IsConsistent q
    → s.entries ≡ q.entries
    → live q ≡ e ∷ live s
    → Below s.next_entry s.fifo
    → Below s.next_entry (heap_entries s.heap)
    → Pops q (finalize_pop e s)
unfolding finalize_pop
finalize_pop-Pops q s e c same first_live bf bh =
    let tracks : Tracks q.entries (e ∷ live s) = rw first_live at c.tracks in
    let (apart, unique) = Unique-Inserted {e = e} here tracks.unique in
    let gone : live r ≡ live s =
      sym (live_in-append r.valid s.fifo (heap_entries s.heap))
      ∙ live_in_without s.valid e.ident (s.fifo ++ heap_entries s.heap)
          (rw (live_in-append s.valid s.fifo (heap_entries s.heap)) (idents-Apart e (live s) apart))
      ∙ live_in-append s.valid s.fifo (heap_entries s.heap) in
    first e (rw (gone, first_live)) (rw same) tracks.agree.0 (record {
      tracks = rw (gone, same) (Tracks-delete tracks here);
      below_fifo = bf;
      below_heap = bh;
    })
  where
    r : FreeBlockQueue
    r = record s {
      valid = set_valid e.ident false s.valid;
      entries = remove e.block.block_number s.entries;
    }

pop_heap-Pops :
    (q : FreeBlockQueue)
    → IsConsistent q
    → fifo_live q ≡ []
    → {p : Option HeapItem × List HeapItem}
    → Popped (λ i. q.valid i.entry.ident) (λ i. i.entry.ident < q.next_entry) q.heap p
    → Pops q (pop_heap p (record q { fifo = [] }))
unfolding pop_heap
pop_heap-Pops q c none_left (nothing h) =
    let heap_empty : heap_live q ≡ [] = live_in-heap q.valid q.heap ∙ ap heap_entries h in
    let all_empty : live q ≡ [] = rw (none_left, heap_empty) in
    empty all_empty refl
      (record { tracks = rw all_empty at c.tracks; below_fifo = tt; below_heap = tt })
pop_heap-Pops q c none_left (found i rest h a) =
    let heap_first : heap_live q ≡ i.entry ∷ live_in q.valid (heap_entries rest) =
      live_in-heap q.valid q.heap
      ∙ ap heap_entries h
      ∙ ap (◌∷◌ i.entry) (sym (live_in-heap q.valid rest)) in
    finalize_pop-Pops q (record q { fifo = []; heap = rest }) i.entry c refl
      (rw (none_left, heap_first)) tt (heap-All q.next_entry rest a)

pop_fifo-Pops :
    (q : FreeBlockQueue)
    → IsConsistent q
    → {p : Option Entry × List Entry}
    → Popped (λ e. q.valid e.ident) (λ e. e.ident < q.next_entry) q.fifo p
    → Pops q (pop_fifo p q)
unfolding pop_fifo
pop_fifo-Pops q c (nothing h) = pop_heap-Pops q c h (
    pop_valid-Popped _ (λ i. i.entry.ident < q.next_entry) q.heap
      (All-heap q.next_entry q.heap c.below_heap))
pop_fifo-Pops q c (found e rest h a) =
    finalize_pop-Pops q (record q { fifo = rest }) e c refl (rw h) a c.below_heap

-- Every pop of a consistent queue takes its first live entry, and raises only where none is live.
pub popleft-Pops : (q : FreeBlockQueue) → IsConsistent q → Pops q (popleft q)
unfolding popleft
popleft-Pops q c =
    pop_fifo-Pops q c (pop_valid-Popped _ (λ e. e.ident < q.next_entry) q.fifo c.below_fifo)
