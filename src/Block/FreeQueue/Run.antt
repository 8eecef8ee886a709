-- ===== src/Block/FreeQueue/Run.antt =====
-- Runs of the operations of a FreeBlockQueue, and the block that `popleft` takes in them.
use token_sim.Prelude.{
  ◌≡◌, refl, sym, ◌∙◌, inl, inr, List, [], ◌∷◌, ◌++◌, All, keep_if, Bool-cases, some, nat_eq,
}
use token_sim.Prelude.Dict.{get, remove}
use token_sim.Errors.{Outcome, ok, raise, index_error}
use token_sim.Block.Physical.{PhysicalTokenBlock, Memory, read}
use token_sim.Block.FreeQueue
use token_sim.Block.FreeQueue.{
  Entry, HeapItem, FreeBlockQueue, invalidate, append, append_unique, append_lru, contains, popleft,
}
use token_sim.Block.FreeQueue.Live.{
  heap_entries, fifo_live, heap_live, live, IsConsistent, empty-IsConsistent, append-IsConsistent,
  append_lru-IsConsistent, invalidate-IsConsistent,
}
use token_sim.Block.FreeQueue.Order
use token_sim.Block.FreeQueue.Order.{Pops, popleft-Pops, live_in-heap}
use token_sim.Block.FreeQueue.Age.{
  Queued, Recorded, keep_if-All, Ordered, Earlier, Before, IsOrdered, keep_if-Ordered,
  empty-IsOrdered, invalidate-IsOrdered, append-IsOrdered, append_lru-IsOrdered, popleft-IsOrdered,
}

-- The queues that calls of the operations lead to, with the log of the calls of `append_lru`. `removed` is
-- `remove`.
pub data Reaches : List Queued → FreeBlockQueue → Type 0 where
  created : Reaches [] FreeQueue.empty
  appended :
      {log : List Queued} {q : FreeBlockQueue} (b : PhysicalTokenBlock)
      → Reaches log q
      → Reaches log (append b q)
  appended_unique :
      {log : List Queued} {q : FreeBlockQueue} (b : PhysicalTokenBlock)
      → Reaches log q
      → Reaches log (append_unique b q)
  appended_lru :
      {log : List Queued} {q : FreeBlockQueue} (m : Memory) (b : PhysicalTokenBlock)
      → Reaches log q
      → Reaches (record { block = b; stamp = (read m b).last_accessed } ∷ log) (append_lru m b q)
  removed :
      {log : List Queued} {q : FreeBlockQueue} (b : PhysicalTokenBlock)
      → Reaches log q
      → Reaches log (invalidate b q)
  popped : {log : List Queued} {q : FreeBlockQueue} → Reaches log q → Reaches log (popleft q).1

-- The live items of `_heap`.
abbrev pub heap_items : FreeBlockQueue → List HeapItem
heap_items q = keep_if (λ i. q.valid i.entry.ident) q.heap

-- The entry that is due: of the live uncached ones the first that arrived. Where there are none, of the
-- live cached ones the one whose call of `append_lru` saw the lowest stamp, and among equal stamps the one of
-- the first call.
pub data Due (log : List Queued) (q : FreeBlockQueue) (e : Entry) : Type 0 where
  uncached : (rest : List Entry) → fifo_live q ≡ e ∷ rest → All (Earlier e) rest → Due log q e
  cached :
      (i : HeapItem) (rest : List HeapItem)
      → fifo_live q ≡ []
      → heap_items q ≡ i ∷ rest
      → i.entry ≡ e
      → All (Before i) rest
      → All (Recorded log) (i ∷ rest)
      → Due log q e

-- `popleft` raises where nothing is queued. Else it takes the entry that is due, and only that one.
pub data Serves (log : List Queued) (q : FreeBlockQueue)
    : Outcome PhysicalTokenBlock × FreeBlockQueue → Type 0 where
  nothing_due :
      {r : FreeBlockQueue}
      → live q ≡ []
      → r.entries ≡ q.entries
      → Serves log q (raise index_error, r)
  served :
      {r : FreeBlockQueue} (e : Entry)
      → Due log q e
      → live q ≡ e ∷ live r
      → r.entries ≡ remove e.block.block_number q.entries
      → get e.block.block_number q.entries ≡ some e
      → Serves log q (ok e.block, r)

kept :
    {q : FreeBlockQueue} {p : Outcome PhysicalTokenBlock × FreeBlockQueue}
    → Pops q p
    → IsConsistent p.1
kept (Order.empty _ _ c) = c
kept (Order.first _ _ _ _ c) = c

unique_kept :
    (P : FreeBlockQueue → Type 0) (b : PhysicalTokenBlock) (q : FreeBlockQueue)
    → P q
    → P (append b q)
    → P (append_unique b q)
unfolding append_unique
unique_kept P b q p a = elim (Bool-cases (contains q b)) [
  | inl t ↦ rw (t, append_unique) p
  | inr f ↦ rw (f, append_unique) a
]

Reaches-IsConsistent : {log : List Queued} {q : FreeBlockQueue} → Reaches log q → IsConsistent q
Reaches-IsConsistent created = empty-IsConsistent
Reaches-IsConsistent (appended {q = q} b s) = append-IsConsistent b q (Reaches-IsConsistent s)
Reaches-IsConsistent (appended_unique {q = q} b s) =
    let c = Reaches-IsConsistent s in unique_kept IsConsistent b q c (append-IsConsistent b q c)
Reaches-IsConsistent (appended_lru {q = q} m b s) =
    append_lru-IsConsistent m b q (Reaches-IsConsistent s)
Reaches-IsConsistent (removed {q = q} b s) =
    (invalidate-IsConsistent b q (Reaches-IsConsistent s)).0
Reaches-IsConsistent (popped {q = q} s) = kept (popleft-Pops q (Reaches-IsConsistent s))

Reaches-append :
    (b : PhysicalTokenBlock) {log : List Queued} {q : FreeBlockQueue}
    → Reaches log q
    → IsOrdered log q
    → IsOrdered log (append b q)
Reaches-append b {log} {q} s o =
    append-IsOrdered log b q (invalidate-IsConsistent b q (Reaches-IsConsistent s)).0 o

Reaches-IsOrdered : {log : List Queued} {q : FreeBlockQueue} → Reaches log q → IsOrdered log q
Reaches-IsOrdered created = empty-IsOrdered
Reaches-IsOrdered (appended b s) = Reaches-append b s (Reaches-IsOrdered s)
Reaches-IsOrdered (appended_unique {log = log} {q = q} b s) =
    let o = Reaches-IsOrdered s in unique_kept (IsOrdered log) b q o (Reaches-append b s o)
Reaches-IsOrdered (appended_lru {log = log} {q = q} m b s) =
    append_lru-IsOrdered log m b q (Reaches-IsOrdered s)
Reaches-IsOrdered (removed {log = log} {q = q} b s) =
    invalidate-IsOrdered log b q (Reaches-IsOrdered s)
Reaches-IsOrdered (popped {log = log} {q = q} s) = popleft-IsOrdered log q (Reaches-IsOrdered s)

-- The head of an ordered list.
head_first :
    {A : Type 0} (R : A → A → Type 0) (x : A) (rest xs : List A)
    → xs ≡ x ∷ rest
    → Ordered R xs
    → All (R x) rest
head_first R x rest xs e o = (rw e at o).0

module _ (log : List Queued) (q : FreeBlockQueue) (o : IsOrdered log q) where
  first_item :
      (e : Entry) (rest : List Entry) (items : List HeapItem)
      → fifo_live q ≡ []
      → heap_items q ≡ items
      → heap_entries items ≡ e ∷ rest
      → Due log q e
  first_item e rest [] none_left same h = absurd (cc h)
  first_item e rest (i ∷ items) none_left same h =
      let recorded : All (Recorded log) (heap_items q) =
        keep_if-All (Recorded log) (λ j. q.valid j.entry.ident) q.heap o.recorded in
      cached i items none_left same (cc h)
        (head_first Before i items (heap_items q) same
          (keep_if-Ordered Before (λ j. q.valid j.entry.ident) q.heap o.recency))
        (rw same at recorded)

  first_entry :
      (e : Entry) (rest xs : List Entry)
      → fifo_live q ≡ xs
      → xs ++ heap_live q ≡ e ∷ rest
      → Due log q e
  first_entry e rest [] same h =
      first_item e rest (heap_items q) same refl (sym (live_in-heap q.valid q.heap) ∙ h)
  first_entry e rest (x ∷ xs) same h =
      let due : Due log q x = uncached xs same (
        head_first Earlier x xs (fifo_live q) same
          (keep_if-Ordered Earlier (λ y. q.valid y.ident) q.fifo o.arrival)) in
      let head : x ≡ e = cc h in rw head at due

  Pops-Serves : {p : Outcome PhysicalTokenBlock × FreeBlockQueue} → Pops q p → Serves log q p
  Pops-Serves (Order.empty all_empty entries _) = nothing_due all_empty (sym entries)
  Pops-Serves (Order.first {r = r} e first_live entries found _) =
      served e (first_entry e (live r) (fifo_live q) refl first_live) first_live entries found

-- After any run of `append`, `append_unique`, `append_lru`, `remove` and `popleft` from the empty queue,
-- `popleft` raises IndexError only where no live entry is queued. Else it takes exactly one entry off: the
-- uncached one that arrived first, or, where no uncached one is queued, the cached one whose block had the
-- lowest stamp when `append_lru` queued it, and among equal stamps the one that was queued first.
pub Reaches-popleft :
    {log : List Queued} {q : FreeBlockQueue} → Reaches log q → Serves log q (popleft q)
Reaches-popleft {log} {q} s =
    Pops-Serves log q (Reaches-IsOrdered s) (popleft-Pops q (Reaches-IsConsistent s))
