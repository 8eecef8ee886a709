-- ===== src/Block/FreeQueue/Age.antt =====
-- The order of the two queues of a FreeBlockQueue: `_fifo` by the arrival of its entries, `_heap` by
-- the stamp of the block and then by the sequence number.
use token_sim.Prelude.{
  ℕ, ◌+◌, ◌<◌, ◌≤◌, ◌≡◌, refl, ◌⊎◌, inl, inr, Bool, true, false, none, some, Option, List, [], ◌∷◌,
  ◌++◌, arith, All, keep_if, All-append, Bool-cases, Option-cases, nat_eq, length, if◌then◌else◌,
  ◌==◌,
}
use token_sim.Prelude.Dict.{get}
use token_sim.Block.Physical.{PhysicalTokenBlock, Memory, read}
use token_sim.Block.FreeQueue.{
  Entry, HeapItem, FreeBlockQueue, invalidate, enter, append, append_lru, heappush, item_lt,
  pop_valid, finalize_pop, pop_heap, pop_fifo, popleft, empty,
}
use token_sim.Block.FreeQueue.Live.{Below, IsConsistent}

-- Every item stands before the later ones in the relation `R`.
abbrev pub Ordered : {A : Type 0} → (A → A → Type 0) → List A → Type 0
Ordered R [] = Unit
Ordered R (x ∷ xs) = All (R x) xs × Ordered R xs

-- An entry that arrived earlier.
abbrev pub Earlier : Entry → Entry → Type 0
Earlier e x = e.ident < x.ident

-- An item whose block was accessed less recently, or as recently and queued earlier.
abbrev pub Before : HeapItem → HeapItem → Type 0
Before i j =
    (i.last_accessed < j.last_accessed) ⊎ ((i.last_accessed ≡ j.last_accessed) × (i.seq < j.seq))

-- A call of `append_lru`: its block, and the stamp that the block has then.
pub record Queued : Type 0 where
  pub block : PhysicalTokenBlock
  pub stamp : ℕ

-- The n-th call, from 1, of a log that has the last call first.
abbrev pub queued_at : ℕ → List Queued → Option Queued
queued_at n [] = none
queued_at n (x ∷ log) = if n == length log + 1 then some x else queued_at n log

-- An item of `_heap` is what the call of its sequence number queued, with the stamp of that time.
abbrev pub Recorded : List Queued → HeapItem → Type 0
Recorded log i =
    (i.seq ≤ length log)
    × (queued_at i.seq log ≡ some (record { block = i.entry.block; stamp = i.last_accessed }))

pub record IsOrdered (log : List Queued) (q : FreeBlockQueue) : Type 0 where
  pub arrival : Ordered Earlier q.fifo
  pub recency : Ordered Before q.heap
  pub recorded : All (Recorded log) q.heap
  pub counted : q.seq ≡ length log

pub keep_if-All :
    {A : Type 0} (P : A → Type 0) (p : A → Bool) (xs : List A) → All P xs → All P (keep_if p xs)
keep_if-All P p [] h = tt
keep_if-All P p (x ∷ xs) h = elim (Bool-cases (p x)) [
  | inl t ↦ rw t (h.0, keep_if-All P p xs h.1)
  | inr f ↦ rw f (keep_if-All P p xs h.1)
]

pub keep_if-Ordered :
    {A : Type 0} (R : A → A → Type 0) (p : A → Bool) (xs : List A)
    → Ordered R xs
    → Ordered R (keep_if p xs)
keep_if-Ordered R p [] h = tt
keep_if-Ordered R p (x ∷ xs) h = elim (Bool-cases (p x)) [
  | inl t ↦ rw t (keep_if-All (R x) p xs h.0, keep_if-Ordered R p xs h.1)
  | inr f ↦ rw f (keep_if-Ordered R p xs h.1)
]

-- A last item that all the others stand before.
Ordered-last :
    (e : Entry) (xs : List Entry)
    → Below e.ident xs
    → Ordered Earlier xs
    → Ordered Earlier (xs ++ e ∷ [])
Ordered-last e [] b o = (tt, tt)
Ordered-last e (x ∷ xs) b o =
    (All-append (Earlier x) xs (e ∷ []) o.0 (b.0, tt), Ordered-last e xs b.1 o.1)

Before-trans : (i j k : HeapItem) → Before i j → Before j k → Before i k
Before-trans i j k (inl a) (inl b) = inl (omega arith)
Before-trans i j k (inl a) (inr b) = inl (omega (arith, b.0))
Before-trans i j k (inr a) (inl b) = inl (omega (arith, a.0))
Before-trans i j k (inr a) (inr b) = inr (omega (arith, a.0, b.0), omega (arith, a.1, b.1))

Before-All : (i j : HeapItem) (h : List HeapItem) → Before i j → All (Before j) h → All (Before i) h
Before-All i j [] b a = tt
Before-All i j (k ∷ h) b a = (Before-trans i j k b a.0, Before-All i j h b a.1)

heappush-All :
    (P : HeapItem → Type 0) (i : HeapItem) (h : List HeapItem)
    → P i
    → All P h
    → All P (heappush i h)
unfolding heappush
heappush-All P i [] p a = (p, tt)
heappush-All P i (j ∷ h) p a = elim (Bool-cases (item_lt i j)) [
  | inl t ↦ rw (t, heappush) (p, a)
  | inr f ↦ rw (f, heappush) (a.0, heappush-All P i h p a.1)
]

-- The comparison of two items with different sequence numbers.
item_lt-Before : (i j : HeapItem) → item_lt i j ≡ true → Before i j
item_lt-Before i j t = ground (arith, t)

item_lt-after : (i j : HeapItem) → j.seq < i.seq → item_lt i j ≡ false → Before j i
item_lt-after i j l f = ground (arith, l, f)

-- A new item, with a sequence number above all others, is put where it keeps the heap in order.
heappush-Ordered :
    (i : HeapItem) (h : List HeapItem)
    → All (λ j. j.seq < i.seq) h
    → Ordered Before h
    → Ordered Before (heappush i h)
unfolding heappush
heappush-Ordered i [] n o = (tt, tt)
heappush-Ordered i (j ∷ h) n o = elim (Bool-cases (item_lt i j)) [
  | inl t ↦ let b = item_lt-Before i j t in rw (t, heappush) ((b, Before-All i j h b o.0), o)
  | inr f ↦
      rw (f, heappush)
        (heappush-All (Before j) i h (item_lt-after i j n.0 f) o.0, heappush-Ordered i h n.1 o.1)
]

pub empty-IsOrdered : IsOrdered [] empty
empty-IsOrdered = record { arrival = tt; recency = tt; recorded = tt; counted = refl }

module _ (log : List Queued) (b : PhysicalTokenBlock) (q : FreeBlockQueue) where
  pub invalidate-IsOrdered : IsOrdered log q → IsOrdered log (invalidate b q)
  unfolding invalidate
  invalidate-IsOrdered o = elim (Option-cases (get b.block_number q.entries)) [
    | inl e ↦ rw (e, invalidate) o
    | inr (x, e) ↦
        rw (e, invalidate)
          (record {
            arrival = o.arrival;
            recency = o.recency;
            recorded = o.recorded;
            counted = o.counted;
          })
  ]

  pub append-IsOrdered :
      IsConsistent (invalidate b q) → IsOrdered log q → IsOrdered log (append b q)
  unfolding append enter
  append-IsOrdered c o =
      let r = invalidate b q in
      let k = invalidate-IsOrdered o in
      record {
        arrival =
            Ordered-last (record { block = b; ident = r.next_entry }) r.fifo c.below_fifo k.arrival;
        recency = k.recency;
        recorded = k.recorded;
        counted = k.counted;
      }

Recorded-below :
    (log : List Queued) (n : ℕ) (h : List HeapItem)
    → n ≡ length log
    → All (Recorded log) h
    → All (λ i. i.seq < n + 1) h
Recorded-below log n [] e a = tt
Recorded-below log n (i ∷ h) e a = (omega (arith, a.0.0, e), Recorded-below log n h e a.1)

Recorded-later :
    (log : List Queued) (x : Queued) (h : List HeapItem)
    → All (Recorded log) h
    → All (Recorded (x ∷ log)) h
Recorded-later log x [] a = tt
Recorded-later log x (i ∷ h) a =
    ((omega (arith, a.0.0), ground (arith, a.0.0, a.0.1)), Recorded-later log x h a.1)

pub append_lru-IsOrdered :
    (log : List Queued) (m : Memory) (b : PhysicalTokenBlock) (q : FreeBlockQueue)
    → IsOrdered log q
    → IsOrdered (record { block = b; stamp = (read m b).last_accessed } ∷ log) (append_lru m b q)
unfolding append_lru enter
append_lru-IsOrdered log m b q o =
    let r = invalidate b q in
    let k = invalidate-IsOrdered log b q o in
    let x : Queued = record { block = b; stamp = (read m b).last_accessed } in
    let i : HeapItem = record {
      last_accessed = (read m b).last_accessed;
      seq = r.seq + 1;
      entry = record { block = b; ident = r.next_entry };
    } in
    let now : Recorded (x ∷ log) i = (omega (arith, k.counted), ground (arith, k.counted)) in
    record {
      arrival = k.arrival;
      recency =
          heappush-Ordered i r.heap (Recorded-below log r.seq r.heap k.counted k.recorded)
            k.recency;
      recorded =
          heappush-All (Recorded (x ∷ log)) i r.heap now (Recorded-later log x r.heap k.recorded);
      counted = omega (arith, k.counted);
    }

-- What the loop of `popleft` leaves behind is a later part of the list.
pop_valid-All :
    {A : Type 0} (P : A → Type 0) (p : A → Bool) (xs : List A) → All P xs → All P (pop_valid p xs).1
unfolding pop_valid
pop_valid-All P p [] h = tt
pop_valid-All P p (x ∷ xs) h = elim (Bool-cases (p x)) [
  | inl t ↦ rw (t, pop_valid) h.1
  | inr f ↦ rw (f, pop_valid) (pop_valid-All P p xs h.1)
]

pop_valid-Ordered :
    {A : Type 0} (R : A → A → Type 0) (p : A → Bool) (xs : List A)
    → Ordered R xs
    → Ordered R (pop_valid p xs).1
unfolding pop_valid
pop_valid-Ordered R p [] h = tt
pop_valid-Ordered R p (x ∷ xs) h = elim (Bool-cases (p x)) [
  | inl t ↦ rw (t, pop_valid) h.1
  | inr f ↦ rw (f, pop_valid) (pop_valid-Ordered R p xs h.1)
]

module _ (log : List Queued) (q : FreeBlockQueue) where
  pop_heap-IsOrdered :
      (fifo : List Entry) (p : Option HeapItem × List HeapItem)
      → Ordered Earlier fifo
      → Ordered Before p.1
      → All (Recorded log) p.1
      → q.seq ≡ length log
      → IsOrdered log (pop_heap p (record q { fifo = fifo })).1
  unfolding pop_heap finalize_pop
  pop_heap-IsOrdered fifo (none, rest) a r n c = record {
    arrival = a;
    recency = r;
    recorded = n;
    counted = c;
  }
  pop_heap-IsOrdered fifo (some i, rest) a r n c = record {
    arrival = a;
    recency = r;
    recorded = n;
    counted = c;
  }

  pop_fifo-IsOrdered :
      (p : Option Entry × List Entry)
      → IsOrdered log q
      → Ordered Earlier p.1
      → IsOrdered log (pop_fifo p q).1
  unfolding pop_fifo finalize_pop
  pop_fifo-IsOrdered (none, rest) o a =
      pop_heap-IsOrdered rest (pop_valid (λ i. q.valid i.entry.ident) q.heap) a
        (pop_valid-Ordered Before _ q.heap o.recency)
        (pop_valid-All (Recorded log) _ q.heap o.recorded) o.counted
  pop_fifo-IsOrdered (some e, rest) o a = record {
    arrival = a;
    recency = o.recency;
    recorded = o.recorded;
    counted = o.counted;
  }

  pub popleft-IsOrdered : IsOrdered log q → IsOrdered log (popleft q).1
  unfolding popleft
  popleft-IsOrdered o =
      pop_fifo-IsOrdered (pop_valid (λ e. q.valid e.ident) q.fifo) o
        (pop_valid-Ordered Earlier _ q.fifo o.arrival)
