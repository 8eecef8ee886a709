-- ===== src/Block/FreeQueue/Live.antt =====
-- The live entries of a FreeBlockQueue, and that every operation keeps the queue consistent: lazily
-- deleted entries stay in `_fifo` and `_heap`, and never come back to life.
use token_sim.Prelude.{
  ℕ, ◌+◌, ◌<◌, ◌≡◌, refl, sym, ap, ◌≢◌, inl, inr, Bool, true, false, none, List, [], ◌∷◌, ◌++◌, map,
  arith, All, keep_if, All-append, Bool-cases, Option-cases, nat_eq,
}
use token_sim.Prelude.Dict.{get, get-remove}
use token_sim.Block.Physical.{PhysicalTokenBlock, Memory, read}
use token_sim.Block.FreeQueue.{
  Entry, HeapItem, FreeBlockQueue, set_valid, invalidate, enter, append, append_lru, heappush,
  item_lt, empty,
}
use token_sim.Block.FreeQueue.Tracks.{
  Inserted, here, there, In, Apart, Unique, Tracks, Tracks-insert, Tracks-delete, All-in,
}

abbrev pub live_in : (ℕ → Bool) → List Entry → List Entry
live_in valid = keep_if (λ e. valid e.ident)

abbrev pub heap_entries : List HeapItem → List Entry
heap_entries = map (λ i. i.entry)

abbrev pub fifo_live : FreeBlockQueue → List Entry
fifo_live q = live_in q.valid q.fifo

abbrev pub heap_live : FreeBlockQueue → List Entry
heap_live q = live_in q.valid (heap_entries q.heap)

-- The entries that `popleft` gives, in its order.
abbrev pub live : FreeBlockQueue → List Entry
live q = fifo_live q ++ heap_live q

abbrev pub Below : ℕ → List Entry → Type 0
Below n = All (λ e. e.ident < n)

pub record IsConsistent (q : FreeBlockQueue) : Type 0 where
  pub tracks : Tracks q.entries (live q)
  pub below_fifo : Below q.next_entry q.fifo
  pub below_heap : Below q.next_entry (heap_entries q.heap)

-- Lists of live entries under a change of one flag.

pub live_in-append :
    (v : ℕ → Bool) (xs ys : List Entry) → live_in v (xs ++ ys) ≡ live_in v xs ++ live_in v ys
live_in-append v [] ys = refl
live_in-append v (x ∷ xs) ys = ground (arith, live_in-append v xs ys)

live_in_fresh :
    (v : ℕ → Bool) (n : ℕ) (b : Bool) (xs : List Entry)
    → Below n xs
    → live_in (set_valid n b v) xs ≡ live_in v xs
live_in_fresh v n b [] h = refl
live_in_fresh v n b (x ∷ xs) h = ground (arith, live_in_fresh v n b xs h.1)

-- What is left when the flag `i` falls.
pub live_in_without :
    (v : ℕ → Bool) (i : ℕ) (xs : List Entry)
    → All (λ e. e.ident ≢ i) (live_in v xs)
    → live_in (set_valid i false v) xs ≡ live_in v xs
live_in_without v i [] h = refl
live_in_without v i (x ∷ xs) h = ground (arith, live_in_without v i xs)

pub idents-Apart :
    (e : Entry) (xs : List Entry) → All (Apart e) xs → All (λ x. x.ident ≢ e.ident) xs
idents-Apart e [] a = tt
idents-Apart e (x ∷ xs) a = (a.0.1, idents-Apart e xs a.1)

-- Taking the flag of one live entry away removes exactly that entry from `live`.
live_in_removed :
    (v : ℕ → Bool) (e : Entry) (xs : List Entry)
    → In e (live_in v xs)
    → Unique (live_in v xs)
    → Inserted e (live_in (set_valid e.ident false v) xs) (live_in v xs)
live_in_removed v e [] m u = absurd m
live_in_removed v e (x ∷ xs) m u = elim (Bool-cases (v x.ident)) [
  | inl t ↦ removed_live t (live_in_removed v e xs) (rw t at m) (rw t at u)
  | inr f ↦
      let kept : live_in v (x ∷ xs) ≡ live_in v xs = ground arith in
      let left : live_in v' (x ∷ xs) ≡ live_in v' xs = ground arith in
      rw (left, kept) (live_in_removed v e xs (rw f at m) (rw f at u))
]
  where
    v' : ℕ → Bool
    v' = set_valid e.ident false v

    removed_live :
        v x.ident ≡ true
        → (In e (live_in v xs) → Unique (live_in v xs) → Inserted e (live_in v' xs) (live_in v xs))
        → In e (x ∷ live_in v xs)
        → Unique (x ∷ live_in v xs)
        → Inserted e (live_in v' (x ∷ xs)) (live_in v (x ∷ xs))
    removed_live t ih (inl p) w =
        let gone : live_in v' xs ≡ live_in v xs =
          live_in_without v e.ident xs (idents-Apart e (live_in v xs) (rw p at w.0)) in
        let left : live_in v' (x ∷ xs) ≡ live_in v xs =
          ground (arith, gone, ap (λ (y : Entry). y.ident) p) in
        let kept : live_in v (x ∷ xs) ≡ e ∷ live_in v xs = ground arith in rw (left, kept) here
    removed_live t ih (inr n) w =
        let apart = All-in (Apart x) e (live_in v xs) w.0 n in
        let left : live_in v' (x ∷ xs) ≡ x ∷ live_in v' xs = ground (arith, apart.1) in
        let kept : live_in v (x ∷ xs) ≡ x ∷ live_in v xs = ground arith in
        rw (left, kept) (there (ih n w.1))

-- `_invalidate` keeps the queue consistent, and after it the block's number is free.
pub invalidate-IsConsistent :
    (b : PhysicalTokenBlock) (q : FreeBlockQueue)
    → IsConsistent q
    → IsConsistent (invalidate b q) × (get b.block_number (invalidate b q).entries ≡ none)
unfolding invalidate
invalidate-IsConsistent b q c = elim (Option-cases (get b.block_number q.entries)) [
  | inl e ↦ rw (e, invalidate) (c, e)
  | inr (x, e) ↦
      let t = c.tracks in
      let (number, m) = t.listed b.block_number x e in
      let v' = set_valid x.ident false q.valid in
      let ends : live_in v' q.fifo ++ live_in v' (heap_entries q.heap)
          ≡ live_in v' (q.fifo ++ heap_entries q.heap) =
        sym (live_in-append v' q.fifo (heap_entries q.heap)) in
      let starts : live_in q.valid (q.fifo ++ heap_entries q.heap) ≡ live q =
        live_in-append q.valid q.fifo (heap_entries q.heap) in
      let removed : Inserted x (live_in v' q.fifo ++ live_in v' (heap_entries q.heap)) (live q) =
        rw (ends, ← starts)
          (live_in_removed q.valid x (q.fifo ++ heap_entries q.heap) (rw starts m)
            (rw starts t.unique)) in
      rw (e, invalidate)
        (
          record {
            tracks = rw number at (Tracks-delete t removed);
            below_fifo = c.below_fifo;
            below_heap = c.below_heap;
          },
          ground (arith, get-remove b.block_number b.block_number q.entries t.distinct),
        )
]

not_next :
    (v : ℕ → Bool) (n : ℕ) (xs : List Entry) → Below n xs → All (λ e. e.ident ≢ n) (live_in v xs)
not_next v n [] h = tt
not_next v n (x ∷ xs) h = elim (Bool-cases (v x.ident)) [
  | inl t ↦ rw t (omega arith, not_next v n xs h.1)
  | inr f ↦ rw f (not_next v n xs h.1)
]

Below-suc : (n : ℕ) (xs : List Entry) → Below n xs → Below (n + 1) xs
Below-suc n [] h = tt
Below-suc n (x ∷ xs) h = (omega arith, Below-suc n xs h.1)

Inserted-middle : (e : Entry) (xs ys : List Entry) → Inserted e (xs ++ ys) ((xs ++ e ∷ []) ++ ys)
Inserted-middle e [] ys = here
Inserted-middle e (x ∷ xs) ys = there (Inserted-middle e xs ys)

Inserted-right :
    {e : Entry} (xs : List Entry) {ys zs : List Entry}
    → Inserted e ys zs
    → Inserted e (xs ++ ys) (xs ++ zs)
Inserted-right [] i = i
Inserted-right (x ∷ xs) i = there (Inserted-right xs i)

-- A new live entry at the end of `_fifo`.
append_live :
    (v : ℕ → Bool) (e : Entry) (xs : List Entry)
    → Below e.ident xs
    → live_in (set_valid e.ident true v) (xs ++ e ∷ []) ≡ live_in v xs ++ e ∷ []
append_live v e [] h = ground arith
append_live v e (x ∷ xs) h = ground (arith, append_live v e xs h.1)

-- A new live item in `_heap`.
push_live :
    (v : ℕ → Bool) (i : HeapItem) (h : List HeapItem)
    → Below i.entry.ident (heap_entries h)
    → Inserted i.entry
        (live_in v (heap_entries h))
        (live_in (set_valid i.entry.ident true v) (heap_entries (heappush i h)))
unfolding heappush
push_live v i [] b =
    let alone : live_in (set_valid i.entry.ident true v) (i.entry ∷ []) ≡ i.entry ∷ [] =
      ground arith in
    rw alone here
push_live v i (j ∷ h) b = elim (Bool-cases (item_lt i j)) [
  | inl t ↦
      let first : live_in v' (heap_entries (heappush i (j ∷ h)))
          ≡ i.entry ∷ live_in v' (heap_entries (j ∷ h)) =
        ground arith in
      rw (first, live_in_fresh v i.entry.ident true (heap_entries (j ∷ h)) b) here
  | inr f ↦ elim (Bool-cases (v j.entry.ident)) [
    | inl l ↦
        let after : live_in v' (heap_entries (heappush i (j ∷ h)))
            ≡ j.entry ∷ live_in v' (heap_entries (heappush i h)) =
          ground arith in
        let before : live_in v (heap_entries (j ∷ h)) ≡ j.entry ∷ live_in v (heap_entries h) =
          ground arith in
        rw (after, before) (there (push_live v i h b.1))
    | inr d ↦
        let after : live_in v' (heap_entries (heappush i (j ∷ h)))
            ≡ live_in v' (heap_entries (heappush i h)) =
          ground arith in
        let before : live_in v (heap_entries (j ∷ h)) ≡ live_in v (heap_entries h) = ground arith in
        rw (after, before) (push_live v i h b.1)
  ]
]
  where
    v' : ℕ → Bool
    v' = set_valid i.entry.ident true v

Below-heappush :
    (n : ℕ) (i : HeapItem) (h : List HeapItem)
    → i.entry.ident < n
    → Below n (heap_entries h)
    → Below n (heap_entries (heappush i h))
unfolding heappush
Below-heappush n i [] l b = (l, tt)
Below-heappush n i (j ∷ h) l b = elim (Bool-cases (item_lt i j)) [
  | inl t ↦ rw (t, heappush) (l, b)
  | inr f ↦ rw (f, heappush) (b.0, Below-heappush n i h l b.1)
]

-- `append` keeps the queue consistent, also for a block that is queued already.
pub append-IsConsistent :
    (b : PhysicalTokenBlock) (q : FreeBlockQueue) → IsConsistent q → IsConsistent (append b q)
unfolding append enter
append-IsConsistent b q c =
    let (d, absent) = invalidate-IsConsistent b q c in
    let r = invalidate b q in
    let e : Entry = record { block = b; ident = r.next_entry } in
    let fifo_side = append_live r.valid e r.fifo d.below_fifo in
    let heap_side = live_in_fresh r.valid r.next_entry true (heap_entries r.heap) d.below_heap in
    record {
      tracks =
          Tracks-insert d.tracks
            (rw (fifo_side, heap_side) (Inserted-middle e (fifo_live r) (heap_live r))) absent
            (All-append (λ x. x.ident ≢ r.next_entry) (fifo_live r) (heap_live r)
              (not_next r.valid r.next_entry r.fifo d.below_fifo)
              (not_next r.valid r.next_entry (heap_entries r.heap) d.below_heap));
      below_fifo =
          All-append (λ x. x.ident < r.next_entry + 1) r.fifo (e ∷ [])
            (Below-suc r.next_entry r.fifo d.below_fifo) (omega arith);
      below_heap = Below-suc r.next_entry (heap_entries r.heap) d.below_heap;
    }

-- `append_lru` keeps the queue consistent, also for a block that is queued already.
pub append_lru-IsConsistent :
    (m : Memory) (b : PhysicalTokenBlock) (q : FreeBlockQueue)
    → IsConsistent q
    → IsConsistent (append_lru m b q)
unfolding append_lru enter
append_lru-IsConsistent m b q c =
    let (d, absent) = invalidate-IsConsistent b q c in
    let r = invalidate b q in
    let e : Entry = record { block = b; ident = r.next_entry } in
    let i : HeapItem = record {
      last_accessed = (read m b).last_accessed;
      seq = r.seq + 1;
      entry = e;
    } in
    let fifo_side = live_in_fresh r.valid r.next_entry true r.fifo d.below_fifo in
    record {
      tracks =
          Tracks-insert d.tracks
            (rw fifo_side (Inserted-right (fifo_live r) (push_live r.valid i r.heap d.below_heap)))
            absent
            (All-append (λ x. x.ident ≢ r.next_entry) (fifo_live r) (heap_live r)
              (not_next r.valid r.next_entry r.fifo d.below_fifo)
              (not_next r.valid r.next_entry (heap_entries r.heap) d.below_heap));
      below_fifo = Below-suc r.next_entry r.fifo d.below_fifo;
      below_heap =
          Below-heappush (r.next_entry + 1) i r.heap (omega arith)
            (Below-suc r.next_entry (heap_entries r.heap) d.below_heap);
    }

pub empty-IsConsistent : IsConsistent empty
unfolding get
empty-IsConsistent = record {
  tracks = record {
    distinct = tt;
    unique = tt;
    agree = tt;
    listed = λ n e g. absurd (cc g);
    counted = refl;
  };
  below_fifo = tt;
  below_heap = tt;
}
