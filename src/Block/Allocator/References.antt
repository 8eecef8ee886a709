-- ===== src/Block/Allocator/References.antt =====
-- `acquire` and `free`: one reference more or less, and the free queue that follows.
use token_sim.Prelude.{
  ℕ, ◌+◌, ◌-◌, ◌<◌, ◌≡◌, refl, ap, inl, inr, false, none, some, arith, if◌then◌else◌, ◌==◌, nat_eq,
  Option-cases, Bool-cases,
}
use token_sim.Prelude.Dict.{get}
use token_sim.Errors.{Outcome, ok, raise, simulation_state_error}
use token_sim.Block.Physical.{PhysicalTokenBlock, read, device_eq}
use token_sim.Block.FreeQueue
use token_sim.Block.FreeQueue.{Entry, FreeBlockQueue, append_unique, append_lru, append, invalidate}
use token_sim.Block.FreeQueue.Live
use token_sim.Block.FreeQueue.Lookup.{
  get-append, get-append_lru, get-invalidate, size-append, size-append_lru, size-invalidate,
  new_entry,
}
use token_sim.Block.Pool.{validate_owned, owns, append_free_block, remove_from_free_queue}
use token_sim.Block.Allocator.{
  BlockAllocator, get_num_free_blocks, ref_count, set_ref_count, acquire, acquire_owned, free,
  free_owned,
}
use token_sim.Block.Allocator.Moves.{Sets, hold, let_go}
use token_sim.Block.Allocator.Calls.{IsAllocator}

-- The pool owns this very object.
abbrev pub IsOwned : PhysicalTokenBlock → BlockAllocator → Type 0
IsOwned b a = get b.block_number a.pool.materialized ≡ some b

module _ (b : PhysicalTokenBlock) (a : BlockAllocator) (c : IsAllocator a)
    (mine : IsOwned b a) where
  validated : validate_owned a.pool b ≡ ok tt
  unfolding validate_owned
  validated =
      let (n, f, i, d) = c.owned b.block_number b mine in
      ground (arith, mine, device_eq.eqb_iff b.device a.pool.device)

  -- A queued block is one that nobody references, and the other way round.
  queued :
      ref_count a b ≡ 0 → (e : Entry) × (get b.block_number a.pool.free_blocks.entries ≡ some e)
  queued idle = elim (Option-cases (get b.block_number a.pool.free_blocks.entries)) [
    | inl e ↦ absurd (omega (arith, c.held b.block_number b mine e))
    | inr x ↦ x
  ]

  not_queued : 0 < ref_count a b → get b.block_number a.pool.free_blocks.entries ≡ none
  not_queued pos = elim (Option-cases (get b.block_number a.pool.free_blocks.entries)) [
    | inl e ↦ e
    | inr (x, e) ↦
        let (owner, idle) = c.idle b.block_number x e in
        let same : x.block ≡ b = cc (owner, mine) in
        absurd
          (ground (arith, idle, ap (λ (y : PhysicalTokenBlock). (read a.memory y).ref_count) same))
  ]

  -- The queue that `acquire` leaves.
  abbrev acquired_queue : FreeBlockQueue
  acquired_queue =
      if ref_count a b == 0 then invalidate b a.pool.free_blocks else a.pool.free_blocks

  acquired_consistent : Live.IsConsistent acquired_queue
  acquired_consistent = elim (Bool-cases (ref_count a b == 0)) [
    | inl z ↦ rw z (Live.invalidate-IsConsistent b a.pool.free_blocks c.queue).0
    | inr nz ↦ rw nz c.queue
  ]

  acquired_found :
      (n : ℕ)
      → get n acquired_queue.entries
        ≡ (if b.block_number == n then none else get n a.pool.free_blocks.entries)
  acquired_found n = elim (Bool-cases (ref_count a b == 0)) [
    | inl z ↦ rw z (get-invalidate b a.pool.free_blocks n c.queue.tracks.distinct)
    | inr nz ↦ rw nz (
        ground (arith, not_queued (ground arith), ap (λ (j : ℕ). get j a.pool.free_blocks.entries)))
  ]

  acquired_pool : (acquire_owned b a).pool ≡ record a.pool { free_blocks = acquired_queue }
  unfolding acquire_owned remove_from_free_queue
  acquired_pool = ground arith

  acquired-Sets : Sets a.memory b (ref_count a b + 1) (acquire_owned b a).memory
  unfolding acquire_owned
  acquired-Sets i = ground arith

  acquired_next : (acquire_owned b a).memory.next ≡ a.memory.next
  unfolding acquire_owned
  acquired_next = ground arith

  acquire_eq : acquire b a ≡ (ok tt, acquire_owned b a)
  unfolding acquire
  acquire_eq = rw validated

  -- `acquire` of an owned block succeeds with one reference more, and takes an idle block out of the
  -- free queue.
  pub acquire_lem :
      ((acquire b a).0 ≡ ok tt)
      × IsAllocator (acquire b a).1
      × (ref_count (acquire b a).1 b ≡ ref_count a b + 1)
      × (get_num_free_blocks (acquire b a).1 + (if ref_count a b == 0 then 1 else 0)
          ≡ get_num_free_blocks a)
  acquire_lem = rw acquire_eq (
    refl,
    rw acquired_pool (
        hold a.memory a.pool b c (ref_count a b + 1) (acquire_owned b a).memory acquired_queue mine
          (omega arith) acquired-Sets acquired_next acquired_consistent acquired_found),
    ground (arith, acquired-Sets b.ident),
    rw acquired_pool count,
  )
    where
      count :
          get_num_free_blocks (record a { pool = record a.pool { free_blocks = acquired_queue } })
            + (if ref_count a b == 0 then 1 else 0)
          ≡ get_num_free_blocks a
      count = elim (Bool-cases (ref_count a b == 0)) [
        | inl z ↦
            let (e, h) = queued (ground arith) in
            rw z (omega (arith, size-invalidate b a.pool.free_blocks e h))
        | inr nz ↦ rw nz (omega arith)
      ]

  free_ok : 0 < ref_count a b → (free_owned b a).0 ≡ ok tt
  unfolding free_owned
  free_ok pos = ground arith

  free-Sets : 0 < ref_count a b → Sets a.memory b (ref_count a b - 1) (free_owned b a).1.memory
  unfolding free_owned
  free-Sets pos i = ground arith

  free_next : 0 < ref_count a b → (free_owned b a).1.memory.next ≡ a.memory.next
  unfolding free_owned
  free_next pos = ground arith

  -- The last reference puts the block into the queue.
  record Requeued (q : FreeBlockQueue) : Type 0 where
    pool : (free_owned b a).1.pool ≡ record a.pool { free_blocks = q }
    consistent : Live.IsConsistent q
    found :
        (n : ℕ)
        → get n q.entries ≡ (
            if b.block_number == n
            then some (new_entry b a.pool.free_blocks)
            else get n a.pool.free_blocks.entries)
    size : FreeQueue.size q ≡ FreeQueue.size a.pool.free_blocks + 1

  Requeued-last :
      ref_count a b ≡ 1
      → (append_to : FreeBlockQueue) → append_to ≡ append b a.pool.free_blocks
      → (free_owned b a).1.pool ≡ record a.pool { free_blocks = append_to }
      → Requeued append_to
  Requeued-last one q e pool = record {
    pool = pool;
    consistent = rw e (Live.append-IsConsistent b a.pool.free_blocks c.queue);
    found = λ n. rw e (get-append b a.pool.free_blocks n c.queue.tracks.distinct);
    size = rw e (size-append b a.pool.free_blocks (not_queued (omega arith)));
  }

  requeued : ref_count a b ≡ 1 → (q : FreeBlockQueue) × Requeued q
  unfolding free_owned append_unique append_free_block
  requeued one = elim (Bool-cases a.has_manager) [
    | inl m ↦ elim (Bool-cases (read a.memory b).cached) [
      | inl t ↦
          let lowered = set_ref_count b (ref_count a b - 1) a.memory in
          (
            append_lru lowered b a.pool.free_blocks,
            record {
              pool = ground arith;
              consistent = Live.append_lru-IsConsistent lowered b a.pool.free_blocks c.queue;
              found = λ n. get-append_lru b a.pool.free_blocks lowered n c.queue.tracks.distinct;
              size = size-append_lru b a.pool.free_blocks lowered (not_queued (omega arith));
            },
          )
      | inr f ↦ (
        append_unique b a.pool.free_blocks,
        Requeued-last one (append_unique b a.pool.free_blocks)
            (ground (arith, not_queued (omega arith))) (ground arith),
      )
    ]
    | inr m ↦ (
      append b a.pool.free_blocks,
      Requeued-last one (append b a.pool.free_blocks) refl (ground arith),
    )
  ]

  free_shared_pool : 1 < ref_count a b → (free_owned b a).1.pool ≡ a.pool
  unfolding free_owned
  free_shared_pool more = ground arith

  abbrev AfterFree : Outcome (Unit {0}) × BlockAllocator → Type 0
  AfterFree r =
      (r.0 ≡ ok tt)
      × IsAllocator r.1
      × (ref_count r.1 b + 1 ≡ ref_count a b)
      × (get_num_free_blocks r.1 ≡ get_num_free_blocks a + (if ref_count a b == 1 then 1 else 0))

  -- `free` of a referenced block succeeds with one reference less; the last one returns the block to
  -- the free queue.
  pub free_lem : 0 < ref_count a b → AfterFree (free b a)
  unfolding free
  free_lem pos = rw validated (elim (Bool-cases (ref_count a b == 1)) [
    | inl one ↦
        let is_one : ref_count a b ≡ 1 = ground arith in
        let (q, r) = requeued is_one in
        (
          free_ok pos,
          rw r.pool (
              let_go a.memory a.pool b c (free_owned b a).1.memory q
                (new_entry b a.pool.free_blocks) mine (λ i. ground (arith, free-Sets pos i))
                (free_next pos) r.consistent refl r.found),
          omega (arith, free_sets_self pos),
          rw (r.pool, one) (omega (arith, r.size)),
        )
    | inr more ↦
        let two : 1 < ref_count a b = ground arith in
        (
          free_ok pos,
          rw (free_shared_pool two) (
              hold a.memory a.pool b c (ref_count a b - 1) (free_owned b a).1.memory
                a.pool.free_blocks mine (omega arith) (free-Sets pos) (free_next pos) c.queue
                (λ n.
                  ground
                    (arith, not_queued pos, ap (λ (j : ℕ). get j a.pool.free_blocks.entries)))),
          omega (arith, free_sets_self pos),
          rw (free_shared_pool two, more) (omega arith),
        )
  ])
    where
      free_sets_self : 0 < ref_count a b → ref_count (free_owned b a).1 b ≡ ref_count a b - 1
      free_sets_self p = ground (arith, free-Sets p b.ident)

-- `acquire` of a block that the pool does not own raises and changes nothing.
pub acquire_foreign :
    (b : PhysicalTokenBlock) (a : BlockAllocator)
    → owns a.pool b ≡ false
    → acquire b a ≡ (raise simulation_state_error, a)
unfolding acquire validate_owned
acquire_foreign b a h = ground arith
