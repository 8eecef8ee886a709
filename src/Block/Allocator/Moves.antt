-- ===== src/Block/Allocator/Moves.antt =====
-- The three ways in which a call changes who references a block, each keeping the pool conserved.
use token_sim.Prelude.{
  ℕ, ◌+◌, ◌<◌, ◌≡◌, ◌≢◌, refl, sym, ap, ◌∙◌, inl, inr, none, some, arith, if◌then◌else◌, ◌==◌,
  nat_eq, nat_cases,
}
use token_sim.Prelude.Dict.{get, put, get-put}
use token_sim.Block.Physical.{PhysicalTokenBlock, Memory}
use token_sim.Block.FreeQueue.{Entry, FreeBlockQueue}
use token_sim.Block.FreeQueue.Live
use token_sim.Block.Pool.{BlockPool}
use token_sim.Block.Allocator.Consistency.{IsConserved}

-- The reference counts of `m'` are those of `m` with the one of `b` set to `k`.
abbrev pub Sets : Memory → PhysicalTokenBlock → ℕ → Memory → Type 0
Sets m b k m' = (i : ℕ) → (m'.cell i).ref_count ≡ (if i == b.ident then k else (m.cell i).ref_count)

module _ (m : Memory) (p : BlockPool) (b : PhysicalTokenBlock) (c : IsConserved m p) where
  other_ident :
      (n : ℕ) (x : PhysicalTokenBlock)
      → get b.block_number p.materialized ≡ some b
      → get n p.materialized ≡ some x
      → b.block_number ≢ n
      → x.ident ≢ b.ident
  other_ident n x mine theirs ne same = ne (c.apart b.block_number n b x mine theirs (sym same))

  -- Somebody references `b`, and it is not in the queue.
  pub hold :
      (k : ℕ) (m' : Memory) (q : FreeBlockQueue)
      → get b.block_number p.materialized ≡ some b
      → 0 < k
      → Sets m b k m'
      → m'.next ≡ m.next
      → Live.IsConsistent q
      → ((n : ℕ)
          → get n q.entries ≡ (if b.block_number == n then none else get n p.free_blocks.entries))
      → IsConserved m' (record p { free_blocks = q })
  hold k m' q mine pos sets next queue found = record {
    queue = queue;
    fresh_le = c.fresh_le;
    owned = λ n x h. let (a, d, e, f) = c.owned n x h in (a, d, rw next e, f);
    apart = c.apart;
    idle = λ n e h. elim (nat_cases b.block_number n) [
      | inl s ↦ absurd (ground (arith, found n))
      | inr ne ↦
          let old : get n p.free_blocks.entries ≡ some e = ground (arith, found n) in
          let (x, y) = c.idle n e old in
          (x, ground (arith, sets e.block.ident, other_ident n e.block mine x ne))
    ];
    held = λ n x h g. elim (nat_cases b.block_number n) [
      | inl s ↦
          let is_b : some x ≡ some b =
            sym h ∙ ap (λ (j : ℕ). get j p.materialized) (sym s) ∙ mine in
          let ids : x.ident ≡ b.ident = cc is_b in ground (arith, sets x.ident)
      | inr ne ↦
          let old : get n p.free_blocks.entries ≡ none = ground (arith, found n) in
          ground (arith, sets x.ident, other_ident n x mine h ne, c.held n x h old)
    ];
  }

  -- Nobody references `b` any more, and it is in the queue.
  pub let_go :
      (m' : Memory) (q : FreeBlockQueue) (e : Entry)
      → get b.block_number p.materialized ≡ some b
      → Sets m b 0 m'
      → m'.next ≡ m.next
      → Live.IsConsistent q
      → e.block ≡ b
      → ((n : ℕ)
          → get n q.entries ≡ (if b.block_number == n then some e else get n p.free_blocks.entries))
      → IsConserved m' (record p { free_blocks = q })
  let_go m' q e mine sets next queue is_b found = record {
    queue = queue;
    fresh_le = c.fresh_le;
    owned = λ n x h. let (a, d, f, g) = c.owned n x h in (a, d, rw next f, g);
    apart = c.apart;
    idle = λ n x h. elim (nat_cases b.block_number n) [
      | inl s ↦
          let same : some x ≡ some e = sym h ∙ ground (arith, found n) in
          let block : x.block ≡ b = cc (same, is_b) in
          let mine_n : get n p.materialized ≡ some b =
            ap (λ (j : ℕ). get j p.materialized) (sym s) ∙ mine in
          (
            rw (block, mine_n),
            ground (arith, sets x.block.ident, ap (λ (y : PhysicalTokenBlock). y.ident) block),
          )
      | inr ne ↦
          let old : get n p.free_blocks.entries ≡ some x = ground (arith, found n) in
          let (y, z) = c.idle n x old in
          (y, ground (arith, sets x.block.ident, other_ident n x.block mine y ne))
    ];
    held = λ n x h g. elim (nat_cases b.block_number n) [
      | inl s ↦ absurd (ground (arith, found n))
      | inr ne ↦
          let old : get n p.free_blocks.entries ≡ none = ground (arith, found n) in
          ground (arith, sets x.ident, other_ident n x mine h ne, c.held n x h old)
    ];
  }

-- A new object, referenced once.
module _ (m : Memory) (p : BlockPool) (c : IsConserved m p) where
  abbrev pub fresh : PhysicalTokenBlock
  fresh = record {
    device = p.device;
    block_number = p.next_fresh;
    block_size = p.block_size;
    ident = m.next;
  }

  abbrev pub grown : BlockPool
  grown = record p {
    materialized = put p.next_fresh fresh p.materialized;
    next_fresh = p.next_fresh + 1;
  }

  pub build :
      (m' : Memory)
      → p.next_fresh < p.num_blocks
      → Sets m fresh 1 m'
      → m'.next ≡ m.next + 1
      → IsConserved m' grown
  build m' room sets next = record {
    queue = c.queue;
    fresh_le = omega arith;
    owned = λ n x h. elim (nat_cases p.next_fresh n) [
      | inl s ↦
          let is_new : some fresh ≡ some x =
            ground (arith, get-put p.next_fresh n fresh p.materialized) in
          let e : fresh ≡ x = cc is_new in rw (← e) (s, omega arith, omega arith, refl)
      | inr ne ↦
          let old : get n p.materialized ≡ some x =
            ground (arith, get-put p.next_fresh n fresh p.materialized) in
          let (a, d, f, g) = c.owned n x old in (a, omega arith, omega arith, g)
    ];
    apart = λ i j x y hx hy e. ground (
      arith,
      get-put p.next_fresh i fresh p.materialized,
      get-put p.next_fresh j fresh p.materialized,
      c.apart i j x y,
      c.owned i x,
      c.owned j y,
    );
    idle = λ n e h.
        let (x, y) = c.idle n e h in
        let (a, d, f, g) = c.owned n e.block x in
        (
          ground (arith, get-put p.next_fresh n fresh p.materialized),
          ground (arith, sets e.block.ident),
        );
    held = λ n x h g.
        ground (
          arith,
          get-put p.next_fresh n fresh p.materialized,
          sets x.ident,
          c.held n x,
          c.owned n x,
        );
  }
