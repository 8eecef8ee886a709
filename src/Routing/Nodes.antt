-- ===== src/Routing/Nodes.antt =====
-- The nodes that the constructor of `ConsistentHashRouter` puts on the ring, and the
-- workers of their ranks (TokenSim/placement/consistent_hash.py).
use token_sim.Prelude.{
  ℕ, zero, suc, ◌+◌, ◌<◌, ◌≡◌, refl, sym, ◌∙◌, subst, true, some, List, [], ◌∷◌, ◌==◌, ==_refl,
  nat_eq, string_eq, length, arith, Bool-cases, inl, inr,
}
use token_sim.Prelude.Dict.{Dict, get, put, has, get-put_same, get-put_other, has-cons}
use token_sim.Routing.Hash.{fbi_hash}
use token_sim.Routing.Sessions.{Worker, add_nodes, add_ranks, virtual_nodes}

-- Every node belongs to a rank with a worker, and there is a node.
abbrev pub HasWorkers : Dict ℕ Worker → Dict ℕ ℕ → Type 0
HasWorkers workers ring = (p r : ℕ) → get p ring ≡ some r → has r workers ≡ true

put-HasWorkers :
    (workers : Dict ℕ Worker) (p r : ℕ) (ring : Dict ℕ ℕ)
    → has r workers ≡ true
    → HasWorkers workers ring
    → HasWorkers workers (put p r ring)
put-HasWorkers workers p r ring there all q s got = elim (Bool-cases (p == q)) [
  | inl t ↦
      let same : r ≡ s = ground (arith, get-put_same p q r ring t, got) in
      subst (λ (x : ℕ). has x workers ≡ true) same there
  | inr f ↦ all q s (sym (get-put_other p q r ring f) ∙ got)
]

length-put_some : (k v : ℕ) (d : Dict ℕ ℕ) → 0 < length (put k v d)
unfolding put
length-put_some k v [] = omega arith
length-put_some k v ((j, w) ∷ d) = ground arith

module _ (label : ℕ → ℕ → List ℕ) where
  add_nodes-HasWorkers :
      (workers : Dict ℕ Worker) (rank ordinal count : ℕ) (ring : Dict ℕ ℕ)
      → has rank workers ≡ true
      → HasWorkers workers ring
      → HasWorkers workers (add_nodes label rank ordinal count ring)
  unfolding add_nodes
  add_nodes-HasWorkers workers rank ordinal zero ring there all = all
  add_nodes-HasWorkers workers rank ordinal (suc count) ring there all =
      add_nodes-HasWorkers workers rank (ordinal + 1) count
        (put (fbi_hash (label rank ordinal)) rank ring) there
        (put-HasWorkers workers (fbi_hash (label rank ordinal)) rank ring there all)

  add_nodes-nonempty :
      (rank ordinal count : ℕ) (ring : Dict ℕ ℕ)
      → 0 < count + length ring
      → 0 < length (add_nodes label rank ordinal count ring)
  unfolding add_nodes
  add_nodes-nonempty rank ordinal zero ring h = omega arith
  add_nodes-nonempty rank ordinal (suc count) ring h =
      add_nodes-nonempty rank (ordinal + 1) count (put (fbi_hash (label rank ordinal)) rank ring)
        (omega (arith, length-put_some (fbi_hash (label rank ordinal)) rank ring))

  pub add_ranks-HasWorkers :
      (workers rest : Dict ℕ Worker) (ring : Dict ℕ ℕ)
      → ((r : ℕ) → has r rest ≡ true → has r workers ≡ true)
      → HasWorkers workers ring
      → HasWorkers workers (add_ranks label rest ring)
  unfolding add_ranks
  add_ranks-HasWorkers workers [] ring sub all = all
  add_ranks-HasWorkers workers ((rank, w) ∷ rest) ring sub all =
      add_ranks-HasWorkers workers rest (add_nodes label rank 0 virtual_nodes ring)
        (λ r there. sub r (
          rw (has-cons r rank w rest)
            (elim (Bool-cases (rank == r)) [ inl t ↦ rw t refl | inr f ↦ rw f there ])))
        (add_nodes-HasWorkers workers rank 0 virtual_nodes ring
          (sub rank (rw (has-cons rank rank w rest, ==_refl rank) refl)) all)

  pub add_ranks-nonempty :
      (rest : Dict ℕ Worker) (ring : Dict ℕ ℕ)
      → 0 < length rest + length ring
      → 0 < length (add_ranks label rest ring)
  unfolding add_ranks
  add_ranks-nonempty [] ring h = omega arith
  add_ranks-nonempty ((rank, w) ∷ rest) ring h =
      add_ranks-nonempty rest (add_nodes label rank 0 virtual_nodes ring)
        (omega (arith, add_nodes-nonempty rank 0 virtual_nodes ring (omega arith)))
