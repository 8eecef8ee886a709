-- ===== src/Storage/Offload/Capacity.antt =====
-- The offload tier stays within its capacity, whatever it replaces.
use token_sim.Prelude.{
  or_zero, ℕ, ◌⊎◌, ◌+◌, ◌-◌, ◌≤◌, ◌≡◌, ◌≢◌, refl, sym, ap, ◌∙◌, true, not, ◌&&◌, none, some, List,
  [], ◌∷◌, ltb, leb, ◌==◌, nat_eq, String, string_eq, All, ==_refl, Bool-cases, Option-cases, inl,
  inr, arith,
}
use token_sim.Prelude.Dict.{
  Dict, get, remove, has, has-cons, total, Distinct, get-put_self, get-remove, put-Distinct,
  remove-Distinct, total-put_new, total-remove, remove_absent,
}
use token_sim.Errors.{Outcome, ok, raise, configuration_error}
use token_sim.Storage.Offload.{
  OffloadTier, OffloadOperation, Media, remove_existing, remove_all, collect, make_available,
  install, refused, write,
}

abbrev pub size_of : String → OffloadTier → ℕ
size_of k t = or_zero (get k t.blocks)

pub record IsWithin (t : OffloadTier) : Type 0 where
  pub blocks_distinct : Distinct t.blocks
  pub lru_distinct : Distinct t.lru
  pub counted : t.used_blocks ≡ total (λ n. n) t.blocks
  pub within : t.used_blocks ≤ t.capacity_blocks

-- The blocks of a list of keys.
abbrev pub sizes : List String → OffloadTier → ℕ
sizes [] t = 0
sizes (k ∷ ks) t = size_of k t + sizes ks t

-- No key of the list stands there twice.
abbrev pub Apart : List String → Type 0
Apart [] = Unit
Apart (k ∷ ks) = All (λ j. j ≢ k) ks × Apart ks

total_without :
    (k : String) (d : Dict String ℕ)
    → total (λ n. n) (remove k d) + or_zero (get k d) ≡ total (λ n. n) d
total_without k d = elim (Option-cases (get k d)) [
  | inl absent ↦ ground (arith, remove_absent k d absent, absent)
  | inr (n, present) ↦ ground (arith, total-remove (λ m. m) k n d present, present)
]

remove_existing-IsWithin :
    (k : String) (t : OffloadTier)
    → IsWithin t
    → IsWithin (remove_existing k t)
      × ((remove_existing k t).used_blocks + size_of k t ≡ t.used_blocks)
      × ((j : String) → j ≢ k → size_of j (remove_existing k t) ≡ size_of j t)
      × (get k (remove_existing k t).blocks ≡ none)
unfolding remove_existing
remove_existing-IsWithin k t c =
    let less = total_without k t.blocks in
    (
      record {
        blocks_distinct = remove-Distinct k t.blocks c.blocks_distinct;
        lru_distinct = remove-Distinct k t.lru c.lru_distinct;
        counted = omega (arith, c.counted, less);
        within = omega (arith, c.within);
      },
      omega (arith, less, c.counted),
      (λ j ne.
          ground (arith, get-remove k j t.blocks c.blocks_distinct, string_eq.eqb_iff k j, ne)),
      rw (get-remove k k t.blocks c.blocks_distinct, ==_refl k),
    )

sizes-remove_existing :
    (k : String) (ks : List String) (t : OffloadTier)
    → IsWithin t
    → All (λ j. j ≢ k) ks
    → sizes ks (remove_existing k t) ≡ sizes ks t
sizes-remove_existing k [] t c n = refl
sizes-remove_existing k (j ∷ ks) t c (ne, n) =
    let (kept, freed, same, gone) = remove_existing-IsWithin k t c in
    omega (arith, same j ne, sizes-remove_existing k ks t c n)

remove_all-IsWithin :
    (ks : List String) (t : OffloadTier)
    → IsWithin t
    → Apart ks
    → IsWithin (remove_all ks t)
      × ((remove_all ks t).used_blocks + sizes ks t ≡ t.used_blocks)
      × ((j : String) → All (λ k. k ≢ j) ks → size_of j (remove_all ks t) ≡ size_of j t)
      × ((remove_all ks t).capacity_blocks ≡ t.capacity_blocks)
unfolding remove_all remove_existing
remove_all-IsWithin [] t c a = (c, omega arith, (λ j n. refl), refl)
remove_all-IsWithin (k ∷ ks) t c (ne, a) =
    let (kept, freed, same, gone) = remove_existing-IsWithin k t c in
    let (kept', freed', same', capacity) = remove_all-IsWithin ks (remove_existing k t) kept a in
    (
      kept',
      omega (arith, freed, freed', sizes-remove_existing k ks t c ne),
      (λ j n. same' j n.1 ∙ same j (λ p. n.0 (sym p))),
      capacity,
    )

-- Every key of the list is one of the tier's queue.
abbrev pub Queued : List String → Dict String (Unit {0}) → Type 0
Queued ks lru = All (λ k. has k lru ≡ true) ks

Queued-later :
    (c : String) (u : Unit {0}) (lru : Dict String (Unit {0})) (ks : List String)
    → get c lru ≡ none
    → Queued ks lru
    → Queued ks ((c, u) ∷ lru) × All (λ j. j ≢ c) ks
Queued-later c u lru [] absent q = (tt, tt)
Queued-later c u lru (k ∷ ks) absent (here, q) =
    let (later, apart) = Queued-later c u lru ks absent q in
    (
      (ground (arith, has-cons k c u lru, here), later),
      ((λ (p : k ≡ c). ground (arith, here, absent, ap (λ j. has j lru) p)), apart),
    )

-- What `collect` returns: candidates that are queued, apart and other than `k`, and what they make available.
abbrev pub Collected : String → OffloadTier → Dict String (Unit {0}) → ℕ → List String × ℕ → Type 0
Collected k t lru available (cs, left) =
    (left ≡ available + sizes cs t) × All (λ c. c ≢ k) cs × Apart cs × Queued cs lru

collect_lem :
    (k : String) (extra now : ℕ) (t : OffloadTier) (lru : Dict String (Unit {0})) (available : ℕ)
    → Distinct lru
    → Collected k t lru available (collect k extra now t lru available)
unfolding collect
collect_lem k extra now t [] available d = (omega arith, tt, tt, tt)
collect_lem k extra now t ((c, u) ∷ lru) available (absent, d) =
    let more = available + size_of c t in
    let (sum, others, apart, queued) = collect_lem k extra now t lru more d in
    let (sum', others', apart', queued') = collect_lem k extra now t lru available d in
    let first : has c ((c, u) ∷ lru) ≡ true = rw (has-cons c c u lru, ==_refl c) refl in
    elim (Bool-cases (not (c == k) && leb (or_zero (get c t.protected_until)) now)) [
      | inl free ↦
          let other : c ≢ k = (λ p. ground (arith, free, string_eq.eqb_iff c k, p)) in
          elim (Bool-cases (leb extra more)) [
            | inl enough ↦ rw (free, enough) (omega arith, (other, tt), (tt, tt), (first, tt))
            | inr short ↦
                let (later, ne) = Queued-later c u lru _ absent queued in
                rw (free, short) (omega (arith, sum), (other, others), (ne, apart), (first, later))
          ]
      | inr held ↦
          let (later, ne) = Queued-later c u lru _ absent queued' in
          rw held (sum', others', apart', later)
    ]

-- The key and the blocks it leaves to the others, once `candidates` are gone.
install-IsWithin :
    (k : String) (n : ℕ) (candidates : List String) (t : OffloadTier)
    → IsWithin t
    → Apart candidates
    → All (λ c. c ≢ k) candidates
    → n - size_of k t ≤ t.capacity_blocks - t.used_blocks + sizes candidates t
    → IsWithin (install k n candidates t) × (get k (install k n candidates t).blocks ≡ some n)
unfolding remove_all remove_existing
install-IsWithin k n candidates t c apart others room =
    let (kept, freed, same, capacity) = remove_all-IsWithin candidates t c apart in
    let cleared = remove_all candidates t in
    let (kept', freed', same', gone) = remove_existing-IsWithin k cleared kept in
    (
      record {
        blocks_distinct = put-Distinct k n _ kept'.blocks_distinct;
        lru_distinct = put-Distinct k tt _ kept'.lru_distinct;
        counted = omega (
          arith,
          kept'.counted,
          total-put_new (λ m. m) k n (remove_existing k cleared).blocks gone,
        );
        within = omega (
          arith,
          kept'.within,
          kept.within,
          c.within,
          freed,
          freed',
          same k others,
          capacity,
          room,
        );
      },
      get-put_self k n (remove_existing k cleared).blocks,
    )

-- The candidates are apart and other than `k`, whether they had to be collected or not.
make_available_lem :
    (k : String) (extra now : ℕ) (t : OffloadTier)
    → IsWithin t
    → (let (cs, left) = make_available k extra now t in
        (left ≡ t.capacity_blocks - t.used_blocks + sizes cs t) × All (λ c. c ≢ k) cs × Apart cs)
make_available_lem k extra now t c =
    let available = t.capacity_blocks - t.used_blocks in
    let (sum, others, apart, queued) = collect_lem k extra now t t.lru available c.lru_distinct in
    elim (Bool-cases (ltb available extra)) [
      | inl short ↦ rw short (sum, others, apart)
      | inr enough ↦ rw enough (omega arith, tt, tt)
    ]

-- What a write of `blocks` under `k` comes to.
abbrev pub Written : String → ℕ → OffloadTier → Outcome OffloadOperation × OffloadTier → Type 0
Written k blocks t (r, t') =
    (r ≡ raise configuration_error) × (t.capacity_blocks ≡ 0) × (t' ≡ t)
    ⊎ (r ≡ ok (refused k)) × (t' ≡ t)
    ⊎ (o : OffloadOperation) × (r ≡ ok o) × (o.blocks ≡ blocks) × (get k t'.blocks ≡ some blocks)

-- A write of any size keeps the used blocks within the capacity and equal to what the keys hold. It
-- raises only without a capacity; where it raises or refuses the key the tier stays as it is, and
-- otherwise the key holds the blocks written.
pub write-IsWithin :
    (m : Media) (k : String) (blocks now : ℕ) (t : OffloadTier)
    → IsWithin t
    → IsWithin (write m k blocks now t).1 × Written k blocks t (write m k blocks now t)
unfolding write
write-IsWithin m k blocks now t c =
    let extra = blocks - size_of k t in
    let (sum, others, apart) = make_available_lem k extra now t c in
    elim (Bool-cases (t.capacity_blocks == 0)) [
      | inl empty ↦ rw empty (c, inl (refl, ground (arith, empty), refl))
      | inr some_room ↦ elim (Bool-cases (ltb t.capacity_blocks blocks)) [
        | inl large ↦ rw (some_room, large) (c, inr (inl (refl, refl)))
        | inr fits ↦ elim (Bool-cases (ltb (make_available k extra now t).1 extra)) [
          | inl short ↦ rw (some_room, fits, short) (c, inr (inl (refl, refl)))
          | inr enough ↦
              let (kept, there) =
                install-IsWithin k blocks (make_available k extra now t).0 t c apart others
                  (ground (arith, sum, enough)) in
              rw (some_room, fits, enough) (kept, inr (inr (_, refl, refl, there)))
        ]
      ]
    ]
