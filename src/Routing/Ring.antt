-- ===== src/Routing/Ring.antt =====
-- The ring of `ConsistentHashRouter` in TokenSim/placement/consistent_hash.py: `positions`, `ranks` and
-- `rank_for_key`, which picks the first virtual node from the key's hash on, round the ring.
use token_sim.Prelude.{
  or_zero, ℕ, zero, suc, ◌%◌, ◌≤◌, ◌<◌, ◌≡◌, refl, ap, ◌∙◌, true, Option, some, List, [], ◌∷◌, ltb,
  leb, ◌==◌, if◌then◌else◌, nat_eq, length, get_elem?, All, Bool-cases, Option-cases, inl, inr, ◌⊎◌,
  arith, ==_refl, subst,
}
use native.Mathlib.Nat.{mod-eq_of_lt, mod_self}
use token_sim.Prelude.Dict.{Dict, get, has, has-cons}

-- `sorted(ring)`
abbrev pub insert : ℕ → List ℕ → List ℕ
insert x [] = x ∷ []
insert x (y ∷ ys) = let rest = insert x ys in if leb x y then x ∷ y ∷ ys else y ∷ rest

abbrev pub sorted_keys : Dict ℕ ℕ → List ℕ
sorted_keys [] = []
sorted_keys ((p, r) ∷ ring) = insert p (sorted_keys ring)

-- `bisect.bisect_left` on a sorted list: the number of entries before the first that is not less.
abbrev pub bisect_left : List ℕ → ℕ → ℕ
bisect_left [] h = 0
bisect_left (x ∷ xs) h = if ltb x h then suc (bisect_left xs h) else 0

-- `[ring[position] for position in self.positions]`
abbrev pub ranks_at : Dict ℕ ℕ → List ℕ → List ℕ
ranks_at ring [] = []
ranks_at ring (p ∷ ps) = or_zero (get p ring) ∷ ranks_at ring ps

-- `rank_for_key`, of a key's hash.
unfoldable pub rank_for_hash : Dict ℕ ℕ → ℕ → Option ℕ
rank_for_hash ring h =
    let positions = sorted_keys ring in
    let ranks = ranks_at ring positions in get_elem? ranks (bisect_left positions h % length ranks)

-- The node that serves a hash: the first at or after it, or the first of all where none is.
abbrev pub Serves : Dict ℕ ℕ → ℕ → ℕ → Type 0
Serves ring h p =
    (h ≤ p) × ((q : ℕ) → has q ring ≡ true → h ≤ q → p ≤ q)
    ⊎ ((q : ℕ) → has q ring ≡ true → (q < h) × (p ≤ q))

abbrev Sorted : List ℕ → Type 0
Sorted [] = Unit
Sorted (x ∷ xs) = All (λ y. x ≤ y) xs × Sorted xs

All-insert : (P : ℕ → Type 0) (x : ℕ) (ys : List ℕ) → P x → All P ys → All P (insert x ys)
All-insert P x [] h a = (h, tt)
All-insert P x (y ∷ ys) h (hy, a) = elim (Bool-cases (leb x y)) [
  | inl t ↦ rw t (h, (hy, a))
  | inr f ↦ rw f (hy, All-insert P x ys h a)
]

All-le : (x y : ℕ) (ys : List ℕ) → x ≤ y → All (λ z. y ≤ z) ys → All (λ z. x ≤ z) ys
All-le x y [] h a = tt
All-le x y (z ∷ zs) h (hz, a) = (omega arith, All-le x y zs h a)

insert-Sorted : (x : ℕ) (ys : List ℕ) → Sorted ys → Sorted (insert x ys)
insert-Sorted x [] s = (tt, tt)
insert-Sorted x (y ∷ ys) (a, s) = elim (Bool-cases (leb x y)) [
  | inl t ↦ let below : x ≤ y = ground (arith, t) in rw t ((below, All-le x y ys below a), (a, s))
  | inr f ↦ rw f (All-insert (λ z. y ≤ z) x ys (ground (arith, f)) a, insert-Sorted x ys s)
]

sorted_keys-Sorted : (ring : Dict ℕ ℕ) → Sorted (sorted_keys ring)
sorted_keys-Sorted [] = tt
sorted_keys-Sorted ((p, r) ∷ ring) = insert-Sorted p (sorted_keys ring) (sorted_keys-Sorted ring)

All-of_insert : (P : ℕ → Type 0) (x : ℕ) (ys : List ℕ) → All P (insert x ys) → P x × All P ys
All-of_insert P x [] (h, t) = (h, tt)
All-of_insert P x (y ∷ ys) a = elim (Bool-cases (leb x y)) [
  | inl t ↦ rw t at a
  | inr f ↦
      let (hy, rest) : P y × All P (insert x ys) = rw f at a in
      let (hx, others) = All-of_insert P x ys rest in (hx, (hy, others))
]

-- What holds of every sorted key holds of every key.
All-sorted_keys :
    (P : ℕ → Type 0) (ring : Dict ℕ ℕ)
    → All P (sorted_keys ring)
    → (q : ℕ) → has q ring ≡ true
    → P q
unfolding get
All-sorted_keys P [] a q h = absurd (ground (arith, h))
All-sorted_keys P ((p, r) ∷ ring) a q h =
    let (here, rest) = All-of_insert P p (sorted_keys ring) a in
    elim (Bool-cases (p == q)) [
      | inl same ↦ subst P ((nat_eq.eqb_iff p q).0 same) here
      | inr other ↦ All-sorted_keys P ring rest q (ground (arith, h, other, has-cons q p r ring))
    ]

All-of_keys :
    (P : ℕ → Type 0) (ring : Dict ℕ ℕ)
    → ((q : ℕ) → has q ring ≡ true → P q)
    → All P (sorted_keys ring)
All-of_keys P [] h = tt
All-of_keys P ((p, r) ∷ ring) h =
    All-insert P p (sorted_keys ring) (h p (rw (has-cons p p r ring, ==_refl p) refl))
      (All-of_keys P ring (λ q there. h q (ground (arith, has-cons q p r ring, there))))

-- What `bisect_left` finds in a sorted list.
abbrev Found : List ℕ → ℕ → ℕ → Type 0
Found xs h i =
    (i ≡ length xs) × All (λ q. q < h) xs
    ⊎ (p : ℕ) × (get_elem? xs i ≡ some p) × (i < length xs) × (h ≤ p) × All (λ q. h ≤ q → p ≤ q) xs

later : (x h : ℕ) (ys : List ℕ) → All (λ y. x ≤ y) ys → All (λ q. h ≤ q → x ≤ q) ys
later x h [] a = tt
later x h (y ∷ ys) (b, a) = ((λ _. b), later x h ys a)

bisect_left_lem : (xs : List ℕ) (h : ℕ) → Sorted xs → Found xs h (bisect_left xs h)
bisect_left_lem [] h s = inl (refl, tt)
bisect_left_lem (x ∷ xs) h (a, s) = elim (Bool-cases (ltb x h)) [
  | inr here ↦
      rw here
        (inr (x, refl, omega arith, ground (arith, here), ((λ _. omega arith), later x h xs a)))
  | inl before ↦
      let less : x < h = ground (arith, before) in
      elim (bisect_left_lem xs h s) [
        | inl (e, all) ↦ rw before (inl (ap suc e, (less, all)))
        | inr (p, got, inside, above, first) ↦
            rw before (inr (p, got, omega arith, above, ((λ over. absurd (omega arith)), first)))
      ]
]

get_elem?-ranks_at :
    (ring : Dict ℕ ℕ) (ps : List ℕ) (i p : ℕ)
    → get_elem? ps i ≡ some p
    → get_elem? (ranks_at ring ps) i ≡ some (or_zero (get p ring))
get_elem?-ranks_at ring [] i p h = absurd (cc h)
get_elem?-ranks_at ring (q ∷ ps) zero p h = let e : q ≡ p = ground (arith, h) in rw e refl
get_elem?-ranks_at ring (q ∷ ps) (suc i) p h = get_elem?-ranks_at ring ps i p h

length-ranks_at : (ring : Dict ℕ ℕ) (ps : List ℕ) → length (ranks_at ring ps) ≡ length ps
length-ranks_at ring [] = refl
length-ranks_at ring (p ∷ ps) = ap suc (length-ranks_at ring ps)

length-insert : (x : ℕ) (ys : List ℕ) → length (insert x ys) ≡ suc (length ys)
length-insert x [] = refl
length-insert x (y ∷ ys) = elim (Bool-cases (leb x y)) [
  | inl t ↦ rw t refl
  | inr f ↦ rw f (ap suc (length-insert x ys))
]

length-sorted_keys : (ring : Dict ℕ ℕ) → length (sorted_keys ring) ≡ length ring
length-sorted_keys [] = refl
length-sorted_keys ((p, r) ∷ ring) =
    length-insert p (sorted_keys ring) ∙ ap suc (length-sorted_keys ring)

All-at : (P : ℕ → Type 0) (xs : List ℕ) (i p : ℕ) → get_elem? xs i ≡ some p → All P xs → P p
All-at P [] i p h a = absurd (cc h)
All-at P (x ∷ xs) zero p h (b, a) = let e : x ≡ p = ground (arith, h) in subst P e b
All-at P (x ∷ xs) (suc i) p h (b, a) = All-at P xs i p h a

module _ (ring : Dict ℕ ℕ) (h : ℕ) where
  -- The rank of a node, once the index that `rank_for_key` computes is known to be the node's.
  abbrev Answer : Type 0
  Answer = (p r : ℕ) × (get p ring ≡ some r) × (rank_for_hash ring h ≡ some r) × Serves ring h p

  answered :
      (i p : ℕ)
      → bisect_left (sorted_keys ring) h % length (sorted_keys ring) ≡ i
      → get_elem? (sorted_keys ring) i ≡ some p
      → Serves ring h p
      → Answer
  unfolding rank_for_hash
  answered i p e got serves = elim (Option-cases (get p ring)) [
    | inl absent ↦ absurd (
        ground (
          arith,
          absent,
          All-at (λ q. has q ring ≡ true) (sorted_keys ring) i p got
              (All-of_keys _ ring (λ q t. t)),
        ))
    | inr (r, there) ↦ (
      p,
      r,
      there,
      rw (length-ranks_at ring (sorted_keys ring), e)
          (get_elem?-ranks_at ring (sorted_keys ring) i p got
            ∙ ap (λ (o : Option ℕ). some (or_zero o)) there),
      serves,
    )
  ]

  first_of :
      (ps : List ℕ)
      → ps ≡ sorted_keys ring
      → 0 < length ps
      → bisect_left ps h ≡ length ps
      → All (λ q. q < h) ps
      → Sorted ps
      → Answer
  first_of [] same some_node end before s = absurd (omega arith)
  first_of (p ∷ ps) same some_node end before s =
      answered 0 p
        (rw (← same) (ap (λ (i : ℕ). i % length (p ∷ ps)) end ∙ mod_self (length (p ∷ ps))))
        (rw (← same) refl)
        (inr (λ q there. (
          All-sorted_keys (λ x. x < h) ring
              (subst (λ (ks : List ℕ). All (λ x. x < h) ks) same before) q there,
          All-sorted_keys (λ x. p ≤ x) ring
              (subst (λ (ks : List ℕ). All (λ x. p ≤ x) ks) same (first_le p ps s)) q there,
        )))
    where
      first_le : (x : ℕ) (xs : List ℕ) → Sorted (x ∷ xs) → All (λ y. x ≤ y) (x ∷ xs)
      first_le x xs (a, s) = (omega arith, a)

  -- A ring with a node sends every hash to the rank of the node that serves it: the first at or after the
  -- hash, or the first of all where every node is before it.
  pub rank_for_hash_lem : 0 < length ring → Answer
  rank_for_hash_lem some_node =
      let ps = sorted_keys ring in
      elim (bisect_left_lem ps h (sorted_keys-Sorted ring)) [
        | inl (end, before) ↦
            first_of ps refl (omega (arith, length-sorted_keys ring)) end before
              (sorted_keys-Sorted ring)
        | inr (p, got, inside, above, first) ↦
            answered (bisect_left ps h) p (mod-eq_of_lt inside) got
              (inl (above, λ q there. All-sorted_keys (λ x. h ≤ x → p ≤ x) ring first q there))
      ]
