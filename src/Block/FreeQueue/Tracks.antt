-- ===== src/Block/FreeQueue/Tracks.antt =====
-- How `_entries` and the sequence of live entries of a FreeBlockQueue belong together, and how an
-- insertion and a removal keep that.
use token_sim.Prelude.{
  ℕ, ◌+◌, ◌≡◌, refl, ap, ◌≢◌, ◌⊎◌, inl, inr, none, some, List, [], ◌∷◌, arith, nat_cases, length,
  All, nat_eq,
}
use token_sim.Prelude.Dict.{
  Dict, get, put, remove, Distinct, get-put, get-remove, put-Distinct, remove-Distinct,
  length-remove, length-put_new,
}
use token_sim.Block.FreeQueue.{Entry}

-- The second list is the first with `e` put in at some place.
pub data Inserted (e : Entry) : List Entry → List Entry → Type 0 where
  here : {xs : List Entry} → Inserted e xs (e ∷ xs)
  there : {x : Entry} {xs ys : List Entry} → Inserted e xs ys → Inserted e (x ∷ xs) (x ∷ ys)

abbrev pub In : Entry → List Entry → Type 0
In e [] = ⊥
In e (x ∷ xs) = (x ≡ e) ⊎ In e xs

abbrev pub Apart : Entry → Entry → Type 0
Apart e x = (x.block.block_number ≢ e.block.block_number) × (x.ident ≢ e.ident)

abbrev pub Unique : List Entry → Type 0
Unique [] = Unit
Unique (x ∷ xs) = All (Apart x) xs × Unique xs

pub length-Inserted :
    {e : Entry} {xs ys : List Entry} → Inserted e xs ys → length ys ≡ length xs + 1
length-Inserted {xs = xs} here = omega arith
length-Inserted (there i) = omega (arith, length-Inserted i)

pub Inserted-In : {e : Entry} {xs ys : List Entry} → Inserted e xs ys → In e ys
Inserted-In here = inl refl
Inserted-In (there i) = inr (Inserted-In i)

pub Inserted-old :
    (x : Entry) {e : Entry} {xs ys : List Entry} → Inserted e xs ys → In x xs → In x ys
Inserted-old x here m = inr m
Inserted-old x (there i) (inl p) = inl p
Inserted-old x (there i) (inr m) = inr (Inserted-old x i m)

pub Inserted-cases :
    (x : Entry) {e : Entry} {xs ys : List Entry} → Inserted e xs ys → In x ys → (e ≡ x) ⊎ In x xs
Inserted-cases x here (inl p) = inl p
Inserted-cases x here (inr m) = inr m
Inserted-cases x (there i) (inl p) = inr (inl p)
Inserted-cases x (there i) (inr m) = elim (Inserted-cases x i m) [
  | inl p ↦ inl p
  | inr n ↦ inr (inr n)
]

pub Inserted-All :
    (P : Entry → Type 0) {e : Entry} {xs ys : List Entry}
    → Inserted e xs ys
    → P e
    → All P xs
    → All P ys
Inserted-All P here p a = (p, a)
Inserted-All P (there i) p a = (a.0, Inserted-All P i p a.1)

pub All-Inserted :
    (P : Entry → Type 0) {e : Entry} {xs ys : List Entry}
    → Inserted e xs ys
    → All P ys
    → P e × All P xs
All-Inserted P here a = a
All-Inserted P (there i) a = let (p, r) = All-Inserted P i a.1 in (p, (a.0, r))

pub All-in : (P : Entry → Type 0) (e : Entry) (xs : List Entry) → All P xs → In e xs → P e
All-in P e (x ∷ xs) a (inl p) = rw (← p) a.0
All-in P e (x ∷ xs) a (inr m) = All-in P e xs a.1 m
All-in P e [] a m = absurd m

pub Apart-sym : (e x : Entry) → Apart e x → Apart x e
Apart-sym e x a = (λ p. a.0 (rw p), λ p. a.1 (rw p))

pub Unique-Inserted :
    {e : Entry} {xs ys : List Entry} → Inserted e xs ys → Unique ys → All (Apart e) xs × Unique xs
Unique-Inserted here u = u
Unique-Inserted {e} (there {x = x} i) u =
    let (a, r) = Unique-Inserted i u.1 in
    let (b, s) = All-Inserted (Apart x) i u.0 in ((Apart-sym x e b, a), (s, r))

pub Inserted-Unique :
    {e : Entry} {xs ys : List Entry} → Inserted e xs ys → All (Apart e) xs → Unique xs → Unique ys
Inserted-Unique here a u = (a, u)
Inserted-Unique {e} (there {x = x} i) a u =
    (Inserted-All (Apart x) i (Apart-sym e x a.0) u.0, Inserted-Unique i a.1 u.1)

-- `_entries` maps each live entry's number to it, and holds nothing else.
pub record Tracks (entries : Dict ℕ Entry) (live : List Entry) : Type 0 where
  pub distinct : Distinct entries
  pub unique : Unique live
  pub agree : All (λ e. get e.block.block_number entries ≡ some e) live
  pub listed : (n : ℕ) (e : Entry) → get n entries ≡ some e → (e.block.block_number ≡ n) × In e live
  pub counted : length entries ≡ length live

module _ (entries : Dict ℕ Entry) (e : Entry) where
  Apart-of_absent :
      (xs : List Entry)
      → get e.block.block_number entries ≡ none
      → All (λ x. get x.block.block_number entries ≡ some x) xs
      → All (λ x. x.ident ≢ e.ident) xs
      → All (Apart e) xs
  Apart-of_absent [] h a f = tt
  Apart-of_absent (x ∷ xs) h a f =
      ((λ p. cc (h, a.0, ap (λ n. get n entries) p), f.0), Apart-of_absent xs h a.1 f.1)

  agree_put :
      (xs : List Entry)
      → All (Apart e) xs
      → All (λ x. get x.block.block_number entries ≡ some x) xs
      → All (λ x. get x.block.block_number (put e.block.block_number e entries) ≡ some x) xs
  agree_put [] a g = tt
  agree_put (x ∷ xs) a g = (
    ground (arith, get-put e.block.block_number x.block.block_number e entries, g.0, a.0.0),
    agree_put xs a.1 g.1,
  )

  agree_remove :
      (xs : List Entry)
      → Distinct entries
      → All (Apart e) xs
      → All (λ x. get x.block.block_number entries ≡ some x) xs
      → All (λ x. get x.block.block_number (remove e.block.block_number entries) ≡ some x) xs
  agree_remove [] d a g = tt
  agree_remove (x ∷ xs) d a g = (
    ground (arith, get-remove e.block.block_number x.block.block_number entries d, g.0, a.0.0),
    agree_remove xs d a.1 g.1,
  )

pub Tracks-insert :
    {entries : Dict ℕ Entry} {e : Entry} {xs ys : List Entry}
    → Tracks entries xs
    → Inserted e xs ys
    → get e.block.block_number entries ≡ none
    → All (λ x. x.ident ≢ e.ident) xs
    → Tracks (put e.block.block_number e entries) ys
Tracks-insert {entries} {e} {xs} {ys} t i h f =
    let n = e.block.block_number in
    let apart : All (Apart e) xs = Apart-of_absent entries e xs h t.agree f in
    record {
      distinct = put-Distinct n e entries t.distinct;
      unique = Inserted-Unique i apart t.unique;
      agree =
          Inserted-All (λ x. get x.block.block_number (put n e entries) ≡ some x) i
            (ground (arith, get-put n n e entries)) (agree_put entries e xs apart t.agree);
      listed = λ m x g. listed_put m x g;
      counted = omega (arith, length-put_new n e entries h, length-Inserted i, t.counted);
    }
  where
    listed_put :
        (m : ℕ) (x : Entry)
        → get m (put e.block.block_number e entries) ≡ some x
        → (x.block.block_number ≡ m) × In x ys
    listed_put m x g = elim (nat_cases m e.block.block_number) [
      | inl p ↦
          let q : e ≡ x = ground (arith, get-put e.block.block_number m e entries, p) in
          (rw (← q) (rw p), rw (← q) (Inserted-In i))
      | inr p ↦
          let q : get m entries ≡ some x =
            ground (arith, get-put e.block.block_number m e entries, p) in
          let (a, b) = t.listed m x q in (a, Inserted-old x i b)
    ]

pub Tracks-delete :
    {entries : Dict ℕ Entry} {e : Entry} {xs ys : List Entry}
    → Tracks entries ys
    → Inserted e xs ys
    → Tracks (remove e.block.block_number entries) xs
Tracks-delete {entries} {e} {xs} {ys} t i =
    let n = e.block.block_number in
    let (apart, unique) = Unique-Inserted i t.unique in
    let (here_e, rest) = All-Inserted (λ x. get x.block.block_number entries ≡ some x) i t.agree in
    record {
      distinct = remove-Distinct n entries t.distinct;
      unique = unique;
      agree = agree_remove entries e xs t.distinct apart rest;
      listed = λ m x g. listed_remove m x g;
      counted = omega (arith, length-remove n e entries here_e, length-Inserted i, t.counted);
    }
  where
    listed_remove :
        (m : ℕ) (x : Entry)
        → get m (remove e.block.block_number entries) ≡ some x
        → (x.block.block_number ≡ m) × In x xs
    listed_remove m x g = elim (nat_cases m e.block.block_number) [
      | inl p ↦ absurd (ground (arith, get-remove e.block.block_number m entries t.distinct, p))
      | inr p ↦
          let q : get m entries ≡ some x =
            ground (arith, get-remove e.block.block_number m entries t.distinct, p) in
          let (a, b) = t.listed m x q in
          (
            a,
            elim (Inserted-cases x i b) [
              | inl r ↦ absurd (p (cc (a, ap (λ (y : Entry). y.block.block_number) r)))
              | inr r ↦ r
            ],
          )
    ]
