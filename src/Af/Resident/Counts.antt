-- ===== src/Af/Resident/Counts.antt =====
-- What the loops of `admit` and `release` (TokenSim/af/runtime/admission.py) do to the counts of a dictionary.
use token_sim.Prelude.{
  ℕ, ◌+◌, ◌-◌, ◌≤◌, ◌≡◌, refl, sym, ap, ◌∙◌, subst, true, none, [], ◌∷◌, Eq, ◌==◌, ==_refl,
  if◌then◌else◌, or_zero, arith, Bool-cases, inl, inr, ◌⊎◌,
}
use token_sim.Prelude.Dict.{Dict, Distinct, get, put, has, has-put, has-cons, get-put}
use token_sim.Errors.{Outcome, ok}
use token_sim.Af.Resident.{count, add_each, add_or_new, subtract_each}

module _ {ℓ} {K : Type ℓ} ⦃e : Eq K⦄ where
  pub count-put :
      (k j : K) (v : ℕ) (d : Dict K ℕ) → count j (put k v d) ≡ (if k == j then v else count j d)
  count-put k j v d = elim (Bool-cases (k == j)) [
    | inl t ↦ ap or_zero (get-put k j v d) ∙ rw t refl
    | inr f ↦ ap or_zero (get-put k j v d) ∙ rw f refl
  ]

  pub count-cons :
      (j k : K) (n : ℕ) (d : Dict K ℕ) → count j ((k, n) ∷ d) ≡ (if k == j then n else count j d)
  unfolding get
  count-cons j k n d = elim (Bool-cases (k == j)) [ inl t ↦ rw t refl | inr f ↦ rw f refl ]

  -- A key that no entry has, counted after an equal key is.
  pub count-absent : (k j : K) (d : Dict K ℕ) → get k d ≡ none → (k == j) ≡ true → count j d ≡ 0
  count-absent k j d absent same =
      subst (λ (x : K). count x d ≡ 0) ((e.eqb_iff k j).0 same) (ap or_zero absent)

  -- The keys of the rest are there after the first entry is written.
  rest_there :
      (k : K) (n v : ℕ) (rest d : Dict K ℕ)
      → ((j : K) → has j ((k, n) ∷ rest) ≡ true → has j d ≡ true)
      → (j : K) → has j rest ≡ true
      → has j (put k v d) ≡ true
  rest_there k n v rest d there j h =
      ground (arith, has-put k j v d, has-cons j k n rest, there j, h)

  first_there :
      (k : K) (n : ℕ) (rest d : Dict K ℕ)
      → ((j : K) → has j ((k, n) ∷ rest) ≡ true → has j d ≡ true)
      → has k d ≡ true
  first_there k n rest d there = there k (has-cons k k n rest ∙ rw (==_refl k) refl)

  same_has : (k j : K) (v : ℕ) (d : Dict K ℕ) → has k d ≡ true → has j (put k v d) ≡ has j d
  same_has k j v d there = elim (Bool-cases (k == j)) [
    | inl t ↦
        has-put k j v d ∙ rw t (sym (subst (λ (x : K). has x d ≡ true) ((e.eqb_iff k j).0 t) there))
    | inr f ↦ has-put k j v d ∙ rw f refl
  ]

  -- The counts of a key before and after the first entry is written: it is the entry's key or another.
  entry_cases :
      (k j : K) (n v : ℕ) (rest d : Dict K ℕ)
      → get k rest ≡ none
      → (count j (put k v d) ≡ v)
          × (count j ((k, n) ∷ rest) ≡ n)
          × (count j rest ≡ 0)
          × (count k d ≡ count j d)
        ⊎ (count j (put k v d) ≡ count j d) × (count j ((k, n) ∷ rest) ≡ count j rest)
  entry_cases k j n v rest d absent = elim (Bool-cases (k == j)) [
    | inl t ↦ inl (
      count-put k j v d ∙ rw t refl,
      count-cons j k n rest ∙ rw t refl,
      count-absent k j rest absent t,
      ap (λ (x : K). count x d) ((e.eqb_iff k j).0 t),
    )
    | inr f ↦ inr (count-put k j v d ∙ rw f refl, count-cons j k n rest ∙ rw f refl)
  ]

  -- A loop that returns with every count `after` what the entries make of it, and the same keys.
  abbrev pub Adds : Dict K ℕ → Dict K ℕ → Outcome (Unit {0}) × Dict K ℕ → Type ℓ
  Adds sizes d out =
      (out.0 ≡ ok tt)
      × ((j : K) → (count j out.1 ≡ count j d + count j sizes) × (has j out.1 ≡ has j d))

  pub add_each-Adds :
      (sizes d : Dict K ℕ)
      → Distinct sizes
      → ((j : K) → has j sizes ≡ true → has j d ≡ true)
      → Adds sizes d (add_each sizes d)
  unfolding add_each get
  add_each-Adds [] d distinct there = (refl, λ j. (omega arith, refl))
  add_each-Adds ((k, n) ∷ rest) d (absent, distinct) there =
      let here = first_there k n rest d there in
      let (returned, each) =
        add_each-Adds rest (put k (count k d + n) d) distinct
          (rest_there k n (count k d + n) rest d there) in
      rw here (
        returned,
        λ j. (
          elim (entry_cases k j n (count k d + n) rest d absent) [
            | inl (now, listed, rest_none, same) ↦
                omega (arith, (each j).0, now, listed, rest_none, same)
            | inr (now, listed) ↦ omega (arith, (each j).0, now, listed)
          ],
          (each j).1 ∙ same_has k j (count k d + n) d here,
        ),
      )

  -- Every count grows by what the entries say, no key goes, and the keys of the entries are there.
  pub add_or_new-Adds :
      (sizes d : Dict K ℕ)
      → Distinct sizes
      → (j : K)
      → (count j (add_or_new sizes d) ≡ count j d + count j sizes)
        × (has j d ≡ true → has j (add_or_new sizes d) ≡ true)
        × (has j sizes ≡ true → has j (add_or_new sizes d) ≡ true)
  unfolding add_or_new get
  add_or_new-Adds [] d distinct j = (omega arith, (λ h. h), λ h. absurd (ground (arith, h)))
  add_or_new-Adds ((k, n) ∷ rest) d (absent, distinct) j =
      let v = count k d + n in
      let (counted, kept, added) = add_or_new-Adds rest (put k v d) distinct j in
      (
        elim (entry_cases k j n v rest d absent) [
          | inl (now, listed, rest_none, same) ↦
              omega (arith, counted, now, listed, rest_none, same)
          | inr (now, listed) ↦ omega (arith, counted, now, listed)
        ],
        (λ h. kept (ground (arith, has-put k j v d, h))),
        λ h. elim (Bool-cases (k == j)) [
          | inl t ↦ kept (has-put k j v d ∙ rw t refl)
          | inr f ↦ added (ground (arith, f, h, has-cons j k n rest))
        ],
      )

  -- A loop that takes away what is there returns, with every count less by it, and the same keys.
  abbrev pub Takes : Dict K ℕ → Dict K ℕ → Outcome (Unit {0}) × Dict K ℕ → Type ℓ
  Takes sizes d out =
      (out.0 ≡ ok tt)
      × ((j : K) → (count j out.1 + count j sizes ≡ count j d) × (has j out.1 ≡ has j d))

  pub subtract_each-Takes :
      (sizes d : Dict K ℕ)
      → Distinct sizes
      → ((j : K) → has j sizes ≡ true → has j d ≡ true)
      → ((j : K) → count j sizes ≤ count j d)
      → Takes sizes d (subtract_each sizes d)
  unfolding subtract_each get
  subtract_each-Takes [] d distinct there enough = (refl, λ j. (omega arith, refl))
  subtract_each-Takes ((k, n) ∷ rest) d (absent, distinct) there enough =
      let v = count k d - n in
      let here = first_there k n rest d there in
      let listed : count k ((k, n) ∷ rest) ≡ n = count-cons k k n rest ∙ rw (==_refl k) refl in
      let fits : n ≤ count k d = omega (arith, enough k, listed) in
      let (returned, each) =
        subtract_each-Takes rest (put k v d) distinct (rest_there k n v rest d there) (λ j.
          elim (entry_cases k j n v rest d absent) [
            | inl (now, listed, rest_none, same) ↦ omega (arith, rest_none)
            | inr (now, listed) ↦ omega (arith, enough j, now, listed)
          ]) in
      rw here (
        returned,
        λ j. (
          elim (entry_cases k j n v rest d absent) [
            | inl (now, listed, rest_none, same) ↦
                omega (arith, (each j).0, now, listed, rest_none, same, fits)
            | inr (now, listed) ↦ omega (arith, (each j).0, now, listed)
          ],
          (each j).1 ∙ same_has k j v d here,
        ),
      )
