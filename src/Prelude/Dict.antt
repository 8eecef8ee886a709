-- ===== src/Prelude/Dict.antt =====
-- Python's `dict` and `OrderedDict` as an association list in insertion order: an update keeps a
-- key's place, a new key goes to the end.
use Prim.Native.Nat.{ℕ, ◌+◌}
use mathlib.Core.Bool.{Bool, true, false}
use mathlib.Core.Path.{◌≡◌, refl, ap}
use mathlib.Core.List.{List, [], ◌∷◌}
use mathlib.Core.Option.{Option, none, some}
use native.Mathlib.Omega.{arith}
use token_sim.Prelude.Tests.{Eq, ◌==◌, ==_refl, if◌then◌else◌}
use token_sim.Prelude.Lists.{length}

abbrev pub Dict {ℓ κ} : Type ℓ → Type κ → Type (ℓ ⊔ κ)
Dict K V = List (K × V)

module _ {ℓ κ} {K : Type ℓ} {V : Type κ} ⦃e : Eq K⦄ where
  -- d.get(k)
  unfoldable pub get : K → Dict K V → Option V
  get k [] = none
  get k ((j, v) ∷ d) = if j == k then some v else get k d

  -- d[k] = v
  unfoldable pub put : K → V → Dict K V → Dict K V
  put k v [] = (k, v) ∷ []
  put k v ((j, w) ∷ d) = if j == k then (j, v) ∷ d else (j, w) ∷ put k v d

  -- d.pop(k, None)
  unfoldable pub remove : K → Dict K V → Dict K V
  remove k [] = []
  remove k ((j, v) ∷ d) = if j == k then d else (j, v) ∷ remove k d

  -- Every key occurs once, which holds of every Python dict.
  abbrev pub Distinct : Dict K V → Type κ
  Distinct [] = Unit
  Distinct ((k, v) ∷ d) = (get k d ≡ none) × Distinct d

module _ {ℓ κ} {K : Type ℓ} {V : Type κ} ⦃e : Eq K⦄ where
  pub get-put :
      (k j : K) (v : V) (d : Dict K V) → get j (put k v d) ≡ (if k == j then some v else get j d)
  unfolding get put
  get-put k j v [] = refl
  get-put k j v ((i, w) ∷ d) =
      ground (arith, get-put k j v d, e.eqb_iff i k, e.eqb_iff i j, e.eqb_iff k j)

  pub get-put_self : (k : K) (v : V) (d : Dict K V) → get k (put k v d) ≡ some v
  get-put_self k v d = rw (get-put k k v d, ==_refl k)

  pub get-put_same : (k j : K) (v : V) (d : Dict K V) → (k == j) ≡ true → get j (put k v d) ≡ some v
  get-put_same k j v d h = rw (get-put k j v d, h) refl

  pub get-put_other :
      (k j : K) (v : V) (d : Dict K V) → (k == j) ≡ false → get j (put k v d) ≡ get j d
  get-put_other k j v d h = rw (get-put k j v d, h) refl

  pub get-remove :
      (k j : K) (d : Dict K V)
      → Distinct d
      → get j (remove k d) ≡ (if k == j then none else get j d)
  unfolding get remove
  get-remove k j [] h = ground arith
  get-remove k j ((i, w) ∷ d) h = ground (
    arith,
    get-remove k j d h.1,
    e.eqb_iff i k,
    e.eqb_iff i j,
    e.eqb_iff k j,
    ap (λ (x : K). get x d),
  )

  pub put-Distinct : (k : K) (v : V) (d : Dict K V) → Distinct d → Distinct (put k v d)
  unfolding put get
  put-Distinct k v [] h = (refl, tt)
  put-Distinct k v ((i, w) ∷ d) h =
      ground (arith, put-Distinct k v d h.1, get-put k i v d, e.eqb_iff i k, e.eqb_iff k i)

  pub remove-Distinct : (k : K) (d : Dict K V) → Distinct d → Distinct (remove k d)
  unfolding remove get
  remove-Distinct k [] h = tt
  remove-Distinct k ((i, w) ∷ d) h =
      ground (arith, remove-Distinct k d h.1, get-remove k i d h.1, e.eqb_iff i k, e.eqb_iff k i)

  pub length-remove :
      (k : K) (v : V) (d : Dict K V) → get k d ≡ some v → length (remove k d) + 1 ≡ length d
  unfolding get remove
  length-remove k v [] h = ground arith
  length-remove k v ((i, w) ∷ d) h = ground (arith, length-remove k v d)

  pub remove_absent : (k : K) (d : Dict K V) → get k d ≡ none → remove k d ≡ d
  unfolding get remove
  remove_absent k [] h = refl
  remove_absent k ((i, w) ∷ d) h = ground (arith, remove_absent k d)

  pub length-put_new :
      (k : K) (v : V) (d : Dict K V) → get k d ≡ none → length (put k v d) ≡ length d + 1
  unfolding get put
  length-put_new k v [] h = omega arith
  length-put_new k v ((i, w) ∷ d) h = ground (arith, length-put_new k v d)

module _ {ℓ κ} {K : Type ℓ} {V : Type κ} ⦃e : Eq K⦄ where
  -- k in d
  abbrev pub has : K → Dict K V → Bool
  has k d = elim (get k d) [ none ↦ false | some _ ↦ true ]

  -- sum(weight(v) for v in d.values())
  abbrev pub total : (V → ℕ) → Dict K V → ℕ
  total weight [] = 0
  total weight ((k, v) ∷ d) = weight v + total weight d

  pub has-put :
      (k j : K) (v : V) (d : Dict K V) → has j (put k v d) ≡ (if k == j then true else has j d)
  has-put k j v d = ground (arith, get-put k j v d)

  pub has-remove :
      (k j : K) (d : Dict K V)
      → Distinct d
      → has j (remove k d) ≡ (if k == j then false else has j d)
  has-remove k j d h = ground (arith, get-remove k j d h)

  pub total-put_new :
      (weight : V → ℕ) (k : K) (v : V) (d : Dict K V)
      → get k d ≡ none
      → total weight (put k v d) ≡ total weight d + weight v
  unfolding get put
  total-put_new weight k v [] h = omega arith
  total-put_new weight k v ((i, w) ∷ d) h = ground (arith, total-put_new weight k v d)

  pub total-put_old :
      (weight : V → ℕ) (k : K) (v w : V) (d : Dict K V)
      → get k d ≡ some w
      → total weight (put k v d) + weight w ≡ total weight d + weight v
  unfolding get put
  total-put_old weight k v w [] h = ground arith
  total-put_old weight k v w ((i, u) ∷ d) h =
      ground (arith, total-put_old weight k v w d, λ (p : u ≡ w). ap weight p)

  pub total-remove :
      (weight : V → ℕ) (k : K) (v : V) (d : Dict K V)
      → get k d ≡ some v
      → total weight (remove k d) + weight v ≡ total weight d
  unfolding get remove
  total-remove weight k v [] h = ground arith
  total-remove weight k v ((i, w) ∷ d) h =
      ground (arith, total-remove weight k v d, λ (p : w ≡ v). ap weight p)

  pub has-cons :
      (k j : K) (v : V) (d : Dict K V) → has k ((j, v) ∷ d) ≡ (if j == k then true else has k d)
  unfolding get
  has-cons k j v d = ground arith
