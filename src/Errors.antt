-- ===== src/Errors.antt =====
-- TokenSim/errors.py, with Python's IndexError, KeyError and ZeroDivisionError, and methods that mutate an object and may raise:
-- what was written before a raise stays written, so the state comes back beside the error too.
use token_sim.Prelude.{◌≡◌, ◌⊎◌, inl, inr, refl, arith}

pub data Error : Type 0 where
  configuration_error workload_validation_error simulation_state_error : Error
  out_of_blocks_error transfer_error index_error key_error zero_division_error : Error

pub data Outcome {ℓ} (A : Type ℓ) : Type ℓ where
  ok : A → Outcome A
  raise : Error → Outcome A

-- What follows a call that reads only.
abbrev pub and_then {ℓ κ} : {A : Type ℓ} {B : Type κ} → Outcome A → (A → Outcome B) → Outcome B
and_then (ok a) f = f a
and_then (raise e) f = raise e

abbrev pub Action {ℓ κ} : Type ℓ → Type κ → Type (ℓ ⊔ κ)
Action S A = S → Outcome A × S

module _ {ℓ κ} {S : Type ℓ} {A : Type κ} where
  abbrev pub pure : A → Action S A
  pure a s = (ok a, s)

  abbrev pub throw : Error → Action S A
  throw e s = (raise e, s)

  abbrev pub gets : (S → A) → Action S A
  gets f s = (ok (f s), s)

abbrev pub modify {ℓ} : {S : Type ℓ} → (S → S) → Action S (Unit {0})
modify f s = (ok tt, f s)

module _ {ℓ κ μ} {S : Type ℓ} {A : Type κ} {B : Type μ} where
  abbrev pub continue : Outcome A → (A → Action S B) → Action S B
  continue (ok a) f s = f a s
  continue (raise e) f s = (raise e, s)

  infixl 10 ◌>>=◌ ◌>>◌
  abbrev pub ◌>>=◌ : Action S A → (A → Action S B) → Action S B
  ◌>>=◌ m f s = let (r, s') = m s in continue r f s'

  abbrev pub ◌>>◌ : Action S A → Action S B → Action S B
  m >> n = m >>= λ _. n

-- A chain that returns has returned at its first part.
pub continue_ok {ℓ κ μ} :
    {S : Type ℓ} {A : Type κ} {B : Type μ} (r : Outcome A) (f : A → Action S B) (s s' : S) (b : B)
    → continue r f s ≡ (ok b, s')
    → (a : A) × (r ≡ ok a) × (f a s ≡ (ok b, s'))
continue_ok (ok a) f s s' b h = (a, refl, h)
continue_ok (raise e) f s s' b h = absurd (ground arith)

pub Outcome-cases {ℓ} :
    {A : Type ℓ} (r : Outcome A) → ((a : A) × (r ≡ ok a)) ⊎ ((e : Error) × (r ≡ raise e))
Outcome-cases (ok a) = inl (a, refl)
Outcome-cases (raise e) = inr (e, refl)

-- A call whose outcome is known, with the state it leaves.
pub with_state {ℓ κ} :
    {S : Type ℓ} {A : Type κ} (o : Outcome A × S) (r : Outcome A) → o.0 ≡ r → o ≡ (r, o.1)
with_state o r h = λ i. (h i, o.1)

pub and_then_ok {ℓ κ} :
    {A : Type ℓ} {B : Type κ} (r : Outcome A) (f : A → Outcome B) (b : B)
    → and_then r f ≡ ok b
    → (a : A) × (r ≡ ok a) × (f a ≡ ok b)
and_then_ok (ok a) f b h = (a, refl, h)
and_then_ok (raise e) f b h = absurd (ground arith)
