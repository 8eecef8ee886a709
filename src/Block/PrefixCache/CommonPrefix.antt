-- ===== src/Block/PrefixCache/CommonPrefix.antt =====
-- `_common_prefix` bisects, and finds the length of the longest common prefix.
use token_sim.Prelude.{
  ℕ, zero, suc, ◌+◌, ◌-◌, ◌/◌, ◌≤◌, ◌<◌, min, ◌≡◌, ◌≢◌, refl, ◌⊎◌, inl, inr, ◌↔◌, true, false,
  String, List, [], ◌∷◌, arith, ltb, ◌==◌, length, take, string_eq, nat_eq, Bool-cases,
}
use token_sim.Block.PrefixCache.{list_beq, bisect, same_head, common_prefix}

pub list_beq_iff : (xs ys : List String) → (list_beq xs ys ≡ true) ↔ (xs ≡ ys)
list_beq_iff [] [] = (λ e. refl, λ e. refl)
list_beq_iff (x ∷ xs) (y ∷ ys) = ground (arith, list_beq_iff xs ys, string_eq.eqb_iff x y)
list_beq_iff [] (y ∷ ys) = (λ e. cc e, λ e. cc e)
list_beq_iff (x ∷ xs) [] = (λ e. cc e, λ e. cc e)

-- The bisection, from bounds between which the lists begin to differ.
bisect_lem :
    (left right : List String) (fuel low high : ℕ)
    → high - low ≤ fuel
    → low < high
    → take low left ≡ take low right
    → take high left ≢ take high right
    → let n = bisect left right fuel low high in
      (take n left ≡ take n right) × (take (n + 1) left ≢ take (n + 1) right) × (n < high)
unfolding bisect
bisect_lem left right zero low high enough lt same differ = absurd (omega arith)
bisect_lem left right (suc fuel) low high enough lt same differ =
    elim (Bool-cases (ltb 1 (high - low))) [
      | inr done ↦
          let next : high ≡ low + 1 = ground arith in
          rw (done, bisect) (same, rw next at differ, lt)
      | inl more ↦
          let middle = (low + high) / 2 in
          let wide : 1 < high - low = ground arith in
          elim (Bool-cases (list_beq (take middle left) (take middle right))) [
            | inl eq ↦
                rw (more, eq, bisect)
                  (bisect_lem left right fuel middle high (omega arith) (omega arith)
                    ((list_beq_iff _ _).0 eq) differ)
            | inr ne ↦
                let (a, b, c) =
                  bisect_lem left right fuel low middle (omega arith) (omega arith) same
                    (λ e. cc (ne, (list_beq_iff (take middle left) (take middle right)).1 e)) in
                rw (more, ne, bisect) (a, b, omega arith)
          ]
    ]

-- `n` is the length of the longest common prefix.
pub record IsLongestPrefix (left right : List String) (n : ℕ) : Type 0 where
  pub same : take n left ≡ take n right
  pub within_left : n ≤ length left
  pub within_right : n ≤ length right
  pub maximal : (n ≡ min (length left) (length right)) ⊎ (take (n + 1) left ≢ take (n + 1) right)

heads_differ :
    (left right : List String)
    → same_head left right ≡ false
    → (0 ≡ min (length left) (length right)) ⊎ (take 1 left ≢ take 1 right)
heads_differ [] right h = inl (omega arith)
heads_differ (x ∷ xs) [] h = inl (omega arith)
heads_differ (x ∷ xs) (y ∷ ys) h = inr (λ e. ground (arith, string_eq.eqb_iff x y))

heads_same : (left right : List String) → same_head left right ≡ true → take 1 left ≡ take 1 right
heads_same (x ∷ xs) (y ∷ ys) h = ground (arith, string_eq.eqb_iff x y)
heads_same [] ys h = absurd (cc h)
heads_same (x ∷ xs) [] h = absurd (cc h)

-- The binary search returns the length of the longest common prefix.
pub common_prefix-IsLongestPrefix :
    (left right : List String) → IsLongestPrefix left right (common_prefix left right)
unfolding common_prefix
common_prefix-IsLongestPrefix left right = elim (Bool-cases (size == 0)) [
  | inl z ↦ rw z (record {
    same = refl;
    within_left = omega arith;
    within_right = omega arith;
    maximal = inl (ground arith);
  })
  | inr nz ↦ elim (Bool-cases (same_head left right)) [
    | inr h ↦
        rw (nz, h)
          (record {
            same = refl;
            within_left = omega arith;
            within_right = omega arith;
            maximal = heads_differ left right h;
          })
    | inl h ↦ elim (Bool-cases (list_beq (take size left) (take size right))) [
      | inl eq ↦
          rw (nz, h, eq)
            (record {
              same = (list_beq_iff _ _).0 eq;
              within_left = omega arith;
              within_right = omega arith;
              maximal = inl refl;
            })
      | inr ne ↦
          let differ : take size left ≢ take size right =
            λ e. cc (ne, (list_beq_iff (take size left) (take size right)).1 e) in
          let one_lt : 1 < size = one_below (ground arith) differ h in
          let (a, b, c) =
            bisect_lem left right size 1 size (omega arith) one_lt (heads_same left right h)
              differ in
          rw (nz, h, ne)
            (record {
              same = a;
              within_left = omega arith;
              within_right = omega arith;
              maximal = inr b;
            })
    ]
  ]
]
  where
    size : ℕ
    size = min (length left) (length right)

    one_below : 0 < size → take size left ≢ take size right → same_head left right ≡ true → 1 < size
    one_below pos differ h = elim (Bool-cases (size == 1)) [
      | inl e ↦
          let one : size ≡ 1 = ground arith in absurd (differ (rw one (heads_same left right h)))
      | inr ne ↦ ground arith
    ]
