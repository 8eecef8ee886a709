-- ===== src/Placement/Experts.antt =====
-- What `_assign_experts` and `_pp_rank_for_layer` cover, and how evenly.
use token_sim.Prelude.{
  ℕ, zero, suc, ◌+◌, ◌-◌, ◌*◌, ◌/◌, ◌%◌, ◌≤◌, ◌<◌, ◌≡◌, refl, ap, ◌∙◌, List, [], ◌∷◌, ◌++◌,
  append-nil, append_assoc, arith, ltb, leb, ◌==◌, if◌then◌else◌, nat_eq, string_eq, length,
  get_elem?, some, All, keep_if, min, subst, Bool-cases, inl, inr,
}
use native.Mathlib.Nat.{mod-lt, mod-add-div', mul_comm}
use token_sim.Errors.{ok}
use token_sim.Placement.{
  range, empty_ranks, share, linear, append_at, round_robin, assign_experts, stage_from,
  pp_rank_for_layer,
}

abbrev pub concat : List (List ℕ) → List ℕ
concat [] = []
concat (xs ∷ xss) = xs ++ concat xss

-- The experts of the ranks below `n`.
abbrev pub shares : ℕ → ℕ → ℕ → ℕ → ℕ
shares base remainder rank zero = 0
shares base remainder rank (suc left) =
    share base remainder rank + shares base remainder (rank + 1) left

shares-sum :
    (base remainder rank left : ℕ)
    → shares base remainder rank left
      ≡ left * base + (min remainder (rank + left) - min remainder rank)
shares-sum base remainder rank zero = omega arith
shares-sum base remainder rank (suc left) =
    ground (arith, shares-sum base remainder (rank + 1) left)

shares-total :
    (total ranks : ℕ) → 0 < ranks → shares (total / ranks) (total % ranks) 0 ranks ≡ total
shares-total total ranks pos = omega (
  arith,
  shares-sum (total / ranks) (total % ranks) 0 ranks,
  mod-add-div' total ranks,
  mul_comm (total / ranks) ranks,
  mod-lt total pos,
)

range-append : (cursor m n : ℕ) → range cursor m ++ range (cursor + m) n ≡ range cursor (m + n)
range-append cursor zero n =
    let e : cursor + 0 ≡ cursor = omega arith in let f : 0 + n ≡ n = omega arith in rw (e, f) refl
range-append cursor (suc m) n =
    let e : cursor + suc m ≡ cursor + 1 + m = omega arith in
    let f : suc m + n ≡ suc (m + n) = omega arith in
    rw (e, f) (ap (◌∷◌ cursor) (range-append (cursor + 1) m n))

linear-concat :
    (base remainder cursor rank left : ℕ)
    → concat (linear base remainder cursor rank left)
      ≡ range cursor (shares base remainder rank left)
unfolding linear
linear-concat base remainder cursor rank zero = refl
linear-concat base remainder cursor rank (suc left) =
    rw (linear-concat base remainder (cursor + share base remainder rank) (rank + 1) left)
      (range-append cursor (share base remainder rank) (shares base remainder (rank + 1) left))

linear-length :
    (base remainder cursor rank left : ℕ) → length (linear base remainder cursor rank left) ≡ left
unfolding linear
linear-length base remainder cursor rank zero = refl
linear-length base remainder cursor rank (suc left) =
    ap suc (linear-length base remainder (cursor + share base remainder rank) (rank + 1) left)

length-range : (cursor n : ℕ) → length (range cursor n) ≡ n
length-range cursor zero = refl
length-range cursor (suc n) = ap suc (length-range (cursor + 1) n)

linear-even :
    (base remainder cursor rank left : ℕ)
    → All
        (λ xs. (base ≤ length xs) × (length xs ≤ base + 1))
        (linear base remainder cursor rank left)
unfolding linear
linear-even base remainder cursor rank zero = tt
linear-even base remainder cursor rank (suc left) =
    let counted = length-range cursor (share base remainder rank) in
    (
      (ground (arith, counted), ground (arith, counted)),
      linear-even base remainder (cursor + share base remainder rank) (rank + 1) left,
    )

-- Linear placement gives every rank a list, the lists in rank order are all the experts in order, and
-- two ranks' shares differ by at most one expert.
pub linear_lem :
    (num_experts ranks : ℕ)
    → 0 < ranks
    → 0 < num_experts
    → let shared = num_experts / ranks in
      (result : List (List ℕ)) × (assign_experts "linear" num_experts ranks ≡ ok result)
      × (length result ≡ ranks)
      × (concat result ≡ range 0 num_experts)
      × All (λ xs. (shared ≤ length xs) × (length xs ≤ shared + 1)) result
unfolding assign_experts
linear_lem num_experts ranks pos some_expert =
    let base = num_experts / ranks in
    let remainder = num_experts % ranks in
    let result = linear base remainder 0 0 ranks in
    (
      result,
      ground arith,
      linear-length base remainder 0 0 ranks,
      linear-concat base remainder 0 0 ranks ∙ ap (range 0) (shares-total num_experts ranks pos),
      linear-even base remainder 0 0 ranks,
    )

append_at-get :
    (rank expert_id r : ℕ) (xss : List (List ℕ)) (xs : List ℕ)
    → get_elem? xss r ≡ some xs
    → get_elem? (append_at rank expert_id xss) r
      ≡ some (if r == rank then xs ++ expert_id ∷ [] else xs)
unfolding append_at
append_at-get rank expert_id r [] xs h = absurd (ground arith)
append_at-get zero expert_id zero (ys ∷ xss) xs h = ground (arith, h)
append_at-get zero expert_id (suc r) (ys ∷ xss) xs h = ground (arith, h)
append_at-get (suc rank) expert_id zero (ys ∷ xss) xs h = ground (arith, h)
append_at-get (suc rank) expert_id (suc r) (ys ∷ xss) xs h =
    ground (arith, append_at-get rank expert_id r xss xs h)

empty_ranks-get : (n r : ℕ) → r < n → get_elem? (empty_ranks n) r ≡ some []
empty_ranks-get zero r h = absurd (omega arith)
empty_ranks-get (suc n) zero h = refl
empty_ranks-get (suc n) (suc r) h = empty_ranks-get n r (omega arith)

-- The experts of `[expert_id, expert_id + left)` that are dealt to rank `r` of `ranks`.
abbrev pub dealt : ℕ → ℕ → ℕ → ℕ → List ℕ
dealt ranks r expert_id left = keep_if (λ e. r == e % ranks) (range expert_id left)

round_robin-get :
    (ranks r expert_id left : ℕ) (xss : List (List ℕ)) (xs : List ℕ)
    → get_elem? xss r ≡ some xs
    → get_elem? (round_robin ranks expert_id left xss) r ≡ some (xs ++ dealt ranks r expert_id left)
unfolding round_robin
round_robin-get ranks r expert_id zero xss xs h = rw (append-nil xs) h
round_robin-get ranks r expert_id (suc left) xss xs h =
    let here = append_at-get (expert_id % ranks) expert_id r xss xs h in
    let rest =
      round_robin-get ranks r (expert_id + 1) left (append_at (expert_id % ranks) expert_id xss) in
    elim (Bool-cases (r == expert_id % ranks)) [
      | inl t ↦ rw t ((rest _ (here ∙ rw t refl)) ∙ ap some (append_assoc xs (expert_id ∷ []) _))
      | inr f ↦ rw f (rest _ (here ∙ rw f refl))
    ]

-- Round-robin placement gives rank `r` the experts that leave `r` on division by the rank count.
pub round_robin_lem :
    (num_experts ranks r : ℕ)
    → 0 < num_experts
    → r < ranks
    → (result : List (List ℕ)) × (assign_experts "round_robin" num_experts ranks ≡ ok result)
      × (get_elem? result r ≡ some (dealt ranks r 0 num_experts))
unfolding assign_experts
round_robin_lem num_experts ranks r some_expert h = (
  round_robin ranks 0 num_experts (empty_ranks ranks),
  ground arith,
  round_robin-get ranks r 0 num_experts (empty_ranks ranks) [] (empty_ranks-get ranks r h),
)

-- The stage that `stage_from` finds, counted from `pp_rank`: the layers of the stages before it end at or
-- before the layer, and those up to it end after the layer.
stage_from_finds :
    (layer_id base remainder pp_size cursor pp_rank left : ℕ)
    → cursor ≤ layer_id
    → layer_id < cursor + shares base remainder pp_rank left
    → (k : ℕ) × (stage_from layer_id base remainder pp_size cursor pp_rank left ≡ pp_rank + k)
      × (k < left)
      × (cursor + shares base remainder pp_rank k ≤ layer_id)
      × (layer_id < cursor + shares base remainder pp_rank (suc k))
unfolding stage_from
stage_from_finds layer_id base remainder pp_size cursor pp_rank zero above below =
    absurd (omega arith)
stage_from_finds layer_id base remainder pp_size cursor pp_rank (suc left) above below =
    let count = share base remainder pp_rank in
    elim (Bool-cases (ltb layer_id (cursor + count))) [
      | inl t ↦ (0, ground (arith, above), omega arith, ground (arith, above), ground arith)
      | inr f ↦
          let (k, e, h, lo, hi) =
            stage_from_finds layer_id base remainder pp_size (cursor + count) (pp_rank + 1) left
              (ground arith) (ground arith) in
          (suc k, ground (arith, e), omega (arith, h), ground (arith, lo), ground (arith, hi))
    ]

-- A layer below the layer count goes to a stage of the pipeline, the stage whose share of the layers,
-- dealt in rank order, contains it.
pub pp_rank_for_layer_lem :
    (layer_id total_layers pp_size : ℕ)
    → 0 < pp_size
    → layer_id < total_layers
    → let stage = pp_rank_for_layer layer_id total_layers pp_size in
      (stage < pp_size)
      × (shares (total_layers / pp_size) (total_layers % pp_size) 0 stage ≤ layer_id)
      × (layer_id < shares (total_layers / pp_size) (total_layers % pp_size) 0 (suc stage))
unfolding pp_rank_for_layer
pp_rank_for_layer_lem layer_id total_layers pp_size pos h =
    let all = shares-total total_layers pp_size pos in
    elim (Bool-cases (leb pp_size 1)) [
      | inl t ↦
          let one : pp_size ≡ 1 = ground (arith, pos) in
          rw t (
            pos,
            omega arith,
            subst (λ n. layer_id < shares (total_layers / pp_size) (total_layers % pp_size) 0 n) one
                (omega (arith, all, h)),
          )
      | inr f ↦
          let (k, e, small, lo, hi) =
            stage_from_finds layer_id (total_layers / pp_size) (total_layers % pp_size) pp_size 0 0
              pp_size (omega arith) (omega (arith, all, h)) in
          let e' : stage_from layer_id (total_layers / pp_size) (total_layers % pp_size) pp_size 0 0
                pp_size
              ≡ k =
            omega (arith, e) in
          rw (f, e') (small, omega (arith, lo), omega (arith, hi))
    ]
