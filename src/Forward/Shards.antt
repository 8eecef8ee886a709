-- ===== src/Forward/Shards.antt =====
-- The rows of `sp_valid_rows` over a whole group, and the rows of `uniform_decode_rows`.
use token_sim.Prelude.{
  Option, none, false, All, ◌⊎◌, ℕ, zero, suc, ◌+◌, ◌-◌, ◌*◌, ◌≤◌, ◌<◌, min, ◌≡◌, true, some, List,
  arith, nat_eq,
}
use native.Mathlib.Nat.{mod-lt, mod-add-div', mul_comm}
use token_sim.Request.{ceil_div}
use token_sim.Forward.{RankShape, sp_valid_rows, all_decode, max_tokens, has_ranks}

-- A division that rounds up covers the dividend, with less than one divisor to spare.
pub ceil_div-covers : (n d : ℕ) → 0 < d → (n ≤ ceil_div n d * d) × (ceil_div n d * d < n + d)
ceil_div-covers n d pos =
    let e = mod-add-div' (n + (d - 1)) d in
    let l = mod-lt (n + (d - 1)) pos in (omega (arith, e, l, pos), omega (arith, e, l, pos))

-- The valid rows of the ranks below `n`.
abbrev pub owned_rows : ℕ → ℕ → ℕ → ℕ → ℕ
owned_rows valid full tp zero = 0
owned_rows valid full tp (suc n) = owned_rows valid full tp n + sp_valid_rows valid full tp n

owned_prefix : (valid full tp n : ℕ) → owned_rows valid full tp n ≡ min valid (n * ceil_div full tp)
unfolding sp_valid_rows
owned_prefix valid full tp zero = omega arith
owned_prefix valid full tp (suc n) = omega (arith, owned_prefix valid full tp n)

-- The ranks of a group of at least one own all the valid rows, where those fit the full tensor, and
-- no rank owns more than one chunk.
pub sp_valid_rows-partition :
    (valid full tp : ℕ)
    → 0 < tp
    → valid ≤ full
    → (owned_rows valid full tp tp ≡ valid)
      × ((rank : ℕ) → sp_valid_rows valid full tp rank ≤ ceil_div full tp)
unfolding sp_valid_rows
sp_valid_rows-partition valid full tp pos h = (
  omega (
    arith,
    owned_prefix valid full tp tp,
    (ceil_div-covers full tp pos).0,
    mul_comm tp (ceil_div full tp),
    h,
  ),
  λ rank. omega arith,
)

-- The row count of a step of `ranks`, for decodes of `width` tokens.
pub data DecodeRows (ranks : List RankShape) (width max_num_seqs : ℕ) : Option ℕ → Type 0 where
  uneven :
      (has_ranks ranks ≡ false) ⊎ (all_decode width ranks ≡ false)
      → DecodeRows ranks width max_num_seqs none
  too_many : max_num_seqs * width < max_tokens ranks → DecodeRows ranks width max_num_seqs none
  whole :
      (queries : ℕ)
      → all_decode width ranks ≡ true
      → All (λ r. r.tokens ≤ queries * width) ranks
      → queries * width < max_tokens ranks + width
      → queries ≤ max_num_seqs
      → DecodeRows ranks width max_num_seqs (some (queries * width))
