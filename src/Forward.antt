-- ===== src/Forward.antt =====
-- The forward shapes of TokenSim/llm/forward.py: a rank's tensor sizes, the rows that a rank of a
-- sequence-parallel group owns, and the padding of a decode-only step to a captured graph.
pub mod Shards
use token_sim.Prelude.{
  ℕ, zero, suc, ◌+◌, ◌-◌, ◌*◌, min, max, Bool, true, false, not, ◌&&◌, ◌||◌, Option, none, some,
  List, [], ◌∷◌, map, ltb, leb, ◌==◌, if◌then◌else◌, nat_eq,
}
use token_sim.Errors.{Outcome, ok, raise, configuration_error}
use token_sim.Request.{ceil_div}

pub record RankShape : Type 0 where
  pub tokens : ℕ
  pub query_width : Option ℕ
  pub context_build : Bool
  pub requests : Option ℕ
  pub valid_tokens : Option ℕ
  pub valid_requests : Option ℕ

abbrev pub routed_tokens : RankShape → ℕ
routed_tokens s = elim s.valid_tokens [ none ↦ s.tokens | some n ↦ n ]

-- `valid_requests is not None and requests is not None and valid_requests > requests`
abbrev pub too_many_requests : RankShape → Bool
too_many_requests s = elim s.valid_requests [
  | none ↦ false
  | some valid ↦ elim s.requests [ none ↦ false | some n ↦ ltb n valid ]
]

-- `__post_init__`, for counts that are not negative.
unfoldable pub post_init : RankShape → Outcome RankShape
post_init s =
    if ltb s.tokens (routed_tokens s)
    then raise configuration_error
    else if too_many_requests s
    then raise configuration_error
    else ok s

unfoldable pub sp_valid_rows : ℕ → ℕ → ℕ → ℕ → ℕ
sp_valid_rows valid full tp rank = let chunk = ceil_div full tp in min chunk (valid - rank * chunk)

abbrev pub is_width : ℕ → Option ℕ → Bool
is_width width none = false
is_width width (some w) = w == width

-- `not shape.context_build and shape.query_width == query_width`, of every shape.
abbrev pub all_decode : ℕ → List RankShape → Bool
all_decode width [] = true
all_decode width (s ∷ ss) =
    (not s.context_build && is_width width s.query_width) && all_decode width ss

abbrev pub max_tokens : List RankShape → ℕ
max_tokens [] = 0
max_tokens (s ∷ ss) = max s.tokens (max_tokens ss)

abbrev pub has_ranks : List RankShape → Bool
has_ranks [] = false
has_ranks (s ∷ ss) = true

-- `uniform_decode_rows`, of the values of `step.ranks`.
unfoldable pub uniform_decode_rows : List RankShape → ℕ → ℕ → Option ℕ
uniform_decode_rows ranks width max_num_seqs =
    let upper = max_tokens ranks in
    if not (has_ranks ranks) || not (all_decode width ranks)
    then none
    else if ltb (max_num_seqs * width) upper
    then none
    else some (width * ceil_div upper width)
