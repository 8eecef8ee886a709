-- ===== src/Routing/Hash.antt =====
-- `murmur_hash_64a` and `fbi_hash` of TokenSim/placement/consistent_hash.py, on the bytes of a key. The list
-- of hashes that `fbi_hash` grows is a function of their index, since nothing else writes it.
use Prim.Native.Nat.{bit_xor, ◌^◌}
use token_sim.Prelude.{
  ℕ, zero, suc, ◌+◌, ◌-◌, ◌*◌, ◌/◌, ◌%◌, Option, none, some, List, [], ◌∷◌, ltb, ◌==◌,
  if◌then◌else◌, nat_eq, length, take, drop, ◌≡◌, refl,
}

abbrev multiplier : ℕ
multiplier = 0xC6A4A7935BD1E995

abbrev seed : ℕ
seed = 4193360111

-- `x & MASK`
abbrev masked : ℕ → ℕ
masked x = x % 2 ^ 64

-- `int.from_bytes(bytes, "little")`
abbrev from_bytes : List ℕ → ℕ
from_bytes [] = 0
from_bytes (b ∷ bs) = b + 256 * from_bytes bs

-- `x.to_bytes(count, "little")`
abbrev to_bytes : ℕ → ℕ → List ℕ
to_bytes zero x = []
to_bytes (suc count) x = x % 256 ∷ to_bytes count (x / 256)

-- One round of the `for` over whole words.
abbrev mix : ℕ → List ℕ → ℕ
mix h word =
    let k = masked (from_bytes word * multiplier) in
    let k' = masked (bit_xor k (k / 2 ^ 47) * multiplier) in masked (bit_xor h k' * multiplier)

unfoldable pub mix_words : ℕ → List ℕ → ℕ → ℕ
mix_words zero bytes h = h
mix_words (suc words) bytes h = mix_words words (drop 8 bytes) (mix h (take 8 bytes))

unfoldable pub murmur_hash_64a : List ℕ → ℕ
unfolding mix_words
murmur_hash_64a bytes =
    let words = length bytes / 8 in
    let rest = drop (words * 8) bytes in
    let h = mix_words words bytes (bit_xor seed (masked (length bytes * multiplier))) in
    let h' =
      if ltb (words * 8) (length bytes)
      then masked (bit_xor h (from_bytes rest) * multiplier)
      else h in
    let h'' = masked (bit_xor h' (h' / 2 ^ 47) * multiplier) in bit_xor h'' (h'' / 2 ^ 47)

unfoldable pub murmur_rehash_64a : ℕ → ℕ
unfolding murmur_hash_64a
murmur_rehash_64a value = murmur_hash_64a (to_bytes 8 value)

-- `hashes[order]`
unfoldable pub hash_at : List ℕ → ℕ → ℕ
unfolding murmur_rehash_64a
hash_at bytes zero = murmur_hash_64a bytes
hash_at bytes (suc order) = murmur_rehash_64a (hash_at bytes order)

-- `bit(index)`
abbrev pub bit : List ℕ → ℕ → ℕ
bit bytes index = hash_at bytes (index / 64) / 2 ^ (index % 64) % 2

-- The `while not bit(index)`: the depth and the index it stops at, unless the depth runs out.
unfoldable pub descend : List ℕ → ℕ → ℕ → Option (ℕ × ℕ)
unfolding hash_at
descend bytes zero index = if bit bytes index == 0 then none else some (0, index)
descend bytes (suc depth) index =
    let lower = descend bytes depth depth in
    if bit bytes index == 0 then lower else some (suc depth, index)

-- The inner `for`: the number and the index after so many bits.
unfoldable pub read_bits : List ℕ → ℕ → ℕ → ℕ → ℕ × ℕ
unfolding hash_at
read_bits bytes zero number index = (number, index)
read_bits bytes (suc count) number index =
    read_bits bytes count (2 * number + bit bytes index) (index + 23)

-- The `for _ in range(32)`: the number below the modulus, 0 if none is found.
unfoldable pub draw : ℕ → List ℕ → ℕ → ℕ → ℕ
unfolding descend read_bits
draw zero bytes depth index = 0
draw (suc rounds) bytes depth index = elim (descend bytes depth index) [
  | none ↦ 0
  | some (depth', index') ↦
      let (number, next) = read_bits bytes (depth' - 1) 1 (index' + 23) in
      let again = draw rounds bytes depth' next in if ltb number (2 ^ 23 - 1) then number else again
]

unfoldable pub fbi_hash : List ℕ → ℕ
unfolding draw murmur_hash_64a
fbi_hash bytes = murmur_hash_64a (to_bytes 4 (draw 32 bytes 23 23))

-- Words of eight bytes and a rest.
word_and_rest :
    murmur_hash_64a (104 ∷ 101 ∷ 108 ∷ 108 ∷ 111 ∷ 32 ∷ 104 ∷ 97 ∷ 115 ∷ 104 ∷ [])
    ≡ 2548537022750601502
unfolding murmur_hash_64a
word_and_rest = refl

bucket : fbi_hash (97 ∷ []) ≡ 3013377723451042321
unfolding fbi_hash
bucket = refl
