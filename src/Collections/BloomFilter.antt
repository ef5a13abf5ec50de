-- ===== src/Collections/BloomFilter.antt =====
-- crates/mapache/src/utils/collections/bloom_filter.rs: `BloomFilter`. The floating-point sizes of
-- `new` are parameters; its words and its operations are those of the program.
pub mod Laws
use mapache.Prelude.{
  ℕ, zero, suc, ◌+◌, ◌-◌, ◌*◌, ◌/◌, ◌%◌, ◌^◌, max, Bool, true, false, List, [], ◌∷◌, ltb, leb, ◌==◌,
  if◌then◌else◌, bit_and, bit_or, length, get_or, set, take, drop, replicate,
}
use mapache.Common.{ContentId}
use mapache.Binary.{from_le_bytes}

pub record BloomFilter : Type 0 where
  pub bits : List ℕ
  pub num_hashes : ℕ
  pub bit_count : ℕ

-- `u64::next_power_of_two`, by doubling, of a number up to 2 ^ 63. For a larger one, a filter of more than
-- 2 ^ 60 bytes, the source overflows; the result here, 2 ^ 63, has no meaning then.
abbrev pub doubled : ℕ → ℕ → ℕ → ℕ
doubled zero n p = p
doubled (suc fuel) n p = let rest = doubled fuel n (p * 2) in if leb n p then p else rest

abbrev pub next_power_of_two : ℕ → ℕ
next_power_of_two n = doubled 63 n 1

-- `ideal_bits` is `(-(n ln p) / (ln 2)^2).ceil() as u64`, and `hashes` is `((m / n) ln 2).ceil() as u32`.
pub record Sizing : Type 0 where
  pub ideal_bits : ℕ → ℕ
  pub hashes : ℕ → ℕ → ℕ

module _ (sizing : Sizing) where
  unfoldable pub new : ℕ → BloomFilter
  new num_items =
      let n = max num_items 1 in
      let m = next_power_of_two (sizing.ideal_bits n) in
      record { bits = replicate (max (m / 64) 1) 0; num_hashes = sizing.hashes m n; bit_count = m }

-- `get_hashes`
abbrev pub first_hash : ContentId → ℕ
first_hash id = from_le_bytes (take 8 id)

abbrev pub second_hash : ContentId → ℕ
second_hash id = from_le_bytes (take 8 (drop 8 id))

-- The bit of a round: `h1.wrapping_add(i.wrapping_mul(h2)) & mask`.
unfoldable pub bit_idx : ContentId → ℕ → ℕ → ℕ
bit_idx id bit_count i =
    bit_and ((first_hash id + i * second_hash id % 2 ^ 64) % 2 ^ 64) (bit_count - 1)

unfoldable pub word_idx : ContentId → ℕ → ℕ → ℕ
word_idx id bit_count i = bit_idx id bit_count i / 64

unfoldable pub bit_in_word : ContentId → ℕ → ℕ → ℕ
bit_in_word id bit_count i = bit_and (bit_idx id bit_count i) 63

-- The loops, over the rounds `start .. start + rounds`. The word's index is within bounds (see Laws).
unfoldable pub set_bits : ContentId → ℕ → ℕ → ℕ → List ℕ → List ℕ
set_bits id bit_count start zero bits = bits
set_bits id bit_count start (suc rounds) bits =
    let w = word_idx id bit_count start in
    set_bits id bit_count (suc start) rounds
      (set bits w (bit_or (get_or bits w 0) (2 ^ bit_in_word id bit_count start)))

unfoldable pub all_set : ContentId → ℕ → ℕ → ℕ → List ℕ → Bool
all_set id bit_count start zero bits = true
all_set id bit_count start (suc rounds) bits =
    let w = word_idx id bit_count start in
    let rest = all_set id bit_count (suc start) rounds bits in
    if bit_and (get_or bits w 0) (2 ^ bit_in_word id bit_count start) == 0 then false else rest

abbrev pub is_empty : List ℕ → Bool
is_empty [] = true
is_empty (x ∷ xs) = false

unfoldable pub insert : BloomFilter → ContentId → BloomFilter
insert filter id = if is_empty filter.bits then filter else record {
  bits = set_bits id filter.bit_count 0 filter.num_hashes filter.bits;
  num_hashes = filter.num_hashes;
  bit_count = filter.bit_count;
}

unfoldable pub contains : BloomFilter → ContentId → Bool
contains filter id =
    if is_empty filter.bits
    then true
    else all_set id filter.bit_count 0 filter.num_hashes filter.bits

abbrev pub clear : BloomFilter → BloomFilter
clear filter = record {
  bits = replicate (length filter.bits) 0;
  num_hashes = filter.num_hashes;
  bit_count = filter.bit_count;
}
