-- ===== src/Collections/BloomFilter/Laws.antt =====
-- A Bloom filter has no false negatives (crates/mapache/src/utils/collections/bloom_filter.rs).
use mapache.Prelude.{
  ℕ, zero, suc, ◌+◌, ◌-◌, ◌*◌, ◌/◌, ◌%◌, ◌^◌, ◌≤◌, ◌<◌, max, ◌≡◌, refl, sym, ap, subst, ◌∙◌, inl,
  inr, true, false, List, [], ◌∷◌, leb, ◌==◌, if◌then◌else◌, bit_and, bit_or, length, get_or, set,
  length-set, length-replicate, Bool-cases, true-ne-false, arith,
}
use mapache.Prelude.Masks.{bit_and-bit_or_left, bit_and-bit_or_right, bit_and_self, bit_and-le}
use native.Mathlib.Nat.{pow-suc}
use mapache.Common.{ContentId}
use mapache.Collections.BloomFilter.{
  BloomFilter, Sizing, doubled, next_power_of_two, new, bit_idx, word_idx, bit_in_word, set_bits,
  all_set, insert, contains, is_empty, first_hash, second_hash,
}

-- There is a bit, and a word for every bit.
abbrev pub IsFormed : BloomFilter → Type 0
IsFormed filter = (0 < filter.bit_count) × (filter.bit_count ≤ 64 * length filter.bits)

-- Every word that a round reads or writes exists.
pub word_idx-lt :
    (filter : BloomFilter) (id : ContentId) (i : ℕ)
    → IsFormed filter
    → word_idx id filter.bit_count i < length filter.bits
unfolding word_idx bit_idx
word_idx-lt filter id i h = omega (
  arith,
  h.0,
  h.1,
  bit_and-le ((first_hash id + i * second_hash id % 2 ^ 64) % 2 ^ 64) (filter.bit_count - 1),
)

-- Words that keep every flag.
record Grows (bits bits' : List ℕ) : Type 0 where
  same_length : length bits ≡ length bits'
  flags : (w z : ℕ) → bit_and (get_or bits w 0) z ≤ bit_and (get_or bits' w 0) z

Grows-trans : (xs ys zs : List ℕ) → Grows xs ys → Grows ys zs → Grows xs zs
Grows-trans xs ys zs p q = record {
  same_length = p.same_length ∙ q.same_length;
  flags = λ w z. omega (arith, p.flags w z, q.flags w z);
}

get_or-set_same : (xs : List ℕ) (i v : ℕ) → i < length xs → get_or (set xs i v) i 0 ≡ v
get_or-set_same [] i v h = absurd (omega arith)
get_or-set_same (x ∷ xs) zero v h = refl
get_or-set_same (x ∷ xs) (suc i) v h = get_or-set_same xs i v (omega arith)

-- One more flag.
flag-Grows : (xs : List ℕ) (w b : ℕ) → Grows xs (set xs w (bit_or (get_or xs w 0) b))
flag-Grows xs w b = record {
  same_length = sym (length-set xs w (bit_or (get_or xs w 0) b));
  flags = flags_at xs w;
}
  where
    flags_at :
        (xs : List ℕ) (w v z : ℕ)
        → bit_and (get_or xs v 0) z ≤ bit_and (get_or (set xs w (bit_or (get_or xs w 0) b)) v 0) z
    flags_at [] w v z = omega arith
    flags_at (x ∷ xs) zero zero z = bit_and-bit_or_left x b z
    flags_at (x ∷ xs) zero (suc v) z = omega arith
    flags_at (x ∷ xs) (suc w) zero z = omega arith
    flags_at (x ∷ xs) (suc w) (suc v) z = flags_at xs w v z

set_bits-Grows :
    (id : ContentId) (bit_count start rounds : ℕ) (bits : List ℕ)
    → Grows bits (set_bits id bit_count start rounds bits)
unfolding set_bits
set_bits-Grows id bit_count start zero bits = record {
  same_length = refl;
  flags = λ w z. omega arith;
}
set_bits-Grows id bit_count start (suc rounds) bits =
    let w = word_idx id bit_count start in
    let bits' = set bits w (bit_or (get_or bits w 0) (2 ^ bit_in_word id bit_count start)) in
    Grows-trans bits bits' _ (flag-Grows bits w (2 ^ bit_in_word id bit_count start))
      (set_bits-Grows id bit_count (suc start) rounds bits')

pow_two_pos : (n : ℕ) → 0 < 2 ^ n
pow_two_pos zero = omega arith
pow_two_pos (suc n) = omega (arith, pow-suc 2 n, pow_two_pos n)

all_set-Grows :
    (id : ContentId) (bit_count start rounds : ℕ) (bits bits' : List ℕ)
    → Grows bits bits'
    → all_set id bit_count start rounds bits ≡ true
    → all_set id bit_count start rounds bits' ≡ true
unfolding all_set
all_set-Grows id bit_count start zero bits bits' g h = refl
all_set-Grows id bit_count start (suc rounds) bits bits' g h =
    let w = word_idx id bit_count start in
    let z = 2 ^ bit_in_word id bit_count start in
    elim (Bool-cases (bit_and (get_or bits w 0) z == 0)) [
      | inl q ↦ absurd (
          true-ne-false (
            sym (
              subst
                (λ t. (if t then false else all_set id bit_count (suc start) rounds bits) ≡ true) q
                h)))
      | inr q ↦
          let up = g.flags w z in
          let q' : (bit_and (get_or bits' w 0) z == 0) ≡ false = ground (arith, up, q) in
          let rest : all_set id bit_count (suc start) rounds bits ≡ true =
            subst (λ t. (if t then false else all_set id bit_count (suc start) rounds bits) ≡ true)
              q h in
          rw q' (all_set-Grows id bit_count (suc start) rounds bits bits' g rest)
    ]

all_set-set_bits :
    (id : ContentId) (bit_count start rounds : ℕ) (bits : List ℕ)
    → ((i : ℕ) → word_idx id bit_count i < length bits)
    → all_set id bit_count start rounds (set_bits id bit_count start rounds bits) ≡ true
unfolding all_set set_bits
all_set-set_bits id bit_count start zero bits inside = refl
all_set-set_bits id bit_count start (suc rounds) bits inside =
    let w = word_idx id bit_count start in
    let z = 2 ^ bit_in_word id bit_count start in
    let v = bit_or (get_or bits w 0) z in
    let bits' = set bits w v in
    let final = set_bits id bit_count (suc start) rounds bits' in
    let g : Grows bits' final = set_bits-Grows id bit_count (suc start) rounds bits' in
    let up = g.flags w z in
    let here : bit_and (get_or bits' w 0) z ≡ bit_and v z =
      ap (λ t. bit_and t z) (get_or-set_same bits w v (inside start)) in
    let covered : bit_and z z ≤ bit_and v z = bit_and-bit_or_right (get_or bits w 0) z z in
    let positive : 0 < z = pow_two_pos (bit_in_word id bit_count start) in
    let kept : 0 < bit_and (get_or final w 0) z =
      omega (arith, up, here, covered, positive, bit_and_self z) in
    let set_now : (bit_and (get_or final w 0) z == 0) ≡ false = ground (arith, kept) in
    let inside' : (i : ℕ) → word_idx id bit_count i < length bits' =
      λ i. omega (arith, inside i, length-set bits w v) in
    rw set_now (all_set-set_bits id bit_count (suc start) rounds bits' inside')

-- As many words, as many of none.
is_empty-length : (xs ys : List ℕ) → length xs ≡ length ys → is_empty xs ≡ is_empty ys
is_empty-length [] [] q = refl
is_empty-length [] (y ∷ ys) q = absurd (omega arith)
is_empty-length (x ∷ xs) [] q = absurd (omega arith)
is_empty-length (x ∷ xs) (y ∷ ys) q = refl

IsFormed-is_empty : (filter : BloomFilter) → IsFormed filter → is_empty filter.bits ≡ false
IsFormed-is_empty filter h = by_words filter.bits (omega (arith, h.0, h.1))
  where
    by_words : (bits : List ℕ) → 0 < length bits → is_empty bits ≡ false
    by_words [] p = absurd (omega arith)
    by_words (x ∷ xs) p = refl

module _ (filter : BloomFilter) (id : ContentId) where
  words : List ℕ
  words = set_bits id filter.bit_count 0 filter.num_hashes filter.bits

  words-Grows : Grows filter.bits words
  unfolding words
  words-Grows = set_bits-Grows id filter.bit_count 0 filter.num_hashes filter.bits

  -- An insertion into a filter that has words.
  with_words : BloomFilter
  with_words = record { bits = words; num_hashes = filter.num_hashes; bit_count = filter.bit_count }

  insert-with_words : is_empty filter.bits ≡ false → insert filter id ≡ with_words
  unfolding insert with_words words
  insert-with_words q = rw q

  seen_with :
      (other : ContentId)
      → is_empty words ≡ false
      → all_set other filter.bit_count 0 filter.num_hashes words ≡ true
      → contains with_words other ≡ true
  unfolding contains with_words
  seen_with other q' h = rw q' h

  contains-with_words :
      (other : ContentId)
      → is_empty filter.bits ≡ false
      → all_set other filter.bit_count 0 filter.num_hashes words ≡ true
      → contains (insert filter id) other ≡ true
  contains-with_words other q h =
      let q' : is_empty words ≡ false =
        sym (is_empty-length filter.bits words words-Grows.same_length) ∙ q in
      ap (λ f. contains f other) (insert-with_words q) ∙ seen_with other q' h

  with_words-IsFormed : IsFormed filter → IsFormed with_words
  unfolding with_words
  with_words-IsFormed h = (h.0, omega (arith, h.1, words-Grows.same_length))

  -- An insertion keeps the filter formed.
  pub insert-IsFormed : IsFormed filter → IsFormed (insert filter id)
  insert-IsFormed h =
      subst IsFormed (sym (insert-with_words (IsFormed-is_empty filter h))) (with_words-IsFormed h)

  all_set-words : IsFormed filter → all_set id filter.bit_count 0 filter.num_hashes words ≡ true
  unfolding words
  all_set-words h =
      all_set-set_bits id filter.bit_count 0 filter.num_hashes filter.bits
        λ i. word_idx-lt filter id i h

  -- An inserted ID is reported.
  pub contains-insert : IsFormed filter → contains (insert filter id) id ≡ true
  contains-insert h = contains-with_words id (IsFormed-is_empty filter h) (all_set-words h)

  unchanged : is_empty filter.bits ≡ true → insert filter id ≡ filter
  unfolding insert
  unchanged q = rw q

  seen :
      (other : ContentId)
      → is_empty filter.bits ≡ false
      → contains filter other ≡ true
      → all_set other filter.bit_count 0 filter.num_hashes filter.bits ≡ true
  unfolding contains
  seen other q h =
      subst
        (λ t.
          (if t then true else all_set other filter.bit_count 0 filter.num_hashes filter.bits)
          ≡ true)
        q h

  -- An ID that was reported still is.
  pub contains-insert_keeps :
      (other : ContentId) → contains filter other ≡ true → contains (insert filter id) other ≡ true
  contains-insert_keeps other h = elim (Bool-cases (is_empty filter.bits)) [
    | inl q ↦ ap (λ f. contains f other) (unchanged q) ∙ h
    | inr q ↦ contains-with_words other q (
        all_set-Grows other filter.bit_count 0 filter.num_hashes filter.bits words words-Grows
          (seen other q h))
  ]

-- The doubling ends at a power of two.
IsPower : ℕ → Type 0
IsPower m = (k : ℕ) × (m ≡ 2 ^ k)

doubled-IsPower : (fuel n p : ℕ) → IsPower p → IsPower (doubled fuel n p)
unfolding IsPower
doubled-IsPower zero n p h = h
doubled-IsPower (suc fuel) n p (k, q) = elim (Bool-cases (leb n p)) [
  | inl done ↦ rw done (k, q)
  | inr more ↦
      rw more (doubled-IsPower fuel n (p * 2) (suc k, ap (λ (t : ℕ). t * 2) q ∙ sym (pow-suc 2 k)))
]

-- A power of two fits its words.
IsPower-words : (m : ℕ) → IsPower m → (0 < m) × (m ≤ 64 * max (m / 64) 1)
unfolding IsPower
IsPower-words m (zero, q) = (omega (arith, q), omega (arith, q))
IsPower-words m (suc zero, q) = (omega (arith, q), omega (arith, q))
IsPower-words m (suc (suc zero), q) = (omega (arith, q), omega (arith, q))
IsPower-words m (suc (suc (suc zero)), q) = (omega (arith, q), omega (arith, q))
IsPower-words m (suc (suc (suc (suc zero))), q) = (omega (arith, q), omega (arith, q))
IsPower-words m (suc (suc (suc (suc (suc zero)))), q) = (omega (arith, q), omega (arith, q))
IsPower-words m (suc (suc (suc (suc (suc (suc k))))), q) =
    let whole : m ≡ 64 * 2 ^ k = omega (
      arith,
      q,
      pow-suc 2 k,
      pow-suc 2 (suc k),
      pow-suc 2 (suc (suc k)),
      pow-suc 2 (suc (suc (suc k))),
      pow-suc 2 (suc (suc (suc (suc k)))),
      pow-suc 2 (suc (suc (suc (suc (suc k))))),
    ) in
    (omega (arith, whole, pow_two_pos k), omega (arith, whole, pow_two_pos k))

one : IsPower 1
unfolding IsPower
one = (0, refl)

-- A new filter is formed, whatever the sizes that the parameters give.
pub new-IsFormed : (sizing : Sizing) (num_items : ℕ) → IsFormed (new sizing num_items)
unfolding new
new-IsFormed sizing num_items =
    let m = next_power_of_two (sizing.ideal_bits (max num_items 1)) in
    let power : IsPower m = doubled-IsPower 63 (sizing.ideal_bits (max num_items 1)) 1 one in
    let fits = IsPower-words m power in
    let len = length-replicate {A = ℕ} (max (m / 64) 1) 0 in (fits.0, omega (arith, fits.1, len))
