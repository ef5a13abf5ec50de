-- ===== src/Chunker/Config/New.antt =====
-- `Chunker::new`: when it panics, and what it establishes for `cut`.
use mapache.Prelude.{
  ℕ, zero, suc, ◌+◌, ◌-◌, ◌/◌, ◌^◌, ◌≤◌, ◌<◌, ◌≡◌, refl, true, map, some, ltb, leb, length,
  get_elem?, All, All_at, drop_at, arith,
}
use native.Mathlib.Nat.{pow-suc}
use mapache.Chunker.Tables.{gear_table, gear_ls_table, mask_table}
use mapache.Chunker.Config.{
  Chunker, Normalization, off, l1, l2, l3, bits, ilog2, ilog2_loop, shl_one, build, sizes_allowed,
  new, total_min_size, total_max_size, max_normal_size,
}
use mapache.Chunker.Cut.Reference.{IsWellFormed}

ilog2_loop-le : (fuel k n : ℕ) → n < 2 ^ suc k → ilog2_loop fuel n ≤ k
unfolding ilog2_loop
ilog2_loop-le zero k n h = omega arith
ilog2_loop-le (suc fuel) zero n h = let lt : ltb n 2 ≡ true = ground arith in rw lt (omega arith)
ilog2_loop-le (suc fuel) (suc k) n h =
    ground (arith, ilog2_loop-le fuel k (n / 2) (omega (arith, pow-suc 2 (suc k))))

le-ilog2_loop : (fuel k n : ℕ) → k ≤ fuel → 2 ^ k ≤ n → k ≤ ilog2_loop fuel n
unfolding ilog2_loop
le-ilog2_loop fuel zero n f h = omega arith
le-ilog2_loop zero (suc k) n f h = absurd (omega arith)
le-ilog2_loop (suc fuel) (suc k) n f h =
    let two : 2 ≤ n = omega (arith, pow-suc 2 k, pow_pos k) in
    ground (arith, two, le-ilog2_loop fuel k (n / 2) (omega arith) (omega (arith, pow-suc 2 k)))
  where
    pow_pos : (j : ℕ) → 1 ≤ 2 ^ j
    pow_pos zero = omega arith
    pow_pos (suc j) = omega (arith, pow-suc 2 j, pow_pos j)

-- The Gear table of doubled values holds the doubled values of the Gear table, in 64-bit words.
gear_ls_doubled : gear_ls_table ≡ map shl_one gear_table
unfolding gear_table gear_ls_table
gear_ls_doubled = refl

masks_small : All (λ m. m < 2 ^ 63) mask_table
unfolding mask_table
masks_small = omega arith

masks_length : length mask_table ≡ 26
unfolding mask_table
masks_length = refl

bits-le : (n : Normalization) → bits n ≤ 3
unfolding bits
bits-le off = omega arith
bits-le l1 = omega arith
bits-le l2 = omega arith
bits-le l3 = omega arith

abbrev pub SizesAllowed : ℕ → ℕ → ℕ → Type 0
SizesAllowed lo normal hi =
    (lo ≤ normal)
    × (normal ≤ hi)
    × (total_min_size ≤ lo)
    × (hi ≤ total_max_size)
    × (normal ≤ max_normal_size)

allowed : (lo normal hi : ℕ) → SizesAllowed lo normal hi → sizes_allowed lo normal hi ≡ true
unfolding sizes_allowed
allowed lo normal hi h = ground arith

ilog2_range : (n : ℕ) → 64 ≤ n → n ≤ max_normal_size → (6 ≤ ilog2 n) × (ilog2 n ≤ 22)
unfolding ilog2
ilog2_range n lo hi =
    (le-ilog2_loop 64 6 n (omega arith) (omega arith), ilog2_loop-le 64 22 n (omega arith))

mask_exists : (i : ℕ) → i < 26 → (m : ℕ) × (get_elem? mask_table i ≡ some m) × (m < 2 ^ 63)
mask_exists i h =
    let (m, e, _) = drop_at i mask_table (omega (arith, masks_length)) in
    (m, e, All_at (λ m. m < 2 ^ 63) mask_table i masks_small e)

-- What `new` returns for sizes that it allows.
abbrev pub Built : ℕ → ℕ → ℕ → Chunker → Type 0
Built lo normal hi c =
    IsWellFormed c × (c.min_size ≡ lo) × (c.normal_size ≡ normal) × (c.max_size ≡ hi)

build_lem :
    (lo normal hi ms ml : ℕ)
    → SizesAllowed lo normal hi
    → ms < 2 ^ 63
    → ml < 2 ^ 63
    → (c : Chunker) × (build lo normal hi (some ms) (some ml) ≡ some c) × Built lo normal hi c
unfolding build
build_lem lo normal hi ms ml a fs fl = (
  _,
  refl,
  (
    record {
      min_bound = a.2;
      min_normal = a.0;
      normal_max = a.1;
      doubled_gear = gear_ls_doubled;
      small_mask = fs;
      large_mask = fl;
      doubled_small = omega arith;
      doubled_large = omega arith;
    },
    refl,
    refl,
    refl,
  ),
)

-- Under the documented conditions on the sizes `Chunker::new` does not panic, for every
-- normalization level: the mask indices are inside of the table. The chunker has the given sizes,
-- its doubled table and masks are the doubles of the plain ones, and no mask reaches bit 63.
pub new_allowed :
    (lo normal hi : ℕ) (level : Normalization)
    → SizesAllowed lo normal hi
    → (c : Chunker) × (new lo normal hi level ≡ some c) × Built lo normal hi c
unfolding new
new_allowed lo normal hi level a =
    let log = ilog2_range normal (omega (arith, a)) a.4 in
    let extra = bits-le level in
    let (ms, es, fs) = mask_exists (ilog2 normal + bits level) (omega (arith, log, extra)) in
    let (ml, el, fl) = mask_exists (ilog2 normal - bits level) (omega (arith, log, extra)) in
    let e1 = allowed lo normal hi a in
    let e2 : leb (ilog2 normal + bits level) (length mask_table) ≡ true =
      ground (arith, log, extra, masks_length) in
    rw (e1, e2, es, el) (build_lem lo normal hi ms ml a fs fl)
