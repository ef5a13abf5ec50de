-- ===== src/Chunker/Cut.antt =====
-- crates/chunker/src/lib.rs: `Chunker::cut`, which rolls two bytes in each round.
pub mod Reference
pub mod Phases
pub mod Correct
pub mod Bounds
pub mod Local
use mapache.Prelude.{
  ℕ, zero, suc, ◌+◌, ◌*◌, ◌/◌, ◌%◌, ◌^◌, min, bit_and, List, Option, none, some, leb, ltb, ◌==◌,
  ◌&&◌, if◌then◌else◌, length, take, get_elem?, get_or,
}
use mapache.Chunker.Config.{Chunker}

-- `wrapping_add` of 64-bit words.
abbrev pub wrapping_add : ℕ → ℕ → ℕ
wrapping_add a b = (a + b) % 2 ^ 64

-- `n & !1`
abbrev pub even_floor : ℕ → ℕ
even_floor n = n / 2 * 2

-- How a search loop ends: at a cut point, at its stop with the fingerprint and the position that
-- the next loop goes on with, or in a panic (an index out of the slice).
pub data Search : Type 0 where
  hit : ℕ → Search
  through : ℕ → ℕ → Search
  fault : Search

module _ (c : Chunker) where
  -- A byte is below 256, so `self.gear[b as usize]` is always in the table.
  abbrev pub gear_of : ℕ → ℕ
  gear_of b = get_or c.gear b 0

  abbrev pub gear_ls_of : ℕ → ℕ
  gear_ls_of b = get_or c.gear_ls b 0

  -- The two bytes of one round of a phase, at `n` and `n + 1`.
  second_byte : Option ℕ → ℕ → ℕ → ℕ → (ℕ → Search) → Search
  second_byte none mask fp n next = fault
  second_byte (some b1) mask fp n next =
      let fp' = wrapping_add fp (gear_of b1) in
      if bit_and fp' mask == 0 then hit (n + 1) else next fp'

  first_byte : Option ℕ → Option ℕ → ℕ → ℕ → ℕ → ℕ → (ℕ → Search) → Search
  unfolding second_byte
  first_byte none b1 mask mask_ls fp n next = fault
  first_byte (some b0) b1 mask mask_ls fp n next =
      let fp' = wrapping_add (fp * 4 % 2 ^ 64) (gear_ls_of b0) in
      if bit_and fp' mask_ls == 0 then hit n else second_byte b1 mask fp' n next

  -- `while n < stop`, for the masks of one phase. Out of fuel is a `fault` too; `length slice + 1`
  -- rounds are more than it can take.
  unfoldable pub phase : ℕ → List ℕ → ℕ → ℕ → ℕ → ℕ → ℕ → Search
  unfolding first_byte
  phase zero slice mask mask_ls stop fp n = fault
  phase (suc fuel) slice mask mask_ls stop fp n =
      let round =
        first_byte (get_elem? slice n) (get_elem? slice (n + 1)) mask mask_ls fp n
          (λ fp'. phase fuel slice mask mask_ls stop fp' (n + 2)) in
      if ltb n stop then round else through fp n

  -- "If n is odd, check the first byte to align the loop to even indices".
  unfoldable pub align : List ℕ → ℕ → ℕ → Search
  align slice end n =
      if ltb n end && (n % 2 == 1)
      then elim (get_elem? slice n) [
        | none ↦ fault
        | some b ↦
            let fp = wrapping_add 0 (gear_of b) in
            if bit_and fp c.mask_s == 0 then hit (n + 1) else through fp (n + 1)
      ]
      else through 0 n

  -- What the function returns from the last search; `none` is a panic.
  unfoldable pub finish : ℕ → Search → Option ℕ
  finish limit (hit n) = some n
  finish limit (through fp n) = some limit
  finish limit fault = none

  -- One search after another.
  unfoldable pub and_then : Search → (ℕ → ℕ → Search) → Search
  and_then (hit n) next = hit n
  and_then (through fp n) next = next fp n
  and_then fault next = fault

  -- `align`, phase 1 with the small masks up to `mid`, phase 2 with the large ones up to `end`.
  unfoldable pub search_cut : List ℕ → ℕ → ℕ → ℕ → Search
  unfolding align phase and_then
  search_cut slice mid end n =
      let fuel = suc (length slice) in
      and_then
        (and_then (align slice end n) (λ fp n. phase fuel slice c.mask_s c.mask_s_ls mid fp n))
        (λ fp n. phase fuel slice c.mask_l c.mask_l_ls end fp n)

  unfoldable pub cut : List ℕ → Option ℕ
  cut bytes =
      let len = length bytes in
      let limit = min len c.max_size in
      let center = min c.normal_size limit in
      let mid = even_floor center in
      let end = even_floor limit in
      if leb len c.min_size
      then some len
      else finish limit (search_cut (take end bytes) mid end (min c.min_size limit))
