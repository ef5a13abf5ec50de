-- ===== src/Chunker/Cut/Reference.antt =====
-- The search for a cut point, one byte at a time: what `Chunker::cut` computes without the tables of
-- doubled values, without rolling two bytes at once and without reads that could leave the slice.
use mapache.Prelude.{
  ℕ, ◌+◌, ◌*◌, ◌%◌, ◌^◌, ◌≤◌, ◌<◌, ◌≡◌, min, bit_and, List, [], ◌∷◌, map, Option, none, some, leb,
  ltb, ◌==◌, if◌then◌else◌, length, take, drop,
}
use mathlib.Core.Option
use mapache.Chunker.Config.{Chunker, shl_one, total_min_size}
use mapache.Chunker.Cut.{even_floor, gear_of}

-- What `Chunker::new` establishes.
pub record IsWellFormed (c : Chunker) : Type 0 where
  pub min_bound : total_min_size ≤ c.min_size
  pub min_normal : c.min_size ≤ c.normal_size
  pub normal_max : c.normal_size ≤ c.max_size
  pub doubled_gear : c.gear_ls ≡ map shl_one c.gear
  pub small_mask : c.mask_s < 2 ^ 63
  pub large_mask : c.mask_l < 2 ^ 63
  pub doubled_small : c.mask_s_ls ≡ c.mask_s * 2
  pub doubled_large : c.mask_l_ls ≡ c.mask_l * 2

module _ (c : Chunker) where
  -- The Gear hash after one more byte.
  abbrev pub roll : ℕ → ℕ → ℕ
  roll fp b = (fp * 2 + gear_of c b) % 2 ^ 64

  -- The mask that judges the byte at a position, `mid` being the normalisation centre.
  abbrev pub mask_at : ℕ → ℕ → ℕ
  mask_at mid n = if ltb n mid then c.mask_s else c.mask_l

  -- The first position, from `n` on, whose hash passes its judgment.
  unfoldable pub first_hit : (ℕ → ℕ) → ℕ → ℕ → List ℕ → Option ℕ
  first_hit mask fp n [] = none
  first_hit mask fp n (b ∷ bs) =
      let rest = first_hit mask (roll fp b) (n + 1) bs in
      if bit_and (roll fp b) (mask n) == 0 then some n else rest

  -- A byte at an odd start is judged alone, and a hit there cuts behind the byte.
  unfoldable pub hit_from : (ℕ → ℕ) → ℕ → List ℕ → Option ℕ
  unfolding first_hit
  hit_from mask n [] = none
  hit_from mask n (b ∷ bs) =
      if n % 2 == 1
      then if bit_and (roll 0 b) c.mask_s == 0
        then some (n + 1)
        else first_hit mask (roll 0 b) (n + 1) bs
      else first_hit mask 0 n (b ∷ bs)

  -- Everything up to `min_size` is one chunk; otherwise the first hit behind the first `min_size`
  -- bytes cuts, and the limit does where there is none.
  unfoldable pub reference_cut : List ℕ → ℕ
  unfolding hit_from
  reference_cut bytes =
      let limit = min (length bytes) c.max_size in
      let mid = even_floor (min c.normal_size limit) in
      if leb (length bytes) c.min_size
      then length bytes
      else Option.get_or
          (hit_from (mask_at mid) c.min_size (drop c.min_size (take (even_floor limit) bytes)))
          limit
