-- ===== src/Chunker/Config.antt =====
-- crates/chunker/src/lib.rs: `Normalization`, `Chunker` and `Chunker::new`.
pub mod New
use mapache.Prelude.{
  ℕ, zero, suc, ◌+◌, ◌-◌, ◌*◌, ◌/◌, ◌%◌, ◌^◌, Bool, List, Option, none, some, leb, ltb, ◌&&◌,
  if◌then◌else◌, length, get_elem?,
}
use mapache.Chunker.Tables.{gear_table, gear_ls_table, mask_table}

abbrev pub total_min_size : ℕ
total_min_size = 64

abbrev pub total_max_size : ℕ
total_max_size = 16 * 1024 * 1024

abbrev pub max_normal_size : ℕ
max_normal_size = 4 * 1024 * 1024

pub data Normalization : Type 0 where
  off l1 l2 l3 : Normalization

unfoldable pub bits : Normalization → ℕ
bits off = 0
bits l1 = 1
bits l2 = 2
bits l3 = 3

pub record Chunker : Type 0 where
  pub min_size : ℕ
  pub normal_size : ℕ
  pub max_size : ℕ
  pub gear : List ℕ
  pub gear_ls : List ℕ
  pub mask_s : ℕ
  pub mask_l : ℕ
  pub mask_s_ls : ℕ
  pub mask_l_ls : ℕ

ilog2_loop : ℕ → ℕ → ℕ
ilog2_loop zero n = 0
ilog2_loop (suc fuel) n = let rest = ilog2_loop fuel (n / 2) in if ltb n 2 then 0 else suc rest

-- `usize::ilog2`, of a positive number below 2 ^ 64.
unfoldable pub ilog2 : ℕ → ℕ
unfolding ilog2_loop
ilog2 n = ilog2_loop 64 n

-- `x << 1` in a 64-bit word.
abbrev pub shl_one : ℕ → ℕ
shl_one x = x * 2 % 2 ^ 64

-- `none` is a panic: a failed `assert!`, or an index outside of `MASKS`. The subtraction
-- `normal_bits - norm_bits` cannot wrap below 0, since `normal_size` is 64 at least.
build : ℕ → ℕ → ℕ → Option ℕ → Option ℕ → Option Chunker
build min_size normal_size max_size none mask_l = none
build min_size normal_size max_size (some mask_s) none = none
build min_size normal_size max_size (some mask_s) (some mask_l) = some (record {
  min_size = min_size;
  normal_size = normal_size;
  max_size = max_size;
  gear = gear_table;
  gear_ls = gear_ls_table;
  mask_s = mask_s;
  mask_l = mask_l;
  mask_s_ls = shl_one mask_s;
  mask_l_ls = shl_one mask_l;
})

-- The five assertions on the sizes.
unfoldable pub sizes_allowed : ℕ → ℕ → ℕ → Bool
sizes_allowed min_size normal_size max_size =
    leb min_size normal_size
    && leb normal_size max_size
    && leb total_min_size min_size
    && leb max_size total_max_size
    && leb normal_size max_normal_size

unfoldable pub new : ℕ → ℕ → ℕ → Normalization → Option Chunker
unfolding build
new min_size normal_size max_size normalization =
    let normal_bits = ilog2 normal_size in
    let norm_bits = bits normalization in
    if sizes_allowed min_size normal_size max_size
      && leb (normal_bits + norm_bits) (length mask_table)
    then build min_size normal_size max_size (get_elem? mask_table (normal_bits + norm_bits))
        (get_elem? mask_table (normal_bits - norm_bits))
    else none
