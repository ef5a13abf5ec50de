-- ===== src/Index/BlobMap.antt =====
-- crates/mapache/src/repository/index.rs: `BlobMap`, a hash map while an index is built, and a sorted
-- vector with a filter of its IDs once the index is on disk.
pub mod Lookup
use mapache.Prelude.{
  ℕ, Bool, true, false, not, List, [], ◌∷◌, Option, none, some, if◌then◌else◌, length, get_elem?,
  map, and_then, is_some, list_eq, nat_eq,
}
use mapache.Prelude.Order.{list_order, nat_order}
use mapache.Prelude.Search.{sort_by_key, binary_search_by_key}
use mapache.Common.{ContentId}
use mapache.Collections.Maps as Maps
use mapache.Collections.DedupFilter.{DedupFilter, add_all}

pub record BlobLocationInternal : Type 0 where
  pub pack_array_index : ℕ
  pub offset : ℕ
  pub length : ℕ
  pub raw_length : ℕ

abbrev pub Entry : Type 0
Entry = ContentId × BlobLocationInternal

abbrev pub id_of : Entry → ContentId
id_of entry = entry.0

pub data BlobMap (F : Type 0) : Type 0 where
  mutable : List Entry → BlobMap F
  immutable : List Entry → F → BlobMap F

-- `vec[idx].1`
abbrev pub location_at : List Entry → ℕ → Option BlobLocationInternal
location_at entries idx = and_then (get_elem? entries idx) λ entry. some entry.1

module _ {F : Type 0} ⦃filter : DedupFilter F⦄ where
  -- `new_mutable`
  abbrev pub new_mutable : BlobMap F
  new_mutable = mutable []

  unfoldable pub contains : BlobMap F → ContentId → Bool
  contains (mutable entries) id = is_some (Maps.get entries id)
  contains (immutable entries bf) id =
      if filter.test bf id then is_some (binary_search_by_key id_of entries id) else false

  unfoldable pub get : BlobMap F → ContentId → Option BlobLocationInternal
  get (mutable entries) id = Maps.get entries id
  get (immutable entries bf) id =
      if not (filter.test bf id)
      then none
      else and_then (binary_search_by_key id_of entries id) (location_at entries)

  -- An insertion into a frozen map is logged, and nothing else.
  unfoldable pub insert : BlobMap F → ContentId → BlobLocationInternal → BlobMap F
  insert (mutable entries) id loc = mutable (Maps.put entries id loc)
  insert (immutable entries bf) id loc = immutable entries bf

  abbrev pub iter : BlobMap F → List Entry
  iter (mutable entries) = entries
  iter (immutable entries bf) = entries

  abbrev pub len : BlobMap F → ℕ
  len blob_map = length (iter blob_map)

  -- The sorted vector, with a filter of its IDs.
  unfoldable pub frozen : List Entry → BlobMap F
  frozen entries =
      let sorted = sort_by_key id_of entries in
      immutable sorted (add_all (filter.fresh (length sorted)) (map id_of sorted))

  unfoldable pub freeze : BlobMap F → BlobMap F
  unfolding frozen
  freeze (mutable entries) = frozen entries
  freeze (immutable entries bf) = immutable entries bf
