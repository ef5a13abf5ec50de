-- ===== src/Index/Merge.antt =====
-- crates/mapache/src/repository/index.rs: the operations of `MasterIndex` over all its indices, `persist`,
-- `cleanup` (which merges the indices), `ids` and `search_prefix`.
pub mod Rebuild
pub mod Gather
pub mod Gathered
pub mod Keeps
pub mod Sources
pub mod Neutral
use mapache.Prelude.{
  ℕ, suc, Bool, true, false, not, List, [], ◌∷◌, ◌++◌, map, Option, none, some, Result, ok, err,
  format, ltb, ◌==◌, if◌then◌else◌, length, list_eq, nat_eq, ◌&&◌, contains as among,
}
use mapache.Prelude.Order.{list_order, nat_order}
use mapache.Prelude.Search.{sort_by_key}
use mapache.Common.{ContentId, BlobType, data_blob, tree_blob}
use mapache.Hex.{to_hex}
use mapache.Collections.Maps as Maps
use mapache.Collections.IndexSet as IndexSet
use mapache.Collections.DedupFilter.{DedupFilter}
use mapache.Packer.{PackedBlobDescriptor}
use mapache.Index.BlobMap as BlobMap
use mapache.Index.BlobMap.{BlobLocationInternal, Entry}
use mapache.Index.State.{
  Index, IndexStatus, pending, finalized, persisted, new, finalize, set_status, is_empty, is_full,
  iter_ids, add_pack,
}
use mapache.Index.File.{IndexFile, SizePair, zero_size, add_size, persist}
use mapache.Index.Master.{MasterIndex, with_indices, update_status}

abbrev pub PackMap : Type 0
PackMap = List (ContentId × List PackedBlobDescriptor)

abbrev pub list_at : Option (List PackedBlobDescriptor) → List PackedBlobDescriptor
list_at none = []
list_at (some descriptors) = descriptors

abbrev pub descriptor : BlobType → Entry → PackedBlobDescriptor
descriptor b_type (k, loc) = record {
  id = k;
  blob_type = b_type;
  offset = loc.offset;
  length = loc.length;
  raw_length = loc.raw_length;
}

-- Whether a pack is obsolete, where packs are given that are.
abbrev pub is_obsolete : Option (List ContentId) → ContentId → Bool
is_obsolete none pack_id = false
is_obsolete (some obsolete) pack_id = among obsolete pack_id

-- One entry, with its pack where that is known.
abbrev pub add_descriptor :
    Option (List ContentId) → BlobType → Entry → PackMap → Option ContentId → PackMap
add_descriptor obsolete b_type entry packs none = packs
add_descriptor obsolete b_type entry packs (some pack_id) =
    if is_obsolete obsolete pack_id
    then packs
    else Maps.put packs pack_id (list_at (Maps.get packs pack_id) ++ (descriptor b_type entry ∷ []))

-- The closure `process_map`.
abbrev pub process_map :
    Option (List ContentId)
    → IndexSet.IndexSet ContentId
    → BlobType
    → List Entry
    → PackMap
    → PackMap
process_map obsolete pack_ids b_type [] packs = packs
process_map obsolete pack_ids b_type (entry ∷ entries) packs =
    process_map obsolete pack_ids b_type entries (
      add_descriptor obsolete b_type entry packs
        (IndexSet.get_value pack_ids entry.1.pack_array_index))

-- The blobs of a pack by ID, over all indices; a later one replaces an earlier one.
abbrev pub BlobsOfPack : Type 0
BlobsOfPack = List (ContentId × PackedBlobDescriptor)

abbrev pub blobs_or_none : Option BlobsOfPack → BlobsOfPack
blobs_or_none none = []
blobs_or_none (some blobs) = blobs

abbrev pub put_all : BlobsOfPack → List PackedBlobDescriptor → BlobsOfPack
put_all blobs [] = blobs
put_all blobs (d ∷ descriptors) = put_all (Maps.put blobs d.id d) descriptors

-- One step of the fold: the packs of an index into those of the indices before it.
abbrev pub put_packs : List (ContentId × BlobsOfPack) → PackMap → List (ContentId × BlobsOfPack)
put_packs acc [] = acc
put_packs acc ((pack_id, descriptors) ∷ packs) =
    put_packs (Maps.put acc pack_id (put_all (blobs_or_none (Maps.get acc pack_id)) descriptors))
      packs

abbrev pub blob_offset : PackedBlobDescriptor → ℕ
blob_offset d = d.offset

abbrev pub values_of : BlobsOfPack → List PackedBlobDescriptor
values_of blobs = map (λ entry. entry.1) blobs

abbrev pub pack_key : ContentId × BlobsOfPack → ContentId
pack_key pack = pack.0

abbrev pub status_is_persisted : IndexStatus → Bool
status_is_persisted pending = false
status_is_persisted finalized = false
status_is_persisted (persisted file_id) = true

-- `starts_with`
abbrev pub starts_with : List ℕ → List ℕ → Bool
starts_with chars [] = true
starts_with [] (p ∷ prefix) = false
starts_with (c ∷ chars) (p ∷ prefix) = if c == p then starts_with chars prefix else false

abbrev pub matching : List ℕ → List ContentId → List ContentId
matching prefix [] = []
matching prefix (id ∷ ids) =
    if starts_with (to_hex id) prefix then id ∷ matching prefix ids else matching prefix ids

abbrev pub first_of : List ContentId → Option ContentId
first_of [] = none
first_of (id ∷ ids) = some id

module _ {F : Type 0} ⦃filter : DedupFilter F⦄ where
  unfoldable pub get_pack_descriptors : Index F → Option (List ContentId) → PackMap
  get_pack_descriptors idx obsolete =
      process_map obsolete idx.pack_ids tree_blob (BlobMap.iter idx.tree_ids)
        (process_map obsolete idx.pack_ids data_blob (BlobMap.iter idx.data_ids) [])

  abbrev pub gather :
      Option (List ContentId)
      → List (Index F)
      → List (ContentId × BlobsOfPack)
      → List (ContentId × BlobsOfPack)
  gather obsolete [] acc = acc
  gather obsolete (idx ∷ indices) acc =
      gather obsolete indices (put_packs acc (get_pack_descriptors idx obsolete))

  -- The loop that fills new indices: `current_index`, and the instance number of the next one.
  abbrev pub rebuild : ℕ → ℕ → List (ContentId × BlobsOfPack) → Index F → List (Index F)
  rebuild limit next_instance_id [] current_index =
      if is_empty current_index then [] else set_status current_index pending ∷ []
  rebuild limit next_instance_id ((pack_id, blobs) ∷ packs) current_index =
      let filled = add_pack current_index pack_id (sort_by_key blob_offset (values_of blobs)) in
      let full = is_full limit filled in
      let rest =
        rebuild limit (if full then suc next_instance_id else next_instance_id) packs
          (if full then new next_instance_id else filled) in
      if full then set_status filled finalized ∷ rest else rest

  abbrev pub instance_key : Index F → ℕ
  instance_key idx = idx.instance_id

  unfoldable pub merge_index : ℕ → ℕ → Option (List ContentId) → List (Index F) → List (Index F)
  unfolding get_pack_descriptors
  merge_index limit next_instance_id obsolete indices =
      let all_pack_descriptors = gather obsolete (sort_by_key instance_key indices) [] in
      rebuild limit (suc next_instance_id) (sort_by_key pack_key all_pack_descriptors)
        (new next_instance_id)

  unfoldable pub cleanup : ℕ → ℕ → Option (List ContentId) → MasterIndex F → MasterIndex F
  unfolding merge_index
  cleanup limit next_instance_id obsolete master =
      with_indices master (merge_index limit next_instance_id obsolete master.indices)

  abbrev pub needs_persisting : Index F → Bool
  needs_persisting idx = not (status_is_persisted idx.status) && not (is_empty idx)

  -- Under the lock: the indices to persist are finalized.
  abbrev pub mark_indices : List (Index F) → List (Index F)
  mark_indices [] = []
  mark_indices (idx ∷ indices) =
      (if needs_persisting idx then finalize idx else idx) ∷ mark_indices indices

  abbrev pub marked : List (Index F) → List (Index F)
  marked [] = []
  marked (idx ∷ indices) =
      if needs_persisting idx then finalize idx ∷ marked indices else marked indices

  -- The loop over the copies; an error ends it, and what was persisted before stays so.
  abbrev pub persist_all :
      (IndexFile → Result (ContentId × SizePair))
      → List (Index F)
      → SizePair
      → MasterIndex F
      → Result SizePair × MasterIndex F
  persist_all save_file [] total_size master = (ok total_size, master)
  persist_all save_file (idx ∷ indices) total_size master = elim (persist save_file idx) [
    | err e ↦ (err e, master)
    | ok (persisted_idx, size) ↦
        persist_all save_file indices (add_size total_size size)
          (with_indices master (update_status idx.instance_id persisted_idx.status master.indices))
  ]

  unfoldable pub persist_master :
      (IndexFile → Result (ContentId × SizePair)) → MasterIndex F → Result SizePair × MasterIndex F
  persist_master save_file master =
      persist_all save_file (marked master.indices) zero_size
        (with_indices master (mark_indices master.indices))

  abbrev pub for_each_id : List (Index F) → List ContentId
  for_each_id [] = []
  for_each_id (idx ∷ indices) = map (λ entry. entry.0) (iter_ids idx) ++ for_each_id indices

  unfoldable pub search_prefix : MasterIndex F → List ℕ → Result (Option ContentId)
  search_prefix master prefix =
      let matched = matching prefix (for_each_id master.indices) in
      if ltb 1 (length matched) then err format else ok (first_of matched)
