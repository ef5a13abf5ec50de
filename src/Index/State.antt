-- ===== src/Index/State.antt =====
-- crates/mapache/src/repository/index.rs: `Index`, one index file's blobs. The counter of instances is
-- passed by the caller, and the time of creation is left out.
use mapache.Prelude.{
  ℕ, ◌+◌, ◌%◌, ◌^◌, Bool, true, false, List, [], ◌∷◌, ◌++◌, Option, none, some, leb, ◌==◌,
  if◌then◌else◌, and_then, or_else, list_eq, nat_eq,
}
use mapache.Prelude.Order.{list_order, nat_order}
use mapache.Common.{ContentId, BlobType, data_blob, tree_blob, padding}
use mapache.Collections.IndexSet as IndexSet
use mapache.Collections.DedupFilter.{DedupFilter}
use mapache.Packer.{PackedBlobDescriptor}
use mapache.Index.BlobMap as BlobMap
use mapache.Index.BlobMap.{BlobLocationInternal, Entry}

pub record BlobLocator : Type 0 where
  pub pack_id : ContentId
  pub offset : ℕ
  pub length : ℕ
  pub raw_length : ℕ
  pub blob_type : BlobType

pub data IndexStatus : Type 0 where
  pending finalized : IndexStatus
  persisted : ContentId → IndexStatus

pub record Index (F : Type 0) : Type 0 where
  pub instance_id : ℕ
  pub data_ids : BlobMap.BlobMap F
  pub tree_ids : BlobMap.BlobMap F
  pub pack_ids : IndexSet.IndexSet ContentId
  pub status : IndexStatus

abbrev pub status_is_pending : IndexStatus → Bool
status_is_pending pending = true
status_is_pending finalized = false
status_is_pending (persisted id) = false

abbrev pub status_id : IndexStatus → Option ContentId
status_id pending = none
status_id finalized = none
status_id (persisted id) = some id

abbrev pub location : ℕ → PackedBlobDescriptor → BlobLocationInternal
location pack_index blob = record {
  pack_array_index = pack_index;
  offset = blob.offset;
  length = blob.length;
  raw_length = blob.raw_length;
}

-- One step of the iterator: an entry without a pack is skipped.
abbrev pub keep_resolved :
    ContentId → Option BlobLocator → List (ContentId × BlobLocator) → List (ContentId × BlobLocator)
keep_resolved k none rest = rest
keep_resolved k (some l) rest = (k, l) ∷ rest

module _ {F : Type 0} where
  abbrev pub set_status : Index F → IndexStatus → Index F
  set_status idx status = record {
    instance_id = idx.instance_id;
    data_ids = idx.data_ids;
    tree_ids = idx.tree_ids;
    pack_ids = idx.pack_ids;
    status = status;
  }

  abbrev pub finalize : Index F → Index F
  finalize idx = set_status idx finalized

  abbrev pub with_blobs : Index F → BlobMap.BlobMap F → BlobMap.BlobMap F → Index F
  with_blobs idx data_ids tree_ids = record {
    instance_id = idx.instance_id;
    data_ids = data_ids;
    tree_ids = tree_ids;
    pack_ids = idx.pack_ids;
    status = idx.status;
  }

  abbrev pub with_packs : Index F → IndexSet.IndexSet ContentId → Index F
  with_packs idx pack_ids = record {
    instance_id = idx.instance_id;
    data_ids = idx.data_ids;
    tree_ids = idx.tree_ids;
    pack_ids = pack_ids;
    status = idx.status;
  }

  abbrev pub is_pending : Index F → Bool
  is_pending idx = status_is_pending idx.status

  abbrev pub index_id : Index F → Option ContentId
  index_id idx = status_id idx.status

module _ {F : Type 0} ⦃filter : DedupFilter F⦄ where
  abbrev pub new : ℕ → Index F
  new instance_id = record {
    instance_id = instance_id;
    data_ids = BlobMap.new_mutable;
    tree_ids = BlobMap.new_mutable;
    pack_ids = IndexSet.new;
    status = pending;
  }

  abbrev pub num_blobs : Index F → ℕ
  num_blobs idx = BlobMap.len idx.data_ids + BlobMap.len idx.tree_ids

  abbrev pub is_empty : Index F → Bool
  is_empty idx = num_blobs idx == 0

  -- Against the runtime's `blobs_per_index_file`.
  abbrev pub is_full : ℕ → Index F → Bool
  is_full blobs_per_index_file idx = leb blobs_per_index_file (num_blobs idx)

  abbrev pub contains : Index F → ContentId → Bool
  contains idx id =
      if BlobMap.contains idx.data_ids id then true else BlobMap.contains idx.tree_ids id

  -- The locator of a location, where its pack is known.
  abbrev pub resolve_location : Index F → BlobLocationInternal → BlobType → Option BlobLocator
  resolve_location idx loc blob_type =
      and_then (IndexSet.get_value idx.pack_ids loc.pack_array_index) λ pack_id. some (record {
        pack_id = pack_id;
        offset = loc.offset;
        length = loc.length;
        raw_length = loc.raw_length;
        blob_type = blob_type;
      })

  abbrev pub get_data_location : Index F → ContentId → Option BlobLocationInternal
  get_data_location idx id = BlobMap.get idx.data_ids id

  abbrev pub get_tree_location : Index F → ContentId → Option BlobLocationInternal
  get_tree_location idx id = BlobMap.get idx.tree_ids id

  -- The closures that `get`, `MasterIndex::get_data` and `get_tree` look a blob up with.
  abbrev pub get_data : Index F → ContentId → Option BlobLocator
  get_data idx id = and_then (get_data_location idx id) λ l. resolve_location idx l data_blob

  abbrev pub get_tree : Index F → ContentId → Option BlobLocator
  get_tree idx id = and_then (get_tree_location idx id) λ l. resolve_location idx l tree_blob

  abbrev pub get : Index F → ContentId → Option BlobLocator
  get idx id = or_else (get_data idx id) (get_tree idx id)

  -- One blob in the map of its type; padding is left out.
  abbrev pub add_blob : ℕ → Index F → PackedBlobDescriptor → BlobType → Index F
  add_blob pack_index idx blob padding = idx
  add_blob pack_index idx blob data_blob =
      with_blobs idx (BlobMap.insert idx.data_ids blob.id (location pack_index blob)) idx.tree_ids
  add_blob pack_index idx blob tree_blob =
      with_blobs idx idx.data_ids (BlobMap.insert idx.tree_ids blob.id (location pack_index blob))

  unfoldable pub add_blobs : ℕ → Index F → List PackedBlobDescriptor → Index F
  add_blobs pack_index idx [] = idx
  add_blobs pack_index idx (blob ∷ descriptors) =
      add_blobs pack_index (add_blob pack_index idx blob blob.blob_type) descriptors

  -- The pack's index is kept in 32 bits.
  unfoldable pub add_pack : Index F → ContentId → List PackedBlobDescriptor → Index F
  add_pack idx pack_id descriptors =
      let inserted = IndexSet.insert idx.pack_ids pack_id in
      add_blobs (inserted.0 % 2 ^ 32) (with_packs idx inserted.1) descriptors

  abbrev pub resolved : Index F → BlobType → List Entry → List (ContentId × BlobLocator)
  resolved idx blob_type [] = []
  resolved idx blob_type ((k, loc) ∷ entries) =
      keep_resolved k (resolve_location idx loc blob_type) (resolved idx blob_type entries)

  abbrev pub iter_ids : Index F → List (ContentId × BlobLocator)
  iter_ids idx =
      resolved idx data_blob (BlobMap.iter idx.data_ids)
      ++ resolved idx tree_blob (BlobMap.iter idx.tree_ids)
