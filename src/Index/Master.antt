-- ===== src/Index/Master.antt =====
-- crates/mapache/src/repository/index.rs: `MasterIndex`, all the indices of a repository and the blobs
-- that wait for their pack. Each lock makes the code under it one step. The counter of instances and the
-- clock's answer are arguments; tracing is left out.
pub mod Packs
pub mod Known
pub mod Enter
pub mod Opened
pub mod Entered
pub mod Filter
pub mod Flush
use mapache.Prelude.{
  ℕ, zero, suc, ◌+◌, Bool, true, false, not, List, [], ◌∷◌, ◌++◌, map, reverse, Option, none, some,
  Result, ok, err, ◌>>=◌, repo, format, ltb, leb, ◌==◌, if◌then◌else◌, or_else, length, list_eq,
  nat_eq, ◌&&◌, ◌||◌,
}
use mapache.Common.{ContentId}
use mapache.Collections.DedupFilter.{DedupFilter, add_all}
use mapache.Collections.ShardedIdSet as ShardedIdSet
use mapache.Packer.{PackedBlobDescriptor}
use mapache.Index.State as Index
use mapache.Index.State.{
  BlobLocator, Index, finalize, set_status, is_pending, is_full, IndexStatus, pending, finalized,
  persisted,
}
use mapache.Index.File.{IndexFile, SizePair, zero_size, add_size, persist}

pub record MasterIndex (F : Type 0) : Type 0 where
  pub indices : List (Index F)
  pub bloom_filter : Option F
  pub pending_blobs : ShardedIdSet.ShardedIdSet
  pub auto_save : Bool

abbrev pub remove_pending :
    ShardedIdSet.ShardedIdSet → List PackedBlobDescriptor → ShardedIdSet.ShardedIdSet
remove_pending pending_blobs [] = pending_blobs
remove_pending pending_blobs (blob ∷ descriptors) =
    remove_pending (ShardedIdSet.remove pending_blobs blob.id).1 descriptors

abbrev pub descriptor_id : PackedBlobDescriptor → ContentId
descriptor_id blob = blob.id

module _ {F : Type 0} where
  abbrev pub any_pending : List (Index F) → Bool
  any_pending [] = false
  any_pending (idx ∷ indices) = if is_pending idx then true else any_pending indices

  -- `find_map`
  abbrev pub find_map : (Index F → Option BlobLocator) → List (Index F) → Option BlobLocator
  find_map f [] = none
  find_map f (idx ∷ indices) = or_else (f idx) (find_map f indices)

  -- The status of the first index of an instance.
  abbrev pub update_status : ℕ → IndexStatus → List (Index F) → List (Index F)
  update_status instance_id status [] = []
  update_status instance_id status (idx ∷ indices) =
      if idx.instance_id == instance_id
      then set_status idx status ∷ indices
      else idx ∷ update_status instance_id status indices

module _ {F : Type 0} ⦃filter : DedupFilter F⦄ where
  abbrev pub new : MasterIndex F
  new = record {
    indices = [];
    bloom_filter = none;
    pending_blobs = ShardedIdSet.new;
    auto_save = true;
  }

  abbrev pub clear : MasterIndex F → MasterIndex F
  clear master = record {
    indices = [];
    bloom_filter = none;
    pending_blobs = ShardedIdSet.clear master.pending_blobs;
    auto_save = master.auto_save;
  }

  abbrev pub num_blobs : List (Index F) → ℕ
  num_blobs [] = 0
  num_blobs (idx ∷ indices) = Index.num_blobs idx + num_blobs indices

  abbrev pub any_contains : List (Index F) → ContentId → Bool
  any_contains [] id = false
  any_contains (idx ∷ indices) id = if Index.contains idx id then true else any_contains indices id

  -- Whether the filter, where there is one, lets the ID through.
  abbrev pub may_contain : Option F → ContentId → Bool
  may_contain none id = true
  may_contain (some bf) id = filter.test bf id

  unfoldable pub contains : MasterIndex F → ContentId → Bool
  contains master id =
      if ShardedIdSet.contains master.pending_blobs id
      then true
      else if not (may_contain master.bloom_filter id)
      then false
      else any_contains (reverse master.indices) id

  unfoldable pub get_data : MasterIndex F → ContentId → Option BlobLocator
  get_data master id = find_map (λ idx. Index.get_data idx id) (reverse master.indices)

  unfoldable pub get_tree : MasterIndex F → ContentId → Option BlobLocator
  get_tree master id = find_map (λ idx. Index.get_tree idx id) (reverse master.indices)

  unfoldable pub get : MasterIndex F → ContentId → Option BlobLocator
  get master id = find_map (λ idx. Index.get idx id) (reverse master.indices)

  -- The filter, where there is one, with more IDs.
  abbrev pub add_ids : Option F → List ContentId → Option F
  add_ids none ids = none
  add_ids (some bf) ids = some (add_all bf ids)

  abbrev pub ids_of : Index F → List ContentId
  ids_of idx = map (λ entry. entry.0) (Index.iter_ids idx)

  unfoldable pub add_index : MasterIndex F → Index F → MasterIndex F
  add_index master idx = record {
    indices = master.indices ++ (idx ∷ []);
    bloom_filter = add_ids master.bloom_filter (ids_of idx);
    pending_blobs = master.pending_blobs;
    auto_save = master.auto_save;
  }

  abbrev pub add_indices : F → List (Index F) → F
  add_indices bf [] = bf
  add_indices bf (idx ∷ indices) = add_indices (add_all bf (ids_of idx)) indices

  unfoldable pub initialize_bloom_filter : MasterIndex F → ℕ → MasterIndex F
  initialize_bloom_filter master total_blobs = record {
    indices = master.indices;
    bloom_filter = some (add_indices (filter.fresh total_blobs) master.indices);
    pending_blobs = master.pending_blobs;
    auto_save = master.auto_save;
  }

  unfoldable pub add_pending_blob : MasterIndex F → ContentId → Bool × MasterIndex F
  add_pending_blob master id =
      if ShardedIdSet.contains master.pending_blobs id
      then (false, master)
      else if any_contains (reverse master.indices) id
      then (false, master)
      else (
        (ShardedIdSet.insert master.pending_blobs id).0,
        record {
          indices = master.indices;
          bloom_filter = master.bloom_filter;
          pending_blobs = (ShardedIdSet.insert master.pending_blobs id).1;
          auto_save = master.auto_save;
        },
      )

  -- The pack in the first pending index.
  abbrev pub add_to_pending :
      ContentId → List PackedBlobDescriptor → List (Index F) → List (Index F)
  add_to_pending pack_id descriptors [] = []
  add_to_pending pack_id descriptors (idx ∷ indices) =
      if is_pending idx
      then Index.add_pack idx pack_id descriptors ∷ indices
      else idx ∷ add_to_pending pack_id descriptors indices

  -- `find(|idx| idx.is_pending())`
  abbrev pub find_pending : List (Index F) → Option (Index F)
  find_pending [] = none
  find_pending (idx ∷ indices) = if is_pending idx then some idx else find_pending indices

  -- `pending_index.finalize()`
  abbrev pub finalize_pending : List (Index F) → List (Index F)
  finalize_pending [] = []
  finalize_pending (idx ∷ indices) =
      if is_pending idx then finalize idx ∷ indices else idx ∷ finalize_pending indices

  -- A new index where none is pending.
  abbrev pub with_pending : ℕ → List (Index F) → List (Index F)
  with_pending next_instance_id indices =
      if any_pending indices then indices else indices ++ (Index.new next_instance_id ∷ [])

  -- `add_pack` up to the test for a full index, all of it under the lock.
  unfoldable pub enter_pack :
      ℕ → MasterIndex F → ContentId → List PackedBlobDescriptor → MasterIndex F
  enter_pack next_instance_id master pack_id descriptors = record {
    indices = add_to_pending pack_id descriptors (with_pending next_instance_id master.indices);
    bloom_filter = add_ids master.bloom_filter (map descriptor_id descriptors);
    pending_blobs = remove_pending master.pending_blobs descriptors;
    auto_save = master.auto_save;
  }

  abbrev pub with_indices : MasterIndex F → List (Index F) → MasterIndex F
  with_indices master indices = record {
    indices = indices;
    bloom_filter = master.bloom_filter;
    pending_blobs = master.pending_blobs;
    auto_save = master.auto_save;
  }

  -- With what `persist` gives for the copy; an error leaves the index finalized.
  abbrev pub saved :
      MasterIndex F → ℕ → Result (Index F × SizePair) → Result SizePair × MasterIndex F
  saved master instance_id (err e) = (err e, master)
  saved master instance_id (ok (persisted_idx, size)) =
      (ok size, with_indices master (update_status instance_id persisted_idx.status master.indices))

  -- The rest of `add_pack`, with the index that took the pack.
  unfoldable pub flush_pack :
      ℕ
      → Bool
      → (IndexFile → Result (ContentId × SizePair))
      → MasterIndex F
      → Option (Index F)
      → Result SizePair × MasterIndex F
  flush_pack blobs_per_index_file is_timed_out save_file master none = (err repo, master)
  flush_pack blobs_per_index_file is_timed_out save_file master (some idx) =
      let full = is_full blobs_per_index_file idx in
      let finalized_master = with_indices master (finalize_pending master.indices) in
      if master.auto_save && (full || is_timed_out)
      then saved finalized_master idx.instance_id (persist save_file (finalize idx))
      else if full
      then (ok zero_size, finalized_master)
      else (ok zero_size, master)

  unfoldable pub add_pack :
      ℕ
      → Bool
      → (IndexFile → Result (ContentId × SizePair))
      → ℕ
      → MasterIndex F
      → ContentId
      → List PackedBlobDescriptor
      → Result SizePair × MasterIndex F
  unfolding flush_pack
  add_pack blobs_per_index_file is_timed_out save_file next_instance_id master pack_id descriptors =
      let entered = enter_pack next_instance_id master pack_id descriptors in
      flush_pack blobs_per_index_file is_timed_out save_file entered (find_pending entered.indices)
