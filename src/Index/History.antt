-- ===== src/Index/History.antt =====
-- crates/mapache/src/repository/index.rs: the calls that change a `MasterIndex`, in any order. A call that
-- holds the lock throughout is one step. `add_pack` and `persist` let the lock go while they write a file: they
-- are a step each, where no other call comes between, and their locked parts are steps too.
pub mod Statuses
pub mod Cleaning
pub mod Invariant
use mapache.Prelude.{ℕ, ◌^◌, ◌≤◌, Bool, List, [], Option, Result, length, All, list_eq, nat_eq}
use mapache.Prelude.Order.{list_order, nat_order}
use mapache.Prelude.Search.{sort_by_key}
use mapache.Common.{ContentId}
use mapache.Collections.DedupFilter.{DedupFilter}
use mapache.Packer.{PackedBlobDescriptor}
use mapache.Index.State.{persisted}
use mapache.Index.File.{IndexFile, SizePair, from_index_file}
use mapache.Index.Master.{
  MasterIndex, new, clear, add_index, initialize_bloom_filter, add_pending_blob, add_pack,
  enter_pack, with_indices, finalize_pending, update_status,
}
use mapache.Index.Master.Packs.{set_autosave}
use mapache.Index.Master.Known.{HasRoom}
use mapache.Index.Merge.{gather, instance_key, mark_indices, cleanup, persist_master}

module _ {F : Type 0} ⦃filter : DedupFilter F⦄ where
  -- One call. An index numbers its packs with 32 bits: a file has at most 2 ^ 32 packs, and so have the
  -- indices that are merged; an index that takes a pack has fewer.
  pub data Step : MasterIndex F → MasterIndex F → Type 0 where
    clears : (master : MasterIndex F) → Step master (clear master)
    autosaves :
        (master : MasterIndex F) (auto_save : Bool) → Step master (set_autosave master auto_save)
    loads :
        (master : MasterIndex F) (instance_id : ℕ) (file : IndexFile) (file_id : ContentId)
        → length file.packs ≤ 2 ^ 32
        → Step master (add_index master (from_index_file instance_id file file_id))
    filters :
        (master : MasterIndex F) (total_blobs : ℕ)
        → Step master (initialize_bloom_filter master total_blobs)
    awaits : (master : MasterIndex F) (id : ContentId) → Step master (add_pending_blob master id).1
    adds :
        (master : MasterIndex F) (limit : ℕ) (timed_out : Bool)
        (save_file : IndexFile → Result (ContentId × SizePair)) (next_instance_id : ℕ)
        (pack_id : ContentId) (descriptors : List PackedBlobDescriptor)
        → All HasRoom master.indices
        → Step master
            (add_pack limit timed_out save_file next_instance_id master pack_id descriptors).1
    persists :
        (master : MasterIndex F) (save_file : IndexFile → Result (ContentId × SizePair))
        → Step master (persist_master save_file master).1
    enters :
        (master : MasterIndex F) (next_instance_id : ℕ) (pack_id : ContentId)
        (descriptors : List PackedBlobDescriptor)
        → All HasRoom master.indices
        → Step master (enter_pack next_instance_id master pack_id descriptors)
    finalizes :
        (master : MasterIndex F)
        → Step master (with_indices master (finalize_pending master.indices))
    marks :
        (master : MasterIndex F) → Step master (with_indices master (mark_indices master.indices))
    settles :
        (master : MasterIndex F) (instance_id : ℕ) (file_id : ContentId)
        → Step master
            (with_indices master (update_status instance_id (persisted file_id) master.indices))
    cleans :
        (master : MasterIndex F) (limit next_instance_id : ℕ) (obsolete : Option (List ContentId))
        → length (gather obsolete (sort_by_key instance_key master.indices) []) ≤ 2 ^ 32
        → Step master (cleanup limit next_instance_id obsolete master)

  -- What calls make of a new `MasterIndex`.
  pub data Reach : MasterIndex F → Type 0 where
    start : Reach new
    later : {m n : MasterIndex F} → Reach m → Step m n → Reach n
