-- ===== src/Index/History/Invariant.antt =====
-- What holds of a `MasterIndex` after any calls (crates/mapache/src/repository/index.rs).
use mapache.Prelude.{
  ℕ, ◌^◌, ◌≤◌, ◌≡◌, refl, sym, true, if◌then◌else◌, length, list_eq, nat_eq, true-ne-false,
}
use mapache.Prelude.Order.{list_order, nat_order}
use mapache.Common.{ContentId}
use mapache.Collections.DedupFilter.{DedupFilter}
use mapache.Collections.ShardedIdSet as ShardedIdSet
use mapache.Collections.ShardedIdSet.{HasShards, new-HasShards, clear-HasShards}
use mapache.Index.File.{IndexFile, from_index_file}
use mapache.Index.File.Loaded.{from_index_file-IsValid}
use mapache.Index.Master.{MasterIndex, any_contains, contains}
use mapache.Index.Master.Known.{IsReady, IsKnowing, contains-IsKnowing}
use mapache.Index.Master.Filter.{
  initialize_bloom_filter-IsKnowing, add_index-IsKnowing, add_pending_blob-IsKnowing,
}
use mapache.Index.History.{
  Step, clears, autosaves, loads, filters, awaits, adds, persists, enters, finalizes, marks,
  settles, cleans, Reach, start, later,
}
use mapache.Index.History.Statuses.{
  add_pack-IsKnowing, persist_master-IsKnowing, finalized-IsKnowing, marked-IsKnowing,
  updated-IsKnowing,
}
use mapache.Index.Master.Entered.{enter_pack-IsKnowing}
use mapache.Index.State.{persisted}
use mapache.Index.History.Cleaning.{cleanup-IsKnowing}

loaded-IsReady :
    (F : Type 0) ⦃filter : DedupFilter F⦄ (instance_id : ℕ) (file : IndexFile) (file_id : ContentId)
    → length file.packs ≤ 2 ^ 32
    → IsReady {F = F} (from_index_file instance_id file file_id)
unfolding from_index_file
loaded-IsReady F instance_id file file_id room =
    (from_index_file-IsValid F instance_id file file_id room, λ q. absurd (true-ne-false (sym q)))

module _ {F : Type 0} ⦃filter : DedupFilter F⦄ where
  Step-IsKnowing : {m n : MasterIndex F} → Step m n → IsKnowing m → IsKnowing n
  Step-IsKnowing (clears master) h = record {
    ready = tt;
    knows = tt;
    shards = clear-HasShards master.pending_blobs h.shards;
  }
  Step-IsKnowing (autosaves master auto_save) h = record {
    ready = h.ready;
    knows = h.knows;
    shards = h.shards;
  }
  Step-IsKnowing (loads master instance_id file file_id room) h =
      add_index-IsKnowing master (from_index_file instance_id file file_id) h
        (loaded-IsReady F instance_id file file_id room)
  Step-IsKnowing (filters master total_blobs) h =
      initialize_bloom_filter-IsKnowing master total_blobs h.ready h.shards
  Step-IsKnowing (awaits master id) h = add_pending_blob-IsKnowing master id h
  Step-IsKnowing (adds master limit timed_out save_file next_instance_id pack_id descriptors room)
        h =
      add_pack-IsKnowing limit timed_out save_file next_instance_id master pack_id descriptors h
        room
  Step-IsKnowing (persists master save_file) h = persist_master-IsKnowing save_file master h
  Step-IsKnowing (enters master next_instance_id pack_id descriptors room) h =
      enter_pack-IsKnowing next_instance_id master pack_id descriptors h room
  Step-IsKnowing (finalizes master) h = finalized-IsKnowing master h
  Step-IsKnowing (marks master) h = marked-IsKnowing master h
  Step-IsKnowing (settles master instance_id file_id) h =
      updated-IsKnowing master instance_id (persisted file_id) refl h
  Step-IsKnowing (cleans master limit next_instance_id obsolete room) h =
      cleanup-IsKnowing limit next_instance_id obsolete master h room

  Reach-IsKnowing : {m : MasterIndex F} → Reach m → IsKnowing m
  Reach-IsKnowing start = record { ready = tt; knows = tt; shards = new-HasShards }
  Reach-IsKnowing (later r step) = Step-IsKnowing step (Reach-IsKnowing r)

  -- After any calls that change a new `MasterIndex`, in any order, and also between the locked parts of
  -- `add_pack` and `persist`, `contains` answers whether the blob waits for its pack or stands in some index:
  -- the filter, whenever it was made and whatever its size, hides no blob. The condition is that no index ever
  -- has more than 2 ^ 32 packs.
  pub contains-Reach :
      (master : MasterIndex F) (k : ContentId)
      → Reach master
      → contains master k ≡ (
          if ShardedIdSet.contains master.pending_blobs k
          then true
          else any_contains master.indices k)
  contains-Reach master k r = contains-IsKnowing master k (Reach-IsKnowing r)
