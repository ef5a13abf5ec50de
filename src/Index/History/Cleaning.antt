-- ===== src/Index/History/Cleaning.antt =====
-- `MasterIndex::cleanup` keeps a `MasterIndex` consistent (crates/mapache/src/repository/index.rs).
use mapache.Prelude.{
  ℕ, suc, ◌^◌, ◌≤◌, refl, inl, inr, List, [], ◌∷◌, Option, length, All, list_eq, nat_eq, Bool-cases,
  arith,
}
use mapache.Prelude.Order.{list_order, nat_order}
use mapache.Prelude.Search.{sort_by_key, length-sort_by_key}
use mapache.Common.{ContentId}
use mapache.Collections.DedupFilter.{DedupFilter}
use mapache.Index.State.{Index, pending, finalized, new, add_pack, is_empty, is_full}
use mapache.Index.Master.{MasterIndex}
use mapache.Index.Master.Known.{IsReady, IsKnowing}
use mapache.Index.Master.Opened.{new-IsReady}
use mapache.Index.Merge.{
  BlobsOfPack, values_of, blob_offset, pack_key, instance_key, gather, rebuild, merge_index,
  cleanup,
}
use mapache.Index.Merge.Rebuild.{IsFillable, filled-IsFillable}
use mapache.Index.Merge.Sources.{any_contains-merged}
use mapache.Index.History.Statuses.{set_status-IsValid, set_status-IsReady, with_indices-IsKnowing}

module _ {F : Type 0} ⦃filter : DedupFilter F⦄ where
  rebuild-IsReady :
      (limit next_instance_id : ℕ) (packs : List (ContentId × BlobsOfPack))
      (current_index : Index F)
      → IsFillable current_index (length packs)
      → length packs ≤ 2 ^ 32
      → All IsReady (rebuild limit next_instance_id packs current_index)
  rebuild-IsReady limit next_instance_id [] current_index fit short =
      elim (Bool-cases (is_empty current_index)) [
        | inl q ↦ rw q tt
        | inr q ↦ rw q ((set_status-IsValid current_index pending fit.1, λ p. fit.0), tt)
      ]
  rebuild-IsReady limit next_instance_id ((pack_id, blobs) ∷ packs) current_index fit short =
      let descriptors = sort_by_key blob_offset (values_of blobs) in
      let filled = add_pack current_index pack_id descriptors in
      let fit' = filled-IsFillable current_index pack_id descriptors (length packs) fit in
      let short' : length packs ≤ 2 ^ 32 = omega (arith, short) in
      elim (Bool-cases (is_full limit filled)) [
        | inr q ↦ rw q (rebuild-IsReady limit next_instance_id packs filled fit' short')
        | inl q ↦ rw q (
          set_status-IsReady filled finalized refl (fit'.1, λ p. fit'.0),
          rebuild-IsReady limit (suc next_instance_id) packs (new next_instance_id)
              ((tt, tt), (new-IsReady F next_instance_id).0, omega (arith, short')) short',
        )
      ]

  merge_index-IsReady :
      (limit next_instance_id : ℕ) (obsolete : Option (List ContentId)) (indices : List (Index F))
      → length (gather obsolete (sort_by_key instance_key indices) []) ≤ 2 ^ 32
      → All IsReady (merge_index limit next_instance_id obsolete indices)
  unfolding merge_index
  merge_index-IsReady limit next_instance_id obsolete indices room =
      let all = gather obsolete (sort_by_key instance_key indices) [] in
      let short : length (sort_by_key pack_key all) ≤ 2 ^ 32 =
        omega (arith, room, length-sort_by_key pack_key all) in
      rebuild-IsReady limit (suc next_instance_id) (sort_by_key pack_key all) (new next_instance_id)
        ((tt, tt), (new-IsReady F next_instance_id).0, omega (arith, short)) short

  pub cleanup-IsKnowing :
      (limit next_instance_id : ℕ) (obsolete : Option (List ContentId)) (master : MasterIndex F)
      → IsKnowing master
      → length (gather obsolete (sort_by_key instance_key master.indices) []) ≤ 2 ^ 32
      → IsKnowing (cleanup limit next_instance_id obsolete master)
  unfolding cleanup
  cleanup-IsKnowing limit next_instance_id obsolete master h room =
      with_indices-IsKnowing master (merge_index limit next_instance_id obsolete master.indices) h
        (merge_index-IsReady limit next_instance_id obsolete master.indices room)
        (λ k there.
          any_contains-merged limit next_instance_id obsolete master.indices k h.ready room there)
