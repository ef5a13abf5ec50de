-- ===== src/Index/History/Statuses.antt =====
-- Finalizing, persisting and updating statuses keep a `MasterIndex` consistent
-- (crates/mapache/src/repository/index.rs).
use mapache.Prelude.{
  ℕ, ◌≡◌, refl, sym, ap, ◌∙◌, inl, inr, Bool, true, false, List, [], ◌∷◌, Option, none, some,
  Result, ok, err, if◌then◌else◌, All, list_eq, nat_eq, Bool-cases, true-ne-false, ◌==◌, ◌&&◌, ◌||◌,
  ◌>>=◌, ◌<◌, length,
}
use mapache.Prelude.Order.{list_order, nat_order}
use mapache.Common.{ContentId, BlobType, data_blob, tree_blob, padding}
use mapache.Collections.DedupFilter.{DedupFilter}
use mapache.Packer.{PackedBlobDescriptor}
use mapache.Index.BlobMap as BlobMap
use mapache.Index.BlobMap.{BlobLocationInternal}
use mapache.Index.BlobMap.Lookup.{IsWellFormed}
use mapache.Index.State as Index
use mapache.Index.State.{
  Index, IndexStatus, finalized, status_is_pending, is_pending, is_full, is_empty, finalize,
  set_status,
}
use mapache.Index.AddPack.{map_of}
use mapache.Index.Validity.{IsValid}
use mapache.Index.File.{IndexFile, SizePair, index_file, persist, add_size, zero_size}
use mapache.Index.Master.{
  MasterIndex, any_contains, with_indices, finalize_pending, update_status, saved, flush_pack,
  enter_pack, add_pack, find_pending,
}
use mapache.Index.Master.Known.{FilterKnows, IsReady, HasRoom, IsKnowing}
use mapache.Index.Master.Entered.{enter_pack-IsKnowing}
use mapache.Index.Master.Flush.{any_contains-finalize_pending, any_contains-update_status}
use mapache.Index.Merge.{needs_persisting, mark_indices, marked, persist_all, persist_master}

module _ {F : Type 0} ⦃filter : DedupFilter F⦄ where
  pub set_status-IsValid :
      (idx : Index F) (status : IndexStatus) → IsValid idx → IsValid (set_status idx status)
  set_status-IsValid idx status h = record {
    formed = λ t. formed t;
    indexed = h.indexed;
    packs = λ t k loc q. packs t k loc q;
  }
    where
      formed : (t : BlobType) → IsWellFormed (map_of t (set_status idx status))
      formed data_blob = h.formed data_blob
      formed tree_blob = h.formed tree_blob
      formed padding = h.formed padding

      packs :
          (t : BlobType) (k : ContentId) (loc : BlobLocationInternal)
          → BlobMap.get (map_of t (set_status idx status)) k ≡ some loc
          → loc.pack_array_index < length idx.pack_ids.values
      packs data_blob = h.packs data_blob
      packs tree_blob = h.packs tree_blob
      packs padding = h.packs padding

  -- An index that no longer takes packs may be frozen.
  pub set_status-IsReady :
      (idx : Index F) (status : IndexStatus)
      → status_is_pending status ≡ false
      → IsReady idx
      → IsReady (set_status idx status)
  set_status-IsReady idx status closed h =
      (set_status-IsValid idx status h.0, λ q. absurd (true-ne-false (sym q ∙ closed)))

  finalize_pending-IsReady :
      (indices : List (Index F)) → All IsReady indices → All IsReady (finalize_pending indices)
  finalize_pending-IsReady [] h = tt
  finalize_pending-IsReady (idx ∷ indices) h = elim (Bool-cases (is_pending idx)) [
    | inl q ↦ rw q (set_status-IsReady idx finalized refl h.0, h.1)
    | inr q ↦ rw q (h.0, finalize_pending-IsReady indices h.1)
  ]

  update_status-IsReady :
      (instance_id : ℕ) (status : IndexStatus) (indices : List (Index F))
      → status_is_pending status ≡ false
      → All IsReady indices
      → All IsReady (update_status instance_id status indices)
  update_status-IsReady instance_id status [] closed h = tt
  update_status-IsReady instance_id status (idx ∷ indices) closed h =
      elim (Bool-cases (idx.instance_id == instance_id)) [
        | inl q ↦ rw q (set_status-IsReady idx status closed h.0, h.1)
        | inr q ↦ rw q (h.0, update_status-IsReady instance_id status indices closed h.1)
      ]

  -- Indices that find no other blob are as consistent.
  pub with_indices-IsKnowing :
      (master : MasterIndex F) (indices : List (Index F))
      → IsKnowing master
      → All IsReady indices
      → ((k : ContentId) → any_contains indices k ≡ true → any_contains master.indices k ≡ true)
      → IsKnowing (with_indices master indices)
  with_indices-IsKnowing master indices h ready found = record {
    ready = ready;
    knows = by_filter master.bloom_filter h.knows;
    shards = h.shards;
  }
    where
      by_filter : (bf : Option F) → FilterKnows bf master.indices → FilterKnows bf indices
      by_filter none knows = tt
      by_filter (some bf) knows = (knows.0, λ k there. knows.1 k (found k there))

  pub finalized-IsKnowing :
      (master : MasterIndex F)
      → IsKnowing master
      → IsKnowing (with_indices master (finalize_pending master.indices))
  finalized-IsKnowing master h =
      with_indices-IsKnowing master (finalize_pending master.indices) h
        (finalize_pending-IsReady master.indices h.ready)
        (λ k there. sym (any_contains-finalize_pending master.indices k) ∙ there)

  pub updated-IsKnowing :
      (master : MasterIndex F) (instance_id : ℕ) (status : IndexStatus)
      → status_is_pending status ≡ false
      → IsKnowing master
      → IsKnowing (with_indices master (update_status instance_id status master.indices))
  updated-IsKnowing master instance_id status closed h =
      with_indices-IsKnowing master (update_status instance_id status master.indices) h
        (update_status-IsReady instance_id status master.indices closed h.ready)
        (λ k there. sym (any_contains-update_status instance_id status master.indices k) ∙ there)

  -- What `persist` returns takes no more packs.
  abbrev IsClosed : Result (Index F × SizePair) → Type 0
  IsClosed (err e) = Unit
  IsClosed (ok (idx, size)) = is_pending idx ≡ false

  bind-IsClosed :
      {A : Type 0} (r : Result A) (f : A → Result (Index F × SizePair))
      → ((a : A) → IsClosed (f a))
      → IsClosed (r >>= f)
  bind-IsClosed (err e) f h = tt
  bind-IsClosed (ok a) f h = h a

  persist-IsClosed :
      (save_file : IndexFile → Result (ContentId × SizePair)) (idx : Index F)
      → IsClosed (persist save_file idx)
  unfolding persist
  persist-IsClosed save_file idx = elim (Bool-cases (is_empty idx)) [
    | inl q ↦ rw q refl
    | inr q ↦ rw q (
        bind-IsClosed (index_file (finalize idx)) _
          λ file. bind-IsClosed (save_file file) _ λ written. refl)
  ]

  saved-IsKnowing :
      (master : MasterIndex F) (instance_id : ℕ) (result : Result (Index F × SizePair))
      → IsClosed result
      → IsKnowing master
      → IsKnowing (saved master instance_id result).1
  saved-IsKnowing master instance_id (err e) closed h = h
  saved-IsKnowing master instance_id (ok (idx, size)) closed h =
      updated-IsKnowing master instance_id idx.status closed h

  flush_pack-IsKnowing :
      (limit : ℕ) (timed_out : Bool) (save_file : IndexFile → Result (ContentId × SizePair))
      (master : MasterIndex F) (found : Option (Index F))
      → IsKnowing master
      → IsKnowing (flush_pack limit timed_out save_file master found).1
  unfolding flush_pack
  flush_pack-IsKnowing limit timed_out save_file master none h = h
  flush_pack-IsKnowing limit timed_out save_file master (some idx) h =
      let finalized_master = with_indices master (finalize_pending master.indices) in
      elim (Bool-cases (master.auto_save && (is_full limit idx || timed_out))) [
        | inl q ↦ rw q (
            saved-IsKnowing finalized_master idx.instance_id (persist save_file (finalize idx))
              (persist-IsClosed save_file (finalize idx)) (finalized-IsKnowing master h))
        | inr q ↦ elim (Bool-cases (is_full limit idx)) [
          | inl r ↦ rw (q, r) (finalized-IsKnowing master h)
          | inr r ↦ rw (q, r) h
        ]
      ]

  pub add_pack-IsKnowing :
      (limit : ℕ) (timed_out : Bool) (save_file : IndexFile → Result (ContentId × SizePair))
      (next_instance_id : ℕ) (master : MasterIndex F) (pack_id : ContentId)
      (descriptors : List PackedBlobDescriptor)
      → IsKnowing master
      → All HasRoom master.indices
      → IsKnowing (add_pack limit timed_out save_file next_instance_id master pack_id descriptors).1
  unfolding add_pack
  add_pack-IsKnowing limit timed_out save_file next_instance_id master pack_id descriptors h room =
      let entered = enter_pack next_instance_id master pack_id descriptors in
      flush_pack-IsKnowing limit timed_out save_file entered (find_pending entered.indices)
        (enter_pack-IsKnowing next_instance_id master pack_id descriptors h room)

  mark_indices-IsReady :
      (indices : List (Index F)) → All IsReady indices → All IsReady (mark_indices indices)
  mark_indices-IsReady [] h = tt
  mark_indices-IsReady (idx ∷ indices) h = elim (Bool-cases (needs_persisting idx)) [
    | inl q ↦ rw q (set_status-IsReady idx finalized refl h.0, mark_indices-IsReady indices h.1)
    | inr q ↦ rw q (h.0, mark_indices-IsReady indices h.1)
  ]

  any_contains-mark_indices :
      (indices : List (Index F)) (k : ContentId)
      → any_contains (mark_indices indices) k ≡ any_contains indices k
  any_contains-mark_indices [] k = refl
  any_contains-mark_indices (idx ∷ indices) k = elim (Bool-cases (needs_persisting idx)) [
    | inl q ↦
        rw q
          (ap (λ t. if Index.contains idx k then true else t) (any_contains-mark_indices indices k))
    | inr q ↦
        rw q
          (ap (λ t. if Index.contains idx k then true else t) (any_contains-mark_indices indices k))
  ]

  pub marked-IsKnowing :
      (master : MasterIndex F)
      → IsKnowing master
      → IsKnowing (with_indices master (mark_indices master.indices))
  marked-IsKnowing master h =
      with_indices-IsKnowing master (mark_indices master.indices) h
        (mark_indices-IsReady master.indices h.ready)
        (λ k there. sym (any_contains-mark_indices master.indices k) ∙ there)

  persist_all-IsKnowing :
      (save_file : IndexFile → Result (ContentId × SizePair)) (indices : List (Index F))
      (total_size : SizePair) (master : MasterIndex F)
      → IsKnowing master
      → IsKnowing (persist_all save_file indices total_size master).1
  persist_all-IsKnowing save_file [] total_size master h = h
  persist_all-IsKnowing save_file (idx ∷ indices) total_size master h =
      by_result (λ size m. persist_all-IsKnowing save_file indices size m) (persist save_file idx)
        (persist-IsClosed save_file idx)
    where
      by_result :
          ((size : SizePair) (m : MasterIndex F)
            → IsKnowing m
            → IsKnowing (persist_all save_file indices size m).1)
          → (r : Result (Index F × SizePair)) → IsClosed r
          → (let done : Result SizePair × MasterIndex F = elim r [
            | err e ↦ (err e, master)
            | ok (persisted_idx, size) ↦ persist_all save_file indices (add_size total_size size) (
                with_indices master
                  (update_status idx.instance_id persisted_idx.status master.indices))
          ] in
              IsKnowing done.1)
      by_result rest (err e) closed = h
      by_result rest (ok (persisted_idx, size)) closed =
          rest (add_size total_size size)
            (with_indices master
              (update_status idx.instance_id persisted_idx.status master.indices))
            (updated-IsKnowing master idx.instance_id persisted_idx.status closed h)

  pub persist_master-IsKnowing :
      (save_file : IndexFile → Result (ContentId × SizePair)) (master : MasterIndex F)
      → IsKnowing master
      → IsKnowing (persist_master save_file master).1
  unfolding persist_master
  persist_master-IsKnowing save_file master h =
      persist_all-IsKnowing save_file (marked master.indices) zero_size
        (with_indices master (mark_indices master.indices)) (marked-IsKnowing master h)
