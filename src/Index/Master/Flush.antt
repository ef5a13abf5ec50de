-- ===== src/Index/Master/Flush.antt =====
-- All of `MasterIndex::add_pack` (crates/mapache/src/repository/index.rs), the persisting of a full index
-- included.
use mapache.Prelude.{
  ℕ, ◌≡◌, refl, sym, ap, ◌∙◌, inl, inr, Bool, true, false, not, List, [], ◌∷◌, Option, none, some,
  Result, ok, err, if◌then◌else◌, All, list_eq, nat_eq, Bool-cases, ◌==◌, ◌&&◌, ◌||◌,
}
use mapache.Prelude.Order.{list_order, nat_order}
use mapache.Common.{ContentId}
use mapache.Collections.DedupFilter.{DedupFilter}
use mapache.Collections.ShardedIdSet as ShardedIdSet
use mapache.Packer.{PackedBlobDescriptor}
use mapache.Index.State as Index
use mapache.Index.State.{Index, IndexStatus, is_pending, is_full, finalize, set_status}
use mapache.Index.File.{IndexFile, SizePair, persist}
use mapache.Index.Master.{
  MasterIndex, any_contains, contains, may_contain, with_indices, finalize_pending, update_status,
  saved, flush_pack, enter_pack, add_pack, find_pending,
}
use mapache.Index.Master.Known.{packed, HasRoom, IsKnowing, any_contains-reverse}
use mapache.Index.Master.Entered.{listed, HasByteIds, contains-enter_pack}

module _ {F : Type 0} ⦃filter : DedupFilter F⦄ where
  pub any_contains-finalize_pending :
      (indices : List (Index F)) (k : ContentId)
      → any_contains (finalize_pending indices) k ≡ any_contains indices k
  any_contains-finalize_pending [] k = refl
  any_contains-finalize_pending (idx ∷ indices) k = elim (Bool-cases (is_pending idx)) [
    | inl q ↦ rw q refl
    | inr q ↦ rw q (
        ap (λ t. if Index.contains idx k then true else t)
          (any_contains-finalize_pending indices k))
  ]

  pub any_contains-update_status :
      (instance_id : ℕ) (status : IndexStatus) (indices : List (Index F)) (k : ContentId)
      → any_contains (update_status instance_id status indices) k ≡ any_contains indices k
  any_contains-update_status instance_id status [] k = refl
  any_contains-update_status instance_id status (idx ∷ indices) k =
      elim (Bool-cases (idx.instance_id == instance_id)) [
        | inl q ↦ rw q refl
        | inr q ↦ rw q (
            ap (λ t. if Index.contains idx k then true else t)
              (any_contains-update_status instance_id status indices k))
      ]

  -- Indices with the same blobs are known alike.
  contains-with_indices :
      (master : MasterIndex F) (indices : List (Index F)) (k : ContentId)
      → any_contains indices k ≡ any_contains master.indices k
      → contains (with_indices master indices) k ≡ contains master k
  unfolding contains
  contains-with_indices master indices k q =
      ap
        (λ t.
          if ShardedIdSet.contains master.pending_blobs k
          then true
          else if not (may_contain master.bloom_filter k)
          then false
          else t)
        (any_contains-reverse indices [] k
          ∙ ap (λ t. if t then true else false) q
          ∙ sym (any_contains-reverse master.indices [] k))

  contains-saved :
      (master : MasterIndex F) (instance_id : ℕ) (result : Result (Index F × SizePair))
      (k : ContentId)
      → contains (saved master instance_id result).1 k ≡ contains master k
  contains-saved master instance_id (err e) k = refl
  contains-saved master instance_id (ok (idx, size)) k =
      contains-with_indices master (update_status instance_id idx.status master.indices) k
        (any_contains-update_status instance_id idx.status master.indices k)

  contains-flush_pack :
      (limit : ℕ) (timed_out : Bool) (save_file : IndexFile → Result (ContentId × SizePair))
      (master : MasterIndex F) (found : Option (Index F)) (k : ContentId)
      → contains (flush_pack limit timed_out save_file master found).1 k ≡ contains master k
  unfolding flush_pack
  contains-flush_pack limit timed_out save_file master none k = refl
  contains-flush_pack limit timed_out save_file master (some idx) k =
      let finalized_master = with_indices master (finalize_pending master.indices) in
      let same : contains finalized_master k ≡ contains master k =
        contains-with_indices master (finalize_pending master.indices) k
          (any_contains-finalize_pending master.indices k) in
      elim (Bool-cases (master.auto_save && (is_full limit idx || timed_out))) [
        | inl q ↦ rw q (
            contains-saved finalized_master idx.instance_id (persist save_file (finalize idx)) k
            ∙ same)
        | inr q ↦ elim (Bool-cases (is_full limit idx)) [
          | inl r ↦ rw (q, r) same
          | inr r ↦ rw (q, r) refl
        ]
      ]

  -- After `add_pack` the data and tree blobs of the pack are known, an ID that only the pack's padding has
  -- does not wait any more and is known only if an index has it, and every other blob is as it was; so also
  -- when the index is full or timed out, and when it could not be written. The master index is consistent
  -- before, every index has fewer than 2 ^ 32 packs, and the IDs' first bytes are bytes.
  pub add_pack_remembers :
      (limit : ℕ) (timed_out : Bool) (save_file : IndexFile → Result (ContentId × SizePair))
      (next_instance_id : ℕ) (master : MasterIndex F) (pack_id : ContentId)
      (descriptors : List PackedBlobDescriptor) (k : ContentId)
      → IsKnowing master
      → All HasRoom master.indices
      → HasByteIds descriptors
      → contains
          (add_pack limit timed_out save_file next_instance_id master pack_id descriptors).1
          k
        ≡ (if packed descriptors k
            then true
            else if listed descriptors k
            then any_contains master.indices k
            else contains master k)
  unfolding add_pack
  add_pack_remembers limit timed_out save_file next_instance_id master pack_id descriptors k known
        room bytes =
      let entered = enter_pack next_instance_id master pack_id descriptors in
      contains-flush_pack limit timed_out save_file entered (find_pending entered.indices) k
      ∙ contains-enter_pack next_instance_id master pack_id descriptors known room k bytes
