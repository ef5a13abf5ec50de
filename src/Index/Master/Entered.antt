-- ===== src/Index/Master/Entered.antt =====
-- Entering a pack: what a `MasterIndex` knows then, padding included
-- (crates/mapache/src/repository/index.rs).
use mapache.Prelude.{
  ℕ, ◌^◌, ◌<◌, ◌≡◌, refl, sym, ap, ap₂, subst, ◌∙◌, ◌⊎◌, inl, inr, Bool, true, false, List, [], ◌∷◌,
  map, Memᴰ, Option, none, some, if◌then◌else◌, or_else, is_some, All, list_eq, nat_eq, Bool-cases,
  beq-cases, contains as among, true-ne-false, arith,
}
use mapache.Prelude.Order.{list_order, nat_order}
use mapache.Common.{ContentId, BlobType, data_blob, tree_blob}
use mapache.Collections.DedupFilter.{DedupFilter, add_all-Formed, add_all_keeps, test-add_all}
use mapache.Collections.ShardedIdSet as ShardedIdSet
use mapache.Collections.ShardedIdSet.{HasShards, shard_of, contains-remove, remove-HasShards}
use mapache.Packer.{PackedBlobDescriptor}
use mapache.Index.State.{Index, is_pending}
use mapache.Index.AddPack.{last_blob, same_type}
use mapache.Index.Validity.{add_pack-AllMutable, add_pack-IsValid}
use mapache.Index.Master.{
  MasterIndex, any_pending, any_contains, contains, add_ids, remove_pending, add_to_pending,
  with_pending, enter_pack, descriptor_id,
}
use mapache.Index.Master.Known.{
  packed, FilterKnows, IsReady, HasRoom, IsKnowing, contains-IsKnowing,
}
use mapache.Index.Master.Enter.{any_contains-add_to_pending}
use mapache.Index.Master.Opened.{
  new-IsReady, any_pending-with_pending, with_pending-All, any_contains-with_pending,
}

-- The IDs of a pack's descriptors, those of its padding included.
abbrev pub listed : List PackedBlobDescriptor → ContentId → Bool
listed descriptors k = among (map descriptor_id descriptors) k

-- The first byte of every ID is a byte.
abbrev pub HasByteIds : List PackedBlobDescriptor → Type 0
HasByteIds descriptors = All (λ (blob : PackedBlobDescriptor). shard_of blob.id < 256) descriptors

remove_pending-HasShards :
    (pending_blobs : ShardedIdSet.ShardedIdSet) (descriptors : List PackedBlobDescriptor)
    → HasShards pending_blobs
    → HasShards (remove_pending pending_blobs descriptors)
remove_pending-HasShards pending_blobs [] h = h
remove_pending-HasShards pending_blobs (blob ∷ descriptors) h =
    remove_pending-HasShards (ShardedIdSet.remove pending_blobs blob.id).1 descriptors
      (remove-HasShards pending_blobs blob.id h)

-- Taking the pack's blobs out of the set of waiting blobs takes out no other.
contains-remove_pending :
    (pending_blobs : ShardedIdSet.ShardedIdSet) (descriptors : List PackedBlobDescriptor)
    (k : ContentId)
    → HasByteIds descriptors
    → HasShards pending_blobs
    → ShardedIdSet.contains (remove_pending pending_blobs descriptors) k
      ≡ (if listed descriptors k then false else ShardedIdSet.contains pending_blobs k)
contains-remove_pending pending_blobs [] k bytes h = refl
contains-remove_pending pending_blobs (blob ∷ descriptors) k bytes h =
    contains-remove_pending (ShardedIdSet.remove pending_blobs blob.id).1 descriptors k bytes.1
      (remove-HasShards pending_blobs blob.id h)
    ∙ ap (λ t. if listed descriptors k then false else t)
        (contains-remove pending_blobs blob.id k h bytes.0)
    ∙ swap (listed descriptors k) (list_eq.beq blob.id k)
  where
    swap :
        (p q : Bool)
        → (if p then false else (if q then false else ShardedIdSet.contains pending_blobs k))
          ≡ (if (if q then true else p) then false else ShardedIdSet.contains pending_blobs k)
    swap true true = refl
    swap true false = refl
    swap false true = refl
    swap false false = refl

-- A blob with another ID is not looked at.
last_blob_skip :
    (t : BlobType) (blob : PackedBlobDescriptor) (descriptors : List PackedBlobDescriptor)
    (k : ContentId)
    → list_eq.beq blob.id k ≡ false
    → last_blob t (blob ∷ descriptors) k ≡ last_blob t descriptors k
last_blob_skip t blob descriptors k other = elim (Bool-cases (same_type blob.blob_type t)) [
  | inl q ↦ rw (q, other) (or_none (last_blob t descriptors k))
  | inr q ↦ rw q (or_none (last_blob t descriptors k))
]
  where
    or_none : (o : Option PackedBlobDescriptor) → or_else o none ≡ o
    or_none none = refl
    or_none (some d) = refl

-- A data or tree blob of the pack is listed.
pub listed-packed :
    (descriptors : List PackedBlobDescriptor) (k : ContentId)
    → packed descriptors k ≡ true
    → listed descriptors k ≡ true
listed-packed [] k h = absurd (true-ne-false (sym h))
listed-packed (blob ∷ descriptors) k h = elim (Bool-cases (list_eq.beq blob.id k)) [
  | inl same ↦ rw same refl
  | inr other ↦ rw other (
      listed-packed descriptors k (
        ap₂ (λ a b. if is_some a then true else is_some b)
          (sym (last_blob_skip data_blob blob descriptors k other))
          (sym (last_blob_skip tree_blob blob descriptors k other))
        ∙ h))
]

pub among-Memᴰ : (ids : List ContentId) (k : ContentId) → among ids k ≡ true → Memᴰ k ids
among-Memᴰ [] k h = absurd (true-ne-false (sym h))
among-Memᴰ (x ∷ xs) k h = elim (beq-cases x k) [
  | inl (same, q) ↦ Memᴰ.head (sym same)
  | inr (other, q) ↦
      Memᴰ.tail (among-Memᴰ xs k (subst (λ t. (if t then true else among xs k) ≡ true) q h))
]

module _ {F : Type 0} ⦃filter : DedupFilter F⦄ where
  add_to_pending-IsReady :
      (pack_id : ContentId) (descriptors : List PackedBlobDescriptor) (indices : List (Index F))
      → All IsReady indices
      → All HasRoom indices
      → All IsReady (add_to_pending pack_id descriptors indices)
  add_to_pending-IsReady pack_id descriptors [] ready room = tt
  add_to_pending-IsReady pack_id descriptors (idx ∷ indices) ready room =
      elim (Bool-cases (is_pending idx)) [
        | inl here ↦ rw here (
          (
            add_pack-IsValid idx pack_id descriptors (ready.0.1 here) ready.0.0 room.0,
            λ q. add_pack-AllMutable idx pack_id descriptors (ready.0.1 here),
          ),
          ready.1,
        )
        | inr later ↦
            rw later (ready.0, add_to_pending-IsReady pack_id descriptors indices ready.1 room.1)
      ]

  add_ids-FilterKnows :
      (bf : Option F) (ids : List ContentId) (indices indices' : List (Index F))
      → FilterKnows bf indices
      → ((k : ContentId)
          → any_contains indices' k ≡ true
          → (among ids k ≡ true) ⊎ (any_contains indices k ≡ true))
      → FilterKnows (add_ids bf ids) indices'
  add_ids-FilterKnows none ids indices indices' knows h = tt
  add_ids-FilterKnows (some bf) ids indices indices' knows h = (
    add_all-Formed bf ids knows.0,
    λ k there. elim (h k there) [
      | inl new ↦ test-add_all bf ids knows.0 (among-Memᴰ ids k new)
      | inr old ↦ add_all_keeps bf ids k (knows.1 k old)
    ],
  )

  module _ (next_instance_id : ℕ) (master : MasterIndex F) (pack_id : ContentId)
      (descriptors : List PackedBlobDescriptor) (known : IsKnowing master)
      (room : All HasRoom master.indices) where
    opened : List (Index F)
    opened = with_pending next_instance_id master.indices

    opened-IsReady : All IsReady opened
    unfolding opened
    opened-IsReady =
        with_pending-All IsReady next_instance_id master.indices (new-IsReady F next_instance_id)
          known.ready

    opened-room : All HasRoom opened
    unfolding opened
    opened-room =
        with_pending-All HasRoom next_instance_id master.indices
          (let low : 0 < 2 ^ 32 = omega arith in low) room

    opened_pending : any_pending opened ≡ true
    unfolding opened
    opened_pending = any_pending-with_pending next_instance_id master.indices

    opened_contains : (k : ContentId) → any_contains opened k ≡ any_contains master.indices k
    unfolding opened
    opened_contains k = any_contains-with_pending next_instance_id master.indices k

    entered :
        (k : ContentId)
        → any_contains (add_to_pending pack_id descriptors opened) k
          ≡ (if packed descriptors k then true else any_contains master.indices k)
    entered k =
        any_contains-add_to_pending pack_id descriptors opened k opened_pending opened-IsReady
          opened-room
        ∙ ap (λ t. if packed descriptors k then true else t) (opened_contains k)

    entered_known :
        (k : ContentId)
        → any_contains (add_to_pending pack_id descriptors opened) k ≡ true
        → (listed descriptors k ≡ true) ⊎ (any_contains master.indices k ≡ true)
    entered_known k there = elim (Bool-cases (packed descriptors k)) [
      | inl q ↦ inl (listed-packed descriptors k q)
      | inr q ↦ inr (
          ap (λ t. if t then true else any_contains master.indices k) (sym q)
          ∙ sym (entered k)
          ∙ there)
    ]

    -- The indices, the filter and the waiting blobs stay consistent when a pack is entered, whatever
    -- descriptors it has, padding included, provided that every index has fewer than 2 ^ 32 packs.
    pub enter_pack-IsKnowing : IsKnowing (enter_pack next_instance_id master pack_id descriptors)
    unfolding enter_pack opened
    enter_pack-IsKnowing = record {
      ready = add_to_pending-IsReady pack_id descriptors opened opened-IsReady opened-room;
      knows =
          add_ids-FilterKnows master.bloom_filter (map descriptor_id descriptors) master.indices
            (add_to_pending pack_id descriptors opened) known.knows entered_known;
      shards = remove_pending-HasShards master.pending_blobs descriptors known.shards;
    }

    parts :
        (k : ContentId)
        → HasByteIds descriptors
        → (if ShardedIdSet.contains
              (enter_pack next_instance_id master pack_id descriptors).pending_blobs
              k
            then true
            else any_contains (enter_pack next_instance_id master pack_id descriptors).indices k)
          ≡ (if packed descriptors k
              then true
              else if listed descriptors k
              then any_contains master.indices k
              else if ShardedIdSet.contains master.pending_blobs k
              then true
              else any_contains master.indices k)
    unfolding enter_pack opened
    parts k bytes =
        ap₂ (λ p q. if p then true else q)
          (contains-remove_pending master.pending_blobs descriptors k bytes known.shards)
          (entered k)
        ∙ swap (packed descriptors k) (listed descriptors k)
            (ShardedIdSet.contains master.pending_blobs k)
      where
        swap :
            (p l s : Bool)
            → (if (if l then false else s)
                then true
                else (if p then true else any_contains master.indices k))
              ≡ (if p
                  then true
                  else if l
                  then any_contains master.indices k
                  else if s
                  then true
                  else any_contains master.indices k)
        swap true true s = refl
        swap true false true = refl
        swap true false false = refl
        swap false true s = refl
        swap false false s = refl

    -- The data and tree blobs of the pack are known from then on; an ID that only its padding has does not
    -- wait any more; every other blob is as it was.
    pub contains-enter_pack :
        (k : ContentId)
        → HasByteIds descriptors
        → contains (enter_pack next_instance_id master pack_id descriptors) k ≡ (
            if packed descriptors k
            then true
            else if listed descriptors k
            then any_contains master.indices k
            else contains master k)
    contains-enter_pack k bytes =
        contains-IsKnowing (enter_pack next_instance_id master pack_id descriptors) k
          enter_pack-IsKnowing
        ∙ parts k bytes
        ∙ ap
            (λ t.
              if packed descriptors k
              then true
              else if listed descriptors k
              then any_contains master.indices k
              else t)
            (sym (contains-IsKnowing master k known))
