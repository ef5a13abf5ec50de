-- ===== src/Index/Master/Enter.antt =====
-- What a `MasterIndex` knows after a pack is entered (crates/mapache/src/repository/index.rs).
use mapache.Prelude.{
  ℕ, ◌≡◌, ◌≢◌, refl, sym, ap, ap₂, subst, ◌∙◌, inl, inr, Bool, true, false, List, [], ◌∷◌, Option,
  none, some, if◌then◌else◌, and_then, or_else, is_some, All, list_eq, nat_eq, Bool-cases,
  true-ne-false,
}
use mapache.Prelude.Order.{list_order, nat_order}
use mapache.Common.{ContentId, BlobType, data_blob, tree_blob, padding}
use mapache.Collections.DedupFilter.{DedupFilter}
use mapache.Collections.IndexSet as IndexSet
use mapache.Packer.{PackedBlobDescriptor}
use mapache.Index.BlobMap as BlobMap
use mapache.Index.BlobMap.{BlobLocationInternal}
use mapache.Index.BlobMap.Lookup.{contains-get}
use mapache.Index.State as Index
use mapache.Index.State.{Index, is_pending}
use mapache.Index.AddPack.{AllMutable, map_of, last_blob, located}
use mapache.Index.Validity.{IsValid, get-add_pack, data-ne-padding, tree-ne-padding}
use mapache.Index.Master.{any_pending, any_contains, add_to_pending}
use mapache.Index.Master.Known.{packed, IsReady, HasRoom}

module _ {F : Type 0} ⦃filter : DedupFilter F⦄ where
  map_contains :
      (idx : Index F) (pack_id : ContentId) (descriptors : List PackedBlobDescriptor) (t : BlobType)
      (k : ContentId)
      → t ≢ padding
      → AllMutable idx
      → IsValid idx
      → HasRoom idx
      → BlobMap.contains (map_of t (Index.add_pack idx pack_id descriptors)) k
        ≡ (if is_some (last_blob t descriptors k) then true else BlobMap.contains (map_of t idx) k)
  map_contains idx pack_id descriptors t k typed open_maps valid room =
      contains-get (map_of t (Index.add_pack idx pack_id descriptors)) k
      ∙ ap is_some (get-add_pack idx pack_id descriptors t k typed open_maps valid.indexed room)
      ∙ known (last_blob t descriptors k) (IndexSet.insert idx.pack_ids pack_id).0
      ∙ ap (λ b. if is_some (last_blob t descriptors k) then true else b)
          (sym (contains-get (map_of t idx) k))
    where
      known :
          (blob : Option PackedBlobDescriptor) (i : ℕ)
          → is_some (or_else (and_then blob (located i)) (BlobMap.get (map_of t idx) k))
            ≡ (if is_some blob then true else is_some (BlobMap.get (map_of t idx) k))
      known none i = refl
      known (some blob) i = refl

  pub contains-add_pack :
      (idx : Index F) (pack_id : ContentId) (descriptors : List PackedBlobDescriptor)
      (k : ContentId)
      → AllMutable idx
      → IsValid idx
      → HasRoom idx
      → Index.contains (Index.add_pack idx pack_id descriptors) k
        ≡ (if packed descriptors k then true else Index.contains idx k)
  contains-add_pack idx pack_id descriptors k open_maps valid room =
      ap₂ (λ p q. if p then true else q)
        (map_contains idx pack_id descriptors data_blob k data-ne-padding open_maps valid room)
        (map_contains idx pack_id descriptors tree_blob k tree-ne-padding open_maps valid room)
      ∙ swap (is_some (last_blob data_blob descriptors k))
          (is_some (last_blob tree_blob descriptors k)) (BlobMap.contains idx.data_ids k)
    where
      swap :
          (p q r : Bool)
          → (if (if p then true else r)
              then true
              else (if q then true else BlobMap.contains idx.tree_ids k))
            ≡ (if (if p then true else q)
                then true
                else (if r then true else BlobMap.contains idx.tree_ids k))
      swap true q r = refl
      swap false true true = refl
      swap false true false = refl
      swap false false r = refl

  pub any_contains-add_to_pending :
      (pack_id : ContentId) (descriptors : List PackedBlobDescriptor) (indices : List (Index F))
      (k : ContentId)
      → any_pending indices ≡ true
      → All IsReady indices
      → All HasRoom indices
      → any_contains (add_to_pending pack_id descriptors indices) k
        ≡ (if packed descriptors k then true else any_contains indices k)
  any_contains-add_to_pending pack_id descriptors [] k h ready room = absurd (true-ne-false (sym h))
  any_contains-add_to_pending pack_id descriptors (idx ∷ indices) k h ready room =
      elim (Bool-cases (is_pending idx)) [
        | inl here ↦ rw here (
            ap (λ p. if p then true else any_contains indices k)
              (contains-add_pack idx pack_id descriptors k (ready.0.1 here) ready.0.0 room.0)
            ∙ assoc (packed descriptors k) (Index.contains idx k))
        | inr later ↦
            let h' : any_pending indices ≡ true =
              subst (λ t. (if t then true else any_pending indices) ≡ true) later h in
            rw later (
              ap (λ p. if Index.contains idx k then true else p)
                (any_contains-add_to_pending pack_id descriptors indices k h' ready.1 room.1)
              ∙ swap (Index.contains idx k) (packed descriptors k))
      ]
    where
      assoc :
          (p q : Bool)
          → (if (if p then true else q) then true else any_contains indices k)
            ≡ (if p then true else (if q then true else any_contains indices k))
      assoc true q = refl
      assoc false q = refl

      swap :
          (q p : Bool)
          → (if q then true else (if p then true else any_contains indices k))
            ≡ (if p then true else (if q then true else any_contains indices k))
      swap true true = refl
      swap true false = refl
      swap false p = refl
