-- ===== src/Index/Master/Known.antt =====
-- Which blobs a `MasterIndex` knows (crates/mapache/src/repository/index.rs).
use mapache.Prelude.{
  ◌^◌, ◌<◌, ◌≡◌, refl, sym, ap, ◌∙◌, inl, inr, Bool, true, false, not, List, [], ◌∷◌, ◌++◌, reverse,
  reverse_aux, Option, none, some, if◌then◌else◌, is_some, length, All, list_eq, nat_eq, Bool-cases,
  true-ne-false,
}
use mapache.Prelude.Order.{list_order, nat_order}
use mapache.Common.{ContentId, data_blob, tree_blob}
use mapache.Collections.DedupFilter.{DedupFilter}
use mapache.Collections.ShardedIdSet as ShardedIdSet
use mapache.Collections.ShardedIdSet.{HasShards, shard_of, contains-remove, remove-HasShards}
use mapache.Packer.{PackedBlobDescriptor}
use mapache.Index.State as Index
use mapache.Index.State.{Index, is_pending}
use mapache.Index.AddPack.{AllMutable, last_blob}
use mapache.Index.Validity.{IsValid}
use mapache.Index.Master.{MasterIndex, any_contains, may_contain, contains}

-- Whether a pack has a data or a tree blob of the ID.
abbrev pub packed : List PackedBlobDescriptor → ContentId → Bool
packed descriptors k =
    if is_some (last_blob data_blob descriptors k)
    then true
    else is_some (last_blob tree_blob descriptors k)

-- Another pack fits the 32 bits of an index.
abbrev pub HasRoom : {F : Type 0} → Index F → Type 0
HasRoom idx = length idx.pack_ids.values < 2 ^ 32

module _ {F : Type 0} ⦃filter : DedupFilter F⦄ where
  -- The filter of a master index, where there is one, knows every ID of the indices.
  abbrev pub FilterKnows : Option F → List (Index F) → Type 0
  FilterKnows none indices = Unit
  FilterKnows (some bf) indices =
      filter.Formed bf × ((k : ContentId) → any_contains indices k ≡ true → filter.test bf k ≡ true)

  abbrev pub IsReady : Index F → Type 0
  IsReady idx = IsValid idx × (is_pending idx ≡ true → AllMutable idx)

  pub record IsKnowing (master : MasterIndex F) : Type 0 where
    pub ready : All IsReady master.indices
    pub knows : FilterKnows master.bloom_filter master.indices
    pub shards : HasShards master.pending_blobs

  pub any_contains-append :
      (xs ys : List (Index F)) (k : ContentId)
      → any_contains (xs ++ ys) k ≡ (if any_contains xs k then true else any_contains ys k)
  any_contains-append [] ys k = refl
  any_contains-append (x ∷ xs) ys k = elim (Bool-cases (Index.contains x k)) [
    | inl q ↦ rw q
    | inr q ↦ rw q (any_contains-append xs ys k)
  ]

  -- The order of the search does not count.
  pub any_contains-reverse :
      (xs acc : List (Index F)) (k : ContentId)
      → any_contains (reverse_aux xs acc) k
        ≡ (if any_contains xs k then true else any_contains acc k)
  any_contains-reverse [] acc k = refl
  any_contains-reverse (x ∷ xs) acc k =
      any_contains-reverse xs (x ∷ acc) k ∙ swap (Index.contains x k) (any_contains xs k)
    where
      swap :
          (p q : Bool)
          → (if q then true else (if p then true else any_contains acc k))
            ≡ (if (if p then true else q) then true else any_contains acc k)
      swap true true = refl
      swap true false = refl
      swap false q = refl

  -- The filter hides nothing: a blob is known when it waits for its pack or stands in some index.
  pub contains-IsKnowing :
      (master : MasterIndex F) (k : ContentId)
      → IsKnowing master
      → contains master k ≡ (
          if ShardedIdSet.contains master.pending_blobs k
          then true
          else any_contains master.indices k)
  unfolding contains
  contains-IsKnowing master k h =
      ap (λ t. if ShardedIdSet.contains master.pending_blobs k then true else t)
        (by_filter master.bloom_filter h.knows)
    where
      found : any_contains (reverse master.indices) k ≡ any_contains master.indices k
      found = any_contains-reverse master.indices [] k ∙ or_false (any_contains master.indices k)
        where
          or_false : (p : Bool) → (if p then true else false) ≡ p
          or_false true = refl
          or_false false = refl

      by_filter :
          (bf : Option F)
          → FilterKnows bf master.indices
          → (if not (may_contain bf k) then false else any_contains (reverse master.indices) k)
            ≡ any_contains master.indices k
      by_filter none knows = found
      by_filter (some bf) knows = elim (Bool-cases (filter.test bf k)) [
        | inl hit ↦ rw hit found
        | inr miss ↦ elim (Bool-cases (any_contains master.indices k)) [
          | inl there ↦ absurd (true-ne-false (sym (knows.1 k there) ∙ miss))
          | inr absent ↦ rw (miss, absent)
        ]
      ]
