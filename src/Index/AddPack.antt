-- ===== src/Index/AddPack.antt =====
-- What an index knows after `add_pack` (crates/mapache/src/repository/index.rs).
use mapache.Prelude.{
  ℕ, ◌≤◌, ◌≡◌, ◌≢◌, refl, ap, ◌∙◌, inl, inr, Bool, true, false, List, [], ◌∷◌, Option, none, some,
  if◌then◌else◌, length, and_then, or_else, list_eq, nat_eq, Bool-cases, get_elem?-lt, arith,
}
use mapache.Prelude.Order.{list_order, nat_order}
use mapache.Common.{ContentId, BlobType, data_blob, tree_blob, padding}
use mapache.Collections.Maps as Maps
use mapache.Collections.IndexSet as IndexSet
use mapache.Collections.IndexSet.Insert.{IsIndexed}
use mapache.Collections.DedupFilter.{DedupFilter}
use mapache.Packer.{PackedBlobDescriptor}
use mapache.Index.BlobMap as BlobMap
use mapache.Index.BlobMap.{BlobLocationInternal, Entry, BlobMap, mutable, immutable}
use mapache.Index.State.{Index, location, add_blob, add_blobs}

abbrev pub same_type : BlobType → BlobType → Bool
same_type data_blob data_blob = true
same_type tree_blob tree_blob = true
same_type padding padding = true
same_type t u = false

-- The last of the descriptors with the type and the ID: the one that an index keeps.
abbrev pub last_blob :
    BlobType → List PackedBlobDescriptor → ContentId → Option PackedBlobDescriptor
last_blob t [] k = none
last_blob t (blob ∷ descriptors) k =
    or_else (last_blob t descriptors k) (
      if same_type blob.blob_type t
      then if list_eq.beq blob.id k then some blob else none
      else none)

abbrev pub located : ℕ → PackedBlobDescriptor → Option BlobLocationInternal
located pack_index blob = some (location pack_index blob)

module _ {F : Type 0} where
  abbrev pub IsMutable : BlobMap F → Type 0
  IsMutable (mutable entries) = Unit
  IsMutable (immutable entries bf) = ⊥

module _ {F : Type 0} ⦃filter : DedupFilter F⦄ where
  -- The map of a type; padding has none.
  abbrev pub map_of : BlobType → Index F → BlobMap F
  map_of data_blob idx = idx.data_ids
  map_of tree_blob idx = idx.tree_ids
  map_of padding idx = BlobMap.new_mutable

  abbrev pub AllMutable : Index F → Type 0
  AllMutable idx = IsMutable idx.data_ids × IsMutable idx.tree_ids

  pub get-insert :
      (blob_map : BlobMap F) (k j : ContentId) (loc : BlobLocationInternal)
      → IsMutable blob_map
      → BlobMap.get (BlobMap.insert blob_map k loc) j
        ≡ (if list_eq.beq k j then some loc else BlobMap.get blob_map j)
  unfolding BlobMap.get BlobMap.insert
  get-insert (mutable entries) k j loc h = Maps.get-put entries k j loc
  get-insert (immutable entries bf) k j loc h = absurd h

  insert-IsMutable :
      (blob_map : BlobMap F) (k : ContentId) (loc : BlobLocationInternal)
      → IsMutable blob_map
      → IsMutable (BlobMap.insert blob_map k loc)
  unfolding BlobMap.insert
  insert-IsMutable (mutable entries) k loc h = tt
  insert-IsMutable (immutable entries bf) k loc h = absurd h

  add_blob-AllMutable :
      (pack_index : ℕ) (idx : Index F) (blob : PackedBlobDescriptor) (t : BlobType)
      → AllMutable idx
      → AllMutable (add_blob pack_index idx blob t)
  add_blob-AllMutable pack_index idx blob data_blob h =
      (insert-IsMutable idx.data_ids blob.id (location pack_index blob) h.0, h.1)
  add_blob-AllMutable pack_index idx blob tree_blob h =
      (h.0, insert-IsMutable idx.tree_ids blob.id (location pack_index blob) h.1)
  add_blob-AllMutable pack_index idx blob padding h = h

  pub add_blobs-AllMutable :
      (pack_index : ℕ) (idx : Index F) (descriptors : List PackedBlobDescriptor)
      → AllMutable idx
      → AllMutable (add_blobs pack_index idx descriptors)
  unfolding add_blobs
  add_blobs-AllMutable pack_index idx [] h = h
  add_blobs-AllMutable pack_index idx (blob ∷ descriptors) h =
      add_blobs-AllMutable pack_index (add_blob pack_index idx blob blob.blob_type) descriptors
        (add_blob-AllMutable pack_index idx blob blob.blob_type h)

  map_of-IsMutable : (t : BlobType) (idx : Index F) → AllMutable idx → IsMutable (map_of t idx)
  map_of-IsMutable data_blob idx h = h.0
  map_of-IsMutable tree_blob idx h = h.1
  map_of-IsMutable padding idx h = tt

  map_of-add_blob :
      (pack_index : ℕ) (idx : Index F) (blob : PackedBlobDescriptor) (t u : BlobType)
      → t ≢ padding
      → map_of t (add_blob pack_index idx blob u) ≡ (
          if same_type u t
          then BlobMap.insert (map_of t idx) blob.id (location pack_index blob)
          else map_of t idx)
  map_of-add_blob pack_index idx blob padding u h = absurd (h refl)
  map_of-add_blob pack_index idx blob data_blob data_blob h = refl
  map_of-add_blob pack_index idx blob data_blob tree_blob h = refl
  map_of-add_blob pack_index idx blob data_blob padding h = refl
  map_of-add_blob pack_index idx blob tree_blob data_blob h = refl
  map_of-add_blob pack_index idx blob tree_blob tree_blob h = refl
  map_of-add_blob pack_index idx blob tree_blob padding h = refl

  get-add_blob :
      (pack_index : ℕ) (idx : Index F) (blob : PackedBlobDescriptor) (t : BlobType) (k : ContentId)
      → t ≢ padding
      → AllMutable idx
      → BlobMap.get (map_of t (add_blob pack_index idx blob blob.blob_type)) k
        ≡ or_else
            (and_then
              (if same_type blob.blob_type t
                then if list_eq.beq blob.id k then some blob else none
                else none)
              (located pack_index))
            (BlobMap.get (map_of t idx) k)
  get-add_blob pack_index idx blob t k h open_maps =
      let here =
        ap (λ m. BlobMap.get m k) (map_of-add_blob pack_index idx blob t blob.blob_type h) in
      elim (Bool-cases (same_type blob.blob_type t)) [
        | inr other ↦ here ∙ rw other refl
        | inl same ↦
            let entered =
              get-insert (map_of t idx) blob.id k (location pack_index blob)
                (map_of-IsMutable t idx open_maps) in
            elim (Bool-cases (list_eq.beq blob.id k)) [
              | inl hit ↦ here ∙ rw (same, hit) (entered ∙ rw hit refl)
              | inr miss ↦ here ∙ rw (same, miss) (entered ∙ rw miss refl)
            ]
      ]

  pub get-add_blobs :
      (pack_index : ℕ) (idx : Index F) (descriptors : List PackedBlobDescriptor) (t : BlobType)
      (k : ContentId)
      → t ≢ padding
      → AllMutable idx
      → BlobMap.get (map_of t (add_blobs pack_index idx descriptors)) k
        ≡ or_else
            (and_then (last_blob t descriptors k) (located pack_index))
            (BlobMap.get (map_of t idx) k)
  unfolding add_blobs
  get-add_blobs pack_index idx [] t k h open_maps = refl
  get-add_blobs pack_index idx (blob ∷ descriptors) t k h open_maps =
      let rest =
        get-add_blobs pack_index (add_blob pack_index idx blob blob.blob_type) descriptors t k h
          (add_blob-AllMutable pack_index idx blob blob.blob_type open_maps) in
      let here = get-add_blob pack_index idx blob t k h open_maps in
      rest
      ∙ by_last (last_blob t descriptors k)
          (if same_type blob.blob_type t
            then if list_eq.beq blob.id k then some blob else none
            else none)
          (BlobMap.get (map_of t idx) k) here
    where
      by_last :
          (later earlier : Option PackedBlobDescriptor) (old : Option BlobLocationInternal)
          → {found : Option BlobLocationInternal}
          → found ≡ or_else (and_then earlier (located pack_index)) old
          → or_else (and_then later (located pack_index)) found
            ≡ or_else (and_then (or_else later earlier) (located pack_index)) old
      by_last none earlier old q = q
      by_last (some d) earlier old q = refl

  pub pack_ids-add_blobs :
      (pack_index : ℕ) (idx : Index F) (descriptors : List PackedBlobDescriptor)
      → (add_blobs pack_index idx descriptors).pack_ids ≡ idx.pack_ids
  unfolding add_blobs
  pack_ids-add_blobs pack_index idx [] = refl
  pack_ids-add_blobs pack_index idx (blob ∷ descriptors) =
      pack_ids-add_blobs pack_index (add_blob pack_index idx blob blob.blob_type) descriptors
      ∙ of_type blob.blob_type
    where
      of_type : (t : BlobType) → (add_blob pack_index idx blob t).pack_ids ≡ idx.pack_ids
      of_type data_blob = refl
      of_type tree_blob = refl
      of_type padding = refl

-- An insertion gives an index that is in use, or the next one.
pub insert-le :
    (s : IndexSet.IndexSet ContentId) (item : ContentId)
    → IsIndexed s
    → (IndexSet.insert s item).0 ≤ length s.values
unfolding IndexSet.insert
insert-le s item h = by_index (Maps.get s.map item) refl
  where
    by_index :
        (found : Option ℕ)
        → Maps.get s.map item ≡ found
        → (IndexSet.insert s item).0 ≤ length s.values
    by_index none q = rw (q, IndexSet.insert) (omega arith)
    by_index (some i) q =
        rw (q, IndexSet.insert) (omega (arith, get_elem?-lt s.values i ((h item i).0 q)))
