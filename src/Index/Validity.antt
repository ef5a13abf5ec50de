-- ===== src/Index/Validity.antt =====
-- The validity of an index, and that `add_pack` keeps it (crates/mapache/src/repository/index.rs).
use mapache.Prelude.{
  ℕ, zero, suc, ◌%◌, ◌^◌, ◌<◌, ◌≡◌, ◌≢◌, refl, sym, ap, subst, ◌∙◌, List, [], ◌∷◌, Option, none,
  some, length, and_then, or_else, get_elem?, list_eq, nat_eq, get_elem?-lt, none-ne-some,
  some-injective, arith,
}
use mapache.Prelude.Order.{list_order, nat_order}
use mapache.Common.{ContentId, BlobType, data_blob, tree_blob, padding}
use mapache.Collections.IndexSet as IndexSet
use mapache.Collections.IndexSet.Insert.{IsIndexed, insert-Inserts}
use mapache.Collections.DedupFilter.{DedupFilter}
use mapache.Packer.{PackedBlobDescriptor}
use mapache.Index.BlobMap as BlobMap
use mapache.Index.BlobMap.{BlobLocationInternal, Entry, BlobMap, mutable, immutable}
use mapache.Index.BlobMap.Lookup.{put-IsMap, IsWellFormed}
use mapache.Index.State.{
  BlobLocator, Index, with_packs, resolve_location, get_data, get_tree, location, add_blob,
  add_blobs, add_pack,
}
use mapache.Index.AddPack.{
  last_blob, located, map_of, AllMutable, add_blobs-AllMutable, get-add_blobs, pack_ids-add_blobs,
  insert-le,
}

-- The locator of a blob of a pack.
abbrev pub locator : ContentId → BlobType → PackedBlobDescriptor → BlobLocator
locator pack_id t blob = record {
  pack_id = pack_id;
  offset = blob.offset;
  length = blob.length;
  raw_length = blob.raw_length;
  blob_type = t;
}

-- What a pack's descriptors say of an ID.
abbrev pub new_locator :
    ContentId → BlobType → List PackedBlobDescriptor → ContentId → Option BlobLocator
new_locator pack_id t descriptors k =
    and_then (last_blob t descriptors k) λ blob. some (locator pack_id t blob)

abbrev resolve_in : List ContentId → BlobType → BlobLocationInternal → Option BlobLocator
resolve_in values t loc = and_then (get_elem? values loc.pack_array_index) λ pack_id. some (record {
  pack_id = pack_id;
  offset = loc.offset;
  length = loc.length;
  raw_length = loc.raw_length;
  blob_type = t;
})

pub get-new :
    (F : Type 0) ⦃filter : DedupFilter F⦄ (k : ContentId)
    → BlobMap.get {F = F} BlobMap.new_mutable k ≡ none
unfolding BlobMap.get
get-new F k = refl

-- A new blob has the new pack; an old one has its pack still.
combine :
    (t : BlobType) (values values' : List ContentId) (pack_id : ContentId) (i : ℕ)
    (found old : Option BlobLocationInternal) (new_blob : Option PackedBlobDescriptor)
    → found ≡ or_else (and_then new_blob (located i)) old
    → get_elem? values' i ≡ some pack_id
    → ((loc : BlobLocationInternal)
        → old ≡ some loc
        → get_elem? values' loc.pack_array_index ≡ get_elem? values loc.pack_array_index)
    → and_then found (resolve_in values' t)
      ≡ or_else
          (and_then new_blob (λ blob. some (locator pack_id t blob)))
          (and_then old (resolve_in values t))
combine t values values' pack_id i found old (some blob) q at kept = rw (q, at) refl
combine t values values' pack_id i found none none q at kept = rw q refl
combine t values values' pack_id i found (some loc) none q at kept =
    ap (λ o. and_then o (resolve_in values' t)) q
    ∙ ap
        (λ (o : Option ContentId). and_then o λ pack_id. some (record {
          pack_id = pack_id;
          offset = loc.offset;
          length = loc.length;
          raw_length = loc.raw_length;
          blob_type = t;
        }))
        (kept loc refl)

pub get_elem?-of_lt :
    (xs : List ContentId) (i : ℕ) → i < length xs → (x : ContentId) × (get_elem? xs i ≡ some x)
get_elem?-of_lt [] i h = absurd (omega arith)
get_elem?-of_lt (x ∷ xs) zero h = (x, refl)
get_elem?-of_lt (x ∷ xs) (suc i) h = get_elem?-of_lt xs i (omega arith)

pub data-ne-padding : data_blob ≢ padding
data-ne-padding q = cc

pub tree-ne-padding : tree_blob ≢ padding
tree-ne-padding q = cc

module _ {F : Type 0} ⦃filter : DedupFilter F⦄ where
  -- The maps and the packs are well-formed, and every location's pack is known.
  pub record IsValid (idx : Index F) : Type 0 where
    pub formed : (t : BlobType) → IsWellFormed (map_of t idx)
    pub indexed : IsIndexed idx.pack_ids
    pub packs :
        (t : BlobType) (k : ContentId) (loc : BlobLocationInternal)
        → BlobMap.get (map_of t idx) k ≡ some loc
        → loc.pack_array_index < length idx.pack_ids.values

  insert-IsWellFormed :
      (blob_map : BlobMap F) (k : ContentId) (loc : BlobLocationInternal)
      → IsWellFormed blob_map
      → IsWellFormed (BlobMap.insert blob_map k loc)
  unfolding BlobMap.insert
  insert-IsWellFormed (mutable entries) k loc h = put-IsMap entries k loc h
  insert-IsWellFormed (immutable entries bf) k loc h = h

  add_blobs-formed :
      (pack_index : ℕ) (idx : Index F) (descriptors : List PackedBlobDescriptor)
      → ((t : BlobType) → IsWellFormed (map_of t idx))
      → (t : BlobType) → IsWellFormed (map_of t (add_blobs pack_index idx descriptors))
  unfolding add_blobs
  add_blobs-formed pack_index idx [] h = h
  add_blobs-formed pack_index idx (blob ∷ descriptors) h =
      add_blobs-formed pack_index (add_blob pack_index idx blob blob.blob_type) descriptors
        (of_type blob.blob_type)
    where
      of_type : (u t : BlobType) → IsWellFormed (map_of t (add_blob pack_index idx blob u))
      of_type data_blob data_blob =
          insert-IsWellFormed idx.data_ids blob.id (location pack_index blob) (h data_blob)
      of_type data_blob tree_blob = h tree_blob
      of_type data_blob padding = h padding
      of_type tree_blob tree_blob =
          insert-IsWellFormed idx.tree_ids blob.id (location pack_index blob) (h tree_blob)
      of_type tree_blob data_blob = h data_blob
      of_type tree_blob padding = h padding
      of_type padding t = h t

  pub add_pack-AllMutable :
      (idx : Index F) (pack_id : ContentId) (descriptors : List PackedBlobDescriptor)
      → AllMutable idx
      → AllMutable (add_pack idx pack_id descriptors)
  unfolding add_pack
  add_pack-AllMutable idx pack_id descriptors h =
      add_blobs-AllMutable ((IndexSet.insert idx.pack_ids pack_id).0 % 2 ^ 32)
        (with_packs idx (IndexSet.insert idx.pack_ids pack_id).1) descriptors h

  pub pack_ids-add_pack :
      (idx : Index F) (pack_id : ContentId) (descriptors : List PackedBlobDescriptor)
      → (add_pack idx pack_id descriptors).pack_ids ≡ (IndexSet.insert idx.pack_ids pack_id).1
  unfolding add_pack
  pack_ids-add_pack idx pack_id descriptors =
      pack_ids-add_blobs ((IndexSet.insert idx.pack_ids pack_id).0 % 2 ^ 32)
        (with_packs idx (IndexSet.insert idx.pack_ids pack_id).1) descriptors

  -- The map of a type, with the pack's index not yet cut to 32 bits.
  pub get-add_pack :
      (idx : Index F) (pack_id : ContentId) (descriptors : List PackedBlobDescriptor) (t : BlobType)
      (k : ContentId)
      → t ≢ padding
      → AllMutable idx
      → IsIndexed idx.pack_ids
      → length idx.pack_ids.values < 2 ^ 32
      → BlobMap.get (map_of t (add_pack idx pack_id descriptors)) k
        ≡ or_else
            (and_then
              (last_blob t descriptors k)
              (located (IndexSet.insert idx.pack_ids pack_id).0))
            (BlobMap.get (map_of t idx) k)
  unfolding add_pack
  get-add_pack idx pack_id descriptors t k typed open_maps indexed room =
      let inserted = IndexSet.insert idx.pack_ids pack_id in
      let small : inserted.0 % 2 ^ 32 ≡ inserted.0 =
        omega (arith, insert-le idx.pack_ids pack_id indexed) in
      get-add_blobs (inserted.0 % 2 ^ 32) (with_packs idx inserted.1) descriptors t k typed
        open_maps
      ∙ ap
          (λ i.
            or_else (and_then (last_blob t descriptors k) (located i))
              (BlobMap.get (map_of t (with_packs idx inserted.1)) k))
          small
      ∙ ap
          (λ m.
            or_else (and_then (last_blob t descriptors k) (located inserted.0)) (BlobMap.get m k))
          (unpacked t)
    where
      unpacked :
          (t : BlobType)
          → map_of t (with_packs idx (IndexSet.insert idx.pack_ids pack_id).1) ≡ map_of t idx
      unpacked data_blob = refl
      unpacked tree_blob = refl
      unpacked padding = refl

  -- The blobs of a type, by locator.
  abbrev pub located_as : BlobType → Index F → ContentId → Option BlobLocator
  located_as t idx k = and_then (BlobMap.get (map_of t idx) k) λ l. resolve_location idx l t

  located_as-add_pack :
      (idx : Index F) (pack_id : ContentId) (descriptors : List PackedBlobDescriptor) (t : BlobType)
      (k : ContentId)
      → t ≢ padding
      → AllMutable idx
      → IsValid idx
      → length idx.pack_ids.values < 2 ^ 32
      → located_as t (add_pack idx pack_id descriptors) k
        ≡ or_else (new_locator pack_id t descriptors k) (located_as t idx k)
  located_as-add_pack idx pack_id descriptors t k typed open_maps valid room =
      let inserted = IndexSet.insert idx.pack_ids pack_id in
      let promise = insert-Inserts idx.pack_ids pack_id valid.indexed in
      ap
        (λ (packs : IndexSet.IndexSet ContentId).
          and_then (BlobMap.get (map_of t (add_pack idx pack_id descriptors)) k)
            (resolve_in packs.values t))
        (pack_ids-add_pack idx pack_id descriptors)
      ∙ combine t idx.pack_ids.values inserted.1.values pack_id inserted.0
          (BlobMap.get (map_of t (add_pack idx pack_id descriptors)) k)
          (BlobMap.get (map_of t idx) k) (last_blob t descriptors k)
          (get-add_pack idx pack_id descriptors t k typed open_maps valid.indexed room) promise.1
          λ loc q.
            let (p, at) =
              get_elem?-of_lt idx.pack_ids.values loc.pack_array_index (valid.packs t k loc q) in
            promise.2 p loc.pack_array_index at ∙ sym at

  -- In a well-formed index under construction with fewer than 2 ^ 32 packs: after `add_pack` a data
  -- or a tree blob is found where the pack has it, the last of its descriptors counting, and every
  -- other blob where it was found before.
  pub add_pack-locates :
      (idx : Index F) (pack_id : ContentId) (descriptors : List PackedBlobDescriptor)
      (k : ContentId)
      → AllMutable idx
      → IsValid idx
      → length idx.pack_ids.values < 2 ^ 32
      → (get_data (add_pack idx pack_id descriptors) k
          ≡ or_else (new_locator pack_id data_blob descriptors k) (get_data idx k))
        × (get_tree (add_pack idx pack_id descriptors) k
            ≡ or_else (new_locator pack_id tree_blob descriptors k) (get_tree idx k))
  add_pack-locates idx pack_id descriptors k open_maps valid room = (
    located_as-add_pack idx pack_id descriptors data_blob k data-ne-padding open_maps valid room,
    located_as-add_pack idx pack_id descriptors tree_blob k tree-ne-padding open_maps valid room,
  )

  add_pack-formed :
      (idx : Index F) (pack_id : ContentId) (descriptors : List PackedBlobDescriptor)
      → ((t : BlobType) → IsWellFormed (map_of t idx))
      → (t : BlobType) → IsWellFormed (map_of t (add_pack idx pack_id descriptors))
  unfolding add_pack
  add_pack-formed idx pack_id descriptors h =
      add_blobs-formed ((IndexSet.insert idx.pack_ids pack_id).0 % 2 ^ 32)
        (with_packs idx (IndexSet.insert idx.pack_ids pack_id).1) descriptors (unpacked h)
    where
      unpacked :
          ((t : BlobType) → IsWellFormed (map_of t idx))
          → (t : BlobType)
          → IsWellFormed (map_of t (with_packs idx (IndexSet.insert idx.pack_ids pack_id).1))
      unpacked h data_blob = h data_blob
      unpacked h tree_blob = h tree_blob
      unpacked h padding = h padding

  known_typed :
      (t : BlobType) (idx : Index F) (pack_id : ContentId) (descriptors : List PackedBlobDescriptor)
      → t ≢ padding
      → AllMutable idx
      → IsValid idx
      → length idx.pack_ids.values < 2 ^ 32
      → (k : ContentId) (loc : BlobLocationInternal)
      → BlobMap.get (map_of t (add_pack idx pack_id descriptors)) k ≡ some loc
      → loc.pack_array_index < length (IndexSet.insert idx.pack_ids pack_id).1.values
  known_typed t idx pack_id descriptors typed open_maps valid room k loc q =
      let inserted = IndexSet.insert idx.pack_ids pack_id in
      let promise = insert-Inserts idx.pack_ids pack_id valid.indexed in
      by_last (last_blob t descriptors k) (BlobMap.get (map_of t idx) k) refl
        (sym (get-add_pack idx pack_id descriptors t k typed open_maps valid.indexed room) ∙ q)
    where
      by_last :
          (later : Option PackedBlobDescriptor) (old : Option BlobLocationInternal)
          → BlobMap.get (map_of t idx) k ≡ old
          → or_else (and_then later (located (IndexSet.insert idx.pack_ids pack_id).0)) old
            ≡ some loc
          → loc.pack_array_index < length (IndexSet.insert idx.pack_ids pack_id).1.values
      by_last (some blob) old found r =
          let promise = insert-Inserts idx.pack_ids pack_id valid.indexed in
          let same : (IndexSet.insert idx.pack_ids pack_id).0 ≡ loc.pack_array_index =
            ap (λ (l : BlobLocationInternal). l.pack_array_index) (some-injective r) in
          let low = get_elem?-lt (IndexSet.insert idx.pack_ids pack_id).1.values _ promise.1 in
          omega (arith, same, low)
      by_last none none found r = absurd (none-ne-some r)
      by_last none (some l) found r =
          let promise = insert-Inserts idx.pack_ids pack_id valid.indexed in
          let same : l ≡ loc = some-injective r in
          let (p, at) =
            get_elem?-of_lt idx.pack_ids.values l.pack_array_index (valid.packs t k l found) in
          let low =
            get_elem?-lt (IndexSet.insert idx.pack_ids pack_id).1.values l.pack_array_index
              (promise.2 p l.pack_array_index at) in
          subst
            (λ (l : BlobLocationInternal).
              l.pack_array_index < length (IndexSet.insert idx.pack_ids pack_id).1.values)
            same low

  known :
      (t : BlobType) (idx : Index F) (pack_id : ContentId) (descriptors : List PackedBlobDescriptor)
      → AllMutable idx
      → IsValid idx
      → length idx.pack_ids.values < 2 ^ 32
      → (k : ContentId) (loc : BlobLocationInternal)
      → BlobMap.get (map_of t (add_pack idx pack_id descriptors)) k ≡ some loc
      → loc.pack_array_index < length (IndexSet.insert idx.pack_ids pack_id).1.values
  known padding idx pack_id descriptors open_maps valid room k loc q =
      absurd (none-ne-some (sym (get-new F k) ∙ q))
  known data_blob idx pack_id descriptors open_maps valid room k loc q =
      known_typed data_blob idx pack_id descriptors data-ne-padding open_maps valid room k loc q
  known tree_blob idx pack_id descriptors open_maps valid room k loc q =
      known_typed tree_blob idx pack_id descriptors tree-ne-padding open_maps valid room k loc q

  -- The index stays valid.
  pub add_pack-IsValid :
      (idx : Index F) (pack_id : ContentId) (descriptors : List PackedBlobDescriptor)
      → AllMutable idx
      → IsValid idx
      → length idx.pack_ids.values < 2 ^ 32
      → IsValid (add_pack idx pack_id descriptors)
  add_pack-IsValid idx pack_id descriptors open_maps valid room =
      let inserted = IndexSet.insert idx.pack_ids pack_id in
      let promise = insert-Inserts idx.pack_ids pack_id valid.indexed in
      record {
        formed = add_pack-formed idx pack_id descriptors valid.formed;
        indexed = subst IsIndexed (sym (pack_ids-add_pack idx pack_id descriptors)) promise.0;
        packs = λ t k loc q.
            subst
              (λ (packs : IndexSet.IndexSet ContentId). loc.pack_array_index < length packs.values)
              (sym (pack_ids-add_pack idx pack_id descriptors))
              (known t idx pack_id descriptors open_maps valid room k loc q);
      }
