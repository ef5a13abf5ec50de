-- ===== src/Index/File/RoundTrip.antt =====
-- An index that is written to its file and read again (crates/mapache/src/repository/index.rs).
use mathlib.Core.List.Memᴰ
use mapache.Prelude.{
  ℕ, zero, suc, ◌^◌, ◌<◌, ◌≤◌, ◌≡◌, ◌≢◌, refl, sym, ap, subst, ◌∙◌, inl, inr, List, [], ◌∷◌, ◌++◌,
  map, Memᴰ, Option, none, some, ok, and_then, length, get_elem?, list_eq, nat_eq, Option-cases,
  none-ne-some, some-injective, arith,
}
use mapache.Prelude.Order.{list_order, nat_order}
use mapache.Prelude.Search.{Memᴰ-get_elem?, position}
use mapache.Common.{ContentId, BlobType, data_blob, tree_blob, padding}
use mapache.Collections.DedupFilter.{DedupFilter}
use mapache.Index.BlobMap as BlobMap
use mapache.Index.BlobMap.{BlobLocationInternal, Entry, BlobMap, mutable, immutable}
use mapache.Index.BlobMap.Lookup.{IsWellFormed, get-Memᴰ}
use mapache.Index.State.{Index, BlobLocator, resolve_location, get_data, get_tree}
use mapache.Index.AddPack.{IsMutable, AllMutable, map_of}
use mapache.Index.Validity.{IsValid, located_as, data-ne-padding, tree-ne-padding}
use mapache.Index.File.{
  IndexFile, IndexFilePack, IndexFileBlob, file_blob, pack_id_of, index_file, from_index_file,
}
use mapache.Index.File.Entries.{file_locator, Written}
use mapache.Index.File.Write.{
  blobs_at, picked, add_to_entries-Extends, length-ids, Memᴰ-picked, picked-Memᴰ, written,
  Memᴰ-written, written-Memᴰ, length-written,
}
use mapache.Index.File.Read.{located_as-Written, Written-located_as}

abbrev empty_pack : ContentId → IndexFilePack
empty_pack pack_id = record { id = pack_id; blobs = [] }

blobs_at-empty : (values : List ContentId) (j : ℕ) → blobs_at (map empty_pack values) j ≡ []
blobs_at-empty [] j = refl
blobs_at-empty (x ∷ xs) zero = refl
blobs_at-empty (x ∷ xs) (suc j) = blobs_at-empty xs j

ids-empty : (values : List ContentId) → map pack_id_of (map empty_pack values) ≡ values
ids-empty [] = refl
ids-empty (x ∷ xs) = ap (◌∷◌ x) (ids-empty xs)

-- The pack at a position, by its ID and its blobs.
at_position :
    (packs : List IndexFilePack) (j : ℕ) {pack : IndexFilePack}
    → get_elem? packs j ≡ some pack
    → (get_elem? (map pack_id_of packs) j ≡ some pack.id) × (pack.blobs ≡ blobs_at packs j)
at_position [] j q = absurd (none-ne-some q)
at_position (p ∷ packs) zero q = (
  ap (λ o. and_then o λ (x : IndexFilePack). some x.id) q,
  ap (λ (x : IndexFilePack). x.blobs) (sym (some-injective q)),
)
at_position (p ∷ packs) (suc j) q = at_position packs j q

pack_at :
    (packs : List IndexFilePack) (j : ℕ)
    → j < length packs
    → (pack : IndexFilePack) × (get_elem? packs j ≡ some pack)
pack_at [] j h = absurd (omega arith)
pack_at (p ∷ packs) zero h = (p, refl)
pack_at (p ∷ packs) (suc j) h = pack_at packs j (omega arith)

same_length :
    (packs : List IndexFilePack) (values : List ContentId)
    → map pack_id_of packs ≡ values
    → length packs ≡ length values
same_length packs values q = sym (length-map packs) ∙ ap length q
  where
    length-map : (ps : List IndexFilePack) → length (map pack_id_of ps) ≡ length ps
    length-map [] = refl
    length-map (p ∷ ps) = ap suc (length-map ps)

module _ {F : Type 0} ⦃filter : DedupFilter F⦄ where
  -- The packs before they are sorted: those of the index, each with its blobs.
  record Layout (idx : Index F) (packs : List IndexFilePack) : Type 0 where
    ids : map pack_id_of packs ≡ idx.pack_ids.values
    blobs :
        (j : ℕ)
        → blobs_at packs j
          ≡ picked data_blob j (BlobMap.iter idx.data_ids)
            ++ picked tree_blob j (BlobMap.iter idx.tree_ids)

  -- An entry of a map under construction is what a lookup gives.
  entry-get :
      (blob_map : BlobMap F) (entry : Entry)
      → IsMutable blob_map
      → IsWellFormed blob_map
      → Memᴰ entry (BlobMap.iter blob_map)
      → BlobMap.get blob_map entry.0 ≡ some entry.1
  unfolding BlobMap.get
  entry-get (mutable entries) entry open_map h m = h entry.0 entry.1 m
  entry-get (immutable entries bf) entry open_map h m = absurd open_map

  module _ (idx : Index F) (open_maps : AllMutable idx) (valid : IsValid idx) where
    entry_known :
        (t : BlobType) (entry : Entry)
        → IsMutable (map_of t idx)
        → Memᴰ entry (BlobMap.iter (map_of t idx))
        → entry.1.pack_array_index < length idx.pack_ids.values
    entry_known t entry open_map m =
        valid.packs t entry.0 entry.1 (entry-get (map_of t idx) entry open_map (valid.formed t) m)

    -- No index of an entry is out of bounds, so writing does not panic.
    layout :
        (packs : List IndexFilePack) × (index_file idx ≡ ok (record { packs = written packs }))
        × Layout idx packs
    unfolding index_file
    layout =
        let values = idx.pack_ids.values in
        let len : length (map empty_pack values) ≡ length values = length-values values in
        let (d, run, e) =
          add_to_entries-Extends data_blob (BlobMap.iter idx.data_ids) (map empty_pack values)
            (λ entry m. omega (arith, entry_known data_blob entry open_maps.0 m, len)) in
        let (t, run', e') =
          add_to_entries-Extends tree_blob (BlobMap.iter idx.tree_ids) d (λ entry m. omega (
            arith,
            entry_known tree_blob entry open_maps.1 m,
            len,
            length-ids (map empty_pack values) d e.same_ids,
          )) in
        (
          t,
          rw (run, run') refl,
          record {
            ids = e'.same_ids ∙ e.same_ids ∙ ids-empty values;
            blobs = λ j.
                e'.blobs j
                ∙ ap (λ xs. xs ++ picked tree_blob j (BlobMap.iter idx.tree_ids))
                    (e.blobs j
                      ∙ ap (λ xs. xs ++ picked data_blob j (BlobMap.iter idx.data_ids))
                          (blobs_at-empty values j));
          },
        )
      where
        length-values : (xs : List ContentId) → length (map empty_pack xs) ≡ length xs
        length-values [] = refl
        length-values (x ∷ xs) = ap suc (length-values xs)

    in_map :
        (packs : List IndexFilePack) (j : ℕ) (blob : IndexFileBlob)
        → Layout idx packs
        → Memᴰ blob (blobs_at packs j)
        → (t : BlobType) × (IsMutable (map_of t idx))
          × (entry : Entry) × Memᴰ entry (BlobMap.iter (map_of t idx))
          × (entry.1.pack_array_index ≡ j)
          × (blob ≡ file_blob t entry)
    in_map packs j blob l m =
        elim (Memᴰ.append_cases (picked data_blob j (BlobMap.iter idx.data_ids))
          (subst (Memᴰ blob) (l.blobs j) m)) [
            | inl d ↦
                let r = Memᴰ-picked data_blob j (BlobMap.iter idx.data_ids) d in
                (data_blob, open_maps.0, r.0, r.1, r.2, r.3)
            | inr d ↦
                let r = Memᴰ-picked tree_blob j (BlobMap.iter idx.tree_ids) d in
                (tree_blob, open_maps.1, r.0, r.1, r.2, r.3)
          ]

    -- What is written is where the index has it.
    Written-index :
        (packs : List IndexFilePack) (t : BlobType) (k : ContentId) (l : BlobLocator)
        → Layout idx packs
        → Written (written packs) t k l
        → located_as t idx k ≡ some l
    Written-index packs t k l lay w =
        let (from_pack, m, same_pack, b) = Memᴰ-written packs w.pack w.blob w.in_file w.in_pack in
        let (j, at_j) = position packs m in
        let (id_at, blobs_are) = at_position packs j at_j in
        let r = in_map packs j w.blob lay (subst (Memᴰ w.blob) blobs_are b) in
        let entry = r.2 in
        let typed : r.0 ≡ t = ap (λ (x : IndexFileBlob). x.blob_type) (sym r.5) ∙ w.typed in
        let of_k : entry.0 ≡ k = ap (λ (x : IndexFileBlob). x.id) (sym r.5) ∙ w.of_id in
        let found = entry-get (map_of r.0 idx) entry r.1 (valid.formed r.0) r.3 in
        let pack_known : get_elem? idx.pack_ids.values entry.1.pack_array_index ≡ some w.pack.id =
          ap (get_elem? idx.pack_ids.values) r.4
          ∙ ap (λ (xs : List ContentId). get_elem? xs j) (sym lay.ids)
          ∙ id_at
          ∙ ap some same_pack in
        let here : located_as r.0 idx entry.0
            ≡ some (file_locator w.pack.id (file_blob r.0 entry)) =
          rw (found, pack_known) refl in
        subst (λ u. located_as u idx k ≡ some l) typed
          (subst (λ i. located_as r.0 idx i ≡ some l) of_k
            (here ∙ ap some (ap (file_locator w.pack.id) (sym r.5) ∙ sym w.at)))

    -- What the index has is written.
    index-Written :
        (packs : List IndexFilePack) (t : BlobType) (k : ContentId) (l : BlobLocator)
        → t ≢ padding
        → Layout idx packs
        → located_as t idx k ≡ some l
        → Written (written packs) t k l
    index-Written packs t k l typed lay q = by_get (BlobMap.get (map_of t idx) k) refl
      where
        in_picked :
            (t : BlobType) (entry : Entry)
            → t ≢ padding
            → Memᴰ entry (BlobMap.iter (map_of t idx))
            → Memᴰ (file_blob t entry) (
                picked data_blob entry.1.pack_array_index (BlobMap.iter idx.data_ids)
                ++ picked tree_blob entry.1.pack_array_index (BlobMap.iter idx.tree_ids))
        in_picked padding entry plain m = absurd (plain refl)
        in_picked data_blob entry plain m =
            Memᴰ.append_left (picked tree_blob entry.1.pack_array_index (BlobMap.iter idx.tree_ids))
              (picked-Memᴰ data_blob (BlobMap.iter idx.data_ids) entry m)
        in_picked tree_blob entry plain m =
            Memᴰ.append_right
              (picked data_blob entry.1.pack_array_index (BlobMap.iter idx.data_ids))
              (picked-Memᴰ tree_blob (BlobMap.iter idx.tree_ids) entry m)

        by_get :
            (found : Option BlobLocationInternal)
            → BlobMap.get (map_of t idx) k ≡ found
            → Written (written packs) t k l
        by_get none r =
            absurd
              (none-ne-some (sym (ap (λ o. and_then o λ loc. resolve_location idx loc t) r) ∙ q))
        by_get (some loc) r =
            let low = valid.packs t k loc r in
            let ids_length = same_length packs idx.pack_ids.values lay.ids in
            let (pack, at_j) =
              pack_at packs loc.pack_array_index (omega (arith, low, ids_length)) in
            let (id_at, blobs_are) = at_position packs loc.pack_array_index at_j in
            let m = get-Memᴰ (map_of t idx) k r in
            let b =
              subst (Memᴰ (file_blob t (k, loc))) (sym (blobs_are ∙ lay.blobs loc.pack_array_index))
                (in_picked t (k, loc) typed m) in
            let stands =
              written-Memᴰ packs pack (file_blob t (k, loc))
                (Memᴰ-get_elem? packs loc.pack_array_index at_j) b in
            let known : get_elem? idx.pack_ids.values loc.pack_array_index ≡ some pack.id =
              ap (λ (xs : List ContentId). get_elem? xs loc.pack_array_index) (sym lay.ids)
              ∙ id_at in
            let here : located_as t idx k ≡ some (file_locator pack.id (file_blob t (k, loc))) =
              rw (r, known) refl in
            record {
              pack = _;
              blob = file_blob t (k, loc);
              in_file = stands.0;
              in_pack = stands.1;
              typed = refl;
              of_id = refl;
              at = some-injective (sym q ∙ here);
            }

    same_answer :
        (instance_id : ℕ) (file_id : ContentId) (packs : List IndexFilePack) (t : BlobType)
        (k : ContentId)
        → t ≢ padding
        → Layout idx packs
        → length (written packs) ≤ 2 ^ 32
        → located_as t
            (from_index_file {F = F} instance_id (record { packs = written packs }) file_id)
            k
          ≡ located_as t idx k
    same_answer instance_id file_id packs t k typed lay room =
        let file : IndexFile = record { packs = written packs } in
        elim (Option-cases (located_as t (from_index_file {F = F} instance_id file file_id) k)) [
          | inr (l, q) ↦
              q
              ∙ sym (
                  Written-index packs t k l lay
                    (located_as-Written F instance_id file file_id room t k l typed q))
          | inl q ↦ elim (Option-cases (located_as t idx k)) [
            | inl r ↦ q ∙ sym r
            | inr (l, r) ↦
                let found =
                  Written-located_as F instance_id file file_id room t k l typed
                    (index-Written packs t k l typed lay r) in
                absurd (none-ne-some (sym q ∙ found.1))
          ]
        ]

    -- A well-formed index under construction with at most 2 ^ 32 packs can be written, and the
    -- index that is read from its file finds every data and tree blob where the first one does, and
    -- no other.
    pub from_index_file-index_file :
        (instance_id : ℕ) (file_id : ContentId)
        → length idx.pack_ids.values ≤ 2 ^ 32
        → (file : IndexFile) × (index_file idx ≡ ok file)
          × ((k : ContentId)
              → (get_data (from_index_file {F = F} instance_id file file_id) k ≡ get_data idx k)
                × (get_tree (from_index_file {F = F} instance_id file file_id) k ≡ get_tree idx k))
    from_index_file-index_file instance_id file_id room =
        let (packs, run, lay) = layout in
        let short : length (written packs) ≤ 2 ^ 32 =
          omega
            (arith, room, length-written packs, same_length packs idx.pack_ids.values lay.ids) in
        (
          record { packs = written packs },
          run,
          λ k. (
            same_answer instance_id file_id packs data_blob k data-ne-padding lay short,
            same_answer instance_id file_id packs tree_blob k tree-ne-padding lay short,
          ),
        )
