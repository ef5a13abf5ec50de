-- ===== src/Index/Merge/Keeps.antt =====
-- No blob of a pack in use is lost when the indices are merged
-- (crates/mapache/src/repository/index.rs).
use mathlib.Core.List.Memᴰ
use mapache.Prelude.{
  ℕ, suc, ◌^◌, ◌≤◌, ◌≡◌, ◌≢◌, refl, sym, ap, subst, ◌∙◌, ◌⊎◌, inl, inr, true, false, List, [], ◌∷◌,
  Memᴰ, Option, none, some, and_then, length, list_eq, nat_eq, none-ne-some, some-injective, arith,
}
use mapache.Prelude.Order.{list_order, nat_order}
use mapache.Prelude.Search.{sort_by_key, Memᴰ-sort_by_key, length-sort_by_key}
use mapache.Common.{ContentId, BlobType, data_blob, tree_blob, padding}
use mapache.Collections.Maps.{Memᴰ-of_get}
use mapache.Collections.IndexSet as IndexSet
use mapache.Collections.DedupFilter.{DedupFilter}
use mapache.Packer.{PackedBlobDescriptor}
use mapache.Index.BlobMap as BlobMap
use mapache.Index.BlobMap.{BlobLocationInternal, Entry}
use mapache.Index.BlobMap.Lookup.{get-Memᴰ}
use mapache.Index.State.{Index, BlobLocator, new, resolve_location, get_data, get_tree}
use mapache.Index.AddPack.{map_of}
use mapache.Index.Validity.{located_as}
use mapache.Index.Master.{any_contains}
use mapache.Index.Master.Opened.{new-IsReady}
use mapache.Index.Merge.{
  BlobsOfPack, descriptor, is_obsolete, process_map, put_packs, pack_key, instance_key,
  get_pack_descriptors, gather, merge_index,
}
use mapache.Index.Merge.Rebuild.{any_contains-rebuild}
use mapache.Index.Merge.Gather.{HasDescriptor, AllPlain, process_map_keeps, process_map_adds}
use mapache.Index.Merge.Gathered.{Gathered, put_packs_keeps, put_packs_adds, Gathered-InPacks}

module _ {F : Type 0} ⦃filter : DedupFilter F⦄ where
  pack_descriptors-AllPlain :
      (idx : Index F) (obsolete : Option (List ContentId))
      → AllPlain (get_pack_descriptors idx obsolete)
  unfolding get_pack_descriptors
  pack_descriptors-AllPlain idx obsolete =
      (process_map_keeps obsolete idx.pack_ids tree_blob (BlobMap.iter idx.tree_ids)
        (process_map obsolete idx.pack_ids data_blob (BlobMap.iter idx.data_ids) []) (λ q. cc)
        (process_map_keeps obsolete idx.pack_ids data_blob (BlobMap.iter idx.data_ids) [] (λ q. cc)
          (λ p ds d m m'. absurd (Memᴰ.not-nil m))).0).0

  -- A blob that is found in a pack in use is among its descriptors.
  located-HasDescriptor :
      (idx : Index F) (obsolete : Option (List ContentId)) (t : BlobType) (k : ContentId)
      (l : BlobLocator)
      → t ≢ padding
      → located_as t idx k ≡ some l
      → is_obsolete obsolete l.pack_id ≡ false
      → (d : PackedBlobDescriptor) × HasDescriptor (get_pack_descriptors idx obsolete) l.pack_id d
        × (d.id ≡ k)
  unfolding get_pack_descriptors
  located-HasDescriptor idx obsolete t k l typed q kept = by_get (BlobMap.get (map_of t idx) k) refl
    where
      at_pack : BlobLocationInternal → ContentId → BlobLocator
      at_pack loc p = record {
        pack_id = p;
        offset = loc.offset;
        length = loc.length;
        raw_length = loc.raw_length;
        blob_type = t;
      }

      in_maps :
          (t : BlobType) (entry : Entry) (p : ContentId)
          → t ≢ padding
          → Memᴰ entry (BlobMap.iter (map_of t idx))
          → IndexSet.get_value idx.pack_ids entry.1.pack_array_index ≡ some p
          → is_obsolete obsolete p ≡ false
          → HasDescriptor
              (process_map obsolete idx.pack_ids tree_blob
                (BlobMap.iter idx.tree_ids)
                (process_map obsolete idx.pack_ids data_blob (BlobMap.iter idx.data_ids) []))
              p
              (descriptor t entry)
      in_maps padding entry p plain m known used = absurd (plain refl)
      in_maps data_blob entry p plain m known used =
          (process_map_keeps obsolete idx.pack_ids tree_blob (BlobMap.iter idx.tree_ids)
              (process_map obsolete idx.pack_ids data_blob (BlobMap.iter idx.data_ids) []) (λ q. cc)
              (process_map_keeps obsolete idx.pack_ids data_blob (BlobMap.iter idx.data_ids) []
                (λ q. cc) (λ p ds d m m'. absurd (Memᴰ.not-nil m))).0).1
            p (descriptor data_blob entry)
            (process_map_adds obsolete idx.pack_ids data_blob (BlobMap.iter idx.data_ids) [] entry p
              (λ q. cc) (λ p ds d m m'. absurd (Memᴰ.not-nil m)) m known used)
      in_maps tree_blob entry p plain m known used =
          process_map_adds obsolete idx.pack_ids tree_blob (BlobMap.iter idx.tree_ids)
            (process_map obsolete idx.pack_ids data_blob (BlobMap.iter idx.data_ids) []) entry p
            (λ q. cc)
            (process_map_keeps obsolete idx.pack_ids data_blob (BlobMap.iter idx.data_ids) []
              (λ q. cc) (λ p ds d m m'. absurd (Memᴰ.not-nil m))).0
            m known used

      by_pack :
          (loc : BlobLocationInternal)
          → BlobMap.get (map_of t idx) k ≡ some loc
          → resolve_location idx loc t ≡ some l
          → (found : Option ContentId)
          → IndexSet.get_value idx.pack_ids loc.pack_array_index ≡ found
          → (d : PackedBlobDescriptor) × HasDescriptor
              (process_map obsolete idx.pack_ids tree_blob
                (BlobMap.iter idx.tree_ids)
                (process_map obsolete idx.pack_ids data_blob (BlobMap.iter idx.data_ids) []))
              l.pack_id
              d
            × (d.id ≡ k)
      by_pack loc r s none at = absurd (
          none-ne-some
            (sym (ap (λ (o : Option ContentId). and_then o λ p. some (at_pack loc p)) at) ∙ s))
      by_pack loc r s (some p) at =
          let same : p ≡ l.pack_id =
            ap (λ (x : BlobLocator). x.pack_id)
              (some-injective (
                sym (ap (λ (o : Option ContentId). and_then o λ p. some (at_pack loc p)) at)
                ∙ s)) in
          (
            descriptor t (k, loc),
            in_maps t (k, loc) l.pack_id typed (get-Memᴰ (map_of t idx) k r) (at ∙ ap some same)
                kept,
            refl,
          )

      by_get :
          (found : Option BlobLocationInternal)
          → BlobMap.get (map_of t idx) k ≡ found
          → (d : PackedBlobDescriptor) × HasDescriptor
              (process_map obsolete idx.pack_ids tree_blob
                (BlobMap.iter idx.tree_ids)
                (process_map obsolete idx.pack_ids data_blob (BlobMap.iter idx.data_ids) []))
              l.pack_id
              d
            × (d.id ≡ k)
      by_get none r =
          absurd (none-ne-some (sym (ap (λ o. and_then o λ loc. resolve_location idx loc t) r) ∙ q))
      by_get (some loc) r =
          by_pack loc r (sym (ap (λ o. and_then o λ loc. resolve_location idx loc t) r) ∙ q)
            (IndexSet.get_value idx.pack_ids loc.pack_array_index) refl

  gather_keeps :
      (obsolete : Option (List ContentId)) (indices : List (Index F))
      (acc : List (ContentId × BlobsOfPack)) (p k : ContentId)
      → Gathered acc p k
      → Gathered (gather obsolete indices acc) p k
  gather_keeps obsolete [] acc p k h = h
  gather_keeps obsolete (idx ∷ indices) acc p k h =
      gather_keeps obsolete indices (put_packs acc (get_pack_descriptors idx obsolete)) p k (
        put_packs_keeps acc (get_pack_descriptors idx obsolete) p k
          (pack_descriptors-AllPlain idx obsolete) h)

  gather_adds :
      (obsolete : Option (List ContentId)) (indices : List (Index F))
      (acc : List (ContentId × BlobsOfPack)) (idx : Index F) (t : BlobType) (k : ContentId)
      (l : BlobLocator)
      → t ≢ padding
      → Memᴰ idx indices
      → located_as t idx k ≡ some l
      → is_obsolete obsolete l.pack_id ≡ false
      → Gathered (gather obsolete indices acc) l.pack_id k
  gather_adds obsolete [] acc idx t k l typed m q kept = absurd (Memᴰ.not-nil m)
  gather_adds obsolete (x ∷ indices) acc idx t k l typed m q kept =
      let packs = get_pack_descriptors x obsolete in
      elim (Memᴰ.cases_cons m) [
        | inr later ↦
            gather_adds obsolete indices (put_packs acc packs) idx t k l typed later q kept
        | inl here ↦
            let q' : located_as t x k ≡ some l =
              ap (λ (i : Index F). located_as t i k) (sym here) ∙ q in
            let (d, (ds, found, m'), of_id) =
              located-HasDescriptor x obsolete t k l typed q' kept in
            let now =
              put_packs_adds acc packs l.pack_id ds d (pack_descriptors-AllPlain x obsolete)
                (Memᴰ-of_get packs l.pack_id found) m' in
            gather_keeps obsolete indices (put_packs acc packs) l.pack_id k
              (subst (Gathered (put_packs acc packs) l.pack_id) of_id now)
      ]

  merge_located :
      (limit next_instance_id : ℕ) (obsolete : Option (List ContentId)) (indices : List (Index F))
      (idx : Index F) (t : BlobType) (k : ContentId) (l : BlobLocator)
      → t ≢ padding
      → Memᴰ idx indices
      → located_as t idx k ≡ some l
      → is_obsolete obsolete l.pack_id ≡ false
      → length (gather obsolete (sort_by_key instance_key indices) []) ≤ 2 ^ 32
      → any_contains (merge_index limit next_instance_id obsolete indices) k ≡ true
  unfolding merge_index
  merge_located limit next_instance_id obsolete indices idx t k l typed m q kept room =
      let sorted = sort_by_key instance_key indices in
      let all = gather obsolete sorted [] in
      let m' = (Memᴰ-sort_by_key instance_key idx indices).1 m in
      let short : length (sort_by_key pack_key all) ≤ 2 ^ 32 =
        omega (arith, room, length-sort_by_key pack_key all) in
      any_contains-rebuild limit (suc next_instance_id) (sort_by_key pack_key all)
        (new next_instance_id) k
        ((tt, tt), (new-IsReady F next_instance_id).0, omega (arith, short)) short
        (inr (
          Gathered-InPacks all l.pack_id k
            (gather_adds obsolete sorted [] idx t k l typed m' q kept)))

  -- A blob that an index finds in a pack that is not obsolete stands in an index after the merge, provided
  -- that no more than 2 ^ 32 packs are in use.
  pub any_contains-merge_index :
      (limit next_instance_id : ℕ) (obsolete : Option (List ContentId)) (indices : List (Index F))
      (idx : Index F) (k : ContentId) (l : BlobLocator)
      → Memᴰ idx indices
      → (get_data idx k ≡ some l) ⊎ (get_tree idx k ≡ some l)
      → is_obsolete obsolete l.pack_id ≡ false
      → length (gather obsolete (sort_by_key instance_key indices) []) ≤ 2 ^ 32
      → any_contains (merge_index limit next_instance_id obsolete indices) k ≡ true
  any_contains-merge_index limit next_instance_id obsolete indices idx k l m found kept room =
      elim found [
        | inl q ↦
            merge_located limit next_instance_id obsolete indices idx data_blob k l (λ e. cc) m q
              kept room
        | inr q ↦
            merge_located limit next_instance_id obsolete indices idx tree_blob k l (λ e. cc) m q
              kept room
      ]
