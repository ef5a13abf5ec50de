-- ===== src/Index/Merge/Sources.antt =====
-- The new indices of `merge_index` have no blob that the old ones did not have
-- (crates/mapache/src/repository/index.rs).
use mathlib.Core.List.Memᴰ
use mapache.Prelude.{
  ℕ, suc, ◌^◌, ◌<◌, ◌≤◌, ◌≡◌, refl, sym, ap, subst, ◌∙◌, inl, inr, Bool, true, false, List, [], ◌∷◌,
  map, Memᴰ, Option, none, some, if◌then◌else◌, is_some, length, All, list_eq, nat_eq, Bool-cases,
  true-ne-false, arith,
}
use mapache.Prelude.Order.{list_order, nat_order}
use mapache.Prelude.Search.{sort_by_key, Memᴰ-sort_by_key, length-sort_by_key, All_mem}
use mapache.Common.{ContentId, BlobType, data_blob, tree_blob}
use mapache.Collections.Maps as Maps
use mapache.Collections.Maps.{Memᴰ-of_get, Memᴰ-erase}
use mapache.Collections.DedupFilter.{DedupFilter}
use mapache.Packer.{PackedBlobDescriptor}
use mapache.Index.BlobMap as BlobMap
use mapache.Index.BlobMap.{BlobLocationInternal, Entry}
use mapache.Index.BlobMap.Lookup.{contains-get, get-finds}
use mapache.Index.State.{
  Index, pending, finalized, new, set_status, contains, add_pack, is_empty, is_full,
}
use mapache.Index.AddPack.{map_of}
use mapache.Index.Validity.{IsValid}
use mapache.Index.Master.{any_contains, descriptor_id}
use mapache.Index.Master.Known.{packed, IsReady}
use mapache.Index.Master.Enter.{contains-add_pack}
use mapache.Index.Master.Opened.{new-IsReady, contains-new}
use mapache.Index.Master.Entered.{listed-packed, among-Memᴰ}
use mapache.Index.Merge.{
  PackMap, BlobsOfPack, blobs_or_none, descriptor, process_map, put_all, put_packs, values_of,
  blob_offset, pack_key, instance_key, get_pack_descriptors, gather, rebuild, merge_index,
}
use mapache.Index.Merge.Gather.{AllBlobs, process_map-AllBlobs}
use mapache.Index.Merge.Rebuild.{IsFillable, filled-IsFillable}

-- A property of every image, of a member of the images.
map_mem :
    {A B : Type 0} (f : A → B) (Q : B → Type 0) (xs : List A)
    → ((x : A) → Memᴰ x xs → Q (f x))
    → (b : B) → Memᴰ b (map f xs)
    → Q b
map_mem f Q [] h b m = absurd (Memᴰ.not-nil m)
map_mem f Q (x ∷ xs) h b m = elim (Memᴰ.cases_cons m) [
  | inl here ↦ subst Q (sym here) (h x (Memᴰ.head refl))
  | inr later ↦ map_mem f Q xs (λ y n. h y (Memᴰ.tail n)) b later
]

packed_mem :
    (Q : ContentId → Type 0) (descriptors : List PackedBlobDescriptor) (k : ContentId)
    → ((d : PackedBlobDescriptor) → Memᴰ d descriptors → Q d.id)
    → packed descriptors k ≡ true
    → Q k
packed_mem Q descriptors k h q =
    map_mem descriptor_id Q descriptors h k
      (among-Memᴰ (map descriptor_id descriptors) k (listed-packed descriptors k q))

module _ (P : PackedBlobDescriptor → Type 0) where
  abbrev pub InBlobs : BlobsOfPack → Type 0
  InBlobs blobs = (k : ContentId) (d : PackedBlobDescriptor) → Memᴰ (k, d) blobs → P d

  put_all-InBlobs :
      (blobs : BlobsOfPack) (ds : List PackedBlobDescriptor)
      → ((d : PackedBlobDescriptor) → Memᴰ d ds → P d)
      → InBlobs blobs
      → InBlobs (put_all blobs ds)
  put_all-InBlobs blobs [] new h = h
  put_all-InBlobs blobs (x ∷ ds) new h =
      put_all-InBlobs (Maps.put blobs x.id x) ds (λ d m. new d (Memᴰ.tail m))
        (λ k d m. elim (Memᴰ.cases_cons m) [
          | inl here ↦ subst P (sym (ap (λ e. e.1) here)) (new x (Memᴰ.head refl))
          | inr later ↦ h k d (Memᴰ-erase blobs x.id k later).0
        ])

  abbrev pub InGathered : List (ContentId × BlobsOfPack) → Type 0
  InGathered acc = (p : ContentId) (blobs : BlobsOfPack) → Memᴰ (p, blobs) acc → InBlobs blobs

  put_packs-InGathered :
      (acc : List (ContentId × BlobsOfPack)) (packs : PackMap)
      → AllBlobs P packs
      → InGathered acc
      → InGathered (put_packs acc packs)
  put_packs-InGathered acc [] new h = h
  put_packs-InGathered acc ((q, ds) ∷ packs) new h =
      put_packs-InGathered (Maps.put acc q (put_all (blobs_or_none (Maps.get acc q)) ds)) packs
        (λ p ds d m m'. new p ds d (Memᴰ.tail m) m')
        (λ p blobs m. elim (Memᴰ.cases_cons m) [
          | inr later ↦ h p blobs (Memᴰ-erase acc q p later).0
          | inl here ↦ subst InBlobs (sym (ap (λ e. e.1) here)) (of_pack (Maps.get acc q) refl)
        ])
    where
      of_pack :
          (found : Option BlobsOfPack)
          → Maps.get acc q ≡ found
          → InBlobs (put_all (blobs_or_none found) ds)
      of_pack none r =
          put_all-InBlobs [] ds (λ d m. new q ds d (Memᴰ.head refl) m)
            (λ k d m. absurd (Memᴰ.not-nil m))
      of_pack (some blobs) r =
          put_all-InBlobs blobs ds (λ d m. new q ds d (Memᴰ.head refl) m)
            (h q blobs (Memᴰ-of_get acc q r))

module _ {F : Type 0} ⦃filter : DedupFilter F⦄ where
  -- What an index iterates over it contains.
  contains-iter :
      (idx : Index F) (t : BlobType) (k : ContentId) (loc : BlobLocationInternal)
      → IsValid idx
      → Memᴰ (k, loc) (BlobMap.iter (map_of t idx))
      → BlobMap.contains (map_of t idx) k ≡ true
  contains-iter idx t k loc valid m =
      let (found, q) = get-finds (map_of t idx) k loc (valid.formed t) m in
      contains-get (map_of t idx) k ∙ ap is_some q

  pack_descriptors-AllBlobs :
      (P : PackedBlobDescriptor → Type 0) (idx : Index F) (obsolete : Option (List ContentId))
      → IsValid idx
      → ((d : PackedBlobDescriptor) → contains idx d.id ≡ true → P d)
      → AllBlobs P (get_pack_descriptors idx obsolete)
  unfolding get_pack_descriptors
  pack_descriptors-AllBlobs P idx obsolete valid known =
      process_map-AllBlobs P obsolete idx.pack_ids tree_blob (BlobMap.iter idx.tree_ids)
        (process_map obsolete idx.pack_ids data_blob (BlobMap.iter idx.data_ids) [])
        (λ entry m. known (descriptor tree_blob entry) (
          or_true (BlobMap.contains idx.data_ids entry.0)
            (contains-iter idx tree_blob entry.0 entry.1 valid m)))
        (process_map-AllBlobs P obsolete idx.pack_ids data_blob (BlobMap.iter idx.data_ids) []
          (λ entry m. known (descriptor data_blob entry) (
            ap (λ b. if b then true else BlobMap.contains idx.tree_ids entry.0)
              (contains-iter idx data_blob entry.0 entry.1 valid m)))
          (λ p ds d m m'. absurd (Memᴰ.not-nil m)))
    where
      or_true : (p : Bool) {q : Bool} → q ≡ true → (if p then true else q) ≡ true
      or_true true h = refl
      or_true false h = h

  gather-InGathered :
      (P : PackedBlobDescriptor → Type 0) (obsolete : Option (List ContentId))
      (indices : List (Index F)) (acc : List (ContentId × BlobsOfPack))
      → ((idx : Index F) → Memᴰ idx indices → IsValid idx)
      → ((idx : Index F)
          → Memᴰ idx indices
          → (d : PackedBlobDescriptor) → contains idx d.id ≡ true
          → P d)
      → InGathered P acc
      → InGathered P (gather obsolete indices acc)
  gather-InGathered P obsolete [] acc valid known h = h
  gather-InGathered P obsolete (idx ∷ indices) acc valid known h =
      gather-InGathered P obsolete indices (put_packs acc (get_pack_descriptors idx obsolete))
        (λ x m. valid x (Memᴰ.tail m)) (λ x m. known x (Memᴰ.tail m))
        (put_packs-InGathered P acc (get_pack_descriptors idx obsolete)
          (pack_descriptors-AllBlobs P idx obsolete (valid idx (Memᴰ.head refl))
            (known idx (Memᴰ.head refl)))
          h)

  any_contains_mem :
      (indices : List (Index F)) (idx : Index F) (k : ContentId)
      → Memᴰ idx indices
      → contains idx k ≡ true
      → any_contains indices k ≡ true
  any_contains_mem [] idx k m h = absurd (Memᴰ.not-nil m)
  any_contains_mem (x ∷ indices) idx k m h = elim (Memᴰ.cases_cons m) [
    | inl here ↦
        ap (λ b. if b then true else any_contains indices k)
          (ap (λ (i : Index F). contains i k) (sym here) ∙ h)
    | inr later ↦ elim (Bool-cases (contains x k)) [
      | inl q ↦ rw q refl
      | inr q ↦ rw q (any_contains_mem indices idx k later h)
    ]
  ]

  -- What the filled index contains.
  filled_sound :
      (Q : ContentId → Type 0) (current_index : Index F) (pack_id : ContentId) (blobs : BlobsOfPack)
      (more : ℕ) (k : ContentId)
      → IsFillable current_index (suc more)
      → InBlobs (λ (d : PackedBlobDescriptor). Q d.id) blobs
      → (contains current_index k ≡ true → Q k)
      → contains (add_pack current_index pack_id (sort_by_key blob_offset (values_of blobs))) k
        ≡ true
      → Q k
  filled_sound Q current_index pack_id blobs more k fit sound old there =
      let ds = sort_by_key blob_offset (values_of blobs) in
      let room : length current_index.pack_ids.values < 2 ^ 32 = omega (arith, fit.2) in
      let now = contains-add_pack current_index pack_id ds k fit.0 fit.1 room in
      elim (Bool-cases (packed ds k)) [
        | inl q ↦
            packed_mem Q ds k
              (λ d m.
                map_mem (λ (e : ContentId × PackedBlobDescriptor). e.1)
                  (λ (x : PackedBlobDescriptor). Q x.id) blobs (λ e n. sound e.0 e.1 n) d
                  ((Memᴰ-sort_by_key blob_offset d (values_of blobs)).0 m))
              q
        | inr q ↦
            old (ap (λ b. if b then true else contains current_index k) (sym q) ∙ sym now ∙ there)
      ]

  -- What the new indices contain comes from the packs, or from the index that is filled.
  rebuild_sound :
      (Q : ContentId → Type 0) (limit next_instance_id : ℕ) (packs : List (ContentId × BlobsOfPack))
      (current_index : Index F) (k : ContentId)
      → IsFillable current_index (length packs)
      → length packs ≤ 2 ^ 32
      → InGathered (λ (d : PackedBlobDescriptor). Q d.id) packs
      → (contains current_index k ≡ true → Q k)
      → any_contains (rebuild limit next_instance_id packs current_index) k ≡ true
      → Q k
  rebuild_sound Q limit next_instance_id [] current_index k fit short sound old there =
      elim (Bool-cases (is_empty current_index)) [
        | inl q ↦ absurd (
            true-ne-false (
              sym there
              ∙ ap (λ b. any_contains (if b then [] else set_status current_index pending ∷ []) k)
                  q))
        | inr q ↦ old (
            sym (or_false (contains current_index k))
            ∙ sym (
                ap (λ b. any_contains (if b then [] else set_status current_index pending ∷ []) k)
                  q)
            ∙ there)
      ]
    where
      or_false : (p : Bool) → (if p then true else false) ≡ p
      or_false true = refl
      or_false false = refl
  rebuild_sound Q limit next_instance_id ((pack_id, blobs) ∷ packs) current_index k fit short sound
        old there =
      let descriptors = sort_by_key blob_offset (values_of blobs) in
      let filled = add_pack current_index pack_id descriptors in
      let fit' = filled-IsFillable current_index pack_id descriptors (length packs) fit in
      let short' : length packs ≤ 2 ^ 32 = omega (arith, short) in
      let sound' : InGathered (λ (d : PackedBlobDescriptor). Q d.id) packs =
        λ p b m. sound p b (Memᴰ.tail m) in
      let old' =
        filled_sound Q current_index pack_id blobs (length packs) k fit
          (sound pack_id blobs (Memᴰ.head refl)) old in
      let afresh = new next_instance_id in
      elim (Bool-cases (is_full limit filled)) [
        | inr q ↦
            rebuild_sound Q limit next_instance_id packs filled k fit' short' sound' old'
              (rw q at there)
        | inl q ↦
            let there' : any_contains
                  (set_status filled finalized ∷ rebuild limit (suc next_instance_id) packs afresh)
                  k
                ≡ true =
              rw q at there in
            elim (Bool-cases (contains filled k)) [
              | inl here ↦ old' here
              | inr absent ↦
                  rebuild_sound Q limit (suc next_instance_id) packs afresh k
                    ((tt, tt), (new-IsReady F next_instance_id).0, omega (arith, short')) short'
                    sound' (λ h. absurd (true-ne-false (sym h ∙ contains-new F next_instance_id k)))
                    (rw absent at there')
            ]
      ]

  -- Merging the indices makes no blob known that no index had, provided that the indices are well-formed
  -- and that no more than 2 ^ 32 packs are in use.
  pub any_contains-merged :
      (limit next_instance_id : ℕ) (obsolete : Option (List ContentId)) (indices : List (Index F))
      (k : ContentId)
      → All IsReady indices
      → length (gather obsolete (sort_by_key instance_key indices) []) ≤ 2 ^ 32
      → any_contains (merge_index limit next_instance_id obsolete indices) k ≡ true
      → any_contains indices k ≡ true
  unfolding merge_index
  any_contains-merged limit next_instance_id obsolete indices k ready room there =
      let sorted = sort_by_key instance_key indices in
      let all = gather obsolete sorted [] in
      let back : (idx : Index F) → Memᴰ idx sorted → Memᴰ idx indices =
        λ idx m. (Memᴰ-sort_by_key instance_key idx indices).0 m in
      let short : length (sort_by_key pack_key all) ≤ 2 ^ 32 =
        omega (arith, room, length-sort_by_key pack_key all) in
      rebuild_sound (λ j. any_contains indices j ≡ true) limit (suc next_instance_id)
        (sort_by_key pack_key all) (new next_instance_id) k
        ((tt, tt), (new-IsReady F next_instance_id).0, omega (arith, short)) short
        (λ p blobs m.
          gather-InGathered (λ (d : PackedBlobDescriptor). any_contains indices d.id ≡ true)
            obsolete sorted [] (λ idx n. (All_mem IsReady indices ready (back idx n)).0)
            (λ idx n d h. any_contains_mem indices idx d.id (back idx n) h)
            (λ p b n. absurd (Memᴰ.not-nil n)) p blobs
            ((Memᴰ-sort_by_key pack_key (p, blobs) all).0 m))
        (λ h. absurd (true-ne-false (sym h ∙ contains-new F next_instance_id k))) there
