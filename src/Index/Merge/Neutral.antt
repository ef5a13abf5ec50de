-- ===== src/Index/Merge/Neutral.antt =====
-- Merging with no obsolete pack changes no answer (crates/mapache/src/repository/index.rs).
use mapache.Prelude.{
  ℕ, ◌^◌, ◌≤◌, ◌≡◌, refl, sym, ap, ◌∙◌, ◌⊎◌, inl, inr, true, List, [], ◌∷◌, Memᴰ, none, some,
  if◌then◌else◌, and_then, is_some, length, All, list_eq, nat_eq, Bool-cases, Option-cases,
  true-ne-false,
}
use mapache.Prelude.Order.{list_order, nat_order}
use mapache.Prelude.Search.{sort_by_key, All_mem}
use mapache.Common.{ContentId, BlobType, data_blob, tree_blob}
use mapache.Collections.DedupFilter.{DedupFilter}
use mapache.Index.BlobMap as BlobMap
use mapache.Index.BlobMap.{BlobLocationInternal}
use mapache.Index.BlobMap.Lookup.{contains-get}
use mapache.Index.State.{Index, BlobLocator, contains, get_data, get_tree, resolve_location}
use mapache.Index.AddPack.{map_of}
use mapache.Index.Validity.{IsValid, located_as, get_elem?-of_lt}
use mapache.Index.Master.{any_contains}
use mapache.Index.Master.Known.{IsReady}
use mapache.Index.Merge.{instance_key, gather, merge_index}
use mapache.Index.Merge.Keeps.{any_contains-merge_index}
use mapache.Index.Merge.Sources.{any_contains-merged}

module _ {F : Type 0} ⦃filter : DedupFilter F⦄ where
  located_of_contains :
      (idx : Index F) (t : BlobType) (k : ContentId)
      → IsValid idx
      → BlobMap.contains (map_of t idx) k ≡ true
      → (l : BlobLocator) × (located_as t idx k ≡ some l)
  located_of_contains idx t k valid h = elim (Option-cases (BlobMap.get (map_of t idx) k)) [
    | inl q ↦ absurd (true-ne-false (sym h ∙ contains-get (map_of t idx) k ∙ ap is_some q))
    | inr (loc, q) ↦
        let (p, at) =
          get_elem?-of_lt idx.pack_ids.values loc.pack_array_index (valid.packs t k loc q) in
        (
          record {
            pack_id = p;
            offset = loc.offset;
            length = loc.length;
            raw_length = loc.raw_length;
            blob_type = t;
          },
          ap (λ o. and_then o λ x. resolve_location idx x t) q ∙ rw at refl,
        )
  ]

  found_of_contains :
      (idx : Index F) (k : ContentId)
      → IsValid idx
      → contains idx k ≡ true
      → (l : BlobLocator) × ((get_data idx k ≡ some l) ⊎ (get_tree idx k ≡ some l))
  found_of_contains idx k valid h = elim (Bool-cases (BlobMap.contains idx.data_ids k)) [
    | inl q ↦ let (l, r) = located_of_contains idx data_blob k valid q in (l, inl r)
    | inr q ↦
        let h' : BlobMap.contains idx.tree_ids k ≡ true =
          ap (λ b. if b then true else BlobMap.contains idx.tree_ids k) (sym q) ∙ h in
        let (l, r) = located_of_contains idx tree_blob k valid h' in (l, inr r)
  ]

  holder :
      (indices : List (Index F)) (k : ContentId)
      → any_contains indices k ≡ true
      → (idx : Index F) × Memᴰ idx indices × (contains idx k ≡ true)
  holder [] k h = absurd (true-ne-false (sym h))
  holder (x ∷ indices) k h = elim (Bool-cases (contains x k)) [
    | inl q ↦ (x, Memᴰ.head refl, q)
    | inr q ↦
        let (idx, m, r) =
          holder indices k (ap (λ b. if b then true else any_contains indices k) (sym q) ∙ h) in
        (idx, Memᴰ.tail m, r)
  ]

  -- With no obsolete pack, merging well-formed indices of no more than 2 ^ 32 packs, however they are
  -- divided anew, loses no blob and invents none.
  pub any_contains-merge_none :
      (limit next_instance_id : ℕ) (indices : List (Index F)) (k : ContentId)
      → All IsReady indices
      → length (gather none (sort_by_key instance_key indices) []) ≤ 2 ^ 32
      → any_contains (merge_index limit next_instance_id none indices) k ≡ any_contains indices k
  any_contains-merge_none limit next_instance_id indices k ready room =
      elim (Bool-cases (any_contains indices k)) [
        | inl there ↦
            let (idx, m, q) = holder indices k there in
            let (l, found) = found_of_contains idx k (All_mem IsReady indices ready m).0 q in
            any_contains-merge_index limit next_instance_id none indices idx k l m found refl room
            ∙ sym there
        | inr absent ↦
            elim (Bool-cases (any_contains (merge_index limit next_instance_id none indices) k)) [
              | inl q ↦
                  let old =
                    any_contains-merged limit next_instance_id none indices k ready room q in
                  absurd (true-ne-false (sym old ∙ absent))
              | inr q ↦ q ∙ sym absent
            ]
      ]
