-- ===== src/Index/Merge/Gather.antt =====
-- The packs that `merge_index` gathers have every blob of the indices, but for obsolete packs
-- (crates/mapache/src/repository/index.rs).
use mathlib.Core.List.Memᴰ
use mapache.Prelude.{
  ◌≡◌, ◌≢◌, refl, sym, ap, subst, ◌∙◌, inl, inr, true, false, List, [], ◌∷◌, ◌++◌, Memᴰ, Option,
  none, some, if◌then◌else◌, list_eq, nat_eq, Bool-cases, beq-cases, beq_refl,
}
use mapache.Prelude.Order.{list_order, nat_order}
use mapache.Common.{ContentId, BlobType, padding}
use mapache.Collections.Maps as Maps
use mapache.Collections.Maps.{get-put, Memᴰ-of_get, Memᴰ-erase}
use mapache.Collections.IndexSet as IndexSet
use mapache.Packer.{PackedBlobDescriptor}
use mapache.Index.BlobMap.{Entry}
use mapache.Index.State.{new}
use mapache.Index.Merge.{PackMap, list_at, descriptor, is_obsolete, add_descriptor, process_map}

abbrev pub IsPlainBlob : PackedBlobDescriptor → Type 0
IsPlainBlob d = d.blob_type ≢ padding

-- A pack's list has a descriptor.
abbrev pub HasDescriptor : PackMap → ContentId → PackedBlobDescriptor → Type 0
HasDescriptor packs p d =
    (ds : List PackedBlobDescriptor) × (Maps.get packs p ≡ some ds) × Memᴰ d ds

-- Every blob of every pack has a property.
abbrev pub AllBlobs : (PackedBlobDescriptor → Type 0) → PackMap → Type 0
AllBlobs P packs =
    (p : ContentId) (ds : List PackedBlobDescriptor) (d : PackedBlobDescriptor)
    → Memᴰ (p, ds) packs
    → Memᴰ d ds
    → P d

-- No pack has padding.
abbrev pub AllPlain : PackMap → Type 0
AllPlain = AllBlobs IsPlainBlob

add_descriptor-AllBlobs :
    (P : PackedBlobDescriptor → Type 0) (obsolete : Option (List ContentId)) (t : BlobType)
    (entry : Entry) (packs : PackMap) (pack : Option ContentId)
    → P (descriptor t entry)
    → AllBlobs P packs
    → AllBlobs P (add_descriptor obsolete t entry packs pack)
add_descriptor-AllBlobs P obsolete t entry packs none new h = h
add_descriptor-AllBlobs P obsolete t entry packs (some q) new h =
    elim (Bool-cases (is_obsolete obsolete q)) [
      | inl old ↦ rw old h
      | inr kept ↦ rw kept (λ p ds d m m'. elim (Memᴰ.cases_cons m) [
        | inr later ↦ h p ds d (Memᴰ-erase packs q p later).0 m'
        | inl here ↦ of_list (Maps.get packs q) refl d (subst (Memᴰ d) (ap (λ x. x.1) here) m')
      ])
    ]
  where
    of_list :
        (found : Option (List PackedBlobDescriptor))
        → Maps.get packs q ≡ found
        → (d : PackedBlobDescriptor) → Memᴰ d (list_at found ++ (descriptor t entry ∷ []))
        → P d
    of_list none r d m = subst P (sym (Memᴰ.eq_of_singleton m)) new
    of_list (some ds) r d m = elim (Memᴰ.append_cases ds m) [
      | inl old ↦ h q ds d (Memᴰ-of_get packs q r) old
      | inr last ↦ subst P (sym (Memᴰ.eq_of_singleton last)) new
    ]

pub process_map-AllBlobs :
    (P : PackedBlobDescriptor → Type 0) (obsolete : Option (List ContentId))
    (pack_ids : IndexSet.IndexSet ContentId) (t : BlobType) (entries : List Entry) (packs : PackMap)
    → ((entry : Entry) → Memᴰ entry entries → P (descriptor t entry))
    → AllBlobs P packs
    → AllBlobs P (process_map obsolete pack_ids t entries packs)
process_map-AllBlobs P obsolete pack_ids t [] packs new h = h
process_map-AllBlobs P obsolete pack_ids t (entry ∷ entries) packs new h =
    let pack = IndexSet.get_value pack_ids entry.1.pack_array_index in
    process_map-AllBlobs P obsolete pack_ids t entries (add_descriptor obsolete t entry packs pack)
      (λ x m. new x (Memᴰ.tail m))
      (add_descriptor-AllBlobs P obsolete t entry packs pack (new entry (Memᴰ.head refl)) h)

add_descriptor-AllPlain :
    (obsolete : Option (List ContentId)) (t : BlobType) (entry : Entry) (packs : PackMap)
    (pack : Option ContentId)
    → t ≢ padding
    → AllPlain packs
    → AllPlain (add_descriptor obsolete t entry packs pack)
add_descriptor-AllPlain obsolete t entry packs pack typed h =
    add_descriptor-AllBlobs IsPlainBlob obsolete t entry packs pack (λ same. typed same) h

add_descriptor_keeps :
    (obsolete : Option (List ContentId)) (t : BlobType) (entry : Entry) (packs : PackMap)
    (pack : Option ContentId) (p : ContentId) (d : PackedBlobDescriptor)
    → HasDescriptor packs p d
    → HasDescriptor (add_descriptor obsolete t entry packs pack) p d
add_descriptor_keeps obsolete t entry packs none p d h = h
add_descriptor_keeps obsolete t entry packs (some q) p d (ds, r, m) =
    elim (Bool-cases (is_obsolete obsolete q)) [
      | inl old ↦ rw old (ds, r, m)
      | inr kept ↦
          let v = list_at (Maps.get packs q) ++ (descriptor t entry ∷ []) in
          rw kept (elim (beq-cases q p) [
            | inl (same, hit) ↦
                let found : Maps.get packs q ≡ some ds = ap (Maps.get packs) same ∙ r in
                (
                  v,
                  get-put packs q p v ∙ ap (λ b. if b then some v else Maps.get packs p) hit,
                  Memᴰ.append_left (descriptor t entry ∷ [])
                      (subst (λ o. Memᴰ d (list_at o)) (sym found) m),
                )
            | inr (other, miss) ↦ (
              ds,
              get-put packs q p v ∙ ap (λ b. if b then some v else Maps.get packs p) miss ∙ r,
              m,
            )
          ])
    ]

add_descriptor_adds :
    (obsolete : Option (List ContentId)) (t : BlobType) (entry : Entry) (packs : PackMap)
    (p : ContentId)
    → is_obsolete obsolete p ≡ false
    → HasDescriptor (add_descriptor obsolete t entry packs (some p)) p (descriptor t entry)
add_descriptor_adds obsolete t entry packs p kept =
    let v = list_at (Maps.get packs p) ++ (descriptor t entry ∷ []) in
    let hit : list_eq.beq p p ≡ true = beq_refl p in
    rw kept (
      v,
      get-put packs p p v ∙ ap (λ b. if b then some v else Maps.get packs p) hit,
      Memᴰ.append_right (list_at (Maps.get packs p)) (Memᴰ.head refl),
    )

pub process_map_keeps :
    (obsolete : Option (List ContentId)) (pack_ids : IndexSet.IndexSet ContentId) (t : BlobType)
    (entries : List Entry) (packs : PackMap)
    → t ≢ padding
    → AllPlain packs
    → AllPlain (process_map obsolete pack_ids t entries packs)
      × ((p : ContentId) (d : PackedBlobDescriptor)
          → HasDescriptor packs p d
          → HasDescriptor (process_map obsolete pack_ids t entries packs) p d)
process_map_keeps obsolete pack_ids t [] packs typed h = (h, λ p d q. q)
process_map_keeps obsolete pack_ids t (entry ∷ entries) packs typed h =
    let pack = IndexSet.get_value pack_ids entry.1.pack_array_index in
    let rest =
      process_map_keeps obsolete pack_ids t entries (add_descriptor obsolete t entry packs pack)
        typed (add_descriptor-AllPlain obsolete t entry packs pack typed h) in
    (rest.0, λ p d q. rest.1 p d (add_descriptor_keeps obsolete t entry packs pack p d q))

pub process_map_adds :
    (obsolete : Option (List ContentId)) (pack_ids : IndexSet.IndexSet ContentId) (t : BlobType)
    (entries : List Entry) (packs : PackMap) (entry : Entry) (p : ContentId)
    → t ≢ padding
    → AllPlain packs
    → Memᴰ entry entries
    → IndexSet.get_value pack_ids entry.1.pack_array_index ≡ some p
    → is_obsolete obsolete p ≡ false
    → HasDescriptor (process_map obsolete pack_ids t entries packs) p (descriptor t entry)
process_map_adds obsolete pack_ids t [] packs entry p typed h m known kept = absurd (Memᴰ.not-nil m)
process_map_adds obsolete pack_ids t (x ∷ entries) packs entry p typed h m known kept =
    let pack = IndexSet.get_value pack_ids x.1.pack_array_index in
    let h' = add_descriptor-AllPlain obsolete t x packs pack typed h in
    elim (Memᴰ.cases_cons m) [
      | inr later ↦
          process_map_adds obsolete pack_ids t entries (add_descriptor obsolete t x packs pack)
            entry p typed h' later known kept
      | inl here ↦
          let at : pack ≡ some p =
            ap (λ (y : Entry). IndexSet.get_value pack_ids y.1.pack_array_index) (sym here)
            ∙ known in
          let added =
            subst (λ o. HasDescriptor (add_descriptor obsolete t x packs o) p (descriptor t entry))
              (sym at)
              (subst
                (λ y. HasDescriptor (add_descriptor obsolete t x packs (some p)) p (descriptor t y))
                (sym here) (add_descriptor_adds obsolete t x packs p kept)) in
          (process_map_keeps obsolete pack_ids t entries (add_descriptor obsolete t x packs pack)
              typed h').1
            p (descriptor t entry) added
    ]
