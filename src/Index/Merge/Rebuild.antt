-- ===== src/Index/Merge/Rebuild.antt =====
-- The new indices of `merge_index` have every blob of the packs (crates/mapache/src/repository/index.rs).
use mathlib.Core.List.Memᴰ
use mapache.Prelude.{
  ℕ, suc, ◌+◌, ◌^◌, ◌<◌, ◌≤◌, ◌≡◌, ◌≢◌, refl, sym, ap, subst, ◌∙◌, ◌⊎◌, inl, inr, Bool, true, false,
  List, [], ◌∷◌, Memᴰ, Option, none, some, if◌then◌else◌, or_else, is_some, length, list_eq, nat_eq,
  Bool-cases, Option-cases, true-ne-false, arith,
}
use mapache.Prelude.Order.{list_order, nat_order}
use mapache.Prelude.Search.{sort_by_key, Memᴰ-sort_by_key}
use mapache.Common.{ContentId, BlobType, data_blob, tree_blob, padding}
use mapache.Collections.IndexSet as IndexSet
use mapache.Collections.DedupFilter.{DedupFilter}
use mapache.Packer.{PackedBlobDescriptor}
use mapache.Index.BlobMap as BlobMap
use mapache.Index.BlobMap.Lookup.{contains-get, get-Memᴰ}
use mapache.Index.State.{Index, new, contains, add_pack, is_empty, is_full}
use mapache.Index.AddPack.{AllMutable, last_blob, same_type}
use mapache.Index.Validity.{IsValid, add_pack-AllMutable, add_pack-IsValid, pack_ids-add_pack}
use mapache.Index.File.Entries.{same_type_refl}
use mapache.Index.File.Load.{insert-length}
use mapache.Index.Master.{any_contains}
use mapache.Index.Master.Known.{packed}
use mapache.Index.Master.Enter.{contains-add_pack}
use mapache.Index.Master.Opened.{new-IsReady}
use mapache.Index.Merge.{BlobsOfPack, rebuild, values_of, blob_offset}

is_some-last_blob :
    (t : BlobType) (descriptors : List PackedBlobDescriptor) (k : ContentId)
    (d : PackedBlobDescriptor)
    → Memᴰ d descriptors
    → d.blob_type ≡ t
    → d.id ≡ k
    → is_some (last_blob t descriptors k) ≡ true
is_some-last_blob t [] k d m typed of_id = absurd (Memᴰ.not-nil m)
is_some-last_blob t (blob ∷ descriptors) k d m typed of_id = elim (Memᴰ.cases_cons m) [
  | inl here ↦
      let q : same_type blob.blob_type t ≡ true =
        ap (λ (x : PackedBlobDescriptor). same_type x.blob_type t) (sym here)
        ∙ ap (λ u. same_type u t) typed
        ∙ same_type_refl t in
      let r : list_eq.beq blob.id k ≡ true =
        (list_eq.beq_iff blob.id k).1
          (ap (λ (x : PackedBlobDescriptor). x.id) (sym here) ∙ of_id) in
      rw (q, r) (last_some (last_blob t descriptors k))
  | inr later ↦
      first_some (last_blob t descriptors k) _
        (is_some-last_blob t descriptors k d later typed of_id)
]
  where
    last_some : (o : Option PackedBlobDescriptor) → is_some (or_else o (some blob)) ≡ true
    last_some none = refl
    last_some (some x) = refl

    first_some :
        (o other : Option PackedBlobDescriptor)
        → is_some o ≡ true
        → is_some (or_else o other) ≡ true
    first_some none other q = absurd (true-ne-false (sym q))
    first_some (some x) other q = refl

packed-Memᴰ :
    (descriptors : List PackedBlobDescriptor) (d : PackedBlobDescriptor)
    → Memᴰ d descriptors
    → d.blob_type ≢ padding
    → packed descriptors d.id ≡ true
packed-Memᴰ descriptors d m plain = by_type d.blob_type refl plain
  where
    or_true : (p : Bool) → (if p then true else true) ≡ true
    or_true true = refl
    or_true false = refl

    by_type : (t : BlobType) → d.blob_type ≡ t → t ≢ padding → packed descriptors d.id ≡ true
    by_type data_blob q p = rw (is_some-last_blob data_blob descriptors d.id d m q refl) refl
    by_type tree_blob q p =
        rw (is_some-last_blob tree_blob descriptors d.id d m q refl)
          (or_true (is_some (last_blob data_blob descriptors d.id)))
    by_type padding q p = absurd (p refl)

-- A blob of the packs.
pub record InPacks (packs : List (ContentId × BlobsOfPack)) (k : ContentId) : Type 0 where
  pub pack : ContentId × BlobsOfPack
  pub blob : PackedBlobDescriptor
  pub in_packs : Memᴰ pack packs
  pub in_pack : Memᴰ blob (values_of pack.1)
  pub plain : blob.blob_type ≢ padding
  pub of_id : blob.id ≡ k

module _ {F : Type 0} ⦃filter : DedupFilter F⦄ where
  -- An index with a blob is not empty.
  is_empty-contains : (idx : Index F) (k : ContentId) → contains idx k ≡ true → is_empty idx ≡ false
  is_empty-contains idx k h = elim (Bool-cases (BlobMap.contains idx.data_ids k)) [
    | inl q ↦ let low = len_pos idx.data_ids k q in ground (arith, low)
    | inr q ↦
        let h' : BlobMap.contains idx.tree_ids k ≡ true =
          subst (λ t. (if t then true else BlobMap.contains idx.tree_ids k) ≡ true) q h in
        let low = len_pos idx.tree_ids k h' in ground (arith, low)
  ]
    where
      some_member :
          (entries : List BlobMap.Entry) {entry : BlobMap.Entry}
          → Memᴰ entry entries
          → 0 < length entries
      some_member [] m = absurd (Memᴰ.not-nil m)
      some_member (x ∷ xs) m = omega arith

      by_get :
          (m : BlobMap.BlobMap F) (k : ContentId)
          → (BlobMap.get m k ≡ none)
            ⊎ ((l : BlobMap.BlobLocationInternal) × (BlobMap.get m k ≡ some l))
          → BlobMap.contains m k ≡ true
          → 0 < BlobMap.len m
      by_get m k (inl q) h = absurd (true-ne-false (sym h ∙ contains-get m k ∙ ap is_some q))
      by_get m k (inr (l, q)) h = some_member (BlobMap.iter m) (get-Memᴰ m k q)

      len_pos :
          (m : BlobMap.BlobMap F) (k : ContentId) → BlobMap.contains m k ≡ true → 0 < BlobMap.len m
      len_pos m k h = by_get m k (Option-cases (BlobMap.get m k)) h

  -- The index that is filled, and room for the packs to come.
  abbrev pub IsFillable : Index F → ℕ → Type 0
  IsFillable idx more = AllMutable idx × IsValid idx × (length idx.pack_ids.values + more ≤ 2 ^ 32)

  pub filled-IsFillable :
      (idx : Index F) (pack_id : ContentId) (descriptors : List PackedBlobDescriptor) (more : ℕ)
      → IsFillable idx (suc more)
      → IsFillable (add_pack idx pack_id descriptors) more
  filled-IsFillable idx pack_id descriptors more (open_maps, valid, room) =
      let room' : length idx.pack_ids.values < 2 ^ 32 = omega (arith, room) in
      let packs = pack_ids-add_pack idx pack_id descriptors in
      let same = ap (λ (s : IndexSet.IndexSet ContentId). length s.values) packs in
      (
        add_pack-AllMutable idx pack_id descriptors open_maps,
        add_pack-IsValid idx pack_id descriptors open_maps valid room',
        omega (arith, room, same, insert-length idx.pack_ids pack_id),
      )

  -- A blob of the index that is filled, or of a pack to come, stands in a new index.
  pub any_contains-rebuild :
      (limit next_instance_id : ℕ) (packs : List (ContentId × BlobsOfPack))
      (current_index : Index F) (k : ContentId)
      → IsFillable current_index (length packs)
      → length packs ≤ 2 ^ 32
      → (contains current_index k ≡ true) ⊎ InPacks packs k
      → any_contains (rebuild limit next_instance_id packs current_index) k ≡ true
  any_contains-rebuild limit next_instance_id [] current_index k fit short (inl there) =
      rw (is_empty-contains current_index k there, there) refl
  any_contains-rebuild limit next_instance_id [] current_index k fit short (inr b) =
      absurd (Memᴰ.not-nil b.in_packs)
  any_contains-rebuild limit next_instance_id ((pack_id, blobs) ∷ packs) current_index k fit short
        c =
      let descriptors = sort_by_key blob_offset (values_of blobs) in
      let filled = add_pack current_index pack_id descriptors in
      let fit' = filled-IsFillable current_index pack_id descriptors (length packs) fit in
      let room : length current_index.pack_ids.values < 2 ^ 32 = omega (arith, fit.2) in
      let now = contains-add_pack current_index pack_id descriptors k fit.0 fit.1 room in
      let next = in_filled now c in
      elim (Bool-cases (is_full limit filled)) [
        | inr more ↦ rw more (
            any_contains-rebuild limit next_instance_id packs filled k fit' (omega (arith, short))
              next)
        | inl full ↦ rw full (elim next [
          | inl there ↦ rw there refl
          | inr b ↦ or_true (contains filled k) (
              any_contains-rebuild limit (suc next_instance_id) packs (new next_instance_id) k
                ((tt, tt), (new-IsReady F next_instance_id).0, omega (arith, short))
                (omega (arith, short)) (inr b))
        ])
      ]
    where
      or_true : (p : Bool) {q : Bool} → q ≡ true → (if p then true else q) ≡ true
      or_true true h = refl
      or_true false h = h

      in_filled :
          contains (add_pack current_index pack_id (sort_by_key blob_offset (values_of blobs))) k
            ≡ (if packed (sort_by_key blob_offset (values_of blobs)) k
                then true
                else contains current_index k)
          → (contains current_index k ≡ true) ⊎ InPacks ((pack_id, blobs) ∷ packs) k
          → (contains (add_pack current_index pack_id (sort_by_key blob_offset (values_of blobs))) k
              ≡ true)
            ⊎ InPacks packs k
      in_filled now (inl there) =
          inl (now ∙ or_true (packed (sort_by_key blob_offset (values_of blobs)) k) there)
      in_filled now (inr b) = elim (Memᴰ.cases_cons b.in_packs) [
        | inr later ↦ inr (record {
          pack = b.pack;
          blob = b.blob;
          in_packs = later;
          in_pack = b.in_pack;
          plain = b.plain;
          of_id = b.of_id;
        })
        | inl here ↦
            let m =
              subst (λ (x : ContentId × BlobsOfPack). Memᴰ b.blob (values_of x.1)) here b.in_pack in
            let m' = (Memᴰ-sort_by_key blob_offset b.blob (values_of blobs)).1 m in
            let q : packed (sort_by_key blob_offset (values_of blobs)) k ≡ true =
              ap (packed (sort_by_key blob_offset (values_of blobs))) (sym b.of_id)
              ∙ packed-Memᴰ (sort_by_key blob_offset (values_of blobs)) b.blob m' b.plain in
            inl (now ∙ ap (λ t. if t then true else contains current_index k) q)
      ]
