-- ===== src/Index/Merge/Gathered.antt =====
-- The packs gathered from several indices keep every blob that is put into them
-- (crates/mapache/src/repository/index.rs, merge_index).
use mathlib.Core.List.Memᴰ
use mapache.Prelude.{
  ◌≡◌, refl, sym, ap, subst, ◌∙◌, ◌⊎◌, inl, inr, true, List, [], ◌∷◌, Memᴰ, some, if◌then◌else◌,
  list_eq, nat_eq, beq-cases,
}
use mapache.Prelude.Order.{list_order, nat_order}
use mapache.Prelude.Search.{sort_by_key, Memᴰ-sort_by_key}
use mapache.Common.{ContentId}
use mapache.Collections.Maps as Maps
use mapache.Collections.Maps.{get-put, Memᴰ-of_get, Memᴰ-erase}
use mapache.Packer.{PackedBlobDescriptor}
use mapache.Index.Merge.{PackMap, BlobsOfPack, blobs_or_none, put_all, put_packs, pack_key}
use mapache.Index.Merge.Rebuild.{InPacks}
use mapache.Index.Merge.Gather.{IsPlainBlob, AllPlain}

-- A pack's blobs have one of the ID.
abbrev HasBlob : BlobsOfPack → ContentId → Type 0
HasBlob blobs k =
    (d : PackedBlobDescriptor) × (Maps.get blobs k ≡ some d) × IsPlainBlob d × (d.id ≡ k)

put-HasBlob :
    (blobs : BlobsOfPack) (d : PackedBlobDescriptor) (k : ContentId)
    → IsPlainBlob d
    → HasBlob blobs k ⊎ (d.id ≡ k)
    → HasBlob (Maps.put blobs d.id d) k
put-HasBlob blobs d k plain c = elim (beq-cases d.id k) [
  | inl (same, hit) ↦ (
    d,
    get-put blobs d.id k d ∙ ap (λ b. if b then some d else Maps.get blobs k) hit,
    plain,
    same,
  )
  | inr (other, miss) ↦ elim c [
    | inl (x, q, p, i) ↦ (
      x,
      get-put blobs d.id k d ∙ ap (λ b. if b then some d else Maps.get blobs k) miss ∙ q,
      p,
      i,
    )
    | inr same ↦ absurd (other same)
  ]
]

put_all_keeps :
    (blobs : BlobsOfPack) (ds : List PackedBlobDescriptor) (k : ContentId)
    → ((d : PackedBlobDescriptor) → Memᴰ d ds → IsPlainBlob d)
    → HasBlob blobs k
    → HasBlob (put_all blobs ds) k
put_all_keeps blobs [] k plain h = h
put_all_keeps blobs (x ∷ ds) k plain h =
    put_all_keeps (Maps.put blobs x.id x) ds k (λ d m. plain d (Memᴰ.tail m))
      (put-HasBlob blobs x k (plain x (Memᴰ.head refl)) (inl h))

put_all_adds :
    (blobs : BlobsOfPack) (ds : List PackedBlobDescriptor) (d : PackedBlobDescriptor)
    → ((d : PackedBlobDescriptor) → Memᴰ d ds → IsPlainBlob d)
    → Memᴰ d ds
    → HasBlob (put_all blobs ds) d.id
put_all_adds blobs [] d plain m = absurd (Memᴰ.not-nil m)
put_all_adds blobs (x ∷ ds) d plain m = elim (Memᴰ.cases_cons m) [
  | inr later ↦ put_all_adds (Maps.put blobs x.id x) ds d (λ d m. plain d (Memᴰ.tail m)) later
  | inl here ↦
      put_all_keeps (Maps.put blobs x.id x) ds d.id (λ d m. plain d (Memᴰ.tail m))
        (put-HasBlob blobs x d.id (plain x (Memᴰ.head refl))
          (inr (ap (λ (y : PackedBlobDescriptor). y.id) (sym here))))
]

-- The gathered packs have a blob of the ID.
abbrev pub Gathered : List (ContentId × BlobsOfPack) → ContentId → ContentId → Type 0
Gathered acc p k = (blobs : BlobsOfPack) × (Maps.get acc p ≡ some blobs) × HasBlob blobs k

one_pack_keeps :
    (acc : List (ContentId × BlobsOfPack)) (q p : ContentId) (ds : List PackedBlobDescriptor)
    (k : ContentId)
    → ((d : PackedBlobDescriptor) → Memᴰ d ds → IsPlainBlob d)
    → Gathered acc p k
    → Gathered (Maps.put acc q (put_all (blobs_or_none (Maps.get acc q)) ds)) p k
one_pack_keeps acc q p ds k plain (blobs, r, h) =
    let v = put_all (blobs_or_none (Maps.get acc q)) ds in
    elim (beq-cases q p) [
      | inl (same, hit) ↦
          let found : Maps.get acc q ≡ some blobs = ap (Maps.get acc) same ∙ r in
          (
            v,
            get-put acc q p v ∙ ap (λ b. if b then some v else Maps.get acc p) hit,
            put_all_keeps (blobs_or_none (Maps.get acc q)) ds k plain
                (subst (λ o. HasBlob (blobs_or_none o) k) (sym found) h),
          )
      | inr (other, miss) ↦
          (blobs, get-put acc q p v ∙ ap (λ b. if b then some v else Maps.get acc p) miss ∙ r, h)
    ]

pub put_packs_keeps :
    (acc : List (ContentId × BlobsOfPack)) (packs : PackMap) (p k : ContentId)
    → AllPlain packs
    → Gathered acc p k
    → Gathered (put_packs acc packs) p k
put_packs_keeps acc [] p k plain h = h
put_packs_keeps acc ((q, ds) ∷ packs) p k plain h =
    put_packs_keeps (Maps.put acc q (put_all (blobs_or_none (Maps.get acc q)) ds)) packs p k
      (λ p' ds' d m m'. plain p' ds' d (Memᴰ.tail m) m')
      (one_pack_keeps acc q p ds k (λ d m. plain q ds d (Memᴰ.head refl) m) h)

pub put_packs_adds :
    (acc : List (ContentId × BlobsOfPack)) (packs : PackMap) (p : ContentId)
    (ds : List PackedBlobDescriptor) (d : PackedBlobDescriptor)
    → AllPlain packs
    → Memᴰ (p, ds) packs
    → Memᴰ d ds
    → Gathered (put_packs acc packs) p d.id
put_packs_adds acc [] p ds d plain m m' = absurd (Memᴰ.not-nil m)
put_packs_adds acc ((q, xs) ∷ packs) p ds d plain m m' =
    let v = put_all (blobs_or_none (Maps.get acc q)) xs in
    let plain' : AllPlain packs = λ p' ds' d m m'. plain p' ds' d (Memᴰ.tail m) m' in
    elim (Memᴰ.cases_cons m) [
      | inr later ↦ put_packs_adds (Maps.put acc q v) packs p ds d plain' later m'
      | inl here ↦
          let hit : list_eq.beq q p ≡ true = (list_eq.beq_iff q p).1 (ap (λ x. x.0) (sym here)) in
          put_packs_keeps (Maps.put acc q v) packs p d.id plain' (
            v,
            get-put acc q p v ∙ ap (λ b. if b then some v else Maps.get acc p) hit,
            put_all_adds (blobs_or_none (Maps.get acc q)) xs d
                (λ d m. plain q xs d (Memᴰ.head refl) m) (subst (Memᴰ d) (ap (λ x. x.1) here) m'),
          )
    ]

pub Gathered-InPacks :
    (all : List (ContentId × BlobsOfPack)) (p k : ContentId)
    → Gathered all p k
    → InPacks (sort_by_key pack_key all) k
Gathered-InPacks all p k (blobs, found, (d, q, plain, of_id)) = record {
  pack = (p, blobs);
  blob = d;
  in_packs = (Memᴰ-sort_by_key pack_key (p, blobs) all).1 (Memᴰ-of_get all p found);
  in_pack = Memᴰ.map (λ entry. entry.1) (Memᴰ-of_get blobs k q);
  plain = plain;
  of_id = of_id;
}
