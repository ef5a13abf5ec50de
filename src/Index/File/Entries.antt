-- ===== src/Index/File/Entries.antt =====
-- The entries that a pack of an index file gives (crates/mapache/src/repository/index.rs).
use mathlib.Core.List.Memᴰ
use mapache.Prelude.{
  ℕ, ◌≡◌, ◌≢◌, refl, sym, ap, subst, ◌∙◌, ◌⊎◌, inl, inr, true, false, List, [], ◌∷◌, ◌++◌, Memᴰ,
  if◌then◌else◌, list_eq, nat_eq, Bool-cases, true-ne-false, append_assoc, append-nil,
}
use mapache.Prelude.Order.{list_order, nat_order}
use mapache.Common.{ContentId, BlobType, data_blob, tree_blob, padding}
use mapache.Index.BlobMap.{BlobLocationInternal, Entry}
use mapache.Index.State.{BlobLocator}
use mapache.Index.AddPack.{same_type}
use mapache.Index.File.{IndexFilePack, IndexFileBlob, file_location, push_entry, load_blobs}

abbrev pub file_locator : ContentId → IndexFileBlob → BlobLocator
file_locator pack_id blob = record {
  pack_id = pack_id;
  offset = blob.offset;
  length = blob.length;
  raw_length = blob.raw_length;
  blob_type = blob.blob_type;
}

-- The packs of a file have a blob of the ID, at the locator.
pub record Written (packs : List IndexFilePack) (t : BlobType) (k : ContentId) (l : BlobLocator)
    : Type 0 where
  pub pack : IndexFilePack
  pub blob : IndexFileBlob
  pub in_file : Memᴰ pack packs
  pub in_pack : Memᴰ blob pack.blobs
  pub typed : blob.blob_type ≡ t
  pub of_id : blob.id ≡ k
  pub at : l ≡ file_locator pack.id blob

abbrev pub pick : BlobType → List Entry × List Entry → List Entry
pick data_blob entries = entries.0
pick tree_blob entries = entries.1
pick padding entries = []

-- The entries of a type that a pack gives.
abbrev pub new_entries : ℕ → BlobType → List IndexFileBlob → List Entry
new_entries i t [] = []
new_entries i t (blob ∷ blobs) =
    if same_type blob.blob_type t
    then (blob.id, file_location i blob) ∷ new_entries i t blobs
    else new_entries i t blobs

pub same_type_refl : (t : BlobType) → same_type t t ≡ true
same_type_refl data_blob = refl
same_type_refl tree_blob = refl
same_type_refl padding = refl

same_type_iff : (t u : BlobType) → same_type t u ≡ true → t ≡ u
same_type_iff data_blob data_blob h = refl
same_type_iff data_blob tree_blob h = absurd (true-ne-false (sym h))
same_type_iff data_blob padding h = absurd (true-ne-false (sym h))
same_type_iff tree_blob data_blob h = absurd (true-ne-false (sym h))
same_type_iff tree_blob tree_blob h = refl
same_type_iff tree_blob padding h = absurd (true-ne-false (sym h))
same_type_iff padding data_blob h = absurd (true-ne-false (sym h))
same_type_iff padding tree_blob h = absurd (true-ne-false (sym h))
same_type_iff padding padding h = refl

pick-push_entry :
    (i : ℕ) (blob : IndexFileBlob) (u t : BlobType) (entries : List Entry × List Entry)
    → t ≢ padding
    → pick t (push_entry i blob u entries)
      ≡ pick t entries ++ (if same_type u t then (blob.id, file_location i blob) ∷ [] else [])
pick-push_entry i blob u padding entries typed = absurd (typed refl)
pick-push_entry i blob data_blob data_blob entries typed = refl
pick-push_entry i blob tree_blob data_blob entries typed = sym (append-nil entries.0)
pick-push_entry i blob padding data_blob entries typed = sym (append-nil entries.0)
pick-push_entry i blob data_blob tree_blob entries typed = sym (append-nil entries.1)
pick-push_entry i blob tree_blob tree_blob entries typed = refl
pick-push_entry i blob padding tree_blob entries typed = sym (append-nil entries.1)

pub pick-load_blobs :
    (i : ℕ) (blobs : List IndexFileBlob) (t : BlobType) (entries : List Entry × List Entry)
    → t ≢ padding
    → pick t (load_blobs i blobs entries) ≡ pick t entries ++ new_entries i t blobs
pick-load_blobs i [] t entries typed = sym (append-nil (pick t entries))
pick-load_blobs i (blob ∷ blobs) t entries typed =
    pick-load_blobs i blobs t (push_entry i blob blob.blob_type entries) typed
    ∙ ap (λ xs. xs ++ new_entries i t blobs) (pick-push_entry i blob blob.blob_type t entries typed)
    ∙ by_type (Bool-cases (same_type blob.blob_type t))
  where
    by_type :
        (same_type blob.blob_type t ≡ true) ⊎ (same_type blob.blob_type t ≡ false)
        → (pick t entries
              ++ (if same_type blob.blob_type t then (blob.id, file_location i blob) ∷ [] else []))
            ++ new_entries i t blobs
          ≡ pick t entries
            ++ (if same_type blob.blob_type t
                then (blob.id, file_location i blob) ∷ new_entries i t blobs
                else new_entries i t blobs)
    by_type (inl q) = rw q (
        append_assoc (pick t entries) ((blob.id, file_location i blob) ∷ [])
          (new_entries i t blobs))
    by_type (inr q) = rw q (ap (λ xs. xs ++ new_entries i t blobs) (append-nil (pick t entries)))

-- An entry that a pack gives is one of its blobs, and every blob gives one.
pub Memᴰ-new_entries :
    (i : ℕ) (t : BlobType) (blobs : List IndexFileBlob) (k : ContentId) (loc : BlobLocationInternal)
    → Memᴰ (k, loc) (new_entries i t blobs)
    → (blob : IndexFileBlob) × Memᴰ blob blobs
      × (blob.blob_type ≡ t)
      × (blob.id ≡ k)
      × (loc ≡ file_location i blob)
Memᴰ-new_entries i t [] k loc m = absurd (Memᴰ.not-nil m)
Memᴰ-new_entries i t (blob ∷ blobs) k loc m = elim (Bool-cases (same_type blob.blob_type t)) [
  | inl q ↦
      let m' =
        subst
          (λ b.
            Memᴰ (k, loc)
              (if b
                then (blob.id, file_location i blob) ∷ new_entries i t blobs
                else new_entries i t blobs))
          q m in
      elim (Memᴰ.cases_cons m') [
        | inl here ↦ (
          blob,
          Memᴰ.head refl,
          same_type_iff blob.blob_type t q,
          ap (λ e. e.0) (sym here),
          ap (λ e. e.1) here,
        )
        | inr later ↦
            let r = Memᴰ-new_entries i t blobs k loc later in (r.0, Memᴰ.tail r.1, r.2, r.3, r.4)
      ]
  | inr q ↦
      let m' =
        subst
          (λ b.
            Memᴰ (k, loc)
              (if b
                then (blob.id, file_location i blob) ∷ new_entries i t blobs
                else new_entries i t blobs))
          q m in
      let r = Memᴰ-new_entries i t blobs k loc m' in (r.0, Memᴰ.tail r.1, r.2, r.3, r.4)
]

pub new_entries-Memᴰ :
    (i : ℕ) (t : BlobType) (blobs : List IndexFileBlob) (blob : IndexFileBlob)
    → Memᴰ blob blobs
    → blob.blob_type ≡ t
    → Memᴰ (blob.id, file_location i blob) (new_entries i t blobs)
new_entries-Memᴰ i t [] blob m typed = absurd (Memᴰ.not-nil m)
new_entries-Memᴰ i t (b ∷ blobs) blob m typed = elim (Memᴰ.cases_cons m) [
  | inl here ↦
      let q : same_type b.blob_type t ≡ true =
        ap (λ (x : IndexFileBlob). same_type x.blob_type t) (sym here)
        ∙ ap (λ u. same_type u t) typed
        ∙ same_type_refl t in
      rw q (Memᴰ.head (ap (λ (x : IndexFileBlob). (x.id, file_location i x)) here))
  | inr later ↦ elim (Bool-cases (same_type b.blob_type t)) [
    | inl q ↦ rw q (Memᴰ.tail (new_entries-Memᴰ i t blobs blob later typed))
    | inr q ↦ rw q (new_entries-Memᴰ i t blobs blob later typed)
  ]
]
