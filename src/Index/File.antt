-- ===== src/Index/File.antt =====
-- crates/mapache/src/repository/index.rs: `IndexFile`, and `Index` written to it and read from it. The
-- JSON text and the repository's `save_file` are one parameter, `save_file`.
pub mod Entries
pub mod Load
pub mod Read
pub mod Loaded
pub mod Write
pub mod RoundTrip
use mapache.Prelude.{
  ℕ, zero, suc, ◌+◌, ◌%◌, ◌^◌, Bool, true, false, not, List, [], ◌∷◌, ◌++◌, Result, ok, err, ◌>>=◌,
  panicked, if◌then◌else◌, map, list_eq, nat_eq,
}
use mapache.Prelude.Order.{list_order, nat_order}
use mapache.Prelude.Search.{sort_by_key}
use mapache.Common.{ContentId, BlobType, data_blob, tree_blob, padding}
use mapache.Collections.IndexSet as IndexSet
use mapache.Collections.DedupFilter.{DedupFilter}
use mapache.Index.BlobMap as BlobMap
use mapache.Index.BlobMap.{BlobLocationInternal, Entry}
use mapache.Index.State.{Index, IndexStatus, persisted, finalize, set_status, with_blobs, is_empty}

pub record IndexFileBlob : Type 0 where
  pub id : ContentId
  pub blob_type : BlobType
  pub offset : ℕ
  pub length : ℕ
  pub raw_length : ℕ

pub record IndexFilePack : Type 0 where
  pub id : ContentId
  pub blobs : List IndexFileBlob

pub record IndexFile : Type 0 where
  pub packs : List IndexFilePack

abbrev pub file_blob : BlobType → Entry → IndexFileBlob
file_blob b_type (k, loc) = record {
  id = k;
  blob_type = b_type;
  offset = loc.offset;
  length = loc.length;
  raw_length = loc.raw_length;
}

abbrev pub with_file_blobs : IndexFilePack → List IndexFileBlob → IndexFilePack
with_file_blobs pack blobs = record { id = pack.id; blobs = blobs }

-- `pack_entries[index].blobs.push(blob)`, which panics out of bounds.
abbrev pub push_at : List IndexFilePack → ℕ → IndexFileBlob → Result (List IndexFilePack)
push_at [] index blob = err panicked
push_at (pack ∷ packs) zero blob = ok (with_file_blobs pack (pack.blobs ++ (blob ∷ [])) ∷ packs)
push_at (pack ∷ packs) (suc index) blob = push_at packs index blob >>= λ rest. ok (pack ∷ rest)

-- The closure `add_to_entries`.
abbrev pub add_to_entries : BlobType → List Entry → List IndexFilePack → Result (List IndexFilePack)
add_to_entries b_type [] packs = ok packs
add_to_entries b_type (entry ∷ entries) packs =
    push_at packs entry.1.pack_array_index (file_blob b_type entry)
    >>= add_to_entries b_type entries

abbrev pub blob_id : IndexFileBlob → ContentId
blob_id blob = blob.id

abbrev pub pack_id_of : IndexFilePack → ContentId
pack_id_of pack = pack.id

abbrev pub sort_blobs : IndexFilePack → IndexFilePack
sort_blobs pack = with_file_blobs pack (sort_by_key blob_id pack.blobs)

abbrev pub is_nil : List IndexFileBlob → Bool
is_nil [] = true
is_nil (blob ∷ blobs) = false

-- `retain(|p| !p.blobs.is_empty())`
abbrev pub retain_packs : List IndexFilePack → List IndexFilePack
retain_packs [] = []
retain_packs (pack ∷ packs) =
    if is_nil pack.blobs then retain_packs packs else pack ∷ retain_packs packs

-- `SizePair` of repository/repo.rs.
pub record SizePair : Type 0 where
  pub raw : ℕ
  pub encoded : ℕ

abbrev pub zero_size : SizePair
zero_size = record { raw = 0; encoded = 0 }

abbrev pub add_size : SizePair → SizePair → SizePair
add_size a b = record { raw = a.raw + b.raw; encoded = a.encoded + b.encoded }

abbrev pub file_location : ℕ → IndexFileBlob → BlobLocationInternal
file_location pack_index blob = record {
  pack_array_index = pack_index;
  offset = blob.offset;
  length = blob.length;
  raw_length = blob.raw_length;
}

abbrev pub push_entry :
    ℕ → IndexFileBlob → BlobType → List Entry × List Entry → List Entry × List Entry
push_entry pack_index blob padding entries = entries
push_entry pack_index blob data_blob entries =
    (entries.0 ++ ((blob.id, file_location pack_index blob) ∷ []), entries.1)
push_entry pack_index blob tree_blob entries =
    (entries.0, entries.1 ++ ((blob.id, file_location pack_index blob) ∷ []))

-- The loop over the blobs of a pack.
abbrev pub load_blobs : ℕ → List IndexFileBlob → List Entry × List Entry → List Entry × List Entry
load_blobs pack_index [] entries = entries
load_blobs pack_index (blob ∷ blobs) entries =
    load_blobs pack_index blobs (push_entry pack_index blob blob.blob_type entries)

-- The loop over the packs.
abbrev pub load_packs :
    List IndexFilePack
    → IndexSet.IndexSet ContentId × (List Entry × List Entry)
    → IndexSet.IndexSet ContentId × (List Entry × List Entry)
load_packs [] state = state
load_packs (pack ∷ packs) (pack_ids, entries) =
    let inserted = IndexSet.insert pack_ids pack.id in
    load_packs packs (inserted.1, load_blobs (inserted.0 % 2 ^ 32) pack.blobs entries)

module _ {F : Type 0} ⦃filter : DedupFilter F⦄ where
  -- The first half of `persist`: what is written.
  unfoldable pub index_file : Index F → Result IndexFile
  index_file idx = do
    let pack_entries = map (λ pack_id. record { id = pack_id; blobs = [] }) idx.pack_ids.values
    with_data ← add_to_entries data_blob (BlobMap.iter idx.data_ids) pack_entries
    with_trees ← add_to_entries tree_blob (BlobMap.iter idx.tree_ids) with_data
    ok (record { packs = sort_by_key pack_id_of (retain_packs (map sort_blobs with_trees)) })

  -- An empty index is not written.
  unfoldable pub persist :
      (IndexFile → Result (ContentId × SizePair)) → Index F → Result (Index F × SizePair)
  unfolding index_file
  persist save_file idx = if is_empty idx then ok (finalize idx, zero_size) else do
    file ← index_file (finalize idx)
    (file_id, size) ← save_file file
    ok (
      with_blobs (set_status idx (persisted file_id)) (BlobMap.freeze idx.data_ids)
          (BlobMap.freeze idx.tree_ids),
      size,
    )

  unfoldable pub from_index_file : ℕ → IndexFile → ContentId → Index F
  from_index_file instance_id file file_id =
      let loaded = load_packs file.packs (IndexSet.new, ([], [])) in
      record {
        instance_id = instance_id;
        data_ids = BlobMap.frozen loaded.1.0;
        tree_ids = BlobMap.frozen loaded.1.1;
        pack_ids = loaded.0;
        status = persisted file_id;
      }
