-- ===== src/Bundle.antt =====
-- crates/mapache/src/bundle/format.rs: the header, the trailer and the index of a bundle file.
pub mod RoundTrip
mod Tests
use mapache.Prelude.{
  ℕ, zero, suc, ◌+◌, ◌%◌, ◌^◌, List, [], ◌∷◌, ◌++◌, Result, ok, err, ◌>>=◌, panicked, ltb,
  if◌then◌else◌, length, take, drop,
}
use mapache.Common.{ContentId, BlobType, to_u8, try_from}
use mapache.Binary.{
  put_bytes, put_u8, put_u16, put_u32, put_u64, get_array, get_u8, get_u16, get_u32, get_u64,
}

pub record BundleHeader : Type 0 where
  pub magic : List ℕ
  pub version : ℕ
  pub salt : List ℕ
  pub argon2_t : ℕ
  pub argon2_m : ℕ
  pub argon2_p : ℕ

pub record BundleTrailer : Type 0 where
  pub root_tree : ContentId
  pub index_offset : ℕ
  pub index_len : ℕ
  pub manifest_offset : ℕ
  pub manifest_len : ℕ
  pub magic_end : List ℕ

pub record BundleIndexEntry : Type 0 where
  pub id : ContentId
  pub blob_type : BlobType
  pub offset : ℕ
  pub length : ℕ
  pub raw_length : ℕ

abbrev pub bundle_magic_len : ℕ
bundle_magic_len = 12

abbrev pub bundle_salt_len : ℕ
bundle_salt_len = 32

-- `BundleIndexEntry::BINARY_SIZE`
abbrev pub binary_size : ℕ
binary_size = 32 + 1 + 8 + 4 + 4

unfoldable pub header_to_binary : BundleHeader → List ℕ
unfolding put_bytes put_u16 put_u32
header_to_binary h =
    let buf = put_bytes (put_u16 (put_bytes [] h.magic) h.version) h.salt in
    put_u32 (put_u32 (put_u32 buf h.argon2_t) h.argon2_m) h.argon2_p

unfoldable pub header_from_binary : List ℕ → Result BundleHeader
header_from_binary bytes = do
  (magic, cur1) ← get_array bundle_magic_len bytes
  (version, cur2) ← get_u16 cur1
  (salt, cur3) ← get_array bundle_salt_len cur2
  (argon2_t, cur4) ← get_u32 cur3
  (argon2_m, cur5) ← get_u32 cur4
  (argon2_p, cur6) ← get_u32 cur5
  ok (record {
    magic = magic;
    version = version;
    salt = salt;
    argon2_t = argon2_t;
    argon2_m = argon2_m;
    argon2_p = argon2_p;
  })

unfoldable pub trailer_to_binary : BundleTrailer → List ℕ
unfolding put_bytes put_u32 put_u64
trailer_to_binary t =
    let buf = put_u32 (put_u64 (put_bytes [] t.root_tree) t.index_offset) t.index_len in
    put_bytes (put_u32 (put_u64 buf t.manifest_offset) t.manifest_len) t.magic_end

unfoldable pub trailer_from_binary : List ℕ → Result BundleTrailer
trailer_from_binary bytes = do
  (root_tree, cur1) ← get_array 32 bytes
  (index_offset, cur2) ← get_u64 cur1
  (index_len, cur3) ← get_u32 cur2
  (manifest_offset, cur4) ← get_u64 cur3
  (manifest_len, cur5) ← get_u32 cur4
  (magic_end, cur6) ← get_array bundle_magic_len cur5
  ok (record {
    root_tree = root_tree;
    index_offset = index_offset;
    index_len = index_len;
    manifest_offset = manifest_offset;
    manifest_len = manifest_len;
    magic_end = magic_end;
  })

unfoldable pub entry_to_binary : BundleIndexEntry → List ℕ
unfolding put_bytes put_u8 put_u32 put_u64
entry_to_binary e =
    let buf = put_u8 (put_bytes [] e.id) (to_u8 e.blob_type) in
    put_u32 (put_u32 (put_u64 buf e.offset) e.length) e.raw_length

unfoldable pub entry_from_binary : List ℕ → Result BundleIndexEntry
entry_from_binary bytes = do
  (id, cur1) ← get_array 32 bytes
  (type_byte, cur2) ← get_u8 cur1
  blob_type ← try_from type_byte
  (offset, cur3) ← get_u64 cur2
  (len, cur4) ← get_u32 cur3
  (raw_length, cur5) ← get_u32 cur4
  ok (record {
    id = id;
    blob_type = blob_type;
    offset = offset;
    length = len;
    raw_length = raw_length;
  })

unfoldable pub put_entries : List ℕ → List BundleIndexEntry → List ℕ
put_entries buf [] = buf
put_entries buf (e ∷ es) = put_entries (buf ++ entry_to_binary e) es

-- `BundleIndex::to_binary`
unfoldable pub index_to_binary : List BundleIndexEntry → List ℕ
unfolding put_u64
index_to_binary entries = put_entries (put_u64 [] (length entries)) entries

-- The slices `&cur[..BINARY_SIZE]` panic where the input is too short.
unfoldable pub get_entries : ℕ → List ℕ → Result (List BundleIndexEntry)
get_entries zero cur = ok []
get_entries (suc n) cur =
    let rest = get_entries n (drop binary_size cur) in
    if ltb (length cur) binary_size
    then err panicked
    else do entry ← entry_from_binary (take binary_size cur); entries ← rest; ok (entry ∷ entries)

-- `BundleIndex::from_binary`
unfoldable pub index_from_binary : List ℕ → Result (List BundleIndexEntry)
index_from_binary bytes = do (len, cur) ← get_u64 bytes; get_entries len cur
