-- ===== src/Packer.antt =====
-- crates/mapache/src/repository/packer.rs: `Packer`, its footer, and the request loop of `PackSaver`.
pub mod Footer
pub mod Pack
pub mod Finalize
pub mod Saver
mod Tests
use mapache.Prelude.{
  ℕ, zero, suc, ◌+◌, ◌-◌, ◌*◌, ◌%◌, ◌^◌, Bool, true, false, List, [], ◌∷◌, ◌++◌, Option, none, some,
  Result, ok, err, MapacheError, ◌>>=◌, format, integrity, panicked, ltb, leb, ◌==◌, if◌then◌else◌,
  length, take, drop,
}
use mapache.Common.{ContentId, BlobType, data_blob, tree_blob, padding, to_u8, try_from}
use mapache.Binary.{
  to_le_bytes, from_le_bytes, put_bytes, put_u8, put_u32, get_array, get_u8, get_u32,
}
use mapache.Storage.{Primitives, SecureStorage, encode, decode}

abbrev pub footer_blob_multiple : ℕ
footer_blob_multiple = 64

pub record PackedBlobDescriptor : Type 0 where
  pub id : ContentId
  pub blob_type : BlobType
  pub offset : ℕ
  pub length : ℕ
  pub raw_length : ℕ

-- `u32::try_from`
unfoldable pub to_u32 : ℕ → Result ℕ
to_u32 n = if ltb n (2 ^ 32) then ok n else err integrity

pub record Packer : Type 0 where
  pub buffer : List ℕ
  pub descriptors : List PackedBlobDescriptor
  pub raw_size : ℕ

abbrev pub empty_packer : Packer
empty_packer = record { buffer = []; descriptors = []; raw_size = 0 }

-- `size`
abbrev pub size : Packer → ℕ
size p = length p.buffer

-- An error is found before the packer is changed.
unfoldable pub add_blob : Packer → ContentId → BlobType → List ℕ → ℕ → Result Packer
unfolding to_u32
add_blob p id blob_type encoded_data raw_size = do
  offset ← to_u32 (length p.buffer)
  len ← to_u32 (length encoded_data)
  raw_length ← to_u32 raw_size
  ok (record {
    buffer = p.buffer ++ encoded_data;
    descriptors =
        p.descriptors
        ++ (record {
          id = id;
          blob_type = blob_type;
          offset = offset;
          length = len;
          raw_length = raw_length;
        }
            ∷ []);
    raw_size = (p.raw_size + raw_size) % 2 ^ 64;
  })

-- One descriptor in the footer: 41 bytes.
unfoldable pub put_descriptor : List ℕ → PackedBlobDescriptor → List ℕ
unfolding put_bytes put_u8 put_u32
put_descriptor footer blob =
    put_u32 (put_u32 (put_u8 (put_bytes footer blob.id) (to_u8 blob.blob_type)) blob.length)
      blob.raw_length

unfoldable pub put_descriptors : List ℕ → List PackedBlobDescriptor → List ℕ
unfolding put_descriptor
put_descriptors footer [] = footer
put_descriptors footer (blob ∷ blobs) = put_descriptors (put_descriptor footer blob) blobs

-- How many padding descriptors `generate_footer` adds.
unfoldable pub num_padding_blobs : ℕ → ℕ
num_padding_blobs n =
    if n % footer_blob_multiple == 0 then 0 else footer_blob_multiple - n % footer_blob_multiple

-- A padding descriptor. `id`, `offset`, `length` and `raw_length` are random.
abbrev pub padding_blob : ContentId × ℕ × ℕ × ℕ → PackedBlobDescriptor
padding_blob (id, offset, len, raw_length) = record {
  id = id;
  blob_type = padding;
  offset = offset;
  length = len;
  raw_length = raw_length;
}

-- What the random generator returns, call by call.
abbrev pub Random : Type 0
Random = ℕ → ContentId × ℕ × ℕ × ℕ

unfoldable pub padding_blobs : Random → ℕ → List PackedBlobDescriptor
padding_blobs rng zero = []
padding_blobs rng (suc n) = padding_blob (rng n) ∷ padding_blobs rng n

-- The descriptors with their padding, and the footer.
unfoldable pub generate_footer :
    Random → List PackedBlobDescriptor → List PackedBlobDescriptor × List ℕ
generate_footer rng descriptors =
    let padded = descriptors ++ padding_blobs rng (num_padding_blobs (length descriptors)) in
    (padded, put_descriptors [] padded)

-- The fields of one entry in the decoded footer, and what stands behind them.
abbrev pub Entry : Type 0
Entry = ContentId × BlobType × ℕ × ℕ × List ℕ

unfoldable pub read_entry : List ℕ → Result Entry
read_entry cur = do
  (id, cur1) ← get_array 32 cur
  (type_byte, cur2) ← get_u8 cur1
  blob_type ← try_from type_byte
  (len, cur3) ← get_u32 cur2
  (raw_length, cur4) ← get_u32 cur3
  ok (id, blob_type, len, raw_length, cur4)

-- An entry that is no padding is kept, and moves the offset, which counts in 32 bits. `next` is the
-- rest of the loop.
unfoldable pub push_entry :
    ContentId
    → BlobType
    → ℕ
    → ℕ
    → ℕ
    → (ℕ → Result (List PackedBlobDescriptor))
    → Result (List PackedBlobDescriptor)
push_entry id padding len raw_length offset next = next offset
push_entry id blob_type len raw_length offset next = do
  rest ← next ((offset + len) % 2 ^ 32)
  ok (
      record {
        id = id;
        blob_type = blob_type;
        offset = offset;
        length = len;
        raw_length = raw_length;
      }
      ∷ rest)

-- The loop of `parse_footer` over the decoded footer. Each round takes 41 bytes, so as many rounds
-- as there are bytes are enough.
unfoldable pub parse_descriptors : ℕ → List ℕ → ℕ → Result (List PackedBlobDescriptor)
unfolding push_entry
parse_descriptors fuel [] offset = ok []
parse_descriptors zero (b ∷ bs) offset = err panicked
parse_descriptors (suc fuel) (b ∷ bs) offset = do
  (id, blob_type, len, raw_length, cur) ← read_entry (b ∷ bs)
  push_entry id blob_type len raw_length offset (parse_descriptors fuel cur)

module _ (prim : Primitives) where
  -- `parse_footer`; `footer_data` ends in the encoded footer and its length.
  unfoldable pub parse_footer : SecureStorage prim → List ℕ → Result (List PackedBlobDescriptor)
  parse_footer storage footer_data =
      let n = length footer_data in
      let encoded_footer_length = from_le_bytes (drop (n - 4) footer_data) in
      if ltb n 4
      then err format
      else if ltb n (encoded_footer_length + 4)
      then err integrity
      else do
        footer_blob_info ←
            decode prim storage
              (take encoded_footer_length (drop (n - encoded_footer_length - 4) footer_data))
        parse_descriptors (length footer_blob_info) footer_blob_info 0

  pub record PackFinalizationResult : Type 0 where
    pub id : ContentId
    pub bytes : List ℕ
    pub descriptors : List PackedBlobDescriptor
    pub raw_size : ℕ
    pub meta_size : ℕ
    pub encoded_size : ℕ

  -- `finalize_and_extract`, with the hash of `ID::from_content`. The descriptors are taken out before
  -- the footer is encoded, and stay out if that fails.
  finish_pack :
      (List ℕ → ContentId)
      → Packer
      → List PackedBlobDescriptor
      → Result (List ℕ)
      → Result (Option PackFinalizationResult) × Packer
  finish_pack hash p descriptors (err e) = (err e, record p { descriptors = [] })
  finish_pack hash p descriptors (ok encoded_footer) =
      let bytes = put_u32 (put_bytes p.buffer encoded_footer) (length encoded_footer % 2 ^ 32) in
      (
        ok (
            some (record {
              id = hash bytes;
              bytes = bytes;
              descriptors = descriptors;
              raw_size = p.raw_size;
              meta_size = length encoded_footer + 4;
              encoded_size = length bytes;
            })),
        empty_packer,
      )

  unfoldable pub finalize_and_extract :
      (List ℕ → ContentId)
      → SecureStorage prim
      → Random
      → List ℕ
      → Packer
      → Result (Option PackFinalizationResult) × Packer
  unfolding finish_pack put_bytes put_u32
  finalize_and_extract hash storage rng nonce p =
      let (descriptors, footer) = generate_footer rng p.descriptors in
      if length p.buffer == 0
      then (ok none, p)
      else finish_pack hash p descriptors (encode prim storage nonce footer)
