-- ===== src/Packer/Tests.antt =====
-- A pack of two blobs, and the packer's theorems on it.
use mapache.Prelude.{
  Bool, true, false, err, repo, concat, ℕ, ◌+◌, ◌*◌, ◌%◌, ◌<◌, ◌≡◌, refl, List, [], ◌∷◌, ◌++◌, ok,
  length, replicate, All, arith,
}
use mapache.Common.{ContentId, data_blob, tree_blob}
use mapache.Binary.{to_le_bytes}
use mapache.Storage.{encode}
use mapache.Storage.Tests.{clear_primitives, test_nonce, open_storage, encode_in_clear}
use mapache.Packer.{
  Packer, empty_packer, add_blob, to_u32, Random, generate_footer, parse_footer,
  finalize_and_extract, footer_blob_multiple,
}
use mapache.Packer.Footer.{
  Fits, IsU32, Contiguous, IsTyped, generate_footer_size, parse_footer-generate_footer,
}
use mapache.Packer.Pack.{SaveBlob, add_blobs, IsPacked, IsRequest}
use mapache.Packer.Saver.{PackSaver, send, dispatch_packer, dispatch_full, save_as, save_all, run}
use mapache.Packer.Saver.Batches.{AllPacked, packs_of, of_type}
use mapache.Packer.Saver.Delivery.{run_delivers}
use mapache.Packer.Finalize.{IsReadable, add_blobs-IsPacked, finalize_and_extract-IsReadable}

abbrev two_blobs : List SaveBlob
two_blobs =
    record { id = replicate 32 1; blob_type = data_blob; encoded = 7 ∷ 8 ∷ 9 ∷ []; raw_length = 5 }
    ∷ record { id = replicate 32 2; blob_type = tree_blob; encoded = 4 ∷ []; raw_length = 1 }
    ∷ []

abbrev packed : Packer
packed = record {
  buffer = 7 ∷ 8 ∷ 9 ∷ 4 ∷ [];
  descriptors =
      record { id = replicate 32 1; blob_type = data_blob; offset = 0; length = 3; raw_length = 5 }
      ∷ record {
        id = replicate 32 2;
        blob_type = tree_blob;
        offset = 3;
        length = 1;
        raw_length = 1;
      }
      ∷ [];
  raw_size = 6;
}

abbrev dice : Random
dice n = (replicate 32 9, 1, 2, 3)

dice-IsTyped : IsTyped dice
dice-IsTyped n = (refl, omega arith, omega arith)

two_blobs-packed : add_blobs empty_packer two_blobs ≡ ok packed
unfolding add_blobs add_blob to_u32
two_blobs-packed = refl

two_blobs-IsRequest : All IsRequest two_blobs
two_blobs-IsRequest = ((tt, refl), ((tt, refl), tt))

packed-Fits : All Fits packed.descriptors
packed-Fits = ((refl, omega arith, omega arith), ((refl, omega arith, omega arith), tt))

packed-Contiguous : Contiguous 0 packed.descriptors
packed-Contiguous = (
  refl,
  omega arith,
  tt,
  (refl, omega arith, omega arith),
  (refl, omega arith, tt, (refl, omega arith, omega arith), tt),
)

abbrev footer_bytes : List ℕ
footer_bytes = (generate_footer dice packed.descriptors).1

footer_encoded :
    encode clear_primitives open_storage test_nonce footer_bytes ≡ ok (40 ∷ footer_bytes)
footer_encoded = encode_in_clear footer_bytes

footer_small : IsU32 (length (40 ∷ footer_bytes))
footer_small = omega (arith, generate_footer_size dice dice-IsTyped packed.descriptors packed-Fits)

generate_footer_size_example :
    (length (generate_footer dice packed.descriptors).0 % footer_blob_multiple ≡ 0)
    × (length (generate_footer dice packed.descriptors).0 < 2 + footer_blob_multiple)
    × (length (generate_footer dice packed.descriptors).1
        ≡ length (generate_footer dice packed.descriptors).0 * 41)
generate_footer_size_example = generate_footer_size dice dice-IsTyped packed.descriptors packed-Fits

parse_footer-generate_footer_example :
    parse_footer clear_primitives open_storage
      ((7 ∷ 8 ∷ 9 ∷ 4 ∷ []) ++ ((40 ∷ footer_bytes) ++ to_le_bytes 4 (length (40 ∷ footer_bytes))))
    ≡ ok packed.descriptors
parse_footer-generate_footer_example =
    parse_footer-generate_footer clear_primitives open_storage dice test_nonce (7 ∷ 8 ∷ 9 ∷ 4 ∷ [])
      (40 ∷ footer_bytes) packed.descriptors dice-IsTyped refl packed-Contiguous footer_encoded
      footer_small

add_blobs-IsPacked_example : IsPacked two_blobs packed
add_blobs-IsPacked_example =
    add_blobs-IsPacked two_blobs packed two_blobs-IsRequest two_blobs-packed

abbrev test_hash : List ℕ → ContentId
test_hash bytes = replicate 32 (length bytes % 256)

finalize_and_extract-IsReadable_example :
    IsReadable clear_primitives test_hash open_storage dice test_nonce two_blobs packed
      (40 ∷ footer_bytes)
      (finalize_and_extract clear_primitives test_hash open_storage dice test_nonce packed)
finalize_and_extract-IsReadable_example =
    finalize_and_extract-IsReadable clear_primitives test_hash open_storage dice test_nonce
      two_blobs packed (40 ∷ footer_bytes) two_blobs-IsRequest two_blobs-packed (omega arith)
      dice-IsTyped refl footer_encoded footer_small

abbrev one_blob_packer : SaveBlob → Packer
one_blob_packer b = record {
  buffer = b.encoded;
  descriptors =
      record {
        id = b.id;
        blob_type = b.blob_type;
        offset = 0;
        length = length b.encoded;
        raw_length = b.raw_length;
      }
      ∷ [];
  raw_size = b.raw_length;
}

abbrev first_blob : SaveBlob
first_blob = record {
  id = replicate 32 1;
  blob_type = data_blob;
  encoded = 7 ∷ 8 ∷ 9 ∷ [];
  raw_length = 5;
}

abbrev second_blob : SaveBlob
second_blob = record {
  id = replicate 32 2;
  blob_type = tree_blob;
  encoded = 4 ∷ [];
  raw_length = 1;
}

-- The first packer is full after its blob, the second one is sent by the final flush.
abbrev saver_at_end : PackSaver
saver_at_end = record {
  data_packer = empty_packer;
  tree_packer = empty_packer;
  dispatched =
      (data_blob, one_blob_packer first_blob) ∷ (tree_blob, one_blob_packer second_blob) ∷ [];
}

abbrev always : ℕ → Bool
always n = true

saver_runs : run always 3 two_blobs ≡ ok saver_at_end
unfolding run save_all save_as dispatch_full dispatch_packer send add_blob to_u32
saver_runs = refl

-- A worker pool that has died.
saver_stops : run (λ n. false) 3 two_blobs ≡ err repo
unfolding run save_all save_as dispatch_full dispatch_packer send add_blob to_u32
saver_stops = refl

run_delivers_example :
    (batches : List (List SaveBlob)) × AllPacked batches
      (packs_of tree_blob saver_at_end.dispatched)
    × (concat batches ≡ of_type tree_blob two_blobs)
run_delivers_example =
    run_delivers always 3 two_blobs saver_at_end tree_blob
      (((tt, refl), omega arith), (((tt, refl), omega arith), tt)) saver_runs tt
