-- ===== src/Packer/Finalize.antt =====
-- `finalize_and_extract` after `add_blob`, one blob after the other: what a pack's bytes hold.
use mapache.Prelude.{
  ℕ, ◌%◌, ◌^◌, ◌<◌, ◌≡◌, refl, sym, ap, ◌∙◌, subst, false, List, [], ◌∷◌, ◌++◌, Option, some,
  Result, ok, err, ◌>>=◌, ◌==◌, length, append-nil, append_assoc, All, arith,
}
use mapache.Common.{ContentId}
use mapache.Binary.{to_le_bytes}
use mapache.Storage.{Primitives, SecureStorage, nonce_len, encode}
use mapache.Packer.{
  Packer, empty_packer, add_blob, Random, generate_footer, parse_footer, PackFinalizationResult,
  finalize_and_extract,
}
use mapache.Packer.Footer.{IsU32, IsTyped, parse_footer-generate_footer}
use mapache.Packer.Pack.{
  SaveBlob, add_blobs, Holds, Holds-append, IsPacked, IsRequest, empty-IsPacked, add_blob-IsPacked,
}

-- The first of several blobs, and the others in a packer that took it.
add_blobs_cons :
    (p p' : Packer) (b : SaveBlob) (bs : List SaveBlob)
    → add_blobs p (b ∷ bs) ≡ ok p'
    → (p1 : Packer) × (add_blob p b.id b.blob_type b.encoded b.raw_length ≡ ok p1)
      × (add_blobs p1 bs ≡ ok p')
add_blobs_cons p p' b bs e =
    by_case (add_blob p b.id b.blob_type b.encoded b.raw_length) refl (unfold add_blobs in e)
  where
    by_case :
        (r : Result Packer)
        → add_blob p b.id b.blob_type b.encoded b.raw_length ≡ r
        → (r >>= (λ q. add_blobs q bs)) ≡ ok p'
        → (p1 : Packer) × (add_blob p b.id b.blob_type b.encoded b.raw_length ≡ ok p1)
          × (add_blobs p1 bs ≡ ok p')
    by_case (err x) added q = let no' : err x ≡ ok p' → ⊥ = λ q. cc in absurd (no' q)
    by_case (ok p1) added q = (p1, added, q)

add_blobs_nil : (p p' : Packer) → add_blobs p [] ≡ ok p' → p ≡ p'
unfolding add_blobs
add_blobs_nil p p' e = cc

-- From a packer that holds `done`, every blob added keeps the invariant.
add_blobs-IsPacked_from :
    (done bs : List SaveBlob) (p p' : Packer)
    → All IsRequest bs
    → IsPacked done p
    → add_blobs p bs ≡ ok p'
    → IsPacked (done ++ bs) p'
add_blobs-IsPacked_from done [] p p' h inv e =
    rw (append-nil done) (subst (IsPacked done) (add_blobs_nil p p' e) inv)
add_blobs-IsPacked_from done (b ∷ bs) p p' h inv e =
    let (p1, added, rest) = add_blobs_cons p p' b bs e in
    subst (λ t. IsPacked t p') (append_assoc done (b ∷ []) bs)
      (add_blobs-IsPacked_from (done ++ (b ∷ [])) bs p1 p' h.1
        (add_blob-IsPacked p p1 b added done h.0 inv) rest)

-- Blobs that a client may save, added to an empty packer one after the other without an error: the
-- packer's descriptors lie one behind the other and each points at the bytes of its own blob.
pub add_blobs-IsPacked :
    (bs : List SaveBlob) (p : Packer)
    → All IsRequest bs
    → add_blobs empty_packer bs ≡ ok p
    → IsPacked bs p
add_blobs-IsPacked bs p h e = add_blobs-IsPacked_from [] bs empty_packer p h empty-IsPacked e

module _ (prim : Primitives) (hash : List ℕ → ContentId) (storage : SecureStorage prim)
    (rng : Random) (nonce : List ℕ) (bs : List SaveBlob) (p : Packer) (encoded : List ℕ) where
  -- A pack that can be read back: its ID is the hash of its bytes, its footer lists the descriptors
  -- of the blobs and no padding, and each of them points at its blob.
  abbrev pub IsReadable : Result (Option (PackFinalizationResult prim)) × Packer → Type 0
  IsReadable (ok (some r), p') =
      (p' ≡ empty_packer)
      × (r.id ≡ hash r.bytes)
      × (parse_footer prim storage r.bytes ≡ ok p.descriptors)
      × Holds r.bytes bs p.descriptors
  IsReadable _ = ⊥

  -- Blobs that a client may save, added to an empty packer without an error, at least one of them
  -- with bytes; the random values have the right sizes, the nonce 12 bytes, and the footer is encoded
  -- in less than 2^32 bytes: `finalize_and_extract` returns a pack and empties the packer. The pack's
  -- ID is the hash of its bytes, `parse_footer` on those bytes returns the descriptors that the packer
  -- held, without padding, and each of these points at its own blob's bytes, type and ID.
  pub finalize_and_extract-IsReadable :
      All IsRequest bs
      → add_blobs empty_packer bs ≡ ok p
      → 0 < length p.buffer
      → IsTyped rng
      → length nonce ≡ nonce_len
      → encode prim storage nonce (generate_footer rng p.descriptors).1 ≡ ok encoded
      → IsU32 (length encoded)
      → IsReadable (finalize_and_extract prim hash storage rng nonce p)
  finalize_and_extract-IsReadable requests added pos typed size e fits =
      let inv = add_blobs-IsPacked bs p requests added in
      let full : (length p.buffer == 0) ≡ false = ground arith in
      let small : length encoded % 2 ^ 32 ≡ length encoded = omega arith in
      let shape : (p.buffer ++ encoded) ++ to_le_bytes 4 (length encoded % 2 ^ 32)
          ≡ p.buffer ++ (encoded ++ to_le_bytes 4 (length encoded)) =
        ap (λ n. (p.buffer ++ encoded) ++ to_le_bytes 4 n) small
        ∙ append_assoc p.buffer encoded (to_le_bytes 4 (length encoded)) in
      unfold finalize_and_extract in
      rw (full, e)
        (
          refl,
          refl,
          ap (parse_footer prim storage) shape
              ∙ parse_footer-generate_footer prim storage rng nonce p.buffer encoded p.descriptors
                  typed size inv.contiguous e fits,
          subst (λ t. Holds t bs p.descriptors) (sym shape)
              (Holds-append p.buffer (encoded ++ to_le_bytes 4 (length encoded)) bs p.descriptors
                inv.holds),
        )
