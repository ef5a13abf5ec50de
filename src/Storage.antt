-- ===== src/Storage.antt =====
-- crates/mapache/src/repository/storage.rs: `SecureStorage`, which compresses and encrypts.
pub mod RoundTrip
pub mod Tests
use mapache.Prelude.{
  ℕ, ◌+◌, ◌-◌, ◌<◌, ◌≤◌, ◌≡◌, refl, List, [], ◌++◌, Option, none, some, Result, ok, err,
  MapacheError, ◌>>=◌, crypto, compression, integrity, internal, ltb, ◌==◌, if◌then◌else◌, length,
  take, drop,
}

abbrev pub nonce_len : ℕ
nonce_len = 12

abbrev pub tag_len : ℕ
tag_len = 16

-- The crates `aes-gcm-siv` and `zstd`, with what their documentation promises. A cipher encrypts in
-- place and hands out a detached tag of 16 bytes; with the same key, nonce and tag the ciphertext
-- decrypts to the plaintext. What was compressed decompresses to itself.
pub record Primitives : Type 1 where
  pub Key : Type 0
  pub key_from_slice : List ℕ → Key
  pub encrypt_detached : Key → List ℕ → List ℕ → Option (List ℕ × List ℕ)
  pub decrypt_detached : Key → List ℕ → List ℕ → List ℕ → Option (List ℕ)
  pub zstd_compress : List ℕ → Option (List ℕ)
  pub zstd_decode : List ℕ → Option (List ℕ)
  pub tag_size :
      (k : Key) (nonce plain cipher tag : List ℕ)
      → encrypt_detached k nonce plain ≡ some (cipher, tag)
      → length tag ≡ tag_len
  pub decrypts :
      (k : Key) (nonce plain cipher tag : List ℕ)
      → encrypt_detached k nonce plain ≡ some (cipher, tag)
      → decrypt_detached k nonce cipher tag ≡ some plain
  pub decompresses :
      (plain packed : List ℕ) → zstd_compress plain ≡ some packed → zstd_decode packed ≡ some plain

-- `data.copy_within(start..end, dest)` of a range inside the vector: the bytes behind the place that is
-- written stay what they were.
abbrev pub copy_within : List ℕ → ℕ → ℕ → ℕ → List ℕ
copy_within bytes start end dest =
    take dest bytes ++ (take (end - start) (drop start bytes) ++ drop (dest + (end - start)) bytes)

module _ (p : Primitives) where
  -- `SecureStorage`; the pool of compression contexts holds no data.
  pub record SecureStorage : Type 0 where
    pub cipher : Option p.Key

  -- `with_key`: only a key of 32 bytes is accepted.
  unfoldable pub with_key : SecureStorage → List ℕ → Result SecureStorage
  with_key s key =
      if length key == 32
      then ok (record s { cipher = some (p.key_from_slice key) })
      else err internal

  or_error : Option (List ℕ) → MapacheError → Result (List ℕ)
  or_error none e = err e
  or_error (some a) e = ok a

  -- The end of `transform_into`: `payload` is encrypted in place behind the nonce.
  seal : Option p.Key → List ℕ → List ℕ → Result (List ℕ)
  seal none nonce payload = ok payload
  seal (some key) nonce payload = elim (p.encrypt_detached key nonce payload) [
    | none ↦ err crypto
    | some (ciphertext, tag) ↦ ok (nonce ++ (ciphertext ++ tag))
  ]

  -- `encrypt`: `transform_into` without a compression context. `nonce` is the random one.
  unfoldable pub encrypt : SecureStorage → List ℕ → List ℕ → Result (List ℕ)
  unfolding seal
  encrypt s nonce bytes = seal s.cipher nonce bytes

  -- `compress_managed`
  unfoldable pub compress : List ℕ → Result (List ℕ)
  unfolding or_error
  compress bytes = or_error (p.zstd_compress bytes) compression

  -- `encode` and `encode_managed`: `transform_into` with a context.
  unfoldable pub encode : SecureStorage → List ℕ → List ℕ → Result (List ℕ)
  unfolding compress seal
  encode s nonce bytes = do packed ← compress bytes; seal s.cipher nonce packed

  -- `cipher.decrypt(nonce, ciphertext_and_tag)`: the tag is what stands last.
  open_sealed : p.Key → List ℕ → List ℕ → Result (List ℕ)
  unfolding or_error
  open_sealed key nonce ciphertext_and_tag =
      let n = length ciphertext_and_tag - tag_len in
      or_error
        (p.decrypt_detached key nonce (take n ciphertext_and_tag) (drop n ciphertext_and_tag))
        crypto

  unfoldable pub decrypt : SecureStorage → List ℕ → Result (List ℕ)
  unfolding open_sealed
  decrypt s bytes = elim s.cipher [
    | none ↦ ok bytes
    | some key ↦
        if ltb (length bytes) (nonce_len + tag_len)
        then err integrity
        else open_sealed key (take nonce_len bytes) (drop nonce_len bytes)
  ]

  -- The payload is moved to the front of the vector; the tag is read from the vector after that, and the
  -- vector is cut to the payload, which is decrypted in place.
  unfoldable pub decrypt_in_place : SecureStorage → List ℕ → Result (List ℕ)
  unfolding or_error
  decrypt_in_place s bytes = elim s.cipher [
    | none ↦ ok bytes
    | some key ↦
        if ltb (length bytes) (nonce_len + tag_len)
        then err integrity
        else let nonce = take nonce_len bytes in
          let payload_len = length bytes - nonce_len - tag_len in
          let moved = copy_within bytes nonce_len (nonce_len + payload_len) 0 in
          let tag_offset = nonce_len + payload_len in
          let tag = drop tag_offset moved in
          let truncated = take payload_len moved in
          or_error (p.decrypt_detached key nonce truncated tag) crypto
  ]

  unfoldable pub decompress : List ℕ → Result (List ℕ)
  unfolding or_error
  decompress bytes = or_error (p.zstd_decode bytes) compression

  unfoldable pub decode : SecureStorage → List ℕ → Result (List ℕ)
  unfolding decrypt decompress
  decode s bytes = do decrypted ← decrypt s bytes; decompress decrypted

  unfoldable pub decode_owned : SecureStorage → List ℕ → Result (List ℕ)
  unfolding decrypt_in_place decompress
  decode_owned s bytes = do decrypted ← decrypt_in_place s bytes; decompress decrypted
