-- ===== src/Storage/RoundTrip.antt =====
-- What `SecureStorage` encodes it decodes, and the two ways to decrypt are one.
use mapache.Prelude.{
  ℕ, ◌+◌, ◌-◌, ◌≤◌, ◌≡◌, refl, sym, ap, ap₂, ◌∙◌, List, ◌++◌, Option, none, some, false, ok, err,
  compression, ltb, length, take, drop, length-take, Bool-cases, length-append, take_front,
  drop_front, drop-drop, length-drop, Option-cases, inl, inr, arith,
}
use mapache.Storage.{
  Primitives, SecureStorage, nonce_len, tag_len, copy_within, seal, encrypt, compress, encode,
  open_sealed, decrypt, decrypt_in_place, decompress, decode, decode_owned,
}

-- After the move the payload stands in front, and what follows it in the old place, the tag, is not
-- overwritten.
moved_parts :
    (bytes : List ℕ) (n : ℕ)
    → nonce_len + n ≤ length bytes
    → (take n (copy_within bytes nonce_len (nonce_len + n) 0) ≡ take n (drop nonce_len bytes))
      × (drop (nonce_len + n) (copy_within bytes nonce_len (nonce_len + n) 0)
          ≡ drop n (drop nonce_len bytes))
moved_parts bytes n fits =
    let payload = take n (drop nonce_len bytes) in
    let size : length payload ≡ n =
      omega (arith, length-take n (drop nonce_len bytes), length-drop nonce_len bytes) in
    let moved : copy_within bytes nonce_len (nonce_len + n) 0 ≡ payload ++ drop n bytes =
      ap₂ (λ k l. take k (drop nonce_len bytes) ++ drop l bytes)
        (let e : nonce_len + n - nonce_len ≡ n = omega arith in e)
        (let e : 0 + (nonce_len + n - nonce_len) ≡ n = omega arith in e) in
    let order : n + nonce_len ≡ nonce_len + n = omega arith in
    (
      ap (take n) moved ∙ take_front n payload (drop n bytes) size,
      ap₂ drop (sym order) moved
          ∙ sym (drop-drop n nonce_len (payload ++ drop n bytes))
          ∙ ap (drop nonce_len) (drop_front n payload (drop n bytes) size)
          ∙ drop-drop n nonce_len bytes
          ∙ ap (λ k. drop k bytes) order
          ∙ sym (drop-drop nonce_len n bytes),
    )

module _ (p : Primitives) where
  -- The layout that `seal` writes is the one that `decrypt` splits.
  open_sealed-append :
      (key : p.Key) (nonce plain ciphertext tag : List ℕ)
      → p.encrypt_detached key nonce plain ≡ some (ciphertext, tag)
      → open_sealed p key nonce (ciphertext ++ tag) ≡ ok plain
  unfolding open_sealed
  open_sealed-append key nonce plain ciphertext tag e =
      let size = p.tag_size key nonce plain ciphertext tag e in
      let n : length (ciphertext ++ tag) - tag_len ≡ length ciphertext =
        omega (arith, length-append ciphertext tag, size) in
      rw (
        n,
        take_front (length ciphertext) ciphertext tag refl,
        drop_front (length ciphertext) ciphertext tag refl,
        p.decrypts key nonce plain ciphertext tag e,
      )

  seal_parts :
      (key : p.Key) (nonce plain out : List ℕ)
      → seal p (some key) nonce plain ≡ ok out
      → (c : List ℕ) × (t : List ℕ) × (p.encrypt_detached key nonce plain ≡ some (c, t))
        × (out ≡ nonce ++ (c ++ t))
  unfolding seal
  seal_parts key nonce plain out e = elim (Option-cases (p.encrypt_detached key nonce plain)) [
    | inl failed ↦ absurd (ground arith)
    | inr ((c, t), done) ↦ (c, t, done, ground arith)
  ]

  decrypt-seal :
      (cipher : Option p.Key) (nonce plain out : List ℕ)
      → length nonce ≡ nonce_len
      → seal p cipher nonce plain ≡ ok out
      → decrypt p (record { cipher = cipher }) out ≡ ok plain
  decrypt-seal none nonce plain out size e = unfold decrypt seal in sym e
  decrypt-seal (some key) nonce plain out size e =
      let (c, t, done, whole) = seal_parts key nonce plain out e in
      let tag = p.tag_size key nonce plain c t done in
      let enough : ltb (length (nonce ++ (c ++ t))) (nonce_len + tag_len) ≡ false =
        ground (arith, length-append nonce (c ++ t), length-append c t, tag, size) in
      rw whole (
        unfold decrypt in
        rw
          (
            enough,
            take_front nonce_len nonce (c ++ t) size,
            drop_front nonce_len nonce (c ++ t) size,
          )
          (open_sealed-append key nonce plain c t done))

  -- What `encrypt` returns with a nonce of 12 bytes, with or without a key, decrypts to the data.
  pub decrypt-encrypt :
      (s : SecureStorage p) (nonce plain out : List ℕ)
      → length nonce ≡ nonce_len
      → encrypt p s nonce plain ≡ ok out
      → decrypt p s out ≡ ok plain
  unfolding encrypt
  decrypt-encrypt s nonce plain out size e = decrypt-seal s.cipher nonce plain out size e

  -- What `encode` returns with a nonce of 12 bytes, with or without a key, decodes to the data.
  pub decode-encode :
      (s : SecureStorage p) (nonce plain out : List ℕ)
      → length nonce ≡ nonce_len
      → encode p s nonce plain ≡ ok out
      → decode p s out ≡ ok plain
  decode-encode s nonce plain out size e = elim (Option-cases (p.zstd_compress plain)) [
    | inl failed ↦
        let no' : err compression ≡ ok out → ⊥ = λ q. cc in
        absurd (no' (unfold encode compress in (rw failed at e)))
    | inr (packed, done) ↦
        let sealed : seal p s.cipher nonce packed ≡ ok out =
          unfold encode compress in (rw done at e) in
        unfold decode in
        rw (decrypt-seal s.cipher nonce packed out size sealed)
          (unfold decompress in rw (p.decompresses plain packed done))
  ]

  -- Decryption in place has the result of `decrypt` on every input, errors included.
  pub decrypt_in_place-eq-decrypt :
      (cipher : Option p.Key) (bytes : List ℕ)
      → decrypt_in_place p (record { cipher = cipher }) bytes
        ≡ decrypt p (record { cipher = cipher }) bytes
  unfolding decrypt_in_place decrypt
  decrypt_in_place-eq-decrypt none bytes = refl
  decrypt_in_place-eq-decrypt (some key) bytes =
      elim (Bool-cases (ltb (length bytes) (nonce_len + tag_len))) [
        | inl short ↦ rw short refl
        | inr enough ↦
            let n : length (drop nonce_len bytes) - tag_len ≡ length bytes - nonce_len - tag_len =
              omega (arith, length-drop nonce_len bytes) in
            let (payload, tag) =
              moved_parts bytes (length bytes - nonce_len - tag_len) (ground arith) in
            rw (enough, payload, tag, n) refl
      ]

  -- `decode_owned`, which decrypts in place, has the result of `decode` on every input, errors
  -- included.
  pub decode_owned-eq-decode :
      (s : SecureStorage p) (bytes : List ℕ) → decode_owned p s bytes ≡ decode p s bytes
  unfolding decode_owned decode
  decode_owned-eq-decode s bytes = rw (decrypt_in_place-eq-decrypt s.cipher bytes)
