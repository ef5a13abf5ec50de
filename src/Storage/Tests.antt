-- ===== src/Storage/Tests.antt =====
-- A cipher and a compression on which the storage runs, and its theorems there.
use mapache.Prelude.{
  ℕ, ◌≡◌, refl, sym, ◌∙◌, ap, List, [], ◌∷◌, ◌++◌, Option, none, some, ok, err, integrity, length,
  replicate, list_eq, nat_eq, if◌then◌else◌,
}
use mapache.Storage.{
  Primitives, SecureStorage, tag_len, with_key, encrypt, seal, encode, compress, decrypt, decode,
  decode_owned, or_error,
}
use mapache.Storage.RoundTrip.{decrypt-encrypt, decode-encode, decode_owned-eq-decode}

-- The tag is the start of the key, and the text stays as it is.
abbrev clear_encrypt : List ℕ → List ℕ → List ℕ → Option (List ℕ × List ℕ)
clear_encrypt key nonce plain = some (plain, replicate 16 7)

abbrev clear_decrypt : List ℕ → List ℕ → List ℕ → List ℕ → Option (List ℕ)
clear_decrypt key nonce cipher tag = if list_eq.beq tag (replicate 16 7) then some cipher else none

abbrev first : Option (List ℕ × List ℕ) → List ℕ
first none = []
first (some (a, b)) = a

abbrev second : Option (List ℕ × List ℕ) → List ℕ
second none = []
second (some (a, b)) = b

abbrev marked : List ℕ → Option (List ℕ)
marked plain = some (40 ∷ plain)

abbrev unmarked : List ℕ → Option (List ℕ)
unmarked [] = none
unmarked (b ∷ bs) = some bs

pub tag_of :
    (key nonce plain cipher tag : List ℕ)
    → clear_encrypt key nonce plain ≡ some (cipher, tag)
    → length tag ≡ tag_len
tag_of key nonce plain cipher tag e =
    let q : replicate 16 7 ≡ tag = ap second e in sym (ap length q)

pub text_of :
    (key nonce plain cipher tag : List ℕ)
    → clear_encrypt key nonce plain ≡ some (cipher, tag)
    → clear_decrypt key nonce cipher tag ≡ some plain
text_of key nonce plain cipher tag e =
    let q : replicate 16 7 ≡ tag = ap second e in
    let r : plain ≡ cipher = ap first e in
    ap (λ t. if list_eq.beq t (replicate 16 7) then some cipher else none) (sym q) ∙ ap some (sym r)

pub packed_of :
    (plain packed : List ℕ) → some (40 ∷ plain) ≡ some packed → unmarked packed ≡ some plain
packed_of plain packed e = let q : 40 ∷ plain ≡ packed = cc in sym (ap unmarked q)

abbrev pub clear_primitives : Primitives
clear_primitives = record {
  Key = List ℕ;
  key_from_slice = λ key. key;
  encrypt_detached = clear_encrypt;
  decrypt_detached = clear_decrypt;
  zstd_compress = marked;
  zstd_decode = unmarked;
  tag_size = λ k nonce plain cipher tag e. tag_of k nonce plain cipher tag e;
  decrypts = λ k nonce plain cipher tag e. text_of k nonce plain cipher tag e;
  decompresses = λ plain packed e. packed_of plain packed e;
}

abbrev pub locked : SecureStorage clear_primitives
locked = record { cipher = some (replicate 32 1) }

abbrev pub test_nonce : List ℕ
test_nonce = replicate 12 5

abbrev pub open_storage : SecureStorage clear_primitives
open_storage = record { cipher = none }

pub encode_in_clear :
    (plain : List ℕ) → encode clear_primitives open_storage test_nonce plain ≡ ok (40 ∷ plain)
unfolding encode compress seal or_error
encode_in_clear plain = refl

with_key_runs :
    (with_key clear_primitives (record { cipher = none }) (replicate 32 1) ≡ ok locked)
    × (decrypt clear_primitives locked (replicate 20 0) ≡ err integrity)
unfolding with_key decrypt
with_key_runs = (refl, refl)

decrypt-encrypt_example :
    decrypt clear_primitives locked (test_nonce ++ (3 ∷ 4 ∷ replicate 16 7)) ≡ ok (3 ∷ 4 ∷ [])
unfolding encrypt seal
decrypt-encrypt_example =
    decrypt-encrypt clear_primitives locked test_nonce (3 ∷ 4 ∷ [])
      (test_nonce ++ (3 ∷ 4 ∷ replicate 16 7)) refl refl

decode-encode_example :
    decode clear_primitives locked (test_nonce ++ (40 ∷ 3 ∷ 4 ∷ replicate 16 7)) ≡ ok (3 ∷ 4 ∷ [])
unfolding encode compress seal or_error
decode-encode_example =
    decode-encode clear_primitives locked test_nonce (3 ∷ 4 ∷ [])
      (test_nonce ++ (40 ∷ 3 ∷ 4 ∷ replicate 16 7)) refl refl

decode_owned-eq-decode_example :
    decode_owned clear_primitives locked (replicate 40 7)
    ≡ decode clear_primitives locked (replicate 40 7)
decode_owned-eq-decode_example = decode_owned-eq-decode clear_primitives locked (replicate 40 7)
