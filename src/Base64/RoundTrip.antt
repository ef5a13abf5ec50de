-- ===== src/Base64/RoundTrip.antt =====
-- Base64 text is read back (crates/mapache/src/utils/base64.rs).
use mapache.Prelude.{
  ℕ, ◌+◌, ◌*◌, ◌/◌, ◌%◌, ◌^◌, ◌<◌, ◌≡◌, refl, sym, ap, ◌∙◌, Bool, true, not, List, [], ◌∷◌, ◌++◌,
  ok, ◌==◌, bit_and, bit_or, length, All, arith,
}
use mapache.Prelude.Masks.{bit_or-add, bit_and-0x3f}
use mapache.Prelude.Exhaust.{reads_as, reads_as_sound, holds_below, holds_at}
use mapache.Common.{IsByte}
use mapache.Base64.{
  letter, triple_of, encode, sextet, chunk_bytes, decode_chunk, decode_chunks, decode,
}

-- A letter is read as its position, and is no padding.
abbrev is_read : ℕ → Bool
is_read i = reads_as (sextet (letter i)) i

abbrev is_letter : ℕ → Bool
is_letter i = not (letter i == 61)

all_read : holds_below is_read 64 ≡ true
unfolding sextet
all_read = refl

all_letters : holds_below is_letter 64 ≡ true
all_letters = refl

sextet-letter : (i : ℕ) → i < 64 → sextet (letter i) ≡ ok i
sextet-letter i low = reads_as_sound (sextet (letter i)) i (holds_at is_read 64 i all_read low)

letter_plain : (i : ℕ) → i < 64 → not (letter i == 61) ≡ true
letter_plain i low = holds_at is_letter 64 i all_letters low

-- A triple by its sum, its sextets by division, and the triple of the sextets.
triple_sum :
    (b0 b1 b2 : ℕ) → b1 < 256 → b2 < 256 → triple_of b0 b1 b2 ≡ b0 * 2 ^ 16 + b1 * 2 ^ 8 + b2
triple_sum b0 b1 b2 h1 h2 =
    let high : bit_or (b0 * 2 ^ 16) (b1 * 2 ^ 8) ≡ b0 * 2 ^ 16 + b1 * 2 ^ 8 =
      bit_or-add 16 b0 (b1 * 2 ^ 8) (omega (arith, h1)) in
    let whole : b0 * 2 ^ 16 + b1 * 2 ^ 8 ≡ (b0 * 256 + b1) * 2 ^ 8 = omega arith in
    ap (λ t. bit_or t b2) (high ∙ whole) ∙ bit_or-add 8 (b0 * 256 + b1) b2 h2 ∙ omega arith

sextets_sum :
    (s0 s1 s2 s3 : ℕ)
    → s1 < 64
    → s2 < 64
    → s3 < 64
    → bit_or (bit_or (bit_or (s0 * 2 ^ 18) (s1 * 2 ^ 12)) (s2 * 2 ^ 6)) s3
      ≡ s0 * 2 ^ 18 + s1 * 2 ^ 12 + s2 * 2 ^ 6 + s3
sextets_sum s0 s1 s2 s3 h1 h2 h3 =
    let first : bit_or (s0 * 2 ^ 18) (s1 * 2 ^ 12) ≡ (s0 * 64 + s1) * 2 ^ 12 =
      bit_or-add 18 s0 (s1 * 2 ^ 12) (omega (arith, h1)) ∙ omega arith in
    let next : bit_or ((s0 * 64 + s1) * 2 ^ 12) (s2 * 2 ^ 6) ≡ (s0 * 4096 + s1 * 64 + s2) * 2 ^ 6 =
      bit_or-add 12 (s0 * 64 + s1) (s2 * 2 ^ 6) (omega (arith, h2)) ∙ omega arith in
    ap (λ t. bit_or (bit_or t (s2 * 2 ^ 6)) s3) first
    ∙ ap (λ t. bit_or t s3) next
    ∙ bit_or-add 6 (s0 * 4096 + s1 * 64 + s2) s3 h3
    ∙ omega arith

-- The characters of four sextets that are read back.
decode_chunk_step :
    (c0 c1 c2 c3 : ℕ) {s0 s1 s2 s3 : ℕ}
    → sextet c0 ≡ ok s0
    → sextet c1 ≡ ok s1
    → sextet c2 ≡ ok s2
    → sextet c3 ≡ ok s3
    → decode_chunk c0 c1 c2 c3
      ≡ ok
          (chunk_bytes (bit_or (bit_or (bit_or (s0 * 2 ^ 18) (s1 * 2 ^ 12)) (s2 * 2 ^ 6)) s3) c2 c3)
unfolding decode_chunk
decode_chunk_step c0 c1 c2 c3 q0 q1 q2 q3 = rw (q0, q1, q2, q3) refl

decode_chunks_step :
    (c0 c1 c2 c3 : ℕ) (input : List ℕ) {bytes rest : List ℕ}
    → decode_chunk c0 c1 c2 c3 ≡ ok bytes
    → decode_chunks input ≡ ok rest
    → decode_chunks (c0 ∷ c1 ∷ c2 ∷ c3 ∷ input) ≡ ok (bytes ++ rest)
unfolding decode_chunks
decode_chunks_step c0 c1 c2 c3 input here rest = rw (here, rest) refl

-- The sextets of three bytes make their triple again.
sextets_of :
    (b0 b1 b2 : ℕ)
    → b0 < 256
    → b1 < 256
    → b2 < 256
    → bit_or
        (bit_or
          (bit_or
            (bit_and (triple_of b0 b1 b2 / 2 ^ 18) 0x3f * 2 ^ 18)
            (bit_and (triple_of b0 b1 b2 / 2 ^ 12) 0x3f * 2 ^ 12))
          (bit_and (triple_of b0 b1 b2 / 2 ^ 6) 0x3f * 2 ^ 6))
        (bit_and (triple_of b0 b1 b2) 0x3f)
      ≡ b0 * 2 ^ 16 + b1 * 2 ^ 8 + b2
sextets_of b0 b1 b2 h0 h1 h2 =
    let t = triple_of b0 b1 b2 in
    let e0 = bit_and-0x3f (t / 2 ^ 18) in
    let e1 = bit_and-0x3f (t / 2 ^ 12) in
    let e2 = bit_and-0x3f (t / 2 ^ 6) in
    let e3 = bit_and-0x3f t in
    sextets_sum (bit_and (t / 2 ^ 18) 0x3f) (bit_and (t / 2 ^ 12) 0x3f) (bit_and (t / 2 ^ 6) 0x3f)
      (bit_and t 0x3f) (omega (arith, e1)) (omega (arith, e2)) (omega (arith, e3))
    ∙ omega (arith, e0, e1, e2, e3, triple_sum b0 b1 b2 h1 h2)

-- A chunk of characters whose last two stand for their sextets.
decode_chunk-letters :
    (b0 b1 b2 c2 c3 : ℕ)
    → b0 < 256
    → b1 < 256
    → b2 < 256
    → sextet c2 ≡ ok (bit_and (triple_of b0 b1 b2 / 2 ^ 6) 0x3f)
    → sextet c3 ≡ ok (bit_and (triple_of b0 b1 b2) 0x3f)
    → decode_chunk
        (letter (bit_and (triple_of b0 b1 b2 / 2 ^ 18) 0x3f))
        (letter (bit_and (triple_of b0 b1 b2 / 2 ^ 12) 0x3f))
        c2
        c3
      ≡ ok (chunk_bytes (b0 * 2 ^ 16 + b1 * 2 ^ 8 + b2) c2 c3)
decode_chunk-letters b0 b1 b2 c2 c3 h0 h1 h2 q2 q3 =
    let t = triple_of b0 b1 b2 in
    let e0 = bit_and-0x3f (t / 2 ^ 18) in
    let e1 = bit_and-0x3f (t / 2 ^ 12) in
    decode_chunk_step (letter (bit_and (t / 2 ^ 18) 0x3f)) (letter (bit_and (t / 2 ^ 12) 0x3f)) c2
      c3 (sextet-letter (bit_and (t / 2 ^ 18) 0x3f) (omega (arith, e0)))
      (sextet-letter (bit_and (t / 2 ^ 12) 0x3f) (omega (arith, e1))) q2 q3
    ∙ ap (λ s. ok (chunk_bytes s c2 c3)) (sextets_of b0 b1 b2 h0 h1 h2)

sextet-padding : (n : ℕ) → n ≡ 0 → sextet 61 ≡ ok n
unfolding sextet
sextet-padding n q = ap ok (sym q)

bytes_of_triple :
    (b0 b1 b2 : ℕ)
    → b0 < 256
    → b1 < 256
    → b2 < 256
    → ((b0 * 2 ^ 16 + b1 * 2 ^ 8 + b2) / 2 ^ 16 % 256 ≡ b0)
      × ((b0 * 2 ^ 16 + b1 * 2 ^ 8 + b2) / 2 ^ 8 % 256 ≡ b1)
      × ((b0 * 2 ^ 16 + b1 * 2 ^ 8 + b2) % 256 ≡ b2)
bytes_of_triple b0 b1 b2 h0 h1 h2 = (omega arith, omega arith, omega arith)

decode_chunks-nil : decode_chunks [] ≡ ok []
unfolding decode_chunks
decode_chunks-nil = refl

decode_chunks-encode : (input : List ℕ) → All IsByte input → decode_chunks (encode input) ≡ ok input
unfolding encode
decode_chunks-encode [] h = decode_chunks-nil
decode_chunks-encode (b0 ∷ []) h =
    let t = triple_of b0 0 0 in
    let e2 = bit_and-0x3f (t / 2 ^ 6) in
    let e3 = bit_and-0x3f t in
    let sum = triple_sum b0 0 0 (omega arith) (omega arith) in
    let bytes = bytes_of_triple b0 0 0 h.0 (omega arith) (omega arith) in
    decode_chunks_step (letter (bit_and (t / 2 ^ 18) 0x3f)) (letter (bit_and (t / 2 ^ 12) 0x3f)) 61
      61 []
      (decode_chunk-letters b0 0 0 61 61 h.0 (omega arith) (omega arith)
        (sextet-padding (bit_and (t / 2 ^ 6) 0x3f) (omega (arith, e2, sum)))
        (sextet-padding (bit_and t 0x3f) (omega (arith, e3, sum))))
      decode_chunks-nil
    ∙ ap (λ x. ok (x ∷ [])) bytes.0
decode_chunks-encode (b0 ∷ b1 ∷ []) h =
    let t = triple_of b0 b1 0 in
    let e2 = bit_and-0x3f (t / 2 ^ 6) in
    let e3 = bit_and-0x3f t in
    let c2 = letter (bit_and (t / 2 ^ 6) 0x3f) in
    let low2 : bit_and (t / 2 ^ 6) 0x3f < 64 = omega (arith, e2) in
    let sum = triple_sum b0 b1 0 h.1.0 (omega arith) in
    let bytes = bytes_of_triple b0 b1 0 h.0 h.1.0 (omega arith) in
    decode_chunks_step (letter (bit_and (t / 2 ^ 18) 0x3f)) (letter (bit_and (t / 2 ^ 12) 0x3f)) c2
      61 []
      (decode_chunk-letters b0 b1 0 c2 61 h.0 h.1.0 (omega arith)
        (sextet-letter (bit_and (t / 2 ^ 6) 0x3f) low2)
        (sextet-padding (bit_and t 0x3f) (omega (arith, e3, sum))))
      decode_chunks-nil
    ∙ rw (letter_plain (bit_and (t / 2 ^ 6) 0x3f) low2, bytes.0, bytes.1) refl
decode_chunks-encode (b0 ∷ b1 ∷ b2 ∷ input) h =
    let t = triple_of b0 b1 b2 in
    let e2 = bit_and-0x3f (t / 2 ^ 6) in
    let e3 = bit_and-0x3f t in
    let c2 = letter (bit_and (t / 2 ^ 6) 0x3f) in
    let c3 = letter (bit_and t 0x3f) in
    let low2 : bit_and (t / 2 ^ 6) 0x3f < 64 = omega (arith, e2) in
    let low3 : bit_and t 0x3f < 64 = omega (arith, e3) in
    let bytes = bytes_of_triple b0 b1 b2 h.0 h.1.0 h.1.1.0 in
    decode_chunks_step (letter (bit_and (t / 2 ^ 18) 0x3f)) (letter (bit_and (t / 2 ^ 12) 0x3f)) c2
      c3 (encode input)
      (decode_chunk-letters b0 b1 b2 c2 c3 h.0 h.1.0 h.1.1.0
        (sextet-letter (bit_and (t / 2 ^ 6) 0x3f) low2) (sextet-letter (bit_and t 0x3f) low3))
      (decode_chunks-encode input h.1.1.1)
    ∙ rw
        (
          letter_plain (bit_and (t / 2 ^ 6) 0x3f) low2,
          letter_plain (bit_and t 0x3f) low3,
          bytes.0,
          bytes.1,
          bytes.2,
        )
        refl

length-encode : (input : List ℕ) → length (encode input) % 4 ≡ 0
unfolding encode
length-encode [] = omega arith
length-encode (b0 ∷ []) = omega arith
length-encode (b0 ∷ b1 ∷ []) = omega arith
length-encode (b0 ∷ b1 ∷ b2 ∷ input) = omega (arith, length-encode input)

-- Bytes are read back from their base64 text, with any padding.
pub decode-encode_bytes : (input : List ℕ) → All IsByte input → decode (encode input) ≡ ok input
unfolding decode
decode-encode_bytes input h =
    let whole : (length (encode input) % 4 == 0) ≡ true = ground (arith, length-encode input) in
    rw whole (decode_chunks-encode input h)
