-- ===== src/Base64.antt =====
-- crates/mapache/src/utils/base64.rs. A string is the list of its bytes.
pub mod RoundTrip
mod Tests
use mapache.Prelude.{
  ℕ, zero, suc, ◌+◌, ◌-◌, ◌*◌, ◌/◌, ◌%◌, ◌^◌, ◌<◌, ◌≡◌, refl, sym, ap, ◌∙◌, Bool, true, false, not,
  List, [], ◌∷◌, ◌++◌, Option, none, some, Result, ok, err, ◌>>=◌, format, panicked, ltb, leb, ◌==◌,
  ==_iff, if◌then◌else◌, bit_and, bit_or, length, get_or, All, true-ne-false, Bool-cases, inl, inr,
  subst, arith, ◌&&◌,
}
use mapache.Prelude.Masks.{bit_or-add, bit_and-0x3f}
use mapache.Prelude.Exhaust.{reads_as, reads_as_sound, holds_below, holds_at}
use mapache.Common.{IsByte}

-- `A` to `Z`, `a` to `z`, `0` to `9`, `+` and `/`.
abbrev pub count_up : ℕ → ℕ → List ℕ
count_up zero from = []
count_up (suc n) from = from ∷ count_up n (suc from)

abbrev pub alphabet : List ℕ
alphabet = count_up 26 65 ++ (count_up 26 97 ++ (count_up 10 48 ++ (43 ∷ 47 ∷ [])))

-- `ALPHABET[i]`, where `i` has six bits.
abbrev pub letter : ℕ → ℕ
letter i = get_or alphabet i 0

abbrev pub equals_sign : ℕ
equals_sign = 61

-- `(b0 << 16) | (b1 << 8) | b2`
abbrev pub triple_of : ℕ → ℕ → ℕ → ℕ
triple_of b0 b1 b2 = bit_or (bit_or (b0 * 2 ^ 16) (b1 * 2 ^ 8)) b2

-- The four characters of a chunk of three bytes, the missing ones 0, and how many there are.
abbrev pub encode_chunk : ℕ → ℕ → ℕ → ℕ → List ℕ
encode_chunk b0 b1 b2 len =
    let triple = triple_of b0 b1 b2 in
    letter (bit_and (triple / 2 ^ 18) 0x3f)
    ∷ letter (bit_and (triple / 2 ^ 12) 0x3f)
    ∷ (if ltb 1 len then letter (bit_and (triple / 2 ^ 6) 0x3f) else equals_sign)
    ∷ (if ltb 2 len then letter (bit_and triple 0x3f) else equals_sign)
    ∷ []

unfoldable pub encode : List ℕ → List ℕ
encode [] = []
encode (b0 ∷ []) = encode_chunk b0 0 0 1
encode (b0 ∷ b1 ∷ []) = encode_chunk b0 b1 0 2
encode (b0 ∷ b1 ∷ b2 ∷ input) = encode_chunk b0 b1 b2 3 ++ encode input

abbrev pub between : ℕ → ℕ → ℕ → Bool
between low c high = leb low c && leb c high

-- The value of a character; a padding character counts 0.
unfoldable pub sextet : ℕ → Result ℕ
sextet c =
    if between 65 c 90
    then ok (c - 65)
    else if between 97 c 122
    then ok (c - 97 + 26)
    else if between 48 c 57
    then ok (c - 48 + 52)
    else if c == 43
    then ok 62
    else if c == 47
    then ok 63
    else if c == 61
    then ok 0
    else err format

-- The bytes of a chunk: the second and the third are left out for padding.
abbrev pub chunk_bytes : ℕ → ℕ → ℕ → List ℕ
chunk_bytes triple c2 c3 =
    triple / 2 ^ 16 % 256
    ∷ ((if not (c2 == 61) then triple / 2 ^ 8 % 256 ∷ [] else [])
        ++ (if not (c3 == 61) then triple % 256 ∷ [] else []))

unfoldable pub decode_chunk : ℕ → ℕ → ℕ → ℕ → Result (List ℕ)
decode_chunk c0 c1 c2 c3 = do
  s0 ← sextet c0
  s1 ← sextet c1
  s2 ← sextet c2
  s3 ← sextet c3
  ok (chunk_bytes (bit_or (bit_or (bit_or (s0 * 2 ^ 18) (s1 * 2 ^ 12)) (s2 * 2 ^ 6)) s3) c2 c3)

-- The loop over chunks of four characters; a shorter one would panic.
unfoldable pub decode_chunks : List ℕ → Result (List ℕ)
decode_chunks [] = ok []
decode_chunks (c0 ∷ []) = err panicked
decode_chunks (c0 ∷ c1 ∷ []) = err panicked
decode_chunks (c0 ∷ c1 ∷ c2 ∷ []) = err panicked
decode_chunks (c0 ∷ c1 ∷ c2 ∷ c3 ∷ input) = do
  bytes ← decode_chunk c0 c1 c2 c3
  rest ← decode_chunks input
  ok (bytes ++ rest)

unfoldable pub decode : List ℕ → Result (List ℕ)
decode input = if not (length input % 4 == 0) then err format else decode_chunks input
