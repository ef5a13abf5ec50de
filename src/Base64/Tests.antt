-- ===== src/Base64/Tests.antt =====
-- Base64 text of short inputs.
use mapache.Prelude.{ℕ, ◌≡◌, refl, List, [], ◌∷◌, ok, err, format, All, arith}
use mapache.Common.{IsByte}
use mapache.Base64.{encode, decode}
use mapache.Base64.RoundTrip.{decode-encode_bytes}

-- `foob`
abbrev foob : List ℕ
foob = 102 ∷ 111 ∷ 111 ∷ 98 ∷ []

-- It is `Zm9vYg==`.
foob_encoded : encode foob ≡ 90 ∷ 109 ∷ 57 ∷ 118 ∷ 89 ∷ 103 ∷ 61 ∷ 61 ∷ []
unfolding encode
foob_encoded = refl

short_refused : decode (65 ∷ 66 ∷ []) ≡ err format
unfolding decode
short_refused = refl

foob-IsByte : All IsByte foob
foob-IsByte = (omega arith, (omega arith, (omega arith, (omega arith, tt))))

decode-encode_bytes_example : decode (encode foob) ≡ ok foob
decode-encode_bytes_example = decode-encode_bytes foob foob-IsByte
