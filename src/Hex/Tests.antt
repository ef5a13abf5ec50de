-- ===== src/Hex/Tests.antt =====
-- IDs as hexadecimal strings, on concrete inputs.
use mapache.Prelude.{zero, suc, ◌≡◌, refl, ℕ, [], ◌∷◌, ok, err, format, replicate, All, arith}
use mapache.Common.{ContentId, IsByte}
use mapache.Hex.{from_hex, to_hex, str_len, len_utf8, from_hex-to_hex}

abbrev an_id : ContentId
an_id = 0xab ∷ 0x0f ∷ replicate 30 0

-- A string of another length is refused.
short_refused : from_hex (65 ∷ 66 ∷ []) ≡ err format
unfolding from_hex str_len len_utf8
short_refused = refl

zeros-IsByte : (n : ℕ) → All IsByte (replicate n 0)
zeros-IsByte zero = tt
zeros-IsByte (suc n) = (omega arith, zeros-IsByte n)

from_hex-to_hex_example : from_hex (to_hex an_id) ≡ ok an_id
from_hex-to_hex_example = from_hex-to_hex an_id refl (omega arith, (omega arith, zeros-IsByte 30))
