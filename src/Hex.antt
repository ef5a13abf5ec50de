-- ===== src/Hex.antt =====
-- crates/mapache/src/common/mod.rs and crates/mapache/src/utils/mod.rs: an ID as a string of
-- hexadecimal digits. A string is the list of its characters.
mod Tests
use mapache.Prelude.{
  ℕ, zero, suc, ◌+◌, ◌-◌, ◌*◌, ◌/◌, ◌%◌, ◌<◌, ◌≡◌, refl, sym, ap, ◌∙◌, Bool, true, false, List, [],
  ◌∷◌, Option, none, some, Result, ok, err, ◌>>=◌, format, ltb, leb, ◌==◌, ==_iff, if◌then◌else◌,
  bit_and, bit_or, length, All, true-ne-false, Bool-cases, inl, inr, subst, arith,
}
use mapache.Prelude.Exhaust.{reads_as, holds_below, holds_at, reads_as_sound}
use mapache.Common.{ContentId, IsId, IsByte}

-- `char::from_digit(n, 16)`, of a number below 16.
unfoldable pub from_digit : ℕ → ℕ
from_digit n = if ltb n 10 then 48 + n else 87 + n

-- `bytes_to_hex`
unfoldable pub bytes_to_hex : List ℕ → List ℕ
bytes_to_hex [] = []
bytes_to_hex (b ∷ bs) = from_digit (b / 16) ∷ from_digit (bit_and b 0xf) ∷ bytes_to_hex bs

unfoldable pub to_hex : ContentId → List ℕ
to_hex id = bytes_to_hex id

abbrev between : ℕ → ℕ → ℕ → Bool
between low c high = if leb low c then leb c high else false

unfoldable pub hex_char_to_byte : ℕ → Option ℕ
hex_char_to_byte c =
    if between 48 c 57
    then some (c - 48)
    else if between 97 c 102
    then some (c - 97 + 10)
    else if between 65 c 70
    then some (c - 65 + 10)
    else none

-- The bytes of a character in UTF-8.
unfoldable pub len_utf8 : ℕ → ℕ
len_utf8 c = if ltb c 0x80 then 1 else if ltb c 0x800 then 2 else if ltb c 0x10000 then 3 else 4

unfoldable pub str_len : List ℕ → ℕ
str_len [] = 0
str_len (c ∷ cs) = len_utf8 c + str_len cs

-- Two nibbles, of which either may be no hexadecimal digit.
unfoldable pub byte_of : Option ℕ → Option ℕ → Result ℕ
byte_of none low = err format
byte_of (some high) none = err format
byte_of (some high) (some low) = ok (bit_or (high * 16 % 256) low)

-- The loop over the bytes.
unfoldable pub read_hex : ℕ → List ℕ → Result (List ℕ)
read_hex zero chars = ok []
read_hex (suc n) [] = err format
read_hex (suc n) (high ∷ []) = err format
read_hex (suc n) (high ∷ low ∷ chars) = do
  b ← byte_of (hex_char_to_byte high) (hex_char_to_byte low)
  bs ← read_hex n chars
  ok (b ∷ bs)

unfoldable pub from_hex : List ℕ → Result ContentId
from_hex hex_str = if str_len hex_str == 64 then read_hex 32 hex_str else err format

-- A byte whose digits are read back, each one a byte in UTF-8.
abbrev one_byte : ℕ → Bool
one_byte b =
    if len_utf8 (from_digit (b / 16)) == 1
    then len_utf8 (from_digit (bit_and b 0xf)) == 1
    else false

abbrev read_back : ℕ → Result ℕ
read_back b =
    byte_of (hex_char_to_byte (from_digit (b / 16))) (hex_char_to_byte (from_digit (bit_and b 0xf)))

all_read : holds_below (λ b. reads_as (read_back b) b) 256 ≡ true
unfolding byte_of hex_char_to_byte from_digit
all_read = refl

all_one_byte : holds_below one_byte 256 ≡ true
unfolding len_utf8 from_digit
all_one_byte = refl

read_hex_step :
    (n high low : ℕ) (chars : List ℕ) {b : ℕ} {bs : List ℕ}
    → byte_of (hex_char_to_byte high) (hex_char_to_byte low) ≡ ok b
    → read_hex n chars ≡ ok bs
    → read_hex (suc n) (high ∷ low ∷ chars) ≡ ok (b ∷ bs)
unfolding read_hex
read_hex_step n high low chars here rest = rw (here, rest)

read_hex-bytes_to_hex :
    (bs : List ℕ) → All IsByte bs → read_hex (length bs) (bytes_to_hex bs) ≡ ok bs
unfolding bytes_to_hex
read_hex-bytes_to_hex [] h = unfold read_hex in refl
read_hex-bytes_to_hex (b ∷ bs) h =
    let here =
      reads_as_sound (read_back b) b
        (holds_at (λ x. reads_as (read_back x) x) 256 b all_read h.0) in
    read_hex_step (length bs) (from_digit (b / 16)) (from_digit (bit_and b 0xf)) (bytes_to_hex bs)
      here (read_hex-bytes_to_hex bs h.1)

str_len-bytes_to_hex : (bs : List ℕ) → All IsByte bs → str_len (bytes_to_hex bs) ≡ length bs * 2
unfolding bytes_to_hex str_len
str_len-bytes_to_hex [] h = refl
str_len-bytes_to_hex (b ∷ bs) h =
    let rest = str_len-bytes_to_hex bs h.1 in
    let small = holds_at one_byte 256 b all_one_byte h.0 in
    let both =
      parts (len_utf8 (from_digit (b / 16))) (len_utf8 (from_digit (bit_and b 0xf))) small in
    omega (arith, rest, both)
  where
    parts : (x y : ℕ) → (if x == 1 then y == 1 else false) ≡ true → (x ≡ 1) × (y ≡ 1)
    parts x y q = ground arith

-- For an ID of 32 bytes, `from_hex` returns it from the string of `to_hex`.
pub from_hex-to_hex : (id : ContentId) → IsId id → All IsByte id → from_hex (to_hex id) ≡ ok id
unfolding to_hex
from_hex-to_hex id size bytes =
    let full : (str_len (bytes_to_hex id) == 64) ≡ true =
      ground (arith, str_len-bytes_to_hex id bytes, size) in
    unfold from_hex in
    rw full (ap (λ n. read_hex n (bytes_to_hex id)) (sym size) ∙ read_hex-bytes_to_hex id bytes)
