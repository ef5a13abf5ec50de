-- ===== src/Binary.antt =====
-- crates/mapache/src/utils/binary.rs: little-endian integers in a byte buffer, and a cursor that reads
-- them back. A reader returns what it read and the rest of its input.
use mapache.Prelude.{
  ℕ, zero, suc, ◌+◌, ◌*◌, ◌/◌, ◌%◌, ◌^◌, ◌<◌, ◌≡◌, refl, ap, List, [], ◌∷◌, ◌++◌, Result, ok, err,
  ◌>>=◌, format, false, ltb, if◌then◌else◌, length, take, drop, get_or, length-append, take_front,
  drop_front, arith,
}
use native.Mathlib.Nat.{pow-suc}

-- `v.to_le_bytes()` of a word of `w` bytes.
unfoldable pub to_le_bytes : ℕ → ℕ → List ℕ
to_le_bytes zero v = []
to_le_bytes (suc w) v = v % 256 ∷ to_le_bytes w (v / 256)

-- `from_le_bytes`
unfoldable pub from_le_bytes : List ℕ → ℕ
from_le_bytes [] = 0
from_le_bytes (b ∷ bs) = b + 256 * from_le_bytes bs

unfoldable pub put_bytes : List ℕ → List ℕ → List ℕ
put_bytes buf v = buf ++ v

unfoldable pub put_u8 : List ℕ → ℕ → List ℕ
put_u8 buf v = buf ++ (v ∷ [])

unfoldable pub put_u16 : List ℕ → ℕ → List ℕ
put_u16 buf v = buf ++ to_le_bytes 2 v

unfoldable pub put_u32 : List ℕ → ℕ → List ℕ
put_u32 buf v = buf ++ to_le_bytes 4 v

unfoldable pub put_u64 : List ℕ → ℕ → List ℕ
put_u64 buf v = buf ++ to_le_bytes 8 v

unfoldable pub get_exact : List ℕ → ℕ → Result (List ℕ × List ℕ)
get_exact buf len = if ltb (length buf) len then err format else ok (take len buf, drop len buf)

-- The conversion to an array of `n` bytes cannot fail.
unfoldable pub get_array : ℕ → List ℕ → Result (List ℕ × List ℕ)
unfolding get_exact
get_array n buf = get_exact buf n

-- An array of one byte has a byte at 0.
unfoldable pub get_u8 : List ℕ → Result (ℕ × List ℕ)
unfolding get_array
get_u8 buf = do (arr, rest) ← get_array 1 buf; ok (get_or arr 0 0, rest)

unfoldable pub get_u16 : List ℕ → Result (ℕ × List ℕ)
unfolding get_array
get_u16 buf = do (arr, rest) ← get_array 2 buf; ok (from_le_bytes arr, rest)

unfoldable pub get_u32 : List ℕ → Result (ℕ × List ℕ)
unfolding get_array
get_u32 buf = do (arr, rest) ← get_array 4 buf; ok (from_le_bytes arr, rest)

unfoldable pub get_u64 : List ℕ → Result (ℕ × List ℕ)
unfolding get_array
get_u64 buf = do (arr, rest) ← get_array 8 buf; ok (from_le_bytes arr, rest)

-- An `i64` is given by its bits.
unfoldable pub put_i64 : List ℕ → ℕ → List ℕ
put_i64 buf v = buf ++ to_le_bytes 8 v

unfoldable pub get_i64 : List ℕ → Result (ℕ × List ℕ)
unfolding get_array
get_i64 buf = do (arr, rest) ← get_array 8 buf; ok (from_le_bytes arr, rest)

pub length-to_le_bytes : (w v : ℕ) → length (to_le_bytes w v) ≡ w
unfolding to_le_bytes
length-to_le_bytes zero v = refl
length-to_le_bytes (suc w) v = ap suc (length-to_le_bytes w (v / 256))

pub from_le_bytes-to_le_bytes : (w v : ℕ) → v < 256 ^ w → from_le_bytes (to_le_bytes w v) ≡ v
unfolding to_le_bytes from_le_bytes
from_le_bytes-to_le_bytes zero v h = omega arith
from_le_bytes-to_le_bytes (suc w) v h =
    let e = pow-suc 256 w in omega (arith, from_le_bytes-to_le_bytes w (v / 256) (omega (arith, e)))

-- Reading what stands in front.
pub get_array_front :
    (n : ℕ) (xs rest : List ℕ) → length xs ≡ n → get_array n (xs ++ rest) ≡ ok (xs, rest)
unfolding get_array
get_array_front n xs rest h =
    let enough : ltb (length (xs ++ rest)) n ≡ false = ground (arith, length-append xs rest) in
    rw (enough, take_front n xs rest h, drop_front n xs rest h)

pub get_u8_front : (v : ℕ) (rest : List ℕ) → get_u8 (v ∷ rest) ≡ ok (v, rest)
unfolding get_u8
get_u8_front v rest = rw (get_array_front 1 (v ∷ []) rest refl)

pub get_u16_front :
    (v : ℕ) (rest : List ℕ) → v < 2 ^ 16 → get_u16 (to_le_bytes 2 v ++ rest) ≡ ok (v, rest)
unfolding get_u16
get_u16_front v rest h = rw (
  get_array_front 2 (to_le_bytes 2 v) rest (length-to_le_bytes 2 v),
  from_le_bytes-to_le_bytes 2 v h,
)

pub get_u32_front :
    (v : ℕ) (rest : List ℕ) → v < 2 ^ 32 → get_u32 (to_le_bytes 4 v ++ rest) ≡ ok (v, rest)
unfolding get_u32
get_u32_front v rest h = rw (
  get_array_front 4 (to_le_bytes 4 v) rest (length-to_le_bytes 4 v),
  from_le_bytes-to_le_bytes 4 v h,
)

pub get_u64_front :
    (v : ℕ) (rest : List ℕ) → v < 2 ^ 64 → get_u64 (to_le_bytes 8 v ++ rest) ≡ ok (v, rest)
unfolding get_u64
get_u64_front v rest h = rw (
  get_array_front 8 (to_le_bytes 8 v) rest (length-to_le_bytes 8 v),
  from_le_bytes-to_le_bytes 8 v h,
)
