-- ===== src/Common.antt =====
-- crates/mapache/src/common/mod.rs: blob IDs and blob types.
use mapache.Prelude.{
  ℕ, ◌<◌, ◌≡◌, refl, List, Result, ok, err, format, length, ◌==◌, if◌then◌else◌, arith,
}

-- `ID`, a 256-bit hash, by its bytes.
abbrev pub ContentId : Type 0
ContentId = List ℕ

abbrev pub IsByte : ℕ → Type 0
IsByte b = b < 256

abbrev pub IsId : ContentId → Type 0
IsId id = length id ≡ 32

pub data BlobType : Type 0 where
  data_blob tree_blob padding : BlobType

-- `blob_type as u8`
unfoldable pub to_u8 : BlobType → ℕ
to_u8 data_blob = 0x00
to_u8 tree_blob = 0x01
to_u8 padding = 0xff

-- `BlobType::try_from`
unfoldable pub try_from : ℕ → Result BlobType
try_from v =
    if v == 0x00
    then ok data_blob
    else if v == 0x01
    then ok tree_blob
    else if v == 0xff
    then ok padding
    else err format

pub try_from-to_u8 : (t : BlobType) → try_from (to_u8 t) ≡ ok t
unfolding try_from to_u8
try_from-to_u8 data_blob = refl
try_from-to_u8 tree_blob = refl
try_from-to_u8 padding = refl

pub to_u8-IsByte : (t : BlobType) → to_u8 t < 256
unfolding to_u8
to_u8-IsByte data_blob = omega arith
to_u8-IsByte tree_blob = omega arith
to_u8-IsByte padding = omega arith
