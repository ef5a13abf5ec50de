-- ===== src/Bundle/Tests.antt =====
-- A small bundle's header, trailer and index, and the round trips on them.
use mapache.Prelude.{◌≡◌, refl, List, [], ◌∷◌, ◌++◌, ok, err, panicked, replicate, All, arith}
use mapache.Common.{data_blob, tree_blob}
use mapache.Bundle.{
  BundleHeader, BundleTrailer, BundleIndexEntry, header_to_binary, header_from_binary,
  trailer_to_binary, trailer_from_binary, index_to_binary, index_from_binary, get_entries,
}
use mapache.Bundle.RoundTrip.{
  IsEntry, header_from_binary-header_to_binary, trailer_from_binary-trailer_to_binary,
  index_from_binary-index_to_binary,
}

abbrev a_header : BundleHeader
a_header = record {
  magic = replicate 12 65;
  version = 2;
  salt = replicate 32 3;
  argon2_t = 4;
  argon2_m = 65536;
  argon2_p = 1;
}

abbrev a_trailer : BundleTrailer
a_trailer = record {
  root_tree = replicate 32 8;
  index_offset = 5000000000;
  index_len = 98;
  manifest_offset = 100;
  manifest_len = 20;
  magic_end = replicate 12 66;
}

abbrev two_entries : List BundleIndexEntry
two_entries =
    record {
      id = replicate 32 1;
      blob_type = data_blob;
      offset = 5000000000;
      length = 300;
      raw_length = 400;
    }
    ∷ record {
      id = replicate 32 2;
      blob_type = tree_blob;
      offset = 58;
      length = 10;
      raw_length = 20;
    }
    ∷ []

two_entries-IsEntry : All IsEntry two_entries
two_entries-IsEntry = (
  (refl, omega arith, omega arith, omega arith),
  ((refl, omega arith, omega arith, omega arith), tt),
)

-- An index that is cut off after its count.
truncated_index : get_entries 1 (replicate 48 0) ≡ err panicked
unfolding get_entries
truncated_index = refl

header_from_binary-header_to_binary_example :
    header_from_binary (header_to_binary a_header ++ (1 ∷ [])) ≡ ok a_header
header_from_binary-header_to_binary_example =
    header_from_binary-header_to_binary a_header (1 ∷ [])
      (refl, omega arith, refl, omega arith, omega arith, omega arith)

trailer_from_binary-trailer_to_binary_example :
    trailer_from_binary (trailer_to_binary a_trailer ++ []) ≡ ok a_trailer
trailer_from_binary-trailer_to_binary_example =
    trailer_from_binary-trailer_to_binary a_trailer []
      (refl, omega arith, omega arith, omega arith, omega arith, refl)

index_from_binary-index_to_binary_example :
    index_from_binary (index_to_binary two_entries ++ (9 ∷ [])) ≡ ok two_entries
index_from_binary-index_to_binary_example =
    index_from_binary-index_to_binary two_entries (9 ∷ []) (omega arith) two_entries-IsEntry
