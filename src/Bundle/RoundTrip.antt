-- ===== src/Bundle/RoundTrip.antt =====
-- A bundle's header, trailer and index: what `to_binary` writes, `from_binary` reads back.
use mapache.Prelude.{
  ℕ, suc, ◌^◌, ◌<◌, ◌≡◌, refl, sym, ap, ◌∙◌, false, List, [], ◌∷◌, ◌++◌, ok, ltb, length, take,
  drop, length-append, take_front, drop_front, append-nil, append_assoc, All, arith,
}
use mapache.Common.{IsId, to_u8, try_from-to_u8}
use mapache.Binary.{
  to_le_bytes, length-to_le_bytes, get_array_front, get_u8_front, get_u16_front, get_u32_front,
  get_u64_front,
}
use mapache.Bundle.{
  BundleHeader, BundleTrailer, BundleIndexEntry, bundle_magic_len, bundle_salt_len, binary_size,
  header_to_binary, header_from_binary, trailer_to_binary, trailer_from_binary, entry_to_binary,
  entry_from_binary, put_entries, index_to_binary, get_entries, index_from_binary,
}

-- The fields have the sizes of their Rust types.
abbrev pub IsHeader : BundleHeader → Type 0
IsHeader h =
    (length h.magic ≡ bundle_magic_len)
    × (h.version < 2 ^ 16)
    × (length h.salt ≡ bundle_salt_len)
    × (h.argon2_t < 2 ^ 32)
    × (h.argon2_m < 2 ^ 32)
    × (h.argon2_p < 2 ^ 32)

abbrev pub IsTrailer : BundleTrailer → Type 0
IsTrailer t =
    IsId t.root_tree
    × (t.index_offset < 2 ^ 64)
    × (t.index_len < 2 ^ 32)
    × (t.manifest_offset < 2 ^ 64)
    × (t.manifest_len < 2 ^ 32)
    × (length t.magic_end ≡ bundle_magic_len)

abbrev pub IsEntry : BundleIndexEntry → Type 0
IsEntry e = IsId e.id × (e.offset < 2 ^ 64) × (e.length < 2 ^ 32) × (e.raw_length < 2 ^ 32)

-- For a header whose fields have the sizes of their types, `from_binary` returns it from what
-- `to_binary` writes and any bytes behind that.
pub header_from_binary-header_to_binary :
    (h : BundleHeader) (rest : List ℕ)
    → IsHeader h
    → header_from_binary (header_to_binary h ++ rest) ≡ ok h
header_from_binary-header_to_binary h rest (magic, version, salt, t, m, p) =
    let r5 = to_le_bytes 4 h.argon2_p ++ rest in
    let r4 = to_le_bytes 4 h.argon2_m ++ r5 in
    let r3 = to_le_bytes 4 h.argon2_t ++ r4 in
    let r2 = h.salt ++ r3 in
    let r1 = to_le_bytes 2 h.version ++ r2 in
    let shape : header_to_binary h ++ rest ≡ h.magic ++ r1 =
      unfold header_to_binary in simp append_assoc in
    rw shape (
      unfold header_from_binary in
      rw (
        get_array_front bundle_magic_len h.magic r1 magic,
        get_u16_front h.version r2 version,
        get_array_front bundle_salt_len h.salt r3 salt,
        get_u32_front h.argon2_t r4 t,
        get_u32_front h.argon2_m r5 m,
        get_u32_front h.argon2_p rest p,
      ))

-- For a trailer whose fields have the sizes of their types, `from_binary` returns it from what
-- `to_binary` writes and any bytes behind that.
pub trailer_from_binary-trailer_to_binary :
    (t : BundleTrailer) (rest : List ℕ)
    → IsTrailer t
    → trailer_from_binary (trailer_to_binary t ++ rest) ≡ ok t
trailer_from_binary-trailer_to_binary t rest (root, io, il, mo, ml, magic) =
    let r5 = t.magic_end ++ rest in
    let r4 = to_le_bytes 4 t.manifest_len ++ r5 in
    let r3 = to_le_bytes 8 t.manifest_offset ++ r4 in
    let r2 = to_le_bytes 4 t.index_len ++ r3 in
    let r1 = to_le_bytes 8 t.index_offset ++ r2 in
    let shape : trailer_to_binary t ++ rest ≡ t.root_tree ++ r1 =
      unfold trailer_to_binary in simp append_assoc in
    rw shape (
      unfold trailer_from_binary in
      rw (
        get_array_front 32 t.root_tree r1 root,
        get_u64_front t.index_offset r2 io,
        get_u32_front t.index_len r3 il,
        get_u64_front t.manifest_offset r4 mo,
        get_u32_front t.manifest_len r5 ml,
        get_array_front bundle_magic_len t.magic_end rest magic,
      ))

entry_from_binary-entry_to_binary :
    (e : BundleIndexEntry) → IsEntry e → entry_from_binary (entry_to_binary e) ≡ ok e
entry_from_binary-entry_to_binary e (size, off, len, raw) =
    let r4 = to_le_bytes 4 e.raw_length ++ [] in
    let r3 = to_le_bytes 4 e.length ++ r4 in
    let r2 = to_le_bytes 8 e.offset ++ r3 in
    let shape : entry_to_binary e ≡ e.id ++ (to_u8 e.blob_type ∷ r2) =
      unfold entry_to_binary in simp (append_assoc, append-nil) in
    rw shape (
      unfold entry_from_binary in
      rw (
        get_array_front 32 e.id (to_u8 e.blob_type ∷ r2) size,
        get_u8_front (to_u8 e.blob_type) r2,
        try_from-to_u8 e.blob_type,
        get_u64_front e.offset r3 off,
        get_u32_front e.length r4 len,
        get_u32_front e.raw_length [] raw,
      ))

length-entry_to_binary :
    (e : BundleIndexEntry) → IsEntry e → length (entry_to_binary e) ≡ binary_size
length-entry_to_binary e (size, _, _, _) =
    let r3 = to_le_bytes 4 e.length ++ to_le_bytes 4 e.raw_length in
    let r2 = to_le_bytes 8 e.offset ++ r3 in
    let shape : entry_to_binary e ≡ e.id ++ (to_u8 e.blob_type ∷ r2) =
      unfold entry_to_binary in simp append_assoc in
    omega (
      arith,
      ap length shape,
      length-append e.id (to_u8 e.blob_type ∷ r2),
      length-append (to_le_bytes 8 e.offset) r3,
      length-append (to_le_bytes 4 e.length) (to_le_bytes 4 e.raw_length),
      length-to_le_bytes 8 e.offset,
      length-to_le_bytes 4 e.length,
      length-to_le_bytes 4 e.raw_length,
    )

put_entries-append :
    (buf : List ℕ) (es : List BundleIndexEntry) → put_entries buf es ≡ buf ++ put_entries [] es
unfolding put_entries
put_entries-append buf [] = sym (append-nil buf)
put_entries-append buf (e ∷ es) =
    put_entries-append (buf ++ entry_to_binary e) es
    ∙ append_assoc buf (entry_to_binary e) (put_entries [] es)
    ∙ ap (λ t. buf ++ t) (sym (put_entries-append (entry_to_binary e) es))

get_entries-put_entries :
    (es : List BundleIndexEntry) (rest : List ℕ)
    → All IsEntry es
    → get_entries (length es) (put_entries [] es ++ rest) ≡ ok es
get_entries-put_entries [] rest h = unfold get_entries in refl
get_entries-put_entries (e ∷ es) rest (is_entry, h) =
    let first = entry_to_binary e in
    let others = put_entries [] es ++ rest in
    let size = length-entry_to_binary e is_entry in
    let whole : put_entries [] (e ∷ es) ≡ first ++ put_entries [] es =
      unfold put_entries in put_entries-append first es in
    let shape : put_entries [] (e ∷ es) ++ rest ≡ first ++ others =
      ap (λ t. t ++ rest) whole ∙ append_assoc first (put_entries [] es) rest in
    let enough : ltb (length (first ++ others)) binary_size ≡ false =
      ground (arith, size, length-append first others) in
    rw shape (
      step (first ++ others) others enough (drop_front binary_size first others size)
        (ap entry_from_binary (take_front binary_size first others size)
          ∙ entry_from_binary-entry_to_binary e is_entry)
        (get_entries-put_entries es rest h))
  where
    step :
        (cur others : List ℕ)
        → ltb (length cur) binary_size ≡ false
        → drop binary_size cur ≡ others
        → entry_from_binary (take binary_size cur) ≡ ok e
        → get_entries (length es) others ≡ ok es
        → get_entries (suc (length es)) cur ≡ ok (e ∷ es)
    step cur others enough dropped read rest_read =
        unfold get_entries in rw (enough, read, dropped, rest_read)

-- For an index of fewer than 2^64 entries whose fields have the sizes of their types, `from_binary`
-- returns the entries in their order from what `to_binary` writes and any bytes behind that.
pub index_from_binary-index_to_binary :
    (es : List BundleIndexEntry) (rest : List ℕ)
    → length es < 2 ^ 64
    → All IsEntry es
    → index_from_binary (index_to_binary es ++ rest) ≡ ok es
index_from_binary-index_to_binary es rest few h =
    let body = put_entries [] es ++ rest in
    let whole : index_to_binary es ≡ to_le_bytes 8 (length es) ++ put_entries [] es =
      unfold index_to_binary in put_entries-append (to_le_bytes 8 (length es)) es in
    let shape : index_to_binary es ++ rest ≡ to_le_bytes 8 (length es) ++ body =
      ap (λ t. t ++ rest) whole
      ∙ append_assoc (to_le_bytes 8 (length es)) (put_entries [] es) rest in
    rw shape (
      unfold index_from_binary in
      rw (get_u64_front (length es) body few) (get_entries-put_entries es rest h))
