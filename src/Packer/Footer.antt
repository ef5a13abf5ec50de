-- ===== src/Packer/Footer.antt =====
-- The pack footer: what `generate_footer` writes, `parse_footer` reads back without the padding.
use mapache.Prelude.{
  ℕ, zero, suc, ◌+◌, ◌-◌, ◌*◌, ◌%◌, ◌^◌, ◌<◌, ◌≤◌, ◌≡◌, refl, sym, ap, ◌∙◌, false, List, [], ◌∷◌,
  ◌++◌, Result, ok, All, All-append, ltb, length, drop, length-append, take_front, drop_front,
  append-nil, append_assoc, arith,
}
use mapache.Common.{ContentId, IsId, BlobType, data_blob, tree_blob, padding, to_u8, try_from-to_u8}
use mapache.Binary.{
  to_le_bytes, from_le_bytes, length-to_le_bytes, from_le_bytes-to_le_bytes, get_array_front,
  get_u8_front, get_u32_front,
}
use mapache.Storage.{Primitives, SecureStorage, nonce_len, encode, decode}
use mapache.Storage.RoundTrip.{decode-encode}
use mapache.Packer.{
  PackedBlobDescriptor, put_descriptor, put_descriptors, num_padding_blobs, padding_blob, Random,
  padding_blobs, generate_footer, read_entry, push_entry, parse_descriptors, parse_footer,
  footer_blob_multiple,
}

abbrev pub IsU32 : ℕ → Type 0
IsU32 n = n < 2 ^ 32

-- The fields of a descriptor fit into its entry.
abbrev pub Fits : PackedBlobDescriptor → Type 0
Fits d = IsId d.id × IsU32 d.length × IsU32 d.raw_length

abbrev pub IsBlob : BlobType → Type 0
IsBlob padding = ⊥
IsBlob _ = Unit {0}

-- Descriptors of blobs that lie one behind the other from an offset on.
abbrev pub Contiguous : ℕ → List PackedBlobDescriptor → Type 0
Contiguous offset [] = Unit
Contiguous offset (d ∷ ds) =
    (d.offset ≡ offset)
    × IsU32 offset
    × IsBlob d.blob_type
    × Fits d
    × Contiguous (offset + d.length) ds

-- The random values have the sizes of their types.
abbrev pub IsTyped : Random → Type 0
IsTyped rng = (n : ℕ) → Fits (padding_blob (rng n))

entry : PackedBlobDescriptor → List ℕ
entry d = d.id ++ (to_u8 d.blob_type ∷ (to_le_bytes 4 d.length ++ to_le_bytes 4 d.raw_length))

entries : List PackedBlobDescriptor → List ℕ
entries [] = []
entries (d ∷ ds) = entry d ++ entries ds

put_descriptor-entry :
    (footer : List ℕ) (d : PackedBlobDescriptor) → put_descriptor footer d ≡ footer ++ entry d
unfolding put_descriptor entry
put_descriptor-entry footer d = simp append_assoc

put_descriptors-entries :
    (footer : List ℕ) (ds : List PackedBlobDescriptor)
    → put_descriptors footer ds ≡ footer ++ entries ds
unfolding put_descriptors entries
put_descriptors-entries footer [] = sym (append-nil footer)
put_descriptors-entries footer (d ∷ ds) =
    put_descriptors-entries (put_descriptor footer d) ds
    ∙ ap (λ t. t ++ entries ds) (put_descriptor-entry footer d)
    ∙ append_assoc footer (entry d) (entries ds)

read_entry-entry :
    (d : PackedBlobDescriptor) (rest : List ℕ)
    → Fits d
    → read_entry (entry d ++ rest) ≡ ok (d.id, d.blob_type, d.length, d.raw_length, rest)
read_entry-entry d rest (size, len, raw) =
    let raw_bytes = to_le_bytes 4 d.raw_length ++ rest in
    let len_bytes = to_le_bytes 4 d.length ++ raw_bytes in
    let shape : entry d ++ rest ≡ d.id ++ (to_u8 d.blob_type ∷ len_bytes) =
      unfold entry in simp append_assoc in
    rw shape (
      unfold read_entry in
      rw (
        get_array_front 32 d.id (to_u8 d.blob_type ∷ len_bytes) size,
        get_u8_front (to_u8 d.blob_type) len_bytes,
        try_from-to_u8 d.blob_type,
        get_u32_front d.length raw_bytes len,
        get_u32_front d.raw_length rest raw,
      ))

length-entry : (d : PackedBlobDescriptor) → Fits d → length (entry d) ≡ 41
unfolding entry
length-entry d (size, _, _) = omega (
  arith,
  length-append d.id (to_u8 d.blob_type ∷ (to_le_bytes 4 d.length ++ to_le_bytes 4 d.raw_length)),
  length-append (to_le_bytes 4 d.length) (to_le_bytes 4 d.raw_length),
  length-to_le_bytes 4 d.length,
  length-to_le_bytes 4 d.raw_length,
)

-- One round of the loop, over an entry.
parse_round :
    (fuel : ℕ) (d : PackedBlobDescriptor) (rest : List ℕ) (offset : ℕ)
    → Fits d
    → parse_descriptors (suc fuel) (entry d ++ rest) offset
      ≡ push_entry d.id d.blob_type d.length d.raw_length offset (parse_descriptors fuel rest)
parse_round fuel d rest offset fits =
    by_shape (entry d ++ rest) (omega (arith, length-entry d fits, length-append (entry d) rest))
      (read_entry-entry d rest fits)
  where
    by_shape :
        (cur : List ℕ)
        → 0 < length cur
        → read_entry cur ≡ ok (d.id, d.blob_type, d.length, d.raw_length, rest)
        → parse_descriptors (suc fuel) cur offset
          ≡ push_entry d.id d.blob_type d.length d.raw_length offset (parse_descriptors fuel rest)
    by_shape [] pos e = absurd (omega arith)
    by_shape (b ∷ bs) pos e = unfold parse_descriptors in rw e

abbrev AllPadding : List PackedBlobDescriptor → Type 0
AllPadding [] = Unit
AllPadding (d ∷ ds) = (d.blob_type ≡ padding) × Fits d × AllPadding ds

padding_blobs-AllPadding : (rng : Random) (n : ℕ) → IsTyped rng → AllPadding (padding_blobs rng n)
unfolding padding_blobs
padding_blobs-AllPadding rng zero typed = tt
padding_blobs-AllPadding rng (suc n) typed = (refl, typed n, padding_blobs-AllPadding rng n typed)

parse-padding :
    (fuel : ℕ) (ds : List PackedBlobDescriptor) (offset : ℕ)
    → AllPadding ds
    → length ds ≤ fuel
    → parse_descriptors fuel (entries ds) offset ≡ ok []
unfolding entries
parse-padding zero [] offset h enough = unfold parse_descriptors in refl
parse-padding (suc fuel) [] offset h enough = unfold parse_descriptors in refl
parse-padding zero (d ∷ ds) offset h enough = absurd (omega arith)
parse-padding (suc fuel) (d ∷ ds) offset (is_padding, fits, h) enough =
    parse_round fuel d (entries ds) offset fits
    ∙ ap (λ t. push_entry d.id t d.length d.raw_length offset (parse_descriptors fuel (entries ds)))
        is_padding
    ∙ skip (parse-padding fuel ds offset h (omega arith))
  where
    skip :
        parse_descriptors fuel (entries ds) offset ≡ ok []
        → push_entry d.id padding d.length d.raw_length offset (parse_descriptors fuel (entries ds))
          ≡ ok []
    skip e = unfold push_entry in e

-- An entry of a blob is kept.
push_blob :
    (id : ContentId) (t : BlobType) (len raw_length offset : ℕ)
    (next : ℕ → Result (List PackedBlobDescriptor)) {rest : List PackedBlobDescriptor}
    → IsBlob t
    → next ((offset + len) % 2 ^ 32) ≡ ok rest
    → push_entry id t len raw_length offset next
      ≡ ok (
          record { id = id; blob_type = t; offset = offset; length = len; raw_length = raw_length }
          ∷ rest)
unfolding push_entry
push_blob id data_blob len raw_length offset next h e = rw e
push_blob id tree_blob len raw_length offset next h e = rw e
push_blob id padding len raw_length offset next h e = absurd h

parse-entries :
    (fuel offset : ℕ) (ds pads : List PackedBlobDescriptor)
    → Contiguous offset ds
    → AllPadding pads
    → length ds + length pads ≤ fuel
    → parse_descriptors fuel (entries (ds ++ pads)) (offset % 2 ^ 32) ≡ ok ds
unfolding entries
parse-entries fuel offset [] pads h hp enough =
    parse-padding fuel pads (offset % 2 ^ 32) hp (omega arith)
parse-entries zero offset (d ∷ ds) pads h hp enough = absurd (omega arith)
parse-entries (suc fuel) offset (d ∷ ds) pads (start, low, is_blob, fits, h) hp enough =
    let same : offset % 2 ^ 32 ≡ d.offset = omega arith in
    parse_round fuel d (entries (ds ++ pads)) (offset % 2 ^ 32) fits
    ∙ ap
        (λ o.
          push_entry d.id d.blob_type d.length d.raw_length o
            (parse_descriptors fuel (entries (ds ++ pads))))
        same
    ∙ push_blob d.id d.blob_type d.length d.raw_length d.offset
        (parse_descriptors fuel (entries (ds ++ pads))) is_blob
        (ap (λ o. parse_descriptors fuel (entries (ds ++ pads)) ((o + d.length) % 2 ^ 32)) start
          ∙ parse-entries fuel (offset + d.length) ds pads h hp (omega arith))

length-entries-le :
    (ds : List PackedBlobDescriptor) → All Fits ds → length ds * 41 ≡ length (entries ds)
unfolding entries
length-entries-le [] h = refl
length-entries-le (d ∷ ds) (fits, h) =
    omega (arith, length-entry d fits, length-append (entry d) (entries ds), length-entries-le ds h)

Contiguous-Fits : (offset : ℕ) (ds : List PackedBlobDescriptor) → Contiguous offset ds → All Fits ds
Contiguous-Fits offset [] h = tt
Contiguous-Fits offset (d ∷ ds) h = (h.3, Contiguous-Fits (offset + d.length) ds h.4)

AllPadding-Fits : (ds : List PackedBlobDescriptor) → AllPadding ds → All Fits ds
AllPadding-Fits [] h = tt
AllPadding-Fits (d ∷ ds) h = (h.1, AllPadding-Fits ds h.2)

length-padding_blobs : (rng : Random) (n : ℕ) → length (padding_blobs rng n) ≡ n
unfolding padding_blobs
length-padding_blobs rng zero = refl
length-padding_blobs rng (suc n) = ap suc (length-padding_blobs rng n)

num_padding_blobs_lem :
    (n : ℕ)
    → ((n + num_padding_blobs n) % footer_blob_multiple ≡ 0)
      × (num_padding_blobs n < footer_blob_multiple)
unfolding num_padding_blobs
num_padding_blobs_lem n = ground arith

module _ (rng : Random) (typed : IsTyped rng) (ds : List PackedBlobDescriptor) where
  pads : List PackedBlobDescriptor
  pads = padding_blobs rng (num_padding_blobs (length ds))

  footer-entries : (generate_footer rng ds).1 ≡ entries (ds ++ pads)
  unfolding generate_footer pads
  footer-entries = put_descriptors-entries [] (ds ++ pads)

  length-footer : All Fits ds → length (generate_footer rng ds).1 ≡ (length ds + length pads) * 41
  length-footer h =
      let fits =
        All-append Fits ds pads h
          (AllPadding-Fits pads (unfold pads in padding_blobs-AllPadding rng _ typed)) in
      omega (
        arith,
        ap length footer-entries,
        length-entries-le (ds ++ pads) fits,
        length-append ds pads,
      )

  -- For descriptors whose fields fit, and random values of the right sizes: the number of
  -- descriptors with the padding is a multiple of 64, fewer than 64 are added, and the footer has 41
  -- bytes for each of them.
  pub generate_footer_size :
      All Fits ds
      → (length (generate_footer rng ds).0 % footer_blob_multiple ≡ 0)
        × (length (generate_footer rng ds).0 < length ds + footer_blob_multiple)
        × (length (generate_footer rng ds).1 ≡ length (generate_footer rng ds).0 * 41)
  generate_footer_size h =
      let all : length (generate_footer rng ds).0 ≡ length ds + length pads =
        unfold generate_footer pads in length-append ds _ in
      let count : length pads ≡ num_padding_blobs (length ds) =
        unfold pads in length-padding_blobs rng _ in
      let added = num_padding_blobs_lem (length ds) in
      (
        omega (arith, all, count, added),
        omega (arith, all, count, added),
        omega (arith, all, length-footer h),
      )

  parse_descriptors-generate_footer :
      Contiguous 0 ds
      → parse_descriptors (length (generate_footer rng ds).1) (generate_footer rng ds).1 0 ≡ ok ds
  parse_descriptors-generate_footer h =
      let len = length-footer (Contiguous-Fits 0 ds h) in
      rw footer-entries (
        parse-entries (length (entries (ds ++ pads))) 0 ds pads h
          (unfold pads in padding_blobs-AllPadding rng _ typed)
          (omega (arith, len, ap length footer-entries)))

-- What `parse_footer` finds behind any bytes, where an encoded footer and its length stand last.
parse_footer-append :
    (prim : Primitives) (storage : SecureStorage prim) (front encoded footer : List ℕ)
    → IsU32 (length encoded)
    → decode prim storage encoded ≡ ok footer
    → parse_footer prim storage (front ++ (encoded ++ to_le_bytes 4 (length encoded)))
      ≡ parse_descriptors (length footer) footer 0
unfolding parse_footer
parse_footer-append prim storage front encoded footer fits decodes =
    let trailer = to_le_bytes 4 (length encoded) in
    let whole = front ++ (encoded ++ trailer) in
    let four = length-to_le_bytes 4 (length encoded) in
    let total : length whole ≡ length front + length encoded + 4 =
      omega
        (arith, length-append front (encoded ++ trailer), length-append encoded trailer, four) in
    let last : drop (length whole - 4) whole ≡ trailer =
      ap (λ t. drop (length whole - 4) t) (sym (append_assoc front encoded trailer))
      ∙ drop_front (length whole - 4) (front ++ encoded) trailer
          (omega (arith, length-append front encoded, total)) in
    let read : from_le_bytes (drop (length whole - 4) whole) ≡ length encoded =
      ap from_le_bytes last ∙ from_le_bytes-to_le_bytes 4 (length encoded) fits in
    let middle : drop (length whole - length encoded - 4) whole ≡ encoded ++ trailer =
      drop_front (length whole - length encoded - 4) front (encoded ++ trailer)
        (omega (arith, total)) in
    let long : ltb (length whole) 4 ≡ false = ground (arith, total) in
    let inside : ltb (length whole) (length encoded + 4) ≡ false = ground (arith, total) in
    rw (long, read, inside, middle, take_front (length encoded) encoded trailer refl, decodes)

-- For descriptors of blobs that lie one behind the other from offset 0, random values of the right
-- sizes and a nonce of 12 bytes: `parse_footer`, given any bytes that end in the encoded footer and
-- its length, returns the descriptors, with their offsets and without the padding.
pub parse_footer-generate_footer :
    (prim : Primitives) (storage : SecureStorage prim) (rng : Random) (nonce : List ℕ)
    (front encoded : List ℕ) (ds : List PackedBlobDescriptor)
    → IsTyped rng
    → length nonce ≡ nonce_len
    → Contiguous 0 ds
    → encode prim storage nonce (generate_footer rng ds).1 ≡ ok encoded
    → IsU32 (length encoded)
    → parse_footer prim storage (front ++ (encoded ++ to_le_bytes 4 (length encoded))) ≡ ok ds
parse_footer-generate_footer prim storage rng nonce front encoded ds typed size h e fits =
    parse_footer-append prim storage front encoded (generate_footer rng ds).1 fits
      (decode-encode prim storage nonce (generate_footer rng ds).1 encoded size e)
    ∙ parse_descriptors-generate_footer rng typed ds h
