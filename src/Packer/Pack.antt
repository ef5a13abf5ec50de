-- ===== src/Packer/Pack.antt =====
-- A pack from its first blob to its bytes: `add_blob`, `finalize_and_extract` and `parse_footer`.
use mapache.Prelude.{
  ℕ, ◌+◌, ◌≤◌, ◌≡◌, refl, sym, ap, ◌∙◌, List, [], ◌∷◌, ◌++◌, Result, ok, ◌>>=◌, length, take, drop,
  length-append, take-append, drop-append, drop_front, take_of_length-le, length-drop, arith,
}
use mapache.Common.{ContentId, IsId, BlobType}
use mapache.Packer.{PackedBlobDescriptor, Packer, empty_packer, add_blob}
use mapache.Packer.Footer.{IsU32, IsBlob, Contiguous}

-- `PackSaverRequest::SaveBlob`
pub record SaveBlob : Type 0 where
  pub id : ContentId
  pub blob_type : BlobType
  pub encoded : List ℕ
  pub raw_length : ℕ

unfoldable pub add_blobs : Packer → List SaveBlob → Result Packer
add_blobs p [] = ok p
add_blobs p (b ∷ bs) = do p' ← add_blob p b.id b.blob_type b.encoded b.raw_length; add_blobs p' bs

-- The descriptors are those of the blobs, in order, and each one points at its blob's bytes.
abbrev pub Holds : List ℕ → List SaveBlob → List PackedBlobDescriptor → Type 0
Holds bytes [] [] = Unit
Holds bytes (b ∷ bs) (d ∷ ds) =
    (d.id ≡ b.id)
    × (d.blob_type ≡ b.blob_type)
    × (d.raw_length ≡ b.raw_length)
    × (take d.length (drop d.offset bytes) ≡ b.encoded)
    × (d.offset + d.length ≤ length bytes)
    × Holds bytes bs ds
Holds bytes _ _ = ⊥

-- Bytes behind a pack's blobs do not touch them.
pub Holds-append :
    (bytes more : List ℕ) (bs : List SaveBlob) (ds : List PackedBlobDescriptor)
    → Holds bytes bs ds
    → Holds (bytes ++ more) bs ds
Holds-append bytes more [] [] h = tt
Holds-append bytes more [] (d ∷ ds) h = h
Holds-append bytes more (b ∷ bs) [] h = h
Holds-append bytes more (b ∷ bs) (d ∷ ds) (i, t, r, slice, inside, h) = (
  i,
  t,
  r,
  ap (take d.length) (drop-append d.offset bytes more (omega arith))
      ∙ take-append d.length (drop d.offset bytes) more (omega (arith, length-drop d.offset bytes))
      ∙ slice,
  omega (arith, length-append bytes more),
  Holds-append bytes more bs ds h,
)

Holds-snoc :
    (bytes : List ℕ) (bs : List SaveBlob) (ds : List PackedBlobDescriptor) (b : SaveBlob)
    (d : PackedBlobDescriptor)
    → Holds bytes bs ds
    → Holds bytes (b ∷ []) (d ∷ [])
    → Holds bytes (bs ++ (b ∷ [])) (ds ++ (d ∷ []))
Holds-snoc bytes [] [] b d h last = last
Holds-snoc bytes [] (x ∷ ds) b d h last = absurd h
Holds-snoc bytes (x ∷ bs) [] b d h last = absurd h
Holds-snoc bytes (x ∷ bs) (y ∷ ds) b d (i, t, r, slice, inside, h) last =
    (i, t, r, slice, inside, Holds-snoc bytes bs ds b d h last)

-- Where a run of descriptors ends.
abbrev end_of : ℕ → List PackedBlobDescriptor → ℕ
end_of offset [] = offset
end_of offset (d ∷ ds) = end_of (offset + d.length) ds

Contiguous-snoc :
    (offset : ℕ) (ds : List PackedBlobDescriptor) (d : PackedBlobDescriptor)
    → Contiguous offset ds
    → Contiguous (end_of offset ds) (d ∷ [])
    → Contiguous offset (ds ++ (d ∷ []))
Contiguous-snoc offset [] d h last = last
Contiguous-snoc offset (x ∷ ds) d (o, u, b, f, h) last =
    (o, u, b, f, Contiguous-snoc (offset + x.length) ds d h last)

end_of-snoc :
    (offset : ℕ) (ds : List PackedBlobDescriptor) (d : PackedBlobDescriptor)
    → end_of offset (ds ++ (d ∷ [])) ≡ end_of offset ds + d.length
end_of-snoc offset [] d = refl
end_of-snoc offset (x ∷ ds) d = end_of-snoc (offset + x.length) ds d

-- The invariant of a packer, with the blobs that were added to it.
pub record IsPacked (bs : List SaveBlob) (p : Packer) : Type 0 where
  pub contiguous : Contiguous 0 p.descriptors
  pub at_end : end_of 0 p.descriptors ≡ length p.buffer
  pub holds : Holds p.buffer bs p.descriptors

-- A blob that a client may save: its type is no padding, and its ID has 32 bytes.
abbrev pub IsRequest : SaveBlob → Type 0
IsRequest b = IsBlob b.blob_type × IsId b.id

pub empty-IsPacked : IsPacked [] empty_packer
empty-IsPacked = record { contiguous = tt; at_end = refl; holds = tt }

module _ (p p' : Packer) (b : SaveBlob)
    (added : add_blob p b.id b.blob_type b.encoded b.raw_length ≡ ok p') where
  abbrev pub new_descriptor : PackedBlobDescriptor
  new_descriptor = record {
    id = b.id;
    blob_type = b.blob_type;
    offset = length p.buffer;
    length = length b.encoded;
    raw_length = b.raw_length;
  }

  pub add_blob_effect :
      (p'.buffer ≡ p.buffer ++ b.encoded)
      × (p'.descriptors ≡ p.descriptors ++ (new_descriptor ∷ []))
      × IsU32 (length p.buffer)
      × IsU32 (length b.encoded)
      × IsU32 b.raw_length
  unfolding add_blob
  add_blob_effect = ground arith

  pub add_blob-IsPacked :
      (bs : List SaveBlob) → IsRequest b → IsPacked bs p → IsPacked (bs ++ (b ∷ [])) p'
  add_blob-IsPacked bs (is_blob, is_id) h =
      let (buffer', descriptors', low, len, raw) = add_blob_effect in
      let last_contiguous : Contiguous (end_of 0 p.descriptors) (new_descriptor ∷ []) =
        (sym h.at_end, omega (arith, h.at_end), is_blob, (is_id, len, raw), tt) in
      let last_held : Holds (p.buffer ++ b.encoded) (b ∷ []) (new_descriptor ∷ []) = (
        refl,
        refl,
        refl,
        ap (take (length b.encoded)) (drop_front (length p.buffer) p.buffer b.encoded refl)
            ∙ take_of_length-le (length b.encoded) b.encoded (omega arith),
        omega (arith, length-append p.buffer b.encoded),
        tt,
      ) in
      record {
        contiguous =
            rw descriptors'
              (Contiguous-snoc 0 p.descriptors new_descriptor h.contiguous last_contiguous);
        at_end =
            rw (descriptors', buffer')
              (omega (
                arith,
                end_of-snoc 0 p.descriptors new_descriptor,
                length-append p.buffer b.encoded,
                h.at_end,
              ));
        holds =
            rw (descriptors', buffer')
              (Holds-snoc (p.buffer ++ b.encoded) bs p.descriptors b new_descriptor
                (Holds-append p.buffer b.encoded bs p.descriptors h.holds) last_held);
      }
