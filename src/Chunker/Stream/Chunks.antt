-- ===== src/Chunker/Stream/Chunks.antt =====
-- The chunks of an input: their sizes, their offsets, and the input put together again.
use mapache.Prelude.{
  ℕ, zero, suc, ◌+◌, ◌≤◌, ◌<◌, ◌≡◌, ◌≢◌, refl, ◌∙◌, ap, List, [], ◌∷◌, ◌++◌, map, concat, length,
  take, drop, take-append-drop, length-drop, length-take, drop_of_length-le, le-cases, inl, inr, ok,
  arith,
}
use mapache.Chunker.Config.{Chunker}
use mapache.Chunker.Cut.Reference.{IsWellFormed, reference_cut}
use mapache.Chunker.Cut.Bounds.{reference_cut-InBounds}
use mapache.Chunker.Reader.{Reader}
use mapache.Chunker.Stream.{Chunk, open_stream}
use mapache.Chunker.Stream.Filling.{SourceFails}
use mapache.Chunker.Stream.Run.{chunks_of, all_chunks, chunk_pos, collect, collect-all_chunks}

-- The chunks of an input, from an offset on: each starts where the one before ends and has the size
-- of its payload, and all but the last one have a size between the minimum and the maximum.
abbrev pub AreChunks : Chunker → ℕ → List Chunk → Type 0
AreChunks c offset [] = Unit
AreChunks c offset (k ∷ []) =
    (k.offset ≡ offset) × (length k.payload ≡ k.size) × (0 < k.size) × (k.size ≤ c.max_size)
AreChunks c offset (k ∷ k' ∷ ks) =
    (k.offset ≡ offset)
    × (length k.payload ≡ k.size)
    × (c.min_size ≤ k.size)
    × (k.size ≤ c.max_size)
    × AreChunks c (offset + k.size) (k' ∷ ks)

module _ (c : Chunker) (w : IsWellFormed c) where
  chunk_lem :
      (bytes : List ℕ)
      → bytes ≢ []
      → let n = reference_cut c bytes in
        (length (take n bytes) ≡ n)
        × (0 < n)
        × (n ≤ c.max_size)
        × (drop n bytes ≢ [] → c.min_size ≤ n)
  chunk_lem [] some_left = absurd (some_left refl)
  chunk_lem (b ∷ bs) some_left =
      let n = reference_cut c (b ∷ bs) in
      let (short, long) = reference_cut-InBounds c (b ∷ bs) w in
      let pos = chunk_pos c w b bs in
      let len = length-take n (b ∷ bs) in
      elim (le-cases (length (b ∷ bs)) c.min_size) [
        | inl le ↦ (
          omega (arith, len, short le),
          pos,
          omega (arith, short le, w.min_normal, w.normal_max),
          λ more. absurd (more (drop_of_length-le n (b ∷ bs) (omega (arith, short le)))),
        )
        | inr lt ↦
            let (lower, upper, most) = long lt in
            (omega (arith, len, upper), pos, most, λ more. lower)
      ]

  AreChunks-cons :
      (offset : ℕ) (k : Chunk) (ks : List Chunk)
      → k.offset ≡ offset
      → (length k.payload ≡ k.size) × (0 < k.size) × (k.size ≤ c.max_size)
      → (ks ≢ [] → c.min_size ≤ k.size)
      → AreChunks c (offset + k.size) ks
      → AreChunks c offset (k ∷ ks)
  AreChunks-cons offset k [] start (len, pos, most) least rest = (start, len, pos, most)
  AreChunks-cons offset k (k' ∷ ks) start (len, pos, most) least rest =
      (start, len, least (λ e. let no-cons : k' ∷ ks ≡ [] → ⊥ = λ q. cc in no-cons e), most, rest)

  chunks_of-nil : (fuel offset : ℕ) → chunks_of c fuel offset [] ≡ []
  unfolding chunks_of
  chunks_of-nil zero offset = refl
  chunks_of-nil (suc fuel) offset = refl

  chunks_of-AreChunks :
      (fuel offset : ℕ) (bytes : List ℕ)
      → length bytes ≤ fuel
      → AreChunks c offset (chunks_of c fuel offset bytes)
  unfolding chunks_of
  chunks_of-AreChunks zero offset bytes enough = tt
  chunks_of-AreChunks (suc fuel) offset [] enough = tt
  chunks_of-AreChunks (suc fuel) offset (b ∷ bs) enough =
      let n = reference_cut c (b ∷ bs) in
      let (len, pos, most, least) = chunk_lem (b ∷ bs) (λ e. cc) in
      AreChunks-cons offset (record { offset = offset; size = n; payload = take n (b ∷ bs) })
        (chunks_of c fuel (offset + n) (drop n (b ∷ bs))) refl (len, pos, most)
        (λ more.
          least
            (λ e. more (ap (chunks_of c fuel (offset + n)) e ∙ chunks_of-nil fuel (offset + n))))
        (chunks_of-AreChunks fuel (offset + n) (drop n (b ∷ bs))
          (omega (arith, length-drop n (b ∷ bs), pos)))

  concat-chunks_of :
      (fuel offset : ℕ) (bytes : List ℕ)
      → length bytes ≤ fuel
      → concat (map (λ k. k.payload) (chunks_of c fuel offset bytes)) ≡ bytes
  unfolding chunks_of
  concat-chunks_of zero offset [] enough = refl
  concat-chunks_of zero offset (b ∷ bs) enough = absurd (omega arith)
  concat-chunks_of (suc fuel) offset [] enough = refl
  concat-chunks_of (suc fuel) offset (b ∷ bs) enough =
      let n = reference_cut c (b ∷ bs) in
      ap (λ t. take n (b ∷ bs) ++ t)
        (concat-chunks_of fuel (offset + n) (drop n (b ∷ bs))
          (omega (arith, length-drop n (b ∷ bs), chunk_pos c w b bs)))
      ∙ take-append-drop n (b ∷ bs)

all_chunks-AreChunks :
    (c : Chunker) (bytes : List ℕ)
    → IsWellFormed c
    → (concat (map (λ k. k.payload) (all_chunks c bytes)) ≡ bytes)
      × AreChunks c 0 (all_chunks c bytes)
all_chunks-AreChunks c bytes w = (
  concat-chunks_of c w (length bytes) 0 bytes (omega arith),
  chunks_of-AreChunks c w (length bytes) 0 bytes (omega arith),
)

-- With a chunker as `Chunker::new` builds it, over a source whose reads do not fail, and with fuel
-- for its bytes and interruptions: a stream runs to its end and delivers every byte of the source
-- exactly once and in order. Its chunks lie one behind the other from offset 0, each with the size
-- of its payload, none empty and none above `max_size`, and all but the last one have `min_size`
-- bytes at least.
pub collect_reconstructs :
    (r : Reader) (c : Chunker) (fuel rounds : ℕ) (source : r.State)
    → IsWellFormed c
    → ¬ SourceFails r
    → length (r.content source) < fuel
    → r.patience source + c.max_size < rounds
    → (ks : List Chunk) × (collect r c fuel rounds (open_stream r source) ≡ ok ks)
      × (concat (map (λ k. k.payload) ks) ≡ r.content source)
      × AreChunks c 0 ks
collect_reconstructs r c fuel rounds source w steady more enough =
    let (whole, parts) = all_chunks-AreChunks c (r.content source) w in
    (
      all_chunks c (r.content source),
      collect-all_chunks r c fuel rounds source w steady more enough,
      whole,
      parts,
    )
