-- ===== src/Chunker/Stream/Run.antt =====
-- A whole run of a chunk stream, against the cut points of the whole input.
use mapache.Prelude.{
  ℕ, zero, suc, ◌+◌, ◌≤◌, ◌<◌, ◌≡◌, ◌≢◌, refl, ap, List, [], ◌∷◌, length, take, drop, length-drop,
  le-cases, inl, inr, Result, ok, err, ◌>>=◌, io, panicked as panic, arith,
}
use mapache.Chunker.Config.{Chunker}
use mapache.Chunker.Cut.Reference.{IsWellFormed, reference_cut}
use mapache.Chunker.Cut.Bounds.{reference_cut-InBounds}
use mapache.Chunker.Reader.{Reader}
use mapache.Chunker.Stream.Filling.{pending, SourceFails}
use mapache.Chunker.Stream.Next.{Delivers, next-Delivers}
use mapache.Chunker.Stream.{
  Chunk, Item, chunk, end_of_stream, io_error, panicked, ChunkStream, open_stream, next,
}

module _ (c : Chunker) where
  -- The chunks of a whole input that stands in memory, the first of them at `offset`.
  unfoldable pub chunks_of : ℕ → ℕ → List ℕ → List Chunk
  chunks_of zero offset bytes = []
  chunks_of (suc fuel) offset [] = []
  chunks_of (suc fuel) offset (b ∷ bs) =
      let n = reference_cut c (b ∷ bs) in
      record { offset = offset; size = n; payload = take n (b ∷ bs) }
      ∷ chunks_of fuel (offset + n) (drop n (b ∷ bs))

  -- The chunks of an input; a chunk has a byte at least.
  abbrev pub all_chunks : List ℕ → List Chunk
  all_chunks bytes = chunks_of (length bytes) 0 bytes

module _ (r : Reader) (c : Chunker) where
  collect_item : Item → ChunkStream r → (ChunkStream r → Result (List Chunk)) → Result (List Chunk)
  collect_item (chunk k) st rest = do ks ← rest st; ok (k ∷ ks)
  collect_item end_of_stream st rest = ok []
  collect_item io_error st rest = err io
  collect_item panicked st rest = err panic

  -- `for chunk in stream { … }`, up to the first error. `fuel` bounds the chunks, `rounds` the reads
  -- of one `next`.
  unfoldable pub collect : ℕ → ℕ → ChunkStream r → Result (List Chunk)
  unfolding collect_item
  collect zero rounds st = err panic
  collect (suc fuel) rounds st =
      let (item, st') = next r rounds c st in collect_item item st' (collect fuel rounds)

module _ (c : Chunker) (w : IsWellFormed c) where
  -- More fuel than there are bytes changes nothing.
  pub chunk_pos : (b : ℕ) (bs : List ℕ) → 0 < reference_cut c (b ∷ bs)
  chunk_pos b bs =
      let (short, long) = reference_cut-InBounds c (b ∷ bs) w in
      elim (le-cases (length (b ∷ bs)) c.min_size) [
        | inl le ↦ omega (arith, short le)
        | inr lt ↦ omega (arith, long lt, w.min_bound)
      ]

  chunks_of-fuel :
      (m n offset : ℕ) (bytes : List ℕ)
      → length bytes ≤ m
      → length bytes ≤ n
      → chunks_of c m offset bytes ≡ chunks_of c n offset bytes
  unfolding chunks_of
  chunks_of-fuel zero zero offset bytes p q = refl
  chunks_of-fuel zero (suc n) offset [] p q = refl
  chunks_of-fuel zero (suc n) offset (b ∷ bs) p q = absurd (omega arith)
  chunks_of-fuel (suc m) zero offset [] p q = refl
  chunks_of-fuel (suc m) zero offset (b ∷ bs) p q = absurd (omega arith)
  chunks_of-fuel (suc m) (suc n) offset [] p q = refl
  chunks_of-fuel (suc m) (suc n) offset (b ∷ bs) p q =
      let k = reference_cut c (b ∷ bs) in
      let less = length-drop k (b ∷ bs) in
      let pos = chunk_pos b bs in
      ap (λ t. record { offset = offset; size = k; payload = take k (b ∷ bs) } ∷ t)
        (chunks_of-fuel m n (offset + k) (drop k (b ∷ bs)) (omega (arith, less, pos))
          (omega (arith, less, pos)))

  -- The first chunk, and those of the rest.
  chunks_of-cons :
      (offset : ℕ) (bytes : List ℕ)
      → bytes ≢ []
      → let n = reference_cut c bytes in
        (chunks_of c (length bytes) offset bytes
          ≡ record { offset = offset; size = n; payload = take n bytes }
            ∷ chunks_of c (length (drop n bytes)) (offset + n) (drop n bytes))
        × (length (drop n bytes) < length bytes)
  chunks_of-cons offset [] some_left = absurd (some_left refl)
  chunks_of-cons offset (b ∷ bs) some_left =
      let n = reference_cut c (b ∷ bs) in
      let less = length-drop n (b ∷ bs) in
      let pos = chunk_pos b bs in
      (
        unfold chunks_of in
            ap (λ t. record { offset = offset; size = n; payload = take n (b ∷ bs) } ∷ t)
              (chunks_of-fuel (length bs) (length (drop n (b ∷ bs))) (offset + n) (drop n (b ∷ bs))
                (omega (arith, less, pos)) (omega arith)),
        omega (arith, less, pos),
      )

  module _ (r : Reader) (steady : ¬ SourceFails r) where
    abbrev Collects : ℕ → ℕ → ChunkStream r → Type 0
    Collects fuel rounds st =
        collect r c fuel rounds st
        ≡ ok (chunks_of c (length (pending r st)) st.global_offset (pending r st))

    collect_chunk :
        (rest : ChunkStream r → Result (List Chunk)) (st st' : ChunkStream r) (k : Chunk)
        → Delivers r c st (chunk k) st'
        → rest st' ≡ ok (chunks_of c (length (pending r st')) st'.global_offset (pending r st'))
        → collect_item r c (chunk k) st' rest
          ≡ ok (chunks_of c (length (pending r st)) st.global_offset (pending r st))
    unfolding collect_item
    collect_chunk rest st st' k (some_left, cut_there, adv) e =
        let (whole, _) = chunks_of-cons st.global_offset (pending r st) some_left in
        rw (e, adv.counted, adv.rest, cut_there, whole)

    collect_next :
        (fuel rounds : ℕ) (st st' : ChunkStream r) (item : Item)
        → Delivers r c st item st'
        → length (pending r st) < suc fuel
        → r.patience st.source + c.max_size < rounds
        → ((st' : ChunkStream r)
            → length (pending r st') < fuel
            → length st'.buffer ≤ c.max_size
            → r.patience st'.source + c.max_size < rounds
            → Collects fuel rounds st')
        → collect_item r c item st' (collect r c fuel rounds)
          ≡ ok (chunks_of c (length (pending r st)) st.global_offset (pending r st))
    collect_next fuel rounds st st' (chunk k) d more enough ih =
        let (_, less) = chunks_of-cons st.global_offset (pending r st) d.0 in
        collect_chunk (collect r c fuel rounds) st st' k d
          (ih st' (omega (arith, less, ap length d.2.rest)) d.2.bounded (omega (arith, d.2.calm)))
    collect_next fuel rounds st st' end_of_stream d more enough ih =
        unfold collect_item chunks_of in rw d.0
    collect_next fuel rounds st st' io_error d more enough ih = absurd (steady d.1)
    collect_next fuel rounds st st' panicked d more enough ih = absurd d

    -- From any state of a stream over a source that does not fail.
    collect-chunks_of :
        (fuel rounds : ℕ) (st : ChunkStream r)
        → length (pending r st) < fuel
        → length st.buffer ≤ c.max_size
        → r.patience st.source + c.max_size < rounds
        → Collects fuel rounds st
    unfolding collect
    collect-chunks_of zero rounds st more bounded enough = absurd (omega arith)
    collect-chunks_of (suc fuel) rounds st more bounded enough =
        collect_next fuel rounds st (next r rounds c st).1 (next r rounds c st).0
          (next-Delivers r c w rounds st bounded (omega arith)) more enough
          (collect-chunks_of fuel rounds)

-- With a chunker as `Chunker::new` builds it, over a source whose reads do not fail, and with fuel
-- for the bytes and the interruptions of the source: a stream runs to its end without a panic, and
-- its chunks are those of the whole input, cut where `cut` cuts it, however the source splits its
-- bytes over the reads and wherever it interrupts them.
pub collect-all_chunks :
    (r : Reader) (c : Chunker) (fuel rounds : ℕ) (source : r.State)
    → IsWellFormed c
    → ¬ SourceFails r
    → length (r.content source) < fuel
    → r.patience source + c.max_size < rounds
    → collect r c fuel rounds (open_stream r source) ≡ ok (all_chunks c (r.content source))
collect-all_chunks r c fuel rounds source w steady more enough =
    collect-chunks_of c w r steady fuel rounds (open_stream r source) more (omega arith) enough
