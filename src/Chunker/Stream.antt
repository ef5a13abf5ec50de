-- ===== src/Chunker/Stream.antt =====
-- crates/chunker/src/lib.rs: `ChunkStream`, whose `next` fills a buffer from the source and cuts one
-- chunk off its front.
pub mod Filling
pub mod Next
pub mod Run
pub mod Chunks
use mapache.Prelude.{
  ℕ, zero, suc, ◌+◌, ◌-◌, ◌<◌, min, Bool, true, false, List, [], ◌∷◌, ◌++◌, Option, none, some, leb,
  ltb, ◌==◌, ◌&&◌, not, if◌then◌else◌, length, take, drop,
}
use mapache.Chunker.Config.{Chunker}
use mapache.Chunker.Cut.{cut}
use mapache.Chunker.Reader.{Reader, ReadResult, got, interrupted, failed}

pub record Chunk : Type 0 where
  pub offset : ℕ
  pub size : ℕ
  pub payload : List ℕ

-- `io_error` is `Some(Err(ChunkerError::Io(e)))`. `panicked` is no value of the program: an
-- assertion of `cut`, or the model's loop out of fuel.
pub data Item : Type 0 where
  chunk : Chunk → Item
  end_of_stream io_error panicked : Item

abbrev pub is_empty {ℓ} : {A : Type ℓ} → List A → Bool
is_empty [] = true
is_empty (x ∷ xs) = false

module _ (r : Reader) where
  pub record ChunkStream : Type 0 where
    pub source : r.State
    pub buffer : List ℕ
    pub global_offset : ℕ

  abbrev pub open_stream : r.State → ChunkStream
  open_stream source = record { source = source; buffer = []; global_offset = 0 }

  -- How the read loop of `next` ends: with the flag `eof`, or with an error of the source.
  pub data Fill : Type 0 where
    filled : Bool → ChunkStream → Fill
    broken : ChunkStream → Fill
    stuck : ChunkStream → Fill

  -- The `match` on what one call of `read` returned, with `continue` as the next round.
  absorb : ReadResult → r.State → ChunkStream → (ChunkStream → Fill) → Fill
  absorb (got []) source' st continue = filled true (record st { source = source' })
  absorb (got (b ∷ bs)) source' st continue =
      continue (record st { source = source'; buffer = st.buffer ++ (b ∷ bs) })
  absorb interrupted source' st continue = continue (record st { source = source' })
  absorb failed source' st continue = broken (record st { source = source' })

  -- `while self.buffer.len() < max_size`. The capacity is at least `max_size` after the `reserve`, so
  -- `to_read` is `needed`.
  unfoldable pub fill : ℕ → ℕ → ChunkStream → Fill
  unfolding absorb
  fill zero max_size st = stuck st
  fill (suc fuel) max_size st =
      let (result, source') = r.read st.source (max_size - length st.buffer) in
      let round = absorb result source' st (fill fuel max_size) in
      if ltb (length st.buffer) max_size then round else filled false st

  -- The chunk of the first `n` bytes of the buffer. The offset is below 2 ^ 64 in a source of fewer bytes, and
  -- is not made to wrap here.
  unfoldable pub drain : ℕ → ChunkStream → Item × ChunkStream
  drain n st = (
    chunk (record { offset = st.global_offset; size = n; payload = take n st.buffer }),
    record st { buffer = drop n st.buffer; global_offset = st.global_offset + n },
  )

  -- "Flushes any remaining buffered data as the final chunk on EOF."
  unfoldable pub flush : Bool → ChunkStream → Item × ChunkStream
  unfolding drain
  flush eof st =
      if eof && not (is_empty st.buffer) then drain (length st.buffer) st else (end_of_stream, st)

  unfoldable pub cut_off : Option ℕ → Bool → ChunkStream → Item × ChunkStream
  unfolding drain flush
  cut_off none eof st = (panicked, st)
  cut_off (some cut_point) eof st = if ltb 0 cut_point then drain cut_point st else flush eof st

  unfoldable pub emit : Chunker → Bool → ChunkStream → Item × ChunkStream
  unfolding cut_off flush
  emit c eof st =
      if eof && is_empty st.buffer
      then (end_of_stream, st)
      else if leb c.min_size (length st.buffer)
      then cut_off (cut c (take (min (length st.buffer) c.max_size) st.buffer)) eof st
      else flush eof st

  next_of : Chunker → Fill → Item × ChunkStream
  unfolding emit
  next_of c (filled eof st) = emit c eof st
  next_of c (broken st) = (io_error, st)
  next_of c (stuck st) = (panicked, st)

  unfoldable pub next : ℕ → Chunker → ChunkStream → Item × ChunkStream
  unfolding fill next_of
  next fuel c st = next_of c (fill fuel c.max_size st)
