-- ===== src/Chunker/Reader.antt =====
-- The source of a chunk stream: the trait `std::io::Read` as `ChunkStream::next` uses it.
use mapache.Prelude.{ℕ, ◌≤◌, ◌<◌, ◌≡◌, List, [], ◌++◌, length}

-- What one call of `read` comes back with: some bytes (none at the end of the input), an error of
-- kind `Interrupted`, or another error.
pub data ReadResult : Type 0 where
  got : List ℕ → ReadResult
  interrupted : ReadResult
  failed : ReadResult

-- A source, with what the documentation of `Read::read` promises. `content` is what the source has
-- still to deliver. A call delivers at most as many bytes as it is asked for, in order, and no byte
-- only at the end of the input; a call that returns an error has read nothing. `patience` bounds the
-- interruptions that are still to come.
pub record Reader : Type 1 where
  pub State : Type 0
  pub read : State → ℕ → ReadResult × State
  pub content : State → List ℕ
  pub patience : State → ℕ
  pub read_got :
      (s : State) (n : ℕ) (bs : List ℕ)
      → (read s n).0 ≡ got bs
      → (content s ≡ bs ++ content (read s n).1)
        × (length bs ≤ n)
        × (patience (read s n).1 ≤ patience s)
  pub read_end : (s : State) (n : ℕ) → 0 < n → (read s n).0 ≡ got [] → content s ≡ []
  pub read_interrupted :
      (s : State) (n : ℕ)
      → (read s n).0 ≡ interrupted
      → (content (read s n).1 ≡ content s) × (patience (read s n).1 < patience s)
  pub read_failed :
      (s : State) (n : ℕ)
      → (read s n).0 ≡ failed
      → (content (read s n).1 ≡ content s) × (patience (read s n).1 ≤ patience s)
