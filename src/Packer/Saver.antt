-- ===== src/Packer/Saver.antt =====
-- crates/mapache/src/repository/packer.rs: the request loop of `PackSaver`.
pub mod Batches
pub mod Dispatch
pub mod Requests
pub mod Delivery
use mapache.Prelude.{
  ℕ, zero, suc, ◌+◌, Bool, true, false, List, [], ◌∷◌, ◌++◌, Result, ok, err, ◌>>=◌, repo, leb,
  ◌==◌, if◌then◌else◌, length,
}
use mapache.Common.{BlobType, data_blob, tree_blob, padding}
use mapache.Packer.{Packer, empty_packer, size, add_blob}
use mapache.Packer.Pack.{SaveBlob}

-- `dispatched` holds the packers that were sent to the workers, in their order.
pub record PackSaver : Type 0 where
  pub data_packer : Packer
  pub tree_packer : Packer
  pub dispatched : List (BlobType × Packer)

abbrev pub new_saver : PackSaver
new_saver = record { data_packer = empty_packer; tree_packer = empty_packer; dispatched = [] }

-- `workers` tells whether the worker pool answers the n-th dispatch: it hands out a free packer, which
-- `recycle_buffer` has emptied, and takes the full one. A worker that could not finish a pack hands its packer
-- back as it is, notes the error and ends; such a run, whose error comes from the join at its end, is left
-- out, as is the join.
module _ (workers : ℕ → Bool) (max_packer_size : ℕ) where
  -- Swap a packer for a fresh one and send it.
  unfoldable pub send :
      BlobType → Packer → List (BlobType × Packer) → Result (List (BlobType × Packer))
  send blob_type p dispatched =
      if workers (length dispatched) then ok (dispatched ++ ((blob_type, p) ∷ [])) else err repo

  unfoldable pub dispatch_packer : PackSaver → BlobType → Result PackSaver
  dispatch_packer s data_blob = if size s.data_packer == 0 then ok s else do
    dispatched ← send data_blob s.data_packer s.dispatched
    ok (record s { data_packer = empty_packer; dispatched = dispatched })
  dispatch_packer s tree_blob = if size s.tree_packer == 0 then ok s else do
    dispatched ← send tree_blob s.tree_packer s.dispatched
    ok (record s { tree_packer = empty_packer; dispatched = dispatched })
  dispatch_packer s padding = ok s

  -- A packer that is large enough is dispatched.
  unfoldable pub dispatch_full : ℕ → PackSaver → BlobType → Result PackSaver
  dispatch_full n s blob_type = if leb max_packer_size n then dispatch_packer s blob_type else ok s

  -- One request.
  unfoldable pub save_as : BlobType → PackSaver → SaveBlob → Result PackSaver
  save_as data_blob s b = do
    p ← add_blob s.data_packer b.id data_blob b.encoded b.raw_length
    dispatch_full (size p) (record s { data_packer = p }) data_blob
  save_as tree_blob s b = do
    p ← add_blob s.tree_packer b.id tree_blob b.encoded b.raw_length
    dispatch_full (size p) (record s { tree_packer = p }) tree_blob
  save_as padding s b = ok s

  unfoldable pub save_all : PackSaver → List SaveBlob → Result PackSaver
  save_all s [] = ok s
  save_all s (b ∷ bs) = do s' ← save_as b.blob_type s b; save_all s' bs

  -- The loop over the requests, and the final flushes.
  unfoldable pub run : List SaveBlob → Result PackSaver
  run requests = do
    s ← save_all new_saver requests
    s' ← dispatch_packer s data_blob
    dispatch_packer s' tree_blob
