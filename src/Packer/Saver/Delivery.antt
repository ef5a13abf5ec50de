-- ===== src/Packer/Saver/Delivery.antt =====
-- What the request loop of `PackSaver` hands to the workers: every blob, in order.
use mapache.Prelude.{
  ℕ, ◌≡◌, refl, sym, ap, ◌∙◌, subst, inl, inr, Bool, true, false, List, [], ◌∷◌, ◌++◌, Result, ok,
  err, ◌>>=◌, length, concat, All, append-nil, append_assoc,
}
use mapache.Common.{BlobType, data_blob, tree_blob, padding}
use mapache.Packer.Pack.{SaveBlob}
use mapache.Packer.Saver.{PackSaver, new_saver, dispatch_packer, save_as, save_all, run}
use mapache.Packer.Saver.Batches.{
  empty-Holding, IsSavable, same_type, of_type, packs_of, AllPacked, packer_of, Saved,
}
use mapache.Packer.Saver.Dispatch.{
  Dispatched, ok-injective, dispatch_packer-Dispatched, Dispatched-Saved,
}
use mapache.Packer.Saver.Requests.{save_as-Saved}

-- A chain of fallible steps that succeeds, and its parts.
bind_parts :
    {A B : Type 0} {b : B} (r : Result A) (next : A → Result B)
    → (r >>= next) ≡ ok b
    → (a : A) × (r ≡ ok a) × (next a ≡ ok b)
bind_parts {b = b} (err x) next e = let no' : err x ≡ ok b → ⊥ = λ q. cc in absurd (no' e)
bind_parts (ok a) next e = (a, refl, e)

module _ (workers : ℕ → Bool) (max_packer_size : ℕ) where
  save_all_cons :
      (s s' : PackSaver) (b : SaveBlob) (bs : List SaveBlob)
      → save_all workers max_packer_size s (b ∷ bs) ≡ ok s'
      → (s1 : PackSaver) × (save_as workers max_packer_size b.blob_type s b ≡ ok s1)
        × (save_all workers max_packer_size s1 bs ≡ ok s')
  save_all_cons s s' b bs e =
      bind_parts (save_as workers max_packer_size b.blob_type s b)
        (λ s1. save_all workers max_packer_size s1 bs) (unfold save_all in e)

  save_all-Saved :
      (t : BlobType) (done bs : List SaveBlob) (s s' : PackSaver)
      → same_type t t ≡ true
      → All IsSavable bs
      → save_all workers max_packer_size s bs ≡ ok s'
      → Saved t done s
      → Saved t (done ++ bs) s'
  save_all-Saved t done [] s s' self savable e inv =
      let same : ok s ≡ ok s' = unfold save_all in e in
      rw (append-nil done) (subst (Saved t done) (ok-injective same) inv)
  save_all-Saved t done (b ∷ bs) s s' self savable e inv =
      let (s1, first, others) = save_all_cons s s' b bs e in
      subst (λ x. Saved t x s') (append_assoc done (b ∷ []) bs)
        (save_all-Saved t (done ++ (b ∷ [])) bs s1 s' self savable.1 others
          (save_as-Saved workers max_packer_size t done b s s1 self savable.0 first inv))

  -- The types that a pack is made for.
  abbrev pub IsPackType : BlobType → Type 0
  IsPackType padding = ⊥
  IsPackType _ = Unit {0}

  -- After a dispatch a packer of the type holds no byte, and stays so while others are dispatched.
  own_packer_empty :
      (u : BlobType) (s s' : PackSaver)
      → Dispatched workers max_packer_size u s s'
      → length (packer_of u s').buffer ≡ 0
  own_packer_empty u s s' (inl (same, nothing)) =
      ap (λ x. length (packer_of u x).buffer) same ∙ nothing
  own_packer_empty u s s' (inr (sent, fresh, others)) = ap (λ p. length p.buffer) fresh

  other_packer_empty :
      (t u : BlobType) (s s' : PackSaver)
      → same_type t u ≡ false
      → Dispatched workers max_packer_size u s s'
      → length (packer_of t s).buffer ≡ 0
      → length (packer_of t s').buffer ≡ 0
  other_packer_empty t u s s' apart (inl (same, nothing)) e =
      ap (λ x. length (packer_of t x).buffer) same ∙ e
  other_packer_empty t u s s' apart (inr (sent, fresh, others)) e =
      ap (λ p. length p.buffer) (others t apart) ∙ e

  -- Where the packer holds no byte, everything was sent.
  all_sent :
      (t : BlobType) (done : List SaveBlob) (s : PackSaver)
      → Saved t done s
      → length (packer_of t s).buffer ≡ 0
      → (batches : List (List SaveBlob)) × AllPacked batches (packs_of t s.dispatched)
        × (concat batches ≡ of_type t done)
  all_sent t done s (batches, left, packed, held, whole) e = (
    batches,
    packed,
    sym (append-nil (concat batches)) ∙ ap (λ x. concat batches ++ x) (sym (held.1 e)) ∙ whole,
  )

  new_saver-Saved : (t : BlobType) → Saved t [] new_saver
  new_saver-Saved data_blob = ([], [], tt, empty-Holding, refl)
  new_saver-Saved tree_blob = ([], [], tt, empty-Holding, refl)
  new_saver-Saved padding = ([], [], tt, empty-Holding, refl)

  self_type : (t : BlobType) → same_type t t ≡ true
  self_type data_blob = refl
  self_type tree_blob = refl
  self_type padding = refl

  run_steps :
      (requests : List SaveBlob) (s : PackSaver)
      → run workers max_packer_size requests ≡ ok s
      → (s1 : PackSaver) × (s2 : PackSaver) × (save_all workers max_packer_size new_saver requests
          ≡ ok s1)
        × (dispatch_packer workers max_packer_size s1 data_blob ≡ ok s2)
        × (dispatch_packer workers max_packer_size s2 tree_blob ≡ ok s)
  run_steps requests s e =
      let chain : (save_all workers max_packer_size new_saver requests >>= (λ s1.
        dispatch_packer workers max_packer_size s1 data_blob
        >>= (λ s2. dispatch_packer workers max_packer_size s2 tree_blob)))
          ≡ ok s =
        unfold run in e in
      let (s1, saved, rest) =
        bind_parts (save_all workers max_packer_size new_saver requests)
          (λ s1.
            dispatch_packer workers max_packer_size s1 data_blob
            >>= (λ s2. dispatch_packer workers max_packer_size s2 tree_blob))
          chain in
      let (s2, data_sent, tree_sent) =
        bind_parts (dispatch_packer workers max_packer_size s1 data_blob)
          (λ s2. dispatch_packer workers max_packer_size s2 tree_blob) rest in
      (s1, s2, saved, data_sent, tree_sent)

  -- For requests with a data or tree type, an ID of 32 bytes and data that are not empty: where the
  -- loop runs to its end without an error, the packers of each type that were sent to the workers hold
  -- exactly the requests of that type, each one once and in order, and every packer's descriptors lie
  -- one behind the other and point at their own blobs.
  pub run_delivers :
      (requests : List SaveBlob) (s : PackSaver) (t : BlobType)
      → All IsSavable requests
      → run workers max_packer_size requests ≡ ok s
      → IsPackType t
      → (batches : List (List SaveBlob)) × AllPacked batches (packs_of t s.dispatched)
        × (concat batches ≡ of_type t requests)
  run_delivers requests s t savable e is_pack =
      let (s1, s2, saved, data_sent, tree_sent) = run_steps requests s e in
      let by_data = dispatch_packer-Dispatched workers max_packer_size data_blob s1 s2 data_sent in
      let by_tree = dispatch_packer-Dispatched workers max_packer_size tree_blob s2 s tree_sent in
      let kept =
        save_all-Saved t [] requests new_saver s1 (self_type t) savable saved (new_saver-Saved t) in
      let kept2 =
        Dispatched-Saved workers max_packer_size t data_blob requests s1 s2 (self_type t) by_data
          kept in
      let kept3 =
        Dispatched-Saved workers max_packer_size t tree_blob requests s2 s (self_type t) by_tree
          kept2 in
      all_sent t requests s kept3 (no_byte t is_pack by_data by_tree)
    where
      no_byte :
          {s1 s2 : PackSaver} (t : BlobType)
          → IsPackType t
          → Dispatched workers max_packer_size data_blob s1 s2
          → Dispatched workers max_packer_size tree_blob s2 s
          → length (packer_of t s).buffer ≡ 0
      no_byte {s1} {s2} data_blob h by_data by_tree =
          other_packer_empty data_blob tree_blob s2 s refl by_tree
            (own_packer_empty data_blob s1 s2 by_data)
      no_byte {s1} {s2} tree_blob h by_data by_tree = own_packer_empty tree_blob s2 s by_tree
      no_byte padding h by_data by_tree = absurd h
