-- ===== src/Packer/Saver/Batches.antt =====
-- One type of blob: what the packers that were sent hold, and what is still held.
use mapache.Prelude.{
  ◌<◌, ◌≡◌, refl, sym, ap, ◌∙◌, subst, Bool, true, false, List, [], ◌∷◌, ◌++◌, ok, if◌then◌else◌,
  length, concat, append-nil, append_assoc, length-append, true-ne-false, arith,
}
use mapache.Common.{BlobType, data_blob, tree_blob, padding}
use mapache.Packer.{Packer, empty_packer, add_blob}
use mapache.Packer.Pack.{
  SaveBlob, IsPacked, IsRequest, empty-IsPacked, add_blob_effect, add_blob-IsPacked,
}
use mapache.Packer.Saver.{PackSaver}

-- A packer that holds some blobs, and bytes where it holds any.
abbrev pub Holding : List SaveBlob → Packer → Type 0
Holding bs p = IsPacked bs p × (length p.buffer ≡ 0 → bs ≡ [])

pub empty-Holding : Holding [] empty_packer
empty-Holding = (empty-IsPacked, λ e. refl)

-- A request of a client: its encoded data are not empty.
abbrev pub IsSavable : SaveBlob → Type 0
IsSavable b = IsRequest b × (0 < length b.encoded)

pub add_blob-Holding :
    (p p' : Packer) (b : SaveBlob) (bs : List SaveBlob)
    → IsSavable b
    → Holding bs p
    → add_blob p b.id b.blob_type b.encoded b.raw_length ≡ ok p'
    → Holding (bs ++ (b ∷ [])) p'
add_blob-Holding p p' b bs (request, pos) (inv, held) added = (
  add_blob-IsPacked p p' b added bs request inv,
  λ e.
      absurd (
        omega
          (arith, ap length (add_blob_effect p p' b added).0, length-append p.buffer b.encoded)),
)

abbrev pub same_type : BlobType → BlobType → Bool
same_type data_blob data_blob = true
same_type tree_blob tree_blob = true
same_type padding padding = true
same_type _ _ = false

pub same_type_sound : (t u : BlobType) → same_type t u ≡ true → t ≡ u
same_type_sound data_blob data_blob h = refl
same_type_sound tree_blob tree_blob h = refl
same_type_sound padding padding h = refl
same_type_sound data_blob tree_blob h = absurd (true-ne-false (sym h))
same_type_sound data_blob padding h = absurd (true-ne-false (sym h))
same_type_sound tree_blob data_blob h = absurd (true-ne-false (sym h))
same_type_sound tree_blob padding h = absurd (true-ne-false (sym h))
same_type_sound padding data_blob h = absurd (true-ne-false (sym h))
same_type_sound padding tree_blob h = absurd (true-ne-false (sym h))

-- The requests of one type, and the packers of one type that were sent.
abbrev pub of_type : BlobType → List SaveBlob → List SaveBlob
of_type t [] = []
of_type t (b ∷ bs) = if same_type t b.blob_type then b ∷ of_type t bs else of_type t bs

abbrev pub packs_of : BlobType → List (BlobType × Packer) → List Packer
packs_of t [] = []
packs_of t ((u, p) ∷ ps) = if same_type t u then p ∷ packs_of t ps else packs_of t ps

-- One batch of blobs for each packer.
abbrev pub AllPacked : List (List SaveBlob) → List Packer → Type 0
AllPacked [] [] = Unit
AllPacked (bs ∷ batches) (p ∷ ps) = IsPacked bs p × AllPacked batches ps
AllPacked _ _ = ⊥

abbrev pub packer_of : BlobType → PackSaver → Packer
packer_of data_blob s = s.data_packer
packer_of tree_blob s = s.tree_packer
packer_of padding s = empty_packer

-- The invariant of the loop for one type: what was sent and what is held are the requests so far.
abbrev pub Saved : BlobType → List SaveBlob → PackSaver → Type 0
Saved t done s =
    (batches : List (List SaveBlob)) × (left : List SaveBlob) × AllPacked batches
      (packs_of t s.dispatched)
    × Holding left (packer_of t s)
    × (concat batches ++ left ≡ of_type t done)

AllPacked-snoc :
    (batches : List (List SaveBlob)) (ps : List Packer) (bs : List SaveBlob) (p : Packer)
    → AllPacked batches ps
    → IsPacked bs p
    → AllPacked (batches ++ (bs ∷ [])) (ps ++ (p ∷ []))
AllPacked-snoc [] [] bs p h last = (last, tt)
AllPacked-snoc [] (q ∷ ps) bs p h last = absurd h
AllPacked-snoc (b ∷ batches) [] bs p h last = absurd h
AllPacked-snoc (b ∷ batches) (q ∷ ps) bs p h last = (h.0, AllPacked-snoc batches ps bs p h.1 last)

concat-snoc :
    (batches : List (List SaveBlob)) (bs : List SaveBlob)
    → concat (batches ++ (bs ∷ [])) ≡ concat batches ++ bs
concat-snoc [] bs = append-nil bs
concat-snoc (b ∷ batches) bs =
    ap (λ t. b ++ t) (concat-snoc batches bs) ∙ sym (append_assoc b (concat batches) bs)

pub packs_of-snoc :
    (t u : BlobType) (ps : List (BlobType × Packer)) (p : Packer)
    → packs_of t (ps ++ ((u, p) ∷ []))
      ≡ (if same_type t u then packs_of t ps ++ (p ∷ []) else packs_of t ps)
packs_of-snoc t u [] p = refl
packs_of-snoc t u ((v, q) ∷ ps) p =
    by_tests (same_type t v) (same_type t u) (packs_of-snoc t u ps p)
  where
    by_tests :
        (x y : Bool) {whole : List Packer}
        → whole ≡ (if y then packs_of t ps ++ (p ∷ []) else packs_of t ps)
        → (if x then q ∷ whole else whole) ≡ (
            if y
            then (if x then q ∷ packs_of t ps else packs_of t ps) ++ (p ∷ [])
            else (if x then q ∷ packs_of t ps else packs_of t ps))
    by_tests true true e = ap (◌∷◌ q) e
    by_tests true false e = ap (◌∷◌ q) e
    by_tests false true e = e
    by_tests false false e = e

pub of_type-snoc :
    (t : BlobType) (bs : List SaveBlob) (b : SaveBlob)
    → of_type t (bs ++ (b ∷ []))
      ≡ (if same_type t b.blob_type then of_type t bs ++ (b ∷ []) else of_type t bs)
of_type-snoc t [] b = refl
of_type-snoc t (c ∷ bs) b =
    by_tests (same_type t c.blob_type) (same_type t b.blob_type) (of_type-snoc t bs b)
  where
    by_tests :
        (x y : Bool) {whole : List SaveBlob}
        → whole ≡ (if y then of_type t bs ++ (b ∷ []) else of_type t bs)
        → (if x then c ∷ whole else whole) ≡ (
            if y
            then (if x then c ∷ of_type t bs else of_type t bs) ++ (b ∷ [])
            else (if x then c ∷ of_type t bs else of_type t bs))
    by_tests true true e = ap (◌∷◌ c) e
    by_tests true false e = ap (◌∷◌ c) e
    by_tests false true e = e
    by_tests false false e = e

-- A packer of the type is sent, and an empty one takes its place.
pub Saved-sent :
    (t : BlobType) (done left : List SaveBlob) (batches : List (List SaveBlob))
    (sent : List (BlobType × Packer)) (p : Packer)
    → same_type t t ≡ true
    → AllPacked batches (packs_of t sent)
    → Holding left p
    → concat batches ++ left ≡ of_type t done
    → (batches' : List (List SaveBlob)) × (left' : List SaveBlob) × AllPacked batches'
        (packs_of t (sent ++ ((t, p) ∷ [])))
      × Holding left' empty_packer
      × (concat batches' ++ left' ≡ of_type t done)
Saved-sent t done left batches sent p same packed held whole = (
  batches ++ (left ∷ []),
  [],
  subst (AllPacked (batches ++ (left ∷ [])))
      (sym (
        packs_of-snoc t t sent p
        ∙ ap (λ x. if x then packs_of t sent ++ (p ∷ []) else packs_of t sent) same))
      (AllPacked-snoc batches (packs_of t sent) left p packed held.0),
  empty-Holding,
  append-nil (concat (batches ++ (left ∷ []))) ∙ concat-snoc batches left ∙ whole,
)
