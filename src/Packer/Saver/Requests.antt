-- ===== src/Packer/Saver/Requests.antt =====
-- What one request does to the packers, and that it keeps the invariant of each type.
use mapache.Prelude.{
  ℕ, ◌≡◌, refl, sym, ap, ◌∙◌, subst, inl, inr, Bool, true, false, List, [], ◌∷◌, ◌++◌, Result, ok,
  err, ◌>>=◌, leb, if◌then◌else◌, length, concat, append_assoc, Bool-cases, true-ne-false,
}
use mapache.Common.{BlobType, data_blob, tree_blob, padding}
use mapache.Packer.{Packer, add_blob}
use mapache.Packer.Footer.{IsBlob}
use mapache.Packer.Pack.{SaveBlob}
use mapache.Packer.Saver.{PackSaver, dispatch_packer, dispatch_full, save_as}
use mapache.Packer.Saver.Batches.{
  Holding, IsSavable, add_blob-Holding, same_type, same_type_sound, of_type, packs_of, AllPacked,
  packer_of, Saved, of_type-snoc,
}
use mapache.Packer.Saver.Dispatch.{ok-injective, dispatch_packer-Dispatched, Dispatched-Saved}

module _ (workers : ℕ → Bool) (max_packer_size : ℕ) where
  -- What a request does before the packer's size is tested.
  abbrev Added : BlobType → SaveBlob → PackSaver → PackSaver → Type 0
  Added u b s s' =
      (add_blob (packer_of u s) b.id u b.encoded b.raw_length ≡ ok (packer_of u s'))
      × (s'.dispatched ≡ s.dispatched)
      × ((t : BlobType) → same_type t u ≡ false → packer_of t s' ≡ packer_of t s)

  Added-Saved :
      (t u : BlobType) (done : List SaveBlob) (b : SaveBlob) (s s' : PackSaver)
      → b.blob_type ≡ u
      → IsSavable b
      → Added u b s s'
      → Saved t done s
      → Saved t (done ++ (b ∷ [])) s'
  Added-Saved t u done b s s' type_is savable (added, listed, others)
        (batches, left, packed, held, whole) =
      elim (Bool-cases (same_type t u)) [
        | inl same ↦ (
          batches,
          left ++ (b ∷ []),
          subst (λ x. AllPacked batches (packs_of t x)) (sym listed) packed,
          mine (same_type_sound t u same),
          sym (append_assoc (concat batches) left (b ∷ []))
              ∙ ap (λ x. x ++ (b ∷ [])) whole
              ∙ sym (counted true same),
        )
        | inr apart ↦ (
          batches,
          left,
          subst (λ x. AllPacked batches (packs_of t x)) (sym listed) packed,
          subst (Holding left) (sym (others t apart)) held,
          whole ∙ sym (counted false apart),
        )
      ]
    where
      counted :
          (x : Bool)
          → same_type t u ≡ x
          → of_type t (done ++ (b ∷ []))
            ≡ (if x then of_type t done ++ (b ∷ []) else of_type t done)
      counted x q =
          of_type-snoc t done b
          ∙ ap (λ y. if y then of_type t done ++ (b ∷ []) else of_type t done)
              (ap (same_type t) type_is ∙ q)

      mine : t ≡ u → Holding (left ++ (b ∷ [])) (packer_of t s')
      mine same =
          let held_u : Holding left (packer_of u s) =
            subst (λ x. Holding left (packer_of x s)) same held in
          let added_b : add_blob (packer_of u s) b.id b.blob_type b.encoded b.raw_length
              ≡ ok (packer_of u s') =
            ap (λ x. add_blob (packer_of u s) b.id x b.encoded b.raw_length) type_is ∙ added in
          subst (λ x. Holding (left ++ (b ∷ [])) (packer_of x s')) (sym same)
            (add_blob-Holding (packer_of u s) (packer_of u s') b left savable held_u added_b)

  -- A request: the blob is added, and the packer sent if it is full.
  Requested : BlobType → SaveBlob → PackSaver → PackSaver → Type 0
  Requested u b s s' =
      (s1 : PackSaver) × Added u b s s1
      × (dispatch_full workers max_packer_size (length (packer_of u s1).buffer) s1 u ≡ ok s')

  after_add :
      (u : BlobType) (b : SaveBlob) (s s' : PackSaver) (put : Packer → PackSaver)
      → ((p : Packer) → packer_of u (put p) ≡ p)
      → ((p : Packer) → (put p).dispatched ≡ s.dispatched)
      → ((p : Packer) (t : BlobType) → same_type t u ≡ false → packer_of t (put p) ≡ packer_of t s)
      → (add_blob (packer_of u s) b.id u b.encoded b.raw_length
          >>= (λ p. dispatch_full workers max_packer_size (length p.buffer) (put p) u))
        ≡ ok s'
      → Requested u b s s'
  unfolding Requested
  after_add u b s s' put here listed others e =
      by_case (add_blob (packer_of u s) b.id u b.encoded b.raw_length) refl e
    where
      by_case :
          (r : Result Packer)
          → add_blob (packer_of u s) b.id u b.encoded b.raw_length ≡ r
          → (r >>= (λ p. dispatch_full workers max_packer_size (length p.buffer) (put p) u)) ≡ ok s'
          → Requested u b s s'
      by_case (err x) q e' = let no' : err x ≡ ok s' → ⊥ = λ q'. cc in absurd (no' e')
      by_case (ok p) q e' = (
        put p,
        (q ∙ ap ok (sym (here p)), listed p, others p),
        ap (λ x. dispatch_full workers max_packer_size (length x.buffer) (put p) u) (here p) ∙ e',
      )

  save_as-Requested :
      (u : BlobType) (b : SaveBlob) (s s' : PackSaver)
      → b.blob_type ≡ u
      → IsSavable b
      → save_as workers max_packer_size u s b ≡ ok s'
      → Requested u b s s'
  save_as-Requested data_blob b s s' type_is savable e =
      after_add data_blob b s s' (λ p. record s { data_packer = p }) (λ p. refl) (λ p. refl)
        (λ p t. others p t) (unfold save_as in e)
    where
      others :
          (p : Packer) (t : BlobType)
          → same_type t data_blob ≡ false
          → packer_of t (record s { data_packer = p }) ≡ packer_of t s
      others p data_blob apart = absurd (true-ne-false apart)
      others p tree_blob apart = refl
      others p padding apart = refl
  save_as-Requested tree_blob b s s' type_is savable e =
      after_add tree_blob b s s' (λ p. record s { tree_packer = p }) (λ p. refl) (λ p. refl)
        (λ p t. others p t) (unfold save_as in e)
    where
      others :
          (p : Packer) (t : BlobType)
          → same_type t tree_blob ≡ false
          → packer_of t (record s { tree_packer = p }) ≡ packer_of t s
      others p tree_blob apart = absurd (true-ne-false apart)
      others p data_blob apart = refl
      others p padding apart = refl
  save_as-Requested padding b s s' type_is savable e = absurd (subst IsBlob type_is savable.0.0)

  dispatch_full-Saved :
      (t u : BlobType) (n : ℕ) (done : List SaveBlob) (s s' : PackSaver)
      → same_type t t ≡ true
      → dispatch_full workers max_packer_size n s u ≡ ok s'
      → Saved t done s
      → Saved t done s'
  unfolding dispatch_full
  dispatch_full-Saved t u n done s s' self e inv = by_case (leb max_packer_size n) e
    where
      by_case :
          (x : Bool)
          → (if x then dispatch_packer workers max_packer_size s u else ok s) ≡ ok s'
          → Saved t done s'
      by_case true q =
          Dispatched-Saved workers max_packer_size t u done s s' self
            (dispatch_packer-Dispatched workers max_packer_size u s s' q) inv
      by_case false q = subst (Saved t done) (ok-injective q) inv

  pub save_as-Saved :
      (t : BlobType) (done : List SaveBlob) (b : SaveBlob) (s s' : PackSaver)
      → same_type t t ≡ true
      → IsSavable b
      → save_as workers max_packer_size b.blob_type s b ≡ ok s'
      → Saved t done s
      → Saved t (done ++ (b ∷ [])) s'
  unfolding Requested
  save_as-Saved t done b s s' self savable e inv =
      let (s1, added, full) = save_as-Requested b.blob_type b s s' refl savable e in
      dispatch_full-Saved t b.blob_type (length (packer_of b.blob_type s1).buffer)
        (done ++ (b ∷ [])) s1 s' self full
        (Added-Saved t b.blob_type done b s s1 refl savable added inv)
