-- ===== src/Packer/Saver/Dispatch.antt =====
-- What `dispatch_packer` does, and that it keeps the invariant of each type.
use mapache.Prelude.{
  ℕ, ◌≡◌, refl, sym, ap, ◌∙◌, subst, ◌⊎◌, inl, inr, Bool, true, false, List, [], ◌∷◌, ◌++◌, Result,
  ok, err, ◌>>=◌, ◌==◌, if◌then◌else◌, length, Bool-cases, true-ne-false, arith,
}
use mapache.Common.{BlobType, data_blob, tree_blob, padding}
use mapache.Packer.{Packer, empty_packer}
use mapache.Packer.Pack.{SaveBlob}
use mapache.Packer.Saver.{PackSaver, send, dispatch_packer}
use mapache.Packer.Saver.Batches.{
  Holding, same_type, same_type_sound, packs_of, AllPacked, packer_of, Saved, packs_of-snoc,
  Saved-sent,
}

pub ok-injective : {A : Type 0} {a b : A} → ok a ≡ ok b → a ≡ b
ok-injective e = cc

module _ (workers : ℕ → Bool) (max_packer_size : ℕ) where
  -- What a dispatch does: nothing to a packer without bytes; otherwise the packer is sent and an empty
  -- one takes its place.
  abbrev pub Dispatched : BlobType → PackSaver → PackSaver → Type 0
  Dispatched u s s' =
      ((s' ≡ s) × (length (packer_of u s).buffer ≡ 0))
      ⊎ ((s'.dispatched ≡ s.dispatched ++ ((u, packer_of u s) ∷ []))
          × (packer_of u s' ≡ empty_packer)
          × ((t : BlobType) → same_type t u ≡ false → packer_of t s' ≡ packer_of t s))

  sent_list :
      (u : BlobType) (p : Packer) (sent sent' : List (BlobType × Packer))
      → send workers max_packer_size u p sent ≡ ok sent'
      → sent' ≡ sent ++ ((u, p) ∷ [])
  unfolding send
  sent_list u p sent sent' e = ground arith

  -- A dispatch after the test of the packer's bytes.
  after_test :
      (u : BlobType) (s s' : PackSaver) (swap : List (BlobType × Packer) → PackSaver)
      → ((sent : List (BlobType × Packer)) → (swap sent).dispatched ≡ sent)
      → ((sent : List (BlobType × Packer)) → packer_of u (swap sent) ≡ empty_packer)
      → ((sent : List (BlobType × Packer)) (t : BlobType)
          → same_type t u ≡ false
          → packer_of t (swap sent) ≡ packer_of t s)
      → (if length (packer_of u s).buffer == 0
          then ok s
          else (send workers max_packer_size u (packer_of u s) s.dispatched
              >>= (λ sent. ok (swap sent))))
        ≡ ok s'
      → Dispatched u s s'
  after_test u s s' swap listed fresh others e =
      elim (Bool-cases (length (packer_of u s).buffer == 0)) [
        | inl none_held ↦
            let same : ok s ≡ ok s' =
              subst
                (λ t.
                  (if t
                    then ok s
                    else (send workers max_packer_size u (packer_of u s) s.dispatched
                        >>= (λ sent. ok (swap sent))))
                  ≡ ok s')
                none_held e in
            inl (sym (ok-injective same), by_number none_held)
        | inr held ↦ by_case (send workers max_packer_size u (packer_of u s) s.dispatched) refl (
            subst
              (λ t.
                (if t
                  then ok s
                  else (send workers max_packer_size u (packer_of u s) s.dispatched
                      >>= (λ sent. ok (swap sent))))
                ≡ ok s')
              held e)
      ]
    where
      by_number : (length (packer_of u s).buffer == 0) ≡ true → length (packer_of u s).buffer ≡ 0
      by_number q = ground arith

      by_case :
          (r : Result (List (BlobType × Packer)))
          → send workers max_packer_size u (packer_of u s) s.dispatched ≡ r
          → (r >>= (λ sent. ok (swap sent))) ≡ ok s'
          → Dispatched u s s'
      by_case (err x) q e' = let no' : err x ≡ ok s' → ⊥ = λ q'. cc in absurd (no' e')
      by_case (ok sent) q e' =
          let same = ok-injective e' in
          inr (
            ap (λ x. x.dispatched) (sym same)
                ∙ listed sent
                ∙ sent_list u (packer_of u s) s.dispatched sent q,
            ap (packer_of u) (sym same) ∙ fresh sent,
            λ t apart. ap (packer_of t) (sym same) ∙ others sent t apart,
          )

  pub dispatch_packer-Dispatched :
      (u : BlobType) (s s' : PackSaver)
      → dispatch_packer workers max_packer_size s u ≡ ok s'
      → Dispatched u s s'
  dispatch_packer-Dispatched data_blob s s' e =
      after_test data_blob s s' (λ sent. record s { data_packer = empty_packer; dispatched = sent })
        (λ sent. refl) (λ sent. refl) (λ sent t. others sent t) (unfold dispatch_packer in e)
    where
      others :
          (sent : List (BlobType × Packer)) (t : BlobType)
          → same_type t data_blob ≡ false
          → packer_of t (record s { data_packer = empty_packer; dispatched = sent }) ≡ packer_of t s
      others sent data_blob apart = absurd (true-ne-false apart)
      others sent tree_blob apart = refl
      others sent padding apart = refl
  dispatch_packer-Dispatched tree_blob s s' e =
      after_test tree_blob s s' (λ sent. record s { tree_packer = empty_packer; dispatched = sent })
        (λ sent. refl) (λ sent. refl) (λ sent t. others sent t) (unfold dispatch_packer in e)
    where
      others :
          (sent : List (BlobType × Packer)) (t : BlobType)
          → same_type t tree_blob ≡ false
          → packer_of t (record s { tree_packer = empty_packer; dispatched = sent }) ≡ packer_of t s
      others sent tree_blob apart = absurd (true-ne-false apart)
      others sent data_blob apart = refl
      others sent padding apart = refl
  dispatch_packer-Dispatched padding s s' e =
      let same : ok s ≡ ok s' = unfold dispatch_packer in e in inl (sym (ok-injective same), refl)

  -- A dispatch keeps the invariant of every type that is saved, and leaves no blob of its own type
  -- behind.
  pub Dispatched-Saved :
      (t u : BlobType) (done : List SaveBlob) (s s' : PackSaver)
      → same_type t t ≡ true
      → Dispatched u s s'
      → Saved t done s
      → Saved t done s'
  Dispatched-Saved t u done s s' self (inl (same, nothing)) inv =
      subst (Saved t done) (sym same) inv
  Dispatched-Saved t u done s s' self (inr (sent, fresh, others))
        (batches, left, packed, held, whole) =
      elim (Bool-cases (same_type t u)) [
        | inl same ↦ mine same
        | inr apart ↦ (
          batches,
          left,
          subst (AllPacked batches)
              (sym (
                ap (packs_of t) sent
                ∙ packs_of-snoc t u s.dispatched (packer_of u s)
                ∙ ap
                    (λ x.
                      if x
                      then packs_of t s.dispatched ++ (packer_of u s ∷ [])
                      else packs_of t s.dispatched)
                    apart))
              packed,
          subst (Holding left) (sym (others t apart)) held,
          whole,
        )
      ]
    where
      mine : same_type t u ≡ true → Saved t done s'
      mine same =
          let t-is-u = same_type_sound t u same in
          let sent_t : s'.dispatched ≡ s.dispatched ++ ((t, packer_of t s) ∷ []) =
            subst (λ x. s'.dispatched ≡ s.dispatched ++ ((x, packer_of x s) ∷ [])) (sym t-is-u)
              sent in
          let fresh_t : packer_of t s' ≡ empty_packer =
            subst (λ x. packer_of x s' ≡ empty_packer) (sym t-is-u) fresh in
          let (batches', left', packed', held', whole') =
            Saved-sent t done left batches s.dispatched (packer_of t s) self packed held whole in
          (
            batches',
            left',
            subst (λ x. AllPacked batches' (packs_of t x)) (sym sent_t) packed',
            subst (Holding left') (sym fresh_t) held',
            whole',
          )
