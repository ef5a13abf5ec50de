-- ===== src/Collections/IndexSet/Insert.antt =====
-- The invariant of an `IndexSet`, and that `insert` keeps it.
use mapache.Prelude.{
  ==_refl, ℕ, zero, suc, ◌≡◌, refl, sym, ap, subst, ◌∙◌, ◌↔◌, inl, inr, true, false, List, [], ◌∷◌,
  ◌++◌, none, some, ◌==◌, if◌then◌else◌, length, get_elem?, Eq, Bool-cases, Option-cases, beq-cases,
  none-ne-some, some-injective, get_elem?-lt, arith,
}
use mapache.Collections.Maps.{get, put, get-put}
use mapache.Collections.IndexSet.{IndexSet, new, insert, contains}

module _ {ℓ} {T : Type ℓ} ⦃e : Eq T⦄ where
  -- The map is the inverse of the enumeration, so no value stands twice.
  abbrev pub IsIndexed : IndexSet T → Type ℓ
  IsIndexed s = (k : T) (i : ℕ) → (get s.map k ≡ some i) ↔ (get_elem? s.values i ≡ some k)

  pub new-IsIndexed : IsIndexed new
  new-IsIndexed k i = (λ q. absurd (none-ne-some q), λ q. absurd (none-ne-some q))

  get_elem?-snoc :
      (xs : List T) (x : T) (i : ℕ)
      → get_elem? (xs ++ (x ∷ [])) i ≡ (if i == length xs then some x else get_elem? xs i)
  get_elem?-snoc [] x zero = refl
  get_elem?-snoc [] x (suc i) = ground arith
  get_elem?-snoc (y ∷ xs) x zero = ground arith
  get_elem?-snoc (y ∷ xs) x (suc i) =
      get_elem?-snoc xs x i
      ∙ ap (λ b. if b then some x else get_elem? xs i)
          (let same : (i == length xs) ≡ (suc i == suc (length xs)) = ground arith in same)

  insert-old :
      (s : IndexSet T) (item : T) (idx : ℕ) → get s.map item ≡ some idx → insert s item ≡ (idx, s)
  unfolding insert
  insert-old s item idx q = rw (q, insert)

  insert-new :
      (s : IndexSet T) (item : T)
      → get s.map item ≡ none
      → insert s item ≡ (
        length s.values,
        record { values = s.values ++ (item ∷ []); map = put s.map item (length s.values) },
      )
  unfolding insert
  insert-new s item q = rw (q, insert)

  -- What an insertion promises: the invariant, the index of the item, and the members.
  abbrev pub Inserts : IndexSet T → T → ℕ × IndexSet T → Type ℓ
  Inserts s item (idx, s') =
      IsIndexed s'
      × (get_elem? s'.values idx ≡ some item)
      × ((k : T) (i : ℕ) → get_elem? s.values i ≡ some k → get_elem? s'.values i ≡ some k)
      × ((k : T) → contains s' k ≡ (if e.beq item k then true else contains s k))

  pushed : (s : IndexSet T) (item : T) → IndexSet T
  pushed s item = record {
    values = s.values ++ (item ∷ []);
    map = put s.map item (length s.values);
  }

  pushed-IsIndexed :
      (s : IndexSet T) (item : T) → IsIndexed s → get s.map item ≡ none → IsIndexed (pushed s item)
  unfolding pushed
  pushed-IsIndexed s item inv new_item k i = (
    λ q. elim (beq-cases item k) [
      | inl (same, hit) ↦
          let at_end : length s.values ≡ i = some-injective (
            sym (
              get-put s.map item k (length s.values)
              ∙ ap (λ b. if b then some (length s.values) else get s.map k) hit)
            ∙ q) in
          get_elem?-snoc s.values item i
          ∙ ap (λ b. if b then some item else get_elem? s.values i) (equal at_end)
          ∙ ap some same
      | inr (other, miss) ↦
          let found : get s.map k ≡ some i =
            sym (
              get-put s.map item k (length s.values)
              ∙ ap (λ b. if b then some (length s.values) else get s.map k) miss)
            ∙ q in
          kept (inv k i).0 found
    ],
    λ q. elim (Bool-cases (i == length s.values)) [
      | inl at_end ↦
          let same : item ≡ k = some-injective (
            sym (
              get_elem?-snoc s.values item i
              ∙ ap (λ b. if b then some item else get_elem? s.values i) at_end)
            ∙ q) in
          get-put s.map item k (length s.values)
          ∙ ap (λ b. if b then some (length s.values) else get s.map k) ((e.beq_iff item k).1 same)
          ∙ ap some (unequal at_end)
      | inr before ↦
          let old : get_elem? s.values i ≡ some k =
            sym (
              get_elem?-snoc s.values item i
              ∙ ap (λ b. if b then some item else get_elem? s.values i) before)
            ∙ q in
          let found = (inv k i).1 old in
          elim (beq-cases item k) [
            | inl (same, hit) ↦ absurd (none-ne-some (sym new_item ∙ ap (get s.map) same ∙ found))
            | inr (other, miss) ↦
                get-put s.map item k (length s.values)
                ∙ ap (λ b. if b then some (length s.values) else get s.map k) miss
                ∙ found
          ]
    ],
  )
    where
      equal : length s.values ≡ i → (i == length s.values) ≡ true
      equal q = ground arith

      unequal : (i == length s.values) ≡ true → length s.values ≡ i
      unequal q = ground arith

      kept :
          (get s.map k ≡ some i → get_elem? s.values i ≡ some k)
          → get s.map k ≡ some i
          → get_elem? (s.values ++ (item ∷ [])) i ≡ some k
      kept back found =
          let old = back found in
          let low : (i == length s.values) ≡ false = ground (arith, get_elem?-lt s.values i old) in
          get_elem?-snoc s.values item i
          ∙ ap (λ b. if b then some item else get_elem? s.values i) low
          ∙ old

  pub contains-some : (s : IndexSet T) (k : T) (i : ℕ) → get s.map k ≡ some i → contains s k ≡ true
  unfolding contains
  contains-some s k i q = rw (q, contains)

  pub contains-none : (s : IndexSet T) (k : T) → get s.map k ≡ none → contains s k ≡ false
  unfolding contains
  contains-none s k q = rw (q, contains)

  pub contains-same :
      (s s' : IndexSet T) (k : T) → get s'.map k ≡ get s.map k → contains s' k ≡ contains s k
  contains-same s s' k q = elim (Option-cases (get s.map k)) [
    | inl absent ↦ contains-none s' k (q ∙ absent) ∙ sym (contains-none s k absent)
    | inr (i, found) ↦ contains-some s' k i (q ∙ found) ∙ sym (contains-some s k i found)
  ]

  member_of_pushed :
      (s : IndexSet T) (item k : T)
      → contains (pushed s item) k ≡ (if e.beq item k then true else contains s k)
  unfolding pushed
  member_of_pushed s item k =
      let stored = get-put s.map item k (length s.values) in
      elim (Bool-cases (e.beq item k)) [
        | inl hit ↦ rw hit (
            contains-some (pushed s item) k (length s.values)
              (stored ∙ ap (λ b. if b then some (length s.values) else get s.map k) hit))
        | inr miss ↦ rw miss (
            contains-same s (pushed s item) k
              (stored ∙ ap (λ b. if b then some (length s.values) else get s.map k) miss))
      ]

  member_of_old :
      (s : IndexSet T) (item k : T)
      → contains s item ≡ true
      → contains s k ≡ (if e.beq item k then true else contains s k)
  member_of_old s item k held = elim (beq-cases item k) [
    | inl (same, hit) ↦ rw hit (ap (contains s) (sym same) ∙ held)
    | inr (other, miss) ↦ rw miss
  ]

  -- In a set whose map is the inverse of its enumeration, `insert` keeps this invariant and returns
  -- an index at which the item stands; every item keeps its index, and the members are the ones before
  -- and the item.
  pub insert-Inserts : (s : IndexSet T) (item : T) → IsIndexed s → Inserts s item (insert s item)
  unfolding pushed
  insert-Inserts s item inv = elim (Option-cases (get s.map item)) [
    | inr (idx, found) ↦ subst (Inserts s item) (sym (insert-old s item idx found)) (
      inv,
      (inv item idx).0 found,
      λ k i h. h,
      λ k. member_of_old s item k (contains-some s item idx found),
    )
    | inl absent ↦ subst (Inserts s item) (sym (insert-new s item absent)) (
      pushed-IsIndexed s item inv absent,
      get_elem?-snoc s.values item (length s.values)
          ∙ ap (λ b. if b then some item else get_elem? s.values (length s.values))
              (==_refl (length s.values)),
      λ k i h. stays k i h,
      λ k. member_of_pushed s item k,
    )
  ]
    where
      stays :
          (k : T) (i : ℕ)
          → get_elem? s.values i ≡ some k
          → get_elem? (s.values ++ (item ∷ [])) i ≡ some k
      stays k i h =
          let low : (i == length s.values) ≡ false = ground (arith, get_elem?-lt s.values i h) in
          get_elem?-snoc s.values item i
          ∙ ap (λ b. if b then some item else get_elem? s.values i) low
          ∙ h
