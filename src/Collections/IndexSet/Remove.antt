-- ===== src/Collections/IndexSet/Remove.antt =====
-- `IndexSet::remove`, which fills the gap with the last value, keeps the invariant and never panics.
use mapache.Prelude.{
  none-ne-some, some-injective, get_elem?-lt, ℕ, zero, suc, ◌-◌, ◌<◌, ◌≡◌, ◌≢◌, sym, ap, subst, ◌∙◌,
  inl, inr, true, false, List, [], ◌∷◌, none, some, ok, ◌==◌, ==_refl, if◌then◌else◌, length,
  get_elem?, get_elem?-take, set, take, drop_at, Eq, Bool-cases, Option-cases, beq-cases,
  true-ne-false, arith,
}
use mapache.Collections.Maps.{get, erase, put, get-put, get-erase}
use mapache.Collections.IndexSet.{
  IndexSet, remove, swap_out, moved_to, put_back, remove_at, swap_remove, contains,
}
use mapache.Collections.IndexSet.Insert.{IsIndexed, contains-some, contains-none, contains-same}

module _ {ℓ} {T : Type ℓ} where
  get_elem?-set :
      (xs : List T) (i j : ℕ) (v : T)
      → i < length xs
      → get_elem? (set xs i v) j ≡ (if i == j then some v else get_elem? xs j)
  get_elem?-set [] i j v h = absurd (omega arith)
  get_elem?-set (x ∷ xs) zero zero v h = ground arith
  get_elem?-set (x ∷ xs) zero (suc j) v h = ground arith
  get_elem?-set (x ∷ xs) (suc i) zero v h = ground arith
  get_elem?-set (x ∷ xs) (suc i) (suc j) v h =
      get_elem?-set xs i j v (omega arith)
      ∙ ap (λ b. if b then some v else get_elem? xs j)
          (let same : (i == j) ≡ (suc i == suc j) = ground arith in same)

  take-lt : (n j : ℕ) (xs : List T) {x : T} → get_elem? (take n xs) j ≡ some x → j < n
  take-lt zero j xs h = absurd (none-ne-some h)
  take-lt (suc n) j [] h = absurd (none-ne-some h)
  take-lt (suc n) zero (x ∷ xs) h = omega arith
  take-lt (suc n) (suc j) (x ∷ xs) h = omega (arith, take-lt n j xs h)

module _ {ℓ} {T : Type ℓ} ⦃e : Eq T⦄ (s : IndexSet T) (item : T) (i : ℕ) (inv : IsIndexed s)
    (found : get s.map item ≡ some i) where
  last : ℕ
  last = length s.values - 1

  at_i : get_elem? s.values i ≡ some item
  at_i = (inv item i).0 found

  i-lt : i < length s.values
  i-lt = get_elem?-lt s.values i at_i

  -- An item has one index.
  one_index : (k : T) (a b : ℕ) → get_elem? s.values a ≡ some k → get s.map k ≡ some b → a ≡ b
  one_index k a b p q = some-injective (sym ((inv k a).1 p) ∙ q)

  erased : (k : T) → e.beq item k ≡ false → get (erase s.map item) k ≡ get s.map k
  erased k miss = get-erase s.map item k ∙ ap (λ b. if b then none else get s.map k) miss

  erased_item : (k : T) → e.beq item k ≡ true → get (erase s.map item) k ≡ none
  erased_item k hit = get-erase s.map item k ∙ ap (λ b. if b then none else get s.map k) hit

  apart : (k : T) (j : ℕ) → get s.map k ≡ some j → i ≢ j → e.beq item k ≡ false
  apart k j q different = elim (beq-cases item k) [
    | inr (other, miss) ↦ miss
    | inl (same, hit) ↦ absurd (different (some-injective (sym found ∙ ap (get s.map) same ∙ q)))
  ]

  popped-IsIndexed :
      i ≡ last → IsIndexed (record { values = take last s.values; map = erase s.map item })
  unfolding last
  popped-IsIndexed at_last k j = (
    λ q. elim (beq-cases item k) [
      | inl (same, hit) ↦ absurd (none-ne-some (sym (erased_item k hit) ∙ q))
      | inr (other, miss) ↦
          let old = (inv k j).0 (sym (erased k miss) ∙ q) in
          let moved : j ≢ i =
            λ p. other (some-injective (sym at_i ∙ ap (get_elem? s.values) (sym p) ∙ old)) in
          get_elem?-take (length s.values - 1) j s.values
            (below (get_elem?-lt s.values j old) moved)
          ∙ old
    ],
    λ q.
        let low = take-lt (length s.values - 1) j s.values q in
        let old : get_elem? s.values j ≡ some k =
          sym (get_elem?-take (length s.values - 1) j s.values low) ∙ q in
        let entry = (inv k j).1 old in
        erased k (apart k j entry (λ p. absurd (omega (arith, at_last, low, p)))) ∙ entry,
  )
    where
      below : j < length s.values → j ≢ i → j < length s.values - 1
      below h p = elim (Bool-cases (j == i)) [
        | inl same ↦ absurd (p (let q : j ≡ i = ground arith in q))
        | inr other ↦ ground (arith, at_last)
      ]

  module _ (moved : T) (inner : i ≢ last) (at_last : get_elem? s.values last ≡ some moved) where
    moved_entry : get s.map moved ≡ some last
    moved_entry = (inv moved last).1 at_last

    i-lt-last : i < last
    unfolding last
    i-lt-last = elim (Bool-cases (i == length s.values - 1)) [
      | inl same ↦ absurd (inner (let q : i ≡ length s.values - 1 = ground arith in q))
      | inr other ↦ ground (arith, i-lt)
    ]

    filled : List T
    filled = swap_remove s.values i moved

    filled_at :
        (j : ℕ)
        → j < last
        → get_elem? filled j ≡ (if i == j then some moved else get_elem? s.values j)
    unfolding last filled
    filled_at j low =
        get_elem?-take (length s.values - 1) j (set s.values i moved) low
        ∙ get_elem?-set s.values i j moved i-lt

    below_last : (j : ℕ) → j < length s.values → j ≢ last → j < last
    unfolding last
    below_last j h p = elim (Bool-cases (j == length s.values - 1)) [
      | inl same ↦ absurd (p (let q : j ≡ length s.values - 1 = ground arith in q))
      | inr other ↦ ground arith
    ]

    differs : (j : ℕ) → i ≢ j → (i == j) ≡ false
    differs j p = elim (Bool-cases (i == j)) [
      | inl same ↦ absurd (p (let q : i ≡ j = ground arith in q))
      | inr other ↦ other
    ]

    low_of : (j : ℕ) {x : T} → get_elem? filled j ≡ some x → j < last
    unfolding last filled
    low_of j q = take-lt (length s.values - 1) j (set s.values i moved) q

    not_moved : (k : T) (j : ℕ) → j < last → get s.map k ≡ some j → e.beq moved k ≡ false
    not_moved k j low entry = elim (beq-cases moved k) [
      | inr (other, miss) ↦ miss
      | inl (same, hit) ↦
          let clash : last ≡ j = some-injective (sym moved_entry ∙ ap (get s.map) same ∙ entry) in
          absurd (omega (arith, low, clash))
    ]

    swapped-IsIndexed : IsIndexed (record { values = filled; map = put (erase s.map item) moved i })
    swapped-IsIndexed k j = (
      λ q. elim (beq-cases moved k) [
        | inl (same, hit) ↦
            let here : i ≡ j = some-injective (
              sym (
                get-put (erase s.map item) moved k i
                ∙ ap (λ b. if b then some i else get (erase s.map item) k) hit)
              ∙ q) in
            subst (λ x. get_elem? filled x ≡ some k) here
              (filled_at i i-lt-last
                ∙ ap (λ b. if b then some moved else get_elem? s.values i) (==_refl i)
                ∙ ap some same)
        | inr (other, miss) ↦
            let kept : get (erase s.map item) k ≡ some j =
              sym (
                get-put (erase s.map item) moved k i
                ∙ ap (λ b. if b then some i else get (erase s.map item) k) miss)
              ∙ q in
            elim (beq-cases item k) [
              | inl (same, hit) ↦ absurd (none-ne-some (sym (erased_item k hit) ∙ kept))
              | inr (other', miss') ↦
                  let old = (inv k j).0 (sym (erased k miss') ∙ kept) in
                  let not_last : j ≢ last = λ p.
                    other (some-injective (sym at_last ∙ ap (get_elem? s.values) (sym p) ∙ old)) in
                  let not_i : i ≢ j =
                    λ p. other' (some-injective (sym at_i ∙ ap (get_elem? s.values) p ∙ old)) in
                  filled_at j (below_last j (get_elem?-lt s.values j old) not_last)
                  ∙ ap (λ b. if b then some moved else get_elem? s.values j) (differs j not_i)
                  ∙ old
            ]
      ],
      λ q.
          let low = low_of j q in
          elim (Bool-cases (i == j)) [
            | inl same ↦
                let is_moved : moved ≡ k = some-injective (
                  sym (
                    filled_at j low ∙ ap (λ b. if b then some moved else get_elem? s.values j) same)
                  ∙ q) in
                get-put (erase s.map item) moved k i
                ∙ ap (λ b. if b then some i else get (erase s.map item) k)
                    ((e.beq_iff moved k).1 is_moved)
                ∙ ap some (let p : i ≡ j = ground arith in p)
            | inr other ↦
                let old : get_elem? s.values j ≡ some k =
                  sym (
                    filled_at j low
                    ∙ ap (λ b. if b then some moved else get_elem? s.values j) other)
                  ∙ q in
                let entry = (inv k j).1 old in
                get-put (erase s.map item) moved k i
                ∙ ap (λ b. if b then some i else get (erase s.map item) k) (not_moved k j low entry)
                ∙ erased k (
                    apart k j entry (λ p. absurd (
                      true-ne-false
                        (sym (let r : (i == j) ≡ true = ground (arith, p) in r) ∙ other))))
                ∙ entry
          ],
    )

    swapped_member :
        (k : T)
        → contains (record { values = filled; map = put (erase s.map item) moved i }) k
          ≡ (if e.beq item k then false else contains s k)
    swapped_member k =
        let s' : IndexSet T = record { values = filled; map = put (erase s.map item) moved i } in
        let stored = get-put (erase s.map item) moved k i in
        elim (beq-cases moved k) [
          | inl (same, hit) ↦
              let entry : get s.map k ≡ some last = sym (ap (get s.map) same) ∙ moved_entry in
              let other = apart k last entry inner in
              rw other (
                contains-some s' k i
                  (stored ∙ ap (λ b. if b then some i else get (erase s.map item) k) hit)
                ∙ sym (contains-some s k last entry))
          | inr (other, miss) ↦
              let kept = stored ∙ ap (λ b. if b then some i else get (erase s.map item) k) miss in
              elim (Bool-cases (e.beq item k)) [
                | inl gone ↦ rw gone (contains-none s' k (kept ∙ erased_item k gone))
                | inr stays ↦ rw stays (contains-same s s' k (kept ∙ erased k stays))
              ]
        ]

    remove_swap :
        remove s item ≡ ok (true, record { values = filled; map = put (erase s.map item) moved i })
    unfolding last filled
    remove_swap =
        let test : (i == length s.values - 1) ≡ false =
          elim (Bool-cases (i == length s.values - 1)) [
            | inl same ↦ absurd (inner (let q : i ≡ length s.values - 1 = ground arith in q))
            | inr other ↦ other
          ] in
        let here : get_elem? (swap_remove s.values i moved) i ≡ some moved =
          filled_at i i-lt-last
          ∙ ap (λ b. if b then some moved else get_elem? s.values i) (==_refl i) in
        let old : get (erase s.map item) moved ≡ some last =
          erased moved (apart moved last moved_entry inner) ∙ moved_entry in
        unfold remove remove_at swap_out moved_to put_back in rw (found, test, at_last, here, old)

  popped_member :
      (k : T)
      → contains (record { values = take last s.values; map = erase s.map item }) k
        ≡ (if e.beq item k then false else contains s k)
  popped_member k =
      let s' : IndexSet T = record { values = take last s.values; map = erase s.map item } in
      elim (Bool-cases (e.beq item k)) [
        | inl gone ↦ rw gone (contains-none s' k (erased_item k gone))
        | inr stays ↦ rw stays (contains-same s s' k (erased k stays))
      ]

  remove_pop :
      i ≡ last
      → remove s item ≡ ok (true, record { values = take last s.values; map = erase s.map item })
  unfolding last
  remove_pop at_last =
      let test : (i == length s.values - 1) ≡ true = ground arith in
      unfold remove remove_at in rw (found, test)

  last_value : (x : T) × (get_elem? s.values last ≡ some x)
  unfolding last
  last_value =
      let (x, at_last, rest) = drop_at (length s.values - 1) s.values (omega (arith, i-lt)) in
      (x, at_last)

module _ {ℓ} {T : Type ℓ} ⦃e : Eq T⦄ where
  -- What a removal promises of a set and an item.
  abbrev pub Removes : IndexSet T → T → IndexSet T → Type ℓ
  Removes s item s' =
      (remove s item ≡ ok (contains s item, s'))
      × IsIndexed s'
      × ((k : T) → contains s' k ≡ (if e.beq item k then false else contains s k))

  -- In a set whose map is the inverse of its enumeration, `remove` does not panic, returns whether the
  -- item was a member, and keeps the invariant; the members are the ones before without the item.
  pub remove-Removes :
      (s : IndexSet T) (item : T) → IsIndexed s → (s' : IndexSet T) × Removes s item s'
  remove-Removes s item inv = elim (Option-cases (get s.map item)) [
    | inl absent ↦ (s, (nothing absent, inv, λ k. unchanged absent k))
    | inr (i, found) ↦ elim (Bool-cases (i == last s item i inv found)) [
      | inl same ↦
          let at_last : i ≡ last s item i inv found = ground arith in
          (
            record { values = take (last s item i inv found) s.values; map = erase s.map item },
            (
              flagged i found (remove_pop s item i inv found at_last),
              popped-IsIndexed s item i inv found at_last,
              popped_member s item i inv found,
            ),
          )
      | inr other ↦
          let (moved, at_last) = last_value s item i inv found in
          let inner : i ≢ last s item i inv found = λ p. true-ne-false (sym (equal p) ∙ other) in
          (
            record {
              values = filled s item i inv found moved inner at_last;
              map = put (erase s.map item) moved i;
            },
            (
              flagged i found (remove_swap s item i inv found moved inner at_last),
              swapped-IsIndexed s item i inv found moved inner at_last,
              swapped_member s item i inv found moved inner at_last,
            ),
          )
    ]
  ]
    where
      flagged :
          (i : ℕ) {s' : IndexSet T}
          → get s.map item ≡ some i
          → remove s item ≡ ok (true, s')
          → remove s item ≡ ok (contains s item, s')
      flagged i {s'} found q = q ∙ ap (λ b. ok (b, s')) (sym (contains-some s item i found))

      equal : {a b : ℕ} → a ≡ b → (a == b) ≡ true
      equal p = ground arith

      nothing : get s.map item ≡ none → remove s item ≡ ok (contains s item, s)
      nothing absent =
          let no_member = contains-none s item absent in
          let step : remove s item ≡ ok (false, s) = unfold remove remove_at in rw absent in
          step ∙ ap (λ b. ok (b, s)) (sym no_member)

      unchanged :
          get s.map item ≡ none
          → (k : T) → contains s k ≡ (if e.beq item k then false else contains s k)
      unchanged absent k = elim (beq-cases item k) [
        | inl (same, hit) ↦ rw hit (ap (contains s) (sym same) ∙ contains-none s item absent)
        | inr (other, miss) ↦ rw miss
      ]
