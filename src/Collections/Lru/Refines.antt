-- ===== src/Collections/Lru/Refines.antt =====
-- `Lru` implements a list of keys by recency, with a value for each
-- (crates/mapache/src/utils/collections/lru.rs).
use mathlib.Core.List.Memᴰ
use mapache.Prelude.{
  ℕ, ◌+◌, ◌%◌, ◌^◌, ◌<◌, ◌≡◌, ◌≢◌, refl, sym, ap, ap₂, subst, ◌∙◌, ◌↔◌, ◌⊎◌, inl, inr, true, List,
  [], ◌∷◌, ◌++◌, map, Memᴰ, Option, none, some, if◌then◌else◌, and_then, Eq, nat_eq, All,
  All-append, Bool-cases, beq-cases, none-ne-some, some-injective, arith,
}
use mapache.Prelude.Search.{All_mem}
use mapache.Collections.Maps.{get, put, get-put, get-erase}
use mapache.Collections.Lru.{
  Lru, insert_ordered, record_hit, evict_entry, evict_first, evict_one, without_old, insert,
}
use mapache.Collections.Lru.Recency.{
  without_key, touch, second, IsAscending, insert_ordered-last, IsAscending-append, erase-All,
  erase-IsAscending, Memᴰ-erase, keys-erase, keys_absent, one_key,
}

module _ {K V : Type 0} ⦃e : Eq K⦄ where
  -- The specification's view: the keys, the oldest first, and the value of each.
  abbrev pub recent : Lru K V → List K
  recent lru = map second lru.order_map

  abbrev pub value : Lru K V → K → Option V
  value lru k = and_then (get lru.entries k) λ entry. some entry.0

  -- The order is by timestamp, all of the past, and has the keys of the entries.
  pub record IsCache (lru : Lru K V) : Type 0 where
    pub ascending : IsAscending lru.order_map
    pub below : All (λ (entry : ℕ × K). entry.0 < lru.next_timestamp) lru.order_map
    pub agree :
        (t : ℕ) (k : K) → Memᴰ (t, k) lru.order_map ↔ ((v : V) × (get lru.entries k ≡ some (v, t)))

  module _ (lru : Lru K V) (key : K) (cache : IsCache lru) where
    -- The order without the key's old timestamp.
    rest_order : List (ℕ × K)
    rest_order = without_old lru.order_map (get lru.entries key)

    record IsRest (order : List (ℕ × K)) : Type 0 where
      ascending : IsAscending order
      below : All (λ (entry : ℕ × K). entry.0 < lru.next_timestamp) order
      members : (t : ℕ) (j : K) → Memᴰ (t, j) order ↔ (Memᴰ (t, j) lru.order_map × (j ≢ key))
      keys : map second order ≡ without_key (map second lru.order_map) key

    rest_order-IsRest : IsRest rest_order
    unfolding rest_order
    rest_order-IsRest = by_entry (get lru.entries key) refl
      where
        by_entry :
            (found : Option (V × ℕ))
            → get lru.entries key ≡ found
            → IsRest (without_old lru.order_map found)
        by_entry none q =
            let absent : (t : ℕ) (j : K) → Memᴰ (t, j) lru.order_map → j ≢ key = λ t j m same.
              let (v, there) = (cache.agree t j).0 m in
              none-ne-some (sym q ∙ ap (get lru.entries) (sym same) ∙ there) in
            record {
              ascending = cache.ascending;
              below = cache.below;
              members = λ t j. (λ m. (m, absent t j m), λ m. m.0);
              keys = keys_absent lru.order_map key absent;
            }
        by_entry (some (v, old)) q =
            let stands : Memᴰ (old, key) lru.order_map = (cache.agree old key).1 (v, q) in
            let same_entry : (t : ℕ) (j : K) → Memᴰ (t, j) lru.order_map → (t ≡ old) ↔ (j ≡ key) =
              λ t j m. (
                λ at.
                    one_key lru.order_map old cache.ascending
                      (subst (λ s. Memᴰ (s, j) lru.order_map) at m) stands,
                λ same.
                    let (v', there) = (cache.agree t j).0 m in
                    ap (λ x. x.1) (some-injective (sym there ∙ ap (get lru.entries) same ∙ q)),
              ) in
            record {
              ascending = erase-IsAscending lru.order_map old cache.ascending;
              below = erase-All _ lru.order_map old cache.below;
              members = λ t j. (
                λ m.
                    let r = (Memᴰ-erase lru.order_map old t).0 m in
                    (r.0, λ same. r.1 ((same_entry t j r.0).1 same)),
                λ m.
                    (Memᴰ-erase lru.order_map old t).1
                      (m.0, λ same. m.1 ((same_entry t j m.0).0 same)),
              );
              keys = keys-erase lru.order_map old key same_entry;
            }

    -- The cache after the key was stamped.
    stamped : V → Lru K V
    stamped v = record {
      entries = put lru.entries key (v, lru.next_timestamp);
      order_map = insert_ordered rest_order lru.next_timestamp key;
      next_timestamp = (lru.next_timestamp + 1) % 2 ^ 64;
    }

    stamped_order : (v : V) → (stamped v).order_map ≡ rest_order ++ ((lru.next_timestamp, key) ∷ [])
    unfolding stamped
    stamped_order v = insert_ordered-last rest_order lru.next_timestamp key rest_order-IsRest.below

    get-stamped :
        (v : V) (j : K)
        → get (stamped v).entries j
          ≡ (if e.beq key j then some (v, lru.next_timestamp) else get lru.entries j)
    unfolding stamped
    get-stamped v j = get-put lru.entries key j (v, lru.next_timestamp)

    stamped_agree :
        (v : V) (t : ℕ) (j : K)
        → Memᴰ (t, j) (rest_order ++ ((lru.next_timestamp, key) ∷ []))
          ↔ ((w : V) × (get (stamped v).entries j ≡ some (w, t)))
    stamped_agree v t j = (
      λ m. elim (Memᴰ.append_cases rest_order m) [
        | inl old ↦
            let (there, other) = (rest_order-IsRest.members t j).0 old in
            let (w, q) = (cache.agree t j).0 there in
            elim (beq-cases key j) [
              | inl (same, p) ↦ absurd (other (sym same))
              | inr (differ, p) ↦ (
                w,
                get-stamped v j
                    ∙ ap (λ b. if b then some (v, lru.next_timestamp) else get lru.entries j) p
                    ∙ q,
              )
            ]
        | inr new ↦
            let at = Memᴰ.eq_of_singleton new in
            let hit : e.beq key j ≡ true = (e.beq_iff key j).1 (ap (λ x. x.1) (sym at)) in
            (
              v,
              get-stamped v j
                  ∙ ap (λ b. if b then some (v, lru.next_timestamp) else get lru.entries j) hit
                  ∙ ap (λ t. some (v, t)) (ap (λ x. x.0) (sym at)),
            )
      ],
      λ (w, q). elim (beq-cases key j) [
        | inl (same, p) ↦
            let now : some (v, lru.next_timestamp) ≡ some (w, t) =
              sym (
                get-stamped v j
                ∙ ap (λ b. if b then some (v, lru.next_timestamp) else get lru.entries j) p)
              ∙ q in
            let time : lru.next_timestamp ≡ t = ap (λ x. x.1) (some-injective now) in
            Memᴰ.append_right rest_order (Memᴰ.head (ap₂ (λ x y. (x, y)) (sym time) (sym same)))
        | inr (differ, p) ↦
            let before : get lru.entries j ≡ some (w, t) =
              sym (
                get-stamped v j
                ∙ ap (λ b. if b then some (v, lru.next_timestamp) else get lru.entries j) p)
              ∙ q in
            let there = (cache.agree t j).1 (w, before) in
            Memᴰ.append_left ((lru.next_timestamp, key) ∷ [])
              ((rest_order-IsRest.members t j).1 (there, λ same. differ (sym same)))
      ],
    )

    stamped_time :
        (v : V)
        → lru.next_timestamp + 1 < 2 ^ 64
        → (stamped v).next_timestamp ≡ lru.next_timestamp + 1
    unfolding stamped
    stamped_time v small = omega (arith, small)

    -- What a step promises that makes a key the most recent one, with a value.
    pub record Stamps (v : V) (lru' : Lru K V) : Type 0 where
      pub cached : IsCache lru'
      pub most_recent : recent lru' ≡ touch (recent lru) key
      pub values : (j : K) → value lru' j ≡ (if e.beq key j then some v else value lru j)

    stamped-Stamps : (v : V) → lru.next_timestamp + 1 < 2 ^ 64 → Stamps v (stamped v)
    stamped-Stamps v small =
        let next = lru.next_timestamp in
        let later : All (λ (entry : ℕ × K). entry.0 < next + 1) rest_order =
          weaken rest_order rest_order-IsRest.below in
        record {
          cached = record {
            ascending = subst IsAscending (sym (stamped_order v)) (
                IsAscending-append rest_order next key rest_order-IsRest.ascending
                  rest_order-IsRest.below);
            below =
                subst (λ order. All (λ (entry : ℕ × K). entry.0 < (stamped v).next_timestamp) order)
                  (sym (stamped_order v))
                  (subst
                    (λ time.
                      All (λ (entry : ℕ × K). entry.0 < time) (rest_order ++ ((next, key) ∷ [])))
                    (sym (stamped_time v small))
                    (All-append _ rest_order ((next, key) ∷ []) later (omega arith, tt)));
            agree = λ t j.
                subst
                  (λ order.
                    Memᴰ (t, j) order ↔ ((w : V) × (get (stamped v).entries j ≡ some (w, t))))
                  (sym (stamped_order v)) (stamped_agree v t j);
          };
          most_recent =
              ap (map second) (stamped_order v)
              ∙ map_snoc rest_order
              ∙ ap (λ keys. keys ++ (key ∷ [])) rest_order-IsRest.keys;
          values = λ j.
              ap (λ o. and_then o λ entry. some entry.0) (get-stamped v j)
              ∙ elim (Bool-cases (e.beq key j)) [ inl q ↦ rw q refl | inr q ↦ rw q refl ];
        }
      where
        weaken :
            (order : List (ℕ × K))
            → All (λ (entry : ℕ × K). entry.0 < lru.next_timestamp) order
            → All (λ (entry : ℕ × K). entry.0 < lru.next_timestamp + 1) order
        weaken [] h = tt
        weaken (x ∷ xs) h = (omega (arith, h.0), weaken xs h.1)

        map_snoc :
            (order : List (ℕ × K))
            → map second (order ++ ((lru.next_timestamp, key) ∷ []))
              ≡ map second order ++ (key ∷ [])
        map_snoc [] = refl
        map_snoc (x ∷ xs) = ap (◌∷◌ x.1) (map_snoc xs)

    insert-stamped : (v : V) → insert lru key v ≡ stamped v
    unfolding insert stamped rest_order
    insert-stamped v = refl

    record_hit-stamped :
        (v : V) (t : ℕ)
        → get lru.entries key ≡ some (v, t)
        → record_hit lru key ≡ (some v, stamped v)
    unfolding record_hit stamped rest_order
    record_hit-stamped v t q = rw q refl

    record_hit-miss : get lru.entries key ≡ none → record_hit lru key ≡ (none, lru)
    unfolding record_hit
    record_hit-miss q = rw q refl

    -- What `record_hit` promises: a miss changes nothing, and a hit gives the value and stamps the key.
    abbrev pub Hits : Option V × Lru K V → Type 0
    Hits (found, lru') =
        (found ≡ value lru key)
        × ((found ≡ none) × (lru' ≡ lru) ⊎ ((v : V) × (found ≡ some v) × Stamps v lru'))

    -- A key that is inserted or hit becomes the most recent one, and no other key or value changes.
    pub insert-Stamps :
        (v : V)
        → lru.next_timestamp + 1 < 2 ^ 64
        → Stamps v (insert lru key v) × Hits (record_hit lru key)
    insert-Stamps v small = (
      subst (Stamps v) (sym (insert-stamped v)) (stamped-Stamps v small),
      by_entry (get lru.entries key) refl,
    )
      where
        by_entry :
            (found : Option (V × ℕ)) → get lru.entries key ≡ found → Hits (record_hit lru key)
        by_entry none q =
            subst Hits (sym (record_hit-miss q))
              (sym (ap (λ o. and_then o λ entry. some entry.0) q), inl (refl, refl))
        by_entry (some (w, t)) q = subst Hits (sym (record_hit-stamped w t q)) (
          sym (ap (λ o. and_then o λ entry. some entry.0) q),
          inr (w, refl, stamped-Stamps w small),
        )

  -- What `evict_one` promises: the key that was not used for longest leaves, with its value.
  abbrev pub Evicts : Lru K V → List K → Option (K × V) × Lru K V → Type 0
  Evicts lru [] (evicted, lru') = (evicted ≡ none) × (lru' ≡ lru)
  Evicts lru (k ∷ keys) (evicted, lru') =
      IsCache lru'
      × (recent lru' ≡ keys)
      × ((v : V) × (value lru k ≡ some v) × (evicted ≡ some (k, v)))
      × ((j : K) → value lru' j ≡ (if e.beq k j then none else value lru j))

  evicted_first :
      (lru : Lru K V) (t : ℕ) (k : K) (order : List (ℕ × K)) (v : V)
      → IsCache lru
      → lru.order_map ≡ (t, k) ∷ order
      → get lru.entries k ≡ some (v, t)
      → Evicts lru (k ∷ map second order) (evict_entry lru order k (some (v, t)))
  evicted_first lru t k order v cache q found =
      let ascending : IsAscending ((t, k) ∷ order) = subst IsAscending q cache.ascending in
      let below = subst (All (λ (entry : ℕ × K). entry.0 < lru.next_timestamp)) q cache.below in
      (
        record {
          ascending = ascending.1;
          below = below.1;
          agree = λ s j. (
            λ m.
                let (w, there) = (cache.agree s j).0 (subst (Memᴰ (s, j)) (sym q) (Memᴰ.tail m)) in
                let low = All_mem _ order ascending.0 m in
                elim (beq-cases k j) [
                  | inl (same, p) ↦
                      let time : t ≡ s =
                        ap (λ x. x.1)
                          (some-injective (sym found ∙ ap (get lru.entries) same ∙ there)) in
                      absurd (omega (arith, low, time))
                  | inr (differ, p) ↦ (
                    w,
                    get-erase lru.entries k j
                        ∙ ap (λ b. if b then none else get lru.entries j) p
                        ∙ there,
                  )
                ],
            λ (w, there).
                let erased = sym (get-erase lru.entries k j) ∙ there in
                elim (beq-cases k j) [
                  | inl (same, p) ↦ absurd (
                      none-ne-some
                        (ap (λ b. if b then none else get lru.entries j) (sym p) ∙ erased))
                  | inr (differ, p) ↦
                      let before : get lru.entries j ≡ some (w, s) =
                        ap (λ b. if b then none else get lru.entries j) (sym p) ∙ erased in
                      elim (Memᴰ.cases_cons
                        (subst (Memᴰ (s, j)) q ((cache.agree s j).1 (w, before)))) [
                          | inl here ↦ absurd (differ (ap (λ x. x.1) (sym here)))
                          | inr later ↦ later
                        ]
                ],
          );
        },
        refl,
        (v, ap (λ o. and_then o λ entry. some entry.0) found, refl),
        λ j.
            ap (λ o. and_then o λ entry. some entry.0) (get-erase lru.entries k j)
            ∙ elim (Bool-cases (e.beq k j)) [ inl p ↦ rw p refl | inr p ↦ rw p refl ],
      )

  evict_one-first : (lru : Lru K V) → evict_one lru ≡ evict_first lru lru.order_map
  unfolding evict_one
  evict_one-first lru = refl

  -- The key that was not used for longest is evicted with its value, and no other; an empty cache stays as
  -- it is.
  pub evict_one-Evicts : (lru : Lru K V) → IsCache lru → Evicts lru (recent lru) (evict_one lru)
  evict_one-Evicts lru cache =
      subst (Evicts lru (recent lru)) (sym (evict_one-first lru)) (by_order lru.order_map refl)
    where
      by_order :
          (order : List (ℕ × K))
          → lru.order_map ≡ order
          → Evicts lru (map second order) (evict_first lru order)
      by_order [] q = (refl, refl)
      by_order ((t, k) ∷ order) q =
          let (v, found) = (cache.agree t k).0 (subst (Memᴰ (t, k)) (sym q) (Memᴰ.head refl)) in
          subst (λ o. Evicts lru (k ∷ map second order) (evict_entry lru order k o)) (sym found)
            (evicted_first lru t k order v cache q found)
