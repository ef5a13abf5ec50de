-- ===== src/Index/BlobMap/Lookup.antt =====
-- A frozen `BlobMap` answers like the map it was made of (crates/mapache/src/repository/index.rs).
use mathlib.Core.List.Memᴰ
use mapache.Prelude.{
  ℕ, ◌≡◌, refl, sym, ap, subst, ◌∙◌, ◌⊎◌, inl, inr, true, not, List, [], Memᴰ, Option, none, some,
  if◌then◌else◌, length, map, and_then, is_some, list_eq, nat_eq, Bool-cases, Option-cases,
  none-ne-some, some-injective,
}
use mapache.Prelude.Order.{list_order, nat_order}
use mapache.Prelude.Search.{
  sort_by_key, binary_search_by_key, IsSorted, Memᴰ-sort_by_key, sort_by_key-IsSorted,
  binary_search_by_key-finds, binary_search_by_key_sound, Memᴰ-get_elem?,
}
use mapache.Common.{ContentId}
use mapache.Collections.Maps as Maps
use mapache.Collections.Maps.{Memᴰ-of_get, Memᴰ-erase}
use mapache.Collections.DedupFilter.{DedupFilter, test-add_all}
use mapache.Index.BlobMap.{
  BlobLocationInternal, Entry, id_of, BlobMap, mutable, immutable, location_at, contains, get, iter,
  frozen, freeze,
}

-- A key stands once, with the value that a lookup gives.
abbrev pub IsMap : List Entry → Type 0
IsMap entries =
    (id : ContentId) (loc : BlobLocationInternal)
    → Memᴰ (id, loc) entries
    → Maps.get entries id ≡ some loc

pub nil-IsMap : IsMap []
nil-IsMap id loc m = absurd (Memᴰ.not-nil m)

pub put-IsMap :
    (entries : List Entry) (k : ContentId) (v : BlobLocationInternal)
    → IsMap entries
    → IsMap (Maps.put entries k v)
put-IsMap entries k v h id loc m = elim (Memᴰ.cases_cons m) [
  | inl here ↦
      let same : k ≡ id = ap (λ e. e.0) (sym here) in
      let hit = (list_eq.beq_iff k id).1 same in rw hit (ap some (ap (λ e. e.1) (sym here)))
  | inr later ↦
      let (old, miss) = Memᴰ-erase entries k id later in
      Maps.get-put entries k id v
      ∙ ap (λ t. if t then some v else Maps.get entries id) miss
      ∙ h id loc old
]

-- A position that the search gives holds the ID.
located :
    (entries : List Entry) (id : ContentId) (found : Option ℕ) {loc : BlobLocationInternal}
    → binary_search_by_key id_of entries id ≡ found
    → and_then found (location_at entries) ≡ some loc
    → Memᴰ (id, loc) entries
located entries id none hit q = absurd (none-ne-some q)
located entries id (some j) {loc} hit q =
    let (entry, at, same) = binary_search_by_key_sound id_of entries id j hit in
    let value : entry.1 ≡ loc =
      some-injective (sym (ap (λ o. and_then o λ entry. some entry.1) at) ∙ q) in
    let m = Memᴰ-get_elem? entries j at in
    subst (λ k. Memᴰ (k, loc) entries) same (subst (λ l. Memᴰ (entry.0, l) entries) value m)

module _ {F : Type 0} ⦃filter : DedupFilter F⦄ where
  -- A hash map has each key once; a frozen one is sorted, and its filter knows every ID.
  abbrev pub IsWellFormed : BlobMap F → Type 0
  IsWellFormed (mutable entries) = IsMap entries
  IsWellFormed (immutable entries bf) =
      IsSorted id_of entries
      × ((entry : Entry) → Memᴰ entry entries → filter.test bf entry.0 ≡ true)

  -- What a lookup gives is an entry.
  pub get-Memᴰ :
      (blob_map : BlobMap F) (id : ContentId) {loc : BlobLocationInternal}
      → get blob_map id ≡ some loc
      → Memᴰ (id, loc) (iter blob_map)
  unfolding get
  get-Memᴰ (mutable entries) id q = Memᴰ-of_get entries id q
  get-Memᴰ (immutable entries bf) id {loc} q =
      let search = binary_search_by_key id_of entries id in
      let found : and_then search (location_at entries) ≡ some loc =
        elim (Bool-cases (filter.test bf id)) [
          | inr miss ↦ absurd (
              none-ne-some (
                subst
                  (λ t. (if not t then none else and_then search (location_at entries)) ≡ some loc)
                  miss q))
          | inl hit ↦
              subst
                (λ t. (if not t then none else and_then search (location_at entries)) ≡ some loc)
                hit q
        ] in
      located entries id search refl found

  -- An ID with an entry is found.
  pub get-finds :
      (blob_map : BlobMap F) (id : ContentId) (loc : BlobLocationInternal)
      → IsWellFormed blob_map
      → Memᴰ (id, loc) (iter blob_map)
      → (found : BlobLocationInternal) × (get blob_map id ≡ some found)
  unfolding get
  get-finds (mutable entries) id loc h m = (loc, h id loc m)
  get-finds (immutable entries bf) id loc h m =
      let hit : filter.test bf id ≡ true = h.1 (id, loc) m in
      let (j, b, at_j, at, same) =
        binary_search_by_key-finds id_of entries id (id, loc) h.0 m refl in
      (b.1, rw (hit, at_j, at) refl)

  -- `contains` is whether `get` gives a location.
  pub contains-get :
      (blob_map : BlobMap F) (id : ContentId) → contains blob_map id ≡ is_some (get blob_map id)
  unfolding contains get
  contains-get (mutable entries) id = refl
  contains-get (immutable entries bf) id = elim (Bool-cases (filter.test bf id)) [
    | inr miss ↦ rw miss refl
    | inl hit ↦ rw hit (by_search (Option-cases (binary_search_by_key id_of entries id)))
  ]
    where
      by_search :
          (binary_search_by_key id_of entries id ≡ none)
            ⊎ ((j : ℕ) × (binary_search_by_key id_of entries id ≡ some j))
          → is_some (binary_search_by_key id_of entries id)
            ≡ is_some (and_then (binary_search_by_key id_of entries id) (location_at entries))
      by_search (inl q) = rw q refl
      by_search (inr (j, q)) =
          let (entry, at, same) = binary_search_by_key_sound id_of entries id j q in rw (q, at) refl

module _ (F : Type 0) ⦃filter : DedupFilter F⦄ where
  -- A frozen vector is well-formed, whatever the entries.
  pub frozen-IsWellFormed : (entries : List Entry) → IsWellFormed {F = F} (frozen entries)
  unfolding frozen
  frozen-IsWellFormed entries =
      let sorted = sort_by_key id_of entries in
      (
        sort_by_key-IsSorted id_of entries,
        λ entry m.
            test-add_all (filter.fresh (length sorted)) (map id_of sorted)
              (filter.fresh_formed (length sorted)) (Memᴰ.map id_of m),
      )

  pub iter-frozen :
      (entries : List Entry) → iter {F = F} (frozen entries) ≡ sort_by_key id_of entries
  unfolding frozen
  iter-frozen entries = refl

  -- A frozen vector of a map answers like the map.
  get-frozen :
      (entries : List Entry) (id : ContentId)
      → IsMap entries
      → get {F = F} (frozen entries) id ≡ Maps.get entries id
  get-frozen entries id h = elim (Option-cases (get {F = F} (frozen entries) id)) [
    | inr (loc, q) ↦
        let m = get-Memᴰ {F = F} (frozen entries) id q in
        let m' =
          (Memᴰ-sort_by_key id_of (id, loc) entries).0
            (subst (Memᴰ (id, loc)) (iter-frozen entries) m) in
        q ∙ sym (h id loc m')
    | inl q ↦ elim (Option-cases (Maps.get entries id)) [
      | inl q' ↦ q ∙ sym q'
      | inr (loc, q') ↦
          let m = (Memᴰ-sort_by_key id_of (id, loc) entries).1 (Memᴰ-of_get entries id q') in
          let (found, r) =
            get-finds {F = F} (frozen entries) id loc (frozen-IsWellFormed entries)
              (subst (Memᴰ (id, loc)) (sym (iter-frozen entries)) m) in
          absurd (none-ne-some (sym q ∙ r))
    ]
  ]

  get-mutable :
      (entries : List Entry) (id : ContentId)
      → Maps.get entries id ≡ get {F = F} (mutable entries) id
  unfolding get
  get-mutable entries id = refl

module _ {F : Type 0} ⦃filter : DedupFilter F⦄ where
  pub freeze-IsWellFormed :
      (blob_map : BlobMap F) → IsWellFormed blob_map → IsWellFormed (freeze blob_map)
  unfolding freeze
  freeze-IsWellFormed (mutable entries) h = frozen-IsWellFormed F entries
  freeze-IsWellFormed (immutable entries bf) h = h

  -- Freezing a well-formed map changes no answer.
  pub get-freeze :
      (blob_map : BlobMap F) (id : ContentId)
      → IsWellFormed blob_map
      → get (freeze blob_map) id ≡ get blob_map id
  unfolding freeze
  get-freeze (mutable entries) id h = get-frozen F entries id h ∙ get-mutable F entries id
  get-freeze (immutable entries bf) id h = refl
