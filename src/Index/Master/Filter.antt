-- ===== src/Index/Master/Filter.antt =====
-- The filter and the waiting blobs of a `MasterIndex` (crates/mapache/src/repository/index.rs).
use mathlib.Core.List.Memᴰ
use mapache.Prelude.{
  ℕ, ◌<◌, ◌≡◌, refl, sym, ap, subst, ◌∙◌, ◌⊎◌, inl, inr, Bool, true, false, not, List, [], ◌∷◌,
  ◌++◌, map, reverse, Memᴰ, Option, none, some, if◌then◌else◌, is_some, length, All, list_eq,
  nat_eq, Bool-cases, beq-cases, Option-cases, true-ne-false, All-append,
}
use mapache.Prelude.Order.{list_order, nat_order}
use mapache.Common.{ContentId, BlobType, data_blob, tree_blob}
use mapache.Collections.DedupFilter.{
  DedupFilter, add_all, add_all-Formed, add_all_keeps, test-add_all,
}
use mapache.Collections.ShardedIdSet as ShardedIdSet
use mapache.Collections.ShardedIdSet.{HasShards, shard_of, contains-insert, insert-HasShards}
use mapache.Index.BlobMap as BlobMap
use mapache.Index.BlobMap.{BlobLocationInternal, Entry}
use mapache.Index.BlobMap.Lookup.{contains-get, get-Memᴰ}
use mapache.Index.State as Index
use mapache.Index.State.{Index, resolve_location, resolved, keep_resolved, iter_ids}
use mapache.Index.AddPack.{map_of}
use mapache.Index.Validity.{IsValid, get_elem?-of_lt}
use mapache.Index.Master.{
  MasterIndex, any_contains, contains, ids_of, add_index, add_indices, add_ids,
  initialize_bloom_filter, add_pending_blob,
}
use mapache.Index.Master.Known.{
  FilterKnows, IsReady, IsKnowing, contains-IsKnowing, any_contains-append, any_contains-reverse,
}

or_false : (p : Bool) → (if p then true else false) ≡ p
or_false true = refl
or_false false = refl

map_append_Memᴰ :
    (xs ys : List (ContentId × Index.BlobLocator)) (k : ContentId)
    → Memᴰ k (map (λ entry. entry.0) xs) ⊎ Memᴰ k (map (λ entry. entry.0) ys)
    → Memᴰ k (map (λ entry. entry.0) (xs ++ ys))
map_append_Memᴰ [] ys k (inl m) = absurd (Memᴰ.not-nil m)
map_append_Memᴰ [] ys k (inr m) = m
map_append_Memᴰ (x ∷ xs) ys k (inr m) = Memᴰ.tail (map_append_Memᴰ xs ys k (inr m))
map_append_Memᴰ (x ∷ xs) ys k (inl m) = elim (Memᴰ.cases_cons m) [
  | inl here ↦ Memᴰ.head here
  | inr later ↦ Memᴰ.tail (map_append_Memᴰ xs ys k (inl later))
]

module _ {F : Type 0} ⦃filter : DedupFilter F⦄ where
  -- An entry whose pack is known is iterated over.
  resolved-Memᴰ :
      (idx : Index F) (t : BlobType) (entries : List Entry) (k : ContentId)
      (loc : BlobLocationInternal)
      → loc.pack_array_index < length idx.pack_ids.values
      → Memᴰ (k, loc) entries
      → Memᴰ k (map (λ entry. entry.0) (resolved idx t entries))
  resolved-Memᴰ idx t [] k loc low m = absurd (Memᴰ.not-nil m)
  resolved-Memᴰ idx t ((k', loc') ∷ entries) k loc low m = elim (Memᴰ.cases_cons m) [
    | inl here ↦
        let same : k ≡ k' = ap (λ e. e.0) here in
        let same_loc : loc ≡ loc' = ap (λ e. e.1) here in
        let low' : loc'.pack_array_index < length idx.pack_ids.values =
          subst (λ (l : BlobLocationInternal). l.pack_array_index < length idx.pack_ids.values)
            same_loc low in
        let (p, at) = get_elem?-of_lt idx.pack_ids.values loc'.pack_array_index low' in
        rw at (Memᴰ.head same)
    | inr later ↦ skip (resolve_location idx loc' t) (resolved-Memᴰ idx t entries k loc low later)
  ]
    where
      skip :
          (o : Option Index.BlobLocator)
          → Memᴰ k (map (λ entry. entry.0) (resolved idx t entries))
          → Memᴰ k (map (λ entry. entry.0) (keep_resolved k' o (resolved idx t entries)))
      skip none m = m
      skip (some l) m = Memᴰ.tail m

  -- An ID of a map is iterated over.
  map_contains-Memᴰ :
      (idx : Index F) (t : BlobType) (k : ContentId)
      → IsValid idx
      → BlobMap.contains (map_of t idx) k ≡ true
      → Memᴰ k (map (λ entry. entry.0) (resolved idx t (BlobMap.iter (map_of t idx))))
  map_contains-Memᴰ idx t k valid h = by_get (Option-cases (BlobMap.get (map_of t idx) k))
    where
      by_get :
          (BlobMap.get (map_of t idx) k ≡ none)
            ⊎ ((loc : BlobLocationInternal) × (BlobMap.get (map_of t idx) k ≡ some loc))
          → Memᴰ k (map (λ entry. entry.0) (resolved idx t (BlobMap.iter (map_of t idx))))
      by_get (inl q) = absurd (true-ne-false (sym h ∙ contains-get (map_of t idx) k ∙ ap is_some q))
      by_get (inr (loc, q)) =
          resolved-Memᴰ idx t (BlobMap.iter (map_of t idx)) k loc (valid.packs t k loc q)
            (get-Memᴰ (map_of t idx) k q)

  ids_of-Memᴰ :
      (idx : Index F) (k : ContentId)
      → IsValid idx
      → Index.contains idx k ≡ true
      → Memᴰ k (ids_of idx)
  ids_of-Memᴰ idx k valid h =
      let data_entries = resolved idx data_blob (BlobMap.iter idx.data_ids) in
      let tree_entries = resolved idx tree_blob (BlobMap.iter idx.tree_ids) in
      elim (Bool-cases (BlobMap.contains idx.data_ids k)) [
        | inl q ↦
            map_append_Memᴰ data_entries tree_entries k
              (inl (map_contains-Memᴰ idx data_blob k valid q))
        | inr q ↦
            let h' : BlobMap.contains idx.tree_ids k ≡ true =
              subst (λ t. (if t then true else BlobMap.contains idx.tree_ids k) ≡ true) q h in
            map_append_Memᴰ data_entries tree_entries k
              (inr (map_contains-Memᴰ idx tree_blob k valid h'))
      ]

  add_indices-knows :
      (bf : F) (indices : List (Index F))
      → filter.Formed bf
      → All IsReady indices
      → filter.Formed (add_indices bf indices)
        × ((k : ContentId)
            → (filter.test bf k ≡ true) ⊎ (any_contains indices k ≡ true)
            → filter.test (add_indices bf indices) k ≡ true)
  add_indices-knows bf [] formed ready =
      (formed, λ k c. elim c [ inl q ↦ q | inr q ↦ absurd (true-ne-false (sym q)) ])
  add_indices-knows bf (idx ∷ indices) formed ready =
      let (formed', knows) =
        add_indices-knows (add_all bf (ids_of idx)) indices (add_all-Formed bf (ids_of idx) formed)
          ready.1 in
      (
        formed',
        λ k c. elim c [
          | inl old ↦ knows k (inl (add_all_keeps bf (ids_of idx) k old))
          | inr there ↦ elim (Bool-cases (Index.contains idx k)) [
            | inl here ↦
                knows k
                  (inl (test-add_all bf (ids_of idx) formed (ids_of-Memᴰ idx k ready.0.0 here)))
            | inr later ↦
                knows k (
                  inr
                    (subst (λ t. (if t then true else any_contains indices k) ≡ true) later there))
          ]
        ],
      )

  -- A filter made of the indices hides none of their blobs, whatever size was asked for.
  pub initialize_bloom_filter-IsKnowing :
      (master : MasterIndex F) (total_blobs : ℕ)
      → All IsReady master.indices
      → HasShards master.pending_blobs
      → IsKnowing (initialize_bloom_filter master total_blobs)
  unfolding initialize_bloom_filter
  initialize_bloom_filter-IsKnowing master total_blobs ready shards =
      let (formed, knows) =
        add_indices-knows (filter.fresh total_blobs) master.indices
          (filter.fresh_formed total_blobs) ready in
      record { ready = ready; knows = (formed, λ k there. knows k (inr there)); shards = shards }

  -- An index that is loaded enters the filter with all its blobs.
  pub add_index-IsKnowing :
      (master : MasterIndex F) (idx : Index F)
      → IsKnowing master
      → IsReady idx
      → IsKnowing (add_index master idx)
  unfolding add_index
  add_index-IsKnowing master idx known ready = record {
    ready = All-append IsReady master.indices (idx ∷ []) known.ready (ready, tt);
    knows = by_filter master.bloom_filter known.knows;
    shards = known.shards;
  }
    where
      by_filter :
          (bf : Option F)
          → FilterKnows bf master.indices
          → FilterKnows (add_ids bf (ids_of idx)) (master.indices ++ (idx ∷ []))
      by_filter none knows = tt
      by_filter (some bf) knows = (
        add_all-Formed bf (ids_of idx) knows.0,
        λ k there. elim (Bool-cases (any_contains master.indices k)) [
          | inl old ↦ add_all_keeps bf (ids_of idx) k (knows.1 k old)
          | inr absent ↦
              let there' = sym (any_contains-append master.indices (idx ∷ []) k) ∙ there in
              let here : (if Index.contains idx k then true else false) ≡ true =
                subst
                  (λ t. (if t then true else if Index.contains idx k then true else false) ≡ true)
                  absent there' in
              test-add_all bf (ids_of idx) knows.0
                (ids_of-Memᴰ idx k ready.0 (sym (or_false (Index.contains idx k)) ∙ here))
        ],
      )

  waiting : MasterIndex F → ContentId → MasterIndex F
  waiting master k = record {
    indices = master.indices;
    bloom_filter = master.bloom_filter;
    pending_blobs = (ShardedIdSet.insert master.pending_blobs k).1;
    auto_save = master.auto_save;
  }

  waiting-IsKnowing :
      (master : MasterIndex F) (k : ContentId) → IsKnowing master → IsKnowing (waiting master k)
  unfolding waiting
  waiting-IsKnowing master k known = record {
    ready = known.ready;
    knows = known.knows;
    shards = insert-HasShards master.pending_blobs k known.shards;
  }

  waiting_parts :
      (master : MasterIndex F) (k j : ContentId)
      → HasShards master.pending_blobs
      → shard_of k < 256
      → (if ShardedIdSet.contains (waiting master k).pending_blobs j
          then true
          else any_contains (waiting master k).indices j)
        ≡ (if (if list_eq.beq k j then true else ShardedIdSet.contains master.pending_blobs j)
            then true
            else any_contains master.indices j)
  unfolding waiting
  waiting_parts master k j shards byte =
      ap (λ t. if t then true else any_contains master.indices j)
        (contains-insert master.pending_blobs k j shards byte)

  contains-waiting :
      (master : MasterIndex F) (k j : ContentId)
      → IsKnowing master
      → shard_of k < 256
      → contains (waiting master k) j ≡ (if list_eq.beq k j then true else contains master j)
  contains-waiting master k j known byte =
      contains-IsKnowing (waiting master k) j (waiting-IsKnowing master k known)
      ∙ waiting_parts master k j known.shards byte
      ∙ assoc (list_eq.beq k j) (ShardedIdSet.contains master.pending_blobs j)
          (any_contains master.indices j)
      ∙ ap (λ t. if list_eq.beq k j then true else t) (sym (contains-IsKnowing master j known))
    where
      assoc :
          (p q r : Bool)
          → (if (if p then true else q) then true else r)
            ≡ (if p then true else (if q then true else r))
      assoc true q r = refl
      assoc false q r = refl

  add_pending_blob-new :
      (master : MasterIndex F) (k : ContentId)
      → ShardedIdSet.contains master.pending_blobs k ≡ false
      → any_contains (reverse master.indices) k ≡ false
      → add_pending_blob master k ≡ (true, waiting master k)
  unfolding add_pending_blob waiting ShardedIdSet.insert
  add_pending_blob-new master k q r = rw (q, r) refl

  add_pending_blob-old :
      (master : MasterIndex F) (k : ContentId)
      → (ShardedIdSet.contains master.pending_blobs k ≡ true)
        ⊎ (any_contains (reverse master.indices) k ≡ true)
      → add_pending_blob master k ≡ (false, master)
  unfolding add_pending_blob
  add_pending_blob-old master k (inl q) = rw q refl
  add_pending_blob-old master k (inr r) =
      elim (Bool-cases (ShardedIdSet.contains master.pending_blobs k)) [
        | inl q ↦ rw q refl
        | inr q ↦ rw (q, r) refl
      ]

  pub add_pending_blob-IsKnowing :
      (master : MasterIndex F) (k : ContentId)
      → IsKnowing master
      → IsKnowing (add_pending_blob master k).1
  add_pending_blob-IsKnowing master k known =
      elim (Bool-cases (ShardedIdSet.contains master.pending_blobs k)) [
        | inl q ↦ subst (λ r. IsKnowing r.1) (sym (add_pending_blob-old master k (inl q))) known
        | inr q ↦ elim (Bool-cases (any_contains (reverse master.indices) k)) [
          | inl r ↦ subst (λ r. IsKnowing r.1) (sym (add_pending_blob-old master k (inr r))) known
          | inr r ↦
              subst (λ r. IsKnowing r.1) (sym (add_pending_blob-new master k q r))
                (waiting-IsKnowing master k known)
        ]
      ]

  -- What a call that takes a blob, or finds it known, promises.
  abbrev pub Takes : MasterIndex F → ContentId → Bool × MasterIndex F → Type 0
  Takes master k (taken, master') =
      (taken ≡ not (contains master k))
      × IsKnowing master'
      × ((j : ContentId)
          → contains master' j ≡ (if list_eq.beq k j then true else contains master j))

  old-Takes :
      (master : MasterIndex F) (k : ContentId)
      → IsKnowing master
      → contains master k ≡ true
      → Takes master k (false, master)
  old-Takes master k known there = (
    ap not (sym there),
    known,
    λ j. elim (beq-cases k j) [
      | inl (same, q) ↦ ap (contains master) (sym same) ∙ there ∙ rw q refl
      | inr (other, q) ↦ rw q refl
    ],
  )

  -- In a consistent master index, for an ID whose first byte is one: the blob is taken exactly when
  -- it was unknown, and is known from then on; the other ones are as before, and the master index
  -- stays consistent.
  pub add_pending_blob-Takes :
      (master : MasterIndex F) (k : ContentId)
      → IsKnowing master
      → shard_of k < 256
      → Takes master k (add_pending_blob master k)
  add_pending_blob-Takes master k known byte =
      let searched =
        any_contains-reverse master.indices [] k ∙ or_false (any_contains master.indices k) in
      let seen = contains-IsKnowing master k known in
      elim (Bool-cases (ShardedIdSet.contains master.pending_blobs k)) [
        | inl q ↦
            subst (Takes master k) (sym (add_pending_blob-old master k (inl q)))
              (old-Takes master k known (seen ∙ rw q refl))
        | inr q ↦ elim (Bool-cases (any_contains master.indices k)) [
          | inl r ↦
              subst (Takes master k) (sym (add_pending_blob-old master k (inr (searched ∙ r))))
                (old-Takes master k known (seen ∙ rw (q, r) refl))
          | inr r ↦ subst (Takes master k) (sym (add_pending_blob-new master k q (searched ∙ r))) (
            ap not (sym (absent q r seen)),
            waiting-IsKnowing master k known,
            λ j. contains-waiting master k j known byte,
          )
        ]
      ]
    where
      absent :
          ShardedIdSet.contains master.pending_blobs k ≡ false
          → any_contains master.indices k ≡ false
          → contains master k ≡ (
              if ShardedIdSet.contains master.pending_blobs k
              then true
              else any_contains master.indices k)
          → contains master k ≡ false
      absent q r seen = seen ∙ rw (q, r) refl
