-- ===== src/Collections/DedupFilter.antt =====
-- What the index asks of its filter: a set that may report an ID too many, and never one too few.
-- `BloomFilter` (crates/mapache/src/utils/collections/bloom_filter.rs) is the implementation.
use mathlib.Core.List.Memᴰ
use mapache.Prelude.{ap, ◌∙◌, ℕ, Bool, true, List, [], ◌∷◌, ◌≡◌, Memᴰ}
use mapache.Common.{ContentId}
use mapache.Collections.BloomFilter.{BloomFilter, Sizing, new, insert, contains}
use mapache.Collections.BloomFilter.Laws.{
  IsFormed, new-IsFormed, insert-IsFormed, contains-insert, contains-insert_keeps,
}

pub record DedupFilter (F : Type 0) : Type 1 where
  pub fresh : ℕ → F
  pub add : F → ContentId → F
  pub test : F → ContentId → Bool
  pub Formed : F → Type 0
  pub fresh_formed : (num_items : ℕ) → Formed (fresh num_items)
  pub add_formed : (f : F) (id : ContentId) → Formed f → Formed (add f id)
  pub add_test : (f : F) (id : ContentId) → Formed f → test (add f id) id ≡ true
  pub add_keeps :
      (f : F) (id other : ContentId) → test f other ≡ true → test (add f id) other ≡ true

abbrev pub bloom_filter : Sizing → DedupFilter BloomFilter
bloom_filter sizing = record {
  fresh = new sizing;
  add = insert;
  test = contains;
  Formed = IsFormed;
  fresh_formed = new-IsFormed sizing;
  add_formed = insert-IsFormed;
  add_test = contains-insert;
  add_keeps = contains-insert_keeps;
}

module _ {F : Type 0} ⦃filter : DedupFilter F⦄ where
  -- The loop that enters a list of IDs.
  abbrev pub add_all : F → List ContentId → F
  add_all f [] = f
  add_all f (id ∷ ids) = add_all (filter.add f id) ids

  pub add_all-Formed :
      (f : F) (ids : List ContentId) → filter.Formed f → filter.Formed (add_all f ids)
  add_all-Formed f [] h = h
  add_all-Formed f (id ∷ ids) h = add_all-Formed (filter.add f id) ids (filter.add_formed f id h)

  pub add_all_keeps :
      (f : F) (ids : List ContentId) (other : ContentId)
      → filter.test f other ≡ true
      → filter.test (add_all f ids) other ≡ true
  add_all_keeps f [] other h = h
  add_all_keeps f (id ∷ ids) other h =
      add_all_keeps (filter.add f id) ids other (filter.add_keeps f id other h)

  -- Every ID that was entered is reported.
  pub test-add_all :
      (f : F) (ids : List ContentId) {id : ContentId}
      → filter.Formed f
      → Memᴰ id ids
      → filter.test (add_all f ids) id ≡ true
  test-add_all f [] h m = absurd (Memᴰ.not-nil m)
  test-add_all f (id ∷ ids) h (Memᴰ.head same) =
      add_all_keeps (filter.add f id) ids _
        (ap (filter.test (filter.add f id)) same ∙ filter.add_test f id h)
  test-add_all f (id ∷ ids) h (Memᴰ.tail m) =
      test-add_all (filter.add f id) ids (filter.add_formed f id h) m

-- A new `BloomFilter`, of any size, reports every ID that was inserted into it.
pub contains-new :
    (sizing : Sizing) (num_items : ℕ) (ids : List ContentId) (id : ContentId)
    → Memᴰ id ids
    → contains (add_all ⦃filter = bloom_filter sizing⦄ (new sizing num_items) ids) id ≡ true
contains-new sizing num_items ids id m =
    test-add_all ⦃filter = bloom_filter sizing⦄ (new sizing num_items) ids
      (new-IsFormed sizing num_items) m
