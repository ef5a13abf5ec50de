-- ===== src/Collections/Tests.antt =====
-- The containers on concrete data.
use mapache.Prelude.{
  ◌+◌, ◌*◌, ◌^◌, ◌<◌, Memᴰ, false, not, some, if◌then◌else◌, length, replicate, none-ne-some,
  list_eq, arith, ℕ, ◌≡◌, refl, subst, true, [], ◌∷◌, ok, nat_eq,
}
use mathlib.Core.List.Memᴰ
use mapache.Common.{ContentId}
use mapache.Binary.{from_le_bytes}
use mapache.Collections.BloomFilter as BloomFilter
use mapache.Collections.BloomFilter.{Sizing}
use mapache.Collections.BloomFilter.Laws.{word_idx-lt, new-IsFormed}
use mapache.Collections.DedupFilter.{bloom_filter, add_all, contains-new}
use mapache.Collections.ShardedIdSet as ShardedIdSet
use mapache.Collections.ShardedIdSet.{shards_act_as_set}
use mapache.Collections.Lru as Lru
use mapache.Collections.Lru.{Lru}
use mapache.Collections.Lru.Refines.{
  IsCache, Stamps, Hits, Evicts, recent, insert-Stamps, evict_one-Evicts,
}
use mapache.Collections.IndexSet.{IndexSet, new, insert, remove}
use mapache.Collections.IndexSet.Insert.{IsIndexed, Inserts, new-IsIndexed, insert-Inserts}
use mapache.Collections.IndexSet.Remove.{Removes, remove-Removes}

abbrev three : IndexSet ℕ
three = record { values = 7 ∷ 8 ∷ 9 ∷ []; map = (9, 2) ∷ (8, 1) ∷ (7, 0) ∷ [] }

three_inserted : (insert (insert (insert new 7).1 8).1 9).1 ≡ three
unfolding insert
three_inserted = refl

-- The last value takes the place of the removed one.
first_removed :
    remove three 7 ≡ ok (true, record { values = 9 ∷ 8 ∷ []; map = (9, 0) ∷ (8, 1) ∷ [] })
unfolding remove
first_removed = refl

abbrev one : IndexSet ℕ
one = (insert new 7).1

abbrev two : IndexSet ℕ
two = (insert one 8).1

one-IsIndexed : IsIndexed {T = ℕ} one
one-IsIndexed = (insert-Inserts {T = ℕ} new 7 new-IsIndexed).0

two-IsIndexed : IsIndexed {T = ℕ} two
two-IsIndexed = (insert-Inserts {T = ℕ} one 8 one-IsIndexed).0

three-IsIndexed : IsIndexed {T = ℕ} three
three-IsIndexed =
    subst (IsIndexed {T = ℕ}) three_inserted (insert-Inserts {T = ℕ} two 9 two-IsIndexed).0

insert-Inserts_example : Inserts {T = ℕ} three 4 (insert three 4)
insert-Inserts_example = insert-Inserts three 4 three-IsIndexed

remove-Removes_example : (s' : IndexSet ℕ) × Removes {T = ℕ} three 7 s'
remove-Removes_example = remove-Removes three 7 three-IsIndexed

-- A Bloom filter of three hashes, with one ID.
abbrev sizing : Sizing
sizing = record { ideal_bits = λ n. n * 10; hashes = λ m n. 3 }

abbrev an_id : ContentId
an_id = replicate 32 7

one_id : Memᴰ an_id (an_id ∷ [])
one_id = Memᴰ.head refl

contains-new_example :
    BloomFilter.contains
      (add_all ⦃filter = bloom_filter sizing⦄ (BloomFilter.new sizing 100) (an_id ∷ []))
      an_id
    ≡ true
contains-new_example = contains-new sizing 100 (an_id ∷ []) an_id one_id

another_unknown :
    BloomFilter.contains (BloomFilter.insert (BloomFilter.new sizing 100) an_id) (replicate 32 9)
    ≡ false
unfolding BloomFilter.contains BloomFilter.insert BloomFilter.new BloomFilter.set_bits
    BloomFilter.all_set BloomFilter.word_idx BloomFilter.bit_in_word BloomFilter.bit_idx
    from_le_bytes
another_unknown = refl

word_idx-lt_example :
    BloomFilter.word_idx an_id (BloomFilter.new sizing 100).bit_count 2
    < length (BloomFilter.new sizing 100).bits
word_idx-lt_example = word_idx-lt (BloomFilter.new sizing 100) an_id 2 (new-IsFormed sizing 100)

shards_act_as_set_example :
    ((ShardedIdSet.insert ShardedIdSet.new an_id).0
      ≡ not (ShardedIdSet.contains ShardedIdSet.new an_id))
    × (ShardedIdSet.contains (ShardedIdSet.insert ShardedIdSet.new an_id).1 an_id
        ≡ (if list_eq.beq an_id an_id then true else ShardedIdSet.contains ShardedIdSet.new an_id))
    × ((ShardedIdSet.remove ShardedIdSet.new an_id).0
        ≡ ShardedIdSet.contains ShardedIdSet.new an_id)
    × (ShardedIdSet.contains (ShardedIdSet.remove ShardedIdSet.new an_id).1 an_id
        ≡ (if list_eq.beq an_id an_id then false else ShardedIdSet.contains ShardedIdSet.new an_id))
    × (ShardedIdSet.contains (ShardedIdSet.clear ShardedIdSet.new) an_id ≡ false)
shards_act_as_set_example =
    shards_act_as_set ShardedIdSet.new an_id an_id ShardedIdSet.new-HasShards (omega arith)

-- A cache of two keys, of which the first one was hit.
abbrev empty_cache : Lru ℕ ℕ
empty_cache = Lru.new

empty-IsCache : IsCache empty_cache
empty-IsCache = record {
  ascending = tt;
  below = tt;
  agree = λ t k. (λ m. absurd (Memᴰ.not-nil m), λ q. absurd (none-ne-some q.1));
}

abbrev one_key_cache : Lru ℕ ℕ
one_key_cache = Lru.insert empty_cache 5 50

empty_early : empty_cache.next_timestamp + 1 < 2 ^ 64
empty_early = omega arith

one_key-IsCache : IsCache one_key_cache
one_key-IsCache = (insert-Stamps empty_cache 5 empty-IsCache 50 empty_early).0.cached

one_key_early : one_key_cache.next_timestamp + 1 < 2 ^ 64
unfolding Lru.insert
one_key_early = omega arith

insert-Stamps_example :
    Stamps one_key_cache 5 one_key-IsCache 51 (Lru.insert one_key_cache 5 51)
    × Hits one_key_cache 5 one_key-IsCache (Lru.record_hit one_key_cache 5)
insert-Stamps_example = insert-Stamps one_key_cache 5 one_key-IsCache 51 one_key_early

evict_one-Evicts_example : Evicts one_key_cache (recent one_key_cache) (Lru.evict_one one_key_cache)
evict_one-Evicts_example = evict_one-Evicts one_key_cache one_key-IsCache

first_in_first_out :
    (Lru.evict_one (Lru.insert (Lru.record_hit (Lru.insert one_key_cache 6 60) 5).1 7 70)).0
    ≡ some (6, 60)
unfolding Lru.evict_one Lru.insert Lru.record_hit
first_in_first_out = refl
