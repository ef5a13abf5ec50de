-- ===== src/Index/Tests.antt =====
-- An index of two packs, with a Bloom filter of three hashes, and the theorems on it.
use mathlib.Core.List.Memᴰ
use mapache.Prelude.{
  inl, false, err, io, ◌*◌, ◌<◌, ◌≤◌, ◌^◌, ◌≡◌, refl, true, List, [], ◌∷◌, ◌++◌, none, some, ok,
  if◌then◌else◌, or_else, length, replicate, All, list_eq, nat_eq, arith,
}
use mapache.Prelude.Order.{list_order, nat_order}
use mapache.Common.{ContentId, data_blob, tree_blob, padding}
use mapache.Collections.BloomFilter.{BloomFilter, Sizing}
use mapache.Collections.DedupFilter.{DedupFilter, bloom_filter}
use mapache.Collections.IndexSet as IndexSet
use mapache.Collections.ShardedIdSet as ShardedIdSet
use mapache.Packer.{PackedBlobDescriptor}
use mapache.Index.BlobMap as BlobMap
use mapache.Index.BlobMap.Lookup.{get-freeze}
use mapache.Index.State as Index
use mapache.Index.State.{Index, get_data, get_tree, add_pack, add_blobs}
use mapache.Index.AddPack.{AllMutable}
use mapache.Index.Validity.{
  IsValid, new_locator, add_pack-AllMutable, add_pack-IsValid, add_pack-locates,
}
use mapache.Index.File.{IndexFile, index_file, from_index_file}
use mapache.Index.File.RoundTrip.{from_index_file-index_file}
use mapache.Index.Master.{
  MasterIndex, any_contains, enter_pack, contains, add_pending_blob, initialize_bloom_filter,
}
use mapache.Index.Master as Master
use mapache.Index.Master.Known.{packed, IsReady, HasRoom, IsKnowing}
use mapache.Index.Master.Opened.{new-IsReady}
use mapache.Index.Master.Entered.{listed, HasByteIds, enter_pack-IsKnowing}
use mapache.Prelude.Search.{sort_by_key}
use mapache.Index.Merge.{gather, instance_key, get_pack_descriptors, merge_index}
use mapache.Index.Merge.Neutral.{any_contains-merge_none}
use mapache.Index.Merge.Keeps.{any_contains-merge_index}
use mapache.Index.History.{start, later, filters, adds}
use mapache.Index.History.Invariant.{contains-Reach}
use mapache.Index.Master.Flush.{add_pack_remembers}
use mapache.Index.Master.Filter.{initialize_bloom_filter-IsKnowing, Takes, add_pending_blob-Takes}

abbrev sizing : Sizing
sizing = record { ideal_bits = λ n. n * 10; hashes = λ m n. 3 }

instance abbrev test_filter : DedupFilter BloomFilter
test_filter = bloom_filter sizing

abbrev blob_a : ContentId
blob_a = replicate 32 7

abbrev blob_b : ContentId
blob_b = replicate 32 9

abbrev first_pack : ContentId
first_pack = replicate 32 1

abbrev second_pack : ContentId
second_pack = replicate 32 2

abbrev first_blobs : List PackedBlobDescriptor
first_blobs =
    record { id = blob_a; blob_type = data_blob; offset = 0; length = 10; raw_length = 30 } ∷ []

abbrev second_blobs : List PackedBlobDescriptor
second_blobs =
    record { id = blob_b; blob_type = tree_blob; offset = 0; length = 5; raw_length = 6 }
    ∷ record { id = blob_a; blob_type = data_blob; offset = 5; length = 10; raw_length = 30 }
    ∷ []

abbrev empty_index : Index BloomFilter
empty_index = Index.new 1

abbrev one_pack : Index BloomFilter
one_pack = add_pack empty_index first_pack first_blobs

empty_room : length empty_index.pack_ids.values < 2 ^ 32
empty_room = omega arith

one_pack-AllMutable : AllMutable one_pack
one_pack-AllMutable = add_pack-AllMutable empty_index first_pack first_blobs (tt, tt)

one_pack-IsValid : IsValid one_pack
one_pack-IsValid =
    add_pack-IsValid empty_index first_pack first_blobs (tt, tt) (new-IsReady BloomFilter 1).0
      empty_room

one_pack_room : length one_pack.pack_ids.values < 2 ^ 32
unfolding add_pack add_blobs IndexSet.insert
one_pack_room = omega arith

-- The later pack counts.
found_in_second :
    get_data (add_pack one_pack second_pack second_blobs) blob_a
    ≡ some (record {
      pack_id = second_pack;
      offset = 5;
      length = 10;
      raw_length = 30;
      blob_type = data_blob;
    })
unfolding add_pack add_blobs IndexSet.insert BlobMap.insert BlobMap.get
found_in_second = refl

add_pack-locates_example :
    (get_data (add_pack one_pack second_pack second_blobs) blob_a
      ≡ or_else (new_locator second_pack data_blob second_blobs blob_a) (get_data one_pack blob_a))
    × (get_tree (add_pack one_pack second_pack second_blobs) blob_a
        ≡ or_else
            (new_locator second_pack tree_blob second_blobs blob_a)
            (get_tree one_pack blob_a))
add_pack-locates_example =
    add_pack-locates one_pack second_pack second_blobs blob_a one_pack-AllMutable one_pack-IsValid
      one_pack_room

get-freeze_example :
    BlobMap.get (BlobMap.freeze one_pack.data_ids) blob_a ≡ BlobMap.get one_pack.data_ids blob_a
get-freeze_example = get-freeze one_pack.data_ids blob_a (one_pack-IsValid.formed data_blob)

one_pack_short : length one_pack.pack_ids.values ≤ 2 ^ 32
one_pack_short = omega (arith, one_pack_room)

from_index_file-index_file_example :
    (file : IndexFile) × (index_file one_pack ≡ ok file)
    × ((k : ContentId)
        → (get_data (from_index_file {F = BloomFilter} 2 file first_pack) k ≡ get_data one_pack k)
          × (get_tree (from_index_file {F = BloomFilter} 2 file first_pack) k
              ≡ get_tree one_pack k))
from_index_file-index_file_example =
    from_index_file-index_file one_pack one_pack-AllMutable one_pack-IsValid 2 first_pack
      one_pack_short

-- A master index with one index of one pack, and a filter.
abbrev unfiltered : MasterIndex BloomFilter
unfiltered = record {
  indices = one_pack ∷ [];
  bloom_filter = none;
  pending_blobs = ShardedIdSet.new;
  auto_save = true;
}

abbrev master : MasterIndex BloomFilter
master = initialize_bloom_filter unfiltered 100

unfiltered-IsReady : All IsReady unfiltered.indices
unfiltered-IsReady = ((one_pack-IsValid, λ q. one_pack-AllMutable), tt)

master-IsKnowing : IsKnowing master
master-IsKnowing = initialize_bloom_filter-IsKnowing unfiltered 100 unfiltered-IsReady refl

master_room : All HasRoom master.indices
unfolding initialize_bloom_filter
master_room = (one_pack_room, tt)

-- As the worker passes them: with padding.
abbrev padded_blobs : List PackedBlobDescriptor
padded_blobs =
    second_blobs
    ++ (record { id = replicate 32 4; blob_type = padding; offset = 1; length = 2; raw_length = 3 }
        ∷ [])

padded-HasByteIds : HasByteIds padded_blobs
padded-HasByteIds = (omega arith, (omega arith, (omega arith, tt)))

enter_pack-IsKnowing_example : IsKnowing (enter_pack 3 master second_pack padded_blobs)
enter_pack-IsKnowing_example =
    enter_pack-IsKnowing 3 master second_pack padded_blobs master-IsKnowing master_room

byte_b : ShardedIdSet.shard_of blob_b < 256
byte_b = omega arith

add_pending_blob-Takes_example : Takes master blob_b (add_pending_blob master blob_b)
add_pending_blob-Takes_example = add_pending_blob-Takes master blob_b master-IsKnowing byte_b

add_pack_remembers_example :
    contains (Master.add_pack 1 false (λ file. err io) 3 master second_pack padded_blobs).1 blob_b
    ≡ (if packed padded_blobs blob_b
        then true
        else if listed padded_blobs blob_b
        then any_contains master.indices blob_b
        else contains master blob_b)
add_pack_remembers_example =
    add_pack_remembers 1 false (λ file. err io) 3 master second_pack padded_blobs blob_b
      master-IsKnowing master_room padded-HasByteIds

-- A filter is made, a padded pack is entered, and the index that is not written waits for another try.
abbrev filtered : MasterIndex BloomFilter
filtered = initialize_bloom_filter Master.new 100

filtered_room : All HasRoom filtered.indices
unfolding initialize_bloom_filter
filtered_room = tt

abbrev entered : MasterIndex BloomFilter
entered = (Master.add_pack 1 false (λ file. err io) 3 filtered second_pack padded_blobs).1

contains-Reach_example : contains entered blob_b ≡ (
    if ShardedIdSet.contains entered.pending_blobs blob_b
    then true
    else any_contains entered.indices blob_b)
contains-Reach_example = contains-Reach entered blob_b (
    later (later start (filters Master.new 100))
      (adds filtered 1 false (λ file. err io) 3 second_pack padded_blobs filtered_room))

-- Two indices with the same data blob; the first pack is obsolete.
abbrev second_index : Index BloomFilter
second_index = add_pack (Index.new 4) second_pack second_blobs

second_found :
    get_data second_index blob_a
    ≡ some (record {
      pack_id = second_pack;
      offset = 5;
      length = 10;
      raw_length = 30;
      blob_type = data_blob;
    })
unfolding add_pack add_blobs IndexSet.insert BlobMap.insert BlobMap.get
second_found = refl

few_packs :
    length
      (gather (some (first_pack ∷ [])) (sort_by_key instance_key (one_pack ∷ second_index ∷ [])) [])
    ≤ 2 ^ 32
unfolding get_pack_descriptors add_pack add_blobs IndexSet.insert BlobMap.insert
few_packs = omega arith

second_index-IsReady : IsReady second_index
second_index-IsReady = (
  add_pack-IsValid (Index.new 4) second_pack second_blobs (tt, tt) (new-IsReady BloomFilter 4).0
      (let low : 0 < 2 ^ 32 = omega arith in low),
  λ q. add_pack-AllMutable (Index.new 4) second_pack second_blobs (tt, tt),
)

all_packs :
    length (gather none (sort_by_key instance_key (one_pack ∷ second_index ∷ [])) []) ≤ 2 ^ 32
unfolding get_pack_descriptors add_pack add_blobs IndexSet.insert BlobMap.insert
all_packs = omega arith

any_contains-merge_none_example :
    any_contains (merge_index 1000 5 none (one_pack ∷ second_index ∷ [])) blob_b
    ≡ any_contains (one_pack ∷ second_index ∷ []) blob_b
any_contains-merge_none_example =
    any_contains-merge_none 1000 5 (one_pack ∷ second_index ∷ []) blob_b
      ((one_pack-IsValid, λ q. one_pack-AllMutable), (second_index-IsReady, tt)) all_packs

any_contains-merge_index_example :
    any_contains (merge_index 1000 5 (some (first_pack ∷ [])) (one_pack ∷ second_index ∷ [])) blob_a
    ≡ true
any_contains-merge_index_example =
    any_contains-merge_index 1000 5 (some (first_pack ∷ [])) (one_pack ∷ second_index ∷ [])
      second_index blob_a
      (record {
        pack_id = second_pack;
        offset = 5;
        length = 10;
        raw_length = 30;
        blob_type = data_blob;
      })
      (Memᴰ.tail (Memᴰ.head refl)) (inl second_found) refl few_packs
